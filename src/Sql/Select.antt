-- ===== src/Sql/Select.antt =====
-- stmt.go (`selectRows`, `selectOne`): the rows that a query returns.
pub mod Loaded
use sqlr.Prelude.{
  Result, err, ok, ℕ, zero, suc, ◌+◌, List, [], ◌∷◌, ◌++◌, Option, none, some, Text, length,
}
use sqlr.Go.Unicode.{Unicode}
use sqlr.Wherein
use sqlr.Wherein.{Arg, expand}
use sqlr.Sql.Columns.{Column}
use sqlr.Sql.Outputs.{Outputs, OutputError, get_outputs}

-- What `sql.Rows` gives: the names of the columns, the rows that `Next` and `Scan` go through, and
-- the error of `Err` behind the last.
pub record Rows (V : Type 0) : Type 0 where
  pub columns : Result Text (List Text)
  pub cells : List (List V)
  pub last_error : Option Text

pub data SelectError : Type 0 where
  cannot_expand : Wherein.Error → SelectError
  refused rows_failed scan_failed json_failed : Text → SelectError
  no_outputs : OutputError → SelectError

-- What a call returns, a count and an error, and the slice or the row as it leaves it.
pub record Selected (A : Type 0) : Type 0 where
  pub count : ℕ
  pub error : Option SelectError
  pub dest : A

-- What a row is filled by: `Rows.Scan` into the cells of its fields, and then the cells of JSON. Each
-- gives its error, and the row as it leaves it.
pub record Filling (V R : Type 0) : Type 0 where
  pub new_row : R
  pub scan : Outputs → List V → R → Option Text × R
  pub unmarshal : Outputs → List V → R → Option Text × R

-- A return before there are rows
abbrev pub nothing : {A : Type 0} → SelectError → A → Selected A
nothing e dest = record { count = 0; error = some e; dest = dest }

module _ {V R : Type 0} (filling : Filling V R) where
  -- the loop of `selectRows` behind `Unmarshal`, and behind `Scan`
  unfoldable pub append_row :
      (ℕ → List R → Selected (List R)) → ℕ → List R → Option Text × R → Selected (List R)
  append_row onward n slice (some e, row) = record {
    count = n;
    error = some (json_failed e);
    dest = slice;
  }
  append_row onward n slice (none, row) = onward n (slice ++ row ∷ [])

  unfoldable pub append_scanned :
      (ℕ → List R → Selected (List R))
      → Outputs
      → List V
      → ℕ
      → List R
      → Option Text × R
      → Selected (List R)
  append_scanned onward outputs cells n slice (some e, row) = nothing (scan_failed e) slice
  append_scanned onward outputs cells n slice (none, row) =
      append_row onward n slice (filling.unmarshal outputs cells row)

  -- `if err := sqlRows.Err(); err != nil { … }` and what follows
  unfoldable pub at_end : Option Text → ℕ → List R → Selected (List R)
  at_end (some e) n slice = nothing (rows_failed e) slice
  at_end none n slice = record { count = n; error = none; dest = slice }

  unfoldable pub load_rows : Option Text → Outputs → List (List V) → ℕ → List R → Selected (List R)
  load_rows last_error outputs [] n slice = at_end last_error n slice
  load_rows last_error outputs (cells ∷ rows) n slice =
      append_scanned (load_rows last_error outputs rows) outputs cells (suc n) slice
        (filling.scan outputs cells filling.new_row)

  -- `selectOne` behind `Unmarshal`, with the number of rows behind the first, and behind `Scan`
  unfoldable pub count_rows : ℕ → Option Text × R → Selected R
  count_rows others (some e, row) = record { count = 1; error = some (json_failed e); dest = row }
  count_rows others (none, row) = record { count = suc others; error = none; dest = row }

  unfoldable pub fill_scanned : Outputs → List V → ℕ → Option Text × R → Selected R
  fill_scanned outputs cells others (some e, row) = nothing (scan_failed e) row
  fill_scanned outputs cells others (none, row) =
      count_rows others (filling.unmarshal outputs cells row)

  -- It never looks at `Err`.
  unfoldable pub load_row : Outputs → List (List V) → R → Selected R
  load_row outputs [] row = record { count = 0; error = none; dest = row }
  load_row outputs (cells ∷ rows) row =
      fill_scanned outputs cells (length rows) (filling.scan outputs cells row)

module _ ⦃u : Unicode⦄ {V A : Type 0} (cols : List Column)
    (load : Rows V → Outputs → A → Selected A) where
  -- Both functions behind `getOutputs`, and behind the query; with `stmt.output.columns`
  unfoldable pub with_outputs :
      Rows V → A → Result OutputError Outputs × Option Outputs → Selected A × Option Outputs
  with_outputs rows dest (err e, kept) = (nothing (no_outputs e) dest, kept)
  with_outputs rows dest (ok outputs, kept) = (load rows outputs dest, kept)

  unfoldable pub with_rows : Option Outputs → A → Result Text (Rows V) → Selected A × Option Outputs
  with_rows kept dest (err e) = (nothing (refused e) dest, kept)
  with_rows kept dest (ok rows) = with_outputs rows dest (get_outputs cols rows.columns kept)

  unfoldable pub query_expanded :
      (Text → List (Arg V) → Result Text (Rows V))
      → Option Outputs
      → A
      → Result Wherein.Error (Text × List (Arg V))
      → Selected A × Option Outputs
  query_expanded query kept dest (err e) = (nothing (cannot_expand e) dest, kept)
  query_expanded query kept dest (ok (text, args)) = with_rows kept dest (query text args)

-- `selectRows` into a slice, and `selectOne`: of a statement's query, with the arguments as they are
module _ ⦃u : Unicode⦄ {V R : Type 0} (cols : List Column) (filling : Filling V R) where
  unfoldable pub select_rows :
      (Text → List (Arg V) → Result Text (Rows V))
      → Text
      → List (Arg V)
      → Option Outputs
      → List R
      → Selected (List R) × Option Outputs
  select_rows query text args kept slice =
      query_expanded cols (λ rows outputs. load_rows filling rows.last_error outputs rows.cells 0)
        query kept slice (expand text args)

  unfoldable pub select_one :
      (Text → List (Arg V) → Result Text (Rows V))
      → Text
      → List (Arg V)
      → Option Outputs
      → R
      → Selected R × Option Outputs
  select_one query text args kept row =
      query_expanded cols (λ rows outputs. load_row filling outputs rows.cells) query kept row
        (expand text args)
