-- ===== src/Sql/Select/Loaded.antt =====
-- The rows that a successful query appends.
use sqlr.Prelude.{
  Result, err, ok, ◌≡◌, refl, sym, ◌∙◌, ap, arith, ℕ, suc, ◌+◌, List, [], ◌∷◌, ◌++◌, append-nil,
  append_assoc, Option, none, some, Text, length,
}
use sqlr.Go.Unicode.{Unicode}
use sqlr.Wherein
use sqlr.Wherein.{Arg, expand}
use sqlr.Sql.Columns.{Column}
use sqlr.Sql.Outputs.{Outputs, OutputError, get_outputs}
use sqlr.Sql.Select.{
  Rows, Selected, Filling, append_row, append_scanned, at_end, load_rows, with_outputs, with_rows,
  query_expanded, select_rows,
}

module _ {V R : Type 0} (filling : Filling V R) where
  -- Each row is a new one, scanned and unmarshaled without an error.
  abbrev pub Filled : Outputs → List V → R → Type 0
  Filled outputs cells row =
      (scanned : R) × (filling.scan outputs cells filling.new_row ≡ (none, scanned))
      × (filling.unmarshal outputs cells scanned ≡ (none, row))

  abbrev pub AllFilled : Outputs → List (List V) → List R → Type 0
  AllFilled outputs [] [] = Unit
  AllFilled outputs (cells ∷ rest) (row ∷ rows) =
      Filled outputs cells row × AllFilled outputs rest rows
  AllFilled outputs _ _ = ⊥

  append_row-ok :
      (onward : ℕ → List R → Selected (List R)) (n : ℕ) (slice : List R) (r : Option Text × R)
      → (append_row filling onward n slice r).error ≡ none
      → (row : R) × (r ≡ (none, row))
        × (append_row filling onward n slice r ≡ onward n (slice ++ row ∷ []))
  unfolding append_row
  append_row-ok onward n slice (some e, row) h = absurd (cc)
  append_row-ok onward n slice (none, row) h = (row, refl, refl)

  append_scanned-ok :
      (onward : ℕ → List R → Selected (List R)) (outputs : Outputs) (cells : List V) (n : ℕ)
      (slice : List R) (r : Option Text × R)
      → (append_scanned filling onward outputs cells n slice r).error ≡ none
      → (scanned row : R) × (r ≡ (none, scanned))
        × (filling.unmarshal outputs cells scanned ≡ (none, row))
        × (append_scanned filling onward outputs cells n slice r ≡ onward n (slice ++ row ∷ []))
  unfolding append_scanned
  append_scanned-ok onward outputs cells n slice (some e, row) h = absurd (cc)
  append_scanned-ok onward outputs cells n slice (none, scanned) h =
      let (row, at, same) =
        append_row-ok onward n slice (filling.unmarshal outputs cells scanned) h in
      (scanned, row, refl, at, same)

  -- What a loop that meets no error has done
  abbrev pub Loaded :
      Option Text → Outputs → List (List V) → ℕ → List R → Selected (List R) → Type 0
  Loaded last_error outputs cells n slice r =
      (last_error ≡ none)
      × (r.count ≡ n + length cells)
      × (rows : List R) × (r.dest ≡ slice ++ rows)
      × AllFilled outputs cells rows

  load_rows-Loaded :
      (last_error : Option Text) (outputs : Outputs) (cells : List (List V)) (n : ℕ)
      (slice : List R)
      → (load_rows filling last_error outputs cells n slice).error ≡ none
      → Loaded last_error outputs cells n slice (load_rows filling last_error outputs cells n slice)
  unfolding load_rows at_end
  load_rows-Loaded (some e) outputs [] n slice h = absurd (cc)
  load_rows-Loaded none outputs [] n slice h = (refl, omega arith, [], sym (append-nil slice), tt)
  load_rows-Loaded last_error outputs (c ∷ cells) n slice h =
      let onward = load_rows filling last_error outputs cells in
      let (scanned, row, scans, unmarshals, same) =
        append_scanned-ok onward outputs c (suc n) slice (filling.scan outputs c filling.new_row)
          h in
      let (ends, count, rows, dest, all) =
        load_rows-Loaded last_error outputs cells (suc n) (slice ++ row ∷ [])
          (ap (λ r. r.error) (sym same) ∙ h) in
      (
        ends,
        ap (λ r. r.count) same ∙ count ∙ omega arith,
        row ∷ rows,
        ap (λ r. r.dest) same ∙ dest ∙ append_assoc slice (row ∷ []) rows,
        ((scanned, scans, unmarshals), all),
      )

module _ ⦃u : Unicode⦄ {V R : Type 0} (cols : List Column) (filling : Filling V R) where
  abbrev load : Rows V → Outputs → List R → Selected (List R)
  load rows outputs = load_rows filling rows.last_error outputs rows.cells 0

  -- What a query that meets no error has done: the rows that it returned are appended.
  abbrev pub Appended :
      (Text → List (Arg V) → Result Text (Rows V))
      → Option Outputs
      → List R
      → Selected (List R)
      → Result Wherein.Error (Text × List (Arg V))
      → Type 0
  Appended query kept slice r expanded =
      (text : Text) × (args : List (Arg V)) × (rows : Rows V) × (outputs : Outputs) × (expanded
        ≡ ok (text, args))
      × (query text args ≡ ok rows)
      × ((get_outputs cols rows.columns kept).0 ≡ ok outputs)
      × Loaded filling rows.last_error outputs rows.cells 0 slice r

  with_outputs-ok :
      (rows : Rows V) (slice : List R) (r : Result OutputError Outputs × Option Outputs)
      → (with_outputs cols load rows slice r).0.error ≡ none
      → (outputs : Outputs) × (r.0 ≡ ok outputs)
        × Loaded filling rows.last_error outputs rows.cells 0 slice
            (with_outputs cols load rows slice r).0
  unfolding with_outputs
  with_outputs-ok rows slice (err e, kept) h = absurd (cc)
  with_outputs-ok rows slice (ok outputs, kept) h =
      (outputs, refl, load_rows-Loaded filling rows.last_error outputs rows.cells 0 slice h)

  with_rows-ok :
      (kept : Option Outputs) (slice : List R) (r : Result Text (Rows V))
      → (with_rows cols load kept slice r).0.error ≡ none
      → (rows : Rows V) × (outputs : Outputs) × (r ≡ ok rows)
        × ((get_outputs cols rows.columns kept).0 ≡ ok outputs)
        × Loaded filling rows.last_error outputs rows.cells 0 slice
            (with_rows cols load kept slice r).0
  unfolding with_rows
  with_rows-ok kept slice (err e) h = absurd (cc)
  with_rows-ok kept slice (ok rows) h =
      let (outputs, at, loaded) =
        with_outputs-ok rows slice (get_outputs cols rows.columns kept) h in
      (rows, outputs, refl, at, loaded)

  query_expanded-Appended :
      (query : Text → List (Arg V) → Result Text (Rows V)) (kept : Option Outputs) (slice : List R)
      (expanded : Result Wherein.Error (Text × List (Arg V)))
      → (query_expanded cols load query kept slice expanded).0.error ≡ none
      → Appended query kept slice (query_expanded cols load query kept slice expanded).0 expanded
  unfolding query_expanded
  query_expanded-Appended query kept slice (err e) h = absurd (cc)
  query_expanded-Appended query kept slice (ok (text, args)) h =
      let (rows, outputs, at, matched, loaded) = with_rows-ok kept slice (query text args) h in
      (text, args, rows, outputs, refl, at, matched, loaded)

  -- If `selectRows` into a slice returns no error, the query was sent and its columns were
  -- matched, no error stood behind the last row, and the slice is the old one with a new row,
  -- filled without an error, for each row of the result in order; the count is their number.
  pub select_rows-Appended :
      (query : Text → List (Arg V) → Result Text (Rows V)) (text : Text) (args : List (Arg V))
      (kept : Option Outputs) (slice : List R)
      → (select_rows cols filling query text args kept slice).0.error ≡ none
      → Appended query kept slice
          (select_rows cols filling query text args kept slice).0
          (expand text args)
  unfolding select_rows
  select_rows-Appended query text args kept slice h =
      query_expanded-Appended query kept slice (expand text args) h
