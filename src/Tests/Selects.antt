-- ===== src/Tests/Selects.antt =====
-- A query and its rows.
use sqlr.Prelude.{Result, ok, ◌≡◌, refl, ℕ, List, [], ◌∷◌, Option, none, some, Text, codes}
use sqlr.Tests.Ascii.{ascii}
use sqlr.Tests.Sessions.{id, version}
use sqlr.Wherein.{Arg, expand, has_slice}
use sqlr.Sql.Outputs.{Outputs, get_outputs}
use sqlr.Sql.Select.{
  Rows, Filling, append_row, append_scanned, at_end, load_rows, with_outputs, with_rows,
  query_expanded, select_rows,
}
use sqlr.Sql.Select.Loaded.{Appended, select_rows-Appended}

abbrev two_rows : Rows ℕ
two_rows = record {
  columns = ok (codes "id" ∷ codes "v" ∷ []);
  cells = (1 ∷ 4 ∷ []) ∷ (2 ∷ 5 ∷ []) ∷ [];
  last_error = none;
}

abbrev filling : Filling ℕ (List ℕ)
filling = record {
  new_row = [];
  scan = λ outputs cells row. (none, cells);
  unmarshal = λ outputs cells row. (none, row);
}

abbrev outputs : Option Outputs
outputs = some (some id ∷ some version ∷ [])

abbrev query : Text → List (Arg ℕ) → Result Text (Rows ℕ)
query text args = ok two_rows

selects :
    (select_rows (id ∷ version ∷ []) filling query (codes "select") [] outputs []).0.error ≡ none
unfolding select_rows query_expanded with_rows with_outputs load_rows append_scanned append_row
    at_end expand has_slice get_outputs
selects = refl

select_rows-Appended_example :
    Appended
      (id ∷ version ∷ [])
      filling
      query
      outputs
      []
      (select_rows (id ∷ version ∷ []) filling query (codes "select") [] outputs []).0
      (expand (codes "select") [])
select_rows-Appended_example =
    select_rows-Appended (id ∷ version ∷ []) filling query (codes "select") [] outputs [] selects
