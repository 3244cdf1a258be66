-- ===== src/Sql/Outputs.antt =====
-- stmt.go (`getOutputs`): which column of the table each column of a result goes to.
pub mod Equal
pub mod Fits
pub mod Matched
use sqlr.Prelude.{
  Result, err, ok, ◌>>=◌, Bool, true, false, List, [], ◌∷◌, ◌++◌, map, Option, none, some, Text,
  if◌then◌else◌,
}
use sqlr.Go.Unicode.{Unicode}
use sqlr.Go.Strings.{lower}
use sqlr.Go.Maps.{Map, get, put, remove}
use sqlr.Sql.Columns.{Column}

-- The elements of `outputs`; a nil pointer is `none`.
abbrev pub Outputs : Type 0
Outputs = List (Option Column)

pub data OutputError : Type 0 where
  no_result_columns : Text → OutputError
  unknown_columns missing_columns : List Text → OutputError

-- `columnMap`
unfoldable pub add_columns : Map Column → List Column → Map Column
add_columns m [] = m
add_columns m (col ∷ cols) = add_columns (put col.column_name col m) cols

-- The first loop over the column names: the outputs, what is left of `columnMap`, and
-- `columnNotFound`.
pub record Exact : Type 0 where
  pub outputs : Outputs
  pub column_map : Map Column
  pub not_found : Bool

abbrev pub found : Column → Exact → Exact
found col e = record e { outputs = some col ∷ e.outputs }

abbrev pub skipped : Exact → Exact
skipped e = record e { outputs = none ∷ e.outputs; not_found = true }

unfoldable pub match_exact : Map Column → List Text → Exact
match_exact m [] = record { outputs = []; column_map = m; not_found = false }
match_exact m (name ∷ names) = elim (get name m) [
  | none ↦ skipped (match_exact m names)
  | some col ↦ found col (match_exact (remove name m) names)
]

-- The second loop, over the names and the outputs: the outputs, what is left of `columnMap`, and
-- `unknownColumnNames`.
pub record Folded : Type 0 where
  pub outputs : Outputs
  pub column_map : Map Column
  pub unknown : List Text

abbrev pub output : Option Column → Folded → Folded
output col f = record f { outputs = col ∷ f.outputs }

abbrev pub not_known : Text → Folded → Folded
not_known name f = record f { outputs = none ∷ f.outputs; unknown = name ∷ f.unknown }

-- The map's keys, in the order in which `range` gives them.
abbrev pub keys : Map Column → List Text
keys = map (λ e. e.0)

-- the checks behind the loops
unfoldable pub all_used : Outputs → Map Column → Result OutputError Outputs
all_used outputs [] = ok outputs
all_used outputs (e ∷ m) = err (missing_columns (keys (e ∷ m)))

unfoldable pub all_known : Folded → Result OutputError Outputs
all_known f = elim f.unknown [
  | [] ↦ all_used f.outputs f.column_map
  | name ∷ names ↦ err (unknown_columns (name ∷ names))
]

module _ ⦃u : Unicode⦄ where
  -- `lowerColumnMap`; of two names that differ by case only, one stays
  unfoldable pub lower_map : Map Column → Map Column
  lower_map [] = []
  lower_map ((k, col) ∷ m) = put (lower k) col (lower_map m)

  unfoldable pub match_folded : Map Column → Map Column → List Text → Outputs → Folded
  match_folded lowered m (name ∷ names) (some col ∷ outputs) =
      output (some col) (match_folded lowered m names outputs)
  match_folded lowered m (name ∷ names) (none ∷ outputs) = elim (get (lower name) lowered) [
    | none ↦ not_known name (match_folded lowered m names outputs)
    | some col ↦
        output (some col)
          (match_folded (remove (lower name) lowered) (remove col.column_name m) names outputs)
  ]
  match_folded lowered m _ _ = record { outputs = []; column_map = m; unknown = [] }

  -- `getOutputs` behind `rows.Columns`
  unfoldable pub match_outputs : List Column → List Text → Result OutputError Outputs
  match_outputs cols names =
      let e = match_exact (add_columns [] cols) names in
      if e.not_found
      then all_known (match_folded (lower_map e.column_map) e.column_map names e.outputs)
      else all_used e.outputs e.column_map

  -- `getOutputs` with `stmt.output.columns`, which keeps the first success
  unfoldable pub get_outputs :
      List Column
      → Result Text (List Text)
      → Option Outputs
      → Result OutputError Outputs × Option Outputs
  get_outputs cols names (some outputs) = (ok outputs, some outputs)
  get_outputs cols (err e) none = (err (no_result_columns e), none)
  get_outputs cols (ok names) none = elim (match_outputs cols names) [
    | err e ↦ (err e, none)
    | ok outputs ↦ (ok outputs, some outputs)
  ]
