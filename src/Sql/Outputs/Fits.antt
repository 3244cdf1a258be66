-- ===== src/Sql/Outputs/Fits.antt =====
-- The places of the outputs, and the loops on one name.
use sqlr.Prelude.{
  false≢true, false, List, [], ◌∷◌, Option, none, some, Text, ◌≡◌, sym, ap, ◌∙◌, arith, equal,
  equal_iff, Bool-cases, Option-cases, ◌⊎◌, inl, inr,
}
use sqlr.Go.Unicode.{Unicode}
use sqlr.Go.Strings.{lower}
use sqlr.Go.Maps.{Map, get, put, remove, get-put, get-remove}
use sqlr.Sql.Columns.{Column}
use sqlr.Sql.Outputs.{Outputs, match_exact, output, not_known, match_folded}
use sqlr.Sql.Outputs.Equal.{NamedKeys, match_exact-skips, match_exact-finds, Covered}

-- An entry of the one map is an entry of the other.
abbrev pub Within : Map Column → Map Column → Type 0
Within m all = (k : Text) (col : Column) → get k m ≡ some col → get k all ≡ some col

pub remove-Within : (name : Text) (m all : Map Column) → Within m all → Within (remove name m) all
remove-Within name m all within k col h = ground (arith, get-remove name k m, within k col)

-- What a map loses when an entry is taken from it is the column that is taken.
pub Covered-removed :
    (k : Text) (col : Column) (m all : Map Column) (outputs : Outputs) (c : Column)
    → get c.column_name all ≡ some c
    → Within m all
    → Covered k col m outputs
    → (some c ≡ some col) ⊎ Covered k col (remove c.column_name m) outputs
Covered-removed k col m all outputs c at within (inr h) = inr (inr h)
Covered-removed k col m all outputs c at within (inl h) =
    elim (Bool-cases (equal c.column_name k)) [
      | inl same ↦
          inl (sym at ∙ ap (λ n. get n all) ((equal_iff c.column_name k).0 same) ∙ within k col h)
      | inr other ↦ inr (inl (ground (arith, get-remove c.column_name k m)))
    ]

module _ ⦃u : Unicode⦄ where
  -- A place of the outputs has a column of the map whose name is the name of the result's column, up
  -- to case.
  abbrev pub FilledWith : Map Column → Text → Option Column → Type 0
  FilledWith all name none = ⊥
  FilledWith all name (some col) =
      (get col.column_name all ≡ some col) × (lower col.column_name ≡ lower name)

  abbrev pub Filled : Map Column → List Text → Outputs → Type 0
  Filled all [] [] = Unit
  Filled all (name ∷ names) (o ∷ outputs) = FilledWith all name o × Filled all names outputs
  Filled all _ _ = ⊥

  -- The same, but that some places may be empty.
  abbrev pub Fits : Map Column → List Text → Outputs → Type 0
  Fits all [] [] = Unit
  Fits all (name ∷ names) (none ∷ outputs) = Fits all names outputs
  Fits all (name ∷ names) (some col ∷ outputs) =
      FilledWith all name (some col) × Fits all names outputs
  Fits all _ _ = ⊥

  abbrev pub LowerKeys : Map Column → Map Column → Type 0
  LowerKeys lowered all =
      (l : Text) (col : Column)
      → get l lowered ≡ some col
      → (get col.column_name all ≡ some col) × (lower col.column_name ≡ l)

  pub remove-LowerKeys :
      (name : Text) (lowered all : Map Column)
      → LowerKeys lowered all
      → LowerKeys (remove name lowered) all
  remove-LowerKeys name lowered all low l col h =
      ground (arith, get-remove name l lowered, low l col)

  pub put-LowerKeys :
      (col : Column) (lowered all : Map Column)
      → get col.column_name all ≡ some col
      → LowerKeys lowered all
      → LowerKeys (put (lower col.column_name) col lowered) all
  put-LowerKeys col lowered all here low l c h = ground (
    arith,
    get-put (lower col.column_name) l col lowered,
    equal_iff (lower col.column_name) l,
    low l c,
  )

  pub match_exact-Fits :
      (names : List Text) (m all : Map Column)
      → Within m all
      → NamedKeys all
      → Fits all names (match_exact m names).outputs
  unfolding match_exact
  match_exact-Fits [] m all within named = tt
  match_exact-Fits (name ∷ names) m all within named = elim (Option-cases (get name m)) [
    | inl e ↦ rw (match_exact-skips m name names e) (match_exact-Fits names m all within named)
    | inr (c, e) ↦
        let at = within name c e in
        let same = named name c at in
        rw (match_exact-finds m name names c e) (
          (ap (λ n. get n all) same ∙ at, ap lower same),
          match_exact-Fits names (remove name m) all (remove-Within name m all within) named,
        )
  ]

  pub match_exact-Filled :
      (names : List Text) (m all : Map Column)
      → (match_exact m names).not_found ≡ false
      → Fits all names (match_exact m names).outputs
      → Filled all names (match_exact m names).outputs
  unfolding match_exact
  match_exact-Filled [] m all h fits = tt
  match_exact-Filled (name ∷ names) m all h fits = elim (Option-cases (get name m)) [
    | inl e ↦ absurd (false≢true (sym (rw (match_exact-skips m name names e) at h)))
    | inr (c, e) ↦
        let fits' = rw (match_exact-finds m name names c e) at fits in
        rw (match_exact-finds m name names c e) (
          fits'.0,
          match_exact-Filled names (remove name m) all
              (rw (match_exact-finds m name names c e) at h) fits'.1,
        )
  ]

  pub match_folded-misses :
      (lowered m : Map Column) (name : Text) (names : List Text) (outputs : Outputs)
      → get (lower name) lowered ≡ none
      → match_folded lowered m (name ∷ names) (none ∷ outputs)
        ≡ not_known name (match_folded lowered m names outputs)
  unfolding match_folded
  match_folded-misses lowered m name names outputs e =
      ap
        (λ o. elim o [
          | none ↦ not_known name (match_folded lowered m names outputs)
          | some col ↦
              output (some col) (
                match_folded (remove (lower name) lowered) (remove col.column_name m) names outputs)
        ])
        e

  pub match_folded-finds :
      (lowered m : Map Column) (name : Text) (names : List Text) (outputs : Outputs) (col : Column)
      → get (lower name) lowered ≡ some col
      → match_folded lowered m (name ∷ names) (none ∷ outputs)
        ≡ output
            (some col)
            (match_folded (remove (lower name) lowered) (remove col.column_name m) names outputs)
  unfolding match_folded
  match_folded-finds lowered m name names outputs c e =
      ap
        (λ o. elim o [
          | none ↦ not_known name (match_folded lowered m names outputs)
          | some col ↦
              output (some col) (
                match_folded (remove (lower name) lowered) (remove col.column_name m) names outputs)
        ])
        e
