-- ===== src/Sql/Outputs/Equal.antt =====
-- The first of the two loops that match the columns of a result: names that are equal.
use sqlr.Prelude.{
  List, [], ◌∷◌, Option, none, some, Text, ◌≡◌, sym, ap, ◌∙◌, arith, equal, equal_iff, Bool-cases,
  Option-cases, ◌⊎◌, inl, inr,
}
use sqlr.Go.Maps.{Map, get, put, remove, Unique, get-put, get-remove, put-Unique, remove-Unique}
use sqlr.Sql.Columns.{Column}
use sqlr.Sql.Outputs.{Outputs, add_columns, match_exact, found, skipped}

-- A column is an output.
abbrev pub IsOutput : Column → Outputs → Type 0
IsOutput col [] = ⊥
IsOutput col (o ∷ outputs) = (o ≡ some col) ⊎ IsOutput col outputs

-- Each entry of a map stands under its column's name.
abbrev pub NamedKeys : Map Column → Type 0
NamedKeys m = (k : Text) (col : Column) → get k m ≡ some col → col.column_name ≡ k

put-NamedKeys :
    (col : Column) (m : Map Column) → NamedKeys m → NamedKeys (put col.column_name col m)
put-NamedKeys col m named k c h =
    ground (arith, get-put col.column_name k col m, equal_iff col.column_name k, named k c)

pub add_columns-NamedKeys :
    (m : Map Column) (cols : List Column) → NamedKeys m → NamedKeys (add_columns m cols)
unfolding add_columns
add_columns-NamedKeys m [] named = named
add_columns-NamedKeys m (col ∷ cols) named =
    add_columns-NamedKeys (put col.column_name col m) cols (put-NamedKeys col m named)

pub add_columns-Unique :
    (m : Map Column) (cols : List Column) → Unique m → Unique (add_columns m cols)
unfolding add_columns
add_columns-Unique m [] u = u
add_columns-Unique m (col ∷ cols) u =
    add_columns-Unique (put col.column_name col m) cols (put-Unique col.column_name col m u)

pub match_exact-skips :
    (m : Map Column) (name : Text) (names : List Text)
    → get name m ≡ none
    → match_exact m (name ∷ names) ≡ skipped (match_exact m names)
unfolding match_exact
match_exact-skips m name names e =
    ap
      (λ o. elim o [
        | none ↦ skipped (match_exact m names)
        | some col ↦ found col (match_exact (remove name m) names)
      ])
      e

pub match_exact-finds :
    (m : Map Column) (name : Text) (names : List Text) (col : Column)
    → get name m ≡ some col
    → match_exact m (name ∷ names) ≡ found col (match_exact (remove name m) names)
unfolding match_exact
match_exact-finds m name names c e =
    ap
      (λ o. elim o [
        | none ↦ skipped (match_exact m names)
        | some col ↦ found col (match_exact (remove name m) names)
      ])
      e

-- What `match_exact` leaves in the map was there before, and what it takes from it is an output.
pub match_exact-left :
    (names : List Text) (m : Map Column) (k : Text) (col : Column)
    → get k (match_exact m names).column_map ≡ some col
    → get k m ≡ some col
unfolding match_exact
match_exact-left [] m k col h = h
match_exact-left (name ∷ names) m k col h = elim (Option-cases (get name m)) [
  | inl e ↦ match_exact-left names m k col (rw (match_exact-skips m name names e) at h)
  | inr (c, e) ↦ ground (
    arith,
    get-remove name k m,
    match_exact-left names (remove name m) k col (rw (match_exact-finds m name names c e) at h),
  )
]

pub match_exact-Unique :
    (names : List Text) (m : Map Column) → Unique m → Unique (match_exact m names).column_map
unfolding match_exact
match_exact-Unique [] m u = u
match_exact-Unique (name ∷ names) m u = elim (Option-cases (get name m)) [
  | inl e ↦ rw (match_exact-skips m name names e) (match_exact-Unique names m u)
  | inr (c, e) ↦
      rw (match_exact-finds m name names c e)
        (match_exact-Unique names (remove name m) (remove-Unique name m u))
]

-- A column is under its key in a map, or it is an output.
abbrev pub Covered : Text → Column → Map Column → Outputs → Type 0
Covered k col m outputs = (get k m ≡ some col) ⊎ IsOutput col outputs

pub Covered-later :
    (k : Text) (col : Column) (m : Map Column) (o : Option Column) (outputs : Outputs)
    → Covered k col m outputs
    → Covered k col m (o ∷ outputs)
Covered-later k col m o outputs (inl h) = inl h
Covered-later k col m o outputs (inr h) = inr (inr h)

pub match_exact-Covered :
    (names : List Text) (m : Map Column) (k : Text) (col : Column)
    → get k m ≡ some col
    → Covered k col (match_exact m names).column_map (match_exact m names).outputs
unfolding match_exact
match_exact-Covered [] m k col h = inl h
match_exact-Covered (name ∷ names) m k col h = elim (Option-cases (get name m)) [
  | inl e ↦ rw (match_exact-skips m name names e) (
      Covered-later k col (match_exact m names).column_map none (match_exact m names).outputs
        (match_exact-Covered names m k col h))
  | inr (c, e) ↦ elim (Bool-cases (equal name k)) [
    | inl same ↦
        let eq : some c ≡ some col = sym e ∙ ap (λ n. get n m) ((equal_iff name k).0 same) ∙ h in
        rw (match_exact-finds m name names c e) (inr (inl eq))
    | inr other ↦ rw (match_exact-finds m name names c e) (
        Covered-later k col (match_exact (remove name m) names).column_map (some c)
          (match_exact (remove name m) names).outputs
          (match_exact-Covered names (remove name m) k col (ground (arith, get-remove name k m))))
  ]
]

pub Covered-rest :
    (k : Text) (col : Column) (m : Map Column) (outputs : Outputs)
    → Covered k col m (none ∷ outputs)
    → Covered k col m outputs
Covered-rest k col m outputs (inl h) = inl h
Covered-rest k col m outputs (inr (inl h)) = absurd (cc)
Covered-rest k col m outputs (inr (inr h)) = inr h
