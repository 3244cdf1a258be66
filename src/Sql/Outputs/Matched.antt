-- ===== src/Sql/Outputs/Matched.antt =====
-- The columns of a result are matched with the columns of the table.
use sqlr.Prelude.{
  equal_refl, err, ok, List, [], ◌∷◌, none, some, Text, ◌≡◌, refl, sym, ap, ◌∙◌, arith, equal_iff,
  Bool-cases, Option-cases, inl, inr,
}
use sqlr.Go.Unicode.{Unicode}
use sqlr.Go.Strings.{lower}
use sqlr.Go.Maps.{Map, get, remove, Unique}
use sqlr.Sql.Columns.{Column}
use sqlr.Sql.Outputs.{
  Outputs, add_columns, match_exact, Folded, all_used, all_known, unknown_columns, lower_map,
  match_folded, match_outputs,
}
use sqlr.Sql.Outputs.Equal.{
  IsOutput, NamedKeys, add_columns-NamedKeys, add_columns-Unique, match_exact-left,
  match_exact-Unique, Covered, Covered-later, match_exact-Covered, Covered-rest,
}
use sqlr.Sql.Outputs.Fits.{
  Within, remove-Within, Covered-removed, Filled, Fits, LowerKeys, remove-LowerKeys, put-LowerKeys,
  match_exact-Fits, match_exact-Filled, match_folded-misses, match_folded-finds,
}

module _ ⦃u : Unicode⦄ where
  match_folded-Filled :
      (names : List Text) (outputs : Outputs) (lowered m all : Map Column)
      → LowerKeys lowered all
      → Fits all names outputs
      → (match_folded lowered m names outputs).unknown ≡ []
      → Filled all names (match_folded lowered m names outputs).outputs
  unfolding match_folded
  match_folded-Filled [] [] lowered m all low fits h = tt
  match_folded-Filled [] (_ ∷ outputs) lowered m all low fits h = elim fits [ ]
  match_folded-Filled (name ∷ names) [] lowered m all low fits h = elim fits [ ]
  match_folded-Filled (name ∷ names) (some col ∷ outputs) lowered m all low fits h =
      (fits.0, match_folded-Filled names outputs lowered m all low fits.1 h)
  match_folded-Filled (name ∷ names) (none ∷ outputs) lowered m all low fits h =
      elim (Option-cases (get (lower name) lowered)) [
        | inl e ↦ absurd (cc (rw (match_folded-misses lowered m name names outputs e) at h))
        | inr (c, e) ↦ rw (match_folded-finds lowered m name names outputs c e) (
          low (lower name) c e,
          match_folded-Filled names outputs (remove (lower name) lowered) (remove c.column_name m)
              all (remove-LowerKeys (lower name) lowered all low) fits
              (rw (match_folded-finds lowered m name names outputs c e) at h),
        )
      ]

  match_folded-Covered :
      (names : List Text) (outputs : Outputs) (lowered m all : Map Column) (k : Text) (col : Column)
      → LowerKeys lowered all
      → Within m all
      → NamedKeys all
      → Fits all names outputs
      → Covered k col m outputs
      → Covered k col
          (match_folded lowered m names outputs).column_map
          (match_folded lowered m names outputs).outputs
  unfolding match_folded
  match_folded-Covered [] [] lowered m all k col low within named fits h = h
  match_folded-Covered [] (_ ∷ outputs) lowered m all k col low within named fits h = elim fits [ ]
  match_folded-Covered (name ∷ names) [] lowered m all k col low within named fits h = elim fits [ ]
  match_folded-Covered (name ∷ names) (some c ∷ outputs) lowered m all k col low within named fits
        (inl h) =
      Covered-later k col (match_folded lowered m names outputs).column_map (some c)
        (match_folded lowered m names outputs).outputs
        (match_folded-Covered names outputs lowered m all k col low within named fits.1 (inl h))
  match_folded-Covered (name ∷ names) (some c ∷ outputs) lowered m all k col low within named fits
        (inr (inl h)) =
      inr (inl h)
  match_folded-Covered (name ∷ names) (some c ∷ outputs) lowered m all k col low within named fits
        (inr (inr h)) =
      Covered-later k col (match_folded lowered m names outputs).column_map (some c)
        (match_folded lowered m names outputs).outputs
        (match_folded-Covered names outputs lowered m all k col low within named fits.1 (inr h))
  match_folded-Covered (name ∷ names) (none ∷ outputs) lowered m all k col low within named fits h =
      elim (Option-cases (get (lower name) lowered)) [
        | inl e ↦ rw (match_folded-misses lowered m name names outputs e) (
            Covered-later k col (match_folded lowered m names outputs).column_map none
              (match_folded lowered m names outputs).outputs
              (match_folded-Covered names outputs lowered m all k col low within named fits
                (Covered-rest k col m outputs h)))
        | inr (c, e) ↦
            rw (match_folded-finds lowered m name names outputs c e)
              (elim (Covered-removed k col m all outputs c (low (lower name) c e).0 within
                (Covered-rest k col m outputs h)) [
                  | inl taken ↦ inr (inl taken)
                  | inr left ↦
                      Covered-later k col
                        (match_folded (remove (lower name) lowered) (remove c.column_name m) names
                          outputs).column_map
                        (some c)
                        (match_folded (remove (lower name) lowered) (remove c.column_name m) names
                          outputs).outputs
                        (match_folded-Covered names outputs (remove (lower name) lowered)
                          (remove c.column_name m) all k col
                          (remove-LowerKeys (lower name) lowered all low)
                          (remove-Within c.column_name m all within) named fits left)
                ])
      ]

  lower_map-LowerKeys :
      (m all : Map Column) → Unique m → Within m all → NamedKeys all → LowerKeys (lower_map m) all
  unfolding lower_map get
  lower_map-LowerKeys [] all u within named = λ l col h. absurd (cc)
  lower_map-LowerKeys ((k, c) ∷ m) all u within named =
      let at : get k all ≡ some c = within k c (ground (arith, equal_refl k)) in
      let same : c.column_name ≡ k = named k c at in
      rw (sym same) (
        put-LowerKeys c (lower_map m) all (ap (λ n. get n all) same ∙ at) (
          lower_map-LowerKeys m all u.1 (λ j d h. within j d (ground (arith, equal_iff k j, u.0)))
            named))

  all_used-ok :
      (outputs outs : Outputs) (m : Map Column)
      → all_used outputs m ≡ ok outs
      → (outputs ≡ outs) × ((k : Text) → get k m ≡ none)
  unfolding all_used get
  all_used-ok outputs outs [] h = (cc, λ k. refl)
  all_used-ok outputs outs (e ∷ m) h = absurd (cc)

  all_known-ok :
      (outs : Outputs) (f : Folded)
      → all_known f ≡ ok outs
      → (f.unknown ≡ []) × (f.outputs ≡ outs) × ((k : Text) → get k f.column_map ≡ none)
  unfolding all_known
  all_known-ok outs f h = all_known_split f.unknown refl h
    where
      all_known_split :
          (unknown : List Text)
          → f.unknown ≡ unknown
          → elim unknown [
            | [] ↦ all_used f.outputs f.column_map
            | name ∷ names ↦ err (unknown_columns (name ∷ names))
          ]
            ≡ ok outs
          → (f.unknown ≡ []) × (f.outputs ≡ outs) × ((k : Text) → get k f.column_map ≡ none)
      all_known_split [] e g =
          let used = all_used-ok f.outputs outs f.column_map g in (e, used.0, used.1)
      all_known_split (name ∷ names) e g = absurd (cc)

  IsOutput-Covered :
      (k : Text) (col : Column) (m : Map Column) (outputs : Outputs)
      → get k m ≡ none
      → Covered k col m outputs
      → IsOutput col outputs
  IsOutput-Covered k col m outputs e (inl h) = absurd (cc)
  IsOutput-Covered k col m outputs e (inr h) = h

  empty-NamedKeys : NamedKeys []
  unfolding get
  empty-NamedKeys k col h = absurd (cc)

  -- If the columns of a result are matched with those of the table, each goes to a column of the
  -- table whose name is the same up to case, and every column of the table, of several with one
  -- name the last, is an output.
  pub match_outputs-ok :
      (cols : List Column) (names : List Text) (outs : Outputs)
      → match_outputs cols names ≡ ok outs
      → Filled (add_columns [] cols) names outs
        × ((k : Text) (col : Column) → get k (add_columns [] cols) ≡ some col → IsOutput col outs)
  unfolding match_outputs
  match_outputs-ok cols names outs h =
      let all = add_columns [] cols in
      let e = match_exact all names in
      let named = add_columns-NamedKeys [] cols empty-NamedKeys in
      let fits = match_exact-Fits names all all (λ k c g. g) named in
      let left : Within e.column_map all = match_exact-left names all in
      elim (Bool-cases e.not_found) [
        | inl folds ↦
            let folded = match_folded (lower_map e.column_map) e.column_map names e.outputs in
            let (known, same, used) = all_known-ok outs folded (rw folds at h) in
            let low =
              lower_map-LowerKeys e.column_map all
                (match_exact-Unique names all (add_columns-Unique [] cols tt)) left named in
            rw (sym same) (
              match_folded-Filled names e.outputs (lower_map e.column_map) e.column_map all low fits
                  known,
              λ k col g. IsOutput-Covered k col folded.column_map folded.outputs (used k) (
                  match_folded-Covered names e.outputs (lower_map e.column_map) e.column_map all k
                    col low left named fits (match_exact-Covered names all k col g)),
            )
        | inr exact ↦
            let (same, used) = all_used-ok e.outputs outs e.column_map (rw exact at h) in
            rw (sym same) (
              match_exact-Filled names all all exact fits,
              λ k col g.
                  IsOutput-Covered k col e.column_map e.outputs (used k)
                    (match_exact-Covered names all k col g),
            )
      ]
