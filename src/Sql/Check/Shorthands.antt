-- ===== src/Sql/Check/Shorthands.antt =====
-- What `checkSQL` does with the words of a statement.
use sqlr.Prelude.{
  ℕ, ◌+◌, ◌≤◌, ◌<◌, true, List, [], ◌∷◌, ◌++◌, Option, none, some, Text, codes, ◌≡◌, ◌⊎◌, inl, inr,
  ◌↔◌, Bool-cases, refl, arith, equal, equal_iff, length, length-append,
}
use sqlr.Go.Unicode.{Unicode}
use sqlr.Scanner.Stream.{Lexed, scan_all}
use sqlr.Sql.Check.{
  statement, will_not_delete, match, expand_words, word_of, collect_words, check_words, check_sql,
  sql_scanner,
}

module _ ⦃u : Unicode⦄ where
  collect_words-long :
      (words : List Text) (ts : List Lexed)
      → 3 < length words + length ts
      → length words ≤ 3
      → collect_words words ts ≡ none
  unfolding collect_words
  collect_words-long words [] h k = absurd (omega arith)
  collect_words-long words (t ∷ ts) h k =
      ground (
        arith,
        length-append words (word_of t ∷ []),
        collect_words-long (words ++ word_of t ∷ []) ts,
      )

  -- A text that scans to more than three tokens is left alone.
  pub check_sql-long :
      (sql : Text) → 3 < length (scan_all (sql_scanner sql)).0 → check_sql sql ≡ statement sql
  unfolding check_sql check_words
  check_sql-long sql h =
      rw (collect_words-long [] (scan_all (sql_scanner sql)).0 (omega arith) (omega arith))

match-two :
    (c : ℕ) (a : Text) (words : List Text)
    → match ((c ∷ a) ∷ [] ∷ []) words ≡ true
    → (w : Text) × (words ≡ (c ∷ a) ∷ w ∷ [])
unfolding match
match-two c a [] h = absurd (cc)
match-two c a (x ∷ []) h = ground arith
match-two c a (x ∷ w ∷ []) h = (w, ground (arith, equal_iff (c ∷ a) x))
match-two c a (x ∷ w ∷ y ∷ words) h = ground arith

match-three :
    (c d : ℕ) (a b : Text) (words : List Text)
    → match ((c ∷ a) ∷ (d ∷ b) ∷ [] ∷ []) words ≡ true
    → (w : Text) × (words ≡ (c ∷ a) ∷ (d ∷ b) ∷ w ∷ [])
unfolding match
match-three c d a b [] h = absurd (cc)
match-three c d a b (x ∷ []) h = ground arith
match-three c d a b (x ∷ y ∷ []) h = ground arith
match-three c d a b (x ∷ y ∷ w ∷ []) h =
    (w, ground (arith, equal_iff (c ∷ a) x, equal_iff (d ∷ b) y))
match-three c d a b (x ∷ y ∷ w ∷ z ∷ words) h = ground arith

-- "delete", a table; or "delete", "from", a table
abbrev pub Deletes : Text → List Text → Type 0
Deletes table words =
    (words ≡ codes "delete" ∷ table ∷ []) ⊎ (words ≡ codes "delete" ∷ codes "from" ∷ table ∷ [])

expand_words-delete :
    (sql table : Text) (words : List Text)
    → Deletes table words
    → expand_words sql words ≡ will_not_delete table
unfolding expand_words match equal
expand_words-delete sql table words (inl e) = rw e
expand_words-delete sql table words (inr e) = rw e

expand_words-refused :
    (sql table : Text) (words : List Text)
    → expand_words sql words ≡ will_not_delete table
    → Deletes table words
unfolding expand_words
expand_words-refused sql table words h =
    elim (Bool-cases (match (codes "delete" ∷ [] ∷ []) words)) [
      | inl two ↦
          let (w, e) = match-two _ _ words two in
          inl (ground (arith, expand_words-delete sql w words (inl e)))
      | inr not_two ↦ elim (Bool-cases (match (codes "delete" ∷ codes "from" ∷ [] ∷ []) words)) [
        | inl three ↦
            let (w, e) = match-three _ _ _ _ words three in
            inr (ground (arith, expand_words-delete sql w words (inr e)))
        | inr not_three ↦ absurd (ground arith)
      ]
    ]

module _ ⦃u : Unicode⦄ where
  -- `checkSQL` refuses to write a delete statement for a table just if the words of the text are
  -- "delete" and the table, or "delete", "from" and the table.
  pub check_sql-will_not_delete :
      (sql table : Text)
      → (check_sql sql ≡ will_not_delete table) ↔ (
          (words : List Text) × (collect_words [] (scan_all (sql_scanner sql)).0 ≡ some words)
          × Deletes table words)
  unfolding check_sql check_words
  check_sql-will_not_delete sql table = (
    refused (collect_words [] (scan_all (sql_scanner sql)).0),
    λ (words, e, d). rw (e, expand_words-delete sql table words d),
  )
    where
      refused :
          (found : Option (List Text))
          → check_words sql found ≡ will_not_delete table
          → (words : List Text) × (found ≡ some words) × Deletes table words
      refused none h = absurd (cc)
      refused (some words) h = (words, refl, expand_words-refused sql table words h)
