-- ===== src/DataLoader/Groups.antt =====
-- The groups of rows that a query is stored by.
use sqlr.Prelude.{
  ℕ, true, false, List, [], ◌∷◌, ◌++◌, ◌==◌, ◌≡◌, refl, arith, append_assoc, append-nil,
  if◌then◌else◌, keep, Bool-cases, inl, inr, ◌⊎◌, ==_iff, keep-append,
}
use sqlr.DataLoader.{add_row, group_rows}

abbrev pub rows_of {ℓ} : {R : Type ℓ} → (R → ℕ) → ℕ → List R → List R
rows_of key_of k = keep (λ row. key_of row == k)

-- The groups of one key
abbrev pub group_of : {Row : Type 0} → ℕ → List (ℕ × List Row) → List (ℕ × List Row)
group_of = rows_of (λ g. g.0)

abbrev bump : {Row : Type 0} → ℕ → Row → List (ℕ × List Row) → List (ℕ × List Row)
bump k row [] = (k, row ∷ []) ∷ []
bump k row ((j, rows) ∷ groups) = (j, rows ++ row ∷ []) ∷ groups

add_row-group_of :
    {Row : Type 0} (j : ℕ) (row : Row) (groups : List (ℕ × List Row)) (k : ℕ)
    → group_of k (add_row j row groups)
      ≡ (if j == k then bump k row (group_of k groups) else group_of k groups)
unfolding add_row
add_row-group_of j row [] k = ground (arith, ==_iff j k)
add_row-group_of j row ((i, rows) ∷ groups) k =
    ground (arith, add_row-group_of j row groups k, ==_iff j k, ==_iff i k, ==_iff i j)

-- All rows of a key as its one group
abbrev pub as_group : {Row : Type 0} → ℕ → List Row → List (ℕ × List Row)
as_group k [] = []
as_group k (row ∷ rows) = (k, row ∷ rows) ∷ []

bump-as_group :
    {Row : Type 0} (k : ℕ) (row : Row) (rows : List Row)
    → bump k row (as_group k rows) ≡ as_group k (rows ++ row ∷ [])
bump-as_group k row [] = refl
bump-as_group k row (x ∷ rows) = refl

pub group_rows-group_of :
    {Row : Type 0} (key_of : Row → ℕ) (rows seen : List Row) (groups : List (ℕ × List Row)) (k : ℕ)
    → group_of k groups ≡ as_group k (rows_of key_of k seen)
    → group_of k (group_rows key_of groups rows) ≡ as_group k (rows_of key_of k (seen ++ rows))
unfolding group_rows
group_rows-group_of key_of [] seen groups k h = rw (append-nil seen) h
group_rows-group_of key_of (row ∷ rows) seen groups k h =
    let ih =
      group_rows-group_of key_of rows (seen ++ row ∷ []) (add_row (key_of row) row groups) k
        (grown (Bool-cases (key_of row == k))) in
    rw (append_assoc seen (row ∷ []) rows) at ih
  where
    grown :
        (key_of row == k ≡ true) ⊎ (key_of row == k ≡ false)
        → group_of k (add_row (key_of row) row groups)
          ≡ as_group k (rows_of key_of k (seen ++ row ∷ []))
    grown (inl e) =
        rw
          (
            add_row-group_of (key_of row) row groups k,
            keep-append (λ x. key_of x == k) seen (row ∷ []),
            e,
            h,
          )
          (bump-as_group k row (rows_of key_of k seen))
    grown (inr e) =
        rw
          (
            add_row-group_of (key_of row) row groups k,
            keep-append (λ x. key_of x == k) seen (row ∷ []),
            e,
            append-nil (rows_of key_of k seen),
          )
          h
