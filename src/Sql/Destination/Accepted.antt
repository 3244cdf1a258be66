-- ===== src/Sql/Destination/Accepted.antt =====
-- The destinations that are accepted, as the documentation lists them.
use mathlib.Core.Path.{subst}
use sqlr.Prelude.{
  Result, ok, Bool, true, false, some, ℕ, ◌≡◌, ◌↔◌, refl, sym, false≢true, if◌then◌else◌, if-ok,
}
use sqlr.Go.Types.{
  GoType, basic, slice_of, ptr_to, same_type, same_type_iff, same_type_refl, is_struct,
}
use sqlr.Sql.Destination.{
  Target, one_row, rows_of, DestinationError, slice_target, element_target, select_target,
}

-- `*Row`, `*[]Row` and `*[]*Row`, whatever the pointer's and the slice's types are named
pub data Accepted (row : GoType) : GoType → Target → Type 0 where
  row_pointer : (n : ℕ) → Accepted row (ptr_to n row) one_row
  slice_pointer : (n m : ℕ) → Accepted row (ptr_to n (slice_of m row)) (rows_of false)
  pointers_pointer :
      (n m k : ℕ) → Accepted row (ptr_to n (slice_of m (ptr_to k row))) (rows_of true)

ok_injective : {r s : Target} → Path (Result DestinationError Target) (ok r) (ok s) → r ≡ s
ok_injective h = cc

slice-same_type :
    (m : ℕ) (t row : GoType) → is_struct row ≡ true → same_type (slice_of m t) row ≡ false
unfolding is_struct same_type
slice-same_type m t (basic n k) s = refl
slice-same_type m t _ s = absurd (false≢true s)

element_target-slice :
    (m : ℕ) (row : GoType)
    → is_struct row ≡ true
    → element_target row (slice_of m row) ≡ slice_target row false row
unfolding is_struct element_target
element_target-slice m (basic n k) s = refl
element_target-slice m _ s = absurd (false≢true s)

module _ (row : GoType) where
  slice_target-ok :
      (is_ptr : Bool) (t : GoType) (r : Target)
      → slice_target row is_ptr t ≡ ok r
      → (t ≡ row) × (rows_of is_ptr ≡ r)
  unfolding slice_target
  slice_target-ok is_ptr t r h =
      let (same, made) = if-ok (same_type t row) _ _ h in
      ((same_type_iff t row).0 same, ok_injective made)

  element_target-Accepted :
      (n : ℕ) (t : GoType) (r : Target) → element_target row t ≡ ok r → Accepted row (ptr_to n t) r
  unfolding element_target
  element_target-Accepted n (slice_of m (ptr_to k t)) r h =
      let (same, at) = slice_target-ok true t r h in
      subst (λ r'. Accepted row (ptr_to n (slice_of m (ptr_to k t))) r') at
        (subst (λ t'. Accepted row (ptr_to n (slice_of m (ptr_to k t'))) (rows_of true)) (sym same)
          (pointers_pointer n m k))
  element_target-Accepted n (slice_of m t) r h =
      let (same, at) = slice_target-ok false t r h in
      subst (λ r'. Accepted row (ptr_to n (slice_of m t)) r') at
        (subst (λ t'. Accepted row (ptr_to n (slice_of m t')) (rows_of false)) (sym same)
          (slice_pointer n m))
  element_target-Accepted n _ r h = absurd (cc)

  pointed-Accepted :
      (b : Bool) (n : ℕ) (t : GoType) (r : Target)
      → same_type t row ≡ b
      → (if b then ok one_row else element_target row t) ≡ ok r
      → Accepted row (ptr_to n t) r
  pointed-Accepted true n t r same h = subst (Accepted row (ptr_to n t)) (ok_injective h) (
      subst (λ t'. Accepted row (ptr_to n t') one_row) (sym ((same_type_iff t row).0 same))
        (row_pointer n))
  pointed-Accepted false n t r same h = element_target-Accepted n t r h

  select_target-Accepted :
      (t : GoType) (is_nil : Bool) (r : Target)
      → select_target row (some (t, is_nil)) ≡ ok r
      → Accepted row t r × (is_nil ≡ false)
  unfolding select_target
  select_target-Accepted (ptr_to n t) true r h = absurd (cc)
  select_target-Accepted (ptr_to n t) false r h =
      (pointed-Accepted (same_type t row) n t r refl h, refl)
  select_target-Accepted _ is_nil r h = absurd (cc)

  Accepted-select_target :
      (t : GoType) (r : Target)
      → is_struct row ≡ true
      → Accepted row t r
      → select_target row (some (t, false)) ≡ ok r
  unfolding select_target element_target slice_target
  Accepted-select_target t r s (row_pointer n) = rw (same_type_refl row) refl
  Accepted-select_target t r s (slice_pointer n m) =
      rw (slice-same_type m row row s, element_target-slice m row s, same_type_refl row) refl
  Accepted-select_target t r s (pointers_pointer n m k) =
      rw (slice-same_type m (ptr_to k row) row s, same_type_refl row) refl

  -- For a table whose rows are structs, `selectRows` accepts a destination just if it is a pointer
  -- that is not nil, to a row, to a slice of rows, or to a slice of pointers to rows, whatever the
  -- types of the pointers and of the slice are named; the rows go where that type says.
  pub select_target-Accepted_iff :
      (t : GoType) (is_nil : Bool) (r : Target)
      → is_struct row ≡ true
      → (select_target row (some (t, is_nil)) ≡ ok r) ↔ (Accepted row t r × (is_nil ≡ false))
  select_target-Accepted_iff t is_nil r s = (
    select_target-Accepted t is_nil r,
    λ (a, present).
        subst (λ b. select_target row (some (t, b)) ≡ ok r) (sym present)
          (Accepted-select_target t r s a),
  )
