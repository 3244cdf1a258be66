-- ===== src/Session/MakeQuery/Signatures.antt =====
-- Which functions `MakeQuery` makes.
use sqlr.Prelude.{
  ok, if-ok, ◌≡◌, ◌↔◌, ◌⊎◌, inl, inr, refl, sym, arith, List, [], ◌∷◌, none, some, Bool-cases,
}
use sqlr.Go.Types.{
  GoType, basic, slice_of, ptr_to, array_of, func_of, same_type, same_type_iff, same_type_refl,
  string_type, any_type, error_type, is_slice, is_struct,
}
use sqlr.Session.MakeQuery.{
  QueryFunc, select_int, select_row, select_rows, Made, is_integer, slice_elem, ptr_elem,
  key_type_in, with_key, select_result, select_output, select_outputs, select_func, get_one_row,
  get_one_func, get_many_rows, get_many_func, load_one_row, load_one_thunk, load_one_func,
  first_made, make_query,
}
use sqlr.Session.MakeQuery.Keyed.{
  Signature, counts, selects_row, selects_rows, gets_one, gets_many, loads_one, query_args,
  get_one_func-ok, get_many_func-ok, load_one_func-ok,
}

module _ (key_types : GoType → List GoType) where
  select_result-ok :
      (out : GoType) (f : QueryFunc)
      → select_result key_types out ≡ ok (some f)
      → Signature key_types query_args (out ∷ error_type ∷ []) f
  unfolding select_result
  select_result-ok out f h =
      let row = ptr_elem (slice_elem out) in
      elim (Bool-cases (is_struct row)) [
        | inr s ↦ absurd (cc (rw s at h))
        | inl s ↦ elim (Bool-cases (same_type out (ptr_to 0 row))) [
          | inl p ↦
              let is : select_row row ≡ f = ground arith in
              rw ((same_type_iff out (ptr_to 0 row)).0 p, sym is) (selects_row s)
          | inr p ↦
              let (q, made) =
                if-ok (same_type out (slice_of 0 (ptr_to 0 row))) _ _ (rw (s, p) at h) in
              let is : select_rows row ≡ f = ground arith in
              rw ((same_type_iff out (slice_of 0 (ptr_to 0 row))).0 q, sym is) (selects_rows s)
        ]
      ]

  select_output-ok :
      (out : GoType) (f : QueryFunc)
      → select_output key_types out ≡ ok (some f)
      → Signature key_types query_args (out ∷ error_type ∷ []) f
  unfolding select_output
  select_output-ok (basic n k) f h = elim (Bool-cases (is_integer k)) [
    | inl i ↦ let is : select_int ≡ f = ground arith in rw (sym is) (counts i)
    | inr i ↦ select_result-ok (basic n k) f (rw i at h)
  ]
  select_output-ok (slice_of n t) f h = select_result-ok (slice_of n t) f h
  select_output-ok (ptr_to n t) f h = select_result-ok (ptr_to n t) f h
  select_output-ok (array_of n l t) f h = select_result-ok (array_of n l t) f h
  select_output-ok (func_of n b is os) f h = select_result-ok (func_of n b is os) f h

  select_func-ok :
      (ins outs : List GoType) (f : QueryFunc)
      → select_func key_types ins outs ≡ ok (some f)
      → Signature key_types ins outs f
  unfolding select_func select_outputs
  select_func-ok (query ∷ args ∷ []) (out ∷ e ∷ []) f h =
      elim (Bool-cases (same_type query string_type)) [
        | inl q ↦
            let (a, made) = if-ok (same_type args (slice_of 0 any_type)) _ _ (rw q at h) in
            let (er, found) = if-ok (same_type e error_type) _ _ made in
            rw
              (
                (same_type_iff query string_type).0 q,
                (same_type_iff args (slice_of 0 any_type)).0 a,
                (same_type_iff e error_type).0 er,
              )
              (select_output-ok out f found)
        | inr q ↦ absurd (cc (rw q at h))
      ]
  select_func-ok _ _ f h = absurd (ground arith)

  first_made-ok :
      (a b c d : Made) (f : QueryFunc)
      → first_made key_types (a ∷ b ∷ c ∷ d ∷ []) ≡ ok f
      → (a ≡ ok (some f)) ⊎ ((b ≡ ok (some f)) ⊎ ((c ≡ ok (some f)) ⊎ (d ≡ ok (some f))))
  unfolding first_made
  first_made-ok (ok (some g)) b c d f h = inl (ground arith)
  first_made-ok (ok none) (ok (some g)) c d f h = inr (inl (ground arith))
  first_made-ok (ok none) (ok none) (ok (some g)) d f h = inr (inr (inl (ground arith)))
  first_made-ok (ok none) (ok none) (ok none) (ok (some g)) f h = inr (inr (inr (ground arith)))
  first_made-ok _ _ _ _ f h = absurd (ground arith)

  Signature-make_query :
      {ins outs : List GoType} {f : QueryFunc}
      → Signature key_types ins outs f
      → make_query key_types ins outs ≡ ok f
  unfolding make_query first_made select_func select_outputs select_output select_result slice_elem
      ptr_elem get_one_func get_one_row get_many_func get_many_rows load_one_func load_one_thunk
      load_one_row with_key key_type_in is_slice same_type is_struct is_integer
  Signature-make_query (counts i) = rw i refl
  Signature-make_query (selects_row {row = row} s) = rw (s, same_type_refl row) refl
  Signature-make_query (selects_rows {row = row} s) = rw (s, same_type_refl row) refl
  Signature-make_query (gets_one {key = key} s keys k) = rw (k, s, keys, same_type_refl key) refl
  Signature-make_query (gets_many {key = key} s keys) = rw (s, keys, same_type_refl key) refl
  Signature-make_query (loads_one {key = key} s keys k) = rw (k, s, keys, same_type_refl key) refl

  pub make_query-Signature :
      (ins outs : List GoType) (f : QueryFunc)
      → (make_query key_types ins outs ≡ ok f) ↔ Signature key_types ins outs f
  unfolding make_query
  make_query-Signature ins outs f = (
    λ h. elim (first_made-ok _ _ _ _ f h) [
      | inl a ↦ select_func-ok ins outs f a
      | inr (inl b) ↦ get_one_func-ok key_types ins outs f b
      | inr (inr (inl c)) ↦ get_many_func-ok key_types ins outs f c
      | inr (inr (inr d)) ↦ load_one_func-ok key_types ins outs f d
    ],
    Signature-make_query,
  )
