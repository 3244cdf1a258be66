-- ===== src/Session/MakeQuery/Keyed.antt =====
-- The functions that `MakeQuery` makes, and those of them that take the key of a row.
use sqlr.Prelude.{
  ok, >>=-ok, if-ok, ◌≡◌, inl, inr, refl, sym, ◌∙◌, ap, arith, ℕ, Bool, true, false, List, [], ◌∷◌,
  some, Bool-cases,
}
use sqlr.Go.Types.{
  GoType, basic, slice_of, ptr_to, func_of, no_types, more, BasicKind, same_type, same_type_iff,
  string_type, any_type, error_type, is_slice, is_struct,
}
use sqlr.Session.MakeQuery.{
  QueryFunc, select_int, select_row, select_rows, get_one, get_many, load_one, is_integer,
  key_type_in, with_key, get_one_row, get_one_func, get_many_rows, get_many_func, load_one_row,
  load_one_thunk, load_one_func,
}

abbrev pub query_args : List GoType
query_args = string_type ∷ slice_of 0 any_type ∷ []

-- The functions, where `Row` is a struct: with a query and its arguments, variadic or not, for rows, a
-- row or an integer of any integer type; and with the key of a row whose primary key has one column.
-- The comment of `MakeQuery` lists the same, but for integers `int` and `int64` only, and the arguments
-- of a query as variadic.
pub data Signature (key_types : GoType → List GoType)
    : List GoType → List GoType → QueryFunc → Type 0 where
  counts :
      {n : ℕ} {k : BasicKind}
      → is_integer k ≡ true
      → Signature key_types query_args (basic n k ∷ error_type ∷ []) select_int
  selects_row :
      {row : GoType}
      → is_struct row ≡ true
      → Signature key_types query_args (ptr_to 0 row ∷ error_type ∷ []) (select_row row)
  selects_rows :
      {row : GoType}
      → is_struct row ≡ true
      → Signature key_types query_args
          (slice_of 0 (ptr_to 0 row) ∷ error_type ∷ [])
          (select_rows row)
  gets_one :
      {n : ℕ} {key row : GoType}
      → is_struct row ≡ true
      → key_types row ≡ key ∷ []
      → is_slice key ≡ false
      → Signature key_types (key ∷ []) (ptr_to n row ∷ error_type ∷ []) (get_one row)
  gets_many :
      {m n : ℕ} {key row : GoType}
      → is_struct row ≡ true
      → key_types row ≡ key ∷ []
      → Signature key_types
          (slice_of 0 key ∷ [])
          (slice_of m (ptr_to n row) ∷ error_type ∷ [])
          (get_many row)
  loads_one :
      {m n : ℕ} {b : Bool} {key row : GoType}
      → is_struct row ≡ true
      → key_types row ≡ key ∷ []
      → is_slice key ≡ false
      → Signature key_types
          (key ∷ [])
          (func_of m b no_types (more (ptr_to n row) (more error_type no_types)) ∷ [])
          (load_one row)

module _ (key_types : GoType → List GoType) where
  key_type_in-ok :
      (row key : GoType) (ts : List GoType) → key_type_in key_types row ts ≡ ok key → ts ≡ key ∷ []
  unfolding key_type_in
  key_type_in-ok row key [] h = absurd (cc)
  key_type_in-ok row key (t ∷ []) h = ground arith
  key_type_in-ok row key (t ∷ s ∷ ts) h = absurd (cc)

  with_key-ok :
      (wanted : GoType → GoType) (input row : GoType) (f g : QueryFunc)
      → with_key key_types wanted input row f ≡ ok (some g)
      → (key : GoType) × (key_types row ≡ key ∷ []) × (input ≡ wanted key) × (f ≡ g)
  unfolding with_key
  with_key-ok wanted input row f g h =
      let (key, first, later) = >>=-ok (key_type_in key_types row (key_types row)) h in
      let (same, made) = if-ok (same_type input (wanted key)) _ _ later in
      (
        key,
        key_type_in-ok row key (key_types row) first,
        (same_type_iff input (wanted key)).0 same,
        ground arith,
      )

  get_one_row-ok :
      (id out : GoType) (f : QueryFunc)
      → get_one_row key_types id out ≡ ok (some f)
      → (n : ℕ) × (row : GoType) × (out ≡ ptr_to n row)
        × (is_struct row ≡ true)
        × (key_types row ≡ id ∷ [])
        × (f ≡ get_one row)
  unfolding get_one_row
  get_one_row-ok id (ptr_to n row) f h =
      let (struct, made) = if-ok (is_struct row) _ _ h in
      let (key, keys, same, is) = with_key-ok (λ key. key) id row (get_one row) f made in
      (n, row, refl, struct, keys ∙ ap (λ k. k ∷ []) (sym same), sym is)
  get_one_row-ok id _ f h = absurd (cc)

  pub get_one_func-ok :
      (ins outs : List GoType) (f : QueryFunc)
      → get_one_func key_types ins outs ≡ ok (some f)
      → Signature key_types ins outs f
  unfolding get_one_func
  get_one_func-ok (id ∷ []) (out ∷ e ∷ []) f h = elim (Bool-cases (is_slice id)) [
    | inl s ↦ absurd (cc (rw s at h))
    | inr s ↦
        let (er, made) = if-ok (same_type e error_type) _ _ (rw s at h) in
        let (n, row, shape, struct, keys, is) = get_one_row-ok id out f made in
        rw (shape, (same_type_iff e error_type).0 er, is) (gets_one struct keys s)
  ]
  get_one_func-ok _ _ f h = absurd (cc)

  get_many_rows-ok :
      (ids out : GoType) (f : QueryFunc)
      → get_many_rows key_types ids out ≡ ok (some f)
      → (m n : ℕ) × (key row : GoType) × (out ≡ slice_of m (ptr_to n row))
        × (is_struct row ≡ true)
        × (key_types row ≡ key ∷ [])
        × (ids ≡ slice_of 0 key)
        × (f ≡ get_many row)
  unfolding get_many_rows
  get_many_rows-ok ids (slice_of m (ptr_to n row)) f h =
      let (struct, made) = if-ok (is_struct row) _ _ h in
      let (key, keys, same, is) = with_key-ok (slice_of 0) ids row (get_many row) f made in
      (m, n, key, row, refl, struct, keys, same, sym is)
  get_many_rows-ok ids _ f h = absurd (cc)

  pub get_many_func-ok :
      (ins outs : List GoType) (f : QueryFunc)
      → get_many_func key_types ins outs ≡ ok (some f)
      → Signature key_types ins outs f
  unfolding get_many_func
  get_many_func-ok (ids ∷ []) (out ∷ e ∷ []) f h = elim (Bool-cases (is_slice ids)) [
    | inl s ↦
        let (er, made) = if-ok (same_type e error_type) _ _ (rw s at h) in
        let (m, n, key, row, shape, struct, keys, input, is) = get_many_rows-ok ids out f made in
        rw (shape, (same_type_iff e error_type).0 er, input, is) (gets_many struct keys)
    | inr s ↦ absurd (cc (rw s at h))
  ]
  get_many_func-ok _ _ f h = absurd (cc)

  load_one_row-ok :
      (id out : GoType) (f : QueryFunc)
      → load_one_row key_types id out ≡ ok (some f)
      → (n : ℕ) × (row : GoType) × (out ≡ ptr_to n row)
        × (is_struct row ≡ true)
        × (key_types row ≡ id ∷ [])
        × (f ≡ load_one row)
  unfolding load_one_row
  load_one_row-ok id (ptr_to n row) f h =
      let (struct, made) = if-ok (is_struct row) _ _ h in
      let (key, keys, same, is) = with_key-ok (λ key. key) id row (load_one row) f made in
      (n, row, refl, struct, keys ∙ ap (λ k. k ∷ []) (sym same), sym is)
  load_one_row-ok id _ f h = absurd (cc)

  pub load_one_func-ok :
      (ins outs : List GoType) (f : QueryFunc)
      → load_one_func key_types ins outs ≡ ok (some f)
      → Signature key_types ins outs f
  unfolding load_one_func load_one_thunk
  load_one_func-ok (id ∷ []) (func_of m b no_types (more out (more e no_types)) ∷ []) f h =
      elim (Bool-cases (is_slice id)) [
        | inl s ↦ absurd (cc (rw s at h))
        | inr s ↦
            let (er, made) = if-ok (same_type e error_type) _ _ (rw s at h) in
            let (n, row, shape, struct, keys, is) = load_one_row-ok id out f made in
            rw (shape, (same_type_iff e error_type).0 er, is) (loads_one struct keys s)
      ]
  load_one_func-ok (id ∷ []) (func_of m b (more a as') outs ∷ []) f h = ground arith
  load_one_func-ok _ _ f h = ground arith
