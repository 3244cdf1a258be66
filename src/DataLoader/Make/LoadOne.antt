-- ===== src/DataLoader/Make/LoadOne.antt =====
-- The load functions of make_query.go, as `Make` checks them.
use sqlr.Prelude.{
  ok, err≢ok, ◌≡◌, ◌↔◌, refl, arith, ℕ, zero, suc, ◌==◌, Bool, true, false, List, [], ◌∷◌,
}
use sqlr.Go.Types.{GoType, ptr_to, func_of, no_types, more, same_type, same_type_refl, error_type}
use sqlr.Session.MakeQuery.{load_one, make_query}
use sqlr.Session.MakeQuery.Keyed.{Signature, loads_one}
use sqlr.Session.MakeQuery.Signatures.{make_query-Signature}
use sqlr.DataLoader.Make.{
  Thunks, key_outputs, is_key_type, result_elem, process_thunk, process_loader_outputs,
  process_loader_func, process_loader_func_ptr, process_rows, process_query_outputs, process_query,
  process_query_func, one_output, two_outputs, process_key, process_key_func, make, make_load_one,
}

-- `func(key) func() (*Row, error)`, where the name of the pointer type is `n`
abbrev pub load_type : ℕ → Bool → ℕ → Bool → ℕ → GoType → GoType → GoType
load_type l b m c n key row =
    func_of l b (more key no_types)
      (more (func_of m c no_types (more (ptr_to n row) (more error_type no_types))) no_types)

zero-suc : (n : ℕ) → (0 == suc n) ≡ false
zero-suc n = ground arith

make_load_one-cases :
    (l m n : ℕ) (b c : Bool) (key row : GoType) (is_key : Bool)
    → is_key_type key ≡ is_key
    → ((r : Thunks × GoType) × (make_load_one (load_type l b m c n key row) key row ≡ ok r))
      ↔ ((is_key ≡ true) × (n ≡ 0))
unfolding make_load_one make process_loader_func_ptr process_loader_func process_loader_outputs
    process_thunk process_query_func process_query process_query_outputs process_rows
    process_key_func process_key one_output two_outputs result_elem same_type
make_load_one-cases l m zero b c key row true e = (
  λ r. (refl, refl),
  λ h. (
    (
      record { key_type = key; thunk_result_type = ptr_to 0 row; thunk_elem_type = ptr_to 0 row },
      ptr_to 0 row,
    ),
    rw (e, same_type_refl key, same_type_refl row) refl,
  ),
)
make_load_one-cases l m (suc n) b c key row true e = (
  λ r.
      absurd (
        err≢ok key_outputs r.0 (rw (e, same_type_refl key, same_type_refl row, zero-suc n) at r.1)),
  λ h. absurd (omega arith),
)
make_load_one-cases l m n b c key row false e =
    (λ r. absurd (cc (rw e at r.1)), λ h. absurd (cc (h.0)))

-- The results of the function that `makeLoadOneFunc` is called for, and whether `Make` accepts it.
abbrev pub LoadsOne : (GoType → List GoType) → List GoType → List GoType → GoType → Type 0
LoadsOne key_types ins outs row =
    (m n : ℕ) × (c : Bool) × (key : GoType) × (key_types row ≡ key ∷ [])
    × (ins ≡ key ∷ [])
    × (outs ≡ func_of m c no_types (more (ptr_to n row) (more error_type no_types)) ∷ [])
    × ((l : ℕ) (b : Bool)
        → ((r : Thunks × GoType) × (make_load_one (load_type l b m c n key row) key row ≡ ok r))
          ↔ ((is_key_type key ≡ true) × (n ≡ 0)))

load_one-LoadsOne :
    {key_types : GoType → List GoType} {ins outs : List GoType} {row : GoType}
    → Signature key_types ins outs (load_one row)
    → LoadsOne key_types ins outs row
load_one-LoadsOne (loads_one {m} {n} {b} {key} {row} s keys k) = (
  m,
  n,
  b,
  key,
  keys,
  refl,
  refl,
  λ l a. make_load_one-cases l m n a b key row (is_key_type key) refl,
)

-- For a load function that `makeQuery` accepts, `Make` accepts the functions that
-- `makeLoadOneFunc` passes just if the key is of a type that the data loader takes for keys, and
-- the pointer to the row is of no named type.
pub make_query-make_load_one :
    (key_types : GoType → List GoType) (ins outs : List GoType) (row : GoType)
    → make_query key_types ins outs ≡ ok (load_one row)
    → LoadsOne key_types ins outs row
make_query-make_load_one key_types ins outs row h =
    load_one-LoadsOne ((make_query-Signature key_types ins outs (load_one row)).0 h)
