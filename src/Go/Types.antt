-- ===== src/Go/Types.antt =====
-- Go's types as `reflect` shows them: kinds, elements, and `==`.
use sqlr.Prelude.{
  ℕ, Bool, true, false, not, ◌&&◌, List, [], ◌∷◌, ◌==◌, ◌≡◌, ◌↔◌, refl, sym, arith, some, ==_iff,
  false≢true, get_elem?,
}

-- The kinds of types that have no element.
pub data BasicKind : Type 0 where
  int_kind int8_kind int16_kind int32_kind int64_kind : BasicKind
  uint_kind uint8_kind uint16_kind uint32_kind uint64_kind : BasicKind
  float32_kind float64_kind bool_kind : BasicKind
  string_kind struct_kind interface_kind other_kind : BasicKind

abbrev pub rank : BasicKind → ℕ
rank int_kind = 0
rank int8_kind = 1
rank int16_kind = 2
rank int32_kind = 3
rank int64_kind = 4
rank uint_kind = 5
rank uint8_kind = 6
rank uint16_kind = 7
rank uint32_kind = 8
rank uint64_kind = 9
rank string_kind = 10
rank struct_kind = 11
rank interface_kind = 12
rank other_kind = 13
rank float32_kind = 14
rank float64_kind = 15
rank bool_kind = 16

-- The first number is zero for a predeclared type, and for an unnamed slice, pointer, array or
-- function. A defined type has a number of its own, and so has each struct, interface, map or
-- channel type, whose make this leaves out: there different types have different numbers. An array
-- has its length behind that, and a function whether it is variadic: its last input is a slice then.
mutual
  pub data GoType : Type 0 where
    basic : ℕ → BasicKind → GoType
    slice_of ptr_to : ℕ → GoType → GoType
    array_of : ℕ → ℕ → GoType → GoType
    func_of : ℕ → Bool → GoTypes → GoTypes → GoType

  pub data GoTypes : Type 0 where
    no_types : GoTypes
    more : GoType → GoTypes → GoTypes

abbrev pub items : GoTypes → List GoType
items no_types = []
items (more t ts) = t ∷ items ts

abbrev same_flag : Bool → Bool → Bool
same_flag true b = b
same_flag false b = not b

-- `==` of types
unfoldable mutual
  pub same_type : GoType → GoType → Bool
  same_type (basic m j) (basic n k) = m == n && rank j == rank k
  same_type (slice_of m s) (slice_of n t) = m == n && same_type s t
  same_type (ptr_to m s) (ptr_to n t) = m == n && same_type s t
  same_type (array_of m l s) (array_of n k t) = m == n && (l == k && same_type s t)
  same_type (func_of m b is os) (func_of n c js ps) =
      m == n && (same_flag b c && (same_types is js && same_types os ps))
  same_type _ _ = false

  pub same_types : GoTypes → GoTypes → Bool
  same_types no_types no_types = true
  same_types (more s ss) (more t ts) = same_type s t && same_types ss ts
  same_types _ _ = false

abbrev all_kinds : List BasicKind
all_kinds =
    int_kind ∷ int8_kind ∷ int16_kind ∷ int32_kind ∷ int64_kind ∷ uint_kind ∷ uint8_kind
    ∷ uint16_kind ∷ uint32_kind ∷ uint64_kind ∷ string_kind ∷ struct_kind ∷ interface_kind
    ∷ other_kind ∷ float32_kind ∷ float64_kind ∷ bool_kind ∷ []

same_flag_refl : (b : Bool) → same_flag b b ≡ true
same_flag_refl true = refl
same_flag_refl false = refl

same_flag-true : (b c : Bool) → same_flag b c ≡ true → b ≡ c
same_flag-true true c h = sym h
same_flag-true false true h = absurd (false≢true h)
same_flag-true false false h = refl

get_elem?-rank : (k : BasicKind) → get_elem? all_kinds (rank k) ≡ some k
get_elem?-rank int_kind = refl
get_elem?-rank int8_kind = refl
get_elem?-rank int16_kind = refl
get_elem?-rank int32_kind = refl
get_elem?-rank int64_kind = refl
get_elem?-rank uint_kind = refl
get_elem?-rank uint8_kind = refl
get_elem?-rank uint16_kind = refl
get_elem?-rank uint32_kind = refl
get_elem?-rank uint64_kind = refl
get_elem?-rank string_kind = refl
get_elem?-rank struct_kind = refl
get_elem?-rank interface_kind = refl
get_elem?-rank other_kind = refl
get_elem?-rank float32_kind = refl
get_elem?-rank float64_kind = refl
get_elem?-rank bool_kind = refl

mutual
  unfolding same_type

  pub same_type_refl : (t : GoType) → same_type t t ≡ true
  same_type_refl (basic n k) = ground arith
  same_type_refl (slice_of n t) = ground (arith, same_type_refl t)
  same_type_refl (ptr_to n t) = ground (arith, same_type_refl t)
  same_type_refl (array_of n l t) =
      rw ((==_iff n n).1 refl, (==_iff l l).1 refl, same_type_refl t) refl
  same_type_refl (func_of n b is os) =
      rw ((==_iff n n).1 refl, same_flag_refl b, same_types_refl is, same_types_refl os) refl

  same_types_refl : (ts : GoTypes) → same_types ts ts ≡ true
  same_types_refl no_types = refl
  same_types_refl (more t ts) = ground (arith, same_type_refl t, same_types_refl ts)

&&-true : {b : Bool} (a : Bool) → (a && b) ≡ true → (a ≡ true) × (b ≡ true)
&&-true true h = (refl, h)
&&-true false h = absurd (false≢true h)

mutual
  unfolding same_type

  pub same_type-true : (s t : GoType) → same_type s t ≡ true → s ≡ t
  same_type-true (basic m j) (basic n k) h = ground (arith, get_elem?-rank j, get_elem?-rank k)
  same_type-true (slice_of m s) (slice_of n t) h = ground (arith, same_type-true s t)
  same_type-true (ptr_to m s) (ptr_to n t) h = ground (arith, same_type-true s t)
  same_type-true (array_of m l s) (array_of n k t) h = ground (arith, same_type-true s t)
  same_type-true (func_of m b is os) (func_of n c js ps) h =
      let (name, rest) = &&-true (m == n) h in
      let (flag, rest') = &&-true (same_flag b c) rest in
      let (ins, outs) = &&-true (same_types is js) rest' in
      rw
        (
          (==_iff m n).0 name,
          same_flag-true b c flag,
          same_types-true is js ins,
          same_types-true os ps outs,
        )
        refl
  same_type-true _ _ h = absurd (cc)

  same_types-true : (ss ts : GoTypes) → same_types ss ts ≡ true → ss ≡ ts
  same_types-true no_types no_types h = refl
  same_types-true (more s ss) (more t ts) h =
      let (first, rest) = &&-true (same_type s t) h in
      rw (same_type-true s t first, same_types-true ss ts rest) refl
  same_types-true _ _ h = absurd (cc)

pub same_type_iff : (s t : GoType) → (same_type s t ≡ true) ↔ (s ≡ t)
same_type_iff s t = (same_type-true s t, λ e. rw e (same_type_refl t))

abbrev pub string_type : GoType
string_type = basic 0 string_kind

-- `interface{}`
abbrev pub any_type : GoType
any_type = basic 0 interface_kind

abbrev pub error_type : GoType
error_type = basic 1 interface_kind

unfoldable pub is_slice : GoType → Bool
is_slice (slice_of n t) = true
is_slice _ = false

abbrev pub is_struct_kind : BasicKind → Bool
is_struct_kind struct_kind = true
is_struct_kind _ = false

unfoldable pub is_struct : GoType → Bool
is_struct (basic n k) = is_struct_kind k
is_struct _ = false
