-- ===== src/Session/MakeQuery.antt =====
-- make_query.go: which functions `MakeQuery` can make.
pub mod Keyed
pub mod Signatures
use sqlr.Prelude.{
  Result, err, ok, ◌>>=◌, ℕ, Bool, true, false, not, ◌&&◌, ◌||◌, List, [], ◌∷◌, Option, none, some,
  if◌then◌else◌,
}
use sqlr.Go.Types.{
  GoType, basic, slice_of, ptr_to, func_of, GoTypes, items, BasicKind, struct_kind, string_kind,
  interface_kind, other_kind, float32_kind, float64_kind, bool_kind, same_type, string_type,
  any_type, error_type, is_slice, is_struct,
}

-- The functions that the makers return, each with its row type.
pub data QueryFunc : Type 0 where
  select_int : QueryFunc
  select_row select_rows get_one get_many load_one : GoType → QueryFunc

-- `rowFuncError`
pub data MakeError : Type 0 where
  query_inputs query_outputs : MakeError
  not_a_struct : GoType → MakeError
  second_not_error first_not_pointer first_not_slice : MakeError
  composite_key no_key : GoType → MakeError
  other_key : GoType → GoType → MakeError
  not_a_thunk thunk_inputs thunk_outputs : MakeError
  not_recognized : MakeError

-- A maker's result: nil where the function is not its business.
abbrev pub Made : Type 0
Made = Result MakeError (Option QueryFunc)

unfoldable pub is_integer : BasicKind → Bool
is_integer string_kind = false
is_integer struct_kind = false
is_integer interface_kind = false
is_integer other_kind = false
is_integer float32_kind = false
is_integer float64_kind = false
is_integer bool_kind = false
is_integer _ = true

-- the two `rowType = rowType.Elem()` of `selectFunc`
unfoldable pub slice_elem : GoType → GoType
slice_elem (slice_of n t) = t
slice_elem t = t

unfoldable pub ptr_elem : GoType → GoType
ptr_elem (ptr_to n t) = t
ptr_elem t = t

-- The types of the primary key's fields, which the schema's table of a row type has.
module _ (key_types : GoType → List GoType) where
  -- `getPKCol`, on the type of the column's field
  unfoldable pub key_type_in : GoType → List GoType → Result MakeError GoType
  key_type_in row [] = err (no_key row)
  key_type_in row (t ∷ []) = ok t
  key_type_in row (t ∷ s ∷ ts) = err (composite_key row)

  -- The last check of the makers: the key's type, and the type that the function wants of it.
  unfoldable pub with_key : (GoType → GoType) → GoType → GoType → QueryFunc → Made
  with_key wanted input row f = do
    key ← key_type_in row (key_types row)
    if same_type input (wanted key) then ok (some f) else err (other_key row key)

  -- `selectFunc` behind the checks of its arguments
  unfoldable pub select_result : GoType → Made
  select_result out =
      let row = ptr_elem (slice_elem out) in
      if not (is_struct row)
      then err (not_a_struct row)
      else if same_type out (ptr_to 0 row)
      then ok (some (select_row row))
      else if same_type out (slice_of 0 (ptr_to 0 row))
      then ok (some (select_rows row))
      else err query_outputs

  unfoldable pub select_output : GoType → Made
  select_output (basic n k) =
      if is_integer k then ok (some select_int) else select_result (basic n k)
  select_output out = select_result out

  unfoldable pub select_outputs : List GoType → Made
  select_outputs (out ∷ e ∷ []) =
      if same_type e error_type then select_output out else err query_outputs
  select_outputs outs = err query_outputs

  unfoldable pub select_func : List GoType → List GoType → Made
  select_func [] outs = ok none
  select_func (query ∷ []) outs = ok none
  select_func (query ∷ args ∷ []) outs =
      if not (same_type query string_type)
      then ok none
      else if same_type args (slice_of 0 any_type)
      then select_outputs outs
      else err query_inputs
  select_func (query ∷ args ∷ arg ∷ others) outs =
      if same_type query string_type then err query_inputs else ok none

  -- `getOneFunc`
  unfoldable pub get_one_row : GoType → GoType → Made
  get_one_row id (ptr_to n row) =
      if is_struct row then with_key (λ key. key) id row (get_one row) else err first_not_pointer
  get_one_row id out = err first_not_pointer

  unfoldable pub get_one_func : List GoType → List GoType → Made
  get_one_func (id ∷ []) (out ∷ e ∷ []) =
      if is_slice id
      then ok none
      else if same_type e error_type
      then get_one_row id out
      else err second_not_error
  get_one_func ins outs = ok none

  -- `getManyFunc`
  unfoldable pub get_many_rows : GoType → GoType → Made
  get_many_rows ids (slice_of m (ptr_to n row)) =
      if is_struct row then with_key (slice_of 0) ids row (get_many row) else err first_not_slice
  get_many_rows ids out = err first_not_slice

  unfoldable pub get_many_func : List GoType → List GoType → Made
  get_many_func (ids ∷ []) (out ∷ e ∷ []) =
      if not (is_slice ids)
      then ok none
      else if same_type e error_type
      then get_many_rows ids out
      else err second_not_error
  get_many_func ins outs = ok none

  -- `loadOneFunc`
  unfoldable pub load_one_row : GoType → GoType → Made
  load_one_row id (ptr_to n row) =
      if is_struct row then with_key (λ key. key) id row (load_one row) else err thunk_outputs
  load_one_row id out = err thunk_outputs

  unfoldable pub load_one_thunk : GoType → List GoType → List GoType → Made
  load_one_thunk id [] (out ∷ e ∷ []) =
      if same_type e error_type then load_one_row id out else err thunk_outputs
  load_one_thunk id [] outs = err thunk_outputs
  load_one_thunk id (arg ∷ args) outs = err thunk_inputs

  unfoldable pub load_one_func : List GoType → List GoType → Made
  load_one_func (id ∷ []) (func_of n b ins outs ∷ []) =
      if is_slice id then ok none else load_one_thunk id (items ins) (items outs)
  load_one_func (id ∷ []) (out ∷ []) = if is_slice id then ok none else err not_a_thunk
  load_one_func ins outs = ok none

  -- The loop over the makers
  unfoldable pub first_made : List Made → Result MakeError QueryFunc
  first_made [] = err not_recognized
  first_made (err e ∷ makers) = err e
  first_made (ok none ∷ makers) = first_made makers
  first_made (ok (some f) ∷ makers) = ok f

  -- `makeQuery` of a function with these inputs and outputs, where `funcMap` has none. The last input of
  -- a variadic function is a slice; whether the function is variadic is never asked.
  unfoldable pub make_query : List GoType → List GoType → Result MakeError QueryFunc
  make_query ins outs = first_made (
      select_func ins outs
      ∷ get_one_func ins outs
      ∷ get_many_func ins outs
      ∷ load_one_func ins outs
      ∷ [])
