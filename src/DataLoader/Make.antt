-- ===== src/DataLoader/Make.antt =====
-- dataloader/dataloader.go (`Make`): the checks of the three functions that make a loader, and
-- make_query.go (`makeLoadOneFunc`), which passes it functions.
pub mod LoadOne
use sqlr.Prelude.{Result, err, ok, ◌>>=◌, Bool, true, false, not, List, [], ◌∷◌, if◌then◌else◌}
use sqlr.Go.Types.{
  GoType, basic, slice_of, ptr_to, array_of, func_of, GoTypes, no_types, more, items, BasicKind,
  int_kind, int8_kind, int16_kind, int32_kind, int64_kind, uint8_kind, uint16_kind, uint32_kind,
  uint64_kind, string_kind, same_type, error_type,
}

-- The types that the checks write into the loader; `query_row_type` by `process_query_func`.
pub record Thunks : Type 0 where
  pub key_type : GoType
  pub thunk_result_type : GoType
  pub thunk_elem_type : GoType

-- The panics of the three functions.
pub data MakePanic : Type 0 where
  loader_pointer loader_nil loader_input loader_output : MakePanic
  thunk_inputs thunk_outputs thunk_error : MakePanic
  query_function query_nil query_input query_outputs query_error query_slice : MakePanic
  key_function key_nil key_input key_output key_outputs : MakePanic

-- `isKeyType`
unfoldable pub is_key_kind : BasicKind → Bool
is_key_kind string_kind = true
is_key_kind int_kind = true
is_key_kind int8_kind = true
is_key_kind int16_kind = true
is_key_kind int32_kind = true
is_key_kind int64_kind = true
is_key_kind uint8_kind = true
is_key_kind uint16_kind = true
is_key_kind uint32_kind = true
is_key_kind uint64_kind = true
is_key_kind _ = false

unfoldable pub is_key_type : GoType → Bool
is_key_type (array_of n l t) = is_key_type t
is_key_type (basic n k) = is_key_kind k
is_key_type _ = false

unfoldable pub result_elem : GoType → GoType
result_elem (slice_of n t) = t
result_elem t = t

-- `processLoaderFuncPtr`: the thunk's inputs and outputs, its type, and the loader function
unfoldable pub process_thunk : GoType → List GoType → List GoType → Result MakePanic Thunks
process_thunk key [] (result ∷ e ∷ []) =
    if same_type e error_type
    then ok (record {
      key_type = key;
      thunk_result_type = result;
      thunk_elem_type = result_elem result;
    })
    else err thunk_error
process_thunk key [] outs = err thunk_outputs
process_thunk key (arg ∷ args) outs = err thunk_inputs

unfoldable pub process_loader_outputs : GoType → List GoType → Result MakePanic Thunks
process_loader_outputs key (func_of n b ins outs ∷ []) = process_thunk key (items ins) (items outs)
process_loader_outputs key outs = err loader_output

unfoldable pub process_loader_func : List GoType → List GoType → Result MakePanic Thunks
process_loader_func (key ∷ []) outs =
    if is_key_type key then process_loader_outputs key outs else err loader_input
process_loader_func ins outs = err loader_input

unfoldable pub process_loader_func_ptr : GoType → Bool → Result MakePanic Thunks
process_loader_func_ptr (ptr_to m (func_of n b ins outs)) is_nil =
    if not is_nil then process_loader_func (items ins) (items outs) else err loader_nil
process_loader_func_ptr (ptr_to m t) is_nil =
    if not is_nil then err loader_pointer else err loader_nil
process_loader_func_ptr t is_nil = err loader_pointer

-- `processQueryFunc`, which gives the row type
unfoldable pub process_rows : GoType → Result MakePanic GoType
process_rows (slice_of n row) = ok row
process_rows t = err query_slice

unfoldable pub process_query_outputs : List GoType → Result MakePanic GoType
process_query_outputs (rows ∷ e ∷ []) =
    if same_type e error_type then process_rows rows else err query_error
process_query_outputs outs = err query_outputs

unfoldable pub process_query : Thunks → List GoType → List GoType → Result MakePanic GoType
process_query loader (slice_of n key ∷ []) outs =
    if same_type key loader.key_type then process_query_outputs outs else err query_input
process_query loader ins outs = err query_input

unfoldable pub process_query_func : Thunks → GoType → Bool → Result MakePanic GoType
process_query_func loader (func_of n b ins outs) is_nil =
    if not is_nil then process_query loader (items ins) (items outs) else err query_nil
process_query_func loader t is_nil = err query_function

-- `processKeyFunc`
unfoldable pub one_output : Thunks → List GoType → Result {0} MakePanic Unit
one_output loader (key ∷ []) = if same_type key loader.key_type then ok tt else err key_output
one_output loader outs = err key_output

unfoldable pub two_outputs : Thunks → List GoType → Result {0} MakePanic Unit
two_outputs loader (key ∷ elem_type ∷ []) =
    if not (same_type key loader.key_type)
    then err key_outputs
    else if same_type elem_type loader.thunk_elem_type
    then ok tt
    else err key_outputs
two_outputs loader outs = err key_outputs

unfoldable pub process_key : Thunks → GoType → List GoType → List GoType → Result {0} MakePanic Unit
process_key loader query_row_type (row ∷ []) outs =
    if not (same_type row query_row_type)
    then err key_input
    else if same_type query_row_type loader.thunk_elem_type
    then one_output loader outs
    else two_outputs loader outs
process_key loader query_row_type ins outs = err key_input

unfoldable pub process_key_func : Thunks → GoType → GoType → Bool → Result {0} MakePanic Unit
process_key_func loader query_row_type (func_of n b ins outs) is_nil =
    if not is_nil then process_key loader query_row_type (items ins) (items outs) else err key_nil
process_key_func loader query_row_type t is_nil = err key_function

-- `Make`, up to the loader's types and its row type; with each argument's type, whether it is nil
unfoldable pub make :
    GoType → Bool → GoType → Bool → GoType → Bool → Result MakePanic (Thunks × GoType)
make loader_type loader_is_nil query_type query_is_nil key_type key_is_nil = do
  loader ← process_loader_func_ptr loader_type loader_is_nil
  row ← process_query_func loader query_type query_is_nil
  checked ← process_key_func loader row key_type key_is_nil
  ok (loader, row)

-- `makeLoadOneFunc`: the arguments it makes for `Make`, of the function's type, the key's and the row's
unfoldable pub make_load_one : GoType → GoType → GoType → Result MakePanic (Thunks × GoType)
make_load_one func_type key row =
    make (ptr_to 0 func_type) false
      (func_of 0 false (more (slice_of 0 key) no_types)
        (more (slice_of 0 (ptr_to 0 row)) (more error_type no_types)))
      false (func_of 0 false (more (ptr_to 0 row) no_types) (more key no_types)) false
