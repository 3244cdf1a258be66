-- ===== src/Session/Handlers.antt =====
-- session.go (`HandleRows`, `callRowHandlers`): the callbacks for the rows that `Select` returns.
pub mod Called
use sqlr.Prelude.{
  Result, err, ok, ℕ, zero, suc, Bool, true, false, not, ◌&&◌, ◌||◌, ◌==◌, if◌then◌else◌, List, [],
  ◌∷◌, ◌++◌, Option, none, some,
}
use sqlr.Go.Types.{GoType, GoTypes, no_types, more, slice_of, ptr_to, func_of, same_type, is_struct}

-- What a callback is given: the slice that was filled, or a new slice that holds the pointer to the
-- single row; beside it, the slice's type.
pub data Passed : Type 0 where
  filled_slice single_row : GoType → Passed

-- A function that was registered, with the type of its parameter, and whether it is variadic
pub record Handler (H : Type 0) : Type 0 where
  pub callback : H
  pub variadic : Bool
  pub input : GoType

pub data HandlerError : Type 0 where
  not_callback : HandlerError

-- The row type of a callback, by its parameter's type, if it is accepted. Whether the callback is
-- variadic is not asked; `In(0)` of a variadic one is a slice.
unfoldable pub struct_of : GoType → Option GoType
struct_of (slice_of n (ptr_to m t)) = if is_struct t then some t else none
struct_of t = none

-- `reflect.Value.Call` takes a slice for a parameter of the same type, or of one with the same
-- elements if one of the two has no name. For a variadic function it wants rows, and panics.
unfoldable pub assignable : GoType → GoType → Bool
assignable (slice_of n t) (slice_of m s) = same_type t s && (n == m || (n == 0 || m == 0))
assignable t s = same_type t s

abbrev pub type_of : Passed → GoType
type_of (filled_slice t) = t
type_of (single_row t) = t

-- What `callRowHandlers` passes, for the type of the pointer that `Select` was given; for a slice of
-- structs it calls no handler
unfoldable pub passed_of : GoType → Option Passed
passed_of (ptr_to n (slice_of m (ptr_to k row))) = some (filled_slice (slice_of m (ptr_to k row)))
passed_of (ptr_to n (slice_of m t)) = none
passed_of (ptr_to n t) = if is_struct t then some (single_row (slice_of 0 (ptr_to n t))) else none
passed_of t = none

module _ {H : Type 0} where
  unfoldable pub callable : Handler H → Passed → Bool
  callable h v = not h.variadic && assignable (type_of v) h.input

  -- `sess.rowHandlers`; a nil map has no handler for any type
  unfoldable pub register :
      GoType → Handler H → (GoType → List (Handler H)) → GoType → List (Handler H)
  register row h handlers t = if same_type t row then handlers t ++ h ∷ [] else handlers t

  unfoldable pub registered :
      Option GoType
      → Handler H
      → (GoType → List (Handler H))
      → Result HandlerError (GoType → List (Handler H))
  registered none h handlers = err not_callback
  registered (some row) h handlers = ok (register row h handlers)

  -- `handleRowsHelper`; `HandleRows` panics with its error
  unfoldable pub handle_rows :
      GoType → H → (GoType → List (Handler H)) → Result HandlerError (GoType → List (Handler H))
  handle_rows (func_of n variadic (more t no_types) no_types) f handlers =
      registered (struct_of t) (record { callback = f; variadic = variadic; input = t }) handlers
  handle_rows t f handlers = err not_callback

  -- The calls of the handlers in order, and whether one of them panics
  unfoldable pub run_handlers : List (Handler H) → Passed → List (H × Passed) × Bool
  run_handlers [] v = ([], false)
  run_handlers (h ∷ hs) v =
      let rest = run_handlers hs v in
      if callable h v then ((h.callback, v) ∷ rest.0, rest.1) else ([], true)

  -- `callRowHandlers`
  unfoldable pub call_row_handlers : List (Handler H) → Option Passed → List (H × Passed) × Bool
  call_row_handlers handlers none = ([], false)
  call_row_handlers handlers (some v) = run_handlers handlers v

  -- `Select` behind `selectRows`, with its count, the table's row type and the type of its destination
  unfoldable pub notified :
      ℕ → (GoType → List (Handler H)) → GoType → GoType → List (H × Passed) × Bool
  notified zero handlers row dest = ([], false)
  notified (suc n) handlers row dest = call_row_handlers (handlers row) (passed_of dest)
