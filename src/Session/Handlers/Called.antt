-- ===== src/Session/Handlers/Called.antt =====
-- Which callbacks are called once another is there.
use sqlr.Prelude.{
  ◌≡◌, ℕ, zero, suc, Bool, true, false, if◌then◌else◌, List, [], ◌∷◌, ◌++◌, Option, none, some,
}
use sqlr.Go.Types.{GoType, no_types, more, slice_of, ptr_to, func_of, is_struct}
use sqlr.Session.Handlers.{Passed, Handler, assignable, type_of, register}

-- `func([]*Row)` for a struct, or `func(...*Row)`, whatever the types are named; with the type of the
-- parameter
pub data Callback : GoType → Bool → GoType → GoType → Type 0 where
  takes_rows :
      (row : GoType) (n m k : ℕ) (variadic : Bool)
      → is_struct row ≡ true
      → Callback
          (func_of n variadic (more (slice_of m (ptr_to k row)) no_types) no_types)
          variadic
          (slice_of m (ptr_to k row))
          row

-- Calls, and others behind them unless there was a panic
abbrev pub and_then : {A : Type 0} → List A × Bool → List A × Bool → List A × Bool
and_then (calls, true) behind = (calls, true)
and_then (calls, false) (others, panics) = (calls ++ others, panics)

-- A call of a callback with a parameter of this type: a panic where it is variadic, or where the
-- parameter does not take what is passed
abbrev pub one_call : {H : Type 0} → H → Bool → GoType → Passed → List (H × Passed) × Bool
one_call f true input v = ([], true)
one_call f false input v = if assignable (type_of v) input then ((f, v) ∷ [], false) else ([], true)

-- What one more callback adds, for rows that are of its type or not
abbrev pub added :
    {H : Type 0} → H → Bool → GoType → Bool → ℕ → Option Passed → List (H × Passed) × Bool
added f variadic input false n passed = ([], false)
added f variadic input true zero passed = ([], false)
added f variadic input true (suc n) none = ([], false)
added f variadic input true (suc n) (some v) = one_call f variadic input v

module _ {H : Type 0} (handlers later : GoType → List (Handler H)) (f : H) where
  -- The callback that was accepted, and the handlers then
  abbrev pub Accepted : GoType → Type 0
  Accepted t =
      (row : GoType) × (variadic : Bool) × (input : GoType) × Callback t variadic input row
      × (later
          ≡ register row (record { callback = f; variadic = variadic; input = input }) handlers)
