-- ===== src/Tests/Callbacks.antt =====
-- A variadic callback for a struct, and a row of it.
use sqlr.Prelude.{ℕ, true, List, []}
use sqlr.Go.Types.{GoType, basic, struct_kind, slice_of, ptr_to, func_of, no_types, more}
use sqlr.Session.Handlers.{Handler, register}

abbrev row : GoType
row = basic 7 struct_kind

abbrev input : GoType
input = slice_of 0 (ptr_to 0 row)

abbrev callback : GoType
callback = func_of 0 true (more input no_types) no_types

abbrev no_handlers : GoType → List (Handler ℕ)
no_handlers t = []

abbrev later : GoType → List (Handler ℕ)
later = register row (record { callback = 5; variadic = true; input = input }) no_handlers
