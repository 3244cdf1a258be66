-- ===== src/Sql/Destination.antt =====
-- stmt.go (`selectRows`): which destinations a query's rows are loaded into.
pub mod Accepted
use sqlr.Prelude.{Result, err, ok, Bool, true, false, if◌then◌else◌, Option, none, some}
use sqlr.Go.Types.{GoType, slice_of, ptr_to, same_type}

-- Where the rows go: into the struct itself, or behind a slice of structs or of pointers.
pub data Target : Type 0 where
  one_row : Target
  rows_of : Bool → Target

pub data DestinationError : Type 0 where
  nil_pointer not_expected : DestinationError

module _ (row : GoType) where
  -- `rowType != stmt.tbl.RowType()`
  unfoldable pub slice_target : Bool → GoType → Result DestinationError Target
  slice_target is_ptr t = if same_type t row then ok (rows_of is_ptr) else err not_expected

  -- the pointer's element is not the row type
  unfoldable pub element_target : GoType → Result DestinationError Target
  element_target (slice_of n (ptr_to m t)) = slice_target true t
  element_target (slice_of n t) = slice_target false t
  element_target t = err not_expected

  -- The argument `rows`: nil, or a value of a type that is nil or not, for a table's row type.
  unfoldable pub select_target : Option (GoType × Bool) → Result DestinationError Target
  select_target none = err nil_pointer
  select_target (some (ptr_to n t, true)) = err nil_pointer
  select_target (some (ptr_to n t, false)) =
      if same_type t row then ok one_row else element_target t
  select_target (some (t, is_nil)) = err not_expected
