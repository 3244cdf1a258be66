-- ===== src/Tests/Destinations.antt =====
-- A slice of pointers to structs.
use sqlr.Prelude.{ok, ◌≡◌, refl, true, false, some, ◌↔◌}
use sqlr.Go.Types.{GoType, basic, struct_kind, slice_of, ptr_to, is_struct}
use sqlr.Sql.Destination.{rows_of, select_target}
use sqlr.Sql.Destination.Accepted.{Accepted, select_target-Accepted_iff}

abbrev row : GoType
row = basic 7 struct_kind

abbrev pointers : GoType
pointers = ptr_to 0 (slice_of 0 (ptr_to 0 row))

is_row : is_struct row ≡ true
unfolding is_struct
is_row = refl

select_target-Accepted_iff_example :
    (select_target row (some (pointers, false)) ≡ ok (rows_of true))
    ↔ (Accepted row pointers (rows_of true) × (false ≡ false))
select_target-Accepted_iff_example =
    select_target-Accepted_iff row pointers false (rows_of true) is_row
