-- ===== src/Cells/Exact.antt =====
-- What is left of a number in a field of its width.
use sqlr.Prelude.{Result, ok, ℕ, Bool, true, false, ◌+◌, ◌-◌, Option, none, some}
use sqlr.Go.Ints.{word, ℤ, pos, negsuc, signed, unsigned}
use sqlr.Cells.{Field, int_value, uint_value, CellError}

-- The number that an integer field holds, as `Int` or `Uint` of it returns it
abbrev pub number_of : {T : Type 0} → Result CellError (Field T) → Option ℤ
number_of (ok (int_value n)) = some (signed n)
number_of (ok (uint_value n)) = some (unsigned n)
number_of _ = none

abbrev pattern_of : ℤ → ℕ
pattern_of (pos n) = n
pattern_of (negsuc n) = word - (n + 1)

abbrev is_pos : ℤ → Bool
is_pos (pos n) = true
is_pos (negsuc n) = false
