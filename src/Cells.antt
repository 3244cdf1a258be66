-- ===== src/Cells.antt =====
-- null_cell.go: the scan targets for columns where NULL stands for the zero value.
pub mod Exact
use sqlr.Prelude.{
  Result, err, ok, ℕ, ◌%◌, List, [], ◌∷◌, Bool, true, false, Option, none, some, Text,
}
use sqlr.Go.Ints.{Width, bits8, bits16, bits32, bits64, modulus, wrap}
use sqlr.Go.Types.{
  GoType, basic, BasicKind, int_kind, int8_kind, int16_kind, int32_kind, int64_kind, uint_kind,
  uint8_kind, uint16_kind, uint32_kind, uint64_kind, string_kind, struct_kind, interface_kind,
  other_kind, float32_kind, float64_kind, bool_kind,
}

-- The value of a field. An integer is its 64-bit pattern, which `Int` and `Uint` read, each in its way;
-- `other_value` stands for what a scanner or the driver may leave, and floats are their patterns too.
pub data Field (T : Type 0) : Type 0 where
  int_value uint_value float_value : ℕ → Field T
  bool_value : Bool → Field T
  string_value : Text → Field T
  time_value : T → Field T
  other_value : ℕ → Field T

-- What database/sql makes of a value: `Scan` of `NullInt64`, `NullFloat64`, `NullBool` and
-- `NullString`, each with its `Valid` (`none` is not valid), and a value as a `time.Time`.
pub record Driver (V T : Type 0) : Type 0 where
  pub is_nil : V → Bool
  pub null_int64 : V → Result Text (Option ℕ)
  pub null_float64 : V → Result Text (Option ℕ)
  pub null_bool : V → Result Text (Option Bool)
  pub null_string : V → Result Text (Option Text)
  -- the nearest `float32`
  pub float32 : ℕ → ℕ
  pub as_time : V → Option T
  pub zero_time : T
  -- a value into the field's pointer
  pub convert : V → Result Text (Field T)

-- The scan target that a field has by its type. A scanner is the field's own `Scan`, which may fail,
-- and what it leaves in the field; beside it, the field's zero value.
pub data Cell (V T : Type 0) : Type 0 where
  scanner_cell : (V → Option Text × Field T) → Field T → Cell V T
  int_cell uint_cell : Width → Cell V T
  float_cell : Bool → Cell V T
  bool_cell string_cell time_cell : Cell V T
  -- the field's pointer, for database/sql itself
  cell_ptr : Cell V T

pub data CellError : Type 0 where
  cannot_scan : Text → Text → CellError
  scanner_failed : Text → CellError
  not_a_time : Text → CellError

-- Which kinds have which cells; `int` and `uint` have 64 bits.
unfoldable pub kind_cell : {V T : Type 0} → Bool → BasicKind → Cell V T
kind_cell is_time int8_kind = int_cell bits8
kind_cell is_time int16_kind = int_cell bits16
kind_cell is_time int32_kind = int_cell bits32
kind_cell is_time int64_kind = int_cell bits64
kind_cell is_time int_kind = int_cell bits64
kind_cell is_time uint8_kind = uint_cell bits8
kind_cell is_time uint16_kind = uint_cell bits16
kind_cell is_time uint32_kind = uint_cell bits32
kind_cell is_time uint64_kind = uint_cell bits64
kind_cell is_time uint_kind = uint_cell bits64
kind_cell is_time float32_kind = float_cell true
kind_cell is_time float64_kind = float_cell false
kind_cell is_time bool_kind = bool_cell
kind_cell is_time string_kind = string_cell
kind_cell true struct_kind = time_cell
kind_cell false struct_kind = cell_ptr
kind_cell is_time interface_kind = cell_ptr
kind_cell is_time other_kind = cell_ptr

-- `newNullCell`, for the field's `Scan` if it has one, and its type
unfoldable pub new_null_cell :
    {V T : Type 0} → Option ((V → Option Text × Field T) × Field T) → GoType → Bool → Cell V T
unfolding kind_cell
new_null_cell (some (scan, zero_value)) t is_time = scanner_cell scan zero_value
new_null_cell none (basic n k) is_time = kind_cell is_time k
new_null_cell none t is_time = cell_ptr

module _ {V T : Type 0} (driver : Driver V T) (colname : Text) where
  -- `if nullable.Valid { … } else { … }` behind the check of the error
  unfoldable pub scan_nullable :
      {A : Type 0} → (A → Field T) → Field T → Result Text (Option A) → Result CellError (Field T)
  scan_nullable field zero_value (err e) = err (cannot_scan colname e)
  scan_nullable field zero_value (ok none) = ok zero_value
  scan_nullable field zero_value (ok (some a)) = ok (field a)

  unfoldable pub float_field : Bool → ℕ → Field T
  float_field true n = float_value (driver.float32 n)
  float_field false n = float_value n

  -- `nullScannerCell`: a scanner that fails on nil
  unfoldable pub scanned : Bool → Field T → Option Text × Field T → Result CellError (Field T)
  scanned is_nil zero_value (none, field) = ok field
  scanned true zero_value (some e, field) = ok zero_value
  scanned false zero_value (some e, field) = err (scanner_failed e)

  unfoldable pub scan_time : Bool → Option T → Result CellError (Field T)
  scan_time true t = ok (time_value driver.zero_time)
  scan_time false none = err (not_a_time colname)
  scan_time false (some t) = ok (time_value t)

  unfoldable pub converted : Result Text (Field T) → Result CellError (Field T)
  converted (err e) = err (scanner_failed e)
  converted (ok field) = ok field

  -- The methods `Scan` of the cells, with the value that the field has then. `SetInt`, `SetUint` and
  -- `SetFloat` do not panic on a number that the field cannot hold: they keep its low bits.
  -- In `nullUintCell`, `uint64(nullable.Int64)` is the same pattern as another number.
  unfoldable pub scan_cell : Cell V T → V → Result CellError (Field T)
  scan_cell (scanner_cell scan zero_value) v = scanned (driver.is_nil v) zero_value (scan v)
  scan_cell (int_cell w) v =
      scan_nullable (λ n. int_value (wrap w n)) (int_value 0) (driver.null_int64 v)
  scan_cell (uint_cell w) v =
      scan_nullable (λ n. uint_value (n % modulus w)) (uint_value 0) (driver.null_int64 v)
  scan_cell (float_cell b) v = scan_nullable (float_field b) (float_value 0) (driver.null_float64 v)
  scan_cell bool_cell v = scan_nullable bool_value (bool_value false) (driver.null_bool v)
  scan_cell string_cell v = scan_nullable string_value (string_value []) (driver.null_string v)
  scan_cell time_cell v = scan_time (driver.is_nil v) (driver.as_time v)
  scan_cell cell_ptr v = converted (driver.convert v)
