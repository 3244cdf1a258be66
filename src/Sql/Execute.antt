-- ===== src/Sql/Execute.antt =====
-- stmt.go (`getArgs`, `exec`): the arguments that a prepared statement sends.
pub mod Sent
use sqlr.Prelude.{
  Result, err, ok, ◌>>=◌, ℕ, Bool, true, false, not, ◌&&◌, List, [], ◌∷◌, Option, none, some, Text,
  ◌==◌, if◌then◌else◌, length, get_elem?,
}
use sqlr.Go.Unicode.{Unicode}
use sqlr.Wherein
use sqlr.Wherein.{Arg, scalar, expand}
use sqlr.Sql.Columns.{Column}
use sqlr.Sql.Statement.{InputSource, from_column, from_arg, Progress}

-- What the code asks of Go values, which `reflect` and `encoding/json` answer: the values `nil` and a
-- byte slice, `==` of two values, which panics where the type has no equality, `reflect.DeepEqual`,
-- and `json.Marshal`, which may fail.
pub record GoValues (V : Type 0) : Type 0 where
  pub null : V
  pub bytes : Text → V
  pub comparable : Arg V → Bool
  pub equal : Arg V → Arg V → Bool
  pub deep_equal : Arg V → Arg V → Bool
  pub is_nil : Arg V → Bool
  pub marshal : Arg V → Option Text

-- A row: its type, the field at an index sequence, and the zero value of the field's type.
pub record Row (V : Type 0) : Type 0 where
  pub row_type : ℕ
  pub field : List ℕ → Arg V
  pub zero_of : List ℕ → Arg V

-- The errors of `getArgs` and of what follows it. The last three are panics: of an index out of range,
-- of `==` on values without equality, and of the querier's caller below.
pub data ExecError : Type 0 where
  arg_count_differs : ℕ → ℕ → ExecError
  wrong_row_type : ExecError
  cannot_marshal : List ℕ → ExecError
  cannot_expand : Wherein.Error → ExecError
  refused : Text → ExecError
  panic_index panic_compare : ExecError

module _ {V : Type 0} (go : GoValues V) (row : Row V) where
  -- `json.Marshal` of a field
  unfoldable pub marshalled : Column → Result ExecError (Arg V)
  marshalled col = elim (go.marshal (row.field col.index)) [
    | none ↦ err (cannot_marshal col.index)
    | some text ↦ ok (scalar (go.bytes text))
  ]

  -- `if input.col.JSON() { … }`
  unfoldable pub json_arg : Column → Result ExecError (Arg V)
  unfolding marshalled
  json_arg col =
      if col.empty_null && go.deep_equal (row.field col.index) (row.zero_of col.index)
      then ok (scalar go.null)
      else if go.is_nil (row.field col.index)
      then ok (scalar go.null)
      else marshalled col

  -- `else if input.col.EmptyNull() { … }`
  unfoldable pub empty_null_arg : Column → Result ExecError (Arg V)
  empty_null_arg col =
      if not (go.comparable (row.field col.index))
      then err panic_compare
      else if go.equal (row.field col.index) (row.zero_of col.index)
      then ok (scalar go.null)
      else ok (row.field col.index)

  unfoldable pub column_arg : Column → Result ExecError (Arg V)
  column_arg col =
      if col.json
      then json_arg col
      else if col.empty_null
      then empty_null_arg col
      else ok (row.field col.index)

  -- `argv[input.argIndex]`
  unfoldable pub arg_at : List (Arg V) → ℕ → Result ExecError (Arg V)
  arg_at argv i = elim (get_elem? argv i) [ none ↦ err panic_index | some a ↦ ok a ]

  -- one turn of the loop of `getArgs`
  unfoldable pub input_arg : List (Arg V) → InputSource → Result ExecError (Arg V)
  input_arg argv (from_column col) = column_arg col
  input_arg argv (from_arg i) = arg_at argv i

  unfoldable pub input_args : List (Arg V) → List InputSource → Result ExecError (List (Arg V))
  input_args argv [] = ok []
  input_args argv (input ∷ inputs) = do
    a ← input_arg argv input
    args ← input_args argv inputs
    ok (a ∷ args)

  -- `getArgs`
  unfoldable pub get_args : ℕ → Progress → List (Arg V) → Result ExecError (List (Arg V))
  get_args row_type p argv =
      if not (length argv == p.arg_count)
      then err (arg_count_differs p.arg_count (length argv))
      else if not (row.row_type == row_type)
      then err wrong_row_type
      else input_args argv p.inputs

-- The error of `wherein.Expand`, as the error of its caller.
unfoldable pub expansion : {A : Type 0} → Result Wherein.Error A → Result ExecError A
expansion (err e) = err (cannot_expand e)
expansion (ok a) = ok a

-- The querier, and the results of a statement without rows: the number of rows affected and the last
-- insert id, each of which the driver may not support.
pub record ExecResult : Type 0 where
  pub rows_affected : Result Text ℕ
  pub last_insert_id : Result Text ℕ

pub record Querier (D V : Type 0) : Type 0 where
  pub exec : Text → List (Arg V) → D → Result Text ExecResult × D
  pub query : Text → List (Arg V) → D → Result Text (List (List (Arg V))) × D

-- what the driver returns, as the result of `exec`
unfoldable pub driver_result {ℓ} :
    {A : Type ℓ} {D : Type 0} → Result Text A × D → Result ExecError A × D
driver_result (err e, d) = (err (refused e), d)
driver_result (ok a, d) = (ok a, d)

module _ ⦃u : Unicode⦄ {D V : Type 0} (go : GoValues V) (db : Querier D V) where
  -- the query and the arguments that `exec` sends
  unfoldable pub sent : Row V → ℕ → Progress → List (Arg V) → Result ExecError (Text × List (Arg V))
  sent row row_type p argv = do
    args ← get_args go row row_type p argv
    expansion (expand p.buf args)

  unfoldable pub exec_sent :
      Result ExecError (Text × List (Arg V)) → D → Result ExecError ExecResult × D
  exec_sent (err e) d = (err e, d)
  exec_sent (ok (query, args)) d = driver_result (db.exec query args d)

  -- `exec` of a statement
  unfoldable pub exec : Row V → ℕ → Progress → List (Arg V) → D → Result ExecError ExecResult × D
  exec row row_type p argv d = exec_sent (sent row row_type p argv) d
