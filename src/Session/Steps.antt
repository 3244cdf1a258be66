-- ===== src/Session/Steps.antt =====
-- session.go: what a session works on, and the steps that its methods are made of.
pub mod Fails
pub mod Succeeds
pub mod Keeps
use sqlr.Prelude.{
  Result, err, ok, ◌≡◌, refl, ℕ, Bool, true, false, List, [], ◌∷◌, ◌++◌, Option, none, some, Text,
  codes, equal, if◌then◌else◌,
}
use sqlr.Go.Unicode.{Unicode}
use sqlr.Cache.{StmtCache}
use sqlr.Wherein.{Arg, scalar}
use sqlr.Sql.Columns.{Column}
use sqlr.Sql.Table.{Table}
use sqlr.Sql.Statement.{Error, Context}
use sqlr.Sql.Prepare.{Stmt, Prepared, prepared, not_deleting, not_prepared, prepare}
use sqlr.Sql.Execute.{
  GoValues, Row, ExecError, expansion, ExecResult, Querier, driver_result, sent, exec,
}

-- What the code asks of `reflect` about the value of a field: `Int`, the value after `SetInt` and the
-- value after `Set` with the current time, each of which panics on a field of another kind (`none`).
-- Integers are 64-bit patterns. `scan_int` is `Rows.Scan` into an `int64`.
pub record Reflect (V : Type 0) : Type 0 where
  pub int_of : Arg V → Option ℕ
  pub with_int : Arg V → ℕ → Option (Arg V)
  pub with_now : Arg V → Option (Arg V)
  pub int64 : ℕ → V
  pub scan_int : Arg V → Result Text ℕ

-- A session, the table of the row it is given, and whether the row can be changed (`CanAddr`).
pub record Session (D V : Type 0) : Type 0 where
  pub go : GoValues V
  pub reflect : Reflect V
  pub querier : Querier D V
  pub context : Context
  pub postgres : Bool
  pub row_type : ℕ
  pub table : Table
  pub table_name : Text
  pub can_addr : Bool

-- What a method changes: the row, the schema's cache of statements, and the database.
pub record State (D V : Type 0) : Type 0 where
  pub row : Row V
  pub cache : StmtCache Stmt
  pub db : D

-- `wrapped` is `wrapRowError`. A panic inside a method is an error here.
pub data SessionError : Type 0 where
  needs_pointer : List Text → SessionError
  cannot_prepare : Error → SessionError
  will_not_delete : Text → SessionError
  not_executed : ExecError → SessionError
  driver_error : Text → SessionError
  wrapped : Text → SessionError → SessionError
  unexpected_count : ℕ → SessionError
  optimistic_locking : ℕ → ℕ → SessionError
  panic_reflect : SessionError

abbrev pub Outcome : Type 0 → Type 0 → Type 0 → Type 0
Outcome D V A = Result SessionError A × State D V

abbrev pub Step : Type 0 → Type 0 → Type 0 → Type 0
Step D V A = State D V → Outcome D V A

module _ {D V : Type 0} where
  unfoldable pub done : {A : Type 0} → A → Step D V A
  done a s = (ok a, s)

  unfoldable pub fail : {A : Type 0} → SessionError → Step D V A
  fail e s = (err e, s)

  -- the rest of a method, behind `if err != nil { return …, err }`
  unfoldable pub onward : {A B : Type 0} → (A → Step D V B) → Outcome D V A → Outcome D V B
  onward next (err e, s) = (err e, s)
  onward next (ok a, s) = next a s

  infixl 5 ◌>>=◌
  unfoldable pub ◌>>=◌ : {A B : Type 0} → Step D V A → (A → Step D V B) → Step D V B
  unfolding onward
  (first >>= next) s = onward next (first s)

  -- `tbl.wrapRowError(err, row, msg)`
  unfoldable pub wrap_error : {A : Type 0} → Text → Outcome D V A → Outcome D V A
  wrap_error msg (err e, s) = (err (wrapped msg e), s)
  wrap_error msg (ok a, s) = (ok a, s)

  unfoldable pub wrapping : {A : Type 0} → Text → Step D V A → Step D V A
  unfolding wrap_error
  wrapping msg step s = wrap_error msg (step s)

  -- a result of the driver
  unfoldable pub from_driver : {A : Type 0} → Result Text A → Step D V A
  unfolding done fail
  from_driver (err e) = fail (driver_error e)
  from_driver (ok a) = done a

  unfoldable pub to_exec : {A : Type 0} → State D V → Result ExecError A × D → Outcome D V A
  to_exec s (err e, d) = (err (not_executed e), record s { db = d })
  to_exec s (ok a, d) = (ok a, record s { db = d })

  abbrev pub with_field : List ℕ → Arg V → State D V → State D V
  with_field index a s = record s {
    row = record s.row { field = λ i. if equal index i then a else s.row.field i };
  }

  -- Set the field at an index sequence, unless that panics.
  unfoldable pub set_field : List ℕ → Option (Arg V) → Step D V Unit
  set_field index none s = (err panic_reflect, s)
  set_field index (some a) s = (ok tt, with_field index a s)

module _ ⦃u : Unicode⦄ {D V : Type 0} where
  unfoldable pub to_prepared : State D V → Prepared × StmtCache Stmt → Outcome D V Stmt
  to_prepared s (prepared stmt, c) = (ok stmt, record s { cache = c })
  to_prepared s (not_deleting name, c) = (err (will_not_delete name), record s { cache = c })
  to_prepared s (not_prepared e, c) = (err (cannot_prepare e), record s { cache = c })

module _ ⦃u : Unicode⦄ {D V : Type 0} (sess : Session D V) where
  -- `sess.schema.Prepare(row, query)`
  unfoldable pub prepare_query : Text → Step D V Stmt
  unfolding to_prepared
  prepare_query query s = to_prepared s (prepare sess.context s.cache sess.row_type query)

  -- `stmt.exec(sess.context, sess.querier, row, args...)`
  unfoldable pub exec_stmt : Stmt → List (Arg V) → Step D V ExecResult
  unfolding to_exec
  exec_stmt stmt args s =
      to_exec s (exec sess.go sess.querier s.row sess.row_type stmt.progress args s.db)

  -- `sess.querier.QueryContext(sess.context, query, args...)`
  unfoldable pub query_rows : Text → List (Arg V) → Step D V (List (List (Arg V)))
  unfolding to_exec
  query_rows query args s = to_exec s (driver_result (sess.querier.query query args s.db))

  -- `field.SetInt(n)` with `field := col.info.Index.ValueRW(rowValue)`
  unfoldable pub set_int : Column → ℕ → Step D V Unit
  unfolding set_field
  set_int col n s = set_field col.index (sess.reflect.with_int (s.row.field col.index) n) s

  -- `field.Set(nowValue)`
  unfoldable pub set_now : Option Column → Step D V Unit
  unfolding set_field done
  set_now none s = done tt s
  set_now (some col) s = set_field col.index (sess.reflect.with_now (s.row.field col.index)) s

  -- `rows.Next()` and `rows.Scan(&n)`: the first row, of one column
  unfoldable pub scan_one : List (List (Arg V)) → Step D V ℕ
  unfolding from_driver fail
  scan_one ((a ∷ []) ∷ rows) = from_driver (sess.reflect.scan_int a)
  scan_one rows = fail (driver_error (codes "sql: Rows are closed"))
