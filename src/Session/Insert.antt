-- ===== src/Session/Insert.antt =====
-- session.go: `InsertRow`, `Exec` and `Query`.
pub mod Generated
pub mod FirstVersion
use sqlr.Prelude.{
  Result, err, ok, ◌≡◌, refl, ℕ, Bool, true, false, List, [], ◌∷◌, ◌++◌, Option, none, some, Text,
  codes, if◌then◌else◌,
}
use sqlr.Go.Unicode.{Unicode}
use sqlr.Wherein.{Arg}
use sqlr.Dialect.{quote}
use sqlr.Sql.Columns.{Column}
use sqlr.Sql.Prepare.{Stmt}
use sqlr.Sql.Execute.{ExecError, ExecResult, get_args, sent}
use sqlr.Session.Steps.{
  Session, State, SessionError, needs_pointer, not_executed, Step, Outcome, done, fail, ◌>>=◌,
  wrapping, from_driver, prepare_query, exec_stmt, query_rows, set_int, set_now, scan_one,
}
use sqlr.Session.Update.{names_of, any_column}

module _ ⦃u : Unicode⦄ {D V : Type 0} (sess : Session D V) where
  unfoldable pub insert_query : Text
  insert_query =
      codes "insert into "
      ++ (quote sess.context.dialect sess.table_name ++ codes "({}) values({})")

  -- a result of `getArgs` or `wherein.Expand`
  unfoldable pub of_args : {A : Type 0} → Result ExecError A → Step D V A
  unfolding done fail
  of_args (err e) = fail (not_executed e)
  of_args (ok a) = done a

  -- `stmt.getArgs(row, args)`
  unfoldable pub stmt_args : Stmt → List (Arg V) → Step D V (List (Arg V))
  stmt_args stmt args s = of_args (get_args sess.go s.row sess.row_type stmt.progress args) s

  -- `autoincrInsertRow`
  unfoldable pub autoincr_insert_row : Column → Step D V Unit
  autoincr_insert_row col = do
    stmt ← prepare_query sess insert_query
    result ← wrapping (codes "cannot insert row") (exec_stmt sess stmt [])
    id ← wrapping (codes "cannot retrieve last insert id") (from_driver result.last_insert_id)
    set_int sess col id

  -- `postgresInsertRow`, which does not expand slices
  unfoldable pub postgres_insert_row : Column → Step D V Unit
  postgres_insert_row col = do
    stmt ←
        prepare_query sess
          (insert_query ++ (codes " returning " ++ quote sess.context.dialect col.column_name))
    args ← stmt_args stmt []
    rows ← wrapping (codes "cannot insert row") (query_rows sess stmt.progress.buf args)
    id ← wrapping (codes "cannot retrieve last insert id") (scan_one sess rows)
    set_int sess col id

  -- `InsertRow` where no column is auto-incremented
  unfoldable pub plain_insert_row : Step D V Unit
  plain_insert_row = do
    stmt ← prepare_query sess insert_query
    result ← wrapping (codes "cannot insert row") (exec_stmt sess stmt [])
    done tt

  unfoldable pub set_first_version : Option Column → Step D V Unit
  set_first_version none = done tt
  set_first_version (some col) = set_int sess col 1

  unfoldable pub insert_by : Option Column → Step D V Unit
  insert_by none = plain_insert_row
  insert_by (some col) = if sess.postgres then postgres_insert_row col else autoincr_insert_row col

  -- what `InsertRow` does with a row that it may change
  unfoldable pub insert_changed : Step D V Unit
  insert_changed = do
    created ← set_now sess sess.table.created_at
    updated ← set_now sess sess.table.updated_at
    versioned ← set_first_version sess.table.version
    insert_by sess.table.autoincr

  -- `InsertRow`
  unfoldable pub insert_row : Step D V Unit
  insert_row =
      let changed =
        sess.table.autoincr ∷ sess.table.created_at ∷ sess.table.updated_at ∷ sess.table.version
        ∷ [] in
      if any_column changed
      then if sess.can_addr then insert_changed else fail (needs_pointer (names_of changed))
      else plain_insert_row

  -- `execForRow`
  unfoldable pub exec_for_row : Text → List (Arg V) → Step D V ExecResult
  exec_for_row query args = do stmt ← prepare_query sess query; exec_stmt sess stmt args

  -- `Query`, where the row is an empty struct
  unfoldable pub session_query : Text → List (Arg V) → Step D V (List (List (Arg V)))
  session_query query args s =
      (do
        stmt ← prepare_query sess query
        (expanded, expanded_args) ←
            of_args (sent sess.go sess.querier s.row sess.row_type stmt.progress args)
        query_rows sess expanded expanded_args)
        s
