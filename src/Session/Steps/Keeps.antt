-- ===== src/Session/Steps/Keeps.antt =====
-- Steps that leave the row alone.
use sqlr.Prelude.{Result, err, ok, ◌≡◌, refl, ◌∙◌, ℕ, List, [], ◌∷◌, Text, codes}
use sqlr.Go.Unicode.{Unicode}
use sqlr.Cache.{StmtCache}
use sqlr.Wherein.{Arg}
use sqlr.Sql.Prepare.{Stmt, Prepared, prepared, not_deleting, not_prepared, prepare}
use sqlr.Sql.Execute.{ExecError, exec, driver_result}
use sqlr.Session.Steps.{
  Session, State, SessionError, driver_error, Step, Outcome, done, fail, onward, ◌>>=◌, wrap_error,
  wrapping, from_driver, to_exec, to_prepared, prepare_query, exec_stmt, query_rows, scan_one,
}

module _ {D V : Type 0} where
  abbrev pub Keeps : {A : Type 0} → Step D V A → Type 0
  Keeps step = (s : State D V) → (step s).1.row ≡ s.row

  pub Keeps-done : {A : Type 0} (a : A) → Keeps (done a)
  unfolding done
  Keeps-done a s = refl

  pub Keeps-fail : (A : Type 0) (e : SessionError) → Keeps (fail {A = A} e)
  unfolding fail
  Keeps-fail A e s = refl

  onward-row :
      {A B : Type 0} (next : A → Step D V B) (r : Outcome D V A)
      → ((a : A) → Keeps (next a))
      → (onward next r).1.row ≡ r.1.row
  unfolding onward
  onward-row next (err e, s) later = refl
  onward-row next (ok a, s) later = later a s

  pub Keeps->>= :
      {A B : Type 0} (first : Step D V A) (next : A → Step D V B)
      → Keeps first
      → ((a : A) → Keeps (next a))
      → Keeps (first >>= next)
  unfolding ◌>>=◌
  Keeps->>= first next here later s = onward-row next (first s) later ∙ here s

  wrap_error-row :
      {A : Type 0} (msg : Text) (r : Outcome D V A) → (wrap_error msg r).1.row ≡ r.1.row
  unfolding wrap_error
  wrap_error-row msg (err e, s) = refl
  wrap_error-row msg (ok a, s) = refl

  pub Keeps-wrapping :
      {A : Type 0} (msg : Text) (step : Step D V A) → Keeps step → Keeps (wrapping msg step)
  unfolding wrapping
  Keeps-wrapping msg step here s = wrap_error-row msg (step s) ∙ here s

  pub Keeps-from_driver : {A : Type 0} (r : Result Text A) → Keeps (from_driver r)
  unfolding from_driver done fail
  Keeps-from_driver (err e) s = refl
  Keeps-from_driver (ok a) s = refl

  to_exec-row :
      {A : Type 0} (s : State D V) (r : Result ExecError A × D) → (to_exec s r).1.row ≡ s.row
  unfolding to_exec
  to_exec-row s (err e, d) = refl
  to_exec-row s (ok a, d) = refl

module _ ⦃u : Unicode⦄ {D V : Type 0} (sess : Session D V) where
  to_prepared-row :
      (s : State D V) (r : Prepared × StmtCache Stmt) → (to_prepared s r).1.row ≡ s.row
  unfolding to_prepared
  to_prepared-row s (prepared stmt, c) = refl
  to_prepared-row s (not_deleting name, c) = refl
  to_prepared-row s (not_prepared e, c) = refl

  pub Keeps-prepare_query : (query : Text) → Keeps (prepare_query sess query)
  unfolding prepare_query
  Keeps-prepare_query query s = to_prepared-row s (prepare sess.context s.cache sess.row_type query)

  pub Keeps-exec_stmt : (stmt : Stmt) (args : List (Arg V)) → Keeps (exec_stmt sess stmt args)
  unfolding exec_stmt
  Keeps-exec_stmt stmt args s =
      to_exec-row s (exec sess.go sess.querier s.row sess.row_type stmt.progress args s.db)

  pub Keeps-query_rows : (query : Text) (args : List (Arg V)) → Keeps (query_rows sess query args)
  unfolding query_rows
  Keeps-query_rows query args s = to_exec-row s (driver_result (sess.querier.query query args s.db))

  pub Keeps-scan_one : (rows : List (List (Arg V))) → Keeps (scan_one sess rows)
  unfolding scan_one
  Keeps-scan_one [] = Keeps-fail ℕ (driver_error (codes "sql: Rows are closed"))
  Keeps-scan_one ([] ∷ rows) = Keeps-fail ℕ (driver_error (codes "sql: Rows are closed"))
  Keeps-scan_one ((a ∷ []) ∷ rows) = Keeps-from_driver (sess.reflect.scan_int a)
  Keeps-scan_one ((a ∷ b ∷ cells) ∷ rows) =
      Keeps-fail ℕ (driver_error (codes "sql: Rows are closed"))
