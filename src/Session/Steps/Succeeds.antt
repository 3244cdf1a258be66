-- ===== src/Session/Steps/Succeeds.antt =====
-- Steps that succeed.
use sqlr.Prelude.{Result, err, ok, ◌≡◌, ◌≢◌, arith, refl, sym, ap, List, Text}
use sqlr.Go.Unicode.{Unicode}
use sqlr.Cache.{StmtCache}
use sqlr.Wherein.{Arg}
use sqlr.Sql.Prepare.{Stmt, Prepared, prepared, not_deleting, not_prepared, prepare}
use sqlr.Sql.Execute.{Row, ExecError, ExecResult, sent, exec_sent, exec, driver_result}
use sqlr.Session.Steps.{
  Session, State, SessionError, Step, Outcome, done, fail, onward, ◌>>=◌, wrap_error, wrapping,
  from_driver, to_exec, to_prepared, prepare_query, exec_stmt,
}

module _ {D V : Type 0} where
  onward-ok :
      {A B : Type 0} {b : B} {s' : State D V} (next : A → Step D V B) (r : Outcome D V A)
      → onward next r ≡ (ok b, s')
      → (a : A) × (s : State D V) × (r ≡ (ok a, s)) × (next a s ≡ (ok b, s'))
  unfolding onward
  onward-ok next (err e, s) h = absurd (cc)
  onward-ok next (ok a, s) h = (a, s, refl, h)

  pub >>=-ok :
      {A B : Type 0} {b : B} {s s' : State D V} (first : Step D V A) (next : A → Step D V B)
      → (first >>= next) s ≡ (ok b, s')
      → (a : A) × (t : State D V) × (first s ≡ (ok a, t)) × (next a t ≡ (ok b, s'))
  unfolding ◌>>=◌
  >>=-ok {s = s} first next h = onward-ok next (first s) h

  wrap_error-ok :
      {A : Type 0} {a : A} {s : State D V} (msg : Text) (r : Outcome D V A)
      → wrap_error msg r ≡ (ok a, s)
      → r ≡ (ok a, s)
  unfolding wrap_error
  wrap_error-ok msg (err e, s) h = absurd (cc)
  wrap_error-ok msg (ok a, s) h = h

  pub wrapping-ok :
      {A : Type 0} {a : A} {s s' : State D V} (msg : Text) (step : Step D V A)
      → wrapping msg step s ≡ (ok a, s')
      → step s ≡ (ok a, s')
  unfolding wrapping
  wrapping-ok {s = s} msg step h = wrap_error-ok msg (step s) h

  pub fail-ok :
      {A : Type 0} {a : A} {s' : State D V} (e : SessionError) (s : State D V)
      → fail e s ≢ (ok a, s')
  unfolding fail
  fail-ok e s h = absurd (cc)

  pub from_driver-ok :
      {A : Type 0} {a : A} {s s' : State D V} (r : Result Text A)
      → from_driver r s ≡ (ok a, s')
      → (r ≡ ok a) × (s ≡ s')
  unfolding from_driver done fail
  from_driver-ok (err e) h = absurd (cc)
  from_driver-ok (ok a) h = (ap ok (cc), cc)

  to_exec-ok :
      {A : Type 0} {a : A} {s' : State D V} (s : State D V) (r : Result ExecError A × D)
      → to_exec s r ≡ (ok a, s')
      → (r ≡ (ok a, s'.db)) × (s'.row ≡ s.row)
  unfolding to_exec
  to_exec-ok s (err e, d) h = absurd (cc)
  to_exec-ok s (ok b, d) h = (ground arith, sym (ap (λ r. r.1.row) h))

driver_result-ok :
    {A D : Type 0} {a : A} {d : D} (r : Result Text A × D)
    → driver_result r ≡ (ok a, d)
    → r ≡ (ok a, d)
unfolding driver_result
driver_result-ok (err e, d) h = absurd (cc)
driver_result-ok (ok a, d) h = ground arith

module _ ⦃u : Unicode⦄ {D V : Type 0} (sess : Session D V) where
  to_prepared-ok :
      {stmt : Stmt} {s' : State D V} (s : State D V) (r : Prepared × StmtCache Stmt)
      → to_prepared s r ≡ (ok stmt, s')
      → (r.0 ≡ prepared stmt) × (s'.row ≡ s.row) × (s'.db ≡ s.db)
  unfolding to_prepared
  to_prepared-ok s (prepared stmt, c) h =
      (ground arith, sym (ap (λ r. r.1.row) h), sym (ap (λ r. r.1.db) h))
  to_prepared-ok s (not_deleting name, c) h = absurd (cc)
  to_prepared-ok s (not_prepared e, c) h = absurd (cc)

  pub prepare_query-ok :
      {stmt : Stmt} {s' : State D V} (query : Text) (s : State D V)
      → prepare_query sess query s ≡ (ok stmt, s')
      → ((prepare sess.context s.cache sess.row_type query).0 ≡ prepared stmt)
        × (s'.row ≡ s.row)
        × (s'.db ≡ s.db)
  unfolding prepare_query
  prepare_query-ok query s h = to_prepared-ok s (prepare sess.context s.cache sess.row_type query) h

  -- What the querier is sent, and what it answers.
  abbrev pub Executed : Row V → Stmt → List (Arg V) → D → ExecResult → D → Type 0
  Executed row stmt args d result d' =
      (query : Text) × (sent_args : List (Arg V)) × (sent sess.go sess.querier row sess.row_type
          stmt.progress args
        ≡ ok (query, sent_args))
      × (sess.querier.exec query sent_args d ≡ (ok result, d'))

  exec_sent-ok :
      {result : ExecResult} {d' : D} (r : Result ExecError (Text × List (Arg V))) (d : D)
      → exec_sent sess.go sess.querier r d ≡ (ok result, d')
      → (query : Text) × (sent_args : List (Arg V)) × (r ≡ ok (query, sent_args))
        × (sess.querier.exec query sent_args d ≡ (ok result, d'))
  unfolding exec_sent
  exec_sent-ok (err e) d h = absurd (cc)
  exec_sent-ok (ok (query, args)) d h =
      (query, args, refl, driver_result-ok (sess.querier.exec query args d) h)

  pub exec_stmt-ok :
      {result : ExecResult} {s' : State D V} (stmt : Stmt) (args : List (Arg V)) (s : State D V)
      → exec_stmt sess stmt args s ≡ (ok result, s')
      → Executed s.row stmt args s.db result s'.db × (s'.row ≡ s.row)
  unfolding exec_stmt exec
  exec_stmt-ok stmt args s h =
      let (sent_ok, row) =
        to_exec-ok s (exec sess.go sess.querier s.row sess.row_type stmt.progress args s.db) h in
      (
        exec_sent-ok (sent sess.go sess.querier s.row sess.row_type stmt.progress args) s.db
            sent_ok,
        row,
      )

  pub Executed-between :
      (stmt : Stmt) (args : List (Arg V)) {result : ExecResult} {row row' : Row V} {d d' e e' : D}
      → row ≡ row'
      → d ≡ d'
      → e ≡ e'
      → Executed row stmt args d result e
      → Executed row' stmt args d' result e'
  Executed-between stmt args same same_before same_after h = rw (same, same_before, same_after) at h
