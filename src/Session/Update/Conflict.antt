-- ===== src/Session/Update/Conflict.antt =====
-- `updateRowVersioned`: what an optimistic locking error says.
use sqlr.Prelude.{
  err, ok, ◌≡◌, refl, sym, ◌∙◌, ap, arith, ℕ, ◌+◌, ◌%◌, [], ◌∷◌, some, ◌==◌, ltb, Bool-cases,
  Option-cases, inl, inr,
}
use sqlr.Go.Unicode.{Unicode}
use sqlr.Go.Ints.{word}
use sqlr.Wherein.{Arg, scalar}
use sqlr.Sql.Columns.{Column}
use sqlr.Sql.Prepare.{Stmt, prepared, prepare}
use sqlr.Sql.Execute.{ExecResult}
use sqlr.Session.Steps.{
  Session, State, SessionError, unexpected_count, optimistic_locking, Outcome, done, fail,
  with_field,
}
use sqlr.Session.Steps.Succeeds.{
  wrapping-ok, from_driver-ok, prepare_query-ok, exec_stmt-ok, Executed, Executed-between,
}
use sqlr.Session.Update.{
  versioned_query, conflict, count_versioned, send_versioned, roll_back, update_row_versioned,
}
use sqlr.Session.Update.Versioned.{
  update_row_versioned-none, update_row_versioned-fixed, update_row_versioned-sends,
}
use sqlr.Session.Steps.Fails.{after_wrapping, after_prepare, wrapping-locking}

module _ ⦃u : Unicode⦄ {D V : Type 0} (sess : Session D V) where
  conflict-locking :
      (col : Column) (old expected actual : ℕ) (s s' : State D V)
      → conflict sess col old s ≡ (err (optimistic_locking expected actual), s')
      → old ≡ expected
  unfolding conflict fail
  conflict-locking col old expected actual s s' h =
      let (rows, s1, first, later) = after_wrapping _ _ _ s h in
      let (current, s2, second, last) = after_wrapping _ _ _ s1 later in cc

  count_versioned-locking :
      (col : Column) (old n expected actual : ℕ) (s s' : State D V)
      → count_versioned sess col old n s ≡ (err (optimistic_locking expected actual), s')
      → (n ≡ 0) × (old ≡ expected)
  unfolding count_versioned done
  count_versioned-locking col old n expected actual s s' h = elim (Bool-cases (n == 1)) [
    | inl e ↦ absurd (cc (rw e at h))
    | inr e ↦ elim (Bool-cases (ltb 1 n)) [
      | inl l ↦ absurd (wrapping-locking _ (fail (unexpected_count n)) s (rw (e, l) at h))
      | inr l ↦ (ground arith, conflict-locking col old expected actual s s' (rw (e, l) at h))
    ]
  ]

  -- The statement was sent, and no row was affected.
  abbrev pub SentInVain : Column → ℕ → State D V → Type 0
  SentInVain col old s =
      (stmt : Stmt) × (result : ExecResult) × (d : D) × ((prepare sess.context s.cache sess.row_type
          (versioned_query sess.context.dialect sess.table_name col)).0
        ≡ prepared stmt)
      × Executed sess s.row stmt (scalar (sess.reflect.int64 old) ∷ []) s.db result d
      × (result.rows_affected ≡ ok 0)

  send_versioned-locking :
      (col : Column) (old expected actual : ℕ) (s s' : State D V)
      → send_versioned sess col old s ≡ (err (optimistic_locking expected actual), s')
      → (old ≡ expected) × SentInVain col old s
  unfolding send_versioned
  send_versioned-locking col old expected actual s s' h =
      let (stmt, s1, first, later) = after_prepare sess _ _ s h in
      let (made, row1, db1) =
        prepare_query-ok sess (versioned_query sess.context.dialect sess.table_name col) s first in
      let (result, s2, second, later2) = after_wrapping _ _ _ s1 later in
      let (executed, row2) =
        exec_stmt-ok sess stmt (scalar (sess.reflect.int64 old) ∷ []) s1 (wrapping-ok _ _ second) in
      let (m, s3, third, later3) = after_wrapping _ _ _ s2 later2 in
      let (count, same3) = from_driver-ok result.rows_affected (wrapping-ok _ _ third) in
      let (none_affected, same) = count_versioned-locking col old m expected actual s3 s' later3 in
      (
        same,
        (
          stmt,
          result,
          s2.db,
          made,
          Executed-between sess stmt (scalar (sess.reflect.int64 old) ∷ []) row1 db1 refl executed,
          count ∙ ap ok none_affected,
        ),
      )

  roll_back-err :
      (col : Column) (old : ℕ) (e : SessionError) (s' : State D V) (r : Outcome D V ℕ)
      → roll_back sess col old r ≡ (err e, s')
      → (t : State D V) × (r ≡ (err e, t))
  unfolding roll_back
  roll_back-err col old e s' (ok m, s) h = absurd (cc)
  roll_back-err col old e s' (err d, s) h = (s, ground arith)

  -- An optimistic locking error expects the version that the row had, and is returned only if the
  -- statement was sent with that version as its argument and affected no row.
  pub update_row_versioned-locking :
      (col : Column) (expected actual : ℕ) (s s' : State D V)
      → update_row_versioned sess col s ≡ (err (optimistic_locking expected actual), s')
      → (a : Arg V) × (sess.reflect.int_of (s.row.field col.index) ≡ some expected)
        × (sess.reflect.with_int (s.row.field col.index) ((expected + 1) % word) ≡ some a)
        × SentInVain col expected (with_field col.index a s)
  update_row_versioned-locking col expected actual s s' h =
      elim (Option-cases (sess.reflect.int_of (s.row.field col.index))) [
        | inl none_at ↦ absurd (cc (sym (update_row_versioned-none sess col s none_at) ∙ h))
        | inr (old, at) ↦
            elim (Option-cases (sess.reflect.with_int (s.row.field col.index) ((old + 1) % word))) [
              | inl fixed ↦
                  absurd (cc (sym (update_row_versioned-fixed sess col s old at fixed) ∙ h))
              | inr (a, with_a) ↦
                  let (t, sent_err) =
                    roll_back-err col old (optimistic_locking expected actual) s'
                      (send_versioned sess col old (with_field col.index a s))
                      (sym (update_row_versioned-sends sess col s old a at with_a) ∙ h) in
                  let (same, vain) =
                    send_versioned-locking col old expected actual (with_field col.index a s) t
                      sent_err in
                  (a, at ∙ ap some same, rw same at with_a, rw same at vain)
            ]
      ]
