-- ===== src/Session/Update/Locking.antt =====
-- `updateRowVersioned`: the optimistic lock.
use sqlr.Prelude.{
  err, ok, ◌≡◌, ◌≢◌, sym, ◌∙◌, ap, arith, ℕ, ◌+◌, ◌%◌, [], ◌∷◌, some, some_inj, ◌==◌, ltb,
  Bool-cases, Option-cases, inl, inr,
}
use sqlr.Go.Unicode.{Unicode}
use sqlr.Go.Ints.{wrap, wrap-suc, word}
use sqlr.Wherein.{Arg, scalar}
use sqlr.Sql.Columns.{Column}
use sqlr.Sql.Prepare.{Stmt, prepared, prepare}
use sqlr.Sql.Execute.{ExecResult}
use sqlr.Session.Steps.{
  Session, State, unexpected_count, optimistic_locking, Outcome, done, fail, with_field,
  prepare_query,
}
use sqlr.Session.Steps.Succeeds.{
  >>=-ok, wrapping-ok, fail-ok, from_driver-ok, prepare_query-ok, exec_stmt-ok, Executed,
  Executed-between,
}
use sqlr.Session.Update.{
  versioned_query, conflict, count_versioned, send_versioned, roll_back, update_row_versioned,
}
use sqlr.Session.Update.Versioned.{
  Lawful, update_row_versioned-none, update_row_versioned-fixed, update_row_versioned-sends,
}

module _ ⦃u : Unicode⦄ {D V : Type 0} (sess : Session D V) where
  conflict-ok : (col : Column) (old n : ℕ) (s s' : State D V) → conflict sess col old s ≢ (ok n, s')
  unfolding conflict
  conflict-ok col old n s s' h =
      let (rows, s1, first, later) = >>=-ok _ _ h in
      let (current, s2, second, last) = >>=-ok _ _ later in
      fail-ok (optimistic_locking old current) s2 last

  count_versioned-ok :
      (col : Column) (old n m : ℕ) (s s' : State D V)
      → count_versioned sess col old n s ≡ (ok m, s')
      → (n ≡ 1) × (m ≡ 1) × (s ≡ s')
  unfolding count_versioned done
  count_versioned-ok col old n m s s' h = elim (Bool-cases (n == 1)) [
    | inl e ↦ ground arith
    | inr e ↦ elim (Bool-cases (ltb 1 n)) [
      | inl l ↦ absurd (
          fail-ok (unexpected_count n) s
            (wrapping-ok _ (fail (unexpected_count n)) (rw (e, l) at h)))
      | inr l ↦ absurd (conflict-ok col old m s s' (rw (e, l) at h))
    ]
  ]

  -- The statement that was sent: the first placeholder's argument of the caller is the old version,
  -- and one row was affected.
  abbrev pub SentOnce : Column → ℕ → State D V → State D V → Type 0
  SentOnce col old s s' =
      (stmt : Stmt) × (result : ExecResult) × ((prepare sess.context s.cache sess.row_type
          (versioned_query sess.context.dialect sess.table_name col)).0
        ≡ prepared stmt)
      × Executed sess s.row stmt (scalar (sess.reflect.int64 old) ∷ []) s.db result s'.db
      × (result.rows_affected ≡ ok 1)

  send_versioned-ok :
      (col : Column) (old n : ℕ) (s s' : State D V)
      → send_versioned sess col old s ≡ (ok n, s')
      → (n ≡ 1) × (s'.row ≡ s.row) × SentOnce col old s s'
  unfolding send_versioned
  send_versioned-ok col old n s s' h =
      let (stmt, s1, first, later) =
        >>=-ok (prepare_query sess (versioned_query sess.context.dialect sess.table_name col)) _
          h in
      let (made, row1, db1) =
        prepare_query-ok sess (versioned_query sess.context.dialect sess.table_name col) s first in
      let (result, s2, second, later2) = >>=-ok _ _ later in
      let (executed, row2) =
        exec_stmt-ok sess stmt (scalar (sess.reflect.int64 old) ∷ []) s1 (wrapping-ok _ _ second) in
      let (m, s3, third, later3) = >>=-ok _ _ later2 in
      let (count, same3) = from_driver-ok result.rows_affected (wrapping-ok _ _ third) in
      let (one, one', same4) = count_versioned-ok col old m n s3 s' later3 in
      (
        one',
        ap (λ t. t.row) (sym same4) ∙ ap (λ t. t.row) (sym same3) ∙ row2 ∙ row1,
        (
          stmt,
          result,
          made,
          Executed-between sess stmt (scalar (sess.reflect.int64 old) ∷ []) row1 db1
              (ap (λ t. t.db) (same3 ∙ same4)) executed,
          count ∙ ap ok one,
        ),
      )

  roll_back-ok :
      (col : Column) (old n : ℕ) (s' : State D V) (r : Outcome D V ℕ)
      → roll_back sess col old r ≡ (ok n, s')
      → r ≡ (ok n, s')
  unfolding roll_back
  roll_back-ok col old n s' (ok m, s) h = h
  roll_back-ok col old n s' (err e, s) h = absurd (cc)

  -- A versioned update that succeeds returns one. It has sent one statement, prepared for the
  -- table, with the incremented version in the row and the old one as the argument, which affected
  -- one row; the row keeps the incremented version, and nothing else of it is changed.
  pub update_row_versioned-ok :
      (col : Column) (n : ℕ) (s s' : State D V)
      → update_row_versioned sess col s ≡ (ok n, s')
      → (n ≡ 1)
        × (old : ℕ) × (a : Arg V) × (sess.reflect.int_of (s.row.field col.index) ≡ some old)
        × (sess.reflect.with_int (s.row.field col.index) ((old + 1) % word) ≡ some a)
        × (s'.row ≡ (with_field col.index a s).row)
        × SentOnce col old (with_field col.index a s) s'
  update_row_versioned-ok col n s s' h =
      elim (Option-cases (sess.reflect.int_of (s.row.field col.index))) [
        | inl none_at ↦ absurd (cc (sym (update_row_versioned-none sess col s none_at) ∙ h))
        | inr (old, at) ↦
            elim (Option-cases (sess.reflect.with_int (s.row.field col.index) ((old + 1) % word))) [
              | inl fixed ↦
                  absurd (cc (sym (update_row_versioned-fixed sess col s old at fixed) ∙ h))
              | inr (a, with_a) ↦
                  let (one, row, once) = send_versioned-ok col old n (with_field col.index a s) s' (
                    roll_back-ok col old n s'
                      (send_versioned sess col old (with_field col.index a s))
                      (sym (update_row_versioned-sends sess col s old a at with_a) ∙ h)) in
                  (one, old, a, at, with_a, row, once)
            ]
      ]

  -- What a database does with the statement of a versioned update that it is sent in a state: it
  -- affects one row only if the version that it keeps for the row is the argument that the caller
  -- gave, and then it keeps the version that the row was sent with.
  abbrev pub Guarded : Column → (D → ℕ) → State D V → Type 0
  Guarded col stored s =
      (old : ℕ) (a : Arg V) (stmt : Stmt) (result : ExecResult) (d' : D)
      → sess.reflect.int_of (s.row.field col.index) ≡ some old
      → sess.reflect.with_int (s.row.field col.index) ((old + 1) % word) ≡ some a
      → (prepare sess.context s.cache sess.row_type
          (versioned_query sess.context.dialect sess.table_name col)).0
        ≡ prepared stmt
      → Executed sess (with_field col.index a s).row stmt (scalar (sess.reflect.int64 old) ∷ [])
          s.db result d'
      → result.rows_affected ≡ ok 1
      → (stored s.db ≡ old) × (sess.reflect.int_of a ≡ some (stored d'))

  -- If `SetInt` keeps the low bits of a number, as many as the field has, and the database affects
  -- a row by a versioned update only while it keeps the version that the update was given, and
  -- keeps the new version then, of two updates of a row that were read at the same version one at
  -- most succeeds: behind the first that does, for as long as the version in the database stays,
  -- the other never does.
  pub update_row_versioned-once :
      (law : Lawful sess.reflect) (col : Column) (stored : D → ℕ) (n : ℕ) (s s' t : State D V)
      → Guarded col stored s
      → Guarded col stored t
      → update_row_versioned sess col s ≡ (ok n, s')
      → sess.reflect.int_of (t.row.field col.index) ≡ sess.reflect.int_of (s.row.field col.index)
      → stored t.db ≡ stored s'.db
      → (m : ℕ) (t' : State D V) → update_row_versioned sess col t ≢ (ok m, t')
  update_row_versioned-once law col stored n s s' t guard_s guard_t first same_version same_stored m
        t' second =
      let (one, old, a, at, with_a, row, (stmt, result, made, executed, affected)) =
        update_row_versioned-ok col n s s' first in
      let (one2, old2, a2, at2, with_a2, row2, (stmt2, result2, made2, executed2, affected2)) =
        update_row_versioned-ok col m t t' second in
      let (before, after) = guard_s old a stmt result s'.db at with_a made executed affected in
      let (before2, after2) =
        guard_t old2 a2 stmt2 result2 t'.db at2 with_a2 made2 executed2 affected2 in
      let raised = law.set_keeps (s.row.field col.index) a ((old + 1) % word) with_a in
      let same : some old2 ≡ some old = sym at2 ∙ same_version ∙ at in
      let stays : some (wrap (law.width (s.row.field col.index)) ((old + 1) % word)) ≡ some old =
        sym raised ∙ after ∙ ap some (sym same_stored ∙ before2) ∙ same in
      wrap-suc (law.width (s.row.field col.index)) old (some_inj.0 stays)
