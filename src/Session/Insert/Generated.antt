-- ===== src/Session/Insert/Generated.antt =====
-- `InsertRow`: the fields of the row that an insertion sets.
use sqlr.Prelude.{ok, ◌≡◌, refl, sym, ◌∙◌, ap, ℕ, List, [], some, Option-cases, inl, inr}
use sqlr.Go.Unicode.{Unicode}
use sqlr.Wherein.{Arg}
use sqlr.Sql.Columns.{Column}
use sqlr.Sql.Prepare.{Stmt, prepared, prepare}
use sqlr.Sql.Execute.{Row, ExecResult}
use sqlr.Session.Steps.{Session, State, with_field, prepare_query, set_int}
use sqlr.Session.Steps.Succeeds.{
  >>=-ok, wrapping-ok, from_driver-ok, prepare_query-ok, exec_stmt-ok, Executed, Executed-between,
}
use sqlr.Session.Update.Versioned.{set_int-some, set_int-none}
use sqlr.Session.Insert.{insert_query, autoincr_insert_row}

module _ ⦃u : Unicode⦄ {D V : Type 0} (sess : Session D V) where
  pub set_int-ok :
      (col : Column) (n : ℕ) (s s' : State D V)
      → set_int sess col n s ≡ (ok tt, s')
      → (a : Arg V) × (sess.reflect.with_int (s.row.field col.index) n ≡ some a)
        × (with_field col.index a s ≡ s')
  set_int-ok col n s s' h = elim (Option-cases (sess.reflect.with_int (s.row.field col.index) n)) [
    | inl e ↦ absurd (cc (sym (set_int-none sess col n s e) ∙ h))
    | inr (a, e) ↦ (a, e, ap (λ r. r.1) (sym (set_int-some sess col n s a e) ∙ h))
  ]

  with_int-at :
      (col : Column) (n : ℕ) {a : Arg V} {row row' : Row V}
      → row ≡ row'
      → sess.reflect.with_int (row.field col.index) n ≡ some a
      → sess.reflect.with_int (row'.field col.index) n ≡ some a
  with_int-at col n same h = rw same at h

  with_field-row :
      (index : List ℕ) (a : Arg V) (s t : State D V)
      → s.row ≡ t.row
      → (with_field index a s).row ≡ (with_field index a t).row
  with_field-row index a s t same = rw same refl

  -- If `autoincrInsertRow` succeeds, it has prepared the insert query of the table and sent that
  -- statement, once and with no further argument, and it sets the auto-increment field to the last
  -- insert id of the result and changes no other field.
  pub autoincr_insert_row-ok :
      (col : Column) (s s' : State D V)
      → autoincr_insert_row sess col s ≡ (ok tt, s')
      → (stmt : Stmt) × (result : ExecResult) × (id : ℕ) × (a : Arg V) × ((prepare sess.context
            s.cache sess.row_type
            (insert_query sess)).0
          ≡ prepared stmt)
        × Executed sess s.row stmt [] s.db result s'.db
        × (result.last_insert_id ≡ ok id)
        × (sess.reflect.with_int (s.row.field col.index) id ≡ some a)
        × (s'.row ≡ (with_field col.index a s).row)
  unfolding autoincr_insert_row
  autoincr_insert_row-ok col s s' h =
      let (stmt, s1, first, later) = >>=-ok (prepare_query sess (insert_query sess)) _ h in
      let (made, row1, db1) = prepare_query-ok sess (insert_query sess) s first in
      let (result, s2, second, later2) = >>=-ok _ _ later in
      let (executed, row2) = exec_stmt-ok sess stmt [] s1 (wrapping-ok _ _ second) in
      let (id, s3, third, later3) = >>=-ok _ _ later2 in
      let (last, same3) = from_driver-ok result.last_insert_id (wrapping-ok _ _ third) in
      let (a, with_a, same4) = set_int-ok col id s3 s' later3 in
      let row3 : s3.row ≡ s.row = ap (λ t. t.row) (sym same3) ∙ row2 ∙ row1 in
      (
        stmt,
        result,
        id,
        a,
        made,
        Executed-between sess stmt [] row1 db1 (ap (λ t. t.db) same3 ∙ ap (λ t. t.db) same4)
            executed,
        last,
        with_int-at col id row3 with_a,
        ap (λ t. t.row) (sym same4) ∙ with_field-row col.index a s3 s row3,
      )
