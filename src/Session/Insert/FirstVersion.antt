-- ===== src/Session/Insert/FirstVersion.antt =====
-- `InsertRow`: the version of a row that was inserted.
use sqlr.Prelude.{
  Result, err, ok, ◌≡◌, refl, sym, ◌∙◌, ap, arith, ℕ, Bool, true, false, List, [], ◌∷◌, ◌++◌,
  Option, none, some, some_inj, false≢true, codes, equal, equal_refl, if◌then◌else◌, ◌⊎◌, inl, inr,
}
use sqlr.Go.Unicode.{Unicode}
use sqlr.Go.Ints.{bits8, bits16, bits32, bits64, Width, wrap, Fits-wrap}
use sqlr.Wherein.{Arg}
use sqlr.Dialect.{quote}
use sqlr.Sql.Columns.{Column}
use sqlr.Sql.Prepare.{Stmt}
use sqlr.Sql.Execute.{ExecError, get_args}
use sqlr.Session.Steps.{
  Session, State, SessionError, needs_pointer, Step, Outcome, done, fail, wrapping, with_field,
  prepare_query, exec_stmt, query_rows, set_int, set_now, scan_one,
}
use sqlr.Session.Steps.Keeps.{
  Keeps, Keeps-done, Keeps->>=, Keeps-wrapping, Keeps-prepare_query, Keeps-exec_stmt,
  Keeps-query_rows, Keeps-scan_one,
}
use sqlr.Session.Steps.Succeeds.{>>=-ok}
use sqlr.Session.Update.Versioned.{Lawful}
use sqlr.Session.Insert.{
  insert_query, of_args, stmt_args, autoincr_insert_row, postgres_insert_row, plain_insert_row,
  set_first_version, insert_by, insert_changed, insert_row,
}
use sqlr.Session.Update.{any_column, names_of}
use sqlr.Session.Insert.Generated.{set_int-ok, autoincr_insert_row-ok}

any_column-last :
    {col : Column} (a b c d : Option Column) → d ≡ some col → any_column (a ∷ b ∷ c ∷ d ∷ []) ≡ true
any_column-last none none none none h = absurd (cc)
any_column-last none none none (some d) h = refl
any_column-last none none (some c) d h = refl
any_column-last none (some b) c d h = refl
any_column-last (some a) b c d h = refl

wrap_one : (w : Width) → wrap w 1 ≡ 1
wrap_one bits8 = Fits-wrap bits8 1 (inl (omega arith))
wrap_one bits16 = Fits-wrap bits16 1 (inl (omega arith))
wrap_one bits32 = Fits-wrap bits32 1 (inl (omega arith))
wrap_one bits64 = Fits-wrap bits64 1 (inl (omega arith))

module _ ⦃u : Unicode⦄ {D V : Type 0} (sess : Session D V) where
  -- a step that keeps the row, and its outcome
  kept :
      {A : Type 0} {s s' : State D V} {a : A} (step : Step D V A)
      → Keeps step
      → step s ≡ (ok a, s')
      → s'.row ≡ s.row
  kept {s = s} step keeps h = ap (λ r. r.1.row) (sym h) ∙ keeps s

  either_step :
      {A : Type 0} {r : Outcome D V A} {s : State D V} (b : Bool) (x y : Step D V A)
      → (if b then x else y) s ≡ r
      → (x s ≡ r) ⊎ (y s ≡ r)
  either_step true x y h = inl h
  either_step false x y h = inr h

  allowed :
      {A : Type 0} {a : A} {s s' : State D V} (any can : Bool) (x y : Step D V A) (e : SessionError)
      → any ≡ true
      → (if any then if can then x else fail e else y) s ≡ (ok a, s')
      → x s ≡ (ok a, s')
  unfolding fail
  allowed true true x y e h g = g
  allowed true false x y e h g = absurd (cc)
  allowed false can x y e h g = absurd (false≢true h)

  set_first_version-ok :
      {col : Column} {s' : State D V} (s : State D V) (version : Option Column)
      → version ≡ some col
      → set_first_version sess version s ≡ (ok tt, s')
      → set_int sess col 1 s ≡ (ok tt, s')
  unfolding set_first_version
  set_first_version-ok s none at h = absurd (cc)
  set_first_version-ok s (some c) at h = ap (λ c. set_int sess c 1 s) (sym (some_inj.0 at)) ∙ h

  Keeps-of_args : {A : Type 0} (r : Result ExecError A) → Keeps (of_args sess r)
  unfolding of_args done fail
  Keeps-of_args (err e) s = refl
  Keeps-of_args (ok a) s = refl

  Keeps-stmt_args : (stmt : Stmt) (args : List (Arg V)) → Keeps (stmt_args sess stmt args)
  unfolding stmt_args
  Keeps-stmt_args stmt args s =
      Keeps-of_args (get_args sess.go s.row sess.row_type stmt.progress args) s

  Keeps-plain_insert_row : Keeps (plain_insert_row sess)
  unfolding plain_insert_row
  Keeps-plain_insert_row =
      Keeps->>= (prepare_query sess (insert_query sess)) _
        (Keeps-prepare_query sess (insert_query sess))
        (λ stmt.
          Keeps->>= (wrapping (codes "cannot insert row") (exec_stmt sess stmt [])) _
            (Keeps-wrapping (codes "cannot insert row") (exec_stmt sess stmt [])
              (Keeps-exec_stmt sess stmt []))
            (λ result. Keeps-done tt))

  -- Setting one field leaves the others.
  with_field-other :
      (index other : List ℕ) (a : Arg V) (s s' : State D V)
      → equal index other ≡ false
      → s'.row ≡ (with_field index a s).row
      → s'.row.field other ≡ s.row.field other
  with_field-other index other a s s' ne same = ap (λ r. r.field other) same ∙ rw ne refl

  postgres_insert_row-other :
      (col : Column) (other : List ℕ) (s s' : State D V)
      → equal col.index other ≡ false
      → postgres_insert_row sess col s ≡ (ok tt, s')
      → s'.row.field other ≡ s.row.field other
  unfolding postgres_insert_row
  postgres_insert_row-other col other s s' ne h =
      let query =
        insert_query sess ++ (codes " returning " ++ quote sess.context.dialect col.column_name) in
      let (stmt, s1, first, later) = >>=-ok (prepare_query sess query) _ h in
      let (args, s2, second, later2) = >>=-ok (stmt_args sess stmt []) _ later in
      let (rows, s3, third, later3) =
        >>=-ok (wrapping (codes "cannot insert row") (query_rows sess stmt.progress.buf args)) _
          later2 in
      let (id, s4, fourth, last) =
        >>=-ok (wrapping (codes "cannot retrieve last insert id") (scan_one sess rows)) _ later3 in
      let (a, with_a, same) = set_int-ok sess col id s4 s' last in
      let row4 : s4.row ≡ s.row =
        kept (wrapping (codes "cannot retrieve last insert id") (scan_one sess rows))
          (Keeps-wrapping (codes "cannot retrieve last insert id") (scan_one sess rows)
            (Keeps-scan_one sess rows))
          fourth
        ∙ kept (wrapping (codes "cannot insert row") (query_rows sess stmt.progress.buf args))
            (Keeps-wrapping (codes "cannot insert row") (query_rows sess stmt.progress.buf args)
              (Keeps-query_rows sess stmt.progress.buf args))
            third
        ∙ kept (stmt_args sess stmt []) (Keeps-stmt_args stmt []) second
        ∙ kept (prepare_query sess query) (Keeps-prepare_query sess query) first in
      with_field-other col.index other a s4 s' ne (ap (λ t. t.row) (sym same))
      ∙ ap (λ r. r.field other) row4

  insert_by-other :
      (autoincr : Option Column) (other : List ℕ) (s s' : State D V)
      → ((c : Column) → autoincr ≡ some c → equal c.index other ≡ false)
      → insert_by sess autoincr s ≡ (ok tt, s')
      → s'.row.field other ≡ s.row.field other
  unfolding insert_by
  insert_by-other none other s s' ne h =
      ap (λ r. r.field other) (kept (plain_insert_row sess) Keeps-plain_insert_row h)
  insert_by-other (some c) other s s' ne h =
      elim (either_step sess.postgres (postgres_insert_row sess c) (autoincr_insert_row sess c) h) [
        | inl p ↦ postgres_insert_row-other c other s s' (ne c refl) p
        | inr p ↦
            let (stmt, result, id, a, made, executed, last, with_a, row) =
              autoincr_insert_row-ok sess c s s' p in
            with_field-other c.index other a s s' (ne c refl) row
      ]

  insert_changed-version :
      (law : Lawful sess.reflect) (col : Column) (s s' : State D V)
      → sess.table.version ≡ some col
      → ((c : Column) → sess.table.autoincr ≡ some c → equal c.index col.index ≡ false)
      → insert_changed sess s ≡ (ok tt, s')
      → sess.reflect.int_of (s'.row.field col.index) ≡ some 1
  unfolding insert_changed set_first_version
  insert_changed-version law col s s' at ne h =
      let (created, s1, first, later) = >>=-ok (set_now sess sess.table.created_at) _ h in
      let (updated, s2, second, later2) = >>=-ok (set_now sess sess.table.updated_at) _ later in
      let (versioned, s3, third, later3) =
        >>=-ok (set_first_version sess sess.table.version) _ later2 in
      let (a, with_a, same) =
        set_int-ok sess col 1 s2 s3 (set_first_version-ok s2 sess.table.version at third) in
      let field : s3.row.field col.index ≡ a =
        ap (λ t. t.row.field col.index) (sym same) ∙ rw (equal_refl col.index) refl in
      ap sess.reflect.int_of (insert_by-other sess.table.autoincr col.index s3 s' ne later3 ∙ field)
      ∙ law.set_keeps (s2.row.field col.index) a 1 with_a
      ∙ ap some (wrap_one (law.width (s2.row.field col.index)))

  -- After an insertion that succeeds, the version column of the row, if the table has one, reads
  -- 1, provided that the auto-increment column is another field and that `SetInt` keeps the low
  -- bits of a number, as many as the field has.
  pub insert_row-version :
      (law : Lawful sess.reflect) (col : Column) (s s' : State D V)
      → sess.table.version ≡ some col
      → ((c : Column) → sess.table.autoincr ≡ some c → equal c.index col.index ≡ false)
      → insert_row sess s ≡ (ok tt, s')
      → sess.reflect.int_of (s'.row.field col.index) ≡ some 1
  unfolding insert_row fail
  insert_row-version law col s s' at ne h =
      let changed =
        sess.table.autoincr ∷ sess.table.created_at ∷ sess.table.updated_at ∷ sess.table.version
        ∷ [] in
      insert_changed-version law col s s' at ne (
        allowed (any_column changed) sess.can_addr (insert_changed sess) (plain_insert_row sess)
          (needs_pointer (names_of changed))
          (any_column-last sess.table.autoincr sess.table.created_at sess.table.updated_at
            sess.table.version at)
          h)
