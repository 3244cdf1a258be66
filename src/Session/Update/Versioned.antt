-- ===== src/Session/Update/Versioned.antt =====
-- `updateRowVersioned`: the row is changed if, and only if, it is updated.
use sqlr.Prelude.{
  err, ok, ◌≡◌, refl, sym, ◌∙◌, ap, ℕ, ◌+◌, ◌%◌, List, [], ◌∷◌, map, none, some, codes, equal,
  equal_iff, equal_refl, ◌==◌, ltb, Bool-cases, Option-cases, inl, inr,
}
use sqlr.Go.Unicode.{Unicode}
use sqlr.Go.Ints.{Width, wrap, word}
use sqlr.Wherein.{Arg, scalar}
use sqlr.Sql.Columns.{Column}
use sqlr.Session.Steps.{
  Reflect, Session, State, SessionError, unexpected_count, optimistic_locking, panic_reflect,
  Outcome, fail, wrapping, from_driver, with_field, set_field, prepare_query, exec_stmt, query_rows,
  set_int, scan_one,
}
use sqlr.Session.Steps.Keeps.{
  Keeps, Keeps-done, Keeps-fail, Keeps->>=, Keeps-wrapping, Keeps-from_driver, Keeps-prepare_query,
  Keeps-exec_stmt, Keeps-query_rows, Keeps-scan_one,
}
use sqlr.Session.Update.{
  versioned_query, version_query, conflict, count_versioned, send_versioned, roll_back,
  with_new_version, update_row_versioned,
}

-- What `reflect` documents: `SetInt` keeps the low bits of the number, as many as the field has, and
-- setting a field back to the number that it held undoes a change.
pub record Lawful {V : Type 0} (r : Reflect V) : Type 0 where
  pub width : Arg V → Width
  pub set_keeps :
      (a b : Arg V) (n : ℕ) → r.with_int a n ≡ some b → r.int_of b ≡ some (wrap (width a) n)
  pub set_back :
      (a b : Arg V) (m n : ℕ)
      → r.int_of a ≡ some m
      → r.with_int a n ≡ some b
      → r.with_int b m ≡ some a

module _ ⦃u : Unicode⦄ {D V : Type 0} (sess : Session D V) where
  pub set_int-some :
      (col : Column) (n : ℕ) (s : State D V) (a : Arg V)
      → sess.reflect.with_int (s.row.field col.index) n ≡ some a
      → set_int sess col n s ≡ (ok tt, with_field col.index a s)
  unfolding set_int set_field
  set_int-some col n s a e = ap (λ o. set_field col.index o s) e

  pub set_int-none :
      (col : Column) (n : ℕ) (s : State D V)
      → sess.reflect.with_int (s.row.field col.index) n ≡ none
      → set_int sess col n s ≡ (err panic_reflect, s)
  unfolding set_int set_field
  set_int-none col n s e = ap (λ o. set_field col.index o s) e

  Keeps-conflict : (col : Column) (old : ℕ) → Keeps (conflict sess col old)
  unfolding conflict
  Keeps-conflict col old s =
      let args = map (λ c. s.row.field c.index) sess.table.pk in
      let query = version_query sess.context.dialect sess.table_name col sess.table.pk in
      Keeps->>= (wrapping (codes "cannot obtain version") (query_rows sess query args)) _
        (Keeps-wrapping (codes "cannot obtain version") (query_rows sess query args)
          (Keeps-query_rows sess query args))
        (λ rows.
          Keeps->>= (wrapping (codes "cannot scan version") (scan_one sess rows)) _
            (Keeps-wrapping (codes "cannot scan version") (scan_one sess rows)
              (Keeps-scan_one sess rows))
            (λ current. Keeps-fail ℕ (optimistic_locking old current)))
        s

  Keeps-count_versioned : (col : Column) (old n : ℕ) → Keeps (count_versioned sess col old n)
  unfolding count_versioned
  Keeps-count_versioned col old n = elim (Bool-cases (n == 1)) [
    | inl e ↦ rw e (Keeps-done 1)
    | inr e ↦ elim (Bool-cases (ltb 1 n)) [
      | inl l ↦
          rw (e, l)
            (Keeps-wrapping (codes "unexpected rows updated count")
              (fail {A = ℕ} (unexpected_count n)) (Keeps-fail ℕ (unexpected_count n)))
      | inr l ↦ rw (e, l) (Keeps-conflict col old)
    ]
  ]

  Keeps-send_versioned : (col : Column) (old : ℕ) → Keeps (send_versioned sess col old)
  unfolding send_versioned
  Keeps-send_versioned col old =
      let query = versioned_query sess.context.dialect sess.table_name col in
      Keeps->>= (prepare_query sess query) _ (Keeps-prepare_query sess query) (λ stmt.
        let update = exec_stmt sess stmt (scalar (sess.reflect.int64 old) ∷ []) in
        Keeps->>= (wrapping (codes "cannot update row") update) _
          (Keeps-wrapping (codes "cannot update row") update
            (Keeps-exec_stmt sess stmt (scalar (sess.reflect.int64 old) ∷ [])))
          (λ result.
            Keeps->>=
              (wrapping (codes "cannot get rows updated") (from_driver result.rows_affected)) _
              (Keeps-wrapping (codes "cannot get rows updated") (from_driver result.rows_affected)
                (Keeps-from_driver result.rows_affected))
              (λ n. Keeps-count_versioned col old n)))

  pub update_row_versioned-none :
      (col : Column) (s : State D V)
      → sess.reflect.int_of (s.row.field col.index) ≡ none
      → update_row_versioned sess col s ≡ (err panic_reflect, s)
  unfolding update_row_versioned
  update_row_versioned-none col s e =
      ap
        (λ o. elim o [
          | none ↦ (err panic_reflect, s)
          | some old ↦ with_new_version sess col old (set_int sess col ((old + 1) % word) s)
        ])
        e

  update_row_versioned-some :
      (col : Column) (s : State D V) (old : ℕ)
      → sess.reflect.int_of (s.row.field col.index) ≡ some old
      → update_row_versioned sess col s
        ≡ with_new_version sess col old (set_int sess col ((old + 1) % word) s)
  unfolding update_row_versioned
  update_row_versioned-some col s old e =
      ap
        (λ o. elim o [
          | none ↦ (err panic_reflect, s)
          | some old ↦ with_new_version sess col old (set_int sess col ((old + 1) % word) s)
        ])
        e

  pub update_row_versioned-fixed :
      (col : Column) (s : State D V) (old : ℕ)
      → sess.reflect.int_of (s.row.field col.index) ≡ some old
      → sess.reflect.with_int (s.row.field col.index) ((old + 1) % word) ≡ none
      → update_row_versioned sess col s ≡ (err panic_reflect, s)
  unfolding with_new_version
  update_row_versioned-fixed col s old e n =
      update_row_versioned-some col s old e
      ∙ ap (with_new_version sess col old) (set_int-none col ((old + 1) % word) s n)

  pub update_row_versioned-sends :
      (col : Column) (s : State D V) (old : ℕ) (a : Arg V)
      → sess.reflect.int_of (s.row.field col.index) ≡ some old
      → sess.reflect.with_int (s.row.field col.index) ((old + 1) % word) ≡ some a
      → update_row_versioned sess col s
        ≡ roll_back sess col old (send_versioned sess col old (with_field col.index a s))
  unfolding with_new_version
  update_row_versioned-sends col s old a e n =
      update_row_versioned-some col s old e
      ∙ ap (with_new_version sess col old) (set_int-some col ((old + 1) % word) s a n)

  -- The version that was there comes back.
  set_int-restores :
      (law : Lawful sess.reflect) (col : Column) (old : ℕ) (a : Arg V) (s t : State D V)
      → sess.reflect.int_of (s.row.field col.index) ≡ some old
      → sess.reflect.with_int (s.row.field col.index) ((old + 1) % word) ≡ some a
      → t.row ≡ (with_field col.index a s).row
      → (i : List ℕ) → (set_int sess col old t).1.row.field i ≡ s.row.field i
  set_int-restores law col old a s t e n same i =
      let back = law.set_back (s.row.field col.index) a old ((old + 1) % word) e n in
      let at : t.row.field col.index ≡ a =
        ap (λ r. r.field col.index) same ∙ rw (equal_refl col.index) refl in
      rw (set_int-some col old t (s.row.field col.index) (rw at back))
        (elim (Bool-cases (equal col.index i)) [
          | inl eq ↦ rw eq (ap s.row.field ((equal_iff col.index i).0 eq))
          | inr ne ↦ rw ne (ap (λ r. r.field i) same ∙ rw ne refl)
        ])

  roll_back-restores :
      (law : Lawful sess.reflect) (col : Column) (old : ℕ) (a : Arg V) (s : State D V)
      → sess.reflect.int_of (s.row.field col.index) ≡ some old
      → sess.reflect.with_int (s.row.field col.index) ((old + 1) % word) ≡ some a
      → (r : Outcome D V ℕ) → r.1.row ≡ (with_field col.index a s).row
      → (e : SessionError) (s' : State D V) → roll_back sess col old r ≡ (err e, s')
      → (i : List ℕ) → s'.row.field i ≡ s.row.field i
  unfolding roll_back
  roll_back-restores law col old a s at n (ok m, t) same e s' h i = absurd (cc)
  roll_back-restores law col old a s at n (err d, t) same e s' h i =
      ap (λ r. r.1.row.field i) (sym h) ∙ set_int-restores law col old a s t at n same i

  -- If setting a field back to the number that it held undoes a change, then however a versioned
  -- update fails, every field of the row is what it was before.
  pub update_row_versioned-restores :
      (law : Lawful sess.reflect) (col : Column) (s s' : State D V) (e : SessionError)
      → update_row_versioned sess col s ≡ (err e, s')
      → (i : List ℕ) → s'.row.field i ≡ s.row.field i
  update_row_versioned-restores law col s s' e h i =
      elim (Option-cases (sess.reflect.int_of (s.row.field col.index))) [
        | inl none_at ↦ ap (λ r. r.1.row.field i) (sym h ∙ update_row_versioned-none col s none_at)
        | inr (old, at) ↦
            elim (Option-cases (sess.reflect.with_int (s.row.field col.index) ((old + 1) % word))) [
              | inl fixed ↦
                  ap (λ r. r.1.row.field i) (sym h ∙ update_row_versioned-fixed col s old at fixed)
              | inr (a, n) ↦
                  roll_back-restores law col old a s at n
                    (send_versioned sess col old (with_field col.index a s))
                    (Keeps-send_versioned col old (with_field col.index a s)) e s'
                    (sym (update_row_versioned-sends col s old a at n) ∙ h) i
            ]
      ]
