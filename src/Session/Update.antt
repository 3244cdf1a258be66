-- ===== src/Session/Update.antt =====
-- session.go: `UpdateRow` and `updateRowVersioned`.
pub mod Conflict
pub mod Locking
pub mod Versioned
use sqlr.Prelude.{
  Result, err, ok, ◌≡◌, refl, ℕ, suc, ◌+◌, ◌%◌, Bool, true, false, List, [], ◌∷◌, ◌++◌, map, Option,
  none, some, Text, codes, ◌==◌, ltb, if◌then◌else◌,
}
use sqlr.Go.Unicode.{Unicode}
use sqlr.Go.Ints.{word}
use sqlr.Wherein.{Arg, scalar}
use sqlr.Dialect.{Dialect, quote, placeholder}
use sqlr.Sql.Columns.{Column}
use sqlr.Sql.Execute.{Row, ExecResult, Querier}
use sqlr.Session.Steps.{
  Reflect, Session, State, SessionError, needs_pointer, unexpected_count, optimistic_locking,
  panic_reflect, Step, Outcome, done, fail, ◌>>=◌, wrapping, from_driver, prepare_query, exec_stmt,
  query_rows, set_int, set_now, scan_one,
}

-- Of a list of columns that may be nil, the field names of those that are there.
unfoldable pub names_of : List (Option Column) → List Text
names_of [] = []
names_of (none ∷ cols) = names_of cols
names_of (some col ∷ cols) = col.field_names ∷ names_of cols

abbrev pub any_column : List (Option Column) → Bool
any_column [] = false
any_column (none ∷ cols) = any_column cols
any_column (some col ∷ cols) = true

-- the two queries of `updateRowVersioned`
unfoldable pub versioned_query : Dialect → Text → Column → Text
versioned_query d table_name col =
    codes "update "
    ++ (quote d table_name
        ++ (codes " set {} where {} and " ++ (quote d col.column_name ++ codes " = ?")))

-- The loop over `tbl.pk`, from the index of its first column.
unfoldable pub pk_text : Dialect → ℕ → List Column → Text
pk_text d i [] = []
pk_text d i (col ∷ cols) =
    (if i == 0 then codes " where " else codes " and ")
    ++ (quote d col.column_name
        ++ (codes " = " ++ (placeholder d (i + 1) ++ pk_text d (suc i) cols)))

unfoldable pub version_query : Dialect → Text → Column → List Column → Text
version_query d table_name col pk =
    codes "select "
    ++ (quote d col.column_name ++ (codes " from " ++ (quote d table_name ++ pk_text d 0 pk)))

module _ ⦃u : Unicode⦄ {D V : Type 0} (sess : Session D V) where
  -- What follows when no row was updated
  unfoldable pub conflict : Column → ℕ → Step D V ℕ
  conflict col old s =
      (do
        rows ← wrapping (codes "cannot obtain version") (
            query_rows sess (version_query sess.context.dialect sess.table_name col sess.table.pk)
              (map (λ c. s.row.field c.index) sess.table.pk))
        current ← wrapping (codes "cannot scan version") (scan_one sess rows)
        fail (optimistic_locking old current))
        s

  unfoldable pub count_versioned : Column → ℕ → ℕ → Step D V ℕ
  count_versioned col old n =
      if n == 1
      then done 1
      else if ltb 1 n
      then wrapping (codes "unexpected rows updated count") (fail (unexpected_count n))
      else conflict col old

  -- `updateRowVersioned` behind the change of the version, without what it defers
  unfoldable pub send_versioned : Column → ℕ → Step D V ℕ
  send_versioned col old = do
    stmt ← prepare_query sess (versioned_query sess.context.dialect sess.table_name col)
    result ←
        wrapping (codes "cannot update row")
          (exec_stmt sess stmt (scalar (sess.reflect.int64 old) ∷ []))
    n ← wrapping (codes "cannot get rows updated") (from_driver result.rows_affected)
    count_versioned col old n

  -- the deferred function; the method sets `success` where it returns without an error
  unfoldable pub roll_back : Column → ℕ → Outcome D V ℕ → Outcome D V ℕ
  roll_back col old (ok n, s) = (ok n, s)
  roll_back col old (err e, s) = (err e, (set_int sess col old s).1)

  -- `versionValue.SetInt(newVersion)` and what follows it; a panic of it is before the deferral
  unfoldable pub with_new_version : Column → ℕ → Outcome D V Unit → Outcome D V ℕ
  unfolding roll_back
  with_new_version col old (err e, s) = (err e, s)
  with_new_version col old (ok _, s) = roll_back col old (send_versioned col old s)

  -- `updateRowVersioned`; `oldVersion + 1` wraps around
  unfoldable pub update_row_versioned : Column → Step D V ℕ
  unfolding with_new_version
  update_row_versioned col s = elim (sess.reflect.int_of (s.row.field col.index)) [
    | none ↦ (err panic_reflect, s)
    | some old ↦ with_new_version col old (set_int sess col ((old + 1) % word) s)
  ]

  -- `UpdateRow` for a table without a version column
  unfoldable pub update_plain : Step D V ℕ
  update_plain = do
    stmt ← prepare_query sess (
        codes "update " ++ (quote sess.context.dialect sess.table_name ++ codes " set {} where {}"))
    result ← wrapping (codes "cannot update row") (exec_stmt sess stmt [])
    wrapping (codes "cannot retrieve rows updated") (from_driver result.rows_affected)

  -- `UpdateRow`
  unfoldable pub update_row : Step D V ℕ
  update_row =
      let changed = sess.table.version ∷ sess.table.updated_at ∷ [] in
      let changes : Step D V ℕ = (do
        _ ← set_now sess sess.table.updated_at
        elim sess.table.version [ none ↦ update_plain | some col ↦ update_row_versioned col ]) in
      if any_column changed
      then if sess.can_addr then changes else fail (needs_pointer (names_of changed))
      else update_plain
