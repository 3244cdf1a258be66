-- ===== src/Tests/Updates.antt =====
-- Versioned updates.
use sqlr.Prelude.{
  Result, err, ok, ◌≡◌, ◌≢◌, refl, sym, ap, ◌∙◌, arith, ℕ, ◌+◌, ◌%◌, List, [], ◌∷◌, none, some,
  some_inj, Text, codes, equal, ◌==◌, Bool-cases, inl, inr,
}
use sqlr.Tests.Ascii.{ascii}
use sqlr.Go.Ints.{word}
use sqlr.Go.Strings.{lower, trim_space}
use sqlr.Cache.{StmtKey, lookup, find, same_key}
use sqlr.Scanner.{
  scan, scan_rune, first_rune, scan_identifier, scan_operator, read_while, skip_space, is_keyword,
  read_delimited,
}
use sqlr.Scanner.Stream.{scan_all, scan_loop}
use sqlr.Wherein.{Arg, scalar, expand, has_slice}
use sqlr.Sql.Check.{check_sql, collect_words, check_words}
use sqlr.Sql.Clause.{update_where}
use sqlr.Sql.Statement.{start, from_column, from_arg}
use sqlr.Sql.Prepare.{Stmt, Prepared, prepared, prepare, prepare_checked, prepare_key}
use sqlr.Sql.Execute.{
  ExecError, ExecResult, column_arg, arg_at, input_arg, input_args, get_args, expansion,
  driver_result, sent, exec_sent, exec,
}
use sqlr.Session.Steps.{
  State, done, fail, onward, ◌>>=◌, wrap_error, wrapping, from_driver, with_field, set_field,
  to_exec, to_prepared, prepare_query, exec_stmt, query_rows, set_int, scan_one, optimistic_locking,
}
use sqlr.Session.Update.{
  versioned_query, version_query, pk_text, conflict, count_versioned, send_versioned, roll_back,
  with_new_version, update_row_versioned,
}
use sqlr.Session.Update.Locking.{
  Guarded, SentOnce, update_row_versioned-ok, update_row_versioned-once,
}
use sqlr.Session.Update.Conflict.{SentInVain, update_row_versioned-locking}
use sqlr.Session.Update.Versioned.{update_row_versioned-restores}
use sqlr.Tests.Sessions.{
  Value, int, fits, int_of, with_int, scan_int, reflect, go_values, exec_in, querier, plain_dialect,
  id, version, context, session, row, lawful,
}

-- what is prepared for `update t set {} where {} and v = ?`
abbrev update_stmt : Stmt
update_stmt = record {
  progress = record start {
    clause = update_where;
    buf = codes "update t set v = ? where id = ? and v = ?";
    counter = 3;
    inputs = from_column version ∷ from_column id ∷ from_arg 0 ∷ [];
    arg_count = 1;
  };
  auto_incr_column = none;
}

abbrev update_key : StmtKey
update_key = record { row_type = 0; query = codes "update t set {} where {} and v = ?" }

-- the version of the row, and the version in the database
abbrev state : ℕ → ℕ → State ℕ Value
state v d = record { row = row v; cache = some ((update_key, update_stmt) ∷ []); db = d }

prepares :
    (v d : ℕ)
    → (prepare context (state v d).cache 0 (versioned_query plain_dialect (codes "t") version)).0
      ≡ prepared update_stmt
unfolding prepare prepare_checked prepare_key check_sql collect_words check_words scan_all scan_loop
    scan scan_rune first_rune lower versioned_query lookup find same_key equal scan_identifier
    scan_operator read_while skip_space is_keyword read_delimited trim_space
prepares v d = refl

abbrev updated : State ℕ Value
updated = with_field (1 ∷ []) (scalar (int 5)) (record (state 4 4) { db = 5 })

updates : update_row_versioned session version (state 4 4) ≡ (ok 1, updated)
unfolding prepare prepare_checked prepare_key check_sql collect_words check_words scan_all scan_loop
    scan scan_rune first_rune lower versioned_query lookup find same_key equal scan_identifier
    scan_operator read_while skip_space is_keyword read_delimited trim_space update_row_versioned
    with_new_version roll_back send_versioned count_versioned set_int set_field ◌>>=◌ onward
    wrapping wrap_error prepare_query to_prepared exec_stmt to_exec exec exec_sent sent get_args
    input_args input_arg column_arg arg_at expansion expand has_slice driver_result from_driver done
    fail exec_in int_of with_int fits
updates = refl

abbrev put_back : State ℕ Value
put_back = with_field (1 ∷ []) (scalar (int 4)) (with_field (1 ∷ []) (scalar (int 5)) (state 4 8))

conflicts :
    update_row_versioned session version (state 4 8) ≡ (err (optimistic_locking 4 8), put_back)
unfolding prepare prepare_checked prepare_key check_sql collect_words check_words scan_all scan_loop
    scan scan_rune first_rune lower versioned_query lookup find same_key equal scan_identifier
    scan_operator read_while skip_space is_keyword read_delimited trim_space update_row_versioned
    with_new_version roll_back send_versioned count_versioned set_int set_field ◌>>=◌ onward
    wrapping wrap_error prepare_query to_prepared exec_stmt to_exec exec exec_sent sent get_args
    input_args input_arg column_arg arg_at expansion expand has_slice driver_result from_driver done
    fail exec_in int_of with_int fits conflict query_rows scan_one scan_int version_query pk_text
conflicts = refl

abbrev sent_text : Text
sent_text = codes "update t set v = ? where id = ? and v = ?"

abbrev sent_args : List (Arg Value)
sent_args = scalar (int 5) ∷ scalar (int 9) ∷ scalar (int 4) ∷ []

-- the update of a row of version 4, as the database sees it
sends :
    (d : ℕ)
    → sent go_values querier
        (with_field (1 ∷ []) (scalar (int 5)) (state 4 d)).row
        0
        update_stmt.progress
        (scalar (int 4) ∷ [])
      ≡ ok (sent_text, sent_args)
unfolding sent get_args input_args input_arg column_arg arg_at expansion expand has_slice equal
sends d = refl

exec_in-one :
    (d d' : ℕ) (result : ExecResult)
    → exec_in sent_text sent_args d ≡ (ok result, d')
    → result.rows_affected ≡ ok 1
    → (d ≡ 4) × (d' ≡ 5)
unfolding exec_in
exec_in-one d d' result h affected = elim (Bool-cases (4 == d)) [
  | inl e ↦ ground arith
  | inr e ↦
      let none_affected : record { rows_affected = ok 0; last_insert_id = err [] } ≡ result =
        ground arith in
      absurd (ground arith)
]

abbrev stmt_of : Prepared → Stmt
stmt_of (prepared stmt) = stmt
stmt_of _ = update_stmt

abbrev sent_of : Result ExecError (Text × List (Arg Value)) → Text × List (Arg Value)
sent_of (ok sent) = sent
sent_of (err e) = ([], [])

exec_in-sent :
    (d d' : ℕ) (result : ExecResult) (sent : Text × List (Arg Value))
    → (sent_text, sent_args) ≡ sent
    → exec_in sent.0 sent.1 d ≡ (ok result, d')
    → result.rows_affected ≡ ok 1
    → (d ≡ 4) × (d' ≡ 5)
exec_in-sent d d' result sent same h = exec_in-one d d' result (rw (sym same) at h)

guarded : (d : ℕ) → Guarded session version (λ d. d) (state 4 d)
unfolding int_of with_int fits
guarded d old a stmt result d' at with_a made (query, args, is_sent, executed) affected =
    let old_is : 4 ≡ old = some_inj.0 at in
    let a_is : scalar (int 5) ≡ a = some_inj.0 (rw (sym old_is) at with_a) in
    let stmt_is : update_stmt ≡ stmt = ap stmt_of (sym (prepares 4 d) ∙ made) in
    let same : (sent_text, sent_args) ≡ (query, args) =
      ap sent_of (sym (sends d) ∙ (rw (sym a_is, sym stmt_is, sym old_is) at is_sent)) in
    let (before, after) = exec_in-sent d d' result (query, args) same executed affected in
    (before ∙ old_is, rw (sym a_is, after) refl)

update_row_versioned-once_example :
    update_row_versioned session version (state 4 5) ≢ (ok 1, updated)
update_row_versioned-once_example =
    update_row_versioned-once session lawful version (λ d. d) 1 (state 4 4) updated (state 4 5)
      (guarded 4) (guarded 5) updates refl refl 1 updated

update_row_versioned-restores_example : put_back.row.field (1 ∷ []) ≡ (state 4 8).row.field (1 ∷ [])
update_row_versioned-restores_example =
    update_row_versioned-restores session lawful version (state 4 8) put_back
      (optimistic_locking 4 8) conflicts (1 ∷ [])

update_row_versioned-ok_example :
    (◌≡◌ {A = ℕ} 1 1)
    × (old : ℕ) × (a : Arg Value) × (reflect.int_of ((state 4 4).row.field (1 ∷ [])) ≡ some old)
    × (reflect.with_int ((state 4 4).row.field (1 ∷ [])) ((old + 1) % word) ≡ some a)
    × (updated.row ≡ (with_field (1 ∷ []) a (state 4 4)).row)
    × SentOnce session version old (with_field (1 ∷ []) a (state 4 4)) updated
update_row_versioned-ok_example =
    update_row_versioned-ok session version 1 (state 4 4) updated updates

update_row_versioned-locking_example :
    (a : Arg Value) × (reflect.int_of ((state 4 8).row.field (1 ∷ [])) ≡ some 4)
    × (reflect.with_int ((state 4 8).row.field (1 ∷ [])) ((4 + 1) % word) ≡ some a)
    × SentInVain session version 4 (with_field (1 ∷ []) a (state 4 8))
update_row_versioned-locking_example =
    update_row_versioned-locking session version 4 8 (state 4 8) put_back conflicts
