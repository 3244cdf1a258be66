-- ===== src/Tests/Inserts.antt =====
-- Insertions.
use sqlr.Prelude.{ok, ◌≡◌, refl, ℕ, [], ◌∷◌, none, some, codes, equal}
use sqlr.Tests.Ascii.{ascii}
use sqlr.Go.Strings.{lower, trim_space}
use sqlr.Cache.{StmtKey, lookup, find, same_key}
use sqlr.Scanner.{
  scan, scan_rune, first_rune, scan_identifier, scan_operator, read_while, skip_space, is_keyword,
  read_delimited,
}
use sqlr.Scanner.Stream.{scan_all, scan_loop}
use sqlr.Wherein.{Arg, scalar, expand, has_slice}
use sqlr.Sql.Check.{check_sql, collect_words, check_words}
use sqlr.Sql.Clause.{insert, insert_values, insert_columns}
use sqlr.Sql.Columns.{new_columns, column_filter_insertable}
use sqlr.Sql.Statement.{start, from_column}
use sqlr.Sql.Prepare.{Stmt, prepared, prepare, prepare_checked, prepare_key}
use sqlr.Sql.Execute.{
  ExecResult, column_arg, arg_at, input_arg, input_args, get_args, expansion, driver_result, sent,
  exec_sent, exec,
}
use sqlr.Session.Steps.{
  State, done, fail, onward, ◌>>=◌, wrap_error, wrapping, from_driver, with_field, set_field,
  to_exec, to_prepared, prepare_query, exec_stmt, set_int, set_now,
}
use sqlr.Session.Update.{
  names_of, versioned_query, count_versioned, send_versioned, roll_back, with_new_version,
  update_row_versioned,
}
use sqlr.Session.Insert.{
  insert_row, insert_changed, set_first_version, insert_by, plain_insert_row, insert_query,
  autoincr_insert_row,
}
use sqlr.Session.Insert.Generated.{autoincr_insert_row-ok}
use sqlr.Session.Insert.FirstVersion.{insert_row-version}
use sqlr.Session.Steps.Succeeds.{Executed}
use sqlr.Tests.Sessions.{
  Value, int, fits, int_of, with_int, reflect, exec_in, id, version, session, row, lawful,
}

-- what is prepared for `insert into t({}) values({})`
abbrev insert_stmt : Stmt
insert_stmt = record {
  progress = record start {
    clause = insert_values;
    buf = codes "insert into t(id, v) values(?, ?)";
    counter = 2;
    inserted = some (record (new_columns (id ∷ version ∷ [])) {
      clause = insert_columns;
      filter = some column_filter_insertable;
    });
    inputs = from_column id ∷ from_column version ∷ [];
    query_type = insert;
  };
  auto_incr_column = none;
}

abbrev insert_key : StmtKey
insert_key = record { row_type = 0; query = codes "insert into t({}) values({})" }

abbrev fresh : State ℕ Value
fresh = record { row = row 0; cache = some ((insert_key, insert_stmt) ∷ []); db = 0 }

abbrev inserted : State ℕ Value
inserted = with_field (1 ∷ []) (scalar (int 1)) (record fresh { db = 1 })

inserts : insert_row session fresh ≡ (ok tt, inserted)
unfolding prepare prepare_checked prepare_key check_sql collect_words check_words scan_all scan_loop
    scan scan_rune first_rune lower versioned_query lookup find same_key equal scan_identifier
    scan_operator read_while skip_space is_keyword read_delimited trim_space update_row_versioned
    with_new_version roll_back send_versioned count_versioned set_int set_field ◌>>=◌ onward
    wrapping wrap_error prepare_query to_prepared exec_stmt to_exec exec exec_sent sent get_args
    input_args input_arg column_arg arg_at expansion expand has_slice driver_result from_driver done
    fail exec_in int_of with_int fits insert_row insert_changed set_first_version insert_by
    plain_insert_row insert_query set_now names_of
inserts = refl

insert_row-version_example : reflect.int_of (inserted.row.field (1 ∷ [])) ≡ some 1
insert_row-version_example =
    insert_row-version session lawful version fresh inserted refl (λ c h. absurd (cc)) inserts

abbrev numbered : State ℕ Value
numbered = with_field (0 ∷ []) (scalar (int 7)) (record fresh { db = 1 })

numbers : autoincr_insert_row session id fresh ≡ (ok tt, numbered)
unfolding prepare prepare_checked prepare_key check_sql collect_words check_words scan_all scan_loop
    scan scan_rune first_rune lower versioned_query lookup find same_key equal scan_identifier
    scan_operator read_while skip_space is_keyword read_delimited trim_space update_row_versioned
    with_new_version roll_back send_versioned count_versioned set_int set_field ◌>>=◌ onward
    wrapping wrap_error prepare_query to_prepared exec_stmt to_exec exec exec_sent sent get_args
    input_args input_arg column_arg arg_at expansion expand has_slice driver_result from_driver done
    fail exec_in int_of with_int fits autoincr_insert_row insert_query
numbers = refl

autoincr_insert_row-ok_example :
    (stmt : Stmt) × (result : ExecResult) × (last : ℕ) × (a : Arg Value) × ((prepare session.context
        fresh.cache session.row_type
        (insert_query session)).0
      ≡ prepared stmt)
    × Executed session fresh.row stmt [] fresh.db result numbered.db
    × (result.last_insert_id ≡ ok last)
    × (reflect.with_int (fresh.row.field (0 ∷ [])) last ≡ some a)
    × (numbered.row ≡ (with_field (0 ∷ []) a fresh).row)
autoincr_insert_row-ok_example = autoincr_insert_row-ok session id fresh numbered numbers
