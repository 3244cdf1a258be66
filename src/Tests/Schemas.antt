-- ===== src/Tests/Schemas.antt =====
-- Statements, tables and caches.
use sqlr.Prelude.{
  ◌≢◌, ok, ℕ, ◌+◌, ◌<◌, Bool, true, false, List, [], ◌∷◌, map, none, some, Text, codes, equal, ◌≡◌,
  ◌↔◌, refl, arith, length, All, if◌then◌else◌,
}
use sqlr.Tests.Ascii.{ascii}
use sqlr.Go.Strings.{lower}
use sqlr.Dialect.{postgres, mysql, placeholder}
use sqlr.Go.Strings.{trim_space}
use sqlr.Scanner.{scan, scan_rune, first_rune}
use sqlr.Quote.{is_quoted, is_quoted_in, is_quoted_by}
use sqlr.Scanner.Stream.{scan_all}
use sqlr.Sql.Clause.{
  step_clause, insert_columns, query_type, next_clause, keyword_of, is_input, insert_values, insert,
}
use sqlr.Sql.Check.{will_not_delete, check_sql, sql_scanner, collect_words}
use sqlr.Sql.Check.Shorthands.{Deletes, check_sql-will_not_delete}
use sqlr.Sql.Columns.{
  parse, failed, out_of_fuel, Column, int_kind, ColumnList, new_columns, filtered, render, member,
}
use sqlr.Sql.Columns.Terminates.{Lowered, parse_terminates}
use sqlr.Sql.Columns.Counting.{render-counter}
use sqlr.Sql.Statement.{
  Context, Progress, scan_sql, start, from_arg, scan_tokens, scan_token, scan_ident, scan_word,
  rename, scan_placeholder,
}
use sqlr.Sql.Statement.Inputs.{Balanced, scan_sql-Balanced}
use sqlr.Sql.Table.{
  Info, ColumnConfigs, new_table, new_table_with_config, configured, check_fields, unknown_field,
  check_table, add_fields, add_field, config_of, add_column, configure, version_kind_fits,
}
use sqlr.Sql.Table.Keys.{Consistent, new_table-Consistent}
use sqlr.Sql.Table.Config.{Fit, new_table_with_config-Fit}
use sqlr.Cache.{StmtKey, lookup, set, same_key, find, set_in}
use sqlr.Cache.First.{looking, setting, run, run-first}
use sqlr.Sql.Prepare.{Stmt}

check_sql-will_not_delete_example :
    (check_sql (codes "delete from t") ≡ will_not_delete (codes "t")) ↔ (
      (words : List Text) × (collect_words [] (scan_all (sql_scanner (codes "delete from t"))).0
        ≡ some words)
      × Deletes (codes "t") words)
check_sql-will_not_delete_example = check_sql-will_not_delete (codes "delete from t") (codes "t")

abbrev long : Text
long = codes "select a from t"

long_words : 3 < length (scan_all (sql_scanner long)).0
unfolding scan_all scan scan_rune first_rune
long_words = ground arith

abbrev info : Text → Bool → Bool → Info
info name key counted = record {
  name = name;
  field_names = name;
  index = [];
  kind = int_kind;
  tag = record {
    ignore = false;
    name = [];
    primary_key = key;
    auto_increment = counted;
    version = false;
    json = false;
    natural_key = false;
    empty_null = false;
  };
}

abbrev infos : List Info
infos =
    record (info (codes "id") true true) { index = 0 ∷ [] } ∷ info (codes "name") false false ∷ []

abbrev config : ColumnConfigs
config =
    (
      codes "name",
      record {
        column_name = codes "full_name";
        ignore = false;
        primary_key = false;
        auto_increment = false;
        version = false;
        empty_null = false;
        json = false;
        natural_key = true;
        override_struct_tag = false;
      },
    )
    ∷ []

new_table-Consistent_example : Consistent (new_table config infos)
new_table-Consistent_example = new_table-Consistent config infos

table_accepted : new_table_with_config config infos ≡ configured (new_table config infos)
unfolding new_table_with_config new_table check_fields unknown_field member equal check_table
    add_fields add_field config_of add_column configure version_kind_fits
table_accepted = refl

new_table_with_config-Fit_example :
    (new_table config infos ≡ new_table config infos)
    × All (λ c. member c.0 (map (λ i. i.field_names) infos) ≡ true) config
    × Fit (new_table config infos)
new_table_with_config-Fit_example =
    new_table_with_config-Fit config infos (new_table config infos) table_accepted

abbrev columns : List Column
columns = (new_table config infos).cols

abbrev values : ColumnList
values = record (new_columns columns) { clause = insert_values }

render-counter_example :
    (render postgres values 3).1
    ≡ 3 + (if is_input values.clause then length (filtered values) else 0)
render-counter_example = render-counter postgres values 3

abbrev pub ctx : Context
ctx = record { dialect = mysql; columns = columns; identifiers = none }

-- A query with one placeholder, prepared
abbrev pub progress : Progress
progress = record start { buf = codes "a=?"; counter = 1; inputs = from_arg 0 ∷ []; arg_count = 1 }

pub query_scanned : scan_sql ctx (codes "a=?") ≡ ok progress
unfolding scan_sql scan_tokens scan_all scan scan_rune first_rune trim_space scan_token scan_ident
    is_quoted is_quoted_in is_quoted_by scan_word next_clause step_clause keyword_of equal
    query_type rename scan_placeholder placeholder lower
query_scanned = refl

scan_sql-Balanced_example : Balanced progress
scan_sql-Balanced_example = scan_sql-Balanced ctx (codes "a=?") query_scanned

abbrev id_column : Column
id_column = record {
  column_name = codes "id";
  primary_key = true;
  auto_increment = true;
  version = false;
  json = false;
  natural_key = false;
  empty_null = false;
  field_names = codes "id";
  index = 0 ∷ [];
  kind = int_kind;
}

abbrev id_context : Context
id_context = record { dialect = mysql; columns = id_column ∷ []; identifiers = none }

abbrev stmt : Stmt
stmt = record {
  progress = record start { clause = insert_columns; buf = codes "insert"; query_type = insert };
  auto_incr_column = some id_column;
}

abbrev cache_key : StmtKey
cache_key = record { row_type = 1; query = codes "q" }

key_set : lookup (set {V = ℕ} none cache_key 5).1 cache_key ≡ some 5
unfolding lookup set find set_in same_key equal
key_set = refl

run-first_example :
    (lookup
        (run (set {V = ℕ} none cache_key 5).1 (setting cache_key 6 ∷ looking cache_key ∷ []))
        cache_key
      ≡ some 5)
    × ((set
          (run (set {V = ℕ} none cache_key 5).1 (setting cache_key 6 ∷ looking cache_key ∷ []))
          cache_key
          7).0
        ≡ 5)
run-first_example =
    run-first (set {V = ℕ} none cache_key 5).1 (setting cache_key 6 ∷ looking cache_key ∷ [])
      cache_key 7 5 key_set

keywords_lowered : Lowered
unfolding trim_space lower
keywords_lowered = (refl, (refl, (refl, (refl, tt))))

parse_terminates_example :
    parse (new_columns columns) insert_columns (codes "all exclude id, name") ≢ failed out_of_fuel
parse_terminates_example =
    parse_terminates (new_columns columns) insert_columns (codes "all exclude id, name")
      keywords_lowered
