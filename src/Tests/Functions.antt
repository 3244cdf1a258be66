-- ===== src/Tests/Functions.antt =====
-- Arguments, outputs, and the functions of `MakeQuery`.
use sqlr.Prelude.{
  true, false, ℕ, err, ok, ◌≡◌, ◌≢◌, refl, List, [], ◌∷◌, some, Text, codes, equal, length,
}
use sqlr.Tests.Ascii.{ascii}
use sqlr.Tests.Schemas.{ctx, progress, query_scanned}
use sqlr.Tests.Sessions.{Value, int, go_values, row, id, version}
use sqlr.Go.Strings.{lower}
use sqlr.Go.Maps.{get, put, remove}
use sqlr.Go.Types.{
  GoType, basic, ptr_to, func_of, no_types, more, int_kind, struct_kind, error_type, is_struct,
  is_slice,
}
use sqlr.Go.Ints.{Fits}
use sqlr.Cells.{Driver, int_value}
use sqlr.Scanner.{scan, scan_rune, first_rune}
use sqlr.Quote.{unquote, unquote_in, is_quoted_by}
use sqlr.Go.Strings.{trim_space}
use sqlr.Sql.Table.{TagInfo}
use sqlr.Tags.{name_from_tag_value, name_loop, on_name_token, parse_value}
use sqlr.Tags.Agreement.{name_from_tag_value-parse_value}
use sqlr.Wherein.{Arg, scalar}
use sqlr.Sql.Columns.{Column}
use sqlr.Sql.Execute.{panic_index, get_args, input_args, input_arg, arg_at}
use sqlr.Sql.Execute.Sent.{passed, get_args-in_range, get_args-passed}
use sqlr.Sql.Outputs.{
  Outputs, add_columns, match_outputs, match_exact, match_folded, lower_map, all_known, all_used,
}
use sqlr.Sql.Outputs.Equal.{IsOutput}
use sqlr.Sql.Outputs.Fits.{Filled}
use sqlr.Sql.Outputs.Matched.{match_outputs-ok}
use sqlr.Session.MakeQuery.{load_one, make_query}
use sqlr.Session.MakeQuery.Keyed.{loads_one}
use sqlr.Session.MakeQuery.Signatures.{make_query-Signature}
use sqlr.DataLoader.Make.LoadOne.{LoadsOne, make_query-make_load_one}

abbrev argv : List (Arg Value)
argv = scalar (int 8) ∷ []

get_args-in_range_example : get_args go_values (row 1) 0 progress argv ≢ err panic_index
get_args-in_range_example =
    get_args-in_range go_values (row 1) ctx (codes "a=?") 0 argv query_scanned

takes : get_args go_values (row 1) 0 progress argv ≡ ok argv
unfolding get_args input_args input_arg arg_at
takes = refl

get_args-passed_example : (length argv ≡ progress.counter) × (passed progress.inputs argv ≡ argv)
get_args-passed_example =
    get_args-passed go_values (row 1) ctx (codes "a=?") 0 argv argv query_scanned takes

abbrev names : List Text
names = codes "ID" ∷ codes "v" ∷ []

abbrev outputs : Outputs
outputs = some id ∷ some version ∷ []

matches : match_outputs (id ∷ version ∷ []) names ≡ ok outputs
unfolding match_outputs add_columns match_exact match_folded lower_map all_known all_used get put
    remove equal lower
matches = refl

match_outputs-ok_example :
    Filled (add_columns [] (id ∷ version ∷ [])) names outputs
    × ((k : Text) (col : Column)
        → get k (add_columns [] (id ∷ version ∷ [])) ≡ some col
        → IsOutput col outputs)
match_outputs-ok_example = match_outputs-ok (id ∷ version ∷ []) names outputs matches

abbrev int_type : GoType
int_type = basic 0 int_kind

abbrev row_type : GoType
row_type = basic 5 struct_kind

abbrev key_types : GoType → List GoType
key_types t = int_type ∷ []

abbrev gotten : List GoType
gotten = ptr_to 0 row_type ∷ error_type ∷ []

abbrev loaded : List GoType
loaded = func_of 0 false no_types (more (ptr_to 0 row_type) (more error_type no_types)) ∷ []

loads : make_query key_types (int_type ∷ []) loaded ≡ ok (load_one row_type)
unfolding is_struct is_slice
loads =
    (make_query-Signature key_types (int_type ∷ []) loaded (load_one row_type)).1
      (loads_one refl refl refl)

make_query-make_load_one_example : LoadsOne key_types (int_type ∷ []) loaded row_type
make_query-make_load_one_example =
    make_query-make_load_one key_types (int_type ∷ []) loaded row_type loads

abbrev driver : Driver ℕ ℕ
driver = record {
  is_nil = λ v. false;
  null_int64 = λ v. ok (some v);
  null_float64 = λ v. ok (some v);
  null_bool = λ v. ok (some true);
  null_string = λ v. ok (some []);
  float32 = λ n. n;
  as_time = λ v. some v;
  zero_time = 0;
  convert = λ v. ok (int_value v);
}

abbrev tag_value : Text
tag_value = codes "a pk"

named : name_from_tag_value tag_value ≡ codes "a"
unfolding name_from_tag_value name_loop on_name_token scan scan_rune first_rune trim_space lower
    unquote equal unquote_in is_quoted_by
named = refl

not_dash : equal (name_from_tag_value tag_value) (codes "-") ≡ false
unfolding equal
not_dash = rw named refl

name_from_tag_value-parse_value_example :
    (t : TagInfo) × (parse_value (trim_space tag_value) ≡ some t)
    × (t.name ≡ name_from_tag_value tag_value)
name_from_tag_value-parse_value_example =
    name_from_tag_value-parse_value tag_value (rw named refl) not_dash
