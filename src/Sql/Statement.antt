-- ===== src/Sql/Statement.antt =====
-- stmt.go: preparing a statement (`scanSQL`, `addInputColumns`, `newStmt`).
pub mod Inputs
use sqlr.Prelude.{
  Result, ok, err, ◌>>=◌, ℕ, zero, suc, ◌+◌, Bool, true, false, not, ◌&&◌, ◌||◌, List, [], ◌∷◌,
  ◌++◌, map, Option, none, some, Text, codes, equal, ◌==◌, ◌≡◌, refl, if◌then◌else◌, length,
}
use sqlr.Go.Unicode.{Unicode}
use sqlr.Go.Strings.{trim_space}
use sqlr.Dialect.{Dialect, placeholder, quote as quote_name}
use sqlr.NameMap
use sqlr.NameMap.{NameMap}
use sqlr.Quote.{is_quoted, unquote}
use sqlr.Scanner.{Token, ws, comment, literal, op, ident, new}
use sqlr.Scanner.Stream.{Lexed, scan_all}
use sqlr.Sql.Clause.{
  Clause, no_clause, insert_values, insert_columns, QueryType, unknown, query_type, is_input,
  accepts_columns, is_insert_columns, next_clause,
}
use sqlr.Sql.Columns.{
  Column, ColumnList, new_columns, filtered, render, ParseError, parsed, failed, Parsed, parse,
}

-- `inputSource`: a nil column is an index into the arguments.
pub data InputSource : Type 0 where
  from_column : Column → InputSource
  from_arg : ℕ → InputSource

-- What `scanSQL` reads of the schema and the table.
pub record Context : Type 0 where
  pub dialect : Dialect
  pub columns : List Column
  pub identifiers : Option NameMap

-- The variables of `scanSQL`, and the fields of the statement that it writes.
pub record Progress : Type 0 where
  pub clause : Clause
  pub buf : Text
  pub counter : ℕ
  pub inserted : Option ColumnList
  pub inputs : List InputSource
  pub arg_count : ℕ
  pub query_type : QueryType

abbrev pub start : Progress
start = record {
  clause = no_clause;
  buf = [];
  counter = 0;
  inserted = none;
  inputs = [];
  arg_count = 0;
  query_type = unknown;
}

pub data Error : Type 0 where
  not_here : Text → Clause → Error
  must_match : Error
  insert_missing : Error
  not_columns : Text → Clause → ParseError → Error

-- `renameIdent`, and the local function `rename`
unfoldable pub rename : Option NameMap → Text → Text
rename none name = name
rename (some m) name = elim (NameMap.lookup name m) [ none ↦ name | some new_name ↦ new_name ]

-- `addInputColumns`
unfoldable pub input_columns : ColumnList → List InputSource
unfolding filtered is_input
input_columns cols = if is_input cols.clause then map from_column (filtered cols) else []

abbrev pub write : Progress → Text → Progress
write p text = record p { buf = p.buf ++ text }

-- Write a column list, and note the columns that are inputs.
unfoldable pub write_columns : Dialect → ColumnList → Progress → Progress
write_columns d cols p =
    let (text, counter) = render d cols p.counter in
    record p { buf = p.buf ++ text; counter = counter; inputs = p.inputs ++ input_columns cols }

abbrev pub is_insert_values : Clause → Bool
is_insert_values insert_values = true
is_insert_values _ = false

abbrev pub starts_with : ℕ → Text → Bool
starts_with c [] = false
starts_with c (x ∷ s) = x == c

abbrev pub if_unknown : QueryType → QueryType → QueryType
if_unknown unknown q = q
if_unknown known q = known

-- `case scanner.PLACEHOLDER`
unfoldable pub scan_placeholder : Context → Progress → Progress
scan_placeholder ctx p = record p {
  buf = p.buf ++ placeholder ctx.dialect (suc p.counter);
  counter = suc p.counter;
  inputs = p.inputs ++ from_arg p.arg_count ∷ [];
  arg_count = suc p.arg_count;
}

-- `{}` in the values clause: the columns of the insert clause
unfoldable pub expand_values : Context → Progress → Text → Result Error Progress
expand_values ctx p [] = elim p.inserted [
  | none ↦ err insert_missing
  | some cols ↦ ok (write_columns ctx.dialect (record cols { clause = insert_values }) p)
]
expand_values ctx p (c ∷ lit) = err must_match

-- `{…}` in another clause
unfoldable pub expand_parsed : Context → Progress → Text → Parsed → Result Error Progress
expand_parsed ctx p lit (failed e) = err (not_columns lit p.clause e)
expand_parsed ctx p lit (parsed cols) =
    let p' = write_columns ctx.dialect cols p in
    ok (record p' { inserted = if is_insert_columns p.clause then some cols else p.inserted })

module _ ⦃u : Unicode⦄ where
  unfoldable pub expand_columns : Context → Progress → Text → Result Error Progress
  expand_columns ctx p lit =
      let inside = trim_space (unquote lit) in
      if not (accepts_columns p.clause)
      then err (not_here lit p.clause)
      else if is_insert_values p.clause
      then expand_values ctx p inside
      else expand_parsed ctx p inside (parse (new_columns ctx.columns) p.clause inside)

  -- an identifier that is not quoted, which may be a keyword of SQL
  unfoldable pub scan_word : Context → Progress → Text → Progress
  scan_word ctx p lit =
      let name = rename ctx.identifiers lit in
      let clause = next_clause p.clause name in
      record p {
        buf = p.buf ++ name;
        clause = clause;
        query_type = if_unknown p.query_type (query_type clause);
      }

  -- `case scanner.IDENT`
  unfoldable pub scan_ident : Context → Progress → Text → Result Error Progress
  scan_ident ctx p lit =
      if starts_with b'{' lit
      then expand_columns ctx p lit
      else if is_quoted lit
      then ok (write p (quote_name ctx.dialect (rename ctx.identifiers (unquote lit))))
      else ok (scan_word ctx p lit)

  -- one turn of the loop of `scanSQL`
  unfoldable pub scan_token : Context → Lexed → Progress → Result Error Progress
  scan_token ctx (ws, lit) p = ok (write p (codes " "))
  scan_token ctx (comment, lit) p = ok p
  scan_token ctx (literal, lit) p = ok (write p lit)
  scan_token ctx (op, lit) p = ok (write p lit)
  scan_token ctx (Token.placeholder, lit) p = ok (scan_placeholder ctx p)
  scan_token ctx (ident, lit) p = scan_ident ctx p lit
  scan_token ctx (tok, lit) p = ok p

  unfoldable pub scan_tokens : Context → List Lexed → Progress → Result Error Progress
  scan_tokens ctx [] p = ok p
  scan_tokens ctx (t ∷ ts) p = do p' ← scan_token ctx t p; scan_tokens ctx ts p'

  -- `scanSQL`; the query is the buffer, trimmed
  unfoldable pub scan_sql : Context → Text → Result Error Progress
  scan_sql ctx query = do
    p ← scan_tokens ctx (scan_all (new (trim_space query))).0 start
    ok (record p { buf = trim_space p.buf })
