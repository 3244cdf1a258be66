-- ===== src/Sql/Columns.antt =====
-- column_list.go, and the struct `Column` of table.go: the columns that stand in a clause.
pub mod Counting
pub mod Terminates
pub mod Keywords
use sqlr.Prelude.{
  ℕ, zero, suc, ◌+◌, Bool, true, false, not, ◌&&◌, ◌||◌, List, [], ◌∷◌, ◌++◌, Option, none, some,
  Text, codes, equal, if◌then◌else◌, keep, length,
}
use sqlr.Go.Unicode.{Unicode}
use sqlr.Go.Strings.{lower}
use sqlr.Dialect.{Dialect, placeholder, quote as quote_name}
use sqlr.Scanner.{Token, eof, keyword, Scanner, scan, new, add_keywords}
use sqlr.Sql.Clause.{
  Clause, select_columns, select_where, select_order_by, insert_columns, insert_values, update_set,
  update_where, delete_where,
}

-- The kind of a field's type, as far as a version column needs it.
pub data Kind : Type 0 where
  int_kind int32_kind int64_kind other_kind : Kind

-- `info` is there by the field's path, its index sequence and its
-- kind.
pub record Column : Type 0 where
  pub column_name : Text
  pub primary_key : Bool
  pub auto_increment : Bool
  pub version : Bool
  pub json : Bool
  pub natural_key : Bool
  pub empty_null : Bool
  pub field_names : Text
  pub index : List ℕ
  pub kind : Kind

abbrev pub ColumnFilter : Type 0
ColumnFilter = Column → Bool

abbrev pub column_filter_all : ColumnFilter
column_filter_all col = true

abbrev pub column_filter_pk : ColumnFilter
column_filter_pk col = col.primary_key

abbrev pub column_filter_insertable : ColumnFilter
column_filter_insertable col = not col.auto_increment

abbrev pub column_filter_updateable : ColumnFilter
column_filter_updateable col = not col.primary_key && not col.auto_increment

-- the method `defaultFilter` of a clause
unfoldable pub default_filter : Clause → ColumnFilter
default_filter select_where = column_filter_pk
default_filter select_order_by = column_filter_pk
default_filter update_where = column_filter_pk
default_filter delete_where = column_filter_pk
default_filter insert_columns = column_filter_insertable
default_filter insert_values = column_filter_insertable
default_filter update_set = column_filter_updateable
default_filter _ = column_filter_all

-- `columnList`; a nil filter is `none`
pub record ColumnList : Type 0 where
  pub all_columns : List Column
  pub filter : Option ColumnFilter
  pub clause : Clause
  pub alias : Text
  pub exclude : List Text

abbrev pub new_columns : List Column → ColumnList
new_columns cols = record {
  all_columns = cols;
  filter = none;
  clause = select_columns;
  alias = [];
  exclude = [];
}

unfoldable pub member : Text → List Text → Bool
member x [] = false
member x (y ∷ ys) = equal x y || member x ys

unfoldable pub passes : Option ColumnFilter → Column → Bool
passes none col = true
passes (some f) col = f col

unfoldable pub filtered : ColumnList → List Column
unfolding member passes
filtered cols =
    keep (λ col. passes cols.filter col && not (member col.column_name cols.exclude))
      cols.all_columns

-- The errors of `Parse`. `out_of_fuel` belongs to the model only.
pub data ParseError : Type 0 where
  missing_ident missing_column out_of_fuel : ParseError
  scan_error : Text → ParseError

pub data Parsed : Type 0 where
  parsed : ColumnList → Parsed
  failed : ParseError → Parsed

-- the switch on a keyword
pub data Word : Type 0 where
  alias_word all_word pk_word exclude_word other_word : Word

unfoldable pub word_of : Text → Word
word_of w =
    if equal w (codes "alias")
    then alias_word
    else if equal w (codes "all")
    then all_word
    else if equal w (codes "pk")
    then pk_word
    else if equal w (codes "exclude")
    then exclude_word
    else other_word

abbrev pub is_keyword_token : Token → Bool
is_keyword_token keyword = true
is_keyword_token _ = false

abbrev pub is_eof_token : Token → Bool
is_eof_token eof = true
is_eof_token _ = false

-- `return cols2, nil` behind the check of `scan.Err()`
abbrev pub finish : Option Text → ColumnList → Parsed
finish none cols = parsed cols
finish (some e) cols = failed (scan_error e)

module _ ⦃u : Unicode⦄ where
  -- The inner loop behind `exclude`: names with commas between them. It stops at a token that is no
  -- comma, which the outer loop then looks at.
  unfoldable pub exclude_loop : ℕ → Scanner → List Text → Option (Scanner × List Text)
  exclude_loop zero s names = none
  exclude_loop (suc f) s names =
      let (s1, more1) = scan s in
      let (s2, more2) = scan s1 in
      let onward = exclude_loop f s2 (s2.text ∷ names) in
      if not more1
      then some (s1, names)
      else if not (equal s1.text (codes ","))
      then some (s1, names)
      else if not more2
      then some (s2, names)
      else onward

  -- One turn of the outer loop on the current token. `next` is the loop with `needScan` set, and
  -- `again` the loop with the current token.
  unfoldable pub parse_token :
      (Scanner → ColumnList → Parsed)
      → (Scanner → ColumnList → Parsed)
      → Scanner
      → ColumnList
      → Word
      → Parsed
  parse_token next again s cols alias_word =
      let (s', more) = scan s in
      let onward = next s' (record cols { alias = s'.text }) in
      if more then onward else failed missing_ident
  parse_token next again s cols all_word = next s (record cols { filter = some column_filter_all })
  parse_token next again s cols pk_word = next s (record cols { filter = some column_filter_pk })
  parse_token next again s cols exclude_word =
      let (s', more) = scan s in
      let found = exclude_loop (suc (length s'.r)) s' (s'.text ∷ cols.exclude) in
      let onward : Parsed = elim found [
        | none ↦ failed out_of_fuel
        | some (s'', names) ↦ again s'' (record cols { exclude = names })
      ] in
      if more then onward else failed missing_column
  parse_token next again s cols other_word = again s cols

  -- The loop, on fuel. The flag is `needScan`.
  unfoldable pub parse_loop : ℕ → Bool → Scanner → ColumnList → Parsed
  parse_loop zero need s cols = failed out_of_fuel
  parse_loop (suc f) true s cols =
      let (s', more) = scan s in
      let onward = parse_loop f false s' cols in if more then onward else finish s'.err cols
  parse_loop (suc f) false s cols =
      let next = parse_loop f true s cols in
      let turn =
        parse_token (parse_loop f true) (parse_loop f false) s cols (word_of (lower s.text)) in
      if is_eof_token s.token
      then finish s.err cols
      else if is_keyword_token s.token
      then turn
      else next

  abbrev pub column_keywords : List Text
  column_keywords = codes "alias" ∷ codes "all" ∷ codes "pk" ∷ codes "exclude" ∷ []

  abbrev pub column_scanner : Text → Scanner
  column_scanner text =
      add_keywords column_keywords (record (new text) { ignore_white_space = true })

  -- `Parse`; each token takes two turns of the loop at most.
  unfoldable pub parse : ColumnList → Clause → Text → Parsed
  parse cols clause text =
      let cols2 = record cols { clause = clause; filter = some (default_filter clause) } in
      parse_loop (length text + length text + 3) true (column_scanner text) cols2

-- The text between two columns.
unfoldable pub separator : Clause → Text
separator update_where = codes " and "
separator delete_where = codes " and "
separator select_where = codes " and "
separator _ = codes ", "

abbrev pub with_alias : Text → Text → Text
with_alias [] name = name
with_alias (c ∷ alias) name = (c ∷ alias) ++ (codes "." ++ name)

-- One column, from the counter: its text, and the counter behind it.
unfoldable pub column_text : Dialect → Clause → Text → Column → ℕ → Text × ℕ
column_text d select_columns alias col n = (with_alias alias (quote_name d col.column_name), n)
column_text d select_order_by alias col n = (with_alias alias (quote_name d col.column_name), n)
column_text d insert_columns alias col n = (quote_name d col.column_name, n)
column_text d insert_values alias col n = (placeholder d (suc n), suc n)
column_text d update_set alias col n = (
  with_alias alias (quote_name d col.column_name) ++ (codes " = " ++ placeholder d (suc n)),
  suc n,
)
column_text d update_where alias col n = (
  with_alias alias (quote_name d col.column_name) ++ (codes " = " ++ placeholder d (suc n)),
  suc n,
)
column_text d delete_where alias col n = (
  with_alias alias (quote_name d col.column_name) ++ (codes " = " ++ placeholder d (suc n)),
  suc n,
)
column_text d select_where alias col n = (
  with_alias alias (quote_name d col.column_name) ++ (codes " = " ++ placeholder d (suc n)),
  suc n,
)
column_text d _ alias col n = ([], n)

-- The loop of `String`; the flag is `i > 0`.
unfoldable pub columns_text : Dialect → Clause → Text → Bool → List Column → ℕ → Text × ℕ
columns_text d c alias later [] n = ([], n)
columns_text d c alias later (col ∷ cols) n =
    let (text, n') = column_text d c alias col n in
    let (rest, last) = columns_text d c alias true cols n' in
    ((if later then separator c else []) ++ (text ++ rest), last)

-- `String`, from the value of the counter, which it returns as it leaves it
unfoldable pub render : Dialect → ColumnList → ℕ → Text × ℕ
render d cols = columns_text d cols.clause cols.alias false (filtered cols)
