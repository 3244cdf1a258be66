-- ===== src/Dialect.antt =====
-- private/dialect/dialect.go: how each SQL dialect quotes names and writes placeholders.
pub mod Idempotent
use sqlr.Prelude.{
  ℕ, Bool, true, false, ◌||◌, List, [], ◌∷◌, ◌++◌, map, Option, none, some, Text, codes, equal,
  if◌then◌else◌,
}
use sqlr.Go.Strings.{contains_rune, trim_left, trim_right, split, join}
use sqlr.Go.Strconv.{itoa}

-- The struct `Dialect`; a nil `placeholderFunc` is `none`.
pub record Dialect : Type 0 where
  pub driver_types : List Text
  pub quote_func : Text → Text
  pub placeholder_func : Option (ℕ → Text)

-- one part of a name, between periods
unfoldable pub quote_part : Text → Text → Text → Text
quote_part begin end n =
    let n' = trim_left (contains_rune (codes "\"`[ \t" ++ begin)) n in
    begin ++ (trim_right (contains_rune (codes "\"`] \t" ++ end)) n' ++ end)

-- `quoteFunc`
unfoldable pub quote_func : Text → Text → Text → Text
quote_func begin end name = join (map (quote_part begin end) (split b'.' name)) (codes ".")

-- the methods `Quote`, `Placeholder` and `Match`
abbrev pub quote : Dialect → Text → Text
quote d = d.quote_func

unfoldable pub placeholder : Dialect → ℕ → Text
placeholder d n = elim d.placeholder_func [ none ↦ codes "?" | some f ↦ f n ]

unfoldable pub one_of : Text → List Text → Bool
one_of x [] = false
one_of x (t ∷ ts) = if equal x t then true else one_of x ts

-- on the name of the driver's type
unfoldable pub match : Dialect → Text → Bool
unfolding one_of
match d driver_type = one_of driver_type d.driver_types

-- `placeholderFunc("$%d")`
unfoldable pub dollar : ℕ → Text
dollar n = codes "$" ++ itoa n

abbrev pub ansi : Dialect
ansi = record {
  driver_types = [];
  quote_func = quote_func (codes "\"") (codes "\"");
  placeholder_func = none;
}

abbrev pub mssql : Dialect
mssql = record {
  driver_types = codes "*mssql.MssqlDriver" ∷ [];
  quote_func = quote_func (codes "[") (codes "]");
  placeholder_func = none;
}

abbrev pub mysql : Dialect
mysql = record {
  driver_types = codes "*mysql.MySQLDriver" ∷ [];
  quote_func = quote_func (codes "`") (codes "`");
  placeholder_func = none;
}

abbrev pub sqlite : Dialect
sqlite = record {
  driver_types = codes "*sqlite3.SQLiteDriver" ∷ [];
  quote_func = quote_func (codes "`") (codes "`");
  placeholder_func = none;
}

abbrev pub postgres : Dialect
postgres = record {
  driver_types = codes "*pq.Driver" ∷ [];
  quote_func = quote_func (codes "\"") (codes "\"");
  placeholder_func = some dollar;
}
