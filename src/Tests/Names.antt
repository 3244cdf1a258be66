-- ===== src/Tests/Names.antt =====
-- Scanning, quoting and naming.
use sqlr.Prelude.{
  true, false, [], ◌∷◌, ◌++◌, none, some, Text, codes, ◌≡◌, refl, inl, inr, arith, All,
}
use sqlr.Tests.Ascii.{ascii, clean, clean-NoNul}
use sqlr.Go.Strings.{replace}
use sqlr.Scanner.{new, scan, scan_rune, first_rune}
use sqlr.Scanner.Stream.{scan_all, spelling, Run, scan_all-Run}
use sqlr.Scanner.Stream.Lossless.{scan_all-lossless}
use sqlr.Quote.{QuotePair, new_quote_pair, quote, unquote, unquote_in, is_quoted_by}
use sqlr.Quote.RoundTrip.{unquote-quote}
use sqlr.Quote.Lexing.{Reads, scan-quote}
use sqlr.Dialect
use sqlr.Dialect.{ansi, mssql, mysql, sqlite, postgres}
use sqlr.Dialect.Idempotent.{quote_idem}
use sqlr.Naming.{snake_convert}
use sqlr.Naming.Snake.{Settled, Split, snake_convert-Split}
use sqlr.NameMap
use sqlr.NameMap.{NameMap, new_map, add, Built, fresh, derived, added, Built-lookup}

abbrev statement : Text
statement = codes "select a, 'b' from t where id=?"

scan_all-lossless_example :
    (spelling (scan_all (new statement)).0
        ++ ((scan_all (new statement)).1.text ++ (scan_all (new statement)).1.r)
      ≡ statement)
    × ((scan_all (new statement)).1.err ≡ none → spelling (scan_all (new statement)).0 ≡ statement)
scan_all-lossless_example = scan_all-lossless (new statement) (clean-NoNul statement refl) refl

scan_all-Run_example : Run (new statement) (scan_all (new statement)).0 (scan_all (new statement)).1
scan_all-Run_example = scan_all-Run (new statement)

first_more : (scan (new statement)).1 ≡ true
unfolding scan scan_rune first_rune
first_more = refl

open_fails : (scan (new (codes "'it"))).1 ≡ false
unfolding scan scan_rune first_rune
open_fails = refl

abbrev brackets : QuotePair
brackets = new_quote_pair (codes "[") (codes "]")

unquote-quote_example :
    unquote (quote (codes "a]b") (codes "[") (codes "]")) ≡ unquote (codes "a]b")
unquote-quote_example = unquote-quote brackets (codes "a]b") (inr (inr (inl refl)))

quote_idem_example :
    (Dialect.quote ansi (Dialect.quote ansi (codes "a.[b]")) ≡ Dialect.quote ansi (codes "a.[b]"))
    × (Dialect.quote mssql (Dialect.quote mssql (codes "a.[b]"))
        ≡ Dialect.quote mssql (codes "a.[b]"))
    × (Dialect.quote mysql (Dialect.quote mysql (codes "a.[b]"))
        ≡ Dialect.quote mysql (codes "a.[b]"))
    × (Dialect.quote sqlite (Dialect.quote sqlite (codes "a.[b]"))
        ≡ Dialect.quote sqlite (codes "a.[b]"))
    × (Dialect.quote postgres (Dialect.quote postgres (codes "a.[b]"))
        ≡ Dialect.quote postgres (codes "a.[b]"))
quote_idem_example = quote_idem (codes "a.[b]")

letters-Settled : All (λ c. Settled (ascii.to_lower c)) (codes "UserID")
letters-Settled = (
  (refl, refl),
  ((refl, refl), ((refl, refl), ((refl, refl), ((refl, refl), ((refl, refl), tt))))),
)

-- `user_id`
snake_convert-Split_example :
    Split (codes "Use") b'r' b'I' (codes "D") (snake_convert (codes "UserID"))
snake_convert-Split_example = snake_convert-Split (codes "Use") b'r' b'I' (codes "D")

-- A name that is added over a map that has another
abbrev renames : NameMap
renames = add (codes "b") (codes "d") (new_map (some (add (codes "a") (codes "c") (new_map none))))

renames_built : Built ((codes "b", codes "d") ∷ ((codes "a", codes "c") ∷ [])) renames
renames_built = added _ _ (derived (added _ _ fresh))

Built-lookup_example :
    NameMap.lookup (codes "a") renames
    ≡ NameMap.get (codes "a") ((codes "b", codes "d") ∷ ((codes "a", codes "c") ∷ []))
Built-lookup_example = Built-lookup (codes "a") renames_built

unquoted : clean (unquote (codes "a]b")) ≡ true
unfolding unquote unquote_in is_quoted_by
unquoted = refl

written : codes "[a]]b] = 1" ≡ quote (codes "a]b") (codes "[") (codes "]") ++ codes " = 1"
unfolding quote unquote unquote_in is_quoted_by replace
written = refl

scan-quote_example :
    Reads (new (codes "[a]]b] = 1")) (quote (codes "a]b") (codes "[") (codes "]")) (codes " = 1")
scan-quote_example =
    scan-quote (new (codes "[a]]b] = 1")) brackets (codes "a]b") (codes " = 1")
      (inr (inr (inl refl))) (refl, tt) (clean-NoNul _ unquoted) (clean-NoNul (codes " = 1") refl)
      (ground arith) written
