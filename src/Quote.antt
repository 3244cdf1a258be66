-- ===== src/Quote.antt =====
-- private/scanner/quote.go: quoted identifiers and literals. Lengths are counted in runes; Go
-- counts bytes, which tells the same apart: a quote pair is two ASCII characters, and a text of
-- one rune that begins with one of them has one byte.
pub mod RoundTrip
pub mod Lexing
use sqlr.Prelude.{
  ℕ, ◌+◌, ◌-◌, Bool, true, false, ◌&&◌, List, [], ◌∷◌, ◌++◌, Text, codes, leb, if◌then◌else◌,
  length, take, drop,
}
use sqlr.Go.Strings.{has_prefix, has_suffix, replace}

pub record QuotePair : Type 0 where
  pub start : Text
  pub end : Text
  pub min_len : ℕ
  pub escaped_end : Text

abbrev pub new_quote_pair : Text → Text → QuotePair
new_quote_pair start end = record {
  start = start;
  end = end;
  min_len = length start + length end;
  escaped_end = end ++ end;
}

-- the method `isQuoted`
unfoldable pub is_quoted_by : QuotePair → Text → Bool
unfolding has_prefix has_suffix
is_quoted_by qp s = leb qp.min_len (length s) && has_prefix s qp.start && has_suffix s qp.end

-- the method `unQuote`
unfoldable pub un_quote : QuotePair → Text → Text
un_quote qp s =
    replace (drop (length qp.start) (take (length s - length qp.end) s)) qp.escaped_end qp.end

abbrev pub quote_pairs : List QuotePair
quote_pairs =
    new_quote_pair (codes "\"") (codes "\"")
    ∷ new_quote_pair (codes "`") (codes "`")
    ∷ new_quote_pair (codes "[") (codes "]")
    ∷ new_quote_pair (codes "'") (codes "'")
    ∷ new_quote_pair (codes "{") (codes "}")
    ∷ []

unfoldable pub is_quoted_in : List QuotePair → Text → Bool
is_quoted_in [] s = false
is_quoted_in (qp ∷ qps) s = if is_quoted_by qp s then true else is_quoted_in qps s

unfoldable pub is_quoted : Text → Bool
is_quoted = is_quoted_in quote_pairs

unfoldable pub unquote_in : List QuotePair → Text → Text
unquote_in [] s = s
unquote_in (qp ∷ qps) s = if is_quoted_by qp s then un_quote qp s else unquote_in qps s

unfoldable pub unquote : Text → Text
unquote = unquote_in quote_pairs

unfoldable pub quote : Text → Text → Text → Text
quote s start end = start ++ (replace (unquote s) end (end ++ end) ++ end)
