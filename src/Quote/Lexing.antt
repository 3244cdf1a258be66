-- ===== src/Quote/Lexing.antt =====
-- The scanner reads a quoted text back as one token.
use sqlr.Prelude.{
  ℕ, true, false, List, [], ◌∷◌, ◌++◌, append_assoc, Text, ◌≡◌, ◌≢◌, inl, inr, refl, ap, ◌∙◌, arith,
  ◌==◌, Bool-cases, All, ◌⊎◌,
}
use sqlr.Go.Unicode.{Unicode, is_space}
use sqlr.Go.Strings.{replace}
use sqlr.Scanner.{
  Token, ident, literal, Scanner, lexeme, eof_rune, read, read_delimited, scan_rune, first_rune,
  skip_space, scan,
}
use sqlr.Scanner.Lossless.{NoNul}
use sqlr.Quote.{QuotePair, new_quote_pair, quote_pairs, unquote, quote}
use sqlr.Quote.RoundTrip.{doubled, replace-doubled, OneOf}

-- A rune inside the quotes, other than the end, is appended.
read_delimited-inside :
    (tok : Token) (e c d : ℕ) (buf t : Text)
    → c ≢ eof_rune
    → (c == e) ≡ false
    → read_delimited tok e buf (c ∷ d ∷ t) ≡ read_delimited tok e (buf ++ c ∷ []) (d ∷ t)
unfolding read_delimited
read_delimited-inside tok e c d buf t n h = ground arith

read_delimited-next :
    (tok : Token) (e c : ℕ) (buf s rest : Text)
    → c ≢ eof_rune
    → (c == e) ≡ false
    → read_delimited tok e buf (c ∷ (doubled e s ++ (e ∷ rest)))
      ≡ read_delimited tok e (buf ++ c ∷ []) (doubled e s ++ (e ∷ rest))
unfolding doubled
read_delimited-next tok e c buf [] rest n h = read_delimited-inside tok e c e buf rest n h
read_delimited-next tok e c buf (d ∷ s) rest n h = elim (Bool-cases (d == e)) [
  | inl same ↦ rw same (read_delimited-inside tok e c e buf _ n h)
  | inr other ↦ rw other (read_delimited-inside tok e c d buf _ n h)
]

read_delimited-end :
    (tok : Token) (e : ℕ) (buf rest : Text)
    → e ≢ eof_rune
    → NoNul rest
    → (read rest).0 ≢ e
    → read_delimited tok e buf (e ∷ rest) ≡ lexeme tok (buf ++ e ∷ [], rest)
unfolding read_delimited
read_delimited-end tok e buf [] n h other = ground arith
read_delimited-end tok e buf (d ∷ rest) n h other = ground arith

read_delimited-escape :
    (tok : Token) (e : ℕ) (buf t : Text)
    → e ≢ eof_rune
    → read_delimited tok e buf (e ∷ e ∷ t) ≡ read_delimited tok e (buf ++ e ∷ e ∷ []) t
unfolding read_delimited
read_delimited-escape tok e buf t n = ground arith

read_delimited-doubled :
    (tok : Token) (e : ℕ) (buf s rest : Text)
    → e ≢ eof_rune
    → NoNul s
    → NoNul rest
    → (read rest).0 ≢ e
    → read_delimited tok e buf (doubled e s ++ (e ∷ rest))
      ≡ lexeme tok (buf ++ (doubled e s ++ e ∷ []), rest)
unfolding doubled
read_delimited-doubled tok e buf [] rest n hs hr other =
    read_delimited-end tok e buf rest n hr other
read_delimited-doubled tok e buf (c ∷ s) rest n hs hr other = elim (Bool-cases (c == e)) [
  | inl same ↦ rw same (
      read_delimited-escape tok e buf _ n
      ∙ read_delimited-doubled tok e (buf ++ e ∷ e ∷ []) s rest n hs.1 hr other
      ∙ rw append_assoc)
  | inr differs ↦ rw differs (
      read_delimited-next tok e c buf s rest hs.0 differs
      ∙ read_delimited-doubled tok e (buf ++ c ∷ []) s rest n hs.1 hr other
      ∙ rw append_assoc)
]

module _ ⦃u : Unicode⦄ where
  first_rune-plain :
      (s : Scanner) (c : ℕ) (r : Text) → s.r ≡ c ∷ r → is_space c ≡ false → first_rune s ≡ (c, r)
  unfolding first_rune skip_space
  first_rune-plain s c r e h = elim (Bool-cases s.ignore_white_space) [
    | inl ignoring ↦ rw (ignoring, e, h)
    | inr verbatim ↦ rw (verbatim, e)
  ]

  -- The scan finds a token with this text, and leaves the rest.
  pub record Reads (s : Scanner) (text rest : Text) : Type 0 where
    pub more : (scan s).1 ≡ true
    pub text_is : (scan s).0.text ≡ text
    pub rest_is : (scan s).0.r ≡ rest

  Reads-lexeme :
      (s : Scanner) (tok : Token) (c : ℕ) (r text rest : Text)
      → (tok ≡ ident) ⊎ (tok ≡ literal)
      → first_rune s ≡ (c, r)
      → scan_rune s.keywords c r ≡ lexeme tok (text, rest)
      → Reads s text rest
  unfolding scan
  Reads-lexeme s tok c r text rest (inl k) f e = record {
    more = rw (f, e, k);
    text_is = rw (f, e, k);
    rest_is = rw (f, e, k);
  }
  Reads-lexeme s tok c r text rest (inr k) f e = record {
    more = rw (f, e, k);
    text_is = rw (f, e, k);
    rest_is = rw (f, e, k);
  }

  -- A style of quoting, by its two runes, and the token that the scanner makes of it.
  record Style (tok : Token) (a b : ℕ) : Type 0 where
    token_is : (tok ≡ ident) ⊎ (tok ≡ literal)
    end_ne : b ≢ eof_rune
    scans :
        (ks : List Text) (r : Text)
        → is_space a ≡ false
        → scan_rune ks a r ≡ read_delimited tok b (a ∷ []) r

  Reads-style :
      (tok : Token) (a b : ℕ) (s : Scanner) (x rest : Text)
      → Style tok a b
      → is_space a ≡ false
      → NoNul x
      → NoNul rest
      → (read rest).0 ≢ b
      → s.r ≡ a ∷ ((replace x (b ∷ []) (b ∷ b ∷ []) ++ b ∷ []) ++ rest)
      → Reads s (a ∷ (replace x (b ∷ []) (b ∷ b ∷ []) ++ b ∷ [])) rest
  Reads-style tok a b s x rest style plain hx hr other e =
      let split : s.r ≡ a ∷ (doubled b x ++ (b ∷ rest)) =
        e ∙ ap (◌∷◌ a) (append_assoc _ (b ∷ []) rest ∙ rw (replace-doubled b x)) in
      rw (replace-doubled b x) (
        Reads-lexeme s tok a (doubled b x ++ (b ∷ rest)) _ rest style.token_is
          (first_rune-plain s a _ split plain)
          (style.scans s.keywords _ plain
            ∙ read_delimited-doubled tok b (a ∷ []) x rest style.end_ne hx hr other))

  double_quotes : Style ident b'"' b'"'
  unfolding scan_rune
  double_quotes = record { token_is = inl refl; end_ne = omega arith; scans = λ ks r h. rw h }

  backticks : Style ident b'`' b'`'
  unfolding scan_rune
  backticks = record { token_is = inl refl; end_ne = omega arith; scans = λ ks r h. rw h }

  brackets : Style ident b'[' b']'
  unfolding scan_rune
  brackets = record { token_is = inl refl; end_ne = omega arith; scans = λ ks r h. rw h }

  apostrophes : Style literal b'\'' b'\''
  unfolding scan_rune
  apostrophes = record { token_is = inr refl; end_ne = omega arith; scans = λ ks r h. rw h }

  braces : Style ident b'{' b'}'
  unfolding scan_rune
  braces = record { token_is = inl refl; end_ne = omega arith; scans = λ ks r h. rw h }

  module _ (s : Scanner) (qp : QuotePair) (x rest : Text) where
    Scans : Type 0
    Scans =
        All (λ c. is_space c ≡ false) qp.start
        → NoNul (unquote x)
        → NoNul rest
        → (read rest).0 ∷ [] ≢ qp.end
        → s.r ≡ quote x qp.start qp.end ++ rest
        → Reads s (quote x qp.start qp.end) rest

    Scans-style :
        (tok : Token) (a b : ℕ) → Style tok a b → qp ≡ new_quote_pair (a ∷ []) (b ∷ []) → Scans
    unfolding Scans quote
    Scans-style tok a b style e plain hx hr other split =
        let start : is_space a ≡ false = (rw e at plain).0 in
        let split' : s.r ≡ a ∷ ((replace (unquote x) (b ∷ []) (b ∷ b ∷ []) ++ b ∷ []) ++ rest) =
          rw e at split in
        rw e (
          Reads-style tok a b s (unquote x) rest style start hx hr
            (λ same. other (rw e (ap (λ c. c ∷ []) same))) split')

    -- At a text that `Quote` wrote, in a style of the table, a scan finds one token whose text is
    -- that text, and leaves what follows. What follows must not begin with the end quote, the
    -- runes must not be NUL, and the first rune must not count as white space.
    pub scan-quote :
        OneOf qp quote_pairs
        → All (λ c. is_space c ≡ false) qp.start
        → NoNul (unquote x)
        → NoNul rest
        → (read rest).0 ∷ [] ≢ qp.end
        → s.r ≡ quote x qp.start qp.end ++ rest
        → Reads s (quote x qp.start qp.end) rest
    unfolding Scans
    scan-quote (inl e) = Scans-style ident b'"' b'"' double_quotes e
    scan-quote (inr (inl e)) = Scans-style ident b'`' b'`' backticks e
    scan-quote (inr (inr (inl e))) = Scans-style ident b'[' b']' brackets e
    scan-quote (inr (inr (inr (inl e)))) = Scans-style literal b'\'' b'\'' apostrophes e
    scan-quote (inr (inr (inr (inr (inl e))))) = Scans-style ident b'{' b'}' braces e
    scan-quote (inr (inr (inr (inr (inr h))))) = elim h [ ]
