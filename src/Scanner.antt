-- ===== src/Scanner.antt =====
-- private/scanner/scanner.go: the lexical scanner for SQL. The reader is the list of the runes
-- that are left; the program only scans strings, so reading never fails. Every `unread` follows
-- the `read` of the same rune, and puts it back.
pub mod Cases
pub mod Stream
pub mod Lossless
pub mod Progress
use sqlr.Prelude.{
  ℕ, Bool, true, false, not, ◌&&◌, ◌||◌, List, [], ◌∷◌, ◌++◌, Option, none, some, Text, codes, ◌==◌,
  if◌then◌else◌, equal,
}
use sqlr.Go.Unicode.{Unicode, is_space, is_digit, is_letter}
use sqlr.Go.Strings.{contains_rune, trim_space, lower}

pub data Token : Type 0 where
  illegal eof ws comment ident keyword literal op placeholder : Token

abbrev pub eof_rune : ℕ
eof_rune = 0

abbrev pub multi_char_operators : Text
multi_char_operators = codes "%&*+-/:<=>^|@!~#"

abbrev pub single_char_operators : Text
single_char_operators = codes "(),;"

pub record Scanner : Type 0 where
  pub ignore_white_space : Bool
  pub r : Text
  pub keywords : List Text
  pub err : Option Text
  pub token : Token
  pub text : Text

-- `New`, on the runes of a string
abbrev pub new : Text → Scanner
new r = record {
  ignore_white_space = false;
  r = r;
  keywords = [];
  err = none;
  token = illegal;
  text = [];
}

-- What one scan finds: the arguments of its call of `setToken`, and what is left to read.
pub record Lexeme : Type 0 where
  pub token : Token
  pub text : Text
  pub rest : Text

abbrev pub lexeme : Token → Text × Text → Lexeme
lexeme tok (text, rest) = record { token = tok; text = text; rest = rest }

abbrev pub read : Text → ℕ × Text
read [] = (eof_rune, [])
read (c ∷ r) = (c, r)

abbrev pub unread : ℕ → Text → Text
unread c r = if c == eof_rune then r else c ∷ r

-- `for { ch := read(); … }` of `scanWhitespace`, `scanIdentifier`, `scanOperator` and
-- `scanPlaceholder`: append to `buf` while the runes pass the test.
unfoldable pub read_while : (ℕ → Bool) → Text → Text → Text × Text
read_while p buf [] = (buf, [])
read_while p buf (c ∷ r) =
    let more = read_while p (buf ++ c ∷ []) r in
    if c == eof_rune then (buf, r) else if p c then more else (buf, c ∷ r)

unfoldable pub read_comment : Text → Text → Text × Text
read_comment buf [] = (buf, [])
read_comment buf (c ∷ r) =
    let more = read_comment (buf ++ c ∷ []) r in
    if c == eof_rune then (buf, r) else if c == b'\n' then (buf ++ c ∷ [], r) else more

-- The loops of `scanDelimitedIdentifier` and `scanQuote`: a doubled end is an escape.
unfoldable pub read_delimited : Token → ℕ → Text → Text → Lexeme
read_delimited tok end buf [] = lexeme illegal (buf, [])
read_delimited tok end buf (c ∷ []) =
    if c == eof_rune
    then lexeme illegal (buf, [])
    else lexeme (if c == end then tok else illegal) (buf ++ c ∷ [], [])
read_delimited tok end buf (c ∷ d ∷ r) =
    let onward = read_delimited tok end (buf ++ c ∷ []) (d ∷ r) in
    let escaped = read_delimited tok end (buf ++ c ∷ d ∷ []) r in
    if c == eof_rune
    then lexeme illegal (buf, d ∷ r)
    else if not (c == end)
    then onward
    else if d == end
    then escaped
    else lexeme tok (buf ++ c ∷ [], unread d r)

abbrev pub is_eof : Token → Bool
is_eof eof = true
is_eof _ = false

abbrev pub is_illegal : Token → Bool
is_illegal illegal = true
is_illegal _ = false

-- `setToken`, with the reader that the scan leaves
abbrev pub set_token : Lexeme → Scanner → Scanner × Bool
set_token l s =
    let s' = record s { r = l.rest; token = l.token; text = l.text } in
    if is_illegal l.token
    then (record s' { err = some l.text }, false)
    else (s', not (is_eof l.token))

module _ ⦃u : Unicode⦄ where
  abbrev pub is_start_ident : ℕ → Bool
  is_start_ident ch = ch == b'_' || is_letter ch

  abbrev pub is_ident : ℕ → Bool
  is_ident ch = is_start_ident ch || is_digit ch

  -- the loop of `scanNumber`; the flag tells that a period has been read
  unfoldable pub read_number : Bool → Text → Text → Text × Text
  read_number dotted buf [] = (buf, [])
  read_number dotted buf (c ∷ r) =
      let more = read_number (dotted || c == b'.') (buf ++ c ∷ []) r in
      if c == eof_rune
      then (buf, r)
      else if is_digit c || (not dotted && c == b'.')
      then more
      else (buf, c ∷ r)

  unfoldable pub is_keyword : List Text → Text → Bool
  is_keyword [] lit = false
  is_keyword (k ∷ ks) lit = equal k (lower lit) || is_keyword ks lit

  -- `AddKeywords`
  abbrev pub add_keywords : List Text → Scanner → Scanner
  add_keywords [] s = s
  add_keywords (k ∷ ks) s =
      add_keywords ks (record s { keywords = trim_space (lower k) ∷ s.keywords })

  unfoldable pub scan_identifier : List Text → ℕ → Text → Lexeme
  unfolding read_while is_keyword
  scan_identifier keywords ch r =
      let found = read_while is_ident (ch ∷ []) r in
      lexeme (if is_keyword keywords found.0 then keyword else ident) found

  unfoldable pub scan_operator : ℕ → Text → Lexeme
  unfolding read_while contains_rune
  scan_operator ch r = lexeme op (read_while (contains_rune multi_char_operators) (ch ∷ []) r)

  unfoldable pub scan_placeholder : ℕ → Text → Lexeme
  unfolding read_while scan_operator
  scan_placeholder ch r =
      let (d, after) = read r in
      if ch == b'?' && (d == b'-' || d == b'#' || d == b'|')
      then scan_operator ch (unread d after)
      else lexeme placeholder
          (read_while is_digit (ch ∷ []) (if ch == b'?' then unread d after else r))

  -- `case '-'`: a comment or an operator
  unfoldable pub scan_dash : ℕ → Text → Lexeme
  unfolding read_comment scan_operator
  scan_dash ch r =
      let (d, after) = read r in
      if d == b'-'
      then lexeme comment (read_comment (ch ∷ d ∷ []) after)
      else scan_operator ch (unread d after)

  -- `N'…'`, `X'…'`, `B'…'`, or an identifier
  unfoldable pub scan_prefixed : List Text → ℕ → Text → Lexeme
  unfolding read_delimited scan_identifier
  scan_prefixed keywords ch r =
      let (d, after) = read r in
      if d == b'\''
      then read_delimited literal d (ch ∷ d ∷ []) after
      else scan_identifier keywords ch (unread d after)

  -- a number that begins with a period, or the operator
  unfoldable pub scan_period : ℕ → Text → Lexeme
  unfolding read_number
  scan_period ch r =
      let (d, after) = read r in
      if is_digit d
      then lexeme literal (read_number (ch == b'.') (ch ∷ []) (unread d after))
      else lexeme op (ch ∷ [], unread d after)

  -- The body of `Scan` behind the white space, on the rune that it has read.
  unfoldable pub scan_rune : List Text → ℕ → Text → Lexeme
  unfolding read_while read_delimited read_number scan_identifier scan_operator scan_placeholder
      scan_dash scan_prefixed scan_period contains_rune
  scan_rune keywords ch r =
      if ch == eof_rune
      then lexeme eof ([], r)
      else if is_space ch
      then lexeme ws (read_while is_space (ch ∷ []) r)
      else if ch == b'-'
      then scan_dash ch r
      else if ch == b'['
      then read_delimited ident b']' (ch ∷ []) r
      else if ch == b'`' || ch == b'"'
      then read_delimited ident ch (ch ∷ []) r
      else if ch == b'\''
      then read_delimited literal ch (ch ∷ []) r
      else if ch == b'{'
      then read_delimited ident b'}' (ch ∷ []) r
      else if contains_rune (codes "NnXxBb") ch
      then scan_prefixed keywords ch r
      else if is_start_ident ch
      then scan_identifier keywords ch r
      else if is_digit ch
      then lexeme literal (read_number false (ch ∷ []) r)
      else if ch == b'.'
      then scan_period ch r
      else if ch == b'$' || ch == b'?'
      then scan_placeholder ch r
      else if contains_rune single_char_operators ch
      then lexeme op (ch ∷ [], r)
      else if contains_rune multi_char_operators ch
      then scan_operator ch r
      else lexeme illegal (ch ∷ [], r)

  -- `for s.IgnoreWhiteSpace && isWhitespace(ch) { ch = s.read() }`
  unfoldable pub skip_space : Text → ℕ × Text
  skip_space [] = (eof_rune, [])
  skip_space (c ∷ r) = if is_space c then skip_space r else (c, r)

  unfoldable pub first_rune : Scanner → ℕ × Text
  unfolding skip_space
  first_rune s = if s.ignore_white_space then skip_space s.r else read s.r

  unfoldable pub scan : Scanner → Scanner × Bool
  scan s = let (ch, r) = first_rune s in set_token (scan_rune s.keywords ch r) s
