-- ===== src/Scanner/Progress.antt =====
-- Every scan that finds a token leaves less to read, so the loops over tokens end.
use sqlr.Prelude.{
  ℕ, ◌≤◌, ◌<◌, Bool, true, false, ◌||◌, inl, inr, List, [], ◌∷◌, ◌++◌, Text, Bool-cases, ◌≡◌, arith,
  ◌==◌, length,
}
use sqlr.Go.Unicode.{Unicode, is_space, is_digit}
use sqlr.Scanner.Cases.{scan_rune-cases}
use sqlr.Scanner.{
  Token, eof, ident, literal, Scanner, Lexeme, lexeme, eof_rune, read, unread, read_while,
  read_comment, read_delimited, read_number, scan_identifier, scan_operator, scan_placeholder,
  scan_dash, scan_prefixed, scan_period, scan_rune, skip_space, first_rune, scan,
}

read_while-le : (p : ℕ → Bool) (buf r : Text) → length (read_while p buf r).1 ≤ length r
unfolding read_while
read_while-le p buf [] = omega arith
read_while-le p buf (c ∷ r) = ground (arith, read_while-le p (buf ++ c ∷ []) r)

read_comment-le : (buf r : Text) → length (read_comment buf r).1 ≤ length r
unfolding read_comment
read_comment-le buf [] = omega arith
read_comment-le buf (c ∷ r) = ground (arith, read_comment-le (buf ++ c ∷ []) r)

read_delimited-le :
    (tok : Token) (end : ℕ) (buf r : Text) → length (read_delimited tok end buf r).rest ≤ length r
unfolding read_delimited
read_delimited-le tok end buf [] = omega arith
read_delimited-le tok end buf (c ∷ []) = ground arith
read_delimited-le tok end buf (c ∷ d ∷ r) = ground (
  arith,
  read_delimited-le tok end (buf ++ c ∷ []) (d ∷ r),
  read_delimited-le tok end (buf ++ c ∷ d ∷ []) r,
)

peek-le : (r : Text) → length (unread (read r).0 (read r).1) ≤ length r
peek-le [] = omega arith
peek-le (c ∷ r) = ground arith

after-le : (r : Text) → length (read r).1 ≤ length r
after-le [] = omega arith
after-le (c ∷ r) = omega arith

read-lt : (r : Text) → ((read r).0 == eof_rune) ≡ false → length (read r).1 < length r
read-lt [] h = ground arith
read-lt (c ∷ r) h = omega arith

module _ ⦃u : Unicode⦄ where
  read_number-le : (dotted : Bool) (buf r : Text) → length (read_number dotted buf r).1 ≤ length r
  unfolding read_number
  read_number-le dotted buf [] = omega arith
  read_number-le dotted buf (c ∷ r) =
      ground (arith, read_number-le (dotted || c == b'.') (buf ++ c ∷ []) r)

  abbrev pub Within : ℕ → Lexeme → Type 0
  Within n l = length l.rest ≤ n

  scan_identifier-le :
      (ks : List Text) (ch : ℕ) (r : Text) → Within (length r) (scan_identifier ks ch r)
  unfolding scan_identifier
  scan_identifier-le ks ch r = read_while-le _ (ch ∷ []) r

  scan_operator-le : (ch : ℕ) (r : Text) → Within (length r) (scan_operator ch r)
  unfolding scan_operator
  scan_operator-le ch r = read_while-le _ (ch ∷ []) r

  scan_placeholder-le : (ch : ℕ) (r : Text) → Within (length r) (scan_placeholder ch r)
  unfolding scan_placeholder
  scan_placeholder-le ch r = ground (
    arith,
    peek-le r,
    scan_operator-le ch (unread (read r).0 (read r).1),
    read_while-le is_digit (ch ∷ []) (unread (read r).0 (read r).1),
    read_while-le is_digit (ch ∷ []) r,
  )

  scan_dash-le : (ch : ℕ) (r : Text) → Within (length r) (scan_dash ch r)
  unfolding scan_dash
  scan_dash-le ch r = ground (
    arith,
    peek-le r,
    after-le r,
    scan_operator-le ch (unread (read r).0 (read r).1),
    read_comment-le (ch ∷ (read r).0 ∷ []) (read r).1,
  )

  scan_prefixed-le :
      (ks : List Text) (ch : ℕ) (r : Text) → Within (length r) (scan_prefixed ks ch r)
  unfolding scan_prefixed
  scan_prefixed-le ks ch r = ground (
    arith,
    peek-le r,
    after-le r,
    scan_identifier-le ks ch (unread (read r).0 (read r).1),
    read_delimited-le literal (read r).0 (ch ∷ (read r).0 ∷ []) (read r).1,
  )

  scan_period-le : (ch : ℕ) (r : Text) → Within (length r) (scan_period ch r)
  unfolding scan_period
  scan_period-le ch r =
      ground
        (arith, peek-le r, read_number-le (ch == b'.') (ch ∷ []) (unread (read r).0 (read r).1))

  pub scan_rune-le : (ks : List Text) (ch : ℕ) (r : Text) → Within (length r) (scan_rune ks ch r)
  scan_rune-le ks ch r =
      let stay : length r ≤ length r = omega arith in
      scan_rune-cases (Within (length r)) ks ch r (λ _. stay) (read_while-le is_space (ch ∷ []) r)
        (scan_dash-le ch r) (λ end. read_delimited-le ident end (ch ∷ []) r)
        (read_delimited-le literal ch (ch ∷ []) r) (scan_prefixed-le ks ch r)
        (scan_identifier-le ks ch r) (read_number-le false (ch ∷ []) r) (scan_period-le ch r)
        (scan_placeholder-le ch r) stay (scan_operator-le ch r) stay

  skip_space-lt :
      (r : Text) → ((skip_space r).0 == eof_rune) ≡ false → length (skip_space r).1 < length r
  unfolding skip_space
  skip_space-lt [] h = ground arith
  skip_space-lt (c ∷ r) h = ground (arith, skip_space-lt r)

  first_rune-lt :
      (s : Scanner) → ((first_rune s).0 == eof_rune) ≡ false → length (first_rune s).1 < length s.r
  unfolding first_rune
  first_rune-lt s h = ground (arith, skip_space-lt s.r, read-lt s.r)

  pub scan_rune-eof :
      (ks : List Text) (ch : ℕ) (r : Text)
      → (ch == eof_rune) ≡ true
      → scan_rune ks ch r ≡ lexeme eof ([], r)
  unfolding scan_rune
  scan_rune-eof ks ch r h = rw h

  skip_space-le : (r : Text) → length (skip_space r).1 ≤ length r
  unfolding skip_space
  skip_space-le [] = omega arith
  skip_space-le (c ∷ r) = ground (arith, skip_space-le r)

  first_rune-le : (s : Scanner) → length (first_rune s).1 ≤ length s.r
  unfolding first_rune
  first_rune-le s = ground (arith, skip_space-le s.r, after-le s.r)

  pub scan-le : (s : Scanner) → length (scan s).0.r ≤ length s.r
  unfolding scan
  scan-le s =
      ground (arith, first_rune-le s, scan_rune-le s.keywords (first_rune s).0 (first_rune s).1)

  -- When `Scan` returns true, the reader has fewer runes left than before.
  pub scan-progress : (s : Scanner) → (scan s).1 ≡ true → length (scan s).0.r < length s.r
  unfolding scan
  scan-progress s h = elim (Bool-cases ((first_rune s).0 == eof_rune)) [
    | inl e ↦ ground (arith, scan_rune-eof s.keywords (first_rune s).0 (first_rune s).1 e)
    | inr more ↦
        ground
          (arith, first_rune-lt s more, scan_rune-le s.keywords (first_rune s).0 (first_rune s).1)
  ]
