-- ===== src/Scanner/Lossless.antt =====
-- The scanner loses no rune: what it skips, the text of the token and what is left make up the
-- input. A NUL rune is what `read` returns at the end of the input, and is excluded here.
use sqlr.Prelude.{
  ℕ, Bool, true, false, ◌||◌, List, [], ◌∷◌, ◌++◌, append-nil, append_assoc, Text, ◌≡◌, ◌≢◌, refl,
  sym, ap, ap₂, ◌∙◌, arith, ◌==◌, if◌then◌else◌, Bool-cases, inl, inr, All, ==_iff, false≢true,
}
use sqlr.Go.Unicode.{Unicode, is_space, is_digit}
use sqlr.Go.Strings.{contains_rune}
use sqlr.Scanner.Progress.{scan_rune-eof}
use sqlr.Scanner.Cases.{if_both, scan_rune-cases}
use sqlr.Scanner.{
  Token, ident, comment, multi_char_operators, lexeme, literal, Scanner, Lexeme, eof_rune, read,
  unread, read_while, read_comment, read_delimited, read_number, scan_identifier, scan_operator,
  scan_placeholder, scan_dash, scan_prefixed, scan_period, scan_rune, skip_space, first_rune,
  set_token, scan,
}

abbrev pub NoNul : Text → Type 0
NoNul = All (λ c. c ≢ eof_rune)

read_while-lossless :
    (p : ℕ → Bool) (buf r : Text)
    → NoNul r
    → (read_while p buf r).0 ++ (read_while p buf r).1 ≡ buf ++ r
unfolding read_while
read_while-lossless p buf [] h = refl
read_while-lossless p buf (c ∷ r) h =
    ground (arith, read_while-lossless p (buf ++ c ∷ []) r h.1, append_assoc buf (c ∷ []) r)

read_comment-lossless :
    (buf r : Text) → NoNul r → (read_comment buf r).0 ++ (read_comment buf r).1 ≡ buf ++ r
unfolding read_comment
read_comment-lossless buf [] h = refl
read_comment-lossless buf (c ∷ r) h =
    ground (arith, read_comment-lossless (buf ++ c ∷ []) r h.1, append_assoc buf (c ∷ []) r)

abbrev pub Spells : Text → Lexeme → Type 0
Spells s l = l.text ++ l.rest ≡ s

read_delimited-Spells :
    (tok : Token) (end : ℕ) (buf r : Text)
    → NoNul r
    → Spells (buf ++ r) (read_delimited tok end buf r)
unfolding read_delimited
read_delimited-Spells tok end buf [] h = refl
read_delimited-Spells tok end buf (c ∷ []) h = ground (arith, append-nil (buf ++ c ∷ []))
read_delimited-Spells tok end buf (c ∷ d ∷ r) h = ground (
  arith,
  read_delimited-Spells tok end (buf ++ c ∷ []) (d ∷ r) h.1,
  read_delimited-Spells tok end (buf ++ c ∷ d ∷ []) r h.1.1,
  append_assoc buf (c ∷ []) (d ∷ r),
  append_assoc buf (c ∷ d ∷ []) r,
)

-- Looking at the next rune and putting it back changes nothing.
pub unread-read : (r : Text) → NoNul r → unread (read r).0 (read r).1 ≡ r
unread-read [] h = refl
unread-read (c ∷ r) h = ground arith

-- A rune that is some other one than the end's was there.
read-cons : (r : Text) → (read r).0 ≢ eof_rune → (read r).0 ∷ (read r).1 ≡ r
read-cons [] h = absurd (h refl)
read-cons (c ∷ r) h = refl

after-NoNul : (r : Text) → NoNul r → NoNul (read r).1
after-NoNul [] h = tt
after-NoNul (c ∷ r) h = h.1

module _ ⦃u : Unicode⦄ where
  read_number-lossless :
      (dotted : Bool) (buf r : Text)
      → NoNul r
      → (read_number dotted buf r).0 ++ (read_number dotted buf r).1 ≡ buf ++ r
  unfolding read_number
  read_number-lossless dotted buf [] h = refl
  read_number-lossless dotted buf (c ∷ r) h = ground (
    arith,
    read_number-lossless (dotted || c == b'.') (buf ++ c ∷ []) r h.1,
    append_assoc buf (c ∷ []) r,
  )

  module _ (ch : ℕ) (r : Text) (h : NoNul r) where
    scan_identifier-Spells : (ks : List Text) → Spells (ch ∷ r) (scan_identifier ks ch r)
    unfolding scan_identifier
    scan_identifier-Spells ks = read_while-lossless _ (ch ∷ []) r h

    scan_operator-Spells : Spells (ch ∷ r) (scan_operator ch r)
    unfolding scan_operator
    scan_operator-Spells = read_while-lossless _ (ch ∷ []) r h

    scan_placeholder-Spells : Spells (ch ∷ r) (scan_placeholder ch r)
    unfolding scan_placeholder
    scan_placeholder-Spells = rw (unread-read r h) (
        ground (
          arith,
          read_while-lossless is_digit (ch ∷ []) r h,
          read_while-lossless (contains_rune multi_char_operators) (ch ∷ []) r h,
        ))

    scan_dash-Spells : Spells (ch ∷ r) (scan_dash ch r)
    unfolding scan_dash
    scan_dash-Spells = rw (unread-read r h) (
        if_both (Spells (ch ∷ r)) ((read r).0 == b'-') (λ e. dashes (ground arith))
          scan_operator-Spells)
      where
        dashes :
            (read r).0 ≢ eof_rune
            → Spells (ch ∷ r) (lexeme comment (read_comment (ch ∷ (read r).0 ∷ []) (read r).1))
        dashes e =
            read_comment-lossless (ch ∷ (read r).0 ∷ []) (read r).1 (after-NoNul r h)
            ∙ ap (◌∷◌ ch) (read-cons r e)

    scan_prefixed-Spells : (ks : List Text) → Spells (ch ∷ r) (scan_prefixed ks ch r)
    unfolding scan_prefixed
    scan_prefixed-Spells ks = rw (unread-read r h) (
        if_both (Spells (ch ∷ r)) ((read r).0 == b'\'') (λ e. quoted (ground arith))
          (scan_identifier-Spells ks))
      where
        quoted :
            (read r).0 ≢ eof_rune
            → Spells (ch ∷ r) (read_delimited literal (read r).0 (ch ∷ (read r).0 ∷ []) (read r).1)
        quoted e =
            read_delimited-Spells literal (read r).0 (ch ∷ (read r).0 ∷ []) (read r).1
              (after-NoNul r h)
            ∙ ap (◌∷◌ ch) (read-cons r e)

    scan_period-Spells : Spells (ch ∷ r) (scan_period ch r)
    unfolding scan_period
    scan_period-Spells = rw (unread-read r h) (
        if_both (Spells (ch ∷ r)) (is_digit (read r).0)
          (λ _. read_number-lossless (ch == b'.') (ch ∷ []) r h) refl)

    scan_rune-Spells : (ks : List Text) → ch ≢ eof_rune → Spells (ch ∷ r) (scan_rune ks ch r)
    scan_rune-Spells ks ne =
        scan_rune-cases (Spells (ch ∷ r)) ks ch r (λ e. absurd (ne ((==_iff ch eof_rune).0 e)))
          (read_while-lossless is_space (ch ∷ []) r h) scan_dash-Spells
          (λ end. read_delimited-Spells ident end (ch ∷ []) r h)
          (read_delimited-Spells literal ch (ch ∷ []) r h) (scan_prefixed-Spells ks)
          (scan_identifier-Spells ks) (read_number-lossless false (ch ∷ []) r h) scan_period-Spells
          scan_placeholder-Spells refl scan_operator-Spells refl

  -- What `Scan` did with the runes: it passed over white space, if it is to ignore it, and split
  -- the rest into the token's text and what is left.
  pub record Splits (s : Scanner) (skipped : Text) (after : Scanner) : Type 0 where
    pub splits : s.r ≡ skipped ++ (after.text ++ after.r)
    pub white : All (λ c. is_space c ≡ true) skipped
    pub verbatim : s.ignore_white_space ≡ false → skipped ≡ []

  skipped : Text → Text
  skipped [] = []
  skipped (c ∷ r) = if is_space c then c ∷ skipped r else []

  skip_space-splits :
      (r : Text)
      → NoNul r
      → (r ≡ skipped r ++ unread (skip_space r).0 (skip_space r).1)
        × All (λ c. is_space c ≡ true) (skipped r)
        × NoNul (skip_space r).1
  unfolding skipped skip_space
  skip_space-splits [] h = (refl, tt, tt)
  skip_space-splits (c ∷ r) h =
      let (more, white, clean) = skip_space-splits r h.1 in
      elim (Bool-cases (is_space c)) [
        | inl e ↦ rw e (ap (◌∷◌ c) more, (e, white), clean)
        | inr e ↦ rw e (ground arith, tt, h.1)
      ]

  first_skipped : Scanner → Text
  unfolding skipped
  first_skipped s = if s.ignore_white_space then skipped s.r else []

  first_rune-splits :
      (s : Scanner)
      → NoNul s.r
      → (s.r ≡ first_skipped s ++ unread (first_rune s).0 (first_rune s).1)
        × All (λ c. is_space c ≡ true) (first_skipped s)
        × NoNul (first_rune s).1
        × (s.ignore_white_space ≡ false → first_skipped s ≡ [])
  unfolding first_skipped first_rune
  first_rune-splits s h = elim (Bool-cases s.ignore_white_space) [
    | inl e ↦
        let (split, white, clean) = skip_space-splits s.r h in
        rw e (split, white, clean, λ f. absurd (false≢true (sym f)))
    | inr e ↦ rw e (sym (unread-read s.r h), tt, after-NoNul s.r h, λ _. refl)
  ]

  scan_rune-unread :
      (ks : List Text) (ch : ℕ) (r : Text)
      → NoNul r
      → (scan_rune ks ch r).text ++ (scan_rune ks ch r).rest ≡ unread ch r
  scan_rune-unread ks ch r h = elim (Bool-cases (ch == eof_rune)) [
    | inl e ↦ rw (scan_rune-eof ks ch r e, e)
    | inr e ↦ rw e (scan_rune-Spells ch r h ks (ground arith))
  ]

  set_token_fields :
      (l : Lexeme) (s : Scanner)
      → ((set_token l s).0.text ≡ l.text) × ((set_token l s).0.r ≡ l.rest)
  set_token_fields l s = ground arith

  -- Every scan splits the runes that it was given; no rune is lost or made up, whatever the token.
  pub scan-Splits : (s : Scanner) → NoNul s.r → (w : Text) × Splits s w (scan s).0
  unfolding scan
  scan-Splits s h =
      let (ch, r) = first_rune s in
      let (split, white, clean, verbatim) = first_rune-splits s h in
      let (text, rest) = set_token_fields (scan_rune s.keywords ch r) s in
      (
        first_skipped s,
        record {
          splits =
              split
              ∙ ap (◌++◌ (first_skipped s))
                  (sym (scan_rune-unread s.keywords ch r clean) ∙ sym (ap₂ ◌++◌ text rest));
          white = white;
          verbatim = verbatim;
        },
      )
