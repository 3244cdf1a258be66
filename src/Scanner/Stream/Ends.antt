-- ===== src/Scanner/Stream/Ends.antt =====
-- When `Scan` returns false, and what it then leaves.
use sqlr.Prelude.{
  ℕ, Bool, true, false, List, [], ◌∷◌, ◌++◌, some, Text, ◌≡◌, ◌⊎◌, inl, inr, refl, arith, ◌==◌,
  Bool-cases,
}
use sqlr.Go.Unicode.{Unicode}
use sqlr.Scanner.{
  Token, eof, ident, literal, Scanner, Lexeme, eof_rune, read, unread, read_delimited,
  scan_identifier, scan_operator, scan_placeholder, scan_dash, scan_prefixed, scan_period,
  scan_rune, set_token, first_rune, scan,
}
use sqlr.Scanner.Cases.{scan_rune-cases}

abbrev not_eof : Token → Bool
not_eof eof = false
not_eof _ = true

read_delimited-not_eof :
    (tok : Token) (end : ℕ) (buf r : Text)
    → not_eof tok ≡ true
    → not_eof (read_delimited tok end buf r).token ≡ true
unfolding read_delimited
read_delimited-not_eof tok end buf [] h = refl
read_delimited-not_eof tok end buf (c ∷ []) h = ground arith
read_delimited-not_eof tok end buf (c ∷ d ∷ r) h = ground (
  arith,
  read_delimited-not_eof tok end (buf ++ c ∷ []) (d ∷ r) h,
  read_delimited-not_eof tok end (buf ++ c ∷ d ∷ []) r h,
)

module _ ⦃u : Unicode⦄ (ks : List Text) (ch : ℕ) (r : Text) where
  scan_identifier-not_eof : (r' : Text) → not_eof (scan_identifier ks ch r').token ≡ true
  unfolding scan_identifier
  scan_identifier-not_eof r' = ground arith

  scan_operator-not_eof : not_eof (scan_operator ch r).token ≡ true
  unfolding scan_operator
  scan_operator-not_eof = refl

  scan_placeholder-not_eof : not_eof (scan_placeholder ch r).token ≡ true
  unfolding scan_placeholder
  scan_placeholder-not_eof = ground arith

  scan_dash-not_eof : not_eof (scan_dash ch r).token ≡ true
  unfolding scan_dash
  scan_dash-not_eof = ground arith

  scan_prefixed-not_eof : not_eof (scan_prefixed ks ch r).token ≡ true
  unfolding scan_prefixed
  scan_prefixed-not_eof = ground (
    arith,
    scan_identifier-not_eof (unread (read r).0 (read r).1),
    read_delimited-not_eof literal (read r).0 (ch ∷ (read r).0 ∷ []) (read r).1 refl,
  )

  scan_period-not_eof : not_eof (scan_period ch r).token ≡ true
  unfolding scan_period
  scan_period-not_eof = ground arith

  -- Only the end of the input gives the token `EOF`.
  pub scan_rune-not_eof : (ch == eof_rune) ≡ false → not_eof (scan_rune ks ch r).token ≡ true
  scan_rune-not_eof h =
      scan_rune-cases (λ l. not_eof l.token ≡ true) ks ch r (λ e. ground arith) refl
        scan_dash-not_eof (λ end. read_delimited-not_eof ident end (ch ∷ []) r refl)
        (read_delimited-not_eof literal ch (ch ∷ []) r refl) scan_prefixed-not_eof
        (scan_identifier-not_eof r) refl scan_period-not_eof scan_placeholder-not_eof refl
        scan_operator-not_eof refl

set_token-err :
    (l : Lexeme) (s : Scanner)
    → not_eof l.token ≡ true
    → (set_token l s).1 ≡ false
    → (set_token l s).0.err ≡ some (set_token l s).0.text
set_token-err l s n h = ground arith

module _ ⦃u : Unicode⦄ where
  -- Where `Scan` returns false, it is at the end of the input, or `Err` holds the text at which it
  -- stopped.
  pub scan-false :
      (s : Scanner)
      → (scan s).1 ≡ false
      → ((first_rune s).0 ≡ eof_rune) ⊎ ((scan s).0.err ≡ some (scan s).0.text)
  unfolding scan
  scan-false s h = elim (Bool-cases ((first_rune s).0 == eof_rune)) [
    | inl e ↦ inl (ground arith)
    | inr e ↦ inr (set_token-err _ s (scan_rune-not_eof s.keywords _ (first_rune s).1 e) h)
  ]
