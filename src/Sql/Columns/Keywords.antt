-- ===== src/Sql/Columns/Keywords.antt =====
-- The keyword tokens of a scanner are spelled as one of its keywords.
use sqlr.Prelude.{
  ℕ, true, false, List, [], ◌∷◌, ◌++◌, Text, ◌==◌, ◌≡◌, refl, arith, Bool-cases, inl, inr,
}
use sqlr.Go.Unicode.{Unicode}
use sqlr.Scanner.{
  Token, eof, ws, op, illegal, ident, literal, Scanner, Lexeme, read, unread, read_while,
  read_delimited, is_keyword, is_ident, scan_identifier, scan_operator, scan_placeholder, scan_dash,
  scan_prefixed, scan_period, scan_rune, set_token, first_rune, scan,
}
use sqlr.Scanner.Cases.{scan_rune-cases}
use sqlr.Sql.Columns.{is_keyword_token}

read_delimited-plain :
    (tok : Token) (end : ℕ) (buf r : Text)
    → is_keyword_token tok ≡ false
    → is_keyword_token (read_delimited tok end buf r).token ≡ false
unfolding read_delimited
read_delimited-plain tok end buf [] h = refl
read_delimited-plain tok end buf (c ∷ []) h = ground arith
read_delimited-plain tok end buf (c ∷ d ∷ r) h = ground (
  arith,
  read_delimited-plain tok end (buf ++ c ∷ []) (d ∷ r) h,
  read_delimited-plain tok end (buf ++ c ∷ d ∷ []) r h,
)

module _ ⦃u : Unicode⦄ where
  abbrev pub Spelled : List Text → Token → Text → Type 0
  Spelled ks tok text = is_keyword_token tok ≡ true → is_keyword ks text ≡ true

  plain :
      (ks : List Text) (tok : Token) (text : Text)
      → is_keyword_token tok ≡ false
      → Spelled ks tok text
  plain ks tok text h k = absurd (ground arith)

  scan_identifier-Spelled :
      (ks : List Text) (ch : ℕ) (r : Text)
      → Spelled ks (scan_identifier ks ch r).token (scan_identifier ks ch r).text
  unfolding scan_identifier
  scan_identifier-Spelled ks ch r h =
      elim (Bool-cases (is_keyword ks (read_while is_ident (ch ∷ []) r).0)) [
        | inl e ↦ e
        | inr e ↦ absurd (ground arith)
      ]

  scan_operator-plain : (ch : ℕ) (r : Text) → is_keyword_token (scan_operator ch r).token ≡ false
  unfolding scan_operator
  scan_operator-plain ch r = refl

  scan_placeholder-plain :
      (ch : ℕ) (r : Text) → is_keyword_token (scan_placeholder ch r).token ≡ false
  unfolding scan_placeholder
  scan_placeholder-plain ch r =
      ground (arith, scan_operator-plain ch (unread (read r).0 (read r).1))

  scan_dash-plain : (ch : ℕ) (r : Text) → is_keyword_token (scan_dash ch r).token ≡ false
  unfolding scan_dash
  scan_dash-plain ch r = ground (arith, scan_operator-plain ch (unread (read r).0 (read r).1))

  scan_period-plain : (ch : ℕ) (r : Text) → is_keyword_token (scan_period ch r).token ≡ false
  unfolding scan_period
  scan_period-plain ch r = ground arith

  scan_prefixed-Spelled :
      (ks : List Text) (ch : ℕ) (r : Text)
      → Spelled ks (scan_prefixed ks ch r).token (scan_prefixed ks ch r).text
  unfolding scan_prefixed
  scan_prefixed-Spelled ks ch r = elim (Bool-cases ((read r).0 == b'\'')) [
    | inl e ↦ rw e (
        plain ks _ _
          (read_delimited-plain literal (read r).0 (ch ∷ (read r).0 ∷ []) (read r).1 refl))
    | inr e ↦ rw e (scan_identifier-Spelled ks ch (unread (read r).0 (read r).1))
  ]

  scan_rune-Spelled :
      (ks : List Text) (ch : ℕ) (r : Text)
      → Spelled ks (scan_rune ks ch r).token (scan_rune ks ch r).text
  scan_rune-Spelled ks ch r =
      let P : Lexeme → Type 0 = λ l. Spelled ks l.token l.text in
      scan_rune-cases P ks ch r (λ e. plain ks eof _ refl) (plain ks ws _ refl)
        (plain ks _ _ (scan_dash-plain ch r))
        (λ end. plain ks _ _ (read_delimited-plain ident end (ch ∷ []) r refl))
        (plain ks _ _ (read_delimited-plain literal ch (ch ∷ []) r refl))
        (scan_prefixed-Spelled ks ch r) (scan_identifier-Spelled ks ch r) (plain ks literal _ refl)
        (plain ks _ _ (scan_period-plain ch r)) (plain ks _ _ (scan_placeholder-plain ch r))
        (plain ks op _ refl) (plain ks _ _ (scan_operator-plain ch r)) (plain ks illegal _ refl)

  set_token-fields :
      (l : Lexeme) (s : Scanner)
      → ((set_token l s).0.token ≡ l.token)
        × ((set_token l s).0.text ≡ l.text)
        × ((set_token l s).0.keywords ≡ s.keywords)
  set_token-fields l s = ground arith

  pub scan-Spelled :
      (s : Scanner)
      → Spelled s.keywords (scan s).0.token (scan s).0.text × ((scan s).0.keywords ≡ s.keywords)
  unfolding scan
  scan-Spelled s =
      let (ch, r) = first_rune s in
      let (tok, text, ks) = set_token-fields (scan_rune s.keywords ch r) s in
      (rw (tok, text) (scan_rune-Spelled s.keywords ch r), ks)
