-- ===== src/Scanner/Cases.antt =====
-- A rule for statements about the token that `Scan` finds: one premise for each branch.
use sqlr.Prelude.{ℕ, Bool, true, false, List, [], ◌∷◌, Text, ◌≡◌, refl, ◌==◌, if◌then◌else◌}
use sqlr.Go.Unicode.{Unicode, is_space}
use sqlr.Scanner.{
  ident, literal, eof, ws, op, illegal, Lexeme, lexeme, eof_rune, read_while, read_delimited,
  read_number, scan_identifier, scan_operator, scan_placeholder, scan_dash, scan_prefixed,
  scan_period, scan_rune,
}

pub if_both {ℓ κ} :
    {A : Type ℓ} (P : A → Type κ) (b : Bool) {x y : A}
    → (b ≡ true → P x)
    → P y
    → P (if b then x else y)
if_both P true hx hy = hx refl
if_both P false hx hy = hy

module _ ⦃u : Unicode⦄ (P : Lexeme → Type 0) (ks : List Text) (ch : ℕ) (r : Text) where
  pub scan_rune-cases :
      ((ch == eof_rune) ≡ true → P (lexeme eof ([], r)))
      → P (lexeme ws (read_while is_space (ch ∷ []) r))
      → P (scan_dash ch r)
      → ((end : ℕ) → P (read_delimited ident end (ch ∷ []) r))
      → P (read_delimited literal ch (ch ∷ []) r)
      → P (scan_prefixed ks ch r)
      → P (scan_identifier ks ch r)
      → P (lexeme literal (read_number false (ch ∷ []) r))
      → P (scan_period ch r)
      → P (scan_placeholder ch r)
      → P (lexeme op (ch ∷ [], r))
      → P (scan_operator ch r)
      → P (lexeme illegal (ch ∷ [], r))
      → P (scan_rune ks ch r)
  unfolding scan_rune
  scan_rune-cases at_end white dash delimited quote prefixed name number period place single multi
        bad =
      if_both P _ at_end (
        if_both P _ (λ _. white)
          (if_both P _ (λ _. dash)
            (if_both P _ (λ _. delimited b']')
              (if_both P _ (λ _. delimited ch)
                (if_both P _ (λ _. quote)
                  (if_both P _ (λ _. delimited b'}')
                    (if_both P _ (λ _. prefixed)
                      (if_both P _ (λ _. name)
                        (if_both P _ (λ _. number)
                          (if_both P _ (λ _. period)
                            (if_both P _ (λ _. place)
                              (if_both P _ (λ _. single) (if_both P _ (λ _. multi) bad)))))))))))))
