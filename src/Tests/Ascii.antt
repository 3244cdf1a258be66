-- ===== src/Tests/Ascii.antt =====
-- A table of the ASCII runes, for the tests.
use sqlr.Prelude.{
  ℕ, Text, [], ◌∷◌, not, ◌≡◌, ==_iff, arith, ◌+◌, Bool, true, ◌&&◌, ◌||◌, ◌==◌, leb, if◌then◌else◌,
  refl,
}
use sqlr.Go.Unicode.{Unicode}
use sqlr.Scanner.{eof_rune}
use sqlr.Scanner.Lossless.{NoNul}

abbrev between : ℕ → ℕ → ℕ → Bool
between a b c = leb a c && leb c b

abbrev upper : ℕ → Bool
upper = between b'A' b'Z'

abbrev lower : ℕ → Bool
lower = between b'a' b'z'

instance abbrev pub ascii : Unicode
ascii = record {
  is_space = λ c. c == b' ' || between 9 13 c;
  is_digit = between b'0' b'9';
  is_letter = λ c. upper c || lower c;
  is_upper = upper;
  is_lower = lower;
  to_lower = λ c. if upper c then c + 32 else c;
  is_space-zero = refl;
}

-- no rune of the text is NUL
abbrev pub clean : Text → Bool
clean [] = true
clean (c ∷ s) = not (c == eof_rune) && clean s

pub clean-NoNul : (s : Text) → clean s ≡ true → NoNul s
clean-NoNul [] h = tt
clean-NoNul (c ∷ s) h = (ground (arith, ==_iff c eof_rune), clean-NoNul s (ground arith))
