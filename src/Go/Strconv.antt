-- ===== src/Go/Strconv.antt =====
-- `strconv.Itoa` on a number that is not negative, and `strconv.Atoi` on ASCII digits.
use sqlr.Prelude.{
  ℕ, zero, suc, ◌+◌, ◌-◌, ◌*◌, ◌/◌, ◌%◌, ◌≤◌, ◌<◌, Bool, ◌&&◌, [], ◌∷◌, ◌++◌, Option, none, some,
  Text, ◌≡◌, refl, ◌∙◌, arith, ltb, leb, if◌then◌else◌, Bool-cases, inl, inr,
}

unfoldable pub digits_of : ℕ → ℕ → Text
digits_of zero n = []
digits_of (suc f) n =
    let higher = digits_of f (n / 10) in
    if ltb n 10 then (b'0' + n) ∷ [] else higher ++ (b'0' + n % 10) ∷ []

-- Each round divides by ten, so `n + 1` rounds are enough.
unfoldable pub itoa : ℕ → Text
unfolding digits_of
itoa n = digits_of (suc n) n

abbrev pub is_ascii_digit : ℕ → Bool
is_ascii_digit c = leb b'0' c && leb c b'9'

unfoldable pub value_of : ℕ → Text → ℕ
value_of acc [] = acc
value_of acc (c ∷ s) = value_of (acc * 10 + (c - b'0')) s

abbrev pub max_int : ℕ
max_int = 9223372036854775807

-- On a text of digits; `none` is the error that the number is out of the range of `int`.
unfoldable pub atoi : Text → Option ℕ
unfolding value_of
atoi s = let n = value_of 0 s in if leb n max_int then some n else none

value_of-append :
    (acc c : ℕ) (s : Text) → value_of acc (s ++ c ∷ []) ≡ value_of acc s * 10 + (c - b'0')
unfolding value_of
value_of-append acc c [] = refl
value_of-append acc c (d ∷ s) = value_of-append (acc * 10 + (d - b'0')) c s

value_of-digits_of : (f n : ℕ) → n < f → value_of 0 (digits_of f n) ≡ n
unfolding digits_of
value_of-digits_of zero n h = elim h [ ]
value_of-digits_of (suc f) n h = elim (Bool-cases (ltb n 10)) [
  | inl small ↦ rw small (unfold value_of in omega arith)
  | inr large ↦ rw large (
      value_of-append 0 (b'0' + n % 10) (digits_of f (n / 10))
      ∙ ground (arith, value_of-digits_of f (n / 10)))
]

-- What `Itoa` prints, `Atoi` reads.
pub atoi-itoa : (n : ℕ) → n ≤ max_int → atoi (itoa n) ≡ some n
unfolding atoi itoa
atoi-itoa n h = rw (value_of-digits_of (suc n) n (omega arith)) (ground arith)
