-- ===== src/Naming/Snake.antt =====
-- What the snake-case conversion does to a name.
use sqlr.Prelude.{
  ℕ, true, false, not, [], ◌∷◌, ◌++◌, Bool, ◌&&◌, ◌||◌, if◌then◌else◌, map, Option, none, some,
  Text, ◌≡◌, refl, ap, ap₂, arith, ◌==◌, keep, All, Bool-cases, inl, inr,
}
use sqlr.Go.Unicode.{Unicode, is_upper, is_lower, to_lower}
use sqlr.Go.Strings.{lower}
use sqlr.Naming.{inserts, snake_from, snake_convert}

abbrev pub letters : Text → Text
letters = keep (λ c. not (c == b'_'))

if-append :
    (b : Bool) (x : ℕ) (xs : Text) → (if b then x ∷ xs else xs) ≡ (if b then x ∷ [] else []) ++ xs
if-append true x xs = refl
if-append false x xs = refl

module _ ⦃u : Unicode⦄ where
  snake_from-letters :
      (before : Option ℕ) (name : Text)
      → letters (snake_from before name) ≡ letters (map to_lower name)
  unfolding snake_from
  snake_from-letters before [] = refl
  snake_from-letters before (c ∷ name) = ground (arith, snake_from-letters (some c) name)

  -- Apart from underscores, the snake-case form of a name is the name in lower case.
  pub snake_convert-letters : (name : Text) → letters (snake_convert name) ≡ letters (lower name)
  unfolding snake_convert lower
  snake_convert-letters name = snake_from-letters none name

  -- Lower case for good: no upper case, and lower-casing leaves it alone.
  abbrev pub Settled : ℕ → Type 0
  Settled c = (is_upper c ≡ false) × (to_lower c ≡ c)

  snake_from-Settled :
      (before : Option ℕ) (name : Text)
      → Settled b'_'
      → All (λ c. Settled (to_lower c)) name
      → All Settled (snake_from before name)
  unfolding snake_from
  snake_from-Settled before [] u h = tt
  snake_from-Settled before (c ∷ name) u h = elim (Bool-cases (inserts before c name)) [
    | inl e ↦ rw e (u, (h.0, snake_from-Settled (some c) name u h.1))
    | inr e ↦ rw e (h.0, snake_from-Settled (some c) name u h.1)
  ]

  snake_from-unchanged :
      (before : Option ℕ) (name : Text) → All Settled name → snake_from before name ≡ name
  unfolding snake_from
  snake_from-unchanged before [] h = refl
  snake_from-unchanged none (c ∷ name) h = ap₂ ◌∷◌ h.0.1 (snake_from-unchanged (some c) name h.1)
  snake_from-unchanged (some b) (c ∷ name) h =
      rw h.0.0 (ap₂ ◌∷◌ h.0.1 (snake_from-unchanged (some c) name h.1))

  -- Converting to snake case twice is converting once, for a name whose runes lower-case to runes
  -- that are lower case for good, as the underscore is.
  pub snake_convert_idem :
      (name : Text)
      → Settled b'_'
      → All (λ c. Settled (to_lower c)) name
      → snake_convert (snake_convert name) ≡ snake_convert name
  unfolding snake_convert
  snake_convert_idem name u h =
      snake_from-unchanged none (snake_from none name) (snake_from-Settled none name u h)

  -- What stands between the lower-case forms of two runes in a row, with the runes behind them
  abbrev pub between : ℕ → ℕ → Text → Text
  between b c [] = if is_upper c && is_lower b then b'_' ∷ [] else []
  between b c (d ∷ rest) = if is_upper c && (is_lower d || is_lower b) then b'_' ∷ [] else []

  -- A name that is split behind a rune, as it is converted
  abbrev pub Split : Text → ℕ → ℕ → Text → Text → Type 0
  Split before b c rest converted =
      (front back : Text) × (converted
        ≡ front ++ (to_lower b ∷ (between b c rest ++ (to_lower c ∷ back))))
      × (letters front ≡ letters (lower before))
      × (letters back ≡ letters (lower rest))

  snake_from-between :
      (b c : ℕ) (rest : Text)
      → snake_from (some b) (c ∷ rest) ≡ between b c rest ++ (to_lower c ∷ snake_from (some c) rest)
  unfolding snake_from
  snake_from-between b c [] = ground arith
  snake_from-between b c (d ∷ rest) =
      if-append (is_upper c && (is_lower d || is_lower b)) b'_'
        (to_lower c ∷ snake_from (some c) (d ∷ rest))

  with_first :
      (x : ℕ) (s t : Text)
      → letters s ≡ letters t
      → letters (to_lower x ∷ s) ≡ letters (to_lower x ∷ t)
  with_first x s t same = ap (λ ls. if not (to_lower x == b'_') then to_lower x ∷ ls else ls) same

  snake_from-Split :
      (before : Option ℕ) (front : Text) (b c : ℕ) (rest : Text)
      → Split front b c rest (snake_from before (front ++ (b ∷ (c ∷ rest))))
  unfolding snake_from lower
  snake_from-Split before [] b c rest = elim (Bool-cases (inserts before b (c ∷ rest))) [
    | inl e ↦ (
      b'_' ∷ [],
      snake_from (some c) rest,
      rw (e, snake_from-between b c rest) refl,
      refl,
      snake_from-letters (some c) rest,
    )
    | inr e ↦ (
      [],
      snake_from (some c) rest,
      rw (e, snake_from-between b c rest) refl,
      refl,
      snake_from-letters (some c) rest,
    )
  ]
  snake_from-Split before (x ∷ front) b c rest =
      let (f, back, same, low, low') = snake_from-Split (some x) front b c rest in
      elim (Bool-cases (inserts before x (front ++ (b ∷ (c ∷ rest))))) [
        | inl e ↦ (
          b'_' ∷ (to_lower x ∷ f),
          back,
          rw (e, same) refl,
          with_first x f (lower front) low,
          low',
        )
        | inr e ↦ (to_lower x ∷ f, back, rw (e, same) refl, with_first x f (lower front) low, low')
      ]

  -- Wherever a name has two runes in a row, its snake-case form has their lower-case forms with
  -- nothing or one underscore between them: the underscore stands there just if the second rune is
  -- upper case, and the first, or the one behind the second, is lower case. What is before and
  -- behind is, apart from underscores, the rest of the name in lower case.
  pub snake_convert-Split :
      (before : Text) (b c : ℕ) (rest : Text)
      → Split before b c rest (snake_convert (before ++ (b ∷ (c ∷ rest))))
  unfolding snake_convert
  snake_convert-Split before b c rest = snake_from-Split none before b c rest
