-- ===== src/Dialect/Idempotent.antt =====
-- Quoting a name that is quoted in the same dialect changes nothing.
use mathlib.Core.Path.{subst}
use mathlib.Core.List.{reverse, reverse-append, reverse-reverse}
use sqlr.Prelude.{
  ℕ, Bool, true, false, List, [], ◌∷◌, ◌++◌, map, Text, codes, ◌≡◌, ◌≢◌, inl, inr, refl, sym, ap,
  ap₂, ◌∙◌, arith, ◌==◌, All, All-append, All-append_left, All-append_right, Bool-cases,
}
use sqlr.Go.Strings.{contains_rune, trim_left, trim_right, split, join, cons_first}
use sqlr.Dialect.{quote_part, quote_func, quote, ansi, mssql, mysql, sqlite, postgres}

-- No rune at the front passes.
abbrev Starts : (ℕ → Bool) → Text → Type 0
Starts p [] = Unit
Starts p (c ∷ s) = p c ≡ false

trim_left-Starts : (p : ℕ → Bool) (s : Text) → Starts p (trim_left p s)
unfolding trim_left
trim_left-Starts p [] = tt
trim_left-Starts p (c ∷ s) = elim (Bool-cases (p c)) [
  | inl e ↦ rw e (trim_left-Starts p s)
  | inr e ↦ rw e e
]

trim_left-unchanged : (p : ℕ → Bool) (s : Text) → Starts p s → trim_left p s ≡ s
unfolding trim_left
trim_left-unchanged p [] h = refl
trim_left-unchanged p (c ∷ s) h = rw h

-- Trimming on the left keeps the end of the text.
trim_left-suffix : (p : ℕ → Bool) (s : Text) → (w : Text) × (s ≡ w ++ trim_left p s)
unfolding trim_left
trim_left-suffix p [] = ([], refl)
trim_left-suffix p (c ∷ s) = elim (Bool-cases (p c)) [
  | inl e ↦ let (w, split) = trim_left-suffix p s in (c ∷ w, rw e (ap (◌∷◌ c) split))
  | inr e ↦ ([], rw e)
]

Starts-prefix : (p : ℕ → Bool) (s t : Text) → Starts p (s ++ t) → Starts p s
Starts-prefix p [] t h = tt
Starts-prefix p (c ∷ s) t h = h

trim_right-prefix : (q : ℕ → Bool) (s : Text) → (w : Text) × (s ≡ trim_right q s ++ w)
unfolding trim_right
trim_right-prefix q s =
    let (w, split) = trim_left-suffix q (reverse s) in
    (
      reverse w,
      sym (reverse-reverse s) ∙ ap reverse split ∙ reverse-append w (trim_left q (reverse s)),
    )

-- What is left of a text that was trimmed on the left, trimmed on the right, still starts well.
trim_right-Starts : (p q : ℕ → Bool) (s : Text) → Starts p s → Starts p (trim_right q s)
trim_right-Starts p q s h =
    let (w, split) = trim_right-prefix q s in
    Starts-prefix p (trim_right q s) w (subst (Starts p) split h)

trim_right-trimmed :
    (q : ℕ → Bool) (s : Text) (e : ℕ)
    → q e ≡ true
    → trim_right q (trim_right q s ++ e ∷ []) ≡ trim_right q s
unfolding trim_right
trim_right-trimmed q s e h = rw (
  reverse-append (reverse (trim_left q (reverse s))) (e ∷ []),
  reverse-reverse (trim_left q (reverse s)),
  h,
  trim_left-unchanged q (trim_left q (reverse s)) (trim_left-Starts q (reverse s)),
)

abbrev NoPeriod : Text → Type 0
NoPeriod = All (λ c. (c == b'.') ≡ false)

trim_left-NoPeriod : (p : ℕ → Bool) (s : Text) → NoPeriod s → NoPeriod (trim_left p s)
trim_left-NoPeriod p s h =
    let (w, split) = trim_left-suffix p s in
    All-append_right _ w (trim_left p s) (subst NoPeriod split h)

trim_right-NoPeriod : (q : ℕ → Bool) (s : Text) → NoPeriod s → NoPeriod (trim_right q s)
trim_right-NoPeriod q s h =
    let (w, split) = trim_right-prefix q s in
    All-append_left _ (trim_right q s) w (subst NoPeriod split h)

contains_rune-last : (s : Text) (c : ℕ) → contains_rune (s ++ c ∷ []) c ≡ true
unfolding contains_rune
contains_rune-last [] c = ground arith
contains_rune-last (x ∷ s) c = ground (arith, contains_rune-last s c)

trim-closed :
    (p q : ℕ → Bool) (e : ℕ) (t : Text)
    → Starts p t
    → trim_right q (t ++ e ∷ []) ≡ t
    → trim_right q (trim_left p (t ++ e ∷ [])) ≡ t
unfolding trim_left trim_right
trim-closed p q e [] start h = elim (Bool-cases (p e)) [
  | inl inside ↦ rw inside
  | inr outside ↦ rw outside h
]
trim-closed p q e (c ∷ t) start h = rw start h

trim_left-drop :
    (p : ℕ → Bool) (b : ℕ) (s : Text) → p b ≡ true → trim_left p (b ∷ s) ≡ trim_left p s
unfolding trim_left
trim_left-drop p b s h = rw h

-- Trimming a part that has been quoted takes the quotes off again, and nothing else.
trim-enclosed :
    (p q : ℕ → Bool) (b e : ℕ) (t : Text)
    → p b ≡ true
    → q e ≡ true
    → Starts p t
    → trim_right q (trim_left p (b ∷ (trim_right q t ++ e ∷ []))) ≡ trim_right q t
trim-enclosed p q b e t hp hq start =
    ap (trim_right q) (trim_left-drop p b (trim_right q t ++ e ∷ []) hp)
    ∙ trim-closed p q e (trim_right q t) (trim_right-Starts p q t start)
        (trim_right-trimmed q t e hq)

module _ (b e : ℕ) where
  quote_part_idem :
      (n : Text)
      → quote_part (b ∷ []) (e ∷ []) (quote_part (b ∷ []) (e ∷ []) n)
        ≡ quote_part (b ∷ []) (e ∷ []) n
  unfolding quote_part
  quote_part_idem n =
      let p = contains_rune (codes "\"`[ \t" ++ b ∷ []) in
      let q = contains_rune (codes "\"`] \t" ++ e ∷ []) in
      ap (λ t. b ∷ (t ++ e ∷ []))
        (trim-enclosed p q b e (trim_left p n) (contains_rune-last (codes "\"`[ \t") b)
          (contains_rune-last (codes "\"`] \t") e) (trim_left-Starts p n))

  quote_part-NoPeriod :
      (b == b'.') ≡ false
      → (e == b'.') ≡ false
      → (n : Text) → NoPeriod n
      → NoPeriod (quote_part (b ∷ []) (e ∷ []) n)
  unfolding quote_part
  quote_part-NoPeriod hb he n h =
      (hb, All-append _ _ (e ∷ []) (trim_right-NoPeriod _ _ (trim_left-NoPeriod _ n h)) (he, tt))

cons_first-parts :
    (c : ℕ) (ps : List Text)
    → (c == b'.') ≡ false
    → All NoPeriod ps
    → All NoPeriod (cons_first c ps) × (cons_first c ps ≢ [])
unfolding cons_first
cons_first-parts c [] e h = (((e, tt), tt), λ r. cc)
cons_first-parts c (p ∷ ps) e h = (((e, h.0), h.1), λ r. cc)

split-parts : (s : Text) → All NoPeriod (split b'.' s) × (split b'.' s ≢ [])
unfolding split
split-parts [] = ((tt, tt), λ e. cc)
split-parts (c ∷ s) = elim (Bool-cases (c == b'.')) [
  | inl e ↦ rw e ((tt, (split-parts s).0), λ (h : [] ∷ split b'.' s ≡ []). cc)
  | inr e ↦ rw e (cons_first-parts c (split b'.' s) e (split-parts s).0)
]

split_part : (p : Text) → NoPeriod p → split b'.' p ≡ p ∷ []
unfolding split
split_part [] h = refl
split_part (c ∷ p) h = rw (h.0, split_part p h.1)

split-period : (p s : Text) → NoPeriod p → split b'.' (p ++ (b'.' ∷ s)) ≡ p ∷ split b'.' s
unfolding split
split-period [] s h = refl
split-period (c ∷ p) s h = rw (h.0, split-period p s h.1)

split-join : (ps : List Text) → All NoPeriod ps → ps ≢ [] → split b'.' (join ps (codes ".")) ≡ ps
unfolding join
split-join [] h n = absurd (n refl)
split-join (p ∷ []) h n = split_part p h.0
split-join (p ∷ q ∷ ps) h n =
    split-period p (join (q ∷ ps) (codes ".")) h.0 ∙ ap (◌∷◌ p) (split-join (q ∷ ps) h.1 (λ e. cc))

module _ (b e : ℕ) where
  abbrev part : Text → Text
  part = quote_part (b ∷ []) (e ∷ [])

  map-part_idem : (ps : List Text) → map part (map part ps) ≡ map part ps
  map-part_idem [] = refl
  map-part_idem (p ∷ ps) = ap₂ ◌∷◌ (quote_part_idem b e p) (map-part_idem ps)

  module _ (hb : (b == b'.') ≡ false) (he : (e == b'.') ≡ false) where
    map-part-NoPeriod : (ps : List Text) → All NoPeriod ps → All NoPeriod (map part ps)
    map-part-NoPeriod [] h = tt
    map-part-NoPeriod (p ∷ ps) h = (quote_part-NoPeriod b e hb he p h.0, map-part-NoPeriod ps h.1)

    map-part-ne : (ps : List Text) → ps ≢ [] → map part ps ≢ []
    map-part-ne [] h = absurd (h refl)
    map-part-ne (p ∷ ps) h = λ r. cc

    quote_func_idem :
        (name : Text)
        → quote_func (b ∷ []) (e ∷ []) (quote_func (b ∷ []) (e ∷ []) name)
          ≡ quote_func (b ∷ []) (e ∷ []) name
    unfolding quote_func
    quote_func_idem name =
        let (clean, some_part) = split-parts name in
        let back =
          split-join (map part (split b'.' name)) (map-part-NoPeriod _ clean)
            (map-part-ne _ some_part) in
        ap (λ ps. join (map part ps) (codes ".")) back
        ∙ ap (λ ps. join ps (codes ".")) (map-part_idem (split b'.' name))

-- In each dialect, quoting a quoted name again changes nothing.
pub quote_idem :
    (name : Text)
    → (quote ansi (quote ansi name) ≡ quote ansi name)
      × (quote mssql (quote mssql name) ≡ quote mssql name)
      × (quote mysql (quote mysql name) ≡ quote mysql name)
      × (quote sqlite (quote sqlite name) ≡ quote sqlite name)
      × (quote postgres (quote postgres name) ≡ quote postgres name)
quote_idem name = (
  quote_func_idem b'"' b'"' refl refl name,
  quote_func_idem b'[' b']' refl refl name,
  quote_func_idem b'`' b'`' refl refl name,
  quote_func_idem b'`' b'`' refl refl name,
  quote_func_idem b'"' b'"' refl refl name,
)
