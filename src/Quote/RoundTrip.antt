-- ===== src/Quote/RoundTrip.antt =====
-- `Unquote` undoes `Quote`, whatever the identifier holds.
use mathlib.Core.List.{reverse, reverse-append}
use sqlr.Prelude.{
  ℕ, ◌-◌, true, false, List, [], ◌∷◌, ◌++◌, Text, ◌≡◌, ◌⊎◌, inl, inr, refl, ap, ◌∙◌, arith, ◌==◌,
  if◌then◌else◌, length, take, length-append,
}
use sqlr.Go.Strings.{has_prefix, has_suffix, replace}
use sqlr.Quote.{
  QuotePair, new_quote_pair, is_quoted_by, un_quote, quote_pairs, unquote_in, unquote, quote,
}

-- The rune `e` doubled wherever it stands.
unfoldable pub doubled : ℕ → Text → Text
doubled e [] = []
doubled e (c ∷ s) = if c == e then e ∷ e ∷ doubled e s else c ∷ doubled e s

pub replace-doubled : (e : ℕ) (s : Text) → replace s (e ∷ []) (e ∷ e ∷ []) ≡ doubled e s
unfolding replace doubled
replace-doubled e [] = refl
replace-doubled e (c ∷ s) = ground (arith, replace-doubled e s)

-- Collapsing the doubled rune gives the text back.
replace-doubled_undone : (e : ℕ) (s : Text) → replace (doubled e s) (e ∷ e ∷ []) (e ∷ []) ≡ s
unfolding replace doubled
replace-doubled_undone e [] = refl
replace-doubled_undone e (c ∷ s) = ground (arith, replace-doubled_undone e s)

has_prefix-append : (p s : Text) → has_prefix (p ++ s) p ≡ true
unfolding has_prefix
has_prefix-append [] s = refl
has_prefix-append (c ∷ p) s = ground (arith, has_prefix-append p s)

has_suffix-append : (s p : Text) → has_suffix (s ++ p) p ≡ true
unfolding has_suffix
has_suffix-append s p = rw (reverse-append s p) (has_prefix-append (reverse p) (reverse s))

take-append : (s t : Text) → take (length s) (s ++ t) ≡ s
take-append [] t = refl
take-append (c ∷ s) t = ap (◌∷◌ c) (take-append s t)

abbrev pub enclosed : ℕ → ℕ → Text → Text
enclosed a b s = a ∷ (s ++ b ∷ [])

abbrev pair : ℕ → ℕ → QuotePair
pair a b = new_quote_pair (a ∷ []) (b ∷ [])

is_quoted_by-enclosed : (a b : ℕ) (s : Text) → is_quoted_by (pair a b) (enclosed a b s) ≡ true
unfolding is_quoted_by has_prefix
is_quoted_by-enclosed a b s =
    ground (arith, length-append s (b ∷ []), has_suffix-append (a ∷ s) (b ∷ []))

is_quoted_by-other :
    (a b c : ℕ) (s : Text) → (c == a) ≡ false → is_quoted_by (pair a b) (c ∷ s) ≡ false
unfolding is_quoted_by has_prefix
is_quoted_by-other a b c s h = ground arith

un_quote-enclosed : (a b : ℕ) (s : Text) → un_quote (pair a b) (enclosed a b (doubled b s)) ≡ s
unfolding un_quote
un_quote-enclosed a b s =
    let inside : take (length (enclosed a b (doubled b s)) - 1) (enclosed a b (doubled b s))
        ≡ a ∷ doubled b s =
      rw (inner (doubled b s)) (take-append (a ∷ doubled b s) (b ∷ [])) in
    rw inside (replace-doubled_undone b s)
  where
    inner : (t : Text) → length (enclosed a b t) - 1 ≡ length (a ∷ t)
    inner t = omega (arith, length-append t (b ∷ []))

-- The quote pair is one of the table's.
abbrev pub OneOf : QuotePair → List QuotePair → Type 0
OneOf qp [] = ⊥
OneOf qp (q ∷ qps) = (qp ≡ q) ⊎ OneOf qp qps

unquote_in-hit :
    (a b : ℕ) (s : Text) (qps : List QuotePair)
    → unquote_in (pair a b ∷ qps) (enclosed a b (doubled b s)) ≡ s
unfolding unquote_in
unquote_in-hit a b s qps = rw (is_quoted_by-enclosed a b (doubled b s)) (un_quote-enclosed a b s)

unquote_in-miss :
    (a b c : ℕ) (s : Text) (qps : List QuotePair)
    → (c == a) ≡ false
    → unquote_in (pair a b ∷ qps) (c ∷ s) ≡ unquote_in qps (c ∷ s)
unfolding unquote_in
unquote_in-miss a b c s qps h = rw (is_quoted_by-other a b c s h)

-- The first pair of the table whose start fits is the one that quoted the text.
unquote-enclosed :
    (qp : QuotePair) (s : Text)
    → OneOf qp quote_pairs
    → unquote (qp.start ++ (replace s qp.end (qp.end ++ qp.end) ++ qp.end)) ≡ s
unfolding unquote
unquote-enclosed qp s (inl e) = rw (e, replace-doubled b'"' s) (unquote_in-hit b'"' b'"' s _)
unquote-enclosed qp s (inr (inl e)) =
    rw (e, replace-doubled b'`' s)
      (unquote_in-miss b'"' b'"' b'`' _ _ refl ∙ unquote_in-hit b'`' b'`' s _)
unquote-enclosed qp s (inr (inr (inl e))) =
    rw (e, replace-doubled b']' s)
      (unquote_in-miss b'"' b'"' b'[' _ _ refl
        ∙ unquote_in-miss b'`' b'`' b'[' _ _ refl
        ∙ unquote_in-hit b'[' b']' s _)
unquote-enclosed qp s (inr (inr (inr (inl e)))) =
    rw (e, replace-doubled b'\'' s)
      (unquote_in-miss b'"' b'"' b'\'' _ _ refl
        ∙ unquote_in-miss b'`' b'`' b'\'' _ _ refl
        ∙ unquote_in-miss b'[' b']' b'\'' _ _ refl
        ∙ unquote_in-hit b'\'' b'\'' s _)
unquote-enclosed qp s (inr (inr (inr (inr (inl e))))) =
    rw (e, replace-doubled b'}' s)
      (unquote_in-miss b'"' b'"' b'{' _ _ refl
        ∙ unquote_in-miss b'`' b'`' b'{' _ _ refl
        ∙ unquote_in-miss b'[' b']' b'{' _ _ refl
        ∙ unquote_in-miss b'\'' b'\'' b'{' _ _ refl
        ∙ unquote_in-hit b'{' b'}' s _)
unquote-enclosed qp s (inr (inr (inr (inr (inr h))))) = elim h [ ]

-- Quoting in any style of the table and unquoting gives what unquoting the text alone gives,
-- whichever quote runes it holds.
pub unquote-quote :
    (qp : QuotePair) (s : Text)
    → OneOf qp quote_pairs
    → unquote (quote s qp.start qp.end) ≡ unquote s
unfolding quote
unquote-quote qp s h = unquote-enclosed qp (unquote s) h
