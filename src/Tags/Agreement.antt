-- ===== src/Tags/Agreement.antt =====
-- Which names the two readers of a tag find.
use sqlr.Prelude.{
  ℕ, zero, suc, ◌≤◌, ◌<◌, Bool, true, false, [], some, Text, codes, equal, length, ◌≡◌, refl, sym,
  ◌∙◌, ap, arith, Bool-cases, inl, inr, false≢true,
}
use sqlr.Go.Unicode.{Unicode}
use sqlr.Go.Strings.{lower, trim_space}
use sqlr.Quote.{is_quoted, unquote}
use sqlr.Scanner.{Token, keyword, ident, literal, op, Scanner, scan}
use sqlr.Scanner.Progress.{scan-progress, scan-le}
use sqlr.Sql.Table.{TagInfo}
use sqlr.Tags.{
  TagWord, primary_word, auto_word, natural_word, is_empty, tag_word, as_primary_key,
  as_auto_increment, as_natural_key, tag_scanner, second_word, on_word, on_token, tag_loop,
  parse_value, no_info, on_name_token, name_loop, name_from_tag_value,
}

module _ ⦃u : Unicode⦄ where
  on_word-le : (w : TagWord) (s : Scanner) (t : TagInfo) → length (on_word w s t).0.r ≤ length s.r
  unfolding on_word second_word
  on_word-le primary_word s t = scan-le s
  on_word-le auto_word s t = scan-le s
  on_word-le natural_word s t = scan-le s
  on_word-le _ s t = omega arith

  second_word-name :
      (second : Text) (set : TagInfo → TagInfo) (s : Scanner) (t : TagInfo)
      → (set t).name ≡ t.name
      → (second_word second set s t).1.name ≡ t.name
  unfolding second_word
  second_word-name second set s t h = ground arith

  on_word-name : (w : TagWord) (s : Scanner) (t : TagInfo) → (on_word w s t).1.name ≡ t.name
  unfolding on_word
  on_word-name primary_word s t = second_word-name (codes "key") as_primary_key s t refl
  on_word-name auto_word s t = second_word-name (codes "increment") as_auto_increment s t refl
  on_word-name natural_word s t = second_word-name (codes "key") as_natural_key s t refl
  on_word-name _ s t = refl

  on_token-le :
      (tok : Token) (had : Bool) (s : Scanner) (t : TagInfo)
      → length (on_token tok had s t).1.r ≤ length s.r
  unfolding on_token
  on_token-le keyword had s t = on_word-le (tag_word (lower s.text)) s t
  on_token-le _ had s t = omega arith

  -- A name that was found stays.
  on_token-name :
      (tok : Token) (had : Bool) (s : Scanner) (t : TagInfo)
      → is_empty t.name ≡ false
      → (on_token tok had s t).2.name ≡ t.name
  unfolding on_token
  on_token-name keyword had s t h = on_word-name (tag_word (lower s.text)) s t
  on_token-name ident had s t h = ground arith
  on_token-name literal had s t h = ground arith
  on_token-name op had s t h = ground arith
  on_token-name _ had s t h = refl

  -- The loop ends, and a name that was found stays.
  tag_loop-ends :
      (f : ℕ) (had : Bool) (s : Scanner) (t : TagInfo)
      → length s.r < f
      → (t' : TagInfo) × (tag_loop f had s t ≡ some t')
        × (is_empty t.name ≡ false → t'.name ≡ t.name)
  unfolding tag_loop
  tag_loop-ends zero had s t h = absurd (omega arith)
  tag_loop-ends (suc f) had s t h = elim (Bool-cases (scan s).1) [
    | inr e ↦ rw e (t, refl, λ n. refl)
    | inl more ↦
        let turn = on_token (scan s).0.token had (scan s).0 t in
        let le = on_token-le (scan s).0.token had (scan s).0 t in
        let (t', ends, name) =
          tag_loop-ends f turn.0 turn.1 turn.2 (omega (arith, scan-progress s more)) in
        rw more (
          t',
          ends,
          λ n.
              let same = on_token-name (scan s).0.token had (scan s).0 t n in
              name (ap is_empty same ∙ n) ∙ same,
        )
  ]

  -- What the loop of the one reader says of the loop of the other.
  abbrev Agrees : ℕ → Bool → Scanner → TagInfo → Text → Type 0
  Agrees f had s t name = (t' : TagInfo) × (tag_loop f had s t ≡ some t') × (t'.name ≡ name)

  on_name_token-Agrees :
      (f : ℕ) (tok : Token) (s : Scanner) (t : TagInfo) (rest name : Text)
      → length s.r < f
      → is_empty t.name ≡ true
      → is_empty name ≡ false
      → equal name (codes "-") ≡ false
      → ((t : TagInfo) → is_empty t.name ≡ true → rest ≡ name → Agrees f false s t name)
      → on_name_token tok s.text rest ≡ name
      → Agrees f
          (on_token tok false s t).0
          (on_token tok false s t).1
          (on_token tok false s t).2
          name
  unfolding on_name_token on_token
  on_name_token-Agrees f keyword s t rest name small fresh full dash again h =
      absurd (false≢true (sym full ∙ ap is_empty (sym h)))
  on_name_token-Agrees f ident s t rest name small fresh full dash again h =
      let (t', ends, kept) = tag_loop-ends f false s (record t { name = unquote s.text }) small in
      rw fresh (t', ends, kept (ap is_empty h ∙ full) ∙ h)
  on_name_token-Agrees f literal s t rest name small fresh full dash again h =
      elim (Bool-cases (is_quoted s.text)) [
        | inl q ↦
            let h' : unquote s.text ≡ name = rw q at h in
            let (t', ends, kept) =
              tag_loop-ends f false s (record t { name = unquote s.text }) small in
            rw (fresh, q) (t', ends, kept (ap is_empty h' ∙ full) ∙ h')
        | inr q ↦ rw (fresh, q) (again t fresh (rw q at h))
      ]
  on_name_token-Agrees f op s t rest name small fresh full dash again h =
      elim (Bool-cases (equal s.text (codes "-"))) [
        | inl q ↦
            let h' : s.text ≡ name = rw q at h in
            absurd (false≢true (sym dash ∙ ap (λ n. equal n (codes "-")) (sym h') ∙ q))
        | inr q ↦ absurd (false≢true (sym full ∙ ap is_empty (sym (rw q at h))))
      ]
  on_name_token-Agrees f _ s t rest name small fresh full dash again h = again t fresh h

  name_loop-Agrees :
      (f : ℕ) (s : Scanner) (t : TagInfo) (name : Text)
      → length s.r < f
      → is_empty t.name ≡ true
      → is_empty name ≡ false
      → equal name (codes "-") ≡ false
      → name_loop f s ≡ name
      → Agrees f false s t name
  unfolding name_loop tag_loop
  name_loop-Agrees zero s t name small fresh full dash h = absurd (omega arith)
  name_loop-Agrees (suc f) s t name small fresh full dash h = elim (Bool-cases (scan s).1) [
    | inr e ↦ absurd (false≢true (sym full ∙ ap is_empty (sym (rw e at h))))
    | inl more ↦
        let shorter : length (scan s).0.r < f = omega (arith, scan-progress s more) in
        let turn =
          on_name_token-Agrees f (scan s).0.token (scan s).0 t (name_loop f (scan s).0) name shorter
            fresh full dash
            (λ t fresh same. name_loop-Agrees f (scan s).0 t name shorter fresh full dash same)
            (rw more at h) in
        rw more turn
  ]

  name_from_tag_value-full :
      (value : Text)
      → is_empty (trim_space value) ≡ false
      → name_loop (suc (length (trim_space value))) (tag_scanner (trim_space value))
        ≡ name_from_tag_value value
  unfolding name_from_tag_value
  name_from_tag_value-full value e = rw e refl

  name_from_tag_value-blank :
      (value : Text) → is_empty (trim_space value) ≡ true → name_from_tag_value value ≡ []
  unfolding name_from_tag_value
  name_from_tag_value-blank value e = rw e refl

  -- The two readers of a tag agree: where `nameFromTagValue` finds a name in the value of a tag,
  -- and it is no dash, `ParseTag` of that value, trimmed, ends and has the same name.
  pub name_from_tag_value-parse_value :
      (value : Text)
      → is_empty (name_from_tag_value value) ≡ false
      → equal (name_from_tag_value value) (codes "-") ≡ false
      → (t : TagInfo) × (parse_value (trim_space value) ≡ some t)
        × (t.name ≡ name_from_tag_value value)
  unfolding parse_value
  name_from_tag_value-parse_value value full dash =
      elim (Bool-cases (is_empty (trim_space value))) [
        | inl e ↦ absurd (false≢true (sym full ∙ ap is_empty (name_from_tag_value-blank value e)))
        | inr e ↦
            name_loop-Agrees (suc (length (trim_space value))) (tag_scanner (trim_space value))
              no_info (name_from_tag_value value) (omega arith) refl full dash
              (name_from_tag_value-full value e)
      ]
