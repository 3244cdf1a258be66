-- ===== src/Sql/Columns/Terminates.antt =====
-- The loops of `Parse` end: their fuel is enough.
use mathlib.Core.Path.{subst}
use sqlr.Prelude.{
  ◌∙◌, ◌||◌, All, ℕ, zero, suc, ◌+◌, ◌≤◌, ◌<◌, Bool, true, false, List, [], ◌∷◌, Option, some, none,
  Text, ◌≡◌, ◌≢◌, refl, arith, Bool-cases, inl, inr, length, equal, codes, equal_iff,
}
use sqlr.Go.Unicode.{Unicode}
use sqlr.Go.Strings.{trim_space, lower}
use sqlr.Scanner.{Scanner, scan, is_keyword}
use sqlr.Scanner.Progress.{scan-progress, scan-le}
use sqlr.Sql.Clause.{Clause}
use sqlr.Sql.Columns.{
  ColumnList, Parsed, failed, out_of_fuel, word_of, Word, alias_word, all_word, pk_word,
  exclude_word, other_word, is_keyword_token, is_eof_token, finish, exclude_loop, parse_token,
  parse_loop, column_keywords, column_scanner, parse,
}
use sqlr.Sql.Columns.Keywords.{Spelled, scan-Spelled}

finish-ends : (e : Option Text) (cols : ColumnList) → finish e cols ≢ failed out_of_fuel
finish-ends none cols h = cc
finish-ends (some e) cols h = cc

-- A text that is one of the keywords is not another word.
word_of-known :
    (w : Text)
    → (equal (codes "exclude") w
        || (equal (codes "pk") w || (equal (codes "all") w || (equal (codes "alias") w || false))))
      ≡ true
    → word_of w ≢ other_word
unfolding word_of
word_of-known w h e = ground (
  arith,
  equal_iff (codes "exclude") w,
  equal_iff (codes "pk") w,
  equal_iff (codes "all") w,
  equal_iff (codes "alias") w,
  equal_iff w (codes "exclude"),
  equal_iff w (codes "pk"),
  equal_iff w (codes "all"),
  equal_iff w (codes "alias"),
)

module _ ⦃u : Unicode⦄ where
  abbrev keywords : List Text
  keywords = (column_scanner []).keywords

  -- A scanner with these keywords, on a token that it has found.
  record Known (s : Scanner) : Type 0 where
    keywords_are : s.keywords ≡ keywords
    spelled : Spelled keywords s.token s.text

  scan-Known : (s : Scanner) → s.keywords ≡ keywords → Known (scan s).0
  scan-Known s e =
      let (spelled, same) = scan-Spelled s in
      record {
        keywords_are = same ∙ e;
        spelled = subst (λ ks. Spelled ks (scan s).0.token (scan s).0.text) e spelled;
      }

  -- The loop behind `exclude` ends, and leaves no more than it was given.
  exclude_loop-ends :
      (f : ℕ) (s : Scanner) (names : List Text)
      → s.keywords ≡ keywords
      → length s.r < f
      → (s' : Scanner) × (names' : List Text) × (exclude_loop f s names ≡ some (s', names'))
        × (length s'.r ≤ length s.r)
        × Known s'
  unfolding exclude_loop
  exclude_loop-ends zero s names k h = absurd (omega arith)
  exclude_loop-ends (suc f) s names k h =
      let first = scan-Known s k in
      let second = scan-Known (scan s).0 first.keywords_are in
      elim (Bool-cases (scan s).1) [
        | inr e ↦ ((scan s).0, names, rw e refl, scan-le s, first)
        | inl e ↦ elim (Bool-cases (equal (scan s).0.text (codes ","))) [
          | inr c ↦ ((scan s).0, names, rw (e, c) refl, scan-le s, first)
          | inl c ↦ elim (Bool-cases (scan (scan s).0).1) [
            | inr d ↦ (
              (scan (scan s).0).0,
              names,
              rw (e, c, d) refl,
              omega (arith, scan-le s, scan-le (scan s).0),
              second,
            )
            | inl d ↦
                let (s', names', found, le, known) =
                  exclude_loop-ends f (scan (scan s).0).0 ((scan (scan s).0).0.text ∷ names)
                    second.keywords_are (omega (arith, scan-progress s e, scan-le (scan s).0, h)) in
                (
                  s',
                  names',
                  rw (e, c, d) found,
                  omega (arith, le, scan-le s, scan-le (scan s).0),
                  known,
                )
          ]
        ]
      ]

  Ends : Parsed → Type 0
  Ends p = p ≢ failed out_of_fuel

  parse_token-Ends :
      (next again : Scanner → ColumnList → Parsed) (s : Scanner) (cols : ColumnList) (w : Word)
      → s.keywords ≡ keywords
      → w ≢ other_word
      → ((s' : Scanner) (cols' : ColumnList)
          → s'.keywords ≡ keywords
          → length s'.r ≤ length s.r
          → Ends (next s' cols'))
      → ((s' : Scanner) (cols' : ColumnList)
          → Known s'
          → length s'.r < length s.r
          → Ends (again s' cols'))
      → Ends (parse_token next again s cols w)
  unfolding parse_token Ends
  parse_token-Ends next again s cols alias_word k w n a = elim (Bool-cases (scan s).1) [
    | inl e ↦ rw e (n (scan s).0 _ (scan-Known s k).keywords_are (scan-le s))
    | inr e ↦ rw e (λ h. cc)
  ]
  parse_token-Ends next again s cols all_word k w n a = n s _ k (omega arith)
  parse_token-Ends next again s cols pk_word k w n a = n s _ k (omega arith)
  parse_token-Ends next again s cols exclude_word k w n a = elim (Bool-cases (scan s).1) [
    | inl e ↦
        let (s', names, found, le, known) =
          exclude_loop-ends (suc (length (scan s).0.r)) (scan s).0 ((scan s).0.text ∷ cols.exclude)
            (scan-Known s k).keywords_are (omega arith) in
        rw (e, found) (a s' _ known (omega (arith, le, scan-progress s e)))
    | inr e ↦ rw e (λ h. cc)
  ]
  parse_token-Ends next again s cols other_word k w n a = absurd (w refl)

  -- The keywords are in lower case and have no white space around them, as `AddKeywords` leaves them.
  abbrev pub Lowered : Type 0
  Lowered = All (λ k. trim_space (lower k) ≡ k) column_keywords

  Known-word :
      (s : Scanner)
      → Lowered
      → Known s
      → is_keyword_token s.token ≡ true
      → word_of (lower s.text) ≢ other_word
  unfolding is_keyword
  Known-word s low known e =
      word_of-known (lower s.text)
        (rw low.1.1.1.0 at (rw low.1.1.0 at (rw low.1.0 at (rw low.0 at (known.spelled e)))))

  -- The fuel that the loop needs
  abbrev need : Bool → ℕ → ℕ
  need true n = n + n + 1
  need false n = n + n + 2

  parse_loop-Ends :
      (f : ℕ) (flag : Bool) (s : Scanner) (cols : ColumnList)
      → Lowered
      → s.keywords ≡ keywords
      → (flag ≡ false → Known s)
      → need flag (length s.r) ≤ f
      → Ends (parse_loop f flag s cols)
  unfolding parse_loop Ends
  parse_loop-Ends zero true s cols low k known h = absurd (omega arith)
  parse_loop-Ends zero false s cols low k known h = absurd (omega arith)
  parse_loop-Ends (suc f) true s cols low k known h = elim (Bool-cases (scan s).1) [
    | inl e ↦ rw e (
        parse_loop-Ends f false (scan s).0 cols low (scan-Known s k).keywords_are
          (λ x. scan-Known s k) (omega (arith, scan-progress s e, h)))
    | inr e ↦ rw e (finish-ends _ cols)
  ]
  parse_loop-Ends (suc f) false s cols low k known h = elim (Bool-cases (is_eof_token s.token)) [
    | inl e ↦ rw e (finish-ends _ cols)
    | inr e ↦ elim (Bool-cases (is_keyword_token s.token)) [
      | inl w ↦
          rw (e, w)
            (parse_token-Ends (parse_loop f true) (parse_loop f false) s cols _ k
              (Known-word s low (known refl) w)
              (λ s' cols' k' le.
                parse_loop-Ends f true s' cols' low k' (λ x. absurd (cc)) (omega (arith, le, h)))
              (λ s' cols' known' lt.
                parse_loop-Ends f false s' cols' low known'.keywords_are (λ x. known')
                  (omega (arith, lt, h))))
      | inr w ↦
          rw (e, w) (parse_loop-Ends f true s cols low k (λ x. absurd (cc)) (omega (arith, h)))
    ]
  ]

  -- The parser of a column list has enough fuel for every text, if the keywords are in lower case
  -- and trimmed already.
  pub parse_terminates :
      (cols : ColumnList) (c : Clause) (text : Text)
      → Lowered
      → parse cols c text ≢ failed out_of_fuel
  unfolding parse Ends
  parse_terminates cols c text low =
      parse_loop-Ends _ true (column_scanner text) _ low refl (λ x. absurd (cc)) (omega arith)
