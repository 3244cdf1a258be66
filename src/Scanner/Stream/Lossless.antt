-- ===== src/Scanner/Stream/Lossless.antt =====
-- The texts of the tokens make up the input.
use sqlr.Prelude.{
  false, List, [], ◌∷◌, ◌++◌, append_assoc, append-nil, none, Text, ◌≡◌, inl, inr, refl, sym, ap,
  ◌∙◌, arith, All-append_right,
}
use sqlr.Go.Unicode.{Unicode}
use sqlr.Scanner.{Scanner, eof_rune, read, first_rune, scan}
use sqlr.Scanner.Lossless.{NoNul, scan-Splits}
use sqlr.Scanner.Stream.{Lexed, Run, stop, next, scan_all, scan_all-Run, spelling}
use sqlr.Scanner.Stream.Ends.{scan-false}

module _ ⦃u : Unicode⦄ where
  scan-ignore_white_space : (s : Scanner) → (scan s).0.ignore_white_space ≡ s.ignore_white_space
  unfolding scan
  scan-ignore_white_space s = ground arith

  scan-lossless :
      (s : Scanner)
      → NoNul s.r
      → s.ignore_white_space ≡ false
      → (scan s).0.text ++ (scan s).0.r ≡ s.r
  scan-lossless s h verbatim =
      let (w, split) = scan-Splits s h in sym (rw (split.verbatim verbatim) at split.splits)

  Run-lossless :
      {s last : Scanner} {ts : List Lexed}
      → Run s ts last
      → NoNul s.r
      → s.ignore_white_space ≡ false
      → spelling ts ++ (last.text ++ last.r) ≡ s.r
  Run-lossless {s} (stop e) h v = rw e at (scan-lossless s h v)
  Run-lossless {s} (next {s' = s'} {last = last} {ts = ts} e r) h v =
      let split : s'.text ++ s'.r ≡ s.r = rw e at (scan-lossless s h v) in
      let later =
        Run-lossless r (All-append_right _ s'.text s'.r (rw split h))
          (rw e at (scan-ignore_white_space s) ∙ v) in
      append_assoc s'.text (spelling ts) (last.text ++ last.r) ∙ ap (◌++◌ s'.text) later ∙ split

  read-eof : (r : Text) → NoNul r → (read r).0 ≡ eof_rune → r ≡ []
  read-eof [] h e = refl
  read-eof (c ∷ r) h e = absurd (h.0 e)

  scan-end :
      (s : Scanner)
      → NoNul s.r
      → s.ignore_white_space ≡ false
      → (scan s).1 ≡ false
      → (scan s).0.err ≡ none
      → (scan s).0.text ++ (scan s).0.r ≡ []
  unfolding first_rune
  scan-end s h v stopped fine = elim (scan-false s stopped) [
    | inl at_end ↦ scan-lossless s h v ∙ read-eof s.r h (rw v at at_end)
    | inr failed ↦ absurd (cc)
  ]

  Run-end :
      {s last : Scanner} {ts : List Lexed}
      → Run s ts last
      → NoNul s.r
      → s.ignore_white_space ≡ false
      → last.err ≡ none
      → last.text ++ last.r ≡ []
  Run-end {s} (stop e) h v fine = rw e at (scan-end s h v (ap (λ q. q.1) e) (rw e fine))
  Run-end {s} (next {s' = s'} e r) h v fine =
      let split : s'.text ++ s'.r ≡ s.r = rw e at (scan-lossless s h v) in
      Run-end r (All-append_right _ s'.text s'.r (rw split h))
        (rw e at (scan-ignore_white_space s) ∙ v) fine

  -- Of an input with no NUL rune, scanned with its white space, the texts of the tokens and what
  -- is left when the loop ends make up the input; if the scanner reports no error, nothing is
  -- left.
  pub scan_all-lossless :
      (s : Scanner)
      → NoNul s.r
      → s.ignore_white_space ≡ false
      → (spelling (scan_all s).0 ++ ((scan_all s).1.text ++ (scan_all s).1.r) ≡ s.r)
        × ((scan_all s).1.err ≡ none → spelling (scan_all s).0 ≡ s.r)
  scan_all-lossless s h v =
      let all = Run-lossless (scan_all-Run s) h v in
      (all, λ fine. sym (append-nil _) ∙ rw (Run-end (scan_all-Run s) h v fine) at all)
