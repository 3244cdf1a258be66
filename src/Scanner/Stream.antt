-- ===== src/Scanner/Stream.antt =====
-- The loop `for scan.Scan() { … }`: the tokens that its body sees, and the scanner at its end.
pub mod Ends
pub mod Lossless
use sqlr.Prelude.{
  ℕ, zero, suc, ◌<◌, Bool, true, false, List, [], ◌∷◌, ◌++◌, Text, ◌≡◌, refl, arith, length,
}
use sqlr.Go.Unicode.{Unicode}
use sqlr.Scanner.Progress.{scan-progress}
use sqlr.Scanner.{Token, Scanner, scan}

abbrev pub Lexed : Type 0
Lexed = Token × Text

-- One round of the loop, on what `Scan` returned; `onward` is the rounds that follow.
loop_round : (Scanner → List Lexed × Scanner) → Scanner × Bool → List Lexed × Scanner
loop_round onward (s, true) = let (ts, last) = onward s in ((s.token, s.text) ∷ ts, last)
loop_round onward (s, false) = ([], s)

module _ ⦃u : Unicode⦄ where
  unfoldable pub scan_loop : ℕ → Scanner → List Lexed × Scanner
  unfolding loop_round
  scan_loop zero s = ([], s)
  scan_loop (suc f) s = loop_round (scan_loop f) (scan s)

  unfoldable pub scan_all : Scanner → List Lexed × Scanner
  unfolding scan_loop
  scan_all s = scan_loop (suc (length s.r)) s

  -- The loop with no fuel: `Scan` returns true for each token listed, and then false.
  pub data Run : Scanner → List Lexed → Scanner → Type 0 where
    stop : {s last : Scanner} → scan s ≡ (last, false) → Run s [] last
    next :
        {s s' last : Scanner} {ts : List Lexed}
        → scan s ≡ (s', true)
        → Run s' ts last
        → Run s ((s'.token, s'.text) ∷ ts) last

  loop_round-Run :
      (onward : Scanner → List Lexed × Scanner) (s : Scanner) (q : Scanner × Bool)
      → scan s ≡ q
      → (q.1 ≡ true → Run q.0 (onward q.0).0 (onward q.0).1)
      → Run s (loop_round onward q).0 (loop_round onward q).1
  unfolding loop_round
  loop_round-Run onward s (s', true) e rest = next e (rest refl)
  loop_round-Run onward s (s', false) e rest = stop e

  scan_loop-Run : (f : ℕ) (s : Scanner) → length s.r < f → Run s (scan_loop f s).0 (scan_loop f s).1
  unfolding scan_loop
  scan_loop-Run zero s h = elim h [ ]
  scan_loop-Run (suc f) s h =
      loop_round-Run (scan_loop f) s (scan s) refl
        (λ more. scan_loop-Run f (scan s).0 (omega (arith, scan-progress s more)))

  -- The loop over the tokens of any scanner ends because `Scan` returns false, and its fuel is
  -- enough for that.
  pub scan_all-Run : (s : Scanner) → Run s (scan_all s).0 (scan_all s).1
  unfolding scan_all
  scan_all-Run s = scan_loop-Run (suc (length s.r)) s (omega arith)

  abbrev pub spelling : List Lexed → Text
  spelling [] = []
  spelling ((tok, text) ∷ ts) = text ++ spelling ts
