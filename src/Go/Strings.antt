-- ===== src/Go/Strings.antt =====
-- The functions of the `strings` package that the program calls.
use sqlr.Prelude.{
  ℕ, zero, suc, ◌-◌, Bool, true, false, ◌&&◌, ◌||◌, List, [], ◌∷◌, ◌++◌, map, Text, ◌==◌,
  if◌then◌else◌, length,
}
use sqlr.Go.Unicode.{Unicode, is_space, to_lower}
use mathlib.Core.List.{reverse}

unfoldable pub contains_rune : Text → ℕ → Bool
contains_rune [] c = false
contains_rune (x ∷ s) c = x == c || contains_rune s c

unfoldable pub has_prefix : Text → Text → Bool
has_prefix s [] = true
has_prefix [] (x ∷ p) = false
has_prefix (c ∷ s) (x ∷ p) = c == x && has_prefix s p

unfoldable pub has_suffix : Text → Text → Bool
unfolding has_prefix
has_suffix s p = has_prefix (reverse s) (reverse p)

-- `strings.Replace(s, old, new, -1)` for a non-empty `old`: the leftmost matches that do not
-- overlap. The number counts the runes of the current match that are still to be dropped.
unfoldable pub replace_from : ℕ → Text → Text → Text → Text
unfolding has_prefix
replace_from k [] old new = []
replace_from (suc k) (c ∷ s) old new = replace_from k s old new
replace_from zero (c ∷ s) old new =
    let replaced = new ++ replace_from (length old - 1) s old new in
    let kept = c ∷ replace_from zero s old new in if has_prefix (c ∷ s) old then replaced else kept

unfoldable pub replace : Text → Text → Text → Text
unfolding replace_from
replace = replace_from zero

unfoldable pub trim_left : (ℕ → Bool) → Text → Text
trim_left p [] = []
trim_left p (c ∷ s) = if p c then trim_left p s else c ∷ s

unfoldable pub trim_right : (ℕ → Bool) → Text → Text
unfolding trim_left
trim_right p s = reverse (trim_left p (reverse s))

unfoldable pub cons_first : ℕ → List Text → List Text
cons_first c [] = (c ∷ []) ∷ []
cons_first c (p ∷ ps) = (c ∷ p) ∷ ps

-- `strings.Split(s, sep)` for a separator of one rune; never empty.
unfoldable pub split : ℕ → Text → List Text
unfolding cons_first
split sep [] = [] ∷ []
split sep (c ∷ s) = let ps = split sep s in if c == sep then [] ∷ ps else cons_first c ps

-- `strings.Join(ps, sep)`
unfoldable pub join : List Text → Text → Text
join [] sep = []
join (p ∷ []) sep = p
join (p ∷ q ∷ ps) sep = p ++ (sep ++ join (q ∷ ps) sep)

module _ ⦃u : Unicode⦄ where
  unfoldable pub trim_space : Text → Text
  unfolding trim_left trim_right
  trim_space s = trim_right is_space (trim_left is_space s)

  unfoldable pub lower : Text → Text
  lower = map to_lower
