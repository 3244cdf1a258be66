-- ===== src/Naming.antt =====
-- private/naming/naming.go: from the names of Go fields and types to those of columns and tables.
pub mod Snake
use sqlr.Prelude.{
  ℕ, suc, Bool, true, false, ◌&&◌, ◌||◌, List, [], ◌∷◌, ◌++◌, Option, none, some, Text, codes,
  if◌then◌else◌,
}
use sqlr.Go.Unicode.{Unicode, is_upper, is_lower, to_lower}
use sqlr.Go.Strings.{join, lower}

-- The interface `NamingConvention`.
pub record NamingConvention : Type 0 where
  pub convert : Text → Text
  pub join_names : List Text → Text
  pub table_name : Text → Text

module _ ⦃u : Unicode⦄ where
  -- `runes[i+1]` is lower case, if there is one
  abbrev pub next_is_lower : Text → Bool
  next_is_lower [] = false
  next_is_lower (c ∷ s) = is_lower c

  -- `runes[i-1]` is lower case; there is none at the start, where the loop tests `i > 0`
  abbrev pub inserts : Option ℕ → ℕ → Text → Bool
  inserts none c rest = false
  inserts (some before) c rest = is_upper c && (next_is_lower rest || is_lower before)

  -- The loop of `SnakeCaseConvention.Convert`, from the rune before and the runes that are left.
  unfoldable pub snake_from : Option ℕ → Text → Text
  snake_from before [] = []
  snake_from before (c ∷ rest) =
      let tail = to_lower c ∷ snake_from (some c) rest in
      if inserts before c rest then b'_' ∷ tail else tail

  unfoldable pub snake_convert : Text → Text
  snake_convert = snake_from none

  unfoldable pub snake_join : List Text → Text
  snake_join names = join names (codes "_")

  unfoldable pub snake_case : NamingConvention
  snake_case = record {
    convert = snake_convert;
    join_names = snake_join;
    table_name = snake_convert;
  }

  unfoldable pub lower_case : NamingConvention
  lower_case = record { convert = lower; join_names = λ names. join names []; table_name = lower }

  unfoldable pub same_case : NamingConvention
  same_case = record {
    convert = λ name. name;
    join_names = λ names. join names [];
    table_name = λ name. name;
  }
