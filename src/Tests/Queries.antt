-- ===== src/Tests/Queries.antt =====
-- Expanding slices in the arguments of a query.
use sqlr.Prelude.{ok, ℕ, ◌-◌, List, [], ◌∷◌, ◌++◌, map, some, codes, ◌≡◌, refl, arith, get_elem?}
use sqlr.Tests.Ascii.{ascii}
use sqlr.Scanner.{scan, scan_rune, first_rune}
use sqlr.Scanner.Stream.{scan_all}
use sqlr.Wherein.{
  has_slice, flatten_query, new_placeholder_infos, collect, write_positional, Arg, scalar, slice,
  PlaceholderInfo, ArgInfo, are_placeholders_numeric, set_offsets, new_arg_infos, flatten_args,
  expanded_numbers, expand_placeholders, expand,
}
use sqlr.Wherein.Numbering.{items, expanded_numbers_lem}
use sqlr.Wherein.Reference.{
  flat, positional_sql, numbered_sql, expand_placeholders-positional, expand_placeholders-numbered,
}

abbrev numbered : ℕ → PlaceholderInfo
numbered n = record {
  leading_sql = codes " and a in ";
  placeholder_text = codes "$";
  placeholder_prefix = codes "$";
  orig_number = n;
}

abbrev positional : PlaceholderInfo
positional = numbered 0

-- A scalar, a slice of two values and an empty slice
abbrev args : List (Arg ℕ)
args = scalar 7 ∷ slice (8 ∷ 9 ∷ []) ∷ slice [] ∷ []

expanded_numbers_lem_example :
    (i : ArgInfo ℕ) × (get_elem? (set_offsets (new_arg_infos args)) 1 ≡ some i)
    × (map
          (λ n. get_elem? (flatten_args (set_offsets (new_arg_infos args))) (n - 1))
          (expanded_numbers (numbered 2) i)
        ≡ map some (items (slice (8 ∷ 9 ∷ []))))
expanded_numbers_lem_example =
    expanded_numbers_lem args (numbered 2) (slice (8 ∷ 9 ∷ [])) (omega arith) refl

expand_placeholders-numbered_example :
    expand_placeholders (numbered 2 ∷ numbered 3 ∷ []) [] args
    ≡ ok (numbered_sql (numbered 2 ∷ numbered 3 ∷ []) args ++ [], flat args)
expand_placeholders-numbered_example =
    expand_placeholders-numbered (numbered 2) (numbered 3 ∷ []) [] args
      (omega arith, (omega arith, tt)) (omega arith, (omega arith, tt))

expand_placeholders-positional_example :
    expand_placeholders (positional ∷ positional ∷ positional ∷ []) [] args
    ≡ ok (positional_sql (positional ∷ positional ∷ positional ∷ []) args ++ [], flat args)
expand_placeholders-positional_example =
    expand_placeholders-positional (positional ∷ positional ∷ positional ∷ []) [] args
      (refl, (refl, (refl, tt))) (omega arith)

-- A slice in the place of a positional placeholder
positional_run :
    expand {V = ℕ} (codes "a in (?) and b = ?") (slice (8 ∷ 9 ∷ []) ∷ scalar 7 ∷ [])
    ≡ ok (codes "a in (?,?) and b = ?", scalar 8 ∷ scalar 9 ∷ scalar 7 ∷ [])
unfolding expand has_slice flatten_query new_placeholder_infos collect scan_all scan scan_rune
    first_rune expand_placeholders are_placeholders_numeric new_arg_infos write_positional
    flatten_args
positional_run = refl

-- From a rune that begins no token on, the query is dropped.
dropped_run :
    expand {V = ℕ} (codes "a in (?) \\ and b = ?") (slice (8 ∷ 9 ∷ []) ∷ [])
    ≡ ok (codes "a in (?,?) ", scalar 8 ∷ scalar 9 ∷ [])
unfolding expand has_slice flatten_query new_placeholder_infos collect scan_all scan scan_rune
    first_rune expand_placeholders are_placeholders_numeric new_arg_infos write_positional
    flatten_args
dropped_run = refl
