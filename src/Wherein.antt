-- ===== src/Wherein.antt =====
-- private/wherein/wherein.go: expanding the arguments that are slices.
pub mod Numbering
pub mod Outcomes
pub mod Reference
use sqlr.Prelude.{
  Result, ok, err, ◌>>=◌, ℕ, zero, suc, ◌+◌, ◌-◌, Bool, true, false, not, ◌&&◌, ◌||◌, List, [], ◌∷◌,
  ◌++◌, map, Option, none, some, Text, codes, ◌==◌, leb, ltb, if◌then◌else◌, length, get_elem?,
}
use sqlr.Go.Unicode.{Unicode}
use sqlr.Go.Strconv.{is_ascii_digit, atoi, itoa}
use sqlr.Scanner.{Token, ws, comment, placeholder, new}
use sqlr.Scanner.Stream.{Lexed, scan_all}

-- An argument as the type switches of `hasSlice` and `newArgInfos` see it: a slice of values, or
-- anything else: the listed types (`string`, `[]byte`, numbers, `time.Time`, `driver.Valuer`) and
-- the other types that are no slice.
pub data Arg (V : Type 0) : Type 0 where
  scalar : V → Arg V
  slice : List V → Arg V

pub data Error : Type 0 where
  unrecognized_placeholder : Text → Error
  invalid_placeholder : Text → Error
  mixed_placeholders : Error
  not_enough_for : Text → Error
  not_enough : Error

-- `placeholderInfoT`
pub record PlaceholderInfo : Type 0 where
  pub leading_sql : Text
  pub placeholder_text : Text
  pub placeholder_prefix : Text
  pub orig_number : ℕ

-- `argInfoT`; `slice` and `len` are read off the argument
pub record ArgInfo (V : Type 0) : Type 0 where
  pub index : ℕ
  pub offset : ℕ
  pub arg : Arg V
  pub len : ℕ

abbrev all_digits : Text → Bool
all_digits [] = true
all_digits (c ∷ s) = is_ascii_digit c && all_digits s

-- `placeholderNumberRE.FindStringSubmatch`: the two groups of the leftmost match
unfoldable pub placeholder_number : Text → Option (Text × Text)
placeholder_number [] = none
placeholder_number (c ∷ s) =
    if (c == b'?' || c == b'$') && all_digits s then some (c ∷ [], s) else placeholder_number s

-- `origNumber`: zero if there are no digits
unfoldable pub parse_number : Text → Text → Result Error ℕ
unfolding atoi
parse_number text [] = ok 0
parse_number text (c ∷ s) = elim (atoi (c ∷ s)) [
  | none ↦ err (invalid_placeholder text)
  | some n ↦ if ltb n 1 then err (invalid_placeholder text) else ok n
]

unfoldable pub new_placeholder_info : Text → Text → Result Error PlaceholderInfo
unfolding placeholder_number parse_number
new_placeholder_info leading text = elim (placeholder_number text) [
  | none ↦ err (unrecognized_placeholder text)
  | some (prefix, digits) ↦ do
    n ← parse_number text digits
    ok (record {
      leading_sql = leading;
      placeholder_text = text;
      placeholder_prefix = prefix;
      orig_number = n;
    })
]

-- The loop of `newPlaceholderInfos` over the tokens, on the infos so far and the buffer.
unfoldable pub collect :
    List PlaceholderInfo → Text → List Lexed → Result Error (List PlaceholderInfo × Text)
unfolding new_placeholder_info
collect infos buf [] = ok (infos, buf)
collect infos buf ((placeholder, text) ∷ ts) = do
  info ← new_placeholder_info buf text
  collect (infos ++ info ∷ []) [] ts
collect infos buf ((ws, text) ∷ ts) = collect infos (buf ++ codes " ") ts
collect infos buf ((comment, text) ∷ ts) = collect infos (buf ++ codes " ") ts
collect infos buf ((tok, text) ∷ ts) = collect infos (buf ++ text) ts

abbrev pub is_numbered : PlaceholderInfo → Bool
is_numbered info = ltb 0 info.orig_number

abbrev pub any {ℓ} : {A : Type ℓ} → (A → Bool) → List A → Bool
any p [] = false
any p (x ∷ xs) = p x || any p xs

unfoldable pub are_placeholders_numeric : List PlaceholderInfo → Result Error Bool
are_placeholders_numeric infos =
    let numeric = any is_numbered infos in
    let positional = any (λ i. not (is_numbered i)) infos in
    if numeric && positional then err mixed_placeholders else ok numeric

-- `for n := start; n < end; n++`
unfoldable pub numbers : ℕ → ℕ → List ℕ
numbers start zero = []
numbers start (suc count) = start ∷ numbers (suc start) count

-- The texts of one group, with the commas between them.
unfoldable pub comma_separated : List Text → Text
comma_separated [] = []
comma_separated (t ∷ []) = t
comma_separated (t ∷ t' ∷ ts) = t ++ (codes "," ++ comma_separated (t' ∷ ts))

unfoldable pub copies : ℕ → Text → List Text
copies zero text = []
copies (suc n) text = text ∷ copies n text

module _ {V : Type 0} where
  unfoldable pub has_slice : List (Arg V) → Bool
  has_slice [] = false
  has_slice (scalar v ∷ args) = has_slice args
  has_slice (slice vs ∷ args) = true

  abbrev pub slice_len : Arg V → ℕ
  slice_len (scalar v) = 0
  slice_len (slice vs) = length vs

  unfoldable pub new_arg_infos_from : ℕ → List (Arg V) → List (ArgInfo V)
  new_arg_infos_from i [] = []
  new_arg_infos_from i (a ∷ args) =
      record { index = i; offset = 0; arg = a; len = slice_len a } ∷ new_arg_infos_from (suc i) args

  unfoldable pub new_arg_infos : List (Arg V) → List (ArgInfo V)
  unfolding new_arg_infos_from
  new_arg_infos = new_arg_infos_from 0

  -- `argInfo.slice.Index(i).Interface()`, for each i in turn
  abbrev pub slice_items : Arg V → List (Arg V)
  slice_items (scalar v) = []
  slice_items (slice vs) = map scalar vs

  unfoldable pub flatten_args : List (ArgInfo V) → List (Arg V)
  flatten_args [] = []
  flatten_args (i ∷ infos) =
      (if i.len == 0 then i.arg ∷ [] else slice_items i.arg) ++ flatten_args infos

  unfoldable pub set_offsets_from : ℕ → List (ArgInfo V) → List (ArgInfo V)
  set_offsets_from offset [] = []
  set_offsets_from offset (i ∷ infos) =
      record i { offset = offset }
      ∷ set_offsets_from (if ltb 0 i.len then offset + (i.len - 1) else offset) infos

  unfoldable pub set_offsets : List (ArgInfo V) → List (ArgInfo V)
  unfolding set_offsets_from
  set_offsets = set_offsets_from 0

  -- `count`, and the number of copies of a positional placeholder
  abbrev pub width : ArgInfo V → ℕ
  width i = if i.len == 0 then 1 else i.len

  -- One numbered placeholder: the numbers of the flattened arguments that it stands for.
  abbrev pub expanded_numbers : PlaceholderInfo → ArgInfo V → List ℕ
  expanded_numbers p i = numbers (p.orig_number + i.offset) (width i)

  abbrev pub numbered_text : PlaceholderInfo → ArgInfo V → Text
  numbered_text p i =
      comma_separated (map (λ n. p.placeholder_prefix ++ itoa n) (expanded_numbers p i))

  -- the loop over numbered placeholders; the result is what it writes to the buffer
  unfoldable pub write_numbered : List (ArgInfo V) → List PlaceholderInfo → Result Error Text
  unfolding numbers comma_separated itoa
  write_numbered infos [] = ok []
  write_numbered infos (p ∷ ps) = elim (get_elem? infos (p.orig_number - 1)) [
    | none ↦ err (not_enough_for p.placeholder_text)
    | some i ↦ do rest ← write_numbered infos ps; ok (p.leading_sql ++ (numbered_text p i ++ rest))
  ]

  abbrev pub positional_text : PlaceholderInfo → ArgInfo V → Text
  positional_text p i = comma_separated (copies (width i) p.placeholder_text)

  -- the loop over positional placeholders, each with the argument at its place
  unfoldable pub write_positional : List (ArgInfo V) → List PlaceholderInfo → Text
  unfolding copies comma_separated
  write_positional infos [] = []
  write_positional [] (p ∷ ps) = []
  write_positional (i ∷ infos) (p ∷ ps) =
      p.leading_sql ++ (positional_text p i ++ write_positional infos ps)

  -- The part of `flattenQuery` behind the scan.
  unfoldable pub expand_placeholders :
      List PlaceholderInfo → Text → List (Arg V) → Result Error (Text × List (Arg V))
  expand_placeholders placeholders trailing args = do
    let infos = new_arg_infos args
    numeric ← are_placeholders_numeric placeholders
    if numeric
        then (do
          let infos' = set_offsets infos
          sql ← write_numbered infos' placeholders
          ok (sql ++ trailing, flatten_args infos'))
        else (if ltb (length infos) (length placeholders)
            then err not_enough
            else ok (write_positional infos placeholders ++ trailing, flatten_args infos))

module _ ⦃u : Unicode⦄ where
  unfoldable pub new_placeholder_infos : Text → Result Error (List PlaceholderInfo × Text)
  new_placeholder_infos query = collect [] [] (scan_all (new query)).0

  module _ {V : Type 0} where
    unfoldable pub flatten_query : Text → List (Arg V) → Result Error (Text × List (Arg V))
    flatten_query query args = do
      (placeholders, trailing) ← new_placeholder_infos query
      expand_placeholders placeholders trailing args

    unfoldable pub expand : Text → List (Arg V) → Result Error (Text × List (Arg V))
    expand query args = if not (has_slice args) then ok (query, args) else flatten_query query args
