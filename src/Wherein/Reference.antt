-- ===== src/Wherein/Reference.antt =====
-- What `Expand` writes and sends, told of the arguments alone, without offsets and counts.
use sqlr.Prelude.{
  ok, ℕ, zero, suc, ◌+◌, ◌-◌, ◌≤◌, List, [], ◌∷◌, ◌++◌, map, Option, none, some, Text, codes, ◌≡◌,
  refl, ap, ap₂, ◌∙◌, arith, ltb, if◌then◌else◌, length, length-append, get_elem?, get_elem?-some,
  take, All,
}
use sqlr.Go.Strings.{join}
use sqlr.Go.Strconv.{itoa}
use sqlr.Wherein.{
  Arg, PlaceholderInfo, ArgInfo, slice_len, new_arg_infos_from, new_arg_infos, flatten_args,
  set_offsets_from, set_offsets, width, numbers, expanded_numbers, comma_separated, copies,
  numbered_text, positional_text, write_numbered, write_positional, expand_placeholders,
}
use sqlr.Wherein.Numbering.{items, group-items, length-items}
use sqlr.Wherein.Outcomes.{
  IsNumbered, are_placeholders_numeric-numbered, are_placeholders_numeric-positional,
  length-new_arg_infos,
}

-- The places of the values of a list, counted from a number
abbrev pub places {ℓ} : {A : Type ℓ} → ℕ → List A → List ℕ
places n [] = []
places n (x ∷ xs) = n ∷ places (suc n) xs

numbers-places {ℓ} : {A : Type ℓ} (n : ℕ) (xs : List A) → numbers n (length xs) ≡ places n xs
unfolding numbers
numbers-places n [] = refl
numbers-places n (x ∷ xs) = ap (λ ns. n ∷ ns) (numbers-places (suc n) xs)

copies-map {ℓ} :
    {A : Type ℓ} (text : Text) (xs : List A) → copies (length xs) text ≡ map (λ x. text) xs
unfolding copies
copies-map text [] = refl
copies-map text (x ∷ xs) = ap (λ ts. text ∷ ts) (copies-map text xs)

comma_separated-join : (ts : List Text) → comma_separated ts ≡ join ts (codes ",")
unfolding comma_separated join
comma_separated-join [] = refl
comma_separated-join (t ∷ []) = refl
comma_separated-join (t ∷ s ∷ ts) = ap (λ r. t ++ (codes "," ++ r)) (comma_separated-join (s ∷ ts))

module _ {V : Type 0} where
  -- The values of the arguments, one behind the other
  abbrev pub flat : List (Arg V) → List (Arg V)
  flat [] = []
  flat (a ∷ args) = items a ++ flat args

  -- A positional placeholder stands for the argument at its place.
  abbrev pub positional_sql : List PlaceholderInfo → List (Arg V) → Text
  positional_sql [] args = []
  positional_sql (p ∷ ps) [] = []
  positional_sql (p ∷ ps) (a ∷ args) =
      p.leading_sql
      ++ (join (map (λ v. p.placeholder_text) (items a)) (codes ",") ++ positional_sql ps args)

  -- A numbered placeholder stands for the argument with its number, whose values stand in `flat`
  -- behind those of the arguments before.
  abbrev pub numbered_group : List (Arg V) → PlaceholderInfo → ℕ → Option (Arg V) → Text
  numbered_group args p k none = []
  numbered_group args p k (some a) =
      join
        (map (λ n. p.placeholder_prefix ++ itoa n)
          (places (suc (length (flat (take k args)))) (items a)))
        (codes ",")

  abbrev pub numbered_sql : List PlaceholderInfo → List (Arg V) → Text
  numbered_sql [] args = []
  numbered_sql (p ∷ ps) args =
      p.leading_sql
      ++ (numbered_group args p (p.orig_number - 1) (get_elem? args (p.orig_number - 1))
          ++ numbered_sql ps args)

  abbrev info_of : ℕ → ℕ → Arg V → ArgInfo V
  info_of n offset a = record { index = n; offset = offset; arg = a; len = slice_len a }

  flatten_args-flat :
      (n : ℕ) (args : List (Arg V)) → flatten_args (new_arg_infos_from n args) ≡ flat args
  unfolding flatten_args new_arg_infos_from
  flatten_args-flat n [] = refl
  flatten_args-flat n (a ∷ args) =
      ap₂ ◌++◌ (group-items (info_of n 0 a) a refl refl) (flatten_args-flat (suc n) args)

  flatten_args-set_offsets :
      (n offset : ℕ) (args : List (Arg V))
      → flatten_args (set_offsets_from offset (new_arg_infos_from n args)) ≡ flat args
  unfolding flatten_args new_arg_infos_from set_offsets_from
  flatten_args-set_offsets n offset [] = refl
  flatten_args-set_offsets n offset (a ∷ args) =
      ap₂ ◌++◌ (group-items (info_of n offset a) a refl refl)
        (flatten_args-set_offsets (suc n) _ args)

  positional_text-items :
      (p : PlaceholderInfo) (n : ℕ) (a : Arg V)
      → positional_text p (info_of n 0 a)
        ≡ join (map (λ v. p.placeholder_text) (items a)) (codes ",")
  positional_text-items p n a =
      comma_separated-join (copies (width (info_of n 0 a)) p.placeholder_text)
      ∙ rw (← length-items (info_of n 0 a) a refl refl, copies-map p.placeholder_text (items a))
          refl

  write_positional-sql :
      (n : ℕ) (ps : List PlaceholderInfo) (args : List (Arg V))
      → write_positional (new_arg_infos_from n args) ps ≡ positional_sql ps args
  unfolding write_positional new_arg_infos_from
  write_positional-sql n [] args = refl
  write_positional-sql n (p ∷ ps) [] = refl
  write_positional-sql n (p ∷ ps) (a ∷ args) =
      ap₂ (λ t rest. p.leading_sql ++ (t ++ rest)) (positional_text-items p n a)
        (write_positional-sql (suc n) ps args)

  -- If every placeholder is positional and there are arguments enough, the expansion succeeds: it
  -- writes, for each placeholder, its leading text and as many copies with commas between them as
  -- the argument at its place has values, and sends the values of all arguments one behind the
  -- other; an argument that is no slice, or an empty slice, is one value.
  pub expand_placeholders-positional :
      (ps : List PlaceholderInfo) (trailing : Text) (args : List (Arg V))
      → All (λ p. p.orig_number ≡ 0) ps
      → length ps ≤ length args
      → expand_placeholders ps trailing args ≡ ok (positional_sql ps args ++ trailing, flat args)
  unfolding expand_placeholders new_arg_infos
  expand_placeholders-positional ps trailing args h enough =
      rw
        (
          are_placeholders_numeric-positional ps h,
          length-new_arg_infos 0 args,
          write_positional-sql 0 ps args,
          flatten_args-flat 0 args,
        )
        (ground arith)

  -- The info of the argument at a place, and its offset
  set_offsets-flat :
      (args : List (Arg V)) (k n offset : ℕ) (a : Arg V)
      → get_elem? args k ≡ some a
      → (i : ArgInfo V) × (get_elem? (set_offsets_from offset (new_arg_infos_from n args)) k
          ≡ some i)
        × (i.arg ≡ a)
        × (i.len ≡ slice_len i.arg)
        × (k + i.offset ≡ offset + length (flat (take k args)))
  unfolding set_offsets_from new_arg_infos_from
  set_offsets-flat [] k n offset a e = absurd (cc)
  set_offsets-flat (x ∷ args) zero n offset a e =
      (info_of n offset x, refl, ground arith, refl, omega arith)
  set_offsets-flat (x ∷ args) (suc k) n offset a e =
      let next = if ltb 0 (slice_len x) then offset + (slice_len x - 1) else offset in
      let (i, found, same, reads, at) = set_offsets-flat args k (suc n) next a e in
      (
        i,
        found,
        same,
        reads,
        ground (
          arith,
          length-append (items x) (flat (take k args)),
          length-items (info_of n offset x) x refl refl,
        ),
      )

  numbered_text-group :
      (p : PlaceholderInfo) (i : ArgInfo V) (a : Arg V) (args : List (Arg V)) (k : ℕ)
      → i.arg ≡ a
      → i.len ≡ slice_len i.arg
      → p.orig_number + i.offset ≡ suc (length (flat (take k args)))
      → numbered_text p i ≡ numbered_group args p k (some a)
  numbered_text-group p i a args k same reads at =
      comma_separated-join (map (λ n. p.placeholder_prefix ++ itoa n) (expanded_numbers p i))
      ∙ rw
          (
            at,
            ← length-items i a same reads,
            numbers-places (suc (length (flat (take k args)))) (items a),
          )
          refl

  write_numbered-sql :
      (ps : List PlaceholderInfo) (args : List (Arg V))
      → All IsNumbered ps
      → All (λ q. q.orig_number ≤ length args) ps
      → write_numbered (set_offsets (new_arg_infos args)) ps ≡ ok (numbered_sql ps args)
  unfolding write_numbered set_offsets new_arg_infos
  write_numbered-sql [] args h le = refl
  write_numbered-sql (p ∷ ps) args h le =
      let (a, there) = get_elem?-some args (p.orig_number - 1) (omega (arith, h.0, le.0)) in
      let (i, found, same, reads, at) = set_offsets-flat args (p.orig_number - 1) 0 0 a there in
      rw
        (
          write_numbered,
          found,
          write_numbered-sql ps args h.1 le.1,
          numbered_text-group p i a args (p.orig_number - 1) same reads (omega (arith, at, h.0)),
          there,
        )
        refl

  -- If there is a placeholder, and every one is numbered and has an argument, the expansion
  -- succeeds: it writes, for each placeholder, its leading text and, with its prefix and with
  -- commas between them, the places that the values of its argument have among the values of all
  -- arguments one behind the other, which it sends.
  pub expand_placeholders-numbered :
      (p : PlaceholderInfo) (ps : List PlaceholderInfo) (trailing : Text) (args : List (Arg V))
      → All IsNumbered (p ∷ ps)
      → All (λ q. q.orig_number ≤ length args) (p ∷ ps)
      → expand_placeholders (p ∷ ps) trailing args
        ≡ ok (numbered_sql (p ∷ ps) args ++ trailing, flat args)
  unfolding expand_placeholders set_offsets new_arg_infos
  expand_placeholders-numbered p ps trailing args h le =
      rw
        (
          are_placeholders_numeric-numbered p ps h,
          write_numbered-sql (p ∷ ps) args h le,
          flatten_args-set_offsets 0 0 args,
        )
        refl
