-- ===== src/Wherein/Numbering.antt =====
-- The numbers that replace a numbered placeholder are those of its argument's values in the
-- flattened arguments.
use sqlr.Prelude.{
  ℕ, zero, suc, ◌+◌, ◌-◌, ◌≤◌, List, [], ◌∷◌, ◌++◌, append_assoc, map, Option-cases, some, inl, inr,
  ◌≡◌, refl, sym, ap, ap₂, ◌∙◌, arith, ◌==◌, ltb, if◌then◌else◌, length, length-map, get_elem?,
  length-append, get_elem?-append_right,
}
use mathlib.Core.Option
use sqlr.Wherein.{
  Arg, scalar, slice, PlaceholderInfo, ArgInfo, slice_len, slice_items, new_arg_infos_from,
  new_arg_infos, flatten_args, set_offsets_from, set_offsets, width, numbers, expanded_numbers,
}

module _ {V : Type 0} where
  -- The values that an argument stands for. An empty slice stands for itself.
  abbrev pub items : Arg V → List (Arg V)
  items (scalar v) = scalar v ∷ []
  items (slice []) = slice [] ∷ []
  items (slice (v ∷ vs)) = scalar v ∷ map scalar vs

  abbrev Reads : ArgInfo V → Type 0
  Reads i = i.len ≡ slice_len i.arg

  abbrev group : ArgInfo V → List (Arg V)
  group i = if i.len == 0 then i.arg ∷ [] else slice_items i.arg

  pub group-items : (i : ArgInfo V) (a : Arg V) → i.arg ≡ a → Reads i → group i ≡ items a
  group-items i (scalar v) e r = ground arith
  group-items i (slice []) e r = ground arith
  group-items i (slice (v ∷ vs)) e r =
      let len : i.len ≡ suc (length vs) = r ∙ ap slice_len e in rw (len, e) (ground arith)

  length-scalars : (vs : List V) → length (map scalar vs) ≡ length vs
  length-scalars vs = length-map vs scalar

  pub length-items : (i : ArgInfo V) (a : Arg V) → i.arg ≡ a → Reads i → length (items a) ≡ width i
  length-items i (scalar v) e r = ground arith
  length-items i (slice []) e r = ground arith
  length-items i (slice (v ∷ vs)) e r =
      let len : i.len ≡ suc (length vs) = r ∙ ap slice_len e in
      rw len (ground (arith, length-scalars vs))

  -- Every info that the loops make reads its length off its argument.
  AllRead : List (ArgInfo V) → Type 0
  AllRead [] = Unit
  AllRead (i ∷ infos) = Reads i × AllRead infos

  new_arg_infos-AllRead : (n : ℕ) (args : List (Arg V)) → AllRead (new_arg_infos_from n args)
  unfolding AllRead new_arg_infos_from
  new_arg_infos-AllRead n [] = tt
  new_arg_infos-AllRead n (a ∷ args) = (refl, new_arg_infos-AllRead (suc n) args)

  -- Where the values of the argument at `k` stand in the flattened arguments.
  record Place (flat : List (Arg V)) (i : ArgInfo V) (at : ℕ) : Type 0 where
    pre : List (Arg V)
    post : List (Arg V)
    reads : Reads i
    splits : flat ≡ pre ++ (items i.arg ++ post)
    starts : length pre ≡ at

  set_offsets-Place :
      (infos : List (ArgInfo V)) (k offset : ℕ) (i : ArgInfo V)
      → AllRead infos
      → get_elem? (set_offsets_from offset infos) k ≡ some i
      → (d : ℕ) × Place (flatten_args (set_offsets_from offset infos)) i d
        × (d + offset ≡ k + i.offset)
  unfolding AllRead set_offsets_from flatten_args
  set_offsets-Place [] k offset i r e = absurd (cc)
  set_offsets-Place (x ∷ infos) zero offset i r e =
      let here : i ≡ record x { offset = offset } = ground arith in
      rw here (
        0,
        record {
          pre = [];
          post =
              flatten_args
                (set_offsets_from (if ltb 0 x.len then offset + (x.len - 1) else offset) infos);
          reads = r.0;
          splits = rw (group-items x x.arg refl r.0);
          starts = refl;
        },
        omega arith,
      )
  set_offsets-Place (x ∷ infos) (suc k) offset i r e =
      let next = if ltb 0 x.len then offset + (x.len - 1) else offset in
      let (d, place, at) = set_offsets-Place infos k next i r.1 e in
      (
        width x + d,
        record {
          pre = group x ++ place.pre;
          post = place.post;
          reads = place.reads;
          splits = ap (◌++◌ (group x)) place.splits ∙ sym (append_assoc (group x) place.pre _);
          starts =
              length-append (group x) place.pre
              ∙ ap₂ ◌+◌ (ap length (group-items x x.arg refl r.0) ∙ length-items x x.arg refl r.0)
                  place.starts;
        },
        ground arith,
      )

  -- Reading the places that `numbers` lists gives the values, in their order.
  numbers-items :
      (pre group post : List (Arg V))
      → map
          (λ n. get_elem? (pre ++ (group ++ post)) (n - 1))
          (numbers (suc (length pre)) (length group))
        ≡ map some group
  unfolding numbers
  numbers-items pre [] post = refl
  numbers-items pre (a ∷ group) post =
      let longer : length (pre ++ a ∷ []) ≡ suc (length pre) =
        omega (arith, length-append pre (a ∷ [])) in
      ap₂ ◌∷◌ (get_elem?-append_right pre _ (suc (length pre) - 1) 0 (omega arith)) (
        rw (append_assoc pre (a ∷ []) (group ++ post), longer) at
          (numbers-items (pre ++ a ∷ []) group post))

  expanded_numbers-items :
      (args : List (Arg V)) (p : PlaceholderInfo) (i : ArgInfo V)
      → 1 ≤ p.orig_number
      → get_elem? (set_offsets (new_arg_infos args)) (p.orig_number - 1) ≡ some i
      → map
          (λ n. get_elem? (flatten_args (set_offsets (new_arg_infos args))) (n - 1))
          (expanded_numbers p i)
        ≡ map some (items i.arg)
  unfolding set_offsets new_arg_infos
  expanded_numbers-items args p i h e =
      let (d, place, at) =
        set_offsets-Place (new_arg_infos_from 0 args) (p.orig_number - 1) 0 i
          (new_arg_infos-AllRead 0 args) e in
      let first : p.orig_number + i.offset ≡ suc (length place.pre) = omega (arith, place.starts) in
      rw (first, ← length-items i i.arg refl place.reads, place.splits)
        (numbers-items place.pre (items i.arg) place.post)

  -- The info at a place carries the argument at that place.
  set_offsets-arg :
      (args : List (Arg V)) (k n offset : ℕ)
      → Option.map
          (λ (i : ArgInfo V). i.arg)
          (get_elem? (set_offsets_from offset (new_arg_infos_from n args)) k)
        ≡ get_elem? args k
  unfolding set_offsets_from new_arg_infos_from
  set_offsets-arg [] k n offset = refl
  set_offsets-arg (a ∷ args) zero n offset = refl
  set_offsets-arg (a ∷ args) (suc k) n offset = set_offsets-arg args k (suc n) _

  -- For every numbered placeholder whose number has an argument, the numbers that the expansion
  -- writes in its place are, in order, the places of that argument's values in the flattened
  -- arguments; an argument that is no slice, or an empty slice, counts as one value.
  pub expanded_numbers_lem :
      (args : List (Arg V)) (p : PlaceholderInfo) (a : Arg V)
      → 1 ≤ p.orig_number
      → get_elem? args (p.orig_number - 1) ≡ some a
      → (i : ArgInfo V) × (get_elem? (set_offsets (new_arg_infos args)) (p.orig_number - 1)
          ≡ some i)
        × (map
              (λ n. get_elem? (flatten_args (set_offsets (new_arg_infos args))) (n - 1))
              (expanded_numbers p i)
            ≡ map some (items a))
  unfolding set_offsets new_arg_infos
  expanded_numbers_lem args p a h e =
      let at = set_offsets-arg args (p.orig_number - 1) 0 0 ∙ e in
      elim (Option-cases (get_elem? (set_offsets (new_arg_infos args)) (p.orig_number - 1))) [
        | inl missing ↦ absurd (cc)
        | inr (i, found) ↦
            let same : i.arg ≡ a = ground arith in
            (i, found, rw same at (expanded_numbers-items args p i h found))
      ]
