-- ===== src/Wherein/Outcomes.antt =====
-- When `Expand` fails, and when it has nothing to do.
use sqlr.Prelude.{
  err, ok, ℕ, suc, ◌-◌, ◌≤◌, ◌<◌, Bool, true, false, not, List, [], ◌∷◌, ◌++◌, Text, ◌≡◌, ◌⊎◌, refl,
  ap, ◌∙◌, arith, length, get_elem?-some, get_elem?-none, All, All-append_left,
}
use sqlr.Go.Unicode.{Unicode}
use sqlr.Wherein.{
  Arg, mixed_placeholders, not_enough, not_enough_for, PlaceholderInfo, ArgInfo, new_arg_infos_from,
  new_arg_infos, set_offsets_from, set_offsets, has_slice, is_numbered, any,
  are_placeholders_numeric, write_numbered, expand_placeholders, expand,
}

abbrev pub IsNumbered : PlaceholderInfo → Type 0
IsNumbered p = 1 ≤ p.orig_number

any-not_numbered :
    (ps : List PlaceholderInfo) → All IsNumbered ps → any (λ p. not (is_numbered p)) ps ≡ false
any-not_numbered [] h = refl
any-not_numbered (p ∷ ps) h = ground (arith, any-not_numbered ps h.1, h.0)

any-positional :
    (ps : List PlaceholderInfo) → All (λ p. p.orig_number ≡ 0) ps → any is_numbered ps ≡ false
any-positional [] h = refl
any-positional (p ∷ ps) h = ground (arith, any-positional ps h.1, h.0)

any-append {ℓ} :
    {A : Type ℓ} (p : A → Bool) (xs : List A) (y : A) (ys : List A)
    → p y ≡ true
    → any p (xs ++ y ∷ ys) ≡ true
any-append p [] y ys h = ground arith
any-append p (x ∷ xs) y ys h = ground (arith, any-append p xs y ys h)

pub are_placeholders_numeric-numbered :
    (p : PlaceholderInfo) (ps : List PlaceholderInfo)
    → All IsNumbered (p ∷ ps)
    → are_placeholders_numeric (p ∷ ps) ≡ ok true
unfolding are_placeholders_numeric
are_placeholders_numeric-numbered p ps h = ground (arith, any-not_numbered ps h.1, h.0)

pub are_placeholders_numeric-positional :
    (ps : List PlaceholderInfo)
    → All (λ p. p.orig_number ≡ 0) ps
    → are_placeholders_numeric ps ≡ ok false
unfolding are_placeholders_numeric
are_placeholders_numeric-positional ps h = rw (any-positional ps h)

-- A query whose first placeholder is of one kind, and a later one of the other kind, is refused.
pub are_placeholders_numeric-mixed :
    (before after : List PlaceholderInfo) (p q : PlaceholderInfo)
    → (IsNumbered p × (q.orig_number ≡ 0)) ⊎ ((p.orig_number ≡ 0) × IsNumbered q)
    → are_placeholders_numeric (p ∷ (before ++ q ∷ after)) ≡ err mixed_placeholders
unfolding are_placeholders_numeric
are_placeholders_numeric-mixed before after p q h = ground (
  arith,
  any-append is_numbered before q after,
  any-append (λ i. not (is_numbered i)) before q after,
)

module _ {V : Type 0} where
  -- Arguments with no slice among them are sent as they are, with the query as it is.
  pub expand-scalars :
      ⦃u : Unicode⦄ (query : Text) (args : List (Arg V))
      → has_slice args ≡ false
      → expand query args ≡ ok (query, args)
  unfolding expand
  expand-scalars query args h = rw h

  pub length-new_arg_infos :
      (n : ℕ) (args : List (Arg V)) → length (new_arg_infos_from n args) ≡ length args
  unfolding new_arg_infos_from
  length-new_arg_infos n [] = refl
  length-new_arg_infos n (a ∷ args) = ap suc (length-new_arg_infos (suc n) args)

  length-set_offsets :
      (infos : List (ArgInfo V)) (offset : ℕ)
      → length (set_offsets_from offset infos) ≡ length infos
  unfolding set_offsets_from
  length-set_offsets [] offset = refl
  length-set_offsets (i ∷ infos) offset = ap suc (length-set_offsets infos _)

  abbrev HasArg : List (ArgInfo V) → PlaceholderInfo → Type 0
  HasArg infos p = (1 ≤ p.orig_number) × (p.orig_number ≤ length infos)

  -- The first number that has no argument is the one that the error names.
  write_numbered-missing :
      (infos : List (ArgInfo V)) (before : List PlaceholderInfo) (p : PlaceholderInfo)
      (after : List PlaceholderInfo)
      → All (HasArg infos) before
      → length infos < p.orig_number
      → write_numbered infos (before ++ p ∷ after) ≡ err (not_enough_for p.placeholder_text)
  unfolding write_numbered
  write_numbered-missing infos [] p after h lt =
      rw (write_numbered, get_elem?-none infos (p.orig_number - 1) (omega arith))
  write_numbered-missing infos (q ∷ before) p after h lt =
      let (i, found) = get_elem?-some infos (q.orig_number - 1) (omega (arith, h.0)) in
      rw (write_numbered, found, write_numbered-missing infos before p after h.1 lt)

  infos_of : List (Arg V) → List (ArgInfo V)
  infos_of args = set_offsets (new_arg_infos args)

  length-infos_of : (args : List (Arg V)) → length (infos_of args) ≡ length args
  unfolding infos_of set_offsets new_arg_infos
  length-infos_of args =
      length-set_offsets (new_arg_infos_from 0 args) 0 ∙ length-new_arg_infos 0 args

  All-HasArg :
      (args : List (Arg V)) (ps : List PlaceholderInfo)
      → All IsNumbered ps
      → All (λ p. p.orig_number ≤ length args) ps
      → All (HasArg (infos_of args)) ps
  All-HasArg args [] h k = tt
  All-HasArg args (p ∷ ps) h k =
      ((h.0, omega (arith, k.0, length-infos_of args)), All-HasArg args ps h.1 k.1)

  -- If every placeholder is numbered, the first whose number has no argument is the one that the
  -- error names.
  pub expand_placeholders-missing :
      (before : List PlaceholderInfo) (q : PlaceholderInfo) (after : List PlaceholderInfo)
      (trailing : Text) (args : List (Arg V))
      → All IsNumbered (before ++ q ∷ after)
      → All (λ b. b.orig_number ≤ length args) before
      → length args < q.orig_number
      → expand_placeholders (before ++ q ∷ after) trailing args
        ≡ err (not_enough_for q.placeholder_text)
  unfolding expand_placeholders infos_of
  expand_placeholders-missing before q after trailing args h k lt =
      let missing =
        write_numbered-missing (infos_of args) before q after
          (All-HasArg args before (All-append_left IsNumbered before (q ∷ after) h) k)
          (omega (arith, length-infos_of args)) in
      rw (numeric before h, missing)
    where
      numeric :
          (b : List PlaceholderInfo)
          → All IsNumbered (b ++ q ∷ after)
          → are_placeholders_numeric (b ++ q ∷ after) ≡ ok true
      numeric [] h = are_placeholders_numeric-numbered q after h
      numeric (x ∷ b) h = are_placeholders_numeric-numbered x (b ++ q ∷ after) h

  -- If every placeholder is positional and there are fewer arguments, the expansion is refused.
  pub expand_placeholders-too_few :
      (ps : List PlaceholderInfo) (trailing : Text) (args : List (Arg V))
      → All (λ p. p.orig_number ≡ 0) ps
      → length args < length ps
      → expand_placeholders ps trailing args ≡ err not_enough
  unfolding expand_placeholders new_arg_infos
  expand_placeholders-too_few ps trailing args h lt =
      rw (are_placeholders_numeric-positional ps h, length-new_arg_infos 0 args) (ground arith)
