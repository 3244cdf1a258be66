-- ===== src/DataLoader/Batch.antt =====
-- The keys that one query asks for.
use sqlr.Prelude.{
  ℕ, zero, suc, ◌+◌, ◌≤◌, Bool, true, false, not, ◌&&◌, ◌||◌, List, [], ◌∷◌, ◌++◌, Option, some,
  ◌==◌, ◌≡◌, refl, min, ◌⊎◌, inl, inr, if◌then◌else◌, keep, length, length-append, arith, ◌∙◌,
}
use sqlr.DataLoader.{elem, decrement, gather, batch}

unfoldable pub distinct : List ℕ → Bool
distinct [] = true
distinct (k ∷ ks) = not (elem k ks) && distinct ks

pub elem-append : (k : ℕ) (xs ys : List ℕ) → elem k (xs ++ ys) ≡ (elem k xs || elem k ys)
unfolding elem
elem-append k [] ys = refl
elem-append k (x ∷ xs) ys = ground (arith, elem-append k xs ys)

pub elem-one : (k j : ℕ) → elem k (j ∷ []) ≡ (j == k)
unfolding elem
elem-one k j = ground arith

pub distinct-append_one :
    (ks : List ℕ) (k : ℕ) → distinct ks ≡ true → elem k ks ≡ false → distinct (ks ++ k ∷ []) ≡ true
unfolding distinct elem
distinct-append_one [] k h n = refl
distinct-append_one (j ∷ ks) k h n =
    ground (arith, distinct-append_one ks k, elem-append j ks (k ∷ []), elem-one j k)

pub gather-elem_keys :
    (k : ℕ) (cap : Option ℕ) (keys ks : List ℕ)
    → elem k keys ≡ true
    → elem k (gather cap keys ks) ≡ true
unfolding gather
gather-elem_keys k cap keys [] h = h
gather-elem_keys k cap keys (j ∷ ks) h = ground (
  arith,
  gather-elem_keys k cap keys ks,
  gather-elem_keys k (decrement cap) (keys ++ j ∷ []) ks,
  elem-append k keys (j ∷ []),
)

gather-elem :
    (k : ℕ) (cap : Option ℕ) (keys ks : List ℕ)
    → elem k (gather cap keys ks) ≡ true
    → (elem k keys ≡ true) ⊎ (elem k ks ≡ true)
unfolding gather elem
gather-elem k cap keys [] h = inl h
gather-elem k cap keys (j ∷ ks) h = ground (
  arith,
  gather-elem k cap keys ks,
  gather-elem k (decrement cap) (keys ++ j ∷ []) ks,
  elem-append k keys (j ∷ []),
  elem-one k j,
)

gather-distinct :
    (cap : Option ℕ) (keys ks : List ℕ)
    → distinct keys ≡ true
    → distinct (gather cap keys ks) ≡ true
unfolding gather
gather-distinct cap keys [] h = h
gather-distinct cap keys (j ∷ ks) h = ground (
  arith,
  gather-distinct cap keys ks,
  gather-distinct (decrement cap) (keys ++ j ∷ []) ks,
  distinct-append_one keys j,
)

-- The pending keys that are not taken yet
others : List ℕ → List ℕ → List ℕ
others keys = keep (λ k. not (elem k keys))

others-append_one :
    (keys ks : List ℕ) (j : ℕ) → elem j ks ≡ false → others (keys ++ j ∷ []) ks ≡ others keys ks
unfolding others elem
others-append_one keys [] j h = refl
others-append_one keys (k ∷ ks) j h =
    ground (arith, others-append_one keys ks j, elem-append k keys (j ∷ []), elem-one k j)

length-gather :
    (n : ℕ) (keys ks : List ℕ)
    → distinct ks ≡ true
    → length (gather (some n) keys ks) ≡ length keys + min n (length (others keys ks))
unfolding gather distinct decrement others
length-gather n keys [] h = ground arith
length-gather zero keys (k ∷ ks) h = ground arith
length-gather (suc n) keys (k ∷ ks) h = ground (
  arith,
  length-gather (suc n) keys ks,
  length-gather n (keys ++ k ∷ []) ks,
  others-append_one keys ks k,
  length-append keys (k ∷ []),
)

others-none :
    (called : ℕ) (ks : List ℕ)
    → elem called ks ≡ false
    → length (others (called ∷ []) ks) ≡ length ks
unfolding others elem
others-none called [] h = refl
others-none called (k ∷ ks) h = ground (arith, others-none called ks)

-- All pending keys but the called one
length-others :
    (called : ℕ) (ks : List ℕ)
    → distinct ks ≡ true
    → length (others (called ∷ []) ks) + (if elem called ks then 1 else 0) ≡ length ks
unfolding others distinct elem
length-others called [] h = refl
length-others called (k ∷ ks) h = ground (arith, length-others called ks, others-none called ks)

gather-called :
    (cap : ℕ) (pending : List ℕ) (called : ℕ)
    → 1 ≤ cap
    → cap ≤ length pending
    → distinct pending ≡ true
    → elem called pending ≡ true
    → let keys = gather (decrement (some cap)) (called ∷ []) pending in
      (elem called keys ≡ true)
      × (distinct keys ≡ true)
      × ((k : ℕ) → elem k keys ≡ true → elem k pending ≡ true)
      × (length keys ≡ cap)
unfolding decrement elem distinct
gather-called zero pending called h le once known = absurd (omega arith)
gather-called (suc n) pending called h le once known = (
  gather-elem_keys called (some n) (called ∷ []) pending (ground arith),
  gather-distinct (some n) (called ∷ []) pending refl,
  (λ k m. elim (gather-elem k (some n) (called ∷ []) pending m) [
    | inl e ↦ ground (arith, elem-one k called)
    | inr e ↦ e
  ]),
  length-gather n (called ∷ []) pending once ∙ ground (arith, length-others called pending once),
)

-- With a limit of at least one, the keys of one query are the called key and other pending keys,
-- each once; they are as many as are pending, up to the limit.
pub batch_lem :
    (max_keys : ℕ) (pending : List ℕ) (called : ℕ)
    → 1 ≤ max_keys
    → distinct pending ≡ true
    → elem called pending ≡ true
    → (elem called (batch max_keys pending called) ≡ true)
      × (distinct (batch max_keys pending called) ≡ true)
      × ((k : ℕ) → elem k (batch max_keys pending called) ≡ true → elem k pending ≡ true)
      × (length (batch max_keys pending called) ≡ min max_keys (length pending))
unfolding batch decrement elem
batch_lem max_keys pending called some_key once known =
    gather-called (min max_keys (length pending)) pending called
      (ground (arith, length-others called pending once)) (omega arith) once known
