-- ===== src/Tests/Loaders.antt =====
-- A data loader whose rows are pairs of a key and a name.
use sqlr.Prelude.{ℕ, true, [], ◌∷◌, none, ◌≡◌, refl, arith, length, min, Text}
use mathlib.Core.Option
use sqlr.DataLoader.{
  elem, Thunk, Loader, each, not_implemented, Config, batch, call, call_found, perform_query, force,
  force_found, after_query, is_panic,
}
use sqlr.DataLoader.Batch.{distinct, batch_lem}
use sqlr.DataLoader.WellFormed.{WellFormed}
use sqlr.DataLoader.Reachable.{calls, Reachable, made, after, empty, Reachable-WellFormed}

three_distinct : distinct (3 ∷ 4 ∷ 5 ∷ []) ≡ true
unfolding distinct elem
three_distinct = refl

five_pending : elem 5 (3 ∷ 4 ∷ 5 ∷ []) ≡ true
unfolding elem
five_pending = refl

batch_lem_example :
    (elem 5 (batch 2 (3 ∷ 4 ∷ 5 ∷ []) 5) ≡ true)
    × (distinct (batch 2 (3 ∷ 4 ∷ 5 ∷ []) 5) ≡ true)
    × ((k : ℕ) → elem k (batch 2 (3 ∷ 4 ∷ 5 ∷ []) 5) ≡ true → elem k (3 ∷ 4 ∷ 5 ∷ []) ≡ true)
    × (length (batch 2 (3 ∷ 4 ∷ 5 ∷ []) 5) ≡ min 2 (length {A = ℕ} (3 ∷ 4 ∷ 5 ∷ [])))
batch_lem_example = batch_lem 2 (3 ∷ 4 ∷ 5 ∷ []) 5 (omega arith) three_distinct five_pending

-- Key 4 has no row, and key 9 is not asked for.
abbrev config : Config (ℕ × ℕ) ℕ Text
config = record {
  max_keys = 2;
  zero_value = 0;
  query = λ keys. ((3, 30) ∷ (9, 90) ∷ (3, 31) ∷ [], none);
  key_of = λ row. row.0;
  stored = each (λ row. row.1);
}

abbrev loader : Loader ℕ Text
loader = call (call empty 3) 4

reached : Reachable config loader
reached = after (after made (calls 3)) (calls 4)

Reachable-WellFormed_example : WellFormed loader
Reachable-WellFormed_example = Reachable-WellFormed config reached

abbrev waiting : Thunk ℕ Text
waiting = record { pending = true; result = none }

-- A loader of slices of what its key function returns with the key: it panics, and then its thunk
-- gives the zero value.
abbrev slices : Config (ℕ × ℕ) ℕ Text
slices = record config { stored = not_implemented }

panics : (force slices loader 3).1 ≡ none
unfolding force force_found after_query perform_query is_panic call call_found
panics = refl
