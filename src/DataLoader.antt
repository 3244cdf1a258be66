-- ===== src/DataLoader.antt =====
-- dataloader/dataloader.go: a loader that answers several keys with one query. A number stands for
-- a key, which the source compares by `==` only. The query function and the key function are the
-- caller's, and are parameters.
pub mod Make
pub mod Batch
pub mod Groups
pub mod Answers
pub mod WellFormed
pub mod Reachable
use sqlr.Prelude.{
  ℕ, zero, suc, Bool, true, false, not, ◌&&◌, List, [], ◌∷◌, ◌++◌, Option, none, some, ◌==◌, min,
  if◌then◌else◌, keep, length,
}
use mathlib.Core.Option

unfoldable pub elem : ℕ → List ℕ → Bool
elem k [] = false
elem k (j ∷ js) = if j == k then true else elem k js

-- What a thunk returns: a value and an error. `resultValue` is nil at first.
abbrev pub Answer : Type 0 → Type 0 → Type 0
Answer V E = V × Option E

-- The fields of `thunkT` that change.
pub record Thunk (V E : Type 0) : Type 0 where
  pub pending : Bool
  pub result : Option (Answer V E)

-- The maps of `dataLoader`: the thunks, and the keys of those that are pending, in the order in which
-- `range` happens to give them.
pub record Loader (V E : Type 0) : Type 0 where
  pub thunks : ℕ → Option (Thunk V E)
  pub pending : List ℕ

-- How `performQuery` stores rows, by the types that `Make` found: a value for each row (the row itself,
-- or what the key function returns with the key), or all rows of a key. For a slice of what the key
-- function returns with the key, which `Make` accepts, it panics.
pub data Stored (Row V : Type 0) : Type 0 where
  each : (Row → V) → Stored Row V
  grouped : (List Row → V) → Stored Row V
  not_implemented : Stored Row V

-- What a call leaves: the loader, and what it returns, where `none` is a panic.
abbrev pub Called : Type 0 → Type 0 → Type 0
Called L A = L × Option A

-- The fields of `dataLoader` that do not change, and `maxKeysPerQuery`.
pub record Config (Row V E : Type 0) : Type 0 where
  pub max_keys : ℕ
  pub zero_value : V
  pub query : List ℕ → List Row × Option E
  pub key_of : Row → ℕ
  pub stored : Stored Row V

-- `cap--`; `none` is a number below zero, which the test `cap == 0` never stops
unfoldable pub decrement : Option ℕ → Option ℕ
decrement none = none
decrement (some zero) = none
decrement (some (suc n)) = some n

abbrev pub is_zero : Option ℕ → Bool
is_zero (some zero) = true
is_zero _ = false

-- The loop over the pending thunks: the keys that the query asks for.
unfoldable pub gather : Option ℕ → List ℕ → List ℕ → List ℕ
unfolding decrement
gather cap keys [] = keys
gather cap keys (k ∷ ks) =
    let skip = gather cap keys ks in
    let add = gather (decrement cap) (keys ++ k ∷ []) ks in
    if is_zero cap then keys else if elem k keys then skip else add

unfoldable pub batch : ℕ → List ℕ → ℕ → List ℕ
unfolding gather decrement
batch max_keys pending called =
    gather (decrement (some (min max_keys (length pending)))) (called ∷ []) pending

abbrev pub with_result : {V E : Type 0} → Answer V E → Thunk V E → Thunk V E
with_result answer t = record t { result = some answer }

abbrev pub with_answer : {V E : Type 0} → Answer V E → Thunk V E → Thunk V E
with_answer answer t = record { pending = false; result = some answer }

abbrev pub Thunks : Type 0 → Type 0 → Type 0
Thunks V E = ℕ → Option (Thunk V E)

module _ {V E : Type 0} where
  unfoldable pub put : Thunks V E → ℕ → Thunk V E → Thunks V E
  put ts k t j = if k == j then some t else ts j

  -- A thunk for each key, no longer pending, with this answer.
  unfoldable pub answer_all : Thunks V E → List ℕ → Answer V E → Thunks V E
  answer_all ts keys answer j = if elem j keys then Option.map (with_answer answer) (ts j) else ts j

  -- `if thunk, ok := thunks[key]; ok { thunk.resultValue = … }`
  unfoldable pub answer_one : Thunks V E → List ℕ → ℕ → Answer V E → Thunks V E
  answer_one ts keys k answer j =
      if elem k keys && k == j then Option.map (with_result answer) (ts j) else ts j

  -- `Call` of the loader, by what it finds in the map
  unfoldable pub call_found : Loader V E → ℕ → Option (Thunk V E) → Loader V E
  unfolding put
  call_found l k (some t) = l
  call_found l k none = record {
    thunks = put l.thunks k (record { pending = true; result = none });
    pending = l.pending ++ k ∷ [];
  }

  unfoldable pub call : Loader V E → ℕ → Loader V E
  call l k = call_found l k (l.thunks k)

  -- The thunk's result, unless it is pending; that is the panic of `Call`, and so is a thunk that the
  -- loader does not know.
  unfoldable pub settled :
      Loader V E → Option (Thunk V E) → Called (Loader V E) (Option (Answer V E))
  settled l none = (l, none)
  settled l (some t) = (l, if t.pending then none else some t.result)

  -- `Call` of a thunk behind `performQuery`
  unfoldable pub after_query :
      Called (Loader V E) Unit → ℕ → Called (Loader V E) (Option (Answer V E))
  after_query (l, none) k = (l, none)
  after_query (l, some u) k = settled l (l.thunks k)

module _ {Row : Type 0} where
  -- `resultValueMap`: the rows of each key
  unfoldable pub add_row : ℕ → Row → List (ℕ × List Row) → List (ℕ × List Row)
  add_row k row [] = (k, row ∷ []) ∷ []
  add_row k row ((j, rows) ∷ groups) =
      if j == k then (j, rows ++ row ∷ []) ∷ groups else (j, rows) ∷ add_row k row groups

  unfoldable pub group_rows : (Row → ℕ) → List (ℕ × List Row) → List Row → List (ℕ × List Row)
  group_rows key_of groups [] = groups
  group_rows key_of groups (row ∷ rows) = group_rows key_of (add_row (key_of row) row groups) rows

module _ {Row V E : Type 0} where
  unfoldable pub store_each : (Row → ℕ) → (Row → V) → List ℕ → Thunks V E → List Row → Thunks V E
  store_each key_of value keys ts [] = ts
  store_each key_of value keys ts (row ∷ rows) =
      store_each key_of value keys (answer_one ts keys (key_of row) (value row, none)) rows

  unfoldable pub store_groups :
      (List Row → V) → List ℕ → Thunks V E → List (ℕ × List Row) → Thunks V E
  store_groups value keys ts [] = ts
  store_groups value keys ts ((k, rows) ∷ groups) =
      store_groups value keys (answer_one ts keys k (value rows, none)) groups

  unfoldable pub store_rows : (Row → ℕ) → Stored Row V → List ℕ → Thunks V E → List Row → Thunks V E
  store_rows key_of (each value) keys ts rows = store_each key_of value keys ts rows
  store_rows key_of (grouped value) keys ts rows =
      store_groups value keys ts (group_rows key_of [] rows)
  store_rows key_of not_implemented keys ts rows = ts

  -- `panic("not implemented")`, which an error of the query function comes before
  unfoldable pub is_panic : Stored Row V → Option E → Bool
  is_panic not_implemented none = true
  is_panic _ _ = false

  -- `performQuery` behind the call of the query function, whose results these are
  unfoldable pub store_results :
      Config Row V E → List ℕ → Thunks V E → List Row × Option E → Thunks V E
  store_results cfg keys ts (rows, some e) = answer_all ts keys (cfg.zero_value, some e)
  store_results cfg keys ts (rows, none) = store_rows cfg.key_of cfg.stored keys ts rows

  -- `performQuery`: the loader as it leaves it, also where it panics
  unfoldable pub perform_query : Config Row V E → Loader V E → ℕ → Called (Loader V E) Unit
  perform_query cfg l called =
      let keys = batch cfg.max_keys l.pending called in
      let results = cfg.query keys in
      (
        record {
          thunks = store_results cfg keys (answer_all l.thunks keys (cfg.zero_value, none)) results;
          pending = keep (λ k. not (elem k keys)) l.pending;
        },
        if is_panic cfg.stored results.1 then none else some tt,
      )

  -- `Call` of a thunk, by the thunk
  unfoldable pub force_found :
      Config Row V E
      → Loader V E
      → ℕ
      → Option (Thunk V E)
      → Called (Loader V E) (Option (Answer V E))
  force_found cfg l k none = (l, none)
  force_found cfg l k (some t) =
      if t.pending then after_query (perform_query cfg l k) k else (l, some t.result)

  unfoldable pub force : Config Row V E → Loader V E → ℕ → Called (Loader V E) (Option (Answer V E))
  force cfg l k = force_found cfg l k (l.thunks k)
