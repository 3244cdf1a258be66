-- ===== src/DataLoader/Answers.antt =====
-- The answers that a query leaves in the thunks.
use sqlr.DataLoader.Groups.{rows_of, as_group, group_rows-group_of}
use mathlib.Core.Option
use sqlr.Prelude.{
  ℕ, true, false, List, [], ◌∷◌, Option, none, some, ◌==◌, ◌≡◌, ◌↔◌, refl, sym, ap, ◌∙◌, arith,
  if◌then◌else◌, Bool-cases, Option-cases, inl, inr, ◌⊎◌, last, last-some, ==_iff,
}
use sqlr.DataLoader.{
  elem, Answer, Thunk, Thunks, Loader, Stored, each, grouped, not_implemented, Config, batch,
  answer_all, answer_one, store_each, group_rows, store_groups, store_rows, store_results, is_panic,
  perform_query, with_result, with_answer,
}

-- What the rows of one key say: the last of them, or all of them, if there are any.
abbrev pub value_of : {Row V : Type 0} → Stored Row V → List Row → Option V
value_of (each value) rows = Option.map value (last rows)
value_of (grouped value) [] = none
value_of (grouped value) (row ∷ rows) = some (value (row ∷ rows))
value_of not_implemented rows = none

abbrev pub or_zero : {V : Type 0} → V → Option V → V
or_zero z none = z
or_zero z (some v) = v

-- The answer for one key, from the results of the query
abbrev pub answer_for : {Row V E : Type 0} → Config Row V E → ℕ → List Row × Option E → Answer V E
answer_for cfg k (rows, some e) = (cfg.zero_value, some e)
answer_for cfg k (rows, none) =
    (or_zero cfg.zero_value (value_of cfg.stored (rows_of cfg.key_of k rows)), none)

-- A value, if there is one, replaces the answer.
abbrev update : {V E : Type 0} → Option V → Thunk V E → Thunk V E
update none t = t
update (some v) t = with_result (v, none) t

update-last :
    {R V E : Type 0} (value : R → V) (row : R) (rows : List R) (t : Thunk V E)
    → update (Option.map value (last rows)) (with_result (value row, none) t)
      ≡ update (Option.map value (last (row ∷ rows))) t
update-last value row [] t = refl
update-last value row (x ∷ rows) t = let (y, e) = last-some x rows in rw e refl

module _ {R V E : Type 0} (key_of : R → ℕ) (value : R → V) (keys : List ℕ) where
  store_each-other :
      (rows : List R) (ts : Thunks V E) (k : ℕ)
      → elem k keys ≡ false
      → store_each key_of value keys ts rows k ≡ ts k
  unfolding store_each answer_one
  store_each-other [] ts k h = refl
  store_each-other (row ∷ rows) ts k h =
      store_each-other rows _ k h ∙ ground (arith, ==_iff (key_of row) k)

  store_each-none :
      (rows : List R) (ts : Thunks V E) (k : ℕ)
      → ts k ≡ none
      → store_each key_of value keys ts rows k ≡ none
  unfolding store_each answer_one
  store_each-none [] ts k h = h
  store_each-none (row ∷ rows) ts k h = store_each-none rows _ k (ground arith)

  store_each-some :
      (rows : List R) (ts : Thunks V E) (k : ℕ) (t : Thunk V E)
      → elem k keys ≡ true
      → ts k ≡ some t
      → store_each key_of value keys ts rows k
        ≡ some (update (Option.map value (last (rows_of key_of k rows))) t)
  unfolding store_each answer_one
  store_each-some [] ts k t m h = h
  store_each-some (row ∷ rows) ts k t m h = elim (Bool-cases (key_of row == k)) [
    | inl e ↦
        store_each-some rows _ k (with_result (value row, none) t) m
          (ground (arith, ==_iff (key_of row) k))
        ∙ rw e (ap some (update-last value row (rows_of key_of k rows) t))
    | inr e ↦ rw e (store_each-some rows _ k t m (ground arith))
  ]

last-as_group :
    {Row V : Type 0} (value : List Row → V) (k : ℕ) (rows : List Row)
    → Option.map (λ g. value g.1) (last (as_group k rows)) ≡ value_of (grouped value) rows
last-as_group value k [] = refl
last-as_group value k (row ∷ rows) = refl

update-zero :
    {V E : Type 0} (z : V) (v : Option V) (t : Thunk V E)
    → update v (with_answer (z, none) t) ≡ with_answer (or_zero z v, none) t
update-zero z none t = refl
update-zero z (some v) t = refl

module _ {Row V E : Type 0} where
  -- The groups are stored as rows are that have their key with them.
  store_groups-each :
      (value : List Row → V) (keys : List ℕ) (groups : List (ℕ × List Row)) (ts : Thunks V E)
      → store_groups value keys ts groups ≡ store_each (λ g. g.0) (λ g. value g.1) keys ts groups
  unfolding store_groups store_each
  store_groups-each value keys [] ts = refl
  store_groups-each value keys ((k, rows) ∷ groups) ts = store_groups-each value keys groups _

  store_rows-some :
      (key_of : Row → ℕ) (stored : Stored Row V) (keys : List ℕ) (rows : List Row) (ts : Thunks V E)
      (k : ℕ) (t : Thunk V E)
      → elem k keys ≡ true
      → ts k ≡ some t
      → store_rows key_of stored keys ts rows k
        ≡ some (update (value_of stored (rows_of key_of k rows)) t)
  unfolding store_rows
  store_rows-some key_of (each value) keys rows ts k t m h =
      store_each-some key_of value keys rows ts k t m h
  store_rows-some key_of (grouped value) keys rows ts k t m h =
      rw (store_groups-each value keys (group_rows key_of [] rows) ts) (
        store_each-some (λ g. g.0) (λ g. value g.1) keys (group_rows key_of [] rows) ts k t m h
        ∙ ap (λ gs. some (update (Option.map (λ g. value g.1) (last gs)) t))
            (group_rows-group_of key_of rows [] [] k refl)
        ∙ ap (λ v. some (update v t)) (last-as_group value k (rows_of key_of k rows)))
  store_rows-some key_of not_implemented keys rows ts k t m h = h

  store_rows-other :
      (key_of : Row → ℕ) (stored : Stored Row V) (keys : List ℕ) (rows : List Row) (ts : Thunks V E)
      (k : ℕ)
      → (elem k keys ≡ false) ⊎ (ts k ≡ none)
      → store_rows key_of stored keys ts rows k ≡ ts k
  unfolding store_rows
  store_rows-other key_of (each value) keys rows ts k (inl h) =
      store_each-other key_of value keys rows ts k h
  store_rows-other key_of (each value) keys rows ts k (inr h) =
      store_each-none key_of value keys rows ts k h ∙ sym h
  store_rows-other key_of (grouped value) keys rows ts k (inl h) =
      rw (store_groups-each value keys (group_rows key_of [] rows) ts)
        (store_each-other (λ g. g.0) (λ g. value g.1) keys (group_rows key_of [] rows) ts k h)
  store_rows-other key_of (grouped value) keys rows ts k (inr h) =
      rw (store_groups-each value keys (group_rows key_of [] rows) ts) (
        store_each-none (λ g. g.0) (λ g. value g.1) keys (group_rows key_of [] rows) ts k h ∙ sym h)
  store_rows-other key_of not_implemented keys rows ts k h = refl

  store_results-thunks :
      (cfg : Config Row V E) (keys : List ℕ) (ts : Thunks V E) (results : List Row × Option E)
      (k : ℕ)
      → store_results cfg keys (answer_all ts keys (cfg.zero_value, none)) results k
        ≡ (if elem k keys then Option.map (with_answer (answer_for cfg k results)) (ts k) else ts k)
  unfolding store_results answer_all
  store_results-thunks cfg keys ts (rows, some e) k = elim (Option-cases (ts k)) [
    | inl h ↦ rw h (ground arith)
    | inr (t, h) ↦ rw h (ground arith)
  ]
  store_results-thunks cfg keys ts (rows, none) k =
      let zeroed : Thunks V E = answer_all ts keys (cfg.zero_value, none) in
      elim (Bool-cases (elem k keys)) [
        | inl m ↦ elim (Option-cases (ts k)) [
          | inl h ↦
              rw
                (
                  store_rows-other cfg.key_of cfg.stored keys rows zeroed k (inr (rw (m, h) refl)),
                  m,
                  h,
                )
                refl
          | inr (t, h) ↦
              store_rows-some cfg.key_of cfg.stored keys rows zeroed k
                (with_answer (cfg.zero_value, none) t) m (rw (m, h) refl)
              ∙ rw (m, h) (ap some (update-zero cfg.zero_value _ t))
        ]
        | inr m ↦ rw (store_rows-other cfg.key_of cfg.stored keys rows zeroed k (inl m), m) refl
      ]

  -- What the source does not implement: slices of what the key function returns with the key
  abbrev pub NotImplemented : Config Row V E → List ℕ → Type 0
  NotImplemented cfg keys = (cfg.stored ≡ not_implemented) × ((cfg.query keys).1 ≡ none)

  is_panic_iff :
      (stored : Stored Row V) (e : Option E)
      → Path (Option (Unit {0})) (if is_panic stored e then none else some tt) none
        ↔ ((stored ≡ not_implemented) × (e ≡ none))
  unfolding is_panic
  is_panic_iff (each value) e = (λ h. absurd (cc), λ h. absurd (cc))
  is_panic_iff (grouped value) e = (λ h. absurd (cc), λ h. absurd (cc))
  is_panic_iff not_implemented none = (λ h. (refl, refl), λ h. refl)
  is_panic_iff not_implemented (some e) = (λ h. absurd (cc), λ h. absurd (cc))

  pub perform_query-thunks :
      (cfg : Config Row V E) (l : Loader V E) (called k : ℕ)
      → let keys = batch cfg.max_keys l.pending called in
        ((perform_query cfg l called).0.thunks k ≡ (
          if elem k keys
          then Option.map (with_answer (answer_for cfg k (cfg.query keys))) (l.thunks k)
          else l.thunks k))
        × (((perform_query cfg l called).1 ≡ none) ↔ NotImplemented cfg keys)
  unfolding perform_query
  perform_query-thunks cfg l called k =
      (store_results-thunks cfg _ l.thunks (cfg.query _) k, is_panic_iff cfg.stored (cfg.query _).1)
