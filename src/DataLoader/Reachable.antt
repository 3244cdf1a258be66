-- ===== src/DataLoader/Reachable.antt =====
-- The loaders that calls of a loader function and of its thunks lead to.
use mathlib.Core.Option
use sqlr.Prelude.{
  ℕ, true, false, List, [], Option, none, some, ◌≡◌, refl, ap, ◌∙◌, Bool-cases, Option-cases, inl,
  inr,
}
use sqlr.DataLoader.{
  elem, Answer, Thunk, Loader, Config, batch, call, perform_query, force, force_found, settled,
  after_query, Called,
}
use sqlr.DataLoader.Batch.{distinct}
use sqlr.DataLoader.Answers.{answer_for}
use sqlr.DataLoader.WellFormed.{WellFormed, call-WellFormed, perform_query-WellFormed}

abbrev pub empty : {V E : Type 0} → Loader V E
empty = record { thunks = λ k. none; pending = [] }

-- What happens to a loader: its function is called, a thunk is called, or `range` takes another
-- order of the pending map.
pub data Step {Row V E : Type 0} (cfg : Config Row V E) : Loader V E → Loader V E → Type 0 where
  calls : {l : Loader V E} (k : ℕ) → Step cfg l (call l k)
  forces : {l : Loader V E} (k : ℕ) → Step cfg l (force cfg l k).0
  reorders :
      {l : Loader V E} (ks : List ℕ)
      → distinct ks ≡ true
      → ((k : ℕ) → elem k ks ≡ elem k l.pending)
      → Step cfg l (record l { pending = ks })

pub data Reachable {Row V E : Type 0} (cfg : Config Row V E) : Loader V E → Type 0 where
  made : Reachable cfg empty
  after : {l l' : Loader V E} → Reachable cfg l → Step cfg l l' → Reachable cfg l'

module _ {Row V E : Type 0} (cfg : Config Row V E) where
  -- A call of a thunk: of the one that has its answer, and of the one that is pending
  force-none : (l : Loader V E) (k : ℕ) → l.thunks k ≡ none → force cfg l k ≡ (l, none)
  unfolding force force_found
  force-none l k e = ap (force_found cfg l k) e

  force-settled :
      (l : Loader V E) (k : ℕ) (t : Thunk V E)
      → l.thunks k ≡ some t
      → t.pending ≡ false
      → force cfg l k ≡ (l, some t.result)
  unfolding force force_found
  force-settled l k t e h = ap (force_found cfg l k) e ∙ rw h refl

  force-pending :
      (l : Loader V E) (k : ℕ) (t : Thunk V E)
      → l.thunks k ≡ some t
      → t.pending ≡ true
      → force cfg l k ≡ after_query (perform_query cfg l k) k
  unfolding force force_found
  force-pending l k t e h = ap (force_found cfg l k) e ∙ rw h refl

  -- The answer that the query has for the key
  abbrev queried : Loader V E → ℕ → Answer V E
  queried l k = answer_for cfg k (cfg.query (batch cfg.max_keys l.pending k))

  settled-loader : (l : Loader V E) (o : Option (Thunk V E)) → (settled l o).0 ≡ l
  unfolding settled
  settled-loader l none = refl
  settled-loader l (some t) = refl

  after_query-loader : (r : Called (Loader V E) Unit) (k : ℕ) → (after_query r k).0 ≡ r.0
  unfolding after_query
  after_query-loader (l, none) k = refl
  after_query-loader (l, some u) k = settled-loader l (l.thunks k)

  force-WellFormed : (l : Loader V E) (k : ℕ) → WellFormed l → WellFormed (force cfg l k).0
  force-WellFormed l k w = elim (Option-cases (l.thunks k)) [
    | inl e ↦ rw (force-none l k e) w
    | inr (t, e) ↦ elim (Bool-cases t.pending) [
      | inl p ↦
          rw (force-pending l k t e p, after_query-loader (perform_query cfg l k) k)
            (perform_query-WellFormed cfg l k w)
      | inr p ↦ rw (force-settled l k t e p) w
    ]
  ]

  Step-WellFormed : {l l' : Loader V E} → Step cfg l l' → WellFormed l → WellFormed l'
  Step-WellFormed {l} (calls k) w = call-WellFormed l k w
  Step-WellFormed {l} (forces k) w = force-WellFormed l k w
  Step-WellFormed {l} (reorders ks once same) w = record {
    once = once;
    marked = λ k. same k ∙ w.marked k;
    answered = w.answered;
  }

  -- However its function and its thunks are called, a loader holds exactly its unanswered thunks
  -- as pending, each once, and every other thunk has its answer.
  pub Reachable-WellFormed : {l : Loader V E} → Reachable cfg l → WellFormed l
  unfolding distinct elem
  Reachable-WellFormed made = record { once = refl; marked = λ k. refl; answered = λ k. tt }
  Reachable-WellFormed (after r step) = Step-WellFormed step (Reachable-WellFormed r)
