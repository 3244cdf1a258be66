-- ===== src/DataLoader/WellFormed.antt =====
-- The invariant of a loader.
use mathlib.Core.Path.{subst}
use mathlib.Core.Option
use sqlr.Prelude.{
  ℕ, Bool, true, false, not, ◌&&◌, List, [], ◌∷◌, ◌++◌, Option, none, some, ◌==◌, ◌≡◌, refl, sym,
  ap, ◌∙◌, arith, if◌then◌else◌, keep, Bool-cases, Option-cases, inl, inr, ==_iff,
}
use sqlr.DataLoader.{
  elem, Answer, Thunk, Thunks, Loader, Config, batch, with_answer, call, call_found, put,
  perform_query,
}
use sqlr.DataLoader.Batch.{distinct, elem-append, elem-one, distinct-append_one}
use sqlr.DataLoader.Answers.{answer_for, perform_query-thunks}

elem-keep : (p : ℕ → Bool) (ks : List ℕ) (k : ℕ) → elem k (keep p ks) ≡ (elem k ks && p k)
unfolding elem
elem-keep p [] k = refl
elem-keep p (j ∷ ks) k = ground (arith, elem-keep p ks k, ==_iff j k)

distinct-keep : (p : ℕ → Bool) (ks : List ℕ) → distinct ks ≡ true → distinct (keep p ks) ≡ true
unfolding distinct
distinct-keep p [] h = refl
distinct-keep p (j ∷ ks) h = ground (arith, distinct-keep p ks, elem-keep p ks j)

abbrev pub is_pending : {V E : Type 0} → Option (Thunk V E) → Bool
is_pending none = false
is_pending (some t) = t.pending

-- A thunk that is not pending has an answer.
abbrev pub Answered : {V E : Type 0} → Option (Thunk V E) → Type 0
Answered {E} none = Unit
Answered {V} {E} (some t) = t.pending ≡ false → (a : Answer V E) × (t.result ≡ some a)

-- The pending map holds exactly the thunks that are marked as pending, and the others have answers.
pub record WellFormed {V E : Type 0} (l : Loader V E) : Type 0 where
  pub once : distinct l.pending ≡ true
  pub marked : (k : ℕ) → elem k l.pending ≡ is_pending (l.thunks k)
  pub answered : (k : ℕ) → Answered (l.thunks k)

module _ {V E : Type 0} where
  abbrev fresh : Thunk V E
  fresh = record { pending = true; result = none }

  call-known : (l : Loader V E) (k : ℕ) (t : Thunk V E) → l.thunks k ≡ some t → call l k ≡ l
  unfolding call call_found
  call-known l k t e = ap (call_found l k) e

  call-new :
      (l : Loader V E) (k : ℕ)
      → l.thunks k ≡ none
      → call l k ≡ record { thunks = put l.thunks k fresh; pending = l.pending ++ k ∷ [] }
  unfolding call call_found
  call-new l k e = ap (call_found l k) e

  put-Answered : (ts : Thunks V E) (k j : ℕ) → Answered (ts j) → Answered (put ts k fresh j)
  unfolding put
  put-Answered ts k j h = elim (Bool-cases (k == j)) [
    | inl e ↦ rw e (λ settled. absurd (cc))
    | inr e ↦ rw e h
  ]

  put-is_pending :
      (ts : Thunks V E) (k j : ℕ)
      → is_pending (put ts k fresh j) ≡ (if k == j then true else is_pending (ts j))
  unfolding put
  put-is_pending ts k j = ground arith

  pub call-WellFormed : (l : Loader V E) (k : ℕ) → WellFormed l → WellFormed (call l k)
  call-WellFormed l k w = elim (Option-cases (l.thunks k)) [
    | inl e ↦ subst WellFormed (sym (call-new l k e)) (record {
      once = distinct-append_one l.pending k w.once (w.marked k ∙ ap is_pending e);
      marked = λ j. ground (
        arith,
        elem-append j l.pending (k ∷ []),
        elem-one j k,
        w.marked j,
        ==_iff k j,
        put-is_pending l.thunks k j,
      );
      answered = λ j. put-Answered l.thunks k j (w.answered j);
    })
    | inr (t, e) ↦ subst WellFormed (sym (call-known l k t e)) w
  ]

  is_pending-with_answer :
      (o : Option (Thunk V E)) (a : Answer V E) → is_pending (Option.map (with_answer a) o) ≡ false
  is_pending-with_answer none a = refl
  is_pending-with_answer (some t) a = refl

  with_answer-Answered :
      (o : Option (Thunk V E)) (a : Answer V E) → Answered (Option.map (with_answer a) o)
  with_answer-Answered none a = tt
  with_answer-Answered (some t) a = λ h. (a, refl)

module _ {Row V E : Type 0} (cfg : Config Row V E) where
  perform_query-pending :
      (l : Loader V E) (called k : ℕ)
      → elem k (perform_query cfg l called).0.pending
        ≡ (elem k l.pending && not (elem k (batch cfg.max_keys l.pending called)))
  unfolding perform_query
  perform_query-pending l called k = elem-keep _ l.pending k

  perform_query-once :
      (l : Loader V E) (called : ℕ)
      → distinct l.pending ≡ true
      → distinct (perform_query cfg l called).0.pending ≡ true
  unfolding perform_query
  perform_query-once l called h = distinct-keep _ l.pending h

  pub perform_query-WellFormed :
      (l : Loader V E) (called : ℕ) → WellFormed l → WellFormed (perform_query cfg l called).0
  perform_query-WellFormed l called w = record {
    once = perform_query-once l called w.once;
    marked = λ k. perform_query-pending l called k ∙ marked k;
    answered = λ k. answered k;
  }
    where
      marked :
          (k : ℕ)
          → (elem k l.pending && not (elem k (batch cfg.max_keys l.pending called)))
            ≡ is_pending ((perform_query cfg l called).0.thunks k)
      marked k = elim (Bool-cases (elem k (batch cfg.max_keys l.pending called))) [
        | inl m ↦
            rw ((perform_query-thunks cfg l called k).0, m)
              (ground (
                arith,
                is_pending-with_answer (l.thunks k)
                    (answer_for cfg k (cfg.query (batch cfg.max_keys l.pending called))),
              ))
        | inr m ↦ rw ((perform_query-thunks cfg l called k).0, m) (ground (arith, w.marked k))
      ]

      answered : (k : ℕ) → Answered ((perform_query cfg l called).0.thunks k)
      answered k = elim (Bool-cases (elem k (batch cfg.max_keys l.pending called))) [
        | inl m ↦
            rw ((perform_query-thunks cfg l called k).0, m) (with_answer-Answered (l.thunks k) _)
        | inr m ↦ rw ((perform_query-thunks cfg l called k).0, m) (w.answered k)
      ]
