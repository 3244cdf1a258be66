-- ===== src/Session/Steps/Fails.antt =====
-- Steps that fail with an optimistic locking error.
use sqlr.Prelude.{err, ok, ◌≡◌, ◌≢◌, refl, arith, ℕ, Text, ◌⊎◌, inl, inr}
use sqlr.Go.Unicode.{Unicode}
use sqlr.Cache.{StmtCache}
use sqlr.Sql.Prepare.{Stmt, Prepared, prepared, not_deleting, not_prepared, prepare}
use sqlr.Session.Steps.{
  Session, State, SessionError, optimistic_locking, Step, Outcome, onward, ◌>>=◌, wrap_error,
  wrapping, to_prepared, prepare_query,
}

module _ {D V : Type 0} where
  onward-err :
      {A B : Type 0} {e : SessionError} {s' : State D V} (next : A → Step D V B) (r : Outcome D V A)
      → onward next r ≡ (err e, s')
      → (r ≡ (err e, s')) ⊎ ((a : A) × (s : State D V) × (r ≡ (ok a, s)) × (next a s ≡ (err e, s')))
  unfolding onward
  onward-err next (err e, s) h = inl (ground arith)
  onward-err next (ok a, s) h = inr (a, s, refl, h)

  pub >>=-err :
      {A B : Type 0} {e : SessionError} {s s' : State D V} (first : Step D V A)
      (next : A → Step D V B)
      → (first >>= next) s ≡ (err e, s')
      → (first s ≡ (err e, s'))
        ⊎ ((a : A) × (t : State D V) × (first s ≡ (ok a, t)) × (next a t ≡ (err e, s')))
  unfolding ◌>>=◌
  >>=-err {s = s} first next h = onward-err next (first s) h

  wrap_error-locking :
      {A : Type 0} (msg : Text) (old current : ℕ) (s' : State D V) (r : Outcome D V A)
      → wrap_error msg r ≢ (err (optimistic_locking old current), s')
  unfolding wrap_error
  wrap_error-locking msg old current s' (err e, s) h = absurd (cc)
  wrap_error-locking msg old current s' (ok a, s) h = absurd (cc)

  pub wrapping-locking :
      {A : Type 0} {old current : ℕ} {s' : State D V} (msg : Text) (step : Step D V A)
      (s : State D V)
      → wrapping msg step s ≢ (err (optimistic_locking old current), s')
  unfolding wrapping
  wrapping-locking msg step s h = wrap_error-locking msg _ _ _ (step s) h

  -- A step that fails behind a step that cannot be the reason
  pub after_wrapping :
      {A B : Type 0} {old current : ℕ} {s' : State D V} (msg : Text) (step : Step D V A)
      (next : A → Step D V B) (s : State D V)
      → (wrapping msg step >>= next) s ≡ (err (optimistic_locking old current), s')
      → (a : A) × (t : State D V) × (wrapping msg step s ≡ (ok a, t))
        × (next a t ≡ (err (optimistic_locking old current), s'))
  after_wrapping msg step next s h = elim (>>=-err (wrapping msg step) next h) [
    | inl e ↦ absurd (wrapping-locking msg step s e)
    | inr later ↦ later
  ]

module _ ⦃u : Unicode⦄ {D V : Type 0} (sess : Session D V) where
  to_prepared-locking :
      (old current : ℕ) (s s' : State D V) (r : Prepared × StmtCache Stmt)
      → to_prepared s r ≢ (err (optimistic_locking old current), s')
  unfolding to_prepared
  to_prepared-locking old current s s' (prepared stmt, c) h = absurd (cc)
  to_prepared-locking old current s s' (not_deleting name, c) h = absurd (cc)
  to_prepared-locking old current s s' (not_prepared e, c) h = absurd (cc)

  pub after_prepare :
      {B : Type 0} {old current : ℕ} {s' : State D V} (query : Text) (next : Stmt → Step D V B)
      (s : State D V)
      → (prepare_query sess query >>= next) s ≡ (err (optimistic_locking old current), s')
      → (stmt : Stmt) × (t : State D V) × (prepare_query sess query s ≡ (ok stmt, t))
        × (next stmt t ≡ (err (optimistic_locking old current), s'))
  unfolding prepare_query
  after_prepare query next s h = elim (>>=-err (prepare_query sess query) next h) [
    | inl e ↦
        absurd (to_prepared-locking _ _ s _ (prepare sess.context s.cache sess.row_type query) e)
    | inr later ↦ later
  ]
