-- ===== src/Prelude/Failure.antt =====
-- Go's pairs of a value and an error, of which a caller uses one: the value, if the error is nil.
use mathlib.Core.Path.{◌≡◌, refl}
use mathlib.Core.Logic.{◌≢◌}
use mathlib.Core.Bool.{Bool, true, false}
use sqlr.Prelude.Tests.{if◌then◌else◌}

pub data Result {ℓ} (E : Type 0) (A : Type ℓ) : Type ℓ where
  err : E → Result E A
  ok : A → Result E A

infixl 5 ◌>>=◌
-- `if err != nil { return …, err }` between two steps
abbrev pub ◌>>=◌ {ℓ κ} :
    {E : Type 0} {A : Type ℓ} {B : Type κ} → Result E A → (A → Result E B) → Result E B
err e >>= onward = err e
ok a >>= onward = onward a

-- Steps that succeed together succeed one by one.
pub >>=-ok {ℓ κ} :
    {E : Type 0} {A : Type ℓ} {B : Type κ} {onward : A → Result E B} {b : B} (first : Result E A)
    → first >>= onward ≡ ok b
    → (a : A) × (first ≡ ok a) × (onward a ≡ ok b)
>>=-ok (err e) h = absurd (cc)
>>=-ok (ok a) h = (a, refl, h)

-- An error that no step gives is not the error of the steps together.
pub >>=-≢err {ℓ κ} :
    {E : Type 0} {A : Type ℓ} {B : Type κ} {onward : A → Result E B} {e : E} (first : Result E A)
    → first ≢ err e
    → ((a : A) → onward a ≢ err e)
    → first >>= onward ≢ err e
>>=-≢err (err d) here later h = here (cc)
>>=-≢err (ok a) here later h = later a h

-- A check that lets only one answer through.
pub if-ok {ℓ} :
    {E : Type 0} {A : Type ℓ} {a : A} (b : Bool) (first : Result E A) (e : E)
    → (if b then first else err e) ≡ ok a
    → (b ≡ true) × (first ≡ ok a)
if-ok true first e h = (refl, h)
if-ok false first e h = absurd (cc)

pub err≢ok {ℓ} : {E : Type 0} {A : Type ℓ} (e : E) (a : A) → err e ≢ ok a
err≢ok e a h = absurd (cc)
