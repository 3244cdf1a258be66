-- ===== src/Go/Maps.antt =====
-- Go maps with texts for keys, as lists of entries.
use sqlr.Prelude.{
  List, [], ◌∷◌, Option, none, some, Text, ◌≡◌, refl, arith, equal, equal_iff, if◌then◌else◌,
  Bool-cases, inl, inr,
}

abbrev pub Map : Type 0 → Type 0
Map V = List (Text × V)

module _ {V : Type 0} where
  unfoldable pub get : Text → Map V → Option V
  get k [] = none
  get k ((j, v) ∷ m) = if equal j k then some v else get k m

  unfoldable pub put : Text → V → Map V → Map V
  put k v [] = (k, v) ∷ []
  put k v ((j, w) ∷ m) = if equal j k then (k, v) ∷ m else (j, w) ∷ put k v m

  -- `delete(m, k)`
  unfoldable pub remove : Text → Map V → Map V
  remove k [] = []
  remove k ((j, v) ∷ m) = if equal j k then remove k m else (j, v) ∷ remove k m

  -- No key has two entries.
  abbrev pub Unique : Map V → Type 0
  Unique [] = Unit
  Unique ((k, v) ∷ m) = (get k m ≡ none) × Unique m

  pub get-put :
      (k j : Text) (v : V) (m : Map V) → get j (put k v m) ≡ (if equal k j then some v else get j m)
  unfolding get put
  get-put k j v [] = refl
  get-put k j v ((i, w) ∷ m) =
      ground (arith, equal_iff k j, equal_iff i k, equal_iff i j, get-put k j v m)

  pub get-remove :
      (k j : Text) (m : Map V) → get j (remove k m) ≡ (if equal k j then none else get j m)
  unfolding get remove
  get-remove k j [] = ground arith
  get-remove k j ((i, w) ∷ m) =
      ground (arith, equal_iff k j, equal_iff i k, equal_iff i j, get-remove k j m)

  pub put-Unique : (k : Text) (v : V) (m : Map V) → Unique m → Unique (put k v m)
  unfolding get put
  put-Unique k v [] u = (refl, tt)
  put-Unique k v ((j, w) ∷ m) u = elim (Bool-cases (equal j k)) [
    | inl e ↦ rw e (ground (arith, equal_iff j k), u.1)
    | inr e ↦
        rw e (ground (arith, get-put k j v m, equal_iff j k, equal_iff k j), put-Unique k v m u.1)
  ]

  pub remove-Unique : (k : Text) (m : Map V) → Unique m → Unique (remove k m)
  unfolding get remove
  remove-Unique k [] u = tt
  remove-Unique k ((j, w) ∷ m) u = elim (Bool-cases (equal j k)) [
    | inl e ↦ rw e (remove-Unique k m u.1)
    | inr e ↦ rw e (ground (arith, get-remove k j m), remove-Unique k m u.1)
  ]
