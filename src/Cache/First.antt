-- ===== src/Cache/First.antt =====
-- What a cache returns to several callers.
use sqlr.Prelude.{List, [], ◌∷◌, Option, none, some, ◌≡◌, arith, if◌then◌else◌}
use sqlr.Cache.{StmtKey, same_key, same_key_iff, StmtCache, find, lookup, set_in, set}

abbrev pub or {ℓ} : {A : Type ℓ} → Option A → A → A
or none v = v
or (some w) v = w

-- The calls of several goroutines, in the order in which they get the lock.
pub data Op (V : Type 0) : Type 0 where
  looking : StmtKey → Op V
  setting : StmtKey → V → Op V

module _ {V : Type 0} where
  set_in-lookup :
      (m : List (StmtKey × V)) (k : StmtKey) (v : V) (j : StmtKey)
      → ((set_in m k v).0 ≡ or (find k m) v)
        × (lookup (set_in m k v).1 j ≡ (if same_key k j then some (set_in m k v).0 else find j m))
  unfolding set_in lookup find
  set_in-lookup m k v j = ground (arith, same_key_iff k j)

  -- `set` returns what the cache holds for the key, or the new statement where it holds none; a
  -- lookup of the key finds then what `set` returned, and every other key keeps its statement.
  pub set-lookup :
      (c : StmtCache V) (k : StmtKey) (v : V) (j : StmtKey)
      → ((set c k v).0 ≡ or (lookup c k) v)
        × (lookup (set c k v).1 j ≡ (if same_key k j then some (set c k v).0 else lookup c j))
  unfolding set lookup find
  set-lookup none k v j = set_in-lookup [] k v j
  set-lookup (some m) k v j = set_in-lookup m k v j

  unfoldable pub run : StmtCache V → List (Op V) → StmtCache V
  run c [] = c
  run c (looking k ∷ ops) = run c ops
  run c (setting k v ∷ ops) = run (set c k v).1 ops

  set-keeps :
      (c : StmtCache V) (k j : StmtKey) (v w : V)
      → lookup c j ≡ some w
      → lookup (set c k v).1 j ≡ some w
  set-keeps c k j v w h = ground (arith, set-lookup c k v j, same_key_iff k j)

  -- Whatever calls come after the one that set a key first, short of `clear`, a later `set` for
  -- the key returns the statement of that first call.
  pub run-first :
      (c : StmtCache V) (ops : List (Op V)) (k : StmtKey) (v w : V)
      → lookup c k ≡ some w
      → (lookup (run c ops) k ≡ some w) × ((set (run c ops) k v).0 ≡ w)
  unfolding run
  run-first c [] k v w h = (h, ground (arith, set-lookup c k v k))
  run-first c (looking j ∷ ops) k v w h = run-first c ops k v w h
  run-first c (setting j u ∷ ops) k v w h =
      run-first (set c j u).1 ops k v w (set-keeps c j k u w h)
