-- ===== src/Cache.antt =====
-- stmt_cache.go, table_map.go and func_map.go: maps that keep what was put in first. Their locks
-- make each operation one step, and several goroutines any sequence of these.
pub mod First
use sqlr.Prelude.{
  ℕ, Bool, true, false, ◌&&◌, List, [], ◌∷◌, Option, none, some, Text, equal, ◌==◌, ◌≡◌, ◌↔◌, arith,
  equal_iff, equal_refl, ==_iff, if◌then◌else◌,
}

-- `stmtKey`; a number stands for a `reflect.Type`
pub record StmtKey : Type 0 where
  pub row_type : ℕ
  pub query : Text

-- `==` of the struct
unfoldable pub same_key : StmtKey → StmtKey → Bool
same_key j k = j.row_type == k.row_type && equal j.query k.query

pub same_key_iff : (j k : StmtKey) → (same_key j k ≡ true) ↔ (j ≡ k)
unfolding same_key
same_key_iff j k = ground (arith, equal_iff j.query k.query)

module _ {V : Type 0} where
  unfoldable pub find : StmtKey → List (StmtKey × V) → Option V
  find k [] = none
  find k ((j, v) ∷ m) = if same_key j k then some v else find k m

  -- A Go map that holds no such key yet.
  abbrev pub insert : StmtKey → V → List (StmtKey × V) → List (StmtKey × V)
  insert k v m = (k, v) ∷ m

-- `stmtCache`; a nil map is `none`
abbrev pub StmtCache : Type 0 → Type 0
StmtCache V = Option (List (StmtKey × V))

module _ {V : Type 0} where
  -- the method `clear`
  abbrev pub clear : StmtCache V → StmtCache V
  clear c = none

  -- the method `lookup`; indexing a nil map finds nothing
  unfoldable pub lookup : StmtCache V → StmtKey → Option V
  lookup none k = none
  lookup (some m) k = find k m

  -- `set` behind `make`
  unfoldable pub set_in : List (StmtKey × V) → StmtKey → V → V × StmtCache V
  set_in m k v = elim (find k m) [
    | some existing ↦ (existing, some m)
    | none ↦ (v, some (insert k v m))
  ]

  -- the method `set`
  unfoldable pub set : StmtCache V → StmtKey → V → V × StmtCache V
  unfolding set_in
  set none k v = set_in [] k v
  set (some m) k v = set_in m k v
