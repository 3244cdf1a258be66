-- ===== src/NameMap.antt =====
-- ident_map.go and field_map.go: maps of names, each of which may lie over the map of an earlier
-- schema. The two files differ in their names only.
use sqlr.Prelude.{
  List, [], ◌∷◌, Option, none, some, Text, ◌≡◌, refl, arith, equal, equal_iff, if◌then◌else◌,
}

abbrev pub Names : Type 0
Names = List (Text × Text)

-- `identMap` and `fieldMap`: the map, and the previous one if it is not nil.
pub data NameMap : Type 0 where
  base : Names → NameMap
  over : Names → NameMap → NameMap

-- Indexing and writing a Go map of strings.
unfoldable pub get : Text → Names → Option Text
get k [] = none
get k ((j, v) ∷ m) = if equal j k then some v else get k m

unfoldable pub put : Text → Text → Names → Names
put k v [] = (k, v) ∷ []
put k v ((j, w) ∷ m) = if equal j k then (k, v) ∷ m else (j, w) ∷ put k v m

-- `newIdentMap`, `newFieldMap`
unfoldable pub new_map : Option NameMap → NameMap
new_map none = base []
new_map (some prev) = over [] prev

-- the methods `add`
unfoldable pub add : Text → Text → NameMap → NameMap
unfolding put
add k v (base m) = base (put k v m)
add k v (over m prev) = over (put k v m) prev

-- the methods `lookup`
unfoldable pub lookup : Text → NameMap → Option Text
unfolding get
lookup k (base m) = get k m
lookup k (over m prev) = elim (get k m) [ some v ↦ some v | none ↦ lookup k prev ]

get-put : (k j v : Text) (m : Names) → get j (put k v m) ≡ (if equal k j then some v else get j m)
unfolding get put
get-put k j v [] = refl
get-put k j v ((i, w) ∷ m) =
    ground (arith, equal_iff k j, equal_iff i k, equal_iff i j, get-put k j v m)

lookup-add :
    (k j v : Text) (m : NameMap) → lookup j (add k v m) ≡ (if equal k j then some v else lookup j m)
unfolding lookup add
lookup-add k j v (base m) = get-put k j v m
lookup-add k j v (over m prev) = ground (arith, get-put k j v m)

-- How a map was made: new, new over one that is there, or by adding a name; with the names that were
-- added on the way, in this map and in those below it, the last of them first.
pub data Built : Names → NameMap → Type 0 where
  fresh : Built [] (new_map none)
  derived : {h : Names} {m : NameMap} → Built h m → Built h (new_map (some m))
  added : {h : Names} {m : NameMap} (k v : Text) → Built h m → Built ((k, v) ∷ h) (add k v m)

-- However a map of names was made, by new maps, new maps over earlier ones, and additions, a
-- lookup finds what was added last for the name, in this map or in one below it, and nothing if
-- the name was never added.
pub Built-lookup : {h : Names} {m : NameMap} (j : Text) → Built h m → lookup j m ≡ get j h
unfolding lookup new_map get
Built-lookup j fresh = refl
Built-lookup j (derived b) = Built-lookup j b
Built-lookup j (added {h} {m} k v b) = rw (lookup-add k j v m, Built-lookup j b) refl
