-- ===== src/Tests/Paths.antt =====
-- Paths and indexes in memory.
use sqlr.Prelude.{ℕ, [], ◌∷◌, ◌≡◌, arith}
use sqlr.Go.Slices.{Memory, Slice, IsIn, read}
use sqlr.Tags.Paths.{path_append, index_append}
use sqlr.Tags.Paths.Shared.{path_append-shared, index_append-kept}

-- an array with room for one more, and the slice of its first two elements
abbrev memory : Memory ℕ
memory = record { next = 1; array = λ a. 1 ∷ 2 ∷ 0 ∷ [] }

abbrev parent : Slice
parent = record { address = 0; len = 2 }

parent-IsIn : IsIn memory parent
parent-IsIn = (omega arith, omega arith)

path_append-shared_example :
    (read (path_append 0 [] parent 3 memory).0 (path_append 0 [] parent 3 memory).1
      ≡ 1 ∷ 2 ∷ 3 ∷ [])
    × (read
          (path_append 0 [] parent 4 (path_append 0 [] parent 3 memory).0).0
          (path_append 0 [] parent 3 memory).1
        ≡ 1 ∷ 2 ∷ 4 ∷ [])
path_append-shared_example = path_append-shared 0 [] parent 3 4 memory parent-IsIn (omega arith)

index_append-kept_example :
    (read (index_append 0 [] parent 3 memory).0 (index_append 0 [] parent 3 memory).1
      ≡ 1 ∷ 2 ∷ 3 ∷ [])
    × ((t : Slice) → IsIn memory t → read (index_append 0 [] parent 3 memory).0 t ≡ read memory t)
index_append-kept_example = index_append-kept 0 [] parent 3 memory parent-IsIn
