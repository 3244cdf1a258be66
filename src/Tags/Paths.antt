-- ===== src/Tags/Paths.antt =====
-- private/column/path.go (`Clone`, `Append`) and index.go (`Clone`, `Append`): slices that grow.
pub mod Shared
use sqlr.Prelude.{ℕ, suc, List, [], ◌∷◌, ◌++◌}
use sqlr.Go.Slices.{Memory, Slice, read, allocate, copies, copy, append}

module _ {T : Type 0} (zero_value : T) where
  -- `make` of a length, with room for one more, and `copy`
  unfoldable pub clone_of : Slice → Memory T → Memory T × Slice
  unfolding copies copy
  clone_of s m =
      let (m', address) = allocate (copy (copies (suc s.len) zero_value) (read m s)) m in
      (m', record { address = address; len = s.len })

  -- `Index.Clone` and `Index.Append`
  unfoldable pub index_append : List T → Slice → T → Memory T → Memory T × Slice
  index_append spare s x m = let (m', clone) = clone_of s m in append spare clone x m'

  -- `Path.Clone`, which returns the path itself, and `Path.Append`, which appends to the path
  unfoldable pub path_clone : Slice → Memory T → Memory T × Slice
  path_clone s m = ((clone_of s m).0, s)

  unfoldable pub path_append : List T → Slice → T → Memory T → Memory T × Slice
  path_append spare s x m = append spare s x (path_clone s m).0
