-- ===== src/Tags/Paths/Shared.antt =====
-- What appending does to the slices that were there.
use sqlr.Prelude.{
  ℕ, zero, suc, ◌<◌, true, false, List, [], ◌∷◌, ◌++◌, ◌==◌, ==_refl, ltb, length, length-append,
  take, drop, ◌≡◌, refl, sym, ◌∙◌, ap, arith,
}
use sqlr.Go.Slices.{
  Memory, Slice, read, IsIn, store, write_at, copies, copy, append, length-write_at,
  write_at-write_at, take-write_at, take-length, take-append,
}
use sqlr.Tags.Paths.{clone_of, index_append, path_clone, path_append}

module _ {T : Type 0} (zero_value : T) where
  drop-copies : (n : ℕ) → drop n (copies (suc n) zero_value) ≡ zero_value ∷ []
  unfolding copies
  drop-copies zero = refl
  drop-copies (suc n) = drop-copies n

  -- the array of a clone
  copy-copies :
      (xs : List T) → copy (copies (suc (length xs)) zero_value) xs ≡ xs ++ zero_value ∷ []
  unfolding copy
  copy-copies xs = ap (λ ys. xs ++ ys) (drop-copies (length xs))

  -- Appending within the capacity
  append-within :
      (spare : List T) (s : Slice) (x : T) (m : Memory T)
      → s.len < length (m.array s.address)
      → append spare s x m
        ≡ (store s.address (write_at s.len x (m.array s.address)) m, record s { len = suc s.len })
  unfolding append
  append-within spare s x m h =
      let fits : ltb s.len (length (m.array s.address)) ≡ true = ground arith in rw fits refl

  append-slice :
      (spare : List T) (s : Slice) (x : T) (m : Memory T)
      → s.len < length (m.array s.address)
      → (append spare s x m).1 ≡ record s { len = suc s.len }
  append-slice spare s x m h = ap (λ r. r.1) (append-within spare s x m h)

  append-array :
      (spare : List T) (s : Slice) (x : T) (m : Memory T)
      → s.len < length (m.array s.address)
      → (append spare s x m).0.array s.address ≡ write_at s.len x (m.array s.address)
  append-array spare s x m h =
      ap (λ r. r.0.array s.address) (append-within spare s x m h) ∙ rw (==_refl s.address) refl

  append-other :
      (spare : List T) (s : Slice) (x : T) (m : Memory T) (a : ℕ)
      → s.len < length (m.array s.address)
      → (a == s.address) ≡ false
      → (append spare s x m).0.array a ≡ m.array a
  append-other spare s x m a h ne = ap (λ r. r.0.array a) (append-within spare s x m h) ∙ rw ne refl

  append-next :
      (spare : List T) (s : Slice) (x : T) (m : Memory T)
      → s.len < length (m.array s.address)
      → (append spare s x m).0.next ≡ m.next
  append-next spare s x m h = ap (λ r. r.0.next) (append-within spare s x m h)

  -- The arrays that were there, and the clone's.
  clone_of-other :
      (s : Slice) (m : Memory T) (a : ℕ)
      → a < m.next
      → (clone_of zero_value s m).0.array a ≡ m.array a
  unfolding clone_of
  clone_of-other s m a h = let ne : (a == m.next) ≡ false = ground arith in rw ne refl

  clone_of-next : (s : Slice) (m : Memory T) → (clone_of zero_value s m).0.next ≡ suc m.next
  unfolding clone_of
  clone_of-next s m = refl

  clone_of-slice :
      (s : Slice) (m : Memory T)
      → (clone_of zero_value s m).1 ≡ record { address = m.next; len = s.len }
  unfolding clone_of
  clone_of-slice s m = refl

  clone_of-array :
      (s : Slice) (m : Memory T)
      → IsIn m s
      → (clone_of zero_value s m).0.array m.next ≡ read m s ++ zero_value ∷ []
  unfolding clone_of
  clone_of-array s m valid =
      let len = take-length s.len (m.array s.address) valid.1 in
      rw (==_refl m.next)
        (ap (λ n. copy (copies (suc n) zero_value) (read m s)) (sym len) ∙ copy-copies (read m s))

  -- A path within its capacity, after an append to it
  path_append-array :
      (spare : List T) (s : Slice) (x : T) (m : Memory T)
      → IsIn m s
      → s.len < length (m.array s.address)
      → ((path_append zero_value spare s x m).1 ≡ record s { len = suc s.len })
        × ((path_append zero_value spare s x m).0.array s.address
            ≡ write_at s.len x (m.array s.address))
        × ((path_append zero_value spare s x m).0.next ≡ suc m.next)
  unfolding path_append path_clone
  path_append-array spare s x m valid room =
      let same = clone_of-other s m s.address valid.0 in
      let room' : s.len < length ((clone_of zero_value s m).0.array s.address) = rw same room in
      (
        append-slice spare s x (clone_of zero_value s m).0 room',
        append-array spare s x (clone_of zero_value s m).0 room' ∙ ap (write_at s.len x) same,
        append-next spare s x (clone_of zero_value s m).0 room' ∙ clone_of-next s m,
      )

  -- Appending to a path with spare capacity gives its fields and the new one, but after a second
  -- append to the same path the first result reads as the second: it ends with the other field.
  pub path_append-shared :
      (spare : List T) (s : Slice) (x y : T) (m : Memory T)
      → IsIn m s
      → s.len < length (m.array s.address)
      → (read (path_append zero_value spare s x m).0 (path_append zero_value spare s x m).1
          ≡ read m s ++ x ∷ [])
        × (read
              (path_append zero_value spare s y (path_append zero_value spare s x m).0).0
              (path_append zero_value spare s x m).1
            ≡ read m s ++ y ∷ [])
  path_append-shared spare s x y m valid room =
      let m1 = (path_append zero_value spare s x m).0 in
      let (slice1, array1, next1) = path_append-array spare s x m valid room in
      let long : length (m1.array s.address) ≡ length (m.array s.address) =
        ap length array1 ∙ length-write_at s.len x (m.array s.address) in
      let (slice2, array2, next2) =
        path_append-array spare s y m1 (omega (arith, valid, next1), omega (arith, valid, long))
          (omega (arith, room, long)) in
      (
        ap (λ t. read m1 t) slice1
            ∙ ap (take (suc s.len)) array1
            ∙ take-write_at s.len x (m.array s.address) room,
        ap (λ t. read (path_append zero_value spare s y m1).0 t) slice1
            ∙ ap (take (suc s.len)) (
                array2
                ∙ ap (write_at s.len y) array1
                ∙ write_at-write_at s.len x y (m.array s.address))
            ∙ take-write_at s.len y (m.array s.address) room,
      )

  -- Appending to an index gives its elements and the new one, and leaves every slice that was
  -- there as it reads, whatever array it shares.
  pub index_append-kept :
      (spare : List T) (s : Slice) (x : T) (m : Memory T)
      → IsIn m s
      → (read (index_append zero_value spare s x m).0 (index_append zero_value spare s x m).1
          ≡ read m s ++ x ∷ [])
        × ((t : Slice) → IsIn m t → read (index_append zero_value spare s x m).0 t ≡ read m t)
  unfolding index_append
  index_append-kept spare s x m valid =
      let m1 = (clone_of zero_value s m).0 in
      let c : Slice = record { address = m.next; len = s.len } in
      let len = take-length s.len (m.array s.address) valid.1 in
      let array = clone_of-array s m valid in
      let room : s.len < length (m1.array m.next) =
        omega (arith, len, ap length array, length-append (read m s) (zero_value ∷ [])) in
      let head : take s.len (m1.array m.next) ≡ read m s =
        ap (take s.len) array
        ∙ ap (λ n. take n (read m s ++ zero_value ∷ [])) (sym len)
        ∙ take-append (read m s) (zero_value ∷ []) in
      rw (clone_of-slice s m) (
        ap (λ t. read (append spare c x m1).0 t) (append-slice spare c x m1 room)
            ∙ ap (take (suc s.len)) (append-array spare c x m1 room)
            ∙ take-write_at s.len x (m1.array m.next) room
            ∙ ap (λ xs. xs ++ x ∷ []) head,
        λ t there.
            let ne : (t.address == m.next) ≡ false = ground arith in
            ap (take t.len)
              (append-other spare c x m1 t.address room ne ∙ clone_of-other s m t.address there.0),
      )
