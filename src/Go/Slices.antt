-- ===== src/Go/Slices.antt =====
-- Go's slices, each a length of an array in memory, as far as `make`, `copy` and `append` go.
use sqlr.Prelude.{
  ℕ, zero, suc, ◌≤◌, ◌<◌, List, [], ◌∷◌, ◌++◌, ◌==◌, ltb, if◌then◌else◌, length, take, drop, ◌≡◌,
  refl, ap, arith,
}

-- The arrays by their addresses, and the address of the next one.
pub record Memory (T : Type 0) : Type 0 where
  pub next : ℕ
  pub array : ℕ → List T

-- A slice that begins where its array does; its capacity is the length of the array.
pub record Slice : Type 0 where
  pub address : ℕ
  pub len : ℕ

module _ {T : Type 0} where
  -- the elements of a slice
  abbrev pub read : Memory T → Slice → List T
  read m s = take s.len (m.array s.address)

  -- The slice is of an array that is there, and within it.
  abbrev pub IsIn : Memory T → Slice → Type 0
  IsIn m s = (s.address < m.next) × (s.len ≤ length (m.array s.address))

  abbrev pub store : ℕ → List T → Memory T → Memory T
  store address xs m = record m { array = λ a. if a == address then xs else m.array a }

  -- a new array
  abbrev pub allocate : List T → Memory T → Memory T × ℕ
  allocate xs m = (record (store m.next xs m) { next = suc m.next }, m.next)

  unfoldable pub write_at : ℕ → T → List T → List T
  write_at i x [] = []
  write_at zero x (y ∷ ys) = x ∷ ys
  write_at (suc i) x (y ∷ ys) = y ∷ write_at i x ys

  unfoldable pub copies : ℕ → T → List T
  copies zero x = []
  copies (suc n) x = x ∷ copies n x

  -- `copy(dst, src)` on the elements, where `dst` is as long at least
  unfoldable pub copy : List T → List T → List T
  copy dst src = src ++ drop (length src) dst

  -- `append(s, x)`; what a new array has beyond the elements is the runtime's choice, `spare`
  unfoldable pub append : List T → Slice → T → Memory T → Memory T × Slice
  append spare s x m =
      let (m', address) = allocate (read m s ++ (x ∷ spare)) m in
      if ltb s.len (length (m.array s.address))
      then (store s.address (write_at s.len x (m.array s.address)) m, record s { len = suc s.len })
      else (m', record { address = address; len = suc s.len })

  pub length-write_at : (i : ℕ) (x : T) (xs : List T) → length (write_at i x xs) ≡ length xs
  unfolding write_at
  length-write_at i x [] = refl
  length-write_at zero x (y ∷ ys) = refl
  length-write_at (suc i) x (y ∷ ys) = ap suc (length-write_at i x ys)

  pub write_at-write_at :
      (i : ℕ) (x y : T) (xs : List T) → write_at i y (write_at i x xs) ≡ write_at i y xs
  unfolding write_at
  write_at-write_at i x y [] = refl
  write_at-write_at zero x y (z ∷ zs) = refl
  write_at-write_at (suc i) x y (z ∷ zs) = ap (◌∷◌ z) (write_at-write_at i x y zs)

  pub take-write_at :
      (i : ℕ) (x : T) (xs : List T)
      → i < length xs
      → take (suc i) (write_at i x xs) ≡ take i xs ++ x ∷ []
  unfolding write_at
  take-write_at i x [] h = absurd (omega arith)
  take-write_at zero x (y ∷ ys) h = refl
  take-write_at (suc i) x (y ∷ ys) h = ap (◌∷◌ y) (take-write_at i x ys (omega arith))

  pub take-length : (n : ℕ) (xs : List T) → n ≤ length xs → length (take n xs) ≡ n
  take-length zero xs h = refl
  take-length (suc n) [] h = absurd (omega arith)
  take-length (suc n) (x ∷ xs) h = ap suc (take-length n xs (omega arith))

  pub take-append : (xs ys : List T) → take (length xs) (xs ++ ys) ≡ xs
  take-append [] ys = refl
  take-append (x ∷ xs) ys = ap (◌∷◌ x) (take-append xs ys)
