-- ===== src/Sql/Execute/Sent.antt =====
-- The arguments that are sent for a prepared statement, one for each placeholder.
use sqlr.Prelude.{
  err, ok, >>=-ok, >>=-≢err, ℕ, zero, suc, ◌≤◌, ◌<◌, List, [], ◌∷◌, ◌++◌, map, some, Text, ◌≡◌, ◌≢◌,
  refl, sym, ap, ap₂, ◌∙◌, arith, ◌==◌, length, take, map-append, get_elem?, get_elem?-some, All,
  All-append, Bool-cases, Option-cases, inl, inr,
}
use sqlr.Go.Unicode.{Unicode}
use sqlr.Wherein.{Arg}
use sqlr.Sql.Columns.{Column}
use sqlr.Sql.Statement.{InputSource, from_column, from_arg, Context, Progress, scan_sql}
use sqlr.Sql.Statement.Inputs.{arg_indexes, upto, scan_sql-Balanced}
use sqlr.Sql.Execute.{
  GoValues, Row, panic_index, marshalled, json_arg, empty_null_arg, column_arg, arg_at, input_arg,
  input_args, get_args,
}

upto-below : (n m : ℕ) → n ≤ m → All (λ i. i < m) (upto n)
upto-below zero m h = tt
upto-below (suc n) m h =
    All-append (λ i. i < m) (upto n) (n ∷ []) (upto-below n m (omega arith)) (omega arith, tt)

-- The arguments at the indexes of the inputs
abbrev pub passed : {V : Type 0} → List InputSource → List (Arg V) → List (Arg V)
passed [] args = []
passed (input ∷ inputs) [] = []
passed (from_column col ∷ inputs) (a ∷ args) = passed inputs args
passed (from_arg i ∷ inputs) (a ∷ args) = a ∷ passed inputs args

take-get_elem? :
    {A : Type 0} (xs : List A) (n : ℕ) (x : A)
    → get_elem? xs n ≡ some x
    → take (suc n) xs ≡ take n xs ++ x ∷ []
take-get_elem? [] n x h = absurd (cc)
take-get_elem? (y ∷ xs) zero x h = ground arith
take-get_elem? (y ∷ xs) (suc n) x h = ap (◌∷◌ y) (take-get_elem? xs n x h)

take_all : {A : Type 0} (xs : List A) → take (length xs) xs ≡ xs
take_all [] = refl
take_all (x ∷ xs) = ap (◌∷◌ x) (take_all xs)

map-get_elem?-upto :
    {A : Type 0} (xs : List A) (n : ℕ)
    → n ≤ length xs
    → map (get_elem? xs) (upto n) ≡ map some (take n xs)
map-get_elem?-upto xs zero h = refl
map-get_elem?-upto xs (suc n) h =
    let (x, at) = get_elem?-some xs n (omega arith) in
    map-append (get_elem? xs) (upto n) (n ∷ [])
    ∙ ap₂ ◌++◌ (map-get_elem?-upto xs n (omega arith)) (ap (λ o. o ∷ []) at)
    ∙ sym (map-append some (take n xs) (x ∷ []))
    ∙ ap (map some) (sym (take-get_elem? xs n x at))

some-injective : {A : Type 0} (xs ys : List A) → map some xs ≡ map some ys → xs ≡ ys
some-injective [] [] h = refl
some-injective [] (y ∷ ys) h = absurd (cc)
some-injective (x ∷ xs) [] h = absurd (cc)
some-injective (x ∷ xs) (y ∷ ys) h = ground (arith, some-injective xs ys)

module _ {V : Type 0} (go : GoValues V) (row : Row V) where
  column_arg-panic_index : (col : Column) → column_arg go row col ≢ err panic_index
  unfolding column_arg json_arg empty_null_arg marshalled
  column_arg-panic_index col h = elim (Option-cases (go.marshal (row.field col.index))) [
    | inl e ↦ ground arith
    | inr (t, e) ↦ ground arith
  ]

  arg_at-in_range :
      (argv : List (Arg V)) (i : ℕ) → i < length argv → arg_at go row argv i ≢ err panic_index
  unfolding arg_at
  arg_at-in_range argv i h e = let (a, at) = get_elem?-some argv i h in absurd (ground arith)

  input_args-panic_index :
      (argv : List (Arg V)) (inputs : List InputSource)
      → All (λ i. i < length argv) (arg_indexes inputs)
      → input_args go row argv inputs ≢ err panic_index
  unfolding input_args input_arg
  input_args-panic_index argv [] h = λ e. absurd (cc)
  input_args-panic_index argv (from_column col ∷ inputs) h =
      >>=-≢err (column_arg go row col) (column_arg-panic_index col) (λ a.
        >>=-≢err (input_args go row argv inputs) (input_args-panic_index argv inputs h)
          (λ args e. absurd (cc)))
  input_args-panic_index argv (from_arg i ∷ inputs) h =
      >>=-≢err (arg_at go row argv i) (arg_at-in_range argv i h.0) (λ a.
        >>=-≢err (input_args go row argv inputs) (input_args-panic_index argv inputs h.1)
          (λ args e. absurd (cc)))

  arg_at-ok :
      (argv : List (Arg V)) (i : ℕ) (a : Arg V)
      → arg_at go row argv i ≡ ok a
      → get_elem? argv i ≡ some a
  unfolding arg_at
  arg_at-ok argv i a h = elim (Option-cases (get_elem? argv i)) [
    | inl e ↦ absurd (ground arith)
    | inr (b, e) ↦ ground arith
  ]

  input_args-passed :
      (argv : List (Arg V)) (inputs : List InputSource) (args : List (Arg V))
      → input_args go row argv inputs ≡ ok args
      → (length args ≡ length inputs)
        × (map some (passed inputs args) ≡ map (get_elem? argv) (arg_indexes inputs))
  unfolding input_args input_arg
  input_args-passed argv [] args h = ground arith
  input_args-passed argv (from_column col ∷ inputs) args h =
      let (a, first, others) = >>=-ok (column_arg go row col) h in
      let (more, rest, made) = >>=-ok (input_args go row argv inputs) others in
      ground (arith, input_args-passed argv inputs more rest)
  input_args-passed argv (from_arg i ∷ inputs) args h =
      let (a, first, others) = >>=-ok (arg_at go row argv i) h in
      let (more, rest, made) = >>=-ok (input_args go row argv inputs) others in
      ground (arith, input_args-passed argv inputs more rest, arg_at-ok argv i a first)

  -- A prepared statement, given any number of arguments, never reads an argument out of range.
  pub get_args-in_range :
      ⦃u : Unicode⦄ (ctx : Context) (query : Text) (row_type : ℕ) (argv : List (Arg V))
      {p : Progress}
      → scan_sql ctx query ≡ ok p
      → get_args go row row_type p argv ≢ err panic_index
  unfolding get_args
  get_args-in_range ctx query row_type argv {p} made h =
      let b = scan_sql-Balanced ctx query made in
      elim (Bool-cases (length argv == p.arg_count)) [
        | inl e ↦ elim (Bool-cases (row.row_type == row_type)) [
          | inl t ↦
              input_args-panic_index argv p.inputs
                (rw b.ordered (upto-below p.arg_count (length argv) (ground arith)))
                (rw (e, t) at h)
          | inr t ↦ absurd (ground arith)
        ]
        | inr e ↦ absurd (ground arith)
      ]

  -- The arguments that are sent for a prepared statement are as many as its placeholders, and
  -- those among them that the caller passed are the caller's, all of them, in order.
  pub get_args-passed :
      ⦃u : Unicode⦄ (ctx : Context) (query : Text) (row_type : ℕ) (argv args : List (Arg V))
      {p : Progress}
      → scan_sql ctx query ≡ ok p
      → get_args go row row_type p argv ≡ ok args
      → (length args ≡ p.counter) × (passed p.inputs args ≡ argv)
  unfolding get_args
  get_args-passed ctx query row_type argv args {p} made h =
      let b = scan_sql-Balanced ctx query made in
      elim (Bool-cases (length argv == p.arg_count)) [
        | inl e ↦ elim (Bool-cases (row.row_type == row_type)) [
          | inl t ↦
              let (len, same) = input_args-passed argv p.inputs args (rw (e, t) at h) in
              let count : p.arg_count ≡ length argv = ground arith in
              (
                len ∙ b.counted,
                some-injective (passed p.inputs args) argv (
                    same
                    ∙ ap (map (get_elem? argv)) (b.ordered ∙ ap upto count)
                    ∙ map-get_elem?-upto argv (length argv) (omega arith)
                    ∙ ap (map some) (take_all argv)),
              )
          | inr t ↦ absurd (ground arith)
        ]
        | inr e ↦ absurd (ground arith)
      ]
