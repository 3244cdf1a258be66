-- ===== src/Sql/Statement/Inputs.antt =====
-- Every placeholder of a prepared statement has its input.
use mathlib.Core.Path.{subst}
use sqlr.Prelude.{
  >>=-ok, Result, err, ok, ℕ, zero, suc, Bool, true, false, List, [], ◌∷◌, ◌++◌, append-nil, map,
  Option, none, some, Text, ◌≡◌, refl, ap, ◌∙◌, arith, if◌then◌else◌, length, length-append,
  length-map, Bool-cases, inl, inr,
}
use sqlr.Go.Unicode.{Unicode}
use sqlr.Dialect.{Dialect}
use sqlr.Scanner.{Token, ident}
use sqlr.Scanner.Stream.{Lexed}
use sqlr.Sql.Clause.{is_input, insert_values}
use sqlr.Sql.Columns.{Column, ColumnList, filtered, Parsed, parsed, failed}
use sqlr.Sql.Columns.Counting.{render-counter}
use sqlr.Sql.Statement.{
  InputSource, from_column, from_arg, insert_missing, Context, Progress, start, Error,
  input_columns, write_columns, scan_placeholder, expand_values, expand_parsed, expand_columns,
  scan_word, scan_ident, scan_token, scan_tokens, scan_sql,
}

-- The indexes into the arguments, in the order of the inputs.
abbrev pub arg_indexes : List InputSource → List ℕ
arg_indexes [] = []
arg_indexes (from_column col ∷ inputs) = arg_indexes inputs
arg_indexes (from_arg i ∷ inputs) = i ∷ arg_indexes inputs

-- 0, 1, …, n - 1
abbrev pub upto : ℕ → List ℕ
upto zero = []
upto (suc n) = upto n ++ n ∷ []

-- One input for each number taken from the counter, and the arguments taken in their order.
pub record Balanced (p : Progress) : Type 0 where
  pub counted : length p.inputs ≡ p.counter
  pub ordered : arg_indexes p.inputs ≡ upto p.arg_count

arg_indexes-append :
    (xs ys : List InputSource) → arg_indexes (xs ++ ys) ≡ arg_indexes xs ++ arg_indexes ys
arg_indexes-append [] ys = refl
arg_indexes-append (from_column col ∷ xs) ys = arg_indexes-append xs ys
arg_indexes-append (from_arg i ∷ xs) ys = ap (◌∷◌ i) (arg_indexes-append xs ys)

arg_indexes-columns : (cols : List Column) → arg_indexes (map from_column cols) ≡ []
arg_indexes-columns [] = refl
arg_indexes-columns (col ∷ cols) = arg_indexes-columns cols

input_columns-arg_indexes : (cols : ColumnList) → arg_indexes (input_columns cols) ≡ []
unfolding input_columns
input_columns-arg_indexes cols = elim (Bool-cases (is_input cols.clause)) [
  | inl e ↦ rw e (arg_indexes-columns (filtered cols))
  | inr e ↦ rw e
]

input_columns-length :
    (cols : ColumnList)
    → length (input_columns cols) ≡ (if is_input cols.clause then length (filtered cols) else 0)
unfolding input_columns
input_columns-length cols = elim (Bool-cases (is_input cols.clause)) [
  | inl e ↦ rw e (length-map (filtered cols) from_column)
  | inr e ↦ rw e
]

write_columns-Balanced :
    (d : Dialect) (cols : ColumnList) (p : Progress)
    → Balanced p
    → Balanced (write_columns d cols p)
unfolding write_columns
write_columns-Balanced d cols p b = record {
  counted = omega (
    arith,
    length-append p.inputs (input_columns cols),
    input_columns-length cols,
    render-counter d cols p.counter,
    b.counted,
  );
  ordered =
      arg_indexes-append p.inputs (input_columns cols)
      ∙ rw (input_columns-arg_indexes cols) (append-nil _ ∙ b.ordered);
}

scan_placeholder-Balanced :
    (ctx : Context) (p : Progress) → Balanced p → Balanced (scan_placeholder ctx p)
unfolding scan_placeholder
scan_placeholder-Balanced ctx p b = record {
  counted = omega (arith, length-append p.inputs (from_arg p.arg_count ∷ []), b.counted);
  ordered = arg_indexes-append p.inputs (from_arg p.arg_count ∷ []) ∙ rw b.ordered;
}

-- If there is a state, it is balanced.
record Keeps (r : Result Error Progress) : Type 0 where
  balanced : (p : Progress) → r ≡ ok p → Balanced p

Keeps-ok : {p : Progress} → Balanced p → Keeps (ok p)
Keeps-ok {p} b = record { balanced = λ q e. subst Balanced (ok-injective p q e) b }
  where
    ok-injective : (p q : Progress) → ◌≡◌ {A = Result Error Progress} (ok p) (ok q) → p ≡ q
    ok-injective p q e = cc

Keeps-err : {e : Error} → Keeps (err e)
Keeps-err = record { balanced = λ q f. absurd (cc) }

Keeps-if : (t : Bool) {x y : Result Error Progress} → Keeps x → Keeps y → Keeps (if t then x else y)
Keeps-if true hx hy = hx
Keeps-if false hx hy = hy

expand_values-Keeps :
    (ctx : Context) (p : Progress) (lit : Text) → Balanced p → Keeps (expand_values ctx p lit)
unfolding expand_values
expand_values-Keeps ctx p (c ∷ lit) b = Keeps-err
expand_values-Keeps ctx p [] b = go p.inserted
  where
    go :
        (o : Option ColumnList)
        → Keeps (elim o [
          | none ↦ err insert_missing
          | some cols ↦ ok (write_columns ctx.dialect (record cols { clause = insert_values }) p)
        ])
    go none = Keeps-err
    go (some cols) =
        Keeps-ok (write_columns-Balanced ctx.dialect (record cols { clause = insert_values }) p b)

expand_parsed-Keeps :
    (ctx : Context) (p : Progress) (lit : Text) (r : Parsed)
    → Balanced p
    → Keeps (expand_parsed ctx p lit r)
unfolding expand_parsed
expand_parsed-Keeps ctx p lit (failed e) b = Keeps-err
expand_parsed-Keeps ctx p lit (parsed cols) b =
    let b' = write_columns-Balanced ctx.dialect cols p b in
    Keeps-ok (record { counted = b'.counted; ordered = b'.ordered })

module _ ⦃u : Unicode⦄ (ctx : Context) where
  expand_columns-Keeps : (p : Progress) (lit : Text) → Balanced p → Keeps (expand_columns ctx p lit)
  unfolding expand_columns
  expand_columns-Keeps p lit b =
      Keeps-if _ Keeps-err
        (Keeps-if _ (expand_values-Keeps ctx p _ b) (expand_parsed-Keeps ctx p _ _ b))

  scan_word-Balanced : (p : Progress) (lit : Text) → Balanced p → Balanced (scan_word ctx p lit)
  unfolding scan_word
  scan_word-Balanced p lit b = record { counted = b.counted; ordered = b.ordered }

  scan_ident-Keeps : (p : Progress) (lit : Text) → Balanced p → Keeps (scan_ident ctx p lit)
  unfolding scan_ident
  scan_ident-Keeps p lit b = Keeps-if _ (expand_columns-Keeps p lit b) (
      Keeps-if _ (Keeps-ok (record { counted = b.counted; ordered = b.ordered }))
        (Keeps-ok (scan_word-Balanced p lit b)))

  scan_token-Keeps : (t : Lexed) (p : Progress) → Balanced p → Keeps (scan_token ctx t p)
  unfolding scan_token
  scan_token-Keeps (Token.placeholder, lit) p b = Keeps-ok (scan_placeholder-Balanced ctx p b)
  scan_token-Keeps (ident, lit) p b = scan_ident-Keeps p lit b
  scan_token-Keeps (tok, lit) p b = Keeps-ok (record { counted = b.counted; ordered = b.ordered })

  scan_tokens-Balanced :
      (ts : List Lexed) (p : Progress) {last : Progress}
      → Balanced p
      → scan_tokens ctx ts p ≡ ok last
      → Balanced last
  unfolding scan_tokens
  scan_tokens-Balanced [] p b e = (Keeps-ok b).balanced _ e
  scan_tokens-Balanced (t ∷ ts) p b e =
      let (p', first, later) = >>=-ok (scan_token ctx t p) e in
      scan_tokens-Balanced ts p' ((scan_token-Keeps t p b).balanced p' first) later

  -- In a statement that `scanSQL` prepares, as many inputs are noted as placeholders are counted,
  -- and the inputs that are arguments take them in order, each once, up to the number of arguments
  -- that the statement then asks for.
  pub scan_sql-Balanced : (query : Text) {p : Progress} → scan_sql ctx query ≡ ok p → Balanced p
  unfolding scan_sql
  scan_sql-Balanced query {p} e =
      let (q, scanned, trimmed) = >>=-ok (scan_tokens ctx _ start) e in
      let b = scan_tokens-Balanced _ start (record { counted = refl; ordered = refl }) scanned in
      (Keeps-ok (record { counted = b.counted; ordered = b.ordered })).balanced p trimmed
