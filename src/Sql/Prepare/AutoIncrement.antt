-- ===== src/Sql/Prepare/AutoIncrement.antt =====
-- The column that an insert statement leaves to the database.
use sqlr.Prelude.{
  >>=-ok, ok, true, false, List, [], ◌∷◌, Option, none, some, Text, ◌≡◌, arith, Bool-cases, inl,
  inr,
}
use sqlr.Go.Unicode.{Unicode}
use sqlr.Sql.Clause.{QueryType, insert}
use sqlr.Sql.Columns.{Column}
use sqlr.Sql.Statement.{InputSource, Context, Progress, scan_sql}
use sqlr.Sql.Prepare.{
  Stmt, is_insert, first_auto_increment, sets_column, auto_increment_of, unless_set, new_stmt,
}

first_auto_increment-some :
    (cols : List Column) (col : Column)
    → first_auto_increment cols ≡ some col
    → col.auto_increment ≡ true
unfolding first_auto_increment
first_auto_increment-some [] col h = absurd (cc)
first_auto_increment-some (c ∷ cols) col h = ground (arith, first_auto_increment-some cols col)

unless_set-some :
    (inputs : List InputSource) (found : Option Column) (col : Column)
    → unless_set inputs found ≡ some col
    → (found ≡ some col) × (sets_column col inputs ≡ false)
unfolding unless_set
unless_set-some inputs none col h = absurd (cc)
unless_set-some inputs (some c) col h = ground arith

is_insert-insert : (q : QueryType) → is_insert q ≡ true → q ≡ insert
is_insert-insert q h = ground arith

auto_increment_of-some :
    (cols : List Column) (p : Progress) (col : Column)
    → auto_increment_of cols p ≡ some col
    → (p.query_type ≡ insert)
      × (first_auto_increment cols ≡ some col)
      × (col.auto_increment ≡ true)
      × (sets_column col p.inputs ≡ false)
unfolding auto_increment_of
auto_increment_of-some cols p col h = elim (Bool-cases (is_insert p.query_type)) [
  | inl e ↦
      let (first, free) = unless_set-some p.inputs _ col (rw e at h) in
      (is_insert-insert p.query_type e, first, first_auto_increment-some cols col first, free)
  | inr e ↦ absurd (ground arith)
]

module _ ⦃u : Unicode⦄ where
  -- A prepared statement has an auto-increment column only if it is an insert statement; that
  -- column is the first of the table so marked, and no input of the statement sets it.
  pub new_stmt-auto_incr_column :
      (ctx : Context) (query : Text) (stmt : Stmt) (col : Column)
      → new_stmt ctx query ≡ ok stmt
      → stmt.auto_incr_column ≡ some col
      → (stmt.progress.query_type ≡ insert)
        × (first_auto_increment ctx.columns ≡ some col)
        × (col.auto_increment ≡ true)
        × (sets_column col stmt.progress.inputs ≡ false)
  unfolding new_stmt
  new_stmt-auto_incr_column ctx query stmt col e h =
      let (p, scanned, made) = >>=-ok (scan_sql ctx query) e in
      let same : stmt
          ≡ record { progress = p; auto_incr_column = auto_increment_of ctx.columns p } =
        cc in
      rw same (auto_increment_of-some ctx.columns p col (rw same at h))
