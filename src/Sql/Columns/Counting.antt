-- ===== src/Sql/Columns/Counting.antt =====
-- The placeholders that a column list writes.
use sqlr.Prelude.{
  ℕ, suc, ◌+◌, Bool, true, false, List, [], ◌∷◌, Text, ◌≡◌, refl, arith, if◌then◌else◌, length,
}
use sqlr.Dialect.{Dialect}
use sqlr.Sql.Clause.{Clause, insert_values, is_input}
use sqlr.Sql.Columns.{Column, ColumnList, filtered, column_text, columns_text, render}

column_text-counter :
    (d : Dialect) (c : Clause) (alias : Text) (col : Column) (n : ℕ)
    → (column_text d c alias col n).1 ≡ (if is_input c then suc n else n)
unfolding column_text is_input
column_text-counter d insert_values alias col n = refl
column_text-counter d _ alias col n = refl

columns_text-counter :
    (d : Dialect) (c : Clause) (alias : Text) (later : Bool) (cols : List Column) (n : ℕ)
    → (columns_text d c alias later cols n).1 ≡ n + (if is_input c then length cols else 0)
unfolding columns_text
columns_text-counter d c alias later [] n = ground arith
columns_text-counter d c alias later (col ∷ cols) n = ground (
  arith,
  column_text-counter d c alias col n,
  columns_text-counter d c alias true cols (column_text d c alias col n).1,
)

-- A column list takes one number from the counter for each of its columns in a clause that holds
-- placeholders, and none in any other clause.
pub render-counter :
    (d : Dialect) (cols : ColumnList) (n : ℕ)
    → (render d cols n).1 ≡ n + (if is_input cols.clause then length (filtered cols) else 0)
unfolding render
render-counter d cols n = columns_text-counter d cols.clause cols.alias false (filtered cols) n
