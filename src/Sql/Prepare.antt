-- ===== src/Sql/Prepare.antt =====
-- stmt.go (`newStmt`) and schema.go (`Prepare`): the statement that a query becomes, and the cache
-- in front of it.
pub mod AutoIncrement
pub mod Cached
use sqlr.Prelude.{
  Result, err, ok, ◌>>=◌, ℕ, Bool, true, false, List, [], ◌∷◌, Option, none, some, Text, equal,
  if◌then◌else◌,
}
use sqlr.Go.Unicode.{Unicode}
use sqlr.Cache.{StmtKey, StmtCache, lookup, set}
use sqlr.Sql.Clause.{QueryType, insert}
use sqlr.Sql.Check.{Checked, statement, will_not_delete, check_sql}
use sqlr.Sql.Columns.{Column}
use sqlr.Sql.Statement.{InputSource, from_column, from_arg, Context, Progress, Error, scan_sql}

-- What `newStmt` returns: the fields that `scanSQL` wrote, and the auto-increment column.
pub record Stmt : Type 0 where
  pub progress : Progress
  pub auto_incr_column : Option Column

abbrev pub is_insert : QueryType → Bool
is_insert insert = true
is_insert _ = false

-- The first loop: the first auto-increment column of the table.
unfoldable pub first_auto_increment : List Column → Option Column
first_auto_increment [] = none
first_auto_increment (col ∷ cols) =
    if col.auto_increment then some col else first_auto_increment cols

-- `==` of index sequences, by which two columns of a table are the same.
unfoldable pub same_column : Column → Column → Bool
same_column a b = equal a.index b.index

-- The second loop: whether the statement sets the column.
unfoldable pub sets_column : Column → List InputSource → Bool
sets_column col [] = false
sets_column col (from_arg i ∷ inputs) = sets_column col inputs
sets_column col (from_column c ∷ inputs) =
    if same_column c col then true else sets_column col inputs

unfoldable pub unless_set : List InputSource → Option Column → Option Column
unless_set inputs none = none
unless_set inputs (some col) = if sets_column col inputs then none else some col

-- `if stmt.queryType == queryInsert { … }`
unfoldable pub auto_increment_of : List Column → Progress → Option Column
auto_increment_of cols p =
    if is_insert p.query_type then unless_set p.inputs (first_auto_increment cols) else none

module _ ⦃u : Unicode⦄ where
  -- `newStmt`
  unfoldable pub new_stmt : Context → Text → Result Error Stmt
  new_stmt ctx query = do
    p ← scan_sql ctx query
    ok (record { progress = p; auto_incr_column = auto_increment_of ctx.columns p })

  -- What `Prepare` returns.
  pub data Prepared : Type 0 where
    prepared : Stmt → Prepared
    not_deleting : Text → Prepared
    not_prepared : Error → Prepared

  -- `Prepare` where the cache has no statement
  unfoldable pub prepare_new :
      StmtCache Stmt → StmtKey → Result Error Stmt → Prepared × StmtCache Stmt
  prepare_new c k (err e) = (not_prepared e, c)
  prepare_new c k (ok stmt) = let (kept, c') = set c k stmt in (prepared kept, c')

  unfoldable pub prepare_key :
      Context → StmtCache Stmt → StmtKey → Option Stmt → Prepared × StmtCache Stmt
  prepare_key ctx c k (some stmt) = (prepared stmt, c)
  prepare_key ctx c k none = prepare_new c k (new_stmt ctx k.query)

  unfoldable pub prepare_checked :
      Context → StmtCache Stmt → ℕ → Checked → Prepared × StmtCache Stmt
  prepare_checked ctx c row_type (will_not_delete table) = (not_deleting table, c)
  prepare_checked ctx c row_type (statement query) =
      let k : StmtKey = record { row_type = row_type; query = query } in
      prepare_key ctx c k (lookup c k)

  -- `Prepare` for a row type that is known to be a struct, with the context of its table
  unfoldable pub prepare : Context → StmtCache Stmt → ℕ → Text → Prepared × StmtCache Stmt
  prepare ctx c row_type query = prepare_checked ctx c row_type (check_sql query)
