-- ===== src/Sql/Clause.antt =====
-- sqlclause.go: which part of a statement the scan is in.
pub mod Transitions
use sqlr.Prelude.{ℕ, Bool, true, false, ◌||◌, List, [], ◌∷◌, Text, codes, equal, if◌then◌else◌}
use sqlr.Go.Unicode.{Unicode}
use sqlr.Go.Strings.{lower}

-- `sqlClause`
pub data Clause : Type 0 where
  no_clause select_columns select_from select_where select_order_by : Clause
  insert_columns insert_values update_table update_set update_where : Clause
  delete_from delete_where : Clause

pub data QueryType : Type 0 where
  unknown insert update delete select : QueryType

-- the method `queryType`
unfoldable pub query_type : Clause → QueryType
query_type select_columns = select
query_type select_from = select
query_type select_where = select
query_type select_order_by = select
query_type insert_columns = insert
query_type insert_values = insert
query_type update_table = update
query_type update_set = update
query_type update_where = update
query_type delete_from = delete
query_type delete_where = delete
query_type no_clause = unknown

-- `isInput`: the clauses that hold placeholders
unfoldable pub is_input : Clause → Bool
is_input insert_values = true
is_input update_set = true
is_input select_where = true
is_input update_where = true
is_input delete_where = true
is_input _ = false

unfoldable pub is_output : Clause → Bool
is_output select_columns = true
is_output _ = false

unfoldable pub is_select_order_by : Clause → Bool
is_select_order_by select_order_by = true
is_select_order_by _ = false

unfoldable pub is_insert_columns : Clause → Bool
is_insert_columns insert_columns = true
is_insert_columns _ = false

unfoldable pub accepts_columns : Clause → Bool
unfolding is_input is_output is_select_order_by is_insert_columns
accepts_columns c = is_input c || is_output c || is_select_order_by c || is_insert_columns c

-- The keywords that `nextClause` tells apart.
pub data Keyword : Type 0 where
  kw_delete kw_from kw_insert kw_order kw_select kw_set kw_update kw_values kw_where : Keyword
  kw_other : Keyword

-- the cases of its switch, on the text in lower case
unfoldable pub keyword_of : Text → Keyword
keyword_of k =
    if equal k (codes "delete")
    then kw_delete
    else if equal k (codes "from")
    then kw_from
    else if equal k (codes "insert") || equal k (codes "into")
    then kw_insert
    else if equal k (codes "order")
    then kw_order
    else if equal k (codes "select")
    then kw_select
    else if equal k (codes "set")
    then kw_set
    else if equal k (codes "update")
    then kw_update
    else if equal k (codes "values")
    then kw_values
    else if equal k (codes "where")
    then kw_where
    else kw_other

-- the clause behind a keyword
unfoldable pub step_clause : Keyword → Clause → Clause
step_clause kw_delete c = delete_from
step_clause kw_from select_columns = select_from
step_clause kw_insert c = insert_columns
step_clause kw_order select_from = select_order_by
step_clause kw_order select_columns = select_order_by
step_clause kw_order select_where = select_order_by
step_clause kw_select c = select_columns
step_clause kw_set update_table = update_set
step_clause kw_update c = update_table
step_clause kw_values insert_columns = insert_values
step_clause kw_where select_from = select_where
step_clause kw_where select_columns = select_where
step_clause kw_where delete_from = delete_where
step_clause kw_where update_set = update_where
step_clause kw_where update_table = update_where
step_clause _ c = c

module _ ⦃u : Unicode⦄ where
  -- the method `nextClause`
  unfoldable pub next_clause : Clause → Text → Clause
  next_clause c keyword = step_clause (keyword_of (lower keyword)) c
