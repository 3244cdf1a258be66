-- ===== src/Sql/Clause/Transitions.antt =====
-- The state machine of the clauses.
use sqlr.Prelude.{◌≡◌, ◌⊎◌, inl, inr, refl, Text}
use sqlr.Go.Unicode.{Unicode}
use sqlr.Go.Strings.{lower}
use sqlr.Sql.Clause.{
  Clause, select_columns, insert_columns, update_table, Keyword, kw_delete, kw_from, kw_insert,
  kw_order, kw_select, kw_set, kw_update, kw_values, kw_where, kw_other, keyword_of, step_clause,
  next_clause, query_type, QueryType, insert, update, delete, select,
}

-- The keywords that begin a statement, and the type of query that they begin.
abbrev pub Begins : Keyword → QueryType → Type 0
Begins kw_select q = q ≡ select
Begins kw_insert q = q ≡ insert
Begins kw_update q = q ≡ update
Begins kw_delete q = q ≡ delete
Begins _ q = ⊥

step_clause-query_type :
    (k : Keyword) (c : Clause)
    → (query_type (step_clause k c) ≡ query_type c) ⊎ Begins k (query_type (step_clause k c))
unfolding step_clause query_type
step_clause-query_type kw_select c = inr refl
step_clause-query_type kw_insert c = inr refl
step_clause-query_type kw_update c = inr refl
step_clause-query_type kw_delete c = inr refl
step_clause-query_type kw_from select_columns = inl refl
step_clause-query_type kw_from _ = inl refl
step_clause-query_type kw_order select_columns = inl refl
step_clause-query_type kw_order _ = inl refl
step_clause-query_type kw_set update_table = inl refl
step_clause-query_type kw_set _ = inl refl
step_clause-query_type kw_values insert_columns = inl refl
step_clause-query_type kw_values _ = inl refl
step_clause-query_type kw_where select_columns = inl refl
step_clause-query_type kw_where _ = inl refl
step_clause-query_type kw_other c = inl refl

module _ ⦃u : Unicode⦄ where
  -- A word of the statement leaves the type of query as it is, unless it is `select`, `insert`,
  -- `into`, `update` or `delete` in some case; then the type is that of the statement it begins.
  pub next_clause-query_type :
      (c : Clause) (word : Text)
      → (query_type (next_clause c word) ≡ query_type c)
        ⊎ Begins (keyword_of (lower word)) (query_type (next_clause c word))
  unfolding next_clause
  next_clause-query_type c word = step_clause-query_type (keyword_of (lower word)) c
