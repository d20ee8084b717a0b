-- ===== src/Physical/Select.antt =====
-- A SELECT over one table from its text to its rows (executeQuery of
-- queryOptimizerAndPlanner/QueryEngine.h).
use sql_engine.Base.{
  ℕ, ◌+◌, ◌≤◌, ◌<◌, Bool, ◌≡◌, refl, some, List, [], ◌∷◌, map, Text, ok, length, All,
}
use sql_engine.Ast.{Ast, Expr, select, SelectStmt}
use sql_engine.Schema.{Schema}
use sql_engine.Catalog.{Catalog, get_table}
use sql_engine.Functions.{Registry}
use sql_engine.Parser.{parse}
use sql_engine.Binder.{bind}
use sql_engine.Plan.{Plan, build_logical_plan, select_plan}
use sql_engine.Plan.Skeleton.{rewrite_planned}
use sql_engine.Eval.{Row, ColumnIndex, eval_boolean}
use sql_engine.Heap.{RecordId}
use sql_engine.Exec.{Storage, table_scan, filter, project, eval_all}
use sql_engine.Exec.Streams.{fetch_all, keep}
use sql_engine.Exec.Relational.{select_rows}
use sql_engine.Physical.{gen, generate, run_select, execute_query, index_columns}

-- The plan of such a statement.
abbrev pub plan_of : SelectStmt → Expr → Text → Plan
plan_of q e t = Plan.project q.select_list (Plan.filter (some e) (Plan.seq_scan t))

planned :
    (q : SelectStmt) (e : Expr) (t : Text)
    → q.tables ≡ t ∷ []
    → q.where_clause ≡ some e
    → build_logical_plan (select q) ≡ ok (plan_of q e t)
unfolding build_logical_plan select_plan
planned q e t ht he = rw (ht, he) refl

module _ (order : ColumnIndex → ColumnIndex) (cat : Catalog) where
  -- The positions of the columns of the table are those by which its rows are read.
  generated :
      (q : SelectStmt) (e : Expr) (t : Text) (schema : Schema)
      → get_table cat t ≡ ok schema
      → let idx = index_columns t 0 schema.columns [] in
        generate order cat (plan_of q e t)
        ≡ ok (some (project (filter (table_scan t []) e idx) q.select_list idx))
  unfolding generate gen
  generated q e t schema h = rw h refl

  -- A text that is parsed and bound to a SELECT with a condition over one table is answered with the
  -- projected values of the rows of the table that satisfy the condition, in the order of the scan,
  -- when the rows can be fetched and the condition and the items evaluate on the rows that they meet,
  -- each column being read at its position in the schema. More rounds than rows and four more units
  -- of fuel than rows are enough.
  pub execute_query_rows :
      (reg : Registry) (s : Storage) (sql : Text) (ast : Ast) (q : SelectStmt) (e : Expr) (t : Text)
      (schema : Schema) (rids : List RecordId) (rows : List Row) (p : Row → Bool) (out : Row → Row)
      (n f : ℕ)
      → parse sql ≡ ok ast
      → bind reg cat ast ≡ ok (select q)
      → q.tables ≡ t ∷ []
      → q.where_clause ≡ some e
      → get_table cat t ≡ ok schema
      → s.scan_table t ≡ ok rids
      → fetch_all s t rids ≡ ok rows
      → All (λ row. eval_boolean reg row (index_columns t 0 schema.columns []) e ≡ ok (p row)) rows
      → All
          (λ row.
            eval_all reg row (index_columns t 0 schema.columns []) q.select_list ≡ ok (out row))
          (keep p rows)
      → length rows < n
      → 4 + length rows ≤ f
      → execute_query order cat reg s n f sql ≡ ok (map out (keep p rows))
  unfolding execute_query run_select
  execute_query_rows reg s sql ast q e t schema rids rows p out n f hq hb ht he hc hs hf hp ho ln
        lf =
      let idx = index_columns t 0 schema.columns [] in
      let plan = planned q e t ht he in
      rw
        (
          hq,
          hb,
          plan,
          rewrite_planned q e (plan_of q e t) he plan,
          generated q e t schema hc,
          execute_query,
          run_select,
        )
        (select_rows reg s t rids rows e q.select_list idx idx p out n f hs hf hp ho ln lf)
