-- ===== src/Plan.antt =====
-- Logical plans (queryOptimizerAndPlanner/LogicalOperator.h) and how a statement becomes one
-- (queryOptimizerAndPlanner/planner/Planner.cpp). The switch of buildLogicalPlan has a second label
-- for SELECT, which can never be taken: `join_plan` is the code under it, and `build_logical_plan`
-- takes the first.
pub mod Rewrite
pub mod Skeleton
pub mod Order
mod Examples
use sql_engine.Base.{
  ℕ, Option, none, some, List, [], ◌∷◌, Text, Result, ok, err, not_single_table, no_tables,
}
use sql_engine.Ast.{
  Ast, Expr, select, insert, update, delete, create_table, begin, commit, SelectStmt, InsertStmt,
  UpdateStmt, DeleteStmt, CreateTableStmt,
}

-- A node with its children. The predicate of a filter is a pointer that may be null.
pub data Plan : Type 0 where
  seq_scan : Text → Plan
  filter : Option Expr → Plan → Plan
  project : List Expr → Plan → Plan
  join : Plan → Plan → Plan
  insert_node : InsertStmt → Plan
  update_node : UpdateStmt → Plan
  delete_node : DeleteStmt → Plan
  create_node : CreateTableStmt → Plan
  begin_node commit_node : Plan

-- `if (sel->whereClause) plan = new LogicalFilter(…)`
abbrev pub with_filter : Option Expr → Plan → Plan
with_filter none p = p
with_filter (some e) p = filter (some e) p

unfoldable pub select_plan : SelectStmt → Result Plan
select_plan s = elim s.tables [
  | [] ↦ err not_single_table
  | t ∷ ts ↦ elim ts [
    | [] ↦ ok (project s.select_list (with_filter s.where_clause (seq_scan t)))
    | u ∷ us ↦ err not_single_table
  ]
]

-- A join for each table behind the first.
unfoldable pub join_scans : Plan → List Text → Plan
join_scans p [] = p
join_scans p (t ∷ ts) = join_scans (join p (seq_scan t)) ts

unfoldable pub join_plan : SelectStmt → Result Plan
unfolding join_scans
join_plan s = elim s.tables [
  | [] ↦ err no_tables
  | t ∷ ts ↦ ok (project s.select_list (with_filter s.where_clause (join_scans (seq_scan t) ts)))
]

unfoldable pub build_logical_plan : Ast → Result Plan
unfolding select_plan
build_logical_plan (select s) = select_plan s
build_logical_plan (insert s) = ok (insert_node s)
build_logical_plan (update s) = ok (update_node s)
build_logical_plan (delete s) = ok (delete_node s)
build_logical_plan (create_table s) = ok (create_node s)
build_logical_plan begin = ok begin_node
build_logical_plan commit = ok commit_node
