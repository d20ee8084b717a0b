-- ===== src/Physical.antt =====
-- queryOptimizerAndPlanner/PhysicalPlanGenerator.h, the constructor of TableScan in
-- physicalOperator/tableScan/TableScan.cpp, and the chain of calls for a SELECT in
-- queryOptimizerAndPlanner/QueryEngine.h. A filter without a predicate and an operator over a null
-- child, which are undefined in C++ once they have a row, are refused here when they are made.
pub mod Index
pub mod Select
mod Examples
use sql_engine.Base.{
  ℕ, zero, suc, ◌+◌, false, Option, none, some, List, [], ◌∷◌, ◌++◌, Text, codes, Result, ok, err,
  ◌>>=◌, undefined, length,
}
use sql_engine.Base.Assoc.{insert}
use sql_engine.Base.Equality.{text_eq}
use sql_engine.Base.Texts.{decimal}
use sql_engine.Ast.{Ast, Expr}
use sql_engine.Schema.{Column, Schema}
use sql_engine.Catalog.{Catalog, get_table}
use sql_engine.Functions.{Registry}
use sql_engine.Parser.{parse}
use sql_engine.Binder.{qualified, bind}
use sql_engine.Plan.{Plan, build_logical_plan}
use sql_engine.Plan.Rewrite.{rewrite_plan}
use sql_engine.Eval.{Row, ColumnIndex}
use sql_engine.Exec.{Operator, Storage, table_scan, filter, project, join, execute}

-- `colIdx[tableName + "." + name] = i` for each column.
unfoldable pub index_columns : Text → ℕ → List Column → ColumnIndex → ColumnIndex
index_columns t i [] idx = idx
index_columns t i (c ∷ cs) idx = index_columns t (i + 1) cs (insert (qualified t c.name) i idx)

-- `outIdx["col" + to_string(i)] = i` for each projection.
unfoldable pub index_items : ℕ → List Expr → ColumnIndex → ColumnIndex
index_items i [] idx = idx
index_items i (e ∷ es) idx = index_items (i + 1) es (insert (codes "col" ++ decimal i) i idx)

-- `for (auto &p : m) combined[p.first] = pos++`
unfoldable pub number_names : ℕ → ColumnIndex → ColumnIndex → ColumnIndex
number_names i [] idx = idx
number_names i ((n, p) ∷ m) idx = number_names (i + 1) m (insert n i idx)

-- The children of an operator are never null.
abbrev pub child : Option Operator → Result Operator
child none = err undefined
child (some op) = ok op

abbrev pub predicate_of : Option Expr → Result Expr
predicate_of none = err undefined
predicate_of (some e) = ok e

-- `order` is the order in which a loop over an std::unordered_map meets its entries.
module _ (order : ColumnIndex → ColumnIndex) (cat : Catalog) where
  unfoldable pub gen : Plan → ColumnIndex → Result (Option Operator × ColumnIndex)
  unfolding index_columns index_items number_names
  gen (Plan.seq_scan t) idx = do
    s ← get_table cat t
    ok (some (table_scan t []), index_columns t 0 s.columns [])
  gen (Plan.filter e p) idx = do
    (c, idx') ← gen p idx
    c' ← child c
    e' ← predicate_of e
    ok (some (filter c' e' idx'), idx')
  gen (Plan.project es p) idx = do
    (c, idx') ← gen p idx
    c' ← child c
    ok (some (project c' es idx'), index_items 0 es [])
  gen (Plan.join l r) idx = do
    (lo, left) ← gen l []
    (ro, right) ← gen r idx
    l' ← child lo
    r' ← child ro
    let ls : ColumnIndex = order left
    let first : ColumnIndex = number_names 0 ls []
    ok (some (join l' r' [] false), number_names (length ls) (order right) first)
  gen _ idx = ok (none, idx)

  unfoldable pub generate : Plan → Result (Option Operator)
  unfolding gen
  generate p = do (op, idx) ← gen p []; ok op

  -- A bound SELECT from its plan to its rows; the executor takes the root that is not null.
  unfoldable pub run_select : Registry → Storage → ℕ → ℕ → Ast → Result (List Row)
  unfolding generate
  run_select reg s n f ast = do
    logical ← build_logical_plan ast
    op ← generate (rewrite_plan logical)
    root ← child op
    execute reg s n f root

  -- QueryEngine::executeQuery for a SELECT.
  unfoldable pub execute_query : Registry → Storage → ℕ → ℕ → Text → Result (List Row)
  unfolding run_select
  execute_query reg s n f sql = do
    ast ← parse sql
    bound ← bind reg cat ast
    run_select reg s n f bound
