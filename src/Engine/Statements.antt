-- ===== src/Engine/Statements.antt =====
-- The second executeQuery of queryOptimizerAndPlanner/QueryEngine.h: INSERT, UPDATE and DELETE by the
-- primary key, straight on the storage engine. `get_column_index` stands for Schema::getColumnIndex,
-- which the repository calls but does not define, and `query` for what is done with a SELECT.
use sql_engine.Base.{
  ℕ, Option, none, some, List, [], ◌∷◌, Text, ℤ, pos, Result, Error, ok, err, ◌>>=◌, undefined,
  insert_expression, update_expression, update_condition, delete_condition,
}
use sql_engine.Ast.{
  Ast, select, insert, update, delete, create_table, begin, commit, InsertStmt, UpdateStmt,
  DeleteStmt, Expr, int_literal, str_literal, column_ref, binary_op, function_call, op_eq,
}
use sql_engine.Schema.{Schema}
use sql_engine.Catalog.{Catalog, get_table, get_column_info}
use sql_engine.Functions.{Registry}
use sql_engine.Record.{FieldValue, int, str}
use sql_engine.Parser.{parse}
use sql_engine.Binder.{bind}
use sql_engine.Tree.{write_array}
use sql_engine.Engine.{
  Parts, Engine, Reply, insert_record, delete_by_key, update_by_key, find_by_key, fetch_record,
}

unfoldable pub literal_value : Error → Expr → Result FieldValue
literal_value other (int_literal z) = ok (int z)
literal_value other (str_literal s) = ok (str s)
literal_value other (column_ref c) = err other
literal_value other (binary_op op l r) = err other
literal_value other (function_call f args) = err other

-- The loop over the values of an INSERT.
unfoldable pub literal_values : List Expr → Result (List FieldValue)
unfolding literal_value
literal_values [] = ok []
literal_values (e ∷ es) = do
  v ← literal_value insert_expression e
  vs ← literal_values es
  ok (v ∷ vs)

-- w->right->intValue: it is 0 in a node of another kind.
unfoldable pub int_value : Expr → ℤ
int_value (int_literal z) = z
int_value (column_ref c) = pos 0
int_value (str_literal s) = pos 0
int_value (binary_op op l r) = pos 0
int_value (function_call f args) = pos 0

-- The key of a condition; a null condition is dereferenced.
unfoldable pub condition_key : Error → Option Expr → Result ℤ
unfolding int_value
condition_key other none = err undefined
condition_key other (some (binary_op op_eq left right)) = ok (int_value right)
condition_key other (some e) = err other

module _ {P H I : Type 0} (parts : Parts P H I) (get_column_index : Schema → Text → ℕ)
    (cat : Catalog) where
  -- The loop over the assignments of an UPDATE.
  unfoldable pub assign_values :
      Text → List (Text × Expr) → List FieldValue → Result (List FieldValue)
  unfolding literal_value write_array get_column_info get_table
  assign_values table [] values = ok values
  assign_values table ((column, e) ∷ rest) values = do
    info ← get_column_info cat table column
    schema ← get_table cat table
    v ← literal_value update_expression e
    values' ← write_array values (get_column_index schema column) v
    assign_values table rest values'

  -- A call that returned, and a computation on values.
  abbrev pub after_call :
      {A B : Type 0} → Reply parts A → (Engine parts → A → Reply parts B) → Reply parts B
  after_call (e, err x) next = (e, err x)
  after_call (e, ok a) next = next e a

  abbrev pub computing :
      {A B : Type 0} → Engine parts → Result A → (A → Reply parts B) → Reply parts B
  computing e (err x) next = (e, err x)
  computing e (ok a) next = next a

  abbrev pub Rows : Type 0
  Rows = List (List FieldValue)

  unfoldable pub run_insert : Engine parts → InsertStmt → Reply parts Rows
  unfolding literal_values insert_record
  run_insert e q =
      computing e (literal_values q.values)
        (λ values. after_call (insert_record parts e q.table values) (λ e1 rid. (e1, ok [])))

  -- The id of a key that is not found is not set.
  unfoldable pub run_update : Engine parts → UpdateStmt → Reply parts Rows
  unfolding condition_key find_by_key fetch_record assign_values update_by_key
  run_update e q = computing e (condition_key update_condition q.where_clause) (λ key.
      after_call (find_by_key parts e q.table key) (λ e1 found. elim found [
        | none ↦ (e1, err undefined)
        | some rid ↦ after_call (fetch_record parts e1 q.table rid) (λ e2 old.
            computing e2 (assign_values q.table q.assignments old) (λ values.
              after_call (update_by_key parts e2 q.table key values) (λ e3 done. (e3, ok []))))
      ]))

  unfoldable pub run_delete : Engine parts → DeleteStmt → Reply parts Rows
  unfolding condition_key delete_by_key
  run_delete e q =
      computing e (condition_key delete_condition q.where_clause)
        (λ key. after_call (delete_by_key parts e q.table key) (λ e1 deleted. (e1, ok [])))

  unfoldable pub run_bound :
      (Engine parts → Ast → Reply parts Rows) → Engine parts → Ast → Reply parts Rows
  unfolding run_insert run_update run_delete
  run_bound query e (insert q) = run_insert e q
  run_bound query e (update q) = run_update e q
  run_bound query e (delete q) = run_delete e q
  run_bound query e (select q) = query e (select q)
  run_bound query e (create_table q) = query e (create_table q)
  run_bound query e begin = query e begin
  run_bound query e commit = query e commit

  unfoldable pub execute_query :
      (Engine parts → Ast → Reply parts Rows) → Registry → Engine parts → Text → Reply parts Rows
  unfolding run_bound
  execute_query query reg e sql =
      computing e (parse sql)
        (λ ast. computing e (bind reg cat ast) (λ bound. run_bound query e bound))
