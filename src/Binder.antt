-- ===== src/Binder.antt =====
-- binder/Binder.h and Binder.cpp: names and types of a statement against the catalog. The code
-- rewrites the statement in place; here the bound statement is returned.
pub mod Columns
mod Examples
use sql_engine.Base.{
  ℕ, Bool, true, false, not, ◌&&◌, ◌||◌, Option, none, some, List, [], ◌∷◌, ◌++◌, map, Text, codes,
  length, ◌==◌, if◌then◌else◌, Result, ok, err, ◌>>=◌, ◌>>◌, guard, Error, column_not_found,
  type_mismatch, unknown_function, no_tables, values_mismatch, column_in_values,
  comparison_mismatch, invalid_operand, unsupported_in_where,
}
use sql_engine.Base.Equality.{list_beq}
use sql_engine.Ast.{
  Ast, Expr, Exprs, no_args, arg, column_ref, int_literal, str_literal, binary_op, function_call,
  Op, op_eq, op_neq, op_lt, op_gt, op_lte, op_gte, op_and, op_or, op_add, op_sub, op_mul, op_div,
  op_other, select, insert, update, delete, create_table, begin, commit, SelectStmt, InsertStmt,
  UpdateStmt, DeleteStmt,
}
use sql_engine.Schema.{Schema, Column, DataType, int_type, string_type}
use sql_engine.Catalog.{Catalog, get_table, get_column_info}
use sql_engine.Functions.{Registry, has_function}

-- `col.find('.')`: what stands before the first dot, and what behind it.
unfoldable pub split_dot : Text → Option (Text × Text)
split_dot [] = none
split_dot (c ∷ cs) =
    if c == 46
    then some ([], cs)
    else elim (split_dot cs) [ none ↦ none | some (t, n) ↦ some (c ∷ t, n) ]

abbrev pub qualified : Text → Text → Text
qualified t c = t ++ 46 ∷ c

abbrev pub same_type : DataType → DataType → Bool
same_type int_type int_type = true
same_type string_type string_type = true
same_type _ _ = false

-- The loop of qualifyColumn over the tables. The exception for an ambiguous column is thrown inside
-- the `try` whose handler swallows it, before `found` is assigned.
unfoldable pub search_tables : Catalog → Text → Text → List Text → Text
search_tables cat col found [] = found
search_tables cat col found (t ∷ ts) =
    search_tables cat col
      (elim (get_column_info cat t col) [
        | err e ↦ found
        | ok c ↦ elim found [ [] ↦ qualified t col | b ∷ bs ↦ b ∷ bs ]
      ])
      ts

unfoldable pub qualify_column : Catalog → Text → List Text → Result Text
unfolding split_dot search_tables
qualify_column cat col tables = elim (split_dot col) [
  | some (t, c) ↦ (do _ ← get_table cat t; _ ← get_column_info cat t c; ok (qualified t c))
  | none ↦ elim (search_tables cat col [] tables) [
    | [] ↦ err (column_not_found col)
    | b ∷ bs ↦ ok (b ∷ bs)
  ]
]

-- resolveColumnsInExpr, with the arguments of a call.
unfoldable mutual
  unfolding qualify_column

  pub resolve_columns : Registry → Catalog → List Text → Expr → Result Expr
  resolve_columns reg cat ts (column_ref n) = do n' ← qualify_column cat n ts; ok (column_ref n')
  resolve_columns reg cat ts (int_literal z) = ok (int_literal z)
  resolve_columns reg cat ts (str_literal s) = ok (str_literal s)
  resolve_columns reg cat ts (binary_op op l r) = do
    l' ← resolve_columns reg cat ts l
    r' ← resolve_columns reg cat ts r
    ok (binary_op op l' r')
  resolve_columns reg cat ts (function_call n args) = do
    args' ← resolve_args reg cat ts args
    guard (has_function reg n) (unknown_function n)
    ok (function_call n args')

  pub resolve_args : Registry → Catalog → List Text → Exprs → Result Exprs
  resolve_args reg cat ts no_args = ok no_args
  resolve_args reg cat ts (arg e es) = do
    e' ← resolve_columns reg cat ts e
    es' ← resolve_args reg cat ts es
    ok (arg e' es')

-- The lambda `getType` of typeCheckExpr. Without a dot `find` gives npos, so both parts are the name.
unfoldable pub operand_type : Catalog → Expr → Result DataType
unfolding split_dot
operand_type cat (int_literal z) = ok int_type
operand_type cat (str_literal s) = ok string_type
operand_type cat (column_ref n) = elim (split_dot n) [
  | some (t, c) ↦ (do col ← get_column_info cat t c; ok col.type)
  | none ↦ (do col ← get_column_info cat n n; ok col.type)
]
operand_type cat (binary_op op l r) = err invalid_operand
operand_type cat (function_call n args) = err invalid_operand

abbrev pub is_comparison : Op → Bool
is_comparison op_eq = true
is_comparison op_neq = true
is_comparison op_lt = true
is_comparison op_gt = true
is_comparison op_lte = true
is_comparison op_gte = true
is_comparison _ = false

abbrev pub is_logical : Op → Bool
is_logical op_and = true
is_logical op_or = true
is_logical _ = false

-- The test on the operator, given the types of its operands.
unfoldable pub check_operator : Op → DataType → DataType → Result (Unit {0})
check_operator op lt rt =
    if is_comparison op
    then guard (same_type lt rt) comparison_mismatch
    else guard (is_logical op) unsupported_in_where

unfoldable mutual
  unfolding operand_type check_operator

  pub type_check : Catalog → Expr → Result (Unit {0})
  type_check cat (binary_op op l r) = do
    type_check cat l
    type_check cat r
    lt ← operand_type cat l
    rt ← operand_type cat r
    check_operator op lt rt
  type_check cat (function_call n args) = type_check_args cat args
  type_check cat (column_ref n) = ok tt
  type_check cat (int_literal z) = ok tt
  type_check cat (str_literal s) = ok tt

  pub type_check_args : Catalog → Exprs → Result (Unit {0})
  type_check_args cat no_args = ok tt
  type_check_args cat (arg e es) = do type_check cat e; type_check_args cat es

-- An expression is resolved, then checked.
unfoldable pub bind_expr : Registry → Catalog → List Text → Expr → Result Expr
unfolding resolve_columns type_check
bind_expr reg cat ts e = do e' ← resolve_columns reg cat ts e; type_check cat e'; ok e'

unfoldable pub bind_exprs : Registry → Catalog → List Text → List Expr → Result (List Expr)
unfolding bind_expr
bind_exprs reg cat ts [] = ok []
bind_exprs reg cat ts (e ∷ es) = do
  e' ← bind_expr reg cat ts e
  es' ← bind_exprs reg cat ts es
  ok (e' ∷ es')

unfoldable pub bind_where : Registry → Catalog → List Text → Option Expr → Result (Option Expr)
unfolding bind_expr
bind_where reg cat ts none = ok none
bind_where reg cat ts (some e) = do e' ← bind_expr reg cat ts e; ok (some e')

-- `for (auto &t : tables) getTable(t)`
unfoldable pub check_tables : Catalog → List Text → Result (Unit {0})
check_tables cat [] = ok tt
check_tables cat (t ∷ ts) = do s ← get_table cat t; check_tables cat ts

-- The columns of all tables, for one `*`.
unfoldable pub star_columns : Catalog → List Text → Result (List Expr)
star_columns cat [] = ok []
star_columns cat (t ∷ ts) = do
  s ← get_table cat t
  rest ← star_columns cat ts
  ok (map (λ (c : Column). column_ref (qualified t c.name)) s.columns ++ rest)

abbrev pub is_star : Expr → Bool
is_star (column_ref n) = list_beq n (codes "*")
is_star _ = false

unfoldable pub expand_star : Catalog → List Text → List Expr → Result (List Expr)
unfolding star_columns
expand_star cat ts [] = ok []
expand_star cat ts (e ∷ es) = do
  here ← (if is_star e then star_columns cat ts else ok (e ∷ []))
  rest ← expand_star cat ts es
  ok (here ++ rest)

unfoldable pub bind_select : Registry → Catalog → SelectStmt → Result SelectStmt
unfolding check_tables expand_star bind_exprs bind_where
bind_select reg cat s = do
  guard (elim s.tables [ [] ↦ false | t ∷ ts ↦ true ]) no_tables
  check_tables cat s.tables
  items ← expand_star cat s.tables s.select_list
  items' ← bind_exprs reg cat s.tables items
  condition ← bind_where reg cat s.tables s.where_clause
  ok (record { select_list = items'; tables = s.tables; where_clause = condition })

-- A value of INSERT against the type of its column.
unfoldable pub check_literal : Text → DataType → Expr → Result (Unit {0})
check_literal n t (column_ref c) = err column_in_values
check_literal n int_type (int_literal z) = ok tt
check_literal n string_type (str_literal s) = ok tt
check_literal n t e = err (type_mismatch n)

-- The loop of bindInsert: the lists are as long as each other.
unfoldable pub check_values : Catalog → Text → List Text → List Expr → Result (Unit {0})
unfolding check_literal
check_values cat t [] es = ok tt
check_values cat t (n ∷ ns) [] = ok tt
check_values cat t (n ∷ ns) (e ∷ es) = do
  c ← get_column_info cat t n
  check_literal n c.type e
  check_values cat t ns es

unfoldable pub bind_insert : Registry → Catalog → InsertStmt → Result InsertStmt
unfolding check_values
bind_insert reg cat s = do
  schema ← get_table cat s.table
  let columns : List Text = elim s.columns [
    | [] ↦ map (λ (c : Column). c.name) schema.columns
    | n ∷ ns ↦ n ∷ ns
  ]
  guard (length s.values == length columns) values_mismatch
  check_values cat s.table columns s.values
  ok (record { table = s.table; columns = columns; values = s.values })

-- A literal that is assigned, against the type of its column; other expressions pass.
unfoldable pub check_assigned : Text → DataType → Expr → Result (Unit {0})
check_assigned n t (int_literal z) = guard (same_type t int_type) (type_mismatch n)
check_assigned n t (str_literal s) = guard (same_type t string_type) (type_mismatch n)
check_assigned n t _ = ok tt

unfoldable pub bind_assignments :
    Registry → Catalog → Text → List (Text × Expr) → Result (List (Text × Expr))
unfolding bind_expr check_assigned
bind_assignments reg cat t [] = ok []
bind_assignments reg cat t ((n, e) ∷ rest) = do
  c ← get_column_info cat t n
  e' ← bind_expr reg cat (t ∷ []) e
  check_assigned n c.type e'
  rest' ← bind_assignments reg cat t rest
  ok ((n, e') ∷ rest')

unfoldable pub bind_update : Registry → Catalog → UpdateStmt → Result UpdateStmt
unfolding bind_assignments bind_where
bind_update reg cat s = do
  schema ← get_table cat s.table
  assignments ← bind_assignments reg cat s.table s.assignments
  condition ← bind_where reg cat (s.table ∷ []) s.where_clause
  ok (record { table = s.table; assignments = assignments; where_clause = condition })

unfoldable pub bind_delete : Registry → Catalog → DeleteStmt → Result DeleteStmt
unfolding bind_where
bind_delete reg cat s = do
  schema ← get_table cat s.table
  condition ← bind_where reg cat (s.table ∷ []) s.where_clause
  ok (record { table = s.table; where_clause = condition })

unfoldable pub bind : Registry → Catalog → Ast → Result Ast
unfolding bind_select bind_insert bind_update bind_delete
bind reg cat (select s) = do s' ← bind_select reg cat s; ok (select s')
bind reg cat (insert s) = do s' ← bind_insert reg cat s; ok (insert s')
bind reg cat (update s) = do s' ← bind_update reg cat s; ok (update s')
bind reg cat (delete s) = do s' ← bind_delete reg cat s; ok (delete s')
bind reg cat ast = ok ast
