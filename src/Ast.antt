-- ===== src/Ast.antt =====
-- catalog/AST.h: statements and expressions. The tagged struct `Expr` with its pointers is a data
-- type with a constructor for each tag; the root `AST`, which owns one statement, likewise.
use sql_engine.Base.{ℕ, Option, List, ℤ, Text, codes}

-- `Expr::op`. The code compares it with these twelve texts; `op_other` is any other text.
pub data Op : Type 0 where
  op_eq op_neq op_lt op_gt op_lte op_gte op_and op_or op_add op_sub op_mul op_div : Op
  op_other : Text → Op

mutual
  pub data Expr : Type 0 where
    column_ref : Text → Expr
    int_literal : ℤ → Expr
    str_literal : Text → Expr
    binary_op : Op → Expr → Expr → Expr
    function_call : Text → Exprs → Expr

  -- `std::vector<Expr*>` of the arguments of a call.
  pub data Exprs : Type 0 where
    no_args : Exprs
    arg : Expr → Exprs → Exprs

pub record SelectStmt : Type 0 where
  pub select_list : List Expr
  pub tables : List Text
  pub where_clause : Option Expr

pub record InsertStmt : Type 0 where
  pub table : Text
  pub columns : List Text
  pub values : List Expr

pub record UpdateStmt : Type 0 where
  pub table : Text
  pub assignments : List (Text × Expr)
  pub where_clause : Option Expr

pub record DeleteStmt : Type 0 where
  pub table : Text
  pub where_clause : Option Expr

-- A column has a name, the name of a type, and a length, 0 if none is written.
pub record CreateTableStmt : Type 0 where
  pub table : Text
  pub columns : List (Text × Text × ℕ)

pub data Ast : Type 0 where
  select : SelectStmt → Ast
  insert : InsertStmt → Ast
  update : UpdateStmt → Ast
  delete : DeleteStmt → Ast
  create_table : CreateTableStmt → Ast
  begin commit : Ast

-- The text of an operator.
unfoldable pub op_text : Op → Text
op_text op_eq = codes "="
op_text op_neq = codes "<>"
op_text op_lt = codes "<"
op_text op_gt = codes ">"
op_text op_lte = codes "<="
op_text op_gte = codes ">="
op_text op_and = codes "AND"
op_text op_or = codes "OR"
op_text op_add = codes "+"
op_text op_sub = codes "-"
op_text op_mul = codes "*"
op_text op_div = codes "/"
op_text (op_other s) = s
