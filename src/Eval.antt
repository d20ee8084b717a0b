-- ===== src/Eval.antt =====
-- physicalOperator/expressionEvaluator/ExpressionEvaluator.h and ExpressionEvaluator.cpp. A signed
-- overflow, a division by zero and an index past the row are undefined in C++, and `err undefined`
-- here. `eval` is called again on both operands of AND and OR; the functions of the registry have no
-- effects, so the second call gives what the first gave.
pub mod Typed
mod Examples
use sql_engine.Base.{
  ℕ, Bool, true, false, not, ◌&&◌, ◌||◌, Option, none, some, List, [], ◌∷◌, Text, if◌then◌else◌,
  get_elem?, ℤ, pos, negsuc, Result, ok, err, ◌>>=◌, or_throw, undefined, unknown_column,
  unsupported_operator, non_boolean,
}
use sql_engine.Base.Int.{◌+ℤ◌, ◌-ℤ◌, ◌*ℤ◌, div_ℤ, ltb_ℤ, leb_ℤ, eq_ℤ, fits32}
use sql_engine.Base.Equality.{list_beq, text_eq}
use sql_engine.Base.Assoc.{Map, find}
use sql_engine.Base.Texts.{less}
use sql_engine.Ast.{
  Expr, Exprs, no_args, arg, column_ref, int_literal, str_literal, binary_op, function_call, Op,
  op_eq, op_neq, op_lt, op_gt, op_lte, op_gte, op_and, op_or, op_add, op_sub, op_mul, op_div,
  op_other, op_text,
}
use sql_engine.Record.{FieldValue, int, str}
use sql_engine.Functions.{Registry, get_function}

-- physical::Row, and where each column of it stands.
abbrev pub Row : Type 0
Row = List FieldValue

abbrev pub ColumnIndex : Type 0
ColumnIndex = Map Text ℕ

-- (int32_t)(b)
abbrev pub of_bool : Bool → FieldValue
of_bool b = if b then int (pos 1) else int (pos 0)

-- The result of `int32_t` arithmetic.
unfoldable pub checked : ℤ → Result FieldValue
checked z = if fits32 z then ok (int z) else err undefined

-- The operators on two INTs; `none`: not one of them.
unfoldable pub int_op : Op → ℤ → ℤ → Option (Result FieldValue)
unfolding checked
int_op op_add a b = some (checked (a +ℤ b))
int_op op_sub a b = some (checked (a -ℤ b))
int_op op_mul a b = some (checked (a *ℤ b))
int_op op_div a b = some (if eq_ℤ b (pos 0) then err undefined else checked (div_ℤ a b))
int_op op_eq a b = some (ok (of_bool (eq_ℤ a b)))
int_op op_neq a b = some (ok (of_bool (not (eq_ℤ a b))))
int_op op_lt a b = some (ok (of_bool (ltb_ℤ a b)))
int_op op_gt a b = some (ok (of_bool (ltb_ℤ b a)))
int_op op_lte a b = some (ok (of_bool (leb_ℤ a b)))
int_op op_gte a b = some (ok (of_bool (leb_ℤ b a)))
int_op _ a b = none

-- The operators on two STRINGs.
unfoldable pub str_op : Op → Text → Text → Option (Result FieldValue)
str_op op_eq a b = some (ok (of_bool (list_beq a b)))
str_op op_neq a b = some (ok (of_bool (not (list_beq a b))))
str_op op_lt a b = some (ok (of_bool (less a b)))
str_op op_gt a b = some (ok (of_bool (less b a)))
str_op op_lte a b = some (ok (of_bool (not (less b a))))
str_op op_gte a b = some (ok (of_bool (not (less a b))))
str_op _ a b = none

-- evalBoolean, given the value.
unfoldable pub truth : FieldValue → Result Bool
truth (int z) = ok (not (eq_ℤ z (pos 0)))
truth (str s) = err non_boolean

-- AND, OR, and the error for any other operator. `&&` and `||` look at the right side only if the
-- left does not decide.
unfoldable pub logical_op : Op → FieldValue → FieldValue → Result FieldValue
unfolding truth
logical_op op_and l r = do a ← truth l; b ← (if a then truth r else ok false); ok (of_bool b)
logical_op op_or l r = do a ← truth l; b ← (if a then ok true else truth r); ok (of_bool b)
logical_op op l r = err (unsupported_operator (op_text op))

unfoldable pub apply_op : Op → FieldValue → FieldValue → Result FieldValue
unfolding int_op str_op logical_op
apply_op op (int a) (int b) = elim (int_op op a b) [
  | some r ↦ r
  | none ↦ logical_op op (int a) (int b)
]
apply_op op (str a) (str b) = elim (str_op op a b) [
  | some r ↦ r
  | none ↦ logical_op op (str a) (str b)
]
apply_op op l r = logical_op op l r

-- `colIdx.find(name)` and `row[it->second]`
unfoldable pub column_value : Row → ColumnIndex → Text → Result FieldValue
column_value row idx n = do
  i ← or_throw (find n idx) (unknown_column n)
  or_throw (get_elem? row i) undefined

unfoldable mutual
  unfolding column_value apply_op

  pub eval : Registry → Row → ColumnIndex → Expr → Result FieldValue
  eval reg row idx (int_literal z) = ok (int z)
  eval reg row idx (str_literal s) = ok (str s)
  eval reg row idx (column_ref n) = column_value row idx n
  eval reg row idx (binary_op op l r) = do
    a ← eval reg row idx l
    b ← eval reg row idx r
    apply_op op a b
  eval reg row idx (function_call n args) = do
    vs ← eval_args reg row idx args
    f ← get_function reg n
    f vs

  pub eval_args : Registry → Row → ColumnIndex → Exprs → Result (List FieldValue)
  eval_args reg row idx no_args = ok []
  eval_args reg row idx (arg e es) = do
    v ← eval reg row idx e
    vs ← eval_args reg row idx es
    ok (v ∷ vs)

unfoldable pub eval_boolean : Registry → Row → ColumnIndex → Expr → Result Bool
unfolding eval truth
eval_boolean reg row idx e = do v ← eval reg row idx e; truth v
