-- ===== src/Parser/Expression.antt =====
-- Expressions of parser/Parser.cpp. `getPrecedence` is called and its result is never used, so it
-- has no part in the result of parseExpression. The branch of parsePrimary for function calls is
-- never reached: an identifier is a column reference before it.
use sql_engine.Base.{
  ℕ, zero, suc, ◌+◌, ◌-◌, ◌*◌, [], ◌∷◌, ltb, if◌then◌else◌, Option, none, some, ℤ, pos, Text, codes,
  Result, ok, err, out_of_fuel, unexpected_token, out_of_range,
}
use sql_engine.Ast.{
  Expr, column_ref, int_literal, str_literal, binary_op, Op, op_eq, op_neq, op_lt, op_gt, op_lte,
  op_gte, op_and, op_or,
}
use sql_engine.Parser.Token.{
  TokenType, ident_token, int_token, str_token, lparen, rparen, eq_token, neq_token, lt_token,
  lte_token, gt_token, gte_token, and_key, or_key,
}
use sql_engine.Parser.Monad.{Parse, pure, ◌>>=◌, ◌>>◌, match, expect}

-- std::stoi of a text of digits.
unfoldable pub digits_value : ℕ → Text → ℕ
digits_value n [] = n
digits_value n (c ∷ cs) = digits_value (n * 10 + (c - 48)) cs

unfoldable pub stoi : Text → Result ℤ
unfolding digits_value
stoi w = let n = digits_value 0 w in if ltb n 2147483648 then ok (pos n) else err out_of_range

-- The operators that continue an expression.
unfoldable pub operator_of : TokenType → Option Op
operator_of eq_token = some op_eq
operator_of lt_token = some op_lt
operator_of gt_token = some op_gt
operator_of lte_token = some op_lte
operator_of gte_token = some op_gte
operator_of neq_token = some op_neq
operator_of and_key = some op_and
operator_of or_key = some op_or
operator_of _ = none

-- parsePrimary, given parseExpression.
unfoldable pub primary : Parse Expr → Parse Expr
unfolding stoi expect match
primary expression [] = err unexpected_token
primary expression (t ∷ ts) = elim t.type [
  | ident_token ↦ ok (column_ref t.text, ts)
  | int_token ↦ elim (stoi t.text) [ err e ↦ err e | ok z ↦ ok (int_literal z, ts) ]
  | str_token ↦ ok (str_literal t.text, ts)
  | lparen ↦ (do e ← expression; expect rparen (codes "Expected )"); pure e) ts
  | _ ↦ err unexpected_token
]

-- The loop of parseExpression, given parseExpression: a round for each unit of fuel.
unfoldable pub operators : ℕ → Parse Expr → Expr → Parse Expr
unfolding operator_of
operators zero expression lhs ts = err out_of_fuel
operators (suc f) expression lhs [] = ok (lhs, [])
operators (suc f) expression lhs (t ∷ ts) = elim (operator_of t.type) [
  | none ↦ ok (lhs, t ∷ ts)
  | some op ↦ elim (expression ts) [
    | err e ↦ err e
    | ok (rhs, rest) ↦ operators f expression (binary_op op lhs rhs) rest
  ]
]

unfoldable pub expression : ℕ → Parse Expr
unfolding primary operators
expression zero ts = err out_of_fuel
expression (suc f) ts = elim (primary (expression f) ts) [
  | err e ↦ err e
  | ok (lhs, rest) ↦ operators (suc f) (expression f) lhs rest
]
