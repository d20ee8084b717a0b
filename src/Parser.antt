-- ===== src/Parser.antt =====
-- parser/Parser.h and Parser.cpp. `Token` has the tokens, `Lexer` tokenize(), `Monad` the access to
-- the tokens, `Expression` and `Statement` the recursive descent; the proofs are in the modules below.
pub mod Token
pub mod Lexer
pub mod Monad
pub mod Expression
pub mod Statement
pub mod Progress
pub mod Tokens
pub mod Total
pub mod Grammar
mod Selects
mod Examples
use sql_engine.Base.{Text, Result, ok, err}
use sql_engine.Ast.{Ast}
use Lexer.{tokenize}
use Statement.{parse_statement}

-- `parse`. What stands behind the statement is not looked at.
unfoldable pub parse : Text → Result Ast
parse sql = elim (tokenize sql) [
  | err e ↦ err e
  | ok tokens ↦ elim (parse_statement tokens) [ err e ↦ err e | ok (ast, rest) ↦ ok ast ]
]
