-- ===== src/Parser/Examples.antt =====
-- Runs of the parser.
use sql_engine.Base.{
  ◌≡◌, refl, [], ◌∷◌, ok, err, codes, none, some, expected, out_of_fuel, ◌≢◌, suc, ◌++◌, length,
}
use sql_engine.Ast.{select, column_ref, binary_op, op_and, op_or}
use sql_engine.Parser.Lexer.{tokenize}
use sql_engine.Parser.Statement.{parse_statement}
use sql_engine.Parser.{parse}
use sql_engine.Parser.Token.{and_key, or_key, semicolon, select_key}
use sql_engine.Parser.Expression.{expression, operator_of}
use sql_engine.Parser.Monad.{peek}
use sql_engine.Parser.Tokens.{Closes, tokenize-Closes}
use sql_engine.Parser.Total.{parse-ne}
use sql_engine.Parser.Grammar.{
  name, Formula, operand, infix_op, token, tokens_of, tree_of, expression_reads,
}
use sql_engine.Parser.Selects.{
  every, written, body_tokens, tree_of_item, tree_of_where, select_reads,
}

star_query :
    parse (codes "SELECT * FROM users;")
    ≡ ok (
        select (record {
          select_list = column_ref (codes "*") ∷ [];
          tables = codes "users" ∷ [];
          where_clause = none;
        }))
unfolding parse tokenize parse_statement
star_query = refl

-- The join of main.cpp: a qualified column is no expression.
join_query : parse (codes "SELECT a.b FROM a") ≡ err (expected (codes "Expected FROM"))
unfolding parse tokenize parse_statement
join_query = refl

parse-ne_example : parse (codes "SELECT a FROM t WHERE (a = 1") ≢ err out_of_fuel
parse-ne_example = parse-ne (codes "SELECT a FROM t WHERE (a = 1")

open_quote : Closes (tokenize (codes "SELECT 'a"))
open_quote = tokenize-Closes (codes "SELECT 'a")

-- a AND b OR c: the OR is done first.
abbrev both_or : Formula
unfolding operator_of
both_or =
    infix_op (name (codes "a")) and_key (codes "AND") op_and refl
      (infix_op (name (codes "b")) or_key (codes "OR") op_or refl (operand (name (codes "c"))))

groups_right :
    tree_of both_or
    ≡ binary_op op_and
        (column_ref (codes "a"))
        (binary_op op_or (column_ref (codes "b")) (column_ref (codes "c")))
unfolding tree_of both_or
groups_right = refl

expression_reads_example :
    expression
      (suc (length (tokens_of both_or)))
      (tokens_of both_or ++ token semicolon (codes ";") ∷ [])
    ≡ ok (tree_of both_or, token semicolon (codes ";") ∷ [])
unfolding operator_of peek both_or
expression_reads_example = expression_reads both_or (token semicolon (codes ";") ∷ []) refl

select_reads_example :
    parse_statement (
      token select_key (codes "SELECT")
      ∷ body_tokens every (written both_or ∷ []) (codes "t") (codes "u" ∷ []) (some both_or) [])
    ≡ ok (
      select (record {
        select_list = tree_of_item every ∷ tree_of_item (written both_or) ∷ [];
        tables = codes "t" ∷ codes "u" ∷ [];
        where_clause = tree_of_where (some both_or);
      }),
      [],
    )
select_reads_example =
    select_reads every (written both_or ∷ []) (codes "t") (codes "u" ∷ []) (some both_or) []
