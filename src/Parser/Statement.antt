-- ===== src/Parser/Statement.antt =====
-- Statements of parser/Parser.cpp. `pos_--` after the `match` of parseStatement takes the keyword
-- back, so each statement's parser sees it again.
use sql_engine.Base.{
  ℕ, suc, true, false, List, [], if◌then◌else◌, Option, none, some, pos, negsuc, Text, codes,
  length, Result, ok, err, unknown_statement, expected_table, expected_column, expected_type,
  expected_length,
}
use sql_engine.Base.Equality.{list_beq}
use sql_engine.Ast.{
  Ast, Expr, column_ref, select, insert, update, delete, create_table, begin, commit,
}
use sql_engine.Parser.Token.{
  TokenType, ident_token, int_token, semicolon, lparen, rparen, eq_token, star, select_key,
  from_key, where_key, insert_key, into_key, values_key, update_key, set_key, delete_key,
  create_key, table_key, begin_key, commit_key,
}
use sql_engine.Parser.Monad.{
  Parse, pure, throw, ◌>>=◌, ◌>>◌, peek, match, expect, text_of, comma_list,
}
use sql_engine.Parser.Expression.{expression, stoi}

-- An item of the select list: `*`, or an expression.
unfoldable pub select_item : ℕ → Parse Expr
unfolding match expression
select_item f = do
  starred ← match star
  elim starred [ true ↦ pure (column_ref (codes "*")) | false ↦ expression f ]

-- `if (match(WHERE)) whereClause = parseExpression();`
unfoldable pub where_part : ℕ → Parse (Option Expr)
unfolding match expression
where_part f = do
  found ← match where_key
  elim found [ true ↦ (do e ← expression f; pure (some e)) | false ↦ pure none ]

unfoldable pub parse_select : ℕ → Parse Ast
unfolding select_item where_part expect text_of comma_list
parse_select f = do
  expect select_key (codes "Expected SELECT")
  items ← comma_list f (select_item f)
  expect from_key (codes "Expected FROM")
  tables ← comma_list f (text_of ident_token expected_table)
  condition ← where_part f
  pure (select (record { select_list = items; tables = tables; where_clause = condition }))

-- The column list of INSERT, which may be left out.
unfoldable pub column_list : ℕ → Parse (List Text)
unfolding match expect text_of comma_list
column_list f = do
  found ← match lparen
  elim found [
    | true ↦ (do
      columns ← comma_list f (text_of ident_token expected_column)
      expect rparen (codes "Expected ) after column list")
      pure columns)
    | false ↦ pure []
  ]

unfoldable pub parse_insert : ℕ → Parse Ast
unfolding column_list expect text_of comma_list expression
parse_insert f = do
  expect insert_key (codes "Expected INSERT")
  expect into_key (codes "Expected INTO")
  table ← text_of ident_token expected_table
  columns ← column_list f
  expect values_key (codes "Expected VALUES")
  expect lparen (codes "Expected ( before VALUES list")
  values ← comma_list f (expression f)
  expect rparen (codes "Expected ) after VALUES list")
  pure (insert (record { table = table; columns = columns; values = values }))

unfoldable pub assignment : ℕ → Parse (Text × Expr)
unfolding expect text_of expression
assignment f = do
  column ← text_of ident_token expected_column
  expect eq_token (codes "Expected = in SET")
  value ← expression f
  pure (column, value)

unfoldable pub parse_update : ℕ → Parse Ast
unfolding assignment where_part expect text_of comma_list
parse_update f = do
  expect update_key (codes "Expected UPDATE")
  table ← text_of ident_token expected_table
  expect set_key (codes "Expected SET")
  assignments ← comma_list f (assignment f)
  condition ← where_part f
  pure (update (record { table = table; assignments = assignments; where_clause = condition }))

unfoldable pub parse_delete : ℕ → Parse Ast
unfolding where_part expect text_of
parse_delete f = do
  expect delete_key (codes "Expected DELETE")
  expect from_key (codes "Expected FROM")
  table ← text_of ident_token expected_table
  condition ← where_part f
  pure (delete (record { table = table; where_clause = condition }))

-- std::stoi as a length: a token of digits is never negative.
abbrev pub length_value : Text → Result ℕ
length_value w = elim (stoi w) [ err e ↦ err e | ok z ↦ ok (elim z [ pos n ↦ n | negsuc n ↦ 0 ]) ]

-- `typeName == "STRING" && match(LPAREN)`: the length in brackets, else 0.
unfoldable pub length_part : Text → Parse ℕ
unfolding match expect text_of stoi
length_part type =
    if list_beq type (codes "STRING")
    then (do
      found ← match lparen
      elim found [
        | true ↦ (do
          digits ← text_of int_token expected_length
          n ← λ ts. elim (length_value digits) [ err e ↦ err e | ok n ↦ ok (n, ts) ]
          expect rparen (codes "Expected ) after STRING length")
          pure n)
        | false ↦ pure 0
      ])
    else pure 0

unfoldable pub column_definition : Parse (Text × Text × ℕ)
unfolding length_part text_of
column_definition = do
  name ← text_of ident_token expected_column
  type ← text_of ident_token expected_type
  n ← length_part type
  pure (name, type, n)

unfoldable pub parse_create : ℕ → Parse Ast
unfolding column_definition expect text_of comma_list
parse_create f = do
  expect create_key (codes "Expected CREATE")
  expect table_key (codes "Expected TABLE")
  table ← text_of ident_token expected_table
  expect lparen (codes "Expected ( after table name")
  columns ← comma_list f column_definition
  expect rparen (codes "Expected ) after CREATE TABLE columns")
  pure (create_table (record { table = table; columns = columns }))

unfoldable pub parse_begin : Parse Ast
unfolding expect
parse_begin = do expect begin_key (codes "Expected BEGIN"); pure begin

unfoldable pub parse_commit : Parse Ast
unfolding expect
parse_commit = do expect commit_key (codes "Expected COMMIT"); pure commit

-- The parser for the keyword at the front.
unfoldable pub statement_for : ℕ → TokenType → Parse Ast
unfolding parse_select parse_insert parse_update parse_delete parse_create parse_begin parse_commit
statement_for f select_key = parse_select f
statement_for f insert_key = parse_insert f
statement_for f update_key = parse_update f
statement_for f delete_key = parse_delete f
statement_for f create_key = parse_create f
statement_for f begin_key = parse_begin
statement_for f commit_key = parse_commit
statement_for f _ = throw unknown_statement

-- parseStatement with fuel for its lists and expressions.
unfoldable pub statement : ℕ → Parse Ast
unfolding statement_for peek match
statement f ts = (do ast ← statement_for f (peek ts).type; found ← match semicolon; pure ast) ts

-- There are fewer items and operators than tokens.
unfoldable pub parse_statement : Parse Ast
unfolding statement
parse_statement ts = statement (suc (length ts)) ts
