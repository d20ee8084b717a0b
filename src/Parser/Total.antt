-- ===== src/Parser/Total.antt =====
-- parse() of parser/Parser.cpp always comes to an end: the fuel that the model gives its loops is
-- enough for every text.
use sql_engine.Base.{
  ℕ, suc, ◌≤◌, ◌<◌, true, false, refl, ap, ◌≢◌, inl, inr, List, Text, codes, length, arith, Result,
  ok, err, Error, out_of_fuel, unknown_statement, expected_table, expected_column, expected_type,
  expected_length, Bool-cases,
}
use native.Mathlib.Nat.{le_refl}
use sql_engine.Base.Equality.{list_beq}
use sql_engine.Ast.{Ast}
use sql_engine.Parser.Token.{
  Token, TokenType, ident_token, int_token, semicolon, lparen, rparen, eq_token, select_key,
  from_key, insert_key, into_key, values_key, update_key, set_key, delete_key, create_key,
  table_key, begin_key, commit_key,
}
use sql_engine.Parser.Lexer.{tokenize}
use sql_engine.Parser.Tokens.{tokenize-ne}
use sql_engine.Parser.Monad.{Parse, pure, throw, ◌>>=◌, peek, match, expect, text_of, comma_list}
use sql_engine.Parser.Expression.{expression, stoi}
use sql_engine.Parser.Statement.{
  select_item, where_part, parse_select, column_list, parse_insert, assignment, parse_update,
  parse_delete, length_value, length_part, column_definition, parse_create, parse_begin,
  parse_commit, statement_for, statement, parse_statement,
}
use sql_engine.Parser.Progress.{
  Takes, Advances, then-Takes, bind-Takes, Takes-mono, match-Takes, expect-Takes, text_of-Takes,
  comma_list-Advances, expression-Advances, select_item-Advances, at_end, optional_part,
  where_part-Takes,
}
use sql_engine.Parser.{parse}

-- `Takes` at every list of at most `n` tokens, as a property of the action.
record Within {A : Type 0} (k n : ℕ) (m : Parse A) : Type 0 where
  at : (ts : List Token) → length ts ≤ n → Takes k n (m ts)

module _ {A B : Type 0} where
  -- One more part; what it takes is forgotten.
  part :
      {k n : ℕ} (m : Parse A) (g : A → Parse B)
      → Within k n m
      → ((a : A) → Within 0 n (g a))
      → Within 0 n (m >>= g)
  part {k} {n} m g w step = record {
    at = λ ts h. then-Takes k n 0 n m g ts (w.at ts h) λ a rest h'. (step a).at rest (omega arith);
  }

module _ {A : Type 0} where
  last : (n : ℕ) (a : A) → Within 0 n (pure a)
  last n a = record { at = λ ts h. omega arith }

  raise : (n : ℕ) (e : Error) → e ≢ out_of_fuel → Within 0 n (throw {A = A} e)
  raise n e d = record { at = λ ts h. d }

  listed : (f n : ℕ) (m : Parse A) → n < f → Advances f m → Within 1 n (comma_list f m)
  listed f n m l adv = record {
    at = λ ts h.
        at_end f 0 n (comma_list f m) ts (comma_list-Advances f m adv) (omega arith) (omega arith);
  }

  -- `if (match(t)) …`
  option :
      {n : ℕ} (t : TokenType) (y z : Parse A)
      → Within 0 n y
      → Within 0 n z
      → Within 0 n (do found ← match t; elim found [ true ↦ y | false ↦ z ])
  option {n} t y z wy wz = record { at = λ ts h. optional_part 0 n y z ts wy.at wz.at h t }

word : (n : ℕ) (e : Error) → e ≢ out_of_fuel → Within 1 n (text_of ident_token e)
word n e d = record { at = λ ts h. text_of-Takes ident_token e ts 0 n d refl (omega arith) }

digits_word : (n : ℕ) → Within 1 n (text_of int_token expected_length)
digits_word n = record {
  at = λ ts h. text_of-Takes int_token expected_length ts 0 n (λ e. cc) refl (omega arith);
}

key : (n : ℕ) (t : TokenType) (message : Text) → Within 0 n (expect t message)
key n t message = record { at = λ ts h. expect-Takes t message ts 0 n (omega arith) }

maybe : (n : ℕ) (t : TokenType) → Within 0 n (match t)
maybe n t = record { at = λ ts h. match-Takes t ts 0 n (omega arith) }

formula : (f n : ℕ) → n < f → Within 1 n (expression f)
formula f n l = record {
  at = λ ts h. at_end f 0 n (expression f) ts (expression-Advances f) (omega arith) (omega arith);
}

condition : (f n : ℕ) → n < f → Within 0 n (where_part f)
condition f n l = record { at = λ ts h. where_part-Takes f n ts l h }

-- What takes a token at every bound takes one whenever it is called.
Within-Advances :
    {A : Type 0} (f : ℕ) (m : Parse A) → ((n : ℕ) → n < f → Within 1 n m) → Advances f m
Within-Advances f m w ts l = (w (length ts) l).at ts (le_refl (length ts))

words :
    (f n : ℕ) (e : Error)
    → n < f
    → e ≢ out_of_fuel
    → Within 1 n (comma_list f (text_of ident_token e))
words f n e l d =
    listed f n (text_of ident_token e) l
      (Within-Advances f (text_of ident_token e) λ k l'. word k e d)

parse_select-Within : (f n : ℕ) → n < f → Within 0 n (parse_select f)
unfolding parse_select
parse_select-Within f n l = part _ _ (key n select_key _) λ _.
    part _ _ (listed f n (select_item f) l (select_item-Advances f)) λ _.
      part _ _ (key n from_key _) λ _.
        part _ _ (words f n expected_table l (λ e. cc))
          λ _. part _ _ (condition f n l) λ _. last n _

column_list-Within : (f n : ℕ) → n < f → Within 0 n (column_list f)
unfolding column_list
column_list-Within f n l =
    option lparen _ _
      (part _ _ (words f n expected_column l (λ e. cc))
        λ _. part _ _ (key n rparen _) λ _. last n _)
      (last n _)

parse_insert-Within : (f n : ℕ) → n < f → Within 0 n (parse_insert f)
unfolding parse_insert
parse_insert-Within f n l = part _ _ (key n insert_key _) λ _. part _ _ (key n into_key _) λ _.
    part _ _ (word n expected_table (λ e. cc)) λ _. part _ _ (column_list-Within f n l) λ _.
      part _ _ (key n values_key _) λ _. part _ _ (key n lparen _) λ _.
        part _ _ (listed f n (expression f) l (expression-Advances f))
          λ _. part _ _ (key n rparen _) λ _. last n _

-- The name takes a token, and the rest of an item only has to end.
named-Advances :
    {A : Type 0} (f : ℕ) (e : Error) (g : Text → Parse A)
    → e ≢ out_of_fuel
    → ((n : ℕ) → n < f → (name : Text) → Within 0 n (g name))
    → Advances f (text_of ident_token e >>= g)
named-Advances f e g d w ts l =
    bind-Takes 1 1 (length ts) (text_of ident_token e) g ts
      (text_of-Takes ident_token e ts 0 (length ts) d refl (omega arith))
      λ name rest h.
        Takes-mono 0 1 (length rest) (length ts) (g name rest)
          ((w (length rest) (omega arith) name).at rest (le_refl (length rest))) (omega arith)

assignment-Advances : (f : ℕ) → Advances f (assignment f)
unfolding assignment
assignment-Advances f =
    named-Advances f expected_column _ (λ e. cc)
      λ n l name. part _ _ (key n eq_token _) λ _. part _ _ (formula f n l) λ _. last n _

parse_update-Within : (f n : ℕ) → n < f → Within 0 n (parse_update f)
unfolding parse_update
parse_update-Within f n l = part _ _ (key n update_key _) λ _.
    part _ _ (word n expected_table (λ e. cc)) λ _. part _ _ (key n set_key _) λ _.
      part _ _ (listed f n (assignment f) l (assignment-Advances f))
        λ _. part _ _ (condition f n l) λ _. last n _

parse_delete-Within : (f n : ℕ) → n < f → Within 0 n (parse_delete f)
unfolding parse_delete
parse_delete-Within f n l = part _ _ (key n delete_key _) λ _.
    part _ _ (key n from_key _)
      λ _. part _ _ (word n expected_table (λ e. cc)) λ _. part _ _ (condition f n l) λ _. last n _

length_value-ne : (w : Text) → length_value w ≢ err out_of_fuel
unfolding stoi
length_value-ne w h = ground arith

-- Reading the length takes no token.
read-Within :
    (n : ℕ) (r : Result ℕ)
    → r ≢ err out_of_fuel
    → Within 0 n
        (λ ts. elim r as (λ x. Result (ℕ × List Token)) [ err e ↦ err e | ok m ↦ ok (m, ts) ])
read-Within n (ok m) d = record { at = λ ts h. omega arith }
read-Within n (err e) d = record { at = λ ts h p. d (ap err p) }

length_part-Within : (type : Text) (n : ℕ) → Within 0 n (length_part type)
unfolding length_part
length_part-Within type n = elim (Bool-cases (list_beq type (codes "STRING"))) [
  | inl e ↦ rw e (
      option lparen _ _
        (part _ _ (digits_word n) λ digits.
          part _ _ (read-Within n (length_value digits) (length_value-ne digits))
            λ _. part _ _ (key n rparen _) λ _. last n _)
        (last n _))
  | inr e ↦ rw e (last n _)
]

column_definition-Advances : (f : ℕ) → Advances f column_definition
unfolding column_definition
column_definition-Advances f =
    named-Advances f expected_column _ (λ e. cc)
      λ n l name.
        part _ _ (word n expected_type (λ e. cc))
          λ type. part _ _ (length_part-Within type n) λ _. last n _

parse_create-Within : (f n : ℕ) → n < f → Within 0 n (parse_create f)
unfolding parse_create
parse_create-Within f n l = part _ _ (key n create_key _) λ _. part _ _ (key n table_key _) λ _.
    part _ _ (word n expected_table (λ e. cc)) λ _. part _ _ (key n lparen _) λ _.
      part _ _ (listed f n column_definition l (column_definition-Advances f))
        λ _. part _ _ (key n rparen _) λ _. last n _

statement_for-Within : (t : TokenType) (f n : ℕ) → n < f → Within 0 n (statement_for f t)
unfolding statement_for parse_begin parse_commit
statement_for-Within select_key f n l = parse_select-Within f n l
statement_for-Within insert_key f n l = parse_insert-Within f n l
statement_for-Within update_key f n l = parse_update-Within f n l
statement_for-Within delete_key f n l = parse_delete-Within f n l
statement_for-Within create_key f n l = parse_create-Within f n l
statement_for-Within begin_key f n l = part _ _ (key n begin_key _) λ _. last n _
statement_for-Within commit_key f n l = part _ _ (key n commit_key _) λ _. last n _
statement_for-Within _ f n l = raise n unknown_statement (λ e. cc)

Takes-ne : {A : Type 0} (k n : ℕ) (r : Result (A × List Token)) → Takes k n r → r ≢ err out_of_fuel
Takes-ne k n (ok p) h e = cc
Takes-ne k n (err e) h p = h (ground arith)

pub parse_statement-ne : (ts : List Token) → parse_statement ts ≢ err out_of_fuel
unfolding parse_statement statement
parse_statement-ne ts =
    let n = length ts in
    Takes-ne 0 n (parse_statement ts) (
      (part _ _ (statement_for-Within (peek ts).type (suc n) n (omega arith))
          λ ast. part _ _ (maybe n semicolon) λ _. last n ast).at
        ts (le_refl n))

-- Every text is parsed to a statement or refused with an error of the program: no loop of the
-- tokenizer or of the parser is cut short by the fuel of the model.
pub parse-ne : (sql : Text) → parse sql ≢ err out_of_fuel
unfolding parse
parse-ne sql = go (tokenize sql) (tokenize-ne sql)
  where
    statement_result :
        (r : Result (Ast × List Token))
        → r ≢ err out_of_fuel
        → (elim r as (λ r. Result Ast) [ err e ↦ err e | ok (ast, rest) ↦ ok ast ])
          ≢ err out_of_fuel
    statement_result (ok p) d e = cc
    statement_result (err e) d p = d (ground arith)

    go :
        (r : Result (List Token))
        → r ≢ err out_of_fuel
        → (elim r as (λ r. Result Ast) [
          | err e ↦ err e
          | ok tokens ↦ elim (parse_statement tokens) [ err e ↦ err e | ok (ast, rest) ↦ ok ast ]
        ])
          ≢ err out_of_fuel
    go (ok ts) d = statement_result (parse_statement ts) (parse_statement-ne ts)
    go (err e) d = λ p. d (ground arith)
