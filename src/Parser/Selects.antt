-- ===== src/Parser/Selects.antt =====
-- SELECT statements of parser/Parser.cpp, as concrete syntax.
use sql_engine.Base.{
  ℕ, zero, suc, ◌≤◌, ◌<◌, ◌≡◌, refl, ap, List, [], ◌∷◌, ◌++◌, map, append_assoc, Option, none, some,
  false, Text, codes, length, length-append, arith, ok, err, expected, expected_table,
}
use sql_engine.Ast.{Expr, column_ref, select}
use sql_engine.Parser.Token.{
  Token, TokenType, is_type, ident_token, comma, semicolon, star, select_key, from_key, where_key,
}
use sql_engine.Parser.Monad.{Parse, peek, match, expect, text_of, comma_list, ◌>>=◌}
use sql_engine.Parser.Expression.{operator_of}
use sql_engine.Parser.Statement.{
  select_item, where_part, parse_select, statement_for, statement, parse_statement,
}
use sql_engine.Parser.Grammar.{
  Primary, name, number, quoted, bracket, Formula, operand, infix_op, token, tokens_of_primary,
  tokens_of, tree_of, formula_reads,
}

-- The next token is no operator.
abbrev Ends : List Token → Type 0
Ends rest = operator_of (peek rest).type ≡ none

match_miss :
    (t : TokenType) (rest : List Token)
    → is_type (peek rest).type t ≡ false
    → match t rest ≡ ok (false, rest)
unfolding match peek
match_miss t [] h = rw h refl
match_miss t (u ∷ rest) h = rw h refl

-- What is written for a list: its items with commas between them.
unfoldable pub listed : {X : Type 0} → (X → List Token) → X → List X → List Token
listed show x [] = show x
listed show x (y ∷ ys) = show x ++ token comma (codes ",") ∷ listed show y ys

-- A parser of the items reads the list.
module _ {X A : Type 0} (show : X → List Token) (value : X → A) (m : Parse A) (bound : ℕ)
    (reads : (x : X) (rest : List Token)
      → length (show x) < bound
      → Ends rest
      → m (show x ++ rest) ≡ ok (value x, rest)) where
  comma_list-reads :
      (k : ℕ) (x : X) (xs : List X) (rest : List Token)
      → length xs < k
      → length (listed show x xs) < bound
      → Ends rest
      → is_type (peek rest).type comma ≡ false
      → comma_list k m (listed show x xs ++ rest) ≡ ok (value x ∷ map value xs, rest)
  unfolding comma_list listed operator_of
  comma_list-reads zero x xs rest n l s c = absurd (omega arith)
  comma_list-reads (suc k) x [] rest n l s c =
      rw (reads x rest l s, comma_list, ◌>>=◌) (rw (match_miss comma rest c, ◌>>=◌) refl)
  comma_list-reads (suc k) x (y ∷ ys) rest n l s c =
      let more = token comma (codes ",") ∷ listed show y ys in
      let len = length-append (show x) more in
      let behind = more ++ rest in
      let there = comma_list-reads k y ys rest (omega arith) (omega (arith, len)) s c in
      rw (append_assoc (show x) more rest)
        (rw (reads x behind (omega (arith, len)) refl, comma_list, ◌>>=◌) (rw (there, ◌>>=◌) refl))

-- An item of a select list: `*`, or a formula.
pub data Item : Type 0 where
  every : Item
  written : Formula → Item

unfoldable pub tokens_of_item : Item → List Token
unfolding tokens_of
tokens_of_item every = token star (codes "*") ∷ []
tokens_of_item (written g) = tokens_of g

unfoldable pub tree_of_item : Item → Expr
unfolding tree_of
tree_of_item every = column_ref (codes "*")
tree_of_item (written g) = tree_of g

-- No formula begins with a `*`.
no_star_primary :
    (p : Primary) (rest : List Token)
    → match star (tokens_of_primary p ++ rest) ≡ ok (false, tokens_of_primary p ++ rest)
unfolding match tokens_of_primary
no_star_primary (name w) rest = refl
no_star_primary (number w z e) rest = refl
no_star_primary (quoted w) rest = refl
no_star_primary (bracket g) rest = refl

no_star :
    (g : Formula) (rest : List Token)
    → match star (tokens_of g ++ rest) ≡ ok (false, tokens_of g ++ rest)
unfolding tokens_of
no_star (operand p) rest = no_star_primary p rest
no_star (infix_op p t w op e g) rest =
    rw (append_assoc (tokens_of_primary p) (token t w ∷ tokens_of g) rest)
      (no_star_primary p (token t w ∷ (tokens_of g ++ rest)))

select_item-reads :
    (f : ℕ) (x : Item) (rest : List Token)
    → length (tokens_of_item x) < f
    → Ends rest
    → select_item f (tokens_of_item x ++ rest) ≡ ok (tree_of_item x, rest)
unfolding select_item tokens_of_item tree_of_item
select_item-reads f every rest l s = refl
select_item-reads f (written g) rest l s = rw (no_star g rest, ◌>>=◌) (formula_reads g f rest l s)

-- The name of a table.
unfoldable pub tokens_of_name : Text → List Token
tokens_of_name w = token ident_token w ∷ []

name-reads :
    (f : ℕ) (w : Text) (rest : List Token)
    → length (tokens_of_name w) < f
    → Ends rest
    → text_of ident_token expected_table (tokens_of_name w ++ rest) ≡ ok (w, rest)
unfolding text_of tokens_of_name
name-reads f w rest l s = refl

-- A condition, or none.
unfoldable pub tokens_of_where : Option Formula → List Token
unfolding tokens_of
tokens_of_where none = []
tokens_of_where (some g) = token where_key (codes "WHERE") ∷ tokens_of g

unfoldable pub tree_of_where : Option Formula → Option Expr
unfolding tree_of
tree_of_where none = none
tree_of_where (some g) = some (tree_of g)

where_part-reads :
    (f : ℕ) (c : Option Formula) (w : Text) (rest : List Token)
    → length (tokens_of_where c) ≤ f
    → where_part f (tokens_of_where c ++ token semicolon w ∷ rest)
      ≡ ok (tree_of_where c, token semicolon w ∷ rest)
unfolding where_part tokens_of_where tree_of_where match
where_part-reads f none w rest l = refl
where_part-reads f (some g) w rest l =
    rw (formula_reads g f (token semicolon w ∷ rest) (omega arith) refl, ◌>>=◌) refl

length-listed :
    {X : Type 0} (show : X → List Token) (x : X) (xs : List X)
    → length xs ≤ length (listed show x xs)
unfolding listed
length-listed show x [] = omega arith
length-listed show x (y ∷ ys) = omega (
  arith,
  length-append (show x) (token comma (codes ",") ∷ listed show y ys),
  length-listed show y ys,
)

-- What stands behind the name of the last table, and what stands behind SELECT.
abbrev pub tail_tokens : Option Formula → List Token → List Token
tail_tokens c rest = tokens_of_where c ++ token semicolon (codes ";") ∷ rest

abbrev pub body_tokens :
    Item → List Item → Text → List Text → Option Formula → List Token → List Token
body_tokens x xs n ns c rest =
    listed tokens_of_item x xs
    ++ token from_key (codes "FROM") ∷ (listed tokens_of_name n ns ++ tail_tokens c rest)

tail-Ends :
    (c : Option Formula) (rest : List Token)
    → Ends (tail_tokens c rest) × (is_type (peek (tail_tokens c rest)).type comma ≡ false)
unfolding peek tokens_of_where operator_of
tail-Ends none rest = (refl, refl)
tail-Ends (some g) rest = (refl, refl)

-- The tokens of the parts are fewer than all.
body_lengths :
    (x : Item) (xs : List Item) (n : Text) (ns : List Text) (c : Option Formula) (rest : List Token)
    → (length (listed tokens_of_item x xs) < length (body_tokens x xs n ns c rest))
      × (length (listed tokens_of_name n ns) < length (body_tokens x xs n ns c rest))
      × (length (tokens_of_where c) < length (body_tokens x xs n ns c rest))
body_lengths x xs n ns c rest =
    let behind = listed tokens_of_name n ns ++ tail_tokens c rest in
    let l1 = length-append (listed tokens_of_item x xs) (token from_key (codes "FROM") ∷ behind) in
    let l2 = length-append (listed tokens_of_name n ns) (tail_tokens c rest) in
    let l3 = length-append (tokens_of_where c) (token semicolon (codes ";") ∷ rest) in
    (omega (arith, l1, l2, l3), omega (arith, l1, l2, l3), omega (arith, l1, l2, l3))

parse_select-reads :
    (f : ℕ) (x : Item) (xs : List Item) (n : Text) (ns : List Text) (c : Option Formula)
    (rest : List Token)
    → length (body_tokens x xs n ns c rest) ≤ f
    → parse_select f (token select_key (codes "SELECT") ∷ body_tokens x xs n ns c rest)
      ≡ ok (
        select (record {
          select_list = tree_of_item x ∷ map tree_of_item xs;
          tables = n ∷ map (λ w. w) ns;
          where_clause = tree_of_where c;
        }),
        token semicolon (codes ";") ∷ rest,
      )
unfolding parse_select expect operator_of
parse_select-reads f x xs n ns c rest h =
    let (l1, l2, l3) = body_lengths x xs n ns c rest in
    let k1 = length-listed tokens_of_item x xs in
    let k2 = length-listed tokens_of_name n ns in
    let (e, no_comma) = tail-Ends c rest in
    let items =
      comma_list-reads tokens_of_item tree_of_item (select_item f) f (select_item-reads f) f x xs
        (token from_key (codes "FROM") ∷ (listed tokens_of_name n ns ++ tail_tokens c rest))
        (omega arith) (omega arith) refl refl in
    let names =
      comma_list-reads tokens_of_name (λ (w : Text). w) (text_of ident_token expected_table) f
        (name-reads f) f n ns (tail_tokens c rest) (omega arith) (omega arith) e no_comma in
    rw (items, ◌>>=◌)
      (rw (names, ◌>>=◌) (rw (where_part-reads f c (codes ";") rest (omega arith), ◌>>=◌) refl))

map-same : (ns : List Text) → map (λ w. w) ns ≡ ns
map-same [] = refl
map-same (n ∷ ns) = ap (◌∷◌ n) (map-same ns)

-- The tokens of a SELECT statement with a semicolon, whatever follows it, are read as its syntax tree,
-- up to what follows: the items of its list are stars and formulas, each read as its tree, its tables
-- are names, and it has a formula as its condition, or none. The fuel of parseStatement is enough.
pub select_reads :
    (x : Item) (xs : List Item) (n : Text) (ns : List Text) (c : Option Formula) (rest : List Token)
    → parse_statement (token select_key (codes "SELECT") ∷ body_tokens x xs n ns c rest)
      ≡ ok (
        select (record {
          select_list = tree_of_item x ∷ map tree_of_item xs;
          tables = n ∷ ns;
          where_clause = tree_of_where c;
        }),
        rest,
      )
unfolding parse_statement statement statement_for match
select_reads x xs n ns c rest =
    let f = suc (suc (length (body_tokens x xs n ns c rest))) in
    rw (parse_select-reads f x xs n ns c rest (omega arith), ◌>>=◌)
      (ap
        (λ (tables : List Text). ok (
          select (record {
            select_list = tree_of_item x ∷ map tree_of_item xs;
            tables = tables;
            where_clause = tree_of_where c;
          }),
          rest,
        ))
        (ap (◌∷◌ n) (map-same ns)))

-- After a select list the parser wants FROM: a statement in which another token stands there is refused,
-- if it is no operator, with which the last item would go on, and no comma. So no list can name the
-- column of a table: the dot is such a token.
select_list_refused :
    (x : Item) (xs : List Item) (u : Token) (rest : List Token)
    → operator_of u.type ≡ none
    → is_type u.type comma ≡ false
    → is_type u.type from_key ≡ false
    → parse_statement (token select_key (codes "SELECT") ∷ (listed tokens_of_item x xs ++ u ∷ rest))
      ≡ err (expected (codes "Expected FROM"))
unfolding parse_statement statement statement_for parse_select expect match peek
select_list_refused x xs u rest s no_comma no_from =
    let list = listed tokens_of_item x xs in
    let f = suc (suc (length (list ++ u ∷ rest))) in
    let l = length-append list (u ∷ rest) in
    let k = length-listed tokens_of_item x xs in
    let items =
      comma_list-reads tokens_of_item tree_of_item (select_item f) f (select_item-reads f) f x xs
        (u ∷ rest) (omega (arith, l)) (omega (arith, l)) s no_comma in
    rw (items, ◌>>=◌) (rw (no_from, ◌>>=◌) refl)
