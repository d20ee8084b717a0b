-- ===== src/Parser/Grammar.antt =====
-- The grammar that the expression parser of parser/Parser.cpp accepts, as concrete syntax.
use sql_engine.Base.{
  ℕ, zero, suc, ◌≤◌, ◌<◌, ◌≡◌, refl, ◌∙◌, List, [], ◌∷◌, ◌++◌, append_assoc, none, some, Text, ℤ,
  codes, length, length-append, arith, ok,
}
use sql_engine.Ast.{Expr, column_ref, int_literal, str_literal, binary_op, Op}
use sql_engine.Parser.Token.{Token, TokenType, ident_token, int_token, str_token, lparen, rparen}
use sql_engine.Parser.Monad.{Parse, peek, pure, ◌>>=◌, ◌>>◌, expect}
use sql_engine.Parser.Expression.{expression, primary, operators, operator_of, stoi}

-- An operand, and a chain of operands with operators between them.
mutual
  pub data Primary : Type 0 where
    name : Text → Primary
    number : (w : Text) (z : ℤ) → stoi w ≡ ok z → Primary
    quoted : Text → Primary
    bracket : Formula → Primary

  pub data Formula : Type 0 where
    operand : Primary → Formula
    infix_op :
        Primary → (t : TokenType) (w : Text) (op : Op) → operator_of t ≡ some op → Formula → Formula

abbrev pub token : TokenType → Text → Token
token t w = record { type = t; text = w }

-- What is written.
unfoldable mutual
  pub tokens_of_primary : Primary → List Token
  tokens_of_primary (name w) = token ident_token w ∷ []
  tokens_of_primary (number w z e) = token int_token w ∷ []
  tokens_of_primary (quoted w) = token str_token w ∷ []
  tokens_of_primary (bracket g) =
      token lparen (codes "(") ∷ (tokens_of g ++ token rparen (codes ")") ∷ [])

  pub tokens_of : Formula → List Token
  tokens_of (operand p) = tokens_of_primary p
  tokens_of (infix_op p t w op e g) = tokens_of_primary p ++ token t w ∷ tokens_of g

-- What it stands for: whatever the operators are, a chain groups to the right.
unfoldable mutual
  pub tree_of_primary : Primary → Expr
  tree_of_primary (name w) = column_ref w
  tree_of_primary (number w z e) = int_literal z
  tree_of_primary (quoted w) = str_literal w
  tree_of_primary (bracket g) = tree_of g

  pub tree_of : Formula → Expr
  tree_of (operand p) = tree_of_primary p
  tree_of (infix_op p t w op e g) = binary_op op (tree_of_primary p) (tree_of g)

operators_stop :
    (f : ℕ) (m : Parse Expr) (lhs : Expr) (rest : List Token)
    → operator_of (peek rest).type ≡ none
    → operators (suc f) m lhs rest ≡ ok (lhs, rest)
unfolding operators peek
operators_stop f m lhs [] h = refl
operators_stop f m lhs (t ∷ rest) h = rw (h, operators) refl

expect_rparen :
    (e : Expr) (w : Text) (rest : List Token)
    → ((expect rparen (codes "Expected )") >> pure e) (token rparen w ∷ rest)) ≡ ok (e, rest)
unfolding expect
expect_rparen e w rest = refl

-- Reading on after an operator.
operators_continue :
    (f : ℕ) (m : Parse Expr) (lhs rhs : Expr) (t : TokenType) (w : Text) (op : Op)
    (ts rest : List Token)
    → operator_of t ≡ some op
    → m ts ≡ ok (rhs, rest)
    → operator_of (peek rest).type ≡ none
    → operators (suc (suc f)) m lhs (token t w ∷ ts) ≡ ok (binary_op op lhs rhs, rest)
unfolding operators
operators_continue f m lhs rhs t w op ts rest e h s =
    rw (e, operators) (rw (h) (operators_stop f m (binary_op op lhs rhs) rest s))

expression_step :
    (f : ℕ) (ts : List Token) (lhs : Expr) (rest : List Token)
    → primary (expression f) ts ≡ ok (lhs, rest)
    → expression (suc f) ts ≡ operators (suc f) (expression f) lhs rest
unfolding expression
expression_step f ts lhs rest h = rw (h, expression) refl

mutual
  unfolding tokens_of tokens_of_primary tree_of tree_of_primary primary operator_of peek

  primary_reads :
      (p : Primary) (f : ℕ) (rest : List Token)
      → length (tokens_of_primary p) ≤ f
      → primary (expression f) (tokens_of_primary p ++ rest) ≡ ok (tree_of_primary p, rest)
  primary_reads (name w) f rest h = refl
  primary_reads (number w z e) f rest h = rw (e, primary) refl
  primary_reads (quoted w) f rest h = refl
  primary_reads (bracket g) f rest h =
      let close = token rparen (codes ")") in
      let l : length (tokens_of g) < f = omega (arith, length-append (tokens_of g) (close ∷ [])) in
      rw (append_assoc (tokens_of g) (close ∷ []) rest) (
        rw (formula_reads g f (close ∷ rest) l refl, ◌>>=◌)
          (expect_rparen (tree_of g) (codes ")") rest))

  pub formula_reads :
      (g : Formula) (f : ℕ) (rest : List Token)
      → length (tokens_of g) < f
      → operator_of (peek rest).type ≡ none
      → expression f (tokens_of g ++ rest) ≡ ok (tree_of g, rest)
  formula_reads g zero rest h s = absurd (omega arith)
  formula_reads (operand p) (suc f) rest h s =
      expression_step f (tokens_of_primary p ++ rest) (tree_of_primary p) rest
        (primary_reads p f rest (omega arith))
      ∙ operators_stop f (expression f) (tree_of_primary p) rest s
  formula_reads (infix_op p t w op e g) (suc zero) rest h s =
      absurd (omega (arith, length-append (tokens_of_primary p) (token t w ∷ tokens_of g)))
  formula_reads (infix_op p t w op e g) (suc (suc f)) rest h s =
      let l = length-append (tokens_of_primary p) (token t w ∷ tokens_of g) in
      let behind = token t w ∷ (tokens_of g ++ rest) in
      rw (append_assoc (tokens_of_primary p) (token t w ∷ tokens_of g) rest) (
        expression_step (suc f) (tokens_of_primary p ++ behind) (tree_of_primary p) behind
          (primary_reads p (suc f) behind (omega (arith, l)))
        ∙ operators_continue f (expression (suc f)) (tree_of_primary p) (tree_of g) t w op
            (tokens_of g ++ rest) rest e (formula_reads g (suc f) rest (omega (arith, l)) s) s)

-- Whatever formula is written, and whatever follows it that is no operator, the parser takes exactly
-- the tokens of the formula and returns its tree. The tree groups to the right at every operator, so
-- AND and OR do not bind more loosely than comparisons.
pub expression_reads :
    (g : Formula) (rest : List Token)
    → operator_of (peek rest).type ≡ none
    → expression (suc (length (tokens_of g))) (tokens_of g ++ rest) ≡ ok (tree_of g, rest)
expression_reads g rest s = formula_reads g (suc (length (tokens_of g))) rest (omega arith) s
