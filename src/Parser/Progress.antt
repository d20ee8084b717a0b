-- ===== src/Parser/Progress.antt =====
-- Every loop of parser/Parser.cpp ends: each round takes tokens (bytes, in the lexer), so the fuel of
-- the model is never used up.
use sql_engine.Base.{
  ℕ, zero, suc, ◌+◌, ◌≤◌, ◌<◌, Bool, true, false, ◌≡◌, ap, ◌≢◌, inl, inr, List, [], ◌∷◌, none, some,
  ℤ, Text, codes, length, arith, Result, ok, err, Error, out_of_fuel, unexpected_token, Bool-cases,
  Option-cases,
}
use sql_engine.Ast.{Expr, column_ref, int_literal, str_literal, binary_op}
use sql_engine.Parser.Token.{
  Token, TokenType, is_type, end_token, ident_token, int_token, str_token, comma, lparen, rparen,
  star, where_key,
}
use sql_engine.Parser.Monad.{Parse, pure, ◌>>=◌, ◌>>◌, match, expect, text_of, comma_list}
use sql_engine.Parser.Expression.{expression, primary, operators, operator_of, stoi}
use sql_engine.Parser.Statement.{select_item, where_part}

-- Of at most `n` tokens at least `k` are taken, or an error of the program is raised.
abbrev pub Takes : {A : Type 0} → ℕ → ℕ → Result (A × List Token) → Type 0
Takes k n (ok (a, rest)) = k + length rest ≤ n
Takes k n (err e) = e ≢ out_of_fuel

-- An action that takes a token whenever fewer than `f` are left.
abbrev pub Advances : {A : Type 0} → ℕ → Parse A → Type 0
Advances f m = (ts : List Token) → length ts < f → Takes 1 (length ts) (m ts)

module _ {A B : Type 0} where
  -- The two bounds differ where the action was given a part of the tokens.
  pub then-Takes :
      (k n i n' : ℕ) (m : Parse A) (g : A → Parse B) (ts : List Token)
      → Takes k n (m ts)
      → ((a : A) (rest : List Token) → k + length rest ≤ n → Takes i n' (g a rest))
      → Takes i n' ((m >>= g) ts)
  then-Takes k n i n' m g ts h step = after (m ts) h
    where
      after :
          (r : Result (A × List Token))
          → Takes k n r
          → Takes i n' (elim r [ err e ↦ err e | ok (a, rest) ↦ g a rest ])
      after (ok (a, rest)) h = step a rest h
      after (err e) h = h

  pub bind-Takes :
      (k i n : ℕ) (m : Parse A) (g : A → Parse B) (ts : List Token)
      → Takes k n (m ts)
      → ((a : A) (rest : List Token) → k + length rest ≤ n → Takes i n (g a rest))
      → Takes i n ((m >>= g) ts)
  bind-Takes k i n = then-Takes k n i n

module _ {A : Type 0} where
  pub Takes-mono :
      (k i n m : ℕ) (r : Result (A × List Token)) → Takes k n r → i + n ≤ k + m → Takes i m r
  Takes-mono k i n m (ok (a, rest)) h l = omega arith
  Takes-mono k i n m (err e) h l = h

pub match-Takes :
    (t : TokenType) (ts : List Token) (k n : ℕ) → k + length ts ≤ n → Takes k n (match t ts)
unfolding match
match-Takes t [] k n h = h
match-Takes t (u ∷ ts) k n h = elim (Bool-cases (is_type u.type t)) [
  | inl e ↦ rw e (omega arith)
  | inr e ↦ rw e h
]

pub expect-Takes :
    (t : TokenType) (message : Text) (ts : List Token) (k n : ℕ)
    → k + length ts ≤ n
    → Takes k n (expect t message ts)
unfolding expect match
expect-Takes t message [] k n h = elim (Bool-cases (is_type end_token t)) [
  | inl e ↦ rw e h
  | inr e ↦ rw e (λ p. cc)
]
expect-Takes t message (u ∷ ts) k n h = elim (Bool-cases (is_type u.type t)) [
  | inl e ↦ rw (e, Takes) (omega arith)
  | inr e ↦ rw (e, Takes) (λ p. cc)
]

pub text_of-Takes :
    (t : TokenType) (e : Error) (ts : List Token) (k n : ℕ)
    → e ≢ out_of_fuel
    → is_type end_token t ≡ false
    → k + length ts ≤ n
    → Takes (suc k) n (text_of t e ts)
unfolding text_of
text_of-Takes t e [] k n d x h = rw x d
text_of-Takes t e (u ∷ ts) k n d x h = elim (Bool-cases (is_type u.type t)) [
  | inl p ↦ rw p (omega arith)
  | inr p ↦ rw p d
]

module _ {A : Type 0} where
  pub Advances-mono : (f g : ℕ) (m : Parse A) → g ≤ f → Advances f m → Advances g m
  Advances-mono f g m l adv ts h = adv ts (omega arith)

  pub pure-Takes : (a : A) (ts : List Token) (k n : ℕ) → k + length ts ≤ n → Takes k n (pure a ts)
  pure-Takes a ts k n h = h

  -- `do … while (match(COMMA))` behind an item.
  more_items :
      (f n : ℕ) (item : Parse A) (x : A) (ts : List Token)
      → Advances f (comma_list f item)
      → length ts < f
      → 1 + length ts ≤ n
      → (more : Bool)
      → Takes 1 n (
          (elim more as (λ b. Parse (List A)) [
            | true ↦ (do xs ← comma_list f item; pure (x ∷ xs))
            | false ↦ pure (x ∷ [])
          ])
            ts)
  more_items f n item x ts again l h true =
      bind-Takes 1 1 n (comma_list f item) (λ xs. pure (x ∷ xs)) ts
        (Takes-mono 1 1 (length ts) n (comma_list f item ts) (again ts l) (omega arith))
        (λ xs rest h'. h')
  more_items f n item x ts again l h false = h

  pub comma_list-Advances :
      (f : ℕ) (item : Parse A) → Advances f item → Advances f (comma_list f item)
  unfolding comma_list
  comma_list-Advances zero item adv ts h = absurd (omega arith)
  comma_list-Advances (suc f) item adv ts h =
      let again = comma_list-Advances f item (Advances-mono (suc f) f item (omega arith) adv) in
      bind-Takes 1 1 (length ts) item _ ts (adv ts h) λ x r1 h1.
        bind-Takes 1 1 (length ts) (match comma) _ r1 (match-Takes comma r1 1 (length ts) h1)
          λ more r2 h2. more_items f (length ts) item x r2 again (omega arith) h2 more

stoi-ne : (w : Text) → stoi w ≢ err out_of_fuel
unfolding stoi
stoi-ne w h = ground arith

int_item-Takes :
    (w : Text) (ts : List Token)
    → Takes 1 (suc (length ts)) (elim (stoi w) as (λ r. Result (Expr × List Token)) [
      | err e ↦ err e
      | ok z ↦ ok (int_literal z, ts)
    ])
int_item-Takes w ts = go (stoi w) (stoi-ne w)
  where
    go :
        (r : Result ℤ)
        → r ≢ err out_of_fuel
        → Takes 1 (suc (length ts)) (elim r as (λ r. Result (Expr × List Token)) [
          | err e ↦ err e
          | ok z ↦ ok (int_literal z, ts)
        ])
    go (ok z) d = omega arith
    go (err e) d = λ p. d (ap err p)

primary-Takes :
    (f : ℕ) (m : Parse Expr) (ts : List Token)
    → Advances f m
    → length ts ≤ f
    → Takes 1 (length ts) (primary m ts)
unfolding primary
primary-Takes f m [] adv l = λ p. cc
primary-Takes f m (t ∷ ts) adv l = go t.type
  where
    bracket : Takes 1 (suc (length ts)) ((do e ← m; expect rparen (codes "Expected )"); pure e) ts)
    bracket =
        bind-Takes 1 1 (suc (length ts)) m _ ts
          (Takes-mono 1 1 (length ts) (suc (length ts)) (m ts) (adv ts (omega arith)) (omega arith))
          λ e r1 h1.
            bind-Takes 1 1 (suc (length ts)) (expect rparen (codes "Expected )")) _ r1
              (expect-Takes rparen (codes "Expected )") r1 1 (suc (length ts)) h1) λ u r2 h2. h2

    go :
        (k : TokenType)
        → Takes 1 (suc (length ts)) (elim k as (λ k. Result (Expr × List Token)) [
          | ident_token ↦ ok (column_ref t.text, ts)
          | int_token ↦ elim (stoi t.text) [ err e ↦ err e | ok z ↦ ok (int_literal z, ts) ]
          | str_token ↦ ok (str_literal t.text, ts)
          | lparen ↦ (do e ← m; expect rparen (codes "Expected )"); pure e) ts
          | _ ↦ err unexpected_token
        ])
    go ident_token = omega arith
    go int_token = int_item-Takes t.text ts
    go str_token = omega arith
    go lparen = bracket
    go _ = λ p. cc

operators-Takes :
    (g f n : ℕ) (m : Parse Expr) (lhs : Expr) (ts : List Token)
    → Advances f m
    → length ts < g
    → length ts ≤ f
    → 1 + length ts ≤ n
    → Takes 1 n (operators g m lhs ts)
unfolding operators
operators-Takes zero f n m lhs ts adv l k h = absurd (omega arith)
operators-Takes (suc g) f n m lhs [] adv l k h = h
operators-Takes (suc g) f n m lhs (t ∷ ts) adv l k h = elim (Option-cases (operator_of t.type)) [
  | inl e ↦ rw (e, Takes) h
  | inr (op, e) ↦
      rw (e, Takes)
        (then-Takes 1 (length ts) 1 n m (λ rhs. operators g m (binary_op op lhs rhs)) ts
          (adv ts (omega arith))
          λ rhs rest h'.
            operators-Takes g f n m (binary_op op lhs rhs) rest adv (omega arith) (omega arith)
              (omega arith))
]

pub expression-Advances : (f : ℕ) → Advances f (expression f)
unfolding expression
expression-Advances zero ts h = absurd (omega arith)
expression-Advances (suc f) ts h =
    let adv = expression-Advances f in
    then-Takes 1 (length ts) 1 (length ts) (primary (expression f)) _ ts
      (primary-Takes f (expression f) ts adv (omega arith))
      λ lhs rest h'.
        operators-Takes (suc f) f (length ts) (expression f) lhs rest adv (omega arith)
          (omega arith) (omega arith)

pub select_item-Advances : (f : ℕ) → Advances f (select_item f)
unfolding select_item match
select_item-Advances f [] h = expression-Advances f [] h
select_item-Advances f (t ∷ ts) h = elim (Bool-cases (is_type t.type star)) [
  | inl e ↦ rw (e, Takes) (omega arith)
  | inr e ↦ rw (e, Takes) (expression-Advances f (t ∷ ts) h)
]

-- An action at the end of a list of tokens that are left.
pub at_end :
    {A : Type 0} (f k n : ℕ) (m : Parse A) (ts : List Token)
    → Advances f m
    → length ts < f
    → k + length ts ≤ n
    → Takes (suc k) n (m ts)
at_end f k n m ts adv l h = Takes-mono 1 (suc k) (length ts) n (m ts) (adv ts l) (omega arith)

module _ {A : Type 0} where
  -- `if (match(t)) …`
  pub optional_part :
      (f n : ℕ) (yes_part no_part : Parse A) (ts : List Token)
      → ((rest : List Token) → length rest ≤ n → Takes 0 n (yes_part rest))
      → ((rest : List Token) → length rest ≤ n → Takes 0 n (no_part rest))
      → length ts ≤ n
      → (t : TokenType)
      → Takes 0 n ((do found ← match t; elim found [ true ↦ yes_part | false ↦ no_part ]) ts)
  optional_part f n y z ts hy hz h t =
      bind-Takes 0 0 n (match t) (λ found. elim found [ true ↦ y | false ↦ z ]) ts
        (match-Takes t ts 0 n (omega arith)) λ found rest h'. choose found rest (omega arith)
    where
      choose :
          (found : Bool) (rest : List Token)
          → length rest ≤ n
          → Takes 0 n ((elim found as (λ b. Parse A) [ true ↦ y | false ↦ z ]) rest)
      choose true rest h = hy rest h
      choose false rest h = hz rest h

pub where_part-Takes :
    (f n : ℕ) (ts : List Token) → n < f → length ts ≤ n → Takes 0 n (where_part f ts)
unfolding where_part
where_part-Takes f n ts l h =
    optional_part f n (do e ← expression f; pure (some e)) (pure none) ts
      (λ rest h'.
        bind-Takes 1 0 n (expression f) (λ e. pure (some e)) rest
          (at_end f 0 n (expression f) rest (expression-Advances f) (omega arith) (omega arith))
          λ e r h''. omega arith)
      (λ rest h'. omega arith) h where_key
