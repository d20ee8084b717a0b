-- ===== src/Parser/Tokens.antt =====
-- tokenize() of parser/Parser.cpp: it ends, and hands out a list that ends with END.
use sql_engine.Base.{
  ℕ, zero, suc, ◌≤◌, ◌<◌, Bool, ◌≡◌, refl, ap, ◌≢◌, inl, inr, List, [], ◌∷◌, ◌++◌, ◌==◌, some, Text,
  length, arith, Result, ok, err, out_of_fuel, Bool-cases, Option-cases,
}
use sql_engine.Parser.Token.{Token}
use sql_engine.Parser.Lexer.{
  scan, scan_string, symbol, two_char, one_char, lex_token, lex, tokenize, isspace, isdigit,
  word_start, word_char, end_mark,
}

length-scan : (p : ℕ → Bool) (cs : Text) → length (scan p cs).1 ≤ length cs
unfolding scan
length-scan p [] = omega arith
length-scan p (c ∷ cs) = ground (arith, length-scan p cs)

length-scan_string :
    (cs lit rest : Text) → scan_string cs ≡ some (lit, rest) → length rest ≤ length cs
unfolding scan_string
length-scan_string [] lit rest h = cc
length-scan_string (c ∷ []) lit rest h = ground arith
length-scan_string (c ∷ d ∷ cs) lit rest h =
    let ih = λ (b : Text × Text). length-scan_string cs b.0 b.1 in
    let ih' = λ (b : Text × Text). length-scan_string (d ∷ cs) b.0 b.1 in
    elim (Option-cases (scan_string cs)) [
      | inl e ↦ elim (Option-cases (scan_string (d ∷ cs))) [
        | inl e' ↦ ground arith
        | inr (b, e') ↦ ground (arith, ih' b e')
      ]
      | inr (a, e) ↦ elim (Option-cases (scan_string (d ∷ cs))) [
        | inl e' ↦ ground (arith, ih a e)
        | inr (b, e') ↦ ground (arith, ih a e, ih' b e')
      ]
    ]

-- A token takes its bytes off the front, or an error of the program is raised.
abbrev Shortens : ℕ → Result (Token × Text) → Type 0
Shortens n (ok (t, rest)) = length rest ≤ n
Shortens n (err e) = e ≢ out_of_fuel

symbol-Shortens : (c : ℕ) (cs : Text) → Shortens (length cs) (symbol c cs)
unfolding symbol
symbol-Shortens c [] = elim (Option-cases (one_char c)) [
  | inl e ↦ rw (e, Shortens) (λ p. cc)
  | inr (t, e) ↦ rw (e, Shortens) (omega arith)
]
symbol-Shortens c (d ∷ cs) = elim (Option-cases (two_char c d)) [
  | inr (t, e) ↦ rw (e, Shortens) (omega arith)
  | inl e ↦ elim (Option-cases (one_char c)) [
    | inl e' ↦ rw (e, e', Shortens) (λ p. cc)
    | inr (t, e') ↦ rw (e, e', Shortens) (omega arith)
  ]
]

lex_token-Shortens : (c : ℕ) (cs : Text) → Shortens (length cs) (lex_token c cs)
unfolding lex_token
lex_token-Shortens c cs = elim (Bool-cases (word_start c)) [
  | inl w ↦ rw (w, Shortens) (length-scan word_char cs)
  | inr w ↦ elim (Bool-cases (isdigit c)) [
    | inl d ↦ rw (w, d, Shortens) (length-scan isdigit cs)
    | inr d ↦ elim (Bool-cases (c == 39)) [
      | inl q ↦ elim (Option-cases (scan_string cs)) [
        | inl e ↦ rw (w, d, q, e, Shortens) (λ p. cc)
        | inr (b, e) ↦ rw (w, d, q, e, Shortens) (length-scan_string cs b.0 b.1 e)
      ]
      | inr q ↦ rw (w, d, q) (symbol-Shortens c cs)
    ]
  ]
]

-- What `lex` returns: a list that ends with END, or an error of the program.
abbrev pub Closes : Result (List Token) → Type 0
Closes (ok ts) = (front : List Token) × (ts ≡ front ++ end_mark ∷ [])
Closes (err e) = e ≢ out_of_fuel

next-Closes :
    (n : ℕ) (r : Result (Token × Text)) (lexer : Text → Result (List Token))
    → Shortens n r
    → ((rest : Text) → length rest ≤ n → Closes (lexer rest))
    → Closes (elim r [
      | err e ↦ err e
      | ok (t, rest) ↦ elim (lexer rest) [ err e ↦ err e | ok ts ↦ ok (t ∷ ts) ]
    ])
next-Closes n (err e) lexer h rec = h
next-Closes n (ok (t, rest)) lexer h rec = add (lexer rest) (rec rest h)
  where
    add :
        (r : Result (List Token))
        → Closes r
        → Closes (elim r as (λ r. Result (List Token)) [ err e ↦ err e | ok ts ↦ ok (t ∷ ts) ])
    add (ok ts) (front, e) = (t ∷ front, ap (◌∷◌ t) e)
    add (err e) h = h

lex-Closes : (f : ℕ) (cs : Text) → length cs < f → Closes (lex f cs)
unfolding lex
lex-Closes zero cs h = absurd (omega arith)
lex-Closes (suc f) [] h = ([], refl)
lex-Closes (suc f) (c ∷ cs) h = elim (Bool-cases (isspace c)) [
  | inl e ↦ rw (e, Closes) (lex-Closes f cs (omega arith))
  | inr e ↦
      rw (e, Closes)
        (next-Closes (length cs) (lex_token c cs) (lex f) (lex_token-Shortens c cs)
          λ rest h'. lex-Closes f rest (omega arith))
]

-- A text that the tokenizer accepts gives a list of tokens that ends in the end mark; and the fuel of
-- the model, one more than the characters, is enough for every text.
pub tokenize-Closes : (s : Text) → Closes (tokenize s)
unfolding tokenize
tokenize-Closes s = lex-Closes (suc (length s)) s (omega arith)

pub tokenize-ne : (s : Text) → tokenize s ≢ err out_of_fuel
tokenize-ne s = go (tokenize s) (tokenize-Closes s)
  where
    go : (r : Result (List Token)) → Closes r → r ≢ err out_of_fuel
    go (ok ts) h e = cc
    go (err e) h p = h (ground arith)
