-- ===== src/Parser/Monad.antt =====
-- Access to the tokens: peek, nextToken, match and expect of parser/Parser.cpp. The state is the list
-- of the tokens that are left. Past the last token the source hands out the last again, which is
-- always END.
use sql_engine.Base.{
  ℕ, zero, suc, Bool, true, false, List, [], ◌∷◌, if◌then◌else◌, Text, Result, ok, err, Error,
  expected, out_of_fuel,
}
use sql_engine.Parser.Token.{Token, TokenType, is_type, end_token, comma}
use sql_engine.Parser.Lexer.{end_mark}

abbrev pub Parse : Type 0 → Type 0
Parse A = List Token → Result (A × List Token)

abbrev pub pure : {A : Type 0} → A → Parse A
pure a ts = ok (a, ts)

abbrev pub throw : {A : Type 0} → Error → Parse A
throw e ts = err e

infixl 5 ◌>>=◌ ◌>>◌
abbrev pub ◌>>=◌ : {A B : Type 0} → Parse A → (A → Parse B) → Parse B
◌>>=◌ m f ts = elim (m ts) [ err e ↦ err e | ok (a, rest) ↦ f a rest ]

abbrev pub ◌>>◌ : {B : Type 0} → Parse (Unit {0}) → Parse B → Parse B
m >> k = m >>= λ _. k

unfoldable pub peek : List Token → Token
peek [] = end_mark
peek (t ∷ ts) = t

unfoldable pub next_token : Parse Token
next_token [] = ok (end_mark, [])
next_token (t ∷ ts) = ok (t, ts)

unfoldable pub match : TokenType → Parse Bool
unfolding peek
match t [] = ok (is_type end_token t, [])
match t (u ∷ ts) = if is_type u.type t then ok (true, ts) else ok (false, u ∷ ts)

unfoldable pub expect : TokenType → Text → Parse (Unit {0})
unfolding match
expect t message ts = elim (match t ts) [
  | err e ↦ err e
  | ok (found, rest) ↦ if found then ok (tt, rest) else err (expected message)
]

-- `if (peek().type != t) throw e; x = nextToken().text;`
unfoldable pub text_of : TokenType → Error → Parse Text
unfolding peek next_token
text_of t e [] = if is_type end_token t then ok ([], []) else err e
text_of t e (u ∷ ts) = if is_type u.type t then ok (u.text, ts) else err e

-- `do item; while (match(COMMA));`, an item for each unit of fuel.
unfoldable pub comma_list : {A : Type 0} → ℕ → Parse A → Parse (List A)
unfolding match
comma_list zero item = throw out_of_fuel
comma_list (suc f) item = do
  x ← item
  more ← match comma
  elim more [ true ↦ (do xs ← comma_list f item; pure (x ∷ xs)) | false ↦ pure (x ∷ []) ]
