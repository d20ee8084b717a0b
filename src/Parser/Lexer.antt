-- ===== src/Parser/Lexer.antt =====
-- tokenize() of parser/Parser.cpp over the bytes that are left. The character classes are those of
-- the "C" locale.
use sql_engine.Base.{
  ℕ, zero, suc, ◌-◌, Bool, ◌&&◌, ◌||◌, List, [], ◌∷◌, map, Text, codes, length, leb, ◌==◌,
  if◌then◌else◌, Option, none, some, Result, ok, err, out_of_fuel, unterminated_string,
  unknown_char,
}
use sql_engine.Base.Equality.{list_beq}
use sql_engine.Parser.Token.{
  Token, TokenType, end_token, ident_token, int_token, str_token, comma, semicolon, lparen, rparen,
  eq_token, neq_token, lt_token, lte_token, gt_token, gte_token, plus, minus, star, slash, dot,
  select_key, from_key, where_key, insert_key, into_key, values_key, update_key, set_key,
  delete_key, create_key, table_key, begin_key, commit_key, and_key, or_key,
}

abbrev pub isspace : ℕ → Bool
isspace c = c == 32 || (leb 9 c && leb c 13)

abbrev pub isdigit : ℕ → Bool
isdigit c = leb 48 c && leb c 57

abbrev pub isalpha : ℕ → Bool
isalpha c = (leb 65 c && leb c 90) || (leb 97 c && leb c 122)

abbrev pub toupper : ℕ → ℕ
toupper c = if leb 97 c && leb c 122 then c - 32 else c

-- A byte that may begin a word, and one that may stand in it.
abbrev pub word_start : ℕ → Bool
word_start c = isalpha c || c == 95

abbrev pub word_char : ℕ → Bool
word_char c = isalpha c || isdigit c || c == 95

-- `while (j < n && p(s[j])) ++j`: the bytes passed over, and the rest.
unfoldable pub scan : (ℕ → Bool) → Text → Text × Text
scan p [] = ([], [])
scan p (c ∷ cs) = let (passed, rest) = scan p cs in if p c then (c ∷ passed, rest) else ([], c ∷ cs)

-- The table of keywords; an identifier otherwise.
unfoldable pub word_type : Text → TokenType
word_type w =
    let u = map toupper w in
    if list_beq u (codes "SELECT")
    then select_key
    else if list_beq u (codes "FROM")
    then from_key
    else if list_beq u (codes "WHERE")
    then where_key
    else if list_beq u (codes "INSERT")
    then insert_key
    else if list_beq u (codes "INTO")
    then into_key
    else if list_beq u (codes "VALUES")
    then values_key
    else if list_beq u (codes "UPDATE")
    then update_key
    else if list_beq u (codes "SET")
    then set_key
    else if list_beq u (codes "DELETE")
    then delete_key
    else if list_beq u (codes "CREATE")
    then create_key
    else if list_beq u (codes "TABLE")
    then table_key
    else if list_beq u (codes "BEGIN")
    then begin_key
    else if list_beq u (codes "COMMIT")
    then commit_key
    else if list_beq u (codes "AND")
    then and_key
    else if list_beq u (codes "OR")
    then or_key
    else ident_token

-- The body of a string literal, up to the closing quote; a backslash takes the next byte with it,
-- and both stay in the text. `none`: no closing quote.
unfoldable pub scan_string : Text → Option (Text × Text)
scan_string [] = none
scan_string (c ∷ []) = if c == 39 then some ([], []) else none
scan_string (c ∷ d ∷ cs) =
    let escaped : Option (Text × Text) = elim (scan_string cs) [
      | none ↦ none
      | some (lit, rest) ↦ some (c ∷ d ∷ lit, rest)
    ] in
    let plain : Option (Text × Text) = elim (scan_string (d ∷ cs)) [
      | none ↦ none
      | some (lit, rest) ↦ some (c ∷ lit, rest)
    ] in
    if c == 39 then some ([], d ∷ cs) else if c == 92 then escaped else plain

-- Two-character operators.
unfoldable pub two_char : ℕ → ℕ → Option TokenType
two_char c d =
    if c == 60 && d == 62
    then some neq_token
    else if c == 60 && d == 61
    then some lte_token
    else if c == 62 && d == 61
    then some gte_token
    else none

-- Single-character tokens.
unfoldable pub one_char : ℕ → Option TokenType
one_char c =
    if c == 44
    then some comma
    else if c == 59
    then some semicolon
    else if c == 40
    then some lparen
    else if c == 41
    then some rparen
    else if c == 61
    then some eq_token
    else if c == 60
    then some lt_token
    else if c == 62
    then some gt_token
    else if c == 43
    then some plus
    else if c == 45
    then some minus
    else if c == 42
    then some star
    else if c == 47
    then some slash
    else if c == 46
    then some dot
    else none

-- The token for a byte that begins no word, number or string, and what is left behind it.
unfoldable pub symbol : ℕ → Text → Result (Token × Text)
unfolding two_char one_char
symbol c [] = elim (one_char c) [
  | some t ↦ ok (record { type = t; text = c ∷ [] }, [])
  | none ↦ err (unknown_char c)
]
symbol c (d ∷ cs) = elim (two_char c d) [
  | some t ↦ ok (record { type = t; text = c ∷ d ∷ [] }, cs)
  | none ↦ elim (one_char c) [
    | some t ↦ ok (record { type = t; text = c ∷ [] }, d ∷ cs)
    | none ↦ err (unknown_char c)
  ]
]

-- One round of the loop at a byte that is no space: the token, and what is left.
unfoldable pub lex_token : ℕ → Text → Result (Token × Text)
unfolding scan word_type scan_string symbol
lex_token c cs =
    if word_start c
    then (let (passed, rest) = scan word_char cs in
        ok (record { type = word_type (c ∷ passed); text = c ∷ passed }, rest))
    else if isdigit c
    then (let (passed, rest) = scan isdigit cs in
        ok (record { type = int_token; text = c ∷ passed }, rest))
    else if c == 39
    then elim (scan_string cs) [
      | none ↦ err unterminated_string
      | some (lit, rest) ↦ ok (record { type = str_token; text = lit }, rest)
    ]
    else symbol c cs

abbrev pub end_mark : Token
end_mark = record { type = end_token; text = [] }

-- `while (i < n)`, a round for each unit of fuel.
unfoldable pub lex : ℕ → Text → Result (List Token)
unfolding lex_token
lex zero cs = err out_of_fuel
lex (suc f) [] = ok (end_mark ∷ [])
lex (suc f) (c ∷ cs) =
    let skip = lex f cs in
    let next : Result (List Token) = elim (lex_token c cs) [
      | err e ↦ err e
      | ok (t, rest) ↦ elim (lex f rest) [ err e ↦ err e | ok ts ↦ ok (t ∷ ts) ]
    ] in
    if isspace c then skip else next

unfoldable pub tokenize : Text → Result (List Token)
unfolding lex
tokenize s = lex (suc (length s)) s
