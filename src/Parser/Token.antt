-- ===== src/Parser/Token.antt =====
-- The tokens of parser/Parser.h.
use sql_engine.Base.{ℕ, Text, Bool, ◌==◌}

pub data TokenType : Type 0 where
  end_token ident_token int_token str_token comma semicolon lparen rparen : TokenType
  eq_token neq_token lt_token lte_token gt_token gte_token : TokenType
  plus minus star slash dot : TokenType
  select_key from_key where_key insert_key into_key values_key update_key set_key : TokenType
  delete_key create_key table_key begin_key commit_key and_key or_key : TokenType

-- The number of an enumerator, for `==`.
abbrev pub tag : TokenType → ℕ
tag end_token = 0
tag ident_token = 1
tag int_token = 2
tag str_token = 3
tag comma = 4
tag semicolon = 5
tag lparen = 6
tag rparen = 7
tag eq_token = 8
tag neq_token = 9
tag lt_token = 10
tag lte_token = 11
tag gt_token = 12
tag gte_token = 13
tag plus = 14
tag minus = 15
tag star = 16
tag slash = 17
tag dot = 18
tag select_key = 19
tag from_key = 20
tag where_key = 21
tag insert_key = 22
tag into_key = 23
tag values_key = 24
tag update_key = 25
tag set_key = 26
tag delete_key = 27
tag create_key = 28
tag table_key = 29
tag begin_key = 30
tag commit_key = 31
tag and_key = 32
tag or_key = 33

abbrev pub is_type : TokenType → TokenType → Bool
is_type a b = tag a == tag b

pub record Token : Type 0 where
  pub type : TokenType
  pub text : Text
