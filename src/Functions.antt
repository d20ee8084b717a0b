-- ===== src/Functions.antt =====
-- functionRegistry/FunctionRegistry.h and FunctionRegistry.cpp: scalar functions by name, in any case
-- of its letters. A function takes values to a value, or throws.
mod Examples
use sql_engine.Base.{
  ℕ, Bool, Option, none, some, List, [], ◌∷◌, map, Text, Result, ok, err, or_throw,
  unknown_function, ◌≡◌, refl, arith, if◌then◌else◌,
}
use sql_engine.Base.Equality.{text_eq, list_beq}
use sql_engine.Base.Assoc.{Map, find, insert, contains, find-insert}
use sql_engine.Parser.Lexer.{toupper}
use sql_engine.Record.{FieldValue}

abbrev pub Udf : Type 0
Udf = List FieldValue → Result FieldValue

abbrev pub Registry : Type 0
Registry = Map Text Udf

unfoldable pub normalize : Text → Text
normalize s = map toupper s

unfoldable pub register_function : Registry → Text → Udf → Registry
unfolding normalize
register_function r name f = insert (normalize name) f r

unfoldable pub has_function : Registry → Text → Bool
unfolding normalize
has_function r name = contains (normalize name) r

unfoldable pub get_function : Registry → Text → Result Udf
unfolding normalize
get_function r name = or_throw (find (normalize name) r) (unknown_function name)

-- A lookup after a registration finds the new function under every spelling of its name that differs
-- in the case of letters only, and finds what it found before under any other name.
pub get-register :
    (r : Registry) (name other : Text) (f : Udf)
    → get_function (register_function r name f) other
      ≡ (if list_beq (normalize name) (normalize other) then ok f else get_function r other)
unfolding get_function register_function normalize
get-register r name other f = ground (arith, find-insert (normalize name) (normalize other) f r)
