-- ===== src/Connection/Examples.antt =====
-- A client of an engine that answers each statement with its text.
use sql_engine.Base.{
  ℕ, suc, ◌≡◌, refl, List, [], ◌∷◌, ◌++◌, map, Text, codes, pos, arith, All, Result, Error, ok,
}
use sql_engine.Record.{FieldValue, int, str}
use sql_engine.Session.{trim}
use sql_engine.Wal.Read.{split, cut_at}
use sql_engine.Connection.{handle_client, result_text, fv_to_string}
use sql_engine.Connection.Reading.{
  Sent, all_reads, text_of, IsStatement, answers, handle_client-answers,
}
use sql_engine.Connection.Cells.{IsShown, split-result_text}

-- The engine counts its statements.
abbrev echo : ℕ → Text → ℕ × Result (List (List FieldValue))
echo n sql = (suc n, ok ((str sql ∷ int (pos n) ∷ []) ∷ []))

abbrev no_message : Error → Text
no_message e = []

-- "A;" in two reads with more behind the semicolon, then " B;" in one.
abbrev two_statements : List Sent
two_statements =
    (record { before = codes "A" ∷ []; last = []; behind = codes " lost;" })
    ∷ (record { before = []; last = codes " B"; behind = [] })
    ∷ []

two_statements-IsStatement : All IsStatement two_statements
unfolding trim
two_statements-IsStatement = (
  ((((λ e. cc), (omega arith, tt)), tt), tt, (λ e. cc)),
  ((tt, (omega arith, (omega arith, tt)), (λ e. cc)), tt),
)

-- The statement behind the semicolon is not executed.
lost :
    handle_client echo no_message 3 0 (codes "A; B;" ∷ [])
    ≡ ok (1, (codes "A" ++ 9 ∷ codes "0" ++ 10 ∷ []) ∷ [])
unfolding handle_client trim cut_at
lost = refl

-- A blank statement ends the connection.
blank : handle_client echo no_message 3 0 (codes ";" ∷ codes "A;" ∷ []) ≡ ok (0, [])
unfolding handle_client trim cut_at
blank = refl

handle_client-answers_example :
    handle_client echo no_message 3 0 (all_reads two_statements)
    ≡ ok (answers echo no_message 0 (map (λ q. trim (text_of q)) two_statements))
handle_client-answers_example =
    handle_client-answers echo no_message 0 two_statements two_statements-IsStatement

-- A name with a newline, and an id.
abbrev two_rows : List (List FieldValue)
two_rows = (str (97 ∷ 10 ∷ 98 ∷ []) ∷ int (pos 1) ∷ []) ∷ (str (codes "c") ∷ int (pos 2) ∷ []) ∷ []

two_rows-IsShown : All IsShown two_rows
unfolding fv_to_string
two_rows-IsShown =
    (((λ e. cc), ((λ e. cc), ((λ e. cc), tt))), (((λ e. cc), ((λ e. cc), ((λ e. cc), tt))), tt))

-- A backslash is not escaped, so that two values are written alike.
alike : fv_to_string (str (9 ∷ [])) ≡ fv_to_string (str (codes "\\t"))
unfolding fv_to_string
alike = refl

split-result_text_example :
    map (λ line. split line 9) (split (result_text two_rows) 10) ≡ map (map fv_to_string) two_rows
split-result_text_example = split-result_text two_rows two_rows-IsShown
