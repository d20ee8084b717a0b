-- ===== src/Connection.antt =====
-- connectionManager/ConnectionManager.h and ConnectionManager.cpp: what is read from a client, executed
-- and answered. `execute` stands for QueryEngine::executeQuery, and `what` for the message of an
-- exception. What the reads of a client return is a list of texts; a read that returns nothing, and the
-- end of the list, are the end of the connection. Writes do not fail.
pub mod Reading
pub mod Cells
mod Examples
use sql_engine.Base.{
  ℕ, zero, suc, Bool, true, false, ◌==◌, Option, none, some, List, [], ◌∷◌, ◌++◌, Text, codes,
  if◌then◌else◌, Result, Error, ok, err, ◌>>=◌, out_of_fuel,
}
use sql_engine.Base.Numbers.{to_string}
use sql_engine.Record.{FieldValue, int, str}
use sql_engine.Session.{trim}
use sql_engine.Wal.Read.{cut_at}

-- The loop of readStatement: the statement, which is empty at the end, and the reads that are left.
-- What stands behind the semicolon goes with the local buffer.
unfoldable pub read_loop : Text → List Text → Text × List Text
unfolding cut_at trim
read_loop stmt [] = ([], [])
read_loop stmt ([] ∷ reads) = ([], reads)
read_loop stmt ((c ∷ cs) ∷ reads) =
    let later = read_loop (stmt ++ c ∷ cs) reads in
    elim (cut_at 59 (stmt ++ c ∷ cs)) [ none ↦ later | some (out, behind) ↦ (trim out, reads) ]

unfoldable pub read_statement : List Text → Text × List Text
unfolding read_loop
read_statement reads = read_loop [] reads

-- A tab and a newline are written with a backslash.
unfoldable pub escape : Text → Text
escape [] = []
escape (c ∷ cs) =
    let rest = escape cs in
    if c == 9 then 92 ∷ 116 ∷ rest else if c == 10 then 92 ∷ 110 ∷ rest else c ∷ rest

unfoldable pub fv_to_string : FieldValue → Text
unfolding to_string escape
fv_to_string (int z) = to_string z
fv_to_string (str s) = escape s

-- A row, up to its newline.
unfoldable pub row_line : List FieldValue → Text
unfolding fv_to_string
row_line [] = []
row_line (v ∷ []) = fv_to_string v
row_line (v ∷ w ∷ vs) = fv_to_string v ++ 9 ∷ row_line (w ∷ vs)

-- What sendResult writes.
unfoldable pub result_text : List (List FieldValue) → Text
unfolding row_line
result_text [] = []
result_text (row ∷ rows) = row_line row ++ 10 ∷ result_text rows

module _ {S : Type 0} (execute : S → Text → S × Result (List (List FieldValue)))
    (what : Error → Text) where
  unfoldable pub reply_text : Result (List (List FieldValue)) → Text
  unfolding result_text
  reply_text (err e) = codes "ERROR: " ++ (what e ++ 10 ∷ [])
  reply_text (ok []) = codes "OK" ++ 10 ∷ []
  reply_text (ok (row ∷ rows)) = result_text (row ∷ rows)

  -- handleClient: the engine that is left, and the replies.
  unfoldable pub handle_client : ℕ → S → List Text → Result (S × List Text)
  unfolding read_statement reply_text
  handle_client zero s reads = err out_of_fuel
  handle_client (suc fuel) s reads =
      let (sql, rest) = read_statement reads in
      elim sql [
        | [] ↦ ok (s, [])
        | c ∷ cs ↦ (do
          (last, replies) ← handle_client fuel (execute s (c ∷ cs)).0 rest
          ok (last, reply_text (execute s (c ∷ cs)).1 ∷ replies))
      ]
