-- ===== src/Wal/Read.antt =====
-- Reading the log back, and recovery (_WALManager/WALManager.cpp, split, parseFV and recover). A line
-- with too few parts is read past the end of a vector: `err undefined`.
use sql_engine.Base.{
  ℕ, Option, none, some, List, [], ◌∷◌, ◌++◌, Text, codes, ℤ, pos, if◌then◌else◌, ◌==◌, get_elem?,
  drop, Result, ok, err, ◌>>=◌, or_throw, undefined, bad_field,
}
use sql_engine.Base.Int.{fits32}
use sql_engine.Base.Equality.{list_beq}
use sql_engine.Base.Numbers.{number_in, fits64}
use sql_engine.Record.{FieldValue, int, str}
use sql_engine.Heap.{RecordId}
use sql_engine.Wal.{LogOp, insert_op, delete_op, update_op, commit_op, abort_op, LogRecord}

-- The loop of std::getline: `tok` is what has been read of a part. A last part that is empty is no
-- part.
unfoldable pub split_from : ℕ → Text → Text → List Text
split_from d [] [] = []
split_from d (b ∷ tok) [] = (b ∷ tok) ∷ []
split_from d tok (c ∷ cs) =
    let next = split_from d [] cs in
    let longer = split_from d (tok ++ c ∷ []) cs in if c == d then tok ∷ next else longer

unfoldable pub split : Text → ℕ → List Text
unfolding split_from
split s d = split_from d [] s

-- std::stoi and std::stoll
abbrev pub stoi : Text → Result ℤ
stoi = number_in fits32

abbrev pub stoll : Text → Result ℤ
stoll = number_in fits64

-- Format "I:123" or "S:hello"
unfoldable pub parse_fv : Text → Result FieldValue
parse_fv (kind ∷ colon ∷ c ∷ cs) =
    let number = (do z ← stoi (c ∷ cs); ok (int z)) in
    if colon == 58
    then if kind == 73 then number else ok (str (c ∷ cs))
    else err (bad_field (kind ∷ colon ∷ c ∷ cs))
parse_fv tok = err (bad_field tok)

unfoldable pub parse_fvs : List Text → Result (List FieldValue)
unfolding parse_fv
parse_fvs [] = ok []
parse_fvs (t ∷ ts) = do v ← parse_fv t; vs ← parse_fvs ts; ok (v ∷ vs)

-- `line.find(';')` with the substrings before and behind it. Without one both are the whole line.
unfoldable pub cut_at : ℕ → Text → Option (Text × Text)
cut_at d [] = none
cut_at d (c ∷ cs) =
    let later = cut_at d cs in
    if c == d
    then some ([], cs)
    else elim later [ none ↦ none | some (before, behind) ↦ some (c ∷ before, behind) ]

unfoldable pub old_new_parts : Text → Text × Text
unfolding cut_at
old_new_parts line = elim (cut_at 59 line) [ none ↦ (line, line) | some parts ↦ parts ]

-- COMMIT and ABORT have no table, no record and no values.
abbrev pub end_record : LogOp → ℤ → LogRecord
end_record op tx = record {
  op = op;
  tx_id = tx;
  table = [];
  rid = record { page_id = pos 0; slot_num = pos 0 };
  old_values = [];
  new_values = [];
}

-- The branches of INSERT, DELETE and UPDATE; `none` for another word.
unfoldable pub read_values :
    Text → List Text → Text → ℤ → Text → RecordId → Result (Option LogRecord)
unfolding split parse_fvs old_new_parts
read_values line parts op tx table rid =
    let inserted = (do
      nv ← parse_fvs (drop 5 parts)
      ok (
          some (record {
            op = insert_op;
            tx_id = tx;
            table = table;
            rid = rid;
            old_values = [];
            new_values = nv;
          }))) in
    let deleted = (do
      ov ← parse_fvs (drop 5 parts)
      ok (
          some (record {
            op = delete_op;
            tx_id = tx;
            table = table;
            rid = rid;
            old_values = ov;
            new_values = [];
          }))) in
    let updated = (do
      ov ← parse_fvs (drop 5 (split (old_new_parts line).0 44))
      nv ← parse_fvs (drop 1 (split (old_new_parts line).1 44))
      ok (
          some (record {
            op = update_op;
            tx_id = tx;
            table = table;
            rid = rid;
            old_values = ov;
            new_values = nv;
          }))) in
    if list_beq op (codes "INSERT")
    then inserted
    else if list_beq op (codes "DELETE")
    then deleted
    else if list_beq op (codes "UPDATE")
    then updated
    else ok none

-- `parts[i]`
abbrev pub part : List Text → ℕ → Result Text
part parts i = or_throw (get_elem? parts i) undefined

-- The record of a line.
unfoldable pub read_line : Text → Result (Option LogRecord)
unfolding split read_values
read_line line =
    let parts = split line 44 in
    let others = λ (op : Text) (tx : ℤ). (do
      table ← part parts 2
      page_text ← part parts 3
      page ← stoll page_text
      slot_text ← part parts 4
      slot ← stoll slot_text
      read_values line parts op tx table (record { page_id = page; slot_num = slot })) in
    (do
      op ← part parts 0
      tx_text ← part parts 1
      tx ← stoll tx_text
      (if list_beq op (codes "COMMIT")
          then ok (some (end_record commit_op tx))
          else if list_beq op (codes "ABORT")
          then ok (some (end_record abort_op tx))
          else others op tx))

-- The loop over the lines; empty ones are passed over.
unfoldable pub read_lines : List Text → Result (List LogRecord)
unfolding read_line
read_lines [] = ok []
read_lines ([] ∷ ls) = read_lines ls
read_lines ((c ∷ cs) ∷ ls) = do
  found ← read_line (c ∷ cs)
  rest ← read_lines ls
  ok (elim found [ none ↦ rest | some r ↦ r ∷ rest ])

unfoldable pub read_log : Text → Result (List LogRecord)
unfolding split read_lines
read_log file = read_lines (split file 10)
