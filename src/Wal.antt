-- ===== src/Wal.antt =====
-- _WALManager/WALManager.h and WALManager.cpp: the write-ahead log. The log is a text of lines. What
-- is written stands in the buffer of the stream until `flush`; `out_good` is the state of the stream
-- logOut_. The latch makes each call atomic.
pub mod Read
pub mod Tokens
pub mod Lines
pub mod RoundTrip
pub mod Recovery
pub mod Orderly
pub mod Committed
pub mod Stored
mod Examples
mod Runs
use sql_engine.Base.{ℕ, Bool, true, false, List, [], ◌∷◌, ◌++◌, Text, codes, ℤ, pos, if◌then◌else◌}
use sql_engine.Base.Numbers.{to_string}
use sql_engine.Record.{FieldValue, int, str}
use sql_engine.Heap.{RecordId}

pub data LogOp : Type 0 where
  insert_op delete_op update_op commit_op abort_op : LogOp

pub record LogRecord : Type 0 where
  pub op : LogOp
  pub tx_id : ℤ
  pub table : Text
  pub rid : RecordId
  pub old_values : List FieldValue
  pub new_values : List FieldValue

pub record WalManager : Type 0 where
  pub file : Text
  pub buffer : Text
  pub out_good : Bool

-- The constructor opens the file that is there to append to it.
abbrev pub open_wal : Text → WalManager
open_wal file = record { file = file; buffer = []; out_good = true }

unfoldable pub flush : WalManager → WalManager
flush w = if w.out_good then record w { file = w.file ++ w.buffer; buffer = [] } else w

unfoldable pub fv_to_string : FieldValue → Text
unfolding to_string
fv_to_string (int z) = codes "I:" ++ to_string z
fv_to_string (str s) = codes "S:" ++ s

-- `for (auto &v : nv) logOut_ << "," << fvToString(v)`
unfoldable pub values_text : List FieldValue → Text
unfolding fv_to_string
values_text [] = []
values_text (v ∷ vs) = 44 ∷ (fv_to_string v ++ values_text vs)

-- "op,tx,table,page,slot"
unfoldable pub line_start : Text → ℤ → Text → RecordId → Text
unfolding to_string
line_start op tx table rid =
    op
    ++ 44
      ∷ (to_string tx
          ++ 44 ∷ (table ++ 44 ∷ (to_string rid.page_id ++ 44 ∷ to_string rid.slot_num)))

-- What is written to a stream that has failed is dropped.
abbrev pub emit : WalManager → Text → WalManager
emit w line = if w.out_good then record w { buffer = w.buffer ++ (line ++ 10 ∷ []) } else w

unfoldable pub log_insert : WalManager → ℤ → Text → RecordId → List FieldValue → WalManager
unfolding line_start values_text
log_insert w tx table rid new_values =
    emit w (line_start (codes "INSERT") tx table rid ++ values_text new_values)

unfoldable pub log_delete : WalManager → ℤ → Text → RecordId → List FieldValue → WalManager
unfolding line_start values_text
log_delete w tx table rid old_values =
    emit w (line_start (codes "DELETE") tx table rid ++ values_text old_values)

unfoldable pub log_update :
    WalManager → ℤ → Text → RecordId → List FieldValue → List FieldValue → WalManager
unfolding line_start values_text
log_update w tx table rid old_values new_values = emit w (
    line_start (codes "UPDATE") tx table rid
    ++ (values_text old_values ++ 59 ∷ values_text new_values))

unfoldable pub log_commit : WalManager → ℤ → WalManager
unfolding to_string
log_commit w tx = emit w (codes "COMMIT," ++ to_string tx)

unfoldable pub log_abort : WalManager → ℤ → WalManager
unfolding to_string
log_abort w tx = emit w (codes "ABORT," ++ to_string tx)

-- The log calls, and sequences of them.
pub data LogCall : Type 0 where
  insert_call : ℤ → Text → RecordId → List FieldValue → LogCall
  delete_call : ℤ → Text → RecordId → List FieldValue → LogCall
  update_call : ℤ → Text → RecordId → List FieldValue → List FieldValue → LogCall
  commit_call abort_call : ℤ → LogCall

unfoldable pub log_step : WalManager → LogCall → WalManager
unfolding log_insert log_delete log_update log_commit log_abort
log_step w (insert_call tx t rid new) = log_insert w tx t rid new
log_step w (delete_call tx t rid old) = log_delete w tx t rid old
log_step w (update_call tx t rid old new) = log_update w tx t rid old new
log_step w (commit_call tx) = log_commit w tx
log_step w (abort_call tx) = log_abort w tx

unfoldable pub log_run : WalManager → List LogCall → WalManager
unfolding log_step
log_run w [] = w
log_run w (c ∷ cs) = log_run (log_step w c) cs
