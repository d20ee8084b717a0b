-- ===== src/Wal/RoundTrip.antt =====
-- The file that the log calls of _WALManager/WALManager.cpp write is read back by recover.
use sql_engine.Base.{
  ℕ, true, ◌≡◌, ◌≢◌, refl, sym, ap, ◌∙◌, some, List, [], ◌∷◌, ◌++◌, map, append_assoc, append-nil,
  Text, codes, All, All-append, All_mono, arith, ok,
}
use sql_engine.Base.Numbers.{to_string}
use sql_engine.Wal.{
  LogRecord, WalManager, emit, flush, open_wal, values_text, line_start, LogCall, insert_call,
  delete_call, update_call, commit_call, abort_call, log_step, log_run, log_insert, log_delete,
  log_update, log_commit, log_abort,
}
use sql_engine.Wal.Read.{split_from, read_line, read_lines, read_log}
use sql_engine.Wal.Tokens.{IsPlain, to_string-IsPlain, split_part}
use sql_engine.Wal.Lines.{
  line_of, record_of, IsLoggableCall, read_line-line_of, above_separators, line_start-All,
  values_text-All,
}

-- The text of the lines.
unfoldable pub text_of : List LogCall → Text
unfolding line_of
text_of [] = []
text_of (c ∷ cs) = (line_of c ++ 10 ∷ []) ++ text_of cs

line_of-ne : (c : LogCall) → line_of c ≢ []
unfolding line_of line_start
line_of-ne (insert_call tx t rid new) h = cc
line_of-ne (delete_call tx t rid old) h = cc
line_of-ne (update_call tx t rid old new) h = cc
line_of-ne (commit_call tx) h = cc
line_of-ne (abort_call tx) h = cc

abbrev NoBreak : ℕ → Type 0
NoBreak c = c ≢ 10

abbrev no_break : (s : Text) → All IsPlain s → All NoBreak s
no_break = All_mono IsPlain NoBreak (λ c h. h.2)

line_of-NoBreak : (c : LogCall) → IsLoggableCall c → All NoBreak (line_of c)
unfolding line_of
line_of-NoBreak (insert_call tx t rid new) h =
    All-append NoBreak (line_start (codes "INSERT") tx t rid) (values_text new)
      (line_start-All NoBreak (λ c h. h.2) (omega arith) (codes "INSERT") tx t rid
        (above_separators (codes "INSERT") refl) h.1.1)
      (values_text-All NoBreak (λ c h. h.2) (omega arith) new h.3.1)
line_of-NoBreak (delete_call tx t rid old) h =
    All-append NoBreak (line_start (codes "DELETE") tx t rid) (values_text old)
      (line_start-All NoBreak (λ c h. h.2) (omega arith) (codes "DELETE") tx t rid
        (above_separators (codes "DELETE") refl) h.1.1)
      (values_text-All NoBreak (λ c h. h.2) (omega arith) old h.3.1)
line_of-NoBreak (update_call tx t rid old new) h =
    All-append NoBreak (line_start (codes "UPDATE") tx t rid)
      (values_text old ++ 59 ∷ values_text new)
      (line_start-All NoBreak (λ c h. h.2) (omega arith) (codes "UPDATE") tx t rid
        (above_separators (codes "UPDATE") refl) h.1.1)
      (All-append NoBreak (values_text old) (59 ∷ values_text new)
        (values_text-All NoBreak (λ c h. h.2) (omega arith) old h.3.1)
        (omega arith, values_text-All NoBreak (λ c h. h.2) (omega arith) new h.4.1))
line_of-NoBreak (commit_call tx) h =
    All-append NoBreak (codes "COMMIT") (44 ∷ to_string tx)
      (no_break (codes "COMMIT") (above_separators (codes "COMMIT") refl))
      (omega arith, no_break (to_string tx) (to_string-IsPlain tx))
line_of-NoBreak (abort_call tx) h =
    All-append NoBreak (codes "ABORT") (44 ∷ to_string tx)
      (no_break (codes "ABORT") (above_separators (codes "ABORT") refl))
      (omega arith, no_break (to_string tx) (to_string-IsPlain tx))

read_lines-cons :
    (l : Text) (ls : List Text) (r : LogRecord) (rs : List LogRecord)
    → l ≢ []
    → read_line l ≡ ok (some r)
    → read_lines ls ≡ ok rs
    → read_lines (l ∷ ls) ≡ ok (r ∷ rs)
unfolding read_lines
read_lines-cons [] ls r rs n h k = absurd (n refl)
read_lines-cons (c ∷ cs) ls r rs n h k = rw (h, k, read_lines) refl

read_log-text_of :
    (cs : List LogCall)
    → All IsLoggableCall cs
    → read_lines (split_from 10 [] (text_of cs)) ≡ ok (map record_of cs)
unfolding text_of split_from read_lines
read_log-text_of [] h = refl
read_log-text_of (c ∷ cs) h =
    ap (λ s. read_lines (split_from 10 [] s)) (append_assoc (line_of c) (10 ∷ []) (text_of cs))
    ∙ (ap read_lines (split_part 10 (line_of c) (text_of cs) (line_of-NoBreak c h.0))
        ∙ read_lines-cons (line_of c) (split_from 10 [] (text_of cs)) (record_of c)
            (map record_of cs) (line_of-ne c) (read_line-line_of c h.0) (read_log-text_of cs h.1))

log_step-emit : (w : WalManager) (c : LogCall) → log_step w c ≡ emit w (line_of c)
unfolding log_step log_insert log_delete log_update log_commit log_abort line_of
log_step-emit w (insert_call tx t rid new) = refl
log_step-emit w (delete_call tx t rid old) = refl
log_step-emit w (update_call tx t rid old new) = refl
log_step-emit w (commit_call tx) = refl
log_step-emit w (abort_call tx) = refl

emit_good :
    (w : WalManager) (line : Text)
    → w.out_good ≡ true
    → emit w line ≡ record w { buffer = w.buffer ++ (line ++ 10 ∷ []) }
emit_good w line g = rw g refl

log_run-text_of :
    (w : WalManager) (cs : List LogCall)
    → w.out_good ≡ true
    → log_run w cs ≡ record w { buffer = w.buffer ++ text_of cs }
unfolding log_run text_of
log_run-text_of w [] g = ap (λ b. record w { buffer = b }) (sym (append-nil w.buffer))
log_run-text_of w (c ∷ cs) g =
    let line = line_of c ++ 10 ∷ [] in
    let w' = record w { buffer = w.buffer ++ line } in
    ap (λ v. log_run v cs) (log_step-emit w c ∙ emit_good w (line_of c) g)
    ∙ (log_run-text_of w' cs g
        ∙ ap (λ b. record w { buffer = b }) (append_assoc w.buffer line (text_of cs)))

-- What a new log holds after any sequence of calls and a flush is read back as the records of the
-- calls, in their order, when ids fit in 64 bits and INTs in 32, rows have a value, and neither table
-- names nor strings are empty or hold a comma, a semicolon or a line break.
pub read_log-log_run :
    (cs : List LogCall)
    → All IsLoggableCall cs
    → read_log (flush (log_run (open_wal []) cs)).file ≡ ok (map record_of cs)
unfolding read_log flush
read_log-log_run cs h = rw (log_run-text_of (open_wal []) cs refl) (read_log-text_of cs h)
