-- ===== src/Session.antt =====
-- queryEngine/lockOptimized/QueryEngine.h and QueryEngine.cpp: a session, which dispatches statements
-- and controls its transaction. What the storage engine, the statistics and the executor do with a
-- statement is a parameter: they share the lock manager and the log with the session. The counters of
-- the MetricsManager and the clock are left out.
pub mod Control
pub mod Endings
pub mod Plain
mod Examples
use sql_engine.Base.{
  ℕ, ◌+◌, ◌-◌, Bool, true, false, not, ◌&&◌, ◌||◌, ◌==◌, ltb, leb, List, [], ◌∷◌, ◌++◌, length,
  drop, take, Text, codes, ℤ, pos, if◌then◌else◌, Result, ok, err, nested_transaction,
  no_transaction, dml_outside, analyze_without_table,
}
use sql_engine.Ast.{Ast, select, insert, update, delete, create_table, begin, commit}
use sql_engine.Lock.{LockTable, release_transaction_locks}
use sql_engine.Tx.{
  TxManager, TxState, init, begin_transaction, commit_transaction, abort_transaction,
}
use sql_engine.Wal.{WalManager, log_commit, log_abort, flush}

-- " \t\r\n"
abbrev pub is_blank : ℕ → Bool
is_blank c = c == 32 || c == 9 || c == 13 || c == 10

unfoldable pub trim_left : Text → Text
trim_left [] = []
trim_left (c ∷ cs) = if is_blank c then trim_left cs else c ∷ cs

unfoldable pub trim_right : Text → Text
trim_right [] = []
trim_right (c ∷ cs) = elim (trim_right cs) [
  | [] ↦ if is_blank c then [] else c ∷ []
  | d ∷ ds ↦ c ∷ d ∷ ds
]

unfoldable pub trim : Text → Text
unfolding trim_left trim_right
trim s = trim_right (trim_left s)

-- std::toupper in the C locale.
abbrev pub to_upper : ℕ → ℕ
to_upper c = if leb 97 c && leb c 122 then c - 32 else c

-- iequals_prefix(s, p)
unfoldable pub has_prefix : Text → Text → Bool
has_prefix s [] = true
has_prefix [] (p ∷ ps) = false
has_prefix (c ∷ cs) (p ∷ ps) = to_upper c == p && has_prefix cs ps

-- The members of the engine; `current` is currentTxId_, 0 outside a transaction.
pub record Session {ℓ} (S : Type ℓ) : Type ℓ where
  pub store : S
  pub locks : LockTable
  pub wal : WalManager
  pub transactions : TxManager
  pub current : ℕ

-- What the session calls with a storage S and rows R: the catalog that is bound against is part of S.
pub record Engine {ℓ} (S R : Type ℓ) : Type ℓ where
  pub analyze : S → Text → S × Result (Unit {0})
  pub parse : Text → Result Ast
  pub bind : S → Ast → Result Ast
  -- insertRecord, updateRecords and deleteRecords, in a transaction.
  pub change :
      S × LockTable × WalManager → Ast → ℕ → (S × LockTable × WalManager) × Result (Unit {0})
  -- The plans of a SELECT, and their execution.
  pub query : S → Ast → Result (List R)

abbrev pub is_change : Ast → Bool
is_change (insert s) = true
is_change (update s) = true
is_change (delete s) = true
is_change _ = false

module _ {ℓ} {S R : Type ℓ} (engine : Engine S R) where
  abbrev pub Reply : Type ℓ
  Reply = Session S × Result (List R)

  -- A call that returns nothing.
  abbrev pub done : Result (Unit {0}) → Result (List R)
  done (err e) = err e
  done (ok u) = ok []

  -- analyzeTable, of the name that is left.
  unfoldable pub analyze_table : Session S → Text → Reply
  analyze_table s [] = (s, err analyze_without_table)
  analyze_table s (c ∷ cs) =
      let (store, r) = engine.analyze s.store (c ∷ cs) in (record s { store = store }, done r)

  unfoldable pub run_analyze : Session S → Text → Reply
  unfolding trim has_prefix analyze_table
  run_analyze s sql =
      let after = trim (drop 7 sql) in
      analyze_table s (if has_prefix after (codes "TABLE") then trim (drop 5 after) else after)

  unfoldable pub run_begin : Session S → Reply
  run_begin s =
      if s.current == 0
      then (let (m, tx) = begin_transaction s.transactions in
          (record s { transactions = m; current = tx }, ok []))
      else (s, err nested_transaction)

  -- COMMIT, with commitTransaction and logCommit, and ROLLBACK, with abortTransaction and logAbort.
  unfoldable pub run_end :
      (TxManager → ℕ → TxManager × Result (Unit {0}))
      → (WalManager → ℤ → WalManager)
      → Session S
      → Reply
  unfolding flush
  run_end finish log s =
      if s.current == 0
      then (s, err no_transaction)
      else (let logged = flush (log s.wal (pos s.current)) in
          let (m, r) = finish s.transactions s.current in
          elim r [
            | err e ↦ (record s { wal = logged; transactions = m }, err e)
            | ok u ↦ (
              record s {
                wal = logged;
                transactions = m;
                locks = release_transaction_locks s.locks s.current;
                current = 0;
              },
              ok [],
            )
          ])

  -- A change, a SELECT or another statement, once it is bound.
  unfoldable pub run_change : Session S → Ast → Reply
  run_change s ast =
      if s.current == 0
      then (s, err dml_outside)
      else (let ((store, locks, wal), r) = engine.change (s.store, s.locks, s.wal) ast s.current in
          (record s { store = store; locks = locks; wal = wal }, done r))

  unfoldable pub run_bound : Session S → Ast → Reply
  unfolding run_change
  run_bound s (select q) = (s, engine.query s.store (select q))
  run_bound s ast = if is_change ast then run_change s ast else (s, ok [])

  unfoldable pub run_statement : Session S → Text → Reply
  unfolding run_bound
  run_statement s sql = elim (engine.parse sql) [
    | err e ↦ (s, err e)
    | ok parsed ↦ elim (engine.bind s.store parsed) [
      | err e ↦ (s, err e)
      | ok ast ↦ run_bound s ast
    ]
  ]

  unfoldable pub execute_query : Session S → Text → Reply
  unfolding trim has_prefix run_analyze run_begin run_end run_statement
  execute_query s raw =
      let sql = trim raw in
      if has_prefix sql (codes "ANALYZE")
      then run_analyze s sql
      else if has_prefix sql (codes "BEGIN")
      then run_begin s
      else if has_prefix sql (codes "COMMIT")
      then run_end commit_transaction log_commit s
      else if has_prefix sql (codes "ROLLBACK")
      then run_end abort_transaction log_abort s
      else run_statement s sql

  -- The statements of a client, one after the other, also behind one that throws.
  unfoldable pub session_run : Session S → List Text → Session S
  unfolding execute_query
  session_run s [] = s
  session_run s (sql ∷ rest) = session_run (execute_query s sql).0 rest
