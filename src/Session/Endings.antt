-- ===== src/Session/Endings.antt =====
-- COMMIT and ROLLBACK of a session of queryEngine/lockOptimized/QueryEngine.cpp.
use sql_engine.Base.{
  ℕ, true, false, ◌==◌, ==_iff, [], ◌∷◌, ◌++◌, Text, codes, ℤ, pos, ◌≡◌, ◌≢◌, refl, if◌then◌else◌,
  ok, Bool-cases, inl, inr, arith,
}
use sql_engine.Base.Equality.{nat_eq}
use sql_engine.Base.Assoc.{find-insert}
use sql_engine.Base.Numbers.{to_string}
use sql_engine.Lock.{release_transaction_locks}
use sql_engine.Tx.{
  TxManager, TxState, active, committed, aborted, finish, commit_transaction, abort_transaction,
  get_state,
}
use sql_engine.Wal.{WalManager, log_commit, log_abort, flush}
use sql_engine.Session.{Session, Engine, trim, has_prefix, run_end, execute_query}
use sql_engine.Session.Control.{Agrees, finish-ok}

finish-state :
    (final : TxState) (m : TxManager) (current : ℕ)
    → get_state m current ≡ ok active
    → get_state (finish final m current).0 current ≡ ok final
unfolding finish get_state
finish-state final m current h = ground (arith, h, find-insert current current final m.tx_table)

flush-log_commit :
    (w : WalManager) (tx : ℤ)
    → (flush (log_commit w tx)).file ≡ (
        if w.out_good
        then w.file ++ (w.buffer ++ ((codes "COMMIT," ++ to_string tx) ++ 10 ∷ []))
        else w.file)
unfolding flush log_commit
flush-log_commit w tx = elim (Bool-cases w.out_good) [ inl e ↦ rw e refl | inr e ↦ rw e refl ]

commit_word :
    (t : Text)
    → has_prefix t (codes "COMMIT") ≡ true
    → (has_prefix t (codes "ANALYZE") ≡ false) × (has_prefix t (codes "BEGIN") ≡ false)
unfolding has_prefix
commit_word [] h = cc
commit_word (c ∷ cs) h = (ground (arith, h), ground (arith, h))

rollback_word :
    (t : Text)
    → has_prefix t (codes "ROLLBACK") ≡ true
    → (has_prefix t (codes "ANALYZE") ≡ false)
      × (has_prefix t (codes "BEGIN") ≡ false)
      × (has_prefix t (codes "COMMIT") ≡ false)
unfolding has_prefix
rollback_word [] h = cc
rollback_word (c ∷ cs) h = (ground (arith, h), ground (arith, h), ground (arith, h))

module _ {ℓ} {S R : Type ℓ} (engine : Engine S R) (s : Session S) (raw : Text) where
  -- The session after a transaction has ended in the state `final`.
  abbrev pub ended : TxState → WalManager → Session S
  ended final wal = record s {
    wal = wal;
    transactions = (finish final s.transactions s.current).0;
    locks = release_transaction_locks s.locks s.current;
    current = 0;
  }

  run_end-ended :
      (final : TxState) (log : WalManager → ℤ → WalManager)
      → Agrees s
      → s.current ≢ 0
      → run_end engine (finish final) log s
        ≡ (ended final (flush (log s.wal (pos s.current))), ok [])
  unfolding run_end
  run_end-ended final log c n =
      let works = finish-ok final s.transactions s.current (c.opened n) in
      let apart : (s.current == 0) ≡ false = ground (arith, n, ==_iff s.current 0) in
      rw (apart, works, run_end) refl

-- A COMMIT in a transaction always succeeds: afterwards the session has no transaction, the transaction
-- is committed and its locks are released. The log file has got all that was buffered, and at its end
-- the line that says COMMIT, if the stream of the log is good; else it is as it was.
pub commit_succeeds {ℓ} :
    {S R : Type ℓ} (engine : Engine S R) (s : Session S) (raw : Text)
    → has_prefix (trim raw) (codes "COMMIT") ≡ true
    → Agrees s
    → s.current ≢ 0
    → (s' : Session S) × (execute_query engine s raw ≡ (s', ok []))
      × (s'.current ≡ 0)
      × (get_state s'.transactions s.current ≡ ok committed)
      × (s'.locks ≡ release_transaction_locks s.locks s.current)
      × (s'.wal.file ≡ (
          if s.wal.out_good
          then s.wal.file
            ++ (s.wal.buffer ++ ((codes "COMMIT," ++ to_string (pos s.current)) ++ 10 ∷ []))
          else s.wal.file))
unfolding execute_query commit_transaction
commit_succeeds engine s raw word c n =
    let (a, b) = commit_word (trim raw) word in
    let wal = flush (log_commit s.wal (pos s.current)) in
    (
      ended engine s raw committed wal,
      rw (a, b, word, execute_query) (run_end-ended engine s raw committed log_commit c n),
      refl,
      finish-state committed s.transactions s.current (c.opened n),
      refl,
      flush-log_commit s.wal (pos s.current),
    )

-- A ROLLBACK in a transaction succeeds: the transaction is aborted and its locks are released. The
-- storage is left as it is: what the transaction has changed is not undone.
pub rollback_keeps_store {ℓ} :
    {S R : Type ℓ} (engine : Engine S R) (s : Session S) (raw : Text)
    → has_prefix (trim raw) (codes "ROLLBACK") ≡ true
    → Agrees s
    → s.current ≢ 0
    → (s' : Session S) × (execute_query engine s raw ≡ (s', ok []))
      × (get_state s'.transactions s.current ≡ ok aborted)
      × (s'.locks ≡ release_transaction_locks s.locks s.current)
      × (s'.store ≡ s.store)
unfolding execute_query abort_transaction
rollback_keeps_store engine s raw word c n =
    let (a, b, d) = rollback_word (trim raw) word in
    let wal = flush (log_abort s.wal (pos s.current)) in
    (
      ended engine s raw aborted wal,
      rw (a, b, d, word, execute_query) (run_end-ended engine s raw aborted log_abort c n),
      finish-state aborted s.transactions s.current (c.opened n),
      refl,
      refl,
    )
