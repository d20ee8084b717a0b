-- ===== src/Session/Control.antt =====
-- The transaction of a session of queryEngine/lockOptimized/QueryEngine.cpp.
use sql_engine.Base.{
  ℕ, Bool, true, false, ◌==◌, ==_iff, List, [], ◌∷◌, Text, codes, ℤ, ◌≡◌, ◌≢◌, refl, sym, subst,
  if◌then◌else◌, Result, Result-cases, ok, drop, Bool-cases, inl, inr, arith,
}
use sql_engine.Base.Equality.{nat_eq}
use sql_engine.Base.Assoc.{find-insert}
use sql_engine.Ast.{Ast, select, insert, update, delete, create_table, begin, commit}
use sql_engine.Tx.{
  TxManager, TxState, active, committed, aborted, begin_transaction, finish, commit_transaction,
  abort_transaction, get_state,
}
use sql_engine.Tx.States.{IsValid, finish-IsValid, begin-IsValid}
use sql_engine.Wal.{WalManager, log_commit, log_abort}
use sql_engine.Session.{
  Session, Engine, analyze_table, run_change, run_bound, trim, has_prefix, run_analyze, run_begin,
  run_end, run_statement, execute_query, session_run,
}

-- The transaction manager and currentTxId_ agree: the transaction of the session is active, and no
-- other is.
pub record IsConsistent (m : TxManager) (current : ℕ) : Type 0 where
  pub valid : IsValid m
  pub opened : current ≢ 0 → get_state m current ≡ ok active
  pub only : (tx : ℕ) → get_state m tx ≡ ok active → (tx ≡ current) × (current ≢ 0)

pub begin-IsConsistent :
    (m : TxManager)
    → IsConsistent m 0
    → IsConsistent (begin_transaction m).0 (begin_transaction m).1
unfolding begin_transaction get_state
begin-IsConsistent m c = record {
  valid = begin-IsValid m c.valid;
  opened = λ n. ground (arith, find-insert m.next_tx_id m.next_tx_id active m.tx_table);
  only = λ tx h. elim (Bool-cases (m.next_tx_id == tx)) [
    | inl e ↦ (sym ((==_iff m.next_tx_id tx).0 e), omega (arith, c.valid.positive))
    | inr e ↦
        absurd (ground (arith, e, h, find-insert m.next_tx_id tx active m.tx_table, c.only tx))
  ];
}

pub finish-IsConsistent :
    (final : TxState) (m : TxManager) (current : ℕ)
    → final ≢ active
    → IsConsistent m current
    → (finish final m current).1 ≡ ok tt
    → IsConsistent (finish final m current).0 0
unfolding finish get_state
finish-IsConsistent final m current n c h = record {
  valid = finish-IsValid final m current c.valid;
  opened = λ z. absurd (z refl);
  only = λ tx a. absurd (
      ground
        (arith, find-insert current tx final m.tx_table, ==_iff current tx, c.only tx, n, a, h));
}

pub finish-ok :
    (final : TxState) (m : TxManager) (current : ℕ)
    → get_state m current ≡ ok active
    → (finish final m current).1 ≡ ok tt
unfolding finish get_state
finish-ok final m current h = ground (arith, h)

abbrev pub Agrees {ℓ} : {S : Type ℓ} → Session S → Type 0
Agrees s = IsConsistent s.transactions s.current

module _ {ℓ} {S R : Type ℓ} (engine : Engine S R) where
  analyze_table-Agrees :
      (s : Session S) (rest : Text) → Agrees s → Agrees (analyze_table engine s rest).0
  unfolding analyze_table
  analyze_table-Agrees s [] c = c
  analyze_table-Agrees s (x ∷ xs) c = c

  run_analyze-Agrees : (s : Session S) (sql : Text) → Agrees s → Agrees (run_analyze engine s sql).0
  unfolding run_analyze
  run_analyze-Agrees s sql c =
      let after = trim (drop 7 sql) in
      analyze_table-Agrees s
        (if has_prefix after (codes "TABLE") then trim (drop 5 after) else after) c

  run_begin-Agrees : (s : Session S) → Agrees s → Agrees (run_begin engine s).0
  unfolding run_begin
  run_begin-Agrees s c = elim (Bool-cases (s.current == 0)) [
    | inr e ↦ rw (e, run_begin) c
    | inl e ↦
        rw (e, run_begin)
          (begin-IsConsistent s.transactions
            (subst (IsConsistent s.transactions) ((==_iff s.current 0).0 e) c))
  ]

  run_end-Agrees :
      (final : TxState) (log : WalManager → ℤ → WalManager) (s : Session S)
      → final ≢ active
      → Agrees s
      → Agrees (run_end engine (finish final) log s).0
  unfolding run_end
  run_end-Agrees final log s n c = elim (Bool-cases (s.current == 0)) [
    | inl e ↦ rw (e, run_end) c
    | inr e ↦
        let works =
          finish-ok final s.transactions s.current
            (c.opened (ground (arith, e, ==_iff s.current 0))) in
        rw (e, works, run_end) (finish-IsConsistent final s.transactions s.current n c works)
  ]

  run_change-Agrees : (s : Session S) (ast : Ast) → Agrees s → Agrees (run_change engine s ast).0
  unfolding run_change
  run_change-Agrees s ast c = elim (Bool-cases (s.current == 0)) [
    | inl e ↦ rw (e, run_change) c
    | inr e ↦ rw (e, run_change) c
  ]

  run_bound-Agrees : (s : Session S) (ast : Ast) → Agrees s → Agrees (run_bound engine s ast).0
  unfolding run_bound
  run_bound-Agrees s (select q) c = c
  run_bound-Agrees s (insert q) c = run_change-Agrees s (insert q) c
  run_bound-Agrees s (update q) c = run_change-Agrees s (update q) c
  run_bound-Agrees s (delete q) c = run_change-Agrees s (delete q) c
  run_bound-Agrees s (create_table q) c = c
  run_bound-Agrees s begin c = c
  run_bound-Agrees s commit c = c

  run_statement-Agrees :
      (s : Session S) (sql : Text) → Agrees s → Agrees (run_statement engine s sql).0
  unfolding run_statement
  run_statement-Agrees s sql c = elim (Result-cases (engine.parse sql)) [
    | inl (x, e) ↦ rw (e, run_statement) c
    | inr (parsed, e) ↦ elim (Result-cases (engine.bind s.store parsed)) [
      | inl (x, k) ↦ rw (e, k, run_statement) c
      | inr (ast, k) ↦ rw (e, k, run_statement) (run_bound-Agrees s ast c)
    ]
  ]

  -- A test of the first word.
  either_way :
      (b : Bool) (x y : Session S × Result (List R))
      → Agrees x.0
      → Agrees y.0
      → Agrees (if b then x else y).0
  either_way true x y p q = p
  either_way false x y p q = q

  execute_query-Agrees :
      (s : Session S) (sql : Text) → Agrees s → Agrees (execute_query engine s sql).0
  unfolding execute_query commit_transaction abort_transaction
  execute_query-Agrees s raw c =
      let sql = trim raw in
      either_way (has_prefix sql (codes "ANALYZE")) _ _ (run_analyze-Agrees s sql c) (
        either_way (has_prefix sql (codes "BEGIN")) _ _ (run_begin-Agrees s c) (
          either_way (has_prefix sql (codes "COMMIT")) _ _
            (run_end-Agrees committed log_commit s (λ e. cc) c)
            (either_way (has_prefix sql (codes "ROLLBACK")) _ _
              (run_end-Agrees aborted log_abort s (λ e. cc) c) (run_statement-Agrees s sql c))))

  -- Whatever texts a client sends, and whichever of them throw: the transaction manager and the session
  -- agree, so that the transaction of the session is active and no other is. It starts with no
  -- transaction, or in such a state.
  pub session_run-Agrees :
      (s : Session S) (texts : List Text) → Agrees s → Agrees (session_run engine s texts)
  unfolding session_run
  session_run-Agrees s [] c = c
  session_run-Agrees s (sql ∷ rest) c =
      session_run-Agrees (execute_query engine s sql).0 rest (execute_query-Agrees s sql c)
