-- ===== src/Session/Plain.antt =====
-- queryEngine/QueryEngine.h and QueryEngine.cpp: the session without locks and log. Its AST, which has
-- a ROLLBACK, is not that of catalog/AST.h, and the optimizer that it calls is not in the repository:
-- statements, and the plans and their execution, are parameters.
use sql_engine.Base.{
  ℕ, Bool, true, false, ◌==◌, ==_iff, ◌&&◌, List, [], ◌∷◌, Text, ◌≢◌, subst, if◌then◌else◌, Result,
  Result-cases, ok, err, Bool-cases, inl, inr, arith, nested_transaction, no_transaction,
  dml_outside,
}
use sql_engine.Tx.{
  TxManager, TxState, committed, aborted, begin_transaction, finish, commit_transaction,
  abort_transaction,
}
use sql_engine.Session.Control.{IsConsistent, begin-IsConsistent, finish-IsConsistent, finish-ok}

pub data StmtType : Type 0 where
  select_type insert_type update_type delete_type : StmtType
  create_type begin_type commit_type rollback_type : StmtType

-- The members of the engine that its calls change: `store` is what the storage engine and the catalog
-- hold, `current` is currentTxId_, 0 outside a transaction.
pub record PlainSession {ℓ} (S : Type ℓ) : Type ℓ where
  pub store : S
  pub transactions : TxManager
  pub current : ℕ

-- What it calls, for statements A and rows R: parse and bind, and the plans and their execution.
pub record Stages {ℓ} (A S R : Type ℓ) : Type ℓ where
  pub parse : Text → Result A
  pub type_of : A → StmtType
  pub bind : S → A → Result A
  pub run : S → A → S × Result (List R)

abbrev pub is_dml : StmtType → Bool
is_dml insert_type = true
is_dml update_type = true
is_dml delete_type = true
is_dml _ = false

module _ {ℓ} {A S R : Type ℓ} (stages : Stages A S R) where
  abbrev pub Answer : Type ℓ
  Answer = PlainSession S × Result (List R)

  unfoldable pub handle_begin : PlainSession S → Answer
  handle_begin s =
      if s.current == 0
      then (let (m, tx) = begin_transaction s.transactions in
          (record s { transactions = m; current = tx }, ok []))
      else (s, err nested_transaction)

  -- handleCommit with commitTransaction, handleRollback with abortTransaction.
  unfoldable pub handle_end :
      (TxManager → ℕ → TxManager × Result (Unit {0})) → PlainSession S → Answer
  handle_end end_transaction s =
      if s.current == 0
      then (s, err no_transaction)
      else (let (m, r) = end_transaction s.transactions s.current in
          elim r [
            | err e ↦ (record s { transactions = m }, err e)
            | ok u ↦ (record s { transactions = m; current = 0 }, ok [])
          ])

  -- A statement that is no transaction control.
  unfoldable pub run_statement : PlainSession S → A → Answer
  run_statement s parsed = elim (stages.bind s.store parsed) [
    | err e ↦ (s, err e)
    | ok ast ↦
        if is_dml (stages.type_of ast) && s.current == 0
        then (s, err dml_outside)
        else (let (store, r) = stages.run s.store ast in (record s { store = store }, r))
  ]

  unfoldable pub run_type : PlainSession S → A → StmtType → Answer
  unfolding handle_begin handle_end run_statement
  run_type s ast begin_type = handle_begin s
  run_type s ast commit_type = handle_end commit_transaction s
  run_type s ast rollback_type = handle_end abort_transaction s
  run_type s ast select_type = run_statement s ast
  run_type s ast insert_type = run_statement s ast
  run_type s ast update_type = run_statement s ast
  run_type s ast delete_type = run_statement s ast
  run_type s ast create_type = run_statement s ast

  unfoldable pub execute_query : PlainSession S → Text → Answer
  unfolding run_type
  execute_query s sql = elim (stages.parse sql) [
    | err e ↦ (s, err e)
    | ok ast ↦ run_type s ast (stages.type_of ast)
  ]

  -- The statements of a client, also behind one that throws.
  unfoldable pub plain_run : PlainSession S → List Text → PlainSession S
  unfolding execute_query
  plain_run s [] = s
  plain_run s (sql ∷ rest) = plain_run (execute_query s sql).0 rest

  abbrev pub IsSteady : PlainSession S → Type 0
  IsSteady s = IsConsistent s.transactions s.current

  handle_begin-IsSteady : (s : PlainSession S) → IsSteady s → IsSteady (handle_begin s).0
  unfolding handle_begin
  handle_begin-IsSteady s c = elim (Bool-cases (s.current == 0)) [
    | inr e ↦ rw (e, handle_begin) c
    | inl e ↦
        rw (e, handle_begin)
          (begin-IsConsistent s.transactions
            (subst (IsConsistent s.transactions) ((==_iff s.current 0).0 e) c))
  ]

  handle_end-IsSteady :
      (final : TxState) (s : PlainSession S)
      → final ≢ TxState.active
      → IsSteady s
      → IsSteady (handle_end (finish final) s).0
  unfolding handle_end
  handle_end-IsSteady final s n c = elim (Bool-cases (s.current == 0)) [
    | inl e ↦ rw (e, handle_end) c
    | inr e ↦
        let works =
          finish-ok final s.transactions s.current
            (c.opened (ground (arith, e, ==_iff s.current 0))) in
        rw (e, works, handle_end) (finish-IsConsistent final s.transactions s.current n c works)
  ]

  run_statement-IsSteady :
      (s : PlainSession S) (ast : A) → IsSteady s → IsSteady (run_statement s ast).0
  unfolding run_statement
  run_statement-IsSteady s parsed c = elim (Result-cases (stages.bind s.store parsed)) [
    | inl (x, e) ↦ rw (e, run_statement) c
    | inr (ast, e) ↦ elim (Bool-cases (is_dml (stages.type_of ast) && s.current == 0)) [
      | inl d ↦ rw (e, d, run_statement) c
      | inr d ↦ rw (e, d, run_statement) c
    ]
  ]

  run_type-IsSteady :
      (s : PlainSession S) (ast : A) (type : StmtType)
      → IsSteady s
      → IsSteady (run_type s ast type).0
  unfolding run_type commit_transaction abort_transaction
  run_type-IsSteady s ast begin_type c = handle_begin-IsSteady s c
  run_type-IsSteady s ast commit_type c = handle_end-IsSteady committed s (λ e. cc) c
  run_type-IsSteady s ast rollback_type c = handle_end-IsSteady aborted s (λ e. cc) c
  run_type-IsSteady s ast select_type c = run_statement-IsSteady s ast c
  run_type-IsSteady s ast insert_type c = run_statement-IsSteady s ast c
  run_type-IsSteady s ast update_type c = run_statement-IsSteady s ast c
  run_type-IsSteady s ast delete_type c = run_statement-IsSteady s ast c
  run_type-IsSteady s ast create_type c = run_statement-IsSteady s ast c

  execute_query-IsSteady :
      (s : PlainSession S) (sql : Text) → IsSteady s → IsSteady (execute_query s sql).0
  unfolding execute_query
  execute_query-IsSteady s sql c = elim (Result-cases (stages.parse sql)) [
    | inl (x, e) ↦ rw (e, execute_query) c
    | inr (ast, e) ↦ rw (e, execute_query) (run_type-IsSteady s ast (stages.type_of ast) c)
  ]

  -- Whatever texts a client sends to a session without locks, and whichever of them throw: the
  -- transaction manager and the session agree, so that the transaction of the session is active and no
  -- other is. It starts with no transaction, or in such a state.
  pub plain_run-IsSteady :
      (s : PlainSession S) (texts : List Text) → IsSteady s → IsSteady (plain_run s texts)
  unfolding plain_run
  plain_run-IsSteady s [] c = c
  plain_run-IsSteady s (sql ∷ rest) c =
      plain_run-IsSteady (execute_query s sql).0 rest (execute_query-IsSteady s sql c)
