-- ===== src/Tx/States.antt =====
-- The life of a transaction in transactionManager/TransactionManager.cpp.
use sql_engine.Base.{
  ℕ, ◌<◌, ◌≡◌, ◌≢◌, ◌↔◌, some, List, [], ◌∷◌, arith, ◌==◌, if◌then◌else◌, ok, err,
  invalid_transaction,
}
use sql_engine.Base.Equality.{nat_eq}
use sql_engine.Base.Assoc.{find, find-insert}
use sql_engine.Tx.{
  TxState, active, committed, aborted, TxManager, init, begin_transaction, finish,
  commit_transaction, abort_transaction, get_state, TxCall, begins, commits, aborts, tx_step,
  tx_run,
}

-- Ids that were never handed out are not in the table.
pub record IsValid (m : TxManager) : Type 0 where
  pub positive : 0 < m.next_tx_id
  pub bounded : (tx : ℕ) (s : TxState) → find tx m.tx_table ≡ some s → tx < m.next_tx_id

pub init-IsValid : IsValid init
unfolding find
init-IsValid = record { positive = omega arith; bounded = λ tx s h. cc }

pub begin-IsValid : (m : TxManager) → IsValid m → IsValid (begin_transaction m).0
unfolding begin_transaction
begin-IsValid m v = record {
  positive = omega (arith, v.positive);
  bounded = λ tx s h. ground (arith, find-insert m.next_tx_id tx active m.tx_table, v.bounded tx s);
}

pub finish-IsValid :
    (final : TxState) (m : TxManager) (tx : ℕ) → IsValid m → IsValid (finish final m tx).0
unfolding finish
finish-IsValid final m tx v = record {
  positive = ground (arith, v.positive);
  bounded = λ k s h.
      ground (arith, find-insert tx k final m.tx_table, v.bounded k s, v.bounded tx active);
}

pub tx_step-IsValid : (m : TxManager) (c : TxCall) → IsValid m → IsValid (tx_step m c)
unfolding tx_step commit_transaction abort_transaction
tx_step-IsValid m begins v = begin-IsValid m v
tx_step-IsValid m (commits tx) v = finish-IsValid committed m tx v
tx_step-IsValid m (aborts tx) v = finish-IsValid aborted m tx v

pub tx_run-IsValid : (m : TxManager) (cs : List TxCall) → IsValid m → IsValid (tx_run m cs)
unfolding tx_run
tx_run-IsValid m [] v = v
tx_run-IsValid m (c ∷ cs) v = tx_run-IsValid (tx_step m c) cs (tx_step-IsValid m c v)

-- After any history, a new transaction gets an id that is not 0 and that no transaction had, it is
-- active, and the state of every other id is as before.
pub begin_fresh :
    (cs : List TxCall) (other : ℕ)
    → other ≢ (begin_transaction (tx_run init cs)).1
    → let m = tx_run init cs in
      let (m', tx) = begin_transaction m in
      (tx ≢ 0)
      × (get_state m tx ≡ err invalid_transaction)
      × (get_state m' tx ≡ ok active)
      × (get_state m' other ≡ get_state m other)
unfolding begin_transaction get_state
begin_fresh cs other h =
    let m = tx_run init cs in
    let v = tx_run-IsValid init cs init-IsValid in
    ground (
      arith,
      v.positive,
      find-insert m.next_tx_id m.next_tx_id active m.tx_table,
      find-insert m.next_tx_id other active m.tx_table,
      v.bounded m.next_tx_id active,
      v.bounded m.next_tx_id committed,
      v.bounded m.next_tx_id aborted,
    )

-- COMMIT and ROLLBACK succeed exactly on active transactions.
pub finish_iff :
    (m : TxManager) (tx : ℕ)
    → (((commit_transaction m tx).1 ≡ ok tt) ↔ (get_state m tx ≡ ok active))
      × (((abort_transaction m tx).1 ≡ ok tt) ↔ (get_state m tx ≡ ok active))
unfolding commit_transaction abort_transaction get_state
finish_iff m tx = (ground arith, ground arith)

-- What a commit leaves behind: the transaction is committed if it was active, and the state of
-- every transaction is as before if the commit is refused.
pub commit_states :
    (m : TxManager) (tx other : ℕ)
    → get_state (commit_transaction m tx).0 other ≡ elim (commit_transaction m tx).1 [
      | ok _ ↦ if tx == other then ok committed else get_state m other
      | err _ ↦ get_state m other
    ]
unfolding commit_transaction get_state
commit_states m tx other = ground (arith, find-insert tx other committed m.tx_table)

step_final :
    (m : TxManager) (c : TxCall) (tx : ℕ) (s : TxState)
    → IsValid m
    → s ≢ active
    → get_state m tx ≡ ok s
    → get_state (tx_step m c) tx ≡ ok s
unfolding tx_step begin_transaction commit_transaction abort_transaction get_state
step_final m begins tx s v n h =
    ground (arith, find-insert m.next_tx_id tx active m.tx_table, v.bounded tx s)
step_final m (commits k) tx s v n h = ground (arith, find-insert k tx committed m.tx_table)
step_final m (aborts k) tx s v n h = ground (arith, find-insert k tx aborted m.tx_table)

run_final :
    (m : TxManager) (cs : List TxCall) (tx : ℕ) (s : TxState)
    → IsValid m
    → s ≢ active
    → get_state m tx ≡ ok s
    → get_state (tx_run m cs) tx ≡ ok s
unfolding tx_run
run_final m [] tx s v n h = h
run_final m (c ∷ cs) tx s v n h =
    run_final (tx_step m c) cs tx s (tx_step-IsValid m c v) n (step_final m c tx s v n h)

-- A transaction that has committed or aborted stays so, whatever calls follow.
pub finished_stays :
    (before after : List TxCall) (tx : ℕ) (s : TxState)
    → s ≢ active
    → get_state (tx_run init before) tx ≡ ok s
    → get_state (tx_run (tx_run init before) after) tx ≡ ok s
finished_stays before after tx s n h =
    run_final (tx_run init before) after tx s (tx_run-IsValid init before init-IsValid) n h
