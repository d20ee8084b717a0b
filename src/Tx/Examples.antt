-- ===== src/Tx/Examples.antt =====
-- Runs of the transaction manager, and its theorems at inputs that meet their hypotheses.
use sql_engine.Base.{
  ◌≡◌, refl, ◌≢◌, ok, err, List, [], ◌∷◌, arith, ◌↔◌, ◌==◌, if◌then◌else◌, invalid_transaction,
}
use sql_engine.Tx.{
  TxCall, begins, commits, aborts, committed, active, init, get_state, tx_run, tx_step,
  begin_transaction, commit_transaction, abort_transaction,
}
use sql_engine.Base.Assoc.{find, insert}
use sql_engine.Tx.States.{begin_fresh, finish_iff, commit_states, finished_stays}

abbrev history : List TxCall
history = begins ∷ begins ∷ commits 1 ∷ []

history_states :
    (get_state (tx_run init history) 1 ≡ ok committed)
    × (get_state (tx_run init history) 2 ≡ ok active)
    × (get_state (tx_run init history) 3 ≡ err invalid_transaction)
unfolding tx_run tx_step get_state begin_transaction commit_transaction find insert
history_states = (refl, refl, refl)

committed_is_final : committed ≢ active
committed_is_final e = cc

begin_fresh_example :
    let m = tx_run init history in
    let (m', tx) = begin_transaction m in
    (tx ≢ 0)
    × (get_state m tx ≡ err invalid_transaction)
    × (get_state m' tx ≡ ok active)
    × (get_state m' 1 ≡ get_state m 1)
unfolding tx_run tx_step begin_transaction commit_transaction find insert
begin_fresh_example = begin_fresh history 1 (omega arith)

finish_of_second :
    (((commit_transaction (tx_run init history) 2).1 ≡ ok tt)
      ↔ (get_state (tx_run init history) 2 ≡ ok active))
    × (((abort_transaction (tx_run init history) 2).1 ≡ ok tt)
        ↔ (get_state (tx_run init history) 2 ≡ ok active))
finish_of_second = finish_iff (tx_run init history) 2

commit_of_second :
    get_state (commit_transaction (tx_run init history) 2).0 1
    ≡ elim (commit_transaction (tx_run init history) 2).1 [
      | ok _ ↦ if 2 == 1 then ok committed else get_state (tx_run init history) 1
      | err _ ↦ get_state (tx_run init history) 1
    ]
commit_of_second = commit_states (tx_run init history) 2 1

finished_stays_example :
    get_state (tx_run (tx_run init history) (aborts 1 ∷ begins ∷ [])) 1 ≡ ok committed
finished_stays_example =
    finished_stays history (aborts 1 ∷ begins ∷ []) 1 committed committed_is_final history_states.0
