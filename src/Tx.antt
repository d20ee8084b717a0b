-- ===== src/Tx.antt =====
-- transactionManager/TransactionManager.h and TransactionManager.cpp: ids and states of
-- transactions. The 64-bit counter is a number: it does not wrap here.
pub mod States
mod Examples
use sql_engine.Base.{
  ℕ, ◌+◌, List, [], ◌∷◌, Option, none, some, Result, ok, err, invalid_transaction, not_active,
}
use sql_engine.Base.Equality.{nat_eq}
use sql_engine.Base.Assoc.{Map, find, insert}

pub data TxState : Type 0 where
  active committed aborted : TxState

pub record TxManager : Type 0 where
  pub next_tx_id : ℕ
  pub tx_table : Map ℕ TxState

abbrev pub init : TxManager
init = record { next_tx_id = 1; tx_table = [] }

unfoldable pub begin_transaction : TxManager → TxManager × ℕ
begin_transaction m = (
  record { next_tx_id = m.next_tx_id + 1; tx_table = insert m.next_tx_id active m.tx_table },
  m.next_tx_id,
)

-- The common shape of commitTransaction and abortTransaction: `final` is the state that is set.
unfoldable pub finish : TxState → TxManager → ℕ → TxManager × Result (Unit {0})
finish final m tx = elim (find tx m.tx_table) [
  | none ↦ (m, err invalid_transaction)
  | some active ↦ (record m { tx_table = insert tx final m.tx_table }, ok tt)
  | some _ ↦ (m, err not_active)
]

unfoldable pub commit_transaction : TxManager → ℕ → TxManager × Result (Unit {0})
unfolding finish
commit_transaction = finish committed

unfoldable pub abort_transaction : TxManager → ℕ → TxManager × Result (Unit {0})
unfolding finish
abort_transaction = finish aborted

unfoldable pub get_state : TxManager → ℕ → Result TxState
get_state m tx = elim (find tx m.tx_table) [ none ↦ err invalid_transaction | some s ↦ ok s ]

-- The calls that change the state, and histories of them.
pub data TxCall : Type 0 where
  begins : TxCall
  commits aborts : ℕ → TxCall

unfoldable pub tx_step : TxManager → TxCall → TxManager
tx_step m begins = (begin_transaction m).0
tx_step m (commits tx) = (commit_transaction m tx).0
tx_step m (aborts tx) = (abort_transaction m tx).0

unfoldable pub tx_run : TxManager → List TxCall → TxManager
tx_run m [] = m
tx_run m (c ∷ cs) = tx_run (tx_step m c) cs
