-- ===== src/Lock.antt =====
-- lockManager/LockManager.h and LockManager.cpp: shared and exclusive locks on named resources.
-- The mutex makes each call atomic, so a history of the manager is a sequence of calls. A method
-- returns the table that it leaves behind and its result, since a call that throws may already have
-- made an entry (`table_[resource]`). Transaction ids are numbers, and 0 stands for none.
pub mod Exclusion
pub mod Release
mod Examples
use sql_engine.Base.{
  ℕ, Bool, true, false, not, ◌&&◌, Option, none, some, List, [], ◌∷◌, Text, ◌==◌, if◌then◌else◌,
  Result, ok, err, lock_conflict,
}
use sql_engine.Base.Equality.{text_eq}
use sql_engine.Base.Assoc.{Map, find, insert, erase}

pub record LockInfo : Type 0 where
  pub x_holder : ℕ
  pub s_holders : List ℕ

abbrev pub LockTable : Type 0
LockTable = Map Text LockInfo

-- `LockInfo` as default-constructed.
abbrev pub no_lock : LockInfo
no_lock = record { x_holder = 0; s_holders = [] }

-- `auto &info = table_[resource]`: the entry, made if it is missing.
abbrev pub info_at : LockTable → Text → LockInfo
info_at table resource = elim (find resource table) [ none ↦ no_lock | some info ↦ info ]

-- sHolders.insert(txId)
unfoldable pub holder_insert : ℕ → List ℕ → List ℕ
holder_insert tx [] = tx ∷ []
holder_insert tx (s ∷ ss) = if s == tx then s ∷ ss else s ∷ holder_insert tx ss

-- sHolders.erase(txId)
unfoldable pub holder_erase : ℕ → List ℕ → List ℕ
holder_erase tx [] = []
holder_erase tx (s ∷ ss) = let rest = holder_erase tx ss in if s == tx then rest else s ∷ rest

-- The first holder in the order of iteration that is not `tx`.
unfoldable pub other_holder : ℕ → List ℕ → Option ℕ
other_holder tx [] = none
other_holder tx (s ∷ ss) = if s == tx then other_holder tx ss else some s

-- `info.xHolder != 0 && info.xHolder != txId`
abbrev pub x_conflict : ℕ → LockInfo → Bool
x_conflict tx info = not (info.x_holder == 0) && not (info.x_holder == tx)

unfoldable pub lock_shared : LockTable → ℕ → Text → LockTable × Result (Unit {0})
unfolding holder_insert
lock_shared table tx resource =
    let info = info_at table resource in
    if x_conflict tx info
    then (insert resource info table, err (lock_conflict resource info.x_holder))
    else (
      insert resource (record info { s_holders = holder_insert tx info.s_holders }) table,
      ok tt,
    )

unfoldable pub lock_exclusive : LockTable → ℕ → Text → LockTable × Result (Unit {0})
unfolding holder_erase other_holder
lock_exclusive table tx resource =
    let info = info_at table resource in
    if x_conflict tx info
    then (insert resource info table, err (lock_conflict resource info.x_holder))
    else elim (other_holder tx info.s_holders) [
      | some other ↦ (insert resource info table, err (lock_conflict resource other))
      | none ↦ (
        insert resource (record { x_holder = tx; s_holders = holder_erase tx info.s_holders })
            table,
        ok tt,
      )
    ]

-- `info` without the locks of `tx`
unfoldable pub drop_holder : ℕ → LockInfo → LockInfo
unfolding holder_erase
drop_holder tx info = record {
  x_holder = if info.x_holder == tx then 0 else info.x_holder;
  s_holders = holder_erase tx info.s_holders;
}

-- `info.xHolder == 0 && info.sHolders.empty()`
unfoldable pub is_free : LockInfo → Bool
is_free info = info.x_holder == 0 && (elim info.s_holders [ [] ↦ true | s ∷ ss ↦ false ])

unfoldable pub unlock : LockTable → ℕ → Text → LockTable
unfolding drop_holder is_free
unlock table tx resource = elim (find resource table) [
  | none ↦ table
  | some info ↦
      if is_free (drop_holder tx info)
      then erase resource table
      else insert resource (drop_holder tx info) table
]

unfoldable pub release_transaction_locks : LockTable → ℕ → LockTable
unfolding drop_holder is_free
release_transaction_locks [] tx = []
release_transaction_locks ((resource, info) ∷ table) tx =
    let rest = release_transaction_locks table tx in
    if is_free (drop_holder tx info) then rest else (resource, drop_holder tx info) ∷ rest

-- The calls of the public interface, and histories of them. A call that throws leaves its table.
pub data LockCall : Type 0 where
  lock_s lock_x unlock_one : ℕ → Text → LockCall
  release_all : ℕ → LockCall

unfoldable pub lock_step : LockTable → LockCall → LockTable
lock_step table (lock_s tx resource) = (lock_shared table tx resource).0
lock_step table (lock_x tx resource) = (lock_exclusive table tx resource).0
lock_step table (unlock_one tx resource) = unlock table tx resource
lock_step table (release_all tx) = release_transaction_locks table tx

unfoldable pub lock_run : LockTable → List LockCall → LockTable
lock_run table [] = table
lock_run table (c ∷ cs) = lock_run (lock_step table c) cs
