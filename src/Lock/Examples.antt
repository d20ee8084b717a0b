-- ===== src/Lock/Examples.antt =====
-- Runs of the lock manager, and its theorems at inputs that meet their hypotheses.
use sql_engine.Base.{
  ◌≡◌, refl, ◌≢◌, ◌↔◌, ◌⊎◌, ok, err, List, [], ◌∷◌, arith, Text, codes, lock_conflict, All, false,
}
use sql_engine.Base.Assoc.{find, insert}
use sql_engine.Lock.{
  LockCall, lock_s, lock_x, lock_run, lock_step, lock_shared, lock_exclusive, unlock,
  release_transaction_locks, info_at, drop_holder,
}
use sql_engine.Lock.Exclusion.{IsExclusive, lock_run-IsExclusive}
use sql_engine.Lock.Release.{
  shares, lock_result, lock_shared_iff, lock_exclusive_iff, lock_refused, lock_exclusive_granted,
  release_lem, info_at-unlock,
}

abbrev users : Text
users = codes "table:users"

-- Transaction 1 reads, 2 reads, and neither can write until the other is done.
abbrev contended : List LockCall
contended = lock_s 1 users ∷ lock_s 2 users ∷ lock_x 1 users ∷ []

contended_locks :
    info_at (lock_run [] contended) users ≡ record { x_holder = 0; s_holders = 1 ∷ 2 ∷ [] }
unfolding lock_run lock_step lock_shared lock_exclusive find insert
contended_locks = refl

contended_refused :
    lock_result (lock_run [] contended) (lock_x 2 users) ≡ err (lock_conflict users 1)
unfolding lock_run lock_step lock_result lock_shared lock_exclusive find insert
contended_refused = refl

upgraded :
    info_at (lock_run [] (lock_s 1 users ∷ lock_x 1 users ∷ [])) users
    ≡ record { x_holder = 1; s_holders = [] }
unfolding lock_run lock_step lock_shared lock_exclusive find insert
upgraded = refl

lock_run-IsExclusive_example : IsExclusive (info_at (lock_run [] contended) users)
lock_run-IsExclusive_example = lock_run-IsExclusive contended users

shared_grant : ((lock_shared (lock_run [] contended) 2 users).1 ≡ ok tt) ↔ (
    ((info_at (lock_run [] contended) users).x_holder ≡ 0)
    ⊎ ((info_at (lock_run [] contended) users).x_holder ≡ 2))
shared_grant = lock_shared_iff (lock_run [] contended) 2 users

lock_exclusive_iff_run : ((lock_exclusive (lock_run [] contended) 2 users).1 ≡ ok tt) ↔ (
    (((info_at (lock_run [] contended) users).x_holder ≡ 0)
      ⊎ ((info_at (lock_run [] contended) users).x_holder ≡ 2))
    × All (λ s. s ≡ 2) (info_at (lock_run [] contended) users).s_holders)
lock_exclusive_iff_run = lock_exclusive_iff (lock_run [] contended) 2 users

unlocked :
    info_at (unlock (lock_run [] contended) 1 users) users
    ≡ drop_holder 1 (info_at (lock_run [] contended) users)
unlocked = info_at-unlock (lock_run [] contended) 1 users users

lock_refused_run :
    info_at (lock_step (lock_run [] contended) (lock_x 2 users)) users
    ≡ info_at (lock_run [] contended) users
lock_refused_run =
    lock_refused (lock_run [] contended) (lock_x 2 users) users (λ e. cc contended_refused)

alone : (lock_exclusive [] 7 users).1 ≡ ok tt
unfolding lock_exclusive find insert
alone = refl

granted_alone :
    info_at (lock_exclusive [] 7 users).0 users ≡ record { x_holder = 7; s_holders = [] }
granted_alone = lock_exclusive_granted [] 7 users users alone

release_lem_example :
    let before = info_at (lock_run [] contended) users in
    let after = info_at (release_transaction_locks (lock_run [] contended) 1) users in
    (after.x_holder ≢ 1)
    × (shares 1 after.s_holders ≡ false)
    × ((after.x_holder ≡ 2) ↔ (before.x_holder ≡ 2))
    × (shares 2 after.s_holders ≡ shares 2 before.s_holders)
release_lem_example = release_lem contended 1 2 users (omega arith) (omega arith) (omega arith)
