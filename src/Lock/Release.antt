-- ===== src/Lock/Release.antt =====
-- What each call of lockManager/LockManager.cpp does to the locks of every transaction, seen through
-- `info_at`.
use sql_engine.Base.{
  ℕ, Bool, true, false, ◌≡◌, refl, sym, ◌≢◌, ◌⊎◌, ◌↔◌, inl, inr, none, List, [], ◌∷◌, Text, arith,
  ◌==◌, ◌||◌, if◌then◌else◌, Option-cases, All, Result, ok,
}
use sql_engine.Base.Equality.{list_beq, list_beq_iff, text_eq}
use sql_engine.Base.Assoc.{find, erase, find-erase, IsUnique, insert-IsUnique, erase-IsUnique}
use sql_engine.Lock.{
  LockInfo, LockTable, LockCall, lock_s, lock_x, unlock_one, release_all, info_at, no_lock,
  holder_insert, holder_erase, other_holder, lock_shared, lock_exclusive, drop_holder, is_free,
  unlock, release_transaction_locks, lock_step, lock_run,
}
use sql_engine.Lock.Exclusion.{info_at-insert, holder_erase_others}

-- `tx` is among the shared holders.
abbrev pub shares : ℕ → List ℕ → Bool
shares tx [] = false
shares tx (s ∷ ss) = s == tx || shares tx ss

shares-holder_erase :
    (tx other : ℕ) (ss : List ℕ)
    → shares other (holder_erase tx ss) ≡ (if tx == other then false else shares other ss)
unfolding holder_erase
shares-holder_erase tx other [] = ground arith
shares-holder_erase tx other (s ∷ ss) = ground (arith, shares-holder_erase tx other ss)

other_holder_iff : (tx : ℕ) (ss : List ℕ) → (other_holder tx ss ≡ none) ↔ All (λ s. s ≡ tx) ss
unfolding other_holder
other_holder_iff tx [] = (λ h. tt, λ h. refl)
other_holder_iff tx (s ∷ ss) = ground (arith, other_holder_iff tx ss)

-- A shared lock is granted exactly when nobody else holds the resource exclusively.
pub lock_shared_iff :
    (t : LockTable) (tx : ℕ) (r : Text)
    → ((lock_shared t tx r).1 ≡ ok tt)
      ↔ (((info_at t r).x_holder ≡ 0) ⊎ ((info_at t r).x_holder ≡ tx))
unfolding lock_shared
lock_shared_iff t tx r = ground arith

-- An exclusive lock is granted exactly when nobody else holds the resource, in either mode.
pub lock_exclusive_iff :
    (t : LockTable) (tx : ℕ) (r : Text)
    → ((lock_exclusive t tx r).1 ≡ ok tt) ↔ (
        (((info_at t r).x_holder ≡ 0) ⊎ ((info_at t r).x_holder ≡ tx))
        × All (λ s. s ≡ tx) (info_at t r).s_holders)
unfolding lock_exclusive
lock_exclusive_iff t tx r = ground (arith, other_holder_iff tx (info_at t r).s_holders)

-- What a call hands back to its caller.
unfoldable pub lock_result : LockTable → LockCall → Result (Unit {0})
lock_result t (lock_s tx r) = (lock_shared t tx r).1
lock_result t (lock_x tx r) = (lock_exclusive t tx r).1
lock_result t (unlock_one tx r) = ok tt
lock_result t (release_all tx) = ok tt

-- A call that throws changes nobody's locks on any resource.
pub lock_refused :
    (t : LockTable) (c : LockCall) (j : Text)
    → lock_result t c ≢ ok tt
    → info_at (lock_step t c) j ≡ info_at t j
unfolding lock_result lock_step lock_shared lock_exclusive
lock_refused t (lock_s tx r) j h =
    ground (arith, info_at-insert r j (info_at t r) t, list_beq_iff r j)
lock_refused t (lock_x tx r) j h =
    ground (arith, info_at-insert r j (info_at t r) t, list_beq_iff r j)
lock_refused t (unlock_one tx r) j h = absurd (h refl)
lock_refused t (release_all tx) j h = absurd (h refl)

-- After a granted exclusive lock its transaction is the only holder of the resource, and the locks
-- on other resources are as before.
pub lock_exclusive_granted :
    (t : LockTable) (tx : ℕ) (r j : Text)
    → (lock_exclusive t tx r).1 ≡ ok tt
    → info_at (lock_exclusive t tx r).0 j
      ≡ (if list_beq r j then (record { x_holder = tx; s_holders = [] }) else info_at t j)
unfolding lock_exclusive
lock_exclusive_granted t tx r j h = ground (
  arith,
  info_at-insert r j (record { x_holder = tx; s_holders = [] }) t,
  holder_erase_others tx (info_at t r).s_holders,
)

is_free-eq : (info : LockInfo) → is_free info ≡ true → info ≡ no_lock
unfolding is_free
is_free-eq info h = ground arith

drop_holder-no_lock : (tx : ℕ) → drop_holder tx no_lock ≡ no_lock
unfolding drop_holder holder_erase
drop_holder-no_lock tx = ground arith

info_at-erase :
    (k j : Text) (t : LockTable)
    → info_at (erase k t) j ≡ (if list_beq k j then no_lock else info_at t j)
info_at-erase k j t = ground (arith, find-erase k j t)

-- `unlock` takes exactly the locks of its transaction off its resource.
pub info_at-unlock :
    (t : LockTable) (tx : ℕ) (r j : Text)
    → info_at (unlock t tx r) j
      ≡ (if list_beq r j then drop_holder tx (info_at t r) else info_at t j)
unfolding unlock
info_at-unlock t tx r j = elim (Option-cases (find r t)) [
  | inl e ↦ ground (arith, list_beq_iff r j, drop_holder-no_lock tx)
  | inr (info, e) ↦ ground (
    arith,
    info_at-insert r j (drop_holder tx info) t,
    info_at-erase r j t,
    is_free-eq (drop_holder tx info),
  )
]

find-release_none :
    (t : LockTable) (tx : ℕ) (r : Text)
    → find r t ≡ none
    → find r (release_transaction_locks t tx) ≡ none
unfolding release_transaction_locks find
find-release_none [] tx r h = refl
find-release_none ((j, i) ∷ t) tx r h = ground (arith, find-release_none t tx r)

info_at-release :
    (t : LockTable) (tx : ℕ) (r : Text)
    → IsUnique t
    → info_at (release_transaction_locks t tx) r ≡ drop_holder tx (info_at t r)
unfolding release_transaction_locks find
info_at-release [] tx r u = sym (drop_holder-no_lock tx)
info_at-release ((j, i) ∷ t) tx r u = ground (
  arith,
  info_at-release t tx r u.1,
  find-release_none t tx j u.0,
  list_beq_iff j r,
  is_free-eq (drop_holder tx i),
)

release-IsUnique : (t : LockTable) (tx : ℕ) → IsUnique t → IsUnique (release_transaction_locks t tx)
unfolding release_transaction_locks
release-IsUnique [] tx u = tt
release-IsUnique ((j, i) ∷ t) tx u =
    ground (arith, release-IsUnique t tx u.1, find-release_none t tx j u.0)

pub lock_step-IsUnique : (t : LockTable) (c : LockCall) → IsUnique t → IsUnique (lock_step t c)
unfolding lock_step lock_shared lock_exclusive unlock
lock_step-IsUnique t (lock_s tx r) u = ground (
  arith,
  insert-IsUnique r (info_at t r) t u,
  insert-IsUnique r
      (record {
        x_holder = (info_at t r).x_holder;
        s_holders = holder_insert tx (info_at t r).s_holders;
      })
      t u,
)
lock_step-IsUnique t (lock_x tx r) u = ground (
  arith,
  insert-IsUnique r (info_at t r) t u,
  insert-IsUnique r (record { x_holder = tx; s_holders = holder_erase tx (info_at t r).s_holders })
      t u,
)
lock_step-IsUnique t (unlock_one tx r) u = elim (Option-cases (find r t)) [
  | inl e ↦ ground arith
  | inr (info, e) ↦
      ground (arith, insert-IsUnique r (drop_holder tx info) t u, erase-IsUnique r t u)
]
lock_step-IsUnique t (release_all tx) u = release-IsUnique t tx u

pub lock_run-IsUnique : (t : LockTable) (cs : List LockCall) → IsUnique t → IsUnique (lock_run t cs)
unfolding lock_run
lock_run-IsUnique t [] u = u
lock_run-IsUnique t (c ∷ cs) u = lock_run-IsUnique (lock_step t c) cs (lock_step-IsUnique t c u)

-- Once a transaction has released its locks, it holds nothing in either mode on any resource, and
-- every other transaction holds what it held: after any history of calls, for ids that are not 0.
pub release_lem :
    (cs : List LockCall) (tx other : ℕ) (r : Text)
    → tx ≢ 0
    → other ≢ 0
    → other ≢ tx
    → let before = info_at (lock_run [] cs) r in
      let after = info_at (release_transaction_locks (lock_run [] cs) tx) r in
      (after.x_holder ≢ tx)
      × (shares tx after.s_holders ≡ false)
      × ((after.x_holder ≡ other) ↔ (before.x_holder ≡ other))
      × (shares other after.s_holders ≡ shares other before.s_holders)
unfolding drop_holder
release_lem cs tx other r h k d =
    rw (info_at-release (lock_run [] cs) tx r (lock_run-IsUnique [] cs tt)) (
      ground (
        arith,
        shares-holder_erase tx tx (info_at (lock_run [] cs) r).s_holders,
        shares-holder_erase tx other (info_at (lock_run [] cs) r).s_holders,
      ))
