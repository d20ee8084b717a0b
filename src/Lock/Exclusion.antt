-- ===== src/Lock/Exclusion.antt =====
-- Who may hold what: lockManager/LockManager.cpp against the view `info_at` of its table.
use sql_engine.Base.{
  ℕ, ◌≡◌, refl, ap, ◌⊎◌, inl, inr, Option, none, some, List, [], ◌∷◌, Text, arith, ◌==◌,
  if◌then◌else◌, Bool-cases, Option-cases, All,
}
use sql_engine.Base.Equality.{list_beq, text_eq}
use sql_engine.Base.Assoc.{find, insert, erase, find-insert}
use sql_engine.Lock.{
  LockInfo, LockTable, LockCall, lock_s, lock_x, unlock_one, release_all, info_at, no_lock,
  x_conflict, holder_insert, holder_erase, other_holder, lock_shared, lock_exclusive, drop_holder,
  is_free, unlock, release_transaction_locks, lock_step, lock_run,
}

-- Whoever shares a resource with an exclusive holder is that holder.
abbrev pub IsExclusive : LockInfo → Type 0
IsExclusive info = (info.x_holder ≡ 0) ⊎ All (λ s. s ≡ info.x_holder) info.s_holders

pub info_at-insert :
    (k j : Text) (info : LockInfo) (t : LockTable)
    → info_at (insert k info t) j ≡ (if list_beq k j then info else info_at t j)
info_at-insert k j info t = ground (arith, find-insert k j info t)

All-holder_insert :
    (x tx : ℕ) (ss : List ℕ) → All (λ s. s ≡ x) ss → tx ≡ x → All (λ s. s ≡ x) (holder_insert tx ss)
unfolding holder_insert
All-holder_insert x tx [] a h = (h, tt)
All-holder_insert x tx (s ∷ ss) a h = ground (arith, All-holder_insert x tx ss a.1 h)

All-holder_erase :
    (x tx : ℕ) (ss : List ℕ) → All (λ s. s ≡ x) ss → All (λ s. s ≡ x) (holder_erase tx ss)
unfolding holder_erase
All-holder_erase x tx [] a = tt
All-holder_erase x tx (s ∷ ss) a = ground (arith, All-holder_erase x tx ss a.1)

pub holder_erase_others :
    (tx : ℕ) (ss : List ℕ) → other_holder tx ss ≡ none → holder_erase tx ss ≡ []
unfolding holder_erase other_holder
holder_erase_others tx [] h = refl
holder_erase_others tx (s ∷ ss) h = ground (arith, holder_erase_others tx ss)

-- The entries, whatever their keys.
abbrev Entries : LockTable → Type 0
Entries = All (λ e. IsExclusive e.1)

info_at-IsExclusive : (t : LockTable) (r : Text) → Entries t → IsExclusive (info_at t r)
unfolding find
info_at-IsExclusive [] r a = inl refl
info_at-IsExclusive ((j, i) ∷ t) r a = ground (arith, info_at-IsExclusive t r a.1)

insert-Entries :
    (r : Text) (info : LockInfo) (t : LockTable)
    → IsExclusive info
    → Entries t
    → Entries (insert r info t)
unfolding insert
insert-Entries r info [] h a = (h, tt)
insert-Entries r info ((j, i) ∷ t) h a = ground (arith, insert-Entries r info t h a.1)

erase-Entries : (r : Text) (t : LockTable) → Entries t → Entries (erase r t)
unfolding erase
erase-Entries r [] a = tt
erase-Entries r ((j, i) ∷ t) a = ground (arith, erase-Entries r t a.1)

drop_holder-IsExclusive :
    (tx : ℕ) (info : LockInfo) → IsExclusive info → IsExclusive (drop_holder tx info)
unfolding drop_holder
drop_holder-IsExclusive tx info (inl free) = inl (ground arith)
drop_holder-IsExclusive tx info (inr a) = elim (Bool-cases (info.x_holder == tx)) [
  | inl e ↦ inl (ground arith)
  | inr e ↦ rw e (inr (All-holder_erase info.x_holder tx info.s_holders a))
]

lock_shared-Entries :
    (t : LockTable) (tx : ℕ) (r : Text) → Entries t → Entries (lock_shared t tx r).0
unfolding lock_shared
lock_shared-Entries t tx r a =
    let h = info_at-IsExclusive t r a in
    elim (Bool-cases (x_conflict tx (info_at t r))) [
      | inl c ↦ rw c (insert-Entries r (info_at t r) t h a)
      | inr c ↦ rw c (
          insert-Entries r _ t
            (ground (arith, h, All-holder_insert (info_at t r).x_holder tx (info_at t r).s_holders))
            a)
    ]

lock_exclusive-Entries :
    (t : LockTable) (tx : ℕ) (r : Text) → Entries t → Entries (lock_exclusive t tx r).0
unfolding lock_exclusive
lock_exclusive-Entries t tx r a =
    let kept = insert-Entries r (info_at t r) t (info_at-IsExclusive t r a) a in
    elim (Bool-cases (x_conflict tx (info_at t r))) [
      | inl c ↦ rw c kept
      | inr c ↦ elim (Option-cases (other_holder tx (info_at t r).s_holders)) [
        | inl o ↦
            rw (c, o, holder_erase_others tx (info_at t r).s_holders o)
              (insert-Entries r (record { x_holder = tx; s_holders = [] }) t (inr tt) a)
        | inr (other, o) ↦ rw (c, o) kept
      ]
    ]

unlock-Entries : (t : LockTable) (tx : ℕ) (r : Text) → Entries t → Entries (unlock t tx r)
unfolding unlock
unlock-Entries t tx r a =
    let h = info_at-IsExclusive t r a in
    elim (Option-cases (find r t)) [
      | inl e ↦ rw (e, unlock) a
      | inr (info, e) ↦
          rw (e, unlock)
            (elim (Bool-cases (is_free (drop_holder tx info))) [
              | inl f ↦ rw f (erase-Entries r t a)
              | inr f ↦ rw f (
                  insert-Entries r (drop_holder tx info) t
                    (drop_holder-IsExclusive tx info (rw (ap (λ o. seen o) e) at h)) a)
            ])
    ]
  where
    seen : Option LockInfo → LockInfo
    seen o = elim o [ none ↦ no_lock | some info ↦ info ]

release-Entries : (t : LockTable) (tx : ℕ) → Entries t → Entries (release_transaction_locks t tx)
unfolding release_transaction_locks
release-Entries [] tx a = tt
release-Entries ((j, i) ∷ t) tx a =
    ground (arith, release-Entries t tx a.1, drop_holder-IsExclusive tx i a.0)

lock_step-Entries : (t : LockTable) (c : LockCall) → Entries t → Entries (lock_step t c)
unfolding lock_step
lock_step-Entries t (lock_s tx r) a = lock_shared-Entries t tx r a
lock_step-Entries t (lock_x tx r) a = lock_exclusive-Entries t tx r a
lock_step-Entries t (unlock_one tx r) a = unlock-Entries t tx r a
lock_step-Entries t (release_all tx) a = release-Entries t tx a

lock_run-Entries : (t : LockTable) (cs : List LockCall) → Entries t → Entries (lock_run t cs)
unfolding lock_run
lock_run-Entries t [] a = a
lock_run-Entries t (c ∷ cs) a = lock_run-Entries (lock_step t c) cs (lock_step-Entries t c a)

-- After any history of calls from the empty table, those that throw included, whoever holds a
-- resource shared while somebody holds it exclusively is that exclusive holder itself.
pub lock_run-IsExclusive :
    (cs : List LockCall) (r : Text) → IsExclusive (info_at (lock_run [] cs) r)
lock_run-IsExclusive cs r = info_at-IsExclusive (lock_run [] cs) r (lock_run-Entries [] cs tt)
