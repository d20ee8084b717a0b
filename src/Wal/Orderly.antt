-- ===== src/Wal/Orderly.antt =====
-- What the changes of a log make of one record when the committed ones are done again and the others are
-- undone in reverse, as recover of _WALManager/WALManager.cpp does.
use sql_engine.Base.{
  Bool, true, false, not, ◌&&◌, ◌||◌, ◌≡◌, refl, sym, ap, ◌∙◌, subst, Option, none, some, List, [],
  ◌∷◌, Text, ℤ, if◌then◌else◌, Bool-cases, inl, inr, arith,
}
use sql_engine.Base.Int.{eq_ℤ}
use sql_engine.Base.Equality.{list_beq}
use sql_engine.Record.{FieldValue}
use sql_engine.Heap.{RecordId}
use sql_engine.Wal.{LogOp, insert_op, delete_op, update_op, commit_op, abort_op, LogRecord}
use sql_engine.Wal.Recovery.{has_tx}

-- The values of a record, if it is there.
abbrev pub Content : Type 0
Content = Option (List FieldValue)

abbrev pub same_record : Text → RecordId → Text → RecordId → Bool
same_record t r u q = list_beq t u && (eq_ℤ r.page_id q.page_id && eq_ℤ r.slot_num q.slot_num)

abbrev pub is_there : Content → Bool
is_there none = false
is_there (some values) = true

-- An update writes the values and leaves the mark of the slot: what is not there does not come back.
abbrev pub overwritten : Content → List FieldValue → Content
overwritten none values = none
overwritten (some old) values = some values

abbrev pub is_change : LogOp → Bool
is_change insert_op = true
is_change delete_op = true
is_change update_op = true
is_change _ = false

-- The change makes the record or removes it.
abbrev pub is_remake : LogOp → Bool
is_remake insert_op = true
is_remake delete_op = true
is_remake _ = false

-- The record before a change, and after it.
abbrev pub before : LogOp → LogRecord → Content
before insert_op r = none
before _ r = some r.old_values

abbrev pub after : LogOp → LogRecord → Content
after delete_op r = none
after _ r = some r.new_values

-- What a change makes of the record when it is done again, and when it is undone.
abbrev pub redone : LogOp → LogRecord → Content → Content
redone insert_op r c = some r.new_values
redone delete_op r c = none
redone update_op r c = overwritten c r.new_values
redone _ r c = c

abbrev pub undone : LogOp → LogRecord → Content → Content
undone insert_op r c = none
undone delete_op r c = some r.old_values
undone update_op r c = overwritten c r.old_values
undone _ r c = c

-- Everything below is about one record id and given sets of transactions.
module _ (committed aborted : List ℤ) (t : Text) (rid : RecordId) where
  -- The log record changes it.
  abbrev pub touches : LogRecord → Bool
  touches r = is_change r.op && same_record r.table r.rid t rid

  abbrev pub touched : List LogRecord → Bool
  touched [] = false
  touched (r ∷ rs) = touches r || touched rs

  -- The log has an insertion or a deletion of it.
  abbrev pub remade : List LogRecord → Bool
  remade [] = false
  remade (r ∷ rs) = (touches r && is_remake r.op) || remade rs

  -- The record after the changes of the committed transactions alone.
  unfoldable pub committed_value : List LogRecord → Content → Content
  committed_value [] v = v
  committed_value (r ∷ rs) v =
      committed_value rs (if touches r && has_tx r.tx_id committed then after r.op r else v)

  unfoldable pub redone_value : List LogRecord → Content → Content
  redone_value [] c = c
  redone_value (r ∷ rs) c =
      redone_value rs (if touches r && has_tx r.tx_id committed then redone r.op r c else c)

  unfoldable pub undone_value : List LogRecord → Content → Content
  undone_value [] c = c
  undone_value (r ∷ rs) c =
      let later = undone_value rs c in
      if touches r && not (has_tx r.tx_id committed || has_tx r.tx_id aborted)
      then undone r.op r later
      else later

  -- From `v` on, each change was logged with what it found, and is of a transaction that is neither
  -- committed nor aborted.
  abbrev pub IsUnfinished : Content → List LogRecord → Type 0
  IsUnfinished v [] = Unit
  IsUnfinished v (r ∷ rs) =
      if touches r
      then (before r.op r ≡ v)
        × (has_tx r.tx_id aborted ≡ false)
        × (has_tx r.tx_id committed ≡ false)
        × IsUnfinished (after r.op r) rs
      else IsUnfinished v rs

  -- From `v` on, each change was logged with what it found; no transaction that changes the record has
  -- aborted; what follows a change that is not committed is not committed.
  abbrev pub IsOrderly : Content → List LogRecord → Type 0
  IsOrderly v [] = Unit
  IsOrderly v (r ∷ rs) =
      if touches r
      then (before r.op r ≡ v)
        × (has_tx r.tx_id aborted ≡ false)
        × (if has_tx r.tx_id committed
            then IsOrderly (after r.op r) rs
            else IsUnfinished (after r.op r) rs)
      else IsOrderly v rs

  -- What a change finds in the storage: it is there, or not there, as it is in `v`, unless the log makes
  -- or removes the record; and it is `v` when the log does not change it at all.
  abbrev pub Starts : List LogRecord → Content → Content → Type 0
  Starts rs d v = (touched rs ≡ false → d ≡ v) × (remade rs ≡ false → is_there d ≡ is_there v)

  first-IsUnfinished :
      (v : Content) (r : LogRecord) (rs : List LogRecord) {b : Bool}
      → touches r ≡ b
      → IsUnfinished v (r ∷ rs)
      → (if b
          then (before r.op r ≡ v)
            × (has_tx r.tx_id aborted ≡ false)
            × (has_tx r.tx_id committed ≡ false)
            × IsUnfinished (after r.op r) rs
          else IsUnfinished v rs)
  first-IsUnfinished v r rs e o =
      subst
        (λ b.
          if b
          then (before r.op r ≡ v)
            × (has_tx r.tx_id aborted ≡ false)
            × (has_tx r.tx_id committed ≡ false)
            × IsUnfinished (after r.op r) rs
          else IsUnfinished v rs)
        e o

  -- What IsOrderly says of the first record, by the values of its tests.
  first-IsOrderly :
      (v : Content) (r : LogRecord) (rs : List LogRecord) {b : Bool}
      → touches r ≡ b
      → IsOrderly v (r ∷ rs)
      → (if b
          then (before r.op r ≡ v)
            × (has_tx r.tx_id aborted ≡ false)
            × (if has_tx r.tx_id committed
                then IsOrderly (after r.op r) rs
                else IsUnfinished (after r.op r) rs)
          else IsOrderly v rs)
  first-IsOrderly v r rs e o =
      subst
        (λ b.
          if b
          then (before r.op r ≡ v)
            × (has_tx r.tx_id aborted ≡ false)
            × (if has_tx r.tx_id committed
                then IsOrderly (after r.op r) rs
                else IsUnfinished (after r.op r) rs)
          else IsOrderly v rs)
        e o

  next-IsOrderly :
      (v : Content) (rs : List LogRecord) {c d : Bool}
      → c ≡ d
      → (if c then IsOrderly v rs else IsUnfinished v rs)
      → (if d then IsOrderly v rs else IsUnfinished v rs)
  next-IsOrderly v rs e o = subst (λ b. if b then IsOrderly v rs else IsUnfinished v rs) e o

  untouched-remade : (rs : List LogRecord) → touched rs ≡ false → remade rs ≡ false
  untouched-remade [] h = refl
  untouched-remade (r ∷ rs) h = ground (arith, untouched-remade rs)

  -- A change that is undone where the record is as the change left it, or where the change makes or
  -- removes it, leaves what it found.
  undone-before :
      (op : LogOp) (r : LogRecord) (c v : Content)
      → is_change op ≡ true
      → before op r ≡ v
      → (is_remake op ≡ false → is_there c ≡ is_there (after op r))
      → undone op r c ≡ v
  undone-before insert_op r c v k h there = h
  undone-before delete_op r c v k h there = h
  undone-before update_op r (some old) v k h there = h
  undone-before update_op r none v k h there = absurd (ground (arith, there refl))
  undone-before commit_op r c v k h there = absurd (ground arith)
  undone-before abort_op r c v k h there = absurd (ground arith)

  redone-Starts :
      (op : LogOp) (r : LogRecord) (rs : List LogRecord) (d : Content)
      → is_change op ≡ true
      → (is_remake op ≡ false → remade rs ≡ false → is_there d ≡ true)
      → Starts rs (redone op r d) (after op r)
  redone-Starts insert_op r rs d k there = (λ _. refl, λ _. refl)
  redone-Starts delete_op r rs d k there = (λ _. refl, λ _. refl)
  redone-Starts update_op r rs (some old) k there = (λ _. refl, λ _. refl)
  redone-Starts update_op r rs none k there =
      (λ q. absurd (ground (arith, there refl (untouched-remade rs q))), λ q. there refl q)
  redone-Starts commit_op r rs d k there = absurd (ground arith)
  redone-Starts abort_op r rs d k there = absurd (ground arith)

  redone_value-IsUnfinished :
      (rs : List LogRecord) (v c : Content)
      → IsUnfinished v rs
      → (redone_value rs c ≡ c) × (committed_value rs c ≡ c)
  unfolding redone_value committed_value
  redone_value-IsUnfinished [] v c u = (refl, refl)
  redone_value-IsUnfinished (r ∷ rs) v c u = elim (Bool-cases (touches r)) [
    | inl e ↦
        let (_, _, open_tx, next) = first-IsUnfinished v r rs e u in
        let (a, b) = redone_value-IsUnfinished rs (after r.op r) c next in
        (ground (arith, e, open_tx, a), ground (arith, e, open_tx, b))
    | inr e ↦
        let (a, b) = redone_value-IsUnfinished rs v c (first-IsUnfinished v r rs e u) in
        (ground (arith, e, a), ground (arith, e, b))
  ]

  update-there :
      (op : LogOp) (r : LogRecord) (v : Content)
      → is_change op ≡ true
      → is_remake op ≡ false
      → before op r ≡ v
      → (is_there v ≡ true) × (is_there (after op r) ≡ true)
  update-there insert_op r v k m h = absurd (ground arith)
  update-there delete_op r v k m h = absurd (ground arith)
  update-there update_op r v k m h = (ap is_there (sym h), refl)
  update-there commit_op r v k m h = absurd (ground arith)
  update-there abort_op r v k m h = absurd (ground arith)

  touches-is_change : (r : LogRecord) → touches r ≡ true → is_change r.op ≡ true
  touches-is_change r e = ground arith

  -- The changes that are not committed are undone to what the first of them found.
  module _ (r : LogRecord) (rs : List LogRecord) (d v : Content) (e : touches r ≡ true)
      (found : before r.op r ≡ v) (kept : has_tx r.tx_id aborted ≡ false)
      (open_tx : has_tx r.tx_id committed ≡ false)
      (starts : remade (r ∷ rs) ≡ false → is_there d ≡ is_there v)
      (rest : (remade rs ≡ false → is_there d ≡ is_there (after r.op r))
        → is_there (undone_value rs d) ≡ is_there (after r.op r)) where
    undone_first : undone_value (r ∷ rs) d ≡ v
    unfolding undone_value
    undone_first =
        let full = undone-before r.op r (undone_value rs d) v (touches-is_change r e) found (λ k.
          rest (λ q.
            let (there, left) = update-there r.op r v (touches-is_change r e) k found in
            starts (rw (k, q, e) refl) ∙ there ∙ sym left)) in
        ground (arith, e, kept, open_tx, full)

  undone-there :
      (rs : List LogRecord) (v d : Content)
      → IsUnfinished v rs
      → (remade rs ≡ false → is_there d ≡ is_there v)
      → is_there (undone_value rs d) ≡ is_there v
  unfolding undone_value
  undone-there [] v d u h = h refl
  undone-there (r ∷ rs) v d u h = elim (Bool-cases (touches r)) [
    | inl e ↦
        let (found, kept, open_tx, next) = first-IsUnfinished v r rs e u in
        ap is_there
          (undone_first r rs d v e found kept open_tx h (undone-there rs (after r.op r) d next))
    | inr e ↦
        let same = undone-there rs v d (first-IsUnfinished v r rs e u) (λ q. h (rw (e, q) refl)) in
        ground (arith, e, same)
  ]

  -- Doing the committed changes again, and then undoing the others in reverse.
  pub restored :
      (rs : List LogRecord) (d v : Content)
      → IsOrderly v rs
      → Starts rs d v
      → undone_value rs (redone_value rs d) ≡ committed_value rs v
  unfolding committed_value redone_value undone_value
  restored [] d v o h = h.0 refl
  restored (r ∷ rs) d v o h = elim (Bool-cases (touches r)) [
    | inr e ↦
        let same =
          restored rs d v (first-IsOrderly v r rs e o)
            (λ q. h.0 (rw (e, q) refl), λ q. h.1 (rw (e, q) refl)) in
        ground (arith, e, same)
    | inl e ↦
        let (found, kept, next) = first-IsOrderly v r rs e o in
        elim (Bool-cases (has_tx r.tx_id committed)) [
          | inl c ↦
              let same =
                restored rs (redone r.op r d) (after r.op r)
                  (next-IsOrderly (after r.op r) rs c next)
                  (redone-Starts r.op r rs d (touches-is_change r e) (λ k q.
                    h.1 (rw (k, q, e) refl)
                    ∙ (update-there r.op r v (touches-is_change r e) k found).0)) in
              ground (arith, e, c, same)
          | inr c ↦
              let unfinished = next-IsOrderly (after r.op r) rs c next in
              let again : redone_value (r ∷ rs) d ≡ d =
                ground
                  (arith, e, c, (redone_value-IsUnfinished rs (after r.op r) d unfinished).0) in
              let still : committed_value (r ∷ rs) v ≡ v =
                ground
                  (arith, e, c, (redone_value-IsUnfinished rs (after r.op r) v unfinished).1) in
              ap (undone_value (r ∷ rs)) again
              ∙ undone_first r rs d v e found kept c h.1
                  (undone-there rs (after r.op r) d unfinished)
              ∙ sym still
        ]
  ]
