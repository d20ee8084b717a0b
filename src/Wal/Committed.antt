-- ===== src/Wal/Committed.antt =====
-- What recover of _WALManager/WALManager.cpp makes of one record, over a storage engine that keeps what
-- its three replay methods promise.
use sql_engine.Base.{
  true, ◌&&◌, ◌||◌, ◌≡◌, refl, sym, ap, ◌∙◌, subst, none, some, List, [], ◌∷◌, Text, ℤ,
  if◌then◌else◌, ok, >>=-eq-ok, ok-injective, Bool-cases, inl, inr, arith, All,
}
use sql_engine.Record.{FieldValue}
use sql_engine.Heap.{RecordId}
use sql_engine.Wal.{LogOp, insert_op, delete_op, update_op, commit_op, abort_op, LogRecord}
use sql_engine.Wal.Recovery.{
  Redo, is_commit, is_abort, tx_ids, has_tx, redo_op, undo_op, redo_loop, undo_loop, replay,
}
use sql_engine.Wal.Orderly.{
  Content, same_record, overwritten, is_change, redone, undone, committed_value, redone_value,
  undone_value, IsOrderly, Starts, restored,
}

-- What the replay methods do to one record, `content` being what the storage holds of it. They may
-- throw; `Serves` says of which calls this is relied on, and `Good` of which states.
pub record Keeps {ℓ} {S : Type ℓ} (storage : Redo S) (t : Text) (rid : RecordId) (Good : S → Type ℓ)
    (Serves : Text → RecordId → List FieldValue → Type ℓ) (content : S → Content) : Type ℓ where
  pub inserted :
      (s s' : S) (u : Text) (q : RecordId) (values : List FieldValue)
      → Good s
      → Serves u q values
      → storage.redo_insert s u q values ≡ ok s'
      → Good s' × (content s' ≡ (if same_record u q t rid then some values else content s))
  pub deleted :
      (s s' : S) (u : Text) (q : RecordId) (values : List FieldValue)
      → Good s
      → Serves u q values
      → storage.redo_delete s u q ≡ ok s'
      → Good s' × (content s' ≡ (if same_record u q t rid then none else content s))
  pub updated :
      (s s' : S) (u : Text) (q : RecordId) (values : List FieldValue)
      → Good s
      → Serves u q values
      → storage.redo_update s u q values ≡ ok s'
      → Good s'
        × (content s'
            ≡ (if same_record u q t rid then overwritten (content s) values else content s))

-- Everything below is about one record id and given sets of transactions.
module _ (committed aborted : List ℤ) (t : Text) (rid : RecordId) where
  -- The loops of recover, on a storage that keeps its promises.
  module _ {ℓ} {S : Type ℓ} (storage : Redo S) (Good : S → Type ℓ)
      (Serves : Text → RecordId → List FieldValue → Type ℓ) (content : S → Content)
      (keeps : Keeps storage t rid Good Serves content) where
    -- The calls that redo and undo a log record are such as the promises are about.
    abbrev IsServed : LogRecord → Type ℓ
    IsServed r =
        is_change r.op ≡ true
        → Serves r.table r.rid r.old_values × Serves r.table r.rid r.new_values

    redo_op-content :
        (op : LogOp) (s s' : S) (r : LogRecord)
        → Good s
        → (is_change op ≡ true
            → Serves r.table r.rid r.old_values × Serves r.table r.rid r.new_values)
        → redo_op storage op s r ≡ ok s'
        → Good s'
          × (content s' ≡ (
              if is_change op && same_record r.table r.rid t rid
              then redone op r (content s)
              else content s))
    unfolding redo_op
    redo_op-content insert_op s s' r g w h =
        keeps.inserted s s' r.table r.rid r.new_values g (w refl).1 h
    redo_op-content delete_op s s' r g w h =
        keeps.deleted s s' r.table r.rid r.new_values g (w refl).1 h
    redo_op-content update_op s s' r g w h =
        keeps.updated s s' r.table r.rid r.new_values g (w refl).1 h
    redo_op-content commit_op s s' r g w h =
        (subst Good (ok-injective h) g, ap content (sym (ok-injective h)))
    redo_op-content abort_op s s' r g w h =
        (subst Good (ok-injective h) g, ap content (sym (ok-injective h)))

    undo_op-content :
        (op : LogOp) (s s' : S) (r : LogRecord)
        → Good s
        → (is_change op ≡ true
            → Serves r.table r.rid r.old_values × Serves r.table r.rid r.new_values)
        → undo_op storage op s r ≡ ok s'
        → Good s'
          × (content s' ≡ (
              if is_change op && same_record r.table r.rid t rid
              then undone op r (content s)
              else content s))
    unfolding undo_op
    undo_op-content insert_op s s' r g w h =
        keeps.deleted s s' r.table r.rid r.new_values g (w refl).1 h
    undo_op-content delete_op s s' r g w h =
        keeps.inserted s s' r.table r.rid r.old_values g (w refl).0 h
    undo_op-content update_op s s' r g w h =
        keeps.updated s s' r.table r.rid r.old_values g (w refl).0 h
    undo_op-content commit_op s s' r g w h =
        (subst Good (ok-injective h) g, ap content (sym (ok-injective h)))
    undo_op-content abort_op s s' r g w h =
        (subst Good (ok-injective h) g, ap content (sym (ok-injective h)))

    redo_loop-content :
        (rs : List LogRecord) (s s' : S)
        → Good s
        → All IsServed rs
        → redo_loop storage committed rs s ≡ ok s'
        → Good s' × (content s' ≡ redone_value committed aborted t rid rs (content s))
    unfolding redo_loop redone_value
    redo_loop-content [] s s' g w h =
        (subst Good (ok-injective h) g, ap content (sym (ok-injective h)))
    redo_loop-content (r ∷ rs) s s' g w h = elim (Bool-cases (has_tx r.tx_id committed)) [
      | inl e ↦
          let (s1, h1, h2) = >>=-eq-ok (redo_op storage r.op s r) _ (rw (e, redo_loop) at h) in
          let (g1, c1) = redo_op-content r.op s s1 r g w.0 h1 in
          let (g2, c2) = redo_loop-content rs s1 s' g1 w.1 h2 in (g2, ground (arith, c2, c1, e))
      | inr e ↦
          let (g2, c2) = redo_loop-content rs s s' g w.1 (rw (e, redo_loop) at h) in
          (g2, ground (arith, c2, e))
    ]

    undo_loop-content :
        (rs : List LogRecord) (s s' : S)
        → Good s
        → All IsServed rs
        → undo_loop storage committed aborted rs s ≡ ok s'
        → Good s' × (content s' ≡ undone_value committed aborted t rid rs (content s))
    unfolding undo_loop undone_value
    undo_loop-content [] s s' g w h =
        (subst Good (ok-injective h) g, ap content (sym (ok-injective h)))
    undo_loop-content (r ∷ rs) s s' g w h =
        let (s1, h1, h2) = >>=-eq-ok (undo_loop storage committed aborted rs s) _ h in
        let (g1, c1) = undo_loop-content rs s s1 g w.1 h1 in
        elim (Bool-cases (has_tx r.tx_id committed || has_tx r.tx_id aborted)) [
          | inl e ↦
              let same : s1 ≡ s' = ok-injective (rw e at h2) in
              (subst Good same g1, ap content (sym same) ∙ ground (arith, c1, e))
          | inr e ↦
              let (g2, c2) = undo_op-content r.op s1 s' r g1 w.0 (rw e at h2) in
              (g2, ground (arith, c2, c1, e))
        ]

-- Let a storage keep its promises on the calls that redo and undo the log, and let the log be orderly
-- for a record id, from `v` on: each change was logged with what it found, no transaction that changes
-- the record has aborted, and what follows a change that is not committed is not committed. Let the
-- storage hold `v` there when the log does not change the record, and let the record be there, or not,
-- as in `v`, when the log neither makes nor removes it; what its values are else does not matter. If
-- none of the calls throws, then recovery leaves there what the changes of the committed transactions
-- alone make of `v`.
pub recovery_restores {ℓ} :
    {S : Type ℓ} (storage : Redo S) (t : Text) (rid : RecordId) (Good : S → Type ℓ)
    (Serves : Text → RecordId → List FieldValue → Type ℓ) (content : S → Content)
    (rs : List LogRecord) (v : Content) (s s' : S)
    → Keeps storage t rid Good Serves content
    → Good s
    → All
        (λ r.
          is_change r.op ≡ true
          → Serves r.table r.rid r.old_values × Serves r.table r.rid r.new_values)
        rs
    → IsOrderly (tx_ids is_commit rs) (tx_ids is_abort rs) t rid v rs
    → Starts (tx_ids is_commit rs) (tx_ids is_abort rs) t rid rs (content s) v
    → replay storage rs s ≡ ok s'
    → content s' ≡ committed_value (tx_ids is_commit rs) (tx_ids is_abort rs) t rid rs v
unfolding replay
recovery_restores storage t rid Good Serves content rs v s s' keeps good served o starts h =
    let done_txs = tx_ids is_commit rs in
    let gone_txs = tx_ids is_abort rs in
    let (s1, h1, h2) = >>=-eq-ok (redo_loop storage done_txs rs s) _ h in
    let (g1, c1) =
      redo_loop-content done_txs gone_txs t rid storage Good Serves content keeps rs s s1 good
        served h1 in
    let (g2, c2) =
      undo_loop-content done_txs gone_txs t rid storage Good Serves content keeps rs s1 s' g1 served
        h2 in
    c2
    ∙ ap (undone_value done_txs gone_txs t rid rs) c1
    ∙ restored done_txs gone_txs t rid rs (content s) v o starts
