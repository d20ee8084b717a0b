-- ===== src/Wal/Recovery.antt =====
-- recover of _WALManager/WALManager.cpp, over the three replay methods of a storage engine.
use sql_engine.Base.{
  Bool, true, false, ◌||◌, ◌≡◌, refl, List, [], ◌∷◌, Text, ℤ, if◌then◌else◌, Result, ok, ◌>>=◌,
  >>=-eq-ok, ok-injective, sym, ap, ◌∙◌,
}
use sql_engine.Base.Int.{eq_ℤ}
use sql_engine.Record.{FieldValue}
use sql_engine.Heap.{RecordId}
use sql_engine.Wal.{
  LogOp, insert_op, delete_op, update_op, commit_op, abort_op, LogRecord, WalManager, flush,
  LogCall, log_step, log_run, log_insert, log_delete, log_update, log_commit, log_abort,
}
use sql_engine.Wal.Read.{read_log}

-- redoInsert, redoDelete and redoUpdate of a storage engine with the state S.
pub record Redo {ℓ} (S : Type ℓ) : Type ℓ where
  pub redo_insert : S → Text → RecordId → List FieldValue → Result S
  pub redo_delete : S → Text → RecordId → Result S
  pub redo_update : S → Text → RecordId → List FieldValue → Result S

abbrev pub is_commit : LogOp → Bool
is_commit commit_op = true
is_commit _ = false

abbrev pub is_abort : LogOp → Bool
is_abort abort_op = true
is_abort _ = false

-- The transactions with a record that passes the test.
unfoldable pub tx_ids : (LogOp → Bool) → List LogRecord → List ℤ
tx_ids p [] = []
tx_ids p (r ∷ rs) = let rest = tx_ids p rs in if p r.op then r.tx_id ∷ rest else rest

-- `set.count(tx)`
unfoldable pub has_tx : ℤ → List ℤ → Bool
has_tx tx [] = false
has_tx tx (t ∷ ts) = eq_ℤ t tx || has_tx tx ts

module _ {ℓ} {S : Type ℓ} (storage : Redo S) where
  -- The switch of the redo loop, and that of the undo loop.
  unfoldable pub redo_op : LogOp → S → LogRecord → Result S
  redo_op insert_op s r = storage.redo_insert s r.table r.rid r.new_values
  redo_op delete_op s r = storage.redo_delete s r.table r.rid
  redo_op update_op s r = storage.redo_update s r.table r.rid r.new_values
  redo_op _ s r = ok s

  unfoldable pub undo_op : LogOp → S → LogRecord → Result S
  undo_op insert_op s r = storage.redo_delete s r.table r.rid
  undo_op delete_op s r = storage.redo_insert s r.table r.rid r.old_values
  undo_op update_op s r = storage.redo_update s r.table r.rid r.old_values
  undo_op _ s r = ok s

  unfoldable pub redo_loop : List ℤ → List LogRecord → S → Result S
  unfolding redo_op has_tx
  redo_loop committed [] s = ok s
  redo_loop committed (r ∷ rs) s = do
    s' ← (if has_tx r.tx_id committed then redo_op r.op s r else ok s)
    redo_loop committed rs s'

  -- In reverse order: what stands behind a record is undone before it.
  unfoldable pub undo_loop : List ℤ → List ℤ → List LogRecord → S → Result S
  unfolding undo_op has_tx
  undo_loop committed aborted [] s = ok s
  undo_loop committed aborted (r ∷ rs) s = do
    s' ← undo_loop committed aborted rs s
    (if has_tx r.tx_id committed || has_tx r.tx_id aborted then ok s' else undo_op r.op s' r)

  unfoldable pub replay : List LogRecord → S → Result S
  unfolding tx_ids redo_loop undo_loop
  replay rs s =
      let committed = tx_ids is_commit rs in
      let aborted = tx_ids is_abort rs in
      (do s' ← redo_loop committed rs s; undo_loop committed aborted rs s')

  -- recover: the file is emptied. `logOut_.open` fails on a stream that is open already, and the
  -- constructor has opened this one, so that the stream fails from here on.
  unfoldable pub recover : WalManager → S → Result (WalManager × S)
  unfolding read_log replay
  recover w s = do
    rs ← read_log w.file
    s' ← replay rs s
    ok (record w { file = []; out_good = false }, s')

-- Nothing that is logged after a recovery reaches the log.
silent_step : (w : WalManager) (c : LogCall) → w.out_good ≡ false → log_step w c ≡ w
unfolding log_step log_insert log_delete log_update log_commit log_abort
silent_step w (LogCall.insert_call tx t rid new) g = rw g refl
silent_step w (LogCall.delete_call tx t rid old) g = rw g refl
silent_step w (LogCall.update_call tx t rid old new) g = rw g refl
silent_step w (LogCall.commit_call tx) g = rw g refl
silent_step w (LogCall.abort_call tx) g = rw g refl

silent_run : (w : WalManager) (cs : List LogCall) → w.out_good ≡ false → log_run w cs ≡ w
unfolding log_run
silent_run w [] g = refl
silent_run w (c ∷ cs) g = ap (λ v. log_run v cs) (silent_step w c g) ∙ silent_run w cs g

-- After a recovery no log call has an effect: whatever is logged and flushed, the file stays empty.
pub recover_silences {ℓ} :
    {S : Type ℓ} (storage : Redo S) (w w' : WalManager) (s s' : S) (cs : List LogCall)
    → recover storage w s ≡ ok (w', s')
    → (flush (log_run w' cs)).file ≡ []
unfolding recover flush
recover_silences storage w w' s s' cs h =
    let (rs, _, h1) = >>=-eq-ok (read_log w.file) _ h in
    let (t, _, h2) = >>=-eq-ok (replay storage rs s) _ h1 in
    let same : w' ≡ record w { file = []; out_good = false } =
      sym (ap (λ p. p.0) (ok-injective h2)) in
    ap (λ v. (flush (log_run v cs)).file) same
    ∙ ap (λ v. (flush v).file) (silent_run (record w { file = []; out_good = false }) cs refl)
