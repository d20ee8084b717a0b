-- ===== src/Wal/Stored.antt =====
-- The replay methods of storageEngine/StorageEngine.cpp, over the heap of one table and the pool, as the
-- storage that recover of _WALManager/WALManager.cpp works on.
use sql_engine.Base.{
  ℕ, ◌==◌, true, ◌≡◌, sym, ap, ◌∙◌, subst, none, some, List, Text, ℤ, if◌then◌else◌, Result, ok,
  err, get_elem?, All, ok-injective, out_of_range, bad_variant, arith,
}
use sql_engine.Base.Equality.{text_eq, list_beq_iff}
use sql_engine.Base.Assoc.{find}
use sql_engine.Schema.{Column, make_schema}
use sql_engine.Record.{FieldValue}
use sql_engine.Buffer.{BufferManager}
use sql_engine.Heap.{RecordId, TableHeap, insert_at, delete_at, update_at}
use sql_engine.Heap.Recovered.{
  slot_id, content, IsSound, IsKept, delete_at-content, update_at-content, insert_at-content,
}
use sql_engine.Tree.Nodes.{BPlusTree}
use sql_engine.Engine.{
  Parts, TableInfo, Engine, Reply, calling, put_index, with_key, redo_insert, redo_delete,
  redo_update,
}
use sql_engine.Engine.Calls.{calling-ok, with_table-found, put_index-found, with_key-ok}
use sql_engine.Engine.Paged.{paged_parts}
use sql_engine.Wal.{LogRecord}
use sql_engine.Wal.Recovery.{Redo, is_commit, is_abort, tx_ids, replay}
use sql_engine.Wal.Orderly.{
  Content, overwritten, same_record, IsOrderly, Starts, committed_value, is_change,
}
use sql_engine.Wal.Committed.{Keeps, recovery_restores}

-- A replay method ends with the engine that it leaves, or throws out of recover.
abbrev pub ended : {S : Type 0} → S × Result (Unit {0}) → Result S
ended (e, ok u) = ok e
ended (e, err x) = err x

ended-ok : {S : Type 0} (r : S × Result (Unit {0})) {e : S} → ended r ≡ ok e → r ≡ (e, ok tt)
ended-ok (e, ok u) h = ap (λ x. (x, ok tt)) (ok-injective h)
ended-ok (e, err x) h = absurd (cc)

abbrev pub engine_redo : {P H I : Type 0} (parts : Parts P H I) → Redo (Engine parts)
engine_redo parts = record {
  redo_insert = λ e t rid values. ended (redo_insert parts e t rid values);
  redo_delete = λ e t rid. ended (redo_delete parts e t rid);
  redo_update = λ e t rid values. ended (redo_update parts e t rid values);
}

module _ (size max_keys fuel : ℕ) (dummy : RecordId) (disk : Text → List ℕ)
    (load : BufferManager → ℕ → BPlusTree RecordId) (t : Text) (heap : TableHeap)
    (cols : List Column) (made : make_schema cols ≡ ok heap.schema) (pid i : ℕ) where
  abbrev parts : Parts BufferManager TableHeap (BPlusTree RecordId)
  parts = paged_parts size max_keys fuel dummy disk load

  -- The table is registered with this heap, and the slot of its page is sound.
  abbrev pub IsReady : Engine parts → Type 0
  IsReady e =
      (ti : TableInfo TableHeap (BPlusTree RecordId)) × (find t e.tables ≡ some ti)
      × (ti.heap ≡ heap)
      × IsSound size heap cols made pid i e.pool

  -- A call for a record of this page, with values that are kept as they are.
  abbrev pub OnPage : Text → RecordId → List FieldValue → Type 0
  OnPage u q values =
      (u ≡ t) × (j : ℕ) × (q ≡ slot_id size heap pid j) × IsKept size heap cols made pid i j values

  abbrev pub engine_content : Engine parts → Content
  engine_content e = content size heap cols made pid i e.pool

  same_record-slot :
      (u : Text) (q : RecordId) (j : ℕ)
      → u ≡ t
      → q ≡ slot_id size heap pid j
      → same_record u q t (slot_id size heap pid i) ≡ (j == i)
  same_record-slot u q j hu hq =
      ap (λ x. same_record x q t (slot_id size heap pid i)) hu
      ∙ (ap (λ x. same_record t x t (slot_id size heap pid i)) hq
          ∙ ground (arith, list_beq_iff t t))

  redo_delete-content :
      (e e' : Engine parts) (u : Text) (q : RecordId) (values : List FieldValue)
      → IsReady e
      → OnPage u q values
      → ended (redo_delete parts e u q) ≡ ok e'
      → IsReady e'
        × (engine_content e'
            ≡ (if same_record u q t (slot_id size heap pid i) then none else engine_content e))
  unfolding redo_delete
  redo_delete-content e e' u q values (ti, there, same_heap, sound) (hu, j, hq, kept) h =
      let next : TableInfo TableHeap (BPlusTree RecordId) → Reply parts (Unit {0}) = λ x.
        calling parts e (delete_at size x.heap e.pool (slot_id size heap pid j))
          (λ e1 done. (e1, ok tt)) in
      let h0 : redo_delete parts e t (slot_id size heap pid j) ≡ (e', ok tt) =
        ap (λ x. redo_delete parts e x (slot_id size heap pid j)) (sym hu)
        ∙ (ap (λ x. redo_delete parts e u x) (sym hq) ∙ ended-ok (redo_delete parts e u q) h) in
      let h1 = sym (with_table-found parts e t out_of_range next ti there) ∙ h0 in
      let (p, _, call, h2) =
        calling-ok parts e (delete_at size ti.heap e.pool (slot_id size heap pid j))
          (λ e1 done. (e1, ok tt)) h1 in
      let left : record e { pool = p } ≡ e' = ap (λ o. o.0) h2 in
      let (sound', same) = delete_at-content size heap cols made pid i e.pool p j sound (
        subst (λ x. delete_at size x e.pool (slot_id size heap pid j) ≡ (p, ok tt)) same_heap
          call) in
      (
        subst IsReady left (ti, there, same_heap, sound'),
        ap engine_content (sym left)
            ∙ (same
                ∙ ap (λ b. if b then none else engine_content e)
                    (sym (same_record-slot u q j hu hq))),
      )

  redo_update-content :
      (e e' : Engine parts) (u : Text) (q : RecordId) (values : List FieldValue)
      → IsReady e
      → OnPage u q values
      → ended (redo_update parts e u q values) ≡ ok e'
      → IsReady e'
        × (engine_content e' ≡ (
            if same_record u q t (slot_id size heap pid i)
            then overwritten (engine_content e) values
            else engine_content e))
  unfolding redo_update
  redo_update-content e e' u q values (ti, there, same_heap, sound) (hu, j, hq, kept) h =
      let next : TableInfo TableHeap (BPlusTree RecordId) → Reply parts (Unit {0}) = λ x.
        calling parts e (update_at size x.heap e.pool (slot_id size heap pid j) values)
          (λ e1 done. (e1, ok tt)) in
      let h0 : redo_update parts e t (slot_id size heap pid j) values ≡ (e', ok tt) =
        ap (λ x. redo_update parts e x (slot_id size heap pid j) values) (sym hu)
        ∙ (ap (λ x. redo_update parts e u x values) (sym hq)
            ∙ ended-ok (redo_update parts e u q values) h) in
      let h1 = sym (with_table-found parts e t out_of_range next ti there) ∙ h0 in
      let (p, _, call, h2) =
        calling-ok parts e (update_at size ti.heap e.pool (slot_id size heap pid j) values)
          (λ e1 done. (e1, ok tt)) h1 in
      let left : record e { pool = p } ≡ e' = ap (λ o. o.0) h2 in
      let (sound', same) =
        update_at-content size heap cols made pid i e.pool p j values sound kept (
          subst (λ x. update_at size x e.pool (slot_id size heap pid j) values ≡ (p, ok tt))
            same_heap call) in
      (
        subst IsReady left (ti, there, same_heap, sound'),
        ap engine_content (sym left)
            ∙ (same
                ∙ ap (λ b. if b then overwritten (engine_content e) values else engine_content e)
                    (sym (same_record-slot u q j hu hq))),
      )

  -- The index of the table gets the entry; its pages stand apart from the pool.
  redo_insert-content :
      (e e' : Engine parts) (u : Text) (q : RecordId) (values : List FieldValue)
      → IsReady e
      → OnPage u q values
      → ended (redo_insert parts e u q values) ≡ ok e'
      → IsReady e'
        × (engine_content e' ≡ (
            if same_record u q t (slot_id size heap pid i) then some values else engine_content e))
  unfolding redo_insert
  redo_insert-content e e' u q values (ti, there, same_heap, sound) (hu, j, hq, kept) h =
      let rid = slot_id size heap pid j in
      let indexed : TableInfo TableHeap (BPlusTree RecordId)
          → Engine parts
          → ℤ
          → Reply parts (Unit {0}) =
        λ x e1 key.
          calling parts e1 (parts.index_insert x.index e1.pool key rid)
            (λ e2 index. (put_index parts e2 t x index, ok tt)) in
      let keyed : TableInfo TableHeap (BPlusTree RecordId) → Engine parts → Reply parts (Unit {0}) =
        λ x e1. with_key parts e1 (get_elem? values x.pk_col_idx) bad_variant (indexed x e1) in
      let next : TableInfo TableHeap (BPlusTree RecordId) → Reply parts (Unit {0}) =
        λ x. calling parts e (insert_at size x.heap e.pool rid values) (λ e1 done. keyed x e1) in
      let h0 : redo_insert parts e t rid values ≡ (e', ok tt) =
        ap (λ x. redo_insert parts e x rid values) (sym hu)
        ∙ (ap (λ x. redo_insert parts e u x values) (sym hq)
            ∙ ended-ok (redo_insert parts e u q values) h) in
      let h1 = sym (with_table-found parts e t out_of_range next ti there) ∙ h0 in
      let (p, _, call, h2) =
        calling-ok parts e (insert_at size ti.heap e.pool rid values) (λ e1 done. keyed ti e1) h1 in
      let e1 : Engine parts = record e { pool = p } in
      let (key, _, h3) =
        with_key-ok parts e1 (get_elem? values ti.pk_col_idx) bad_variant (indexed ti e1) h2 in
      let (p2, index, entered, h4) =
        calling-ok parts e1 (parts.index_insert ti.index p key rid)
          (λ e2 index. (put_index parts e2 t ti index, ok tt)) h3 in
      let same_pool : p ≡ p2 = ap (λ o. o.0) entered in
      let left : put_index parts (record e { pool = p2 }) t ti index ≡ e' = ap (λ o. o.0) h4 in
      let (sound', same) =
        insert_at-content size heap cols made pid i e.pool p j values sound kept
          (subst (λ x. insert_at size x e.pool rid values ≡ (p, ok tt)) same_heap call) in
      (
        subst IsReady left (
          record ti { index = index },
          put_index-found parts (record e { pool = p2 }) t ti index,
          same_heap,
          subst (IsSound size heap cols made pid i) same_pool sound',
        ),
        ap engine_content (sym left)
            ∙ (ap (content size heap cols made pid i) (sym same_pool)
                ∙ (same
                    ∙ ap (λ b. if b then some values else engine_content e)
                        (sym (same_record-slot u q j hu hq)))),
      )

  -- For a table that is registered, the replay methods of the engine keep the promises on the records of
  -- a page: of the calls for this page, with values that are kept as they are, and slots of 31 bits.
  pub engine_redo-Keeps :
      Keeps (engine_redo parts) t (slot_id size heap pid i) IsReady OnPage engine_content
  engine_redo-Keeps = record {
    inserted = redo_insert-content;
    deleted = redo_delete-content;
    updated = redo_update-content;
  }

-- Let each change in the log be of a record on one page of one registered table, with values that the
-- table keeps as they are. Let the log be orderly for the record in one slot of the page, from a content
-- on: each change was logged with what it found, no transaction that changes the record has aborted, and
-- what follows a change that is not committed is not committed. Let the page hold that content when the
-- log does not change the record, and let the record be there, or not, as in it, when the log neither
-- makes nor removes it. If none of the replay methods of the engine throws, then the slot ends with what
-- the changes of the committed transactions alone make of the content. The slots of the page are alive
-- only within its number of slots, and the index stands apart from the pool.
pub engine_recovers :
    (size max_keys fuel : ℕ) (dummy : RecordId) (disk : Text → List ℕ)
    (load : BufferManager → ℕ → BPlusTree RecordId) (t : Text) (heap : TableHeap)
    (cols : List Column) (made : make_schema cols ≡ ok heap.schema) (pid i : ℕ)
    (rs : List LogRecord) (v : Content)
    (e e' : Engine (paged_parts size max_keys fuel dummy disk load))
    → IsReady size max_keys fuel dummy disk load t heap cols made pid i e
    → All
        (λ r.
          is_change r.op ≡ true
          → OnPage size max_keys fuel dummy disk load t heap cols made pid i r.table r.rid
              r.old_values
            × OnPage size max_keys fuel dummy disk load t heap cols made pid i r.table r.rid
                r.new_values)
        rs
    → IsOrderly (tx_ids is_commit rs) (tx_ids is_abort rs) t (slot_id size heap pid i) v rs
    → Starts
        (tx_ids is_commit rs)
        (tx_ids is_abort rs)
        t
        (slot_id size heap pid i)
        rs
        (content size heap cols made pid i e.pool)
        v
    → replay (engine_redo (paged_parts size max_keys fuel dummy disk load)) rs e ≡ ok e'
    → content size heap cols made pid i e'.pool
      ≡ committed_value (tx_ids is_commit rs) (tx_ids is_abort rs) t (slot_id size heap pid i) rs v
engine_recovers size max_keys fuel dummy disk load t heap cols made pid i rs v e e' ready served o h
      r =
    recovery_restores (engine_redo (paged_parts size max_keys fuel dummy disk load)) t
      (slot_id size heap pid i) (IsReady size max_keys fuel dummy disk load t heap cols made pid i)
      (OnPage size max_keys fuel dummy disk load t heap cols made pid i)
      (engine_content size max_keys fuel dummy disk load t heap cols made pid i) rs v e e'
      (engine_redo-Keeps size max_keys fuel dummy disk load t heap cols made pid i) ready served o h
      r
