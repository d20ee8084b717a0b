-- ===== src/Engine/Paged.antt =====
-- The parts of storageEngine/StorageEngine.h as this library models them: heaps over the buffer pool,
-- and indexes of one leaf whose pages stand apart from the pool. They do what the engine relies on.
use sql_engine.Base.{ℕ, zero, suc, ◌<◌, ◌≡◌, refl, sym, ap, List, map, All, Text, ok, err}
use sql_engine.Schema.{Column, make_schema}
use sql_engine.Record.{FieldValue, Row}
use sql_engine.Record.Fields.{Fits, as_stored}
use sql_engine.Files.{open_file, get_page_count}
use sql_engine.Buffer.{BufferManager, Outcome}
use sql_engine.Heap.{
  RecordId, TableHeap, open_heap, insert_record, get_record, delete_record, update_record,
  table_scan, insert_at, delete_at, update_at,
}
use sql_engine.Heap.RoundTrip.{get_record-insert_record}
use sql_engine.Heap.Delete.{get_record-delete_record}
use sql_engine.Heap.Update.{get_record-update_record}
use sql_engine.Tree.{Leaf}
use sql_engine.Tree.Nodes.{BPlusTree, find_key, remove_key}
use sql_engine.Tree.Insert.{new_tree, insert_key}
use sql_engine.Tree.History.{IsLeafOf, find_key-IsLeafOf, inserted-IsLeafOf, remove_key-IsLeafOf}
use sql_engine.Engine.{Parts}
use sql_engine.Engine.Keys.{Entries, Laws}

-- `disk` is what a path holds, and `load` the tree that the pages of an index file are.
module _ (size max_keys fuel : ℕ) (dummy : RecordId) (disk : Text → List ℕ)
    (load : BufferManager → ℕ → BPlusTree RecordId) where
  abbrev open_path : BufferManager → Text → BufferManager × ℕ
  open_path b path =
      let (files, fid) = open_file (disk path) b.files in (record b { files = files }, fid)

  -- The constructor of the tree.
  abbrev open_tree : BufferManager → ℕ → Outcome (BPlusTree RecordId)
  open_tree b fid = elim (get_page_count size b.files fid) as (λ x. Outcome (BPlusTree RecordId)) [
    | err e ↦ (b, err e)
    | ok zero ↦ (b, ok (new_tree max_keys dummy))
    | ok (suc more) ↦ (b, ok (load b fid))
  ]

  abbrev pub paged_parts : Parts BufferManager TableHeap (BPlusTree RecordId)
  paged_parts = record {
    open_file = λ b path. let (b1, fid) = open_path b path in (b1, ok fid);
    open_heap = λ b path schema. let (b1, fid) = open_path b path in open_heap size b1 fid schema;
    open_index = open_tree;
    heap_insert = insert_record size;
    heap_delete = delete_record size;
    heap_update = update_record size;
    heap_get = get_record size;
    heap_scan = table_scan size;
    heap_insert_at = insert_at size;
    heap_delete_at = delete_at size;
    heap_update_at = update_at size;
    index_find = λ t b key. (b, find_key (suc fuel) t key);
    index_insert = λ t b key rid. (b, insert_key max_keys dummy (suc fuel) t key rid);
    index_remove = λ t b key. (b, remove_key (suc fuel) t key);
  }

  abbrev pub IsPagedIndex : BPlusTree RecordId → BufferManager → Entries → Type 0
  IsPagedIndex t b m = (leaf : Leaf RecordId) × IsLeafOf max_keys t leaf m

  -- The schema is one that its constructor accepts, a page has less than 2^31 slots, and INT values have
  -- 32 bits.
  abbrev pub IsPagedRow : TableHeap → List FieldValue → Type 0
  IsPagedRow h values =
      (cols : List Column) × (make_schema cols ≡ ok h.schema)
      × (h.max_slots < 2147483648)
      × All Fits values

  -- A string is cut at its first zero byte.
  abbrev pub stored_row : TableHeap → List FieldValue → Row
  stored_row h values = record { schema = h.schema; values = map as_stored values }

  pub paged_parts-Laws : Laws paged_parts IsPagedIndex IsPagedRow stored_row
  paged_parts-Laws = record {
    found = λ t b m key w.
        (b, ap (λ r. (b, r)) (find_key-IsLeafOf max_keys dummy fuel t w.0 m w.1 key), w);
    inserted = λ t t' b b' m key rid w h. (
      inserted-IsLeafOf max_keys dummy fuel t w.0 m w.1 key rid t' (ap (λ o. o.1) h),
      λ heap r. ap (λ o. (get_record size heap o.0 r).1) (sym h),
    );
    removed = λ t b m key w.
        let (t', was, leaf, runs, w', _) =
          remove_key-IsLeafOf max_keys dummy fuel t w.0 m w.1 key in
        (b, t', was, ap (λ r. (b, r)) runs, (leaf, w'), λ heap r. refl);
    row_inserted = λ heap b b' values rid h. (
      λ (cols, made, slots, ints).
          get_record-insert_record size heap cols b b' values rid made slots ints h,
      λ t m w. w,
    );
    row_deleted = λ heap b b' rid h. (get_record-delete_record size heap b b' rid h, λ t m w. w);
    row_updated = λ heap b b' rid values h. (
      λ (cols, made, slots, ints).
          get_record-update_record size heap cols b b' rid values made ints h,
      λ t m w. w,
    );
  }
