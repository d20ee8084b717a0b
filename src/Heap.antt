-- ===== src/Heap.antt =====
-- tableHeap/TableHeap.h and TableHeap.cpp: a table as records in the slots of the pages of a file,
-- over the buffer pool. A method returns the pool that it leaves, also when it throws. What the code
-- does at a negative page id it does not check (a stream at a negative offset) is `undefined`.
pub mod Slots
mod Bytes
mod Place
pub mod Pool
pub mod RoundTrip
pub mod Delete
pub mod Update
pub mod Typed
pub mod Replayed
pub mod Recovered
mod Examples
use sql_engine.Base.{
  ℕ, zero, suc, ◌+◌, ◌-◌, ◌/◌, leb, Bool, true, false, not, ◌||◌, Option, none, some, List, [], ◌∷◌,
  ◌++◌, map, get_elem?, ℤ, pos, negsuc, if◌then◌else◌, Result, Error, ok, err, ◌>>=◌, undefined,
}
use sql_engine.Base.Int.{pos_part, ltb_ℤ, leb_ℤ}
use sql_engine.Schema.{Schema}
use sql_engine.Record.{FieldValue, Row, make_row, serialize}
use sql_engine.Files.{FileManager, get_page_count, allocate_page}
use sql_engine.Buffer.{
  PageId, BufferManager, Frame, Outcome, fetch_page, mark_dirty, unpin_page, write_data,
}
use sql_engine.Heap.Slots.{
  get_num_slots, set_num_slots, set_slot_alive, set_record, fill_slot, place, alive_slots, row_at,
  change_slot, grown_page,
}

pub record RecordId : Type 0 where
  pub page_id : ℤ
  pub slot_num : ℤ

-- The ids as offsets, when neither is negative.
abbrev pub checked_ids : RecordId → Option (ℕ × ℕ)
checked_ids rid = elim rid.page_id [
  | negsuc n ↦ none
  | pos pid ↦ elim rid.slot_num [ negsuc n ↦ none | pos slot ↦ some (pid, slot) ]
]

-- What the constructor computes. `record_size` is that of the schema.
pub record TableHeap : Type 0 where
  pub file_id : ℕ
  pub schema : Schema
  pub max_slots : ℕ

-- What follows a call that returned; an error ends the method.
abbrev pub then_call {ℓ κ} :
    {A : Type ℓ} {B : Type κ} → Outcome A → (BufferManager → A → Outcome B) → Outcome B
then_call (b, err e) next = (b, err e)
then_call (b, ok a) next = next b a

-- A call that does not change the pool.
abbrev pub reading {ℓ κ} :
    {A : Type ℓ} {B : Type κ} → BufferManager → Result A → (A → Outcome B) → Outcome B
reading b (err e) next = (b, err e)
reading b (ok a) next = next a

-- The bytes behind the pointer of a frame.
unfoldable pub page_bytes : BufferManager → ℕ → Result (List ℕ)
page_bytes b i = elim (get_elem? b.frames i) [ none ↦ err undefined | some f ↦ ok f.bytes ]

module _ (page_size : ℕ) where
  -- The page is unpinned, then the method returns or throws.
  abbrev pub release {ℓ} : {A : Type ℓ} → BufferManager → PageId → Result A → Outcome A
  release b p r = then_call (unpin_page b p) (λ b' u. (b', r))

  -- A page is written through its pointer, marked and unpinned, then the method returns.
  unfoldable pub finish {ℓ} : {A : Type ℓ} → BufferManager → PageId → ℕ → List ℕ → A → Outcome A
  unfolding write_data mark_dirty unpin_page
  finish b p i page a = then_call (mark_dirty (write_data b i page) p) (λ b' u. release b' p (ok a))

  -- The constructor, after openFile.
  unfoldable pub open_heap : BufferManager → ℕ → Schema → Outcome TableHeap
  unfolding finish page_bytes
  open_heap b fid s =
      let heap : TableHeap = record {
        file_id = fid;
        schema = s;
        max_slots = (page_size - 4) / (s.record_size + 1);
      } in
      reading b (get_page_count page_size b.files fid) (λ count. elim count [
        | suc more ↦ (b, ok heap)
        | zero ↦ reading b (allocate_page page_size b.files fid) (λ allocated.
            let p : PageId = record { file_id = fid; page_id = allocated.1 } in
            then_call (fetch_page page_size (record b { files = allocated.0 }) p) (λ b1 i.
              reading b1 (do page ← page_bytes b1 i; set_num_slots page (pos 0))
                (λ page. finish b1 p i page heap)))
      ])

  module _ (heap : TableHeap) where
    -- A page of the table.
    abbrev pub page_of : ℕ → PageId
    page_of pid = record { file_id = heap.file_id; page_id = pid }

    -- No page has space: a page is allocated for the record.
    unfoldable pub insert_new : BufferManager → List ℕ → Outcome RecordId
    unfolding finish page_bytes
    insert_new b buf = reading b (allocate_page page_size b.files heap.file_id) (λ allocated.
        then_call (fetch_page page_size (record b { files = allocated.0 }) (page_of allocated.1))
          (λ b1 i.
            reading b1
              (do
                page ← page_bytes b1 i
                page1 ← set_num_slots page (pos 1)
                fill_slot heap.schema.record_size page1 0 buf)
              (λ page.
                finish b1 (page_of allocated.1) i page
                  (record { page_id = pos allocated.1; slot_num = pos 0 }))))

    -- The loop over the pages of the file from `pid` on.
    unfoldable pub insert_loop : ℕ → ℕ → BufferManager → List ℕ → Outcome RecordId
    unfolding insert_new finish page_bytes
    insert_loop zero pid b buf = insert_new b buf
    insert_loop (suc rest) pid b buf = then_call (fetch_page page_size b (page_of pid)) (λ b1 i.
        reading b1
          (do page ← page_bytes b1 i; place heap.schema.record_size heap.max_slots page buf)
          (λ placed. elim placed [
            | some (slot, page) ↦
                finish b1 (page_of pid) i page (record { page_id = pos pid; slot_num = pos slot })
            | none ↦
                then_call (unpin_page b1 (page_of pid)) (λ b2 u. insert_loop rest (pid + 1) b2 buf)
          ]))

    unfoldable pub insert_record : BufferManager → List FieldValue → Outcome RecordId
    unfolding insert_loop
    insert_record b values =
        reading b (do row ← make_row heap.schema values; serialize row)
          (λ buf.
            reading b (get_page_count page_size b.files heap.file_id)
              (λ count. insert_loop count 0 b buf))

    -- getRecord
    unfoldable pub get_record : BufferManager → RecordId → Outcome Row
    unfolding page_bytes
    get_record b rid = elim rid.page_id [
      | negsuc n ↦ (b, err undefined)
      | pos pid ↦ then_call (fetch_page page_size b (page_of pid)) (λ b1 i.
          reading b1 (page_bytes b1 i)
            (λ page. release b1 (page_of pid) (row_at heap.schema page rid.slot_num)))
    ]

    -- What deleteRecord and updateRecord do once the ids are not negative.
    abbrev pub change_record : BufferManager → ℕ → ℕ → (List ℕ → Result (List ℕ)) → Outcome Bool
    change_record b pid slot change = then_call (fetch_page page_size b (page_of pid)) (λ b1 i.
        reading b1 (do page ← page_bytes b1 i; change_slot heap.schema.record_size page slot change)
          (λ changed. elim changed [
            | none ↦ release b1 (page_of pid) (ok false)
            | some page ↦ finish b1 (page_of pid) i page true
          ]))

    unfoldable pub delete_record : BufferManager → RecordId → Outcome Bool
    unfolding change_slot finish page_bytes
    delete_record b rid = elim (checked_ids rid) [
      | none ↦ (b, ok false)
      | some (pid, slot) ↦ reading b (get_page_count page_size b.files heap.file_id) (λ count.
          if leb count pid
          then (b, ok false)
          else change_record b pid slot
              (λ page. set_slot_alive heap.schema.record_size page slot false))
    ]

    unfoldable pub update_record : BufferManager → RecordId → List FieldValue → Outcome Bool
    unfolding change_slot finish page_bytes
    update_record b rid values = elim (checked_ids rid) [
      | none ↦ (b, ok false)
      | some (pid, slot) ↦ reading b (get_page_count page_size b.files heap.file_id) (λ count.
          if leb count pid
          then (b, ok false)
          else reading b (do row ← make_row heap.schema values; serialize row)
              (λ buf.
                change_record b pid slot
                  (λ page. set_record heap.schema.record_size page slot buf)))
    ]

    -- The pages from `pid` on.
    unfoldable pub scan_loop : ℕ → ℕ → BufferManager → Outcome (List RecordId)
    unfolding alive_slots page_bytes
    scan_loop zero pid b = (b, ok [])
    scan_loop (suc rest) pid b = then_call (fetch_page page_size b (page_of pid)) (λ b1 i.
        reading b1
          (do
            page ← page_bytes b1 i
            n ← get_num_slots page
            alive_slots heap.schema.record_size (pos_part n) 0 page)
          (λ slots. then_call (unpin_page b1 (page_of pid)) (λ b2 u.
            then_call (scan_loop rest (pid + 1) b2) (λ b3 later. (
              b3,
              ok (map (λ i. record { page_id = pos pid; slot_num = pos i }) slots ++ later),
            )))))

    unfoldable pub table_scan : BufferManager → Outcome (List RecordId)
    unfolding scan_loop
    table_scan b =
        reading b (get_page_count page_size b.files heap.file_id) (λ count. scan_loop count 0 b)

    -- deleteAt, updateAt and insertAt, which recovery calls: nothing is checked, and what the code does
    -- at a negative id is `undefined`.
    abbrev pub change_at :
        BufferManager → RecordId → (List ℕ → ℕ → Result (List ℕ)) → Outcome (Unit {0})
    change_at b rid change = elim (checked_ids rid) [
      | none ↦ (b, err undefined)
      | some (pid, slot) ↦ then_call (fetch_page page_size b (page_of pid)) (λ b1 i.
          reading b1 (do page ← page_bytes b1 i; change page slot)
            (λ page. finish b1 (page_of pid) i page tt))
    ]

    -- The slot is alive on the page before the values are checked; values that are refused leave it so,
    -- and the page pinned.
    unfoldable pub insert_at : BufferManager → RecordId → List FieldValue → Outcome (Unit {0})
    unfolding grown_page write_data finish page_bytes
    insert_at b rid values = elim (checked_ids rid) [
      | none ↦ (b, err undefined)
      | some (pid, slot) ↦ then_call (fetch_page page_size b (page_of pid)) (λ b1 i.
          reading b1
            (do
              page ← page_bytes b1 i
              page1 ← grown_page page slot
              set_slot_alive heap.schema.record_size page1 slot true)
            (λ page2.
              let b2 = write_data b1 i page2 in
              reading b2
                (do
                  row ← make_row heap.schema values
                  buf ← serialize row
                  set_record heap.schema.record_size page2 slot buf)
                (λ page3. finish b2 (page_of pid) i page3 tt)))
    ]

    unfoldable pub delete_at : BufferManager → RecordId → Outcome (Unit {0})
    unfolding finish page_bytes
    delete_at b rid =
        change_at b rid (λ page slot. set_slot_alive heap.schema.record_size page slot false)

    unfoldable pub update_at : BufferManager → RecordId → List FieldValue → Outcome (Unit {0})
    unfolding finish page_bytes
    update_at b rid values = change_at b rid (λ page slot. do
      row ← make_row heap.schema values
      buf ← serialize row
      set_record heap.schema.record_size page slot buf)
