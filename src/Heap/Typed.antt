-- ===== src/Heap/Typed.antt =====
-- The types of what getRecord of tableHeap/TableHeap.cpp returns.
use sql_engine.Base.{
  ℕ, ◌+◌, ◌||◌, ◌≡◌, ap, List, ℤ, pos, negsuc, ok, >>=-eq-ok, Bool-cases, inl, inr, arith,
}
use sql_engine.Base.Int.{ltb_ℤ, leb_ℤ, pos_part}
use sql_engine.Schema.{Schema}
use sql_engine.Record.{Row, read_bytes}
use sql_engine.Record.Typed.{Conforms, deserialize-Conforms}
use sql_engine.Buffer.{BufferManager, fetch_page, unpin_page}
use sql_engine.Heap.Slots.{get_num_slots, get_slot_ptr, is_slot_alive, row_at}
use sql_engine.Heap.{RecordId, TableHeap, page_bytes, page_of, get_record}
use sql_engine.Heap.RoundTrip.{then_call-ok, reading-ok}
use sql_engine.Heap.Delete.{if_false, if_true}

row_at-Conforms :
    (s : Schema) (page : List ℕ) (slot : ℤ) (row : Row)
    → row_at s page slot ≡ ok row
    → (row.schema ≡ s) × Conforms s.columns row.values
unfolding row_at
row_at-Conforms s page slot row h =
    let (n, _, h1) = >>=-eq-ok (get_num_slots page) _ h in
    elim (Bool-cases (ltb_ℤ slot (pos 0) || leb_ℤ n slot)) [
      | inl e ↦ absurd (ground (arith, if_true _ _ e h1))
      | inr e ↦
          let (alive, _, h2) =
            >>=-eq-ok (is_slot_alive s.record_size page (pos_part slot)) _ (if_false _ _ e h1) in
          elim (Bool-cases alive) [
            | inr a ↦ absurd (ground (arith, if_false _ _ a h2))
            | inl a ↦
                let (buf, _, h3) =
                  >>=-eq-ok
                    (read_bytes page (get_slot_ptr s.record_size (pos_part slot) + 1) s.record_size)
                    _ (if_true _ _ a h2) in
                deserialize-Conforms s buf row h3
          ]
    ]

get_record_row :
    (size : ℕ) (heap : TableHeap) (b b' : BufferManager) (page slot : ℤ) (row : Row)
    → get_record size heap b (record { page_id = page; slot_num = slot }) ≡ (b', ok row)
    → (bytes : List ℕ) × (row_at heap.schema bytes slot ≡ ok row)
unfolding get_record
get_record_row size heap b b' (negsuc n) slot row h = absurd (cc)
get_record_row size heap b b' (pos pid) slot row h =
    let p = page_of size heap pid in
    let (i, _, h1) = then_call-ok (fetch_page size b p) _ h in
    let b1 = (fetch_page size b p).0 in
    let (bytes, _, h2) = reading-ok b1 (page_bytes b1 i) _ h1 in
    let (u, _, h3) = then_call-ok (unpin_page b1 p) _ h2 in (bytes, ap (λ o. o.1) h3)

-- Whatever bytes the page holds, a record that getRecord returns is of the schema of the table, with one
-- value for each column: an INT in an INT column, and in a STRING column a string that is no longer than
-- the column.
pub get_record-Conforms :
    (size : ℕ) (heap : TableHeap) (b b' : BufferManager) (rid : RecordId) (row : Row)
    → get_record size heap b rid ≡ (b', ok row)
    → (row.schema ≡ heap.schema) × Conforms heap.schema.columns row.values
get_record-Conforms size heap b b' rid row h =
    let (bytes, e) = get_record_row size heap b b' rid.page_id rid.slot_num row h in
    row_at-Conforms heap.schema bytes rid.slot_num row e
