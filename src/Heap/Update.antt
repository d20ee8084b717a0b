-- ===== src/Heap/Update.antt =====
-- updateRecord of tableHeap/TableHeap.cpp, and getRecord after it.
use sql_engine.Base.{
  ℕ, ◌+◌, ◌*◌, Bool, true, false, ◌≡◌, refl, sym, ap, ap₂, ◌∙◌, subst, some, Option-cases,
  some-injective, List, [], length, append-nil, map, All, ℤ, pos, ok, ok-injective, >>=-eq-ok,
  ◌>>=◌, Bool-cases, inl, inr, arith, leb, if◌then◌else◌,
}
use sql_engine.Base.Int.{leb_ℤ}
use sql_engine.Schema.{Column, Schema, make_schema}
use sql_engine.Record.{FieldValue, read_bytes, make_row, serialize, deserialize}
use sql_engine.Record.Fields.{Fits, as_stored}
use sql_engine.Record.RoundTrip.{round_trip}
use sql_engine.Files.{get_page_count}
use sql_engine.Buffer.{BufferManager, Outcome}
use sql_engine.Heap.Bytes.{read_written, read_before}
use sql_engine.Heap.Slots.{
  get_num_slots, get_slot_ptr, is_slot_alive, set_record, change_slot, row_at,
}
use sql_engine.Heap.{
  RecordId, TableHeap, checked_ids, reading, change_record, update_record, get_record,
}
use sql_engine.Heap.RoundTrip.{reading-ok}
use sql_engine.Heap.Delete.{if_false, if_true, checked_ids-some, change_record-row}

-- The bytes of a record written over: the slot stays as it was otherwise.
pub set_record-read :
    (size : ℕ) (page page' : List ℕ) (slot : ℕ) (buf : List ℕ)
    → set_record size page slot buf ≡ ok page'
    → length buf ≡ size
    → (is_slot_alive size page' slot ≡ is_slot_alive size page slot)
      × (get_num_slots page' ≡ get_num_slots page)
      × (read_bytes page' (get_slot_ptr size slot + 1) size ≡ ok buf)
unfolding set_record is_slot_alive get_num_slots get_slot_ptr
set_record-read size page page' slot buf h l =
    let p = 4 + slot * (size + 1) in
    (
      rw (read_before page page' buf (p + 1) p 1 h (omega arith)) refl,
      rw (read_before page page' buf (p + 1) 0 4 h (omega arith)) refl,
      ap (read_bytes page' (p + 1)) (sym l) ∙ read_written page page' buf (p + 1) h,
    )

-- The bytes of a record, and what they are read back as.
pub stored_bytes :
    (schema : Schema) (cols : List Column) (values : List FieldValue) (buf : List ℕ)
    → make_schema cols ≡ ok schema
    → All Fits values
    → (make_row schema values >>= serialize) ≡ ok buf
    → (length buf ≡ schema.record_size)
      × (deserialize schema buf ≡ ok (record { schema = schema; values = map as_stored values }))
stored_bytes schema cols values buf hs ints hb =
    let (row, hr, hw) = >>=-eq-ok (make_row schema values) _ hb in
    let (bytes, written, l, back) = round_trip cols schema values row [] hs hr ints in
    let is_buf : bytes ≡ buf = ok-injective (sym written ∙ hw) in
    (
      ap length (sym is_buf) ∙ l,
      ap (deserialize schema) (sym is_buf ∙ sym (append-nil bytes)) ∙ back,
    )

module _ (size : ℕ) (heap : TableHeap) where
  slot_updated :
      (page page' : List ℕ) (slot : ℕ) (buf : List ℕ)
      → length buf ≡ heap.schema.record_size
      → change_slot heap.schema.record_size page slot
          (λ x. set_record heap.schema.record_size x slot buf)
        ≡ ok (some page')
      → row_at heap.schema page' (pos slot) ≡ deserialize heap.schema buf
  unfolding change_slot row_at
  slot_updated page page' slot buf l h =
      let (n, hn, h1) = >>=-eq-ok (get_num_slots page) _ h in
      elim (Bool-cases (leb_ℤ n (pos slot))) [
        | inl e ↦ absurd (ground (arith, e, h1))
        | inr e ↦
            let (alive, ha, h2) =
              >>=-eq-ok (is_slot_alive heap.schema.record_size page slot) _ (if_false _ _ e h1) in
            elim (Bool-cases alive) [
              | inr a ↦ absurd (ground (arith, a, h2))
              | inl a ↦
                  let (p, hp, h3) =
                    >>=-eq-ok (set_record heap.schema.record_size page slot buf) _
                      (if_true _ _ a h2) in
                  let (d, k, r) = set_record-read heap.schema.record_size page p slot buf hp l in
                  subst (λ x. row_at heap.schema x (pos slot) ≡ deserialize heap.schema buf)
                    (some-injective p page' (ok-injective h3))
                    (readable p n (k ∙ hn) e (d ∙ (ha ∙ ap ok a)) r)
            ]
      ]
    where
      readable :
          (x : List ℕ) (n : ℤ)
          → get_num_slots x ≡ ok n
          → leb_ℤ n (pos slot) ≡ false
          → is_slot_alive heap.schema.record_size x slot ≡ ok true
          → read_bytes x (get_slot_ptr heap.schema.record_size slot + 1) heap.schema.record_size
            ≡ ok buf
          → row_at heap.schema x (pos slot) ≡ deserialize heap.schema buf
      readable x n hn g d r = ground (arith, hn, g, d, r)

-- A record that updateRecord has updated (it returned true) is the record that getRecord then gives:
-- the new values, but that a string ends before its first zero byte. The schema is one that its
-- constructor accepts, and INT values have 32 bits.
pub get_record-update_record :
    (size : ℕ) (heap : TableHeap) (cols : List Column) (b b' : BufferManager) (rid : RecordId)
    (values : List FieldValue)
    → make_schema cols ≡ ok heap.schema
    → All Fits values
    → update_record size heap b rid values ≡ (b', ok true)
    → (get_record size heap b' rid).1
      ≡ ok (record { schema = heap.schema; values = map as_stored values })
unfolding update_record
get_record-update_record size heap cols b b' rid values hs ints h =
    elim (Option-cases (checked_ids rid)) [
      | inl e ↦ absurd (ground (arith, e, h))
      | inr ((pid, slot), e) ↦
          let (same_page, same_slot) = checked_ids-some rid.page_id rid.slot_num e in
          let same : rid ≡ record { page_id = pos pid; slot_num = pos slot } =
            ap₂ (λ p i. record { page_id = p; slot_num = i }) same_page same_slot in
          let write : List ℕ → Outcome Bool = λ buf.
            change_record size heap b pid slot
              (λ page. set_record heap.schema.record_size page slot buf) in
          let go_on : ℕ → Outcome Bool = λ count.
            if leb count pid
            then (b, ok false)
            else reading b (do row ← make_row heap.schema values; serialize row) write in
          let opened : update_record size heap b rid values
              ≡ reading b (get_page_count size b.files heap.file_id) go_on =
            rw (e, update_record) refl in
          let (count, _, h1) =
            reading-ok b (get_page_count size b.files heap.file_id) go_on (sym opened ∙ h) in
          elim (Bool-cases (leb count pid)) [
            | inl c ↦ absurd (ground (arith, c, h1))
            | inr c ↦
                let (buf, hb, h2) =
                  reading-ok b (do row ← make_row heap.schema values; serialize row) write
                    (if_false _ _ c h1) in
                let (l, back) = stored_bytes heap.schema cols values buf hs ints hb in
                ap (λ r. (get_record size heap b' r).1) same
                ∙ (change_record-row size heap b b' pid slot
                      (λ page. set_record heap.schema.record_size page slot buf)
                      (deserialize heap.schema buf)
                      (λ page page'. slot_updated size heap page page' slot buf l) h2
                    ∙ back)
          ]
    ]
