-- ===== src/Heap/Recovered.antt =====
-- insertAt, deleteAt and updateAt of tableHeap/TableHeap.cpp through the buffer pool, as one slot of the
-- page sees them.
use sql_engine.Base.{
  ℕ, ◌+◌, ◌<◌, ◌==◌, false, ◌≡◌, refl, sym, ap, ◌∙◌, subst, Option, none, some, List, map, All, pos,
  if◌then◌else◌, Result, ok, err, ◌>>=◌, ok-injective, >>=-eq-ok,
}
use sql_engine.Schema.{Column, make_schema}
use sql_engine.Record.{FieldValue, make_row, serialize}
use sql_engine.Record.Fields.{Fits, as_stored}
use sql_engine.Buffer.{BufferManager, Frame, frame_of, fetch_page, set_frame, write_data}
use sql_engine.Buffer.Found.{fetch_page-found, frame_of-set_frame, write_data-found}
use sql_engine.Heap.Slots.{set_slot_alive, set_record, fill_slot, grown_page}
use sql_engine.Heap.{
  RecordId, TableHeap, page_bytes, page_of, change_at, insert_at, delete_at, update_at,
}
use sql_engine.Heap.Pool.{page_bytes-found, finish-found}
use sql_engine.Heap.RoundTrip.{then_call-ok, reading-ok}
use sql_engine.Heap.Update.{stored_bytes}
use sql_engine.Heap.Replayed.{IsTidy, slot_values, slot_deleted, slot_updated, slot_inserted}
use sql_engine.Wal.Orderly.{overwritten}

module _ (size : ℕ) (heap : TableHeap) (pid : ℕ) where
  -- The bytes of the page, when it is fetched.
  unfoldable pub fetched : BufferManager → Result (List ℕ)
  fetched b = let o = fetch_page size b (page_of size heap pid) in o.1 >>= (λ i. page_bytes o.0 i)

  fetched-found :
      (b : BufferManager) (i : ℕ) (f : Frame)
      → frame_of b (page_of size heap pid) ≡ some (i, f)
      → fetched b ≡ ok f.bytes
  unfolding fetched fetch_page
  fetched-found b i f h =
      let p = page_of size heap pid in
      let f' = record f { pin_count = f.pin_count + 1 } in
      let hit : fetch_page size b p ≡ (set_frame b i f', ok i) = rw (h, fetch_page) refl in
      ap (λ o. o.1 >>= (λ i. page_bytes o.0 i)) hit
      ∙ page_bytes-found (set_frame b i f') p i f' (frame_of-set_frame b p i f f' h)

  abbrev pub slot_id : ℕ → RecordId
  slot_id j = record { page_id = pos pid; slot_num = pos j }

  -- A change that was made: of which page, and what it left.
  change_at-fetched :
      (b b' : BufferManager) (j : ℕ) (change : List ℕ → ℕ → Result (List ℕ))
      → change_at size heap b (slot_id j) change ≡ (b', ok tt)
      → (page : List ℕ) × (page' : List ℕ) × (fetched b ≡ ok page)
        × (change page j ≡ ok page')
        × (fetched b' ≡ ok page')
  unfolding fetched
  change_at-fetched b b' j change h =
      let p = page_of size heap pid in
      let (i, hf, h1) = then_call-ok (fetch_page size b p) _ h in
      let b1 = (fetch_page size b p).0 in
      let (f, hp, z) = fetch_page-found size b p i hf in
      let (page', hw, h2) = reading-ok b1 _ _ h1 in
      let (page, hb, hc) = >>=-eq-ok (page_bytes b1 i) _ hw in
      let (b2, g, e, k, same) = finish-found size b1 p i f page' tt hp z in
      let left : b2 ≡ b' = ap (λ o. o.0) (sym e ∙ h2) in
      (
        page,
        page',
        ap (λ r. r >>= (λ i. page_bytes b1 i)) hf ∙ hb,
        hc,
        subst (λ x. fetched x ≡ ok page') left (fetched-found b2 i g k ∙ ap ok same),
      )

  insert_at-fetched :
      (b b' : BufferManager) (j : ℕ) (values : List FieldValue)
      → insert_at size heap b (slot_id j) values ≡ (b', ok tt)
      → (page : List ℕ) × (page1 : List ℕ) × (page' : List ℕ) × (buf : List ℕ) × (fetched b
          ≡ ok page)
        × (grown_page page j ≡ ok page1)
        × ((make_row heap.schema values >>= serialize) ≡ ok buf)
        × (fill_slot heap.schema.record_size page1 j buf ≡ ok page')
        × (fetched b' ≡ ok page')
  unfolding fetched insert_at fill_slot
  insert_at-fetched b b' j values h =
      let p = page_of size heap pid in
      let n = heap.schema.record_size in
      let (i, hf, h1) = then_call-ok (fetch_page size b p) _ h in
      let b1 = (fetch_page size b p).0 in
      let (f, hp, z) = fetch_page-found size b p i hf in
      let (page2, hw, h2) = reading-ok b1 _ _ h1 in
      let (page, hb, hc) = >>=-eq-ok (page_bytes b1 i) _ hw in
      let (page1, hg, ha) = >>=-eq-ok (grown_page page j) _ hc in
      let b2 = write_data b1 i page2 in
      let hp2 = write_data-found b1 p i f page2 hp in
      let (page3, hr, h3) = reading-ok b2 _ _ h2 in
      let (row, hm, hs) = >>=-eq-ok (make_row heap.schema values) _ hr in
      let (buf, hz, hx) = >>=-eq-ok (serialize row) _ hs in
      let (b3, g, e, k, same) =
        finish-found size b2 p i (record f { bytes = page2 }) page3 tt hp2 z in
      let left : b3 ≡ b' = ap (λ o. o.0) (sym e ∙ h3) in
      (
        page,
        page1,
        page3,
        buf,
        ap (λ r. r >>= (λ i. page_bytes b1 i)) hf ∙ hb,
        hg,
        ap (λ r. r >>= serialize) hm ∙ hz,
        ap (λ r. r >>= (λ x. set_record n x j buf)) ha ∙ hx,
        subst (λ x. fetched x ≡ ok page3) left (fetched-found b3 i g k ∙ ap ok same),
      )

module _ (size : ℕ) (heap : TableHeap) (cols : List Column)
    (made : make_schema cols ≡ ok heap.schema) (pid i : ℕ) where
  -- The record in the slot `i` of the page.
  abbrev pub shown_content : Result (List ℕ) → Option (List FieldValue)
  shown_content (err x) = none
  shown_content (ok page) = slot_values heap.schema i page

  abbrev pub content : BufferManager → Option (List FieldValue)
  content b = shown_content (fetched size heap pid b)

  -- The slot is alive only within the number of slots.
  abbrev pub IsSound : BufferManager → Type 0
  IsSound b =
      (page : List ℕ) → fetched size heap pid b ≡ ok page → IsTidy heap.schema.record_size i page

  -- Values that are kept as they are, in a slot with a number of 31 bits.
  abbrev pub IsKept : ℕ → List FieldValue → Type 0
  IsKept j values = (j + 1 < 2147483648) × All Fits values × (map as_stored values ≡ values)

  -- From what a call does to the page to what it does to the record.
  from_page :
      (b b' : BufferManager) (page page' : List ℕ)
      (change : Option (List FieldValue) → Option (List FieldValue))
      → fetched size heap pid b ≡ ok page
      → fetched size heap pid b' ≡ ok page'
      → IsTidy heap.schema.record_size i page'
        × (slot_values heap.schema i page' ≡ change (slot_values heap.schema i page))
      → IsSound b' × (content b' ≡ change (content b))
  from_page b b' page page' change h k (tidy, same) = (
    λ x e. subst (IsTidy heap.schema.record_size i) (ok-injective (sym k ∙ e)) tidy,
    ap shown_content k ∙ (same ∙ ap (λ r. change (shown_content r)) (sym h)),
  )

  pub delete_at-content :
      (b b' : BufferManager) (j : ℕ)
      → IsSound b
      → delete_at size heap b (slot_id size heap pid j) ≡ (b', ok tt)
      → IsSound b' × (content b' ≡ (if j == i then none else content b))
  unfolding delete_at
  delete_at-content b b' j sound h =
      let (page, page', hb, hc, hb') =
        change_at-fetched size heap pid b b' j
          (λ x k. set_slot_alive heap.schema.record_size x k false) h in
      from_page b b' page page' (λ c. if j == i then none else c) hb hb'
        (slot_deleted heap.schema i page page' j hc (sound page hb))

  pub update_at-content :
      (b b' : BufferManager) (j : ℕ) (values : List FieldValue)
      → IsSound b
      → IsKept j values
      → update_at size heap b (slot_id size heap pid j) values ≡ (b', ok tt)
      → IsSound b' × (content b' ≡ (if j == i then overwritten (content b) values else content b))
  unfolding update_at
  update_at-content b b' j values sound (fits, ints, kept) h =
      let change : List ℕ → ℕ → Result (List ℕ) = λ x k. (do
        row ← make_row heap.schema values
        buf ← serialize row
        set_record heap.schema.record_size x k buf) in
      let (page, page', hb, hc, hb') = change_at-fetched size heap pid b b' j change h in
      let (row, hm, hs) =
        >>=-eq-ok (make_row heap.schema values)
          (λ r. serialize r >>= (λ buf. set_record heap.schema.record_size page j buf)) hc in
      let (buf, hz, hx) =
        >>=-eq-ok (serialize row) (λ x. set_record heap.schema.record_size page j x) hs in
      let (l, reads) =
        stored_bytes heap.schema cols values buf made ints (ap (λ r. r >>= serialize) hm ∙ hz) in
      from_page b b' page page' (λ c. if j == i then overwritten c values else c) hb hb'
        (subst
          (λ vs.
            IsTidy heap.schema.record_size i page'
            × (slot_values heap.schema i page' ≡ (
                if j == i
                then overwritten (slot_values heap.schema i page) vs
                else slot_values heap.schema i page)))
          kept
          (slot_updated heap.schema i buf
            (record { schema = heap.schema; values = map as_stored values }) l reads page page' j hx
            (sound page hb)))

  pub insert_at-content :
      (b b' : BufferManager) (j : ℕ) (values : List FieldValue)
      → IsSound b
      → IsKept j values
      → insert_at size heap b (slot_id size heap pid j) values ≡ (b', ok tt)
      → IsSound b' × (content b' ≡ (if j == i then some values else content b))
  insert_at-content b b' j values sound (fits, ints, kept) h =
      let (page, page1, page', buf, hb, hg, hw, hx, hb') =
        insert_at-fetched size heap pid b b' j values h in
      let (l, reads) = stored_bytes heap.schema cols values buf made ints hw in
      from_page b b' page page' (λ c. if j == i then some values else c) hb hb'
        (subst
          (λ vs.
            IsTidy heap.schema.record_size i page'
            × (slot_values heap.schema i page'
                ≡ (if j == i then some vs else slot_values heap.schema i page)))
          kept
          (slot_inserted heap.schema i buf
            (record { schema = heap.schema; values = map as_stored values }) l reads page page1
            page' j hg hx fits (sound page hb)))
