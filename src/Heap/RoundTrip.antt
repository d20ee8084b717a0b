-- ===== src/Heap/RoundTrip.antt =====
-- Records that the methods of tableHeap/TableHeap.cpp write are read back by getRecord.
use sql_engine.Base.{
  ℕ, suc, zero, ◌+◌, ◌<◌, false, ◌≡◌, refl, sym, ap, ◌∙◌, subst, Option, none, some, List, map, [],
  All, pos, Result, ok, err, ok-injective, >>=-eq-ok, ◌>>=◌, ◌==◌, arith, append-nil, length,
}
use sql_engine.Schema.{Column, make_schema}
use sql_engine.Record.{FieldValue, Row, make_row, serialize, deserialize}
use sql_engine.Record.Fields.{Fits, as_stored}
use sql_engine.Record.RoundTrip.{round_trip}
use sql_engine.Files.{get_page_count, allocate_page}
use sql_engine.Buffer.{Frame, BufferManager, Outcome, set_frame, frame_of, fetch_page, unpin_page}
use sql_engine.Buffer.Found.{fetch_page-found, frame_of-set_frame}
use sql_engine.Heap.Slots.{row_at, place, fill_slot, set_num_slots}
use sql_engine.Heap.Place.{Holds, place-IsPlaced, fill_slot-read, set_num_slots-read}
use sql_engine.Heap.{
  RecordId, TableHeap, then_call, reading, page_bytes, release, finish, page_of, insert_new,
  insert_loop, insert_record, get_record,
}
use sql_engine.Heap.Pool.{page_bytes-found, release-found, finish-found}

pub then_call-ok {ℓ κ} :
    {A : Type ℓ} {B : Type κ} (o : Outcome A) (next : BufferManager → A → Outcome B)
    {b : BufferManager} {c : B}
    → then_call o next ≡ (b, ok c)
    → (a : A) × (o.1 ≡ ok a) × (next o.0 a ≡ (b, ok c))
then_call-ok (b, err e) next h = absurd (cc)
then_call-ok (b, ok a) next h = (a, refl, h)

pub reading-ok {ℓ κ} :
    {A : Type ℓ} {B : Type κ} (b0 : BufferManager) (r : Result A) (next : A → Outcome B)
    {b : BufferManager} {c : B}
    → reading b0 r next ≡ (b, ok c)
    → (a : A) × (r ≡ ok a) × (next a ≡ (b, ok c))
reading-ok b0 (err e) next h = absurd (cc)
reading-ok b0 (ok a) next h = (a, refl, h)

module _ (size : ℕ) (heap : TableHeap) where
  -- A page that is in the pool is read from there.
  pub get_found :
      (b : BufferManager) (pid i slot : ℕ) (f : Frame)
      → frame_of b (page_of size heap pid) ≡ some (i, f)
      → (get_record size heap b (record { page_id = pos pid; slot_num = pos slot })).1
        ≡ row_at heap.schema f.bytes (pos slot)
  unfolding get_record fetch_page
  get_found b pid i slot f h =
      let p = page_of size heap pid in
      let f' = record f { pin_count = f.pin_count + 1 } in
      let b1 = set_frame b i f' in
      let hit : fetch_page size b p ≡ (b1, ok i) = rw (h, fetch_page) refl in
      let h' = frame_of-set_frame b p i f f' h in
      let answer = row_at heap.schema f.bytes (pos slot) in
      let (g, e, _, _) = release-found size b1 p i f' answer h' (ground arith) in
      let after_fetch : BufferManager → ℕ → Outcome Row = λ b2 j.
        reading b2 (page_bytes b2 j)
          (λ page. release size b2 p (row_at heap.schema page (pos slot))) in
      ap (λ o. (then_call o after_fetch).1) hit
      ∙ (ap (λ r. (reading b1 r (λ page. release size b1 p (row_at heap.schema page (pos slot)))).1)
            (page_bytes-found b1 p i f' h')
          ∙ ap (λ o. o.1) e)

  -- A row whose bytes the slot of the page holds.
  abbrev IsStored : BufferManager → RecordId → List ℕ → Type 0
  IsStored b rid buf =
      (pid : ℕ) × (slot : ℕ) × (i : ℕ) × (f : Frame) × (rid
        ≡ record { page_id = pos pid; slot_num = pos slot })
      × (frame_of b (page_of size heap pid) ≡ some (i, f))
      × Holds heap.schema.record_size f.bytes slot buf

  pub row_at-Holds :
      (page : List ℕ) (slot : ℕ) (buf : List ℕ)
      → Holds heap.schema.record_size page slot buf
      → row_at heap.schema page (pos slot) ≡ deserialize heap.schema buf
  unfolding row_at
  row_at-Holds page slot buf h = let (n, e, l, a, r) = h in ground (arith, e, l, a, r)

  finish-IsStored :
      (b b' : BufferManager) (pid slot i : ℕ) (f : Frame) (page buf : List ℕ) (rid : RecordId)
      → frame_of b (page_of size heap pid) ≡ some (i, f)
      → (f.pin_count == 0) ≡ false
      → Holds heap.schema.record_size page slot buf
      → finish size b
          (page_of size heap pid)
          i
          page
          (record { page_id = pos pid; slot_num = pos slot })
        ≡ (b', ok rid)
      → IsStored b' rid buf
  finish-IsStored b b' pid slot i f page buf rid h z held done =
      let p = page_of size heap pid in
      let here : RecordId = record { page_id = pos pid; slot_num = pos slot } in
      let (b2, g, e, k, same) = finish-found size b p i f page here h z in
      (
        pid,
        slot,
        i,
        g,
        ok-injective (ap (λ o. o.1) (sym done ∙ e)),
        ap (λ o. frame_of o.0 p) (sym done ∙ e) ∙ k,
        subst (λ x. Holds heap.schema.record_size x slot buf) (sym same) held,
      )

  insert_new-IsStored :
      (b b' : BufferManager) (buf : List ℕ) (rid : RecordId)
      → insert_new size heap b buf ≡ (b', ok rid)
      → length buf ≡ heap.schema.record_size
      → IsStored b' rid buf
  unfolding insert_new
  insert_new-IsStored b b' buf rid h l =
      let (allocated, _, h1) = reading-ok b (allocate_page size b.files heap.file_id) _ h in
      let b0 = record b { files = allocated.0 } in
      let (i, hf, h2) = then_call-ok (fetch_page size b0 (page_of size heap allocated.1)) _ h1 in
      let b1 = (fetch_page size b0 (page_of size heap allocated.1)).0 in
      let (f, hp, z) = fetch_page-found size b0 (page_of size heap allocated.1) i hf in
      let (page, hw, h3) = reading-ok b1 _ _ h2 in
      let (page0, _, hw1) = >>=-eq-ok (page_bytes b1 i) _ hw in
      let (page1, hn, hs) = >>=-eq-ok (set_num_slots page0 (pos 1)) _ hw1 in
      finish-IsStored b1 b' allocated.1 0 i f page buf rid hp z (first_slot page0 page1 page hn hs)
        h3
    where
      first_slot :
          (page0 page1 page : List ℕ)
          → set_num_slots page0 (pos 1) ≡ ok page1
          → fill_slot heap.schema.record_size page1 0 buf ≡ ok page
          → Holds heap.schema.record_size page 0 buf
      first_slot page0 page1 page hn hs =
          let n = set_num_slots-read heap.schema.record_size page0 page1 1 hn (omega arith) in
          let (a, r, m) = fill_slot-read heap.schema.record_size page1 page 0 buf hs l in
          (pos 1, m ∙ n, refl, a, r)

  insert_loop-IsStored :
      (rest pid : ℕ) (b b' : BufferManager) (buf : List ℕ) (rid : RecordId)
      → insert_loop size heap rest pid b buf ≡ (b', ok rid)
      → length buf ≡ heap.schema.record_size
      → heap.max_slots < 2147483648
      → IsStored b' rid buf
  unfolding insert_loop
  insert_loop-IsStored zero pid b b' buf rid h l fits = insert_new-IsStored b b' buf rid h l
  insert_loop-IsStored (suc rest) pid b b' buf rid h l fits =
      let (i, hf, h1) = then_call-ok (fetch_page size b (page_of size heap pid)) _ h in
      let b1 = (fetch_page size b (page_of size heap pid)).0 in
      let (f, hp, z) = fetch_page-found size b (page_of size heap pid) i hf in
      let (placed, hw, h2) = reading-ok b1 _ _ h1 in
      let (page, _, hw1) = >>=-eq-ok (page_bytes b1 i) _ hw in
      go b1 i f page placed hp z hw1 h2
        (λ b2 e. insert_loop-IsStored rest (pid + 1) b2 b' buf rid e l fits)
    where
      go :
          (b1 : BufferManager) (i : ℕ) (f : Frame) (page : List ℕ) (placed : Option (ℕ × List ℕ))
          → frame_of b1 (page_of size heap pid) ≡ some (i, f)
          → (f.pin_count == 0) ≡ false
          → place heap.schema.record_size heap.max_slots page buf ≡ ok placed
          → (elim placed [
            | some (slot, page') ↦
                finish size b1
                  (page_of size heap pid)
                  i
                  page'
                  (record { page_id = pos pid; slot_num = pos slot })
            | none ↦
                then_call
                  (unpin_page b1 (page_of size heap pid))
                  (λ b2 u. insert_loop size heap rest (pid + 1) b2 buf)
          ])
            ≡ (b', ok rid)
          → ((b2 : BufferManager)
              → insert_loop size heap rest (pid + 1) b2 buf ≡ (b', ok rid)
              → IsStored b' rid buf)
          → IsStored b' rid buf
      go b1 i f page (some (slot, page')) hp z hw h2 next =
          let (held, _) =
            place-IsPlaced heap.schema.record_size heap.max_slots page page' slot buf hw l fits in
          finish-IsStored b1 b' pid slot i f page' buf rid hp z held h2
      go b1 i f page none hp z hw h2 next =
          let (u, _, h3) = then_call-ok (unpin_page b1 (page_of size heap pid)) _ h2 in
          next (unpin_page b1 (page_of size heap pid)).0 h3

-- A record that insertRecord has inserted is the record that getRecord gives for the id that was
-- returned, whichever slot, page or new page it went to: the same values, but that a string ends before
-- its first zero byte. The schema is one that its constructor accepts, INT values have 32 bits, and a
-- page has less than 2^31 slots.
pub get_record-insert_record :
    (size : ℕ) (heap : TableHeap) (cols : List Column) (b b' : BufferManager)
    (values : List FieldValue) (rid : RecordId)
    → make_schema cols ≡ ok heap.schema
    → heap.max_slots < 2147483648
    → All Fits values
    → insert_record size heap b values ≡ (b', ok rid)
    → (get_record size heap b' rid).1
      ≡ ok (record { schema = heap.schema; values = map as_stored values })
unfolding insert_record
get_record-insert_record size heap cols b b' values rid hs fits ints h =
    let (buf, hb, h1) = reading-ok b (do row ← make_row heap.schema values; serialize row) _ h in
    let (count, _, h2) = reading-ok b (get_page_count size b.files heap.file_id) _ h1 in
    let (row, hr, hw) = >>=-eq-ok (make_row heap.schema values) _ hb in
    let (bytes, written, l, back) = round_trip cols heap.schema values row [] hs hr ints in
    let same : bytes ≡ buf = ok-injective (sym written ∙ hw) in
    let (pid, slot, i, f, is_rid, found, held) =
      insert_loop-IsStored size heap count 0 b b' buf rid h2 (ap length (sym same) ∙ l) fits in
    ap (λ r. (get_record size heap b' r).1) is_rid
    ∙ (get_found size heap b' pid i slot f found
        ∙ (row_at-Holds size heap f.bytes slot buf held
            ∙ (ap (deserialize heap.schema) (sym same ∙ sym (append-nil bytes)) ∙ back)))
