-- ===== src/Heap/Slots.antt =====
-- The layout of a page in tableHeap/TableHeap.cpp: the number of slots, then the slots, each a byte
-- that tells whether it is alive and the bytes of a record.
use sql_engine.Base.{
  ℕ, zero, suc, ◌+◌, ◌*◌, Bool, true, not, ◌||◌, ◌==◌, Option, none, some, List, [], ◌∷◌, ℤ, pos,
  negsuc, if◌then◌else◌, Result, ok, err, ◌>>=◌, undefined, invalid_slot, deleted_record,
}
use sql_engine.Base.Int.{pos_part, ltb_ℤ, leb_ℤ}
use sql_engine.Schema.{Schema}
use sql_engine.Record.{Row, read_bytes, write_bytes, deserialize, of_word, word_of, int_bytes}

unfoldable pub get_num_slots : List ℕ → Result ℤ
unfolding read_bytes
get_num_slots page = do word ← read_bytes page 0 4; ok (of_word (word_of word))

unfoldable pub set_num_slots : List ℕ → ℤ → Result (List ℕ)
unfolding write_bytes
set_num_slots page n = write_bytes page 0 (int_bytes n)

module _ (record_size : ℕ) where
  -- The offset of a slot: sizeof(int) + slotIdx * slotSize_
  unfoldable pub get_slot_ptr : ℕ → ℕ
  get_slot_ptr i = 4 + i * (record_size + 1)

  unfoldable pub is_slot_alive : List ℕ → ℕ → Result Bool
  unfolding read_bytes get_slot_ptr
  is_slot_alive page i = do byte ← read_bytes page (get_slot_ptr i) 1; ok (not (word_of byte == 0))

  unfoldable pub set_slot_alive : List ℕ → ℕ → Bool → Result (List ℕ)
  unfolding write_bytes get_slot_ptr
  set_slot_alive page i alive = write_bytes page (get_slot_ptr i) ((if alive then 1 else 0) ∷ [])

  -- memcpy(slot + 1, buf.data(), recordSize_), of a buffer of this size.
  unfoldable pub set_record : List ℕ → ℕ → List ℕ → Result (List ℕ)
  unfolding write_bytes get_slot_ptr
  set_record page i buf = write_bytes page (get_slot_ptr i + 1) buf

  unfoldable pub fill_slot : List ℕ → ℕ → List ℕ → Result (List ℕ)
  unfolding set_slot_alive set_record
  fill_slot page i buf = do page' ← set_slot_alive page i true; set_record page' i buf

  -- The first slot from `i` on that is not alive, among so many.
  unfoldable pub find_dead : ℕ → ℕ → List ℕ → Result (Option ℕ)
  unfolding is_slot_alive
  find_dead zero i page = ok none
  find_dead (suc rest) i page =
      let later = find_dead rest (i + 1) page in
      do alive ← is_slot_alive page i; (if alive then later else ok (some i))

  -- A page that says that it has fewer than no slots is not one that the code writes.
  unfoldable pub append_slot : List ℕ → ℤ → List ℕ → Result (Option (ℕ × List ℕ))
  unfolding set_num_slots fill_slot
  append_slot page (negsuc n) buf = err undefined
  append_slot page (pos n) buf = do
    page1 ← set_num_slots page (pos (n + 1))
    page2 ← fill_slot page1 n buf
    ok (some (n, page2))

  -- What insertRecord does on one page: the slot that it takes and the page after, or none.
  unfoldable pub place : ℕ → List ℕ → List ℕ → Result (Option (ℕ × List ℕ))
  unfolding get_num_slots find_dead fill_slot append_slot
  place max_slots page buf = do
    n ← get_num_slots page
    dead ← find_dead (pos_part n) 0 page
    elim dead [
      | some i ↦ (do page' ← fill_slot page i buf; ok (some (i, page')))
      | none ↦ if ltb_ℤ n (pos max_slots) then append_slot page n buf else ok none
    ]

  -- The slots from `i` on that are alive, among so many.
  unfoldable pub alive_slots : ℕ → ℕ → List ℕ → Result (List ℕ)
  unfolding is_slot_alive
  alive_slots zero i page = ok []
  alive_slots (suc rest) i page = do
    alive ← is_slot_alive page i
    later ← alive_slots rest (i + 1) page
    ok (if alive then i ∷ later else later)

module _ (record_size : ℕ) where
  -- What deleteRecord and updateRecord do on the page: none when there is no such record.
  unfoldable pub change_slot : List ℕ → ℕ → (List ℕ → Result (List ℕ)) → Result (Option (List ℕ))
  unfolding get_num_slots is_slot_alive
  change_slot page slot change = do
    n ← get_num_slots page
    (if leb_ℤ n (pos slot) then ok none else (do
      alive ← is_slot_alive record_size page slot
      (if alive then (do page' ← change page; ok (some page')) else ok none)))

-- insertAt: the slot count grows if needed.
unfoldable pub grown_page : List ℕ → ℕ → Result (List ℕ)
unfolding get_num_slots set_num_slots
grown_page page slot = do
  n ← get_num_slots page
  (if leb_ℤ n (pos slot) then set_num_slots page (pos (slot + 1)) else ok page)

-- What getRecord does on the page. Record::deserialize reads getRecordSize() bytes.
unfoldable pub row_at : Schema → List ℕ → ℤ → Result Row
unfolding get_num_slots is_slot_alive
row_at s page slot = do
  n ← get_num_slots page
  (if ltb_ℤ slot (pos 0) || leb_ℤ n slot then err invalid_slot else (do
    alive ← is_slot_alive s.record_size page (pos_part slot)
    (if alive
        then (do
          buf ← read_bytes page (get_slot_ptr s.record_size (pos_part slot) + 1) s.record_size
          deserialize s buf)
        else err deleted_record)))
