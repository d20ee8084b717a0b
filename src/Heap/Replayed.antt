-- ===== src/Heap/Replayed.antt =====
-- insertAt, deleteAt and updateAt of tableHeap/TableHeap.cpp on the bytes of a page, as one slot of it
-- sees them.
use sql_engine.Base.{
  ℕ, ◌+◌, ◌*◌, ◌≤◌, ◌<◌, Bool, true, false, ◌==◌, ◌≡◌, ◌≢◌, refl, sym, ap, ap₂, ◌∙◌, Option, none,
  some, List, [], ◌∷◌, length, ℤ, pos, if◌then◌else◌, Result, ok, err, ◌>>=◌, Bool-cases, inl, inr,
  arith, subst, ==_iff,
}
use sql_engine.Base.Int.{leb_ℤ}
use sql_engine.Schema.{Schema}
use sql_engine.Record.{FieldValue, Row, read_bytes, write_bytes, deserialize}
use sql_engine.Heap.Bytes.{read_before, read_behind}
use sql_engine.Heap.Slots.{
  get_num_slots, set_num_slots, get_slot_ptr, is_slot_alive, set_slot_alive, set_record, grown_page,
  fill_slot,
}
use sql_engine.Heap.Place.{
  apart, set_num_slots-read, set_num_slots-other, fill_slot-read, fill_slot-other,
}
use sql_engine.Wal.Orderly.{overwritten}
use sql_engine.Heap.Delete.{set_slot_alive-read}
use sql_engine.Heap.Update.{set_record-read}

-- The slot is within the number of slots when it is alive.
abbrev pub IsTidy : ℕ → ℕ → List ℕ → Type 0
IsTidy size i page =
    (n : ℤ) × (a : Bool) × (get_num_slots page ≡ ok n)
    × (is_slot_alive size page i ≡ ok a)
    × (leb_ℤ n (pos i) ≡ true → a ≡ false)

abbrev row_values : Result Row → List FieldValue
row_values (ok row) = row.values
row_values (err x) = []

-- The bytes of the record in the slot, as a row.
abbrev row_bytes : Schema → ℕ → List ℕ → Result Row
row_bytes s i page =
    read_bytes page (get_slot_ptr s.record_size i + 1) s.record_size >>= deserialize s

abbrev shown : Result Bool → Result Row → Option (List FieldValue)
shown (err x) row = none
shown (ok false) row = none
shown (ok true) row = some (row_values row)

-- The values in the slot, when it is alive.
abbrev pub slot_values : Schema → ℕ → List ℕ → Option (List FieldValue)
slot_values s i page = shown (is_slot_alive s.record_size page i) (row_bytes s i page)

module _ (size : ℕ) where
  -- A write within one slot leaves the number of slots and the other slots.
  write_apart :
      (page page' bs : List ℕ) (o j i : ℕ)
      → write_bytes page o bs ≡ ok page'
      → 4 + j * (size + 1) ≤ o
      → o + length bs ≤ 4 + j * (size + 1) + (size + 1)
      → j ≢ i
      → (is_slot_alive size page' i ≡ is_slot_alive size page i)
        × (read_bytes page' (get_slot_ptr size i + 1) size
            ≡ read_bytes page (get_slot_ptr size i + 1) size)
        × (get_num_slots page' ≡ get_num_slots page)
  unfolding is_slot_alive get_slot_ptr get_num_slots
  write_apart page page' bs o j i h lo hi d = elim (apart size j i d) [
    | inl before ↦ (
      rw (read_before page page' bs o (4 + i * (size + 1)) 1 h (omega (arith, before, lo))) refl,
      read_before page page' bs o (4 + i * (size + 1) + 1) size h (omega (arith, before, lo)),
      rw (read_before page page' bs o 0 4 h (omega (arith, lo))) refl,
    )
    | inr behind ↦ (
      rw (read_behind page page' bs o (4 + i * (size + 1)) 1 h (omega (arith, behind, hi))) refl,
      read_behind page page' bs o (4 + i * (size + 1) + 1) size h (omega (arith, behind, hi)),
      rw (read_before page page' bs o 0 4 h (omega (arith, lo))) refl,
    )
  ]

  alive_apart :
      (page page' : List ℕ) (j i : ℕ) (b : Bool)
      → set_slot_alive size page j b ≡ ok page'
      → j ≢ i
      → (is_slot_alive size page' i ≡ is_slot_alive size page i)
        × (read_bytes page' (get_slot_ptr size i + 1) size
            ≡ read_bytes page (get_slot_ptr size i + 1) size)
        × (get_num_slots page' ≡ get_num_slots page)
  unfolding set_slot_alive get_slot_ptr
  alive_apart page page' j i b h d =
      write_apart page page' ((if b then 1 else 0) ∷ []) (4 + j * (size + 1)) j i h (omega arith)
        (omega arith) d

  record_apart :
      (page page' buf : List ℕ) (j i : ℕ)
      → set_record size page j buf ≡ ok page'
      → length buf ≡ size
      → j ≢ i
      → (is_slot_alive size page' i ≡ is_slot_alive size page i)
        × (read_bytes page' (get_slot_ptr size i + 1) size
            ≡ read_bytes page (get_slot_ptr size i + 1) size)
        × (get_num_slots page' ≡ get_num_slots page)
  unfolding set_record get_slot_ptr
  record_apart page page' buf j i h l d =
      write_apart page page' buf (4 + j * (size + 1) + 1) j i h (omega arith) (omega (arith, l)) d

module _ (s : Schema) (i : ℕ) where
  slot_values-same :
      (page page' : List ℕ)
      → is_slot_alive s.record_size page' i ≡ is_slot_alive s.record_size page i
      → read_bytes page' (get_slot_ptr s.record_size i + 1) s.record_size
        ≡ read_bytes page (get_slot_ptr s.record_size i + 1) s.record_size
      → slot_values s i page' ≡ slot_values s i page
  slot_values-same page page' h k = ap₂ shown h (ap (λ r. r >>= deserialize s) k)

  IsTidy-same :
      (page page' : List ℕ)
      → is_slot_alive s.record_size page' i ≡ is_slot_alive s.record_size page i
      → get_num_slots page' ≡ get_num_slots page
      → IsTidy s.record_size i page
      → IsTidy s.record_size i page'
  IsTidy-same page page' h k (n, a, hn, ha, tidy) = (n, a, k ∙ hn, h ∙ ha, tidy)

  pub slot_deleted :
      (page page' : List ℕ) (j : ℕ)
      → set_slot_alive s.record_size page j false ≡ ok page'
      → IsTidy s.record_size i page
      → IsTidy s.record_size i page'
        × (slot_values s i page' ≡ (if j == i then none else slot_values s i page))
  slot_deleted page page' j h (n, a, hn, ha, tidy) = elim (Bool-cases (j == i)) [
    | inl e ↦
        let (dead, count) = set_slot_alive-read s.record_size page page' i (
          subst (λ k. set_slot_alive s.record_size page k false ≡ ok page') ((==_iff j i).0 e) h) in
        (
          (n, false, count ∙ hn, dead, λ _. refl),
          ap (λ x. shown x (row_bytes s i page')) dead ∙ rw e refl,
        )
    | inr e ↦
        let (alive, bytes, count) =
          alive_apart s.record_size page page' j i false h (λ q. ground (arith, e, q)) in
        (
          IsTidy-same page page' alive count (n, a, hn, ha, tidy),
          slot_values-same page page' alive bytes ∙ rw e refl,
        )
  ]

  module _ (buf : List ℕ) (row : Row) (l : length buf ≡ s.record_size)
      (reads : deserialize s buf ≡ ok row) where
    written_over :
        (b : Bool) (r : Result Row)
        → shown (ok b) (ok row) ≡ overwritten (shown (ok b) r) row.values
    written_over true r = refl
    written_over false r = refl

    read_back :
        (page : List ℕ)
        → read_bytes page (get_slot_ptr s.record_size i + 1) s.record_size ≡ ok buf
        → row_bytes s i page ≡ ok row
    read_back page h = ap (λ r. r >>= deserialize s) h ∙ reads

    pub slot_updated :
        (page page' : List ℕ) (j : ℕ)
        → set_record s.record_size page j buf ≡ ok page'
        → IsTidy s.record_size i page
        → IsTidy s.record_size i page'
          × (slot_values s i page' ≡ (
              if j == i
              then overwritten (slot_values s i page) row.values
              else slot_values s i page))
    slot_updated page page' j h (n, a, hn, ha, tidy) = elim (Bool-cases (j == i)) [
      | inl e ↦
          let (alive, count, bytes) =
            set_record-read s.record_size page page' i buf
              (subst (λ k. set_record s.record_size page k buf ≡ ok page') ((==_iff j i).0 e) h)
              l in
          (
            IsTidy-same page page' alive count (n, a, hn, ha, tidy),
            ap₂ shown (alive ∙ ha) (read_back page' bytes)
                ∙ (written_over a (row_bytes s i page)
                    ∙ ap (λ x. overwritten (shown x (row_bytes s i page)) row.values) (sym ha)
                    ∙ rw e refl),
          )
      | inr e ↦
          let (alive, bytes, count) =
            record_apart s.record_size page page' buf j i h l (λ q. ground (arith, e, q)) in
          (
            IsTidy-same page page' alive count (n, a, hn, ha, tidy),
            slot_values-same page page' alive bytes ∙ rw e refl,
          )
    ]

    -- The count grows to the slot that is filled, if need be.
    grown :
        (page page1 : List ℕ) (j : ℕ) (n : ℤ)
        → grown_page page j ≡ ok page1
        → get_num_slots page ≡ ok n
        → j + 1 < 2147483648
        → (n1 : ℤ) × (get_num_slots page1 ≡ ok n1)
          × (leb_ℤ n1 (pos j) ≡ false)
          × (leb_ℤ n1 (pos i) ≡ true → leb_ℤ n (pos i) ≡ true)
          × (is_slot_alive s.record_size page1 i ≡ is_slot_alive s.record_size page i)
          × (read_bytes page1 (get_slot_ptr s.record_size i + 1) s.record_size
              ≡ read_bytes page (get_slot_ptr s.record_size i + 1) s.record_size)
    unfolding grown_page
    grown page page1 j n g hn fits = elim (Bool-cases (leb_ℤ n (pos j))) [
      | inl e ↦
          let grows : set_num_slots page (pos (j + 1)) ≡ ok page1 = ground (arith, hn, e, g) in
          let (alive, bytes) = set_num_slots-other s.record_size page page1 (pos (j + 1)) i grows in
          (
            pos (j + 1),
            set_num_slots-read s.record_size page page1 (j + 1) grows fits,
            ground arith,
            λ q. ground (arith, e, q),
            alive,
            bytes,
          )
      | inr e ↦
          let same : page ≡ page1 = ground (arith, hn, e, g) in
          (
            n,
            ap get_num_slots (sym same) ∙ hn,
            e,
            λ q. q,
            ap (λ p. is_slot_alive s.record_size p i) (sym same),
            ap (λ p. read_bytes p (get_slot_ptr s.record_size i + 1) s.record_size) (sym same),
          )
    ]

    pub slot_inserted :
        (page page1 page' : List ℕ) (j : ℕ)
        → grown_page page j ≡ ok page1
        → fill_slot s.record_size page1 j buf ≡ ok page'
        → j + 1 < 2147483648
        → IsTidy s.record_size i page
        → IsTidy s.record_size i page'
          × (slot_values s i page' ≡ (if j == i then some row.values else slot_values s i page))
    slot_inserted page page1 page' j g h fits (n, a, hn, ha, tidy) =
        let (n1, count1, above, back, alive1, bytes1) = grown page page1 j n g hn fits in
        elim (Bool-cases (j == i)) [
          | inl e ↦
              let is_i = (==_iff j i).0 e in
              let (alive, bytes, count) =
                fill_slot-read s.record_size page1 page' i buf
                  (subst (λ k. fill_slot s.record_size page1 k buf ≡ ok page') is_i h) l in
              let within : leb_ℤ n1 (pos i) ≡ false =
                subst (λ k. leb_ℤ n1 (pos k) ≡ false) is_i above in
              (
                (n1, true, count ∙ count1, alive, λ q. cc),
                ap₂ shown alive (read_back page' bytes) ∙ rw e refl,
              )
          | inr e ↦
              let (_, _, count) = fill_slot-read s.record_size page1 page' j buf h l in
              let (alive, bytes) =
                fill_slot-other s.record_size page1 page' j i buf h l (λ q. ground (arith, e, q)) in
              (
                (n1, a, count ∙ count1, alive ∙ (alive1 ∙ ha), λ q. tidy (back q)),
                slot_values-same page page' (alive ∙ alive1) (bytes ∙ bytes1) ∙ rw e refl,
              )
        ]
