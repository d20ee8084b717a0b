-- ===== src/Heap/Delete.antt =====
-- deleteRecord of tableHeap/TableHeap.cpp, and getRecord after it.
use sql_engine.Base.{
  ℕ, ◌+◌, ◌*◌, Bool, true, false, ◌≡◌, refl, sym, ap, ap₂, ◌∙◌, subst, Option, none, some,
  Option-cases, some-injective, List, [], ◌∷◌, ℤ, pos, negsuc, Result, ok, err, ok-injective,
  >>=-eq-ok, ◌==◌, Bool-cases, inl, inr, arith, deleted_record, leb, if◌then◌else◌,
}
use sql_engine.Base.Int.{leb_ℤ}
use sql_engine.Record.{Row, word_of}
use sql_engine.Files.{get_page_count}
use sql_engine.Buffer.{Frame, BufferManager, Outcome, frame_of, fetch_page}
use sql_engine.Buffer.Found.{fetch_page-found}
use sql_engine.Heap.Bytes.{read_written, read_before}
use sql_engine.Heap.Slots.{
  get_num_slots, get_slot_ptr, is_slot_alive, set_slot_alive, change_slot, row_at,
}
use sql_engine.Heap.{
  RecordId, TableHeap, checked_ids, reading, page_bytes, release, finish, page_of, change_record,
  delete_record, get_record,
}
use sql_engine.Heap.Pool.{finish-found, release-found}
use sql_engine.Heap.RoundTrip.{then_call-ok, reading-ok, get_found}

pub set_slot_alive-read :
    (size : ℕ) (page page' : List ℕ) (slot : ℕ)
    → set_slot_alive size page slot false ≡ ok page'
    → (is_slot_alive size page' slot ≡ ok false) × (get_num_slots page' ≡ get_num_slots page)
unfolding set_slot_alive is_slot_alive get_num_slots get_slot_ptr word_of
set_slot_alive-read size page page' slot h =
    let p = 4 + slot * (size + 1) in
    (
      rw (read_written page page' (0 ∷ []) p h) refl,
      rw (read_before page page' (0 ∷ []) p 0 4 h (omega arith)) refl,
    )

pub if_false {ℓ} :
    {A : Type ℓ} {c : Bool} (x y : A) {r : A} → c ≡ false → (if c then x else y) ≡ r → y ≡ r
if_false {c = true} x y e h = absurd (cc)
if_false {c = false} x y e h = h

pub if_true {ℓ} :
    {A : Type ℓ} {c : Bool} (x y : A) {r : A} → c ≡ true → (if c then x else y) ≡ r → x ≡ r
if_true {c = true} x y e h = h
if_true {c = false} x y e h = absurd (cc)

pub checked_ids-some :
    (page slot : ℤ) {pid i : ℕ}
    → checked_ids (record { page_id = page; slot_num = slot }) ≡ some (pid, i)
    → (page ≡ pos pid) × (slot ≡ pos i)
checked_ids-some (negsuc p) slot h = absurd (cc)
checked_ids-some (pos p) (negsuc s) h = absurd (cc)
checked_ids-some (pos p) (pos s) {pid = pid} {i = i} h =
    let same = some-injective (p, s) (pid, i) h in (ap (λ x. pos x.0) same, ap (λ x. pos x.1) same)

module _ (size : ℕ) (heap : TableHeap) where
  slot_deleted :
      (page page' : List ℕ) (slot : ℕ)
      → change_slot heap.schema.record_size page slot
          (λ x. set_slot_alive heap.schema.record_size x slot false)
        ≡ ok (some page')
      → row_at heap.schema page' (pos slot) ≡ err deleted_record
  unfolding change_slot row_at
  slot_deleted page page' slot h =
      let (n, hn, h1) = >>=-eq-ok (get_num_slots page) _ h in
      elim (Bool-cases (leb_ℤ n (pos slot))) [
        | inl e ↦ absurd (ground (arith, e, h1))
        | inr e ↦
            let (alive, ha, h2) =
              >>=-eq-ok (is_slot_alive heap.schema.record_size page slot) _ (if_false _ _ e h1) in
            elim (Bool-cases alive) [
              | inr a ↦ absurd (ground (arith, a, h2))
              | inl a ↦
                  let (p, hp, h3) =
                    >>=-eq-ok (set_slot_alive heap.schema.record_size page slot false) _
                      (if_true _ _ a h2) in
                  let (d, k) = set_slot_alive-read heap.schema.record_size page p slot hp in
                  subst (λ x. row_at heap.schema x (pos slot) ≡ err deleted_record)
                    (some-injective p page' (ok-injective h3)) (deleted p n (k ∙ hn) e d)
            ]
      ]
    where
      deleted :
          (x : List ℕ) (n : ℤ)
          → get_num_slots x ≡ ok n
          → leb_ℤ n (pos slot) ≡ false
          → is_slot_alive heap.schema.record_size x slot ≡ ok false
          → row_at heap.schema x (pos slot) ≡ err deleted_record
      deleted x n hn l d = ground (arith, hn, l, d)

  -- A change of the slot, and what getRecord gives afterwards.
  pub change_record-row :
      (b b' : BufferManager) (pid slot : ℕ) (change : List ℕ → Result (List ℕ)) (r : Result Row)
      → ((page page' : List ℕ)
          → change_slot heap.schema.record_size page slot change ≡ ok (some page')
          → row_at heap.schema page' (pos slot) ≡ r)
      → change_record size heap b pid slot change ≡ (b', ok true)
      → (get_record size heap b' (record { page_id = pos pid; slot_num = pos slot })).1 ≡ r
  change_record-row b b' pid slot change r after h =
      let (i, hf, h1) = then_call-ok (fetch_page size b (page_of size heap pid)) _ h in
      let b1 = (fetch_page size b (page_of size heap pid)).0 in
      let (f, hp, z) = fetch_page-found size b (page_of size heap pid) i hf in
      let (changed, hw, h2) = reading-ok b1 _ _ h1 in
      let (page, _, hc) = >>=-eq-ok (page_bytes b1 i) _ hw in go b1 i f page changed hp z hc h2
    where
      go :
          (b1 : BufferManager) (i : ℕ) (f : Frame) (page : List ℕ) (changed : Option (List ℕ))
          → frame_of b1 (page_of size heap pid) ≡ some (i, f)
          → (f.pin_count == 0) ≡ false
          → change_slot heap.schema.record_size page slot change ≡ ok changed
          → (elim changed [
            | none ↦ release size b1 (page_of size heap pid) (ok false)
            | some page' ↦ finish size b1 (page_of size heap pid) i page' true
          ])
            ≡ (b', ok true)
          → (get_record size heap b' (record { page_id = pos pid; slot_num = pos slot })).1 ≡ r
      go b1 i f page none hp z hc h2 =
          let (g, e, _, _) = release-found size b1 (page_of size heap pid) i f (ok false) hp z in
          absurd (ground (arith, sym e ∙ h2))
      go b1 i f page (some page') hp z hc h2 =
          let (b2, g, e, k, same) =
            finish-found size b1 (page_of size heap pid) i f page' true hp z in
          let found : frame_of b' (page_of size heap pid) ≡ some (i, g) =
            ap (λ o. frame_of o.0 (page_of size heap pid)) (sym h2 ∙ e) ∙ k in
          get_found size heap b' pid i slot g found
          ∙ (ap (λ x. row_at heap.schema x (pos slot)) same ∙ after page page' hc)

-- A record that deleteRecord has deleted (it returned true) cannot be read any more: getRecord throws
-- that it is deleted.
pub get_record-delete_record :
    (size : ℕ) (heap : TableHeap) (b b' : BufferManager) (rid : RecordId)
    → delete_record size heap b rid ≡ (b', ok true)
    → (get_record size heap b' rid).1 ≡ err deleted_record
unfolding delete_record
get_record-delete_record size heap b b' rid h = elim (Option-cases (checked_ids rid)) [
  | inl e ↦ absurd (ground (arith, e, h))
  | inr ((pid, slot), e) ↦
      let (same_page, same_slot) = checked_ids-some rid.page_id rid.slot_num e in
      let same : rid ≡ record { page_id = pos pid; slot_num = pos slot } =
        ap₂ (λ p i. record { page_id = p; slot_num = i }) same_page same_slot in
      let go_on : ℕ → Outcome Bool = λ count.
        if leb count pid
        then (b, ok false)
        else change_record size heap b pid slot
            (λ page. set_slot_alive heap.schema.record_size page slot false) in
      let opened : delete_record size heap b rid
          ≡ reading b (get_page_count size b.files heap.file_id) go_on =
        rw (e, delete_record) refl in
      let (count, _, h1) =
        reading-ok b (get_page_count size b.files heap.file_id) go_on (sym opened ∙ h) in
      elim (Bool-cases (leb count pid)) [
        | inl c ↦ absurd (ground (arith, c, h1))
        | inr c ↦
            ap (λ r. (get_record size heap b' r).1) same
            ∙ change_record-row size heap b b' pid slot
                (λ page. set_slot_alive heap.schema.record_size page slot false)
                (err deleted_record) (λ page page'. slot_deleted size heap page page' slot)
                (if_false _ _ c h1)
      ]
]
