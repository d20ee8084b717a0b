-- ===== src/Heap/Place.antt =====
-- What insertRecord of tableHeap/TableHeap.cpp makes of a page.
use sql_engine.Base.{
  ℕ, zero, suc, ◌+◌, ◌*◌, ◌≤◌, ◌<◌, true, false, ◌≡◌, ◌≢◌, refl, sym, ap, ◌∙◌, Option, none, some,
  List, [], ◌∷◌, length, ℤ, pos, negsuc, if◌then◌else◌, ok, ◌>>=◌, >>=-eq-ok, ok-injective, subst,
  Bool-cases, some-injective, inl, inr, ltb, ltb→lt, ◌⊎◌, arith,
}
use native.Mathlib.Nat.{suc-mul, mul-le-mul_right}
use sql_engine.Base.Int.{pos_part, ltb_ℤ, leb_ℤ, fits32}
use sql_engine.Record.{read_bytes, of_word, word_of, int_bytes, word_of_bytes, word_round}
use sql_engine.Heap.Bytes.{read_written, read_before, read_behind}
use sql_engine.Heap.Slots.{
  get_num_slots, set_num_slots, get_slot_ptr, is_slot_alive, set_slot_alive, set_record, fill_slot,
  find_dead, append_slot, place,
}

-- Two slots do not overlap.
behind_slot : (size i j : ℕ) → i < j → i * (size + 1) + (size + 1) ≤ j * (size + 1)
behind_slot size i j h = omega (
  arith,
  suc-mul i (size + 1),
  mul-le-mul_right {m = suc i} {n = j} (size + 1) (omega (arith, h)),
)

pub apart :
    (size i j : ℕ)
    → i ≢ j
    → ((4 + j * (size + 1)) + (size + 1) ≤ 4 + i * (size + 1))
      ⊎ ((4 + i * (size + 1)) + (size + 1) ≤ 4 + j * (size + 1))
apart size i j d = elim (Bool-cases (ltb i j)) [
  | inl e ↦ inr (omega (arith, behind_slot size i j (ltb→lt i j e)))
  | inr e ↦ inl (omega (arith, behind_slot size j i (ground (arith, d, e))))
]

module _ (size : ℕ) where
  -- A filled slot is alive and has the record; the number of slots is as before.
  pub fill_slot-read :
      (page page' : List ℕ) (i : ℕ) (buf : List ℕ)
      → fill_slot size page i buf ≡ ok page'
      → length buf ≡ size
      → (is_slot_alive size page' i ≡ ok true)
        × (read_bytes page' (get_slot_ptr size i + 1) size ≡ ok buf)
        × (get_num_slots page' ≡ get_num_slots page)
  unfolding fill_slot set_slot_alive set_record is_slot_alive get_num_slots get_slot_ptr word_of
  fill_slot-read page page' i buf h l =
      let (page1, w1, w2) = >>=-eq-ok (set_slot_alive size page i true) _ h in
      let p = 4 + i * (size + 1) in
      let head = read_written page page1 (1 ∷ []) p w1 in
      let kept = read_before page1 page' buf (p + 1) p 1 w2 (omega arith) in
      let body = read_written page1 page' buf (p + 1) w2 in
      let word1 = read_before page page1 (1 ∷ []) p 0 4 w1 (omega arith) in
      let word2 = read_before page1 page' buf (p + 1) 0 4 w2 (omega arith) in
      (rw (kept ∙ head) refl, ap (read_bytes page' (p + 1)) (sym l) ∙ body, rw (word2 ∙ word1) refl)

  -- Another slot of the page is as before.
  pub fill_slot-other :
      (page page' : List ℕ) (i j : ℕ) (buf : List ℕ)
      → fill_slot size page i buf ≡ ok page'
      → length buf ≡ size
      → i ≢ j
      → (is_slot_alive size page' j ≡ is_slot_alive size page j)
        × (read_bytes page' (get_slot_ptr size j + 1) size
            ≡ read_bytes page (get_slot_ptr size j + 1) size)
  unfolding fill_slot set_slot_alive set_record is_slot_alive get_slot_ptr
  fill_slot-other page page' i j buf h l d =
      let (page1, w1, w2) = >>=-eq-ok (set_slot_alive size page i true) _ h in
      let p = 4 + i * (size + 1) in
      let q = 4 + j * (size + 1) in
      elim (apart size i j d) [
        | inl far ↦ (
          rw
              (
                read_before page1 page' buf (p + 1) q 1 w2 (omega (arith, far)),
                read_before page page1 (1 ∷ []) p q 1 w1 (omega (arith, far)),
              )
              refl,
          read_before page1 page' buf (p + 1) (q + 1) size w2 (omega (arith, far))
              ∙ read_before page page1 (1 ∷ []) p (q + 1) size w1 (omega (arith, far)),
        )
        | inr far ↦ (
          rw
              (
                read_behind page1 page' buf (p + 1) q 1 w2 (omega (arith, far, l)),
                read_behind page page1 (1 ∷ []) p q 1 w1 (omega (arith, far)),
              )
              refl,
          read_behind page1 page' buf (p + 1) (q + 1) size w2 (omega (arith, far, l))
              ∙ read_behind page page1 (1 ∷ []) p (q + 1) size w1 (omega (arith, far)),
        )
      ]

  pub set_num_slots-read :
      (page page' : List ℕ) (n : ℕ)
      → set_num_slots page (pos n) ≡ ok page'
      → n < 2147483648
      → get_num_slots page' ≡ ok (pos n)
  unfolding set_num_slots get_num_slots int_bytes
  set_num_slots-read page page' n h l =
      let fit : fits32 (pos n) ≡ true = ground arith in
      rw (read_written page page' (int_bytes (pos n)) 0 h)
        (ap ok (ap of_word (word_of_bytes (pos n) fit) ∙ word_round (pos n) fit))

  pub set_num_slots-other :
      (page page' : List ℕ) (n : ℤ) (j : ℕ)
      → set_num_slots page n ≡ ok page'
      → (is_slot_alive size page' j ≡ is_slot_alive size page j)
        × (read_bytes page' (get_slot_ptr size j + 1) size
            ≡ read_bytes page (get_slot_ptr size j + 1) size)
  unfolding set_num_slots is_slot_alive get_slot_ptr int_bytes
  set_num_slots-other page page' n j h = (
    rw (read_behind page page' (int_bytes n) 0 (4 + j * (size + 1)) 1 h (omega arith)) refl,
    read_behind page page' (int_bytes n) 0 (4 + j * (size + 1) + 1) size h (omega arith),
  )

  find_dead-some :
      (rest i : ℕ) (page : List ℕ) (k : ℕ)
      → find_dead size rest i page ≡ ok (some k)
      → (k < i + rest) × (is_slot_alive size page k ≡ ok false)
  unfolding find_dead
  find_dead-some zero i page k h = cc
  find_dead-some (suc rest) i page k h =
      let (alive, e, h') = >>=-eq-ok (is_slot_alive size page i) _ h in
      elim (Bool-cases alive) [
        | inl a ↦
            let (l, d) = find_dead-some rest (i + 1) page k (sym (rw a refl) ∙ h') in
            (omega (arith, l), d)
        | inr a ↦
            let same = some-injective i k (ok-injective (sym (rw a refl) ∙ h')) in
            (omega (arith, same), ap (is_slot_alive size page) (sym same) ∙ (e ∙ ap ok a))
      ]

  -- The page has a record in the slot `j`, with the bytes `buf`.
  abbrev pub Holds : List ℕ → ℕ → List ℕ → Type 0
  Holds page j buf =
      (n : ℤ) × (get_num_slots page ≡ ok n)
      × (leb_ℤ n (pos j) ≡ false)
      × (is_slot_alive size page j ≡ ok true)
      × (read_bytes page (get_slot_ptr size j + 1) size ≡ ok buf)

  -- What placing the bytes `buf` into the slot `i` has done to the page.
  abbrev pub IsPlaced : List ℕ → List ℕ → ℕ → List ℕ → Type 0
  IsPlaced page page' i buf =
      Holds page' i buf × ((j : ℕ) (old : List ℕ) → Holds page j old → (i ≢ j) × Holds page' j old)

  reused :
      (page page' : List ℕ) (n : ℤ) (i : ℕ) (buf : List ℕ)
      → get_num_slots page ≡ ok n
      → find_dead size (pos_part n) 0 page ≡ ok (some i)
      → fill_slot size page i buf ≡ ok page'
      → length buf ≡ size
      → IsPlaced page page' i buf
  reused page page' n i buf hn hd hf l =
      let (below, dead) = find_dead-some (pos_part n) 0 page i hd in
      let (a, r, k) = fill_slot-read page page' i buf hf l in
      (
        (n, k ∙ hn, in_range n i below, a, r),
        λ j old held.
            let (m, hm, below', a', r') = held in
            let apart' : i ≢ j =
              λ e. absurd (ground (arith, a', dead, ap (is_slot_alive size page) e)) in
            let (a2, r2) = fill_slot-other page page' i j buf hf l apart' in
            (apart', (m, k ∙ hm, below', a2 ∙ a', r2 ∙ r')),
      )
    where
      in_range : (z : ℤ) (j : ℕ) → j < 0 + pos_part z → leb_ℤ z (pos j) ≡ false
      in_range (pos m) j h = ground arith
      in_range (negsuc m) j h = absurd (omega arith)

  appended :
      (page page1 page' : List ℕ) (n : ℕ) (buf : List ℕ)
      → get_num_slots page ≡ ok (pos n)
      → set_num_slots page (pos (n + 1)) ≡ ok page1
      → fill_slot size page1 n buf ≡ ok page'
      → length buf ≡ size
      → n + 1 < 2147483648
      → IsPlaced page page' n buf
  appended page page1 page' n buf hn hs hf l fits =
      let k1 = set_num_slots-read page page1 (n + 1) hs fits in
      let (a, r, k) = fill_slot-read page1 page' n buf hf l in
      (
        (pos (n + 1), k ∙ k1, ground arith, a, r),
        λ j old held.
            let (m, hm, below, a', r') = held in
            let same : m ≡ pos n = ok-injective (sym hm ∙ hn) in
            let less : j < n = in_range j (subst (λ z. leb_ℤ z (pos j) ≡ false) same below) in
            let (a1, r1) = set_num_slots-other page page1 (pos (n + 1)) j hs in
            let apart' : n ≢ j = λ e. absurd (omega (arith, less, e)) in
            let (a2, r2) = fill_slot-other page1 page' n j buf hf l apart' in
            (apart', (pos (n + 1), k ∙ k1, ground (arith, less), a2 ∙ (a1 ∙ a'), r2 ∙ (r1 ∙ r'))),
      )
    where
      in_range : (j : ℕ) → leb_ℤ (pos n) (pos j) ≡ false → j < n
      in_range j h = ground arith

  cases-IsPlaced :
      (max_slots : ℕ) (page page' : List ℕ) (i : ℕ) (buf : List ℕ) (n : ℤ) (dead : Option ℕ)
      → length buf ≡ size
      → max_slots < 2147483648
      → get_num_slots page ≡ ok n
      → find_dead size (pos_part n) 0 page ≡ ok dead
      → (elim dead [
        | some k ↦ (do p ← fill_slot size page k buf; ok (some (k, p)))
        | none ↦ if ltb_ℤ n (pos max_slots) then append_slot size page n buf else ok none
      ])
        ≡ ok (some (i, page'))
      → IsPlaced page page' i buf
  unfolding append_slot
  cases-IsPlaced max_slots page page' i buf n (some k) l fits hn hd h =
      let (p, hf, h') = >>=-eq-ok (fill_slot size page k buf) _ h in
      let same = some-injective (k, p) (i, page') (ok-injective h') in
      reused page page' n i buf hn (hd ∙ ap (λ x. ok (some x.0)) same)
        (ap (λ x. fill_slot size page x.0 buf) (sym same) ∙ (hf ∙ ap (λ x. ok x.1) same)) l
  cases-IsPlaced max_slots page page' i buf (negsuc n) none l fits hn hd h =
      absurd (ground (arith, h))
  cases-IsPlaced max_slots page page' i buf (pos n) none l fits hn hd h =
      elim (Bool-cases (ltb_ℤ (pos n) (pos max_slots))) [
        | inr c ↦ absurd (ground (arith, c, h))
        | inl c ↦
            let taken : append_slot size page (pos n) buf ≡ ok (some (i, page')) =
              ground (arith, c, h) in
            let (page1, hs, h1) = >>=-eq-ok (set_num_slots page (pos (n + 1))) _ taken in
            let (page2, hf, h2) = >>=-eq-ok (fill_slot size page1 n buf) _ h1 in
            let same = some-injective (n, page2) (i, page') (ok-injective h2) in
            subst (λ x. IsPlaced page x.1 x.0 buf) same
              (appended page page1 page2 n buf hn hs hf l (ground (arith, c, fits)))
      ]

  -- When insertRecord takes a slot of a page, the slot gets the record: it is alive, within the number
  -- of slots, and has the bytes. It had no record before, and every record of the page is still in its
  -- slot. The record has the size of the slots, and a page has less than 2^31 of them.
  pub place-IsPlaced :
      (max_slots : ℕ) (page page' : List ℕ) (i : ℕ) (buf : List ℕ)
      → place size max_slots page buf ≡ ok (some (i, page'))
      → length buf ≡ size
      → max_slots < 2147483648
      → IsPlaced page page' i buf
  unfolding place append_slot
  place-IsPlaced max_slots page page' i buf h l fits =
      let (n, hn, h1) = >>=-eq-ok (get_num_slots page) _ h in
      let (dead, hd, h2) = >>=-eq-ok (find_dead size (pos_part n) 0 page) _ h1 in
      cases-IsPlaced max_slots page page' i buf n dead l fits hn hd h2
