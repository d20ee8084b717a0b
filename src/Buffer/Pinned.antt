-- ===== src/Buffer/Pinned.antt =====
-- fetchPage of bufferManager/BufferManager.cpp and the pages that are pinned.
use sql_engine.Base.{
  ℕ, ◌+◌, ◌≤◌, false, ◌&&◌, ◌≡◌, refl, sym, ap, ◌∙◌, subst, some, get_elem?, set, if◌then◌else◌,
  Result-cases, Bool-cases, Option-cases, some-injective, inl, inr, ==_iff, ◌==◌, arith,
}
use sql_engine.Base.Assoc.{find, insert, find-insert}
use sql_engine.Files.{read_page}
use sql_engine.Buffer.{
  PageId, page_eq, page_beq, page_beq_iff, Frame, BufferManager, Outcome, set_frame, select_victim,
  write_frame, write_back, forget, loaded, load, fetch_missing, frame_of, fetch_page,
}
use sql_engine.Buffer.Coherent.{IsCoherent, get_set, forgotten}
use sql_engine.Buffer.Steps.{frame_of_iff, write_back-IsCoherent}
use sql_engine.Buffer.Invariant.{load_same}
use sql_engine.Buffer.Clock.{victim_free}

pub frame_of_known :
    (b : BufferManager) (p : PageId) (i : ℕ) (f : Frame)
    → find p b.page_table ≡ some i
    → get_elem? b.frames i ≡ some f
    → frame_of b p ≡ some (i, f)
unfolding frame_of
frame_of_known b p i f h k = rw (h, k, frame_of) refl

module _ (size : ℕ) where
  write_back_other :
      (b : BufferManager) (i j : ℕ) (f : Frame)
      → get_elem? b.frames i ≡ some f
      → (i == j) ≡ false
      → get_elem? (write_back size b i f).0.frames j ≡ get_elem? b.frames j
  unfolding write_back
  write_back_other b i j f h d = elim (Bool-cases (f.is_valid && f.is_dirty)) [
    | inr e ↦ rw (e, write_back) refl
    | inl e ↦ elim (Result-cases (write_frame size b.files f)) [
      | inl (x, k) ↦ rw (e, k, write_back) refl
      | inr (m, k) ↦
          rw (e, k, write_back)
            (rw (get_set b.frames i j f (record f { is_dirty = false }) h, d) refl)
    ]
  ]

  -- A page that another frame holds.
  load_other :
      (b : BufferManager) (i : ℕ) (f : Frame) (p q : PageId) (j : ℕ) (g : Frame)
      → IsCoherent b
      → get_elem? b.frames i ≡ some f
      → find q b.page_table ≡ some j
      → get_elem? b.frames j ≡ some g
      → (i == j) ≡ false
      → page_beq p q ≡ false
      → frame_of (load size b i f p).0 q ≡ some (j, g)
  unfolding load
  load_other b i f p q j g c h t k d n =
      let table = (if f.is_valid then forget f.pid b.page_table else b.page_table) in
      let w = forgotten b.frames b.page_table i f c.0 c.1 h in
      let (g', k', v, s) = c.0 q j t in
      let (q', s', t') = w.1 j g' k' v d in
      let same = some-injective q' q (sym s' ∙ s) in
      let kept : find q table ≡ some j = ap (λ x. find x table) (sym same) ∙ t' in
      elim (Result-cases (read_page size b.files p.file_id p.page_id)) [
        | inl (e, r) ↦ rw (r, load) (frame_of_known (record b { page_table = table }) q j g kept k)
        | inr (x, r) ↦
            rw (r, load)
              (frame_of_known
                (record b { frames = set b.frames i (loaded p x); page_table = insert p i table }) q
                j g (rw (find-insert p q i table, n) kept)
                (rw (get_set b.frames i j f (loaded p x) h, d) k))
      ]

  missing_other :
      (b : BufferManager) (p q : PageId) (j : ℕ) (g : Frame)
      → IsCoherent b
      → frame_of b q ≡ some (j, g)
      → (g.pin_count == 0) ≡ false
      → page_beq p q ≡ false
      → frame_of (fetch_missing size b p).0 q ≡ some (j, g)
  unfolding fetch_missing
  missing_other b p q j g c h z n = elim (Option-cases (select_victim b)) [
    | inl e ↦ rw (e, fetch_missing) h
    | inr ((i, f), e) ↦
        let (t, k) = frame_of_iff b q j g h in
        let (k1, u) = victim_free b i f e in
        let (g', k', v, s) = c.0 q j t in
        let apart : (i == j) ≡ false = elim (Bool-cases (i == j)) [
          | inr d ↦ d
          | inl d ↦
              let one =
                some-injective f g (sym k1 ∙ (ap (get_elem? b.frames) ((==_iff i j).0 d) ∙ k)) in
              let two = some-injective g' g (sym k' ∙ k) in
              absurd (
                ground (
                  arith,
                  u,
                  v,
                  z,
                  ap (λ x. x.pin_count) one,
                  ap (λ x. x.is_valid) one,
                  ap (λ x. x.is_valid) two,
                ))
        ] in
        let taken = record b { clock_hand = i } in
        let (c1, t1, (f1, h1, v1, s1)) = write_back-IsCoherent size taken i f c k1 in
        let b' = (write_back size taken i f).0 in
        let k2 = write_back_other taken i j f k1 apart ∙ k in
        elim (Result-cases (write_back size taken i f).1) [
          | inl (x, r) ↦ rw (e, r, fetch_missing) (frame_of_known b' q j g (ap (find q) t1 ∙ t) k2)
          | inr (x, r) ↦
              rw (e, r, fetch_missing)
                (subst {A = Outcome ℕ} (λ o. frame_of o.0 q ≡ some (j, g))
                  (sym (load_same size b' i f f1 p v1 s1))
                  (load_other b' i f1 p q j g c1 h1 (ap (find q) t1 ∙ t) k2 apart n))
        ]
  ]

-- A page that is pinned, in a coherent pool, stays in its frame with its bytes through every fetch, one
-- that throws included, and its pin count does not fall.
pub fetch_page-pinned :
    (size : ℕ) (b : BufferManager) (p q : PageId) (j : ℕ) (g : Frame)
    → IsCoherent b
    → frame_of b q ≡ some (j, g)
    → (g.pin_count == 0) ≡ false
    → (g' : Frame) × (frame_of (fetch_page size b p).0 q ≡ some (j, g'))
      × (g'.bytes ≡ g.bytes)
      × (g.pin_count ≤ g'.pin_count)
unfolding fetch_page
fetch_page-pinned size b p q j g c h z = elim (Option-cases (frame_of b p)) [
  | inl e ↦ elim (Bool-cases (page_beq p q)) [
    | inl y ↦ absurd (ground (arith, e, h, ap (frame_of b) ((page_beq_iff p q).0 y)))
    | inr y ↦ (g, rw (e, fetch_page) (missing_other size b p q j g c h z y), refl, omega arith)
  ]
  | inr ((i, f), e) ↦
      let (t, k) = frame_of_iff b q j g h in
      let (t', k') = frame_of_iff b p i f e in
      let f' = record f { pin_count = f.pin_count + 1 } in
      let found = frame_of_known (set_frame b i f') q j in
      elim (Bool-cases (i == j)) [
        | inl d ↦
            let same =
              some-injective f g (sym k' ∙ (ap (get_elem? b.frames) ((==_iff i j).0 d) ∙ k)) in
            (
              f',
              rw (e, fetch_page) (found f' t (rw (get_set b.frames i j f f' k', d) refl)),
              ap (λ x. x.bytes) same,
              omega (arith, ap (λ x. x.pin_count) same),
            )
        | inr d ↦ (
          g,
          rw (e, fetch_page) (found g t (rw (get_set b.frames i j f f' k', d) k)),
          refl,
          omega arith,
        )
      ]
]
