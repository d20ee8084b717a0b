-- ===== src/Buffer/Found.antt =====
-- The frame that fetchPage of bufferManager/BufferManager.cpp returns, and what calls do to it.
use sql_engine.Base.{
  ℕ, ◌+◌, ◌-◌, true, false, ◌&&◌, ◌≡◌, refl, sym, ap, ◌∙◌, some, List, get_elem?, set,
  if◌then◌else◌, Result-cases, ok, ok-injective, Bool-cases, Option-cases, inl, inr, ==_iff, ◌==◌,
  arith,
}
use sql_engine.Base.Assoc.{insert, find-insert}
use sql_engine.Files.{read_page}
use sql_engine.Buffer.{
  PageId, page_eq, page_beq_iff, Frame, BufferManager, set_frame, with_frame, select_victim,
  write_frame, write_back, forget, loaded, load, fetch_missing, frame_of, fetch_page, mark_dirty,
  unpin_page, write_data,
}
use sql_engine.Buffer.Coherent.{get_set}
use sql_engine.Buffer.Steps.{frame_of_iff}
use sql_engine.Buffer.Clock.{victim_free}
use sql_engine.Buffer.Pinned.{frame_of_known}

pub frame_of-set_frame :
    (b : BufferManager) (p : PageId) (i : ℕ) (f g : Frame)
    → frame_of b p ≡ some (i, f)
    → frame_of (set_frame b i g) p ≡ some (i, g)
frame_of-set_frame b p i f g h =
    let (t, k) = frame_of_iff b p i f h in
    frame_of_known (set_frame b i g) p i g t
      (rw (get_set b.frames i i f g k, (==_iff i i).1 refl) refl)

pub write_data-found :
    (b : BufferManager) (p : PageId) (i : ℕ) (f : Frame) (d : List ℕ)
    → frame_of b p ≡ some (i, f)
    → frame_of (write_data b i d) p ≡ some (i, record f { bytes = d })
unfolding write_data
write_data-found b p i f d h =
    rw ((frame_of_iff b p i f h).1, write_data)
      (frame_of-set_frame b p i f (record f { bytes = d }) h)

pub mark_dirty-found :
    (b : BufferManager) (p : PageId) (i : ℕ) (f : Frame)
    → frame_of b p ≡ some (i, f)
    → mark_dirty b p ≡ (set_frame b i (record f { is_dirty = true }), ok tt)
unfolding mark_dirty
mark_dirty-found b p i f h = rw (h, mark_dirty, with_frame) refl

pub unpin_page-found :
    (b : BufferManager) (p : PageId) (i : ℕ) (f : Frame)
    → frame_of b p ≡ some (i, f)
    → (f.pin_count == 0) ≡ false
    → unpin_page b p ≡ (set_frame b i (record f { pin_count = f.pin_count - 1 }), ok tt)
unfolding unpin_page
unpin_page-found b p i f h z = rw (h, unpin_page, with_frame, z) refl

module _ (size : ℕ) where
  write_back-frame :
      (b : BufferManager) (i : ℕ) (f : Frame)
      → get_elem? b.frames i ≡ some f
      → (g : Frame) × (get_elem? (write_back size b i f).0.frames i ≡ some g)
  unfolding write_back
  write_back-frame b i f h = elim (Bool-cases (f.is_valid && f.is_dirty)) [
    | inr e ↦ (f, rw (e, write_back) h)
    | inl e ↦ elim (Result-cases (write_frame size b.files f)) [
      | inl (x, k) ↦ (f, rw (e, k, write_back) h)
      | inr (m, k) ↦
          let g = record f { is_dirty = false } in
          (g, rw (e, k, write_back) (rw (get_set b.frames i i f g h, (==_iff i i).1 refl) refl))
    ]
  ]

  load-found :
      (b : BufferManager) (i j : ℕ) (f g : Frame) (p : PageId)
      → get_elem? b.frames i ≡ some g
      → (load size b i f p).1 ≡ ok j
      → (f' : Frame) × (frame_of (load size b i f p).0 p ≡ some (j, f'))
        × ((f'.pin_count == 0) ≡ false)
  unfolding load
  load-found b i j f g p k h = elim (Result-cases (read_page size b.files p.file_id p.page_id)) [
    | inl (x, r) ↦ absurd (ground (arith, r, h))
    | inr (d, r) ↦
        let table = (if f.is_valid then forget f.pid b.page_table else b.page_table) in
        let is_i : load size b i f p ≡ (
          record b { frames = set b.frames i (loaded p d); page_table = insert p i table },
          ok i,
        ) =
          rw (r, load) refl in
        let same : i ≡ j = ok-injective (sym (ap (λ o. o.1) is_i) ∙ h) in
        (
          loaded p d,
          ap (λ o. frame_of o.0 p) is_i
              ∙ (frame_of_known
                    (record b {
                      frames = set b.frames i (loaded p d);
                      page_table = insert p i table;
                    })
                    p i (loaded p d) (rw (find-insert p p i table, (page_beq_iff p p).1 refl) refl)
                    (rw (get_set b.frames i i g (loaded p d) k, (==_iff i i).1 refl) refl)
                  ∙ ap (λ n. some (n, loaded p d)) same),
          refl,
        )
  ]

  -- A fetch that returns: the page is in the frame that it returns, and pinned.
  pub fetch_page-found :
      (b : BufferManager) (p : PageId) (j : ℕ)
      → (fetch_page size b p).1 ≡ ok j
      → (f : Frame) × (frame_of (fetch_page size b p).0 p ≡ some (j, f))
        × ((f.pin_count == 0) ≡ false)
  unfolding fetch_page fetch_missing
  fetch_page-found b p j h = elim (Option-cases (frame_of b p)) [
    | inr ((i, f), e) ↦
        let g = record f { pin_count = f.pin_count + 1 } in
        let is_hit : fetch_page size b p ≡ (set_frame b i g, ok i) = rw (e, fetch_page) refl in
        let same : i ≡ j = ok-injective (sym (ap (λ o. o.1) is_hit) ∙ h) in
        (
          g,
          ap (λ o. frame_of o.0 p) is_hit
              ∙ (frame_of-set_frame b p i f g e ∙ ap (λ n. some (n, g)) same),
          ground arith,
        )
    | inl e ↦ elim (Option-cases (select_victim b)) [
      | inl v ↦ absurd (ground (arith, e, v, h))
      | inr ((i, f), v) ↦
          let taken = record b { clock_hand = i } in
          let (g, k) = write_back-frame taken i f (victim_free b i f v).0 in
          let b' = (write_back size taken i f).0 in
          elim (Result-cases (write_back size taken i f).1) [
            | inl (x, r) ↦ absurd (ground (arith, e, v, r, h))
            | inr (x, r) ↦
                let is_load : fetch_page size b p ≡ load size b' i f p =
                  rw (e, v, r, fetch_page, fetch_missing) refl in
                let (f', t, z) = load-found b' i j f g p k (ap (λ o. o.1) (sym is_load) ∙ h) in
                (f', ap (λ o. frame_of o.0 p) is_load ∙ t, z)
          ]
    ]
  ]
