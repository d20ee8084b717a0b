-- ===== src/Heap/Pool.antt =====
-- How the methods of tableHeap/TableHeap.cpp leave a page in the buffer pool.
use sql_engine.Base.{ℕ, ◌-◌, true, false, ◌≡◌, refl, ap, ◌∙◌, some, List, Result, ok, ◌==◌}
use sql_engine.Buffer.{PageId, Frame, BufferManager, set_frame, frame_of, write_data}
use sql_engine.Buffer.Steps.{frame_of_iff}
use sql_engine.Buffer.Found.{
  frame_of-set_frame, write_data-found, mark_dirty-found, unpin_page-found,
}
use sql_engine.Heap.{then_call, page_bytes, release, finish}

pub page_bytes-found :
    (b : BufferManager) (p : PageId) (i : ℕ) (f : Frame)
    → frame_of b p ≡ some (i, f)
    → page_bytes b i ≡ ok f.bytes
unfolding page_bytes
page_bytes-found b p i f h = rw ((frame_of_iff b p i f h).1, page_bytes) refl

module _ (size : ℕ) where
  -- A page that is unpinned stays in its frame.
  pub release-found {ℓ} :
      {A : Type ℓ} (b : BufferManager) (p : PageId) (i : ℕ) (f : Frame) (r : Result A)
      → frame_of b p ≡ some (i, f)
      → (f.pin_count == 0) ≡ false
      → (g : Frame) × (release size b p r ≡ (set_frame b i g, r))
        × (frame_of (set_frame b i g) p ≡ some (i, g))
        × (g.bytes ≡ f.bytes)
  release-found b p i f r h z =
      let g = record f { pin_count = f.pin_count - 1 } in
      (
        g,
        ap (λ o. then_call o (λ b' u. (b', r))) (unpin_page-found b p i f h z),
        frame_of-set_frame b p i f g h,
        refl,
      )

  pub finish-found {ℓ} :
      {A : Type ℓ} (b : BufferManager) (p : PageId) (i : ℕ) (f : Frame) (page : List ℕ) (a : A)
      → frame_of b p ≡ some (i, f)
      → (f.pin_count == 0) ≡ false
      → (b' : BufferManager) × (g : Frame) × (finish size b p i page a ≡ (b', ok a))
        × (frame_of b' p ≡ some (i, g))
        × (g.bytes ≡ page)
  unfolding finish
  finish-found b p i f page a h z =
      let f1 = record f { bytes = page } in
      let f2 = record f1 { is_dirty = true } in
      let b1 = write_data b i page in
      let h1 = write_data-found b p i f page h in
      let b2 = set_frame b1 i f2 in
      let h2 = frame_of-set_frame b1 p i f1 f2 h1 in
      let (g, e, h3, s) = release-found b2 p i f2 (ok a) h2 z in
      (
        set_frame b2 i g,
        g,
        ap (λ o. then_call o (λ b' u. release size b' p (ok a))) (mark_dirty-found b1 p i f1 h1)
            ∙ e,
        h3,
        s,
      )
