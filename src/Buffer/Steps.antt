-- ===== src/Buffer/Steps.antt =====
-- Single changes of a pool of bufferManager/BufferManager.cpp that keep it coherent.
use sql_engine.Base.{
  ℕ, false, ◌&&◌, ◌≡◌, refl, sym, ap, ◌∙◌, none, some, get_elem?, set, ok, err, Bool-cases,
  Option-cases, some-injective, inl, inr, ==_iff, arith,
}
use sql_engine.Base.Assoc.{find}
use sql_engine.Buffer.{
  PageId, page_eq, Frame, BufferManager, Outcome, set_frame, write_frame, write_back, frame_of,
}
use sql_engine.Buffer.Coherent.{IsCoherent, get_set, touched-IsMapped, touched-IsListed}

-- A call on the frame `i` that keeps its page.
pub set_frame-IsCoherent :
    (b : BufferManager) (i : ℕ) (f g : Frame)
    → IsCoherent b
    → get_elem? b.frames i ≡ some f
    → g.is_valid ≡ f.is_valid
    → g.pid ≡ f.pid
    → IsCoherent (set_frame b i g)
set_frame-IsCoherent b i f g c h v s = (
  touched-IsMapped b.frames b.page_table i f g h v s c.0,
  touched-IsListed b.frames b.page_table i f g h v s c.1,
)

pub frame_of_iff :
    (b : BufferManager) (p : PageId) (i : ℕ) (f : Frame)
    → frame_of b p ≡ some (i, f)
    → (find p b.page_table ≡ some i) × (get_elem? b.frames i ≡ some f)
unfolding frame_of
frame_of_iff b p i f h = elim (Option-cases (find p b.page_table)) [
  | inl e ↦ absurd (ground (arith, e, h))
  | inr (j, e) ↦ elim (Option-cases (get_elem? b.frames j)) [
    | inl k ↦ absurd (ground (arith, e, k, h))
    | inr (g, k) ↦
        let same = some-injective (j, g) (i, f) (sym (rw (e, k, frame_of) refl) ∙ h) in
        (
          e ∙ ap (λ x. some x.0) same,
          ap (get_elem? b.frames) (sym (ap (λ x. x.0) same)) ∙ (k ∙ ap (λ x. some x.1) same),
        )
  ]
]

-- In a coherent pool a page that has no frame is not in the table.
pub frame_of-none :
    (b : BufferManager) (p : PageId)
    → IsCoherent b
    → frame_of b p ≡ none
    → find p b.page_table ≡ none
unfolding frame_of
frame_of-none b p c h = elim (Option-cases (find p b.page_table)) [
  | inl e ↦ e
  | inr (j, e) ↦ let (f, k, v, s) = c.0 p j e in absurd (ground (arith, e, k, h))
]

module _ (size : ℕ) where
  pub write_back-IsCoherent :
      (b : BufferManager) (i : ℕ) (f : Frame)
      → IsCoherent b
      → get_elem? b.frames i ≡ some f
      → IsCoherent (write_back size b i f).0
        × ((write_back size b i f).0.page_table ≡ b.page_table)
        × ((g : Frame) × (get_elem? (write_back size b i f).0.frames i ≡ some g)
            × (g.is_valid ≡ f.is_valid)
            × (g.pid ≡ f.pid))
  unfolding write_back
  write_back-IsCoherent b i f c h = elim (Bool-cases (f.is_valid && f.is_dirty)) [
    | inr e ↦ rw e (c, refl, (f, h, refl, refl))
    | inl e ↦
        rw e
          (elim (write_frame size b.files f)
            as (λ r.
              let o : Outcome (Unit {0}) = elim r [
                | err e ↦ (b, err e)
                | ok files ↦ (
                  record b {
                    files = files;
                    frames = set b.frames i (record f { is_dirty = false });
                  },
                  ok tt,
                )
              ] in
              IsCoherent o.0
              × (o.0.page_table ≡ b.page_table)
              × ((g : Frame) × (get_elem? o.0.frames i ≡ some g)
                  × (g.is_valid ≡ f.is_valid)
                  × (g.pid ≡ f.pid))) [
                    | err x ↦ (c, refl, (f, h, refl, refl))
                    | ok files ↦
                        let g = record f { is_dirty = false } in
                        (
                          set_frame-IsCoherent b i f g c h refl refl,
                          refl,
                          (
                            g,
                            rw (get_set b.frames i i f g h, (==_iff i i).1 refl) refl,
                            refl,
                            refl,
                          ),
                        )
                  ])
  ]
