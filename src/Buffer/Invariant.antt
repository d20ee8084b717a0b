-- ===== src/Buffer/Invariant.antt =====
-- Each method of bufferManager/BufferManager.cpp keeps the pool coherent.
use sql_engine.Base.{
  ℕ, suc, zero, ◌+◌, ◌-◌, true, false, ◌&&◌, ◌≡◌, ◌≢◌, refl, sym, ap, ap₂, ◌∙◌, subst, none, some,
  List, [], ◌∷◌, length, get_elem?, if◌then◌else◌, Error, Result-cases, ok, err, Bool-cases,
  Option-cases, some-injective, inl, inr, ◌==◌, arith, invalid_file,
}
use sql_engine.Base.Equality.{nat_eq}
use sql_engine.Base.Assoc.{find}
use sql_engine.Files.{FileManager, entry_of, read_page, write_page}
use sql_engine.Buffer.{
  PageId, page_eq, Frame, BufferManager, set_frame, with_frame, select_victim, write_back, forget,
  load, fetch_missing, frame_of, pin_page, unpin_page, mark_dirty, write_data, fetch_page,
  flush_page, flush_loop, PoolCall, fetch_call, pin_call, unpin_call, dirty_call, flush_call,
  flush_all_call, data_call, pool_step, new_pool, new_pool,
}
use sql_engine.Buffer.Coherent.{IsCoherent, forgotten, placed}
use sql_engine.Buffer.Steps.{
  set_frame-IsCoherent, frame_of_iff, frame_of-none, write_back-IsCoherent,
}
use sql_engine.Buffer.Clock.{victim_free}

module _ (size : ℕ) where
  unreadable :
      (m : FileManager) (fid pid : ℕ) {e : Error}
      → read_page size m fid pid ≡ err e
      → e ≡ invalid_file
  unfolding read_page entry_of
  unreadable m fid pid h = elim (Option-cases (find fid m.files)) [
    | inl e ↦ ground (arith, e, h)
    | inr (x, e) ↦ absurd (ground (arith, e, h))
  ]

  load-IsCoherent :
      (b : BufferManager) (i : ℕ) (f : Frame) (p : PageId)
      → IsCoherent b
      → get_elem? b.frames i ≡ some f
      → find p b.page_table ≡ none
      → (load size b i f p).1 ≢ err invalid_file
      → IsCoherent (load size b i f p).0
  unfolding load
  load-IsCoherent b i f p c h n r =
      let table = (if f.is_valid then forget f.pid b.page_table else b.page_table) in
      let w = forgotten b.frames b.page_table i f c.0 c.1 h in
      let fresh : find p table ≡ none = elim (Option-cases (find p table)) [
        | inl e ↦ e
        | inr (j, e) ↦
            let (g, h1, h2, h3, d) = w.0 p j e in
            let (q, s, t) = c.1 j g h1 h2 in
            let same = some-injective p q (sym h3 ∙ s) in
            absurd (ground (arith, n, t, ap (λ x. find x b.page_table) same))
      ] in
      elim (Result-cases (read_page size b.files p.file_id p.page_id)) [
        | inl (e, k) ↦ absurd (r (rw (k, load) (ap err (unreadable b.files p.file_id p.page_id k))))
        | inr (d, k) ↦ rw (k, load) (placed b.frames table i f p d w h fresh)
      ]

  pub load_same :
      (b : BufferManager) (i : ℕ) (f g : Frame) (p : PageId)
      → g.is_valid ≡ f.is_valid
      → g.pid ≡ f.pid
      → load size b i f p ≡ load size b i g p
  unfolding load
  load_same b i f g p v s =
      ap₂
        (λ x y.
          load size b i
            (record {
              is_valid = x;
              is_dirty = g.is_dirty;
              pin_count = g.pin_count;
              pid = y;
              bytes = g.bytes;
            })
            p)
        (sym v) (sym s)

  -- The rest of fetchPage, with the victim that was found.
  fetch_into :
      (b : BufferManager) (p : PageId)
      → IsCoherent b
      → find p b.page_table ≡ none
      → (fetch_missing size b p).1 ≢ err invalid_file
      → IsCoherent (fetch_missing size b p).0
  unfolding fetch_missing
  fetch_into b p c n r = elim (Option-cases (select_victim b)) [
    | inl e ↦ rw (e, fetch_missing) c
    | inr ((i, f), e) ↦
        let (h, u) = victim_free b i f e in
        let taken = record b { clock_hand = i } in
        let (c1, t1, (g, h1, v1, s1)) = write_back-IsCoherent size taken i f c h in
        elim (Result-cases (write_back size taken i f).1) [
          | inl (x, k) ↦ rw (e, k, fetch_missing) c1
          | inr (x, k) ↦
              let b' = (write_back size taken i f).0 in
              let is_load : fetch_missing size b p ≡ load size b' i g p =
                rw (e, k, fetch_missing) (load_same b' i f g p v1 s1) in
              subst (λ o. IsCoherent o.0) (sym is_load)
                (load-IsCoherent b' i g p c1 h1 (ap (find p) t1 ∙ n)
                  (subst (λ o. o.1 ≢ err invalid_file) is_load r))
        ]
  ]

  fetch_page-IsCoherent :
      (b : BufferManager) (p : PageId)
      → IsCoherent b
      → (fetch_page size b p).1 ≢ err invalid_file
      → IsCoherent (fetch_page size b p).0
  unfolding fetch_page
  fetch_page-IsCoherent b p c r = elim (Option-cases (frame_of b p)) [
    | inl e ↦
        let missing : fetch_page size b p ≡ fetch_missing size b p = rw (e, fetch_page) refl in
        subst (λ o. IsCoherent o.0) (sym missing)
          (fetch_into b p c (frame_of-none b p c e) (subst (λ o. o.1 ≢ err invalid_file) missing r))
    | inr ((i, f), e) ↦
        rw (e, fetch_page)
          (set_frame-IsCoherent b i f (record f { pin_count = f.pin_count + 1 }) c
            (frame_of_iff b p i f e).1 refl refl)
  ]

  flush_loop-IsCoherent :
      (rest i : ℕ) (b : BufferManager) → IsCoherent b → IsCoherent (flush_loop size rest i b).0
  unfolding flush_loop
  flush_loop-IsCoherent zero i b c = c
  flush_loop-IsCoherent (suc rest) i b c = elim (Option-cases (get_elem? b.frames i)) [
    | inl e ↦ rw (e, flush_loop) c
    | inr (f, e) ↦
        let b' = (write_back size b i f).0 in
        let c' = (write_back-IsCoherent size b i f c e).0 in
        elim (Result-cases (write_back size b i f).1) [
          | inl (x, k) ↦ rw (e, k, flush_loop) c'
          | inr (x, k) ↦ rw (e, k, flush_loop) (flush_loop-IsCoherent rest (i + 1) b' c')
        ]
  ]

  flush_page-IsCoherent :
      (b : BufferManager) (p : PageId) → IsCoherent b → IsCoherent (flush_page size b p).0
  unfolding flush_page
  flush_page-IsCoherent b p c = elim (Option-cases (frame_of b p)) [
    | inl e ↦ rw (e, flush_page) c
    | inr ((i, f), e) ↦ elim (Bool-cases (f.is_valid && f.is_dirty)) [
      | inr v ↦ rw (e, v, flush_page) c
      | inl v ↦ elim (Result-cases (write_page size b.files p.file_id p.page_id f.bytes)) [
        | inl (x, k) ↦ rw (e, v, k, flush_page) c
        | inr (m, k) ↦
            rw (e, v, k, flush_page)
              (set_frame-IsCoherent b i f (record f { is_dirty = false }) c
                (frame_of_iff b p i f e).1 refl refl)
      ]
    ]
  ]

unpin_page-IsCoherent :
    (b : BufferManager) (p : PageId) → IsCoherent b → IsCoherent (unpin_page b p).0
unfolding unpin_page
unpin_page-IsCoherent b p c = elim (Option-cases (frame_of b p)) [
  | inl e ↦ rw (e, unpin_page, with_frame) c
  | inr ((i, f), e) ↦ elim (Bool-cases (f.pin_count == 0)) [
    | inl z ↦ rw (e, z, unpin_page, with_frame) c
    | inr z ↦
        rw (e, z, unpin_page, with_frame)
          (set_frame-IsCoherent b i f (record f { pin_count = f.pin_count - 1 }) c
            (frame_of_iff b p i f e).1 refl refl)
  ]
]

-- A method that only changes the frame of its page.
framed-IsCoherent :
    (b : BufferManager) (p : PageId) (change : Frame → Frame)
    → IsCoherent b
    → ((f : Frame) → (change f).is_valid ≡ f.is_valid)
    → ((f : Frame) → (change f).pid ≡ f.pid)
    → IsCoherent (with_frame b p (λ i f. (set_frame b i (change f), ok tt))).0
framed-IsCoherent b p change c v s = elim (Option-cases (frame_of b p)) [
  | inl e ↦ rw (e, with_frame) c
  | inr ((i, f), e) ↦
      rw (e, with_frame)
        (set_frame-IsCoherent b i f (change f) c (frame_of_iff b p i f e).1 (v f) (s f))
]

write_data-IsCoherent :
    (b : BufferManager) (i : ℕ) (d : List ℕ) → IsCoherent b → IsCoherent (write_data b i d)
unfolding write_data
write_data-IsCoherent b i d c = elim (Option-cases (get_elem? b.frames i)) [
  | inl e ↦ rw (e, write_data) c
  | inr (f, e) ↦
      rw (e, write_data) (set_frame-IsCoherent b i f (record f { bytes = d }) c e refl refl)
]

-- Every call on a coherent pool leaves it coherent, calls that throw included: the table names the
-- frames that hold a page, each for its page, and no others. The call does not fail on a file that is
-- not open.
pub pool_step-IsCoherent :
    (size : ℕ) (b : BufferManager) (call : PoolCall)
    → IsCoherent b
    → (pool_step size b call).1 ≢ err invalid_file
    → IsCoherent (pool_step size b call).0
unfolding pool_step pin_page mark_dirty
pool_step-IsCoherent size b (fetch_call p) c r =
    fetch_page-IsCoherent size b p c (λ e. r (rw e refl))
pool_step-IsCoherent size b (pin_call p) c r =
    framed-IsCoherent b p (λ f. record f { pin_count = f.pin_count + 1 }) c (λ f. refl) (λ f. refl)
pool_step-IsCoherent size b (unpin_call p) c r = unpin_page-IsCoherent b p c
pool_step-IsCoherent size b (dirty_call p) c r =
    framed-IsCoherent b p (λ f. record f { is_dirty = true }) c (λ f. refl) (λ f. refl)
pool_step-IsCoherent size b (flush_call p) c r = flush_page-IsCoherent size b p c
pool_step-IsCoherent size b flush_all_call c r = flush_loop-IsCoherent size (length b.frames) 0 b c
pool_step-IsCoherent size b (data_call i d) c r = write_data-IsCoherent b i d c

-- A pool that was just made is coherent, whatever bytes its frames are.
pub new_pool-IsCoherent :
    (files : FileManager) (pages : List (List ℕ)) → IsCoherent (new_pool files pages)
unfolding new_pool find
new_pool-IsCoherent files pages = (λ p i h. absurd (cc), λ i f h v. absurd (unused pages i f h v))
  where
    unused :
        (ds : List (List ℕ)) (i : ℕ) (f : Frame)
        → get_elem? (new_pool files ds).frames i ≡ some f
        → f.is_valid ≡ true
        → ⊥
    unused [] i f h v = cc
    unused (d ∷ ds) zero f h v = ground (arith, h, v)
    unused (d ∷ ds) (suc i) f h v = unused ds i f h v
