-- ===== src/Buffer.antt =====
-- bufferManager/BufferManager.h and BufferManager.cpp: the buffer pool over the file manager. A
-- pointer to the data of a frame is the index of the frame, which never moves; what the client writes
-- through it is `write_data`. A call returns the pool that it leaves, also when it throws. Ids are not
-- negative, pin counts do not reach 2^31, the counters of the MetricsManager are left out.
pub mod Coherent
pub mod Steps
pub mod Invariant
pub mod Pinned
pub mod Found
pub mod Clock
mod Examples
use sql_engine.Base.{
  ℕ, suc, zero, ◌+◌, ◌-◌, ◌%◌, map, ◌↔◌, Bool, true, false, not, ◌&&◌, ◌||◌, ◌≡◌, refl, ap, Option,
  none, some, List, [], ◌∷◌, length, get_elem?, set, replicate, if◌then◌else◌, Result, ok, err,
  ◌>>=◌, page_not_in_pool, unpin_unpinned, all_pinned, undefined, invalid_file, ==_iff, arith,
}
use sql_engine.Base.Equality.{Eq, ◌==◌, nat_eq}
use sql_engine.Base.Assoc.{Map, find, insert, erase}
use sql_engine.Files.{FileManager, read_page, write_page}

pub record PageId : Type 0 where
  pub file_id : ℕ
  pub page_id : ℕ

abbrev pub page_beq : PageId → PageId → Bool
page_beq p q = p.file_id == q.file_id && p.page_id == q.page_id

pub page_beq_iff : (p q : PageId) → (page_beq p q ≡ true) ↔ (p ≡ q)
page_beq_iff p q = ground (arith, ==_iff p.file_id q.file_id, ==_iff p.page_id q.page_id)

instance abbrev pub page_eq : Eq PageId
page_eq = record { beq = page_beq; beq_iff = page_beq_iff }

-- `none` stands for the pid {-1, -1} of a frame that was never used.
pub record Frame : Type 0 where
  pub is_valid : Bool
  pub is_dirty : Bool
  pub pin_count : ℕ
  pub pid : Option PageId
  pub bytes : List ℕ

pub record BufferManager : Type 0 where
  pub files : FileManager
  pub frames : List Frame
  pub page_table : Map PageId ℕ
  pub clock_hand : ℕ

-- A call: the pool that it leaves, and what it returns or throws.
abbrev pub Outcome {ℓ} : Type ℓ → Type ℓ
Outcome A = BufferManager × Result A

abbrev pub set_frame : BufferManager → ℕ → Frame → BufferManager
set_frame b i f = record b { frames = set b.frames i f }

-- The arrays of the frames are not initialized: what bytes they are is an argument.
unfoldable pub new_pool : FileManager → List (List ℕ) → BufferManager
new_pool files pages = record {
  files = files;
  frames =
      map (λ d. record { is_valid = false; is_dirty = false; pin_count = 0; pid = none; bytes = d })
        pages;
  page_table = [];
  clock_hand = 0;
}

-- The frame may be taken for another page.
abbrev pub is_free : Frame → Bool
is_free f = not f.is_valid || f.pin_count == 0

-- The rounds of selectVictimFrame, on the hand; `none`: all rounds are done.
unfoldable pub clock : List Frame → ℕ → ℕ → Option (ℕ × Frame)
clock frames zero hand = none
clock frames (suc rounds) hand =
    let next = (hand + 1) % length frames in
    let later = clock frames rounds next in
    elim (get_elem? frames next) [
      | none ↦ none
      | some f ↦ if is_free f then some (next, f) else later
    ]

unfoldable pub select_victim : BufferManager → Option (ℕ × Frame)
unfolding clock
select_victim b = clock b.frames (length b.frames) b.clock_hand

-- f.pid's page written back; {-1, -1} names no open file.
module _ (page_size : ℕ) where
  unfoldable pub write_frame : FileManager → Frame → Result FileManager
  write_frame files f = elim f.pid [
    | none ↦ err invalid_file
    | some p ↦ write_page page_size files p.file_id p.page_id f.bytes
  ]

  -- if (isValid && isDirty) { writePage; isDirty = false; }
  unfoldable pub write_back : BufferManager → ℕ → Frame → Outcome (Unit {0})
  unfolding write_frame
  write_back b i f =
      if f.is_valid && f.is_dirty
      then elim (write_frame b.files f) [
        | err e ↦ (b, err e)
        | ok files ↦ (
          record b { files = files; frames = set b.frames i (record f { is_dirty = false }) },
          ok tt,
        )
      ]
      else (b, ok tt)

-- pageTable_.erase(victim.pid)
abbrev pub forget : Option PageId → Map PageId ℕ → Map PageId ℕ
forget none t = t
forget (some p) t = erase p t

abbrev pub loaded : PageId → List ℕ → Frame
loaded p d = record { is_valid = true; is_dirty = false; pin_count = 1; pid = some p; bytes = d }

module _ (page_size : ℕ) where
  -- What fetchPage does after the victim `f`, the frame `i`, was written back.
  unfoldable pub load : BufferManager → ℕ → Frame → PageId → Outcome ℕ
  load b i f p =
      let table = (if f.is_valid then forget f.pid b.page_table else b.page_table) in
      elim (read_page page_size b.files p.file_id p.page_id) [
        | err e ↦ (record b { page_table = table }, err e)
        | ok d ↦
            (record b { frames = set b.frames i (loaded p d); page_table = insert p i table }, ok i)
      ]

  -- fetchPage of a page that is not in the pool.
  unfoldable pub fetch_missing : BufferManager → PageId → Outcome ℕ
  unfolding select_victim write_back load
  fetch_missing b p = elim (select_victim b) [
    | none ↦ (b, err all_pinned)
    | some (i, f) ↦
        let (b', done) = write_back page_size (record b { clock_hand = i }) i f in
        elim done [ err e ↦ (b', err e) | ok u ↦ load b' i f p ]
  ]

-- pageTable_.find(pid), then frames_[it->second]. An index behind the frames, which a table does not
-- have, counts as an absent entry.
unfoldable pub frame_of : BufferManager → PageId → Option (ℕ × Frame)
frame_of b p = elim (find p b.page_table) [
  | none ↦ none
  | some i ↦ elim (get_elem? b.frames i) [ none ↦ none | some f ↦ some (i, f) ]
]

-- A method that throws when the page is not in the pool.
abbrev pub with_frame :
    BufferManager → PageId → (ℕ → Frame → Outcome (Unit {0})) → Outcome (Unit {0})
with_frame b p use_frame = elim (frame_of b p) [
  | none ↦ (b, err page_not_in_pool)
  | some (i, f) ↦ use_frame i f
]

unfoldable pub pin_page : BufferManager → PageId → Outcome (Unit {0})
unfolding frame_of
pin_page b p =
    with_frame b p (λ i f. (set_frame b i (record f { pin_count = f.pin_count + 1 }), ok tt))

unfoldable pub unpin_page : BufferManager → PageId → Outcome (Unit {0})
unfolding frame_of
unpin_page b p = with_frame b p (λ i f.
    if f.pin_count == 0
    then (b, err unpin_unpinned)
    else (set_frame b i (record f { pin_count = f.pin_count - 1 }), ok tt))

unfoldable pub mark_dirty : BufferManager → PageId → Outcome (Unit {0})
unfolding frame_of
mark_dirty b p = with_frame b p (λ i f. (set_frame b i (record f { is_dirty = true }), ok tt))

-- The client writes through the pointer that fetchPage gave it.
unfoldable pub write_data : BufferManager → ℕ → List ℕ → BufferManager
write_data b i d = elim (get_elem? b.frames i) [
  | none ↦ b
  | some f ↦ set_frame b i (record f { bytes = d })
]

module _ (page_size : ℕ) where
  unfoldable pub fetch_page : BufferManager → PageId → Outcome ℕ
  unfolding frame_of fetch_missing
  fetch_page b p = elim (frame_of b p) [
    | none ↦ fetch_missing page_size b p
    | some (i, f) ↦ (set_frame b i (record f { pin_count = f.pin_count + 1 }), ok i)
  ]

  -- In a pool that is coherent the pid of the frame is the page asked for.
  unfoldable pub flush_page : BufferManager → PageId → Outcome (Unit {0})
  unfolding frame_of
  flush_page b p = elim (frame_of b p) [
    | none ↦ (b, ok tt)
    | some (i, f) ↦
        if f.is_valid && f.is_dirty
        then elim (write_page page_size b.files p.file_id p.page_id f.bytes) [
          | err e ↦ (b, err e)
          | ok files ↦ (
            record b { files = files; frames = set b.frames i (record f { is_dirty = false }) },
            ok tt,
          )
        ]
        else (b, ok tt)
  ]

  -- The loop of flushAllPages over the frames from `i` on.
  unfoldable pub flush_loop : ℕ → ℕ → BufferManager → Outcome (Unit {0})
  unfolding write_back
  flush_loop zero i b = (b, ok tt)
  flush_loop (suc rest) i b = elim (get_elem? b.frames i) [
    | none ↦ (b, ok tt)
    | some f ↦
        let (b', done) = write_back page_size b i f in
        elim done [ err e ↦ (b', err e) | ok u ↦ flush_loop rest (i + 1) b' ]
  ]

  unfoldable pub flush_all_pages : BufferManager → Outcome (Unit {0})
  unfolding flush_loop
  flush_all_pages b = flush_loop (length b.frames) 0 b

-- The methods, and what the client writes to a frame.
pub data PoolCall : Type 0 where
  fetch_call pin_call unpin_call dirty_call flush_call : PageId → PoolCall
  flush_all_call : PoolCall
  data_call : ℕ → List ℕ → PoolCall

module _ (page_size : ℕ) where
  -- The pool after a call, and whether the call came to its end.
  unfoldable pub pool_step : BufferManager → PoolCall → Outcome (Unit {0})
  unfolding fetch_page pin_page unpin_page mark_dirty flush_page flush_all_pages write_data
  pool_step b (fetch_call p) = let (b', r) = fetch_page page_size b p in (b', do _ ← r; ok tt)
  pool_step b (pin_call p) = pin_page b p
  pool_step b (unpin_call p) = unpin_page b p
  pool_step b (dirty_call p) = mark_dirty b p
  pool_step b (flush_call p) = flush_page page_size b p
  pool_step b flush_all_call = flush_all_pages page_size b
  pool_step b (data_call i d) = (write_data b i d, ok tt)
