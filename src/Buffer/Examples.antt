-- ===== src/Buffer/Examples.antt =====
-- A pool of two frames over a file of three pages of two bytes.
use sql_engine.Base.{
  ℕ, ◌≤◌, true, false, ◌≡◌, ◌≢◌, ◌↔◌, refl, none, some, [], ◌∷◌, ok, err, arith, all_pinned,
  invalid_file,
}
use sql_engine.Base.Equality.{nat_eq}
use sql_engine.Base.Assoc.{find, insert}
use sql_engine.Files.{FileManager, read_page}
use sql_engine.Buffer.{
  PageId, page_eq, Frame, BufferManager, new_pool, clock, select_victim, write_back, load, frame_of,
  fetch_page, fetch_call, pool_step,
}
use sql_engine.Buffer.Coherent.{IsCoherent}
use sql_engine.Buffer.Invariant.{pool_step-IsCoherent, new_pool-IsCoherent}
use sql_engine.Buffer.Clock.{IsFull, select_victim_fails_iff}
use sql_engine.Buffer.Pinned.{fetch_page-pinned}

abbrev opened : FileManager
opened = record {
  next_file_id = 2;
  files = (1, record { content = 1 ∷ 2 ∷ 3 ∷ 4 ∷ 5 ∷ 6 ∷ []; free_list = [] }) ∷ [];
}

abbrev page : ℕ → PageId
page n = record { file_id = 1; page_id = n }

abbrev unused : Frame
unused = record {
  is_valid = false;
  is_dirty = false;
  pin_count = 0;
  pid = none;
  bytes = 0 ∷ 0 ∷ [];
}

abbrev empty_pool : BufferManager
empty_pool = new_pool opened ((0 ∷ 0 ∷ []) ∷ (0 ∷ 0 ∷ []) ∷ [])

abbrev held : Frame
held = record {
  is_valid = true;
  is_dirty = false;
  pin_count = 1;
  pid = some (page 1);
  bytes = 3 ∷ 4 ∷ [];
}

-- After one fetch of the second page: the hand went to the second frame.
abbrev one_page : BufferManager
one_page = record {
  files = opened;
  frames = unused ∷ held ∷ [];
  page_table = (page 1, 1) ∷ [];
  clock_hand = 1;
}

fetched : fetch_page 2 empty_pool (page 1) ≡ (one_page, ok 1)
unfolding fetch_page new_pool select_victim clock load write_back read_page find insert
fetched = refl

full : (fetch_page 2 (fetch_page 2 one_page (page 0)).0 (page 2)).1 ≡ err all_pinned
unfolding fetch_page new_pool select_victim clock load write_back read_page find insert
full = refl

readable : (pool_step 2 empty_pool (fetch_call (page 1))).1 ≢ err invalid_file
unfolding pool_step fetch_page new_pool select_victim clock load write_back read_page find insert
readable h = cc

pool_step-IsCoherent_example : IsCoherent (pool_step 2 empty_pool (fetch_call (page 1))).0
pool_step-IsCoherent_example =
    pool_step-IsCoherent 2 empty_pool (fetch_call (page 1))
      (new_pool-IsCoherent opened ((0 ∷ 0 ∷ []) ∷ (0 ∷ 0 ∷ []) ∷ [])) readable

select_victim_fails_iff_example : (select_victim one_page ≡ none) ↔ IsFull (unused ∷ held ∷ [])
select_victim_fails_iff_example = select_victim_fails_iff one_page (omega arith)

one_page-IsCoherent : IsCoherent one_page
unfolding pool_step fetch_page new_pool select_victim clock load write_back read_page find insert
one_page-IsCoherent =
    pool_step-IsCoherent 2 empty_pool (fetch_call (page 1))
      (new_pool-IsCoherent opened ((0 ∷ 0 ∷ []) ∷ (0 ∷ 0 ∷ []) ∷ [])) readable

found_held : frame_of one_page (page 1) ≡ some (1, held)
unfolding frame_of find
found_held = refl

fetch_page-pinned_example :
    (g : Frame) × (frame_of (fetch_page 2 one_page (page 0)).0 (page 1) ≡ some (1, g))
    × (g.bytes ≡ 3 ∷ 4 ∷ [])
    × (1 ≤ g.pin_count)
fetch_page-pinned_example =
    fetch_page-pinned 2 one_page (page 0) (page 1) 1 held one_page-IsCoherent found_held refl
