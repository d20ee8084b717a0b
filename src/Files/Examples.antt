-- ===== src/Files/Examples.antt =====
-- A file with pages of four bytes, and the theorems at it.
use sql_engine.Base.{◌≡◌, refl, ok, [], ◌∷◌, arith}
use sql_engine.Base.Equality.{nat_eq}
use sql_engine.Base.Assoc.{find, insert}
use sql_engine.Files.{FileManager, write_page, read_page, allocate_page, deallocate_page}
use sql_engine.Files.Pages.{read_page-write_page, allocate_page-deallocate_page}

-- One page, and two bytes of another.
abbrev opened : FileManager
opened = record {
  next_file_id = 2;
  files = (1, record { content = 1 ∷ 2 ∷ 3 ∷ 4 ∷ 5 ∷ 6 ∷ []; free_list = [] }) ∷ [];
}

-- A write behind the end fills the gap with zeros.
abbrev written : FileManager
written = record {
  next_file_id = 2;
  files =
      (1, record { content = 1 ∷ 2 ∷ 3 ∷ 4 ∷ 5 ∷ 6 ∷ 0 ∷ 0 ∷ 7 ∷ 7 ∷ 7 ∷ 7 ∷ []; free_list = [] })
      ∷ [];
}

abbrev freed : FileManager
freed = record {
  next_file_id = 2;
  files = (1, record { content = 1 ∷ 2 ∷ 3 ∷ 4 ∷ 5 ∷ 6 ∷ []; free_list = 0 ∷ [] }) ∷ [];
}

writes : write_page 4 opened 1 2 (7 ∷ 7 ∷ 7 ∷ 7 ∷ []) ≡ ok written
unfolding write_page find insert
writes = refl

frees : deallocate_page opened 1 0 ≡ ok freed
unfolding deallocate_page find insert
frees = refl

appended : read_page 4 opened 1 1 ≡ ok (0 ∷ 0 ∷ 0 ∷ 0 ∷ [])
unfolding read_page find
appended = refl

read_page-write_page_example : read_page 4 written 1 2 ≡ ok (7 ∷ 7 ∷ 7 ∷ 7 ∷ [])
read_page-write_page_example =
    read_page-write_page 4 opened written 1 2 (7 ∷ 7 ∷ 7 ∷ 7 ∷ []) (omega arith) refl writes

allocate_page-deallocate_page_run :
    (m : FileManager) × (allocate_page 4 freed 1 ≡ ok (m, 0))
    × (read_page 4 m 1 0 ≡ read_page 4 opened 1 0)
allocate_page-deallocate_page_run = allocate_page-deallocate_page 4 opened freed 1 0 0 frees
