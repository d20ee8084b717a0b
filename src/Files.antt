-- ===== src/Files.antt =====
-- fileManager/FileManager.h and FileManager.cpp: open files as sequences of pages. A file is the list
-- of its bytes; page ids are not negative, and the streams do not fail. What a path holds when it is
-- opened is an argument. PAGE_SIZE is an argument too.
pub mod Pages
mod Examples
use sql_engine.Base.{
  ℕ, ◌+◌, ◌-◌, ◌*◌, ◌/◌, Option, none, some, List, [], ◌∷◌, ◌++◌, length, take, drop, replicate,
  ltb, if◌then◌else◌, Result, ok, err, ◌>>=◌, or_throw, invalid_file,
}
use sql_engine.Base.Equality.{nat_eq}
use sql_engine.Base.Assoc.{Map, find, insert, erase}

-- The last element of `freeList` stands first.
pub record FileEntry : Type 0 where
  pub content : List ℕ
  pub free_list : List ℕ

pub record FileManager : Type 0 where
  pub next_file_id : ℕ
  pub files : Map ℕ FileEntry

-- `files_.find(fileId)`, or the error that every method raises.
unfoldable pub entry_of : FileManager → ℕ → Result FileEntry
entry_of m fid = or_throw (find fid m.files) invalid_file

unfoldable pub open_file : List ℕ → FileManager → FileManager × ℕ
open_file content m = (
  record {
    next_file_id = m.next_file_id + 1;
    files = insert m.next_file_id (record { content = content; free_list = [] }) m.files;
  },
  m.next_file_id,
)

unfoldable pub close_file : FileManager → ℕ → Result FileManager
unfolding entry_of
close_file m fid = do _ ← entry_of m fid; ok (record m { files = erase fid m.files })

-- Bytes written at an offset: a gap behind the end of the file is filled with zeros.
unfoldable pub write_at : ℕ → List ℕ → List ℕ → List ℕ
write_at offset page content =
    take offset content
    ++ (replicate (offset - length content) 0 ++ (page ++ drop (offset + length page) content))

module _ (page_size : ℕ) where
  unfoldable pub get_page_count : FileManager → ℕ → Result ℕ
  unfolding entry_of
  get_page_count m fid = do e ← entry_of m fid; ok (length e.content / page_size)

  unfoldable pub read_page : FileManager → ℕ → ℕ → Result (List ℕ)
  unfolding entry_of
  read_page m fid pid = do
    e ← entry_of m fid
    ok (
        if ltb pid (length e.content / page_size)
        then take page_size (drop (pid * page_size) e.content)
        else replicate page_size 0)

  unfoldable pub write_page : FileManager → ℕ → ℕ → List ℕ → Result FileManager
  unfolding entry_of write_at
  write_page m fid pid page = do
    e ← entry_of m fid
    ok (record m {
      files = insert fid (record e { content = write_at (pid * page_size) page e.content }) m.files;
    })

  unfoldable pub allocate_page : FileManager → ℕ → Result (FileManager × ℕ)
  unfolding entry_of get_page_count write_page
  allocate_page m fid = do
    e ← entry_of m fid
    elim e.free_list [
      | pid ∷ rest ↦
          ok (record m { files = insert fid (record e { free_list = rest }) m.files }, pid)
      | [] ↦ (do
        pid ← get_page_count m fid
        m' ← write_page m fid pid (replicate page_size 0)
        ok (m', pid))
    ]

unfoldable pub deallocate_page : FileManager → ℕ → ℕ → Result FileManager
unfolding entry_of
deallocate_page m fid pid = do
  e ← entry_of m fid
  ok (record m { files = insert fid (record e { free_list = pid ∷ e.free_list }) m.files })
