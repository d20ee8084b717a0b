-- ===== src/Files/Pages.antt =====
-- What the page operations of fileManager/FileManager.cpp leave on the pages.
use sql_engine.Base.{
  ℕ, suc, ◌+◌, ◌-◌, ◌*◌, ◌/◌, ◌≤◌, ◌<◌, ◌≡◌, sym, ap, ◌∙◌, subst, List, ◌∷◌, ◌++◌, append_assoc,
  length, take, drop, replicate, length-append, length-take, length-replicate, take-append_length,
  drop-append_length, lt→ltb, ok, Option-cases, inl, inr, arith,
}
use native.Mathlib.Nat.{le-div_iff_mul-le, suc-mul}
use sql_engine.Base.Equality.{nat_eq}
use sql_engine.Base.Assoc.{find, insert, find-insert}
use sql_engine.Files.{
  FileManager, entry_of, write_at, read_page, write_page, allocate_page, deallocate_page,
}

-- The bytes at the offset after a write are those written.
read_written :
    (offset : ℕ) (page content : List ℕ)
    → take (length page) (drop offset (write_at offset page content)) ≡ page
unfolding write_at
read_written offset page content =
    let front = take offset content ++ replicate (offset - length content) 0 in
    let rest = page ++ drop (offset + length page) content in
    let fills : offset ≡ length front + 0 = omega (
      arith,
      length-append (take offset content) (replicate (offset - length content) 0),
      length-take offset content,
      length-replicate {A = ℕ} (offset - length content) 0,
    ) in
    ap (λ xs. take (length page) (drop offset xs))
      (sym (append_assoc (take offset content) (replicate (offset - length content) 0) rest))
    ∙ (ap (λ k. take (length page) (drop k (front ++ rest))) fills
        ∙ (ap (take (length page)) (drop-append_length front rest 0)
            ∙ take-append_length page (drop (offset + length page) content)))

length-write_at :
    (offset : ℕ) (page content : List ℕ)
    → offset + length page ≤ length (write_at offset page content)
unfolding write_at
length-write_at offset page content = omega (
  arith,
  length-append (take offset content)
      (replicate (offset - length content) 0 ++ (page ++ drop (offset + length page) content)),
  length-append (replicate (offset - length content) 0)
      (page ++ drop (offset + length page) content),
  length-append page (drop (offset + length page) content),
  length-take offset content,
  length-replicate {A = ℕ} (offset - length content) 0,
)

-- The page stands in the file after a write.
written_page : (size pid n : ℕ) → 0 < size → pid * size + size ≤ n → pid < n / size
written_page size pid n h l =
    (le-div_iff_mul-le {k = size} {x = suc pid} {y = n} h).1 (omega (arith, suc-mul pid size))

-- A page that was written is read back, also if it stands behind the end of the file as it was. The
-- page size is not 0, and the page that is written has this size.
pub read_page-write_page :
    (size : ℕ) (m m' : FileManager) (fid pid : ℕ) (page : List ℕ)
    → 0 < size
    → length page ≡ size
    → write_page size m fid pid page ≡ ok m'
    → read_page size m' fid pid ≡ ok page
unfolding write_page read_page entry_of
read_page-write_page size m m' fid pid page h l w = elim (Option-cases (find fid m.files)) [
  | inl e ↦ absurd (ground (arith, e))
  | inr (entry, e) ↦
      let content = write_at (pid * size) page entry.content in
      let stored = find-insert fid fid (record entry { content = content }) m.files in
      let whole =
        written_page size pid (length content) h
          (omega (arith, length-write_at (pid * size) page entry.content)) in
      let counted = lt→ltb pid (length content / size) whole in
      let back =
        subst (λ k. take k (drop (pid * size) content) ≡ page) l
          (read_written (pid * size) page entry.content) in
      ground (arith, e, stored, counted, back)
]

-- A page that is given back and allocated again is the same page with the bytes that it had, and no
-- page of the file changes: a page from the free list is not set to zero.
pub allocate_page-deallocate_page :
    (size : ℕ) (m m' : FileManager) (fid pid other : ℕ)
    → deallocate_page m fid pid ≡ ok m'
    → (m'' : FileManager) × (allocate_page size m' fid ≡ ok (m'', pid))
      × (read_page size m'' fid other ≡ read_page size m fid other)
unfolding deallocate_page allocate_page read_page entry_of
allocate_page-deallocate_page size m m' fid pid other h = elim (Option-cases (find fid m.files)) [
  | inl e ↦ absurd (ground (arith, e))
  | inr (entry, e) ↦ (
    record m' { files = insert fid entry m'.files },
    ground (
      arith,
      e,
      find-insert fid fid (record entry { free_list = pid ∷ entry.free_list }) m.files,
    ),
    ground (
      arith,
      e,
      find-insert fid fid (record entry { free_list = pid ∷ entry.free_list }) m.files,
      find-insert fid fid entry m'.files,
    ),
  )
]
