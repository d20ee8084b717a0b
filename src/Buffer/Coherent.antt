-- ===== src/Buffer/Coherent.antt =====
-- The page table of bufferManager/BufferManager.cpp and the frames tell of each other.
use sql_engine.Base.{
  ℕ, suc, zero, true, false, ◌≡◌, refl, sym, ap, ◌∙◌, none, some, List, [], ◌∷◌, get_elem?, set,
  if◌then◌else◌, Bool-cases, some-injective, inl, inr, ==_iff, ◌==◌, arith,
}
use sql_engine.Base.Assoc.{Map, find, insert, erase, find-insert, find-erase}
use sql_engine.Buffer.{
  PageId, page_eq, page_beq, page_beq_iff, Frame, BufferManager, forget, loaded,
}

-- Each entry of the table names a valid frame of its page.
abbrev pub IsMapped : List Frame → Map PageId ℕ → Type 0
IsMapped frames table =
    (p : PageId) (i : ℕ)
    → find p table ≡ some i
    → (f : Frame) × (get_elem? frames i ≡ some f) × (f.is_valid ≡ true) × (f.pid ≡ some p)

-- Each valid frame has a page, and the table names the frame for it.
abbrev pub IsListed : List Frame → Map PageId ℕ → Type 0
IsListed frames table =
    (i : ℕ) (f : Frame)
    → get_elem? frames i ≡ some f
    → f.is_valid ≡ true
    → (p : PageId) × (f.pid ≡ some p) × (find p table ≡ some i)

abbrev pub IsCoherent : BufferManager → Type 0
IsCoherent b = IsMapped b.frames b.page_table × IsListed b.frames b.page_table

pub get_set :
    (frames : List Frame) (i j : ℕ) (f g : Frame)
    → get_elem? frames i ≡ some f
    → get_elem? (set frames i g) j ≡ (if i == j then some g else get_elem? frames j)
get_set [] i j f g h = cc
get_set (x ∷ xs) zero zero f g h = refl
get_set (x ∷ xs) zero (suc j) f g h = ground arith
get_set (x ∷ xs) (suc i) zero f g h = ground arith
get_set (x ∷ xs) (suc i) (suc j) f g h =
    ground (arith, get_set xs i j f g h, ==_iff i j, ==_iff (suc i) (suc j))

frame_at :
    (frames : List Frame) (i j : ℕ) (f g : Frame)
    → get_elem? frames i ≡ some f
    → get_elem? frames j ≡ some g
    → (i == j) ≡ true
    → f ≡ g
frame_at frames i j f g h k c =
    some-injective _ _ (sym h ∙ (ap (get_elem? frames) ((==_iff i j).0 c) ∙ k))

-- A frame that keeps its page may change otherwise.
pub touched-IsMapped :
    (frames : List Frame) (table : Map PageId ℕ) (i : ℕ) (f g : Frame)
    → get_elem? frames i ≡ some f
    → g.is_valid ≡ f.is_valid
    → g.pid ≡ f.pid
    → IsMapped frames table
    → IsMapped (set frames i g) table
touched-IsMapped frames table i f g h v s m p j e =
    let (k, h1, h2, h3) = m p j e in
    elim (Bool-cases (i == j)) [
      | inl c ↦
          let same : f ≡ k = frame_at frames i j f k h h1 c in
          (
            g,
            rw (get_set frames i j f g h, c) refl,
            v ∙ (ap (λ x. x.is_valid) same ∙ h2),
            s ∙ (ap (λ x. x.pid) same ∙ h3),
          )
      | inr c ↦ (k, rw (get_set frames i j f g h, c) h1, h2, h3)
    ]

pub touched-IsListed :
    (frames : List Frame) (table : Map PageId ℕ) (i : ℕ) (f g : Frame)
    → get_elem? frames i ≡ some f
    → g.is_valid ≡ f.is_valid
    → g.pid ≡ f.pid
    → IsListed frames table
    → IsListed (set frames i g) table
touched-IsListed frames table i f g h v s l j k e w = elim (Bool-cases (i == j)) [
  | inl c ↦
      let same : g ≡ k = some-injective _ _ (sym (rw (get_set frames i j f g h, c) refl) ∙ e) in
      let (p, e1, e2) = l i f h (sym v ∙ (ap (λ x. x.is_valid) same ∙ w)) in
      (p, ap (λ x. x.pid) (sym same) ∙ (s ∙ e1), e2 ∙ ap some ((==_iff i j).0 c))
  | inr c ↦ l j k (sym (rw (get_set frames i j f g h, c) refl) ∙ e) w
]

-- A table that names the frames other than `i` as it should, and nothing else.
abbrev IsWithout : List Frame → Map PageId ℕ → ℕ → Type 0
IsWithout frames table i =
    ((p : PageId) (j : ℕ)
      → find p table ≡ some j
      → (f : Frame) × (get_elem? frames j ≡ some f)
        × (f.is_valid ≡ true)
        × (f.pid ≡ some p)
        × ((i == j) ≡ false))
    × ((j : ℕ) (f : Frame)
        → get_elem? frames j ≡ some f
        → f.is_valid ≡ true
        → (i == j) ≡ false
        → (p : PageId) × (f.pid ≡ some p) × (find p table ≡ some j))

erased :
    (q p : PageId) (table : Map PageId ℕ) {j : ℕ}
    → find p (erase q table) ≡ some j
    → (page_beq q p ≡ false) × (find p table ≡ some j)
erased q p table e = ground (arith, find-erase q p table, e)

unerased :
    (q p : PageId) (table : Map PageId ℕ) {i j : ℕ}
    → find q table ≡ some i
    → find p table ≡ some j
    → (i == j) ≡ false
    → find p (erase q table) ≡ some j
unerased q p table {i = i} {j = j} t e c = elim (Bool-cases (page_beq q p)) [
  | inr n ↦ rw (find-erase q p table, n) e
  | inl y ↦
      let same =
        some-injective i j (sym t ∙ (ap (λ x. find x table) ((page_beq_iff q p).0 y) ∙ e)) in
      absurd (ground (arith, (==_iff i j).1 same, c))
]

-- The victim's page is taken out of the table.
pub forgotten :
    (frames : List Frame) (table : Map PageId ℕ) (i : ℕ) (f : Frame)
    → IsMapped frames table
    → IsListed frames table
    → get_elem? frames i ≡ some f
    → IsWithout frames (if f.is_valid then forget f.pid table else table) i
forgotten frames table i f m l h = elim (Bool-cases f.is_valid) [
  | inr v ↦ (
    λ p j e.
        let (k, h1, h2, h3) = m p j (sym (rw v refl) ∙ e) in
        (
          k,
          h1,
          h2,
          h3,
          elim (Bool-cases (i == j)) [
            | inr c ↦ c
            | inl c ↦
                absurd
                  (ground (arith, v, h2, ap (λ x. x.is_valid) (frame_at frames i j f k h h1 c)))
          ],
        ),
    λ j k e w c. let (p, e1, e2) = l j k e w in (p, e1, rw v e2),
  )
  | inl v ↦
      let (q, s, t) = l i f h v in
      (
        λ p j e.
            let (n, e') = erased q p table (sym (rw (v, s) refl) ∙ e) in
            let (k, h1, h2, h3) = m p j e' in
            (
              k,
              h1,
              h2,
              h3,
              elim (Bool-cases (i == j)) [
                | inr c ↦ c
                | inl c ↦
                    let same =
                      some-injective q p
                        (sym s ∙ (ap (λ x. x.pid) (frame_at frames i j f k h h1 c) ∙ h3)) in
                    absurd (ground (arith, n, (page_beq_iff q p).1 same))
              ],
            ),
        λ j k e w c. let (p, e1, e2) = l j k e w in (p, e1, rw (v, s) (unerased q p table t e2 c)),
      )
]

-- The page that was loaded is put into the frame and the table.
pub placed :
    (frames : List Frame) (table : Map PageId ℕ) (i : ℕ) (f : Frame) (p : PageId) (d : List ℕ)
    → IsWithout frames table i
    → get_elem? frames i ≡ some f
    → find p table ≡ none
    → IsMapped (set frames i (loaded p d)) (insert p i table)
      × IsListed (set frames i (loaded p d)) (insert p i table)
placed frames table i f p d w h n = (
  λ q j e. elim (Bool-cases (page_beq p q)) [
    | inl y ↦
        let same = some-injective i j (sym (rw (find-insert p q i table, y) refl) ∙ e) in
        (
          loaded p d,
          rw (get_set frames i j f (loaded p d) h, (==_iff i j).1 same) refl,
          refl,
          ap some ((page_beq_iff p q).0 y),
        )
    | inr y ↦
        let (k, h1, h2, h3, c) = w.0 q j (sym (rw (find-insert p q i table, y) refl) ∙ e) in
        (k, rw (get_set frames i j f (loaded p d) h, c) h1, h2, h3)
  ],
  λ j k e v. elim (Bool-cases (i == j)) [
    | inl c ↦
        let same =
          some-injective (loaded p d) k
            (sym (rw (get_set frames i j f (loaded p d) h, c) refl) ∙ e) in
        (
          p,
          ap (λ x. x.pid) (sym same),
          rw (find-insert p p i table, (page_beq_iff p p).1 refl) (ap some ((==_iff i j).0 c)),
        )
    | inr c ↦
        let (q, s, t) = w.1 j k (sym (rw (get_set frames i j f (loaded p d) h, c) refl) ∙ e) v c in
        (
          q,
          s,
          elim (Bool-cases (page_beq p q)) [
            | inr y ↦ rw (find-insert p q i table, y) t
            | inl y ↦ absurd (ground (arith, n, t, ap (λ x. find x table) ((page_beq_iff p q).0 y)))
          ],
        )
  ],
)
