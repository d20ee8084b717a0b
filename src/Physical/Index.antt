-- ===== src/Physical/Index.antt =====
-- The column positions that PhysicalPlanGenerator.h gives to a table, against the columns that
-- catalog/Catalog.cpp finds in its schema.
use sql_engine.Base.{
  ℕ, suc, ◌+◌, ◌≡◌, refl, ◌∙◌, ap, none, some, List, [], ◌∷◌, Text, arith, if◌then◌else◌,
  Bool-cases, inl, inr, get_elem?, subst,
}
use sql_engine.Base.Equality.{list_beq, list_beq_iff, text_eq}
use sql_engine.Base.Assoc.{find, insert, find-insert}
use sql_engine.Schema.{Column}
use sql_engine.Catalog.{column_named}
use sql_engine.Binder.{qualified}
use sql_engine.Eval.{ColumnIndex}
use sql_engine.Physical.{index_columns}

-- No two columns have one name.
abbrev pub IsDistinct : List Column → Type 0
IsDistinct [] = Unit
IsDistinct (c ∷ cs) = (column_named c.name cs ≡ none) × IsDistinct cs

list_beq-qualified : (t a b : Text) → list_beq (qualified t a) (qualified t b) ≡ list_beq a b
list_beq-qualified [] a b = refl
list_beq-qualified (c ∷ t) a b = ground (arith, list_beq-qualified t a b)

-- A position for the column of one name, seen under another.
find-insert-qualified :
    (t a b : Text) (i : ℕ) (idx : ColumnIndex)
    → find (qualified t b) (insert (qualified t a) i idx)
      ≡ (if list_beq a b then some i else find (qualified t b) idx)
find-insert-qualified t a b i idx =
    find-insert (qualified t a) (qualified t b) i idx
    ∙ ap (λ x. if x then some i else find (qualified t b) idx) (list_beq-qualified t a b)

absent :
    (t n : Text) (i : ℕ) (cs : List Column) (idx : ColumnIndex)
    → column_named n cs ≡ none
    → find (qualified t n) (index_columns t i cs idx) ≡ find (qualified t n) idx
unfolding column_named index_columns
absent t n i [] idx h = refl
absent t n i (c ∷ cs) idx h = elim (Bool-cases (list_beq c.name n)) [
  | inl e ↦ absurd (ground (arith, e))
  | inr e ↦
      absent t n (i + 1) cs (insert (qualified t c.name) i idx) (ground (arith, e))
      ∙ (find-insert-qualified t c.name n i idx ∙ rw e refl)
]

position :
    (t n : Text) (i : ℕ) (cs : List Column) (c : Column) (idx : ColumnIndex)
    → IsDistinct cs
    → column_named n cs ≡ some c
    → (j : ℕ) × (get_elem? cs j ≡ some c)
      × (find (qualified t n) (index_columns t i cs idx) ≡ some (i + j))
unfolding column_named index_columns
position t n i [] c idx d h = absurd (ground arith)
position t n i (b ∷ cs) c idx d h = elim (Bool-cases (list_beq b.name n)) [
  | inl e ↦
      let same = (list_beq_iff b.name n).0 e in
      (
        0,
        ground (arith, e),
        absent t n (i + 1) cs (insert (qualified t b.name) i idx)
              (subst (λ m. column_named m cs ≡ none) same d.0)
            ∙ (find-insert-qualified t b.name n i idx ∙ (rw e (ap some (omega arith)))),
      )
  | inr e ↦
      let (j, at, found) =
        position t n (i + 1) cs c (insert (qualified t b.name) i idx) d.1 (ground (arith, e)) in
      (suc j, at, found ∙ ap some (omega arith))
]

-- If the names of the columns are distinct, then the position that the plan generator gives to
-- `table.column` is that of the column of the schema that the catalog finds under the name.
pub column_position :
    (t n : Text) (cs : List Column) (c : Column)
    → IsDistinct cs
    → column_named n cs ≡ some c
    → (j : ℕ) × (get_elem? cs j ≡ some c)
      × (find (qualified t n) (index_columns t 0 cs []) ≡ some j)
column_position t n cs c d h =
    let (j, at, found) = position t n 0 cs c [] d h in (j, at, found ∙ ap some (omega arith))
