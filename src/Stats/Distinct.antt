-- ===== src/Stats/Distinct.antt =====
-- What the numbers of StatsManager/StatsManager.cpp count.
use sql_engine.Base.{
  ℕ, zero, suc, ◌≤◌, false, ◌≡◌, ◌↔◌, refl, sym, ap, ◌∙◌, subst, Option, none, some, some-injective,
  List, [], ◌∷◌, map, length, get_elem?, Text, All, then_case, else_case, Result, ok, ok-injective,
  >>=-eq-ok, Bool-cases, inl, inr, arith,
}
use sql_engine.Base.Equality.{list_beq, list_beq_iff, text_eq, eq_self}
use sql_engine.Base.Assoc.{Map, find, insert, find-insert}
use sql_engine.Schema.{Column, Schema}
use sql_engine.Record.{FieldValue}
use sql_engine.Heap.{RecordId}
use sql_engine.Exec.{Storage}
use sql_engine.Exec.Streams.{fetch_all}
use sql_engine.Tree.Ranges.{IsIn}
use sql_engine.Stats.{
  fv_to_string, insert_text, TextSets, empty_sets, set_of, count_row, count_rows, analyze_table,
}
use sql_engine.Stats.Sets.{IsDistinct, cell, text_set, text_set-IsIn, text_set-IsDistinct}

-- No column has the name; no two columns have one name.
abbrev pub IsAbsent : Text → List Column → Type 0
IsAbsent name = All (λ c. list_beq c.name name ≡ false)

abbrev pub HasDistinctNames : List Column → Type 0
HasDistinctNames [] = Unit
HasDistinctNames (c ∷ cs) = IsAbsent c.name cs × HasDistinctNames cs

beq_sym : (s t : Text) → list_beq s t ≡ false → list_beq t s ≡ false
beq_sym s t h = ground (arith, h, list_beq_iff s t, list_beq_iff t s)

absent_at :
    (name : Text) (cs : List Column) (i : ℕ) (c : Column)
    → IsAbsent name cs
    → get_elem? cs i ≡ some c
    → list_beq name c.name ≡ false
absent_at name [] i c a h = absurd (cc)
absent_at name (d ∷ ds) zero c a h =
    beq_sym c.name name (subst (λ x. list_beq x.name name ≡ false) (some-injective d c h) a.0)
absent_at name (d ∷ ds) (suc i) c a h = absent_at name ds i c a.1 h

abbrev texts_in : Option (List Text) → List Text
texts_in found = elim found as (λ x. List Text) [ none ↦ [] | some texts ↦ texts ]

count_row-find :
    (cs : List Column) (row : List FieldValue) (sets : TextSets)
    → length cs ≤ length row
    → HasDistinctNames cs
    → (sets' : TextSets) × (count_row cs row sets ≡ ok sets')
      × ((name : Text) → IsAbsent name cs → find name sets' ≡ find name sets)
      × ((i : ℕ) (c : Column)
          → get_elem? cs i ≡ some c
          → find c.name sets' ≡ some (insert_text (cell i row) (set_of sets c.name)))
unfolding count_row
count_row-find [] row sets l d = (sets, refl, λ name a. refl, λ i c h. absurd (cc))
count_row-find (c0 ∷ cs) [] sets l d = absurd (omega (arith, l))
count_row-find (c0 ∷ cs) (v ∷ vs) sets l d =
    let new = insert_text (fv_to_string v) (set_of sets c0.name) in
    let next = insert c0.name new sets in
    let (sets', runs, kept, counted) = count_row-find cs vs next (omega (arith, l)) d.1 in
    let other : (name : Text) → list_beq c0.name name ≡ false → find name next ≡ find name sets =
      λ name e. find-insert c0.name name new sets ∙ else_case _ _ e in
    (sets', runs, λ name a. kept name a.1 ∙ other name a.0, at sets' new kept counted other refl)
  where
    at :
        (sets' : TextSets) (new : List Text)
        → ((name : Text) → IsAbsent name cs → find name sets' ≡ find name (insert c0.name new sets))
        → ((i : ℕ) (c : Column)
            → get_elem? cs i ≡ some c
            → find c.name sets'
              ≡ some (insert_text (cell i vs) (set_of (insert c0.name new sets) c.name)))
        → ((name : Text)
            → list_beq c0.name name ≡ false
            → find name (insert c0.name new sets) ≡ find name sets)
        → (same : new ≡ insert_text (fv_to_string v) (set_of sets c0.name)) → (i : ℕ) (c : Column)
        → get_elem? (c0 ∷ cs) i ≡ some c
        → find c.name sets' ≡ some (insert_text (cell i (v ∷ vs)) (set_of sets c.name))
    at sets' new kept counted other same zero c h =
        subst (λ x. find x.name sets' ≡ some (insert_text (fv_to_string v) (set_of sets x.name)))
          (some-injective c0 c h)
          (kept c0.name d.0
            ∙ (find-insert c0.name c0.name new sets
                ∙ (then_case _ _ (eq_self c0.name) ∙ ap some same)))
    at sets' new kept counted other same (suc i) c h =
        counted i c h
        ∙ ap (λ o. some (insert_text (cell i vs) (texts_in o)))
            (other c.name (absent_at c0.name cs i c d.0 h))

-- The texts of a column in some rows.
abbrev pub cells : ℕ → List (List FieldValue) → List Text
cells i rows = map (cell i) rows

count_rows-find :
    (storage : Storage) (table : Text) (cs : List Column) (rids : List RecordId)
    (rows : List (List FieldValue)) (sets : TextSets)
    → fetch_all storage table rids ≡ ok rows
    → All (λ row. length cs ≤ length row) rows
    → HasDistinctNames cs
    → (sets' : TextSets) × (count_rows storage table cs rids sets ≡ ok sets')
      × ((i : ℕ) (c : Column) (texts : List Text)
          → get_elem? cs i ≡ some c
          → find c.name sets ≡ some texts
          → find c.name sets' ≡ some (text_set (cells i rows) texts))
unfolding count_rows fetch_all
count_rows-find storage table cs [] [] sets h l d = (sets, refl, λ i c texts e f. f)
count_rows-find storage table cs [] (row ∷ rows) sets h l d = absurd (ground (arith, h))
count_rows-find storage table cs (rid ∷ rids) rows sets h l d =
    let (row, fetched, h1) = >>=-eq-ok (storage.fetch_record table rid) _ h in
    let (later, fetches, h2) = >>=-eq-ok (fetch_all storage table rids) _ h1 in
    let same : row ∷ later ≡ rows = ok-injective h2 in
    let long = subst (All (λ r. length cs ≤ length r)) (sym same) l in
    let (sets1, counts, _, first) = count_row-find cs row sets long.0 d in
    let (sets2, runs, rest) = count_rows-find storage table cs rids later sets1 fetches long.1 d in
    (
      sets2,
      rw (fetched, count_rows, counts) runs,
      λ i c texts e f.
          rest i c (insert_text (cell i row) texts) e
            (first i c e ∙ ap (λ o. some (insert_text (cell i row) (texts_in o))) f)
          ∙ ap (λ rs. some (text_set (cells i rs) texts)) same,
    )

empty_sets-kept :
    (cs : List Column) (sets : TextSets) (name : Text)
    → find name sets ≡ some []
    → find name (empty_sets cs sets) ≡ some []
unfolding empty_sets
empty_sets-kept [] sets name h = h
empty_sets-kept (c ∷ cs) sets name h = empty_sets-kept cs (insert c.name [] sets) name (
    find-insert c.name name [] sets ∙ elim (Bool-cases (list_beq c.name name)) [
      | inl e ↦ then_case _ _ e
      | inr e ↦ else_case _ _ e ∙ h
    ])

empty_sets-find :
    (cs : List Column) (sets : TextSets) (i : ℕ) (c : Column)
    → get_elem? cs i ≡ some c
    → find c.name (empty_sets cs sets) ≡ some []
unfolding empty_sets
empty_sets-find [] sets i c h = absurd (cc)
empty_sets-find (d ∷ ds) sets zero c h =
    subst (λ x. find x.name (empty_sets ds (insert d.name [] sets)) ≡ some [])
      (some-injective d c h)
      (empty_sets-kept ds (insert d.name [] sets) d.name
        (find-insert d.name d.name [] sets ∙ then_case _ _ (eq_self d.name)))
empty_sets-find (d ∷ ds) sets (suc i) c h = empty_sets-find ds (insert d.name [] sets) i c h

find-sizes :
    (sets : TextSets) (name : Text) (texts : List Text)
    → find name sets ≡ some texts
    → find name (map (λ s. (s.0, length s.1)) sets) ≡ some (length texts)
unfolding find
find-sizes [] name texts h = absurd (cc)
find-sizes ((n, ts) ∷ sets) name texts h = elim (Bool-cases (list_beq n name)) [
  | inl e ↦
      then_case _ _ e
      ∙ ap (λ x. some (length x)) (some-injective ts texts (sym (then_case _ _ e) ∙ h))
  | inr e ↦ else_case _ _ e ∙ find-sizes sets name texts (sym (else_case _ _ e) ∙ h)
]

-- The analysis of a table whose rows can be fetched counts its rows, and for each column the distinct
-- texts of its values: the number under the name of the column is that of the members of a set in which
-- no text is twice and which has the texts of the column, and no others. The names of the columns are
-- distinct, and each row has a value for each column.
pub analyze_table_lem :
    (storage : Storage) (schema_of : Text → Result Schema) (table : Text) (schema : Schema)
    (rids : List RecordId) (rows : List (List FieldValue))
    → schema_of table ≡ ok schema
    → storage.scan_table table ≡ ok rids
    → fetch_all storage table rids ≡ ok rows
    → All (λ row. length schema.columns ≤ length row) rows
    → HasDistinctNames schema.columns
    → (counts : Map Text ℕ) × (analyze_table storage schema_of table ≡ ok (length rids, counts))
      × ((i : ℕ) (c : Column)
          → get_elem? schema.columns i ≡ some c
          → (set : List Text) × (find c.name counts ≡ some (length set))
            × IsDistinct set
            × ((text : Text) → IsIn text set ↔ IsIn text (cells i rows)))
unfolding analyze_table
analyze_table_lem storage schema_of table schema rids rows hs hr hf long d =
    let (sets, runs, finds) =
      count_rows-find storage table schema.columns rids rows (empty_sets schema.columns []) hf long
        d in
    (
      map (λ s. (s.0, length s.1)) sets,
      rw (hs, hr, runs) refl,
      λ i c e.
          let texts = text_set (cells i rows) [] in
          let there = finds i c [] e (empty_sets-find schema.columns [] i c e) in
          (
            texts,
            find-sizes sets c.name texts there,
            text_set-IsDistinct (cells i rows) [] tt,
            λ text.
                let same = text_set-IsIn (cells i rows) [] text in
                (λ h. elim (same.0 h) [ inl m ↦ m | inr m ↦ absurd m ], λ m. same.1 (inl m)),
          ),
    )
