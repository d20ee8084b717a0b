-- ===== src/Stats.antt =====
-- StatsManager/StatsManager.h and StatsManager.cpp: the number of rows of a table and of distinct values
-- of its columns. The storage is behind its two calls; the schema, and what is done with the numbers,
-- are those of calls that catalog/Catalog.h does not declare. Texts are kept in sets as they come.
pub mod Sets
pub mod Distinct
mod Examples
use sql_engine.Base.{
  ℕ, Option, none, some, List, [], ◌∷◌, map, length, Text, if◌then◌else◌, Result, ok, err, ◌>>=◌,
  undefined,
}
use sql_engine.Base.Equality.{list_beq, text_eq}
use sql_engine.Base.Assoc.{Map, find, insert}
use sql_engine.Base.Numbers.{to_string}
use sql_engine.Schema.{Column, Schema}
use sql_engine.Record.{FieldValue, int, str}
use sql_engine.Heap.{RecordId}
use sql_engine.Exec.{Storage}

unfoldable pub fv_to_string : FieldValue → Text
unfolding to_string
fv_to_string (int z) = to_string z
fv_to_string (str s) = s

-- std::unordered_set::insert
unfoldable pub insert_text : Text → List Text → List Text
insert_text t [] = t ∷ []
insert_text t (s ∷ ss) = let rest = insert_text t ss in if list_beq s t then s ∷ ss else s ∷ rest

-- distinctVals
abbrev pub TextSets : Type 0
TextSets = Map Text (List Text)

unfoldable pub empty_sets : List Column → TextSets → TextSets
unfolding insert
empty_sets [] sets = sets
empty_sets (c ∷ cs) sets = empty_sets cs (insert c.name [] sets)

-- distinctVals[colName]
abbrev pub set_of : TextSets → Text → List Text
set_of sets name = elim (find name sets) as (λ x. List Text) [ none ↦ [] | some texts ↦ texts ]

-- The loop over the columns, for one row; a row that is too short is read past its end.
unfoldable pub count_row : List Column → List FieldValue → TextSets → Result TextSets
unfolding insert_text fv_to_string find insert
count_row [] row sets = ok sets
count_row (c ∷ cs) [] sets = err undefined
count_row (c ∷ cs) (v ∷ vs) sets =
    count_row cs vs (insert c.name (insert_text (fv_to_string v) (set_of sets c.name)) sets)

module _ (storage : Storage) where
  unfoldable pub count_rows : Text → List Column → List RecordId → TextSets → Result TextSets
  unfolding count_row
  count_rows table cols [] sets = ok sets
  count_rows table cols (rid ∷ rids) sets = do
    row ← storage.fetch_record table rid
    sets' ← count_row cols row sets
    count_rows table cols rids sets'

  -- analyzeTable: what updateTableStats is called with.
  unfoldable pub analyze_table : (Text → Result Schema) → Text → Result (ℕ × Map Text ℕ)
  unfolding empty_sets count_rows
  analyze_table schema_of table = do
    schema ← schema_of table
    rids ← storage.scan_table table
    sets ← count_rows table schema.columns rids (empty_sets schema.columns [])
    ok (length rids, map (λ (name, texts). (name, length texts)) sets)
