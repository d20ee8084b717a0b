-- ===== src/Stats/Examples.antt =====
-- A table of two rows with one city.
use sql_engine.Base.{
  ℕ, ◌≡◌, ◌↔◌, refl, some, List, [], ◌∷◌, length, get_elem?, pos, negsuc, Text, codes, ok, err,
  arith, undefined,
}
use sql_engine.Base.Equality.{text_eq}
use sql_engine.Base.Assoc.{Map, find}
use sql_engine.Schema.{Column, Schema, int_type, string_type}
use sql_engine.Record.{FieldValue, int, str}
use sql_engine.Heap.{RecordId}
use sql_engine.Exec.{Storage}
use sql_engine.Exec.Streams.{fetch_all}
use sql_engine.Tree.Ranges.{IsIn}
use sql_engine.Stats.{analyze_table}
use sql_engine.Stats.Sets.{IsDistinct}
use sql_engine.Stats.Distinct.{cells, analyze_table_lem}

abbrev rid : ℕ → RecordId
rid n = record { page_id = pos 0; slot_num = pos n }

abbrev row_of : ℕ → List FieldValue
row_of n = int (pos n) ∷ str (codes "Oslo") ∷ []

abbrev two_records : Storage
two_records = record {
  scan_table = λ t. ok (rid 1 ∷ rid 2 ∷ []);
  fetch_record = λ t r. elim r.slot_num [ negsuc n ↦ err undefined | pos n ↦ ok (row_of n) ];
}

abbrev towns : Schema
towns = record {
  columns =
      (record { name = codes "id"; type = int_type; length = 0 })
      ∷ (record { name = codes "city"; type = string_type; length = 8 })
      ∷ [];
  record_size = 12;
}

analyzed :
    analyze_table two_records (λ t. ok towns) (codes "t")
    ≡ ok (2, (codes "id", 2) ∷ (codes "city", 1) ∷ [])
unfolding analyze_table
analyzed = refl

fetched : fetch_all two_records (codes "t") (rid 1 ∷ rid 2 ∷ []) ≡ ok (row_of 1 ∷ row_of 2 ∷ [])
unfolding fetch_all
fetched = refl

analyze_table_lem_example :
    (counts : Map Text ℕ) × (analyze_table two_records (λ t. ok towns) (codes "t") ≡ ok (2, counts))
    × ((i : ℕ) (c : Column)
        → get_elem? towns.columns i ≡ some c
        → (set : List Text) × (find c.name counts ≡ some (length set))
          × IsDistinct set
          × ((text : Text) → IsIn text set ↔ IsIn text (cells i (row_of 1 ∷ row_of 2 ∷ []))))
analyze_table_lem_example =
    analyze_table_lem two_records (λ t. ok towns) (codes "t") towns (rid 1 ∷ rid 2 ∷ [])
      (row_of 1 ∷ row_of 2 ∷ []) refl refl fetched (omega arith, (omega arith, tt))
      ((refl, tt), (tt, tt))
