-- ===== src/Catalog/Tables.antt =====
-- What the methods of catalog/Catalog.cpp do to the tables, as seen by its readers.
use sql_engine.Base.{
  ◌≡◌, ◌≢◌, List, [], ◌∷◌, ◌++◌, Text, arith, if◌then◌else◌, ok, err, table_not_found, Option-cases,
  inl, inr,
}
use sql_engine.Base.Equality.{list_beq, list_beq_iff, text_eq}
use sql_engine.Base.Assoc.{find, contains, find-insert, find-erase}
use sql_engine.Schema.{Schema}
use sql_engine.Catalog.{
  Catalog, TableMeta, IndexInfo, get_table, add_table, drop_table, register_index, get_indexes,
}

-- If a table is added then there was none of its name; afterwards its schema is the one given,
-- it has no index, and every other table is as it was.
pub add_table_lem :
    (c d : Catalog) (t other : Text) (s : Schema)
    → add_table c t s ≡ ok d
    → (get_table c t ≡ err (table_not_found t))
      × (get_table d other ≡ (if list_beq t other then ok s else get_table c other))
      × (get_indexes d other ≡ (if list_beq t other then ok [] else get_indexes c other))
unfolding add_table get_table get_indexes contains
add_table_lem c d t other s h =
    let new =
      (find-insert t other
        (let m : TableMeta = record { schema = s; indexes = []; row_count = 0 } in m) c) in
    (ground arith, ground (arith, new), ground (arith, new))

-- If a table is dropped then it was there; afterwards it is not found, and every other table is
-- as it was.
pub drop_table_lem :
    (c d : Catalog) (t other : Text)
    → drop_table c t ≡ ok d
    → (get_table c t ≢ err (table_not_found t))
      × (get_table d other
          ≡ (if list_beq t other then err (table_not_found other) else get_table c other))
unfolding drop_table get_table contains
drop_table_lem c d t other h = (ground arith, ground (arith, find-erase t other c))

-- Registering an index appends it to the indexes of its table, and changes no schema and no other
-- table's indexes.
pub register_index_lem :
    (c d : Catalog) (t name other : Text) (columns : List Text) (old : List IndexInfo)
    → register_index c t name columns ≡ ok d
    → get_indexes c t ≡ ok old
    → (get_table d other ≡ get_table c other)
      × (get_indexes d other ≡ (
          if list_beq t other
          then ok (old ++ (record { name = name; columns = columns }) ∷ [])
          else get_indexes c other))
unfolding register_index get_table get_indexes
register_index_lem c d t name other columns old h k =
    let grown = λ (m : TableMeta).
      find-insert t other
        (record m { indexes = m.indexes ++ (record { name = name; columns = columns }) ∷ [] }) c in
    elim (Option-cases (find t c)) [
      | inl e ↦ ground arith
      | inr (m, e) ↦ (
        ground (arith, grown m, list_beq_iff t other),
        ground (arith, grown m, list_beq_iff t other),
      )
    ]
