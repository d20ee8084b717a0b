-- ===== src/Catalog.antt =====
-- catalog/Catalog.h and Catalog.cpp: the tables that the engine knows.
pub mod Tables
pub mod Saved
pub mod Words
pub mod Loading
pub mod RoundTrip
mod Examples
use sql_engine.Base.{
  ℕ, Bool, true, false, Option, none, some, List, [], ◌∷◌, ◌++◌, Text, codes, if◌then◌else◌, Result,
  ok, err, or_throw, table_not_found, table_exists, column_not_found, unknown_data_type,
}
use sql_engine.Base.Equality.{list_beq, text_eq}
use sql_engine.Base.Assoc.{Map, find, insert, erase, contains}
use sql_engine.Schema.{Schema, Column, DataType, int_type, string_type}

pub record IndexInfo : Type 0 where
  pub name : Text
  pub columns : List Text

pub record TableMeta : Type 0 where
  pub schema : Schema
  pub indexes : List IndexInfo
  pub row_count : ℕ

abbrev pub Catalog : Type 0
Catalog = Map Text TableMeta

-- `tables_.find(tableName)`, or the error that every method raises.
unfoldable pub meta_of : Catalog → Text → Result TableMeta
meta_of c t = or_throw (find t c) (table_not_found t)

unfoldable pub get_table : Catalog → Text → Result Schema
unfolding meta_of
get_table c t = elim (meta_of c t) [ err e ↦ err e | ok m ↦ ok m.schema ]

unfoldable pub add_table : Catalog → Text → Schema → Result Catalog
add_table c t s =
    if contains t c
    then err (table_exists t)
    else ok (insert t (record { schema = s; indexes = []; row_count = 0 }) c)

unfoldable pub drop_table : Catalog → Text → Result Catalog
drop_table c t = if contains t c then ok (erase t c) else err (table_not_found t)

-- The loop of getColumnInfo.
unfoldable pub column_named : Text → List Column → Option Column
column_named n [] = none
column_named n (c ∷ cs) = if list_beq c.name n then some c else column_named n cs

unfoldable pub get_column_info : Catalog → Text → Text → Result Column
unfolding get_table column_named
get_column_info c t n = elim (get_table c t) [
  | err e ↦ err e
  | ok s ↦ or_throw (column_named n s.columns) (column_not_found n)
]

unfoldable pub register_index : Catalog → Text → Text → List Text → Result Catalog
unfolding meta_of
register_index c t name columns = elim (meta_of c t) [
  | err e ↦ err e
  | ok m ↦ ok (
      insert t
        (record m { indexes = m.indexes ++ (record { name = name; columns = columns }) ∷ [] }) c)
]

unfoldable pub get_indexes : Catalog → Text → Result (List IndexInfo)
unfolding meta_of
get_indexes c t = elim (meta_of c t) [ err e ↦ err e | ok m ↦ ok m.indexes ]

unfoldable pub update_table_stats : Catalog → Text → ℕ → Result Catalog
unfolding meta_of
update_table_stats c t n = elim (meta_of c t) [
  | err e ↦ err e
  | ok m ↦ ok (insert t (record m { row_count = n }) c)
]

unfoldable pub data_type_to_string : DataType → Text
data_type_to_string int_type = codes "INT"
data_type_to_string string_type = codes "STRING"

unfoldable pub string_to_data_type : Text → Result DataType
string_to_data_type s =
    if list_beq s (codes "INT")
    then ok int_type
    else if list_beq s (codes "STRING")
    then ok string_type
    else err (unknown_data_type s)
