-- ===== src/Schema.antt =====
-- schema/Schema.h and Schema.cpp: column definitions and the size of a record.
use sql_engine.Base.{
  ℕ, zero, ◌+◌, List, [], ◌∷◌, Text, length, get_elem?, or_throw, Result, ok, err, out_of_range,
  empty_string_column,
}

pub data DataType : Type 0 where
  int_type string_type : DataType

-- `length`: bytes of a STRING column; ignored for INT.
pub record Column : Type 0 where
  pub name : Text
  pub type : DataType
  pub length : ℕ

pub record Schema : Type 0 where
  pub columns : List Column
  pub record_size : ℕ

-- The body of the constructor's loop: the size that a column adds, or the error that it raises.
unfoldable pub column_size : DataType → ℕ → Result ℕ
column_size int_type n = ok 4
column_size string_type zero = err empty_string_column
column_size string_type n = ok n

unfoldable pub schema_loop : List Column → ℕ → Result ℕ
unfolding column_size
schema_loop [] size = ok size
schema_loop (c ∷ cs) size = elim (column_size c.type c.length) [
  | ok n ↦ schema_loop cs (size + n)
  | err e ↦ err e
]

unfoldable pub make_schema : List Column → Result Schema
unfolding schema_loop
make_schema cols = elim (schema_loop cols 0) [
  | ok size ↦ ok (record { columns = cols; record_size = size })
  | err e ↦ err e
]

abbrev pub num_columns : Schema → ℕ
num_columns s = length s.columns

-- columns_.at(idx)
unfoldable pub get_column : Schema → ℕ → Result Column
get_column s i = or_throw (get_elem? s.columns i) out_of_range
