-- ===== src/Record.antt =====
-- record/Record.h and Record.cpp: rows of values, and their bytes on a page. Bytes are numbers below
-- 256; an `int32_t` is written in two's complement, least significant byte first.
mod Bytes
pub mod Fields
pub mod RoundTrip
pub mod Typed
mod Examples
unfoldable pub use Bytes.{to_word, of_word, int_bytes, word_of, cut}
pub use Bytes.{word_of_bytes, word_round, cut-padded}
use sql_engine.Base.{
  ℕ, zero, suc, ◌+◌, ◌-◌, Bool, true, false, List, [], ◌∷◌, ◌++◌, ℤ, pos, Text, ltb, leb, ◌==◌, not,
  length, take, drop, replicate, if◌then◌else◌, guard, Result, ok, err, ◌>>=◌, ◌>>◌, undefined,
  out_of_range, bad_variant, count_mismatch, expected_int, expected_string, string_too_long,
}
use sql_engine.Schema.{DataType, int_type, string_type, Column, Schema, num_columns}

pub data FieldValue : Type 0 where
  int : ℤ → FieldValue
  str : Text → FieldValue

pub record Row : Type 0 where
  pub schema : Schema
  pub values : List FieldValue

-- Record(schema): every `FieldValue` as default-constructed.
unfoldable pub empty_row : Schema → Row
empty_row s = record { schema = s; values = replicate (num_columns s) (int (pos 0)) }

-- The checks on one value against its column.
unfoldable pub check_value : DataType → ℕ → FieldValue → Result (Unit {0})
check_value int_type n (int z) = ok tt
check_value int_type n (str s) = err expected_int
check_value string_type n (int z) = err expected_string
check_value string_type n (str s) = if ltb n (length s) then err string_too_long else ok tt

-- The validating loop; `getColumn(i)` for a value with no column throws.
unfoldable pub check_values : List Column → List FieldValue → Result (Unit {0})
unfolding check_value
check_values cols [] = ok tt
check_values [] (v ∷ vs) = err out_of_range
check_values (c ∷ cs) (v ∷ vs) = elim (check_value c.type c.length v) [
  | ok _ ↦ check_values cs vs
  | err e ↦ err e
]

-- Record(schema, values)
unfoldable pub make_row : Schema → List FieldValue → Result Row
unfolding check_values
make_row s vs =
    if not (length vs == num_columns s)
    then err count_mismatch
    else elim (check_values s.columns vs) [
      | ok _ ↦ ok (record { schema = s; values = vs })
      | err e ↦ err e
    ]

-- memcpy(buffer + offset, bytes): a write past the end is undefined.
unfoldable pub write_bytes : List ℕ → ℕ → List ℕ → Result (List ℕ)
write_bytes buffer offset bytes =
    if leb (offset + length bytes) (length buffer)
    then ok (take offset buffer ++ (bytes ++ drop (offset + length bytes) buffer))
    else err undefined

-- The bytes of one value: a STRING is padded with zeros. A longer string gives a wrapped size to
-- memset, which is undefined.
unfoldable pub value_bytes : DataType → ℕ → FieldValue → Result (List ℕ)
unfolding int_bytes
value_bytes int_type n (int z) = ok (int_bytes z)
value_bytes int_type n (str s) = err bad_variant
value_bytes string_type n (int z) = err bad_variant
value_bytes string_type n (str s) =
    if leb (length s) n then ok (s ++ replicate (n - length s) 0) else err undefined

-- What `offset` grows by.
abbrev pub field_size : DataType → ℕ → ℕ
field_size int_type n = 4
field_size string_type n = n

unfoldable pub serialize_loop : List Column → List FieldValue → ℕ → List ℕ → Result (List ℕ)
unfolding value_bytes write_bytes
serialize_loop cols [] offset buffer = ok buffer
serialize_loop [] (v ∷ vs) offset buffer = err out_of_range
serialize_loop (c ∷ cs) (v ∷ vs) offset buffer =
    elim (value_bytes c.type c.length v >>= write_bytes buffer offset) [
      | ok buffer' ↦ serialize_loop cs vs (offset + field_size c.type c.length) buffer'
      | err e ↦ err e
    ]

unfoldable pub serialize : Row → Result (List ℕ)
unfolding serialize_loop
serialize r = serialize_loop r.schema.columns r.values 0 (replicate r.schema.record_size 0)

-- `n` bytes at `buffer + offset`: a read past the end is undefined.
unfoldable pub read_bytes : List ℕ → ℕ → ℕ → Result (List ℕ)
read_bytes buffer offset n =
    if leb (offset + n) (length buffer) then ok (take n (drop offset buffer)) else err undefined

-- The value that the bytes of a field stand for: a string ends before its first zero.
unfoldable pub value_of : DataType → List ℕ → FieldValue
unfolding of_word word_of cut
value_of int_type bytes = int (of_word (word_of bytes))
value_of string_type bytes = str (cut bytes)

unfoldable pub deserialize_loop : List Column → List ℕ → ℕ → Result (List FieldValue)
unfolding read_bytes value_of
deserialize_loop [] buffer offset = ok []
deserialize_loop (c ∷ cs) buffer offset =
    let rest = deserialize_loop cs buffer (offset + field_size c.type c.length) in
    elim (read_bytes buffer offset (field_size c.type c.length)) [
      | ok bytes ↦ elim rest [ ok vs ↦ ok (value_of c.type bytes ∷ vs) | err e ↦ err e ]
      | err e ↦ err e
    ]

unfoldable pub deserialize : Schema → List ℕ → Result Row
unfolding deserialize_loop make_row
deserialize s buffer = do vs ← deserialize_loop s.columns buffer 0; make_row s vs
