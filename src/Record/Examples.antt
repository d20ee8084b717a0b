-- ===== src/Record/Examples.antt =====
-- Rows of the sample schema of tests/main.cpp.
use sql_engine.Base.{
  ℕ, ◌≡◌, refl, List, [], ◌∷◌, ◌++◌, pos, negsuc, codes, length, ok, err, string_too_long,
  expected_int, undefined,
}
use sql_engine.Schema.{int_type, string_type, Column, Schema, make_schema}
use sql_engine.Record.{FieldValue, int, str, make_row, serialize, deserialize, cut}
use sql_engine.Record.Fields.{as_stored}
use sql_engine.Record.RoundTrip.{round_trip}

abbrev customer_columns : List Column
customer_columns =
    (record { name = codes "id"; type = int_type; length = 0 })
    ∷ (record { name = codes "name"; type = string_type; length = 8 })
    ∷ []

abbrev customers : Schema
customers = record { columns = customer_columns; record_size = 12 }

abbrev alice : List FieldValue
alice = int (negsuc 1) ∷ str (codes "Alice") ∷ []

customers_accepted : make_schema customer_columns ≡ ok customers
unfolding make_schema
customers_accepted = refl

alice_accepted : make_row customers alice ≡ ok (record { schema = customers; values = alice })
unfolding make_row
alice_accepted = refl

alice_bytes :
    serialize (record { schema = customers; values = alice })
    ≡ ok (254 ∷ 255 ∷ 255 ∷ 255 ∷ 65 ∷ 108 ∷ 105 ∷ 99 ∷ 101 ∷ 0 ∷ 0 ∷ 0 ∷ [])
unfolding serialize
alice_bytes = refl

refused :
    (make_row customers (str [] ∷ str [] ∷ []) ≡ err expected_int)
    × (make_row customers (int (pos 1) ∷ str (codes "Alexandra") ∷ []) ≡ err string_too_long)
unfolding make_row
refused = (refl, refl)

short_buffer : deserialize customers (1 ∷ 0 ∷ []) ≡ err undefined
unfolding deserialize
short_buffer = refl

round_trip_example :
    (bytes : List ℕ) × (serialize (record { schema = customers; values = alice }) ≡ ok bytes)
    × (length bytes ≡ 12)
    × (deserialize customers (bytes ++ 7 ∷ []) ≡ ok (record { schema = customers; values = alice }))
unfolding as_stored cut
round_trip_example =
    round_trip customer_columns customers alice (record { schema = customers; values = alice })
      (7 ∷ []) customers_accepted alice_accepted (refl, (tt, tt))
