-- ===== src/Record/RoundTrip.antt =====
-- `serialize` and `deserialize` of record/Record.cpp against a description of the bytes of a record.
use sql_engine.Base.{
  ℕ, suc, ◌+◌, ◌≡◌, refl, sym, ap, ◌∙◌, List, [], ◌∷◌, ◌++◌, map, append_assoc, arith, length,
  replicate, length-append, All, ok, err,
}
use sql_engine.Schema.{DataType, int_type, string_type, Column, Schema, num_columns, make_schema}
use sql_engine.Record.{
  FieldValue, int, str, Row, check_value, check_values, make_row, write_bytes, field_size,
  serialize_loop, serialize, read_bytes, deserialize_loop, deserialize,
}
use sql_engine.Record.Fields.{
  Fits, as_stored, total, field_bytes, encode, schema_loop-total, length-field_bytes,
  value_bytes-eq, value_of-field_bytes, length-cut, write_next, read_next,
}

check_values-cons :
    (c : Column) (cs : List Column) (v : FieldValue) (vs : List FieldValue)
    → check_values (c ∷ cs) (v ∷ vs) ≡ ok tt
    → (check_value c.type c.length v ≡ ok tt) × (check_values cs vs ≡ ok tt)
unfolding check_values
check_values-cons c cs v vs h = (ground arith, ground arith)

write_step :
    (cs : List Column) (vs : List FieldValue) (pre bs out : List ℕ) (n : ℕ)
    → length bs ≡ n
    → serialize_loop cs vs (length (pre ++ bs)) ((pre ++ bs) ++ replicate (total cs) 0)
      ≡ ok ((pre ++ bs) ++ out)
    → (elim (write_bytes (pre ++ replicate (n + total cs) 0) (length pre) bs) [
      | ok buffer ↦ serialize_loop cs vs (length pre + n) buffer
      | err e ↦ err e
    ])
      ≡ ok (pre ++ (bs ++ out))
write_step cs vs pre bs out n h ih =
    rw (← h, write_next pre bs (total cs), ← h, ← length-append pre bs)
      (ih ∙ ap ok (append_assoc pre bs out))

serialize_loop-eq :
    (cs : List Column) (vs : List FieldValue) (pre : List ℕ)
    → length vs ≡ length cs
    → check_values cs vs ≡ ok tt
    → serialize_loop cs vs (length pre) (pre ++ replicate (total cs) 0) ≡ ok (pre ++ encode cs vs)
unfolding serialize_loop encode
serialize_loop-eq [] [] pre l h = refl
serialize_loop-eq (c ∷ cs) [] pre l h = absurd (omega arith)
serialize_loop-eq [] (v ∷ vs) pre l h = absurd (omega arith)
serialize_loop-eq (c ∷ cs) (v ∷ vs) pre l h =
    let (hv, hs) = check_values-cons c cs v vs h in
    let bs = field_bytes c.type c.length v in
    rw (value_bytes-eq c.type c.length v hv, serialize_loop)
      (write_step cs vs pre bs (encode cs vs) (field_size c.type c.length)
        (length-field_bytes c.type c.length v hv)
        (serialize_loop-eq cs vs (pre ++ bs) (omega arith) hs))

deserialize_loop-eq :
    (cs : List Column) (vs : List FieldValue) (pre rest : List ℕ)
    → length vs ≡ length cs
    → check_values cs vs ≡ ok tt
    → All Fits vs
    → deserialize_loop cs (pre ++ (encode cs vs ++ rest)) (length pre) ≡ ok (map as_stored vs)
unfolding deserialize_loop encode
deserialize_loop-eq [] [] pre rest l h f = refl
deserialize_loop-eq (c ∷ cs) [] pre rest l h f = absurd (omega arith)
deserialize_loop-eq [] (v ∷ vs) pre rest l h f = absurd (omega arith)
deserialize_loop-eq (c ∷ cs) (v ∷ vs) pre rest l h f =
    let (hv, hs) = check_values-cons c cs v vs h in
    let bs = field_bytes c.type c.length v in
    let n = field_size c.type c.length in
    let e = length-field_bytes c.type c.length v hv in
    let buffer = pre ++ ((bs ++ encode cs vs) ++ rest) in
    let shape = ap (◌++◌ pre) (append_assoc bs (encode cs vs) rest) in
    let read_field : read_bytes buffer (length pre) n ≡ ok bs =
      rw (shape, ← e) (read_next pre bs (encode cs vs ++ rest)) in
    let ih' : deserialize_loop cs buffer (length pre + n) ≡ ok (map as_stored vs) =
      rw (shape, ← e, ← length-append pre bs, ← append_assoc pre bs (encode cs vs ++ rest))
        (deserialize_loop-eq cs vs (pre ++ bs) rest (omega arith) hs f.1) in
    ground (arith, read_field, ih', value_of-field_bytes c.type c.length v hv f.0)

length-encode :
    (cs : List Column) (vs : List FieldValue)
    → length vs ≡ length cs
    → check_values cs vs ≡ ok tt
    → length (encode cs vs) ≡ total cs
unfolding encode
length-encode [] [] l h = refl
length-encode (c ∷ cs) [] l h = absurd (omega arith)
length-encode [] (v ∷ vs) l h = absurd (omega arith)
length-encode (c ∷ cs) (v ∷ vs) l h =
    let (hv, hs) = check_values-cons c cs v vs h in
    omega (
      arith,
      length-append (field_bytes c.type c.length v) (encode cs vs),
      length-field_bytes c.type c.length v hv,
      length-encode cs vs (omega arith) hs,
    )

-- Cutting a string keeps it within its column.
check_value-as_stored :
    (t : DataType) (n : ℕ) (v : FieldValue)
    → check_value t n v ≡ ok tt
    → check_value t n (as_stored v) ≡ ok tt
unfolding check_value as_stored
check_value-as_stored int_type n (int z) h = refl
check_value-as_stored int_type n (str s) h = cc
check_value-as_stored string_type n (int z) h = cc
check_value-as_stored string_type n (str s) h = ground (arith, length-cut s)

check_values-as_stored :
    (cs : List Column) (vs : List FieldValue)
    → check_values cs vs ≡ ok tt
    → check_values cs (map as_stored vs) ≡ ok tt
unfolding check_values
check_values-as_stored cs [] h = refl
check_values-as_stored [] (v ∷ vs) h = cc
check_values-as_stored (c ∷ cs) (v ∷ vs) h =
    let (hv, hs) = check_values-cons c cs v vs h in
    rw (check_value-as_stored c.type c.length v hv, check_values) (check_values-as_stored cs vs hs)

-- The two conditions of the constructor.
pub make_row-parts :
    (s : Schema) (vs : List FieldValue) (r : Row)
    → make_row s vs ≡ ok r
    → (length vs ≡ num_columns s)
      × (check_values s.columns vs ≡ ok tt)
      × (r ≡ record { schema = s; values = vs })
unfolding make_row
make_row-parts s vs r h = (ground arith, ground arith, ground arith)

make_schema-parts :
    (cols : List Column) (s : Schema)
    → make_schema cols ≡ ok s
    → (s.columns ≡ cols) × (s.record_size ≡ total s.columns)
unfolding make_schema
make_schema-parts cols s h = (
  ground arith,
  ground (arith, schema_loop-total cols 0 (total cols), schema_loop-total cols 0 s.record_size),
)

length-map-as_stored : (vs : List FieldValue) → length (map as_stored vs) ≡ length vs
length-map-as_stored [] = refl
length-map-as_stored (v ∷ vs) = ap suc (length-map-as_stored vs)

-- A row that the constructor accepts, over a schema that its constructor accepts, with INT values of
-- 32 bits, is written as exactly `recordSize_` bytes; reading them back, whatever bytes follow on the page, gives the same
-- row, but that a string ends before its first zero byte.
pub round_trip :
    (cols : List Column) (s : Schema) (vs : List FieldValue) (r : Row) (rest : List ℕ)
    → make_schema cols ≡ ok s
    → make_row s vs ≡ ok r
    → All Fits vs
    → (bytes : List ℕ) × (serialize r ≡ ok bytes)
      × (length bytes ≡ s.record_size)
      × (deserialize s (bytes ++ rest) ≡ ok (record { schema = s; values = map as_stored vs }))
unfolding serialize deserialize make_row
round_trip cols s vs r rest hs hr f =
    let (_, size) = make_schema-parts cols s hs in
    let (l, checked, e) = make_row-parts s vs r hr in
    let written : serialize r ≡ ok (encode s.columns vs) =
      rw (e, size) (serialize_loop-eq s.columns vs [] l checked) in
    (
      encode s.columns vs,
      written,
      length-encode s.columns vs l checked ∙ sym size,
      ground (
        arith,
        deserialize_loop-eq s.columns vs [] rest l checked f,
        check_values-as_stored s.columns vs checked,
        length-map-as_stored vs,
      ),
    )
