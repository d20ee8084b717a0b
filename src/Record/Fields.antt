-- ===== src/Record/Fields.antt =====
-- The bytes of one field of record/Record.cpp, and how they are written to and read from a buffer.
use sql_engine.Base.{
  take-append_length, drop-append_length, drop-replicate, ℕ, zero, suc, ◌+◌, ◌-◌, ◌≤◌, ◌≡◌, refl,
  sym, ap, ◌∙◌, true, List, [], ◌∷◌, ◌++◌, append_assoc, Text, arith, length, take, drop, replicate,
  length-append, length-replicate, leb, ok, Bool-cases, inl, inr,
}
use native.Mathlib.Nat.{add-zero}
use sql_engine.Base.Int.{fits32}
use sql_engine.Schema.{DataType, int_type, string_type, Column, column_size, schema_loop}
use sql_engine.Record.{
  FieldValue, int, str, check_value, write_bytes, value_bytes, field_size, read_bytes, value_of,
  cut, int_bytes, of_word, word_of_bytes, word_round, cut-padded,
}

-- An `int32_t` in range; any string.
abbrev pub Fits : FieldValue → Type 0
Fits (int z) = fits32 z ≡ true
Fits (str s) = Unit

-- What a value is read back as: a string ends before its first zero byte.
unfoldable pub as_stored : FieldValue → FieldValue
as_stored (int z) = int z
as_stored (str s) = str (cut s)

abbrev pub total : List Column → ℕ
total [] = 0
total (c ∷ cs) = field_size c.type c.length + total cs

unfoldable pub field_bytes : DataType → ℕ → FieldValue → List ℕ
field_bytes t n (int z) = int_bytes z
field_bytes t n (str s) = s ++ replicate (n - length s) 0

unfoldable pub encode : List Column → List FieldValue → List ℕ
encode (c ∷ cs) (v ∷ vs) = field_bytes c.type c.length v ++ encode cs vs
encode cs vs = []

pub column_size-eq : (t : DataType) (n k : ℕ) → column_size t n ≡ ok k → k ≡ field_size t n
unfolding column_size
column_size-eq int_type n k h = ground arith
column_size-eq string_type zero k h = cc
column_size-eq string_type (suc n) k h = ground arith

pub schema_loop-total : (cs : List Column) (k m : ℕ) → schema_loop cs k ≡ ok m → m ≡ k + total cs
unfolding schema_loop
schema_loop-total [] k m h = ground arith
schema_loop-total (c ∷ cs) k m h = ground (
  arith,
  column_size-eq c.type c.length (field_size c.type c.length),
  schema_loop-total cs (k + field_size c.type c.length) m,
)

pub length-field_bytes :
    (t : DataType) (n : ℕ) (v : FieldValue)
    → check_value t n v ≡ ok tt
    → length (field_bytes t n v) ≡ field_size t n
unfolding check_value field_bytes int_bytes
length-field_bytes int_type n (int z) h = refl
length-field_bytes int_type n (str s) h = cc
length-field_bytes string_type n (int z) h = cc
length-field_bytes string_type n (str s) h =
    ground (
      arith,
      length-append s (replicate (n - length s) 0),
      length-replicate {A = ℕ} (n - length s) 0,
    )

pub value_bytes-eq :
    (t : DataType) (n : ℕ) (v : FieldValue)
    → check_value t n v ≡ ok tt
    → value_bytes t n v ≡ ok (field_bytes t n v)
unfolding check_value value_bytes field_bytes
value_bytes-eq int_type n (int z) h = refl
value_bytes-eq int_type n (str s) h = cc
value_bytes-eq string_type n (int z) h = cc
value_bytes-eq string_type n (str s) h = ground arith

pub value_of-field_bytes :
    (t : DataType) (n : ℕ) (v : FieldValue)
    → check_value t n v ≡ ok tt
    → Fits v
    → value_of t (field_bytes t n v) ≡ as_stored v
unfolding check_value value_of field_bytes as_stored
value_of-field_bytes int_type n (int z) h f =
    ap int (ap of_word (word_of_bytes z f) ∙ word_round z f)
value_of-field_bytes int_type n (str s) h f = cc
value_of-field_bytes string_type n (int z) h f = cc
value_of-field_bytes string_type n (str s) h f = ap str (cut-padded s (n - length s))

pub length-cut : (s : Text) → length (cut s) ≤ length s
unfolding cut
length-cut [] = omega arith
length-cut (b ∷ s) = ground (arith, length-cut s)

-- Writing a field at the front of the zeros that are left.
pub write_next :
    (pre bs : List ℕ) (m : ℕ)
    → write_bytes (pre ++ replicate (length bs + m) 0) (length pre) bs
      ≡ ok ((pre ++ bs) ++ replicate m 0)
unfolding write_bytes
write_next pre bs m =
    elim (Bool-cases (leb (length pre + length bs) (length (pre ++ replicate (length bs + m) 0)))) [
      | inl e ↦
          rw
            (
              e,
              take-append_length pre (replicate (length bs + m) 0),
              drop-append_length pre (replicate (length bs + m) 0) (length bs),
              drop-replicate {A = ℕ} (length bs) m 0,
            )
            (ap ok (sym (append_assoc pre bs (replicate m 0))))
      | inr e ↦ ground (
        arith,
        length-append pre (replicate (length bs + m) 0),
        length-replicate {A = ℕ} (length bs + m) 0,
      )
    ]

pub read_next :
    (pre bs rest : List ℕ) → read_bytes (pre ++ (bs ++ rest)) (length pre) (length bs) ≡ ok bs
unfolding read_bytes
read_next pre bs rest =
    elim (Bool-cases (leb (length pre + length bs) (length (pre ++ (bs ++ rest))))) [
      | inl e ↦ rw e (ap ok (ap (take (length bs)) (from_start) ∙ take-append_length bs rest))
      | inr e ↦ ground (arith, length-append pre (bs ++ rest), length-append bs rest)
    ]
  where
    from_start : drop (length pre) (pre ++ (bs ++ rest)) ≡ bs ++ rest
    from_start =
        ap (λ k. drop k (pre ++ (bs ++ rest))) (sym (add-zero (length pre)))
        ∙ drop-append_length pre (bs ++ rest) 0
