-- ===== src/Record/Typed.antt =====
-- The types of the values of a row (record/Record.cpp).
use sql_engine.Base.{
  ℕ, ◌≤◌, ◌≡◌, sym, ap, subst, List, [], ◌∷◌, length, Result-cases, ok, >>=-eq-ok, inl, inr, arith,
}
use sql_engine.Schema.{DataType, int_type, string_type, Column, Schema}
use sql_engine.Record.{
  FieldValue, int, str, Row, check_value, check_values, make_row, deserialize, deserialize_loop,
}
use sql_engine.Record.RoundTrip.{make_row-parts}

-- An INT in an INT column, and in a STRING column a string that is no longer than it.
abbrev pub IsOf : DataType → ℕ → FieldValue → Type 0
IsOf int_type n (int z) = Unit
IsOf int_type n (str s) = ⊥
IsOf string_type n (int z) = ⊥
IsOf string_type n (str s) = length s ≤ n

-- One value for each column.
abbrev pub Conforms : List Column → List FieldValue → Type 0
Conforms [] [] = Unit
Conforms [] (v ∷ vs) = ⊥
Conforms (c ∷ cs) [] = ⊥
Conforms (c ∷ cs) (v ∷ vs) = IsOf c.type c.length v × Conforms cs vs

check_value-IsOf : (t : DataType) (n : ℕ) (v : FieldValue) → check_value t n v ≡ ok tt → IsOf t n v
unfolding check_value
check_value-IsOf int_type n (int z) h = tt
check_value-IsOf int_type n (str s) h = absurd (cc)
check_value-IsOf string_type n (int z) h = absurd (cc)
check_value-IsOf string_type n (str s) h = ground (arith, h)

check_values-Conforms :
    (cs : List Column) (vs : List FieldValue)
    → length vs ≡ length cs
    → check_values cs vs ≡ ok tt
    → Conforms cs vs
unfolding check_values
check_values-Conforms [] [] l h = tt
check_values-Conforms [] (v ∷ vs) l h = absurd (omega (arith, l))
check_values-Conforms (c ∷ cs) [] l h = absurd (omega (arith, l))
check_values-Conforms (c ∷ cs) (v ∷ vs) l h = elim (Result-cases (check_value c.type c.length v)) [
  | inl (x, e) ↦ absurd (ground (arith, e, h))
  | inr (u, e) ↦ (
    check_value-IsOf c.type c.length v e,
    check_values-Conforms cs vs (omega (arith, l)) (ground (arith, e, h)),
  )
]

pub make_row-Conforms :
    (s : Schema) (vs : List FieldValue) (row : Row)
    → make_row s vs ≡ ok row
    → (row.schema ≡ s) × Conforms s.columns row.values
make_row-Conforms s vs row h =
    let (l, checked, e) = make_row-parts s vs row h in
    (
      ap (λ r. r.schema) e,
      subst (λ r. Conforms s.columns r.values) (sym e)
          (check_values-Conforms s.columns vs l checked),
    )

pub deserialize-Conforms :
    (s : Schema) (bytes : List ℕ) (row : Row)
    → deserialize s bytes ≡ ok row
    → (row.schema ≡ s) × Conforms s.columns row.values
unfolding deserialize
deserialize-Conforms s bytes row h =
    let (vs, _, made) = >>=-eq-ok (deserialize_loop s.columns bytes 0) _ h in
    make_row-Conforms s vs row made
