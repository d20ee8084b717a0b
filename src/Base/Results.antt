-- ===== src/Base/Results.antt =====
-- Exceptions as values. One constructor for each message that the modelled code throws, after those
-- that the standard library throws (`out_of_range` of at(), `bad_variant` of std::get, `bad_number`
-- of std::stoi and std::stoll), and `undefined`, which stands for undefined behaviour: an access past
-- a buffer, a signed overflow, a division by zero. `out_of_fuel` is no error of the program: it says
-- that a bound on the rounds of a loop was too small, and theorems rule it out.
use Prim.Native.Nat.{ℕ}
use mathlib.Core.Path.{◌≡◌, refl, ap}
use mathlib.Core.Logic.{◌⊎◌, inl, inr}
use mathlib.Core.Bool.{Bool, true, false}
use mathlib.Core.Option.{Option, none, some}
use sql_engine.Base.Texts.{Text}

pub data Error : Type 0 where
  lock_conflict : Text → ℕ → Error
  invalid_transaction not_active : Error
  undefined out_of_range bad_variant bad_number : Error
  out_of_fuel : Error
  unterminated_string unknown_statement expected_table expected_column expected_type : Error
  expected_length unexpected_token : Error
  unknown_char : ℕ → Error
  expected : Text → Error
  table_not_found table_exists column_not_found type_mismatch unknown_function : Text → Error
  unknown_data_type unknown_column unsupported_operator : Text → Error
  bad_field : Text → Error
  page_not_in_pool unpin_unpinned all_pinned invalid_slot deleted_record : Error
  nested_transaction no_transaction dml_outside analyze_without_table : Error
  unknown_table table_registered no_primary_key : Text → Error
  key_not_int key_update : Error
  insert_expression update_expression update_condition delete_condition : Error
  invalid_file no_tables values_mismatch column_in_values comparison_mismatch invalid_operand :
      Error
  unsupported_in_where non_boolean not_single_table : Error
  empty_string_column count_mismatch expected_int expected_string string_too_long : Error

-- `ok a`: the call returned `a`; `err e`: it threw `e`.
pub data Result {ℓ} (A : Type ℓ) : Type ℓ where
  err : Error → Result A
  ok : A → Result A

abbrev pub or_throw {ℓ} : {A : Type ℓ} → Option A → Error → Result A
or_throw none e = err e
or_throw (some a) e = ok a

-- if (!condition) throw e
abbrev pub guard : (condition : Bool) → Error → Result (Unit {0})
guard false e = err e
guard true e = ok tt

infixl 5 ◌>>=◌ ◌>>◌
-- What follows a call, unless the call throws.
abbrev pub ◌>>=◌ {ℓ κ} : {A : Type ℓ} {B : Type κ} → Result A → (A → Result B) → Result B
err thrown >>= next = err thrown
ok result >>= next = next result

-- A chain that returned: what its first call returned, and what the rest made of it.
pub >>=-eq-ok {ℓ κ} :
    {A : Type ℓ} {B : Type κ} (call : Result A) (next : A → Result B) {returned : B}
    → (call >>= next) ≡ ok returned
    → (result : A) × (call ≡ ok result) × (next result ≡ ok returned)
>>=-eq-ok (err thrown) next returns = cc
>>=-eq-ok (ok result) next returns = (result, refl, returns)

abbrev pub ◌>>◌ {ℓ} : {B : Type ℓ} → Result (Unit {0}) → Result B → Result B
check >> rest = check >>= λ done. rest

pub guard-eq-ok : (b : Bool) (e : Error) → guard b e ≡ ok tt → b ≡ true
guard-eq-ok true e h = refl
guard-eq-ok false e h = cc

abbrev or_else {ℓ} : {A : Type ℓ} → A → Result A → A
or_else a (ok b) = b
or_else a (err e) = a

pub ok-injective {ℓ} : {A : Type ℓ} {a b : A} → ok a ≡ ok b → a ≡ b
ok-injective {a = a} p = ap (or_else a) p

pub Result-cases {ℓ} :
    {A : Type ℓ} (r : Result A) → ((e : Error) × (r ≡ err e)) ⊎ ((a : A) × (r ≡ ok a))
Result-cases (err e) = inl (e, refl)
Result-cases (ok a) = inr (a, refl)
