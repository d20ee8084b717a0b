-- ===== src/Tree.antt =====
-- The leaves of bPlusTree/BPlusTree.h: insertion into the arrays of a leaf, for keys that are INTs. An
-- access outside of an array is undefined. MAX_KEYS is an argument. The keys are sorted, so that
-- std::lower_bound finds the first key that is not smaller.
pub mod Bounds
pub mod Nodes
pub mod Insert
pub mod Arrays
pub mod Entries
pub mod Changes
pub mod Lookup
pub mod Removal
pub mod History
pub mod Ranges
mod Examples
use sql_engine.Base.{
  ℕ, zero, suc, ◌+◌, ◌-◌, Bool, true, false, ◌&&◌, Option, none, some, List, [], ◌∷◌, length,
  get_elem?, set, take, ltb, leb, ℤ, if◌then◌else◌, Result, ok, err, ◌>>=◌, undefined,
}
use sql_engine.Base.Int.{ltb_ℤ, eq_ℤ}

-- array[i], and array[i] = a
abbrev pub read_array {ℓ} : {A : Type ℓ} → List A → ℕ → Result A
read_array xs i = elim (get_elem? xs i) [ none ↦ err undefined | some x ↦ ok x ]

unfoldable pub write_array {ℓ} : {A : Type ℓ} → List A → ℕ → A → Result (List A)
write_array xs i a = if ltb i (length xs) then ok (set xs i a) else err undefined

-- A node that is a leaf, without its link to the next one.
pub record Leaf {ℓ} (V : Type ℓ) : Type ℓ where
  pub num_keys : ℕ
  pub keys : List ℤ
  pub values : List V

unfoldable pub lower_bound : ℤ → List ℤ → ℕ
lower_bound key [] = 0
lower_bound key (k ∷ ks) = if ltb_ℤ k key then suc (lower_bound key ks) else 0

module _ {ℓ} {V : Type ℓ} where
  -- for (i = pos + rounds; i > pos; --i): the entries move up by one.
  unfoldable pub shift : ℕ → ℕ → List ℤ → List V → Result (List ℤ × List V)
  unfolding write_array
  shift zero pos keys values = ok (keys, values)
  shift (suc rounds) pos keys values = do
    key ← read_array keys (pos + rounds)
    keys' ← write_array keys (pos + suc rounds) key
    value ← read_array values (pos + rounds)
    values' ← write_array values (pos + suc rounds) value
    shift rounds pos keys' values'

  -- The key stands at its place already.
  unfoldable pub has_key : Leaf V → ℤ → Bool
  unfolding lower_bound
  has_key leaf key =
      let at = lower_bound key (take leaf.num_keys leaf.keys) in
      ltb at leaf.num_keys && elim (get_elem? leaf.keys at) [ none ↦ false | some k ↦ eq_ℤ k key ]

  -- The leaf after an insertion, and whether it has to be split.
  unfoldable pub insert_leaf : ℕ → Leaf V → ℤ → V → Result (Leaf V × Bool)
  unfolding has_key shift
  insert_leaf max_keys leaf key value =
      let at = lower_bound key (take leaf.num_keys leaf.keys) in
      if has_key leaf key
      then (do
        values ← write_array leaf.values at value
        ok (record leaf { values = values }, false))
      else (do
        moved ← shift (leaf.num_keys - at) at leaf.keys leaf.values
        keys ← write_array moved.0 at key
        values ← write_array moved.1 at value
        ok (
          record { num_keys = leaf.num_keys + 1; keys = keys; values = values },
          ltb max_keys (leaf.num_keys + 1),
        ))
