-- ===== src/Tree/Bounds.antt =====
-- The array accesses of an insertion into a leaf of bPlusTree/BPlusTree.h.
use sql_engine.Base.{
  ℕ, zero, suc, ◌+◌, ◌-◌, ◌≤◌, ◌<◌, false, ◌≡◌, refl, ◌∙◌, List, [], ◌∷◌, length, get_elem?_in, set,
  length-set, take, length-take, ltb, lt→ltb, ℤ, ok, err, ◌⊎◌, Bool-cases, ltb→lt, inl, inr, arith,
  undefined,
}
use sql_engine.Tree.{read_array, write_array, Leaf, lower_bound, shift, has_key, insert_leaf}

pub lower_bound_le : (key : ℤ) (ks : List ℤ) → lower_bound key ks ≤ length ks
unfolding lower_bound
lower_bound_le key [] = omega arith
lower_bound_le key (k ∷ ks) = ground (arith, lower_bound_le key ks)

pub write_in {ℓ} :
    {A : Type ℓ} (xs : List A) (i : ℕ) (a : A)
    → i < length xs
    → write_array xs i a ≡ ok (set xs i a)
unfolding write_array
write_in xs i a h = rw (lt→ltb i (length xs) h) refl

write_out {ℓ} :
    {A : Type ℓ} (xs : List A) (i : ℕ) (a : A) → length xs ≤ i → write_array xs i a ≡ err undefined
unfolding write_array
write_out xs i a h = ground (arith, h)

-- The arrays have room for `max_keys` entries, and at most so many are used.
pub record IsSized {ℓ} {V : Type ℓ} (max_keys : ℕ) (leaf : Leaf V) : Type 0 where
  pub keys : length leaf.keys ≡ max_keys
  pub values : length leaf.values ≡ max_keys
  pub used : leaf.num_keys ≤ max_keys

module _ {ℓ} {V : Type ℓ} where
  shift_out :
      (rounds pos : ℕ) (keys : List ℤ) (values : List V)
      → pos + rounds ≡ length keys
      → 0 < rounds
      → shift rounds pos keys values ≡ err undefined
  unfolding shift
  shift_out zero pos keys values h z = absurd (omega (arith, z))
  shift_out (suc rounds) pos keys values h z =
      let (k, e) = get_elem?_in keys (pos + rounds) (omega (arith, h)) in
      rw (e, shift, read_array, write_out keys (pos + suc rounds) k (omega (arith, h))) refl

  shift_in :
      (rounds pos : ℕ) (keys : List ℤ) (values : List V)
      → pos + rounds < length keys
      → pos + rounds < length values
      → (ks : List ℤ) × (vs : List V) × (shift rounds pos keys values ≡ ok (ks, vs))
        × (length ks ≡ length keys)
        × (length vs ≡ length values)
  unfolding shift
  shift_in zero pos keys values h g = (keys, values, refl, refl, refl)
  shift_in (suc rounds) pos keys values h g =
      let (k, e) = get_elem?_in keys (pos + rounds) (omega (arith, h)) in
      let (v, d) = get_elem?_in values (pos + rounds) (omega (arith, g)) in
      let keys' = set keys (pos + suc rounds) k in
      let values' = set values (pos + suc rounds) v in
      let m = length-set keys (pos + suc rounds) k in
      let n = length-set values (pos + suc rounds) v in
      let (ks, vs, s, l, r) =
        shift_in rounds pos keys' values' (omega (arith, h, m)) (omega (arith, g, n)) in
      (
        ks,
        vs,
        rw
            (
              e,
              shift,
              read_array,
              write_in keys (pos + suc rounds) k h,
              d,
              write_in values (pos + suc rounds) v g,
            )
            s,
        l ∙ m,
        r ∙ n,
      )

-- An insertion of a key that is not there either finds the leaf with room, stays within the arrays,
-- counts one key more and asks for no split; or the leaf is full, and it writes behind the end of an
-- array. So no insertion ever comes to a split. The arrays have room for MAX_KEYS entries, and at most
-- so many are used.
pub insert_leaf_bounds {ℓ} :
    {V : Type ℓ} (max_keys : ℕ) (leaf : Leaf V) (key : ℤ) (value : V)
    → IsSized max_keys leaf
    → has_key leaf key ≡ false
    → ((leaf.num_keys < max_keys)
        × ((leaf' : Leaf V) × (insert_leaf max_keys leaf key value ≡ ok (leaf', false))
            × IsSized max_keys leaf'
            × (leaf'.num_keys ≡ leaf.num_keys + 1)))
      ⊎ ((leaf.num_keys ≡ max_keys) × (insert_leaf max_keys leaf key value ≡ err undefined))
unfolding insert_leaf
insert_leaf_bounds max_keys leaf key value z absent =
    let at = lower_bound key (take leaf.num_keys leaf.keys) in
    let below : at ≤ leaf.num_keys = omega (
      arith,
      lower_bound_le key (take leaf.num_keys leaf.keys),
      length-take leaf.num_keys leaf.keys,
    ) in
    elim (Bool-cases (ltb leaf.num_keys max_keys)) [
      | inl room ↦
          let l : leaf.num_keys < max_keys = ltb→lt leaf.num_keys max_keys room in
          let (ks, vs, s, m, n) =
            shift_in (leaf.num_keys - at) at leaf.keys leaf.values (omega (arith, l, below, z.keys))
              (omega (arith, l, below, z.values)) in
          inl (
            l,
            (
              record {
                num_keys = leaf.num_keys + 1;
                keys = set ks at key;
                values = set vs at value;
              },
              rw
                  (
                    absent,
                    insert_leaf,
                    s,
                    write_in ks at key (omega (arith, l, below, m, z.keys)),
                    write_in vs at value (omega (arith, l, below, n, z.values)),
                  )
                  (ground (arith, l)),
              record {
                keys = length-set ks at key ∙ (m ∙ z.keys);
                values = length-set vs at value ∙ (n ∙ z.values);
                used = omega (arith, l);
              },
              refl,
            ),
          )
      | inr room ↦
          let full : leaf.num_keys ≡ max_keys = ground (arith, room, z.used) in
          inr (
            full,
            elim (Bool-cases (ltb at leaf.num_keys)) [
              | inl inside ↦
                  rw
                    (
                      absent,
                      insert_leaf,
                      shift_out (leaf.num_keys - at) at leaf.keys leaf.values
                          (omega (arith, below, full, z.keys)) (ground (arith, inside)),
                    )
                    refl
              | inr outside ↦
                  let end : at ≡ leaf.num_keys = ground (arith, outside, below) in
                  let none_left : leaf.num_keys - at ≡ 0 = omega (arith, end) in
                  rw
                    (
                      absent,
                      insert_leaf,
                      none_left,
                      shift,
                      write_out leaf.keys at key (omega (arith, end, full, z.keys)),
                    )
                    refl
            ],
          )
    ]
