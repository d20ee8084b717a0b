-- ===== src/Tree/Removal.antt =====
-- What `remove` of bPlusTree/BPlusTree.h does to the entries of a leaf.
use sql_engine.Base.{
  ℕ, zero, suc, ◌+◌, ◌-◌, ◌≤◌, ◌<◌, true, false, ◌≡◌, ◌≢◌, ◌↔◌, refl, ap, ◌∙◌, Option, none, some,
  List, length, get_elem?, get_elem?_in, set, length-set, leb, ℤ, ok, ◌>>=◌, Bool-cases, inl, inr,
  arith, then_case, else_case,
}
use sql_engine.Base.Int.{eq_ℤ, eq_ℤ_iff}
use sql_engine.Tree.{read_array, Leaf, has_key}
use sql_engine.Tree.Nodes.{shift_down, remove_leaf}
use sql_engine.Tree.Arrays.{Lowered, shift_down-Lowered}
use sql_engine.Tree.Bounds.{IsSized, write_in}
use sql_engine.Tree.Entries.{Has, IsSorted, place, absent_key}
use sql_engine.Tree.Changes.{key_once, has_key-place}

shift_down_in :
    {V : Type 0} (rounds at : ℕ) (keys : List ℤ) (values : List V)
    → at + rounds < length keys
    → at + rounds < length values
    → (ks : List ℤ) × (vs : List V) × (shift_down rounds at keys values ≡ ok (ks, vs))
      × (length ks ≡ length keys)
      × (length vs ≡ length values)
unfolding shift_down
shift_down_in zero at keys values h g = (keys, values, refl, refl, refl)
shift_down_in (suc rounds) at keys values h g =
    let (k, e) = get_elem?_in keys (at + 1) (omega (arith, h)) in
    let (v, d) = get_elem?_in values (at + 1) (omega (arith, g)) in
    let m = length-set keys at k in
    let n = length-set values at v in
    let (ks, vs, s, l, r) =
      shift_down_in rounds (at + 1) (set keys at k) (set values at v) (omega (arith, h, m))
        (omega (arith, g, n)) in
    (
      ks,
      vs,
      rw
          (
            shift_down,
            read_array,
            e,
            write_in keys at k (omega (arith, h)),
            d,
            write_in values at v (omega (arith, g)),
          )
          s,
      l ∙ m,
      r ∙ n,
    )

-- The leaf after the call.
abbrev pub removed_leaf {ℓ} : {V : Type ℓ} → Leaf V → Option (Leaf V) → Leaf V
removed_leaf leaf none = leaf
removed_leaf leaf (some leaf') = leaf'

module _ {V : Type 0} (leaf : Leaf V) (key : ℤ) where
  Lowered-IsSorted :
      (ks : List ℤ) (vs : List V)
      → IsSorted leaf
      → has_key leaf key ≡ true
      → Lowered (leaf.num_keys - 1 - place leaf key) (place leaf key) leaf.keys ks
      → IsSorted (record { num_keys = leaf.num_keys - 1; keys = ks; values = vs })
  Lowered-IsSorted ks vs s present p i j a b h m ha hb =
      let (l, e) = has_key-place leaf key present in
      elim (Bool-cases (leb (place leaf key) i)) [
        | inl c ↦
            s (i + 1) (j + 1) a b (omega (arith, h)) (omega (arith, m))
              (ground (arith, p i, c, h, m, ha)) (ground (arith, p j, c, h, m, hb))
        | inr c ↦ elim (Bool-cases (leb (place leaf key) j)) [
          | inl d ↦
              s i (j + 1) a b (omega (arith, h)) (omega (arith, m)) (ground (arith, p i, c, ha))
                (ground (arith, p j, d, m, hb))
          | inr d ↦
              s i j a b h (omega (arith, m)) (ground (arith, p i, c, ha))
                (ground (arith, p j, d, hb))
        ]
      ]

  Lowered-Has :
      (ks : List ℤ) (vs : List V) (k : ℤ) (v : V)
      → IsSorted leaf
      → has_key leaf key ≡ true
      → Lowered (leaf.num_keys - 1 - place leaf key) (place leaf key) leaf.keys ks
      → Lowered (leaf.num_keys - 1 - place leaf key) (place leaf key) leaf.values vs
      → Has (record { num_keys = leaf.num_keys - 1; keys = ks; values = vs }) k v
        ↔ ((eq_ℤ k key ≡ false) × Has leaf k v)
  Lowered-Has ks vs k v s present p q = (
    λ (i, m, ek, ev). elim (Bool-cases (leb (place leaf key) i)) [
      | inl c ↦
          kept (i + 1) (ground (arith, c)) (omega (arith, m)) (ground (arith, p i, c, m, ek))
            (ground (arith, q i, c, m, ev))
      | inr c ↦
          kept i (ground (arith, c)) (omega (arith, m)) (ground (arith, p i, c, ek))
            (ground (arith, q i, c, ev))
    ],
    λ (other, (i, m, ek, ev)).
        let (l, e) = has_key-place leaf key present in
        let there : place leaf key ≢ i =
          λ x. absurd (ground (arith, e, x, ek, other, eq_ℤ_iff k key)) in
        elim (Bool-cases (leb (place leaf key) i)) [
          | inl c ↦ (
            i - 1,
            ground (arith, c, there, m),
            ground (arith, p (i - 1), c, there, m, ek),
            ground (arith, q (i - 1), c, there, m, ev),
          )
          | inr c ↦
              (i, ground (arith, c, l), ground (arith, p i, c, ek), ground (arith, q i, c, ev))
        ],
  )
    where
      kept :
          (i : ℕ)
          → place leaf key ≢ i
          → i < leaf.num_keys
          → get_elem? leaf.keys i ≡ some k
          → get_elem? leaf.values i ≡ some v
          → (eq_ℤ k key ≡ false) × Has leaf k v
      kept i there m ek ev = (
        elim (Bool-cases (eq_ℤ k key)) [
          | inl same ↦
              absurd
                (there (key_once leaf key i s present m (ek ∙ ap some ((eq_ℤ_iff k key).0 same))))
          | inr other ↦ other
        ],
        (i, m, ek, ev),
      )

  -- The removal of a key returns, leaves the keys in their order, and takes the entry of that key away,
  -- and no other.
  pub remove_leaf-changes :
      (max_keys : ℕ)
      → IsSized max_keys leaf
      → IsSorted leaf
      → (r : Option (Leaf V)) × (remove_leaf leaf key ≡ ok r)
        × IsSized max_keys (removed_leaf leaf r)
        × IsSorted (removed_leaf leaf r)
        × ((removed_leaf leaf r).num_keys ≤ leaf.num_keys)
        × ((k : ℤ) (v : V) → Has (removed_leaf leaf r) k v ↔ ((eq_ℤ k key ≡ false) × Has leaf k v))
  unfolding remove_leaf
  remove_leaf-changes max_keys z s = elim (Bool-cases (has_key leaf key)) [
    | inl present ↦
        let (l, e) = has_key-place leaf key present in
        let (ks, vs, runs, a, b) =
          shift_down_in (leaf.num_keys - 1 - place leaf key) (place leaf key) leaf.keys leaf.values
            (omega (arith, l, z.keys, z.used)) (omega (arith, l, z.values, z.used)) in
        let (p, q) =
          shift_down-Lowered (leaf.num_keys - 1 - place leaf key) (place leaf key) leaf.keys ks
            leaf.values vs runs in
        (
          some (record { num_keys = leaf.num_keys - 1; keys = ks; values = vs }),
          then_case _ _ present
              ∙ ap
                  (λ r. r >>= λ moved. ok (
                    some
                      (record { num_keys = leaf.num_keys - 1; keys = moved.0; values = moved.1 })))
                  runs,
          record { keys = a ∙ z.keys; values = b ∙ z.values; used = omega (arith, z.used) },
          Lowered-IsSorted ks vs s present p,
          omega arith,
          λ k v. Lowered-Has ks vs k v s present p q,
        )
    | inr absent ↦ (
      none,
      else_case _ _ absent,
      z,
      s,
      omega arith,
      λ k v. (λ h. let (i, m, ek, ev) = h in (other k i absent m ek, h), λ h. h.1),
    )
  ]
    where
      other :
          (k : ℤ) (i : ℕ)
          → has_key leaf key ≡ false
          → i < leaf.num_keys
          → get_elem? leaf.keys i ≡ some k
          → eq_ℤ k key ≡ false
      other k i absent m ek = elim (Bool-cases (eq_ℤ k key)) [
        | inl same ↦
            absurd (absent_key leaf key i s absent m (ek ∙ ap some ((eq_ℤ_iff k key).0 same)))
        | inr d ↦ d
      ]
