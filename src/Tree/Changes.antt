-- ===== src/Tree/Changes.antt =====
-- What the changes of a leaf of bPlusTree/BPlusTree.h do to its entries.
use sql_engine.Base.{
  ℕ, ◌+◌, ◌-◌, ◌≤◌, ◌<◌, Bool, true, false, ◌≡◌, ◌≢◌, ◌↔◌, ◌⊎◌, sym, ap, ◌∙◌, some, List, get_elem?,
  take, length-take, set, length-set, ltb, ℤ, if◌then◌else◌, ok, ◌>>=◌, >>=-eq-ok, ok-injective,
  Option-cases, Bool-cases, inl, inr, ltb→lt, arith, subst, then_case, else_case,
}
use sql_engine.Base.Int.{eq_ℤ, eq_ℤ_iff}
use sql_engine.Tree.{write_array, Leaf, shift, has_key, insert_leaf}
use sql_engine.Tree.Arrays.{write_array-ok, shift-Shifted}
use sql_engine.Tree.Bounds.{IsSized, write_in, insert_leaf_bounds, lower_bound_le}
use sql_engine.Tree.Entries.{
  Has, IsSorted, Placed, Placed-Shifted, place, Placed-IsSorted, Placed-Has,
}

module _ {V : Type 0} (leaf : Leaf V) (key : ℤ) where
  place_le : place leaf key ≤ leaf.num_keys
  place_le = omega (
    arith,
    lower_bound_le key (take leaf.num_keys leaf.keys),
    length-take leaf.num_keys leaf.keys,
  )

  -- Where the key stands.
  pub has_key-place :
      has_key leaf key ≡ true
      → (place leaf key < leaf.num_keys) × (get_elem? leaf.keys (place leaf key) ≡ some key)
  unfolding has_key
  has_key-place h = elim (Bool-cases (ltb (place leaf key) leaf.num_keys)) [
    | inl c ↦ elim (Option-cases (get_elem? leaf.keys (place leaf key))) [
      | inl e ↦ absurd (ground (arith, h, c, e))
      | inr (k, e) ↦
          let same : eq_ℤ k key ≡ true = ground (arith, h, c, e) in
          (ltb→lt (place leaf key) leaf.num_keys c, e ∙ ap some ((eq_ℤ_iff k key).0 same))
    ]
    | inr c ↦ absurd (ground (arith, h, c))
  ]

  -- It stands nowhere else.
  pub key_once :
      (i : ℕ)
      → IsSorted leaf
      → has_key leaf key ≡ true
      → i < leaf.num_keys
      → get_elem? leaf.keys i ≡ some key
      → place leaf key ≡ i
  key_once i s present l e =
      let (m, d) = has_key-place present in
      elim (Bool-cases (ltb i (place leaf key))) [
        | inl c ↦
            absurd
              (ground (arith, s i (place leaf key) key key (ltb→lt i (place leaf key) c) m e d))
        | inr c ↦ elim (Bool-cases (ltb (place leaf key) i)) [
          | inl a ↦
              absurd
                (ground (arith, s (place leaf key) i key key (ltb→lt (place leaf key) i a) l d e))
          | inr a ↦ ground (arith, a, c)
        ]
      ]

  -- A key that is there already has its value written over.
  insert_leaf-present :
      (max_keys : ℕ) (value : V) (leaf' : Leaf V) (full : Bool)
      → IsSorted leaf
      → has_key leaf key ≡ true
      → insert_leaf max_keys leaf key value ≡ ok (leaf', full)
      → (vs : List V) × (leaf' ≡ record leaf { values = vs })
        × (full ≡ false)
        × (write_array leaf.values (place leaf key) value ≡ ok vs)
  unfolding insert_leaf
  insert_leaf-present max_keys value leaf' full s present h =
      let (vs, w, e) =
        >>=-eq-ok (write_array leaf.values (place leaf key) value) _
          (sym (then_case _ _ present) ∙ h) in
      let same = ok-injective e in (vs, sym (ap (λ x. x.0) same), sym (ap (λ x. x.1) same), w)

  -- A new key is put at its place.
  insert_leaf-absent :
      (max_keys : ℕ) (value : V) (leaf' : Leaf V) (full : Bool)
      → has_key leaf key ≡ false
      → insert_leaf max_keys leaf key value ≡ ok (leaf', full)
      → (ks : List ℤ) × (vs : List V) × (leaf'
          ≡ record { num_keys = leaf.num_keys + 1; keys = ks; values = vs })
        × Placed (place leaf key) leaf.num_keys key leaf.keys ks
        × Placed (place leaf key) leaf.num_keys value leaf.values vs
  unfolding insert_leaf
  insert_leaf-absent max_keys value leaf' full absent h =
      let at = place leaf key in
      let (moved, m, h1) =
        >>=-eq-ok (shift (leaf.num_keys - at) at leaf.keys leaf.values) _
          (sym (else_case _ _ absent) ∙ h) in
      let (ks, wk, h2) = >>=-eq-ok (write_array moved.0 at key) _ h1 in
      let (vs, wv, h3) = >>=-eq-ok (write_array moved.1 at value) _ h2 in
      let (a, b) = shift-Shifted (leaf.num_keys - at) at leaf.keys moved.0 leaf.values moved.1 m in
      (
        ks,
        vs,
        sym (ap (λ x. x.0) (ok-injective h3)),
        Placed-Shifted at leaf.num_keys key leaf.keys moved.0 ks place_le a wk,
        Placed-Shifted at leaf.num_keys value leaf.values moved.1 vs place_le b wv,
      )

  -- The entries after the value of a key that is there was written over.
  overwritten-Has :
      (vs : List V) (value : V) (k : ℤ) (v : V)
      → IsSorted leaf
      → has_key leaf key ≡ true
      → write_array leaf.values (place leaf key) value ≡ ok vs
      → Has (record leaf { values = vs }) k v ↔ (if eq_ℤ k key then v ≡ value else Has leaf k v)
  overwritten-Has vs value k v s present w =
      let (m, e) = has_key-place present in
      let at_index = write_array-ok leaf.values vs (place leaf key) value w in
      elim (Bool-cases (eq_ℤ k key)) [
        | inl same ↦
            let is_key : k ≡ key = (eq_ℤ_iff k key).0 same in
            (
              λ (i, l, ek, ev).
                  let here = key_once i s present l (ek ∙ ap some is_key) in
                  let is_value : v ≡ value = ground (arith, at_index i, here, ev) in
                  rw same is_value,
              λ h.
                  let is_value : v ≡ value =
                    subst (λ b. if b then v ≡ value else Has leaf k v) same h in
                  (
                    place leaf key,
                    m,
                    e ∙ ap some (sym is_key),
                    ground (arith, at_index (place leaf key), is_value),
                  ),
            )
        | inr other ↦ (
          λ (i, l, ek, ev).
              let there : place leaf key ≢ i =
                λ x. absurd (ground (arith, e, x, ek, other, eq_ℤ_iff k key)) in
              let old : get_elem? leaf.values i ≡ some v = ground (arith, at_index i, there, ev) in
              rw other (i, l, ek, old),
          λ h.
              let (i, l, ek, ev) = subst (λ b. if b then v ≡ value else Has leaf k v) other h in
              let there : place leaf key ≢ i =
                λ x. absurd (ground (arith, e, x, ek, other, eq_ℤ_iff k key)) in
              (i, l, ek, ground (arith, at_index i, there, ev)),
        )
      ]

  pub insert_leaf-changes :
      (max_keys : ℕ) (value : V)
      → IsSized max_keys leaf
      → IsSorted leaf
      → (leaf.num_keys < max_keys) ⊎ (has_key leaf key ≡ true)
      → (leaf' : Leaf V) × (insert_leaf max_keys leaf key value ≡ ok (leaf', false))
        × IsSized max_keys leaf'
        × IsSorted leaf'
        × (leaf'.num_keys ≤ leaf.num_keys + 1)
        × ((k : ℤ) (v : V) → Has leaf' k v ↔ (if eq_ℤ k key then v ≡ value else Has leaf k v))
  unfolding insert_leaf
  insert_leaf-changes max_keys value z s room = elim (Bool-cases (has_key leaf key)) [
    | inl present ↦
        let (m, e) = has_key-place present in
        let w = write_in leaf.values (place leaf key) value (omega (arith, m, z.values, z.used)) in
        let vs = set leaf.values (place leaf key) value in
        (
          record leaf { values = vs },
          then_case _ _ present
              ∙ ap (λ r. r >>= λ values. ok (record leaf { values = values }, false)) w,
          record {
            keys = z.keys;
            values = length-set leaf.values (place leaf key) value ∙ z.values;
            used = z.used;
          },
          s,
          omega arith,
          λ k v. overwritten-Has vs value k v s present w,
        )
    | inr absent ↦ elim (insert_leaf_bounds max_keys leaf key value z absent) [
      | inl (l, (leaf', runs, sized, counted)) ↦
          let (ks, vs, is, p, q) = insert_leaf-absent max_keys value leaf' false absent runs in
          (
            leaf',
            runs,
            sized,
            subst IsSorted (sym is) (Placed-IsSorted leaf key ks vs s absent place_le p),
            omega (arith, counted),
            λ k v.
                subst (λ x. Has x k v ↔ (if eq_ℤ k key then v ≡ value else Has leaf k v)) (sym is)
                  (Placed-Has leaf key ks vs value k v s absent place_le p q),
          )
      | inr (full, fails) ↦ elim room [
        | inl l ↦ absurd (omega (arith, full, l))
        | inr present ↦ absurd (ground (arith, absent, present))
      ]
    ]
  ]
