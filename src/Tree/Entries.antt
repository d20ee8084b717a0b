-- ===== src/Tree/Entries.antt =====
-- The entries of a leaf of bPlusTree/BPlusTree.h, and an insertion among them.
use sql_engine.Base.{
  ℕ, ◌+◌, ◌-◌, ◌≤◌, ◌<◌, true, false, ◌≡◌, ◌≢◌, ◌↔◌, sym, ap, ◌∙◌, some, some-injective, List,
  get_elem?, get_elem?_bound, get_elem?_in, take, ltb, ℤ, if◌then◌else◌, ok, Bool-cases, inl, inr,
  ==_iff, ◌==◌, ltb→lt, lt→ltb, arith, subst,
}
use sql_engine.Base.Int.{ltb_ℤ, eq_ℤ, eq_ℤ_iff}
use sql_engine.Tree.{write_array, Leaf, lower_bound, has_key}
use sql_engine.Tree.Arrays.{
  get_elem?-take, write_array-ok, lower_bound_below, lower_bound_at, Shifted,
}

-- The leaf has the value under the key.
abbrev pub Has : {V : Type 0} → Leaf V → ℤ → V → Type 0
Has leaf k v =
    (i : ℕ) × (i < leaf.num_keys)
    × (get_elem? leaf.keys i ≡ some k)
    × (get_elem? leaf.values i ≡ some v)

-- The keys in use are in their order, each once.
abbrev pub IsSorted : {V : Type 0} → Leaf V → Type 0
IsSorted leaf =
    (i j : ℕ) (a b : ℤ)
    → i < j
    → j < leaf.num_keys
    → get_elem? leaf.keys i ≡ some a
    → get_elem? leaf.keys j ≡ some b
    → ltb_ℤ a b ≡ true

-- One array after an insertion at the index `at`, of the entries below `n`.
abbrev pub Placed : {A : Type 0} → ℕ → ℕ → A → List A → List A → Type 0
Placed at n a xs ys =
    (j : ℕ)
    → j ≤ n
    → get_elem? ys j
      ≡ (if at == j then some a else if ltb at j then get_elem? xs (j - 1) else get_elem? xs j)

pub Placed-Shifted :
    {A : Type 0} (at n : ℕ) (a : A) (xs moved ys : List A)
    → at ≤ n
    → Shifted (n - at) at xs moved
    → write_array moved at a ≡ ok ys
    → Placed at n a xs ys
Placed-Shifted at n a xs moved ys l s w j h =
    ground (arith, s j, write_array-ok moved ys at a w j, l, h)

pub ltb_ℤ_trans : (a b c : ℤ) → ltb_ℤ a b ≡ true → ltb_ℤ b c ≡ true → ltb_ℤ a c ≡ true
ltb_ℤ_trans a b c h k = ground (arith, h, k)

pub ltb_ℤ_ne : (a b : ℤ) → ltb_ℤ a b ≡ true → eq_ℤ a b ≡ false
ltb_ℤ_ne a b h = ground (arith, h, eq_ℤ_iff a b)

module _ {V : Type 0} (leaf : Leaf V) (key : ℤ) where
  -- Where the key stands, or would stand.
  abbrev pub place : ℕ
  place = lower_bound key (take leaf.num_keys leaf.keys)

  below_place :
      (i : ℕ) (a : ℤ)
      → i < place
      → i < leaf.num_keys
      → get_elem? leaf.keys i ≡ some a
      → ltb_ℤ a key ≡ true
  below_place i a h l e =
      lower_bound_below key (take leaf.num_keys leaf.keys) i a h
        (get_elem?-take leaf.num_keys i leaf.keys l ∙ e)

  at_place :
      (a : ℤ) → place < leaf.num_keys → get_elem? leaf.keys place ≡ some a → ltb_ℤ a key ≡ false
  at_place a l e =
      lower_bound_at key (take leaf.num_keys leaf.keys) a
        (get_elem?-take leaf.num_keys place leaf.keys l ∙ e)

  -- A key that is not there is smaller than every key from its place on.
  above_place :
      (j : ℕ) (b : ℤ)
      → IsSorted leaf
      → has_key leaf key ≡ false
      → place ≤ j
      → j < leaf.num_keys
      → get_elem? leaf.keys j ≡ some b
      → ltb_ℤ key b ≡ true
  unfolding has_key
  above_place j b s absent h l e =
      let inside : place < leaf.num_keys = omega (arith, h, l) in
      let (c, d) = get_elem?_in leaf.keys place (omega (arith, h, get_elem?_bound leaf.keys j e)) in
      let not_smaller = at_place c inside d in
      let other : eq_ℤ c key ≡ false =
        ground (arith, absent, lt→ltb place leaf.num_keys inside, d) in
      let at_least : ltb_ℤ key c ≡ true = ground (arith, not_smaller, other, eq_ℤ_iff c key) in
      elim (Bool-cases (place == j)) [
        | inl y ↦
            let same : c ≡ b =
              some-injective c b (sym d ∙ (ap (get_elem? leaf.keys) ((==_iff place j).0 y) ∙ e)) in
            ap (ltb_ℤ key) (sym same) ∙ at_least
        | inr y ↦
            let before : place < j = ground (arith, y, h) in
            ltb_ℤ_trans key c b at_least (s place j c b before l d e)
      ]

  pub Placed-IsSorted :
      (ks : List ℤ) (vs : List V)
      → IsSorted leaf
      → has_key leaf key ≡ false
      → place ≤ leaf.num_keys
      → Placed place leaf.num_keys key leaf.keys ks
      → IsSorted (record { num_keys = leaf.num_keys + 1; keys = ks; values = vs })
  Placed-IsSorted ks vs s absent l p i j a b h m ha hb =
      let pi = p i (omega (arith, h, m)) in
      let pj = p j (omega (arith, m)) in
      elim (Bool-cases (place == j)) [
        | inl e ↦
            let is_key : key ≡ b = ground (arith, pj, hb, e) in
            let before : get_elem? leaf.keys i ≡ some a = ground (arith, pi, ha, e, h) in
            ap (ltb_ℤ a) (sym is_key)
            ∙ below_place i a (ground (arith, e, h)) (ground (arith, e, h, l)) before
        | inr e ↦ elim (Bool-cases (ltb place j)) [
          | inl after ↦
              let moved : get_elem? leaf.keys (j - 1) ≡ some b = ground (arith, pj, hb, e, after) in
              elim (Bool-cases (place == i)) [
                | inl d ↦
                    let is_key : key ≡ a = ground (arith, pi, ha, d) in
                    ap (λ x. ltb_ℤ x b) (sym is_key)
                    ∙ above_place (j - 1) b s absent (ground (arith, after)) (omega (arith, m, h))
                        moved
                | inr d ↦ elim (Bool-cases (ltb place i)) [
                  | inl c ↦
                      let moved_i : get_elem? leaf.keys (i - 1) ≡ some a =
                        ground (arith, pi, ha, d, c) in
                      s (i - 1) (j - 1) a b (ground (arith, c, h)) (omega (arith, m, h)) moved_i
                        moved
                  | inr c ↦
                      let kept : get_elem? leaf.keys i ≡ some a = ground (arith, pi, ha, d, c) in
                      s i (j - 1) a b (ground (arith, c, d, after)) (omega (arith, m, h)) kept moved
                ]
              ]
          | inr before ↦
              let kept_j : get_elem? leaf.keys j ≡ some b = ground (arith, pj, hb, e, before) in
              let kept_i : get_elem? leaf.keys i ≡ some a = ground (arith, pi, ha, e, before, h) in
              s i j a b h (ground (arith, e, before, l)) kept_i kept_j
        ]
      ]

  -- The key is under no index when it is not there.
  pub absent_key :
      (i : ℕ)
      → IsSorted leaf
      → has_key leaf key ≡ false
      → i < leaf.num_keys
      → get_elem? leaf.keys i ≢ some key
  absent_key i s absent l e = elim (Bool-cases (ltb i place)) [
    | inl c ↦ absurd (ground (arith, below_place i key (ltb→lt i place c) l e))
    | inr c ↦ absurd (ground (arith, above_place i key s absent (ground (arith, c)) l e))
  ]

  pub Placed-Has :
      (ks : List ℤ) (vs : List V) (value : V) (k : ℤ) (v : V)
      → IsSorted leaf
      → has_key leaf key ≡ false
      → place ≤ leaf.num_keys
      → Placed place leaf.num_keys key leaf.keys ks
      → Placed place leaf.num_keys value leaf.values vs
      → Has (record { num_keys = leaf.num_keys + 1; keys = ks; values = vs }) k v
        ↔ (if eq_ℤ k key then v ≡ value else Has leaf k v)
  Placed-Has ks vs value k v s absent l p q = (
    λ h.
        let (i, m, ek, ev) = h in
        let pi = p i (omega (arith, m)) in
        let qi = q i (omega (arith, m)) in
        elim (Bool-cases (place == i)) [
          | inl d ↦
              let is_key : k ≡ key = ground (arith, pi, ek, d) in
              let is_value : v ≡ value = ground (arith, qi, ev, d) in
              rw ((eq_ℤ_iff k key).1 is_key) is_value
          | inr d ↦ elim (Bool-cases (ltb place i)) [
            | inl c ↦
                let old_k : get_elem? leaf.keys (i - 1) ≡ some k = ground (arith, pi, ek, d, c) in
                let old_v : get_elem? leaf.values (i - 1) ≡ some v = ground (arith, qi, ev, d, c) in
                kept k v (i - 1) (ground (arith, c, m)) old_k old_v
            | inr c ↦
                let old_k : get_elem? leaf.keys i ≡ some k = ground (arith, pi, ek, d, c) in
                let old_v : get_elem? leaf.values i ≡ some v = ground (arith, qi, ev, d, c) in
                kept k v i (ground (arith, c, d, m, l)) old_k old_v
          ]
        ],
    λ h. elim (Bool-cases (eq_ℤ k key)) [
      | inl e ↦
          let is_key : k ≡ key = (eq_ℤ_iff k key).0 e in
          let is_value : v ≡ value = subst (λ b. if b then v ≡ value else Has leaf k v) e h in
          (
            place,
            omega (arith, l),
            ground (arith, p place l, is_key),
            ground (arith, q place l, is_value),
          )
      | inr e ↦
          let (i, m, ek, ev) = subst (λ b. if b then v ≡ value else Has leaf k v) e h in
          elim (Bool-cases (ltb i place)) [
            | inl c ↦ (
              i,
              omega (arith, m),
              ground (arith, p i (omega (arith, m)), c, ek),
              ground (arith, q i (omega (arith, m)), c, ev),
            )
            | inr c ↦ (
              i + 1,
              omega (arith, m),
              ground (arith, p (i + 1) (omega (arith, m)), c, ek),
              ground (arith, q (i + 1) (omega (arith, m)), c, ev),
            )
          ]
    ],
  )
    where
      kept :
          (x : ℤ) (w : V) (i : ℕ)
          → i < leaf.num_keys
          → get_elem? leaf.keys i ≡ some x
          → get_elem? leaf.values i ≡ some w
          → (if eq_ℤ x key then w ≡ value else Has leaf x w)
      kept x w i m ek ev = elim (Bool-cases (eq_ℤ x key)) [
        | inl e ↦ absurd (absent_key i s absent m (ek ∙ ap some ((eq_ℤ_iff x key).0 e)))
        | inr e ↦ rw e (i, m, ek, ev)
      ]
