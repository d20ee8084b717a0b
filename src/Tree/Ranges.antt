-- ===== src/Tree/Ranges.antt =====
-- What `rangeScan` of bPlusTree/BPlusTree.h returns.
use sql_engine.Base.{
  ℕ, zero, suc, ◌+◌, ◌≤◌, ◌<◌, Bool, true, false, ◌&&◌, ◌==◌, ◌≡◌, ◌↔◌, ◌⊎◌, refl, sym, ap, ◌∙◌,
  some, List, [], ◌∷◌, length, get_elem?, get_elem?_in, ℤ, if◌then◌else◌, ok, Bool-cases, inl, inr,
  arith,
}
use sql_engine.Base.Int.{ltb_ℤ, leb_ℤ}
use sql_engine.Tree.{read_array, Leaf}
use sql_engine.Tree.Nodes.{BPlusTree, scan_leaf, scan_loop, range_scan}
use sql_engine.Tree.Entries.{IsSorted, ltb_ℤ_trans}
use sql_engine.Tree.History.{Change, tree_run, last_value, leaf_at-IsLeafOf, tree_run-IsLeafOf}

abbrev pub IsIn : {V : Type 0} → V → List V → Type 0
IsIn v [] = ⊥
IsIn v (x ∷ xs) = (v ≡ x) ⊎ IsIn v xs

-- The key is not below `low` and not above `high`.
abbrev pub in_range : ℤ → ℤ → ℤ → Bool
in_range low high k = leb_ℤ low k && leb_ℤ k high

-- An entry of the range, from the index `i` on.
abbrev InRange : {V : Type 0} → ℕ → Leaf V → ℤ → ℤ → V → Type 0
InRange i leaf low high v =
    (j : ℕ) × (k : ℤ) × (i ≤ j)
    × (j < leaf.num_keys)
    × (get_elem? leaf.keys j ≡ some k)
    × (get_elem? leaf.values j ≡ some v)
    × (in_range low high k ≡ true)

module _ {V : Type 0} (leaf : Leaf V) (low high : ℤ) (sorted : IsSorted leaf) where
  InRange-suc :
      (i : ℕ) (k : ℤ) (v w : V)
      → i < leaf.num_keys
      → get_elem? leaf.keys i ≡ some k
      → get_elem? leaf.values i ≡ some w
      → InRange i leaf low high v
      → ((in_range low high k ≡ true) × (v ≡ w)) ⊎ InRange (i + 1) leaf low high v
  InRange-suc i k v w l ek ew (j, k', a, b, e, d, r) = elim (Bool-cases (i == j)) [
    | inl same ↦ inl (ground (arith, same, e, ek, r), ground (arith, same, d, ew))
    | inr other ↦ inr (j, k', ground (arith, a, other), b, e, d, r)
  ]

  -- Behind a key above the range there is none of it.
  past_range :
      (i : ℕ) (k : ℤ) (v : V)
      → get_elem? leaf.keys i ≡ some k
      → ltb_ℤ high k ≡ true
      → ¬ InRange i leaf low high v
  past_range i k v ek above (j, k', a, b, e, d, r) = elim (Bool-cases (i == j)) [
    | inl same ↦ absurd (ground (arith, same, e, ek, above, r))
    | inr other ↦ absurd (
        ground (
          arith,
          r,
          ltb_ℤ_trans high k k' above (sorted i j k k' (ground (arith, a, other)) b ek e),
        ))
  ]

  scan_leaf-InRange :
      (rest i : ℕ)
      → i + rest ≡ leaf.num_keys
      → leaf.num_keys ≤ length leaf.keys
      → leaf.num_keys ≤ length leaf.values
      → (vs : List V) × (stop : Bool) × (scan_leaf rest i leaf low high ≡ ok (vs, stop))
        × ((v : V) → IsIn v vs ↔ InRange i leaf low high v)
  unfolding scan_leaf
  scan_leaf-InRange zero i n kl vl = (
    [],
    false,
    refl,
    λ v. (λ h. absurd h, λ (j, k, a, b, e, d, r). absurd (omega (arith, a, b, n))),
  )
  scan_leaf-InRange (suc rest) i n kl vl =
      let (k, ek) = get_elem?_in leaf.keys i (omega (arith, n, kl)) in
      let (w, ew) = get_elem?_in leaf.values i (omega (arith, n, vl)) in
      let (vs, stop, runs, same) = scan_leaf-InRange rest (i + 1) (omega (arith, n)) kl vl in
      let later : (v : V) → InRange (i + 1) leaf low high v → InRange i leaf low high v =
        λ v (j, k', a, b, e, d, r). (j, k', omega (arith, a), b, e, d, r) in
      let split : (v : V)
          → InRange i leaf low high v
          → ((in_range low high k ≡ true) × (v ≡ w)) ⊎ InRange (i + 1) leaf low high v =
        λ v h. InRange-suc i k v w (omega (arith, n)) ek ew h in
      elim (Bool-cases (in_range low high k)) [
        | inl inside ↦ (
          w ∷ vs,
          stop,
          rw (scan_leaf, read_array, ek, inside, ew, runs) refl,
          λ v. (
            λ h. elim h [
              | inl is_w ↦
                  (i, k, omega arith, omega (arith, n), ek, ew ∙ ap some (sym is_w), inside)
              | inr m ↦ later v ((same v).0 m)
            ],
            λ h. elim (split v h) [ inl (r, is_w) ↦ inl is_w | inr m ↦ inr ((same v).1 m) ],
          ),
        )
        | inr outside ↦ elim (Bool-cases (ltb_ℤ high k)) [
          | inl above ↦ (
            [],
            true,
            rw (scan_leaf, read_array, ek, outside, above) refl,
            λ v. (λ h. absurd h, λ h. absurd (past_range i k v ek above h)),
          )
          | inr below ↦ (
            vs,
            stop,
            rw (scan_leaf, read_array, ek, outside, below) runs,
            λ v. (
              λ m. later v ((same v).0 m),
              λ h. elim (split v h) [
                | inl (r, is_w) ↦ absurd (ground (arith, r, outside))
                | inr m ↦ (same v).1 m
              ],
            ),
          )
        ]
      ]

either_case : {A : Type 0} (b : Bool) (x : A) → (if b then x else x) ≡ x
either_case true x = refl
either_case false x = refl

-- As many calls of `insert` and `remove` as a leaf has entries, or fewer, on a new index file all
-- return, and `rangeScan` then returns the values of the keys in the range, and no others: of each such
-- key the value of the latest insertion under it, unless it was removed since.
pub tree_run-range_scan :
    {V : Type 0} (max_keys : ℕ) (dummy : V) (fuel : ℕ) (changes : List (Change V)) (low high : ℤ)
    → length changes ≤ max_keys
    → (t : BPlusTree V) × (vs : List V) × (tree_run max_keys dummy (suc fuel) changes ≡ ok t)
      × (range_scan (suc fuel) t low high ≡ ok vs)
      × ((v : V)
          → IsIn v vs ↔ ((k : ℤ) × (in_range low high k ≡ true) × (last_value changes k ≡ some v)))
unfolding range_scan scan_loop
tree_run-range_scan max_keys dummy fuel changes low high h =
    let (t, leaf, runs, w, _) = tree_run-IsLeafOf max_keys dummy fuel changes h in
    let (vs, stop, scans, same) =
      scan_leaf-InRange leaf low high w.sorted leaf.num_keys 0 (omega arith)
        (omega (arith, w.sized.keys, w.sized.used)) (omega (arith, w.sized.values, w.sized.used)) in
    (
      t,
      vs,
      runs,
      rw (leaf_at-IsLeafOf max_keys dummy fuel t leaf (last_value changes) w low, scans)
          (either_case stop (ok vs)),
      λ v. (
        λ m. let (j, k, a, b, e, d, r) = (same v).0 m in (k, r, (w.same k v).0 (j, b, e, d)),
        λ (k, r, e).
            let (j, b, ek, ev) = (w.same k v).1 e in (same v).1 (j, k, omega arith, b, ek, ev, r),
      ),
    )
