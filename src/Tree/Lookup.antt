-- ===== src/Tree/Lookup.antt =====
-- What the search of `find` returns for a leaf of bPlusTree/BPlusTree.h.
use sql_engine.Base.{
  ℕ, zero, suc, ◌+◌, ◌≤◌, ◌<◌, ◌≡◌, ◌≢◌, refl, ap, ◌∙◌, none, some, length, get_elem?, get_elem?_in,
  ℤ, ok, Bool-cases, inl, inr, ◌⊎◌, ◌==◌, arith,
}
use sql_engine.Base.Int.{eq_ℤ, eq_ℤ_iff}
use sql_engine.Tree.{read_array, Leaf}
use sql_engine.Tree.Nodes.{find_in}

-- The value at the first index with the key, or there is no such index.
pub find_in-cases :
    {V : Type 0} (rest i : ℕ) (leaf : Leaf V) (key : ℤ)
    → i + rest ≤ length leaf.keys
    → i + rest ≤ length leaf.values
    → ((v : V) × (find_in rest i leaf key ≡ ok (some v))
        × ((j : ℕ) × (j < i + rest)
            × (get_elem? leaf.keys j ≡ some key)
            × (get_elem? leaf.values j ≡ some v)))
      ⊎ ((find_in rest i leaf key ≡ ok none)
          × ((j : ℕ) → i ≤ j → j < i + rest → get_elem? leaf.keys j ≢ some key))
unfolding find_in
find_in-cases zero i leaf key h g = inr (refl, λ j a b. absurd (omega (arith, a, b)))
find_in-cases (suc rest) i leaf key h g =
    let (k, e) = get_elem?_in leaf.keys i (omega (arith, h)) in
    let (v, d) = get_elem?_in leaf.values i (omega (arith, g)) in
    elim (Bool-cases (eq_ℤ k key)) [
      | inl same ↦ inl (
        v,
        rw (find_in, read_array, e, same, d) refl,
        (i, omega arith, e ∙ ap some ((eq_ℤ_iff k key).0 same), d),
      )
      | inr other ↦
          elim (find_in-cases rest (i + 1) leaf key (omega (arith, h)) (omega (arith, g))) [
            | inl (w, r, (j, l, ek, ev)) ↦
                inl (w, rw (find_in, read_array, e, other) r, (j, omega (arith, l), ek, ev))
            | inr (r, absent) ↦ inr (
              rw (find_in, read_array, e, other) r,
              λ j a b c. elim (Bool-cases (i == j)) [
                | inl x ↦ absurd (ground (arith, c, e, x, other, eq_ℤ_iff k key))
                | inr x ↦ absent j (ground (arith, a, x)) (omega (arith, b)) c
              ],
            )
          ]
    ]
