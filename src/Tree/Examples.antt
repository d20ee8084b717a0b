-- ===== src/Tree/Examples.antt =====
-- A leaf with room for three keys.
use sql_engine.Base.{
  ℕ, ◌+◌, ◌<◌, false, true, ◌≡◌, ◌⊎◌, ◌↔◌, refl, some, List, [], ◌∷◌, ℤ, pos, ok, err, arith,
  undefined,
}
use sql_engine.Tree.{Leaf, insert_leaf, has_key}
use sql_engine.Tree.Bounds.{IsSized, insert_leaf_bounds}
use sql_engine.Tree.Nodes.{BPlusTree, find_key, range_scan}
use sql_engine.Tree.Ranges.{IsIn, in_range, tree_run-range_scan}
use sql_engine.Tree.History.{Change, put, drop, tree_run, last_value, tree_run-find_key}

abbrev two_keys : Leaf ℕ
two_keys = record { num_keys = 2; keys = pos 10 ∷ pos 30 ∷ pos 0 ∷ []; values = 1 ∷ 3 ∷ 0 ∷ [] }

abbrev three_keys : Leaf ℕ
three_keys = record { num_keys = 3; keys = pos 10 ∷ pos 20 ∷ pos 30 ∷ []; values = 1 ∷ 2 ∷ 3 ∷ [] }

inserted : insert_leaf 3 two_keys (pos 20) 2 ≡ ok (three_keys, false)
unfolding insert_leaf
inserted = refl

overrun : insert_leaf 3 three_keys (pos 25) 9 ≡ err undefined
unfolding insert_leaf
overrun = refl

absent : has_key three_keys (pos 25) ≡ false
unfolding has_key
absent = refl

insert_leaf_bounds_example :
    ((three_keys.num_keys < 3)
      × ((leaf' : Leaf ℕ) × (insert_leaf 3 three_keys (pos 25) 9 ≡ ok (leaf', false))
          × IsSized 3 leaf'
          × (leaf'.num_keys ≡ three_keys.num_keys + 1)))
    ⊎ ((three_keys.num_keys ≡ 3) × (insert_leaf 3 three_keys (pos 25) 9 ≡ err undefined))
insert_leaf_bounds_example =
    insert_leaf_bounds 3 three_keys (pos 25) 9
      (record { keys = refl; values = refl; used = omega arith }) absent

-- Two insertions, one over, and a removal, from the last to the first.
abbrev four_changes : List (Change ℕ)
four_changes = drop (pos 10) ∷ put (pos 20) 8 ∷ put (pos 20) 2 ∷ put (pos 10) 1 ∷ []

latest : last_value four_changes (pos 20) ≡ some 8
unfolding last_value
latest = refl

tree_run-find_key_example :
    (t : BPlusTree ℕ) × (tree_run 4 0 1 four_changes ≡ ok t)
    × ((key : ℤ) → find_key 1 t key ≡ ok (last_value four_changes key))
tree_run-find_key_example = tree_run-find_key 4 0 0 four_changes (omega arith)

tree_run-range_scan_example :
    (t : BPlusTree ℕ) × (vs : List ℕ) × (tree_run 4 0 1 four_changes ≡ ok t)
    × (range_scan 1 t (pos 15) (pos 30) ≡ ok vs)
    × ((v : ℕ)
        → IsIn v vs ↔ (
            (k : ℤ) × (in_range (pos 15) (pos 30) k ≡ true) × (last_value four_changes k ≡ some v)))
tree_run-range_scan_example = tree_run-range_scan 4 0 0 four_changes (pos 15) (pos 30) (omega arith)
