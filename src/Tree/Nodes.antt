-- ===== src/Tree/Nodes.antt =====
-- The nodes and operations of bPlusTree/BPlusTree.h. The pages of the index file are a map from page
-- ids to the nodes that their bytes are; a page on which no node was written is `undefined`. A new
-- page has the next id. The way down the tree, and that along its leaves, is on fuel.
use sql_engine.Base.{
  ℕ, zero, suc, ◌+◌, ◌-◌, Bool, true, false, ◌&&◌, Option, none, some, List, [], ◌∷◌, ◌++◌, take, ℤ,
  if◌then◌else◌, Result, ok, err, ◌>>=◌, or_throw, undefined, out_of_fuel,
}
use sql_engine.Base.Int.{ltb_ℤ, leb_ℤ, eq_ℤ}
use sql_engine.Base.Equality.{nat_eq}
use sql_engine.Base.Assoc.{Map, find, insert}
use sql_engine.Tree.{read_array, write_array, Leaf, lower_bound, has_key}

-- A node that is not a leaf.
pub record Inner : Type 0 where
  pub num_keys : ℕ
  pub keys : List ℤ
  pub children : List ℕ

-- `none` is the link -1 of the last leaf.
pub data Node {ℓ} (V : Type ℓ) : Type ℓ where
  leaf_node : Leaf V → Option ℕ → Node V
  inner_node : Inner → Node V

-- The header page holds `root_page`.
pub record BPlusTree {ℓ} (V : Type ℓ) : Type ℓ where
  pub root_page : ℕ
  pub next_page : ℕ
  pub pages : Map ℕ (Node V)

-- std::upper_bound
unfoldable pub upper_bound : ℤ → List ℤ → ℕ
upper_bound key [] = 0
upper_bound key (k ∷ ks) = if leb_ℤ k key then suc (upper_bound key ks) else 0

-- dst[to + i] = src[from + i] for every i below the count.
unfoldable pub copy_range {ℓ} : {A : Type ℓ} → ℕ → ℕ → ℕ → List A → List A → Result (List A)
unfolding write_array
copy_range zero from to src dst = ok dst
copy_range (suc count) from to src dst = do
  a ← read_array src from
  dst' ← write_array dst to a
  copy_range count (from + 1) (to + 1) src dst'

-- The keys and children of an internal node move up by one behind `at`.
unfoldable pub shift_inner : ℕ → ℕ → List ℤ → List ℕ → Result (List ℤ × List ℕ)
unfolding write_array
shift_inner zero at keys children = ok (keys, children)
shift_inner (suc rounds) at keys children = do
  key ← read_array keys (at + rounds)
  keys' ← write_array keys (at + suc rounds) key
  child ← read_array children (at + suc rounds)
  children' ← write_array children (at + suc (suc rounds)) child
  shift_inner rounds at keys' children'

-- The scan of `find` over the keys of a leaf from the index `i` on.
unfoldable pub find_in {ℓ} : {V : Type ℓ} → ℕ → ℕ → Leaf V → ℤ → Result (Option V)
find_in zero i leaf key = ok none
find_in (suc rest) i leaf key =
    let later = find_in rest (i + 1) leaf key in
    do
      k ← read_array leaf.keys i
      (if eq_ℤ k key then (do v ← read_array leaf.values i; ok (some v)) else later)

-- The child of an internal node on the way to a key: the loop of findLeafPage.
unfoldable pub child_index : ℕ → ℕ → Inner → ℤ → Result ℕ
child_index zero i node key = ok i
child_index (suc rest) i node key =
    let later = child_index rest (i + 1) node key in
    do k ← read_array node.keys i; (if leb_ℤ k key then later else ok i)

-- for (i = pos; i < numKeys - 1; ++i): the entries move down by one.
unfoldable pub shift_down {ℓ} : {V : Type ℓ} → ℕ → ℕ → List ℤ → List V → Result (List ℤ × List V)
unfolding write_array
shift_down zero i keys values = ok (keys, values)
shift_down (suc rounds) i keys values = do
  key ← read_array keys (i + 1)
  keys' ← write_array keys i key
  value ← read_array values (i + 1)
  values' ← write_array values i value
  shift_down rounds (i + 1) keys' values'

-- What `remove` does to a leaf: none when the key is not there.
unfoldable pub remove_leaf {ℓ} : {V : Type ℓ} → Leaf V → ℤ → Result (Option (Leaf V))
unfolding has_key shift_down
remove_leaf leaf key =
    let at = lower_bound key (take leaf.num_keys leaf.keys) in
    if has_key leaf key
    then (do
      moved ← shift_down (leaf.num_keys - 1 - at) at leaf.keys leaf.values
      ok (some (record { num_keys = leaf.num_keys - 1; keys = moved.0; values = moved.1 })))
    else ok none

-- The values of a leaf whose keys are in the range, from the index `i` on, and whether a key above the
-- range was met.
unfoldable pub scan_leaf {ℓ} : {V : Type ℓ} → ℕ → ℕ → Leaf V → ℤ → ℤ → Result (List V × Bool)
scan_leaf zero i leaf low high = ok ([], false)
scan_leaf (suc rest) i leaf low high =
    let later = scan_leaf rest (i + 1) leaf low high in
    do
      k ← read_array leaf.keys i
      (if leb_ℤ low k && leb_ℤ k high
          then (do v ← read_array leaf.values i; (vs, stop) ← later; ok (v ∷ vs, stop))
          else if ltb_ℤ high k
          then ok ([], true)
          else later)

module _ {ℓ} {V : Type ℓ} where
  -- readNode and writeNode
  unfoldable pub read_node : BPlusTree V → ℕ → Result (Node V)
  read_node t page = or_throw (find page t.pages) undefined

  unfoldable pub write_node : BPlusTree V → ℕ → Node V → BPlusTree V
  write_node t page node = record t { pages = insert page node t.pages }

  unfoldable pub allocate_node : BPlusTree V → BPlusTree V × ℕ
  allocate_node t = (record t { next_page = t.next_page + 1 }, t.next_page)

  unfoldable pub find_leaf_page : ℕ → BPlusTree V → ℕ → ℤ → Result ℕ
  unfolding read_node child_index
  find_leaf_page zero t page key = err out_of_fuel
  find_leaf_page (suc fuel) t page key = do
    node ← read_node t page
    elim node [
      | leaf_node leaf next ↦ ok page
      | inner_node inner ↦ (do
        i ← child_index inner.num_keys 0 inner key
        child ← read_array inner.children i
        find_leaf_page fuel t child key)
    ]

  -- The leaf that findLeafPage leads to; the code takes it for a leaf.
  abbrev pub leaf_at : ℕ → BPlusTree V → ℤ → Result (ℕ × Leaf V × Option ℕ)
  leaf_at fuel t key = do
    page ← find_leaf_page fuel t t.root_page key
    node ← read_node t page
    elim node [ leaf_node leaf next ↦ ok (page, leaf, next) | inner_node inner ↦ err undefined ]

  -- find
  unfoldable pub find_key : ℕ → BPlusTree V → ℤ → Result (Option V)
  unfolding find_leaf_page read_node find_in
  find_key fuel t key = do found ← leaf_at fuel t key; find_in found.1.num_keys 0 found.1 key

  -- remove
  unfoldable pub remove_key : ℕ → BPlusTree V → ℤ → Result (BPlusTree V × Bool)
  unfolding find_leaf_page read_node remove_leaf write_node
  remove_key fuel t key = do
    found ← leaf_at fuel t key
    removed ← remove_leaf found.1 key
    ok (elim removed [
      | none ↦ (t, false)
      | some leaf ↦ (write_node t found.0 (leaf_node leaf found.2), true)
    ])

  -- The leaves from `node` on, along their links.
  unfoldable pub scan_loop : ℕ → BPlusTree V → Leaf V → Option ℕ → ℤ → ℤ → Result (List V)
  unfolding scan_leaf read_node
  scan_loop zero t leaf next low high = err out_of_fuel
  scan_loop (suc fuel) t leaf next low high = do
    (vs, stop) ← scan_leaf leaf.num_keys 0 leaf low high
    (if stop then ok vs else elim next [
      | none ↦ ok vs
      | some page ↦ (do
        node ← read_node t page
        elim node [
          | inner_node inner ↦ err undefined
          | leaf_node leaf' next' ↦ (do
            rest ← scan_loop fuel t leaf' next' low high
            ok (vs ++ rest))
        ])
    ])

  -- rangeScan
  unfoldable pub range_scan : ℕ → BPlusTree V → ℤ → ℤ → Result (List V)
  unfolding find_leaf_page read_node scan_loop
  range_scan fuel t low high = do
    found ← leaf_at fuel t low
    scan_loop fuel t found.1 found.2 low high
