-- ===== src/Tree/Insert.antt =====
-- insertRecursive and insert of bPlusTree/BPlusTree.h.
use sql_engine.Base.{
  ℕ, zero, suc, ◌+◌, ◌-◌, ◌/◌, Option, none, some, [], take, replicate, ltb, ℤ, pos, if◌then◌else◌,
  Result, ok, err, ◌>>=◌, out_of_fuel,
}
use sql_engine.Tree.{read_array, write_array, Leaf, lower_bound, insert_leaf}
use sql_engine.Tree.Nodes.{
  Inner, leaf_node, inner_node, BPlusTree, upper_bound, copy_range, shift_inner, read_node,
  write_node, allocate_node,
}

-- What a node{} of the code holds: `dummy` stands for Value().
module _ {ℓ} {V : Type ℓ} (max_keys : ℕ) (dummy : V) where
  abbrev pub empty_leaf : Leaf V
  empty_leaf = record {
    num_keys = 0;
    keys = replicate max_keys (pos 0);
    values = replicate max_keys dummy;
  }

  abbrev pub empty_inner : Inner
  empty_inner = record {
    num_keys = 0;
    keys = replicate max_keys (pos 0);
    children = replicate (max_keys + 1) 0;
  }

  -- The constructor, for an index file with no pages: the header, then a leaf as the root.
  unfoldable pub new_tree : BPlusTree V
  unfolding write_node
  new_tree =
      write_node (record { root_page = 1; next_page = 2; pages = [] }) 1 (leaf_node empty_leaf none)

  -- SplitResult: none, or the key that goes up and the new page.
  abbrev pub Split : Type 0
  Split = Option (ℤ × ℕ)

  unfoldable pub split_leaf : BPlusTree V → ℕ → Leaf V → Option ℕ → Result (BPlusTree V × Split)
  unfolding copy_range allocate_node write_node
  split_leaf t page leaf next = do
    keys ←
        copy_range (leaf.num_keys - leaf.num_keys / 2) (leaf.num_keys / 2) 0 leaf.keys
          empty_leaf.keys
    values ←
        copy_range (leaf.num_keys - leaf.num_keys / 2) (leaf.num_keys / 2) 0 leaf.values
          empty_leaf.values
    up ← read_array keys 0
    (let (t1, p) = allocate_node t in
        let new_leaf : Leaf V = record {
          num_keys = leaf.num_keys - leaf.num_keys / 2;
          keys = keys;
          values = values;
        } in
        let t2 =
          write_node t1 page (leaf_node (record leaf { num_keys = leaf.num_keys / 2 }) (some p)) in
        ok (write_node t2 p (leaf_node new_leaf next), some (up, p)))

  -- The node has one key more than it keeps; the last child is read as the code reads it.
  unfoldable pub split_inner : BPlusTree V → ℕ → Inner → Result (BPlusTree V × Split)
  unfolding copy_range allocate_node write_node
  split_inner t page node = do
    up ← read_array node.keys (node.num_keys / 2)
    keys ←
        copy_range (node.num_keys - node.num_keys / 2 - 1) (node.num_keys / 2 + 1) 0 node.keys
          empty_inner.keys
    children ←
        copy_range (node.num_keys - node.num_keys / 2 - 1) (node.num_keys / 2 + 1) 0 node.children
          empty_inner.children
    last ← read_array node.children (node.num_keys + 1)
    children' ← write_array children (node.num_keys - node.num_keys / 2 - 1) last
    (let new_inner : Inner = record {
      num_keys = node.num_keys - node.num_keys / 2 - 1;
      keys = keys;
      children = children';
    } in
        let t1 = write_node t page (inner_node (record node { num_keys = node.num_keys / 2 })) in
        let (t2, p) = allocate_node t1 in ok (write_node t2 p (inner_node new_inner), some (up, p)))

  -- A key that came up from a child is put into its node.
  unfoldable pub insert_inner : BPlusTree V → ℕ → Inner → ℤ × ℕ → Result (BPlusTree V × Split)
  unfolding lower_bound shift_inner write_array write_node split_inner
  insert_inner t page node up =
      let at = lower_bound up.0 (take node.num_keys node.keys) in
      do
        moved ← shift_inner (node.num_keys - at) at node.keys node.children
        keys ← write_array moved.0 at up.0
        children ← write_array moved.1 (at + 1) up.1
        (let node' : Inner = record {
          num_keys = node.num_keys + 1;
          keys = keys;
          children = children;
        } in
            if ltb max_keys (node.num_keys + 1)
            then split_inner t page node'
            else ok (write_node t page (inner_node node'), none))

  unfoldable pub insert_recursive : ℕ → BPlusTree V → ℕ → ℤ → V → Result (BPlusTree V × Split)
  unfolding read_node insert_leaf write_node split_leaf upper_bound insert_inner
  insert_recursive zero t page key value = err out_of_fuel
  insert_recursive (suc fuel) t page key value = do
    node ← read_node t page
    elim node [
      | leaf_node leaf next ↦ (do
        (leaf', full) ← insert_leaf max_keys leaf key value
        (if full
            then split_leaf t page leaf' next
            else ok (write_node t page (leaf_node leaf' next), none)))
      | inner_node inner ↦ (do
        child ← read_array inner.children (upper_bound key (take inner.num_keys inner.keys))
        (t', split) ← insert_recursive fuel t child key value
        elim split [ none ↦ ok (t', none) | some up ↦ insert_inner t' page inner up ])
    ]

  -- insert: a split of the root makes a new one.
  unfoldable pub insert_key : ℕ → BPlusTree V → ℤ → V → Result (BPlusTree V)
  unfolding insert_recursive write_array allocate_node write_node
  insert_key fuel t key value = do
    (t', split) ← insert_recursive fuel t t.root_page key value
    elim split [
      | none ↦ ok t'
      | some (up, page) ↦ (do
        keys ← write_array empty_inner.keys 0 up
        first ← write_array empty_inner.children 0 t.root_page
        children ← write_array first 1 page
        (let (t1, p) = allocate_node t' in
            let new_root : Inner = record { num_keys = 1; keys = keys; children = children } in
            ok (record (write_node t1 p (inner_node new_root)) { root_page = p })))
    ]
