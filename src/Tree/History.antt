-- ===== src/Tree/History.antt =====
-- The index of bPlusTree/BPlusTree.h as its callers see it: what `find` returns after a sequence of
-- calls of `insert` and `remove` on a new index file.
use sql_engine.Base.{
  ℕ, suc, ◌+◌, ◌≤◌, ◌<◌, Bool, true, false, ◌≡◌, ◌↔◌, ◌⊎◌, refl, sym, ap, ◌∙◌, Option, none, some,
  some-injective, List, [], ◌∷◌, length, length-replicate, ℤ, pos, if◌then◌else◌, Result, ok, err,
  ok-injective, undefined, ◌>>=◌, Option-cases, Bool-cases, inl, inr, ==_iff, arith, subst,
  then_case,
}
use sql_engine.Base.Int.{eq_ℤ}
use sql_engine.Base.Assoc.{find, insert, find-insert}
use sql_engine.Base.Equality.{nat_eq}
use sql_engine.Tree.{Leaf, has_key}
use sql_engine.Tree.Nodes.{
  leaf_node, BPlusTree, read_node, write_node, find_leaf_page, leaf_at, find_in, find_key,
  remove_key,
}
use sql_engine.Tree.Insert.{empty_leaf, new_tree, insert_recursive, insert_key}
use sql_engine.Tree.Bounds.{IsSized, insert_leaf_bounds}
use sql_engine.Tree.Entries.{Has, IsSorted}
use sql_engine.Tree.Changes.{insert_leaf-changes}
use sql_engine.Tree.Removal.{removed_leaf, remove_leaf-changes}
use sql_engine.Tree.Lookup.{find_in-cases}

-- A call that changes the index.
pub data Change {ℓ} (V : Type ℓ) : Type ℓ where
  put : ℤ → V → Change V
  drop : ℤ → Change V

-- The calls, the latest of them first, on the index that the constructor makes.
unfoldable pub tree_run {ℓ} : {V : Type ℓ} → ℕ → V → ℕ → List (Change V) → Result (BPlusTree V)
unfolding new_tree insert_key remove_key
tree_run max_keys dummy fuel [] = ok (new_tree max_keys dummy)
tree_run max_keys dummy fuel (put key value ∷ earlier) = do
  t ← tree_run max_keys dummy fuel earlier
  insert_key max_keys dummy fuel t key value
tree_run max_keys dummy fuel (drop key ∷ earlier) = do
  t ← tree_run max_keys dummy fuel earlier
  (t', removed) ← remove_key fuel t key
  ok t'

-- What the calls leave under a key: the value of the latest insertion, unless it was removed since.
unfoldable pub last_value {ℓ} : {V : Type ℓ} → List (Change V) → ℤ → Option V
last_value [] k = none
last_value (put key value ∷ earlier) k =
    let before = last_value earlier k in if eq_ℤ k key then some value else before
last_value (drop key ∷ earlier) k =
    let before = last_value earlier k in if eq_ℤ k key then none else before

-- The tree is a leaf with the entries of a map, and no link.
pub record IsLeafOf {V : Type 0} (max_keys : ℕ) (t : BPlusTree V) (leaf : Leaf V)
    (entries : ℤ → Option V) : Type 0 where
  pub root : find t.root_page t.pages ≡ some (leaf_node leaf none)
  pub sized : IsSized max_keys leaf
  pub sorted : IsSorted leaf
  pub same : (k : ℤ) (v : V) → Has leaf k v ↔ (entries k ≡ some v)

put_iff :
    {V P P' : Type 0} (b : Bool) (value v : V) (before : Option V)
    → P' ↔ (if b then v ≡ value else P)
    → P ↔ (before ≡ some v)
    → P' ↔ ((if b then some value else before) ≡ some v)
put_iff true value v before f g =
    (λ p. ap some (sym (f.0 p)), λ h. f.1 (sym (some-injective value v h)))
put_iff false value v before f g = (λ p. g.0 (f.0 p), λ h. f.1 (g.1 h))

drop_iff :
    {V P P' : Type 0} (b : Bool) (v : V) (before : Option V)
    → P' ↔ ((b ≡ false) × P)
    → P ↔ (before ≡ some v)
    → P' ↔ ((if b then none else before) ≡ some v)
drop_iff true v before f g = (λ p. absurd (ground (arith, (f.0 p).0)), λ h. absurd (cc))
drop_iff false v before f g = (λ p. g.0 (f.0 p).1, λ h. f.1 (refl, g.1 h))

module _ {V : Type 0} (max_keys : ℕ) (dummy : V) where
  pub new_tree-IsLeafOf :
      IsLeafOf max_keys (new_tree max_keys dummy) (empty_leaf max_keys dummy) (λ k. none)
  unfolding new_tree write_node find insert
  new_tree-IsLeafOf = record {
    root = refl;
    sized = record {
      keys = length-replicate max_keys (pos 0);
      values = length-replicate max_keys dummy;
      used = omega arith;
    };
    sorted = λ i j a b h m ha hb. absurd (omega (arith, m));
    same = λ k v. (λ (i, m, ek, ev). absurd (omega (arith, m)), λ h. absurd (cc));
  }

  module _ (fuel : ℕ) (t : BPlusTree V) (leaf : Leaf V) (entries : ℤ → Option V)
      (w : IsLeafOf max_keys t leaf entries) where
    read_root : read_node t t.root_page ≡ ok (leaf_node leaf none)
    unfolding read_node
    read_root = rw w.root refl

    root_leaf_page : (key : ℤ) → find_leaf_page (suc fuel) t t.root_page key ≡ ok t.root_page
    unfolding find_leaf_page
    root_leaf_page key = rw read_root refl

    pub leaf_at-IsLeafOf : (key : ℤ) → leaf_at (suc fuel) t key ≡ ok (t.root_page, leaf, none)
    leaf_at-IsLeafOf key = rw (root_leaf_page key, read_root) refl

    pub find_key-IsLeafOf : (key : ℤ) → find_key (suc fuel) t key ≡ ok (entries key)
    unfolding find_key
    find_key-IsLeafOf key =
        let start =
          ap (λ r. r >>= λ found. find_in found.1.num_keys 0 found.1 key) (leaf_at-IsLeafOf key) in
        elim (find_in-cases leaf.num_keys 0 leaf key (omega (arith, w.sized.keys, w.sized.used))
          (omega (arith, w.sized.values, w.sized.used))) [
            | inl (v, r, (j, l, ek, ev)) ↦
                start ∙ (r ∙ ap ok (sym ((w.same key v).0 (j, omega (arith, l), ek, ev))))
            | inr (r, absent) ↦ elim (Option-cases (entries key)) [
              | inl e ↦ start ∙ (r ∙ ap ok (sym e))
              | inr (v, e) ↦
                  let (j, l, ek, ev) = (w.same key v).1 e in
                  absurd (absent j (omega arith) (omega (arith, l)) ek)
            ]
          ]

    -- The leaf written back under the root.
    write_root-IsLeafOf :
        (leaf' : Leaf V) (entries' : ℤ → Option V)
        → IsSized max_keys leaf'
        → IsSorted leaf'
        → ((k : ℤ) (v : V) → Has leaf' k v ↔ (entries' k ≡ some v))
        → IsLeafOf max_keys (write_node t t.root_page (leaf_node leaf' none)) leaf' entries'
    unfolding write_node
    write_root-IsLeafOf leaf' entries' z s e = record {
      root =
          find-insert t.root_page t.root_page (leaf_node leaf' none) t.pages
          ∙ then_case _ _ ((==_iff t.root_page t.root_page).1 refl);
      sized = z;
      sorted = s;
      same = e;
    }

    -- An insertion into a leaf with room.
    insert_key-IsLeafOf :
        (key : ℤ) (value : V)
        → (leaf.num_keys < max_keys) ⊎ (has_key leaf key ≡ true)
        → (t' : BPlusTree V) × (leaf' : Leaf V) × (insert_key max_keys dummy (suc fuel) t key value
            ≡ ok t')
          × IsLeafOf max_keys t' leaf' (λ k. if eq_ℤ k key then some value else entries k)
          × (leaf'.num_keys ≤ leaf.num_keys + 1)
    unfolding insert_key insert_recursive
    insert_key-IsLeafOf key value room =
        let (leaf', runs, z, s, counted, e) =
          insert_leaf-changes leaf key max_keys value w.sized w.sorted room in
        (
          write_node t t.root_page (leaf_node leaf' none),
          leaf',
          rw (read_root, runs) refl,
          write_root-IsLeafOf leaf' (λ k. if eq_ℤ k key then some value else entries k) z s
              (λ k v. put_iff (eq_ℤ k key) value v (entries k) (e k v) (w.same k v)),
          counted,
        )

    -- An insertion of a new key into a full leaf does not return.
    has_room :
        (key : ℤ) (value : V) (t' : BPlusTree V)
        → insert_key max_keys dummy (suc fuel) t key value ≡ ok t'
        → (leaf.num_keys < max_keys) ⊎ (has_key leaf key ≡ true)
    unfolding insert_key insert_recursive
    has_room key value t' h = elim (Bool-cases (has_key leaf key)) [
      | inl present ↦ inr present
      | inr absent ↦ elim (insert_leaf_bounds max_keys leaf key value w.sized absent) [
        | inl (l, _) ↦ inl l
        | inr (full, fails) ↦
            let failed : insert_key max_keys dummy (suc fuel) t key value ≡ err undefined =
              rw (read_root, fails) refl in
            absurd (ground (arith, sym failed ∙ h))
      ]
    ]

    -- An insertion that returned: a full leaf has its key already.
    pub inserted-IsLeafOf :
        (key : ℤ) (value : V) (t' : BPlusTree V)
        → insert_key max_keys dummy (suc fuel) t key value ≡ ok t'
        → (leaf' : Leaf V) × IsLeafOf max_keys t' leaf'
            (λ k. if eq_ℤ k key then some value else entries k)
    inserted-IsLeafOf key value t' h =
        let (t'', leaf', runs, w', _) = insert_key-IsLeafOf key value (has_room key value t' h) in
        (
          leaf',
          subst (λ x. IsLeafOf max_keys x leaf' (λ k. if eq_ℤ k key then some value else entries k))
              (ok-injective (sym runs ∙ h)) w',
        )

    pub remove_key-IsLeafOf :
        (key : ℤ)
        → (t' : BPlusTree V) × (removed : Bool) × (leaf' : Leaf V) × (remove_key (suc fuel) t key
            ≡ ok (t', removed))
          × IsLeafOf max_keys t' leaf' (λ k. if eq_ℤ k key then none else entries k)
          × (leaf'.num_keys ≤ leaf.num_keys)
    unfolding remove_key
    remove_key-IsLeafOf key =
        let (r, runs, z, s, counted, e) = remove_leaf-changes leaf key max_keys w.sized w.sorted in
        let dropped : ℤ → Option V = λ k. if eq_ℤ k key then none else entries k in
        let same : (k : ℤ) (v : V) → Has (removed_leaf leaf r) k v ↔ (dropped k ≡ some v) =
          λ k v. drop_iff (eq_ℤ k key) v (entries k) (e k v) (w.same k v) in
        elim (Option-cases r) [
          | inl n ↦ (
            t,
            false,
            leaf,
            rw (leaf_at-IsLeafOf key, runs, n) refl,
            record {
              root = w.root;
              sized = w.sized;
              sorted = w.sorted;
              same =
                  subst
                    (λ x. (k : ℤ) (v : V) → Has (removed_leaf leaf x) k v ↔ (dropped k ≡ some v)) n
                    same;
            },
            omega arith,
          )
          | inr (leaf', n) ↦ (
            write_node t t.root_page (leaf_node leaf' none),
            true,
            leaf',
            rw (leaf_at-IsLeafOf key, runs, n) refl,
            subst
                (λ x.
                  IsLeafOf max_keys
                    (write_node t t.root_page (leaf_node (removed_leaf leaf x) none))
                    (removed_leaf leaf x) dropped)
                n (write_root-IsLeafOf (removed_leaf leaf r) dropped z s same),
            subst (λ x. (removed_leaf leaf x).num_keys ≤ leaf.num_keys) n counted,
          )
        ]

pub tree_run-IsLeafOf :
    {V : Type 0} (max_keys : ℕ) (dummy : V) (fuel : ℕ) (changes : List (Change V))
    → length changes ≤ max_keys
    → (t : BPlusTree V) × (leaf : Leaf V) × (tree_run max_keys dummy (suc fuel) changes ≡ ok t)
      × IsLeafOf max_keys t leaf (last_value changes)
      × (leaf.num_keys ≤ length changes)
unfolding tree_run last_value
tree_run-IsLeafOf max_keys dummy fuel [] h = (
  new_tree max_keys dummy,
  empty_leaf max_keys dummy,
  refl,
  new_tree-IsLeafOf max_keys dummy,
  omega arith,
)
tree_run-IsLeafOf max_keys dummy fuel (put key value ∷ earlier) h =
    let (t, leaf, runs, w, counted) =
      tree_run-IsLeafOf max_keys dummy fuel earlier (omega (arith, h)) in
    let (t', leaf', inserts, w', more) =
      insert_key-IsLeafOf max_keys dummy fuel t leaf (last_value earlier) w key value
        (inl (omega (arith, h, counted))) in
    (t', leaf', rw runs inserts, w', omega (arith, counted, more))
tree_run-IsLeafOf max_keys dummy fuel (drop key ∷ earlier) h =
    let (t, leaf, runs, w, counted) =
      tree_run-IsLeafOf max_keys dummy fuel earlier (omega (arith, h)) in
    let (t', removed, leaf', removes, w', fewer) =
      remove_key-IsLeafOf max_keys dummy fuel t leaf (last_value earlier) w key in
    (t', leaf', rw (runs, removes) refl, w', omega (arith, counted, fewer))

-- As many calls of `insert` and `remove` as a leaf has entries, or fewer, on a new index file all
-- return, and `find` then returns for each key the value of the latest insertion under it, unless it
-- was removed since.
pub tree_run-find_key :
    {V : Type 0} (max_keys : ℕ) (dummy : V) (fuel : ℕ) (changes : List (Change V))
    → length changes ≤ max_keys
    → (t : BPlusTree V) × (tree_run max_keys dummy (suc fuel) changes ≡ ok t)
      × ((key : ℤ) → find_key (suc fuel) t key ≡ ok (last_value changes key))
tree_run-find_key max_keys dummy fuel changes h =
    let (t, leaf, runs, w, counted) = tree_run-IsLeafOf max_keys dummy fuel changes h in
    (t, runs, find_key-IsLeafOf max_keys dummy fuel t leaf (last_value changes) w)
