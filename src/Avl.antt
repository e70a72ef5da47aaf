-- ===== src/Avl.antt =====
-- data_structures/tree/avl.c: a balanced search tree over entries of any type, ordered by a
-- callback. Nodes are owned by one parent each, so a tree is a value; following a NULL child is a
-- fault. `height` is the function of that name, `node`'s last field the cached one, which no
-- operation reads.
pub mod Sorted
pub mod Inorder
pub mod Refine
pub mod Balance
pub mod Total
pub mod Freed
pub mod BySize
mod Tests
use basic_jqr.Base.{
  ℕ, ◌+◌, Bool, true, false, Option, none, some, List, [], ◌∷◌, ◌++◌, ltb, if◌then◌else◌, max,
  Outcome, ok, fault, ◌>>=◌, ℤ, pos, negsuc, is_neg, is_pos,
}

pub data Tree (D : Type 0) : Type 0 where
  leaf : Tree D
  node : Tree D → D → Tree D → ℕ → Tree D

module _ {D : Type 0} where
  unfoldable pub height : Tree D → ℕ
  height leaf = 0
  height (node l d r h) = 1 + max (height l) (height r)

  -- `getBalance(N) > n` and `getBalance(N) < -n`, of the difference of the children's heights.
  abbrev pub balance_gt : ℕ → Tree D → Bool
  balance_gt n leaf = false
  balance_gt n (node l d r h) = ltb (height r + n) (height l)

  abbrev pub balance_lt : ℕ → Tree D → Bool
  balance_lt n leaf = false
  balance_lt n (node l d r h) = ltb (height l + n) (height r)

  -- `node->height = height(node)`
  abbrev pub set_height : Tree D → Tree D
  set_height leaf = leaf
  set_height (node l d r h) = node l d r (height (node l d r h))

  -- `newNode`: the argument says whether `malloc` succeeds.
  abbrev pub new_node : Bool → D → Tree D
  new_node true d = node leaf d leaf 0
  new_node false d = leaf

  unfoldable pub right_rotate : Tree D → Outcome (Tree D)
  unfolding height
  right_rotate (node (node ll ld lr lh) d r h) =
      ok (set_height (node ll ld (set_height (node lr d r h)) lh))
  right_rotate (node leaf d r h) = fault
  right_rotate leaf = fault

  unfoldable pub left_rotate : Tree D → Outcome (Tree D)
  unfolding height
  left_rotate (node l d (node rl rd rr rh) h) =
      ok (set_height (node (set_height (node l d rl h)) rd rr rh))
  left_rotate (node l d leaf h) = fault
  left_rotate leaf = fault

  -- `node->left->data`
  abbrev pub data_of : Tree D → Outcome D
  data_of leaf = fault
  data_of (node l d r h) = ok d

  -- The leftmost node of a tree that is not empty.
  unfoldable pub min_value_node : Tree D → Outcome D
  min_value_node leaf = fault
  min_value_node (node leaf d r h) = ok d
  min_value_node (node (node ll ld lr lh) d r h) = min_value_node (node ll ld lr lh)

  -- Steps 2 to 4 of `deleteNode`.
  unfoldable pub delete_rebalance : Tree D → D → Tree D → ℕ → Outcome (Tree D)
  unfolding height right_rotate left_rotate
  delete_rebalance l d r h =
      let h' = 1 + max (height l) (height r) in
      let n = node l d r h' in
      if balance_gt 1 n
      then (if balance_lt 0 l
          then (left_rotate l >>= λ l'. right_rotate (node l' d r h'))
          else right_rotate n)
      else (if balance_lt 1 n
          then (if balance_gt 0 r
              then (right_rotate r >>= λ r'. left_rotate (node l d r' h'))
              else left_rotate n)
          else ok n)

  -- `*root = *temp`, and what follows: the only child takes the place of the root.
  abbrev pub replace_by : Tree D → Outcome (Tree D)
  replace_by leaf = ok leaf
  replace_by (node l d r h) = delete_rebalance l d r h

  -- The node to delete has at most one child, or two: then its data is that of the successor.
  abbrev pub delete_root : Tree D → Tree D → Outcome (Tree D) → Outcome (Tree D)
  delete_root leaf r successor = replace_by r
  delete_root (node ll ld lr lh) leaf successor = replace_by (node ll ld lr lh)
  delete_root (node ll ld lr lh) (node rl rd rr rh) successor = successor

module _ {D : Type 0} (comp : D → D → ℤ) where
  abbrev pub below : D → D → Bool
  below a b = is_neg (comp a b)

  abbrev pub above : D → D → Bool
  above a b = is_pos (comp a b)

  -- Steps 2 to 4 of `insert`: the height, the balance factor, and the four rotations.
  unfoldable pub insert_rebalance : D → Tree D → D → Tree D → ℕ → Outcome (Tree D)
  unfolding height right_rotate left_rotate
  insert_rebalance q l d r h =
      let h' = height (node l d r h) in
      let n = node l d r h' in
      if balance_gt 1 n
      then (data_of l >>= λ ld.
          if below q ld
          then right_rotate n
          else (if above q ld
              then (left_rotate l >>= λ l'. right_rotate (node l' d r h'))
              else ok n))
      else (if balance_lt 1 n
          then (data_of r >>= λ rd.
              if above q rd
              then left_rotate n
              else (if below q rd
                  then (right_rotate r >>= λ r'. left_rotate (node l d r' h'))
                  else ok n))
          else ok n)

  unfoldable pub insert : Bool → Tree D → D → Outcome (Tree D)
  unfolding insert_rebalance
  insert alloc leaf q = ok (new_node alloc q)
  insert alloc (node l d r h) q =
      let to_left = insert alloc l q >>= λ l'. insert_rebalance q l' d r h in
      let to_right = insert alloc r q >>= λ r'. insert_rebalance q l d r' h in
      if below q d then to_left else (if above q d then to_right else ok (node l d r h))

  unfoldable pub delete_node : Tree D → D → Outcome (Tree D)
  unfolding delete_rebalance min_value_node
  delete_node leaf q = ok leaf
  delete_node (node l d r h) q =
      let from_left = delete_node l q >>= λ l'. delete_rebalance l' d r h in
      let from_right = delete_node r q >>= λ r'. delete_rebalance l d r' h in
      let successor =
        min_value_node r >>= λ m. delete_node r m >>= λ r'. delete_rebalance l m r' h in
      if below q d then from_left else (if above q d then from_right else delete_root l r successor)

  unfoldable pub search : Tree D → D → Bool
  search leaf q = false
  search (node l d r h) q =
      let on_left = search l q in
      let on_right = search r q in
      if below q d then on_left else (if above q d then on_right else true)

-- `struct Tree`, less its two callbacks for freeing and printing. No operation writes `size` again.
pub record AvlTree (D : Type 0) : Type 0 where
  pub root : Tree D
  pub size : ℕ
  pub comp : D → D → ℤ

module _ {D : Type 0} where
  unfoldable pub create_avl_tree : Bool → (D → D → ℤ) → Option (AvlTree D)
  create_avl_tree false comp = none
  create_avl_tree true comp = some (record { root = leaf; size = 0; comp = comp })

  -- The result of `insert_node` and `remove_node`: an empty root counts as a failure.
  abbrev pub root_code : Tree D → ℤ
  root_code leaf = negsuc 0
  root_code (node l d r h) = pos 0

  unfoldable pub insert_node : Bool → AvlTree D → D → Outcome (AvlTree D × ℤ)
  unfolding insert
  insert_node alloc tree q = insert tree.comp alloc tree.root q >>= λ root.
      ok (record tree { root = root }, root_code root)

  unfoldable pub remove_node : AvlTree D → D → Outcome (AvlTree D × ℤ)
  unfolding delete_node
  remove_node tree q =
      delete_node tree.comp tree.root q >>= λ root. ok (record tree { root = root }, root_code root)

  -- What `delete_tree` hands to `free_data`, in order.
  unfoldable pub delete_tree : Tree D → List D
  delete_tree leaf = []
  delete_tree (node l d r h) = delete_tree l ++ (delete_tree r ++ d ∷ [])

  -- A NULL tree is left alone.
  unfoldable pub destroy_tree : Option (AvlTree D) → List D
  unfolding delete_tree
  destroy_tree none = []
  destroy_tree (some tree) = delete_tree tree.root

  -- What `preOrder` prints, in order.
  unfoldable pub pre_order : Tree D → List D
  pre_order leaf = []
  pre_order (node l d r h) = d ∷ (pre_order l ++ pre_order r)
