-- ===== src/Avl/Total.antt =====
-- Insertion, deletion and search of avl.c on balanced search trees.
use basic_jqr.Base.{
  ℕ, ◌+◌, ◌≤◌, ◌≡◌, ◌≢◌, refl, ◌∙◌, sym, ap, Bool, true, false, List, [], ◌∷◌, ◌++◌, ◌⊎◌, inl, inr,
  arith, max, Outcome, ok, Returns, Returns-bind, Returns-imp, Returns-imp_eq, ℤ, pos, negsuc,
  Bool-cases, not, ◌&&◌, ◌||◌,
}
use basic_jqr.Avl.{
  Tree, leaf, node, height, below, above, delete_rebalance, min_value_node, replace_by, delete_root,
  insert, delete_node, search, remove_node, root_code,
}
use basic_jqr.Avl.Sorted.{
  IsOrder, IsSorted, same, remove_sorted, contains, insert_sorted-IsSorted, remove_sorted-IsSorted,
  contains-insert_sorted, contains-remove_sorted,
}
use basic_jqr.Avl.Inorder.{inorder}
use basic_jqr.Avl.Refine.{inserted, insert-inorder, delete_node-inorder, search-contains}
use basic_jqr.Avl.Balance.{
  IsAvl, Shrunk, Grown, delete_rebalance-Shrunk, insert_rebalance_left, insert_rebalance_right,
}

not_nil : {D : Type 0} (xs : List D) (d : D) (ys : List D) → xs ++ d ∷ ys ≢ []
not_nil [] d ys e = cc
not_nil (x ∷ xs) d ys e = cc

module _ {D : Type 0} (comp : D → D → ℤ) (o : IsOrder comp) where
  insert-Grown :
      (alloc : Bool) (t : Tree D) (q : D)
      → IsAvl t
      → Returns (Grown comp q (height t)) (insert comp alloc t q)
  unfolding insert height
  insert-Grown true leaf q a = ground (arith, o.below_irrefl q, o.above_flip q q)
  insert-Grown false leaf q a = (tt, inl refl)
  insert-Grown alloc (node l d r h) q a = elim (Bool-cases (below comp q d)) [
    | inl lt ↦ rw lt (
        Returns-bind _ (insert comp alloc l q) _ (insert-Grown alloc l q a.0)
          λ l' g. insert_rebalance_left comp q l' d r h (height l) lt a.1 a.2 a.3 g)
    | inr ge ↦ elim (Bool-cases (above comp q d)) [
      | inl gt ↦
          rw (ge, gt)
            (Returns-bind _ (insert comp alloc r q) _ (insert-Grown alloc r q a.1)
              λ r' g. insert_rebalance_right comp q l d r' h (height r) ge gt a.0 a.2 a.3 g)
      | inr le ↦ rw (ge, le) (a, inl refl)
    ]
  ]

  delete_rebalance_left :
      (l : Tree D) (d : D) (r : Tree D) (h n : ℕ)
      → IsAvl r
      → n ≤ height r + 1
      → height r ≤ n + 1
      → Shrunk n l
      → Returns (Shrunk (1 + max n (height r))) (delete_rebalance l d r h)
  delete_rebalance_left l d r h n ar p s g =
      Returns-imp _ (delete_rebalance l d r h)
        (delete_rebalance-Shrunk l d r h g.0 ar (ground arith) (ground arith))
        λ t f. ground (arith, f.3)

  delete_rebalance_right :
      (l : Tree D) (d : D) (r : Tree D) (h n : ℕ)
      → IsAvl l
      → height l ≤ n + 1
      → n ≤ height l + 1
      → Shrunk n r
      → Returns (Shrunk (1 + max (height l) n)) (delete_rebalance l d r h)
  delete_rebalance_right l d r h n al p s g =
      Returns-imp _ (delete_rebalance l d r h)
        (delete_rebalance-Shrunk l d r h al g.0 (ground arith) (ground arith))
        λ t f. ground (arith, f.3)

  min_value_node_total :
      (l : Tree D) (d : D) (r : Tree D) (h : ℕ) → (m : D) × (min_value_node (node l d r h) ≡ ok m)
  unfolding min_value_node
  min_value_node_total leaf d r h = (d, refl)
  min_value_node_total (node ll ld lr lh) d r h = min_value_node_total ll ld lr lh

  -- A balanced tree that takes its parent's place keeps its height.
  replace_by-IsAvl :
      (t : Tree D) → IsAvl t → Returns (λ t'. IsAvl t' × (height t' ≡ height t)) (replace_by t)
  unfolding height
  replace_by-IsAvl leaf a = (tt, refl)
  replace_by-IsAvl (node l d r h) a =
      Returns-imp _ (delete_rebalance l d r h)
        (delete_rebalance-Shrunk l d r h a.0 a.1 (omega arith) (omega arith))
        λ t f. (f.0, f.3 a.2 a.3)

  delete_root-Shrunk :
      (l r : Tree D) (successor : Outcome (Tree D))
      → IsAvl l
      → IsAvl r
      → height l ≤ height r + 1
      → height r ≤ height l + 1
      → (r ≢ leaf → Returns (Shrunk (1 + max (height l) (height r))) successor)
      → Returns (Shrunk (1 + max (height l) (height r))) (delete_root l r successor)
  unfolding height
  delete_root-Shrunk leaf r successor al ar p s two =
      Returns-imp _ (replace_by r) (replace_by-IsAvl r ar) λ t f. ground arith
  delete_root-Shrunk (node ll ld lr lh) leaf successor al ar p s two =
      Returns-imp _ (replace_by (node ll ld lr lh)) (replace_by-IsAvl (node ll ld lr lh) al)
        λ t f. ground arith
  delete_root-Shrunk (node ll ld lr lh) (node rl rd rr rh) successor al ar p s two = two (λ e. cc)

  min_value_node_of_ne : (t : Tree D) → t ≢ leaf → (m : D) × (min_value_node t ≡ ok m)
  min_value_node_of_ne leaf ne = absurd (ne refl)
  min_value_node_of_ne (node l d r h) ne = min_value_node_total l d r h

  delete_node-Shrunk :
      (t : Tree D) (q : D) → IsAvl t → Returns (Shrunk (height t)) (delete_node comp t q)
  unfolding delete_node height
  delete_node-Shrunk leaf q a = (tt, inl refl)
  delete_node-Shrunk (node l d r h) q a = elim (Bool-cases (below comp q d)) [
    | inl lt ↦ rw lt (
        Returns-bind _ (delete_node comp l q) _ (delete_node-Shrunk l q a.0)
          λ l' g. delete_rebalance_left l' d r h (height l) a.1 a.2 a.3 g)
    | inr ge ↦ elim (Bool-cases (above comp q d)) [
      | inl gt ↦
          rw (ge, gt)
            (Returns-bind _ (delete_node comp r q) _ (delete_node-Shrunk r q a.1)
              λ r' g. delete_rebalance_right l d r' h (height r) a.0 a.2 a.3 g)
      | inr le ↦
          rw (ge, le)
            (delete_root-Shrunk l r _ a.0 a.1 a.2 a.3 λ ne.
              let (m, e) = min_value_node_of_ne r ne in
              rw e (
                Returns-bind _ (delete_node comp r m) _ (delete_node-Shrunk r m a.1)
                  λ r' g. delete_rebalance_right l m r' h (height r) a.0 a.2 a.3 g))
    ]
  ]

  -- A balanced search tree.
  pub record IsSearchTree (t : Tree D) : Type 0 where
    pub balanced : IsAvl t
    pub sorted : IsSorted comp (inorder t)

  inserted-IsSorted :
      (alloc : Bool) (q : D) (xs : List D)
      → IsSorted comp xs
      → IsSorted comp (inserted comp alloc q xs)
  inserted-IsSorted true q xs s = insert_sorted-IsSorted comp o q xs s
  inserted-IsSorted false q xs s = s

  -- `insert` into a balanced search tree returns, without following a NULL child, a balanced
  -- search tree whose entries in order are those of the sorted insertion, or the old ones if
  -- `malloc` fails.
  pub insert-IsSearchTree :
      (alloc : Bool) (t : Tree D) (q : D)
      → IsSearchTree t
      → Returns
          (λ t'. IsSearchTree t' × (inorder t' ≡ inserted comp alloc q (inorder t)))
          (insert comp alloc t q)
  insert-IsSearchTree alloc t q s =
      Returns-imp_eq _ (insert comp alloc t q) (insert-Grown alloc t q s.balanced) λ t' e g.
        let same_list = insert-inorder comp o alloc t q t' s.sorted e in
        (
          record {
            balanced = g.0;
            sorted = rw same_list (inserted-IsSorted alloc q (inorder t) s.sorted);
          },
          same_list,
        )

  -- `deleteNode` from a balanced search tree returns, without following a NULL child, a balanced
  -- search tree whose entries in order are those of the sorted removal.
  pub delete_node-IsSearchTree :
      (t : Tree D) (q : D)
      → IsSearchTree t
      → Returns
          (λ t'. IsSearchTree t' × (inorder t' ≡ remove_sorted comp q (inorder t)))
          (delete_node comp t q)
  delete_node-IsSearchTree t q s =
      Returns-imp_eq _ (delete_node comp t q) (delete_node-Shrunk t q s.balanced) λ t' e g.
        let same_list = delete_node-inorder comp o t q t' s.sorted e in
        (
          record {
            balanced = g.0;
            sorted = rw same_list (remove_sorted-IsSorted comp o q (inorder t) s.sorted);
          },
          same_list,
        )

  -- After an insertion that gets its memory, `search` finds what was there before and every entry
  -- that compares equal to the new one, and nothing else.
  pub search-insert :
      (t : Tree D) (q p : D)
      → IsSearchTree t
      → Returns (λ t'. search comp t' p ≡ (same comp p q || search comp t p)) (insert comp true t q)
  search-insert t q p s =
      Returns-imp _ (insert comp true t q) (insert-IsSearchTree true t q s) λ t' f.
        search-contains comp o t' p f.0.sorted
        ∙ ap (contains comp p) f.1
        ∙ contains-insert_sorted comp o p q (inorder t)
        ∙ ap (λ b. same comp p q || b) (sym (search-contains comp o t p s.sorted))

  -- After a deletion `search` finds what was there before, less the entries that compare equal to
  -- the deleted one.
  pub search-delete_node :
      (t : Tree D) (q p : D)
      → IsSearchTree t
      → Returns
          (λ t'. search comp t' p ≡ (not (same comp p q) && search comp t p))
          (delete_node comp t q)
  search-delete_node t q p s =
      Returns-imp _ (delete_node comp t q) (delete_node-IsSearchTree t q s) λ t' f.
        search-contains comp o t' p f.0.sorted
        ∙ ap (contains comp p) f.1
        ∙ contains-remove_sorted comp o p q (inorder t) s.sorted
        ∙ ap (λ b. not (same comp p q) && b) (sym (search-contains comp o t p s.sorted))

  root_code_cases :
      (t : Tree D)
      → ((root_code t ≡ negsuc 0) × (inorder t ≡ [])) ⊎ ((root_code t ≡ pos 0) × (inorder t ≢ []))
  root_code_cases leaf = inl (refl, refl)
  root_code_cases (node l d r h) = inr (refl, not_nil (inorder l) d (inorder r))

  -- `remove_node` reports failure, -1, exactly when it leaves the tree empty: also when the last
  -- entry was deleted as asked, and never because the entry was not there.
  remove_node_code :
      (t : Tree D) (n : ℕ) (q : D)
      → IsSearchTree t
      → Returns
          (λ (tree', code).
            ((code ≡ negsuc 0) × (remove_sorted comp q (inorder t) ≡ []))
            ⊎ ((code ≡ pos 0) × (remove_sorted comp q (inorder t) ≢ [])))
          (remove_node (record { root = t; size = n; comp = comp }) q)
  unfolding remove_node
  remove_node_code t n q s =
      Returns-bind _ (delete_node comp t q) _ (delete_node-IsSearchTree t q s)
        λ t' f. rw (f.1) at (root_code_cases t')
