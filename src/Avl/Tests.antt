-- ===== src/Avl/Tests.antt =====
-- Runs of the tree on numbers in their usual order.
use basic_jqr.Base.{ℕ, ◌≡◌, refl, true, [], ◌∷◌, ◌||◌, ◌&&◌, not, arith, Returns, ok}
use basic_jqr.Avl.{AvlTree, height, Tree, leaf, node, insert, delete_node, search}
use basic_jqr.Avl.BySize.{by_size, by_size-IsOrder}
use basic_jqr.Avl.Sorted.{same, remove_sorted}
use basic_jqr.Avl.Inorder.{inorder}
use basic_jqr.Avl.Refine.{inserted}
use basic_jqr.Avl.Total.{
  IsSearchTree, insert-IsSearchTree, delete_node-IsSearchTree, search-insert, search-delete_node,
}

abbrev small_tree : Tree ℕ
small_tree = node leaf 1 (node leaf 2 leaf 1) 2

-- An insertion that wants a rotation.
run_insert :
    insert by_size true small_tree 3 ≡ ok (node (node leaf 1 leaf 1) 2 (node leaf 3 leaf 0) 2)
unfolding insert
run_insert = refl

small_tree-IsSearchTree : IsSearchTree by_size by_size-IsOrder small_tree
small_tree-IsSearchTree = record {
  balanced = unfold height in (tt, (tt, tt, omega arith, omega arith), omega arith, omega arith);
  sorted = ((refl, tt), (tt, tt));
}

insert-IsSearchTree_example :
    Returns
      (λ t'.
        IsSearchTree by_size by_size-IsOrder t'
        × (inorder t' ≡ inserted by_size true 3 (1 ∷ 2 ∷ [])))
      (insert by_size true small_tree 3)
insert-IsSearchTree_example =
    insert-IsSearchTree by_size by_size-IsOrder true small_tree 3 small_tree-IsSearchTree

delete_node-IsSearchTree_example :
    Returns
      (λ t'.
        IsSearchTree by_size by_size-IsOrder t'
        × (inorder t' ≡ remove_sorted by_size 1 (1 ∷ 2 ∷ [])))
      (delete_node by_size small_tree 1)
delete_node-IsSearchTree_example =
    delete_node-IsSearchTree by_size by_size-IsOrder small_tree 1 small_tree-IsSearchTree

search-insert_example :
    Returns
      (λ t'. search by_size t' 3 ≡ (same by_size 3 3 || search by_size small_tree 3))
      (insert by_size true small_tree 3)
search-insert_example = search-insert by_size by_size-IsOrder small_tree 3 3 small_tree-IsSearchTree

search-delete_node_example :
    Returns
      (λ t'. search by_size t' 2 ≡ (not (same by_size 2 1) && search by_size small_tree 2))
      (delete_node by_size small_tree 1)
search-delete_node_example =
    search-delete_node by_size by_size-IsOrder small_tree 1 2 small_tree-IsSearchTree

abbrev small : AvlTree ℕ
small = record { root = small_tree; size = 0; comp = by_size }
