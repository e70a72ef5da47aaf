-- ===== src/Avl/Freed.antt =====
-- What `destroy_tree` frees and what `preOrder` prints.
use mathlib.Core.List.{Perm, perm_middle}
use mathlib.Core.List.Perm
use basic_jqr.Base.{some, [], append-nil}
use basic_jqr.Avl.{AvlTree, destroy_tree, Tree, leaf, node, delete_tree, pre_order}
use basic_jqr.Avl.Inorder.{inorder}

module _ {D : Type 0} where
  delete_tree-Perm : (t : Tree D) → Perm (delete_tree t) (inorder t)
  unfolding delete_tree
  delete_tree-Perm leaf = Perm.refl _
  delete_tree-Perm (node l d r h) = Perm.append (delete_tree-Perm l) (
      Perm.trans (perm_middle (delete_tree r) [])
        (Perm.cons d (rw append-nil (delete_tree-Perm r))))

  -- `destroy_tree` hands every entry of the tree to `free_data`, each as often as it is there.
  pub destroy_tree-Perm : (tree : AvlTree D) → Perm (destroy_tree (some tree)) (inorder tree.root)
  unfolding destroy_tree
  destroy_tree-Perm tree = delete_tree-Perm tree.root

  -- `preOrder` prints every entry of the tree, each as often as it is there.
  pub pre_order-Perm : (t : Tree D) → Perm (pre_order t) (inorder t)
  unfolding pre_order
  pre_order-Perm leaf = Perm.refl _
  pre_order-Perm (node l d r h) =
      Perm.trans (Perm.cons d (Perm.append (pre_order-Perm l) (pre_order-Perm r)))
        (Perm.symm (perm_middle (inorder l) (inorder r)))
