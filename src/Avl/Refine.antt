-- ===== src/Avl/Refine.antt =====
-- `insert`, `deleteNode` and `search` against the sorted list that the tree stands for.
use basic_jqr.Base.{
  ◌≡◌, refl, sym, ap, ◌∙◌, Bool, true, false, List, [], ◌∷◌, ◌++◌, ◌||◌, arith, append-nil, Outcome,
  ok, chain-eq-ok, ℤ, inl, inr, Bool-cases, All-imp,
}
use basic_jqr.Avl.{
  Tree, leaf, node, below, above, insert, min_value_node, delete_root, replace_by, delete_node,
  search,
}
use basic_jqr.Avl.Sorted.{
  IsOrder, IsSorted, Before, insert_sorted, remove_sorted, contains, IsSorted-left, IsSorted-right,
  Before-of_IsSorted, insert_sorted_left, remove_sorted_left, insert_sorted_skip,
  remove_sorted_skip, contains_skip, contains_above, below_of_not,
}
use basic_jqr.Avl.Inorder.{inorder, insert_rebalance-inorder, delete_rebalance-inorder}

-- What an insertion makes of the list, if `malloc` succeeds or fails.
abbrev pub inserted : {D : Type 0} → (D → D → ℤ) → Bool → D → List D → List D
inserted comp true q xs = insert_sorted comp q xs
inserted comp false q xs = xs

module _ {D : Type 0} (comp : D → D → ℤ) (o : IsOrder comp) where
  inserted_left :
      (alloc : Bool) (q d : D) (xs ys : List D)
      → below comp q d ≡ true
      → inserted comp alloc q (xs ++ d ∷ ys) ≡ inserted comp alloc q xs ++ d ∷ ys
  inserted_left true q d xs ys lt = insert_sorted_left comp q d xs ys lt
  inserted_left false q d xs ys lt = refl

  -- The elements before the root come before what is not below the root.
  Before-root :
      (q d : D) (xs ys : List D)
      → IsSorted comp (xs ++ d ∷ ys)
      → below comp q d ≡ false
      → Before comp q xs
  Before-root q d xs ys s ge =
      All-imp (λ x lt. below_of_not comp o x d q lt ge) xs (Before-of_IsSorted comp xs ys d s)

  inserted_right :
      (alloc : Bool) (q d : D) (xs ys : List D)
      → IsSorted comp (xs ++ d ∷ ys)
      → below comp q d ≡ false
      → above comp q d ≡ true
      → inserted comp alloc q (xs ++ d ∷ ys) ≡ xs ++ d ∷ inserted comp alloc q ys
  unfolding insert_sorted
  inserted_right true q d xs ys s ge gt =
      insert_sorted_skip comp o q xs (d ∷ ys) (Before-root q d xs ys s ge) ∙ rw (ge, gt)
  inserted_right false q d xs ys s ge gt = refl

  inserted_at :
      (alloc : Bool) (q d : D) (xs ys : List D)
      → IsSorted comp (xs ++ d ∷ ys)
      → below comp q d ≡ false
      → above comp q d ≡ false
      → inserted comp alloc q (xs ++ d ∷ ys) ≡ xs ++ d ∷ ys
  unfolding insert_sorted
  inserted_at true q d xs ys s ge le =
      insert_sorted_skip comp o q xs (d ∷ ys) (Before-root q d xs ys s ge) ∙ rw (ge, le)
  inserted_at false q d xs ys s ge le = refl

  pub insert-inorder :
      (alloc : Bool) (t : Tree D) (q : D) (t' : Tree D)
      → IsSorted comp (inorder t)
      → insert comp alloc t q ≡ ok t'
      → inorder t' ≡ inserted comp alloc q (inorder t)
  unfolding insert insert_sorted
  insert-inorder true leaf q t' s e = ground arith
  insert-inorder false leaf q t' s e = ground arith
  insert-inorder alloc (node l d r h) q t' s e = elim (Bool-cases (below comp q d)) [
    | inl lt ↦
        let (l', e₁, e₂) = chain-eq-ok (insert comp alloc l q) _ (rw lt at e) in
        insert_rebalance-inorder comp q l' d r h t' e₂
        ∙ ap (λ xs. xs ++ d ∷ inorder r)
            (insert-inorder alloc l q l' (IsSorted-left comp (inorder l) _ s) e₁)
        ∙ sym (inserted_left alloc q d (inorder l) (inorder r) lt)
    | inr ge ↦ elim (Bool-cases (above comp q d)) [
      | inl gt ↦
          let (r', e₁, e₂) = chain-eq-ok (insert comp alloc r q) _ (rw (ge, gt) at e) in
          insert_rebalance-inorder comp q l d r' h t' e₂
          ∙ ap (λ xs. inorder l ++ d ∷ xs)
              (insert-inorder alloc r q r' (IsSorted-right comp (inorder l) _ s).1 e₁)
          ∙ sym (inserted_right alloc q d (inorder l) (inorder r) s ge gt)
      | inr le ↦
          let stays : node l d r h ≡ t' = ground arith in
          rw (← stays) (sym (inserted_at alloc q d (inorder l) (inorder r) s ge le))
    ]
  ]

  contains-append :
      (q : D) (xs ys : List D)
      → contains comp q (xs ++ ys) ≡ (contains comp q xs || contains comp q ys)
  unfolding contains
  contains-append q [] ys = refl
  contains-append q (x ∷ xs) ys = ground (arith, contains-append q xs ys)

  contains_left :
      (q d : D) (xs ys : List D)
      → IsSorted comp (d ∷ ys)
      → below comp q d ≡ true
      → contains comp q (xs ++ d ∷ ys) ≡ contains comp q xs
  contains_left q d xs ys s lt =
      let none_above =
        contains_above comp o q (d ∷ ys) (lt, All-imp (λ y. o.below_trans q d y lt) ys s.0) in
      ground (arith, contains-append q xs (d ∷ ys))

  -- `search` decides whether the sorted list holds an equal entry.
  pub search-contains :
      (t : Tree D) (q : D)
      → IsSorted comp (inorder t)
      → search comp t q ≡ contains comp q (inorder t)
  unfolding search contains
  search-contains leaf q s = refl
  search-contains (node l d r h) q s = elim (Bool-cases (below comp q d)) [
    | inl lt ↦ rw lt (
        search-contains l q (IsSorted-left comp (inorder l) _ s)
        ∙ sym (contains_left q d (inorder l) (inorder r) (IsSorted-right comp (inorder l) _ s) lt))
    | inr ge ↦
        let skip =
          contains_skip comp o q (inorder l) (d ∷ inorder r)
            (Before-root q d (inorder l) (inorder r) s ge) in
        let rest = search-contains r q (IsSorted-right comp (inorder l) _ s).1 in ground arith
  ]

  min_value_node-inorder :
      (t : Tree D) (m : D) → min_value_node t ≡ ok m → (rest : List D) × (inorder t ≡ m ∷ rest)
  unfolding min_value_node
  min_value_node-inorder leaf m e = absurd (cc)
  min_value_node-inorder (node leaf d r h) m e = (inorder r, ground arith)
  min_value_node-inorder (node (node ll ld lr lh) d r h) m e =
      let (rest, q) = min_value_node-inorder (node ll ld lr lh) m e in
      (rest ++ d ∷ inorder r, ap (λ xs. xs ++ d ∷ inorder r) q)

  remove_first : (m : D) (rest : List D) → remove_sorted comp m (m ∷ rest) ≡ rest
  unfolding remove_sorted
  remove_first m rest = rw (o.below_irrefl m, o.above_flip m m, o.below_irrefl m)

  remove_right :
      (q d : D) (xs ys : List D)
      → IsSorted comp (xs ++ d ∷ ys)
      → below comp q d ≡ false
      → above comp q d ≡ true
      → remove_sorted comp q (xs ++ d ∷ ys) ≡ xs ++ d ∷ remove_sorted comp q ys
  unfolding remove_sorted
  remove_right q d xs ys s ge gt =
      remove_sorted_skip comp o q xs (d ∷ ys) (Before-root q d xs ys s ge) ∙ rw (ge, gt)

  remove_at :
      (q d : D) (xs ys : List D)
      → IsSorted comp (xs ++ d ∷ ys)
      → below comp q d ≡ false
      → above comp q d ≡ false
      → remove_sorted comp q (xs ++ d ∷ ys) ≡ xs ++ ys
  unfolding remove_sorted
  remove_at q d xs ys s ge le =
      remove_sorted_skip comp o q xs (d ∷ ys) (Before-root q d xs ys s ge) ∙ rw (ge, le)

  replace_by-inorder : (t t' : Tree D) → replace_by t ≡ ok t' → inorder t' ≡ inorder t
  replace_by-inorder leaf t' e = ground arith
  replace_by-inorder (node l d r h) t' e = delete_rebalance-inorder l d r h t' e

  delete_root-inorder :
      (l r : Tree D) (successor : Outcome (Tree D)) (t' : Tree D)
      → delete_root l r successor ≡ ok t'
      → (successor ≡ ok t' → inorder t' ≡ inorder l ++ inorder r)
      → inorder t' ≡ inorder l ++ inorder r
  delete_root-inorder leaf r successor t' e two = replace_by-inorder r t' e
  delete_root-inorder (node ll ld lr lh) leaf successor t' e two =
      replace_by-inorder (node ll ld lr lh) t' e ∙ sym (append-nil _)
  delete_root-inorder (node ll ld lr lh) (node rl rd rr rh) successor t' e two = two e

  pub delete_node-inorder :
      (t : Tree D) (q : D) (t' : Tree D)
      → IsSorted comp (inorder t)
      → delete_node comp t q ≡ ok t'
      → inorder t' ≡ remove_sorted comp q (inorder t)
  unfolding delete_node
  delete_node-inorder leaf q t' s e = unfold remove_sorted in (ground arith)
  delete_node-inorder (node l d r h) q t' s e = elim (Bool-cases (below comp q d)) [
    | inl lt ↦
        let (l', e₁, e₂) = chain-eq-ok (delete_node comp l q) _ (rw lt at e) in
        delete_rebalance-inorder l' d r h t' e₂
        ∙ ap (λ xs. xs ++ d ∷ inorder r)
            (delete_node-inorder l q l' (IsSorted-left comp (inorder l) _ s) e₁)
        ∙ sym (remove_sorted_left comp q d (inorder l) (inorder r) lt)
    | inr ge ↦ elim (Bool-cases (above comp q d)) [
      | inl gt ↦
          let (r', e₁, e₂) = chain-eq-ok (delete_node comp r q) _ (rw (ge, gt) at e) in
          delete_rebalance-inorder l d r' h t' e₂
          ∙ ap (λ xs. inorder l ++ d ∷ xs)
              (delete_node-inorder r q r' (IsSorted-right comp (inorder l) _ s).1 e₁)
          ∙ sym (remove_right q d (inorder l) (inorder r) s ge gt)
      | inr le ↦
          delete_root-inorder l r _ t' (rw (ge, le) at e) (λ two.
            let (m, e₁, e₂) = chain-eq-ok (min_value_node r) _ two in
            let (r', e₃, e₄) = chain-eq-ok (delete_node comp r m) _ e₂ in
            let (rest, first) = min_value_node-inorder r m e₁ in
            let gone =
              delete_node-inorder r m r' (IsSorted-right comp (inorder l) _ s).1 e₃
              ∙ ap (remove_sorted comp m) first
              ∙ remove_first m rest in
            delete_rebalance-inorder l m r' h t' e₄
            ∙ ap (λ xs. inorder l ++ m ∷ xs) gone
            ∙ ap (λ xs. inorder l ++ xs) (sym first))
          ∙ sym (remove_at q d (inorder l) (inorder r) s ge le)
    ]
  ]
