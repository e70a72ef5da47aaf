-- ===== src/Avl/Inorder.antt =====
-- The in-order list of a tree of avl.c, under rotations and under the operations.
use basic_jqr.Base.{
  ℕ, ◌+◌, ◌≡◌, ap, ◌∙◌, List, [], ◌∷◌, ◌++◌, arith, append_assoc, max, ok, ◌>>=◌, chain-eq-ok, ℤ,
}
use basic_jqr.Avl.{
  Tree, leaf, node, height, right_rotate, left_rotate, insert_rebalance, delete_rebalance,
}

module _ {D : Type 0} where
  abbrev pub inorder : Tree D → List D
  inorder leaf = []
  inorder (node l d r h) = inorder l ++ d ∷ inorder r

  right_rotate-inorder : (t t' : Tree D) → right_rotate t ≡ ok t' → inorder t' ≡ inorder t
  unfolding right_rotate
  right_rotate-inorder leaf t' e = absurd (cc)
  right_rotate-inorder (node leaf d r h) t' e = absurd (cc)
  right_rotate-inorder (node (node ll ld lr lh) d r h) t' e =
      ground (arith, append_assoc (inorder ll) (ld ∷ inorder lr) (d ∷ inorder r))

  left_rotate-inorder : (t t' : Tree D) → left_rotate t ≡ ok t' → inorder t' ≡ inorder t
  unfolding left_rotate
  left_rotate-inorder leaf t' e = absurd (cc)
  left_rotate-inorder (node l d leaf h) t' e = absurd (cc)
  left_rotate-inorder (node l d (node rl rd rr rh) h) t' e =
      ground (arith, append_assoc (inorder l) (d ∷ inorder rl) (rd ∷ inorder rr))

  double_right-inorder :
      (l : Tree D) (d : D) (r : Tree D) (h : ℕ) (t : Tree D)
      → (left_rotate l >>= λ l'. right_rotate (node l' d r h)) ≡ ok t
      → inorder t ≡ inorder (node l d r h)
  double_right-inorder l d r h t e =
      let (l', e₁, e₂) = chain-eq-ok (left_rotate l) _ e in
      right_rotate-inorder (node l' d r h) t e₂
      ∙ ap (λ xs. xs ++ d ∷ inorder r) (left_rotate-inorder l l' e₁)

  double_left-inorder :
      (l : Tree D) (d : D) (r : Tree D) (h : ℕ) (t : Tree D)
      → (right_rotate r >>= λ r'. left_rotate (node l d r' h)) ≡ ok t
      → inorder t ≡ inorder (node l d r h)
  double_left-inorder l d r h t e =
      let (r', e₁, e₂) = chain-eq-ok (right_rotate r) _ e in
      left_rotate-inorder (node l d r' h) t e₂
      ∙ ap (λ xs. inorder l ++ d ∷ xs) (right_rotate-inorder r r' e₁)

module _ {D : Type 0} (comp : D → D → ℤ) where
  pub insert_rebalance-inorder :
      (q : D) (l : Tree D) (d : D) (r : Tree D) (h : ℕ) (t : Tree D)
      → insert_rebalance comp q l d r h ≡ ok t
      → inorder t ≡ inorder l ++ d ∷ inorder r
  unfolding insert_rebalance
  insert_rebalance-inorder q l d r h t e =
      let h' = height (node l d r h) in
      ground (
        arith,
        right_rotate-inorder (node l d r h') t,
        left_rotate-inorder (node l d r h') t,
        double_right-inorder l d r h' t,
        double_left-inorder l d r h' t,
      )

pub delete_rebalance-inorder :
    {D : Type 0} (l : Tree D) (d : D) (r : Tree D) (h : ℕ) (t : Tree D)
    → delete_rebalance l d r h ≡ ok t
    → inorder t ≡ inorder l ++ d ∷ inorder r
unfolding delete_rebalance
delete_rebalance-inorder l d r h t e =
    let h' = 1 + max (height l) (height r) in
    ground (
      arith,
      right_rotate-inorder (node l d r h') t,
      left_rotate-inorder (node l d r h') t,
      double_right-inorder l d r h' t,
      double_left-inorder l d r h' t,
    )
