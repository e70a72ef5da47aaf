-- ===== src/Avl/Balance.antt =====
-- The balance of a tree of avl.c, and the heights that the rebalancing steps leave.
use basic_jqr.Base.{ℕ, ◌+◌, ◌≤◌, ◌≡◌, true, false, ◌⊎◌, arith, max, Returns, ℤ}
use basic_jqr.Avl.{Tree, leaf, node, height, below, above, insert_rebalance, delete_rebalance}

module _ {D : Type 0} where
  -- The heights of the two children of every node differ by at most one.
  abbrev pub IsAvl : Tree D → Type 0
  IsAvl leaf = Unit
  IsAvl (node l d r h) = IsAvl l × IsAvl r × (height l ≤ height r + 1) × (height r ≤ height l + 1)

  -- A deletion below left the height, or lowered it by one.
  abbrev pub Shrunk : ℕ → Tree D → Type 0
  Shrunk n t = IsAvl t × ((height t ≡ n) ⊎ (height t + 1 ≡ n))

  pub delete_rebalance-Shrunk :
      (l : Tree D) (d : D) (r : Tree D) (h : ℕ)
      → IsAvl l
      → IsAvl r
      → height l ≤ height r + 2
      → height r ≤ height l + 2
      → Returns
          (λ t.
            IsAvl t
            × (height t ≤ 1 + max (height l) (height r))
            × (1 + max (height l) (height r) ≤ height t + 1)
            × (height l ≤ height r + 1
                → height r ≤ height l + 1
                → height t ≡ 1 + max (height l) (height r)))
          (delete_rebalance l d r h)
  unfolding delete_rebalance
  delete_rebalance-Shrunk leaf d leaf h al ar p q = ground arith
  delete_rebalance-Shrunk leaf d (node leaf rd rr rh) h al ar p q = ground arith
  delete_rebalance-Shrunk leaf d (node (node a b c e) rd rr rh) h al ar p q = ground arith
  delete_rebalance-Shrunk (node ll ld leaf lh) d leaf h al ar p q = ground arith
  delete_rebalance-Shrunk (node ll ld (node a b c e) lh) d leaf h al ar p q = ground arith
  delete_rebalance-Shrunk (node ll ld leaf lh) d (node leaf rd rr rh) h al ar p q = ground arith
  delete_rebalance-Shrunk (node ll ld leaf lh) d (node (node a b c e) rd rr rh) h al ar p q =
      ground arith
  delete_rebalance-Shrunk (node ll ld (node x y z w) lh) d (node leaf rd rr rh) h al ar p q =
      ground arith
  delete_rebalance-Shrunk (node ll ld (node x y z w) lh) d (node (node a b c e) rd rr rh) h al ar p
        q =
      ground arith

module _ {D : Type 0} (comp : D → D → ℤ) where
  -- Which child of a grown tree is the taller one: that on whose side `q` lies.
  abbrev pub Leans : D → Tree D → Type 0
  Leans q leaf = Unit
  Leans q (node l d r h) =
      (below comp q d ≡ true → height l ≡ height r + 1)
      × (below comp q d ≡ false → above comp q d ≡ true → height r ≡ height l + 1)
      × (below comp q d ≡ false → above comp q d ≡ false → (height l ≡ 0) × (height r ≡ 0))

  -- An insertion of `q` left the height, or raised it by one on the side of `q`.
  abbrev pub Grown : D → ℕ → Tree D → Type 0
  Grown q n t = IsAvl t × ((height t ≡ n) ⊎ ((height t ≡ n + 1) × Leans q t))

  pub insert_rebalance_left :
      (q : D) (l : Tree D) (d : D) (r : Tree D) (h n : ℕ)
      → below comp q d ≡ true
      → IsAvl r
      → n ≤ height r + 1
      → height r ≤ n + 1
      → Grown q n l
      → Returns (Grown q (1 + max n (height r))) (insert_rebalance comp q l d r h)
  unfolding insert_rebalance
  insert_rebalance_left q leaf d r h n lt ar p s g = ground arith
  insert_rebalance_left q (node leaf ld leaf lh) d r h n lt ar p s g = ground arith
  insert_rebalance_left q (node (node a b c e) ld leaf lh) d r h n lt ar p s g = ground arith
  insert_rebalance_left q (node leaf ld (node a b c e) lh) d r h n lt ar p s g = ground arith
  insert_rebalance_left q (node (node x y z w) ld (node a b c e) lh) d r h n lt ar p s g =
      ground arith

  pub insert_rebalance_right :
      (q : D) (l : Tree D) (d : D) (r : Tree D) (h n : ℕ)
      → below comp q d ≡ false
      → above comp q d ≡ true
      → IsAvl l
      → height l ≤ n + 1
      → n ≤ height l + 1
      → Grown q n r
      → Returns (Grown q (1 + max (height l) n)) (insert_rebalance comp q l d r h)
  unfolding insert_rebalance
  insert_rebalance_right q l d leaf h n ge gt al p s g = ground arith
  insert_rebalance_right q l d (node leaf rd leaf rh) h n ge gt al p s g = ground arith
  insert_rebalance_right q l d (node (node a b c e) rd leaf rh) h n ge gt al p s g = ground arith
  insert_rebalance_right q l d (node leaf rd (node a b c e) rh) h n ge gt al p s g = ground arith
  insert_rebalance_right q l d (node (node x y z w) rd (node a b c e) rh) h n ge gt al p s g =
      ground arith
