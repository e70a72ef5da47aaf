-- ===== src/Avl/Sorted.antt =====
-- Sorted lists under the ordering callback: what a search tree stands for, and the insertion,
-- removal and search on them that the tree's operations are compared with.
use basic_jqr.Base.{
  ◌≡◌, refl, sym, ◌∙◌, Bool, true, false, List, [], ◌∷◌, ◌++◌, ◌||◌, arith, if◌then◌else◌, All,
  All-imp, All-left, All-right, ℤ, inl, inr, Bool-cases, not, ◌&&◌,
}
use basic_jqr.Avl.{below, above}

-- What the tree asks of its callback: a strict weak order, read both ways round.
pub record IsOrder {D : Type 0} (comp : D → D → ℤ) : Type 0 where
  pub below_irrefl : (a : D) → below comp a a ≡ false
  pub above_flip : (a b : D) → above comp a b ≡ below comp b a
  pub below_trans :
      (a b c : D) → below comp a b ≡ true → below comp b c ≡ true → below comp a c ≡ true
  pub not_below_trans :
      (a b c : D) → below comp a b ≡ false → below comp b c ≡ false → below comp a c ≡ false

module _ {D : Type 0} (comp : D → D → ℤ) where
  abbrev pub same : D → D → Bool
  same q d = not (below comp q d) && not (above comp q d)

  unfoldable pub insert_sorted : D → List D → List D
  insert_sorted q [] = q ∷ []
  insert_sorted q (x ∷ xs) =
      if below comp q x
      then q ∷ x ∷ xs
      else (if above comp q x then x ∷ insert_sorted q xs else x ∷ xs)

  unfoldable pub remove_sorted : D → List D → List D
  remove_sorted q [] = []
  remove_sorted q (x ∷ xs) =
      if below comp q x then x ∷ xs else (if above comp q x then x ∷ remove_sorted q xs else xs)

  unfoldable pub contains : D → List D → Bool
  contains q [] = false
  contains q (x ∷ xs) = same q x || contains q xs

  abbrev pub IsSorted : List D → Type 0
  IsSorted [] = Unit
  IsSorted (x ∷ xs) = All (λ y. below comp x y ≡ true) xs × IsSorted xs

  -- Everything in the list comes before `q`.
  abbrev pub Before : D → List D → Type 0
  Before q xs = All (λ x. below comp x q ≡ true) xs

  pub IsSorted-left : (xs ys : List D) → IsSorted (xs ++ ys) → IsSorted xs
  IsSorted-left [] ys s = tt
  IsSorted-left (x ∷ xs) ys s = (All-left _ xs ys s.0, IsSorted-left xs ys s.1)

  pub IsSorted-right : (xs ys : List D) → IsSorted (xs ++ ys) → IsSorted ys
  IsSorted-right [] ys s = s
  IsSorted-right (x ∷ xs) ys s = IsSorted-right xs ys s.1

  pub Before-of_IsSorted : (xs ys : List D) (d : D) → IsSorted (xs ++ d ∷ ys) → Before d xs
  Before-of_IsSorted [] ys d s = tt
  Before-of_IsSorted (x ∷ xs) ys d s =
      ((All-right _ xs (d ∷ ys) s.0).0, Before-of_IsSorted xs ys d s.1)

  pub insert_sorted_left :
      (q d : D) (xs ys : List D)
      → below comp q d ≡ true
      → insert_sorted q (xs ++ d ∷ ys) ≡ insert_sorted q xs ++ d ∷ ys
  unfolding insert_sorted
  insert_sorted_left q d [] ys lt = rw lt
  insert_sorted_left q d (x ∷ xs) ys lt = ground (arith, insert_sorted_left q d xs ys lt)

  pub remove_sorted_left :
      (q d : D) (xs ys : List D)
      → below comp q d ≡ true
      → remove_sorted q (xs ++ d ∷ ys) ≡ remove_sorted q xs ++ d ∷ ys
  unfolding remove_sorted
  remove_sorted_left q d [] ys lt = rw lt
  remove_sorted_left q d (x ∷ xs) ys lt = ground (arith, remove_sorted_left q d xs ys lt)

module _ {D : Type 0} (comp : D → D → ℤ) (o : IsOrder comp) where
  pub below_asym : (a b : D) → below comp a b ≡ true → below comp b a ≡ false
  below_asym a b lt = elim (Bool-cases (below comp b a)) [
    | inl gt ↦ absurd (cc (o.below_trans a b a lt gt, o.below_irrefl a))
    | inr h ↦ h
  ]

  -- An element below one that is not below `q`... is below `q` too.
  pub below_of_not :
      (x d q : D) → below comp x d ≡ true → below comp q d ≡ false → below comp x q ≡ true
  below_of_not x d q lt ge = elim (Bool-cases (below comp x q)) [
    | inl h ↦ h
    | inr h ↦ absurd (cc (o.not_below_trans x q d h ge, lt))
  ]

  pub insert_sorted_skip :
      (q : D) (xs zs : List D)
      → Before comp q xs
      → insert_sorted comp q (xs ++ zs) ≡ xs ++ insert_sorted comp q zs
  unfolding insert_sorted
  insert_sorted_skip q [] zs b = refl
  insert_sorted_skip q (x ∷ xs) zs b =
      rw (below_asym x q b.0, o.above_flip q x, b.0, insert_sorted_skip q xs zs b.1)

  pub remove_sorted_skip :
      (q : D) (xs zs : List D)
      → Before comp q xs
      → remove_sorted comp q (xs ++ zs) ≡ xs ++ remove_sorted comp q zs
  unfolding remove_sorted
  remove_sorted_skip q [] zs b = refl
  remove_sorted_skip q (x ∷ xs) zs b =
      rw (below_asym x q b.0, o.above_flip q x, b.0, remove_sorted_skip q xs zs b.1)

  pub contains_skip :
      (q : D) (xs zs : List D) → Before comp q xs → contains comp q (xs ++ zs) ≡ contains comp q zs
  unfolding contains
  contains_skip q [] zs b = refl
  contains_skip q (x ∷ xs) zs b =
      rw (below_asym x q b.0, o.above_flip q x, b.0, contains_skip q xs zs b.1)

  -- Nothing is `q` in a list that lies above it.
  pub contains_above :
      (q : D) (ys : List D) → All (λ y. below comp q y ≡ true) ys → contains comp q ys ≡ false
  unfolding contains
  contains_above q [] s = refl
  contains_above q (y ∷ ys) s = rw (s.0, contains_above q ys s.1)

  Before-insert_sorted :
      (P : D → Type 0) (q : D) (xs : List D) → P q → All P xs → All P (insert_sorted comp q xs)
  unfolding insert_sorted
  Before-insert_sorted P q [] p a = (p, tt)
  Before-insert_sorted P q (x ∷ xs) p a = ground (arith, Before-insert_sorted P q xs p)

  All-remove_sorted :
      (P : D → Type 0) (q : D) (xs : List D) → All P xs → All P (remove_sorted comp q xs)
  unfolding remove_sorted
  All-remove_sorted P q [] a = tt
  All-remove_sorted P q (x ∷ xs) a = ground (arith, All-remove_sorted P q xs)

  pub insert_sorted-IsSorted :
      (q : D) (xs : List D) → IsSorted comp xs → IsSorted comp (insert_sorted comp q xs)
  unfolding insert_sorted
  insert_sorted-IsSorted q [] s = (tt, tt)
  insert_sorted-IsSorted q (x ∷ xs) s = elim (Bool-cases (below comp q x)) [
    | inl lt ↦ rw lt ((lt, All-imp (λ y. o.below_trans q x y lt) xs s.0), s)
    | inr ge ↦ elim (Bool-cases (above comp q x)) [
      | inl gt ↦
          rw (ge, gt)
            (
              Before-insert_sorted _ q xs (sym (o.above_flip q x) ∙ gt) s.0,
              insert_sorted-IsSorted q xs s.1,
            )
      | inr le ↦ rw (ge, le) s
    ]
  ]

  pub remove_sorted-IsSorted :
      (q : D) (xs : List D) → IsSorted comp xs → IsSorted comp (remove_sorted comp q xs)
  unfolding remove_sorted
  remove_sorted-IsSorted q [] s = tt
  remove_sorted-IsSorted q (x ∷ xs) s = ground (
    arith,
    remove_sorted-IsSorted q xs s.1,
    All-remove_sorted (λ y. below comp x y ≡ true) q xs s.0,
  )

  -- `same` is an equivalence that the order respects.
  same_cases :
      (p q : D) → same comp p q ≡ true → (below comp p q ≡ false) × (below comp q p ≡ false)
  same_cases p q h = ground (arith, o.above_flip p q)

  same_of_cases : (p q : D) → below comp p q ≡ false → below comp q p ≡ false → same comp p q ≡ true
  same_of_cases p q h k = ground (arith, o.above_flip p q)

  same_trans : (p q x : D) → same comp p q ≡ true → same comp q x ≡ true → same comp p x ≡ true
  same_trans p q x h k =
      let (pq, qp) = same_cases p q h in
      let (qx, xq) = same_cases q x k in
      same_of_cases p x (o.not_below_trans p q x pq qx) (o.not_below_trans x q p xq qp)

  same_sym : (p q : D) → same comp p q ≡ true → same comp q p ≡ true
  same_sym p q h = let (pq, qp) = same_cases p q h in same_of_cases q p qp pq

  below_of_same : (p q y : D) → same comp p q ≡ true → below comp q y ≡ true → below comp p y ≡ true
  below_of_same p q y h lt = elim (Bool-cases (below comp p y)) [
    | inl k ↦ k
    | inr k ↦ absurd (cc (o.not_below_trans q p y (same_cases p q h).1 k, lt))
  ]

  absent_of_same :
      (p q : D) (ys : List D)
      → same comp p q ≡ true
      → All (λ y. below comp q y ≡ true) ys
      → contains comp p ys ≡ false
  absent_of_same p q ys h a = contains_above p ys (All-imp (λ y. below_of_same p q y h) ys a)

  -- Reading after writing, on sorted lists.
  pub contains-insert_sorted :
      (p q : D) (xs : List D)
      → contains comp p (insert_sorted comp q xs) ≡ (same comp p q || contains comp p xs)
  unfolding insert_sorted contains
  contains-insert_sorted p q [] = refl
  contains-insert_sorted p q (x ∷ xs) =
      ground (arith, contains-insert_sorted p q xs, same_trans p q x)

  apart_step :
      (p q x : D) (xs : List D)
      → above comp q x ≡ true
      → (same comp p x || (not (same comp p q) && contains comp p xs))
        ≡ (not (same comp p q) && (same comp p x || contains comp p xs))
  apart_step p q x xs gt = elim (Bool-cases (same comp p q)) [
    | inr apart ↦ rw apart
    | inl eq ↦ elim (Bool-cases (same comp p x)) [
      | inr apart ↦ rw (eq, apart)
      | inl eq' ↦
          absurd
            (cc ((same_cases q x (same_trans q p x (same_sym p q eq) eq')).1, o.above_flip q x, gt))
    ]
  ]

  same_step :
      (p q x : D) (xs : List D)
      → same comp q x ≡ true
      → All (λ y. below comp x y ≡ true) xs
      → contains comp p xs ≡ (not (same comp p q) && (same comp p x || contains comp p xs))
  same_step p q x xs eq a = elim (Bool-cases (same comp p x)) [
    | inl eq' ↦ rw (same_trans p x q eq' (same_sym q x eq), absent_of_same p x xs eq' a)
    | inr apart ↦ elim (Bool-cases (same comp p q)) [
      | inl eq' ↦ absurd (cc (same_trans p q x eq' eq, apart))
      | inr apart' ↦ rw (apart, apart')
    ]
  ]

  pub contains-remove_sorted :
      (p q : D) (xs : List D)
      → IsSorted comp xs
      → contains comp p (remove_sorted comp q xs) ≡ (not (same comp p q) && contains comp p xs)
  unfolding remove_sorted contains
  contains-remove_sorted p q [] s = ground arith
  contains-remove_sorted p q (x ∷ xs) s = elim (Bool-cases (below comp q x)) [
    | inl lt ↦
        rw lt (
          ground (arith, absent_of_same p q (x ∷ xs), All-imp (λ y. o.below_trans q x y lt) xs s.0))
    | inr ge ↦ elim (Bool-cases (above comp q x)) [
      | inl gt ↦ rw (ge, gt, contains-remove_sorted p q xs s.1) (apart_step p q x xs gt)
      | inr le ↦
          rw (ge, le) (same_step p q x xs (same_of_cases q x ge (sym (o.above_flip q x) ∙ le)) s.0)
    ]
  ]
