-- ===== src/Circle/Merge.antt =====
-- The sort of circle_link.c on chains of nodes that end in NULL: what its three functions do to
-- the list of nodes, and that the nodes of the heap are linked accordingly.
use basic_jqr.Base.{
  if◌then◌else◌, ℕ, zero, suc, ◌+◌, ◌≤◌, ◌<◌, ◌≡◌, ◌≢◌, refl, sym, ap, ◌∙◌, Bool, not, Option, none,
  some, [], ◌∷◌, ◌++◌, arith, length, All, All-append, All-left, All-right, All-imp, Bool-cases,
  inl, inr, ok, Returns, Returns-bind, ◌>>=◌, ℤ, is_neg,
}
use basic_jqr.Heap.{cell, Heap, set_next}
use basic_jqr.Heap.Linked.{
  Cells, first, Linked, Apart, Distinct, SameOutside, last_of, write_self, write_ne, Linked-write,
  Linked-left, Linked-right, Linked-last, Apart-last, Linked-relink, Distinct-left, Distinct-Apart,
}
use basic_jqr.Circle.{split_loop, split_list, sorted_merge}

module _ {E : Type 0} where
  -- `split_list` on the nodes after the first: what stays with it, and the rest. The second list is
  -- what `fast` has before it.
  unfoldable pub halves : Cells E → Cells E → Cells E × Cells E
  halves rest [] = ([], rest)
  halves rest (f ∷ []) = ([], rest)
  halves [] (f ∷ g ∷ fast) = ([], [])
  halves (r ∷ rest) (f ∷ g ∷ fast) = let (x, y) = halves rest fast in (r ∷ x, y)

  pub halves-append : (rest fast : Cells E) → (halves rest fast).0 ++ (halves rest fast).1 ≡ rest
  unfolding halves
  halves-append rest [] = refl
  halves-append rest (f ∷ []) = refl
  halves-append [] (f ∷ g ∷ fast) = refl
  halves-append (r ∷ rest) (f ∷ g ∷ fast) = ap (λ xs. r ∷ xs) (halves-append rest fast)

  pub length-halves :
      (rest fast : Cells E)
      → length (halves rest fast).0 + length (halves rest fast).0 ≤ length fast
  unfolding halves
  length-halves rest [] = omega arith
  length-halves rest (f ∷ []) = omega arith
  length-halves [] (f ∷ g ∷ fast) = omega arith
  length-halves (r ∷ rest) (f ∷ g ∷ fast) = omega (arith, length-halves rest fast)

  -- The loop ends at the last node of the first half.
  split_loop-halves :
      (h : Heap E) (fuel : ℕ) (c : ℕ × E) (rest fast : Cells E)
      → length fast < fuel
      → Linked h (c ∷ rest) none
      → Linked h fast none
      → length fast ≤ length rest
      → split_loop fuel h (some c.0) (first fast none)
        ≡ ok (some (last_of c (halves rest fast).0).0)
  unfolding split_loop halves
  split_loop-halves h zero c rest fast lt l f le = absurd (omega arith)
  split_loop-halves h (suc fuel) c rest [] lt l f le = refl
  split_loop-halves h (suc fuel) c rest (a ∷ []) lt l f le = rw (f.0)
  split_loop-halves h (suc fuel) c [] (a ∷ b ∷ fast) lt l f le = absurd (omega arith)
  split_loop-halves h (suc fuel) c (r ∷ rest) (a ∷ b ∷ fast) lt l f le =
      rw (f.0, l.0, f.1.0)
        (split_loop-halves h fuel r rest fast (omega arith) l.1 f.1.1 (omega arith))

  pub Apart-append : (a : ℕ) (xs ys : Cells E) → Apart a xs → Apart a ys → Apart a (xs ++ ys)
  Apart-append a xs ys = All-append (λ (b, d). a ≢ b) xs ys

  -- The last node of one part is none of the other's.
  pub Apart-end :
      (c : ℕ × E) (x y : Cells E) → All (λ (a, d). Apart a (c ∷ x)) y → Apart (last_of c x).0 y
  Apart-end c x y apart = All-imp (λ (a, d) out e. Apart-last a c x out (sym e)) y apart

  -- After `split_list` the two halves are chains that end in NULL.
  pub record Halved (h : Heap E) (c : ℕ × E) (rest : Cells E) (r : Option ℕ × Option ℕ × Heap E)
      : Type 0 where
    pub front : r.0 ≡ some c.0
    pub back : r.1 ≡ first (halves rest rest).1 none
    pub front_chain : Linked r.2 (c ∷ (halves rest rest).0) none
    pub back_chain : Linked r.2 (halves rest rest).1 none
    pub outside : SameOutside (c ∷ rest) h r.2

  pub split_list-Halved :
      (h : Heap E) (fuel : ℕ) (c : ℕ × E) (rest : Cells E)
      → length rest < fuel
      → Linked h (c ∷ rest) none
      → Distinct (c ∷ rest)
      → Returns (Halved h c rest) (split_list fuel h (some c.0))
  unfolding split_list
  split_list-Halved h fuel c rest lt l u =
      let x = (halves rest rest).0 in
      let y = (halves rest rest).1 in
      let whole : c ∷ (x ++ y) ≡ c ∷ rest = ap (λ xs. c ∷ xs) (halves-append rest rest) in
      let linked : Linked h ((c ∷ x) ++ y) none = rw (halves-append rest rest) l in
      let apart : Distinct ((c ∷ x) ++ y) = rw (halves-append rest rest) u in
      let front_end = Linked-last h c x (first y none) (Linked-left h (c ∷ x) y none linked) in
      let end = last_of c x in
      rw (l.0, split_loop-halves h fuel c rest rest lt l l.1 (omega arith), front_end)
        (record {
          front = refl;
          back = refl;
          front_chain =
              Linked-relink h c x (first y none) none (Distinct-left (c ∷ x) y apart)
                (Linked-left h (c ∷ x) y none linked);
          back_chain =
              Linked-write h y none end.0 _ (Apart-end c x y (Distinct-Apart (c ∷ x) y apart))
                (Linked-right h (c ∷ x) y none linked);
          outside = λ a out. write_ne h end.0 a _ (λ e.
              Apart-last a c x (All-left _ (c ∷ x) y (rw (halves-append rest rest) out)) (sym e));
        })

-- No node of one chain is one of the other.
abbrev pub Across : {E : Type 0} → Cells E → Cells E → Type 0
Across xs ys = All (λ (b, d). Apart b xs) ys

-- The chain `ms` that a function returned, made of the nodes `cs`.
pub record Chained {E : Type 0} (h : Heap E) (cs ms : Cells E) (r : Option ℕ × Heap E)
    : Type 0 where
  pub start : r.0 ≡ first ms none
  pub chain : Linked r.1 ms none
  pub outside : SameOutside cs h r.1

module _ {E : Type 0} where
  Across-tail : (a : ℕ × E) (xs ys : Cells E) → Across (a ∷ xs) ys → Across xs ys
  Across-tail a xs ys = All-imp (λ (b, d) out. out.1) ys

  Across-head : (a : ℕ × E) (xs ys : Cells E) → Across (a ∷ xs) ys → Apart a.0 ys
  Across-head a xs ys = All-imp (λ (b, d) out e. out.0 (sym e)) ys

module _ {E : Type 0} (comp : E → E → ℤ) where
  abbrev pub stays_first : ℕ × E → ℕ × E → Bool
  stays_first a b = not (is_neg (comp a.1 b.1))

  -- `sorted_merge` on the nodes.
  unfoldable pub merge_cells : ℕ → Cells E → Cells E → Cells E
  merge_cells zero xs ys = xs ++ ys
  merge_cells (suc fuel) [] ys = ys
  merge_cells (suc fuel) (a ∷ xs) [] = a ∷ xs
  merge_cells (suc fuel) (a ∷ xs) (b ∷ ys) =
      if stays_first a b then a ∷ merge_cells fuel xs (b ∷ ys) else b ∷ merge_cells fuel (a ∷ xs) ys

  -- `merge_sort` on the nodes.
  unfoldable pub sort_cells : ℕ → Cells E → Cells E
  unfolding merge_cells halves
  sort_cells zero cs = cs
  sort_cells (suc fuel) [] = []
  sort_cells (suc fuel) (c ∷ []) = c ∷ []
  sort_cells (suc fuel) (c ∷ r ∷ rest) =
      let (x, y) = halves (r ∷ rest) (r ∷ rest) in
      merge_cells fuel (sort_cells fuel (c ∷ x)) (sort_cells fuel y)

  pub All-merge_cells :
      (P : ℕ × E → Type 0) (fuel : ℕ) (xs ys : Cells E)
      → All P xs
      → All P ys
      → All P (merge_cells fuel xs ys)
  unfolding merge_cells
  All-merge_cells P zero xs ys pa pb = All-append P xs ys pa pb
  All-merge_cells P (suc fuel) [] ys pa pb = pb
  All-merge_cells P (suc fuel) (a ∷ xs) [] pa pb = pa
  All-merge_cells P (suc fuel) (a ∷ xs) (b ∷ ys) pa pb = elim (Bool-cases (stays_first a b)) [
    | inl e ↦ rw e (pa.0, All-merge_cells P fuel xs (b ∷ ys) pa.1 pb)
    | inr e ↦ rw e (pb.0, All-merge_cells P fuel (a ∷ xs) ys pa pb.1)
  ]

  pub Distinct-merge_cells :
      (fuel : ℕ) (xs ys : Cells E)
      → length xs + length ys < fuel
      → Distinct xs
      → Distinct ys
      → Across xs ys
      → Distinct (merge_cells fuel xs ys)
  unfolding merge_cells
  Distinct-merge_cells zero xs ys lt ua ub x = absurd (omega arith)
  Distinct-merge_cells (suc fuel) [] ys lt ua ub x = ub
  Distinct-merge_cells (suc fuel) (a ∷ xs) [] lt ua ub x = ua
  Distinct-merge_cells (suc fuel) (a ∷ xs) (b ∷ ys) lt ua ub x =
      elim (Bool-cases (stays_first a b)) [
        | inl e ↦ rw e (
          All-merge_cells (λ (c, d). a.0 ≢ c) fuel xs (b ∷ ys) ua.0 (Across-head a xs (b ∷ ys) x),
          Distinct-merge_cells fuel xs (b ∷ ys) (omega arith) ua.1 ub (Across-tail a xs (b ∷ ys) x),
        )
        | inr e ↦ rw e (
          All-merge_cells (λ (c, d). b.0 ≢ c) fuel (a ∷ xs) ys x.0 ub.0,
          Distinct-merge_cells fuel (a ∷ xs) ys (omega arith) ua ub.1 x.1,
        )
      ]

  -- A node is put before a chain.
  link_up :
      (h h' : Heap E) (c : ℕ × E) (q r : Option ℕ) (cs ms zs : Cells E)
      → Chained h cs ms (r, h')
      → h c.0 ≡ some (cell c.1 q)
      → Apart c.0 cs
      → Apart c.0 ms
      → ((p : ℕ) → Apart p zs → (p ≢ c.0) × Apart p cs)
      → Returns (Chained h zs (c ∷ ms)) (set_next h' (some c.0) r >>= λ h''. ok (some c.0, h''))
  link_up h h' c q r cs ms zs m at out_cs out_ms split =
      rw (m.outside c.0 out_cs, at, m.start)
        (record {
          start = refl;
          chain = (write_self h' c.0 _, Linked-write h' ms none c.0 _ out_ms m.chain);
          outside = λ p out.
              let (ne, out') = split p out in
              write_ne h' c.0 p _ (λ e. ne (sym e)) ∙ m.outside p out';
        })

  pub sorted_merge-Chained :
      (h : Heap E) (fuel : ℕ) (xs ys : Cells E)
      → length xs + length ys < fuel
      → Linked h xs none
      → Linked h ys none
      → Distinct xs
      → Distinct ys
      → Across xs ys
      → Returns
          (Chained h (xs ++ ys) (merge_cells fuel xs ys))
          (sorted_merge comp fuel h (first xs none) (first ys none))
  unfolding sorted_merge merge_cells
  sorted_merge-Chained h zero xs ys lt la lb ua ub x = absurd (omega arith)
  sorted_merge-Chained h (suc fuel) [] ys lt la lb ua ub x = record {
    start = refl;
    chain = lb;
    outside = λ q out. refl;
  }
  sorted_merge-Chained h (suc fuel) (a ∷ xs) [] lt la lb ua ub x = record {
    start = refl;
    chain = la;
    outside = λ q out. refl;
  }
  sorted_merge-Chained h (suc fuel) (a ∷ xs) (b ∷ ys) lt la lb ua ub x =
      elim (Bool-cases (stays_first a b)) [
        | inl e ↦
            rw (la.0, lb.0, e)
              (Returns-bind _ (sorted_merge comp fuel h (first xs none) (some b.0)) _
                (sorted_merge-Chained h fuel xs (b ∷ ys) (omega arith) la.1 lb ua.1 ub
                  (Across-tail a xs (b ∷ ys) x))
                λ (r, h') m.
                  link_up h h' a (first xs none) r (xs ++ b ∷ ys) (merge_cells fuel xs (b ∷ ys))
                    (a ∷ xs ++ b ∷ ys) m la.0
                    (Apart-append a.0 xs (b ∷ ys) ua.0 (Across-head a xs (b ∷ ys) x))
                    (All-merge_cells (λ (c, d). a.0 ≢ c) fuel xs (b ∷ ys) ua.0
                      (Across-head a xs (b ∷ ys) x))
                    λ p out. (out.0, out.1))
        | inr e ↦
            rw (la.0, lb.0, e)
              (Returns-bind _ (sorted_merge comp fuel h (some a.0) (first ys none)) _
                (sorted_merge-Chained h fuel (a ∷ xs) ys (omega arith) la lb.1 ua ub.1 x.1)
                λ (r, h') m.
                  link_up h h' b (first ys none) r ((a ∷ xs) ++ ys) (merge_cells fuel (a ∷ xs) ys)
                    (a ∷ xs ++ b ∷ ys) m lb.0 (Apart-append b.0 (a ∷ xs) ys x.0 ub.0)
                    (All-merge_cells (λ (c, d). b.0 ≢ c) fuel (a ∷ xs) ys x.0 ub.0)
                    λ p out.
                      let right = All-right _ (a ∷ xs) (b ∷ ys) out in
                      (
                        right.0,
                        Apart-append p (a ∷ xs) ys (All-left _ (a ∷ xs) (b ∷ ys) out) right.1,
                      ))
      ]
