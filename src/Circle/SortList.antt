-- ===== src/Circle/SortList.antt =====
-- sort_list of circle_link.c on the heap: the recursion returns the sorted chain, and the ring is
-- closed again.
use mathlib.Core.List.{Perm}
use basic_jqr.Base.{
  ℕ, zero, suc, ◌+◌, ◌^◌, ◌<◌, ◌≡◌, refl, sym, ◌∙◌, Option, none, some, [], ◌∷◌, ◌++◌, arith,
  length, All, All-left, All-right, ok, Returns, Returns-bind, Returns-imp, ◌>>=◌, ℤ, u64_pred,
}
use basic_jqr.Avl.Sorted.{IsOrder}
use basic_jqr.Heap.{cell, Heap, write, set_next, walk}
use basic_jqr.Heap.Linked.{
  Cells, first, Linked, Apart, Distinct, SameOutside, last_of, Linked-outside, Linked-last,
  Linked-relink, walk-last_of,
}
use basic_jqr.Circle.{Circle, split_list, sorted_merge, merge_sort, sort_list}
use basic_jqr.Circle.Ring.{IsRing}
use basic_jqr.Circle.Merge.{
  halves, halves-append, Apart-append, split_list-Halved, Chained, merge_cells, sort_cells,
  sorted_merge-Chained,
}
use basic_jqr.Circle.Sort.{
  Across-sym, length-front, length-both, length-sort_cells, All-sort_cells, sort_cells-Perm,
  IsDescending, sort_cells-IsDescending, Distinct-halves, Across-sort_cells, Distinct-sort_cells,
}

module _ {E : Type 0} (comp : E → E → ℤ) where
  -- The two sorted halves, both chains in one heap, are merged.
  merged-Chained :
      (h h₁ h₂ h₃ : Heap E) (fuel : ℕ) (c : ℕ × E) (rest x y sx sy : Cells E)
      → Returns
          (Chained h₃ (sx ++ sy) (merge_cells comp fuel sx sy))
          (sorted_merge comp fuel h₃ (first sx none) (first sy none))
      → ((P : ℕ × E → Type 0) → All P (c ∷ x) → All P sx)
      → ((P : ℕ × E → Type 0) → All P y → All P sy)
      → x ++ y ≡ rest
      → SameOutside (c ∷ rest) h h₁
      → SameOutside (c ∷ x) h₁ h₂
      → SameOutside y h₂ h₃
      → Returns
          (Chained h (c ∷ rest) (merge_cells comp fuel sx sy))
          (sorted_merge comp fuel h₃ (first sx none) (first sy none))
  merged-Chained h h₁ h₂ h₃ fuel c rest x y sx sy m px py e o₁ o₂ o₃ =
      Returns-imp _ (sorted_merge comp fuel h₃ (first sx none) (first sy none)) m λ r k. record {
        start = k.start;
        chain = k.chain;
        outside = λ a out.
            let parts : Apart a ((c ∷ x) ++ y) = rw e out in
            let out_x = All-left _ (c ∷ x) y parts in
            let out_y = All-right _ (c ∷ x) y parts in
            k.outside a (Apart-append a sx sy (px _ out_x) (py _ out_y))
            ∙ o₃ a out_y
            ∙ o₂ a out_x
            ∙ o₁ a out;
      }

  pub merge_sort-Chained :
      (h : Heap E) (fuel : ℕ) (cs : Cells E)
      → length cs + 1 < fuel
      → Linked h cs none
      → Distinct cs
      → Returns (Chained h cs (sort_cells comp fuel cs)) (merge_sort comp fuel h (first cs none))
  unfolding merge_sort sort_cells
  merge_sort-Chained h zero cs lt l u = absurd (omega arith)
  merge_sort-Chained h (suc fuel) [] lt l u = record {
    start = refl;
    chain = tt;
    outside = λ a out. refl;
  }
  merge_sort-Chained h (suc fuel) (c ∷ []) lt l u =
      rw (l.0) (record { start = refl; chain = l; outside = λ a out. refl })
  merge_sort-Chained h (suc fuel) (c ∷ r ∷ rest) lt l u =
      let x = (halves (r ∷ rest) (r ∷ rest)).0 in
      let y = (halves (r ∷ rest) (r ∷ rest)).1 in
      let sx = sort_cells comp fuel (c ∷ x) in
      let sy = sort_cells comp fuel y in
      let both = length-both (r ∷ rest) in
      let front = length-front c r rest in
      let (ux, uy, across) = Distinct-halves comp c (r ∷ rest) u in
      let sorted_across = Across-sort_cells comp fuel fuel (c ∷ x) y across in
      rw (l.0) (
        Returns-bind _ (split_list fuel h (some c.0)) _
          (split_list-Halved h fuel c (r ∷ rest) (omega arith) l u)
          λ (f, b, h₁) m.
            rw (m.front, m.back)
              (Returns-bind _ (merge_sort comp fuel h₁ (some c.0)) _
                (merge_sort-Chained h₁ fuel (c ∷ x) (omega (arith, front)) m.front_chain ux)
                λ (p, h₂) k.
                  Returns-bind _ (merge_sort comp fuel h₂ (first y none)) _
                    (merge_sort-Chained h₂ fuel y (omega (arith, both))
                      (Linked-outside h₁ h₂ (c ∷ x) y none k.outside across m.back_chain) uy)
                    λ (q, h₃) n.
                      rw (k.start, n.start)
                        (merged-Chained h h₁ h₂ h₃ fuel c (r ∷ rest) x y sx sy
                          (sorted_merge-Chained comp h₃ fuel sx sy
                            (omega (
                              arith,
                              length-sort_cells comp fuel (c ∷ x),
                              length-sort_cells comp fuel y,
                              both,
                            ))
                            (Linked-outside h₂ h₃ y sx none n.outside
                              (All-sort_cells comp _ fuel (c ∷ x) (Across-sym (c ∷ x) y across))
                              k.chain)
                            n.chain
                            (Distinct-sort_cells comp fuel (c ∷ x) (omega (arith, front)) ux)
                            (Distinct-sort_cells comp fuel y (omega (arith, both)) uy)
                            sorted_across)
                          (λ P. All-sort_cells comp P fuel (c ∷ x))
                          (λ P. All-sort_cells comp P fuel y) (halves-append (r ∷ rest) (r ∷ rest))
                          m.outside k.outside n.outside)))

  -- The nodes `cs` in a new order, as a ring.
  abbrev pub Sorted : Cells E → Circle E → Type 0
  Sorted cs list = (ms : Cells E) × IsRing list ms × Perm ms cs × IsDescending comp ms

  -- The end of `sort_list`: the last node of the sorted chain is found and made to go on to the
  -- first.
  close_up :
      (list : Circle E) (h h₁ : Heap E) (p : Option ℕ) (cs ms : Cells E)
      → list.curr_size ≡ length ms
      → length ms < 2 ^ 64
      → 0 < length ms
      → Chained h cs ms (p, h₁)
      → Distinct ms
      → Perm ms cs
      → IsDescending comp ms
      → Returns (Sorted cs) (
          walk h₁ p (u64_pred list.curr_size) >>= λ n.
          set_next h₁ n p >>= λ h₂. ok (record list { head = p; last = n; heap = h₂ }))
  close_up list h h₁ p cs [] size small some_nodes k u perm sorted = absurd (omega arith)
  close_up list h h₁ p cs (m ∷ ms) size small some_nodes k u perm sorted =
      let steps : u64_pred list.curr_size ≡ length ms = rw size (omega (arith, small)) in
      rw (steps, k.start, walk-last_of h₁ m ms none k.chain, Linked-last h₁ m ms none k.chain)
        (
          m ∷ ms,
          record {
            size = size;
            small = small;
            distinct = u;
            closed = (refl, refl, Linked-relink h₁ m ms none (some m.0) u k.chain);
          },
          perm,
          sorted,
        )

  -- `sort_list` of a ring with a node returns, and what it returns is a ring of the same nodes in
  -- descending order, each node's data at least the data after it, if the comparison is an order.
  pub sort_list-IsRing :
      (list : Circle E) (c : ℕ × E) (cs : Cells E)
      → IsOrder comp
      → IsRing list (c ∷ cs)
      → Returns (Sorted (c ∷ cs)) (sort_list comp list)
  unfolding sort_list
  sort_list-IsRing list c cs o r =
      let h = list.heap in
      let fuel = length (c ∷ cs) + 2 in
      let end = Linked-last h c cs (some c.0) r.closed.2 in
      let unlinked = Linked-relink h c cs (some c.0) none r.distinct r.closed.2 in
      let h₀ = write h (last_of c cs).0 (some (cell (last_of c cs).1 none)) in
      let same = length-sort_cells comp fuel (c ∷ cs) in
      rw (r.closed.0, r.closed.1, end, r.size)
        (Returns-bind _ (merge_sort comp fuel h₀ (some c.0)) _
          (merge_sort-Chained h₀ fuel (c ∷ cs) (omega arith) unlinked r.distinct)
          λ (p, h₁) k. rw (sym r.size) (
            close_up list h₀ h₁ p (c ∷ cs) (sort_cells comp fuel (c ∷ cs)) (r.size ∙ sym same)
              (omega (arith, same, r.small)) (omega (arith, same)) k
              (Distinct-sort_cells comp fuel (c ∷ cs) (omega arith) r.distinct)
              (sort_cells-Perm comp fuel (c ∷ cs))
              (sort_cells-IsDescending comp o fuel (c ∷ cs) (omega arith))))
