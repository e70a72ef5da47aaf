-- ===== src/Circle/Inside.antt =====
-- insert_at and remove_at of circle_link.c with nodes before and behind the place: they keep the
-- ring.
use basic_jqr.Base.{
  ℕ, ◌+◌, ◌^◌, ◌<◌, ◌≡◌, refl, sym, ap, ◌∙◌, false, none, some, [], ◌∷◌, ◌++◌, arith, length,
  length-append, All-append, All-left, All-right, ◌==◌, Returns, Returns-bind, pos, u64_pred,
}
use basic_jqr.Heap.{cell, write}
use basic_jqr.Heap.Linked.{
  Cells, Linked, Apart, Distinct, last_of, write_self, write_ne, Linked-write, Linked-left,
  Linked-right, Linked-append, Linked-last, Apart-last, Linked-relink, walk-last_of, Distinct-left,
  Distinct-right, Distinct-Apart,
}
use basic_jqr.Circle.{Circle, push_at, insert_at, remove_at}
use basic_jqr.Circle.Ring.{IsRing, RingOf}
use basic_jqr.Circle.Merge.{Apart-end}

module _ {E : Type 0} where
  last_of-append :
      (c : ℕ × E) (xs : Cells E) (y : ℕ × E) (ys : Cells E)
      → last_of c (xs ++ y ∷ ys) ≡ last_of y ys
  last_of-append c [] y ys = refl
  last_of-append c (x ∷ xs) y ys = last_of-append x xs y ys

  Distinct-insert :
      (xs ys : Cells E) (a : ℕ) (d : E)
      → Distinct (xs ++ ys)
      → Apart a (xs ++ ys)
      → Distinct (xs ++ (a, d) ∷ ys)
  Distinct-insert [] ys a d u out = (out, u)
  Distinct-insert (x ∷ xs) ys a d u out = (
    All-append _ xs ((a, d) ∷ ys) (All-left _ xs ys u.0)
        ((λ e. out.0 (sym e)), All-right _ xs ys u.0),
    Distinct-insert xs ys a d u.1 out.1,
  )

  Distinct-skip : (xs ys : Cells E) (c : ℕ × E) → Distinct (xs ++ c ∷ ys) → Distinct (xs ++ ys)
  Distinct-skip [] ys c u = u.1
  Distinct-skip (x ∷ xs) ys c u = (
    All-append _ xs ys (All-left _ xs (c ∷ ys) u.0) (All-right _ xs (c ∷ ys) u.0).1,
    Distinct-skip xs ys c u.1,
  )

  push_at-IsRing :
      (list : Circle E) (c y : ℕ × E) (xs ys : Cells E) (d : E) (a : ℕ)
      → IsRing list ((c ∷ xs) ++ y ∷ ys)
      → Apart a ((c ∷ xs) ++ y ∷ ys)
      → length ((c ∷ xs) ++ y ∷ ys) + 1 < 2 ^ 64
      → Returns
          (λ list'. IsRing list' ((c ∷ xs) ++ (a, d) ∷ y ∷ ys))
          (push_at list d (length xs + 1) a)
  unfolding push_at
  push_at-IsRing list c y xs ys d a r out room =
      let stop = some c.0 in
      let front = c ∷ xs in
      let back = y ∷ ys in
      let h₀ = write list.heap a (some (cell d none)) in
      let l₀ : Linked h₀ (front ++ back) stop =
        Linked-write list.heap (front ++ back) stop a _ out r.closed.2 in
      let long = length-append xs back in
      let steps : u64_pred (length xs + 1) ≡ length xs = omega (arith, r.small, long) in
      let left = Linked-left h₀ front back stop l₀ in
      let end = last_of c xs in
      let at_end = Linked-last h₀ c xs (some y.0) left in
      let out_front = All-left _ front back out in
      let out_back = All-right _ front back out in
      let apart = Apart-last a c xs out_front in
      let h₁ = write h₀ a (some (cell d (some y.0))) in
      let left₁ = Linked-write h₀ front (some y.0) a (some (cell d (some y.0))) out_front left in
      let at_end₁ = Linked-last h₁ c xs (some y.0) left₁ in
      let back₁ =
        Linked-write h₀ back stop a (some (cell d (some y.0))) out_back
          (Linked-right h₀ front back stop l₀) in
      let longer = length-append xs ((a, d) ∷ back) in
      rw
        (
          r.closed.0,
          steps,
          walk-last_of h₀ c xs (some y.0) left,
          at_end,
          write_self list.heap a (some (cell d none)),
          at_end₁,
        )
        (record {
          size = rw (r.size) (omega (arith, room, long, longer));
          small = omega (arith, room, long, longer);
          distinct = Distinct-insert front back a d r.distinct out;
          closed = (
            refl,
            r.closed.1
                ∙ ap (λ x. some x.0)
                    (last_of-append c xs y ys ∙ sym (last_of-append c xs (a, d) back)),
            Linked-append _ front ((a, d) ∷ back) stop
                (Linked-relink h₁ c xs (some y.0) (some a) (Distinct-left front back r.distinct)
                  left₁)
                (
                  write_ne h₁ end.0 a _ (λ e. apart (sym e))
                      ∙ write_self h₀ a (some (cell d (some y.0))),
                  Linked-write h₁ back stop end.0 _
                      (Apart-end c xs back (Distinct-Apart front back r.distinct)) back₁,
                ),
          );
        })

  -- `insert_at` of data, with memory, at an index from 1 to one less than the number of nodes
  -- returns 0 and the ring with the new node at that index, if the new node is none of the ring's
  -- and the count does not overflow.
  pub insert_at-IsRing :
      (list : Circle E) (c y : ℕ × E) (xs ys : Cells E) (d : E) (a : ℕ)
      → IsRing list ((c ∷ xs) ++ y ∷ ys)
      → Apart a ((c ∷ xs) ++ y ∷ ys)
      → length ((c ∷ xs) ++ y ∷ ys) + 1 < 2 ^ 64
      → Returns
          (λ (list', code). RingOf ((c ∷ xs) ++ (a, d) ∷ y ∷ ys) list' × (code ≡ pos 0))
          (insert_at (some list) (some d) (length xs + 1) (some a))
  unfolding insert_at
  insert_at-IsRing list c y xs ys d a r out room =
      let inside : (length xs + 1 == 0) ≡ false = ground arith in
      rw inside (
        Returns-bind _ (push_at list d (length xs + 1) a) _
          (push_at-IsRing list c y xs ys d a r out room) λ list' r'. (r', refl))

  -- `remove_at` of an index from 1 to two less than the number of nodes returns that node, with
  -- NULL behind it, and the ring of the others.
  pub remove_at-IsRing :
      (list : Circle E) (c x y : ℕ × E) (xs ys : Cells E)
      → IsRing list ((c ∷ xs) ++ x ∷ y ∷ ys)
      → Returns
          (λ (list', node).
            IsRing list' ((c ∷ xs) ++ y ∷ ys)
            × (node ≡ some x.0)
            × (list'.heap x.0 ≡ some (cell x.1 none)))
          (remove_at list (length xs + 1))
  unfolding remove_at
  remove_at-IsRing list c x y xs ys r =
      let h = list.heap in
      let stop = some c.0 in
      let front = c ∷ xs in
      let back = y ∷ ys in
      let long = length-append xs (x ∷ back) in
      let shorter = length-append xs back in
      let steps : u64_pred (length xs + 1) ≡ length xs = omega (arith, r.small, long) in
      let end = last_of c xs in
      let left = Linked-left h front (x ∷ back) stop r.closed.2 in
      let right = Linked-right h front (x ∷ back) stop r.closed.2 in
      let at_end = Linked-last h c xs (some x.0) left in
      let apart = Distinct-Apart front (x ∷ back) r.distinct in
      let own = Distinct-right front (x ∷ back) r.distinct in
      let other = Apart-last x.0 c xs apart.0 in
      let h₁ = write h end.0 (some (cell end.1 (some y.0))) in
      let there : h₁ x.0 ≡ some (cell x.1 (some y.0)) =
        write_ne h end.0 x.0 _ (λ e. other (sym e)) ∙ right.0 in
      rw (r.closed.0, steps, walk-last_of h c xs (some x.0) left, at_end, right.0, there)
        (
          record {
            size = rw (r.size) (omega (arith, r.small, long, shorter));
            small = omega (arith, r.small, long, shorter);
            distinct = Distinct-skip front back x r.distinct;
            closed = (
              refl,
              r.closed.1
                  ∙ ap (λ z. some z.0)
                      (last_of-append c xs x back ∙ sym (last_of-append c xs y ys)),
              Linked-append _ front back stop
                  (Linked-write h₁ front (some y.0) x.0 _ apart.0 (
                    Linked-relink h c xs (some x.0) (some y.0)
                      (Distinct-left front (x ∷ back) r.distinct) left))
                  (Linked-write h₁ back stop x.0 _ own.0
                    (Linked-write h back stop end.0 _ (Apart-end c xs back apart.1) right.1)),
            );
          },
          refl,
          write_self h₁ x.0 _,
        )
