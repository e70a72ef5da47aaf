-- ===== src/Circle/Broken.antt =====
-- The operations of circle_link.c that do not keep the ring: what they leave.
use basic_jqr.Base.{ℕ, ◌≡◌, refl, none, some, ◌∷◌, arith, length, Returns, u64_pred}
use basic_jqr.Heap.{cell, write}
use basic_jqr.Heap.Linked.{
  Cells, Linked, last_of, write_self, walk-last_of, Linked-last, Linked-relink,
}
use basic_jqr.Circle.{Circle, remove_back}
use basic_jqr.Circle.Ring.{IsRing}

module _ {E : Type 0} where
  -- `remove_back` of a ring with a node returns the last node, but it leaves that node in the list:
  -- it is still `last`, the nodes are the same as before, only the count is less, and NULL is
  -- behind the last one, so the ring is open.
  pub remove_back_open :
      (list : Circle E) (c : ℕ × E) (cs : Cells E)
      → IsRing list (c ∷ cs)
      → Returns
          (λ (list', node).
            (node ≡ some (last_of c cs).0)
            × (list'.last ≡ node)
            × (list'.head ≡ some c.0)
            × (list'.curr_size ≡ length cs)
            × Linked list'.heap (c ∷ cs) none)
          (remove_back list)
  unfolding remove_back
  remove_back_open list c cs r =
      let h = list.heap in
      let steps : u64_pred list.curr_size ≡ length cs = rw (r.size) (omega (arith, r.small)) in
      let end = Linked-last h c cs (some c.0) r.closed.2 in
      let closed = Linked-relink h c cs (some c.0) (some c.0) r.distinct r.closed.2 in
      let same = write h (last_of c cs).0 (some (cell (last_of c cs).1 (some c.0))) in
      rw
        (
          r.closed.0,
          r.closed.1,
          steps,
          walk-last_of h c cs (some c.0) r.closed.2,
          end,
          write_self h (last_of c cs).0 (some (cell (last_of c cs).1 (some c.0))),
        )
        (refl, refl, refl, refl, Linked-relink same c cs (some c.0) none r.distinct closed)
