-- ===== src/Circle/Ring.antt =====
-- The ring of circle_link.c: what a list stands for, and the operations that keep it.
use basic_jqr.Base.{
  map, ℕ, ◌+◌, ◌^◌, ◌<◌, ◌≡◌, refl, sym, ap, ◌∙◌, false, Option, none, some, [], ◌∷◌, ◌++◌, arith,
  length, length-append, ◌==◌, ok, Returns, Returns-bind, pos,
}
use basic_jqr.Heap.{cell, Heap, write}
use basic_jqr.Heap.Linked.{
  Cells, first, Linked, Apart, Distinct, last_of, write_self, write_ne, Linked-write, Linked-append,
  Linked-last, Apart-last, Linked-relink, last_of-snoc, Distinct-snoc,
}
use basic_jqr.Circle.{
  Circle, only, push_front, push_back, insert_front, insert_back, remove_front, view_loop,
  view_list,
}

module _ {E : Type 0} where
  -- `head` and `last` are the ends of a chain that closes; both are NULL where there is none.
  abbrev pub IsClosed : Circle E → Cells E → Type 0
  IsClosed list [] = (list.head ≡ none) × (list.last ≡ none)
  IsClosed list (c ∷ cs) =
      (list.head ≡ some c.0)
      × (list.last ≡ some (last_of c cs).0)
      × Linked list.heap (c ∷ cs) (some c.0)

  -- The list is a ring of just these nodes, in this order.
  pub record IsRing (list : Circle E) (cs : Cells E) : Type 0 where
    pub size : list.curr_size ≡ length cs
    pub small : length cs < 2 ^ 64
    pub distinct : Distinct cs
    pub closed : IsClosed list cs

  -- The list that an insertion returns is a ring.
  abbrev pub RingOf : Cells E → Option (Circle E) → Type 0
  RingOf cs none = ⊥
  RingOf cs (some list) = IsRing list cs

  only-IsRing :
      (list : Circle E) (d : E) (a : ℕ) → list.curr_size ≡ 0 → IsRing (only list d a) ((a, d) ∷ [])
  only-IsRing list d a e = record {
    size = rw e (omega arith);
    small = omega arith;
    distinct = (tt, tt);
    closed = (refl, refl, (write_self list.heap a _, tt));
  }

  push_front-IsRing :
      (list : Circle E) (cs : Cells E) (d : E) (a : ℕ)
      → IsRing list cs
      → Apart a cs
      → length cs + 1 < 2 ^ 64
      → Returns (λ list'. IsRing list' ((a, d) ∷ cs)) (push_front list d a)
  unfolding push_front
  push_front-IsRing list [] d a r apart room = rw (r.closed.0) (only-IsRing list d a r.size)
  push_front-IsRing list (c ∷ cs) d a r apart room =
      let new = write list.heap a (some (cell d (some c.0))) in
      let kept : Linked new (c ∷ cs) (some c.0) =
        Linked-write list.heap (c ∷ cs) (some c.0) a _ apart r.closed.2 in
      let end = Linked-last new c cs (some c.0) kept in
      rw (r.closed.0, r.closed.1, end)
        (record {
          size = rw (r.size) (omega arith);
          small = omega arith;
          distinct = (apart, r.distinct);
          closed = (
            refl,
            refl,
            (
              write_ne new _ a _ (λ e. Apart-last a c cs apart (sym e)) ∙ write_self list.heap a _,
              Linked-relink new c cs (some c.0) (some a) r.distinct kept,
            ),
          );
        })

  push_back-IsRing :
      (list : Circle E) (cs : Cells E) (d : E) (a : ℕ)
      → IsRing list cs
      → Apart a cs
      → length cs + 1 < 2 ^ 64
      → Returns (λ list'. IsRing list' (cs ++ (a, d) ∷ [])) (push_back list d a)
  unfolding push_back
  push_back-IsRing list [] d a r apart room = rw (r.closed.0) (only-IsRing list d a r.size)
  push_back-IsRing list (c ∷ cs) d a r apart room =
      let new = write list.heap a (some (cell d none)) in
      let kept : Linked new (c ∷ cs) (some c.0) =
        Linked-write list.heap (c ∷ cs) (some c.0) a _ apart r.closed.2 in
      let end = Linked-last new c cs (some c.0) kept in
      let joined = write new (last_of c cs).0 (some (cell (last_of c cs).1 (some a))) in
      let there : joined a ≡ some (cell d none) =
        write_ne new _ a _ (λ e. Apart-last a c cs apart (sym e)) ∙ write_self list.heap a _ in
      rw (r.closed.0, r.closed.1, end, there)
        (record {
          size = rw (r.size) (omega (arith, length-append cs ((a, d) ∷ [])));
          small = omega (arith, length-append cs ((a, d) ∷ []));
          distinct = Distinct-snoc (c ∷ cs) a d r.distinct apart;
          closed = (
            refl,
            ap (λ x. some x.0) (sym (last_of-snoc c cs (a, d))),
            Linked-append _ (c ∷ cs) ((a, d) ∷ []) (some c.0)
                (Linked-write joined (c ∷ cs) (some a) a _ apart
                  (Linked-relink new c cs (some c.0) (some a) r.distinct kept))
                (write_self joined a _, tt),
          );
        })

  -- `insert_front` into a ring, with data and memory, returns 0 and the ring with the new node
  -- first, if the new node is none of the ring's and the count does not overflow.
  insert_front-IsRing :
      (list : Circle E) (cs : Cells E) (d : E) (a : ℕ)
      → IsRing list cs
      → Apart a cs
      → length cs + 1 < 2 ^ 64
      → Returns
          (λ (list', code). RingOf ((a, d) ∷ cs) list' × (code ≡ pos 0))
          (insert_front (some list) (some d) (some a))
  unfolding insert_front
  insert_front-IsRing list cs d a r apart room =
      Returns-bind _ (push_front list d a) _ (push_front-IsRing list cs d a r apart room)
        λ list' r'. (r', refl)

  -- `insert_back` into a ring, with data and memory, returns 0 and the ring with the new node
  -- last, if the new node is none of the ring's and the count does not overflow.
  pub insert_back-IsRing :
      (list : Circle E) (cs : Cells E) (d : E) (a : ℕ)
      → IsRing list cs
      → Apart a cs
      → length cs + 1 < 2 ^ 64
      → Returns
          (λ (list', code). RingOf (cs ++ (a, d) ∷ []) list' × (code ≡ pos 0))
          (insert_back (some list) (some d) (some a))
  unfolding insert_back
  insert_back-IsRing list cs d a r apart room =
      Returns-bind _ (push_back list d a) _ (push_back-IsRing list cs d a r apart room)
        λ list' r'. (r', refl)

  -- `remove_front` from a ring of two nodes or more returns the first node, with NULL behind it,
  -- and the ring of the others.
  remove_front-IsRing :
      (list : Circle E) (c x : ℕ × E) (cs : Cells E)
      → IsRing list (c ∷ x ∷ cs)
      → Returns
          (λ (list', node).
            IsRing list' (x ∷ cs) × (node ≡ some c.0) × (list'.heap c.0 ≡ some (cell c.1 none)))
          (remove_front list)
  unfolding remove_front
  remove_front-IsRing list c x cs r =
      let h = list.heap in
      let end = Linked-last h x cs (some c.0) r.closed.2.1 in
      let other = Apart-last c.0 x cs r.distinct.0 in
      let joined = write h (last_of x cs).0 (some (cell (last_of x cs).1 (some x.0))) in
      let there : joined c.0 ≡ some (cell c.1 (some x.0)) =
        write_ne h _ c.0 _ (λ e. other (sym e)) ∙ r.closed.2.0 in
      rw (r.closed.0, r.closed.1, r.closed.2.0, end, there)
        (
          record {
            size = rw (r.size) (omega (arith, r.small));
            small = omega (arith, r.small);
            distinct = r.distinct.1;
            closed = (
              refl,
              refl,
              Linked-write joined (x ∷ cs) (some x.0) c.0 _ r.distinct.0
                  (Linked-relink h x cs (some c.0) (some x.0) r.distinct.1 r.closed.2.1),
            );
          },
          refl,
          write_self joined c.0 _,
        )

  view_loop-Linked :
      (h : Heap E) (cs : Cells E) (stop : Option ℕ)
      → Linked h cs stop
      → view_loop h (length cs) (first cs stop) ≡ ok (map (λ c. c.1) cs)
  unfolding view_loop
  view_loop-Linked h [] stop l = refl
  view_loop-Linked h (c ∷ cs) stop l = rw (l.0, view_loop-Linked h cs stop l.1)

  -- `view_list` prints the data of a ring once, in the order of its nodes.
  pub view_list-map :
      (list : Circle E) (cs : Cells E)
      → IsRing list cs
      → view_list (some list) ≡ ok (map (λ c. c.1) cs)
  unfolding view_list
  view_list-map list [] r = rw (r.size)
  view_list-map list (c ∷ cs) r =
      let some_nodes : (length (c ∷ cs) == 0) ≡ false = ground arith in
      rw (r.size, some_nodes, r.closed.0, view_loop-Linked list.heap (c ∷ cs) (some c.0) r.closed.2)
