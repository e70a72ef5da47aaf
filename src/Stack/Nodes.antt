-- ===== src/Stack/Nodes.antt =====
-- The stack of stack.c as the list of its nodes, the top first.
use basic_jqr.Base.{
  ℕ, zero, suc, ◌+◌, ◌^◌, ◌<◌, ◌≡◌, refl, sym, ◌∙◌, false, Option, none, some, [], ◌∷◌, ◌++◌, arith,
  length, length-append, All-append, All-left, All-right, ltb, ◌==◌, ok, fault, Returns,
  Returns-bind, ◌>>=◌, pos, u64_pred,
}
use basic_jqr.Heap.{cell, Heap, write, walk}
use basic_jqr.Heap.Linked.{
  Cells, first, Linked, Apart, Distinct, write_self, write_ne, Linked-write, Linked-left,
  Linked-right, Linked-append, walk-Linked, Distinct-right, Distinct-Apart,
}
use basic_jqr.Stack.{Stack, new_node, push, pop, find, pop_nth}

module _ {E : Type 0} where
  -- The stack is a chain of just these nodes.
  pub record IsStack (s : Stack E) (cs : Cells E) : Type 0 where
    pub size : s.size ≡ length cs
    pub small : length cs < 2 ^ 64
    pub root : s.root ≡ first cs none
    pub distinct : Distinct cs
    pub linked : Linked s.heap cs none

  abbrev pub StackOf : Cells E → Option (Stack E) → Type 0
  StackOf cs none = ⊥
  StackOf cs (some s) = IsStack s cs

  -- No node is at that address.
  abbrev pub FreedIn : ℕ → Option (Stack E) → Type 0
  FreedIn a none = ⊥
  FreedIn a (some s) = s.heap a ≡ none

  -- `push` of data, with memory, returns 0 and the stack with the new node on top.
  push-IsStack :
      (s : Stack E) (cs : Cells E) (d : E) (a : ℕ)
      → IsStack s cs
      → Apart a cs
      → length cs + 1 < 2 ^ 64
      → Returns (λ (s', code). IsStack s' ((a, d) ∷ cs) × (code ≡ pos 0)) (push s (some d) (some a))
  unfolding push new_node
  push-IsStack s cs d a k apart room = rw (write_self s.heap a (some (cell d none))) (
    record {
      size = rw (k.size) (omega (arith, room));
      small = omega (arith, room);
      root = refl;
      distinct = (apart, k.distinct);
      linked = (
        rw (k.root) (write_self (write s.heap a (some (cell d none))) a _),
        Linked-write _ cs none a _ apart (Linked-write s.heap cs none a _ apart k.linked),
      );
    },
    refl,
  )

  -- `pop` takes the top off and frees its node.
  pop-IsStack :
      (s : Stack E) (c : ℕ × E) (cs : Cells E)
      → IsStack s (c ∷ cs)
      → Returns (λ (s', top). IsStack s' cs × (top ≡ some c.1) × (s'.heap c.0 ≡ none)) (pop s)
  unfolding pop
  pop-IsStack s c cs k =
      let some_nodes : (s.size == 0) ≡ false = rw (k.size) (ground arith) in
      rw (some_nodes, k.root, k.linked.0)
        (
          record {
            size = rw (k.size) (omega (arith, k.small));
            small = omega (arith, k.small);
            root = refl;
            distinct = k.distinct.1;
            linked = Linked-write s.heap cs none c.0 none k.distinct.0 k.linked.1;
          },
          refl,
          write_self s.heap c.0 none,
        )

  -- `push` of data, with memory for a node that is none of the stack's, and onto fewer than 2^64 -
  -- 1 nodes, and then `pop` gives the data back and leaves the nodes that were there; the new node
  -- is free again.
  pub pop-push :
      (s : Stack E) (cs : Cells E) (d : E) (a : ℕ)
      → IsStack s cs
      → Apart a cs
      → length cs + 1 < 2 ^ 64
      → Returns
          (λ (s', top). IsStack s' cs × (top ≡ some d) × (s'.heap a ≡ none))
          (push s (some d) (some a) >>= λ (s', code). pop s')
  pop-push s cs d a k apart room =
      Returns-bind _ (push s (some d) (some a)) _ (push-IsStack s cs d a k apart room)
        λ (s', code) (k', zero_code). pop-IsStack s' (a, d) cs k'

  -- `find` of a number from 1 on gets the data of that node, counted from the top.
  pub find_lem :
      (s : Stack E) (xs ys : Cells E) (c : ℕ × E)
      → IsStack s (xs ++ c ∷ ys)
      → find (some s) (length xs + 1) ≡ ok (some c.1)
  unfolding find
  find_lem s xs ys c k =
      let long = length-append xs (c ∷ ys) in
      let some_nodes : (s.size == 0) ≡ false = rw (k.size) (ground (arith, long)) in
      let inside : ltb s.size (length xs + 1) ≡ false = rw (k.size) (ground (arith, long)) in
      let steps : u64_pred (length xs + 1) ≡ length xs = omega (arith, k.small, long) in
      let there = Linked-right s.heap xs (c ∷ ys) none k.linked in
      rw (some_nodes, inside, steps, k.root, walk-Linked s.heap xs (c ∷ ys) none k.linked, there.0)
        refl

  first-append :
      (xs ys zs : Cells E) (p : ℕ × E) → first (xs ++ p ∷ ys) none ≡ first (xs ++ p ∷ zs) none
  first-append [] ys zs p = refl
  first-append (x ∷ xs) ys zs p = refl

  Distinct-skip :
      (xs ys : Cells E) (p c : ℕ × E) → Distinct (xs ++ p ∷ c ∷ ys) → Distinct (xs ++ p ∷ ys)
  Distinct-skip [] ys p c u = (u.0.1, u.1.1)
  Distinct-skip (x ∷ xs) ys p c u =
      let right = All-right _ xs (p ∷ c ∷ ys) u.0 in
      (
        All-append _ xs (p ∷ ys) (All-left _ xs (p ∷ c ∷ ys) u.0) (right.0, right.1.1),
        Distinct-skip xs ys p c u.1,
      )

  -- `pop_nth` of a number from 2 on takes that node out, counted from the top, and frees it.
  pub pop_nth-IsStack :
      (s : Stack E) (xs ys : Cells E) (p c : ℕ × E)
      → IsStack s (xs ++ p ∷ c ∷ ys)
      → Returns
          (λ (s', d). StackOf (xs ++ p ∷ ys) s' × FreedIn c.0 s' × (d ≡ some c.1))
          (pop_nth (some s) (length xs + 2))
  unfolding pop_nth
  pop_nth-IsStack s xs ys p c k =
      let h = s.heap in
      let long = length-append xs (p ∷ c ∷ ys) in
      let some_nodes : (s.size == 0) ≡ false = rw (k.size) (ground (arith, long)) in
      let inside : ltb s.size (length xs + 2) ≡ false = rw (k.size) (ground (arith, long)) in
      let steps : u64_pred (u64_pred (length xs + 2)) ≡ length xs = omega (arith, k.small, long) in
      let there = Linked-right h xs (p ∷ c ∷ ys) none k.linked in
      let apart = Distinct-Apart xs (p ∷ c ∷ ys) k.distinct in
      let other = Distinct-right xs (p ∷ c ∷ ys) k.distinct in
      let past = write h p.0 (some (cell p.1 (first ys none))) in
      let still : past c.0 ≡ some (cell c.1 (first ys none)) =
        write_ne h p.0 c.0 _ other.0.0 ∙ there.1.0 in
      rw
        (
          some_nodes,
          inside,
          steps,
          k.root,
          walk-Linked h xs (p ∷ c ∷ ys) none k.linked,
          there.0,
          there.1.0,
          still,
        )
        (
          record {
            size = rw (k.size) (omega (arith, k.small, long, length-append xs (p ∷ ys)));
            small = omega (arith, k.small, long, length-append xs (p ∷ ys));
            root = first-append xs (c ∷ ys) ys p;
            distinct = Distinct-skip xs ys p c k.distinct;
            linked =
                Linked-append _ xs (p ∷ ys) none
                  (Linked-write past xs (some p.0) c.0 none apart.1.0 (
                    Linked-write h xs (some p.0) p.0 _ apart.0
                      (Linked-left h xs (p ∷ c ∷ ys) none k.linked)))
                  (
                    write_ne past c.0 p.0 none (λ e. other.0.0 (sym e)) ∙ write_self h p.0 _,
                    Linked-write past ys none c.0 none other.1.0
                        (Linked-write h ys none p.0 _ other.0.1 there.1.1),
                  );
          },
          write_self past c.0 none,
          refl,
        )

  walk_off :
      (h : Heap E) (cs : Cells E) (n : ℕ)
      → Linked h cs none
      → length cs < n
      → walk h (first cs none) n ≡ fault
  unfolding walk
  walk_off h cs zero l lt = absurd (omega arith)
  walk_off h [] (suc n) l lt = refl
  walk_off h (c ∷ cs) (suc n) l lt = rw (l.0) (walk_off h cs n l.1 (omega arith))

  pop_nth_off :
      (s : Stack E) (c : ℕ × E) (cs : Cells E) (n : ℕ)
      → IsStack s (c ∷ cs)
      → n ≡ 1
      → length (c ∷ cs) + 2 < 2 ^ 64
      → pop_nth (some s) n ≡ fault
  unfolding pop_nth
  pop_nth_off s c cs n k e room =
      let some_nodes : (s.size == 0) ≡ false = rw (k.size) (ground arith) in
      let inside : ltb s.size n ≡ false = rw (k.size) (ground arith) in
      let off =
        walk_off s.heap (c ∷ cs) (u64_pred (u64_pred n)) k.linked (omega (arith, e, room)) in
      rw (some_nodes, inside, k.root, off) refl

  find_off :
      (s : Stack E) (c : ℕ × E) (cs : Cells E) (n : ℕ)
      → IsStack s (c ∷ cs)
      → n ≡ 0
      → length (c ∷ cs) + 2 < 2 ^ 64
      → find (some s) n ≡ fault
  unfolding find
  find_off s c cs n k e room =
      let some_nodes : (s.size == 0) ≡ false = rw (k.size) (ground arith) in
      let inside : ltb s.size n ≡ false = rw (k.size) (ground arith) in
      let off = walk_off s.heap (c ∷ cs) (u64_pred n) k.linked (omega (arith, e, room)) in
      rw (some_nodes, inside, k.root, off) refl

  -- `pop_nth` of 1, the top, and `find` of 0 follow NULL, if the stack is not empty and has fewer
  -- than 2^64 - 2 nodes: the bound of their loop wraps below 0.
  pop_nth-first :
      (s : Stack E) (c : ℕ × E) (cs : Cells E)
      → IsStack s (c ∷ cs)
      → length (c ∷ cs) + 2 < 2 ^ 64
      → (pop_nth (some s) 1 ≡ fault) × (find (some s) 0 ≡ fault)
  pop_nth-first s c cs k room = (pop_nth_off s c cs 1 k refl room, find_off s c cs 0 k refl room)
