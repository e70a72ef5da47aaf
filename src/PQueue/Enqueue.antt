-- ===== src/PQueue/Enqueue.antt =====
-- enqueue and dequeue of pqueue.c on the list that the queue stands for.
use basic_jqr.Base.{
  ℕ, suc, ◌^◌, ◌≤◌, ◌<◌, ◌≡◌, refl, sym, ap, ◌∙◌, true, false, Option, none, some, List, [], ◌∷◌,
  ◌++◌, append_assoc, arith, length, length-append, length-set, length-replicate, get_elem?, set,
  replicate, ltb, ◌==◌, ok, Returns, ℤ, u64_pred, u64_succ,
}
use basic_jqr.PQueue.{PQueue, pointers_in, create_pqueue, make_room, dequeue, peek, enqueue}
use basic_jqr.PQueue.Order.{
  get_elem?-append, set-append, up, length-up, IsQueue, QueueOf, place, length-place, sift-place,
  to_int_small, pointers_in_small, make_room-HasRoom,
}

-- A new queue for at least two is empty.
pub create_pqueue-IsQueue :
    (E : Type 0) (n : ℕ) → 2 ≤ n → n ≤ 2 ^ 31 → QueueOf {E = E} [] (create_pqueue true true true n)
unfolding create_pqueue
create_pqueue-IsQueue E n le lt = record {
  size = refl;
  rest = replicate (pointers_in n) none;
  queue = refl;
  whole = length-replicate (pointers_in n) none ∙ pointers_in_small n (omega (arith, lt));
  spare = omega (arith, le);
  two = le;
  small = lt;
}

module _ {E : Type 0} where
  length-first :
      (q q' : List (Option E)) (es : List E) (x y : Option E) (rest : List (Option E))
      → q ≡ up es ++ x ∷ rest
      → q' ≡ up es ++ y ∷ rest
      → length q' ≡ length q
  length-first q q' es x y rest e f =
      ap length f
      ∙ length-append (up es) (y ∷ rest)
      ∙ sym (ap length e ∙ length-append (up es) (x ∷ rest))

  -- `dequeue` of a queue that is not empty returns what is first, and the queue of the others.
  pub dequeue-IsQueue :
      (pq : PQueue E) (e : E) (es : List E)
      → IsQueue pq (e ∷ es)
      → Returns (λ (pq', top). QueueOf es pq' × (top ≡ some e)) (dequeue (some pq))
  unfolding dequeue
  dequeue-IsQueue pq e es q =
      let some_data : (pq.size == 0) ≡ false = rw (q.size) (ground arith) in
      let top : u64_pred pq.size ≡ length es = rw (q.size) (omega (arith, q.spare, q.small)) in
      let flat : pq.queue ≡ up es ++ some e ∷ q.rest =
        q.queue ∙ append_assoc (up es) (some e ∷ []) q.rest in
      let at : get_elem? pq.queue (length es) ≡ some (some e) =
        rw flat (rw (sym (length-up es)) (get_elem?-append (up es) q.rest (some e))) in
      let cleared : set pq.queue (length es) none ≡ up es ++ none ∷ q.rest =
        rw flat (rw (sym (length-up es)) (set-append (up es) q.rest (some e) none)) in
      let inside : ltb (length es) (length pq.queue) ≡ true = ground (arith, q.spare, q.whole) in
      rw (some_data, top, at, inside)
        (
          record {
            size = refl;
            rest = none ∷ q.rest;
            queue = cleared;
            whole = length-set pq.queue (length es) none ∙ q.whole;
            spare = omega (arith, q.spare);
            two = q.two;
            small = q.small;
          },
          refl,
        )

  -- `peek` shows it.
  peek-IsQueue :
      (pq : PQueue E) (e : E) (es : List E) → IsQueue pq (e ∷ es) → peek (some pq) ≡ ok (some e)
  unfolding peek
  peek-IsQueue pq e es q =
      let some_data : (pq.size == 0) ≡ false = rw (q.size) (ground arith) in
      let top : u64_pred pq.size ≡ length es = rw (q.size) (omega (arith, q.spare, q.small)) in
      let flat : pq.queue ≡ up es ++ some e ∷ q.rest =
        q.queue ∙ append_assoc (up es) (some e ∷ []) q.rest in
      let at : get_elem? pq.queue (length es) ≡ some (some e) =
        rw flat (rw (sym (length-up es)) (get_elem?-append (up es) q.rest (some e))) in
      rw (some_data, top, at) refl

module _ {E : Type 0} (comp : E → E → ℤ) where
  enqueue_first :
      (pq : PQueue E) (d : E)
      → IsQueue pq []
      → Returns
          (λ (pq', added). QueueOf (d ∷ []) pq' × (added ≡ true))
          (enqueue comp (some pq) (some d) true)
  unfolding enqueue
  enqueue_first pq d q =
      let inside : ltb 0 (length pq.queue) ≡ true = ground (arith, q.spare, q.whole) in
      rw (q.size, inside) (go q.rest q.queue, refl)
    where
      go :
          (rest : List (Option E))
          → pq.queue ≡ rest
          → IsQueue (record pq { queue = set pq.queue 0 (some d); size = 1 }) (d ∷ [])
      go [] e = absurd (omega (arith, ap length e, q.whole, q.spare))
      go (x ∷ rest) e = record {
        size = refl;
        rest = rest;
        queue = rw e refl;
        whole = length-set pq.queue 0 (some d) ∙ q.whole;
        spare = omega (arith, q.two);
        two = q.two;
        small = q.small;
      }

  -- `enqueue` of data into a queue of fewer than 2^30, if there is memory to double the array,
  -- returns true and the queue with the data in its place.
  pub enqueue-IsQueue :
      (pq : PQueue E) (d : E) (es : List E)
      → IsQueue pq es
      → length es < 2 ^ 30
      → Returns
          (λ (pq', added). QueueOf (place comp d es) pq' × (added ≡ true))
          (enqueue comp (some pq) (some d) true)
  unfolding enqueue
  enqueue-IsQueue pq d [] q le = unfold place in enqueue_first pq d q
  enqueue-IsQueue pq d (e ∷ es) q le =
      let some_data : (pq.size == 0) ≡ false = rw (q.size) (ground arith) in
      let roomy = make_room true pq in
      let r = make_room-HasRoom pq (e ∷ es) q le (omega arith) in
      let inside : ltb (suc (length es)) (length roomy.queue) ≡ true =
        ground (arith, r.spare, r.whole) in
      let next : u64_succ (suc (length es)) ≡ suc (suc (length es)) =
        omega (arith, r.spare, r.small) in
      let back : u64_pred (suc (suc (length es))) ≡ suc (length es) =
        omega (arith, r.spare, r.small) in
      let count = to_int_small (suc (length es)) (omega (arith, r.spare, r.small)) in
      let there : set roomy.queue (suc (length es)) (some d) ≡ up (e ∷ es) ++ some d ∷ r.rest =
        rw (r.queue)
          (rw (sym (length-up (e ∷ es))) (set-append (up (e ∷ es)) r.rest r.slot (some d))) in
      let placed = place comp d (e ∷ es) in
      let whole : length (up placed ++ r.rest) ≡ roomy.max_size = omega (
        arith,
        length-append (up placed) r.rest,
        length-up placed,
        length-place comp d (e ∷ es),
        length-append (up (e ∷ es)) (r.slot ∷ r.rest),
        length-up (e ∷ es),
        ap length r.queue,
        r.whole,
      ) in
      rw (some_data, r.size, inside, next, back, count, there, sift-place comp d (e ∷ es) r.rest)
        (
          record {
            size = sym (length-place comp d (e ∷ es));
            rest = r.rest;
            queue = refl;
            whole = whole;
            spare = omega (arith, length-place comp d (e ∷ es), r.spare);
            two = omega (arith, r.spare);
            small = r.small;
          },
          refl,
        )
