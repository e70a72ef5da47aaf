-- ===== src/Dijkstra/Blind.antt =====
-- dijkstra.c relaxes no edge: find_data is given an edge where the queue holds vertices, so that
-- the lower half of a pointer is compared with the distances.
use basic_jqr.Base.{
  ℕ, zero, suc, ◌+◌, ◌-◌, ◌%◌, ◌^◌, ◌≤◌, ◌<◌, ◌≡◌, ◌≢◌, refl, sym, ap, ◌∙◌, subst, true, false,
  Option, none, some, List, [], ◌∷◌, ◌++◌, append_assoc, arith, length, length-append, get_elem?,
  get_elem?_total, set, replicate, All, All-imp, ltb, ◌==◌, if◌then◌else◌, Bool-cases, ◌⊎◌, inl,
  inr, ok, Returns, Returns-bind, Returns-imp, ◌>>=◌, pos, negsuc,
}
use basic_jqr.PQueue.{PQueue, enqueue, dequeue, find_data}
use basic_jqr.PQueue.Order.{get_elem?-append, set-append, IsQueue, QueueOf, place, length-place}
use basic_jqr.PQueue.Enqueue.{enqueue-IsQueue, dequeue-IsQueue}
use basic_jqr.PQueue.Drain.{All-place}
use basic_jqr.PQueue.Find.{find_data-false}
use basic_jqr.Graph.{AdjListNode, Graph}
use basic_jqr.Dijkstra.{
  MinHeapNode, new_min_heap_node, int_max, num_comp, Search, put_vertices, print_arr, as_heap_node,
  crawl, search_loop,
}

-- Two distances compare as equal only if they are.
num_comp-ne :
    (a b : MinHeapNode) → a.dist < 2 ^ 32 → b.dist < 2 ^ 32 → a.dist ≢ b.dist → num_comp a b ≢ pos 0
unfolding num_comp
num_comp-ne a b la lb ne e =
    elim (Bool-cases (ltb ((a.dist + 2 ^ 32 - b.dist) % 2 ^ 32) (2 ^ 31))) [
      | inl f ↦
          let e' : pos ((a.dist + 2 ^ 32 - b.dist) % 2 ^ 32) ≡ pos 0 = rw f at e in
          let z : (a.dist + 2 ^ 32 - b.dist) % 2 ^ 32 ≡ 0 = cc in ne (omega (arith, z, la, lb))
      | inr f ↦
          let e' : negsuc (2 ^ 32 - 1 - (a.dist + 2 ^ 32 - b.dist) % 2 ^ 32) ≡ pos 0 = rw f at e in
          cc
    ]

length-snoc : (xs : List (Option ℕ)) (x : Option ℕ) → length (xs ++ x ∷ []) ≡ length xs + 1
length-snoc xs x = omega (arith, length-append xs (x ∷ []))

-- A vertex of the graph at its first distance.
pub record IsFresh (n : ℕ) (node : MinHeapNode) : Type 0 where
  pub inside : node.v < n
  pub first : (node.dist ≡ 0) ⊎ (node.dist ≡ int_max)

abbrev pub first_dist : ℕ → ℕ → ℕ
first_dist v src = if v == src then 0 else int_max

-- What the queue holds: at most `m` vertices at their first distances.
abbrev pub Fresh : ℕ → ℕ → Option (PQueue MinHeapNode) → Type 0
Fresh n m pq = (es : List MinHeapNode) × QueueOf es pq × All (IsFresh n) es × (length es ≤ m)

first_dist-cases : (v src : ℕ) → (first_dist v src ≡ 0) ⊎ (first_dist v src ≡ int_max)
first_dist-cases v src = elim (Bool-cases (v == src)) [
  | inl e ↦ inl (rw e refl)
  | inr e ↦ inr (rw e refl)
]

module _ {E : Type 0} where
  -- `dist` once the queue is filled, from vertex `v` on.
  abbrev pub first_dists : List (List (AdjListNode E)) → ℕ → ℕ → List (Option ℕ)
  first_dists [] v src = []
  first_dists ([] ∷ ls) v src = none ∷ first_dists ls (v + 1) src
  first_dists ((e ∷ l) ∷ ls) v src = some (first_dist v src) ∷ first_dists ls (v + 1) src

  -- The table of it.
  unfoldable pub first_table : List (List (AdjListNode E)) → ℕ → ℕ → List (ℕ × ℕ)
  first_table [] v src = []
  first_table ([] ∷ ls) v src = first_table ls (v + 1) src
  first_table ((e ∷ l) ∷ ls) v src = (v, first_dist v src) ∷ first_table ls (v + 1) src

  pub print_arr-first_table :
      (ls : List (List (AdjListNode E))) (src i : ℕ) (pre dist : List (Option ℕ))
      → i ≡ length pre
      → dist ≡ pre ++ first_dists ls i src
      → print_arr ls i dist ≡ ok (first_table ls i src)
  unfolding print_arr first_table
  print_arr-first_table [] src i pre dist len e = refl
  print_arr-first_table ([] ∷ ls) src i pre dist len e =
      print_arr-first_table ls src (i + 1) (pre ++ none ∷ []) dist
        (ap (λ n. n + 1) len ∙ sym (length-snoc pre none))
        (e ∙ sym (append_assoc pre (none ∷ []) (first_dists ls (i + 1) src)))
  print_arr-first_table ((x ∷ l) ∷ ls) src i pre dist len e =
      let here : get_elem? dist i ≡ some (some (first_dist i src)) =
        rw (e, len) (get_elem?-append pre _ (some (first_dist (length pre) src))) in
      rw
        (
          here,
          print_arr-first_table ls src (i + 1) (pre ++ some (first_dist i src) ∷ []) dist
              (ap (λ n. n + 1) len ∙ sym (length-snoc pre _))
              (e
                ∙ sym
                    (append_assoc pre (some (first_dist i src) ∷ []) (first_dists ls (i + 1) src))),
        )
        refl

  pub put_vertices-Fresh :
      (ls : List (List (AdjListNode E))) (v src n m : ℕ) (pre dist : List (Option ℕ))
      (pq : Option (PQueue MinHeapNode)) (es : List MinHeapNode)
      → QueueOf es pq
      → All (IsFresh n) es
      → v ≡ length pre
      → dist ≡ pre ++ replicate (length ls) none
      → v + length ls ≤ n
      → length es + length ls ≤ m
      → m < 2 ^ 30
      → Returns
          (λ (dist', pq'). (dist' ≡ pre ++ first_dists ls v src) × Fresh n m pq')
          (put_vertices ls v src dist pq)
  unfolding put_vertices
  put_vertices-Fresh [] v src n m pre dist pq es q fresh len e inside room small =
      (e, (es, q, fresh, omega (arith, room)))
  put_vertices-Fresh ([] ∷ ls) v src n m pre dist pq es q fresh len e inside room small =
      Returns-imp _ (put_vertices ls (v + 1) src dist pq)
        (put_vertices-Fresh ls (v + 1) src n m (pre ++ none ∷ []) dist pq es q fresh
          (ap (λ k. k + 1) len ∙ sym (length-snoc pre none))
          (e ∙ sym (append_assoc pre (none ∷ []) (replicate (length ls) none)))
          (omega (arith, inside)) (omega (arith, room)) small)
        λ (dist', pq') (f, g). (f ∙ append_assoc pre (none ∷ []) (first_dists ls (v + 1) src), g)
  put_vertices-Fresh ((x ∷ l) ∷ ls) v src n m pre dist none es q fresh len e inside room small =
      absurd q
  put_vertices-Fresh ((x ∷ l) ∷ ls) v src n m pre dist (some pq) es q fresh len e inside room
        small =
      let d = first_dist v src in
      let node = new_min_heap_node v d in
      let written : set dist v (some d) ≡ pre ++ some d ∷ replicate (length ls) none =
        rw (e, len)
          (set-append pre (replicate (length ls) none) none (some (first_dist (length pre) src))) in
      Returns-bind _ (enqueue num_comp (some pq) (some node) true) _
        (enqueue-IsQueue num_comp pq node es q (omega (arith, room, small)))
        λ (pq', added) (q', at).
          Returns-imp _ (put_vertices ls (v + 1) src (set dist v (some d)) pq')
            (put_vertices-Fresh ls (v + 1) src n m (pre ++ some d ∷ []) (set dist v (some d)) pq'
              (place num_comp node es) q'
              (All-place num_comp (IsFresh n) node es
                (record { inside = omega (arith, inside); first = first_dist-cases v src }) fresh)
              (ap (λ k. k + 1) len ∙ sym (length-snoc pre (some d)))
              (written ∙ sym (append_assoc pre (some d ∷ []) (replicate (length ls) none)))
              (omega (arith, inside)) (omega (arith, room, length-place num_comp node es)) small)
            λ (dist', pq'') (f, g).
              (f ∙ append_assoc pre (some d ∷ []) (first_dists ls (v + 1) src), g)

module _ {E : Type 0} (address : Option E → ℕ) where
  -- The lower half of the pointer to the edge's data is neither of the first distances.
  pub record IsHarmless (e : AdjListNode E) : Type 0 where
    pub not_zero : address e.datum % 2 ^ 32 ≢ 0
    pub not_max : address e.datum % 2 ^ 32 ≢ int_max

  IsFresh-ne :
      (n : ℕ) (e : AdjListNode E) (node : MinHeapNode)
      → IsHarmless e
      → IsFresh n node
      → num_comp (as_heap_node address e) node ≢ pos 0
  IsFresh-ne n e node h f = elim f.first [
    | inl z ↦
        num_comp-ne (as_heap_node address e) node (omega arith) (omega (arith, z))
          (λ q. h.not_zero (q ∙ z))
    | inr z ↦
        num_comp-ne (as_heap_node address e) node (omega arith) (omega (arith, z))
          (λ q. h.not_max (q ∙ z))
  ]

  crawl-same :
      (l : List (AdjListNode E)) (u n : ℕ) (s : Search) (pq : PQueue MinHeapNode)
      (es : List MinHeapNode)
      → s.pq ≡ some pq
      → IsQueue pq es
      → All (IsFresh n) es
      → All IsHarmless l
      → crawl address l u s ≡ ok s
  unfolding crawl
  crawl-same [] u n s pq es e q fresh h = refl
  crawl-same (x ∷ l) u n s pq es e q fresh h =
      let missing : find_data num_comp s.pq (some (as_heap_node address x)) ≡ ok false = rw e (
        find_data-false num_comp pq es (as_heap_node address x) q
          (All-imp (λ node f. IsFresh-ne n x node h.0 f) es fresh)) in
      rw missing (crawl-same l u n s pq es e q fresh h.1)

  All-get :
      (P : List (AdjListNode E) → Type 0) (ls : List (List (AdjListNode E))) (i : ℕ)
      (l : List (AdjListNode E))
      → All P ls
      → get_elem? ls i ≡ some l
      → P l
  All-get P [] i l a e = absurd (cc)
  All-get P (m ∷ ls) zero l a e = let same : m ≡ l = cc in subst P same a.0
  All-get P (m ∷ ls) (suc i) l a e = All-get P ls i l a.1 e

  pub search_loop-same :
      (fuel : ℕ) (g : Graph E) (pq : Option (PQueue MinHeapNode)) (dist : List (Option ℕ))
      (par : List ℕ) (es : List MinHeapNode)
      → QueueOf es pq
      → All (IsFresh (length g.array)) es
      → All (All IsHarmless) g.array
      → length es < fuel
      → Returns
          (λ s. (s.dist ≡ dist) × (s.par ≡ par))
          (search_loop address fuel g (record { pq = pq; dist = dist; par = par }))
  unfolding search_loop
  search_loop-same zero g pq dist par es q fresh h lt = absurd (omega arith)
  search_loop-same (suc fuel) g none dist par es q fresh h lt = absurd q
  search_loop-same (suc fuel) g (some pq) dist par [] q fresh h lt = rw (q.size) (refl, refl)
  search_loop-same (suc fuel) g (some pq) dist par (node ∷ es) q fresh h lt =
      let some_data : (pq.size == 0) ≡ false = rw (q.size) (ground arith) in
      let (l, at) = get_elem?_total g.array node.v (fresh.0.inside) in
      rw some_data (
        Returns-bind _ (dequeue (some pq)) _ (dequeue-IsQueue pq node es q) λ (pq', top) (q', e).
          rw (e, at)
            (step pq' l q' (All-get (All IsHarmless) g.array node.v l h at)
              (search_loop-same fuel g pq' dist par es q' fresh.1 h (omega (arith, lt)))))
    where
      step :
          (pq' : Option (PQueue MinHeapNode)) (l : List (AdjListNode E))
          → QueueOf es pq'
          → All IsHarmless l
          → Returns
              (λ s. (s.dist ≡ dist) × (s.par ≡ par))
              (search_loop address fuel g (record { pq = pq'; dist = dist; par = par }))
          → Returns
              (λ s. (s.dist ≡ dist) × (s.par ≡ par))
              (crawl address l node.v (record { pq = pq'; dist = dist; par = par }) >>= λ s'.
                search_loop address fuel g s')
      step none l q' a r = absurd q'
      step (some pq') l q' a r =
          rw
            (crawl-same l node.v (length g.array) (record { pq = some pq'; dist = dist; par = par })
              pq' es refl q' fresh.1 a)
            r
