-- ===== src/Graph/Edges.antt =====
-- What find_edge of graph.c answers after addEdge.
use basic_jqr.Base.{
  ℕ, ◌<◌, ◌≡◌, ◌≢◌, refl, ◌∙◌, Bool, true, false, ◌&&◌, Option, some, List, [], ◌∷◌, arith, length,
  length-set, get_elem?, get_elem?-set_self, get_elem?-set_ne, get_elem?_total, set, ltb, ◌==◌,
  ==_iff, if◌then◌else◌, Bool-cases, inl, inr, Outcome, ok, Returns, ◌>>=◌, deref, ℤ, pos, negsuc,
}
use basic_jqr.Graph.{AdjListNode, Graph, int_eq, add_last, add_edge, edge_in, find_edge}

module _ {E : Type 0} where
  edge_in-add_last :
      (l : List (AdjListNode E)) (n : AdjListNode E) (b : ℤ)
      → edge_in (add_last l n) b ≡ (if int_eq n.dest b then true else edge_in l b)
  unfolding add_last edge_in
  edge_in-add_last [] n b = refl
  edge_in-add_last (m ∷ l) n b = elim (Bool-cases (int_eq m.dest b)) [
    | inl e ↦ rw e (both (int_eq n.dest b))
    | inr e ↦ rw e (edge_in-add_last l n b)
  ]
    where
      both : (c : Bool) → true ≡ (if c then true else true)
      both true = refl
      both false = refl

  -- The answer of `find_edge` once the vertices are in range.
  unfoldable pub answer : List (List (AdjListNode E)) → ℕ → ℕ → Outcome ℤ
  answer array a b =
      deref (get_elem? array a) >>= λ l. ok (if edge_in l (pos b) then pos 0 else negsuc 0)

  answer-set :
      (array : List (List (AdjListNode E))) (v : ℕ) (l : List (AdjListNode E)) (n : AdjListNode E)
      (a b : ℕ)
      → get_elem? array v ≡ some l
      → v < length array
      → answer (set array v (add_last l n)) a b
        ≡ (if (a == v) && int_eq n.dest (pos b) then ok (pos 0) else answer array a b)
  unfolding answer
  answer-set array v l n a b at lt = elim (Bool-cases (a == v)) [
    | inl e ↦
        let same : a ≡ v = (==_iff a v).0 e in
        let self : get_elem? (set array v (add_last l n)) a ≡ some (add_last l n) =
          rw same (get_elem?-set_self array v (add_last l n) lt) in
        let old : get_elem? array a ≡ some l = rw same at in
        rw (e, self, old, edge_in-add_last l n (pos b))
          (split (int_eq n.dest (pos b)) (edge_in l (pos b)))
    | inr e ↦
        let apart : v ≢ a = λ q. ground (arith, e, q) in
        rw (e, get_elem?-set_ne array v a (add_last l n) apart) refl
  ]
    where
      split :
          (c d : Bool)
          → ok (if (if c then true else d) then pos 0 else negsuc 0)
            ≡ (if c then ok (pos 0) else ok (if d then pos 0 else negsuc 0))
      split true d = refl
      split false d = refl

  pub find_edge-answer :
      (g : Graph E) (a b : ℕ)
      → a < g.size
      → b < g.size
      → find_edge (some g) (pos a) (pos b) ≡ answer g.array a b
  unfolding find_edge answer
  find_edge-answer g a b lt lt' =
      let in_a : ltb a g.size ≡ true = ground arith in
      let in_b : ltb b g.size ≡ true = ground arith in rw (in_a, in_b) refl

  -- `addEdge` between two vertices of the graph, with memory, returns, and then `find_edge` finds
  -- the new edge in both directions and otherwise answers as before, for every two vertices.
  pub find_edge-add_edge :
      (g : Graph E) (src dest : ℕ) (src_data des_data : Option E) (weight : ℤ) (a b : ℕ)
      → length g.array ≡ g.size
      → src < g.size
      → dest < g.size
      → a < g.size
      → b < g.size
      → Returns
          (λ g'.
            (length g'.array ≡ g'.size)
            × (find_edge (some g') (pos a) (pos b) ≡ (
                if (a == dest) && (src == b)
                then ok (pos 0)
                else (if (a == src) && (dest == b)
                    then ok (pos 0)
                    else find_edge (some g) (pos a) (pos b)))))
          (add_edge true g (pos src) (pos dest) src_data des_data weight)
  unfolding add_edge
  find_edge-add_edge g src dest sd dd w a b shape lt_src lt_dest lt_a lt_b =
      let (l, at) = get_elem?_total g.array src (omega arith) in
      let n : AdjListNode E = record { dest = pos dest; datum = dd; weight = w } in
      let n' : AdjListNode E = record { dest = pos src; datum = sd; weight = w } in
      let half = set g.array src (add_last l n) in
      let long : length half ≡ length g.array = length-set g.array src (add_last l n) in
      let (l', at') = get_elem?_total half dest (omega (arith, long)) in
      let long' : length (set half dest (add_last l' n')) ≡ g.size =
        length-set half dest (add_last l' n') ∙ long ∙ shape in
      let g' : Graph E = record g { array = set half dest (add_last l' n') } in
      rw (at, at')
        (
          long',
          find_edge-answer g' a b lt_a lt_b
              ∙ answer-set half dest l' n' a b at' (omega (arith, long))
              ∙ rw
                  (
                    find_edge-answer g a b lt_a lt_b,
                    answer-set g.array src l n a b at (omega arith),
                  )
                  refl,
        )
