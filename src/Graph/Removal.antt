-- ===== src/Graph/Removal.antt =====
-- What find_edge of graph.c answers after remove_node.
use native.Mathlib.Nat.{zero-add}
use basic_jqr.Base.{
  ℕ, zero, suc, ◌+◌, ◌≤◌, ◌<◌, ◌≡◌, ◌≢◌, refl, sym, ap, true, false, Option, none, some, List, [],
  ◌∷◌, arith, length, get_elem?, ltb, ◌||◌, ◌==◌, ==_iff, if◌then◌else◌, Bool-cases, inl, inr, ok,
  Returns, ℤ, pos, negsuc,
}
use basic_jqr.Graph.{
  AdjListNode, Graph, int_eq, drop_edge, remove_from, remove_node, edge_in, find_edge,
}
use basic_jqr.Graph.Edges.{answer, find_edge-answer}

int_eq-ne : (d : ℤ) (v b : ℕ) → b ≢ v → int_eq d (pos v) ≡ true → int_eq d (pos b) ≡ false
int_eq-ne (pos d) v b ne e = ground (arith, ne)
int_eq-ne (negsuc d) v b ne e = refl

module _ {E : Type 0} where
  -- The edges of a list to a vertex.
  abbrev pub edges_to : List (AdjListNode E) → ℕ → ℕ
  edges_to [] v = 0
  edges_to (n ∷ l) v = if int_eq n.dest (pos v) then suc (edges_to l v) else edges_to l v

  edge_in-none : (l : List (AdjListNode E)) (v : ℕ) → edges_to l v ≡ 0 → edge_in l (pos v) ≡ false
  unfolding edge_in
  edge_in-none [] v e = refl
  edge_in-none (n ∷ l) v e = elim (Bool-cases (int_eq n.dest (pos v))) [
    | inl f ↦ let e' : suc (edges_to l v) ≡ 0 = rw f at e in absurd (omega (arith, e'))
    | inr f ↦ let e' : edges_to l v ≡ 0 = rw f at e in rw f (edge_in-none l v e')
  ]

  -- Without the first of them, the vertex is not found any more, if there was no other.
  edge_in-drop_edge :
      (l : List (AdjListNode E)) (v : ℕ)
      → edges_to l v ≤ 1
      → edge_in (drop_edge l (pos v)).1 (pos v) ≡ false
  unfolding edge_in drop_edge
  edge_in-drop_edge [] v le = refl
  edge_in-drop_edge (n ∷ l) v le = elim (Bool-cases (int_eq n.dest (pos v))) [
    | inl f ↦
        let le' : suc (edges_to l v) ≤ 1 = rw f at le in
        rw f (edge_in-none l v (omega (arith, le')))
    | inr f ↦ let le' : edges_to l v ≤ 1 = rw f at le in rw f (rw f (edge_in-drop_edge l v le'))
  ]

  -- Other vertices are found as before.
  edge_in-drop_ne :
      (l : List (AdjListNode E)) (v b : ℕ)
      → b ≢ v
      → edge_in (drop_edge l (pos v)).1 (pos b) ≡ edge_in l (pos b)
  unfolding edge_in drop_edge
  edge_in-drop_ne [] v b ne = refl
  edge_in-drop_ne (n ∷ l) v b ne = elim (Bool-cases (int_eq n.dest (pos v))) [
    | inl f ↦ rw (f, int_eq-ne n.dest v b ne f) refl
    | inr f ↦ rw f (ap (λ x. if int_eq n.dest (pos b) then true else x) (edge_in-drop_ne l v b ne))
  ]

  -- One list after the loop over all of them.
  get_elem?-remove_from :
      (ls : List (List (AdjListNode E))) (i v k : ℕ) (l : List (AdjListNode E))
      → get_elem? ls k ≡ some l
      → get_elem? (remove_from ls i v).1 k
        ≡ some (if i + k == v then [] else (drop_edge l (pos v)).1)
  unfolding remove_from
  get_elem?-remove_from [] i v k l e = absurd (cc)
  get_elem?-remove_from (m ∷ ls) i v zero l e =
      let same : m ≡ l = cc in
      let start : i + 0 ≡ i = omega arith in
      rw start (elim (Bool-cases (i == v)) [ inl f ↦ rw f refl | inr f ↦ rw (f, same) refl ])
  get_elem?-remove_from (m ∷ ls) i v (suc k) l e =
      let next : i + 1 + k ≡ i + suc k = omega arith in
      rw (sym next) (get_elem?-remove_from ls (i + 1) v k l e)

  length-remove_from :
      (ls : List (List (AdjListNode E))) (i v : ℕ) → length (remove_from ls i v).1 ≡ length ls
  unfolding remove_from
  length-remove_from [] i v = refl
  length-remove_from (m ∷ ls) i v = ap suc (length-remove_from ls (i + 1) v)

  -- What is found in a graph once a vertex has been removed.
  abbrev pub Without : Graph E → ℕ → ℕ → ℕ → Option (Graph E) → Type 0
  Without g v a b none = ⊥
  Without g v a b (some g') =
      find_edge (some g') (pos a) (pos b)
      ≡ (if (a == v) || (b == v) then ok (negsuc 0) else find_edge (some g) (pos a) (pos b))

  without :
      (g : Graph E) (v : ℕ) (l : List (AdjListNode E)) (a b : ℕ)
      → length g.array ≡ g.size
      → get_elem? g.array a ≡ some l
      → edges_to l v ≤ 1
      → a < g.size
      → b < g.size
      → Without g v a b (some (record g { array = (remove_from g.array 0 v).1 }))
  unfolding answer
  without g v l a b shape here le lt_a lt_b =
      let g' : Graph E = record g { array = (remove_from g.array 0 v).1 } in
      let left : get_elem? (remove_from g.array 0 v).1 a
          ≡ some (if a == v then [] else (drop_edge l (pos v)).1) =
        rw zero-add at (get_elem?-remove_from g.array 0 v a l here) in
      rw (find_edge-answer g' a b lt_a lt_b, find_edge-answer g a b lt_a lt_b, left, here)
        (elim (Bool-cases (a == v)) [
          | inl e ↦ rw e (unfold edge_in in refl)
          | inr e ↦ rw e (elim (Bool-cases (b == v)) [
            | inl f ↦
                let same : b ≡ v = (==_iff b v).0 f in rw (f, same, edge_in-drop_edge l v le) refl
            | inr f ↦ rw (f, edge_in-drop_ne l v b (λ q. ground (arith, f, q))) refl
          ])
        ])

  -- `remove_node` of a vertex `v` with an edge returns. From a vertex `a` with at most one edge to
  -- `v` (`v` itself is one such, if it has no two edges to itself), to any `b`, `find_edge` then
  -- finds nothing if one of the two is `v`, and otherwise what it found before.
  pub find_edge-remove_node :
      (g : Graph E) (v : ℕ) (n : AdjListNode E) (others l : List (AdjListNode E)) (a b : ℕ)
      → length g.array ≡ g.size
      → get_elem? g.array v ≡ some (n ∷ others)
      → get_elem? g.array a ≡ some l
      → edges_to l v ≤ 1
      → v < g.size
      → a < g.size
      → b < g.size
      → Returns (λ (freed, removed). Without g v a b removed) (remove_node (some g) (pos v))
  unfolding remove_node
  find_edge-remove_node g v n others l a b shape at here le lt lt_a lt_b =
      let inside : ltb v g.size ≡ true = ground arith in
      rw (inside, at) (without g v l a b shape here le lt_a lt_b)
