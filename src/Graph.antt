-- ===== src/Graph.antt =====
-- data_structures/graph/graph.c: an undirected graph as an array of lists of edges. No two lists
-- share a node, so a list is modelled by its nodes. The number of vertices is not negative, and
-- what `malloc` gives `createGraph` is taken to be there.
pub mod Edges
pub mod Removal
mod Tests
use basic_jqr.Base.{
  ℕ, zero, suc, ◌+◌, Bool, true, false, ◌&&◌, Option, none, some, List, [], ◌∷◌, ◌++◌, length,
  get_elem?, set, replicate, ltb, ◌==◌, if◌then◌else◌, Outcome, ok, fault, ◌>>=◌, deref, ℤ, pos,
  negsuc,
}

-- `struct AdjListNode`, less its `next`.
pub record AdjListNode (E : Type 0) : Type 0 where
  pub dest : ℤ
  pub datum : Option E
  pub weight : ℤ

pub record Graph (E : Type 0) : Type 0 where
  pub size : ℕ
  pub array : List (List (AdjListNode E))

-- `a == b` of two `int`s.
abbrev pub int_eq : ℤ → ℤ → Bool
int_eq (pos a) (pos b) = a == b
int_eq (pos a) (negsuc b) = false
int_eq (negsuc a) (pos b) = false
int_eq (negsuc a) (negsuc b) = a == b

-- `v >= 0 && v < V`
abbrev pub in_range : ℕ → ℤ → Bool
in_range n (pos v) = ltb v n
in_range n (negsuc v) = false

module _ {E : Type 0} where
  -- `newAdjListNode`, if its `malloc` succeeds.
  abbrev pub new_adj_list_node : ℤ → Option E → ℤ → AdjListNode E
  new_adj_list_node dest datum weight = record { dest = dest; datum = datum; weight = weight }

  unfoldable pub create_graph : ℕ → Graph E
  create_graph n = record { size = n; array = replicate n [] }

  -- `array[v]`
  abbrev pub list_at : List (List (AdjListNode E)) → ℤ → Outcome (List (AdjListNode E))
  list_at array (pos v) = deref (get_elem? array v)
  list_at array (negsuc v) = fault

  abbrev pub set_list :
      List (List (AdjListNode E)) → ℤ → List (AdjListNode E) → List (List (AdjListNode E))
  set_list array (pos v) l = set array v l
  set_list array (negsuc v) l = array

  -- The new node goes behind the last one, which a loop finds.
  unfoldable pub add_last : List (AdjListNode E) → AdjListNode E → List (AdjListNode E)
  add_last [] node = node ∷ []
  add_last (check ∷ l) node = check ∷ add_last l node

  -- The first argument says whether the two calls of `malloc` succeed; they are not checked.
  unfoldable pub add_edge : Bool → Graph E → ℤ → ℤ → Option E → Option E → ℤ → Outcome (Graph E)
  unfolding add_last
  add_edge false g src dest src_data des_data weight = fault
  add_edge true g src dest src_data des_data weight = list_at g.array src >>= λ l.
      let array = set_list g.array src (add_last l (new_adj_list_node dest des_data weight)) in
      list_at array dest >>= λ l'. ok (record g {
        array = set_list array dest (add_last l' (new_adj_list_node src src_data weight));
      })

  unfoldable pub edge_in : List (AdjListNode E) → ℤ → Bool
  edge_in [] dest = false
  edge_in (tmp ∷ l) dest = if int_eq tmp.dest dest then true else edge_in l dest

  unfoldable pub find_edge : Option (Graph E) → ℤ → ℤ → Outcome ℤ
  unfolding edge_in
  find_edge none src dest = ok (negsuc 0)
  find_edge (some g) src dest =
      if in_range g.size src && in_range g.size dest
      then (list_at g.array src >>= λ l. ok (if edge_in l dest then pos 0 else negsuc 0))
      else ok (negsuc 0)

  -- What `free_data` gets for a list, and the list without its first edge to `node`.
  unfoldable pub drop_edge : List (AdjListNode E) → ℤ → List (Option E) × List (AdjListNode E)
  drop_edge [] node = ([], [])
  drop_edge (current ∷ l) node =
      let (freed, kept) = drop_edge l node in
      if int_eq current.dest node then (current.datum ∷ [], l) else (freed, current ∷ kept)

  abbrev pub data_of : List (AdjListNode E) → List (Option E)
  data_of [] = []
  data_of (current ∷ l) = current.datum ∷ data_of l

  -- The loop of `remove_node` over the lists, from the `i`-th on: what `free_data` gets, and the
  -- lists that are left.
  unfoldable pub remove_from :
      List (List (AdjListNode E)) → ℕ → ℕ → List (Option E) × List (List (AdjListNode E))
  unfolding drop_edge
  remove_from [] i node = ([], [])
  remove_from (l ∷ ls) i node =
      let (freed, kept) = remove_from ls (i + 1) node in
      let (freed_here, kept_here) =
        (if i == node then (data_of l, []) else drop_edge l (pos node)) in
      (freed_here ++ freed, kept_here ∷ kept)

  abbrev pub remove_if : Graph E → ℕ → List (AdjListNode E) → List (Option E) × Graph E
  remove_if g node [] = ([], g)
  remove_if g node (n ∷ l) =
      let (freed, array) = remove_from g.array 0 node in (freed, record g { array = array })

  unfoldable pub remove_node : Option (Graph E) → ℤ → Outcome (List (Option E) × Option (Graph E))
  unfolding remove_from
  remove_node none node = ok ([], none)
  remove_node (some g) (negsuc node) = ok ([], some g)
  remove_node (some g) (pos node) =
      if ltb node g.size
      then (deref (get_elem? g.array node) >>= λ l.
          let (freed, g') = remove_if g node l in ok (freed, some g'))
      else ok ([], some g)

  -- The loop of `destroy_graph`, from vertex `i` on.
  unfoldable pub destroy_from : Option (Graph E) → ℕ → ℕ → Outcome (List (Option E))
  unfolding remove_node
  destroy_from g i zero = ok []
  destroy_from g i (suc n) = remove_node g (pos i) >>= λ (freed, g').
      destroy_from g' (i + 1) n >>= λ others. ok (freed ++ others)

  unfoldable pub destroy_graph : Option (Graph E) → Outcome (List (Option E))
  unfolding destroy_from
  destroy_graph none = ok []
  destroy_graph (some g) = destroy_from (some g) 0 g.size

module _ {E : Type 0} (comp_data : E → E → ℤ) where
  -- The inner loop of `find_node`. The function to compare follows the pointers it gets.
  unfoldable pub data_in : List (AdjListNode E) → E → Outcome Bool
  data_in [] d = ok false
  data_in (tmp ∷ l) d =
      let rest = data_in l d in
      deref tmp.datum >>= λ x. if int_eq (comp_data x d) (pos 0) then ok true else rest

  -- A vertex with no edge is a NULL that is followed; one whose first edge has no data is passed
  -- over.
  unfoldable pub find_data_from : List (List (AdjListNode E)) → E → Outcome ℤ
  unfolding data_in
  find_data_from [] d = ok (negsuc 0)
  find_data_from ([] ∷ ls) d = fault
  find_data_from ((tmp ∷ l) ∷ ls) d = elim tmp.datum [
    | none ↦ find_data_from ls d
    | some x ↦ data_in (tmp ∷ l) d >>= λ found. if found then ok (pos 0) else find_data_from ls d
  ]

  unfoldable pub find_node : Option (Graph E) → Option E → Outcome ℤ
  unfolding find_data_from
  find_node none d = ok (negsuc 0)
  find_node (some g) none = ok (negsuc 0)
  find_node (some g) (some d) = find_data_from g.array d
