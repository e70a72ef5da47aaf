-- ===== src/Graph/Tests.antt =====
-- Runs of the graph.
use basic_jqr.Base.{
  ℕ, ◌≡◌, refl, true, ◌&&◌, some, [], ◌∷◌, arith, length, ◌==◌, if◌then◌else◌, ok, Returns, pos,
}
use basic_jqr.Graph.{Graph, create_graph, add_edge, find_edge, remove_node}
use basic_jqr.Graph.Edges.{find_edge-add_edge}
use basic_jqr.Graph.Removal.{Without, find_edge-remove_node}

-- Three vertices and one edge, from 0 to 1.
abbrev one_edge : Graph ℕ
one_edge = record {
  size = 3;
  array =
      (record { dest = pos 1; datum = some 8; weight = pos 5 } ∷ [])
      ∷ (record { dest = pos 0; datum = some 7; weight = pos 5 } ∷ [])
      ∷ []
      ∷ [];
}

run_add : add_edge true (create_graph 3) (pos 0) (pos 1) (some 7) (some 8) (pos 5) ≡ ok one_edge
unfolding add_edge create_graph
run_add = refl

run_remove :
    remove_node (some one_edge) (pos 0)
    ≡ ok (some 8 ∷ some 7 ∷ [], some (record { size = 3; array = [] ∷ [] ∷ [] ∷ [] }))
unfolding remove_node
run_remove = refl

find_edge-add_edge_example :
    Returns
      (λ g'.
        (length g'.array ≡ g'.size)
        × (find_edge (some g') (pos 2) (pos 1) ≡ (
            if (2 == 2) && (1 == 1)
            then ok (pos 0)
            else (if (2 == 1) && (2 == 1)
                then ok (pos 0)
                else find_edge (some one_edge) (pos 2) (pos 1)))))
      (add_edge true one_edge (pos 1) (pos 2) (some 8) (some 9) (pos 4))
find_edge-add_edge_example =
    find_edge-add_edge one_edge 1 2 (some 8) (some 9) (pos 4) 2 1 refl (omega arith) (omega arith)
      (omega arith) (omega arith)

find_edge-remove_node_example :
    Returns
      (λ (freed, removed). Without one_edge 0 1 0 removed)
      (remove_node (some one_edge) (pos 0))
find_edge-remove_node_example =
    find_edge-remove_node one_edge 0 (record { dest = pos 1; datum = some 8; weight = pos 5 }) []
      (record { dest = pos 0; datum = some 7; weight = pos 5 } ∷ []) 1 0 refl refl refl
      (omega arith) (omega arith) (omega arith) (omega arith)
