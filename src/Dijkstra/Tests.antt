-- ===== src/Dijkstra/Tests.antt =====
-- Runs of dijkstra.c on a triangle whose edges weigh 1, 1 and 5.
use basic_jqr.Base.{
  ℕ, ◌≡◌, ◌≢◌, ◌<◌, ◌^◌, refl, Option, none, some, [], ◌∷◌, arith, ok, out_of_fuel, pos,
}
use basic_jqr.Graph.{AdjListNode, Graph, new_adj_list_node}
use basic_jqr.Dijkstra.{dijkstra, int_max}
use basic_jqr.Dijkstra.Blind.{IsHarmless, first_table}
use basic_jqr.Dijkstra.Printed.{IsPlain, dijkstra-first_table, dijkstra-endless}

-- The data are their own addresses.
abbrev address : Option ℕ → ℕ
address none = 0
address (some n) = n

abbrev triangle : Graph ℕ
triangle = record {
  size = 3;
  array =
      (new_adj_list_node (pos 1) (some 4100) (pos 1)
        ∷ new_adj_list_node (pos 2) (some 4104) (pos 5)
        ∷ [])
      ∷ (new_adj_list_node (pos 0) (some 4096) (pos 1)
          ∷ new_adj_list_node (pos 2) (some 4104) (pos 1)
          ∷ [])
      ∷ (new_adj_list_node (pos 0) (some 4096) (pos 5)
          ∷ new_adj_list_node (pos 1) (some 4100) (pos 1)
          ∷ [])
      ∷ [];
}

harmless :
    (e : AdjListNode ℕ) → address e.datum ≢ 0 → address e.datum < 2 ^ 20 → IsHarmless address e
harmless e ne lt = record {
  not_zero = λ z. ne (omega (arith, z, lt));
  not_max = λ z. omega (arith, z, lt);
}

triangle-IsPlain : IsPlain address triangle
triangle-IsPlain = record {
  shape = refl;
  two = omega arith;
  small = omega arith;
  harmless = (
    (
      harmless _ (λ e. omega arith) (omega arith),
      (harmless _ (λ e. omega arith) (omega arith), tt),
    ),
    (
      (
        harmless _ (λ e. omega arith) (omega arith),
        (harmless _ (λ e. omega arith) (omega arith), tt),
      ),
      (
        (
          harmless _ (λ e. omega arith) (omega arith),
          (harmless _ (λ e. omega arith) (omega arith), tt),
        ),
        tt,
      ),
    ),
  );
}

dijkstra-first_table_example :
    dijkstra address 1 triangle 0 2 ≡ ok ((0, 0) ∷ (1, int_max) ∷ (2, int_max) ∷ [], 2 ∷ 0 ∷ [])
unfolding first_table
dijkstra-first_table_example =
    dijkstra-first_table address 1 triangle 2 triangle-IsPlain (omega arith) (omega arith)

dijkstra-endless_example : dijkstra address 1000 triangle 1 2 ≡ out_of_fuel
dijkstra-endless_example =
    dijkstra-endless address 1000 triangle 1 2 triangle-IsPlain (omega arith) (omega arith)
      (λ e. omega arith) (λ e. omega arith)
