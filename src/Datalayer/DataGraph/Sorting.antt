-- ===== src/Datalayer/DataGraph/Sorting.antt =====
-- pkg/epp/datalayer/data_graph.go: what the topological sort returns.
use llm_d_inference_schedule.Prelude.{
  ℕ, zero, suc, ◌<◌, ◌≡◌, refl, ap, true, false, List, [], length, has, arith,
}
use llm_d_inference_schedule.Datalayer.DataGraph.{
  Graph, nodes, neighbors, Sorted, sorted, cycle_detected, out_of_fuel, start, topological_sort,
}
use llm_d_inference_schedule.Datalayer.DataGraph.Degrees.{IsGraph, degree_keys-nodes, unseen-all}
use llm_d_inference_schedule.Datalayer.DataGraph.Invariant.{
  IsStuck, IsOutcome, start-IsSorting, search-IsOutcome,
}

-- For a graph whose nodes and neighbours are nodes, the sort ends within its fuel. Either it returns every
-- node once, each before the nodes with an edge to it (a producer before its consumers), or it reports a
-- cycle and there is a non-empty set of nodes where each has an edge to it from the set.
pub topological_sort-IsOutcome : (g : Graph) → IsGraph g → IsOutcome g (topological_sort g)
unfolding topological_sort
topological_sort-IsOutcome g graph =
    let total = ap length (degree_keys-nodes g graph) in
    search-IsOutcome g graph _ [] (start g) (start-IsSorting g graph)
      (omega (arith, total, unseen-all (nodes g)))

module _ (g : Graph) (rank : ℕ → ℕ)
    (ranked : (w v : ℕ) → has (neighbors g w) v ≡ true → rank w < rank v) where
  -- No node of a stuck set has a rank.
  unranked :
      (n : ℕ) (r : List ℕ)
      → IsStuck g r
      → (v : ℕ) → has (nodes g) v ≡ true
      → has r v ≡ false
      → rank v < n
      → ⊥
  unranked zero r h v node out below = omega arith
  unranked (suc n) r h v node out below =
      let (w, node', out', edge) = h.1 v node out in
      unranked n r h w node' out' (omega (arith, ranked w v edge))

  ranked_outcome : (o : Sorted) → IsOutcome g o → (r : List ℕ) × (o ≡ sorted r)
  ranked_outcome (sorted r) h = (r, refl)
  ranked_outcome cycle_detected (r, h) =
      let (v, node, out) = h.0 in absurd (unranked (suc (rank v)) r h v node out (omega arith))
  ranked_outcome out_of_fuel h = absurd h

  -- A graph in which every edge leads to a higher rank is acyclic: its sort succeeds.
  pub topological_sort-acyclic : IsGraph g → (r : List ℕ) × (topological_sort g ≡ sorted r)
  topological_sort-acyclic graph =
      ranked_outcome (topological_sort g) (topological_sort-IsOutcome g graph)
