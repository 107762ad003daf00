-- ===== src/Examples/Graphs.antt =====
-- The topological sort of a chain of three nodes, and the order of two plugins.
use llm_d_inference_schedule.Prelude.{ℕ, ◌≡◌, refl, false, Option, some, none, List, [], ◌∷◌}
use llm_d_inference_schedule.Datalayer.DataGraph.{
  Graph, search, start, degree_keys, is_zero, in_degree, count_all_edges, count_edges, increment,
  relax, relax_one, decrement, new_keys, all_neighbors, sorted, cycle_detected, topological_sort,
}
use llm_d_inference_schedule.Datalayer.Dependencies.{
  Plugin, build_dag, link_producers, put_plugin, link_consumers, match_keys,
  plugin_to_layer_execution_order, add_edge, put_nodes, put_node, plugin_map, producers, consumers,
  ordered, validate_and_order,
}
use llm_d_inference_schedule.Datalayer.DataGraph.Degrees.{IsGraph}
use llm_d_inference_schedule.Datalayer.DataGraph.Invariant.{IsOutcome}
use llm_d_inference_schedule.Datalayer.DataGraph.Sorting.{topological_sort-IsOutcome}

-- 1 depends on 2, and 2 on 3.
abbrev line_graph : Graph
line_graph = (2, 3 ∷ []) ∷ (1, 2 ∷ []) ∷ (3, []) ∷ []

line_graph-IsGraph : IsGraph line_graph
line_graph-IsGraph = ((refl, (refl, (refl, tt))), ((refl, tt), ((refl, tt), (tt, tt))))

line_sorted : topological_sort line_graph ≡ sorted (3 ∷ 2 ∷ 1 ∷ [])
unfolding topological_sort search start degree_keys is_zero in_degree count_all_edges count_edges
    increment relax relax_one decrement new_keys all_neighbors
line_sorted = refl

loop_found : topological_sort ((1, 2 ∷ []) ∷ (2, 1 ∷ []) ∷ []) ≡ cycle_detected
unfolding topological_sort search start degree_keys is_zero in_degree count_all_edges count_edges
    increment relax relax_one decrement new_keys all_neighbors
loop_found = refl

topological_sort-IsOutcome_example : IsOutcome line_graph (topological_sort line_graph)
topological_sort-IsOutcome_example = topological_sort-IsOutcome line_graph line_graph-IsGraph

-- A plugin of no layer, with what it produces and consumes.
abbrev plugin : ℕ → Option (List (ℕ × ℕ)) → Option (List (ℕ × ℕ)) → Plugin
plugin name produced consumed = record {
  typed_name = name;
  fairness_policy = false;
  ordering_policy = false;
  data_producer = false;
  admitter = false;
  pre_request = false;
  response_header_processor = false;
  profile_handler = false;
  filter = false;
  scorer = false;
  picker = false;
  produces = produced;
  consumes = consumed;
}

-- Plugin 1 consumes the key 5 that plugin 2 produces.
abbrev two_plugins : List Plugin
two_plugins = plugin 1 none (some ((5, 0) ∷ [])) ∷ plugin 2 (some ((5, 0) ∷ [])) none ∷ []

two_ordered : validate_and_order two_plugins ≡ ordered (2 ∷ 1 ∷ [])
unfolding validate_and_order build_dag link_producers put_plugin link_consumers match_keys
    plugin_to_layer_execution_order add_edge put_nodes put_node producers plugin_map consumers
    topological_sort search start degree_keys is_zero in_degree count_all_edges count_edges
    increment relax relax_one decrement new_keys all_neighbors
two_ordered = refl
