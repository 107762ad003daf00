-- ===== src/Datalayer/Dependencies.antt =====
-- pkg/epp/datalayer/data_graph.go: the data dependencies of the plugins, and their order. A plugin's name, a
-- data key and a data type are numbers. A Go map is the list of its entries in the order of the iteration;
-- a nil map is the empty one, since the guard against it skips what the loop over it would not enter.
pub mod Edges
pub mod Building
pub mod Registered
pub mod Validation
use llm_d_inference_schedule.Prelude.{
  ℕ, ltb, ◌==◌, not, ◌&&◌, ◌||◌, if◌then◌else◌, Bool, true, false, Option, none, some, List, [],
  ◌∷◌, ◌++◌, keep,
}
use llm_d_inference_schedule.Prelude.Int.{ℤ, pos, negsuc, ltb_ℤ}
use llm_d_inference_schedule.Datalayer.DataGraph.{
  Graph, Sorted, sorted, cycle_detected, out_of_fuel, topological_sort,
}

abbrev pub Data : Type 0
Data = List (ℕ × ℕ)

-- A plugin, with the interfaces that it implements.
pub record Plugin : Type 0 where
  pub typed_name : ℕ
  pub fairness_policy : Bool
  pub ordering_policy : Bool
  pub data_producer : Bool
  pub admitter : Bool
  pub pre_request : Bool
  pub response_header_processor : Bool
  pub profile_handler : Bool
  pub filter : Bool
  pub scorer : Bool
  pub picker : Bool
  pub produces : Option Data
  pub consumes : Option Data

abbrev pub Plugins : Type 0
Plugins = List (ℕ × Plugin)

unfoldable pub plugin_to_layer_execution_order : Plugin → ℤ
plugin_to_layer_execution_order p =
    if p.fairness_policy || p.ordering_policy
    then pos 0
    else if p.data_producer || (p.admitter || (p.pre_request || p.response_header_processor))
    then pos 1
    else if p.profile_handler || (p.filter || (p.scorer || p.picker))
    then pos 2
    else negsuc 0

pub data DependencyError : Type 0 where
  type_mismatch : DependencyError
  layer_order : DependencyError

pub data Match : Type 0 where
  unlinked : Match
  linked : Match
  refused : DependencyError → Match

abbrev pub data_of : Option Data → Data
data_of none = []
data_of (some keys) = keys

abbrev pub lookup : Data → ℕ → Option ℕ
lookup [] key = none
lookup ((k, type) ∷ keys) key = if k == key then some type else lookup keys key

-- The loop over the produced keys, up to the first that the consumer asks for.
unfoldable pub match_keys : Plugin → Plugin → Data → Match
match_keys p c [] = unlinked
match_keys p c ((key, type) ∷ keys) =
    let later = match_keys p c keys in
    elim (lookup (data_of c.consumes) key) [
      | none ↦ later
      | some asked ↦
          if not (type == asked)
          then refused type_mismatch
          else if ltb_ℤ (plugin_to_layer_execution_order c) (plugin_to_layer_execution_order p)
          then refused layer_order
          else linked
    ]

pub data Built : Type 0 where
  built : Graph → Built
  unbuilt : DependencyError → Built

-- `dag[u] = []string{}`
unfoldable pub put_node : Graph → ℕ → Graph
put_node [] u = (u, []) ∷ []
put_node ((x, vs) ∷ g) u = if x == u then (x, []) ∷ g else (x, vs) ∷ put_node g u

unfoldable pub put_nodes : Plugins → Graph → Graph
put_nodes [] g = g
put_nodes ((name, p) ∷ ps) g = put_nodes ps (put_node g p.typed_name)

-- `dag[u] = append(dag[u], v)`
unfoldable pub add_edge : Graph → ℕ → ℕ → Graph
add_edge [] u v = (u, v ∷ []) ∷ []
add_edge ((x, vs) ∷ g) u v = if x == u then (x, vs ++ v ∷ []) ∷ g else (x, vs) ∷ add_edge g u v

-- The inner loop, over the consumers.
unfoldable pub link_consumers : ℕ → Plugin → Plugins → Graph → Built
link_consumers name p [] g = built g
link_consumers name p ((other, c) ∷ cs) g =
    let next = link_consumers name p cs g in
    if name == other then next else elim (match_keys p c (data_of p.produces)) [
      | unlinked ↦ next
      | linked ↦ link_consumers name p cs (add_edge g other name)
      | refused e ↦ unbuilt e
    ]

unfoldable pub link_producers : Plugins → Plugins → Graph → Built
link_producers [] cs g = built g
link_producers ((name, p) ∷ ps) cs g = elim (link_consumers name p cs g) [
  | built g' ↦ link_producers ps cs g'
  | unbuilt e ↦ unbuilt e
]

unfoldable pub build_dag : Plugins → Plugins → Built
build_dag ps cs = link_producers ps cs (put_nodes cs (put_nodes ps []))

-- `pluginMap[name] = p`
unfoldable pub put_plugin : Plugins → ℕ → Plugin → Plugins
put_plugin [] name p = (name, p) ∷ []
put_plugin ((k, q) ∷ m) name p = if k == name then (k, p) ∷ m else (k, q) ∷ put_plugin m name p

unfoldable pub plugin_map : List Plugin → Plugins → Plugins
plugin_map [] m = m
plugin_map (p ∷ ps) m = plugin_map ps (put_plugin m p.typed_name p)

abbrev pub implements : Option Data → Bool
implements none = false
implements (some keys) = true

unfoldable pub producers : Plugins → Plugins
producers m = keep (λ e. implements e.1.produces) m

unfoldable pub consumers : Plugins → Plugins
consumers m = keep (λ e. implements e.1.consumes) m

pub data Validated : Type 0 where
  ordered : List ℕ → Validated
  incompatible : DependencyError → Validated
  cyclic : Validated
  unfinished : Validated

abbrev pub of_sorted : Sorted → Validated
of_sorted (sorted r) = ordered r
of_sorted cycle_detected = cyclic
of_sorted out_of_fuel = unfinished

-- What follows buildDAG.
abbrev pub order_dag : Built → Validated
order_dag (built g) = of_sorted (topological_sort g)
order_dag (unbuilt e) = incompatible e

unfoldable pub validate_and_order : List Plugin → Validated
validate_and_order plugins =
    let m = plugin_map plugins [] in order_dag (build_dag (producers m) (consumers m))
