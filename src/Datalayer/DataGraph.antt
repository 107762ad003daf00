-- ===== src/Datalayer/DataGraph.antt =====
-- pkg/epp/datalayer/data_graph.go: the dependency graph of the plugins, and its topological order. A plugin
-- is named by a number. A Go map is the list of its entries in the order of the iteration; the keys of
-- `inDegree` are those of the graph, and then the other neighbours.
pub mod Degrees
pub mod Round
pub mod Invariant
pub mod Sorting
use llm_d_inference_schedule.Prelude.{
  ℕ, zero, suc, ltb, ◌==◌, not, ◌&&◌, ◌||◌, if◌then◌else◌, Bool, true, false, Option, none, some,
  List, [], ◌∷◌, ◌++◌, map, length, keep, has, update,
}
use llm_d_inference_schedule.Prelude.Int.{ℤ, pos, negsuc}

abbrev pub Graph : Type 0
Graph = List (ℕ × List ℕ)

abbrev pub nodes : Graph → List ℕ
nodes [] = []
nodes ((u, vs) ∷ g) = u ∷ nodes g

-- `graph[u]`, or nothing.
abbrev pub neighbors : Graph → ℕ → List ℕ
neighbors [] k = []
neighbors ((u, vs) ∷ g) k = if u == k then vs else neighbors g k

unfoldable pub increment : ℤ → ℤ
increment (pos n) = pos (suc n)
increment (negsuc zero) = pos 0
increment (negsuc (suc n)) = negsuc n

unfoldable pub decrement : ℤ → ℤ
decrement (pos zero) = negsuc 0
decrement (pos (suc n)) = pos n
decrement (negsuc n) = negsuc (suc n)

unfoldable pub is_zero : ℤ → Bool
is_zero (pos n) = n == 0
is_zero (negsuc n) = false

-- `inDegree[v]++` for each neighbour; a missing entry counts as 0.
unfoldable pub count_edges : List ℕ → (ℕ → ℤ) → ℕ → ℤ
count_edges [] degree = degree
count_edges (v ∷ vs) degree = count_edges vs (update degree v (increment (degree v)))

unfoldable pub count_all_edges : Graph → (ℕ → ℤ) → ℕ → ℤ
count_all_edges [] degree = degree
count_all_edges ((u, vs) ∷ g) degree = count_all_edges g (count_edges vs degree)

unfoldable pub in_degree : Graph → ℕ → ℤ
in_degree g = count_all_edges g (λ _. pos 0)

-- The neighbours that are no keys yet.
unfoldable pub new_keys : List ℕ → List ℕ → List ℕ
new_keys known [] = []
new_keys known (v ∷ vs) = if has known v then new_keys known vs else v ∷ new_keys (v ∷ known) vs

unfoldable pub all_neighbors : Graph → List ℕ
all_neighbors [] = []
all_neighbors ((u, vs) ∷ g) = vs ++ all_neighbors g

unfoldable pub degree_keys : Graph → List ℕ
degree_keys g = nodes g ++ new_keys (nodes g) (all_neighbors g)

pub record Search : Type 0 where
  pub degree : ℕ → ℤ
  pub queue : List ℕ
  pub result : List ℕ

-- One neighbour of a processed node: a degree that falls to 0 puts it into the queue.
unfoldable pub relax_one : ℕ → Search → Search
relax_one v s =
    let d = decrement (s.degree v) in
    let lowered = record s { degree = update s.degree v d } in
    if is_zero d then record lowered { queue = s.queue ++ v ∷ [] } else lowered

unfoldable pub relax : List ℕ → Search → Search
relax [] s = s
relax (v ∷ vs) s = relax vs (relax_one v s)

pub data Sorted : Type 0 where
  sorted : List ℕ → Sorted
  cycle_detected : Sorted
  out_of_fuel : Sorted

abbrev pub reverse_onto : List ℕ → List ℕ → List ℕ
reverse_onto [] ys = ys
reverse_onto (x ∷ xs) ys = reverse_onto xs (x ∷ ys)

-- `slices.Reverse`
abbrev pub reverse : List ℕ → List ℕ
reverse xs = reverse_onto xs []

module _ (g : Graph) where
  unfoldable pub search : ℕ → Search → Sorted
  search zero s = out_of_fuel
  search (suc fuel) s = elim s.queue [
    | [] ↦
        if length s.result == length (degree_keys g)
        then sorted (reverse s.result)
        else cycle_detected
    | u ∷ rest ↦
        search fuel (relax (neighbors g u) (record s { queue = rest; result = s.result ++ u ∷ [] }))
  ]

  unfoldable pub start : Search
  start = record {
    degree = in_degree g;
    queue = keep (λ v. is_zero (in_degree g v)) (degree_keys g);
    result = [];
  }

  unfoldable pub topological_sort : Sorted
  topological_sort = search (suc (length (degree_keys g))) start
