-- ===== src/Datalayer/Dependencies/Building.antt =====
-- pkg/epp/datalayer/data_graph.go: buildDAG, from the plugins' maps to the graph.
use llm_d_inference_schedule.Prelude.{
  Bool-cases, ℕ, ◌≡◌, refl, sym, inl, inr, ◌==◌, ◌||◌, Bool, true, false, List, [], ◌∷◌, has, Nodup,
  keep, arith,
}
use llm_d_inference_schedule.Datalayer.DataGraph.{Graph, nodes, neighbors}
use llm_d_inference_schedule.Datalayer.DataGraph.Degrees.{Within, AllWithin, IsGraph}
use llm_d_inference_schedule.Datalayer.Dependencies.{
  Plugin, Plugins, Built, built, unbuilt, put_node, put_nodes, put_plugin, plugin_map, build_dag,
  link_producers,
}
use llm_d_inference_schedule.Datalayer.Dependencies.Edges.{
  names, depends, Clash, Adds, link_producers-Adds,
}

-- The entries stand under their plugins' names.
abbrev pub IsNamed : Plugins → Type 0
IsNamed [] = Unit
IsNamed ((name, p) ∷ ps) = (p.typed_name ≡ name) × IsNamed ps

put_plugin-IsNamed : (m : Plugins) (p : Plugin) → IsNamed m → IsNamed (put_plugin m p.typed_name p)
unfolding put_plugin
put_plugin-IsNamed [] p named = (refl, tt)
put_plugin-IsNamed ((k, q) ∷ m) p (here, named) = elim (Bool-cases (k == p.typed_name)) [
  | inl same ↦
      let e : k ≡ p.typed_name = ground (arith, same) in rw (put_plugin, same) (sym e, named)
  | inr other ↦ rw (put_plugin, other) (here, put_plugin-IsNamed m p named)
]

pub plugin_map-IsNamed : (ps : List Plugin) (m : Plugins) → IsNamed m → IsNamed (plugin_map ps m)
unfolding plugin_map
plugin_map-IsNamed [] m named = named
plugin_map-IsNamed (p ∷ ps) m named = plugin_map-IsNamed ps _ (put_plugin-IsNamed m p named)

pub keep-IsNamed : (test : ℕ × Plugin → Bool) (m : Plugins) → IsNamed m → IsNamed (keep test m)
keep-IsNamed test [] named = tt
keep-IsNamed test ((k, p) ∷ m) (here, named) = elim (Bool-cases (test (k, p))) [
  | inl kept ↦ rw kept (here, keep-IsNamed test m named)
  | inr dropped ↦ rw dropped (keep-IsNamed test m named)
]

-- A graph under construction: no node twice, and no edge yet.
abbrev Edgeless : Graph → Type 0
Edgeless [] = Unit
Edgeless ((u, vs) ∷ g) = (vs ≡ []) × Edgeless g

has-put_node : (g : Graph) (u v : ℕ) → has (nodes (put_node g u)) v ≡ (has (nodes g) v || u == v)
unfolding put_node
has-put_node [] u v = ground arith
has-put_node ((x, vs) ∷ g) u v = ground (arith, has-put_node g u v)

put_node-Nodup : (g : Graph) (u : ℕ) → Nodup (nodes g) → Nodup (nodes (put_node g u))
unfolding put_node
put_node-Nodup [] u h = (refl, tt)
put_node-Nodup ((x, vs) ∷ g) u (fresh, h) = elim (Bool-cases (x == u)) [
  | inl same ↦ rw (put_node, same) (fresh, h)
  | inr other ↦
      let out : has (nodes (put_node g u)) x ≡ false =
        ground (arith, has-put_node g u x, fresh, other) in
      rw (put_node, other) (out, put_node-Nodup g u h)
]

put_node-Edgeless : (g : Graph) (u : ℕ) → Edgeless g → Edgeless (put_node g u)
unfolding put_node
put_node-Edgeless [] u h = (refl, tt)
put_node-Edgeless ((x, vs) ∷ g) u (none_here, h) = elim (Bool-cases (x == u)) [
  | inl same ↦ rw (put_node, same) (refl, h)
  | inr other ↦ rw (put_node, other) (none_here, put_node-Edgeless g u h)
]

put_nodes-nodes :
    (ps : Plugins) (g : Graph)
    → IsNamed ps
    → (v : ℕ) → has (nodes (put_nodes ps g)) v ≡ (has (nodes g) v || has (names ps) v)
unfolding put_nodes
put_nodes-nodes [] g named v = ground arith
put_nodes-nodes ((name, p) ∷ ps) g (here, named) v = ground (
  arith,
  here,
  has-put_node g p.typed_name v,
  put_nodes-nodes ps (put_node g p.typed_name) named v,
)

put_nodes-Edgeless :
    (ps : Plugins) (g : Graph)
    → Nodup (nodes g)
    → Edgeless g
    → Nodup (nodes (put_nodes ps g)) × Edgeless (put_nodes ps g)
unfolding put_nodes
put_nodes-Edgeless [] g distinct edgeless = (distinct, edgeless)
put_nodes-Edgeless ((name, p) ∷ ps) g distinct edgeless =
    put_nodes-Edgeless ps _ (put_node-Nodup g _ distinct) (put_node-Edgeless g _ edgeless)

Edgeless-neighbors : (g : Graph) (w x : ℕ) → Edgeless g → has (neighbors g w) x ≡ false
Edgeless-neighbors [] w x h = refl
Edgeless-neighbors ((u, vs) ∷ g) w x (none_here, h) =
    ground (arith, none_here, Edgeless-neighbors g w x h)

Edgeless-AllWithin : (keys : List ℕ) (g : Graph) → Edgeless g → AllWithin keys g
Edgeless-AllWithin keys [] h = tt
Edgeless-AllWithin keys ((u, vs) ∷ g) (none_here, h) =
    (rw none_here tt, Edgeless-AllWithin keys g h)

Within-all : (keys vs : List ℕ) → ((v : ℕ) → has vs v ≡ true → has keys v ≡ true) → Within keys vs
Within-all keys [] h = tt
Within-all keys (v ∷ vs) h =
    (h v (ground arith), Within-all keys vs (λ w there. h w (ground (arith, there))))

-- What buildDAG gives for maps whose entries stand under their plugins' names: a graph of the plugins, where the edges
-- are the dependencies, or the error of some producer and consumer.
abbrev pub IsBuilt : Plugins → Plugins → Built → Type 0
IsBuilt ps cs (built g) =
    IsGraph g
    × ((v : ℕ) → has (nodes g) v ≡ (has (names ps) v || has (names cs) v))
    × ((w x : ℕ) → has (neighbors g w) x ≡ depends ps cs w x)
IsBuilt ps cs (unbuilt e) = Clash ps cs e

module _ (ps cs : Plugins) (g : Graph) (distinct : Nodup (nodes g)) (edgeless : Edgeless g)
    (all : (v : ℕ) → has (nodes g) v ≡ (has (names ps) v || has (names cs) v)) where
  Adds-IsBuilt :
      (o : Built) → Adds (nodes g) g (λ w x. depends ps cs w x) (Clash ps cs) o → IsBuilt ps cs o
  Adds-IsBuilt (built g') (same, within, adds) = (
    (rw same distinct, rw same within),
    (λ v. rw same (all v)),
    λ w x. ground (arith, adds w x, Edgeless-neighbors g w x edgeless),
  )
  Adds-IsBuilt (unbuilt e) clash = clash

  link-IsBuilt : IsBuilt ps cs (link_producers ps cs g)
  link-IsBuilt = Adds-IsBuilt _ (
      link_producers-Adds (nodes g) ps cs g refl (Edgeless-AllWithin (nodes g) g edgeless)
        (Within-all (nodes g) (names ps) (λ v h. ground (arith, all v, h)))
        (Within-all (nodes g) (names cs) (λ v h. ground (arith, all v, h))))

pub build_dag-IsBuilt :
    (ps cs : Plugins) → IsNamed ps → IsNamed cs → IsBuilt ps cs (build_dag ps cs)
unfolding build_dag
build_dag-IsBuilt ps cs named named' =
    let start : Graph = put_nodes ps [] in
    let (distinct, edgeless) = put_nodes-Edgeless ps [] tt tt in
    let (distinct', edgeless') = put_nodes-Edgeless cs start distinct edgeless in
    link-IsBuilt ps cs (put_nodes cs start) distinct' edgeless'
      (λ v. ground (arith, put_nodes-nodes ps [] named v, put_nodes-nodes cs start named' v))
