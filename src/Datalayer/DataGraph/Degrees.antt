-- ===== src/Datalayer/DataGraph/Degrees.antt =====
-- pkg/epp/datalayer/data_graph.go: the degrees of the nodes, and the edges that they count.
use mathlib.Core.List.{append-nil}
use llm_d_inference_schedule.Prelude.{
  Bool-cases, ℕ, suc, ◌+◌, ◌<◌, ◌≡◌, refl, ap, ◌∙◌, inl, inr, ◌==◌, ltb, ◌&&◌, not, if◌then◌else◌,
  true, false, List, [], ◌∷◌, ◌++◌, length, has, count, Nodup, arith,
}
use llm_d_inference_schedule.Prelude.Int.{ℤ, pos}
use llm_d_inference_schedule.Datalayer.DataGraph.{
  Graph, nodes, neighbors, increment, count_edges, count_all_edges, in_degree, new_keys,
  all_neighbors, degree_keys,
}

-- The edges to `v` from the nodes outside `r`.
pub edges_to : List ℕ → Graph → ℕ → ℕ
edges_to r [] v = 0
edges_to r ((u, vs) ∷ g) v = (if has r u then 0 else count v vs) + edges_to r g v

-- The nodes of a list outside `r`.
pub unseen : List ℕ → List ℕ → ℕ
unseen r [] = 0
unseen r (u ∷ us) = (if has r u then 0 else 1) + unseen r us

abbrev pub Within : List ℕ → List ℕ → Type 0
Within keys [] = Unit
Within keys (v ∷ vs) = (has keys v ≡ true) × Within keys vs

abbrev pub AllWithin : List ℕ → Graph → Type 0
AllWithin keys [] = Unit
AllWithin keys ((u, vs) ∷ g) = Within keys vs × AllWithin keys g

-- No node has two entries, and every neighbour has one.
abbrev pub IsGraph : Graph → Type 0
IsGraph g = Nodup (nodes g) × AllWithin (nodes g) g

count_edges-pos :
    (vs : List ℕ) (degree : ℕ → ℤ) (n : ℕ → ℕ)
    → ((v : ℕ) → degree v ≡ pos (n v))
    → (v : ℕ) → count_edges vs degree v ≡ pos (n v + count v vs)
unfolding count_edges increment
count_edges-pos [] degree n h v = ground (arith, h v)
count_edges-pos (x ∷ vs) degree n h v =
    count_edges-pos vs _ (λ w. n w + (if x == w then 1 else 0)) (λ w. ground (arith, h w, h x)) v
    ∙ ap pos (omega arith)

count_all_edges-pos :
    (g : Graph) (degree : ℕ → ℤ) (n : ℕ → ℕ)
    → ((v : ℕ) → degree v ≡ pos (n v))
    → (v : ℕ) → count_all_edges g degree v ≡ pos (n v + edges_to [] g v)
unfolding count_all_edges edges_to
count_all_edges-pos [] degree n h v = ground (arith, h v)
count_all_edges-pos ((u, vs) ∷ g) degree n h v =
    count_all_edges-pos g _ (λ w. n w + count w vs) (count_edges-pos vs degree n h) v
    ∙ ap pos (omega arith)

pub in_degree-pos : (g : Graph) (v : ℕ) → in_degree g v ≡ pos (edges_to [] g v)
unfolding in_degree
in_degree-pos g v = count_all_edges-pos g (λ _. pos 0) (λ _. 0) (λ w. refl) v ∙ ap pos (omega arith)

new_keys-none : (known vs : List ℕ) → Within known vs → new_keys known vs ≡ []
unfolding new_keys
new_keys-none known [] h = refl
new_keys-none known (v ∷ vs) (here, rest) = rw here (new_keys-none known vs rest)

Within-append : (keys xs ys : List ℕ) → Within keys xs → Within keys ys → Within keys (xs ++ ys)
Within-append keys [] ys h h' = h'
Within-append keys (x ∷ xs) ys (here, rest) h' = (here, Within-append keys xs ys rest h')

all_neighbors-Within :
    (keys : List ℕ) (g : Graph) → AllWithin keys g → Within keys (all_neighbors g)
unfolding all_neighbors
all_neighbors-Within keys [] h = tt
all_neighbors-Within keys ((u, vs) ∷ g) (here, rest) =
    Within-append keys vs _ here (all_neighbors-Within keys g rest)

-- In a graph the keys of the degrees are the nodes.
pub degree_keys-nodes : (g : Graph) → IsGraph g → degree_keys g ≡ nodes g
unfolding degree_keys
degree_keys-nodes g (nodup, within) =
    rw (new_keys-none (nodes g) _ (all_neighbors-Within (nodes g) g within)) (append-nil (nodes g))

pub has-count : (v : ℕ) (vs : List ℕ) → has vs v ≡ true → 0 < count v vs
has-count v [] h = absurd (ground arith)
has-count v (x ∷ vs) h = ground (arith, h, has-count v vs)

pub count-has : (v : ℕ) (vs : List ℕ) → 0 < count v vs → has vs v ≡ true
count-has v [] h = absurd (omega arith)
count-has v (x ∷ vs) h = ground (arith, h, count-has v vs)

edges_to-absent :
    (r : List ℕ) (u : ℕ) (g : Graph) (v : ℕ)
    → has (nodes g) u ≡ false
    → edges_to (u ∷ r) g v ≡ edges_to r g v
unfolding edges_to
edges_to-absent r u [] v h = refl
edges_to-absent r u ((x, vs) ∷ g) v h = ground (arith, h, edges_to-absent r u g v)

-- A node that joins `r` takes its edges along.
pub edges_to-cons :
    (r : List ℕ) (u : ℕ) (g : Graph) (v : ℕ)
    → Nodup (nodes g)
    → has (nodes g) u ≡ true
    → has r u ≡ false
    → edges_to r g v ≡ edges_to (u ∷ r) g v + count v (neighbors g u)
unfolding edges_to
edges_to-cons r u [] v nodup node out = absurd (ground arith)
edges_to-cons r u ((x, vs) ∷ g) v (fresh, nodup) node out = elim (Bool-cases (x == u)) [
  | inl here ↦
      let same : x ≡ u = ground arith in
      ground (arith, here, out, edges_to-absent r u g v (rw same at fresh))
  | inr later ↦ ground (arith, later, edges_to-cons r u g v nodup (ground (arith, later, node)) out)
]

-- An edge from outside `r` is counted, and a count is of such an edge.
pub edges_to-positive :
    (r : List ℕ) (g : Graph) (u v : ℕ)
    → has (nodes g) u ≡ true
    → has r u ≡ false
    → has (neighbors g u) v ≡ true
    → 0 < edges_to r g v
unfolding edges_to
edges_to-positive r [] u v node out edge = absurd (ground arith)
edges_to-positive r ((x, vs) ∷ g) u v node out edge = elim (Bool-cases (x == u)) [
  | inl here ↦
      let same : x ≡ u = ground arith in
      ground (arith, same, out, has-count v vs (ground (arith, here, edge)))
  | inr later ↦ ground (
    arith,
    edges_to-positive r g u v (ground (arith, later, node)) out (ground (arith, later, edge)),
  )
]

pub positive-edges_to :
    (r : List ℕ) (g : Graph) (v : ℕ)
    → Nodup (nodes g)
    → 0 < edges_to r g v
    → (u : ℕ) × (has (nodes g) u ≡ true) × (has r u ≡ false) × (has (neighbors g u) v ≡ true)
unfolding edges_to
positive-edges_to r [] v nodup h = absurd (omega arith)
positive-edges_to r ((x, vs) ∷ g) v (fresh, nodup) h =
    elim (Bool-cases (not (has r x) && ltb 0 (count v vs))) [
      | inl here ↦ (
        x,
        ground arith,
        ground (arith, here),
        ground (arith, here, count-has v vs (ground (arith, here))),
      )
      | inr later ↦
          let (u, node, out, edge) = positive-edges_to r g v nodup (ground (arith, h, later)) in
          let other : (x == u) ≡ false = elim (Bool-cases (x == u)) [
            | inl same ↦
                let e : x ≡ u = ground (arith, same) in absurd (ground (arith, fresh, node, e))
            | inr other ↦ other
          ] in
          (u, ground (arith, other, node), out, ground (arith, other, edge))
    ]

unseen-absent : (r ks : List ℕ) (u : ℕ) → has ks u ≡ false → unseen (u ∷ r) ks ≡ unseen r ks
unfolding unseen
unseen-absent r [] u h = refl
unseen-absent r (x ∷ ks) u h = ground (arith, h, unseen-absent r ks u)

pub unseen-cons :
    (r ks : List ℕ) (u : ℕ)
    → Nodup ks
    → has ks u ≡ true
    → has r u ≡ false
    → unseen r ks ≡ suc (unseen (u ∷ r) ks)
unfolding unseen
unseen-cons r [] u nodup node out = absurd (ground arith)
unseen-cons r (x ∷ ks) u (fresh, nodup) node out = elim (Bool-cases (x == u)) [
  | inl here ↦
      let same : x ≡ u = ground arith in
      ground (arith, same, here, out, unseen-absent r ks u (rw same at fresh))
  | inr later ↦ ground (arith, later, unseen-cons r ks u nodup (ground (arith, later, node)) out)
]

-- If nothing is unseen, every node is in `r`.
pub unseen-zero : (r ks : List ℕ) (v : ℕ) → unseen r ks ≡ 0 → has ks v ≡ true → has r v ≡ true
unfolding unseen
unseen-zero r [] v h node = absurd (ground arith)
unseen-zero r (x ∷ ks) v h node = ground (arith, h, node, unseen-zero r ks v)

pub unseen-positive :
    (r ks : List ℕ) → 0 < unseen r ks → (v : ℕ) × (has ks v ≡ true) × (has r v ≡ false)
unfolding unseen
unseen-positive r [] h = absurd (omega arith)
unseen-positive r (x ∷ ks) h = elim (Bool-cases (has r x)) [
  | inr out ↦ (x, ground arith, out)
  | inl in_r ↦
      let (v, node, out) = unseen-positive r ks (ground (arith, h, in_r)) in
      (v, ground (arith, node), out)
]

pub unseen-all : (ks : List ℕ) → unseen [] ks ≡ length ks
unfolding unseen
unseen-all [] = refl
unseen-all (x ∷ ks) = omega (arith, unseen-all ks)
