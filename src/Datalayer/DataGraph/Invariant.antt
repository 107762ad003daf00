-- ===== src/Datalayer/DataGraph/Invariant.antt =====
-- pkg/epp/datalayer/data_graph.go: the invariant of the main loop of the topological sort.
use llm_d_inference_schedule.Prelude.{
  Bool-cases, ℕ, zero, suc, ◌+◌, ◌<◌, ◌≡◌, refl, sym, ap, subst, ◌∙◌, inl, inr, ◌==◌, not, ◌&&◌,
  true, false, List, [], ◌∷◌, ◌++◌, length, has, count, List-cases, Nodup, has-keep, Nodup-keep,
  arith,
}
use llm_d_inference_schedule.Prelude.Int.{pos}
use llm_d_inference_schedule.Datalayer.DataGraph.{
  Graph, nodes, neighbors, in_degree, degree_keys, Search, is_zero, relax, Sorted, sorted,
  cycle_detected, out_of_fuel, reverse_onto, reverse, search, start,
}
use llm_d_inference_schedule.Datalayer.DataGraph.Degrees.{
  edges_to, unseen, Within, AllWithin, IsGraph, in_degree-pos, degree_keys-nodes, edges_to-cons,
  edges_to-positive, positive-edges_to, unseen-cons, unseen-zero, unseen-positive, unseen-all,
}
use llm_d_inference_schedule.Datalayer.DataGraph.Round.{IsRelaxing, relax-IsRelaxing}

-- Every node of the list has all nodes with an edge to it further back in the list.
abbrev pub Ordered : Graph → List ℕ → Type 0
Ordered g [] = Unit
Ordered g (x ∷ rest) =
    ((w : ℕ) → has (nodes g) w ≡ true → has (neighbors g w) x ≡ true → has rest w ≡ true)
    × Ordered g rest

-- A non-empty set of nodes, those outside `r`, each with an edge to it from the set.
abbrev pub IsStuck : Graph → List ℕ → Type 0
IsStuck g r =
    ((v : ℕ) × (has (nodes g) v ≡ true) × (has r v ≡ false))
    × ((v : ℕ)
        → has (nodes g) v ≡ true
        → has r v ≡ false
        → (w : ℕ) × (has (nodes g) w ≡ true) × (has r w ≡ false) × (has (neighbors g w) v ≡ true))

abbrev pub IsOutcome : Graph → Sorted → Type 0
IsOutcome g (sorted r) = Nodup r × ((v : ℕ) → has r v ≡ has (nodes g) v) × Ordered g r
IsOutcome g cycle_detected = (r : List ℕ) × IsStuck g r
IsOutcome g out_of_fuel = ⊥

reverse_onto-append_last :
    (xs ys : List ℕ) (u : ℕ) → reverse_onto (xs ++ u ∷ []) ys ≡ u ∷ reverse_onto xs ys
reverse_onto-append_last [] ys u = refl
reverse_onto-append_last (x ∷ xs) ys u = reverse_onto-append_last xs (x ∷ ys) u

length-reverse_onto : (xs ys : List ℕ) → length (reverse_onto xs ys) ≡ length xs + length ys
length-reverse_onto [] ys = omega arith
length-reverse_onto (x ∷ xs) ys = omega (arith, length-reverse_onto xs (x ∷ ys))

neighbors-Within :
    (keys : List ℕ) (g : Graph) (u : ℕ) → AllWithin keys g → Within keys (neighbors g u)
neighbors-Within keys [] u h = tt
neighbors-Within keys ((x, vs) ∷ g) u (here, rest) = elim (Bool-cases (x == u)) [
  | inl same ↦ rw same here
  | inr other ↦ rw other (neighbors-Within keys g u rest)
]

-- The state between two rounds, with the processed nodes `r`, the last one first.
pub record IsSorting (g : Graph) (r : List ℕ) (s : Search) : Type 0 where
  pub result : reverse s.result ≡ r
  pub relaxed : IsRelaxing (nodes g) r (edges_to r g) [] s
  pub known : (v : ℕ) → has r v ≡ true → has (nodes g) v ≡ true
  pub distinct : Nodup r
  pub ordered : Ordered g r
  pub counted : length r + unseen r (nodes g) ≡ length (nodes g)

module _ (g : Graph) (graph : IsGraph g) where
  pub start-IsSorting : IsSorting g [] (start g)
  unfolding start is_zero
  start-IsSorting = record {
    result = refl;
    relaxed = record {
      degrees = λ v. in_degree-pos g v ∙ ap pos (omega arith);
      settled = λ v h. absurd (ground (arith, h));
      queued = λ v. rw (degree_keys-nodes g graph) (
          has-keep (λ w. is_zero (in_degree g w)) (nodes g) v
          ∙ (let d = in_degree-pos g v in rw d (ground arith)));
      distinct =
          rw (degree_keys-nodes g graph)
            (Nodup-keep (λ w. is_zero (in_degree g w)) (nodes g) graph.0);
    };
    known = λ v h. absurd (ground (arith, h));
    distinct = tt;
    ordered = tt;
    counted = omega (arith, unseen-all (nodes g));
  }

  -- Taking a node from the queue.
  pop-IsRelaxing :
      (r : List ℕ) (s : Search) (u : ℕ) (rest : List ℕ)
      → IsSorting g r s
      → s.queue ≡ u ∷ rest
      → (has (nodes g) u ≡ true)
        × (has r u ≡ false)
        × (edges_to r g u ≡ 0)
        × IsRelaxing
            (nodes g)
            (u ∷ r)
            (edges_to (u ∷ r) g)
            (neighbors g u)
            (record s { queue = rest; result = s.result ++ u ∷ [] })
  pop-IsRelaxing r s u rest inv popped =
      let q : (has (u ∷ rest) u)
          ≡ (has (nodes g) u && (not (has r u) && (edges_to r g u + 0 == 0))) =
        rw popped at (inv.relaxed.queued u) in
      let node : has (nodes g) u ≡ true = ground (arith, q) in
      let out : has r u ≡ false = ground (arith, q) in
      let free : edges_to r g u ≡ 0 = ground (arith, q) in
      let split : (v : ℕ) → edges_to r g v ≡ edges_to (u ∷ r) g v + count v (neighbors g u) =
        λ v. edges_to-cons r u g v graph.0 node out in
      let queued : (v : ℕ)
          → has (u ∷ rest) v ≡ (has (nodes g) v && (not (has r v) && (edges_to r g v + 0 == 0))) =
        λ v. rw popped at (inv.relaxed.queued v) in
      let (fresh, distinct) : Nodup (u ∷ rest) = rw popped at inv.relaxed.distinct in
      let same : (v : ℕ) → (u == v) ≡ true → u ≡ v = λ v here. ground arith in
      (
        node,
        out,
        free,
        record {
          degrees = λ v. inv.relaxed.degrees v ∙ ap pos (omega (arith, split v));
          settled = λ v h. elim (Bool-cases (u == v)) [
            | inl here ↦ let e = same v here in sym (split v) ∙ ap (edges_to r g) (sym e) ∙ free
            | inr other ↦ omega (arith, split v, inv.relaxed.settled v (ground (arith, h, other)))
          ];
          queued = λ v. rw (sym (split v)) (elim (Bool-cases (u == v)) [
            | inl here ↦
                let e = same v here in
                subst
                  (λ w.
                    has rest w
                    ≡ (has (nodes g) w && (not (has (u ∷ r) w) && (edges_to r g w == 0))))
                  e (ground (arith, fresh))
            | inr other ↦ ground (arith, queued v, other)
          ]);
          distinct = distinct;
        },
      )

  before :
      (r : List ℕ) (u : ℕ)
      → edges_to r g u ≡ 0
      → (w : ℕ) → has (nodes g) w ≡ true
      → has (neighbors g w) u ≡ true
      → has r w ≡ true
  before r u free w node edge = elim (Bool-cases (has r w)) [
    | inl in_r ↦ in_r
    | inr out ↦ absurd (omega (arith, edges_to-positive r g w u node out edge))
  ]

  after_pop : Search → ℕ → List ℕ → Search
  after_pop s u rest =
      relax (neighbors g u) (record s { queue = rest; result = s.result ++ u ∷ [] })

  -- A round processes a node that was not processed before.
  round-IsSorting :
      (r : List ℕ) (s : Search) (u : ℕ) (rest : List ℕ)
      → IsSorting g r s
      → s.queue ≡ u ∷ rest
      → IsSorting g (u ∷ r) (after_pop s u rest)
        × (unseen r (nodes g) ≡ suc (unseen (u ∷ r) (nodes g)))
  unfolding after_pop
  round-IsSorting r s u rest inv popped =
      let (node, out, free, relaxing) = pop-IsRelaxing r s u rest inv popped in
      let within = neighbors-Within (nodes g) g u graph.1 in
      let (relaxed, same) =
        relax-IsRelaxing (nodes g) (u ∷ r) (edges_to (u ∷ r) g) (neighbors g u) _ within relaxing in
      let fewer = unseen-cons r (nodes g) u graph.0 node out in
      (
        record {
          result = ap reverse same ∙ reverse_onto-append_last s.result [] u ∙ ap (◌∷◌ u) inv.result;
          relaxed = relaxed;
          known = λ v h. elim (Bool-cases (u == v)) [
            | inl here ↦
                let e : u ≡ v = ground (arith, here) in subst (λ w. has (nodes g) w ≡ true) e node
            | inr other ↦ inv.known v (ground (arith, h, other))
          ];
          distinct = (out, inv.distinct);
          ordered = (before r u free, inv.ordered);
          counted = omega (arith, fewer, inv.counted);
        },
        fewer,
      )

  stuck :
      (r : List ℕ) (s : Search)
      → IsSorting g r s
      → s.queue ≡ []
      → 0 < unseen r (nodes g)
      → IsStuck g r
  stuck r s inv empty some_left = (
    unseen-positive r (nodes g) some_left,
    λ v node out.
        let queued : has [] v ≡ (has (nodes g) v && (not (has r v) && (edges_to r g v + 0 == 0))) =
          rw empty at (inv.relaxed.queued v) in
        positive-edges_to r g v graph.0 (ground (arith, queued, node, out)),
  )

  members :
      (r : List ℕ) (v : ℕ) (s : Search)
      → IsSorting g r s
      → unseen r (nodes g) ≡ 0
      → has r v ≡ has (nodes g) v
  members r v s inv none_left = elim (Bool-cases (has (nodes g) v)) [
    | inl node ↦ unseen-zero r (nodes g) v none_left node ∙ sym node
    | inr other ↦ elim (Bool-cases (has r v)) [
      | inl in_r ↦ absurd (ground (arith, inv.known v in_r, other))
      | inr out ↦ out ∙ sym other
    ]
  ]

  finish :
      (fuel : ℕ) (r : List ℕ) (s : Search)
      → IsSorting g r s
      → s.queue ≡ []
      → IsOutcome g (search g (suc fuel) s)
  unfolding search
  finish fuel r s inv empty =
      let size : length s.result ≡ length r =
        omega (arith, ap length inv.result, length-reverse_onto s.result []) in
      let total = ap length (degree_keys-nodes g graph) in
      elim (Bool-cases (length s.result == length (degree_keys g))) [
        | inl all ↦
            let count_all : length s.result ≡ length (degree_keys g) = ground (arith, all) in
            let none_left : unseen r (nodes g) ≡ 0 =
              omega (arith, inv.counted, total, size, count_all) in
            rw (empty, all, inv.result)
              (inv.distinct, (λ v. members r v s inv none_left), inv.ordered)
        | inr some_left ↦
            rw (empty, some_left)
              (r, stuck r s inv empty (ground (arith, inv.counted, total, size, some_left)))
      ]

  pub search-IsOutcome :
      (fuel : ℕ) (r : List ℕ) (s : Search)
      → IsSorting g r s
      → unseen r (nodes g) < fuel
      → IsOutcome g (search g fuel s)
  unfolding search after_pop
  search-IsOutcome zero r s inv h = absurd (omega arith)
  search-IsOutcome (suc fuel) r s inv h = elim (List-cases s.queue) [
    | inl empty ↦ finish fuel r s inv empty
    | inr (u, rest, popped) ↦
        let (next, fewer) = round-IsSorting r s u rest inv popped in
        let rec_call = search-IsOutcome fuel (u ∷ r) _ next (omega (arith, fewer, h)) in
        rw popped rec_call
  ]
