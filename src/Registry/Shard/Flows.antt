-- ===== src/Registry/Shard/Flows.antt =====
-- pkg/epp/flowcontrol/registry/shard.go: which flows have a queue after an operation.
use text.Mathlib.Text.{◌==◌ as str_eq}
use text.Mathlib.TextEquality.{eq_iff}
use Prim.Native.String.{String}
use llm_d_inference_schedule.Prelude.{
  if◌then◌else◌, true, false, ◌||◌, ◌&&◌, not, Option, none, some, List, [], ◌≡◌, refl, ap, arith,
  inl, inr, Bool-cases, Option-cases, lookup, has_key, put, delete, lookup-put, lookup-delete,
  lookup-adjust,
}
use llm_d_inference_schedule.Prelude.Int.{ℤ, eq_ℤ, eq_ℤ_iff}
use llm_d_inference_schedule.Prelude.Outcome.{ok, Yields, yields}
use llm_d_inference_schedule.Flow.{FlowKey, key_eq}
use llm_d_inference_schedule.Registry.Config.{OrderingPolicy, QueueKind}
use llm_d_inference_schedule.Registry.ManagedQueue.{Counters, add_delta}
use llm_d_inference_schedule.Registry.Shard.{
  FlowQueue, PriorityBand, Shard, delete_priority_band, synchronize_flow, delete_flow,
  propagate_shard_delta, managed_queue,
}
use llm_d_inference_schedule.Registry.Shard.Bands.{
  has_band, stats_at, queues_at, has_queue, has-put, queues-put, stats-put, replaced,
}

key_eq-parts : (a b : FlowKey) → key_eq a b ≡ (str_eq a.id b.id && eq_ℤ a.priority b.priority)
unfolding key_eq
key_eq-parts a b = refl

-- A flow that has a queue is found.
pub managed_queue-finds :
    (s : Shard) (key : FlowKey)
    → has_queue s.priority_bands key ≡ true
    → (mq : FlowQueue) × (managed_queue s key ≡ ok mq)
unfolding managed_queue
managed_queue-finds s key h = elim (Option-cases (lookup eq_ℤ s.priority_bands key.priority)) [
  | inl missing ↦ absurd (ground (arith, missing))
  | inr (band, found) ↦ elim (Option-cases (lookup str_eq band.queues key.id)) [
    | inl missing ↦ absurd (ground (arith, found, missing))
    | inr (mq, there) ↦ (mq, rw (managed_queue, found, there) refl)
  ]
]

-- The band at a priority takes another queue.
queue_joins :
    (bands : List (ℤ × PriorityBand)) (key : FlowKey) (band : PriorityBand) (mq : FlowQueue)
    → lookup eq_ℤ bands key.priority ≡ some band
    → (j : FlowKey)
    → has_queue
        (put eq_ℤ bands key.priority (record band { queues = put str_eq band.queues key.id mq }))
        j
      ≡ (key_eq key j || has_queue bands j)
queue_joins bands key band mq found j =
    let after : PriorityBand = record band { queues = put str_eq band.queues key.id mq } in
    elim (Bool-cases (eq_ℤ key.priority j.priority)) [
      | inl hit ↦ ground (
        arith,
        hit,
        found,
        eq_ℤ_iff key.priority j.priority,
        key_eq-parts key j,
        queues-put bands key.priority after j.priority,
        lookup-put str_eq eq_iff band.queues key.id mq j.id,
      )
      | inr miss ↦
          ground (arith, miss, key_eq-parts key j, queues-put bands key.priority after j.priority)
    ]

-- The flow has a queue, and no other flow loses its own.
pub synchronize_flow_lem :
    (s : Shard) (key : FlowKey) (policy : Option OrderingPolicy) (kind : QueueKind)
    → has_band s.priority_bands key.priority ≡ true
    → Yields
        (λ s'.
          ((p : ℤ)
            → (has_band s'.priority_bands p ≡ has_band s.priority_bands p)
              × (stats_at s'.priority_bands p ≡ stats_at s.priority_bands p))
          × ((j : FlowKey)
              → has_queue s'.priority_bands j ≡ (key_eq key j || has_queue s.priority_bands j))
          × (s'.ordered_priority_levels ≡ s.ordered_priority_levels)
          × (s'.totals ≡ s.totals))
        (synchronize_flow s key policy kind)
unfolding synchronize_flow
synchronize_flow_lem s key policy kind h =
    elim (Option-cases (lookup eq_ℤ s.priority_bands key.priority)) [
      | inl missing ↦ absurd (ground (arith, missing))
      | inr (band, found) ↦ elim (Bool-cases (has_key str_eq band.queues key.id)) [
        | inl there ↦
            rw (found, there)
              (yields (
                λ p. (refl, refl),
                λ j. ground (
                  arith,
                  found,
                  there,
                  key_eq-parts key j,
                  eq_iff key.id j.id,
                  eq_ℤ_iff key.priority j.priority,
                ),
                refl,
                refl,
              ))
        | inr new ↦
            rw (found, new)
              (yields (
                replaced s.priority_bands key.priority _ band found refl,
                λ j. queue_joins s.priority_bands key band _ found j,
                refl,
                refl,
              ))
      ]
    ]

-- Only the flow loses its queue.
pub delete_flow_lem :
    (s : Shard) (key : FlowKey)
    → let s' = delete_flow s key in
      ((p : ℤ)
        → (has_band s'.priority_bands p ≡ has_band s.priority_bands p)
          × (stats_at s'.priority_bands p ≡ stats_at s.priority_bands p))
      × ((j : FlowKey)
          → has_queue s'.priority_bands j ≡ (has_queue s.priority_bands j && not (key_eq key j)))
unfolding delete_flow
delete_flow_lem s key =
    let without : PriorityBand → PriorityBand =
      λ band. record band { queues = delete str_eq band.queues key.id } in
    let seen : (p : ℤ)
        → lookup eq_ℤ (delete_flow s key).priority_bands p ≡ (
            if eq_ℤ key.priority p
            then elim (lookup eq_ℤ s.priority_bands p) [ none ↦ none | some v ↦ some (without v) ]
            else lookup eq_ℤ s.priority_bands p) =
      lookup-adjust eq_ℤ eq_ℤ_iff s.priority_bands key.priority without in
    (
      λ p. (ground (arith, seen p), ground (arith, seen p)),
      λ j. elim (Option-cases (lookup eq_ℤ s.priority_bands j.priority)) [
        | inl missing ↦ ground (arith, missing, seen j.priority)
        | inr (band, found) ↦ ground (
          arith,
          found,
          seen j.priority,
          key_eq-parts key j,
          lookup-delete str_eq eq_iff band.queues key.id j.id,
        )
      ],
    )

-- Only the bands of the priority go.
pub delete_priority_band_lem :
    (s : Shard) (p : ℤ)
    → let s' = delete_priority_band s p in
      ((q : ℤ)
        → (has_band s'.priority_bands q ≡ (has_band s.priority_bands q && not (eq_ℤ p q)))
          × (stats_at s'.priority_bands q
              ≡ (if eq_ℤ p q then none else stats_at s.priority_bands q)))
      × ((j : FlowKey)
          → eq_ℤ p j.priority ≡ false
          → has_queue s'.priority_bands j ≡ has_queue s.priority_bands j)
unfolding delete_priority_band
delete_priority_band_lem s p = (
  λ q. (
    ground (arith, lookup-delete eq_ℤ eq_ℤ_iff s.priority_bands p q),
    ground (arith, lookup-delete eq_ℤ eq_ℤ_iff s.priority_bands p q),
  ),
  λ j other.
      let same : lookup eq_ℤ (delete eq_ℤ s.priority_bands p) j.priority
          ≡ lookup eq_ℤ s.priority_bands j.priority =
        ground (arith, lookup-delete eq_ℤ eq_ℤ_iff s.priority_bands p j.priority) in
      ap
        (λ found.
          has_key str_eq
            (elim found as (λ _. List (String × FlowQueue)) [ none ↦ [] | some band ↦ band.queues ])
            j.id)
        same,
)

-- A delta goes to the band's stats and to the totals.
pub propagate_shard_delta_lem :
    (s : Shard) (p : ℤ) (delta : Counters)
    → has_band s.priority_bands p ≡ true
    → Yields
        (λ s'.
          ((q : ℤ)
            → (has_band s'.priority_bands q ≡ has_band s.priority_bands q)
              × (queues_at s'.priority_bands q ≡ queues_at s.priority_bands q)
              × (stats_at s'.priority_bands q ≡ (
                  if eq_ℤ p q
                  then elim (stats_at s.priority_bands p) [
                    | none ↦ none
                    | some stats ↦ some (add_delta stats delta)
                  ]
                  else stats_at s.priority_bands q)))
          × (s'.ordered_priority_levels ≡ s.ordered_priority_levels)
          × (s'.totals ≡ add_delta s.totals delta))
        (propagate_shard_delta s p delta)
unfolding propagate_shard_delta
propagate_shard_delta_lem s p delta h = elim (Option-cases (lookup eq_ℤ s.priority_bands p)) [
  | inl missing ↦ absurd (ground (arith, missing))
  | inr (band, found) ↦
      let after : PriorityBand = record band { stats = add_delta band.stats delta } in
      rw found (
        yields (
          λ q. (
            ground (arith, found, has-put s.priority_bands p after q, eq_ℤ_iff p q),
            ground (arith, found, queues-put s.priority_bands p after q, eq_ℤ_iff p q),
            ground (arith, found, stats-put s.priority_bands p after q),
          ),
          refl,
          refl,
        ))
]
