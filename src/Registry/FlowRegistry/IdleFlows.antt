-- ===== src/Registry/FlowRegistry/IdleFlows.antt =====
-- pkg/epp/flowcontrol/registry/registry.go: the collection of idle flows leaves the registry sound, and
-- takes no queue of a flow that has a session.
use llm_d_inference_schedule.Prelude.{
  ℕ, suc, ◌+◌, if◌then◌else◌, true, false, List, [], ◌∷◌, ◌≡◌, refl, ◌∙◌, ap, arith, All, inl, inr,
  Bool-cases, has_key, All-adjust, has_key-adjust, All-keys, All-weaken, All-zip,
}
use llm_d_inference_schedule.Prelude.Int.{ℤ, pos, eq_ℤ, eq_ℤ_iff, pos_part}
use llm_d_inference_schedule.Flow.{FlowKey, key_eq, key_eq_iff}
use llm_d_inference_schedule.Registry.Leasing.{LeasedState, collect_leased_resources}
use llm_d_inference_schedule.Registry.Shard.{Shard, delete_flow}
use llm_d_inference_schedule.Registry.Shard.Bands.{has_queue, has_band, stats_at}
use llm_d_inference_schedule.Registry.Shard.Flows.{delete_flow_lem}
use llm_d_inference_schedule.Registry.FlowRegistry.{FlowRegistry, unpin_key}
use llm_d_inference_schedule.Registry.FlowRegistry.Collection.{
  release_bands, cleanup_flow_resources, gc_flows,
}
use llm_d_inference_schedule.Registry.FlowRegistry.Topology.{same-IsTopology}
use llm_d_inference_schedule.Registry.FlowRegistry.Leases.{
  flows_of, Counts, IsSound, unpin-Counts, collect-Counts, collect-keeps, collect-keys,
  flows_of-collect,
}

-- The collected flows' bands lose as many leases.
release_bands-Counts :
    (cleaned : List (FlowKey × LeasedState)) (bands : List (ℤ × LeasedState)) (now : ℕ)
    (rest : ℤ → ℕ)
    → All (λ x. Counts x.1 (rest x.0 + flows_of x.0 cleaned)) bands
    → All (λ x. Counts x.1 (rest x.0)) (release_bands cleaned bands now)
unfolding release_bands unpin_key
release_bands-Counts [] bands now rest h =
    All-weaken bands (λ x (count, mark). (count ∙ ap pos (omega arith), mark)) h
release_bands-Counts ((key, state) ∷ cleaned) bands now rest h =
    release_bands-Counts cleaned _ now rest (
      All-adjust eq_ℤ _ (λ x. Counts x.1 (rest x.0 + flows_of x.0 cleaned)) bands key.priority _
        (λ x v same counts.
          let one_more : rest x + ((if eq_ℤ key.priority x then 1 else 0) + flows_of x cleaned)
              ≡ suc (rest x + flows_of x cleaned) =
            ground (arith, same, eq_ℤ_iff x key.priority, eq_ℤ_iff key.priority x) in
          unpin-Counts v (rest x + flows_of x cleaned) now (counts.0 ∙ ap pos one_more, counts.1))
        (λ x v other counts.
          let as_many : rest x + ((if eq_ℤ key.priority x then 1 else 0) + flows_of x cleaned)
              ≡ rest x + flows_of x cleaned =
            ground (arith, other, eq_ℤ_iff x key.priority, eq_ℤ_iff key.priority x) in
          (counts.0 ∙ ap pos as_many, counts.1))
        h)

has-release_bands :
    (cleaned : List (FlowKey × LeasedState)) (bands : List (ℤ × LeasedState)) (now : ℕ) (p : ℤ)
    → has_key eq_ℤ (release_bands cleaned bands now) p ≡ has_key eq_ℤ bands p
unfolding release_bands unpin_key
has-release_bands [] bands now p = refl
has-release_bands ((key, state) ∷ cleaned) bands now p =
    has-release_bands cleaned _ now p ∙ has_key-adjust eq_ℤ bands key.priority _ p

-- The clean-up of flows changes no band, and takes no queue of a flow that is in the map.
abbrev Spares : List (FlowKey × LeasedState) → Shard → Shard → Type 0
Spares m s s' =
    ((p : ℤ)
      → (has_band s'.priority_bands p ≡ has_band s.priority_bands p)
        × (stats_at s'.priority_bands p ≡ stats_at s.priority_bands p))
    × (s'.ordered_priority_levels ≡ s.ordered_priority_levels)
    × (s'.totals ≡ s.totals)
    × ((j : FlowKey)
        → has_key key_eq m j ≡ true
        → has_queue s'.priority_bands j ≡ has_queue s.priority_bands j)

delete_flow-Spares :
    (m : List (FlowKey × LeasedState)) (key : FlowKey) (s : Shard)
    → has_key key_eq m key ≡ false
    → Spares m s (delete_flow s key)
unfolding delete_flow
delete_flow-Spares m key s gone = (
  (delete_flow_lem s key).0,
  refl,
  refl,
  λ j there.
      let other : key_eq key j ≡ false = elim (Bool-cases (key_eq key j)) [
        | inl same ↦
            absurd (ground (arith, gone, there, ap (has_key key_eq m) ((key_eq_iff key j).0 same)))
        | inr differ ↦ differ
      ] in
      ground (arith, (delete_flow_lem s key).1 j, other),
)

clean_flow-Spares :
    (m : List (FlowKey × LeasedState)) (key : FlowKey) (s : Shard)
    → Spares m s (if has_key key_eq m key then s else delete_flow s key)
clean_flow-Spares m key s = elim (Bool-cases (has_key key_eq m key)) [
  | inl back ↦ rw back (λ p. (refl, refl), refl, refl, λ j there. refl)
  | inr gone ↦ rw gone (delete_flow-Spares m key s gone)
]

cleanup_flow_resources-Spares :
    (m cleaned : List (FlowKey × LeasedState)) (s : Shard)
    → Spares m s (cleanup_flow_resources m cleaned s)
unfolding cleanup_flow_resources
cleanup_flow_resources-Spares m [] s = (λ p. (refl, refl), refl, refl, λ j there. refl)
cleanup_flow_resources-Spares m ((key, state) ∷ cleaned) s =
    let after : Shard = if has_key key_eq m key then s else delete_flow s key in
    let (bands, levels, totals, queues) = clean_flow-Spares m key s in
    let (bands', levels', totals', queues') = cleanup_flow_resources-Spares m cleaned after in
    (
      λ p. ((bands' p).0 ∙ (bands p).0, (bands' p).1 ∙ (bands p).1),
      levels' ∙ levels,
      totals' ∙ totals,
      λ j there. queues' j there ∙ queues j there,
    )

module _ (held : FlowKey → ℕ) (fr : FlowRegistry) (now : ℕ) (s : IsSound held fr) where
  -- The collection of idle flows.
  pub gc_flows-IsSound : IsSound held (gc_flows fr now)
  unfolding gc_flows
  gc_flows-IsSound =
      let timeout = pos_part fr.config.flow_gc_timeout in
      let (kept, cleaned) = collect_leased_resources fr.flow_states timeout now in
      let (bands, levels, totals, queues) = cleanup_flow_resources-Spares kept cleaned fr.shard in
      let split : (p : ℤ) → flows_of p fr.flow_states ≡ flows_of p kept + flows_of p cleaned =
        λ p. flows_of-collect p fr.flow_states timeout now in
      record {
        topology = same-IsTopology fr _ refl refl refl totals levels bands s.topology;
        leases = record {
          leased = collect-Counts key_eq fr.flow_states timeout now held s.leases.leased;
          stored = λ j leased.
              collect-keeps key_eq fr.flow_states timeout now held (λ a b. (key_eq_iff a b).0)
                s.leases.leased j leased (s.leases.stored j leased);
          queued =
              All-zip kept (λ x q there. queues x.0 there ∙ q)
                (collect-keys key_eq (λ k. has_queue fr.shard.priority_bands k ≡ true)
                  fr.flow_states timeout now s.leases.queued)
                (All-keys key_eq key_eq_iff (λ k. has_key key_eq kept k ≡ true) kept
                  (λ k there. there));
          banded =
              release_bands-Counts cleaned fr.priority_band_states now (λ p. flows_of p kept)
                (All-weaken fr.priority_band_states
                  (λ x (count, mark). (count ∙ ap pos (split x.0), mark)) s.leases.banded);
          pinned = λ p some_flow.
              has-release_bands cleaned fr.priority_band_states now p
              ∙ s.leases.pinned p (omega (arith, split p, some_flow));
        };
      }
