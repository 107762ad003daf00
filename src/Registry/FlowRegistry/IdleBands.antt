-- ===== src/Registry/FlowRegistry/IdleBands.antt =====
-- pkg/epp/flowcontrol/registry/registry.go: the collection of idle bands leaves the registry sound, and
-- takes no band that a flow counts on.
use llm_d_inference_schedule.Prelude.{
  ℕ, ◌<◌, if◌then◌else◌, true, List, [], ◌∷◌, ◌≡◌, refl, ◌∙◌, ap, arith, inl, inr, Bool-cases,
  has_key, delete, All-delete, All-keys, All-zip, lookup-delete,
}
use llm_d_inference_schedule.Prelude.Int.{ℤ, eq_ℤ, eq_ℤ_iff, pos_part}
use llm_d_inference_schedule.Flow.{FlowKey, key_eq, key_eq_iff}
use llm_d_inference_schedule.Registry.Config.Partition.{Own}
use llm_d_inference_schedule.Registry.Leasing.{LeasedState, collect_leased_resources}
use llm_d_inference_schedule.Registry.Shard.{delete_priority_band}
use llm_d_inference_schedule.Registry.Shard.Levels.{remove_level-Descending, has-remove_level}
use llm_d_inference_schedule.Registry.Shard.Bands.{has_queue}
use llm_d_inference_schedule.Registry.Shard.Flows.{delete_priority_band_lem}
use llm_d_inference_schedule.Registry.FlowRegistry.{FlowRegistry}
use llm_d_inference_schedule.Registry.FlowRegistry.Collection.{
  cleanup_priority_band_resources, gc_priority_bands,
}
use llm_d_inference_schedule.Registry.FlowRegistry.Topology.{IsTopology, same-IsTopology}
use llm_d_inference_schedule.Registry.FlowRegistry.Leases.{
  flows_of, IsSound, collect-Counts, collect-keeps, flows_of-member,
}

-- The clean-up of bands changes no state of a flow or band, and takes no queue of a flow whose band is
-- in the map.
abbrev SparesBands : FlowRegistry → FlowRegistry → Type 0
SparesBands fr fr' =
    IsTopology fr'
    × (fr'.flow_states ≡ fr.flow_states)
    × (fr'.priority_band_states ≡ fr.priority_band_states)
    × ((j : FlowKey)
        → has_key eq_ℤ fr.priority_band_states j.priority ≡ true
        → has_queue fr'.shard.priority_bands j ≡ has_queue fr.shard.priority_bands j)

abbrev without_band : FlowRegistry → ℤ → FlowRegistry
without_band fr priority = record fr {
  config = record fr.config { priority_bands = delete eq_ℤ fr.config.priority_bands priority };
  per_priority_band_stats = delete eq_ℤ fr.per_priority_band_stats priority;
  shard = delete_priority_band fr.shard priority;
}

without_band-IsTopology :
    (fr : FlowRegistry) (p : ℤ) → IsTopology fr → IsTopology (without_band fr p)
unfolding delete_priority_band
without_band-IsTopology fr p t = record {
  template = t.template;
  own = All-delete eq_ℤ Own fr.config.priority_bands p t.own;
  on_shard = λ q. ground (
    arith,
    ((delete_priority_band_lem fr.shard p).0 q).0,
    lookup-delete eq_ℤ eq_ℤ_iff fr.config.priority_bands p q,
    t.on_shard q,
  );
  counted = λ q. ground (
    arith,
    ((delete_priority_band_lem fr.shard p).0 q).1,
    lookup-delete eq_ℤ eq_ℤ_iff fr.per_priority_band_stats p q,
    t.counted q,
  );
  totalled = t.totalled;
  sorted = remove_level-Descending fr.shard.ordered_priority_levels p t.sorted;
  levelled = λ q. ground (
    arith,
    ((delete_priority_band_lem fr.shard p).0 q).0,
    has-remove_level fr.shard.ordered_priority_levels p q t.sorted,
    t.levelled q,
  );
}

clean_band-SparesBands :
    (fr : FlowRegistry) (p : ℤ)
    → IsTopology fr
    → SparesBands fr (if has_key eq_ℤ fr.priority_band_states p then fr else without_band fr p)
clean_band-SparesBands fr p t = elim (Bool-cases (has_key eq_ℤ fr.priority_band_states p)) [
  | inl back ↦ rw back (t, refl, refl, λ j there. refl)
  | inr gone ↦ rw gone (
    without_band-IsTopology fr p t,
    refl,
    refl,
    λ j there.
        (delete_priority_band_lem fr.shard p).1 j
          (ground (arith, eq_ℤ_iff p j.priority, gone, there)),
  )
]

cleanup_priority_band_resources-SparesBands :
    (cleaned : List (ℤ × LeasedState)) (fr : FlowRegistry)
    → IsTopology fr
    → SparesBands fr (cleanup_priority_band_resources cleaned fr)
unfolding cleanup_priority_band_resources
cleanup_priority_band_resources-SparesBands [] fr t = (t, refl, refl, λ j there. refl)
cleanup_priority_band_resources-SparesBands ((p, state) ∷ cleaned) fr t =
    let after : FlowRegistry =
      if has_key eq_ℤ fr.priority_band_states p then fr else without_band fr p in
    let (t₁, flows, bands, queues) = clean_band-SparesBands fr p t in
    let (t₂, flows', bands', queues') =
      cleanup_priority_band_resources-SparesBands cleaned after t₁ in
    (
      t₂,
      flows' ∙ flows,
      bands' ∙ bands,
      λ j there. queues' j (ap (λ m. has_key eq_ℤ m j.priority) bands ∙ there) ∙ queues j there,
    )

module _ (held : FlowKey → ℕ) (fr : FlowRegistry) (now : ℕ) (s : IsSound held fr) where
  -- The collection of idle bands: one that counts a flow is not idle.
  pub gc_priority_bands-IsSound : IsSound held (gc_priority_bands fr now)
  unfolding gc_priority_bands
  gc_priority_bands-IsSound =
      let timeout = pos_part fr.config.priority_band_gc_timeout in
      let (kept, cleaned) = collect_leased_resources fr.priority_band_states timeout now in
      let remaining : FlowRegistry = record fr { priority_band_states = kept } in
      let (topology, flows, bands, queues) =
        cleanup_priority_band_resources-SparesBands cleaned remaining
          (same-IsTopology fr remaining refl refl refl refl refl (λ p. (refl, refl)) s.topology) in
      let pinned : (p : ℤ) → 0 < flows_of p fr.flow_states → has_key eq_ℤ kept p ≡ true =
        λ p some_flow.
          collect-keeps eq_ℤ fr.priority_band_states timeout now (λ q. flows_of q fr.flow_states)
            (λ a b. (eq_ℤ_iff a b).0) s.leases.banded p some_flow (s.leases.pinned p some_flow) in
      record {
        topology = topology;
        leases = record {
          leased = rw flows s.leases.leased;
          stored = λ j leased. ap (λ m. has_key key_eq m j) flows ∙ s.leases.stored j leased;
          queued = rw flows (
              All-zip fr.flow_states
                (λ x q there.
                  queues x.0 (pinned x.0.priority (flows_of-member fr.flow_states x.0 there)) ∙ q)
                s.leases.queued
                (All-keys key_eq key_eq_iff (λ k. has_key key_eq fr.flow_states k ≡ true)
                  fr.flow_states (λ k there. there)));
          banded =
              rw (flows, bands)
                (collect-Counts eq_ℤ fr.priority_band_states timeout now
                  (λ q. flows_of q fr.flow_states) s.leases.banded);
          pinned = λ p some_flow.
              ap (λ m. has_key eq_ℤ m p) bands
              ∙ pinned p (omega (arith, some_flow, ap (flows_of p) flows));
        };
      }
