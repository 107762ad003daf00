-- ===== src/Registry/FlowRegistry/Provisioning.antt =====
-- pkg/epp/flowcontrol/registry/registry.go: the first session of a flow, which provisions the flow or
-- leaves the registry as if it had not been asked for.
use text.Mathlib.Text.{◌==◌ as str_eq}
use Prim.Native.String.{String}
use llm_d_inference_schedule.Prelude.{
  ℕ, suc, ◌+◌, if◌then◌else◌, true, false, ◌||◌, Option, none, some, List, ◌≡◌, refl, ◌∙◌, sym, ap,
  arith, All, inl, inr, Bool-cases, Option-cases, lookup, has_key, put, adjust, All-weaken, All-put,
  All-adjust, has_key-adjust, lookup-put, ◌⊎◌,
}
use llm_d_inference_schedule.Prelude.Int.{ℤ, pos, eq_ℤ, eq_ℤ_iff}
use llm_d_inference_schedule.Prelude.Outcome.{
  ok, err, no_queue_registered, Error, Yields, yields, Yields-then,
}
use llm_d_inference_schedule.Flow.{FlowKey, key_eq, key_eq_iff}
use llm_d_inference_schedule.Registry.Config.{
  OrderingPolicy, QueueKind, list_queue, max_min_heap, new_queue_from_name,
}
use llm_d_inference_schedule.Registry.Leasing.{LeasedState, fresh_lease, try_pin}
use llm_d_inference_schedule.Registry.Shard.Bands.{has_queue}
use llm_d_inference_schedule.Registry.Shard.Flows.{synchronize_flow_lem}
use llm_d_inference_schedule.Registry.FlowRegistry.{
  FlowRegistry, load_or_store, build_flow_components, synchronize_shard, ensure_flow_infrastructure,
}
use llm_d_inference_schedule.Registry.FlowRegistry.Topology.{
  IsTopology, same-IsTopology, ensure_priority_band-Provisions,
}
use llm_d_inference_schedule.Registry.FlowRegistry.Leases.{
  flows_of, Counts, IsSound, try_pin-Counts, flows_of-put, flows_of-adjust,
}
use llm_d_inference_schedule.Registry.FlowRegistry.Sessions.{opened, key_eq-sym}

new_queue_from_name-cases :
    (name : String)
    → ((kind : QueueKind) × (new_queue_from_name name ≡ ok kind))
      ⊎ ((e : Error) × (new_queue_from_name name ≡ err e))
unfolding new_queue_from_name
new_queue_from_name-cases name = elim (Bool-cases (str_eq name "ListQueue")) [
  | inl list ↦ inl (list_queue, rw (new_queue_from_name, list) refl)
  | inr other ↦ elim (Bool-cases (str_eq name "MaxMinHeap")) [
    | inl heap ↦ inl (max_min_heap, rw (new_queue_from_name, other, heap) refl)
    | inr none_such ↦ inr (no_queue_registered, rw (new_queue_from_name, other, none_such) refl)
  ]
]

-- The components are built or an error is returned, where the band is configured.
build_flow_components-cases :
    (fr : FlowRegistry) (key : FlowKey)
    → has_key eq_ℤ fr.config.priority_bands key.priority ≡ true
    → ((policy : Option OrderingPolicy) × (kind : QueueKind) × (build_flow_components fr key
          ≡ ok (policy, kind)))
      ⊎ ((e : Error) × (build_flow_components fr key ≡ err e))
unfolding build_flow_components
build_flow_components-cases fr key there =
    elim (Option-cases (lookup eq_ℤ fr.config.priority_bands key.priority)) [
      | inl missing ↦ absurd (ground (arith, missing))
      | inr (band, found) ↦ elim (new_queue_from_name-cases band.queue) [
        | inl (kind, made) ↦
            inl (band.ordering_policy, kind, rw (build_flow_components, found, made) refl)
        | inr (e, failed) ↦ inr (e, rw (build_flow_components, found, failed) refl)
      ]
    ]

module _ (held : FlowKey → ℕ) (fr : FlowRegistry) (key : FlowKey) (s : IsSound held fr) where
  abbrev pub states : List (FlowKey × LeasedState)
  states =
      adjust key_eq (put key_eq fr.flow_states key fresh_lease) key (λ state. (try_pin state).0)

  abbrev pub bands : List (ℤ × LeasedState)
  unfolding load_or_store
  bands =
      adjust eq_ℤ (load_or_store eq_ℤ fr.priority_band_states key.priority fresh_lease) key.priority
        (λ state. (try_pin state).0)

  abbrev pub joined_registry : FlowRegistry
  joined_registry = record fr { flow_states = states; priority_band_states = bands }

  module _ (new : has_key key_eq fr.flow_states key ≡ false) where
    pub unheld : held key ≡ 0
    unheld = ground (arith, s.leases.stored key)

    pub grown :
        (p : ℤ)
        → flows_of p states ≡ flows_of p fr.flow_states + (if eq_ℤ key.priority p then 1 else 0)
    grown p =
        flows_of-adjust p (put key_eq fr.flow_states key fresh_lease) key _
        ∙ flows_of-put p fr.flow_states key fresh_lease new

    states_leased : All (λ x. Counts x.1 (opened held key x.0)) states
    states_leased =
        All-adjust key_eq (λ x. Counts x.1 (held x.0)) _ (put key_eq fr.flow_states key fresh_lease)
          key _
          (λ x v same counts.
            let more : opened held key x ≡ suc (held x) = ground (arith, same, key_eq-sym x key) in
            rw more (try_pin-Counts v (held x) counts))
          (λ x v other counts.
            let as_much : opened held key x ≡ held x = ground (arith, other, key_eq-sym x key) in
            rw as_much counts)
          (All-put key_eq _ fr.flow_states key fresh_lease (ap pos (sym unheld), refl)
            s.leases.leased)

    -- The bands before the pin: a new one counts no flow yet.
    loaded_bands :
        All
          (λ x. Counts x.1 (flows_of x.0 fr.flow_states))
          (load_or_store eq_ℤ fr.priority_band_states key.priority fresh_lease)
    unfolding load_or_store
    loaded_bands = elim (Bool-cases (has_key eq_ℤ fr.priority_band_states key.priority)) [
      | inl there ↦ rw there s.leases.banded
      | inr missing ↦
          let no_flow : flows_of key.priority fr.flow_states ≡ 0 =
            ground (arith, s.leases.pinned key.priority) in
          rw missing (
            All-put eq_ℤ _ fr.priority_band_states key.priority fresh_lease
              (ap pos (sym no_flow), refl) s.leases.banded)
    ]

    pub bands_banded : All (λ x. Counts x.1 (flows_of x.0 states)) bands
    unfolding load_or_store
    bands_banded =
        All-adjust eq_ℤ (λ x. Counts x.1 (flows_of x.0 fr.flow_states)) _
          (load_or_store eq_ℤ fr.priority_band_states key.priority fresh_lease) key.priority _
          (λ x v same counts.
            let more : flows_of x states ≡ suc (flows_of x fr.flow_states) =
              ground (arith, grown x, eq_ℤ_iff x key.priority, eq_ℤ_iff key.priority x, same) in
            rw more (try_pin-Counts v (flows_of x fr.flow_states) counts))
          (λ x v other counts.
            let as_much : flows_of x states ≡ flows_of x fr.flow_states =
              ground (arith, grown x, eq_ℤ_iff x key.priority, eq_ℤ_iff key.priority x, other) in
            rw as_much counts)
          loaded_bands

    -- The band states are those of before and that of the flow's priority.
    pub has-bands :
        (p : ℤ)
        → has_key eq_ℤ bands p ≡ (has_key eq_ℤ fr.priority_band_states p || eq_ℤ key.priority p)
    unfolding load_or_store
    has-bands p =
        has_key-adjust eq_ℤ (load_or_store eq_ℤ fr.priority_band_states key.priority fresh_lease)
          key.priority _ p
        ∙ elim (Bool-cases (has_key eq_ℤ fr.priority_band_states key.priority)) [
          | inl there ↦ rw there (ground (arith, there, eq_ℤ_iff key.priority p))
          | inr missing ↦ rw missing (
              ground (
                arith,
                lookup-put eq_ℤ eq_ℤ_iff fr.priority_band_states key.priority fresh_lease p,
              ))
        ]

    -- The registry before the flow is provisioned, with its states in place.
    joined-IsTopology : IsTopology joined_registry
    joined-IsTopology = same-IsTopology fr _ refl refl refl refl refl (λ p. (refl, refl)) s.topology

    -- What provisioning leaves: the session, or the states as they were and an error.
    abbrev pub Provisioned : FlowRegistry × Option Error → Type 0
    Provisioned (fr', none) = IsSound (opened held key) fr'
    Provisioned (fr', some e) =
        IsTopology fr'
        × (fr'.flow_states ≡ states)
        × (fr'.priority_band_states ≡ bands)
        × ((j : FlowKey)
            → has_queue fr'.shard.priority_bands j ≡ has_queue fr.shard.priority_bands j)

    -- A queue for the flow, next to those of the others, makes the registry sound.
    queued-IsSound :
        (fr' : FlowRegistry)
        → IsTopology fr'
        → fr'.flow_states ≡ states
        → fr'.priority_band_states ≡ bands
        → ((j : FlowKey)
            → has_queue fr'.shard.priority_bands j
              ≡ (key_eq key j || has_queue fr.shard.priority_bands j))
        → IsSound (opened held key) fr'
    queued-IsSound fr' topology same_states same_bands queues = record {
      topology = topology;
      leases = record {
        leased = rw same_states states_leased;
        stored = λ j leased.
            ap (λ m. has_key key_eq m j) same_states
            ∙ has_key-adjust key_eq (put key_eq fr.flow_states key fresh_lease) key _ j
            ∙ ground (
              arith,
              lookup-put key_eq key_eq_iff fr.flow_states key fresh_lease j,
              leased,
              s.leases.stored j,
            );
        queued = rw same_states (
            All-adjust key_eq (λ x. has_queue fr'.shard.priority_bands x.0 ≡ true) _
              (put key_eq fr.flow_states key fresh_lease) key _ (λ x v e q. q) (λ x v e q. q)
              (All-put key_eq _ fr.flow_states key fresh_lease
                (ground (arith, queues key, key_eq_iff key key))
                (All-weaken fr.flow_states (λ x q. ground (arith, queues x.0, q))
                  s.leases.queued)));
        banded = rw (same_states, same_bands) bands_banded;
        pinned = λ p some_flow. ground (
          arith,
          ap (λ m. has_key eq_ℤ m p) same_bands,
          has-bands p,
          ap (flows_of p) same_states,
          grown p,
          some_flow,
          s.leases.pinned p,
        );
      };
    }

    pub ensure-Provisioned : Yields Provisioned (ensure_flow_infrastructure joined_registry key)
    unfolding ensure_flow_infrastructure synchronize_shard
    ensure-Provisioned =
        Yields-then
          (ensure_priority_band-Provisions joined_registry key.priority joined-IsTopology
            (ground (arith, has-bands key.priority, eq_ℤ_iff key.priority key.priority)))
          (λ fr' (topology, has, queues, same_states, same_bands, configured).
            elim (build_flow_components-cases fr' key
              (ground (arith, configured key.priority, eq_ℤ_iff key.priority key.priority))) [
                | inl (policy, kind, built) ↦ rw built (
                    Yields-then (synchronize_flow_lem fr'.shard key policy kind has)
                      (λ shard (views, queues', levels, totals). yields (
                        queued-IsSound (record fr' { shard = shard })
                          (same-IsTopology fr' _ refl refl refl totals levels views topology)
                          same_states same_bands (λ j. ground (arith, queues' j, queues j)))))
                | inr (e, failed) ↦ rw failed (yields (topology, same_states, same_bands, queues))
              ])
