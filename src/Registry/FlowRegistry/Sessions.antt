-- ===== src/Registry/FlowRegistry/Sessions.antt =====
-- pkg/epp/flowcontrol/registry/registry.go: a session that opens or ends leaves the registry sound.
use llm_d_inference_schedule.Prelude.{
  ℕ, suc, ◌-◌, ◌<◌, if◌then◌else◌, true, List, ◌≡◌, refl, ◌∙◌, sym, ap, arith, All, inl, inr,
  Bool-cases, has_key, adjust, All-weaken, All-adjust, has_key-adjust,
}
use llm_d_inference_schedule.Prelude.Int.{ℤ, pos}
use llm_d_inference_schedule.Flow.{FlowKey, key_eq, key_eq_iff}
use llm_d_inference_schedule.Registry.Leasing.{LeasedState, try_pin, unpin}
use llm_d_inference_schedule.Registry.FlowRegistry.{FlowRegistry, unpin_key, release}
use llm_d_inference_schedule.Registry.FlowRegistry.Topology.{same-IsTopology}
use llm_d_inference_schedule.Registry.FlowRegistry.Leases.{
  flows_of, Counts, IsSound, try_pin-Counts, unpin-Counts, flows_of-adjust,
}

-- The open sessions, with one more or one fewer for a flow.
abbrev pub opened : (FlowKey → ℕ) → FlowKey → FlowKey → ℕ
opened held key j = if key_eq key j then suc (held j) else held j

abbrev pub closed : (FlowKey → ℕ) → FlowKey → FlowKey → ℕ
closed held key j = if key_eq key j then held j - 1 else held j

pub key_eq-sym : (a b : FlowKey) → key_eq a b ≡ key_eq b a
key_eq-sym a b = ground (arith, key_eq_iff a b, key_eq_iff b a)

-- A change of one flow's lease leaves every band its count.
banded-adjust :
    (m : List (FlowKey × LeasedState)) (bands : List (ℤ × LeasedState)) (key : FlowKey)
    (f : LeasedState → LeasedState)
    → All (λ x. Counts x.1 (flows_of x.0 m)) bands
    → All (λ x. Counts x.1 (flows_of x.0 (adjust key_eq m key f))) bands
banded-adjust m bands key f =
    All-weaken bands (λ x (count, mark). (count ∙ ap pos (sym (flows_of-adjust x.0 m key f)), mark))

module _ (held : FlowKey → ℕ) (fr : FlowRegistry) (key : FlowKey) (s : IsSound held fr) where
  -- A session of a flow that is there.
  pub reopened-IsSound :
      has_key key_eq fr.flow_states key ≡ true
      → IsSound (opened held key) (record fr {
        flow_states = adjust key_eq fr.flow_states key (λ state. (try_pin state).0);
      })
  reopened-IsSound there = record {
    topology = same-IsTopology fr _ refl refl refl refl refl (λ p. (refl, refl)) s.topology;
    leases = record {
      leased =
          All-adjust key_eq _ _ fr.flow_states key _
            (λ x v same counts.
              let more : opened held key x ≡ suc (held x) =
                ground (arith, same, key_eq-sym x key) in
              rw more (try_pin-Counts v (held x) counts))
            (λ x v other counts.
              let as_much : opened held key x ≡ held x = ground (arith, other, key_eq-sym x key) in
              rw as_much counts)
            s.leases.leased;
      stored = λ j leased.
          has_key-adjust key_eq fr.flow_states key _ j ∙ elim (Bool-cases (key_eq key j)) [
            | inl same ↦
                ap (has_key key_eq fr.flow_states) (sym ((key_eq_iff key j).0 same)) ∙ there
            | inr other ↦ s.leases.stored j (ground (arith, other, leased))
          ];
      queued =
          All-adjust key_eq _ _ fr.flow_states key _ (λ x v e q. q) (λ x v e q. q) s.leases.queued;
      banded = banded-adjust fr.flow_states fr.priority_band_states key _ s.leases.banded;
      pinned = λ p some_flow. s.leases.pinned p (
          omega
            (arith, some_flow, flows_of-adjust p fr.flow_states key (λ state. (try_pin state).0)));
    };
  }

  -- The end of a session.
  pub release-IsSound : (now : ℕ) → 0 < held key → IsSound (closed held key) (release fr key now)
  unfolding release unpin_key
  release-IsSound now open_session = record {
    topology = same-IsTopology fr _ refl refl refl refl refl (λ p. (refl, refl)) s.topology;
    leases = record {
      leased =
          All-adjust key_eq _ _ fr.flow_states key _
            (λ x v same counts.
              let one : held x ≡ suc (held x - 1) =
                ground (arith, open_session, ap held ((key_eq_iff x key).0 same)) in
              let less : closed held key x ≡ held x - 1 = ground (arith, same, key_eq-sym x key) in
              rw less (unpin-Counts v (held x - 1) now (counts.0 ∙ ap pos one, counts.1)))
            (λ x v other counts.
              let as_much : closed held key x ≡ held x = ground (arith, other, key_eq-sym x key) in
              rw as_much counts)
            s.leases.leased;
      stored = λ j leased.
          has_key-adjust key_eq fr.flow_states key _ j ∙ s.leases.stored j (ground (arith, leased));
      queued =
          All-adjust key_eq _ _ fr.flow_states key _ (λ x v e q. q) (λ x v e q. q) s.leases.queued;
      banded = banded-adjust fr.flow_states fr.priority_band_states key _ s.leases.banded;
      pinned = λ p some_flow. s.leases.pinned p (
          omega
            (arith, some_flow, flows_of-adjust p fr.flow_states key (λ state. unpin state now)));
    };
  }
