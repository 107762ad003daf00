-- ===== src/Registry/FlowRegistry/Opening.antt =====
-- pkg/epp/flowcontrol/registry/registry.go: WithConnection up to the callback.
use text.Mathlib.Text.{◌==◌ as str_eq}
use llm_d_inference_schedule.Prelude.{
  ℕ, suc, false, Option, none, some, ◌≡◌, refl, ◌∙◌, ap, arith, inl, inr, Bool-cases, has_key,
  delete, All-adjust, has_key-adjust, delete-adjust-put, All-weaken,
}
use llm_d_inference_schedule.Prelude.Int.{pos, eq_ℤ, eq_ℤ_iff}
use llm_d_inference_schedule.Prelude.Outcome.{Error, Yields, yields, Yields-then}
use llm_d_inference_schedule.Flow.{FlowKey, key_eq, key_eq_iff}
use llm_d_inference_schedule.Registry.Leasing.{fresh_lease, unpin}
use llm_d_inference_schedule.Registry.FlowRegistry.{
  FlowRegistry, load_or_store, pin_leased_resource, unpin_key, settle_init, connect,
}
use llm_d_inference_schedule.Registry.FlowRegistry.Topology.{same-IsTopology}
use llm_d_inference_schedule.Registry.FlowRegistry.Leases.{flows_of, Counts, IsSound, unpin-Counts}
use llm_d_inference_schedule.Registry.FlowRegistry.Sessions.{opened, reopened-IsSound}
use llm_d_inference_schedule.Registry.FlowRegistry.Provisioning.{
  states, bands, grown, bands_banded, has-bands, Provisioned, ensure-Provisioned,
}

-- The session is open, or an error is returned and no session is.
abbrev pub Opens : (FlowKey → ℕ) → FlowKey → FlowRegistry × Option Error → Type 0
Opens held key (fr', none) = IsSound (opened held key) fr'
Opens held key (fr', some e) = IsSound held fr'

module _ (held : FlowKey → ℕ) (fr : FlowRegistry) (key : FlowKey) (now : ℕ)
    (s : IsSound held fr) where
  -- The branch on the initialization's error takes back what the new flow was given.
  settle_init-Opens :
      (new : has_key key_eq fr.flow_states key ≡ false) (result : FlowRegistry × Option Error)
      → Provisioned held fr key s new result
      → Opens held key (settle_init key now result)
  unfolding settle_init unpin_key
  settle_init-Opens new (fr', none) sound = sound
  settle_init-Opens new (fr', some e) (topology, same_states, same_bands, queues) =
      let restored : delete key_eq fr'.flow_states key ≡ fr.flow_states =
        ap (λ m. delete key_eq m key) same_states
        ∙ delete-adjust-put key_eq key_eq_iff fr.flow_states key fresh_lease _ new in
      record {
        topology = same-IsTopology fr' _ refl refl refl refl refl (λ p. (refl, refl)) topology;
        leases = record {
          leased = rw restored s.leases.leased;
          stored = λ j leased. ap (λ m. has_key key_eq m j) restored ∙ s.leases.stored j leased;
          queued = rw restored (All-weaken fr.flow_states (λ x q. queues x.0 ∙ q) s.leases.queued);
          banded =
              rw (restored, same_bands)
                (All-adjust eq_ℤ (λ x. Counts x.1 (flows_of x.0 (states held fr key s)))
                  (λ x. Counts x.1 (flows_of x.0 fr.flow_states)) (bands held fr key s) key.priority
                  _
                  (λ x v same counts.
                    let more : flows_of x (states held fr key s) ≡ suc (flows_of x fr.flow_states) =
                      ground (
                        arith,
                        grown held fr key s new x,
                        same,
                        eq_ℤ_iff x key.priority,
                        eq_ℤ_iff key.priority x,
                      ) in
                    unpin-Counts v (flows_of x fr.flow_states) now
                      (counts.0 ∙ ap pos more, counts.1))
                  (λ x v other counts.
                    let as_much : flows_of x (states held fr key s) ≡ flows_of x fr.flow_states =
                      ground (
                        arith,
                        grown held fr key s new x,
                        other,
                        eq_ℤ_iff x key.priority,
                        eq_ℤ_iff key.priority x,
                      ) in
                    (counts.0 ∙ ap pos as_much, counts.1))
                  (bands_banded held fr key s new));
          pinned = λ p some_flow. ground (
            arith,
            has_key-adjust eq_ℤ fr'.priority_band_states key.priority (λ state. unpin state now) p,
            ap (λ m. has_key eq_ℤ m p) same_bands,
            has-bands held fr key s new p,
            ap (flows_of p) restored,
            some_flow,
            s.leases.pinned p,
          );
        };
      }

  -- From a sound registry WithConnection does not panic: it opens the session, on a flow that has a
  -- queue, or returns an error and leaves no session, flow or lease behind; both ways the registry is
  -- sound.
  pub connect-Opens : Yields (Opens held key) (connect fr key now)
  unfolding connect pin_leased_resource load_or_store
  connect-Opens = elim (Bool-cases (str_eq key.id "")) [
    | inl empty ↦ rw empty (yields s)
    | inr named ↦ elim (Bool-cases (has_key key_eq fr.flow_states key)) [
      | inl there ↦ rw (named, there) (yields (reopened-IsSound held fr key s there))
      | inr new ↦
          rw (named, new)
            (Yields-then (ensure-Provisioned held fr key s new)
              (λ result provisioned. yields (settle_init-Opens new result provisioned)))
    ]
  ]
