-- ===== src/Registry/Config/Choice.antt =====
-- pkg/epp/flowcontrol/registry/config.go: the queue that applyDefaults chooses suits the policy.
use text.Mathlib.Text.{◌==◌ as str_eq}
use llm_d_inference_schedule.Prelude.{
  if◌then◌else◌, false, some, [], ◌∷◌, ◌≡◌, refl, ◌∙◌, ap, arith, inl, inr, ◌⊎◌, ◌<◌,
}
use llm_d_inference_schedule.Prelude.Outcome.{ok, err, queue_required, Yields, yields}
use llm_d_inference_schedule.Registry.Config.{
  OrderingPolicy, FairnessPolicy, new_queue_from_name, capabilities, PriorityBandConfig,
  capability_fifo, capability_priority_configurable,
}
use llm_d_inference_schedule.Registry.Config.Defaults.{
  Handle, or_resolve, ordering_policy, fairness_policy, default_ordering_policy_ref,
  default_fairness_policy_ref, has_all, contains, check_compatibility, default_queue_for,
  apply_defaults, validate_band,
}

-- The policy requires nothing, or one of the capabilities that the queues have.
abbrev pub RequiresOne : OrderingPolicy → Type 0
RequiresOne o =
    (o.required_queue_capabilities ≡ [])
    ⊎ ((o.required_queue_capabilities ≡ capability_fifo ∷ [])
        ⊎ (o.required_queue_capabilities ≡ capability_priority_configurable ∷ []))

compatible :
    (o : OrderingPolicy) → RequiresOne o → check_compatibility o (default_queue_for o "") ≡ ok tt
unfolding check_compatibility default_queue_for contains has_all new_queue_from_name capabilities
compatible o (inl nothing) = rw nothing refl
compatible o (inr (inl fifo)) = rw fifo refl
compatible o (inr (inr heap)) = rw heap refl

-- The chosen queue passes the checks on a band's queue.
chosen :
    (o : OrderingPolicy)
    → RequiresOne o
    → (if str_eq (default_queue_for o "") ""
        then err queue_required
        else check_compatibility o (default_queue_for o ""))
      ≡ ok tt
unfolding default_queue_for contains
chosen o one =
    let named : str_eq (default_queue_for o "") "" ≡ false = elim one [
      | inl nothing ↦ rw nothing refl
      | inr (inl fifo) ↦ rw fifo refl
      | inr (inr heap) ↦ rw heap refl
    ] in
    ap
      (λ empty.
        if empty then err queue_required else check_compatibility o (default_queue_for o ""))
      named
    ∙ compatible o one

-- A band that names no queue, and whose policies are given or resolved, gets its defaults, keeps its
-- priority and its request limit, has a byte limit, and passes its check, if its ordering policy
-- requires at most one capability.
pub apply_defaults-validates :
    (handle : Handle) (b : PriorityBandConfig) (o : OrderingPolicy) (f : FairnessPolicy)
    → or_resolve b.ordering_policy (ordering_policy default_ordering_policy_ref handle) ≡ ok o
    → or_resolve b.fairness_policy (fairness_policy default_fairness_policy_ref handle) ≡ ok f
    → b.queue ≡ ""
    → RequiresOne o
    → Yields
        (λ b'.
          (validate_band (some check_compatibility) b' ≡ ok tt)
          × (b'.priority ≡ b.priority)
          × (b'.max_requests ≡ b.max_requests)
          × (0 < b'.max_bytes))
        (apply_defaults handle b)
unfolding apply_defaults validate_band
apply_defaults-validates handle b o f ordered fair unnamed one =
    rw (ordered, fair)
      (yields (
        ap
              (λ q.
                if str_eq (default_queue_for o q) ""
                then err queue_required
                else check_compatibility o (default_queue_for o q))
              unnamed
            ∙ chosen o one,
        refl,
        refl,
        ground arith,
      ))
