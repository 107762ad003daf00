-- ===== src/Examples/Registries.antt =====
-- A registry made from a configuration with one band, with one session on a band from the template.
use text.Mathlib.Text.{◌==◌ as str_eq}
use llm_d_inference_schedule.Prelude.{
  ℕ, ◌+◌, ◌/◌, ◌<◌, ◌≤◌, if◌then◌else◌, true, false, Option, none, some, [], ◌∷◌, ◌≡◌, refl,
  has_key, arith, inl,
}
use llm_d_inference_schedule.Prelude.Int.{pos, eq_ℤ}
use llm_d_inference_schedule.Prelude.Outcome.{ok, Yields}
use llm_d_inference_schedule.Flow.{FlowKey, key_eq, key_eq_iff}
use llm_d_inference_schedule.Registry.Config.{
  OrderingPolicy, FairnessPolicy, Config, partition_uint64, partition, partition_band,
  new_queue_from_name,
}
use llm_d_inference_schedule.Registry.Config.Defaults.{
  Handle, as_policy, or_resolve, ordering_policy, fairness_policy, apply_defaults, validate_band,
  contains, check_compatibility, has_all,
}
use llm_d_inference_schedule.Registry.Config.Building.{
  new_band, new_priority_band_config, new_config, with_max_requests, with_priority_band,
}
use llm_d_inference_schedule.Registry.Config.Choice.{apply_defaults-validates}
use llm_d_inference_schedule.Registry.FlowRegistry.Collection.{execute_gc_cycle}
use llm_d_inference_schedule.Registry.Config.Api.{ApiConfig, new_config_from_api}
use llm_d_inference_schedule.Registry.Config.Validity.{IsValid}
use llm_d_inference_schedule.Registry.Config.Acceptance.{new_config_from_api-IsValid}
use llm_d_inference_schedule.Registry.Config.Partition.{first_parts, partition_uint64-distributes}
use llm_d_inference_schedule.Registry.Leasing.{
  collect_leased_resources, check_and_mark_for_deletion, unpin, try_pin,
}
use llm_d_inference_schedule.Registry.Shard.{
  FlowQueue, managed_queue, new_shard, update_config, add_priority_band, synchronize_flow,
}
use llm_d_inference_schedule.Registry.FlowRegistry.{
  FlowRegistry, new_flow_registry, connect, release,
}
use llm_d_inference_schedule.Registry.FlowRegistry.Leases.{IsSound}
use llm_d_inference_schedule.Registry.FlowRegistry.Creation.{
  IsConfigured, IsValid-IsConfigured, new_flow_registry-accepts,
}
use llm_d_inference_schedule.Registry.FlowRegistry.Opening.{Opens, connect-Opens}
use llm_d_inference_schedule.Registry.FlowRegistry.Sessions.{opened}
use llm_d_inference_schedule.Registry.FlowRegistry.Life.{
  connects, Reach, Reach-IsSound, open_session-queue,
}

abbrev fcfs : OrderingPolicy
fcfs = record { name = "fcfs"; required_queue_capabilities = [] }

abbrev strict : FairnessPolicy
strict = record { name = "strict" }

abbrev handle : Handle
handle ref =
    if str_eq ref "fcfs-ordering-policy"
    then some (record { as_ordering_policy = some fcfs; as_fairness_policy = none })
    else if str_eq ref "global-strict-fairness-policy"
    then some (record { as_ordering_policy = none; as_fairness_policy = some strict })
    else none

abbrev api : Option ApiConfig
api = some (record {
  max_bytes = none;
  max_requests = some (pos 100);
  default_priority_band = none;
  priority_bands =
      record {
        priority = pos 5;
        max_bytes = none;
        max_requests = none;
        fairness_policy_ref = "";
        ordering_policy_ref = "";
      }
      ∷ [];
})

unfoldable built : (c : Config) × (new_config_from_api handle api ≡ ok c)
unfolding new_config_from_api new_priority_band_config new_config with_max_requests
    with_priority_band contains check_compatibility new_queue_from_name has_all
built = (_, refl)

unfoldable made : (fr : FlowRegistry) × (new_flow_registry built.0 ≡ ok fr)
unfolding built new_flow_registry new_shard partition partition_band update_config
made = (_, refl)

abbrev flow : FlowKey
flow = record { id = "tenant"; priority = pos 7 }

unfoldable session : (fr : FlowRegistry) × (connect made.0 flow 3 ≡ ok (fr, none))
unfolding made connect add_priority_band synchronize_flow
session = (_, refl)

new_config_from_api-IsValid_example : IsValid built.0
new_config_from_api-IsValid_example = new_config_from_api-IsValid handle api built.0 built.1

new_flow_registry-accepts_example : Yields (IsSound (λ _. 0)) (new_flow_registry built.0)
new_flow_registry-accepts_example = new_flow_registry-accepts handle api built.0 built.1

configured : IsConfigured built.0
configured = IsValid-IsConfigured built.0 (new_config_from_api-IsValid handle api built.0 built.1)

unused : Reach built.0 (record { held = λ _. 0; registry = made.0 })
unused = Reach.created made.0 made.1

connect-Opens_example : Yields (Opens (λ _. 0) flow) (connect made.0 flow 3)
connect-Opens_example = connect-Opens (λ _. 0) made.0 flow 3 (Reach-IsSound configured unused)

in_session : Reach built.0 (record { held = opened (λ _. 0) flow; registry = session.0 })
in_session = Reach.next unused (connects flow 3 session.0 session.1)

Reach-IsSound_example : IsSound (opened (λ _. 0) flow) session.0
Reach-IsSound_example = Reach-IsSound configured in_session

open_session-queue_example : (mq : FlowQueue) × (managed_queue session.0.shard flow ≡ ok mq)
open_session-queue_example =
    open_session-queue flow configured in_session (ground (arith, key_eq_iff flow flow))

partition_uint64-distributes_example :
    (first_parts 10 3 3 ≡ 10)
    × ((i : ℕ) → (10 / 3 ≤ partition_uint64 10 i 3) × (partition_uint64 10 i 3 ≤ 10 / 3 + 1))
partition_uint64-distributes_example = partition_uint64-distributes 10 3 (ground arith)

apply_defaults-validates_example :
    Yields
      (λ b'.
        (validate_band (some check_compatibility) b' ≡ ok tt)
        × (b'.priority ≡ pos 2)
        × (b'.max_requests ≡ 0)
        × (0 < b'.max_bytes))
      (apply_defaults handle (new_band (pos 2)))
unfolding or_resolve ordering_policy fairness_policy as_policy
apply_defaults-validates_example =
    apply_defaults-validates handle (new_band (pos 2)) fcfs strict refl refl refl (inl refl)

-- The band that the configuration names has a flow, which goes, and goes with it.
abbrev configured_flow : FlowKey
configured_flow = record { id = "tenant"; priority = pos 5 }

unfoldable visited : (fr : FlowRegistry) × (connect made.0 configured_flow 0 ≡ ok (fr, none))
unfolding made connect add_priority_band synchronize_flow
visited = (_, refl)

abbrev collected : FlowRegistry
collected =
    execute_gc_cycle (execute_gc_cycle (release visited.0 configured_flow 0) 300000000000)
      900000000000

configured_band_collected :
    (has_key eq_ℤ visited.0.config.priority_bands (pos 5) ≡ true)
    × (has_key eq_ℤ collected.config.priority_bands (pos 5) ≡ false)
unfolding visited execute_gc_cycle release collect_leased_resources check_and_mark_for_deletion
    key_eq unpin try_pin
configured_band_collected = (refl, refl)
