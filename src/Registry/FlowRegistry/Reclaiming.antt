-- ===== src/Registry/FlowRegistry/Reclaiming.antt =====
-- pkg/epp/flowcontrol/registry/registry.go: a cycle of the collector leaves the registry sound.
use llm_d_inference_schedule.Prelude.{ℕ}
use llm_d_inference_schedule.Flow.{FlowKey}
use llm_d_inference_schedule.Registry.FlowRegistry.{FlowRegistry}
use llm_d_inference_schedule.Registry.FlowRegistry.Collection.{gc_flows, execute_gc_cycle}
use llm_d_inference_schedule.Registry.FlowRegistry.Leases.{IsSound}
use llm_d_inference_schedule.Registry.FlowRegistry.IdleFlows.{gc_flows-IsSound}
use llm_d_inference_schedule.Registry.FlowRegistry.IdleBands.{gc_priority_bands-IsSound}

-- A cycle of the collector, whenever it runs and whatever the timeouts are, leaves the registry sound.
execute_gc_cycle-IsSound :
    (held : FlowKey → ℕ) (fr : FlowRegistry) (now : ℕ)
    → IsSound held fr
    → IsSound held (execute_gc_cycle fr now)
unfolding execute_gc_cycle
execute_gc_cycle-IsSound held fr now s =
    gc_priority_bands-IsSound held (gc_flows fr now) now (gc_flows-IsSound held fr now s)
