-- ===== src/Registry/Config.antt =====
-- pkg/epp/flowcontrol/registry/config.go: the registry's configuration and its partition over shards,
-- with the queue factory of framework/plugins/queue. Of a policy the model has what the registry
-- reads; a map's band pointer is the band itself, and a priority is the key of the map.

pub mod Acceptance
pub mod Api
pub mod Building
pub mod Choice
pub mod Defaults
pub mod Partition
pub mod Validity
use text.Mathlib.Text.{◌==◌ as str_eq}
use Prim.Native.String.{String}
use llm_d_inference_schedule.Prelude.{
  ℕ, ◌+◌, ◌/◌, ◌%◌, ◌==◌, ltb, if◌then◌else◌, Bool, Option, none, some, List, [], ◌∷◌,
}
use llm_d_inference_schedule.Prelude.Int.{ℤ}
use llm_d_inference_schedule.Prelude.Outcome.{Run, ok, err, no_queue_registered}

-- framework/interface/flowcontrol/queue.go.
abbrev pub capability_fifo : String
capability_fifo = "FIFO"

abbrev pub capability_priority_configurable : String
capability_priority_configurable = "PriorityConfigurable"

pub record OrderingPolicy : Type 0 where
  pub name : String
  pub required_queue_capabilities : List String

pub record FairnessPolicy : Type 0 where
  pub name : String

-- The queues that the package registers at its start.
pub data QueueKind : Type 0 where
  list_queue max_min_heap : QueueKind

abbrev pub list_queue_name : String
list_queue_name = "ListQueue"

abbrev pub max_min_heap_name : String
max_min_heap_name = "MaxMinHeap"

unfoldable pub new_queue_from_name : String → Run QueueKind
new_queue_from_name name =
    if str_eq name list_queue_name
    then ok list_queue
    else if str_eq name max_min_heap_name
    then ok max_min_heap
    else err no_queue_registered

unfoldable pub capabilities : QueueKind → List String
capabilities list_queue = capability_fifo ∷ []
capabilities max_min_heap = capability_priority_configurable ∷ []

-- A policy is `none` for nil.
pub record PriorityBandConfig : Type 0 where
  pub priority : ℤ
  pub ordering_policy : Option OrderingPolicy
  pub fairness_policy : Option FairnessPolicy
  pub queue : String
  pub max_bytes : ℕ
  pub max_requests : ℕ

pub record Config : Type 0 where
  pub max_bytes : ℕ
  pub max_requests : ℕ
  pub priority_bands : List (ℤ × PriorityBandConfig)
  pub default_priority_band : Option PriorityBandConfig
  pub initial_shard_count : ℤ
  pub flow_gc_timeout : ℤ
  pub priority_band_gc_timeout : ℤ

pub record ShardConfig : Type 0 where
  pub max_bytes : ℕ
  pub max_requests : ℕ
  pub priority_bands : List (ℤ × PriorityBandConfig)

-- Division by no partitions is not reached: the callers have at least one.
unfoldable pub partition_uint64 : ℕ → ℕ → ℕ → ℕ
partition_uint64 total partition_index total_partitions =
    if total == 0
    then 0
    else if ltb partition_index (total % total_partitions)
    then total / total_partitions + 1
    else total / total_partitions

unfoldable pub partition_band : ℕ → ℕ → PriorityBandConfig → PriorityBandConfig
unfolding partition_uint64
partition_band shard_index total_shards template = record template {
  max_bytes = partition_uint64 template.max_bytes shard_index total_shards;
  max_requests = partition_uint64 template.max_requests shard_index total_shards;
}

-- The loop over the bands, each of which goes under its own priority.
unfoldable pub partition_bands :
    ℕ → ℕ → List (ℤ × PriorityBandConfig) → List (ℤ × PriorityBandConfig)
partition_bands shard_index total_shards [] = []
partition_bands shard_index total_shards ((p, template) ∷ bands) =
    (template.priority, partition_band shard_index total_shards template)
    ∷ partition_bands shard_index total_shards bands

unfoldable pub partition : Config → ℕ → ℕ → ShardConfig
unfolding partition_bands
partition c shard_index total_shards = record {
  max_bytes = partition_uint64 c.max_bytes shard_index total_shards;
  max_requests = partition_uint64 c.max_requests shard_index total_shards;
  priority_bands = partition_bands shard_index total_shards c.priority_bands;
}
