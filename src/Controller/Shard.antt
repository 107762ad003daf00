-- ===== src/Controller/Shard.antt =====
-- pkg/epp/flowcontrol/contracts/registry.go: what the processor sees of its shard. The shard's memory is
-- a state `S`, which an operation that changes it returns anew. A queue is named by its flow's key, an
-- item by its address, and an item's handle by a number.
use llm_d_inference_schedule.Prelude.{ℕ, ◌⊎◌, Bool, Option, List}
use llm_d_inference_schedule.Prelude.Int.{ℤ}
use llm_d_inference_schedule.Flow.{FlowKey}
use llm_d_inference_schedule.Controller.FlowItem.{Failure}

-- What the processor reads of an item's request.
pub record Request : Type 0 where
  pub flow_key : FlowKey
  pub byte_size : ℕ

pub record PriorityBandStats : Type 0 where
  pub capacity_bytes : ℕ
  pub capacity_requests : ℕ
  pub byte_size : ℕ
  pub len : ℕ

pub record ShardStats : Type 0 where
  pub total_capacity_bytes : ℕ
  pub total_capacity_requests : ℕ
  pub total_byte_size : ℕ
  pub total_len : ℕ
  pub per_priority_band_stats : ℤ → Option PriorityBandStats

-- What a fairness policy's Pick returns.
pub data Pick : Type 0 where
  pick_failed : Failure → Pick
  no_queue : Pick
  picked_queue : FlowKey → Pick

-- A lookup gives an error, or `none` if it finds what it looks for. Pick may change the band's policy
-- state. A queue's operations are for a queue that was found.
pub record RegistryShard (S : Type 0) : Type 0 where
  pub stats : S → ShardStats
  pub all_ordered_priority_levels : S → List ℤ
  pub managed_queue : S → FlowKey → Option Failure
  pub priority_band_accessor : S → ℤ → Option Failure
  pub fairness_policy : S → ℤ → Option Failure
  pub pick : S → ℤ → Pick × S
  pub iterate_queues : S → ℤ → List FlowKey
  pub peek_head : S → FlowKey → Option ℕ
  pub add : S → FlowKey → ℕ → (Failure ⊎ ℕ) × S
  pub remove : S → FlowKey → Option ℕ → Option ℕ × S
  pub cleanup : S → FlowKey → (ℕ → Bool) → List ℕ × S
  pub drain : S → FlowKey → List ℕ × S
