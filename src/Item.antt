-- ===== src/Item.antt =====
-- pkg/epp/framework/interface/flowcontrol: what the queues see of an item, and the handle that a
-- caller passes to a queue. Times are numbers of nanoseconds; `ref` is the item's address.
use llm_d_inference_schedule.Prelude.{ℕ, Bool, ◌+◌, ◌-◌, ◌%◌, ◌^◌}
use llm_d_inference_schedule.Prelude.Int.{ℤ}

pub record Item : Type 0 where
  pub ref : ℕ
  pub byte_size : ℕ
  pub enqueue_time : ℕ
  pub effective_ttl : ℤ

-- A handle argument by its dynamic type: nil, the queue's own kind at an address, or another kind.
pub data HandleArg : Type 0 where
  nil : HandleArg
  own : ℕ → HandleArg
  foreign : Bool → HandleArg

-- `atomic.Uint64`: addition wraps, and adding `^b + 1` subtracts `b`.
abbrev pub add_u64 : ℕ → ℕ → ℕ
add_u64 a b = (a + b) % 2 ^ 64

abbrev pub sub_u64 : ℕ → ℕ → ℕ
sub_u64 a b = (a + (2 ^ 64 - b % 2 ^ 64)) % 2 ^ 64
