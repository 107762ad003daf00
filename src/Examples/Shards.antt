-- ===== src/Examples/Shards.antt =====
-- A shard of one queue, and the processor on it.
use llm_d_inference_schedule.Prelude.{
  ℕ, ◌≡◌, ◌↔◌, refl, true, leb, if◌then◌else◌, Option, none, some, inr, List, [], ◌∷◌, ◌++◌, length,
  arith,
}
use llm_d_inference_schedule.Prelude.Int.{ℤ, pos}
use llm_d_inference_schedule.Prelude.Outcome.{Yields}
use llm_d_inference_schedule.Flow.{FlowKey, key_eq}
use llm_d_inference_schedule.Controller.FlowItem.{new_item, leaf, custom}
use llm_d_inference_schedule.Controller.Shard.{
  Request, ShardStats, PriorityBandStats, RegistryShard, picked_queue,
}
use llm_d_inference_schedule.Controller.Processor.{
  World, has_capacity, enqueue, dispatch_cycle, dispatch_bands,
}
use llm_d_inference_schedule.Controller.Processor.Capacity.{Admits, HasNoOverflow, has_capacity_iff}
use llm_d_inference_schedule.Controller.Processor.Admission.{Settled, enqueue_settles}
use llm_d_inference_schedule.Controller.Processor.Publishing.{AllPublished}
use llm_d_inference_schedule.Controller.Processor.Cycle.{
  CycleResult, dispatch_cycle-CycleResult, hol_blocks,
}

abbrev flow_a : FlowKey
flow_a = record { id = "a"; priority = pos 0 }

-- The state is the items that wait, the head first.
abbrev head : List ℕ → Option ℕ
head [] = none
head (x ∷ xs) = some x

abbrev tail : List ℕ → List ℕ
tail [] = []
tail (x ∷ xs) = xs

abbrev band_stats : List ℕ → PriorityBandStats
band_stats s = record {
  capacity_bytes = 0;
  capacity_requests = 3;
  byte_size = length s;
  len = length s;
}

abbrev shard_stats : List ℕ → ShardStats
shard_stats s = record {
  total_capacity_bytes = 100;
  total_capacity_requests = 0;
  total_byte_size = length s;
  total_len = length s;
  per_priority_band_stats = λ _. some (band_stats s);
}

abbrev waiting : List ℕ → FlowKey → List ℕ
waiting s k = if key_eq k flow_a then s else []

abbrev one_queue : RegistryShard (List ℕ)
one_queue = record {
  stats = shard_stats;
  all_ordered_priority_levels = λ _. pos 0 ∷ [];
  managed_queue = λ s k. if key_eq k flow_a then none else some (leaf (custom 1));
  priority_band_accessor = λ s p. none;
  fairness_policy = λ s p. none;
  pick = λ s p. (picked_queue flow_a, s);
  iterate_queues = λ s p. flow_a ∷ [];
  peek_head = λ s k. head s;
  add = λ s k r. (inr r, s ++ r ∷ []);
  remove = λ s k h. (head s, tail s);
  cleanup = λ s k p. ([], s);
  drain = λ s k. (waiting s k, if key_eq k flow_a then [] else s);
}

abbrev request : ℕ → Request
request r = record { flow_key = flow_a; byte_size = 1 }

-- Two items wait, and all items are new.
abbrev two_waiting : World (List ℕ)
two_waiting = record { shard = 7 ∷ 8 ∷ []; items = λ _. new_item }

all_new : AllPublished two_waiting
unfolding new_item
all_new r = (none, (refl, refl, refl, refl))

no_overflow : HasNoOverflow (shard_stats (7 ∷ 8 ∷ [])) (pos 0) 10
no_overflow = (omega arith, omega arith, λ band there. ground (arith, there))

has_capacity_iff_example :
    (has_capacity (shard_stats (7 ∷ 8 ∷ [])) (pos 0) 10 ≡ true)
    ↔ Admits (shard_stats (7 ∷ 8 ∷ [])) (pos 0) 10
has_capacity_iff_example = has_capacity_iff (shard_stats (7 ∷ 8 ∷ [])) (pos 0) 10 no_overflow

enqueue_settles_example :
    Yields (Settled one_queue request two_waiting 9) (enqueue one_queue request two_waiting 9)
unfolding new_item
enqueue_settles_example = enqueue_settles one_queue request two_waiting 9 (refl, refl, refl, refl)

dispatch_cycle-CycleResult_example :
    Yields
      (CycleResult two_waiting)
      (dispatch_cycle one_queue request (λ a b. leb b a) 5 (9 ∷ []) two_waiting)
dispatch_cycle-CycleResult_example =
    dispatch_cycle-CycleResult one_queue request (λ a b. leb b a) 5 (9 ∷ []) two_waiting all_new
      (omega arith)

hol_blocks_example :
    dispatch_cycle one_queue request (λ a b. leb b a) 9 (9 ∷ []) two_waiting
    ≡ dispatch_bands one_queue request (λ a b. leb b a) 9 (9 ∷ []) [] 0 two_waiting
hol_blocks_example =
    hol_blocks one_queue request (λ a b. leb b a) 9 (9 ∷ []) [] [] (pos 0) two_waiting 9 refl refl
      refl

-- A shard with a queue for every flow, of which two levels have one each.
abbrev Queues : Type 0
Queues = FlowKey → List ℕ

abbrev flow_at : ℤ → FlowKey
flow_at p = record { id = "a"; priority = p }

abbrev many_queues : RegistryShard Queues
many_queues = record {
  stats = λ s. shard_stats [];
  all_ordered_priority_levels = λ _. pos 1 ∷ (pos 0 ∷ []);
  managed_queue = λ s k. none;
  priority_band_accessor = λ s p. none;
  fairness_policy = λ s p. none;
  pick = λ s p. (picked_queue (flow_at p), s);
  iterate_queues = λ s p. flow_at p ∷ [];
  peek_head = λ s k. head (s k);
  add = λ s k r. (inr r, λ j. if key_eq j k then s j ++ r ∷ [] else s j);
  remove = λ s k h. (head (s k), λ j. if key_eq j k then tail (s j) else s j);
  cleanup = λ s k p. ([], s);
  drain = λ s k. (s k, λ j. if key_eq j k then [] else s j);
}

abbrev items_wait : World Queues
items_wait = record {
  shard = λ k. if key_eq k (flow_at (pos 1)) then 7 ∷ [] else 8 ∷ [];
  items = λ _. new_item;
}
