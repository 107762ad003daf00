-- ===== src/Examples/Evictions.antt =====
-- Two requests that may be evicted, and one that may not.
use Prim.Native.String.{String}
use llm_d_inference_schedule.Prelude.{ℕ, some, ◌≡◌, refl}
use llm_d_inference_schedule.Prelude.Int.{pos, negsuc}
use llm_d_inference_schedule.Prelude.Outcome.{ok, Yields, yielded}
use llm_d_inference_schedule.Eviction.Policies.{EvictionItem, evicted_before, is_sheddable}
use llm_d_inference_schedule.Eviction.Queue.{EvictionQueue, new_eviction_queue, track, pop_n}
use llm_d_inference_schedule.Eviction.Queue.Tracking.{Becomes, new_eviction_queue-IsTracked}
use llm_d_inference_schedule.Eviction.Queue.Arrival.{track-Becomes}
use llm_d_inference_schedule.Eviction.Queue.Popping.{IsPopped, pop_n-IsPopped}

abbrev request : String → ℕ → ℕ → EvictionItem
request id level time = record { request_id = id; priority = negsuc level; dispatch_time = time }

unfoldable one :
    (q : EvictionQueue) × (track evicted_before is_sheddable new_eviction_queue (request "a" 0 7)
      ≡ ok q)
unfolding track new_eviction_queue is_sheddable
one = (_, refl)

one-Becomes : Becomes is_sheddable new_eviction_queue "a" (some (request "a" 0 7)) one.0
one-Becomes =
    yielded
      (track-Becomes is_sheddable evicted_before new_eviction_queue (request "a" 0 7)
        (new_eviction_queue-IsTracked is_sheddable))
      one.1

track-Becomes_example :
    Yields
      (Becomes is_sheddable one.0 "b" (some (request "b" 1 3)))
      (track evicted_before is_sheddable one.0 (request "b" 1 3))
track-Becomes_example =
    track-Becomes is_sheddable evicted_before one.0 (request "b" 1 3) (Becomes.tracked one-Becomes)

unfoldable two :
    (q : EvictionQueue) × (track evicted_before is_sheddable one.0 (request "b" 1 3) ≡ ok q)
unfolding one track is_sheddable evicted_before
two = (_, refl)

two-Becomes : Becomes is_sheddable one.0 "b" (some (request "b" 1 3)) two.0
two-Becomes =
    yielded
      (track-Becomes is_sheddable evicted_before one.0 (request "b" 1 3)
        (Becomes.tracked one-Becomes))
      two.1

pop_n-IsPopped_example :
    Yields
      (λ result. IsPopped is_sheddable evicted_before 1 two.0 result.0 result.1)
      (pop_n evicted_before (pos 1) two.0)
pop_n-IsPopped_example =
    pop_n-IsPopped is_sheddable evicted_before 1 two.0 (Becomes.tracked two-Becomes)
