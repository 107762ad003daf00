-- ===== src/Eviction/Queue.antt =====
-- pkg/epp/flowcontrol/eviction/queue.go and plugin.go: the requests in flight and the heap of those
-- that may be evicted. A method runs under the queue's mutex.
pub mod Arrival
pub mod Handles
pub mod Popping
pub mod Tracking
use text.Mathlib.Text.{◌==◌ as str_eq}
use Prim.Native.String.{String}
use llm_d_inference_schedule.Prelude.{
  ℕ, zero, suc, if◌then◌else◌, ◌==◌, Bool, true, false, Option, none, some, List, [], ◌∷◌, length,
  lookup, put, delete, get_elem?,
}
use llm_d_inference_schedule.Prelude.Int.{ℤ, pos, negsuc}
use llm_d_inference_schedule.Prelude.Outcome.{Run, ok, panic, ◌>>=◌, or_panic}
use llm_d_inference_schedule.Eviction.Policies.{EvictionItem}
use llm_d_inference_schedule.Eviction.Heap.{HeapEntry, EvictionHeap, push, pop, remove, load}

pub record EvictionQueue : Type 0 where
  pub heap : EvictionHeap
  pub handles : List (String × ℕ)
  pub all_in_flight : List (String × EvictionItem)

abbrev nothing : EvictionItem
nothing = record { request_id = ""; priority = pos 0; dispatch_time = 0 }

unfoldable pub new_eviction_queue : EvictionQueue
new_eviction_queue = record {
  heap = record { entries = []; cell = λ _. record { item = nothing; index = pos 0 }; next = 0 };
  handles = [];
  all_in_flight = [];
}

unfoldable pub evictable_len : EvictionQueue → ℕ
evictable_len q = length q.heap.entries

unfoldable pub in_flight_len : EvictionQueue → ℕ
in_flight_len q = length q.all_in_flight

-- A copy of the first item, or nil.
unfoldable pub peek : EvictionQueue → Run (Option EvictionItem)
peek q =
    if length q.heap.entries == 0
    then ok none
    else do a ← load q.heap 0; ok (some (q.heap.cell a).item)

module _ (less : EvictionItem → EvictionItem → Bool) where
  -- heap.Remove at an index; at -1 it panics.
  unfoldable pub remove_at : EvictionHeap → ℤ → Run (EvictionHeap × ℕ)
  unfolding remove
  remove_at h (pos i) = remove less h i
  remove_at h (negsuc i) = panic

  -- What Track and Untrack do first: the request's entry is removed, if there is one.
  unfoldable pub drop_entry : EvictionQueue → String → Option ℕ → Run EvictionQueue
  unfolding remove_at
  drop_entry q request_id none = ok q
  drop_entry q request_id (some existing) = do
    (h, _) ← remove_at q.heap (q.heap.cell existing).index
    ok (record q { heap = h; handles = delete str_eq q.handles request_id })

  unfoldable pub track : (EvictionItem → Bool) → EvictionQueue → EvictionItem → Run EvictionQueue
  unfolding drop_entry push
  track accept q item = do
    q' ← drop_entry q item.request_id (lookup str_eq q.handles item.request_id)
    let tracked : EvictionQueue = record q' {
      all_in_flight = put str_eq q'.all_in_flight item.request_id item;
    }
    if accept item
        then (do
          (h, e) ← push less tracked.heap item
          ok (record tracked { heap = h; handles = put str_eq tracked.handles item.request_id e }))
        else ok tracked

  unfoldable pub untrack : EvictionQueue → String → Run EvictionQueue
  unfolding drop_entry
  untrack q request_id = do
    q' ← drop_entry q request_id (lookup str_eq q.handles request_id)
    ok (record q' { all_in_flight = delete str_eq q'.all_in_flight request_id })

  -- The loop of PopN.
  unfoldable pub pop_each : ℕ → EvictionQueue → Run (List EvictionItem × EvictionQueue)
  unfolding pop
  pop_each zero q = ok ([], q)
  pop_each (suc n) q =
      let popped : Run (List EvictionItem × EvictionQueue) = do
        (h, e) ← pop less q.heap
        let item = (h.cell e).item
        (items, q') ← pop_each n (record q {
          heap = h;
          handles = delete str_eq q.handles item.request_id;
          all_in_flight = delete str_eq q.all_in_flight item.request_id;
        })
        ok (item ∷ items, q')
      in if length q.heap.entries == 0 then ok ([], q) else popped

  -- `make` panics at a negative capacity.
  unfoldable pub pop_n : ℤ → EvictionQueue → Run (List EvictionItem × EvictionQueue)
  unfolding pop_each
  pop_n (pos n) q = pop_each n q
  pop_n (negsuc n) q = panic

  -- The loop of EvictN, with the evictor's state: `evict` says whether it succeeded.
  unfoldable pub evict_each :
      {E : Type 0}
      → (EvictionItem → Bool)
      → (E → EvictionItem → Bool × E)
      → ℕ
      → EvictionQueue
      → E
      → Run (List String × EvictionQueue × E)
  unfolding pop_n track
  evict_each {E} accept evict zero q e = ok ([], q, e)
  evict_each {E} accept evict (suc n) q e = do
    (items, q') ← pop_n (pos 1) q
    let failed : EvictionItem → E → Run (List String × EvictionQueue × E) =
        λ item e'. track accept q' item >>= λ q''. evict_each accept evict n q'' e'
    let succeeded : EvictionItem → E → Run (List String × EvictionQueue × E) = λ item e'.
        evict_each accept evict n q' e' >>= λ (ids, q'', e''). ok (item.request_id ∷ ids, q'', e'')
    elim items [
      | [] ↦ ok ([], q', e)
      | item ∷ _ ↦
          if (evict e item).0 then succeeded item (evict e item).1 else failed item (evict e item).1
    ]

  unfoldable pub evict_n :
      {E : Type 0}
      → (EvictionItem → Bool)
      → (E → EvictionItem → Bool × E)
      → ℤ
      → EvictionQueue
      → E
      → Run (List String × EvictionQueue × E)
  unfolding evict_each
  evict_n {E} accept evict (pos n) q e = evict_each accept evict n q e
  evict_n {E} accept evict (negsuc n) q e = panic
