-- ===== src/Eviction/Queue/Tracking.antt =====
-- pkg/epp/flowcontrol/eviction/queue.go: Track, Untrack and PopN keep the heap and the maps in step.
use text.Mathlib.Text.{◌==◌ as str_eq}
use text.Mathlib.TextEquality.{eq_iff}
use Prim.Native.String.{String}
use llm_d_inference_schedule.Prelude.{
  ℕ, if◌then◌else◌, Bool, true, false, Option, none, some, ◌≡◌, ◌∙◌, sym, ap, arith, lookup, delete,
  has_key, lookup-delete,
}
use llm_d_inference_schedule.Prelude.Outcome.{Yields, yields, Yields-then}
use llm_d_inference_schedule.Eviction.Policies.{EvictionItem}
use llm_d_inference_schedule.Eviction.Heap.Contents.{In}
use llm_d_inference_schedule.Eviction.Queue.{EvictionQueue, new_eviction_queue, untrack}
use llm_d_inference_schedule.Eviction.Queue.Handles.{id_of, IsHandled, drop_entry-IsDropped}

module _ (accept : EvictionItem → Bool) where
  -- The heap has exactly the accepted requests in flight, each once, under its handle.
  pub record IsTracked (q : EvictionQueue) : Type 0 where
    pub handles : IsHandled q.heap q.handles
    pub flying :
        (a : ℕ)
        → In q.heap a
        → (lookup str_eq q.all_in_flight (id_of q.heap a) ≡ some (q.heap.cell a).item)
          × (accept (q.heap.cell a).item ≡ true)
    pub named :
        (id : String) (item : EvictionItem)
        → lookup str_eq q.all_in_flight id ≡ some item
        → item.request_id ≡ id
    pub evictable :
        (id : String) (item : EvictionItem)
        → lookup str_eq q.all_in_flight id ≡ some item
        → accept item ≡ true
        → has_key str_eq q.handles id ≡ true

  -- The request of the key is in flight as `found`, if at all, and in the heap if it is accepted;
  -- nothing else has changed.
  pub record Becomes (q : EvictionQueue) (id : String) (found : Option EvictionItem)
      (q' : EvictionQueue) : Type 0 where
    pub tracked : IsTracked q'
    pub in_flight :
        (j : String)
        → lookup str_eq q'.all_in_flight j
          ≡ (if str_eq id j then found else lookup str_eq q.all_in_flight j)
    pub in_heap :
        (j : String)
        → has_key str_eq q'.handles j ≡ (
            if str_eq id j
            then elim found [ none ↦ false | some item ↦ accept item ]
            else has_key str_eq q.handles j)

  pub new_eviction_queue-IsTracked : IsTracked new_eviction_queue
  unfolding new_eviction_queue
  new_eviction_queue-IsTracked = record {
    handles = record {
      sound = record {
        indexed = λ i a here. absurd (ground (arith, here));
        known = λ i a here. absurd (ground (arith, here));
      };
      leads = λ id a found. absurd (ground (arith, found));
      handled = λ a (i, here). absurd (ground (arith, here));
    };
    flying = λ a (i, here). absurd (ground (arith, here));
    named = λ id item found. absurd (ground (arith, found));
    evictable = λ id item found accepted. absurd (ground (arith, found));
  }

  module _ (less : EvictionItem → EvictionItem → Bool) where
    -- Untrack takes the request out of the heap and out of the requests in flight.
    pub untrack-Becomes :
        (q : EvictionQueue) (id : String)
        → IsTracked q
        → Yields (Becomes q id none) (untrack less q id)
    unfolding untrack
    untrack-Becomes q id s = Yields-then (drop_entry-IsDropped less q id s.handles) (λ q₁ d.
        let gone : (j : String)
            → lookup str_eq (delete str_eq q₁.all_in_flight id) j
              ≡ (if str_eq id j then none else lookup str_eq q.all_in_flight j) =
          λ j.
            lookup-delete str_eq eq_iff q₁.all_in_flight id j
            ∙ ap (λ m. if str_eq id j then none else lookup str_eq m j) d.in_flight in
        yields (record {
          tracked = record {
            handles = d.sound;
            flying = λ a inside.
                let (was, other) = d.rest a inside in
                let same = d.items a in
                let (found, accepted) = s.flying a was in
                (
                  ap (λ item. lookup str_eq (delete str_eq q₁.all_in_flight id) item.request_id)
                        same
                      ∙ gone (id_of q.heap a)
                      ∙ rw other (found ∙ ap some (sym same)),
                  ap accept same ∙ accepted,
                );
            named = λ j item found. s.named j item (ground (arith, gone j, found));
            evictable = λ j item found accepted.
                let before : lookup str_eq q.all_in_flight j ≡ some item =
                  ground (arith, gone j, found) in
                ground (arith, gone j, found, d.handles j, s.evictable j item before accepted);
          };
          in_flight = gone;
          in_heap = λ j. ground (arith, d.handles j);
        }))
