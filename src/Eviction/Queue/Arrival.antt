-- ===== src/Eviction/Queue/Arrival.antt =====
-- pkg/epp/flowcontrol/eviction/queue.go: Track.
use text.Mathlib.Text.{◌==◌ as str_eq}
use text.Mathlib.TextEquality.{eq_iff}
use Prim.Native.String.{String}
use llm_d_inference_schedule.Prelude.{
  ℕ, if◌then◌else◌, Bool, true, none, some, List, ◌≡◌, ◌∙◌, sym, ap, subst, arith, inl, inr,
  Bool-cases, lookup, put, lookup-put,
}
use llm_d_inference_schedule.Prelude.Outcome.{Yields, yields, Yields-then, Yields-branch}
use llm_d_inference_schedule.Eviction.Policies.{EvictionItem}
use llm_d_inference_schedule.Eviction.Heap.Contents.{In}
use llm_d_inference_schedule.Eviction.Heap.Insertion.{push-IsPushed}
use llm_d_inference_schedule.Eviction.Queue.{EvictionQueue, track}
use llm_d_inference_schedule.Eviction.Queue.Handles.{
  id_of, drop_entry-IsDropped, pushed-old, pushed-IsHandled,
}
use llm_d_inference_schedule.Eviction.Queue.Tracking.{IsTracked, Becomes}

module _ (accept : EvictionItem → Bool) (less : EvictionItem → EvictionItem → Bool) where
  -- Track puts the request in flight, in the place of an earlier one of its ID, and in the heap if
  -- the filter accepts it.
  pub track-Becomes :
      (q : EvictionQueue) (item : EvictionItem)
      → IsTracked accept q
      → Yields (Becomes accept q item.request_id (some item)) (track less accept q item)
  unfolding track
  track-Becomes q item s =
      let id = item.request_id in
      Yields-then (drop_entry-IsDropped less q id s.handles) (λ q₁ d.
        let flight : List (String × EvictionItem) = put str_eq q₁.all_in_flight id item in
        let now : (j : String)
            → lookup str_eq flight j
              ≡ (if str_eq id j then some item else lookup str_eq q.all_in_flight j) =
          λ j.
            lookup-put str_eq eq_iff q₁.all_in_flight id item j
            ∙ ap (λ m. if str_eq id j then some item else lookup str_eq m j) d.in_flight in
        let named : (j : String) (x : EvictionItem)
            → lookup str_eq flight j ≡ some x
            → x.request_id ≡ j =
          λ j x found. elim (Bool-cases (str_eq id j)) [
            | inl same ↦
                let new : item ≡ x = ground (arith, now j, same, found) in
                subst (λ y. y.request_id ≡ j) new ((eq_iff id j).0 same)
            | inr other ↦ s.named j x (ground (arith, now j, other, found))
          ] in
        let old : (a : ℕ)
            → In q₁.heap a
            → (lookup str_eq flight (id_of q₁.heap a) ≡ some (q₁.heap.cell a).item)
              × (accept (q₁.heap.cell a).item ≡ true) =
          λ a inside.
            let (was, other) = d.rest a inside in
            let same = d.items a in
            let (found, accepted) = s.flying a was in
            (
              ap (λ x. lookup str_eq flight x.request_id) same
                  ∙ now (id_of q.heap a)
                  ∙ rw other (found ∙ ap some (sym same)),
              ap accept same ∙ accepted,
            ) in
        Yields-branch (accept item)
          (λ accepted. Yields-then (push-IsPushed less q₁.heap item d.sound.sound) (λ (h, e) p.
            let free : lookup str_eq q₁.handles id ≡ none =
              ground (arith, d.handles id, eq_iff id id) in
            let at_put = λ (j : String). lookup-put str_eq eq_iff q₁.handles id e j in
            yields (record {
              tracked = record {
                handles = pushed-IsHandled q₁.heap h q₁.handles item e d.sound free p;
                flying = λ a inside. elim (p.rest a inside) [
                  | inl new ↦
                      subst
                        (λ b.
                          (lookup str_eq flight (id_of h b) ≡ some (h.cell b).item)
                          × (accept (h.cell b).item ≡ true))
                        (sym new)
                        (
                          ap (λ x. lookup str_eq flight x.request_id) p.its_item
                              ∙ ground (arith, now id, eq_iff id id)
                              ∙ ap some (sym p.its_item),
                          ap accept p.its_item ∙ accepted,
                        )
                  | inr earlier ↦
                      let same = pushed-old q₁.heap h item e d.sound.sound p a earlier in
                      let (found, fits) = old a earlier in
                      (
                        ap (λ x. lookup str_eq flight x.request_id) same
                            ∙ found
                            ∙ ap some (sym same),
                        ap accept same ∙ fits,
                      )
                ];
                named = named;
                evictable = λ j x found fits.
                    ground (arith, at_put j, now j, found, d.handles j, s.evictable j x, fits);
              };
              in_flight = now;
              in_heap = λ j. ground (arith, at_put j, d.handles j, accepted);
            })))
          (λ refused. yields (record {
            tracked = record {
              handles = d.sound;
              flying = old;
              named = named;
              evictable = λ j x found fits. elim (Bool-cases (str_eq id j)) [
                | inl same ↦
                    let new : item ≡ x = ground (arith, now j, same, found) in
                    absurd (ground (arith, ap accept new, refused, fits))
                | inr other ↦ ground (
                  arith,
                  now j,
                  found,
                  other,
                  d.handles j,
                  s.evictable j x (ground (arith, now j, other, found)) fits,
                )
              ];
            };
            in_flight = now;
            in_heap = λ j. ground (arith, d.handles j, refused);
          })))
