-- ===== src/Controller/Processor/Admission.antt =====
-- pkg/epp/flowcontrol/controller/internal/processor.go: what becomes of an item that is taken from the
-- enqueue channel.
use llm_d_inference_schedule.Prelude.{
  Option-cases, Bool-cases, ℕ, ◌≡◌, ◌⊎◌, inl, inr, refl, sym, subst, true, none, some, arith,
}
use llm_d_inference_schedule.Prelude.Outcome.{ok, Yields, yields, Yields-weaken}
use llm_d_inference_schedule.Controller.FlowItem.{
  FinalState, Failure, same_sentinel, leaf, wrap, rejected, queue_at_capacity, QueueOutcome,
  rejected_capacity, rejected_other, set_handle, is_error,
}
use llm_d_inference_schedule.Controller.FlowItem.Once.{IsPublished}
use llm_d_inference_schedule.Controller.Shard.{Request, RegistryShard}
use llm_d_inference_schedule.Controller.Processor.{World, has_capacity, enqueue, admit, reject}
use llm_d_inference_schedule.Controller.Processor.Publishing.{OthersKept, finalize_at-fresh}

module _ {S : Type 0} (sp : RegistryShard S) (request : ℕ → Request) (w : World S) (r : ℕ) where
  -- There is room for the item.
  abbrev pub HasRoom : Type 0
  HasRoom =
      has_capacity (sp.stats w.shard) (request r).flow_key.priority (request r).byte_size ≡ true

  -- The item waits in the queue of its flow, under the handle that the queue gave it.
  abbrev pub Queued : World S → Type 0
  Queued w' =
      HasRoom
      × (h : ℕ) × (sp.add w.shard (request r).flow_key r ≡ (inr h, w'.shard))
      × ((w'.items r).handle ≡ some h)
      × IsPublished none (w'.items r)

  -- What a rejection leaves of the shard.
  abbrev pub IsLeft : S → QueueOutcome → Type 0
  IsLeft state outcome =
      (state ≡ w.shard)
      ⊎ ((outcome ≡ rejected_other)
          × HasRoom
          × (e : Failure) × (sp.add w.shard (request r).flow_key r ≡ (inl e, state)))

  -- The item is rejected once, on its channel, with ErrRejected. The outcome is that of a full queue
  -- only if there is no room, and then the error says so. The shard is as it was, or as the queue's Add left
  -- it that refused the item.
  abbrev pub Rejected : World S → Type 0
  Rejected w' =
      (s : FinalState) × (e : Failure) × (s.error ≡ some e)
      × IsPublished (some s) (w'.items r)
      × (is_error e rejected ≡ true)
      × ((s.outcome ≡ rejected_other)
          ⊎ ((s.outcome ≡ rejected_capacity)
              × (HasRoom → ⊥)
              × (is_error e queue_at_capacity ≡ true)))
      × IsLeft w'.shard (s.outcome)

  abbrev pub Settled : World S → Type 0
  Settled w' = (Queued w' ⊎ Rejected w') × OthersKept w r w'

  rejected_now :
      (state : S) (outcome : QueueOutcome) (e : Failure)
      → IsPublished none (w.items r)
      → (outcome ≡ rejected_other)
        ⊎ ((outcome ≡ rejected_capacity)
            × (HasRoom → ⊥)
            × (is_error (wrap (leaf rejected) e) queue_at_capacity ≡ true))
      → IsLeft state outcome
      → Yields Settled (reject (record w { shard = state }) r outcome e)
  unfolding reject is_error same_sentinel
  rejected_now state outcome e fresh why left =
      Yields-weaken
        (finalize_at-fresh (record w { shard = state }) r outcome (some (wrap (leaf rejected) e))
          fresh)
        λ w' holds. (
          inr (_, _, refl, holds.0, refl, why, subst (λ x. IsLeft x outcome) (sym holds.1) left),
          holds.2,
        )

  admitted :
      (result : (Failure ⊎ ℕ) × S)
      → sp.add w.shard (request r).flow_key r ≡ result
      → HasRoom
      → IsPublished none (w.items r)
      → Yields Settled (admit w r result)
  unfolding admit set_handle
  admitted (inl e, s) added room fresh =
      rejected_now s _ e fresh (inl refl) (inr (refl, room, e, added))
  admitted (inr h, s) added room fresh =
      yields (inl (room, h, added, ground arith, ground (arith, fresh)), λ q other. ground arith)

  -- An item without a final state, on whose channel nothing was sent, is after the call either in its queue, for
  -- which there was room, or rejected exactly once; no call panics or blocks, no other item changes, and the shard
  -- changes by the queue's Add alone.
  pub enqueue_settles : IsPublished none (w.items r) → Yields Settled (enqueue sp request w r)
  unfolding enqueue is_error same_sentinel
  enqueue_settles fresh =
      let key = (request r).flow_key in
      elim (Option-cases (sp.managed_queue w.shard key)) [
        | inr (e, found) ↦
            rw (enqueue, fresh.0, found) (rejected_now w.shard _ e fresh (inl refl) (inl refl))
        | inl found ↦ elim (Option-cases (sp.priority_band_accessor w.shard key.priority)) [
          | inr (e, band) ↦
              rw (enqueue, fresh.0, found, band)
                (rejected_now w.shard _ e fresh (inl refl) (inl refl))
          | inl band ↦
              elim (Bool-cases
                (has_capacity (sp.stats w.shard) key.priority (request r).byte_size)) [
                  | inr full ↦
                      rw (enqueue, fresh.0, found, band, full)
                        (rejected_now w.shard _ _ fresh (inr (refl, ground (arith, full), refl))
                          (inl refl))
                  | inl room ↦ rw (enqueue, fresh.0, found, band, room) (admitted _ refl room fresh)
                ]
        ]
      ]

  -- An item that was finalized while it was buffered is discarded.
  enqueue_discards :
      (s : FinalState) → IsPublished (some s) (w.items r) → enqueue sp request w r ≡ ok w
  unfolding enqueue
  enqueue_discards s p = cc
