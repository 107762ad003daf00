-- ===== src/Controller/Processor.antt =====
-- pkg/epp/flowcontrol/controller/internal/processor.go: admission and dispatch. The run loop is the only
-- writer of the shard, so one call is a function of the world: the shard, and the flow item at each
-- address. The saturation and the ceilings of one cycle are arguments of the cycle, since the detector
-- and the usage limit policy are asked once, at its start. Requests are read by a parameter.
pub mod Capacity
pub mod Publishing
pub mod Admission
pub mod Cycle
pub mod Shutdown
use llm_d_inference_schedule.Prelude.{
  ℕ, zero, suc, ◌+◌, ltb, if◌then◌else◌, Bool, true, false, ◌&&◌, Option, none, some, ◌⊎◌, inl, inr,
  List, [], ◌∷◌, get_elem?, update,
}
use llm_d_inference_schedule.Prelude.Int.{ℤ}
use llm_d_inference_schedule.Prelude.Outcome.{Run, ok, ◌>>=◌, or_panic}
use llm_d_inference_schedule.Item.{add_u64}
use llm_d_inference_schedule.Flow.{FlowKey}
use llm_d_inference_schedule.Controller.FlowItem.{
  FlowItem, Failure, leaf, wrap, rejected, queue_at_capacity, QueueOutcome, dispatched,
  rejected_capacity, rejected_other, set_handle, finalize_with_outcome,
}
use llm_d_inference_schedule.Controller.Shard.{
  Request, ShardStats, PriorityBandStats, RegistryShard, pick_failed, no_queue, picked_queue,
}

pub record World (S : Type 0) : Type 0 where
  pub shard : S
  pub items : ℕ → FlowItem

-- `capacity > 0 && size + more > capacity`, on uint64.
unfoldable pub is_exceeded : ℕ → ℕ → ℕ → Bool
is_exceeded capacity size more = ltb 0 capacity && ltb capacity (add_u64 size more)

unfoldable pub has_capacity : ShardStats → ℤ → ℕ → Bool
unfolding is_exceeded
has_capacity stats priority item_byte_size =
    if is_exceeded stats.total_capacity_bytes stats.total_byte_size item_byte_size
    then false
    else if is_exceeded stats.total_capacity_requests stats.total_len 1
    then false
    else elim (stats.per_priority_band_stats priority) [
      | none ↦ false
      | some band ↦
          if is_exceeded band.capacity_bytes band.byte_size item_byte_size
          then false
          else if is_exceeded band.capacity_requests band.len 1
          then false
          else true
    ]

module _ {S : Type 0} where
  -- `item.FinalizeWithOutcome(outcome, err)`
  unfoldable pub finalize_at : World S → ℕ → QueueOutcome → Option Failure → Run (World S)
  finalize_at w r outcome error = do
    fi ← finalize_with_outcome (w.items r) outcome error
    ok (record w { items = update w.items r fi })

  unfoldable pub reject : World S → ℕ → QueueOutcome → Failure → Run (World S)
  reject w r outcome error = finalize_at w r outcome (some (wrap (leaf rejected) error))

  -- The outcome of `managedQ.Add(item)`, which sets the item's handle.
  unfoldable pub admit : World S → ℕ → (Failure ⊎ ℕ) × S → Run (World S)
  admit w r (inl e, s) = reject (record w { shard = s }) r rejected_other e
  admit w r (inr h, s) =
      ok (record { shard = s; items = update w.items r (set_handle (w.items r) h) })

-- What selectItem returns: an error, nil, or an item.
pub data Selected : Type 0 where
  select_failed : Selected
  nothing : Selected
  selected : ℕ → Selected

-- What dispatchItem returns: an error, or nil.
pub data Dispatch : Type 0 where
  dispatch_failed : Dispatch
  done : Dispatch

module _ {S : Type 0} (sp : RegistryShard S) (request : ℕ → Request) where
  -- The error of a failed lookup is wrapped once more with `%w`, which errors.Is sees through.
  unfoldable pub enqueue : World S → ℕ → Run (World S)
  enqueue w r =
      let key = (request r).flow_key in
      elim ((w.items r).final_state) [
        | some _ ↦ ok w
        | none ↦ elim (sp.managed_queue w.shard key) [
          | some e ↦ reject w r rejected_other e
          | none ↦ elim (sp.priority_band_accessor w.shard key.priority) [
            | some e ↦ reject w r rejected_other e
            | none ↦ elim (has_capacity (sp.stats w.shard) key.priority (request r).byte_size) [
              | false ↦ reject w r rejected_capacity (leaf queue_at_capacity)
              | true ↦ admit w r (sp.add w.shard key r)
            ]
          ]
        ]
      ]

  unfoldable pub select_item : World S → ℤ → Selected × World S
  select_item w priority = elim (sp.fairness_policy w.shard priority) [
    | some e ↦ (select_failed, w)
    | none ↦
        let (found, s) = sp.pick w.shard priority in
        let w' = record w { shard = s } in
        elim found [
          | pick_failed e ↦ (select_failed, w')
          | no_queue ↦ (nothing, w')
          | picked_queue key ↦ elim (sp.peek_head s key) [
            | none ↦ (nothing, w')
            | some r ↦ (selected r, w')
          ]
        ]
  ]

  unfoldable pub dispatch_item : World S → ℕ → Run (Dispatch × World S)
  dispatch_item w r =
      let key = (request r).flow_key in
      elim (sp.managed_queue w.shard key) [
        | some e ↦ ok (dispatch_failed, w)
        | none ↦
            let (removed, s) = sp.remove w.shard key (w.items r).handle in
            elim removed [
              | none ↦ ok (done, record w { shard = s })
              | some r' ↦ do
                w' ← finalize_at (record w { shard = s }) r' dispatched none
                ok (done, w')
            ]
      ]

  -- The end of a round, after dispatchItem; `next` is the loop's `continue`.
  unfoldable pub after_dispatch :
      Dispatch × World S → (World S → Run (Bool × World S)) → Run (Bool × World S)
  after_dispatch (dispatch_failed, w) next = next w
  after_dispatch (done, w) next = ok (true, w)

  -- The rest of a round, after selectItem.
  unfoldable pub after_select :
      Selected × World S → (World S → Run (Bool × World S)) → Run (Bool × World S)
  after_select (select_failed, w) next = next w
  after_select (nothing, w) next = next w
  after_select (selected r, w) next = dispatch_item w r >>= λ result. after_dispatch result next

  module _ {F : Type 0} (geb : F → F → Bool) (saturation : F) (ceilings : List F) where
    -- One round of the loop. `ceilings[i]` panics out of range.
    unfoldable pub dispatch_band :
        ℤ → ℕ → World S → (World S → Run (Bool × World S)) → Run (Bool × World S)
    dispatch_band priority i w next = or_panic (get_elem? ceilings i) >>= λ usage_limit.
        elim (geb saturation usage_limit) [
          | true ↦ ok (false, w)
          | false ↦ elim (sp.priority_band_accessor w.shard priority) [
            | some e ↦ next w
            | none ↦ after_select (select_item w priority) next
          ]
        ]

    -- `for i, priority := range priorities`, from index `i` on.
    unfoldable pub dispatch_bands : List ℤ → ℕ → World S → Run (Bool × World S)
    dispatch_bands [] i w = ok (false, w)
    dispatch_bands (priority ∷ rest) i w = dispatch_band priority i w (dispatch_bands rest (suc i))

    unfoldable pub dispatch_cycle : World S → Run (Bool × World S)
    dispatch_cycle w = dispatch_bands (sp.all_ordered_priority_levels w.shard) 0 w
