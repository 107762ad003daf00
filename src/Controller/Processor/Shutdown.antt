-- ===== src/Controller/Processor/Shutdown.antt =====
-- pkg/epp/flowcontrol/controller/internal/processor.go: the sweep of finalized items, and the shutdown. The
-- workers of processAllQueuesConcurrently take the collected queues in some order, the argument `order`.
pub mod Eviction
use llm_d_inference_schedule.Prelude.{ℕ, Bool, true, false, Option, none, some, List, [], ◌∷◌, ◌++◌}
use llm_d_inference_schedule.Prelude.Int.{ℤ}
use llm_d_inference_schedule.Prelude.Outcome.{Run, ok, ◌>>=◌}
use llm_d_inference_schedule.Flow.{FlowKey}
use llm_d_inference_schedule.Controller.FlowItem.{
  FinalState, Failure, leaf, wrap, evicted, rejected, not_running, QueueOutcome, rejected_other,
  evicted_other,
}
use llm_d_inference_schedule.Controller.Shard.{RegistryShard}
use llm_d_inference_schedule.Controller.Processor.{World, finalize_at}

abbrev is_final : Option FinalState → Bool
is_final none = false
is_final (some s) = true

module _ {S : Type 0} where
  -- A loop of `item.FinalizeWithOutcome(outcome, err)`.
  unfoldable pub finalize_each : List ℕ → QueueOutcome → Option Failure → World S → Run (World S)
  finalize_each [] outcome error w = ok w
  finalize_each (r ∷ rest) outcome error w =
      finalize_at w r outcome error >>= finalize_each rest outcome error

module _ {S : Type 0} (sp : RegistryShard S) where
  -- The first phase: the queues of the bands that are found.
  unfoldable pub collect_queues : S → List ℤ → List FlowKey
  collect_queues s [] = []
  collect_queues s (priority ∷ rest) =
      let more = collect_queues s rest in
      elim (sp.priority_band_accessor s priority) [
        | some e ↦ more
        | none ↦ sp.iterate_queues s priority ++ more
      ]

  unfoldable pub queues_to_process : S → List FlowKey
  queues_to_process s = collect_queues s (sp.all_ordered_priority_levels s)

  -- The workers: a queue that is not found any more is skipped.
  unfoldable pub process_queues :
      (FlowKey → World S → Run (World S)) → List FlowKey → World S → Run (World S)
  process_queues process_fn [] w = ok w
  process_queues process_fn (key ∷ rest) w = elim (sp.managed_queue w.shard key) [
    | some e ↦ process_queues process_fn rest w
    | none ↦ process_fn key w >>= process_queues process_fn rest
  ]

  unfoldable pub sweep_queue : FlowKey → World S → Run (World S)
  sweep_queue key w =
      let (removed, s) = sp.cleanup w.shard key (λ r. is_final (w.items r).final_state) in
      ok (record w { shard = s })

  unfoldable pub sweep_finalized_items : (List FlowKey → List FlowKey) → World S → Run (World S)
  sweep_finalized_items order w = process_queues sweep_queue (order (queues_to_process w.shard)) w

  unfoldable pub evict_queue : FlowKey → World S → Run (World S)
  evict_queue key w =
      let (removed, s) = sp.drain w.shard key in
      finalize_each removed evicted_other (some (wrap (leaf evicted) (leaf not_running)))
        (record w { shard = s })

  unfoldable pub evict_all : (List FlowKey → List FlowKey) → World S → Run (World S)
  evict_all order w = process_queues evict_queue (order (queues_to_process w.shard)) w

  -- `channel` holds the items in the enqueue channel's buffer, none of them nil.
  unfoldable pub shutdown : List ℕ → (List FlowKey → List FlowKey) → World S → Run (World S)
  shutdown channel order w = do
    w' ← finalize_each channel rejected_other (some (wrap (leaf rejected) (leaf not_running))) w
    evict_all order w'
