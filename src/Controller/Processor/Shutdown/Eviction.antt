-- ===== src/Controller/Processor/Shutdown/Eviction.antt =====
-- pkg/epp/flowcontrol/controller/internal/processor.go: after a shutdown no item is left undecided.
use mathlib.Core.Logic.Or
use mathlib.Core.List.{Mem}
use llm_d_inference_schedule.Prelude.Int.{ℤ}
use llm_d_inference_schedule.Prelude.{ℕ, ◌≢◌, ◌≡◌, ◌⊎◌, none, some, List}
use llm_d_inference_schedule.Flow.{FlowKey}
use llm_d_inference_schedule.Controller.FlowItem.{FinalState, FlowItem}
use llm_d_inference_schedule.Controller.FlowItem.Once.{IsPublished}
use llm_d_inference_schedule.Controller.Shard.{RegistryShard}
use llm_d_inference_schedule.Controller.Processor.{World}

-- No decision is taken back: the item is as it was, or had published nothing and is final now.
abbrev pub Moves : FlowItem → FlowItem → Type 0
Moves fi fi' = (fi' ≡ fi) ⊎ (IsPublished none fi × (s : FinalState) × IsPublished (some s) fi')

module _ {S : Type 0} where
  abbrev pub IsFinal : World S → ℕ → Type 0
  IsFinal w r = (w.items r).final_state ≢ none

  abbrev pub Advances : World S → World S → Type 0
  Advances w w' = (r : ℕ) → Moves (w.items r) (w'.items r)

  -- What a loop does that finalizes the items of a list.
  abbrev pub Finalizes : World S → List ℕ → World S → Type 0
  Finalizes w xs w' = Advances w w' × ((r : ℕ) → Mem r xs → IsFinal w' r)

-- What the shard promises of Drain, for the items that wait in each queue: it hands out all of its
-- queue's items, and touches neither another queue nor the lookup of queues.
pub record DrainLaw {S : Type 0} (sp : RegistryShard S) (waiting : S → FlowKey → List ℕ)
    : Type 0 where
  pub drained : (s : S) (k : FlowKey) → (sp.drain s k).0 ≡ waiting s k
  pub others_wait : (s : S) (k k' : FlowKey) → k' ≢ k → waiting (sp.drain s k).1 k' ≡ waiting s k'
  pub lookup_kept :
      (s : S) (k k' : FlowKey) → sp.managed_queue (sp.drain s k).1 k' ≡ sp.managed_queue s k'

module _ {S : Type 0} (sp : RegistryShard S) (waiting : S → FlowKey → List ℕ)
    (law : DrainLaw sp waiting) where
  -- Every item that waits in a queue of the list, which is found, is final.
  abbrev pub Evicts : World S → List FlowKey → World S → Type 0
  Evicts w keys w' =
      Advances w w'
      × ((k : FlowKey) (r : ℕ)
          → Mem k keys
          → sp.managed_queue w.shard k ≡ none
          → Mem r (waiting w.shard k)
          → IsFinal w' r)

  -- Every item is final that waits in a queue that is found, of a level whose band is found.
  abbrev pub EvictsAll : World S → World S → Type 0
  EvictsAll w w' =
      Advances w w'
      × ((p : ℤ) (k : FlowKey) (r : ℕ)
          → Mem p (sp.all_ordered_priority_levels w.shard)
          → sp.priority_band_accessor w.shard p ≡ none
          → Mem k (sp.iterate_queues w.shard p)
          → sp.managed_queue w.shard k ≡ none
          → Mem r (waiting w.shard k)
          → IsFinal w' r)
