-- ===== src/Controller/Processor/Publishing.antt =====
-- pkg/epp/flowcontrol/controller/internal: what finalizing one item of the world does.
use llm_d_inference_schedule.Prelude.{ℕ, ◌≢◌, ◌≡◌, refl, Option, none, some, arith}
use llm_d_inference_schedule.Prelude.Outcome.{ok, Yields, yields, Yields-then}
use llm_d_inference_schedule.Controller.FlowItem.{
  FlowItem, FinalState, Failure, QueueOutcome, finalize_with_outcome,
}
use llm_d_inference_schedule.Controller.FlowItem.Once.{IsPublished}
use llm_d_inference_schedule.Controller.Processor.{World, finalize_at}

finalize_with_outcome-fresh :
    (fi : FlowItem) (o : QueueOutcome) (e : Option Failure)
    → IsPublished none fi
    → Yields (IsPublished (some (record { outcome = o; error = e }))) (finalize_with_outcome fi o e)
unfolding finalize_with_outcome
finalize_with_outcome-fresh fi o e p = simp (p.3, p.2, p.1) (yields (refl, refl, refl, refl))

-- Every item has published nothing, or one final state.
abbrev pub AllPublished : {S : Type 0} → World S → Type 0
AllPublished w = (r : ℕ) → (o : Option FinalState) × IsPublished o (w.items r)

finalize_with_outcome-final :
    (fi : FlowItem) (s : FinalState) (o : QueueOutcome) (e : Option Failure)
    → IsPublished (some s) fi
    → finalize_with_outcome fi o e ≡ ok fi
unfolding finalize_with_outcome
finalize_with_outcome-final fi s o e p = simp p.3 refl

module _ {S : Type 0} (w : World S) (r : ℕ) where
  -- Every other item is as it was.
  abbrev pub OthersKept : World S → Type 0
  OthersKept w' = (q : ℕ) → q ≢ r → w'.items q ≡ w.items q

  pub finalize_at-fresh :
      (o : QueueOutcome) (e : Option Failure)
      → IsPublished none (w.items r)
      → Yields
          (λ w'.
            IsPublished (some (record { outcome = o; error = e })) (w'.items r)
            × (w'.shard ≡ w.shard)
            × OthersKept w')
          (finalize_at w r o e)
  unfolding finalize_at
  finalize_at-fresh o e p =
      Yields-then (finalize_with_outcome-fresh (w.items r) o e p)
        λ fi holds. yields (ground (arith, holds), refl, λ q other. ground arith)

  -- A decided item stays as it was.
  pub finalize_at-final :
      (s : FinalState) (o : QueueOutcome) (e : Option Failure)
      → IsPublished (some s) (w.items r)
      → Yields
          (λ w'. (w'.shard ≡ w.shard) × ((q : ℕ) → w'.items q ≡ w.items q))
          (finalize_at w r o e)
  unfolding finalize_at
  finalize_at-final s o e p =
      rw (finalize_with_outcome-final (w.items r) s o e p) (yields (refl, λ q. ground arith))
