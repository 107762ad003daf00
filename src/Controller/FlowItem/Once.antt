-- ===== src/Controller/FlowItem/Once.antt =====
-- pkg/epp/flowcontrol/controller/internal/item.go: the calls of the controller and of the processor, in
-- any order, finalize an item once.
use llm_d_inference_schedule.Prelude.{
  ℕ, ◌↔◌, ◌≢◌, ◌≡◌, refl, true, false, Option, none, some, List, [], ◌∷◌, arith,
}
use llm_d_inference_schedule.Prelude.Outcome.{Run, ok, ◌>>=◌, Yields, yields}
use llm_d_inference_schedule.Controller.FlowItem.{
  context_cancelled, evicted_context_cancelled, Sentinel, Failure, QueueOutcome, FinalState,
  FlowItem, new_item, set_handle, finalize, finalize_with_outcome, infer_outcome, is_error, is_some,
  evicted, rejected, rejected_other, evicted_ttl, ttl_expired,
}

-- What the two goroutines may do with an item.
pub data Action : Type 0 where
  admits : ℕ → Action
  cancels : Failure → Action
  decides : QueueOutcome → Option Failure → Action

pub act : FlowItem → Action → Run FlowItem
act fi (admits h) = ok (set_handle fi h)
act fi (cancels cause) = finalize fi cause
act fi (decides outcome error) = finalize_with_outcome fi outcome error

pub act_all : FlowItem → List Action → Run FlowItem
act_all fi [] = ok fi
act_all fi (a ∷ rest) = act fi a >>= λ fi'. act_all fi' rest

-- The final state that the first deciding action stands for, from the handle that the item has then.
pub first_decision : Option ℕ → List Action → Option FinalState
first_decision h [] = none
first_decision h (admits h' ∷ rest) = first_decision (some h') rest
first_decision h (cancels cause ∷ rest) =
    let (outcome, error) = infer_outcome cause (is_some h) in
    some (record { outcome = outcome; error = some error })
first_decision h (decides outcome error ∷ rest) = some (record { outcome = outcome; error = error })

-- Nothing has been published; or one final state has, by the pointer and by one message on the
-- channel, which is closed.
abbrev pub IsPublished : Option FinalState → FlowItem → Type 0
IsPublished none fi =
    (fi.final_state ≡ none) × (fi.done ≡ []) × (fi.closed ≡ false) × (fi.once ≡ false)
IsPublished (some s) fi =
    (fi.final_state ≡ some s) × (fi.done ≡ s ∷ []) × (fi.closed ≡ true) × (fi.once ≡ true)

-- A decided item takes no further decision.
decided :
    (fi : FlowItem) (s : FinalState) (acts : List Action)
    → IsPublished (some s) fi
    → Yields (IsPublished (some s)) (act_all fi acts)
unfolding act_all act finalize finalize_with_outcome set_handle
decided fi s [] p = yields p
decided fi s (admits h ∷ rest) p = decided _ s rest p
decided fi s (cancels cause ∷ rest) p = simp p.3 (decided fi s rest p)
decided fi s (decides outcome error ∷ rest) p = simp p.3 (decided fi s rest p)

undecided :
    (fi : FlowItem) (acts : List Action)
    → IsPublished none fi
    → Yields (IsPublished (first_decision fi.handle acts)) (act_all fi acts)
unfolding act_all act finalize finalize_with_outcome set_handle first_decision
undecided fi [] p = yields p
undecided fi (admits h ∷ rest) p = undecided (record fi { handle = some h }) rest p
undecided fi (cancels cause ∷ rest) p =
    simp (p.3, p.2, p.1) (decided _ _ rest (refl, refl, refl, refl))
undecided fi (decides outcome error ∷ rest) p =
    simp (p.3, p.2, p.1) (decided _ _ rest (refl, refl, refl, refl))

-- Whatever the controller and the processor do, in whatever order, no call panics or blocks, and the
-- item publishes exactly the first decision, once on the channel.
pub finalize_once :
    (acts : List Action) → Yields (IsPublished (first_decision none acts)) (act_all new_item acts)
unfolding new_item
finalize_once acts = undecided new_item acts (refl, refl, refl, refl)

-- The outcome and the error agree: an item that was not admitted is rejected, one that was is
-- evicted, the outcome is the TTL's exactly when the error is, a cancelled item's error says so, and
-- the cause is kept in the error unless the TTL takes its place.
pub infer_outcome_agrees :
    (cause : Failure)
    → let (o, e) = infer_outcome cause true in
      let (o', e') = infer_outcome cause false in
      (o' ≡ rejected_other)
      × (is_error e' rejected ≡ true)
      × (is_error e evicted ≡ true)
      × ((o ≡ evicted_ttl) ↔ (is_error e ttl_expired ≡ true))
      × (o ≡ evicted_context_cancelled → is_error e context_cancelled ≡ true)
      × (o ≢ evicted_ttl → (s : Sentinel) → is_error cause s ≡ true → is_error e s ≡ true)
unfolding infer_outcome
infer_outcome_agrees cause = ground arith
