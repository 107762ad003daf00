-- ===== src/Controller/FlowItem.antt =====
-- pkg/epp/flowcontrol/controller/internal/item.go and pkg/epp/flowcontrol/types: the life of a request,
-- from its creation to the one message on its Done channel. The queue duration metric is left out.
pub mod Once
use llm_d_inference_schedule.Prelude.{
  ℕ, suc, ◌==◌, ltb, if◌then◌else◌, Bool, true, false, ◌||◌, Option, none, some, List, [], ◌∷◌,
  ◌++◌, length,
}
use llm_d_inference_schedule.Prelude.Outcome.{Run, ok, panic, out_of_fuel, ◌>>=◌}

-- The sentinel errors that the code tests for or wraps, and any other error, by a number.
pub data Sentinel : Type 0 where
  ttl_expired deadline_exceeded canceled context_cancelled : Sentinel
  evicted rejected queue_at_capacity not_running : Sentinel
  custom : ℕ → Sentinel

-- An error is a sentinel, or `fmt.Errorf("%w: %w", a, b)`.
pub data Failure : Type 0 where
  leaf : Sentinel → Failure
  wrap : Failure → Failure → Failure

unfoldable pub same_sentinel : Sentinel → Sentinel → Bool
same_sentinel ttl_expired ttl_expired = true
same_sentinel deadline_exceeded deadline_exceeded = true
same_sentinel canceled canceled = true
same_sentinel context_cancelled context_cancelled = true
same_sentinel evicted evicted = true
same_sentinel rejected rejected = true
same_sentinel queue_at_capacity queue_at_capacity = true
same_sentinel not_running not_running = true
same_sentinel (custom a) (custom b) = a == b
same_sentinel _ _ = false

-- `errors.Is`
unfoldable pub is_error : Failure → Sentinel → Bool
unfolding same_sentinel
is_error (leaf s) target = same_sentinel s target
is_error (wrap a b) target = is_error a target || is_error b target

pub data QueueOutcome : Type 0 where
  not_yet_finalized dispatched rejected_capacity rejected_other : QueueOutcome
  evicted_ttl evicted_context_cancelled evicted_other : QueueOutcome

pub record FinalState : Type 0 where
  pub outcome : QueueOutcome
  pub error : Option Failure

-- `done` holds the messages in the channel's buffer, of size 1, and `closed` says whether the channel
-- is closed; `once` is the state of the sync.Once.
pub record FlowItem : Type 0 where
  pub handle : Option ℕ
  pub final_state : Option FinalState
  pub done : List FinalState
  pub closed : Bool
  pub once : Bool

unfoldable pub new_item : FlowItem
new_item = record { handle = none; final_state = none; done = []; closed = false; once = false }

unfoldable pub set_handle : FlowItem → ℕ → FlowItem
set_handle fi h = record fi { handle = some h }

-- A send on a closed channel panics; one on a full buffer would block for ever.
unfoldable pub send : FlowItem → FinalState → Run FlowItem
send fi s =
    if fi.closed
    then panic
    else if ltb (length fi.done) 1
    then ok (record fi { done = fi.done ++ s ∷ [] })
    else out_of_fuel

unfoldable pub close : FlowItem → Run FlowItem
close fi = if fi.closed then panic else ok (record fi { closed = true })

unfoldable pub finalize_internal : FlowItem → QueueOutcome → Option Failure → Run FlowItem
unfolding send close
finalize_internal fi outcome error =
    let final : FinalState = record { outcome = outcome; error = error } in
    send (record fi { final_state = some final }) final >>= close

unfoldable pub infer_outcome : Failure → Bool → QueueOutcome × Failure
unfolding is_error
infer_outcome cause is_queued =
    let (specific, outcome_if_evicted) = infer_cause in
    if is_queued
    then (outcome_if_evicted, wrap (leaf evicted) specific)
    else (rejected_other, wrap (leaf rejected) specific)
  where
    infer_cause : Failure × QueueOutcome
    infer_cause =
        if is_error cause ttl_expired || is_error cause deadline_exceeded
        then (leaf ttl_expired, evicted_ttl)
        else if is_error cause canceled
        then (wrap (leaf context_cancelled) cause, evicted_context_cancelled)
        else (cause, evicted_other)

-- `onceFinalize.Do(...)`
unfoldable pub do_once : FlowItem → (FlowItem → Run FlowItem) → Run FlowItem
do_once fi f = if fi.once then ok fi else f (record fi { once = true })

abbrev pub is_some : Option ℕ → Bool
is_some none = false
is_some (some h) = true

unfoldable pub finalize : FlowItem → Failure → Run FlowItem
unfolding do_once finalize_internal infer_outcome
finalize fi cause = do_once fi λ item.
    let (outcome, error) = infer_outcome cause (is_some item.handle) in
    finalize_internal item outcome (some error)

unfoldable pub finalize_with_outcome : FlowItem → QueueOutcome → Option Failure → Run FlowItem
unfolding do_once finalize_internal
finalize_with_outcome fi outcome error = do_once fi λ item. finalize_internal item outcome error
