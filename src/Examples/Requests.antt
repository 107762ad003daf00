-- ===== src/Examples/Requests.antt =====
-- A request that is admitted, dispatched, and cancelled too late.
use llm_d_inference_schedule.Prelude.{none, List, [], ◌∷◌}
use llm_d_inference_schedule.Prelude.Outcome.{Yields}
use llm_d_inference_schedule.Controller.FlowItem.{leaf, canceled, dispatched, new_item}
use llm_d_inference_schedule.Controller.FlowItem.Once.{
  Action, admits, cancels, decides, act_all, first_decision, IsPublished, finalize_once,
}

abbrev late_cancel : List Action
late_cancel = admits 4 ∷ decides dispatched none ∷ cancels (leaf canceled) ∷ []

finalize_once_example :
    Yields (IsPublished (first_decision none late_cancel)) (act_all new_item late_cancel)
finalize_once_example = finalize_once late_cancel
