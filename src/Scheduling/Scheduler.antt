-- ===== src/Scheduling/Scheduler.antt =====
-- pkg/epp/scheduling/scheduler.go: the loop over the profiles of a request, and the handler of a single profile,
-- pkg/epp/framework/plugins/scheduling/profile/single_profile_handler.go. A profile's name is a number.
pub mod Single
use llm_d_inference_schedule.Prelude.{
  ℕ, zero, suc, ◌==◌, not, if◌then◌else◌, Option, none, some, List, [], ◌∷◌, length,
}
use llm_d_inference_schedule.Scheduling.Profile.{
  Floats, Scores, SchedulerProfile, RunResult, no_endpoints, ran, run,
}

abbrev pub Profiles : Type 0 → Type 0 → Type 0
Profiles S F = List (ℕ × SchedulerProfile S F)

-- Of each profile that ran, the target endpoints, or nil.
abbrev pub Results : Type 0
Results = List (ℕ × Option (List ℕ))

pub data SchedulingError : Type 0 where
  no_profile_ran : SchedulingError
  multiple_profiles : SchedulingError
  profile_failed : SchedulingError
  no_decode_workers : SchedulingError

-- The results with the name of the primary profile, or an error.
pub data Scheduled : Type 0 where
  scheduled : Results → ℕ → Scheduled
  unscheduled : SchedulingError → Scheduled
  out_of_fuel : Scheduled

-- Pick may change the results, which it gets as a map.
pub record ProfileHandler (S F : Type 0) : Type 0 where
  pub pick : S → Profiles S F → Results → Profiles S F × Results × S
  pub process_results : S → Results → Scheduled

-- `results[name] = result`
unfoldable pub set_result : Results → ℕ → Option (List ℕ) → Results
set_result [] name result = (name, result) ∷ []
set_result ((k, r) ∷ results) name result =
    if k == name then (k, result) ∷ results else (k, r) ∷ set_result results name result

abbrev pub result_of : RunResult → Option (List ℕ)
result_of no_endpoints = none
result_of (ran result) = result

module _ {S F : Type 0} (floats : Floats F) (iterate : Scores F → Scores F)
    (candidates : List ℕ) where
  unfoldable pub run_profiles : Profiles S F → S → Results → Results × S
  run_profiles [] s results = (results, s)
  run_profiles ((name, p) ∷ profiles) s results =
      let (result, s') = run floats iterate p s candidates in
      run_profiles profiles s' (set_result results name (result_of result))

  module _ (handler : ProfileHandler S F) (profiles : Profiles S F) where
    unfoldable pub finish : S → Results → Scheduled
    finish s results =
        if length results == 0
        then unscheduled no_profile_ran
        else handler.process_results s results

    -- What follows a pick: an empty one ends the loop, and else the picked profiles run before the rest of it.
    unfoldable pub after_pick : (S → Results → Scheduled) → Profiles S F × Results × S → Scheduled
    after_pick rest ([], results, s) = finish s results
    after_pick rest (p ∷ ps, results, s) =
        let (results', s') = run_profiles (p ∷ ps) s results in rest s' results'

    unfoldable pub schedule_from : ℕ → S → Results → Scheduled
    schedule_from zero s results = out_of_fuel
    schedule_from (suc fuel) s results =
        after_pick (schedule_from fuel) (handler.pick s profiles results)

    unfoldable pub schedule : ℕ → S → Scheduled
    schedule fuel s = schedule_from fuel s []

module _ {S F : Type 0} where
  unfoldable pub pick_profiles : S → Profiles S F → Results → Profiles S F × Results × S
  pick_profiles s profiles results =
      if length profiles == length results then ([], results, s) else (profiles, results, s)

-- An error unless there is exactly one result, and an error if that is nil.
unfoldable pub process_single : Results → Scheduled
process_single [] = unscheduled multiple_profiles
process_single ((name, none) ∷ []) = unscheduled profile_failed
process_single ((name, some targets) ∷ []) = scheduled ((name, some targets) ∷ []) name
process_single (r ∷ (r' ∷ results)) = unscheduled multiple_profiles

module _ {S F : Type 0} where
  abbrev pub single_profile_handler : ProfileHandler S F
  single_profile_handler = record {
    pick = pick_profiles;
    process_results = λ s results. process_single results;
  }
