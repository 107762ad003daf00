-- ===== src/Scheduling/Disaggregation.antt =====
-- pkg/epp/framework/plugins/scheduling/profilehandler/disagg/disagg_profile_handler.go: the stages decode, encode and
-- prefill of a request, which is not nil. A decider is a function of the first decode endpoint.
pub mod Targets
pub mod Picks
pub mod Stages
pub mod Causes
use llm_d_inference_schedule.Prelude.{
  ℕ, ◌==◌, if◌then◌else◌, Bool, true, false, Option, none, some, List, [], ◌∷◌,
}
use llm_d_inference_schedule.Scheduling.Profile.{SchedulerProfile}
use llm_d_inference_schedule.Scheduling.Scheduler.{
  Profiles, Results, no_decode_workers, Scheduled, scheduled, unscheduled, ProfileHandler,
  set_result,
}

pub record Handler : Type 0 where
  pub decode_profile : ℕ
  pub prefill_profile : ℕ
  pub encode_profile : ℕ
  pub pd_decider : Option (ℕ → Bool)
  pub encode_decider : Option (ℕ → Bool)

-- The entry of a name, if there is one: nil, or the target endpoints.
unfoldable pub result_for : Results → ℕ → Option (Option (List ℕ))
result_for [] name = none
result_for ((k, r) ∷ results) name = if k == name then some r else result_for results name

abbrev pub disaggregates : Option (ℕ → Bool) → ℕ → Bool
disaggregates none endpoint = false
disaggregates (some decide) endpoint = decide endpoint

-- The targets of a name with a result that is not nil.
abbrev pub targets_of : Option (Option (List ℕ)) → List ℕ
targets_of none = []
targets_of (some none) = []
targets_of (some (some targets)) = targets

-- `if r, ok := results[name]; ok && r != nil { updated[name] = r }`
abbrev pub copy_result : Option (Option (List ℕ)) → ℕ → Results → Results
copy_result none name updated = updated
copy_result (some none) name updated = updated
copy_result (some (some targets)) name updated = set_result updated name (some targets)

module _ {S F : Type 0} where
  unfoldable pub profile_for : Profiles S F → ℕ → Option (SchedulerProfile S F)
  profile_for [] name = none
  profile_for ((k, p) ∷ profiles) name = if k == name then some p else profile_for profiles name

  -- A profile to run next, or none.
  abbrev pub picks : ℕ → Option (SchedulerProfile S F) → Profiles S F
  picks name none = []
  picks name (some p) = (name, p) ∷ []

  -- An optional stage that has not run: it runs if its decider says so, and else its result is nil.
  unfoldable pub pick_stage :
      Profiles S F → Results → ℕ → Option (ℕ → Bool) → ℕ → Profiles S F × Results
  pick_stage profiles results name decider endpoint = elim (profile_for profiles name) [
    | none ↦ ([], results)
    | some p ↦ elim (result_for results name) [
      | some r ↦ ([], results)
      | none ↦
          if disaggregates decider endpoint
          then ((name, p) ∷ [], results)
          else ([], set_result results name none)
    ]
  ]

  module _ (h : Handler) where
    -- Prefill, unless encode is picked.
    unfoldable pub then_prefill :
        S → Profiles S F → ℕ → Profiles S F × Results → Profiles S F × Results × S
    then_prefill s profiles endpoint (p ∷ ps, results) = (p ∷ ps, results, s)
    then_prefill s profiles endpoint ([], results) =
        let (picked, results') =
          pick_stage profiles results h.prefill_profile h.pd_decider endpoint in
        (picked, results', s)

    -- The stages after decode.
    unfoldable pub pick_optional : S → Profiles S F → Results → ℕ → Profiles S F × Results × S
    pick_optional s profiles results endpoint =
        then_prefill s profiles endpoint
          (pick_stage profiles results h.encode_profile h.encode_decider endpoint)

    unfoldable pub pick_stages : S → Profiles S F → Results → Profiles S F × Results × S
    pick_stages s profiles results = elim (result_for results h.decode_profile) [
      | none ↦ (picks h.decode_profile (profile_for profiles h.decode_profile), results, s)
      | some decode ↦ elim (targets_of (some decode)) [
        | [] ↦ ([], results, s)
        | e ∷ es ↦ pick_optional s profiles results e
      ]
    ]

module _ (h : Handler) where
  -- Decode comes first, and prefill and encode if they have a result.
  unfoldable pub updated_results : Results → List ℕ → Results
  updated_results results targets =
      copy_result (result_for results h.encode_profile) h.encode_profile (
        copy_result (result_for results h.prefill_profile) h.prefill_profile
          ((h.decode_profile, some targets) ∷ []))

  unfoldable pub process_stages : Results → Scheduled
  process_stages results = elim (targets_of (result_for results h.decode_profile)) [
    | [] ↦ unscheduled no_decode_workers
    | e ∷ es ↦ scheduled (updated_results results (e ∷ es)) h.decode_profile
  ]

  abbrev pub disagg_handler : {S F : Type 0} → ProfileHandler S F
  disagg_handler = record {
    pick = pick_stages h;
    process_results = λ s results. process_stages results;
  }
