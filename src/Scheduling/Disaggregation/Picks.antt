-- ===== src/Scheduling/Disaggregation/Picks.antt =====
-- pkg/epp/framework/plugins/scheduling/profilehandler/disagg/disagg_profile_handler.go: a pick gives at most one stage,
-- which has not run.
use llm_d_inference_schedule.Prelude.{
  Bool-cases, List-cases, Option-cases, ℕ, ◌<◌, ◌≤◌, ◌≡◌, refl, inl, inr, Bool, false, Option, none,
  some, List, [], ◌∷◌, has, arith,
}
use llm_d_inference_schedule.Scheduling.Profile.{SchedulerProfile}
use llm_d_inference_schedule.Scheduling.Scheduler.{Profiles, Results, set_result}
use llm_d_inference_schedule.Scheduling.Scheduler.Single.{result_names}
use llm_d_inference_schedule.Scheduling.Disaggregation.{
  Handler, result_for, disaggregates, targets_of, profile_for, picks, pick_stage, then_prefill,
  pick_optional, pick_stages,
}
use llm_d_inference_schedule.Scheduling.Disaggregation.Targets.{
  AllTargets, set_result-AllTargets, result_for-none, remaining, waiting-set_result,
  waiting-set_result_same, remaining-set_result,
}

module _ {S F : Type 0} (h : Handler) (candidates : List ℕ) (profiles : Profiles S F) where
  -- What a pick may give: nothing more to run, or one profile whose result leaves fewer stages waiting.
  abbrev pub IsPick : ℕ → Profiles S F × Results × S → Type 0
  IsPick n ([], rs, s) = AllTargets candidates rs
  IsPick n ((name, p) ∷ [], rs, s) =
      (profile_for profiles name ≡ some p)
      × AllTargets candidates rs
      × ((r : Option (List ℕ)) → remaining h (set_result rs name r) < n)
  IsPick n (p ∷ (q ∷ ps), rs, s) = ⊥

  abbrev IsStage : ℕ → Profiles S F × Results → Type 0
  IsStage n ([], rs) = AllTargets candidates rs × (remaining h rs ≤ n)
  IsStage n ((name, p) ∷ [], rs) =
      (profile_for profiles name ≡ some p)
      × AllTargets candidates rs
      × ((r : Option (List ℕ)) → remaining h (set_result rs name r) < n)
  IsStage n (p ∷ (q ∷ ps), rs) = ⊥

  pick_stage-IsStage :
      (rs : Results) (name : ℕ) (decider : Option (ℕ → Bool)) (endpoint n : ℕ)
      → ((r : Option (List ℕ))
          → has (result_names rs) name ≡ false
          → remaining h (set_result rs name r) < remaining h rs)
      → remaining h rs ≤ n
      → AllTargets candidates rs
      → IsStage n (pick_stage profiles rs name decider endpoint)
  unfolding pick_stage
  pick_stage-IsStage rs name decider endpoint n fewer bound all =
      elim (Option-cases (profile_for profiles name)) [
        | inl missing ↦ rw (pick_stage, missing) (all, bound)
        | inr (p, found) ↦ elim (Option-cases (result_for rs name)) [
          | inr (r, executed) ↦ rw (pick_stage, found, executed) (all, bound)
          | inl waits ↦
              let new = result_for-none rs name waits in
              elim (Bool-cases (disaggregates decider endpoint)) [
                | inl yes_run ↦
                    rw (pick_stage, found, waits, yes_run)
                      (found, all, λ r. omega (arith, fewer r new, bound))
                | inr skip ↦
                    rw (pick_stage, found, waits, skip)
                      (
                        set_result-AllTargets candidates rs name none tt all,
                        omega (arith, remaining-set_result h rs name none, bound),
                      )
              ]
        ]
      ]

  stage-IsPick :
      (n : ℕ) (s : S) (stage : Profiles S F × Results)
      → IsStage n stage
      → IsPick n (stage.0, stage.1, s)
  stage-IsPick n s ([], rs) (all, bound) = all
  stage-IsPick n s ((name, p) ∷ [], rs) holds = holds
  stage-IsPick n s (p ∷ (q ∷ ps), rs) holds = holds

  then_prefill-IsPick :
      (n : ℕ) (s : S) (endpoint : ℕ) (stage : Profiles S F × Results)
      → IsStage n stage
      → IsPick n (then_prefill h s profiles endpoint stage)
  unfolding then_prefill
  then_prefill-IsPick n s endpoint ([], rs) (all, bound) =
      stage-IsPick n s (pick_stage profiles rs h.prefill_profile h.pd_decider endpoint) (
        pick_stage-IsStage rs h.prefill_profile h.pd_decider endpoint n
          (λ r new. omega (
            arith,
            waiting-set_result_same rs h.prefill_profile r new,
            waiting-set_result rs h.prefill_profile r h.decode_profile,
            waiting-set_result rs h.prefill_profile r h.encode_profile,
          ))
          bound all)
  then_prefill-IsPick n s endpoint ((name, p) ∷ [], rs) holds = holds
  then_prefill-IsPick n s endpoint (p ∷ (q ∷ ps), rs) holds = holds

  pick_optional-IsPick :
      (s : S) (rs : Results) (endpoint : ℕ)
      → AllTargets candidates rs
      → IsPick (remaining h rs) (pick_optional h s profiles rs endpoint)
  unfolding pick_optional
  pick_optional-IsPick s rs endpoint all =
      then_prefill-IsPick (remaining h rs) s endpoint
        (pick_stage profiles rs h.encode_profile h.encode_decider endpoint)
        (pick_stage-IsStage rs h.encode_profile h.encode_decider endpoint (remaining h rs)
          (λ r new. omega (
            arith,
            waiting-set_result_same rs h.encode_profile r new,
            waiting-set_result rs h.encode_profile r h.decode_profile,
            waiting-set_result rs h.encode_profile r h.prefill_profile,
          ))
          (omega arith) all)

  picks-IsPick :
      (s : S) (rs : Results) (p : Option (SchedulerProfile S F))
      → profile_for profiles h.decode_profile ≡ p
      → has (result_names rs) h.decode_profile ≡ false
      → AllTargets candidates rs
      → IsPick (remaining h rs) (picks h.decode_profile p, rs, s)
  picks-IsPick s rs none found new all = all
  picks-IsPick s rs (some p) found new all = (
    found,
    all,
    λ r. omega (
      arith,
      waiting-set_result_same rs h.decode_profile r new,
      waiting-set_result rs h.decode_profile r h.encode_profile,
      waiting-set_result rs h.decode_profile r h.prefill_profile,
    ),
  )

  pub pick_stages-IsPick :
      (s : S) (rs : Results)
      → AllTargets candidates rs
      → IsPick (remaining h rs) (pick_stages h s profiles rs)
  unfolding pick_stages
  pick_stages-IsPick s rs all = elim (Option-cases (result_for rs h.decode_profile)) [
    | inl waits ↦
        rw (pick_stages, waits)
          (picks-IsPick s rs (profile_for profiles h.decode_profile) refl
            (result_for-none rs h.decode_profile waits) all)
    | inr (decode, executed) ↦ elim (List-cases (targets_of (some decode))) [
      | inl failed ↦ rw (pick_stages, executed, failed) all
      | inr (e, es, found) ↦ rw (pick_stages, executed, found) (pick_optional-IsPick s rs e all)
    ]
  ]
