-- ===== src/Scheduling/Disaggregation/Causes.antt =====
-- pkg/epp/framework/plugins/scheduling/profilehandler/disagg/disagg_profile_handler.go under
-- pkg/epp/scheduling/scheduler.go: when a request with stages fails, and with which error.
use llm_d_inference_schedule.Prelude.{
  Bool-cases, List-cases, Option-cases, ℕ, zero, suc, ◌≡◌, refl, sym, ap, ◌∙◌, ◌⊎◌, inl, inr, ◌==◌,
  if◌then◌else◌, Bool, false, true, Option, none, some, List, [], ◌∷◌, length, arith,
  lookup as lookup_in,
}
use llm_d_inference_schedule.Scheduling.Profile.{Floats, Scores, SchedulerProfile, run}
use llm_d_inference_schedule.Scheduling.Scheduler.{
  Profiles, Results, no_profile_ran, no_decode_workers, Scheduled, scheduled, unscheduled,
  out_of_fuel, set_result, result_of, run_profiles, finish, after_pick, schedule_from, schedule,
}
use llm_d_inference_schedule.Scheduling.Disaggregation.{
  Handler, result_for, disaggregates, targets_of, profile_for, pick_stage, then_prefill,
  pick_optional, pick_stages, process_stages, disagg_handler,
}

result_for-set_result :
    (rs : Results) (k j : ℕ) (r : Option (List ℕ))
    → result_for (set_result rs k r) j ≡ (if k == j then some r else result_for rs j)
unfolding result_for set_result
result_for-set_result [] k j r = refl
result_for-set_result ((x, y) ∷ rs) k j r = ground (arith, result_for-set_result rs k j r)

profile_for-lookup :
    {S F : Type 0} (profiles : Profiles S F) (name : ℕ)
    → profile_for profiles name ≡ lookup_in (λ a b. a == b) profiles name
unfolding profile_for
profile_for-lookup [] name = refl
profile_for-lookup ((k, p) ∷ profiles) name = ground (arith, profile_for-lookup profiles name)

-- No error.
abbrev pub IsUnfailed : Scheduled → Type 0
IsUnfailed (scheduled rs name) = Unit
IsUnfailed (unscheduled e) = ⊥
IsUnfailed out_of_fuel = Unit

module _ {S F : Type 0} (h : Handler) (profiles : Profiles S F) (r : Option (List ℕ)) where
  -- Decode has the result `r`, and no stage that is picked is decode.
  abbrev IsKept : Profiles S F × Results → Type 0
  IsKept ([], rs) = result_for rs h.decode_profile ≡ some r
  IsKept ((name, p) ∷ [], rs) =
      (result_for rs h.decode_profile ≡ some r) × ((name == h.decode_profile) ≡ false)
  IsKept (p ∷ (q ∷ ps), rs) = ⊥

  waiting-differs :
      (rs : Results) (name : ℕ)
      → result_for rs h.decode_profile ≡ some r
      → result_for rs name ≡ none
      → (name == h.decode_profile) ≡ false
  waiting-differs rs name kept waits = elim (Bool-cases (name == h.decode_profile)) [
    | inr differ ↦ differ
    | inl equal ↦
        let same : name ≡ h.decode_profile = ground (arith, equal) in
        absurd (ground (arith, kept, waits, ap (result_for rs) same))
  ]

  pick_stage-IsKept :
      (rs : Results) (name : ℕ) (decider : Option (ℕ → Bool)) (endpoint : ℕ)
      → result_for rs h.decode_profile ≡ some r
      → IsKept (pick_stage profiles rs name decider endpoint)
  unfolding pick_stage
  pick_stage-IsKept rs name decider endpoint kept =
      elim (Option-cases (profile_for profiles name)) [
        | inl missing ↦ rw (pick_stage, missing) kept
        | inr (p, found) ↦ elim (Option-cases (result_for rs name)) [
          | inr (x, executed) ↦ rw (pick_stage, found, executed) kept
          | inl waits ↦
              let differ = waiting-differs rs name kept waits in
              elim (Bool-cases (disaggregates decider endpoint)) [
                | inl yes_run ↦ rw (pick_stage, found, waits, yes_run) (kept, differ)
                | inr skip ↦
                    rw (pick_stage, found, waits, skip)
                      (result_for-set_result rs name h.decode_profile none ∙ rw differ kept)
              ]
        ]
      ]

  IsKept-stage :
      (s : S) (stage : Profiles S F × Results) (endpoint : ℕ)
      → IsKept stage
      → IsKept (
        (then_prefill h s profiles endpoint stage).0,
        (then_prefill h s profiles endpoint stage).1,
      )
  unfolding then_prefill
  IsKept-stage s ([], rs) endpoint kept =
      pick_stage-IsKept rs h.prefill_profile h.pd_decider endpoint kept
  IsKept-stage s ((name, p) ∷ [], rs) endpoint kept = kept
  IsKept-stage s (p ∷ (q ∷ ps), rs) endpoint kept = kept

  pick_stages-IsKept :
      (s : S) (rs : Results) (e : ℕ) (es : List ℕ)
      → targets_of (some r) ≡ e ∷ es
      → result_for rs h.decode_profile ≡ some r
      → IsKept ((pick_stages h s profiles rs).0, (pick_stages h s profiles rs).1)
  unfolding pick_stages pick_optional
  pick_stages-IsKept s rs e es found kept =
      rw (pick_stages, kept, found)
        (IsKept-stage s (pick_stage profiles rs h.encode_profile h.encode_decider e) e
          (pick_stage-IsKept rs h.encode_profile h.encode_decider e kept))

module _ {S F : Type 0} (floats : Floats F) (iterate : Scores F → Scores F) (candidates : List ℕ)
    (h : Handler) (profiles : Profiles S F) where
  module _ (r : Option (List ℕ)) (e : ℕ) (es : List ℕ) (found : targets_of (some r) ≡ e ∷ es) where
    finish-IsUnfailed :
        (s : S) (rs : Results)
        → result_for rs h.decode_profile ≡ some r
        → IsUnfailed (finish floats iterate candidates (disagg_handler h) profiles s rs)
    unfolding finish process_stages result_for
    finish-IsUnfailed s [] kept = absurd (ground (arith, kept))
    finish-IsUnfailed s (x ∷ rs) kept =
        let some_ran : (length (x ∷ rs) == 0) ≡ false = ground arith in
        rw (finish, some_ran, process_stages, kept, found) tt

    after_pick-IsUnfailed :
        (rest : S → Results → Scheduled) (picked : Profiles S F × Results × S)
        → IsKept h profiles r (picked.0, picked.1)
        → ((s : S) (rs : Results)
            → result_for rs h.decode_profile ≡ some r
            → IsUnfailed (rest s rs))
        → IsUnfailed (after_pick floats iterate candidates (disagg_handler h) profiles rest picked)
    unfolding after_pick run_profiles
    after_pick-IsUnfailed rest ([], rs, s) kept next = finish-IsUnfailed s rs kept
    after_pick-IsUnfailed rest ((name, p) ∷ [], rs, s) (kept, differ) next =
        next _ _ (result_for-set_result rs name h.decode_profile _ ∙ rw differ kept)
    after_pick-IsUnfailed rest (p ∷ (q ∷ ps), rs, s) impossible next = absurd impossible

    schedule_from-IsUnfailed :
        (fuel : ℕ) (s : S) (rs : Results)
        → result_for rs h.decode_profile ≡ some r
        → IsUnfailed (schedule_from floats iterate candidates (disagg_handler h) profiles fuel s rs)
    unfolding schedule_from
    schedule_from-IsUnfailed zero s rs kept = tt
    schedule_from-IsUnfailed (suc fuel) s rs kept =
        after_pick-IsUnfailed _ (pick_stages h s profiles rs)
          (pick_stages-IsKept h profiles r s rs e es found kept)
          (λ s' rs' kept'. schedule_from-IsUnfailed fuel s' rs' kept')

  -- What a request comes to by its decode profile, if there is one: without it nothing runs; if its run gives no
  -- target there are no decode workers; and else there is no error.
  abbrev pub IsCaused : S → Option (SchedulerProfile S F) → Scheduled → Type 0
  IsCaused s none o = o ≡ unscheduled no_profile_ran
  IsCaused s (some p) o =
      let targets = targets_of (some (result_of (run floats iterate p s candidates).0)) in
      ((targets ≡ []) × (o ≡ unscheduled no_decode_workers))
      ⊎ ((e : ℕ) × (es : List ℕ) × (targets ≡ e ∷ es) × IsUnfailed o)

  -- The first round runs decode.
  after_decode :
      (fuel : ℕ) (s : S) (p : SchedulerProfile S F)
      → profile_for profiles h.decode_profile ≡ some p
      → schedule floats iterate candidates (disagg_handler h) profiles (suc fuel) s
        ≡ schedule_from floats iterate candidates
            (disagg_handler h)
            profiles
            fuel
            (run floats iterate p s candidates).1
            ((h.decode_profile, result_of (run floats iterate p s candidates).0) ∷ [])
  unfolding schedule schedule_from pick_stages result_for after_pick run_profiles set_result
  after_decode fuel s p there = rw (pick_stages, there) refl

  no_targets :
      (fuel : ℕ) (s : S) (r : Option (List ℕ))
      → targets_of (some r) ≡ []
      → schedule_from floats iterate candidates
          (disagg_handler h)
          profiles
          (suc fuel)
          s
          ((h.decode_profile, r) ∷ [])
        ≡ unscheduled no_decode_workers
  unfolding schedule_from pick_stages after_pick finish process_stages result_for
  no_targets fuel s r failed =
      let here : (h.decode_profile == h.decode_profile) ≡ true = ground arith in
      rw (pick_stages, result_for, here, failed)
        (rw (finish, process_stages, result_for, here, failed) refl)

  pub schedule-IsCaused :
      (fuel : ℕ) (s : S)
      → IsCaused s
          (lookup_in (λ a b. a == b) profiles h.decode_profile)
          (schedule floats iterate candidates (disagg_handler h) profiles (suc (suc fuel)) s)
  unfolding schedule schedule_from pick_stages result_for after_pick finish
  schedule-IsCaused fuel s =
      let named = profile_for-lookup profiles h.decode_profile in
      elim (Option-cases (profile_for profiles h.decode_profile)) [
        | inl missing ↦
            rw (sym named ∙ missing) (rw (schedule, schedule_from, pick_stages, missing) refl)
        | inr (p, there) ↦
            let r = result_of (run floats iterate p s candidates).0 in
            let here : (h.decode_profile == h.decode_profile) ≡ true = ground arith in
            rw (sym named ∙ there) (elim (List-cases (targets_of (some r))) [
              | inl failed ↦
                  inl (failed, after_decode (suc fuel) s p there ∙ no_targets fuel _ r failed)
              | inr (e, es, found) ↦ inr (
                e,
                es,
                found,
                rw (after_decode (suc fuel) s p there) (
                    schedule_from-IsUnfailed r e es found (suc fuel)
                      (run floats iterate p s candidates).1 ((h.decode_profile, r) ∷ [])
                      (rw (result_for, here) refl)),
              )
            ])
      ]
