-- ===== src/Scheduling/Disaggregation/Stages.antt =====
-- pkg/epp/framework/plugins/scheduling/profilehandler/disagg/disagg_profile_handler.go under
-- pkg/epp/scheduling/scheduler.go: a request's stages end, with targets among the candidates.
use llm_d_inference_schedule.Prelude.{
  lookup as lookup_in, Bool-cases, List-cases, ℕ, zero, suc, ◌<◌, ◌≡◌, refl, ◌⊎◌, inl, inr, ◌==◌,
  none, some, List, [], ◌∷◌, length, arith,
}
use llm_d_inference_schedule.Scheduling.Profile.{
  Floats, Scores, SchedulerProfile, RunResult, no_endpoints, ran, run_filter_plugins, run,
}
use llm_d_inference_schedule.Scheduling.Profile.Candidates.{
  AreFilters, IsPicker, IsIteration, IsRun, run-IsRun_left,
}
use llm_d_inference_schedule.Scheduling.Profile.Weights.{AreScorers}
use llm_d_inference_schedule.Scheduling.Scheduler.{
  Profiles, Results, no_profile_ran, no_decode_workers, Scheduled, scheduled, unscheduled,
  out_of_fuel, result_of, run_profiles, finish, after_pick, schedule_from, schedule,
}
use llm_d_inference_schedule.Scheduling.Scheduler.Single.{AreLawful}
use llm_d_inference_schedule.Scheduling.Disaggregation.{
  Handler, result_for, targets_of, profile_for, pick_stages, updated_results, process_stages,
  disagg_handler,
}
use llm_d_inference_schedule.Scheduling.Disaggregation.Targets.{
  AreCandidates, IsResult, AllTargets, set_result-AllTargets, result_for-AllTargets,
  copy_result-AllTargets, in_candidates, remaining,
}
use llm_d_inference_schedule.Scheduling.Disaggregation.Causes.{IsCaused, schedule-IsCaused}
use llm_d_inference_schedule.Scheduling.Disaggregation.Picks.{IsPick, pick_stages-IsPick}

module _ {S F : Type 0} where
  -- What holds of every profile holds of the one of a name.
  profile_for-lawful :
      (floats : Floats F) (iterate : Scores F → Scores F) (candidates : List ℕ)
      (profiles : Profiles S F) (name : ℕ) (p : SchedulerProfile S F)
      → AreLawful floats iterate candidates profiles
      → profile_for profiles name ≡ some p
      → AreFilters p.filters × AreScorers p.scorers × IsPicker p.picker
  unfolding profile_for
  profile_for-lawful floats iterate candidates [] name p laws found = absurd (ground (arith, found))
  profile_for-lawful floats iterate candidates ((k, q) ∷ profiles) name p (law, laws) found =
      elim (Bool-cases (k == name)) [
        | inl same ↦
            let this : some q ≡ some p = rw same at found in
            let e : q ≡ p = ground (arith, this) in rw e at law
        | inr other ↦
            profile_for-lawful floats iterate candidates profiles name p laws (rw other at found)
      ]

run-IsResult :
    (candidates left : List ℕ) (outcome : RunResult)
    → IsRun candidates left outcome
    → IsResult candidates (result_of outcome)
run-IsResult candidates left no_endpoints h = tt
run-IsResult candidates left (ran none) h = tt
run-IsResult candidates left (ran (some ts)) (some_left, kept) =
    in_candidates candidates ts (λ e there. (kept e there).1)

-- A request with stages is scheduled with the decode profile as its primary one and all targets among the
-- candidates, or has an error: that nothing ran, or that decode gave no target.
abbrev pub IsDisaggregated : Handler → List ℕ → Scheduled → Type 0
IsDisaggregated h candidates (scheduled rs name) =
    (name ≡ h.decode_profile) × AllTargets candidates rs
IsDisaggregated h candidates (unscheduled e) = (e ≡ no_profile_ran) ⊎ (e ≡ no_decode_workers)
IsDisaggregated h candidates out_of_fuel = ⊥

process_stages-IsDisaggregated :
    (h : Handler) (candidates : List ℕ) (rs : Results)
    → AllTargets candidates rs
    → IsDisaggregated h candidates (process_stages h rs)
unfolding process_stages updated_results
process_stages-IsDisaggregated h candidates rs all =
    elim (List-cases (targets_of (result_for rs h.decode_profile))) [
      | inl none_found ↦ rw (process_stages, none_found) (inr refl)
      | inr (e, es, found) ↦
          let decode : AreCandidates candidates (e ∷ es) =
            rw found at (result_for-AllTargets candidates rs h.decode_profile all) in
          rw (process_stages, found)
            (
              refl,
              copy_result-AllTargets candidates (result_for rs h.encode_profile) h.encode_profile _
                  (result_for-AllTargets candidates rs h.encode_profile all)
                  (copy_result-AllTargets candidates (result_for rs h.prefill_profile)
                    h.prefill_profile _ (result_for-AllTargets candidates rs h.prefill_profile all)
                    (decode, tt)),
            )
    ]

module _ {S F : Type 0} (floats : Floats F) (iterate : Scores F → Scores F) (candidates : List ℕ)
    (h : Handler) (profiles : Profiles S F) (iteration : IsIteration iterate)
    (laws : AreLawful floats iterate candidates profiles) where
  finish-IsDisaggregated :
      (s : S) (rs : Results)
      → AllTargets candidates rs
      → IsDisaggregated h candidates
          (finish floats iterate candidates (disagg_handler h) profiles s rs)
  unfolding finish
  finish-IsDisaggregated s rs all = elim (Bool-cases (length rs == 0)) [
    | inl none_ran ↦ rw (finish, none_ran) (inl refl)
    | inr some_ran ↦ rw (finish, some_ran) (process_stages-IsDisaggregated h candidates rs all)
  ]

  -- A pick is followed by the end, or by a round with fewer stages waiting.
  after_pick-IsDisaggregated :
      (n : ℕ) (rest : S → Results → Scheduled) (picked : Profiles S F × Results × S)
      → IsPick h candidates profiles n picked
      → ((s : S) (rs : Results)
          → AllTargets candidates rs
          → remaining h rs < n
          → IsDisaggregated h candidates (rest s rs))
      → IsDisaggregated h candidates
          (after_pick floats iterate candidates (disagg_handler h) profiles rest picked)
  unfolding after_pick run_profiles
  after_pick-IsDisaggregated n rest ([], rs, s) all next = finish-IsDisaggregated s rs all
  after_pick-IsDisaggregated n rest ((name, p) ∷ [], rs, s) (found, all, fewer) next =
      let (filtering, scoring, picking) =
        profile_for-lawful floats iterate candidates profiles name p laws found in
      let outcome = (run floats iterate p s candidates).0 in
      let ends = run-IsRun_left floats iterate iteration p s candidates filtering scoring picking in
      let result =
        run-IsResult candidates (run_filter_plugins p.filters s candidates).0 outcome ends in
      next _ _ (set_result-AllTargets candidates rs name (result_of outcome) result all)
        (fewer (result_of outcome))
  after_pick-IsDisaggregated n rest (p ∷ (q ∷ ps), rs, s) impossible next = absurd impossible

  schedule_from-IsDisaggregated :
      (fuel : ℕ) (s : S) (rs : Results)
      → AllTargets candidates rs
      → remaining h rs < fuel
      → IsDisaggregated h candidates
          (schedule_from floats iterate candidates (disagg_handler h) profiles fuel s rs)
  unfolding schedule_from
  schedule_from-IsDisaggregated zero s rs all bound = absurd (omega arith)
  schedule_from-IsDisaggregated (suc fuel) s rs all bound =
      after_pick-IsDisaggregated (remaining h rs) _ (pick_stages h s profiles rs)
        (pick_stages-IsPick h candidates profiles s rs all)
        (λ s' rs' all' fewer.
          schedule_from-IsDisaggregated fuel s' rs' all' (omega (arith, fewer, bound)))

  -- With the handler of the stages decode, encode and prefill, and plugins that keep to the endpoints that they
  -- get, scheduling ends after at most three rounds with a profile, whatever the deciders say. The error is that
  -- nothing ran exactly if there is no decode profile, and that there are no decode workers exactly if its run gives
  -- no target; else decode is the primary profile and all targets are candidates.
  pub schedule-IsDisaggregated :
      (s : S)
      → let o = schedule floats iterate candidates (disagg_handler h) profiles 4 s in
        IsDisaggregated h candidates o
        × IsCaused floats iterate candidates h profiles s
            (lookup_in (λ a b. a == b) profiles h.decode_profile)
            o
  unfolding schedule
  schedule-IsDisaggregated s = (
    schedule_from-IsDisaggregated 4 s [] tt (omega arith),
    schedule-IsCaused floats iterate candidates h profiles 2 s,
  )
