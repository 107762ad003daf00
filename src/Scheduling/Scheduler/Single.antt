-- ===== src/Scheduling/Scheduler/Single.antt =====
-- pkg/epp/scheduling/scheduler.go with the handler of a single profile: how a request's scheduling ends.
use llm_d_inference_schedule.Prelude.{
  ℕ, suc, ◌+◌, ◌≡◌, refl, ap, ◌∙◌, ◌⊎◌, inl, inr, ◌==◌, ◌||◌, true, false, Option, none, some, List,
  [], ◌∷◌, has, length, Nodup, arith,
}
use llm_d_inference_schedule.Scheduling.Profile.{
  Floats, Scores, SchedulerProfile, RunResult, no_endpoints, ran, run_filter_plugins, run,
}
use llm_d_inference_schedule.Scheduling.Profile.Weights.{AreScorers}
use llm_d_inference_schedule.Scheduling.Profile.Candidates.{
  AreFilters, IsPicker, IsIteration, IsRun, run-IsRun_left,
}
use llm_d_inference_schedule.Scheduling.Scheduler.{
  Profiles, Results, no_profile_ran, multiple_profiles, profile_failed, Scheduled, scheduled,
  unscheduled, set_result, result_of, run_profiles, finish, after_pick, schedule_from, schedule,
  pick_profiles, process_single, single_profile_handler,
}

abbrev pub profile_names : {S F : Type 0} → Profiles S F → List ℕ
profile_names [] = []
profile_names ((name, p) ∷ ps) = name ∷ profile_names ps

abbrev pub result_names : Results → List ℕ
result_names [] = []
result_names ((name, r) ∷ rs) = name ∷ result_names rs

pub has-set_result :
    (rs : Results) (name : ℕ) (r : Option (List ℕ)) (v : ℕ)
    → has (result_names (set_result rs name r)) v ≡ (has (result_names rs) v || name == v)
unfolding set_result
has-set_result [] name r v = ground arith
has-set_result ((k, x) ∷ rs) name r v = ground (arith, has-set_result rs name r v)

-- A result under a new name is one more.
length-set_result :
    (rs : Results) (name : ℕ) (r : Option (List ℕ))
    → has (result_names rs) name ≡ false
    → length (set_result rs name r) ≡ suc (length rs)
unfolding set_result
length-set_result [] name r h = refl
length-set_result ((k, x) ∷ rs) name r h = ground (arith, h, length-set_result rs name r)

-- None of the names has a result yet.
abbrev AreNew : List ℕ → Results → Type 0
AreNew [] rs = Unit
AreNew (name ∷ names) rs = (has (result_names rs) name ≡ false) × AreNew names rs

AreNew-set_result :
    (names : List ℕ) (rs : Results) (name : ℕ) (r : Option (List ℕ))
    → has names name ≡ false
    → AreNew names rs
    → AreNew names (set_result rs name r)
AreNew-set_result [] rs name r fresh new = tt
AreNew-set_result (x ∷ names) rs name r fresh (here, new) = (
  ground (arith, has-set_result rs name r x, here, fresh),
  AreNew-set_result names rs name r (ground (arith, fresh)) new,
)

AreNew-empty : (names : List ℕ) → AreNew names []
AreNew-empty [] = tt
AreNew-empty (x ∷ names) = (refl, AreNew-empty names)

many_results :
    (n : ℕ) (rs : Results)
    → length rs ≡ suc (suc n)
    → process_single rs ≡ unscheduled multiple_profiles
unfolding process_single
many_results n [] h = refl
many_results n ((name, r) ∷ []) h = absurd (omega (arith, h))
many_results n (r ∷ (r' ∷ rs)) h = refl

module _ {S F : Type 0} (floats : Floats F) (iterate : Scores F → Scores F)
    (candidates : List ℕ) where
  length-run_profiles :
      (ps : Profiles S F) (s : S) (rs : Results)
      → Nodup (profile_names ps)
      → AreNew (profile_names ps) rs
      → length (run_profiles floats iterate candidates ps s rs).0 ≡ length ps + length rs
  unfolding run_profiles
  length-run_profiles [] s rs distinct new = omega arith
  length-run_profiles ((name, p) ∷ ps) s rs (fresh, distinct) (here, new) =
      let r = result_of (run floats iterate p s candidates).0 in
      let more = length-set_result rs name r here in
      let next =
        length-run_profiles ps (run floats iterate p s candidates).1 (set_result rs name r) distinct
          (AreNew-set_result (profile_names ps) rs name r fresh new) in
      omega (arith, more, next)

  -- How scheduling ends: the targets of the only profile are candidates that its filters left; or it left none
  -- or its picker gave no result; or there is not one profile.
  abbrev pub IsScheduled : Profiles S F → S → Scheduled → Type 0
  IsScheduled [] s result = result ≡ unscheduled no_profile_ran
  IsScheduled ((name, p) ∷ []) s result =
      ((targets : List ℕ) × (result ≡ scheduled ((name, some targets) ∷ []) name)
        × IsRun candidates (run_filter_plugins p.filters s candidates).0 (ran (some targets)))
      ⊎ ((result ≡ unscheduled profile_failed)
          × (((run_filter_plugins p.filters s candidates).0 ≡ [])
              ⊎ ((run floats iterate p s candidates).0 ≡ ran none)))
  IsScheduled (p ∷ (q ∷ ps)) s result = result ≡ unscheduled multiple_profiles

  -- The plugins of each profile keep to the endpoints that they get.
  abbrev pub AreLawful : Profiles S F → Type 0
  AreLawful [] = Unit
  AreLawful ((name, p) ∷ ps) =
      (AreFilters p.filters × AreScorers p.scorers × IsPicker p.picker) × AreLawful ps

  single-IsScheduled :
      (name : ℕ) (p : SchedulerProfile S F) (s : S) (outcome : RunResult)
      → (run floats iterate p s candidates).0 ≡ outcome
      → IsRun candidates (run_filter_plugins p.filters s candidates).0 outcome
      → IsScheduled ((name, p) ∷ []) s (process_single ((name, result_of outcome) ∷ []))
  unfolding process_single
  single-IsScheduled name p s no_endpoints ends h = inr (refl, inl h)
  single-IsScheduled name p s (ran none) ends h = inr (refl, inr ends)
  single-IsScheduled name p s (ran (some targets)) ends h = inl (targets, refl, h)

  second_round :
      (profiles : Profiles S F) (fuel n : ℕ) (s : S) (rs : Results)
      → length rs ≡ length profiles
      → length rs ≡ suc (suc n)
      → schedule_from floats iterate candidates single_profile_handler profiles (suc fuel) s rs
        ≡ unscheduled multiple_profiles
  unfolding schedule_from after_pick finish pick_profiles
  second_round profiles fuel n s rs same h =
      let all : (length profiles == length rs) ≡ true = ground (arith, same) in
      let some_ran : (length rs == 0) ≡ false = ground (arith, h) in
      rw (schedule_from, all, some_ran) (many_results n rs h)

  all_picked :
      (p q : ℕ × SchedulerProfile S F) (ps : Profiles S F) (s : S)
      → pick_profiles s (p ∷ (q ∷ ps)) [] ≡ (p ∷ (q ∷ ps), [], s)
  unfolding pick_profiles
  all_picked p q ps s =
      let none_ran : (suc (suc (length ps)) == 0) ≡ false = ground arith in
      rw (pick_profiles, none_ran) refl

  first_round :
      (p q : ℕ × SchedulerProfile S F) (ps : Profiles S F) (fuel : ℕ) (s : S)
      → schedule_from floats iterate candidates single_profile_handler
          (p ∷ (q ∷ ps))
          (suc fuel)
          s
          []
        ≡ schedule_from floats iterate candidates single_profile_handler
            (p ∷ (q ∷ ps))
            fuel
            (run_profiles floats iterate candidates (p ∷ (q ∷ ps)) s []).1
            (run_profiles floats iterate candidates (p ∷ (q ∷ ps)) s []).0
  unfolding schedule_from after_pick
  first_round p q ps fuel s =
      ap
        (λ picked.
          after_pick floats iterate candidates single_profile_handler (p ∷ (q ∷ ps))
            (schedule_from floats iterate candidates single_profile_handler (p ∷ (q ∷ ps)) fuel)
            picked)
        (all_picked p q ps s)

  -- With the handler of a single profile, profiles of different names and plugins that keep to the endpoints
  -- that they get, scheduling ends after at most two rounds. If there is one profile, either its targets are
  -- candidates that its filters left, or it is an error and the filters left none or the picker gave no
  -- result; without a profile and with several, it is the error for that.
  pub schedule-IsScheduled :
      (profiles : Profiles S F) (fuel : ℕ) (s : S)
      → IsIteration iterate
      → Nodup (profile_names profiles)
      → AreLawful profiles
      → IsScheduled profiles s
          (schedule floats iterate candidates single_profile_handler profiles (suc (suc fuel)) s)
  unfolding schedule schedule_from after_pick finish pick_profiles run_profiles set_result
  schedule-IsScheduled [] fuel s iteration distinct laws = refl
  schedule-IsScheduled ((name, p) ∷ []) fuel s iteration distinct
        ((filtering, scoring, picking), laws) =
      single-IsScheduled name p s (run floats iterate p s candidates).0 refl
        (run-IsRun_left floats iterate iteration p s candidates filtering scoring picking)
  schedule-IsScheduled (p ∷ (q ∷ ps)) fuel s iteration distinct laws =
      let size =
        length-run_profiles (p ∷ (q ∷ ps)) s [] distinct
          (AreNew-empty (profile_names (p ∷ (q ∷ ps)))) in
      first_round p q ps (suc fuel) s
      ∙ second_round (p ∷ (q ∷ ps)) fuel (length ps) _ _ (omega (arith, size)) (omega (arith, size))
