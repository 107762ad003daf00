-- ===== src/Scheduling/Profile/Candidates.antt =====
-- pkg/epp/scheduling/scheduler_profile.go: a run picks among the candidates.
use llm_d_inference_schedule.Prelude.{
  Bool-cases, List-cases, ℕ, ◌<◌, ◌≡◌, refl, inl, inr, ◌==◌, true, false, Option, none, some, List,
  [], ◌∷◌, has, length, arith,
}
use llm_d_inference_schedule.Scheduling.Profile.{
  Floats, Scores, endpoints_of, Filter, WeightedScorer, Picker, SchedulerProfile, RunResult,
  no_endpoints, ran, run_filter_plugins, run_scorer_plugins, run,
}
use llm_d_inference_schedule.Scheduling.Profile.Weights.{
  score_of, AreScorers, score_of-run_scorer_absent,
}

-- A filter leaves only endpoints that it got.
abbrev pub IsFilter : {S : Type 0} → Filter S → Type 0
IsFilter {S} filter = (s : S) (es : List ℕ) (e : ℕ) → has (filter s es).0 e ≡ true → has es e ≡ true

abbrev pub AreFilters : {S : Type 0} → List (Filter S) → Type 0
AreFilters [] = Unit
AreFilters (filter ∷ filters) = IsFilter filter × AreFilters filters

-- A picker's targets are among the scored endpoints.
abbrev pub IsPicker : {S F : Type 0} → Picker S F → Type 0
IsPicker {S} {F} picker =
    (s : S) (scored : Scores F) (targets : List ℕ)
    → (picker s scored).0 ≡ some targets
    → (e : ℕ) → has targets e ≡ true
    → has (endpoints_of scored) e ≡ true

-- Going through a map gives its endpoints.
abbrev pub IsIteration : {F : Type 0} → (Scores F → Scores F) → Type 0
IsIteration {F} iterate =
    (m : Scores F) (e : ℕ) → has (endpoints_of (iterate m)) e ≡ has (endpoints_of m) e

run_filter_plugins-subset :
    {S : Type 0} (filters : List (Filter S)) (s : S) (es : List ℕ) (e : ℕ)
    → AreFilters filters
    → has (run_filter_plugins filters s es).0 e ≡ true
    → has es e ≡ true
unfolding run_filter_plugins
run_filter_plugins-subset [] s es e laws h = h
run_filter_plugins-subset (filter ∷ filters) s es e (law, laws) h =
    elim (List-cases (filter s es).0) [
      | inl empty ↦ absurd (ground (arith, rw (run_filter_plugins, empty) at h))
      | inr (x, xs, left) ↦
          let further =
            run_filter_plugins-subset filters _ (x ∷ xs) e laws
              (rw (run_filter_plugins, left) at h) in
          law s es e (rw left further)
    ]

-- What filters leave of the endpoints: what each leaves goes to the next, and none is asked after one that
-- leaves nothing.
pub data Filtered {S : Type 0} : List (Filter S) → S → List ℕ → List ℕ → Type 0 where
  unfiltered : (s : S) (es : List ℕ) → Filtered [] s es es
  emptied :
      (filter : Filter S) (filters : List (Filter S)) (s : S) (es : List ℕ)
      → (filter s es).0 ≡ []
      → Filtered (filter ∷ filters) s es []
  passed :
      (filter : Filter S) (filters : List (Filter S)) (s : S) (es left : List ℕ)
      → 0 < length (filter s es).0
      → Filtered filters (filter s es).1 (filter s es).0 left
      → Filtered (filter ∷ filters) s es left

run_filter_plugins-Filtered :
    {S : Type 0} (filters : List (Filter S)) (s : S) (es : List ℕ)
    → Filtered filters s es (run_filter_plugins filters s es).0
unfolding run_filter_plugins
run_filter_plugins-Filtered [] s es = unfiltered s es
run_filter_plugins-Filtered (filter ∷ filters) s es = elim (List-cases (filter s es).0) [
  | inl empty ↦ rw (run_filter_plugins, empty) (emptied filter filters s es empty)
  | inr (x, xs, left) ↦
      rw (run_filter_plugins, left)
        (passed filter filters s es _ (ground (arith, left))
          (rw left (run_filter_plugins-Filtered filters (filter s es).1 (x ∷ xs))))
]

has-score_of :
    {F : Type 0} (m : Scores F) (e : ℕ) → score_of m e ≡ none → has (endpoints_of m) e ≡ false
has-score_of [] e h = refl
has-score_of ((k, x) ∷ m) e h = ground (arith, h, has-score_of m e)

-- What a run may end with, after filters that leave `left` of the candidates.
abbrev pub IsRun : List ℕ → List ℕ → RunResult → Type 0
IsRun candidates left no_endpoints = left ≡ []
IsRun candidates left (ran none) = 0 < length left
IsRun candidates left (ran (some targets)) =
    (0 < length left)
    × ((e : ℕ) → has targets e ≡ true → (has left e ≡ true) × (has candidates e ≡ true))

empty_list : (xs : List ℕ) → (length xs == 0) ≡ true → xs ≡ []
empty_list [] h = refl
empty_list (x ∷ xs) h = absurd (ground arith)

ran-IsRun :
    (candidates left : List ℕ) (result : Option (List ℕ))
    → 0 < length left
    → ((targets : List ℕ)
        → result ≡ some targets
        → (e : ℕ) → has targets e ≡ true
        → (has left e ≡ true) × (has candidates e ≡ true))
    → IsRun candidates left (ran result)
ran-IsRun candidates left none positive kept = positive
ran-IsRun candidates left (some targets) positive kept = (positive, kept targets refl)

module _ {S F : Type 0} (floats : Floats F) (iterate : Scores F → Scores F)
    (iteration : IsIteration iterate) where
  scored-subset :
      (scorers : List (WeightedScorer S F)) (s : S) (endpoints : List ℕ) (e : ℕ)
      → AreScorers scorers
      → has (endpoints_of (iterate (run_scorer_plugins floats scorers s endpoints).0)) e ≡ true
      → has endpoints e ≡ true
  scored-subset scorers s endpoints e laws h =
      let m = (run_scorer_plugins floats scorers s endpoints).0 in
      elim (Bool-cases (has endpoints e)) [
        | inl there ↦ there
        | inr out ↦
            let gone =
              has-score_of m e (score_of-run_scorer_absent floats scorers s endpoints e laws out) in
            absurd (ground (arith, iteration m e, h, gone))
      ]

  -- A run, by what `run_filter_plugins` leaves.
  pub run-IsRun_left :
      (p : SchedulerProfile S F) (s : S) (candidates : List ℕ)
      → AreFilters p.filters
      → AreScorers p.scorers
      → IsPicker p.picker
      → IsRun candidates
          (run_filter_plugins p.filters s candidates).0
          (run floats iterate p s candidates).0
  unfolding run
  run-IsRun_left p s candidates filtering scoring picking =
      let left = run_filter_plugins p.filters s candidates in
      let scored = run_scorer_plugins floats p.scorers left.1 left.0 in
      let result = p.picker scored.1 (iterate scored.0) in
      elim (Bool-cases (length left.0 == 0)) [
        | inl none_left ↦ rw none_left (empty_list left.0 none_left)
        | inr some_left ↦ rw some_left (
            ran-IsRun candidates left.0 result.0 (ground (arith, some_left))
              (λ targets chosen e target.
                let among = picking scored.1 (iterate scored.0) targets chosen e target in
                let kept = scored-subset p.scorers left.1 left.0 e scoring among in
                (kept, run_filter_plugins-subset p.filters s candidates e filtering kept)))
      ]

  -- If filters and scorers keep to the endpoints that they get, each scorer scores an endpoint at most once, the
  -- picker keeps to the scored ones and the iteration gives the map's endpoints: the filters leave some of the
  -- candidates, each getting what the one before leaves; a run fails exactly if they leave no endpoint, and
  -- else every target is a candidate that they left.
  pub run-IsRun :
      (p : SchedulerProfile S F) (s : S) (candidates : List ℕ)
      → AreFilters p.filters
      → AreScorers p.scorers
      → IsPicker p.picker
      → (left : List ℕ) × Filtered p.filters s candidates left
        × IsRun candidates left (run floats iterate p s candidates).0
  run-IsRun p s candidates filtering scoring picking = (
    (run_filter_plugins p.filters s candidates).0,
    run_filter_plugins-Filtered p.filters s candidates,
    run-IsRun_left p s candidates filtering scoring picking,
  )
