-- ===== src/Scheduling/Profile.antt =====
-- pkg/epp/scheduling/scheduler_profile.go: the filters, the scorers and the picker of a profile. An endpoint is
-- named by a number. `S` is what the plugins keep and the cycle's state, `F` the type float64, with the
-- operations that the code uses. A Go map of scores is the list of its entries.
pub mod Candidates
pub mod Weights
use llm_d_inference_schedule.Prelude.{
  ℕ, ◌==◌, if◌then◌else◌, Bool, true, false, Option, none, some, List, [], ◌∷◌, length,
}

pub record Floats (F : Type 0) : Type 0 where
  pub zero : F
  pub one : F
  pub lt : F → F → Bool
  pub add : F → F → F
  pub mul : F → F → F

abbrev pub Scores : Type 0 → Type 0
Scores F = List (ℕ × F)

-- The endpoints of the entries.
abbrev pub endpoints_of : {F : Type 0} → Scores F → List ℕ
endpoints_of [] = []
endpoints_of ((e, x) ∷ m) = e ∷ endpoints_of m

-- A filter leaves some of the endpoints.
abbrev pub Filter : Type 0 → Type 0
Filter S = S → List ℕ → List ℕ × S

pub record WeightedScorer (S F : Type 0) : Type 0 where
  pub score : S → List ℕ → Scores F × S
  pub weight : F

-- A picker's result is a pointer to the target endpoints.
abbrev pub Picker : Type 0 → Type 0 → Type 0
Picker S F = S → Scores F → Option (List ℕ) × S

pub record SchedulerProfile (S F : Type 0) : Type 0 where
  pub filters : List (Filter S)
  pub scorers : List (WeightedScorer S F)
  pub picker : Picker S F

pub data RunResult : Type 0 where
  no_endpoints : RunResult
  ran : Option (List ℕ) → RunResult

module _ {S : Type 0} where
  unfoldable pub run_filter_plugins : List (Filter S) → S → List ℕ → List ℕ × S
  run_filter_plugins [] s endpoints = (endpoints, s)
  run_filter_plugins (filter ∷ filters) s endpoints =
      let (filtered, s') = filter s endpoints in
      elim filtered [ [] ↦ ([], s') | e ∷ es ↦ run_filter_plugins filters s' (e ∷ es) ]

module _ {F : Type 0} (floats : Floats F) where
  unfoldable pub enforce_score_range : F → F
  enforce_score_range score =
      if floats.lt score floats.zero
      then floats.zero
      else if floats.lt floats.one score
      then floats.one
      else score

  -- `scores[endpoint] = 0`
  unfoldable pub reset_score : Scores F → ℕ → Scores F
  reset_score [] endpoint = (endpoint, floats.zero) ∷ []
  reset_score ((e, x) ∷ m) endpoint =
      if e == endpoint then (e, floats.zero) ∷ m else (e, x) ∷ reset_score m endpoint

  -- `scores[endpoint] += y`, where a missing entry counts as 0.
  unfoldable pub add_score : Scores F → ℕ → F → Scores F
  add_score [] endpoint y = (endpoint, floats.add floats.zero y) ∷ []
  add_score ((e, x) ∷ m) endpoint y =
      if e == endpoint then (e, floats.add x y) ∷ m else (e, x) ∷ add_score m endpoint y

  unfoldable pub initial_scores : List ℕ → Scores F → Scores F
  initial_scores [] m = m
  initial_scores (e ∷ es) m = initial_scores es (reset_score m e)

  -- The loop over the scores that one scorer gives.
  unfoldable pub accumulate : F → Scores F → Scores F → Scores F
  accumulate weight [] m = m
  accumulate weight ((e, score) ∷ scores) m =
      accumulate weight scores (add_score m e (floats.mul (enforce_score_range score) weight))

  module _ {S : Type 0} where
    unfoldable pub run_scorers : List (WeightedScorer S F) → S → List ℕ → Scores F → Scores F × S
    run_scorers [] s endpoints m = (m, s)
    run_scorers (scorer ∷ scorers) s endpoints m =
        let (scores, s') = scorer.score s endpoints in
        run_scorers scorers s' endpoints (accumulate scorer.weight scores m)

    unfoldable pub run_scorer_plugins : List (WeightedScorer S F) → S → List ℕ → Scores F × S
    run_scorer_plugins scorers s endpoints =
        run_scorers scorers s endpoints (initial_scores endpoints [])

    -- The picker gets the scores in the order in which `iterate` goes through the map.
    unfoldable pub run : (Scores F → Scores F) → SchedulerProfile S F → S → List ℕ → RunResult × S
    run iterate p s candidates =
        let (endpoints, s₁) = run_filter_plugins p.filters s candidates in
        let (scores, s₂) = run_scorer_plugins p.scorers s₁ endpoints in
        let (result, s₃) = p.picker s₂ (iterate scores) in
        if length endpoints == 0 then (no_endpoints, s₁) else (ran result, s₃)
