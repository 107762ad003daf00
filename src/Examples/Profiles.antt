-- ===== src/Examples/Profiles.antt =====
-- A profile that scores with natural numbers, its picker, and the scheduling of a request with it.
use mathlib.Core.List.Perm
use llm_d_inference_schedule.Prelude.{
  List, Bool-cases, ℕ, ◌+◌, ◌*◌, ◌≡◌, refl, inl, inr, ltb, if◌then◌else◌, true, false, none, some,
  [], ◌∷◌, Perm, has, keep, has-keep, arith,
}
use llm_d_inference_schedule.Prelude.Int.{ℤ}
use llm_d_inference_schedule.Ordering.StrictWeak.{IsStrictWeak}
use llm_d_inference_schedule.Scheduling.Profile.{
  Floats, Scores, Filter, WeightedScorer, SchedulerProfile, run_scorer_plugins, run,
}
use llm_d_inference_schedule.Scheduling.Profile.Weights.{
  score_of, total_score, IsScorer, score_of-run_scorer_plugins,
}
use llm_d_inference_schedule.Scheduling.Profile.Candidates.{
  IsFilter, IsPicker, IsIteration, IsRun, Filtered, run-IsRun,
}
use llm_d_inference_schedule.Scheduling.MaxScorePicker.{pick_max_score}
use llm_d_inference_schedule.Scheduling.MaxScorePicker.Highest.{
  is_negative, NoneBefore, IsAscending, IsComparison, IsSort, PicksHighest,
  pick_max_score-PicksHighest, pick_max_score-IsPicker,
}
use llm_d_inference_schedule.Scheduling.Scheduler.{Profiles, single_profile_handler, schedule}
use llm_d_inference_schedule.Scheduling.Disaggregation.{Handler, disagg_handler}
use llm_d_inference_schedule.Scheduling.Disaggregation.Causes.{IsCaused}
use llm_d_inference_schedule.Scheduling.Disaggregation.Stages.{
  IsDisaggregated, schedule-IsDisaggregated,
}
use llm_d_inference_schedule.Scheduling.Scheduler.Single.{
  IsScheduled, AreLawful, schedule-IsScheduled,
}

abbrev numbers : Floats ℕ
numbers = record { zero = 0; one = 1; lt = ltb; add = λ a b. a + b; mul = λ a b. a * b }

abbrev as_it_is : Scores ℕ → Scores ℕ
as_it_is m = m

as_it_is-IsIteration : IsIteration as_it_is
as_it_is-IsIteration m e = refl

-- Insertion before the first entry that the new one goes before.
module _ (cmp : ℕ × ℕ → ℕ × ℕ → ℤ) where
  insert_entry : ℕ × ℕ → Scores ℕ → Scores ℕ
  insert_entry a [] = a ∷ []
  insert_entry a (b ∷ m) = if is_negative (cmp a b) then a ∷ (b ∷ m) else b ∷ insert_entry a m

  insertion_sort : Scores ℕ → Scores ℕ
  insertion_sort [] = []
  insertion_sort (a ∷ m) = insert_entry a (insertion_sort m)

  insert_entry-perm : (a : ℕ × ℕ) (m : Scores ℕ) → Perm (insert_entry a m) (a ∷ m)
  unfolding insert_entry
  insert_entry-perm a [] = Perm.refl (a ∷ [])
  insert_entry-perm a (b ∷ m) = elim (Bool-cases (is_negative (cmp a b))) [
    | inl before ↦ rw (insert_entry, before) (Perm.refl (a ∷ (b ∷ m)))
    | inr after ↦
        rw (insert_entry, after)
          (Perm.trans (Perm.cons b (insert_entry-perm a m)) (Perm.swap a b m))
  ]

  insert_entry-NoneBefore :
      (x a : ℕ × ℕ) (m : Scores ℕ)
      → is_negative (cmp a x) ≡ false
      → NoneBefore cmp x m
      → NoneBefore cmp x (insert_entry a m)
  unfolding insert_entry
  insert_entry-NoneBefore x a [] h none_before = (h, tt)
  insert_entry-NoneBefore x a (b ∷ m) h (here, none_before) =
      elim (Bool-cases (is_negative (cmp a b))) [
        | inl before ↦ rw (insert_entry, before) (h, (here, none_before))
        | inr after ↦ rw (insert_entry, after) (here, insert_entry-NoneBefore x a m h none_before)
      ]

  module _ (comparison : IsComparison cmp) where
    NoneBefore-earlier :
        (a b : ℕ × ℕ) (m : Scores ℕ)
        → is_negative (cmp a b) ≡ true
        → NoneBefore cmp b m
        → NoneBefore cmp a m
    NoneBefore-earlier a b [] h none_before = tt
    NoneBefore-earlier a b (c ∷ m) h (here, none_before) = (
      ground (arith, h, here, comparison.transitive c a b),
      NoneBefore-earlier a b m h none_before,
    )

    insert_entry-IsAscending :
        (a : ℕ × ℕ) (m : Scores ℕ) → IsAscending cmp m → IsAscending cmp (insert_entry a m)
    unfolding insert_entry
    insert_entry-IsAscending a [] h = (tt, tt)
    insert_entry-IsAscending a (b ∷ m) (here, h) = elim (Bool-cases (is_negative (cmp a b))) [
      | inl before ↦
          let apart : is_negative (cmp b a) ≡ false =
            ground (arith, before, comparison.transitive a b a, comparison.irreflexive a) in
          rw (insert_entry, before) ((apart, NoneBefore-earlier a b m before here), (here, h))
      | inr after ↦
          rw (insert_entry, after)
            (insert_entry-NoneBefore b a m after here, insert_entry-IsAscending a m h)
    ]

    insertion_sort-sorts :
        (m : Scores ℕ) → Perm (insertion_sort m) m × IsAscending cmp (insertion_sort m)
    unfolding insertion_sort
    insertion_sort-sorts [] = (Perm.refl [], tt)
    insertion_sort-sorts (a ∷ m) =
        let (moves, ascending) = insertion_sort-sorts m in
        (
          Perm.trans (insert_entry-perm a (insertion_sort m)) (Perm.cons a moves),
          insert_entry-IsAscending a (insertion_sort m) ascending,
        )

insertion_sort-IsSort : IsSort insertion_sort
insertion_sort-IsSort cmp comparison m = insertion_sort-sorts cmp comparison m

ltb-IsStrictWeak : IsStrictWeak ltb
ltb-IsStrictWeak = record {
  irreflexive = λ a. ground arith;
  transitive = λ a b c. ground arith;
  comparable = λ a b c. ground arith;
}

as_it_is-perm : (m : Scores ℕ) → Perm (as_it_is m) m
as_it_is-perm m = Perm.refl m

pick_max_score-PicksHighest_example :
    PicksHighest ltb 2
      ((7, 1) ∷ (8, 3) ∷ (9, 2) ∷ [])
      (pick_max_score {S = Unit} ltb as_it_is insertion_sort 2 tt ((7, 1) ∷ (8, 3) ∷ (9, 2) ∷ [])).0
pick_max_score-PicksHighest_example =
    pick_max_score-PicksHighest ltb as_it_is insertion_sort ltb-IsStrictWeak as_it_is-perm
      insertion_sort-IsSort 2 tt ((7, 1) ∷ (8, 3) ∷ (9, 2) ∷ [])

-- A filter that drops endpoint 0.
abbrev named : Filter Unit
named s es = (keep (λ e. ltb 0 e) es, s)

named-IsFilter : IsFilter named
named-IsFilter s es e h = ground (arith, h, has-keep (λ e'. ltb 0 e') es e)

-- A scorer for the first endpoint.
abbrev prefer_first : WeightedScorer Unit ℕ
prefer_first = record {
  score = λ s es. (elim es [ [] ↦ [] | e ∷ rest ↦ (e, 5) ∷ [] ], s);
  weight = 3;
}

prefer_first-IsScorer : IsScorer prefer_first
prefer_first-IsScorer s [] = (tt, λ e h. absurd (ground (arith, h)))
prefer_first-IsScorer s (x ∷ es) = ((refl, tt), λ e h. ground (arith, h))

abbrev profile : SchedulerProfile Unit ℕ
profile = record {
  filters = named ∷ [];
  scorers = prefer_first ∷ [];
  picker = pick_max_score ltb as_it_is insertion_sort 1;
}

picker-IsPicker : IsPicker profile.picker
picker-IsPicker =
    pick_max_score-IsPicker ltb as_it_is insertion_sort ltb-IsStrictWeak as_it_is-perm
      insertion_sort-IsSort 1

-- The score 5 counts as 1.
score_of-run_scorer_plugins_example :
    score_of (run_scorer_plugins numbers (prefer_first ∷ []) tt (7 ∷ 8 ∷ [])).0 7 ≡ (
      if has (7 ∷ 8 ∷ []) 7
      then some (total_score numbers (prefer_first ∷ []) tt (7 ∷ 8 ∷ []) 7 0)
      else none)
score_of-run_scorer_plugins_example =
    score_of-run_scorer_plugins numbers (prefer_first ∷ []) tt (7 ∷ 8 ∷ []) 7 refl
      (prefer_first-IsScorer, tt)

run-IsRun_example :
    (left : List ℕ) × Filtered profile.filters tt (0 ∷ 7 ∷ 8 ∷ []) left
    × IsRun (0 ∷ 7 ∷ 8 ∷ []) left (run numbers as_it_is profile tt (0 ∷ 7 ∷ 8 ∷ [])).0
run-IsRun_example =
    run-IsRun numbers as_it_is as_it_is-IsIteration profile tt (0 ∷ 7 ∷ 8 ∷ []) (named-IsFilter, tt)
      (prefer_first-IsScorer, tt) picker-IsPicker

abbrev profiles : Profiles Unit ℕ
profiles = (1, profile) ∷ []

profiles-AreLawful : AreLawful numbers as_it_is (0 ∷ 7 ∷ 8 ∷ []) profiles
profiles-AreLawful = (((named-IsFilter, tt), (prefer_first-IsScorer, tt), picker-IsPicker), tt)

schedule-IsScheduled_example :
    IsScheduled numbers as_it_is
      (0 ∷ 7 ∷ 8 ∷ [])
      profiles
      tt
      (schedule numbers as_it_is (0 ∷ 7 ∷ 8 ∷ []) single_profile_handler profiles 2 tt)
schedule-IsScheduled_example =
    schedule-IsScheduled numbers as_it_is (0 ∷ 7 ∷ 8 ∷ []) profiles 0 tt as_it_is-IsIteration
      (refl, tt) profiles-AreLawful

-- Decode and prefill, where each decode endpoint asks for a prefill one, and no encode profile.
abbrev prefilled : Handler
prefilled = record {
  decode_profile = 1;
  prefill_profile = 2;
  encode_profile = 3;
  pd_decider = some (λ e. true);
  encode_decider = none;
}

abbrev two_profiles : Profiles Unit ℕ
two_profiles = (1, profile) ∷ (2, profile) ∷ []

two_profiles-AreLawful : AreLawful numbers as_it_is (0 ∷ 7 ∷ 8 ∷ []) two_profiles
two_profiles-AreLawful = (
  ((named-IsFilter, tt), (prefer_first-IsScorer, tt), picker-IsPicker),
  (((named-IsFilter, tt), (prefer_first-IsScorer, tt), picker-IsPicker), tt),
)

schedule-IsDisaggregated_example :
    let o =
      schedule numbers as_it_is (0 ∷ 7 ∷ 8 ∷ []) (disagg_handler prefilled) two_profiles 4 tt in
    IsDisaggregated prefilled (0 ∷ 7 ∷ 8 ∷ []) o
    × IsCaused numbers as_it_is (0 ∷ 7 ∷ 8 ∷ []) prefilled two_profiles tt (some profile) o
schedule-IsDisaggregated_example =
    schedule-IsDisaggregated numbers as_it_is (0 ∷ 7 ∷ 8 ∷ []) prefilled two_profiles
      as_it_is-IsIteration two_profiles-AreLawful tt
