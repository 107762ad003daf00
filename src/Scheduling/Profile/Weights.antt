-- ===== src/Scheduling/Profile/Weights.antt =====
-- pkg/epp/scheduling/scheduler_profile.go: the weighted score of an endpoint.
use llm_d_inference_schedule.Prelude.{
  ap, Bool-cases, ℕ, ◌≡◌, refl, ◌∙◌, inl, inr, ◌==◌, if◌then◌else◌, true, false, Option, none, some,
  List, [], ◌∷◌, has, Nodup, arith,
}
use llm_d_inference_schedule.Scheduling.Profile.{
  Floats, Scores, endpoints_of, WeightedScorer, enforce_score_range, reset_score, add_score,
  initial_scores, accumulate, run_scorers, run_scorer_plugins,
}

module _ {F : Type 0} where
  abbrev pub score_of : Scores F → ℕ → Option F
  score_of [] e = none
  score_of ((k, x) ∷ m) e = if k == e then some x else score_of m e

module _ {S F : Type 0} where
  -- Each scorer gives scores for endpoints that it was asked about, each at most once.
  abbrev pub IsScorer : WeightedScorer S F → Type 0
  IsScorer scorer =
      (s : S) (endpoints : List ℕ)
      → Nodup (endpoints_of (scorer.score s endpoints).0)
        × ((e : ℕ)
            → has (endpoints_of (scorer.score s endpoints).0) e ≡ true
            → has endpoints e ≡ true)

  abbrev pub AreScorers : List (WeightedScorer S F) → Type 0
  AreScorers [] = Unit
  AreScorers (scorer ∷ scorers) = IsScorer scorer × AreScorers scorers

module _ {F : Type 0} (floats : Floats F) where
  -- A score within the range from zero to one: not below zero, and then not above one.
  abbrev pub at_least_zero : F → F
  at_least_zero x = if floats.lt x floats.zero then floats.zero else x

  abbrev pub at_most_one : F → F
  at_most_one x = if floats.lt floats.one x then floats.one else x

  -- A total with a scorer's contribution, if it has one.
  abbrev pub with_score : F → Option F → F → F
  with_score weight none total = total
  with_score weight (some x) total =
      floats.add total (floats.mul (at_most_one (at_least_zero x)) weight)

  module _ {S : Type 0} where
    -- An endpoint's weighted scores, added up in the order of the scorers.
    abbrev pub total_score : List (WeightedScorer S F) → S → List ℕ → ℕ → F → F
    total_score [] s endpoints e total = total
    total_score (scorer ∷ scorers) s endpoints e total =
        let (scores, s') = scorer.score s endpoints in
        total_score scorers s' endpoints e (with_score scorer.weight (score_of scores e) total)

  abbrev pub or_zero : Option F → F
  or_zero none = floats.zero
  or_zero (some x) = x

  score_of-reset :
      (m : Scores F) (k e : ℕ)
      → score_of (reset_score floats m k) e ≡ (if k == e then some floats.zero else score_of m e)
  unfolding reset_score
  score_of-reset [] k e = refl
  score_of-reset ((x, y) ∷ m) k e = ground (arith, score_of-reset m k e)

  score_of-add :
      (m : Scores F) (k e : ℕ) (y : F)
      → score_of (add_score floats m k y) e
        ≡ (if k == e then some (floats.add (or_zero (score_of m e)) y) else score_of m e)
  unfolding add_score
  score_of-add [] k e y = refl
  score_of-add ((x, z) ∷ m) k e y = ground (arith, score_of-add m k e y)

  pub score_of-absent :
      (m : Scores F) (e : ℕ) → has (endpoints_of m) e ≡ false → score_of m e ≡ none
  score_of-absent [] e h = refl
  score_of-absent ((x, z) ∷ m) e h = ground (arith, h, score_of-absent m e)

  -- What a scorer's contribution makes of an entry.
  abbrev contributed : F → Option F → Option F → Option F
  contributed weight none entry = entry
  contributed weight (some x) entry =
      some (floats.add (or_zero entry) (floats.mul (enforce_score_range floats x) weight))

  enforce_score_range_lem :
      (x : F)
      → floats.lt floats.one floats.zero ≡ false
      → enforce_score_range floats x ≡ at_most_one (at_least_zero x)
  unfolding enforce_score_range
  enforce_score_range_lem x ordered = ground (arith, ordered)

  contributed-some :
      floats.lt floats.one floats.zero ≡ false
      → (weight : F) (score : Option F) (total : F)
      → contributed weight score (some total) ≡ some (with_score weight score total)
  contributed-some ordered weight none total = refl
  contributed-some ordered weight (some x) total =
      ap (λ y. some (floats.add total (floats.mul y weight))) (enforce_score_range_lem x ordered)

  score_of-accumulate :
      (weight : F) (scores m : Scores F) (e : ℕ)
      → Nodup (endpoints_of scores)
      → score_of (accumulate floats weight scores m) e
        ≡ contributed weight (score_of scores e) (score_of m e)
  unfolding accumulate
  score_of-accumulate weight [] m e distinct = refl
  score_of-accumulate weight ((k, x) ∷ scores) m e (fresh, distinct) =
      let y = floats.mul (enforce_score_range floats x) weight in
      let step = score_of-accumulate weight scores (add_score floats m k y) e distinct in
      let entry = score_of-add m k e y in
      elim (Bool-cases (k == e)) [
        | inl here ↦
            let same : k ≡ e = ground (arith, here) in
            let gone = score_of-absent scores e (rw same at fresh) in
            step ∙ ground (arith, gone, here, entry)
        | inr later ↦ step ∙ ground (arith, later, entry)
      ]

  score_of-initial :
      (es : List ℕ) (m : Scores F) (e : ℕ)
      → score_of (initial_scores floats es m) e
        ≡ (if has es e then some floats.zero else score_of m e)
  unfolding initial_scores
  score_of-initial [] m e = refl
  score_of-initial (x ∷ es) m e =
      ground (arith, score_of-initial es (reset_score floats m x) e, score_of-reset m x e)

  module _ {S : Type 0} where
    score_of-run_present :
        (scorers : List (WeightedScorer S F)) (s : S) (endpoints : List ℕ) (m : Scores F) (e : ℕ)
        (total : F)
        → floats.lt floats.one floats.zero ≡ false
        → AreScorers scorers
        → score_of m e ≡ some total
        → score_of (run_scorers floats scorers s endpoints m).0 e
          ≡ some (total_score scorers s endpoints e total)
    unfolding run_scorers
    score_of-run_present [] s endpoints m e total ordered laws entry = entry
    score_of-run_present (scorer ∷ scorers) s endpoints m e total ordered (law, laws) entry =
        let scores = (scorer.score s endpoints).0 in
        let step = score_of-accumulate scorer.weight scores m e (law s endpoints).0 in
        score_of-run_present scorers _ endpoints (accumulate floats scorer.weight scores m) e _
          ordered laws
          (step ∙ rw entry (contributed-some ordered scorer.weight (score_of scores e) total))

    score_of-run_absent :
        (scorers : List (WeightedScorer S F)) (s : S) (endpoints : List ℕ) (m : Scores F) (e : ℕ)
        → AreScorers scorers
        → has endpoints e ≡ false
        → score_of m e ≡ none
        → score_of (run_scorers floats scorers s endpoints m).0 e ≡ none
    unfolding run_scorers
    score_of-run_absent [] s endpoints m e laws out entry = entry
    score_of-run_absent (scorer ∷ scorers) s endpoints m e (law, laws) out entry =
        let scores = (scorer.score s endpoints).0 in
        let step = score_of-accumulate scorer.weight scores m e (law s endpoints).0 in
        let unscored : has (endpoints_of scores) e ≡ false =
          elim (Bool-cases (has (endpoints_of scores) e)) [
            | inl there ↦ absurd (ground (arith, (law s endpoints).1 e there, out))
            | inr gone ↦ gone
          ] in
        let gone = score_of-absent scores e unscored in
        score_of-run_absent scorers _ endpoints (accumulate floats scorer.weight scores m) e laws
          out (step ∙ rw (gone, entry) refl)

    -- An endpoint that the scorers were not asked about has no score.
    pub score_of-run_scorer_absent :
        (scorers : List (WeightedScorer S F)) (s : S) (endpoints : List ℕ) (e : ℕ)
        → AreScorers scorers
        → has endpoints e ≡ false
        → score_of (run_scorer_plugins floats scorers s endpoints).0 e ≡ none
    unfolding run_scorer_plugins
    score_of-run_scorer_absent scorers s endpoints e laws out =
        let entry : score_of (initial_scores floats endpoints []) e ≡ none =
          score_of-initial endpoints [] e ∙ rw out refl in
        score_of-run_absent scorers s endpoints _ e laws out entry

    -- If one is not below zero and each scorer gives at most one score for an endpoint, and only for those that it was asked about, the
    -- weighted score of an endpoint is the sum from 0 of its scores, each raised to zero if below it, lowered to one if above it, and times its
    -- scorer's weight, in the order of the scorers; and no other endpoint has one.
    pub score_of-run_scorer_plugins :
        (scorers : List (WeightedScorer S F)) (s : S) (endpoints : List ℕ) (e : ℕ)
        → floats.lt floats.one floats.zero ≡ false
        → AreScorers scorers
        → score_of (run_scorer_plugins floats scorers s endpoints).0 e
          ≡ (if has endpoints e then some (total_score scorers s endpoints e floats.zero) else none)
    unfolding run_scorer_plugins
    score_of-run_scorer_plugins scorers s endpoints e ordered laws =
        let initial = score_of-initial endpoints [] e in
        elim (Bool-cases (has endpoints e)) [
          | inl there ↦
              let entry : score_of (initial_scores floats endpoints []) e ≡ some floats.zero =
                initial ∙ rw there refl in
              score_of-run_present scorers s endpoints _ e floats.zero ordered laws entry
              ∙ rw there refl
          | inr out ↦ score_of-run_scorer_absent scorers s endpoints e laws out ∙ rw out refl
        ]
