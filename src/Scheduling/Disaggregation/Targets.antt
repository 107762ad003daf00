-- ===== src/Scheduling/Disaggregation/Targets.antt =====
-- pkg/epp/framework/plugins/scheduling/profilehandler/disagg/disagg_profile_handler.go: the targets of results, and the
-- stages that have none yet.
use llm_d_inference_schedule.Prelude.{
  Bool-cases, ℕ, ◌+◌, ◌<◌, ◌≤◌, ◌≡◌, refl, inl, inr, ◌==◌, if◌then◌else◌, true, false, Option, none,
  some, List, [], ◌∷◌, has, arith,
}
use llm_d_inference_schedule.Scheduling.Scheduler.{Results, set_result}
use llm_d_inference_schedule.Scheduling.Scheduler.Single.{result_names, has-set_result}
use llm_d_inference_schedule.Scheduling.Disaggregation.{
  Handler, result_for, targets_of, copy_result,
}

-- Every endpoint of the list is a candidate.
abbrev pub AreCandidates : List ℕ → List ℕ → Type 0
AreCandidates candidates [] = Unit
AreCandidates candidates (e ∷ es) = (has candidates e ≡ true) × AreCandidates candidates es

abbrev pub IsResult : List ℕ → Option (List ℕ) → Type 0
IsResult candidates none = Unit
IsResult candidates (some targets) = AreCandidates candidates targets

-- The targets of every result are candidates.
abbrev pub AllTargets : List ℕ → Results → Type 0
AllTargets candidates [] = Unit
AllTargets candidates ((name, r) ∷ results) = IsResult candidates r × AllTargets candidates results

module _ (candidates : List ℕ) where
  pub set_result-AllTargets :
      (rs : Results) (name : ℕ) (r : Option (List ℕ))
      → IsResult candidates r
      → AllTargets candidates rs
      → AllTargets candidates (set_result rs name r)
  unfolding set_result
  set_result-AllTargets [] name r h all = (h, tt)
  set_result-AllTargets ((k, x) ∷ rs) name r h (here, all) = elim (Bool-cases (k == name)) [
    | inl same ↦ rw (set_result, same) (h, all)
    | inr other ↦ rw (set_result, other) (here, set_result-AllTargets rs name r h all)
  ]

  pub result_for-AllTargets :
      (rs : Results) (name : ℕ)
      → AllTargets candidates rs
      → AreCandidates candidates (targets_of (result_for rs name))
  unfolding result_for
  result_for-AllTargets [] name all = tt
  result_for-AllTargets ((k, none) ∷ rs) name (here, all) = elim (Bool-cases (k == name)) [
    | inl same ↦ rw (result_for, same) tt
    | inr other ↦ rw (result_for, other) (result_for-AllTargets rs name all)
  ]
  result_for-AllTargets ((k, some ts) ∷ rs) name (here, all) = elim (Bool-cases (k == name)) [
    | inl same ↦ rw (result_for, same) here
    | inr other ↦ rw (result_for, other) (result_for-AllTargets rs name all)
  ]

  pub copy_result-AllTargets :
      (r : Option (Option (List ℕ))) (name : ℕ) (updated : Results)
      → AreCandidates candidates (targets_of r)
      → AllTargets candidates updated
      → AllTargets candidates (copy_result r name updated)
  copy_result-AllTargets none name updated h all = all
  copy_result-AllTargets (some none) name updated h all = all
  copy_result-AllTargets (some (some ts)) name updated h all =
      set_result-AllTargets updated name (some ts) h all

  pub in_candidates :
      (es : List ℕ)
      → ((e : ℕ) → has es e ≡ true → has candidates e ≡ true)
      → AreCandidates candidates es
  in_candidates [] h = tt
  in_candidates (e ∷ es) h =
      (h e (ground arith), in_candidates es (λ e' there. h e' (ground (arith, there))))

pub result_for-none :
    (rs : Results) (name : ℕ) → result_for rs name ≡ none → has (result_names rs) name ≡ false
unfolding result_for
result_for-none [] name h = refl
result_for-none ((k, r) ∷ rs) name h = ground (arith, h, result_for-none rs name)

-- The stages that have no result yet.
abbrev pub waiting : Results → ℕ → ℕ
waiting rs name = if has (result_names rs) name then 0 else 1

abbrev pub remaining : Handler → Results → ℕ
remaining h rs =
    waiting rs h.decode_profile + (waiting rs h.encode_profile + waiting rs h.prefill_profile)

pub waiting-set_result :
    (rs : Results) (name : ℕ) (r : Option (List ℕ)) (v : ℕ)
    → waiting (set_result rs name r) v ≤ waiting rs v
waiting-set_result rs name r v = ground (arith, has-set_result rs name r v)

pub waiting-set_result_same :
    (rs : Results) (name : ℕ) (r : Option (List ℕ))
    → has (result_names rs) name ≡ false
    → waiting (set_result rs name r) name < waiting rs name
waiting-set_result_same rs name r h = ground (arith, h, has-set_result rs name r name)

pub remaining-set_result :
    (h : Handler) (rs : Results) (name : ℕ) (r : Option (List ℕ))
    → remaining h (set_result rs name r) ≤ remaining h rs
remaining-set_result h rs name r = omega (
  arith,
  waiting-set_result rs name r h.decode_profile,
  waiting-set_result rs name r h.encode_profile,
  waiting-set_result rs name r h.prefill_profile,
)
