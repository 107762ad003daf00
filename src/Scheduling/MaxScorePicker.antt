-- ===== src/Scheduling/MaxScorePicker.antt =====
-- pkg/epp/framework/plugins/scheduling/picker/maxscore/picker.go: the endpoints with the highest scores. The
-- random shuffle and slices.SortStableFunc are parameters.
pub mod Highest
use llm_d_inference_schedule.Prelude.{
  ℕ, Bool, ltb, if◌then◌else◌, Option, some, List, [], ◌∷◌, length, take,
}
use llm_d_inference_schedule.Prelude.Int.{ℤ, pos, negsuc}
use llm_d_inference_schedule.Scheduling.Profile.{Scores, Picker, endpoints_of}

abbrev pub default_max_num_of_endpoints : ℕ
default_max_num_of_endpoints = 1

-- What a picker keeps of the configured number.
unfoldable pub new_max_score_picker : ℤ → ℕ
new_max_score_picker (pos n) = if ltb 0 n then n else default_max_num_of_endpoints
new_max_score_picker (negsuc n) = default_max_num_of_endpoints

-- The comparison of the sort, the highest score first.
unfoldable pub highest_first : {F : Type 0} → (F → F → Bool) → ℕ × F → ℕ × F → ℤ
highest_first lt i j = if lt j.1 i.1 then negsuc 0 else if lt i.1 j.1 then pos 1 else pos 0

-- slices.SortStableFunc, for a comparison.
abbrev pub SortFunc : Type 0 → Type 0
SortFunc F = (ℕ × F → ℕ × F → ℤ) → Scores F → Scores F

module _ {S F : Type 0} (lt : F → F → Bool) (shuffle : Scores F → Scores F) (sort : SortFunc F)
    (max_num_of_endpoints : ℕ) where
  unfoldable pub pick_max_score : Picker S F
  unfolding highest_first
  pick_max_score s scored =
      let ranked = sort (highest_first lt) (shuffle scored) in
      let top =
        if ltb max_num_of_endpoints (length ranked)
        then take max_num_of_endpoints ranked
        else ranked in
      (some (endpoints_of top), s)
