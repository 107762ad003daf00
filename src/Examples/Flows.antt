-- ===== src/Examples/Flows.antt =====
-- The round-robin policy on a band of two flows, and the ordering policies on concrete items.
use Prim.Native.String.{String}
use text.Mathlib.Text.{◌==◌ as str_eq}
use text.Mathlib.TextEquality.{eq_iff}
use llm_d_inference_schedule.Prelude.{
  ℕ, zero, suc, ◌*◌, ◌^◌, ◌<◌, ◌≤◌, ◌≡◌, refl, ltb, if◌then◌else◌, true, arith, Option, none, some,
  List, [], ◌∷◌,
}
use llm_d_inference_schedule.Prelude.Int.{ℤ, pos, ◌+ℤ◌, ltb_ℤ}
use llm_d_inference_schedule.Item.{Item}
use llm_d_inference_schedule.Flow.{FlowKey}
use llm_d_inference_schedule.Fairness.RoundRobin.{Band, cursor, picked, has_items, pick}
use llm_d_inference_schedule.Fairness.RoundRobin.Rotation.{
  IsDistinct, Found, IsServed, picks, pick-Found, rotation_serves,
}
use llm_d_inference_schedule.Ordering.ByTime.{edf_less, edf_rank, edf-rank}
use llm_d_inference_schedule.Ordering.SloDeadline.{
  SloItem, calculate_slo_deadline, slo_less, slo_less-IsStrictWeak, slo_deadline_cases,
}
use llm_d_inference_schedule.Ordering.StrictWeak.{IsStrictWeak}

abbrev flow : String → FlowKey
flow id = record { id = id; priority = pos 0 }

abbrev flows : List FlowKey
flows = flow "a" ∷ flow "b" ∷ []

-- Both flows have items.
abbrev band : Band
band = record { flow_keys = flows; queue = λ id. some 2 }

-- The keys of this band are in order as they come.
abbrev as_given : List FlowKey → List FlowKey
as_given keys = keys

flows-IsDistinct : IsDistinct flows
flows-IsDistinct zero zero k e e' = refl
flows-IsDistinct zero (suc zero) k e e' = absurd (ground (arith, eq_iff "a" "b"))
flows-IsDistinct zero (suc (suc b)) k e e' = absurd (ground arith)
flows-IsDistinct (suc zero) zero k e e' = absurd (ground (arith, eq_iff "a" "b"))
flows-IsDistinct (suc zero) (suc zero) k e e' = refl
flows-IsDistinct (suc zero) (suc (suc b)) k e e' = absurd (ground arith)
flows-IsDistinct (suc (suc a)) b k e e' = absurd (ground arith)

pick-Found_example :
    (o : Option FlowKey) × (pick as_given (some band) (cursor none) ≡ picked o (cursor o))
    × Found as_given band o
pick-Found_example = pick-Found as_given band none

rotation_serves_example :
    IsServed as_given flows flows-IsDistinct 1
      (flow "b")
      refl
      (picks as_given (band ∷ band ∷ []) none)
unfolding has_items
rotation_serves_example =
    rotation_serves as_given flows flows-IsDistinct 1 (flow "b") refl (band ∷ band ∷ []) none
      (refl, refl, (refl, refl, tt)) (omega arith)

abbrev timed : ℕ → ℕ → Item
timed now ttl = record { ref = 0; byte_size = 1; enqueue_time = now; effective_ttl = pos ttl }

edf-rank_example :
    edf_less (some (timed 5 10)) (some (timed 7 3))
    ≡ ltb (edf_rank (timed 5 10)) (edf_rank (timed 7 3))
edf-rank_example = edf-rank (timed 5 10) (timed 7 3) (omega arith) (omega arith)

-- A parser that knows one header.
abbrev ten_trillion : String → Option ℤ
ten_trillion s = if str_eq s "10000000000000" then some (pos 10000000000000) else none

abbrev slow : SloItem
slow = record {
  request = some (record { received = pos 1000; ttft_header = some "10000000000000" });
}

slo_less-IsStrictWeak_example : IsStrictWeak (slo_less ten_trillion)
slo_less-IsStrictWeak_example = slo_less-IsStrictWeak ten_trillion

slo_deadline_cases_example :
    (10000000000000 * 1000000 < 2 ^ 63
      → calculate_slo_deadline ten_trillion slow ≡ pos 1000 +ℤ pos (10000000000000 * 1000000))
    × (2 ^ 63 ≤ 10000000000000 * 1000000
        → 10000000000000 * 1000000 < 2 ^ 64
        → ltb_ℤ (calculate_slo_deadline ten_trillion slow) (pos 1000) ≡ true)
slo_deadline_cases_example =
    slo_deadline_cases ten_trillion slow
      (record { received = pos 1000; ttft_header = some "10000000000000" }) "10000000000000"
      10000000000000 refl refl refl refl
