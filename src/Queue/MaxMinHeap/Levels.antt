-- ===== src/Queue/MaxMinHeap/Levels.antt =====
-- pkg/epp/flowcontrol/framework/plugins/queue/maxminheap.go: levels alternate between a node and its
-- parent.
use llm_d_inference_schedule.Prelude.{ℕ, zero, suc, ◌+◌, ◌/◌, ◌≤◌, ◌<◌, ◌≡◌, refl, not, arith, Bool}
use llm_d_inference_schedule.Queue.MaxMinHeap.{is_min_level, log2, parent}

log2_fuel : (f g n : ℕ) → n ≤ f → n ≤ g → log2 f n ≡ log2 g n
unfolding log2
log2_fuel zero zero n hf hg = refl
log2_fuel zero (suc g) n hf hg = ground arith
log2_fuel (suc f) zero n hf hg = ground arith
log2_fuel (suc f) (suc g) n hf hg = ground (arith, log2_fuel f g (n / 2))

log2_step : (n : ℕ) → 2 ≤ n → log2 n n ≡ suc (log2 (n / 2) (n / 2))
unfolding log2
log2_step zero h = absurd (omega arith)
log2_step (suc n) h = ground (arith, log2_fuel n (suc n / 2) (suc n / 2))

pub root_level : is_min_level 0 ≡ Bool.false
unfolding is_min_level
root_level = refl

pub level_alternates : (i : ℕ) → 0 < i → is_min_level i ≡ not (is_min_level (parent i))
unfolding is_min_level
level_alternates i h =
    let same : parent i + 1 ≡ (i + 1) / 2 = omega arith in
    rw (same, log2_step (i + 1) (omega arith)) (ground arith)
