-- ===== src/Controller/Processor/Capacity.antt =====
-- pkg/epp/flowcontrol/controller/internal/processor.go: hasCapacity against the limits it stands for.
use llm_d_inference_schedule.Prelude.{
  Option-cases, inl, inr, ℕ, ◌+◌, ◌^◌, ◌≤◌, ◌<◌, ◌≡◌, ◌↔◌, ◌⊎◌, true, false, some, arith,
}
use llm_d_inference_schedule.Prelude.Int.{ℤ}
use llm_d_inference_schedule.Controller.Shard.{ShardStats, PriorityBandStats}
use llm_d_inference_schedule.Controller.Processor.{is_exceeded, has_capacity}

-- A capacity of zero is no limit.
pub Fits : ℕ → ℕ → Type 0
Fits capacity size = (capacity ≡ 0) ⊎ (size ≤ capacity)

pub IsWithinLimits : ShardStats → PriorityBandStats → ℕ → Type 0
IsWithinLimits stats band size =
    Fits stats.total_capacity_bytes (stats.total_byte_size + size)
    × Fits stats.total_capacity_requests (stats.total_len + 1)
    × Fits band.capacity_bytes (band.byte_size + size)
    × Fits band.capacity_requests (band.len + 1)

-- The band is there, and neither it nor the shard would exceed a limit.
pub Admits : ShardStats → ℤ → ℕ → Type 0
Admits stats priority size =
    (band : PriorityBandStats) × (stats.per_priority_band_stats priority ≡ some band)
    × IsWithinLimits stats band size

-- No sum reaches 2^64.
abbrev pub HasNoOverflow : ShardStats → ℤ → ℕ → Type 0
HasNoOverflow stats priority size =
    (stats.total_byte_size + size < 2 ^ 64)
    × (stats.total_len + 1 < 2 ^ 64)
    × ((band : PriorityBandStats)
        → stats.per_priority_band_stats priority ≡ some band
        → (band.byte_size + size < 2 ^ 64) × (band.len + 1 < 2 ^ 64))

Fits-iff :
    (capacity size more : ℕ)
    → size + more < 2 ^ 64
    → (is_exceeded capacity size more ≡ false) ↔ Fits capacity (size + more)
unfolding is_exceeded Fits
Fits-iff capacity size more h = ground arith

within_limits :
    (stats : ShardStats) (priority : ℤ) (band : PriorityBandStats) (size : ℕ)
    → stats.per_priority_band_stats priority ≡ some band
    → HasNoOverflow stats priority size
    → (has_capacity stats priority size ≡ true) ↔ IsWithinLimits stats band size
unfolding has_capacity IsWithinLimits
within_limits stats priority band size e (total_bytes, total_len, of_band) =
    let (bytes, len) = of_band band e in
    ground (
      arith,
      e,
      Fits-iff stats.total_capacity_bytes stats.total_byte_size size total_bytes,
      Fits-iff stats.total_capacity_requests stats.total_len 1 total_len,
      Fits-iff band.capacity_bytes band.byte_size size bytes,
      Fits-iff band.capacity_requests band.len 1 len,
    )

-- While no sum reaches 2^64, an item is admitted exactly if its band exists and neither the shard nor
-- the band would exceed a limit on bytes or requests that it has.
pub has_capacity_iff :
    (stats : ShardStats) (priority : ℤ) (size : ℕ)
    → HasNoOverflow stats priority size
    → (has_capacity stats priority size ≡ true) ↔ Admits stats priority size
unfolding has_capacity Admits
has_capacity_iff stats priority size fits =
    elim (Option-cases (stats.per_priority_band_stats priority)) [
      | inl missing ↦ (
        (λ admitted. absurd (ground (arith, missing, admitted))),
        λ (band, there, within). absurd (ground (arith, missing, there)),
      )
      | inr (band, there) ↦
          let within = within_limits stats priority band size there fits in
          (
            (λ admitted. (band, there, within.0 admitted)),
            λ (band', there', within').
                let same : band' ≡ band = ground (arith, there, there') in
                within.1 (rw same at within'),
          )
    ]
