-- ===== src/Registry/Shard/Creation.antt =====
-- pkg/epp/flowcontrol/registry/shard.go: a new shard has the configured bands and no flow.
use llm_d_inference_schedule.Prelude.{
  if◌then◌else◌, true, false, ◌||◌, some, List, [], ◌∷◌, ◌≡◌, refl, ◌∙◌, sym, ap, subst, arith, All,
  has_key,
}
use llm_d_inference_schedule.Prelude.Int.{ℤ, eq_ℤ, eq_ℤ_iff}
use llm_d_inference_schedule.Prelude.Outcome.{Yields, yields, Yields-then, Yields-weaken}
use llm_d_inference_schedule.Registry.Config.{PriorityBandConfig}
use llm_d_inference_schedule.Registry.Config.Partition.{Own, Distinct}
use llm_d_inference_schedule.Registry.Shard.{Shard, no_stats, init_priority_bands}
use llm_d_inference_schedule.Registry.Shard.Levels.{
  has_level, Descending, sort_levels-Descending, has-sort_levels_append,
}
use llm_d_inference_schedule.Registry.Shard.Bands.{
  has_band, stats_at, Joins, init_priority_band-Joins,
}

-- The levels are those of the bands, sorted.
abbrev pub IsLevelled : Shard → Type 0
IsLevelled s =
    Descending s.ordered_priority_levels
    × ((p : ℤ) → has_level s.ordered_priority_levels p ≡ has_band s.priority_bands p)

Joins-IsLevelled :
    (p : ℤ) (s s' : Shard)
    → has_band s.priority_bands p ≡ false
    → Joins p s s'
    → IsLevelled s
    → IsLevelled s'
Joins-IsLevelled p s s' fresh (views, levels, totals) (sorted, levelled) = (
  subst Descending (sym levels)
      (sort_levels-Descending s.ordered_priority_levels p sorted (levelled p ∙ fresh)),
  λ q. ground (
    arith,
    ap (λ l. has_level l q) levels,
    has-sort_levels_append s.ordered_priority_levels p q,
    (views q).0,
    levelled q,
  ),
)

-- The bands of the list are in the shard, at no stats.
abbrev pub Initialized : List (ℤ × PriorityBandConfig) → Shard → Shard → Type 0
Initialized bands s s' =
    ((q : ℤ)
      → (has_band s'.priority_bands q ≡ (has_key eq_ℤ bands q || has_band s.priority_bands q))
        × (stats_at s'.priority_bands q
            ≡ (if has_key eq_ℤ bands q then some no_stats else stats_at s.priority_bands q)))
    × IsLevelled s'
    × (s'.totals ≡ s.totals)

pub init_priority_bands-Initialized :
    (bands : List (ℤ × PriorityBandConfig)) (s : Shard)
    → All Own bands
    → Distinct bands
    → ((p : ℤ) → has_key eq_ℤ bands p ≡ true → has_band s.priority_bands p ≡ false)
    → IsLevelled s
    → Yields (Initialized bands s) (init_priority_bands s bands)
unfolding init_priority_bands
init_priority_bands-Initialized [] s own distinct fresh levelled =
    yields (λ q. (refl, refl), levelled, refl)
init_priority_bands-Initialized ((p, b) ∷ bands) s ((same, fair), own) (once, distinct) fresh
      levelled =
    let new : has_band s.priority_bands p ≡ false = fresh p (ground (arith, eq_ℤ_iff p p)) in
    Yields-then (init_priority_band-Joins s p b new same fair) (λ s₁ (views, levels, totals).
      Yields-weaken
        (init_priority_bands-Initialized bands s₁ own distinct
          (λ q there. ground (arith, (views q).0, fresh q, there, once, eq_ℤ_iff p q))
          (Joins-IsLevelled p s s₁ new (views, levels, totals) levelled))
        (λ s₂ (views', levelled', totals'). (
          λ q. (
            ground (arith, (views q).0, (views' q).0),
            ground (arith, (views q).2, (views' q).1),
          ),
          levelled',
          totals' ∙ totals,
        )))
