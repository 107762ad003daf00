-- ===== src/Registry/Shard/Bands.antt =====
-- pkg/epp/flowcontrol/registry/shard.go: what an operation leaves of the bands, seen at one priority.
use text.Mathlib.Text.{◌==◌ as str_eq}
use Prim.Native.String.{String}
use llm_d_inference_schedule.Prelude.{
  if◌then◌else◌, Bool, true, false, ◌||◌, Option, none, some, List, [], ◌∷◌, ◌++◌, ◌≡◌, refl, arith,
  All, inl, inr, Option-cases, lookup, has_key, put, lookup-put, is_some, All-keys,
}
use llm_d_inference_schedule.Prelude.Int.{ℤ, eq_ℤ, eq_ℤ_iff}
use llm_d_inference_schedule.Prelude.Outcome.{Yields, yields, Yields-then}
use llm_d_inference_schedule.Flow.{FlowKey}
use llm_d_inference_schedule.Registry.Config.{PriorityBandConfig, ShardConfig}
use llm_d_inference_schedule.Registry.ManagedQueue.{Counters}
use llm_d_inference_schedule.Registry.Shard.{
  FlowQueue, PriorityBand, Shard, no_stats, init_priority_band, add_priority_band, sort_levels,
  update_bands, update_config,
}

abbrev pub has_band : List (ℤ × PriorityBand) → ℤ → Bool
has_band bands p = has_key eq_ℤ bands p

abbrev pub stats_at : List (ℤ × PriorityBand) → ℤ → Option Counters
stats_at bands p = elim (lookup eq_ℤ bands p) [ none ↦ none | some band ↦ some band.stats ]

abbrev pub queues_at : List (ℤ × PriorityBand) → ℤ → List (String × FlowQueue)
queues_at bands p = elim (lookup eq_ℤ bands p) [ none ↦ [] | some band ↦ band.queues ]

-- The flow has a queue.
abbrev pub has_queue : List (ℤ × PriorityBand) → FlowKey → Bool
has_queue bands key = has_key str_eq (queues_at bands key.priority) key.id

-- The two lists of bands have the same bands, queues and stats, at one priority.
abbrev pub Alike : List (ℤ × PriorityBand) → List (ℤ × PriorityBand) → ℤ → Type 0
Alike bands bands' p =
    (has_band bands' p ≡ has_band bands p)
    × (queues_at bands' p ≡ queues_at bands p)
    × (stats_at bands' p ≡ stats_at bands p)

update_bands-Alike :
    (c : ShardConfig) (bands : List (ℤ × PriorityBand))
    → All (λ x. has_key eq_ℤ c.priority_bands x.0 ≡ true) bands
    → Yields (λ bands'. (p : ℤ) → Alike bands bands' p) (update_bands c bands)
unfolding update_bands
update_bands-Alike c [] h = yields (λ p. (refl, refl, refl))
update_bands-Alike c ((x, band) ∷ bands) (found, rest) =
    elim (Option-cases (lookup eq_ℤ c.priority_bands x)) [
      | inl missing ↦ absurd (ground arith)
      | inr (band_config, here) ↦ rw here (
          Yields-then (update_bands-Alike c bands rest) (λ bands' same. yields (λ p.
            (ground (arith, (same p).0), ground (arith, (same p).1), ground (arith, (same p).2)))))
    ]

-- A new configuration of all the shard's bands changes nothing else.
pub update_config_lem :
    (s : Shard) (c : ShardConfig)
    → ((p : ℤ) → has_band s.priority_bands p ≡ true → has_key eq_ℤ c.priority_bands p ≡ true)
    → Yields
        (λ s'.
          (s'.config ≡ c)
          × ((p : ℤ) → Alike s.priority_bands s'.priority_bands p)
          × (s'.ordered_priority_levels ≡ s.ordered_priority_levels)
          × (s'.totals ≡ s.totals))
        (update_config s c)
unfolding update_config
update_config_lem s c covered =
    Yields-then
      (update_bands-Alike c s.priority_bands (All-keys eq_ℤ eq_ℤ_iff _ s.priority_bands covered))
      (λ bands' same. yields (refl, same, refl, refl))

module _ (bands : List (ℤ × PriorityBand)) (p : ℤ) (band : PriorityBand) where
  pub has-put : (q : ℤ) → has_band (put eq_ℤ bands p band) q ≡ (eq_ℤ p q || has_band bands q)
  has-put q = ground (arith, lookup-put eq_ℤ eq_ℤ_iff bands p band q)

  pub queues-put :
      (q : ℤ)
      → queues_at (put eq_ℤ bands p band) q ≡ (if eq_ℤ p q then band.queues else queues_at bands q)
  queues-put q = ground (arith, lookup-put eq_ℤ eq_ℤ_iff bands p band q)

  pub stats-put :
      (q : ℤ)
      → stats_at (put eq_ℤ bands p band) q
        ≡ (if eq_ℤ p q then some band.stats else stats_at bands q)
  stats-put q = ground (arith, lookup-put eq_ℤ eq_ℤ_iff bands p band q)

  -- A band with no queue joins at a priority that has none.
  joined :
      has_band bands p ≡ false
      → band.queues ≡ []
      → band.stats ≡ no_stats
      → (q : ℤ)
      → (has_band (put eq_ℤ bands p band) q ≡ (eq_ℤ p q || has_band bands q))
        × (queues_at (put eq_ℤ bands p band) q ≡ queues_at bands q)
        × (stats_at (put eq_ℤ bands p band) q
            ≡ (if eq_ℤ p q then some no_stats else stats_at bands q))
  joined fresh empty zero q = (
    has-put q,
    ground (arith, queues-put q, fresh, empty, eq_ℤ_iff p q),
    ground (arith, stats-put q, zero),
  )

  -- A band is replaced by one with its stats.
  pub replaced :
      (old : PriorityBand)
      → lookup eq_ℤ bands p ≡ some old
      → band.stats ≡ old.stats
      → (q : ℤ)
      → (has_band (put eq_ℤ bands p band) q ≡ has_band bands q)
        × (stats_at (put eq_ℤ bands p band) q ≡ stats_at bands q)
  replaced old found same q = (
    ground (arith, found, has-put q, eq_ℤ_iff p q),
    ground (arith, found, stats-put q, same, eq_ℤ_iff p q),
  )

-- A band with no queue has joined the shard at a priority.
abbrev pub Joins : ℤ → Shard → Shard → Type 0
Joins p s s' =
    ((q : ℤ)
      → (has_band s'.priority_bands q ≡ (eq_ℤ p q || has_band s.priority_bands q))
        × (queues_at s'.priority_bands q ≡ queues_at s.priority_bands q)
        × (stats_at s'.priority_bands q
            ≡ (if eq_ℤ p q then some no_stats else stats_at s.priority_bands q)))
    × (s'.ordered_priority_levels ≡ sort_levels (s.ordered_priority_levels ++ p ∷ []))
    × (s'.totals ≡ s.totals)

pub init_priority_band-Joins :
    (s : Shard) (p : ℤ) (b : PriorityBandConfig)
    → has_band s.priority_bands p ≡ false
    → b.priority ≡ p
    → is_some b.fairness_policy ≡ true
    → Yields (Joins p s) (init_priority_band s b)
unfolding init_priority_band
init_priority_band-Joins s p b fresh own fair = elim (Option-cases b.fairness_policy) [
  | inl missing ↦ absurd (ground arith)
  | inr (policy, there) ↦
      rw (there, own) (yields (joined s.priority_bands p _ fresh refl refl, refl, refl))
]

-- A configured band joins a shard that lacks it.
pub add_priority_band-Joins :
    (s : Shard) (p : ℤ) (b : PriorityBandConfig)
    → has_band s.priority_bands p ≡ false
    → lookup eq_ℤ s.config.priority_bands p ≡ some b
    → b.priority ≡ p
    → is_some b.fairness_policy ≡ true
    → Yields (Joins p s) (add_priority_band s p)
unfolding add_priority_band
add_priority_band-Joins s p b fresh found own fair =
    rw (fresh, found) (init_priority_band-Joins s p b fresh own fair)
