-- ===== src/Registry/FlowRegistry/Creation.antt =====
-- pkg/epp/flowcontrol/registry/registry.go: a new registry is sound.
use llm_d_inference_schedule.Prelude.{
  ℕ, if◌then◌else◌, true, Option, none, some, List, [], ◌∷◌, ◌≡◌, refl, ◌∙◌, sym, ap, arith, All,
  lookup, has_key, is_some, All-zip,
}
use llm_d_inference_schedule.Prelude.Int.{ℤ, eq_ℤ}
use llm_d_inference_schedule.Prelude.Outcome.{ok, Yields, Yields-then, Yields-weaken}
use llm_d_inference_schedule.Registry.Config.{
  PriorityBandConfig, Config, partition, partition_bands, partition_band,
}
use llm_d_inference_schedule.Registry.Config.Partition.{Own, Distinct, lookup-partition_bands}
use llm_d_inference_schedule.Registry.Config.Defaults.{Handle}
use llm_d_inference_schedule.Registry.Config.Api.{ApiConfig, new_config_from_api}
use llm_d_inference_schedule.Registry.Config.Validity.{IsValid}
use llm_d_inference_schedule.Registry.Config.Acceptance.{new_config_from_api-IsValid}
use llm_d_inference_schedule.Registry.Shard.{no_stats, new_shard}
use llm_d_inference_schedule.Registry.Shard.Levels.{has_level}
use llm_d_inference_schedule.Registry.Shard.Creation.{init_priority_bands-Initialized}
use llm_d_inference_schedule.Registry.FlowRegistry.{stats_of_bands, new_flow_registry}
use llm_d_inference_schedule.Registry.FlowRegistry.Topology.{repartition_lem}
use llm_d_inference_schedule.Registry.FlowRegistry.Leases.{IsSound, flows_of}

-- A configuration with a template; each band under its own priority, once; and with fairness policies.
pub record IsConfigured (c : Config) : Type 0 where
  pub template :
      (t : PriorityBandConfig) × (c.default_priority_band ≡ some t)
      × (is_some t.fairness_policy ≡ true)
  pub own : All Own c.priority_bands
  pub distinct : Distinct c.priority_bands

partition_bands-Own :
    (i n : ℕ) (bands : List (ℤ × PriorityBandConfig))
    → All Own bands
    → All Own (partition_bands i n bands)
unfolding partition_bands partition_band
partition_bands-Own i n [] own = tt
partition_bands-Own i n ((p, b) ∷ bands) ((same, fair), own) =
    ((refl, fair), partition_bands-Own i n bands own)

partition_bands-Distinct :
    (i n : ℕ) (bands : List (ℤ × PriorityBandConfig))
    → All Own bands
    → Distinct bands
    → Distinct (partition_bands i n bands)
unfolding partition_bands
partition_bands-Distinct i n [] own distinct = tt
partition_bands-Distinct i n ((p, b) ∷ bands) ((same, fair), own) (once, distinct) = (
  rw same (ground (arith, lookup-partition_bands i n bands p own, once)),
  partition_bands-Distinct i n bands own distinct,
)

lookup-stats_of_bands :
    (bands : List (ℤ × PriorityBandConfig)) (p : ℤ)
    → lookup eq_ℤ (stats_of_bands bands) p ≡ (if has_key eq_ℤ bands p then some no_stats else none)
unfolding stats_of_bands
lookup-stats_of_bands [] p = refl
lookup-stats_of_bands ((x, b) ∷ bands) p = ground (arith, lookup-stats_of_bands bands p)

-- A new registry has no session.
pub new_flow_registry-IsSound :
    (c : Config) → IsConfigured c → Yields (IsSound (λ _. 0)) (new_flow_registry c)
unfolding new_flow_registry new_shard partition
new_flow_registry-IsSound c ok_config =
    let bands = partition_bands 0 1 c.priority_bands in
    let own = ok_config.own in
    let has : (p : ℤ) → has_key eq_ℤ bands p ≡ has_key eq_ℤ c.priority_bands p =
      λ p. ground (arith, lookup-partition_bands 0 1 c.priority_bands p own) in
    Yields-then
      (init_priority_bands-Initialized bands _ (partition_bands-Own 0 1 c.priority_bands own)
        (partition_bands-Distinct 0 1 c.priority_bands own ok_config.distinct) (λ p there. refl)
        (tt, λ p. refl))
      (λ shard (views, (sorted, levelled), totals).
        Yields-weaken
          (repartition_lem
            (record {
              config = c;
              flow_states = [];
              priority_band_states = [];
              totals = no_stats;
              per_priority_band_stats = stats_of_bands c.priority_bands;
              shard = shard;
            })
            own (λ p there. ground (arith, (views p).0, has p, there)))
          (λ fr (same, configured, alike, levels, totals').
            let cfg : fr.config ≡ c = ap (λ x. x.config) same in
            record {
              topology = record {
                template = rw cfg ok_config.template;
                own = rw cfg own;
                on_shard = λ p. ground (
                  arith,
                  (alike p).0,
                  (views p).0,
                  has p,
                  ap (λ x. has_key eq_ℤ x.priority_bands p) cfg,
                );
                counted = λ p. ground (
                  arith,
                  (alike p).2,
                  (views p).1,
                  has p,
                  ap (λ x. lookup eq_ℤ x.per_priority_band_stats p) same,
                  lookup-stats_of_bands c.priority_bands p,
                );
                totalled = ap (λ x. x.totals) same ∙ sym (totals' ∙ totals);
                sorted = rw levels sorted;
                levelled = λ p. ap (λ l. has_level l p) levels ∙ levelled p ∙ sym (alike p).0;
              };
              leases = record {
                leased = rw (ap (λ x. x.flow_states) same) tt;
                stored = λ key leased. absurd (omega (arith, leased));
                queued = rw (ap (λ x. x.flow_states) same) tt;
                banded = rw (ap (λ x. x.priority_band_states) same) tt;
                pinned = λ p some_flow.
                    absurd (ground (arith, some_flow, ap (λ x. flows_of p x.flow_states) same));
              };
            }))

pub IsValid-IsConfigured : (c : Config) → IsValid c → IsConfigured c
IsValid-IsConfigured c valid = record {
  template = let (t, given, band) = valid.template in (t, given, band.fairness);
  own =
      All-zip c.priority_bands (λ x same band. (same, band.fairness)) valid.priorities valid.bands;
  distinct = valid.distinct;
}

-- From a configuration that NewConfigFromAPI returns, a registry is created without an error or a
-- panic, and is sound.
pub new_flow_registry-accepts :
    (handle : Handle) (api : Option ApiConfig) (c : Config)
    → new_config_from_api handle api ≡ ok c
    → Yields (IsSound (λ _. 0)) (new_flow_registry c)
new_flow_registry-accepts handle api c built =
    new_flow_registry-IsSound c
      (IsValid-IsConfigured c (new_config_from_api-IsValid handle api c built))
