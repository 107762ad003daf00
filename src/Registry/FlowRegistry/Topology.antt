-- ===== src/Registry/FlowRegistry/Topology.antt =====
-- pkg/epp/flowcontrol/registry/registry.go: the registry's bands, their stats and the shard's bands
-- stay the same bands, whatever is provisioned, reported or collected.
use text.Mathlib.Text.{◌==◌ as str_eq}
use llm_d_inference_schedule.Prelude.{
  if◌then◌else◌, true, false, ◌||◌, some, List, [], ◌∷◌, ◌++◌, ◌≡◌, refl, ◌∙◌, sym, ap, subst,
  arith, All, inl, inr, Bool-cases, lookup, has_key, put, lookup-put, is_some, All-put,
}
use llm_d_inference_schedule.Prelude.Int.{ℤ, eq_ℤ, eq_ℤ_iff}
use llm_d_inference_schedule.Prelude.Outcome.{Yields, yields, Yields-then}
use llm_d_inference_schedule.Flow.{FlowKey}
use llm_d_inference_schedule.Registry.Config.{
  PriorityBandConfig, Config, partition, partition_bands, partition_band,
}
use llm_d_inference_schedule.Registry.Config.Partition.{Own, lookup-partition_bands}
use llm_d_inference_schedule.Registry.Leasing.{fresh_lease}
use llm_d_inference_schedule.Registry.Shard.{no_stats, sort_levels}
use llm_d_inference_schedule.Registry.Shard.Levels.{
  has_level, Descending, sort_levels-Descending, has-sort_levels_append,
}
use llm_d_inference_schedule.Registry.Shard.Bands.{
  has_band, stats_at, has_queue, Alike, update_config_lem, add_priority_band-Joins,
}
use llm_d_inference_schedule.Registry.FlowRegistry.{
  FlowRegistry, repartition, provision_band, ensure_priority_band, load_or_store,
}

pub record IsTopology (fr : FlowRegistry) : Type 0 where
  pub template :
      (t : PriorityBandConfig) × (fr.config.default_priority_band ≡ some t)
      × (is_some t.fairness_policy ≡ true)
  pub own : All Own fr.config.priority_bands
  pub on_shard :
      (p : ℤ) → has_band fr.shard.priority_bands p ≡ has_key eq_ℤ fr.config.priority_bands p
  pub counted :
      (p : ℤ) → lookup eq_ℤ fr.per_priority_band_stats p ≡ stats_at fr.shard.priority_bands p
  pub totalled : fr.totals ≡ fr.shard.totals
  pub sorted : Descending fr.shard.ordered_priority_levels
  pub levelled :
      (p : ℤ) → has_level fr.shard.ordered_priority_levels p ≡ has_band fr.shard.priority_bands p

-- What changes only the flows' queues keeps the topology.
pub same-IsTopology :
    (fr fr' : FlowRegistry)
    → fr'.config ≡ fr.config
    → fr'.per_priority_band_stats ≡ fr.per_priority_band_stats
    → fr'.totals ≡ fr.totals
    → fr'.shard.totals ≡ fr.shard.totals
    → fr'.shard.ordered_priority_levels ≡ fr.shard.ordered_priority_levels
    → ((p : ℤ)
        → (has_band fr'.shard.priority_bands p ≡ has_band fr.shard.priority_bands p)
          × (stats_at fr'.shard.priority_bands p ≡ stats_at fr.shard.priority_bands p))
    → IsTopology fr
    → IsTopology fr'
same-IsTopology fr fr' config stats totals shard_totals levels bands t = record {
  template = rw config t.template;
  own = rw config t.own;
  on_shard =
      λ p. (bands p).0 ∙ t.on_shard p ∙ ap (λ c. has_key eq_ℤ c.priority_bands p) (sym config);
  counted = λ p. ap (λ m. lookup eq_ℤ m p) stats ∙ t.counted p ∙ sym (bands p).1;
  totalled = totals ∙ t.totalled ∙ sym shard_totals;
  sorted = rw levels t.sorted;
  levelled = λ p. ap (λ l. has_level l p) levels ∙ t.levelled p ∙ sym (bands p).0;
}

-- What the steps of ensurePriorityBand and of the clients share: the bands that are added, and that
-- no flow loses its queue.
abbrev pub Provisions : FlowRegistry → ℤ → FlowRegistry → Type 0
Provisions fr p fr' =
    IsTopology fr'
    × (has_band fr'.shard.priority_bands p ≡ true)
    × ((j : FlowKey) → has_queue fr'.shard.priority_bands j ≡ has_queue fr.shard.priority_bands j)
    × (fr'.flow_states ≡ fr.flow_states)
    × (fr'.priority_band_states ≡ fr.priority_band_states)
    × ((q : ℤ)
        → has_key eq_ℤ fr'.config.priority_bands q
          ≡ (has_key eq_ℤ fr.config.priority_bands q || eq_ℤ p q))

-- The partition has a band wherever the configuration has one.
partition-has :
    (c : Config) (p : ℤ)
    → All Own c.priority_bands
    → has_key eq_ℤ (partition c 0 1).priority_bands p ≡ has_key eq_ℤ c.priority_bands p
unfolding partition
partition-has c p own = ground (arith, lookup-partition_bands 0 1 c.priority_bands p own)

-- The shard takes the partition of a configuration that covers its bands.
pub repartition_lem :
    (fr : FlowRegistry)
    → All Own fr.config.priority_bands
    → ((p : ℤ)
        → has_band fr.shard.priority_bands p ≡ true
        → has_key eq_ℤ fr.config.priority_bands p ≡ true)
    → Yields
        (λ fr'.
          (fr' ≡ record fr { shard = fr'.shard })
          × (fr'.shard.config ≡ partition fr.config 0 1)
          × ((p : ℤ) → Alike fr.shard.priority_bands fr'.shard.priority_bands p)
          × (fr'.shard.ordered_priority_levels ≡ fr.shard.ordered_priority_levels)
          × (fr'.shard.totals ≡ fr.shard.totals))
        (repartition fr)
unfolding repartition
repartition_lem fr own covered =
    Yields-then
      (update_config_lem fr.shard (partition fr.config 0 1)
        (λ p there. partition-has fr.config p own ∙ covered p there))
      (λ s (configured, alike, levels, totals). yields (refl, configured, alike, levels, totals))

module _ (fr : FlowRegistry) (p : ℤ) (t : IsTopology fr) where
  -- A priority without a band gets one from the template.
  provision :
      (template : PriorityBandConfig)
      → is_some template.fairness_policy ≡ true
      → has_key eq_ℤ fr.config.priority_bands p ≡ false
      → has_key eq_ℤ fr.priority_band_states p ≡ true
      → Yields (Provisions fr p) (provision_band fr p (some template))
  unfolding provision_band load_or_store partition partition_band
  provision template fair new pinned =
      let band : PriorityBandConfig = record template { priority = p } in
      let bands : List (ℤ × PriorityBandConfig) = put eq_ℤ fr.config.priority_bands p band in
      let own : All Own bands =
        All-put eq_ℤ Own fr.config.priority_bands p band (refl, fair) t.own in
      let grown : (q : ℤ)
          → has_key eq_ℤ bands q ≡ (has_key eq_ℤ fr.config.priority_bands q || eq_ℤ p q) =
        λ q. ground (arith, lookup-put eq_ℤ eq_ℤ_iff fr.config.priority_bands p band q) in
      let (template₀, given, fair₀) = t.template in
      let config : Config = record fr.config { priority_bands = bands } in
      let asked : FlowRegistry = record fr {
        config = config;
        per_priority_band_stats = load_or_store eq_ℤ fr.per_priority_band_stats p no_stats;
        priority_band_states = load_or_store eq_ℤ fr.priority_band_states p fresh_lease;
      } in
      let stored : load_or_store eq_ℤ fr.priority_band_states p fresh_lease
          ≡ fr.priority_band_states =
        rw pinned refl in
      let stats : (q : ℤ)
          → lookup eq_ℤ (load_or_store eq_ℤ fr.per_priority_band_stats p no_stats) q
            ≡ (if eq_ℤ p q then some no_stats else lookup eq_ℤ fr.per_priority_band_stats q) =
        λ q. ground (
          arith,
          t.on_shard p,
          t.counted p,
          new,
          lookup-put eq_ℤ eq_ℤ_iff fr.per_priority_band_stats p no_stats q,
        ) in
      let found : lookup eq_ℤ (partition_bands 0 1 bands) p ≡ some (partition_band 0 1 band) =
        ground (
          arith,
          lookup-partition_bands 0 1 bands p own,
          lookup-put eq_ℤ eq_ℤ_iff fr.config.priority_bands p band p,
          eq_ℤ_iff p p,
        ) in
      let fresh : has_level fr.shard.ordered_priority_levels p ≡ false =
        t.levelled p ∙ t.on_shard p ∙ new in
      Yields-then
        (repartition_lem asked own (λ q there. ground (arith, grown q, t.on_shard q, there)))
        (λ mid (same, configured, alike, levels, totals).
          Yields-then
            (add_priority_band-Joins mid.shard p (partition_band 0 1 band)
              ((alike p).0 ∙ t.on_shard p ∙ new)
              (ap (λ c. lookup eq_ℤ c.priority_bands p) configured ∙ found) refl fair)
            (λ s (views, levels', totals').
              let cfg : mid.config ≡ config = ap (λ x. x.config) same in
              let placed : s.ordered_priority_levels
                  ≡ sort_levels (fr.shard.ordered_priority_levels ++ p ∷ []) =
                levels' ∙ ap (λ l. sort_levels (l ++ p ∷ [])) levels in
              yields (
                record {
                  template = (template₀, ap (λ c. c.default_priority_band) cfg ∙ given, fair₀);
                  own = subst (λ c. All Own c.priority_bands) (sym cfg) own;
                  on_shard = λ q. ground (
                    arith,
                    (views q).0,
                    (alike q).0,
                    t.on_shard q,
                    grown q,
                    ap (λ c. has_key eq_ℤ c.priority_bands q) cfg,
                  );
                  counted = λ q. ground (
                    arith,
                    (views q).2,
                    (alike q).2,
                    t.counted q,
                    stats q,
                    ap (λ x. lookup eq_ℤ x.per_priority_band_stats q) same,
                  );
                  totalled = ap (λ x. x.totals) same ∙ t.totalled ∙ sym (totals' ∙ totals);
                  sorted =
                      subst Descending (sym placed)
                        (sort_levels-Descending fr.shard.ordered_priority_levels p t.sorted fresh);
                  levelled = λ q. ground (
                    arith,
                    ap (λ l. has_level l q) placed,
                    has-sort_levels_append fr.shard.ordered_priority_levels p q,
                    (views q).0,
                    (alike q).0,
                    t.levelled q,
                  );
                },
                ground (arith, (views p).0, eq_ℤ_iff p p),
                λ j.
                    ap (λ queues. has_key str_eq queues j.id)
                      ((views j.priority).1 ∙ (alike j.priority).1),
                ap (λ x. x.flow_states) same,
                ap (λ x. x.priority_band_states) same ∙ stored,
                λ q. ap (λ c. has_key eq_ℤ c.priority_bands q) cfg ∙ grown q,
              )))

  pub ensure_priority_band-Provisions :
      has_key eq_ℤ fr.priority_band_states p ≡ true
      → Yields (Provisions fr p) (ensure_priority_band fr p)
  unfolding ensure_priority_band
  ensure_priority_band-Provisions pinned =
      elim (Bool-cases (has_key eq_ℤ fr.config.priority_bands p)) [
        | inl there ↦
            let grown : (q : ℤ)
                → has_key eq_ℤ fr.config.priority_bands q
                  ≡ (has_key eq_ℤ fr.config.priority_bands q || eq_ℤ p q) =
              λ q. ground (arith, there, eq_ℤ_iff p q) in
            rw there (yields (t, t.on_shard p ∙ there, λ j. refl, refl, refl, grown))
        | inr new ↦
            let (template, given, fair) = t.template in
            rw new (
              subst (λ o. Yields (Provisions fr p) (provision_band fr p o)) (sym given)
                (provision template fair new pinned))
      ]
