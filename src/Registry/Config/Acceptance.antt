-- ===== src/Registry/Config/Acceptance.antt =====
-- pkg/epp/flowcontrol/registry/config.go: what NewConfigFromAPI accepts is valid.
use llm_d_inference_schedule.Prelude.{
  ℕ, ltb, Bool, true, false, Option, none, some, List, [], ◌∷◌, ◌++◌, ◌≡◌, refl, sym, subst, arith,
  All, inl, inr, Option-cases, has_key, All-put,
}
use llm_d_inference_schedule.Prelude.Int.{pos, eq_ℤ, ltb_ℤ}
use llm_d_inference_schedule.Prelude.Outcome.{
  ok, or_panic, IfOk, IfOk-ok, IfOk-err, IfOk-branch, IfOk-then,
}
use llm_d_inference_schedule.Registry.Config.{PriorityBandConfig, Config}
use llm_d_inference_schedule.Registry.Config.Defaults.{Handle, check_compatibility, validate_band}
use llm_d_inference_schedule.Registry.Config.Building.{
  ConfigBuilder, ConfigOption, with_max_bytes, with_max_requests, with_priority_band,
  with_default_priority_band, apply_options, apply_defaults_all, validate, default_builder,
  not_positive, new_config, template_or_default,
}
use llm_d_inference_schedule.Registry.Config.Api.{
  ApiBand, ApiConfig, opt_if, resolve_quantity, template_options,
  build_default_priority_band_template, priority_band_options, build_priority_band,
  new_config_from_api,
}
use llm_d_inference_schedule.Registry.Config.Partition.{Distinct}
use llm_d_inference_schedule.Registry.Config.Validity.{
  IsValidBand, SamePriority, IsValid, IsSane, put-Distinct, validate_band-IsValidBand,
  validate_bands-IsValidBand, apply_defaults_all-keys,
}

-- The option keeps a builder sane.
abbrev Keeps : ConfigOption → Type 0
Keeps opt = (b : ConfigBuilder) → IsSane b → IfOk IsSane (opt b)

apply_options-IsSane : (opts : List ConfigOption) → All Keeps opts → Keeps (apply_options opts)
unfolding apply_options
apply_options-IsSane [] keeps b sane = IfOk-ok IsSane b sane
apply_options-IsSane (opt ∷ opts) (here, keeps) b sane =
    IfOk-then IsSane IsSane (opt b) (here b sane) (apply_options-IsSane opts keeps)

with_max_bytes-Keeps : (n : ℕ) → Keeps (with_max_bytes n)
unfolding with_max_bytes
with_max_bytes-Keeps n b sane = IfOk-ok IsSane _ sane

with_max_requests-Keeps : (n : ℕ) → Keeps (with_max_requests n)
unfolding with_max_requests
with_max_requests-Keeps n b sane = IfOk-ok IsSane _ sane

with_default_priority_band-Keeps :
    (band : Option PriorityBandConfig) → Keeps (with_default_priority_band band)
unfolding with_default_priority_band
with_default_priority_band-Keeps band b sane = IfOk-ok IsSane _ sane

with_priority_band-Keeps : (band : Option PriorityBandConfig) → Keeps (with_priority_band band)
unfolding with_priority_band
with_priority_band-Keeps none b sane = IfOk-err IsSane _
with_priority_band-Keeps (some band) b (checker, same, distinct, count) =
    IfOk-branch IsSane (has_key eq_ℤ b.config.priority_bands band.priority) _ _
      (λ there. IfOk-err IsSane _)
      (λ new. IfOk-ok IsSane _ (
        checker,
        All-put eq_ℤ SamePriority b.config.priority_bands band.priority band refl same,
        put-Distinct b.config.priority_bands band.priority band distinct,
        count,
      ))

All-append : (xs ys : List ConfigOption) → All Keeps xs → All Keeps ys → All Keeps (xs ++ ys)
All-append [] ys h h' = h'
All-append (x ∷ xs) ys (here, h) h' = (here, All-append xs ys h h')

opt_if-Keeps : (test : Bool) (opt : ConfigOption) → Keeps opt → All Keeps (opt_if test opt)
opt_if-Keeps true opt keeps = (keeps, tt)
opt_if-Keeps false opt keeps = tt

template_options-Keeps :
    (handle : Handle) (band : Option ApiBand) → IfOk (All Keeps) (template_options handle band)
unfolding template_options
template_options-Keeps handle none = IfOk-ok (All Keeps) [] tt
template_options-Keeps handle (some band) =
    IfOk-then (λ _. Unit {0}) (All Keeps) (build_default_priority_band_template handle band)
      (λ t same. tt) (λ t _. IfOk-ok (All Keeps) _ (with_default_priority_band-Keeps (some t), tt))

priority_band_options-Keeps :
    (handle : Handle) (bands : List ApiBand) → IfOk (All Keeps) (priority_band_options handle bands)
unfolding priority_band_options
priority_band_options-Keeps handle [] = IfOk-ok (All Keeps) [] tt
priority_band_options-Keeps handle (band ∷ bands) =
    IfOk-then (λ _. Unit {0}) (All Keeps) (build_priority_band handle band) (λ t same. tt)
      (λ pb _.
        IfOk-then (All Keeps) (All Keeps) (priority_band_options handle bands)
          (priority_band_options-Keeps handle bands)
          (λ opts keeps. IfOk-ok (All Keeps) _ (with_priority_band-Keeps (some pb), keeps)))

-- A configuration that passes the checks.
validate-IsValid :
    (c : Config)
    → All SamePriority c.priority_bands
    → Distinct c.priority_bands
    → IfOk (λ _. IsValid c) (validate (some check_compatibility) c)
unfolding validate
validate-IsValid c same distinct =
    IfOk-branch _ (not_positive c.initial_shard_count) _ _ (λ _. IfOk-err _ _)
      (λ shards.
        IfOk-branch _ (not_positive c.flow_gc_timeout) _ _ (λ _. IfOk-err _ _)
          (λ flow.
            IfOk-branch _ (not_positive c.priority_band_gc_timeout) _ _ (λ _. IfOk-err _ _)
              (λ band.
                IfOk-branch _ (ltb_ℤ c.priority_band_gc_timeout c.flow_gc_timeout) _ _
                  (λ _. IfOk-err _ _)
                  (λ longer.
                    IfOk-then (λ t. c.default_priority_band ≡ some t) _
                      (or_panic c.default_priority_band) (λ t found. found_template t found)
                      (λ t given.
                        IfOk-then (λ _. IsValidBand (record t { priority = pos 0 })) _
                          (validate_band (some check_compatibility) (record t { priority = pos 0 }))
                          (validate_band-IsValidBand (record t { priority = pos 0 }))
                          (λ _ valid u passed. record {
                            shards = ground (arith, shards);
                            flow_timeout = ground (arith, flow);
                            band_timeout = longer;
                            template = (
                              t,
                              given,
                              record {
                                ordering = valid.ordering;
                                fairness = valid.fairness;
                                queue = valid.queue;
                              },
                            );
                            bands = validate_bands-IsValidBand c.priority_bands u passed;
                            priorities = same;
                            distinct = distinct;
                          }))))))
  where
    found_template :
        (t : PriorityBandConfig)
        → or_panic c.default_priority_band ≡ ok t
        → c.default_priority_band ≡ some t
    found_template t found = elim (Option-cases c.default_priority_band) [
      | inl missing ↦ absurd (ground (arith, missing, found))
      | inr (t', there) ↦ ground (arith, there, found)
    ]

new_config-IsValid :
    (handle : Handle) (opts : List ConfigOption)
    → All Keeps opts
    → IfOk IsValid (new_config handle opts)
unfolding new_config default_builder
new_config-IsValid handle opts keeps =
    IfOk-then IsSane IsValid (apply_options opts default_builder)
      (apply_options-IsSane opts keeps default_builder (refl, tt, tt, refl))
      (λ b (checker, same, distinct, count).
        IfOk-then (λ _. Unit {0}) IsValid
          (template_or_default handle b.config.default_priority_band) (λ t _. tt)
          (λ t _.
            IfOk-then (λ bands. All SamePriority bands × Distinct bands) IsValid
              (apply_defaults_all handle b.config.priority_bands)
              (λ bands made.
                let (same', distinct', keys) =
                  apply_defaults_all-keys handle b.config.priority_bands same distinct bands made in
                (same', distinct'))
              (λ bands (same', distinct').
                let config : Config = record b.config {
                  default_priority_band = some t;
                  priority_bands = bands;
                } in
                IfOk-then (λ _. IsValid config) IsValid (validate b.checker config)
                  (subst (λ k. IfOk (λ _. IsValid config) (validate k config)) (sym checker)
                    (validate-IsValid config same' distinct'))
                  (λ _ valid. IfOk-ok IsValid config valid))))

new_config_from_api-IfOk :
    (handle : Handle) (api : Option ApiConfig) → IfOk IsValid (new_config_from_api handle api)
unfolding new_config_from_api
new_config_from_api-IfOk handle none = new_config-IsValid handle [] tt
new_config_from_api-IfOk handle (some api) =
    IfOk-then (λ _. Unit {0}) IsValid (resolve_quantity api.max_bytes) (λ n _. tt)
      (λ max_bytes _.
        IfOk-then (λ _. Unit {0}) IsValid (resolve_quantity api.max_requests) (λ n _. tt)
          (λ max_requests _.
            IfOk-then (All Keeps) IsValid (template_options handle api.default_priority_band)
              (template_options-Keeps handle api.default_priority_band)
              (λ template keeps.
                IfOk-then (All Keeps) IsValid (priority_band_options handle api.priority_bands)
                  (priority_band_options-Keeps handle api.priority_bands)
                  (λ bands keeps'. new_config-IsValid handle _ (
                    All-append _ bands
                      (All-append _ template
                        (All-append (opt_if (ltb 0 max_bytes) (with_max_bytes max_bytes)) _
                          (opt_if-Keeps (ltb 0 max_bytes) _ (with_max_bytes-Keeps max_bytes))
                          (opt_if-Keeps (ltb 0 max_requests) _
                            (with_max_requests-Keeps max_requests)))
                        keeps)
                      keeps')))))

-- A configuration that NewConfigFromAPI returns has a positive shard count and timeouts in order; its
-- template and its bands have their policies and a queue with the capabilities these need; and every
-- band stands under its own priority, once.
pub new_config_from_api-IsValid :
    (handle : Handle) (api : Option ApiConfig) (c : Config)
    → new_config_from_api handle api ≡ ok c
    → IsValid c
new_config_from_api-IsValid = new_config_from_api-IfOk
