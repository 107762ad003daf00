-- ===== src/Registry/Config/Api.antt =====
-- pkg/epp/flowcontrol/registry/config.go: NewConfigFromAPI; its argument's type is in
-- apix/config/v1alpha1/endpointpickerconfig_types.go. A quantity is what its Value method gives.
use text.Mathlib.Text.{◌==◌ as str_eq}
use Prim.Native.String.{String}
use llm_d_inference_schedule.Prelude.{
  ℕ, ltb, not, if◌then◌else◌, Bool, Option, none, some, List, [], ◌∷◌, ◌++◌,
}
use llm_d_inference_schedule.Prelude.Int.{ℤ, pos, negsuc}
use llm_d_inference_schedule.Prelude.Outcome.{Run, ok, err, ◌>>=◌, negative_quantity}
use llm_d_inference_schedule.Registry.Config.{PriorityBandConfig, Config}
use llm_d_inference_schedule.Registry.Config.Defaults.{Handle}
use llm_d_inference_schedule.Registry.Config.Building.{
  ConfigOption, BandOption, with_max_bytes, with_max_requests, with_priority_band,
  with_default_priority_band, with_ordering_policy, with_fairness_policy, with_band_max_bytes,
  with_band_max_requests, new_priority_band_config, new_config,
}

pub record ApiBand : Type 0 where
  pub priority : ℤ
  pub max_bytes : Option ℤ
  pub max_requests : Option ℤ
  pub fairness_policy_ref : String
  pub ordering_policy_ref : String

pub record ApiConfig : Type 0 where
  pub max_bytes : Option ℤ
  pub max_requests : Option ℤ
  pub default_priority_band : Option ApiBand
  pub priority_bands : List ApiBand

unfoldable pub resolve_quantity : Option ℤ → Run ℕ
resolve_quantity none = ok 0
resolve_quantity (some (pos v)) = ok v
resolve_quantity (some (negsuc v)) = err negative_quantity

-- An option that is appended where a test holds.
abbrev pub opt_if : {A : Type 0} → Bool → A → List A
opt_if test opt = if test then opt ∷ [] else []

unfoldable pub band_options : Handle → ApiBand → Run (List BandOption)
unfolding resolve_quantity
band_options handle band = do
  max_bytes ← resolve_quantity band.max_bytes
  max_requests ← resolve_quantity band.max_requests
  ok (
      opt_if (ltb 0 max_bytes) (with_band_max_bytes max_bytes)
      ++ opt_if (ltb 0 max_requests) (with_band_max_requests max_requests)
      ++ opt_if (not (str_eq band.ordering_policy_ref ""))
          (with_ordering_policy band.ordering_policy_ref handle)
      ++ opt_if (not (str_eq band.fairness_policy_ref ""))
          (with_fairness_policy band.fairness_policy_ref handle))

unfoldable pub build_default_priority_band_template : Handle → ApiBand → Run PriorityBandConfig
unfolding band_options
build_default_priority_band_template handle api_band = do
  band_opts ← band_options handle api_band
  new_priority_band_config handle (pos 0) band_opts

unfoldable pub build_priority_band : Handle → ApiBand → Run PriorityBandConfig
unfolding band_options
build_priority_band handle band = do
  band_opts ← band_options handle band
  new_priority_band_config handle band.priority band_opts

-- The option for the template, if one is given.
unfoldable pub template_options : Handle → Option ApiBand → Run (List ConfigOption)
unfolding build_default_priority_band_template
template_options handle none = ok []
template_options handle (some api_band) = do
  template ← build_default_priority_band_template handle api_band
  ok (with_default_priority_band (some template) ∷ [])

-- The loop over the bands.
unfoldable pub priority_band_options : Handle → List ApiBand → Run (List ConfigOption)
unfolding build_priority_band
priority_band_options handle [] = ok []
priority_band_options handle (band ∷ bands) = do
  pb ← build_priority_band handle band
  opts ← priority_band_options handle bands
  ok (with_priority_band (some pb) ∷ opts)

unfoldable pub new_config_from_api : Handle → Option ApiConfig → Run Config
unfolding template_options priority_band_options
new_config_from_api handle none = new_config handle []
new_config_from_api handle (some api) = do
  max_bytes ← resolve_quantity api.max_bytes
  max_requests ← resolve_quantity api.max_requests
  template ← template_options handle api.default_priority_band
  bands ← priority_band_options handle api.priority_bands
  new_config handle (
      opt_if (ltb 0 max_bytes) (with_max_bytes max_bytes)
      ++ opt_if (ltb 0 max_requests) (with_max_requests max_requests)
      ++ template
      ++ bands)
