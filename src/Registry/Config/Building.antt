-- ===== src/Registry/Config/Building.antt =====
-- pkg/epp/flowcontrol/registry/config.go: the options and NewConfig.
use text.Mathlib.Text.{◌==◌ as str_eq}
use Prim.Native.String.{String}
use llm_d_inference_schedule.Prelude.{
  ℕ, if◌then◌else◌, Bool, ◌&&◌, not, Option, none, some, List, [], ◌∷◌, has_key, put,
}
use llm_d_inference_schedule.Prelude.Int.{ℤ, pos, ltb_ℤ, eq_ℤ}
use llm_d_inference_schedule.Prelude.Outcome.{
  Run, ok, err, ◌>>=◌, shard_count_not_positive, flow_timeout_not_positive,
  band_timeout_not_positive, band_timeout_too_short, nil_band, duplicate_priority, nil_checker,
  queue_empty, or_panic,
}
use llm_d_inference_schedule.Registry.Config.{OrderingPolicy, PriorityBandConfig, Config}
use llm_d_inference_schedule.Registry.Config.Defaults.{
  Handle, Check, check_compatibility, ordering_policy, fairness_policy, apply_defaults,
  validate_band, validate_bands,
}

-- The checker is `none` for a nil interface.
pub record ConfigBuilder : Type 0 where
  pub config : Config
  pub checker : Option (OrderingPolicy → String → Check)

abbrev pub ConfigOption : Type 0
ConfigOption = ConfigBuilder → Run ConfigBuilder

unfoldable pub with_max_bytes : ℕ → ConfigOption
with_max_bytes max_bytes b = ok (record b { config = record b.config { max_bytes = max_bytes } })

unfoldable pub with_max_requests : ℕ → ConfigOption
with_max_requests max_requests b =
    ok (record b { config = record b.config { max_requests = max_requests } })

-- `n <= 0`
abbrev pub not_positive : ℤ → Bool
not_positive n = not (ltb_ℤ (pos 0) n)

unfoldable pub with_initial_shard_count : ℤ → ConfigOption
with_initial_shard_count count b =
    if not_positive count
    then err shard_count_not_positive
    else ok (record b { config = record b.config { initial_shard_count = count } })

unfoldable pub with_flow_gc_timeout : ℤ → ConfigOption
with_flow_gc_timeout d b =
    if not_positive d
    then err flow_timeout_not_positive
    else ok (record b { config = record b.config { flow_gc_timeout = d } })

unfoldable pub with_priority_band_gc_timeout : ℤ → ConfigOption
with_priority_band_gc_timeout d b =
    if not_positive d
    then err band_timeout_not_positive
    else if ltb_ℤ (pos 0) b.config.flow_gc_timeout && ltb_ℤ d b.config.flow_gc_timeout
    then err band_timeout_too_short
    else ok (record b { config = record b.config { priority_band_gc_timeout = d } })

unfoldable pub with_priority_band : Option PriorityBandConfig → ConfigOption
with_priority_band none b = err nil_band
with_priority_band (some band) b =
    if has_key eq_ℤ b.config.priority_bands band.priority
    then err duplicate_priority
    else ok (record b {
      config = record b.config {
        priority_bands = put eq_ℤ b.config.priority_bands band.priority band;
      };
    })

unfoldable pub with_default_priority_band : Option PriorityBandConfig → ConfigOption
with_default_priority_band band b =
    ok (record b { config = record b.config { default_priority_band = band } })

unfoldable pub with_capability_checker : Option (OrderingPolicy → String → Check) → ConfigOption
with_capability_checker none b = err nil_checker
with_capability_checker (some checker) b = ok (record b { checker = some checker })

abbrev pub BandOption : Type 0
BandOption = PriorityBandConfig → Run PriorityBandConfig

unfoldable pub with_ordering_policy : String → Handle → BandOption
with_ordering_policy ref handle p = do
  policy ← ordering_policy ref handle
  ok (record p { ordering_policy = some policy })

unfoldable pub with_fairness_policy : String → Handle → BandOption
with_fairness_policy ref handle p = do
  policy ← fairness_policy ref handle
  ok (record p { fairness_policy = some policy })

unfoldable pub with_queue : String → BandOption
with_queue name p = if str_eq name "" then err queue_empty else ok (record p { queue = name })

unfoldable pub with_band_max_bytes : ℕ → BandOption
with_band_max_bytes max_bytes p = ok (record p { max_bytes = max_bytes })

unfoldable pub with_band_max_requests : ℕ → BandOption
with_band_max_requests max_requests p = ok (record p { max_requests = max_requests })

-- The loop over the options.
unfoldable pub apply_options : {A : Type 0} → List (A → Run A) → A → Run A
apply_options [] a = ok a
apply_options (opt ∷ opts) a = opt a >>= apply_options opts

abbrev pub five_minutes : ℕ
five_minutes = 300000000000

abbrev pub new_band : ℤ → PriorityBandConfig
new_band priority = record {
  priority = priority;
  ordering_policy = none;
  fairness_policy = none;
  queue = "";
  max_bytes = 0;
  max_requests = 0;
}

unfoldable pub new_priority_band_config : Handle → ℤ → List BandOption → Run PriorityBandConfig
unfolding apply_options apply_defaults
new_priority_band_config handle priority opts =
    apply_options opts (new_band priority) >>= apply_defaults handle

-- The loop that gives each configured band its defaults.
unfoldable pub apply_defaults_all :
    Handle → List (ℤ × PriorityBandConfig) → Run (List (ℤ × PriorityBandConfig))
unfolding apply_defaults
apply_defaults_all handle [] = ok []
apply_defaults_all handle ((p, band) ∷ bands) = do
  band' ← apply_defaults handle band
  bands' ← apply_defaults_all handle bands
  ok ((p, band') ∷ bands')

-- A nil template is dereferenced.
unfoldable pub validate : Option (OrderingPolicy → String → Check) → Config → Check
unfolding validate_band validate_bands
validate checker c =
    if not_positive c.initial_shard_count
    then err shard_count_not_positive
    else if not_positive c.flow_gc_timeout
    then err flow_timeout_not_positive
    else if not_positive c.priority_band_gc_timeout
    then err band_timeout_not_positive
    else if ltb_ℤ c.priority_band_gc_timeout c.flow_gc_timeout
    then err band_timeout_too_short
    else do
      template ← or_panic c.default_priority_band
      _ ← validate_band checker (record template { priority = pos 0 })
      validate_bands checker c.priority_bands

unfoldable pub default_builder : ConfigBuilder
default_builder = record {
  config = record {
    max_bytes = 0;
    max_requests = 0;
    priority_bands = [];
    default_priority_band = none;
    initial_shard_count = pos 1;
    flow_gc_timeout = pos five_minutes;
    priority_band_gc_timeout = pos (600000000000);
  };
  checker = some check_compatibility;
}

-- Initializing DefaultPriorityBand if it is missing, or giving it its defaults.
unfoldable pub template_or_default : Handle → Option PriorityBandConfig → Run PriorityBandConfig
unfolding new_priority_band_config
template_or_default handle none = new_priority_band_config handle (pos 0) []
template_or_default handle (some band) = apply_defaults handle band

unfoldable pub new_config : Handle → List ConfigOption → Run Config
unfolding apply_options apply_defaults_all validate default_builder template_or_default
new_config handle opts = do
  b ← apply_options opts default_builder
  template ← template_or_default handle b.config.default_priority_band
  bands ← apply_defaults_all handle b.config.priority_bands
  let config = record b.config { default_priority_band = some template; priority_bands = bands }
  _ ← validate b.checker config
  ok config
