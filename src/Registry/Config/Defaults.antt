-- ===== src/Registry/Config/Defaults.antt =====
-- pkg/epp/flowcontrol/registry/config.go: a band's defaults and checks. `handle` is plugin.Handle: a
-- plugin by its name, which may be an ordering policy, a fairness policy, both or neither.
use text.Mathlib.Text.{◌==◌ as str_eq}
use Prim.Native.String.{String}
use llm_d_inference_schedule.Prelude.{
  ℕ, ◌==◌, if◌then◌else◌, Bool, true, false, ◌||◌, ◌&&◌, Option, none, some, List, [], ◌∷◌,
}
use llm_d_inference_schedule.Prelude.Outcome.{
  Run, ok, err, ◌>>=◌, no_policy_registered, not_a_policy, policy_queue_incompatible,
  ordering_policy_missing, fairness_policy_missing, queue_required,
}
use llm_d_inference_schedule.Registry.Config.{
  capability_priority_configurable, OrderingPolicy, FairnessPolicy, list_queue_name,
  max_min_heap_name, new_queue_from_name, capabilities, PriorityBandConfig,
}

-- A check returns nil or an error.
abbrev pub Check : Type 0
Check = Run {0} Unit

pub record Plugin : Type 0 where
  pub as_ordering_policy : Option OrderingPolicy
  pub as_fairness_policy : Option FairnessPolicy

abbrev pub Handle : Type 0
Handle = String → Option Plugin

abbrev pub default_ordering_policy_ref : String
default_ordering_policy_ref = "fcfs-ordering-policy"

abbrev pub default_fairness_policy_ref : String
default_fairness_policy_ref = "global-strict-fairness-policy"

abbrev pub default_priority_band_max_bytes : ℕ
default_priority_band_max_bytes = 1000000000

unfoldable pub contains : List String → String → Bool
contains [] s = false
contains (x ∷ xs) s = str_eq x s || contains xs s

-- The loop over the required capabilities.
unfoldable pub has_all : List String → List String → Bool
has_all provided [] = true
has_all provided (required ∷ rest) = contains provided required && has_all provided rest

unfoldable pub check_compatibility : OrderingPolicy → String → Check
unfolding contains
check_compatibility policy name = do
  kind ← new_queue_from_name name
  if has_all (capabilities kind) policy.required_queue_capabilities
      then ok tt
      else err policy_queue_incompatible

-- The assertion that a plugin found is a policy.
unfoldable pub as_policy {ℓ} : {A : Type ℓ} → Option A → Run A
as_policy none = err not_a_policy
as_policy (some policy) = ok policy

unfoldable pub ordering_policy : String → Handle → Run OrderingPolicy
unfolding as_policy
ordering_policy ref handle = elim (handle ref) [
  | none ↦ err no_policy_registered
  | some v ↦ as_policy v.as_ordering_policy
]

unfoldable pub fairness_policy : String → Handle → Run FairnessPolicy
unfolding as_policy
fairness_policy ref handle = elim (handle ref) [
  | none ↦ err no_policy_registered
  | some v ↦ as_policy v.as_fairness_policy
]

-- The policy if it is there, and else the default one.
unfoldable pub or_resolve {ℓ} : {A : Type ℓ} → Option A → Run A → Run A
or_resolve none resolved = resolved
or_resolve (some policy) resolved = ok policy

unfoldable pub default_queue_for : OrderingPolicy → String → String
default_queue_for policy queue =
    if str_eq queue ""
    then if contains policy.required_queue_capabilities capability_priority_configurable
      then max_min_heap_name
      else list_queue_name
    else queue

unfoldable pub apply_defaults : Handle → PriorityBandConfig → Run PriorityBandConfig
unfolding or_resolve ordering_policy fairness_policy default_queue_for
apply_defaults handle p = do
  ordering ← or_resolve p.ordering_policy (ordering_policy default_ordering_policy_ref handle)
  fairness ← or_resolve p.fairness_policy (fairness_policy default_fairness_policy_ref handle)
  ok (record p {
    ordering_policy = some ordering;
    fairness_policy = some fairness;
    queue = default_queue_for ordering p.queue;
    max_bytes = if p.max_bytes == 0 then default_priority_band_max_bytes else p.max_bytes;
  })

-- The checks of one band, with `checker` in the place of the compatibility check, if there is one.
module _ (checker : Option (OrderingPolicy → String → Check)) where
  unfoldable pub validate_band : PriorityBandConfig → Check
  validate_band p = elim p.ordering_policy [
    | none ↦ err ordering_policy_missing
    | some ordering ↦ elim p.fairness_policy [
      | none ↦ err fairness_policy_missing
      | some _ ↦
          if str_eq p.queue ""
          then err queue_required
          else elim checker [ none ↦ ok tt | some check ↦ check ordering p.queue ]
    ]
  ]

  -- The loop over the configured bands.
  unfoldable pub validate_bands : {K : Type 0} → List (K × PriorityBandConfig) → Check
  unfolding validate_band
  validate_bands [] = ok tt
  validate_bands ((k, p) ∷ bands) = validate_band p >>= λ _. validate_bands bands
