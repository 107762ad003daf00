-- ===== src/Registry/Config/Validity.antt =====
-- pkg/epp/flowcontrol/registry/config.go: a configuration that NewConfig returns is valid.
use text.Mathlib.Text.{◌==◌ as str_eq}
use Prim.Native.String.{String}
use llm_d_inference_schedule.Prelude.{
  true, false, some, List, [], ◌∷◌, ◌≡◌, refl, ◌∙◌, sym, ap, arith, All, inl, inr, Bool-cases,
  Option-cases, has_key, put, is_some, lookup-put,
}
use llm_d_inference_schedule.Prelude.Int.{ℤ, pos, eq_ℤ, eq_ℤ_iff, ltb_ℤ}
use llm_d_inference_schedule.Prelude.Outcome.{ok, IfOk, IfOk-ok, IfOk-err, IfOk-branch, IfOk-then}
use llm_d_inference_schedule.Registry.Config.{
  OrderingPolicy, QueueKind, new_queue_from_name, capabilities, PriorityBandConfig, Config,
}
use llm_d_inference_schedule.Registry.Config.Partition.{Distinct}
use llm_d_inference_schedule.Registry.Config.Defaults.{
  Handle, or_resolve, ordering_policy, fairness_policy, default_ordering_policy_ref,
  default_fairness_policy_ref, has_all, check_compatibility, apply_defaults, validate_band,
  validate_bands,
}
use llm_d_inference_schedule.Registry.Config.Building.{ConfigBuilder, apply_defaults_all}

-- The band has its policies, and a queue that has the capabilities its ordering needs.
pub record IsValidBand (b : PriorityBandConfig) : Type 0 where
  pub ordering : (o : OrderingPolicy) × (b.ordering_policy ≡ some o)
  pub fairness : is_some b.fairness_policy ≡ true
  pub queue :
      (kind : QueueKind) × (new_queue_from_name b.queue ≡ ok kind)
      × (has_all (capabilities kind) ordering.0.required_queue_capabilities ≡ true)

abbrev pub SamePriority : ℤ × PriorityBandConfig → Type 0
SamePriority x = x.1.priority ≡ x.0

pub record IsValid (c : Config) : Type 0 where
  pub shards : ltb_ℤ (pos 0) c.initial_shard_count ≡ true
  pub flow_timeout : ltb_ℤ (pos 0) c.flow_gc_timeout ≡ true
  pub band_timeout : ltb_ℤ c.priority_band_gc_timeout c.flow_gc_timeout ≡ false
  pub template : (t : PriorityBandConfig) × (c.default_priority_band ≡ some t) × IsValidBand t
  pub bands : All (λ x. IsValidBand x.1) c.priority_bands
  pub priorities : All SamePriority c.priority_bands
  pub distinct : Distinct c.priority_bands

check_compatibility-fits :
    (o : OrderingPolicy) (name : String)
    → IfOk
        (λ _.
          (kind : QueueKind) × (new_queue_from_name name ≡ ok kind)
          × (has_all (capabilities kind) o.required_queue_capabilities ≡ true))
        (check_compatibility o name)
unfolding check_compatibility
check_compatibility-fits o name =
    IfOk-then (λ kind. new_queue_from_name name ≡ ok kind) _ (new_queue_from_name name)
      (λ kind same. same)
      (λ kind same.
        IfOk-branch _ (has_all (capabilities kind) o.required_queue_capabilities) (ok tt) _
          (λ fits. IfOk-ok _ tt (kind, same, fits)) (λ misfits. IfOk-err _ _))

pub validate_band-IsValidBand :
    (b : PriorityBandConfig)
    → IfOk (λ _. IsValidBand b) (validate_band (some check_compatibility) b)
unfolding validate_band
validate_band-IsValidBand b u passed = elim (Option-cases b.ordering_policy) [
  | inl missing ↦ absurd (ground (arith, missing, passed))
  | inr (o, ordering) ↦ elim (Option-cases b.fairness_policy) [
    | inl missing ↦ absurd (ground (arith, ordering, missing, passed))
    | inr (f, fairness) ↦ elim (Bool-cases (str_eq b.queue "")) [
      | inl empty ↦ absurd (ground (arith, ordering, fairness, empty, passed))
      | inr named ↦
          let checked : check_compatibility o b.queue ≡ ok u =
            ground (arith, ordering, fairness, named, passed) in
          record {
            ordering = (o, ordering);
            fairness = ground (arith, fairness);
            queue = check_compatibility-fits o b.queue u checked;
          }
    ]
  ]
]

pub validate_bands-IsValidBand :
    (bands : List (ℤ × PriorityBandConfig))
    → IfOk (λ _. All (λ x. IsValidBand x.1) bands) (validate_bands (some check_compatibility) bands)
unfolding validate_bands
validate_bands-IsValidBand [] u passed = tt
validate_bands-IsValidBand ((k, b) ∷ bands) u passed =
    IfOk-then (λ _. IsValidBand b) (λ _. All (λ x. IsValidBand x.1) ((k, b) ∷ bands))
      (validate_band (some check_compatibility) b) (validate_band-IsValidBand b)
      (λ _ valid v passed'. (valid, validate_bands-IsValidBand bands v passed')) u passed

-- Defaults leave a band its priority, and the map its keys.
apply_defaults-priority :
    (handle : Handle) (b : PriorityBandConfig)
    → IfOk (λ b'. b'.priority ≡ b.priority) (apply_defaults handle b)
unfolding apply_defaults
apply_defaults-priority handle b =
    IfOk-then (λ _. Unit {0}) _
      (or_resolve b.ordering_policy (ordering_policy default_ordering_policy_ref handle))
      (λ o same. tt)
      (λ o _.
        IfOk-then (λ _. Unit {0}) _
          (or_resolve b.fairness_policy (fairness_policy default_fairness_policy_ref handle))
          (λ f same. tt) (λ f _. IfOk-ok (λ b'. b'.priority ≡ b.priority) _ refl))

pub apply_defaults_all-keys :
    (handle : Handle) (bands : List (ℤ × PriorityBandConfig))
    → All SamePriority bands
    → Distinct bands
    → IfOk
        (λ bands'.
          All SamePriority bands'
          × Distinct bands'
          × ((p : ℤ) → has_key eq_ℤ bands' p ≡ has_key eq_ℤ bands p))
        (apply_defaults_all handle bands)
unfolding apply_defaults_all
apply_defaults_all-keys handle [] same distinct = IfOk-ok _ [] (tt, tt, λ p. refl)
apply_defaults_all-keys handle ((k, b) ∷ bands) (here, same) (once, distinct) =
    IfOk-then (λ b'. b'.priority ≡ b.priority) _ (apply_defaults handle b)
      (apply_defaults-priority handle b)
      (λ b' kept.
        IfOk-then _ _ (apply_defaults_all handle bands)
          (apply_defaults_all-keys handle bands same distinct)
          (λ bands' (same', distinct', keys).
            IfOk-ok _ ((k, b') ∷ bands')
              ((kept ∙ here, same'), (keys k ∙ once, distinct'), λ p. ground (arith, keys p))))

-- What the options of the API leave of a builder: the real checker, and a map of bands that stand
-- under their own priorities, once.
abbrev pub IsSane : ConfigBuilder → Type 0
IsSane b =
    (b.checker ≡ some check_compatibility)
    × All SamePriority b.config.priority_bands
    × Distinct b.config.priority_bands
    × (b.config.initial_shard_count ≡ pos 1)

pub put-Distinct :
    {V : Type 0} (m : List (ℤ × V)) (k : ℤ) (v : V) → Distinct m → Distinct (put eq_ℤ m k v)
put-Distinct [] k v distinct = (refl, tt)
put-Distinct ((x, w) ∷ m) k v (once, distinct) = elim (Bool-cases (eq_ℤ x k)) [
  | inl hit ↦
      let same : x ≡ k = ground (arith, eq_ℤ_iff x k) in
      rw hit (ap (has_key eq_ℤ m) (sym same) ∙ once, distinct)
  | inr miss ↦ rw miss (
    ground (arith, lookup-put eq_ℤ eq_ℤ_iff m k v x, miss, once, eq_ℤ_iff x k, eq_ℤ_iff k x),
    put-Distinct m k v distinct,
  )
]
