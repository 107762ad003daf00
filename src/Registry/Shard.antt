-- ===== src/Registry/Shard.antt =====
-- pkg/epp/flowcontrol/registry/shard.go: a shard of the registry, as a state that its methods change
-- under the shard's mutex. Of a flow's queue the model has what it was made of: its items are the
-- matter of Registry/ManagedQueue, and a band's policy state that of Fairness.
pub mod Bands
pub mod Creation
pub mod Flows
pub mod Levels
use text.Mathlib.Text.{◌==◌ as str_eq}
use Prim.Native.String.{String}
use llm_d_inference_schedule.Prelude.{
  ltb, if◌then◌else◌, Bool, true, false, not, Option, none, some, List, [], ◌∷◌, ◌++◌, lookup,
  has_key, put, delete, adjust, map,
}
use llm_d_inference_schedule.Prelude.Int.{ℤ, eq_ℤ, ltb_ℤ}
use llm_d_inference_schedule.Prelude.Outcome.{
  Run, ok, err, ◌>>=◌, panic, or_panic, priority_band_not_found, flow_instance_not_found,
}
use llm_d_inference_schedule.Flow.{FlowKey}
use llm_d_inference_schedule.Registry.Config.{
  OrderingPolicy, FairnessPolicy, QueueKind, PriorityBandConfig, ShardConfig,
}
use llm_d_inference_schedule.Registry.ManagedQueue.{Counters, add_delta}

-- What newManagedQueue is given.
pub record FlowQueue : Type 0 where
  pub key : FlowKey
  pub policy : Option OrderingPolicy
  pub kind : QueueKind

pub record PriorityBand : Type 0 where
  pub fairness_policy : Option FairnessPolicy
  pub config : PriorityBandConfig
  pub queues : List (String × FlowQueue)
  pub stats : Counters

pub record Shard : Type 0 where
  pub config : ShardConfig
  pub ordered_priority_levels : List ℤ
  pub priority_bands : List (ℤ × PriorityBand)
  pub is_draining : Bool
  pub totals : Counters

abbrev pub no_stats : Counters
no_stats = record { len = 0; byte_size = 0 }

-- `sort.Slice` with the greater level first.
unfoldable pub insert_level : ℤ → List ℤ → List ℤ
insert_level p [] = p ∷ []
insert_level p (q ∷ levels) =
    let rest = insert_level p levels in if ltb_ℤ p q then q ∷ rest else p ∷ q ∷ levels

unfoldable pub sort_levels : List ℤ → List ℤ
unfolding insert_level
sort_levels [] = []
sort_levels (p ∷ levels) = insert_level p (sort_levels levels)

-- NewState of a nil policy is a nil dereference.
unfoldable pub init_priority_band : Shard → PriorityBandConfig → Run Shard
unfolding sort_levels
init_priority_band s band_config = do
  fairness ← or_panic band_config.fairness_policy
  let band : PriorityBand = record {
    fairness_policy = some fairness;
    config = band_config;
    queues = [];
    stats = no_stats;
  }
  ok (record s {
    priority_bands = put eq_ℤ s.priority_bands band_config.priority band;
    ordered_priority_levels = sort_levels (s.ordered_priority_levels ++ band_config.priority ∷ []);
  })

-- The loop of newShard.
unfoldable pub init_priority_bands : Shard → List (ℤ × PriorityBandConfig) → Run Shard
unfolding init_priority_band
init_priority_bands s [] = ok s
init_priority_bands s ((p, band_config) ∷ bands) =
    init_priority_band s band_config >>= λ s'. init_priority_bands s' bands

unfoldable pub new_shard : ShardConfig → Run Shard
unfolding init_priority_bands
new_shard config =
    init_priority_bands
      (record {
        config = config;
        ordered_priority_levels = [];
        priority_bands = [];
        is_draining = false;
        totals = no_stats;
      })
      config.priority_bands

-- A band that the shard's configuration lacks is a nil dereference.
unfoldable pub add_priority_band : Shard → ℤ → Run Shard
unfolding init_priority_band
add_priority_band s priority = if has_key eq_ℤ s.priority_bands priority then ok s else do
  band_config ← or_panic (lookup eq_ℤ s.config.priority_bands priority)
  init_priority_band s band_config

-- The loop that drops the first occurrence.
unfoldable pub remove_level : List ℤ → ℤ → List ℤ
remove_level [] priority = []
remove_level (p ∷ levels) priority =
    let rest = remove_level levels priority in if eq_ℤ p priority then levels else p ∷ rest

unfoldable pub delete_priority_band : Shard → ℤ → Shard
unfolding remove_level
delete_priority_band s priority = record s {
  priority_bands = delete eq_ℤ s.priority_bands priority;
  config = record s.config { priority_bands = delete eq_ℤ s.config.priority_bands priority };
  ordered_priority_levels = remove_level s.ordered_priority_levels priority;
}

unfoldable pub managed_queue : Shard → FlowKey → Run FlowQueue
managed_queue s key = elim (lookup eq_ℤ s.priority_bands key.priority) [
  | none ↦ err priority_band_not_found
  | some band ↦ elim (lookup str_eq band.queues key.id) [
    | none ↦ err flow_instance_not_found
    | some mq ↦ ok mq
  ]
]

unfoldable pub fairness_policy_of : Shard → ℤ → Run (Option FairnessPolicy)
fairness_policy_of s priority = elim (lookup eq_ℤ s.priority_bands priority) [
  | none ↦ err priority_band_not_found
  | some band ↦ ok band.fairness_policy
]

-- A queue that is there stays as it is; a band that is not there is a nil dereference.
unfoldable pub synchronize_flow : Shard → FlowKey → Option OrderingPolicy → QueueKind → Run Shard
synchronize_flow s key policy q = do
  band ← or_panic (lookup eq_ℤ s.priority_bands key.priority)
  let mq : FlowQueue = record { key = key; policy = policy; kind = q }
  ok (
      if has_key str_eq band.queues key.id then s else record s {
        priority_bands =
            put eq_ℤ s.priority_bands key.priority
              (record band { queues = put str_eq band.queues key.id mq });
      })

unfoldable pub delete_flow : Shard → FlowKey → Shard
delete_flow s key = record s {
  priority_bands =
      adjust eq_ℤ s.priority_bands key.priority
        (λ band. record band { queues = delete str_eq band.queues key.id });
}

unfoldable pub mark_as_draining : Shard → Shard
mark_as_draining s = record s { is_draining = true }

unfoldable pub is_active : Shard → Bool
is_active s = not s.is_draining

-- The loop over the bands: each takes its new configuration, which is a nil dereference where there
-- is none.
unfoldable pub update_bands : ShardConfig → List (ℤ × PriorityBand) → Run (List (ℤ × PriorityBand))
update_bands new_config [] = ok []
update_bands new_config ((p, band) ∷ bands) = do
  band_config ← or_panic (lookup eq_ℤ new_config.priority_bands p)
  bands' ← update_bands new_config bands
  ok ((p, record band { config = band_config }) ∷ bands')

unfoldable pub update_config : Shard → ShardConfig → Run Shard
unfolding update_bands
update_config s new_config = do
  bands ← update_bands new_config s.priority_bands
  ok (record s { config = new_config; priority_bands = bands })

-- propagateStatsDelta before its call of the registry's own.
unfoldable pub propagate_shard_delta : Shard → ℤ → Counters → Run Shard
unfolding add_delta
propagate_shard_delta s priority delta = do
  band ← or_panic (lookup eq_ℤ s.priority_bands priority)
  ok (record s {
    priority_bands =
        put eq_ℤ s.priority_bands priority (record band { stats = add_delta band.stats delta });
    totals = add_delta s.totals delta;
  })

-- The accessor's FlowKeys, in any order.
unfoldable pub flow_keys : PriorityBand → List FlowKey
flow_keys band = map (λ x. record { id = x.0; priority = band.config.priority }) band.queues
