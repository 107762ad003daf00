-- ===== src/Registry/FlowRegistry.antt =====
-- pkg/epp/flowcontrol/registry/registry.go: the flow registry, with its one shard. A method is one step
-- of the state: of the interleavings, Leasing/Protocol has those on one key. A flow's session is
-- `connect`, then the callback, and last `release`, the deferred unpin.
pub mod Collection
pub mod Creation
pub mod IdleBands
pub mod IdleFlows
pub mod Leases
pub mod Life
pub mod Opening
pub mod Provisioning
pub mod Reclaiming
pub mod Sessions
pub mod Topology
use Prim.Native.String.{String}
use text.Mathlib.Text.{◌==◌ as str_eq}
use llm_d_inference_schedule.Prelude.{
  ℕ, if◌then◌else◌, Bool, true, false, ◌||◌, Option, none, some, List, [], ◌∷◌, ◌++◌, lookup,
  has_key, put, delete, adjust, map, Perm,
}
use llm_d_inference_schedule.Prelude.Int.{ℤ, eq_ℤ, pos_part}
use llm_d_inference_schedule.Prelude.Outcome.{
  Run, ok, err, panic, out_of_fuel, ◌>>=◌, or_panic, Error, flow_id_empty, priority_band_not_found,
}
use llm_d_inference_schedule.Flow.{FlowKey, key_eq}
use llm_d_inference_schedule.Registry.Config.{
  OrderingPolicy, QueueKind, new_queue_from_name, PriorityBandConfig, Config, partition,
}
use llm_d_inference_schedule.Registry.Leasing.{
  LeasedState, fresh_lease, try_pin, unpin, collect_leased_resources,
}
use llm_d_inference_schedule.Registry.ManagedQueue.{Counters, add_delta}
use llm_d_inference_schedule.Registry.Shard.{
  Shard, no_stats, new_shard, add_priority_band, delete_priority_band, synchronize_flow,
  delete_flow, update_config, propagate_shard_delta,
}

-- A state of a flow in the map has been initialized without an error, since a session begins in one
-- step; so the model keeps of it the lease alone.
pub record FlowRegistry : Type 0 where
  pub config : Config
  pub flow_states : List (FlowKey × LeasedState)
  pub priority_band_states : List (ℤ × LeasedState)
  pub totals : Counters
  pub per_priority_band_stats : List (ℤ × Counters)
  pub shard : Shard

-- The stats of the configured bands at the start.
unfoldable pub stats_of_bands : List (ℤ × PriorityBandConfig) → List (ℤ × Counters)
stats_of_bands bands = map (λ x. (x.0, no_stats)) bands

unfoldable pub repartition : FlowRegistry → Run FlowRegistry
repartition fr = do
  shard ← update_config fr.shard (partition fr.config 0 1)
  ok (record fr { shard = shard })

-- No flow has a state yet when the shard is created.
unfoldable pub new_flow_registry : Config → Run FlowRegistry
unfolding repartition stats_of_bands
new_flow_registry config = do
  shard ← new_shard (partition config 0 1)
  repartition (record {
    config = config;
    flow_states = [];
    priority_band_states = [];
    totals = no_stats;
    per_priority_band_stats = stats_of_bands config.priority_bands;
    shard = shard;
  })

unfoldable pub build_flow_components :
    FlowRegistry → FlowKey → Run (Option OrderingPolicy × QueueKind)
build_flow_components fr key = elim (lookup eq_ℤ fr.config.priority_bands key.priority) [
  | none ↦ err priority_band_not_found
  | some band_config ↦ do
    q ← new_queue_from_name band_config.queue
    ok (band_config.ordering_policy, q)
]

-- LoadOrStore.
unfoldable pub load_or_store : {K V : Type 0} → (K → K → Bool) → List (K × V) → K → V → List (K × V)
load_or_store eq m k v = if has_key eq m k then m else put eq m k v

-- ensurePriorityBand from its copy of the template on, a nil one being dereferenced.
unfoldable pub provision_band : FlowRegistry → ℤ → Option PriorityBandConfig → Run FlowRegistry
unfolding load_or_store repartition
provision_band fr priority none = panic
provision_band fr priority (some template) = do
  fr' ← repartition (record fr {
    config = record fr.config {
      priority_bands =
          put eq_ℤ fr.config.priority_bands priority (record template { priority = priority });
    };
    per_priority_band_stats = load_or_store eq_ℤ fr.per_priority_band_stats priority no_stats;
    priority_band_states = load_or_store eq_ℤ fr.priority_band_states priority fresh_lease;
  })
  shard ← add_priority_band fr'.shard priority
  ok (record fr' { shard = shard })

unfoldable pub ensure_priority_band : FlowRegistry → ℤ → Run FlowRegistry
unfolding provision_band
ensure_priority_band fr priority =
    if has_key eq_ℤ fr.config.priority_bands priority
    then ok fr
    else provision_band fr priority fr.config.default_priority_band

-- The end of ensureFlowInfrastructure, on the components that were built: its error, if it has one,
-- and the registry, in which the band stays.
unfoldable pub synchronize_shard :
    FlowRegistry
    → FlowKey
    → Run (Option OrderingPolicy × QueueKind)
    → Run (FlowRegistry × Option Error)
synchronize_shard fr key panic = panic
synchronize_shard fr key out_of_fuel = out_of_fuel
synchronize_shard fr key (err e) = ok (fr, some e)
synchronize_shard fr key (ok (policy, queue)) = do
  shard ← synchronize_flow fr.shard key policy queue
  ok (record fr { shard = shard }, none)

unfoldable pub ensure_flow_infrastructure :
    FlowRegistry → FlowKey → Run (FlowRegistry × Option Error)
unfolding ensure_priority_band build_flow_components synchronize_shard
ensure_flow_infrastructure fr key = do
  fr' ← ensure_priority_band fr key.priority
  synchronize_shard fr' key (build_flow_components fr' key)

-- pinLeasedResource where no other call is at work: the state is in the map and not marked, or new.
unfoldable pub pin_leased_resource :
    {K : Type 0} → (K → K → Bool) → List (K × LeasedState) → K → List (K × LeasedState) × Bool
unfolding load_or_store
pin_leased_resource eq m key = (
  adjust eq (load_or_store eq m key fresh_lease) key (λ state. (try_pin state).0),
  if has_key eq m key then false else true,
)

-- unpin of the state in the map, if there is one.
unfoldable pub unpin_key :
    {K : Type 0} → (K → K → Bool) → List (K × LeasedState) → K → ℕ → List (K × LeasedState)
unpin_key eq m key now = adjust eq m key (λ state. unpin state now)

-- The branch on initErr, for a new flow.
unfoldable pub settle_init : FlowKey → ℕ → FlowRegistry × Option Error → FlowRegistry × Option Error
unfolding unpin_key
settle_init key now (fr, none) = (fr, none)
settle_init key now (fr, some e) = (
  record fr {
    flow_states = delete key_eq fr.flow_states key;
    priority_band_states = unpin_key eq_ℤ fr.priority_band_states key.priority now;
  },
  some e,
)

-- WithConnection up to the callback, which is called if there is no error.
unfoldable pub connect : FlowRegistry → FlowKey → ℕ → Run (FlowRegistry × Option Error)
unfolding pin_leased_resource ensure_flow_infrastructure settle_init
connect fr key now =
    if str_eq key.id ""
    then ok (fr, some flow_id_empty)
    else let (states, is_new_flow) = pin_leased_resource key_eq fr.flow_states key in
      let pinned = record fr { flow_states = states } in
      if is_new_flow
      then (do
        result ←
            ensure_flow_infrastructure
              (record pinned {
                priority_band_states =
                    (pin_leased_resource eq_ℤ fr.priority_band_states key.priority).0;
              })
              key
        ok (settle_init key now result))
      else ok (pinned, none)

unfoldable pub release : FlowRegistry → FlowKey → ℕ → FlowRegistry
unfolding unpin_key
release fr key now = record fr { flow_states = unpin_key key_eq fr.flow_states key now }

-- A change that a queue reports, through its shard.
unfoldable pub propagate_stats_delta : FlowRegistry → ℤ → Counters → Run FlowRegistry
unfolding add_delta
propagate_stats_delta fr priority delta = do
  shard ← propagate_shard_delta fr.shard priority delta
  stats ← or_panic (lookup eq_ℤ fr.per_priority_band_stats priority)
  ok (record fr {
    shard = shard;
    per_priority_band_stats = put eq_ℤ fr.per_priority_band_stats priority (add_delta stats delta);
    totals = add_delta fr.totals delta;
  })
