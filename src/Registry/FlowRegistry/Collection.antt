-- ===== src/Registry/FlowRegistry/Collection.antt =====
-- pkg/epp/flowcontrol/registry/registry.go: the collector of idle flows and of idle priority bands.
use llm_d_inference_schedule.Prelude.{ℕ, if◌then◌else◌, List, [], ◌∷◌, has_key, delete}
use llm_d_inference_schedule.Prelude.Int.{ℤ, eq_ℤ, pos_part}
use llm_d_inference_schedule.Flow.{FlowKey, key_eq}
use llm_d_inference_schedule.Registry.Leasing.{LeasedState, collect_leased_resources}
use llm_d_inference_schedule.Registry.Shard.{Shard, delete_priority_band, delete_flow}
use llm_d_inference_schedule.Registry.FlowRegistry.{FlowRegistry, unpin_key}

-- The loop that releases the band's lease of each collected flow.
unfoldable pub release_bands :
    List (FlowKey × LeasedState) → List (ℤ × LeasedState) → ℕ → List (ℤ × LeasedState)
unfolding unpin_key
release_bands [] bands now = bands
release_bands ((key, state) ∷ cleaned) bands now =
    release_bands cleaned (unpin_key eq_ℤ bands key.priority now) now

-- The loop over the collected flows; one that is back in the map keeps its queue.
unfoldable pub cleanup_flow_resources :
    List (FlowKey × LeasedState) → List (FlowKey × LeasedState) → Shard → Shard
cleanup_flow_resources flow_states [] shard = shard
cleanup_flow_resources flow_states ((key, state) ∷ cleaned) shard =
    cleanup_flow_resources flow_states cleaned
      (if has_key key_eq flow_states key then shard else delete_flow shard key)

-- A timeout that is not positive is one of 0 to the collector.
unfoldable pub gc_flows : FlowRegistry → ℕ → FlowRegistry
unfolding release_bands cleanup_flow_resources
gc_flows fr now =
    let (kept, cleaned) =
      collect_leased_resources fr.flow_states (pos_part fr.config.flow_gc_timeout) now in
    record fr {
      flow_states = kept;
      priority_band_states = release_bands cleaned fr.priority_band_states now;
      shard = cleanup_flow_resources kept cleaned fr.shard;
    }

-- The loop over the collected bands; one that is back in the map stays.
unfoldable pub cleanup_priority_band_resources :
    List (ℤ × LeasedState) → FlowRegistry → FlowRegistry
cleanup_priority_band_resources [] fr = fr
cleanup_priority_band_resources ((priority, state) ∷ cleaned) fr =
    cleanup_priority_band_resources cleaned (
      if has_key eq_ℤ fr.priority_band_states priority then fr else record fr {
        config = record fr.config {
          priority_bands = delete eq_ℤ fr.config.priority_bands priority;
        };
        per_priority_band_stats = delete eq_ℤ fr.per_priority_band_stats priority;
        shard = delete_priority_band fr.shard priority;
      })

unfoldable pub gc_priority_bands : FlowRegistry → ℕ → FlowRegistry
unfolding cleanup_priority_band_resources
gc_priority_bands fr now =
    let (kept, cleaned) =
      collect_leased_resources fr.priority_band_states (pos_part fr.config.priority_band_gc_timeout)
        now in
    cleanup_priority_band_resources cleaned (record fr { priority_band_states = kept })

unfoldable pub execute_gc_cycle : FlowRegistry → ℕ → FlowRegistry
unfolding gc_flows gc_priority_bands
execute_gc_cycle fr now = gc_priority_bands (gc_flows fr now) now
