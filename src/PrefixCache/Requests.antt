-- ===== src/PrefixCache/Requests.antt =====
-- pkg/epp/framework/plugins/requestcontrol/dataproducer/approximateprefix/plugin.go: what the plugin does before a
-- request is scheduled and after. An endpoint and a request are named by numbers. The index is updated by a
-- goroutine of each request's own, which waits in `pending` until it runs, in any order.
pub mod Affinity
use llm_d_inference_schedule.Prelude.{
  ℕ, suc, take, drop, ◌++◌, get_elem?, if◌then◌else◌, Option, none, some, List, [], ◌∷◌, length,
  map, update,
}
use llm_d_inference_schedule.Prelude.Int.{ℤ}
use llm_d_inference_schedule.Prelude.Outcome.{Run, ok, panic, ◌>>=◌}
use llm_d_inference_schedule.PrefixCache.Hashing.{hash_prompt}
use llm_d_inference_schedule.PrefixCache.Indexer.{Lru, Server, Indexer, get, add, remove_pod}
use llm_d_inference_schedule.PrefixCache.Matching.{
  Config, Metrics, get_block_size, max_blocks, default_lru_capacity_per_server, make_server,
  match_longest_prefix,
}

pub record Endpoint : Type 0 where
  pub name : ℕ
  pub metrics : Option Metrics

pub record Request : Type 0 where
  pub request_id : ℕ
  pub target_model : List ℕ
  pub cache_salt : List ℕ
  pub input : Option (List ℕ)

pub record SchedulingContextState : Type 0 where
  pub prefix_hashes : List ℕ
  pub prefix_cache_servers : ℕ → ℕ

-- What PrepareRequestData puts into an endpoint.
pub record PrefixCacheMatchInfo : Type 0 where
  pub match_blocks : ℕ
  pub total_blocks : ℕ
  pub block_size_tokens : ℤ

pub record PrepareData (L : Type 0) : Type 0 where
  pub indexer : Indexer L
  pub plugin_state : ℕ → Option SchedulingContextState
  pub pending : List (List Server × List ℕ)

abbrev pub metrics_of : List Endpoint → List (Option Metrics)
metrics_of pods = map (λ (pod : Endpoint). pod.metrics) pods

-- The metrics are read only to tune the capacity; without them the read panics.
unfoldable pub server_of : Config → Endpoint → Run Server
server_of c e = elim e.metrics [
  | some m ↦ ok (make_server c e.name m)
  | none ↦
      if c.auto_tune
      then panic
      else ok (record { server_id = e.name; num_of_gpu_blocks = default_lru_capacity_per_server })
]

-- The server of the prefill profile's first endpoint, if the profile has a result with one.
unfoldable pub prefill_servers : Config → Option (List Endpoint) → Run (List Server)
prefill_servers c none = ok []
prefill_servers c (some []) = ok []
prefill_servers c (some (e ∷ es)) = server_of c e >>= λ s. ok (s ∷ [])

unfoldable pub servers_of : Config → Endpoint → Option (List Endpoint) → Run (List Server)
servers_of c target prefill =
    server_of c target >>= λ s. (prefill_servers c prefill >>= λ rest. ok (s ∷ rest))

unfoldable pub info_of : (ℕ → ℕ) → List ℕ → ℤ → Endpoint → ℕ × PrefixCacheMatchInfo
info_of servers hashes size pod = (
  pod.name,
  record {
    match_blocks = servers pod.name;
    total_blocks = length hashes;
    block_size_tokens = size;
  },
)

module _ {L : Type 0} where
  -- What follows the hashing.
  unfoldable pub prepare_with :
      PrepareData L
      → ℕ
      → ℤ
      → List Endpoint
      → List ℕ
      → PrepareData L × List (ℕ × PrefixCacheMatchInfo)
  prepare_with p id size pods hashes =
      let servers : ℕ → ℕ = match_longest_prefix (get p.indexer) hashes in
      let state : SchedulingContextState = record {
        prefix_hashes = hashes;
        prefix_cache_servers = servers;
      } in
      (
        record p { plugin_state = update p.plugin_state id (some state) },
        map (info_of servers hashes size) pods,
      )

  unfoldable pub prepare_request_data :
      (List ℕ → ℕ)
      → Config
      → PrepareData L
      → Request
      → List Endpoint
      → Run (PrepareData L × List (ℕ × PrefixCacheMatchInfo))
  prepare_request_data sum64 c p r pods =
      let size = get_block_size c (metrics_of pods) in
      hash_prompt sum64 r.target_model r.cache_salt r.input size (max_blocks c size) >>= λ hashes.
      ok (prepare_with p r.request_id size pods hashes)

module _ {L : Type 0} where
  -- The targets of the primary profile, and of the prefill profile if it has a result. The state of the
  -- request is deleted in every case.
  unfoldable pub pre_request :
      Config → PrepareData L → ℕ → List Endpoint → Option (List Endpoint) → Run (PrepareData L)
  pre_request c p id [] prefill = ok (record p { plugin_state = update p.plugin_state id none })
  pre_request c p id (target ∷ targets) prefill =
      let cleared = record p { plugin_state = update p.plugin_state id none } in
      servers_of c target prefill >>= λ servers. elim (p.plugin_state id) [
        | none ↦ ok cleared
        | some state ↦
            ok (record cleared { pending = p.pending ++ (servers, state.prefix_hashes) ∷ [] })
      ]

module _ {L : Type 0} (lru : Lru L) where
  unfoldable pub add_servers : List Server → List ℕ → Indexer L → Indexer L
  add_servers [] hashes ix = ix
  add_servers (s ∷ ss) hashes ix = add_servers ss hashes (add lru ix hashes s)

  -- The goroutine at a place among those that wait runs.
  unfoldable pub run_update : ℕ → PrepareData L → PrepareData L
  unfolding add_servers
  run_update i p = elim (get_elem? p.pending i) [
    | none ↦ p
    | some (servers, hashes) ↦ record p {
      indexer = add_servers servers hashes p.indexer;
      pending = take i p.pending ++ drop (suc i) p.pending;
    }
  ]
