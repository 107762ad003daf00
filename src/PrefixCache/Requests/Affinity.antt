-- ===== src/PrefixCache/Requests/Affinity.antt =====
-- pkg/epp/framework/plugins/requestcontrol/dataproducer/approximateprefix/plugin.go: a request leaves its prompt's
-- blocks in the index, where the next request finds them.
use llm_d_inference_schedule.Prelude.{ℕ, ◌≤◌, ◌<◌, ◌≡◌, some, List}
use llm_d_inference_schedule.Prelude.Int.{pos}
use llm_d_inference_schedule.Prelude.Outcome.{Yields}
use llm_d_inference_schedule.PrefixCache.Indexer.{Lru, Indexer}
use llm_d_inference_schedule.PrefixCache.Matching.{Config, get_block_size, max_blocks}
use llm_d_inference_schedule.PrefixCache.Requests.{
  Endpoint, Request, SchedulingContextState, PrepareData, metrics_of, prepare_request_data,
}

module _ {L : Type 0} (lru : Lru L) where
  -- The state of the request has at least `k` blocks for the server.
  abbrev pub Matches : ℕ → ℕ → ℕ → PrepareData L → Type 0
  Matches k id server p =
      (state : SchedulingContextState) × (p.plugin_state id ≡ some state)
      × (k ≤ state.prefix_cache_servers server)

module _ {L : Type 0} (lru : Lru L) (sum64 : List ℕ → ℕ) (c : Config) (n m : ℕ)
    (positive : 0 < n) where
  -- The block size and the limit on the blocks that the plugin takes for these endpoints.
  abbrev pub Sizes : List Endpoint → Type 0
  Sizes pods = (get_block_size c (metrics_of pods) ≡ pos n) × (max_blocks c (pos n) ≡ pos m)

  -- The next call of PrepareRequestData after PreRequest, for another request.
  abbrev pub NextMatches : Request → List Endpoint → ℕ → ℕ → PrepareData L → Type 0
  NextMatches r pods k server p =
      Yields (λ prepared. Matches lru k r.request_id server prepared.0)
        (prepare_request_data sum64 c p r pods)
