-- ===== src/Examples/Prefixes.antt =====
-- The prefix index over a cache of one key, and the hashes of short prompts.
use llm_d_inference_schedule.Prelude.{
  ℕ, ◌+◌, ◌≤◌, ◌≡◌, refl, ◌==◌, ◌||◌, ◌&&◌, if◌then◌else◌, true, false, Option, none, some, List,
  [], ◌∷◌, length, has, arith,
}
use llm_d_inference_schedule.Prelude.Int.{pos}
use llm_d_inference_schedule.Prelude.Outcome.{Yields}
use llm_d_inference_schedule.PrefixCache.Hashing.{hash_prompt}
use llm_d_inference_schedule.PrefixCache.Hashing.Blocks.{hash_prompt-bound}
use llm_d_inference_schedule.PrefixCache.Indexer.{
  Lru, Server, Indexer, get, add, remove_pod, link_all, fill, evict, lru_for,
}
use llm_d_inference_schedule.PrefixCache.Indexer.Agreement.{
  is_it, LruLaw, cached, Agrees, add_links, remove_pod-Agrees,
}
use llm_d_inference_schedule.PrefixCache.Requests.{Endpoint, Request, PrepareData}
use llm_d_inference_schedule.PrefixCache.Matching.{
  Config, match_from, count_all, match_longest_prefix, prefix_length, IsClosed,
  match_longest_prefix-bounds,
}

-- A cache that has room for one key.
abbrev one_key : Lru (Option ℕ)
one_key = record {
  create = λ n. none;
  add = λ l h. (some h, if is_it l h then none else l);
  remove = λ l h. if is_it l h then (none, some h) else (l, none);
  keys = λ l. elim l [ none ↦ [] | some k ↦ k ∷ [] ];
  contains = is_it;
}

one_key-LruLaw : LruLaw one_key
one_key-LruLaw = record {
  create_empty = λ n k. refl;
  add_contains = λ l h k. elim l [ none ↦ ground arith | some x ↦ ground arith ];
  add_spares = λ l h. elim l as (λ l. is_it (one_key.add l h).1 h ≡ false) [
    | none ↦ refl
    | some x ↦ ground arith
  ];
  remove_contains = λ l h k. elim l [ none ↦ ground arith | some x ↦ ground arith ];
  remove_calls = λ l h k. elim l [ none ↦ ground arith | some x ↦ ground arith ];
  keys_contains = λ l k. elim l as (λ l. has (one_key.keys l) k ≡ one_key.contains l k) [
    | none ↦ refl
    | some x ↦ ground arith
  ];
}

abbrev empty_index : Indexer (Option ℕ)
empty_index = record { hash_to_pods = λ h. none; pod_to_lru = λ p. none; default_lru_size = 1 }

abbrev server : Server
server = record { server_id = 7; num_of_gpu_blocks = pos 1 }

empty_index-Agrees : Agrees one_key empty_index
unfolding get
empty_index-Agrees = λ h q. refl

-- The second hash drives out the first, which the index names all the same.
add_links_example :
    let after = add one_key empty_index (3 ∷ 4 ∷ []) server in
    has (get after 3) 7 ≡ (cached one_key after 7 3 || (has (3 ∷ 4 ∷ []) 3 && 7 == 7))
add_links_example =
    add_links one_key one_key-LruLaw empty_index (3 ∷ 4 ∷ []) server 3 7 empty_index-Agrees

three_stays : has (get (add one_key empty_index (3 ∷ 4 ∷ []) server) 3) 7 ≡ true
unfolding add get link_all fill evict lru_for
three_stays = refl

remove_pod-Agrees_example :
    Agrees one_key (remove_pod one_key empty_index 7)
    × ((h : ℕ) → has (get (remove_pod one_key empty_index 7) h) 7 ≡ false)
remove_pod-Agrees_example =
    remove_pod-Agrees one_key one_key-LruLaw empty_index 7 empty_index-Agrees

-- Server 1 has both blocks, and server 2 the second one only.
abbrev two_blocks : ℕ → List ℕ
two_blocks h = if h == 5 then 1 ∷ [] else 1 ∷ 2 ∷ []

match_longest_prefix-bounds_example :
    (prefix_length two_blocks 2 (5 ∷ 6 ∷ []) ≤ match_longest_prefix two_blocks (5 ∷ 6 ∷ []) 2)
    × (match_longest_prefix two_blocks (5 ∷ 6 ∷ []) 2 ≤ length {A = ℕ} (5 ∷ 6 ∷ []))
    × (IsClosed two_blocks 2 (5 ∷ 6 ∷ [])
        → match_longest_prefix two_blocks (5 ∷ 6 ∷ []) 2 ≡ prefix_length two_blocks 2 (5 ∷ 6 ∷ []))
match_longest_prefix-bounds_example = match_longest_prefix-bounds two_blocks 2 (5 ∷ 6 ∷ [])

-- A gap in the prefix is not noticed.
gap_counts : match_longest_prefix two_blocks (5 ∷ 6 ∷ []) 2 ≡ 1
unfolding match_longest_prefix match_from count_all
gap_counts = refl

-- A hash that adds up the bytes.
sum : List ℕ → ℕ
sum [] = 0
sum (b ∷ bs) = b + sum bs

hash_prompt-bound_example :
    Yields
      (λ hs. length hs ≤ 2)
      (hash_prompt sum [] [] (some (1 ∷ 2 ∷ 3 ∷ 4 ∷ 5 ∷ [])) (pos 1) (pos 2))
hash_prompt-bound_example =
    hash_prompt-bound sum [] [] 1 (omega arith) (1 ∷ 2 ∷ 3 ∷ 4 ∷ 5 ∷ []) 2
      (omega arith, omega arith)

abbrev small : Config
small = record {
  auto_tune = false;
  block_size_tokens = pos 1;
  max_prefix_blocks_to_match = pos 2;
  max_prefix_tokens_to_match = 0;
}

abbrev unused : PrepareData (Option ℕ)
unused = record { indexer = empty_index; plugin_state = λ id. none; pending = [] }

abbrev pod : Endpoint
pod = record { name = 7; metrics = none }

abbrev request : ℕ → List ℕ → Request
request id prompt = record {
  request_id = id;
  target_model = [];
  cache_salt = [];
  input = some prompt;
}
