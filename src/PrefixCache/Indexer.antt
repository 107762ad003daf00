-- ===== src/PrefixCache/Indexer.antt =====
-- pkg/epp/framework/plugins/requestcontrol/dataproducer/approximateprefix/indexer.go: which servers cache
-- which block. A method runs under the indexer's mutex. A server is named by a number; the LRU cache of
-- hashicorp/golang-lru is an interface, whose operations give the hash that their callback is called on.
pub mod Agreement
use llm_d_inference_schedule.Prelude.{
  ℕ, ltb, ◌==◌, ◌||◌, if◌then◌else◌, Bool, true, false, Option, none, some, List, [], ◌∷◌, update,
  has,
}
use llm_d_inference_schedule.Prelude.Int.{ℤ, pos, negsuc}

pub record Lru (L : Type 0) : Type 0 where
  pub create : ℕ → L
  pub add : L → ℕ → L × Option ℕ
  pub remove : L → ℕ → L × Option ℕ
  pub keys : L → List ℕ
  pub contains : L → ℕ → Bool

-- A set of servers is a list, the keys of a map.
abbrev pub insert : List ℕ → ℕ → List ℕ
insert s p = if has s p then s else p ∷ s

unfoldable pub delete : List ℕ → ℕ → List ℕ
delete [] p = []
delete (x ∷ xs) p = if x == p then delete xs p else x ∷ delete xs p

pub record Server : Type 0 where
  pub server_id : ℕ
  pub num_of_gpu_blocks : ℤ

pub record Indexer (L : Type 0) : Type 0 where
  pub hash_to_pods : ℕ → Option (List ℕ)
  pub pod_to_lru : ℕ → Option L
  pub default_lru_size : ℕ

abbrev pub or_empty : Option (List ℕ) → List ℕ
or_empty none = []
or_empty (some s) = s

-- The size is the server's own if that is positive.
unfoldable pub lru_size : ℤ → ℕ → ℕ
lru_size (pos n) default = if ltb 0 n then n else default
lru_size (negsuc n) default = default

-- An emptied set of servers leaves the map.
unfoldable pub non_empty : List ℕ → Option (List ℕ)
non_empty [] = none
non_empty (x ∷ xs) = some (x ∷ xs)

module _ {L : Type 0} where
  unfoldable pub get : Indexer L → ℕ → List ℕ
  get ix hash = or_empty (ix.hash_to_pods hash)

  -- The callback that makeEvictionFn gives for the server `pod`.
  unfoldable pub evict : ℕ → Indexer L → Option ℕ → Indexer L
  evict pod ix none = ix
  evict pod ix (some hash) = elim (ix.hash_to_pods hash) [
    | none ↦ ix
    | some s ↦ record ix { hash_to_pods = update ix.hash_to_pods hash (non_empty (delete s pod)) }
  ]

  -- The second loop of Add.
  unfoldable pub link_all : ℕ → List ℕ → Indexer L → Indexer L
  link_all pod [] ix = ix
  link_all pod (hash ∷ rest) ix =
      link_all pod rest
        (record ix { hash_to_pods = update ix.hash_to_pods hash (some (insert (get ix hash) pod)) })

module _ {L : Type 0} (lru : Lru L) where
  -- The first loop of Add: the cache fills, and each eviction calls back.
  unfoldable pub fill : ℕ → List ℕ → L → Indexer L → L × Indexer L
  fill pod [] l ix = (l, ix)
  fill pod (hash ∷ rest) l ix =
      let (l', evicted) = lru.add l hash in fill pod rest l' (evict pod ix evicted)

  unfoldable pub lru_for : Indexer L → Server → L
  lru_for ix pod = elim (ix.pod_to_lru pod.server_id) [
    | none ↦ lru.create (lru_size pod.num_of_gpu_blocks ix.default_lru_size)
    | some l ↦ l
  ]

  unfoldable pub add : Indexer L → List ℕ → Server → Indexer L
  add ix hashes pod =
      let (l, filled) = fill pod.server_id hashes (lru_for ix pod) ix in
      link_all pod.server_id hashes
        (record filled { pod_to_lru = update ix.pod_to_lru pod.server_id (some l) })

  -- The loop of RemovePod over the keys of the cache.
  unfoldable pub remove_keys : ℕ → List ℕ → L → Indexer L → Indexer L
  remove_keys pod [] l ix = ix
  remove_keys pod (hash ∷ rest) l ix =
      let (l', evicted) = lru.remove l hash in remove_keys pod rest l' (evict pod ix evicted)

  unfoldable pub remove_pod : Indexer L → ℕ → Indexer L
  remove_pod ix pod = elim (ix.pod_to_lru pod) [
    | none ↦ ix
    | some l ↦
        let cleared = remove_keys pod (lru.keys l) l ix in
        record cleared { pod_to_lru = update cleared.pod_to_lru pod none }
  ]
