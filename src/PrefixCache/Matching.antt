-- ===== src/PrefixCache/Matching.antt =====
-- pkg/epp/framework/plugins/requestcontrol/dataproducer/approximateprefix/plugin.go: matchLongestPrefix, and
-- the limits that PrepareRequestData hashes with. The index is read through `get`, the servers that a
-- block's hash names; the result gives 0 for a server that is not in the map.
use llm_d_inference_schedule.Prelude.{
  has, refl, List-cases, Bool-cases, ℕ, suc, ◌+◌, ◌/◌, ◌≤◌, ◌≡◌, inl, inr, ltb, ◌&&◌, if◌then◌else◌,
  Bool, false, Option, none, some, List, [], ◌∷◌, length, arith,
}
use llm_d_inference_schedule.Prelude.Int.{ℤ, pos, negsuc, ltb_ℤ}
use llm_d_inference_schedule.PrefixCache.Indexer.{Server}

-- `res[server]++` for each server of a set.
unfoldable pub count_all : List ℕ → (ℕ → ℕ) → ℕ → ℕ
count_all servers res s = if has servers s then res s + 1 else res s

module _ (get : ℕ → List ℕ) where
  unfoldable pub match_from : List ℕ → (ℕ → ℕ) → ℕ → ℕ
  match_from [] res = res
  match_from (hash ∷ hashes) res = elim (get hash) [
    | [] ↦ res
    | p ∷ ps ↦ match_from hashes (count_all (p ∷ ps) res)
  ]

  unfoldable pub match_longest_prefix : List ℕ → ℕ → ℕ
  match_longest_prefix hashes = match_from hashes (λ _. 0)

  -- How many of the first hashes the server has, up to the first that it lacks.
  unfoldable pub prefix_length : ℕ → List ℕ → ℕ
  prefix_length s [] = 0
  prefix_length s (hash ∷ hashes) = if has (get hash) s then suc (prefix_length s hashes) else 0

  pub Lacks : ℕ → List ℕ → Type 0
  Lacks s [] = Unit
  Lacks s (hash ∷ hashes) = (has (get hash) s ≡ false) × Lacks s hashes

  -- A server that lacks a block lacks the blocks after it.
  pub IsClosed : ℕ → List ℕ → Type 0
  IsClosed s [] = Unit
  IsClosed s (hash ∷ hashes) = (has (get hash) s ≡ false → Lacks s hashes) × IsClosed s hashes

  match_from-bounds :
      (s : ℕ) (hashes : List ℕ) (res : ℕ → ℕ)
      → (res s + prefix_length s hashes ≤ match_from hashes res s)
        × (match_from hashes res s ≤ res s + length hashes)
  unfolding match_from prefix_length count_all
  match_from-bounds s [] res = (omega arith, omega arith)
  match_from-bounds s (hash ∷ hashes) res = elim (List-cases (get hash)) [
    | inl empty ↦ ground (arith, empty)
    | inr (p, ps, found) ↦
        ground (arith, found, match_from-bounds s hashes (count_all (p ∷ ps) res))
  ]

  match_from-Lacks :
      (s : ℕ) (hashes : List ℕ) (res : ℕ → ℕ) → Lacks s hashes → match_from hashes res s ≡ res s
  unfolding match_from Lacks count_all
  match_from-Lacks s [] res lacks = refl
  match_from-Lacks s (hash ∷ hashes) res lacks = elim (List-cases (get hash)) [
    | inl empty ↦ ground (arith, empty)
    | inr (p, ps, found) ↦
        ground (arith, found, lacks.0, match_from-Lacks s hashes (count_all (p ∷ ps) res) lacks.1)
  ]

  match_from-IsClosed :
      (s : ℕ) (hashes : List ℕ) (res : ℕ → ℕ)
      → IsClosed s hashes
      → match_from hashes res s ≡ res s + prefix_length s hashes
  unfolding match_from IsClosed count_all prefix_length
  match_from-IsClosed s [] res closed = omega arith
  match_from-IsClosed s (hash ∷ hashes) res closed = elim (List-cases (get hash)) [
    | inl empty ↦ ground (arith, empty)
    | inr (p, ps, found) ↦ elim (Bool-cases (has (p ∷ ps) s)) [
      | inl there ↦
          ground
            (arith, found, there, match_from-IsClosed s hashes (count_all (p ∷ ps) res) closed.1)
      | inr missing ↦
          let none_left =
            match_from-Lacks s hashes (count_all (p ∷ ps) res) (closed.0 (rw found missing)) in
          ground (arith, found, missing, none_left)
    ]
  ]

  -- The count for a server is at least the length of the longest prefix of which it has every block, and
  -- at most the number of blocks. It is that length if the server lacks each block after one it lacks.
  pub match_longest_prefix-bounds :
      (s : ℕ) (hashes : List ℕ)
      → (prefix_length s hashes ≤ match_longest_prefix hashes s)
        × (match_longest_prefix hashes s ≤ length hashes)
        × (IsClosed s hashes → match_longest_prefix hashes s ≡ prefix_length s hashes)
  unfolding match_longest_prefix
  match_longest_prefix-bounds s hashes =
      let (low, high) = match_from-bounds s hashes (λ _. 0) in
      (
        omega (arith, low),
        omega (arith, high),
        λ closed. omega (arith, match_from-IsClosed s hashes (λ _. 0) closed),
      )

pub record Config : Type 0 where
  pub auto_tune : Bool
  pub block_size_tokens : ℤ
  pub max_prefix_blocks_to_match : ℤ
  pub max_prefix_tokens_to_match : ℕ

-- An endpoint's metrics, if it has any.
pub record Metrics : Type 0 where
  pub cache_block_size : ℤ
  pub cache_num_blocks : ℤ

unfoldable pub is_positive : ℤ → Bool
is_positive n = ltb_ℤ (pos 0) n

unfoldable pub get_block_size : Config → List (Option Metrics) → ℤ
unfolding is_positive
get_block_size c [] = c.block_size_tokens
get_block_size c (none ∷ rest) = c.block_size_tokens
get_block_size c (some m ∷ rest) =
    if c.auto_tune && is_positive m.cache_block_size
    then m.cache_block_size
    else c.block_size_tokens

-- The limit that PrepareRequestData passes to hashPrompt, for a block size.
unfoldable pub max_blocks : Config → ℤ → ℤ
max_blocks c (negsuc n) = c.max_prefix_blocks_to_match
max_blocks c (pos n) =
    if ltb 0 c.max_prefix_tokens_to_match && ltb 0 n
    then pos (c.max_prefix_tokens_to_match / n)
    else c.max_prefix_blocks_to_match

abbrev pub default_lru_capacity_per_server : ℤ
default_lru_capacity_per_server = pos 31250

unfoldable pub make_server : Config → ℕ → Metrics → Server
unfolding is_positive
make_server c id m = record {
  server_id = id;
  num_of_gpu_blocks =
      if c.auto_tune && is_positive m.cache_num_blocks
      then m.cache_num_blocks
      else default_lru_capacity_per_server;
}
