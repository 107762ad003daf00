-- ===== src/PrefixCache/Hashing.antt =====
-- pkg/epp/framework/plugins/requestcontrol/dataproducer/approximateprefix/hashing.go: a prompt's block
-- hashes. xxhash is the parameter `sum64`, from the bytes written since the last Reset; the request is
-- given by its model, its cache salt and the bytes of its input, `none` where there are none to read.
pub mod Blocks
use llm_d_inference_schedule.Prelude.{
  ℕ, zero, suc, ◌-◌, ◌*◌, ◌/◌, ◌%◌, ◌^◌, ltb, ◌==◌, if◌then◌else◌, Bool, true, false, Option, none,
  some, List, [], ◌∷◌, ◌++◌, length, take, drop,
}
use llm_d_inference_schedule.Prelude.Int.{ℤ, pos, negsuc}
use llm_d_inference_schedule.Prelude.Outcome.{Run, ok, panic, out_of_fuel, ◌>>=◌}

-- `binary.LittleEndian.PutUint64`, the bytes from the lowest on.
unfoldable pub put_bytes : ℕ → ℕ → List ℕ
put_bytes zero n = []
put_bytes (suc k) n = n % 256 ∷ put_bytes k (n / 256)

unfoldable pub to_bytes : ℕ → List ℕ
to_bytes n = put_bytes 8 n

-- A word as an int of 64 bits, and a product of ints, which wraps.
unfoldable pub to_int : ℕ → ℤ
to_int n = let r = n % 2 ^ 64 in if ltb r (2 ^ 63) then pos r else negsuc (2 ^ 64 - 1 - r)

unfoldable pub int_product : ℤ → ℕ → ℤ
unfolding to_int
int_product (pos a) b = to_int (a * b)
int_product (negsuc a) b = to_int (2 ^ 64 - (suc a * b) % 2 ^ 64)

-- The input, cut where it has more than `m` blocks. A slice to a negative length panics.
unfoldable pub truncate : ℕ → ℤ → List ℕ → Run (List ℕ)
unfolding int_product
truncate size m input = elim (int_product m size) [
  | pos p ↦ ok (if ltb p (length input) then take p input else input)
  | negsuc p ↦ panic
]

module _ (sum64 : List ℕ → ℕ) where
  -- The loop over the full blocks of `size` bytes, and the block that is left over.
  unfoldable pub hash_blocks : ℕ → ℕ → ℕ → List ℕ → Run (List ℕ)
  hash_blocks zero size prev input = out_of_fuel
  hash_blocks (suc fuel) size prev input =
      let hash = sum64 (take size input ++ to_bytes prev) in
      let rest = hash_blocks fuel size hash (drop size input) >>= λ hs. ok (hash ∷ hs) in
      let last = if ltb 0 (length input) then hash ∷ [] else [] in
      if ltb (length input) size then ok last else rest

  -- `userInput[:n]`, with the first hash of the chain.
  unfoldable pub hash_input : List ℕ → List ℕ → ℕ → List ℕ → Run (List ℕ)
  hash_input model salt size input =
      hash_blocks (suc (length input)) size (sum64 (model ++ salt)) input

  -- The part after the checks.
  unfoldable pub hash_limited : List ℕ → List ℕ → ℕ → ℤ → List ℕ → Run (List ℕ)
  unfolding truncate hash_input
  hash_limited model salt size m input = truncate size m input >>= hash_input model salt size

  -- The part after the size of a block in characters.
  unfoldable pub hash_sized : List ℕ → List ℕ → ℤ → ℤ → List ℕ → Run (List ℕ)
  unfolding hash_limited
  hash_sized model salt (negsuc c) m input = ok []
  hash_sized model salt (pos size) m input =
      if size == 0
      then ok []
      else if ltb (length input) size
      then ok []
      else hash_limited model salt size m input

  abbrev pub average_characters_per_token : ℕ
  average_characters_per_token = 4

  unfoldable pub hash_prompt : List ℕ → List ℕ → Option (List ℕ) → ℤ → ℤ → Run (List ℕ)
  unfolding hash_sized int_product
  hash_prompt model salt none block_size_tokens max_prefix_blocks = ok []
  hash_prompt model salt (some input) block_size_tokens max_prefix_blocks =
      hash_sized model salt (int_product block_size_tokens average_characters_per_token)
        max_prefix_blocks input
