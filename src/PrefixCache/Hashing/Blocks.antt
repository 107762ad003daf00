-- ===== src/PrefixCache/Hashing/Blocks.antt =====
-- pkg/epp/framework/plugins/requestcontrol/dataproducer/approximateprefix/hashing.go: how many hashes a
-- prompt has, and that prompts with a common prefix share the hashes of its blocks.
use native.Mathlib.Nat.{mul-le-mul_right, lt_of_mul-lt-mul_right}
use llm_d_inference_schedule.Prelude.{
  Bool-cases, ℕ, zero, suc, ◌+◌, ◌-◌, ◌*◌, ◌%◌, ◌^◌, ◌≤◌, ◌<◌, ◌≡◌, refl, sym, true, false, inl,
  inr, ap, ◌∙◌, ltb, ◌==◌, some, List, [], ◌∷◌, ◌++◌, length, take, drop, length-append,
  length-drop, take-append, drop-append, take-append_more, length-take_min, arith,
}
use llm_d_inference_schedule.Prelude.Int.{ℤ, pos}
use llm_d_inference_schedule.Prelude.Outcome.{ok, Yields, yields, Yields-then, Yields-weaken}
use llm_d_inference_schedule.PrefixCache.Hashing.{
  put_bytes, to_bytes, hash_blocks, hash_input, hash_prompt, truncate, hash_limited, hash_sized,
  int_product, to_int,
}

-- The number that a sequence of bytes stands for, the lowest first.
pub from_bytes : List ℕ → ℕ
from_bytes [] = 0
from_bytes (b ∷ bs) = b + 256 * from_bytes bs

-- The eight bytes that toBytes gives for a block hash, a number below 2^64, stand for it, the lowest first.
pub from_bytes-to_bytes : (n : ℕ) → n < 2 ^ 64 → from_bytes (to_bytes n) ≡ n
unfolding to_bytes from_bytes put_bytes
from_bytes-to_bytes n h = omega (arith, h)

-- A product that fits an int is exact.
int_product-small : (a b : ℕ) → a * b < 2 ^ 63 → int_product (pos a) b ≡ pos (a * b)
unfolding int_product to_int
int_product-small a b h =
    let exact : (a * b) % 2 ^ 64 ≡ a * b = omega (arith, h) in
    let low : ltb (a * b) (2 ^ 63) ≡ true = ground (arith, h) in rw (exact, low) refl

module _ (sum64 : List ℕ → ℕ) (size : ℕ) (positive : 0 < size) where
  -- One hash for each block, and one for what is left over.
  abbrev Covers : List ℕ → List ℕ → Type 0
  Covers input hs = (length hs * size < length input + size) × (length input ≤ length hs * size)

  hash_blocks-Covers :
      (fuel prev : ℕ) (input : List ℕ)
      → length input < fuel
      → Yields (Covers input) (hash_blocks sum64 fuel size prev input)
  unfolding hash_blocks
  hash_blocks-Covers zero prev input h = absurd (omega arith)
  hash_blocks-Covers (suc fuel) prev input h = elim (Bool-cases (ltb (length input) size)) [
    | inl short ↦ rw short (yields (ground arith))
    | inr long ↦
        let n = length-drop size input in
        rw long (
          Yields-then (hash_blocks-Covers fuel _ (drop size input) (ground (arith, n)))
            λ hs holds. yields (ground (arith, n, holds)))
  ]

  -- The first hashes of an input, each from its block and the hash before.
  pub chain : ℕ → ℕ → List ℕ → List ℕ
  chain zero prev input = []
  chain (suc k) prev input =
      let hash = sum64 (take size input ++ to_bytes prev) in hash ∷ chain k hash (drop size input)

  pub length-chain : (k prev : ℕ) (input : List ℕ) → length (chain k prev input) ≡ k
  unfolding chain
  length-chain zero prev input = refl
  length-chain (suc k) prev input = ap suc (length-chain k _ (drop size input))

  hash_blocks-chain :
      (k fuel prev : ℕ) (input : List ℕ)
      → length input < fuel
      → k * size ≤ length input
      → Yields (λ hs. take k hs ≡ chain k prev input) (hash_blocks sum64 fuel size prev input)
  unfolding hash_blocks chain
  hash_blocks-chain zero fuel prev input h enough =
      Yields-weaken (hash_blocks-Covers fuel prev input h) λ hs holds. refl
  hash_blocks-chain (suc k) zero prev input h enough = absurd (omega arith)
  hash_blocks-chain (suc k) (suc fuel) prev input h enough =
      let n = length-drop size input in
      let long : ltb (length input) size ≡ false = ground (arith, enough) in
      rw long (
        Yields-then
          (hash_blocks-chain k fuel _ (drop size input) (omega (arith, n)) (omega (arith, n)))
          λ hs holds. yields (ap (◌∷◌ (sum64 (take size input ++ to_bytes prev))) holds))

  chain-prefix :
      (k prev : ℕ) (a xs ys : List ℕ)
      → length a ≡ k * size
      → chain k prev (a ++ xs) ≡ chain k prev (a ++ ys)
  unfolding chain
  chain-prefix zero prev a xs ys h = refl
  chain-prefix (suc k) prev a xs ys h =
      let n = length-drop size a in
      let long : size ≤ length a = omega arith in
      rw
        (
          take-append size a xs long,
          take-append size a ys long,
          drop-append size a xs long,
          drop-append size a ys long,
        )
        (ap (◌∷◌ (sum64 (take size a ++ to_bytes prev))) (
          chain-prefix k (sum64 (take size a ++ to_bytes prev)) (drop size a) xs ys
            (omega (arith, n))))

  truncate-append :
      (m : ℕ) (a xs : List ℕ)
      → m * size < 2 ^ 63
      → length a ≤ m * size
      → (ys : List ℕ) × (truncate size (pos m) (a ++ xs) ≡ ok (a ++ ys))
  unfolding truncate
  truncate-append m a xs small h = elim (Bool-cases (ltb (m * size) (length (a ++ xs)))) [
    | inl longer ↦ (
      take (m * size - length a) xs,
      rw (truncate, int_product-small m size small, longer)
          (ap ok (take-append_more (m * size) a xs h)),
    )
    | inr fits ↦ (xs, rw (truncate, int_product-small m size small, fits) refl)
  ]

  length-truncate :
      (m : ℕ) (input : List ℕ)
      → m * size < 2 ^ 63
      → Yields (λ cut. length cut ≤ m * size) (truncate size (pos m) input)
  unfolding truncate
  length-truncate m input small =
      rw (truncate, int_product-small m size small)
        (yields (ground (arith, length-take_min (m * size) input)))

module _ (sum64 : List ℕ → ℕ) (model salt : List ℕ) (n : ℕ) (positive : 0 < n) where
  pub four : 0 < n * 4
  four = omega arith

  -- A block in characters, and the limit in characters, are ints of 64 bits.
  abbrev pub HasNoOverflow : ℕ → Type 0
  HasNoOverflow m = (n * 4 < 2 ^ 63) × (m * (n * 4) < 2 ^ 63)

  -- The checks before the hashing only add empty results.
  checked :
      {P : List ℕ → Type 0} (input : List ℕ) (m : ℤ)
      → n * 4 < 2 ^ 63
      → P []
      → Yields P (hash_limited sum64 model salt (n * 4) m input)
      → Yields P (hash_prompt sum64 model salt (some input) (pos n) m)
  unfolding hash_prompt hash_sized
  checked input m small empty after = elim (Bool-cases (n * 4 == 0)) [
    | inl none_left ↦
        rw (hash_prompt, int_product-small n 4 small, hash_sized, none_left) (yields empty)
    | inr sized ↦ elim (Bool-cases (ltb (length input) (n * 4))) [
      | inl short ↦
          rw (hash_prompt, int_product-small n 4 small, hash_sized, sized, short) (yields empty)
      | inr long ↦ rw (hash_prompt, int_product-small n 4 small, hash_sized, sized, long) after
    ]
  ]

  fits : (k m c : ℕ) → k * (n * 4) < c + n * 4 → c ≤ m * (n * 4) → k ≤ m
  fits k m c h b =
      omega (arith, lt_of_mul-lt-mul_right (n * 4) {m = k} {n = suc m} (omega (arith, h, b)))

  -- For a positive block size and a limit on the blocks that is not negative, where a block and the limit have
  -- fewer than 2^63 characters, hashPrompt ends for every input, with at most as many hashes as the limit allows.
  pub hash_prompt-bound :
      (input : List ℕ) (m : ℕ)
      → HasNoOverflow m
      → Yields (λ hs. length hs ≤ m) (hash_prompt sum64 model salt (some input) (pos n) (pos m))
  unfolding hash_limited hash_input
  hash_prompt-bound input m (small, limit) = checked input (pos m) small (omega arith) (
      Yields-then (length-truncate sum64 (n * 4) four m input limit) λ cut bound.
        Yields-weaken (hash_blocks-Covers sum64 (n * 4) four (suc (length cut)) _ cut (omega arith))
          λ hs holds. fits (length hs) m (length cut) holds.0 bound)

  -- The first hashes are those of the common part alone.
  pub chained :
      (k m : ℕ) (a xs : List ℕ)
      → 0 < k
      → k ≤ m
      → HasNoOverflow m
      → length a ≡ k * (n * 4)
      → Yields
          (λ hs. take k hs ≡ chain sum64 (n * 4) four k (sum64 (model ++ salt)) (a ++ []))
          (hash_prompt sum64 model salt (some (a ++ xs)) (pos n) (pos m))
  unfolding hash_limited hash_input hash_prompt hash_sized
  chained k m a xs some_block within (small, limit) size =
      let more : k * (n * 4) ≤ m * (n * 4) = mul-le-mul_right (n * 4) within in
      let one : 1 * (n * 4) ≤ k * (n * 4) = mul-le-mul_right (n * 4) some_block in
      let (zs, cut) = truncate-append sum64 (n * 4) four m a xs limit (omega (arith, more, size)) in
      let total = length-append a xs in
      let sized : (n * 4 == 0) ≡ false = ground arith in
      let long : ltb (length (a ++ xs)) (n * 4) ≡ false = ground (arith, one, total, size) in
      rw (hash_prompt, int_product-small n 4 small, hash_sized, sized, long, hash_limited, cut)
        (Yields-weaken
          (hash_blocks-chain sum64 (n * 4) four k (suc (length (a ++ zs))) (sum64 (model ++ salt))
            (a ++ zs) (omega arith) (omega (arith, length-append a zs)))
          λ hs holds. holds ∙ chain-prefix sum64 (n * 4) four k _ a zs [] size)

  -- Prompts that begin with the same `k` blocks have the same first `k` hashes, whatever follows.
  pub hash_prompt-prefix :
      (k m : ℕ) (a xs ys : List ℕ)
      → 0 < k
      → k ≤ m
      → HasNoOverflow m
      → length a ≡ k * (n * 4)
      → Yields
          (λ hs.
            Yields
              (λ hs'. take k hs' ≡ take k hs)
              (hash_prompt sum64 model salt (some (a ++ ys)) (pos n) (pos m)))
          (hash_prompt sum64 model salt (some (a ++ xs)) (pos n) (pos m))
  hash_prompt-prefix k m a xs ys some_block within fits_int size =
      Yields-weaken (chained k m a xs some_block within fits_int size) λ hs holds.
        Yields-weaken (chained k m a ys some_block within fits_int size) λ hs' holds'.
          holds'
          ∙ chain-prefix sum64 (n * 4) four k (sum64 (model ++ salt)) a [] [] size
          ∙ sym holds
