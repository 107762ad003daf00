-- ===== src/Registry/Config/Partition.antt =====
-- pkg/epp/flowcontrol/registry/config.go: a partition gives out the whole capacity, evenly, and has
-- every band.
use native.Mathlib.Nat.{zero-mod, zero-div, zero-mul, suc-mul, div-add-mod, mod-lt}
use llm_d_inference_schedule.Prelude.{
  ℕ, zero, suc, ◌+◌, ◌*◌, ◌/◌, ◌%◌, ◌≤◌, ◌<◌, ltb, if◌then◌else◌, true, false, none, some, List, [],
  ◌∷◌, ◌≡◌, refl, arith, All, lookup, has_key, is_some, inl, inr, Bool-cases,
}
use llm_d_inference_schedule.Prelude.Int.{ℤ, eq_ℤ, eq_ℤ_iff}
use llm_d_inference_schedule.Registry.Config.{
  PriorityBandConfig, partition_uint64, partition_band, partition_bands,
}

-- The capacity of the first `n` of the shards.
abbrev pub first_parts : ℕ → ℕ → ℕ → ℕ
unfolding partition_uint64
first_parts total shards zero = 0
first_parts total shards (suc n) = first_parts total shards n + partition_uint64 total n shards

-- A band is a band by its own priority, with a fairness policy.
abbrev pub Own : ℤ × PriorityBandConfig → Type 0
Own x = (x.1.priority ≡ x.0) × (is_some x.1.fairness_policy ≡ true)

-- No key stands in the map twice.
abbrev pub Distinct : {V : Type 0} → List (ℤ × V) → Type 0
Distinct [] = Unit
Distinct ((k, v) ∷ m) = (has_key eq_ℤ m k ≡ false) × Distinct m

pub lookup-partition_bands :
    (i n : ℕ) (bands : List (ℤ × PriorityBandConfig)) (p : ℤ)
    → All Own bands
    → lookup eq_ℤ (partition_bands i n bands) p
      ≡ elim (lookup eq_ℤ bands p) [ none ↦ none | some b ↦ some (partition_band i n b) ]
unfolding partition_bands
lookup-partition_bands i n [] p own = refl
lookup-partition_bands i n ((x, b) ∷ bands) p ((same, fair), own) = elim (Bool-cases (eq_ℤ x p)) [
  | inl hit ↦ rw (same, hit) refl
  | inr miss ↦ rw (same, miss) (lookup-partition_bands i n bands p own)
]

-- A configured band is partitioned with its priority and a fairness policy.
lookup-Own :
    (bands : List (ℤ × PriorityBandConfig)) (p : ℤ) (b : PriorityBandConfig)
    → All Own bands
    → lookup eq_ℤ bands p ≡ some b
    → Own (p, b)
lookup-Own [] p b own found = absurd (ground arith)
lookup-Own ((x, c) ∷ bands) p b (here, own) found = elim (Bool-cases (eq_ℤ x p)) [
  | inl hit ↦
      let same : c ≡ b = ground arith in
      (ground (arith, here.0, eq_ℤ_iff x p), ground (arith, here.1))
  | inr miss ↦ lookup-Own bands p b own (ground arith)
]

-- A share is the quotient, and one more for as long as there is a remainder.
share :
    (total i shards : ℕ)
    → partition_uint64 total i shards ≡ total / shards + (if ltb i (total % shards) then 1 else 0)
unfolding partition_uint64
share zero i shards =
    let none_left : zero % shards ≡ 0 = zero-mod shards in
    let none_each : zero / shards ≡ 0 = zero-div shards in rw (none_left, none_each) (ground arith)
share (suc total) i shards = ground arith

first_parts_lem :
    (total shards n : ℕ)
    → first_parts total shards n
      ≡ n * (total / shards) + (if ltb n (total % shards) then n else total % shards)
unfolding first_parts
first_parts_lem total shards zero = ground (arith, zero-mul (total / shards))
first_parts_lem total shards (suc n) =
    ground (arith, suc-mul n (total / shards), first_parts_lem total shards n, share total n shards)

-- The shares of all the shards make up the whole capacity, and each is the quotient or one more.
pub partition_uint64-distributes :
    (total shards : ℕ)
    → 0 < shards
    → (first_parts total shards shards ≡ total)
      × ((i : ℕ)
          → (total / shards ≤ partition_uint64 total i shards)
            × (partition_uint64 total i shards ≤ total / shards + 1))
partition_uint64-distributes total shards positive = (
  ground
      (arith, first_parts_lem total shards shards, div-add-mod total shards, mod-lt total positive),
  λ i. (ground (arith, share total i shards), ground (arith, share total i shards)),
)
