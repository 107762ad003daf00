-- ===== src/Registry/Shard/Levels.antt =====
-- pkg/epp/flowcontrol/registry/shard.go: the priority levels stay sorted, the highest first, and
-- without repetition.
use llm_d_inference_schedule.Prelude.{
  Bool, true, false, ◌||◌, ◌&&◌, not, List, [], ◌∷◌, ◌++◌, ◌≡◌, refl, arith, All, inl, inr,
  Bool-cases, All-weaken,
}
use llm_d_inference_schedule.Prelude.Int.{ℤ, pos, negsuc, eq_ℤ, eq_ℤ_iff, ltb_ℤ}
use llm_d_inference_schedule.Registry.Shard.{insert_level, sort_levels, remove_level}

abbrev pub has_level : List ℤ → ℤ → Bool
has_level [] p = false
has_level (x ∷ levels) p = eq_ℤ x p || has_level levels p

abbrev pub Descending : List ℤ → Type 0
Descending [] = Unit
Descending (p ∷ levels) = All (λ q. ltb_ℤ q p ≡ true) levels × Descending levels

ltb_ℤ-total : (a b : ℤ) → eq_ℤ a b ≡ false → ltb_ℤ a b ≡ false → ltb_ℤ b a ≡ true
ltb_ℤ-total (pos m) (pos n) differ above = ground arith
ltb_ℤ-total (pos m) (negsuc n) differ above = ground arith
ltb_ℤ-total (negsuc m) (pos n) differ above = ground arith
ltb_ℤ-total (negsuc m) (negsuc n) differ above = ground arith

has-insert_level :
    (p : ℤ) (levels : List ℤ) (q : ℤ)
    → has_level (insert_level p levels) q ≡ (eq_ℤ p q || has_level levels q)
unfolding insert_level
has-insert_level p [] q = refl
has-insert_level p (x ∷ levels) q = elim (Bool-cases (ltb_ℤ p x)) [
  | inl below ↦ ground (arith, below, has-insert_level p levels q)
  | inr above ↦ ground (arith, above)
]

All-insert_level :
    (P : ℤ → Type 0) (p : ℤ) (levels : List ℤ) → P p → All P levels → All P (insert_level p levels)
unfolding insert_level
All-insert_level P p [] here rest = (here, tt)
All-insert_level P p (x ∷ levels) here (first, rest) = elim (Bool-cases (ltb_ℤ p x)) [
  | inl below ↦ rw below (first, All-insert_level _ p levels here rest)
  | inr above ↦ rw above (here, (first, rest))
]

insert_level-Descending :
    (p : ℤ) (levels : List ℤ)
    → has_level levels p ≡ false
    → Descending levels
    → Descending (insert_level p levels)
unfolding insert_level
insert_level-Descending p [] fresh sorted = (tt, tt)
insert_level-Descending p (x ∷ levels) fresh (below_x, sorted) = elim (Bool-cases (ltb_ℤ p x)) [
  | inl below ↦ rw below (
    All-insert_level _ p levels below below_x,
    insert_level-Descending p levels (ground arith) sorted,
  )
  | inr above ↦
      let differ : eq_ℤ p x ≡ false = ground (arith, eq_ℤ_iff p x, eq_ℤ_iff x p) in
      let first : ltb_ℤ x p ≡ true = ltb_ℤ-total p x differ above in
      rw above ((first, All-weaken levels (λ q h. ground arith) below_x), (below_x, sorted))
]

has-sort_levels : (levels : List ℤ) (q : ℤ) → has_level (sort_levels levels) q ≡ has_level levels q
unfolding sort_levels
has-sort_levels [] q = refl
has-sort_levels (p ∷ levels) q =
    ground (arith, has-insert_level p (sort_levels levels) q, has-sort_levels levels q)

has-append_level :
    (levels : List ℤ) (p q : ℤ) → has_level (levels ++ p ∷ []) q ≡ (has_level levels q || eq_ℤ p q)
has-append_level [] p q = ground arith
has-append_level (x ∷ levels) p q = ground (arith, has-append_level levels p q)

below_distinct :
    (p : ℤ) (levels : List ℤ) → All (λ q. ltb_ℤ q p ≡ true) levels → has_level levels p ≡ false
below_distinct p [] h = refl
below_distinct p (x ∷ levels) (first, rest) =
    ground (arith, below_distinct p levels rest, eq_ℤ_iff x p)

-- A level that is new joins at its place.
pub sort_levels-Descending :
    (levels : List ℤ) (p : ℤ)
    → Descending levels
    → has_level levels p ≡ false
    → Descending (sort_levels (levels ++ p ∷ []))
unfolding sort_levels
sort_levels-Descending [] p sorted fresh = insert_level-Descending p [] refl tt
sort_levels-Descending (x ∷ levels) p (below_x, sorted) fresh =
    insert_level-Descending x (sort_levels (levels ++ p ∷ []))
      (ground (
        arith,
        has-sort_levels (levels ++ p ∷ []) x,
        has-append_level levels p x,
        below_distinct x levels below_x,
        eq_ℤ_iff x p,
        eq_ℤ_iff p x,
        fresh,
      ))
      (sort_levels-Descending levels p sorted (ground arith))

pub has-sort_levels_append :
    (levels : List ℤ) (p q : ℤ)
    → has_level (sort_levels (levels ++ p ∷ [])) q ≡ (has_level levels q || eq_ℤ p q)
has-sort_levels_append levels p q =
    ground (arith, has-sort_levels (levels ++ p ∷ []) q, has-append_level levels p q)

All-remove_level :
    (P : ℤ → Type 0) (levels : List ℤ) (p : ℤ) → All P levels → All P (remove_level levels p)
unfolding remove_level
All-remove_level P [] p h = tt
All-remove_level P (x ∷ levels) p (first, rest) = elim (Bool-cases (eq_ℤ x p)) [
  | inl here ↦ rw here rest
  | inr later ↦ rw later (first, All-remove_level _ levels p rest)
]

pub remove_level-Descending :
    (levels : List ℤ) (p : ℤ) → Descending levels → Descending (remove_level levels p)
unfolding remove_level
remove_level-Descending [] p sorted = tt
remove_level-Descending (x ∷ levels) p (below_x, sorted) = elim (Bool-cases (eq_ℤ x p)) [
  | inl here ↦ rw here sorted
  | inr later ↦
      rw later (All-remove_level _ levels p below_x, remove_level-Descending levels p sorted)
]

pub has-remove_level :
    (levels : List ℤ) (p q : ℤ)
    → Descending levels
    → has_level (remove_level levels p) q ≡ (has_level levels q && not (eq_ℤ p q))
unfolding remove_level
has-remove_level [] p q sorted = refl
has-remove_level (x ∷ levels) p q (below_x, sorted) = elim (Bool-cases (eq_ℤ x p)) [
  | inl here ↦
      ground
        (arith, here, below_distinct x levels below_x, eq_ℤ_iff x p, eq_ℤ_iff p q, eq_ℤ_iff x q)
  | inr later ↦
      ground
        (arith, later, has-remove_level levels p q sorted, eq_ℤ_iff x p, eq_ℤ_iff x q, eq_ℤ_iff p q)
]
