-- ===== src/Prelude/Maps.antt =====
-- A Go map, or a sync.Map, as an association list under a Boolean equality of the keys. A write to a
-- key that is missing comes last; a removal takes away every entry of the key.
use mathlib.Core.Path.{◌≡◌, refl, ap}
use mathlib.Core.Logic.{◌↔◌, inl, inr}
use mathlib.Core.Bool.{Bool, true, false}
use mathlib.Core.Option.{Option, none, some}
use mathlib.Core.List.{List, [], ◌∷◌}
use native.Mathlib.Omega.{arith}
use llm_d_inference_schedule.Prelude.Tests.{Bool-cases, if◌then◌else◌}

abbrev pub is_some {ℓ} : {A : Type ℓ} → Option A → Bool
is_some none = false
is_some (some a) = true

-- `P` holds of every entry.
abbrev pub All {ℓ κ} : {A : Type ℓ} → (A → Type κ) → List A → Type κ
All P [] = Unit
All P (x ∷ xs) = P x × All P xs

pub All-weaken {ℓ κ μ} :
    {A : Type ℓ} {P : A → Type κ} {Q : A → Type μ} (xs : List A)
    → ((x : A) → P x → Q x)
    → All P xs
    → All Q xs
All-weaken [] widen h = tt
All-weaken (x ∷ xs) widen (p, h) = (widen x p, All-weaken xs widen h)

pub All-zip {ℓ κ μ ν} :
    {A : Type ℓ} {P : A → Type κ} {Q : A → Type μ} {R : A → Type ν} (xs : List A)
    → ((x : A) → P x → Q x → R x)
    → All P xs
    → All Q xs
    → All R xs
All-zip [] join h h' = tt
All-zip (x ∷ xs) join (p, h) (q, h') = (join x p q, All-zip xs join h h')

module _ {ℓ κ} {K : Type ℓ} {V : Type κ} (eq : K → K → Bool) where
  abbrev pub lookup : List (K × V) → K → Option V
  lookup [] k = none
  lookup ((x, v) ∷ m) k = let rest = lookup m k in if eq x k then some v else rest

  abbrev pub has_key : List (K × V) → K → Bool
  has_key m k = is_some (lookup m k)

  abbrev pub put : List (K × V) → K → V → List (K × V)
  put [] k v = (k, v) ∷ []
  put ((x, w) ∷ m) k v = let rest = put m k v in if eq x k then (k, v) ∷ m else (x, w) ∷ rest

  abbrev pub delete : List (K × V) → K → List (K × V)
  delete [] k = []
  delete ((x, w) ∷ m) k = let rest = delete m k in if eq x k then rest else (x, w) ∷ rest

  -- A method called on the value under a key, if there is one.
  abbrev pub adjust : List (K × V) → K → (V → V) → List (K × V)
  adjust [] k f = []
  adjust ((x, w) ∷ m) k f = (x, if eq x k then f w else w) ∷ adjust m k f

  module _ (eq_iff : (a b : K) → (eq a b ≡ true) ↔ (a ≡ b)) where
    pub lookup-put :
        (m : List (K × V)) (k : K) (v : V) (j : K)
        → lookup (put m k v) j ≡ (if eq k j then some v else lookup m j)
    lookup-put [] k v j = refl
    lookup-put ((x, w) ∷ m) k v j = elim (Bool-cases (eq x k)) [
      | inl same ↦ ground (arith, same, eq_iff x k)
      | inr other ↦ ground (arith, other, lookup-put m k v j, eq_iff x j, eq_iff k j, eq_iff x k)
    ]

    pub lookup-delete :
        (m : List (K × V)) (k j : K) → lookup (delete m k) j ≡ (if eq k j then none else lookup m j)
    lookup-delete [] k j = ground arith
    lookup-delete ((x, w) ∷ m) k j = elim (Bool-cases (eq x k)) [
      | inl same ↦ ground (arith, same, lookup-delete m k j, eq_iff x k)
      | inr other ↦ ground (arith, other, lookup-delete m k j, eq_iff x j, eq_iff k j, eq_iff x k)
    ]

    pub lookup-adjust :
        (m : List (K × V)) (k : K) (f : V → V) (j : K)
        → lookup (adjust m k f) j
          ≡ (if eq k j then elim (lookup m j) [ none ↦ none | some v ↦ some (f v) ] else lookup m j)
    lookup-adjust [] k f j = ground arith
    lookup-adjust ((x, w) ∷ m) k f j = elim (Bool-cases (eq x k)) [
      | inl same ↦ ground (arith, same, lookup-adjust m k f j, eq_iff x k)
      | inr other ↦ ground (arith, other, lookup-adjust m k f j, eq_iff x j, eq_iff k j, eq_iff x k)
    ]

    -- What holds of every key that a lookup finds holds of every key of the list.
    pub All-keys {μ} :
        (Q : K → Type μ) (m : List (K × V))
        → ((k : K) → has_key m k ≡ true → Q k)
        → All (λ x. Q x.0) m
    All-keys Q [] h = tt
    All-keys Q ((x, v) ∷ m) h =
        (h x (ground (arith, eq_iff x x)), All-keys Q m (λ k found. h k (ground arith)))

    -- A value under a new key, changed and removed, leaves the map as it was.
    pub delete-adjust-put :
        (m : List (K × V)) (k : K) (v : V) (f : V → V)
        → has_key m k ≡ false
        → delete (adjust (put m k v) k f) k ≡ m
    delete-adjust-put [] k v f new = ground (arith, eq_iff k k)
    delete-adjust-put ((x, w) ∷ m) k v f new =
        let other : eq x k ≡ false = ground arith in
        rw (other, other) (ap (◌∷◌ (x, w)) (delete-adjust-put m k v f (ground arith)))

  pub All-put {μ} :
      (P : K × V → Type μ) (m : List (K × V)) (k : K) (v : V)
      → P (k, v)
      → All P m
      → All P (put m k v)
  All-put P [] k v here h = (here, tt)
  All-put P ((x, w) ∷ m) k v here (first, rest) = elim (Bool-cases (eq x k)) [
    | inl hit ↦ rw hit (here, rest)
    | inr miss ↦ rw miss (first, All-put P m k v here rest)
  ]

  pub All-delete {μ} :
      (P : K × V → Type μ) (m : List (K × V)) (k : K) → All P m → All P (delete m k)
  All-delete P [] k h = tt
  All-delete P ((x, w) ∷ m) k (first, rest) = elim (Bool-cases (eq x k)) [
    | inl hit ↦ rw hit (All-delete P m k rest)
    | inr miss ↦ rw miss (first, All-delete P m k rest)
  ]

  pub All-adjust {μ ν} :
      (P : K × V → Type μ) (Q : K × V → Type ν) (m : List (K × V)) (k : K) (f : V → V)
      → ((x : K) (v : V) → eq x k ≡ true → P (x, v) → Q (x, f v))
      → ((x : K) (v : V) → eq x k ≡ false → P (x, v) → Q (x, v))
      → All P m
      → All Q (adjust m k f)
  All-adjust P Q [] k f hit miss h = tt
  All-adjust P Q ((x, v) ∷ m) k f hit miss (first, rest) = (
    elim (Bool-cases (eq x k)) [
      | inl same ↦ rw same (hit x v same first)
      | inr other ↦ rw other (miss x v other first)
    ],
    All-adjust P Q m k f hit miss rest,
  )

  pub has_key-adjust :
      (m : List (K × V)) (k : K) (f : V → V) (j : K) → has_key (adjust m k f) j ≡ has_key m j
  has_key-adjust [] k f j = refl
  has_key-adjust ((x, v) ∷ m) k f j = ground (arith, has_key-adjust m k f j)
