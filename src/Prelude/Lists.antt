-- ===== src/Prelude/Lists.antt =====
-- Lists measured and indexed by native numbers, under the library's names.
use Prim.Native.Nat.{ℕ, zero, suc, ◌+◌, ◌-◌, ◌≤◌, ◌<◌}
use mathlib.Core.Path.{◌≡◌, refl, ap, ◌∙◌}
use mathlib.Core.List.{List, [], ◌∷◌, ◌++◌, Perm, Permᴰ}
use mathlib.Core.List.Perm
use mathlib.Core.Logic.{∥∥₁_elim, ◌⊎◌, inl, inr}
use mathlib.Core.Bool.{Bool, false, ◌||◌, ◌&&◌}
use mathlib.Core.Option.{Option, none, some}
use native.Mathlib.Omega.{arith}
use native.Mathlib.Nat.{ℕ_set}
use llm_d_inference_schedule.Prelude.Tests.{Bool-cases, ◌==◌, if◌then◌else◌}

module _ {ℓ} {A : Type ℓ} where
  abbrev pub length : List A → ℕ
  length [] = 0
  length (x ∷ xs) = suc (length xs)

  abbrev pub get_elem? : List A → ℕ → Option A
  get_elem? [] i = none
  get_elem? (x ∷ xs) zero = some x
  get_elem? (x ∷ xs) (suc i) = get_elem? xs i

  -- A write out of bounds changes nothing.
  abbrev pub set : List A → ℕ → A → List A
  set [] i v = []
  set (x ∷ xs) zero v = v ∷ xs
  set (x ∷ xs) (suc i) v = x ∷ set xs i v

  abbrev pub take : ℕ → List A → List A
  take zero xs = []
  take (suc n) [] = []
  take (suc n) (x ∷ xs) = x ∷ take n xs

  abbrev pub drop : ℕ → List A → List A
  drop zero xs = xs
  drop (suc n) [] = []
  drop (suc n) (x ∷ xs) = drop n xs

  -- The items that a test accepts, in order.
  abbrev pub keep : (A → Bool) → List A → List A
  keep p [] = []
  keep p (x ∷ xs) = if p x then x ∷ keep p xs else keep p xs

-- A list of numbers as a set.
abbrev pub has : List ℕ → ℕ → Bool
has [] p = false
has (x ∷ xs) p = x == p || has xs p

-- How often a number stands in a list.
abbrev pub count : ℕ → List ℕ → ℕ
count v [] = 0
count v (x ∷ xs) = (if x == v then 1 else 0) + count v xs

-- No number stands in the list twice.
abbrev pub Nodup : List ℕ → Type 0
Nodup [] = Unit
Nodup (x ∷ xs) = (has xs x ≡ false) × Nodup xs

pub has-append : (xs ys : List ℕ) (v : ℕ) → has (xs ++ ys) v ≡ (has xs v || has ys v)
has-append [] ys v = refl
has-append (x ∷ xs) ys v = ground (arith, has-append xs ys v)

pub Nodup-append_last : (xs : List ℕ) (y : ℕ) → Nodup xs → has xs y ≡ false → Nodup (xs ++ y ∷ [])
Nodup-append_last [] y distinct out = (refl, tt)
Nodup-append_last (x ∷ xs) y (fresh, distinct) out = (
  ground (arith, has-append xs (y ∷ []) x, fresh, out),
  Nodup-append_last xs y distinct (ground (arith, out)),
)

pub has-keep : (p : ℕ → Bool) (xs : List ℕ) (v : ℕ) → has (keep p xs) v ≡ (has xs v && p v)
has-keep p [] v = refl
has-keep p (x ∷ xs) v = elim (Bool-cases (x == v)) [
  | inl here ↦
      let same : x ≡ v = ground arith in
      let again : p x ≡ p v = ap p same in ground (arith, here, again, has-keep p xs v)
  | inr later ↦ ground (arith, later, has-keep p xs v)
]

pub Nodup-keep : (p : ℕ → Bool) (xs : List ℕ) → Nodup xs → Nodup (keep p xs)
Nodup-keep p [] h = tt
Nodup-keep p (x ∷ xs) (fresh, h) = elim (Bool-cases (p x)) [
  | inl kept ↦
      let still : has (keep p xs) x ≡ false = ground (arith, has-keep p xs x, fresh) in
      rw kept (still, Nodup-keep p xs h)
  | inr dropped ↦ rw dropped (Nodup-keep p xs h)
]

module _ {ℓ} {A : Type ℓ} where
  pub List-cases : (xs : List A) → (xs ≡ []) ⊎ ((x : A) × (rest : List A) × (xs ≡ x ∷ rest))
  List-cases [] = inl refl
  List-cases (x ∷ rest) = inr (x, rest, refl)

  pub length-append : (xs ys : List A) → length (xs ++ ys) ≡ length xs + length ys
  length-append [] ys = omega arith
  length-append (x ∷ xs) ys = omega (arith, length-append xs ys)

  pub length-set : (xs : List A) (i : ℕ) (v : A) → length (set xs i v) ≡ length xs
  length-set [] i v = refl
  length-set (x ∷ xs) zero v = refl
  length-set (x ∷ xs) (suc i) v = ap suc (length-set xs i v)

  pub get_elem?_total : (xs : List A) (i : ℕ) → i < length xs → (x : A) × (get_elem? xs i ≡ some x)
  get_elem?_total [] i h = absurd (omega arith)
  get_elem?_total (x ∷ xs) zero h = (x, refl)
  get_elem?_total (x ∷ xs) (suc i) h = get_elem?_total xs i (omega arith)

  pub get_elem?_bound : (xs : List A) (i : ℕ) (x : A) → get_elem? xs i ≡ some x → i < length xs
  get_elem?_bound [] i x h = ground arith
  get_elem?_bound (y ∷ xs) zero x h = omega arith
  get_elem?_bound (y ∷ xs) (suc i) x h = omega (arith, get_elem?_bound xs i x h)

  pub get_elem?-set :
      (xs : List A) (i j : ℕ) (v : A)
      → i < length xs
      → get_elem? (set xs i v) j ≡ (if i == j then some v else get_elem? xs j)
  get_elem?-set [] i j v h = absurd (omega arith)
  get_elem?-set (x ∷ xs) zero zero v h = refl
  get_elem?-set (x ∷ xs) (suc i) (suc j) v h = ground (arith, get_elem?-set xs i j v)
  get_elem?-set (x ∷ xs) i j v h = ground arith

  pub get_elem?-append :
      (xs ys : List A) (i : ℕ) → i < length xs → get_elem? (xs ++ ys) i ≡ get_elem? xs i
  get_elem?-append [] ys i h = absurd (omega arith)
  get_elem?-append (x ∷ xs) ys zero h = refl
  get_elem?-append (x ∷ xs) ys (suc i) h = get_elem?-append xs ys i (omega arith)

  pub get_elem?-append_last : (xs : List A) (y : A) → get_elem? (xs ++ y ∷ []) (length xs) ≡ some y
  get_elem?-append_last [] y = refl
  get_elem?-append_last (x ∷ xs) y = get_elem?-append_last xs y

  pub get_elem?-take :
      (n : ℕ) (xs : List A) (i : ℕ) → i < n → get_elem? (take n xs) i ≡ get_elem? xs i
  get_elem?-take zero xs i h = absurd (omega arith)
  get_elem?-take (suc n) [] i h = refl
  get_elem?-take (suc n) (x ∷ xs) zero h = refl
  get_elem?-take (suc n) (x ∷ xs) (suc i) h = get_elem?-take n xs i (omega arith)

  pub length-take : (n : ℕ) (xs : List A) → n ≤ length xs → length (take n xs) ≡ n
  length-take zero xs h = refl
  length-take (suc n) [] h = absurd (omega arith)
  length-take (suc n) (x ∷ xs) h = ap suc (length-take n xs (omega arith))

  pub length-drop : (n : ℕ) (xs : List A) → length (drop n xs) ≡ length xs - n
  length-drop zero xs = omega arith
  length-drop (suc n) [] = omega arith
  length-drop (suc n) (x ∷ xs) = omega (arith, length-drop n xs)

  pub length-take_min : (n : ℕ) (xs : List A) → length (take n xs) ≤ n
  length-take_min zero xs = omega arith
  length-take_min (suc n) [] = omega arith
  length-take_min (suc n) (x ∷ xs) = omega (arith, length-take_min n xs)

  pub take-append : (n : ℕ) (xs ys : List A) → n ≤ length xs → take n (xs ++ ys) ≡ take n xs
  take-append zero xs ys h = refl
  take-append (suc n) [] ys h = absurd (omega arith)
  take-append (suc n) (x ∷ xs) ys h = ap (◌∷◌ x) (take-append n xs ys (omega arith))

  pub drop-append : (n : ℕ) (xs ys : List A) → n ≤ length xs → drop n (xs ++ ys) ≡ drop n xs ++ ys
  drop-append zero xs ys h = refl
  drop-append (suc n) [] ys h = absurd (omega arith)
  drop-append (suc n) (x ∷ xs) ys h = drop-append n xs ys (omega arith)

  -- A longer part of a list starts with a shorter one.
  pub take-append_more :
      (n : ℕ) (xs ys : List A) → length xs ≤ n → take n (xs ++ ys) ≡ xs ++ take (n - length xs) ys
  take-append_more n [] ys h = let same : n - 0 ≡ n = omega arith in rw same refl
  take-append_more zero (x ∷ xs) ys h = absurd (omega arith)
  take-append_more (suc n) (x ∷ xs) ys h =
      let same : suc n - suc (length xs) ≡ n - length xs = omega arith in
      rw same (ap (◌∷◌ x) (take-append_more n xs ys (omega arith)))

  -- A list is its part before the last entry, and that entry.
  pub take-append_last :
      (n : ℕ) (xs : List A) (x : A)
      → length xs ≡ suc n
      → get_elem? xs n ≡ some x
      → take n xs ++ x ∷ [] ≡ xs
  take-append_last zero (y ∷ []) x h e = ground arith
  take-append_last zero [] x h e = absurd (omega arith)
  take-append_last zero (y ∷ z ∷ xs) x h e = absurd (omega arith)
  take-append_last (suc n) [] x h e = absurd (omega arith)
  take-append_last (suc n) (y ∷ xs) x h e = ap (◌∷◌ y) (take-append_last n xs x (omega arith) e)

  -- A rearrangement has as many entries.
  same_length : {before after : List A} → Permᴰ before after → length after ≡ length before
  same_length (Permᴰ.trans first second) = omega (arith, same_length first, same_length second)
  same_length (Permᴰ.swap e e') = omega arith
  same_length (Permᴰ.cons e rest) = omega (arith, same_length rest)
  same_length Permᴰ.nil = omega arith

  pub length-perm : {xs ys : List A} → Perm xs ys → length xs ≡ length ys
  length-perm {xs} {ys} same =
      ∥∥₁_elim same (ℕ_set (length xs) (length ys)) (λ moves. omega (arith, same_length moves))

  -- Writing `v` over the entry `x` trades `x` for `v`.
  pub set-perm :
      (xs : List A) (i : ℕ) (x v : A) → get_elem? xs i ≡ some x → Perm (x ∷ set xs i v) (v ∷ xs)
  set-perm [] i x v e = absurd (ground arith)
  set-perm (y ∷ xs) zero x v e = let same : y ≡ x = ground arith in rw same (Perm.swap v x xs)
  set-perm (y ∷ xs) (suc i) x v e =
      Perm.trans (Perm.swap y x (set xs i v))
        (Perm.trans (Perm.cons y (set-perm xs i x v e)) (Perm.swap v y xs))

module _ {ℓ} {A : Type ℓ} (xs : List A) (i j : ℕ) (x y : A) where
  -- Two entries traded.
  abbrev pub exchange : List A
  exchange = set (set xs i y) j x

  module _ (hi : get_elem? xs i ≡ some x) (hj : get_elem? xs j ≡ some y) where
    pub get_elem?-exchange :
        (c : ℕ)
        → get_elem? exchange c
          ≡ (if j == c then some x else if i == c then some y else get_elem? xs c)
    get_elem?-exchange c =
        let bi = get_elem?_bound xs i x hi in
        let bj = get_elem?_bound xs j y hj in
        get_elem?-set (set xs i y) j c x (omega (arith, length-set xs i y))
        ∙ ap (λ o. if j == c then some x else o) (get_elem?-set xs i c y bi)

    pub exchange-perm : Perm exchange xs
    exchange-perm =
        let bi = get_elem?_bound xs i x hi in
        let there : get_elem? (set xs i y) j ≡ some y = ground (arith, get_elem?-set xs i j y) in
        Perm.cons_inv (Perm.trans (set-perm (set xs i y) j y x there) (set-perm xs i x y hi))
