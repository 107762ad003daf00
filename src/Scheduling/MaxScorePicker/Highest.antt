-- ===== src/Scheduling/MaxScorePicker/Highest.antt =====
-- pkg/epp/framework/plugins/scheduling/picker/maxscore/picker.go: what the picker leaves out does not score
-- higher than what it picks.
use mathlib.Core.List.Perm
use mathlib.Core.List.{Permᴰ}
use mathlib.Core.Logic.{∥∥₁_elim}
use mathlib.Core.Bool.{Bool-set}
use llm_d_inference_schedule.Prelude.{
  Bool-cases, ℕ, zero, suc, ◌≡◌, refl, sym, ap, subst, ◌∙◌, inl, inr, ltb, if◌then◌else◌, Bool,
  true, false, Option, some, List, [], ◌∷◌, ◌++◌, Perm, has, length, take, drop, length-take,
  length-perm, arith,
}
use llm_d_inference_schedule.Prelude.Int.{ℤ, pos, negsuc}
use llm_d_inference_schedule.Scheduling.Profile.{Scores, endpoints_of}
use llm_d_inference_schedule.Scheduling.Profile.Candidates.{IsPicker}
use llm_d_inference_schedule.Scheduling.MaxScorePicker.{SortFunc, highest_first, pick_max_score}
use llm_d_inference_schedule.Ordering.StrictWeak.{IsStrictWeak}

module _ {F : Type 0} (lt : F → F → Bool) where
  -- No entry has a higher score than `x`.
  abbrev pub NoneAbove : F → Scores F → Type 0
  NoneAbove x [] = Unit
  NoneAbove x ((e, y) ∷ m) = (lt x y ≡ false) × NoneAbove x m

  abbrev pub IsDescending : Scores F → Type 0
  IsDescending [] = Unit
  IsDescending ((e, x) ∷ m) = NoneAbove x m × IsDescending m

  -- No entry of the second part has a higher score than one of the first.
  abbrev pub Separated : Scores F → Scores F → Type 0
  Separated [] rest = Unit
  Separated ((e, x) ∷ top) rest = NoneAbove x rest × Separated top rest

  NoneAbove-rest : (x : F) (top rest : Scores F) → NoneAbove x (top ++ rest) → NoneAbove x rest
  NoneAbove-rest x [] rest h = h
  NoneAbove-rest x ((e, y) ∷ top) rest (here, h) = NoneAbove-rest x top rest h

  descending-Separated : (top rest : Scores F) → IsDescending (top ++ rest) → Separated top rest
  descending-Separated [] rest h = tt
  descending-Separated ((e, x) ∷ top) rest (here, h) =
      (NoneAbove-rest x top rest here, descending-Separated top rest h)

  empty-Separated : (top : Scores F) → Separated top []
  empty-Separated [] = tt
  empty-Separated ((e, x) ∷ top) = (tt, empty-Separated top)

abbrev pub is_negative : ℤ → Bool
is_negative (pos n) = false
is_negative (negsuc n) = true

-- No entry of the list goes before `a`.
abbrev pub NoneBefore : {E : Type 0} → (E → E → ℤ) → E → List E → Type 0
NoneBefore cmp a [] = Unit
NoneBefore cmp a (b ∷ m) = (is_negative (cmp b a) ≡ false) × NoneBefore cmp a m

abbrev pub IsAscending : {E : Type 0} → (E → E → ℤ) → List E → Type 0
IsAscending cmp [] = Unit
IsAscending cmp (a ∷ m) = NoneBefore cmp a m × IsAscending cmp m

-- A comparison whose negative results are a strict weak order.
abbrev pub IsComparison : {E : Type 0} → (E → E → ℤ) → Type 0
IsComparison cmp = IsStrictWeak (λ a b. is_negative (cmp a b))

-- What slices.SortStableFunc promises of a comparison that it can sort by.
abbrev pub IsSort : {F : Type 0} → SortFunc F → Type 0
IsSort {F} sort =
    (cmp : ℕ × F → ℕ × F → ℤ)
    → IsComparison cmp
    → (m : Scores F) → Perm (sort cmp m) m × IsAscending cmp (sort cmp m)

module _ {F : Type 0} (lt : F → F → Bool) where
  highest_first-IsComparison : IsStrictWeak lt → IsComparison (highest_first lt)
  unfolding highest_first
  highest_first-IsComparison strict = record {
    irreflexive = λ a. ground (arith, strict.irreflexive a.1);
    transitive = λ a b c ab bc. ground (arith, ab, bc, strict.transitive c.1 b.1 a.1);
    comparable = λ a b c ac. ground (arith, ac, strict.comparable c.1 b.1 a.1);
  }

  ascending-NoneAbove :
      (e : ℕ) (x : F) (m : Scores F) → NoneBefore (highest_first lt) (e, x) m → NoneAbove lt x m
  unfolding highest_first
  ascending-NoneAbove e x [] h = tt
  ascending-NoneAbove e x ((k, y) ∷ m) (here, h) =
      (ground (arith, here), ascending-NoneAbove e x m h)

  ascending-IsDescending : (m : Scores F) → IsAscending (highest_first lt) m → IsDescending lt m
  ascending-IsDescending [] h = tt
  ascending-IsDescending ((e, x) ∷ m) (here, h) =
      (ascending-NoneAbove e x m here, ascending-IsDescending m h)

module _ {A : Type 0} where
  take-drop : (n : ℕ) (xs : List A) → take n xs ++ drop n xs ≡ xs
  take-drop zero xs = refl
  take-drop (suc n) [] = refl
  take-drop (suc n) (x ∷ xs) = ap (◌∷◌ x) (take-drop n xs)

  append_none : (xs : List A) → xs ++ [] ≡ xs
  append_none [] = refl
  append_none (x ∷ xs) = ap (◌∷◌ x) (append_none xs)

module _ {F : Type 0} where
  endpoints_of-permᴰ :
      {m m' : Scores F} → Permᴰ m m' → (e : ℕ) → has (endpoints_of m) e ≡ has (endpoints_of m') e
  endpoints_of-permᴰ Permᴰ.nil e = refl
  endpoints_of-permᴰ (Permᴰ.cons same p) e =
      let here = ap (λ (q : ℕ × F). q.0) same in ground (arith, here, endpoints_of-permᴰ p e)
  endpoints_of-permᴰ (Permᴰ.swap same same') e =
      let here = ap (λ (q : ℕ × F). q.0) same in
      let next = ap (λ (q : ℕ × F). q.0) same' in ground (arith, here, next)
  endpoints_of-permᴰ (Permᴰ.trans p q) e = endpoints_of-permᴰ p e ∙ endpoints_of-permᴰ q e

  has-append_first :
      (top rest : Scores F) (e : ℕ)
      → has (endpoints_of top) e ≡ true
      → has (endpoints_of (top ++ rest)) e ≡ true
  has-append_first [] rest e h = absurd (ground arith)
  has-append_first ((k, x) ∷ top) rest e h = ground (arith, h, has-append_first top rest e)

  pub endpoints_of-perm :
      {m m' : Scores F} → Perm m m' → (e : ℕ) → has (endpoints_of m) e ≡ has (endpoints_of m') e
  endpoints_of-perm p e = ∥∥₁_elim p (Bool-set _ _) (λ q. endpoints_of-permᴰ q e)

module _ {F : Type 0} (lt : F → F → Bool) where
  -- The picked endpoints and the others are together the scored ones, none of the others has a higher score
  -- than a picked one, and as many are picked as the limit allows.
  abbrev pub PicksHighest : ℕ → Scores F → Option (List ℕ) → Type 0
  PicksHighest max scored result =
      (top : Scores F) × (rest : Scores F) × (result ≡ some (endpoints_of top))
      × Perm (top ++ rest) scored
      × Separated lt top rest
      × (length top ≡ (if ltb max (length scored) then max else length scored))

module _ {S F : Type 0} (lt : F → F → Bool) (shuffle : Scores F → Scores F) (sort : SortFunc F)
    (strict : IsStrictWeak lt) (shuffled : (m : Scores F) → Perm (shuffle m) m)
    (sorted : IsSort sort) where
  -- If the scores are in a strict weak order, so that none is a NaN, the shuffle permutes and the sort keeps its
  -- promise: the picked endpoints and the others are together the scored ones, no other has a higher score than a
  -- picked one, and as many are picked as the limit allows.
  pub pick_max_score-PicksHighest :
      (max : ℕ) (s : S) (scored : Scores F)
      → PicksHighest lt max scored (pick_max_score lt shuffle sort max s scored).0
  unfolding pick_max_score
  pick_max_score-PicksHighest max s scored =
      let ranked = sort (highest_first lt) (shuffle scored) in
      let (moves, ascending) =
        sorted (highest_first lt) (highest_first-IsComparison lt strict) (shuffle scored) in
      let descending = ascending-IsDescending lt ranked ascending in
      let all : Perm ranked scored = Perm.trans moves (shuffled scored) in
      let size = length-perm all in
      elim (Bool-cases (ltb max (length ranked))) [
        | inl more ↦
            let parts : take max ranked ++ drop max ranked ≡ ranked = take-drop max ranked in
            (
              take max ranked,
              drop max ranked,
              rw more refl,
              subst (λ m. Perm m scored) (sym parts) all,
              descending-Separated lt (take max ranked) (drop max ranked)
                  (subst (IsDescending lt) (sym parts) descending),
              ground (arith, size, more, length-take max ranked),
            )
        | inr fits ↦ (
          ranked,
          [],
          rw fits refl,
          subst (λ m. Perm m scored) (sym (append_none ranked)) all,
          empty-Separated lt ranked,
          ground (arith, size, fits),
        )
      ]

  pub pick_max_score-IsPicker : (max : ℕ) → IsPicker (pick_max_score {S = S} lt shuffle sort max)
  pick_max_score-IsPicker max s scored targets chosen e target =
      let (top, rest, picked, all, apart, size) = pick_max_score-PicksHighest max s scored in
      let same : some (endpoints_of top) ≡ some targets = sym picked ∙ chosen in
      let named : endpoints_of top ≡ targets = ground (arith, same) in
      sym (endpoints_of-perm all e) ∙ has-append_first top rest e (rw named target)
