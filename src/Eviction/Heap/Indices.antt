-- ===== src/Eviction/Heap/Indices.antt =====
-- pkg/epp/flowcontrol/eviction/queue.go: every entry of the heap knows its index, whatever the order of
-- the items is.
use llm_d_inference_schedule.Prelude.{
  ℕ, zero, suc, ◌+◌, ◌-◌, ◌*◌, ◌/◌, ◌<◌, ◌≤◌, ltb, ◌==◌, if◌then◌else◌, Bool, some, ◌≡◌, refl, ◌∙◌,
  arith, inl, inr, Bool-cases, length, get_elem?, set, exchange, get_elem?-exchange,
  get_elem?_total, length-set,
}
use llm_d_inference_schedule.Prelude.Int.{pos}
use llm_d_inference_schedule.Prelude.Outcome.{
  ok, Yields, yields, Yields-then, Yields-weaken, Yields-branch,
}
use llm_d_inference_schedule.Eviction.Policies.{EvictionItem}
use llm_d_inference_schedule.Eviction.Heap.{
  EvictionHeap, load, set_index, swap, less_at, up, child, down,
}

abbrev pub Stands : EvictionHeap → ℕ → ℕ → Type 0
Stands h i a = get_elem? h.entries i ≡ some a

-- Every entry has its index, and an address that was given out.
pub record IsIndexed (h : EvictionHeap) : Type 0 where
  pub indexed : (i a : ℕ) → Stands h i a → (h.cell a).index ≡ pos i
  pub known : (i a : ℕ) → Stands h i a → a < h.next

-- The entries below `n` have been moved about.
pub record IsShuffled (n : ℕ) (h h' : EvictionHeap) : Type 0 where
  pub sound : IsIndexed h'
  pub len : length h'.entries ≡ length h.entries
  pub addresses : h'.next ≡ h.next
  pub items : (a : ℕ) → (h'.cell a).item ≡ (h.cell a).item
  pub above : (c : ℕ) → n ≤ c → get_elem? h'.entries c ≡ get_elem? h.entries c
  pub kept : (i a : ℕ) → Stands h i a → (j : ℕ) × Stands h' j a
  pub found : (i a : ℕ) → Stands h' i a → (j : ℕ) × Stands h j a

pub IsShuffled-refl : (n : ℕ) (h : EvictionHeap) → IsIndexed h → IsShuffled n h h
IsShuffled-refl n h s = record {
  sound = s;
  len = refl;
  addresses = refl;
  items = λ a. refl;
  above = λ c low. refl;
  kept = λ i a here. (i, here);
  found = λ i a here. (i, here);
}

pub IsShuffled-trans :
    (n : ℕ) (h h₁ h₂ : EvictionHeap) → IsShuffled n h h₁ → IsShuffled n h₁ h₂ → IsShuffled n h h₂
IsShuffled-trans n h h₁ h₂ s t = record {
  sound = t.sound;
  len = t.len ∙ s.len;
  addresses = t.addresses ∙ s.addresses;
  items = λ a. t.items a ∙ s.items a;
  above = λ c low. t.above c low ∙ s.above c low;
  kept = λ i a here. let (j, there) = s.kept i a here in t.kept j a there;
  found = λ i a here. let (j, there) = t.found i a here in s.found j a there;
}

pub load-ok : (h : EvictionHeap) (i a : ℕ) → Stands h i a → load h i ≡ ok a
unfolding load
load-ok h i a here = rw here refl

module _ (h : EvictionHeap) (i j x y : ℕ) (s : IsIndexed h) (hi : Stands h i x)
    (hj : Stands h j y) where
  -- The heap with two entries exchanged.
  abbrev pub swapped : EvictionHeap
  swapped =
      set_index (set_index (record h { entries = exchange h.entries i j x y }) y (pos i)) x (pos j)

  at :
      (c : ℕ)
      → get_elem? swapped.entries c
        ≡ (if j == c then some x else if i == c then some y else get_elem? h.entries c)
  unfolding set_index
  at = get_elem?-exchange h.entries i j x y hi hj

  index_at : (c a : ℕ) → Stands swapped c a → (swapped.cell a).index ≡ pos c
  unfolding set_index
  index_at c a here = ground (arith, at c, here, s.indexed i x hi, s.indexed j y hj, s.indexed c a)

  swapped-IsShuffled : (n : ℕ) → i < n → j < n → IsShuffled n h swapped
  unfolding set_index
  swapped-IsShuffled n low_i low_j = record {
    sound = record {
      indexed = index_at;
      known = λ c a here. ground (arith, at c, here, s.known i x hi, s.known j y hj, s.known c a);
    };
    len = length-set (set h.entries i y) j x ∙ length-set h.entries i y;
    addresses = refl;
    items = λ a. ground arith;
    above = λ c low. ground (arith, at c);
    kept = λ c a here. elim (Bool-cases (j == c)) [
      | inl second ↦ (i, ground (arith, at i, second, here, hj, hi))
      | inr not_second ↦ elim (Bool-cases (i == c)) [
        | inl first ↦ (j, ground (arith, at j, first, here, hi))
        | inr other ↦ (c, ground (arith, at c, not_second, other, here))
      ]
    ];
    found = λ c a here. elim (Bool-cases (j == c)) [
      | inl second ↦ (i, ground (arith, at c, second, here, hi))
      | inr not_second ↦ elim (Bool-cases (i == c)) [
        | inl first ↦ (j, ground (arith, at c, not_second, first, here, hj))
        | inr other ↦ (c, ground (arith, at c, not_second, other, here))
      ]
    ];
  }

pub swap-moves :
    (n : ℕ) (h : EvictionHeap) (i j x : ℕ)
    → i < n
    → j < n
    → Stands h i x
    → j < length h.entries
    → IsIndexed h
    → Yields (λ h'. IsShuffled n h h' × Stands h' j x) (swap h i j)
unfolding swap
swap-moves n h i j x low_i low_j hi bj s =
    let (y, hj) = get_elem?_total h.entries j bj in
    rw (load-ok h j y hj, load-ok h i x hi)
      (yields (
        swapped-IsShuffled h i j x y s hi hj n low_i low_j,
        ground (arith, at h i j x y s hi hj j),
      ))

swap-IsShuffled :
    (n : ℕ) (h : EvictionHeap) (i j : ℕ)
    → i < n
    → j < n
    → i < length h.entries
    → j < length h.entries
    → IsIndexed h
    → Yields (IsShuffled n h) (swap h i j)
swap-IsShuffled n h i j low_i low_j bi bj s =
    let (x, hi) = get_elem?_total h.entries i bi in
    Yields-weaken (swap-moves n h i j x low_i low_j hi bj s) (λ h' moved. moved.0)

module _ (less : EvictionItem → EvictionItem → Bool) where
  less_at-Yields :
      (h : EvictionHeap) (i j : ℕ)
      → i < length h.entries
      → j < length h.entries
      → Yields (λ (_ : Bool). Unit {0}) (less_at less h i j)
  unfolding less_at
  less_at-Yields h i j bi bj =
      let (x, hi) = get_elem?_total h.entries i bi in
      let (y, hj) = get_elem?_total h.entries j bj in
      rw (load-ok h i x hi, load-ok h j y hj) (yields tt)

  pub up-IsShuffled :
      (fuel n : ℕ) (h : EvictionHeap) (j : ℕ)
      → j < fuel
      → j < n
      → j < length h.entries
      → IsIndexed h
      → Yields (IsShuffled n h) (up less fuel h j)
  unfolding up
  up-IsShuffled zero n h j enough low bound s = absurd (omega arith)
  up-IsShuffled (suc fuel) n h j enough low bound s =
      let i = (j - 1) / 2 in
      Yields-branch (i == j) (λ root. yields (IsShuffled-refl n h s))
        (λ inner.
          let above : i < j = ground (arith, inner) in
          Yields-then (less_at-Yields h j i bound (omega (arith, above, bound))) (λ before _.
            Yields-branch before
              (λ rises.
                Yields-then
                  (swap-IsShuffled n h i j (omega (arith, above, low)) low
                    (omega (arith, above, bound)) bound s)
                  (λ h₁ t.
                    Yields-weaken
                      (up-IsShuffled fuel n h₁ i (omega (arith, above, enough))
                        (omega (arith, above, low)) (omega (arith, above, bound, t.len)) t.sound)
                      (λ h₂ u. IsShuffled-trans n h h₁ h₂ t u)))
              (λ stays. yields (IsShuffled-refl n h s))))

  child-Yields :
      (h : EvictionHeap) (j₁ n : ℕ)
      → j₁ < n
      → n ≤ length h.entries
      → Yields (λ j. (j₁ ≤ j) × (j < n)) (child less h j₁ n)
  unfolding child
  child-Yields h j₁ n low bound =
      Yields-branch (ltb (j₁ + 1) n)
        (λ two.
          let right : j₁ + 1 < n = ground (arith, two) in
          Yields-then
            (less_at-Yields h (j₁ + 1) j₁ (omega (arith, right, bound)) (omega (arith, low, bound)))
            (λ before _. elim (Bool-cases before) [
              | inl second ↦ rw second (yields (omega arith, right))
              | inr first ↦ rw first (yields (omega arith, low))
            ]))
        (λ one. yields (omega arith, low))

  pub down-IsShuffled :
      (fuel n : ℕ) (h : EvictionHeap) (i : ℕ)
      → 0 < fuel
      → n < fuel + i
      → n ≤ length h.entries
      → IsIndexed h
      → Yields (λ result. IsShuffled n h result.0 × (i ≤ result.1)) (down less fuel h i n)
  unfolding down
  down-IsShuffled zero n h i some_fuel enough bound s = absurd (omega arith)
  down-IsShuffled (suc fuel) n h i some_fuel enough bound s =
      Yields-branch (ltb (2 * i + 1) n)
        (λ inner.
          let low : 2 * i + 1 < n = ground (arith, inner) in
          Yields-then (child-Yields h (2 * i + 1) n low bound) (λ j (above, below).
            Yields-then
              (less_at-Yields h j i (omega (arith, below, bound)) (omega (arith, low, bound)))
              (λ before _.
                Yields-branch before
                  (λ sinks.
                    Yields-then
                      (swap-IsShuffled n h i j (omega (arith, low)) below
                        (omega (arith, low, bound)) (omega (arith, below, bound)) s)
                      (λ h₁ t.
                        Yields-weaken
                          (down-IsShuffled fuel n h₁ j (omega (arith, enough, above, below))
                            (omega (arith, enough, above)) (omega (arith, bound, t.len)) t.sound)
                          (λ (h₂, at') (u, later).
                            (IsShuffled-trans n h h₁ h₂ t u, omega (arith, later, above)))))
                  (λ stays. yields (IsShuffled-refl n h s, omega arith)))))
        (λ leaf. yields (IsShuffled-refl n h s, omega arith))
