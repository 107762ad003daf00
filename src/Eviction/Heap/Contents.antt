-- ===== src/Eviction/Heap/Contents.antt =====
-- pkg/epp/flowcontrol/eviction/queue.go: what heap.Pop and heap.Remove take out.
use llm_d_inference_schedule.Prelude.{
  ℕ, zero, suc, ◌-◌, ◌<◌, ◌≤◌, ltb, ◌==◌, Bool, false, some, List, [], ◌∷◌, ◌≡◌, ◌≢◌, refl, ◌∙◌,
  sym, ap, subst, arith, length, get_elem?, take, get_elem?_bound, get_elem?_total, get_elem?-take,
  length-take,
}
use llm_d_inference_schedule.Prelude.Outcome.{
  Yields, yields, Yields-then, Yields-weaken, Yields-branch,
}
use llm_d_inference_schedule.Eviction.Policies.{EvictionItem}
use llm_d_inference_schedule.Eviction.Heap.{EvictionHeap, set_index, pop_last, pop, fix_at, remove}
use llm_d_inference_schedule.Eviction.Heap.Indices.{
  Stands, IsIndexed, IsShuffled, IsShuffled-refl, IsShuffled-trans, load-ok, swap-moves,
  up-IsShuffled, down-IsShuffled,
}

abbrev pub In : EvictionHeap → ℕ → Type 0
In h a = (i : ℕ) × Stands h i a

-- The entry `e` has been taken out.
pub record IsRemoved (h : EvictionHeap) (e : ℕ) (h' : EvictionHeap) : Type 0 where
  pub sound : IsIndexed h'
  pub was : In h e
  pub rest : (a : ℕ) → In h' a → In h a × (a ≢ e)
  pub others : (a : ℕ) → In h a → a ≢ e → In h' a
  pub items : (a : ℕ) → (h'.cell a).item ≡ (h.cell a).item
  pub addresses : h'.next ≡ h.next
  pub fewer : length h.entries ≡ suc (length h'.entries)

get_elem?-take_bound : (n : ℕ) (xs : List ℕ) (i a : ℕ) → get_elem? (take n xs) i ≡ some a → i < n
get_elem?-take_bound zero xs i a here = absurd (ground arith)
get_elem?-take_bound (suc n) [] i a here = absurd (ground arith)
get_elem?-take_bound (suc n) (x ∷ xs) zero a here = omega arith
get_elem?-take_bound (suc n) (x ∷ xs) (suc i) a here =
    omega (arith, get_elem?-take_bound n xs i a here)

-- The last entry of the heap is taken out.
pop_last-IsRemoved :
    (h : EvictionHeap) (n e : ℕ)
    → length h.entries ≡ suc n
    → Stands h n e
    → IsIndexed h
    → Yields (λ result. (result.1 ≡ e) × IsRemoved h e result.0) (pop_last h)
unfolding pop_last set_index
pop_last-IsRemoved h n e len last s =
    let at_end : length h.entries - 1 ≡ n = omega (arith, len) in
    let below : (i a : ℕ) → get_elem? (take n h.entries) i ≡ some a → Stands h i a × (a ≢ e) =
      λ i a here.
        let low = get_elem?-take_bound n h.entries i a here in
        let there : Stands h i a = sym (get_elem?-take n h.entries i low) ∙ here in
        (
          there,
          λ same. ground (
            arith,
            s.indexed i a there,
            s.indexed n e last,
            ap (λ c. (h.cell c).index) same,
            low,
          ),
        ) in
    rw (at_end, load-ok h n e last)
      (yields (
        refl,
        record {
          sound = record {
            indexed = λ i a here.
                let (there, other) = below i a here in
                let differ : (e == a) ≡ false = ground (arith, λ (same : a ≡ e). other same) in
                rw differ (s.indexed i a there);
            known = λ i a here. s.known i a (below i a here).0;
          };
          was = (n, last);
          rest = λ a (i, here). let (there, other) = below i a here in ((i, there), other);
          others = λ a (i, here) other.
              let bound = get_elem?_bound h.entries i a here in
              let elsewhere : i ≢ n =
                λ same. other (ground (arith, ap (get_elem? h.entries) same, here, last)) in
              (i, get_elem?-take n h.entries i (ground (arith, elsewhere, bound, len)) ∙ here);
          items = λ a. ground arith;
          addresses = refl;
          fewer = len ∙ ap suc (sym (length-take n h.entries (omega (arith, len))));
        },
      ))

-- Taking an entry out of a heap that has been moved about is taking it out of the heap.
IsRemoved-after :
    (n : ℕ) (h h₁ h' : EvictionHeap) (e : ℕ)
    → IsShuffled n h h₁
    → IsRemoved h₁ e h'
    → IsRemoved h e h'
IsRemoved-after n h h₁ h' e s r = record {
  sound = r.sound;
  was = let (i, here) = r.was in s.found i e here;
  rest = λ a inside. let ((i, here), other) = r.rest a inside in (s.found i a here, other);
  others = λ a (i, here) other. r.others a (s.kept i a here) other;
  items = λ a. r.items a ∙ s.items a;
  addresses = r.addresses ∙ s.addresses;
  fewer = sym s.len ∙ r.fewer;
}

IsShuffled-widen : (n m : ℕ) (h h' : EvictionHeap) → n ≤ m → IsShuffled n h h' → IsShuffled m h h'
IsShuffled-widen n m h h' more s = record {
  sound = s.sound;
  len = s.len;
  addresses = s.addresses;
  items = s.items;
  above = λ c low. s.above c (omega (arith, more, low));
  kept = s.kept;
  found = s.found;
}

module _ (less : EvictionItem → EvictionItem → Bool) where
  -- heap.Pop of a heap with an entry takes one entry out.
  pub pop-IsRemoved :
      (h : EvictionHeap)
      → 0 < length h.entries
      → IsIndexed h
      → Yields (λ result. IsRemoved h result.1 result.0) (pop less h)
  unfolding pop
  pop-IsRemoved h some_entry s =
      let n = length h.entries - 1 in
      let (x, hx) = get_elem?_total h.entries 0 some_entry in
      Yields-then
        (swap-moves (suc n) h 0 n x (omega arith) (omega arith) hx (omega (arith, some_entry)) s)
        (λ h₁ (t, last).
          Yields-then
            (down-IsShuffled less (suc n) n h₁ 0 (omega arith) (omega arith) (omega (arith, t.len))
              t.sound)
            (λ (h₂, at) (u, later).
              let moved =
                IsShuffled-trans (suc n) h h₁ h₂ t
                  (IsShuffled-widen n (suc n) h₁ h₂ (omega arith) u) in
              Yields-weaken
                (pop_last-IsRemoved h₂ n x (omega (arith, moved.len, some_entry))
                  (u.above n (omega arith) ∙ last) u.sound)
                (λ (h', e) (same, r). rw same (IsRemoved-after (suc n) h h₂ h' x moved r))))

  fix_at-IsShuffled :
      (h : EvictionHeap) (i n : ℕ)
      → i < n
      → n ≤ length h.entries
      → IsIndexed h
      → Yields (IsShuffled n h) (fix_at less h i n)
  unfolding fix_at
  fix_at-IsShuffled h i n low bound s =
      Yields-then (down-IsShuffled less (suc n) n h i (omega arith) (omega arith) bound s)
        (λ (h₁, at) (t, later).
          Yields-branch (ltb i at) (λ moved. yields t)
            (λ unmoved.
              Yields-weaken
                (up-IsShuffled less (suc i) n h₁ i (omega arith) low
                  (omega (arith, low, bound, t.len)) t.sound)
                (λ h₂ u. IsShuffled-trans n h h₁ h₂ t u)))

  -- heap.Remove of an index takes out the entry that stands there.
  pub remove-IsRemoved :
      (h : EvictionHeap) (i e : ℕ)
      → Stands h i e
      → IsIndexed h
      → Yields (λ result. (result.1 ≡ e) × IsRemoved h e result.0) (remove less h i)
  unfolding remove
  remove-IsRemoved h i e here s =
      let n = length h.entries - 1 in
      let bound = get_elem?_bound h.entries i e here in
      let size : length h.entries ≡ suc n = omega (arith, bound) in
      Yields-then {P = λ h₁. IsShuffled (suc n) h h₁ × Stands h₁ n e}
        (Yields-branch (n == i)
          (λ last.
            yields
              (IsShuffled-refl (suc n) h s, subst (λ c. Stands h c e) (ground (arith, last)) here))
          (λ inner.
            let low : i < n = ground (arith, inner, bound) in
            Yields-then
              (swap-moves (suc n) h i n e (omega (arith, low)) (omega arith) here
                (omega (arith, bound)) s)
              (λ h₁ (t, last).
                Yields-weaken (fix_at-IsShuffled h₁ i n low (omega (arith, t.len)) t.sound) (λ h₂ u.
                  (
                    IsShuffled-trans (suc n) h h₁ h₂ t
                        (IsShuffled-widen n (suc n) h₁ h₂ (omega arith) u),
                    u.above n (omega arith) ∙ last,
                  )))))
        (λ h₁ (t, last).
          Yields-weaken (pop_last-IsRemoved h₁ n e (t.len ∙ size) last t.sound)
            (λ (h', e') (same, r). (same, IsRemoved-after (suc n) h h₁ h' e t r)))
