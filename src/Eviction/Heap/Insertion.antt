-- ===== src/Eviction/Heap/Insertion.antt =====
-- pkg/epp/flowcontrol/eviction/queue.go: what heap.Push puts in.
use llm_d_inference_schedule.Prelude.{
  ℕ, suc, ◌<◌, ◌==◌, Bool, [], ◌∷◌, ◌++◌, ◌≡◌, ◌≢◌, refl, ◌∙◌, sym, ap, arith, inl, inr, ◌⊎◌,
  Bool-cases, length, get_elem?, update, get_elem?_bound, get_elem?-append, get_elem?-append_last,
  length-append,
}
use llm_d_inference_schedule.Prelude.Int.{pos}
use llm_d_inference_schedule.Prelude.Outcome.{Yields, yields, Yields-then}
use llm_d_inference_schedule.Eviction.Policies.{EvictionItem}
use llm_d_inference_schedule.Eviction.Heap.{EvictionHeap, push}
use llm_d_inference_schedule.Eviction.Heap.Indices.{Stands, IsIndexed, up-IsShuffled}
use llm_d_inference_schedule.Eviction.Heap.Contents.{In}

-- A new entry `a`, for `item`, has been put in.
pub record IsPushed (h : EvictionHeap) (item : EvictionItem) (a : ℕ) (h' : EvictionHeap)
    : Type 0 where
  pub sound : IsIndexed h'
  pub fresh : a ≡ h.next
  pub inside : In h' a
  pub others : (b : ℕ) → In h b → In h' b
  pub rest : (b : ℕ) → In h' b → (b ≡ a) ⊎ In h b
  pub its_item : (h'.cell a).item ≡ item
  pub items : (b : ℕ) → b ≢ a → (h'.cell b).item ≡ (h.cell b).item

-- The heap with the new entry at its end, before it moves up.
abbrev appended : EvictionHeap → EvictionItem → EvictionHeap
appended h item = record {
  entries = h.entries ++ h.next ∷ [];
  cell = update h.cell h.next (record { item = item; index = pos (length h.entries) });
  next = suc h.next;
}

module _ (h : EvictionHeap) (item : EvictionItem) where
  length-appended : length (appended h item).entries ≡ suc (length h.entries)
  length-appended = length-append h.entries (h.next ∷ []) ∙ omega arith

  -- The entries before it stand where they stood.
  appended-before : (i b : ℕ) → Stands h i b → Stands (appended h item) i b
  appended-before i b here =
      get_elem?-append h.entries (h.next ∷ []) i (get_elem?_bound h.entries i b here) ∙ here

  appended-last : Stands (appended h item) (length h.entries) h.next
  appended-last = get_elem?-append_last h.entries h.next

  appended-cases :
      (i b : ℕ)
      → Stands (appended h item) i b
      → ((b ≡ h.next) × (i ≡ length h.entries)) ⊎ Stands h i b
  appended-cases i b here = elim (Bool-cases (i == length h.entries)) [
    | inl at_end ↦
        let same : i ≡ length h.entries = ground (arith, at_end) in
        inl
          (ground (arith, appended-last, here, ap (get_elem? (appended h item).entries) same), same)
    | inr earlier ↦
        let bound = get_elem?_bound (appended h item).entries i b here in
        let low : i < length h.entries = ground (arith, earlier, bound, length-appended) in
        inr (sym (get_elem?-append h.entries (h.next ∷ []) i low) ∙ here)
  ]

  appended-IsIndexed : IsIndexed h → IsIndexed (appended h item)
  appended-IsIndexed s = record {
    indexed = λ i b here. elim (appended-cases i b here) [
      | inl (same, at_end) ↦ ground (arith, same, at_end)
      | inr there ↦ ground (arith, s.indexed i b there, s.known i b there)
    ];
    known = λ i b here. elim (appended-cases i b here) [
      | inl (same, at_end) ↦ omega (arith, same)
      | inr there ↦ omega (arith, s.known i b there)
    ];
  }

-- heap.Push puts one entry in.
pub push-IsPushed :
    (less : EvictionItem → EvictionItem → Bool) (h : EvictionHeap) (item : EvictionItem)
    → IsIndexed h
    → Yields (λ result. IsPushed h item result.1 result.0) (push less h item)
unfolding push
push-IsPushed less h item s =
    let n = length h.entries in
    Yields-then
      (up-IsShuffled less (suc n) (suc n) (appended h item) n (omega arith) (omega arith)
        (omega (arith, length-appended h item)) (appended-IsIndexed h item s))
      (λ h' t. yields (record {
        sound = t.sound;
        fresh = refl;
        inside = t.kept n h.next (appended-last h item);
        others = λ b (i, here). t.kept i b (appended-before h item i b here);
        rest = λ b (i, here).
            let (j, there) = t.found i b here in
            elim (appended-cases h item j b there) [
              | inl (same, at_end) ↦ inl same
              | inr old ↦ inr (j, old)
            ];
        its_item = t.items h.next ∙ ground arith;
        items = λ b other. t.items b ∙ ground (arith, other);
      }))
