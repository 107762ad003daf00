-- ===== src/Eviction/Queue/Popping.antt =====
-- pkg/epp/flowcontrol/eviction/queue.go: PopN.
use text.Mathlib.Text.{◌==◌ as str_eq}
use text.Mathlib.TextEquality.{eq_iff}
use Prim.Native.String.{String}
use llm_d_inference_schedule.Prelude.{
  if◌then◌else◌, ◌||◌, [], ◌∷◌, ℕ, zero, suc, ◌+◌, ◌≤◌, ◌==◌, Bool, true, false, none, some, List,
  ◌≡◌, refl, ◌∙◌, sym, ap, arith, inl, inr, ◌⊎◌, Bool-cases, length, lookup, delete, lookup-delete,
  All, All-weaken,
}
use llm_d_inference_schedule.Prelude.Int.{pos}
use llm_d_inference_schedule.Prelude.Outcome.{Yields, yields, Yields-then, Yields-branch}
use llm_d_inference_schedule.Eviction.Policies.{EvictionItem}
use llm_d_inference_schedule.Eviction.Heap.{EvictionHeap}
use llm_d_inference_schedule.Eviction.Heap.Contents.{IsRemoved, pop-IsRemoved}
use llm_d_inference_schedule.Eviction.Queue.{EvictionQueue, pop_each, pop_n}
use llm_d_inference_schedule.Eviction.Queue.Handles.{id_of, removed-IsHandled}
use llm_d_inference_schedule.Eviction.Queue.Tracking.{IsTracked}

module _ (accept : EvictionItem → Bool) (less : EvictionItem → EvictionItem → Bool) where
  -- One of the items has this ID.
  abbrev pub names : List EvictionItem → String → Bool
  names [] j = false
  names (item ∷ items) j = str_eq item.request_id j || names items j

  -- No two of the items have the same ID.
  abbrev pub AreDistinct : List EvictionItem → Type 0
  AreDistinct [] = Unit
  AreDistinct (item ∷ items) = (names items item.request_id ≡ false) × AreDistinct items

  -- The items that PopN returns: as many as asked for, or all of the heap, each once; each was in flight and
  -- accepted. They are in flight no more, and every other request is as it was.
  pub record IsPopped (n : ℕ) (q : EvictionQueue) (items : List EvictionItem) (q' : EvictionQueue)
      : Type 0 where
    pub tracked : IsTracked accept q'
    pub many :
        (length items + length q'.heap.entries ≡ length q.heap.entries)
        × ((length items ≡ n) ⊎ (length q'.heap.entries ≡ 0))
        × (length items ≤ n)
    pub evicted :
        All
          (λ item.
            (lookup str_eq q.all_in_flight item.request_id ≡ some item) × (accept item ≡ true))
          items
    pub distinct : AreDistinct items
    pub fewer :
        (j : String)
        → lookup str_eq q'.all_in_flight j
          ≡ (if names items j then none else lookup str_eq q.all_in_flight j)

  -- One entry leaves the heap, with its request.
  popped-IsTracked :
      (q : EvictionQueue) (h : EvictionHeap) (e : ℕ)
      → IsTracked accept q
      → IsRemoved q.heap e h
      → IsTracked accept (record q {
        heap = h;
        handles = delete str_eq q.handles (id_of q.heap e);
        all_in_flight = delete str_eq q.all_in_flight (id_of q.heap e);
      })
  popped-IsTracked q h e s r =
      let id = id_of q.heap e in
      let gone = λ (j : String). lookup-delete str_eq eq_iff q.all_in_flight id j in
      let handles = removed-IsHandled q.heap h q.handles e s.handles r in
      record {
        handles = handles;
        flying = λ a inside.
            let (was, other) = r.rest a inside in
            let same = r.items a in
            let (found, accepted) = s.flying a was in
            let differ : str_eq id (id_of q.heap a) ≡ false =
              elim (Bool-cases (str_eq id (id_of q.heap a))) [
                | inl equal ↦ absurd (
                    other (
                      ground (
                        arith,
                        s.handles.handled a was,
                        s.handles.handled e r.was,
                        ap (lookup str_eq q.handles) ((eq_iff id (id_of q.heap a)).0 equal),
                      )))
                | inr different ↦ different
              ] in
            (
              ap (λ x. lookup str_eq (delete str_eq q.all_in_flight id) x.request_id) same
                  ∙ gone (id_of q.heap a)
                  ∙ rw differ (found ∙ ap some (sym same)),
              ap accept same ∙ accepted,
            );
        named = λ j item found. s.named j item (ground (arith, gone j, found));
        evictable = λ j item found accepted.
            let before : lookup str_eq q.all_in_flight j ≡ some item =
              ground (arith, gone j, found) in
            ground (
              arith,
              gone j,
              found,
              lookup-delete str_eq eq_iff q.handles id j,
              s.evictable j item before accepted,
            );
      }

  -- What is in flight no more names none of the items that are.
  names-absent :
      (q : EvictionQueue) (j : String) (items : List EvictionItem)
      → lookup str_eq q.all_in_flight j ≡ none
      → All
          (λ item.
            (lookup str_eq q.all_in_flight item.request_id ≡ some item) × (accept item ≡ true))
          items
      → names items j ≡ false
  names-absent q j [] out all = refl
  names-absent q j (item ∷ items) out ((found, accepted), all) =
      elim (Bool-cases (str_eq item.request_id j)) [
        | inl same ↦
            let e = ap (lookup str_eq q.all_in_flight) ((eq_iff item.request_id j).0 same) in
            absurd (ground (arith, out, found, e))
        | inr other ↦ ground (arith, other, names-absent q j items out all)
      ]

  -- One item and then what the rest of the loop takes out.
  IsPopped-suc :
      (n : ℕ) (q : EvictionQueue) (h : EvictionHeap) (e : ℕ) (items : List EvictionItem)
      (q' : EvictionQueue)
      → IsTracked accept q
      → IsRemoved q.heap e h
      → IsPopped n
          (record q {
            heap = h;
            handles = delete str_eq q.handles (id_of q.heap e);
            all_in_flight = delete str_eq q.all_in_flight (id_of q.heap e);
          })
          items
          q'
      → IsPopped (suc n) q ((q.heap.cell e).item ∷ items) q'
  IsPopped-suc n q h e items q' s r p =
      let id = id_of q.heap e in
      let rest : EvictionQueue = record q {
        heap = h;
        handles = delete str_eq q.handles id;
        all_in_flight = delete str_eq q.all_in_flight id;
      } in
      let gone = λ (j : String). lookup-delete str_eq eq_iff q.all_in_flight id j in
      record {
        tracked = p.tracked;
        many = (
          omega (arith, p.many.0, r.fewer),
          elim p.many.1 [ inl all_asked ↦ inl (ap suc all_asked) | inr none_left ↦ inr none_left ],
          omega (arith, p.many.2),
        );
        evicted = (
          s.flying e r.was,
          All-weaken items
              (λ item (found, accepted). (ground (arith, gone item.request_id, found), accepted))
              p.evicted,
        );
        distinct = (
          names-absent rest id items (ground (arith, gone id, eq_iff id id)) p.evicted,
          p.distinct,
        );
        fewer = λ j. ground (arith, p.fewer j, gone j);
      }

  pop_each-IsPopped :
      (n : ℕ) (q : EvictionQueue)
      → IsTracked accept q
      → Yields (λ result. IsPopped n q result.0 result.1) (pop_each less n q)
  unfolding pop_each
  pop_each-IsPopped zero q s = yields (record {
    tracked = s;
    many = (omega arith, inl refl, omega arith);
    evicted = tt;
    distinct = tt;
    fewer = λ j. refl;
  })
  pop_each-IsPopped (suc n) q s =
      Yields-branch (length q.heap.entries == 0)
        (λ empty. yields (record {
          tracked = s;
          many = (omega arith, inr (ground (arith, empty)), omega arith);
          evicted = tt;
          distinct = tt;
          fewer = λ j. refl;
        }))
        (λ full.
          Yields-then (pop-IsRemoved less q.heap (ground (arith, full)) s.handles.sound)
            (λ (h, e) r.
              let same : (h.cell e).item ≡ (q.heap.cell e).item = r.items e in
              rw same (
                Yields-then (pop_each-IsPopped n _ (popped-IsTracked q h e s r))
                  (λ (items, q') p. yields (IsPopped-suc n q h e items q' s r p)))))

  -- For a number that is not negative PopN ends, and returns as many items as asked for, or all of the heap, each
  -- of them once, accepted and in flight before. Exactly these leave the requests in flight, and the heap is that
  -- of the accepted ones of the others.
  pub pop_n-IsPopped :
      (n : ℕ) (q : EvictionQueue)
      → IsTracked accept q
      → Yields (λ result. IsPopped n q result.0 result.1) (pop_n less (pos n) q)
  unfolding pop_n
  pop_n-IsPopped n q s = pop_each-IsPopped n q s
