-- ===== src/Queue/MaxMinHeap/Priority.antt =====
-- pkg/epp/flowcontrol/framework/plugins/queue/maxminheap.go: Add, PeekHead and PeekTail under a policy
-- that compares ranks.
use llm_d_inference_schedule.Prelude.{
  ℕ, suc, ◌-◌, ◌/◌, ◌≤◌, ◌<◌, ◌≡◌, ◌⊎◌, sym, ◌==◌, ltb, if◌then◌else◌, Bool, true, false, arith, [],
  ◌∷◌, Option, none, some, get_elem?, get_elem?_total, get_elem?_bound, get_elem?-append,
  length-append, Perm,
}
use llm_d_inference_schedule.Prelude.Outcome.{ok, ◌>>=◌, Yields, yields, Yields-then, Yields-branch}
use llm_d_inference_schedule.Item.{Item}
use llm_d_inference_schedule.Queue.MaxMinHeap.{Heap, len, push, add, peek_head, peek_tail}
use llm_d_inference_schedule.Queue.MaxMinHeap.Order.{IsOrdered, root_first, tail_last}
use llm_d_inference_schedule.Queue.MaxMinHeap.Tracking.{load-ok}
use llm_d_inference_schedule.Queue.MaxMinHeap.Moves.{test-ok}
use llm_d_inference_schedule.Queue.MaxMinHeap.Contents.{
  IsValid, IsAbsent, grow, grow-IsTracked, grown-IsValid,
}
use llm_d_inference_schedule.Queue.MaxMinHeap.Up.{key, InOrder, up_orders}

module _ (rank : Item → ℕ) where
  -- What a peek at the head shows: nothing if the queue is empty, or an item that none precedes.
  abbrev pub IsFirst : Heap → Option Item → Type 0
  IsFirst h none = h.items ≡ []
  IsFirst h (some x) =
      (get_elem? h.items 0 ≡ some x)
      × ((i : ℕ) (y : Item) → get_elem? h.items i ≡ some y → rank x ≤ rank y)

  -- What a peek at the tail shows: nothing if the queue is empty, or an item that precedes no other.
  abbrev pub IsLast : Heap → Option Item → Type 0
  IsLast h none = h.items ≡ []
  IsLast h (some x) =
      ((i : ℕ) × (get_elem? h.items i ≡ some x))
      × ((i : ℕ) (y : Item) → get_elem? h.items i ≡ some y → rank y ≤ rank x)

module _ (rank : Item → ℕ) (less : Item → Item → Bool)
    (ranked : (x y : Item) → less x y ≡ ltb (rank x) (rank y)) where
  grow-IsOrdered :
      (h : Heap) (x : Item) → InOrder rank h → IsOrdered (key rank (grow h x).items) (len h)
  grow-IsOrdered h x s = record {
    parents = λ c lo hi. ground (
      arith,
      s.parents c,
      get_elem?-append h.items (x ∷ []) c,
      get_elem?-append h.items (x ∷ []) ((c - 1) / 2),
    );
    grandparents = λ c lo hi. ground (
      arith,
      s.grandparents c,
      get_elem?-append h.items (x ∷ []) c,
      get_elem?-append h.items (x ∷ []) (((c - 1) / 2 - 1) / 2),
    );
  }

  -- Under a policy that compares ranks, ties included: Add of an item that is not there to a valid heap
  -- in order leaves a valid heap in order that has exactly the item more.
  pub add_orders :
      (h : Heap) (x : Item)
      → IsValid h
      → IsAbsent x h
      → InOrder rank h
      → Yields (λ h'. IsValid h' × InOrder rank h' × Perm h'.items (x ∷ h.items)) (add less h x)
  unfolding add push
  add_orders h x v absent s = rw size (
      Yields-then
        (up_orders rank less ranked (grow h x) (len h) (grow-IsTracked h x v.tracked absent) size'
          (grow-IsOrdered h x s))
        λ h' (m, o). let (w, p) = grown-IsValid h h' x v m in yields (w, o, p))
    where
      size' : len (grow h x) ≡ suc (len h)
      size' = omega (arith, length-append h.items (x ∷ []))

      size : len (grow h x) - 1 ≡ len h
      size = omega (arith, size')

  -- On a heap in order PeekHead shows nothing if the queue is empty, and else an item of the queue that
  -- no other precedes.
  peek_head-IsFirst : (h : Heap) → InOrder rank h → Yields (IsFirst rank h) (peek_head less h)
  unfolding peek_head
  peek_head-IsFirst h s =
      Yields-branch (len h == 0) (λ e. yields (ground arith))
        (λ e.
          let (x, ex) = get_elem?_total h.items 0 (ground arith) in
          rw (load-ok h 0 x ex) (
            yields (
              ex,
              λ i y ey. ground (
                arith,
                ex,
                ey,
                get_elem?_bound h.items i y ey,
                root_first (key rank h.items) (len h) s i (get_elem?_bound h.items i y ey),
              ),
            )))

  tail_at :
      (h : Heap) (j : ℕ) (x : Item)
      → get_elem? h.items j ≡ some x
      → ((i : ℕ) → i < len h → key rank h.items i ≤ key rank h.items j)
      → IsLast rank h (some x)
  tail_at h j x ex all =
      ((j, ex), λ i y ey. ground (arith, ex, ey, all i (get_elem?_bound h.items i y ey)))

  -- On a heap in order PeekTail shows nothing if the queue is empty, and else an item of the queue that
  -- precedes no other.
  peek_tail-IsLast : (h : Heap) → InOrder rank h → Yields (IsLast rank h) (peek_tail less h)
  unfolding peek_tail
  peek_tail-IsLast h s =
      Yields-branch (len h == 0) (λ e. yields (ground arith))
        λ some_item.
          Yields-branch (len h == 1)
            (λ one.
              let (x, ex) = get_elem?_total h.items 0 (ground arith) in
              rw (load-ok h 0 x ex) (yields (tail_at h 0 x ex λ i hi. ground (arith, one, hi))))
            λ not_one.
              Yields-branch (len h == 2)
                (λ two.
                  let (x, ex) = get_elem?_total h.items 1 (ground arith) in
                  rw (load-ok h 1 x ex) (
                    yields (
                      tail_at h 1 x ex λ i hi.
                        ground (arith, two, all i hi, root_first (key rank h.items) (len h) s 1))))
                λ more.
                  let (x, ex) = get_elem?_total h.items 1 (ground arith) in
                  let (y, ey) = get_elem?_total h.items 2 (ground arith) in
                  rw (test-ok less h 1 2 x y ex ey, load-ok h 1 x ex, load-ok h 2 y ey)
                    (children x y ex ey (ground arith) (less x y) (sym (ranked x y)))
    where
      all :
          (i : ℕ)
          → i < len h
          → (i ≡ 0)
            ⊎ (key rank h.items i ≤ key rank h.items 1)
            ⊎ ((2 < len h) × (key rank h.items i ≤ key rank h.items 2))
      all i hi = ground (arith, tail_last (key rank h.items) (len h) s i)

      children :
          (x y : Item)
          → get_elem? h.items 1 ≡ some x
          → get_elem? h.items 2 ≡ some y
          → 2 < len h
          → (b : Bool) → ltb (rank x) (rank y) ≡ b
          → Yields (IsLast rank h) ((if b then ok y else ok x) >>= λ z. ok (some z))
      children x y ex ey three true e = yields (
          tail_at h 2 y ey
            λ i hi. ground (arith, ex, ey, e, all i hi, root_first (key rank h.items) (len h) s 2))
      children x y ex ey three false e = yields (
          tail_at h 1 x ex
            λ i hi. ground (arith, ex, ey, e, all i hi, root_first (key rank h.items) (len h) s 1))

  -- On a heap in order PeekHead shows an item that no other precedes and PeekTail one that precedes no
  -- other, or both nothing if the queue is empty.
  pub peek_ends :
      (h : Heap)
      → InOrder rank h
      → Yields (IsFirst rank h) (peek_head less h) × Yields (IsLast rank h) (peek_tail less h)
  peek_ends h s = (peek_head-IsFirst h s, peek_tail-IsLast h s)
