-- ===== src/Queue/MaxMinHeap/Up.antt =====
-- pkg/epp/flowcontrol/framework/plugins/queue/maxminheap.go: push keeps the heap in order, for a
-- policy that compares ranks.
use mathlib.Core.Path.{fun_ext}
use llm_d_inference_schedule.Prelude.{
  ℕ, zero, suc, ◌<◌, ◌≡◌, ap, subst, ◌∙◌, ◌==◌, leb, ltb, not, if◌then◌else◌, Bool, true, false,
  arith, List, none, some, get_elem?, exchange, get_elem?-exchange, get_elem?_total,
}
use llm_d_inference_schedule.Prelude.Outcome.{
  ◌>>=◌, Yields, yields, Yields-then, Yields-weaken, Yields-branch,
}
use llm_d_inference_schedule.Item.{Item}
use llm_d_inference_schedule.Queue.MaxMinHeap.{
  Heap, len, is_min_level, parent, swap, bubble_up, more, up, up_min, up_max,
}
use llm_d_inference_schedule.Queue.MaxMinHeap.Levels.{level_alternates}
use llm_d_inference_schedule.Queue.MaxMinHeap.Order.{
  Below, IsOrdered, IsRising, traded, traded-IsRising, settled-IsOrdered, shallow-IsOrdered,
  appended-IsRising, lifted-IsRising,
}
use llm_d_inference_schedule.Queue.MaxMinHeap.Tracking.{
  IsTracked, Moved, Moved-refl, Moved-trans, len-Moved, swap_moves,
}
use llm_d_inference_schedule.Queue.MaxMinHeap.Moves.{test-ok}

module _ (rank : Item → ℕ) where
  abbrev pub key : List Item → ℕ → ℕ
  key xs i = elim (get_elem? xs i) [ none ↦ 0 | some x ↦ rank x ]

  -- The ranks in the queue are in order.
  abbrev pub InOrder : Heap → Type 0
  InOrder h = IsOrdered (key h.items) (len h)

  key-exchange :
      (xs : List Item) (i j : ℕ) (x y : Item)
      → get_elem? xs i ≡ some x
      → get_elem? xs j ≡ some y
      → key (exchange xs i j x y) ≡ traded (key xs) i j
  key-exchange xs i j x y hi hj = fun_ext λ c. ground (arith, get_elem?-exchange xs i j x y hi hj c)

  -- `before` is the comparison of ranks on a min level, if `d`, or on a max level.
  abbrev Compares : Bool → (Item → Item → Bool) → Type 0
  Compares d before =
      (x y : Item) → before x y ≡ not (if d then leb (rank x) (rank y) else leb (rank y) (rank x))

  module _ (before : Item → Item → Bool) where
    bubble_orders :
        (f : ℕ) (h : Heap) (i : ℕ)
        → Compares (is_min_level i) before
        → IsTracked h
        → IsRising (key h.items) (len h) i
        → i < len h
        → i < f
        → Yields (λ h'. Moved h h' × InOrder h') (bubble_up before f h i)
    unfolding bubble_up
    bubble_orders zero h i c t s hi hf = absurd (omega arith)
    bubble_orders (suc f) h i c t s hi hf =
        Yields-branch (parent i == 0)
          (λ top. yields (Moved-refl h t, shallow-IsOrdered _ _ i s (ground arith)))
          (λ inner.
            let g = parent (parent i) in
            let deep : 2 < i = ground arith in
            let (x, ex) = get_elem?_total h.items i hi in
            let (y, ey) = get_elem?_total h.items g (omega arith) in
            rw (test-ok before h i g x y ex ey) (
              Yields-branch (before x y)
                (λ out. Yields-then (swap_moves h i g x y t ex ey) λ h' (m, e).
                  let keys = ap key e ∙ key-exchange h.items i g x y ex ey in
                  let rising : IsRising (key h'.items) (len h') g =
                    rw (keys, len-Moved m)
                      (traded-IsRising (key h.items) (len h) i s deep hi
                        (ground (arith, c x y, ex, ey))) in
                  let level : is_min_level i ≡ is_min_level g =
                    ground (arith, level_alternates i, level_alternates (parent i)) in
                  Yields-weaken
                    (bubble_orders f h' g (subst (λ d. Compares d before) level c) m.tracked rising
                      (omega (arith, len-Moved m)) (omega arith))
                    λ h'' q. (Moved-trans m q.0, q.1))
                (λ fine. yields (
                  Moved-refl h t,
                  settled-IsOrdered (key h.items) (len h) i s deep hi
                      (ground (arith, c x y, ex, ey)),
                ))))

  module _ (less : Item → Item → Bool)
      (ranked : (x y : Item) → less x y ≡ ltb (rank x) (rank y)) where
    up_max_orders :
        (h : Heap) (i : ℕ)
        → is_min_level i ≡ false
        → IsTracked h
        → IsRising (key h.items) (len h) i
        → i < len h
        → Yields (λ h'. Moved h h' × InOrder h') (up_max less h i)
    unfolding up_max
    up_max_orders h i level t s hi =
        bubble_orders less (suc i) h i (λ x y. ground (arith, ranked x y)) t s hi (omega arith)

    up_min_orders :
        (h : Heap) (i : ℕ)
        → is_min_level i ≡ true
        → IsTracked h
        → IsRising (key h.items) (len h) i
        → i < len h
        → Yields (λ h'. Moved h h' × InOrder h') (up_min less h i)
    unfolding up_min
    up_min_orders h i level t s hi =
        bubble_orders (more less) (suc i) h i (λ x y. ground (arith, ranked y x)) t s hi
          (omega arith)

    module _ (h : Heap) (n : ℕ) (t : IsTracked h) (size : len h ≡ suc n) (pos : 0 < n)
        (s : IsOrdered (key h.items) n) (x y : Item) (ex : get_elem? h.items n ≡ some x)
        (ey : get_elem? h.items (parent n) ≡ some y) where
      stay : Below (key h.items) (parent n) n → IsRising (key h.items) (len h) n
      stay fine = rw size (appended-IsRising (key h.items) n s pos fine)

      lift :
          (if is_min_level (parent n)
              then leb (key h.items n) (key h.items (parent n))
              else leb (key h.items (parent n)) (key h.items n))
            ≡ false
          → Yields
              (λ h'. Moved h h' × IsRising (key h'.items) (len h') (parent n))
              (swap h n (parent n))
      lift out = Yields-weaken (swap_moves h n (parent n) x y t ex ey) λ h' (m, e).
          let keys = ap key e ∙ key-exchange h.items n (parent n) x y ex ey in
          let rising = lifted-IsRising (key h.items) n s pos out in
          (m, rw (keys, len-Moved m ∙ size) rising)

      place_min :
          is_min_level n ≡ true
          → Yields
              (λ h'. Moved h h' × InOrder h')
              (if less x y
                then (swap h n (parent n) >>= λ h'. up_max less h' (parent n))
                else up_min less h n)
      place_min level =
          Yields-branch (less x y)
            (λ out.
              Yields-then (lift (ground (arith, ranked x y, ex, ey, level_alternates n)))
                λ h' (m, r).
                  Yields-weaken
                    (up_max_orders h' (parent n) (ground (arith, level_alternates n)) m.tracked r
                      (omega (arith, len-Moved m)))
                    λ h'' q. (Moved-trans m q.0, q.1))
            (λ fine.
              up_min_orders h n level t
                (stay (ground (arith, ranked x y, ex, ey, level_alternates n))) (omega arith))

      place_max :
          is_min_level n ≡ false
          → Yields
              (λ h'. Moved h h' × InOrder h')
              (if less y x
                then (swap h n (parent n) >>= λ h'. up_min less h' (parent n))
                else up_max less h n)
      place_max level =
          Yields-branch (less y x)
            (λ out.
              Yields-then (lift (ground (arith, ranked y x, ex, ey, level_alternates n)))
                λ h' (m, r).
                  Yields-weaken
                    (up_min_orders h' (parent n) (ground (arith, level_alternates n)) m.tracked r
                      (omega (arith, len-Moved m)))
                    λ h'' q. (Moved-trans m q.0, q.1))
            (λ fine.
              up_max_orders h n level t
                (stay (ground (arith, ranked y x, ex, ey, level_alternates n))) (omega arith))

    -- An item behind a heap in order is moved to its place.
    pub up_orders :
        (h : Heap) (n : ℕ)
        → IsTracked h
        → len h ≡ suc n
        → IsOrdered (key h.items) n
        → Yields (λ h'. Moved h h' × InOrder h') (up less h n)
    unfolding up
    up_orders h n t size s =
        Yields-branch (n == 0)
          (λ single. yields (
            Moved-refl h t,
            record {
              parents = λ c lo hi. absurd (ground arith);
              grandparents = λ c lo hi. absurd (ground arith);
            },
          ))
          (λ more_than_one.
            let (x, ex) = get_elem?_total h.items n (omega arith) in
            let (y, ey) = get_elem?_total h.items (parent n) (omega arith) in
            Yields-branch (is_min_level n)
              (λ level.
                rw (test-ok less h n (parent n) x y ex ey)
                  (place_min h n t size (ground arith) s x y ex ey level))
              (λ level.
                rw (test-ok less h (parent n) n y x ey ex)
                  (place_max h n t size (ground arith) s x y ex ey level)))
