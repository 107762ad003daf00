-- ===== src/Queue/MaxMinHeap/Moves.antt =====
-- pkg/epp/flowcontrol/framework/plugins/queue/maxminheap.go: the loops only exchange positions that
-- exist, and end.
use llm_d_inference_schedule.Prelude.{
  ℕ, zero, suc, ◌+◌, ◌*◌, ◌≤◌, ◌<◌, ◌≡◌, ◌==◌, ltb, leb, if◌then◌else◌, Bool, true, false, Option,
  none, some, arith, get_elem?, get_elem?_total,
}
use llm_d_inference_schedule.Prelude.Outcome.{
  Run, ok, ◌>>=◌, Yields, yields, Yields-then, Yields-weaken, Yields-branch,
}
use llm_d_inference_schedule.Item.{Item}
use llm_d_inference_schedule.Queue.MaxMinHeap.{
  Heap, len, swap, test, parent, scan, find_extreme, settle, trickle_down, down, down_min, down_max,
  more, bubble_up, up, up_min, up_max, is_min_level,
}
use llm_d_inference_schedule.Queue.MaxMinHeap.Tracking.{
  IsTracked, Moved, Moved-refl, Moved-trans, len-Moved, load-ok, swap_moves,
}

module _ (before : Item → Item → Bool) (h : Heap) where
  pub test-ok :
      (i j : ℕ) (x y : Item)
      → get_elem? h.items i ≡ some x
      → get_elem? h.items j ≡ some y
      → test before h i j ≡ ok (before x y)
  unfolding test
  test-ok i j x y hi hj = rw (load-ok h i x hi, load-ok h j y hj)

  test_returns : (i j : ℕ) → i < len h → j < len h → (b : Bool) × (test before h i j ≡ ok b)
  test_returns i j hi hj =
      let (x, ex) = get_elem?_total h.items i hi in
      let (y, ey) = get_elem?_total h.items j hj in (before x y, test-ok i j x y ex ey)

  pub swap-Yields : (i j : ℕ) → IsTracked h → i < len h → j < len h → Yields (Moved h) (swap h i j)
  swap-Yields i j t hi hj =
      let (x, ex) = get_elem?_total h.items i hi in
      let (y, ey) = get_elem?_total h.items j hj in
      Yields-weaken (swap_moves h i j x y t ex ey) (λ h' p. p.0)

  scan_bounds :
      (k j m low : ℕ)
      → low ≤ j
      → low ≤ m
      → m < len h
      → Yields (λ m'. (low ≤ m') × (m' < len h)) (scan before k h j m)
  unfolding scan
  scan_bounds zero j m low hj hm hl = yields (hm, hl)
  scan_bounds (suc k) j m low hj hm hl =
      Yields-branch (ltb j (len h))
        (λ inside.
          let (b, e) = test_returns j m (ground arith) hl in
          rw e (
            scan_bounds k (suc j) (if b then j else m) low (omega arith) (ground arith)
              (ground arith)))
        (λ _. yields (hm, hl))

  abbrev Within : ℕ → Option ℕ → Type 0
  Within i none = len h ≤ 2 * i + 1
  Within i (some m) = (i < m) × (m < len h)

  right_child :
      (i : ℕ)
      → 2 * i + 1 < len h
      → Yields
          (λ b. b ≡ true → 2 * i + 2 < len h)
          (if ltb (2 * i + 2) (len h) then test before h (2 * i + 2) (2 * i + 1) else ok false)
  right_child i hl =
      Yields-branch (ltb (2 * i + 2) (len h))
        (λ inside.
          let (b, e) = test_returns (2 * i + 2) (2 * i + 1) (ground arith) hl in
          rw e (yields (λ _. ground arith)))
        (λ _. yields (λ e. cc))

  find_bounds : (i : ℕ) → Yields (Within i) (find_extreme before h i)
  unfolding find_extreme
  find_bounds i =
      Yields-branch (leb (len h) (2 * i + 1)) (λ leaf. yields (ground arith))
        (λ inner. Yields-then (right_child i (ground arith)) λ b hb.
          Yields-then
            (scan_bounds 4 (2 * (2 * i + 1) + 1) (if b then 2 * i + 2 else 2 * i + 1) (2 * i + 1)
              (omega arith) (ground arith) (ground arith))
            λ m p. yields (omega arith, omega arith))

module _ (before : Item → Item → Bool) where
  settle_moves :
      (h : Heap) (i m : ℕ)
      → IsTracked h
      → i < m
      → m < len h
      → Yields (Moved h) (settle before h i m)
  unfolding settle
  settle_moves h i m t hi hm =
      Yields-branch (parent m == i) (λ _. yields (Moved-refl h t))
        (λ _.
          let (b, e) = test_returns before h (parent m) m (omega arith) hm in
          rw e (
            Yields-branch b (λ _. swap-Yields before h m (parent m) t hm (omega arith))
              (λ _. yields (Moved-refl h t))))

  -- One round of the loop, for any continuation that only moves items.
  module _ (h : Heap) (i : ℕ) (t : IsTracked h) (rest : Heap → ℕ → Run Heap)
      (ih : (h' : Heap) (m : ℕ)
        → IsTracked h'
        → len h' ≡ len h
        → i < m
        → m < len h
        → Yields (Moved h') (rest h' m)) where
    sink_moves :
        (m : ℕ)
        → i < m
        → m < len h
        → (b : Bool)
        → Yields (Moved h) (elim b [
          | true ↦ swap h i m >>= λ h'. settle before h' i m >>= λ h''. rest h'' m
          | false ↦ ok h
        ])
    sink_moves m hi hm true = Yields-then (swap-Yields before h i m t (omega arith) hm) λ h' p.
        Yields-then (settle_moves h' i m p.tracked hi (omega (arith, len-Moved p))) λ h'' q.
          Yields-weaken (ih h'' m q.tracked (omega (arith, len-Moved p, len-Moved q)) hi hm)
            λ h₃ r. Moved-trans p (Moved-trans q r)
    sink_moves m hi hm false = yields (Moved-refl h t)

    round_moves :
        (o : Option ℕ)
        → Within before h i o
        → Yields (Moved h) (elim o [
          | none ↦ ok h
          | some m ↦ test before h m i >>= λ b. elim b [
            | true ↦ swap h i m >>= λ h'. settle before h' i m >>= λ h''. rest h'' m
            | false ↦ ok h
          ]
        ])
    round_moves none w = yields (Moved-refl h t)
    round_moves (some m) w =
        let (b, e) = test_returns before h m i w.1 (omega arith) in rw e (sink_moves m w.0 w.1 b)

  pub trickle_moves :
      (f : ℕ) (h : Heap) (i : ℕ)
      → IsTracked h
      → 0 < f
      → len h < i + f
      → Yields (Moved h) (trickle_down before f h i)
  unfolding trickle_down
  trickle_moves zero h i t some_fuel enough = absurd (omega arith)
  trickle_moves (suc f) h i t some_fuel enough = Yields-then (find_bounds before h i) (
      round_moves h i t (λ h' m. trickle_down before f h' m)
        λ h' m t' e hi hm. trickle_moves f h' m t' (omega arith) (omega arith))

  pub bubble_moves :
      (f : ℕ) (h : Heap) (i : ℕ)
      → IsTracked h
      → i < len h
      → i < f
      → Yields (Moved h) (bubble_up before f h i)
  unfolding bubble_up
  bubble_moves zero h i t hi hf = absurd (omega arith)
  bubble_moves (suc f) h i t hi hf =
      Yields-branch (parent i == 0) (λ _. yields (Moved-refl h t))
        (λ inner.
          let (b, e) = test_returns before h i (parent (parent i)) hi (omega arith) in
          rw e (
            Yields-branch b
              (λ _.
                Yields-then (swap-Yields before h i (parent (parent i)) t hi (omega arith)) λ h' m.
                  Yields-weaken
                    (bubble_moves f h' (parent (parent i)) m.tracked (omega (arith, len-Moved m))
                      (ground arith))
                    λ h'' n. Moved-trans m n)
              (λ _. yields (Moved-refl h t))))

module _ (less : Item → Item → Bool) where
  pub down_moves : (h : Heap) (i : ℕ) → IsTracked h → Yields (Moved h) (down less h i)
  unfolding down down_min down_max
  down_moves h i t =
      Yields-branch (is_min_level i)
        (λ _. trickle_moves (more less) (suc (len h)) h i t (omega arith) (omega arith))
        (λ _. trickle_moves less (suc (len h)) h i t (omega arith) (omega arith))

  pub up_moves : (h : Heap) (i : ℕ) → IsTracked h → i < len h → Yields (Moved h) (up less h i)
  unfolding up up_min up_max
  up_moves h i t hi =
      Yields-branch (i == 0) (λ _. yields (Moved-refl h t))
        (λ _.
          Yields-branch (is_min_level i)
            (λ _.
              let (b, e) = test_returns less h i (parent i) hi (omega arith) in
              rw e (
                Yields-branch b
                  (λ _. above (λ h'. bubble_moves less (suc (parent i)) h' (parent i)))
                  (λ _. bubble_moves (more less) (suc i) h i t hi (omega arith))))
            (λ _.
              let (b, e) = test_returns less h (parent i) i (omega arith) hi in
              rw e (
                Yields-branch b
                  (λ _. above (λ h'. bubble_moves (more less) (suc (parent i)) h' (parent i)))
                  (λ _. bubble_moves less (suc i) h i t hi (omega arith)))))
    where
      above :
          {next : Heap → Run Heap}
          → ((h' : Heap)
              → IsTracked h'
              → parent i < len h'
              → parent i < suc (parent i)
              → Yields (Moved h') (next h'))
          → Yields (Moved h) (swap h i (parent i) >>= next)
      above then_moves = Yields-then (swap-Yields less h i (parent i) t hi (omega arith)) λ h' m.
          Yields-weaken (then_moves h' m.tracked (omega (arith, len-Moved m)) (omega arith))
            λ h'' n. Moved-trans m n
