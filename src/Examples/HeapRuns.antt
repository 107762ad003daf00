-- ===== src/Examples/HeapRuns.antt =====
-- Runs of the heap on concrete inputs: the order of dispatch, a removal that breaks the order of the
-- heap, and the effect of equal priorities on a removal.
use llm_d_inference_schedule.Prelude.{
  ℕ, zero, suc, ◌≡◌, refl, ltb, Bool, false, none, some, List, [], ◌∷◌, map,
}
use llm_d_inference_schedule.Prelude.Int.{pos}
use llm_d_inference_schedule.Prelude.Outcome.{Run, ok, ◌>>=◌, or_panic}
use llm_d_inference_schedule.Item.{Item, own}
use llm_d_inference_schedule.Queue.MaxMinHeap.{
  Heap, new_max_min_heap, load, set_index, swap, test, is_min_level, bubble_up, scan, find_extreme,
  settle, trickle_down, up_min, up_max, up, down_min, down_max, down, push, add, peek_head,
  peek_tail,
}
use llm_d_inference_schedule.Queue.MaxMinHeap.Removal.{invalidate, drop_last, remove_at, remove}

abbrev item : ℕ → ℕ → Item
item r time = record { ref = r; byte_size = 10; enqueue_time = time; effective_ttl = pos 0 }

abbrev earlier : Item → Item → Bool
earlier a b = ltb a.enqueue_time b.enqueue_time

abbrev vacant : Heap
vacant =
    new_max_min_heap (λ _. none)
      (λ _. record { item = item 0 0; index = 0; is_invalidated = false }) 0

add_all : List Item → Heap → Run Heap
unfolding add push up up_min up_max bubble_up test load swap set_index is_min_level
add_all [] h = ok h
add_all (x ∷ xs) h = add earlier h x >>= add_all xs

abbrev times : Heap → List ℕ
times h = map (λ (x : Item). x.enqueue_time) h.items

-- Dispatch: peek at the head and remove it by its handle, for as many rounds as are given.
dispatch : ℕ → Heap → Run (List ℕ)
unfolding peek_head remove remove_at drop_last invalidate down down_min down_max trickle_down
    find_extreme scan settle test load swap set_index is_min_level
dispatch zero h = ok []
dispatch (suc k) h = peek_head earlier h >>= λ top. elim top [
  | none ↦ ok []
  | some x ↦ or_panic (h.handle_of x.ref) >>= λ r.
      remove earlier h (own r) >>= λ (_, h'). dispatch k h' >>= λ rest. ok (x.enqueue_time ∷ rest)
]

abbrev arrivals : List Item
arrivals = item 1 40 ∷ item 2 10 ∷ item 3 30 ∷ item 4 20 ∷ item 5 50 ∷ []

-- Items come out by enqueue time.
dispatch_sorted : (add_all arrivals vacant >>= dispatch 6) ≡ ok (10 ∷ 20 ∷ 30 ∷ 40 ∷ 50 ∷ [])
unfolding add_all dispatch new_max_min_heap
dispatch_sorted = refl

-- The worst item in a queue of five.
tail_latest : (add_all arrivals vacant >>= λ h. peek_tail earlier h) ≡ ok (some (item 5 50))
unfolding add_all peek_tail new_max_min_heap
tail_latest = refl

abbrev twelve : List Item
twelve =
    item 0 1
    ∷ item 1 90
    ∷ item 2 95
    ∷ item 3 40
    ∷ item 4 41
    ∷ item 5 5
    ∷ item 6 6
    ∷ item 7 80
    ∷ item 8 81
    ∷ item 9 82
    ∷ item 10 83
    ∷ item 11 10
    ∷ []

-- Removing the item at index 7 moves the last item under a later one: the next four items leave as
-- 1, 5, 6, 40, although one enqueued at time 10 waits.
remove_breaks_order :
    (add_all twelve vacant >>= λ h. remove earlier h (own 7) >>= λ (_, h'). dispatch 4 h')
    ≡ ok (1 ∷ 5 ∷ 6 ∷ 40 ∷ [])
unfolding add_all dispatch new_max_min_heap
remove_breaks_order = refl

-- With equal times among the items a removal breaks the order too, though the last item belongs
-- there: after the removal at index 1 the item at time 30 stands below one at time 50, and the item at
-- time 40 leaves before it.
abbrev tied : List Item
tied =
    item 0 1
    ∷ item 1 60
    ∷ item 2 70
    ∷ item 3 50
    ∷ item 4 40
    ∷ item 5 20
    ∷ item 6 25
    ∷ item 7 50
    ∷ item 8 50
    ∷ item 9 45
    ∷ item 10 45
    ∷ item 11 30
    ∷ []

tied_order :
    (add_all tied vacant >>= λ h. remove earlier h (own 1) >>= λ (_, h'). dispatch 4 h')
    ≡ ok (1 ∷ 20 ∷ 25 ∷ 40 ∷ [])
unfolding add_all dispatch new_max_min_heap
tied_order = refl
