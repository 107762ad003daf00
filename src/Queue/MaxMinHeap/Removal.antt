-- ===== src/Queue/MaxMinHeap/Removal.antt =====
-- pkg/epp/flowcontrol/framework/plugins/queue/maxminheap.go: Remove, Cleanup and Drain.
use llm_d_inference_schedule.Prelude.{
  ℕ, zero, suc, ◌-◌, ◌/◌, ltb, if◌then◌else◌, Bool, true, none, some, List, [], ◌∷◌, take, update,
}
use llm_d_inference_schedule.Prelude.Outcome.{
  Run, ok, err, ◌>>=◌, invalid_queue_item_handle, queue_item_not_found,
}
use llm_d_inference_schedule.Item.{Item, HandleArg, nil, own, foreign, sub_u64}
use llm_d_inference_schedule.Queue.MaxMinHeap.{Heap, len, load, set_index, swap, down}

-- `handle.Invalidate()`
unfoldable pub invalidate : Heap → ℕ → Heap
invalidate h r = record h { cell = update h.cell r (record (h.cell r) { is_invalidated = true }) }

-- `h.items = h.items[:n]`, `delete(h.handles, handle)` and the subtraction of the item's size.
unfoldable pub drop_last : Heap → ℕ → ℕ → Item → Heap
drop_last h n r x = record h {
  items = take n h.items;
  handles = update h.handles r none;
  byte_size = sub_u64 h.byte_size x.byte_size;
}

-- One item of Cleanup's loop that the predicate accepts.
unfoldable pub discard : Heap → Item → Heap
discard h x = record cleared { byte_size = sub_u64 h.byte_size x.byte_size }
  where
    cleared : Heap
    cleared = elim (h.handle_of x.ref) [
      | none ↦ h
      | some r ↦ record (invalidate h r) { handles = update h.handles r none }
    ]

-- Cleanup's first loop: the removed items, the kept ones, and the state.
unfoldable pub sift : (Item → Bool) → List Item → Heap → List Item × List Item × Heap
sift predicate [] h = ([], [], h)
sift predicate (x ∷ xs) h =
    let (removed, kept, h') = sift predicate xs (if predicate x then discard h x else h) in
    if predicate x then (x ∷ removed, kept, h') else (removed, x ∷ kept, h')

-- `for i, item := range h.items`, from index `i` on.
unfoldable pub reindex : List Item → ℕ → Heap → Run Heap
reindex [] i h = ok h
reindex (x ∷ xs) i h = set_index h x i >>= λ h'. reindex xs (suc i) h'

-- Drain's loop.
unfoldable pub invalidate_all : List Item → Heap → Heap
invalidate_all [] h = h
invalidate_all (x ∷ xs) h =
    invalidate_all xs (elim (h.handle_of x.ref) [ none ↦ h | some r ↦ invalidate h r ])

unfoldable pub drain : Heap → List Item × Heap
drain h =
    (h.items, record (invalidate_all h.items h) { items = []; handles = λ _. none; byte_size = 0 })

module _ (less : Item → Item → Bool) where
  -- Remove, once the handle is known to be registered.
  unfoldable pub remove_at : Heap → ℕ → Run (Item × Heap)
  remove_at h r =
      let i = (h.cell r).index in
      let n = len h - 1 in
      do
        x ← load h i
        h' ←
            if ltb i n
            then (do h₁ ← swap h i n; down less (drop_last h₁ n r x) i)
            else ok (drop_last h n r x)
        ok (x, invalidate h' r)

  unfoldable pub remove : Heap → HandleArg → Run (Item × Heap)
  remove h nil = err invalid_queue_item_handle
  remove h (foreign invalidated) = err invalid_queue_item_handle
  remove h (own r) =
      if (h.cell r).is_invalidated
      then err invalid_queue_item_handle
      else elim (h.handles r) [ none ↦ err queue_item_not_found | some _ ↦ remove_at h r ]

  -- `for i := len/2 - 1; i >= 0; i--`, by the number of rounds left.
  unfoldable pub heapify : ℕ → Heap → Run Heap
  heapify zero h = ok h
  heapify (suc i) h = down less h i >>= heapify i

  unfoldable pub rebuild : Heap → List Item → Run Heap
  rebuild h kept = do h' ← reindex kept 0 (record h { items = kept }); heapify (len h' / 2) h'

  unfoldable pub cleanup : Heap → (Item → Bool) → Run (List Item × Heap)
  cleanup h predicate =
      let (removed, kept, h') = sift predicate h.items h in
      elim removed [ [] ↦ ok ([], h') | x ∷ xs ↦ rebuild h' kept >>= λ h''. ok (x ∷ xs, h'') ]
