-- ===== src/Examples/Lists.antt =====
-- The list queue with two items.
use llm_d_inference_schedule.Prelude.{ℕ, ◌≡◌, refl, false, some, [], ◌∷◌, ◌++◌, arith}
use llm_d_inference_schedule.Prelude.Int.{pos}
use llm_d_inference_schedule.Prelude.Outcome.{err, invalid_queue_item_handle, Yields}
use llm_d_inference_schedule.Item.{Item, own}
use llm_d_inference_schedule.Queue.ListQueue.{ListQueue, ListItemHandle, remove, drain}
use llm_d_inference_schedule.Queue.ListQueue.Fifo.{
  contents, TakesOut, add_all, remove_splits, drain-add_all,
}

abbrev weighing : ℕ → Item
weighing n = record { ref = n; byte_size = n; enqueue_time = 0; effective_ttl = pos 0 }

abbrev mine : ℕ → ListItemHandle
mine n = record { element = n; owner = 1; is_invalidated = false }

-- Element `n` holds the item of `n` bytes, under the handle `n`.
abbrev pair : ListQueue
pair = record {
  requests = 5 ∷ 6 ∷ [];
  byte_size = 11;
  value = weighing;
  handle = mine;
  handle_of = λ n. some n;
  next = 7;
  self = 1;
}

remove_splits_example :
    Yields
      (λ result. TakesOut pair 6 result × (remove result.1 (own 6) ≡ err invalid_queue_item_handle))
      (remove pair (own 6))
remove_splits_example = remove_splits pair 6 1 refl refl refl

drain-add_all_example :
    ((drain (add_all pair (weighing 3 ∷ []))).0 ≡ contents pair ++ weighing 3 ∷ [])
    × (contents (drain (add_all pair (weighing 3 ∷ []))).1 ≡ [])
    × ((drain (add_all pair (weighing 3 ∷ []))).1.byte_size ≡ 0)
drain-add_all_example = drain-add_all pair (weighing 3 ∷ []) (omega arith, (omega arith, tt))
