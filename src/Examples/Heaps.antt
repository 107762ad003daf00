-- ===== src/Examples/Heaps.antt =====
-- The results on the max-min heap at a queue of two items under the FCFS order.
use llm_d_inference_schedule.Prelude.{
  ℕ_discrete, ◌<◌, ◌-◌, ◌/◌, ℕ, zero, suc, refl, ltb, ◌==◌, if◌then◌else◌, arith, Bool, false, none,
  some, [], ◌∷◌, Perm,
}
use llm_d_inference_schedule.Prelude.Int.{pos}
use llm_d_inference_schedule.Prelude.Outcome.{Yields}
use llm_d_inference_schedule.Item.{Item, own}
use llm_d_inference_schedule.Queue.Bytes.{total}
use llm_d_inference_schedule.Queue.MaxMinHeap.Order.{Below}
use llm_d_inference_schedule.Queue.MaxMinHeap.{is_min_level, Heap, add, peek_head, peek_tail}
use llm_d_inference_schedule.Queue.MaxMinHeap.Removal.{remove}
use llm_d_inference_schedule.Queue.MaxMinHeap.Tracking.{IsTracked}
use llm_d_inference_schedule.Queue.MaxMinHeap.Contents.{IsValid, IsAbsent, Removed, remove_contents}
use llm_d_inference_schedule.Queue.MaxMinHeap.Up.{InOrder}
use llm_d_inference_schedule.Queue.MaxMinHeap.Priority.{IsFirst, IsLast, add_orders, peek_ends}

abbrev item : ℕ → ℕ → Item
item r time = record { ref = r; byte_size = 10; enqueue_time = time; effective_ttl = pos 0 }

abbrev earlier : Item → Item → Bool
earlier a b = ltb a.enqueue_time b.enqueue_time

abbrev time : Item → ℕ
time x = x.enqueue_time

abbrev two : Heap
two = record {
  items = item 1 10 ∷ item 2 20 ∷ [];
  handles = λ r. if ltb r 2 then some r else none;
  byte_size = 20;
  handle_of = λ x. if x == 1 then some 0 else if x == 2 then some 1 else none;
  cell = λ r. record { item = item 1 10; index = r; is_invalidated = false };
  next = 2;
}

two-IsTracked : IsTracked two
two-IsTracked zero x e = (0, ground arith)
two-IsTracked (suc zero) x e = (1, ground arith)
two-IsTracked (suc (suc i)) x e = absurd (ground arith)

two-IsValid : IsValid two
unfolding total
two-IsValid = record { tracked = two-IsTracked; counted = refl }

three-IsAbsent : IsAbsent (item 3 5) two
three-IsAbsent zero x e = ground arith
three-IsAbsent (suc zero) x e = ground arith
three-IsAbsent (suc (suc i)) x e = absurd (ground arith)

two_parents : (c : ℕ) → 0 < c → c < 2 → Below (λ i. if i == 0 then 10 else 20) ((c - 1) / 2) c
unfolding is_min_level
two_parents zero lo hi = absurd (omega arith)
two_parents (suc zero) lo hi = refl
two_parents (suc (suc c)) lo hi = absurd (omega arith)

two-InOrder : InOrder time two
two-InOrder = record {
  parents = λ c lo hi. elim (ℕ_discrete c 1) [
    | yes e ↦ rw e (two_parents 1 (omega arith) (omega arith))
    | no ne ↦ absurd (omega arith)
  ];
  grandparents = λ c lo hi. absurd (omega arith);
}

remove_contents_example : Yields (Removed two 0 (item 1 10)) (remove earlier two (own 0))
remove_contents_example = remove_contents earlier two 0 0 (item 1 10) two-IsValid refl refl

add_orders_example :
    Yields
      (λ h. IsValid h × InOrder time h × Perm h.items (item 3 5 ∷ two.items))
      (add earlier two (item 3 5))
add_orders_example =
    add_orders time earlier (λ x y. refl) two (item 3 5) two-IsValid three-IsAbsent two-InOrder

peek_ends_example :
    Yields (IsFirst time two) (peek_head earlier two)
    × Yields (IsLast time two) (peek_tail earlier two)
peek_ends_example = peek_ends time earlier (λ x y. refl) two two-InOrder
