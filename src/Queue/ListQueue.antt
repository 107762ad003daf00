-- ===== src/Queue/ListQueue.antt =====
-- pkg/epp/flowcontrol/framework/plugins/queue/listqueue.go: the FIFO queue. A method runs under the queue's
-- mutex. The state has the struct's fields and the memory that it reaches: the value of each list
-- element, the handle at each address, and each item's handle. `self` is the queue's own address.
pub mod Fifo
pub mod Invalidation
pub mod Lawful
use llm_d_inference_schedule.Prelude.{
  ℕ, suc, ◌==◌, not, if◌then◌else◌, Bool, true, false, Option, none, some, List, [], ◌∷◌, ◌++◌, map,
  update,
}
use llm_d_inference_schedule.Prelude.Outcome.{
  Run, ok, err, invalid_queue_item_handle, queue_item_not_found,
}
use llm_d_inference_schedule.Item.{Item, HandleArg, nil, own, foreign, add_u64, sub_u64}

pub record ListItemHandle : Type 0 where
  pub element : ℕ
  pub owner : ℕ
  pub is_invalidated : Bool

pub record ListQueue : Type 0 where
  pub requests : List ℕ
  pub byte_size : ℕ
  pub value : ℕ → Item
  pub handle : ℕ → ListItemHandle
  pub handle_of : ℕ → Option ℕ
  pub next : ℕ
  pub self : ℕ

-- `newListQueue`, in a memory where no element or handle at `next` or above is in use.
unfoldable pub new_list_queue :
    (ℕ → Item) → (ℕ → ListItemHandle) → (ℕ → Option ℕ) → ℕ → ℕ → ListQueue
new_list_queue value handle handle_of next self = record {
  requests = [];
  byte_size = 0;
  value = value;
  handle = handle;
  handle_of = handle_of;
  next = next;
  self = self;
}

-- The new element and the new handle have the same number.
unfoldable pub add : ListQueue → Item → ListQueue
add lq x = record lq {
  requests = lq.requests ++ lq.next ∷ [];
  byte_size = add_u64 lq.byte_size x.byte_size;
  value = update lq.value lq.next x;
  handle =
      update lq.handle lq.next
        (record { element = lq.next; owner = lq.self; is_invalidated = false });
  handle_of = update lq.handle_of x.ref (some lq.next);
  next = suc lq.next;
}

-- `lq.requests.Remove(element)`; an element that is not in the list stays out.
unfoldable pub unlink : ℕ → List ℕ → List ℕ
unlink e [] = []
unlink e (x ∷ xs) = if x == e then xs else x ∷ unlink e xs

unfoldable pub invalidate_handle : ListQueue → ℕ → ListQueue
invalidate_handle lq r = record lq {
  handle = update lq.handle r (record (lq.handle r) { is_invalidated = true });
}

unfoldable pub remove : ListQueue → HandleArg → Run (Item × ListQueue)
remove lq nil = err invalid_queue_item_handle
remove lq (foreign invalidated) = err invalid_queue_item_handle
remove lq (own r) =
    if (lq.handle r).is_invalidated
    then err invalid_queue_item_handle
    else if not ((lq.handle r).owner == lq.self)
    then err queue_item_not_found
    else let e = (lq.handle r).element in
      let x = lq.value e in
      let unlinked = record lq {
        requests = unlink e lq.requests;
        byte_size = sub_u64 lq.byte_size x.byte_size;
      } in
      ok (x, invalidate_handle unlinked r)

unfoldable pub invalidate_item : ListQueue → Item → ListQueue
invalidate_item lq x = elim (lq.handle_of x.ref) [ none ↦ lq | some r ↦ invalidate_handle lq r ]

-- Cleanup's loop over the elements that are left: the removed items, the elements that stay, and the
-- rest of the state.
unfoldable pub sweep : (Item → Bool) → List ℕ → ListQueue → List Item × List ℕ × ListQueue
sweep predicate [] lq = ([], [], lq)
sweep predicate (e ∷ rest) lq =
    let x = lq.value e in
    let out = predicate x in
    let less = record lq { byte_size = sub_u64 lq.byte_size x.byte_size } in
    let (removed, kept, lq') = sweep predicate rest (if out then invalidate_item less x else lq) in
    if out then (x ∷ removed, kept, lq') else (removed, e ∷ kept, lq')

unfoldable pub cleanup : ListQueue → (Item → Bool) → List Item × ListQueue
cleanup lq predicate =
    let (removed, kept, lq') = sweep predicate lq.requests lq in
    (removed, record lq' { requests = kept })

-- Drain's loop.
unfoldable pub drain_from : List ℕ → ListQueue → List Item × ListQueue
drain_from [] lq = ([], lq)
drain_from (e ∷ rest) lq =
    let x = lq.value e in
    let (removed, lq') = drain_from rest (invalidate_item lq x) in (x ∷ removed, lq')

unfoldable pub drain : ListQueue → List Item × ListQueue
drain lq =
    let (removed, lq') = drain_from lq.requests lq in
    (removed, record lq' { requests = []; byte_size = 0 })

unfoldable pub front : List ℕ → Option ℕ
front [] = none
front (e ∷ rest) = some e

unfoldable pub back : List ℕ → Option ℕ
back [] = none
back (e ∷ []) = some e
back (e ∷ rest) = back rest

unfoldable pub peek_head : ListQueue → Option Item
peek_head lq = elim (front lq.requests) [ none ↦ none | some e ↦ some (lq.value e) ]

unfoldable pub peek_tail : ListQueue → Option Item
peek_tail lq = elim (back lq.requests) [ none ↦ none | some e ↦ some (lq.value e) ]
