-- ===== src/Queue/ListQueue/Fifo.antt =====
-- pkg/epp/flowcontrol/framework/plugins/queue/listqueue.go: the queue is a list of items, first in, first out.
use mathlib.Core.List.{append-nil, append_assoc}
use llm_d_inference_schedule.Prelude.{
  has, Bool-cases, ℕ, suc, ◌<◌, ◌≡◌, refl, inl, inr, zero, sym, ap, ◌∙◌, ◌==◌, not, Bool, true,
  false, some, List, [], ◌∷◌, ◌++◌, map, keep, update, get_elem?, arith,
}
use llm_d_inference_schedule.Prelude.Outcome.{err, Yields, yields, invalid_queue_item_handle}
use llm_d_inference_schedule.Item.{Item, own, sub_u64}
use llm_d_inference_schedule.Queue.ListQueue.{
  ListQueue, add, remove, sweep, cleanup, drain_from, drain, invalidate_item, invalidate_handle,
  unlink,
}

-- The items that the queue holds, the oldest first.
abbrev pub contents : ListQueue → List Item
contents lq = map lq.value lq.requests

invalidate_item-value : (lq : ListQueue) (x : Item) → (invalidate_item lq x).value ≡ lq.value
unfolding invalidate_item invalidate_handle
invalidate_item-value lq x = ground arith

drain_from-values : (es : List ℕ) (lq : ListQueue) → (drain_from es lq).0 ≡ map lq.value es
unfolding drain_from
drain_from-values [] lq = refl
drain_from-values (e ∷ es) lq = ap (◌∷◌ (lq.value e)) (
    drain_from-values es (invalidate_item lq (lq.value e))
    ∙ ap (λ f. map f es) (invalidate_item-value lq (lq.value e)))

sweep-split :
    (predicate : Item → Bool) (es : List ℕ) (lq : ListQueue)
    → ((sweep predicate es lq).0 ≡ keep predicate (map lq.value es))
      × (map lq.value (sweep predicate es lq).1 ≡ keep (λ x. not (predicate x)) (map lq.value es))
      × ((sweep predicate es lq).2.value ≡ lq.value)
unfolding sweep
sweep-split predicate [] lq = (refl, refl, refl)
sweep-split predicate (e ∷ es) lq = elim (Bool-cases (predicate (lq.value e))) [
  | inl out ↦
      let less = record lq { byte_size = sub_u64 lq.byte_size (lq.value e).byte_size } in
      let v = invalidate_item-value less (lq.value e) in
      let below = sweep-split predicate es (invalidate_item less (lq.value e)) in
      rw out (
        ap (◌∷◌ (lq.value e)) (below.0 ∙ ap (λ f. keep predicate (map f es)) v),
        ap (λ f. map f (sweep predicate es (invalidate_item less (lq.value e))).1) (sym v)
            ∙ below.1
            ∙ ap (λ f. keep (λ x. not (predicate x)) (map f es)) v,
        below.2 ∙ v,
      )
  | inr stay ↦
      let below = sweep-split predicate es lq in
      rw stay (below.0, ap (◌∷◌ (lq.value e)) below.1, below.2)
]

-- An element of the list and those around it, of which none before is the same, as one is unlinked.
unlink-splits :
    (e i : ℕ) (es : List ℕ)
    → get_elem? es i ≡ some e
    → (before : List ℕ) × (after : List ℕ) × (has before e ≡ false)
      × (es ≡ before ++ e ∷ after)
      × (unlink e es ≡ before ++ after)
unfolding unlink
unlink-splits e i [] at = absurd (ground arith)
unlink-splits e zero (x ∷ es) at =
    let same : x ≡ e = ground arith in
    let here : (x == e) ≡ true = ground arith in ([], es, refl, rw same refl, rw here refl)
unlink-splits e (suc i) (x ∷ es) at = elim (Bool-cases (x == e)) [
  | inl here ↦ let same : x ≡ e = ground arith in ([], es, refl, rw same refl, rw here refl)
  | inr apart ↦
      let (before, after, first, whole, less) = unlink-splits e i es at in
      (
        x ∷ before,
        after,
        ground (arith, apart, first),
        ap (◌∷◌ x) whole,
        rw apart (ap (◌∷◌ x) less),
      )
]

-- The result of Remove for the element `e`: its item, and the queue without the element, every other
-- element in its place with its item.
abbrev pub TakesOut : ListQueue → ℕ → Item × ListQueue → Type 0
TakesOut lq e (x, lq') =
    (x ≡ lq.value e)
    × (lq'.value ≡ lq.value)
    × (lq'.byte_size ≡ sub_u64 lq.byte_size x.byte_size)
    × (before : List ℕ) × (after : List ℕ) × (has before e ≡ false)
    × (lq.requests ≡ before ++ e ∷ after)
    × (lq'.requests ≡ before ++ after)

-- Remove with a valid handle of this queue, whose element is in the list, hands out the item of that element,
-- takes the element out, keeps the others with their items in their order and gives back the item's bytes; a
-- second Remove with the handle is refused.
pub remove_splits :
    (lq : ListQueue) (r i : ℕ)
    → (lq.handle r).is_invalidated ≡ false
    → (lq.handle r).owner ≡ lq.self
    → get_elem? lq.requests i ≡ some (lq.handle r).element
    → Yields
        (λ result.
          TakesOut lq (lq.handle r).element result
          × (remove result.1 (own r) ≡ err invalid_queue_item_handle))
        (remove lq (own r))
unfolding remove invalidate_handle
remove_splits lq r i valid owned at =
    let mine : (not ((lq.handle r).owner == lq.self)) ≡ false = ground arith in
    let (before, after, first, whole, less) =
      unlink-splits (lq.handle r).element i lq.requests at in
    simp (remove, valid, mine)
      (yields ((refl, refl, refl, before, after, first, whole, less), ground arith))

pub drain_lem :
    (lq : ListQueue)
    → ((drain lq).0 ≡ contents lq) × (contents (drain lq).1 ≡ []) × ((drain lq).1.byte_size ≡ 0)
unfolding drain
drain_lem lq = (drain_from-values lq.requests lq, refl, refl)

-- Cleanup hands out the items that the predicate accepts and keeps the others, both in their order.
pub cleanup_splits :
    (lq : ListQueue) (predicate : Item → Bool)
    → ((cleanup lq predicate).0 ≡ keep predicate (contents lq))
      × (contents (cleanup lq predicate).1 ≡ keep (λ x. not (predicate x)) (contents lq))
unfolding cleanup
cleanup_splits lq predicate =
    let (removed, kept, same) = sweep-split predicate lq.requests lq in
    (removed, ap (λ f. map f (sweep predicate lq.requests lq).1) same ∙ kept)

-- The elements of the list were handed out before `next`.
abbrev pub IsBelow : ℕ → List ℕ → Type 0
IsBelow n [] = Unit
IsBelow n (e ∷ es) = (e < n) × IsBelow n es

map-update_above :
    (f : ℕ → Item) (n : ℕ) (x : Item) (es : List ℕ)
    → IsBelow n es
    → map (update f n x) (es ++ n ∷ []) ≡ map f es ++ x ∷ []
map-update_above f n x [] below = ground arith
map-update_above f n x (e ∷ es) below = ground (arith, below.0, map-update_above f n x es below.1)

add_appends :
    (lq : ListQueue) (x : Item)
    → IsBelow lq.next lq.requests
    → contents (add lq x) ≡ contents lq ++ x ∷ []
unfolding add
add_appends lq x below = map-update_above lq.value lq.next x lq.requests below

IsBelow-suc : (n : ℕ) (es : List ℕ) → IsBelow n es → IsBelow (suc n) (es ++ n ∷ [])
IsBelow-suc n [] below = (omega arith, tt)
IsBelow-suc n (e ∷ es) below = (omega (arith, below.0), IsBelow-suc n es below.1)

pub add_all : ListQueue → List Item → ListQueue
add_all lq [] = lq
add_all lq (x ∷ xs) = add_all (add lq x) xs

add_all-contents :
    (xs : List Item) (lq : ListQueue)
    → IsBelow lq.next lq.requests
    → contents (add_all lq xs) ≡ contents lq ++ xs
unfolding add_all add
add_all-contents [] lq below = sym (append-nil (contents lq))
add_all-contents (x ∷ xs) lq below =
    add_all-contents xs (add lq x) (IsBelow-suc lq.next lq.requests below)
    ∙ ap (λ (ys : List Item). ys ++ xs) (add_appends lq x below)
    ∙ append_assoc (contents lq) (x ∷ []) xs

-- First in, first out: after any adds, Drain hands out what the queue held and then what was added, in
-- order, and leaves no item and no bytes.
pub drain-add_all :
    (lq : ListQueue) (xs : List Item)
    → IsBelow lq.next lq.requests
    → ((drain (add_all lq xs)).0 ≡ contents lq ++ xs)
      × (contents (drain (add_all lq xs)).1 ≡ [])
      × ((drain (add_all lq xs)).1.byte_size ≡ 0)
drain-add_all lq xs below =
    let (handed, empty, light) = drain_lem (add_all lq xs) in
    (handed ∙ add_all-contents xs lq below, empty, light)
