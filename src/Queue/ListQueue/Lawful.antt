-- ===== src/Queue/ListQueue/Lawful.antt =====
-- pkg/epp/flowcontrol/framework/plugins/queue/listqueue.go: the list queue keeps the contract of a queue.
use mathlib.Core.List.Perm
use llm_d_inference_schedule.Prelude.{
  Bool-cases, ℕ, ◌<◌, ◌≡◌, refl, sym, subst, ◌∙◌, ◌⊎◌, inl, inr, ◌==◌, not, Bool, true, false, some,
  List, [], ◌∷◌, ◌++◌, map, keep, update, has, has-append, has-keep, Nodup, Nodup-keep,
  Nodup-append_last, Perm, arith,
}
use llm_d_inference_schedule.Prelude.Outcome.{
  ok, err, Error, invalid_queue_item_handle, queue_item_not_found, Yields, yields,
}
use llm_d_inference_schedule.Item.{Item, HandleArg, nil, own, foreign}
use llm_d_inference_schedule.Queue.Contract.{SafeQueue, SafeQueueLaw}
use llm_d_inference_schedule.Queue.ListQueue.{
  ListQueue, add, remove, sweep, cleanup, drain_from, drain, invalidate_handle, unlink,
}
use llm_d_inference_schedule.Queue.ListQueue.Invalidation.{
  Invalidates, sweep-Invalidates, sweep-keeps, sweep-dead, drain_from-Invalidates, drain_from-dead,
}
use llm_d_inference_schedule.Queue.ListQueue.Fifo.{contents, cleanup_splits, drain_lem}

-- The elements are in use and distinct, a handle of the queue that is valid is that of an element of the list,
-- with its number, and each item knows its handle.
pub record IsValid (lq : ListQueue) : Type 0 where
  pub used : (e : ℕ) → has lq.requests e ≡ true → e < lq.next
  pub distinct : Nodup lq.requests
  pub live :
      (r : ℕ)
      → (lq.handle r).is_invalidated ≡ false
      → (lq.handle r).owner ≡ lq.self
      → ((lq.handle r).element ≡ r) × (has lq.requests r ≡ true)
  pub named : (e : ℕ) → has lq.requests e ≡ true → lq.handle_of (lq.value e).ref ≡ some e

-- The item is not in the queue.
abbrev pub IsNew : ListQueue → Item → Type 0
IsNew lq x = (e : ℕ) → has lq.requests e ≡ true → ((lq.value e).ref == x.ref) ≡ false

map-update_unused :
    (f : ℕ → Item) (n : ℕ) (x : Item) (es : List ℕ)
    → ((e : ℕ) → has es e ≡ true → e < n)
    → Perm (x ∷ map f es) (map (update f n x) (es ++ n ∷ []))
map-update_unused f n x [] used =
    let same : x ≡ update f n x n = ground arith in
    subst (λ y. Perm (x ∷ []) (y ∷ [])) same (Perm.refl (x ∷ []))
map-update_unused f n x (e ∷ es) used =
    let low : e < n = used e (ground arith) in
    let same : f e ≡ update f n x e = ground (arith, low) in
    subst (λ y. Perm (x ∷ (f e ∷ map f es)) (y ∷ map (update f n x) (es ++ n ∷ []))) same
      (Perm.trans (Perm.swap (f e) x (map f es))
        (Perm.cons (f e) (map-update_unused f n x es (λ k there. used k (ground (arith, there))))))

pub add-IsValid : (lq : ListQueue) (x : Item) → IsValid lq → IsNew lq x → IsValid (add lq x)
unfolding add
add-IsValid lq x v new =
    let fresh : has lq.requests lq.next ≡ false = elim (Bool-cases (has lq.requests lq.next)) [
      | inl there ↦ absurd (omega (arith, v.used lq.next there))
      | inr gone ↦ gone
    ] in
    let split = λ (e : ℕ). has-append lq.requests (lq.next ∷ []) e in
    record {
      used = λ e there. ground (arith, split e, there, v.used e);
      distinct = Nodup-append_last lq.requests lq.next v.distinct fresh;
      live = λ r valid owned. ground (arith, split r, valid, owned, v.live r);
      named = λ e there. ground (arith, split e, there, v.named e, new e, v.used e);
    }

has-unlink : (e k : ℕ) (es : List ℕ) → (e == k) ≡ false → has (unlink e es) k ≡ has es k
unfolding unlink
has-unlink e k [] h = refl
has-unlink e k (x ∷ es) h = ground (arith, h, has-unlink e k es h)

has-unlink_less : (e k : ℕ) (es : List ℕ) → has (unlink e es) k ≡ true → has es k ≡ true
unfolding unlink
has-unlink_less e k [] h = h
has-unlink_less e k (x ∷ es) h = ground (arith, h, has-unlink_less e k es)

Nodup-unlink : (e : ℕ) (es : List ℕ) → Nodup es → Nodup (unlink e es)
unfolding unlink
Nodup-unlink e [] h = tt
Nodup-unlink e (x ∷ es) (new, h) = elim (Bool-cases (x == e)) [
  | inl here ↦ rw (unlink, here) h
  | inr apart ↦
      let still : has (unlink e es) x ≡ false = elim (Bool-cases (has (unlink e es) x)) [
        | inl there ↦ absurd (ground (arith, new, has-unlink_less e x es there))
        | inr gone ↦ gone
      ] in
      rw (unlink, apart) (still, Nodup-unlink e es h)
]

unlink-perm :
    (f : ℕ → Item) (e : ℕ) (es : List ℕ)
    → has es e ≡ true
    → Perm (f e ∷ map f (unlink e es)) (map f es)
unfolding unlink
unlink-perm f e [] h = absurd (ground (arith, h))
unlink-perm f e (x ∷ es) h = elim (Bool-cases (x == e)) [
  | inl here ↦
      let same : x ≡ e = ground (arith, here) in
      rw (unlink, here)
        (subst (λ k. Perm (f e ∷ map f es) (f k ∷ map f es)) (sym same) (Perm.refl _))
  | inr apart ↦
      rw (unlink, apart)
        (Perm.trans (Perm.swap (f x) (f e) (map f (unlink e es)))
          (Perm.cons (f x) (unlink-perm f e es (ground (arith, apart, h)))))
]

-- After some handles are invalidated and some elements taken out, those of the invalidated handles among
-- them.
kept-IsValid :
    (lq lq' : ListQueue) (es : List ℕ)
    → IsValid lq
    → Invalidates lq lq'
    → Nodup es
    → ((e : ℕ) → has es e ≡ true → has lq.requests e ≡ true)
    → ((e : ℕ) → has lq.requests e ≡ true → (lq'.handle e).is_invalidated ≡ false → has es e ≡ true)
    → (n : ℕ) → IsValid (record lq' { requests = es; byte_size = n })
kept-IsValid lq lq' es v s distinct less kept n = record {
  used = λ e there. rw s.next (v.used e (less e there));
  distinct = distinct;
  live = λ r valid owned.
      let (element, there) = v.live r (s.valid r valid) (sym (s.owner r) ∙ owned ∙ s.self) in
      (s.element r ∙ element, kept r there valid);
  named = λ e there. rw (s.value, s.handle_of) (v.named e (less e there));
}

pub cleanup-IsValid :
    (lq : ListQueue) (predicate : Item → Bool) → IsValid lq → IsValid (cleanup lq predicate).1
unfolding cleanup
cleanup-IsValid lq predicate v =
    let stays : ℕ → Bool = λ e. not (predicate (lq.value e)) in
    let swept = (sweep predicate lq.requests lq).2 in
    rw (sweep-keeps predicate lq.requests lq) (
      kept-IsValid lq swept (keep stays lq.requests) v (sweep-Invalidates predicate lq.requests lq)
        (Nodup-keep stays lq.requests v.distinct)
        (λ e there. ground (arith, has-keep stays lq.requests e, there))
        (λ e there valid. elim (Bool-cases (predicate (lq.value e))) [
          | inl out ↦
              let dead = sweep-dead predicate lq.requests lq e there out (v.named e there) in
              absurd (ground (arith, dead, valid))
          | inr stay ↦ ground (arith, has-keep stays lq.requests e, there, stay)
        ])
        swept.byte_size)

pub drain-IsValid : (lq : ListQueue) → IsValid lq → IsValid (drain lq).1
unfolding drain
drain-IsValid lq v =
    let drained = (drain_from lq.requests lq).1 in
    kept-IsValid lq drained [] v (drain_from-Invalidates lq.requests lq) tt
      (λ e there. absurd (ground (arith, there)))
      (λ e there valid.
        absurd (ground (arith, drain_from-dead lq.requests lq e there (v.named e there), valid)))
      0

-- Remove with a valid handle of the queue.
removed-IsValid :
    (lq : ListQueue) (r n : ℕ)
    → IsValid lq
    → (lq.handle r).element ≡ r
    → IsValid (invalidate_handle (record lq { requests = unlink r lq.requests; byte_size = n }) r)
unfolding invalidate_handle
removed-IsValid lq r n v number = record {
  used = λ e there. v.used e (has-unlink_less r e lq.requests there);
  distinct = Nodup-unlink r lq.requests v.distinct;
  live = λ k valid owned.
      ground (arith, valid, owned, v.live k, has-unlink r k lq.requests, v.distinct);
  named = λ e there. v.named e (has-unlink_less r e lq.requests there);
}

middle : (xs ys : List Item) (x : Item) → Perm (xs ++ x ∷ ys) (x ∷ (xs ++ ys))
middle [] ys x = Perm.refl (x ∷ ys)
middle (y ∷ xs) ys x = Perm.trans (Perm.cons y (middle xs ys x)) (Perm.swap x y (xs ++ ys))

keep-perm : (p : Item → Bool) (xs : List Item) → Perm (keep p xs ++ keep (λ x. not (p x)) xs) xs
keep-perm p [] = Perm.refl []
keep-perm p (x ∷ xs) = elim (Bool-cases (p x)) [
  | inl out ↦ rw out (Perm.cons x (keep-perm p xs))
  | inr stay ↦
      rw stay (
        Perm.trans (middle (keep p xs) (keep (λ y. not (p y)) xs) x) (Perm.cons x (keep-perm p xs)))
]

removed-contents :
    (lq : ListQueue) (r n : ℕ)
    → has lq.requests r ≡ true
    → Perm
        (lq.value r
          ∷ contents
              (invalidate_handle (record lq { requests = unlink r lq.requests; byte_size = n }) r))
        (contents lq)
unfolding invalidate_handle
removed-contents lq r n there = unlink-perm lq.value r lq.requests there

pub add-contents :
    (lq : ListQueue) (x : Item) → IsValid lq → Perm (x ∷ contents lq) (contents (add lq x))
unfolding add
add-contents lq x v = map-update_unused lq.value lq.next x lq.requests v.used

pub cleanup-contents :
    (lq : ListQueue) (predicate : Item → Bool)
    → Perm ((cleanup lq predicate).0 ++ contents (cleanup lq predicate).1) (contents lq)
cleanup-contents lq predicate =
    let (removed, kept) = cleanup_splits lq predicate in
    rw (removed, kept) (keep-perm predicate (contents lq))

pub drain-contents :
    (lq : ListQueue) → Perm (drain lq).0 (contents lq) × (contents (drain lq).1 ≡ [])
drain-contents lq =
    let (handed, empty, light) = drain_lem lq in (rw handed (Perm.refl (contents lq)), empty)

-- Remove is refused, or takes an item out.
pub removes_lem :
    (lq : ListQueue) (handle : HandleArg)
    → IsValid lq
    → ((e : Error) × (remove lq handle ≡ err e))
      ⊎ Yields
          (λ result. IsValid result.1 × Perm (result.0 ∷ contents result.1) (contents lq))
          (remove lq handle)
unfolding remove
removes_lem lq nil v = inl (_, refl)
removes_lem lq (foreign b) v = inl (_, refl)
removes_lem lq (own r) v = elim (Bool-cases ((lq.handle r).is_invalidated)) [
  | inl dead ↦ inl (invalid_queue_item_handle, rw (remove, dead) refl)
  | inr valid ↦ elim (Bool-cases (not ((lq.handle r).owner == lq.self))) [
    | inl strange ↦ inl (queue_item_not_found, rw (remove, valid, strange) refl)
    | inr mine ↦
        let owned : (lq.handle r).owner ≡ lq.self = ground (arith, mine) in
        let (number, there) = v.live r valid owned in
        inr (
          rw (remove, valid, mine, number)
            (yields (removed-IsValid lq r _ v number, removed-contents lq r _ there)))
  ]
]

-- The operations of the list queue, as its users call them.
abbrev pub list_queue : SafeQueue ListQueue
list_queue = record {
  add = λ lq x. ok (add lq x);
  remove = remove;
  cleanup = λ lq predicate. ok (cleanup lq predicate);
  drain = λ lq. ok (drain lq);
}

-- The list queue keeps the contract of a queue, for items that it does not hold yet.
abbrev pub list_queue_law : SafeQueueLaw list_queue
list_queue_law = record {
  contents = contents;
  IsValid = IsValid;
  CanAdd = IsNew;
  adds = λ lq x v new. yields (add-IsValid lq x v new, add-contents lq x v);
  removes = removes_lem;
  cleans = λ lq predicate v. yields (cleanup-IsValid lq predicate v, cleanup-contents lq predicate);
  drains = λ lq v. yields (drain-IsValid lq v, (drain-contents lq).0, (drain-contents lq).1);
}
