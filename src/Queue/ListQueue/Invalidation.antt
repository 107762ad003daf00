-- ===== src/Queue/ListQueue/Invalidation.antt =====
-- pkg/epp/flowcontrol/framework/plugins/queue/listqueue.go: the handles that Cleanup and Drain invalidate.
use llm_d_inference_schedule.Prelude.{
  Bool-cases, ℕ, ◌≡◌, refl, ap, ◌∙◌, inl, inr, ◌==◌, not, Bool, true, false, some, List, [], ◌∷◌,
  keep, has, arith,
}
use llm_d_inference_schedule.Item.{Item, sub_u64}
use llm_d_inference_schedule.Queue.ListQueue.{
  ListQueue, sweep, drain_from, invalidate_item, invalidate_handle,
}

-- Some handles have been invalidated, and nothing else of the memory has changed.
pub record Invalidates (lq lq' : ListQueue) : Type 0 where
  pub value : lq'.value ≡ lq.value
  pub handle_of : lq'.handle_of ≡ lq.handle_of
  pub self : lq'.self ≡ lq.self
  pub next : lq'.next ≡ lq.next
  pub element : (r : ℕ) → (lq'.handle r).element ≡ (lq.handle r).element
  pub owner : (r : ℕ) → (lq'.handle r).owner ≡ (lq.handle r).owner
  pub valid : (r : ℕ) → (lq'.handle r).is_invalidated ≡ false → (lq.handle r).is_invalidated ≡ false

Invalidates-refl : (lq : ListQueue) → Invalidates lq lq
Invalidates-refl lq = record {
  value = refl;
  handle_of = refl;
  self = refl;
  next = refl;
  element = λ r. refl;
  owner = λ r. refl;
  valid = λ r h. h;
}

Invalidates-trans : (a b c : ListQueue) → Invalidates a b → Invalidates b c → Invalidates a c
Invalidates-trans a b c s t = record {
  value = t.value ∙ s.value;
  handle_of = t.handle_of ∙ s.handle_of;
  self = t.self ∙ s.self;
  next = t.next ∙ s.next;
  element = λ r. t.element r ∙ s.element r;
  owner = λ r. t.owner r ∙ s.owner r;
  valid = λ r h. s.valid r (t.valid r h);
}

invalidate_item-Invalidates :
    (lq : ListQueue) (n : ℕ) (x : Item)
    → Invalidates lq (invalidate_item (record lq { byte_size = n }) x)
unfolding invalidate_item invalidate_handle
invalidate_item-Invalidates lq n x = record {
  value = ground arith;
  handle_of = ground arith;
  self = ground arith;
  next = ground arith;
  element = λ r. ground arith;
  owner = λ r. ground arith;
  valid = λ r. ground arith;
}

invalidate_item-dead :
    (lq : ListQueue) (x : Item) (r : ℕ)
    → lq.handle_of x.ref ≡ some r
    → ((invalidate_item lq x).handle r).is_invalidated ≡ true
unfolding invalidate_item invalidate_handle
invalidate_item-dead lq x r known = ground (arith, known)

dead-Invalidates :
    (a b : ListQueue) (r : ℕ)
    → Invalidates a b
    → (a.handle r).is_invalidated ≡ true
    → (b.handle r).is_invalidated ≡ true
dead-Invalidates a b r s dead = elim (Bool-cases ((b.handle r).is_invalidated)) [
  | inl still ↦ still
  | inr revived ↦ absurd (ground (arith, dead, s.valid r revived))
]

-- The loop of Cleanup: the elements that stay, and the handles of the others.
pub sweep-Invalidates :
    (predicate : Item → Bool) (es : List ℕ) (lq : ListQueue)
    → Invalidates lq (sweep predicate es lq).2
unfolding sweep
sweep-Invalidates predicate [] lq = Invalidates-refl lq
sweep-Invalidates predicate (e ∷ es) lq = elim (Bool-cases (predicate (lq.value e))) [
  | inl out ↦
      rw (sweep, out)
        (Invalidates-trans lq _ _
          (invalidate_item-Invalidates lq (sub_u64 lq.byte_size (lq.value e).byte_size)
            (lq.value e))
          (sweep-Invalidates predicate es _))
  | inr stay ↦ rw (sweep, stay) (sweep-Invalidates predicate es lq)
]

pub sweep-keeps :
    (predicate : Item → Bool) (es : List ℕ) (lq : ListQueue)
    → (sweep predicate es lq).1 ≡ keep (λ e. not (predicate (lq.value e))) es
unfolding sweep
sweep-keeps predicate [] lq = refl
sweep-keeps predicate (e ∷ es) lq = elim (Bool-cases (predicate (lq.value e))) [
  | inl out ↦
      let less = record lq { byte_size = sub_u64 lq.byte_size (lq.value e).byte_size } in
      let same = invalidate_item-Invalidates lq less.byte_size (lq.value e) in
      rw (sweep, out)
        (sweep-keeps predicate es (invalidate_item less (lq.value e))
          ∙ ap (λ (f : ℕ → Item). keep (λ k. not (predicate (f k))) es) same.value)
  | inr stay ↦ rw (sweep, stay) (ap (◌∷◌ e) (sweep-keeps predicate es lq))
]

pub sweep-dead :
    (predicate : Item → Bool) (es : List ℕ) (lq : ListQueue) (r : ℕ)
    → has es r ≡ true
    → predicate (lq.value r) ≡ true
    → lq.handle_of (lq.value r).ref ≡ some r
    → ((sweep predicate es lq).2.handle r).is_invalidated ≡ true
unfolding sweep
sweep-dead predicate [] lq r there out known = absurd (ground (arith, there))
sweep-dead predicate (e ∷ es) lq r there out known =
    let less = record lq { byte_size = sub_u64 lq.byte_size (lq.value e).byte_size } in
    let after = invalidate_item less (lq.value e) in
    let same = invalidate_item-Invalidates lq less.byte_size (lq.value e) in
    elim (Bool-cases (e == r)) [
      | inl here ↦
          let equal : e ≡ r = ground (arith, here) in
          let gone : predicate (lq.value e) ≡ true = rw equal out in
          let dead : (after.handle r).is_invalidated ≡ true =
            invalidate_item-dead less (lq.value e) r (rw equal known) in
          rw (sweep, gone) (dead-Invalidates after _ r (sweep-Invalidates predicate es after) dead)
      | inr later ↦
          let further : has es r ≡ true = ground (arith, there, later) in
          elim (Bool-cases (predicate (lq.value e))) [
            | inr stay ↦ rw (sweep, stay) (sweep-dead predicate es lq r further out known)
            | inl gone ↦
                rw (sweep, gone)
                  (sweep-dead predicate es after r further (rw same.value out)
                    (rw (same.value, same.handle_of) known))
          ]
    ]

-- The loop of Drain invalidates the handle of every element.
pub drain_from-Invalidates : (es : List ℕ) (lq : ListQueue) → Invalidates lq (drain_from es lq).1
unfolding drain_from
drain_from-Invalidates [] lq = Invalidates-refl lq
drain_from-Invalidates (e ∷ es) lq =
    Invalidates-trans lq _ _ (invalidate_item-Invalidates lq lq.byte_size (lq.value e))
      (drain_from-Invalidates es _)

pub drain_from-dead :
    (es : List ℕ) (lq : ListQueue) (r : ℕ)
    → has es r ≡ true
    → lq.handle_of (lq.value r).ref ≡ some r
    → ((drain_from es lq).1.handle r).is_invalidated ≡ true
unfolding drain_from
drain_from-dead [] lq r there known = absurd (ground (arith, there))
drain_from-dead (e ∷ es) lq r there known =
    let after = invalidate_item lq (lq.value e) in
    let same = invalidate_item-Invalidates lq lq.byte_size (lq.value e) in
    elim (Bool-cases (e == r)) [
      | inl here ↦
          let equal : e ≡ r = ground (arith, here) in
          dead-Invalidates after _ r (drain_from-Invalidates es after)
            (invalidate_item-dead lq (lq.value e) r (rw equal known))
      | inr later ↦
          drain_from-dead es after r (ground (arith, there, later))
            (rw (same.value, same.handle_of) known)
    ]
