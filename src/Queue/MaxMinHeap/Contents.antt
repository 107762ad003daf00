-- ===== src/Queue/MaxMinHeap/Contents.antt =====
-- pkg/epp/flowcontrol/framework/plugins/queue/maxminheap.go: what Add and Remove do to the items, the
-- handles and the byte count, for any ordering policy.
use mathlib.Core.List.{perm_append_singleton}
use mathlib.Core.List.Perm
use llm_d_inference_schedule.Prelude.{
  ℕ, suc, ◌-◌, ◌<◌, ◌≡◌, ◌≢◌, inl, inr, refl, sym, ap, subst, ◌%◌, ◌^◌, get_elem?-exchange, ◌∙◌,
  ltb, Bool, true, false, Option, none, some, List, [], ◌∷◌, ◌++◌, Perm, arith, take, update,
  get_elem?, get_elem?_total, get_elem?_bound, Bool-cases, get_elem?-append, get_elem?-append_last,
  length-append, get_elem?-take, length-take, take-append_last,
}
use llm_d_inference_schedule.Prelude.Outcome.{
  err, ◌>>=◌, Yields, yields, Yields-then, Yields-weaken, Yields-branch, invalid_queue_item_handle,
}
use llm_d_inference_schedule.Item.{Item, own, add_u64}
use llm_d_inference_schedule.Queue.Bytes.{
  total-perm, CountsBytes, add_u64-CountsBytes, sub_u64-CountsBytes,
}
use llm_d_inference_schedule.Queue.MaxMinHeap.{Heap, len, swap, down, push, add}
use llm_d_inference_schedule.Queue.MaxMinHeap.Removal.{invalidate, drop_last, remove_at, remove}
use llm_d_inference_schedule.Queue.MaxMinHeap.Tracking.{
  Registered, IsTracked, Moved, len-Moved, load-ok, swap_moves,
}
use llm_d_inference_schedule.Queue.MaxMinHeap.Moves.{down_moves, up_moves}

pub record IsValid (h : Heap) : Type 0 where
  pub tracked : IsTracked h
  pub counted : CountsBytes h.byte_size h.items

-- The item is in no position of the queue.
abbrev pub IsAbsent : Item → Heap → Type 0
IsAbsent x h = (i : ℕ) (y : Item) → get_elem? h.items i ≡ some y → y.ref ≢ x.ref

abbrev pub grow : Heap → Item → Heap
grow h x = record h {
  items = h.items ++ x ∷ [];
  handles = update h.handles h.next (some h.next);
  handle_of = update h.handle_of x.ref (some h.next);
  cell = update h.cell h.next (record { item = x; index = len h; is_invalidated = false });
  next = suc h.next;
}

pub grow-IsTracked : (h : Heap) (x : Item) → IsTracked h → IsAbsent x h → IsTracked (grow h x)
grow-IsTracked h x t absent c z e = elim (Bool-cases (ltb c (len h))) [
  | inl old ↦
      let before = sym (get_elem?-append h.items (x ∷ []) c (ground arith)) ∙ e in
      let (r, p) = t c z before in
      let other = absent c z before in
      (r, ground (arith, p.known, p.mapped, p.placed, p.live, p.allocated))
  | inr new ↦
      let bound = get_elem?_bound (h.items ++ x ∷ []) c z e in
      let last : c ≡ len h = ground (arith, length-append h.items (x ∷ [])) in
      let same : z ≡ x = ground (arith, get_elem?-append_last h.items x) in
      (h.next, rw (last, same) (ground arith))
]

recount-IsTracked : (h : Heap) (n : ℕ) → IsTracked h → IsTracked (record h { byte_size = n })
recount-IsTracked h n t i x e =
    let (r, p) = t i x e in (r, ground (arith, p.known, p.mapped, p.placed, p.live, p.allocated))

-- The heap without its last item, whose handle is `r`.
module _ (h : Heap) (n r : ℕ) (x : Item) (size : len h ≡ suc n) (at : get_elem? h.items n ≡ some x)
    (own_handle : Registered h n x r) where
  drop_last-IsTracked : IsTracked h → IsTracked (drop_last h n r x)
  unfolding drop_last
  drop_last-IsTracked t c z e =
      let inside = get_elem?_bound (take n h.items) c z e in
      let c_lt : c < n = omega (arith, length-take n h.items (omega arith)) in
      let (s, p) = t c z (sym (get_elem?-take n h.items c c_lt) ∙ e) in
      (s, ground (arith, p.known, p.mapped, p.placed, p.live, p.allocated, own_handle.placed))

  drop_last-perm : Perm (x ∷ (drop_last h n r x).items) h.items
  unfolding drop_last
  drop_last-perm =
      Perm.trans (Perm.symm (perm_append_singleton x (take n h.items)))
        (rw (take-append_last n h.items x size at) (Perm.refl _))

  drop_last-counted :
      CountsBytes h.byte_size h.items
      → CountsBytes (drop_last h n r x).byte_size (drop_last h n r x).items
  unfolding drop_last
  drop_last-counted c =
      sub_u64-CountsBytes h.byte_size x (take n h.items)
        (c ∙ ap (λ (k : ℕ). k % 2 ^ 64) (sym (total-perm drop_last-perm)))

  drop_last-IsValid : IsValid h → IsValid (drop_last h n r x)
  drop_last-IsValid v = record {
    tracked = drop_last-IsTracked v.tracked;
    counted = drop_last-counted v.counted;
  }

  drop_last-unregistered : (drop_last h n r x).handles r ≡ none
  unfolding drop_last
  drop_last-unregistered = ground arith

Moved-IsValid : {h h' : Heap} → IsValid h → Moved h h' → IsValid h'
Moved-IsValid v m = record {
  tracked = m.tracked;
  counted = m.byte_size_same ∙ v.counted ∙ ap (λ (k : ℕ). k % 2 ^ 64) (sym (total-perm m.perm));
}

invalidate-IsValid : (h : Heap) (r : ℕ) → h.handles r ≡ none → IsValid h → IsValid (invalidate h r)
unfolding invalidate
invalidate-IsValid h r free v = record {
  tracked = λ c z e.
      let (s, p) = v.tracked c z e in
      (s, ground (arith, p.known, p.mapped, p.placed, p.live, p.allocated));
  counted = v.counted;
}

-- What Remove returns for the handle `r` of `x`: the item, a valid queue of the others, and a handle
-- that is invalid and registered no more.
pub record Removed (h : Heap) (r : ℕ) (x : Item) (result : Item × Heap) : Type 0 where
  pub item : result.0 ≡ x
  pub valid : IsValid result.1
  pub others : Perm (x ∷ result.1.items) h.items
  pub invalidated : (result.1.cell r).is_invalidated ≡ true
  pub unregistered : result.1.handles r ≡ none

finish_remove :
    (h h' : Heap) (r : ℕ) (x : Item)
    → IsValid h'
    → h'.handles r ≡ none
    → Perm (x ∷ h'.items) h.items
    → Removed h r x (x, invalidate h' r)
unfolding invalidate
finish_remove h h' r x v free p = record {
  item = refl;
  valid = invalidate-IsValid h' r free v;
  others = p;
  invalidated = ground arith;
  unregistered = free;
}

-- The end of Add, once the new item has been moved to its place.
pub grown-IsValid :
    (h h' : Heap) (x : Item)
    → IsValid h
    → Moved (grow h x) h'
    → IsValid (record h' { byte_size = add_u64 h'.byte_size x.byte_size })
      × Perm h'.items (x ∷ h.items)
grown-IsValid h h' x v m =
    let same = Perm.trans m.perm (perm_append_singleton x h.items) in
    let sum = add_u64-CountsBytes h.byte_size x h.items v.counted in
    (
      record {
        tracked = recount-IsTracked h' _ m.tracked;
        counted =
            ap (λ (k : ℕ). add_u64 k x.byte_size) m.byte_size_same
            ∙ sum
            ∙ ap (λ (k : ℕ). k % 2 ^ 64) (sym (total-perm same));
      },
      same,
    )

module _ (less : Item → Item → Bool) where
  -- Add of an item that is not there puts exactly the item into a valid heap, and keeps the handles, the
  -- positions and the byte count right, whatever the policy's order is.
  pub add_contents :
      (h : Heap) (x : Item)
      → IsValid h
      → IsAbsent x h
      → Yields (λ h'. IsValid h' × Perm h'.items (x ∷ h.items)) (add less h x)
  unfolding add push
  add_contents h x v absent =
      Yields-then
        (up_moves less (grow h x) (len (grow h x) - 1) (grow-IsTracked h x v.tracked absent)
          (omega (arith, length-append h.items (x ∷ []))))
        λ h' m. yields (grown-IsValid h h' x v m)

  -- Remove at a position before the last.
  remove_inner :
      (h : Heap) (i n r : ℕ) (x : Item)
      → IsValid h
      → len h ≡ suc n
      → i < n
      → get_elem? h.items i ≡ some x
      → Registered h i x r
      → Yields
          (λ h'. IsValid h' × (h'.handles r ≡ none) × Perm (x ∷ h'.items) h.items)
          (swap h i n >>= λ h₁. down less (drop_last h₁ n r x) i)
  remove_inner h i n r x v size hi at p =
      let (y, ey) = get_elem?_total h.items n (omega arith) in
      Yields-then (swap_moves h i n x y v.tracked at ey) λ h₁ (m, e).
        let last : get_elem? h₁.items n ≡ some x = ground (
          arith,
          ap (λ (l : List Item). get_elem? l n) e,
          get_elem?-exchange h.items i n x y at ey n,
        ) in
        let (s, q) = m.tracked n x last in
        let same : s ≡ r =
          ground (arith, ap (λ (g : ℕ → Option ℕ). g x.ref) m.handle_of_same, p.known, q.known) in
        let own_handle : Registered h₁ n x r = subst (Registered h₁ n x) same q in
        let w =
          drop_last-IsValid h₁ n r x (len-Moved m ∙ size) last own_handle (Moved-IsValid v m) in
        Yields-weaken (down_moves less (drop_last h₁ n r x) i w.tracked) λ h₂ k. (
          Moved-IsValid w k,
          ap (λ (g : ℕ → Option ℕ). g r) k.handles_same
              ∙ drop_last-unregistered h₁ n r x (len-Moved m ∙ size) last own_handle,
          Perm.trans (Perm.cons x k.perm)
              (Perm.trans (drop_last-perm h₁ n r x (len-Moved m ∙ size) last own_handle) m.perm),
        )

  remove_at_contents :
      (h : Heap) (i r : ℕ) (x : Item)
      → IsValid h
      → get_elem? h.items i ≡ some x
      → Registered h i x r
      → Yields (Removed h r x) (remove_at less h r)
  unfolding remove_at
  remove_at_contents h i r x v at p =
      let hi = get_elem?_bound h.items i x at in
      let n = len h - 1 in
      let size : len h ≡ suc n = omega arith in
      let found = load-ok h i x at in
      rw (p.placed, found)
        (Yields-then
          (Yields-branch (ltb i n) (λ inner. remove_inner h i n r x v size (ground arith) at p)
            (λ outer.
              let last : i ≡ n = ground arith in
              let there : get_elem? h.items n ≡ some x =
                subst (λ k. get_elem? h.items k ≡ some x) last at in
              let own_handle = subst (λ k. Registered h k x r) last p in
              yields (
                drop_last-IsValid h n r x size there own_handle v,
                drop_last-unregistered h n r x size there own_handle,
                drop_last-perm h n r x size there own_handle,
              )))
          λ h' q. yields (finish_remove h h' r x q.0 q.1 q.2))

  -- Remove with the handle of an item in a valid heap returns and takes out exactly that item, wherever
  -- it stands; the heap stays valid, and the handle is neither valid nor registered any more.
  pub remove_contents :
      (h : Heap) (i r : ℕ) (x : Item)
      → IsValid h
      → get_elem? h.items i ≡ some x
      → h.handle_of x.ref ≡ some r
      → Yields (Removed h r x) (remove less h (own r))
  unfolding remove
  remove_contents h i r x v at known =
      let (s, q) = v.tracked i x at in
      let same : s ≡ r = ground (arith, q.known) in
      let p = subst (Registered h i x) same q in
      rw (p.live, p.mapped) (remove_at_contents h i r x v at p)

  -- Remove with the handle of an item in a valid heap returns the item, and a second Remove with the
  -- same handle is refused.
  pub remove_twice :
      (h : Heap) (i r : ℕ) (x : Item)
      → IsValid h
      → get_elem? h.items i ≡ some x
      → h.handle_of x.ref ≡ some r
      → Yields
          (λ result.
            (result.0 ≡ x) × (remove less result.1 (own r) ≡ err invalid_queue_item_handle))
          (remove less h (own r))
  unfolding remove
  remove_twice h i r x v at known =
      Yields-weaken (remove_contents h i r x v at known) λ result q. (q.item, rw q.invalidated)
