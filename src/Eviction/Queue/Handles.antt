-- ===== src/Eviction/Queue/Handles.antt =====
-- pkg/epp/flowcontrol/eviction/queue.go: the handles are those of the entries of the heap.
use text.Mathlib.Text.{◌==◌ as str_eq}
use text.Mathlib.TextEquality.{eq_iff}
use Prim.Native.String.{String}
use llm_d_inference_schedule.Prelude.{
  ℕ, if◌then◌else◌, Bool, false, none, some, List, ◌≡◌, ◌≢◌, refl, ◌∙◌, sym, ap, subst, arith, inl,
  inr, Bool-cases, Option-cases, lookup, delete, lookup-delete,
}
use llm_d_inference_schedule.Prelude.Outcome.{ok, ◌>>=◌, Yields, yields, Yields-then}
use llm_d_inference_schedule.Eviction.Heap.Insertion.{IsPushed}
use llm_d_inference_schedule.Prelude.{lookup-put, put}
use llm_d_inference_schedule.Eviction.Policies.{EvictionItem}
use llm_d_inference_schedule.Eviction.Heap.{EvictionHeap}
use llm_d_inference_schedule.Eviction.Heap.Indices.{IsIndexed}
use llm_d_inference_schedule.Eviction.Heap.Contents.{In, IsRemoved, remove-IsRemoved}
use llm_d_inference_schedule.Eviction.Queue.{EvictionQueue, remove_at, drop_entry}

abbrev pub id_of : EvictionHeap → ℕ → String
id_of h a = (h.cell a).item.request_id

-- A handle leads to the request's entry, and every entry has its request's handle.
pub record IsHandled (h : EvictionHeap) (handles : List (String × ℕ)) : Type 0 where
  pub sound : IsIndexed h
  pub leads : (id : String) (a : ℕ) → lookup str_eq handles id ≡ some a → In h a × (id_of h a ≡ id)
  pub handled : (a : ℕ) → In h a → lookup str_eq handles (id_of h a) ≡ some a

-- An entry that goes takes its request's handle with it.
pub removed-IsHandled :
    (h h' : EvictionHeap) (handles : List (String × ℕ)) (e : ℕ)
    → IsHandled h handles
    → IsRemoved h e h'
    → IsHandled h' (delete str_eq handles (id_of h e))
removed-IsHandled h h' handles e s r = record {
  sound = r.sound;
  leads = λ id a found.
      let kept : lookup str_eq handles id ≡ some a =
        ground (arith, found, lookup-delete str_eq eq_iff handles (id_of h e) id) in
      let (inside, named) = s.leads id a kept in
      let other : a ≢ e = λ same. ground (
        arith,
        found,
        lookup-delete str_eq eq_iff handles (id_of h e) id,
        named,
        ap (id_of h) same,
        eq_iff (id_of h e) id,
      ) in
      (r.others a inside other, ap (λ item. item.request_id) (r.items a) ∙ named);
  handled = λ a inside.
      let (there, other) = r.rest a inside in
      let same : id_of h' a ≡ id_of h a = ap (λ item. item.request_id) (r.items a) in
      let differ : str_eq (id_of h e) (id_of h a) ≡ false =
        elim (Bool-cases (str_eq (id_of h e) (id_of h a))) [
          | inl equal ↦ absurd (
              other (
                ground (
                  arith,
                  s.handled a there,
                  s.handled e r.was,
                  ap (lookup str_eq handles) ((eq_iff (id_of h e) (id_of h a)).0 equal),
                )))
          | inr differ ↦ differ
        ] in
      ap (lookup str_eq (delete str_eq handles (id_of h e))) same
      ∙ ground (
        arith,
        lookup-delete str_eq eq_iff handles (id_of h e) (id_of h a),
        s.handled a there,
        differ,
      );
}

-- The request's entry has gone, and nothing else.
pub record IsDropped (q : EvictionQueue) (id : String) (q' : EvictionQueue) : Type 0 where
  pub sound : IsHandled q'.heap q'.handles
  pub in_flight : q'.all_in_flight ≡ q.all_in_flight
  pub handles :
      (j : String)
      → lookup str_eq q'.handles j ≡ (if str_eq id j then none else lookup str_eq q.handles j)
  pub rest : (a : ℕ) → In q'.heap a → In q.heap a × (str_eq id (id_of q.heap a) ≡ false)
  pub items : (a : ℕ) → (q'.heap.cell a).item ≡ (q.heap.cell a).item

module _ (less : EvictionItem → EvictionItem → Bool) where
  pub drop_entry-IsDropped :
      (q : EvictionQueue) (id : String)
      → IsHandled q.heap q.handles
      → Yields (IsDropped q id) (drop_entry less q id (lookup str_eq q.handles id))
  unfolding drop_entry remove_at
  drop_entry-IsDropped q id s = elim (Option-cases (lookup str_eq q.handles id)) [
    | inl missing ↦ rw missing (
        yields (record {
          sound = s;
          in_flight = refl;
          handles = λ j. ground (arith, missing, eq_iff id j);
          rest = λ a inside.
              (inside, ground (arith, missing, s.handled a inside, eq_iff id (id_of q.heap a)));
          items = λ a. refl;
        }))
    | inr (e, there) ↦
        let ((i, here), named) = s.leads id e there in
        subst (λ o. Yields (IsDropped q id) (drop_entry less q id o)) (sym there)
          (subst
            (λ index. Yields (IsDropped q id) (
              remove_at less q.heap index >>= λ result.
              ok (record q { heap = result.0; handles = delete str_eq q.handles id })))
            (sym (s.sound.indexed i e here))
            (Yields-then (remove-IsRemoved less q.heap i e here s.sound) (λ (h, e') (same, r).
              yields (record {
                sound =
                    subst (λ k. IsHandled h (delete str_eq q.handles k)) named
                      (removed-IsHandled q.heap h q.handles e s r);
                in_flight = refl;
                handles = λ j. lookup-delete str_eq eq_iff q.handles id j;
                rest = λ a inside.
                    let (was, other) = r.rest a inside in (was, distinct a e was there other);
                items = r.items;
              }))))
  ]
    where
      distinct :
          (a e : ℕ)
          → In q.heap a
          → lookup str_eq q.handles id ≡ some e
          → a ≢ e
          → str_eq id (id_of q.heap a) ≡ false
      distinct a e was there other = elim (Bool-cases (str_eq id (id_of q.heap a))) [
        | inl equal ↦ absurd (
            other (
              ground (
                arith,
                s.handled a was,
                there,
                ap (lookup str_eq q.handles) ((eq_iff id (id_of q.heap a)).0 equal),
              )))
        | inr differ ↦ differ
      ]

-- An old entry is not the new one, and has its item still.
pub pushed-old :
    (h h' : EvictionHeap) (item : EvictionItem) (e : ℕ)
    → IsIndexed h
    → IsPushed h item e h'
    → (a : ℕ) → In h a
    → (h'.cell a).item ≡ (h.cell a).item
pushed-old h h' item e s p a (i, here) =
    p.items a (λ same. ground (arith, same, p.fresh, s.known i a here))

-- A new entry for a request without a handle takes the handle.
pub pushed-IsHandled :
    (h h' : EvictionHeap) (handles : List (String × ℕ)) (item : EvictionItem) (e : ℕ)
    → IsHandled h handles
    → lookup str_eq handles item.request_id ≡ none
    → IsPushed h item e h'
    → IsHandled h' (put str_eq handles item.request_id e)
pushed-IsHandled h h' handles item e s free p =
    let id = item.request_id in
    let at_put = λ (j : String). lookup-put str_eq eq_iff handles id e j in
    let its_id : id_of h' e ≡ id = ap (λ x. x.request_id) p.its_item in
    let old_id : (a : ℕ) → In h a → id_of h' a ≡ id_of h a =
      λ a inside. ap (λ x. x.request_id) (pushed-old h h' item e s.sound p a inside) in
    record {
      sound = p.sound;
      leads = λ j a found. elim (Bool-cases (str_eq id j)) [
        | inl same ↦
            let new : e ≡ a = ground (arith, at_put j, same, found) in
            subst (λ b. In h' b × (id_of h' b ≡ j)) new (p.inside, its_id ∙ (eq_iff id j).0 same)
        | inr other ↦
            let (inside, named) = s.leads j a (ground (arith, at_put j, other, found)) in
            (p.others a inside, old_id a inside ∙ named)
      ];
      handled = λ a inside. elim (p.rest a inside) [
        | inl new ↦
            subst (λ b. lookup str_eq (put str_eq handles id e) (id_of h' b) ≡ some b) (sym new)
              (ap (lookup str_eq (put str_eq handles id e)) its_id
                ∙ ground (arith, at_put id, eq_iff id id))
        | inr old ↦
            ap (lookup str_eq (put str_eq handles id e)) (old_id a old)
            ∙ ground (arith, at_put (id_of h a), s.handled a old, eq_iff id (id_of h a), free)
      ];
    }
