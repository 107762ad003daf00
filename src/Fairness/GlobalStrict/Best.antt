-- ===== src/Fairness/GlobalStrict/Best.antt =====
-- pkg/epp/framework/plugins/flowcontrol/fairness/globalstrict/global_strict.go: a pick finds the best head.
use Prim.Native.String.{String}
use text.Mathlib.Text.{◌==◌ as str_eq}
use text.Mathlib.TextEquality.{eq_iff}
use llm_d_inference_schedule.Prelude.{
  ◌<◌, ◌↔◌, Bool-cases, Option-cases, ◌≡◌, refl, sym, ◌∙◌, ◌⊎◌, inl, inr, Bool, true, false, Option,
  none, some, List, [], ◌∷◌, arith,
}
use llm_d_inference_schedule.Item.{Item}
use llm_d_inference_schedule.Ordering.StrictWeak.{IsStrictWeak}
use llm_d_inference_schedule.Fairness.GlobalStrict.{FlowQueue, picked, offered, pick_from, pick}

module _ (policy_type : String) (less : Item → Item → Bool) where
  -- The queues share one policy.
  abbrev pub IsUniform : List (Option FlowQueue) → Type 0
  IsUniform [] = Unit
  IsUniform (none ∷ queues) = IsUniform queues
  IsUniform (some q ∷ queues) = (q.policy_type ≡ policy_type) × (q.less ≡ less) × IsUniform queues

  -- No queue of the list offers an item that comes before `x`.
  IsUnbeaten : Item → List (Option FlowQueue) → Type 0
  IsUnbeaten x [] = Unit
  IsUnbeaten x (q ∷ queues) =
      ((f : FlowQueue) (y : Item) → offered q ≡ some (f, y) → less y x ≡ false)
      × IsUnbeaten x queues

  -- The queue is one of the list, and offers `x`.
  Offers : FlowQueue → Item → List (Option FlowQueue) → Type 0
  Offers f x [] = ⊥
  Offers f x (q ∷ queues) = (offered q ≡ some (f, x)) ⊎ Offers f x queues

  IsBest : List (Option FlowQueue) → FlowQueue → Type 0
  IsBest queues f = (x : Item) × Offers f x queues × IsUnbeaten x queues

  OffersNothing : List (Option FlowQueue) → Type 0
  OffersNothing [] = Unit
  OffersNothing (q ∷ queues) = (offered q ≡ none) × OffersNothing queues

offered-none : offered none ≡ none
unfolding offered
offered-none = refl

offered-same : (q f : FlowQueue) (x : Item) → offered (some q) ≡ some (f, x) → f ≡ q
unfolding offered
offered-same q f x e = ground (arith, e)

module _ (policy_type : String) (less : Item → Item → Bool) (strict : IsStrictWeak less) where
  -- What a search ends with, that has `f` with the head `x` as its best queue before `queues`.
  abbrev Improved : FlowQueue → Item → List (Option FlowQueue) → FlowQueue → Item → Type 0
  Improved f x queues g z =
      (((g ≡ f) × (z ≡ x)) ⊎ Offers policy_type less g z queues)
      × ((z ≡ x) ⊎ (less z x ≡ true))
      × IsUnbeaten policy_type less z queues

  -- An item not after `x` is not beaten by what does not beat `x`.
  unbeaten : (x y z : Item) → (z ≡ x) ⊎ (less z x ≡ true) → less y x ≡ false → less y z ≡ false
  unbeaten x y z (inl same) h = rw same h
  unbeaten x y z (inr before) h = ground (arith, strict.transitive y z x, before, h)

  beaten :
      (x y z : Item)
      → (z ≡ y) ⊎ (less z y ≡ true)
      → less y x ≡ true
      → (less z x ≡ true) × (less y z ≡ false)
  beaten x y z (inl same) h = (rw same h, rw same (strict.irreflexive y))
  beaten x y z (inr before) h = (
    strict.transitive z y x before h,
    ground (arith, strict.transitive y z y, before, strict.irreflexive y),
  )

  first :
      (q : Option FlowQueue) (queues : List (Option FlowQueue)) (h g : FlowQueue) (y z : Item)
      → offered q ≡ some (h, y)
      → ((g ≡ h) × (z ≡ y)) ⊎ Offers policy_type less g z queues
      → (offered q ≡ some (g, z)) ⊎ Offers policy_type less g z queues
  first q queues h g y z offer (inl (same, same')) = inl (rw (same, same') offer)
  first q queues h g y z offer (inr further) = inr further

  further :
      (q : Option FlowQueue) (queues : List (Option FlowQueue)) (f g : FlowQueue) (x z : Item)
      → ((g ≡ f) × (z ≡ x)) ⊎ Offers policy_type less g z queues
      → ((g ≡ f) × (z ≡ x)) ⊎ ((offered q ≡ some (g, z)) ⊎ Offers policy_type less g z queues)
  further q queues f g x z (inl same) = inl same
  further q queues f g x z (inr found) = inr (inr found)

  -- A queue that offers nothing changes nothing.
  skipped :
      (q : Option FlowQueue) (queues : List (Option FlowQueue)) (f g : FlowQueue) (x z : Item)
      → offered q ≡ none
      → Improved f x queues g z
      → Improved f x (q ∷ queues) g z
  unfolding IsUnbeaten Offers
  skipped q queues f g x z empty (found, before, rest) =
      (further q queues f g x z found, before, ((λ h y offer. ground (arith, empty, offer)), rest))

  -- A queue whose head comes first takes the place of the best so far, and else it does not.
  replaced :
      (q : Option FlowQueue) (queues : List (Option FlowQueue)) (f h g : FlowQueue) (x y z : Item)
      → offered q ≡ some (h, y)
      → less y x ≡ true
      → Improved h y queues g z
      → Improved f x (q ∷ queues) g z
  unfolding IsUnbeaten Offers
  replaced q queues f h g x y z offer ahead_of (found, before, rest) =
      let (ahead, safe) = beaten x y z before ahead_of in
      (
        inr (first q queues h g y z offer found),
        inr ahead,
        ((λ h' y' offer'. ground (arith, offer, offer', safe)), rest),
      )

  passed :
      (q : Option FlowQueue) (queues : List (Option FlowQueue)) (f h g : FlowQueue) (x y z : Item)
      → offered q ≡ some (h, y)
      → less y x ≡ false
      → Improved f x queues g z
      → Improved f x (q ∷ queues) g z
  unfolding IsUnbeaten Offers
  passed q queues f h g x y z offer second (found, before, rest) =
      let safe = unbeaten x y z before second in
      (
        further q queues f g x z found,
        before,
        ((λ h' y' offer'. ground (arith, offer, offer', safe)), rest),
      )

  improve :
      (queues : List (Option FlowQueue)) (f : FlowQueue) (x : Item)
      → f.policy_type ≡ policy_type
      → f.less ≡ less
      → IsUniform policy_type less queues
      → (g : FlowQueue) × (z : Item) × (pick_from queues (some (f, x)) ≡ picked (some g))
        × Improved f x queues g z
  unfolding pick_from IsUnbeaten offered
  improve [] f x ptype pless uniform = (f, x, refl, (inl (refl, refl), inl refl, tt))
  improve (none ∷ queues) f x ptype pless uniform =
      let (g, z, ends, best) = improve queues f x ptype pless uniform in
      (g, z, ends, skipped none queues f g x z refl best)
  improve (some q ∷ queues) f x ptype pless (qtype, qless, uniform) =
      elim (Option-cases (offered (some q))) [
        | inl empty ↦
            let (g, z, ends, best) = improve queues f x ptype pless uniform in
            (g, z, rw (pick_from, empty) ends, skipped (some q) queues f g x z empty best)
        | inr ((h, y), offer) ↦
            let same = offered-same q h y offer in
            let htype : h.policy_type ≡ policy_type = rw same qtype in
            let hless : h.less ≡ less = rw same qless in
            let alike : str_eq h.policy_type f.policy_type ≡ true =
              (eq_iff h.policy_type f.policy_type).1 (htype ∙ sym ptype) in
            elim (Bool-cases (f.less y x)) [
              | inl first ↦
                  let (g, z, ends, best) = improve queues h y htype hless uniform in
                  (
                    g,
                    z,
                    rw (pick_from, offer, alike, first) ends,
                    replaced (some q) queues f h g x y z offer (rw pless at first) best,
                  )
              | inr second ↦
                  let (g, z, ends, best) = improve queues f x ptype pless uniform in
                  (
                    g,
                    z,
                    rw (pick_from, offer, alike, second) ends,
                    passed (some q) queues f h g x y z offer (rw pless at second) best,
                  )
            ]
      ]

  abbrev Searched : List (Option FlowQueue) → Type 0
  Searched queues =
      (OffersNothing policy_type less queues × (pick (some queues) ≡ picked none))
      ⊎ ((g : FlowQueue) × IsBest policy_type less queues g
          × (pick (some queues) ≡ picked (some g)))

  Searched-skip :
      (q : Option FlowQueue) (queues : List (Option FlowQueue))
      → offered q ≡ none
      → Searched queues
      → Searched (q ∷ queues)
  unfolding pick pick_from IsBest OffersNothing Offers IsUnbeaten
  Searched-skip q queues empty (inl (nothing, ends)) =
      inl ((empty, nothing), rw (pick_from, empty) ends)
  Searched-skip q queues empty (inr (g, (z, found, rest), ends)) = inr (
    g,
    (z, inr found, ((λ h y offer. ground (arith, empty, offer)), rest)),
    rw (pick_from, empty) ends,
  )

  pick-Searched :
      (queues : List (Option FlowQueue)) → IsUniform policy_type less queues → Searched queues
  unfolding pick pick_from IsBest OffersNothing Offers IsUnbeaten
  pick-Searched [] uniform = inl (tt, refl)
  pick-Searched (none ∷ queues) uniform =
      Searched-skip none queues offered-none (pick-Searched queues uniform)
  pick-Searched (some q ∷ queues) (qtype, qless, uniform) = elim (Option-cases (offered (some q))) [
    | inl empty ↦ Searched-skip (some q) queues empty (pick-Searched queues uniform)
    | inr ((h, y), offer) ↦
        let same = offered-same q h y offer in
        let (g, z, ends, (found, before, rest)) =
          improve queues h y (rw same qtype) (rw same qless) uniform in
        inr (
          g,
          (
            z,
            first (some q) queues h g y z offer found,
            (
              (λ f x offer'.
                  ground (arith, offer, offer', unbeaten y y z before (strict.irreflexive y))),
              rest,
            ),
          ),
          rw (pick_from, offer) ends,
        )
  ]

-- A queue that is there has the item as its head: its length is not zero and PeekHead shows the item.
abbrev pub HasHead : Option FlowQueue → FlowQueue → Item → Type 0
HasHead q f x = (q ≡ some f) × (0 < f.len) × (f.head ≡ some x)

offered-HasHead :
    (q : Option FlowQueue) (f : FlowQueue) (x : Item) → (offered q ≡ some (f, x)) ↔ HasHead q f x
unfolding offered
offered-HasHead none f x = (
  (λ offer. absurd (ground (arith, offer))),
  λ (there, some_item, head). absurd (ground (arith, there)),
)
offered-HasHead (some q) f x = elim (Option-cases q.head) [
  | inl empty ↦ (
    (λ offer. absurd (ground (arith, offer, empty))),
    λ (there, some_item, head).
        let same : q ≡ f = ground (arith, there) in
        absurd (ground (arith, empty, rw (sym same) at head)),
  )
  | inr (y, shown) ↦ (
    (λ offer.
        let same : f ≡ q = offered-same q f x offer in
        rw same (refl, ground (arith, offer, shown), ground (arith, offer, shown))),
    λ (there, some_item, head).
        let same : f ≡ q = ground (arith, there) in
        let here : q.head ≡ some x = rw same at head in
        let full : 0 < q.len = rw same at some_item in rw same (ground (arith, here, full)),
  )
]

-- No queue of the list has a head that comes before `x`.
pub NoneBefore : (Item → Item → Bool) → Item → List (Option FlowQueue) → Type 0
NoneBefore less x [] = Unit
NoneBefore less x (q ∷ queues) =
    ((f : FlowQueue) (y : Item) → HasHead q f y → less y x ≡ false) × NoneBefore less x queues

-- The queue is one of the list, and has the head `x`.
pub AnyHead : FlowQueue → Item → List (Option FlowQueue) → Type 0
AnyHead f x [] = ⊥
AnyHead f x (q ∷ queues) = HasHead q f x ⊎ AnyHead f x queues

pub NoHeads : List (Option FlowQueue) → Type 0
NoHeads [] = Unit
NoHeads (q ∷ queues) = ((f : FlowQueue) (x : Item) → HasHead q f x → ⊥) × NoHeads queues

module _ (policy_type : String) (less : Item → Item → Bool) where
  IsUnbeaten-NoneBefore :
      (x : Item) (queues : List (Option FlowQueue))
      → IsUnbeaten policy_type less x queues
      → NoneBefore less x queues
  unfolding NoneBefore IsUnbeaten
  IsUnbeaten-NoneBefore x [] h = tt
  IsUnbeaten-NoneBefore x (q ∷ queues) (here, h) =
      ((λ f y head. here f y ((offered-HasHead q f y).1 head)), IsUnbeaten-NoneBefore x queues h)

  Offers-AnyHead :
      (f : FlowQueue) (x : Item) (queues : List (Option FlowQueue))
      → Offers policy_type less f x queues
      → AnyHead f x queues
  unfolding AnyHead Offers
  Offers-AnyHead f x [] h = h
  Offers-AnyHead f x (q ∷ queues) (inl here) = inl ((offered-HasHead q f x).0 here)
  Offers-AnyHead f x (q ∷ queues) (inr later) = inr (Offers-AnyHead f x queues later)

  OffersNothing-NoHeads :
      (queues : List (Option FlowQueue)) → OffersNothing policy_type less queues → NoHeads queues
  unfolding NoHeads OffersNothing
  OffersNothing-NoHeads [] h = tt
  OffersNothing-NoHeads (q ∷ queues) (empty, h) = (
    (λ f x head. absurd (ground (arith, empty, (offered-HasHead q f x).1 head))),
    OffersNothing-NoHeads queues h,
  )

  -- No queue is picked and none has an item, or one is picked whose head no other head comes before.
  abbrev pub Picks : List (Option FlowQueue) → Type 0
  Picks queues =
      (NoHeads queues × (pick (some queues) ≡ picked none))
      ⊎ ((g : FlowQueue) × (x : Item) × AnyHead g x queues
          × NoneBefore less x queues
          × (pick (some queues) ≡ picked (some g)))

  -- If the queues share one policy, whose Less is a strict weak order: if no queue has an item, no queue is
  -- picked, and else a queue of the band is whose head no head of another queue comes before.
  pub pick-IsBest :
      (strict : IsStrictWeak less) (queues : List (Option FlowQueue))
      → IsUniform policy_type less queues
      → Picks queues
  unfolding IsBest
  pick-IsBest strict queues uniform = elim (pick-Searched policy_type less strict queues uniform) [
    | inl (nothing, ends) ↦ inl (OffersNothing-NoHeads queues nothing, ends)
    | inr (g, (x, found, first), ends) ↦
        inr (g, x, Offers-AnyHead g x queues found, IsUnbeaten-NoneBefore x queues first, ends)
  ]
