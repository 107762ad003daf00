-- ===== src/Controller/Processor/Cycle.antt =====
-- pkg/epp/flowcontrol/controller/internal/processor.go: which bands a dispatch cycle looks at, and what it
-- does to the items.
use llm_d_inference_schedule.Prelude.{
  fun_ext, subst, sym, ◌∙◌, ap, Option-cases, Bool-cases, ℕ, suc, ◌+◌, ◌<◌, ◌≤◌, ◌≡◌, ◌⊎◌, inl, inr,
  refl, Bool, true, Option, none, some, List, [], ◌∷◌, ◌++◌, length, get_elem?, get_elem?_total,
  arith,
}
use llm_d_inference_schedule.Prelude.Int.{ℤ}
use llm_d_inference_schedule.Prelude.Outcome.{Run, Yields, yields, Yields-then, Yields-weaken}
use llm_d_inference_schedule.Controller.FlowItem.{dispatched, FlowItem, FinalState}
use llm_d_inference_schedule.Controller.FlowItem.Once.{IsPublished}
use llm_d_inference_schedule.Controller.Shard.{Request, RegistryShard}
use llm_d_inference_schedule.Controller.Processor.{
  World, Selected, select_failed, nothing, selected, Dispatch, dispatch_failed, done, select_item,
  dispatch_item, after_dispatch, after_select, dispatch_band, dispatch_bands, dispatch_cycle,
  finalize_at,
}
use llm_d_inference_schedule.Controller.Processor.Publishing.{
  AllPublished, OthersKept, finalize_at-fresh, finalize_at-final,
}

module _ {S : Type 0} where
  abbrev pub SameItems : World S → World S → Type 0
  SameItems w w' = (q : ℕ) → w'.items q ≡ w.items q

  -- One item that had published nothing has published that it was dispatched.
  abbrev pub DispatchedOne : World S → World S → Type 0
  DispatchedOne w w' =
      (r : ℕ) × IsPublished none (w.items r)
      × IsPublished (some (record { outcome = dispatched; error = none })) (w'.items r)
      × OthersKept w r w'

  -- At most one item changes: by being dispatched, and then the cycle reports it.
  abbrev pub CycleResult : World S → Bool × World S → Type 0
  CycleResult w result = SameItems w result.1 ⊎ ((result.0 ≡ true) × DispatchedOne w result.1)

  AllPublished-same : (w w' : World S) → SameItems w w' → AllPublished w → AllPublished w'
  AllPublished-same w w' same published r =
      let (o, holds) = published r in (o, subst (IsPublished o) (sym (same r)) holds)

  DispatchedOne-same :
      (w w' w'' : World S) → SameItems w w' → DispatchedOne w' w'' → DispatchedOne w w''
  DispatchedOne-same w w' w'' same (r, before, after, others) =
      (r, subst (IsPublished none) (same r) before, after, λ q other. others q other ∙ same q)

  CycleResult-same :
      (w w' : World S) (result : Bool × World S)
      → SameItems w w'
      → CycleResult w' result
      → CycleResult w result
  CycleResult-same w w' result same (inl kept) = inl (λ q. kept q ∙ same q)
  CycleResult-same w w' result same (inr (true_result, one)) =
      inr (true_result, DispatchedOne-same w w' result.1 same one)

  finalize_dispatched :
      (w : World S) (r : ℕ) (o : Option FinalState)
      → IsPublished o (w.items r)
      → Yields (λ w'. SameItems w w' ⊎ DispatchedOne w w') (finalize_at w r dispatched none)
  finalize_dispatched w r none fresh =
      Yields-weaken (finalize_at-fresh w r dispatched none fresh)
        λ w' holds. inr (r, fresh, holds.0, holds.2)
  finalize_dispatched w r (some s) final =
      Yields-weaken (finalize_at-final w r s dispatched none final) λ w' holds. inl holds.1

module _ {S : Type 0} (sp : RegistryShard S) (request : ℕ → Request) where
  select_item-SameItems : (w : World S) (p : ℤ) → (select_item sp request w p).1.items ≡ w.items
  unfolding select_item
  select_item-SameItems w p = ground arith

  dispatch_item-DispatchedOne :
      (w : World S) (r : ℕ)
      → AllPublished w
      → Yields
          (λ result. SameItems w result.1 ⊎ ((result.0 ≡ done) × DispatchedOne w result.1))
          (dispatch_item sp request w r)
  unfolding dispatch_item
  dispatch_item-DispatchedOne w r published =
      let key = (request r).flow_key in
      elim (Option-cases (sp.managed_queue w.shard key)) [
        | inr (e, lookup) ↦ rw (dispatch_item, lookup) (yields (inl λ q. refl))
        | inl lookup ↦ elim (Option-cases ((sp.remove w.shard key (w.items r).handle).0)) [
          | inl gone ↦ rw (dispatch_item, lookup, gone) (yields (inl λ q. refl))
          | inr (r', removed) ↦
              rw (dispatch_item, lookup, removed)
                (Yields-then
                  (finalize_dispatched (record w { shard = _ }) r' (published r').0
                    (published r').1)
                  λ w' holds.
                    yields (elim holds [ inl kept ↦ inl kept | inr one ↦ inr (refl, one) ]))
        ]
      ]

  after_dispatch-CycleResult :
      (w : World S) (result : Dispatch × World S) (next : World S → Run (Bool × World S))
      → SameItems w result.1 ⊎ ((result.0 ≡ done) × DispatchedOne w result.1)
      → ((w' : World S) → SameItems w w' → Yields (CycleResult w) (next w'))
      → Yields (CycleResult w) (after_dispatch sp request result next)
  unfolding after_dispatch
  after_dispatch-CycleResult w (dispatch_failed, w') next (inl same) continue = continue w' same
  after_dispatch-CycleResult w (dispatch_failed, w') next (inr one) continue =
      absurd (ground (arith, one.0))
  after_dispatch-CycleResult w (done, w') next (inl same) continue = yields (inl same)
  after_dispatch-CycleResult w (done, w') next (inr one) continue = yields (inr (refl, one.1))

  after_select-CycleResult :
      (w : World S) (choice : Selected × World S) (next : World S → Run (Bool × World S))
      → AllPublished w
      → SameItems w choice.1
      → ((w' : World S) → SameItems w w' → Yields (CycleResult w) (next w'))
      → Yields (CycleResult w) (after_select sp request choice next)
  unfolding after_select
  after_select-CycleResult w (select_failed, w') next published same continue = continue w' same
  after_select-CycleResult w (nothing, w') next published same continue = continue w' same
  after_select-CycleResult w (selected r, w') next published same continue =
      Yields-then (dispatch_item-DispatchedOne w' r (AllPublished-same w w' same published))
        λ result holds.
          after_dispatch-CycleResult w result next
            (elim holds [
              | inl kept ↦ inl (λ q. kept q ∙ same q)
              | inr one ↦ inr (one.0, DispatchedOne-same w w' result.1 same one.1)
            ])
            continue

  module _ {F : Type 0} (geb : F → F → Bool) (saturation : F) (ceilings : List F) where
    abbrev pub bands : List ℤ → ℕ → World S → Run (Bool × World S)
    bands = dispatch_bands sp request geb saturation ceilings

    hol_blocks_from :
        (before rest : List ℤ) (p : ℤ) (i : ℕ) (w : World S) (limit : F)
        → get_elem? ceilings (i + length before) ≡ some limit
        → geb saturation limit ≡ true
        → bands (before ++ p ∷ rest) i w ≡ bands before i w
    unfolding dispatch_bands dispatch_band
    hol_blocks_from [] rest p i w limit ceiling saturated =
        let here : get_elem? ceilings i ≡ some limit = grind arith in rw (here, saturated) refl
    hol_blocks_from (q ∷ before) rest p i w limit ceiling saturated =
        ap (dispatch_band sp request geb saturation ceilings q i w)
          (fun_ext λ w'. hol_blocks_from before rest p (suc i) w' limit (grind arith) saturated)

    band-CycleResult :
        (p : ℤ) (i : ℕ) (w : World S) (next : World S → Run (Bool × World S))
        → AllPublished w
        → i < length ceilings
        → ((w' : World S) → SameItems w w' → Yields (CycleResult w) (next w'))
        → Yields (CycleResult w) (dispatch_band sp request geb saturation ceilings p i w next)
    unfolding dispatch_band
    band-CycleResult p i w next published bound continue =
        let (limit, ceiling) = get_elem?_total ceilings i bound in
        let same = select_item-SameItems w p in
        elim (Bool-cases (geb saturation limit)) [
          | inl above ↦ rw (dispatch_band, ceiling, above) (yields (inl λ q. refl))
          | inr below ↦ elim (Option-cases (sp.priority_band_accessor w.shard p)) [
            | inr (e, lookup) ↦ rw (dispatch_band, ceiling, below, lookup) (continue w λ q. refl)
            | inl lookup ↦
                rw (dispatch_band, ceiling, below, lookup)
                  (after_select-CycleResult w (select_item sp request w p) next published
                    (λ q. ap (λ (f : ℕ → FlowItem). f q) same) continue)
          ]
        ]

    bands-CycleResult :
        (levels : List ℤ) (i : ℕ) (w : World S)
        → AllPublished w
        → i + length levels ≤ length ceilings
        → Yields (CycleResult w) (bands levels i w)
    unfolding dispatch_bands
    bands-CycleResult [] i w published bound = yields (inl λ q. refl)
    bands-CycleResult (p ∷ levels) i w published bound =
        band-CycleResult p i w (bands levels (suc i)) published (omega arith) λ w' same.
          Yields-weaken
            (bands-CycleResult levels (suc i) w' (AllPublished-same w w' same published)
              (omega arith))
            λ result. CycleResult-same w w' result same

    abbrev pub cycle : World S → Run (Bool × World S)
    cycle = dispatch_cycle sp request geb saturation ceilings

    -- If the policy gives a ceiling for every band, and each item has published nothing or one final
    -- state, a cycle ends without a panic, and changes at most
    -- one item: one that had published nothing is then dispatched, once, and the cycle reports true.
    pub dispatch_cycle-CycleResult :
        (w : World S)
        → AllPublished w
        → length (sp.all_ordered_priority_levels w.shard) ≤ length ceilings
        → Yields (CycleResult w) (cycle w)
    unfolding dispatch_cycle
    dispatch_cycle-CycleResult w published bound =
        bands-CycleResult _ 0 w published (omega (arith, bound))

    -- Head-of-line blocking: where a band is saturated, the cycle is the one over the bands of higher
    -- priority, whatever stands in that band and in the ones below it.
    pub hol_blocks :
        (before rest : List ℤ) (p : ℤ) (w : World S) (limit : F)
        → sp.all_ordered_priority_levels w.shard ≡ before ++ p ∷ rest
        → get_elem? ceilings (length before) ≡ some limit
        → geb saturation limit ≡ true
        → cycle w ≡ bands before 0 w
    unfolding dispatch_cycle
    hol_blocks before rest p w limit levels ceiling saturated =
        rw (dispatch_cycle, levels)
          (hol_blocks_from before rest p 0 w limit (grind arith) saturated)
