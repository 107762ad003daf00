-- ===== src/Registry/Leasing/Collection.antt =====
-- pkg/epp/flowcontrol/registry/leasing.go: a lease protects its resource from the collector.
use mathlib.Core.List.{perm_middle}
use mathlib.Core.List.Perm
use llm_d_inference_schedule.Prelude.{
  map, Perm, ◌∙◌, ◌++◌, inl, inr, Bool-cases, ℕ, ◌+◌, ◌≤◌, ◌≡◌, true, false, some, List, [], ◌∷◌,
  arith,
}
use llm_d_inference_schedule.Registry.Leasing.{
  LeasedState, try_pin, is_active, check_and_mark_for_deletion, collect_leased_resources,
}

-- A resource is marked only if no lease is out and it was seen idle at least `timeout` ago; then no
-- pin succeeds any more. Where it is not marked its mark and its leases stay.
pub check_marks :
    (ls : LeasedState) (timeout now : ℕ)
    → let (after, dead) = check_and_mark_for_deletion ls timeout now in
      (dead ≡ true
        → (is_active ls ≡ false)
          × ((t : ℕ) × (ls.became_idle_at ≡ some t) × (t + timeout ≤ now))
          × (try_pin after ≡ (after, false)))
      × (dead ≡ false
          → (after.marked_for_deletion ≡ ls.marked_for_deletion)
            × (after.lease_count ≡ ls.lease_count))
unfolding check_and_mark_for_deletion try_pin
check_marks ls timeout now = (ground arith, ground arith)

marked :
    (ls : LeasedState) (timeout now : ℕ)
    → (check_and_mark_for_deletion ls timeout now).1 ≡ true
    → ((check_and_mark_for_deletion ls timeout now).0.marked_for_deletion ≡ true)
      × (is_active (check_and_mark_for_deletion ls timeout now).0 ≡ false)
unfolding check_and_mark_for_deletion
marked ls timeout now = ground arith

module _ {ℓ} {K : Type ℓ} where
  abbrev pub All : (K × LeasedState → Type 0) → List (K × LeasedState) → Type 0
  All P [] = Unit
  All P (x ∷ xs) = P x × All P xs

  abbrev pub keys : List (K × LeasedState) → List K
  keys = map (λ x. x.0)

  -- A pass over resources none of which is marked cleans only what nobody leases and marks it, keeps
  -- the rest unmarked, and loses no key.
  collect_spares :
      (m : List (K × LeasedState)) (timeout now : ℕ)
      → All (λ x. x.1.marked_for_deletion ≡ false) m
      → let (kept, cleaned) = collect_leased_resources m timeout now in
        All (λ x. x.1.marked_for_deletion ≡ false) kept
        × All (λ x. (x.1.marked_for_deletion ≡ true) × (is_active x.1 ≡ false)) cleaned
        × Perm (keys kept ++ keys cleaned) (keys m)
  unfolding collect_leased_resources
  collect_spares [] timeout now h = (tt, tt, Perm.nil)
  collect_spares ((k, v) ∷ m) timeout now h =
      let (kept_ok, cleaned_ok, same) = collect_spares m timeout now h.1 in
      elim (Bool-cases (check_and_mark_for_deletion v timeout now).1) [
        | inl dead ↦ rw dead (
          kept_ok,
          (marked v timeout now dead, cleaned_ok),
          Perm.trans (perm_middle _ _) (Perm.cons k same),
        )
        | inr alive ↦
            rw alive (
              (((check_marks v timeout now).1 alive).0 ∙ h.0, kept_ok),
              cleaned_ok,
              Perm.cons k same,
            )
      ]
