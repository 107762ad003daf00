-- ===== src/Examples/Leases.antt =====
-- A lease under the collector, and the protocol at the first pin of a resource.
use llm_d_inference_schedule.Prelude.{ℕ, ◌≡◌, ◌≢◌, refl, false, arith, some, List, [], ◌∷◌}
use llm_d_inference_schedule.Prelude.Int.{pos}
use llm_d_inference_schedule.Registry.Leasing.{LeasedState, fresh_lease, try_pin}
use llm_d_inference_schedule.Registry.Leasing.Protocol.{
  World, stores, pins, Reach, start, leased_stored,
}

abbrev idle : LeasedState
idle = record fresh_lease { became_idle_at = some 3 }

abbrev leased : LeasedState
leased = record fresh_lease { lease_count = pos 1 }

abbrev resources : List (ℕ × LeasedState)
resources = (1, idle) ∷ (2, leased) ∷ []

first_pin : (w : World) × Reach start w × (w.held 0 ≡ 1)
unfolding try_pin
first_pin =
    (_, Reach.next (Reach.next Reach.here (stores start refl)) (pins _ 0 (omega arith) refl), refl)

leased_stored_example :
    (first_pin.0.dropped ≡ false → first_pin.0.entry ≡ some 0)
    × ((first_pin.0.cell 0).marked_for_deletion ≡ false)
    × (first_pin.0.collecting ≢ some 0)
    × ((first_pin.0.cell 0).lease_count ≡ pos (first_pin.0.held 0))
leased_stored_example = leased_stored 0 first_pin.1 (omega (arith, first_pin.2))
