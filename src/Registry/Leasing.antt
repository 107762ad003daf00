-- ===== src/Registry/Leasing.antt =====
-- pkg/epp/flowcontrol/registry/leasing.go: a reference-counted lease. Each method runs under the
-- resource's mutex. `became_idle_at` is `none` for the zero time.
pub mod Collection
pub mod Protocol
use llm_d_inference_schedule.Prelude.{
  ℕ, zero, ◌+◌, ltb, if◌then◌else◌, Bool, true, false, Option, none, some, List, [], ◌∷◌,
}
use llm_d_inference_schedule.Prelude.Int.{ℤ, pos, negsuc, ◌+ℤ◌, ltb_ℤ, pos_part, neg_part}

pub record LeasedState : Type 0 where
  pub lease_count : ℤ
  pub became_idle_at : Option ℕ
  pub marked_for_deletion : Bool

abbrev pub fresh_lease : LeasedState
fresh_lease = record { lease_count = pos 0; became_idle_at = none; marked_for_deletion = false }

unfoldable pub try_pin : LeasedState → LeasedState × Bool
unfolding ◌+ℤ◌
try_pin ls =
    if ls.marked_for_deletion
    then (ls, false)
    else (record ls { lease_count = ls.lease_count +ℤ pos 1; became_idle_at = none }, true)

is_zero : ℤ → Bool
is_zero (pos zero) = true
is_zero _ = false

unfoldable pub unpin : LeasedState → ℕ → LeasedState
unfolding ◌+ℤ◌ is_zero
unpin ls now =
    let count = ls.lease_count +ℤ negsuc 0 in
    let released = record ls { lease_count = count } in
    if is_zero count then record released { became_idle_at = some now } else released

unfoldable pub is_active : LeasedState → Bool
is_active ls = ltb_ℤ (pos 0) ls.lease_count

-- `now.Sub(t) < timeout` is written as `now < t + timeout`.
unfoldable pub check_and_mark_for_deletion : LeasedState → ℕ → ℕ → LeasedState × Bool
unfolding is_active
check_and_mark_for_deletion ls timeout now =
    if is_active ls then (record ls { became_idle_at = none }, false) else elim ls.became_idle_at [
      | none ↦ (record ls { became_idle_at = some now }, false)
      | some t ↦
          if ltb now (t + timeout)
          then (ls, false)
          else (record ls { marked_for_deletion = true }, true)
    ]

-- One pass of the collector over the map, with nobody else at work: the resources that stay, with
-- their new states, and those to clean.
module _ {ℓ} {K : Type ℓ} where
  unfoldable pub collect_leased_resources :
      List (K × LeasedState) → ℕ → ℕ → List (K × LeasedState) × List (K × LeasedState)
  collect_leased_resources [] timeout now = ([], [])
  collect_leased_resources ((k, v) ∷ m) timeout now =
      let (kept, cleaned) = collect_leased_resources m timeout now in
      let (v', dead) = check_and_mark_for_deletion v timeout now in
      if dead then (kept, (k, v') ∷ cleaned) else ((k, v') ∷ kept, cleaned)
