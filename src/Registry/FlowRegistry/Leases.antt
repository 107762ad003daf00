-- ===== src/Registry/FlowRegistry/Leases.antt =====
-- pkg/epp/flowcontrol/registry/registry.go: the leases of flows and of bands. A flow is leased by its
-- open sessions, a band by its flows.
use llm_d_inference_schedule.Prelude.{
  ℕ, suc, ◌+◌, ◌<◌, if◌then◌else◌, Bool, true, false, List, [], ◌∷◌, ◌≡◌, refl, ◌∙◌, ap, arith, All,
  inl, inr, Bool-cases, has_key, put, adjust,
}
use llm_d_inference_schedule.Prelude.Int.{ℤ, pos, eq_ℤ, eq_ℤ_iff}
use llm_d_inference_schedule.Flow.{FlowKey, key_eq, key_eq_iff}
use llm_d_inference_schedule.Registry.Leasing.{
  LeasedState, try_pin, unpin, is_active, check_and_mark_for_deletion, collect_leased_resources,
}
use llm_d_inference_schedule.Registry.Leasing.Collection.{check_marks}
use llm_d_inference_schedule.Registry.Shard.Bands.{has_queue}
use llm_d_inference_schedule.Registry.FlowRegistry.{FlowRegistry}
use llm_d_inference_schedule.Registry.FlowRegistry.Topology.{IsTopology}

-- How many flows have a priority.
abbrev pub flows_of : ℤ → List (FlowKey × LeasedState) → ℕ
flows_of p [] = 0
flows_of p ((key, state) ∷ m) = (if eq_ℤ key.priority p then 1 else 0) + flows_of p m

-- The state is unmarked and counts `n` leases.
abbrev pub Counts : LeasedState → ℕ → Type 0
Counts state n = (state.lease_count ≡ pos n) × (state.marked_for_deletion ≡ false)

-- Every flow counts its open sessions and has a queue, and a flow with an open session is there;
-- every band counts its flows, and a priority with a flow has its band's state.
pub record IsLeased (held : FlowKey → ℕ) (fr : FlowRegistry) : Type 0 where
  pub leased : All (λ x. Counts x.1 (held x.0)) fr.flow_states
  pub stored : (key : FlowKey) → 0 < held key → has_key key_eq fr.flow_states key ≡ true
  pub queued : All (λ x. has_queue fr.shard.priority_bands x.0 ≡ true) fr.flow_states
  pub banded : All (λ x. Counts x.1 (flows_of x.0 fr.flow_states)) fr.priority_band_states
  pub pinned :
      (p : ℤ) → 0 < flows_of p fr.flow_states → has_key eq_ℤ fr.priority_band_states p ≡ true

pub record IsSound (held : FlowKey → ℕ) (fr : FlowRegistry) : Type 0 where
  pub topology : IsTopology fr
  pub leases : IsLeased held fr

pub try_pin-Counts :
    (state : LeasedState) (n : ℕ) → Counts state n → Counts (try_pin state).0 (suc n)
unfolding try_pin
try_pin-Counts state n (count, unmarked) = (ground arith, ground arith)

pub unpin-Counts :
    (state : LeasedState) (n now : ℕ) → Counts state (suc n) → Counts (unpin state now) n
unfolding unpin
unpin-Counts state n now (count, unmarked) = (ground arith, ground arith)

pub flows_of-put :
    (p : ℤ) (m : List (FlowKey × LeasedState)) (key : FlowKey) (state : LeasedState)
    → has_key key_eq m key ≡ false
    → flows_of p (put key_eq m key state) ≡ flows_of p m + (if eq_ℤ key.priority p then 1 else 0)
flows_of-put p [] key state new = ground arith
flows_of-put p ((x, v) ∷ m) key state new =
    let other : key_eq x key ≡ false = ground arith in
    rw other (omega (arith, flows_of-put p m key state (ground (arith, other))))

pub flows_of-adjust :
    (p : ℤ) (m : List (FlowKey × LeasedState)) (key : FlowKey) (f : LeasedState → LeasedState)
    → flows_of p (adjust key_eq m key f) ≡ flows_of p m
flows_of-adjust p [] key f = refl
flows_of-adjust p ((x, v) ∷ m) key f = omega (arith, flows_of-adjust p m key f)

pub flows_of-member :
    (m : List (FlowKey × LeasedState)) (key : FlowKey)
    → has_key key_eq m key ≡ true
    → 0 < flows_of key.priority m
flows_of-member [] key there = absurd (ground arith)
flows_of-member ((x, v) ∷ m) key there = elim (Bool-cases (key_eq x key)) [
  | inl hit ↦
      let same : eq_ℤ x.priority key.priority ≡ true =
        ground (arith, key_eq_iff x key, eq_ℤ_iff x.priority key.priority) in
      rw same (omega arith)
  | inr miss ↦ omega (arith, flows_of-member m key (ground (arith, miss)))
]

-- The collector on counted states: the kept ones count as before, and no state with a lease goes.
module _ {K : Type 0} (eq : K → K → Bool) where
  pub collect-Counts :
      (m : List (K × LeasedState)) (timeout now : ℕ) (leases : K → ℕ)
      → All (λ x. Counts x.1 (leases x.0)) m
      → All (λ x. Counts x.1 (leases x.0)) (collect_leased_resources m timeout now).0
  unfolding collect_leased_resources
  collect-Counts [] timeout now leases h = tt
  collect-Counts ((k, v) ∷ m) timeout now leases ((count, unmarked), h) =
      elim (Bool-cases (check_and_mark_for_deletion v timeout now).1) [
        | inl dead ↦ rw dead (collect-Counts m timeout now leases h)
        | inr alive ↦
            let (marks, counts) = (check_marks v timeout now).1 alive in
            rw alive ((counts ∙ count, marks ∙ unmarked), collect-Counts m timeout now leases h)
      ]

  -- What holds of every key holds of the kept ones.
  pub collect-keys :
      (Q : K → Type 0) (m : List (K × LeasedState)) (timeout now : ℕ)
      → All (λ x. Q x.0) m
      → All (λ x. Q x.0) (collect_leased_resources m timeout now).0
  unfolding collect_leased_resources
  collect-keys Q [] timeout now h = tt
  collect-keys Q ((k, v) ∷ m) timeout now (here, h) =
      elim (Bool-cases (check_and_mark_for_deletion v timeout now).1) [
        | inl dead ↦ rw dead (collect-keys Q m timeout now h)
        | inr alive ↦ rw alive (here, collect-keys Q m timeout now h)
      ]

  pub collect-keeps :
      (m : List (K × LeasedState)) (timeout now : ℕ) (leases : K → ℕ)
      → ((a b : K) → eq a b ≡ true → a ≡ b)
      → All (λ x. Counts x.1 (leases x.0)) m
      → (k : K) → 0 < leases k
      → has_key eq m k ≡ true
      → has_key eq (collect_leased_resources m timeout now).0 k ≡ true
  unfolding collect_leased_resources is_active
  collect-keeps [] timeout now leases sound h k held there = there
  collect-keeps ((x, v) ∷ m) timeout now leases sound ((count, unmarked), h) k held there =
      let rest = collect-keeps m timeout now leases sound h k held in
      elim (Bool-cases (check_and_mark_for_deletion v timeout now).1) [
        | inl dead ↦ elim (Bool-cases (eq x k)) [
          | inl hit ↦
              let idle : is_active v ≡ false = ((check_marks v timeout now).0 dead).0 in
              absurd (ground (arith, idle, ap leases (sound x k hit), count, held))
          | inr miss ↦ rw dead (rest (ground (arith, miss)))
        ]
        | inr alive ↦ elim (Bool-cases (eq x k)) [
          | inl hit ↦ rw (alive, hit) refl
          | inr miss ↦ rw (alive, miss) (rest (ground (arith, miss)))
        ]
      ]

pub flows_of-collect :
    (p : ℤ) (m : List (FlowKey × LeasedState)) (timeout now : ℕ)
    → let (kept, cleaned) = collect_leased_resources m timeout now in
      flows_of p m ≡ flows_of p kept + flows_of p cleaned
unfolding collect_leased_resources
flows_of-collect p [] timeout now = refl
flows_of-collect p ((k, v) ∷ m) timeout now =
    let rest = flows_of-collect p m timeout now in
    elim (Bool-cases (check_and_mark_for_deletion v timeout now).1) [
      | inl dead ↦ rw dead (omega (arith, rest))
      | inr alive ↦ rw alive (omega (arith, rest))
    ]
