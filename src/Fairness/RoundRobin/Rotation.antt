-- ===== src/Fairness/RoundRobin/Rotation.antt =====
-- pkg/epp/framework/plugins/flowcontrol/fairness/roundrobin/roundrobin.go: what a pick chooses, and that
-- the cursor comes to every flow.
use native.Mathlib.Nat.{mod-eq_of_lt, mod-eq-sub-mod, mod-lt}
use llm_d_inference_schedule.Prelude.{
  Bool-cases, Option-cases, ℕ_discrete, ℕ, zero, suc, ◌+◌, ◌-◌, ◌%◌, ◌≤◌, ◌<◌, ◌≡◌, ◌≢◌, ◌⊎◌, inl,
  inr, refl, sym, ap, ◌∙◌, ◌==◌, ltb, leb, if◌then◌else◌, true, false, Option, none, some, List, [],
  ◌∷◌, length, get_elem?, get_elem?_total, get_elem?_bound, arith,
}
use llm_d_inference_schedule.Flow.{FlowKey, key_eq_iff}
use llm_d_inference_schedule.Fairness.RoundRobin.{
  Band, cursor, picked, has_items, index, start_index, probe, advance, pick,
}

wrap : (a n : ℕ) → a < n + n → a % n ≡ (if ltb a n then a else a - n)
wrap a n h = elim (Bool-cases (ltb a n)) [
  | inl low ↦ rw low (mod-eq_of_lt (ground arith))
  | inr high ↦
      rw (high, mod-eq-sub-mod {n = a} {m = n} (ground arith)) (mod-eq_of_lt (ground arith))
]

-- The flow of `key` has a queue with items.
abbrev pub IsActive : Band → FlowKey → Type 0
IsActive band key = has_items (band.queue key.id) ≡ true

-- No key stands at two positions.
abbrev pub IsDistinct : List FlowKey → Type 0
IsDistinct keys =
    (a b : ℕ) (k : FlowKey) → get_elem? keys a ≡ some k → get_elem? keys b ≡ some k → a ≡ b

index_at :
    (keys : List FlowKey) (k : FlowKey) (p i : ℕ)
    → IsDistinct keys
    → get_elem? keys p ≡ some k
    → index keys k i ≡ some (i + p)
unfolding index
index_at [] k p i d e = absurd (ground arith)
index_at (x ∷ keys) k zero i d e = ground (arith, key_eq_iff x k)
index_at (x ∷ keys) k (suc p) i d e = ground (
  arith,
  key_eq_iff x k,
  d 0 (suc p) k,
  index_at keys k p (suc i) (λ a b y ha hb. ground (arith, d (suc a) (suc b) y ha hb)) e,
)

start_index_at :
    (keys : List FlowKey) (k : FlowKey) (p : ℕ)
    → IsDistinct keys
    → get_elem? keys p ≡ some k
    → start_index keys (some k) ≡ (p + 1) % length keys
unfolding start_index
start_index_at keys k p d e =
    let here : index keys k 0 ≡ some p = index_at keys k p 0 d e ∙ ap some (omega arith) in
    rw (here, start_index) refl

index_bound :
    (keys : List FlowKey) (k : FlowKey) (i m : ℕ) → index keys k i ≡ some m → m < i + length keys
unfolding index
index_bound [] k i m e = ground arith
index_bound (x ∷ keys) k i m e = ground (arith, index_bound keys k (suc i) m)

start_index_bound :
    (keys : List FlowKey) (last : Option FlowKey)
    → 0 < length keys
    → start_index keys last < length keys
unfolding start_index
start_index_bound keys none h = h
start_index_bound keys (some k) h = elim (Option-cases (index keys k 0)) [
  | inl e ↦ rw (e, start_index) h
  | inr (m, e) ↦ rw (e, start_index) (mod-lt (m + 1) h)
]

module _ (band : Band) (keys : List FlowKey) (start : ℕ) (low : start < length keys) where
  at : ℕ → ℕ
  at t = (start + t) % length keys

  passed :
      (i d : ℕ) (x kd : FlowKey)
      → get_elem? keys (at i) ≡ some x
      → has_items (band.queue x.id) ≡ false
      → get_elem? keys (at d) ≡ some kd
      → IsActive band kd
      → i ≢ d
  passed i d x kd ex idle ed active same =
      ground (arith, ap (λ (m : ℕ). get_elem? keys (at m)) same)

  -- The probes stop at the first active flow from the start on.
  probe_first :
      (rounds i d : ℕ) (kd : FlowKey)
      → i + rounds ≡ length keys
      → i ≤ d
      → d < length keys
      → get_elem? keys (at d) ≡ some kd
      → IsActive band kd
      → (t : ℕ) × (k : FlowKey) × (t ≤ d)
        × (get_elem? keys (at t) ≡ some k)
        × IsActive band k
        × (probe band keys start rounds i ≡ some k)
  unfolding probe at
  probe_first zero i d kd e lo hi ed active = absurd (omega arith)
  probe_first (suc rounds) i d kd e lo hi ed active =
      let (x, ex) = get_elem?_total keys (at i) (mod-lt (start + i) (omega arith)) in
      elim (Bool-cases (has_items (band.queue x.id))) [
        | inl full ↦ (i, x, lo, ex, full, rw (ex, probe) (rw full))
        | inr idle ↦
            let later : i ≢ d = passed i d x kd ex idle ed active in
            let (t, k, a, b, c, f) =
              probe_first rounds (suc i) d kd (omega arith) (omega arith) hi ed active in
            (t, k, a, b, c, rw (ex, probe) (rw idle f))
      ]

-- How far the position `j` is ahead of `start`, going round `n` positions.
abbrev ahead : ℕ → ℕ → ℕ → ℕ
ahead n start j = if leb start j then j - start else j + n - start

at-ahead : (n start j : ℕ) → start < n → j < n → (start + ahead n start j) % n ≡ j
at-ahead n start j hs hj = ground (arith, wrap (start + ahead n start j) n)

ahead_bound : (n start j : ℕ) → start < n → j < n → ahead n start j < n
ahead_bound n start j hs hj = ground arith

-- After a pick at `t` steps from the start, short of `j`, the position `j` is nearer.
ahead_falls :
    (n start j t m : ℕ)
    → start < n
    → j < n
    → t < ahead n start j
    → m ≡ (start + t) % n
    → ahead n ((m + 1) % n) j < ahead n start j
ahead_falls n start j t m hs hj ht e = ground (arith, wrap (start + t) n, wrap (m + 1) n)

probe_sound :
    (band : Band) (keys : List FlowKey) (start rounds i : ℕ) (k : FlowKey)
    → probe band keys start rounds i ≡ some k
    → IsActive band k × ((m : ℕ) × (get_elem? keys m ≡ some k))
unfolding probe
probe_sound band keys start zero i k e = absurd (ground arith)
probe_sound band keys start (suc rounds) i k e =
    elim (Option-cases (get_elem? keys ((start + i) % length keys))) [
      | inl missing ↦ absurd (ground arith)
      | inr (x, ex) ↦ elim (Bool-cases (has_items (band.queue x.id))) [
        | inl full ↦
            let same : x ≡ k = ground arith in rw (← same) (full, ((start + i) % length keys, ex))
        | inr idle ↦ probe_sound band keys start rounds (suc i) k (ground arith)
      ]
    ]

module _ (sort : List FlowKey → List FlowKey) where
  -- A pick reaches the flow at `j`, or an active flow that comes before it in the rotation.
  advance_step :
      (band : Band) (last : Option FlowKey) (j : ℕ) (kj : FlowKey)
      → get_elem? (sort band.flow_keys) j ≡ some kj
      → IsActive band kj
      → let keys = sort band.flow_keys in
        let start = start_index keys last in
        (t : ℕ) × (k : FlowKey) × (t ≤ ahead (length keys) start j)
        × (get_elem? keys ((start + t) % length keys) ≡ some k)
        × (advance sort band last ≡ some k)
  unfolding advance at
  advance_step band last j kj ej active =
      let keys = sort band.flow_keys in
      let hj = get_elem?_bound keys j kj ej in
      let low = start_index_bound keys last (omega arith) in
      let there = at-ahead (length keys) (start_index keys last) j low hj in
      let (t, k, a, b, c, f) =
        probe_first band keys (start_index keys last) low (length keys) 0
          (ahead (length keys) (start_index keys last) j) kj (omega arith) (omega arith)
          (ahead_bound _ _ j low hj) (rw there ej) active in
      (t, k, a, b, ground (arith, hj, f))

  -- What a pick finds: an active flow of the band, or nothing, and then no flow is active.
  abbrev pub Found : Band → Option FlowKey → Type 0
  Found band none =
      (j : ℕ) (k : FlowKey)
      → get_elem? (sort band.flow_keys) j ≡ some k
      → has_items (band.queue k.id) ≡ false
  Found band (some k) = IsActive band k × ((j : ℕ) × (get_elem? (sort band.flow_keys) j ≡ some k))

  advance-Found :
      (band : Band) (last o : Option FlowKey) → advance sort band last ≡ o → Found band o
  unfolding advance
  advance-Found band last none e = λ j k ej. elim (Bool-cases (has_items (band.queue k.id))) [
    | inl active ↦
        let (t, k', a, b, found) = advance_step band last j k ej active in
        absurd (cc (sym e ∙ found))
    | inr idle ↦ idle
  ]
  advance-Found band last (some k) e = elim (Bool-cases (length (sort band.flow_keys) == 0)) [
    | inl empty ↦ absurd (ground arith)
    | inr flows ↦
        probe_sound band (sort band.flow_keys) (start_index (sort band.flow_keys) last)
          (length (sort band.flow_keys)) 0 k (ground arith)
  ]

  -- A pick leaves what it found in the cursor, and finds an active flow if there is one.
  pub pick-Found :
      (band : Band) (last : Option FlowKey)
      → (o : Option FlowKey) × (pick sort (some band) (cursor last) ≡ picked o (cursor o))
        × Found band o
  unfolding pick
  pick-Found band last = (advance sort band last, refl, advance-Found band last _ refl)

  -- The results of a pick in each of the successive states of a band.
  pub picks : List Band → Option FlowKey → List (Option FlowKey)
  picks [] last = []
  picks (b ∷ bands) last = let k = advance sort b last in k ∷ picks bands k

  module _ (keys : List FlowKey) (distinct : IsDistinct keys) (j : ℕ) (kj : FlowKey)
      (ej : get_elem? keys j ≡ some kj) where
    -- Each state has the same flows, and items for the flow `kj`.
    abbrev pub IsReady : List Band → Type 0
    IsReady [] = Unit
    IsReady (b ∷ bands) = (sort b.flow_keys ≡ keys) × IsActive b kj × IsReady bands

    abbrev pub IsServed : List (Option FlowKey) → Type 0
    IsServed [] = ⊥
    IsServed (o ∷ os) = (o ≡ some kj) ⊎ IsServed os

    reached :
        (start t : ℕ) (k : FlowKey)
        → start < length keys
        → j < length keys
        → t ≡ ahead (length keys) start j
        → get_elem? keys ((start + t) % length keys) ≡ some k
        → Path (Option FlowKey) (some k) (some kj)
    reached start t k low hj here ek =
        sym ek
        ∙ ap (λ (m : ℕ). get_elem? keys ((start + m) % length keys)) here
        ∙ ap (get_elem? keys) (at-ahead (length keys) start j low hj)
        ∙ ej

    nearer :
        (start t : ℕ) (k : FlowKey) (rounds : ℕ)
        → start < length keys
        → j < length keys
        → t ≤ ahead (length keys) start j
        → t ≢ ahead (length keys) start j
        → get_elem? keys ((start + t) % length keys) ≡ some k
        → ahead (length keys) start j < suc rounds
        → ahead (length keys) (start_index keys (some k)) j < rounds
    nearer start t k rounds low hj near short ek h =
        let next = start_index_at keys k ((start + t) % length keys) distinct ek in
        rw next (
          omega (
            arith,
            ahead_falls (length keys) start j t ((start + t) % length keys) low hj (omega arith)
                refl,
          ))

    serves :
        (bands : List Band) (last : Option FlowKey)
        → IsReady bands
        → ahead (length keys) (start_index keys last) j < length bands
        → IsServed (picks bands last)
    unfolding picks
    serves [] last r h = absurd (omega arith)
    serves (b ∷ bands) last (same, active, r) h =
        let (t, k, near, ek, found) = rw same at (advance_step b last j kj (rw same ej) active) in
        let hj = get_elem?_bound keys j kj ej in
        let low = start_index_bound keys last (omega arith) in
        elim (ℕ_discrete t (ahead (length keys) (start_index keys last) j)) [
          | yes here ↦ inl (found ∙ reached (start_index keys last) t k low hj here ek)
          | no short ↦ inr (
              rw found (
                serves bands (some k) r
                  (nearer (start_index keys last) t k (length bands) low hj near short ek h)))
        ]

    -- No flow starves: while the band keeps the same flows, all distinct, in as many picks as it has
    -- flows each one that has items throughout is picked, wherever the cursor stands at first.
    pub rotation_serves :
        (bands : List Band) (last : Option FlowKey)
        → IsReady bands
        → length keys ≤ length bands
        → IsServed (picks bands last)
    rotation_serves bands last r h =
        let hj = get_elem?_bound keys j kj ej in
        let low = start_index_bound keys last (omega arith) in
        serves bands last r
          (omega (arith, ahead_bound (length keys) (start_index keys last) j low hj))
