-- ===== src/Fairness/RoundRobin.antt =====
-- pkg/epp/framework/plugins/flowcontrol/fairness/roundrobin/roundrobin.go. A band is read through its
-- accessor: the keys of its flows, in any order, and the length of each flow's queue, by the flow's id.
-- A picked queue is named by its key. `slices.SortFunc` is a parameter, `sort`.
pub mod Rotation
use Prim.Native.String.{String}
use llm_d_inference_schedule.Prelude.{
  ℕ, zero, suc, ◌+◌, ◌%◌, ◌==◌, ltb, if◌then◌else◌, Bool, true, false, Option, none, some, List, [],
  ◌∷◌, length, get_elem?,
}
use llm_d_inference_schedule.Flow.{FlowKey, key_eq}

pub record Band : Type 0 where
  pub flow_keys : List FlowKey
  pub queue : String → Option ℕ

-- The band's opaque policy state: a cursor, with the last selected key, or another type.
pub data PolicyState : Type 0 where
  cursor : Option FlowKey → PolicyState
  other : PolicyState

pub data Picked : Type 0 where
  picked : Option FlowKey → PolicyState → Picked
  invalid_state : Picked

-- `queue != nil && queue.Len() > 0`
unfoldable pub has_items : Option ℕ → Bool
has_items none = false
has_items (some n) = ltb 0 n

-- `slices.Index`, counting from `i`.
unfoldable pub index : List FlowKey → FlowKey → ℕ → Option ℕ
index [] k i = none
index (x ∷ xs) k i = if key_eq x k then some i else index xs k (suc i)

unfoldable pub start_index : List FlowKey → Option FlowKey → ℕ
start_index keys none = 0
start_index keys (some last) = elim (index keys last 0) [
  | none ↦ 0
  | some i ↦ (i + 1) % length keys
]

-- The loop over the flows, from the `i`-th probe on, for the rounds that are left.
unfoldable pub probe : Band → List FlowKey → ℕ → ℕ → ℕ → Option FlowKey
probe band keys start zero i = none
probe band keys start (suc rounds) i =
    let rest = probe band keys start rounds (suc i) in
    elim (get_elem? keys ((start + i) % length keys)) [
      | none ↦ none
      | some key ↦ if has_items (band.queue key.id) then some key else rest
    ]

module _ (sort : List FlowKey → List FlowKey) where
  unfoldable pub advance : Band → Option FlowKey → Option FlowKey
  advance band last =
      let keys = sort band.flow_keys in
      if length keys == 0 then none else probe band keys (start_index keys last) (length keys) 0

  -- A pick leaves its result in the cursor: the key, or nil where no queue was found.
  unfoldable pub pick : Option Band → PolicyState → Picked
  pick none state = picked none state
  pick (some band) other = invalid_state
  pick (some band) (cursor last) = let found = advance band last in picked found (cursor found)
