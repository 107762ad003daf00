-- ===== src/Fairness/GlobalStrict.antt =====
-- pkg/epp/framework/plugins/flowcontrol/fairness/globalstrict/global_strict.go: the queue of a band whose
-- head comes first by the ordering policy. The queues come in the order of the iteration.
pub mod Best
use Prim.Native.String.{String}
use text.Mathlib.Text.{◌==◌ as str_eq}
use text.Mathlib.TextEquality.{eq_iff}
use mathlib.Core.List.{Memᴰ}
use llm_d_inference_schedule.Prelude.{
  Bool-cases, Option-cases, ℕ, ◌≡◌, refl, sym, ◌∙◌, ◌⊎◌, inl, inr, ◌==◌, not, if◌then◌else◌, Bool,
  true, false, Option, none, some, List, [], ◌∷◌, arith,
}
use llm_d_inference_schedule.Item.{Item}
use llm_d_inference_schedule.Flow.{FlowKey}
use llm_d_inference_schedule.Ordering.StrictWeak.{IsStrictWeak}

-- What a pick reads of a queue: its length and head, and its policy's type and Less.
pub record FlowQueue : Type 0 where
  pub key : FlowKey
  pub len : ℕ
  pub head : Option Item
  pub policy_type : String
  pub less : Item → Item → Bool

-- ErrIncompatiblePriorityType, or the queue, if any.
pub data Picked : Type 0 where
  incompatible : Picked
  picked : Option FlowQueue → Picked

abbrev pub queue_of : Option (FlowQueue × Item) → Option FlowQueue
queue_of none = none
queue_of (some best) = some best.0

-- The head that a queue offers: none if the accessor is nil or the queue is empty.
unfoldable pub offered : Option FlowQueue → Option (FlowQueue × Item)
offered none = none
offered (some q) = if q.len == 0 then none else elim q.head [ none ↦ none | some x ↦ some (q, x) ]

-- The iteration, with the best queue so far and its item.
unfoldable pub pick_from : List (Option FlowQueue) → Option (FlowQueue × Item) → Picked
pick_from [] best = picked (queue_of best)
pick_from (q ∷ queues) best =
    let keep = pick_from queues best in
    elim (offered q) [
      | none ↦ keep
      | some offer ↦ elim best [
        | none ↦ pick_from queues (some offer)
        | some b ↦ elim (str_eq offer.0.policy_type b.0.policy_type) [
          | false ↦ incompatible
          | true ↦ elim (b.0.less offer.1 b.1) [
            | true ↦ pick_from queues (some offer)
            | false ↦ keep
          ]
        ]
      ]
    ]

-- `none` is a nil band.
unfoldable pub pick : Option (List (Option FlowQueue)) → Picked
pick none = picked none
pick (some queues) = pick_from queues none
