-- ===== src/Flow.antt =====
-- pkg/epp/framework/interface/flowcontrol/flow.go: the key of a flow. A priority is an `int`.
use text.Mathlib.Text.{◌==◌ as str_eq}
use text.Mathlib.TextEquality.{eq_iff}
use Prim.Native.String.{String}
use llm_d_inference_schedule.Prelude.{◌≡◌, ◌↔◌, ◌==◌, ◌&&◌, Bool, arith, true}
use llm_d_inference_schedule.Prelude.Int.{ℤ, pos_part, neg_part}

pub record FlowKey : Type 0 where
  pub id : String
  pub priority : ℤ

-- `==` on keys: both fields agree.
unfoldable pub key_eq : FlowKey → FlowKey → Bool
key_eq a b =
    str_eq a.id b.id
    && (pos_part a.priority == pos_part b.priority && neg_part a.priority == neg_part b.priority)

pub key_eq_iff : (a b : FlowKey) → (key_eq a b ≡ true) ↔ (a ≡ b)
unfolding key_eq
key_eq_iff a b = ground (arith, eq_iff a.id b.id)
