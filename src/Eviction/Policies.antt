-- ===== src/Eviction/Policies.antt =====
-- pkg/epp/framework/plugins/flowcontrol/eviction: which request is evicted first, and which may be.
use Prim.Native.String.{String}
use llm_d_inference_schedule.Prelude.{ℕ, ltb, if◌then◌else◌, Bool, arith}
use llm_d_inference_schedule.Prelude.Int.{ℤ, pos, eq_ℤ, eq_ℤ_iff, ltb_ℤ}
use llm_d_inference_schedule.Ordering.StrictWeak.{IsStrictWeak}

-- What the queue and the policies read of an item.
pub record EvictionItem : Type 0 where
  pub request_id : String
  pub priority : ℤ
  pub dispatch_time : ℕ

-- PriorityThenTimeOrdering.Less.
unfoldable pub evicted_before : EvictionItem → EvictionItem → Bool
evicted_before a b =
    if eq_ℤ a.priority b.priority
    then ltb b.dispatch_time a.dispatch_time
    else ltb_ℤ a.priority b.priority

-- SheddableFilter.Accept.
unfoldable pub is_sheddable : EvictionItem → Bool
is_sheddable item = ltb_ℤ item.priority (pos 0)

-- The order of eviction is a strict weak order.
pub evicted_before-IsStrictWeak : IsStrictWeak evicted_before
unfolding evicted_before
evicted_before-IsStrictWeak = record {
  irreflexive = λ a. ground (arith, eq_ℤ_iff a.priority a.priority);
  transitive = λ a b c before after. ground (arith, before, after);
  comparable = λ a b c before. ground (arith, before);
}
