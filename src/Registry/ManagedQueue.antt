-- ===== src/Registry/ManagedQueue.antt =====
-- pkg/epp/flowcontrol/registry/managedqueue.go, and propagateStatsDelta of shard.go: a queue with its
-- statistics. A method runs under the queue's mutex, so it is a function of the state: the queue, its
-- counters, and those of its band and of its shard. A counter is an int64, a word below 2 ^ 64 that is
-- negative from 2 ^ 63 on. The registry's own counters, which `onStatsDelta` feeds, are in FlowRegistry.
pub mod Statistics
use llm_d_inference_schedule.Prelude.{ℕ, ◌^◌, leb, if◌then◌else◌, Bool, List, [], ◌∷◌}
use llm_d_inference_schedule.Prelude.Outcome.{Run, ok, err, panic, shard_draining, ◌>>=◌}
use llm_d_inference_schedule.Item.{Item, HandleArg, add_u64, sub_u64}
use llm_d_inference_schedule.Queue.Contract.{SafeQueue}

pub record Counters : Type 0 where
  pub len : ℕ
  pub byte_size : ℕ

pub record ManagedQueue (Q : Type 0) : Type 0 where
  pub queue : Q
  pub stats : Counters
  pub band : Counters
  pub shard : Counters
  pub is_draining : Bool

unfoldable pub add_delta : Counters → Counters → Counters
add_delta c delta = record {
  len = add_u64 c.len delta.len;
  byte_size = add_u64 c.byte_size delta.byte_size;
}

module _ {Q : Type 0} where
  unfoldable pub propagate_stats_delta : ManagedQueue Q → Counters → ManagedQueue Q
  unfolding add_delta
  propagate_stats_delta mq delta = record mq {
    band = add_delta mq.band delta;
    shard = add_delta mq.shard delta;
  }

  unfoldable pub propagate_stats_delta_locked : ManagedQueue Q → Counters → Run (ManagedQueue Q)
  unfolding add_delta
  propagate_stats_delta_locked mq delta =
      let stats = add_delta mq.stats delta in
      if leb (2 ^ 63) stats.len
      then panic
      else ok (propagate_stats_delta (record mq { stats = stats }) delta)

-- The loop that counts the removed items, from the deltas so far.
unfoldable pub removed_delta : List Item → Counters → Counters
removed_delta [] delta = delta
removed_delta (x ∷ xs) delta =
    removed_delta xs
      (record { len = sub_u64 delta.len 1; byte_size = sub_u64 delta.byte_size x.byte_size })

module _ {Q : Type 0} (sq : SafeQueue Q) where
  unfoldable pub add : ManagedQueue Q → Item → Run (ManagedQueue Q)
  add mq x = if mq.is_draining then err shard_draining else do
    q ← sq.add mq.queue x
    propagate_stats_delta_locked (record mq { queue = q })
        (record { len = 1; byte_size = x.byte_size })

  unfoldable pub remove : ManagedQueue Q → HandleArg → Run (Item × ManagedQueue Q)
  remove mq handle = do
    (x, q) ← sq.remove mq.queue handle
    mq' ←
        propagate_stats_delta_locked (record mq { queue = q })
          (record { len = sub_u64 0 1; byte_size = sub_u64 0 x.byte_size })
    ok (x, mq')

  -- Cleanup and Drain after the queue's own: nothing is propagated where nothing was removed.
  unfoldable pub account : ManagedQueue Q → List Item × Q → Run (List Item × ManagedQueue Q)
  account mq ([], q) = ok ([], record mq { queue = q })
  account mq (x ∷ xs, q) = do
    mq' ←
        propagate_stats_delta_locked (record mq { queue = q })
          (removed_delta (x ∷ xs) (record { len = 0; byte_size = 0 }))
    ok (x ∷ xs, mq')

  unfoldable pub cleanup : ManagedQueue Q → (Item → Bool) → Run (List Item × ManagedQueue Q)
  cleanup mq predicate = sq.cleanup mq.queue predicate >>= account mq

  unfoldable pub drain : ManagedQueue Q → Run (List Item × ManagedQueue Q)
  drain mq = sq.drain mq.queue >>= account mq
