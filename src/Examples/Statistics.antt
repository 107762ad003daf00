-- ===== src/Examples/Statistics.antt =====
-- A managed queue over a list queue with two items.
use llm_d_inference_schedule.Prelude.{ℕ, refl, not, has, some, false, [], ◌∷◌, arith}
use llm_d_inference_schedule.Prelude.Int.{pos}
use llm_d_inference_schedule.Prelude.Outcome.{Yields}
use llm_d_inference_schedule.Item.{Item}
use llm_d_inference_schedule.Queue.Bytes.{total}
use llm_d_inference_schedule.Queue.ListQueue.{ListQueue}
use llm_d_inference_schedule.Queue.ListQueue.Lawful.{IsValid, IsNew, list_queue, list_queue_law}
use llm_d_inference_schedule.Registry.ManagedQueue.{Counters, ManagedQueue}
use llm_d_inference_schedule.Registry.ManagedQueue.Statistics.{
  perform, adds, IsConsistent, stats_agree,
}

abbrev sized : ℕ → Item
sized n = record { ref = n; byte_size = n; enqueue_time = 0; effective_ttl = pos 0 }

abbrev counted : ℕ → ℕ → Counters
counted n b = record { len = n; byte_size = b }

-- Element `n` holds the item of `n` bytes under the handle `n`, if it is in the list.
abbrev two_queued : ListQueue
two_queued = record {
  requests = 5 ∷ 6 ∷ [];
  byte_size = 11;
  value = sized;
  handle = λ n. record { element = n; owner = 1; is_invalidated = not (has (5 ∷ 6 ∷ []) n) };
  handle_of = λ n. some n;
  next = 7;
  self = 1;
}

two_queued-IsValid : IsValid two_queued
two_queued-IsValid = record {
  used = λ e there. ground (arith, there);
  distinct = (refl, (refl, tt));
  live = λ r valid owned. (refl, ground (arith, valid));
  named = λ e there. refl;
}

-- Two items of 5 and 6 bytes; the band and the shard count others beside them.
abbrev two_items : ManagedQueue ListQueue
two_items = record {
  queue = two_queued;
  stats = counted 2 11;
  band = counted 3 18;
  shard = counted 4 30;
  is_draining = false;
}

seven-IsNew : IsNew two_queued (sized 7)
seven-IsNew e there = ground (arith, there)

stats_agree_example :
    Yields
      (IsConsistent list_queue list_queue_law (counted 1 7) (counted 2 19))
      (perform list_queue two_items (adds (sized 7)))
unfolding total
stats_agree_example =
    stats_agree list_queue list_queue_law (counted 1 7) (counted 2 19) two_items (adds (sized 7))
      (
        two_queued-IsValid,
        ((omega arith, omega arith), (omega arith, omega arith), (omega arith, omega arith)),
        omega arith,
      )
      (seven-IsNew, omega arith)
