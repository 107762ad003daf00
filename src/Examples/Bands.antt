-- ===== src/Examples/Bands.antt =====
-- A pick of the queue whose head comes first by the time it was enqueued.
use llm_d_inference_schedule.Prelude.{
  ℕ, refl, ltb, Option, none, some, List, [], ◌∷◌, Bool, inl, inr, Bool-cases, arith,
}
use llm_d_inference_schedule.Prelude.Int.{pos}
use llm_d_inference_schedule.Item.{Item}
use llm_d_inference_schedule.Ordering.StrictWeak.{IsStrictWeak}
use llm_d_inference_schedule.Fairness.GlobalStrict.{FlowQueue}
use llm_d_inference_schedule.Fairness.GlobalStrict.Best.{IsUniform, Picks, pick-IsBest}

abbrev earlier : Item → Item → Bool
earlier a b = ltb a.enqueue_time b.enqueue_time

earlier-IsStrictWeak : IsStrictWeak earlier
earlier-IsStrictWeak = record {
  irreflexive = λ a. ground arith;
  transitive = λ a b c ab bc. ground (arith, ab, bc);
  comparable = λ a b c ac. elim (Bool-cases (ltb a.enqueue_time b.enqueue_time)) [
    | inl before ↦ inl before
    | inr after ↦ inr (ground (arith, ac, after))
  ];
}

abbrev since : ℕ → Item
since now = record { ref = now; byte_size = 1; enqueue_time = now; effective_ttl = pos 0 }

abbrev queue_since : ℕ → FlowQueue
queue_since now = record {
  key = record { id = "a"; priority = pos 0 };
  len = 1;
  head = some (since now);
  policy_type = "fcfs";
  less = earlier;
}

abbrev queues : List (Option FlowQueue)
queues = some (queue_since 5) ∷ none ∷ some (queue_since 3) ∷ []

queues-IsUniform : IsUniform "fcfs" earlier queues
queues-IsUniform = (refl, refl, (refl, refl, tt))

pick-IsBest_example : Picks "fcfs" earlier queues
pick-IsBest_example = pick-IsBest "fcfs" earlier earlier-IsStrictWeak queues queues-IsUniform
