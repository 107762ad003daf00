-- ===== src/Registry/FlowRegistry/Life.antt =====
-- pkg/epp/flowcontrol/registry/registry.go: a registry from its creation on, under any sequence of
-- sessions, collections and reports of its queues.
use text.Mathlib.Text.{◌==◌ as str_eq}
use llm_d_inference_schedule.Prelude.{
  ℕ, ◌<◌, true, none, some, List, [], ◌∷◌, ◌≡◌, ◌∙◌, sym, ap, arith, All, inl, inr, Bool-cases,
  Option-cases, lookup, has_key, lookup-put, All-weaken,
}
use llm_d_inference_schedule.Prelude.Int.{ℤ, eq_ℤ, eq_ℤ_iff}
use llm_d_inference_schedule.Prelude.Outcome.{ok, Error, Yields, yields, yielded, Yields-then}
use llm_d_inference_schedule.Flow.{FlowKey, key_eq, key_eq_iff}
use llm_d_inference_schedule.Registry.Leasing.{LeasedState}
use llm_d_inference_schedule.Registry.FlowRegistry.Creation.{
  IsConfigured, new_flow_registry-IsSound,
}
use llm_d_inference_schedule.Registry.Config.{Config}
use llm_d_inference_schedule.Registry.ManagedQueue.{Counters, add_delta}
use llm_d_inference_schedule.Registry.Shard.{FlowQueue, managed_queue}
use llm_d_inference_schedule.Registry.Shard.Levels.{has_level}
use llm_d_inference_schedule.Registry.Shard.Bands.{has_band, has_queue}
use llm_d_inference_schedule.Registry.Shard.Flows.{managed_queue-finds, propagate_shard_delta_lem}
use llm_d_inference_schedule.Registry.FlowRegistry.{
  FlowRegistry, new_flow_registry, connect, release, propagate_stats_delta,
}
use llm_d_inference_schedule.Registry.FlowRegistry.Collection.{gc_flows, gc_priority_bands}
use llm_d_inference_schedule.Registry.FlowRegistry.Leases.{IsSound}
use llm_d_inference_schedule.Registry.FlowRegistry.Sessions.{opened, closed, release-IsSound}
use llm_d_inference_schedule.Registry.FlowRegistry.Opening.{connect-Opens}
use llm_d_inference_schedule.Registry.FlowRegistry.IdleFlows.{gc_flows-IsSound}
use llm_d_inference_schedule.Registry.FlowRegistry.IdleBands.{gc_priority_bands-IsSound}

-- A report of a queue of a band that is there.
propagate_stats_delta-IsSound :
    (held : FlowKey → ℕ) (fr : FlowRegistry) (p : ℤ) (delta : Counters)
    → has_band fr.shard.priority_bands p ≡ true
    → IsSound held fr
    → Yields (IsSound held) (propagate_stats_delta fr p delta)
unfolding propagate_stats_delta
propagate_stats_delta-IsSound held fr p delta there s =
    Yields-then (propagate_shard_delta_lem fr.shard p delta there) (λ shard (views, levels, totals).
      elim (Option-cases (lookup eq_ℤ fr.per_priority_band_stats p)) [
        | inl missing ↦ absurd (ground (arith, missing, s.topology.counted p, there))
        | inr (stats, found) ↦ rw found (
            yields (record {
              topology = record {
                template = s.topology.template;
                own = s.topology.own;
                on_shard = λ q. (views q).0 ∙ s.topology.on_shard q;
                counted = λ q. ground (
                  arith,
                  lookup-put eq_ℤ eq_ℤ_iff fr.per_priority_band_stats p (add_delta stats delta) q,
                  (views q).2,
                  s.topology.counted p,
                  s.topology.counted q,
                  found,
                );
                totalled = ap (λ c. add_delta c delta) s.topology.totalled ∙ sym totals;
                sorted = rw levels s.topology.sorted;
                levelled =
                    λ q. ap (λ l. has_level l q) levels ∙ s.topology.levelled q ∙ sym (views q).0;
              };
              leases = record {
                leased = s.leases.leased;
                stored = s.leases.stored;
                queued =
                    All-weaken fr.flow_states
                      (λ x q.
                        ap (λ queues. has_key str_eq queues x.0.id) (views x.0.priority).1 ∙ q)
                      s.leases.queued;
                banded = s.leases.banded;
                pinned = s.leases.pinned;
              };
            }))
      ])

-- The registry with its open sessions.
pub record World : Type 0 where
  pub held : FlowKey → ℕ
  pub registry : FlowRegistry

-- What may happen next. A collector's two halves may have other steps between them.
pub data Step (w : World) : World → Type 0 where
  connects :
      (key : FlowKey) (now : ℕ) (fr : FlowRegistry)
      → connect w.registry key now ≡ ok (fr, none)
      → Step w (record { held = opened w.held key; registry = fr })
  refuses :
      (key : FlowKey) (now : ℕ) (fr : FlowRegistry) (e : Error)
      → connect w.registry key now ≡ ok (fr, some e)
      → Step w (record { held = w.held; registry = fr })
  releases :
      (key : FlowKey) (now : ℕ)
      → 0 < w.held key
      → Step w (record { held = closed w.held key; registry = release w.registry key now })
  collects_flows : (now : ℕ) → Step w (record { held = w.held; registry = gc_flows w.registry now })
  collects_bands :
      (now : ℕ) → Step w (record { held = w.held; registry = gc_priority_bands w.registry now })
  reports :
      (p : ℤ) (delta : Counters) (fr : FlowRegistry)
      → has_band w.registry.shard.priority_bands p ≡ true
      → propagate_stats_delta w.registry p delta ≡ ok fr
      → Step w (record { held = w.held; registry = fr })

pub data Reach (c : Config) : World → Type 0 where
  created :
      (fr : FlowRegistry)
      → new_flow_registry c ≡ ok fr
      → Reach c (record { held = λ _. 0; registry = fr })
  next : {w u : World} → Reach c w → Step w u → Reach c u

Step-IsSound : {w u : World} → Step w u → IsSound w.held w.registry → IsSound u.held u.registry
Step-IsSound {w} (connects key now fr e) s = yielded (connect-Opens w.held w.registry key now s) e
Step-IsSound {w} (refuses key now fr _ e) s = yielded (connect-Opens w.held w.registry key now s) e
Step-IsSound {w} (releases key now h) s = release-IsSound w.held w.registry key s now h
Step-IsSound {w} (collects_flows now) s = gc_flows-IsSound w.held w.registry now s
Step-IsSound {w} (collects_bands now) s = gc_priority_bands-IsSound w.held w.registry now s
Step-IsSound {w} (reports p delta fr there e) s =
    yielded (propagate_stats_delta-IsSound w.held w.registry p delta there s) e

-- A registry that has been created for a configuration is sound whatever happens to it.
pub Reach-IsSound :
    {c : Config} {w : World} → IsConfigured c → Reach c w → IsSound w.held w.registry
Reach-IsSound configured (created fr e) = yielded (new_flow_registry-IsSound _ configured) e
Reach-IsSound configured (next r step) = Step-IsSound step (Reach-IsSound configured r)

-- Whatever has happened to a registry since its creation, a flow with an open session has its queue.
pub open_session-queue :
    {c : Config} {w : World} (key : FlowKey)
    → IsConfigured c
    → Reach c w
    → 0 < w.held key
    → (mq : FlowQueue) × (managed_queue w.registry.shard key ≡ ok mq)
open_session-queue {c} {w} key configured r h =
    let s = Reach-IsSound configured r in
    managed_queue-finds w.registry.shard key
      (queue_of_flow w.registry.flow_states s.leases.queued (s.leases.stored key h))
  where
    queue_of_flow :
        (m : List (FlowKey × LeasedState))
        → All (λ x. has_queue w.registry.shard.priority_bands x.0 ≡ true) m
        → has_key key_eq m key ≡ true
        → has_queue w.registry.shard.priority_bands key ≡ true
    queue_of_flow [] h there = absurd (ground arith)
    queue_of_flow ((x, v) ∷ m) (here, rest) there = elim (Bool-cases (key_eq x key)) [
      | inl same ↦
          ap (has_queue w.registry.shard.priority_bands) (sym ((key_eq_iff x key).0 same)) ∙ here
      | inr other ↦ queue_of_flow m rest (ground (arith, other))
    ]
