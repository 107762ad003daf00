-- ===== src/Registry/Leasing/Protocol.antt =====
-- pkg/epp/flowcontrol/registry/leasing.go: pinLeasedResource and one collector at work on one key of
-- the map, as interleaved steps. Each step is one atomic access: a call on the sync.Map, or a method
-- under a resource's mutex. Any number of clients are at work; between two steps a client knows only
-- a resource that it loaded, which may be any resource that was ever stored.
use llm_d_inference_schedule.Prelude.{
  Bool, ℕ, suc, ◌-◌, ◌≤◌, ◌<◌, ◌≡◌, ◌≢◌, if◌then◌else◌, true, false, Option, none, some, arith,
  refl, update,
}
use llm_d_inference_schedule.Prelude.Int.{pos}
use llm_d_inference_schedule.Registry.Leasing.{
  LeasedState, fresh_lease, try_pin, unpin, check_and_mark_for_deletion,
}

-- The map's entry for the key, the resource at each address, the next new address, the resource that
-- the collector has marked and not yet deleted, the leases that clients hold on each resource, and whether a
-- client has ever deleted the entry because its initialization had failed.
pub record World : Type 0 where
  pub entry : Option ℕ
  pub cell : ℕ → LeasedState
  pub next : ℕ
  pub collecting : Option ℕ
  pub held : ℕ → ℕ
  pub dropped : Bool

pub data Step : World → World → Type 0 where
  -- LoadOrStore finds no entry and stores a new resource.
  stores :
      (w : World)
      → w.entry ≡ none
      → Step w (record w {
        entry = some w.next;
        cell = update w.cell w.next fresh_lease;
        next = suc w.next;
      })
  -- tryPin, by a client that loaded the resource `a`, now or long ago.
  pins :
      (w : World) (a : ℕ)
      → a < w.next
      → (try_pin (w.cell a)).1 ≡ true
      → Step w (record w {
        cell = update w.cell a (try_pin (w.cell a)).0;
        held = update w.held a (suc (w.held a));
      })
  -- A client gives its lease back: at the end of its work, or after the second Load.
  unpins :
      (w : World) (a now : ℕ)
      → 0 < w.held a
      → Step w (record w {
        cell = update w.cell a (unpin (w.cell a) now);
        held = update w.held a (w.held a - 1);
      })
  -- The client's own Delete of the key, under a lease, when the initialization has failed.
  drops : (w : World) (a : ℕ) → 0 < w.held a → Step w (record w { entry = none; dropped = true })
  -- The collector's check of the resource in the map, which it is to delete or leaves.
  checks :
      (w : World) (a timeout now : ℕ)
      → w.entry ≡ some a
      → w.collecting ≡ none
      → Step w (record w {
        cell = update w.cell a (check_and_mark_for_deletion (w.cell a) timeout now).0;
        collecting =
            if (check_and_mark_for_deletion (w.cell a) timeout now).1 then some a else none;
      })
  -- LoadAndDelete, which takes out whatever the entry is by now.
  deletes :
      (w : World) (a : ℕ)
      → w.collecting ≡ some a
      → Step w (record w { entry = none; collecting = none })

pub data Reach (w : World) : World → Type 0 where
  here : Reach w w
  next : {v u : World} → Reach w v → Step v u → Reach w u

abbrev pub start : World
start = record {
  entry = none;
  cell = λ _. fresh_lease;
  next = 0;
  collecting = none;
  held = λ _. 0;
  dropped = false;
}

record IsSound (w : World) : Type 0 where
  stored : (a : ℕ) → w.entry ≡ some a → a < w.next
  counted : (a : ℕ) → (w.cell a).lease_count ≡ pos (w.held a)
  dead_unheld : (a : ℕ) → (w.cell a).marked_for_deletion ≡ true → w.held a ≡ 0
  live_stored :
      (a : ℕ)
      → w.dropped ≡ false
      → a < w.next
      → (w.cell a).marked_for_deletion ≡ false
      → w.entry ≡ some a
  unborn : (a : ℕ) → w.next ≤ a → (w.held a ≡ 0) × ((w.cell a).marked_for_deletion ≡ false)
  collected :
      (a : ℕ)
      → w.collecting ≡ some a
      → (w.dropped ≡ false → w.entry ≡ some a) × ((w.cell a).marked_for_deletion ≡ true)
  awaited :
      (a : ℕ) → w.entry ≡ some a → (w.cell a).marked_for_deletion ≡ true → w.collecting ≡ some a

Step-IsSound : {w u : World} → Step w u → IsSound w → IsSound u
unfolding try_pin unpin check_and_mark_for_deletion
Step-IsSound (stores w e) s = record {
  stored = λ a. ground (arith, s.stored a);
  counted = λ a. ground (arith, s.counted a, s.unborn a);
  dead_unheld = λ a. ground (arith, s.dead_unheld a);
  live_stored = λ a. ground (arith, s.live_stored a);
  unborn = λ a. ground (arith, s.unborn a);
  collected = λ a. ground (arith, s.collected a, s.unborn a);
  awaited = λ a. ground (arith, s.awaited a);
}
Step-IsSound (pins w b lt pinned) s = record {
  stored = λ a. ground (arith, s.stored a);
  counted = λ a. ground (arith, s.counted a, s.counted b);
  dead_unheld = λ a. ground (arith, s.dead_unheld a);
  live_stored = λ a. ground (arith, s.live_stored a, s.live_stored b);
  unborn = λ a. ground (arith, s.unborn a);
  collected = λ a. ground (arith, s.collected a);
  awaited = λ a. ground (arith, s.awaited a);
}
Step-IsSound (unpins w b now held) s = record {
  stored = λ a. ground (arith, s.stored a);
  counted = λ a. ground (arith, s.counted a, s.counted b);
  dead_unheld = λ a. ground (arith, s.dead_unheld a);
  live_stored = λ a. ground (arith, s.live_stored a, s.live_stored b);
  unborn = λ a. ground (arith, s.unborn a);
  collected = λ a. ground (arith, s.collected a);
  awaited = λ a. ground (arith, s.awaited a);
}
Step-IsSound (drops w b held) s = record {
  stored = λ a. ground arith;
  counted = s.counted;
  dead_unheld = s.dead_unheld;
  live_stored = λ a. ground arith;
  unborn = s.unborn;
  collected = λ a. ground (arith, s.collected a);
  awaited = λ a. ground arith;
}
Step-IsSound (checks w b timeout now e idle) s = record {
  stored = λ a. ground (arith, s.stored a);
  counted = λ a. ground (arith, s.counted a, s.counted b);
  dead_unheld = λ a. ground (arith, s.dead_unheld a, s.counted b);
  live_stored = λ a. ground (arith, s.live_stored a, s.live_stored b);
  unborn = λ a. ground (arith, s.unborn a, s.stored b);
  collected = λ a. ground (arith, s.collected a);
  awaited = λ a. ground (arith, s.awaited a);
}
Step-IsSound (deletes w b c) s = record {
  stored = λ a. ground (arith, s.stored a);
  counted = λ a. ground (arith, s.counted a);
  dead_unheld = λ a. ground (arith, s.dead_unheld a);
  live_stored = λ a. ground (arith, s.live_stored a, s.collected b);
  unborn = λ a. ground (arith, s.unborn a);
  collected = λ a. ground (arith, s.collected a);
  awaited = λ a. ground (arith, s.awaited a);
}

start-IsSound : IsSound start
start-IsSound = record {
  stored = λ a e. ground arith;
  counted = λ a. refl;
  dead_unheld = λ a e. refl;
  live_stored = λ a kept lt e. absurd (omega arith);
  unborn = λ a lt. (refl, refl);
  collected = λ a e. ground arith;
  awaited = λ a e d. ground arith;
}

Reach-IsSound : {w u : World} → IsSound w → Reach w u → IsSound u
Reach-IsSound s here = s
Reach-IsSound s (next r st) = Step-IsSound st (Reach-IsSound s r)

-- Whatever the clients and the collector have done, a resource on which a lease is held is not marked, is not the
-- one that the collector has marked for deletion, and its count is the number of its leases. As long as no client
-- has deleted the entry after a failed initialization, it is the one in the map, so that no two leased resources
-- exist for the key.
pub leased_stored :
    {w : World} (a : ℕ)
    → Reach start w
    → 0 < w.held a
    → (w.dropped ≡ false → w.entry ≡ some a)
      × ((w.cell a).marked_for_deletion ≡ false)
      × (w.collecting ≢ some a)
      × ((w.cell a).lease_count ≡ pos (w.held a))
leased_stored {w} a r h =
    let s = Reach-IsSound start-IsSound r in
    let alive : (w.cell a).marked_for_deletion ≡ false = ground (arith, s.dead_unheld a) in
    let born : a < w.next = ground (arith, s.unborn a) in
    (
      (λ kept. s.live_stored a kept born alive),
      alive,
      λ c. ground (arith, s.collected a c),
      s.counted a,
    )
