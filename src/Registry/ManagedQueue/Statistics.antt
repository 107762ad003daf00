-- ===== src/Registry/ManagedQueue/Statistics.antt =====
-- pkg/epp/flowcontrol/registry/managedqueue.go: the counters of a queue, of its band and of its shard agree
-- with the items that the queue holds.
use mathlib.Core.List.{append-nil}
use llm_d_inference_schedule.Prelude.{
  if◌then◌else◌, leb, ◌+◌, ◌%◌, ◌^◌, ◌<◌, ◌≡◌, inl, inr, refl, sym, subst, Bool, true, false, List,
  [], ◌∷◌, ◌++◌, Perm, length, length-perm, length-append, arith,
}
use llm_d_inference_schedule.Prelude.Outcome.{
  Run, ◌>>=◌, ok, err, Error, shard_draining, Yields, yields, Yields-then, Yields-weaken,
}
use llm_d_inference_schedule.Item.{Item, HandleArg, sub_u64}
use llm_d_inference_schedule.Queue.Bytes.{total, total-perm, total-append}
use llm_d_inference_schedule.Queue.Contract.{SafeQueue, SafeQueueLaw}
use llm_d_inference_schedule.Registry.ManagedQueue.{
  Counters, ManagedQueue, add_delta, propagate_stats_delta_locked, propagate_stats_delta,
  removed_delta, add, remove, account, cleanup, drain,
}

-- A counter pair counts the items `xs`, beside what `rest` counts.
abbrev pub Counts : Counters → List Item → Counters → Type 0
Counts rest xs c =
    (c.len ≡ (length xs + rest.len) % 2 ^ 64) × (c.byte_size ≡ (total xs + rest.byte_size) % 2 ^ 64)

-- The delta leads from the items `xs` to the items `ys`.
IsDelta : Counters → List Item → List Item → Type 0
IsDelta delta xs ys =
    ((delta.len + length xs) % 2 ^ 64 ≡ length ys % 2 ^ 64)
    × ((delta.byte_size + total xs) % 2 ^ 64 ≡ total ys % 2 ^ 64)

add_delta-Counts :
    (rest delta c : Counters) (xs ys : List Item)
    → IsDelta delta xs ys
    → Counts rest xs c
    → Counts rest ys (add_delta c delta)
unfolding add_delta IsDelta
add_delta-Counts rest delta c xs ys moves counts =
    (omega (arith, moves.0, counts.0), omega (arith, moves.1, counts.1))

removed_delta-sums :
    (xs : List Item) (d : Counters)
    → (((removed_delta xs d).len + length xs) % 2 ^ 64 ≡ d.len % 2 ^ 64)
      × (((removed_delta xs d).byte_size + total xs) % 2 ^ 64 ≡ d.byte_size % 2 ^ 64)
unfolding removed_delta total
removed_delta-sums [] d = (omega arith, omega arith)
removed_delta-sums (x ∷ xs) d =
    let below =
      removed_delta-sums xs
        (record { len = sub_u64 d.len 1; byte_size = sub_u64 d.byte_size x.byte_size }) in
    (omega (arith, below.0), omega (arith, below.1))

Counts-same :
    (rest c : Counters) (xs ys : List Item)
    → length ys ≡ length xs
    → total ys ≡ total xs
    → Counts rest xs c
    → Counts rest ys c
Counts-same rest c xs ys n t counts = (omega (arith, n, counts.0), omega (arith, t, counts.1))

-- The band and the shard count other queues' items too, `band_rest` and `shard_rest`.
module _ {Q : Type 0} (band_rest shard_rest : Counters) where
  abbrev pub CountsAll : List Item → ManagedQueue Q → Type 0
  CountsAll xs mq =
      Counts (record { len = 0; byte_size = 0 }) xs mq.stats
      × Counts band_rest xs mq.band
      × Counts shard_rest xs mq.shard

  propagate-CountsAll :
      (mq : ManagedQueue Q) (delta : Counters) (xs ys : List Item)
      → IsDelta delta xs ys
      → length ys < 2 ^ 63
      → CountsAll xs mq
      → Yields
          (λ mq'. (mq'.queue ≡ mq.queue) × CountsAll ys mq')
          (propagate_stats_delta_locked mq delta)
  unfolding propagate_stats_delta_locked propagate_stats_delta
  propagate-CountsAll mq delta xs ys moves short counts =
      let own = add_delta-Counts _ delta mq.stats xs ys moves counts.0 in
      let low : leb (2 ^ 63) (add_delta mq.stats delta).len ≡ false =
        ground (arith, own.0, short) in
      rw low (
        yields (
          refl,
          (
            own,
            add_delta-Counts _ delta mq.band xs ys moves counts.1,
            add_delta-Counts _ delta mq.shard xs ys moves counts.2,
          ),
        ))

pub data Call : Type 0 where
  adds : Item → Call
  removes : HandleArg → Call
  cleans : (Item → Bool) → Call
  drains : Call

module _ {Q : Type 0} where
  -- A call that returns an error leaves the state as it was.
  pub or_unchanged : ManagedQueue Q → Run (ManagedQueue Q) → Run (ManagedQueue Q)
  or_unchanged mq (err e) = ok mq
  or_unchanged mq call = call

  or_unchanged-Yields :
      {P : ManagedQueue Q → Type 0} {call : Run (ManagedQueue Q)} (mq : ManagedQueue Q)
      → Yields P call
      → Yields P (or_unchanged mq call)
  unfolding or_unchanged
  or_unchanged-Yields mq (yields holds) = yields holds

  refused-Yields :
      {P : ManagedQueue Q → Type 0} {call : Run (ManagedQueue Q)} (mq : ManagedQueue Q) (e : Error)
      (test : Bool)
      → P mq
      → Yields P call
      → Yields P (or_unchanged mq (if test then err e else call))
  unfolding or_unchanged
  refused-Yields mq e true unchanged after = yields unchanged
  refused-Yields mq e false unchanged after = or_unchanged-Yields mq after

module _ {Q : Type 0} (sq : SafeQueue Q) where
  pub perform : ManagedQueue Q → Call → Run (ManagedQueue Q)
  perform mq (adds x) = or_unchanged mq (add sq mq x)
  perform mq (removes handle) = or_unchanged mq (remove sq mq handle >>= λ result. ok result.1)
  perform mq (cleans predicate) = cleanup sq mq predicate >>= λ result. ok result.1
  perform mq drains = drain sq mq >>= λ result. ok result.1

module _ {Q : Type 0} (sq : SafeQueue Q) (law : SafeQueueLaw sq)
    (band_rest shard_rest : Counters) where
  abbrev pub IsConsistent : ManagedQueue Q → Type 0
  IsConsistent mq =
      law.IsValid mq.queue
      × CountsAll band_rest shard_rest (law.contents mq.queue) mq
      × (length (law.contents mq.queue) < 2 ^ 63)

  -- An added item is one that the queue takes, and does not make the length negative.
  abbrev pub IsAllowed : ManagedQueue Q → Call → Type 0
  IsAllowed mq (adds x) = law.CanAdd mq.queue x × (length (law.contents mq.queue) + 1 < 2 ^ 63)
  IsAllowed mq _ = Unit

  -- The counters follow the queue's contents from those of `mq` to those of `q`.
  follows :
      (mq : ManagedQueue Q) (q : Q) (delta : Counters)
      → law.IsValid q
      → IsDelta delta (law.contents mq.queue) (law.contents q)
      → length (law.contents q) < 2 ^ 63
      → CountsAll band_rest shard_rest (law.contents mq.queue) mq
      → Yields IsConsistent (propagate_stats_delta_locked (record mq { queue = q }) delta)
  follows mq q delta valid moves short counts =
      Yields-weaken
        (propagate-CountsAll band_rest shard_rest (record mq { queue = q }) delta _ _ moves short
          counts)
        λ mq' holds.
          let same = sym holds.0 in
          (
            subst law.IsValid same valid,
            subst (λ k. CountsAll band_rest shard_rest (law.contents k) mq') same holds.1,
            subst (λ k. length (law.contents k) < 2 ^ 63) same short,
          )

  accounts :
      (mq : ManagedQueue Q) (removed : List Item) (q : Q)
      → IsConsistent mq
      → law.IsValid q
      → Perm (removed ++ law.contents q) (law.contents mq.queue)
      → Yields (λ result. IsConsistent result.1) (account sq mq (removed, q))
  unfolding account IsDelta
  accounts mq [] q good valid same =
      let n = length-perm same in
      let t = total-perm same in
      yields (
        valid,
        (
          Counts-same _ mq.stats _ _ n t good.1.0,
          Counts-same _ mq.band _ _ n t good.1.1,
          Counts-same _ mq.shard _ _ n t good.1.2,
        ),
        omega (arith, n, good.2),
      )
  accounts mq (x ∷ xs) q good valid same =
      let n = length-perm same in
      let t = total-perm same in
      let sums = removed_delta-sums (x ∷ xs) (record { len = 0; byte_size = 0 }) in
      let moves : IsDelta (removed_delta (x ∷ xs) (record { len = 0; byte_size = 0 }))
          (law.contents mq.queue) (law.contents q) =
        (
          omega (arith, sums.0, n, length-append (x ∷ xs) (law.contents q)),
          omega (arith, sums.1, t, total-append (x ∷ xs) (law.contents q)),
        ) in
      let short : length (law.contents q) < 2 ^ 63 =
        omega (arith, n, good.2, length-append (x ∷ xs) (law.contents q)) in
      Yields-then (follows mq q _ valid moves short good.1) λ mq' holds. yields holds

  adds_keep :
      (mq : ManagedQueue Q) (x : Item)
      → IsConsistent mq
      → IsAllowed mq (adds x)
      → Yields IsConsistent (or_unchanged mq (add sq mq x))
  unfolding add or_unchanged IsDelta total
  adds_keep mq x good allowed = refused-Yields mq shard_draining mq.is_draining good (
      Yields-then (law.adds mq.queue x good.0 allowed.0) λ q holds.
        let n = length-perm holds.1 in
        let t = total-perm holds.1 in
        follows mq q _ holds.0 (omega (arith, n), omega (arith, t)) (omega (arith, n, allowed.1))
          good.1)

  removes_keep :
      (mq : ManagedQueue Q) (handle : HandleArg)
      → IsConsistent mq
      → Yields IsConsistent (or_unchanged mq (remove sq mq handle >>= λ result. ok result.1))
  unfolding remove or_unchanged IsDelta total
  removes_keep mq handle good = elim (law.removes mq.queue handle good.0) [
    | inl (e, refused) ↦ rw (remove, refused) (yields good)
    | inr removed ↦ or_unchanged-Yields mq (
        Yields-then {P = λ result. IsConsistent result.1}
          (Yields-then removed λ result holds.
            let n = length-perm holds.1 in
            let t = total-perm holds.1 in
            Yields-then
              (follows mq result.1 _ holds.0 (omega (arith, n), omega (arith, t))
                (omega (arith, n, good.2)) good.1)
              λ mq' kept. yields kept)
          λ result kept. yields kept)
  ]

  -- Whatever the call, its errors included, where an added item is one that the queue takes and leaves the
  -- length below 2^63: if the counters of the queue, of its band and of its shard
  -- agree with the queue's contents, beside what other queues count, they still do afterwards, and the
  -- call neither panics nor blocks.
  pub stats_agree :
      (mq : ManagedQueue Q) (call : Call)
      → IsConsistent mq
      → IsAllowed mq call
      → Yields IsConsistent (perform sq mq call)
  unfolding perform add remove cleanup drain
  stats_agree mq (adds x) good allowed = adds_keep mq x good allowed
  stats_agree mq (removes handle) good allowed = removes_keep mq handle good
  stats_agree mq (cleans predicate) good allowed =
      Yields-then {P = λ result. IsConsistent result.1}
        (Yields-then (law.cleans mq.queue predicate good.0)
          λ result holds. accounts mq result.0 result.1 good holds.0 holds.1)
        λ result kept. yields kept
  stats_agree mq drains good allowed =
      Yields-then {P = λ result. IsConsistent result.1}
        (Yields-then (law.drains mq.queue good.0) λ result holds.
          accounts mq result.0 result.1 good holds.0 (rw (holds.2, append-nil result.0) holds.1))
        λ result kept. yields kept
