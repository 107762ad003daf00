-- ===== src/Eviction/Heap.antt =====
-- pkg/epp/flowcontrol/eviction/queue.go: the heap of entries, with container/heap over its Less, Swap,
-- Push and Pop. An entry is an address, and its cell has the item and the index in the slice.
pub mod Contents
pub mod Indices
pub mod Insertion
use llm_d_inference_schedule.Prelude.{
  ℕ, zero, suc, ◌+◌, ◌-◌, ◌*◌, ◌/◌, ltb, ◌==◌, if◌then◌else◌, Bool, true, false, ◌||◌, not, Option,
  none, some, List, [], ◌∷◌, ◌++◌, length, get_elem?, set, take, update,
}
use llm_d_inference_schedule.Prelude.Int.{ℤ, pos, negsuc}
use llm_d_inference_schedule.Prelude.Outcome.{Run, ok, panic, out_of_fuel, ◌>>=◌, or_panic}
use llm_d_inference_schedule.Eviction.Policies.{EvictionItem}

pub record HeapEntry : Type 0 where
  pub item : EvictionItem
  pub index : ℤ

pub record EvictionHeap : Type 0 where
  pub entries : List ℕ
  pub cell : ℕ → HeapEntry
  pub next : ℕ

unfoldable pub load : EvictionHeap → ℕ → Run ℕ
load h i = or_panic (get_elem? h.entries i)

unfoldable pub set_index : EvictionHeap → ℕ → ℤ → EvictionHeap
set_index h a i = record h { cell = update h.cell a (record (h.cell a) { index = i }) }

unfoldable pub swap : EvictionHeap → ℕ → ℕ → Run EvictionHeap
unfolding load set_index
swap h i j = do
  y ← load h j
  x ← load h i
  ok (
      set_index (set_index (record h { entries = set (set h.entries i y) j x }) y (pos i)) x
        (pos j))

-- The heap's own Pop, of the last entry.
unfoldable pub pop_last : EvictionHeap → Run (EvictionHeap × ℕ)
unfolding load set_index
pop_last h = do
  let n = length h.entries - 1
  e ← load h n
  ok (set_index (record h { entries = take n h.entries }) e (negsuc 0), e)

module _ (less : EvictionItem → EvictionItem → Bool) where
  unfoldable pub less_at : EvictionHeap → ℕ → ℕ → Run Bool
  unfolding load
  less_at h i j = do x ← load h i; y ← load h j; ok (less (h.cell x).item (h.cell y).item)

  -- The loop of `up`; `(0 - 1) / 2` is 0 in Go, as it is here.
  unfoldable pub up : ℕ → EvictionHeap → ℕ → Run EvictionHeap
  unfolding less_at swap
  up zero h j = out_of_fuel
  up (suc fuel) h j =
      let i = (j - 1) / 2 in
      let rise = swap h i j >>= λ h'. up fuel h' i in
      let step = less_at h j i >>= λ before. if before then rise else ok h in
      if i == j then ok h else step

  -- The child to compare with: the right one if it is there and less.
  unfoldable pub child : EvictionHeap → ℕ → ℕ → Run ℕ
  unfolding less_at
  child h j₁ n =
      if ltb (j₁ + 1) n
      then (less_at h (j₁ + 1) j₁ >>= λ before. ok (if before then j₁ + 1 else j₁))
      else ok j₁

  -- The loop of `down`: the heap, and where the entry came to be.
  unfoldable pub down : ℕ → EvictionHeap → ℕ → ℕ → Run (EvictionHeap × ℕ)
  unfolding child swap
  down zero h i n = out_of_fuel
  down (suc fuel) h i n =
      let step : Run (EvictionHeap × ℕ) = do
        j ← child h (2 * i + 1) n
        before ← less_at h j i
        let sink = swap h i j >>= λ h'. down fuel h' j n
        if before then sink else ok (h, i)
      in if ltb (2 * i + 1) n then step else ok (h, i)

  -- The heap's own Push, and heap.Push.
  unfoldable pub push : EvictionHeap → EvictionItem → Run (EvictionHeap × ℕ)
  unfolding up
  push h item = do
    let n = length h.entries
    let pushed : EvictionHeap = record {
      entries = h.entries ++ h.next ∷ [];
      cell = update h.cell h.next (record { item = item; index = pos n });
      next = suc h.next;
    }
    h' ← up (suc n) pushed n
    ok (h', h.next)

  -- heap.Pop; of an empty heap it panics.
  unfoldable pub pop : EvictionHeap → Run (EvictionHeap × ℕ)
  unfolding down pop_last
  pop h = do
    let n = length h.entries - 1
    h₁ ← swap h 0 n
    (h₂, _) ← down (suc n) h₁ 0 n
    pop_last h₂

  -- The middle of heap.Remove: the entry that was the last finds its place, down or up.
  unfoldable pub fix_at : EvictionHeap → ℕ → ℕ → Run EvictionHeap
  unfolding down up
  fix_at h i n = do (h', at) ← down (suc n) h i n; if ltb i at then ok h' else up (suc i) h' i

  -- heap.Remove, of an index within the heap.
  unfoldable pub remove : EvictionHeap → ℕ → Run (EvictionHeap × ℕ)
  unfolding swap fix_at pop_last
  remove h i = do
    let n = length h.entries - 1
    h' ← if n == i then ok h else swap h i n >>= λ h₁. fix_at h₁ i n
    pop_last h'
