-- ===== src/Ordering/ByTime.antt =====
-- pkg/epp/framework/plugins/flowcontrol/ordering/{fcfs,edf}: the policies that read an item's enqueue
-- time and its effective time to live. Times are nanoseconds from the epoch, below 2 ^ 63 on input.
use llm_d_inference_schedule.Prelude.{
  zero, suc, refl, ℕ, ◌+◌, ◌-◌, ◌*◌, ◌^◌, ◌<◌, ◌≡◌, ltb, ◌==◌, if◌then◌else◌, Bool, true, false,
  Option, none, some, arith,
}
use llm_d_inference_schedule.Prelude.Int.{ℤ, pos, negsuc}
use llm_d_inference_schedule.Item.{Item}
use llm_d_inference_schedule.Ordering.StrictWeak.{IsStrictWeak}

-- FCFS. A nil item ranks last.
unfoldable pub fcfs_less : Option Item → Option Item → Bool
fcfs_less none b = false
fcfs_less (some a) none = true
fcfs_less (some a) (some b) = ltb a.enqueue_time b.enqueue_time

abbrev pub max_deadline_time : ℕ
max_deadline_time = 2 ^ 63 - 1

is_positive : ℤ → Bool
is_positive (pos n) = ltb 0 n
is_positive (negsuc n) = false

abbrev magnitude : ℤ → ℕ
magnitude (pos n) = n
magnitude (negsuc n) = 0

-- EDF: the deadline is the enqueue time plus the time to live, if there is one.
unfoldable pub calculate_deadline : Item → ℕ
unfolding is_positive
calculate_deadline x =
    if is_positive x.effective_ttl
    then x.enqueue_time + magnitude x.effective_ttl
    else max_deadline_time

unfoldable pub edf_less : Option Item → Option Item → Bool
edf_less none b = false
edf_less (some a) none = true
edf_less (some a) (some b) =
    if calculate_deadline a == calculate_deadline b
    then ltb a.enqueue_time b.enqueue_time
    else ltb (calculate_deadline a) (calculate_deadline b)

-- FCFS is a strict weak order of items, nil among them.
pub fcfs_less-IsStrictWeak : IsStrictWeak fcfs_less
unfolding fcfs_less
fcfs_less-IsStrictWeak = record {
  irreflexive = λ a. ground arith;
  transitive = λ a b c. ground arith;
  comparable = λ a b c. ground arith;
}

-- EDF is a strict weak order of items, nil among them.
pub edf_less-IsStrictWeak : IsStrictWeak edf_less
unfolding edf_less
edf_less-IsStrictWeak = record {
  irreflexive = λ a. ground arith;
  transitive = λ a b c. ground arith;
  comparable = λ a b c. ground arith;
}

-- An item that is to live for a positive time `t` is due `t` after its enqueue time, another one at the
-- latest time there is.
pub due : ℤ → ℕ → ℕ
due (pos zero) enqueued = 2 ^ 63 - 1
due (pos (suc t)) enqueued = enqueued + suc t
due (negsuc t) enqueued = 2 ^ 63 - 1

calculate_deadline_lem :
    (x : Item) (ttl : ℤ) → x.effective_ttl ≡ ttl → calculate_deadline x ≡ due ttl x.enqueue_time
unfolding calculate_deadline is_positive due
calculate_deadline_lem x (pos zero) e = rw (calculate_deadline, e) refl
calculate_deadline_lem x (pos (suc t)) e = ground (arith, e)
calculate_deadline_lem x (negsuc t) e = rw (calculate_deadline, e) refl

-- When the item is due, and below it the enqueue time, as one number.
pub edf_rank : Item → ℕ
edf_rank x = due x.effective_ttl x.enqueue_time * 2 ^ 64 + x.enqueue_time

-- For enqueue times below 2^64 EDF compares one number of each item, its rank: when it is due, which is its
-- enqueue time and time to live if that is positive and else the latest time, and then its enqueue time.
pub edf-rank :
    (a b : Item)
    → a.enqueue_time < 2 ^ 64
    → b.enqueue_time < 2 ^ 64
    → edf_less (some a) (some b) ≡ ltb (edf_rank a) (edf_rank b)
unfolding edf_less edf_rank
edf-rank a b ha hb = ground (
  arith,
  calculate_deadline_lem a a.effective_ttl refl,
  calculate_deadline_lem b b.effective_ttl refl,
)
