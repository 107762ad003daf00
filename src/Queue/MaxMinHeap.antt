-- ===== src/Queue/MaxMinHeap.antt =====
-- pkg/epp/flowcontrol/framework/plugins/queue/maxminheap.go. One call runs under the queue's mutex, so
-- a method is a function from the state to the state. The state has the struct's fields and the
-- memory that it reaches: each item's handle, and the heapItem at each address.
-- `upMin` and `upMax`, `downMin` and `downMax`, and the two searches differ only in the sense of the
-- comparison: `up`, `down` and `find_extreme` below take it as `before`.
pub mod Removal
pub mod Tracking
pub mod Moves
pub mod Contents
pub mod Levels
pub mod Order
pub mod Up
pub mod Priority
use llm_d_inference_schedule.Prelude.{
  ℕ, zero, suc, ◌+◌, ◌-◌, ◌*◌, ◌/◌, ◌%◌, ◌==◌, ltb, leb, not, if◌then◌else◌, Bool, true, false,
  Option, none, some, List, [], ◌∷◌, ◌++◌, length, get_elem?, set, update,
}
use llm_d_inference_schedule.Prelude.Outcome.{Run, ok, out_of_fuel, ◌>>=◌, or_panic}
use llm_d_inference_schedule.Item.{Item, add_u64}

pub record HeapItem : Type 0 where
  pub item : Item
  pub index : ℕ
  pub is_invalidated : Bool

-- `handles` sends a handle's address to its heapItem's; `handle_of` is each item's Handle().
pub record Heap : Type 0 where
  pub items : List Item
  pub handles : ℕ → Option ℕ
  pub byte_size : ℕ
  pub handle_of : ℕ → Option ℕ
  pub cell : ℕ → HeapItem
  pub next : ℕ

-- `newMaxMinHeap`, in a memory where nothing at `next` or above is in use.
unfoldable pub new_max_min_heap : (ℕ → Option ℕ) → (ℕ → HeapItem) → ℕ → Heap
new_max_min_heap handle_of cell next = record {
  items = [];
  handles = λ _. none;
  byte_size = 0;
  handle_of = handle_of;
  cell = cell;
  next = next;
}

abbrev pub len : Heap → ℕ
len h = length h.items

-- `h.items[i]`
unfoldable pub load : Heap → ℕ → Run Item
load h i = or_panic (get_elem? h.items i)

-- `h.handles[x.Handle()].index = i`: a missing entry is a nil pointer.
unfoldable pub set_index : Heap → Item → ℕ → Run Heap
set_index h x i = do
  handle ← or_panic (h.handle_of x.ref)
  r ← or_panic (h.handles handle)
  ok (record h { cell = update h.cell r (record (h.cell r) { index = i }) })

unfoldable pub swap : Heap → ℕ → ℕ → Run Heap
swap h i j = do
  y ← load h j
  x ← load h i
  let traded = record h { items = set (set h.items i y) j x }
  a ← load traded i
  h' ← set_index traded a i
  b ← load h' j
  set_index h' b j

-- `Less(items[i], items[j])`, or its converse, by `before`.
unfoldable pub test : (Item → Item → Bool) → Heap → ℕ → ℕ → Run Bool
test before h i j = do x ← load h i; y ← load h j; ok (before x y)

-- The parity of the floor of log2 (i + 1); the source takes it from a float, which is exact for any
-- index below 2 ^ 48.
log2 : ℕ → ℕ → ℕ
log2 zero n = 0
log2 (suc f) n = let rest = suc (log2 f (n / 2)) in if ltb n 2 then 0 else rest

unfoldable pub is_min_level : ℕ → Bool
unfolding log2
is_min_level i = not (log2 (i + 1) (i + 1) % 2 == 0)

abbrev pub parent : ℕ → ℕ
parent i = (i - 1) / 2

unfoldable pub bubble_up : (Item → Item → Bool) → ℕ → Heap → ℕ → Run Heap
bubble_up before zero h i = out_of_fuel
bubble_up before (suc f) h i =
    let grandparent = parent (parent i) in
    let rise = swap h i grandparent >>= λ h'. bubble_up before f h' grandparent in
    let step = test before h i grandparent >>= λ out. if out then rise else ok h in
    if parent i == 0 then ok h else step

-- The candidates from `j` on, for as many rounds as are given.
unfoldable pub scan : (Item → Item → Bool) → ℕ → Heap → ℕ → ℕ → Run ℕ
scan before zero h j m = ok m
scan before (suc k) h j m =
    let step = test before h j m >>= λ b. scan before k h (suc j) (if b then j else m) in
    if ltb j (len h) then step else ok m

-- `none` is -1.
unfoldable pub find_extreme : (Item → Item → Bool) → Heap → ℕ → Run (Option ℕ)
find_extreme before h i =
    let left = 2 * i + 1 in
    let right = 2 * i + 2 in
    if leb (len h) left then ok none else do
      b ← if ltb right (len h) then test before h right left else ok false
      m ← scan before 4 h (2 * left + 1) (if b then right else left)
      ok (some m)

-- After the exchange of `i` and `m`: a grandchild may be out of order with its new parent.
unfoldable pub settle : (Item → Item → Bool) → Heap → ℕ → ℕ → Run Heap
settle before h i m =
    if parent m == i
    then ok h
    else do b ← test before h (parent m) m; if b then swap h m (parent m) else ok h

unfoldable pub trickle_down : (Item → Item → Bool) → ℕ → Heap → ℕ → Run Heap
trickle_down before zero h i = out_of_fuel
trickle_down before (suc f) h i = find_extreme before h i >>= λ found. elim found [
  | none ↦ ok h
  | some m ↦ test before h m i >>= λ b. elim b [
    | true ↦ do h' ← swap h i m; h'' ← settle before h' i m; trickle_down before f h'' m
    | false ↦ ok h
  ]
]

module _ (less : Item → Item → Bool) where
  abbrev pub more : Item → Item → Bool
  more a b = less b a

  unfoldable pub up_min : Heap → ℕ → Run Heap
  up_min h i = bubble_up more (suc i) h i

  unfoldable pub up_max : Heap → ℕ → Run Heap
  up_max h i = bubble_up less (suc i) h i

  unfoldable pub up : Heap → ℕ → Run Heap
  up h i =
      if i == 0
      then ok h
      else if is_min_level i
      then (do
        b ← test less h i (parent i)
        if b then (do h' ← swap h i (parent i); up_max h' (parent i)) else up_min h i)
      else do
        b ← test less h (parent i) i
        if b then (do h' ← swap h i (parent i); up_min h' (parent i)) else up_max h i

  unfoldable pub down_min : Heap → ℕ → Run Heap
  down_min h i = trickle_down more (suc (len h)) h i

  unfoldable pub down_max : Heap → ℕ → Run Heap
  down_max h i = trickle_down less (suc (len h)) h i

  unfoldable pub down : Heap → ℕ → Run Heap
  down h i = if is_min_level i then down_min h i else down_max h i

  unfoldable pub push : Heap → Item → Run Heap
  push h x = up grown (len grown - 1)
    where
      grown : Heap
      grown = record h {
        items = h.items ++ x ∷ [];
        handles = update h.handles h.next (some h.next);
        handle_of = update h.handle_of x.ref (some h.next);
        cell = update h.cell h.next (record { item = x; index = len h; is_invalidated = false });
        next = suc h.next;
      }

  unfoldable pub add : Heap → Item → Run Heap
  add h x = do h' ← push h x; ok (record h' { byte_size = add_u64 h'.byte_size x.byte_size })

  unfoldable pub peek_head : Heap → Run (Option Item)
  peek_head h = if len h == 0 then ok none else (load h 0 >>= λ x. ok (some x))

  unfoldable pub peek_tail : Heap → Run (Option Item)
  peek_tail h =
      if len h == 0
      then ok none
      else if len h == 1
      then (load h 0 >>= λ x. ok (some x))
      else if len h == 2
      then (load h 1 >>= λ x. ok (some x))
      else do b ← test less h 1 2; x ← if b then load h 2 else load h 1; ok (some x)
