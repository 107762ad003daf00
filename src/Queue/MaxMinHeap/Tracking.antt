-- ===== src/Queue/MaxMinHeap/Tracking.antt =====
-- pkg/epp/flowcontrol/framework/plugins/queue/maxminheap.go: the link between a position in the heap
-- and the heapItem that the item's handle names, under `swap` and the loops made of it.
use llm_d_inference_schedule.Prelude.{
  ℕ, ◌<◌, ◌≡◌, ◌≢◌, inl, inr, refl, sym, ◌∙◌, ◌==◌, false, some, Perm, arith, get_elem?, update,
  exchange, get_elem?-exchange, exchange-perm, length-perm, Bool-cases,
}
use mathlib.Core.List.Perm
use llm_d_inference_schedule.Prelude.Outcome.{ok, Yields, yields}
use llm_d_inference_schedule.Item.{Item}
use llm_d_inference_schedule.Queue.MaxMinHeap.{Heap, HeapItem, len, load, set_index, swap}

-- The item `x` at position `i` has the live, registered handle `r`, whose heapItem says `i`.
pub record Registered (h : Heap) (i : ℕ) (x : Item) (r : ℕ) : Type 0 where
  pub known : h.handle_of x.ref ≡ some r
  pub mapped : h.handles r ≡ some r
  pub placed : (h.cell r).index ≡ i
  pub live : (h.cell r).is_invalidated ≡ false
  pub allocated : r < h.next

abbrev pub IsTracked : Heap → Type 0
IsTracked h = (i : ℕ) (x : Item) → get_elem? h.items i ≡ some x → (r : ℕ) × Registered h i x r

-- `h'` is `h` with its items permuted and the positions in the heapItems kept up to date.
pub record Moved (h h' : Heap) : Type 0 where
  pub tracked : IsTracked h'
  pub perm : Perm h'.items h.items
  pub handles_same : h'.handles ≡ h.handles
  pub handle_of_same : h'.handle_of ≡ h.handle_of
  pub byte_size_same : h'.byte_size ≡ h.byte_size
  pub next_same : h'.next ≡ h.next

pub Moved-refl : (h : Heap) → IsTracked h → Moved h h
Moved-refl h t = record {
  tracked = t;
  perm = Perm.refl _;
  handles_same = refl;
  handle_of_same = refl;
  byte_size_same = refl;
  next_same = refl;
}

pub Moved-trans : {h h' h'' : Heap} → Moved h h' → Moved h' h'' → Moved h h''
Moved-trans m n = record {
  tracked = n.tracked;
  perm = Perm.trans n.perm m.perm;
  handles_same = n.handles_same ∙ m.handles_same;
  handle_of_same = n.handle_of_same ∙ m.handle_of_same;
  byte_size_same = n.byte_size_same ∙ m.byte_size_same;
  next_same = n.next_same ∙ m.next_same;
}

pub len-Moved : {h h' : Heap} → Moved h h' → len h' ≡ len h
len-Moved m = length-perm m.perm

pub load-ok : (h : Heap) (i : ℕ) (x : Item) → get_elem? h.items i ≡ some x → load h i ≡ ok x
unfolding load
load-ok h i x e = rw e

module _ (h : Heap) (i j : ℕ) (x y : Item) (rx ry : ℕ) where
  abbrev first : ℕ → HeapItem
  first = update h.cell ry (record (h.cell ry) { index = i })

  abbrev swapped : Heap
  swapped = record h {
    items = exchange h.items i j x y;
    cell = update first rx (record (first rx) { index = j });
  }

  module _ (hi : get_elem? h.items i ≡ some x) (hj : get_elem? h.items j ≡ some y)
      (px : Registered h i x rx) (py : Registered h j y ry) where
    swap-ok : swap h i j ≡ ok swapped
    unfolding swap load set_index
    swap-ok = ground (
      arith,
      get_elem?-exchange h.items i j x y hi hj i,
      get_elem?-exchange h.items i j x y hi hj j,
      px.known,
      px.mapped,
      py.known,
      py.mapped,
    )

    swapped-kept :
        (c : ℕ) (z : Item) (r : ℕ) → c ≢ i → c ≢ j → Registered h c z r → Registered swapped c z r
    swapped-kept c z r ni nj p = ground arith

    swapped-second : Registered swapped j x rx
    swapped-second = ground (arith, px.known, px.mapped, px.live, px.allocated)

    swapped-first : i ≢ j → Registered swapped i y ry
    swapped-first ne =
        ground (arith, px.placed, py.placed, py.known, py.mapped, py.live, py.allocated)

    swapped-IsTracked : IsTracked h → IsTracked swapped
    swapped-IsTracked t c z e =
        let at = sym e ∙ get_elem?-exchange h.items i j x y hi hj c in
        elim (Bool-cases (j == c)) [
          | inl at_j ↦
              let zx : z ≡ x = ground arith in
              let cj : c ≡ j = ground arith in (rx, rw (zx, cj) swapped-second)
          | inr not_j ↦ elim (Bool-cases (i == c)) [
            | inl at_i ↦
                let zy : z ≡ y = ground arith in
                let ci : c ≡ i = ground arith in (ry, rw (zy, ci) (swapped-first (ground arith)))
            | inr not_i ↦
                let (r, p) = t c z (ground arith) in
                (r, swapped-kept c z r (ground arith) (ground arith) p)
          ]
        ]

-- An exchange of two positions of the heap, with what it leaves.
pub swap_moves :
    (h : Heap) (i j : ℕ) (x y : Item)
    → IsTracked h
    → get_elem? h.items i ≡ some x
    → get_elem? h.items j ≡ some y
    → Yields (λ h'. Moved h h' × (h'.items ≡ exchange h.items i j x y)) (swap h i j)
swap_moves h i j x y t hi hj =
    let (rx, px) = t i x hi in
    let (ry, py) = t j y hj in
    rw (swap-ok h i j x y rx ry hi hj px py) (
      yields (
        record {
          tracked = swapped-IsTracked h i j x y rx ry hi hj px py t;
          perm = exchange-perm h.items i j x y hi hj;
          handles_same = refl;
          handle_of_same = refl;
          byte_size_same = refl;
          next_same = refl;
        },
        refl,
      ))
