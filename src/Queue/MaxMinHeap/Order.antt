-- ===== src/Queue/MaxMinHeap/Order.antt =====
-- pkg/epp/flowcontrol/framework/plugins/queue/maxminheap.go: the order of the heap, over the ranks that
-- stand at each position, and one exchange of a loop that moves an item up.
use llm_d_inference_schedule.Prelude.{
  ◌⊎◌, ℕ, zero, suc, ◌≤◌, ◌<◌, ◌≡◌, ◌≢◌, inl, inr, ◌==◌, leb, if◌then◌else◌, true, false, arith,
  Bool-cases,
}
use llm_d_inference_schedule.Queue.MaxMinHeap.{is_min_level, parent}
use llm_d_inference_schedule.Queue.MaxMinHeap.Levels.{root_level, level_alternates}

-- The ancestor `a` and its descendant `c` are in order: below a node of a max level nothing ranks
-- before it, and below one of a min level nothing ranks behind it.
abbrev pub Below : (ℕ → ℕ) → ℕ → ℕ → Type 0
Below k a c = (if is_min_level a then leb (k c) (k a) else leb (k a) (k c)) ≡ true

pub record IsOrdered (k : ℕ → ℕ) (n : ℕ) : Type 0 where
  pub parents : (c : ℕ) → 0 < c → c < n → Below k (parent c) c
  pub grandparents : (c : ℕ) → 2 < c → c < n → Below k (parent (parent c)) c

-- Only the position `i` may be out of order, and only with its grandparent.
pub record IsRising (k : ℕ → ℕ) (n i : ℕ) : Type 0 where
  pub parents : (c : ℕ) → 0 < c → c < n → Below k (parent c) c
  pub grandparents : (c : ℕ) → 2 < c → c < n → c ≢ i → Below k (parent (parent c)) c
  pub children : (c : ℕ) → 2 < i → 0 < c → c < n → parent c ≡ i → Below k (parent (parent i)) c
  pub grandchildren :
      (c : ℕ) → 2 < i → 2 < c → c < n → parent (parent c) ≡ i → Below k (parent (parent i)) c

abbrev pub traded : (ℕ → ℕ) → ℕ → ℕ → ℕ → ℕ
traded k i j c = if j == c then k i else if i == c then k j else k c

module _ (k : ℕ → ℕ) (n i : ℕ) (s : IsRising k n i) (deep : 2 < i) (inside : i < n) where
  abbrev g : ℕ
  g = parent (parent i)

  module _ (out : (if is_min_level i then leb (k i) (k g) else leb (k g) (k i)) ≡ false) where
    rising_parents : (c : ℕ) → 0 < c → c < n → Below (traded k i g) (parent c) c
    rising_parents c pos lt = ground (
      arith,
      level_alternates i,
      level_alternates (parent i),
      level_alternates c,
      level_alternates g,
      s.parents c,
      s.parents i,
      s.parents (parent i),
      s.parents g,
      s.children c deep,
    )

    rising_grandparents :
        (c : ℕ) → 2 < c → c < n → c ≢ g → Below (traded k i g) (parent (parent c)) c
    rising_grandparents c pos lt ne = ground (
      arith,
      level_alternates i,
      level_alternates (parent i),
      level_alternates c,
      level_alternates g,
      level_alternates (parent c),
      s.grandparents c,
      s.parents (parent i),
      s.grandparents g,
      s.grandchildren c deep,
      s.children c deep,
    )

    rising_children :
        (c : ℕ) → 2 < g → 0 < c → c < n → parent c ≡ g → Below (traded k i g) (parent (parent g)) c
    rising_children c pos low lt e = ground (
      arith,
      level_alternates i,
      level_alternates (parent i),
      level_alternates c,
      level_alternates g,
      level_alternates (parent g),
      level_alternates (parent c),
      s.parents c,
      s.grandparents g,
      s.grandparents c,
    )

    rising_grandchildren :
        (c : ℕ)
        → 2 < g
        → 2 < c
        → c < n
        → parent (parent c) ≡ g
        → Below (traded k i g) (parent (parent g)) c
    rising_grandchildren c pos low lt e = ground (
      arith,
      level_alternates i,
      level_alternates (parent i),
      level_alternates c,
      level_alternates g,
      level_alternates (parent g),
      level_alternates (parent c),
      s.grandparents g,
      s.grandparents c,
    )

    -- After the exchange with its grandparent, the item may be out of order one step further up.
    pub traded-IsRising : IsRising (traded k i g) n g
    traded-IsRising = record {
      parents = rising_parents;
      grandparents = rising_grandparents;
      children = rising_children;
      grandchildren = rising_grandchildren;
    }

  -- Where the test fails, all is in order.
  pub settled-IsOrdered :
      (if is_min_level i then leb (k i) (k g) else leb (k g) (k i)) ≡ true → IsOrdered k n
  settled-IsOrdered fine = record {
    parents = s.parents;
    grandparents = λ c pos lt. elim (Bool-cases (c == i)) [
      | inl same ↦ ground (arith, level_alternates i, level_alternates (parent i))
      | inr other ↦ s.grandparents c pos lt (ground arith)
    ];
  }

pub shallow-IsOrdered : (k : ℕ → ℕ) (n i : ℕ) → IsRising k n i → i ≤ 2 → IsOrdered k n
shallow-IsOrdered k n i s h = record {
  parents = s.parents;
  grandparents = λ c pos lt. s.grandparents c pos lt (omega arith);
}

module _ (k : ℕ → ℕ) (n : ℕ) (s : IsOrdered k n) where
  -- Nothing ranks before the root. The induction is on a bound of the position.
  root_below : (f i : ℕ) → i < f → i < n → k 0 ≤ k i
  root_below zero i hf hn = absurd (omega arith)
  root_below (suc f) zero hf hn = omega arith
  root_below (suc f) (suc i) hf hn = ground (
    arith,
    root_level,
    level_alternates (suc i),
    level_alternates (parent (suc i)),
    s.parents (suc i),
    s.grandparents (suc i),
    root_below f (parent (suc i)),
    root_below f (parent (parent (suc i))),
  )

  pub root_first : (i : ℕ) → i < n → k 0 ≤ k i
  root_first i h = root_below (suc i) i (omega arith) h

  -- Nothing ranks behind both children of the root.
  tail_below : (f i : ℕ) → i < f → 0 < i → i < n → (k i ≤ k 1) ⊎ ((2 < n) × (k i ≤ k 2))
  tail_below zero i hf pos hn = absurd (omega arith)
  tail_below (suc f) i hf pos hn = ground (
    arith,
    root_level,
    level_alternates i,
    level_alternates (parent i),
    s.parents i,
    s.grandparents i,
    tail_below f (parent i),
    tail_below f (parent (parent i)),
  )

  pub tail_last : (i : ℕ) → 0 < i → i < n → (k i ≤ k 1) ⊎ ((2 < n) × (k i ≤ k 2))
  tail_last i pos h = tail_below (suc i) i (omega arith) pos h

-- An item is put at position `n`, below a heap that is in order.
module _ (k : ℕ → ℕ) (n : ℕ) (s : IsOrdered k n) (pos : 0 < n) where
  abbrev p : ℕ
  p = parent n

  pub appended-IsRising : Below k p n → IsRising k (suc n) n
  appended-IsRising fine = record {
    parents = λ c lo hi. ground (arith, s.parents c);
    grandparents = λ c lo hi ne. s.grandparents c lo (omega arith);
    children = λ c deep lo hi e. absurd (omega arith);
    grandchildren = λ c deep lo hi e. absurd (omega arith);
  }

  module _ (out : (if is_min_level p then leb (k n) (k p) else leb (k p) (k n)) ≡ false) where
    lifted_parents : (c : ℕ) → 0 < c → c < suc n → Below (traded k n p) (parent c) c
    lifted_parents c lo hi = ground (
      arith,
      level_alternates c,
      level_alternates p,
      level_alternates n,
      s.parents c,
      s.parents p,
    )

    lifted_grandparents :
        (c : ℕ) → 2 < c → c < suc n → c ≢ p → Below (traded k n p) (parent (parent c)) c
    lifted_grandparents c lo hi ne = ground (
      arith,
      level_alternates c,
      level_alternates (parent c),
      level_alternates p,
      level_alternates n,
      s.grandparents c,
      s.parents p,
    )

    lifted_children :
        (c : ℕ)
        → 2 < p
        → 0 < c
        → c < suc n
        → parent c ≡ p
        → Below (traded k n p) (parent (parent p)) c
    lifted_children c deep lo hi e = ground (
      arith,
      level_alternates p,
      level_alternates (parent p),
      level_alternates n,
      s.grandparents p,
      s.parents c,
    )

    pub lifted-IsRising : IsRising (traded k n p) (suc n) p
    lifted-IsRising = record {
      parents = lifted_parents;
      grandparents = lifted_grandparents;
      children = lifted_children;
      grandchildren = λ c deep lo hi e. absurd (omega arith);
    }
