-- ===== src/Queue/Contract.antt =====
-- pkg/epp/flowcontrol/contracts/queue.go: the operations of a queue, and what its users rely on.
use llm_d_inference_schedule.Prelude.{Bool, ◌≡◌, ◌⊎◌, List, [], ◌∷◌, ◌++◌, Perm}
use llm_d_inference_schedule.Prelude.Outcome.{Run, Error, err, Yields}
use llm_d_inference_schedule.Item.{Item, HandleArg}

pub record SafeQueue (Q : Type 0) : Type 0 where
  pub add : Q → Item → Run Q
  pub remove : Q → HandleArg → Run (Item × Q)
  pub cleanup : Q → (Item → Bool) → Run (List Item × Q)
  pub drain : Q → Run (List Item × Q)

-- A queue holds items; `IsValid` is its invariant, and `CanAdd` says which items it takes.
pub record SafeQueueLaw {Q : Type 0} (sq : SafeQueue Q) : Type 1 where
  pub contents : Q → List Item
  pub IsValid : Q → Type 0
  pub CanAdd : Q → Item → Type 0
  pub adds :
      (q : Q) (x : Item)
      → IsValid q
      → CanAdd q x
      → Yields (λ q'. IsValid q' × Perm (x ∷ contents q) (contents q')) (sq.add q x)
  pub removes :
      (q : Q) (handle : HandleArg)
      → IsValid q
      → ((e : Error) × (sq.remove q handle ≡ err e))
        ⊎ Yields
            (λ result. IsValid result.1 × Perm (result.0 ∷ contents result.1) (contents q))
            (sq.remove q handle)
  pub cleans :
      (q : Q) (predicate : Item → Bool)
      → IsValid q
      → Yields
          (λ result. IsValid result.1 × Perm (result.0 ++ contents result.1) (contents q))
          (sq.cleanup q predicate)
  pub drains :
      (q : Q)
      → IsValid q
      → Yields
          (λ result. IsValid result.1 × Perm result.0 (contents q) × (contents result.1 ≡ []))
          (sq.drain q)
