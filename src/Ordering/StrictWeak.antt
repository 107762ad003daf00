-- ===== src/Ordering/StrictWeak.antt =====
-- What the queues ask of a policy's Less: a strict weak order, which has no cycles and in which
-- "neither precedes the other" is transitive.
use llm_d_inference_schedule.Prelude.{◌≡◌, Bool, true, false, ◌⊎◌}

pub record IsStrictWeak {ℓ} {A : Type ℓ} (less : A → A → Bool) : Type ℓ where
  pub irreflexive : (a : A) → less a a ≡ false
  pub transitive : (a b c : A) → less a b ≡ true → less b c ≡ true → less a c ≡ true
  pub comparable : (a b c : A) → less a c ≡ true → (less a b ≡ true) ⊎ (less b c ≡ true)
