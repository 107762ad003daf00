-- ===== src/Prelude/Outcome.antt =====
-- How a Go call ends: a value, a returned error, or a run-time panic. The model adds the case that
-- a loop ran out of its fuel, which the theorems exclude.
use mathlib.Core.Path.{◌≡◌, refl, ap, subst}
use mathlib.Core.Bool.{Bool, true, false}
use native.Mathlib.Omega.{arith}
use mathlib.Core.Option.{Option, none, some}
use llm_d_inference_schedule.Prelude.Tests.{if◌then◌else◌}

-- The errors that the flow-control contracts name, and those of the registry's configuration, which
-- the code tells apart by their messages.
pub data Error : Type 0 where
  invalid_queue_item_handle queue_item_not_found shard_draining : Error
  flow_id_empty priority_band_not_found flow_instance_not_found : Error
  policy_queue_incompatible no_queue_registered : Error
  no_policy_registered not_a_policy queue_empty negative_quantity : Error
  shard_count_not_positive flow_timeout_not_positive band_timeout_not_positive : Error
  band_timeout_too_short nil_band duplicate_priority nil_checker : Error
  ordering_policy_missing fairness_policy_missing queue_required : Error

pub data Run {ℓ} (A : Type ℓ) : Type ℓ where
  panic out_of_fuel : Run A
  err : Error → Run A
  ok : A → Run A

infixl 5 ◌>>=◌
abbrev pub ◌>>=◌ {ℓ μ} : {A : Type ℓ} {B : Type μ} → Run A → (A → Run B) → Run B
panic >>= rest = panic
out_of_fuel >>= rest = out_of_fuel
err error >>= rest = err error
ok value >>= rest = rest value

-- A nil dereference or an index out of range panics.
abbrev pub or_panic {ℓ} : {A : Type ℓ} → Option A → Run A
or_panic none = panic
or_panic (some a) = ok a

-- The call ends with a value, of which `P` holds.
pub data Yields {ℓ κ} {A : Type ℓ} (P : A → Type κ) : Run A → Type (ℓ ⊔ κ) where
  yields : {value : A} → P value → Yields P (ok value)

pub Yields-branch {ℓ κ} :
    {A : Type ℓ} {P : A → Type κ} {yes_run no_run : Run A} (test : Bool)
    → (test ≡ true → Yields P yes_run)
    → (test ≡ false → Yields P no_run)
    → Yields P (if test then yes_run else no_run)
Yields-branch false on_true on_false = on_false refl
Yields-branch true on_true on_false = on_true refl

pub Yields-weaken {ℓ κ μ} :
    {A : Type ℓ} {P : A → Type κ} {Q : A → Type μ} {call : Run A}
    → Yields P call
    → ((value : A) → P value → Q value)
    → Yields Q call
Yields-weaken (yields holds) widen = yields (widen _ holds)

pub Yields-then {ℓ κ μ ν} :
    {A : Type ℓ} {P : A → Type κ} {B : Type μ} {Q : B → Type ν} {call : Run A} {rest : A → Run B}
    → Yields P call
    → ((value : A) → P value → Yields Q (rest value))
    → Yields Q (call >>= rest)
Yields-then (yields holds) continue = continue _ holds

-- If the call ends with a value, then `P` holds of it.
abbrev pub IfOk {ℓ κ} : {A : Type ℓ} → (A → Type κ) → Run A → Type (ℓ ⊔ κ)
IfOk {A} P call = (value : A) → call ≡ ok value → P value

value_or {ℓ} : {A : Type ℓ} → A → Run A → A
value_or a (ok b) = b
value_or a _ = a

pub IfOk-ok {ℓ κ} : {A : Type ℓ} (P : A → Type κ) (value : A) → P value → IfOk P (ok value)
unfolding value_or
IfOk-ok P value holds a same = subst P (ap (value_or value) same) holds

pub IfOk-err {ℓ κ} : {A : Type ℓ} (P : A → Type κ) (e : Error) → IfOk P (err e)
IfOk-err P e a same = absurd (ground (arith, same))

pub IfOk-branch {ℓ κ} :
    {A : Type ℓ} (P : A → Type κ) (test : Bool) (yes_run no_run : Run A)
    → (test ≡ true → IfOk P yes_run)
    → (test ≡ false → IfOk P no_run)
    → IfOk P (if test then yes_run else no_run)
IfOk-branch P false yes_run no_run on_true on_false = on_false refl
IfOk-branch P true yes_run no_run on_true on_false = on_true refl

pub IfOk-then {ℓ κ μ ν} :
    {A : Type ℓ} (P : A → Type κ) {B : Type μ} (Q : B → Type ν) (call : Run A) {rest : A → Run B}
    → IfOk P call
    → ((value : A) → P value → IfOk Q (rest value))
    → IfOk Q (call >>= rest)
IfOk-then P Q panic holds continue b same = absurd (ground (arith, same))
IfOk-then P Q out_of_fuel holds continue b same = absurd (ground (arith, same))
IfOk-then P Q (err e) holds continue b same = absurd (ground (arith, same))
IfOk-then P Q (ok a) holds continue b same = continue a (holds a refl) b same

-- A call that yields `P` and ends with a value gives one of which `P` holds.
pub yielded {ℓ κ} :
    {A : Type ℓ} {P : A → Type κ} {call : Run A} {a : A} → Yields P call → call ≡ ok a → P a
yielded {P} y e = go (subst (Yields P) e y)
  where
    go : {a : _} → Yields P (ok a) → P a
    go (yields holds) = holds
