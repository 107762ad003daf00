-- ===== src/Queue/Bytes.antt =====
-- The total size of a sequence of items, as `byteSize` counts it.
use mathlib.Core.List.{Permᴰ}
use mathlib.Core.Logic.{∥∥₁_elim}
use native.Mathlib.Nat.{ℕ_set}
use llm_d_inference_schedule.Prelude.{
  ℕ, ◌+◌, ◌%◌, ◌^◌, ◌≡◌, ◌∙◌, refl, ap, List, [], ◌∷◌, ◌++◌, Perm, arith,
}
use llm_d_inference_schedule.Item.{Item, add_u64, sub_u64}

unfoldable pub total : List Item → ℕ
total [] = 0
total (x ∷ xs) = x.byte_size + total xs

total-permᴰ : {xs ys : List Item} → Permᴰ xs ys → total xs ≡ total ys
unfolding total
total-permᴰ Permᴰ.nil = refl
total-permᴰ (Permᴰ.cons e p) = omega (arith, ap (λ (y : Item). y.byte_size) e, total-permᴰ p)
total-permᴰ (Permᴰ.swap e e') =
    omega (arith, ap (λ (y : Item). y.byte_size) e, ap (λ (y : Item). y.byte_size) e')
total-permᴰ (Permᴰ.trans p q) = total-permᴰ p ∙ total-permᴰ q

pub total-perm : {xs ys : List Item} → Perm xs ys → total xs ≡ total ys
total-perm p = ∥∥₁_elim p (ℕ_set _ _) total-permᴰ

pub total-append : (xs ys : List Item) → total (xs ++ ys) ≡ total xs + total ys
unfolding total
total-append [] ys = omega arith
total-append (x ∷ xs) ys = omega (arith, total-append xs ys)

-- The counter that the code keeps, when it agrees with the items.
abbrev pub CountsBytes : ℕ → List Item → Type 0
CountsBytes n xs = n ≡ total xs % 2 ^ 64

pub add_u64-CountsBytes :
    (n : ℕ) (x : Item) (xs : List Item)
    → CountsBytes n xs
    → CountsBytes (add_u64 n x.byte_size) (x ∷ xs)
unfolding total
add_u64-CountsBytes n x xs h = omega arith

pub sub_u64-CountsBytes :
    (n : ℕ) (x : Item) (xs : List Item)
    → CountsBytes n (x ∷ xs)
    → CountsBytes (sub_u64 n x.byte_size) xs
unfolding total
sub_u64-CountsBytes n x xs h = omega arith
