-- ===== src/Prelude/IntMul.antt =====
-- Products of integers.
use Prim.Native.Nat.{◌*◌}
use mathlib.Core.Path.{◌≡◌, ap}
use native.Mathlib.Omega.{arith}
use tradingia.Prelude.Int.{
  ℤ, pos, negsuc, ◌≤ℤ◌, pos_part, neg_part, ◌-ℤ◌, ◌*ℤ◌, -ℤ_parts, *ℤ_parts, eq_of_parts,
}

pub sub_mul : (a b e : ℤ) → (a -ℤ b) *ℤ e ≡ a *ℤ e -ℤ b *ℤ e
sub_mul a b e =
    let hp = ap (λ n. n * pos_part e) (-ℤ_parts a b) in
    let hm = ap (λ n. n * neg_part e) (-ℤ_parts a b) in
    eq_of_parts _ _ (
      omega (
        arith,
        hp,
        hm,
        *ℤ_parts (a -ℤ b) e,
        *ℤ_parts a e,
        *ℤ_parts b e,
        -ℤ_parts (a *ℤ e) (b *ℤ e),
      ))

pub mul_nonneg : (a b : ℤ) → pos 0 ≤ℤ a → pos 0 ≤ℤ b → pos 0 ≤ℤ a *ℤ b
mul_nonneg (pos m) (pos n) h k = omega (arith, *ℤ_parts (pos m) (pos n))
mul_nonneg (pos m) (negsuc n) h k = absurd (omega (arith, k))
mul_nonneg (negsuc m) b h k = absurd (omega (arith, h))
