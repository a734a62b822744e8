-- ===== src/Prelude/Pairing.antt =====
-- Pairs of numbers as numbers, along the diagonals.
use Prim.Native.Nat.{ℕ, zero, suc, ◌+◌}
use mathlib.Core.Path.{◌≡◌, refl}
use native.Mathlib.Omega.{arith}

triangle : ℕ → ℕ
triangle zero = 0
triangle (suc n) = triangle n + suc n

-- The number of a pair.
unfoldable pub pair : ℕ → ℕ → ℕ
unfolding triangle
pair x y = triangle (x + y) + x

-- The pair that follows, on this diagonal or the next.
abbrev next : ℕ × ℕ → ℕ × ℕ
next (x, zero) = (0, suc x)
next (x, suc y) = (suc x, y)

unfoldable pub unpair : ℕ → ℕ × ℕ
unpair zero = (0, 0)
unpair (suc z) = next (unpair z)

unpair_diagonal : (n x y : ℕ) → x + y ≡ n → unpair (triangle n + x) ≡ (x, y)
unfolding unpair triangle
unpair_diagonal zero x y h = ground (arith, h)
unpair_diagonal (suc n) zero y h =
    let e : triangle (suc n) + 0 ≡ suc (triangle n + n) = omega arith in
    ground (arith, h, e, unpair_diagonal n n 0 (omega arith))
unpair_diagonal (suc n) (suc x) y h =
    let e : triangle (suc n) + suc x ≡ suc (triangle (suc n) + x) = omega arith in
    ground (arith, h, e, unpair_diagonal (suc n) x (suc y) (omega (arith, h)))

pub unpair-pair : (x y : ℕ) → unpair (pair x y) ≡ (x, y)
unfolding pair
unpair-pair x y = unpair_diagonal (x + y) x y refl
