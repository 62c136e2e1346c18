-- ===== src/Prelude/Bits.antt =====
-- The law of `&` with a mask of ones, by induction on the fuel of the native operation's digits.
use Prim.Native.Nat.{
  ℕ, zero, suc, ◌+◌, ◌-◌, ◌*◌, ◌/◌, ◌%◌, ◌^◌, ◌≤◌, ◌<◌, min, bit_and, digits, bit_and-bitwise,
}
use mathlib.Core.Path.{◌≡◌, refl, sym, ◌∙◌, ap}
use native.Mathlib.Omega.{arith}
use native.Mathlib.Nat.{pow-suc, mod-lt, mod-eq_of_lt, div-add-mod, mul-add-mod_self_left}

pub pow-pos : (k : ℕ) → 0 < 2 ^ k
pow-pos zero = omega arith
pow-pos (suc k) = omega (arith, pow-pos k, pow-suc 2 k)

pub mod_unique : (a m q r : ℕ) → r < m → a ≡ m * q + r → a % m ≡ r
mod_unique a m q r h e = rw e (mul-add-mod_self_left m q r ∙ mod-eq_of_lt h)

mod_double : (a p : ℕ) → 0 < p → a % (p * 2) ≡ a / 2 % p * 2 + a % 2
mod_double a p h =
    mod_unique a (p * 2) (a / 2 / p) _ (omega (arith, mod-lt (a / 2) h))
      (omega (arith, div-add-mod (a / 2) p))

-- The digits of `a & 0`.
no_digits : (n a : ℕ) → a ≤ n → digits (λ b. zero) min n a 0 ≡ 0
no_digits zero a h = refl
no_digits (suc n) zero h = refl
no_digits (suc n) (suc a) h = omega (arith, no_digits n (suc a / 2) (omega arith))

-- Enough fuel takes the low digits of a number, as many as the mask has.
low_digits : (k n a : ℕ) → a ≤ n → digits (λ b. zero) min n a (2 ^ k - 1) ≡ a % 2 ^ k
low_digits zero n a h = omega (arith, no_digits n a h)
low_digits (suc k) zero a h =
    let small : a < 2 ^ suc k = omega (arith, pow-pos (suc k)) in omega (arith, mod-eq_of_lt small)
low_digits (suc k) (suc n) zero h = sym (mod-eq_of_lt (pow-pos (suc k)))
low_digits (suc k) (suc n) (suc a) h =
    let half : (2 ^ suc k - 1) / 2 ≡ 2 ^ k - 1 = omega (arith, pow-pos k, pow-suc 2 k) in
    omega (
      arith,
      ap (digits (λ b. zero) min n (suc a / 2)) half,
      low_digits k n (suc a / 2) (omega arith),
      mod_double (suc a) (2 ^ k) (pow-pos k),
      pow-pos k,
      pow-suc 2 k,
      ap (λ m. suc a % m) (pow-suc 2 k),
    )

-- `x & (2^k - 1)` is the remainder by `2^k`.
pub bit_and-mask : (k a : ℕ) → bit_and a (2 ^ k - 1) ≡ a % 2 ^ k
bit_and-mask k a = bit_and-bitwise a (2 ^ k - 1) ∙ low_digits k a a (omega arith)

pub bit_and-one : (a : ℕ) → bit_and a 1 ≡ a % 2
bit_and-one a = bit_and-mask 1 a
