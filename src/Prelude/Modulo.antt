-- ===== src/Prelude/Modulo.antt =====
-- Remainders by the size of a ring, a power of two of at most 2^15, of counters that wrap at 2^16.
use Prim.Native.Nat.{ℕ, zero, suc, ◌+◌, ◌-◌, ◌*◌, ◌/◌, ◌%◌, ◌^◌, ◌≤◌, ◌<◌}
use mathlib.Core.Path.{◌≡◌, sym, ◌∙◌, ap}
use mathlib.Core.Logic.{◌≢◌}
use native.Mathlib.Omega.{arith}
use native.Mathlib.Nat.{
  pow-suc, mod-lt, mod-eq_of_lt, mod-add-mod, mod-eq-sub-mod, mul-add-mod_self_left, mul_assoc,
  mul_comm,
}
use native.Mathlib.Decide.{dec_lt}
use memif.Prelude.Bits.{pow-pos}

-- `k` more factors make the power of `l + k`.
pow_split : (l k : ℕ) → 2 ^ k * 2 ^ l ≡ 2 ^ (k + l)
pow_split l zero = let e : 0 + l ≡ l = omega arith in rw e (omega arith)
pow_split l (suc k) =
    let e : suc k + l ≡ suc (k + l) = omega arith in
    rw (e, pow-suc 2 k, pow-suc 2 (k + l)) (grind (arith, pow_split l k))

-- A power of at most 2^15 divides 2^16.
factor : (l : ℕ) → 2 ^ l ≤ 2 ^ 15 → (c : ℕ) × (2 ^ l * c ≡ 2 ^ 16)
factor l small = elim (dec_lt l 17) [
  | yes h ↦
      let e : 16 - l + l ≡ 16 = omega arith in
      (2 ^ (16 - l), mul_comm (2 ^ l) (2 ^ (16 - l)) ∙ pow_split l (16 - l) ∙ ap (λ n. 2 ^ n) e)
  | no h ↦
      let e : 16 + (l - 16) ≡ l = omega arith in
      absurd (omega (arith, pow_split (l - 16) 16, ap (λ n. 2 ^ n) e, pow-pos (l - 16)))
]

-- The wrap-around of a counter does not change the slot.
pub wrap_slot : (l s : ℕ) → 2 ^ l ≤ 2 ^ 15 → s % 2 ^ 16 % 2 ^ l ≡ s % 2 ^ l
wrap_slot l s small =
    let (c, e) = factor l small in
    let parts : s ≡ 2 ^ l * (c * (s / 2 ^ 16)) + s % 2 ^ 16 =
      omega (arith, mul_assoc (2 ^ l) c (s / 2 ^ 16), ap (λ n. n * (s / 2 ^ 16)) e) in
    sym (ap (λ n. n % 2 ^ l) parts ∙ mul-add-mod_self_left (2 ^ l) (c * (s / 2 ^ 16)) (s % 2 ^ 16))

-- Fewer than `size` steps further on there is another slot.
pub mod-ne : (size a k : ℕ) → 0 < k → k < size → (a + k) % size ≢ a % size
mod-ne size a k pos small same = elim (dec_lt (a % size + k) size) [
  | yes h ↦ omega (arith, mod-add-mod a size k, mod-eq_of_lt h)
  | no h ↦ omega (
    arith,
    mod-add-mod a size k,
    mod-lt a {m = size} (omega arith),
    mod-eq-sub-mod {n = a % size + k} {m = size} (omega arith),
    mod-eq_of_lt {n = a % size + k - size} {m = size}
        (omega (arith, mod-lt a {m = size} (omega arith))),
  )
]
