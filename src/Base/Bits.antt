-- ===== src/Base/Bits.antt =====
-- Numbers as sums of bits: `low b n` is the number whose bit i is `b i`, for i below n.
use native.Mathlib.Nat.{pow-suc, mul-add-mod_self_right, mod-eq_of_lt, div-add-mod', mod-lt}
use Prim.Native.Nat.{ℕ, zero, suc, ◌+◌, ◌*◌, ◌/◌, ◌%◌, ◌^◌, ◌≤◌, ◌<◌}
use mathlib.Core.Path.{◌≡◌, refl, sym, ap, ◌∙◌}
use mathlib.Core.Bool.{Bool}
use native.Mathlib.Omega.{arith}
use myctk.Base.Tests.{◌==◌, if◌then◌else◌}

-- `(e >> i) & 1`
abbrev pub bit : ℕ → ℕ → Bool
bit e i = e / 2 ^ i % 2 == 1

pub low : (ℕ → Bool) → ℕ → ℕ
low b zero = 0
low b (suc i) = low b i + (if b i then 2 ^ i else 0)

pub low-zero : (b : ℕ → Bool) → low b 0 ≡ 0
unfolding low
low-zero b = refl

pub low-suc : (b : ℕ → Bool) (i : ℕ) → low b (suc i) ≡ low b i + (if b i then 2 ^ i else 0)
unfolding low
low-suc b i = refl

pub pow_two-suc : (i : ℕ) → 2 ^ suc i ≡ 2 ^ i + 2 ^ i
pow_two-suc i = omega (arith, pow-suc 2 i)

pub pow_two-pos : (i : ℕ) → 1 ≤ 2 ^ i
pow_two-pos zero = omega arith
pow_two-pos (suc i) = omega (arith, pow_two-suc i, pow_two-pos i)

pub low-lt : (b : ℕ → Bool) (i : ℕ) → low b i < 2 ^ i
unfolding low
low-lt b zero = omega arith
low-lt b (suc i) = ground (arith, low-lt b i, pow_two-suc i)

split_mod :
    (e p q b r : ℕ) → e ≡ q * (p + p) + (b * p + r) → r < p → b < 2 → e % (p + p) ≡ b * p + r
split_mod e p q zero r h hr hb =
    rw h (mul-add-mod_self_right q (p + p) _ ∙ mod-eq_of_lt (omega arith))
split_mod e p q (suc zero) r h hr hb =
    rw h (mul-add-mod_self_right q (p + p) _ ∙ mod-eq_of_lt (omega arith))
split_mod e p q (suc (suc b)) r h hr hb = absurd (omega arith)

split_parts : (e p : ℕ) → e ≡ e / p / 2 * (p + p) + (e / p % 2 * p + e % p)
split_parts e p =
    let halves : e / p ≡ e / p / 2 * 2 + e / p % 2 = omega arith in
    omega (arith, div-add-mod' e p, ap (λ (t : ℕ). t * p) halves)

bit_case : (b p r : ℕ) → b < 2 → b * p + r ≡ r + (if b == 1 then p else 0)
bit_case zero p r h = omega arith
bit_case (suc zero) p r h = omega arith
bit_case (suc (suc b)) p r h = absurd (omega arith)

pub low-bit : (e i : ℕ) → low (bit e) i ≡ e % 2 ^ i
unfolding low
low-bit e zero = omega arith
low-bit e (suc i) =
    let below = mod-lt e (pow_two-pos i) in
    let digit : e / 2 ^ i % 2 < 2 = omega arith in
    let cut =
      split_mod e (2 ^ i) (e / 2 ^ i / 2) (e / 2 ^ i % 2) (e % 2 ^ i) (split_parts e (2 ^ i)) below
        digit in
    rw (low-bit e i, pow_two-suc i, cut) (sym (bit_case (e / 2 ^ i % 2) (2 ^ i) (e % 2 ^ i) digit))

pub low_ext : (b c : ℕ → Bool) (n : ℕ) → ((j : ℕ) → j < n → b j ≡ c j) → low b n ≡ low c n
unfolding low
low_ext b c zero h = refl
low_ext b c (suc n) h = rw (low_ext b c n (λ j p. h j (omega arith)), h n (omega arith))
