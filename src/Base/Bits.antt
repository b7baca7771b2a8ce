-- ===== src/Base/Bits.antt =====
-- `|` of disjoint fields as a sum, from the digit recursion of the native operation.
use Prim.Native.Nat.{max, digits, bit_and, bit_or-bitwise, bit_and-bitwise}
use native.Mathlib.Nat.{le_refl, pow-suc}
use mathlib.Core.Path.{◌≡◌, refl, ap, sym, ◌∙◌}
use native.Mathlib.Omega.{arith}
use Prim.Native.Nat.{ℕ, zero, suc, ◌+◌, ◌-◌, ◌*◌, ◌/◌, ◌%◌, ◌^◌, ◌≤◌, ◌<◌, bit_or}

-- `|` as the recursion on binary digits that the native operation stands for.
abbrev or_digits : (fuel x y : ℕ) → ℕ
or_digits fuel x y = digits (λ t. t) max fuel x y

or_digits_none : (fuel y : ℕ) → or_digits fuel 0 y ≡ y
or_digits_none zero y = refl
or_digits_none (suc fuel) y = refl

-- Fuel beyond the first number changes nothing.
or_digits_spare :
    (fuel spare x y : ℕ) → x ≤ fuel → or_digits (fuel + spare) x y ≡ or_digits fuel x y
or_digits_spare fuel spare zero y h = or_digits_none (fuel + spare) y ∙ sym (or_digits_none fuel y)
or_digits_spare zero spare (suc x) y h = absurd (omega arith)
or_digits_spare (suc fuel) spare (suc x) y h =
    let e : suc fuel + spare ≡ suc (fuel + spare) = omega arith in
    rw (e, or_digits_spare fuel spare (suc x / 2) (y / 2) (omega arith)) refl

or_digits_half : (x y : ℕ) → or_digits x (suc x / 2) y ≡ or_digits (suc x / 2) (suc x / 2) y
or_digits_half x y =
    let half : ℕ = suc x / 2 in
    let e : x ≡ half + (x - half) = omega arith in
    ap (λ (n : ℕ). or_digits n half y) e ∙ or_digits_spare half (x - half) half y (le_refl half)

-- The lowest digit of `|`, and the rest.
pub bit_or_step : (x y : ℕ) → bit_or x y ≡ bit_or (x / 2) (y / 2) * 2 + max (x % 2) (y % 2)
bit_or_step zero y = simp bit_or-bitwise (omega arith)
bit_or_step (suc x) y = simp bit_or-bitwise (omega (arith, or_digits_half x (y / 2)))

pub zero-bit_or : (b : ℕ) → bit_or 0 b ≡ b
zero-bit_or b = simp bit_or-bitwise

twice_shifted : (high k : ℕ) → high * 2 ^ suc k ≡ 2 * (high * 2 ^ k)
twice_shifted high k = let p = pow-suc 2 k in omega (arith, ap (λ (t : ℕ). high * t) p)

-- `low | (high << k)` is a sum when `low` fits `k` bits.
pub bit_or_fields : (k high low : ℕ) → low < 2 ^ k → bit_or low (high * 2 ^ k) ≡ low + high * 2 ^ k
bit_or_fields zero high low h =
    let none_low : low ≡ 0 = omega arith in rw none_low (omega (arith, zero-bit_or (high * 2 ^ 0)))
bit_or_fields (suc k) high low h =
    let p = pow-suc 2 k in
    let t = twice_shifted high k in
    let s = bit_or_step low (high * 2 ^ suc k) in
    let ih = bit_or_fields k high (low / 2) (omega arith) in ground arith

or-zero_fuel : (n a : ℕ) → a ≤ n → bit_or a 0 ≡ a
or-zero_fuel n zero h = refl
or-zero_fuel zero (suc a) h = absurd (omega arith)
or-zero_fuel (suc n) (suc a) h =
    omega (arith, bit_or_step (suc a) 0, or-zero_fuel n (suc a / 2) (omega arith))

pub bit_or-zero : (a : ℕ) → bit_or a 0 ≡ a
bit_or-zero a = or-zero_fuel a a (le_refl a)

-- The same with the higher field first.
pub bit_or_fields_high :
    (k high low : ℕ) → low < 2 ^ k → bit_or (high * 2 ^ k) low ≡ high * 2 ^ k + low
bit_or_fields_high zero high low h =
    let none_low : low ≡ 0 = omega arith in rw none_low (omega (arith, bit_or-zero (high * 2 ^ 0)))
bit_or_fields_high (suc k) high low h =
    let p = pow-suc 2 k in
    let t = twice_shifted high k in
    let s = bit_or_step (high * 2 ^ suc k) low in
    let ih = bit_or_fields_high k high (low / 2) (omega arith) in ground arith

-- `&` with an even number is even.
pub bit_and-even : (a b : ℕ) → b % 2 ≡ 0 → bit_and a b % 2 ≡ 0
bit_and-even zero b h = simp bit_and-bitwise
bit_and-even (suc a) b h = simp bit_and-bitwise (ground arith)
