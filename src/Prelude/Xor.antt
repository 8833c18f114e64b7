-- ===== src/Prelude/Xor.antt =====
-- Laws of `bit_xor` at variables, from the digit recursion that it stands for.
use Prim.Native.Nat.{bit_xor, bit_xor-bitwise, digits, differ}
use native.Mathlib.Nat.{pow-suc}
use py2to3_example_project.Prelude.{
  ℕ, zero, suc, ◌+◌, ◌*◌, ◌/◌, ◌%◌, ◌^◌, ◌≤◌, ◌<◌, ◌≡◌, refl, ap, ◌∙◌, arith,
}

abbrev xor_digits : ℕ → ℕ → ℕ → ℕ
xor_digits n a b = digits (λ b. b) differ n a b

xor_digits_fuel : (n m a b : ℕ) → a ≤ n → a ≤ m → xor_digits n a b ≡ xor_digits m a b
xor_digits_fuel zero zero a b low high = refl
xor_digits_fuel (suc n) (suc m) zero b low high = refl
xor_digits_fuel zero (suc m) zero b low high = refl
xor_digits_fuel (suc n) zero zero b low high = refl
xor_digits_fuel zero (suc m) (suc a) b low high = absurd (omega arith)
xor_digits_fuel (suc n) zero (suc a) b low high = absurd (omega arith)
xor_digits_fuel (suc n) (suc m) (suc a) b low high =
    let half : suc a / 2 ≤ n = omega arith in
    rw (xor_digits_fuel n m (suc a / 2) (b / 2) half (omega arith))

zero-bit_xor : (b : ℕ) → bit_xor 0 b ≡ b
zero-bit_xor b = bit_xor-bitwise 0 b

differ_bits : (x y : ℕ) → x < 2 → y < 2 → differ x y ≡ (x + y) % 2
differ_bits zero zero p q = refl
differ_bits zero (suc zero) p q = refl
differ_bits zero (suc (suc y)) p q = absurd (omega arith)
differ_bits (suc zero) zero p q = refl
differ_bits (suc zero) (suc zero) p q = refl
differ_bits (suc zero) (suc (suc y)) p q = absurd (omega arith)
differ_bits (suc (suc x)) y p q = absurd (omega arith)

step_differ : (a b : ℕ) → bit_xor a b ≡ bit_xor (a / 2) (b / 2) * 2 + differ (a % 2) (b % 2)
step_differ zero b = omega (arith, zero-bit_xor b, zero-bit_xor (b / 2))
step_differ (suc a) b = omega (
  arith,
  bit_xor-bitwise (suc a) b,
  bit_xor-bitwise (suc a / 2) (b / 2),
  xor_digits_fuel a (suc a / 2) (suc a / 2) (b / 2) (omega arith) (omega arith),
)

-- The law for the lowest binary digit.
pub bit_xor_step : (a b : ℕ) → bit_xor a b ≡ bit_xor (a / 2) (b / 2) * 2 + (a % 2 + b % 2) % 2
bit_xor_step a b =
    omega (arith, step_differ a b, differ_bits (a % 2) (b % 2) (omega arith) (omega arith))

bit_xor-self_fuel : (n a : ℕ) → a ≤ n → bit_xor a a ≡ 0
bit_xor-self_fuel n zero h = refl
bit_xor-self_fuel zero (suc a) h = absurd (omega arith)
bit_xor-self_fuel (suc n) (suc a) h =
    omega (arith, bit_xor_step (suc a) (suc a), bit_xor-self_fuel n (suc a / 2) (omega arith))

pub bit_xor_self : (a : ℕ) → bit_xor a a ≡ 0
bit_xor_self a = bit_xor-self_fuel a a (omega arith)

bit_xor-zero_fuel : (n a : ℕ) → a ≤ n → bit_xor a 0 ≡ a
bit_xor-zero_fuel n zero h = refl
bit_xor-zero_fuel zero (suc a) h = absurd (omega arith)
bit_xor-zero_fuel (suc n) (suc a) h =
    omega (arith, bit_xor_step (suc a) 0, bit_xor-zero_fuel n (suc a / 2) (omega arith))

pub bit_xor-zero : (a : ℕ) → bit_xor a 0 ≡ a
bit_xor-zero a = bit_xor-zero_fuel a a (omega arith)

-- Numbers of `k` bits stay numbers of `k` bits.
pub bit_xor-lt : (k a b : ℕ) → a < 2 ^ k → b < 2 ^ k → bit_xor a b < 2 ^ k
bit_xor-lt zero zero zero p q = omega arith
bit_xor-lt zero zero (suc b) p q = absurd (omega arith)
bit_xor-lt zero (suc a) b p q = absurd (omega arith)
bit_xor-lt (suc k) a b p q = omega (
  arith,
  pow-suc 2 k,
  bit_xor_step a b,
  bit_xor-lt k (a / 2) (b / 2) (omega (arith, pow-suc 2 k)) (omega (arith, pow-suc 2 k)),
)

-- The low `k` bits cancel.
pub bit_xor-low : (k q r : ℕ) → r < 2 ^ k → bit_xor (q * 2 ^ k + r) r ≡ q * 2 ^ k
bit_xor-low zero q zero p = bit_xor-zero (q * 1 + 0) ∙ omega arith
bit_xor-low zero q (suc r) p = absurd (omega arith)
bit_xor-low (suc k) q r p = omega (
  arith,
  pow-suc 2 k,
  ap (λ (t : ℕ). q * t) (pow-suc 2 k),
  bit_xor_step (q * 2 ^ suc k + r) r,
  ap (λ (t : ℕ). bit_xor t (r / 2)) (halved q k r),
  bit_xor-low k q (r / 2) (omega (arith, pow-suc 2 k)),
)
  where
    halved : (q k r : ℕ) → (q * 2 ^ suc k + r) / 2 ≡ q * 2 ^ k + r / 2
    halved q k r = omega (arith, ap (λ (t : ℕ). q * t) (pow-suc 2 k))
