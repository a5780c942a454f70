-- ===== src/Base/Bits.antt =====
-- `&` with a mask of ones and `|` of numbers with disjoint digits, as arithmetic, at every width.
use Prim.Native.Nat.{
  ℕ, zero, suc, ◌+◌, ◌*◌, ◌/◌, ◌%◌, ◌^◌, ◌≤◌, ◌<◌, min, max, bit_and, bit_or, digits,
  bit_and-bitwise, bit_or-bitwise,
}
use mathlib.Core.Path.{◌≡◌, refl}
use native.Mathlib.Nat.{pow-suc}
use native.Mathlib.Omega.{arith}

-- The count of rounds that the digit recursion is given does not matter, once it is large enough.
module _ (z : ℕ → ℕ) (f : ℕ → ℕ → ℕ) where
  digits_rounds : (n m a b : ℕ) → a ≤ n → a ≤ m → digits z f n a b ≡ digits z f m a b
  digits_rounds zero zero a b p q = refl
  digits_rounds zero (suc m) zero b p q = refl
  digits_rounds zero (suc m) (suc a) b p q = absurd (omega arith)
  digits_rounds (suc n) zero zero b p q = refl
  digits_rounds (suc n) zero (suc a) b p q = absurd (omega arith)
  digits_rounds (suc n) (suc m) zero b p q = refl
  digits_rounds (suc n) (suc m) (suc a) b p q =
      omega (arith, digits_rounds n m (suc a / 2) (b / 2) (omega arith) (omega arith))

zero-bit_and : (b : ℕ) → bit_and 0 b ≡ 0
zero-bit_and b = bit_and-bitwise 0 b

zero-bit_or : (b : ℕ) → bit_or 0 b ≡ b
zero-bit_or b = bit_or-bitwise 0 b

bit_and_halves : (a b : ℕ) → bit_and a b ≡ bit_and (a / 2) (b / 2) * 2 + min (a % 2) (b % 2)
bit_and_halves zero b = omega (arith, zero-bit_and b, zero-bit_and (b / 2))
bit_and_halves (suc a) b = omega (
  arith,
  bit_and-bitwise (suc a) b,
  bit_and-bitwise (suc a / 2) (b / 2),
  digits_rounds (λ t. zero) min a (suc a / 2) (suc a / 2) (b / 2) (omega arith) (omega arith),
)

bit_or_halves : (a b : ℕ) → bit_or a b ≡ bit_or (a / 2) (b / 2) * 2 + max (a % 2) (b % 2)
bit_or_halves zero b = omega (arith, zero-bit_or b, zero-bit_or (b / 2))
bit_or_halves (suc a) b = omega (
  arith,
  bit_or-bitwise (suc a) b,
  bit_or-bitwise (suc a / 2) (b / 2),
  digits_rounds (λ t. t) max a (suc a / 2) (suc a / 2) (b / 2) (omega arith) (omega arith),
)

-- A mask is read from its lowest digit.
module _ (a m : ℕ) where
  bit_and-odd : bit_and a (m * 2 + 1) ≡ bit_and (a / 2) m * 2 + a % 2
  bit_and-odd =
      let half : (m * 2 + 1) / 2 ≡ m = omega arith in
      let low : (m * 2 + 1) % 2 ≡ 1 = omega arith in
      omega (arith, bit_and_halves a (m * 2 + 1), rw (half, low) at (bit_and_halves a (m * 2 + 1)))

  bit_and-even : bit_and a (m * 2) ≡ bit_and (a / 2) m * 2
  bit_and-even =
      let half : m * 2 / 2 ≡ m = omega arith in
      let low : m * 2 % 2 ≡ 0 = omega arith in
      omega (arith, rw (half, low) at (bit_and_halves a (m * 2)))

bit_and-zero_rounds : (n a : ℕ) → a ≤ n → bit_and a 0 ≡ 0
bit_and-zero_rounds n zero h = refl
bit_and-zero_rounds zero (suc a) h = absurd (omega arith)
bit_and-zero_rounds (suc n) (suc a) h =
    omega (arith, bit_and_halves (suc a) 0, bit_and-zero_rounds n (suc a / 2) (omega arith))

pub bit_and-one : (a : ℕ) → bit_and a 1 ≡ a % 2
bit_and-one a = omega (arith, bit_and-odd a 0, bit_and-zero_rounds (a / 2) (a / 2) (omega arith))

bit_and_seven : (a : ℕ) → bit_and a 7 ≡ a % 8
bit_and_seven a = omega (arith, bit_and-odd a 3, bit_and-odd (a / 2) 1, bit_and-one (a / 2 / 2))

pub bit_and_0x0f : (a : ℕ) → bit_and a 0x0f ≡ a % 16
bit_and_0x0f a = omega (arith, bit_and-odd a 7, bit_and_seven (a / 2))

pub bit_and_0x1f : (a : ℕ) → bit_and a 0x1f ≡ a % 32
bit_and_0x1f a = omega (arith, bit_and-odd a 15, bit_and_0x0f (a / 2))

-- Three and four digits at the top of a byte.
pub bit_and_0xe0 : (a : ℕ) → bit_and a 0xe0 ≡ a / 32 % 8 * 32
bit_and_0xe0 a = omega (
  arith,
  bit_and-even a 112,
  bit_and-even (a / 2) 56,
  bit_and-even (a / 2 / 2) 28,
  bit_and-even (a / 2 / 2 / 2) 14,
  bit_and-even (a / 2 / 2 / 2 / 2) 7,
  bit_and_seven (a / 2 / 2 / 2 / 2 / 2),
)

pub bit_and_0xf0 : (a : ℕ) → bit_and a 0xf0 ≡ a / 16 % 16 * 16
bit_and_0xf0 a = omega (
  arith,
  bit_and-even a 120,
  bit_and-even (a / 2) 60,
  bit_and-even (a / 2 / 2) 30,
  bit_and-even (a / 2 / 2 / 2) 15,
  bit_and_0x0f (a / 2 / 2 / 2 / 2),
)

pub bit_and_0xc0 : (a : ℕ) → bit_and a 0xc0 ≡ a / 64 % 4 * 64
bit_and_0xc0 a = omega (
  arith,
  bit_and-even a 96,
  bit_and-even (a / 2) 48,
  bit_and-even (a / 2 / 2) 24,
  bit_and-even (a / 2 / 2 / 2) 12,
  bit_and-even (a / 2 / 2 / 2 / 2) 6,
  bit_and-even (a / 2 / 2 / 2 / 2 / 2) 3,
  bit_and-odd (a / 2 / 2 / 2 / 2 / 2 / 2) 1,
  bit_and-one (a / 2 / 2 / 2 / 2 / 2 / 2 / 2),
)

pub bit_and_0x3f : (a : ℕ) → bit_and a 0x3f ≡ a % 64
bit_and_0x3f a = omega (
  arith,
  bit_and-odd a 31,
  bit_and-odd (a / 2) 15,
  bit_and-odd (a / 2 / 2) 7,
  bit_and_seven (a / 2 / 2 / 2),
)

pub bit_and_0x7f : (a : ℕ) → bit_and a 0x7f ≡ a % 128
bit_and_0x7f a = omega (arith, bit_and-odd a 63, bit_and_0x3f (a / 2))

pub bit_and_0xff : (a : ℕ) → bit_and a 0xff ≡ a % 256
bit_and_0xff a = omega (arith, bit_and-odd a 127, bit_and_0x7f (a / 2))

-- A single digit.
bit_and_eight : (a : ℕ) → bit_and a 8 ≡ a / 8 % 2 * 8
bit_and_eight a = omega (
  arith,
  bit_and-even a 4,
  bit_and-even (a / 2) 2,
  bit_and-even (a / 2 / 2) 1,
  bit_and-one (a / 2 / 2 / 2),
)

pub bit_and_0x40 : (a : ℕ) → bit_and a 0x40 ≡ a / 64 % 2 * 64
bit_and_0x40 a = omega (
  arith,
  bit_and-even a 32,
  bit_and-even (a / 2) 16,
  bit_and-even (a / 2 / 2) 8,
  bit_and_eight (a / 2 / 2 / 2),
)

pub bit_and_0x80 : (a : ℕ) → bit_and a 0x80 ≡ a / 128 % 2 * 128
bit_and_0x80 a = omega (arith, bit_and-even a 64, bit_and_0x40 (a / 2))

-- `|` adds numbers whose digits do not meet.
bit_or-double : (a t : ℕ) → bit_or (a / 2) t ≡ a / 2 + t → bit_or a (t * 2) ≡ a + t * 2
bit_or-double a t h =
    let half : t * 2 / 2 ≡ t = omega arith in
    let low : t * 2 % 2 ≡ 0 = omega arith in
    omega (arith, rw (half, low) at (bit_or_halves a (t * 2)))

double_pow : (b k : ℕ) → b * 2 ^ suc k ≡ b * 2 ^ k * 2
double_pow b k = rw (pow-suc) (omega arith)

pub bit_or_shifted : (k a b : ℕ) → a < 2 ^ k → bit_or a (b * 2 ^ k) ≡ a + b * 2 ^ k
bit_or_shifted zero zero b h = omega (arith, zero-bit_or (b * 2 ^ 0))
bit_or_shifted zero (suc a) b h = absurd (omega arith)
bit_or_shifted (suc k) a b h =
    rw (double_pow b k)
      (bit_or-double a (b * 2 ^ k) (bit_or_shifted k (a / 2) b (omega (arith, double_pow 1 k))))

bit_or-comm_rounds : (n a b : ℕ) → a + b ≤ n → bit_or a b ≡ bit_or b a
bit_or-comm_rounds zero zero b h = let e : b ≡ 0 = omega arith in rw e refl
bit_or-comm_rounds zero (suc a) b h = absurd (omega arith)
bit_or-comm_rounds (suc n) zero zero h = refl
bit_or-comm_rounds (suc n) zero (suc b) h = omega (
  arith,
  bit_or_halves 0 (suc b),
  bit_or_halves (suc b) 0,
  bit_or-comm_rounds n (0 / 2) (suc b / 2) (omega arith),
)
bit_or-comm_rounds (suc n) (suc a) b h = omega (
  arith,
  bit_or_halves (suc a) b,
  bit_or_halves b (suc a),
  bit_or-comm_rounds n (suc a / 2) (b / 2) (omega arith),
)

-- The higher digits first.
pub shifted_bit_or : (k a b : ℕ) → a < 2 ^ k → bit_or (b * 2 ^ k) a ≡ b * 2 ^ k + a
shifted_bit_or k a b h =
    omega (
      arith,
      bit_or-comm_rounds (b * 2 ^ k + a) (b * 2 ^ k) a (omega arith),
      bit_or_shifted k a b h,
    )
