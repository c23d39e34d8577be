-- ===== src/Prelude/Bits.antt =====
-- The binary digits of the native numbers: what `&` and `|` do to each digit, and `&` with a mask of
-- low ones as a remainder. `digit x k` is bit k of x.
use Prim.Native.Nat.{
  ℕ, zero, suc, ◌+◌, ◌*◌, ◌/◌, ◌%◌, ◌^◌, ◌≤◌, ◌<◌, min, max, bit_and, bit_or, digits,
  bit_and-bitwise, bit_or-bitwise,
}
use mathlib.Core.Path.{◌≡◌, refl, sym, ap, ap₂, ◌∙◌}
use native.Mathlib.Nat.{
  pow-suc, one-le-pow, div-div-eq-div-mul, div-add-mod, mul-add-mod_self_left, mod-eq_of_lt,
}
use native.Mathlib.Omega.{arith}

-- A digit-by-digit operation needs only as many rounds as its first operand has digits.
rounds_enough :
    (z : ℕ → ℕ) (f : ℕ → ℕ → ℕ) (n m a b : ℕ) → a ≤ n → a ≤ m → digits z f n a b ≡ digits z f m a b
rounds_enough z f zero zero a b p q = refl
rounds_enough z f zero (suc m) zero b p q = refl
rounds_enough z f zero (suc m) (suc a) b p q = absurd (omega arith)
rounds_enough z f (suc n) zero zero b p q = refl
rounds_enough z f (suc n) zero (suc a) b p q = absurd (omega arith)
rounds_enough z f (suc n) (suc m) zero b p q = refl
rounds_enough z f (suc n) (suc m) (suc a) b p q =
    ap (λ (t : ℕ). t * 2 + f (suc a % 2) (b % 2))
      (rounds_enough z f n m (suc a / 2) (b / 2) (omega arith) (omega arith))

pub bit_and-halves : (a b : ℕ) → bit_and a b ≡ bit_and (a / 2) (b / 2) * 2 + min (a % 2) (b % 2)
bit_and-halves zero b = omega (arith, bit_and-bitwise 0 b, bit_and-bitwise 0 (b / 2))
bit_and-halves (suc a) b = omega (
  arith,
  bit_and-bitwise (suc a) b,
  bit_and-bitwise (suc a / 2) (b / 2),
  rounds_enough (λ _. 0) min a (suc a / 2) (suc a / 2) (b / 2) (omega arith) (omega arith),
)

pub bit_or-halves : (a b : ℕ) → bit_or a b ≡ bit_or (a / 2) (b / 2) * 2 + max (a % 2) (b % 2)
bit_or-halves zero b = omega (arith, bit_or-bitwise 0 b, bit_or-bitwise 0 (b / 2))
bit_or-halves (suc a) b = omega (
  arith,
  bit_or-bitwise (suc a) b,
  bit_or-bitwise (suc a / 2) (b / 2),
  rounds_enough (λ c. c) max a (suc a / 2) (suc a / 2) (b / 2) (omega arith) (omega arith),
)

-- Bit k.
abbrev pub digit : ℕ → ℕ → ℕ
digit x zero = x % 2
digit x (suc k) = digit (x / 2) k

pub digit-le : (x k : ℕ) → digit x k ≤ 1
digit-le x zero = omega arith
digit-le x (suc k) = digit-le (x / 2) k

-- `&` and `|` act on each digit by itself.
pub digit-bit_and : (k a b : ℕ) → digit (bit_and a b) k ≡ min (digit a k) (digit b k)
digit-bit_and zero a b = omega (arith, bit_and-halves a b)
digit-bit_and (suc k) a b =
    ap (λ (t : ℕ). digit t k) {x = bit_and a b / 2} {y = bit_and (a / 2) (b / 2)}
      (omega (arith, bit_and-halves a b))
    ∙ digit-bit_and k (a / 2) (b / 2)

pub digit-bit_or : (k a b : ℕ) → digit (bit_or a b) k ≡ max (digit a k) (digit b k)
digit-bit_or zero a b = omega (arith, bit_or-halves a b)
digit-bit_or (suc k) a b =
    ap (λ (t : ℕ). digit t k) {x = bit_or a b / 2} {y = bit_or (a / 2) (b / 2)}
      (omega (arith, bit_or-halves a b))
    ∙ digit-bit_or k (a / 2) (b / 2)

-- Numbers of the same digits below 2 ^ w are equal.
pub digits_ext :
    (w a b : ℕ) → a < 2 ^ w → b < 2 ^ w → ((k : ℕ) → k < w → digit a k ≡ digit b k) → a ≡ b
digits_ext zero a b p q h = omega arith
digits_ext (suc w) a b p q h = omega (
  arith,
  h 0 (omega arith),
  digits_ext w (a / 2) (b / 2) (omega (arith, pow-suc 2 w)) (omega (arith, pow-suc 2 w))
      (λ k lt. h (suc k) (omega arith)),
)

-- The mask of k ones.
abbrev pub ones : ℕ → ℕ
ones zero = 0
ones (suc k) = suc (ones k * 2)

pub bit_and-zero : (a : ℕ) → bit_and a 0 ≡ 0
bit_and-zero a = go a a (omega arith)
  where
    go : (n a : ℕ) → a ≤ n → bit_and a 0 ≡ 0
    go n zero p = omega (arith, bit_and-bitwise 0 0)
    go zero (suc a) p = absurd (omega arith)
    go (suc n) (suc a) p = omega (arith, bit_and-halves (suc a) 0, go n (suc a / 2) (omega arith))

-- One more low one in the mask keeps one more digit.
bit_and-odd_mask : (a o : ℕ) → bit_and a (suc (o * 2)) ≡ bit_and (a / 2) o * 2 + a % 2
bit_and-odd_mask a o =
    let half : suc (o * 2) / 2 ≡ o = omega arith in
    let low : suc (o * 2) % 2 ≡ 1 = omega arith in
    bit_and-halves a (suc (o * 2))
    ∙ ap₂ (λ (s t : ℕ). bit_and (a / 2) s * 2 + min (a % 2) t) half low
    ∙ omega arith

mod-double : (x m : ℕ) → x % (m * 2) ≡ x / 2 % m * 2 + x % 2
mod-double x zero = omega arith
mod-double x (suc m) =
    ap (λ (t : ℕ). t % (suc m * 2)) {x = x}
      {y = suc m * 2 * (x / 2 / suc m) + (x / 2 % suc m * 2 + x % 2)}
      (omega (arith, div-add-mod (x / 2) (suc m)))
    ∙ mul-add-mod_self_left (suc m * 2) (x / 2 / suc m) (x / 2 % suc m * 2 + x % 2)
    ∙ mod-eq_of_lt (omega arith)

-- `&` with k low ones is the remainder by 2 ^ k.
pub bit_and-ones : (k a : ℕ) → bit_and a (ones k) ≡ a % 2 ^ k
bit_and-ones zero a = omega (arith, bit_and-zero a)
bit_and-ones (suc k) a =
    bit_and-odd_mask a (ones k)
    ∙ ap (λ (t : ℕ). t * 2 + a % 2) (bit_and-ones k (a / 2))
    ∙ sym (mod-double a (2 ^ k))
    ∙ ap (λ (t : ℕ). a % t) (sym (pow-suc 2 k))

pub bit_or-zero : (a : ℕ) → bit_or a 0 ≡ a
bit_or-zero a = go a a (omega arith)
  where
    go : (n a : ℕ) → a ≤ n → bit_or a 0 ≡ a
    go n zero p = omega (arith, bit_or-bitwise 0 0)
    go zero (suc a) p = absurd (omega arith)
    go (suc n) (suc a) p = omega (arith, bit_or-halves (suc a) 0, go n (suc a / 2) (omega arith))

pub zero-bit_or : (a : ℕ) → bit_or 0 a ≡ a
zero-bit_or a = bit_or-bitwise 0 a

mul-two-pow : (q k : ℕ) → q * 2 ^ suc k ≡ q * 2 ^ k * 2
mul-two-pow q k = omega (arith, ap (λ (t : ℕ). q * t) (pow-suc 2 k))

-- `|` acts on the digits from k on and on those below k separately.
pub bit_or-split :
    (k q r s t : ℕ)
    → r < 2 ^ k
    → t < 2 ^ k
    → bit_or (q * 2 ^ k + r) (s * 2 ^ k + t) ≡ bit_or q s * 2 ^ k + bit_or r t
bit_or-split zero q zero s zero hr ht =
    let left : q * 2 ^ 0 + 0 ≡ q = omega arith in
    let right : s * 2 ^ 0 + 0 ≡ s = omega arith in
    ap₂ bit_or left right ∙ omega (arith, zero-bit_or 0)
bit_or-split zero q zero s (suc t) hr ht = absurd (omega arith)
bit_or-split zero q (suc r) s t hr ht = absurd (omega arith)
bit_or-split (suc k) q r s t hr ht =
    let left : (q * 2 ^ suc k + r) / 2 ≡ q * 2 ^ k + r / 2 = omega (arith, mul-two-pow q k) in
    let right : (s * 2 ^ suc k + t) / 2 ≡ s * 2 ^ k + t / 2 = omega (arith, mul-two-pow s k) in
    omega (
      arith,
      bit_or-halves (q * 2 ^ suc k + r) (s * 2 ^ suc k + t),
      ap₂ bit_or left right,
      bit_or-split k q (r / 2) s (t / 2) (omega (arith, pow-suc 2 k)) (omega (arith, pow-suc 2 k)),
      bit_or-halves r t,
      mul-two-pow q k,
      mul-two-pow s k,
      mul-two-pow (bit_or q s) k,
    )

-- `&` with w ones from digit k on keeps that field.
pub bit_and-field : (k w a : ℕ) → bit_and a (ones w * 2 ^ k) ≡ a / 2 ^ k % 2 ^ w * 2 ^ k
bit_and-field zero w a =
    ap (bit_and a) {x = ones w * 2 ^ 0} {y = ones w} (omega arith)
    ∙ bit_and-ones w a
    ∙ ap (λ (t : ℕ). t % 2 ^ w) {x = a} {y = a / 2 ^ 0} (omega arith)
    ∙ omega arith
bit_and-field (suc k) w a =
    let mask : ones w * 2 ^ suc k / 2 ≡ ones w * 2 ^ k = omega (arith, mul-two-pow (ones w) k) in
    omega (
      arith,
      bit_and-halves a (ones w * 2 ^ suc k),
      ap (bit_and (a / 2)) mask,
      bit_and-field k w (a / 2),
      ap (λ (t : ℕ). t % 2 ^ w * 2 ^ k) (div-div-eq-div-mul a 2 (2 ^ k)),
      ap (λ (t : ℕ). a / t % 2 ^ w * 2 ^ k) {x = 2 ^ suc k} {y = 2 * 2 ^ k}
          (omega (arith, pow-suc 2 k)),
      mul-two-pow (ones w) k,
      mul-two-pow (a / 2 ^ suc k % 2 ^ w) k,
    )

-- `|` of a number with a field that stands above it, below it, or in its middle.
pub bit_or-above : (k r s : ℕ) → r < 2 ^ k → bit_or r (s * 2 ^ k) ≡ s * 2 ^ k + r
bit_or-above k r s h =
    let left : r ≡ 0 * 2 ^ k + r = omega arith in
    let right : s * 2 ^ k ≡ s * 2 ^ k + 0 = omega arith in
    ap₂ bit_or left right
    ∙ bit_or-split k 0 r s 0 h (omega (arith, one-le-pow k 2))
    ∙ omega (arith, ap (λ (t : ℕ). t * 2 ^ k) (zero-bit_or s), bit_or-zero r)

pub bit_or-below : (k q t : ℕ) → t < 2 ^ k → bit_or (q * 2 ^ k) t ≡ q * 2 ^ k + t
bit_or-below k q t h =
    let left : q * 2 ^ k ≡ q * 2 ^ k + 0 = omega arith in
    let right : t ≡ 0 * 2 ^ k + t = omega arith in
    ap₂ bit_or left right
    ∙ bit_or-split k q 0 0 t (omega (arith, one-le-pow k 2)) h
    ∙ omega (arith, ap (λ (x : ℕ). x * 2 ^ k) (bit_or-zero q), zero-bit_or t)

pub bit_or-amid :
    (k q r s : ℕ) → r < 2 ^ k → bit_or (q * 2 ^ k + r) (s * 2 ^ k) ≡ bit_or q s * 2 ^ k + r
bit_or-amid k q r s h =
    let right : s * 2 ^ k ≡ s * 2 ^ k + 0 = omega arith in
    ap (bit_or (q * 2 ^ k + r)) right
    ∙ bit_or-split k q r s 0 h (omega (arith, one-le-pow k 2))
    ∙ omega (arith, bit_or-zero r)
