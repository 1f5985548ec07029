-- ===== src/Prelude/Bits.antt =====
-- Laws of `bit_xor` at every width: the lowest digit, cancellation, bounds, and a set top bit.
use Prim.Native.Nat.{
  ℕ, zero, suc, ◌+◌, ◌-◌, ◌*◌, ◌/◌, ◌%◌, ◌^◌, ◌≤◌, ◌<◌, bit_xor, bit_or, max, digits, differ,
  bit_xor-bitwise, bit_or-bitwise,
}
use mathlib.Core.Path.{◌≡◌, refl, ap, ◌∙◌, subst}
use native.Mathlib.Omega.{arith}
use native.Mathlib.Nat.{pow-suc}

-- The recursion of a bitwise operation on binary digits, with its fuel.
module _ (z : ℕ → ℕ) (f : ℕ → ℕ → ℕ) where
  one_more : (fuel a b : ℕ) → a ≤ fuel → digits z f (suc fuel) a b ≡ digits z f fuel a b
  one_more fuel zero b p = no_digits fuel b
    where
      no_digits : (fuel b : ℕ) → digits z f (suc fuel) 0 b ≡ digits z f fuel 0 b
      no_digits zero b = refl
      no_digits (suc fuel) b = refl
  one_more zero (suc a) b p = absurd (omega arith)
  one_more (suc fuel) (suc a) b p = rw (one_more fuel (suc a / 2) (b / 2) (omega arith))

  -- Fuel beyond the number itself changes nothing.
  surplus : (extra fuel a b : ℕ) → a ≤ fuel → digits z f (extra + fuel) a b ≡ digits z f fuel a b
  surplus zero fuel a b p = let e : 0 + fuel ≡ fuel = omega arith in rw e refl
  surplus (suc extra) fuel a b p =
      let e : suc extra + fuel ≡ suc (extra + fuel) = omega arith in
      rw e (one_more (extra + fuel) a b (omega arith) ∙ surplus extra fuel a b p)

  -- The fuel that is left after a digit is enough for the rest.
  enough : (a b : ℕ) → digits z f a (suc a / 2) (b / 2) ≡ digits z f (suc a / 2) (suc a / 2) (b / 2)
  enough a b =
      let half = suc a / 2 in
      subst (λ fuel. digits z f fuel half (b / 2) ≡ digits z f half half (b / 2)) (omega arith)
        (surplus (a - half) half half (b / 2) (omega arith))

differ_digits : (x y : ℕ) → x < 2 → y < 2 → differ x y ≡ (x + y) % 2
differ_digits zero y p q = omega arith
differ_digits (suc zero) zero p q = refl
differ_digits (suc zero) (suc zero) p q = refl
differ_digits (suc zero) (suc (suc y)) p q = absurd (omega arith)
differ_digits (suc (suc x)) y p q = absurd (omega arith)

raw_step : (a b : ℕ) → bit_xor a b ≡ bit_xor (a / 2) (b / 2) * 2 + differ (a % 2) (b % 2)
raw_step zero b = simp bit_xor-bitwise (omega arith)
raw_step (suc a) b = simp bit_xor-bitwise (omega (arith, enough (λ y. y) differ a b))

or_step : (a b : ℕ) → bit_or a b ≡ bit_or (a / 2) (b / 2) * 2 + max (a % 2) (b % 2)
or_step zero b = simp bit_or-bitwise (omega arith)
or_step (suc a) b = simp bit_or-bitwise (omega (arith, enough (λ y. y) max a b))

bit_or-zero : (n a : ℕ) → a ≤ n → bit_or a 0 ≡ a
bit_or-zero zero zero p = refl
bit_or-zero zero (suc a) p = absurd (omega arith)
bit_or-zero (suc n) a p = omega (arith, or_step a 0, bit_or-zero n (a / 2) (omega arith))

-- An or of numbers that share no digit is their sum.
pub bit_or_apart : (k hi lo : ℕ) → lo < 2 ^ k → bit_or (hi * 2 ^ k) lo ≡ hi * 2 ^ k + lo
bit_or_apart zero hi zero p = omega (arith, bit_or-zero (hi * 1) (hi * 1) (omega arith))
bit_or_apart zero hi (suc lo) p = absurd (omega arith)
bit_or_apart (suc k) hi lo p =
    let e = pow-suc 2 k in
    let d : hi * 2 ^ suc k ≡ 2 * (hi * 2 ^ k) = omega (arith, ap (λ (t : ℕ). hi * t) e) in
    let half : hi * 2 ^ suc k / 2 ≡ hi * 2 ^ k = omega (arith, d) in
    omega (
      arith,
      d,
      or_step (hi * 2 ^ suc k) lo,
      ap (λ t. bit_or t (lo / 2)) half,
      bit_or_apart k hi (lo / 2) (omega (arith, e)),
    )

-- The lowest digit of an exclusive or.
pub bit_xor_step : (a b : ℕ) → bit_xor a b ≡ bit_xor (a / 2) (b / 2) * 2 + (a + b) % 2
bit_xor_step a b =
    omega (arith, raw_step a b, differ_digits (a % 2) (b % 2) (omega arith) (omega arith))

xor_half : (a b : ℕ) → bit_xor a b / 2 ≡ bit_xor (a / 2) (b / 2)
xor_half a b = omega (arith, bit_xor_step a b)

xor_cancel_fuel : (n a b : ℕ) → a ≤ n → b ≤ n → bit_xor (bit_xor a b) b ≡ a
xor_cancel_fuel zero zero zero p q = refl
xor_cancel_fuel zero zero (suc b) p q = absurd (omega arith)
xor_cancel_fuel zero (suc a) b p q = absurd (omega arith)
xor_cancel_fuel (suc n) a b p q = omega (
  arith,
  bit_xor_step a b,
  bit_xor_step (bit_xor a b) b,
  ap (λ t. bit_xor t (b / 2)) (xor_half a b),
  xor_cancel_fuel n (a / 2) (b / 2) (omega arith) (omega arith),
)

-- The same mask twice gives the number back.
pub bit_xor_cancel : (a b : ℕ) → bit_xor (bit_xor a b) b ≡ a
bit_xor_cancel a b = xor_cancel_fuel (a + b) a b (omega arith) (omega arith)

pub bit_xor_comm : (a b : ℕ) → bit_xor a b ≡ bit_xor b a
bit_xor_comm a b = comm_fuel (a + b) a b (omega arith) (omega arith)
  where
    comm_fuel : (n a b : ℕ) → a ≤ n → b ≤ n → bit_xor a b ≡ bit_xor b a
    comm_fuel zero zero zero p q = refl
    comm_fuel zero zero (suc b) p q = absurd (omega arith)
    comm_fuel zero (suc a) b p q = absurd (omega arith)
    comm_fuel (suc n) a b p q = omega (
      arith,
      bit_xor_step a b,
      bit_xor_step b a,
      comm_fuel n (a / 2) (b / 2) (omega arith) (omega arith),
    )

pub bit_xor-lt_pow : (k a b : ℕ) → a < 2 ^ k → b < 2 ^ k → bit_xor a b < 2 ^ k
bit_xor-lt_pow zero zero zero p q = p
bit_xor-lt_pow zero zero (suc b) p q = absurd (omega arith)
bit_xor-lt_pow zero (suc a) b p q = absurd (omega arith)
bit_xor-lt_pow (suc k) a b p q =
    let e = pow-suc 2 k in
    omega (
      arith,
      e,
      bit_xor_step a b,
      bit_xor-lt_pow k (a / 2) (b / 2) (omega (arith, e)) (omega (arith, e)),
    )

-- A bit above both numbers comes through.
pub bit_xor-pow_add :
    (k a r : ℕ) → a < 2 ^ k → r < 2 ^ k → bit_xor a (2 ^ k + r) ≡ 2 ^ k + bit_xor a r
bit_xor-pow_add zero zero zero p q = refl
bit_xor-pow_add zero zero (suc r) p q = absurd (omega arith)
bit_xor-pow_add zero (suc a) r p q = absurd (omega arith)
bit_xor-pow_add (suc k) a r p q =
    let e = pow-suc 2 k in
    let halves : (2 ^ suc k + r) / 2 ≡ 2 ^ k + r / 2 = omega (arith, e) in
    omega (
      arith,
      e,
      bit_xor_step a (2 ^ suc k + r),
      ap (λ t. bit_xor (a / 2) t) halves,
      bit_xor_step a r,
      bit_xor-pow_add k (a / 2) (r / 2) (omega (arith, e)) (omega (arith, e)),
    )

pub bit_xor_self : (a : ℕ) → bit_xor a a ≡ 0
bit_xor_self a = self_fuel a a (omega arith)
  where
    self_fuel : (n a : ℕ) → a ≤ n → bit_xor a a ≡ 0
    self_fuel zero zero p = refl
    self_fuel zero (suc a) p = absurd (omega arith)
    self_fuel (suc n) a p = omega (arith, bit_xor_step a a, self_fuel n (a / 2) (omega arith))

pub bit_xor-zero : (a : ℕ) → bit_xor a 0 ≡ a
bit_xor-zero a = zero_fuel a a (omega arith)
  where
    zero_fuel : (n a : ℕ) → a ≤ n → bit_xor a 0 ≡ a
    zero_fuel zero zero p = refl
    zero_fuel zero (suc a) p = absurd (omega arith)
    zero_fuel (suc n) a p = omega (arith, bit_xor_step a 0, zero_fuel n (a / 2) (omega arith))

-- A mask of the low digits of a number clears them.
pub bit_xor_low : (k hi lo : ℕ) → lo < 2 ^ k → bit_xor (hi * 2 ^ k + lo) lo ≡ hi * 2 ^ k
bit_xor_low zero hi zero p = omega (arith, bit_xor-zero (hi * 1 + 0))
bit_xor_low zero hi (suc lo) p = absurd (omega arith)
bit_xor_low (suc k) hi lo p =
    let e = pow-suc 2 k in
    let d : hi * 2 ^ suc k ≡ 2 * (hi * 2 ^ k) = omega (arith, ap (λ (t : ℕ). hi * t) e) in
    let half : (hi * 2 ^ suc k + lo) / 2 ≡ hi * 2 ^ k + lo / 2 = omega (arith, d) in
    omega (
      arith,
      d,
      bit_xor_step (hi * 2 ^ suc k + lo) lo,
      ap (λ t. bit_xor t (lo / 2)) half,
      bit_xor_low k hi (lo / 2) (omega (arith, e)),
    )

-- The same with the low digits first.
pub bit_or_apart_low : (k hi lo : ℕ) → lo < 2 ^ k → bit_or lo (hi * 2 ^ k) ≡ lo + hi * 2 ^ k
bit_or_apart_low zero hi zero p = omega (arith, zero_or (hi * 1) (hi * 1) (omega arith))
  where
    zero_or : (n a : ℕ) → a ≤ n → bit_or 0 a ≡ a
    zero_or zero zero p = refl
    zero_or zero (suc a) p = absurd (omega arith)
    zero_or (suc n) a p = omega (arith, or_step 0 a, zero_or n (a / 2) (omega arith))
bit_or_apart_low zero hi (suc lo) p = absurd (omega arith)
bit_or_apart_low (suc k) hi lo p =
    let e = pow-suc 2 k in
    let d : hi * 2 ^ suc k ≡ 2 * (hi * 2 ^ k) = omega (arith, ap (λ (t : ℕ). hi * t) e) in
    let half : hi * 2 ^ suc k / 2 ≡ hi * 2 ^ k = omega (arith, d) in
    omega (
      arith,
      d,
      or_step lo (hi * 2 ^ suc k),
      ap (λ t. bit_or (lo / 2) t) half,
      bit_or_apart_low k hi (lo / 2) (omega (arith, e)),
    )
