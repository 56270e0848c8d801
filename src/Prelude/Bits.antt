-- ===== src/Prelude/Bits.antt =====
-- `&`, `|` and `~` on words, with their laws at variables. A word of `w` bits is a number below
-- 2 ^ w, and its complement is taken within that width.
use Prim.Native.Nat.{digits, bitwise, bit_and-bitwise, bit_or-bitwise}
use native.Mathlib.Nat.{mod-eq_of_lt, le_refl, pow-suc, one-le-pow}
use primemover.Prelude.{
  ℕ, zero, suc, ◌+◌, ◌-◌, ◌*◌, ◌/◌, ◌%◌, ◌^◌, ◌≤◌, ◌<◌, min, max, bit_and, bit_or, ◌≡◌, refl, ap,
  arith,
}

-- The digits of two numbers, combined from the lowest up: fuel beyond the first number changes
-- nothing, whatever `top` does with the digits of the second number that are left over.
module _ (top : ℕ → ℕ) (digit : ℕ → ℕ → ℕ) where
  one_round_more : (n a b : ℕ) → a ≤ n → digits top digit (suc n) a b ≡ digits top digit n a b
  one_round_more zero zero b h = refl
  one_round_more zero (suc a) b h = absurd (omega arith)
  one_round_more (suc n) zero b h = refl
  one_round_more (suc n) (suc a) b h =
      ap (λ (t : ℕ). t * 2 + digit (suc a % 2) (b % 2))
        (one_round_more n (suc a / 2) (b / 2) (omega arith))

  spare_fuel : (k n a b : ℕ) → a ≤ n → digits top digit (n + k) a b ≡ digits top digit n a b
  spare_fuel zero n a b h = ap (λ (t : ℕ). digits top digit t a b) (omega arith)
  spare_fuel (suc k) n a b h = omega (
    arith,
    one_round_more (n + k) a b (omega arith),
    ap (λ (t : ℕ). digits top digit t a b) fuel,
    spare_fuel k n a b h,
  )
    where
      fuel : n + suc k ≡ suc (n + k)
      fuel = omega arith

  lowest_digit :
      (a b : ℕ)
      → 0 < a
      → bitwise top digit a b ≡ digit (a % 2) (b % 2) + 2 * bitwise top digit (a / 2) (b / 2)
  lowest_digit zero b h = absurd (omega arith)
  lowest_digit (suc a) b h = omega (
    arith,
    spare_fuel (a - suc a / 2) (suc a / 2) (suc a / 2) (b / 2) (le_refl (suc a / 2)),
    ap (λ (t : ℕ). digits top digit t (suc a / 2) (b / 2)) fuel,
  )
    where
      fuel : suc a / 2 + (a - suc a / 2) ≡ a
      fuel = omega arith

-- `a | b` digit by digit
pub bit_or_step : (a b : ℕ) → bit_or a b ≡ max (a % 2) (b % 2) + 2 * bit_or (a / 2) (b / 2)
bit_or_step zero b = omega (arith, bit_or-bitwise 0 b, bit_or-bitwise 0 (b / 2))
bit_or_step (suc a) b = omega (
  arith,
  bit_or-bitwise (suc a) b,
  bit_or-bitwise (suc a / 2) (b / 2),
  lowest_digit (λ y. y) max (suc a) b (omega arith),
)

-- `a & b` digit by digit
pub bit_and_step : (a b : ℕ) → bit_and a b ≡ min (a % 2) (b % 2) + 2 * bit_and (a / 2) (b / 2)
bit_and_step zero b = omega (arith, bit_and-bitwise 0 b, bit_and-bitwise 0 (b / 2))
bit_and_step (suc a) b = omega (
  arith,
  bit_and-bitwise (suc a) b,
  bit_and-bitwise (suc a / 2) (b / 2),
  lowest_digit (λ y. 0) min (suc a) b (omega arith),
)

pub zero-bit_and : (b : ℕ) → bit_and 0 b ≡ 0
zero-bit_and b = bit_and-bitwise 0 b

pub zero-bit_or : (b : ℕ) → bit_or 0 b ≡ b
zero-bit_or b = bit_or-bitwise 0 b

-- `a | b` and `a & b` share out the bits of `a` and `b`.
or_add_and_below : (n a b : ℕ) → a ≤ n → bit_or a b + bit_and a b ≡ a + b
or_add_and_below n zero b h = omega (arith, zero-bit_or b, zero-bit_and b)
or_add_and_below zero (suc a) b h = absurd (omega arith)
or_add_and_below (suc n) (suc a) b h = omega (
  arith,
  bit_or_step (suc a) b,
  bit_and_step (suc a) b,
  or_add_and_below n (suc a / 2) (b / 2) (omega arith),
)

pub or_add_and : (a b : ℕ) → bit_or a b + bit_and a b ≡ a + b
or_add_and a b = or_add_and_below a a b (le_refl a)

le-bit_or_below : (bound a b : ℕ) → a ≤ bound → (a ≤ bit_or a b) × (b ≤ bit_or a b)
le-bit_or_below bound zero b h = (omega arith, omega (arith, zero-bit_or b))
le-bit_or_below zero (suc a) b h = absurd (omega arith)
le-bit_or_below (suc bound) (suc a) b h =
    let (left, right) = le-bit_or_below bound (suc a / 2) (b / 2) (omega arith) in
    (omega (arith, bit_or_step (suc a) b), omega (arith, bit_or_step (suc a) b))

-- No bit is lost in `a | b`.
pub le-bit_or : (a b : ℕ) → (a ≤ bit_or a b) × (b ≤ bit_or a b)
le-bit_or a b = le-bit_or_below a a b (le_refl a)

-- `n` ones with `p` zeros below them
unfoldable pub mask1 : ℕ → ℕ → ℕ
mask1 n p = (2 ^ n - 1) * 2 ^ p

pub scale-pow-suc : (k q : ℕ) → q * 2 ^ k * 2 ≡ q * 2 ^ suc k
scale-pow-suc k q = omega (ap (λ (t : ℕ). q * t) (pow-suc 2 k), arith)

bit_and-zero_below : (bound a : ℕ) → a ≤ bound → bit_and a 0 ≡ 0
bit_and-zero_below bound zero h = zero-bit_and 0
bit_and-zero_below zero (suc a) h = absurd (omega arith)
bit_and-zero_below (suc bound) (suc a) h =
    omega (bit_and-zero_below bound (suc a / 2) (omega arith), bit_and_step (suc a) 0, arith)

bit_and-zero : (a : ℕ) → bit_and a 0 ≡ 0
bit_and-zero a = bit_and-zero_below a a (le_refl a)

bit_and_low : (n h m : ℕ) → m < 2 ^ n → bit_and (h * 2 ^ n + m) (2 ^ n - 1) ≡ m
bit_and_low zero h m fits = rw bit_and-zero (omega arith)
bit_and_low (suc n) h m fits = ground (
  arith,
  bit_and_step (h * 2 ^ suc n + m) (2 ^ suc n - 1),
  scale-pow-suc n h,
  pow-suc 2 n,
  one-le-pow n 2,
  bit_and_low n h (m / 2) (omega arith),
)

-- A mask of `n` ones over `p` zeros picks out the field of `n` bits above the lowest `p`.
pub bit_and_field :
    (p n h m l : ℕ)
    → m < 2 ^ n
    → l < 2 ^ p
    → bit_and ((h * 2 ^ n + m) * 2 ^ p + l) (mask1 n p) ≡ m * 2 ^ p
unfolding mask1
bit_and_field zero n h m l hm hl =
    ground (arith, bit_and_low n h m hm, ap (λ (t : ℕ). bit_and t (2 ^ n - 1)) shift)
  where
    shift : (h * 2 ^ n + m) * 2 ^ zero + l ≡ h * 2 ^ n + m
    shift = omega arith
bit_and_field (suc p) n h m l hm hl = ground (
  arith,
  bit_and_step ((h * 2 ^ n + m) * 2 ^ suc p + l) ((2 ^ n - 1) * 2 ^ suc p),
  scale-pow-suc p (h * 2 ^ n + m),
  scale-pow-suc p (2 ^ n - 1),
  scale-pow-suc p m,
  bit_and_field p n h m (l / 2) hm (omega (arith, pow-suc 2 p)),
)

-- `~m` in a word of `w` bits
abbrev pub bit_not : ℕ → ℕ → ℕ
bit_not w m = 2 ^ w - 1 - m

pub and_not_add_and :
    (w x m : ℕ) → x < 2 ^ w → m < 2 ^ w → bit_and x (bit_not w m) + bit_and x m ≡ x
and_not_add_and zero x m hx hm =
    let e : x ≡ 0 = omega arith in rw e (omega (arith, zero-bit_and m, zero-bit_and (bit_not 0 m)))
and_not_add_and (suc w) x m hx hm = ground (
  arith,
  bit_and_step x (2 ^ suc w - 1 - m),
  bit_and_step x m,
  pow-suc 2 w,
  and_not_add_and w (x / 2) (m / 2) (omega (arith, pow-suc 2 w)) (omega (arith, pow-suc 2 w)),
)

-- What `~m` keeps of one word and `m` keeps of another have no bit in common.
and_masked_apart : (w x y m : ℕ) → m < 2 ^ w → bit_and (bit_and x (bit_not w m)) (bit_and y m) ≡ 0
and_masked_apart zero x y m hm = let e : m ≡ 0 = omega arith in simp (e, bit_and-zero)
and_masked_apart (suc w) x y m hm = ground (
  arith,
  bit_and_step (bit_and x (bit_not (suc w) m)) (bit_and y m),
  bit_and_step x (bit_not (suc w) m),
  bit_and_step y m,
  pow-suc 2 w,
  ap (λ (t : ℕ). bit_and (bit_and (x / 2) t) (bit_and (y / 2) (m / 2))) halved,
  ap (λ (t : ℕ). bit_and (x / 2) t) halved,
  and_masked_apart w (x / 2) (y / 2) (m / 2) (omega (arith, pow-suc 2 w)),
)
  where
    halved : bit_not (suc w) m / 2 ≡ bit_not w (m / 2)
    halved = omega (arith, pow-suc 2 w)

-- Replacing the bits under a mask: `(x & ~m) | (y & m)`.
pub replace_masked :
    (w x y m : ℕ)
    → x < 2 ^ w
    → m < 2 ^ w
    → bit_or (bit_and x (bit_not w m)) (bit_and y m) + bit_and x m ≡ x + bit_and y m
replace_masked w x y m hx hm = omega (
  arith,
  or_add_and (bit_and x (bit_not w m)) (bit_and y m),
  and_masked_apart w x y m hm,
  and_not_add_and w x m hx hm,
)

pub bit_and-mask1 : (n p x : ℕ) → bit_and x (mask1 n p) ≡ x / 2 ^ p % 2 ^ n * 2 ^ p
bit_and-mask1 n p x =
    let hi = x / 2 ^ p in
    let whole : (hi / 2 ^ n * 2 ^ n + hi % 2 ^ n) * 2 ^ p + x % 2 ^ p ≡ x =
      grind (arith, one-le-pow p 2, one-le-pow n 2) in
    rw whole at (
      bit_and_field p n (hi / 2 ^ n) (hi % 2 ^ n) (x % 2 ^ p) (omega (arith, one-le-pow n 2))
        (omega (arith, one-le-pow p 2)))

-- A low word and a shifted one: `x | (y << k)`.
pub or_low : (k x y : ℕ) → x < 2 ^ k → bit_or x (y * 2 ^ k) ≡ x + y * 2 ^ k
or_low zero x y h = let e : x ≡ 0 = omega arith in rw e (omega (arith, zero-bit_or (y * 2 ^ 0)))
or_low (suc k) x y h = ground (
  arith,
  bit_or_step x (y * 2 ^ suc k),
  scale-pow-suc k y,
  or_low k (x / 2) y (omega (arith, pow-suc 2 k)),
)

-- Low digits joined to high ones are added.
pub or_high : (k x y : ℕ) → x < 2 ^ k → bit_or (y * 2 ^ k) x ≡ y * 2 ^ k + x
or_high zero x y h =
    let none : x ≡ 0 = omega arith in
    rw none (omega (or_add_and (y * 2 ^ 0) 0, bit_and-zero (y * 2 ^ 0), arith))
or_high (suc k) x y h = ground (
  arith,
  bit_or_step (y * 2 ^ suc k) x,
  scale-pow-suc k y,
  or_high k (x / 2) y (omega (arith, pow-suc 2 k)),
)

-- A field put into a word that has zeros there: `x | (y << p)`.
pub or_field :
    (n p x y : ℕ)
    → x < 2 ^ 64
    → mask1 n p < 2 ^ 64
    → x / 2 ^ p % 2 ^ n ≡ 0
    → y < 2 ^ n
    → bit_or x (y * 2 ^ p) ≡ x + y * 2 ^ p
or_field n p x y hx hm free hy =
    omega (arith, rw (kept, own) at (replace_masked 64 x (y * 2 ^ p) (mask1 n p) hx hm), vacant)
  where
    vacant : bit_and x (mask1 n p) ≡ 0
    vacant = rw (bit_and-mask1, free) (omega arith)

    kept : bit_and x (bit_not 64 (mask1 n p)) ≡ x
    kept = omega (arith, and_not_add_and 64 x (mask1 n p) hx hm, vacant)

    quotient : y * 2 ^ p / 2 ^ p ≡ y
    quotient = grind (arith, one-le-pow p 2)

    own : bit_and (y * 2 ^ p) (mask1 n p) ≡ y * 2 ^ p
    own = rw (bit_and-mask1, quotient, mod-eq_of_lt hy) refl
