-- ===== src/Objects/Numbers.antt =====
-- lua/lobject.c: floating point bytes and the logarithm.
use native.Mathlib.Nat.{pow-suc, pow-le-pow_right, mul-le-mul_right}
use primemover.Prelude.{
  ℕ, zero, suc, ◌+◌, ◌-◌, ◌*◌, ◌/◌, ◌%◌, ◌^◌, ◌≤◌, ◌<◌, Bool, true, false, Option, none, some,
  get_elem?, bit_and, bit_or, ltb, leb, ◌==◌, ◌&&◌, ◌≡◌, ◌⊎◌, inl, inr, refl, sym, ap, ◌∙◌, arith,
  if◌then◌else◌,
}
use primemover.Prelude.Int.{ℤ, pos}
use primemover.Prelude.Bits.{scale-pow-suc, or_high, mask1, bit_and-mask1}
use primemover.Objects.{int2fb_loop, int2fb, fb2int, log_8, log_of, log2}

-- `k` rounds were taken, and each halved what was left, rounded up.
abbrev Halved : ℕ → ℕ → ℕ × ℕ → Type 0
Halved m x r =
    (k : ℕ) × (r.0 ≡ m + k)
    × (r.1 < 8)
    × (x ≤ r.1 * 2 ^ k)
    × (r.1 * 2 ^ k < x + 2 ^ k)
    × ((k ≡ 0) ⊎ (4 ≤ r.1))

if-Halved :
    (m x : ℕ) (b : Bool) (p q : ℕ × ℕ)
    → (b ≡ true → Halved m x p)
    → (b ≡ false → Halved m x q)
    → Halved m x (if b then p else q)
if-Halved m x true p q h k = h refl
if-Halved m x false p q h k = k refl

int2fb_loop-Halved :
    (fuel m x : ℕ) → x ≤ 7 * 2 ^ fuel → x + 1 < 2 ^ 32 → Halved m x (int2fb_loop fuel m x)
unfolding int2fb_loop
int2fb_loop-Halved zero m x small fits =
    (0, omega arith, omega arith, omega arith, omega arith, inl refl)
int2fb_loop-Halved (suc fuel) m x small fits =
    let half : (x + 1) % 2 ^ 32 / 2 ≡ (x + 1) / 2 = omega arith in
    let rest = int2fb_loop fuel (m + 1) ((x + 1) % 2 ^ 32 / 2) in
    let again =
      int2fb_loop-Halved fuel (m + 1) ((x + 1) % 2 ^ 32 / 2) (omega (arith, half, pow-suc 2 fuel))
        (omega (arith, half)) in
    if-Halved m x (leb (2 ^ 3) x) rest (m, x) (λ h. one_more rest again half (ground arith))
      (λ h. (0, omega arith, ground arith, omega arith, omega arith, inl refl))
  where
    at_least_four :
        (k y : ℕ)
        → 8 ≤ x
        → (x + 1) % 2 ^ 32 / 2 ≡ (x + 1) / 2
        → (x + 1) % 2 ^ 32 / 2 ≤ y * 2 ^ k
        → (k ≡ 0) ⊎ (4 ≤ y)
        → 4 ≤ y
    at_least_four k y big half up (inr h) = h
    at_least_four k y big half up (inl h) =
        let one : 2 ^ k ≡ 1 = rw h refl in omega (arith, rw one at up, half)

    one_more :
        (r : ℕ × ℕ)
        → Halved (m + 1) ((x + 1) % 2 ^ 32 / 2) r
        → (x + 1) % 2 ^ 32 / 2 ≡ (x + 1) / 2
        → 8 ≤ x
        → Halved m x r
    one_more r (k, mantissa, low, up, down, four) half big = (
      suc k,
      omega (arith, mantissa),
      low,
      omega (arith, up, half, scale-pow-suc k r.1),
      omega (arith, down, half, scale-pow-suc k r.1, pow-suc 2 k),
      inr (at_least_four k r.1 big half up four),
    )

low_bits : (z : ℕ) → bit_and z 7 ≡ z / 2 ^ 0 % 2 ^ 3 * 2 ^ 0
unfolding mask1
low_bits z = bit_and-mask1 3 0 z

fb2int-or :
    (m x : ℕ)
    → x < 8
    → m < 32
    → x * 2 ^ m < 2 ^ 31
    → fb2int (bit_or (m * 2 ^ 3) x) ≡ some (x * 2 ^ m)
unfolding fb2int
fb2int-or m x h narrow fits =
    let joined = or_high 3 x m h in
    let high : (m * 2 ^ 3 + x) / 2 ^ 3 ≡ m = omega arith in
    let low : bit_and (m * 2 ^ 3 + x) 7 ≡ x = omega (arith, low_bits (m * 2 ^ 3 + x)) in
    let holds : (ltb m 32 && ltb (x * 2 ^ m) (2 ^ 31)) ≡ true = ground arith in
    rw joined (rw (high, low) (rw holds refl))

-- A power of two below three quarters of 2 ^ 31 has an exponent of at most 28.
small_exponent : (k : ℕ) → 3 * 2 ^ k < 3 * 2 ^ 29 → (k ≤ 28) × (2 ^ k ≤ 2 ^ 28)
small_exponent k h = elim (sides k) [
  | inl low ↦ (low, pow-le-pow_right (omega arith) low)
  | inr high ↦
      let large : 2 ^ 29 ≤ 2 ^ k = pow-le-pow_right (omega arith) high in
      absurd (omega (arith, large, h))
]
  where
    sides : (k : ℕ) → (k ≤ 28) ⊎ (29 ≤ k)
    sides k = ground arith

-- `o` is a number no smaller than `x`, and at most a third larger.
abbrev pub RoundsUp : ℕ → Option ℕ → Type 0
RoundsUp x o = (y : ℕ) × (o ≡ some y) × (x ≤ y) × (3 * y ≤ 4 * x)

-- Up to 3 * 2 ^ 29, the floating point byte of a number stands for no less than the number, and for
-- at most a third more, and is turned back without an overflow.
pub fb2int-int2fb : (x : ℕ) → x ≤ 3 * 2 ^ 29 → RoundsUp x (fb2int (int2fb x))
unfolding int2fb
fb2int-int2fb x fits =
    let (k, mantissa, low, up, down, four) =
      int2fb_loop-Halved 32 0 x (omega arith) (omega arith) in
    let r = int2fb_loop 32 0 x in
    let (narrow, bound, close) = bounds k r.1 low down four in
    let same : r.0 ≡ k = omega (arith, mantissa) in
    (
      r.1 * 2 ^ k,
      rw (sym same) (fb2int-or r.0 r.1 low (omega (arith, narrow, same)) (rw same bound)),
      up,
      close,
    )
  where
    bounds :
        (k y : ℕ)
        → y < 8
        → y * 2 ^ k < x + 2 ^ k
        → (k ≡ 0) ⊎ (4 ≤ y)
        → (k < 32) × (y * 2 ^ k < 2 ^ 31) × (3 * (y * 2 ^ k) ≤ 4 * x)
    bounds k y low down (inl h) =
        let one : 2 ^ k ≡ 1 = rw h refl in
        (omega arith, omega (arith, one), omega (arith, rw one at down))
    bounds k y low down (inr h) =
        let four = mul-le-mul_right (2 ^ k) h in
        let (narrow, power) = small_exponent k (omega (arith, down, four)) in
        (omega (arith, narrow), omega (arith, down, power), omega (arith, down, four))

-- `l` is the logarithm of `b`, rounded down.
abbrev is_log : ℕ → ℕ → Bool
is_log b l = leb (2 ^ l) b && ltb b (2 ^ (l + 1))

abbrev logs_hold : ℕ → Bool
logs_hold zero = true
logs_hold (suc n) =
    elim (get_elem? log_8 n) [ none ↦ false | some l ↦ is_log (suc n) l ] && logs_hold n

log_8-holds : logs_hold 255 ≡ true
unfolding log_8
log_8-holds = refl

log_8_entry :
    (n i : ℕ)
    → logs_hold n ≡ true
    → i < n
    → (l : ℕ) × (get_elem? log_8 i ≡ some l) × (is_log (suc i) l ≡ true)
log_8_entry zero i h lt = absurd (omega arith)
log_8_entry (suc n) i h lt = elim (last n i lt) [
  | inl e ↦ rw e (entry (get_elem? log_8 n) (logs_hold n) h)
  | inr lt' ↦
      log_8_entry n i
        (rest (elim (get_elem? log_8 n) [ none ↦ false | some l ↦ is_log (suc n) l ]) (logs_hold n)
          h)
        lt'
]
  where
    last : (n i : ℕ) → i < suc n → (i ≡ n) ⊎ (i < n)
    last n i lt = ground arith

    rest : (a b : Bool) → (a && b) ≡ true → b ≡ true
    rest true b h = h
    rest false b h = cc

    entry :
        (o : Option ℕ) (b : Bool)
        → (elim o as (λ o. Bool) [ none ↦ false | some l ↦ is_log (suc n) l ] && b) ≡ true
        → (l : ℕ) × (o ≡ some l) × (is_log (suc n) l ≡ true)
    entry none b h = cc
    entry (some l) b h = (l, refl, front (is_log (suc n) l) b h)
      where
        front : (a b : Bool) → (a && b) ≡ true → a ≡ true
        front true b h = refl
        front false b h = cc

is_log-lem : (b l : ℕ) → is_log b l ≡ true → (2 ^ l ≤ b) × (b < 2 ^ (l + 1))
is_log-lem b l h = (ground arith, ground arith)

log_of-entry : (b n l : ℕ) → get_elem? log_8 (b - 1) ≡ some l → log_of b n ≡ some (pos (l + n))
unfolding log_of
log_of-entry b n l h =
    ap (λ (o : Option ℕ). elim o as (λ o. Option ℤ) [ none ↦ none | some l ↦ some (pos (l + n)) ]) h

log_of_byte :
    (b n : ℕ)
    → 0 < b
    → b < 256
    → (l : ℕ) × (log_of b n ≡ some (pos (l + n))) × (2 ^ l ≤ b) × (b < 2 ^ (l + 1))
log_of_byte b n h lt =
    let (l, found, holds) = log_8_entry 255 (b - 1) log_8-holds (omega arith) in
    let same : suc (b - 1) ≡ b = omega arith in
    let (low, high) = is_log-lem b l (rw same at holds) in (l, log_of-entry b n l found, low, high)

two-pow-add : (l n : ℕ) → 2 ^ (l + n) ≡ 2 ^ l * 2 ^ n
two-pow-add l zero = let same : l + 0 ≡ l = omega arith in rw same (omega arith)
two-pow-add l (suc n) =
    let same : l + suc n ≡ suc (l + n) = omega arith in
    rw same (omega (arith, pow-suc 2 (l + n), two-pow-add l n, scale-pow-suc n (2 ^ l)))

-- `o` is the logarithm of `x`, rounded down.
abbrev LogIs : ℕ → Option ℤ → Type 0
LogIs x o = (l : ℕ) × (o ≡ some (pos l)) × (2 ^ l ≤ x) × (x < 2 ^ (l + 1))

shifted :
    (x n : ℕ)
    → 0 < x / 2 ^ n
    → x / 2 ^ n < 256
    → x / 2 ^ n * 2 ^ n ≤ x
    → x < (x / 2 ^ n + 1) * 2 ^ n
    → LogIs x (log_of (x / 2 ^ n % 256) n)
shifted x n some_left byte whole_low whole_high =
    let whole : x / 2 ^ n % 256 ≡ x / 2 ^ n = omega (arith, byte) in
    let (l, found, low, high) = log_of_byte (x / 2 ^ n) n some_left byte in
    let same : l + n + 1 ≡ l + 1 + n = omega arith in
    let high' : x / 2 ^ n + 1 ≤ 2 ^ (l + 1) = omega (arith, high) in
    rw whole (
      l + n,
      found,
      omega (arith, two-pow-add l n, mul-le-mul_right (2 ^ n) low, whole_low),
      rw same (omega (arith, two-pow-add (l + 1) n, mul-le-mul_right (2 ^ n) high', whole_high)),
    )

if-LogIs :
    (x : ℕ) (b : Bool) (p q : Option ℤ)
    → (b ≡ true → LogIs x p)
    → (b ≡ false → LogIs x q)
    → LogIs x (if b then p else q)
if-LogIs x true p q h k = h refl
if-LogIs x false p q h k = k refl

-- For a number that is not 0, luaO_log2 gives the exponent of the largest power of two that is not
-- larger; it reads its table inside its bounds.
pub log2_bounds :
    (x : ℕ)
    → 0 < x
    → x < 2 ^ 32
    → (l : ℕ) × (log2 x ≡ some (pos l)) × (2 ^ l ≤ x) × (x < 2 ^ (l + 1))
unfolding log2
log2_bounds x h fits =
    if-LogIs x (leb 0x10000 x) _ _
      (λ big.
        if-LogIs x (leb 0x1000000 x) _ _
          (λ huge. shifted x 24 (ground arith) (omega arith) (omega arith) (omega arith))
          (λ less. shifted x 16 (ground arith) (ground arith) (omega arith) (omega arith)))
      (λ small.
        if-LogIs x (leb 0x100 x) _ _
          (λ big. shifted x 8 (ground arith) (ground arith) (omega arith) (omega arith))
          (λ less. if-LogIs x (x == 0) _ _ (λ none_left. ground arith) (λ u. byte (ground arith))))
  where
    byte : x < 256 → LogIs x (log_of (x % 256) 0)
    byte lt =
        let same : x % 256 ≡ x = omega arith in
        let (l, found, low, high) = log_of_byte x 0 h lt in
        rw same (l, found ∙ ap (λ (t : ℕ). some (pos t)) (omega arith), low, high)
