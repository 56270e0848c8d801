-- ===== src/Opcodes/Fields.antt =====
-- The instruction macros as arithmetic on the fields: one equation for each of them.
use primemover.Prelude.{ℕ, ◌+◌, ◌-◌, ◌*◌, ◌/◌, ◌%◌, ◌^◌, ◌<◌, bit_and, bit_or, ◌≡◌, refl, ap, arith}
use primemover.Prelude.Bits.{mask1, bit_and-mask1, replace_masked, or_field}
use primemover.Opcodes.{
  shl, get_opcode, set_opcode, getarg_a, getarg_b, getarg_c, getarg_bx, setarg_a, setarg_b,
  setarg_c, setarg_bx, create_abc, create_abx,
}

pub get_opcode-eq : (i : ℕ) → get_opcode i ≡ i % 64
unfolding get_opcode
get_opcode-eq i = omega (arith, bit_and-mask1 6 0 i)

pub getarg_a-eq : (i : ℕ) → getarg_a i ≡ i / 16777216 % 4294967296
unfolding getarg_a
getarg_a-eq i = refl

pub getarg_b-eq : (i : ℕ) → getarg_b i ≡ i / 32768 % 512
unfolding getarg_b
getarg_b-eq i = omega (arith, bit_and-mask1 9 0 (i / 2 ^ 15))

pub getarg_c-eq : (i : ℕ) → getarg_c i ≡ i / 64 % 512
unfolding getarg_c
getarg_c-eq i = omega (arith, bit_and-mask1 9 0 (i / 2 ^ 6))

pub getarg_bx-eq : (i : ℕ) → getarg_bx i ≡ i / 64 % 262144
unfolding getarg_bx
getarg_bx-eq i = omega (arith, bit_and-mask1 18 0 (i / 2 ^ 6))

-- A write replaces its own field and nothing else.
module _ (i : ℕ) (fits : i < 2 ^ 64) where
  pub setarg_a-eq : (u : ℕ) → setarg_a i u + i / 16777216 % 256 * 16777216 ≡ i + u % 256 * 16777216
  unfolding setarg_a
  setarg_a-eq u = omega (
    arith,
    replace_masked 64 i (shl u 24) (mask1 8 24) fits (omega arith),
    bit_and-mask1 8 24 i,
    bit_and-mask1 8 24 (shl u 24),
  )

  pub setarg_b-eq : (u : ℕ) → setarg_b i u + i / 32768 % 512 * 32768 ≡ i + u % 512 * 32768
  unfolding setarg_b
  setarg_b-eq u = omega (
    arith,
    replace_masked 64 i (shl u 15) (mask1 9 15) fits (omega arith),
    bit_and-mask1 9 15 i,
    bit_and-mask1 9 15 (shl u 15),
  )

  pub setarg_c-eq : (u : ℕ) → setarg_c i u + i / 64 % 512 * 64 ≡ i + u % 512 * 64
  unfolding setarg_c
  setarg_c-eq u = omega (
    arith,
    replace_masked 64 i (shl u 6) (mask1 9 6) fits (omega arith),
    bit_and-mask1 9 6 i,
    bit_and-mask1 9 6 (shl u 6),
  )

  pub setarg_bx-eq : (u : ℕ) → setarg_bx i u + i / 64 % 262144 * 64 ≡ i + u % 262144 * 64
  unfolding setarg_bx
  setarg_bx-eq u = omega (
    arith,
    replace_masked 64 i (shl u 6) (mask1 18 6) fits (omega arith),
    bit_and-mask1 18 6 i,
    bit_and-mask1 18 6 (shl u 6),
  )

pub create_abc-eq :
    (o a b c : ℕ)
    → o < 64
    → a < 256
    → b < 512
    → c < 512
    → create_abc o a b c ≡ ((a * 512 + b) * 512 + c) * 64 + o
unfolding create_abc mask1
create_abc-eq o a b c ho ha hb hc =
    let fa : a * 2 ^ 24 % 2 ^ 64 ≡ a * 2 ^ 24 = omega arith in
    let fb : b * 2 ^ 15 % 2 ^ 64 ≡ b * 2 ^ 15 = omega arith in
    let fc : c * 2 ^ 6 % 2 ^ 64 ≡ c * 2 ^ 6 = omega arith in
    rw
      (
        fa,
        fb,
        fc,
        or_field 8 24 o a (omega arith) (omega arith) (omega arith) ha,
        or_field 9 15 (o + a * 2 ^ 24) b (omega arith) (omega arith) (omega arith) hb,
        or_field 9 6 (o + a * 2 ^ 24 + b * 2 ^ 15) c (omega arith) (omega arith) (omega arith) hc,
      )
      (omega arith)

pub create_abx-eq :
    (o a bc : ℕ) → o < 64 → a < 256 → bc < 262144 → create_abx o a bc ≡ (a * 262144 + bc) * 64 + o
unfolding create_abx mask1
create_abx-eq o a bc ho ha hb =
    let fa : a * 2 ^ 24 % 2 ^ 64 ≡ a * 2 ^ 24 = omega arith in
    let fb : bc * 2 ^ 6 % 2 ^ 64 ≡ bc * 2 ^ 6 = omega arith in
    rw
      (
        fa,
        fb,
        or_field 8 24 o a (omega arith) (omega arith) (omega arith) ha,
        or_field 18 6 (o + a * 2 ^ 24) bc (omega arith) (omega arith) (omega arith) hb,
      )
      (omega arith)

pub set_opcode-eq : (i o : ℕ) → i < 2 ^ 64 → o < 64 → set_opcode i o + i % 64 ≡ i + o
unfolding set_opcode mask1
set_opcode-eq i o hi ho =
    let m : ℕ = mask1 6 0 in
    let own : bit_and o m ≡ o = omega (arith, bit_and-mask1 6 0 o) in
    omega (arith, rw own at (replace_masked 64 i o m hi (omega arith)), bit_and-mask1 6 0 i)

pub ruleset field_laws = (arith, get_opcode-eq, getarg_a-eq, getarg_b-eq, getarg_c-eq, getarg_bx-eq)
