-- ===== src/Opcodes.antt =====
-- lua/lopcodes.h: the layout of virtual machine instructions and the macros that read and write it.
-- An `Instruction` is an unsigned long, taken at 64 bits; the macros are its bit operations.
pub mod Mode
pub mod Fields
pub mod Laws
mod Tests
use primemover.Prelude.{ℕ, ◌+◌, ◌-◌, ◌*◌, ◌/◌, ◌%◌, ◌^◌, bit_and, bit_or}
use primemover.Prelude.Bits.{mask1, bit_not}
use primemover.Prelude.Int.{ℤ, pos, pos_part, neg_part, ◌+ℤ◌, ◌-ℤ◌}

abbrev pub size_c : ℕ
size_c = 9

abbrev pub size_b : ℕ
size_b = 9

abbrev pub size_bx : ℕ
size_bx = size_c + size_b

abbrev pub size_a : ℕ
size_a = 8

abbrev pub size_op : ℕ
size_op = 6

abbrev pub pos_c : ℕ
pos_c = size_op

abbrev pub pos_b : ℕ
pos_b = pos_c + size_c

abbrev pub pos_bx : ℕ
pos_bx = pos_c

abbrev pub pos_a : ℕ
pos_a = pos_b + size_b

abbrev pub maxarg_bx : ℕ
maxarg_bx = 2 ^ size_bx - 1

abbrev pub maxarg_sbx : ℕ
maxarg_sbx = maxarg_bx / 2

abbrev pub maxarg_a : ℕ
maxarg_a = 2 ^ size_a - 1

abbrev pub maxarg_b : ℕ
maxarg_b = 2 ^ size_b - 1

abbrev pub maxarg_c : ℕ
maxarg_c = 2 ^ size_c - 1

abbrev pub no_reg : ℕ
no_reg = maxarg_a

-- the bits of an `Instruction`
abbrev pub word : ℕ
word = 64

abbrev mask0 : ℕ → ℕ → ℕ
mask0 n p = bit_not word (mask1 n p)

-- `x << p` on an `Instruction`
abbrev shl : ℕ → ℕ → ℕ
shl x p = x * 2 ^ p % 2 ^ word

unfoldable pub get_opcode : ℕ → ℕ
unfolding mask1
get_opcode i = bit_and i (mask1 size_op 0)

unfoldable pub set_opcode : ℕ → ℕ → ℕ
unfolding mask1
set_opcode i o = bit_or (bit_and i (mask0 size_op 0)) o

-- The cast to int keeps the low 32 bits; `A` is not masked.
unfoldable pub getarg_a : ℕ → ℕ
getarg_a i = i / 2 ^ pos_a % 2 ^ 32

unfoldable pub getarg_b : ℕ → ℕ
unfolding mask1
getarg_b i = bit_and (i / 2 ^ pos_b) (mask1 size_b 0)

unfoldable pub getarg_c : ℕ → ℕ
unfolding mask1
getarg_c i = bit_and (i / 2 ^ pos_c) (mask1 size_c 0)

unfoldable pub getarg_bx : ℕ → ℕ
unfolding mask1
getarg_bx i = bit_and (i / 2 ^ pos_bx) (mask1 size_bx 0)

unfoldable pub getarg_sbx : ℕ → ℤ
getarg_sbx i = pos (getarg_bx i) -ℤ pos maxarg_sbx

-- `((i) & MASK0(n, p)) | ((u << p) & MASK1(n, p))`, which the SETARG macros share
set_field : ℕ → ℕ → ℕ → ℕ → ℕ
unfolding mask1
set_field n p i u = bit_or (bit_and i (mask0 n p)) (bit_and (shl u p) (mask1 n p))

unfoldable pub setarg_a : ℕ → ℕ → ℕ
unfolding set_field
setarg_a i u = set_field size_a pos_a i u

unfoldable pub setarg_b : ℕ → ℕ → ℕ
unfolding set_field
setarg_b i b = set_field size_b pos_b i b

unfoldable pub setarg_c : ℕ → ℕ → ℕ
unfolding set_field
setarg_c i b = set_field size_c pos_c i b

unfoldable pub setarg_bx : ℕ → ℕ → ℕ
unfolding set_field
setarg_bx i b = set_field size_bx pos_bx i b

-- the cast of an int to unsigned int
abbrev pub to_unsigned : ℤ → ℕ
to_unsigned z = (pos_part z + 2 ^ 32 - neg_part z % 2 ^ 32) % 2 ^ 32

unfoldable pub setarg_sbx : ℕ → ℤ → ℕ
setarg_sbx i b = setarg_bx i (to_unsigned (b +ℤ pos maxarg_sbx))

unfoldable pub create_abc : ℕ → ℕ → ℕ → ℕ → ℕ
create_abc o a b c = bit_or (bit_or (bit_or o (shl a pos_a)) (shl b pos_b)) (shl c pos_c)

unfoldable pub create_abx : ℕ → ℕ → ℕ → ℕ
create_abx o a bc = bit_or (bit_or o (shl a pos_a)) (shl bc pos_bx)
