-- ===== src/Opcodes/Mode.antt =====
-- lua/lopcodes.h and lua/lopcodes.c: the operations, and the table of what each one expects.
use primemover.Prelude.{
  ℕ, ◌*◌, ◌^◌, Bool, bit_and, bit_or, not, ◌==◌, Option, some, List, [], ◌∷◌, get_elem?, ◌≡◌, refl,
}

-- the basic instruction formats
pub data OpMode : Type 0 where
  i_abc i_abx i_asbx : OpMode

-- `OP_NOT` and `OP_RETURN` are `op_not` and `op_return` here.
pub data OpCode : Type 0 where
  move loadk loadbool loadnil getupval : OpCode
  getglobal gettable setglobal setupval settable : OpCode
  newtable self add sub mul : OpCode
  div pow unm op_not concat : OpCode
  jmp eq lt le test : OpCode
  call tailcall op_return forloop tforloop : OpCode
  tforprep setlist setlisto close closure : OpCode

unfoldable pub mode_number : OpMode → ℕ
mode_number i_abc = 0
mode_number i_abx = 1
mode_number i_asbx = 2

unfoldable pub opcode_number : OpCode → ℕ
opcode_number move = 0
opcode_number loadk = 1
opcode_number loadbool = 2
opcode_number loadnil = 3
opcode_number getupval = 4
opcode_number getglobal = 5
opcode_number gettable = 6
opcode_number setglobal = 7
opcode_number setupval = 8
opcode_number settable = 9
opcode_number newtable = 10
opcode_number self = 11
opcode_number add = 12
opcode_number sub = 13
opcode_number mul = 14
opcode_number div = 15
opcode_number pow = 16
opcode_number unm = 17
opcode_number op_not = 18
opcode_number concat = 19
opcode_number jmp = 20
opcode_number eq = 21
opcode_number lt = 22
opcode_number le = 23
opcode_number test = 24
opcode_number call = 25
opcode_number tailcall = 26
opcode_number op_return = 27
opcode_number forloop = 28
opcode_number tforloop = 29
opcode_number tforprep = 30
opcode_number setlist = 31
opcode_number setlisto = 32
opcode_number close = 33
opcode_number closure = 34

abbrev pub num_opcodes : ℕ
num_opcodes = 35

-- the operations in the order of the enumeration
abbrev opcodes : List OpCode
opcodes =
    move ∷ loadk ∷ loadbool ∷ loadnil ∷ getupval ∷ getglobal ∷ gettable ∷ setglobal ∷ setupval
    ∷ settable ∷ newtable ∷ self ∷ add ∷ sub ∷ mul ∷ div ∷ pow ∷ unm ∷ op_not ∷ concat ∷ jmp ∷ eq
    ∷ lt ∷ le ∷ test ∷ call ∷ tailcall ∷ op_return ∷ forloop ∷ tforloop ∷ tforprep ∷ setlist
    ∷ setlisto ∷ close ∷ closure ∷ []

-- The operation with a given number. A number of 35 or more has no name.
unfoldable pub opcode_of : ℕ → Option OpCode
opcode_of n = get_elem? opcodes n

-- the bits of the masks `OpModeMask`
abbrev pub op_mode_breg : ℕ
op_mode_breg = 2

abbrev pub op_mode_brk : ℕ
op_mode_brk = 3

abbrev pub op_mode_crk : ℕ
op_mode_crk = 4

abbrev pub op_modeset_a : ℕ
op_modeset_a = 5

abbrev pub op_mode_k : ℕ
op_mode_k = 6

abbrev pub op_mode_t : ℕ
op_mode_t = 7

-- the macro `opmode`
opmode : ℕ → ℕ → ℕ → ℕ → ℕ → ℕ → OpMode → ℕ
unfolding mode_number
opmode t b bk ck sa k m =
    bit_or
      (bit_or
        (bit_or
          (bit_or
            (bit_or (bit_or (t * 2 ^ op_mode_t) (b * 2 ^ op_mode_breg)) (bk * 2 ^ op_mode_brk))
            (ck * 2 ^ op_mode_crk))
          (sa * 2 ^ op_modeset_a))
        (k * 2 ^ op_mode_k))
      (mode_number m)

-- the table `luaP_opmodes`
unfoldable pub opmodes : OpCode → ℕ
unfolding opmode
opmodes move = opmode 0 1 0 0 1 0 i_abc
opmodes loadk = opmode 0 0 0 0 1 1 i_abx
opmodes loadbool = opmode 0 0 0 0 1 0 i_abc
opmodes loadnil = opmode 0 1 0 0 1 0 i_abc
opmodes getupval = opmode 0 0 0 0 1 0 i_abc
opmodes getglobal = opmode 0 0 0 0 1 1 i_abx
opmodes gettable = opmode 0 1 0 1 1 0 i_abc
opmodes setglobal = opmode 0 0 0 0 0 1 i_abx
opmodes setupval = opmode 0 0 0 0 0 0 i_abc
opmodes settable = opmode 0 0 1 1 0 0 i_abc
opmodes newtable = opmode 0 0 0 0 1 0 i_abc
opmodes self = opmode 0 1 0 1 1 0 i_abc
opmodes add = opmode 0 0 1 1 1 0 i_abc
opmodes sub = opmode 0 0 1 1 1 0 i_abc
opmodes mul = opmode 0 0 1 1 1 0 i_abc
opmodes div = opmode 0 0 1 1 1 0 i_abc
opmodes pow = opmode 0 0 1 1 1 0 i_abc
opmodes unm = opmode 0 1 0 0 1 0 i_abc
opmodes op_not = opmode 0 1 0 0 1 0 i_abc
opmodes concat = opmode 0 1 0 1 1 0 i_abc
opmodes jmp = opmode 0 0 0 0 0 0 i_asbx
opmodes eq = opmode 1 0 1 1 0 0 i_abc
opmodes lt = opmode 1 0 1 1 0 0 i_abc
opmodes le = opmode 1 0 1 1 0 0 i_abc
opmodes test = opmode 1 1 0 0 1 0 i_abc
opmodes call = opmode 0 0 0 0 0 0 i_abc
opmodes tailcall = opmode 0 0 0 0 0 0 i_abc
opmodes op_return = opmode 0 0 0 0 0 0 i_abc
opmodes forloop = opmode 0 0 0 0 0 0 i_asbx
opmodes tforloop = opmode 1 0 0 0 0 0 i_abc
opmodes tforprep = opmode 0 0 0 0 0 0 i_asbx
opmodes setlist = opmode 0 0 0 0 0 0 i_abx
opmodes setlisto = opmode 0 0 0 0 0 0 i_abx
opmodes close = opmode 0 0 0 0 0 0 i_abc
opmodes closure = opmode 0 0 0 0 1 0 i_abx

unfoldable pub get_op_mode : OpCode → Option OpMode
get_op_mode o = get_elem? (i_abc ∷ i_abx ∷ i_asbx ∷ []) (bit_and (opmodes o) 3)

unfoldable pub test_op_mode : OpCode → ℕ → Bool
test_op_mode o b = not (bit_and (opmodes o) (2 ^ b) == 0)

opcode_of-number : (o : OpCode) → opcode_of (opcode_number o) ≡ some o
unfolding opcode_of opcode_number
opcode_of-number move = refl
opcode_of-number _ = refl
