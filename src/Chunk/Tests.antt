-- ===== src/Chunk/Tests.antt =====
-- A function dumped and loaded, on one machine and across two.
use primemover.Prelude.{
  List, [], ◌∷◌, ◌++◌, ◌≡◌, refl, true, false, none, some, arith, inl, inr, take, drop,
}
use primemover.Proto.{Bytes, Proto, Protos, proto, number, str, nil}
use primemover.Debug.{checkcode, step, operands}
use primemover.Prelude.Int.{◌+ℤ◌, ◌-ℤ◌}
use primemover.Opcodes.Mode.{opcode_of, opcode_number, get_op_mode, test_op_mode, opmodes}
use primemover.Debug.Soundness.{Legal}
use primemover.Opcodes.{create_abc, create_abx, get_opcode, getarg_a, getarg_b, getarg_c, getarg_bx}
use primemover.Zio.{Zio, init, read, zgetc}
use primemover.Zio.Contents.{contents, stream, BlocksFit, IsValid, init-IsValid}
use primemover.Chunk.Memory.{to_memory, from_memory, endianness}
use primemover.Chunk.Dump.{dump, same_string}
use primemover.Chunk.Limits.{LoadsBlock, ezread-LoadsBlock}
use primemover.Chunk.Load.{
  ok, ezread, load_byte, load_int, load_string, load_lines, load_locals, load_upvalues,
  load_constant, load_protos, load_code, repeat, load_number, load_size, load_text, load_vector,
  load_block, load_locvar, constant_of, ◌>>=◌,
}
use primemover.Chunk.Undump.{undump}
use primemover.Chunk.Dumpable.{Dumpable}
use primemover.Chunk.Whole.{undump-dump}
use primemover.Chunk.Checked.{AllChecked, undump-AllChecked, undump-Legal}

-- `return nil` inside a chunk with a name, a constant and a local
abbrev inside : Proto
inside =
    proto
      (record {
        k = nil ∷ [];
        code = create_abx 1 0 0 ∷ create_abc 27 0 2 0 ∷ [];
        lineinfo = 3 ∷ 3 ∷ [];
        locvars = [];
        upvalues = [];
        source = some (b'@' ∷ b'm' ∷ []);
        line_defined = 2;
        nups = 0;
        numparams = 0;
        is_vararg = 0;
        maxstacksize = 2;
      })
      Protos.none

abbrev main : Proto
main =
    proto
      (record {
        k = number 4607182418800017408 ∷ str (some (b'x' ∷ [])) ∷ [];
        code = create_abx 1 0 0 ∷ create_abx 7 0 1 ∷ create_abc 27 0 1 0 ∷ [];
        lineinfo = [];
        locvars = record { varname = some (b'v' ∷ []); startpc = 1; endpc = 2 } ∷ [];
        upvalues = [];
        source = some (b'@' ∷ b'm' ∷ []);
        line_defined = 0;
        nups = 0;
        numparams = 0;
        is_vararg = 1;
        maxstacksize = 3;
      })
      (Protos.cons inside Protos.none)

loading : Unit {0}
unfolding checkcode step operands opcode_of opcode_number get_op_mode test_op_mode opmodes
    get_opcode getarg_a getarg_b getarg_c getarg_bx create_abc create_abx same_string load_locvar
    constant_of ◌+ℤ◌ ◌-ℤ◌ init stream zgetc read to_memory from_memory endianness dump undump ezread
    load_byte load_int load_string load_lines load_locals load_upvalues load_constant load_protos
    load_code repeat load_number load_size load_text load_vector load_block ◌>>=◌
loading = tt

-- the whole chunk in one block, read on the machine that wrote it
undump_same :
    undump true (init (dump true main ∷ [])) ≡ ok main (record { n = 0; p = []; blocks = [] })
unfolding loading
undump_same = refl

-- `inside` and `main` can be dumped
main-Dumpable : Dumpable main none
unfolding loading Dumpable
main-Dumpable = (
  omega arith,
  inr cc,
  omega arith,
  (create_abc 27 0 1 0, refl, omega arith),
  ((omega arith, inl refl, omega arith, (create_abc 27 0 2 0, refl, omega arith), tt), tt),
)

-- the chunk of a big-endian machine in two blocks, with two bytes behind it
abbrev pieces : List Bytes
pieces = take 50 (dump false main) ∷ (drop 50 (dump false main) ++ 1 ∷ 2 ∷ []) ∷ []

pieces_fit : BlocksFit pieces
unfolding loading
pieces_fit = omega arith

pieces_hold : stream pieces ≡ dump false main ++ 1 ∷ 2 ∷ []
unfolding loading
pieces_hold = refl

undump-dump_example :
    (z : Zio) × (undump true (init pieces) ≡ ok main z) × (contents z ≡ 1 ∷ 2 ∷ [])
undump-dump_example =
    undump-dump true false main pieces (1 ∷ 2 ∷ []) main-Dumpable pieces_fit pieces_hold

undump-AllChecked_example : AllChecked main
unfolding loading
undump-AllChecked_example =
    undump-AllChecked true (init (dump true main ∷ [])) (record { n = 0; p = []; blocks = [] }) main
      undump_same

undump-Legal_example : Legal main 1
unfolding loading
undump-Legal_example =
    undump-Legal true (init (dump true main ∷ [])) (record { n = 0; p = []; blocks = [] }) main
      undump_same 1 (omega arith)

short : Zio
short = init ((1 ∷ 2 ∷ 3 ∷ []) ∷ [])

short-IsValid : IsValid short
unfolding short
short-IsValid = (init-IsValid _ (omega arith)).0

ezread-LoadsBlock_example : LoadsBlock short 2 (ezread 2 short)
ezread-LoadsBlock_example = ezread-LoadsBlock short 2 short-IsValid (omega arith)
