-- ===== src/Opcodes/Tests.antt =====
-- Instructions at concrete operands.
use primemover.Prelude.{ℕ, ◌%◌, arith}
use primemover.Opcodes.{get_opcode, getarg_a, getarg_b, setarg_c, create_abc}
use primemover.Opcodes.Laws.{IsInstruction, Reads, create_abc-Reads, setarg_c-Reads}

create_abc-Reads_example :
    IsInstruction (create_abc 12 3 300 7) × Reads (create_abc 12 3 300 7) 12 3 300 7
create_abc-Reads_example =
    create_abc-Reads 12 3 300 7 (omega arith) (omega arith) (omega arith) (omega arith)

abbrev sample : ℕ
sample = 0x12345678

setarg_c-Reads_example :
    IsInstruction (setarg_c sample 513)
    × Reads
        (setarg_c sample 513)
        (get_opcode sample)
        (getarg_a sample)
        (getarg_b sample)
        (513 % 512)
setarg_c-Reads_example = setarg_c-Reads sample 513 (omega arith)
