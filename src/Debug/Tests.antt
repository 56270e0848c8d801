-- ===== src/Debug/Tests.antt =====
-- The checker on small prototypes.
use primemover.Prelude.{ℕ, List, ◌-◌, ◌≤◌, ◌≡◌, ◌≢◌, refl, [], ◌∷◌, none, some, arith, get_elem?}
use primemover.Prelude.Int.{pos, ◌+ℤ◌, ◌-ℤ◌}
use primemover.Proto.{Proto, Protos, proto, nil, header}
use primemover.Opcodes.{create_abc, create_abx, get_opcode, getarg_a, getarg_b, getarg_c, getarg_bx}
use primemover.Opcodes.Mode.{
  opcode_of, opcode_number, get_op_mode, test_op_mode, opmodes, op_return,
}
use primemover.Debug.{Frame, checkcode, symbexec, step, operands, sizecode, maxstack}
use primemover.Debug.Outcome.{ok, out_of_fuel}
use primemover.Debug.Progress.{symbexec-fuel}
use primemover.Debug.Soundness.{Legal, checkcode-Legal, checkcode_ends}

-- the code of `return nil`, with one constant
abbrev sample_code : List ℕ
sample_code = create_abx 1 0 0 ∷ create_abc 27 0 2 0 ∷ []

abbrev sample : Proto
sample =
    proto
      (record {
        k = nil ∷ [];
        code = sample_code;
        lineinfo = [];
        locvars = [];
        upvalues = [];
        source = none;
        line_defined = 0;
        nups = 0;
        numparams = 0;
        is_vararg = 0;
        maxstacksize = 2;
      })
      Protos.none

run : Unit {0}
unfolding checkcode step operands opcode_of opcode_number get_op_mode test_op_mode opmodes
    get_opcode getarg_a getarg_b getarg_c getarg_bx create_abc create_abx ◌+ℤ◌ ◌-ℤ◌ symbexec
run = tt

checkcode-sample : checkcode sample ≡ ok (create_abc 27 0 2 0)
unfolding run
checkcode-sample = refl

symbexec-fuel_example : symbexec sample 2 (pos 0) ≢ out_of_fuel
symbexec-fuel_example = symbexec-fuel sample 2 (pos 0)

checkcode-Legal_example : Legal sample 0
checkcode-Legal_example =
    checkcode-Legal sample (create_abc 27 0 2 0) checkcode-sample 0 (omega arith)

checkcode_ends_example :
    ((header sample).maxstacksize ≤ maxstack)
    × ((i : ℕ) × (get_elem? (header sample).code (sizecode sample - 1) ≡ some i)
        × (opcode_of (get_opcode i) ≡ some op_return))
checkcode_ends_example = checkcode_ends sample (create_abc 27 0 2 0) checkcode-sample

-- `create_abc 40 0 0 0` names no operation
abbrev unknown : Proto
unknown =
    proto (record (header sample) { code = create_abc 40 0 0 0 ∷ create_abc 27 0 2 0 ∷ [] })
      Protos.none

abbrev start : Frame
start = record { lastpc = 2; reg = pos 255; pc = 0; last = 1 }
