-- ===== src/Debug/Soundness.antt =====
-- What code that passes `luaG_checkcode` has: the checks of every one of its instructions hold.
use primemover.Prelude.{
  ℕ, zero, suc, ◌+◌, ◌-◌, ◌≤◌, ◌<◌, ◌≡◌, refl, Bool, false, ◌⊎◌, inl, inr, arith, get_elem?, some,
  true, ltb, length, ==_iff, ltb→lt, leb→le, leb, ◌==◌, Bool-cases, ◌||◌,
}
use primemover.Prelude.Int.{ℤ, ltb_ℤ, +ℤ_parts, pos, ◌+ℤ◌, ◌≤ℤ◌, pos_part}
use primemover.Proto.{Proto, Constant, is_string, header}
use primemover.Opcodes.{get_opcode, getarg_a, getarg_b, getarg_bx, getarg_sbx, no_reg}
use primemover.Opcodes.Mode.{
  OpCode, opcode_of, opcode_number, opmodes, get_op_mode, test_op_mode, jmp, forloop, tforloop,
  call, tailcall, closure, getglobal, setglobal, getupval, setupval, op_return,
}
use primemover.Debug.{
  Frame, Next, is_op, final_instruction, sizecode, maxstack, to_int, instruction, checkreg,
  check_jump, check_call, check_closure, check_forloop, execute, operands, check_skip, precheck,
  step, symbexec_loop, checkcode,
}
use primemover.Debug.Outcome.{
  >>=-eq-ok, at-eq-ok, check-eq-ok, Check, ok, fault, ◌>>=◌, ◌>>◌, check,
}
use primemover.Debug.Progress.{Passed, step-Passed}

check_jump-next :
    (pt : Proto) (s : Frame) (b : ℤ) (last : ℕ) {n : Next}
    → s.reg ≡ pos no_reg
    → check_jump pt s b last ≡ ok n
    → (n.0 ≡ s.pc + 1)
      × (pos 0 ≤ℤ pos (s.pc + 1) +ℤ b)
      × (pos_part (pos (s.pc + 1) +ℤ b) < sizecode pt)
unfolding check_jump
check_jump-next pt s b last r h = ground arith

check_call-next :
    (pt : Proto) (s : Frame) (a b c : ℤ) (last : ℕ) {n : Next}
    → check_call pt s a b c last ≡ ok n
    → n.0 ≡ s.pc + 1
unfolding check_call
check_call-next pt s a b c last h = ground arith

check_closure-next :
    (pt : Proto) (s : Frame) (b : ℤ) (last : ℕ) {n : Next}
    → check_closure pt s b last ≡ ok n
    → n.0 ≡ s.pc + 1
unfolding check_closure
check_closure-next pt s b last h = ground arith

check_forloop-next :
    (pt : Proto) (s : Frame) (a b : ℤ) (last : ℕ) {n : Next}
    → s.reg ≡ pos no_reg
    → check_forloop pt s a b last ≡ ok n
    → (n.0 ≡ s.pc + 1)
      × (pos 0 ≤ℤ pos (s.pc + 1) +ℤ b)
      × (pos_part (pos (s.pc + 1) +ℤ b) < sizecode pt)
unfolding check_forloop
check_forloop-next pt s a b last r h =
    let (u, _, e) = >>=-eq-ok (checkreg pt (a +ℤ pos 2)) _ h in check_jump-next pt s b last r e

execute-next :
    (pt : Proto) (s : Frame) (op : OpCode) (a b c : ℤ) (last : ℕ) {n : Next}
    → s.reg ≡ pos no_reg
    → execute pt s op a b c last ≡ ok n
    → n.0 ≡ s.pc + 1
unfolding execute
execute-next pt s jmp a b c last r h = (check_jump-next pt s b last r h).0
execute-next pt s forloop a b c last r h = (check_forloop-next pt s a b last r h).0
execute-next pt s tforloop a b c last r h =
    let (_, _, e) = >>=-eq-ok (checkreg pt (a +ℤ c +ℤ pos 5)) _ h in
    (check_forloop-next pt s a b _ r e).0
execute-next pt s call a b c last r h = check_call-next pt s a b c last h
execute-next pt s tailcall a b c last r h = check_call-next pt s a b c last h
execute-next pt s closure a b c last r h = check_closure-next pt s b last h
execute-next pt s _ a b c last r h = ground arith

-- Without a register to look for, the loop takes no jump: every instruction is checked.
abbrev StepsAt : Proto → ℕ → ℕ → Type 0
StepsAt pt lastpc pc =
    (last : ℕ) × (n : Next) × (step pt
        (record { lastpc = lastpc; reg = pos no_reg; pc = pc; last = last })
      ≡ ok n)

loop-StepsAt :
    (fuel : ℕ) (pt : Proto) (lastpc pc last : ℕ) {l : ℕ}
    → symbexec_loop fuel pt (record { lastpc = lastpc; reg = pos no_reg; pc = pc; last = last })
      ≡ ok l
    → (k : ℕ) → pc ≤ k
    → k < lastpc
    → StepsAt pt lastpc k
unfolding symbexec_loop
loop-StepsAt zero pt lastpc pc last h k above below = ground arith
loop-StepsAt (suc fuel) pt lastpc pc last h k above below =
    let s : Frame = record { lastpc = lastpc; reg = pos no_reg; pc = pc; last = last } in
    let inside : ltb pc lastpc ≡ true = ground arith in
    let (n, e, rest) = >>=-eq-ok (step pt s) _ (rw inside at h) in
    let p = step-Passed pt s e in
    let next : n.0 ≡ pc + 1 = execute-next pt s p.op _ p.b p.c p.last refl p.executed in
    elim (Nat-cases pc k above) [
      | inl here ↦ rw (← here) (last, n, e)
      | inr later ↦ loop-StepsAt fuel pt lastpc n.0 n.1 rest k (omega arith) below
    ]
  where
    Nat-cases : (a b : ℕ) → a ≤ b → (a ≡ b) ⊎ (suc a ≤ b)
    Nat-cases a b h = omega arith

return_number : (n : ℕ) → n ≡ opcode_number op_return → opcode_of n ≡ some op_return
unfolding opcode_number opcode_of
return_number n e = rw e

final_at :
    (pt : Proto) (i : ℕ)
    → final_instruction pt ≡ ok i
    → get_elem? (header pt).code (sizecode pt - 1) ≡ some i
final_at pt i h = elim (Bool-cases (sizecode pt == 0)) [
  | inl e ↦ absurd (faults (rw e at h))
  | inr e ↦ at-eq-ok _ (rw e at h)
]
  where
    faults : fault ≡ ok i → ⊥
    faults e = cc

precheck_facts :
    (pt : Proto)
    → precheck pt ≡ ok tt
    → ((header pt).maxstacksize ≤ maxstack)
      × ((i : ℕ) × (get_elem? (header pt).code (sizecode pt - 1) ≡ some i)
          × (opcode_of (get_opcode i) ≡ some op_return))
unfolding precheck
precheck_facts pt h =
    let ends : ℕ → Check (Unit {0}) = λ i. check (is_op (get_opcode i) op_return) in
    let lines = length (header pt).lineinfo == sizecode pt || length (header pt).lineinfo == 0 in
    let (_, small, h1) =
      >>=-eq-ok (check (leb (header pt).maxstacksize maxstack))
        (λ _. check lines >> (final_instruction pt >>= ends)) h in
    let (_, _, h2) = >>=-eq-ok (check lines) (λ _. final_instruction pt >>= ends) h1 in
    let (i, e, h3) = >>=-eq-ok (final_instruction pt) ends h2 in
    (
      leb→le _ _ (check-eq-ok _ small),
      (i, final_at pt i e, return_number _ ((==_iff _ _).0 (check-eq-ok _ h3))),
    )

-- the destination of a jump with operand `sBx` at `pc`
abbrev pub dest : ℕ → ℕ → ℤ
dest pc i = pos (pc + 1) +ℤ getarg_sbx i

-- OP_JMP and OP_FORLOOP lead to a position of the code; OP_TFORPREP jumps too, but the source does not
-- check where to.
abbrev pub JumpsInto : Proto → ℕ → ℕ → OpCode → Type 0
JumpsInto pt pc i jmp = (pos 0 ≤ℤ dest pc i) × (pos_part (dest pc i) < sizecode pt)
JumpsInto pt pc i forloop = (pos 0 ≤ℤ dest pc i) × (pos_part (dest pc i) < sizecode pt)
JumpsInto pt pc i _ = Unit {0}

-- A global is named by a constant that is a string.
abbrev pub NamesGlobal : Proto → ℕ → OpCode → Type 0
NamesGlobal pt i getglobal =
    (k : Constant) × (get_elem? (header pt).k (getarg_bx i) ≡ some k) × (is_string k ≡ true)
NamesGlobal pt i setglobal =
    (k : Constant) × (get_elem? (header pt).k (getarg_bx i) ≡ some k) × (is_string k ≡ true)
NamesGlobal pt i _ = Unit {0}

-- An upvalue is one of the function's.
abbrev pub HasUpvalue : Proto → ℕ → OpCode → Type 0
HasUpvalue pt i getupval = getarg_b i < (header pt).nups
HasUpvalue pt i setupval = getarg_b i < (header pt).nups
HasUpvalue pt i _ = Unit {0}

-- A test is followed by a jump.
abbrev pub JumpFollows : Proto → ℕ → Bool → Type 0
JumpFollows pt pc true =
    (j : ℕ) × (get_elem? (header pt).code (pc + 1) ≡ some j) × (opcode_of (get_opcode j) ≡ some jmp)
JumpFollows pt pc false = Unit {0}

-- What the instruction at `pc` can rely on.
pub record Legal (pt : Proto) (pc : ℕ) : Type 0 where
  pub i : ℕ
  pub op : OpCode
  pub fetched : get_elem? (header pt).code pc ≡ some i
  pub known : opcode_of (get_opcode i) ≡ some op
  pub in_frame : to_int (getarg_a i) +ℤ pos 1 ≤ℤ pos (header pt).maxstacksize
  pub jumps : JumpsInto pt pc i op
  pub globals : NamesGlobal pt i op
  pub upvalues : HasUpvalue pt i op
  pub tests : JumpFollows pt pc (test_op_mode op 7)

-- Each of these from the operations that it is about.
module _ (pt : Proto) (pc i : ℕ) where
  jumps_of :
      (op : OpCode)
      → ((op ≡ jmp) ⊎ (op ≡ forloop) → (pos 0 ≤ℤ dest pc i) × (pos_part (dest pc i) < sizecode pt))
      → JumpsInto pt pc i op
  jumps_of jmp f = f (inl refl)
  jumps_of forloop f = f (inr refl)
  jumps_of _ f = tt

  globals_of :
      (op : OpCode)
      → ((op ≡ getglobal) ⊎ (op ≡ setglobal)
          → (k : Constant) × (get_elem? (header pt).k (getarg_bx i) ≡ some k)
            × (is_string k ≡ true))
      → NamesGlobal pt i op
  globals_of getglobal f = f (inl refl)
  globals_of setglobal f = f (inr refl)
  globals_of _ f = tt

  upvalues_of :
      (op : OpCode)
      → ((op ≡ getupval) ⊎ (op ≡ setupval) → getarg_b i < (header pt).nups)
      → HasUpvalue pt i op
  upvalues_of getupval f = f (inl refl)
  upvalues_of setupval f = f (inr refl)
  upvalues_of _ f = tt

  tests_of :
      (b : Bool)
      → (b ≡ true
          → (j : ℕ) × (get_elem? (header pt).code (pc + 1) ≡ some j)
            × (opcode_of (get_opcode j) ≡ some jmp))
      → JumpFollows pt pc b
  tests_of true f = f refl
  tests_of false f = tt

module _ (pt : Proto) (s : Frame) (i : ℕ) (a b c : ℤ) (last : ℕ) (n : Next)
    (r : s.reg ≡ pos no_reg) where
  jump_operand :
      (op : OpCode) → (op ≡ jmp) ⊎ (op ≡ forloop) → operands pt op i ≡ ok (b, c) → getarg_sbx i ≡ b
  unfolding operands get_op_mode opmodes
  jump_operand jmp o h = ground arith
  jump_operand forloop o h = ground arith
  jump_operand _ (inl o) h = cc
  jump_operand _ (inr o) h = cc

  jump_checked :
      (op : OpCode)
      → (op ≡ jmp) ⊎ (op ≡ forloop)
      → execute pt s op a b c last ≡ ok n
      → (pos 0 ≤ℤ pos (s.pc + 1) +ℤ b) × (pos_part (pos (s.pc + 1) +ℤ b) < sizecode pt)
  unfolding execute
  jump_checked jmp o h = let (_, lo, hi) = check_jump-next pt s b last r h in (lo, hi)
  jump_checked forloop o h = let (_, lo, hi) = check_forloop-next pt s a b last r h in (lo, hi)
  jump_checked _ (inl o) h = cc
  jump_checked _ (inr o) h = cc

  global_operand :
      (op : OpCode)
      → (op ≡ getglobal) ⊎ (op ≡ setglobal)
      → operands pt op i ≡ ok (b, c)
      → b ≡ pos (getarg_bx i)
  unfolding operands get_op_mode opmodes test_op_mode
  global_operand getglobal o h = ground arith
  global_operand setglobal o h = ground arith
  global_operand _ (inl o) h = cc
  global_operand _ (inr o) h = cc

  global_checked :
      (op : OpCode)
      → (op ≡ getglobal) ⊎ (op ≡ setglobal)
      → execute pt s op a b c last ≡ ok n
      → (k : Constant) × (get_elem? (header pt).k (pos_part b) ≡ some k) × (is_string k ≡ true)
  unfolding execute
  global_checked getglobal o h = ground arith
  global_checked setglobal o h = ground arith
  global_checked _ (inl o) h = cc
  global_checked _ (inr o) h = cc

  upvalue_checked :
      (op : OpCode)
      → (op ≡ getupval) ⊎ (op ≡ setupval)
      → operands pt op i ≡ ok (b, c)
      → execute pt s op a b c last ≡ ok n
      → getarg_b i < (header pt).nups
  unfolding operands get_op_mode opmodes test_op_mode execute
  upvalue_checked getupval o g h = ground arith
  upvalue_checked setupval o g h = ground arith
  upvalue_checked _ (inl o) g h = cc
  upvalue_checked _ (inr o) g h = cc

jump_number : (n : ℕ) → n ≡ opcode_number jmp → opcode_of n ≡ some jmp
unfolding opcode_number opcode_of
jump_number n e = rw e

skip_checked :
    (pt : Proto) (op : OpCode) (pc : ℕ)
    → check_skip pt op pc ≡ ok tt
    → test_op_mode op 7 ≡ true
    → (j : ℕ) × (get_elem? (header pt).code (pc + 1) ≡ some j)
      × (opcode_of (get_opcode j) ≡ some jmp)
unfolding check_skip
skip_checked pt op pc h t =
    let follow : ℕ → Check (Unit {0}) = λ j. check (is_op (get_opcode j) jmp) in
    let (_, _, h1) =
      >>=-eq-ok (check (ltb (pc + 2) (sizecode pt))) (λ _. instruction pt (pc + 1) >>= follow)
        (rw t at h) in
    let (j, e, h2) = >>=-eq-ok (instruction pt (pc + 1)) follow h1 in
    (j, at-eq-ok _ e, jump_number _ ((==_iff _ _).0 (check-eq-ok _ h2)))

Passed-Legal :
    (pt : Proto) (s : Frame) (n : Next) → s.reg ≡ pos no_reg → Passed pt s n → Legal pt s.pc
Passed-Legal pt s n r p =
    let a = to_int (getarg_a p.i) in
    record {
      i = p.i;
      op = p.op;
      fetched = p.fetched;
      known = p.known;
      in_frame = in_frame_of a (check-eq-ok _ p.in_frame);
      jumps = jumps_of pt s.pc p.i p.op λ o.
          rw (jump_operand pt s p.i a p.b p.c p.last n r p.op o p.read)
            (jump_checked pt s p.i a p.b p.c p.last n r p.op o p.executed);
      globals = globals_of pt s.pc p.i p.op λ o.
          rw (global_operand pt s p.i a p.b p.c p.last n r p.op o p.read) at
            (global_checked pt s p.i a p.b p.c p.last n r p.op o p.executed);
      upvalues =
          upvalues_of pt s.pc p.i p.op
            λ o. upvalue_checked pt s p.i a p.b p.c p.last n r p.op o p.read p.executed;
      tests = tests_of pt s.pc p.i (test_op_mode p.op 7) λ t. skip_checked pt p.op s.pc p.skips t;
    }
  where
    in_frame_of :
        (a : ℤ)
        → ltb_ℤ a (pos (header pt).maxstacksize) ≡ true
        → a +ℤ pos 1 ≤ℤ pos (header pt).maxstacksize
    in_frame_of a h = omega (arith, +ℤ_parts a (pos 1), ltb→lt _ _ h)

-- Where `luaG_checkcode` accepts a function, each position of its code holds a known operation whose
-- `A` lies below the frame's end, whose destination lies in the code if it is OP_JMP or OP_FORLOOP,
-- whose global is named by a string constant, whose upvalue exists, and which is followed by a jump if
-- it is a test.
pub checkcode-Legal :
    (pt : Proto) (r : ℕ) → checkcode pt ≡ ok r → (pc : ℕ) → pc < sizecode pt → Legal pt pc
unfolding checkcode
checkcode-Legal pt r h pc below =
    let (_, pre, h1) = >>=-eq-ok (precheck pt) _ h in
    let start : Frame = record {
      lastpc = sizecode pt;
      reg = pos no_reg;
      pc = 0;
      last = sizecode pt - 1;
    } in
    let (l, e, _) = >>=-eq-ok (symbexec_loop (sizecode pt) pt start) (instruction pt) h1 in
    let (last, n, st) = loop-StepsAt (sizecode pt) pt (sizecode pt) 0 _ e pc (omega arith) below in
    let s : Frame = record { lastpc = sizecode pt; reg = pos no_reg; pc = pc; last = last } in
    Passed-Legal pt s n refl (step-Passed pt s st)

-- An accepted function has a frame of at most MAXSTACK registers, and its code ends with a return.
pub checkcode_ends :
    (pt : Proto) (r : ℕ)
    → checkcode pt ≡ ok r
    → ((header pt).maxstacksize ≤ maxstack)
      × ((i : ℕ) × (get_elem? (header pt).code (sizecode pt - 1) ≡ some i)
          × (opcode_of (get_opcode i) ≡ some op_return))
unfolding checkcode
checkcode_ends pt r h = let (_, pre, _) = >>=-eq-ok (precheck pt) _ h in precheck_facts pt pre
