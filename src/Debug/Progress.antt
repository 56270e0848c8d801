-- ===== src/Debug/Progress.antt =====
-- Each round of the symbolic execution moves forward, so that the loop ends.
use primemover.Prelude.{
  ℕ, zero, suc, ◌+◌, ◌≤◌, ◌<◌, ◌≡◌, ◌≢◌, arith, inl, inr, if◌then◌else◌, get_elem?, some,
}
use primemover.Prelude.Int.{ℤ, leb_ℤ, pos, ◌+ℤ◌}
use primemover.Proto.{Proto, header}
use primemover.Opcodes.{get_opcode, getarg_a}
use primemover.Opcodes.Mode.{OpCode, opcode_of, jmp, forloop, tforloop, call, tailcall, closure}
use primemover.Debug.{
  Frame, execute, check_jump, check_call, check_closure, check_upvalues, check_forloop, checkreg,
  operands, check_skip, instruction, to_int, precheck, step, symbexec_loop, symbexec, Next,
}
use primemover.Debug.Outcome.{
  >>=-eq-ok, at-eq-ok, >>=-fuel, check-fuel, at-fuel, Check-cases, ok, out_of_fuel, at,
}

check_jump-lt :
    (pt : Proto) (s : Frame) (b : ℤ) (last : ℕ) {n : Next}
    → check_jump pt s b last ≡ ok n
    → s.pc < n.0
unfolding check_jump
check_jump-lt pt s b last h = ground arith

check_call-lt :
    (pt : Proto) (s : Frame) (a b c : ℤ) (last : ℕ) {n : Next}
    → check_call pt s a b c last ≡ ok n
    → s.pc < n.0
unfolding check_call
check_call-lt pt s a b c last h = ground arith

check_forloop-lt :
    (pt : Proto) (s : Frame) (a b : ℤ) (last : ℕ) {n : Next}
    → check_forloop pt s a b last ≡ ok n
    → s.pc < n.0
unfolding check_forloop
check_forloop-lt pt s a b last {n} h =
    let (u, _, e) = >>=-eq-ok (checkreg pt (a +ℤ pos 2)) _ h in check_jump-lt pt s b last e

check_closure-lt :
    (pt : Proto) (s : Frame) (b : ℤ) (last : ℕ) {n : Next}
    → check_closure pt s b last ≡ ok n
    → s.pc < n.0
unfolding check_closure
check_closure-lt pt s b last h = ground arith

execute-lt :
    (pt : Proto) (s : Frame) (op : OpCode) (a b c : ℤ) (last : ℕ) {n : Next}
    → execute pt s op a b c last ≡ ok n
    → s.pc < n.0
unfolding execute
execute-lt pt s jmp a b c last h = check_jump-lt pt s b last h
execute-lt pt s forloop a b c last h = check_forloop-lt pt s a b last h
execute-lt pt s tforloop a b c last h =
    let (_, _, e) = >>=-eq-ok (checkreg pt (a +ℤ c +ℤ pos 5)) _ h in check_forloop-lt pt s a b _ e
execute-lt pt s call a b c last h = check_call-lt pt s a b c last h
execute-lt pt s tailcall a b c last h = check_call-lt pt s a b c last h
execute-lt pt s closure a b c last h = check_closure-lt pt s b last h
execute-lt pt s _ a b c last h = ground arith

-- No round runs out of fuel by itself.
check_upvalues-fuel : (pt : Proto) (pc nup : ℕ) → check_upvalues pt pc nup ≢ out_of_fuel
unfolding check_upvalues
check_upvalues-fuel pt pc zero = cc
check_upvalues-fuel pt pc (suc nup) = ground (arith, check_upvalues-fuel pt pc nup)

check_closure-fuel :
    (pt : Proto) (s : Frame) (b : ℤ) (last : ℕ) → check_closure pt s b last ≢ out_of_fuel
unfolding check_closure
check_closure-fuel pt s b last = grind (arith, check_upvalues-fuel)

check_call-fuel :
    (pt : Proto) (s : Frame) (a b c : ℤ) (last : ℕ) → check_call pt s a b c last ≢ out_of_fuel
unfolding check_call
check_call-fuel pt s a b c last = ground arith

check_jump-fuel : (pt : Proto) (s : Frame) (b : ℤ) (last : ℕ) → check_jump pt s b last ≢ out_of_fuel
unfolding check_jump
check_jump-fuel pt s b last = ground arith

check_forloop-fuel :
    (pt : Proto) (s : Frame) (a b : ℤ) (last : ℕ) → check_forloop pt s a b last ≢ out_of_fuel
unfolding check_forloop
check_forloop-fuel pt s a b last = ground (arith, check_jump-fuel pt s b last)

execute-fuel :
    (pt : Proto) (s : Frame) (op : OpCode) (a b c : ℤ) (last : ℕ)
    → execute pt s op a b c last ≢ out_of_fuel
unfolding execute
execute-fuel pt s jmp a b c last = check_jump-fuel pt s b last
execute-fuel pt s forloop a b c last = check_forloop-fuel pt s a b last
execute-fuel pt s tforloop a b c last =
    ground (arith, check_forloop-fuel pt s a b (if leb_ℤ a s.reg then s.pc else last))
execute-fuel pt s call a b c last = check_call-fuel pt s a b c last
execute-fuel pt s tailcall a b c last = check_call-fuel pt s a b c last
execute-fuel pt s closure a b c last = check_closure-fuel pt s b last
execute-fuel pt s _ a b c last = ground arith

operands-fuel : (pt : Proto) (op : OpCode) (i : ℕ) → operands pt op i ≢ out_of_fuel
unfolding operands
operands-fuel pt op i = ground arith

check_skip-fuel : (pt : Proto) (op : OpCode) (pc : ℕ) → check_skip pt op pc ≢ out_of_fuel
unfolding check_skip
check_skip-fuel pt op pc = ground arith

-- Inversion of a successful round: each of its checks passed.
pub record Passed (pt : Proto) (s : Frame) (n : Next) : Type 0 where
  pub i : ℕ
  pub op : OpCode
  pub b : ℤ
  pub c : ℤ
  pub last : ℕ
  pub fetched : get_elem? (header pt).code s.pc ≡ some i
  pub in_frame : checkreg pt (to_int (getarg_a i)) ≡ ok tt
  pub known : opcode_of (get_opcode i) ≡ some op
  pub read : operands pt op i ≡ ok (b, c)
  pub skips : check_skip pt op s.pc ≡ ok tt
  pub executed : execute pt s op (to_int (getarg_a i)) b c last ≡ ok n

pub step-Passed : (pt : Proto) (s : Frame) {n : Next} → step pt s ≡ ok n → Passed pt s n
unfolding step
step-Passed pt s h =
    let (i, e1, h1) = >>=-eq-ok (instruction pt s.pc) _ h in
    let (u, e2, h2) = >>=-eq-ok (checkreg pt (to_int (getarg_a i))) _ h1 in
    let (op, e3, h3) = >>=-eq-ok (at (opcode_of (get_opcode i))) _ h2 in
    let (bc, e4, h4) = >>=-eq-ok (operands pt op i) _ h3 in
    let (v, e5, h5) = >>=-eq-ok (check_skip pt op s.pc) _ h4 in
    record {
      i = i;
      op = op;
      b = bc.0;
      c = bc.1;
      last = _;
      fetched = at-eq-ok _ e1;
      in_frame = e2;
      known = at-eq-ok _ e3;
      read = e4;
      skips = e5;
      executed = h5;
    }

step-lt : (pt : Proto) (s : Frame) {n : Next} → step pt s ≡ ok n → s.pc < n.0
step-lt pt s h =
    let p = step-Passed pt s h in
    execute-lt pt s p.op (to_int (getarg_a p.i)) p.b p.c p.last p.executed

step-fuel : (pt : Proto) (s : Frame) → step pt s ≢ out_of_fuel
unfolding step
step-fuel pt s = >>=-fuel (instruction pt s.pc) _ (at-fuel _) λ i.
    >>=-fuel (checkreg pt (to_int (getarg_a i))) _ (check-fuel _) λ _.
      >>=-fuel (at (opcode_of (get_opcode i))) _ (at-fuel _) λ op.
        >>=-fuel (operands pt op i) _ (operands-fuel pt op i) λ bc.
          >>=-fuel (check_skip pt op s.pc) _ (check_skip-fuel pt op s.pc)
            λ _. execute-fuel pt s op _ _ _ _

loop-fuel :
    (fuel : ℕ) (pt : Proto) (s : Frame)
    → s.lastpc ≤ s.pc + fuel
    → symbexec_loop fuel pt s ≢ out_of_fuel
unfolding symbexec_loop
loop-fuel zero pt s h = ground arith
loop-fuel (suc fuel) pt s h = elim (Check-cases (step pt s)) [
  | inl (n, e) ↦
      rw e (ground (arith, loop-fuel fuel pt (record s { pc = n.0; last = n.1 }), step-lt pt s e))
  | inr (inl e) ↦ rw e (ground arith)
  | inr (inr (inl e)) ↦ rw e (ground arith)
  | inr (inr (inr e)) ↦ absurd (step-fuel pt s e)
]

precheck-fuel : (pt : Proto) → precheck pt ≢ out_of_fuel
unfolding precheck
precheck-fuel pt = ground arith

-- The symbolic execution of any prototype ends: the rounds given to the loop are enough.
pub symbexec-fuel : (pt : Proto) (lastpc : ℕ) (reg : ℤ) → symbexec pt lastpc reg ≢ out_of_fuel
unfolding symbexec
symbexec-fuel pt lastpc reg =
    >>=-fuel (precheck pt) _ (precheck-fuel pt)
      λ _. >>=-fuel _ _ (loop-fuel lastpc pt _ (omega arith)) λ last. at-fuel _
