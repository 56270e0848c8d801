-- ===== src/Debug.antt =====
-- lua/ldebug.c: symbolic execution, which checks the code of a loaded function. The ints of the
-- source are ℤ. `none` of `code` and of the other arrays outside their bounds is a fault.
pub mod Outcome
pub mod Progress
pub mod Soundness
mod Tests
use primemover.Prelude.{
  ℕ, zero, suc, ◌+◌, ◌-◌, ◌^◌, bit_and, Bool, true, false, ◌&&◌, ◌||◌, not, ltb, leb, ◌==◌,
  if◌then◌else◌, Option, none, some, length, get_elem?,
}
use primemover.Prelude.Int.{ℤ, pos, negsuc, ◌+ℤ◌, ◌-ℤ◌, ltb_ℤ, leb_ℤ, eqb_ℤ, pos_part}
use primemover.Proto.{Proto, Header, header, inner, sizep, proto_at?, is_string}
use primemover.Opcodes.{get_opcode, getarg_a, getarg_b, getarg_c, getarg_bx, getarg_sbx, no_reg}
use primemover.Opcodes.Mode.{
  OpMode, i_abc, i_abx, i_asbx, OpCode, loadbool, loadnil, getupval, setupval, getglobal, setglobal,
  self, concat, tforloop, forloop, jmp, call, tailcall, op_return, setlist, setlisto, closure, move,
  opcode_of, opcode_number, get_op_mode, test_op_mode, op_mode_breg, op_mode_brk, op_mode_crk,
  op_modeset_a, op_mode_k, op_mode_t,
}
use Outcome.{Check, ok, rejected, fault, out_of_fuel, ◌>>=◌, ◌>>◌, check, when, at}

abbrev pub maxstack : ℕ
maxstack = 250

-- the int that a pattern of 32 bits stands for
abbrev pub to_int : ℕ → ℤ
to_int w = if ltb w (2 ^ 31) then pos w else negsuc (2 ^ 32 - w - 1)

-- `op == OP_X`, for the number of an operation
abbrev pub is_op : ℕ → OpCode → Bool
is_op n o = n == opcode_number o

abbrev pub sizecode : Proto → ℕ
sizecode pt = length (header pt).code

abbrev pub instruction : Proto → ℕ → Check ℕ
instruction pt pc = at (get_elem? (header pt).code pc)

abbrev pub checkreg : Proto → ℤ → Check (Unit {0})
checkreg pt r = check (ltb_ℤ r (pos (header pt).maxstacksize))

-- `pt->code[pt->sizecode-1]`
abbrev pub final_instruction : Proto → Check ℕ
final_instruction pt = if sizecode pt == 0 then fault else instruction pt (sizecode pt - 1)

unfoldable pub precheck : Proto → Check (Unit {0})
precheck pt = do
  check (leb (header pt).maxstacksize maxstack)
  check (length (header pt).lineinfo == sizecode pt || length (header pt).lineinfo == 0)
  i ← final_instruction pt
  check (is_op (get_opcode i) op_return)

unfoldable pub checkopenop : Proto → ℕ → Check (Unit {0})
checkopenop pt pc = do
  i ← instruction pt (pc + 1)
  let o = get_opcode i
  if is_op o call || is_op o tailcall || is_op o op_return
      then check (getarg_b i == 0)
      else check (is_op o setlisto)

unfoldable pub check_rk : Proto → ℕ → Bool
check_rk pt r =
    ltb r (header pt).maxstacksize || leb maxstack r && ltb (r - maxstack) (length (header pt).k)

-- the first `switch` of the loop: the operands `b` and `c`
unfoldable pub operands : Proto → OpCode → ℕ → Check (ℤ × ℤ)
unfolding check_rk
operands pt op i = elim (get_op_mode op) [
  | some i_abc ↦ do
    if test_op_mode op op_mode_breg
        then checkreg pt (pos (getarg_b i))
        else when (test_op_mode op op_mode_brk) (check (check_rk pt (getarg_b i)))
    when (test_op_mode op op_mode_crk) (check (check_rk pt (getarg_c i)))
    ok (pos (getarg_b i), pos (getarg_c i))
  | some i_abx ↦ do
    when (test_op_mode op op_mode_k) (check (ltb (getarg_bx i) (length (header pt).k)))
    ok (pos (getarg_bx i), pos 0)
  | some i_asbx ↦ ok (getarg_sbx i, pos 0)
  | none ↦ ok (pos 0, pos 0)
]

-- a test is followed by a jump
unfoldable pub check_skip : Proto → OpCode → ℕ → Check (Unit {0})
check_skip pt op pc = when (test_op_mode op op_mode_t) (do
  check (ltb (pc + 2) (sizecode pt))
  j ← instruction pt (pc + 1)
  check (is_op (get_opcode j) jmp))

-- `for (; nup > 0; nup--)`: the instructions that say where each upvalue comes from
unfoldable pub check_upvalues : Proto → ℕ → ℕ → Check (Unit {0})
check_upvalues pt pc zero = ok tt
check_upvalues pt pc (suc nup) = do
  i ← instruction pt (pc + suc nup)
  check (is_op (get_opcode i) getupval || is_op (get_opcode i) move)
  check_upvalues pt pc nup

-- what the loop knows: where it stands, and what it looks for
pub record Frame : Type 0 where
  pub lastpc : ℕ
  pub reg : ℤ
  pub pc : ℕ
  pub last : ℕ

-- The next value of `pc`, after its increment, and `last`.
abbrev pub Next : Type 0
Next = ℕ × ℕ

abbrev pub step_over : Frame → ℕ → Check Next
step_over s last = ok (s.pc + 1, last)

unfoldable pub check_jump : Proto → Frame → ℤ → ℕ → Check Next
unfolding ◌+ℤ◌
check_jump pt s b last = do
  let dest = pos (s.pc + 1) +ℤ b
  check (leb_ℤ (pos 0) dest && ltb_ℤ dest (pos (sizecode pt)))
  ok (
    if not (eqb_ℤ s.reg (pos no_reg)) && ltb_ℤ (pos s.pc) dest && leb_ℤ dest (pos s.lastpc)
        then pos_part dest
        else s.pc + 1,
    last,
  )

unfoldable pub check_forloop : Proto → Frame → ℤ → ℤ → ℕ → Check Next
unfolding check_jump
check_forloop pt s a b last = do checkreg pt (a +ℤ pos 2); check_jump pt s b last

unfoldable pub check_call : Proto → Frame → ℤ → ℤ → ℤ → ℕ → Check Next
unfolding checkopenop ◌+ℤ◌ ◌-ℤ◌
check_call pt s a b c last = do
  when (not (eqb_ℤ b (pos 0))) (checkreg pt (a +ℤ b -ℤ pos 1))
  let c' = c -ℤ pos 1
  if eqb_ℤ c' (negsuc 0)
      then checkopenop pt s.pc
      else when (not (eqb_ℤ c' (pos 0))) (checkreg pt (a +ℤ c' -ℤ pos 1))
  step_over s (if leb_ℤ a s.reg then s.pc else last)

unfoldable pub check_closure : Proto → Frame → ℤ → ℕ → Check Next
unfolding check_upvalues
check_closure pt s b last = do
  check (ltb_ℤ b (pos (sizep (inner pt))))
  f ← at (proto_at? (inner pt) (pos_part b))
  check (ltb (s.pc + (header f).nups) (sizecode pt))
  check_upvalues pt s.pc (header f).nups
  step_over s last

-- the second `switch` of the loop
unfoldable pub execute : Proto → Frame → OpCode → ℤ → ℤ → ℤ → ℕ → Check Next
execute pt s loadbool a b c last = do
  check (eqb_ℤ c (pos 0) || ltb (s.pc + 2) (sizecode pt))
  step_over s last
execute pt s loadnil a b c last =
    step_over s (if leb_ℤ a s.reg && leb_ℤ s.reg b then s.pc else last)
execute pt s getupval a b c last = do check (ltb_ℤ b (pos (header pt).nups)); step_over s last
execute pt s setupval a b c last = do check (ltb_ℤ b (pos (header pt).nups)); step_over s last
execute pt s getglobal a b c last = do
  k ← at (get_elem? (header pt).k (pos_part b))
  check (is_string k)
  step_over s last
execute pt s setglobal a b c last = do
  k ← at (get_elem? (header pt).k (pos_part b))
  check (is_string k)
  step_over s last
execute pt s self a b c last = do
  checkreg pt (a +ℤ pos 1)
  step_over s (if eqb_ℤ s.reg (a +ℤ pos 1) then s.pc else last)
execute pt s concat a b c last = do check (ltb_ℤ c (pos maxstack) && ltb_ℤ b c); step_over s last
execute pt s tforloop a b c last = do
  checkreg pt (a +ℤ c +ℤ pos 5)
  check_forloop pt s a b (if leb_ℤ a s.reg then s.pc else last)
execute pt s forloop a b c last = check_forloop pt s a b last
execute pt s jmp a b c last = check_jump pt s b last
execute pt s call a b c last = check_call pt s a b c last
execute pt s tailcall a b c last = check_call pt s a b c last
execute pt s op_return a b c last = do
  let b' = b -ℤ pos 1
  when (ltb_ℤ (pos 0) b') (checkreg pt (a +ℤ b' -ℤ pos 1))
  step_over s last
execute pt s setlist a b c last = do
  checkreg pt (a +ℤ pos (bit_and (pos_part b) 31) +ℤ pos 1)
  step_over s last
execute pt s closure a b c last = check_closure pt s b last
execute pt s _ a b c last = step_over s last

-- One round of the loop. `luaP_opmodes[op]` is read without a test that `op` is an operation.
unfoldable pub step : Proto → Frame → Check Next
unfolding operands check_skip execute check_forloop check_call check_closure
step pt s = do
  i ← instruction pt s.pc
  let a = to_int (getarg_a i)
  checkreg pt a
  op ← at (opcode_of (get_opcode i))
  (b, c) ← operands pt op i
  check_skip pt op s.pc
  execute pt s op a b c (if test_op_mode op op_modeset_a && eqb_ℤ a s.reg then s.pc else s.last)

-- `for (pc = 0; pc < lastpc; pc++)`, on fuel; the result is `last`
unfoldable pub symbexec_loop : ℕ → Proto → Frame → Check ℕ
unfolding step
symbexec_loop zero pt s = if ltb s.pc s.lastpc then out_of_fuel else ok s.last
symbexec_loop (suc fuel) pt s =
    let rest = step pt s >>= λ n. symbexec_loop fuel pt (record s { pc = n.0; last = n.1 }) in
    if ltb s.pc s.lastpc then rest else ok s.last

-- `luaG_symbexec`: the last instruction before `lastpc` that changed `reg`
unfoldable pub symbexec : Proto → ℕ → ℤ → Check ℕ
unfolding precheck symbexec_loop
symbexec pt lastpc reg = do
  precheck pt
  last ←
      symbexec_loop lastpc pt
        (record { lastpc = lastpc; reg = reg; pc = 0; last = sizecode pt - 1 })
  instruction pt last

unfoldable pub checkcode : Proto → Check ℕ
unfolding symbexec
checkcode pt = symbexec pt (sizecode pt) (pos no_reg)
