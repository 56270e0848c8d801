-- ===== src/JumpLists.antt =====
-- lua/lcode.c: the lists of jumps that wait for their destination. A list runs through the operands
-- sBx of its jumps. The code is a function on positions; a position is an int, and NO_JUMP is -1.
pub mod Concat
mod Tests
use primemover.Prelude.{ℕ, zero, suc, ◌+◌, Bool, true, false, ◌||◌, ◌==◌, if◌then◌else◌}
use primemover.Prelude.Int.{ℤ, pos, negsuc, ◌+ℤ◌, ◌-ℤ◌, eqb_ℤ, ltb_ℤ}
use primemover.Opcodes.{getarg_sbx, setarg_sbx, maxarg_sbx}

abbrev pub no_jump : ℤ
no_jump = negsuc 0

-- The code with the head of a list, or what stops the call; `outside` is a jump in front of the code.
pub data Patched : Type 0 where
  patched : (ℕ → ℕ) → ℤ → Patched
  too_long outside out_of_fuel : Patched

-- luaK_getjump
unfoldable pub getjump : (ℕ → ℕ) → ℕ → ℤ
getjump code pc =
    let offset = getarg_sbx (code pc) in
    if eqb_ℤ offset no_jump then no_jump else pos (pc + 1) +ℤ offset

abbrev pub put_instruction : (ℕ → ℕ) → ℕ → ℕ → ℕ → ℕ
put_instruction code pc i x = if x == pc then i else code x

-- luaK_fixjump, in a list that begins at `l`
unfoldable pub fixjump : (ℕ → ℕ) → ℤ → ℕ → ℤ → Patched
fixjump code l pc dest =
    let offset = dest -ℤ pos (pc + 1) in
    if ltb_ℤ (pos maxarg_sbx) offset || ltb_ℤ offset (pos 0 -ℤ pos maxarg_sbx)
    then too_long
    else patched (put_instruction code pc (setarg_sbx (code pc) offset)) l

-- the loop of luaK_concat, at the element `list`, on fuel
unfoldable pub concat_loop : ℕ → (ℕ → ℕ) → ℤ → (list : ℕ) → ℤ → Patched
concat_loop zero code l list l2 = out_of_fuel
concat_loop (suc fuel) code l list l2 = elim (getjump code list) [
  | pos next ↦ concat_loop fuel code l next l2
  | negsuc zero ↦ fixjump code l list l2
  | negsuc (suc k) ↦ outside
]

-- luaK_concat
unfoldable pub concat : ℕ → (ℕ → ℕ) → ℤ → ℤ → Patched
concat fuel code l1 (negsuc zero) = patched code l1
concat fuel code (pos l) (pos k) = concat_loop fuel code (pos l) l (pos k)
concat fuel code (pos l) (negsuc (suc k)) = concat_loop fuel code (pos l) l (negsuc (suc k))
concat fuel code (negsuc zero) (pos k) = patched code (pos k)
concat fuel code (negsuc zero) (negsuc (suc k)) = patched code (negsuc (suc k))
concat fuel code (negsuc (suc j)) (pos k) = outside
concat fuel code (negsuc (suc j)) (negsuc (suc k)) = outside
