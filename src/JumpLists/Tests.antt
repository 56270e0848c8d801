-- ===== src/JumpLists/Tests.antt =====
-- Two lists of jumps, and the list of both.
use primemover.Prelude.{ℕ, [], ◌∷◌, ◌==◌, if◌then◌else◌, ◌≡◌, refl, arith}
use primemover.Prelude.Int.{pos, ◌+ℤ◌, ◌-ℤ◌}
use primemover.Opcodes.{create_abx, getarg_sbx, getarg_bx}
use primemover.Opcodes.Laws.{IsInstruction, create_abx-reads}
use primemover.JumpLists.{no_jump, patched, too_long, getjump, fixjump, concat_loop, concat}
use primemover.JumpLists.Concat.{IsList, InReach, IsDistinct, Concatenates, concat-Concatenates}

-- The list from 5 goes on to 2, and the one from 14 to 9.
abbrev operand : ℕ → ℕ
operand x = if x == 5 then 131067 else if x == 14 then 131065 else 131070

abbrev jumps : ℕ → ℕ
jumps x = create_abx 22 0 (operand x)

jumps-IsInstruction : (x : ℕ) → IsInstruction (jumps x)
jumps-IsInstruction x =
    let (fits, o, a, bx) =
      create_abx-reads 22 0 (operand x) (omega arith) (omega arith) (ground arith) in
    fits

first-IsList : IsList jumps (pos 5) (5 ∷ 2 ∷ [])
unfolding getjump getarg_sbx getarg_bx create_abx ◌-ℤ◌ ◌+ℤ◌
first-IsList = (refl, (refl, refl))

second-IsList : IsList jumps (pos 14) (14 ∷ 9 ∷ [])
unfolding getjump getarg_sbx getarg_bx create_abx ◌-ℤ◌ ◌+ℤ◌
second-IsList = (refl, (refl, refl))

in_reach : InReach (5 ∷ 2 ∷ 14 ∷ 9 ∷ [])
in_reach = (omega arith, (omega arith, (omega arith, (omega arith, tt))))

distinct : IsDistinct (5 ∷ 2 ∷ 14 ∷ 9 ∷ [])
distinct = (λ h. ground arith, (λ h. ground arith, (λ h. ground arith, (λ h. h, tt))))

concat-Concatenates_example :
    Concatenates jumps (concat 2 jumps (pos 5) (pos 14)) (5 ∷ 2 ∷ []) (14 ∷ 9 ∷ [])
concat-Concatenates_example =
    concat-Concatenates jumps (pos 5) (pos 14) (5 ∷ 2 ∷ []) (14 ∷ 9 ∷ []) jumps-IsInstruction
      first-IsList second-IsList in_reach distinct

empty_first : concat 0 jumps no_jump (pos 14) ≡ patched jumps (pos 14)
unfolding concat
empty_first = refl

too_far : concat 2 jumps (pos 5) (pos 140000) ≡ too_long
unfolding concat concat_loop fixjump getjump getarg_sbx getarg_bx create_abx ◌-ℤ◌ ◌+ℤ◌
too_far = refl
