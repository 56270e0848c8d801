-- ===== src/Upvalues/Tests.antt =====
-- Tests of the upvalues.
use primemover.Prelude.{ℕ, [], ◌∷◌, ◌≡◌, refl, arith, ◌*◌, ltb, if◌then◌else◌}
use primemover.Upvalues.{Upvalues, level_of, read_upval, findupval, close}
use primemover.Upvalues.Close.{Descends, close-read_upval}
use primemover.Upvalues.Find.{findupval-slot}

-- Slot i holds 10 * i; the slots 5 and 2 are captured.
abbrev sample : Upvalues ℕ
sample = record {
  stack = λ i. 10 * i;
  openupval = record { address = 7; level = 5 } ∷ record { address = 8; level = 2 } ∷ [];
  value = λ a. 0;
  fresh = 9;
}

sample-Descends : Descends 6 sample.openupval
unfolding level_of
sample-Descends = (omega arith, refl, (omega arith, refl, tt))

-- The slots from 3 on are used for something else.
abbrev cleared : ℕ → ℕ
cleared i = if ltb i 3 then 10 * i else 99

close-read_upval_example :
    read_upval (record (close sample 3) { stack = cleared }) 7 ≡ read_upval sample 7
close-read_upval_example =
    close-read_upval sample 3 6 cleared 7 sample-Descends (λ i h. ground arith)

findupval-slot_example : read_upval (findupval sample 3).0 (findupval sample 3).1 ≡ 30
unfolding level_of
findupval-slot_example = findupval-slot sample 3 6 sample-Descends refl

closed_value : read_upval (record (close sample 3) { stack = cleared }) 7 ≡ 50
unfolding close read_upval
closed_value = refl
