-- ===== src/Modes/Chop.antt =====
-- lua/modemuncher.h: `rwxrwxrwx` on the text that `modechopper` prints.
use primemover.Prelude.{
  ℕ, zero, suc, ◌<◌, Bool, true, false, not, ◌||◌, ◌&&◌, bit_and, bit_or, ◌==◌, ◌≡◌, ◌⊎◌, inl, inr,
  refl, arith,
}
use primemover.Modes.{
  Munched, done, failed, fault, out_of_fuel, rwxrwxrwx, rwx_loop, rwx_char, modesel, modechopper,
  chop_flag, has, s_isuid, s_isgid, s_ixusr, s_ixgrp,
}

-- A set-id bit without the execute bit beside it is printed `S`, which `rwxrwxrwx` passes over.
abbrev pub executable : ℕ → Bool
executable mode =
    (not (has mode s_isuid) || has mode s_ixusr) && (not (has mode s_isgid) || has mode s_ixgrp)

abbrev is_done : Munched → ℕ → Bool
is_done (done m) n = m == n
is_done (failed k m) n = false
is_done fault n = false
is_done out_of_fuel n = false

abbrev reads_back : ℕ → ℕ → Bool
reads_back base mode =
    not (executable mode)
    || is_done (rwxrwxrwx base (modechopper mode)) (bit_or (bit_and mode 3583) (bit_and base 512))

abbrev all_below : (ℕ → Bool) → ℕ → Bool
all_below test zero = true
all_below test (suc n) = test n && all_below test n

all_below-lem : (test : ℕ → Bool) (n m : ℕ) → all_below test n ≡ true → m < n → test m ≡ true
all_below-lem test zero m h lt = absurd (omega arith)
all_below-lem test (suc n) m h lt = elim (below_cases m n lt) [
  | inl e ↦ rw e (ground arith)
  | inr lt' ↦ all_below-lem test n m (ground arith) lt'
]
  where
    below_cases : (m n : ℕ) → m < suc n → (m ≡ n) ⊎ (m < n)
    below_cases m n lt = ground arith

onto_none : all_below (reads_back 0) 4096 ≡ true
unfolding rwxrwxrwx rwx_loop modesel rwx_char modechopper chop_flag
onto_none = refl

onto_all : all_below (reads_back 4095) 4096 ≡ true
unfolding rwxrwxrwx rwx_loop modesel rwx_char modechopper chop_flag
onto_all = refl

is_done-lem : (x : Munched) (n : ℕ) → is_done x n ≡ true → x ≡ done n
is_done-lem (done m) n h = ground arith
is_done-lem (failed k m) n h = cc
is_done-lem fault n h = cc
is_done-lem out_of_fuel n h = cc

implied : (a b : Bool) → a ≡ true → (not a || b) ≡ true → b ≡ true
implied true b h k = k
implied false b h k = cc

-- The text that `modechopper` prints for a mode of twelve bits, in which a set-id bit stands beside
-- its execute bit, sets the eleven bits but the sticky one to those of the mode when `rwxrwxrwx`
-- applies it, to a mode with no bit as to one with all twelve; the sticky bit stays.
pub rwxrwxrwx-modechopper :
    (mode base : ℕ)
    → mode < 4096
    → executable mode ≡ true
    → (base ≡ 0) ⊎ (base ≡ 4095)
    → rwxrwxrwx base (modechopper mode) ≡ done (bit_or (bit_and mode 3583) (bit_and base 512))
rwxrwxrwx-modechopper mode base lt sane (inl e) =
    rw e (is_done-lem _ _ (implied _ _ sane (all_below-lem (reads_back 0) 4096 mode onto_none lt)))
rwxrwxrwx-modechopper mode base lt sane (inr e) =
    rw e
      (is_done-lem _ _ (implied _ _ sane (all_below-lem (reads_back 4095) 4096 mode onto_all lt)))
