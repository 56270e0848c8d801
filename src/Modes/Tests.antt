-- ===== src/Modes/Tests.antt =====
-- lua/modemuncher.h: modes at concrete inputs.
use primemover.Prelude.{[], ◌∷◌, ◌++◌, ◌≡◌, ◌⊎◌, inl, inr, refl, codes, arith}
use primemover.Modes.{done, failed, fault, mode_munch, rwxrwxrwx, modechopper}
use primemover.Modes.Letters.{rwxrwxrwx_short}
use primemover.Modes.Chop.{rwxrwxrwx-modechopper}
use primemover.Modes.Clauses.{
  Clause, user, group, other, add, remove, read, write, execute, print, effects, mode_munch-print,
}

abbrev share : Clause
share = record { who = user ∷ group ∷ []; operator = add; changes = read ∷ write ∷ [] }

abbrev protect : Clause
protect = record { who = other ∷ []; operator = remove; changes = execute ∷ [] }

-- "ug+rw,o-x"
mode_munch-print_example :
    mode_munch 1 (print share (protect ∷ []) ++ 0 ∷ []) ≡ done (effects (share ∷ protect ∷ []) 1)
mode_munch-print_example = mode_munch-print 1 share (protect ∷ []) (inl cc) (inl cc, tt)

-- rwsr-x---
rwxrwxrwx-modechopper_example : rwxrwxrwx 4095 (modechopper 2536) ≡ done 3048
rwxrwxrwx-modechopper_example = rwxrwxrwx-modechopper 2536 4095 (omega arith) refl (inr refl)

-- "-x", which is no clause that removes a bit
rwxrwxrwx_short_example :
    (rwxrwxrwx 511 (codes "-x" ++ 0 ∷ []) ≡ fault)
    ⊎ (rwxrwxrwx 511 (codes "-x" ++ 0 ∷ []) ≡ failed 4 511)
rwxrwxrwx_short_example = rwxrwxrwx_short 511 (codes "-x") (omega arith)
