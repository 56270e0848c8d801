-- ===== src/Modes.antt =====
-- lua/modemuncher.h: the permission bits of a file, read from `rwxrwxrwx` or from clauses such as
-- `ug+rw,o-x`, and printed. A `mode_t` has 32 bits. A `char *` is the memory from where it points to
-- the end of the array, the zero that ends the string included; `fault` is a read behind that.
use primemover.Prelude.{
  ℕ, zero, suc, ◌+◌, Bool, true, false, not, ◌||◌, Option, none, some, List, [], ◌∷◌, ◌++◌, map,
  set, length, bit_and, bit_or, ◌==◌, if◌then◌else◌,
}
use primemover.Prelude.Bits.{bit_not}
use primemover.Proto.{Bytes}
pub mod Clauses
pub mod Chop
pub mod Letters
mod Tests

-- What a call returns, with `*mode` as it leaves it: `failed k` is the return of -k.
pub data Munched : Type 0 where
  done : (mode : ℕ) → Munched
  failed : (code mode : ℕ) → Munched
  fault out_of_fuel : Munched

pub record ModeLookup : Type 0 where
  rwx : ℕ
  bits : ℕ

abbrev lookup : ℕ → ℕ → ModeLookup
lookup c b = record { rwx = c; bits = b }

-- `modesel` without the row behind its end, which no loop reaches
unfoldable pub modesel : List ModeLookup
modesel =
    lookup b'r' 256
    ∷ lookup b'w' 128
    ∷ lookup b'x' 64
    ∷ lookup b'r' 32
    ∷ lookup b'w' 16
    ∷ lookup b'x' 8
    ∷ lookup b'r' 4
    ∷ lookup b'w' 2
    ∷ lookup b'x' 1
    ∷ []

abbrev pub s_isuid : ℕ
s_isuid = 2048

abbrev pub s_isgid : ℕ
s_isgid = 1024

abbrev pub s_ixusr : ℕ
s_ixusr = 64

abbrev pub s_ixgrp : ℕ
s_ixgrp = 8

-- one character of `rwxrwxrwx`, the one at `count`; `none` is the return of -4
unfoldable pub rwx_char : ℕ → ModeLookup → ℕ → ℕ → Option ℕ
rwx_char count sel c tmp_mode =
    if c == sel.rwx
    then some (bit_or tmp_mode sel.bits)
    else if c == b'-'
    then some (bit_and tmp_mode (bit_not 32 sel.bits))
    else if not (c == b's')
    then some tmp_mode
    else if count == 2
    then some (bit_or tmp_mode (bit_or s_isuid s_ixusr))
    else if count == 5
    then some (bit_or tmp_mode (bit_or s_isgid s_ixgrp))
    else none

unfoldable pub rwx_loop : ℕ → ℕ → List ModeLookup → Bytes → ℕ → Munched
rwx_loop mode count [] p tmp_mode = done tmp_mode
rwx_loop mode count (sel ∷ sels) [] tmp_mode = fault
rwx_loop mode count (sel ∷ sels) (c ∷ p) tmp_mode = elim (rwx_char count sel c tmp_mode) [
  | none ↦ failed 4 mode
  | some t ↦ rwx_loop mode (count + 1) sels p t
]

unfoldable pub rwxrwxrwx : ℕ → Bytes → Munched
rwxrwxrwx mode p = rwx_loop mode 0 modesel p (bit_and mode (bit_not 32 (bit_or s_isuid s_isgid)))

abbrev pub has : ℕ → ℕ → Bool
has mode bits = not (bit_and mode bits == 0)

-- `if (mode & flag) pp[i] = (mode & x) ? 's' : 'S'`
unfoldable pub chop_flag : ℕ → ℕ → ℕ → ℕ → Bytes → Bytes
chop_flag mode flag x i p = if has mode flag then set p i (if has mode x then b's' else b'S') else p

unfoldable pub modechopper : ℕ → Bytes
unfolding modesel chop_flag
modechopper mode =
    let chars = map (λ sel. if has mode sel.bits then sel.rwx else b'-') modesel ++ 0 ∷ [] in
    chop_flag mode s_isgid s_ixgrp 5 (chop_flag mode s_isuid s_ixusr 2 chars)

-- step 1: the bits of one letter; `none` is no letter for who is affected
unfoldable pub who_letter : ℕ → Option ℕ
who_letter c =
    if c == b'u'
    then some 2496
    else if c == b'g'
    then some 1080
    else if c == b'o'
    then some 519
    else if c == b'a'
    then some 4095
    else if c == b' '
    then some 0
    else none

-- step 3: the bits of one letter; the zero at the end of the string is no letter either
unfoldable pub change_letter : ℕ → Option ℕ
change_letter c =
    if c == b'r'
    then some 292
    else if c == b'w'
    then some 146
    else if c == b'x'
    then some 73
    else if c == b's'
    then some 3072
    else if c == b' '
    then some 0
    else none

-- the loops of steps 1 and 3: the bits of the letters, and where the letters stop
unfoldable pub letters : (ℕ → Option ℕ) → ℕ → Bytes → Option (ℕ × Bytes)
letters letter bits [] = none
letters letter bits (c ∷ p) = elim (letter c) [
  | none ↦ some (bits, c ∷ p)
  | some b ↦ letters letter (bit_or bits b) p
]

-- step 2: a space leaves the operator as it was; `none` is the return of -1
unfoldable pub operator : ℕ → ℕ → Option ℕ
operator c op =
    if c == b'+' || c == b'-' || c == b'=' then some c else if c == b' ' then some op else none

-- step 4: `none` is the return of -3
unfoldable pub alter : ℕ → ℕ → ℕ → ℕ → Option ℕ
alter mode op affected ch_mode =
    if ch_mode == 0
    then some mode
    else if op == b'+'
    then some (bit_or mode (bit_and ch_mode affected))
    else if op == b'-'
    then some (bit_and mode (bit_not 32 (bit_and ch_mode affected)))
    else if op == b'='
    then some (bit_and ch_mode affected)
    else none

-- One turn of the outer loop: the mode, the operator and where the next turn starts.
pub data Turn : Type 0 where
  next : (mode op : ℕ) → Bytes → Turn
  stop : Munched → Turn

unfoldable pub finish : ℕ → ℕ → ℕ → ℕ → Bytes → Turn
finish mode op affected ch_mode [] = stop fault
finish mode op affected ch_mode (c ∷ p) =
    if not (c == 0 || c == b' ' || c == b',')
    then stop (failed 2 mode)
    else elim (alter mode op affected ch_mode) [
      | none ↦ stop (failed 3 mode)
      | some m ↦ if c == b',' then next m op p else stop (done m)
    ]

unfoldable pub specs : ℕ → ℕ → ℕ → Bytes → Turn
specs mode op affected p = elim (letters change_letter 0 p) [
  | none ↦ stop fault
  | some (ch_mode, p') ↦ finish mode op affected ch_mode p'
]

unfoldable pub operate : ℕ → ℕ → ℕ → Bytes → Turn
operate mode op affected [] = stop fault
operate mode op affected (c ∷ p) = elim (operator c op) [
  | none ↦ stop (failed 1 mode)
  | some o ↦ specs mode o affected p
]

unfoldable pub turn : ℕ → ℕ → Bytes → Turn
turn mode op [] = stop fault
turn mode op (c ∷ p) =
    if c == b'r' || c == b'-'
    then stop (rwxrwxrwx mode (c ∷ p))
    else elim (letters who_letter 0 (c ∷ p)) [
      | none ↦ stop fault
      | some (affected, p') ↦ operate mode op (if affected == 0 then 4095 else affected) p'
    ]

unfoldable pub munch_loop : ℕ → ℕ → ℕ → Bytes → Munched
munch_loop zero mode op p = out_of_fuel
munch_loop (suc fuel) mode op p = elim (turn mode op p) [
  | next m o p' ↦ munch_loop fuel m o p'
  | stop r ↦ r
]

-- Each turn but the last passes a comma: more turns than bytes are not needed.
unfoldable pub mode_munch : ℕ → Bytes → Munched
mode_munch mode p = munch_loop (suc (length p)) mode 0 p
