-- ===== src/Objects/Names.antt =====
-- lua/lobject.c: the name that messages give a chunk, in the buffer that is given for it.
use primemover.Prelude.{
  ℕ, ◌+◌, ◌-◌, ◌≤◌, ◌<◌, ◌^◌, Bool, true, false, [], ◌∷◌, ◌++◌, take, length, length-append,
  length-take, length-drop, codes, Option, some, ltb, ◌==◌, if◌then◌else◌, ◌≡◌, refl, arith,
}
use primemover.Proto.{Bytes}
use primemover.Prelude.Int.{pos, ltb_ℤ, as_int, as_int_small}
use primemover.Objects.{chunkid, first_line, file_name, quoted}

first_line-le : (s : Bytes) → first_line s ≤ length s
unfolding first_line
first_line-le [] = omega arith
first_line-le (c ∷ s) = ground (arith, first_line-le s)

Fits-if :
    (n : ℕ) (b : Bool) (x y : Bytes)
    → (b ≡ true → length x < n)
    → (b ≡ false → length y < n)
    → length (if b then x else y) < n
Fits-if n true x y h k = h refl
Fits-if n false x y h k = k refl

file_name-fits :
    (bufflen : ℕ) (s : Bytes)
    → 17 ≤ bufflen
    → length (file_name bufflen s (pos (length s))) < bufflen
file_name-fits bufflen s h =
    Fits-if bufflen (ltb_ℤ (pos (bufflen - 8)) (pos (length s))) _ _
      (λ long. omega (arith, length-drop (length s - (bufflen - 8)) s)) (λ short. ground arith)

quoted-fits :
    (bufflen : ℕ) (s : Bytes) (len : ℕ)
    → 17 ≤ bufflen
    → len ≤ bufflen - 17
    → length (quoted s len) < bufflen
quoted-fits bufflen s len h le =
    let text : Bytes = if ltb len (length s) then take len s ++ codes "..." else s in
    let fits : length text < len + 4 =
      Fits-if (len + 4) (ltb len (length s)) _ _
        (λ long. omega (arith, length-append (take len s) (codes "..."), length-take len s))
        (λ short. ground arith) in
    omega (arith, fits, length-append text (codes "\"]"))

-- What is written is in the buffer, with the zero behind it.
abbrev pub FitsIn : ℕ → Option Bytes → Type 0
FitsIn bufflen o = (out : Bytes) × (o ≡ some out) × (length out < bufflen)

if-FitsIn :
    (n : ℕ) (b : Bool) (x y : Option Bytes)
    → FitsIn n x
    → FitsIn n y
    → FitsIn n (if b then x else y)
if-FitsIn n true x y h k = h
if-FitsIn n false x y h k = k

-- The name of a chunk whose source has less than 2 ^ 31 bytes is written without a read outside the
-- source, and stays, with the zero behind it, inside a buffer of 17 bytes or more.
pub chunkid-FitsIn :
    (source : Bytes) (bufflen : ℕ)
    → 17 ≤ bufflen
    → length source < 2 ^ 31
    → FitsIn bufflen (chunkid source bufflen)
unfolding chunkid
chunkid-FitsIn [] bufflen h small = (_, refl, omega arith)
chunkid-FitsIn (c ∷ s) bufflen h small =
    let of_name : as_int (length s) ≡ pos (length s) = as_int_small (length s) (omega arith) in
    let of_line : as_int (first_line (c ∷ s)) ≡ pos (first_line (c ∷ s)) =
      as_int_small (first_line (c ∷ s)) (omega (arith, small, first_line-le (c ∷ s))) in
    if-FitsIn bufflen (c == b'=') _ _ (_, refl, omega (arith, length-take (bufflen - 1) s))
      (if-FitsIn bufflen (c == b'@') _ _ (_, refl, rw of_name (file_name-fits bufflen s h))
        (rw of_line (_, refl, quoted-fits bufflen (c ∷ s) _ h (ground arith))))
