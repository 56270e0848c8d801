-- ===== src/Chunk/Memory.antt =====
-- Words in memory: the bytes of a number in the order of the machine. `little` is what
-- `luaU_endianness` finds: whether the first byte of an int that is 1 is the 1.
use primemover.Prelude.{
  ℕ, zero, suc, ◌+◌, ◌*◌, ◌/◌, ◌%◌, ◌^◌, ◌<◌, ◌≡◌, refl, ap, arith, Bool, true, false, [], ◌∷◌,
  length, length-append, if◌then◌else◌, ◌∙◌,
}
use mathlib.Core.List.{reverse, reverse-cons, reverse-reverse}
use mathlib.Core.Bool.{xor}
use native.Mathlib.Nat.{pow-suc}
use primemover.Proto.{Bytes}

le_bytes : ℕ → ℕ → Bytes
le_bytes zero x = []
le_bytes (suc n) x = x % 256 ∷ le_bytes n (x / 256)

of_le : Bytes → ℕ
of_le [] = 0
of_le (b ∷ bs) = b + 256 * of_le bs

-- `luaU_endianness`
unfoldable pub endianness : Bool → ℕ
endianness little = if little then 1 else 0

-- the `n` bytes of `x`
unfoldable pub to_memory : Bool → ℕ → ℕ → Bytes
unfolding le_bytes
to_memory little n x = if little then le_bytes n x else reverse (le_bytes n x)

unfoldable pub from_memory : Bool → Bytes → ℕ
unfolding of_le
from_memory little bs = if little then of_le bs else of_le (reverse bs)

of_le-le_bytes : (n x : ℕ) → x < 256 ^ n → of_le (le_bytes n x) ≡ x
unfolding of_le le_bytes
of_le-le_bytes zero x h = omega arith
of_le-le_bytes (suc n) x h =
    omega (arith, of_le-le_bytes n (x / 256) (omega (arith, pow-suc 256 n)))

length-le_bytes : (n x : ℕ) → length (le_bytes n x) ≡ n
unfolding le_bytes
length-le_bytes zero x = refl
length-le_bytes (suc n) x = ap suc (length-le_bytes n (x / 256))

length-reverse : (bs : Bytes) → length (reverse bs) ≡ length bs
length-reverse [] = refl
length-reverse (b ∷ bs) = rw (reverse-cons, length-append) (omega (arith, length-reverse bs))

pub length-to_memory : (d : Bool) (n x : ℕ) → length (to_memory d n x) ≡ n
unfolding to_memory
length-to_memory true n x = length-le_bytes n x
length-to_memory false n x = length-reverse (le_bytes n x) ∙ length-le_bytes n x

-- A word written on one machine and read on another, with its bytes swapped if the machines differ.
pub from_memory-to_memory :
    (l d : Bool) (n x : ℕ)
    → x < 256 ^ n
    → from_memory l (if xor l d then reverse (to_memory d n x) else to_memory d n x) ≡ x
unfolding from_memory to_memory xor
from_memory-to_memory true true n x h = of_le-le_bytes n x h
from_memory-to_memory false false n x h = rw reverse-reverse (of_le-le_bytes n x h)
from_memory-to_memory true false n x h = rw reverse-reverse (of_le-le_bytes n x h)
from_memory-to_memory false true n x h = rw reverse-reverse (of_le-le_bytes n x h)
