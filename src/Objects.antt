-- ===== src/Objects.antt =====
-- lua/lobject.c: floating point bytes, logarithms and the names of chunks. An unsigned int has 32
-- bits. A C string is its bytes without the zero that ends it.
use primemover.Prelude.{
  ℕ, zero, suc, ◌+◌, ◌-◌, ◌*◌, ◌/◌, ◌%◌, ◌^◌, Bool, true, false, not, ◌&&◌, Option, none, some,
  List, [], ◌∷◌, ◌++◌, take, drop, replicate, length, get_elem?, codes, bit_and, bit_or, ltb, leb,
  ◌==◌, if◌then◌else◌,
}
use primemover.Prelude.Int.{ℤ, pos, negsuc, pos_part, ltb_ℤ, as_int}
use primemover.Proto.{Bytes}
pub mod Numbers
pub mod Names
mod Tests

-- The loop, on fuel: the mantissa and what is left.
unfoldable pub int2fb_loop : ℕ → ℕ → ℕ → ℕ × ℕ
int2fb_loop zero m x = (m, x)
int2fb_loop (suc fuel) m x =
    let halved = int2fb_loop fuel (m + 1) ((x + 1) % 2 ^ 32 / 2) in
    if leb (2 ^ 3) x then halved else (m, x)

unfoldable pub int2fb : ℕ → ℕ
unfolding int2fb_loop
int2fb x = let r = int2fb_loop 32 0 x in bit_or (r.0 * 2 ^ 3) r.1

-- `none` is a shift that an int does not hold.
unfoldable pub fb2int : ℕ → Option ℕ
fb2int x =
    let shifted = bit_and x 7 * 2 ^ (x / 2 ^ 3) in
    if ltb (x / 2 ^ 3) 32 && ltb shifted (2 ^ 31) then some shifted else none

unfoldable pub log_8 : List ℕ
log_8 =
    replicate 1 0
    ++ replicate 2 1
    ++ replicate 4 2
    ++ replicate 8 3
    ++ replicate 16 4
    ++ replicate 32 5
    ++ replicate 64 6
    ++ replicate 128 7

-- `log_8[b - 1] + n`; `none` is a read outside the table
unfoldable pub log_of : ℕ → ℕ → Option ℤ
log_of b n = elim (get_elem? log_8 (b - 1)) [ none ↦ none | some l ↦ some (pos (l + n)) ]

unfoldable pub log2 : ℕ → Option ℤ
unfolding log_of
log2 x =
    if leb 0x10000 x
    then if leb 0x1000000 x then log_of (x / 2 ^ 24 % 256) 24 else log_of (x / 2 ^ 16 % 256) 16
    else if leb 0x100 x
    then log_of (x / 2 ^ 8 % 256) 8
    else if x == 0
    then some (negsuc 0)
    else log_of (x % 256) 0

-- `strcspn(source, "\n")`
unfoldable pub first_line : Bytes → ℕ
first_line [] = 0
first_line (c ∷ s) = let rest = first_line s in if c == 10 then 0 else suc rest

-- What a name of a file leaves in a buffer of `bufflen` bytes, where `l` is its length as an int.
abbrev pub file_name : ℕ → Bytes → ℤ → Bytes
file_name bufflen s l =
    if ltb_ℤ (pos (bufflen - 8)) l then codes "..." ++ drop (pos_part l - (bufflen - 8)) s else s

-- The text of a chunk up to `len`, in brackets.
abbrev pub quoted : Bytes → ℕ → Bytes
quoted s len =
    codes "[string \""
    ++ ((if ltb len (length s) then take len s ++ codes "..." else s) ++ codes "\"]")

-- `bufflen` is at least 17: the source subtracts sizeof(" `...' ") or sizeof(" [string \"...\"] ").
-- A length passes through an int; `none` is a read in front of the name, where that is negative.
unfoldable pub chunkid : Bytes → ℕ → Option Bytes
unfolding first_line
chunkid source bufflen = elim source [
  | [] ↦ some (codes "[string \"" ++ codes "\"]")
  | c ∷ s ↦
      if c == b'='
      then some (take (bufflen - 1) s)
      else if c == b'@'
      then some (file_name bufflen s (as_int (length s)))
      else elim (as_int (first_line (c ∷ s))) [
        | pos len ↦ some (quoted (c ∷ s) (if ltb (bufflen - 17) len then bufflen - 17 else len))
        | negsuc n ↦ none
      ]
]
