-- ===== src/Strings.antt =====
-- lua/lstrlib.c: the functions on strings that match no pattern, and the plain search of
-- `string.find`. A string is its bytes, and a `sint32`, which is a long, is an ℤ. The characters are
-- those of the C locale.
use primemover.Prelude.{
  codes, ℕ, zero, suc, ◌+◌, ◌-◌, Bool, true, false, not, ◌||◌, ◌&&◌, Option, none, some, List, [],
  ◌∷◌, ◌++◌, map, take, drop, get_elem?, length, ltb, leb, ◌==◌, if◌then◌else◌,
}
use primemover.Prelude.Int.{ℤ, pos, negsuc, pos_part, ◌+ℤ◌, ◌-ℤ◌, ltb_ℤ, leb_ℤ}
use primemover.Proto.{Bytes}
pub mod Pieces
pub mod Positions
pub mod Search
mod Tests

unfoldable pub posrelat : ℤ → ℕ → ℤ
unfolding ◌+ℤ◌
posrelat p len = if leb_ℤ (pos 0) p then p else pos len +ℤ p +ℤ pos 1

-- `lua_pushlstring(L, s + start, n)`
abbrev slice : ℤ → ℤ → Bytes → Bytes
slice start n s = take (pos_part n) (drop (pos_part start) s)

-- `if (start < 1) start = 1;` and `if (end > (sint32)l) end = (sint32)l;`
unfoldable pub sub_start : ℤ → ℕ → ℤ
unfolding posrelat
sub_start i l = let start = posrelat i l in if ltb_ℤ start (pos 1) then pos 1 else start

unfoldable pub sub_end : ℤ → ℕ → ℤ
unfolding posrelat
sub_end j l = let last = posrelat j l in if ltb_ℤ (pos l) last then pos l else last

unfoldable pub sub_range : Bytes → ℤ → ℤ → Bytes
unfolding ◌+ℤ◌ ◌-ℤ◌
sub_range s start last =
    if leb_ℤ start last then slice (start -ℤ pos 1) (last -ℤ start +ℤ pos 1) s else []

unfoldable pub str_sub : Bytes → ℤ → ℤ → Bytes
unfolding sub_start sub_end sub_range
str_sub s i j = sub_range s (sub_start i (length s)) (sub_end j (length s))

abbrev pub tolower : ℕ → ℕ
tolower c = if leb b'A' c && leb c b'Z' then c + 32 else c

abbrev pub toupper : ℕ → ℕ
toupper c = if leb b'a' c && leb c b'z' then c - 32 else c

unfoldable pub str_lower : Bytes → Bytes
str_lower s = map tolower s

unfoldable pub str_upper : Bytes → Bytes
str_upper s = map toupper s

-- `while (n-- > 0)`
unfoldable pub rep_loop : ℕ → Bytes → Bytes
rep_loop zero s = []
rep_loop (suc n) s = s ++ rep_loop n s

unfoldable pub str_rep : Bytes → ℤ → Bytes
unfolding rep_loop
str_rep s n = rep_loop (pos_part n) s

-- `none` is no answer
unfoldable pub str_byte : Bytes → ℤ → Option ℕ
unfolding posrelat ◌-ℤ◌
str_byte s i =
    let p = posrelat i (length s) in
    if leb_ℤ p (pos 0) || ltb_ℤ (pos (length s)) p
    then none
    else get_elem? s (pos_part (p -ℤ pos 1))

pub data Result : Type 0 where
  ok : Bytes → Result
  bad_argument : ℕ → Result

abbrev prepend : ℕ → Result → Result
prepend c (ok s) = ok (c ∷ s)
prepend c (bad_argument i) = bad_argument i

-- `uchar(c) == c`, on an int
abbrev is_uchar : ℤ → Bool
is_uchar (pos c) = ltb c 256
is_uchar (negsuc c) = false

-- `i` is the number of the first argument of the list
unfoldable pub char_loop : ℕ → List ℤ → Result
char_loop i [] = ok []
char_loop i (c ∷ cs) =
    let rest = char_loop (i + 1) cs in
    if is_uchar c then prepend (pos_part c) rest else bad_argument i

unfoldable pub str_char : List ℤ → Result
unfolding char_loop
str_char cs = char_loop 1 cs

-- `memcmp(a, b, n) == 0` where `b` has `n` bytes
unfoldable pub memcmp_eq : Bytes → Bytes → Bool
memcmp_eq s [] = true
memcmp_eq [] (c ∷ t) = false
memcmp_eq (b ∷ s) (c ∷ t) = b == c && memcmp_eq s t

-- where `c` is among the first `n` bytes
unfoldable pub memchr : Bytes → ℕ → ℕ → Option ℕ
memchr s c zero = none
memchr [] c (suc n) = none
memchr (b ∷ s) c (suc n) =
    let rest = memchr s c n in
    if b == c then some 0 else elim rest [ none ↦ none | some k ↦ some (suc k) ]

-- The loop, on fuel. `offset` is where `s1` starts in the whole string, `l1` the number of places left
-- where the first byte `c` may be, and `t` the other bytes of what is searched.
unfoldable pub lmemfind_loop : ℕ → ℕ → Bytes → ℕ → ℕ → Bytes → Option ℕ
lmemfind_loop zero offset s1 l1 c t = none
lmemfind_loop (suc fuel) offset s1 l1 c t = elim (memchr s1 c l1) [
  | none ↦ none
  | some k ↦
      let rest = lmemfind_loop fuel (offset + suc k) (drop (suc k) s1) (l1 - suc k) c t in
      if memcmp_eq (drop (suc k) s1) t then some (offset + k) else rest
]

-- where `s2` is found in `s1`, counted from `s1`
unfoldable pub lmemfind : Bytes → Bytes → Option ℕ
lmemfind s1 [] = some 0
lmemfind s1 (c ∷ t) =
    let l1 = length s1 - length t in
    let found = lmemfind_loop (suc l1) 0 s1 l1 c t in
    if ltb (length s1) (length t + 1) then none else found

-- luaI_addquoted, a byte at a time
unfoldable pub quote_byte : ℕ → Bytes
quote_byte c =
    if c == b'"' || c == b'\\' || c == 10
    then b'\\' ∷ c ∷ []
    else if c == 0
    then codes "\\000"
    else c ∷ []

unfoldable pub quote_bytes : Bytes → Bytes
unfolding quote_byte
quote_bytes [] = []
quote_bytes (c ∷ s) = quote_byte c ++ quote_bytes s

unfoldable pub addquoted : Bytes → Bytes
unfolding quote_bytes
addquoted s = b'"' ∷ (quote_bytes s ++ codes "\"")
