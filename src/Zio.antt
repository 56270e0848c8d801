-- ===== src/Zio.antt =====
-- lua/lzio.c and lua/lzio.h: buffered reading from a chunk reader. `p` is the memory from the current
-- position to the end of the block that the reader gave, and `blocks` is what the reader gives next;
-- an empty block, or none, is its end of stream. `n` is the size_t of the source, which can pass below 0.
pub mod Contents
pub mod Read
mod Tests
use primemover.Prelude.{
  ℕ, zero, suc, ◌+◌, ◌-◌, ◌%◌, ◌^◌, Bool, true, false, ltb, leb, ◌==◌, if◌then◌else◌, Option, none,
  some, List, [], ◌∷◌, ◌++◌, length, take, drop, ◌<◌,
}
use primemover.Proto.{Bytes}

pub record Zio : Type 0 where
  pub n : ℕ
  pub p : Bytes
  pub blocks : List Bytes

-- A byte, the end of the stream, or a read outside the block, which C does not define.
pub data Got {ℓ} (A : Type ℓ) : Type ℓ where
  got : A → Zio → Got A
  eoz : Zio → Got A
  fault : Got A

abbrev pub size_mod : ℕ
size_mod = 2 ^ 64

-- `n - 1` on a size_t
abbrev pub pred_size : ℕ → ℕ
pred_size n = (n + size_mod - 1) % size_mod

-- `luaZ_fill`: the next block, less its first byte, which is the result
unfoldable pub fill : Zio → Got ℕ
fill z = elim z.blocks [
  | [] ↦ eoz z
  | [] ∷ bs ↦ eoz (record z { blocks = bs })
  | (c ∷ cs) ∷ bs ↦ got c (record { n = length cs; p = cs; blocks = bs })
]

-- the macro `zgetc`, which counts `n` down before it looks at it
unfoldable pub zgetc : Zio → Got ℕ
unfolding fill
zgetc z =
    if ltb 0 z.n
    then elim z.p [ [] ↦ fault | c ∷ cs ↦ got c (record z { n = z.n - 1; p = cs }) ]
    else fill (record z { n = pred_size z.n })

-- `z->n++; z->p--;` after a fill that gave `c`
abbrev put_back : ℕ → Zio → Zio
put_back c z = record z { n = (z.n + 1) % size_mod; p = c ∷ z.p }

-- `luaZ_lookahead`
unfoldable pub lookahead : Zio → Got ℕ
unfolding fill
lookahead z =
    if z.n == 0
    then elim (fill z) [ got c z' ↦ got c (put_back c z') | eoz z' ↦ eoz z' | fault ↦ fault ]
    else elim z.p [ [] ↦ fault | c ∷ cs ↦ got c z ]

-- `luaZ_init`
unfoldable pub init : List Bytes → Zio
init blocks = record { n = 0; p = []; blocks = blocks }

-- What `luaZ_read` leaves in the buffer, the number of missing bytes that it returns, and the stream.
pub record Reading : Type 0 where
  pub bytes : Bytes
  pub missing : ℕ
  pub after : Zio

-- the end of the loop's body: `memcpy` of the smaller of what is wanted and what is there
copy : Zio → ℕ → (ℕ → Zio → Option Reading) → Option Reading
copy z n rest =
    let m = if leb n z.n then n else z.n in
    if ltb (length z.p) m
    then none
    else elim (rest (n - m) (record z { n = z.n - m; p = drop m z.p })) [
      | none ↦ none
      | some r ↦ some (record r { bytes = take m z.p ++ r.bytes })
    ]

abbrev stop : Zio → ℕ → Option Reading
stop z n = some (record { bytes = []; missing = n; after = z })

-- `luaZ_read`, on fuel for the rounds of its loop; `none` is a read outside the block. Running out
-- of fuel is `none` too; a round takes at least one byte, so that `n` rounds are what n bytes need.
unfoldable pub read_loop : ℕ → ℕ → Zio → Option Reading
unfolding copy fill
read_loop zero n z = if n == 0 then stop z 0 else none
read_loop (suc fuel) n z =
    let whole =
      if z.n == 0
      then elim (fill z) [
        | got c z' ↦ copy (put_back c z') n (read_loop fuel)
        | eoz z' ↦ stop z' n
        | fault ↦ none
      ]
      else copy z n (read_loop fuel) in
    if n == 0 then stop z 0 else whole

unfoldable pub read : Zio → ℕ → Option Reading
unfolding read_loop
read z n = read_loop n n z

-- `luaZ_openspace`: the size of the buffer after space for `n` bytes was asked for
abbrev pub min_buffer : ℕ
min_buffer = 32

unfoldable pub openspace : ℕ → ℕ → ℕ
openspace buffsize n =
    if ltb buffsize n then (if ltb n min_buffer then min_buffer else n) else buffsize
