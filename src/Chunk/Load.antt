-- ===== src/Chunk/Load.antt =====
-- lua/lundump.c: reading a precompiled chunk from a stream. An error that the source raises by
-- `luaG_runerror` is an `err`. `little` is the byte order of the machine that loads, and `swap` the
-- field of the source's `LoadState`, which `load_header` sets and which is passed on.
use Prim.Native.String.{String}
use mathlib.Core.List.{reverse}
use primemover.Prelude.{
  ℕ, zero, suc, ◌+◌, ◌-◌, ◌*◌, ◌%◌, ◌^◌, Bool, true, false, ◌||◌, ◌==◌, ltb, if◌then◌else◌, Option,
  some, List, [], ◌∷◌, length, take, drop,
}
use primemover.Proto.{Bytes, LocVar, Constant, nil, number, str, Proto, Protos, none, cons}
use primemover.Zio
use primemover.Zio.{Zio, zgetc, read}
use primemover.Chunk.Memory.{from_memory}
use primemover.Chunk.Dump.{tnil, tnumber, tstring}

-- `undefined` is what C does not define: reading outside a block or an array, or using memory that
-- nothing was read into. `out_of_fuel` has no counterpart in the source.
pub data LoadError : Type 0 where
  unexpected_eoz bad_integer bad_signature unknown_number bad_code undefined out_of_fuel : LoadError
  bad_nupvalues : ℕ → ℕ → LoadError
  bad_constant too_new too_old : ℕ → LoadError
  mismatch : String → ℕ → ℕ → LoadError

pub data Result {ℓ} (A : Type ℓ) : Type ℓ where
  ok : A → Zio → Result A
  err : LoadError → Result A

abbrev pub Load {ℓ} : Type ℓ → Type ℓ
Load A = Zio → Result A

abbrev pub pure {ℓ} : {A : Type ℓ} → A → Load A
pure a z = ok a z

abbrev pub raise {ℓ} : {A : Type ℓ} → LoadError → Load A
raise e z = err e

abbrev pub continue {ℓ κ} : {A : Type ℓ} {B : Type κ} → Result A → (A → Load B) → Result B
continue (ok a z) f = f a z
continue (err e) f = err e

infixl 5 ◌>>=◌ ◌>>◌
unfoldable pub ◌>>=◌ {ℓ κ} : {A : Type ℓ} {B : Type κ} → Load A → (A → Load B) → Load B
◌>>=◌ m f z = continue (m z) f

abbrev pub ◌>>◌ {ℓ} : {B : Type ℓ} → Load (Unit {0}) → Load B → Load B
m >> k = m >>= λ _. k

abbrev pub guard : Bool → LoadError → Load (Unit {0})
guard true e = pure tt
guard false e = raise e

unfoldable pub ezgetc : Load ℕ
ezgetc z = elim (zgetc z) [
  | Zio.got c z' ↦ ok c z'
  | Zio.eoz z' ↦ err unexpected_eoz
  | Zio.fault ↦ err undefined
]

-- a size_t passed as an int, which `luaZ_read` takes for a size_t again
abbrev pub through_int : ℕ → ℕ
through_int n = let w = n % 2 ^ 32 in if ltb w (2 ^ 31) then w else 2 ^ 64 - 2 ^ 32 + w

-- `ezread` of `size` bytes into a buffer of that size; the number of missing bytes is an int. More
-- bytes than the buffer has room for are written behind its end.
unfoldable pub ezread : ℕ → Load Bytes
ezread size z = elim (read z (through_int size)) [
  | Option.none ↦ err undefined
  | some r ↦
      if ltb size (length r.bytes)
      then err undefined
      else if r.missing % 2 ^ 32 == 0
      then (if length r.bytes == size then ok r.bytes r.after else err undefined)
      else err unexpected_eoz
]

-- `n` times
unfoldable pub repeat {ℓ} : {A : Type ℓ} → ℕ → Load A → Load (List A)
repeat zero m = pure []
repeat (suc n) m = do x ← m; xs ← repeat n m; pure (x ∷ xs)

-- `while (n--) *p-- = ezgetc(S)`: the block is filled from its end
unfoldable pub load_swapped : ℕ → Load Bytes
unfolding repeat ezgetc
load_swapped size = do bs ← repeat size ezgetc; pure (reverse bs)

unfoldable pub load_block : Bool → ℕ → Load Bytes
unfolding load_swapped ezread
load_block swap size = if swap then load_swapped size else ezread size

unfoldable pub load_byte : Load ℕ
unfolding ezgetc
load_byte = do c ← ezgetc; pure (c % 256)

module _ (little : Bool) where
  -- an array of `m` words in memory
  unfoldable pub words : ℕ → ℕ → Bytes → List ℕ
  words size zero bs = []
  words size (suc m) bs = from_memory little (take size bs) ∷ words size m (drop size bs)

  unfoldable pub load_vector : Bool → ℕ → ℕ → Load (List ℕ)
  unfolding words load_block
  load_vector swap m size =
      if swap
      then repeat m (do bs ← load_swapped size; pure (from_memory little bs))
      else do bs ← ezread (m * size); pure (words size m bs)

module _ (little swap : Bool) where
  -- a negative int is refused
  unfoldable pub load_int : Load ℕ
  unfolding load_block
  load_int = do
    bs ← load_block swap 4
    let x = from_memory little bs
    guard (ltb x (2 ^ 31)) bad_integer
    pure x

  unfoldable pub load_size : Load ℕ
  unfolding load_block
  load_size = do bs ← load_block swap 8; pure (from_memory little bs)

  unfoldable pub load_number : Load ℕ
  unfolding load_block
  load_number = do bs ← load_block swap 8; pure (from_memory little bs)

  -- the trailing '\0' is dropped
  unfoldable pub load_text : ℕ → Load (Option Bytes)
  unfolding ezread
  load_text zero = pure Option.none
  load_text (suc size) = do s ← ezread (suc size); pure (some (take size s))

  unfoldable pub load_string : Load (Option Bytes)
  load_string = load_size >>= load_text

  unfoldable pub load_code : Load (List ℕ)
  load_code = do size ← load_int; load_vector little swap size 8

  unfoldable pub load_locvar : Load LocVar
  load_locvar = do
    varname ← load_string
    startpc ← load_int
    endpc ← load_int
    pure (record { varname = varname; startpc = startpc; endpc = endpc })

  unfoldable pub load_locals : Load (List LocVar)
  load_locals = do n ← load_int; repeat n load_locvar

  unfoldable pub load_lines : Load (List ℕ)
  load_lines = do size ← load_int; load_vector little swap size 4

  unfoldable pub load_upvalues : ℕ → Load (List (Option Bytes))
  load_upvalues nups = do
    n ← load_int
    guard (n == 0 || n == nups) (bad_nupvalues n nups)
    repeat n load_string

  unfoldable pub constant_of : ℕ → Load Constant
  constant_of t =
      if t == tnumber
      then (do x ← load_number; pure (number x))
      else if t == tstring
      then (do s ← load_string; pure (str s))
      else if t == tnil
      then pure nil
      else raise (bad_constant t)

  unfoldable pub load_constant : Load Constant
  load_constant = load_byte >>= constant_of

  unfoldable pub load_protos : ℕ → Load Proto → Load Protos
  load_protos zero m = pure none
  load_protos (suc n) m = do f ← m; fs ← load_protos n m; pure (cons f fs)
