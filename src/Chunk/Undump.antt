-- ===== src/Chunk/Undump.antt =====
-- lua/lundump.c: functions, the header and whole chunks.
use Prim.Native.String.{String}
use primemover.Prelude.{
  ℕ, zero, suc, ◌+◌, ◌-◌, ◌*◌, ◌/◌, ◌%◌, ◌^◌, Bool, not, ◌==◌, ◌||◌, ltb, leb, if◌then◌else◌,
  Option, some, [], ◌∷◌, length, codes,
}
use primemover.Prelude.Int.{ℤ, pos, ◌-ℤ◌, eqb_ℤ}
use primemover.Proto.{Bytes, Proto, proto}
use primemover.Opcodes.{size_op, size_a, size_b, size_c}
use primemover.Debug.{checkcode}
use primemover.Debug.Outcome
use primemover.Zio.{Zio}
use primemover.Zio.Contents.{contents}
use primemover.Chunk.Memory.{endianness}
use primemover.Chunk.Dump.{signature, version, version0, test_number}
use primemover.Chunk.Load.{
  bad_signature, unknown_number, bad_code, undefined, out_of_fuel, too_new, too_old, mismatch,
  Result, Load, pure, raise, ◌>>=◌, ◌>>◌, guard, ezgetc, load_byte, load_int, load_number,
  load_string, load_code, load_locals, load_lines, load_upvalues, load_constant, load_protos,
  repeat,
}

-- `if (!luaG_checkcode(f)) luaG_runerror(...)`: the instruction that it returns is taken as an int
unfoldable pub accept : Proto → Load Proto
accept f = elim (checkcode f) [
  | Outcome.ok i ↦ if i % 2 ^ 32 == 0 then raise bad_code else pure f
  | Outcome.rejected ↦ raise bad_code
  | Outcome.fault ↦ raise undefined
  | Outcome.out_of_fuel ↦ raise out_of_fuel
]

-- the source of the parent, for a function that has none of its own
abbrev pub inherit : Option Bytes → Option Bytes → Option Bytes
inherit p Option.none = p
inherit p (some s) = some s

module _ (little swap : Bool) where
  -- `LoadFunction` once the source is known; `nested` loads a function defined inside
  unfoldable pub load_body : (Option Bytes → Load Proto) → Option Bytes → Load Proto
  unfolding accept
  load_body nested source = do
    line_defined ← load_int little swap
    nups ← load_byte
    numparams ← load_byte
    is_vararg ← load_byte
    maxstacksize ← load_byte
    lineinfo ← load_lines little swap
    locvars ← load_locals little swap
    upvalues ← load_upvalues little swap nups
    nk ← load_int little swap
    k ← repeat nk (load_constant little swap)
    np ← load_int little swap
    ps ← load_protos little swap np (nested source)
    code ← load_code little swap
    accept (
        proto
          (record {
            k = k;
            code = code;
            lineinfo = lineinfo;
            locvars = locvars;
            upvalues = upvalues;
            source = source;
            line_defined = line_defined;
            nups = nups;
            numparams = numparams;
            is_vararg = is_vararg;
            maxstacksize = maxstacksize;
          })
          ps)

  -- `LoadFunction`, on fuel for the depth of nesting
  unfoldable pub load_function : ℕ → Option Bytes → Load Proto
  unfolding load_body
  load_function zero p = raise out_of_fuel
  load_function (suc fuel) p = do
    own ← load_string little swap
    load_body (λ q. load_function fuel q) (inherit p own)

-- `LoadSignature`: reading stops at the first byte that differs
unfoldable pub load_signature : Bytes → Load (Unit {0})
load_signature [] = pure tt
load_signature (s ∷ ss) = do c ← ezgetc; if c == s then load_signature ss else raise bad_signature

-- `TestSize`
unfoldable pub test_size : ℕ → String → Load (Unit {0})
test_size s what = do r ← load_byte; guard (r == s) (mismatch what s r)

-- A double as a long, towards zero; `none` where it does not fit.
unfoldable pub to_long : ℕ → Option ℤ
unfolding ◌-ℤ◌
to_long x =
    let e = x / 2 ^ 52 % 2048 in
    let m = (2 ^ 52 + x % 2 ^ 52) * 2 ^ (e - 1023) / 2 ^ 52 in
    let magnitude = if ltb e 1023 then 0 else m in
    if leb 1086 e
    then Option.none
    else some (if x / 2 ^ 63 == 0 then pos magnitude else pos 0 -ℤ pos magnitude)

-- `(long)x != (long)tx`
unfoldable pub test_long : Option ℤ → Option ℤ → Load (Unit {0})
test_long (some a) (some b) = guard (eqb_ℤ a b) unknown_number
test_long _ _ = raise undefined

module _ (little : Bool) where
  -- the part of `LoadHeader` behind the assignment of `S->swap`, which is its result
  unfoldable pub load_format : Bool → Load Bool
  load_format swap = do
    test_size 4 "int"
    test_size 8 "size_t"
    test_size 8 "Instruction"
    test_size size_op "OP"
    test_size size_a "A"
    test_size size_b "B"
    test_size size_c "C"
    test_size 8 "number"
    x ← load_number little swap
    test_long (to_long x) (to_long test_number)
    pure swap

  -- `LoadHeader`
  unfoldable pub load_header : Load Bool
  unfolding load_signature test_size to_long test_long load_format
  load_header = do
    load_signature signature
    v ← load_byte
    guard (leb v version) (too_new v)
    guard (leb version0 v) (too_old v)
    e ← load_byte
    load_format (not (endianness little == e))

  -- `LoadChunk`
  unfoldable pub load_chunk : ℕ → Load Proto
  unfolding load_header load_function
  load_chunk fuel = do swap ← load_header; load_function little swap fuel Option.none

  -- `luaU_undump`. The functions nested in one another are fewer than the bytes of the stream.
  unfoldable pub undump : Zio → Result Proto
  unfolding load_chunk
  undump z = load_chunk (suc (length (contents z))) z

-- the name that messages give the chunk: without the mark of its kind
unfoldable pub chunk_name : Bytes → Bytes
chunk_name [] = []
chunk_name (c ∷ s) =
    if c == b'@' || c == b'=' then s else if c == 27 then codes "binary string" else c ∷ s
