-- ===== src/Chunk/Dump.antt =====
-- lua/ldump.c. What the dump functions pass to the writer, block by block, is one sequence of bytes
-- here. `little` is the byte order of the machine that dumps.
use primemover.Prelude.{
  ℕ, ◌+◌, Bool, true, false, ◌&&◌, ◌==◌, if◌then◌else◌, Option, List, [], ◌∷◌, ◌++◌, length,
}
use primemover.Proto.{
  Bytes, LocVar, Constant, nil, number, str, Proto, Protos, proto, none, cons, sizep,
}
use primemover.Opcodes.{size_op, size_a, size_b, size_c}
use primemover.Chunk.Memory.{to_memory, endianness}

-- strings are interned: equal bytes are one pointer
unfoldable pub same_bytes : Bytes → Bytes → Bool
same_bytes [] [] = true
same_bytes [] (b ∷ bs) = false
same_bytes (a ∷ as') [] = false
same_bytes (a ∷ as') (b ∷ bs) = a == b && same_bytes as' bs

unfoldable pub same_string : Option Bytes → Option Bytes → Bool
unfolding same_bytes
same_string Option.none Option.none = true
same_string Option.none (Option.some t) = false
same_string (Option.some s) Option.none = false
same_string (Option.some s) (Option.some t) = same_bytes s t

abbrev pub signature : Bytes
signature = 27 ∷ b'L' ∷ b'u' ∷ b'a' ∷ []

abbrev pub version : ℕ
version = 0x50

abbrev pub version0 : ℕ
version0 = 0x50

-- the bits of the double 3.14159265358979323846E7
abbrev pub test_number : ℕ
test_number = 4719198358794865078

-- LUA_TNIL, LUA_TNUMBER and LUA_TSTRING
abbrev pub tnil : ℕ
tnil = 0

abbrev pub tnumber : ℕ
tnumber = 3

abbrev pub tstring : ℕ
tstring = 4

abbrev pub dump_byte : ℕ → Bytes
dump_byte y = y ∷ []

-- the name of the function that the source inherits from its parent is left out
abbrev pub own_source : Option Bytes → Option Bytes → Option Bytes
own_source p s = if same_string s p then Option.none else s

-- a loop that dumps each element
unfoldable pub dump_each {ℓ} : {A : Type ℓ} → (A → Bytes) → List A → Bytes
dump_each d [] = []
dump_each d (x ∷ xs) = d x ++ dump_each d xs

module _ (little : Bool) where
  unfoldable pub dump_int : ℕ → Bytes
  dump_int x = to_memory little 4 x

  unfoldable pub dump_size : ℕ → Bytes
  dump_size x = to_memory little 8 x

  unfoldable pub dump_number : ℕ → Bytes
  dump_number x = to_memory little 8 x

  unfoldable pub dump_string : Option Bytes → Bytes
  dump_string Option.none = dump_size 0
  dump_string (Option.some s) = dump_size (length s + 1) ++ (s ++ 0 ∷ [])

  -- the elements of an array, each of `size` bytes
  unfoldable pub dump_vector : ℕ → List ℕ → Bytes
  unfolding dump_each
  dump_vector size xs = dump_each (to_memory little size) xs

  unfoldable pub dump_code : List ℕ → Bytes
  dump_code code = dump_int (length code) ++ dump_vector 8 code

  unfoldable pub dump_locvar : LocVar → Bytes
  dump_locvar v = dump_string v.varname ++ (dump_int v.startpc ++ (dump_int v.endpc ++ []))

  unfoldable pub dump_locals : List LocVar → Bytes
  unfolding dump_each dump_locvar
  dump_locals vs = dump_int (length vs) ++ dump_each dump_locvar vs

  unfoldable pub dump_lines : List ℕ → Bytes
  dump_lines lines = dump_int (length lines) ++ dump_vector 4 lines

  unfoldable pub dump_upvalues : List (Option Bytes) → Bytes
  unfolding dump_each
  dump_upvalues ss = dump_int (length ss) ++ dump_each dump_string ss

  unfoldable pub dump_constant : Constant → Bytes
  dump_constant nil = dump_byte tnil ++ []
  dump_constant (number x) = dump_byte tnumber ++ (dump_number x ++ [])
  dump_constant (str s) = dump_byte tstring ++ (dump_string s ++ [])

  unfoldable pub dump_k : List Constant → Bytes
  unfolding dump_each dump_constant
  dump_k os = dump_each dump_constant os

  unfoldable mutual
    pub dump_function : Proto → Option Bytes → Bytes
    dump_function (proto f ps) p =
        dump_string (own_source p f.source)
        ++ (dump_int f.line_defined
            ++ (dump_byte f.nups
                ++ (dump_byte f.numparams
                    ++ (dump_byte f.is_vararg
                        ++ (dump_byte f.maxstacksize
                            ++ (dump_lines f.lineinfo
                                ++ (dump_locals f.locvars
                                    ++ (dump_upvalues f.upvalues
                                        ++ (dump_int (length f.k)
                                            ++ (dump_k f.k
                                                ++ (dump_int (sizep ps)
                                                    ++ (dump_functions ps f.source
                                                        ++ dump_code f.code))))))))))))

    pub dump_functions : Protos → Option Bytes → Bytes
    dump_functions none p = []
    dump_functions (cons f fs) p = dump_function f p ++ dump_functions fs p

  unfoldable pub dump_header : Bytes
  dump_header =
      signature
      ++ (dump_byte version
          ++ (dump_byte (endianness little)
              ++ (dump_byte 4
                  ++ (dump_byte 8
                      ++ (dump_byte 8
                          ++ (dump_byte size_op
                              ++ (dump_byte size_a
                                  ++ (dump_byte size_b
                                      ++ (dump_byte size_c
                                          ++ (dump_byte 8 ++ dump_number test_number))))))))))

  -- `luaU_dump`
  unfoldable pub dump : Proto → Bytes
  unfolding dump_int dump_size dump_number dump_string dump_vector dump_code dump_locals dump_lines
      dump_upvalues dump_k dump_function dump_header
  dump main = dump_header ++ dump_function main Option.none
