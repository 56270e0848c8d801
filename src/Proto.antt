-- ===== src/Proto.antt =====
-- lua/lobject.h: function prototypes. A `TString *` is the bytes of the string, or `none` for NULL;
-- strings are interned, so that the source's comparisons of pointers compare the bytes. An int and a
-- lua_Number stand as their bit patterns. The `size...` fields are the lengths of the arrays.
use primemover.Prelude.{ℕ, List, Option, Bool, true, false, suc}

abbrev pub Bytes : Type 0
Bytes = List ℕ

pub record LocVar : Type 0 where
  pub varname : Option Bytes
  pub startpc : ℕ
  pub endpc : ℕ

-- the types of `TObject` that a constant can have
pub data Constant : Type 0 where
  nil : Constant
  number : ℕ → Constant
  str : Option Bytes → Constant

-- all of a `Proto` but the functions defined inside it
pub record Header : Type 0 where
  pub k : List Constant
  pub code : List ℕ
  pub lineinfo : List ℕ
  pub locvars : List LocVar
  pub upvalues : List (Option Bytes)
  pub source : Option Bytes
  pub line_defined : ℕ
  pub nups : ℕ
  pub numparams : ℕ
  pub is_vararg : ℕ
  pub maxstacksize : ℕ

mutual
  pub data Proto : Type 0 where
    proto : Header → Protos → Proto

  pub data Protos : Type 0 where
    none : Protos
    cons : Proto → Protos → Protos

abbrev pub header : Proto → Header
header (proto h ps) = h

abbrev pub inner : Proto → Protos
inner (proto h ps) = ps

abbrev pub sizep : Protos → ℕ
sizep none = 0
sizep (cons f fs) = suc (sizep fs)

abbrev pub proto_at? : Protos → ℕ → Option Proto
proto_at? none i = Option.none
proto_at? (cons f fs) ℕ.zero = Option.some f
proto_at? (cons f fs) (suc i) = proto_at? fs i

abbrev pub is_string : Constant → Bool
is_string (str s) = true
is_string _ = false
