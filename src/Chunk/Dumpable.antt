-- ===== src/Chunk/Dumpable.antt =====
-- The prototypes whose chunk reads back: their numbers fit the fields of the format, and their code
-- passes the checker.
use primemover.Prelude.{ℕ, suc, ◌*◌, ◌%◌, ◌^◌, ◌<◌, ◌≡◌, ◌≢◌, ◌⊎◌, max, length, Option, All}
use primemover.Proto.{
  Bytes, LocVar, Constant, nil, number, str, Header, Proto, Protos, proto, none, cons, sizep,
}
use primemover.Debug.{checkcode}
use primemover.Debug.Outcome
use primemover.Chunk.Words.{ShortString}

abbrev pub LocVarFits : LocVar → Type 0
LocVarFits v = ShortString v.varname × (v.startpc < 2 ^ 31) × (v.endpc < 2 ^ 31)

abbrev pub ConstantFits : Constant → Type 0
ConstantFits nil = Unit {0}
ConstantFits (number x) = x < 2 ^ 64
ConstantFits (str s) = ShortString s

pub record HeaderFits (f : Header) : Type 0 where
  pub source : ShortString f.source
  pub line_defined : f.line_defined < 2 ^ 31
  pub nups : f.nups < 256
  pub numparams : f.numparams < 256
  pub is_vararg : f.is_vararg < 256
  pub maxstacksize : f.maxstacksize < 256
  pub lines : length f.lineinfo * 4 < 2 ^ 31
  pub each_line : All (λ x. x < 256 ^ 4) f.lineinfo
  pub locals : length f.locvars < 2 ^ 31
  pub each_local : All LocVarFits f.locvars
  pub upvalues : length f.upvalues < 2 ^ 31
  pub named : (length f.upvalues ≡ 0) ⊎ (length f.upvalues ≡ f.nups)
  pub each_upvalue : All ShortString f.upvalues
  pub constants : length f.k < 2 ^ 31
  pub each_constant : All ConstantFits f.k
  pub code : length f.code * 8 < 2 ^ 31
  pub each_instruction : All (λ x. x < 256 ^ 8) f.code

abbrev pub IsAccepted : Proto → Type 0
IsAccepted f = (i : ℕ) × (checkcode f ≡ Outcome.ok i) × (i % 2 ^ 32 ≢ 0)

unfoldable mutual
  -- `p` is the source of the function around
  pub Dumpable : Proto → Option Bytes → Type 0
  Dumpable (proto f ps) p =
      HeaderFits f
      × ((f.source ≡ p) ⊎ (f.source ≢ Option.none))
      × (sizep ps < 2 ^ 31)
      × IsAccepted (proto f ps)
      × AllDumpable ps f.source

  pub AllDumpable : Protos → Option Bytes → Type 0
  AllDumpable none p = Unit {0}
  AllDumpable (cons f fs) p = Dumpable f p × AllDumpable fs p

unfoldable mutual
  -- how deep functions are nested
  pub depth : Proto → ℕ
  depth (proto f ps) = suc (depths ps)

  pub depths : Protos → ℕ
  depths none = 0
  depths (cons f fs) = max (depth f) (depths fs)
