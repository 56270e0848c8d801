-- ===== src/Chunk/Whole.antt =====
-- Whole chunks: the header and the main function.
use primemover.Prelude.{
  ℕ, suc, ◌+◌, ◌≤◌, ◌<◌, ◌≡◌, refl, ◌∙◌, arith, Bool, true, false, List, [], ◌∷◌, ◌++◌, length,
  length-append, Option, ◌==◌, leb, ==_iff, not,
}
use Prim.Native.String.{String}
use mathlib.Core.Bool.{xor}
use primemover.Proto.{Bytes, Proto, Protos, proto, none, cons}
use primemover.Zio.{Zio, init}
use primemover.Zio.Contents.{contents, stream, BlocksFit, init-IsValid}
use primemover.Chunk.Memory.{endianness}
use primemover.Chunk.Load.{
  Load, ok, pure, ◌>>=◌, ◌>>◌, ezgetc, load_byte, load_number, too_new, too_old,
}
use primemover.Chunk.Dump.{
  dump, dump_header, dump_function, dump_functions, signature, version, version0, dump_number,
  test_number,
}
use primemover.Chunk.Undump.{
  load_function, load_header, load_format, undump, load_signature, test_size, test_long, to_long,
}
use primemover.Chunk.Yields.{
  Yields, Yields-pure, Yields-bind, Yields-end, Yields-guard, load_byte-Yields, ezgetc-Yields,
}
use primemover.Chunk.Words.{swap, load_number-Yields}
use primemover.Chunk.RoundTrip.{load_function-Yields}
use primemover.Chunk.Dumpable.{Dumpable, depth, depths}

length-append_bytes : (xs ys : Bytes) → length (xs ++ ys) ≡ length xs + length ys
length-append_bytes = length-append

-- for `omega`, on sequences of bytes
ruleset lengths = (arith, length-append_bytes)

mutual
  unfolding depth dump_function

  depth-le : (d : Bool) (f : Proto) (p : Option Bytes) → depth f ≤ length (dump_function d f p)
  depth-le d (proto f ps) p = omega (lengths, depths-le d ps f.source)

  depths-le :
      (d : Bool) (ps : Protos) (p : Option Bytes) → depths ps ≤ length (dump_functions d ps p)
  depths-le d none p = omega arith
  depths-le d (cons f fs) p = omega (lengths, depth-le d f p, depths-le d fs p)

swap_found : (l d : Bool) → not (endianness l == endianness d) ≡ swap l d
unfolding endianness xor
swap_found true true = refl
swap_found true false = refl
swap_found false true = refl
swap_found false false = refl

load_signature-Yields : (ss : Bytes) → Yields (load_signature ss) ss tt
unfolding load_signature
load_signature-Yields [] = Yields-pure tt
load_signature-Yields (s ∷ ss) =
    Yields-bind ezgetc _ (s ∷ []) ss s tt (ezgetc-Yields s)
      (rw ((==_iff s s).1 refl) (load_signature-Yields ss))

Yields-test :
    (s : ℕ) (what : String) (m : Load Bool) (cs : Bytes) (b : Bool)
    → s < 256
    → Yields m cs b
    → Yields (test_size s what >> m) (s ∷ cs) b
unfolding test_size
Yields-test s what m cs b h y =
    Yields-bind (test_size s what) (λ _. m) (s ∷ []) cs tt b
      (Yields-end load_byte _ (s ∷ []) s tt (load_byte-Yields s h)
        (rw ((==_iff s s).1 refl) (Yields-pure tt)))
      y

module _ (l d : Bool) where
  test_number-Yields :
      Yields
        (load_number l (swap l d) >>= λ x.
          test_long (to_long x) (to_long test_number) >> pure (swap l d))
        (dump_number d test_number)
        (swap l d)
  unfolding test_long to_long ◌>>=◌
  test_number-Yields =
      Yields-end (load_number l (swap l d)) _ (dump_number d test_number) test_number (swap l d)
        (load_number-Yields l d test_number (omega arith)) (Yields-pure (swap l d))

  endianness-lt : endianness d < 256
  unfolding endianness
  endianness-lt = lt d
    where
      lt : (d : Bool) → endianness d < 256
      lt true = omega arith
      lt false = omega arith

  -- the sizes that the header gives, and the number
  abbrev format : Bytes
  format = 4 ∷ 8 ∷ 8 ∷ 6 ∷ 8 ∷ 9 ∷ 9 ∷ 8 ∷ dump_number d test_number

  load_format-Yields : Yields (load_format l (swap l d)) format (swap l d)
  unfolding load_format
  load_format-Yields =
      let n = dump_number d test_number in
      Yields-test 4 "int" _ (8 ∷ 8 ∷ 6 ∷ 8 ∷ 9 ∷ 9 ∷ 8 ∷ n) _ (omega arith) (
        Yields-test 8 "size_t" _ (8 ∷ 6 ∷ 8 ∷ 9 ∷ 9 ∷ 8 ∷ n) _ (omega arith) (
          Yields-test 8 "Instruction" _ (6 ∷ 8 ∷ 9 ∷ 9 ∷ 8 ∷ n) _ (omega arith) (
            Yields-test 6 "OP" _ (8 ∷ 9 ∷ 9 ∷ 8 ∷ n) _ (omega arith) (
              Yields-test 8 "A" _ (9 ∷ 9 ∷ 8 ∷ n) _ (omega arith) (
                Yields-test 9 "B" _ (9 ∷ 8 ∷ n) _ (omega arith) (
                  Yields-test 9 "C" _ (8 ∷ n) _ (omega arith)
                    (Yields-test 8 "number" _ n _ (omega arith) test_number-Yields)))))))

  load_header-Yields : Yields (load_header l) (dump_header d) (swap l d)
  unfolding load_header dump_header
  load_header-Yields =
      let e = endianness d in
      Yields-bind (load_signature signature) _ signature (version ∷ e ∷ format) tt (swap l d)
        (load_signature-Yields signature)
        (Yields-bind load_byte _ (version ∷ []) (e ∷ format) version (swap l d)
          (load_byte-Yields version (omega arith))
          (Yields-guard (leb version version) (too_new version) _ (e ∷ format) (swap l d) refl (
            Yields-guard (leb version0 version) (too_old version) _ (e ∷ format) (swap l d) refl (
              Yields-bind load_byte (λ c. load_format l (not (endianness l == c))) (e ∷ []) format e
                (swap l d) (load_byte-Yields e endianness-lt)
                (rw (swap_found l d) load_format-Yields)))))

-- A chunk that `luaU_dump` wrote for a dumpable function, on a machine of byte order `d`, is read by
-- `luaU_undump` on a machine of byte order `l` to the same function, however the reader cuts the
-- bytes into blocks; what follows the chunk in the stream is left.
pub undump-dump :
    (l d : Bool) (f : Proto) (blocks : List Bytes) (rest : Bytes)
    → Dumpable f Option.none
    → BlocksFit blocks
    → stream blocks ≡ dump d f ++ rest
    → (z : Zio) × (undump l (init blocks) ≡ ok f z) × (contents z ≡ rest)
unfolding undump dump
undump-dump l d f blocks rest h fit e =
    let (valid, all) = init-IsValid blocks fit in
    let chunk = dump_header d ++ dump_function d f Option.none in
    let long : length (contents (init blocks)) ≡ length chunk + length rest =
      rw (all, e) (length-append chunk rest) in
    let deep : depth f ≤ suc (length (contents (init blocks))) = omega (
      lengths,
      long,
      length-append (dump_number d test_number) (dump_function d f Option.none),
      depth-le d f Option.none,
    ) in
    let (z, run, _, left) =
      Yields-bind (load_header l)
        (λ w. load_function l w (suc (length (contents (init blocks)))) Option.none) (dump_header d)
        (dump_function d f Option.none) (swap l d) f (load_header-Yields l d)
        (load_function-Yields l d f Option.none _ deep h) (init blocks) rest valid (all ∙ e) in
    (z, run, left)
