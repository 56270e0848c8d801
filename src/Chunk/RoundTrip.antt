-- ===== src/Chunk/RoundTrip.antt =====
-- lua/ldump.c and lua/lundump.c: the functions of a chunk, dumped on a machine of byte order `d` and
-- loaded on one of order `l`.
use primemover.Prelude.{
  ℕ, zero, suc, ◌%◌, ◌^◌, ◌≤◌, ◌<◌, ◌≡◌, ◌≢◌, ◌⊎◌, inl, inr, refl, sym, ap, arith, Bool, true,
  false, [], ◌∷◌, ◌++◌, length, Option, some, ◌==◌, Bool-cases,
}
use primemover.Proto.{Bytes, Header, Proto, Protos, proto, none, cons, sizep}
use primemover.Chunk.Load.{
  Load, load_byte, load_int, load_string, load_lines, load_locals, load_upvalues, load_constant,
  load_protos, load_code, repeat,
}
use primemover.Chunk.Dump.{
  same_bytes, same_string, own_source, dump_byte, dump_int, dump_string, dump_lines, dump_locals,
  dump_upvalues, dump_k, dump_code, dump_function, dump_functions,
}
use primemover.Chunk.Undump.{inherit, accept, load_body, load_function}
use primemover.Chunk.Yields.{
  Yields, Yields-pure, Yields-bind, Yields-end, Yields-map, load_byte-Yields,
}
use primemover.Chunk.Words.{swap, ShortString, load_int-Yields, load_string-Yields}
use primemover.Chunk.Parts.{
  load_code-Yields, load_lines-Yields, load_locals-Yields, load_upvalues-Yields, load_k-Yields,
}
use primemover.Chunk.Dumpable.{HeaderFits, IsAccepted, Dumpable, AllDumpable, depth, depths}

same_bytes-eq : (as' bs : Bytes) → same_bytes as' bs ≡ true → as' ≡ bs
unfolding same_bytes
same_bytes-eq [] [] h = refl
same_bytes-eq [] (b ∷ bs) h = cc
same_bytes-eq (a ∷ as') [] h = cc
same_bytes-eq (a ∷ as') (b ∷ bs) h = ground (arith, same_bytes-eq as' bs)

same_string-eq : (s t : Option Bytes) → same_string s t ≡ true → s ≡ t
unfolding same_string
same_string-eq Option.none Option.none h = refl
same_string-eq Option.none (some t) h = cc
same_string-eq (some s) Option.none h = cc
same_string-eq (some s) (some t) h = ap some (same_bytes-eq s t h)

-- The source of a function comes back, whether it was written or inherited.
inherit-own_source :
    (p s : Option Bytes) → (s ≡ p) ⊎ (s ≢ Option.none) → inherit p (own_source p s) ≡ s
inherit-own_source p s h = elim (Bool-cases (same_string s p)) [
  | inl e ↦ rw e (sym (same_string-eq s p e))
  | inr e ↦ rw e (own s h e)
]
  where
    own :
        (s : Option Bytes) → (s ≡ p) ⊎ (s ≢ Option.none) → same_string s p ≡ false → inherit p s ≡ s
    own (some s) h e = refl
    own Option.none (inl q) e = sym q
    own Option.none (inr q) e = absurd (q refl)

own_source-ShortString : (p s : Option Bytes) → ShortString s → ShortString (own_source p s)
own_source-ShortString p s h = elim (Bool-cases (same_string s p)) [
  | inl e ↦ rw e tt
  | inr e ↦ rw e h
]

accept-Yields : (f : Proto) → IsAccepted f → Yields (accept f) [] f
unfolding accept
accept-Yields f (i, e, nonzero) z rest v c =
    let passes : (i % 2 ^ 32 == 0) ≡ false = ground arith in (z, rw (e, accept, passes) refl, v, c)

module _ (l d : Bool) where
  load_body-Yields :
      (f : Header) (ps : Protos) (nested : Option Bytes → Load Proto)
      → HeaderFits f
      → sizep ps < 2 ^ 31
      → IsAccepted (proto f ps)
      → Yields
          (load_protos l (swap l d) (sizep ps) (nested f.source))
          (dump_functions d ps f.source)
          ps
      → Yields
          (load_body l (swap l d) nested f.source)
          (dump_int d f.line_defined
            ++ (dump_byte f.nups
                ++ (dump_byte f.numparams
                    ++ (dump_byte f.is_vararg
                        ++ (dump_byte f.maxstacksize
                            ++ (dump_lines d f.lineinfo
                                ++ (dump_locals d f.locvars
                                    ++ (dump_upvalues d f.upvalues
                                        ++ (dump_int d (length f.k)
                                            ++ (dump_k d f.k
                                                ++ (dump_int d (sizep ps)
                                                    ++ (dump_functions d ps f.source
                                                        ++ (dump_code d f.code)))))))))))))
          (proto f ps)
  unfolding load_body
  load_body-Yields f ps nested h np accepted inside =
      let w = swap l d in
      let r = proto f ps in
      let stack =
        dump_byte f.maxstacksize
        ++ (dump_lines d f.lineinfo
            ++ (dump_locals d f.locvars
                ++ (dump_upvalues d f.upvalues
                    ++ (dump_int d (length f.k)
                        ++ (dump_k d f.k
                            ++ (dump_int d (sizep ps)
                                ++ (dump_functions d ps f.source ++ (dump_code d f.code)))))))) in
      let varargs = dump_byte f.is_vararg ++ stack in
      let params = dump_byte f.numparams ++ varargs in
      Yields-bind (load_int l w) _ (dump_int d f.line_defined) _ f.line_defined r
        (load_int-Yields l d f.line_defined h.line_defined)
        (Yields-bind (load_byte) _ (dump_byte f.nups) params f.nups r
          (load_byte-Yields f.nups h.nups)
          (Yields-bind (load_byte) _ (dump_byte f.numparams) varargs f.numparams r
            (load_byte-Yields f.numparams h.numparams)
            (Yields-bind (load_byte) _ (dump_byte f.is_vararg) stack f.is_vararg r
              (load_byte-Yields f.is_vararg h.is_vararg)
              (Yields-bind (load_byte) _ (dump_byte f.maxstacksize) _ f.maxstacksize r
                (load_byte-Yields f.maxstacksize h.maxstacksize)
                (Yields-bind (load_lines l w) _ (dump_lines d f.lineinfo) _ f.lineinfo r
                  (load_lines-Yields l d f.lineinfo h.lines h.each_line)
                  (Yields-bind (load_locals l w) _ (dump_locals d f.locvars) _ f.locvars r
                    (load_locals-Yields l d f.locvars h.locals h.each_local)
                    (Yields-bind (load_upvalues l w f.nups) _ (dump_upvalues d f.upvalues) _
                      f.upvalues r
                      (load_upvalues-Yields l d f.upvalues f.nups h.upvalues h.named h.each_upvalue)
                      (Yields-bind (load_int l w) _ (dump_int d (length f.k)) _ (length f.k) r
                        (load_int-Yields l d (length f.k) h.constants)
                        (Yields-bind (repeat (length f.k) (load_constant l w)) _ (dump_k d f.k) _
                          f.k r (load_k-Yields l d f.k h.each_constant)
                          (Yields-bind (load_int l w) _ (dump_int d (sizep ps)) _ (sizep ps) r
                            (load_int-Yields l d (sizep ps) np)
                            (Yields-bind (load_protos l w (sizep ps) (nested f.source)) _
                              (dump_functions d ps f.source) _ ps r (inside)
                              (Yields-end (load_code l w) _ (dump_code d f.code) f.code r
                                (load_code-Yields l d f.code h.code h.each_instruction)
                                (accept-Yields r accepted)))))))))))))

  mutual
    unfolding load_function load_protos dump_function depth Dumpable

    pub load_function-Yields :
        (f : Proto) (p : Option Bytes) (fuel : ℕ)
        → depth f ≤ fuel
        → Dumpable f p
        → Yields (load_function l (swap l d) fuel p) (dump_function d f p) f
    load_function-Yields (proto f ps) p zero deep h = absurd (omega arith)
    load_function-Yields (proto f ps) p (suc fuel) deep (h, src, np, accepted, inside) =
        let w = swap l d in
        Yields-bind (load_string l w) _ (dump_string d (own_source p f.source)) _
          (own_source p f.source) (proto f ps)
          (load_string-Yields l d (own_source p f.source)
            (own_source-ShortString p f.source h.source))
          (rw (inherit-own_source p f.source src) (
            load_body-Yields f ps (λ q. load_function l w fuel q) h np accepted
              (load_protos-Yields ps f.source fuel (omega arith) inside)))

    pub load_protos-Yields :
        (ps : Protos) (p : Option Bytes) (fuel : ℕ)
        → depths ps ≤ fuel
        → AllDumpable ps p
        → Yields
            (load_protos l (swap l d) (sizep ps) (load_function l (swap l d) fuel p))
            (dump_functions d ps p)
            ps
    load_protos-Yields none p fuel deep h = Yields-pure none
    load_protos-Yields (cons f fs) p fuel deep h =
        let w = swap l d in
        Yields-bind (load_function l w fuel p) _ (dump_function d f p) _ f (cons f fs)
          (load_function-Yields f p fuel (omega arith) h.0)
          (Yields-map (load_protos l w (sizep fs) (load_function l w fuel p)) _
            (dump_functions d fs p) fs (cons f fs) (load_protos-Yields fs p fuel (omega arith) h.1)
            (λ z. refl))
