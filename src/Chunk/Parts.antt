-- ===== src/Chunk/Parts.antt =====
-- The parts of a dumped function read back.
use primemover.Prelude.{
  ℕ, ◌*◌, ◌^◌, ◌<◌, ◌≡◌, ◌⊎◌, inl, inr, refl, arith, Bool, true, List, [], ◌∷◌, ◌++◌, length,
  Option, All, ◌==◌, ◌||◌,
}
use primemover.Proto.{Bytes, LocVar, Constant, nil, number, str}
use primemover.Chunk.Load.{
  repeat, load_byte, load_int, load_number, load_string, load_code, load_locals, load_locvar,
  load_lines, load_upvalues, load_constant, constant_of, bad_nupvalues,
}
use primemover.Chunk.Dump.{
  dump_each, dump_vector, dump_int, dump_number, dump_string, dump_code, dump_locvar, dump_locals,
  dump_lines, dump_upvalues, dump_constant, dump_k, tnil, tnumber, tstring,
}
use primemover.Chunk.Yields.{
  Yields, Yields-pure, Yields-bind, Yields-guard, load_byte-Yields, repeat-Yields,
}
use primemover.Chunk.Words.{
  swap, ShortString, load_int-Yields, load_number-Yields, load_vector-Yields, load_string-Yields,
}
use primemover.Chunk.Dumpable.{LocVarFits, ConstantFits}

-- `P` of each element from `Q` of each
All-map {ℓ κ μ} :
    {A : Type ℓ} {P : A → Type κ} {Q : A → Type μ}
    → ((x : A) → P x → Q x)
    → (xs : List A) → All P xs
    → All Q xs
All-map f [] h = tt
All-map f (x ∷ xs) h = (f x h.0, All-map f xs h.1)

module _ (l d : Bool) where
  pub load_code-Yields :
      (code : List ℕ)
      → length code * 8 < 2 ^ 31
      → All (λ x. x < 256 ^ 8) code
      → Yields (load_code l (swap l d)) (dump_code d code) code
  unfolding load_code dump_code
  load_code-Yields code small each =
      Yields-bind (load_int l (swap l d)) _ (dump_int d (length code)) (dump_vector d 8 code)
        (length code) code (load_int-Yields l d (length code) (omega arith))
        (load_vector-Yields l d 8 (length code) code refl small each)

  pub load_lines-Yields :
      (lines : List ℕ)
      → length lines * 4 < 2 ^ 31
      → All (λ x. x < 256 ^ 4) lines
      → Yields (load_lines l (swap l d)) (dump_lines d lines) lines
  unfolding load_lines dump_lines
  load_lines-Yields lines small each =
      Yields-bind (load_int l (swap l d)) _ (dump_int d (length lines)) (dump_vector d 4 lines)
        (length lines) lines (load_int-Yields l d (length lines) (omega arith))
        (load_vector-Yields l d 4 (length lines) lines refl small each)

  load_locvar-Yields :
      (v : LocVar) → LocVarFits v → Yields (load_locvar l (swap l d)) (dump_locvar d v) v
  unfolding load_locvar dump_locvar
  load_locvar-Yields v h =
      Yields-bind (load_string l (swap l d)) _ (dump_string d v.varname) _ v.varname v
        (load_string-Yields l d v.varname h.0)
        (Yields-bind (load_int l (swap l d)) _ (dump_int d v.startpc) _ v.startpc v
          (load_int-Yields l d v.startpc h.1)
          (Yields-bind (load_int l (swap l d)) _ (dump_int d v.endpc) [] v.endpc v
            (load_int-Yields l d v.endpc h.2) (Yields-pure v)))

  pub load_locals-Yields :
      (vs : List LocVar)
      → length vs < 2 ^ 31
      → All LocVarFits vs
      → Yields (load_locals l (swap l d)) (dump_locals d vs) vs
  unfolding load_locals dump_locals
  load_locals-Yields vs small each =
      Yields-bind (load_int l (swap l d)) _ (dump_int d (length vs)) (dump_each (dump_locvar d) vs)
        (length vs) vs (load_int-Yields l d (length vs) small)
        (repeat-Yields (load_locvar l (swap l d)) (dump_locvar d) vs (length vs) refl
          (All-map load_locvar-Yields vs each))

  pub load_upvalues-Yields :
      (ss : List (Option Bytes)) (nups : ℕ)
      → length ss < 2 ^ 31
      → (length ss ≡ 0) ⊎ (length ss ≡ nups)
      → All ShortString ss
      → Yields (load_upvalues l (swap l d) nups) (dump_upvalues d ss) ss
  unfolding load_upvalues dump_upvalues
  load_upvalues-Yields ss nups small named each =
      Yields-bind (load_int l (swap l d)) _ (dump_int d (length ss)) (dump_each (dump_string d) ss)
        (length ss) ss (load_int-Yields l d (length ss) small)
        (Yields-guard (length ss == 0 || length ss == nups) (bad_nupvalues (length ss) nups)
          (repeat (length ss) (load_string l (swap l d))) (dump_each (dump_string d) ss) ss
          (known named)
          (repeat-Yields (load_string l (swap l d)) (dump_string d) ss (length ss) refl
            (All-map (load_string-Yields l d) ss each)))
    where
      known : (length ss ≡ 0) ⊎ (length ss ≡ nups) → (length ss == 0 || length ss == nups) ≡ true
      known (inl e) = ground arith
      known (inr e) = ground arith

  load_constant-Yields :
      (o : Constant) → ConstantFits o → Yields (load_constant l (swap l d)) (dump_constant d o) o
  unfolding load_constant dump_constant constant_of
  load_constant-Yields nil h =
      Yields-bind load_byte (constant_of l (swap l d)) (tnil ∷ []) [] tnil nil
        (load_byte-Yields tnil (omega arith)) (Yields-pure nil)
  load_constant-Yields (number x) h =
      Yields-bind load_byte (constant_of l (swap l d)) (tnumber ∷ []) (dump_number d x ++ [])
        tnumber (number x) (load_byte-Yields tnumber (omega arith))
        (Yields-bind (load_number l (swap l d)) _ (dump_number d x) [] x (number x)
          (load_number-Yields l d x h) (Yields-pure (number x)))
  load_constant-Yields (str s) h =
      Yields-bind load_byte (constant_of l (swap l d)) (tstring ∷ []) (dump_string d s ++ [])
        tstring (str s) (load_byte-Yields tstring (omega arith))
        (Yields-bind (load_string l (swap l d)) _ (dump_string d s) [] s (str s)
          (load_string-Yields l d s h) (Yields-pure (str s)))

  pub load_k-Yields :
      (os : List Constant)
      → All ConstantFits os
      → Yields (repeat (length os) (load_constant l (swap l d))) (dump_k d os) os
  unfolding dump_k
  load_k-Yields os each =
      repeat-Yields (load_constant l (swap l d)) (dump_constant d) os (length os) refl
        (All-map load_constant-Yields os each)
