-- ===== src/JumpLists/Concat.antt =====
-- lua/lcode.c: luaK_concat appends one list of jumps to another.
use primemover.Prelude.{
  ℕ, suc, ◌+◌, ◌<◌, true, false, ◌||◌, List, [], ◌∷◌, ◌++◌, length, append-nil, ◌==◌, ◌≡◌, ◌≢◌, ◌⊎◌,
  inl, inr, refl, sym, ◌∙◌, ap, arith, Bool-cases,
}
use primemover.Prelude.Int.{ℤ, pos, negsuc, ◌+ℤ◌, ◌-ℤ◌, ◌≤ℤ◌, eqb_ℤ, ltb_ℤ}
use primemover.Opcodes.{get_opcode, setarg_sbx, maxarg_sbx}
use primemover.Opcodes.Laws.{IsInstruction, setarg_sbx-reads}
use primemover.JumpLists.{
  no_jump, Patched, patched, getjump, put_instruction, fixjump, concat_loop, concat,
}

-- The list that begins at `l` has its jumps at these positions.
abbrev pub IsList : (ℕ → ℕ) → ℤ → List ℕ → Type 0
IsList code l [] = l ≡ no_jump
IsList code l (p ∷ ps) = (l ≡ pos p) × IsList code (getjump code p) ps

abbrev pub In : ℕ → List ℕ → Type 0
In x [] = ⊥
In x (p ∷ ps) = (x ≡ p) ⊎ In x ps

-- Every position is one that the operand of a jump reaches from any other.
abbrev pub InReach : List ℕ → Type 0
InReach [] = Unit
InReach (p ∷ ps) = (p < 131071) × InReach ps

-- The positions differ.
abbrev pub IsDistinct : List ℕ → Type 0
IsDistinct [] = Unit
IsDistinct (p ∷ ps) = ¬ In p ps × IsDistinct ps

-- the operand of a jump at `p` to `q`
abbrev distance : ℕ → ℕ → ℤ
distance p q = pos q -ℤ pos (p + 1)

distance-fits :
    (p q : ℕ)
    → p < 131071
    → q < 131071
    → (negsuc 131070 ≤ℤ distance p q) × (distance p q ≤ℤ pos 131071)
unfolding ◌-ℤ◌
distance-fits p q low low' = (ground arith, ground arith)

distance-tests :
    (p q : ℕ)
    → p < 131071
    → q < 131071
    → (ltb_ℤ (pos maxarg_sbx) (distance p q) || ltb_ℤ (distance p q) (pos 0 -ℤ pos maxarg_sbx))
      ≡ false
unfolding ◌-ℤ◌
distance-tests p q low low' = ground arith

distance-no_jump : (p q : ℕ) → p ≢ q → eqb_ℤ (distance p q) no_jump ≡ false
unfolding ◌-ℤ◌
distance-no_jump p q h = ground arith

distance-back : (p q : ℕ) → pos (p + 1) +ℤ distance p q ≡ pos q
unfolding ◌-ℤ◌ ◌+ℤ◌
distance-back p q = ground arith

put_instruction-same : (code : ℕ → ℕ) (p i : ℕ) → put_instruction code p i p ≡ i
put_instruction-same code p i = let same : (p == p) ≡ true = ground arith in rw same refl

fixjump-lem :
    (code : ℕ → ℕ) (l : ℤ) (p q : ℕ)
    → p < 131071
    → q < 131071
    → fixjump code l p (pos q)
      ≡ patched (put_instruction code p (setarg_sbx (code p) (distance p q))) l
unfolding fixjump
fixjump-lem code l p q low low' = rw (distance-tests p q low low') refl

getjump-fixed :
    (code : ℕ → ℕ) (p q : ℕ)
    → IsInstruction (code p)
    → p < 131071
    → q < 131071
    → p ≢ q
    → getjump (put_instruction code p (setarg_sbx (code p) (distance p q))) p ≡ pos q
unfolding getjump
getjump-fixed code p q fits low low' apart =
    let i : ℕ = setarg_sbx (code p) (distance p q) in
    let (lo, up) = distance-fits p q low low' in
    let (f, o, a, reads) = setarg_sbx-reads (code p) (distance p q) fits lo up in
    rw (put_instruction-same code p i)
      (rw reads (rw (distance-no_jump p q apart) (distance-back p q)))

getjump-other :
    (code : ℕ → ℕ) (p i x : ℕ) → x ≢ p → getjump (put_instruction code p i) x ≡ getjump code x
unfolding getjump
getjump-other code p i x h = let other : (x == p) ≡ false = ground arith in rw other refl

IsList-other :
    (code : ℕ → ℕ) (p i : ℕ) (l : ℤ) (qs : List ℕ)
    → ¬ In p qs
    → IsList code l qs
    → IsList (put_instruction code p i) l qs
IsList-other code p i l [] h e = e
IsList-other code p i l (q ∷ qs) h (e, rest) =
    let other : getjump (put_instruction code p i) q ≡ getjump code q =
      getjump-other code p i q (λ u. h (inl (sym u))) in
    (e, rw other (IsList-other code p i (getjump code q) qs (λ u. h (inr u)) rest))

-- The code differs at these positions at most, and there in an operand.
abbrev pub ChangesAt : (ℕ → ℕ) → (ℕ → ℕ) → List ℕ → Type 0
ChangesAt code code' ps =
    (x : ℕ)
    → (In x ps ⊎ (code' x ≡ code x))
      × IsInstruction (code' x)
      × (get_opcode (code' x) ≡ get_opcode (code x))

put_instruction-ChangesAt :
    (code : ℕ → ℕ) (p i : ℕ)
    → ((x : ℕ) → IsInstruction (code x))
    → IsInstruction i
    → get_opcode i ≡ get_opcode (code p)
    → ChangesAt code (put_instruction code p i) (p ∷ [])
put_instruction-ChangesAt code p i fits f o x = elim (Bool-cases (x == p)) [
  | inl here ↦
      let same : x ≡ p = ground arith in
      (inl (inl same), rw here f, rw here (o ∙ ap (λ y. get_opcode (code y)) (sym same)))
  | inr away ↦ (inr (rw away refl), rw away (fits x), rw away refl)
]

In-append : (x : ℕ) (ps qs : List ℕ) → In x ps → In x (ps ++ qs)
In-append x [] qs h = absurd h
In-append x (p ∷ ps) qs (inl e) = inl e
In-append x (p ∷ ps) qs (inr h) = inr (In-append x ps qs h)

getjump-same : (code code' : ℕ → ℕ) (p : ℕ) → code' p ≡ code p → getjump code' p ≡ getjump code p
unfolding getjump
getjump-same code code' p e = rw e refl

ChangesAt-more :
    (code code' : ℕ → ℕ) (p : ℕ) (ps : List ℕ)
    → ChangesAt code code' ps
    → ChangesAt code code' (p ∷ ps)
ChangesAt-more code code' p ps changes x =
    let (same, f, o) = changes x in (elim same [ inl h ↦ inl (inr h) | inr e ↦ inr e ], f, o)

-- `concat` gives this code and head.
abbrev pub Concatenates : (ℕ → ℕ) → Patched → List ℕ → List ℕ → Type 0
Concatenates code result ps qs =
    (code' : ℕ → ℕ) × (l' : ℤ) × (result ≡ patched code' l')
    × IsList code' l' (ps ++ qs)
    × ChangesAt code code' ps

module _ (code : ℕ → ℕ) (l : ℤ) (q : ℕ) (qs : List ℕ) (fits : (x : ℕ) → IsInstruction (code x))
    (list2 : IsList code (pos q) (q ∷ qs)) where
  concat_loop-lem :
      (p : ℕ) (ps : List ℕ)
      → IsList code (pos p) (p ∷ ps)
      → InReach (p ∷ ps ++ q ∷ qs)
      → IsDistinct (p ∷ ps ++ q ∷ qs)
      → (code' : ℕ → ℕ) × (concat_loop (suc (length ps)) code l p (pos q) ≡ patched code' l)
        × IsList code' (pos p) (p ∷ ps ++ q ∷ qs)
        × ChangesAt code code' (p ∷ ps)
  unfolding concat_loop
  concat_loop-lem p [] (e, end) (low, (low', h)) (apart, rest) =
      let i : ℕ = setarg_sbx (code p) (distance p q) in
      let code' : ℕ → ℕ = put_instruction code p i in
      let (lo, up) = distance-fits p q low low' in
      let (f, o, a, reads) = setarg_sbx-reads (code p) (distance p q) (fits p) lo up in
      let next : getjump code' p ≡ pos q =
        getjump-fixed code p q (fits p) low low' (λ u. apart (inl u)) in
      (
        code',
        rw (end, concat_loop) (fixjump-lem code l p q low low'),
        (refl, rw next (IsList-other code p i (pos q) (q ∷ qs) apart list2)),
        put_instruction-ChangesAt code p i fits f o,
      )
  concat_loop-lem p (r ∷ rs) (e, (next, list)) (low, reach) (apart, rest) =
      let (code', runs, whole, changes) = concat_loop-lem r rs (refl, list) reach rest in
      let (same, f, o) = changes p in
      let kept : getjump code' p ≡ pos r = elim same [
        | inl again ↦ absurd (apart (In-append p (r ∷ rs) (q ∷ qs) again))
        | inr eq ↦ getjump-same code code' p eq ∙ next
      ] in
      (
        code',
        rw (next, concat_loop) runs,
        (refl, rw kept whole),
        ChangesAt-more code code' p (r ∷ rs) changes,
      )

-- Where two lists of jumps are made of different positions below 131071, luaK_concat ends and makes
-- the list of the first's jumps and the second's; only instructions of the first list may change, in
-- an operand, no opcode does, and every instruction keeps to 32 bits.
pub concat-Concatenates :
    (code : ℕ → ℕ) (l1 l2 : ℤ) (ps qs : List ℕ)
    → ((x : ℕ) → IsInstruction (code x))
    → IsList code l1 ps
    → IsList code l2 qs
    → InReach (ps ++ qs)
    → IsDistinct (ps ++ qs)
    → Concatenates code (concat (length ps) code l1 l2) ps qs
unfolding concat
concat-Concatenates code l1 l2 ps [] fits list1 list2 reach apart =
    (code, l1, rw list2 refl, rw (append-nil ps) list1, λ x. (inr refl, fits x, refl))
concat-Concatenates code l1 l2 [] (q ∷ qs) fits list1 (e, list2) reach apart =
    (code, pos q, rw e (rw list1 refl), (refl, list2), λ x. (inr refl, fits x, refl))
concat-Concatenates code l1 l2 (p ∷ ps) (q ∷ qs) fits (e, list1) (e', list2) reach apart =
    let (code', runs, whole, changes) =
      concat_loop-lem code (pos p) q qs fits (refl, list2) p ps (refl, list1) reach apart in
    (code', pos p, rw e (rw e' runs), whole, changes)
