-- ===== src/Modes/Clauses.antt =====
-- lua/modemuncher.h: the meaning of a list of clauses, and `mode_munch` on the list printed.
use primemover.Prelude.{
  ℕ, zero, suc, ◌≤◌, ◌<◌, false, ◌||◌, none, some, List, [], ◌∷◌, ◌++◌, map, append_assoc, length,
  bit_and, bit_or, ◌==◌, if◌then◌else◌, ◌≡◌, ◌≢◌, ◌⊎◌, inl, inr, refl, ap, arith, length-append,
  ◌∙◌, All,
}
use primemover.Prelude.Bits.{bit_not, le-bit_or}
use primemover.Proto.{Bytes}
use primemover.Modes.{
  done, Turn, next, stop, who_letter, change_letter, operate, operator, specs, finish, alter, turn,
  munch_loop, mode_munch, letters,
}
use primemover.Modes.Letters.{bits_of, Letters, letters-append}

pub data Who : Type 0 where
  user group other all : Who

pub data Operator : Type 0 where
  add remove assign : Operator

pub data Change : Type 0 where
  read write execute set_id : Change

-- `ug+rw`: who is affected (everybody where nobody is named), and what is changed how
pub record Clause : Type 0 where
  pub who : List Who
  pub operator : Operator
  pub changes : List Change

abbrev who_char : Who → ℕ
who_char user = b'u'
who_char group = b'g'
who_char other = b'o'
who_char all = b'a'

abbrev operator_char : Operator → ℕ
operator_char add = b'+'
operator_char remove = b'-'
operator_char assign = b'='

abbrev change_char : Change → ℕ
change_char read = b'r'
change_char write = b'w'
change_char execute = b'x'
change_char set_id = b's'

unfoldable pub print_clause : Clause → Bytes
print_clause c = map who_char c.who ++ operator_char c.operator ∷ map change_char c.changes

unfoldable pub print : Clause → List Clause → Bytes
print c [] = print_clause c
print c (d ∷ ds) = print_clause c ++ 44 ∷ print d ds

abbrev who_bits : Who → ℕ
who_bits user = 2496
who_bits group = 1080
who_bits other = 519
who_bits all = 4095

abbrev change_bits : Change → ℕ
change_bits read = 292
change_bits write = 146
change_bits execute = 73
change_bits set_id = 3072

abbrev union : List ℕ → ℕ → ℕ
union [] bits = bits
union (b ∷ bs) bits = union bs (bit_or bits b)

unfoldable pub affected : List Who → ℕ
affected [] = 4095
affected (w ∷ ws) = union (map who_bits (w ∷ ws)) 0

-- A clause that names no change does nothing, whatever its operator.
abbrev change : Operator → ℕ → ℕ → ℕ → ℕ
change o zero bits mode = mode
change add ch bits mode = bit_or mode (bit_and ch bits)
change remove ch bits mode = bit_and mode (bit_not 32 (bit_and ch bits))
change assign ch bits mode = bit_and ch bits

unfoldable pub effect : Clause → ℕ → ℕ
effect c mode = change c.operator (union (map change_bits c.changes) 0) (affected c.who) mode

unfoldable pub effects : List Clause → ℕ → ℕ
effects [] mode = mode
effects (c ∷ cs) mode = effects cs (effect c mode)

-- A clause that starts with `-` would be taken for `rwxrwxrwx`.
abbrev pub Plain : Clause → Type 0
Plain c = (c.who ≢ []) ⊎ (c.operator ≢ remove)

who-Letters : (ws : List Who) → Letters who_letter (map who_char ws)
unfolding who_letter
who-Letters [] = tt
who-Letters (user ∷ ws) = ((2496, refl), who-Letters ws)
who-Letters (group ∷ ws) = ((1080, refl), who-Letters ws)
who-Letters (other ∷ ws) = ((519, refl), who-Letters ws)
who-Letters (all ∷ ws) = ((4095, refl), who-Letters ws)

change-Letters : (cs : List Change) → Letters change_letter (map change_char cs)
unfolding change_letter
change-Letters [] = tt
change-Letters (read ∷ cs) = ((292, refl), change-Letters cs)
change-Letters (write ∷ cs) = ((146, refl), change-Letters cs)
change-Letters (execute ∷ cs) = ((73, refl), change-Letters cs)
change-Letters (set_id ∷ cs) = ((3072, refl), change-Letters cs)

who-bits_of :
    (ws : List Who) (bits : ℕ)
    → bits_of who_letter (map who_char ws) bits ≡ union (map who_bits ws) bits
unfolding who_letter
who-bits_of [] bits = refl
who-bits_of (user ∷ ws) bits = who-bits_of ws (bit_or bits 2496)
who-bits_of (group ∷ ws) bits = who-bits_of ws (bit_or bits 1080)
who-bits_of (other ∷ ws) bits = who-bits_of ws (bit_or bits 519)
who-bits_of (all ∷ ws) bits = who-bits_of ws (bit_or bits 4095)

change-bits_of :
    (cs : List Change) (bits : ℕ)
    → bits_of change_letter (map change_char cs) bits ≡ union (map change_bits cs) bits
unfolding change_letter
change-bits_of [] bits = refl
change-bits_of (read ∷ cs) bits = change-bits_of cs (bit_or bits 292)
change-bits_of (write ∷ cs) bits = change-bits_of cs (bit_or bits 146)
change-bits_of (execute ∷ cs) bits = change-bits_of cs (bit_or bits 73)
change-bits_of (set_id ∷ cs) bits = change-bits_of cs (bit_or bits 3072)

le-union : (bs : List ℕ) (bits : ℕ) → bits ≤ union bs bits
le-union [] bits = omega arith
le-union (b ∷ bs) bits = omega (arith, (le-bit_or bits b).0, le-union bs (bit_or bits b))

-- Somebody who is named is affected.
union-who : (w : Who) (ws : List Who) → 0 < union (map who_bits (w ∷ ws)) 0
union-who user ws = omega (arith, le-union (map who_bits ws) (bit_or 0 2496))
union-who group ws = omega (arith, le-union (map who_bits ws) (bit_or 0 1080))
union-who other ws = omega (arith, le-union (map who_bits ws) (bit_or 0 519))
union-who all ws = omega (arith, le-union (map who_bits ws) (bit_or 0 4095))

alter-change :
    (o : Operator) (ch bits mode : ℕ)
    → alter mode (operator_char o) bits ch ≡ some (change o ch bits mode)
unfolding alter
alter-change o zero bits mode = refl
alter-change add (suc ch) bits mode = ground arith
alter-change remove (suc ch) bits mode = ground arith
alter-change assign (suc ch) bits mode = ground arith

turn-letters :
    (mode op c : ℕ) (p : Bytes) {bits : ℕ} {q : Bytes}
    → (c == 114 || c == 45) ≡ false
    → letters who_letter 0 (c ∷ p) ≡ some (bits, q)
    → turn mode op (c ∷ p) ≡ operate mode op (if bits == 0 then 4095 else bits) q
unfolding turn
turn-letters mode op c p h e = rw (h, e, turn) refl

who_char-starts : (w : Who) → (who_char w == 114 || who_char w == 45) ≡ false
who_char-starts user = refl
who_char-starts group = refl
who_char-starts other = refl
who_char-starts all = refl

operator_char-ends : (o : Operator) → who_letter (operator_char o) ≡ none
unfolding who_letter
operator_char-ends add = refl
operator_char-ends remove = refl
operator_char-ends assign = refl

-- what `finish` makes of the character behind a clause
abbrev after : ℕ → ℕ → ℕ → Bytes → Turn
after k m op p = if k == 44 then next m op p else stop (done m)

module _ (mode k : ℕ) (p : Bytes) (ends : (k ≡ 0) ⊎ (k ≡ 44)) where
  change_letter-ends : change_letter k ≡ none
  unfolding change_letter
  change_letter-ends = ground arith

  finish-change :
      (o : Operator) (ch bits : ℕ)
      → finish mode (operator_char o) bits ch (k ∷ p)
        ≡ after k (change o ch bits mode) (operator_char o) p
  unfolding finish
  finish-change o ch bits = ground (arith, alter-change o ch bits mode)

  specs-changes :
      (o : Operator) (bits : ℕ) (cs : List Change)
      → specs mode (operator_char o) bits (map change_char cs ++ k ∷ p)
        ≡ after k (change o (union (map change_bits cs) 0) bits mode) (operator_char o) p
  unfolding specs
  specs-changes o bits cs =
      rw
        (
          letters-append change_letter (map change_char cs) 0 k p (change-Letters cs)
              change_letter-ends,
          specs,
          change-bits_of cs 0,
        )
        (finish-change o (union (map change_bits cs) 0) bits)

  operate-changes :
      (o : Operator) (op bits : ℕ) (cs : List Change)
      → operate mode op bits (operator_char o ∷ (map change_char cs ++ k ∷ p))
        ≡ after k (change o (union (map change_bits cs) 0) bits mode) (operator_char o) p
  unfolding operate operator
  operate-changes add op bits cs = specs-changes add bits cs
  operate-changes remove op bits cs = specs-changes remove bits cs
  operate-changes assign op bits cs = specs-changes assign bits cs

  turn-parts :
      (ws : List Who) (o : Operator) (cs : List Change) (op : ℕ)
      → (ws ≢ []) ⊎ (o ≢ remove)
      → turn mode op (map who_char ws ++ (operator_char o ∷ (map change_char cs ++ k ∷ p)))
        ≡ after k (change o (union (map change_bits cs) 0) (affected ws) mode) (operator_char o) p
  unfolding turn affected letters who_letter
  turn-parts [] add cs op h = operate-changes add op 4095 cs
  turn-parts [] remove cs op (inl h) = absurd (h refl)
  turn-parts [] remove cs op (inr h) = absurd (h refl)
  turn-parts [] assign cs op h = operate-changes assign op 4095 cs
  turn-parts (w ∷ ws) o cs op h =
      let bits = union (map who_bits (w ∷ ws)) 0 in
      turn-letters mode op (who_char w) _ (who_char-starts w) (
        letters-append who_letter (map who_char (w ∷ ws)) 0 (operator_char o)
          (map change_char cs ++ k ∷ p) (who-Letters (w ∷ ws)) (operator_char-ends o))
      ∙ ap
          (λ (b : ℕ).
            operate mode op (if b == 0 then 4095 else b)
              (operator_char o ∷ (map change_char cs ++ k ∷ p)))
          (who-bits_of (w ∷ ws) 0)
      ∙ ap (λ (b : ℕ). operate mode op b (operator_char o ∷ (map change_char cs ++ k ∷ p)))
          (named bits (union-who w ws))
      ∙ operate-changes o op bits cs
    where
      named : (b : ℕ) → 0 < b → (if b == 0 then 4095 else b) ≡ b
      named b h = ground arith

  turn-clause :
      (c : Clause) (op : ℕ)
      → Plain c
      → turn mode op (print_clause c ++ k ∷ p)
        ≡ after k (effect c mode) (operator_char c.operator) p
  unfolding print_clause effect
  turn-clause c op h =
      rw
        (append_assoc (map who_char c.who) (operator_char c.operator ∷ map change_char c.changes)
          (k ∷ p))
        (turn-parts c.who c.operator c.changes op h)

length-print_clause : (c : Clause) → 0 < length (print_clause c)
unfolding print_clause
length-print_clause c = omega (
  arith,
  length-append (map who_char c.who) (operator_char c.operator ∷ map change_char c.changes),
)

munch_loop-print :
    (fuel mode op : ℕ) (c : Clause) (cs : List Clause)
    → length (print c cs) < fuel
    → Plain c
    → All Plain cs
    → munch_loop fuel mode op (print c cs ++ 0 ∷ []) ≡ done (effects (c ∷ cs) mode)
unfolding munch_loop print effects
munch_loop-print zero mode op c cs h pc pcs = absurd (omega arith)
munch_loop-print (suc fuel) mode op c [] h pc pcs =
    rw (turn-clause mode 0 [] (inl refl) c op pc, munch_loop) refl
munch_loop-print (suc fuel) mode op c (d ∷ ds) h pc (pd, pds) =
    rw
      (
        append_assoc (print_clause c) (44 ∷ print d ds) (0 ∷ []),
        turn-clause mode 44 (print d ds ++ 0 ∷ []) (inr refl) c op pc,
        munch_loop,
      )
      (munch_loop-print fuel (effect c mode) (operator_char c.operator) d ds
        (omega (arith, length-append (print_clause c) (44 ∷ print d ds), length-print_clause c)) pd
        pds)

-- `mode_munch` does to a mode what the clauses that its string prints mean, one after the other,
-- where no clause starts with `-`.
pub mode_munch-print :
    (mode : ℕ) (c : Clause) (cs : List Clause)
    → Plain c
    → All Plain cs
    → mode_munch mode (print c cs ++ 0 ∷ []) ≡ done (effects (c ∷ cs) mode)
unfolding mode_munch
mode_munch-print mode c cs pc pcs =
    munch_loop-print _ mode 0 c cs (omega (arith, length-append (print c cs) (0 ∷ []))) pc pcs
