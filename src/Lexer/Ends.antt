-- ===== src/Lexer/Ends.antt =====
-- lua/llex.c: each loop ends, since each turn takes bytes, and counts the newlines that it takes.
use primemover.Prelude.{
  ℕ, zero, suc, ◌+◌, ◌-◌, ◌*◌, ◌≤◌, ◌<◌, Bool, true, false, not, [], ◌∷◌, length, codes, ltb, ◌==◌,
  if◌then◌else◌, ◌≡◌, ◌≢◌, inl, inr, refl, ap, arith, Bool-cases,
}
use primemover.Proto.{Bytes}
use primemover.Patterns.{isdigit}
use primemover.Lexer.{
  LexState, Read, ok, failed, out_of_fuel, Turn, again, stop, iterate, starts_with, next, too_many,
}
use primemover.Lexer.Readers.{
  LongState, long_newline, long_close, long_turn, long_step, read_long_string, StringState, decimal,
  save_escape, read_escape, string_turn, string_step, read_string,
}

-- The newlines in an input.
unfoldable pub newlines : Bytes → ℕ
newlines [] = 0
newlines (c ∷ input) = (if c == 10 then 1 else 0) + newlines input

-- A reader that started with `n` bytes at hand comes to an end, and what it leaves is no longer; its
-- line and the newlines that it leaves make `v`.
abbrev pub Consumes {ℓ} : {A : Type ℓ} → (n v : ℕ) → Read A → Type 0
Consumes n v (ok a s) = (length s.input ≤ n) × (s.linenumber + newlines s.input ≡ v)
Consumes n v (failed e line) = Unit
Consumes n v out_of_fuel = ⊥

pub Consumes-weaken :
    {A : Type 0} (n m v : ℕ) (r : Read A) → n ≤ m → Consumes n v r → Consumes m v r
Consumes-weaken n m v (ok a s) h c = (omega (arith, c.0), c.1)
Consumes-weaken n m v (failed e line) h c = tt
Consumes-weaken n m v out_of_fuel h c = c

-- A turn that goes on has taken a byte.
abbrev pub Fair : {S A : Type 0} → (size weight : S → ℕ) → (n v : ℕ) → Turn S (Read A) → Type 0
Fair size weight n v (again s) = (size s < n) × (weight s ≡ v)
Fair size weight n v (stop r) = Consumes n v r

pub iterate-Consumes :
    {S A : Type 0} (size weight : S → ℕ) (step : S → Turn S (Read A))
    → ((s : S) → Fair size weight (size s) (weight s) (step s))
    → (fuel : ℕ) (s : S) → size s < fuel
    → Consumes (size s) (weight s) (iterate step fuel s)
unfolding iterate
iterate-Consumes size weight step fair zero s h = absurd (omega arith)
iterate-Consumes {S = S} {A = A} size weight step fair (suc fuel) s h =
    of_turn (step s) (fair s) (λ s' f. iterate-Consumes size weight step fair fuel s' f)
  where
    of_turn :
        (turn : Turn S (Read A))
        → Fair size weight (size s) (weight s) turn
        → ((s' : S) → size s' < fuel → Consumes (size s') (weight s') (iterate step fuel s'))
        → Consumes
            (size s)
            (weight s)
            (elim turn as (λ x. Read A) [ again s' ↦ iterate step fuel s' | stop r ↦ r ])
    of_turn (again s') f later =
        Consumes-weaken (size s') (size s) (weight s) _ (omega (arith, f.0))
          (rw f.1 at (later s' (omega (arith, f.0))))
    of_turn (stop r) f later = f

pub if-Fair :
    {S A : Type 0} (size weight : S → ℕ) (n v : ℕ) (b : Bool) (x y : Turn S (Read A))
    → (b ≡ true → Fair size weight n v x)
    → (b ≡ false → Fair size weight n v y)
    → Fair size weight n v (if b then x else y)
if-Fair size weight n v true x y h k = h refl
if-Fair size weight n v false x y h k = k refl

next-length : (input : Bytes) → length (next input) ≤ length input
next-length [] = omega arith
next-length (c ∷ input) = omega arith

-- What begins with a byte that is no newline keeps its newlines behind it.
pub next_starts :
    (c : ℕ) (input : Bytes)
    → starts_with c input ≡ true
    → (length (next input) < length input)
      × (newlines input ≡ (if c == 10 then 1 else 0) + newlines (next input))
unfolding newlines
next_starts c [] h = absurd cc
next_starts c (d ∷ input) h = let same : d ≡ c = ground arith in (omega arith, ground arith)

abbrev long_size : LongState → ℕ
long_size s = length s.input

abbrev long_weight : LongState → ℕ
long_weight s = s.line + newlines s.input

-- What a turn does to a buffer does not matter here.
long_newline-Fair :
    (keep : Bool) (s : LongState) (input : Bytes)
    → Fair long_size long_weight
        (suc (length input))
        (s.line + 1 + newlines input)
        (long_newline keep s input)
long_newline-Fair keep s input =
    if-Fair long_size long_weight (suc (length input)) (s.line + 1 + newlines input)
      (too_many (s.line + 1)) _ _ (λ h. tt) (λ h. (omega arith, refl))

long_close-Fair :
    (s : LongState) (n : ℕ) (input : Bytes)
    → length input < n
    → Fair long_size long_weight n (s.line + newlines input) (long_close s input)
long_close-Fair s n input h =
    if-Fair long_size long_weight n (s.line + newlines input) (s.cont == 0) _ _
      (λ e. (omega arith, refl)) (λ e. (h, refl))

long_turn-Fair :
    (keep : Bool) (s : LongState) (input : Bytes)
    → Fair long_size long_weight (length input) (s.line + newlines input) (long_turn keep s input)
unfolding long_turn newlines
long_turn-Fair keep s [] = tt
long_turn-Fair keep s (c ∷ input) =
    if-Fair long_size long_weight n v (c == b'[') _ _
      (λ h.
        if-Fair long_size long_weight n v (starts_with b'[' input) _ _
          (λ h'. let (short, kept) = next_starts b'[' input h' in (omega arith, ground arith))
          (λ h'. (omega arith, ground arith)))
      (λ h.
        if-Fair long_size long_weight n v (c == b']') _ _
          (λ h'.
            if-Fair long_size long_weight n v (starts_with b']' input) _ _
              (λ u.
                let (short, kept) = next_starts b']' input u in
                let same : s.line + newlines (next input) ≡ v = ground arith in
                rw same at (long_close-Fair s n (next input) (omega arith)))
              (λ u. (omega arith, ground arith)))
          (λ h'.
            if-Fair long_size long_weight n v (c == 10) _ _
              (λ u.
                let same : s.line + 1 + newlines input ≡ v = ground arith in
                rw same at (long_newline-Fair keep s input))
              (λ u. (omega arith, ground arith))))
  where
    n : ℕ
    n = suc (length input)

    v : ℕ
    v = s.line + ((if c == 10 then 1 else 0) + newlines input)

abbrev string_size : StringState → ℕ
string_size s = length s.input

abbrev string_weight : StringState → ℕ
string_weight s = s.line + newlines s.input

decimal-length : (n c : ℕ) (input : Bytes) → length (decimal n c input).1 ≤ length input
unfolding decimal
decimal-length zero c input = omega arith
decimal-length (suc n) c [] = omega arith
decimal-length (suc n) c (d ∷ input) = elim (Bool-cases (isdigit d)) [
  | inl h ↦ rw h (omega (arith, decimal-length n (10 * c + (d - b'0')) input))
  | inr h ↦ rw h (omega arith)
]

decimal-newlines : (n c : ℕ) (input : Bytes) → newlines (decimal n c input).1 ≡ newlines input
unfolding decimal newlines
decimal-newlines zero c input = refl
decimal-newlines (suc n) c [] = refl
decimal-newlines (suc n) c (d ∷ input) = elim (Bool-cases (isdigit d)) [
  | inl h ↦
      let later = decimal-newlines n (10 * c + (d - b'0')) input in rw h (ground (arith, later))
  | inr h ↦ rw h refl
]

read_escape-Fair :
    (s : StringState) (input : Bytes)
    → Fair string_size string_weight
        (suc (length input))
        (s.line + newlines input)
        (read_escape s input)
unfolding read_escape newlines
read_escape-Fair s [] = (omega arith, refl)
read_escape-Fair s (d ∷ input) =
    saved 7 (d == b'a') _ (λ h. ground arith)
      (λ h1.
        saved 8 (d == b'b') _ (λ h. ground arith)
          (λ h2.
            saved 12 (d == b'f') _ (λ h. ground arith)
              (λ h3.
                saved 10 (d == b'n') _ (λ h. ground arith)
                  (λ h4.
                    saved 13 (d == b'r') _ (λ h. ground arith)
                      (λ h5.
                        saved 9 (d == b't') _ (λ h. ground arith)
                          (λ h6.
                            saved 11 (d == b'v') _ (λ h. ground arith)
                              (λ h7.
                                if-Fair string_size string_weight n v (d == 10) _ _
                                  (λ h.
                                    if-Fair string_size string_weight n v (too_many (s.line + 1)) _
                                      _ (λ u. tt) (λ u. (omega arith, ground arith)))
                                  (λ h8.
                                    saved d (not (isdigit d)) _ (λ h. ground arith)
                                      (λ h9.
                                        if-Fair string_size string_weight n v
                                          (ltb 255 (decimal 3 0 (d ∷ input)).0) _ _ (λ u. tt)
                                          (λ u. (
                                            omega (arith, decimal-length 3 0 (d ∷ input)),
                                            ap (λ (x : ℕ). s.line + x)
                                                (decimal-newlines 3 0 (d ∷ input)),
                                          )))))))))))
  where
    n : ℕ
    n = suc (suc (length input))

    v : ℕ
    v = s.line + ((if d == 10 then 1 else 0) + newlines input)

    saved :
        (c : ℕ) (b : Bool) (y : Turn StringState (Read Bytes))
        → (b ≡ true → d ≢ 10)
        → (b ≡ false → Fair string_size string_weight n v y)
        → Fair string_size string_weight n v (if b then save_escape s c input else y)
    saved c b y other k =
        if-Fair string_size string_weight n v b _ y
          (λ h. let apart = other h in (omega arith, ground arith)) k

string_turn-Fair :
    (del : ℕ) (s : StringState) (input : Bytes)
    → del ≢ 10
    → Fair string_size string_weight
        (length input)
        (s.line + newlines input)
        (string_turn del s input)
unfolding string_turn newlines
string_turn-Fair del s [] apart = tt
string_turn-Fair del s (c ∷ input) apart =
    if-Fair string_size string_weight n v (c == del) _ _ (λ h. (omega arith, ground arith))
      (λ h.
        if-Fair string_size string_weight n v (c == 10) _ _ (λ h'. tt)
          (λ h'.
            if-Fair string_size string_weight n v (c == b'\\') _ _
              (λ u.
                let same : s.line + newlines input ≡ v = ground arith in
                rw same at (read_escape-Fair s input))
              (λ u. (omega arith, ground arith))))
  where
    n : ℕ
    n = suc (length input)

    v : ℕ
    v = s.line + ((if c == 10 then 1 else 0) + newlines input)

pub newlines-other : (c : ℕ) (input : Bytes) → c ≢ 10 → newlines (c ∷ input) ≡ newlines input
unfolding newlines
newlines-other c input h = ground arith

-- read_string ends on every input, and counts the newlines that it takes.
pub read_string-Consumes :
    (del : ℕ) (s : LexState) (input : Bytes)
    → s.input ≡ del ∷ input
    → del ≢ 10
    → Consumes (length input) (s.linenumber + newlines s.input) (read_string del s)
unfolding read_string
read_string-Consumes del s input e apart =
    rw (e, read_string)
      (rw (newlines-other del input apart) (
        iterate-Consumes string_size string_weight (string_step del)
          (λ t. string_turn-Fair del t t.input apart) (suc (suc (length input)))
          (record { buff = del ∷ []; input = input; line = s.linenumber }) (omega arith)))

long_loop-Consumes :
    (keep : Bool) (buff input : Bytes) (fuel line : ℕ)
    → length input < fuel
    → Consumes (length input) (line + newlines input) (
        iterate
          (long_step keep)
          fuel
          (record { cont = 0; buff = buff; input = input; line = line }))
long_loop-Consumes keep buff input fuel line h =
    iterate-Consumes long_size long_weight (long_step keep) (λ t. long_turn-Fair keep t t.input)
      fuel (record { cont = 0; buff = buff; input = input; line = line }) h

-- read_long_string ends on every input, and counts the newlines that it takes.
pub read_long_string-Consumes :
    (keep : Bool) (s : LexState) (input : Bytes)
    → s.input ≡ b'[' ∷ input
    → Consumes (length input) (s.linenumber + newlines s.input) (read_long_string keep s)
unfolding read_long_string
read_long_string-Consumes keep s input e =
    rw (e, read_long_string)
      (rw (newlines-other b'[' input (λ h. omega arith)) (elim (Bool-cases (starts_with 10 input)) [
        | inr h ↦ rw h (
            long_loop-Consumes keep (codes "[[") input (suc (length input)) s.linenumber
              (omega arith))
        | inl h ↦
            let (short, kept) = next_starts 10 input h in
            let same : s.linenumber + 1 + newlines (next input) ≡ s.linenumber + newlines input =
              ground arith in
            rw h (elim (Bool-cases (too_many (s.linenumber + 1))) [
              | inl u ↦ rw u tt
              | inr u ↦ rw u (
                  Consumes-weaken (length (next input)) (length input)
                    (s.linenumber + newlines input) _ (omega arith)
                    (rw same at (
                      long_loop-Consumes keep (codes "[[") (next input) (suc (length input))
                        (s.linenumber + 1) (omega arith))))
            ])
      ]))
