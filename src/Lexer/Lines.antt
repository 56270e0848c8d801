-- ===== src/Lexer/Lines.antt =====
-- lua/llex.c: luaX_lex ends on every input, takes bytes where there are any, and counts lines.
use primemover.Prelude.{
  ℕ, suc, ◌+◌, ◌-◌, ◌≤◌, ◌<◌, Bool, true, false, not, ◌||◌, ◌&&◌, Option, none, some, [], ◌∷◌, ◌++◌,
  length, codes, ◌==◌, if◌then◌else◌, ◌≡◌, ◌≢◌, inl, inr, refl, sym, ◌∙◌, ap, arith, Bool-cases,
}
use mathlib.Core.Path.{subst}
use primemover.Proto.{Bytes}
use primemover.Patterns.{isdigit, isalnum}
use primemover.Lexer.{
  SemInfo, number, Token, LexState, malformed_number, ambiguous_syntax, Read, ok, failed,
  out_of_fuel, Turn, again, stop, iterate, save_while, starts_with, next, too_many, readname,
  isalpha, isspace, iscntrl, tk_number, tk_eq, tk_le, tk_ge, tk_ne,
}
use primemover.Lexer.Readers.{read_exponent, read_numeral}
use primemover.Lexer.Lex.{
  as_token, as_string, skipped, skip_line, lex_minus, lex_equals, lex_dot, named, lex_other,
  lex_turn, lex_step, lex, digit_first,
}
use primemover.Lexer.Ends.{
  newlines, newlines-other, Consumes, Consumes-weaken, iterate-Consumes, Fair, next_starts,
  read_string-Consumes, read_long_string-Consumes,
}

-- What is left after some bytes, none of them a newline.
abbrev Left : Bytes → Bytes → Type 0
Left input rest = (length rest ≤ length input) × (newlines rest ≡ newlines input)

save_while-Left :
    (class : ℕ → Bool) → class 10 ≡ false → (input : Bytes) → Left input (save_while class input).1
unfolding save_while newlines
save_while-Left class h [] = (omega arith, refl)
save_while-Left class h (c ∷ input) = elim (Bool-cases (class c)) [
  | inl u ↦
      let (short, kept) = save_while-Left class h input in
      let other : c ≢ 10 = λ e. clash (rw e at u) h in rw u (omega arith, ground arith)
  | inr u ↦ rw u (omega arith, refl)
]
  where
    clash : {b : Bool} → b ≡ true → b ≡ false → ⊥
    clash h k = cc

starts-Left :
    (c : ℕ) (input : Bytes) → c ≢ 10 → starts_with c input ≡ true → Left input (next input)
starts-Left c input other h =
    let (short, kept) = next_starts c input h in (omega arith, ground arith)

starts-cons : (c : ℕ) (input : Bytes) → starts_with c input ≡ true → input ≡ c ∷ next input
starts-cons c [] h = absurd cc
starts-cons c (d ∷ input) h = ap (λ (x : ℕ). x ∷ input) (ground arith)

both-true : {a b : Bool} → (a && b) ≡ true → (a ≡ true) × (b ≡ true)
both-true {a = true} h = (refl, h)
both-true {a = false} h = absurd cc

Left-trans : (a b c : Bytes) → Left a b → Left b c → Left a c
Left-trans a b c h k = (omega (arith, h.0, k.0), k.1 ∙ h.1)

optional-Left :
    (b : Bool) (input : Bytes)
    → (b ≡ true → Left input (next input))
    → Left input (if b then next input else input)
optional-Left true input h = h refl
optional-Left false input h = (omega arith, refl)

read_exponent-Left : (input : Bytes) → Left input (read_exponent input).1
unfolding read_exponent newlines
read_exponent-Left [] = (omega arith, refl)
read_exponent-Left (c ∷ input) = elim (Bool-cases (c == b'e' || c == b'E')) [
  | inr u ↦ rw u (omega arith, refl)
  | inl u ↦
      let sign = optional-Left (starts_with b'+' input || starts_with b'-' input) input signed in
      let (short, kept) = Left-trans input _ _ sign (save_while-Left isdigit refl _) in
      let other : c ≢ 10 = ground arith in rw u (omega arith, ground arith)
]
  where
    signed : (starts_with b'+' input || starts_with b'-' input) ≡ true → Left input (next input)
    signed h = elim (Bool-cases (starts_with b'+' input)) [
      | inl u ↦ starts-Left b'+' input (λ e. omega arith) u
      | inr u ↦ starts-Left b'-' input (λ e. omega arith) (rw u at h)
    ]

module _ {N : Type 0} (str2d : Bytes → Option N) where
  number-Consumes :
      (o : Option N) (rest : Bytes) (line n v : ℕ)
      → length rest ≤ n
      → line + newlines rest ≡ v
      → Consumes n v (elim o as (λ x. Read (SemInfo N)) [
        | none ↦ failed malformed_number line
        | some r ↦ ok (number r) (record { input = rest; linenumber = line })
      ])
  number-Consumes none rest line n v short kept = tt
  number-Consumes (some r) rest line n v short kept = (short, kept)

  read_numeral-Consumes :
      (buff : Bytes) (s : LexState) (n : ℕ)
      → length (save_while isdigit s.input).1 ≤ n
      → Consumes n (s.linenumber + newlines s.input) (read_numeral str2d buff s)
  unfolding read_numeral
  read_numeral-Consumes buff s n short =
      parts (starts_with b'.' whole) (save_while-Left isdigit refl s.input)
        (optional-Left (starts_with b'.' whole) whole (starts-Left b'.' whole (λ e. omega arith)))
    where
      whole : Bytes
      whole = (save_while isdigit s.input).1

      if-Consumes :
          (b : Bool) (x y : Read (SemInfo N))
          → Consumes n (s.linenumber + newlines s.input) x
          → Consumes n (s.linenumber + newlines s.input) y
          → Consumes n (s.linenumber + newlines s.input) (if b then x else y)
      if-Consumes true x y h k = h
      if-Consumes false x y h k = k

      parts :
          (point : Bool)
          → Left s.input whole
          → Left whole (if point then next whole else whole)
          → Consumes n (s.linenumber + newlines s.input) (
              let behind = if point then next whole else whole in
              let fraction = save_while isdigit behind in
              let exponent = read_exponent fraction.1 in
              let text =
                buff
                ++ ((save_while isdigit s.input).0
                    ++ ((if point then codes "." else []) ++ (fraction.0 ++ exponent.0))) in
              if point && starts_with b'.' behind
              then failed ambiguous_syntax s.linenumber
              else elim (str2d text) as (λ x. Read (SemInfo N)) [
                | none ↦ failed malformed_number s.linenumber
                | some r ↦ ok (number r) (record { input = exponent.1; linenumber = s.linenumber })
              ])
      parts point first second =
          let behind = if point then next whole else whole in
          let fraction = save_while isdigit behind in
          let (short', kept) = Left-trans whole behind _ second (
            Left-trans behind fraction.1 _ (save_while-Left isdigit refl behind)
              (read_exponent-Left fraction.1)) in
          if-Consumes (point && starts_with b'.' behind) _ _ tt (
            number-Consumes _ (read_exponent fraction.1).1 s.linenumber n
              (s.linenumber + newlines s.input) (omega (arith, short))
              (ap (λ (x : ℕ). s.linenumber + x) (kept ∙ first.1)))

  -- What a turn of luaX_lex does with an input behind its first byte.
  abbrev Takes : (n v : ℕ) → Turn LexState (Read (Token N)) → Type 0
  Takes n v (again s) = (length s.input ≤ n) × (s.linenumber + newlines s.input ≡ v)
  Takes n v (stop r) = Consumes n v r

  if-Takes :
      (n v : ℕ) (b : Bool) (x y : Turn LexState (Read (Token N)))
      → (b ≡ true → Takes n v x)
      → (b ≡ false → Takes n v y)
      → Takes n v (if b then x else y)
  if-Takes n v true x y h k = h refl
  if-Takes n v false x y h k = k refl

  as_token-Takes :
      (token n v : ℕ) (r : Read (SemInfo N)) → Consumes n v r → Takes n v (as_token str2d token r)
  as_token-Takes token n v (ok info s) c = c
  as_token-Takes token n v (failed e line) c = tt
  as_token-Takes token n v out_of_fuel c = c

  as_string-Takes : (n v : ℕ) (r : Read Bytes) → Consumes n v r → Takes n v (as_string str2d r)
  as_string-Takes n v (ok text s) c = c
  as_string-Takes n v (failed e line) c = tt
  as_string-Takes n v out_of_fuel c = c

  skipped-Takes : (n v : ℕ) (r : Read Bytes) → Consumes n v r → Takes n v (skipped str2d r)
  skipped-Takes n v (ok text s) c = c
  skipped-Takes n v (failed e line) c = tt
  skipped-Takes n v out_of_fuel c = c

  skip_line-Left : (input : Bytes) → Left input (skip_line input)
  unfolding skip_line newlines
  skip_line-Left [] = (omega arith, refl)
  skip_line-Left (c ∷ input) = elim (Bool-cases (c == 10)) [
    | inl u ↦
        let same : skip_line (c ∷ input) ≡ c ∷ input = rw u refl in rw same (omega arith, refl)
    | inr u ↦ let (short, kept) = skip_line-Left input in rw u (omega arith, kept ∙ omega arith)
  ]

  lex_minus-Takes :
      (s : LexState) (input : Bytes)
      → Takes (length input) (s.linenumber + newlines input) (lex_minus str2d s input)
  unfolding lex_minus
  lex_minus-Takes s input =
      if-Takes n v (not (starts_with b'-' input)) _ _ (λ h. (omega arith, refl))
        (λ h.
          let behind = starts-Left b'-' input (λ e. omega arith) (ground arith) in
          if-Takes n v (starts_with b'[' text && starts_with b'[' (next text)) _ _
            (λ u.
              let (first, second) = both-true u in
              let (short, kept) =
                Left-trans input text (next text) behind
                  (starts-Left b'[' text (λ e. omega arith) first) in
              let (short', kept') = next_starts b'[' (next text) second in
              skipped-Takes n v _ (
                Consumes-weaken (length (next (next text))) n v _ (omega arith) (
                  rw kept at (
                    read_long_string-Consumes false (record s { input = next text })
                      (next (next text)) (starts-cons b'[' (next text) second)))))
            (λ u.
              let line =
                optional-Left (starts_with b'[' text) text
                  (starts-Left b'[' text (λ e. omega arith)) in
              let (short, kept) =
                Left-trans input _ _ (Left-trans input text _ behind line) (skip_line-Left _) in
              (short, ap (λ (x : ℕ). s.linenumber + x) kept)))
    where
      text : Bytes
      text = next input

      n : ℕ
      n = length input

      v : ℕ
      v = s.linenumber + newlines input

  lex_equals-Takes :
      (s : LexState) (single double : ℕ) (input : Bytes)
      → Takes
          (length input)
          (s.linenumber + newlines input)
          (lex_equals str2d s single double input)
  lex_equals-Takes s single double input =
      if-Takes (length input) (s.linenumber + newlines input) (starts_with b'=' input) _ _
        (λ h.
          let (short, kept) = starts-Left b'=' input (λ e. omega arith) h in
          (short, ap (λ (x : ℕ). s.linenumber + x) kept))
        (λ h. (omega arith, refl))

  lex_dot-Takes :
      (s : LexState) (input : Bytes)
      → Takes (length input) (s.linenumber + newlines input) (lex_dot str2d s input)
  unfolding lex_dot
  lex_dot-Takes s input =
      if-Takes n v (starts_with b'.' input) _ _
        (λ h.
          let one = starts-Left b'.' input (λ e. omega arith) h in
          if-Takes n v (starts_with b'.' (next input)) _ _
            (λ u.
              let (short, kept) =
                Left-trans input _ _ one (starts-Left b'.' (next input) (λ e. omega arith) u) in
              (short, ap (λ (x : ℕ). s.linenumber + x) kept))
            (λ u. (one.0, ap (λ (x : ℕ). s.linenumber + x) one.1)))
        (λ h.
          if-Takes n v (digit_first input) _ _
            (λ u. as_token-Takes tk_number n v _ (
              read_numeral-Consumes (codes ".") (record s { input = input }) n
                (save_while-Left isdigit refl input).0))
            (λ u. (omega arith, refl)))
    where
      n : ℕ
      n = length input

      v : ℕ
      v = s.linenumber + newlines input

  named-Takes :
      (s : LexState) (name input : Bytes) (n v : ℕ)
      → length input ≤ n
      → s.linenumber + newlines input ≡ v
      → Takes n v (named str2d s name input)
  named-Takes s name input n v short kept = (short, kept)

  lex_other-Takes :
      (s : LexState) (c : ℕ) (input : Bytes)
      → s.input ≡ c ∷ input
      → c ≢ 10
      → Takes (length input) (s.linenumber + newlines input) (lex_other str2d s c input)
  unfolding lex_other readname save_while
  lex_other-Takes s c input e other =
      if-Takes n v (isspace c) _ _ (λ h. (omega arith, refl))
        (λ h.
          if-Takes n v (isdigit c) _ _
            (λ u. as_token-Takes tk_number n v _ (
              rw kept at (
                read_numeral-Consumes [] s n
                  (rw e (rw (first_digit u) (save_while-Left isdigit refl input).0)))))
            (λ u.
              if-Takes n v (isalpha c || c == b'_') _ _
                (λ w.
                  let (short, same) = save_while-Left (λ c. isalnum c || c == b'_') refl input in
                  named-Takes s (readname (c ∷ input)).0 (readname (c ∷ input)).1 n v short
                    (ap (λ (x : ℕ). s.linenumber + x) same))
                (λ w. if-Takes n v (iscntrl c) _ _ (λ x. tt) (λ x. (omega arith, refl)))))
    where
      n : ℕ
      n = length input

      v : ℕ
      v = s.linenumber + newlines input

      kept : s.linenumber + newlines s.input ≡ s.linenumber + newlines input
      kept = ap (λ (x : ℕ). s.linenumber + x) (ap newlines e ∙ newlines-other c input other)

      first_digit :
          isdigit c ≡ true → (save_while isdigit (c ∷ input)).1 ≡ (save_while isdigit input).1
      first_digit u = rw u refl

  lex_turn-Takes :
      (s : LexState) (c : ℕ) (input : Bytes)
      → s.input ≡ c ∷ input
      → Takes (length input) (s.linenumber + newlines s.input) (lex_turn str2d s (c ∷ input))
  unfolding lex_turn newlines
  lex_turn-Takes s c input e =
      if-Takes n v (c == 10) _ _
        (λ h.
          if-Takes n v (too_many (s.linenumber + 1)) _ _ (λ u. tt)
            (λ u. (omega arith, counted (ground arith))))
        (λ h0.
          let other : c ≢ 10 = ground arith in
          let plain_kept : v ≡ s.linenumber + newlines input =
            ap (λ (x : ℕ). s.linenumber + x) (ap newlines e ∙ newlines-other c input other) in
          if-Takes n v (c == b'-') _ _ (λ h. rw plain_kept (lex_minus-Takes s input))
            (λ h1.
              if-Takes n v (c == b'[') _ _
                (λ h.
                  if-Takes n v (starts_with b'[' input) _ _
                    (λ u.
                      let (short, kept) = next_starts b'[' input u in
                      as_string-Takes n v _ (
                        Consumes-weaken (length (next input)) n v _ (omega arith) (
                          rw plain_kept (
                            read_long_string-Consumes true (record s { input = input }) (next input)
                              (starts-cons b'[' input u)))))
                    (λ u. (omega arith, sym plain_kept)))
                (λ h2.
                  if-Takes n v (c == b'=') _ _
                    (λ h. rw plain_kept (lex_equals-Takes s b'=' tk_eq input))
                    (λ h3.
                      if-Takes n v (c == b'<') _ _
                        (λ h. rw plain_kept (lex_equals-Takes s b'<' tk_le input))
                        (λ h4.
                          if-Takes n v (c == b'>') _ _
                            (λ h. rw plain_kept (lex_equals-Takes s b'>' tk_ge input))
                            (λ h5.
                              if-Takes n v (c == b'~') _ _
                                (λ h. rw plain_kept (lex_equals-Takes s b'~' tk_ne input))
                                (λ h6.
                                  if-Takes n v (c == b'"' || c == b'\'') _ _
                                    (λ h.
                                      as_string-Takes n v _
                                        (read_string-Consumes c s input e other))
                                    (λ h7.
                                      if-Takes n v (c == b'.') _ _
                                        (λ h. rw plain_kept (lex_dot-Takes s input))
                                        (λ h8.
                                          rw plain_kept (lex_other-Takes s c input e other))))))))))
    where
      n : ℕ
      n = length input

      v : ℕ
      v = s.linenumber + newlines s.input

      newline_counts : (input : Bytes) → newlines (10 ∷ input) ≡ 1 + newlines input
      newline_counts input = refl

      counted : c ≡ 10 → s.linenumber + 1 + newlines input ≡ v
      counted h =
          let at = ap newlines e ∙ ap (λ (x : ℕ). newlines (x ∷ input)) h ∙ newline_counts input in
          omega (arith, at)

  abbrev lex_size : LexState → ℕ
  lex_size s = length s.input

  abbrev lex_weight : LexState → ℕ
  lex_weight s = s.linenumber + newlines s.input

  Takes-Fair :
      (n v : ℕ) (turn : Turn LexState (Read (Token N)))
      → Takes n v turn
      → Fair lex_size lex_weight (suc n) v turn
  Takes-Fair n v (again s) h = (omega (arith, h.0), h.1)
  Takes-Fair n v (stop r) h = Consumes-weaken n (suc n) v r (omega arith) h

  lex_turn-Fair :
      (s : LexState) (input : Bytes)
      → s.input ≡ input
      → Fair lex_size lex_weight (length input) (lex_weight s) (lex_turn str2d s input)
  unfolding lex_turn newlines
  lex_turn-Fair s [] e = (omega arith, ap (λ (x : Bytes). s.linenumber + newlines x) (sym e))
  lex_turn-Fair s (c ∷ input) e =
      Takes-Fair (length input) (lex_weight s) _ (lex_turn-Takes s c input e)

  turn-Consumes :
      (n v fuel : ℕ) (turn : Turn LexState (Read (Token N)))
      → n < fuel
      → Takes n v turn
      → Consumes n v (elim turn as (λ x. Read (Token N)) [
        | again s ↦ iterate (lex_step str2d) fuel s
        | stop r ↦ r
      ])
  turn-Consumes n v fuel (again s) h (short, kept) = Consumes-weaken (length s.input) n v _ short (
      rw kept at (
        iterate-Consumes lex_size lex_weight (lex_step str2d) (λ t. lex_turn-Fair t t.input refl)
          fuel s (omega arith)))
  turn-Consumes n v fuel (stop r) h c = c

  at_end : (s : LexState) → s.input ≡ [] → Consumes 0 (lex_weight s) (iterate (lex_step str2d) 1 s)
  unfolding iterate lex_turn newlines
  at_end s e =
      subst
        (λ (x : Bytes).
          Consumes 0 (lex_weight s) (elim (lex_turn str2d s x) as (λ x. Read (Token N)) [
            | again s ↦ iterate (lex_step str2d) 0 s
            | stop r ↦ r
          ]))
        (sym e) (omega arith, ap (λ (x : Bytes). s.linenumber + newlines x) (sym e))

  -- The first turn takes a byte, and what comes behind takes no more than is left.
  lex_from :
      (s : LexState) (input : Bytes)
      → s.input ≡ input
      → Consumes (length input - 1) (lex_weight s) (iterate (lex_step str2d) (suc (length input)) s)
  unfolding iterate
  lex_from s [] e = let none_less : 0 - 1 ≡ 0 = omega arith in rw none_less (at_end s e)
  lex_from s (c ∷ input) e =
      let one_less : suc (length input) - 1 ≡ length input = omega arith in
      rw one_less (
        turn-Consumes (length input) (lex_weight s) (suc (length input)) (lex_step str2d s)
          (omega arith)
          (subst (λ (x : Bytes). Takes (length input) (lex_weight s) (lex_turn str2d s x)) (sym e)
            (lex_turn-Takes s c input e)))

  -- luaX_lex ends on every input, in a token or an error. A token leaves less than the input had,
  -- where it had anything; its line is that of the start and the newlines that were taken.
  pub lex-Consumes :
      (s : LexState) → Consumes (length s.input - 1) (s.linenumber + newlines s.input) (lex str2d s)
  unfolding lex
  lex-Consumes s = lex_from s s.input refl
