-- ===== src/Lexer/Quoted.antt =====
-- lua/llex.c, on what luaI_addquoted of lua/lstrlib.c makes of a string for `%q`.
use primemover.Prelude.{
  ℕ, zero, suc, ◌+◌, ◌≤◌, ◌<◌, false, ◌||◌, Option, [], ◌∷◌, ◌++◌, take, length, codes, ◌==◌, ◌≡◌,
  inl, inr, refl, sym, ◌∙◌, ap, arith, Bool-cases, append_assoc, append-nil, length-append,
}
use primemover.Prelude.Int.{max_int}
use primemover.Proto.{Bytes}
use primemover.Strings.{quote_byte, quote_bytes, addquoted}
use primemover.Lexer.{
  string, Token, LexState, Read, ok, Turn, again, stop, iterate, too_many, tk_string,
}
use primemover.Lexer.Readers.{
  StringState, decimal, read_escape, string_turn, string_step, read_string,
}
use primemover.Lexer.Lex.{lex, lex_turn, lex_step, as_string}
use primemover.Lexer.Ends.{newlines}

abbrev at : Bytes → Bytes → ℕ → StringState
at buff input line = record { buff = buff; input = input; line = line }

-- A loop that goes on.
iterate-again :
    {S A : Type 0} (step : S → Turn S (Read A)) (fuel : ℕ) (s s' : S)
    → step s ≡ again s'
    → iterate step (suc fuel) s ≡ iterate step fuel s'
unfolding iterate
iterate-again step fuel s s' e = rw (e, iterate) refl

iterate-stop :
    {S A : Type 0} (step : S → Turn S (Read A)) (fuel : ℕ) (s : S) (r : Read A)
    → step s ≡ stop r
    → iterate step (suc fuel) s ≡ r
unfolding iterate
iterate-stop step fuel s r e = rw (e, iterate) refl

abbrev goes : Bytes → Bytes → ℕ → Turn StringState (Read Bytes)
goes buff input line = again (at buff input line)

take-append : (acc t : Bytes) → take (length acc) (acc ++ t) ≡ acc
take-append [] t = refl
take-append (c ∷ acc) t = ap (λ (x : Bytes). c ∷ x) (take-append acc t)

-- The closing quote ends the string.
string_turn-quote :
    (acc rest : Bytes) (line : ℕ)
    → string_step b'"' (at (b'"' ∷ acc) (b'"' ∷ rest) line)
      ≡ stop (ok acc (record { input = rest; linenumber = line }))
unfolding string_turn
string_turn-quote acc rest line =
    ap (λ (x : Bytes). stop (ok x (record { input = rest; linenumber = line })))
      (ap (λ (n : ℕ). take n (acc ++ (34 ∷ []))) (omega (arith, length-append acc (34 ∷ [])))
        ∙ take-append acc (34 ∷ []))

escaped-quote :
    (buff rest : Bytes) (line : ℕ)
    → string_step b'"' (at buff (quote_byte b'"' ++ rest) line)
      ≡ goes (buff ++ (b'"' ∷ [])) rest line
unfolding string_turn read_escape quote_byte
escaped-quote buff rest line = refl

escaped-backslash :
    (buff rest : Bytes) (line : ℕ)
    → string_step b'"' (at buff (quote_byte b'\\' ++ rest) line)
      ≡ goes (buff ++ (b'\\' ∷ [])) rest line
unfolding string_turn read_escape quote_byte
escaped-backslash buff rest line = refl

escaped-zero :
    (buff rest : Bytes) (line : ℕ)
    → string_step b'"' (at buff (quote_byte 0 ++ rest) line) ≡ goes (buff ++ (0 ∷ [])) rest line
unfolding string_turn read_escape quote_byte decimal
escaped-zero buff rest line = refl

escaped-newline :
    (buff rest : Bytes) (line : ℕ)
    → line + 1 ≤ max_int
    → string_step b'"' (at buff (quote_byte 10 ++ rest) line)
      ≡ goes (buff ++ (10 ∷ [])) rest (line + 1)
unfolding string_turn read_escape quote_byte
escaped-newline buff rest line h =
    let few : too_many (line + 1) ≡ false = ground arith in rw few refl

quote_byte-plain :
    (c : ℕ)
    → (c == b'"') ≡ false
    → (c == b'\\') ≡ false
    → (c == 10) ≡ false
    → (c == 0) ≡ false
    → quote_byte c ≡ c ∷ []
unfolding quote_byte
quote_byte-plain c h h1 h2 h3 = rw (h, h1, h2, h3) refl

quote_byte-length : (c : ℕ) → 0 < length (quote_byte c)
unfolding quote_byte
quote_byte-length c = elim (Bool-cases (c == b'"' || c == b'\\' || c == 10)) [
  | inl h ↦ rw h (omega arith)
  | inr h ↦
      rw h (elim (Bool-cases (c == 0)) [ inl u ↦ rw u (omega arith) | inr u ↦ rw u (omega arith) ])
]

escaped-other :
    (buff rest : Bytes) (c line : ℕ)
    → (c == b'"') ≡ false
    → (c == b'\\') ≡ false
    → (c == 10) ≡ false
    → (c == 0) ≡ false
    → string_step b'"' (at buff (quote_byte c ++ rest) line) ≡ goes (buff ++ (c ∷ [])) rest line
unfolding string_turn read_escape quote_byte
escaped-other buff rest c line h h1 h2 h3 =
    ap (λ (q : Bytes). string_step b'"' (at buff (q ++ rest) line)) (quote_byte-plain c h h1 h2 h3)
    ∙ rw (h, h2, h1) refl

-- A quoted byte is read as itself.
string_turn-byte :
    (buff : Bytes) (c : ℕ) (rest : Bytes) (line : ℕ)
    → line + newlines (c ∷ []) ≤ max_int
    → string_step b'"' (at buff (quote_byte c ++ rest) line)
      ≡ goes (buff ++ (c ∷ [])) rest (line + newlines (c ∷ []))
unfolding newlines
string_turn-byte buff c rest line h = elim (Bool-cases (c == b'"')) [
  | inl u ↦
      let same : c ≡ b'"' = ground arith in
      rw same (escaped-quote buff rest line ∙ ap (goes (buff ++ (b'"' ∷ [])) rest) (omega arith))
  | inr u ↦ elim (Bool-cases (c == b'\\')) [
    | inl v ↦
        let same : c ≡ b'\\' = ground arith in
        rw same
          (escaped-backslash buff rest line ∙ ap (goes (buff ++ (b'\\' ∷ [])) rest) (omega arith))
    | inr v ↦ elim (Bool-cases (c == 10)) [
      | inl w ↦
          let same : c ≡ 10 = ground arith in
          rw same (
            escaped-newline buff rest line (ground arith)
            ∙ ap (goes (buff ++ (10 ∷ [])) rest) (omega arith))
      | inr w ↦ elim (Bool-cases (c == 0)) [
        | inl x ↦
            let same : c ≡ 0 = ground arith in
            rw same (escaped-zero buff rest line ∙ ap (goes (buff ++ (0 ∷ [])) rest) (omega arith))
        | inr x ↦
            escaped-other buff rest c line u v w x
            ∙ ap (goes (buff ++ (c ∷ [])) rest) (ground arith)
      ]
    ]
  ]
]

newlines-cons : (c : ℕ) (s : Bytes) → newlines (c ∷ s) ≡ newlines (c ∷ []) + newlines s
unfolding newlines
newlines-cons c s = omega arith

quote_bytes-cons :
    (c : ℕ) (s rest : Bytes) → quote_bytes (c ∷ s) ++ rest ≡ quote_byte c ++ (quote_bytes s ++ rest)
unfolding quote_bytes
quote_bytes-cons c s rest = append_assoc (quote_byte c) (quote_bytes s) rest

-- The loop of read_string reads what is quoted, up to the closing quote.
iterate-quoted :
    (s acc rest : Bytes) (fuel line : ℕ)
    → length (quote_bytes s ++ (b'"' ∷ rest)) < fuel
    → line + newlines s ≤ max_int
    → iterate (string_step b'"') fuel (at (b'"' ∷ acc) (quote_bytes s ++ (b'"' ∷ rest)) line)
      ≡ ok (acc ++ s) (record { input = rest; linenumber = line + newlines s })
unfolding newlines quote_bytes
iterate-quoted s acc rest zero line h few = absurd (omega arith)
iterate-quoted [] acc rest (suc fuel) line h few =
    iterate-stop (string_step b'"') fuel _ _ (string_turn-quote acc rest line) ∙ (λ i.
      ok (sym (append-nil acc) i) (record { input = rest; linenumber = sym (no_lines line) i }))
  where
    no_lines : (line : ℕ) → line + newlines [] ≡ line
    no_lines line = omega arith
iterate-quoted (c ∷ s) acc rest (suc fuel) line h few =
    ap (λ (q : Bytes). iterate (string_step b'"') (suc fuel) (at (b'"' ∷ acc) q line))
      (quote_bytes-cons c s (b'"' ∷ rest))
    ∙ iterate-again (string_step b'"') fuel _ _ (
        string_turn-byte (b'"' ∷ acc) c (quote_bytes s ++ (b'"' ∷ rest)) line
          (omega (arith, newlines-cons c s)))
    ∙ iterate-quoted s (acc ++ (c ∷ [])) rest fuel (line + newlines (c ∷ [])) shorter
        (omega (arith, newlines-cons c s))
    ∙ (λ i. ok (append_assoc acc (c ∷ []) s i) (record { input = rest; linenumber = lines i }))
  where
    lines : line + newlines (c ∷ []) + newlines s ≡ line + newlines (c ∷ s)
    lines = omega (arith, newlines-cons c s)

    shorter : length (quote_bytes s ++ (b'"' ∷ rest)) < fuel
    shorter =
        let whole = rw (quote_bytes-cons c s (b'"' ∷ rest)) at h in
        omega (
          arith,
          whole,
          length-append (quote_byte c) (quote_bytes s ++ (b'"' ∷ rest)),
          quote_byte-length c,
        )

read_string-quoted :
    (s rest : Bytes) (line : ℕ)
    → line + newlines s ≤ max_int
    → read_string b'"'
        (record { input = b'"' ∷ (quote_bytes s ++ (b'"' ∷ rest)); linenumber = line })
      ≡ ok s (record { input = rest; linenumber = line + newlines s })
unfolding read_string
read_string-quoted s rest line few =
    iterate-quoted s [] rest (suc (suc (length (quote_bytes s ++ (b'"' ∷ rest))))) line
      (omega arith) few

module _ {N : Type 0} (str2d : Bytes → Option N) where
  lex_step-quote :
      (q : Bytes) (line : ℕ)
      → lex_step str2d (record { input = b'"' ∷ q; linenumber = line })
        ≡ as_string str2d (read_string b'"' (record { input = b'"' ∷ q; linenumber = line }))
  unfolding lex_turn
  lex_step-quote q line = refl

  lex-step : (s : LexState) (r : Read (Token N)) → lex_step str2d s ≡ stop r → lex str2d s ≡ r
  unfolding lex
  lex-step s r e = iterate-stop (lex_step str2d) (length s.input) s r e

  addquoted-append :
      (s rest : Bytes) → addquoted s ++ rest ≡ b'"' ∷ (quote_bytes s ++ (b'"' ∷ rest))
  unfolding addquoted
  addquoted-append s rest =
      ap (λ (x : Bytes). b'"' ∷ x) (append_assoc (quote_bytes s) (codes "\"") rest)

  -- What `%q` writes, luaX_lex reads as the token of the string, whatever its bytes and whatever
  -- follows, where the lines are not too many.
  pub lex-addquoted :
      (s rest : Bytes) (line : ℕ)
      → line + newlines s ≤ max_int
      → lex str2d (record { input = addquoted s ++ rest; linenumber = line })
        ≡ ok
            (record { token = tk_string; seminfo = string s })
            (record { input = rest; linenumber = line + newlines s })
  lex-addquoted s rest line few =
      ap (λ (x : Bytes). lex str2d (record { input = x; linenumber = line }))
        (addquoted-append s rest)
      ∙ lex-step _ _ (
          lex_step-quote (quote_bytes s ++ (b'"' ∷ rest)) line
          ∙ ap (as_string str2d) (read_string-quoted s rest line few))
