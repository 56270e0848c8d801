-- ===== src/Lexer/Readers.antt =====
-- lua/llex.c: numerals, long strings and comments, and quoted strings.
use primemover.Prelude.{
  ℕ, zero, suc, ◌+◌, ◌-◌, ◌*◌, Bool, not, ◌||◌, ◌&&◌, Option, none, some, [], ◌∷◌, ◌++◌, take, drop,
  length, codes, ltb, ◌==◌, if◌then◌else◌,
}
use primemover.Proto.{Bytes}
use primemover.Patterns.{isdigit}
use primemover.Lexer.{
  SemInfo, number, LexState, malformed_number, ambiguous_syntax, unfinished_long_string,
  unfinished_long_comment, unfinished_string, escape_too_large, too_many_lines, Read, ok, failed,
  Turn, again, stop, iterate, save_while, starts_with, next, too_many,
}

-- the part of a numeral from the exponent on, and what follows
unfoldable pub read_exponent : Bytes → Bytes × Bytes
unfolding save_while
read_exponent [] = ([], [])
read_exponent (c ∷ input) =
    let signed = starts_with b'+' input || starts_with b'-' input in
    let sign = if signed then take 1 input else [] in
    let digits = save_while isdigit (if signed then next input else input) in
    if c == b'e' || c == b'E' then (c ∷ (sign ++ digits.0), digits.1) else ([], c ∷ input)

-- `read_numeral`; `str2d` is luaO_str2d, and `buff` what `comma` has saved
unfoldable pub read_numeral :
    {N : Type 0} → (Bytes → Option N) → Bytes → LexState → Read (SemInfo N)
unfolding save_while read_exponent
read_numeral str2d buff s =
    let whole = save_while isdigit s.input in
    let point = starts_with b'.' whole.1 in
    let behind = if point then next whole.1 else whole.1 in
    let fraction = save_while isdigit behind in
    let exponent = read_exponent fraction.1 in
    let text =
      buff ++ (whole.0 ++ ((if point then codes "." else []) ++ (fraction.0 ++ exponent.0))) in
    if point && starts_with b'.' behind
    then failed ambiguous_syntax s.linenumber
    else elim (str2d text) [
      | none ↦ failed malformed_number s.linenumber
      | some n ↦ ok (number n) (record s { input = exponent.1 })
    ]

pub record LongState : Type 0 where
  pub cont : ℕ
  pub buff : Bytes
  pub input : Bytes
  pub line : ℕ

-- a newline in a long string: it is saved, or the buffer is reset
abbrev pub long_newline : Bool → LongState → Bytes → Turn LongState (Read Bytes)
long_newline keep s input =
    if too_many (s.line + 1)
    then stop (failed too_many_lines (s.line + 1))
    else again (record s {
      buff = if keep then s.buff ++ codes "\n" else [];
      input = input;
      line = s.line + 1;
    })

-- a closing bracket pair: the end, where no pair is open
abbrev pub long_close : LongState → Bytes → Turn LongState (Read Bytes)
long_close s input =
    if s.cont == 0
    then (let buff = s.buff ++ codes "]]" in
        stop (
          ok (take (length buff + 1 - 5) (drop 2 buff))
            (record { input = input; linenumber = s.line })))
    else again (record s { cont = s.cont - 1; buff = s.buff ++ codes "]]"; input = input })

-- One turn of the loop of read_long_string; `keep` is `seminfo != NULL`.
unfoldable pub long_turn : Bool → LongState → Bytes → Turn LongState (Read Bytes)
long_turn keep s [] =
    stop (failed (if keep then unfinished_long_string else unfinished_long_comment) s.line)
long_turn keep s (c ∷ input) =
    if c == b'['
    then if starts_with b'[' input
      then again (record s { cont = s.cont + 1; buff = s.buff ++ codes "[["; input = next input })
      else again (record s { buff = s.buff ++ (c ∷ []); input = input })
    else if c == b']'
    then if starts_with b']' input
      then long_close s (next input)
      else again (record s { buff = s.buff ++ (c ∷ []); input = input })
    else if c == 10
    then long_newline keep s input
    else again (record s { buff = s.buff ++ (c ∷ []); input = input })

abbrev pub long_step : Bool → LongState → Turn LongState (Read Bytes)
long_step keep s = long_turn keep s s.input

-- `read_long_string`, on an input that begins with the second bracket
unfoldable pub read_long_string : Bool → LexState → Read Bytes
unfolding iterate long_turn
read_long_string keep s =
    let inside = next s.input in
    let first = starts_with 10 inside in
    let line = if first then s.linenumber + 1 else s.linenumber in
    if first && too_many line
    then failed too_many_lines line
    else (iterate (long_step keep) (suc (length inside)) (record {
      cont = 0;
      buff = codes "[[";
      input = if first then next inside else inside;
      line = line;
    }))

pub record StringState : Type 0 where
  pub buff : Bytes
  pub input : Bytes
  pub line : ℕ

-- the do loop over at most `n` digits
unfoldable pub decimal : (n c : ℕ) → Bytes → ℕ × Bytes
decimal zero c input = (c, input)
decimal (suc n) c [] = (c, [])
decimal (suc n) c (d ∷ input) =
    let rest = decimal n (10 * c + (d - b'0')) input in if isdigit d then rest else (c, d ∷ input)

abbrev pub save_escape : StringState → ℕ → Bytes → Turn StringState (Read Bytes)
save_escape s c input = again (record s { buff = s.buff ++ (c ∷ []); input = input })

-- the inner switch, on what is behind a backslash
unfoldable pub read_escape : StringState → Bytes → Turn StringState (Read Bytes)
unfolding decimal
read_escape s [] = again (record s { input = [] })
read_escape s (d ∷ input) =
    let code = decimal 3 0 (d ∷ input) in
    if d == b'a'
    then save_escape s 7 input
    else if d == b'b'
    then save_escape s 8 input
    else if d == b'f'
    then save_escape s 12 input
    else if d == b'n'
    then save_escape s 10 input
    else if d == b'r'
    then save_escape s 13 input
    else if d == b't'
    then save_escape s 9 input
    else if d == b'v'
    then save_escape s 11 input
    else if d == 10
    then if too_many (s.line + 1)
      then stop (failed too_many_lines (s.line + 1))
      else again (record s { buff = s.buff ++ (10 ∷ []); input = input; line = s.line + 1 })
    else if not (isdigit d)
    then save_escape s d input
    else if ltb 255 code.0
    then stop (failed escape_too_large s.line)
    else save_escape s code.0 code.1

-- One turn of the loop of read_string.
unfoldable pub string_turn : ℕ → StringState → Bytes → Turn StringState (Read Bytes)
unfolding read_escape
string_turn del s [] = stop (failed unfinished_string s.line)
string_turn del s (c ∷ input) =
    let buff = s.buff ++ (c ∷ []) in
    if c == del
    then stop (
        ok (take (length buff + 1 - 3) (drop 1 buff))
          (record { input = input; linenumber = s.line }))
    else if c == 10
    then stop (failed unfinished_string s.line)
    else if c == b'\\'
    then read_escape s input
    else save_escape s c input

abbrev pub string_step : ℕ → StringState → Turn StringState (Read Bytes)
string_step del s = string_turn del s s.input

-- `read_string`, on an input that begins with the delimiter
unfoldable pub read_string : ℕ → LexState → Read Bytes
unfolding iterate string_turn
read_string del s =
    iterate (string_step del) (suc (length s.input))
      (record { buff = del ∷ []; input = next s.input; line = s.linenumber })
