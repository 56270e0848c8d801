-- ===== src/Lexer/Lex.antt =====
-- lua/llex.c: luaX_lex, luaX_setinput and luaX_token2str.
use primemover.Prelude.{
  ℕ, suc, ◌+◌, ◌-◌, Bool, true, false, not, ◌||◌, ◌&&◌, Option, none, some, List, [], ◌∷◌, ◌++◌,
  length, codes, get_elem?, ltb, ◌==◌, if◌then◌else◌,
}
use primemover.Proto.{Bytes}
use primemover.Patterns.{isdigit}
use primemover.Lexer.{
  first_reserved, reserved_words, tk_name, tk_concat, tk_dots, tk_eq, tk_ge, tk_le, tk_ne,
  tk_number, tk_string, tk_eos, SemInfo, no_info, string, Token, LexState, too_many_lines,
  invalid_control_char, Read, ok, failed, out_of_fuel, Turn, again, stop, iterate, isalpha, isspace,
  iscntrl, starts_with, next, too_many, readname,
}
use primemover.Lexer.Readers.{read_numeral, read_long_string, read_string}

abbrev pub same_text : Bytes → Bytes → Bool
same_text [] [] = true
same_text (a ∷ s) (b ∷ t) = a == b && same_text s t
same_text s t = false

-- `ts->tsv.reserved - 1`: luaX_init has numbered the reserved words in their order.
unfoldable pub reserved_index : List Bytes → Bytes → Option ℕ
reserved_index [] name = none
reserved_index (w ∷ words) name =
    let rest = reserved_index words name in
    if same_text w name then some 0 else elim rest [ none ↦ none | some i ↦ some (suc i) ]

abbrev pub digit_first : Bytes → Bool
digit_first [] = false
digit_first (c ∷ input) = isdigit c

-- the loop over a comment or the first line
unfoldable pub skip_line : Bytes → Bytes
skip_line [] = []
skip_line (c ∷ input) = let rest = skip_line input in if c == 10 then c ∷ input else rest

module _ {N : Type 0} (str2d : Bytes → Option N) where
  abbrev pub plain : ℕ → Bytes → ℕ → Turn LexState (Read (Token N))
  plain token input line = stop (
      ok (record { token = token; seminfo = no_info })
        (record { input = input; linenumber = line }))

  -- what a reader gives, as a token
  abbrev pub as_token : ℕ → Read (SemInfo N) → Turn LexState (Read (Token N))
  as_token token (ok info s) = stop (ok (record { token = token; seminfo = info }) s)
  as_token token (failed e line) = stop (failed e line)
  as_token token out_of_fuel = stop out_of_fuel

  abbrev pub as_string : Read Bytes → Turn LexState (Read (Token N))
  as_string (ok text s) = stop (ok (record { token = tk_string; seminfo = string text }) s)
  as_string (failed e line) = stop (failed e line)
  as_string out_of_fuel = stop out_of_fuel

  -- behind a long comment the loop goes on
  abbrev pub skipped : Read Bytes → Turn LexState (Read (Token N))
  skipped (ok text s) = again s
  skipped (failed e line) = stop (failed e line)
  skipped out_of_fuel = stop out_of_fuel

  -- behind `-`
  unfoldable pub lex_minus : LexState → Bytes → Turn LexState (Read (Token N))
  unfolding read_long_string skip_line
  lex_minus s input =
      let text = next input in
      if not (starts_with b'-' input)
      then plain b'-' input s.linenumber
      else if starts_with b'[' text && starts_with b'[' (next text)
      then skipped (read_long_string false (record s { input = next text }))
      else again
          (record s { input = skip_line (if starts_with b'[' text then next text else text) })

  -- behind a byte that an equals sign may follow
  abbrev pub lex_equals : LexState → (single double : ℕ) → Bytes → Turn LexState (Read (Token N))
  lex_equals s single double input =
      if starts_with b'=' input
      then plain double (next input) s.linenumber
      else plain single input s.linenumber

  -- behind `.`
  unfoldable pub lex_dot : LexState → Bytes → Turn LexState (Read (Token N))
  unfolding read_numeral
  lex_dot s input =
      if starts_with b'.' input
      then (if starts_with b'.' (next input)
          then plain tk_dots (next (next input)) s.linenumber
          else plain tk_concat (next input) s.linenumber)
      else if digit_first input
      then as_token tk_number (read_numeral str2d (codes ".") (record s { input = input }))
      else plain b'.' input s.linenumber

  -- an identifier or a reserved word
  abbrev pub name_token : Bytes → Option ℕ → Token N
  name_token name none = record { token = tk_name; seminfo = string name }
  name_token name (some i) = record { token = i + first_reserved; seminfo = no_info }

  abbrev pub named : LexState → Bytes → Bytes → Turn LexState (Read (Token N))
  named s name input =
      stop (ok (name_token name (reserved_index reserved_words name)) (record s { input = input }))

  -- the default case
  unfoldable pub lex_other : LexState → ℕ → Bytes → Turn LexState (Read (Token N))
  unfolding read_numeral readname reserved_index reserved_words
  lex_other s c input =
      let name = readname (c ∷ input) in
      if isspace c
      then again (record s { input = input })
      else if isdigit c
      then as_token tk_number (read_numeral str2d [] s)
      else if isalpha c || c == b'_'
      then named s name.0 name.1
      else if iscntrl c
      then stop (failed (invalid_control_char c) s.linenumber)
      else plain c input s.linenumber

  -- One turn of the loop of luaX_lex.
  unfoldable pub lex_turn : LexState → Bytes → Turn LexState (Read (Token N))
  unfolding lex_minus lex_dot lex_other read_long_string read_string
  lex_turn s [] = plain tk_eos [] s.linenumber
  lex_turn s (c ∷ input) =
      if c == 10
      then if too_many (s.linenumber + 1)
        then stop (failed too_many_lines (s.linenumber + 1))
        else again (record { input = input; linenumber = s.linenumber + 1 })
      else if c == b'-'
      then lex_minus s input
      else if c == b'['
      then if starts_with b'[' input
        then as_string (read_long_string true (record s { input = input }))
        else plain b'[' input s.linenumber
      else if c == b'='
      then lex_equals s b'=' tk_eq input
      else if c == b'<'
      then lex_equals s b'<' tk_le input
      else if c == b'>'
      then lex_equals s b'>' tk_ge input
      else if c == b'~'
      then lex_equals s b'~' tk_ne input
      else if c == b'"' || c == b'\''
      then as_string (read_string c s)
      else if c == b'.'
      then lex_dot s input
      else lex_other s c input

  abbrev pub lex_step : LexState → Turn LexState (Read (Token N))
  lex_step s = lex_turn s s.input

  -- `luaX_lex`
  unfoldable pub lex : LexState → Read (Token N)
  unfolding iterate lex_turn
  lex s = iterate lex_step (suc (length s.input)) s

-- `luaX_setinput`
unfoldable pub setinput : Bytes → LexState
unfolding skip_line
setinput input = record {
  input = if starts_with b'#' input then skip_line input else input;
  linenumber = 1;
}

-- The names of the tokens behind the reserved words, as in token2string.
unfoldable pub token_names : List Bytes
token_names =
    codes "*name"
    ∷ codes ".."
    ∷ codes "..."
    ∷ codes "=="
    ∷ codes ">="
    ∷ codes "<="
    ∷ codes "~="
    ∷ codes "*number"
    ∷ codes "*string"
    ∷ codes "<eof>"
    ∷ []

-- `luaX_token2str`; `none` is a read behind the table
unfoldable pub token2str : ℕ → Option Bytes
unfolding reserved_words token_names
token2str token =
    if ltb token first_reserved
    then some (token ∷ [])
    else get_elem? (reserved_words ++ token_names) (token - first_reserved)
