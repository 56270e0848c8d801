-- ===== src/Lexer/Tests.antt =====
-- Tests of the lexer.
use primemover.Prelude.{
  ℕ, zero, suc, ◌+◌, ◌-◌, Option, some, List, [], ◌∷◌, ◌++◌, length, codes, ◌≡◌, refl,
}
use primemover.Proto.{Bytes}
use primemover.Lexer.{
  Token, LexState, ok, failed, out_of_fuel, no_info, string, tk_name, tk_string, tk_concat,
}
use primemover.Prelude.{arith}
use primemover.Strings.{addquoted}
use primemover.Lexer.Ends.{Consumes, newlines}
use primemover.Lexer.Lines.{lex-Consumes}
use primemover.Lexer.Quoted.{lex-addquoted}
use primemover.Lexer.Lex.{lex, token2str, setinput}

-- A numeral stands for its text.
abbrev text_of : Bytes → Option Bytes
text_of s = some s

abbrev all_tokens : ℕ → LexState → List (Token Bytes)
unfolding lex
all_tokens zero s = []
all_tokens (suc fuel) s = elim (lex text_of s) [
  | ok t s' ↦ t ∷ all_tokens fuel s'
  | failed e line ↦ []
  | out_of_fuel ↦ []
]

abbrev plain_token : ℕ → Token Bytes
plain_token n = record { token = n; seminfo = no_info }

statement :
    all_tokens 5 (setinput (codes "#!x\nlocal a1 .. 'b\\65c' -- d"))
    ≡ plain_token 268
      ∷ record { token = tk_name; seminfo = string (codes "a1") }
      ∷ plain_token tk_concat
      ∷ record { token = tk_string; seminfo = string (codes "bAc") }
      ∷ plain_token 287
      ∷ []
unfolding setinput lex
statement = refl

lex-Consumes_example :
    Consumes
      (length (codes "--[[\n]]x = 1.5") - 1)
      (1 + newlines (codes "--[[\n]]x = 1.5"))
      (lex text_of (record { input = codes "--[[\n]]x = 1.5"; linenumber = 1 }))
lex-Consumes_example =
    lex-Consumes text_of (record { input = codes "--[[\n]]x = 1.5"; linenumber = 1 })

-- A quote, a newline, a zero and a backslash.
abbrev awkward : Bytes
awkward = 34 ∷ 10 ∷ 0 ∷ 92 ∷ 255 ∷ []

lex-addquoted_example :
    lex text_of (record { input = addquoted awkward ++ codes ".."; linenumber = 7 })
    ≡ ok
        (record { token = tk_string; seminfo = string awkward })
        (record { input = codes ".."; linenumber = 8 })
unfolding newlines
lex-addquoted_example = lex-addquoted text_of awkward (codes "..") 7 (omega arith)

keyword_token : token2str 258 ≡ some (codes "break")
unfolding token2str
keyword_token = refl
