-- ===== src/Lexer.antt =====
-- lua/llex.c: tokens. The input is what `current` and the stream hold together: its first byte is
-- `current`, EOZ where there is none, and `next` drops it. The buffer is the bytes saved in it.
mod Tests
pub mod Readers
pub mod Ends
pub mod Lex
pub mod Lines
pub mod Quoted
use primemover.Prelude.{
  ℕ, zero, suc, ◌+◌, ◌-◌, ◌*◌, ◌^◌, Bool, true, false, not, ◌||◌, ◌&&◌, Option, none, some, List,
  [], ◌∷◌, ◌++◌, take, drop, length, codes, ltb, leb, ◌==◌, if◌then◌else◌,
}
use primemover.Prelude.Int.{max_int}
use primemover.Proto.{Bytes}
use primemover.Patterns.{islower, isupper, isdigit, isalnum}

abbrev pub first_reserved : ℕ
first_reserved = 257

-- token2string of the reserved words
unfoldable pub reserved_words : List Bytes
reserved_words =
    codes "and"
    ∷ codes "break"
    ∷ codes "do"
    ∷ codes "else"
    ∷ codes "elseif"
    ∷ codes "end"
    ∷ codes "false"
    ∷ codes "for"
    ∷ codes "function"
    ∷ codes "if"
    ∷ codes "in"
    ∷ codes "local"
    ∷ codes "nil"
    ∷ codes "not"
    ∷ codes "or"
    ∷ codes "repeat"
    ∷ codes "return"
    ∷ codes "then"
    ∷ codes "true"
    ∷ codes "until"
    ∷ codes "while"
    ∷ []

abbrev pub tk_name : ℕ
tk_name = 278

abbrev pub tk_concat : ℕ
tk_concat = 279

abbrev pub tk_dots : ℕ
tk_dots = 280

abbrev pub tk_eq : ℕ
tk_eq = 281

abbrev pub tk_ge : ℕ
tk_ge = 282

abbrev pub tk_le : ℕ
tk_le = 283

abbrev pub tk_ne : ℕ
tk_ne = 284

abbrev pub tk_number : ℕ
tk_number = 285

abbrev pub tk_string : ℕ
tk_string = 286

abbrev pub tk_eos : ℕ
tk_eos = 287

pub data SemInfo (N : Type 0) : Type 0 where
  no_info : SemInfo N
  number : N → SemInfo N
  string : Bytes → SemInfo N

pub record Token (N : Type 0) : Type 0 where
  pub token : ℕ
  pub seminfo : SemInfo N

pub record LexState : Type 0 where
  pub input : Bytes
  pub linenumber : ℕ

pub data LexError : Type 0 where
  malformed_number ambiguous_syntax unfinished_long_string unfinished_long_comment : LexError
  unfinished_string escape_too_large too_many_lines : LexError
  invalid_control_char : ℕ → LexError

-- What a reader gives, or an error with its line.
pub data Read {ℓ} (A : Type ℓ) : Type ℓ where
  ok : A → LexState → Read A
  failed : LexError → (line : ℕ) → Read A
  out_of_fuel : Read A

-- One turn of a loop.
pub data Turn {ℓ κ} (S : Type ℓ) (R : Type κ) : Type (ℓ ⊔ κ) where
  again : S → Turn S R
  stop : R → Turn S R

unfoldable pub iterate {ℓ κ} : {S : Type ℓ} {A : Type κ} → (S → Turn S (Read A)) → ℕ → S → Read A
iterate step zero s = out_of_fuel
iterate step (suc fuel) s = elim (step s) [ again s' ↦ iterate step fuel s' | stop r ↦ r ]

-- isalpha, isspace and iscntrl in the C locale
abbrev pub isalpha : ℕ → Bool
isalpha c = islower c || isupper c

abbrev pub isspace : ℕ → Bool
isspace c = c == 32 || leb 9 c && leb c 13

abbrev pub iscntrl : ℕ → Bool
iscntrl c = ltb c 32 || c == 127

-- a loop that saves the bytes of a class
unfoldable pub save_while : (ℕ → Bool) → Bytes → Bytes × Bytes
save_while class [] = ([], [])
save_while class (c ∷ input) =
    let rest = save_while class input in if class c then (c ∷ rest.0, rest.1) else ([], c ∷ input)

abbrev pub starts_with : ℕ → Bytes → Bool
starts_with c [] = false
starts_with c (d ∷ input) = d == c

abbrev pub next : Bytes → Bytes
next [] = []
next (c ∷ input) = input

-- the check of inclinenumber, behind a newline
abbrev pub too_many : ℕ → Bool
too_many line = ltb max_int line

-- `readname`, on an input that begins with a letter
unfoldable pub readname : Bytes → Bytes × Bytes
unfolding save_while
readname [] = ([], [])
readname (c ∷ input) =
    let rest = save_while (λ c. isalnum c || c == b'_') input in (c ∷ rest.0, rest.1)
