-- ===== src/Patterns.antt =====
-- lua/lstrlib.c: the classes of characters in a pattern. A `char` is unsigned, and the characters are
-- those of the C locale. The pattern is the memory from its start to its end, the zero that ends the
-- string included; a position in it is a number.
use primemover.Prelude.{
  ℕ, zero, suc, ◌+◌, ◌-◌, Bool, true, false, not, ◌||◌, ◌&&◌, Option, none, some, List, [], ◌∷◌,
  length, get_elem?, ltb, leb, ◌==◌, if◌then◌else◌,
}
use primemover.Proto.{Bytes}
use primemover.Strings.{tolower}
pub mod Find
pub mod First
pub mod Found
pub mod Matching
pub mod Progress
pub mod Reach
pub mod Undone
mod Tests

pub data Malformed : Type 0 where
  invalid_capture_index invalid_pattern_capture ends_with_percent missing_bracket : Malformed
  missing_frontier_bracket unbalanced_pattern too_many_captures unfinished_capture : Malformed

-- `raised` is a call of luaL_error, and `fault` a read outside the pattern or the string.
pub data Outcome {ℓ} (A : Type ℓ) : Type ℓ where
  ok : A → Outcome A
  raised : Malformed → Outcome A
  fault out_of_fuel : Outcome A

infixl 5 ◌>>=◌ ◌>>◌
abbrev pub ◌>>=◌ {ℓ κ} : {A : Type ℓ} {B : Type κ} → Outcome A → (A → Outcome B) → Outcome B
raised e >>= f = raised e
fault >>= f = fault
out_of_fuel >>= f = out_of_fuel
ok a >>= f = f a

abbrev pub ◌>>◌ {ℓ} : {B : Type ℓ} → Outcome (Unit {0}) → Outcome B → Outcome B
m >> k = m >>= λ _. k

abbrev pub ensure : Bool → Malformed → Outcome (Unit {0})
ensure true e = ok tt
ensure false e = raised e

abbrev pub present {ℓ} : {A : Type ℓ} → Option A → Outcome A
present none = fault
present (some a) = ok a

abbrev pub islower : ℕ → Bool
islower c = leb b'a' c && leb c b'z'

abbrev pub isupper : ℕ → Bool
isupper c = leb b'A' c && leb c b'Z'

abbrev pub isdigit : ℕ → Bool
isdigit c = leb b'0' c && leb c b'9'

abbrev pub isalnum : ℕ → Bool
isalnum c = islower c || isupper c || isdigit c

abbrev isxdigit : ℕ → Bool
isxdigit c = isdigit c || leb b'a' c && leb c b'f' || leb b'A' c && leb c b'F'

-- the switch of `match_class`; `none` is its default
unfoldable pub class_test : ℕ → ℕ → Option Bool
class_test cl c =
    if cl == b'a'
    then some (islower c || isupper c)
    else if cl == b'c'
    then some (ltb c 32 || c == 127)
    else if cl == b'd'
    then some (isdigit c)
    else if cl == b'l'
    then some (islower c)
    else if cl == b'p'
    then some (ltb 32 c && ltb c 127 && not (isalnum c))
    else if cl == b's'
    then some (c == 32 || leb 9 c && leb c 13)
    else if cl == b'u'
    then some (isupper c)
    else if cl == b'w'
    then some (isalnum c)
    else if cl == b'x'
    then some (isxdigit c)
    else if cl == b'z'
    then some (c == 0)
    else none

unfoldable pub match_class : ℕ → ℕ → Bool
unfolding class_test
match_class c cl = elim (class_test (tolower cl) c) [
  | none ↦ cl == c
  | some res ↦ if islower cl then res else not res
]

module _ (pat : Bytes) where
  -- `*p`
  abbrev pub char_at : ℕ → Outcome ℕ
  char_at p = present (get_elem? pat p)

  -- the loop that looks for a `]`; each round moves on in the pattern
  unfoldable pub bracket_end : ℕ → ℕ → Outcome ℕ
  bracket_end zero p = out_of_fuel
  bracket_end (suc fuel) p = do
    c ← char_at p
    ensure (not (c == 0)) missing_bracket
    d ← char_at (p + 1)
    let q = if c == b'%' && not (d == 0) then p + 2 else p + 1
    e ← char_at q
    if e == b']' then ok (q + 1) else bracket_end fuel q

  unfoldable pub classend : ℕ → Outcome ℕ
  unfolding bracket_end
  classend p = do
    c ← char_at p
    if c == b'%'
        then (do d ← char_at (p + 1); ensure (not (d == 0)) ends_with_percent; ok (p + 2))
        else if c == b'['
        then (do d ← char_at (p + 1); bracket_end (length pat) (if d == b'^' then p + 2 else p + 1))
        else ok (p + 1)

  -- `while (++p < ec)`
  unfoldable pub bracket_loop : ℕ → Bool → ℕ → ℕ → ℕ → Outcome Bool
  bracket_loop zero sig c p ec = out_of_fuel
  bracket_loop (suc fuel) sig c p ec = if not (ltb (p + 1) ec) then ok (not sig) else do
    x ← char_at (p + 1)
    y ← char_at (p + 2)
    if x == b'%'
        then if match_class c y then ok sig else bracket_loop fuel sig c (p + 2) ec
        else if y == b'-' && ltb (p + 3) ec
        then (do
          z ← char_at (p + 3)
          if leb x c && leb c z then ok sig else bracket_loop fuel sig c (p + 3) ec)
        else if x == c
        then ok sig
        else bracket_loop fuel sig c (p + 1) ec

  unfoldable pub matchbracketclass : ℕ → ℕ → ℕ → Outcome Bool
  unfolding bracket_loop
  matchbracketclass c p ec = do
    d ← char_at (p + 1)
    bracket_loop (suc (length pat)) (not (d == b'^')) c (if d == b'^' then p + 1 else p) ec

  unfoldable pub singlematch : ℕ → ℕ → ℕ → Outcome Bool
  unfolding matchbracketclass match_class
  singlematch c p ep = do
    x ← char_at p
    if x == b'.'
        then ok true
        else if x == b'%'
        then (do y ← char_at (p + 1); ok (match_class c y))
        else if x == b'['
        then matchbracketclass c p (ep - 1)
        else ok (x == c)
