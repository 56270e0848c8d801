-- ===== src/Patterns/Find.antt =====
-- lua/lstrlib.c: `string.find` and the iterator of `string.gfind`. Results are the values pushed.
use primemover.Prelude.{
  ℕ, zero, suc, ◌+◌, ◌-◌, Bool, true, false, not, ◌||◌, ◌&&◌, Option, none, some, List, [], ◌∷◌,
  ◌++◌, take, drop, length, codes, ltb, ◌==◌, if◌then◌else◌,
}
use primemover.Prelude.Int.{ℤ, pos, negsuc, pos_part, ◌-ℤ◌, as_int}
use primemover.Proto.{Bytes}
use primemover.Strings.{posrelat, lmemfind}
use primemover.Patterns.{Outcome, ok, raised, fault, ◌>>=◌, unfinished_capture}
use primemover.Patterns.Matching.{
  Capture, Captures, cap_unfinished, cap_position, cap_len, match_from,
}

pub data Value : Type 0 where
  number : ℕ → Value
  text : Bytes → Value

-- What is left of a length in an int, where CAP_UNFINISHED is -1 and CAP_POSITION is -2; any other
-- negative length is a read outside the string.
abbrev pub push_length : Bytes → ℕ → ℤ → Outcome Value
push_length src init (pos l) = ok (text (take l (drop init src)))
push_length src init (negsuc zero) = raised unfinished_capture
push_length src init (negsuc (suc zero)) = ok (number (init + 1))
push_length src init (negsuc (suc (suc k))) = fault

unfoldable pub push_onecapture : Bytes → Capture → Outcome Value
push_onecapture src c = elim c.len [
  | cap_unfinished ↦ raised unfinished_capture
  | cap_position ↦ ok (number (c.init + 1))
  | cap_len n ↦ push_length src c.init (as_int n)
]

unfoldable pub push_each : Bytes → Captures → Outcome (List Value)
unfolding push_onecapture
push_each src [] = ok []
push_each src (c ∷ ms) = push_onecapture src c >>= λ v. push_each src ms >>= λ vs. ok (v ∷ vs)

-- `push_captures(ms, s, e)`, where the subject matched from `s` to `e`
unfoldable pub push_captures : Bytes → Captures → ℕ → ℕ → Outcome (List Value)
unfolding push_each
push_captures src [] s e = ok (text (take (e - s) (drop s src)) ∷ [])
push_captures src (c ∷ ms) s e = push_each src (c ∷ ms)

-- `strpbrk(p, SPECIALS)`
unfoldable pub has_special : Bytes → Bool
has_special [] = false
has_special (c ∷ p) =
    let rest = has_special p in not (c == 0) && (among (codes "^$*+?.([%-") c || rest)
  where
    among : Bytes → ℕ → Bool
    among [] c = false
    among (d ∷ ds) c = c == d || among ds c

-- where the search starts, from 0
unfoldable pub find_init : ℤ → ℕ → ℕ
unfolding posrelat ◌-ℤ◌
find_init i l1 = let init = pos_part (posrelat i l1 -ℤ pos 1) in if ltb l1 init then l1 else init

-- the loop over the starts of a match; `left` is how many there are after `s`
unfoldable pub find_loop : Bytes → Bytes → Bool → ℕ → ℕ → Outcome (Option (ℕ × ℕ × List Value))
unfolding push_each
find_loop src pat anchor zero s = do
  r ← match_from src pat s
  elim r.0 [ some e ↦ push_each src r.1 >>= λ vs. ok (some (s + 1, e, vs)) | none ↦ ok none ]
find_loop src pat anchor (suc left) s = do
  r ← match_from src pat s
  elim r.0 [
    | some e ↦ push_each src r.1 >>= λ vs. ok (some (s + 1, e, vs))
    | none ↦ if anchor then ok none else find_loop src pat anchor left (s + 1)
  ]

-- the search for a pattern, whose memory ends with a zero
unfoldable pub find_pattern : Bytes → Bytes → ℕ → Outcome (Option (ℕ × ℕ × List Value))
unfolding find_loop
find_pattern src [] init = fault
find_pattern src (c ∷ pat) init =
    if c == b'^'
    then find_loop src pat true (length src - init) init
    else find_loop src (c ∷ pat) false (length src - init) init

unfoldable pub find_plain : Bytes → Bytes → ℕ → Outcome (Option (ℕ × ℕ × List Value))
find_plain src p init = elim (lmemfind (drop init src) p) [
  | none ↦ ok none
  | some k ↦ ok (some (init + k + 1, init + k + length p, []))
]

unfoldable pub str_find : Bytes → Bytes → ℤ → Bool → Outcome (Option (ℕ × ℕ × List Value))
unfolding find_init find_plain find_pattern has_special
str_find s p i plain =
    let init = find_init i (length s) in
    if plain || not (has_special p) then find_plain s p init else find_pattern s (p ++ 0 ∷ []) init

-- `left` is how many starts there are from `s` on. The result has the start of the next round, which
-- is kept in an int.
unfoldable pub gfind_loop : Bytes → Bytes → ℕ → ℕ → Outcome (Option (ℤ × List Value))
unfolding push_captures
gfind_loop src pat zero s = ok none
gfind_loop src pat (suc left) s = do
  r ← match_from src pat s
  elim r.0 [
    | some e ↦
        push_captures src r.1 s e >>= λ vs. ok (some (as_int (if e == s then e + 1 else e), vs))
    | none ↦ gfind_loop src pat left (s + 1)
  ]

unfoldable pub gfind_aux : Bytes → Bytes → ℕ → Outcome (Option (ℤ × List Value))
unfolding gfind_loop
gfind_aux src p start = gfind_loop src (p ++ 0 ∷ []) (length src + 1 - start) start
