-- ===== src/Patterns/Matching.antt =====
-- lua/lstrlib.c: the pattern matcher. `src` is the subject, whose memory goes on with the zero that
-- ends it, and a position in it is a number. The captures are the `level` first entries of
-- `ms->capture`; what stands behind them is not read.
use primemover.Prelude.{
  ℕ, zero, suc, ◌+◌, ◌-◌, Bool, true, false, not, ◌||◌, ◌&&◌, Option, none, some, List, [], ◌∷◌,
  ◌++◌, length, get_elem?, get_or, take, drop, ltb, leb, ◌==◌, if◌then◌else◌,
}
use primemover.Proto.{Bytes}
use primemover.Strings.{memcmp_eq}
use primemover.Patterns.{
  Outcome, ok, raised, out_of_fuel, ◌>>=◌, ◌>>◌, ensure, present, invalid_capture_index,
  invalid_pattern_capture, missing_frontier_bracket, unbalanced_pattern, too_many_captures, isdigit,
  char_at, classend, matchbracketclass, singlematch,
}

-- `len`: CAP_UNFINISHED, CAP_POSITION or a length
pub data Len : Type 0 where
  cap_unfinished cap_position : Len
  cap_len : ℕ → Len

pub record Capture : Type 0 where
  pub init : ℕ
  pub len : Len

abbrev pub Captures : Type 0
Captures = List Capture

-- The result of `match`, NULL as `none`, and the captures as it leaves them.
abbrev pub Matched : Type 0
Matched = Outcome (Option ℕ × Captures)

abbrev pub unfinished : Len → Bool
unfinished cap_unfinished = true
unfinished cap_position = false
unfinished (cap_len n) = false

-- the last capture that is not finished
unfoldable pub last_unfinished : Captures → Option ℕ
last_unfinished [] = none
last_unfinished (c ∷ ms) = elim (last_unfinished ms) [
  | some l ↦ some (suc l)
  | none ↦ if unfinished c.len then some 0 else none
]

unfoldable pub capture_to_close : Captures → Outcome ℕ
unfolding last_unfinished
capture_to_close ms = elim (last_unfinished ms) [
  | none ↦ raised invalid_pattern_capture
  | some l ↦ ok l
]

-- `ms->capture[l].len = len`
unfoldable pub set_len : Captures → ℕ → Len → Captures
set_len [] l len = []
set_len (c ∷ ms) zero len = record c { len = len } ∷ ms
set_len (c ∷ ms) (suc l) len = c ∷ set_len ms l len

-- `l` is a character
unfoldable pub check_capture : Captures → ℕ → Outcome Capture
check_capture ms l = elim (get_elem? ms (l - b'1')) [
  | none ↦ raised invalid_capture_index
  | some c ↦ if ltb l b'1' || unfinished c.len then raised invalid_capture_index else ok c
]

-- the rest of a balanced string, read from position `s`
unfoldable pub balance_loop : ℕ → ℕ → ℕ → ℕ → Bytes → Option ℕ
balance_loop b e cont s [] = none
balance_loop b e cont s (c ∷ cs) =
    let closed = balance_loop b e (cont - 1) (s + 1) cs in
    let opened = balance_loop b e (cont + 1) (s + 1) cs in
    let other = balance_loop b e cont (s + 1) cs in
    if c == e
    then (if cont - 1 == 0 then some (s + 1) else closed)
    else if c == b
    then opened
    else other

-- Where `match` goes on: a position in the subject, one in the pattern, and the captures.
abbrev pub Continuation : Type 0
Continuation = ℕ → ℕ → Captures → Matched

unfoldable pub start_capture : Continuation → ℕ → ℕ → Len → Captures → Matched
start_capture go s p what ms = do
  ensure (ltb (length ms) 32) too_many_captures
  r ← go s p (ms ++ record { init = s; len = what } ∷ [])
  elim r.0 [ none ↦ ok (none, take (length r.1 - 1) r.1) | some e ↦ ok (some e, r.1) ]

unfoldable pub end_capture : Continuation → ℕ → ℕ → Captures → Matched
unfolding capture_to_close set_len
end_capture go s p ms = do
  l ← capture_to_close ms
  c ← present (get_elem? ms l)
  r ← go s p (set_len ms l (cap_len (s - c.init)))
  elim r.0 [ none ↦ ok (none, set_len r.1 l cap_unfinished) | some e ↦ ok (some e, r.1) ]

-- `maximum` repetitions, or as many less as it takes
unfoldable pub try_fewer : Continuation → ℕ → ℕ → ℕ → Captures → Matched
try_fewer go zero s p ms = go s p ms
try_fewer go (suc i) s p ms = do
  r ← go (s + suc i) p ms
  elim r.0 [ none ↦ try_fewer go i s p r.1 | some e ↦ ok (some e, r.1) ]

module _ (src pat : Bytes) where
  -- `*s`: the zero behind the subject included
  abbrev pub subject_at : ℕ → ℕ
  subject_at s = get_or src s 0

  unfoldable pub match_capture : ℕ → ℕ → Captures → Outcome (Option ℕ)
  unfolding check_capture
  match_capture s l ms = do
    c ← check_capture ms l
    elim c.len [
      | cap_unfinished ↦ ok none
      | cap_position ↦ ok none
      | cap_len n ↦ ok (
          if leb n (length src - s) && memcmp_eq (drop c.init src) (take n (drop s src))
          then some (s + n)
          else none)
    ]

  unfoldable pub matchbalance : ℕ → ℕ → Outcome (Option ℕ)
  unfolding balance_loop
  matchbalance s p = do
    b ← char_at pat p
    ensure (not (b == 0)) unbalanced_pattern
    e ← char_at pat (p + 1)
    ensure (not (e == 0)) unbalanced_pattern
    ok (if subject_at s == b then balance_loop b e 1 (s + 1) (drop (s + 1) src) else none)

  -- how many characters from `s` on match the item: the first loop of `max_expand`
  unfoldable pub expand : ℕ → ℕ → ℕ → ℕ → Outcome ℕ
  expand zero s p ep = ok 0
  expand (suc left) s p ep = do
    m ← singlematch pat (subject_at s) p ep
    if m then (expand left (s + 1) p ep >>= λ i. ok (suc i)) else ok 0

  unfoldable pub max_expand : Continuation → ℕ → ℕ → ℕ → Captures → Matched
  unfolding expand try_fewer
  max_expand go s p ep ms = do i ← expand (length src - s) s p ep; try_fewer go i s (ep + 1) ms

  -- `left` is how many characters there are from `s` to the end
  unfoldable pub min_loop : ℕ → Continuation → ℕ → ℕ → ℕ → Captures → Matched
  min_loop zero go s p ep ms = go s (ep + 1) ms
  min_loop (suc left) go s p ep ms = do
    r ← go s (ep + 1) ms
    elim r.0 [
      | some e ↦ ok (some e, r.1)
      | none ↦ do
        m ← singlematch pat (subject_at s) p ep
        if m then min_loop left go (s + 1) p ep r.1 else ok (none, r.1)
    ]

  unfoldable pub min_expand : Continuation → ℕ → ℕ → ℕ → Captures → Matched
  unfolding min_loop
  min_expand go s p ep ms = min_loop (length src - s) go s p ep ms

  -- `?`: with the character, or without it
  unfoldable pub optional : Bool → Continuation → ℕ → ℕ → Captures → Matched
  optional true go s p ms = do
    r ← go (s + 1) p ms
    elim r.0 [ none ↦ go s p r.1 | some e ↦ ok (some e, r.1) ]
  optional false go s p ms = go s p ms

  -- the case `dflt`: a pattern item
  unfoldable pub match_item : Continuation → ℕ → ℕ → Captures → Matched
  unfolding max_expand min_expand optional
  match_item go s p ms = do
    ep ← classend pat p
    m ← (if ltb s (length src) then singlematch pat (subject_at s) p ep else ok false)
    q ← char_at pat ep
    if q == b'?'
        then optional m go s (ep + 1) ms
        else if q == b'*'
        then max_expand go s p ep ms
        else if q == b'+'
        then (if m then max_expand go (s + 1) p ep ms else ok (none, ms))
        else if q == b'-'
        then min_expand go s p ep ms
        else if m
        then go (s + 1) ep ms
        else ok (none, ms)

  -- `if (s == NULL) return NULL; p = ...; goto init;`
  unfoldable pub go_on : Continuation → Option ℕ → ℕ → Captures → Matched
  go_on go none p ms = ok (none, ms)
  go_on go (some s) p ms = go s p ms

  unfoldable pub frontier : Continuation → ℕ → ℕ → Captures → Matched
  frontier go s p ms = do
    c ← char_at pat p
    ensure (c == b'[') missing_frontier_bracket
    ep ← classend pat p
    before ← matchbracketclass pat (if s == 0 then 0 else subject_at (s - 1)) p (ep - 1)
    here ← (if before then ok false else matchbracketclass pat (subject_at s) p (ep - 1))
    if here then go s ep ms else ok (none, ms)

  unfoldable pub match_escape : Continuation → ℕ → ℕ → Captures → Matched
  unfolding matchbalance match_capture frontier match_item go_on
  match_escape go s p ms = do
    d ← char_at pat (p + 1)
    if d == b'b'
        then (matchbalance s (p + 2) >>= λ r. go_on go r (p + 4) ms)
        else if d == b'f'
        then frontier go s (p + 2) ms
        else if isdigit d
        then (match_capture s d ms >>= λ r. go_on go r (p + 2) ms)
        else match_item go s p ms

  unfoldable pub match_step : Continuation → Continuation
  unfolding start_capture end_capture match_escape match_item
  match_step go s p ms = do
    c ← char_at pat p
    if c == b'('
        then (do
          d ← char_at pat (p + 1)
          if d == b')'
              then start_capture go s (p + 2) cap_position ms
              else start_capture go s (p + 1) cap_unfinished ms)
        else if c == b')'
        then end_capture go s (p + 1) ms
        else if c == b'%'
        then match_escape go s p ms
        else if c == 0
        then ok (some s, ms)
        else if c == b'$'
        then (do
          d ← char_at pat (p + 1)
          if d == 0
              then ok (if s == length src then some s else none, ms)
              else match_item go s p ms)
        else match_item go s p ms

  -- `match`, on fuel: each call that it makes is further in the pattern
  unfoldable pub do_match : ℕ → Continuation
  unfolding match_step
  do_match zero s p ms = char_at pat p >>= λ c. out_of_fuel
  do_match (suc fuel) s p ms = match_step (do_match fuel) s p ms

  -- a call at the start of the pattern, with no capture
  unfoldable pub match_from : ℕ → Matched
  unfolding do_match
  match_from s = do_match (length pat) s 0 []
