-- ===== src/Patterns/Reach.antt =====
-- lua/lstrlib.c: the calls of `match` within one another, and the places in the subject that they reach.
use primemover.Prelude.{
  ℕ, zero, suc, ◌+◌, ◌-◌, ◌≤◌, ◌<◌, Bool, true, false, Option, none, some, [], ◌∷◌, length,
  length-drop, get_elem?, take, drop, ltb, leb, ◌==◌, if◌then◌else◌, ◌≡◌, ◌≢◌, refl, arith,
  Option-cases, Bool-cases, inl, inr, not, ◌&&◌, ◌||◌,
}
use primemover.Proto.{Bytes}
use primemover.Strings.{memcmp_eq}
use primemover.Patterns.{
  Outcome, ok, raised, fault, out_of_fuel, ◌>>=◌, ensure, present, too_many_captures, isdigit,
  unbalanced_pattern, char_at, classend, matchbracketclass, singlematch, missing_frontier_bracket,
}
use primemover.Patterns.Progress.{
  Good, Good-bind, Good-if, Good-weaken, Any, Good-ensure, Good-present, classend-Good,
  matchbracketclass-Good, singlematch-Good,
}
use primemover.Patterns.Matching.{
  Len, cap_unfinished, cap_position, cap_len, Captures, Matched, Continuation, unfinished,
  last_unfinished, capture_to_close, set_len, start_capture, end_capture, try_fewer, expand,
  max_expand, min_loop, min_expand, optional, check_capture, match_item, go_on, frontier,
  match_escape, match_step, do_match, match_from, matchbalance, balance_loop, match_capture,
  subject_at,
}

-- a place from `s` on, in a subject of `n` characters
abbrev pub Within : ℕ → ℕ → Option ℕ → Type 0
Within n s none = Unit
Within n s (some e) = (s ≤ e) × (e ≤ n)

abbrev pub Reaches : ℕ → ℕ → Option ℕ × Captures → Type 0
Reaches n s r = Within n s r.0

Within-weaken : (n s t : ℕ) (o : Option ℕ) → s ≤ t → Within n t o → Within n s o
Within-weaken n s t none h w = tt
Within-weaken n s t (some e) h w = (omega (arith, w), w.1)

Reaches-else :
    (n s t : ℕ) (m : Matched) (other : Captures → Matched)
    → s ≤ t
    → Good (Reaches n t) m
    → ((ms : Captures) → Good (Reaches n s) (other ms))
    → Good
        (Reaches n s)
        (m >>= λ r. elim r.0 as (λ o. Matched) [ none ↦ other r.1 | some e ↦ ok (some e, r.1) ])
Reaches-else n s t (ok r) other h w k = go r.0 w
  where
    go :
        (o : Option ℕ)
        → Within n t o
        → Good
            (Reaches n s)
            (elim o as (λ o. Matched) [ none ↦ other r.1 | some e ↦ ok (some e, r.1) ])
    go none w = k r.1
    go (some e) w = (omega (arith, w), w.1)
Reaches-else n s t (raised e) other h w k = tt
Reaches-else n s t fault other h w k = tt
Reaches-else n s t out_of_fuel other h w k = w

capture_to_close-Good : (ms : Captures) → Good Any (capture_to_close ms)
unfolding capture_to_close
capture_to_close-Good ms = elim (Option-cases (last_unfinished ms)) [
  | inl e ↦ rw (e, Good) tt
  | inr (l, e) ↦ rw (e, Good) tt
]

check_capture-Good : (ms : Captures) (l : ℕ) → Good Any (check_capture ms l)
unfolding check_capture
check_capture-Good ms l = elim (Option-cases (get_elem? ms (l - b'1'))) [
  | inl e ↦ rw (e, Good) tt
  | inr (c, e) ↦ rw (e, Good) (Good-if Any (ltb l b'1' || unfinished c.len) _ _ tt tt)
]

balance_loop-lem :
    (b e cont s : ℕ) (cs : Bytes) {r : ℕ}
    → balance_loop b e cont s cs ≡ some r
    → (s < r) × (r ≤ s + length cs)
unfolding balance_loop
balance_loop-lem b e cont s [] h = cc
balance_loop-lem b e cont s (c ∷ cs) {r = r} h =
    let closed = balance_loop-lem b e (cont - 1) (s + 1) cs {r = r} in
    let opened = balance_loop-lem b e (cont + 1) (s + 1) cs {r = r} in
    let other = balance_loop-lem b e cont (s + 1) cs {r = r} in
    ground (arith, closed, opened, other)

module _ (src pat : Bytes) where
  -- What `match` may be called with, when it stands at `p`: any place of the subject, and one further
  -- in the pattern.
  abbrev Continues : ℕ → Continuation → Type 0
  Continues p go =
      (s q : ℕ) (ms : Captures) → s ≤ length src → p < q → Good (Reaches (length src) s) (go s q ms)

  matchbalance-Good :
      (s p : ℕ) → s ≤ length src → Good (Within (length src) s) (matchbalance src pat s p)
  unfolding matchbalance
  matchbalance-Good s p inside = Good-bind _ (char_at pat p) _ (Good-present pat p) (λ b hb.
      Good-bind _ (ensure (not (b == 0)) unbalanced_pattern) _ (Good-ensure _ unbalanced_pattern)
        (λ u hu. Good-bind _ (char_at pat (p + 1)) _ (Good-present pat (p + 1)) (λ e he.
          Good-bind _ (ensure (not (e == 0)) unbalanced_pattern) _
            (Good-ensure _ unbalanced_pattern)
            (λ u hu.
              ends (subject_at src pat s == b) (balance_loop b e 1 (s + 1) (drop (s + 1) src))
                (λ r h. balance_loop-lem b e 1 (s + 1) (drop (s + 1) src) h)))))
    where
      ends :
          (t : Bool) (o : Option ℕ)
          → ((r : ℕ) → o ≡ some r → (s + 1 < r) × (r ≤ s + 1 + length (drop (s + 1) src)))
          → Within (length src) s (if t then o else none)
      ends false o h = tt
      ends true none h = tt
      ends true (some r) h =
          let b = h r refl in (omega (arith, b), omega (arith, b, length-drop (s + 1) src))

  match_capture-Good :
      (s l : ℕ) (ms : Captures)
      → s ≤ length src
      → Good (Within (length src) s) (match_capture src pat s l ms)
  unfolding match_capture
  match_capture-Good s l ms inside =
      Good-bind _ (check_capture ms l) _ (check_capture-Good ms l) (λ c hc. ends c.len c.init)
    where
      ends :
          (len : Len) (init : ℕ)
          → Good (Within (length src) s) (elim len as (λ t. Outcome (Option ℕ)) [
            | cap_unfinished ↦ ok none
            | cap_position ↦ ok none
            | cap_len n ↦ ok (
                if leb n (length src - s) && memcmp_eq (drop init src) (take n (drop s src))
                then some (s + n)
                else none)
          ])
      ends cap_unfinished init = tt
      ends cap_position init = tt
      ends (cap_len n) init =
          elim (Bool-cases
            (leb n (length src - s) && memcmp_eq (drop init src) (take n (drop s src)))) [
              | inl h ↦ rw (h, Within) (ground arith)
              | inr h ↦ rw (h, Within) tt
            ]

  expand-Good : (left s p ep : ℕ) → Good (λ i. i ≤ left) (expand src pat left s p ep)
  unfolding expand
  expand-Good zero s p ep = omega arith
  expand-Good (suc left) s p ep =
      Good-bind _ (singlematch pat (subject_at src pat s) p ep) _ (singlematch-Good pat _ p ep)
        (λ m hm.
          Good-if _ m _ _
            (Good-bind _ (expand src pat left (s + 1) p ep) _ (expand-Good left (s + 1) p ep)
              (λ i hi. omega (arith, hi)))
            (omega arith))

  module _ (p : ℕ) (go : Continuation) (continues : Continues p go) where
    start_capture-Good :
        (s q : ℕ) (what : Len) (ms : Captures)
        → s ≤ length src
        → p < q
        → Good (Reaches (length src) s) (start_capture go s q what ms)
    unfolding start_capture
    start_capture-Good s q what ms inside further =
        Good-bind _ (ensure (ltb (length ms) 32) too_many_captures) _
          (Good-ensure _ too_many_captures)
          (λ u hu.
            Reaches-else (length src) s s _ (λ ms'. ok (none, take (length ms' - 1) ms'))
              (omega arith) (continues s q _ inside further) (λ ms'. tt))

    end_capture-Good :
        (s q : ℕ) (ms : Captures)
        → s ≤ length src
        → p < q
        → Good (Reaches (length src) s) (end_capture go s q ms)
    unfolding end_capture
    end_capture-Good s q ms inside further =
        Good-bind _ (capture_to_close ms) _ (capture_to_close-Good ms) (λ l hl.
          Good-bind _ (present (get_elem? ms l)) _ (Good-present ms l) (λ c hc.
            Reaches-else (length src) s s _ (λ ms'. ok (none, set_len ms' l cap_unfinished))
              (omega arith) (continues s q _ inside further) (λ ms'. tt)))

    try_fewer-Good :
        (i s q : ℕ) (ms : Captures)
        → s + i ≤ length src
        → p < q
        → Good (Reaches (length src) s) (try_fewer go i s q ms)
    unfolding try_fewer
    try_fewer-Good zero s q ms inside further = continues s q ms (omega arith) further
    try_fewer-Good (suc i) s q ms inside further =
        Reaches-else (length src) s (s + suc i) _ (try_fewer go i s q) (omega arith)
          (continues (s + suc i) q ms inside further)
          (λ ms'. try_fewer-Good i s q ms' (omega arith) further)

    max_expand-Good :
        (s q ep : ℕ) (ms : Captures)
        → s ≤ length src
        → p < ep
        → Good (Reaches (length src) s) (max_expand src pat go s q ep ms)
    unfolding max_expand
    max_expand-Good s q ep ms inside further =
        Good-bind _ (expand src pat (length src - s) s q ep) _ (expand-Good (length src - s) s q ep)
          (λ i hi. try_fewer-Good i s (ep + 1) ms (omega (arith, hi)) (omega arith))

    min_loop-Good :
        (left s q ep : ℕ) (ms : Captures)
        → s + left ≤ length src
        → p < ep
        → Good (Reaches (length src) s) (min_loop src pat left go s q ep ms)
    unfolding min_loop
    min_loop-Good zero s q ep ms inside further =
        continues s (ep + 1) ms (omega arith) (omega arith)
    min_loop-Good (suc left) s q ep ms inside further =
        Reaches-else (length src) s s _
          (λ ms'. singlematch pat (subject_at src pat s) q ep >>= λ m.
            if m then min_loop src pat left go (s + 1) q ep ms' else ok (none, ms'))
          (omega arith) (continues s (ep + 1) ms (omega arith) (omega arith))
          (λ ms'.
            Good-bind _ (singlematch pat (subject_at src pat s) q ep) _
              (singlematch-Good pat _ q ep)
              (λ m hm.
                Good-if _ m _ _
                  (Good-weaken (min_loop src pat left go (s + 1) q ep ms')
                    (λ r w. Within-weaken (length src) s (s + 1) r.0 (omega arith) w)
                    (min_loop-Good left (s + 1) q ep ms' (omega arith) further))
                  tt))

    optional-Good :
        (m : Bool) (s q : ℕ) (ms : Captures)
        → s ≤ length src
        → (m ≡ true → s < length src)
        → p < q
        → Good (Reaches (length src) s) (optional src pat m go s q ms)
    unfolding optional
    optional-Good true s q ms inside more further =
        Reaches-else (length src) s (s + 1) _ (go s q) (omega arith)
          (continues (s + 1) q ms (omega (arith, more refl)) further)
          (λ ms'. continues s q ms' inside further)
    optional-Good false s q ms inside more further = continues s q ms inside further

    -- `s + 1` where the item has matched
    one_more-Good :
        (m : Bool) (s : ℕ) (x : Matched) (ms : Captures)
        → (m ≡ true → Good (Reaches (length src) (s + 1)) x)
        → Good (Reaches (length src) s) (if m then x else ok (none, ms))
    one_more-Good true s x ms h =
        Good-weaken x (λ r w. Within-weaken (length src) s (s + 1) r.0 (omega arith) w) (h refl)
    one_more-Good false s x ms h = tt

    match_item-Good :
        (s : ℕ) (ms : Captures)
        → s ≤ length src
        → Good (Reaches (length src) s) (match_item src pat go s p ms)
    unfolding match_item min_expand
    match_item-Good s ms inside = Good-bind _ (classend pat p) _ (classend-Good pat p) (λ ep hep.
        Good-bind _
          (if ltb s (length src) then singlematch pat (subject_at src pat s) p ep else ok false) _
          (matches s ep)
          (λ m hm. Good-bind _ (char_at pat ep) _ (Good-present pat ep) (λ c hc.
            Good-if _ (c == b'?') _ _ (optional-Good m s (ep + 1) ms inside hm (omega (arith, hep)))
              (Good-if _ (c == b'*') _ _ (max_expand-Good s p ep ms inside hep) (
                Good-if _ (c == b'+') _ _
                  (one_more-Good m s _ ms
                    (λ h. max_expand-Good (s + 1) p ep ms (omega (arith, hm h)) hep))
                  (Good-if _ (c == b'-') _ _
                    (min_loop-Good (length src - s) s p ep ms (omega arith) hep)
                    (one_more-Good m s _ ms
                      (λ h. continues (s + 1) ep ms (omega (arith, hm h)) hep))))))))
      where
        matches :
            (s ep : ℕ)
            → Good
                (λ m. m ≡ true → s < length src)
                (if ltb s (length src)
                  then singlematch pat (subject_at src pat s) p ep
                  else ok false)
        matches s ep = elim (Bool-cases (ltb s (length src))) [
          | inl h ↦
              rw (h, Good)
                (Good-weaken (singlematch pat (subject_at src pat s) p ep) (λ m u t. ground arith)
                  (singlematch-Good pat _ p ep))
          | inr h ↦ rw (h, Good) (λ t. cc)
        ]

    go_on-Good :
        (s : ℕ) (o : Option ℕ) (q : ℕ) (ms : Captures)
        → Within (length src) s o
        → p < q
        → Good (Reaches (length src) s) (go_on src pat go o q ms)
    unfolding go_on
    go_on-Good s none q ms w further = tt
    go_on-Good s (some e) q ms w further =
        Good-weaken (go e q ms) (λ r u. Within-weaken (length src) s e r.0 w.0 u)
          (continues e q ms w.1 further)

    frontier-Good :
        (s : ℕ) (ms : Captures)
        → s ≤ length src
        → Good (Reaches (length src) s) (frontier src pat go s (p + 2) ms)
    unfolding frontier
    frontier-Good s ms inside =
        Good-bind _ (char_at pat (p + 2)) _ (Good-present pat (p + 2)) (λ c hc.
          Good-bind _ (ensure (c == b'[') missing_frontier_bracket) _
            (Good-ensure _ missing_frontier_bracket)
            (λ u hu. Good-bind _ (classend pat (p + 2)) _ (classend-Good pat (p + 2)) (λ ep hep.
              Good-bind _
                (matchbracketclass pat (if s == 0 then 0 else subject_at src pat (s - 1)) (p + 2)
                  (ep - 1))
                _ (matchbracketclass-Good pat _ (p + 2) (ep - 1))
                (λ before hb.
                  Good-bind _
                    (if before
                      then ok false
                      else matchbracketclass pat (subject_at src pat s) (p + 2) (ep - 1))
                    _ (Good-if Any before _ _ tt (matchbracketclass-Good pat _ (p + 2) (ep - 1)))
                    (λ here hh.
                      Good-if _ here _ _ (continues s ep ms inside (omega (arith, hep))) tt)))))

    match_escape-Good :
        (s : ℕ) (ms : Captures)
        → s ≤ length src
        → Good (Reaches (length src) s) (match_escape src pat go s p ms)
    unfolding match_escape
    match_escape-Good s ms inside =
        Good-bind _ (char_at pat (p + 1)) _ (Good-present pat (p + 1)) (λ d hd.
          Good-if _ (d == b'b') _ _
            (Good-bind _ (matchbalance src pat s (p + 2)) _ (matchbalance-Good s (p + 2) inside)
              (λ o w. go_on-Good s o (p + 4) ms w (omega arith)))
            (Good-if _ (d == b'f') _ _ (frontier-Good s ms inside) (
              Good-if _ (isdigit d) _ _
                (Good-bind _ (match_capture src pat s d ms) _ (match_capture-Good s d ms inside)
                  (λ o w. go_on-Good s o (p + 2) ms w (omega arith)))
                (match_item-Good s ms inside))))

    match_step-Good :
        (s : ℕ) (ms : Captures)
        → s ≤ length src
        → Good (Reaches (length src) s) (match_step src pat go s p ms)
    unfolding match_step
    match_step-Good s ms inside = Good-bind _ (char_at pat p) _ (Good-present pat p) (λ c hc.
        Good-if _ (c == b'(') _ _
          (Good-bind _ (char_at pat (p + 1)) _ (Good-present pat (p + 1)) (λ d hd.
            Good-if _ (d == b')') _ _
              (start_capture-Good s (p + 2) cap_position ms inside (omega arith))
              (start_capture-Good s (p + 1) cap_unfinished ms inside (omega arith))))
          (Good-if _ (c == b')') _ _ (end_capture-Good s (p + 1) ms inside (omega arith)) (
            Good-if _ (c == b'%') _ _ (match_escape-Good s ms inside) (
              Good-if _ (c == 0) _ _ (omega arith, inside)
                (Good-if _ (c == b'$') _ _
                  (Good-bind _ (char_at pat (p + 1)) _ (Good-present pat (p + 1)) (λ d hd.
                    Good-if _ (d == 0) _ _ (at_end s (s == length src) inside)
                      (match_item-Good s ms inside)))
                  (match_item-Good s ms inside))))))
      where
        at_end :
            (s : ℕ) (b : Bool) → s ≤ length src → Within (length src) s (if b then some s else none)
        at_end s true h = (omega arith, h)
        at_end s false h = tt

  do_match-Good :
      (fuel s p : ℕ) (ms : Captures)
      → s ≤ length src
      → length pat ≤ fuel + p
      → Good (Reaches (length src) s) (do_match src pat fuel s p ms)
  unfolding do_match
  do_match-Good zero s p ms inside enough =
      Good-bind _ (char_at pat p) _ (Good-present pat p) (λ c hc. absurd (omega (arith, hc)))
  do_match-Good (suc fuel) s p ms inside enough =
      match_step-Good p (do_match src pat fuel)
        (λ s q ms inside further. do_match-Good fuel s q ms inside (omega (arith, further))) s ms
        inside

pub match_from-Good :
    (src pat : Bytes) (s : ℕ)
    → s ≤ length src
    → Good (Reaches (length src) s) (match_from src pat s)
unfolding match_from
match_from-Good src pat s inside = do_match-Good src pat (length pat) s 0 [] inside (omega arith)

pub Good-ends {ℓ} : {A : Type ℓ} (P : A → Type 0) (m : Outcome A) → Good P m → m ≢ out_of_fuel
Good-ends P (ok a) h = cc
Good-ends P (raised e) h = cc
Good-ends P fault h = cc
Good-ends P out_of_fuel h = absurd h

-- `match` ends on every subject and every pattern, malformed ones included: the length of the
-- pattern is fuel enough.
pub match_from-fuel :
    (src pat : Bytes) (s : ℕ) → s ≤ length src → match_from src pat s ≢ out_of_fuel
unfolding match_from
match_from-fuel src pat s inside =
    Good-ends _ (do_match src pat (length pat) s 0 [])
      (do_match-Good src pat (length pat) s 0 [] inside (omega arith))

-- A match that starts in the subject ends in the subject, not before its start.
pub match_from-Within :
    (src pat : Bytes) (s : ℕ) {e : ℕ} {ms : Captures}
    → s ≤ length src
    → match_from src pat s ≡ ok (some e, ms)
    → (s ≤ e) × (e ≤ length src)
unfolding match_from
match_from-Within src pat s inside h =
    let g = do_match-Good src pat (length pat) s 0 [] inside (omega arith) in pick h g
  where
    pick :
        {m : Matched} {n s e : ℕ} {ms : Captures}
        → m ≡ ok (some e, ms)
        → Good (Reaches n s) m
        → (s ≤ e) × (e ≤ n)
    pick h g = rw h at g
