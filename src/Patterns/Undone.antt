-- ===== src/Patterns/Undone.antt =====
-- lua/lstrlib.c: the captures after a match that has failed.
use primemover.Prelude.{
  ℕ, zero, suc, ◌+◌, ◌-◌, Bool, true, false, Option, none, some, List, [], ◌∷◌, ◌++◌, length,
  length-append, get_elem?, take, ltb, ◌==◌, if◌then◌else◌, ◌≡◌, refl, sym, ap, arith, Option-cases,
  inl, inr,
}
use primemover.Proto.{Bytes}
use primemover.Patterns.{
  Outcome, ok, raised, fault, out_of_fuel, ◌>>=◌, ensure, present, too_many_captures, isdigit,
  char_at, classend, matchbracketclass, singlematch, missing_frontier_bracket,
}
use primemover.Patterns.Matching.{
  Len, cap_unfinished, cap_position, cap_len, Captures, Matched, Continuation, unfinished,
  last_unfinished, capture_to_close, set_len, start_capture, end_capture, try_fewer, expand,
  max_expand, min_loop, min_expand, optional, match_item, go_on, frontier, match_escape, match_step,
  do_match, matchbalance, match_capture, subject_at,
}

-- If there is no match, then the captures are `ms`.
abbrev Undone : Captures → Matched → Type 0
Undone ms (ok r) = elim r.0 [ none ↦ r.1 ≡ ms | some e ↦ Unit ]
Undone ms (raised e) = Unit
Undone ms fault = Unit
Undone ms out_of_fuel = Unit

Undone-bind {ℓ} :
    {A : Type ℓ} (ms : Captures) (m : Outcome A) (f : A → Matched)
    → ((a : A) → Undone ms (f a))
    → Undone ms (m >>= f)
Undone-bind ms (ok a) f h = h a
Undone-bind ms (raised e) f h = tt
Undone-bind ms fault f h = tt
Undone-bind ms out_of_fuel f h = tt

-- What is tried when a match fails starts with the captures that the match started with.
Undone-else :
    (ms before : Captures) (m : Matched) (other : Captures → Matched)
    → Undone before m
    → Undone ms (other before)
    → Undone ms
        (m >>= λ r. elim r.0 as (λ o. Matched) [ none ↦ other r.1 | some e ↦ ok (some e, r.1) ])
Undone-else ms before (ok r) other h k = go r.0 h
  where
    go :
        (o : Option ℕ)
        → (elim o as (λ o. Type 0) [ none ↦ r.1 ≡ before | some e ↦ Unit ])
        → Undone ms (elim o as (λ o. Matched) [ none ↦ other r.1 | some e ↦ ok (some e, r.1) ])
    go none h = rw h k
    go (some e) h = tt
Undone-else ms before (raised e) other h k = tt
Undone-else ms before fault other h k = tt
Undone-else ms before out_of_fuel other h k = tt

Undone-if :
    (ms : Captures) (b : Bool) (x y : Matched)
    → Undone ms x
    → Undone ms y
    → Undone ms (if b then x else y)
Undone-if ms true x y h k = h
Undone-if ms false x y h k = k

module _ {ℓ} {A : Type ℓ} where
  take-length_front : (xs : List A) (x : A) → take (length xs) (xs ++ x ∷ []) ≡ xs
  take-length_front [] x = refl
  take-length_front (y ∷ xs) x = ap (◌∷◌ y) (take-length_front xs x)

  take-length_append : (xs : List A) (x : A) → take (length (xs ++ x ∷ []) - 1) (xs ++ x ∷ []) ≡ xs
  take-length_append xs x =
      let shift : length (xs ++ x ∷ []) - 1 ≡ length xs =
        omega (arith, length-append xs (x ∷ [])) in
      rw shift (take-length_front xs x)

unfinished-lem : (x : Len) → unfinished x ≡ true → x ≡ cap_unfinished
unfinished-lem cap_unfinished h = refl
unfinished-lem cap_position h = cc
unfinished-lem (cap_len n) h = cc

-- A capture that is closed and opened again is as it was.
set_len-last_unfinished :
    (ms : Captures) (l n : ℕ)
    → last_unfinished ms ≡ some l
    → set_len (set_len ms l (cap_len n)) l cap_unfinished ≡ ms
unfolding set_len last_unfinished
set_len-last_unfinished [] l n h = cc
set_len-last_unfinished (c ∷ ms) zero n h = elim (Option-cases (last_unfinished ms)) [
  | inl e ↦
      ap (λ (len : Len). record { init = c.init; len = len } ∷ ms)
        (sym (unfinished-lem c.len (ground arith)))
  | inr (k, e) ↦ ground arith
]
set_len-last_unfinished (c ∷ ms) (suc l) n h = elim (Option-cases (last_unfinished ms)) [
  | inl e ↦ ground arith
  | inr (k, e) ↦ ap (◌∷◌ c) (set_len-last_unfinished ms l n (ground arith))
]

module _ (go : Continuation) (restores : (s p : ℕ) (ms : Captures) → Undone ms (go s p ms)) where
  start_capture-Undone :
      (s p : ℕ) (what : Len) (ms : Captures) → Undone ms (start_capture go s p what ms)
  unfolding start_capture
  start_capture-Undone s p what ms =
      Undone-bind ms (ensure (ltb (length ms) 32) too_many_captures) _ (λ u.
        Undone-else ms (ms ++ record { init = s; len = what } ∷ []) _
          (λ ms'. ok (none, take (length ms' - 1) ms')) (restores s p _)
          (take-length_append ms (record { init = s; len = what })))

  end_capture-Undone : (s p : ℕ) (ms : Captures) → Undone ms (end_capture go s p ms)
  unfolding end_capture capture_to_close
  end_capture-Undone s p ms = elim (Option-cases (last_unfinished ms)) [
    | inl e ↦ rw (e, Undone) tt
    | inr (l, e) ↦
        rw (e, Undone)
          (Undone-bind ms (present (get_elem? ms l)) _ (λ c.
            Undone-else ms (set_len ms l (cap_len (s - c.init))) _
              (λ ms'. ok (none, set_len ms' l cap_unfinished)) (restores s p _)
              (set_len-last_unfinished ms l (s - c.init) e)))
  ]

  try_fewer-Undone : (i s p : ℕ) (ms : Captures) → Undone ms (try_fewer go i s p ms)
  unfolding try_fewer
  try_fewer-Undone zero s p ms = restores s p ms
  try_fewer-Undone (suc i) s p ms =
      Undone-else ms ms _ (try_fewer go i s p) (restores (s + suc i) p ms)
        (try_fewer-Undone i s p ms)

  module _ (src pat : Bytes) where
    max_expand-Undone : (s p ep : ℕ) (ms : Captures) → Undone ms (max_expand src pat go s p ep ms)
    unfolding max_expand
    max_expand-Undone s p ep ms =
        Undone-bind ms (expand src pat (length src - s) s p ep) _
          (λ i. try_fewer-Undone i s (ep + 1) ms)

    min_loop-Undone :
        (left s p ep : ℕ) (ms : Captures) → Undone ms (min_loop src pat left go s p ep ms)
    unfolding min_loop
    min_loop-Undone zero s p ep ms = restores s (ep + 1) ms
    min_loop-Undone (suc left) s p ep ms =
        Undone-else ms ms _
          (λ ms'. singlematch pat (subject_at src pat s) p ep >>= λ m.
            if m then min_loop src pat left go (s + 1) p ep ms' else ok (none, ms'))
          (restores s (ep + 1) ms)
          (Undone-bind ms (singlematch pat (subject_at src pat s) p ep) _
            (λ m. Undone-if ms m _ _ (min_loop-Undone left (s + 1) p ep ms) refl))

    optional-Undone :
        (m : Bool) (s p : ℕ) (ms : Captures) → Undone ms (optional src pat m go s p ms)
    unfolding optional
    optional-Undone true s p ms =
        Undone-else ms ms _ (go s p) (restores (s + 1) p ms) (restores s p ms)
    optional-Undone false s p ms = restores s p ms

    match_item-Undone : (s p : ℕ) (ms : Captures) → Undone ms (match_item src pat go s p ms)
    unfolding match_item min_expand
    match_item-Undone s p ms = Undone-bind ms (classend pat p) _ (λ ep.
        Undone-bind ms
          (if ltb s (length src) then singlematch pat (subject_at src pat s) p ep else ok false) _
          (λ m. Undone-bind ms (char_at pat ep) _ (λ q.
            Undone-if ms (q == b'?') _ _ (optional-Undone m s (ep + 1) ms) (
              Undone-if ms (q == b'*') _ _ (max_expand-Undone s p ep ms) (
                Undone-if ms (q == b'+') _ _
                  (Undone-if ms m _ _ (max_expand-Undone (s + 1) p ep ms) refl)
                  (Undone-if ms (q == b'-') _ _ (min_loop-Undone (length src - s) s p ep ms)
                    (Undone-if ms m _ _ (restores (s + 1) ep ms) refl)))))))

    go_on-Undone : (r : Option ℕ) (p : ℕ) (ms : Captures) → Undone ms (go_on src pat go r p ms)
    unfolding go_on
    go_on-Undone none p ms = refl
    go_on-Undone (some s) p ms = restores s p ms

    frontier-Undone : (s p : ℕ) (ms : Captures) → Undone ms (frontier src pat go s p ms)
    unfolding frontier
    frontier-Undone s p ms = Undone-bind ms (char_at pat p) _ (λ c.
        Undone-bind ms (ensure (c == b'[') missing_frontier_bracket) _ (λ u.
          Undone-bind ms (classend pat p) _ (λ ep.
            Undone-bind ms
              (matchbracketclass pat (if s == 0 then 0 else subject_at src pat (s - 1)) p (ep - 1))
              _
              (λ before.
                Undone-bind ms
                  (if before
                    then ok false
                    else matchbracketclass pat (subject_at src pat s) p (ep - 1))
                  _ (λ here. Undone-if ms here _ _ (restores s ep ms) refl)))))

    match_escape-Undone : (s p : ℕ) (ms : Captures) → Undone ms (match_escape src pat go s p ms)
    unfolding match_escape
    match_escape-Undone s p ms = Undone-bind ms (char_at pat (p + 1)) _ (λ d.
        Undone-if ms (d == b'b') _ _
          (Undone-bind ms (matchbalance src pat s (p + 2)) _ (λ r. go_on-Undone r (p + 4) ms))
          (Undone-if ms (d == b'f') _ _ (frontier-Undone s (p + 2) ms) (
            Undone-if ms (isdigit d) _ _
              (Undone-bind ms (match_capture src pat s d ms) _ (λ r. go_on-Undone r (p + 2) ms))
              (match_item-Undone s p ms))))

    match_step-Undone : (s p : ℕ) (ms : Captures) → Undone ms (match_step src pat go s p ms)
    unfolding match_step
    match_step-Undone s p ms = Undone-bind ms (char_at pat p) _ (λ c.
        Undone-if ms (c == b'(') _ _
          (Undone-bind ms (char_at pat (p + 1)) _ (λ d.
            Undone-if ms (d == b')') _ _ (start_capture-Undone s (p + 2) cap_position ms)
              (start_capture-Undone s (p + 1) cap_unfinished ms)))
          (Undone-if ms (c == b')') _ _ (end_capture-Undone s (p + 1) ms) (
            Undone-if ms (c == b'%') _ _ (match_escape-Undone s p ms) (
              Undone-if ms (c == 0) _ _ tt (
                Undone-if ms (c == b'$') _ _
                  (Undone-bind ms (char_at pat (p + 1)) _ (λ d.
                    Undone-if ms (d == 0) _ _ (at_end ms (s == length src) s)
                      (match_item-Undone s p ms)))
                  (match_item-Undone s p ms))))))
      where
        at_end :
            (ms : Captures) (b : Bool) (s : ℕ) → Undone ms (ok (if b then some s else none, ms))
        at_end ms true s = tt
        at_end ms false s = refl

do_match-Undone :
    (src pat : Bytes) (fuel s p : ℕ) (ms : Captures) → Undone ms (do_match src pat fuel s p ms)
unfolding do_match
do_match-Undone src pat zero s p ms = Undone-bind ms (char_at pat p) _ (λ c. tt)
do_match-Undone src pat (suc fuel) s p ms =
    match_step-Undone (do_match src pat fuel) (do_match-Undone src pat fuel) src pat s p ms

Undone-lem :
    (ms : Captures) (m : Matched) {after : Captures}
    → Undone ms m
    → m ≡ ok (none, after)
    → after ≡ ms
Undone-lem ms (ok (none, ms')) h e = cc
Undone-lem ms (ok (some s, ms')) h e = cc
Undone-lem ms (raised x) h e = cc
Undone-lem ms fault h e = cc
Undone-lem ms out_of_fuel h e = cc

-- Where `match` fails, it leaves the captures as they were: what was opened, closed or set on the way
-- is taken back.
pub do_match_fails :
    (src pat : Bytes) (fuel s p : ℕ) (ms : Captures) {after : Captures}
    → do_match src pat fuel s p ms ≡ ok (none, after)
    → after ≡ ms
do_match_fails src pat fuel s p ms h =
    Undone-lem ms (do_match src pat fuel s p ms) (do_match-Undone src pat fuel s p ms) h
