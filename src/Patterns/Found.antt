-- ===== src/Patterns/Found.antt =====
-- lua/lstrlib.c: where the results of `string.find` and of the iterator of `string.gfind` lie.
use primemover.Prelude.{
  ℕ, zero, suc, ◌+◌, ◌-◌, ◌≤◌, ◌<◌, ◌^◌, Bool, true, false, not, ◌||◌, Option, none, some, List, [],
  ◌∷◌, ◌++◌, drop, length, length-take, length-drop, min, Option-cases, inl, inr, ap, ltb, ◌==◌,
  if◌then◌else◌, ◌≡◌, arith,
}
use primemover.Prelude.Int.{ℤ, pos, negsuc, pos_part, ◌+ℤ◌, ◌-ℤ◌, as_int, as_int_small}
use primemover.Proto.{Bytes}
use primemover.Strings.{posrelat, lmemfind}
use primemover.Patterns.{Outcome, ok, raised, ◌>>=◌, unfinished_capture}
use primemover.Patterns.Matching.{
  Capture, Captures, Len, cap_unfinished, cap_position, cap_len, match_from,
}
use primemover.Patterns.Find.{
  Value, number, push_length, push_onecapture, push_each, push_captures, has_special, find_init,
  find_loop, find_pattern, find_plain, str_find, gfind_loop, gfind_aux,
}
use primemover.Patterns.Progress.{Good, Good-bind, Good-if, Good-weaken, Any}
use primemover.Strings.Positions.{first_position}
use primemover.Strings.Search.{OccursAt, lmemfind-OccursAt}
use primemover.Patterns.Reach.{match_from-Good, Within}

push_length-Good : (src : Bytes) (init : ℕ) (l : ℤ) → Good Any (push_length src init l)
push_length-Good src init (pos l) = tt
push_length-Good src init (negsuc zero) = tt
push_length-Good src init (negsuc (suc zero)) = tt
push_length-Good src init (negsuc (suc (suc k))) = tt

push_onecapture-Good : (src : Bytes) (c : Capture) → Good Any (push_onecapture src c)
unfolding push_onecapture
push_onecapture-Good src c = go c.len
  where
    go :
        (l : Len)
        → Good Any (elim l as (λ l. Outcome Value) [
          | cap_unfinished ↦ raised unfinished_capture
          | cap_position ↦ ok (number (c.init + 1))
          | cap_len n ↦ push_length src c.init (as_int n)
        ])
    go cap_unfinished = tt
    go cap_position = tt
    go (cap_len n) = push_length-Good src c.init (as_int n)

pub push_each-Good : (src : Bytes) (ms : Captures) → Good Any (push_each src ms)
unfolding push_each
push_each-Good src [] = tt
push_each-Good src (c ∷ ms) =
    Good-bind _ (push_onecapture src c) _ (push_onecapture-Good src c)
      (λ v h. Good-bind _ (push_each src ms) _ (push_each-Good src ms) (λ vs h. tt))

push_captures-Good : (src : Bytes) (ms : Captures) (s e : ℕ) → Good Any (push_captures src ms s e)
unfolding push_captures
push_captures-Good src [] s e = tt
push_captures-Good src (c ∷ ms) s e = push_each-Good src (c ∷ ms)

-- The next start is behind this one, and at most one behind the end.
abbrev Advances : ℕ → ℕ → Option (ℤ × List Value) → Type 0
Advances n s none = Unit
Advances n s (some r) = (k : ℕ) × (r.0 ≡ pos k) × (s < k) × (k ≤ n + 1)

Advances-weaken : (n s : ℕ) (o : Option (ℤ × List Value)) → Advances n (s + 1) o → Advances n s o
Advances-weaken n s none h = tt
Advances-weaken n s (some r) (k, e, low, high) = (k, e, omega (arith, low), high)

next-Advances :
    (n s e : ℕ) (vs : List Value)
    → n + 1 < 2 ^ 31
    → s ≤ e
    → e ≤ n
    → Advances n s (some (as_int (if e == s then e + 1 else e), vs))
next-Advances n s e vs small up inside = (
  if e == s then e + 1 else e,
  as_int_small (if e == s then e + 1 else e) (ground arith),
  ground arith,
  ground arith,
)

gfind_loop-Good :
    (src pat : Bytes) (left s : ℕ)
    → length src + 1 < 2 ^ 31
    → s + left ≤ length src + 1
    → Good (Advances (length src) s) (gfind_loop src pat left s)
unfolding gfind_loop
gfind_loop-Good src pat zero s small h = tt
gfind_loop-Good src pat (suc left) s small h =
    Good-bind _ (match_from src pat s) _ (match_from-Good src pat s (omega arith)) (λ r w.
      go r.0 r.1 w (
        Good-weaken (gfind_loop src pat left (s + 1)) (λ o k. Advances-weaken (length src) s o k)
          (gfind_loop-Good src pat left (s + 1) small (omega arith))))
  where
    go :
        (o : Option ℕ) (ms : Captures)
        → Within (length src) s o
        → Good (Advances (length src) s) (gfind_loop src pat left (s + 1))
        → Good (Advances (length src) s) (elim o as (λ o. Outcome (Option (ℤ × List Value))) [
          | some e ↦ push_captures src ms s e >>= λ vs.
              ok (some (as_int (if e == s then e + 1 else e), vs))
          | none ↦ gfind_loop src pat left (s + 1)
        ])
    go none ms w k = k
    go (some e) ms w k =
        Good-bind _ (push_captures src ms s e) _ (push_captures-Good src ms s e)
          (λ vs u. next-Advances (length src) s e vs small w.0 w.1)

-- A result of `string.find` that starts from 0 at `s` or later and stays inside `n` bytes.
abbrev FoundIn : ℕ → ℕ → Option (ℕ × ℕ × List Value) → Type 0
FoundIn n s none = Unit
FoundIn n s (some r) = (s < r.0) × (r.0 ≤ r.1 + 1) × (r.1 ≤ n)

FoundIn-weaken : (n s : ℕ) (o : Option (ℕ × ℕ × List Value)) → FoundIn n (s + 1) o → FoundIn n s o
FoundIn-weaken n s none h = tt
FoundIn-weaken n s (some r) h = (omega (arith, h.0), h.1, h.2)

module _ (src pat : Bytes) (anchor : Bool) where
  matched-Good :
      (s : ℕ) (o : Option ℕ) (ms : Captures) (other : Outcome (Option (ℕ × ℕ × List Value)))
      → Within (length src) s o
      → Good (FoundIn (length src) s) other
      → Good (FoundIn (length src) s) (elim o as (λ o. Outcome (Option (ℕ × ℕ × List Value))) [
        | some e ↦ push_each src ms >>= λ vs. ok (some (s + 1, e, vs))
        | none ↦ other
      ])
  matched-Good s none ms other w h = h
  matched-Good s (some e) ms other w h =
      Good-bind _ (push_each src ms) _ (push_each-Good src ms)
        (λ vs u. (omega arith, omega (arith, w), w.1))

  find_loop-Good :
      (left s : ℕ)
      → s + left ≤ length src
      → Good (FoundIn (length src) s) (find_loop src pat anchor left s)
  unfolding find_loop
  find_loop-Good zero s h =
      Good-bind _ (match_from src pat s) _ (match_from-Good src pat s (omega arith))
        (λ r w. matched-Good s r.0 r.1 (ok none) w tt)
  find_loop-Good (suc left) s h =
      Good-bind _ (match_from src pat s) _ (match_from-Good src pat s (omega arith)) (λ r w.
        matched-Good s r.0 r.1 _ w (
          Good-if _ anchor _ _ tt (
            Good-weaken (find_loop src pat anchor left (s + 1))
              (λ o k. FoundIn-weaken (length src) s o k)
              (find_loop-Good left (s + 1) (omega arith)))))

find_init-le : (i : ℤ) (l1 : ℕ) → find_init i l1 ≤ l1
unfolding find_init
find_init-le i l1 = clamped (pos_part (posrelat i l1 -ℤ pos 1))
  where
    clamped : (z : ℕ) → (if ltb l1 z then l1 else z) ≤ l1
    clamped z = ground arith

find_pattern-Good :
    (src pat : Bytes) (s : ℕ)
    → s ≤ length src
    → Good (FoundIn (length src) s) (find_pattern src pat s)
unfolding find_pattern
find_pattern-Good src [] s h = tt
find_pattern-Good src (c ∷ pat) s h =
    Good-if _ (c == b'^') _ _ (find_loop-Good src pat true (length src - s) s (omega arith))
      (find_loop-Good src (c ∷ pat) false (length src - s) s (omega arith))

-- What occurs in a string is not longer than what there is.
occurs-le : (t s : Bytes) (k : ℕ) → OccursAt s k t → length t ≤ length s - k
occurs-le t s k h =
    omega
      (arith, ap (λ (x : Bytes). length x) h, length-take (length t) (drop k s), length-drop k s)

lmemfind-le : (s p : Bytes) {k : ℕ} → lmemfind s p ≡ some k → k + length p ≤ length s
unfolding lmemfind
lmemfind-le s [] h = ground arith
lmemfind-le s (c ∷ p) {k = k} h =
    let fits = occurs-le (c ∷ p) s k (lmemfind-OccursAt s (c ∷ p) h) in omega (arith, fits)

find_plain-Good :
    (src p : Bytes) (s : ℕ) → s ≤ length src → Good (FoundIn (length src) s) (find_plain src p s)
unfolding find_plain
find_plain-Good src p s h = elim (Option-cases (lmemfind (drop s src) p)) [
  | inl e ↦ rw (e, Good) tt
  | inr (k, e) ↦
      let inside = lmemfind-le (drop s src) p e in
      rw (e, Good) (omega arith, omega arith, omega (arith, inside, length-drop s src))
]

str_find-Good :
    (s p : Bytes) (i : ℤ) (plain : Bool)
    → Good (FoundIn (length s) (find_init i (length s))) (str_find s p i plain)
unfolding str_find
str_find-Good s p i plain =
    Good-if _ (plain || not (has_special p)) _ _ (find_plain-Good s p _ (find_init-le i (length s)))
      (find_pattern-Good s (p ++ 0 ∷ []) _ (find_init-le i (length s)))

Good-some {ℓ} : {A : Type ℓ} (P : A → Type 0) {m : Outcome A} {a : A} → m ≡ ok a → Good P m → P a
Good-some P h g = rw h at g

-- The start that is asked for, from 0: that of the first position which is meant, as in `string.sub`,
-- and the end of the subject where that position is behind it.
abbrev pub asked : ℤ → ℕ → ℕ
asked i l = min l (first_position i l - 1)

pub find_init-asked : (i : ℤ) (l : ℕ) → find_init i l ≡ asked i l
unfolding find_init posrelat first_position ◌+ℤ◌ ◌-ℤ◌
find_init-asked (pos p) l = ground arith
find_init-asked (negsuc n) l = ground arith

-- What `string.find` finds, plainly or by a pattern, starts at the position that was asked for or
-- behind it, or at the end where that position is behind the end; it ends at most one before its
-- start, and ends in the subject. The position asked for is what `string.sub` takes for its first.
pub str_find_range :
    (s p : Bytes) (i : ℤ) (plain : Bool) {first last : ℕ} {captures : List Value}
    → str_find s p i plain ≡ ok (some (first, last, captures))
    → (asked i (length s) < first) × (first ≤ last + 1) × (last ≤ length s)
str_find_range s p i plain {first = first} h =
    let (start, order, inside) =
      Good-some (FoundIn (length s) (find_init i (length s))) h (str_find-Good s p i plain) in
    (rw (find_init-asked i (length s)) at start, order, inside)

-- Where a call of the iterator of `string.gfind` on a subject of less than 2 ^ 31 - 1 bytes gives
-- something, the next call starts further in the subject, at most one behind its end.
pub gfind_aux_advances :
    (src p : Bytes) (start : ℕ) {next : ℤ} {captures : List Value}
    → length src + 1 < 2 ^ 31
    → start ≤ length src + 1
    → gfind_aux src p start ≡ ok (some (next, captures))
    → (k : ℕ) × (next ≡ pos k) × (start < k) × (k ≤ length src + 1)
unfolding gfind_aux
gfind_aux_advances src p start small inside h =
    Good-some (Advances (length src) start) h
      (gfind_loop-Good src (p ++ 0 ∷ []) (length src + 1 - start) start small (omega arith))
