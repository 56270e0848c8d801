-- ===== src/Patterns/Progress.antt =====
-- lua/lstrlib.c: the rounds of the loops over classes of characters.
use primemover.Prelude.{
  ℕ, zero, suc, ◌+◌, ◌-◌, ◌≤◌, ◌<◌, Bool, true, false, List, [], ◌∷◌, length, get_elem?, ltb, leb,
  ◌==◌, if◌then◌else◌, arith, not, ◌&&◌,
}
use primemover.Proto.{Bytes}
use primemover.Patterns.{
  Outcome, ok, raised, fault, out_of_fuel, ◌>>=◌, ensure, present, Malformed, ends_with_percent,
  missing_bracket, char_at, classend, bracket_end, bracket_loop, match_class, matchbracketclass,
  singlematch,
}

-- The outcome is there, and what it gives has the property.
abbrev pub Good {ℓ} : {A : Type ℓ} → (A → Type 0) → Outcome A → Type 0
Good P (ok a) = P a
Good P (raised e) = Unit
Good P fault = Unit
Good P out_of_fuel = ⊥

pub Good-bind {ℓ κ} :
    {A : Type ℓ} {B : Type κ} {Q : A → Type 0} (P : B → Type 0) (m : Outcome A) (f : A → Outcome B)
    → Good Q m
    → ((a : A) → Q a → Good P (f a))
    → Good P (m >>= f)
Good-bind P (ok a) f h k = k a h
Good-bind P (raised e) f h k = tt
Good-bind P fault f h k = tt
Good-bind P out_of_fuel f h k = absurd h

pub Good-if {ℓ} :
    {A : Type ℓ} (P : A → Type 0) (b : Bool) (x y : Outcome A)
    → Good P x
    → Good P y
    → Good P (if b then x else y)
Good-if P true x y h k = h
Good-if P false x y h k = k

pub Good-weaken {ℓ} :
    {A : Type ℓ} {Q P : A → Type 0} (m : Outcome A) → ((a : A) → Q a → P a) → Good Q m → Good P m
Good-weaken (ok a) f h = f a h
Good-weaken (raised e) f h = tt
Good-weaken fault f h = tt
Good-weaken out_of_fuel f h = h

abbrev pub Any {ℓ} : {A : Type ℓ} → A → Type 0
Any a = Unit

pub Good-ensure : (b : Bool) (e : Malformed) → Good Any (ensure b e)
Good-ensure true e = tt
Good-ensure false e = tt

-- What is read stands inside the list.
pub Good-present {ℓ} :
    {A : Type ℓ} (xs : List A) (i : ℕ) → Good (λ a. i < length xs) (present (get_elem? xs i))
Good-present [] i = tt
Good-present (x ∷ xs) zero = omega arith
Good-present (x ∷ xs) (suc i) =
    Good-weaken (present (get_elem? xs i)) (λ a h. omega (arith, h)) (Good-present xs i)

if-lt : (b : Bool) {p x y : ℕ} → p < x → p < y → p < (if b then x else y)
if-lt true h k = h
if-lt false h k = k

if-le : (b : Bool) {n x y : ℕ} → x ≤ n → y ≤ n → (if b then x else y) ≤ n
if-le true h k = h
if-le false h k = k

module _ (pat : Bytes) where
  bracket_end-Good :
      (fuel p : ℕ) → 0 < fuel → length pat ≤ fuel + p → Good (λ ep. p < ep) (bracket_end pat fuel p)
  unfolding bracket_end
  bracket_end-Good zero p some_left enough = absurd (omega arith)
  bracket_end-Good (suc fuel) p some_left enough =
      Good-bind _ (char_at pat p) _ (Good-present pat p) (λ c hc.
        Good-bind _ (ensure (not (c == 0)) missing_bracket) _ (Good-ensure _ missing_bracket)
          (λ u hu. Good-bind _ (char_at pat (p + 1)) _ (Good-present pat (p + 1)) (λ d hd.
            round (if c == b'%' && not (d == 0) then p + 2 else p + 1)
              (if-lt (c == b'%' && not (d == 0)) (omega arith) (omega arith))
              (λ q some_left enough. bracket_end-Good fuel q some_left enough))))
    where
      round :
          (q : ℕ)
          → p < q
          → ((q : ℕ)
              → 0 < fuel
              → length pat ≤ fuel + q
              → Good (λ ep. q < ep) (bracket_end pat fuel q))
          → Good
              (λ ep. p < ep)
              (char_at pat q >>= λ e. if e == b']' then ok (q + 1) else bracket_end pat fuel q)
      round q lt again = Good-bind _ (char_at pat q) _ (Good-present pat q) (λ e he.
          Good-if _ (e == b']') _ _ (omega (arith, lt)) (
            Good-weaken (bracket_end pat fuel q) (λ ep h. omega (arith, lt, h))
              (again q (omega (arith, lt, he, enough)) (omega (arith, lt, he, enough)))))

  pub classend-Good : (p : ℕ) → Good (λ ep. p < ep) (classend pat p)
  unfolding classend
  classend-Good p = Good-bind _ (char_at pat p) _ (Good-present pat p) (λ c hc.
      Good-if _ (c == b'%') _ _
        (Good-bind _ (char_at pat (p + 1)) _ (Good-present pat (p + 1)) (λ d hd.
          Good-bind _ (ensure (not (d == 0)) ends_with_percent) _ (Good-ensure _ ends_with_percent)
            (λ u hu. omega arith)))
        (Good-if _ (c == b'[') _ _
          (Good-bind _ (char_at pat (p + 1)) _ (Good-present pat (p + 1)) (λ d hd.
            Good-weaken (bracket_end pat (length pat) (if d == b'^' then p + 2 else p + 1))
              (λ ep h. omega (
                arith,
                h,
                if-lt (d == b'^') {p = p} {x = p + 2} {y = p + 1} (omega arith) (omega arith),
              ))
              (bracket_end-Good (length pat) _ (omega (arith, hc)) (omega arith))))
          (omega arith)))

  bracket_loop-Good :
      (fuel : ℕ) (sig : Bool) (c p ec : ℕ)
      → length pat < fuel + p
      → p ≤ length pat
      → Good Any (bracket_loop pat fuel sig c p ec)
  unfolding bracket_loop
  bracket_loop-Good zero sig c p ec enough inside = absurd (omega arith)
  bracket_loop-Good (suc fuel) sig c p ec enough inside = Good-if _ (not (ltb (p + 1) ec)) _ _ tt (
      Good-bind _ (char_at pat (p + 1)) _ (Good-present pat (p + 1)) (λ x hx.
        Good-bind _ (char_at pat (p + 2)) _ (Good-present pat (p + 2)) (λ y hy.
          Good-if _ (x == b'%') _ _
            (Good-if _ (match_class c y) _ _ tt
              (bracket_loop-Good fuel sig c (p + 2) ec (omega (arith, hy)) (omega (arith, hy))))
            (Good-if _ (y == b'-' && ltb (p + 3) ec) _ _
              (Good-bind _ (char_at pat (p + 3)) _ (Good-present pat (p + 3)) (λ z hz.
                Good-if _ (leb x c && leb c z) _ _ tt (
                  bracket_loop-Good fuel sig c (p + 3) ec (omega (arith, hz)) (omega (arith, hz)))))
              (Good-if _ (x == c) _ _ tt (
                bracket_loop-Good fuel sig c (p + 1) ec (omega (arith, hx))
                  (omega (arith, hx))))))))

  pub matchbracketclass-Good : (c p ec : ℕ) → Good Any (matchbracketclass pat c p ec)
  unfolding matchbracketclass
  matchbracketclass-Good c p ec =
      Good-bind _ (char_at pat (p + 1)) _ (Good-present pat (p + 1)) (λ d hd.
        bracket_loop-Good (suc (length pat)) _ c _ ec (omega arith)
          (if-le (d == b'^') (omega (arith, hd)) (omega (arith, hd))))

  pub singlematch-Good : (c p ep : ℕ) → Good Any (singlematch pat c p ep)
  unfolding singlematch
  singlematch-Good c p ep = Good-bind _ (char_at pat p) _ (Good-present pat p) (λ x hx.
      Good-if _ (x == b'.') _ _ tt (
        Good-if _ (x == b'%') _ _
          (Good-bind _ (char_at pat (p + 1)) _ (Good-present pat (p + 1)) (λ y hy. tt))
          (Good-if _ (x == b'[') _ _ (matchbracketclass-Good c p (ep - 1)) tt)))
