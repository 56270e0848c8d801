-- ===== src/Strings/Pieces.antt =====
-- lua/lstrlib.c: bytes taken out of strings, put together, repeated and put in one case.
use primemover.Prelude.{
  ℕ, zero, suc, ◌+◌, ◌-◌, ◌*◌, ◌≤◌, ◌<◌, min, max, true, false, Option, none, some, List, [], ◌∷◌,
  ◌++◌, map, take, drop, get_elem?, length, length-append, length-drop, take-append-drop, All, ◌≡◌,
  refl, ap, arith, ◌∙◌, inl, inr, ◌⊎◌,
}
use primemover.Prelude.Int.{ℤ, pos, negsuc, pos_part, ◌+ℤ◌, ◌-ℤ◌}
use primemover.Proto.{Bytes}
use primemover.Strings.{
  posrelat, str_sub, str_byte, str_rep, rep_loop, ok, bad_argument, char_loop, str_char, str_lower,
  str_upper, tolower, toupper, is_uchar,
}
use primemover.Strings.Positions.{first_position, last_position, str_sub-positions}

take_all {ℓ} : {A : Type ℓ} (n : ℕ) (xs : List A) → length xs ≤ n → take n xs ≡ xs
take_all zero [] h = refl
take_all zero (x ∷ xs) h = absurd (omega arith)
take_all (suc n) [] h = refl
take_all (suc n) (x ∷ xs) h = rw (take_all n xs (omega arith)) refl

-- A string is its bytes up to a position followed by its bytes behind that position.
pub str_sub-append :
    (s : Bytes) (k : ℕ)
    → k ≤ length s
    → str_sub s (pos 1) (pos k) ++ str_sub s (pos (k + 1)) (negsuc 0) ≡ s
unfolding first_position last_position
str_sub-append s k h =
    let front : min (length s) k + 1 - max 1 1 ≡ k = omega arith in
    let start : max 1 (k + 1) - 1 ≡ k = omega arith in
    let rest : length s - 0 + 1 - max 1 (k + 1) ≡ length s - k = omega arith in
    rw (str_sub-positions s (pos 1) (pos k), str_sub-positions s (pos (k + 1)) (negsuc 0))
      (rw (front, start, rest, take_all (length s - k) (drop k s) (omega (arith, length-drop k s)))
        (take-append-drop k s))

abbrev pub as_list {ℓ} : {A : Type ℓ} → Option A → List A
as_list none = []
as_list (some a) = a ∷ []

take-drop-one : (k : ℕ) (s : Bytes) → take 1 (drop k s) ≡ as_list (get_elem? s k)
take-drop-one zero [] = refl
take-drop-one zero (b ∷ s) = refl
take-drop-one (suc k) [] = refl
take-drop-one (suc k) (b ∷ s) = take-drop-one k s

one_or_none :
    (n k : ℕ) (s : Bytes) (o : Option ℕ)
    → ((n ≡ 1) × (o ≡ get_elem? s k)) ⊎ ((n ≡ 0) × (o ≡ none))
    → take n (drop k s) ≡ as_list o
one_or_none n k s o (inl (e, h)) = rw (e, h) (take-drop-one k s)
one_or_none n k s o (inr (e, h)) = rw (e, h) refl

-- `string.byte` gives the byte that `string.sub` cuts out at the same position, and none where that
-- is empty.
pub str_sub-str_byte : (s : Bytes) (i : ℤ) → str_sub s i i ≡ as_list (str_byte s i)
unfolding first_position last_position str_byte posrelat ◌+ℤ◌ ◌-ℤ◌
str_sub-str_byte s (pos p) =
    rw (str_sub-positions s (pos p) (pos p)) (one_or_none _ _ s _ (ground arith))
str_sub-str_byte s (negsuc n) =
    rw (str_sub-positions s (negsuc n) (negsuc n)) (one_or_none _ _ s _ (ground arith))

-- Putting a string in one case first does not change what the other case makes of it.
pub str_lower-str_upper :
    (s : Bytes) → (str_lower (str_upper s) ≡ str_lower s) × (str_upper (str_lower s) ≡ str_upper s)
unfolding str_lower str_upper
str_lower-str_upper [] = (refl, refl)
str_lower-str_upper (c ∷ s) =
    let (lower, upper) = str_lower-str_upper s in
    let l : tolower (toupper c) ≡ tolower c = ground arith in
    let u : toupper (tolower c) ≡ toupper c = ground arith in
    (rw (l, lower) refl, rw (u, upper) refl)

module _ {ℓ} {A : Type ℓ} where
  get_elem?-append_left :
      (xs ys : List A) (k : ℕ) → k < length xs → get_elem? (xs ++ ys) k ≡ get_elem? xs k
  get_elem?-append_left [] ys k h = absurd (omega arith)
  get_elem?-append_left (x ∷ xs) ys zero h = refl
  get_elem?-append_left (x ∷ xs) ys (suc k) h = get_elem?-append_left xs ys k (omega arith)

  get_elem?-append_right :
      (xs ys : List A) (k : ℕ) → get_elem? (xs ++ ys) (length xs + k) ≡ get_elem? ys k
  get_elem?-append_right [] ys k = ap (get_elem? ys) (omega arith)
  get_elem?-append_right (x ∷ xs) ys k =
      let shift : length (x ∷ xs) + k ≡ suc (length xs + k) = omega arith in
      ap (get_elem? (x ∷ (xs ++ ys))) shift ∙ get_elem?-append_right xs ys k

rep_loop-get :
    (n a b : ℕ) (s : Bytes)
    → a < n
    → b < length s
    → get_elem? (rep_loop n s) (a * length s + b) ≡ get_elem? s b
unfolding rep_loop
rep_loop-get zero a b s ha hb = absurd (omega arith)
rep_loop-get (suc n) zero b s ha hb =
    let shift : 0 * length s + b ≡ b = omega arith in
    ap (get_elem? (s ++ rep_loop n s)) shift ∙ get_elem?-append_left s (rep_loop n s) b hb
rep_loop-get (suc n) (suc a) b s ha hb =
    let shift : suc a * length s + b ≡ length s + (a * length s + b) = omega arith in
    ap (get_elem? (s ++ rep_loop n s)) shift
    ∙ get_elem?-append_right s (rep_loop n s) (a * length s + b)
    ∙ rep_loop-get n a b s (omega arith) hb

length-rep_loop : (n : ℕ) (s : Bytes) → length (rep_loop n s) ≡ n * length s
unfolding rep_loop
length-rep_loop zero s = omega arith
length-rep_loop (suc n) s = omega (arith, length-append s (rep_loop n s), length-rep_loop n s)

-- `string.rep` gives n times as many bytes, none where n is negative, and each run of as many bytes
-- as the string has is the string.
pub str_rep-copies :
    (s : Bytes) (n : ℤ) (a b : ℕ)
    → a < pos_part n
    → b < length s
    → (length (str_rep s n) ≡ pos_part n * length s)
      × (get_elem? (str_rep s n) (a * length s + b) ≡ get_elem? s b)
unfolding str_rep
str_rep-copies s n a b ha hb =
    (length-rep_loop (pos_part n) s, rep_loop-get (pos_part n) a b s ha hb)

abbrev pub IsByte : ℤ → Type 0
IsByte c = is_uchar c ≡ true

char_loop-bytes : (i : ℕ) (cs : List ℤ) → All IsByte cs → char_loop i cs ≡ ok (map pos_part cs)
unfolding char_loop
char_loop-bytes i [] h = refl
char_loop-bytes i (c ∷ cs) (h, hs) = rw (h, char_loop-bytes (i + 1) cs hs) refl

char_loop-bad :
    (i : ℕ) (cs : List ℤ) (c : ℤ) (ds : List ℤ)
    → All IsByte cs
    → is_uchar c ≡ false
    → char_loop i (cs ++ c ∷ ds) ≡ bad_argument (i + length cs)
unfolding char_loop
char_loop-bad i [] c ds hs h = rw h (ap bad_argument (omega arith))
char_loop-bad i (b ∷ cs) c ds (hb, hs) h =
    rw (hb, char_loop-bad (i + 1) cs c ds hs h) (ap bad_argument (omega arith))

-- `string.char` makes a string of numbers that are bytes.
pub str_char-bytes : (cs : List ℤ) → All IsByte cs → str_char cs ≡ ok (map pos_part cs)
unfolding str_char
str_char-bytes cs h = char_loop-bytes 1 cs h

-- `string.char` names the first argument that is no byte.
pub str_char-bad :
    (cs : List ℤ) (c : ℤ) (ds : List ℤ)
    → All IsByte cs
    → is_uchar c ≡ false
    → str_char (cs ++ c ∷ ds) ≡ bad_argument (length cs + 1)
unfolding str_char
str_char-bad cs c ds hs h = char_loop-bad 1 cs c ds hs h ∙ ap bad_argument (omega arith)
