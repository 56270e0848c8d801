-- ===== src/Chunk/Words.antt =====
-- Numbers, arrays and strings written on a machine of byte order `d` and read on one of order `l`.
use mathlib.Core.Bool.{xor}
use mathlib.Core.Path.{subst}
use mathlib.Core.List.{reverse}
use primemover.Prelude.{
  ℕ, suc, ◌+◌, ◌*◌, ◌^◌, ◌<◌, ◌≡◌, refl, sym, ap, arith, Bool, true, false, List, [], ◌∷◌, ◌++◌,
  length, take, drop, append-nil, Option, some, lt→ltb, All, length-append, if◌then◌else◌,
  Bool-cases, inl, inr,
}
use primemover.Proto.{Bytes}
use primemover.Chunk.Memory.{to_memory, from_memory, length-to_memory, from_memory-to_memory}
use primemover.Chunk.Load.{
  pure, ◌>>=◌, ezgetc, ezread, repeat, load_block, load_swapped, load_int, load_size, load_number,
  load_vector, words, load_string, load_text,
}
use primemover.Chunk.Dump.{dump_each, dump_vector, dump_int, dump_size, dump_number, dump_string}
use primemover.Chunk.Yields.{
  Yields, Yields-pure, Yields-bind, Yields-map, ezgetc-Yields, ezread-Yields, repeat-Yields,
  take_append, drop_append,
}

dump_each-bytes : (bs : Bytes) → dump_each (λ c. c ∷ []) bs ≡ bs
unfolding dump_each
dump_each-bytes [] = refl
dump_each-bytes (b ∷ bs) = ap (λ t. b ∷ t) (dump_each-bytes bs)

All-bytes : (bs : Bytes) → All (λ c. Yields ezgetc (c ∷ []) c) bs
All-bytes [] = tt
All-bytes (b ∷ bs) = (ezgetc-Yields b, All-bytes bs)

load_swapped-Yields : (bs : Bytes) (n : ℕ) → n ≡ length bs → Yields (load_swapped n) bs (reverse bs)
unfolding load_swapped
load_swapped-Yields bs n len =
    Yields-map (repeat n ezgetc) _ bs bs (reverse bs)
      (subst (λ t. Yields (repeat n ezgetc) t bs) (dump_each-bytes bs)
        (repeat-Yields ezgetc (λ c. c ∷ []) bs n len (All-bytes bs)))
      (λ z. refl)

load_block-Yields :
    (swap : Bool) (bs : Bytes) (n : ℕ)
    → n ≡ length bs
    → n < 2 ^ 31
    → Yields (load_block swap n) bs (if swap then reverse bs else bs)
unfolding load_block
load_block-Yields true bs n len small = load_swapped-Yields bs n len
load_block-Yields false bs n len small = ezread-Yields bs n len small

-- a string whose size with the trailing '\0' is an int
abbrev pub ShortString : Option Bytes → Type 0
ShortString Option.none = Unit {0}
ShortString (some s) = length s + 1 < 2 ^ 31

module _ (l d : Bool) where
  abbrev pub swap : Bool
  swap = xor l d

  load_word-Yields :
      (n x : ℕ)
      → n < 2 ^ 31
      → x < 256 ^ n
      → Yields (load_block swap n >>= λ bs. pure (from_memory l bs)) (to_memory d n x) x
  load_word-Yields n x small fits =
      Yields-map (load_block swap n) _ (to_memory d n x) _ x
        (load_block-Yields swap (to_memory d n x) n (sym (length-to_memory d n x)) small)
        (λ z. rw (from_memory-to_memory l d n x fits) refl)

  pub load_size-Yields : (x : ℕ) → x < 2 ^ 64 → Yields (load_size l swap) (dump_size d x) x
  unfolding load_size dump_size
  load_size-Yields x h = load_word-Yields 8 x (omega arith) h

  pub load_number-Yields : (x : ℕ) → x < 2 ^ 64 → Yields (load_number l swap) (dump_number d x) x
  unfolding load_number dump_number
  load_number-Yields x h = load_word-Yields 8 x (omega arith) h

  pub load_int-Yields : (x : ℕ) → x < 2 ^ 31 → Yields (load_int l swap) (dump_int d x) x
  unfolding load_int dump_int ◌>>=◌
  load_int-Yields x h =
      Yields-map (load_block swap 4) _ (to_memory d 4 x) _ x
        (load_block-Yields swap (to_memory d 4 x) 4 (sym (length-to_memory d 4 x)) (omega arith))
        (λ z. rw (from_memory-to_memory l d 4 x (omega arith), lt→ltb x (2 ^ 31) h) refl)

  words-dump_vector :
      (size : ℕ) (xs : List ℕ)
      → swap ≡ false
      → All (λ x. x < 256 ^ size) xs
      → words l size (length xs) (dump_vector d size xs) ≡ xs
  unfolding words dump_vector
  words-dump_vector size [] e fit = refl
  words-dump_vector size (x ∷ xs) e fit =
      let bs = to_memory d size x in
      let more = dump_vector d size xs in
      let word : from_memory l bs ≡ x = rw e at (from_memory-to_memory l d size x fit.0) in
      let first : take size (bs ++ more) ≡ bs =
        rw (length-to_memory d size x) at (take_append bs more) in
      let others : drop size (bs ++ more) ≡ more =
        rw (length-to_memory d size x) at (drop_append bs more) in
      rw (first, others, word) (ap (λ t. x ∷ t) (words-dump_vector size xs e fit.1))

  length-dump_vector : (size : ℕ) (xs : List ℕ) → length (dump_vector d size xs) ≡ length xs * size
  unfolding dump_vector
  length-dump_vector size [] = omega arith
  length-dump_vector size (x ∷ xs) =
      rw (length-append (to_memory d size x) (dump_vector d size xs), length-to_memory d size x)
        (omega (arith, length-dump_vector size xs))

  swapped_word :
      (size : ℕ) (xs : List ℕ)
      → swap ≡ true
      → All (λ x. x < 256 ^ size) xs
      → All
          (λ x. Yields (load_swapped size >>= λ bs. pure (from_memory l bs)) (to_memory d size x) x)
          xs
  swapped_word size [] e fit = tt
  swapped_word size (x ∷ xs) e fit =
      let bs = to_memory d size x in
      let word : from_memory l (reverse bs) ≡ x =
        rw e at (from_memory-to_memory l d size x fit.0) in
      (
        Yields-map (load_swapped size) _ bs (reverse bs) x
            (load_swapped-Yields bs size (sym (length-to_memory d size x))) (λ z. rw word refl),
        swapped_word size xs e fit.1,
      )

  vector_swapped :
      (size m : ℕ) (xs : List ℕ)
      → swap ≡ true
      → m ≡ length xs
      → All (λ x. x < 256 ^ size) xs
      → Yields (load_vector l true m size) (dump_vector d size xs) xs
  unfolding load_vector dump_vector
  vector_swapped size m xs e len fit =
      repeat-Yields _ (to_memory d size) xs m len (swapped_word size xs e fit)

  vector_straight :
      (size m : ℕ) (xs : List ℕ)
      → swap ≡ false
      → m ≡ length xs
      → m * size < 2 ^ 31
      → All (λ x. x < 256 ^ size) xs
      → Yields (load_vector l false m size) (dump_vector d size xs) xs
  unfolding load_vector
  vector_straight size m xs e len small fit =
      let bs = dump_vector d size xs in
      let whole : m * size ≡ length bs = rw (length-dump_vector size xs, len) refl in
      Yields-map (ezread (m * size)) _ bs bs xs (ezread-Yields bs (m * size) whole small)
        (λ z. rw (len, words-dump_vector size xs e fit) refl)

  pub load_vector-Yields :
      (size m : ℕ) (xs : List ℕ)
      → m ≡ length xs
      → m * size < 2 ^ 31
      → All (λ x. x < 256 ^ size) xs
      → Yields (load_vector l swap m size) (dump_vector d size xs) xs
  load_vector-Yields size m xs len small fit = elim (Bool-cases swap) [
    | inl e ↦
        subst (λ b. Yields (load_vector l b m size) (dump_vector d size xs) xs) (sym e)
          (vector_swapped size m xs e len fit)
    | inr e ↦
        subst (λ b. Yields (load_vector l b m size) (dump_vector d size xs) xs) (sym e)
          (vector_straight size m xs e len small fit)
  ]

  pub load_string-Yields :
      (s : Option Bytes) → ShortString s → Yields (load_string l swap) (dump_string d s) s
  unfolding load_string dump_string load_text
  load_string-Yields Option.none h =
      subst (λ t. Yields (load_string l swap) t Option.none) (append-nil _)
        (Yields-bind (load_size l swap) (load_text l swap) (dump_size d 0) [] 0 Option.none
          (load_size-Yields 0 (omega arith)) (Yields-pure Option.none))
  load_string-Yields (some s) h =
      let bytes = s ++ 0 ∷ [] in
      let len : length bytes ≡ suc (length s) = rw (length-append s (0 ∷ [])) (omega arith) in
      let e : length s + 1 ≡ suc (length s) = omega arith in
      Yields-bind (load_size l swap) (load_text l swap) (dump_size d (length s + 1)) bytes
        (length s + 1) (some s) (load_size-Yields (length s + 1) (omega arith))
        (rw e (
          Yields-map (ezread (suc (length s))) _ bytes bytes (some s)
            (ezread-Yields bytes (suc (length s)) (sym len) (omega arith))
            (λ z. rw (take_append s (0 ∷ [])) refl)))
