-- ===== src/Modes/Letters.antt =====
-- lua/modemuncher.h: the loops over letters, `rwxrwxrwx` on short strings, and the turns of
-- `mode_munch`.
use primemover.Prelude.{
  ℕ, zero, suc, ◌+◌, ◌≤◌, ◌<◌, ◌||◌, Option, none, some, List, [], ◌∷◌, ◌++◌, length, length-append,
  bit_or, ◌==◌, ◌≡◌, ◌≢◌, ◌⊎◌, inl, inr, refl, arith, Option-cases, Bool-cases,
}
use primemover.Proto.{Bytes}
use primemover.Modes.{
  Munched, failed, fault, out_of_fuel, Turn, next, stop, rwx_char, rwx_loop, rwxrwxrwx, modesel,
  letters, who_letter, change_letter, operate, operator, specs, finish, turn, munch_loop,
  mode_munch, ModeLookup,
}

module _ (letter : ℕ → Option ℕ) where
  -- the bits of a run of letters
  abbrev pub bits_of : Bytes → ℕ → ℕ
  bits_of [] bits = bits
  bits_of (c ∷ cs) bits = elim (letter c) [
    | none ↦ bits_of cs bits
    | some b ↦ bits_of cs (bit_or bits b)
  ]

  abbrev pub Letters : Bytes → Type 0
  Letters [] = Unit
  Letters (c ∷ cs) = ((b : ℕ) × (letter c ≡ some b)) × Letters cs

  -- The loop takes the letters in front of a character that is none.
  pub letters-append :
      (cs : Bytes) (bits c : ℕ) (p : Bytes)
      → Letters cs
      → letter c ≡ none
      → letters letter bits (cs ++ c ∷ p) ≡ some (bits_of cs bits, c ∷ p)
  unfolding letters
  letters-append [] bits c p h e = rw e refl
  letters-append (x ∷ cs) bits c p ((b, hb), h) e =
      ground (arith, letters-append cs (bit_or bits b) c p h e)

  -- What the loop leaves is no longer than what it was given.
  pub length-letters :
      (bits : ℕ) (p : Bytes) {r : ℕ × Bytes}
      → letters letter bits p ≡ some r
      → length r.1 ≤ length p
  unfolding letters
  length-letters bits [] h = cc
  length-letters bits (c ∷ p) {r = r} h = elim (Option-cases (letter c)) [
    | inl e ↦ ground arith
    | inr (b, e) ↦ ground (arith, length-letters (bit_or bits b) p {r = r})
  ]

-- `rwxrwxrwx` at the end of the string: nothing but a fault or the return of -4 can come of it.
pub rwx_loop_short :
    (mode count : ℕ) (sels : List ModeLookup) (p : Bytes) (tmp : ℕ)
    → length p < length sels
    → (rwx_loop mode count sels p tmp ≡ fault) ⊎ (rwx_loop mode count sels p tmp ≡ failed 4 mode)
unfolding rwx_loop
rwx_loop_short mode count [] p tmp h = absurd (omega arith)
rwx_loop_short mode count (sel ∷ sels) [] tmp h = inl refl
rwx_loop_short mode count (sel ∷ sels) (c ∷ p) tmp h =
    elim (Option-cases (rwx_char count sel c tmp)) [
      | inl e ↦ inr (ground arith)
      | inr (t, e) ↦ ground (arith, rwx_loop_short mode (count + 1) sels p t (omega arith))
    ]

-- A string of less than eight characters is read past the zero that ends it, unless an `s` out of
-- its place stops the loop: `rwxrwxrwx` never succeeds on it.
pub rwxrwxrwx_short :
    (mode : ℕ) (s : Bytes)
    → length s < 8
    → (rwxrwxrwx mode (s ++ 0 ∷ []) ≡ fault) ⊎ (rwxrwxrwx mode (s ++ 0 ∷ []) ≡ failed 4 mode)
unfolding rwxrwxrwx modesel
rwxrwxrwx_short mode s h =
    rwx_loop_short mode 0 modesel (s ++ 0 ∷ []) _ (omega (arith, length-append s (0 ∷ [])))

rwx_loop-ends :
    (mode count : ℕ) (sels : List ModeLookup) (p : Bytes) (tmp : ℕ)
    → rwx_loop mode count sels p tmp ≢ out_of_fuel
unfolding rwx_loop
rwx_loop-ends mode count [] p tmp = cc
rwx_loop-ends mode count (sel ∷ sels) [] tmp = cc
rwx_loop-ends mode count (sel ∷ sels) (c ∷ p) tmp = elim (Option-cases (rwx_char count sel c tmp)) [
  | inl e ↦ ground arith
  | inr (t, e) ↦ ground (arith, rwx_loop-ends mode (count + 1) sels p t)
]

-- A turn that is not the last one uses up some of the string, and no turn runs out of fuel.
abbrev Shrinks : ℕ → Turn → Type 0
Shrinks n (next m o p) = length p < n
Shrinks n (stop r) = r ≢ out_of_fuel

finish-Shrinks :
    (mode op affected ch_mode : ℕ) (p : Bytes) (n : ℕ)
    → length p ≤ n
    → Shrinks n (finish mode op affected ch_mode p)
unfolding finish
finish-Shrinks mode op affected ch_mode [] n h = cc
finish-Shrinks mode op affected ch_mode (c ∷ p) n h = ground arith

specs-Shrinks :
    (mode op affected : ℕ) (p : Bytes) (n : ℕ) → length p ≤ n → Shrinks n (specs mode op affected p)
unfolding specs
specs-Shrinks mode op affected p n h = elim (Option-cases (letters change_letter 0 p)) [
  | inl e ↦ ground arith
  | inr (r, e) ↦
      rw (e, Shrinks)
        (finish-Shrinks mode op affected r.0 r.1 n
          (omega (arith, length-letters change_letter 0 p e)))
]

operate-Shrinks :
    (mode op affected : ℕ) (p : Bytes) (n : ℕ)
    → length p ≤ n
    → Shrinks n (operate mode op affected p)
unfolding operate
operate-Shrinks mode op affected [] n h = cc
operate-Shrinks mode op affected (c ∷ p) n h = elim (Option-cases (operator c op)) [
  | inl e ↦ ground arith
  | inr (o, e) ↦ rw (e, Shrinks) (specs-Shrinks mode o affected p n (omega arith))
]

rwxrwxrwx-ends : (mode : ℕ) (p : Bytes) → rwxrwxrwx mode p ≢ out_of_fuel
unfolding rwxrwxrwx
rwxrwxrwx-ends mode p = rwx_loop-ends mode 0 modesel p _

turn-Shrinks : (mode op : ℕ) (p : Bytes) → Shrinks (length p) (turn mode op p)
unfolding turn
turn-Shrinks mode op [] = cc
turn-Shrinks mode op (c ∷ p) = elim (Option-cases (letters who_letter 0 (c ∷ p))) [
  | inl e ↦ ground (arith, rwxrwxrwx-ends mode (c ∷ p))
  | inr (r, e) ↦ elim (Bool-cases (c == 114 || c == 45)) [
    | inl b ↦ rw (b, Shrinks) (rwxrwxrwx-ends mode (c ∷ p))
    | inr b ↦
        rw (b, e, Shrinks)
          (operate-Shrinks mode op _ r.1 (suc (length p)) (length-letters who_letter 0 (c ∷ p) e))
  ]
]

Turn-cases :
    (t : Turn)
    → ((m : ℕ) × (o : ℕ) × (p : Bytes) × (t ≡ next m o p)) ⊎ ((r : Munched) × (t ≡ stop r))
Turn-cases (next m o p) = inl (m, o, p, refl)
Turn-cases (stop r) = inr (r, refl)

munch_loop-ends :
    (fuel mode op : ℕ) (p : Bytes) → length p < fuel → munch_loop fuel mode op p ≢ out_of_fuel
unfolding munch_loop
munch_loop-ends zero mode op p h = absurd (omega arith)
munch_loop-ends (suc fuel) mode op p h = elim (Turn-cases (turn mode op p)) [
  | inl (m, o, p', e) ↦
      let s = turn-Shrinks mode op p in ground (arith, munch_loop-ends fuel m o p')
  | inr (r, e) ↦ let s = turn-Shrinks mode op p in ground arith
]

-- `mode_munch` ends on every string: the turns given to its loop are enough.
pub mode_munch-fuel : (mode : ℕ) (p : Bytes) → mode_munch mode p ≢ out_of_fuel
unfolding mode_munch
mode_munch-fuel mode p = munch_loop-ends (suc (length p)) mode 0 p (omega arith)
