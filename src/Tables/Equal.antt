-- ===== src/Tables/Equal.antt =====
-- lua/ltable.c: equality of keys, their main positions, and when a hash part is well formed.
use primemover.Prelude.{
  ℕ, ◌+◌, ◌-◌, ◌%◌, ◌^◌, ◌≤◌, ◌<◌, true, false, none, bit_or, if◌then◌else◌, ◌≡◌, ap, arith,
}
use native.Mathlib.Nat.{mod-lt, one-le-pow}
use primemover.Prelude.Bits.{le-bit_or, or_add_and}
use primemover.Tables.{
  Numbers, Object, boolean, number, string, light, object, Table, raw_equal, mainposition, hashnum,
  sizenode,
}
use primemover.Tables.Chains.{Linked}

-- What the tables rely on: numbers that compare equal have one hash, and equality is an equivalence,
-- except that a number (NaN) need not equal itself.
pub record IsLawful {N : Type 0} (num : Numbers N) : Type 0 where
  pub equal_sym : (a b : N) → num.equal a b ≡ true → num.equal b a ≡ true
  pub equal_trans : (a b c : N) → num.equal a b ≡ true → num.equal b c ≡ true → num.equal a c ≡ true
  pub equal_hash : (a b : N) → num.equal a b ≡ true → num.hash a ≡ num.hash b

module _ {N : Type 0} (num : Numbers N) (laws : IsLawful num) where
  pub raw_equal-sym : (a b : Object N) → raw_equal num a b ≡ true → raw_equal num b a ≡ true
  unfolding raw_equal
  raw_equal-sym (boolean a) b h = ground arith
  raw_equal-sym (number a) (number b) h = laws.equal_sym a b h
  raw_equal-sym (number a) (boolean b) h = cc
  raw_equal-sym (number a) (string b) h = cc
  raw_equal-sym (number a) (light b) h = cc
  raw_equal-sym (number a) (object b) h = cc
  raw_equal-sym (string a) b h = ground arith
  raw_equal-sym (light a) b h = ground arith
  raw_equal-sym (object a) b h = ground arith

  pub raw_equal_trans :
      (a b c : Object N)
      → raw_equal num a b ≡ true
      → raw_equal num b c ≡ true
      → raw_equal num a c ≡ true
  unfolding raw_equal
  raw_equal_trans (boolean a) b c h k = ground arith
  raw_equal_trans (number a) (number b) (number c) h k = laws.equal_trans a b c h k
  raw_equal_trans (number a) b c h k = ground arith
  raw_equal_trans (string a) b c h k = ground arith
  raw_equal_trans (light a) b c h k = ground arith
  raw_equal_trans (object a) b c h k = ground arith

module _ {N : Type 0} (num : Numbers N) (str_hash : ℕ → ℕ) where
  hashmod-lt : (l n : ℕ) → n % bit_or (2 ^ l - 1) 1 < 2 ^ l
  hashmod-lt l n =
      let d = bit_or (2 ^ l - 1) 1 in
      let positive : 0 < d = omega (arith, (le-bit_or (2 ^ l - 1) 1).1) in
      omega (arith, mod-lt n positive, or_add_and (2 ^ l - 1) 1, one-le-pow l 2)

  pub mainposition-lt : (l : ℕ) (a : Object N) → mainposition num str_hash l a < 2 ^ l
  unfolding mainposition hashnum
  mainposition-lt l (boolean b) = mod-lt (if b then 1 else 0) (one-le-pow l 2 (omega arith))
  mainposition-lt l (number n) = hashmod-lt l (num.hash n)
  mainposition-lt l (string s) = mod-lt (str_hash s) (one-le-pow l 2 (omega arith))
  mainposition-lt l (light p) = hashmod-lt l p
  mainposition-lt l (object p) = hashmod-lt l p

  -- The hash part is linked properly, and its next free node is free.
  unfoldable pub IsValid : Table N → Type 0
  IsValid t =
      (bound : ℕ) × Linked (mainposition num str_hash t.lsizenode) (raw_equal num) (sizenode t)
        bound t.node
      × (bound + t.firstfree + 1 ≤ sizenode t)
      × ((t.node t.firstfree).key ≡ none)

module _ {N : Type 0} (num : Numbers N) (str_hash : ℕ → ℕ) (laws : IsLawful num) where
  -- Equal objects have one main position.
  pub mainposition-raw_equal :
      (l : ℕ) (a b : Object N)
      → raw_equal num a b ≡ true
      → mainposition num str_hash l a ≡ mainposition num str_hash l b
  unfolding raw_equal mainposition hashnum
  mainposition-raw_equal l (boolean true) b h = ground arith
  mainposition-raw_equal l (boolean false) b h = ground arith
  mainposition-raw_equal l (number a) (number b) h =
      ap (λ (x : ℕ). x % bit_or (2 ^ l - 1) 1) (laws.equal_hash a b h)
  mainposition-raw_equal l (number a) b h = ground arith
  mainposition-raw_equal l (string a) (string b) h =
      ap (λ (x : ℕ). str_hash x % 2 ^ l) (ground arith)
  mainposition-raw_equal l (string a) b h = ground arith
  mainposition-raw_equal l (light a) (light b) h =
      ap (λ (x : ℕ). x % bit_or (2 ^ l - 1) 1) (ground arith)
  mainposition-raw_equal l (light a) b h = ground arith
  mainposition-raw_equal l (object a) (object b) h =
      ap (λ (x : ℕ). x % bit_or (2 ^ l - 1) 1) (ground arith)
  mainposition-raw_equal l (object a) b h = ground arith
