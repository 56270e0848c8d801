-- ===== src/Tables/Get.antt =====
-- lua/ltable.c: luaH_get takes a short way to strings and to numbers that are integers.
use primemover.Prelude.{
  ℕ, zero, suc, Bool, true, Option, none, some, ltb, if◌then◌else◌, ◌≡◌, inl, inr, refl, sym, ◌∙◌,
  ap, Bool-cases,
}
use mathlib.Core.Path.{fun_ext}
use primemover.Prelude.Int.{ℤ, pos, negsuc}
use primemover.Tables.{
  Numbers, Object, boolean, number, string, light, object, Table, sizenode, Place, in_array, find,
  raw_equal, hashnum, getany, getnum, getstr, get, is_number, is_string, hashmod, hashpow2,
}
use primemover.Tables.Chains.{clash}
use primemover.Tables.Equal.{IsLawful}

module _ {N : Type 0} (num : Numbers N) (str_hash : ℕ → ℕ) where
  -- The place of an integer, and of a key, in the array part, if there is one.
  abbrev pub integer_place : Table N → ℤ → Option ℕ
  integer_place t (pos (suc i)) = if ltb i t.sizearray then some i else none
  integer_place t (pos zero) = none
  integer_place t (negsuc i) = none

  unfoldable pub array_place : Table N → Object N → Option ℕ
  array_place t (number n) =
      if num.equal (num.of_int (num.to_int n)) n then integer_place t (num.to_int n) else none
  array_place t o = none

  abbrev pub searched : Table N → Object N → Option ℕ → Place
  searched t k (some i) = in_array i
  searched t k none = getany num str_hash t (some k)

  module _ (laws : IsLawful num) where
    number_tests :
        (n : N) (k : Object N)
        → num.equal (num.of_int (num.to_int n)) n ≡ true
        → is_number num (num.of_int (num.to_int n)) k ≡ raw_equal num k (number n)
    unfolding raw_equal
    number_tests n (boolean b) h = refl
    number_tests n (string s) h = refl
    number_tests n (light p) h = refl
    number_tests n (object p) h = refl
    number_tests n (number m) h = elim (Bool-cases (num.equal m n)) [
      | inl e ↦ laws.equal_trans m n _ e (laws.equal_sym _ n h) ∙ sym e
      | inr e ↦ elim (Bool-cases (num.equal m (num.of_int (num.to_int n)))) [
        | inl u ↦ absurd (clash (laws.equal_trans m _ n u h) e)
        | inr u ↦ u ∙ sym e
      ]
    ]

    string_tests : (s : ℕ) (k : Object N) → is_string s k ≡ raw_equal num k (string s)
    unfolding raw_equal
    string_tests s (boolean b) = refl
    string_tests s (number m) = refl
    string_tests s (light p) = refl
    string_tests s (object p) = refl
    string_tests s (string r) = refl

    same_hash :
        (l : ℕ) (n : N)
        → num.equal (num.of_int (num.to_int n)) n ≡ true
        → hashnum num l (num.of_int (num.to_int n)) ≡ hashnum num l n
    unfolding hashnum
    same_hash l n h = ap (hashmod l) (laws.equal_hash _ n h)

    -- The search for an integer is that for any object.
    in_hash :
        (t : Table N) (n : N)
        → num.equal (num.of_int (num.to_int n)) n ≡ true
        → find
            (is_number num (num.of_int (num.to_int n)))
            t.node
            (suc (sizenode t))
            (hashnum num t.lsizenode (num.of_int (num.to_int n)))
          ≡ getany num str_hash t (some (number n))
    unfolding getany
    in_hash t n h =
        ap
          (λ (test : Object N → Bool).
            find test t.node (suc (sizenode t))
              (hashnum num t.lsizenode (num.of_int (num.to_int n))))
          (fun_ext λ k. number_tests n k h)
        ∙ ap (find (λ k. raw_equal num k (number n)) t.node (suc (sizenode t)))
            (same_hash t.lsizenode n h)

    pub getnum_lem :
        (t : Table N) (k : Object N) (z : ℤ)
        → find
            (is_number num (num.of_int z))
            t.node
            (suc (sizenode t))
            (hashnum num t.lsizenode (num.of_int z))
          ≡ getany num str_hash t (some k)
        → getnum num str_hash t z ≡ searched t k (integer_place t z)
    unfolding getnum
    getnum_lem t k (pos (suc i)) e = elim (Bool-cases (ltb i t.sizearray)) [
      | inl u ↦ rw u refl
      | inr u ↦ rw u e
    ]
    getnum_lem t k (pos zero) e = e
    getnum_lem t k (negsuc i) e = e

    -- luaH_get finds what its array part or the search along the chain of the key's main position
    -- would find.
    pub get_lem :
        (t : Table N) (k : Object N) → get num str_hash t (some k) ≡ searched t k (array_place t k)
    unfolding get array_place getstr getnum getany
    get_lem t (string s) =
        ap
          (λ (test : Object N → Bool).
            find test t.node (suc (sizenode t)) (hashpow2 t.lsizenode (str_hash s)))
          (fun_ext λ k. string_tests s k)
    get_lem t (number n) = elim (Bool-cases (num.equal (num.of_int (num.to_int n)) n)) [
      | inr e ↦ rw e refl
      | inl e ↦ rw e (getnum_lem t (number n) (num.to_int n) (in_hash t n e))
    ]
    get_lem t (boolean b) = refl
    get_lem t (light p) = refl
    get_lem t (object p) = refl
