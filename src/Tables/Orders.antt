-- ===== src/Tables/Orders.antt =====
-- lua/ltable.c: a traversal by luaH_next, on a table whose keys are found.
use primemover.Prelude.{
  ℕ, zero, suc, ◌+◌, ◌-◌, ◌^◌, ◌≤◌, ◌<◌, Bool, true, false, ◌&&◌, Option, none, some, ltb, leb,
  if◌then◌else◌, ◌≡◌, inl, inr, refl, sym, ◌∙◌, ap, arith, Option-cases, Bool-cases,
}
use primemover.Prelude.Int.{ℤ, pos, negsuc}
use primemover.Tables.{
  Numbers, Object, boolean, number, string, light, object, Table, in_node, arrayindex, get,
  raw_equal,
}
use primemover.Tables.Links.{clash_some}
use primemover.Tables.Equal.{IsLawful, IsValid}
use primemover.Tables.Present.{lookup_present}
use primemover.Tables.Get.{array_place, integer_place, searched, get_lem}
use primemover.Tables.Traverse.{Start, from, hash_start, start, traverse}
use primemover.Tables.Visits.{
  positions, val_at, key_at, live, visit_lem, traverse-start, val_at_high, key_at_low, key_at_high,
}

-- Conversion of an index to a number and back.
pub record IsExact {N : Type 0} (num : Numbers N) : Type 0 where
  pub to_of : (k : ℕ) → k ≤ 2 ^ 24 → num.to_int (num.of_int (pos k)) ≡ pos k
  pub equal_self : (z : ℤ) → num.equal (num.of_int z) (num.of_int z) ≡ true

module _ {N : Type 0} (num : Numbers N) (str_hash : ℕ → ℕ) where
  arrayindex-pos :
      (n : N) (k : ℕ)
      → num.to_int n ≡ pos k
      → arrayindex num (number n) ≡ (
          if num.equal (num.of_int (pos k)) n && leb 1 k && ltb (k - 1) (2 ^ 24)
          then some k
          else none)
  unfolding arrayindex
  arrayindex-pos n k e = rw (e, arrayindex) refl

  arrayindex-negsuc : (n : N) (k : ℕ) → num.to_int n ≡ negsuc k → arrayindex num (number n) ≡ none
  unfolding arrayindex
  arrayindex-negsuc n k e = rw (e, arrayindex) refl

  array_place-pos :
      (t : Table N) (n : N) (k : ℕ)
      → num.to_int n ≡ pos k
      → num.equal (num.of_int (pos k)) n ≡ true
      → array_place num str_hash t (number n) ≡ integer_place num str_hash t (pos k)
  unfolding array_place
  array_place-pos t n k e h = rw e (rw h refl)

  index_tests :
      (a b c : Bool) (k i : ℕ)
      → (if a && b && c then some k else none) ≡ some i
      → (a ≡ true) × (b ≡ true) × (k ≡ i)
  index_tests true true true k i h = (refl, refl, ground arith)
  index_tests true true false k i h = cc
  index_tests true false c k i h = cc
  index_tests false b c k i h = cc

  -- An index inside the array part has a place there.
  arrayindex-place :
      (t : Table N) (k : Object N) (i : ℕ)
      → arrayindex num k ≡ some i
      → i ≤ t.sizearray
      → (m : ℕ) × (array_place num str_hash t k ≡ some m)
  unfolding arrayindex
  arrayindex-place t (number n) i e h = of_int (num.to_int n) refl
    where
      of_int :
          (z : ℤ) → num.to_int n ≡ z → (m : ℕ) × (array_place num str_hash t (number n) ≡ some m)
      of_int (negsuc k) u = absurd (clash_some e (arrayindex-negsuc n k u))
      of_int (pos zero) u =
          let (equal, positive, same) =
            index_tests (num.equal (num.of_int (pos 0)) n) (leb 1 0) (ltb (0 - 1) (2 ^ 24)) 0 i
              (sym (arrayindex-pos n 0 u) ∙ e) in
          absurd (ground (arith, positive))
      of_int (pos (suc m)) u =
          let (equal, positive, same) =
            index_tests (num.equal (num.of_int (pos (suc m))) n) (leb 1 (suc m))
              (ltb (suc m - 1) (2 ^ 24)) (suc m) i (sym (arrayindex-pos n (suc m) u) ∙ e) in
          let low : ltb m t.sizearray ≡ true = ground (arith, same) in
          (m, array_place-pos t n (suc m) u equal ∙ rw low refl)
  arrayindex-place t (boolean b) i e h = absurd (clash_some e refl)
  arrayindex-place t (string b) i e h = absurd (clash_some e refl)
  arrayindex-place t (light b) i e h = absurd (clash_some e refl)
  arrayindex-place t (object b) i e h = absurd (clash_some e refl)

  start-index :
      (t : Table N) (k : Object N) (o : Option ℕ)
      → arrayindex num k ≡ o
      → start num str_hash t (some k) ≡ (elim o as (λ x. Start) [
        | none ↦ hash_start num str_hash t (get num str_hash t (some k))
        | some i ↦
            if leb i t.sizearray
            then from i
            else hash_start num str_hash t (get num str_hash t (some k))
      ])
  unfolding start
  start-index t k o e =
      ap
        (λ (o : Option ℕ). elim o as (λ x. Start) [
          | none ↦ hash_start num str_hash t (get num str_hash t (some k))
          | some i ↦
              if leb i t.sizearray
              then from i
              else hash_start num str_hash t (get num str_hash t (some k))
        ])
        e

  start-hash :
      (t : Table N) (k : Object N)
      → array_place num str_hash t k ≡ none
      → start num str_hash t (some k) ≡ hash_start num str_hash t (get num str_hash t (some k))
  start-hash t k apart = elim (Option-cases (arrayindex num k)) [
    | inl e ↦ start-index t k none e
    | inr (i, e) ↦ elim (Bool-cases (leb i t.sizearray)) [
      | inl low ↦
          let (m, u) = arrayindex-place t k i e (ground arith) in absurd (clash_some u apart)
      | inr high ↦ start-index t k (some i) e ∙ rw high refl
    ]
  ]

  start-array :
      (t : Table N) (exact : IsExact num) (q : ℕ)
      → q < t.sizearray
      → t.sizearray ≤ 2 ^ 24
      → start num str_hash t (some (number (num.of_int (pos (suc q))))) ≡ from (suc q)
  start-array t exact q h small =
      let n = num.of_int (pos (suc q)) in
      let inside : leb (suc q) t.sizearray ≡ true = ground arith in
      let positive : leb 1 (suc q) ≡ true = ground arith in
      let narrow : ltb (suc q - 1) (2 ^ 24) ≡ true = ground arith in
      let index : arrayindex num (number n) ≡ some (suc q) =
        arrayindex-pos n (suc q) (exact.to_of (suc q) (omega arith))
        ∙ rw (exact.equal_self (pos (suc q))) (rw narrow (rw positive refl)) in
      start-index t (number n) (some (suc q)) index ∙ rw inside refl

  module _ (laws : IsLawful num) (exact : IsExact num) (t : Table N)
      (valid : IsValid num str_hash t) (small : t.sizearray ≤ 2 ^ 24)
      (proper : (j : ℕ) (k : Object N) → (t.node j).key ≡ some k → raw_equal num k k ≡ true)
      (apart : (j : ℕ) (k v : Object N)
        → (t.node j).key ≡ some k
        → (t.node j).val ≡ some v
        → array_place num str_hash t k ≡ none) where
    keyed :
        (q : ℕ) (v : Object N)
        → val_at num t q ≡ some v
        → (k : Object N) × (key_at num t q ≡ some k)
    unfolding IsValid
    keyed q v e = elim (Bool-cases (ltb q t.sizearray)) [
      | inl u ↦ (number (num.of_int (pos (suc q))), key_at_low num str_hash t q (ground arith))
      | inr u ↦
          let (bound, l, small_bound, free) = valid in
          let high : t.sizearray ≤ q = ground arith in
          elim (Option-cases (t.node (q - t.sizearray)).key) [
            | inl h ↦ absurd (
                clash_some (sym (val_at_high num str_hash t q high) ∙ e)
                  (l.empty (q - t.sizearray) h))
            | inr (k, h) ↦ (k, key_at_high num str_hash t q high ∙ h)
          ]
    ]

    get-node :
        (j : ℕ) (k v : Object N)
        → (t.node j).key ≡ some k
        → (t.node j).val ≡ some v
        → get num str_hash t (some k) ≡ in_node j
    unfolding IsValid
    get-node j k v at e =
        let (bound, l, small_bound, free) = valid in
        get_lem num str_hash laws t k
        ∙ ap (searched num str_hash t k) (apart j k v at e)
        ∙ lookup_present num str_hash laws t k bound l (omega arith) j k at (proper j k at)

    follows :
        (q : ℕ) (k v : Object N)
        → val_at num t q ≡ some v
        → key_at num t q ≡ some k
        → start num str_hash t (some k) ≡ from (suc q)
    follows q k v e at = elim (Bool-cases (ltb q t.sizearray)) [
      | inl u ↦
          let low : q < t.sizearray = ground arith in
          ap (start num str_hash t) (sym at ∙ key_at_low num str_hash t q low)
          ∙ start-array t exact q low small
      | inr u ↦
          let high : t.sizearray ≤ q = ground arith in
          let key = sym (key_at_high num str_hash t q high) ∙ at in
          let val = sym (val_at_high num str_hash t q high) ∙ e in
          let place : suc (q - t.sizearray) + t.sizearray ≡ suc q = omega arith in
          start-hash t k (apart (q - t.sizearray) k v key val)
          ∙ ap (hash_start num str_hash t) (get-node (q - t.sizearray) k v key val)
          ∙ ap from place
    ]

    start-nil : start num str_hash t none ≡ from 0
    unfolding start
    start-nil = refl

    -- The calls of luaH_next from nil on visit each place that holds a value once, in the order of
    -- the places, and end.
    pub traverse-live :
        traverse num str_hash (suc (positions num t)) t none ≡ some (live num t (positions num t) 0)
    traverse-live =
        traverse-start num str_hash t follows keyed (positions num t) 0 none start-nil
        ∙ visit_lem num str_hash t follows keyed (positions num t) (positions num t) 0 (omega arith)
            (omega arith)
