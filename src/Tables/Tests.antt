-- ===== src/Tables/Tests.antt =====
-- Tests of the tables, on integers as numbers.
use primemover.Prelude.{
  ℕ, zero, suc, ◌^◌, ◌≤◌, Bool, true, false, Option, none, some, ◌==◌, ltb, if◌then◌else◌, ◌≡◌,
  refl, arith,
}
use native.Mathlib.Nat.{pow-suc, one-le-pow}
use primemover.Prelude.Int.{ℤ, pos, negsuc}
use primemover.Objects.{log_8}
use primemover.Tables.{
  Numbers, Object, boolean, number, string, light, object, Table, Place, in_node, nilobject, assign,
  read, get, getany, raw_equal,
}
use primemover.Tables.Insert.{placed, fault, place_key}
use primemover.Tables.Assign.{Added, set-Added}
use primemover.Tables.Equal.{IsLawful, IsValid}
use primemover.Tables.Resize.{
  Outcome, done, index_nil, index_nan, overflow, stuck, emptied, set, computesizes, Sizes,
}
use primemover.Tables.Places.{
  place_key-total, place_key-getany, place_key-others, place_key-IsValid,
}
use primemover.Tables.Get.{array_place, integer_place, searched, get_lem}
use primemover.Tables.Growth.{emptied-IsValid}
use primemover.Tables.Rehash.{set-IsValid}
use primemover.Tables.Sizes.{used, IsBest, computesizes-IsBest}
use primemover.Tables.Traverse.{traverse}
use primemover.Tables.Visits.{live}
use primemover.Tables.Orders.{IsExact, traverse-live}

abbrev same_int : ℤ → ℤ → Bool
same_int (pos a) (pos b) = a == b
same_int (negsuc a) (negsuc b) = a == b
same_int a b = false

abbrev absolute : ℤ → ℕ
absolute (pos a) = a
absolute (negsuc a) = a

abbrev integers : Numbers ℤ
integers = record { equal = same_int; of_int = λ z. z; to_int = λ z. z; hash = absolute }

abbrev own_hash : ℕ → ℕ
own_hash s = s

same_int-sym : (a b : ℤ) → same_int a b ≡ true → same_int b a ≡ true
same_int-sym (pos a) (pos b) h = ground arith
same_int-sym (pos a) (negsuc b) h = cc
same_int-sym (negsuc a) (pos b) h = cc
same_int-sym (negsuc a) (negsuc b) h = ground arith

same_int_trans : (a b c : ℤ) → same_int a b ≡ true → same_int b c ≡ true → same_int a c ≡ true
same_int_trans (pos a) (pos b) (pos c) h k = ground arith
same_int_trans (negsuc a) (negsuc b) (negsuc c) h k = ground arith
same_int_trans (pos a) (pos b) (negsuc c) h k = cc
same_int_trans (pos a) (negsuc b) c h k = absurd cc
same_int_trans (negsuc a) (pos b) c h k = absurd cc
same_int_trans (negsuc a) (negsuc b) (pos c) h k = cc

same_int-absolute : (a b : ℤ) → same_int a b ≡ true → absolute a ≡ absolute b
same_int-absolute (pos a) (pos b) h = ground arith
same_int-absolute (pos a) (negsuc b) h = absurd cc
same_int-absolute (negsuc a) (pos b) h = absurd cc
same_int-absolute (negsuc a) (negsuc b) h = ground arith

same_int_refl : (a : ℤ) → same_int a a ≡ true
same_int_refl (pos a) = ground arith
same_int_refl (negsuc a) = ground arith

integers-IsLawful : IsLawful integers
integers-IsLawful = record {
  equal_sym = same_int-sym;
  equal_trans = same_int_trans;
  equal_hash = same_int-absolute;
}

integers-IsExact : IsExact integers
integers-IsExact = record { to_of = λ k h. refl; equal_self = same_int_refl }

abbrev no_table : Table ℤ
no_table = record {
  array = λ i. none;
  sizearray = 0;
  lsizenode = 0;
  node = λ i. record { key = none; val = none; next = none };
  firstfree = 0;
}

-- Four nodes; 1 and 4 have the same main position in them.
abbrev free_nodes : Table ℤ
free_nodes = emptied no_table 2

abbrev table_of : Outcome ℤ → Table ℤ
table_of (done t p) = t
table_of index_nil = free_nodes
table_of index_nan = free_nodes
table_of overflow = free_nodes
table_of stuck = free_nodes

abbrev place_of : Outcome ℤ → Place
place_of (done t p) = p
place_of index_nil = nilobject
place_of index_nan = nilobject
place_of overflow = nilobject
place_of stuck = nilobject

abbrev key : ℕ → Object ℤ
key n = number (pos n)

abbrev put : Table ℤ → ℕ → Table ℤ
unfolding set
put t n =
    let r = set integers own_hash 2 t (some (key n)) in
    assign (table_of r) (place_of r) (some (boolean true))

get_at : Table ℤ → ℕ → Option (Object ℤ)
unfolding get
get_at t n = read t (get integers own_hash t (some (key n)))

-- The fifth key makes the table grow, and all keys go to an array part.
abbrev grown : Table ℤ
unfolding set
grown = put (put (put (put (put free_nodes 1) 4) 7) 2) 3

grown-array : grown.sizearray ≡ 8
unfolding set log_8
grown-array = refl

grown-get : (get_at grown 7 ≡ some (boolean true)) × (get_at grown 5 ≡ none)
unfolding set get_at log_8
grown-get = (refl, refl)

-- The node of the key 1.
abbrev one : Table ℤ
unfolding set
one = put free_nodes 1

one-IsValid : IsValid integers own_hash one
unfolding set
one-IsValid =
    (set-IsValid integers own_hash integers-IsLawful 2 free_nodes
      (table_of (set integers own_hash 2 free_nodes (some (key 1)))) (some (key 1))
      (some (boolean true)) (place_of (set integers own_hash 2 free_nodes (some (key 1))))
      (emptied-IsValid integers own_hash no_table 2) refl).1

abbrev both : Table ℤ
unfolding place_key
both = elim (place_key integers own_hash one (key 4)) [ placed t p ↦ t | fault ↦ one ]

place_key-total_example :
    (t' : Table ℤ) × (p : ℕ) × (place_key integers own_hash one (key 4) ≡ placed t' p)
unfolding getany set
place_key-total_example =
    place_key-total integers own_hash integers-IsLawful one (key 4) one-IsValid refl

place_key-getany_example :
    (getany integers own_hash both (some (key 4)) ≡ in_node 3) × ((both.node 3).val ≡ none)
unfolding getany set place_key
place_key-getany_example =
    place_key-getany integers own_hash integers-IsLawful one both (key 4) 3 one-IsValid refl refl
      refl

place_key-others_example :
    read both (getany integers own_hash both (some (key 1)))
    ≡ read one (getany integers own_hash one (some (key 1)))
unfolding getany set place_key
place_key-others_example =
    place_key-others integers own_hash integers-IsLawful one both (key 4) (key 1) 3 one-IsValid refl
      refl refl

place_key-IsValid_example : IsValid integers own_hash (record both { firstfree = 2 })
unfolding getany set place_key
place_key-IsValid_example =
    place_key-IsValid integers own_hash integers-IsLawful one both (key 4) 3 2 one-IsValid refl refl
      refl

set-Added_example :
    Added integers own_hash integers-IsLawful one
      (key 4)
      (key 1)
      (set integers own_hash 1 one (some (key 4)))
unfolding get set place_key raw_equal
set-Added_example =
    set-Added integers own_hash integers-IsLawful 0 one both (key 4) (key 1) 3 2 one-IsValid refl
      refl refl refl refl

get_lem_example :
    get integers own_hash both (some (key 4))
    ≡ searched integers own_hash both (key 4) (array_place integers own_hash both (key 4))
get_lem_example = get_lem integers own_hash integers-IsLawful both (key 4)

-- One key 1, and one key 2.
abbrev few : ℕ → ℕ
few i = if i == 0 then 1 else if i == 1 then 1 else 0

used-few : (m : ℕ) → used few m ≤ 2
unfolding used
used-few zero = omega arith
used-few (suc zero) = omega arith
used-few (suc (suc m)) =
    let none_more : few (suc (suc m)) ≡ 0 = ground arith in
    omega (arith, used-few (suc m), none_more)

few_fit : (m : ℕ) → used few m ≤ 2 ^ m
unfolding used
few_fit zero = omega arith
few_fit (suc m) = omega (arith, used-few (suc m), one-le-pow m 2, pow-suc 2 m)

computesizes-IsBest_example : (s : Sizes) × (computesizes few 3 2 ≡ some s) × IsBest few 3 s
unfolding used
computesizes-IsBest_example = computesizes-IsBest few 2 refl few_fit 3 (omega arith)

raw_equal_refl : (k : Object ℤ) → raw_equal integers k k ≡ true
unfolding raw_equal
raw_equal_refl (boolean true) = refl
raw_equal_refl (boolean false) = refl
raw_equal_refl (number n) = same_int_refl n
raw_equal_refl (string s) = ground arith
raw_equal_refl (light p) = ground arith
raw_equal_refl (object p) = ground arith

no_integer_place :
    (t : Table ℤ) → t.sizearray ≡ 0 → (z : ℤ) → integer_place integers own_hash t z ≡ none
no_integer_place t h (pos zero) = refl
no_integer_place t h (pos (suc i)) =
    let out : ltb i t.sizearray ≡ false = ground arith in rw out refl
no_integer_place t h (negsuc i) = refl

no_array_place :
    (t : Table ℤ) → t.sizearray ≡ 0 → (k : Object ℤ) → array_place integers own_hash t k ≡ none
unfolding array_place
no_array_place t h (number n) = rw (same_int_refl n) (no_integer_place t h n)
no_array_place t h (boolean b) = refl
no_array_place t h (string b) = refl
no_array_place t h (light b) = refl
no_array_place t h (object b) = refl

traverse-live_example : traverse integers own_hash 5 one none ≡ some (live integers one 4 0)
unfolding set
traverse-live_example =
    traverse-live integers own_hash integers-IsLawful integers-IsExact one one-IsValid (omega arith)
      (λ j k h. raw_equal_refl k) (λ j k v h h'. no_array_place one refl k)
