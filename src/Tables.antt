-- ===== src/Tables.antt =====
-- lua/ltable.c: tables with an array part and a hash part. A TObject is `none` where it is nil; what
-- is collectable is its address, and so is a string, since strings are interned. The numbers are a
-- parameter, as lua_Number is a type that lua/lua.h leaves open, and so is the hash of a string.
-- Arrays are functions on their indices beside their size.
pub mod Assign
pub mod Chains
pub mod Equal
pub mod Get
pub mod Growth
pub mod Insert
pub mod Links
pub mod Lookup
pub mod Moves
pub mod Orders
pub mod Places
pub mod Present
pub mod Refine
pub mod Rehash
pub mod Resize
pub mod Sizes
pub mod Traverse
pub mod Visits
mod Tests
use primemover.Prelude.{
  ℕ, zero, suc, ◌+◌, ◌-◌, ◌*◌, ◌/◌, ◌%◌, ◌^◌, Bool, true, false, not, ◌||◌, ◌&&◌, Option, none,
  some, List, [], ◌∷◌, ltb, leb, ◌==◌, if◌then◌else◌, bit_or,
}
use primemover.Prelude.Int.{ℤ, pos, negsuc, leb_ℤ}

-- lua_Number: what the tables use of it
pub record Numbers (N : Type 0) : Type 0 where
  pub equal : N → N → Bool
  pub of_int : ℤ → N
  pub to_int : N → ℤ
  pub hash : N → ℕ

-- TObject, unless it is nil
pub data Object (N : Type 0) : Type 0 where
  boolean : Bool → Object N
  number : N → Object N
  string light object : ℕ → Object N

pub record Node (N : Type 0) : Type 0 where
  pub key : Option (Object N)
  pub val : Option (Object N)
  pub next : Option ℕ

-- `lsizenode` is the logarithm of the number of nodes.
pub record Table (N : Type 0) : Type 0 where
  pub array : ℕ → Option (Object N)
  pub sizearray : ℕ
  pub lsizenode : ℕ
  pub node : ℕ → Node N
  pub firstfree : ℕ

abbrev pub sizenode : {N : Type 0} → Table N → ℕ
sizenode t = 2 ^ t.lsizenode

abbrev pub write {ℓ} : {A : Type ℓ} → (ℕ → A) → ℕ → A → ℕ → A
write f i a j = if j == i then a else f j

abbrev pub is_some {ℓ} : {A : Type ℓ} → Option A → Bool
is_some none = false
is_some (some a) = true

-- Where a TObject is that a search returns: `nilobject` is the address of luaO_nilobject.
pub data Place : Type 0 where
  in_array in_node : ℕ → Place
  nilobject out_of_fuel : Place

module _ {N : Type 0} where
  abbrev pub read : Table N → Place → Option (Object N)
  read t (in_array i) = t.array i
  read t (in_node i) = (t.node i).val
  read t nilobject = none
  read t out_of_fuel = none

  -- `setobj2t(p, o)` at a place that a search has returned
  abbrev pub assign : Table N → Place → Option (Object N) → Table N
  assign t (in_array i) o = record t { array = write t.array i o }
  assign t (in_node i) o = record t { node = write t.node i (record (t.node i) { val = o }) }
  assign t nilobject o = t
  assign t out_of_fuel o = t

  -- the do loop along a chain, on fuel
  unfoldable pub find : (Object N → Bool) → (ℕ → Node N) → ℕ → ℕ → Place
  find test nodes zero i = out_of_fuel
  find test nodes (suc fuel) i = elim (nodes i).next [
    | none ↦
        if (elim (nodes i).key [ none ↦ false | some k ↦ test k ]) then in_node i else nilobject
    | some j ↦
        let rest = find test nodes fuel j in
        if (elim (nodes i).key [ none ↦ false | some k ↦ test k ]) then in_node i else rest
  ]

-- hashpow2 and hashmod
abbrev pub hashpow2 : ℕ → ℕ → ℕ
hashpow2 lsize n = n % 2 ^ lsize

abbrev pub hashmod : ℕ → ℕ → ℕ
hashmod lsize n = n % bit_or (2 ^ lsize - 1) 1

abbrev pub is_string : {N : Type 0} → ℕ → Object N → Bool
is_string s (string r) = r == s
is_string s o = false

module _ {N : Type 0} (num : Numbers N) where
  -- luaO_rawequalObj, on what is not nil
  unfoldable pub raw_equal : Object N → Object N → Bool
  raw_equal (boolean a) (boolean b) = if a then b else not b
  raw_equal (number a) (number b) = num.equal a b
  raw_equal (string a) (string b) = a == b
  raw_equal (light a) (light b) = a == b
  raw_equal (object a) (object b) = a == b
  raw_equal a b = false

  -- `none` is -1
  unfoldable pub arrayindex : Object N → Option ℕ
  arrayindex (number n) = elim (num.to_int n) [
    | pos k ↦
        if num.equal (num.of_int (pos k)) n && leb 1 k && ltb (k - 1) (2 ^ 24) then some k else none
    | negsuc k ↦ none
  ]
  arrayindex o = none

  unfoldable pub hashnum : ℕ → N → ℕ
  hashnum lsize n = hashmod lsize (num.hash n)

  -- `ttisnumber(gkey(n)) && nvalue(gkey(n)) == nk`
  abbrev pub is_number : N → Object N → Bool
  is_number n (number m) = num.equal m n
  is_number n o = false

  module _ (str_hash : ℕ → ℕ) where
    -- luaH_mainposition, in a hash part of 2 ^ lsize nodes
    unfoldable pub mainposition : ℕ → Object N → ℕ
    unfolding hashnum
    mainposition lsize (number n) = hashnum lsize n
    mainposition lsize (string s) = hashpow2 lsize (str_hash s)
    mainposition lsize (boolean b) = hashpow2 lsize (if b then 1 else 0)
    mainposition lsize (light p) = hashmod lsize p
    mainposition lsize (object p) = hashmod lsize p

    unfoldable pub getany : Table N → Option (Object N) → Place
    unfolding find raw_equal mainposition
    getany t none = nilobject
    getany t (some k) =
        find (λ k'. raw_equal k' k) t.node (suc (sizenode t)) (mainposition t.lsizenode k)

    unfoldable pub getnum : Table N → ℤ → Place
    unfolding find hashnum
    getnum t k =
        let in_hash =
          find (is_number (num.of_int k)) t.node (suc (sizenode t))
            (hashnum t.lsizenode (num.of_int k)) in
        elim k [
          | pos (suc i) ↦ if ltb i t.sizearray then in_array i else in_hash
          | pos zero ↦ in_hash
          | negsuc i ↦ in_hash
        ]

    unfoldable pub getstr : Table N → ℕ → Place
    unfolding find
    getstr t s = find (is_string s) t.node (suc (sizenode t)) (hashpow2 t.lsizenode (str_hash s))

    unfoldable pub get : Table N → Option (Object N) → Place
    unfolding getany getnum getstr
    get t none = nilobject
    get t (some (string s)) = getstr t s
    get t (some (number n)) =
        if num.equal (num.of_int (num.to_int n)) n
        then getnum t (num.to_int n)
        else getany t (some (number n))
    get t (some o) = getany t (some o)
