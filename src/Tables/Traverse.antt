-- ===== src/Tables/Traverse.antt =====
-- lua/ltable.c: luaH_next, and the traversal that calls it from nil to the end.
use mathlib.Core.Option.{map as map_option}
use primemover.Prelude.{
  ℕ, zero, suc, ◌+◌, ◌-◌, Option, none, some, List, [], ◌∷◌, leb, if◌then◌else◌,
}
use primemover.Prelude.Int.{pos}
use primemover.Tables.{
  Numbers, Object, number, Table, sizenode, is_some, Place, in_array, in_node, nilobject,
  out_of_fuel, arrayindex, get,
}

-- Where luaH_next begins, one behind luaH_index. `astray` is a difference of pointers into two
-- vectors, or a chain that does not end.
pub data Start : Type 0 where
  from : ℕ → Start
  invalid_key astray : Start

-- What luaH_next leaves on the stack.
pub data Entry (N : Type 0) : Type 0 where
  entry : Option (Object N) → Option (Object N) → Entry N
  finished : Entry N
  rejected : Entry N
  lost : Entry N

-- the loop of either part: the first of `n` values from `i` on that is not nil
unfoldable pub scan {ℓ} : {A : Type ℓ} → (ℕ → Option A) → (n i : ℕ) → Option ℕ
scan values zero i = none
scan values (suc n) i =
    let rest = scan values n (suc i) in if is_some (values i) then some i else rest

module _ {N : Type 0} (num : Numbers N) (str_hash : ℕ → ℕ) where
  abbrev pub hash_start : Table N → Place → Start
  hash_start t (in_node j) = from (suc j + t.sizearray)
  hash_start t nilobject = invalid_key
  hash_start t (in_array i) = astray
  hash_start t out_of_fuel = astray

  -- luaH_index, and the step to what comes behind
  unfoldable pub start : Table N → Option (Object N) → Start
  unfolding arrayindex get
  start t none = from 0
  start t (some k) = elim (arrayindex num k) [
    | none ↦ hash_start t (get num str_hash t (some k))
    | some i ↦ if leb i t.sizearray then from i else hash_start t (get num str_hash t (some k))
  ]

  -- behind the second loop, and behind the first
  abbrev pub node_entry : Table N → Option ℕ → Entry N
  node_entry t (some j) = entry (t.node j).key (t.node j).val
  node_entry t none = finished

  abbrev pub array_entry : Table N → ℕ → Option ℕ → Entry N
  array_entry t i (some j) = entry (some (number (num.of_int (pos (suc j))))) (t.array j)
  array_entry t i none =
      let i = i - t.sizearray in node_entry t (scan (λ j. (t.node j).val) (sizenode t - i) i)

  unfoldable pub next_from : Table N → ℕ → Entry N
  unfolding scan
  next_from t i = array_entry t i (scan t.array (t.sizearray - i) i)

  -- luaH_next
  unfoldable pub next : Table N → Option (Object N) → Entry N
  unfolding start next_from
  next t key = elim (start t key) [
    | from i ↦ next_from t i
    | invalid_key ↦ rejected
    | astray ↦ lost
  ]

abbrev pub Entries : Type 0 → Type 0
Entries N = List (Option (Object N) × Option (Object N))

-- A traversal calls luaH_next with the key that it gave last, `again`.
abbrev pub visit :
    {N : Type 0} → (Option (Object N) → Option (Entries N)) → Entry N → Option (Entries N)
visit again (entry k v) = map_option (λ rest. (k, v) ∷ rest) (again k)
visit again finished = some []
visit again rejected = none
visit again lost = none

module _ {N : Type 0} (num : Numbers N) (str_hash : ℕ → ℕ) where
  unfoldable pub traverse : ℕ → Table N → Option (Object N) → Option (Entries N)
  unfolding next
  traverse zero t key = none
  traverse (suc fuel) t key = visit (λ k. traverse fuel t k) (next num str_hash t key)
