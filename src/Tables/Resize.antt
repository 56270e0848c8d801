-- ===== src/Tables/Resize.antt =====
-- lua/ltable.c: the growth of a table: how the uses are counted, how the sizes follow, and how the
-- entries go into the new parts; `newkey`, luaH_set, luaH_setnum and luaH_new.
use mathlib.Core.Option.{map as map_option}
use primemover.Prelude.{
  ℕ, zero, suc, ◌+◌, ◌-◌, ◌^◌, false, ◌&&◌, Option, none, some, ◌==◌, ltb, leb, if◌then◌else◌,
}
use primemover.Prelude.Int.{ℤ, pos, negsuc}
use primemover.Objects.{log2}
use primemover.Tables.{
  Numbers, Object, boolean, number, Node, Table, sizenode, write, is_some, Place, in_node,
  nilobject, in_array, out_of_fuel, assign, arrayindex, getnum, get,
}
use primemover.Tables.Insert.{Placed, placed, fault, place_key, next_free}

pub record Sizes : Type 0 where
  pub narray : ℕ
  pub nhash : ℕ

-- The loop with `i` = `suc i'`, while nums[i] is in the array of 25; `n` is `none` for -1. `none` is
-- a read behind the array.
unfoldable pub computesizes_loop :
    (ℕ → ℕ) → ℕ → (fuel i' a na : ℕ) → Option ℕ → Option (ℕ × Option ℕ)
computesizes_loop nums narray zero i' a na n =
    if ltb a narray && leb (2 ^ i') narray then none else some (na, n)
computesizes_loop nums narray (suc fuel) i' a na n =
    let unused = computesizes_loop nums narray fuel (suc i') a na n in
    let a' = a + nums (suc i') in
    let few = computesizes_loop nums narray fuel (suc i') a' na n in
    let many = computesizes_loop nums narray fuel (suc i') a' a' (some (suc i')) in
    if ltb a narray && leb (2 ^ i') narray
    then if ltb 0 (nums (suc i')) then if leb (2 ^ i') a' then many else few else unused
    else some (na, n)

-- `n` before the loop
abbrev pub smallest : ℕ → Option ℕ
smallest na = if na == 0 then none else some 0

-- `*nhash` and `*narray` behind the loop
abbrev pub sizes_of : ℕ → ℕ × Option ℕ → Sizes
sizes_of ntotal (na, none) = record { narray = 0; nhash = ntotal - na }
sizes_of ntotal (na, some n) = record { narray = 2 ^ n; nhash = ntotal - na }

unfoldable pub computesizes : (ℕ → ℕ) → (ntotal narray : ℕ) → Option Sizes
unfolding computesizes_loop
computesizes nums ntotal narray =
    map_option (sizes_of ntotal)
      (computesizes_loop nums narray 24 0 (nums 0) (nums 0) (smallest (nums 0)))

module _ {N : Type 0} where
  -- the inner loop, over `n` elements from `i` on
  unfoldable pub count_slice : Table N → (n i : ℕ) → ℕ
  count_slice t zero i = 0
  count_slice t (suc n) i = (if is_some (t.array i) then 1 else 0) + count_slice t n (suc i)

  -- the slices from `lg` on; behind the end of the array part the counts stay 0
  unfoldable pub count_slices : Table N → (fuel lg i : ℕ) → ℕ → ℕ
  unfolding count_slice
  count_slices t zero lg i j = 0
  count_slices t (suc fuel) lg i j =
      let past = ltb t.sizearray (2 ^ lg) in
      let ttlg = if past then t.sizearray else 2 ^ lg in
      let rest = count_slices t fuel (suc lg) (if ltb i ttlg then ttlg else i) j in
      if past && leb ttlg i then 0 else if j == lg then count_slice t (ttlg - i) i else rest

-- `nums[l + 1]++`
abbrev count_at : Option ℤ → (ℕ → ℕ) → ℕ → ℕ
count_at none nums = nums
count_at (some (pos l)) nums = write nums (l + 1) (nums (l + 1) + 1)
count_at (some (negsuc l)) nums = write nums 0 (nums 0 + 1)

pub record Uses : Type 0 where
  pub nums : ℕ → ℕ
  pub narray : ℕ
  pub total : ℕ

module _ {N : Type 0} where
  -- new nodes, all free
  abbrev pub emptied : Table N → ℕ → Table N
  emptied t lsize = record t {
    lsizenode = lsize;
    node = λ i. record { key = none; val = none; next = none };
    firstfree = 2 ^ lsize - 1;
  }

  -- setnodevector; `none` is the error "table overflow"
  unfoldable pub setnodevector : Table N → ℕ → Option (Table N)
  setnodevector t lsize = if ltb 24 lsize then none else some (emptied t lsize)

  -- setarrayvector, where the array part does not shrink
  unfoldable pub setarrayvector : Table N → ℕ → Table N
  setarrayvector t size = record t {
    array = λ i. if ltb i t.sizearray then t.array i else none;
    sizearray = size;
  }

module _ {N : Type 0} (num : Numbers N) where
  unfoldable pub count_node : Node N → Uses → Uses
  unfolding arrayindex log2
  count_node n u =
      let index : Option ℕ = elim n.key [ none ↦ none | some k ↦ arrayindex num k ] in
      if is_some n.val
      then elim index [
        | none ↦ record u { total = u.total + 1 }
        | some k ↦ record {
          nums = count_at (log2 (k - 1)) u.nums;
          narray = u.narray + 1;
          total = u.total + 1;
        }
      ]
      else u

  -- the nodes below `i`, the last first
  unfoldable pub count_nodes : Table N → ℕ → Uses → Uses
  unfolding count_node
  count_nodes t zero u = u
  count_nodes t (suc i) u = count_nodes t i (count_node (t.node i) u)

  unfoldable pub numuse : Table N → Option Sizes
  unfolding count_slices count_nodes computesizes
  numuse t =
      let used = count_slice t t.sizearray 0 in
      let u =
        count_nodes t (sizenode t)
          (record { nums = count_slices t 25 0 0; narray = used; total = used }) in
      computesizes u.nums u.total u.narray

-- luaH_new
unfoldable pub new_table : {N : Type 0} → (narray lnhash : ℕ) → Option (Table N)
unfolding setnodevector setarrayvector
new_table narray lnhash =
    setnodevector
      (setarrayvector
        (record {
          array = λ i. none;
          sizearray = 0;
          lsizenode = 0;
          node = λ i. record { key = none; val = none; next = none };
          firstfree = 0;
        })
        narray)
      lnhash

-- A table with the place of a value, or what stops the call: `stuck` is a chain that ends too soon,
-- a read outside the counts of numuse, or more nested growths than the fuel.
pub data Outcome (N : Type 0) : Type 0 where
  done : Table N → Place → Outcome N
  index_nil index_nan overflow stuck : Outcome N

module _ {N : Type 0} (num : Numbers N) (str_hash : ℕ → ℕ) where
  -- luaH_set on a key that is not in the table
  abbrev pub checked_key :
      (Table N → Object N → Outcome N) → Table N → Option (Object N) → Outcome N
  checked_key insert t none = index_nil
  checked_key insert t (some (number n)) = if num.equal n n then insert t (number n) else index_nan
  checked_key insert t (some k) = insert t k

  -- what a search has found, or `otherwise`
  abbrev pub found_or : Outcome N → Table N → Place → Outcome N
  found_or otherwise t (in_array i) = done t (in_array i)
  found_or otherwise t (in_node i) = done t (in_node i)
  found_or otherwise t out_of_fuel = stuck
  found_or otherwise t nilobject = otherwise

  -- luaH_set, whose call of newkey is `insert`
  unfoldable pub set_by : (Table N → Object N → Outcome N) → Table N → Option (Object N) → Outcome N
  unfolding get
  set_by insert t key = found_or (checked_key insert t key) t (get num str_hash t key)

  -- luaH_setnum
  unfoldable pub setnum_by : (Table N → Object N → Outcome N) → Table N → ℤ → Outcome N
  unfolding getnum
  setnum_by insert t k = found_or (insert t (number (num.of_int k))) t (getnum num str_hash t k)

  -- `setobj2t` at the place that a call gives
  abbrev pub store : Option (Object N) → Outcome N → Outcome N
  store o (done t p) = done (assign t p o) p
  store o index_nil = index_nil
  store o index_nan = index_nan
  store o overflow = overflow
  store o stuck = stuck

  -- what comes behind a call that returns
  abbrev pub after : Outcome N → (Table N → Outcome N) → Outcome N
  after (done t p) rest = rest t
  after index_nil rest = index_nil
  after index_nan rest = index_nan
  after overflow rest = overflow
  after stuck rest = stuck

  -- the elements of the array part that vanishes, `n` of them from `i` on
  unfoldable pub reinsert_array :
      (Table N → Object N → Outcome N) → (ℕ → Option (Object N)) → (n i : ℕ) → Table N → Outcome N
  unfolding setnum_by
  reinsert_array insert array zero i t = done t nilobject
  reinsert_array insert array (suc n) i t =
      if is_some (array i)
      then after (store (array i) (setnum_by insert t (pos (suc i))))
          (reinsert_array insert array n (suc i))
      else reinsert_array insert array n (suc i) t

  -- the nodes below `n`, the last first
  unfoldable pub reinsert_nodes :
      (Table N → Object N → Outcome N) → (ℕ → Node N) → ℕ → Table N → Outcome N
  unfolding set_by
  reinsert_nodes insert nodes zero t = done t nilobject
  reinsert_nodes insert nodes (suc n) t =
      if is_some (nodes n).val
      then after (store (nodes n).val (set_by insert t (nodes n).key))
          (reinsert_nodes insert nodes n)
      else reinsert_nodes insert nodes n t

  -- the array part shrinks, if it must
  unfoldable pub vanish : (Table N → Object N → Outcome N) → Table N → ℕ → Table N → Outcome N
  unfolding reinsert_array
  vanish insert t nasize fresh =
      if ltb nasize t.sizearray
      then reinsert_array insert t.array (t.sizearray - nasize) nasize
          (record fresh { sizearray = nasize })
      else done fresh nilobject

  -- the entries go into the new parts, where there are nodes
  abbrev pub refill : (Table N → Object N → Outcome N) → Table N → ℕ → Option (Table N) → Outcome N
  refill insert t nasize none = overflow
  refill insert t nasize (some fresh) =
      after (vanish insert t nasize fresh) (reinsert_nodes insert t.node (sizenode t))

  unfoldable pub resize :
      (Table N → Object N → Outcome N) → Table N → (nasize nhsize : ℕ) → Outcome N
  unfolding setarrayvector setnodevector vanish reinsert_nodes
  resize insert t nasize nhsize =
      refill insert t nasize
        (setnodevector (if ltb t.sizearray nasize then setarrayvector t nasize else t) nhsize)

  -- `luaO_log2(nhsize) + 1`
  abbrev pub log2_next : Option ℤ → Option ℕ
  log2_next none = none
  log2_next (some (pos l)) = some (l + 1)
  log2_next (some (negsuc l)) = some 0

  abbrev pub resize_to : (Table N → Object N → Outcome N) → Table N → ℕ → Option ℕ → Outcome N
  resize_to insert t nasize none = stuck
  resize_to insert t nasize (some lsize) = resize insert t nasize lsize

  abbrev pub resize_for : (Table N → Object N → Outcome N) → Table N → Option Sizes → Outcome N
  resize_for insert t none = stuck
  resize_for insert t (some s) = resize_to insert t s.narray (log2_next (log2 s.nhash))

  unfoldable pub rehash : (Table N → Object N → Outcome N) → Table N → Outcome N
  unfolding numuse resize log2
  rehash insert t = resize_for insert t (numuse num t)

  -- the new key's value becomes a boolean while the table grows, so that the key stays
  abbrev pub hold : Table N → ℕ → Table N
  hold t p = record t {
    node = write t.node p (record (t.node p) { val = some (boolean false) });
    firstfree = 0;
  }

  -- `depth` growths may nest.
  -- `correct firstfree`: a free node is left, or the table grows
  abbrev pub grow : (Table N → Object N → Outcome N) → Object N → Table N → ℕ → Option ℕ → Outcome N
  grow insert k t p (some free) = done (record t { firstfree = free }) (in_node p)
  grow insert k t p none =
      after (rehash insert (hold t p))
        (λ grown. let val = get num str_hash grown (some k) in done (assign grown val none) val)

  abbrev pub correct_firstfree : (Table N → Object N → Outcome N) → Object N → Placed N → Outcome N
  correct_firstfree insert k fault = stuck
  correct_firstfree insert k (placed t p) = grow insert k t p (next_free t.node t.firstfree)

  -- `depth` growths may nest.
  unfoldable pub newkey : ℕ → Table N → Object N → Outcome N
  unfolding place_key next_free rehash get
  newkey zero t k = stuck
  newkey (suc depth) t k = correct_firstfree (newkey depth) k (place_key num str_hash t k)

  unfoldable pub set : ℕ → Table N → Option (Object N) → Outcome N
  unfolding set_by newkey
  set depth t key = set_by (newkey depth) t key

  unfoldable pub setnum : ℕ → Table N → ℤ → Outcome N
  unfolding setnum_by newkey
  setnum depth t k = setnum_by (newkey depth) t k
