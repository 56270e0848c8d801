-- ===== src/Tables/Insert.antt =====
-- lua/ltable.c: `newkey` up to the growth of the table: Brent's variation, in which a colliding node
-- that is out of its main position makes room.
use primemover.Prelude.{ℕ, zero, suc, Option, none, some, ◌==◌, if◌then◌else◌}
use primemover.Tables.{Numbers, Object, Node, Table, sizenode, write, is_some, mainposition}

-- A table with the node of the new key, or a fault: a chain that ends before it reaches `mp`.
pub data Placed (N : Type 0) : Type 0 where
  placed : Table N → ℕ → Placed N
  fault : Placed N

module _ {N : Type 0} where
  -- `while (othern->next != mp) othern = othern->next`, on fuel
  unfoldable pub previous : ℕ → (ℕ → Node N) → ℕ → ℕ → Option ℕ
  previous zero nodes mp i = none
  previous (suc fuel) nodes mp i = elim (nodes i).next [
    | none ↦ none
    | some j ↦ let rest = previous fuel nodes mp j in if j == mp then some i else rest
  ]

  -- `if (ttisnil(gkey(t->firstfree))) ... else (t->firstfree)--`, down to the first node
  unfoldable pub next_free : (ℕ → Node N) → ℕ → Option ℕ
  next_free nodes zero = if is_some (nodes zero).key then none else some zero
  next_free nodes (suc i) =
      let rest = next_free nodes i in if is_some (nodes (suc i)).key then rest else some (suc i)

  abbrev pub set_key : (ℕ → Node N) → ℕ → Object N → ℕ → Node N
  set_key nodes i k = write nodes i (record (nodes i) { key = some k })

  -- the colliding node at `mp` moves to `n`; `prev` led to it
  unfoldable pub move_node : (ℕ → Node N) → (prev mp n : ℕ) → ℕ → Node N
  move_node nodes prev mp n =
      let nodes = write nodes prev (record (nodes prev) { next = some n }) in
      let nodes = write nodes n (nodes mp) in
      write nodes mp (record (nodes mp) { next = none; val = none })

  -- the node `n` behind `mp` in its chain
  unfoldable pub link_node : (ℕ → Node N) → (mp n : ℕ) → ℕ → Node N
  link_node nodes mp n =
      let nodes = write nodes n (record (nodes n) { next = (nodes mp).next }) in
      write nodes mp (record (nodes mp) { next = some n })

module _ {N : Type 0} (num : Numbers N) (str_hash : ℕ → ℕ) where
  -- The key of the colliding node is `k'`.
  unfoldable pub collide : Table N → ℕ → Object N → Object N → Placed N
  unfolding previous mainposition link_node move_node
  collide t mp k' k =
      let othern = mainposition num str_hash t.lsizenode k' in
      let n = t.firstfree in
      if othern == mp
      then placed (record t { node = set_key (link_node t.node mp n) n k }) n
      else elim (previous (suc (sizenode t)) t.node mp othern) [
        | none ↦ fault
        | some prev ↦ placed (record t { node = set_key (move_node t.node prev mp n) mp k }) mp
      ]

  unfoldable pub place_key : Table N → Object N → Placed N
  unfolding collide mainposition
  place_key t k =
      let mp = mainposition num str_hash t.lsizenode k in
      if is_some (t.node mp).val
      then elim (t.node mp).key [ none ↦ fault | some k' ↦ collide t mp k' k ]
      else placed (record t { node = set_key t.node mp k }) mp
