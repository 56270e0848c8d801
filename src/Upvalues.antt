-- ===== src/Upvalues.antt =====
-- lua/lfunc.c: the variables that closures share. An UpVal is known by its address. While it is open,
-- its `v` is a slot of the stack, and it is in the list of the open ones; then `v` is its own `value`.
pub mod Close
pub mod Find
mod Tests
use primemover.Prelude.{
  ℕ, zero, suc, ◌+◌, Bool, true, false, Option, none, some, List, [], ◌∷◌, ltb, leb, ◌==◌,
  if◌then◌else◌,
}

pub record OpenUpval : Type 0 where
  pub address : ℕ
  pub level : ℕ

-- The parts of a lua_State that upvalues touch. `fresh` is the address that memory gives next.
pub record Upvalues (V : Type 0) : Type 0 where
  pub stack : ℕ → V
  pub openupval : List OpenUpval
  pub value : ℕ → V
  pub fresh : ℕ

-- The slot of an upvalue, if it is open.
unfoldable pub level_of : List OpenUpval → ℕ → Option ℕ
level_of [] a = none
level_of (p ∷ ps) a = let rest = level_of ps a in if a == p.address then some p.level else rest

-- the search of luaF_findupval: the upvalue of the slot, or the list with `new` in its place
unfoldable pub find_open : ℕ → ℕ → List OpenUpval → List OpenUpval × Option ℕ
find_open level new [] = (record { address = new; level = level } ∷ [], none)
find_open level new (p ∷ ps) =
    let rest = find_open level new ps in
    if leb level p.level
    then if p.level == level then (p ∷ ps, some p.address) else (p ∷ rest.0, rest.1)
    else (record { address = new; level = level } ∷ p ∷ ps, none)

module _ {V : Type 0} where
  abbrev pub value_at : (ℕ → V) → (ℕ → V) → ℕ → Option ℕ → V
  value_at stack value a none = value a
  value_at stack value a (some level) = stack level

  -- `*p->v`
  unfoldable pub read_upval : Upvalues V → ℕ → V
  unfolding level_of
  read_upval s a = value_at s.stack s.value a (level_of s.openupval a)

  abbrev pub save_value : (ℕ → V) → ℕ → V → ℕ → V
  save_value value a v b = if b == a then v else value b

  -- the loop of luaF_close
  unfoldable pub close_open : ℕ → (ℕ → V) → List OpenUpval → (ℕ → V) → List OpenUpval × (ℕ → V)
  close_open level stack [] value = ([], value)
  close_open level stack (p ∷ ps) value =
      let rest = close_open level stack ps (save_value value p.address (stack p.level)) in
      if leb level p.level then rest else (p ∷ ps, value)

  -- luaF_close
  unfoldable pub close : Upvalues V → ℕ → Upvalues V
  unfolding close_open
  close s level =
      let r = close_open level s.stack s.openupval s.value in
      record s { openupval = r.0; value = r.1 }

  abbrev pub found_upval : Upvalues V → List OpenUpval × Option ℕ → Upvalues V × ℕ
  found_upval s (ps, some a) = (s, a)
  found_upval s (ps, none) = (record s { openupval = ps; fresh = s.fresh + 1 }, s.fresh)

  -- luaF_findupval
  unfoldable pub findupval : Upvalues V → ℕ → Upvalues V × ℕ
  unfolding find_open
  findupval s level = found_upval s (find_open level s.fresh s.openupval)
