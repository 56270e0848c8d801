-- ===== src/Upvalues/Close.antt =====
-- lua/lfunc.c: luaF_close takes upvalues off the stack.
use primemover.Prelude.{
  ℕ, ◌<◌, true, false, Option, none, some, List, [], ◌∷◌, leb, ◌==◌, ◌≡◌, inl, inr, refl, sym, ◌∙◌,
  ap, arith, Bool-cases,
}
use primemover.Upvalues.{
  OpenUpval, Upvalues, level_of, value_at, read_upval, save_value, close_open, close,
}

-- The open upvalues stand in the order of their slots, the highest first, below `bound`; one has one
-- place in the list.
abbrev pub Descends : ℕ → List OpenUpval → Type 0
Descends bound [] = Unit
Descends bound (p ∷ ps) = (p.level < bound) × (level_of ps p.address ≡ none) × Descends p.level ps

pub level_of-own :
    (p : OpenUpval) (ps : List OpenUpval) (a : ℕ)
    → (a == p.address) ≡ true
    → level_of (p ∷ ps) a ≡ some p.level
unfolding level_of
level_of-own p ps a e = rw e refl

pub level_of-other :
    (p : OpenUpval) (ps : List OpenUpval) (a : ℕ)
    → (a == p.address) ≡ false
    → level_of (p ∷ ps) a ≡ level_of ps a
unfolding level_of
level_of-other p ps a e = rw e refl

level_of-below :
    (bound : ℕ) (ps : List OpenUpval) (a level : ℕ)
    → Descends bound ps
    → level_of ps a ≡ some level
    → level < bound
unfolding level_of
level_of-below bound [] a level h e = absurd (nowhere a e)
  where
    nowhere : (a : ℕ) → level_of [] a ≡ some level → ⊥
    nowhere a e = cc
level_of-below bound (p ∷ ps) a level (low, once, rest) e = elim (Bool-cases (a == p.address)) [
  | inl u ↦ let same : p.level ≡ level = some-inj (sym (level_of-own p ps a u) ∙ e) in omega arith
  | inr u ↦
      omega (arith, level_of-below p.level ps a level rest (sym (level_of-other p ps a u) ∙ e))
]
  where
    some-inj : {x y : ℕ} → some x ≡ some y → x ≡ y
    some-inj h = cc

module _ {V : Type 0} where
  -- What an upvalue reads, with the list and the values given.
  abbrev reads : (ℕ → V) → (ℕ → V) → List OpenUpval → ℕ → V
  reads stack value ps a = value_at stack value a (level_of ps a)

  other_value :
      (stack value : ℕ → V) (b a : ℕ) (v : V) (o : Option ℕ)
      → (a == b) ≡ false
      → value_at stack (save_value value b v) a o ≡ value_at stack value a o
  other_value stack value b a v none e = rw e refl
  other_value stack value b a v (some level) e = refl

  -- An upvalue that leaves the list reads what it read.
  head-reads :
      (stack value : ℕ → V) (p : OpenUpval) (ps : List OpenUpval) (a : ℕ)
      → level_of ps p.address ≡ none
      → reads stack (save_value value p.address (stack p.level)) ps a ≡ reads stack value (p ∷ ps) a
  head-reads stack value p ps a once = elim (Bool-cases (a == p.address)) [
    | inl e ↦
        let same : a ≡ p.address = ground arith in
        ap (value_at stack (save_value value p.address (stack p.level)) a)
          (ap (level_of ps) same ∙ once)
        ∙ saved e
        ∙ ap (value_at stack value a) (sym (own e))
    | inr e ↦
        other_value stack value p.address a (stack p.level) (level_of ps a) e
        ∙ ap (value_at stack value a) (sym (others e))
  ]
    where
      saved : (a == p.address) ≡ true → save_value value p.address (stack p.level) a ≡ stack p.level
      saved e = rw e refl

      own : (a == p.address) ≡ true → level_of (p ∷ ps) a ≡ some p.level
      own e = level_of-own p ps a e

      others : (a == p.address) ≡ false → level_of (p ∷ ps) a ≡ level_of ps a
      others e = level_of-other p ps a e

  close_open-reads :
      (level bound : ℕ) (stack value : ℕ → V) (ps : List OpenUpval) (a : ℕ)
      → Descends bound ps
      → reads stack (close_open level stack ps value).1 (close_open level stack ps value).0 a
        ≡ reads stack value ps a
  unfolding close_open level_of
  close_open-reads level bound stack value [] a h = refl
  close_open-reads level bound stack value (p ∷ ps) a (low, once, rest) =
      elim (Bool-cases (leb level p.level)) [
        | inr u ↦ rw u refl
        | inl u ↦ rw u (
            close_open-reads level p.level stack (save_value value p.address (stack p.level)) ps a
              rest
            ∙ head-reads stack value p ps a once)
      ]

  -- What stays open is below the level.
  close_open-Descends :
      (level bound : ℕ) (stack value : ℕ → V) (ps : List OpenUpval)
      → Descends bound ps
      → Descends level (close_open level stack ps value).0
  unfolding close_open
  close_open-Descends level bound stack value [] h = tt
  close_open-Descends level bound stack value (p ∷ ps) (low, once, rest) =
      elim (Bool-cases (leb level p.level)) [
        | inl u ↦ rw u (
            close_open-Descends level p.level stack (save_value value p.address (stack p.level)) ps
              rest)
        | inr u ↦ rw u (ground arith, once, rest)
      ]

  stack_below :
      (level : ℕ) (stack stack' value : ℕ → V) (a : ℕ) (o : Option ℕ)
      → ((i : ℕ) → i < level → stack' i ≡ stack i)
      → ((l : ℕ) → o ≡ some l → l < level)
      → value_at stack' value a o ≡ value_at stack value a o
  stack_below level stack stack' value a none same low = refl
  stack_below level stack stack' value a (some l) same low = same l (low l refl)

  -- Behind luaF_close every upvalue reads what it read, and goes on to do so whatever comes to the
  -- stack from the level on.
  pub close-read_upval :
      (s : Upvalues V) (level bound : ℕ) (stack : ℕ → V) (a : ℕ)
      → Descends bound s.openupval
      → ((i : ℕ) → i < level → stack i ≡ s.stack i)
      → read_upval (record (close s level) { stack = stack }) a ≡ read_upval s a
  unfolding close read_upval
  close-read_upval s level bound stack a h same =
      stack_below level s.stack stack (close_open level s.stack s.openupval s.value).1 a
        (level_of (close_open level s.stack s.openupval s.value).0 a) same
        (λ l e.
          level_of-below level (close_open level s.stack s.openupval s.value).0 a l
            (close_open-Descends level bound s.stack s.value s.openupval h) e)
      ∙ close_open-reads level bound s.stack s.value s.openupval a h
