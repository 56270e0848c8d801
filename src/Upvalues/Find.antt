-- ===== src/Upvalues/Find.antt =====
-- lua/lfunc.c: luaF_findupval gives all who ask for a slot one upvalue.
use primemover.Prelude.{
  ℕ, ◌+◌, ◌<◌, true, false, Option, none, some, List, [], ◌∷◌, leb, ◌==◌, ◌≡◌, ◌≢◌, ◌⊎◌, inl, inr,
  refl, sym, ◌∙◌, ap, arith, Bool-cases,
}
use primemover.Upvalues.{
  OpenUpval, Upvalues, level_of, value_at, read_upval, find_open, found_upval, findupval,
}
use primemover.Upvalues.Close.{level_of-own, level_of-other, Descends}

clash_some : {a : ℕ} {o : Option ℕ} → o ≡ some a → o ≡ none → ⊥
clash_some h k = cc

some-inj : {x y : ℕ} → some x ≡ some y → x ≡ y
some-inj h = cc

-- Three ways of a turn of the search.
find_open-on :
    (level new : ℕ) (p : OpenUpval) (ps : List OpenUpval)
    → leb level p.level ≡ true
    → (p.level == level) ≡ false
    → find_open level new (p ∷ ps) ≡ (p ∷ (find_open level new ps).0, (find_open level new ps).1)
unfolding find_open
find_open-on level new p ps h k = rw h (rw k refl)

find_open-found :
    (level new : ℕ) (p : OpenUpval) (ps : List OpenUpval)
    → leb level p.level ≡ true
    → (p.level == level) ≡ true
    → find_open level new (p ∷ ps) ≡ (p ∷ ps, some p.address)
unfolding find_open
find_open-found level new p ps h k = rw h (rw k refl)

find_open-here :
    (level new : ℕ) (p : OpenUpval) (ps : List OpenUpval)
    → leb level p.level ≡ false
    → find_open level new (p ∷ ps) ≡ (record { address = new; level = level } ∷ p ∷ ps, none)
unfolding find_open
find_open-here level new p ps h = rw h refl

own_level : (level : ℕ) → (leb level level ≡ true) × ((level == level) ≡ true)
own_level level = (ground arith, ground arith)

-- What is put into the list is found there.
find_open-again :
    (level new other : ℕ) (ps : List OpenUpval)
    → (find_open level new ps).1 ≡ none
    → (find_open level other (find_open level new ps).0).1 ≡ some new
unfolding find_open
find_open-again level new other [] h =
    let (low, same) = own_level level in
    ap (λ (x : List OpenUpval × Option ℕ). x.1)
      (find_open-found level other (record { address = new; level = level }) [] low same)
find_open-again level new other (p ∷ ps) h = elim (Bool-cases (leb level p.level)) [
  | inr u ↦
      let (low, same) = own_level level in
      ap (λ (x : List OpenUpval × Option ℕ). (find_open level other x.0).1)
        (find_open-here level new p ps u)
      ∙ ap (λ (x : List OpenUpval × Option ℕ). x.1)
          (find_open-found level other (record { address = new; level = level }) (p ∷ ps) low same)
  | inl u ↦ elim (Bool-cases (p.level == level)) [
    | inl v ↦ absurd (
        clash_some
          (ap (λ (x : List OpenUpval × Option ℕ). x.1) (find_open-found level new p ps u v)) h)
    | inr v ↦
        ap (λ (x : List OpenUpval × Option ℕ). (find_open level other x.0).1)
          (find_open-on level new p ps u v)
        ∙ ap (λ (x : List OpenUpval × Option ℕ). x.1)
            (find_open-on level other p (find_open level new ps).0 u v)
        ∙ find_open-again level new other ps (
            sym (ap (λ (x : List OpenUpval × Option ℕ). x.1) (find_open-on level new p ps u v)) ∙ h)
  ]
]

-- The other upvalues keep their slots.
find_open-others :
    (level new : ℕ) (ps : List OpenUpval) (a : ℕ)
    → a ≢ new
    → level_of (find_open level new ps).0 a ≡ level_of ps a
unfolding find_open
find_open-others level new [] a h =
    level_of-other (record { address = new; level = level }) [] a (ground arith)
find_open-others level new (p ∷ ps) a h = elim (Bool-cases (leb level p.level)) [
  | inr u ↦
      ap (λ (x : List OpenUpval × Option ℕ). level_of x.0 a) (find_open-here level new p ps u)
      ∙ level_of-other (record { address = new; level = level }) (p ∷ ps) a (ground arith)
  | inl u ↦ elim (Bool-cases (p.level == level)) [
    | inl v ↦
        ap (λ (x : List OpenUpval × Option ℕ). level_of x.0 a) (find_open-found level new p ps u v)
    | inr v ↦
        ap (λ (x : List OpenUpval × Option ℕ). level_of x.0 a) (find_open-on level new p ps u v)
        ∙ under p ps (find_open level new ps).0 (find_open-others level new ps a h)
  ]
]
  where
    under :
        (p : OpenUpval) (ps qs : List OpenUpval)
        → level_of qs a ≡ level_of ps a
        → level_of (p ∷ qs) a ≡ level_of (p ∷ ps) a
    under p ps qs e = elim (Bool-cases (a == p.address)) [
      | inl u ↦ level_of-own p qs a u ∙ sym (level_of-own p ps a u)
      | inr u ↦ level_of-other p qs a u ∙ e ∙ sym (level_of-other p ps a u)
    ]

apart_address :
    (p : OpenUpval) (ps : List OpenUpval) (a level : ℕ)
    → level_of ps p.address ≡ none
    → level_of ps a ≡ some level
    → (a == p.address) ≡ false
apart_address p ps a level once e = elim (Bool-cases (a == p.address)) [
  | inr u ↦ u
  | inl u ↦
      let same : a ≡ p.address = ground arith in
      absurd (clash_some e (ap (level_of ps) same ∙ once))
]

-- What the search finds is the upvalue of the slot.
find_open-slot :
    (level new bound a : ℕ) (ps : List OpenUpval)
    → Descends bound ps
    → (find_open level new ps).1 ≡ some a
    → level_of ps a ≡ some level
unfolding find_open
find_open-slot level new bound a [] d h = absurd cc
find_open-slot level new bound a (p ∷ ps) (low, once, rest) h =
    elim (Bool-cases (leb level p.level)) [
      | inr u ↦ absurd (
          clash_some
            (sym (ap (λ (x : List OpenUpval × Option ℕ). x.1) (find_open-here level new p ps u))
              ∙ h)
            refl)
      | inl u ↦ elim (Bool-cases (p.level == level)) [
        | inl v ↦
            let same : p.address ≡ a = some-inj (
              sym (ap (λ (x : List OpenUpval × Option ℕ). x.1) (find_open-found level new p ps u v))
              ∙ h) in
            level_of-own p ps a (ground arith) ∙ ap some (ground arith)
        | inr v ↦
            let later = find_open-slot level new p.level a ps rest (
              sym (ap (λ (x : List OpenUpval × Option ℕ). x.1) (find_open-on level new p ps u v))
              ∙ h) in
            level_of-other p ps a (apart_address p ps a level once later) ∙ later
      ]
    ]

-- A new upvalue is that of the slot.
find_open-new :
    (level new bound : ℕ) (ps : List OpenUpval)
    → Descends bound ps
    → level_of ps new ≡ none
    → (find_open level new ps).1 ≡ none
    → level_of (find_open level new ps).0 new ≡ some level
unfolding find_open
find_open-new level new bound [] d free h =
    level_of-own (record { address = new; level = level }) [] new (ground arith)
find_open-new level new bound (p ∷ ps) (low, once, rest) free h =
    elim (Bool-cases (leb level p.level)) [
      | inr u ↦
          ap (λ (x : List OpenUpval × Option ℕ). level_of x.0 new) (find_open-here level new p ps u)
          ∙ level_of-own (record { address = new; level = level }) (p ∷ ps) new (ground arith)
      | inl u ↦ elim (Bool-cases (p.level == level)) [
        | inl v ↦ absurd (
            clash_some
              (ap (λ (x : List OpenUpval × Option ℕ). x.1) (find_open-found level new p ps u v)) h)
        | inr v ↦ elim (Bool-cases (new == p.address)) [
          | inl w ↦ absurd (clash_some (level_of-own p ps new w) free)
          | inr w ↦
              ap (λ (x : List OpenUpval × Option ℕ). level_of x.0 new)
                (find_open-on level new p ps u v)
              ∙ level_of-other p (find_open level new ps).0 new w
              ∙ find_open-new level new p.level ps rest (sym (level_of-other p ps new w) ∙ free) (
                  sym
                    (ap (λ (x : List OpenUpval × Option ℕ). x.1) (find_open-on level new p ps u v))
                  ∙ h)
        ]
      ]
    ]

module _ {V : Type 0} where
  findupval_cases :
      (s : Upvalues V) (level : ℕ)
      → ((a : ℕ) × ((find_open level s.fresh s.openupval).1 ≡ some a)
          × (findupval s level ≡ (s, a)))
        ⊎ (((find_open level s.fresh s.openupval).1 ≡ none)
            × (findupval s level ≡ (
              record s { openupval = (find_open level s.fresh s.openupval).0; fresh = s.fresh + 1 },
              s.fresh,
            )))
  unfolding findupval
  findupval_cases s level = of_result (find_open level s.fresh s.openupval)
    where
      of_result :
          (r : List OpenUpval × Option ℕ)
          → ((a : ℕ) × (r.1 ≡ some a) × (found_upval s r ≡ (s, a)))
            ⊎ ((r.1 ≡ none)
                × (found_upval s r ≡ (record s { openupval = r.0; fresh = s.fresh + 1 }, s.fresh)))
      of_result (ps, some a) = inl (a, refl, refl)
      of_result (ps, none) = inr (refl, refl)

  -- A second closure that captures a slot gets the upvalue that the first one got, and nothing
  -- changes.
  pub findupval_again :
      (s : Upvalues V) (level : ℕ) → findupval (findupval s level).0 level ≡ findupval s level
  findupval_again s level = elim (findupval_cases s level) [
    | inl (a, h, e) ↦ ap (λ (x : Upvalues V × ℕ). findupval x.0 level) e
    | inr (h, e) ↦
        let later : Upvalues V = record s {
          openupval = (find_open level s.fresh s.openupval).0;
          fresh = s.fresh + 1;
        } in
        let again = find_open-again level s.fresh (s.fresh + 1) s.openupval h in
        ap (λ (x : Upvalues V × ℕ). findupval x.0 level) e
        ∙ elim (findupval_cases later level) [
          | inl (a, h', e') ↦ e' ∙ ap (λ (x : ℕ). (later, x)) (some-inj (sym h' ∙ again))
          | inr (h', e') ↦ absurd (clash_some again h')
        ]
        ∙ sym e
  ]

  -- luaF_findupval leaves what the upvalues in use read.
  pub findupval-read_upval :
      (s : Upvalues V) (level a : ℕ)
      → a < s.fresh
      → read_upval (findupval s level).0 a ≡ read_upval s a
  unfolding read_upval
  findupval-read_upval s level a h = elim (findupval_cases s level) [
    | inl (b, h', e) ↦ ap (λ (x : Upvalues V × ℕ). read_upval x.0 a) e
    | inr (h', e) ↦
        ap (λ (x : Upvalues V × ℕ). read_upval x.0 a) e
        ∙ ap (value_at s.stack s.value a)
            (find_open-others level s.fresh s.openupval a (λ u. omega arith))
  ]

  -- The upvalue that luaF_findupval returns reads the slot.
  pub findupval-slot :
      (s : Upvalues V) (level bound : ℕ)
      → Descends bound s.openupval
      → level_of s.openupval s.fresh ≡ none
      → read_upval (findupval s level).0 (findupval s level).1 ≡ s.stack level
  unfolding read_upval
  findupval-slot s level bound d free = elim (findupval_cases s level) [
    | inl (b, h, e) ↦
        ap (λ (x : Upvalues V × ℕ). read_upval x.0 x.1) e
        ∙ ap (value_at s.stack s.value b) (find_open-slot level s.fresh bound b s.openupval d h)
    | inr (h, e) ↦
        ap (λ (x : Upvalues V × ℕ). read_upval x.0 x.1) e
        ∙ ap (value_at s.stack s.value s.fresh)
            (find_open-new level s.fresh bound s.openupval d free h)
  ]
