-- ===== src/Tables/Lookup.antt =====
-- lua/ltable.c: what a search along a chain finds.
use primemover.Prelude.{
  ℕ, zero, suc, ◌<◌, Bool, true, false, Option, none, some, if◌then◌else◌, ◌≡◌, ◌≢◌, inl, inr, refl,
  sym, ◌∙◌, ap, arith, Option-cases, Bool-cases,
}
use primemover.Tables.{Object, Node, Place, in_node, nilobject, in_array, out_of_fuel, find}
use primemover.Tables.Chains.{Chain, here, step, Linked}

module _ {N : Type 0} (test : Object N → Bool) where
  abbrev hits : Option (Object N) → Bool
  hits o = elim o [ none ↦ false | some k ↦ test k ]

  find_last :
      (fuel i : ℕ) (nodes : ℕ → Node N)
      → (nodes i).next ≡ none
      → find test nodes (suc fuel) i ≡ (if hits (nodes i).key then in_node i else nilobject)
  unfolding find
  find_last fuel i nodes e = rw (e, find) refl

  find_on :
      (fuel i : ℕ) (nodes : ℕ → Node N) {j : ℕ}
      → (nodes i).next ≡ some j
      → find test nodes (suc fuel) i
        ≡ (if hits (nodes i).key then in_node i else find test nodes fuel j)
  unfolding find
  find_on fuel i nodes e = rw (e, find) refl

  hits-some : (o : Option (Object N)) {a : Object N} → o ≡ some a → hits o ≡ test a
  hits-some o e = rw e refl

module _ {N : Type 0} {main : Object N → ℕ} {same : Object N → Object N → Bool} {size bound : ℕ}
    {nodes : ℕ → Node N} (l : Linked main same size bound nodes) (test : Object N → Bool) where
  -- A search that starts before the only key that passes its test finds it.
  pub find_present :
      (fuel : ℕ) {j : ℕ} {a : Object N} {i : ℕ}
      → (nodes j).key ≡ some a
      → test a ≡ true
      → ((i : ℕ) (b : Object N) → (nodes i).key ≡ some b → test b ≡ true → i ≡ j)
      → l.rank i < fuel
      → Chain nodes j i
      → find test nodes fuel i ≡ in_node j
  find_present zero at passes only h c = absurd (omega arith)
  find_present (suc fuel) {j = j} at passes only h here = elim (Option-cases (nodes j).next) [
    | inl e ↦ find_last test fuel j nodes e ∙ rw (hits-some test (nodes j).key at ∙ passes) refl
    | inr (x, e) ↦ find_on test fuel j nodes e ∙ rw (hits-some test (nodes j).key at ∙ passes) refl
  ]
  find_present (suc fuel) {j = j} at passes only h (step {i = i} {k = x} e c) =
      let later = find_present fuel at passes only (omega (arith, l.falls i x e)) c in
      find_on test fuel i nodes e ∙ elim (Option-cases (nodes i).key) [
        | inl u ↦ rw u later
        | inr (b, u) ↦ elim (Bool-cases (test b)) [
          | inl v ↦ rw (hits-some test (nodes i).key u ∙ v) (ap in_node (only i b u v))
          | inr v ↦ rw (hits-some test (nodes i).key u ∙ v) later
        ]
      ]

  -- Where no key passes the test, a search ends at luaO_nilobject.
  pub find_absent :
      (fuel i : ℕ)
      → ((i : ℕ) (b : Object N) → (nodes i).key ≡ some b → test b ≡ false)
      → l.rank i < fuel
      → find test nodes fuel i ≡ nilobject
  find_absent zero i none_passes h = absurd (omega arith)
  find_absent (suc fuel) i none_passes h = elim (Option-cases (nodes i).next) [
    | inl e ↦ find_last test fuel i nodes e ∙ rw miss refl
    | inr (x, e) ↦
        find_on test fuel i nodes e
        ∙ rw miss (find_absent fuel x none_passes (omega (arith, l.falls i x e)))
  ]
    where
      miss : hits test (nodes i).key ≡ false
      miss = elim (Option-cases (nodes i).key) [
        | inl u ↦ rw u refl
        | inr (b, u) ↦ hits-some test (nodes i).key u ∙ none_passes i b u
      ]

  -- With fuel for the rank of its start a search comes to an end.
  pub find-ends : (fuel i : ℕ) → l.rank i < fuel → find test nodes fuel i ≢ out_of_fuel
  find-ends zero i h e = omega arith
  find-ends (suc fuel) i h e = elim (Option-cases (nodes i).next) [
    | inl u ↦
        neither (hits test (nodes i).key) nilobject (λ v. cc)
          (sym (find_last test fuel i nodes u) ∙ e)
    | inr (x, u) ↦
        neither (hits test (nodes i).key) (find test nodes fuel x)
          (find-ends fuel x (omega (arith, l.falls i x u))) (sym (find_on test fuel i nodes u) ∙ e)
  ]
    where
      neither :
          (b : Bool) (q : Place) → q ≢ out_of_fuel → (if b then in_node i else q) ≡ out_of_fuel → ⊥
      neither true q h e = cc
      neither false q h e = h e

-- What a search finds passes its test.
abbrev pub Found : {N : Type 0} → (Object N → Bool) → (ℕ → Node N) → Place → Type 0
Found {N = N} test nodes (in_node j) = (a : Object N) × ((nodes j).key ≡ some a) × (test a ≡ true)
Found test nodes (in_array i) = ⊥
Found test nodes nilobject = Unit
Found test nodes out_of_fuel = Unit

if-Found :
    {N : Type 0} (test : Object N → Bool) (nodes : ℕ → Node N) (i : ℕ) (rest : Place)
    → Found test nodes rest
    → Found test nodes (if hits test (nodes i).key then in_node i else rest)
if-Found test nodes i rest h = elim (Option-cases (nodes i).key) [
  | inl u ↦ rw (u, Found) h
  | inr (a, u) ↦ elim (Bool-cases (test a)) [
    | inl v ↦ rw (hits-some test (nodes i).key u ∙ v, Found) (a, u, v)
    | inr v ↦ rw (hits-some test (nodes i).key u ∙ v, Found) h
  ]
]

pub find-Found :
    {N : Type 0} (test : Object N → Bool) (nodes : ℕ → Node N) (fuel i : ℕ)
    → Found test nodes (find test nodes fuel i)
unfolding find
find-Found test nodes zero i = tt
find-Found test nodes (suc fuel) i = elim (Option-cases (nodes i).next) [
  | inl e ↦ rw (find_last test fuel i nodes e) (if-Found test nodes i nilobject tt)
  | inr (x, e) ↦
      rw (find_on test fuel i nodes e) (if-Found test nodes i _ (find-Found test nodes fuel x))
]
