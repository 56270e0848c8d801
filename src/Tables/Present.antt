-- ===== src/Tables/Present.antt =====
-- lua/ltable.c: a search in a hash part that is linked properly.
use primemover.Prelude.{
  ℕ, suc, ◌≤◌, Bool, true, false, some, ◌≡◌, ◌≢◌, ◌⊎◌, inl, inr, refl, sym, ◌∙◌, arith, Bool-cases,
}
use primemover.Tables.{
  Numbers, Object, Table, Place, in_node, in_array, nilobject, out_of_fuel, find, raw_equal,
  mainposition, getany, sizenode,
}
use primemover.Tables.Chains.{Chain, Linked}
use primemover.Tables.Lookup.{find_present, find-Found, find-ends, Found}
use primemover.Tables.Equal.{IsLawful, raw_equal-sym, raw_equal_trans, mainposition-raw_equal}

module _ {N : Type 0} (num : Numbers N) (str_hash : ℕ → ℕ) (laws : IsLawful num) where
  abbrev pub main : Table N → Object N → ℕ
  main t k = mainposition num str_hash t.lsizenode k

  abbrev pub Links : Table N → ℕ → Type 0
  Links t bound =
      Linked (mainposition num str_hash t.lsizenode) (raw_equal num) (sizenode t) bound t.node

  getany-some :
      (t : Table N) (k : Object N)
      → getany num str_hash t (some k)
        ≡ find (λ k'. raw_equal num k' k) t.node (suc (sizenode t)) (main t k)
  unfolding getany
  getany-some t k = refl

  abbrev pub Absent : Table N → Object N → Type 0
  Absent t k = (i : ℕ) (a : Object N) → (t.node i).key ≡ some a → raw_equal num a k ≡ false

  pub lookup_present :
      (t : Table N) (k : Object N) (bound : ℕ)
      → (l : Links t bound) → bound ≤ sizenode t
      → (j : ℕ) (a : Object N) → (t.node j).key ≡ some a
      → raw_equal num a k ≡ true
      → getany num str_hash t (some k) ≡ in_node j
  lookup_present t k bound l small j a at h =
      getany-some t k
      ∙ find_present l (λ k'. raw_equal num k' k) (suc (sizenode t)) at h only
          (omega (arith, l.ranked (main t k))) chain
    where
      only : (i : ℕ) (b : Object N) → (t.node i).key ≡ some b → raw_equal num b k ≡ true → i ≡ j
      only i b at' h' =
          l.unique i j b a at' at (raw_equal_trans num laws b k a h' (raw_equal-sym num laws a k h))

      chain : Chain t.node j (main t k)
      chain = rw (mainposition-raw_equal num str_hash laws t.lsizenode a k h) at (l.reach j a at)

  -- A search finds the node with an equal key, or there is none.
  pub lookup_cases :
      (t : Table N) (k : Object N) (bound : ℕ)
      → (l : Links t bound) → bound ≤ sizenode t
      → ((j : ℕ) × (a : Object N) × ((t.node j).key ≡ some a)
          × (raw_equal num a k ≡ true)
          × (getany num str_hash t (some k) ≡ in_node j))
        ⊎ (Absent t k × (getany num str_hash t (some k) ≡ nilobject))
  lookup_cases t k bound l small =
      cases (getany num str_hash t (some k)) refl
        (rw (getany-some t k) (find-Found test t.node (suc (sizenode t)) (main t k)))
        (λ e.
          find-ends l test (suc (sizenode t)) (main t k) (omega (arith, l.ranked (main t k)))
            (sym (getany-some t k) ∙ e))
    where
      test : Object N → Bool
      test k' = raw_equal num k' k

      missing : getany num str_hash t (some k) ≡ nilobject → Absent t k
      missing e i a at = elim (Bool-cases (raw_equal num a k)) [
        | inl h ↦ absurd (apart (sym (lookup_present t k bound l small i a at h) ∙ e))
        | inr h ↦ h
      ]
        where
          apart : {j : ℕ} → in_node j ≢ nilobject
          apart h = cc

      cases :
          (q : Place)
          → getany num str_hash t (some k) ≡ q
          → Found test t.node q
          → q ≢ out_of_fuel
          → ((j : ℕ) × (a : Object N) × ((t.node j).key ≡ some a)
              × (raw_equal num a k ≡ true)
              × (getany num str_hash t (some k) ≡ in_node j))
            ⊎ (Absent t k × (getany num str_hash t (some k) ≡ nilobject))
      cases (in_node j) e (a, at, h) ends = inl (j, a, at, h, e)
      cases (in_array i) e found ends = elim found [ ]
      cases nilobject e found ends = inr (missing e, e)
      cases out_of_fuel e found ends = absurd (ends refl)

  pub missing-Absent :
      (t : Table N) (k : Object N) (bound : ℕ)
      → (l : Links t bound) → bound ≤ sizenode t
      → getany num str_hash t (some k) ≡ nilobject
      → Absent t k
  missing-Absent t k bound l small e = elim (lookup_cases t k bound l small) [
    | inl (j, a, at, h, e') ↦ absurd (apart (sym e' ∙ e))
    | inr h ↦ h.0
  ]
    where
      apart : {j : ℕ} → in_node j ≢ nilobject
      apart h = cc
