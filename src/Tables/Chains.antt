-- ===== src/Tables/Chains.antt =====
-- lua/ltable.c: the chains of the hash part, and how they change when a key is placed.
use primemover.Prelude.{
  ℕ, ◌≤◌, ◌<◌, Bool, true, false, none, some, ◌==◌, ◌≡◌, ◌≢◌, ◌⊎◌, inl, inr, sym, ◌∙◌, ap, arith,
  Bool-cases,
}
use primemover.Tables.{Object, Node}
use primemover.Tables.Insert.{set_key}

-- From `i` the links lead to `j`.
pub data Chain {N : Type 0} (nodes : ℕ → Node N) (j : ℕ) : ℕ → Type 0 where
  here : Chain nodes j j
  step : {i k : ℕ} → (nodes i).next ≡ some k → Chain nodes j k → Chain nodes j i

-- `rank` falls along each link, so that chains end; a node with a key is on the chain of its main
-- position, and what stands at a main position that is in use belongs there.
pub record Linked {N : Type 0} (main : Object N → ℕ) (same : Object N → Object N → Bool)
    (size bound : ℕ) (nodes : ℕ → Node N) : Type 0 where
  pub rank : ℕ → ℕ
  pub ranked : (i : ℕ) → rank i ≤ bound
  pub falls : (i j : ℕ) → (nodes i).next ≡ some j → rank j < rank i
  pub keyed : (i j : ℕ) → (nodes i).next ≡ some j → ((nodes i).key ≢ none) × ((nodes j).key ≢ none)
  pub single : (i j k : ℕ) → (nodes i).next ≡ some k → (nodes j).next ≡ some k → i ≡ j
  pub reach : (i : ℕ) (a : Object N) → (nodes i).key ≡ some a → Chain nodes i (main a)
  pub home :
      (i : ℕ) (a : Object N)
      → (nodes i).key ≡ some a
      → (b : Object N) × ((nodes (main a)).key ≡ some b) × (main b ≡ main a)
  pub unique :
      (i j : ℕ) (a b : Object N)
      → (nodes i).key ≡ some a
      → (nodes j).key ≡ some b
      → same a b ≡ true
      → i ≡ j
  pub empty : (i : ℕ) → (nodes i).key ≡ none → (nodes i).val ≡ none
  pub inside : (i : ℕ) → (nodes i).key ≢ none → i < size

pub index_cases : (i j : ℕ) → ((i ≡ j) × ((i == j) ≡ true)) ⊎ ((i ≢ j) × ((i == j) ≡ false))
index_cases i j = elim (Bool-cases (i == j)) [
  | inl e ↦ inl (ground arith, e)
  | inr e ↦ inr (ground arith, e)
]

pub Chain-map :
    {N : Type 0} (nodes nodes' : ℕ → Node N) {j i : ℕ}
    → ((k : ℕ) → (nodes' k).next ≡ (nodes k).next)
    → Chain nodes j i
    → Chain nodes' j i
Chain-map nodes nodes' h here = here
Chain-map nodes nodes' h (step {i = i} e c) = step (rw (h i) e) (Chain-map nodes nodes' h c)

pub clash : {b : Bool} → b ≡ true → b ≡ false → ⊥
clash h k = cc

-- Where a key stands after one has been written.
abbrev KeyAt : {N : Type 0} → (ℕ → Node N) → ℕ → Object N → ℕ → Object N → Type 0
KeyAt nodes p k i a = ((i ≡ p) × (a ≡ k)) ⊎ ((i ≢ p) × ((nodes i).key ≡ some a))

set_key-cases :
    {N : Type 0} (nodes : ℕ → Node N) (p : ℕ) (k : Object N) (i : ℕ) (a : Object N)
    → (set_key nodes p k i).key ≡ some a
    → KeyAt nodes p k i a
set_key-cases nodes p k i a h = elim (index_cases i p) [
  | inl e ↦ inl (e.0, ground arith)
  | inr e ↦ inr (e.0, ground arith)
]

module _ {N : Type 0} {main : Object N → ℕ} {same : Object N → Object N → Bool} {size bound : ℕ}
    {nodes : ℕ → Node N} (l : Linked main same size bound nodes) (k : Object N)
    (sym_same : (a b : Object N) → same a b ≡ true → same b a ≡ true)
    (absent : (i : ℕ) (a : Object N) → (nodes i).key ≡ some a → same a k ≡ false)
    (in_range : main k < size) where
  -- the key goes to its main position, which holds no value
  pub set_key-Linked :
      (nodes (main k)).val ≡ none → Linked main same size bound (set_key nodes (main k) k)
  set_key-Linked vacant = record {
    rank = l.rank;
    ranked = l.ranked;
    falls = λ i j h. l.falls i j (rw (next i) at h);
    keyed = λ i j h. let (hi, hj) = l.keyed i j (rw (next i) at h) in (still i hi, still j hj);
    single = λ i j m h h'. l.single i j m (rw (next i) at h) (rw (next j) at h');
    reach = reach;
    home = home;
    unique = unique;
    empty = empty;
    inside = inside;
  }
    where
      next : (i : ℕ) → (set_key nodes (main k) k i).next ≡ (nodes i).next
      next i = ground arith

      still : (i : ℕ) → (nodes i).key ≢ none → (set_key nodes (main k) k i).key ≢ none
      still i h = ground arith

      reach :
          (i : ℕ) (a : Object N)
          → (set_key nodes (main k) k i).key ≡ some a
          → Chain (set_key nodes (main k) k) i (main a)
      reach i a h = elim (set_key-cases nodes (main k) k i a h) [
        | inl e ↦ rw (e.0, e.1) here
        | inr e ↦ Chain-map nodes (set_key nodes (main k) k) next (l.reach i a e.1)
      ]

      home :
          (i : ℕ) (a : Object N)
          → (set_key nodes (main k) k i).key ≡ some a
          → (b : Object N) × ((set_key nodes (main k) k (main a)).key ≡ some b) × (main b ≡ main a)
      home i a h = elim (index_cases (main a) (main k)) [
        | inl e ↦ (k, ground arith, sym e.0)
        | inr e ↦ elim (set_key-cases nodes (main k) k i a h) [
          | inl e' ↦ absurd (e.0 (ap main e'.1))
          | inr e' ↦ let (b, found, own) = l.home i a e'.1 in (b, ground arith, own)
        ]
      ]

      unique :
          (i j : ℕ) (a b : Object N)
          → (set_key nodes (main k) k i).key ≡ some a
          → (set_key nodes (main k) k j).key ≡ some b
          → same a b ≡ true
          → i ≡ j
      unique i j a b h h' e = elim (set_key-cases nodes (main k) k i a h) [
        | inl ei ↦ elim (set_key-cases nodes (main k) k j b h') [
          | inl ej ↦ ei.0 ∙ sym ej.0
          | inr ej ↦ let no = absent j b ej.1 in absurd (clash (rw ei.1 at (sym_same a b e)) no)
        ]
        | inr ei ↦ elim (set_key-cases nodes (main k) k j b h') [
          | inl ej ↦ let no = absent i a ei.1 in absurd (clash (rw ej.1 at e) no)
          | inr ej ↦ l.unique i j a b ei.1 ej.1 e
        ]
      ]

      empty :
          (i : ℕ)
          → (set_key nodes (main k) k i).key ≡ none
          → (set_key nodes (main k) k i).val ≡ none
      empty i h = elim (index_cases i (main k)) [
        | inl e ↦ ground arith
        | inr e ↦ let old = l.empty i in ground arith
      ]

      inside : (i : ℕ) → (set_key nodes (main k) k i).key ≢ none → i < size
      inside i h = elim (index_cases i (main k)) [
        | inl e ↦ rw (e.0) in_range
        | inr e ↦ l.inside i (λ n. h (ground arith))
      ]
