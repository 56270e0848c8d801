-- ===== src/Tables/Links.antt =====
-- lua/ltable.c: a node linked behind another, and a colliding node moved away.
use primemover.Prelude.{
  ℕ, ◌+◌, ◌<◌, Bool, true, false, Option, none, some, ◌==◌, leb, if◌then◌else◌, ◌≡◌, ◌≢◌, ◌⊎◌, inl,
  inr, sym, ◌∙◌, arith,
}
use primemover.Tables.{Object, Node}
use primemover.Tables.Insert.{set_key, link_node}
use primemover.Tables.Chains.{Chain, here, step, Linked, index_cases, clash}

pub clash_some {ℓ} : {A : Type ℓ} {o : Option A} {a : A} → o ≡ some a → o ≡ none → ⊥
clash_some h k = cc

module _ {N : Type 0} {main : Object N → ℕ} {same : Object N → Object N → Bool} {size bound : ℕ}
    {nodes : ℕ → Node N} (l : Linked main same size bound nodes) (k : Object N)
    (sym_same : (a b : Object N) → same a b ≡ true → same b a ≡ true)
    (absent : (i : ℕ) (a : Object N) → (nodes i).key ≡ some a → same a k ≡ false) (mp n : ℕ)
    (n_inside : n < size) (n_free : (nodes n).key ≡ none) where
  unfoldable pub linked : ℕ → Node N
  unfolding link_node
  linked = set_key (link_node nodes mp n) n k

  used_apart : (nodes mp).key ≢ none → mp ≢ n
  used_apart h e = h (rw e n_free)

  pub linked-key_cases :
      (i : ℕ) (a : Object N)
      → (linked i).key ≡ some a
      → ((i ≡ n) × (a ≡ k)) ⊎ ((i ≢ n) × ((nodes i).key ≡ some a))
  unfolding linked
  linked-key_cases i a h = elim (index_cases i n) [
    | inl e ↦ inl (e.0, ground arith)
    | inr e ↦ inr (e.0, ground arith)
  ]

  pub linked-key_self : (linked n).key ≡ some k
  unfolding linked
  linked-key_self = ground arith

  pub linked-key_other : (i : ℕ) → i ≢ n → (linked i).key ≡ (nodes i).key
  unfolding linked
  linked-key_other i h = ground arith

  pub linked-val : (i : ℕ) → mp ≢ n → (linked i).val ≡ (nodes i).val
  unfolding linked
  linked-val i h = ground arith

  linked-next_cases :
      (i j : ℕ)
      → mp ≢ n
      → (linked i).next ≡ some j
      → ((i ≡ mp) × (j ≡ n))
        ⊎ ((i ≡ n) × ((nodes mp).next ≡ some j))
        ⊎ ((i ≢ mp) × (i ≢ n) × ((nodes i).next ≡ some j))
  unfolding linked
  linked-next_cases i j apart h = elim (index_cases i mp) [
    | inl e ↦ inl (e.0, ground arith)
    | inr e ↦ elim (index_cases i n) [
      | inl e' ↦ inr (inl (e'.0, ground arith))
      | inr e' ↦ inr (inr (e.0, e'.0, ground arith))
    ]
  ]

  linked-next_main : mp ≢ n → (linked mp).next ≡ some n
  unfolding linked
  linked-next_main h = ground arith

  linked-next_new : mp ≢ n → (linked n).next ≡ (nodes mp).next
  unfolding linked
  linked-next_new h = ground arith

  linked-next_other : (i : ℕ) → i ≢ mp → i ≢ n → (linked i).next ≡ (nodes i).next
  unfolding linked
  linked-next_other i h h' = ground arith

  linked-Chain : {j i : ℕ} → mp ≢ n → i ≢ n → Chain nodes j i → Chain linked j i
  linked-Chain apart h here = here
  linked-Chain apart h (step {i = i} {k = x} e c) =
      let later = linked-Chain apart (λ t. (l.keyed i x e).1 (rw t n_free)) c in
      elim (index_cases i mp) [
        | inl t ↦
            rw t.0
              (step (linked-next_main apart) (step (linked-next_new apart ∙ rw t.0 at e) later))
        | inr t ↦ step (linked-next_other i t.0 h ∙ e) later
      ]

  -- The colliding node stays, and the new node comes behind it.
  pub link_node-Linked :
      (b : Object N)
      → (nodes mp).key ≡ some b
      → main b ≡ mp
      → main k ≡ mp
      → Linked main same size (bound + 1) linked
  link_node-Linked b at own home_k = record {
    rank = rank;
    ranked = λ i. let r = l.ranked i in let rm = l.ranked mp in ground arith;
    falls = falls;
    keyed = keyed;
    single = single;
    reach = reach;
    home = home;
    unique = unique;
    empty = empty;
    inside = inside;
  }
    where
      rank : ℕ → ℕ
      rank i =
          if i == n
          then l.rank mp
          else if leb (l.rank mp) (l.rank i)
          then l.rank i + 1
          else l.rank i

      apart : mp ≢ n
      apart = used_apart (λ h. clash_some at h)

      unlinked : (i : ℕ) → (nodes i).next ≢ some n
      unlinked i h = (l.keyed i n h).1 n_free

      falls : (i j : ℕ) → (linked i).next ≡ some j → rank j < rank i
      falls i j h = elim (linked-next_cases i j apart h) [
        | inl e ↦ ground arith
        | inr (inl e) ↦ let f = l.falls mp j e.1 in let u = unlinked mp in ground arith
        | inr (inr e) ↦ let f = l.falls i j e.2 in let u = unlinked i in ground arith
      ]

      still : (i : ℕ) → (nodes i).key ≢ none → (linked i).key ≢ none
      still i h = elim (index_cases i n) [
        | inl e ↦ absurd (h (rw e.0 n_free))
        | inr e ↦ rw (linked-key_other i e.0) h
      ]

      new_keyed : (linked n).key ≢ none
      new_keyed h = clash_some linked-key_self h

      keyed :
          (i j : ℕ) → (linked i).next ≡ some j → ((linked i).key ≢ none) × ((linked j).key ≢ none)
      keyed i j h = elim (linked-next_cases i j apart h) [
        | inl e ↦ (rw e.0 (still mp (λ t. clash_some at t)), rw e.1 new_keyed)
        | inr (inl e) ↦ (rw e.0 new_keyed, still j (l.keyed mp j e.1).1)
        | inr (inr e) ↦ let (a, b) = l.keyed i j e.2 in (still i a, still j b)
      ]

      single : (i j m : ℕ) → (linked i).next ≡ some m → (linked j).next ≡ some m → i ≡ j
      single i j m h h' = elim (linked-next_cases i m apart h) [
        | inl e ↦ elim (linked-next_cases j m apart h') [
          | inl e' ↦ e.0 ∙ sym e'.0
          | inr (inl e') ↦ absurd (unlinked mp (rw e.1 at e'.1))
          | inr (inr e') ↦ absurd (unlinked j (rw e.1 at e'.2))
        ]
        | inr (inl e) ↦ elim (linked-next_cases j m apart h') [
          | inl e' ↦ absurd (unlinked mp (rw e'.1 at e.1))
          | inr (inl e') ↦ e.0 ∙ sym e'.0
          | inr (inr e') ↦ absurd (e'.0 (l.single j mp m e'.2 e.1))
        ]
        | inr (inr e) ↦ elim (linked-next_cases j m apart h') [
          | inl e' ↦ absurd (unlinked i (rw e'.1 at e.2))
          | inr (inl e') ↦ absurd (e.0 (l.single i mp m e.2 e'.1))
          | inr (inr e') ↦ l.single i j m e.2 e'.2
        ]
      ]

      main_used : (i : ℕ) (a : Object N) → (nodes i).key ≡ some a → main a ≢ n
      main_used i a h t = let (b, found, own) = l.home i a h in clash_some found (rw t n_free)

      reach : (i : ℕ) (a : Object N) → (linked i).key ≡ some a → Chain linked i (main a)
      reach i a h = elim (linked-key_cases i a h) [
        | inl e ↦ rw (e.0, e.1, home_k) (step (linked-next_main apart) here)
        | inr e ↦ linked-Chain apart (main_used i a e.1) (l.reach i a e.1)
      ]

      home :
          (i : ℕ) (a : Object N)
          → (linked i).key ≡ some a
          → (b : Object N) × ((linked (main a)).key ≡ some b) × (main b ≡ main a)
      home i a h = elim (linked-key_cases i a h) [
        | inl e ↦
            (b, rw (e.1, home_k) (linked-key_other mp apart ∙ at), rw (e.1) (own ∙ sym home_k))
        | inr e ↦
            let (b, found, own) = l.home i a e.1 in
            (b, linked-key_other (main a) (main_used i a e.1) ∙ found, own)
      ]

      unique :
          (i j : ℕ) (a b : Object N)
          → (linked i).key ≡ some a
          → (linked j).key ≡ some b
          → same a b ≡ true
          → i ≡ j
      unique i j a b h h' e = elim (linked-key_cases i a h) [
        | inl ei ↦ elim (linked-key_cases j b h') [
          | inl ej ↦ ei.0 ∙ sym ej.0
          | inr ej ↦ absurd (clash (rw ei.1 at (sym_same a b e)) (absent j b ej.1))
        ]
        | inr ei ↦ elim (linked-key_cases j b h') [
          | inl ej ↦ absurd (clash (rw ej.1 at e) (absent i a ei.1))
          | inr ej ↦ l.unique i j a b ei.1 ej.1 e
        ]
      ]

      empty : (i : ℕ) → (linked i).key ≡ none → (linked i).val ≡ none
      empty i h = elim (index_cases i n) [
        | inl e ↦ absurd (new_keyed (rw e.0 at h))
        | inr e ↦ linked-val i apart ∙ l.empty i (sym (linked-key_other i e.0) ∙ h)
      ]

      inside : (i : ℕ) → (linked i).key ≢ none → i < size
      inside i h = elim (index_cases i n) [
        | inl e ↦ rw e.0 n_inside
        | inr e ↦ l.inside i (λ t. h (linked-key_other i e.0 ∙ t))
      ]
