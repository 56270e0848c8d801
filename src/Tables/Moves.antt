-- ===== src/Tables/Moves.antt =====
-- lua/ltable.c: a colliding node that is out of its main position moves to a free node.
use primemover.Prelude.{
  ℕ, zero, suc, ◌<◌, Bool, true, none, some, ◌==◌, if◌then◌else◌, ◌≡◌, ◌≢◌, ◌⊎◌, inl, inr, refl,
  sym, ◌∙◌, ap, arith,
}
use mathlib.Core.Path.{fun_ext}
use primemover.Tables.{Object, Node, write}
use primemover.Tables.Insert.{previous, set_key, move_node}
use primemover.Tables.Chains.{Chain, here, step, Linked, index_cases}
use primemover.Tables.Links.{clash_some}

previous_step :
    {N : Type 0} (fuel mp i : ℕ) (nodes : ℕ → Node N) {j : ℕ}
    → (nodes i).next ≡ some j
    → previous (suc fuel) nodes mp i ≡ (if j == mp then some i else previous fuel nodes mp j)
unfolding previous
previous_step fuel mp i nodes e = rw (e, previous) refl

-- The search for the node before `mp` finds it on the chain that leads there.
pub previous-lem :
    {N : Type 0} {main : Object N → ℕ} {same : Object N → Object N → Bool} {size bound : ℕ}
    {nodes : ℕ → Node N} (l : Linked main same size bound nodes) (mp : ℕ) {i : ℕ} (fuel : ℕ)
    → l.rank i < fuel
    → i ≢ mp
    → Chain nodes mp i
    → (p : ℕ) × (previous fuel nodes mp i ≡ some p) × ((nodes p).next ≡ some mp)
unfolding previous
previous-lem l mp zero h ne c = absurd (omega arith)
previous-lem l mp (suc fuel) h ne here = absurd (ne refl)
previous-lem {nodes = nodes} l mp (suc fuel) h ne (step {i = i} {k = j} e c) =
    elim (index_cases j mp) [
      | inl t ↦ (i, previous_step fuel mp i nodes e ∙ rw t.1 refl, rw t.0 at e)
      | inr t ↦
          let falls = l.falls i j e in
          let (p, found, at) = previous-lem l mp fuel (omega (arith, falls)) t.0 c in
          (p, previous_step fuel mp i nodes e ∙ rw t.1 found, at)
    ]

module _ {N : Type 0} {main : Object N → ℕ} {same : Object N → Object N → Bool} {size bound : ℕ}
    {nodes : ℕ → Node N} (l : Linked main same size bound nodes) (prev mp n : ℕ)
    (n_inside : n < size) (n_free : (nodes n).key ≡ none) (leads : (nodes prev).next ≡ some mp)
    (b : Object N) (at : (nodes mp).key ≡ some b) (away : main b ≢ mp) where
  -- the colliding node moved, and nothing left in its place
  unfoldable pub moved : ℕ → Node N
  moved =
      write (write (write nodes prev (record (nodes prev) { next = some n })) n (nodes mp)) mp
        (record { key = none; val = none; next = none })

  mp_other : mp ≢ n
  mp_other e = clash_some at (rw e n_free)

  prev_other : prev ≢ n
  prev_other e = (l.keyed prev mp leads).0 (rw e n_free)

  prev_apart : prev ≢ mp
  prev_apart e = let f = l.falls prev mp leads in omega (arith, f, ap l.rank e)

  unlinked : (i : ℕ) → (nodes i).next ≢ some n
  unlinked i h = (l.keyed i n h).1 n_free

  pub moved_new : moved n ≡ nodes mp
  unfolding moved
  moved_new = let h = mp_other in ground arith

  pub moved_gone : moved mp ≡ record { key = none; val = none; next = none }
  unfolding moved
  moved_gone = ground arith

  moved_other : (i : ℕ) → i ≢ mp → i ≢ n → i ≢ prev → moved i ≡ nodes i
  unfolding moved
  moved_other i h h' h'' = ground arith

  moved_prev : moved prev ≡ record (nodes prev) { next = some n }
  unfolding moved
  moved_prev = let h = prev_other in let h' = prev_apart in ground arith

  -- each node after the move
  unfoldable pub MovedIs : ℕ → Type 0
  MovedIs i =
      ((i ≡ mp) × (moved i ≡ record { key = none; val = none; next = none }))
      ⊎ ((i ≡ n) × (moved i ≡ nodes mp))
      ⊎ ((i ≡ prev) × (i ≢ mp) × (i ≢ n) × (moved i ≡ record (nodes i) { next = some n }))
      ⊎ ((i ≢ mp) × (i ≢ n) × (i ≢ prev) × (moved i ≡ nodes i))

  pub moved_cases : (i : ℕ) → MovedIs i
  unfolding MovedIs
  moved_cases i = elim (index_cases i mp) [
    | inl e ↦ inl (e.0, ap moved e.0 ∙ moved_gone)
    | inr e ↦ elim (index_cases i n) [
      | inl e' ↦ inr (inl (e'.0, ap moved e'.0 ∙ moved_new))
      | inr e' ↦ elim (index_cases i prev) [
        | inl t ↦ inr (
            inr (
              inl (
                t.0,
                e.0,
                e'.0,
                ap moved t.0
                    ∙ moved_prev
                    ∙ ap (λ (j : ℕ). record (nodes j) { next = some n }) (sym t.0),
              )))
        | inr t ↦ inr (inr (inr (e.0, e'.0, t.0, moved_other i e.0 e'.0 t.0)))
      ]
    ]
  ]

  pub moved-key_cases :
      (i : ℕ) (a : Object N)
      → (moved i).key ≡ some a
      → ((i ≡ n) × (a ≡ b)) ⊎ ((i ≢ n) × (i ≢ mp) × ((nodes i).key ≡ some a))
  unfolding MovedIs
  moved-key_cases i a h = elim (moved_cases i) [
    | inl e ↦ absurd (clash_some h (ap Node.key e.1))
    | inr (inl e) ↦ inl (e.0, ground (arith, ap Node.key e.1))
    | inr (inr (inl e)) ↦ inr (e.2, e.1, sym (ap Node.key e.3) ∙ h)
    | inr (inr (inr e)) ↦ inr (e.1, e.0, sym (ap Node.key e.3) ∙ h)
  ]

  pub moved-key_other : (i : ℕ) → i ≢ mp → i ≢ n → (moved i).key ≡ (nodes i).key
  unfolding MovedIs
  moved-key_other i h h' = elim (moved_cases i) [
    | inl e ↦ absurd (h e.0)
    | inr (inl e) ↦ absurd (h' e.0)
    | inr (inr (inl e)) ↦ ap Node.key e.3
    | inr (inr (inr e)) ↦ ap Node.key e.3
  ]

  pub moved-val_other : (i : ℕ) → i ≢ mp → i ≢ n → (moved i).val ≡ (nodes i).val
  unfolding MovedIs
  moved-val_other i h h' = elim (moved_cases i) [
    | inl e ↦ absurd (h e.0)
    | inr (inl e) ↦ absurd (h' e.0)
    | inr (inr (inl e)) ↦ ap Node.val e.3
    | inr (inr (inr e)) ↦ ap Node.val e.3
  ]

  moved-next_cases :
      (i j : ℕ)
      → (moved i).next ≡ some j
      → ((i ≡ prev) × (j ≡ n))
        ⊎ ((i ≡ n) × ((nodes mp).next ≡ some j))
        ⊎ ((i ≢ prev) × (i ≢ n) × (i ≢ mp) × ((nodes i).next ≡ some j))
  unfolding MovedIs
  moved-next_cases i j h = elim (moved_cases i) [
    | inl e ↦ absurd (clash_some h (ap Node.next e.1))
    | inr (inl e) ↦ inr (inl (e.0, sym (ap Node.next e.1) ∙ h))
    | inr (inr (inl e)) ↦ inl (e.0, ground (arith, ap Node.next e.3))
    | inr (inr (inr e)) ↦ inr (inr (e.2, e.1, e.0, sym (ap Node.next e.3) ∙ h))
  ]

  moved_empty : (i : ℕ) → (moved i).key ≡ none → (moved i).val ≡ none
  unfolding MovedIs
  moved_empty i h = elim (moved_cases i) [
    | inl e ↦ ap Node.val e.1
    | inr (inl e) ↦ absurd (clash_some at (sym (ap Node.key e.1) ∙ h))
    | inr (inr (inl e)) ↦ ap Node.val e.3 ∙ l.empty i (sym (ap Node.key e.3) ∙ h)
    | inr (inr (inr e)) ↦ ap Node.val e.3 ∙ l.empty i (sym (ap Node.key e.3) ∙ h)
  ]

  abbrev new_place : ℕ → ℕ
  new_place i = if i == mp then n else i

  new_place_other : (i : ℕ) → i ≢ mp → new_place i ≡ i
  new_place_other i h = ground arith

  new_place_self : new_place mp ≡ n
  new_place_self = ground arith

  only_prev : (i : ℕ) → (nodes i).next ≡ some mp → i ≡ prev
  only_prev i h = l.single i prev mp h leads

  moved_link :
      (i x : ℕ) → i ≢ n → (nodes i).next ≡ some x → (moved (new_place i)).next ≡ some (new_place x)
  moved_link i x h e = elim (index_cases i mp) [
    | inl t ↦
        let next_mp = rw t.0 at e in
        let x_other : x ≢ mp = λ u. omega (arith, l.falls mp x next_mp, ap l.rank u) in
        ap (λ (q : ℕ). (moved q).next) (ap new_place t.0 ∙ new_place_self)
        ∙ ap Node.next moved_new
        ∙ next_mp
        ∙ ap some (sym (new_place_other x x_other))
    | inr t ↦ elim (index_cases x mp) [
      | inl u ↦
          ap (λ (q : ℕ). (moved q).next) (new_place_other i t.0 ∙ only_prev i (rw u.0 at e))
          ∙ ap Node.next moved_prev
          ∙ ap some (sym (ap new_place u.0 ∙ new_place_self))
      | inr u ↦
          ap (λ (q : ℕ). (moved q).next) (new_place_other i t.0)
          ∙ ap Node.next (
              moved_other i t.0 h
                (λ v. u.0 (same_target (sym e ∙ ap (λ (q : ℕ). (nodes q).next) v ∙ leads))))
          ∙ e
          ∙ ap some (sym (new_place_other x u.0))
    ]
  ]
    where
      same_target : {a c : ℕ} → some a ≡ some c → a ≡ c
      same_target h = cc

  moved-Chain : {j i : ℕ} → i ≢ n → Chain nodes j i → Chain moved (new_place j) (new_place i)
  moved-Chain h here = here
  moved-Chain h (step {i = i} {k = x} e c) =
      step (moved_link i x h e) (moved-Chain (λ t. (l.keyed i x e).1 (rw t n_free)) c)

  main_used : (i : ℕ) (a : Object N) → (nodes i).key ≡ some a → (main a ≢ n) × (main a ≢ mp)
  main_used i a h =
      let (c, found, own) = l.home i a h in
      (
        λ t. clash_some found (rw t n_free),
        λ t.
            away (
              ap main (same_key (sym at ∙ ap (λ (q : ℕ). (nodes q).key) (sym t) ∙ found))
              ∙ own
              ∙ t),
      )
    where
      same_key : {x y : Object N} → some x ≡ some y → x ≡ y
      same_key h = cc

  pub moved-Linked : Linked main same size bound moved
  moved-Linked = record {
    rank = rank;
    ranked = λ i. let r = l.ranked i in let rm = l.ranked mp in ground arith;
    falls = falls;
    keyed = keyed;
    single = single;
    reach = reach;
    home = home;
    unique = unique;
    empty = moved_empty;
    inside = inside;
  }
    where
      rank : ℕ → ℕ
      rank i = if i == n then l.rank mp else l.rank i

      falls : (i j : ℕ) → (moved i).next ≡ some j → rank j < rank i
      falls i j h = elim (moved-next_cases i j h) [
        | inl e ↦ let f = l.falls prev mp leads in let u = prev_other in ground arith
        | inr (inl e) ↦ let f = l.falls mp j e.1 in let u = unlinked mp in ground arith
        | inr (inr e) ↦ let f = l.falls i j e.3 in let u = unlinked i in ground arith
      ]

      new_keyed : (moved n).key ≢ none
      new_keyed h = clash_some at (sym (ap Node.key moved_new) ∙ h)

      still : (i : ℕ) → i ≢ mp → (nodes i).key ≢ none → (moved i).key ≢ none
      still i h k = elim (index_cases i n) [
        | inl e ↦ absurd (k (rw e.0 n_free))
        | inr e ↦ rw (moved-key_other i h e.0) k
      ]

      target : (i j : ℕ) → i ≢ prev → (nodes i).next ≡ some j → j ≢ mp
      target i j h e u = h (only_prev i (rw u at e))

      keyed : (i j : ℕ) → (moved i).next ≡ some j → ((moved i).key ≢ none) × ((moved j).key ≢ none)
      keyed i j h = elim (moved-next_cases i j h) [
        | inl e ↦ (rw e.0 (still prev prev_apart (l.keyed prev mp leads).0), rw e.1 new_keyed)
        | inr (inl e) ↦ (
          rw e.0 new_keyed,
          still j (target mp j (λ t. prev_apart (sym t)) e.1) (l.keyed mp j e.1).1,
        )
        | inr (inr e) ↦
            let (a, c) = l.keyed i j e.3 in (still i e.2 a, still j (target i j e.0 e.3) c)
      ]

      single : (i j m : ℕ) → (moved i).next ≡ some m → (moved j).next ≡ some m → i ≡ j
      single i j m h h' = elim (moved-next_cases i m h) [
        | inl e ↦ elim (moved-next_cases j m h') [
          | inl e' ↦ e.0 ∙ sym e'.0
          | inr (inl e') ↦ absurd (unlinked mp (rw e.1 at e'.1))
          | inr (inr e') ↦ absurd (unlinked j (rw e.1 at e'.3))
        ]
        | inr (inl e) ↦ elim (moved-next_cases j m h') [
          | inl e' ↦ absurd (unlinked mp (rw e'.1 at e.1))
          | inr (inl e') ↦ e.0 ∙ sym e'.0
          | inr (inr e') ↦ absurd (e'.2 (l.single j mp m e'.3 e.1))
        ]
        | inr (inr e) ↦ elim (moved-next_cases j m h') [
          | inl e' ↦ absurd (unlinked i (rw e'.1 at e.3))
          | inr (inl e') ↦ absurd (e.2 (l.single i mp m e.3 e'.1))
          | inr (inr e') ↦ l.single i j m e.3 e'.3
        ]
      ]

      reach : (i : ℕ) (a : Object N) → (moved i).key ≡ some a → Chain moved i (main a)
      reach i a h = elim (moved-key_cases i a h) [
        | inl e ↦
            let c = moved-Chain (main_used mp b at).0 (l.reach mp b at) in
            let c = rw new_place_self at c in
            rw (e.0, e.1) (rw (new_place_other (main b) away) at c)
        | inr e ↦
            let u = main_used i a e.2 in
            let c = moved-Chain u.0 (l.reach i a e.2) in
            let c = rw (new_place_other i e.1) at c in rw (new_place_other (main a) u.1) at c
      ]

      old_home :
          (i : ℕ) (a : Object N)
          → (nodes i).key ≡ some a
          → (c : Object N) × ((moved (main a)).key ≡ some c) × (main c ≡ main a)
      old_home i a h =
          let u = main_used i a h in
          let (c, found, own) = l.home i a h in (c, moved-key_other (main a) u.1 u.0 ∙ found, own)

      home :
          (i : ℕ) (a : Object N)
          → (moved i).key ≡ some a
          → (c : Object N) × ((moved (main a)).key ≡ some c) × (main c ≡ main a)
      home i a h = elim (moved-key_cases i a h) [
        | inl e ↦ rw e.1 (old_home mp b at)
        | inr e ↦ old_home i a e.2
      ]

      unique :
          (i j : ℕ) (a c : Object N)
          → (moved i).key ≡ some a
          → (moved j).key ≡ some c
          → same a c ≡ true
          → i ≡ j
      unique i j a c h h' e = elim (moved-key_cases i a h) [
        | inl ei ↦ elim (moved-key_cases j c h') [
          | inl ej ↦ ei.0 ∙ sym ej.0
          | inr ej ↦ absurd (ej.1 (sym (l.unique mp j b c at ej.2 (rw ei.1 at e))))
        ]
        | inr ei ↦ elim (moved-key_cases j c h') [
          | inl ej ↦ absurd (ei.1 (l.unique i mp a b ei.2 at (rw ej.1 at e)))
          | inr ej ↦ l.unique i j a c ei.2 ej.2 e
        ]
      ]

      inside : (i : ℕ) → (moved i).key ≢ none → i < size
      inside i h = elim (index_cases i n) [
        | inl e ↦ rw e.0 n_inside
        | inr e ↦ elim (index_cases i mp) [
          | inl u ↦ absurd (h (ap (λ (q : ℕ). (moved q).key) u.0 ∙ ap Node.key moved_gone))
          | inr u ↦ l.inside i (λ t. h (moved-key_other i u.0 e.0 ∙ t))
        ]
      ]

  pub move_node-moved :
      (k : Object N) → set_key (move_node nodes prev mp n) mp k ≡ set_key moved mp k
  unfolding move_node moved
  move_node-moved k = fun_ext λ i. let h = prev_apart in let h' = mp_other in ground arith
