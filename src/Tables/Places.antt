-- ===== src/Tables/Places.antt =====
-- lua/ltable.c: `newkey` up to the growth of the table, as a change of the map that the hash part
-- stands for.
use primemover.Prelude.{
  ℕ, zero, suc, ◌+◌, ◌≤◌, ◌<◌, true, false, Option, none, some, ◌==◌, if◌then◌else◌, ◌≡◌, ◌≢◌, inl,
  inr, refl, sym, ◌∙◌, ap, arith, Option-cases,
}
use primemover.Tables.{
  Numbers, Object, Node, Table, in_node, nilobject, raw_equal, getany, sizenode, read, is_some,
}
use primemover.Tables.Insert.{
  Placed, placed, fault, place_key, collide, next_free, set_key, previous, move_node, link_node,
}
use primemover.Tables.Chains.{index_cases, clash}
use primemover.Tables.Links.{clash_some}
use primemover.Tables.Moves.{previous-lem}
use primemover.Tables.Equal.{IsLawful, IsValid, raw_equal-sym, raw_equal_trans}
use primemover.Tables.Refine.{Placing, in_main-Placing, behind-Placing, moved-Placing}
use primemover.Tables.Present.{main, Links, Absent, lookup_present, lookup_cases, missing-Absent}

next_free-lem :
    {N : Type 0} (nodes : ℕ → Node N) (i free : ℕ)
    → next_free nodes i ≡ some free
    → (free ≤ i) × ((nodes free).key ≡ none)
unfolding next_free
next_free-lem nodes zero free h = elim (Option-cases (nodes 0).key) [
  | inl u ↦ let same = rw u at h in (ground arith, ap (λ (x : ℕ). (nodes x).key) (ground arith) ∙ u)
  | inr (a, u) ↦ absurd (ground (arith, rw u at h))
]
next_free-lem nodes (suc i) free h = elim (Option-cases (nodes (suc i)).key) [
  | inl u ↦ let same = rw u at h in (ground arith, ap (λ (x : ℕ). (nodes x).key) (ground arith) ∙ u)
  | inr (a, u) ↦
      let (low, is_free) = next_free-lem nodes i free (rw u at h) in (omega arith, is_free)
]

module _ {N : Type 0} (num : Numbers N) (str_hash : ℕ → ℕ) (laws : IsLawful num) where
  -- What `newkey` leaves: the nodes and the node of the key.
  abbrev Places : Table N → Object N → Type 0
  Places t k =
      (nodes : ℕ → Node N) × (p : ℕ) × (bound : ℕ) × Links num str_hash laws t bound
      × (bound + t.firstfree + 1 ≤ sizenode t)
      × (place_key num str_hash t k ≡ placed (record t { node = nodes }) p)
      × Placing num str_hash laws t k bound nodes p

  place_key-main :
      (t : Table N) (k : Object N)
      → (t.node (main num str_hash laws t k)).val ≡ none
      → place_key num str_hash t k
        ≡ placed
            (record t { node = set_key t.node (main num str_hash laws t k) k })
            (main num str_hash laws t k)
  unfolding place_key
  place_key-main t k e = rw (e, place_key) refl

  place_key-collide :
      (t : Table N) (k b v : Object N)
      → (t.node (main num str_hash laws t k)).val ≡ some v
      → (t.node (main num str_hash laws t k)).key ≡ some b
      → place_key num str_hash t k ≡ collide num str_hash t (main num str_hash laws t k) b k
  unfolding place_key
  place_key-collide t k b v e e' =
      ap
        (λ (o : Option (Object N)).
          if is_some o
          then elim (t.node (main num str_hash laws t k)).key as (λ x. Placed N) [
            | none ↦ fault
            | some k' ↦ collide num str_hash t (main num str_hash laws t k) k' k
          ]
          else placed (record t { node = set_key t.node (main num str_hash laws t k) k })
              (main num str_hash laws t k))
        e
      ∙ ap
          (λ (o : Option (Object N)). elim o as (λ x. Placed N) [
            | none ↦ fault
            | some k' ↦ collide num str_hash t (main num str_hash laws t k) k' k
          ])
          e'

  collide-behind :
      (t : Table N) (mp : ℕ) (b k : Object N)
      → main num str_hash laws t b ≡ mp
      → collide num str_hash t mp b k
        ≡ placed
            (record t { node = set_key (link_node t.node mp t.firstfree) t.firstfree k })
            t.firstfree
  unfolding collide
  collide-behind t mp b k e =
      let same : (main num str_hash laws t b == mp) ≡ true = ground arith in rw (same, collide) refl

  collide-away :
      (t : Table N) (mp prev : ℕ) (b k : Object N)
      → main num str_hash laws t b ≢ mp
      → previous (suc (sizenode t)) t.node mp (main num str_hash laws t b) ≡ some prev
      → collide num str_hash t mp b k
        ≡ placed (record t { node = set_key (move_node t.node prev mp t.firstfree) mp k }) mp
  unfolding collide
  collide-away t mp prev b k e e' =
      let other : (main num str_hash laws t b == mp) ≡ false = ground arith in
      rw (other, e', collide) refl

  place_key-Places :
      (t : Table N) (k : Object N)
      → IsValid num str_hash t
      → getany num str_hash t (some k) ≡ nilobject
      → Places t k
  unfolding IsValid
  place_key-Places t k (bound, l, small, free) e =
      elim (Option-cases (t.node (main num str_hash laws t k)).val) [
        | inl v ↦ (
          set_key t.node (main num str_hash laws t k) k,
          main num str_hash laws t k,
          bound,
          l,
          small,
          place_key-main t k v,
          in_main-Placing num str_hash laws t k bound l n_inside free absent v,
        )
        | inr (v, u) ↦ elim (Option-cases (t.node (main num str_hash laws t k)).key) [
          | inl h ↦ absurd (clash_some u (l.empty (main num str_hash laws t k) h))
          | inr (b, h) ↦
              elim (index_cases (main num str_hash laws t b) (main num str_hash laws t k)) [
                | inl own ↦ (
                  set_key (link_node t.node (main num str_hash laws t k) t.firstfree) t.firstfree k,
                  t.firstfree,
                  bound,
                  l,
                  small,
                  place_key-collide t k b v u h
                      ∙ collide-behind t (main num str_hash laws t k) b k own.0,
                  behind-Placing num str_hash laws t k bound l n_inside free absent b h own.0,
                )
                | inr away ↦
                    let (prev, found, leads) =
                      previous-lem l (main num str_hash laws t k) (suc (sizenode t))
                        (omega (arith, l.ranked (main num str_hash laws t b))) away.0
                        (l.reach (main num str_hash laws t k) b h) in
                    (
                      set_key (move_node t.node prev (main num str_hash laws t k) t.firstfree)
                          (main num str_hash laws t k) k,
                      main num str_hash laws t k,
                      bound,
                      l,
                      small,
                      place_key-collide t k b v u h
                          ∙ collide-away t (main num str_hash laws t k) prev b k away.0 found,
                      moved-Placing num str_hash laws t k bound l n_inside free absent b prev h
                          away.0 leads,
                    )
              ]
        ]
      ]
    where
      n_inside : t.firstfree < sizenode t
      n_inside = omega arith

      absent : Absent num str_hash laws t k
      absent = missing-Absent num str_hash laws t k bound l (omega arith) e

  abbrev with_nodes : Table N → (ℕ → Node N) → Table N
  with_nodes t nodes = record t { node = nodes }

  -- The table that a placed key leaves is that of the description.
  pub place_key-After :
      (t t' : Table N) (k : Object N) (p : ℕ)
      → IsValid num str_hash t
      → getany num str_hash t (some k) ≡ nilobject
      → place_key num str_hash t k ≡ placed t' p
      → (nodes : ℕ → Node N) × (bound : ℕ) × Links num str_hash laws t bound
        × (bound + t.firstfree + 1 ≤ sizenode t)
        × (t' ≡ with_nodes t nodes)
        × Placing num str_hash laws t k bound nodes p
  place_key-After t t' k p valid e h =
      let (nodes, q, bound, l, small, h', r) = place_key-Places t k valid e in
      let same = sym h ∙ h' in (nodes, bound, l, small, table_of same, rw (node_of same) r)
    where
      table_of : {a b : Table N} {i j : ℕ} → placed a i ≡ placed b j → a ≡ b
      table_of h = cc

      node_of : {a b : Table N} {i j : ℕ} → placed a i ≡ placed b j → i ≡ j
      node_of h = cc

  module _ (t : Table N) (k : Object N) (bound : ℕ) (nodes : ℕ → Node N) (p : ℕ)
      (small : bound + t.firstfree + 1 ≤ sizenode t)
      (r : Placing num str_hash laws t k bound nodes p) where
    fits : r.bound' ≤ sizenode t
    fits = elim r.room [ inl h ↦ omega arith | inr h ↦ omega (arith, h.0) ]

    placing-getany :
        raw_equal num k k ≡ true
        → (getany num str_hash (with_nodes t nodes) (some k) ≡ in_node p) × ((nodes p).val ≡ none)
    placing-getany same = (
      lookup_present num str_hash laws (with_nodes t nodes) k r.bound' r.linked fits p k r.at same,
      r.vacant,
    )

    placing-others :
        (other : Object N)
        → Links num str_hash laws t bound
        → raw_equal num k other ≡ false
        → read (with_nodes t nodes) (getany num str_hash (with_nodes t nodes) (some other))
          ≡ read t (getany num str_hash t (some other))
    placing-others other l differs =
        elim (lookup_cases num str_hash laws t other bound l (omega arith)) [
          | inl (j, a, at, h, e) ↦
              elim (lookup_cases num str_hash laws (with_nodes t nodes) other r.bound' r.linked
                fits) [
                  | inl (i, b, at', h', e') ↦
                      rw (e, e')
                        (elim (r.old i b at') [
                          | inl u ↦ absurd (clash (rw u at h') differs)
                          | inr (j', key, val) ↦
                              val
                              ∙ ap (λ (x : ℕ). (t.node x).val)
                                  (l.unique j' j b a key at (equal b a h' h))
                        ])
                  | inr (gone, e') ↦
                      rw (e, e')
                        (elim (Option-cases (t.node j).val) [
                          | inl u ↦ sym u
                          | inr (v, u) ↦
                              let (i, key, val) = r.kept j a at (λ w. clash_some u w) in
                              absurd (clash h (gone i a key))
                        ])
                ]
          | inr (gone, e) ↦
              elim (lookup_cases num str_hash laws (with_nodes t nodes) other r.bound' r.linked
                fits) [
                  | inl (i, b, at', h', e') ↦ elim (r.old i b at') [
                    | inl u ↦ absurd (clash (rw u at h') differs)
                    | inr (j, key, val) ↦ absurd (clash h' (gone j b key))
                  ]
                  | inr (gone', e') ↦ rw (e, e') refl
                ]
        ]
      where
        equal :
            (a b : Object N)
            → raw_equal num a other ≡ true
            → raw_equal num b other ≡ true
            → raw_equal num a b ≡ true
        equal a b h h' = raw_equal_trans num laws a other b h (raw_equal-sym num laws b other h')

    placing-IsValid :
        (free : ℕ)
        → next_free nodes t.firstfree ≡ some free
        → IsValid num str_hash (record (with_nodes t nodes) { firstfree = free })
    unfolding IsValid
    placing-IsValid free found =
        let (low, is_free) = next_free-lem nodes t.firstfree free found in
        (r.bound', r.linked, roomy low is_free, is_free)
      where
        roomy : free ≤ t.firstfree → (nodes free).key ≡ none → r.bound' + free + 1 ≤ sizenode t
        roomy low is_free = elim r.room [
          | inl h ↦ omega arith
          | inr h ↦
              let lower : free ≢ t.firstfree = λ u. h.1 (rw u at is_free) in omega (arith, h.0)
        ]

  -- On a valid table without the key a new key finds its place: no chain ends before it leads to
  -- the colliding node.
  pub place_key-total :
      (t : Table N) (k : Object N)
      → IsValid num str_hash t
      → getany num str_hash t (some k) ≡ nilobject
      → (t' : Table N) × (p : ℕ) × (place_key num str_hash t k ≡ placed t' p)
  place_key-total t k valid e =
      let (nodes, p, bound, l, small, h, r) = place_key-Places t k valid e in
      (record t { node = nodes }, p, h)

  -- On a valid table without the key, place_key, which is newkey up to the correction of `firstfree`,
  -- gives a node that holds nil, and luaH_getany finds that node for the key afterwards, unless the key
  -- is a number that does not equal itself.
  pub place_key-getany :
      (t t' : Table N) (k : Object N) (p : ℕ)
      → IsValid num str_hash t
      → getany num str_hash t (some k) ≡ nilobject
      → raw_equal num k k ≡ true
      → place_key num str_hash t k ≡ placed t' p
      → (getany num str_hash t' (some k) ≡ in_node p) × ((t'.node p).val ≡ none)
  place_key-getany t t' k p valid e same placed_at =
      let (nodes, bound, l, small, made, r) = place_key-After t t' k p valid e placed_at in
      rw made (placing-getany t k bound nodes p small r same)

  pub place_key-key :
      (t t' : Table N) (k : Object N) (p : ℕ)
      → IsValid num str_hash t
      → getany num str_hash t (some k) ≡ nilobject
      → place_key num str_hash t k ≡ placed t' p
      → (t'.node p).key ≡ some k
  place_key-key t t' k p valid e placed_at =
      let (nodes, bound, l, small, made, r) = place_key-After t t' k p valid e placed_at in
      rw made (r.at)

  -- On a valid table without the key, place_key, which is newkey up to the correction of `firstfree`,
  -- leaves what every other key maps to in the hash part, also where it moves a node or changes a chain.
  pub place_key-others :
      (t t' : Table N) (k other : Object N) (p : ℕ)
      → IsValid num str_hash t
      → getany num str_hash t (some k) ≡ nilobject
      → raw_equal num k other ≡ false
      → place_key num str_hash t k ≡ placed t' p
      → read t' (getany num str_hash t' (some other)) ≡ read t (getany num str_hash t (some other))
  place_key-others t t' k other p valid e differs placed_at =
      let (nodes, bound, l, small, made, r) = place_key-After t t' k p valid e placed_at in
      rw made (placing-others t k bound nodes p small r other l differs)

  -- A new key with a free node left below `firstfree` leaves a valid table.
  pub place_key-IsValid :
      (t t' : Table N) (k : Object N) (p free : ℕ)
      → IsValid num str_hash t
      → getany num str_hash t (some k) ≡ nilobject
      → place_key num str_hash t k ≡ placed t' p
      → next_free t'.node t'.firstfree ≡ some free
      → IsValid num str_hash (record t' { firstfree = free })
  place_key-IsValid t t' k p free valid e placed_at found =
      let (nodes, bound, l, small, made, r) = place_key-After t t' k p valid e placed_at in
      rw made (placing-IsValid t k bound nodes p small r free (rw made at found))
