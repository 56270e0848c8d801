-- ===== src/Tables/Growth.antt =====
-- lua/ltable.c: a hash part stays linked properly while values are stored, keys come and the table
-- grows.
use primemover.Prelude.{
  ℕ, zero, suc, Bool, Option, none, some, ltb, ◌≡◌, ◌≢◌, inl, inr, refl, sym, ◌∙◌, ap, arith,
  Bool-cases,
}
use mathlib.Core.Path.{fun_ext}
use native.Mathlib.Nat.{one-le-pow}
use primemover.Prelude.Int.{ℤ, pos}
use primemover.Tables.{
  Numbers, Object, boolean, number, string, light, object, Node, Table, sizenode, write, is_some,
  Place, in_array, in_node, nilobject, out_of_fuel, assign, get, getany, getnum, raw_equal,
  mainposition, find, is_number, hashnum,
}
use primemover.Tables.Chains.{Chain-map, Linked, index_cases}
use primemover.Tables.Links.{clash_some}
use primemover.Tables.Lookup.{Found, find-Found}
use primemover.Tables.Equal.{IsLawful, IsValid}
use primemover.Tables.Get.{array_place, integer_place, searched, get_lem, getnum_lem}
use primemover.Tables.Resize.{
  Outcome, done, index_nil, index_nan, overflow, stuck, setnodevector, emptied, checked_key,
  found_or, after, set_by, setnum_by, store, reinsert_array, reinsert_nodes,
}

module _ {N : Type 0} {main : Object N → ℕ} {same : Object N → Object N → Bool} {size bound : ℕ}
    {nodes : ℕ → Node N} (l : Linked main same size bound nodes) (p : ℕ) (o : Option (Object N))
    (used : (nodes p).key ≢ none) where
  abbrev stored : ℕ → Node N
  stored = write nodes p (record (nodes p) { val = o })

  -- A value goes to a node that has a key.
  stored-Linked : Linked main same size bound stored
  stored-Linked = record {
    rank = l.rank;
    ranked = l.ranked;
    falls = λ i j h. l.falls i j (sym (next i) ∙ h);
    keyed = λ i j h. let (a, b) = l.keyed i j (sym (next i) ∙ h) in (rw (key i) a, rw (key j) b);
    single = λ i j m h h'. l.single i j m (sym (next i) ∙ h) (sym (next j) ∙ h');
    reach = λ i a h. Chain-map nodes stored next (l.reach i a (sym (key i) ∙ h));
    home = λ i a h. let (b, at, own) = l.home i a (sym (key i) ∙ h) in (b, key (main a) ∙ at, own);
    unique = λ i j a b h h'. l.unique i j a b (sym (key i) ∙ h) (sym (key j) ∙ h');
    empty = empty;
    inside = λ i h. l.inside i (λ e. h (key i ∙ e));
  }
    where
      next : (i : ℕ) → (stored i).next ≡ (nodes i).next
      next i = elim (index_cases i p) [ inl e ↦ ground (arith, e.0) | inr e ↦ ground arith ]

      key : (i : ℕ) → (stored i).key ≡ (nodes i).key
      key i = elim (index_cases i p) [ inl e ↦ ground (arith, e.0) | inr e ↦ ground arith ]

      empty : (i : ℕ) → (stored i).key ≡ none → (stored i).val ≡ none
      empty i h = elim (index_cases i p) [
        | inl e ↦ absurd (used (rw e.0 at (sym (key i) ∙ h)))
        | inr e ↦ let old = l.empty i (sym (key i) ∙ h) in ground arith
      ]

-- The place of a value that may be stored: a node has a key.
abbrev pub IsPlace : {N : Type 0} → Table N → Place → Type 0
IsPlace t (in_node j) = (t.node j).key ≢ none
IsPlace t (in_array i) = Unit
IsPlace t nilobject = Unit
IsPlace t out_of_fuel = Unit

module _ {N : Type 0} (num : Numbers N) (str_hash : ℕ → ℕ) where
  pub assign-IsValid :
      (t : Table N) (p : Place) (o : Option (Object N))
      → IsValid num str_hash t
      → IsPlace t p
      → IsValid num str_hash (assign t p o)
  unfolding IsValid
  assign-IsValid t (in_node j) o (bound, l, small, free) used =
      let next_free_key : ((assign t (in_node j) o).node t.firstfree).key ≡ none =
        elim (index_cases t.firstfree j) [
          | inl e ↦ absurd (used (rw e.0 at free))
          | inr e ↦ ground arith
        ] in
      (bound, stored-Linked l j o used, small, next_free_key)
  assign-IsValid t (in_array i) o valid used = valid
  assign-IsValid t nilobject o valid used = valid
  assign-IsValid t out_of_fuel o valid used = valid

  pub emptied-IsValid : (t : Table N) (lsize : ℕ) → IsValid num str_hash (emptied t lsize)
  unfolding IsValid
  emptied-IsValid t lsize = (
    0,
    record {
      rank = λ i. 0;
      ranked = λ i. omega arith;
      falls = λ i j h. cc;
      keyed = λ i j h. cc;
      single = λ i j k h h'. cc;
      reach = λ i a h. cc;
      home = λ i a h. cc;
      unique = λ i j a b h h' e. cc;
      empty = λ i h. refl;
      inside = λ i h. absurd (h refl);
    },
    omega (arith, one-le-pow lsize 2 (omega arith)),
    refl,
  )

  -- New nodes are linked properly.
  pub setnodevector-IsValid :
      (t t' : Table N) (lsize : ℕ) → setnodevector t lsize ≡ some t' → IsValid num str_hash t'
  unfolding setnodevector
  setnodevector-IsValid t t' lsize e = elim (Bool-cases (ltb 24 lsize)) [
    | inl u ↦ absurd (clash_some e (rw u refl))
    | inr u ↦
        let same : some t' ≡ some (emptied t lsize) = sym e ∙ rw u refl in
        rw (some-inj same) (emptied-IsValid t lsize)
  ]
    where
      some-inj : {a b : Table N} → some a ≡ some b → a ≡ b
      some-inj h = cc

  -- A call for a new key leaves a valid table, and a place for the value.
  abbrev pub Keeps : (Table N → Object N → Outcome N) → Type 0
  Keeps insert =
      (t : Table N) (k : Object N) (t' : Table N) (p : Place)
      → IsValid num str_hash t
      → getany num str_hash t (some k) ≡ nilobject
      → insert t k ≡ done t' p
      → IsValid num str_hash t' × IsPlace t' p

  pub done-inj : {a b : Table N} {p q : Place} → done a p ≡ done b q → (a ≡ b) × (p ≡ q)
  done-inj h = (cc, cc)

  module _ (laws : IsLawful num) where
    getany-IsPlace : (t : Table N) (k : Object N) → IsPlace t (getany num str_hash t (some k))
    unfolding getany
    getany-IsPlace t k = of_found _ (
        find-Found (λ k'. raw_equal num k' k) t.node (suc (sizenode t))
          (mainposition num str_hash t.lsizenode k))
      where
        of_found : (q : Place) → Found (λ k'. raw_equal num k' k) t.node q → IsPlace t q
        of_found (in_node j) (a, at, h) = λ e. clash_some at e
        of_found (in_array i) f = tt
        of_found nilobject f = tt
        of_found out_of_fuel f = tt

    searched-IsPlace :
        (t : Table N) (k : Object N) (o : Option ℕ) → IsPlace t (searched num str_hash t k o)
    searched-IsPlace t k none = getany-IsPlace t k
    searched-IsPlace t k (some i) = tt

    get_nil : (t : Table N) → get num str_hash t none ≡ nilobject
    unfolding get
    get_nil t = refl

    pub get-IsPlace : (t : Table N) (key : Option (Object N)) → IsPlace t (get num str_hash t key)
    get-IsPlace t none = rw (get_nil t) tt
    get-IsPlace t (some k) =
        rw (get_lem num str_hash laws t k) (searched-IsPlace t k (array_place num str_hash t k))

    -- What is returned for a place that a search has found.
    pub found_or-Keeps :
        (otherwise : Outcome N) (t t' : Table N) (q p : Place)
        → IsValid num str_hash t
        → IsPlace t q
        → (q ≡ nilobject → otherwise ≡ done t' p → IsValid num str_hash t' × IsPlace t' p)
        → found_or num str_hash otherwise t q ≡ done t' p
        → IsValid num str_hash t' × IsPlace t' p
    found_or-Keeps otherwise t t' (in_array i) p valid used h e =
        let (same, at) = done-inj e in rw (sym same, sym at) (valid, used)
    found_or-Keeps otherwise t t' (in_node i) p valid used h e =
        let (same, at) = done-inj e in rw (sym same, sym at) (valid, used)
    found_or-Keeps otherwise t t' nilobject p valid used h e = h refl e
    found_or-Keeps otherwise t t' out_of_fuel p valid used h e = absurd cc

    -- A search of luaH_get that finds nothing is one of the generic search.
    get-getany :
        (t : Table N) (k : Object N)
        → get num str_hash t (some k) ≡ nilobject
        → getany num str_hash t (some k) ≡ nilobject
    get-getany t k e =
        of_place (array_place num str_hash t k) (sym (get_lem num str_hash laws t k) ∙ e)
      where
        of_place :
            (o : Option ℕ)
            → searched num str_hash t k o ≡ nilobject
            → getany num str_hash t (some k) ≡ nilobject
        of_place none h = h
        of_place (some i) h = absurd cc

    checked_key-Keeps :
        (insert : Table N → Object N → Outcome N) (t : Table N) (key : Option (Object N))
        (t' : Table N) (p : Place)
        → Keeps insert
        → IsValid num str_hash t
        → get num str_hash t key ≡ nilobject
        → checked_key num str_hash insert t key ≡ done t' p
        → IsValid num str_hash t' × IsPlace t' p
    checked_key-Keeps insert t none t' p keeps valid gone e = absurd cc
    checked_key-Keeps insert t (some (number n)) t' p keeps valid gone e =
        elim (Bool-cases (num.equal n n)) [
          | inl u ↦ keeps t (number n) t' p valid (get-getany t (number n) gone) (rw u at e)
          | inr u ↦ let bad : index_nan ≡ done t' p = rw u at e in absurd cc
        ]
    checked_key-Keeps insert t (some (boolean b)) t' p keeps valid gone e =
        keeps t (boolean b) t' p valid (get-getany t (boolean b) gone) e
    checked_key-Keeps insert t (some (string b)) t' p keeps valid gone e =
        keeps t (string b) t' p valid (get-getany t (string b) gone) e
    checked_key-Keeps insert t (some (light b)) t' p keeps valid gone e =
        keeps t (light b) t' p valid (get-getany t (light b) gone) e
    checked_key-Keeps insert t (some (object b)) t' p keeps valid gone e =
        keeps t (object b) t' p valid (get-getany t (object b) gone) e

    pub set_by-Keeps :
        (insert : Table N → Object N → Outcome N) (t : Table N) (key : Option (Object N))
        (t' : Table N) (p : Place)
        → Keeps insert
        → IsValid num str_hash t
        → set_by num str_hash insert t key ≡ done t' p
        → IsValid num str_hash t' × IsPlace t' p
    unfolding set_by
    set_by-Keeps insert t key t' p keeps valid e =
        found_or-Keeps (checked_key num str_hash insert t key) t t' (get num str_hash t key) p valid
          (get-IsPlace t key) (checked_key-Keeps insert t key t' p keeps valid) e

    integer_tests :
        (z : ℤ) (k : Object N)
        → is_number num (num.of_int z) k ≡ raw_equal num k (number (num.of_int z))
    unfolding raw_equal
    integer_tests z (boolean b) = refl
    integer_tests z (number m) = refl
    integer_tests z (string b) = refl
    integer_tests z (light b) = refl
    integer_tests z (object b) = refl

    getnum-searched :
        (t : Table N) (z : ℤ)
        → getnum num str_hash t z
          ≡ searched num str_hash t (number (num.of_int z)) (integer_place num str_hash t z)
    unfolding getany
    getnum-searched t z = getnum_lem num str_hash laws t (number (num.of_int z)) z (
        ap
          (λ (test : Object N → Bool).
            find test t.node (suc (sizenode t)) (hashnum num t.lsizenode (num.of_int z)))
          (fun_ext (integer_tests z)))

    pub setnum_by-Keeps :
        (insert : Table N → Object N → Outcome N) (t : Table N) (z : ℤ) (t' : Table N) (p : Place)
        → Keeps insert
        → IsValid num str_hash t
        → setnum_by num str_hash insert t z ≡ done t' p
        → IsValid num str_hash t' × IsPlace t' p
    unfolding setnum_by
    setnum_by-Keeps insert t z t' p keeps valid e =
        found_or-Keeps (insert t k) t t' (getnum num str_hash t z) p valid
          (rw (getnum-searched t z) (searched-IsPlace t k (integer_place num str_hash t z)))
          (λ gone.
            keeps t k t' p valid
              (of_place (integer_place num str_hash t z) (sym (getnum-searched t z) ∙ gone)))
          e
      where
        k : Object N
        k = number (num.of_int z)

        of_place :
            (o : Option ℕ)
            → searched num str_hash t k o ≡ nilobject
            → getany num str_hash t (some k) ≡ nilobject
        of_place none h = h
        of_place (some i) h = absurd cc

    -- A value stored where a call says.
    store-IsValid :
        (o : Option (Object N)) (r : Outcome N) (t' : Table N) (p : Place)
        → ((t : Table N) (q : Place) → r ≡ done t q → IsValid num str_hash t × IsPlace t q)
        → store num str_hash o r ≡ done t' p
        → IsValid num str_hash t'
    store-IsValid o (done t q) t' p h e =
        let (same, at) = done-inj e in
        let (valid, used) = h t q refl in rw (sym same) (assign-IsValid t q o valid used)
    store-IsValid o index_nil t' p h e = absurd cc
    store-IsValid o index_nan t' p h e = absurd cc
    store-IsValid o overflow t' p h e = absurd cc
    store-IsValid o stuck t' p h e = absurd cc

    -- A loop that goes on where a call has returned.
    pub after-IsValid :
        (r : Outcome N) (rest : Table N → Outcome N) (t' : Table N) (p : Place)
        → ((t : Table N) (q : Place) → r ≡ done t q → IsValid num str_hash t)
        → ((t : Table N) → IsValid num str_hash t → rest t ≡ done t' p → IsValid num str_hash t')
        → after num str_hash r rest ≡ done t' p
        → IsValid num str_hash t'
    after-IsValid (done t q) rest t' p h go e = go t (h t q refl) e
    after-IsValid index_nil rest t' p h go e = absurd cc
    after-IsValid index_nan rest t' p h go e = absurd cc
    after-IsValid overflow rest t' p h go e = absurd cc
    after-IsValid stuck rest t' p h go e = absurd cc

    pub reinsert_array-IsValid :
        (insert : Table N → Object N → Outcome N) (array : ℕ → Option (Object N)) (n i : ℕ)
        (t t' : Table N) (p : Place)
        → Keeps insert
        → IsValid num str_hash t
        → reinsert_array num str_hash insert array n i t ≡ done t' p
        → IsValid num str_hash t'
    unfolding reinsert_array
    reinsert_array-IsValid insert array zero i t t' p keeps valid e =
        let (same, at) = done-inj e in rw (sym same) valid
    reinsert_array-IsValid insert array (suc n) i t t' p keeps valid e =
        elim (Bool-cases (is_some (array i))) [
          | inl u ↦
              after-IsValid
                (store num str_hash (array i) (setnum_by num str_hash insert t (pos (suc i))))
                (reinsert_array num str_hash insert array n (suc i)) t' p
                (λ t1 q h.
                  store-IsValid (array i) (setnum_by num str_hash insert t (pos (suc i))) t1 q
                    (λ t2 r. setnum_by-Keeps insert t (pos (suc i)) t2 r keeps valid) h)
                (λ t1 v. reinsert_array-IsValid insert array n (suc i) t1 t' p keeps v) (rw u at e)
          | inr u ↦ reinsert_array-IsValid insert array n (suc i) t t' p keeps valid (rw u at e)
        ]

    pub reinsert_nodes-IsValid :
        (insert : Table N → Object N → Outcome N) (nodes : ℕ → Node N) (n : ℕ) (t t' : Table N)
        (p : Place)
        → Keeps insert
        → IsValid num str_hash t
        → reinsert_nodes num str_hash insert nodes n t ≡ done t' p
        → IsValid num str_hash t'
    unfolding reinsert_nodes
    reinsert_nodes-IsValid insert nodes zero t t' p keeps valid e =
        let (same, at) = done-inj e in rw (sym same) valid
    reinsert_nodes-IsValid insert nodes (suc n) t t' p keeps valid e =
        elim (Bool-cases (is_some (nodes n).val)) [
          | inl u ↦
              after-IsValid
                (store num str_hash (nodes n).val (set_by num str_hash insert t (nodes n).key))
                (reinsert_nodes num str_hash insert nodes n) t' p
                (λ t1 q h.
                  store-IsValid (nodes n).val (set_by num str_hash insert t (nodes n).key) t1 q
                    (λ t2 r. set_by-Keeps insert t (nodes n).key t2 r keeps valid) h)
                (λ t1 v. reinsert_nodes-IsValid insert nodes n t1 t' p keeps v) (rw u at e)
          | inr u ↦ reinsert_nodes-IsValid insert nodes n t t' p keeps valid (rw u at e)
        ]
