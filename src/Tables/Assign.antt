-- ===== src/Tables/Assign.antt =====
-- lua/ltable.c: what luaH_set does with a new key where the table need not grow.
use primemover.Prelude.{
  ℕ, zero, suc, true, false, Option, none, some, ◌≡◌, ◌≢◌, refl, sym, ◌∙◌, ap, Option-cases, inl,
  inr,
}
use primemover.Prelude.Int.{ℤ, pos, negsuc}
use primemover.Tables.{
  Numbers, Object, boolean, number, string, light, object, Table, Place, in_array, in_node,
  nilobject, out_of_fuel, read, get, getany, raw_equal,
}
use primemover.Tables.Insert.{placed, place_key, next_free}
use primemover.Tables.Equal.{IsLawful, IsValid}
use primemover.Tables.Get.{array_place, integer_place, searched, get_lem}
use primemover.Tables.Resize.{Outcome, done, set, set_by, newkey, checked_key, found_or}
use primemover.Tables.Places.{
  place_key-After, place_key-IsValid, place_key-getany, place_key-others,
}

abbrev free_at : {N : Type 0} → Table N → ℕ → Table N
free_at t f = record t { firstfree = f }

module _ {N : Type 0} (num : Numbers N) (str_hash : ℕ → ℕ) where
  getany-free_at :
      (t : Table N) (f : ℕ) (k : Object N)
      → getany num str_hash (free_at t f) (some k) ≡ getany num str_hash t (some k)
  unfolding getany
  getany-free_at t f k = refl

  integer_place-same :
      (t t' : Table N) (z : ℤ)
      → t'.sizearray ≡ t.sizearray
      → integer_place num str_hash t' z ≡ integer_place num str_hash t z
  integer_place-same t t' (pos (suc i)) e = rw e refl
  integer_place-same t t' (pos zero) e = refl
  integer_place-same t t' (negsuc i) e = refl

  array_place-same :
      (t t' : Table N) (k : Object N)
      → t'.sizearray ≡ t.sizearray
      → array_place num str_hash t' k ≡ array_place num str_hash t k
  unfolding array_place
  array_place-same t t' (number n) e = rw (integer_place-same t t' (num.to_int n) e) refl
  array_place-same t t' (boolean b) e = refl
  array_place-same t t' (string b) e = refl
  array_place-same t t' (light b) e = refl
  array_place-same t t' (object b) e = refl

  checked_key-lem :
      (insert : Table N → Object N → Outcome N) (t : Table N) (k : Object N)
      → raw_equal num k k ≡ true
      → checked_key num str_hash insert t (some k) ≡ insert t k
  unfolding raw_equal
  checked_key-lem insert t (number n) e = rw e refl
  checked_key-lem insert t (boolean b) e = refl
  checked_key-lem insert t (string b) e = refl
  checked_key-lem insert t (light b) e = refl
  checked_key-lem insert t (object b) e = refl

  -- What a key is mapped to, by the array part or by the hash part.
  abbrev mapped_at : Table N → Object N → Option ℕ → Option (Object N)
  mapped_at t k (some i) = t.array i
  mapped_at t k none = read t (getany num str_hash t (some k))

  module _ (laws : IsLawful num) where
    read_get :
        (t : Table N) (k : Object N) (o : Option ℕ)
        → array_place num str_hash t k ≡ o
        → read t (get num str_hash t (some k)) ≡ mapped_at t k o
    read_get t k (some i) e = rw (get_lem num str_hash laws t k) (rw e refl)
    read_get t k none e = rw (get_lem num str_hash laws t k) (rw e refl)

    not_in_array :
        (t : Table N) (k : Object N)
        → get num str_hash t (some k) ≡ nilobject
        → (array_place num str_hash t k ≡ none) × (getany num str_hash t (some k) ≡ nilobject)
    not_in_array t k h = elim (Option-cases (array_place num str_hash t k)) [
      | inl e ↦ (e, sym (get_lem num str_hash laws t k ∙ ap (searched num str_hash t k) e) ∙ h)
      | inr (i, e) ↦
          absurd
            (clash (sym (get_lem num str_hash laws t k ∙ ap (searched num str_hash t k) e) ∙ h))
    ]
      where
        clash : {i : ℕ} → in_array i ≢ nilobject
        clash = cc

    module _ (t t1 : Table N) (k : Object N) (p free : ℕ) (valid : IsValid num str_hash t)
        (new : get num str_hash t (some k) ≡ nilobject) (same : raw_equal num k k ≡ true)
        (placed_at : place_key num str_hash t k ≡ placed t1 p)
        (found : next_free t1.node t1.firstfree ≡ some free) where
      absent : getany num str_hash t (some k) ≡ nilobject
      absent = (not_in_array t k new).1

      size_kept : (free_at t1 free).sizearray ≡ t.sizearray
      size_kept =
          let (nodes, bound, l, small, made, r) =
            place_key-After num str_hash laws t t1 k p valid absent placed_at in
          ap (λ (x : Table N). x.sizearray) made

      array_kept : (free_at t1 free).array ≡ t.array
      array_kept =
          let (nodes, bound, l, small, made, r) =
            place_key-After num str_hash laws t t1 k p valid absent placed_at in
          ap (λ (x : Table N). x.array) made

      set_done :
          (depth : ℕ) → set num str_hash (suc depth) t (some k) ≡ done (free_at t1 free) (in_node p)
      unfolding set set_by newkey
      set_done depth =
          rw (new, found_or)
            (rw (checked_key-lem (newkey num str_hash (suc depth)) t k same)
              (rw placed_at (rw found refl)))

      get_new : get num str_hash (free_at t1 free) (some k) ≡ in_node p
      get_new =
          let (at, vacant) =
            place_key-getany num str_hash laws t t1 k p valid absent same placed_at in
          get_lem num str_hash laws (free_at t1 free) k
          ∙ rw (array_place-same t (free_at t1 free) k size_kept)
              (rw ((not_in_array t k new).0) (getany-free_at t1 free k ∙ at))

      get_other :
          (other : Object N)
          → raw_equal num k other ≡ false
          → read (free_at t1 free) (get num str_hash (free_at t1 free) (some other))
            ≡ read t (get num str_hash t (some other))
      get_other other differs = elim (Option-cases (array_place num str_hash t other)) [
        | inr (i, e) ↦
            read_get (free_at t1 free) other (some i)
              (array_place-same t (free_at t1 free) other size_kept ∙ e)
            ∙ ap (λ (a : ℕ → Option (Object N)). a i) array_kept
            ∙ sym (read_get t other (some i) e)
        | inl e ↦
            read_get (free_at t1 free) other none
              (array_place-same t (free_at t1 free) other size_kept ∙ e)
            ∙ in_hash
            ∙ sym (read_get t other none e)
      ]
        where
          read-free_at : (q : Place) → read (free_at t1 free) q ≡ read t1 q
          read-free_at (in_array i) = refl
          read-free_at (in_node i) = refl
          read-free_at nilobject = refl
          read-free_at out_of_fuel = refl

          in_hash :
              read (free_at t1 free) (getany num str_hash (free_at t1 free) (some other))
              ≡ read t (getany num str_hash t (some other))
          in_hash =
              rw (getany-free_at t1 free other) (read-free_at _)
              ∙ place_key-others num str_hash laws t t1 k other p valid absent differs placed_at

    -- The call of luaH_set has changed the table to this one and has made the node `p` for the key
    -- `k`: the table is valid, luaH_get finds the node for the key, which holds nil, and gives for
    -- the key `other` what it gave before.
    abbrev pub Added : Table N → Object N → Object N → Outcome N → Type 0
    Added t k other r =
        (t' : Table N) × (p : ℕ) × (r ≡ done t' (in_node p))
        × IsValid num str_hash t'
        × (get num str_hash t' (some k) ≡ in_node p)
        × ((t'.node p).val ≡ none)
        × (read t' (get num str_hash t' (some other)) ≡ read t (get num str_hash t (some other)))

    -- Where luaH_get does not find a key that equals itself in a valid table, and newkey is left with
    -- a free node at or below `firstfree` when it has placed the key, luaH_set ends with a valid
    -- table, in which luaH_get finds a node with nil for the key, and for every other key, in the
    -- array part or in a node, what it gave before.
    pub set-Added :
        (depth : ℕ) (t t1 : Table N) (k other : Object N) (p free : ℕ)
        → IsValid num str_hash t
        → get num str_hash t (some k) ≡ nilobject
        → raw_equal num k k ≡ true
        → raw_equal num k other ≡ false
        → place_key num str_hash t k ≡ placed t1 p
        → next_free t1.node t1.firstfree ≡ some free
        → Added t k other (set num str_hash (suc depth) t (some k))
    set-Added depth t t1 k other p free valid new same differs placed_at found =
        let gone = absent t t1 k p free valid new same placed_at found in
        (
          free_at t1 free,
          p,
          set_done t t1 k p free valid new same placed_at found depth,
          place_key-IsValid num str_hash laws t t1 k p free valid gone placed_at found,
          get_new t t1 k p free valid new same placed_at found,
          (place_key-getany num str_hash laws t t1 k p valid gone same placed_at).1,
          get_other t t1 k p free valid new same placed_at found other differs,
        )
