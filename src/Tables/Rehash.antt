-- ===== src/Tables/Rehash.antt =====
-- lua/ltable.c: where `newkey` and luaH_set end, the table is valid, also where it has grown.
use primemover.Prelude.{
  ℕ, zero, suc, ◌-◌, Option, none, some, ltb, if◌then◌else◌, ◌≡◌, inl, inr, refl, sym, arith,
  Bool-cases,
}
use primemover.Objects.{log2}
use primemover.Tables.{
  Numbers, Object, Table, sizenode, Place, in_array, in_node, nilobject, out_of_fuel, assign, get,
}
use primemover.Tables.Insert.{Placed, placed, fault, place_key, next_free}
use primemover.Tables.Links.{clash_some}
use primemover.Tables.Equal.{IsLawful, IsValid}
use primemover.Tables.Resize.{
  Outcome, done, index_nil, index_nan, overflow, stuck, after, vanish, refill, resize, resize_to,
  resize_for, grow, rehash, correct_firstfree, newkey, set, hold, numuse, Sizes, log2_next,
  setarrayvector, reinsert_nodes,
}
use primemover.Tables.Places.{place_key-IsValid, place_key-key}
use primemover.Tables.Growth.{
  IsPlace, Keeps, assign-IsValid, setnodevector-IsValid, done-inj, get-IsPlace,
  reinsert_array-IsValid, reinsert_nodes-IsValid, after-IsValid, set_by-Keeps,
}

assign-IsPlace :
    {N : Type 0} (t : Table N) (p : Place) (o : Option (Object N))
    → IsPlace t p
    → IsPlace (assign t p o) p
assign-IsPlace t (in_node j) o used = λ h. used (ground arith)
assign-IsPlace t (in_array i) o used = tt
assign-IsPlace t nilobject o used = tt
assign-IsPlace t out_of_fuel o used = tt

module _ {N : Type 0} (num : Numbers N) (str_hash : ℕ → ℕ) (laws : IsLawful num) where
  vanish-IsValid :
      (insert : Table N → Object N → Outcome N) (t : Table N) (nasize : ℕ) (fresh t' : Table N)
      (p : Place)
      → Keeps num str_hash insert
      → IsValid num str_hash fresh
      → vanish num str_hash insert t nasize fresh ≡ done t' p
      → IsValid num str_hash t'
  unfolding vanish IsValid
  vanish-IsValid insert t nasize fresh t' p keeps valid e =
      elim (Bool-cases (ltb nasize t.sizearray)) [
        | inl u ↦
            reinsert_array-IsValid num str_hash laws insert t.array (t.sizearray - nasize) nasize
              (record fresh { sizearray = nasize }) t' p keeps valid (rw u at e)
        | inr u ↦ let (same, at) = done-inj num str_hash (rw u at e) in rw (sym same) valid
      ]

  refill-IsValid :
      (insert : Table N → Object N → Outcome N) (t : Table N) (nasize : ℕ) (o : Option (Table N))
      (t' : Table N) (p : Place)
      → Keeps num str_hash insert
      → ((fresh : Table N) → o ≡ some fresh → IsValid num str_hash fresh)
      → refill num str_hash insert t nasize o ≡ done t' p
      → IsValid num str_hash t'
  refill-IsValid insert t nasize none t' p keeps valid e = absurd cc
  refill-IsValid insert t nasize (some fresh) t' p keeps valid e =
      after-IsValid num str_hash laws (vanish num str_hash insert t nasize fresh)
        (reinsert_nodes num str_hash insert t.node (sizenode t)) t' p
        (λ t1 q h. vanish-IsValid insert t nasize fresh t1 q keeps (valid fresh refl) h)
        (λ t1 v.
          reinsert_nodes-IsValid num str_hash laws insert t.node (sizenode t) t1 t' p keeps v)
        e

  resize-IsValid :
      (insert : Table N → Object N → Outcome N) (t : Table N) (nasize nhsize : ℕ) (t' : Table N)
      (p : Place)
      → Keeps num str_hash insert
      → resize num str_hash insert t nasize nhsize ≡ done t' p
      → IsValid num str_hash t'
  unfolding resize
  resize-IsValid insert t nasize nhsize t' p keeps e =
      refill-IsValid insert t nasize _ t' p keeps
        (λ fresh h.
          setnodevector-IsValid num str_hash
            (if ltb t.sizearray nasize then setarrayvector t nasize else t) fresh nhsize h)
        e

  rehash-IsValid :
      (insert : Table N → Object N → Outcome N) (t t' : Table N) (p : Place)
      → Keeps num str_hash insert
      → rehash num str_hash insert t ≡ done t' p
      → IsValid num str_hash t'
  unfolding rehash
  rehash-IsValid insert t t' p keeps e = of_sizes (numuse num t) e
    where
      of_log :
          (nasize : ℕ) (o : Option ℕ)
          → resize_to num str_hash insert t nasize o ≡ done t' p
          → IsValid num str_hash t'
      of_log nasize none e = absurd cc
      of_log nasize (some lsize) e = resize-IsValid insert t nasize lsize t' p keeps e

      of_sizes :
          (o : Option Sizes)
          → resize_for num str_hash insert t o ≡ done t' p
          → IsValid num str_hash t'
      of_sizes none e = absurd cc
      of_sizes (some s) e = of_log s.narray (log2_next num str_hash (log2 s.nhash)) e

  after_done :
      (r : Outcome N) (rest : Table N → Outcome N) (t' : Table N) (p : Place)
      → after num str_hash r rest ≡ done t' p
      → (t : Table N) × (q : Place) × (r ≡ done t q) × (rest t ≡ done t' p)
  after_done (done t q) rest t' p e = (t, q, refl, e)
  after_done index_nil rest t' p e = absurd cc
  after_done index_nan rest t' p e = absurd cc
  after_done overflow rest t' p e = absurd cc
  after_done stuck rest t' p e = absurd cc

  grow-Keeps :
      (insert : Table N → Object N → Outcome N) (k : Object N) (t : Table N) (p : ℕ) (o : Option ℕ)
      (t' : Table N) (q : Place)
      → Keeps num str_hash insert
      → (t.node p).key ≡ some k
      → ((free : ℕ) → o ≡ some free → IsValid num str_hash (record t { firstfree = free }))
      → grow num str_hash insert k t p o ≡ done t' q
      → IsValid num str_hash t' × IsPlace t' q
  grow-Keeps insert k t p (some free) t' q keeps at valid e =
      let (same, place) = done-inj num str_hash e in
      rw (sym same, sym place) (valid free refl, λ h. clash_some at h)
  grow-Keeps insert k t p none t' q keeps at valid e =
      let (grown, r, h, h') =
        after_done (rehash num str_hash insert (hold num str_hash t p)) _ t' q e in
      let v = rehash-IsValid insert (hold num str_hash t p) grown r keeps h in
      let place = get-IsPlace num str_hash laws grown (some k) in
      let (same, at_place) = done-inj num str_hash h' in
      rw (sym same, sym at_place)
        (
          assign-IsValid num str_hash grown (get num str_hash grown (some k)) none v place,
          assign-IsPlace grown (get num str_hash grown (some k)) none place,
        )

  -- `newkey` keeps a table valid, and the place it returns is an element of the array part or a
  -- node that has a key.
  pub newkey-Keeps : (depth : ℕ) → Keeps num str_hash (newkey num str_hash depth)
  unfolding newkey
  newkey-Keeps zero t k t' q valid gone e = absurd cc
  newkey-Keeps (suc depth) t k t' q valid gone e =
      of_placed (newkey-Keeps depth) (place_key num str_hash t k) refl e
    where
      of_placed :
          Keeps num str_hash (newkey num str_hash depth)
          → (o : Placed N) → place_key num str_hash t k ≡ o
          → correct_firstfree num str_hash (newkey num str_hash depth) k o ≡ done t' q
          → IsValid num str_hash t' × IsPlace t' q
      of_placed keeps fault h e = absurd cc
      of_placed keeps (placed t1 p) h e =
          grow-Keeps (newkey num str_hash depth) k t1 p (next_free t1.node t1.firstfree) t' q keeps
            (place_key-key num str_hash laws t t1 k p valid gone h)
            (λ free found. place_key-IsValid num str_hash laws t t1 k p free valid gone h found) e

  -- Where luaH_set ends, the table is valid, and so it is with a value stored where luaH_set says.
  pub set-IsValid :
      (depth : ℕ) (t t' : Table N) (key o : Option (Object N)) (p : Place)
      → IsValid num str_hash t
      → set num str_hash depth t key ≡ done t' p
      → IsValid num str_hash t' × IsValid num str_hash (assign t' p o)
  unfolding set
  set-IsValid depth t t' key o p valid e =
      let (v, place) =
        set_by-Keeps num str_hash laws (newkey num str_hash depth) t key t' p (newkey-Keeps depth)
          valid e in
      (v, assign-IsValid num str_hash t' p o v place)
