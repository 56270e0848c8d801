-- ===== src/Tables/Visits.antt =====
-- lua/ltable.c: a traversal by luaH_next visits the entries of a table in the order of their places.
use mathlib.Core.Option.{map as map_option}
use primemover.Prelude.{
  ℕ, zero, suc, ◌+◌, ◌-◌, ◌≤◌, ◌<◌, Option, none, some, List, [], ◌∷◌, ltb, if◌then◌else◌, ◌≡◌, inl,
  inr, refl, sym, ◌∙◌, ap, arith, Option-cases, Bool-cases,
}
use primemover.Prelude.Int.{pos}
use primemover.Tables.{Numbers, Object, number, Table, sizenode, is_some}
use primemover.Tables.Traverse.{
  Start, from, invalid_key, astray, Entry, entry, finished, rejected, lost, scan, start, next_from,
  next, traverse, visit, array_entry, node_entry,
}

scan_found :
    {A : Type 0} (values : ℕ → Option A) (n i : ℕ) {a : A}
    → 0 < n
    → values i ≡ some a
    → scan values n i ≡ some i
unfolding scan
scan_found values zero i h e = absurd (omega arith)
scan_found values (suc n) i h e = rw (e, scan) refl

scan_skip :
    {A : Type 0} (values : ℕ → Option A) (n m i : ℕ)
    → n ≡ suc m
    → values i ≡ none
    → scan values n i ≡ scan values m (suc i)
unfolding scan
scan_skip values zero m i h e = absurd (omega arith)
scan_skip values (suc n) m i h e =
    let same : n ≡ m = omega arith in rw (e, scan) (ap (λ (x : ℕ). scan values x (suc i)) same)

module _ {N : Type 0} (num : Numbers N) where
  abbrev pub positions : Table N → ℕ
  positions t = sizenode t + t.sizearray

  unfoldable pub val_at : Table N → ℕ → Option (Object N)
  val_at t q = if ltb q t.sizearray then t.array q else (t.node (q - t.sizearray)).val

  unfoldable pub key_at : Table N → ℕ → Option (Object N)
  key_at t q =
      if ltb q t.sizearray
      then some (number (num.of_int (pos (suc q))))
      else (t.node (q - t.sizearray)).key

  -- The entries at `n` places from `i` on.
  unfoldable pub live : Table N → (n i : ℕ) → List (Option (Object N) × Option (Object N))
  live t zero i = []
  live t (suc n) i =
      let rest = live t n (suc i) in
      if is_some (val_at t i) then (key_at t i, val_at t i) ∷ rest else rest

  module _ (str_hash : ℕ → ℕ) (t : Table N) where
    pub val_at_low : (q : ℕ) → q < t.sizearray → val_at t q ≡ t.array q
    unfolding val_at
    val_at_low q h = ground arith

    pub val_at_high : (q : ℕ) → t.sizearray ≤ q → val_at t q ≡ (t.node (q - t.sizearray)).val
    unfolding val_at
    val_at_high q h = ground arith

    pub key_at_low :
        (q : ℕ) → q < t.sizearray → key_at t q ≡ some (number (num.of_int (pos (suc q))))
    unfolding key_at
    key_at_low q h = ground arith

    pub key_at_high : (q : ℕ) → t.sizearray ≤ q → key_at t q ≡ (t.node (q - t.sizearray)).key
    unfolding key_at
    key_at_high q h = ground arith

    vals : ℕ → Option (Object N)
    vals j = (t.node j).val

    next_low :
        (i : ℕ)
        → next_from num str_hash t i
          ≡ array_entry num str_hash t i (scan t.array (t.sizearray - i) i)
    unfolding next_from
    next_low i = refl

    next_high :
        (i : ℕ)
        → t.sizearray ≤ i
        → next_from num str_hash t i
          ≡ node_entry num str_hash t (scan vals (sizenode t - (i - t.sizearray)) (i - t.sizearray))
    unfolding scan vals
    next_high i h =
        let zero_left : t.sizearray - i ≡ 0 = omega arith in
        next_low i ∙ ap (λ (x : ℕ). array_entry num str_hash t i (scan t.array x i)) zero_left

    next_live :
        (i : ℕ) (v : Object N)
        → i < positions t
        → val_at t i ≡ some v
        → next_from num str_hash t i ≡ entry (key_at t i) (val_at t i)
    unfolding vals
    next_live i v h e = elim (Bool-cases (ltb i t.sizearray)) [
      | inl u ↦
          let low : i < t.sizearray = ground arith in
          next_low i
          ∙ ap (array_entry num str_hash t i)
              (scan_found t.array (t.sizearray - i) i (omega arith) (sym (val_at_low i low) ∙ e))
          ∙ (λ j. entry (sym (key_at_low i low) j) (sym (val_at_low i low) j))
      | inr u ↦
          let high : t.sizearray ≤ i = ground arith in
          next_high i high
          ∙ ap (node_entry num str_hash t) (
              scan_found vals (sizenode t - (i - t.sizearray)) (i - t.sizearray) (omega arith)
                (sym (val_at_high i high) ∙ e))
          ∙ (λ j. entry (sym (key_at_high i high) j) (sym (val_at_high i high) j))
    ]

    next_empty :
        (i : ℕ)
        → i < positions t
        → val_at t i ≡ none
        → next_from num str_hash t i ≡ next_from num str_hash t (suc i)
    unfolding vals
    next_empty i h e = elim (Bool-cases (ltb i t.sizearray)) [
      | inl u ↦
          let low : i < t.sizearray = ground arith in
          let both : i - t.sizearray ≡ suc i - t.sizearray = omega arith in
          next_low i
          ∙ ap (array_entry num str_hash t i) (
              scan_skip t.array (t.sizearray - i) (t.sizearray - suc i) i (omega arith)
                (sym (val_at_low i low) ∙ e))
          ∙ array_entry-same i (suc i) both (scan t.array (t.sizearray - suc i) (suc i))
          ∙ sym (next_low (suc i))
      | inr u ↦
          let high : t.sizearray ≤ i = ground arith in
          let one : suc (i - t.sizearray) ≡ suc i - t.sizearray = omega arith in
          next_high i high
          ∙ ap (node_entry num str_hash t) (
              scan_skip vals (sizenode t - (i - t.sizearray)) (sizenode t - (suc i - t.sizearray))
                (i - t.sizearray) (omega arith) (sym (val_at_high i high) ∙ e)
              ∙ ap (scan vals (sizenode t - (suc i - t.sizearray))) one)
          ∙ sym (next_high (suc i) (omega arith))
    ]
      where
        array_entry-same :
            (i i' : ℕ)
            → i - t.sizearray ≡ i' - t.sizearray
            → (o : Option ℕ) → array_entry num str_hash t i o ≡ array_entry num str_hash t i' o
        array_entry-same i i' h (some j) = refl
        array_entry-same i i' h none =
            ap
              (λ (x : ℕ). node_entry num str_hash t (scan (λ j. (t.node j).val) (sizenode t - x) x))
              h

    next_end : next_from num str_hash t (positions t) ≡ finished
    unfolding vals scan
    next_end =
        let zero_left : sizenode t - (positions t - t.sizearray) ≡ 0 = omega arith in
        next_high (positions t) (omega arith)
        ∙ ap (λ (x : ℕ). node_entry num str_hash t (scan vals x (positions t - t.sizearray)))
            zero_left

    module _
        (follows : (q : ℕ) (k v : Object N)
          → val_at t q ≡ some v
          → key_at t q ≡ some k
          → start num str_hash t (some k) ≡ from (suc q))
        (keyed : (q : ℕ) (v : Object N)
          → val_at t q ≡ some v
          → (k : Object N) × (key_at t q ≡ some k)) where
      pub traverse-start :
          (fuel i : ℕ) (key : Option (Object N))
          → start num str_hash t key ≡ from i
          → traverse num str_hash (suc fuel) t key
            ≡ visit (traverse num str_hash fuel t) (next_from num str_hash t i)
      unfolding traverse
      traverse-start fuel i key e = ap (visit (traverse num str_hash fuel t)) (next-start i key e)
        where
          next-start :
              (i : ℕ) (key : Option (Object N))
              → start num str_hash t key ≡ from i
              → next num str_hash t key ≡ next_from num str_hash t i
          next-start i key e =
              ap
                (λ (s : Start). elim s as (λ x. Entry N) [
                  | from i ↦ next_from num str_hash t i
                  | invalid_key ↦ rejected
                  | astray ↦ lost
                ])
                e

      live-found :
          (n i : ℕ) {v : Object N}
          → val_at t i ≡ some v
          → live t (suc n) i ≡ (key_at t i, val_at t i) ∷ live t n (suc i)
      unfolding live
      live-found n i e =
          ap
            (λ (o : Option (Object N)).
              if is_some o then (key_at t i, val_at t i) ∷ live t n (suc i) else live t n (suc i))
            e

      live-skip : (n i : ℕ) → val_at t i ≡ none → live t (suc n) i ≡ live t n (suc i)
      unfolding live
      live-skip n i e =
          ap
            (λ (o : Option (Object N)).
              if is_some o then (key_at t i, val_at t i) ∷ live t n (suc i) else live t n (suc i))
            e

      pub visit_lem :
          (n fuel i : ℕ)
          → n + i ≡ positions t
          → n ≤ fuel
          → visit (traverse num str_hash fuel t) (next_from num str_hash t i) ≡ some (live t n i)
      unfolding live
      visit_lem zero fuel i h f =
          let last : i ≡ positions t = omega arith in
          ap (visit (traverse num str_hash fuel t)) (ap (next_from num str_hash t) last ∙ next_end)
      visit_lem (suc n) zero i h f = absurd (omega arith)
      visit_lem (suc n) (suc fuel) i h f = elim (Option-cases (val_at t i)) [
        | inl e ↦
            ap (visit (traverse num str_hash (suc fuel) t)) (next_empty i (omega arith) e)
            ∙ visit_lem n (suc fuel) (suc i) (omega arith) (omega arith)
            ∙ ap some (sym (live-skip n i e))
        | inr (v, e) ↦
            let (k, at) = keyed i v e in
            ap (visit (traverse num str_hash (suc fuel) t)) (next_live i v (omega arith) e)
            ∙ ap (map_option (λ rest. (key_at t i, val_at t i) ∷ rest)) (
                ap (traverse num str_hash (suc fuel) t) at
                ∙ traverse-start fuel (suc i) (some k) (follows i k v e at)
                ∙ visit_lem n fuel (suc i) (omega arith) (omega arith))
            ∙ ap some (sym (live-found n i e))
      ]
