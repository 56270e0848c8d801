-- ===== src/Tables/Sizes.antt =====
-- lua/ltable.c: the size that computesizes chooses for the array part.
use mathlib.Core.Option.{map as map_option}
use primemover.Prelude.{
  ℕ, zero, suc, ◌+◌, ◌-◌, ◌*◌, ◌^◌, ◌≤◌, false, ◌&&◌, Option, none, some, ◌==◌, ltb, leb, ◌≡◌, ◌⊎◌,
  inl, inr, refl, ◌∙◌, ap, arith, Bool-cases,
}
use native.Mathlib.Nat.{pow-suc}
use primemover.Tables.Resize.{computesizes_loop, computesizes, Sizes, sizes_of, smallest}

-- The integer keys up to 2 ^ m.
unfoldable pub used : (ℕ → ℕ) → ℕ → ℕ
used nums zero = nums 0
used nums (suc m) = used nums m + nums (suc m)

used_le : (nums : ℕ → ℕ) (m d : ℕ) → used nums m ≤ used nums (d + m)
unfolding used
used_le nums m zero = let same : 0 + m ≡ m = omega arith in rw same (omega arith)
used_le nums m (suc d) =
    let same : suc d + m ≡ suc (d + m) = omega arith in rw same (omega (arith, used_le nums m d))

pow-le : (m d : ℕ) → 2 ^ m ≤ 2 ^ (d + m)
pow-le m zero = let same : 0 + m ≡ m = omega arith in rw same (omega arith)
pow-le m (suc d) =
    let same : suc d + m ≡ suc (d + m) = omega arith in
    rw same (omega (arith, pow-le m d, pow-suc 2 (d + m)))

-- No power of two between the bounds has more than half of its places in use.
abbrev Sparse : (ℕ → ℕ) → ℕ → ℕ → Type 0
Sparse nums low high = (m : ℕ) → low ≤ m → m ≤ high → 2 * used nums m ≤ 2 ^ m

-- The choice among the powers up to 2 ^ high: none, or the last of which at least half is in use.
abbrev Chosen : (ℕ → ℕ) → ℕ → ℕ → Option ℕ → Type 0
Chosen nums high na none = (na ≡ 0) × Sparse nums 0 high
Chosen nums high na (some n) =
    (na ≡ used nums n) × (n ≤ high) × (2 ^ n ≤ 2 * na) × Sparse nums (suc n) high

-- What computesizes gives: no array part, or one whose size is a power of two, at least half of it
-- in use; no larger power of two has more than half of its places in use, and the other entries go
-- to the hash part.
unfoldable pub IsBest : (ℕ → ℕ) → ℕ → Sizes → Type 0
IsBest nums ntotal s =
    ((s.narray ≡ 0) × (s.nhash ≡ ntotal) × Sparse nums 0 24)
    ⊎ ((n : ℕ) × (s.narray ≡ 2 ^ n)
        × (n ≤ 24)
        × (s.nhash + used nums n ≡ ntotal)
        × (s.narray ≤ 2 * used nums n)
        × Sparse nums (suc n) 24)

used_zero : (nums : ℕ → ℕ) → used nums 0 ≡ nums 0
unfolding used
used_zero nums = refl

computesizes-lem :
    (nums : ℕ → ℕ) (ntotal narray : ℕ)
    → computesizes nums ntotal narray
      ≡ map_option
          (sizes_of ntotal)
          (computesizes_loop nums narray 24 0 (nums 0) (nums 0) (smallest (nums 0)))
unfolding computesizes
computesizes-lem nums ntotal narray = refl

module _ (nums : ℕ → ℕ) (narray : ℕ) (all : used nums 24 ≡ narray)
    (fits : (m : ℕ) → used nums m ≤ 2 ^ m) where
  Chosen-suc :
      (i na : ℕ) (n : Option ℕ)
      → 2 * used nums (suc i) ≤ 2 ^ suc i
      → Chosen nums i na n
      → Chosen nums (suc i) na n
  Chosen-suc i na none h (z, s) = (z, λ m low high. upto m low high)
    where
      upto : (m : ℕ) → 0 ≤ m → m ≤ suc i → 2 * used nums m ≤ 2 ^ m
      upto m low high = elim (Bool-cases (m == suc i)) [
        | inl e ↦ let same : m ≡ suc i = ground arith in rw same h
        | inr e ↦ s m low (ground arith)
      ]
  Chosen-suc i na (some n) h (z, below, half, s) = (z, omega arith, half, upto)
    where
      upto : (m : ℕ) → suc n ≤ m → m ≤ suc i → 2 * used nums m ≤ 2 ^ m
      upto m low high = elim (Bool-cases (m == suc i)) [
        | inl e ↦ let same : m ≡ suc i = ground arith in rw same h
        | inr e ↦ s m low (ground arith)
      ]

  -- Where the loop stops, what is left is sparse.
  Chosen-stop :
      (i na : ℕ) (n : Option ℕ)
      → i ≤ 24
      → (ltb (used nums i) narray && leb (2 ^ i) narray) ≡ false
      → Chosen nums i na n
      → Chosen nums 24 na n
  Chosen-stop i na n inside stop c =
      let same : 24 ≡ 24 - i + i = omega arith in rw same (extend (24 - i) (omega arith))
    where
      enough : (d : ℕ) → suc d + i ≤ 24 → used nums (suc d + i) ≤ 2 ^ i
      enough d h =
          let room : 24 ≡ 24 - (suc d + i) + (suc d + i) = omega arith in
          let low = used_le nums (suc d + i) (24 - (suc d + i)) in
          let top : used nums (24 - (suc d + i) + (suc d + i)) ≡ narray = rw room at all in
          let own = fits i in
          let later = used_le nums i (suc d) in ground (arith, low, top, own, later)

      sparse : (d : ℕ) → suc d + i ≤ 24 → 2 * used nums (suc d + i) ≤ 2 ^ suc (d + i)
      sparse d h = omega (arith, enough d h, pow-le i d, pow-suc 2 (d + i))

      extend : (d : ℕ) → d + i ≤ 24 → Chosen nums (d + i) na n
      extend zero h = let same : 0 + i ≡ i = omega arith in rw same c
      extend (suc d) h =
          let same : suc d + i ≡ suc (d + i) = omega arith in
          rw same (Chosen-suc (d + i) na n (rw same at (sparse d h)) (extend d (omega arith)))

  computesizes_loop-Chosen :
      (fuel i na : ℕ) (n : Option ℕ)
      → fuel + i ≡ 24
      → Chosen nums i na n
      → (na' : ℕ) × (n' : Option ℕ) × (computesizes_loop nums narray fuel i (used nums i) na n
          ≡ some (na', n'))
        × Chosen nums 24 na' n'
  unfolding computesizes_loop used
  computesizes_loop-Chosen zero i na n h c =
      elim (Bool-cases (ltb (used nums i) narray && leb (2 ^ i) narray)) [
        | inl go ↦ let same : 24 ≡ i = omega arith in absurd (ground (arith, rw same at all))
        | inr stop ↦ (na, n, rw stop refl, Chosen-stop i na n (omega arith) stop c)
      ]
  computesizes_loop-Chosen (suc fuel) i na n h c =
      elim (Bool-cases (ltb (used nums i) narray && leb (2 ^ i) narray)) [
        | inr stop ↦ (na, n, rw stop refl, Chosen-stop i na n (omega arith) stop c)
        | inl go ↦ rw go (elim (Bool-cases (ltb 0 (nums (suc i)))) [
          | inr empty ↦
              let same : used nums i + nums (suc i) ≡ used nums i = ground arith in
              let rest =
                computesizes_loop-Chosen fuel (suc i) na n (omega arith)
                  (Chosen-suc i na n (omega (arith, fits i, same, pow-suc 2 i)) c) in
              rw empty (rw same at rest)
          | inl present ↦ rw present (elim (Bool-cases (leb (2 ^ i) (used nums i + nums (suc i)))) [
            | inl many ↦ rw many (
                computesizes_loop-Chosen fuel (suc i) (used nums (suc i)) (some (suc i))
                  (omega arith)
                  (
                    refl,
                    omega arith,
                    ground (arith, pow-suc 2 i),
                    λ m low high. absurd (omega arith),
                  ))
            | inr few ↦ rw few (
                computesizes_loop-Chosen fuel (suc i) na n (omega arith)
                  (Chosen-suc i na n (ground (arith, pow-suc 2 i)) c))
          ])
        ])
      ]

  used_le_total : (ntotal n : ℕ) → narray ≤ ntotal → n ≤ 24 → used nums n ≤ ntotal
  used_le_total ntotal n total h =
      let same : 24 ≡ 24 - n + n = omega arith in
      omega (arith, rw same at all, used_le nums n (24 - n))

  smallest-Chosen : Chosen nums 0 (nums 0) (smallest (nums 0))
  unfolding used
  smallest-Chosen = elim (Bool-cases (nums 0 == 0)) [
    | inl e ↦ rw e (ground arith, λ m low high. sparse (ground arith) m high)
    | inr e ↦ rw e (refl, omega arith, ground arith, λ m low high. absurd (omega arith))
  ]
    where
      sparse : nums 0 ≡ 0 → (m : ℕ) → m ≤ 0 → 2 * used nums m ≤ 2 ^ m
      sparse e zero h = rw e (omega arith)
      sparse e (suc m) h = absurd (omega arith)

  sizes_of-IsBest :
      (ntotal na : ℕ) (n : Option ℕ)
      → narray ≤ ntotal
      → Chosen nums 24 na n
      → IsBest nums ntotal (sizes_of ntotal (na, n))
  unfolding IsBest
  sizes_of-IsBest ntotal na none total c = inl (refl, omega (arith, c.0), c.1)
  sizes_of-IsBest ntotal na (some n) total c = inr (
    n,
    refl,
    c.1,
    omega (arith, c.0, used_le_total ntotal n total c.1),
    omega (arith, c.0, c.2),
    c.3,
  )

  loop-Chosen :
      (na : ℕ) × (n : Option ℕ) × (computesizes_loop nums narray 24 0
          (nums 0)
          (nums 0)
          (smallest (nums 0))
        ≡ some (na, n))
      × Chosen nums 24 na n
  loop-Chosen =
      rw (used_zero nums) at
        (computesizes_loop-Chosen 24 0 (nums 0) (smallest (nums 0)) refl smallest-Chosen)

  pub computesizes-IsBest :
      (ntotal : ℕ)
      → narray ≤ ntotal
      → (s : Sizes) × (computesizes nums ntotal narray ≡ some s) × IsBest nums ntotal s
  computesizes-IsBest ntotal total =
      let (na, n, e, c) = loop-Chosen in
      (
        sizes_of ntotal (na, n),
        computesizes-lem nums ntotal narray ∙ ap (map_option (sizes_of ntotal)) e,
        sizes_of-IsBest ntotal na n total c,
      )
