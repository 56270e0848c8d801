-- ===== src/Strings/Search.antt =====
-- lua/lstrlib.c: the plain search.
use primemover.Prelude.{
  ℕ, zero, suc, ◌+◌, ◌-◌, ◌<◌, ◌≤◌, true, false, Option, none, some, [], ◌∷◌, take, drop, length,
  ltb, if◌then◌else◌, ◌≡◌, refl, arith, Option-cases, Bool-cases, inl, inr, length-drop, ◌∙◌, sym,
}
use primemover.Proto.{Bytes}
use primemover.Strings.{memcmp_eq, memchr, lmemfind_loop, lmemfind}

-- The search at every position in turn.
unfoldable pub search : ℕ → Bytes → Bytes → Option ℕ
unfolding memcmp_eq
search offset [] t = if memcmp_eq [] t then some offset else none
search offset (b ∷ s) t =
    let rest = search (offset + 1) s t in if memcmp_eq (b ∷ s) t then some offset else rest

-- What is longer than the string is not in it.
search_short : (offset : ℕ) (s t : Bytes) → length s < length t → search offset s t ≡ none
unfolding search memcmp_eq
search_short offset [] [] h = absurd (omega arith)
search_short offset [] (c ∷ t) h = refl
search_short offset (b ∷ s) [] h = absurd (omega arith)
search_short offset (b ∷ s) (c ∷ t) h =
    ground (arith, memcmp_eq-short s t, search_short (offset + 1) s (c ∷ t))
  where
    memcmp_eq-short : (s t : Bytes) → length s < length t → memcmp_eq s t ≡ false
    memcmp_eq-short s [] h = absurd (omega arith)
    memcmp_eq-short [] (c ∷ t) h = refl
    memcmp_eq-short (b ∷ s) (c ∷ t) h = ground (arith, memcmp_eq-short s t)

module _ (c : ℕ) (t : Bytes) where
  -- Where the first byte is not, the search finds nothing.
  search_absent :
      (n offset : ℕ) (s : Bytes)
      → length s ≤ n + length t
      → memchr s c n ≡ none
      → search offset s (c ∷ t) ≡ none
  unfolding memchr search memcmp_eq
  search_absent zero offset s fits h = search_short offset s (c ∷ t) (omega arith)
  search_absent (suc n) offset [] fits h = refl
  search_absent (suc n) offset (b ∷ s) fits h = ground (arith, search_absent n (offset + 1) s)

  -- The search goes on from the first place where the first byte is.
  search_present :
      (n offset k : ℕ) (s : Bytes)
      → memchr s c n ≡ some k
      → search offset s (c ∷ t) ≡ (
          if memcmp_eq (drop (suc k) s) t
          then some (offset + k)
          else search (offset + suc k) (drop (suc k) s) (c ∷ t))
  unfolding memchr search memcmp_eq
  search_present zero offset k s h = cc
  search_present (suc n) offset k [] h = cc
  search_present (suc n) offset zero (b ∷ s) h = elim (Option-cases (memchr s c n)) [
    | inl e ↦ ground arith
    | inr (k, e) ↦ ground arith
  ]
  search_present (suc n) offset (suc k) (b ∷ s) h = elim (Option-cases (memchr s c n)) [
    | inl e ↦ ground arith
    | inr (k', e) ↦
        let here : offset + 1 + k ≡ offset + suc k = omega arith in
        let next : offset + 1 + suc k ≡ offset + suc (suc k) = omega arith in
        let later = search_present n (offset + 1) k s in ground (arith, later, here, next)
  ]

  memchr-lt : (s : Bytes) (n : ℕ) {k : ℕ} → memchr s c n ≡ some k → k < n
  unfolding memchr
  memchr-lt s zero h = cc
  memchr-lt [] (suc n) h = cc
  memchr-lt (b ∷ s) (suc n) {k = k} h = elim (Option-cases (memchr s c n)) [
    | inl e ↦ ground arith
    | inr (k', e) ↦ let lt = memchr-lt s n e in ground (arith, lt)
  ]

  lmemfind_loop-search :
      (fuel offset l1 : ℕ) (s : Bytes)
      → l1 < fuel
      → length s ≤ l1 + length t
      → lmemfind_loop fuel offset s l1 c t ≡ search offset s (c ∷ t)
  unfolding lmemfind_loop
  lmemfind_loop-search zero offset l1 s enough fits = absurd (omega arith)
  lmemfind_loop-search (suc fuel) offset l1 s enough fits = elim (Option-cases (memchr s c l1)) [
    | inl e ↦ rw (e, lmemfind_loop) (sym (search_absent l1 offset s fits e))
    | inr (k, e) ↦
        let lt = memchr-lt s l1 e in
        let rest =
          lmemfind_loop-search fuel (offset + suc k) (l1 - suc k) (drop (suc k) s)
            (omega (arith, lt)) (omega (arith, lt, length-drop (suc k) s)) in
        rw (e, lmemfind_loop, rest) (sym (search_present l1 offset k s e))
  ]

-- `lmemfind`, which looks for the first byte by memchr and compares the others by memcmp, finds what
-- the search at every position finds.
pub lmemfind-search : (s1 s2 : Bytes) → lmemfind s1 s2 ≡ search 0 s1 s2
unfolding lmemfind search memcmp_eq
lmemfind-search [] [] = refl
lmemfind-search (b ∷ s) [] = refl
lmemfind-search s1 (c ∷ t) = elim (Bool-cases (ltb (length s1) (length t + 1))) [
  | inl h ↦ rw h (sym (search_short 0 s1 (c ∷ t) (ground arith)))
  | inr h ↦
      rw h (lmemfind_loop-search c t _ 0 (length s1 - length t) s1 (omega arith) (omega arith))
]

memcmp_eq-take : (s t : Bytes) → memcmp_eq s t ≡ true → take (length t) s ≡ t
unfolding memcmp_eq
memcmp_eq-take s [] h = refl
memcmp_eq-take [] (c ∷ t) h = cc
memcmp_eq-take (b ∷ s) (c ∷ t) h = ground (arith, memcmp_eq-take s t)

take-memcmp_eq : (s t : Bytes) → take (length t) s ≡ t → memcmp_eq s t ≡ true
unfolding memcmp_eq
take-memcmp_eq s [] h = refl
take-memcmp_eq [] (c ∷ t) h = cc
take-memcmp_eq (b ∷ s) (c ∷ t) h = ground (arith, take-memcmp_eq s t)

abbrev pub OccursAt : Bytes → ℕ → Bytes → Type 0
OccursAt s j t = take (length t) (drop j s) ≡ t

search-OccursAt :
    (offset : ℕ) (s t : Bytes) {k : ℕ}
    → search offset s t ≡ some k
    → (j : ℕ) × (k ≡ offset + j) × OccursAt s j t
unfolding search
search-OccursAt offset [] t h = elim (Bool-cases (memcmp_eq [] t)) [
  | inl e ↦ (0, ground arith, memcmp_eq-take [] t e)
  | inr e ↦ ground arith
]
search-OccursAt offset (b ∷ s) t {k = k} h = elim (Bool-cases (memcmp_eq (b ∷ s) t)) [
  | inl e ↦ (0, ground arith, memcmp_eq-take (b ∷ s) t e)
  | inr e ↦
      let (j, at, found) = search-OccursAt (offset + 1) s t {k = k} (ground arith) in
      (suc j, omega (arith, at), found)
]

search_first :
    (offset : ℕ) (s t : Bytes) {k : ℕ} (i : ℕ)
    → search offset s t ≡ some k
    → offset + i < k
    → ¬ OccursAt s i t
unfolding search
search_first offset [] t i h lt o = elim (Bool-cases (memcmp_eq [] t)) [
  | inl e ↦ ground arith
  | inr e ↦ ground arith
]
search_first offset (b ∷ s) t zero h lt o = ground (arith, take-memcmp_eq (b ∷ s) t o)
search_first offset (b ∷ s) t {k = k} (suc i) h lt o = elim (Bool-cases (memcmp_eq (b ∷ s) t)) [
  | inl e ↦ ground arith
  | inr e ↦ search_first (offset + 1) s t {k = k} i (ground arith) (omega arith) o
]

search_none : (offset : ℕ) (s t : Bytes) (j : ℕ) → search offset s t ≡ none → ¬ OccursAt s j t
unfolding search
search_none offset [] t zero h o = ground (arith, take-memcmp_eq [] t o)
search_none offset [] t (suc j) h o = ground (arith, take-memcmp_eq [] t o)
search_none offset (b ∷ s) t zero h o = ground (arith, take-memcmp_eq (b ∷ s) t o)
search_none offset (b ∷ s) t (suc j) h o = elim (Bool-cases (memcmp_eq (b ∷ s) t)) [
  | inl e ↦ ground arith
  | inr e ↦ search_none (offset + 1) s t j (ground arith) o
]

-- Where `lmemfind` finds something, it occurs there.
pub lmemfind-OccursAt : (s1 s2 : Bytes) {k : ℕ} → lmemfind s1 s2 ≡ some k → OccursAt s1 k s2
lmemfind-OccursAt s1 s2 {k = k} h =
    let (j, at, found) = search-OccursAt 0 s1 s2 (sym (lmemfind-search s1 s2) ∙ h) in
    let same : k ≡ j = omega (arith, at) in rw same found

-- `lmemfind` finds the first place.
pub lmemfind_first :
    (s1 s2 : Bytes) {k : ℕ} (i : ℕ) → lmemfind s1 s2 ≡ some k → i < k → ¬ OccursAt s1 i s2
lmemfind_first s1 s2 i h lt = search_first 0 s1 s2 i (sym (lmemfind-search s1 s2) ∙ h) (omega arith)

-- Where `lmemfind` finds nothing, there is nothing anywhere.
pub lmemfind_none : (s1 s2 : Bytes) (j : ℕ) → lmemfind s1 s2 ≡ none → ¬ OccursAt s1 j s2
lmemfind_none s1 s2 j h = search_none 0 s1 s2 j (sym (lmemfind-search s1 s2) ∙ h)
