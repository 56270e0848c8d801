-- ===== src/Interning/Resize.antt =====
-- lua/lstring.c: the growth of the table keeps its strings, each in its new bucket.
use primemover.Prelude.{
  ℕ, zero, suc, ◌+◌, ◌-◌, ◌≤◌, ◌<◌, true, List, [], ◌∷◌, ◌==◌, ◌≡◌, ◌⊎◌, inl, inr, refl, sym, ◌∙◌,
  ap, arith, Bool-cases,
}
use primemover.Prelude.Bits.{le-bit_or, or_add_and}
use primemover.Interning.{
  TString, StringTable, lmod, chain_at, move_chain, rehash_chains, resize_strings,
}

-- A string in a bucket.
abbrev pub In : TString → List TString → Type 0
In s [] = ⊥
In s (t ∷ chain) = (s ≡ t) ⊎ In s chain

pub lmod-lt : (h size : ℕ) → 0 < size → lmod h size < size
lmod-lt h size positive = omega (arith, (le-bit_or h (size - 1)).0, or_add_and h (size - 1))

pub chain_at-In :
    (bucket : ℕ → List TString) (i : ℕ) (p s : TString) (j : ℕ)
    → In s (chain_at bucket i p j)
    → ((s ≡ p) × (j ≡ i)) ⊎ In s (bucket j)
chain_at-In bucket i p s j h = elim (Bool-cases (j == i)) [
  | inl e ↦
      let same : j ≡ i = ground arith in
      elim (in_front bucket i p s j e h) [ inl u ↦ inl (u, same) | inr u ↦ inr (rw same u) ]
  | inr e ↦ inr (rw e at h)
]
  where
    in_front :
        (bucket : ℕ → List TString) (i : ℕ) (p s : TString) (j : ℕ)
        → (j == i) ≡ true
        → In s (chain_at bucket i p j)
        → (s ≡ p) ⊎ In s (bucket i)
    in_front bucket i p s j e h = rw e at h

pub chain_at-keeps :
    (bucket : ℕ → List TString) (i : ℕ) (p s : TString) (j : ℕ)
    → In s (bucket j)
    → In s (chain_at bucket i p j)
chain_at-keeps bucket i p s j h = elim (Bool-cases (j == i)) [
  | inl e ↦ let same : j ≡ i = ground arith in rw e (inr (rw same at h))
  | inr e ↦ rw e h
]

pub chain_at-new : (bucket : ℕ → List TString) (i : ℕ) (p : TString) → In p (chain_at bucket i p i)
chain_at-new bucket i p = let same : (i == i) ≡ true = ground arith in rw same (inl refl)

module _ (newsize : ℕ) where
  move_chain-In :
      (chain : List TString) (newhash : ℕ → List TString) (s : TString) (j : ℕ)
      → In s (move_chain newsize chain newhash j)
      → In s (newhash j) ⊎ (In s chain × (j ≡ lmod s.hash newsize))
  unfolding move_chain
  move_chain-In [] newhash s j h = inl h
  move_chain-In (p ∷ chain) newhash s j h =
      elim (move_chain-In chain (chain_at newhash (lmod p.hash newsize) p) s j h) [
        | inr u ↦ inr (inr u.0, u.1)
        | inl u ↦ elim (chain_at-In newhash (lmod p.hash newsize) p s j u) [
          | inl v ↦ inr (inl v.0, v.1 ∙ ap (λ (x : TString). lmod x.hash newsize) (sym v.0))
          | inr v ↦ inl v
        ]
      ]

  move_chain-keeps :
      (chain : List TString) (newhash : ℕ → List TString) (s : TString) (j : ℕ)
      → In s (newhash j)
      → In s (move_chain newsize chain newhash j)
  unfolding move_chain
  move_chain-keeps [] newhash s j h = h
  move_chain-keeps (p ∷ chain) newhash s j h =
      move_chain-keeps chain (chain_at newhash (lmod p.hash newsize) p) s j
        (chain_at-keeps newhash (lmod p.hash newsize) p s j h)

  move_chain-moves :
      (chain : List TString) (newhash : ℕ → List TString) (s : TString)
      → In s chain
      → In s (move_chain newsize chain newhash (lmod s.hash newsize))
  unfolding move_chain
  move_chain-moves [] newhash s h = elim h [ ]
  move_chain-moves (p ∷ chain) newhash s (inl e) =
      move_chain-keeps chain (chain_at newhash (lmod p.hash newsize) p) s (lmod s.hash newsize)
        (rw e (chain_at-new newhash (lmod p.hash newsize) p))
  move_chain-moves (p ∷ chain) newhash s (inr h) =
      move_chain-moves chain (chain_at newhash (lmod p.hash newsize) p) s h

  rehash_chains-In :
      (bucket : ℕ → List TString) (n i : ℕ) (newhash : ℕ → List TString) (s : TString) (j : ℕ)
      → In s (rehash_chains newsize bucket n i newhash j)
      → In s (newhash j) ⊎ ((m : ℕ) × In s (bucket m) × (j ≡ lmod s.hash newsize))
  unfolding rehash_chains
  rehash_chains-In bucket zero i newhash s j h = inl h
  rehash_chains-In bucket (suc n) i newhash s j h =
      elim (rehash_chains-In bucket n (suc i) (move_chain newsize (bucket i) newhash) s j h) [
        | inr u ↦ inr u
        | inl u ↦ elim (move_chain-In (bucket i) newhash s j u) [
          | inl v ↦ inl v
          | inr v ↦ inr (i, v.0, v.1)
        ]
      ]

  rehash_chains-keeps :
      (bucket : ℕ → List TString) (n i : ℕ) (newhash : ℕ → List TString) (s : TString) (j : ℕ)
      → In s (newhash j)
      → In s (rehash_chains newsize bucket n i newhash j)
  unfolding rehash_chains
  rehash_chains-keeps bucket zero i newhash s j h = h
  rehash_chains-keeps bucket (suc n) i newhash s j h =
      rehash_chains-keeps bucket n (suc i) (move_chain newsize (bucket i) newhash) s j
        (move_chain-keeps (bucket i) newhash s j h)

  rehash_chains-moves :
      (bucket : ℕ → List TString) (n i : ℕ) (newhash : ℕ → List TString) (s : TString) (m : ℕ)
      → In s (bucket m)
      → i ≤ m
      → m < n + i
      → In s (rehash_chains newsize bucket n i newhash (lmod s.hash newsize))
  unfolding rehash_chains
  rehash_chains-moves bucket zero i newhash s m h low high = absurd (omega arith)
  rehash_chains-moves bucket (suc n) i newhash s m h low high = elim (Bool-cases (m == i)) [
    | inl e ↦
        let same : m ≡ i = ground arith in
        rehash_chains-keeps bucket n (suc i) (move_chain newsize (bucket i) newhash) s
          (lmod s.hash newsize) (move_chain-moves (bucket i) newhash s (rw same at h))
    | inr e ↦
        rehash_chains-moves bucket n (suc i) (move_chain newsize (bucket i) newhash) s m h
          (ground arith) (omega arith)
  ]

-- A string of the table, in some bucket.
abbrev pub Has : StringTable → TString → Type 0
Has tb s = (i : ℕ) × In s (tb.bucket i)

-- luaS_resize loses no string and adds none, and puts each where its hash says.
pub resize_strings-Has :
    (tb : StringTable) (newsize : ℕ) (s : TString) (m : ℕ)
    → In s (tb.bucket m)
    → m < tb.size
    → In s ((resize_strings tb newsize).bucket (lmod s.hash newsize))
unfolding resize_strings
resize_strings-Has tb newsize s m h low =
    rehash_chains-moves newsize tb.bucket tb.size 0 (λ i. []) s m h (omega arith) (omega arith)

pub resize_strings-In :
    (tb : StringTable) (newsize : ℕ) (s : TString) (j : ℕ)
    → In s ((resize_strings tb newsize).bucket j)
    → Has tb s × (j ≡ lmod s.hash newsize)
unfolding resize_strings
resize_strings-In tb newsize s j h =
    elim (rehash_chains-In newsize tb.bucket tb.size 0 (λ i. []) s j h) [
      | inl u ↦ elim u [ ]
      | inr (m, u, e) ↦ ((m, u), e)
    ]
