-- ===== src/Zio/Contents.antt =====
-- What a stream holds: the bytes that are left to read, up to the end that the reader announces.
use primemover.Prelude.{ℕ, ◌+◌, ◌-◌, ◌%◌, ◌<◌, ◌≡◌, refl, arith, List, [], ◌∷◌, ◌++◌, length}
use primemover.Proto.{Bytes}
use primemover.Zio.{Zio, got, eoz, size_mod, zgetc, lookahead, init}

unfoldable pub stream : List Bytes → Bytes
stream [] = []
stream ([] ∷ bs) = []
stream ((c ∷ cs) ∷ bs) = (c ∷ cs) ++ stream bs

abbrev pub contents : Zio → Bytes
contents z = z.p ++ stream z.blocks

-- blocks whose sizes a size_t can hold
abbrev pub BlocksFit : List Bytes → Type 0
BlocksFit [] = Unit {0}
BlocksFit (b ∷ bs) = (length b < size_mod) × BlocksFit bs

pub record IsValid (z : Zio) : Type 0 where
  pub counted : z.n ≡ length z.p
  pub small : length z.p < size_mod
  pub fit : BlocksFit z.blocks

pub init-IsValid :
    (bs : List Bytes) → BlocksFit bs → IsValid (init bs) × (contents (init bs) ≡ stream bs)
unfolding init
init-IsValid bs h = (record { counted = refl; small = omega arith; fit = h }, refl)

-- `zgetc` takes the next byte of the stream, over the ends of blocks.
zgetc_at :
    (n : ℕ) (p : Bytes) (blocks : List Bytes) (c : ℕ) (rest : Bytes)
    → IsValid (record { n = n; p = p; blocks = blocks })
    → p ++ stream blocks ≡ c ∷ rest
    → (z' : Zio) × (zgetc (record { n = n; p = p; blocks = blocks }) ≡ got c z')
      × IsValid z'
      × (contents z' ≡ rest)
unfolding zgetc stream
zgetc_at n [] [] c rest v h = cc
zgetc_at n [] ([] ∷ bs) c rest v h = cc
zgetc_at n [] ((d ∷ cs) ∷ bs) c rest v h = (
  record { n = length cs; p = cs; blocks = bs },
  ground (arith, v.counted),
  record { counted = refl; small = omega (arith, v.fit.0); fit = v.fit.1 },
  ground arith,
)
zgetc_at n (d ∷ ds) blocks c rest v h = (
  record { n = n - 1; p = ds; blocks = blocks },
  ground (arith, v.counted),
  record { counted = omega (arith, v.counted); small = omega (arith, v.small); fit = v.fit },
  ground arith,
)

pub zgetc-contents :
    (z : Zio) (c : ℕ) (rest : Bytes)
    → IsValid z
    → contents z ≡ c ∷ rest
    → (z' : Zio) × (zgetc z ≡ got c z') × IsValid z' × (contents z' ≡ rest)
zgetc-contents z c rest v h = zgetc_at z.n z.p z.blocks c rest v h

-- At the end of the stream `zgetc` says so, and its count has wrapped round: the stream is then no
-- longer valid, and holds 2 ^ 64 - 1 bytes by its own account.
pub zgetc_end :
    (z : Zio)
    → IsValid z
    → contents z ≡ []
    → (z' : Zio) × (zgetc z ≡ eoz z') × (z'.n ≡ size_mod - 1) × (z'.p ≡ [])
unfolding zgetc stream
zgetc_end z v h = at_end z.n z.p z.blocks v h
  where
    at_end :
        (n : ℕ) (p : Bytes) (blocks : List Bytes)
        → IsValid (record { n = n; p = p; blocks = blocks })
        → p ++ stream blocks ≡ []
        → (z' : Zio) × (zgetc (record { n = n; p = p; blocks = blocks }) ≡ eoz z')
          × (z'.n ≡ size_mod - 1)
          × (z'.p ≡ [])
    at_end n [] [] v h =
        (record { n = size_mod - 1; p = []; blocks = [] }, ground (arith, v.counted), refl, refl)
    at_end n [] ([] ∷ bs) v h =
        (record { n = size_mod - 1; p = []; blocks = bs }, ground (arith, v.counted), refl, refl)
    at_end n [] ((d ∷ cs) ∷ bs) v h = cc
    at_end n (d ∷ ds) blocks v h = cc

-- `luaZ_lookahead` gives the next byte and leaves the stream as it was.
pub lookahead-contents :
    (z : Zio) (c : ℕ) (rest : Bytes)
    → IsValid z
    → contents z ≡ c ∷ rest
    → (z' : Zio) × (lookahead z ≡ got c z') × IsValid z' × (contents z' ≡ contents z)
unfolding lookahead stream
lookahead-contents z c rest v h = at z.n z.p z.blocks v h
  where
    at :
        (n : ℕ) (p : Bytes) (blocks : List Bytes)
        → IsValid (record { n = n; p = p; blocks = blocks })
        → p ++ stream blocks ≡ c ∷ rest
        → (z' : Zio) × (lookahead (record { n = n; p = p; blocks = blocks }) ≡ got c z')
          × IsValid z'
          × (contents z' ≡ p ++ stream blocks)
    at n [] [] v h = cc
    at n [] ([] ∷ bs) v h = cc
    at n [] ((d ∷ cs) ∷ bs) v h = (
      record { n = (length cs + 1) % size_mod; p = d ∷ cs; blocks = bs },
      ground (arith, v.counted),
      record { counted = omega (arith, v.fit.0); small = v.fit.0; fit = v.fit.1 },
      refl,
    )
    at n (d ∷ ds) blocks v h =
        (record { n = n; p = d ∷ ds; blocks = blocks }, ground (arith, v.counted), v, refl)
