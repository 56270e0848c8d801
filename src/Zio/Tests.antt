-- ===== src/Zio/Tests.antt =====
-- Streams cut into blocks.
use primemover.Prelude.{◌-◌, ◌≡◌, refl, [], ◌∷◌, length, take, drop, some, arith}
use primemover.Zio.{Zio, got, eoz, size_mod, zgetc, read, Reading}
use primemover.Zio.Contents.{contents, stream, IsValid, zgetc-contents, zgetc_end}
use primemover.Zio.Read.{read_whole, read_short}

abbrev sample : Zio
sample = record { n = 1; p = 7 ∷ []; blocks = (8 ∷ 9 ∷ []) ∷ [] ∷ (1 ∷ []) ∷ [] }

sample-IsValid : IsValid sample
sample-IsValid = record { counted = refl; small = omega arith; fit = omega arith }

-- reading stops at the empty block
read_over_blocks :
    read sample 4
    ≡ some (record {
      bytes = 7 ∷ 8 ∷ 9 ∷ [];
      missing = 1;
      after = record { n = 0; p = []; blocks = (1 ∷ []) ∷ [] };
    })
unfolding read
read_over_blocks = refl

read_whole_example :
    (r : Reading) × (read sample 2 ≡ some r)
    × (r.bytes ≡ take 2 (contents sample))
    × (r.missing ≡ 0)
    × IsValid r.after
    × (contents r.after ≡ drop 2 (contents sample))
unfolding stream
read_whole_example = read_whole sample 2 sample-IsValid (omega arith)

read_short_example :
    (r : Reading) × (read sample 9 ≡ some r)
    × (r.bytes ≡ contents sample)
    × (r.missing ≡ 9 - length (contents sample))
unfolding stream
read_short_example = read_short sample 9 sample-IsValid (omega arith)

zgetc-contents_example :
    (z' : Zio) × (zgetc sample ≡ got 7 z') × IsValid z' × (contents z' ≡ 8 ∷ 9 ∷ [])
unfolding stream
zgetc-contents_example = zgetc-contents sample 7 (8 ∷ 9 ∷ []) sample-IsValid refl

abbrev ended : Zio
ended = record { n = 0; p = []; blocks = [] }

zgetc_end_example : (z' : Zio) × (zgetc ended ≡ eoz z') × (z'.n ≡ size_mod - 1) × (z'.p ≡ [])
unfolding stream
zgetc_end_example = zgetc_end ended (record { counted = refl; small = omega arith; fit = tt }) refl
