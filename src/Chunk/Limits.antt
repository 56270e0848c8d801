-- ===== src/Chunk/Limits.antt =====
-- Blocks of a size that an int holds, read where the stream has them and where it does not.
use primemover.Prelude.{
  ℕ, ◌^◌, ◌<◌, ◌≤◌, ◌≡◌, ◌==◌, ◌⊎◌, inl, inr, true, false, ltb, arith, length, length-take, take,
  drop, ap, ◌∙◌,
}
use primemover.Proto.{Bytes}
use primemover.Zio.{Zio}
use primemover.Zio.Contents.{contents, IsValid}
use primemover.Zio.Read.{read-Reads}
use primemover.Chunk.Load.{Result, ok, ezread, through_int, err, unexpected_eoz}

-- The next `n` bytes are loaded and the stream goes on behind them, where it holds as many, or the
-- end of the file is unexpected.
abbrev pub LoadsBlock : Zio → ℕ → Result Bytes → Type 0
LoadsBlock z n result =
    ((n ≤ length (contents z))
      × (z' : Zio) × (result ≡ ok (take n (contents z)) z')
      × IsValid z'
      × (contents z' ≡ drop n (contents z)))
    ⊎ ((length (contents z) < n) × (result ≡ err unexpected_eoz))

-- On a valid stream and for a size below 2 ^ 31, ezread loads the next bytes, as many as the size says,
-- and leaves a valid stream of the others, or it raises the error for an unexpected end of the file,
-- where the stream holds fewer.
pub ezread-LoadsBlock : (z : Zio) (n : ℕ) → IsValid z → n < 2 ^ 31 → LoadsBlock z n (ezread n z)
unfolding ezread
ezread-LoadsBlock z n v small =
    let same : through_int n ≡ n = ground arith in
    let (r, run, h) = read-Reads z n v in
    let taken = ap (λ (x : Bytes). length x) h.bytes ∙ length-take n (contents z) in
    elim (sides n (length (contents z))) [
      | inl enough ↦
          let room : ltb n (length r.bytes) ≡ false = ground (arith, taken) in
          let none_missing : r.missing ≡ 0 = omega (arith, h.missing) in
          let full : (length r.bytes == n) ≡ true = ground (arith, taken) in
          inl (
            enough,
            r.after,
            rw (same, run, ezread, room, none_missing, full) (ap (λ bs. ok bs r.after) h.bytes),
            h.valid enough,
            h.after enough,
          )
      | inr short ↦ inr (short, rw (same, run, ezread) (ground (arith, h.missing, taken)))
    ]
  where
    sides : (a b : ℕ) → (a ≤ b) ⊎ (b < a)
    sides a b = ground arith
