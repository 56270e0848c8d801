-- ===== src/Chunk/Yields.antt =====
-- A load that takes the given bytes from any stream and gives the given value, and how such loads
-- combine.
use primemover.Prelude.{
  ltb, false, ℕ, zero, suc, ◌+◌, ◌%◌, ◌^◌, ◌<◌, ◌≡◌, refl, sym, ◌∙◌, ap, arith, Bool, true, List,
  [], ◌∷◌, ◌++◌, length, take, drop, append_assoc, All, length-append, ==_iff, ◌==◌,
}
use primemover.Proto.{Bytes}
use primemover.Zio.{Zio}
use primemover.Zio.Contents.{contents, IsValid, zgetc-contents}
use primemover.Zio.Read.{read-Reads}
use primemover.Chunk.Load.{
  LoadError, ok, Load, pure, ◌>>=◌, ◌>>◌, guard, ezgetc, ezread, repeat, load_byte, through_int,
}
use primemover.Chunk.Dump.{dump_each}

abbrev pub Yields {ℓ} : {A : Type ℓ} → Load A → Bytes → A → Type ℓ
Yields m bs a =
    (z : Zio) (rest : Bytes)
    → IsValid z
    → contents z ≡ bs ++ rest
    → (z' : Zio) × (m z ≡ ok a z') × IsValid z' × (contents z' ≡ rest)

pub Yields-pure {ℓ} : {A : Type ℓ} (a : A) → Yields (pure a) [] a
Yields-pure a z rest v e = (z, refl, v, e)

module _ {ℓ κ} {A : Type ℓ} {B : Type κ} where
  pub Yields-bind :
      (m : Load A) (f : A → Load B) (bs cs : Bytes) (a : A) (b : B)
      → Yields m bs a
      → Yields (f a) cs b
      → Yields (m >>= f) (bs ++ cs) b
  unfolding ◌>>=◌
  Yields-bind m f bs cs a b ym yf z rest v e =
      let (y, e1, v1, c1) = ym z (cs ++ rest) v (e ∙ append_assoc bs cs rest) in
      let (x, e2, v2, c2) = yf y rest v1 c1 in (x, rw e1 e2, v2, c2)

  -- a step behind which nothing more is read
  pub Yields-end :
      (m : Load A) (f : A → Load B) (bs : Bytes) (a : A) (b : B)
      → Yields m bs a
      → Yields (f a) [] b
      → Yields (m >>= f) bs b
  unfolding ◌>>=◌
  Yields-end m f bs a b ym yf z rest v e =
      let (y, e1, v1, c1) = ym z rest v e in
      let (x, e2, v2, c2) = yf y rest v1 c1 in (x, rw e1 e2, v2, c2)

  -- the last step of a `do` block
  pub Yields-map :
      (m : Load A) (f : A → Load B) (bs : Bytes) (a : A) (b : B)
      → Yields m bs a
      → ((z : Zio) → f a z ≡ ok b z)
      → Yields (m >>= f) bs b
  unfolding ◌>>=◌
  Yields-map m f bs a b ym yf z rest v e =
      let (y, e1, v1, c1) = ym z rest v e in (y, rw e1 (yf y), v1, c1)

pub Yields-guard {ℓ} :
    {A : Type ℓ} (t : Bool) (e : LoadError) (k : Load A) (bs : Bytes) (a : A)
    → t ≡ true
    → Yields k bs a
    → Yields (guard t e >> k) bs a
unfolding ◌>>=◌
Yields-guard t e k bs a h y = rw h y

pub ezgetc-Yields : (c : ℕ) → Yields ezgetc (c ∷ []) c
unfolding ezgetc
ezgetc-Yields c z rest v e =
    let (z', e', v', c') = zgetc-contents z c rest v e in (z', rw (e', ezgetc), v', c')

pub load_byte-Yields : (c : ℕ) → c < 256 → Yields load_byte (c ∷ []) c
unfolding load_byte
load_byte-Yields c h =
    let small : c % 256 ≡ c = omega arith in
    Yields-map ezgetc _ (c ∷ []) c c (ezgetc-Yields c) (λ z. rw small)

pub take_append {ℓ} : {A : Type ℓ} (xs ys : List A) → take (length xs) (xs ++ ys) ≡ xs
take_append [] ys = refl
take_append (x ∷ xs) ys = ap (λ t. x ∷ t) (take_append xs ys)

pub drop_append {ℓ} : {A : Type ℓ} (xs ys : List A) → drop (length xs) (xs ++ ys) ≡ ys
drop_append [] ys = refl
drop_append (x ∷ xs) ys = drop_append xs ys

pub ezread-Yields : (bs : Bytes) (n : ℕ) → n ≡ length bs → n < 2 ^ 31 → Yields (ezread n) bs bs
unfolding ezread
ezread-Yields bs n len small z rest v e =
    let same : through_int n ≡ n = ground arith in
    let (r, run, h) = read-Reads z n v in
    let all : length (contents z) ≡ n + length rest =
      rw e (omega (arith, length-append bs rest, len)) in
    let whole : r.bytes ≡ bs = h.bytes ∙ rw (e, len) (take_append bs rest) in
    let none_missing : r.missing ≡ 0 = omega (arith, h.missing, all) in
    let room : ltb n (length r.bytes) ≡ false = rw whole (ground arith) in
    let full : (length r.bytes == n) ≡ true = rw whole ((==_iff (length bs) n).1 (sym len)) in
    (
      r.after,
      rw (same, run, ezread, room, none_missing, full) (ap (λ t. ok t r.after) whole),
      h.valid (omega (arith, all)),
      h.after (omega (arith, all)) ∙ rw (e, len) (drop_append bs rest),
    )

pub repeat-Yields {ℓ} :
    {A : Type ℓ} (m : Load A) (d : A → Bytes) (xs : List A) (n : ℕ)
    → n ≡ length xs
    → All (λ x. Yields m (d x) x) xs
    → Yields (repeat n m) (dump_each d xs) xs
unfolding repeat dump_each
repeat-Yields m d [] zero len each = Yields-pure []
repeat-Yields m d [] (suc n) len each = absurd (omega arith)
repeat-Yields m d (x ∷ xs) zero len each = absurd (omega arith)
repeat-Yields m d (x ∷ xs) (suc n) len each =
    Yields-bind m _ (d x) (dump_each d xs) x (x ∷ xs) each.0 (
      Yields-map (repeat n m) _ (dump_each d xs) xs (x ∷ xs)
        (repeat-Yields m d xs n (omega arith) each.1) (λ z. refl))
