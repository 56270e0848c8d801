-- ===== src/Zio/Read.antt =====
-- `luaZ_read` takes bytes from the stream, over the ends of blocks, and says how many are missing.
use primemover.Prelude.{
  ℕ, zero, suc, ◌+◌, ◌-◌, ◌%◌, ◌≤◌, ◌<◌, ◌≡◌, refl, sym, ◌∙◌, ap, arith, false, ltb, leb, List, [],
  ◌∷◌, ◌++◌, length, take, drop, length-drop, length-append, if◌then◌else◌, some,
}
use primemover.Proto.{Bytes}
use primemover.Zio.{Zio, size_mod, read_loop, read, copy, Reading}
use primemover.Zio.Contents.{stream, contents, IsValid}

module _ {ℓ} {A : Type ℓ} where
  take_split :
      (m n : ℕ) (xs ys : List A)
      → m ≤ n
      → m ≤ length xs
      → take n (xs ++ ys) ≡ take m xs ++ take (n - m) (drop m xs ++ ys)
  take_split zero n xs ys h k = let e : n - 0 ≡ n = omega arith in rw e
  take_split (suc m) n [] ys h k = absurd (omega arith)
  take_split (suc m) zero (x ∷ xs) ys h k = absurd (omega arith)
  take_split (suc m) (suc n) (x ∷ xs) ys h k =
      let e : suc n - suc m ≡ n - m = omega arith in
      rw e (ap (λ t. x ∷ t) (take_split m n xs ys (omega arith) (omega arith)))

  drop_split :
      (m n : ℕ) (xs ys : List A)
      → m ≤ n
      → m ≤ length xs
      → drop n (xs ++ ys) ≡ drop (n - m) (drop m xs ++ ys)
  drop_split zero n xs ys h k = let e : n - 0 ≡ n = omega arith in rw e
  drop_split (suc m) n [] ys h k = absurd (omega arith)
  drop_split (suc m) zero (x ∷ xs) ys h k = absurd (omega arith)
  drop_split (suc m) (suc n) (x ∷ xs) ys h k =
      let e : suc n - suc m ≡ n - m = omega arith in
      rw e (drop_split m n xs ys (omega arith) (omega arith))

  take_all : (n : ℕ) → take {A = A} n [] ≡ []
  take_all zero = refl
  take_all (suc n) = refl

-- what a read of `n` bytes from `z` should give
pub record Reads (n : ℕ) (z : Zio) (r : Reading) : Type 0 where
  pub bytes : r.bytes ≡ take n (contents z)
  pub missing : r.missing ≡ n - length (contents z)
  pub valid : n ≤ length (contents z) → IsValid r.after
  pub after : n ≤ length (contents z) → contents r.after ≡ drop n (contents z)

abbrev Outcome : ℕ → ℕ → Zio → Type 0
Outcome fuel n z = (r : Reading) × (read_loop fuel n z ≡ some r) × Reads n z r

copy-Reads :
    (fuel n : ℕ) (z : Zio)
    → ((k : ℕ) (y : Zio) → k ≤ fuel → IsValid y → Outcome fuel k y)
    → IsValid z
    → 0 < z.n
    → 0 < n
    → n ≤ suc fuel
    → (r : Reading) × (copy z n (read_loop fuel) ≡ some r) × Reads n z r
unfolding copy
copy-Reads fuel n z ih v pos some_left enough =
    let m = if leb n z.n then n else z.n in
    let small : m ≤ n = ground arith in
    let positive : 0 < m = ground arith in
    let inside : m ≤ length z.p = ground (arith, v.counted) in
    let z1 : Zio = record z { n = z.n - m; p = drop m z.p } in
    let len : length z1.p ≡ length z.p - m = length-drop m z.p in
    let v1 : IsValid z1 = record {
      counted = omega (arith, len, v.counted);
      small = omega (arith, len, v.small);
      fit = v.fit;
    } in
    let (r, e, h) = ih (n - m) z1 (omega arith) v1 in
    let all : length (contents z) ≡ length z.p + length (stream z.blocks) =
      length-append z.p (stream z.blocks) in
    let left : length (contents z1) ≡ length z1.p + length (stream z.blocks) =
      length-append z1.p (stream z.blocks) in
    let fits : ltb (length z.p) m ≡ false = ground arith in
    (
      record r { bytes = take m z.p ++ r.bytes },
      rw (fits, e) refl,
      record {
        bytes = rw h.bytes (sym (take_split m n z.p (stream z.blocks) small inside));
        missing = omega (arith, h.missing, all, left, len);
        valid = λ q. h.valid (omega (arith, all, left, len));
        after = λ q.
            h.after (omega (arith, all, left, len))
            ∙ sym (drop_split m n z.p (stream z.blocks) small inside);
      },
    )

stop_Reads : (z : Zio) → IsValid z → Reads 0 z (record { bytes = []; missing = 0; after = z })
stop_Reads z v = record { bytes = refl; missing = omega arith; valid = λ _. v; after = λ _. refl }

-- the stream has ended: all `n` bytes are missing
end_Reads :
    (n : ℕ) (z y : Zio)
    → contents z ≡ []
    → 0 < n
    → Reads n z (record { bytes = []; missing = n; after = y })
end_Reads n z y e pos =
    let none_left : length (contents z) ≡ 0 = ap length e in
    record {
      bytes = rw e (sym (take_all n));
      missing = omega (arith, none_left);
      valid = λ q. absurd (omega (arith, none_left));
      after = λ q. absurd (omega (arith, none_left));
    }

module _ (fuel n : ℕ) (ih : (k : ℕ) (y : Zio) → k ≤ fuel → IsValid y → Outcome fuel k y)
    (pos : 0 < n) (enough : n ≤ suc fuel) where
  round_Reads :
      (m : ℕ) (p : Bytes) (blocks : List Bytes)
      → IsValid (record { n = m; p = p; blocks = blocks })
      → Outcome (suc fuel) n (record { n = m; p = p; blocks = blocks })
  unfolding read_loop stream
  round_Reads m [] [] v =
      let z : Zio = record { n = m; p = []; blocks = [] } in
      (_, ground (arith, v.counted), end_Reads n z z refl pos)
  round_Reads m [] ([] ∷ bs) v =
      let z : Zio = record { n = m; p = []; blocks = [] ∷ bs } in
      (_, ground (arith, v.counted), end_Reads n z (record { n = m; p = []; blocks = bs }) refl pos)
  round_Reads m [] ((c ∷ cs) ∷ bs) v =
      let fits : (length cs + 1) % size_mod ≡ suc (length cs) = omega (arith, v.fit.0) in
      let y : Zio = record { n = (length cs + 1) % size_mod; p = c ∷ cs; blocks = bs } in
      let vy : IsValid y = record { counted = fits; small = v.fit.0; fit = v.fit.1 } in
      let (r, e, h) = copy-Reads fuel n y ih vy (omega (arith, fits)) pos enough in
      (
        r,
        ground (arith, v.counted, e),
        record { bytes = h.bytes; missing = h.missing; valid = h.valid; after = h.after },
      )
  round_Reads m (d ∷ ds) blocks v =
      let z : Zio = record { n = m; p = d ∷ ds; blocks = blocks } in
      let (r, e, h) = copy-Reads fuel n z ih v (omega (arith, v.counted)) pos enough in
      (r, ground (arith, v.counted, e), h)

read_loop-Reads : (fuel n : ℕ) (z : Zio) → n ≤ fuel → IsValid z → Outcome fuel n z
unfolding read_loop
read_loop-Reads zero n z h v = let e : n ≡ 0 = omega arith in rw e (_, refl, stop_Reads z v)
read_loop-Reads (suc fuel) zero z h v = (_, refl, stop_Reads z v)
read_loop-Reads (suc fuel) (suc n) z h v =
    round_Reads fuel (suc n) (read_loop-Reads fuel) (omega arith) h z.n z.p z.blocks v

pub read-Reads : (z : Zio) (n : ℕ) → IsValid z → (r : Reading) × (read z n ≡ some r) × Reads n z r
unfolding read
read-Reads z n v = read_loop-Reads n n z (omega arith) v

take_beyond {ℓ} : {A : Type ℓ} (n : ℕ) (xs : List A) → length xs ≤ n → take n xs ≡ xs
take_beyond zero [] h = refl
take_beyond zero (x ∷ xs) h = absurd (omega arith)
take_beyond (suc n) [] h = refl
take_beyond (suc n) (x ∷ xs) h = ap (λ t. x ∷ t) (take_beyond n xs (omega arith))

-- Where the stream holds `n` bytes, `luaZ_read` ends, reads no memory outside a block, copies the next
-- `n` bytes and reports none missing; the stream goes on behind them.
pub read_whole :
    (z : Zio) (n : ℕ)
    → IsValid z
    → n ≤ length (contents z)
    → (r : Reading) × (read z n ≡ some r)
      × (r.bytes ≡ take n (contents z))
      × (r.missing ≡ 0)
      × IsValid r.after
      × (contents r.after ≡ drop n (contents z))
read_whole z n v h =
    let (r, e, p) = read-Reads z n v in
    (r, e, p.bytes, omega (arith, p.missing), p.valid h, p.after h)

-- Where the stream holds fewer than `n` bytes, `luaZ_read` ends, reads no memory outside a block,
-- copies what there is and reports how many bytes are missing.
pub read_short :
    (z : Zio) (n : ℕ)
    → IsValid z
    → length (contents z) < n
    → (r : Reading) × (read z n ≡ some r)
      × (r.bytes ≡ contents z)
      × (r.missing ≡ n - length (contents z))
read_short z n v h =
    let (r, e, p) = read-Reads z n v in
    (r, e, p.bytes ∙ take_beyond n (contents z) (omega arith), p.missing)
