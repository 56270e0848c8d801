-- ===== src/Chunk/Checked.antt =====
-- lua/lundump.c and lua/ldebug.c: the functions of a loaded chunk and the code checker.
use mathlib.Core.Path.{subst}
use primemover.Prelude.{ℕ, zero, suc, ◌≡◌, refl, Bool, Option, arith, ◌<◌, length}
use primemover.Proto.{Bytes, Proto, Protos, proto, none, cons}
use primemover.Debug.{checkcode, sizecode}
use primemover.Debug.Outcome
use primemover.Debug.Outcome.{Check, Check-cases}
use primemover.Debug.Soundness.{Legal, checkcode-Legal}
use primemover.Zio.{Zio}
use primemover.Zio.Contents.{contents}
use primemover.Chunk.Load.{Load, Result, ok, err, pure, raise, ◌>>=◌, load_protos}
use primemover.Chunk.Undump.{accept, load_body, load_function, load_chunk, undump, inherit}

-- `P` of every result
abbrev Gives {ℓ} : {A : Type ℓ} → (A → Type 0) → Load A → Type ℓ
Gives {A} P m = (z z' : Zio) (a : A) → m z ≡ ok a z' → P a

module _ {ℓ κ} {A : Type ℓ} {B : Type κ} where
  Gives-bind :
      (P : B → Type 0) (Q : A → Type 0) (m : Load A) (f : A → Load B)
      → Gives Q m
      → ((a : A) → Q a → Gives P (f a))
      → Gives P (m >>= f)
  unfolding ◌>>=◌
  Gives-bind P Q m f gm gf z z' b e = go (m z) refl e
    where
      go : (r : Result A) → m z ≡ r → primemover.Chunk.Load.continue r f ≡ ok b z' → P b
      go (ok a y) e1 e2 = gf a (gm z y a e1) y z' b e2
      go (err x) e1 e2 = cc

  -- a step whose result does not matter
  Gives-step :
      (P : B → Type 0) (m : Load A) (f : A → Load B) → ((a : A) → Gives P (f a)) → Gives P (m >>= f)
  Gives-step P m f gf = Gives-bind P (λ _. Unit {0}) m f (λ _ _ _ _. tt) (λ a _. gf a)

unfoldable mutual
  -- `f` and the functions inside it have passed
  pub AllChecked : Proto → Type 0
  AllChecked (proto f ps) = ((i : ℕ) × (checkcode (proto f ps) ≡ Outcome.ok i)) × EachChecked ps

  pub EachChecked : Protos → Type 0
  EachChecked none = Unit {0}
  EachChecked (cons f fs) = AllChecked f × EachChecked fs

accept-Gives :
    (f : Proto) → Gives (λ g. (g ≡ f) × ((i : ℕ) × (checkcode f ≡ Outcome.ok i))) (accept f)
unfolding accept
accept-Gives f z z' g e = ground arith

module _ (l w : Bool) where
  body_Gives :
      (nested : Option Bytes → Load Proto)
      → ((s : Option Bytes) (n : ℕ) → Gives EachChecked (load_protos l w n (nested s)))
      → (source : Option Bytes) → Gives AllChecked (load_body l w nested source)
  unfolding load_body AllChecked
  body_Gives nested inside source = Gives-step AllChecked _ _ λ line_defined.
      Gives-step AllChecked _ _ λ nups. Gives-step AllChecked _ _ λ numparams.
        Gives-step AllChecked _ _ λ is_vararg. Gives-step AllChecked _ _ λ maxstacksize.
          Gives-step AllChecked _ _ λ lineinfo. Gives-step AllChecked _ _ λ locvars.
            Gives-step AllChecked _ _ λ upvalues. Gives-step AllChecked _ _ λ nk.
              Gives-step AllChecked _ _ λ k. Gives-step AllChecked _ _ λ np.
                Gives-bind AllChecked EachChecked _ _ (inside source np) λ ps each.
                  Gives-step AllChecked _ _ λ code z z' g e.
                    let (same, ran) = accept-Gives _ z z' g e in rw same (ran, each)

  protos_Gives :
      (m : Load Proto) → Gives AllChecked m → (n : ℕ) → Gives EachChecked (load_protos l w n m)
  unfolding load_protos AllChecked
  protos_Gives m h zero = λ z z' ps e. subst EachChecked (empty z z' ps e) tt
    where
      empty : (z z' : Zio) (ps : Protos) → ok none z ≡ ok ps z' → none ≡ ps
      empty z z' ps e = ground arith
  protos_Gives m h (suc n) = Gives-bind EachChecked AllChecked m _ h λ f hf.
      Gives-bind EachChecked EachChecked (load_protos l w n m) _ (protos_Gives m h n)
        λ fs hfs z z' ps e. subst EachChecked (both f fs z z' ps e) (hf, hfs)
    where
      both :
          (f : Proto) (fs : Protos) (z z' : Zio) (ps : Protos)
          → ok (cons f fs) z ≡ ok ps z'
          → cons f fs ≡ ps
      both f fs z z' ps e = ground arith

  load_function-Gives : (fuel : ℕ) (p : Option Bytes) → Gives AllChecked (load_function l w fuel p)
  unfolding load_function
  load_function-Gives zero p = λ z z' f e. absurd (fails z' f e)
    where
      fails :
          (z' : Zio) (f : Proto)
          → ◌≡◌ {A = Result Proto} (err primemover.Chunk.Load.out_of_fuel) (ok f z')
          → ⊥
      fails z' f e = cc
  load_function-Gives (suc fuel) p = Gives-step AllChecked _ _ λ own.
      body_Gives (λ q. load_function l w fuel q)
        (λ s n. protos_Gives (load_function l w fuel s) (load_function-Gives fuel s) n)
        (inherit p own)

-- Whatever the stream holds: if `luaU_undump` returns a function, it and every function nested in it
-- have passed `luaG_checkcode`.
pub undump-AllChecked : (l : Bool) (z z' : Zio) (f : Proto) → undump l z ≡ ok f z' → AllChecked f
unfolding undump
undump-AllChecked l z z' f e =
    Gives-step AllChecked (primemover.Chunk.Undump.load_header l) _
      (λ w. load_function-Gives l w (suc (length (contents z))) Option.none) z z' f e

-- So every position of the main function is legal.
pub undump-Legal :
    (l : Bool) (z z' : Zio) (f : Proto)
    → undump l z ≡ ok f z'
    → (pc : ℕ) → pc < sizecode f
    → Legal f pc
unfolding AllChecked
undump-Legal l z z' (proto h ps) e pc lt =
    let ((i, ran), _) = undump-AllChecked l z z' (proto h ps) e in
    checkcode-Legal (proto h ps) i ran pc lt
