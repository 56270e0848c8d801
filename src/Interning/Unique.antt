-- ===== src/Interning/Unique.antt =====
-- lua/lstring.c: luaS_newlstr keeps one string for each text.
use primemover.Prelude.{
  ℕ, ◌+◌, ◌*◌, ◌/◌, ◌<◌, Bool, true, false, ◌&&◌, Option, none, some, List, [], ◌∷◌, length, ltb,
  leb, ◌==◌, if◌then◌else◌, ◌≡◌, ◌⊎◌, inl, inr, refl, sym, ◌∙◌, ap, arith, Bool-cases, Option-cases,
}
use primemover.Prelude.Int.{max_int}
use primemover.Proto.{Bytes}
use primemover.Strings.{memcmp_eq}
use primemover.Interning.{
  TString, StringTable, lmod, new_string, chained, resize_strings, string_hash, newlstr,
  find_string, intern,
}
use primemover.Interning.Resize.{
  In, Has, lmod-lt, chain_at-In, chain_at-keeps, chain_at-new, resize_strings-Has,
  resize_strings-In,
}

-- Each string is in the bucket of its hash, which is that of its text; a text, and an address, belong
-- to one string; addresses that memory will give are new.
pub record IsInterned (tb : StringTable) : Type 0 where
  pub positive : 0 < tb.size
  pub placed : (i : ℕ) (s : TString) → In s (tb.bucket i) → i ≡ lmod s.hash tb.size
  pub hashed : (i : ℕ) (s : TString) → In s (tb.bucket i) → s.hash ≡ string_hash s.text
  pub below : (i : ℕ) (s : TString) → In s (tb.bucket i) → s.address < tb.fresh
  pub same_text :
      (i j : ℕ) (s t : TString) → In s (tb.bucket i) → In t (tb.bucket j) → s.text ≡ t.text → s ≡ t
  pub same_address :
      (i j : ℕ) (s t : TString)
      → In s (tb.bucket i)
      → In t (tb.bucket j)
      → s.address ≡ t.address
      → s ≡ t

memcmp_eq_refl : (s : Bytes) → memcmp_eq s s ≡ true
unfolding memcmp_eq
memcmp_eq_refl [] = refl
memcmp_eq_refl (c ∷ s) =
    let same : (c == c) ≡ true = ground arith in rw (same, memcmp_eq_refl s) refl

both_true : {x y : Bool} → (x && y) ≡ true → (x ≡ true) × (y ≡ true)
both_true {x = true} h = (refl, h)
both_true {x = false} h = absurd cc

memcmp_eq-same : (s t : Bytes) → (length t == length s) ≡ true → memcmp_eq s t ≡ true → s ≡ t
unfolding memcmp_eq
memcmp_eq-same [] [] h k = refl
memcmp_eq-same [] (c ∷ t) h k = absurd cc
memcmp_eq-same (b ∷ s) [] h k = absurd (ground arith)
memcmp_eq-same (b ∷ s) (c ∷ t) h k =
    let (first, rest) = both_true k in
    let later = memcmp_eq-same s t (ground arith) rest in (λ i. same first i ∷ later i)
  where
    same : (b == c) ≡ true → b ≡ c
    same h = ground arith

find_first :
    (str : Bytes) (t : TString) (chain : List TString)
    → (length t.text == length str && memcmp_eq str t.text) ≡ true
    → find_string str (t ∷ chain) ≡ some t
unfolding find_string
find_first str t chain u = rw u refl

some-inj : {a b : TString} → some a ≡ some b → a ≡ b
some-inj h = cc

-- A search finds a string with the text, if the bucket has one.
find_string-some :
    (str : Bytes) (chain : List TString) (ts : TString)
    → find_string str chain ≡ some ts
    → In ts chain × (ts.text ≡ str)
unfolding find_string
find_string-some str [] ts h = absurd cc
find_string-some str (t ∷ chain) ts h =
    elim (Bool-cases (length t.text == length str && memcmp_eq str t.text)) [
      | inl u ↦
          let (long, equal) = both_true u in
          let found : t ≡ ts = some-inj (sym (find_first str t chain u) ∙ h) in
          (
            inl (sym found),
            ap TString.text (sym found) ∙ sym (memcmp_eq-same str t.text long equal),
          )
      | inr u ↦ let (there, same) = find_string-some str chain ts (rw u at h) in (inr there, same)
    ]

find_string-none :
    (str : Bytes) (chain : List TString) (s : TString)
    → find_string str chain ≡ none
    → In s chain
    → s.text ≡ str
    → ⊥
unfolding find_string
find_string-none str [] s h there e = elim there [ ]
find_string-none str (t ∷ chain) s h (inl same) e =
    some_none
      (sym (find_first str t chain (rw (ap TString.text (sym same) ∙ e) (all_equal str))) ∙ h)
  where
    all_equal : (str : Bytes) → (length str == length str && memcmp_eq str str) ≡ true
    all_equal str =
        let long : (length str == length str) ≡ true = ground arith in
        rw (long, memcmp_eq_refl str) refl

    some_none : {a : TString} → some a ≡ none → ⊥
    some_none h = cc
find_string-none str (t ∷ chain) s h (inr there) e =
    elim (Bool-cases (length t.text == length str && memcmp_eq str t.text)) [
      | inl u ↦ absurd (some_none (sym (find_first str t chain u) ∙ h))
      | inr u ↦ find_string-none str chain s (rw u at h) there e
    ]
  where
    some_none : {a : TString} → some a ≡ none → ⊥
    some_none h = cc

-- The growth of the table keeps it in order.
resize_strings-IsInterned :
    (tb : StringTable) (newsize : ℕ)
    → 0 < newsize
    → IsInterned tb
    → IsInterned (resize_strings tb newsize)
unfolding resize_strings
resize_strings-IsInterned tb newsize positive v = record {
  positive = rw (size_after tb newsize) positive;
  placed = λ i s h.
      (resize_strings-In tb newsize s i h).1 ∙ ap (lmod s.hash) (sym (size_after tb newsize));
  hashed = λ i s h. let ((m, u), e) = resize_strings-In tb newsize s i h in v.hashed m s u;
  below = λ i s h.
      let ((m, u), e) = resize_strings-In tb newsize s i h in
      rw (fresh_after tb newsize) (v.below m s u);
  same_text = λ i j s t h k.
      let ((m, u), e) = resize_strings-In tb newsize s i h in
      let ((n, w), f) = resize_strings-In tb newsize t j k in v.same_text m n s t u w;
  same_address = λ i j s t h k.
      let ((m, u), e) = resize_strings-In tb newsize s i h in
      let ((n, w), f) = resize_strings-In tb newsize t j k in v.same_address m n s t u w;
}
  where
    size_after : (tb : StringTable) (newsize : ℕ) → (resize_strings tb newsize).size ≡ newsize
    size_after tb newsize = refl

    fresh_after : (tb : StringTable) (newsize : ℕ) → (resize_strings tb newsize).fresh ≡ tb.fresh
    fresh_after tb newsize = refl

-- A new text goes into the table.
chained-IsInterned :
    (tb : StringTable) (str : Bytes)
    → IsInterned tb
    → ((i : ℕ) (s : TString) → In s (tb.bucket i) → s.text ≡ str → ⊥)
    → IsInterned (chained tb str (string_hash str))
chained-IsInterned tb str v new = record {
  positive = v.positive;
  placed = λ i s h. elim (split i s h) [
    | inl u ↦ u.1 ∙ ap (λ (x : TString). lmod x.hash tb.size) (sym u.0)
    | inr u ↦ v.placed i s u
  ];
  hashed = λ i s h. elim (split i s h) [
    | inl u ↦ ap TString.hash u.0 ∙ ap (λ (x : TString). string_hash x.text) (sym u.0)
    | inr u ↦ v.hashed i s u
  ];
  below = λ i s h. elim (split i s h) [
    | inl u ↦ omega (arith, ap TString.address u.0)
    | inr u ↦ omega (arith, v.below i s u)
  ];
  same_text = λ i j s t h k e. elim (split i s h) [
    | inl u ↦ elim (split j t k) [
      | inl w ↦ u.0 ∙ sym w.0
      | inr w ↦ absurd (new j t w (sym e ∙ ap TString.text u.0))
    ]
    | inr u ↦ elim (split j t k) [
      | inl w ↦ absurd (new i s u (e ∙ ap TString.text w.0))
      | inr w ↦ v.same_text i j s t u w e
    ]
  ];
  same_address = λ i j s t h k e. elim (split i s h) [
    | inl u ↦ elim (split j t k) [
      | inl w ↦ u.0 ∙ sym w.0
      | inr w ↦ absurd (omega (arith, v.below j t w, ap TString.address u.0, e))
    ]
    | inr u ↦ elim (split j t k) [
      | inl w ↦ absurd (omega (arith, v.below i s u, ap TString.address w.0, e))
      | inr w ↦ v.same_address i j s t u w e
    ]
  ];
}
  where
    split :
        (i : ℕ) (s : TString)
        → In s ((chained tb str (string_hash str)).bucket i)
        → ((s ≡ new_string tb str (string_hash str)) × (i ≡ lmod (string_hash str) tb.size))
          ⊎ In s (tb.bucket i)
    split i s h =
        chain_at-In tb.bucket (lmod (string_hash str) tb.size) (new_string tb str (string_hash str))
          s i h

-- What newlstr does on a text that the table does not have.
newlstr-IsInterned :
    (tb : StringTable) (str : Bytes)
    → IsInterned tb
    → ((i : ℕ) (s : TString) → In s (tb.bucket i) → s.text ≡ str → ⊥)
    → IsInterned (newlstr tb str (string_hash str)).0
unfolding newlstr
newlstr-IsInterned tb str v new = either (ltb tb.size (tb.nuse + 1) && leb tb.size (max_int / 2))
  where
    kept : IsInterned (chained tb str (string_hash str))
    kept = chained-IsInterned tb str v new

    either :
        (b : Bool)
        → IsInterned (
            if b
            then resize_strings (chained tb str (string_hash str)) (tb.size * 2)
            else chained tb str (string_hash str))
    either true =
        resize_strings-IsInterned (chained tb str (string_hash str)) (tb.size * 2)
          (omega (arith, v.positive)) kept
    either false = kept

newlstr-Has :
    (tb : StringTable) (str : Bytes) (s : TString)
    → IsInterned tb
    → ((i : ℕ) (s : TString) → In s (tb.bucket i) → s.text ≡ str → ⊥)
    → Has (chained tb str (string_hash str)) s
    → Has (newlstr tb str (string_hash str)).0 s
unfolding newlstr
newlstr-Has tb str s v new (i, h) = either (ltb tb.size (tb.nuse + 1) && leb tb.size (max_int / 2))
  where
    kept : IsInterned (chained tb str (string_hash str))
    kept = chained-IsInterned tb str v new

    low : i < tb.size
    low = rw (kept.placed i s h) (lmod-lt s.hash tb.size v.positive)

    either :
        (b : Bool)
        → Has
            (if b
              then resize_strings (chained tb str (string_hash str)) (tb.size * 2)
              else chained tb str (string_hash str))
            s
    either true = (
      lmod s.hash (tb.size * 2),
      resize_strings-Has (chained tb str (string_hash str)) (tb.size * 2) s i h low,
    )
    either false = (i, h)

intern-some :
    (tb : StringTable) (str : Bytes) (ts : TString)
    → find_string str (tb.bucket (lmod (string_hash str) tb.size)) ≡ some ts
    → intern tb str ≡ (tb, ts)
unfolding intern
intern-some tb str ts e =
    ap
      (λ (o : Option TString). elim o as (λ x. StringTable × TString) [
        | some ts ↦ (tb, ts)
        | none ↦ newlstr tb str (string_hash str)
      ])
      e

intern-none :
    (tb : StringTable) (str : Bytes)
    → find_string str (tb.bucket (lmod (string_hash str) tb.size)) ≡ none
    → intern tb str ≡ newlstr tb str (string_hash str)
unfolding intern
intern-none tb str e =
    ap
      (λ (o : Option TString). elim o as (λ x. StringTable × TString) [
        | some ts ↦ (tb, ts)
        | none ↦ newlstr tb str (string_hash str)
      ])
      e

-- Where the bucket of a text's hash does not have the text, no bucket has.
nowhere :
    (tb : StringTable) (str : Bytes)
    → IsInterned tb
    → find_string str (tb.bucket (lmod (string_hash str) tb.size)) ≡ none
    → (i : ℕ) (s : TString) → In s (tb.bucket i)
    → s.text ≡ str
    → ⊥
nowhere tb str v e i s h same =
    find_string-none str (tb.bucket (lmod (string_hash str) tb.size)) s e (rw own at h) same
  where
    own : i ≡ lmod (string_hash str) tb.size
    own = v.placed i s h ∙ ap (λ (x : ℕ). lmod x tb.size) (v.hashed i s h ∙ ap string_hash same)

-- luaS_newlstr keeps the table in order: one string for each text, in the bucket of its hash.
pub intern-IsInterned :
    (tb : StringTable) (str : Bytes) → IsInterned tb → IsInterned (intern tb str).0
intern-IsInterned tb str v =
    elim (Option-cases (find_string str (tb.bucket (lmod (string_hash str) tb.size)))) [
      | inl e ↦ rw (intern-none tb str e) (newlstr-IsInterned tb str v (nowhere tb str v e))
      | inr (ts, e) ↦ rw (intern-some tb str ts e) v
    ]

newlstr_new :
    (tb : StringTable) (str : Bytes)
    → (newlstr tb str (string_hash str)).1 ≡ new_string tb str (string_hash str)
unfolding newlstr
newlstr_new tb str = refl

-- What luaS_newlstr returns has the text, and is in the table that it leaves, as is all that was there.
pub intern-Has :
    (tb : StringTable) (str : Bytes)
    → IsInterned tb
    → ((intern tb str).1.text ≡ str)
      × Has (intern tb str).0 (intern tb str).1
      × ((s : TString) → Has tb s → Has (intern tb str).0 s)
intern-Has tb str v =
    elim (Option-cases (find_string str (tb.bucket (lmod (string_hash str) tb.size)))) [
      | inl e ↦ rw (intern-none tb str e) (
        ap TString.text (newlstr_new tb str),
        newlstr-Has tb str _ v (nowhere tb str v e) (
          lmod (string_hash str) tb.size,
          rw (newlstr_new tb str) (
              chain_at-new tb.bucket (lmod (string_hash str) tb.size)
                (new_string tb str (string_hash str))),
        ),
        λ s (i, h). newlstr-Has tb str s v (nowhere tb str v e) (
          i,
          chain_at-keeps tb.bucket (lmod (string_hash str) tb.size)
              (new_string tb str (string_hash str)) s i h,
        ),
      )
      | inr (ts, e) ↦
          let (there, same) =
            find_string-some str (tb.bucket (lmod (string_hash str) tb.size)) ts e in
          rw (intern-some tb str ts e) (same, (lmod (string_hash str) tb.size, there), λ s h. h)
    ]

-- The string of a text that the table has is returned, and nothing changes.
pub intern-known :
    (tb : StringTable) (s : TString) → IsInterned tb → Has tb s → intern tb s.text ≡ (tb, s)
intern-known tb s v (i, h) =
    elim (Option-cases (find_string s.text (tb.bucket (lmod (string_hash s.text) tb.size)))) [
      | inl e ↦ absurd (nowhere tb s.text v e i s h refl)
      | inr (ts, e) ↦
          let (there, same) =
            find_string-some s.text (tb.bucket (lmod (string_hash s.text) tb.size)) ts e in
          intern-some tb s.text ts e
          ∙ ap (λ (x : TString). (tb, x)) (v.same_text _ i ts s there h same)
    ]

-- Strings that are made one after the other.
unfoldable pub intern_all : StringTable → List Bytes → StringTable
intern_all tb [] = tb
intern_all tb (str ∷ texts) = intern_all (intern tb str).0 texts

intern_all-Has :
    (texts : List Bytes) (tb : StringTable) (s : TString)
    → IsInterned tb
    → Has tb s
    → IsInterned (intern_all tb texts) × Has (intern_all tb texts) s
unfolding intern_all
intern_all-Has [] tb s v h = (v, h)
intern_all-Has (str ∷ texts) tb s v h =
    let (same, own, kept) = intern-Has tb str v in
    intern_all-Has texts (intern tb str).0 s (intern-IsInterned tb str v) (kept s h)

-- A text that was made into a string gives that string again, whatever was made in between and
-- however the table grew.
pub intern_again :
    (tb : StringTable) (str : Bytes) (texts : List Bytes)
    → IsInterned tb
    → intern (intern_all (intern tb str).0 texts) str
      ≡ (intern_all (intern tb str).0 texts, (intern tb str).1)
intern_again tb str texts v =
    let (same, own, kept) = intern-Has tb str v in
    let (valid, there) =
      intern_all-Has texts (intern tb str).0 (intern tb str).1 (intern-IsInterned tb str v) own in
    rw same at (intern-known (intern_all (intern tb str).0 texts) (intern tb str).1 valid there)

-- Two strings of one table are one object exactly where they have one text.
pub address_iff_text :
    (tb : StringTable) (s t : TString)
    → IsInterned tb
    → Has tb s
    → Has tb t
    → ((s.address ≡ t.address) → s.text ≡ t.text) × ((s.text ≡ t.text) → s.address ≡ t.address)
address_iff_text tb s t v (i, h) (j, k) = (
  λ e. ap TString.text (v.same_address i j s t h k e),
  λ e. ap TString.address (v.same_text i j s t h k e),
)
