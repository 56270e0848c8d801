-- ===== src/Interning.antt =====
-- lua/lstring.c: the table of all strings. A string is its address with what newlstr writes there; a
-- bucket is the list that its `next` links make. luaM_malloc gives the address `fresh`, which no
-- string has. A size_t and an unsigned int are below their powers of two.
pub mod Resize
pub mod Unique
mod Tests
use Prim.Native.Nat.{bit_xor}
use primemover.Prelude.{
  ℕ, zero, suc, ◌+◌, ◌-◌, ◌*◌, ◌/◌, ◌%◌, ◌^◌, Bool, true, false, ◌&&◌, Option, none, some, List, [],
  ◌∷◌, length, get_elem?, bit_and, ltb, leb, ◌==◌, if◌then◌else◌,
}
use primemover.Prelude.Int.{max_int}
use primemover.Proto.{Bytes}
use primemover.Strings.{memcmp_eq}

pub record TString : Type 0 where
  pub address : ℕ
  pub text : Bytes
  pub hash : ℕ

-- `stringtable`, and the next address that memory gives
pub record StringTable : Type 0 where
  pub bucket : ℕ → List TString
  pub size : ℕ
  pub nuse : ℕ
  pub fresh : ℕ

abbrev pub lmod : ℕ → ℕ → ℕ
lmod s size = bit_and s (size - 1)

abbrev pub chain_at : (ℕ → List TString) → ℕ → TString → ℕ → List TString
chain_at bucket i s j = if j == i then s ∷ bucket i else bucket j

-- the inner loop of luaS_resize, over one list
unfoldable pub move_chain : ℕ → List TString → (ℕ → List TString) → ℕ → List TString
move_chain newsize [] newhash = newhash
move_chain newsize (p ∷ chain) newhash =
    move_chain newsize chain (chain_at newhash (lmod p.hash newsize) p)

-- the outer loop, over `n` buckets from `i` on
unfoldable pub rehash_chains :
    ℕ → (ℕ → List TString) → (n i : ℕ) → (ℕ → List TString) → ℕ → List TString
unfolding move_chain
rehash_chains newsize bucket zero i newhash = newhash
rehash_chains newsize bucket (suc n) i newhash =
    rehash_chains newsize bucket n (suc i) (move_chain newsize (bucket i) newhash)

-- luaS_resize
unfoldable pub resize_strings : StringTable → ℕ → StringTable
unfolding rehash_chains
resize_strings tb newsize = record tb {
  bucket = rehash_chains newsize tb.bucket tb.size 0 (λ i. []);
  size = newsize;
}

-- the loop that computes the hash, on fuel; a read in front of the string gives 0
unfoldable pub hash_loop : ℕ → Bytes → (step l1 h : ℕ) → ℕ
hash_loop zero str step l1 h = h
hash_loop (suc fuel) str step l1 h =
    let c : ℕ = elim (get_elem? str (l1 - 1)) [ none ↦ 0 | some c ↦ c ] in
    let mixed = bit_xor h ((h * 2 ^ 5 + h / 2 ^ 2 + c) % 2 ^ 32) in
    let rest = hash_loop fuel str step (l1 - step) mixed in if leb step l1 then rest else h

unfoldable pub string_hash : Bytes → ℕ
unfolding hash_loop
string_hash str = let l = length str in hash_loop (suc l) str (l / 2 ^ 5 + 1) l (l % 2 ^ 32)

-- the string that newlstr makes, and the table with it in front of its bucket
abbrev pub new_string : StringTable → Bytes → ℕ → TString
new_string tb str h = record { address = tb.fresh; text = str; hash = h }

abbrev pub chained : StringTable → Bytes → ℕ → StringTable
chained tb str h = record tb {
  bucket = chain_at tb.bucket (lmod h tb.size) (new_string tb str h);
  nuse = tb.nuse + 1;
  fresh = tb.fresh + 1;
}

-- newlstr
unfoldable pub newlstr : StringTable → Bytes → ℕ → StringTable × TString
unfolding resize_strings
newlstr tb str h =
    let grown = resize_strings (chained tb str h) (tb.size * 2) in
    (
      if ltb tb.size (tb.nuse + 1) && leb tb.size (max_int / 2) then grown else chained tb str h,
      new_string tb str h,
    )

-- the search along a bucket
unfoldable pub find_string : Bytes → List TString → Option TString
unfolding memcmp_eq
find_string str [] = none
find_string str (ts ∷ chain) =
    let rest = find_string str chain in
    if length ts.text == length str && memcmp_eq str ts.text then some ts else rest

-- luaS_newlstr
unfoldable pub intern : StringTable → Bytes → StringTable × TString
unfolding newlstr find_string string_hash
intern tb str = elim (find_string str (tb.bucket (lmod (string_hash str) tb.size))) [
  | some ts ↦ (tb, ts)
  | none ↦ newlstr tb str (string_hash str)
]
