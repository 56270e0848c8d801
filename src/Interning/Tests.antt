-- ===== src/Interning/Tests.antt =====
-- Tests of the string table.
use primemover.Prelude.{List, [], ◌∷◌, codes, ◌≡◌, refl, arith}
use primemover.Proto.{Bytes}
use primemover.Interning.{StringTable, intern, string_hash}
use primemover.Interning.Unique.{IsInterned, intern_all, intern-IsInterned, intern_again}

-- A table of one bucket, so that the second string makes it grow.
abbrev empty_table : StringTable
empty_table = record { bucket = λ i. []; size = 1; nuse = 0; fresh = 100 }

empty_table-IsInterned : IsInterned empty_table
empty_table-IsInterned = record {
  positive = omega arith;
  placed = λ i s h. elim h [ ];
  hashed = λ i s h. elim h [ ];
  below = λ i s h. elim h [ ];
  same_text = λ i j s t h k e. elim h [ ];
  same_address = λ i j s t h k e. elim h [ ];
}

-- luaS_newlstr on "a" gives 'a' ^ (('a' << 5) + ...), from the seed 1.
hash_a : string_hash (codes "a") ≡ 128
unfolding string_hash
hash_a = refl

grown : (intern_all empty_table (codes "a" ∷ codes "b" ∷ codes "a" ∷ codes "c" ∷ [])).size ≡ 4
unfolding intern_all intern
grown = refl

abbrev later : List Bytes
later = codes "b" ∷ codes "" ∷ codes "c" ∷ []

intern_again_example :
    intern (intern_all (intern empty_table (codes "a")).0 later) (codes "a")
    ≡ (intern_all (intern empty_table (codes "a")).0 later, (intern empty_table (codes "a")).1)
intern_again_example = intern_again empty_table (codes "a") later empty_table-IsInterned

intern-IsInterned_example : IsInterned (intern empty_table (codes "a")).0
intern-IsInterned_example = intern-IsInterned empty_table (codes "a") empty_table-IsInterned
