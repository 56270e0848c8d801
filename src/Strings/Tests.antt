-- ===== src/Strings/Tests.antt =====
-- lua/lstrlib.c: strings at concrete inputs.
use primemover.Prelude.{some, none, codes, ◌≡◌, refl}
use primemover.Prelude.Int.{pos, negsuc}
use primemover.Proto.{Bytes}
use primemover.Strings.{str_sub, lmemfind, lmemfind_loop, memchr, memcmp_eq}
use primemover.Strings.Positions.{first_position, last_position, str_sub-positions}
use primemover.Strings.Search.{search, lmemfind-search}

abbrev text : Bytes
text = codes "prime mover"

str_sub-positions_example : str_sub text (negsuc 4) (pos 99) ≡ codes "mover"
unfolding first_position last_position
str_sub-positions_example = str_sub-positions text (negsuc 4) (pos 99)

lmemfind-search_example : lmemfind text (codes "mo") ≡ search 0 text (codes "mo")
lmemfind-search_example = lmemfind-search text (codes "mo")

abbrev two : Bytes
two = codes "aab aab"

found : lmemfind two (codes "ab") ≡ some 1
unfolding lmemfind lmemfind_loop memchr memcmp_eq
found = refl

missing : lmemfind two (codes "ba") ≡ none
unfolding lmemfind lmemfind_loop memchr memcmp_eq
missing = refl
