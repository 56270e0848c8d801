-- ===== src/Patterns/Tests.antt =====
-- lua/lstrlib.c: patterns at concrete inputs.
use primemover.Prelude.{◌≤◌, [], ◌∷◌, ◌++◌, some, none, codes, ◌≡◌, ◌≢◌, refl, arith}
use primemover.Proto.{Bytes}
use primemover.Strings.{memcmp_eq}
use primemover.Patterns.{ok, out_of_fuel, classend, singlematch, match_class, class_test}
use primemover.Patterns.Matching.{
  Captures, cap_len, do_match, match_from, match_step, match_item, match_escape, start_capture,
  end_capture, capture_to_close, last_unfinished, set_len, max_expand, min_expand, min_loop, expand,
  try_fewer, matchbalance, match_capture, go_on, balance_loop, check_capture,
}
use primemover.Prelude.{ℕ, false, ◌<◌}
use primemover.Prelude.Int.{pos, ◌+ℤ◌, ◌-ℤ◌}
use primemover.Strings.{posrelat}
use primemover.Patterns.Find.{
  text, number, str_find, find_init, find_pattern, find_loop, push_each, push_onecapture,
  has_special, gfind_aux, gfind_loop, push_captures,
}
use primemover.Patterns.Found.{asked, str_find_range, gfind_aux_advances}
use primemover.Patterns.Undone.{do_match_fails}
use primemover.Patterns.Reach.{match_from-fuel, match_from-Within}

abbrev subject : Bytes
subject = codes "key = (a(b)c) key"

-- a key, its value in balanced parentheses, and the key again
abbrev pattern : Bytes
pattern = codes "(%a+)%s*=%s*%b() %1" ++ 0 ∷ []

abbrev key : Captures
key = record { init = 0; len = cap_len 3 } ∷ []

found : match_from subject pattern 0 ≡ ok (some 17, key)
unfolding match_from do_match match_step match_escape match_item start_capture end_capture
    capture_to_close last_unfinished set_len max_expand expand try_fewer matchbalance balance_loop
    match_capture go_on check_capture classend singlematch match_class class_test memcmp_eq
found = refl

match_from-Within_example : (0 ≤ 17) × (17 ≤ 17)
match_from-Within_example = match_from-Within subject pattern 0 (omega arith) found

match_from-fuel_example : match_from subject (codes "[%" ++ 0 ∷ []) 0 ≢ out_of_fuel
match_from-fuel_example = match_from-fuel subject (codes "[%" ++ 0 ∷ []) 0 (omega arith)

abbrev missing_pattern : Bytes
missing_pattern = codes "(%a-)%)" ++ 0 ∷ []

missing : do_match subject missing_pattern 8 0 0 key ≡ ok (none, key)
unfolding do_match match_step match_escape match_item start_capture end_capture capture_to_close
    last_unfinished set_len min_expand min_loop classend singlematch match_class class_test
missing = refl

do_match_fails_example : key ≡ key
do_match_fails_example = do_match_fails subject missing_pattern 8 0 0 key missing

-- the second key
found_key : str_find subject (codes "k()%a+$") (pos 2) false ≡ ok (some (15, 17, number 16 ∷ []))
unfolding str_find find_init find_pattern find_loop push_each push_onecapture has_special posrelat
    ◌+ℤ◌ ◌-ℤ◌ match_from do_match match_step match_item start_capture max_expand expand try_fewer
    classend singlematch match_class class_test
found_key = refl

str_find_range_example : (asked (pos 2) 17 < 15) × (15 ≤ 18) × (17 ≤ 17)
str_find_range_example = str_find_range subject (codes "k()%a+$") (pos 2) false found_key

next_word : gfind_aux subject (codes "%a+") 3 ≡ ok (some (pos 8, text (codes "a") ∷ []))
unfolding gfind_aux gfind_loop push_captures match_from do_match match_step match_escape match_item
    max_expand expand try_fewer classend singlematch match_class class_test
next_word = refl

gfind_aux_advances_example : (k : ℕ) × (pos 8 ≡ pos k) × (3 < k) × (k ≤ 18)
gfind_aux_advances_example =
    gfind_aux_advances subject (codes "%a+") 3 (omega arith) (omega arith) next_word
