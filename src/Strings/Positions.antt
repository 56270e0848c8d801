-- ===== src/Strings/Positions.antt =====
-- lua/lstrlib.c: positions in strings, repetition, and characters from numbers.
use primemover.Prelude.{ℕ, ◌+◌, ◌-◌, ◌≤◌, min, max, take, drop, length, ◌≡◌, sym, arith}
use primemover.Prelude.Int.{ℤ, pos, negsuc, pos_part, ◌+ℤ◌, ◌-ℤ◌}
use primemover.Proto.{Bytes}
use primemover.Strings.{posrelat, sub_start, sub_end, sub_range, str_sub}

-- The first and the last position that are meant in a string of `l` bytes, from 1. `negsuc n`, which
-- is -(n + 1), counts from the end.
unfoldable pub first_position : ℤ → ℕ → ℕ
first_position (pos p) l = max 1 p
first_position (negsuc n) l = max 1 (l - n)

unfoldable pub last_position : ℤ → ℕ → ℕ
last_position (pos p) l = min l p
last_position (negsuc n) l = l - n

sub_start-pos : (i : ℤ) (l : ℕ) → sub_start i l ≡ pos (first_position i l)
unfolding sub_start posrelat first_position ◌+ℤ◌
sub_start-pos (pos p) l = ground arith
sub_start-pos (negsuc n) l = ground arith

sub_end-pos : (j : ℤ) (l : ℕ) → pos_part (sub_end j l) ≡ last_position j l
unfolding sub_end posrelat last_position ◌+ℤ◌
sub_end-pos (pos p) l = ground arith
sub_end-pos (negsuc n) l = ground arith

sub_range-take :
    (s : Bytes) (a : ℕ) (e : ℤ)
    → 1 ≤ a
    → sub_range s (pos a) e ≡ take (pos_part e + 1 - a) (drop (a - 1) s)
unfolding sub_range ◌+ℤ◌ ◌-ℤ◌
sub_range-take s a (pos e) h = ground arith
sub_range-take s a (negsuc e) h = ground arith

first_position-ge : (i : ℤ) (l : ℕ) → 1 ≤ first_position i l
unfolding first_position
first_position-ge (pos p) l = omega arith
first_position-ge (negsuc n) l = omega arith

-- `string.sub` gives the bytes from the first to the last position that are meant, on every pair of
-- integers: a position that is too small stands for the first byte, one that is too large for the
-- last, and nothing is left where the last is before the first.
pub str_sub-positions :
    (s : Bytes) (i j : ℤ)
    → str_sub s i j
      ≡ take
          (last_position j (length s) + 1 - first_position i (length s))
          (drop (first_position i (length s) - 1) s)
unfolding str_sub
str_sub-positions s i j =
    let last = sub_end-pos j (length s) in
    rw (sub_start-pos i (length s)) (
      rw (sym last) (
        sub_range-take s (first_position i (length s)) (sub_end j (length s))
          (first_position-ge i (length s))))
