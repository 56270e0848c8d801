-- ===== src/Patterns/First.antt =====
-- lua/lstrlib.c: `string.find` by a pattern gives the first match.
use primemover.Prelude.{
  ℕ, zero, suc, ◌+◌, ◌-◌, ◌≤◌, Bool, false, Option, none, some, List, [], ◌∷◌, ◌++◌, ◌==◌,
  if◌then◌else◌, ◌≡◌, drop,
}
use primemover.Proto.{Bytes}
use primemover.Patterns.{ok}
use primemover.Patterns.Matching.{Captures, match_from}
use primemover.Patterns.Find.{Value, push_each}

-- The pattern does not match at `s`.
abbrev pub Fails : Bytes → Bytes → ℕ → Type 0
Fails src pat s = (ms : Captures) × (match_from src pat s ≡ ok (none, ms))

-- It matches at none of the `n` starts from `s` on.
abbrev pub FailsFrom : Bytes → Bytes → ℕ → ℕ → Type 0
FailsFrom src pat zero s = Unit
FailsFrom src pat (suc n) s = Fails src pat s × FailsFrom src pat n (s + 1)

-- Of the start `s` and the `left` starts behind it, the first where the pattern matches is the one
-- found, with the end of that match and its captures; or it matches at none of them.
abbrev pub FirstMatch : Bytes → Bytes → ℕ → ℕ → Option (ℕ × ℕ × List Value) → Type 0
FirstMatch src pat left s none = FailsFrom src pat (suc left) s
FirstMatch src pat left s (some r) =
    (n : ℕ) × (ms : Captures) × (n ≤ left)
    × FailsFrom src pat n s
    × (match_from src pat (s + n) ≡ ok (some r.1, ms))
    × (push_each src ms ≡ ok r.2)
    × (r.0 ≡ s + n + 1)

-- A pattern that begins with `^` matches at the first start only, without that character.
abbrev pub is_anchored : Bytes → Bool
is_anchored [] = false
is_anchored (c ∷ p) = c == b'^'

-- The memory of the pattern that is matched.
abbrev pub matched_pattern : Bytes → Bytes
matched_pattern p = (if is_anchored p then drop 1 p else p) ++ 0 ∷ []

abbrev pub starts_behind : Bytes → ℕ → ℕ → ℕ
starts_behind p l s = if is_anchored p then 0 else l - s
