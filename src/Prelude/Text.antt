-- ===== src/Prelude/Text.antt =====
-- Rust's `str` as far as the code looks inside one: blank texts and lower case.
use Prim.Native.Nat.{ℕ, ◌+◌}
use Prim.Native.Char.{code}
use Prim.Native.String.{String}
use mathlib.Core.Bool.{Bool, true, false, ◌&&◌, ◌||◌}
use mathlib.Core.List.{List, [], ◌∷◌, map}
use e_bill.Prelude.Tests.{leb, eqb, if◌then◌else◌}

-- The code points of a text.
abbrev pub codes : String → List ℕ
codes String.[] = []
codes (String.◌∷◌ c s) = code c ∷ codes s

-- `char::is_whitespace`: Unicode's White_Space.
unfoldable pub is_whitespace : ℕ → Bool
is_whitespace c =
    (leb 9 c && leb c 13)
    || eqb c 32
    || eqb c 0x85
    || eqb c 0xa0
    || eqb c 0x1680
    || (leb 0x2000 c && leb c 0x200a)
    || eqb c 0x2028
    || eqb c 0x2029
    || eqb c 0x202f
    || eqb c 0x205f
    || eqb c 0x3000

all_whitespace : List ℕ → Bool
all_whitespace [] = true
all_whitespace (c ∷ cs) = is_whitespace c && all_whitespace cs

-- `s.trim().is_empty()`
unfoldable pub trim_is_empty : String → Bool
unfolding all_whitespace is_whitespace
trim_is_empty s = all_whitespace (codes s)

abbrev pub is_empty : String → Bool
is_empty String.[] = true
is_empty (String.◌∷◌ c s) = false

-- `char::to_lowercase` on ASCII.
unfoldable pub to_lower : ℕ → ℕ
to_lower c = if leb b'A' c && leb c b'Z' then c + 32 else c

-- Compared with a lower-case ASCII text, the letters of `s` outside ASCII change nothing: none of
-- them has an ASCII letter among `s`, `a`, `t` for its lower case.
unfoldable pub lowercase_codes : String → List ℕ
unfolding to_lower
lowercase_codes s = map to_lower (codes s)
