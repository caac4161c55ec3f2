-- ===== src/Prelude/Text.antt =====
-- Python's `str`: the tests that the program makes on texts.
use Prim.Native.Nat.{ℕ}
use Prim.Native.Char.{code}
use Prim.Native.String.{String}
use text.Mathlib.Text.{◌==◌}
use mathlib.Core.Bool.{Bool, true, false, ◌&&◌, ◌||◌}
use mathlib.Core.List.{List, [], ◌∷◌}
use hackathon_open_ai.Prelude.Tests.{leb, ◌==◌ as nat_eq}
pub use text.Mathlib.Text.{◌==◌ as str_eq, starts_with}
pub use text.Mathlib.TextEquality.{eq_iff as str_eq_iff}
pub use Prim.Native.String.{count, ◌++◌ as str_append}

-- The code points that `str.strip` removes (`str.isspace`).
abbrev pub is_space : ℕ → Bool
is_space c =
    (leb 9 c && leb c 13)
    || (leb 28 c && leb c 32)
    || nat_eq c 0x85
    || nat_eq c 0xA0
    || nat_eq c 0x1680
    || (leb 0x2000 c && leb c 0x200A)
    || nat_eq c 0x2028
    || nat_eq c 0x2029
    || nat_eq c 0x202F
    || nat_eq c 0x205F
    || nat_eq c 0x3000

-- `not s.strip()`
unfoldable pub is_blank : String → Bool
is_blank String.[] = true
is_blank (String.◌∷◌ c s) = is_space (code c) && is_blank s

-- `s in names`
unfoldable pub member : String → List String → Bool
member s [] = false
member s (t ∷ ts) = s == t || member s ts
