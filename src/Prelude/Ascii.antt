-- ===== src/Prelude/Ascii.antt =====
-- Rust's `to_ascii_lowercase` and `eq_ignore_ascii_case` on texts.
use Prim.Native.Char.{Char, code}
use Prim.Native.String.{String}
use mathlib.Core.Bool.{Bool}
use maxops.Prelude.Tests.{str_eq, ◌==◌, if◌then◌else◌}

-- The character of the second text at the place that `c` has in the first.
translate : String → String → Char → Char
translate (String.◌∷◌ a froms) (String.◌∷◌ b tos) c =
    if code c == code a then b else translate froms tos c
translate _ _ c = c

unfoldable pub to_ascii_lowercase : String → String
unfolding translate
to_ascii_lowercase String.[] = String.[]
to_ascii_lowercase (String.◌∷◌ c s) =
    String.◌∷◌ (translate "ABCDEFGHIJKLMNOPQRSTUVWXYZ" "abcdefghijklmnopqrstuvwxyz" c)
      (to_ascii_lowercase s)

unfoldable pub eq_ignore_ascii_case : String → String → Bool
eq_ignore_ascii_case a b = str_eq (to_ascii_lowercase a) (to_ascii_lowercase b)
