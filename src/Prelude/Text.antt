-- ===== src/Prelude/Text.antt =====
-- Texts as the native strings: concatenation, and tests that the source makes on them.
use Prim.Native.String
use Prim.Native.String.{String}
use mathlib.Core.Bool.{Bool, not}
use text.Mathlib.Text.{◌==◌}

-- Go's `+` on strings.
infixr 65 ◌<>◌
abbrev pub ◌<>◌ : String → String → String
s <> t = String.◌++◌ s t

abbrev pub non_empty : String → Bool
non_empty s = not (s == "")
