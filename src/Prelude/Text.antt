-- ===== src/Prelude/Text.antt =====
-- C strings as lists of bytes, and the functions of ctype.h and string.h that the source calls.
-- A text is the bytes before the NUL; a buffer is a list that holds the NUL.
use Prim.Native.Nat.{ℕ, ◌+◌}
use Prim.Native.Char.{code}
use Prim.Native.String.{String}
use mathlib.Core.Bool.{Bool, ◌&&◌, ◌||◌}
use mathlib.Core.List.{List, [], ◌∷◌}
use tencryption.Prelude.Tests.{leb, ◌==◌, if◌then◌else◌}
use tencryption.Prelude.Lists.{length}

-- The bytes of a literal, which is ASCII.
abbrev pub codes : String → List ℕ
codes String.[] = []
codes (String.◌∷◌ c s) = code c ∷ codes s

-- The text that a buffer holds: the bytes before its first NUL.
abbrev pub cstr : List ℕ → List ℕ
cstr [] = []
cstr (c ∷ cs) = if c == 0 then [] else c ∷ cstr cs

abbrev pub strlen : List ℕ → ℕ
strlen buf = length (cstr buf)

-- `isspace` in the C locale.
unfoldable pub isspace : ℕ → Bool
isspace c = c == 32 || (leb 9 c && leb c 13)

unfoldable pub isdigit : ℕ → Bool
isdigit c = leb 48 c && leb c 57

abbrev pub tolower : ℕ → ℕ
tolower c = if leb 65 c && leb c 90 then c + 32 else c
