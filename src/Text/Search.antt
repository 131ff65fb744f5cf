-- ===== src/Text/Search.antt =====
-- What the source uses of string.h to search: the functions return the rest of the text from the
-- place found, as the C functions return a pointer to it.
use tencryption.Prelude.{
  ℕ, zero, suc, Bool, true, false, ◌&&◌, Option, none, some, List, [], ◌∷◌, ◌==◌, if◌then◌else◌,
}
use tencryption.Prelude.Text.{tolower}

-- `strchr` for a character that is not the NUL.
unfoldable pub strchr : List ℕ → ℕ → Option (List ℕ)
strchr [] c = none
strchr (x ∷ s) c = if x == c then some (x ∷ s) else strchr s c

-- `strrchr`: the last place.
unfoldable pub strrchr : List ℕ → ℕ → Option (List ℕ)
strrchr [] c = none
strrchr (x ∷ s) c = elim (strrchr s c) [
  | some t ↦ some t
  | none ↦ if x == c then some (x ∷ s) else none
]

unfoldable pub starts_with : List ℕ → List ℕ → Bool
starts_with s [] = true
starts_with [] (y ∷ ys) = false
starts_with (x ∷ xs) (y ∷ ys) = x == y && starts_with xs ys

-- `strstr`: the first place where `needle` begins.
unfoldable pub strstr : List ℕ → List ℕ → Option (List ℕ)
unfolding starts_with
strstr [] needle = if starts_with [] needle then some [] else none
strstr (x ∷ s) needle = if starts_with (x ∷ s) needle then some (x ∷ s) else strstr s needle

unfoldable pub starts_with_case : List ℕ → List ℕ → Bool
starts_with_case s [] = true
starts_with_case [] (y ∷ ys) = false
starts_with_case (x ∷ xs) (y ∷ ys) = tolower x == tolower y && starts_with_case xs ys

-- `strcasestr`.
unfoldable pub strcasestr : List ℕ → List ℕ → Option (List ℕ)
unfolding starts_with_case
strcasestr [] needle = if starts_with_case [] needle then some [] else none
strcasestr (x ∷ s) needle =
    if starts_with_case (x ∷ s) needle then some (x ∷ s) else strcasestr s needle

-- `strncasecmp(a, b, n) == 0`: no difference, letter case apart, up to `n` bytes or a common end.
unfoldable pub strncasecmp_eq : List ℕ → List ℕ → ℕ → Bool
strncasecmp_eq a b zero = true
strncasecmp_eq [] [] (suc n) = true
strncasecmp_eq [] (y ∷ ys) (suc n) = false
strncasecmp_eq (x ∷ xs) [] (suc n) = false
strncasecmp_eq (x ∷ xs) (y ∷ ys) (suc n) = tolower x == tolower y && strncasecmp_eq xs ys n
