-- ===== src/Text/Number.antt =====
-- What the source uses of stdlib.h and stdio.h for numbers: `atoi`, `%d` in `sscanf` and
-- `sprintf`, and `strtok`. Numbers are unbounded: texts beyond the range of `int` are undefined
-- behaviour in C.
use tencryption.Prelude.{
  ℕ, zero, suc, ◌+◌, ◌-◌, ◌*◌, ◌/◌, ◌%◌, ◌≡◌, refl, Option, none, some, List, [], ◌∷◌, ltb, ◌==◌,
  if◌then◌else◌,
}
use tencryption.Prelude.Int.{ℤ, pos, negsuc, ◌-ℤ◌}
use tencryption.Prelude.Text.{isspace, isdigit}

skip_spaces : List ℕ → List ℕ
skip_spaces [] = []
skip_spaces (c ∷ s) = if isspace c then skip_spaces s else c ∷ s

-- The digits at the front, on top of `acc`, and the rest.
unfoldable pub read_digits : ℕ → List ℕ → ℕ × List ℕ
read_digits acc [] = (acc, [])
read_digits acc (c ∷ s) = if isdigit c then read_digits (acc * 10 + (c - 48)) s else (acc, c ∷ s)

read_natural : List ℕ → Option (ℕ × List ℕ)
read_natural [] = none
read_natural (c ∷ s) = if isdigit c then some (read_digits 0 (c ∷ s)) else none

signed : (ℕ → ℤ) → Option (ℕ × List ℕ) → Option (ℤ × List ℕ)
signed sign none = none
signed sign (some (n, rest)) = some (sign n, rest)

read_signed : List ℕ → Option (ℤ × List ℕ)
read_signed [] = none
read_signed (c ∷ s) =
    if c == b'-'
    then signed (λ n. pos 0 -ℤ pos n) (read_natural s)
    else if c == b'+'
    then signed pos (read_natural s)
    else signed pos (read_natural (c ∷ s))

-- `%d`: spaces, a sign, digits; `none` where no digit stands.
unfoldable pub scan_int : List ℕ → Option (ℤ × List ℕ)
unfolding skip_spaces read_signed signed read_natural read_digits isspace isdigit
scan_int s = read_signed (skip_spaces s)

unfoldable pub atoi : List ℕ → ℤ
unfolding scan_int
atoi s = elim (scan_int s) [ none ↦ pos 0 | some (n, rest) ↦ n ]

-- The decimal digits of `n` in front of `acc`; `n` rounds are enough.
print_digits : ℕ → ℕ → List ℕ → List ℕ
print_digits zero n acc = (48 + n % 10) ∷ acc
print_digits (suc fuel) n acc =
    let rest = print_digits fuel (n / 10) ((48 + n % 10) ∷ acc) in
    if ltb n 10 then (48 + n) ∷ acc else rest

unfoldable pub print_natural : ℕ → List ℕ
unfolding print_digits
print_natural n = print_digits n n []

unfoldable pub print_int : ℤ → List ℕ
unfolding print_natural
print_int (pos n) = print_natural n
print_int (negsuc n) = b'-' ∷ print_natural (suc n)

-- `strtok(s, ":")` with the rest that the next `strtok(NULL, ":")` begins at.
skip_char : ℕ → List ℕ → List ℕ
skip_char d [] = []
skip_char d (c ∷ s) = if c == d then skip_char d s else c ∷ s

cut : ℕ → List ℕ → List ℕ × List ℕ
cut d [] = ([], [])
cut d (c ∷ s) = let (token, rest) = cut d s in if c == d then ([], s) else (c ∷ token, rest)

token_of : ℕ → List ℕ → Option (List ℕ × List ℕ)
token_of d [] = none
token_of d (c ∷ s) = some (cut d (c ∷ s))

unfoldable pub strtok : ℕ → List ℕ → Option (List ℕ × List ℕ)
unfolding skip_char token_of cut
strtok d s = token_of d (skip_char d s)

atoi_signed : atoi (b' ' ∷ b'-' ∷ b'4' ∷ b'2' ∷ b'x' ∷ []) ≡ negsuc 41
unfolding atoi
atoi_signed = refl

print_int_runs : print_int (pos 1007) ≡ b'1' ∷ b'0' ∷ b'0' ∷ b'7' ∷ []
unfolding print_int
print_int_runs = refl
