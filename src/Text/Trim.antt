-- ===== src/Text/Trim.antt =====
-- ports/util.c and init/util.c, `trim`: removes the spaces of a C string in place.
pub mod Laws
use tencryption.Prelude.{
  ℕ, zero, suc, ◌+◌, Option, none, some, List, length, get_or, set, ltb, if◌then◌else◌,
}
use tencryption.Prelude.Text.{strlen, isspace}

-- The loop at `i` and `j`, with fuel for the rounds; `strlen` is computed anew in each round.
trim_loop : ℕ → ℕ → ℕ → List ℕ → Option (List ℕ)
trim_loop zero i j str = none
trim_loop (suc fuel) i j str =
    let c = get_or str i 0 in
    let space = isspace c in
    let rest =
      trim_loop fuel (i + 1) (if space then j else j + 1) (if space then str else set str j c) in
    if ltb i (strlen str) then rest else some (set str j 0)

-- `none` means that the fuel ran out, which no buffer makes it do.
unfoldable pub trim : List ℕ → Option (List ℕ)
unfolding trim_loop isspace
trim str = trim_loop (suc (length str)) 0 0 str
