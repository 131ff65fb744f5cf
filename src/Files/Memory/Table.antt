-- ===== src/Files/Memory/Table.antt =====
-- A table of descriptors: the entry `k` is the description of the descriptor `pos (suc k)`.
use mathlib.Core.Path.{fun_ext}
use tencryption.Prelude.{
  ℕ, zero, suc, ◌+◌, ◌<◌, ◌≡◌, ◌≢◌, refl, Option, none, some, List, [], ◌∷◌, ◌++◌, length, arith,
  ◌==◌, if◌then◌else◌,
}
use tencryption.Prelude.Int.{ℤ, pos, negsuc}
use tencryption.Files.{set_fd}

unfoldable pub entry : List (Option ℕ) → ℕ → Option ℕ
entry [] k = none
entry (x ∷ t) zero = x
entry (x ∷ t) (suc k) = entry t k

unfoldable pub set_entry : List (Option ℕ) → ℕ → List (Option ℕ)
set_entry [] k = []
set_entry (x ∷ t) zero = none ∷ t
set_entry (x ∷ t) (suc k) = x ∷ set_entry t k

unfoldable pub fds_of : List (Option ℕ) → ℤ → Option ℕ
fds_of t (pos zero) = none
fds_of t (pos (suc k)) = entry t k
fds_of t (negsuc n) = none

unfoldable pub close_entry : List (Option ℕ) → ℤ → List (Option ℕ)
close_entry t (pos zero) = t
close_entry t (pos (suc k)) = set_entry t k
close_entry t (negsuc n) = t

-- A description that no entry stands for.
unfoldable pub unused : List (Option ℕ) → ℕ
unused [] = 0
unused (none ∷ t) = unused t
unused (some d ∷ t) = d + 1 + unused t

unused_lem : (t : List (Option ℕ)) (k d : ℕ) → entry t k ≡ some d → d < unused t
unfolding entry unused
unused_lem [] k d h = cc
unused_lem (none ∷ t) zero d h = cc
unused_lem (some c ∷ t) zero d h = ground arith
unused_lem (none ∷ t) (suc k) d h = unused_lem t k d h
unused_lem (some c ∷ t) (suc k) d h = omega (arith, unused_lem t k d h)

pub fds_of-unused : (t : List (Option ℕ)) (fd : ℤ) → fds_of t fd ≢ some (unused t)
unfolding fds_of
fds_of-unused t (pos zero) h = cc
fds_of-unused t (pos (suc k)) h = absurd (omega (arith, unused_lem t k (unused t) h))
fds_of-unused t (negsuc n) h = cc

entry-append :
    (t : List (Option ℕ)) (d k : ℕ)
    → entry (t ++ some d ∷ []) k ≡ (if length t == k then some d else entry t k)
unfolding entry
entry-append [] d zero = refl
entry-append [] d (suc k) = ground arith
entry-append (x ∷ t) d zero = ground arith
entry-append (x ∷ t) d (suc k) = ground (arith, entry-append t d k)

pub fds_of-append :
    (t : List (Option ℕ)) (d : ℕ)
    → fds_of (t ++ some d ∷ []) ≡ set_fd (fds_of t) (pos (suc (length t))) (some d)
unfolding fds_of
fds_of-append t d = fun_ext at
  where
    at : (g : ℤ) → fds_of (t ++ some d ∷ []) g ≡ set_fd (fds_of t) (pos (suc (length t))) (some d) g
    at (pos zero) = ground arith
    at (pos (suc k)) = ground (arith, entry-append t d k)
    at (negsuc n) = refl

entry-set :
    (t : List (Option ℕ)) (k j : ℕ) → entry (set_entry t k) j ≡ (if k == j then none else entry t j)
unfolding entry set_entry
entry-set [] k j = ground arith
entry-set (x ∷ t) zero zero = refl
entry-set (x ∷ t) zero (suc j) = ground arith
entry-set (x ∷ t) (suc k) zero = ground arith
entry-set (x ∷ t) (suc k) (suc j) = ground (arith, entry-set t k j)

entry-length : (t : List (Option ℕ)) → entry t (length t) ≡ none
unfolding entry
entry-length [] = refl
entry-length (x ∷ t) = entry-length t

pub fds_of-free : (t : List (Option ℕ)) → fds_of t (pos (suc (length t))) ≡ none
unfolding fds_of
fds_of-free t = entry-length t

pub fds_of-close :
    (t : List (Option ℕ)) (fd : ℤ) → fds_of (close_entry t fd) ≡ set_fd (fds_of t) fd none
unfolding fds_of close_entry
fds_of-close t fd = fun_ext (at fd)
  where
    at : (fd' g : ℤ) → fds_of (close_entry t fd') g ≡ set_fd (fds_of t) fd' none g
    at (pos zero) (pos zero) = refl
    at (pos zero) (pos (suc j)) = ground arith
    at (pos zero) (negsuc m) = refl
    at (pos (suc k)) (pos zero) = ground arith
    at (pos (suc k)) (pos (suc j)) = ground (arith, entry-set t k j)
    at (pos (suc k)) (negsuc m) = refl
    at (negsuc n) (pos zero) = refl
    at (negsuc n) (pos (suc j)) = refl
    at (negsuc n) (negsuc m) = ground arith
