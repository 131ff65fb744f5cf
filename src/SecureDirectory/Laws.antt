-- ===== src/SecureDirectory/Laws.antt =====
-- `is_security_directory`: the second of its two tests adds nothing to the first.
use tencryption.Prelude.{
  ℕ, ◌≡◌, refl, sym, ◌∙◌, Bool, true, false, ◌&&◌, ◌||◌, Option, some, [], ◌∷◌, ◌++◌, Bool-cases,
  inl, inr, true-false, ◌==◌, if◌then◌else◌,
}
use tencryption.Prelude.Text.{codes}
use tencryption.Platform.{Platform, Process, Bytes}
use tencryption.Text.Search.{starts_with, strstr}
use tencryption.Prelude.Exec.{pure}
use tencryption.SecureDirectory.{
  contains, directory_of, is_security_directory, security_directory_link, security_directory_path,
}

and_right : (a b : Bool) → (a && b) ≡ true → b ≡ true
and_right true b h = h
and_right false b h = absurd (true-false (sym h))

contains-cons :
    (x : ℕ) (s needle : Bytes) → contains s needle ≡ true → contains (x ∷ s) needle ≡ true
unfolding contains strstr
contains-cons x s needle h = elim (Bool-cases (starts_with (x ∷ s) needle)) [
  | inl e ↦ rw (contains, strstr, e) refl
  | inr e ↦ rw (contains, strstr, e) h
]

contains-start : (s needle : Bytes) → starts_with s needle ≡ true → contains s needle ≡ true
unfolding contains strstr
contains-start [] needle h = rw (contains, strstr, h) refl
contains-start (x ∷ s) needle h = rw (contains, strstr, h) refl

starts_with-append : (s a b : Bytes) → starts_with s (a ++ b) ≡ true → contains s b ≡ true
unfolding starts_with
starts_with-append s [] b h = contains-start s b h
starts_with-append [] (y ∷ a) b h = absurd (true-false (sym h))
starts_with-append (x ∷ s) (y ∷ a) b h =
    contains-cons x s b (starts_with-append s a b (and_right (x == y) (starts_with s (a ++ b)) h))

contains-tail :
    (x : ℕ) (s needle : Bytes)
    → starts_with (x ∷ s) needle ≡ false
    → contains (x ∷ s) needle ≡ contains s needle
unfolding contains strstr
contains-tail x s needle e = rw (contains, strstr, e) refl

contains-nil : (needle : Bytes) → starts_with [] needle ≡ false → contains [] needle ≡ false
unfolding contains strstr
contains-nil needle e = rw (contains, strstr, e) refl

-- A text that contains a longer one contains its end.
contains-end : (s a b : Bytes) → contains s (a ++ b) ≡ true → contains s b ≡ true
contains-end [] a b h = elim (Bool-cases (starts_with [] (a ++ b))) [
  | inl e ↦ starts_with-append [] a b e
  | inr e ↦ absurd (true-false (sym h ∙ contains-nil (a ++ b) e))
]
contains-end (x ∷ s) a b h = elim (Bool-cases (starts_with (x ∷ s) (a ++ b))) [
  | inl e ↦ starts_with-append (x ∷ s) a b e
  | inr e ↦ contains-cons x s b (contains-end s a b (sym (contains-tail x s (a ++ b) e) ∙ h))
]

path-link :
    (s : Bytes)
    → contains s security_directory_link ≡ false
    → contains s security_directory_path ≡ false
path-link s h = elim (Bool-cases (contains s security_directory_path)) [
  | inl e ↦ absurd (true-false (sym (contains-end s (codes "/data") security_directory_link e) ∙ h))
  | inr e ↦ e
]

module _ (P : Platform) (getcwd : P.World → Option Bytes) where
  directory_of_lem :
      (cwd : Bytes) (s : Process P.World)
      → directory_of P getcwd (some cwd) s
        ≡ pure (if contains cwd security_directory_link then 1 else 0) s
  unfolding directory_of
  directory_of_lem cwd s = elim (Bool-cases (contains cwd security_directory_link)) [
    | inl e ↦ rw e refl
    | inr e ↦ rw (e, path-link cwd e) refl
  ]

  -- For a path, and a current directory that `getcwd` gives, `is_security_directory` answers 1
  -- exactly when one of the two texts contains "/enterprise": the tests for "/data/enterprise" add
  -- nothing. It changes no state.
  pub is_security_directory_lem :
      (path cwd : Bytes) (s : Process P.World)
      → getcwd s.world ≡ some cwd
      → is_security_directory P getcwd (some path) s
        ≡ pure
            (if contains path security_directory_link || contains cwd security_directory_link
              then 1
              else 0)
            s
  unfolding is_security_directory
  is_security_directory_lem path cwd s h =
      elim (Bool-cases (contains path security_directory_link)) [
        | inl e ↦ rw e refl
        | inr e ↦ rw (e, path-link path e, h) (directory_of_lem cwd s)
      ]
