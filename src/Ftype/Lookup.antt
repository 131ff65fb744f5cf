-- ===== src/Ftype/Lookup.antt =====
-- init/ftype.c: `getfid` against a lookup of the name from its first dot on.
use tencryption.Prelude.{
  ℕ, ◌≤◌, ◌≡◌, refl, Bool, true, false, ◌&&◌, none, some, List, [], ◌∷◌, ◌++◌, arith, length, ◌==◌,
  if◌then◌else◌, inl, inr, Option-cases, Bool-cases,
}
use tencryption.Prelude.Text.{tolower}
use tencryption.Text.Search.{strchr, starts_with_case, strcasestr, strncasecmp_eq}
use tencryption.Ftype.{find_fid, getfid}
use tencryption.Ftype.Types.{FileType, flist}

-- Equal texts, letter case apart.
unfoldable pub same_case : List ℕ → List ℕ → Bool
same_case [] [] = true
same_case [] (y ∷ ys) = false
same_case (x ∷ xs) [] = false
same_case (x ∷ xs) (y ∷ ys) = tolower x == tolower y && same_case xs ys

-- The number of the first type in the table that has this name, or 0.
unfoldable pub named : List FileType → List ℕ → ℕ
unfolding same_case
named [] s = 0
named (x ∷ xs) s = let rest = named xs s in if same_case s x.name then x.id else rest

-- Every name in the table begins with a dot.
unfoldable pub dotted : List FileType → Bool
dotted [] = true
dotted (x ∷ xs) = elim x.name [ [] ↦ false | c ∷ _ ↦ c == 46 && dotted xs ]

pub starts-same :
    (s n : List ℕ) → (starts_with_case s n && strncasecmp_eq s n (length s)) ≡ same_case s n
unfolding starts_with_case strncasecmp_eq same_case
starts-same [] [] = refl
starts-same [] (y ∷ ys) = refl
starts-same (x ∷ xs) [] = refl
starts-same (x ∷ xs) (y ∷ ys) = ground (arith, starts-same xs ys)

length-starts : (s n : List ℕ) → starts_with_case s n ≡ true → length n ≤ length s
unfolding starts_with_case
length-starts s [] h = omega arith
length-starts [] (y ∷ ys) h = cc
length-starts (x ∷ xs) (y ∷ ys) h = ground (arith, length-starts xs ys)

length-strcasestr : (s n t : List ℕ) → strcasestr s n ≡ some t → length n ≤ length s
unfolding strcasestr
length-strcasestr [] n t h = elim (Bool-cases (starts_with_case [] n)) [
  | inl e ↦ length-starts [] n e
  | inr e ↦ ground arith
]
length-strcasestr (x ∷ s) n t h = elim (Bool-cases (starts_with_case (x ∷ s) n)) [
  | inl e ↦ length-starts (x ∷ s) n e
  | inr e ↦ ground (arith, length-strcasestr s n t)
]

prefix-same : (s n : List ℕ) → length n ≤ length s → strncasecmp_eq s n (length s) ≡ same_case s n
unfolding strncasecmp_eq same_case
prefix-same [] [] h = refl
prefix-same [] (y ∷ ys) h = absurd (omega arith)
prefix-same (x ∷ xs) [] h = refl
prefix-same (x ∷ xs) (y ∷ ys) h = ground (arith, prefix-same xs ys)

found-same : (s n : List ℕ) → same_case s n ≡ true → strcasestr s n ≡ some s
unfolding strcasestr
found-same [] n h = ground (arith, starts-same [] n)
found-same (x ∷ s) n h = ground (arith, starts-same (x ∷ s) n)

find_fid_lem : (xs : List FileType) (s : List ℕ) → find_fid xs s ≡ named xs s
unfolding find_fid named
find_fid_lem [] s = refl
find_fid_lem (x ∷ xs) s = elim (Option-cases (strcasestr s x.name)) [
  | inl e ↦ ground (arith, e, found-same s x.name, find_fid_lem xs s)
  | inr (t, e) ↦
      rw (find_fid, e, prefix-same s x.name (length-strcasestr s x.name t e), find_fid_lem xs s)
        refl
]

strchr-append :
    (front tail : List ℕ)
    → strchr front 46 ≡ none
    → strchr (front ++ 46 ∷ tail) 46 ≡ some (46 ∷ tail)
unfolding strchr
strchr-append [] tail h = refl
strchr-append (x ∷ front) tail h = ground (arith, strchr-append front tail)

-- On a file name with a dot, `getfid` answers the number of the first type in its table whose name
-- is the rest of the file name from the first dot on, letter case apart, or 0 if there is none.
pub getfid_lem :
    (front tail : List ℕ)
    → strchr front 46 ≡ none
    → getfid (front ++ 46 ∷ tail) ≡ named flist (46 ∷ tail)
unfolding getfid
getfid_lem front tail h = rw (getfid, strchr-append front tail h) (find_fid_lem flist (46 ∷ tail))
