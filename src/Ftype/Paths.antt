-- ===== src/Ftype/Paths.antt =====
-- ports/ftype.c: `get_tid_by_path`, on paths with one dot and on all paths.
use tencryption.Prelude.{
  ℕ, ◌≡◌, ◌≢◌, refl, sym, ap, ◌∙◌, true, Option, none, some, List, [], ◌∷◌, ◌++◌, arith, length,
  if◌then◌else◌, inl, inr, ◌⊎◌, Option-cases, Bool-cases,
}
use mathlib.Core.Path.{subst}
use mathlib.Core.List.{Mem, mem-cons_self, mem-cons_of_mem}
use tencryption.Text.Search.{strchr, strrchr, starts_with_case, strcasestr, strncasecmp_eq}
use tencryption.Ftype.{find_tid, get_tid_by_path, getfid}
use tencryption.Ftype.Types.{FileType, types, flist}
use tencryption.Ftype.Lookup.{same_case, named, dotted, starts-same, getfid_lem}

-- What is searched for begins with a dot, so the text before the first dot does not matter.
strcasestr-append :
    (front s ns : List ℕ)
    → strchr front 46 ≡ none
    → strcasestr (front ++ s) (46 ∷ ns) ≡ strcasestr s (46 ∷ ns)
unfolding strcasestr strchr starts_with_case
strcasestr-append [] s ns h = refl
strcasestr-append (x ∷ front) s ns h = ground (arith, strcasestr-append front s ns)

no_dot : (s ns : List ℕ) → strchr s 46 ≡ none → strcasestr s (46 ∷ ns) ≡ none
unfolding strcasestr strchr starts_with_case
no_dot [] ns h = refl
no_dot (x ∷ s) ns h = ground (arith, no_dot s ns)

strcasestr-last :
    (tail ns : List ℕ)
    → strchr tail 46 ≡ none
    → strcasestr (46 ∷ tail) (46 ∷ ns)
      ≡ (if starts_with_case (46 ∷ tail) (46 ∷ ns) then some (46 ∷ tail) else none)
unfolding strcasestr
strcasestr-last tail ns h = ground (arith, no_dot tail ns h)

-- The answer of one turn of the loop in `get_tid_by_path`.
abbrev turn : Option (List ℕ) → FileType → ℕ → ℕ
turn found x rest = elim found [
  | none ↦ rest
  | some type ↦ if strncasecmp_eq type x.name (length type) then x.id else rest
]

turn-last :
    (s : List ℕ) (x : FileType) (rest : ℕ)
    → turn (if starts_with_case s x.name then some s else none) x rest
      ≡ (if same_case s x.name then x.id else rest)
turn-last s x rest = ground (arith, starts-same s x.name)

find_tid_cons :
    (x : FileType) (xs : List FileType) (front tail n : List ℕ)
    → x.name ≡ n
    → dotted (x ∷ xs) ≡ true
    → strchr front 46 ≡ none
    → strchr tail 46 ≡ none
    → (dotted xs ≡ true → find_tid xs (front ++ 46 ∷ tail) ≡ named xs (46 ∷ tail))
    → find_tid (x ∷ xs) (front ++ 46 ∷ tail) ≡ named (x ∷ xs) (46 ∷ tail)
unfolding find_tid named dotted
find_tid_cons x xs front tail [] e d hf ht below = ground arith
find_tid_cons x xs front tail (c ∷ ns) e d hf ht below =
    let dot : x.name ≡ 46 ∷ ns = ground arith in
    ap (λ o. turn o x (find_tid xs (front ++ 46 ∷ tail)))
      (ap (λ m. strcasestr (front ++ 46 ∷ tail) m) dot
        ∙ strcasestr-append front (46 ∷ tail) ns hf
        ∙ strcasestr-last tail ns ht
        ∙ ap (λ m. if starts_with_case (46 ∷ tail) m then some (46 ∷ tail) else none) (sym dot))
    ∙ turn-last (46 ∷ tail) x (find_tid xs (front ++ 46 ∷ tail))
    ∙ ap (λ r. if same_case (46 ∷ tail) x.name then x.id else r) (below (ground arith))

find_tid_lem :
    (xs : List FileType) (front tail : List ℕ)
    → dotted xs ≡ true
    → strchr front 46 ≡ none
    → strchr tail 46 ≡ none
    → find_tid xs (front ++ 46 ∷ tail) ≡ named xs (46 ∷ tail)
unfolding find_tid named
find_tid_lem [] front tail d hf ht = refl
find_tid_lem (x ∷ xs) front tail d hf ht =
    find_tid_cons x xs front tail x.name refl d hf ht (λ r. find_tid_lem xs front tail r hf ht)

strrchr-append : (front tail : List ℕ) → strrchr (front ++ 46 ∷ tail) 46 ≢ none
unfolding strrchr
strrchr-append [] tail = ground arith
strrchr-append (x ∷ front) tail = ground (arith, strrchr-append front tail)

types-dotted : dotted types ≡ true
unfolding dotted
types-dotted = refl

-- The two tables give every name the same number.
same_tables : types ≡ flist
same_tables = refl

get_tid_by_path_lem :
    (front tail : List ℕ)
    → strchr front 46 ≡ none
    → strchr tail 46 ≡ none
    → get_tid_by_path (front ++ 46 ∷ tail) ≡ named types (46 ∷ tail)
unfolding get_tid_by_path
get_tid_by_path_lem front tail hf ht = elim (Option-cases (strrchr (front ++ 46 ∷ tail) 46)) [
  | inl e ↦ absurd (strrchr-append front tail e)
  | inr (t, e) ↦ rw (get_tid_by_path, e) (find_tid_lem types front tail types-dotted hf ht)
]

-- On a path with exactly one dot, `get_tid_by_path` and `getfid` give the same answer: the number of
-- the first type in the table whose name is the rest of the path from the dot on, letter case
-- apart, or 0 if there is none.
pub get_tid_by_path-getfid :
    (front tail : List ℕ)
    → strchr front 46 ≡ none
    → strchr tail 46 ≡ none
    → (get_tid_by_path (front ++ 46 ∷ tail) ≡ named types (46 ∷ tail))
      × (getfid (front ++ 46 ∷ tail) ≡ get_tid_by_path (front ++ 46 ∷ tail))
get_tid_by_path-getfid front tail hf ht =
    let tid = get_tid_by_path_lem front tail hf ht in
    (tid, getfid_lem front tail hf ∙ ap (λ t. named t (46 ∷ tail)) (sym same_tables) ∙ sym tid)

-- A text that is found is an end of the text searched.
strcasestr_sound :
    (s n t : List ℕ)
    → strcasestr s n ≡ some t
    → (front : List ℕ) × (s ≡ front ++ t) × (starts_with_case t n ≡ true)
unfolding strcasestr
strcasestr_sound [] n t h = elim (Bool-cases (starts_with_case [] n)) [
  | inl e ↦ ([], ground arith, ground arith)
  | inr e ↦ ground arith
]
strcasestr_sound (x ∷ s) n t h = elim (Bool-cases (starts_with_case (x ∷ s) n)) [
  | inl e ↦ ([], ground arith, ground arith)
  | inr e ↦
      let (front, e1, e2) = strcasestr_sound s n t (ground arith) in
      (x ∷ front, ap (λ l. x ∷ l) e1, e2)
]

-- An entry of the table with the number `tid` whose name ends the path, letter case apart.
abbrev pub EndsIn : List FileType → List ℕ → ℕ → Type 0
EndsIn xs path tid =
    (x : FileType) × (front : List ℕ) × (rest : List ℕ) × Mem x xs
    × (path ≡ front ++ rest)
    × (same_case rest x.name ≡ true)
    × (x.id ≡ tid)

EndsIn-later :
    {x : FileType} {xs : List FileType} {path : List ℕ} {tid : ℕ}
    → EndsIn xs path tid
    → EndsIn (x ∷ xs) path tid
EndsIn-later {x} (y, front, rest, mem, split, same, id) =
    (y, front, rest, mem-cons_of_mem x mem, split, same, id)

find_tid_sound :
    (xs : List FileType) (path : List ℕ) → find_tid xs path ≢ 0 → EndsIn xs path (find_tid xs path)
unfolding find_tid
find_tid_sound [] path h = absurd (h refl)
find_tid_sound (x ∷ xs) path h = go (Option-cases (strcasestr path x.name)) (find_tid_sound xs path)
  where
    hit :
        (t : List ℕ)
        → strcasestr path x.name ≡ some t
        → strncasecmp_eq t x.name (length t) ≡ true
        → EndsIn (x ∷ xs) path x.id
    hit t e same =
        let (front, split, starts) = strcasestr_sound path x.name t e in
        (x, front, t, mem-cons_self, split, ground (arith, starts-same t x.name), refl)

    go :
        (strcasestr path x.name ≡ none) ⊎ ((t : List ℕ) × (strcasestr path x.name ≡ some t))
        → (find_tid xs path ≢ 0 → EndsIn xs path (find_tid xs path))
        → EndsIn (x ∷ xs) path (find_tid (x ∷ xs) path)
    go (inl e) below = rw (find_tid, e) (EndsIn-later (below (λ z. h (rw (find_tid, e) z))))
    go (inr (t, e)) below = elim (Bool-cases (strncasecmp_eq t x.name (length t))) [
      | inl same ↦ rw (find_tid, e, same) (hit t e same)
      | inr other ↦
          rw (find_tid, e, other) (EndsIn-later (below (λ z. h (rw (find_tid, e, other) z))))
    ]

-- On every path, what `get_tid_by_path` answers is 0 or the number of a type in the table whose
-- name ends the path, letter case apart.
pub get_tid_by_path_sound :
    (path : List ℕ) → get_tid_by_path path ≢ 0 → EndsIn types path (get_tid_by_path path)
unfolding get_tid_by_path
get_tid_by_path_sound path h = go (Option-cases (strrchr path 46))
  where
    go :
        (strrchr path 46 ≡ none) ⊎ ((t : List ℕ) × (strrchr path 46 ≡ some t))
        → EndsIn types path (get_tid_by_path path)
    go (inl e) = absurd (h (rw (get_tid_by_path, e) refl))
    go (inr (t, e)) =
        let same : get_tid_by_path path ≡ find_tid types path = rw (get_tid_by_path, e) refl in
        subst (λ n. EndsIn types path n) (sym same) (find_tid_sound types path (λ z. h (same ∙ z)))
