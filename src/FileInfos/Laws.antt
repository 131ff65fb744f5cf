-- ===== src/FileInfos/Laws.antt =====
-- The list of tracked descriptors as a finite map.
use tencryption.Prelude.{
  ◌<◌, ◌≡◌, ◌≢◌, refl, ap, sym, true, none, some, ℕ, Option, List, [], ◌∷◌, ◌++◌, arith, lt→leb,
  if◌then◌else◌, length,
}
use tencryption.Prelude.Int.{ℤ, eqb_ℤ, eqb_ℤ_refl, eqb_ℤ_sound, eqb_ℤ_ne}
use tencryption.Platform.{Platform, Process, FileInfo, FilePath, Bytes, path_max}
use tencryption.FileInfos.{
  set_header, find_fd, erase_fd, new_info, sizeof_file_info, file_info_list_add,
  file_info_list_query_by_fd, file_info_list_remove_by_fd,
}

-- No descriptor is listed twice.
abbrev pub NodupFds : List FileInfo → Type 0
NodupFds [] = Unit {0}
NodupFds (info ∷ rest) = (find_fd info.file_descriptor rest ≡ none) × NodupFds rest

-- An item added at the end is found unless an older one has its descriptor.
pub find_fd-append :
    (g fd : ℤ) (path : FilePath) (l : List FileInfo)
    → find_fd g (l ++ new_info fd path ∷ []) ≡ elim (find_fd g l) [
      | some old ↦ some old
      | none ↦ if eqb_ℤ fd g then some (new_info fd path) else none
    ]
unfolding find_fd
find_fd-append g fd path [] = refl
find_fd-append g fd path (x ∷ l) = ground (arith, find_fd-append g fd path l)

pub find_fd-erase_ne :
    (g fd : ℤ) (l : List FileInfo) → g ≢ fd → find_fd g (erase_fd fd l) ≡ find_fd g l
unfolding find_fd erase_fd
find_fd-erase_ne g fd [] ne = refl
find_fd-erase_ne g fd (x ∷ l) ne = ground (
  arith,
  find_fd-erase_ne g fd l ne,
  eqb_ℤ_sound x.file_descriptor g,
  eqb_ℤ_sound x.file_descriptor fd,
)

pub find_fd-erase_self :
    (fd : ℤ) (l : List FileInfo) → NodupFds l → find_fd fd (erase_fd fd l) ≡ none
unfolding find_fd erase_fd
find_fd-erase_self fd [] h = refl
find_fd-erase_self fd (x ∷ l) h =
    ground (arith, find_fd-erase_self fd l h.1, eqb_ℤ_sound x.file_descriptor fd)

pub erase_fd-NodupFds : (fd : ℤ) (l : List FileInfo) → NodupFds l → NodupFds (erase_fd fd l)
unfolding find_fd erase_fd
erase_fd-NodupFds fd [] h = tt
erase_fd-NodupFds fd (x ∷ l) h = ground (
  arith,
  erase_fd-NodupFds fd l h.1,
  find_fd-erase_ne x.file_descriptor fd l,
  eqb_ℤ_refl x.file_descriptor,
)

-- Another descriptor's answer does not change.
other_fd :
    (g fd : ℤ) (path : FilePath) (l : List FileInfo)
    → g ≢ fd
    → find_fd g (l ++ new_info fd path ∷ []) ≡ find_fd g l
unfolding find_fd
other_fd g fd path l ne = ground (arith, find_fd-append g fd path l, eqb_ℤ_sound fd g)

-- An item added at the end with a new descriptor: its header can be set through its position, it is
-- found, and no other answer changes.
pub set_header-append :
    (h : Bytes) (x : FileInfo) (l : List FileInfo)
    → set_header (length l) h (l ++ x ∷ []) ≡ l ++ record x { header = h } ∷ []
unfolding set_header
set_header-append h x [] = refl
set_header-append h x (y ∷ l) = ap (λ r. y ∷ r) (set_header-append h x l)

pub find_fd-append_self :
    (x : FileInfo) (l : List FileInfo)
    → find_fd x.file_descriptor l ≡ none
    → find_fd x.file_descriptor (l ++ x ∷ []) ≡ some x
unfolding find_fd
find_fd-append_self x [] h = rw (eqb_ℤ_refl x.file_descriptor) refl
find_fd-append_self x (y ∷ l) h = ground (arith, find_fd-append_self x l)

pub find_fd-append_ne :
    (g : ℤ) (x : FileInfo) (l : List FileInfo)
    → g ≢ x.file_descriptor
    → find_fd g (l ++ x ∷ []) ≡ find_fd g l
unfolding find_fd
find_fd-append_ne g x [] h = rw (eqb_ℤ_ne x.file_descriptor g (λ e. h (sym e))) refl
find_fd-append_ne g x (y ∷ l) h = ground (arith, find_fd-append_ne g x l h)

pub append-NodupFds :
    (x : FileInfo) (l : List FileInfo)
    → NodupFds l
    → find_fd x.file_descriptor l ≡ none
    → NodupFds (l ++ x ∷ [])
unfolding find_fd
append-NodupFds x [] h fresh = (refl, tt)
append-NodupFds x (y ∷ l) h fresh = ground (
  arith,
  append-NodupFds x l h.1,
  find_fd-append_ne y.file_descriptor x l,
  eqb_ℤ_sound y.file_descriptor x.file_descriptor,
  eqb_ℤ_refl y.file_descriptor,
)

module _ (P : Platform) (fd : ℤ) (s : Process P.World) (nodup : NodupFds s.file_info_list) where
  -- The answer of a query, without the state.
  abbrev pub tracked : ℤ → Process P.World → Option FileInfo
  tracked g t = find_fd g t.file_info_list

  -- Adding an untracked descriptor with a path that fits, where the allocation succeeds: the list
  -- stays without duplicates, the query finds the new item, and no other descriptor's answer
  -- changes.
  pub query-add :
      (path : FilePath)
      → tracked fd s ≡ none
      → length path < path_max
      → (P.calloc sizeof_file_info s.world).0 ≡ true
      → (p : ℕ) × (t : Process P.World) × (file_info_list_add P fd path s ≡ some (some p, t))
        × NodupFds t.file_info_list
        × (file_info_list_query_by_fd P fd t ≡ some (some (new_info fd path), t))
        × ((g : ℤ) → g ≢ fd → tracked g t ≡ tracked g s)
  unfolding file_info_list_add file_info_list_query_by_fd
  query-add path fresh fits ok =
      let t : Process P.World = record s {
        world = (P.calloc sizeof_file_info s.world).1;
        file_info_list = s.file_info_list ++ new_info fd path ∷ [];
      } in
      (
        length s.file_info_list,
        t,
        rw (ok, lt→leb path_max (length path) fits),
        append-NodupFds (new_info fd path) s.file_info_list nodup fresh,
        rw (find_fd-append fd fd path s.file_info_list, fresh, eqb_ℤ_refl fd),
        λ g ne. other_fd g fd path s.file_info_list ne,
      )

  -- Removing a descriptor from a list without duplicates: the list stays so, the descriptor is no
  -- longer found, and no other descriptor's answer changes.
  pub query-remove :
      (t : Process P.World) × (file_info_list_remove_by_fd P fd s ≡ some (tt, t))
      × NodupFds t.file_info_list
      × (file_info_list_query_by_fd P fd t ≡ some (none, t))
      × ((g : ℤ) → g ≢ fd → tracked g t ≡ tracked g s)
  unfolding file_info_list_remove_by_fd file_info_list_query_by_fd
  query-remove = (
    record s { file_info_list = erase_fd fd s.file_info_list },
    refl,
    erase_fd-NodupFds fd s.file_info_list nodup,
    rw (find_fd-erase_self fd s.file_info_list nodup),
    λ g ne. find_fd-erase_ne g fd s.file_info_list ne,
  )
