-- ===== src/Ftype.antt =====
-- ports/ftype.c and init/ftype.c: the type of a file by the end of its path.
pub mod Tids
pub mod Fids
pub mod Types
pub mod Lookup
pub mod Paths
use tencryption.Prelude.{ℕ, List, [], ◌∷◌, none, some, length, ◌==◌, if◌then◌else◌}
use tencryption.Text.Search.{strchr, strrchr, strcasestr, strncasecmp_eq}
use tencryption.Ftype.Tids.{tid_mp4_tmp}
use tencryption.Ftype.Types.{FileType, types, flist}

-- The loop of `get_tid_by_path`.
unfoldable pub find_tid : List FileType → List ℕ → ℕ
find_tid [] path = 0
find_tid (x ∷ xs) path =
    let rest = find_tid xs path in
    elim (strcasestr path x.name) [
      | none ↦ rest
      | some type ↦ if strncasecmp_eq type x.name (length type) then x.id else rest
    ]

-- 46 is the dot.
unfoldable pub get_tid_by_path : List ℕ → ℕ
get_tid_by_path path = elim (strrchr path 46) [ none ↦ 0 | some _ ↦ find_tid types path ]

pub is_special_type_by_tid : ℕ → ℕ
is_special_type_by_tid tid = if tid == tid_mp4_tmp then 1 else 0

-- The loop of `getfid`, which compares the name from its first dot on.
unfoldable pub find_fid : List FileType → List ℕ → ℕ
find_fid [] sname = 0
find_fid (x ∷ xs) sname =
    let rest = find_fid xs sname in
    elim (strcasestr sname x.name) [
      | none ↦ rest
      | some _ ↦ if strncasecmp_eq sname x.name (length sname) then x.id else rest
    ]

unfoldable pub getfid : List ℕ → ℕ
getfid filename = elim (strchr filename 46) [ none ↦ 0 | some sname ↦ find_fid flist sname ]
