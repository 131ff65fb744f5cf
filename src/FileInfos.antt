-- ===== src/FileInfos.antt =====
-- ports/util.c: the list of the descriptors that the library tracks. The intrusive list of
-- cutils/list.h is a list of its items in order; a pointer to an item is its position.
pub mod Laws
use tencryption.Prelude.{
  ℕ, zero, suc, ◌+◌, Bool, true, false, Option, none, some, List, [], ◌∷◌, ◌++◌, length, set, leb,
  if◌then◌else◌, replicate,
}
use tencryption.Prelude.Int.{ℤ, eqb_ℤ}
use tencryption.Prelude.Exec.{pure, fault, ◌>>=◌, ◌>>◌}
use tencryption.Header.{header_size}
use tencryption.Platform.{Platform, Process, FileInfo, FilePath, Bytes, Run, system, path_max}

-- The first item with the descriptor.
unfoldable pub find_fd : ℤ → List FileInfo → Option FileInfo
find_fd fd [] = none
find_fd fd (info ∷ rest) = if eqb_ℤ info.file_descriptor fd then some info else find_fd fd rest

-- The loop of `file_info_list_remove_by_fd`: the first item with the descriptor goes.
unfoldable pub erase_fd : ℤ → List FileInfo → List FileInfo
erase_fd fd [] = []
erase_fd fd (info ∷ rest) = if eqb_ℤ info.file_descriptor fd then rest else info ∷ erase_fd fd rest

-- The item that `file_info_list_add` fills in: `calloc` has cleared the header.
abbrev pub new_info : ℤ → FilePath → FileInfo
new_info fd path = record {
  file_descriptor = fd;
  file_path = path;
  header = replicate header_size 0;
}

-- `fi->header = h` through a pointer to the item at position `p`.
unfoldable pub set_header : ℕ → Bytes → List FileInfo → List FileInfo
set_header p h [] = []
set_header zero h (info ∷ rest) = record info { header = h } ∷ rest
set_header (suc p) h (info ∷ rest) = info ∷ set_header p h rest

-- `sizeof(struct file_info)`, with a list node of two pointers.
abbrev pub sizeof_file_info : ℕ
sizeof_file_info = 16 + 4 + path_max + header_size

module _ (P : Platform) where
  pub file_info_list_init : Run P (Unit {0})
  file_info_list_init s = some (tt, record s { file_info_list = [] })

  -- The loop of `file_info_list_deinit` removes and frees items until none is left.
  pub deinit_loop : List FileInfo → List FileInfo
  deinit_loop [] = []
  deinit_loop (info ∷ rest) = deinit_loop rest

  pub file_info_list_deinit : Run P (Unit {0})
  file_info_list_deinit s = some (tt, record s { file_info_list = deinit_loop s.file_info_list })

  -- A path that does not fit `file_path` overruns it.
  append_info : ℤ → FilePath → Run P (Option ℕ)
  append_info fd path s =
      if leb path_max (length path)
      then none
      else some (
        some (length s.file_info_list),
        record s { file_info_list = s.file_info_list ++ new_info fd path ∷ [] },
      )

  -- The position of the new item, which stands last.
  unfoldable pub file_info_list_add : ℤ → FilePath → Run P (Option ℕ)
  unfolding append_info
  file_info_list_add fd path = do
    ok ← system P (P.calloc sizeof_file_info)
    if ok then append_info fd path else pure none

  unfoldable pub file_info_list_query_by_fd : ℤ → Run P (Option FileInfo)
  unfolding find_fd
  file_info_list_query_by_fd fd s = some (find_fd fd s.file_info_list, s)

  unfoldable pub file_info_list_remove_by_fd : ℤ → Run P (Unit {0})
  unfolding erase_fd
  file_info_list_remove_by_fd fd s =
      some (tt, record s { file_info_list = erase_fd fd s.file_info_list })
