-- ===== src/Linker/Descriptors.antt =====
-- ports/linker.c: `dup` and `close`, which keep the list of tracked descriptors.
use tencryption.Prelude.{Option, none, some, if◌then◌else◌}
use tencryption.Prelude.Int.{ℤ, pos, is_pos, minus_one}
use tencryption.Prelude.Exec.{pure, ◌>>=◌, ◌>>◌}
use tencryption.FileInfos.{
  file_info_list_add, file_info_list_query_by_fd, file_info_list_remove_by_fd,
}
use tencryption.Platform.{Platform, FileInfo, Run, Syscall, linker, seek_set}
use tencryption.Linker.{gate, is_plain_fd}

module _ (P : Platform) where
  -- The duplicate is tracked under the path of the old descriptor.
  track_copy : ℤ → Option FileInfo → Run P (Unit {0})
  track_copy fd none = pure tt
  track_copy fd (some info) = do file_info_list_add P fd info.file_path; pure tt

  dup_tracked : ℤ → Run P ℤ
  unfolding track_copy file_info_list_query_by_fd
  dup_tracked oldfd = do
    fd ← linker P Syscall.dup (P.sys_dup oldfd)
    if is_pos fd
        then (do info ← file_info_list_query_by_fd P oldfd; track_copy fd info; pure fd)
        else pure fd

  -- `dup` behind the tests on the process.
  unfoldable pub dup_transparent : ℤ → Run P ℤ
  unfolding is_plain_fd dup_tracked linker
  dup_transparent oldfd = do
    plain ← is_plain_fd P oldfd
    if plain then linker P Syscall.dup (P.sys_dup oldfd) else dup_tracked oldfd

  unfoldable pub dup : ℤ → Run P ℤ
  unfolding gate dup_transparent linker
  dup oldfd =
      gate P Syscall.dup minus_one (linker P Syscall.dup (P.sys_dup oldfd)) (dup_transparent oldfd)

  -- A tracked descriptor is rewound and leaves the list.
  untrack : ℤ → Option FileInfo → Run P (Unit {0})
  untrack fd none = pure tt
  untrack fd (some info) = do
    linker P Syscall.lseek (P.sys_lseek fd (pos 0) seek_set)
    file_info_list_remove_by_fd P fd

  -- `close` behind the tests on the process.
  unfoldable pub close_transparent : ℤ → Run P ℤ
  unfolding untrack linker file_info_list_query_by_fd file_info_list_remove_by_fd
  close_transparent fd = do
    info ← file_info_list_query_by_fd P fd
    untrack fd info
    linker P Syscall.close (P.sys_close fd)

  unfoldable pub close : ℤ → Run P ℤ
  unfolding gate close_transparent linker
  close fd =
      gate P Syscall.close minus_one (linker P Syscall.close (P.sys_close fd))
        (close_transparent fd)
