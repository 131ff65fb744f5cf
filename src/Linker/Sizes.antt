-- ===== src/Linker/Sizes.antt =====
-- ports/linker.c: `stat`, `lstat` and `fstat`, which take the header off the size of an encrypted
-- file.
pub mod Laws
use tencryption.Prelude.{ℕ, ◌==◌, if◌then◌else◌}
use tencryption.Prelude.Int.{ℤ, pos, ◌-ℤ◌, eqb_ℤ, minus_one}
use tencryption.Prelude.Exec.{pure, ◌>>=◌}
use tencryption.Header.{header_size, file_type_rights}
use tencryption.Detect.{is_encrypted_by_fd, is_encrypted_by_path}
use tencryption.Platform.{Platform, Stat, FilePath, Run, Syscall, linker}
use tencryption.Linker.{gate}

-- `buf->st_size = buf->st_size - FILE_HEADER_POLL_SIZE`
abbrev pub hide_header : Stat → Stat
hide_header buf = record buf { st_size = buf.st_size -ℤ pos header_size }

module _ (P : Platform) where
  -- The end of the three functions: a call that succeeded asks for the type, by path or by
  -- descriptor, and adjusts the size.
  adjust : Run P ℕ → ℤ × Stat → Run P (ℤ × Stat)
  adjust kind (state, buf) =
      if eqb_ℤ state (pos 0)
      then (do k ← kind; pure (state, if k == file_type_rights then hide_header buf else buf))
      else pure (state, buf)

  -- `stat` behind the tests on the process.
  unfoldable pub stat_transparent : FilePath → Stat → Run P (ℤ × Stat)
  unfolding adjust linker
  stat_transparent path buf = do
    result ← linker P Syscall.stat (P.sys_stat path buf)
    adjust (is_encrypted_by_path P path) result

  unfoldable pub stat : FilePath → Stat → Run P (ℤ × Stat)
  unfolding gate stat_transparent linker
  stat path buf =
      gate P Syscall.stat (minus_one, buf) (linker P Syscall.stat (P.sys_stat path buf))
        (stat_transparent path buf)

  -- `lstat` behind the tests on the process.
  unfoldable pub lstat_transparent : FilePath → Stat → Run P (ℤ × Stat)
  unfolding adjust linker
  lstat_transparent path buf = do
    result ← linker P Syscall.lstat (P.sys_lstat path buf)
    adjust (is_encrypted_by_path P path) result

  unfoldable pub lstat : FilePath → Stat → Run P (ℤ × Stat)
  unfolding gate lstat_transparent linker
  lstat path buf =
      gate P Syscall.lstat (minus_one, buf) (linker P Syscall.lstat (P.sys_lstat path buf))
        (lstat_transparent path buf)

  -- `fstat` behind the tests on the process.
  unfoldable pub fstat_transparent : ℤ → Stat → Run P (ℤ × Stat)
  unfolding adjust linker
  fstat_transparent fd buf = do
    result ← linker P Syscall.fstat (P.sys_fstat fd buf)
    adjust (is_encrypted_by_fd P fd) result

  unfoldable pub fstat : ℤ → Stat → Run P (ℤ × Stat)
  unfolding gate fstat_transparent linker
  fstat fd buf =
      gate P Syscall.fstat (minus_one, buf) (linker P Syscall.fstat (P.sys_fstat fd buf))
        (fstat_transparent fd buf)
