-- ===== src/Linker/Positions.antt =====
-- ports/linker.c: `lseek` and `lseek64`, which count positions from behind the header, and `pread`
-- and `pwrite`, which do not.
use tencryption.Prelude.{ℕ, [], if◌then◌else◌}
use tencryption.Prelude.Int.{ℤ, pos, ◌+ℤ◌, ◌-ℤ◌, minus_one}
use tencryption.Prelude.Exec.{pure, ◌>>=◌}
use tencryption.Header.{header_size}
use tencryption.Platform.{
  Platform, Bytes, Whence, seek_set, seek_cur, seek_end, Run, Syscall, linker,
}
use tencryption.Linker.{gate, is_plain_fd}

-- `if (whence == SEEK_SET) offset += FILE_HEADER_POLL_SIZE`
shifted : ℤ → Whence → ℤ
shifted offset seek_set = offset +ℤ pos header_size
shifted offset seek_cur = offset
shifted offset seek_end = offset

module _ (P : Platform) where
  -- `lseek` behind the tests on the process.
  unfoldable pub lseek_transparent : ℤ → ℤ → Whence → Run P ℤ
  unfolding is_plain_fd shifted linker
  lseek_transparent fd offset whence = do
    plain ← is_plain_fd P fd
    if plain then linker P Syscall.lseek (P.sys_lseek fd offset whence) else (do
      position ← linker P Syscall.lseek (P.sys_lseek fd (shifted offset whence) whence)
      pure (position -ℤ pos header_size))

  unfoldable pub lseek : ℤ → ℤ → Whence → Run P ℤ
  unfolding gate lseek_transparent linker
  lseek fd offset whence =
      gate P Syscall.lseek minus_one (linker P Syscall.lseek (P.sys_lseek fd offset whence))
        (lseek_transparent fd offset whence)

  -- `lseek64` behind the tests on the process.
  unfoldable pub lseek64_transparent : ℤ → ℤ → Whence → Run P ℤ
  unfolding is_plain_fd shifted linker
  lseek64_transparent fd offset whence = do
    plain ← is_plain_fd P fd
    if plain then linker P Syscall.lseek64 (P.sys_lseek64 fd offset whence) else (do
      position ← linker P Syscall.lseek64 (P.sys_lseek64 fd (shifted offset whence) whence)
      pure (position -ℤ pos header_size))

  unfoldable pub lseek64 : ℤ → ℤ → Whence → Run P ℤ
  unfolding gate lseek64_transparent linker
  lseek64 fd offset whence =
      gate P Syscall.lseek64 minus_one (linker P Syscall.lseek64 (P.sys_lseek64 fd offset whence))
        (lseek64_transparent fd offset whence)

  -- Both branches of the source make the same call.
  unfoldable pub pread : ℤ → ℕ → ℕ → Run P (ℤ × Bytes)
  unfolding gate linker
  pread fd count offset =
      let call = linker P Syscall.pread (P.sys_pread fd count offset) in
      gate P Syscall.pread (minus_one, []) call call

  unfoldable pub pwrite : ℤ → Bytes → ℕ → Run P ℤ
  unfolding gate linker
  pwrite fd buf offset =
      let call = linker P Syscall.pwrite (P.sys_pwrite fd buf offset) in
      gate P Syscall.pwrite minus_one call call
