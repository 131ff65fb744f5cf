-- ===== src/Linker/Transfer.antt =====
-- ports/linker.c: `read` and `write`.
pub mod Padding
pub mod Read
pub mod Stored
pub mod Write
pub mod Roundtrip
use tencryption.Prelude.{
  ℕ, ◌+◌, ◌-◌, ◌/◌, ◌%◌, not, ◌||◌, false, Option, none, some, [], length, take, replicate, ltb,
  if◌then◌else◌,
}
use tencryption.Prelude.Int.{ℤ, pos, negsuc, pos_part, ◌+ℤ◌, is_pos, is_neg, minus_one}
use tencryption.Prelude.Exec.{pure, fault, ◌>>=◌, ◌>>◌}
use tencryption.Prelude.Slices.{slice, write_at}
use tencryption.Cipher.{encrypt_blocks, decrypt_blocks}
use tencryption.Header.{header_size}
use tencryption.FileInfos.{file_info_list_query_by_fd}
use tencryption.Platform.{
  Platform, Bytes, FileInfo, FilePath, Stat, seek_set, seek_cur, Run, Syscall, linker, system,
  o_rdwr,
}
use tencryption.Linker.{gate, is_plain_fd}

-- `sizeof(struct stat)` is the platform's; only the success of its allocation matters.
abbrev sizeof_stat : ℕ
sizeof_stat = 144

-- The cleared `struct stat`.
abbrev pub no_stat : Stat
no_stat = record { regular = false; st_size = pos 0 }

-- The size of `tmpbuf`: the start of the first block, the bytes asked for, and enough to end
-- a block.
abbrev pub padded_count : ℕ → ℕ → ℕ
padded_count offset count = count + offset % 16 + 16 - (count + offset) % 16

module _ (P : Platform) where
  -- The copy into the caller's buffer. A negative count of the second read is a huge `size_t`.
  copy_out : ℕ → ℤ → ℤ → Bytes → Run P (ℤ × Bytes)
  copy_out offset size (pos n) tmpbuf =
      if is_pos size
      then pure (pos n, slice (offset % 16) n (decrypt_blocks P.aes 0 (pos_part size / 16) tmpbuf))
      else pure (pos n, [])
  copy_out offset size (negsuc n) tmpbuf = if is_pos size then fault else pure (negsuc n, [])

  -- `read` from the allocation of `tmpbuf` on, at the offset found. A failed allocation is not
  -- tested: the block loop then writes through NULL.
  unfoldable pub decrypt_read : ℤ → ℕ → ℕ → Run P (ℤ × Bytes)
  unfolding copy_out linker
  decrypt_read fd count offset = do
    ok ← system P (P.calloc (padded_count offset count))
    if not ok then fault else (do
      (size_1, bytes_1) ←
          linker P Syscall.pread (P.sys_pread fd (offset % 16) (offset - offset % 16))
      (size_2, bytes_2) ← linker P Syscall.read (P.sys_read fd count)
      (size_3, bytes_3) ←
          linker P Syscall.pread (P.sys_pread fd (16 - (count + offset) % 16) (offset + count))
      copy_out offset (if is_pos size_3 then size_1 +ℤ size_2 +ℤ size_3 else size_1 +ℤ size_2)
          size_2
          (write_at (offset % 16 + count) bytes_3 (
            write_at (offset % 16) bytes_2
              (write_at 0 bytes_1 (replicate (padded_count offset count) 0)))))

  -- Before the header's end the descriptor is moved there. A failed `lseek` gives a negative
  -- index into `tmpbuf`.
  read_from : ℤ → ℕ → ℤ → Run P (ℤ × Bytes)
  read_from fd count (negsuc n) = fault
  read_from fd count (pos offset) =
      if ltb offset header_size
      then (do
        linker P Syscall.lseek (P.sys_lseek fd (pos header_size) seek_set)
        decrypt_read fd count (offset + header_size))
      else decrypt_read fd count offset

  unfoldable pub read_encrypted : ℤ → ℕ → Run P (ℤ × Bytes)
  unfolding read_from linker
  read_encrypted fd count = do
    offset ← linker P Syscall.lseek (P.sys_lseek fd (pos 0) seek_cur)
    read_from fd count offset

  -- The tests on the descriptor: a regular file that is tracked or has an encrypted header.
  unfoldable pub read_checked : ℤ → ℕ → Run P (ℤ × Bytes)
  unfolding is_plain_fd linker
  read_checked fd count = do
    let raw = linker P Syscall.read (P.sys_read fd count)
    ok ← system P (P.calloc sizeof_stat)
    if not ok then raw else (do
      (state, buf) ← linker P Syscall.fstat (P.sys_fstat fd no_stat)
      if is_neg state || not buf.regular
          then raw
          else (do plain ← is_plain_fd P fd; if plain then raw else read_encrypted fd count))

  unfoldable pub read : ℤ → ℕ → Run P (ℤ × Bytes)
  unfolding gate read_checked read_encrypted linker
  read fd count =
      gate P Syscall.read (minus_one, []) (linker P Syscall.read (P.sys_read fd count))
        (read_checked fd count)

  -- `write` behind the allocation of `temp`. The start of the first block is read through a new
  -- descriptor of the tracked path; the blocks that are complete are encrypted; the start is
  -- written back and the caller's bytes go out.
  unfoldable pub encrypt_write : ℤ → Bytes → ℕ → FilePath → Run P ℤ
  unfolding linker
  encrypt_write fd buf offset path = do
    let start = offset % 16
    let block = offset - offset % 16
    rfd ← linker P Syscall.open_file (P.sys_open path o_rdwr 0)
    (rc1, bytes) ← linker P Syscall.pread (P.sys_pread rfd start block)
    let temp =
        encrypt_blocks P.aes 0 ((length buf + start) / 16)
          (write_at start buf (write_at 0 bytes (replicate (length buf + start) 0)))
    rc2 ← linker P Syscall.pwrite (P.sys_pwrite fd (take start temp) block)
    linker P Syscall.close (P.sys_close rfd)
    linker P Syscall.write (P.sys_write fd (slice start (length buf) temp))

  -- A descriptor that is not tracked is a NULL pointer for `fi->file_path`, and a failed `lseek`
  -- gives a negative index into `temp`.
  write_tracked : ℤ → Bytes → ℤ → Option FileInfo → Run P ℤ
  write_tracked fd buf offset none = fault
  write_tracked fd buf (negsuc n) (some info) = fault
  write_tracked fd buf (pos offset) (some info) = encrypt_write fd buf offset info.file_path

  unfoldable pub write_encrypted : ℤ → Bytes → Run P ℤ
  unfolding write_tracked file_info_list_query_by_fd linker
  write_encrypted fd buf = do
    offset ← linker P Syscall.lseek (P.sys_lseek fd (pos 0) seek_cur)
    ok ← system P (P.calloc (length buf + pos_part offset % 16))
    if not ok
        then pure minus_one
        else (do info ← file_info_list_query_by_fd P fd; write_tracked fd buf offset info)

  -- `write` behind the tests on the process.
  unfoldable pub write_transparent : ℤ → Bytes → Run P ℤ
  unfolding write_encrypted linker
  write_transparent fd buf =
      if ltb 0 (length buf)
      then write_encrypted fd buf
      else linker P Syscall.write (P.sys_write fd buf)

  unfoldable pub write : ℤ → Bytes → Run P ℤ
  unfolding gate write_transparent linker
  write fd buf =
      gate P Syscall.write minus_one (linker P Syscall.write (P.sys_write fd buf))
        (write_transparent fd buf)
