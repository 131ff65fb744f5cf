-- ===== src/Linker/Rebuild/File.antt =====
-- ports/linker.c: `rebuild_file_struct`, which puts a header before a plain file and encrypts it.
pub mod Small
use tencryption.Prelude.{
  ℕ, ◌+◌, ◌*◌, ◌/◌, Bool, false, Option, [], ◌∷◌, length, replicate, leb, if◌then◌else◌,
}
use tencryption.Prelude.Int.{ℤ, pos, negsuc, eqb_ℤ, is_pos}
use tencryption.Prelude.Exec.{pure, ◌>>=◌, ◌>>◌}
use tencryption.Prelude.Slices.{write_at}
use tencryption.Cipher.{encrypt_blocks}
use tencryption.Detect.{file_header_init}
use tencryption.Platform.{Platform, Bytes, FilePath, Run, Syscall, linker, system, o_rdwr}

-- include/constants.h.
abbrev pub threads_count : ℕ
threads_count = 4

module _ (P : Platform) where
  -- With the cleared buffer: the header and the encrypted content over the whole file, if all of
  -- the content was read.
  rebuild_into : ℤ → ℕ → Run P ℕ
  unfolding linker
  rebuild_into fd size = do
    (kind, buffer) ← file_header_init P (replicate (size + 4096) 0)
    (count, bytes) ← linker P Syscall.pread (P.sys_pread fd size 0)
    if eqb_ℤ count (pos size)
        then (do
          let whole = encrypt_blocks P.aes 4096 (size / 16) (write_at 4096 bytes buffer)
          written ← linker P Syscall.pwrite (P.sys_pwrite fd whole 0)
          pure (if eqb_ℤ written (pos (size + 4096)) then 1 else 0))
        else pure 0

  rebuild_opened : ℤ → ℕ → Run P ℕ
  rebuild_opened fd size = do
    ok ← system P (P.calloc (size + 4096))
    result ← if ok then rebuild_into fd size else pure 0
    linker P Syscall.close (P.sys_close fd)
    pure result

  -- A file of at most `4096 * THREADS_COUNT` bytes.
  unfoldable pub rebuild_small : FilePath → ℕ → Run P ℕ
  unfolding rebuild_opened rebuild_into linker
  rebuild_small path size = do
    fd ← linker P Syscall.open_file (P.sys_open path o_rdwr 0)
    if is_pos fd then rebuild_opened fd size else pure 0

  -- `threads` is the run of the threads on a larger file, which depends on the scheduler.
  module _ (threads : FilePath → ℕ → Run P ℕ) where
    rebuild_positive : FilePath → ℤ → Run P ℕ
    rebuild_positive path (negsuc n) = pure 0
    rebuild_positive path (pos size) =
        if leb size 0
        then pure 0
        else if leb size (4096 * threads_count)
        then rebuild_small path size
        else threads path size

    unfoldable pub rebuild_file_struct : FilePath → ℤ → Run P ℕ
    unfolding rebuild_positive rebuild_small
    rebuild_file_struct [] size = pure 0
    rebuild_file_struct (c ∷ path) size = rebuild_positive (c ∷ path) size
