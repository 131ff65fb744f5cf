-- ===== src/Detect.antt =====
-- ports/crypto.c and ports/util.c: whether a descriptor or a path holds an encrypted file, and the
-- name of the process that a new header records.
pub mod Laws
pub mod Name
pub mod ByPath
use Prim.Native.Nat.{bit_and}
use tencryption.Prelude.{ℕ, Option, none, some, ◌++◌, replicate, length, ◌==◌, if◌then◌else◌}
use tencryption.Prelude.Int.{ℤ, is_pos}
use tencryption.Prelude.Text.{codes, cstr, strlen}
use tencryption.Prelude.Exec.{pure, fault, ◌>>=◌, ◌>>◌}
use tencryption.Prelude.Slices.{write_at}
use tencryption.Text.Number.{print_natural}
use tencryption.Header
use tencryption.Header.{header_size, file_type_normal, is_encrypted_by_file_header}
use tencryption.Platform.{
  Platform, Bytes, FilePath, Run, linker, system, dup, open_file, read, close, pread, o_rdonly,
  o_wronly,
}

-- A header buffer, cleared, after a read of `bytes` into it.
abbrev pub header_buffer : Bytes → Bytes
header_buffer bytes = write_at 0 bytes (replicate header_size 0)

-- `/proc/<pid>/cmdline`.
abbrev pub cmdline_path : ℕ → FilePath
cmdline_path pid = codes "/proc/" ++ print_natural pid ++ codes "/cmdline"

module _ (P : Platform) where
  -- The header read through the duplicate `nfd`, which is closed before the test.
  probe_dup : ℤ → Run P ℕ
  probe_dup nfd = do
    (count, bytes) ← linker P pread (P.sys_pread nfd header_size 0)
    linker P close (P.sys_close nfd)
    pure (is_encrypted_by_file_header (header_buffer bytes))

  dup_and_probe : ℤ → Run P ℕ
  unfolding probe_dup
  dup_and_probe fd = do
    nfd ← linker P dup (P.sys_dup fd)
    if is_pos nfd then probe_dup nfd else pure file_type_normal

  unfoldable pub is_encrypted_by_fd : ℤ → Run P ℕ
  unfolding dup_and_probe linker
  is_encrypted_by_fd fd s =
      if bit_and (P.status_flags fd s.world) o_wronly == o_wronly
      then pure file_type_normal s
      else dup_and_probe fd s

  probe_open : ℤ → Run P ℕ
  probe_open fd = do
    (count, bytes) ← linker P read (P.sys_read fd header_size)
    linker P close (P.sys_close fd)
    pure (is_encrypted_by_file_header (header_buffer bytes))

  unfoldable pub is_encrypted_by_path : FilePath → Run P ℕ
  unfolding probe_open linker
  is_encrypted_by_path path = do
    fd ← linker P open_file (P.sys_open path o_rdonly 0)
    if is_pos fd then probe_open fd else pure file_type_normal

  -- The buffer after the read, whose count is not used.
  read_name : ℤ → Run P Bytes
  read_name fd = do
    (count, bytes) ← linker P read (P.sys_read fd P.process_name_max)
    linker P close (P.sys_close fd)
    pure (write_at 0 bytes (replicate P.process_name_max 0))

  name_of_process : Run P Bytes
  unfolding read_name
  name_of_process s =
      (do
        fd ← linker P open_file (P.sys_open (cmdline_path (P.getpid s.world)) o_rdonly 0)
        if is_pos fd then read_name fd else pure (replicate P.process_name_max 0))
        s

  -- `none` is the NULL pointer of a failed allocation.
  unfoldable pub get_process_name : Run P (Option Bytes)
  unfolding name_of_process linker
  get_process_name = do
    ok ← system P (P.calloc P.process_name_max)
    if ok then (do name ← name_of_process; pure (some name)) else pure none

  -- The name up to its NUL; `strlen` reads behind a buffer without one.
  name_text : Option Bytes → Run P (Option Bytes)
  name_text none = pure none
  name_text (some name) = if strlen name == length name then fault else pure (some (cstr name))

  -- `file_header_init` with the name of this process: the type that it returns and the buffer.
  unfoldable pub file_header_init : Bytes → Run P (ℕ × Bytes)
  unfolding name_text
  file_header_init header = do
    buffer ← get_process_name
    name ← name_text buffer
    pure (Header.file_header_init name header)
