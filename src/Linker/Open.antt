-- ===== src/Linker/Open.antt =====
-- ports/linker.c: `open`. A new file gets a header, an encrypted one is tracked and its position put
-- behind the header, and a plain one is rebuilt first.
pub mod Probe
pub mod Encrypted
pub mod Created
pub mod Rebuilt
pub mod Plain
pub mod Large
use tencryption.Prelude.{
  ℕ, ◌+◌, Bool, true, not, Option, none, some, ◌++◌, length, replicate, leb, ltb, ◌==◌,
  if◌then◌else◌,
}
use tencryption.Prelude.Int.{ℤ, pos, eqb_ℤ, is_pos, minus_one}
use tencryption.Prelude.Text.{codes}
use tencryption.Prelude.Exec.{pure, fault, ◌>>=◌, ◌>>◌}
use tencryption.Header.{header_size, file_type_rights, is_encrypted_by_file_header}
use tencryption.Detect.{header_buffer, file_header_init}
use tencryption.FileInfos.{set_header, file_info_list_add, file_info_list_remove_by_fd}
use tencryption.Linker.{gate}
use tencryption.Linker.Rebuild.File.{rebuild_file_struct}
use tencryption.Linker.Transfer.{no_stat}
use tencryption.Platform.{
  Platform, Bytes, FilePath, Run, Syscall, linker, system, seek_set, path_max, o_rdonly, o_creat,
  o_append, has,
}

module _ (P : Platform) where
  unfoldable pub get_file_size_by_path : FilePath → Run P ℤ
  unfolding linker
  get_file_size_by_path path = do
    (rc, state) ← linker P Syscall.stat (P.sys_stat path no_stat)
    pure (if eqb_ℤ rc (pos 0) then state.st_size else pos 0)

  -- `none` is the NULL pointer of a failed allocation; a path that does not fit with its new end
  -- and the NUL overruns the buffer.
  unfoldable pub get_security_path_by_path : FilePath → Run P (Option FilePath)
  get_security_path_by_path path = do
    ok ← system P (P.calloc path_max)
    if not ok
        then pure none
        else if ltb path_max (length path + 3)
        then fault
        else pure (some (path ++ codes ".s"))

  -- The header read from an open file: kept if it is whole and an encrypted file's.
  read_header : ℤ → Run P (Option Bytes)
  read_header fd = do
    (count, bytes) ← linker P Syscall.read (P.sys_read fd header_size)
    let header = header_buffer bytes
    pure (
        if eqb_ℤ count (pos header_size)
        then (if is_encrypted_by_file_header header == file_type_rights then some header else none)
        else none)

  read_header_and_close : ℤ → Run P (Option Bytes)
  unfolding read_header
  read_header_and_close fd = do
    ok ← system P (P.calloc header_size)
    header ← if ok then read_header fd else pure none
    linker P Syscall.close (P.sys_close fd)
    pure header

  -- The header of a file that exists, if it is encrypted.
  unfoldable pub probe_header : FilePath → Run P (Option Bytes)
  unfolding read_header_and_close read_header linker
  probe_header path = do
    fd ← linker P Syscall.open_file (P.sys_open path o_rdonly 0)
    if is_pos fd then read_header_and_close fd else pure none

  -- The write of a new header, in the item at position `p` of the list.
  write_header : ℤ → ℕ → Run P ℤ
  write_header fd p = do
    (kind, header) ← file_header_init P (replicate header_size 0)
    (λ s. some (tt, record s { file_info_list = set_header p header s.file_info_list }))
    count ← linker P Syscall.write (P.sys_write fd header)
    if eqb_ℤ count (pos header_size) then pure fd else (do
      file_info_list_remove_by_fd P fd
      linker P Syscall.close (P.sys_close fd)
      pure minus_one)

  -- A file that did not exist.
  unfoldable pub open_new : ℤ → FilePath → Run P ℤ
  unfolding write_header file_info_list_add file_info_list_remove_by_fd set_header linker
  open_new fd path = if P.is_support_special_file_type_by_path path == 1 then pure fd else (do
    item ← file_info_list_add P fd path
    elim item [ none ↦ pure fd | some p ↦ write_header fd p ])

  -- A file with an encrypted file's header.
  track_encrypted : ℤ → ℕ → Bytes → ℕ → Run P ℤ
  track_encrypted fd flags header p = do
    (λ s. some (tt, record s { file_info_list = set_header p header s.file_info_list }))
    if has flags o_append
        then pure fd
        else (do linker P Syscall.lseek (P.sys_lseek fd (pos header_size) seek_set); pure fd)

  unfoldable pub open_encrypted : ℤ → FilePath → ℕ → Bytes → Run P ℤ
  unfolding track_encrypted file_info_list_add set_header linker
  open_encrypted fd path flags header = do
    item ← file_info_list_add P fd path
    elim item [ none ↦ pure fd | some p ↦ track_encrypted fd flags header p ]

  module _ (threads : FilePath → ℕ → Run P ℕ) where
    -- The descriptor opened again and tracked, also where the second `open` failed.
    reopen_rebuilt : FilePath → ℕ → ℕ → Run P ℤ
    reopen_rebuilt path flags mode = do
      fd ← linker P Syscall.open_file (P.sys_open path flags mode)
      item ← file_info_list_add P fd path
      elim item [
        | none ↦ pure fd
        | some p ↦ do linker P Syscall.lseek (P.sys_lseek fd (pos header_size) seek_set); pure fd
      ]

    rebuild_and_reopen : ℤ → FilePath → ℕ → ℕ → Run P ℤ
    unfolding reopen_rebuilt get_file_size_by_path
    rebuild_and_reopen fd path flags mode = do
      linker P Syscall.close (P.sys_close fd)
      size ← get_file_size_by_path path
      result ← rebuild_file_struct P threads path size
      if result == 1
          then reopen_rebuilt path flags mode
          else linker P Syscall.open_file (P.sys_open path flags mode)

    -- A file without such a header: rebuilt, unless a copy under rebuilding exists.
    unfoldable pub open_plain : ℤ → FilePath → ℕ → ℕ → Run P ℤ
    unfolding rebuild_and_reopen get_security_path_by_path file_info_list_add linker
    open_plain fd path flags mode = do
      npath ← get_security_path_by_path path
      elim npath [
        | none ↦ pure fd
        | some ptr ↦ λ s.
            if P.accessible ptr s.world then pure fd s else rebuild_and_reopen fd path flags mode s
      ]

    -- What `open` does with the file that it opened.
    unfoldable pub open_found : ℤ → FilePath → ℕ → ℕ → Bool → Option Bytes → Run P ℤ
    unfolding open_new open_plain open_encrypted
    open_found fd path flags mode exists header =
        if not exists then open_new fd path else elim header [
          | none ↦ open_plain fd path flags mode
          | some h ↦ open_encrypted fd path flags h
        ]

    -- `open` of a path with a supported type, behind the tests on the process.
    unfoldable pub open_supported : FilePath → ℕ → ℕ → Run P ℤ
    unfolding probe_header open_found linker
    open_supported path flags mode s =
        let exists = P.accessible path s.world in
        (do
          header ← if exists then probe_header path else pure none
          fd ← linker P Syscall.open_file (P.sys_open path flags mode)
          if is_pos fd then open_found fd path flags mode exists header else pure fd)
          s

    unfoldable pub open_transparent : FilePath → ℕ → ℕ → Run P ℤ
    unfolding open_supported linker
    open_transparent path flags mode =
        if P.is_support_file_type_by_path path == 0
        then linker P Syscall.open_file (P.sys_open path flags mode)
        else open_supported path flags mode

    -- The third argument of `open` is read only with `O_CREAT`.
    unfoldable pub open_file : FilePath → ℕ → ℕ → Run P ℤ
    unfolding gate open_transparent linker
    open_file path flags argument =
        let mode = if has flags o_creat then argument else 0 in
        gate P Syscall.open_file minus_one (linker P Syscall.open_file (P.sys_open path flags mode))
          (open_transparent path flags mode)
