-- ===== src/Tests/Untrusted.antt =====
-- A process that is not trusted, at a concrete input.
use tencryption.Prelude.{ℕ, ◌≡◌, refl, some, arith, length}
use tencryption.Prelude.Int.{pos}
use tencryption.Prelude.Exec.{pure}
use tencryption.Prelude.Slices.{slice}
use tencryption.Prelude.Text.{codes}
use tencryption.Header.Equality.{bytes_eq}
use tencryption.Text.Number.{atoi}
use tencryption.Access.{is_trust_process, get_process_domain, get_process_user, get_process_uid}
use tencryption.Platform.{Platform, FilePath, Bytes, Run, o_rdwr}
use tencryption.Files.{Posix}
use tencryption.Files.Memory.{Disk, cipher, cipher-IsAes, memory, memory-Posix}
use tencryption.Linker.Session.{open_and_read}
use tencryption.Linker.Transfer.Stored.{stored}
use tencryption.Linker.Untrusted.{SeesCipher, AlwaysCipher, open_and_read_cipher}
use tencryption.Tests.Disk.{made, plain}
use tencryption.Tests.Open.{shelf, starting, root_found, shelf_content}

-- The platform with a process of the root user, which is not trusted.
abbrev root : Platform
root = record memory { getuid = λ w. 0 }

root-Posix : Posix root
root-Posix = record {
  view = memory-Posix.view;
  calloc_lem = memory-Posix.calloc_lem;
  fstat_lem = memory-Posix.fstat_lem;
  tell_lem = memory-Posix.tell_lem;
  seek_lem = memory-Posix.seek_lem;
  pread_lem = memory-Posix.pread_lem;
  read_lem = memory-Posix.read_lem;
  open_lem = memory-Posix.open_lem;
  create_lem = memory-Posix.create_lem;
  access_lem = memory-Posix.access_lem;
  stat_lem = memory-Posix.stat_lem;
  dup_lem = memory-Posix.dup_lem;
  status_flags_lem = memory-Posix.status_flags_lem;
  close_lem = memory-Posix.close_lem;
  pwrite_lem = memory-Posix.pwrite_lem;
  write_lem = memory-Posix.write_lem;
  ftruncate_lem = memory-Posix.ftruncate_lem;
  rename_lem = memory-Posix.rename_lem;
}

root_threads : FilePath → ℕ → Run root ℕ
root_threads path size = pure 0

root_cipher : (file : Bytes) → AlwaysCipher root (starting file)
unfolding is_trust_process get_process_domain get_process_user get_process_uid bytes_eq atoi
root_cipher file w = SeesCipher.untrusted (λ e. absurd (omega (arith, e))) (λ c. refl) refl

open_and_read_cipher_example :
    let out = slice 0 6 (stored cipher cipher-IsAes made plain) in
    (w : Disk) × (open_and_read root root_threads
        (codes "/")
        o_rdwr
        0
        6
        (starting (stored cipher cipher-IsAes made plain))
      ≡ some (
        (pos (length out), out),
        record (starting (stored cipher cipher-IsAes made plain)) { world = w },
      ))
    × ((root-Posix.view w).content
        ≡ (root-Posix.view (shelf (stored cipher cipher-IsAes made plain))).content)
unfolding root-Posix memory-Posix
open_and_read_cipher_example =
    let file : Bytes = stored cipher cipher-IsAes made plain in
    open_and_read_cipher root root-Posix cipher-IsAes root_threads (codes "/") o_rdwr 0 6 made plain
      (starting file) (root_cipher file) refl refl refl (root_found file) (shelf_content file)
