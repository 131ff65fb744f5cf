-- ===== src/Detect/ByPath.antt =====
-- `is_encrypted_by_path` on a file that exists.
use tencryption.Prelude.{ℕ, suc, ◌+◌, ◌≡◌, refl, some, length}
use tencryption.Prelude.Int.{ℤ, pos}
use tencryption.Prelude.Slices.{slice}
use tencryption.Prelude.Exec.{◌>>=◌, ◌>>◌}
use tencryption.Header.{header_size, is_encrypted_by_file_header}
use tencryption.Platform.{Platform, Process, Bytes, FilePath, Syscall, linker, o_rdonly}
use tencryption.Files.{At, At-opened, At-moved, Posix}
use tencryption.Files.Same.{Same, Same-probe}
use tencryption.Detect.{header_buffer, is_encrypted_by_path}
use tencryption.Detect.Laws.{is_pos-suc}
use tencryption.Linker.Gate.{AllLinked}

module _ (P : Platform) (px : Posix P) where
  by_path_run :
      (path : FilePath) (s : Process P.World) {n : ℕ} {rc count : ℤ} {bytes : Bytes}
      {w1 w2 w3 : P.World}
      → AllLinked s
      → P.sys_open path o_rdonly 0 s.world ≡ (pos (suc n), w1)
      → P.sys_read (pos (suc n)) header_size w1 ≡ ((count, bytes), w2)
      → P.sys_close (pos (suc n)) w2 ≡ (rc, w3)
      → is_encrypted_by_path P path s
        ≡ some (is_encrypted_by_file_header (header_buffer bytes), record s { world = w3 })
  unfolding is_encrypted_by_path
  by_path_run path s {n} linked e1 e2 e3 =
      rw
        (
          ◌>>=◌,
          linker,
          linked Syscall.open_file,
          e1,
          is_pos-suc n,
          ◌>>=◌,
          linker,
          linked Syscall.read,
          e2,
          ◌>>◌,
          ◌>>=◌,
          linker,
          linked Syscall.close,
          e1,
          e3,
          e2,
        )
        refl

  -- The answer is what the first bytes of the file say, and nothing else changes.
  pub is_encrypted_by_path_lem :
      (path : FilePath) (s : Process P.World) {i : ℕ} {file : Bytes}
      → AllLinked s
      → (px.view s.world).resolve path ≡ some i
      → (px.view s.world).content i ≡ file
      → (w : P.World) × (is_encrypted_by_path P path s
          ≡ some (
            is_encrypted_by_file_header (header_buffer (slice 0 header_size file)),
            record s { world = w },
          ))
        × Same (px.view s.world) (px.view w)
  is_encrypted_by_path_lem path s {i} {file} linked found content =
      let (n, d, w1, e1, free, unused, v1) = px.open_lem path o_rdonly 0 s.world found refl refl in
      let at1 : At (px.view w1) (pos (suc n)) d i 0 file =
        rw v1 (At-opened (px.view s.world) (pos (suc n)) d i o_rdonly content refl) in
      let (w2, e2, v2) = px.read_lem (pos (suc n)) header_size w1 at1 in
      let at2 : At (px.view w2) (pos (suc n)) d i (0 + length (slice 0 header_size file)) file =
        rw v2 (At-moved (px.view w1) (pos (suc n)) _ at1) in
      let (w3, e3, v3) = px.close_lem (pos (suc n)) w2 at2.stands in
      (
        w3,
        by_path_run path s linked e1 e2 e3,
        rw (v3, v2, v1) (Same-probe (px.view s.world) (pos (suc n)) d i _ o_rdonly free unused),
      )
