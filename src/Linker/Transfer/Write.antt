-- ===== src/Linker/Transfer/Write.antt =====
-- `read` and `write` on a tracked descriptor of a stored content.
use tencryption.Prelude.{
  ℕ, suc, ◌+◌, ◌-◌, ◌%◌, ◌<◌, ◌≡◌, ◌≢◌, refl, sym, ap, ◌∙◌, some, ◌++◌, arith, length, take, lt→ltb,
  if◌then◌else◌, length-append,
}
use tencryption.Prelude.Int.{ℤ, pos, minus_one}
use tencryption.Prelude.Slices.{slice, write_at}
use tencryption.Prelude.Exec.{◌>>=◌, ◌>>◌}
use tencryption.Cipher.{IsAes}
use tencryption.Header.{header_size}
use tencryption.Platform.{o_rdwr, Platform, Process, Bytes, FileInfo, FilePath, Syscall, linker}
use tencryption.Files.{
  WritesInPlace, At, At-Stands, At-equal, At-moved, At-opened, At-opened_other,
  WritesInPlace-opened, At-closed, At-rewritten, Posix, moved, some-none,
}
use tencryption.Files.Same.{Keeps, Same-opened-closed}
use tencryption.FileInfos.{find_fd}
use tencryption.Linker.Gate.{AllLinked, SeesPlain, gate_transparent}
use tencryption.Linker.Transfer.{read, encrypt_write, write_encrypted, write_transparent, write}
use tencryption.Linker.Transfer.Read.{read_lem}
use tencryption.Linker.Transfer.Stored.{
  stored, slice-stored, temp_from, length-file, length-new_bytes, end-inside, written,
}

module _ (P : Platform) (px : Posix P) (ok : IsAes P.aes) where
  -- The run of `encrypt_write` from the answers of its calls.
  encrypt_write_run :
      (fd : ℤ) (buf : Bytes) (offset : ℕ) (path : FilePath) (s : Process P.World) (rfd : ℤ)
      (bytes : Bytes) (n : ℕ) (rc2 rc3 rc : ℤ) (w1 w2 w3 w4 w5 : P.World)
      → AllLinked s
      → P.sys_open path 2 0 s.world ≡ (rfd, w1)
      → P.sys_pread rfd (offset % 16) (offset - offset % 16) w1 ≡ ((pos n, bytes), w2)
      → P.sys_pwrite fd
          (take (offset % 16) (temp_from P.aes ok (offset % 16) bytes buf))
          (offset - offset % 16)
          w2
        ≡ (rc2, w3)
      → P.sys_close rfd w3 ≡ (rc3, w4)
      → P.sys_write fd
          (slice (offset % 16) (length buf) (temp_from P.aes ok (offset % 16) bytes buf))
          w4
        ≡ (rc, w5)
      → encrypt_write P fd buf offset path s ≡ some (rc, record s { world = w5 })
  unfolding encrypt_write
  encrypt_write_run fd buf offset path s rfd bytes n rc2 rc3 rc w1 w2 w3 w4 w5 linked e1 e2 e3 e4
        e5 =
      rw
        (
          ◌>>=◌,
          linker,
          linked Syscall.open_file,
          e1,
          linker,
          linked Syscall.pread,
          e2,
          linker,
          linked Syscall.pwrite,
          e3,
          ◌>>◌,
          ◌>>=◌,
          linker,
          linked Syscall.close,
          e1,
          e4,
          e2,
          linker,
          linked Syscall.write,
          e5,
        )
        refl

  -- At the end of a stored content, through the tracked path of the same file.
  encrypt_write_lem :
      (fd : ℤ) (buf header plain : Bytes) (path : FilePath) (s : Process P.World) {d i : ℕ}
      → AllLinked s
      → length header ≡ header_size
      → At (px.view s.world) fd d i (header_size + length plain) (stored P.aes ok header plain)
      → WritesInPlace (px.view s.world) d
      → (px.view s.world).resolve path ≡ some i
      → (w : P.World) × (encrypt_write P fd buf (header_size + length plain) path s
          ≡ some (pos (length buf), record s { world = w }))
        × At
            (px.view w)
            fd
            d
            i
            (header_size + length (plain ++ buf))
            (stored P.aes ok header (plain ++ buf))
        × Keeps (px.view s.world) (px.view w)
  encrypt_write_lem fd buf header plain path s {d} {i} linked h at plain_mode found =
      let offset : ℕ = header_size + length plain in
      let file : Bytes = stored P.aes ok header plain in
      let size : length file ≡ offset = length-file P.aes ok header plain h in
      let (n1, d1, w1, e1, free, unused, v1) = px.open_lem path o_rdwr 0 s.world found refl refl in
      let rfd : ℤ = pos (suc n1) in
      let ne : rfd ≢ fd =
        λ e. some-none (sym at.stands ∙ ap (px.view s.world).fds (sym e) ∙ free) in
      let at1 : At (px.view w1) fd d i offset file =
        rw v1 (At-opened_other _ fd rfd d1 i o_rdwr at free unused) in
      let rat1 : At (px.view w1) rfd d1 i 0 file =
        rw v1 (At-opened (px.view s.world) rfd d1 i o_rdwr at.content_eq refl) in
      let m1 : WritesInPlace (px.view w1) d =
        rw v1
          (WritesInPlace-opened (px.view s.world) rfd fd d1 i o_rdwr at.stands unused plain_mode) in
      let (w2, e2, v2) = px.pread_lem rfd (offset % 16) (offset - offset % 16) w1 rat1 in
      let at2 : At (px.view w2) fd d i offset file = rw v2 at1 in
      let bytes : Bytes = slice (offset - offset % 16) (offset % 16) file in
      let temp : Bytes = temp_from P.aes ok (offset % 16) bytes buf in
      let (w3, e3, v3) =
        px.pwrite_lem fd (take (offset % 16) temp) (offset - offset % 16) w2 (At-Stands at2)
          (rw v2 m1) (omega (arith, size)) in
      let file1 : Bytes = write_at (offset - offset % 16) (take (offset % 16) temp) file in
      let at3 : At (px.view w3) fd d i offset file1 = rw v3 (At-rewritten _ fd _ at2) in
      let m3 : WritesInPlace (px.view w3) d = rw (v3, v2) m1 in
      let rstands : (px.view w3).fds rfd ≡ some d1 = rw (v3, v2) rat1.stands in
      let (w4, e4, v4) = px.close_lem rfd w3 rstands in
      let at4 : At (px.view w4) fd d i offset file1 = rw v4 (At-closed _ fd rfd at3 ne) in
      let m4 : WritesInPlace (px.view w4) d = rw v4 m3 in
      let (w5, e5, v5) =
        px.write_lem fd (slice (offset % 16) (length buf) temp) w4 at4 m4
          (end-inside P.aes ok header plain buf h) in
      let at5 : At (px.view w5) fd d i (offset + length (slice (offset % 16) (length buf) temp))
          (write_at offset (slice (offset % 16) (length buf) temp) file1) =
        rw v5 (At-moved _ fd _ (At-rewritten _ fd _ at4)) in
      (
        w5,
        encrypt_write_run fd buf offset path s rfd bytes _ _ _ _ w1 w2 w3 w4 w5 linked e1 e2 e3 e4
              e5
            ∙ ap (λ n. some (pos n, record s { world = w5 }))
                (length-new_bytes P.aes ok header plain buf h),
        At-equal at5
            (omega (arith, length-new_bytes P.aes ok header plain buf h, length-append plain buf))
            (written P.aes ok header plain buf h),
        rw (v5, v4, v3, v2, v1)
            (record {
              fds_eq = (Same-opened-closed (px.view s.world) rfd d1 i o_rdwr free unused).fds_eq;
              resolve_eq = refl;
            }),
      )

  -- The tests of `write` on a tracked descriptor lead there.
  write_encrypted_lem :
      (fd : ℤ) (buf header plain : Bytes) (s : Process P.World) {d i : ℕ} {info : FileInfo}
      → AllLinked s
      → length header ≡ header_size
      → At (px.view s.world) fd d i (header_size + length plain) (stored P.aes ok header plain)
      → WritesInPlace (px.view s.world) d
      → find_fd fd s.file_info_list ≡ some info
      → (px.view s.world).resolve info.file_path ≡ some i
      → (w : P.World) × (write_encrypted P fd buf s
          ≡ some (pos (length buf), record s { world = w }))
        × At
            (px.view w)
            fd
            d
            i
            (header_size + length (plain ++ buf))
            (stored P.aes ok header (plain ++ buf))
        × Keeps (px.view s.world) (px.view w)
  unfolding write_encrypted
  write_encrypted_lem fd buf header plain s {d} {i} {info} linked h at mode listed found =
      let offset : ℕ = header_size + length plain in
      let (w1, e1, v1) = px.tell_lem fd s.world at in
      let (w2, e2, v2) = px.calloc_lem (length buf + offset % 16) w1 in
      let v21 : px.view w2 ≡ px.view s.world = v2 ∙ v1 in
      let at2 : At (px.view w2) fd d i offset (stored P.aes ok header plain) = rw (v2, v1) at in
      let (w, e, at', keeps) =
        encrypt_write_lem fd buf header plain info.file_path (record s { world = w2 }) linked h at2
          (rw (v2, v1) mode) (rw (v2, v1) found) in
      (w, rw (◌>>=◌, linked Syscall.lseek, e1, e2, listed) e, at', rw (sym v21) keeps)

  -- `write` at the end of a stored content, with what it leaves alone.
  pub write-Keeps :
      (fd : ℤ) (buf header plain : Bytes) {s t : Process P.World} {d i : ℕ} {info : FileInfo}
      → SeesPlain P s t
      → length header ≡ header_size
      → At (px.view t.world) fd d i (header_size + length plain) (stored P.aes ok header plain)
      → WritesInPlace (px.view t.world) d
      → find_fd fd t.file_info_list ≡ some info
      → (px.view t.world).resolve info.file_path ≡ some i
      → 0 < length buf
      → (w : P.World) × (write P fd buf s ≡ some (pos (length buf), record t { world = w }))
        × At
            (px.view w)
            fd
            d
            i
            (header_size + length (plain ++ buf))
            (stored P.aes ok header (plain ++ buf))
        × Keeps (px.view t.world) (px.view w)
  unfolding write write_transparent
  write-Keeps fd buf header plain {s} {t} sees h at mode listed found some_bytes =
      let raw = linker P Syscall.write (P.sys_write fd buf) in
      let (w, e, at', keeps) =
        write_encrypted_lem fd buf header plain t sees.linked h at mode listed found in
      (
        w,
        gate_transparent P Syscall.write minus_one raw (write_transparent P fd buf) sees
            ∙ ap (λ b. (if b then write_encrypted P fd buf else raw) t)
                (lt→ltb 0 (length buf) some_bytes)
            ∙ e,
        at',
        keeps,
      )

  -- `write` of some bytes, in a process that sees plain text, on a tracked descriptor that stands
  -- at the end of a stored content and is open for reading and writing, not in append mode, where
  -- the tracked path is the file's: it returns the count, the file is then the stored form of the content with the bytes
  -- behind it, and the position is at its end.
  pub write_appends :
      (fd : ℤ) (buf header plain : Bytes) {s t : Process P.World} {d i : ℕ} {info : FileInfo}
      → SeesPlain P s t
      → length header ≡ header_size
      → At (px.view t.world) fd d i (header_size + length plain) (stored P.aes ok header plain)
      → WritesInPlace (px.view t.world) d
      → find_fd fd t.file_info_list ≡ some info
      → (px.view t.world).resolve info.file_path ≡ some i
      → 0 < length buf
      → (w : P.World) × (write P fd buf s ≡ some (pos (length buf), record t { world = w }))
        × At
            (px.view w)
            fd
            d
            i
            (header_size + length (plain ++ buf))
            (stored P.aes ok header (plain ++ buf))
  write_appends fd buf header plain sees h at mode listed found some_bytes =
      let (w, e, at', keeps) =
        write-Keeps fd buf header plain sees h at mode listed found some_bytes in
      (w, e, at')

  -- `read` of a stored content, in a process that sees plain text, on a tracked descriptor behind
  -- the header: it returns the plain content from the position on, `count` bytes of it or as many
  -- as there are, and moves the position by as many.
  pub read-stored :
      (fd : ℤ) (count k : ℕ) (header plain : Bytes) {s t : Process P.World} {d i : ℕ}
      {info : FileInfo}
      → SeesPlain P s t
      → length header ≡ header_size
      → At (px.view t.world) fd d i (header_size + k) (stored P.aes ok header plain)
      → find_fd fd t.file_info_list ≡ some info
      → let out = slice k count plain in
        (w : P.World) × (read P fd count s ≡ some ((pos (length out), out), record t { world = w }))
        × (px.view w ≡ moved d (header_size + k + length out) (px.view t.world))
  read-stored fd count k header plain {s} {t} {d} sees h at listed =
      let (w, e, v) = read_lem P px ok fd count (header_size + k) sees at listed (omega arith) in
      let same = slice-stored P.aes ok header plain k count h in
      (
        w,
        e ∙ ap (λ l. some ((pos (length l), l), record t { world = w })) same,
        v ∙ ap (λ l. moved d (header_size + k + length l) (px.view t.world)) same,
      )
