-- ===== src/Linker/Transfer/Roundtrip.antt =====
-- `write`, `lseek` and `read` one after another.
use tencryption.Prelude.{
  ℕ, ◌+◌, ◌≡◌, ◌<◌, refl, ap, ◌∙◌, some, ◌++◌, arith, length, length-append, take,
}
use tencryption.Prelude.Int.{ℤ, pos}
use tencryption.Prelude.Exec.{◌>>=◌}
use tencryption.Prelude.Slices.{slice, take-all, drop-append}
use tencryption.Cipher.{IsAes}
use tencryption.Header.{header_size}
use tencryption.Platform.{Platform, Process, Bytes, FileInfo, Run, seek_set}
use tencryption.Files.{WritesInPlace, At, At-equal, At-moved, Posix}
use tencryption.FileInfos.{find_fd}
use tencryption.Linker.Gate.{SeesPlain}
use tencryption.Linker.Positions.{lseek}
use tencryption.Linker.Tracked.{lseek_set}
use tencryption.Linker.Transfer.{read, write}
use tencryption.Linker.Transfer.Stored.{stored}
use tencryption.Linker.Transfer.Write.{write_appends, read-stored}

-- The bytes written, the position set back by as many, and as many read.
abbrev pub write_and_read : (P : Platform) → ℤ → Bytes → ℕ → Run P (ℤ × Bytes)
write_and_read P fd buf k = do
  count ← write P fd buf
  position ← lseek P fd (pos k) seek_set
  read P fd (length buf)

slice-appended : (plain buf : Bytes) → slice (length plain) (length buf) (plain ++ buf) ≡ buf
slice-appended plain buf =
    ap (take (length buf)) (drop-append plain buf) ∙ take-all (length buf) buf (omega arith)

module _ (P : Platform) (px : Posix P) (ok : IsAes P.aes) where
  -- In a process that sees plain text throughout, on a tracked descriptor that stands at the end
  -- of a stored content and is open for reading and writing, not in append mode, where the tracked
  -- path is the file's: `write`
  -- of some bytes, `lseek` with `SEEK_SET` to where the content ended, and `read` of as many bytes
  -- give back the bytes, and leave the stored form of the content with them behind it.
  pub read-write :
      (fd : ℤ) (buf header plain : Bytes) (s : Process P.World) {d i : ℕ} {info : FileInfo}
      → ((w : P.World) → SeesPlain P (record s { world = w }) (record s { world = w }))
      → length header ≡ header_size
      → At (px.view s.world) fd d i (header_size + length plain) (stored P.aes ok header plain)
      → WritesInPlace (px.view s.world) d
      → find_fd fd s.file_info_list ≡ some info
      → (px.view s.world).resolve info.file_path ≡ some i
      → 0 < length buf
      → (w : P.World) × (write_and_read P fd buf (length plain) s
          ≡ some ((pos (length buf), buf), record s { world = w }))
        × At
            (px.view w)
            fd
            d
            i
            (header_size + length (plain ++ buf))
            (stored P.aes ok header (plain ++ buf))
  read-write fd buf header plain s {d} {i} always h at mode listed found some_bytes =
      let (w1, e1, at1) =
        write_appends P px ok fd buf header plain (always s.world) h at mode listed found
          some_bytes in
      let file : Bytes = stored P.aes ok header (plain ++ buf) in
      let (w2, e2, v2) = lseek_set P px fd (length plain) (always w1) at1 listed in
      let moved2 : At (px.view w2) fd d i (length plain + header_size) file =
        rw v2 (At-moved (px.view w1) fd (length plain + header_size) at1) in
      let at2 : At (px.view w2) fd d i (header_size + length plain) file =
        At-equal moved2 (omega arith) refl in
      let (w3, e3, v3) =
        read-stored P px ok fd (length buf) (length plain) header (plain ++ buf) (always w2) h at2
          listed in
      let same = slice-appended plain buf in
      let moved3 : At (px.view w3) fd d i
          (header_size + length plain + length (slice (length plain) (length buf) (plain ++ buf)))
          file =
        rw v3 (At-moved (px.view w2) fd _ at2) in
      (
        w3,
        rw (◌>>=◌, e1, e2, e3) (ap (λ l. some ((pos (length l), l), record s { world = w3 })) same),
        At-equal moved3
            (ap (λ l. header_size + length plain + length l) same
              ∙ omega (arith, length-append plain buf))
            refl,
      )
