-- ===== src/Linker/Session.antt =====
-- ports/linker.c: `open` with the functions that a process then calls on the descriptor.
pub mod Reopen
use tencryption.Prelude.{
  ℕ, ◌+◌, ◌<◌, ◌≤◌, ◌≡◌, ◌≢◌, refl, ap, ◌∙◌, true, false, none, some, List, [], arith, length,
}
use tencryption.Prelude.Int.{ℤ, pos}
use tencryption.Prelude.Exec.{◌>>=◌}
use tencryption.Prelude.Slices.{slice}
use tencryption.Cipher.{IsAes}
use tencryption.Header.{header_size, name_offset, file_type_rights, is_encrypted_by_file_header}
use tencryption.Detect.Name.{HasName, name_of, length-name_of}
use tencryption.Platform.{
  Platform, Process, Bytes, FilePath, FileInfo, Run, path_max, o_creat, o_excl, o_trunc, o_append,
  has, reads, writes,
}
use tencryption.Files.{At, At-equal, Posix, WritesInPlace}
use tencryption.Linker.Gate.{SeesPlain}
use tencryption.Linker.Open.{open_file}
use tencryption.Linker.Open.Encrypted.{AllOpen, IsOpened, open_encrypted_lem}
use tencryption.Linker.Open.Created.{open_new_lem}
use tencryption.Linker.Rebuild.{new_header, rebuilt-stored}
use tencryption.Linker.Transfer.{read}
use tencryption.Linker.Transfer.Roundtrip.{write_and_read, read-write}
use tencryption.Linker.Transfer.Stored.{stored}
use tencryption.Linker.Transfer.Write.{read-stored}

-- A file opened and read from where `open` leaves it.
abbrev pub open_and_read :
    (P : Platform) → (FilePath → ℕ → Run P ℕ) → FilePath → ℕ → ℕ → ℕ → Run P (ℤ × Bytes)
open_and_read P threads path flags argument count = do
  fd ← open_file P threads path flags argument
  read P fd count

-- A file opened and written, the position set back to the start, and as many bytes read.
abbrev pub open_write_read :
    (P : Platform) → (FilePath → ℕ → Run P ℕ) → FilePath → ℕ → ℕ → Bytes → Run P (ℤ × Bytes)
open_write_read P threads path flags argument buf = do
  fd ← open_file P threads path flags argument
  write_and_read P fd buf 0

-- The process sees plain text, whatever it tracks and whatever happens outside of it.
abbrev pub AlwaysSees : (P : Platform) → Process P.World → Type 0
AlwaysSees P t =
    (l : List FileInfo) (w : P.World)
    → SeesPlain P (record t { file_info_list = l; world = w })
        (record t { file_info_list = l; world = w })

module _ (P : Platform) (px : Posix P) (ok : IsAes P.aes) where
  pub opened_sees :
      {t u : Process P.World} {fd : ℤ} {path : FilePath} {flags : ℕ} {header plain : Bytes}
      → AlwaysSees P t
      → IsOpened P px ok t u fd path flags header plain
      → (w : P.World) → SeesPlain P (record u { world = w }) (record u { world = w })
  opened_sees {u = u} always o w = rw o.process_eq (always u.file_info_list w)

  -- `open` of a stored content and a first `read`, under the conditions of `open`, in a process that
  -- sees plain text throughout: the first bytes of the plain content, as many as were asked for or
  -- as there are.
  pub open_and_read-stored :
      (threads : FilePath → ℕ → Run P ℕ) (path : FilePath) (flags argument count : ℕ)
      (header plain : Bytes) (t : Process P.World) {i : ℕ}
      → AlwaysSees P t
      → P.is_support_file_type_by_path path ≢ 0
      → length path < path_max
      → reads flags ≡ true
      → has flags o_trunc ≡ false
      → has flags o_excl ≡ false
      → has flags o_append ≡ false
      → (px.view t.world).resolve path ≡ some i
      → (px.view t.world).content i ≡ stored P.aes ok header plain
      → length header ≡ header_size
      → is_encrypted_by_file_header header ≡ file_type_rights
      → AllOpen (px.view t.world) t.file_info_list
      → let out = slice 0 count plain in
        (u : Process P.World) × (open_and_read P threads path flags argument count t
          ≡ some ((pos (length out), out), u))
  open_and_read-stored threads path flags argument count header plain t always supported fits
        readable kept old in_place found content h kind open_l =
      let (fd, u, e1, o, header_eq) =
        open_encrypted_lem P px ok threads path flags argument header plain
          (always t.file_info_list t.world) supported fits readable kept old in_place found content
          h kind open_l in
      let (w, e2, v) =
        read-stored P px ok fd count 0 header plain (opened_sees always o u.world) h
          (At-equal o.stands (omega arith) refl) o.tracked in
      (record u { world = w }, rw (◌>>=◌, e1) e2)

  -- `open` of a path that does not exist, under the conditions of `open`, in a process that sees
  -- plain text throughout; then `write` of some bytes, `lseek` back to 0 and `read` of as many: the
  -- bytes come back, and the file is the stored form of them behind a header that is recognised.
  pub open_write_read-new :
      (threads : FilePath → ℕ → Run P ℕ) (path : FilePath) (flags argument : ℕ) (buf text : Bytes)
      (t : Process P.World) {pid j : ℕ}
      → AlwaysSees P t
      → P.is_support_file_type_by_path path ≢ 0
      → P.is_support_special_file_type_by_path path ≢ 1
      → length path < path_max
      → name_offset + P.process_name_max ≤ header_size
      → has flags o_creat ≡ true
      → reads flags ≡ true
      → writes flags ≡ true
      → has flags o_append ≡ false
      → (px.view t.world).resolve path ≡ none
      → HasName P px t.world pid j text
      → AllOpen (px.view t.world) t.file_info_list
      → 0 < length buf
      → let header = new_header (some (name_of P px text)) in
        (fd : ℤ) × (d : ℕ) × (i : ℕ) × (u : Process P.World) × (open_write_read P threads path flags
            argument buf t
          ≡ some ((pos (length buf), buf), u))
        × (is_encrypted_by_file_header header ≡ file_type_rights)
        × At (px.view u.world) fd d i (header_size + length buf) (stored P.aes ok header buf)
  open_write_read-new threads path flags argument buf text t always supported ordinary fits room
        creat readable writable in_place absent named open_l some_bytes =
      let (fd, u, e1, kind, o, header_eq) =
        open_new_lem P px ok threads path flags argument text (always t.file_info_list t.world)
          supported ordinary fits room creat readable writable in_place absent named open_l in
      let mode : WritesInPlace (px.view u.world) o.description =
        (ap writes o.flags_eq ∙ writable, ap (λ f. has f o_append) o.flags_eq ∙ in_place) in
      let size : length (new_header (some (name_of P px text))) ≡ header_size =
        (rebuilt-stored P.aes ok (some (name_of P px text))
          (omega (arith, room, length-name_of P px text)) []).1 in
      let (w, e2, at) =
        read-write P px ok fd buf (new_header (some (name_of P px text))) [] u
          (opened_sees always o) size (At-equal o.stands (omega arith) refl) mode o.tracked
          (ap (px.view u.world).resolve o.path_eq ∙ o.resolves) some_bytes in
      (fd, o.description, o.inode, record u { world = w }, rw (◌>>=◌, e1) e2, kind, at)
