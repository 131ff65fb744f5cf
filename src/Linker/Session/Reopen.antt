-- ===== src/Linker/Session/Reopen.antt =====
-- ports/linker.c: a file that a process makes, writes and closes, and what it then finds there.
use tencryption.Prelude.{
  ℕ, ◌+◌, ◌<◌, ◌≤◌, ◌≡◌, ◌≢◌, refl, sym, ap, ◌∙◌, true, false, none, some, [], arith, length,
}
use tencryption.Prelude.Int.{ℤ, pos}
use tencryption.Prelude.Slices.{slice}
use tencryption.Prelude.Exec.{◌>>=◌, ◌>>◌}
use tencryption.Cipher.{IsAes}
use tencryption.Header.{header_size, name_offset}
use tencryption.Platform.{
  Platform, Process, Bytes, FilePath, Run, path_max, o_creat, o_excl, o_trunc, o_append, has, reads,
  writes,
}
use tencryption.Files.{WritesInPlace, At-equal, Posix}
use tencryption.FileInfos.{erase_fd}
use tencryption.FileInfos.Laws.{NodupFds, erase_fd-NodupFds}
use tencryption.Detect.Name.{HasName, name_of, length-name_of}
use tencryption.Linker.Gate.{SeesPlain}
use tencryption.Linker.Descriptors.{close}
use tencryption.Linker.Open.{open_file}
use tencryption.Linker.Open.Created.{open_new_lem}
use tencryption.Linker.Open.Encrypted.{AllOpen, IsOpened}
use tencryption.Linker.Rebuild.{new_header, rebuilt-stored}
use tencryption.Linker.Session.{open_and_read, open_and_read-stored, AlwaysSees, opened_sees}
use tencryption.Linker.Tracked.{close_tracked, AllOpen-closed}
use tencryption.Linker.Transfer.{write}
use tencryption.Linker.Transfer.Stored.{stored}
use tencryption.Linker.Transfer.Write.{write-Keeps}

-- A file opened, written and closed.
abbrev pub open_write_close :
    (P : Platform) → (FilePath → ℕ → Run P ℕ) → FilePath → ℕ → ℕ → Bytes → Run P ℤ
open_write_close P threads path flags argument buf = do
  fd ← open_file P threads path flags argument
  write P fd buf
  close P fd

-- The same, and then opened again and read.
abbrev pub write_and_reopen :
    (P : Platform) → (FilePath → ℕ → Run P ℕ) → FilePath → ℕ → ℕ → Bytes → ℕ → ℕ → Run P (ℤ × Bytes)
write_and_reopen P threads path flags argument buf again count = do
  open_write_close P threads path flags argument buf
  open_and_read P threads path again 0 count

module _ (P : Platform) (px : Posix P) (ok : IsAes P.aes) where
  -- What is left when a file is written and closed after `open`: the stored form of the content
  -- with the bytes, under its path.
  record IsStored (t u : Process P.World) (path : FilePath) (header plain : Bytes) : Type 0 where
    inode : ℕ
    process_eq : u ≡ record t { file_info_list = u.file_info_list; world = u.world }
    resolves : (px.view u.world).resolve path ≡ some inode
    content_eq : (px.view u.world).content inode ≡ stored P.aes ok header plain
    all_open : AllOpen (px.view u.world) u.file_info_list
    nodup : NodupFds u.file_info_list

  write_and_close :
      (fd : ℤ) (path : FilePath) (flags : ℕ) (buf header : Bytes) {t u : Process P.World}
      → AlwaysSees P t
      → IsOpened P px ok t u fd path flags header []
      → length header ≡ header_size
      → writes flags ≡ true
      → has flags o_append ≡ false
      → NodupFds t.file_info_list
      → 0 < length buf
      → (v : Process P.World) × ((write P fd buf >> close P fd) u ≡ some (pos 0, v))
        × IsStored t v path header buf
  write_and_close fd path flags buf header {t} {u} always o size writable in_place once some_bytes =
      let mode : WritesInPlace (px.view u.world) o.description =
        (ap writes o.flags_eq ∙ writable, ap (λ f. has f o_append) o.flags_eq ∙ in_place) in
      let sees : (w : P.World) → SeesPlain P (record u { world = w }) (record u { world = w }) =
        opened_sees P px ok always o in
      let (w1, e1, at1, keeps) =
        write-Keeps P px ok fd buf header [] (sees u.world) size
          (At-equal o.stands (omega arith) refl) mode o.tracked
          (ap (px.view u.world).resolve o.path_eq ∙ o.resolves) some_bytes in
      let (w2, e2, v2) = close_tracked P px fd (sees w1) at1 o.tracked in
      (
        record u { world = w2; file_info_list = erase_fd fd u.file_info_list },
        rw (◌>>◌, ◌>>=◌, e1) e2,
        record {
          inode = o.inode;
          process_eq =
              ap {A = Process P.World}
                (λ p. record p { world = w2; file_info_list = erase_fd fd u.file_info_list })
                o.process_eq;
          resolves = rw v2 (ap (λ f. f path) keeps.resolve_eq ∙ o.resolves);
          content_eq = rw v2 at1.content_eq;
          all_open = rw v2 (
              AllOpen-closed P px (px.view w1) fd o.description 0 u.file_info_list (o.nodup once)
                (λ g z. o.all_open g (sym (keeps.fds_eq g) ∙ z)));
          nodup = erase_fd-NodupFds fd u.file_info_list (o.nodup once);
        },
      )

  -- A path that does not exist is opened, under the conditions of `open`, in a process that sees
  -- plain text throughout and tracks no descriptor twice; some bytes are written and the descriptor
  -- closed; then the path is opened again, with flags for reading that keep the content, and read:
  -- the first of the bytes come back, as many as were asked for or as there are.
  pub write_and_reopen_lem :
      (threads : FilePath → ℕ → Run P ℕ) (path : FilePath) (flags argument : ℕ) (buf : Bytes)
      (again count : ℕ) (text : Bytes) (t : Process P.World) {pid j : ℕ}
      → AlwaysSees P t
      → P.is_support_file_type_by_path path ≢ 0
      → P.is_support_special_file_type_by_path path ≢ 1
      → length path < path_max
      → name_offset + P.process_name_max ≤ header_size
      → has flags o_creat ≡ true
      → reads flags ≡ true
      → writes flags ≡ true
      → has flags o_append ≡ false
      → (px.view t.world).resolve path ≡ none
      → HasName P px t.world pid j text
      → AllOpen (px.view t.world) t.file_info_list
      → NodupFds t.file_info_list
      → 0 < length buf
      → reads again ≡ true
      → has again o_trunc ≡ false
      → has again o_excl ≡ false
      → has again o_append ≡ false
      → let out = slice 0 count buf in
        (u : Process P.World) × (write_and_reopen P threads path flags argument buf again count t
          ≡ some ((pos (length out), out), u))
  write_and_reopen_lem threads path flags argument buf again count text t always supported ordinary
        fits room creat readable writable in_place absent named open_l once some_bytes readable'
        kept old in_place' =
      let (fd, u, e1, kind, o, header_eq) =
        open_new_lem P px ok threads path flags argument text (always t.file_info_list t.world)
          supported ordinary fits room creat readable writable in_place absent named open_l in
      let size : length (new_header (some (name_of P px text))) ≡ header_size =
        (rebuilt-stored P.aes ok (some (name_of P px text))
          (omega (arith, room, length-name_of P px text)) []).1 in
      let (v, e2, o2) =
        write_and_close fd path flags buf (new_header (some (name_of P px text))) always o size
          writable in_place once some_bytes in
      let (u3, e3) =
        open_and_read-stored P px ok threads path again 0 count
          (new_header (some (name_of P px text))) buf v (λ l w. rw o2.process_eq (always l w))
          supported fits readable' kept old in_place' o2.resolves o2.content_eq size kind
          o2.all_open in
      (u3, rw (◌>>=◌, ◌>>◌, e1, e2) e3)
