-- ===== src/Linker/Open/Plain.antt =====
-- `open` of a small file that is not encrypted yet: it is rebuilt and opened again.
use tencryption.Prelude.{
  ℕ, suc, ◌+◌, ◌*◌, ◌≤◌, ◌<◌, ◌≡◌, ◌≢◌, refl, true, false, sym, ap, ◌∙◌, Option, none, some, [],
  ◌∷◌, ◌++◌, arith, length, leb, le→leb, if◌then◌else◌,
}
use tencryption.Prelude.Int.{ℤ, pos}
use tencryption.Prelude.Text.{codes}
use tencryption.Cipher.{IsAes}
use tencryption.Header.{header_size, name_offset, file_type_rights, is_encrypted_by_file_header}
use tencryption.Detect.Name.{HasName, HasName-Same, name_of, length-name_of}
use tencryption.Platform.{
  Platform, Process, Bytes, FilePath, Run, path_max, o_creat, o_excl, o_trunc, has, reads,
}
use tencryption.Files.{Posix, is_some, rewritten}
use tencryption.Files.Same.{Same, Same-trans, Same-rewritten}
use tencryption.FileInfos.{new_info}
use tencryption.Linker.Gate.{AllLinked, SeesPlain}
use tencryption.Linker.Open.{open_file}
use tencryption.Linker.Open.Probe.{IsPlain, header_found-none, probe_header_lem}
use tencryption.Linker.Open.Encrypted.{AllOpen, IsOpened, open_gate}
use tencryption.Linker.Open.Rebuilt.{
  Measured, closed-Measured, plain_gate, reopened, rewritten_self,
}
use tencryption.Linker.Rebuild.{new_header, rebuilt-stored}
use tencryption.Linker.Rebuild.File.{threads_count, rebuild_small, rebuild_file_struct}
use tencryption.Linker.Rebuild.File.Small.{rebuild_small_lem}
use tencryption.Linker.Transfer.Stored.{stored}

le→leb_zero : (n : ℕ) → 0 < n → leb n 0 ≡ false
le→leb_zero n h = ground arith

module _ (P : Platform) (threads : FilePath → ℕ → Run P ℕ) where
  rebuild_file_struct_small :
      (path : FilePath) (size : ℕ) (s : Process P.World)
      → path ≢ []
      → 0 < size
      → size ≤ 4096 * threads_count
      → rebuild_file_struct P threads path (pos size) s ≡ rebuild_small P path size s
  unfolding rebuild_file_struct
  rebuild_file_struct_small [] size s ne low high = absurd (ne refl)
  rebuild_file_struct_small (c ∷ path) size s ne low high =
      rw (le→leb_zero size low, le→leb size (4096 * threads_count) high) refl

module _ (P : Platform) (px : Posix P) (ok : IsAes P.aes) where
  -- The file closed and rebuilt.
  rebuilt_small :
      (threads : FilePath → ℕ → Run P ℕ) (path : FilePath) (plain text : Bytes)
      (t : Process P.World) {fd : ℤ} {w : P.World} {i pid j : ℕ}
      → AllLinked t
      → path ≢ []
      → name_offset + P.process_name_max ≤ header_size
      → (px.view t.world).resolve path ≡ some i
      → (px.view t.world).content i ≡ plain
      → 0 < length plain
      → length plain ≤ 4096 * threads_count
      → HasName P px t.world pid j text
      → (m : Measured P px fd path plain t w)
      → (w6 : P.World) × (rebuild_file_struct P threads path
            (pos (length plain))
            (record t { world = m.start })
          ≡ some (1, record t { world = w6 }))
        × Same
            (rewritten i
              (stored P.aes ok (new_header (some (name_of P px text))) plain)
              (px.view t.world))
            (px.view w6)
  rebuilt_small threads path plain text t {i = i} linked ne room found content low high named m =
      let (w6, e6, same6) =
        rebuild_small_lem P px ok path plain text (record t { world = m.start }) linked room
          (ap (λ f. f path) m.same.resolve_eq ∙ found) (ap (λ f. f i) m.same.content_eq ∙ content)
          (HasName-Same P px m.same named) in
      (
        w6,
        rebuild_file_struct_small P threads path (length plain) (record t { world = m.start }) ne
              low high
            ∙ e6,
        Same-trans
            (Same-rewritten i (stored P.aes ok (new_header (some (name_of P px text))) plain)
              m.same)
            same6,
      )

  -- `open` of a file that is not encrypted yet, of 1 to 16384 bytes, in a process that sees plain
  -- text and has a command line that fits the header, for a supported path that leaves room for
  -- ".s", where no file of that longer path exists, with flags for reading that keep the content,
  -- where every tracked descriptor is open: the file is rebuilt to the stored form of its content
  -- behind a header that is recognised and names the process, and the promise of `open` holds of
  -- the descriptor returned.
  pub open_plain_lem :
      (threads : FilePath → ℕ → Run P ℕ) (path : FilePath) (flags argument : ℕ) (plain text : Bytes)
      {s t : Process P.World} {i pid j : ℕ}
      → SeesPlain P s t
      → P.is_support_file_type_by_path path ≢ 0
      → path ≢ []
      → length path + 3 ≤ path_max
      → name_offset + P.process_name_max ≤ header_size
      → reads flags ≡ true
      → has flags o_trunc ≡ false
      → has flags o_excl ≡ false
      → (px.view t.world).resolve path ≡ some i
      → (px.view t.world).content i ≡ plain
      → (px.view t.world).resolve (path ++ codes ".s") ≡ none
      → 0 < length plain
      → length plain ≤ 4096 * threads_count
      → IsPlain plain
      → HasName P px t.world pid j text
      → AllOpen (px.view t.world) t.file_info_list
      → let header = new_header (some (name_of P px text)) in
        (fd : ℤ) × (u : Process P.World) × (open_file P threads path flags argument s
          ≡ some (fd, u))
        × (is_encrypted_by_file_header header ≡ file_type_rights)
        × IsOpened P px ok t u fd path flags header plain
  unfolding is_some
  open_plain_lem threads path flags argument plain text {t = t} {i = i} sees supported ne fits room
        readable kept old found content absent low high is_plain named open_l =
      let mode : ℕ = if has flags o_creat then argument else 0 in
      let name : Option Bytes = some (name_of P px text) in
      let short : name_offset + length (name_of P px text) ≤ header_size =
        omega (arith, room, length-name_of P px text) in
      let file : Bytes = stored P.aes ok (new_header name) plain in
      let (w1, e1, same1) = probe_header_lem P px path t sees.linked found content in
      let (n, d, w2, e2, free, unused, v2) =
        px.open_lem path flags mode w1 (ap (λ f. f path) same1.resolve_eq ∙ found) kept old in
      let m : Measured P px (pos (suc n)) path plain t w2 =
        closed-Measured P px path plain t (px.view w1) flags n sees.linked fits v2 free unused same1
          found content absent in
      let (w6, e6, same) =
        rebuilt_small threads path plain text t sees.linked ne room found content low high named
          m in
      let (n', w7, w8, w9, e7, e8, e9, result) =
        reopened P px ok path flags mode (new_header name) plain t w6 sees.linked readable kept old
          (ap (λ f. f path) same.resolve_eq ∙ found)
          (ap (λ f. f i) same.content_eq ∙ rewritten_self (px.view t.world) i file)
          (λ g z. open_l g (sym (same.fds_eq g) ∙ z)) in
      (
        pos (suc n'),
        record t {
          file_info_list = t.file_info_list ++ new_info (pos (suc n')) path ∷ [];
          world = w9;
        },
        open_gate P px ok threads path flags argument sees supported
            ∙ plain_gate P threads path flags mode n t sees.linked
                (px.access_lem path t.world ∙ ap is_some found)
                (e1
                  ∙ ap (λ o. some (o, record t { world = w1 })) (header_found-none plain is_plain))
                e2 (m.run threads flags mode n' w6 w7 w8 w9 (pos header_size) e6 e7 e8 e9),
        (rebuilt-stored P.aes ok name short plain).2,
        result,
      )
