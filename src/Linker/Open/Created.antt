-- ===== src/Linker/Open/Created.antt =====
-- `open` of a file that did not exist.
use tencryption.Prelude.{
  ℕ, suc, ◌+◌, ◌≤◌, ◌<◌, ◌≡◌, ◌≢◌, inl, inr, refl, true, false, sym, ap, ◌∙◌, none, some, [], ◌∷◌,
  ◌++◌, arith, length, lt→leb, ne→==, if◌then◌else◌, Bool-cases, replicate, length-replicate,
}
use tencryption.Prelude.Int.{ℤ, pos, is_pos}
use tencryption.Prelude.Slices.{write_at, drop-all}
use tencryption.Prelude.Exec.{pure, ◌>>=◌, ◌>>◌}
use tencryption.Cipher.{IsAes}
use tencryption.Header
use tencryption.Header.{
  header_size, name_offset, header_writes, file_type_rights, is_encrypted_by_file_header,
}
use tencryption.Header.Equality.{bytes_eq, bytes_eq_refl, bytes_eq_sound}
use tencryption.Header.Roundtrip.{length-header_writes, is_encrypted-file_header_init}
use tencryption.Detect.{cmdline_path, file_header_init}
use tencryption.Detect.Laws.{is_pos-suc}
use tencryption.Detect.Name.{
  HasCommandLine, HasName, HasName-moved, name_of, length-name_of, file_header_init_lem,
}
use tencryption.Platform.{
  Platform, Process, Bytes, FilePath, FileInfo, Run, Syscall, linker, path_max, o_creat, o_append,
  has, reads, writes,
}
use tencryption.Files.{
  some-none, Fs, At, At-opened, At-moved, At-equal, At-rewritten, Posix, is_some, opened, created,
  rewritten,
}
use tencryption.Files.Same.{At-Same}
use tencryption.FileInfos.{find_fd, new_info, sizeof_file_info}
use tencryption.FileInfos.Laws.{
  append-NodupFds, set_header-append, find_fd-append_self, find_fd-append_ne,
}
use tencryption.Linker.Gate.{AllLinked, SeesPlain}
use tencryption.Linker.Open.{open_found, open_new, open_supported, open_file}
use tencryption.Linker.Open.Encrypted.{
  AllOpen, AllOpen-opened, IsOpened, flags-opened, flags-moved, open_gate,
}
use tencryption.Linker.Rebuild.{new_header}
use tencryption.Cipher.Blocks.{on_blocks}
use tencryption.Linker.Transfer.Padding.{write-behind}
use tencryption.Linker.Transfer.Stored.{stored}

-- A path that did not exist is not one that did.
pub created_other :
    (fs : Fs) (path other : FilePath) (i : ℕ) {j : ℕ}
    → fs.resolve path ≡ none
    → fs.resolve other ≡ some j
    → (created path i fs).resolve other ≡ some j
created_other fs path other i absent found = elim (Bool-cases (bytes_eq other path)) [
  | inl e ↦ absurd (some-none (sym found ∙ ap fs.resolve (bytes_eq_sound other path e) ∙ absent))
  | inr e ↦ ap (λ b. if b then some i else fs.resolve other) e ∙ found
]

pub created_content :
    (fs : Fs) (path : FilePath) {i j : ℕ} → i ≢ j → (created path i fs).content j ≡ fs.content j
created_content fs path {i} {j} ne = rw (ne→== i j ne) refl

pub created_resolves :
    (fs : Fs) (path : FilePath) (i : ℕ) → (created path i fs).resolve path ≡ some i
created_resolves fs path i = rw (bytes_eq_refl path) refl

pub created_empty : (fs : Fs) (path : FilePath) (i : ℕ) → (created path i fs).content i ≡ []
created_empty fs path i = ground arith

module _ (P : Platform) (px : Posix P) where
  HasName-created :
      {w w' : P.World} {pid j i : ℕ} {text : Bytes} (fd : ℤ) (d flags : ℕ) (path : FilePath)
      → (px.view w).resolve path ≡ none
      → ((p : FilePath) → (px.view w).resolve p ≢ some i)
      → px.view w' ≡ opened fd d i flags (created path i (px.view w))
      → HasName P px w pid j text
      → HasName P px w' pid j text
  HasName-created {w} {pid = pid} {j = j} {i = i} fd d flags path absent new v named =
      let line : HasCommandLine P px w pid j _ = named.command_line in
      HasName-moved P px
        (rw v (created_other (px.view w) path (cmdline_path pid) i absent line.resolves))
        (rw v (
          created_content (px.view w) path
            (λ e. new (cmdline_path pid) (line.resolves ∙ ap some (sym e)))
          ∙ line.content_eq))
        named

  created_run :
      (fd : ℤ) (path : FilePath) (kind : ℕ) (header : Bytes) (s : Process P.World)
      {w1 w2 w3 : P.World}
      → AllLinked s
      → length path < path_max
      → P.is_support_special_file_type_by_path path ≢ 1
      → P.calloc sizeof_file_info s.world ≡ (true, w1)
      → (let l = s.file_info_list ++ new_info fd path ∷ [] in
          file_header_init P (replicate header_size 0) (record s { file_info_list = l; world = w1 })
          ≡ some ((kind, header), record s { file_info_list = l; world = w2 }))
      → P.sys_write fd header w2 ≡ (pos header_size, w3)
      → open_new P fd path s
        ≡ some (
          fd,
          record s {
            file_info_list = s.file_info_list ++ record (new_info fd path) { header = header } ∷ [];
            world = w3;
          },
        )
  unfolding open_new
  created_run fd path kind header s linked fits ordinary e1 e2 e3 =
      rw
        (
          ne→== (P.is_support_special_file_type_by_path path) 1 ordinary,
          ◌>>=◌,
          e1,
          lt→leb path_max (length path) fits,
          ◌>>=◌,
          e2,
          ◌>>◌,
          ◌>>=◌,
          set_header-append header (new_info fd path) s.file_info_list,
          linker,
          linked Syscall.write,
          e3,
        )
        refl

module _ (P : Platform) (px : Posix P) (ok : IsAes P.aes) where
  stored-empty : (header : Bytes) → write_at 0 header [] ≡ stored P.aes ok header []
  unfolding on_blocks
  stored-empty header =
      write-behind [] header [] 0 refl
      ∙ ap (λ l. header ++ l) (drop-all (length header) [] (omega arith))

  created_gate :
      (threads : FilePath → ℕ → Run P ℕ) (path : FilePath) (flags mode n : ℕ)
      (t u : Process P.World) {w1 : P.World}
      → AllLinked t
      → P.accessible path t.world ≡ false
      → P.sys_open path flags mode t.world ≡ (pos (suc n), w1)
      → open_new P (pos (suc n)) path (record t { world = w1 }) ≡ some (pos (suc n), u)
      → open_supported P threads path flags mode t ≡ some (pos (suc n), u)
  unfolding open_supported open_found
  created_gate threads path flags mode n t u linked absent e1 e2 =
      rw (absent, ◌>>=◌, linker, linked Syscall.open_file, absent)
        (ap
            (λ r.
              (if is_pos r.0 then open_found P threads r.0 path flags mode false none else pure r.0)
                (record t { world = r.1 }))
            e1
          ∙ rw (is_pos-suc n) e2)

  -- `open` of a supported path that does not exist and fits its array, with `O_CREAT` and flags for
  -- reading and writing that do not append, in a process that sees plain text, has a command line
  -- that fits the header, and has every tracked descriptor open: the file is made with a header
  -- that is recognised and names the process, the promise of `open` holds of the descriptor with an
  -- empty content, and the header is kept with it.
  pub open_new_lem :
      (threads : FilePath → ℕ → Run P ℕ) (path : FilePath) (flags argument : ℕ) (text : Bytes)
      {s t : Process P.World} {pid j : ℕ}
      → SeesPlain P s t
      → P.is_support_file_type_by_path path ≢ 0
      → P.is_support_special_file_type_by_path path ≢ 1
      → length path < path_max
      → name_offset + P.process_name_max ≤ header_size
      → has flags o_creat ≡ true
      → reads flags ≡ true
      → writes flags ≡ true
      → has flags o_append ≡ false
      → (px.view t.world).resolve path ≡ none
      → HasName P px t.world pid j text
      → AllOpen (px.view t.world) t.file_info_list
      → let header = new_header (some (name_of P px text)) in
        (fd : ℤ) × (u : Process P.World) × (open_file P threads path flags argument s
          ≡ some (fd, u))
        × (is_encrypted_by_file_header header ≡ file_type_rights)
        × (o : IsOpened P px ok t u fd path flags header []) × (o.info.header ≡ header)
  unfolding is_some Header.file_header_init
  open_new_lem threads path flags argument text {s} {t} sees supported ordinary fits room creat
        readable writable in_place absent named open_l =
      let mode : ℕ = if has flags o_creat then argument else 0 in
      let zeros : Bytes = replicate header_size 0 in
      let header : Bytes = new_header (some (name_of P px text)) in
      let short : name_offset + length (name_of P px text) ≤ header_size =
        omega (arith, room, length-name_of P px text) in
      let z : length zeros ≡ header_size = length-replicate header_size 0 in
      let size : length header ≡ header_size =
        length-header_writes (some (name_of P px text)) zeros z short in
      let (n, d, i, w1, e1, free, unused, new, v1) =
        px.create_lem path flags mode t.world absent creat in
      let fd : ℤ = pos (suc n) in
      let fs : Fs = created path i (px.view t.world) in
      let at1 : At (px.view w1) fd d i 0 [] =
        rw v1 (At-opened fs fd d i flags (created_empty (px.view t.world) path i) readable) in
      let (w2, e2, v2) = px.calloc_lem sizeof_file_info w1 in
      let at2 : At (px.view w2) fd d i 0 [] = rw v2 at1 in
      let s2 : Process P.World = record t {
        file_info_list = t.file_info_list ++ new_info fd path ∷ [];
        world = w2;
      } in
      let v21 : px.view w2 ≡ opened fd d i flags fs = v2 ∙ v1 in
      let (w3, e3, same) =
        file_header_init_lem P px zeros s2 sees.linked
          (HasName-created P px fd d flags path absent new v21 named) in
      let at3 : At (px.view w3) fd d i 0 [] = At-Same same at2 in
      let flags3 : ((px.view w3).descriptions d).flags ≡ flags =
        ap (λ x. x.flags) (same.description_eq fd at2.stands)
        ∙ rw v21 (flags-opened fs fd d i flags) in
      let (w4, e4, v4) =
        px.write_lem fd header w3 at3
          (ap writes flags3 ∙ writable, ap (λ f. has f o_append) flags3 ∙ in_place) (omega arith) in
      let x : FileInfo = record (new_info fd path) { header = header } in
      let u : Process P.World = record t {
        file_info_list = t.file_info_list ++ x ∷ [];
        world = w4;
      } in
      let fresh : find_fd fd t.file_info_list ≡ none = open_l fd free in
      (
        fd,
        u,
        open_gate P px ok threads path flags argument sees supported
            ∙ created_gate threads path flags mode n t u sees.linked
                (px.access_lem path t.world ∙ ap is_some absent) e1
                (created_run P px fd path
                  (Header.file_header_init (some (name_of P px text)) zeros).0 header
                  (record t { world = w1 }) sees.linked fits ordinary e2 e3
                  (e4 ∙ ap (λ k. (pos k, w4)) size)),
        (is_encrypted-file_header_init (some (name_of P px text)) zeros z short).2,
        record {
          description = d;
          inode = i;
          info = x;
          process_eq = refl;
          linked = sees.linked;
          tracked = find_fd-append_self x t.file_info_list fresh;
          path_eq = refl;
          nodup = λ once. append-NodupFds x t.file_info_list once fresh;
          others = λ g ne. find_fd-append_ne g x t.file_info_list ne;
          stands = rw v4 (
              At-equal
                (At-moved (rewritten i (write_at 0 header []) (px.view w3)) fd (0 + length header)
                  (At-rewritten (px.view w3) fd (write_at 0 header []) at3))
                (omega (arith, size)) (stored-empty header));
          flags_eq = rw v4 (
              flags-moved (rewritten i (write_at 0 header []) (px.view w3)) d (0 + length header)
              ∙ flags3);
          resolves = rw v4 (
              ap (λ f. f path) same.resolve_eq
              ∙ rw v21 (created_resolves (px.view t.world) path i));
          all_open = λ g h.
              AllOpen-opened fs fd d i 0 flags x t.file_info_list refl open_l g (
                sym (ap (λ f. f.fds g) v21) ∙ sym (same.fds_eq g) ∙ sym (ap (λ f. f.fds g) v4) ∙ h);
        },
        refl,
      )
