-- ===== src/Linker/Open/Encrypted.antt =====
-- `open` of a file that is stored encrypted.
use tencryption.Prelude.{
  Bool-cases, Option, inl, inr, true-false, ℕ, suc, ◌<◌, ◌≡◌, ◌≢◌, refl, true, false, sym, ap, ◌∙◌,
  none, some, List, [], ◌∷◌, ◌++◌, arith, length, lt→leb, ne→==, if◌then◌else◌,
}
use tencryption.Prelude.Int.{ℤ, pos, eqb_ℤ, eqb_ℤ_refl, is_pos, minus_one}
use tencryption.Prelude.Exec.{pure, ◌>>=◌, ◌>>◌}
use tencryption.Cipher.{IsAes}
use tencryption.Header.{header_size, file_type_rights, is_encrypted_by_file_header}
use tencryption.Detect.Laws.{is_pos-suc}
use tencryption.Platform.{
  Platform, Process, Bytes, FilePath, FileInfo, Run, Syscall, linker, seek_set, path_max, o_creat,
  o_excl, o_trunc, o_append, has, reads,
}
use tencryption.Files.{
  some-none, set_fd, Fs, At, At-opened, At-moved, Posix, is_some, opened, moved,
}
use tencryption.FileInfos.{find_fd, new_info, sizeof_file_info}
use tencryption.FileInfos.Laws.{
  NodupFds, append-NodupFds, set_header-append, find_fd-append_self, find_fd-append_ne,
}
use tencryption.Linker.Gate.{AllLinked, SeesPlain, gate_transparent}
use tencryption.Linker.Open.{
  probe_header, open_found, open_encrypted, open_supported, open_transparent, open_file,
}
use tencryption.Linker.Open.Probe.{header_found-some, probe_header_lem}
use tencryption.Linker.Transfer.Stored.{stored}

-- Every tracked descriptor is open.
abbrev pub AllOpen : Fs → List FileInfo → Type 0
AllOpen fs l = (g : ℤ) → fs.fds g ≡ none → find_fd g l ≡ none

-- What `open` promises of the descriptor `fd` that it returns for `path`, from the state `t` to `u`:
-- it is tracked under the path, and stands behind the header of the stored form of `plain`.
pub record IsOpened (P : Platform) (px : Posix P) (ok : IsAes P.aes) (t u : Process P.World)
    (fd : ℤ) (path : FilePath) (flags : ℕ) (header plain : Bytes) : Type 0 where
  pub description : ℕ
  pub inode : ℕ
  pub info : FileInfo
  pub process_eq : u ≡ record t { file_info_list = u.file_info_list; world = u.world }
  pub linked : AllLinked u
  pub tracked : find_fd fd u.file_info_list ≡ some info
  pub path_eq : info.file_path ≡ path
  pub nodup : NodupFds t.file_info_list → NodupFds u.file_info_list
  pub others : (g : ℤ) → g ≢ fd → find_fd g u.file_info_list ≡ find_fd g t.file_info_list
  pub stands : At (px.view u.world) fd description inode header_size (stored P.aes ok header plain)
  pub flags_eq : ((px.view u.world).descriptions description).flags ≡ flags
  pub resolves : (px.view u.world).resolve path ≡ some inode
  pub all_open : AllOpen (px.view u.world) u.file_info_list

pub set_fd-none :
    (f : ℤ → Option ℕ) (fd g : ℤ) (d : ℕ) → set_fd f fd (some d) g ≡ none → (g ≢ fd) × (f g ≡ none)
set_fd-none f fd g d h = elim (Bool-cases (eqb_ℤ fd g)) [
  | inl e ↦ absurd (some-none (sym (ap (λ b. if b then some d else f g) e) ∙ h))
  | inr e ↦ (
    λ same. true-false (sym (eqb_ℤ_refl g) ∙ ap (λ x. eqb_ℤ x g) same ∙ e),
    sym (ap (λ b. if b then some d else f g) e) ∙ h,
  )
]

-- Opening a file and tracking its descriptor keeps the tracked descriptors open.
pub AllOpen-opened :
    (fs : Fs) (fd : ℤ) (d i n flags : ℕ) (x : FileInfo) (l : List FileInfo)
    → x.file_descriptor ≡ fd
    → AllOpen fs l
    → AllOpen (moved d n (opened fd d i flags fs)) (l ++ x ∷ [])
AllOpen-opened fs fd d i n flags x l same open_l g h =
    let (ne, free) = set_fd-none fs.fds fd g d h in
    find_fd-append_ne g x l (λ e. ne (e ∙ same)) ∙ open_l g free

pub flags-opened :
    (fs : Fs) (fd : ℤ) (d i flags : ℕ) → ((opened fd d i flags fs).descriptions d).flags ≡ flags
flags-opened fs fd d i flags = ground arith

pub flags-moved :
    (fs : Fs) (d n : ℕ) → ((moved d n fs).descriptions d).flags ≡ (fs.descriptions d).flags
flags-moved fs d n = ground arith

module _ (P : Platform) (px : Posix P) (ok : IsAes P.aes) where
  encrypted_run :
      (fd : ℤ) (path : FilePath) (flags : ℕ) (header : Bytes) (s : Process P.World) {rc : ℤ}
      {w1 w2 : P.World}
      → AllLinked s
      → length path < path_max
      → has flags o_append ≡ false
      → P.calloc sizeof_file_info s.world ≡ (true, w1)
      → P.sys_lseek fd (pos header_size) seek_set w1 ≡ (rc, w2)
      → open_encrypted P fd path flags header s
        ≡ some (
          fd,
          record s {
            file_info_list = s.file_info_list ++ record (new_info fd path) { header = header } ∷ [];
            world = w2;
          },
        )
  unfolding open_encrypted
  encrypted_run fd path flags header s linked fits in_place e1 e2 =
      rw
        (
          ◌>>=◌,
          e1,
          lt→leb path_max (length path) fits,
          set_header-append header (new_info fd path) s.file_info_list,
          in_place,
          ◌>>◌,
          ◌>>=◌,
          linker,
          linked Syscall.lseek,
          e2,
        )
        refl

  supported_run :
      (threads : FilePath → ℕ → Run P ℕ) (path : FilePath) (flags mode n : ℕ) (header : Bytes)
      (t u : Process P.World) {w1 w2 : P.World}
      → AllLinked t
      → P.accessible path t.world ≡ true
      → probe_header P path t ≡ some (some header, record t { world = w1 })
      → P.sys_open path flags mode w1 ≡ (pos (suc n), w2)
      → open_encrypted P (pos (suc n)) path flags header (record t { world = w2 })
        ≡ some (pos (suc n), u)
      → open_supported P threads path flags mode t ≡ some (pos (suc n), u)
  unfolding open_supported open_found
  supported_run threads path flags mode n header t u linked exists e1 e2 e3 =
      rw (exists, ◌>>=◌, e1, ◌>>=◌, linker, linked Syscall.open_file, exists)
        (ap
            (λ r.
              (if is_pos r.0
                  then open_found P threads r.0 path flags mode true (some header)
                  else pure r.0)
                (record t { world = r.1 }))
            e2
          ∙ rw (is_pos-suc n) e3)

  -- `open` behind the tests on the process, for a supported type.
  pub open_gate :
      (threads : FilePath → ℕ → Run P ℕ) (path : FilePath) (flags argument : ℕ)
      {s t : Process P.World}
      → SeesPlain P s t
      → P.is_support_file_type_by_path path ≢ 0
      → let mode = if has flags o_creat then argument else 0 in
        open_file P threads path flags argument s ≡ open_supported P threads path flags mode t
  unfolding open_file open_transparent
  open_gate threads path flags argument {t = t} sees supported =
      let mode = if has flags o_creat then argument else 0 in
      gate_transparent P Syscall.open_file minus_one
        (linker P Syscall.open_file (P.sys_open path flags mode))
        (open_transparent P threads path flags mode) sees
      ∙ rw (ne→== (P.is_support_file_type_by_path path) 0 supported) refl

  -- `open` of a stored content, in a process that sees plain text, for a supported path that fits
  -- its array, with flags for reading that keep the content and do not append, where the header is
  -- recognised and every tracked descriptor is open: the promise of `open` holds of the descriptor
  -- returned, and the header is kept with it.
  pub open_encrypted_lem :
      (threads : FilePath → ℕ → Run P ℕ) (path : FilePath) (flags argument : ℕ)
      (header plain : Bytes) {s t : Process P.World} {i : ℕ}
      → SeesPlain P s t
      → P.is_support_file_type_by_path path ≢ 0
      → length path < path_max
      → reads flags ≡ true
      → has flags o_trunc ≡ false
      → has flags o_excl ≡ false
      → has flags o_append ≡ false
      → (px.view t.world).resolve path ≡ some i
      → (px.view t.world).content i ≡ stored P.aes ok header plain
      → length header ≡ header_size
      → is_encrypted_by_file_header header ≡ file_type_rights
      → AllOpen (px.view t.world) t.file_info_list
      → (fd : ℤ) × (u : Process P.World) × (open_file P threads path flags argument s
          ≡ some (fd, u))
        × (o : IsOpened P px ok t u fd path flags header plain) × (o.info.header ≡ header)
  unfolding is_some
  open_encrypted_lem threads path flags argument header plain {s} {t} {i} sees supported fits
        readable kept old in_place found content h kind open_l =
      let mode : ℕ = if has flags o_creat then argument else 0 in
      let file : Bytes = stored P.aes ok header plain in
      let (w1, e1, same) = probe_header_lem P px path t sees.linked found content in
      let (n, d, w2, e2, free, unused, v2) =
        px.open_lem path flags mode w1 (ap (λ f. f path) same.resolve_eq ∙ found) kept old in
      let fd : ℤ = pos (suc n) in
      let at2 : At (px.view w2) fd d i 0 file =
        rw v2 (
          At-opened (px.view w1) fd d i flags (ap (λ f. f i) same.content_eq ∙ content) readable) in
      let (w3, e3, v3) = px.calloc_lem sizeof_file_info w2 in
      let at3 : At (px.view w3) fd d i 0 file = rw v3 at2 in
      let (w4, e4, v4) = px.seek_lem fd header_size w3 at3 in
      let x : FileInfo = record (new_info fd path) { header = header } in
      let u : Process P.World = record t {
        file_info_list = t.file_info_list ++ x ∷ [];
        world = w4;
      } in
      let fresh : find_fd fd t.file_info_list ≡ none = open_l fd (sym (same.fds_eq fd) ∙ free) in
      let final : px.view w4 ≡ moved d header_size (opened fd d i flags (px.view w1)) =
        v4 ∙ ap (moved d header_size) (v3 ∙ v2) in
      (
        fd,
        u,
        open_gate threads path flags argument sees supported
            ∙ supported_run threads path flags mode n header t u sees.linked
                (px.access_lem path t.world ∙ ap is_some found)
                (e1
                  ∙ ap (λ o. some (o, record t { world = w1 })) (header_found-some header _ h kind))
                e2
                (encrypted_run fd path flags header (record t { world = w2 }) sees.linked fits
                  in_place e3 e4),
        record {
          description = d;
          inode = i;
          info = x;
          process_eq = refl;
          linked = sees.linked;
          tracked = find_fd-append_self x t.file_info_list fresh;
          path_eq = refl;
          nodup = λ once. append-NodupFds x t.file_info_list once fresh;
          others = λ g ne. find_fd-append_ne g x t.file_info_list ne;
          stands = rw v4 (At-moved (px.view w3) fd header_size at3);
          flags_eq = rw final (
              flags-moved (opened fd d i flags (px.view w1)) d header_size
              ∙ flags-opened (px.view w1) fd d i flags);
          resolves = rw final (ap (λ f. f path) same.resolve_eq ∙ found);
          all_open = rw final (
              AllOpen-opened (px.view w1) fd d i header_size flags x t.file_info_list refl
                (λ g z. open_l g (sym (same.fds_eq g) ∙ z)));
        },
        refl,
      )
