-- ===== src/Linker/Open/Rebuilt.antt =====
-- `open` of a file that is not encrypted yet, around its rebuilding.
use tencryption.Prelude.{
  ℕ, suc, ◌+◌, ◌≤◌, ◌≡◌, ◌≢◌, refl, true, false, ap, ◌∙◌, none, some, [], ◌∷◌, ◌++◌, arith, length,
  lt→leb, le→ltb, if◌then◌else◌,
}
use tencryption.Prelude.Int.{ℤ, pos, eqb_ℤ_refl, is_pos}
use tencryption.Prelude.Text.{codes}
use tencryption.Prelude.Exec.{pure, ◌>>=◌, ◌>>◌}
use tencryption.Cipher.{IsAes}
use tencryption.Header.{header_size}
use tencryption.Detect.Laws.{is_pos-suc}
use tencryption.Platform.{
  Platform, Process, Bytes, FilePath, FileInfo, Run, Syscall, linker, seek_set, path_max, o_excl,
  o_trunc, has, reads,
}
use tencryption.Files.{Fs, At, At-opened, At-moved, Posix, is_some, opened, moved, rewritten}
use tencryption.Files.Same.{Same, Same-refl, Same-trans, Same-opened-closed}
use tencryption.FileInfos.{find_fd, new_info, sizeof_file_info}
use tencryption.FileInfos.Laws.{append-NodupFds, find_fd-append_self, find_fd-append_ne}
use tencryption.Linker.Gate.{AllLinked}
use tencryption.Linker.Open.{probe_header, open_found, open_plain, open_supported}
use tencryption.Linker.Open.Encrypted.{AllOpen, AllOpen-opened, IsOpened, flags-opened, flags-moved}
use tencryption.Linker.Rebuild.File.{rebuild_file_struct}
use tencryption.Linker.Transfer.{no_stat}
use tencryption.Linker.Transfer.Stored.{stored}

module _ (P : Platform) (threads : FilePath → ℕ → Run P ℕ) where
  pub plain_run :
      (fd : ℤ) (path : FilePath) (flags mode size n : ℕ) (s : Process P.World) {rc rc' : ℤ}
      {w1 w2 w3 w4 w5 w6 w7 : P.World}
      → AllLinked s
      → length path + 3 ≤ path_max
      → P.calloc path_max s.world ≡ (true, w1)
      → P.accessible (path ++ codes ".s") w1 ≡ false
      → P.sys_close fd w1 ≡ (rc, w2)
      → P.sys_stat path no_stat w2 ≡ ((pos 0, record { regular = true; st_size = pos size }), w3)
      → rebuild_file_struct P threads path (pos size) (record s { world = w3 })
        ≡ some (1, record s { world = w4 })
      → P.sys_open path flags mode w4 ≡ (pos (suc n), w5)
      → P.calloc sizeof_file_info w5 ≡ (true, w6)
      → P.sys_lseek (pos (suc n)) (pos header_size) seek_set w6 ≡ (rc', w7)
      → open_plain P threads fd path flags mode s
        ≡ some (
          pos (suc n),
          record s {
            file_info_list = s.file_info_list ++ new_info (pos (suc n)) path ∷ [];
            world = w7;
          },
        )
  unfolding open_plain
  plain_run fd path flags mode size n s {w1 = w1} linked fits e1 absent e2 e3 e4 e5 e6 e7 =
      rw
        (
          ◌>>=◌,
          e1,
          le→ltb path_max (length path + 3) fits,
          absent,
          ◌>>◌,
          ◌>>=◌,
          linker,
          linked Syscall.close,
          e2,
          ◌>>=◌,
          ◌>>=◌,
          linker,
          linked Syscall.stat,
          e3,
          e4,
          ◌>>=◌,
          linker,
          linked Syscall.open_file,
          e5,
          ◌>>=◌,
          e6,
          lt→leb path_max (length path) (omega (arith, fits)),
          ◌>>◌,
          ◌>>=◌,
          linker,
          linked Syscall.lseek,
          e5,
          e7,
        )
        refl

  pub plain_gate :
      (path : FilePath) (flags mode n : ℕ) (t : Process P.World) {fd : ℤ} {u : Process P.World}
      {w1 w2 : P.World}
      → AllLinked t
      → P.accessible path t.world ≡ true
      → probe_header P path t ≡ some (none, record t { world = w1 })
      → P.sys_open path flags mode w1 ≡ (pos (suc n), w2)
      → open_plain P threads (pos (suc n)) path flags mode (record t { world = w2 }) ≡ some (fd, u)
      → open_supported P threads path flags mode t ≡ some (fd, u)
  unfolding open_supported open_found
  plain_gate path flags mode n t linked exists e1 e2 e3 =
      rw (exists, ◌>>=◌, e1, ◌>>=◌, linker, linked Syscall.open_file, exists)
        (ap
            (λ r.
              (if is_pos r.0 then open_found P threads r.0 path flags mode true none else pure r.0)
                (record t { world = r.1 }))
            e2
          ∙ rw (is_pos-suc n) e3)

pub opened_stands : (fs : Fs) (fd : ℤ) (d i flags : ℕ) → (opened fd d i flags fs).fds fd ≡ some d
opened_stands fs fd d i flags = ground (arith, eqb_ℤ_refl fd)

pub rewritten_self : (fs : Fs) (i : ℕ) (file : Bytes) → (rewritten i file fs).content i ≡ file
rewritten_self fs i file = ground arith

module _ (P : Platform) (px : Posix P) where
  -- What `open` does with the opened plain file up to its rebuilding: `start` is the world then.
  pub record Measured (fd : ℤ) (path : FilePath) (plain : Bytes) (t : Process P.World) (w : P.World)
      : Type 0 where
    pub start : P.World
    pub same : Same (px.view t.world) (px.view start)
    pub run :
        (threads : FilePath → ℕ → Run P ℕ) (flags mode n : ℕ) (w6 w7 w8 w9 : P.World) (rc : ℤ)
        → rebuild_file_struct P threads path (pos (length plain)) (record t { world = start })
          ≡ some (1, record t { world = w6 })
        → P.sys_open path flags mode w6 ≡ (pos (suc n), w7)
        → P.calloc sizeof_file_info w7 ≡ (true, w8)
        → P.sys_lseek (pos (suc n)) (pos header_size) seek_set w8 ≡ (rc, w9)
        → open_plain P threads fd path flags mode (record t { world = w })
          ≡ some (
            pos (suc n),
            record t {
              file_info_list = t.file_info_list ++ new_info (pos (suc n)) path ∷ [];
              world = w9;
            },
          )

  pub closed-Measured :
      (path : FilePath) (plain : Bytes) (t : Process P.World) (fs : Fs) (flags n : ℕ) {w : P.World}
      {d i : ℕ}
      → AllLinked t
      → length path + 3 ≤ path_max
      → px.view w ≡ opened (pos (suc n)) d i flags fs
      → fs.fds (pos (suc n)) ≡ none
      → ((g : ℤ) → fs.fds g ≢ some d)
      → Same (px.view t.world) fs
      → (px.view t.world).resolve path ≡ some i
      → (px.view t.world).content i ≡ plain
      → (px.view t.world).resolve (path ++ codes ".s") ≡ none
      → Measured (pos (suc n)) path plain t w
  unfolding is_some
  closed-Measured path plain t fs flags n {w} {d} {i} linked fits v free unused same1 found content
        absent =
      let fd : ℤ = pos (suc n) in
      let (w3, e3, v3) = px.calloc_lem path_max w in
      let v32 : px.view w3 ≡ opened fd d i flags fs = v3 ∙ v in
      let no_copy : (px.view w3).resolve (path ++ codes ".s") ≡ none =
        rw v32 (ap (λ f. f (path ++ codes ".s")) same1.resolve_eq ∙ absent) in
      let stands : (px.view w3).fds fd ≡ some d = rw v32 (opened_stands fs fd d i flags) in
      let (w4, e4, v4) = px.close_lem fd w3 stands in
      let same4 : Same (px.view t.world) (px.view w4) =
        Same-trans same1 (rw (v4, v32) (Same-opened-closed fs fd d i flags free unused)) in
      let content4 : (px.view w4).content i ≡ plain = ap (λ f. f i) same4.content_eq ∙ content in
      let found4 : (px.view w4).resolve path ≡ some i = ap (λ f. f path) same4.resolve_eq ∙ found in
      let (w5, e5, v5) = px.stat_lem path no_stat w4 found4 in
      record {
        start = w5;
        same = Same-trans same4 (Same-refl v5);
        run = λ threads flags' mode n' w6 w7 w8 w9 rc e6 e7 e8 e9.
            plain_run P threads fd path flags' mode (length plain) n' (record t { world = w })
              linked fits e3 (px.access_lem (path ++ codes ".s") w3 ∙ ap is_some no_copy) e4
              (e5
                ∙ ap (λ l. ((pos 0, record { regular = true; st_size = pos (length l) }), w5))
                    content4)
              e6 e7 e8 e9;
      }

module _ (P : Platform) (px : Posix P) (ok : IsAes P.aes) where
  -- The second `open`, of the rebuilt file.
  pub reopened :
      (path : FilePath) (flags mode : ℕ) (header plain : Bytes) (t : Process P.World) (w : P.World)
      {i : ℕ}
      → AllLinked t
      → reads flags ≡ true
      → has flags o_trunc ≡ false
      → has flags o_excl ≡ false
      → (px.view w).resolve path ≡ some i
      → (px.view w).content i ≡ stored P.aes ok header plain
      → AllOpen (px.view w) t.file_info_list
      → (n : ℕ) × (w7 : P.World) × (w8 : P.World) × (w9 : P.World) × (P.sys_open path flags mode w
          ≡ (pos (suc n), w7))
        × (P.calloc sizeof_file_info w7 ≡ (true, w8))
        × (P.sys_lseek (pos (suc n)) (pos header_size) seek_set w8 ≡ (pos header_size, w9))
        × IsOpened P px ok t
            (record t {
              file_info_list = t.file_info_list ++ new_info (pos (suc n)) path ∷ [];
              world = w9;
            })
            (pos (suc n))
            path
            flags
            header
            plain
  reopened path flags mode header plain t w {i} linked readable kept old found content open_l =
      let (n, d, w7, e7, free, unused, v7) = px.open_lem path flags mode w found kept old in
      let fd : ℤ = pos (suc n) in
      let (w8, e8, v8) = px.calloc_lem sizeof_file_info w7 in
      let v87 : px.view w8 ≡ opened fd d i flags (px.view w) = v8 ∙ v7 in
      let at8 : At (px.view w8) fd d i 0 (stored P.aes ok header plain) =
        rw v87 (At-opened (px.view w) fd d i flags content readable) in
      let (w9, e9, v9) = px.seek_lem fd header_size w8 at8 in
      let final : px.view w9 ≡ moved d header_size (opened fd d i flags (px.view w)) =
        v9 ∙ ap (moved d header_size) v87 in
      let x : FileInfo = new_info fd path in
      let fresh : find_fd fd t.file_info_list ≡ none = open_l fd free in
      (
        n,
        w7,
        w8,
        w9,
        e7,
        e8,
        e9,
        record {
          description = d;
          inode = i;
          info = x;
          process_eq = refl;
          linked = linked;
          tracked = find_fd-append_self x t.file_info_list fresh;
          path_eq = refl;
          nodup = λ once. append-NodupFds x t.file_info_list once fresh;
          others = λ g h. find_fd-append_ne g x t.file_info_list h;
          stands = rw v9 (At-moved (px.view w8) fd header_size at8);
          flags_eq = rw final (
              flags-moved (opened fd d i flags (px.view w)) d header_size
              ∙ flags-opened (px.view w) fd d i flags);
          resolves = rw final found;
          all_open =
              rw final (
                AllOpen-opened (px.view w) fd d i header_size flags x t.file_info_list refl open_l);
        },
      )
