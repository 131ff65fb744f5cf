-- ===== src/Linker/Rebuild/Workers/Waiting.antt =====
-- `pthread_rfs_run`: how a thread waits for the header of the new file and opens the two files.
use mathlib.Core.Path.{subst}
use tencryption.Prelude.{
  ℕ, suc, ◌<◌, ◌≡◌, ◌≢◌, refl, sym, ap, ◌∙◌, none, some, inl, inr, true, false, Bool-cases, arith,
  ◌==◌, if◌then◌else◌,
}
use tencryption.Prelude.Int.{ℤ, pos}
use tencryption.Prelude.Exec.{◌>>=◌}
use tencryption.Prelude.Slices.{slice}
use tencryption.Header.{header_size, file_type_rights, is_encrypted_by_file_header}
use tencryption.Detect.{header_buffer, is_encrypted_by_path}
use tencryption.Detect.ByPath.{is_encrypted_by_path_lem}
use tencryption.Linker.Open.Encrypted.{set_fd-none}
use tencryption.Linker.Gate.{AllLinked}
use tencryption.Linker.Rebuild.File.{threads_count}
use tencryption.Linker.Rebuild.Threads.{Args, copy, step, header_seen}
use tencryption.Linker.Rebuild.Threads.Ends.{seen as seen_header}
use tencryption.Linker.Rebuild.Workers.{waiting, ready, copying, advance}
use tencryption.Linker.Rebuild.Workers.Files.{NewFile, Spares-trans, Spares-opened, Spares-Same}
use tencryption.Linker.Rebuild.Workers.Places.{
  left, IsWaiting, Uses, Frame, Rel, Writer-opened, Reader, Reader-opened, Reader-Frame,
}
use tencryption.Linker.Rebuild.Workers.Moves.{
  turned, Sane-turned, Ready-turned, turned_other, On-agree, Setting, Moves, Model, Sane, IsReady,
  Files, args, npath, name, turn_new, copy-Ready,
}
use tencryption.Platform.{Platform, Process, Bytes, FilePath, Syscall, linker, o_rdonly, o_wronly}
use tencryption.Files.{Fs, Posix, is_some, opened}
use tencryption.Files.Same.{Same-refl}

no_file : {file : Bytes} → some file ≢ none
no_file h = cc

module _ (P : Platform) (path : FilePath) where
  absent_run :
      (a : Args) (np : FilePath) (s : Process P.World)
      → P.accessible np s.world ≡ false
      → advance P path a (waiting np) s ≡ some (waiting np, s)
  unfolding advance
  absent_run a np s e = rw e refl

  header_run :
      (a : Args) (np : FilePath) (s : Process P.World) {kind : ℕ} {w : P.World}
      → P.accessible np s.world ≡ true
      → is_encrypted_by_path P np s ≡ some (kind, record s { world = w })
      → advance P path a (waiting np) s
        ≡ some ((if kind == file_type_rights then ready np else waiting np), record s { world = w })
  unfolding advance
  header_run a np s e e1 = rw (e, ◌>>=◌, e1) refl

  open_run :
      (a : Args) (np : FilePath) (s : Process P.World) {n n' : ℕ} {w1 w2 : P.World}
      → AllLinked s
      → P.accessible np s.world ≡ true
      → P.sys_open path o_rdonly 0 s.world ≡ (pos (suc n), w1)
      → P.sys_open np o_wronly 0 w1 ≡ (pos (suc n'), w2)
      → advance P path a (ready np) s
        ≡ some (copying np (pos (suc n)) (pos (suc n')) a.postion a.bsize, record s { world = w2 })
  unfolding advance
  open_run a np s linked e e1 e2 =
      rw
        (
          e,
          ◌>>=◌,
          linker,
          linked Syscall.open_file,
          e1,
          ◌>>=◌,
          linker,
          linked Syscall.open_file,
          e2,
          e1,
        )
        refl

module _ (P : Platform) (px : Posix P) (S : Setting P px) where
  pub absent_step :
      (i : ℕ) (np : FilePath) (s : Process P.World) (m : Model P px S)
      → m.new ≡ none
      → Sane P px S m
      → Files P px S s.world m.new
      → Rel (npath P px S) S.old_inode (px.view s.world) (args P px S i) (waiting np) (m.pc i)
      → Moves P px S i (waiting np) s m
  unfolding Uses Rel NewFile is_some left IsWaiting
  absent_step i np s m en sane files (ep, same) =
      let shelf : Files P px S s.world none = subst (λ x. Files P px S s.world x) en files in
      record {
        next = waiting np;
        world = s.world;
        run = absent_run P S.path (args P px S i) np s (
            px.access_lem np s.world
            ∙ ap (λ q. is_some ((px.view s.world).resolve q)) same
            ∙ ap is_some shelf.new_file);
        model = m;
        sane = sane;
        others = λ k other. refl;
        files = files;
        rel = (ep, same);
        frame = record { spares = Spares-Same (Same-refl refl); found = λ k h. h };
        stays = λ r. r;
        closer = λ wait h. absurd (no_file (sym (wait tt).new_eq ∙ en));
        fresh = λ g u. absurd u;
      }

  pub present_step :
      (i : ℕ) (np : FilePath) (s : Process P.World) (m : Model P px S) {file : Bytes}
      → i < threads_count
      → AllLinked s
      → m.new ≡ some file
      → Sane P px S m
      → Files P px S s.world m.new
      → Rel (npath P px S) S.old_inode (px.view s.world) (args P px S i) (waiting np) (m.pc i)
      → Moves P px S i (waiting np) s m
  unfolding Uses Rel NewFile is_some step header_seen left IsWaiting
  present_step i np s m {file} below linked en sane files (ep, same) =
      let np' : FilePath = npath P px S in
      let shelf : Files P px S s.world (some file) = subst (λ x. Files P px S s.world x) en files in
      let found : (px.view s.world).resolve np ≡ some shelf.new_file.inode =
        ap (px.view s.world).resolve same ∙ shelf.new_file.found in
      let (w, e, same1) =
        is_encrypted_by_path_lem P px np s linked found shelf.new_file.content_eq in
      let kind : ℕ = is_encrypted_by_file_header (header_buffer (slice 0 header_size file)) in
      let run =
        header_run P S.path (args P px S i) np s (px.access_lem np s.world ∙ ap is_some found) e in
      let frame : Frame (Uses (waiting np)) np' (px.view s.world) (px.view w) = record {
        spares = Spares-Same same1;
        found = λ k h. ap (λ f. f np') same1.resolve_eq ∙ h;
      } in
      let files' : Files P px S w m.new = On-agree P px S same1.resolve_eq same1.content_eq files in
      elim (Bool-cases (kind == file_type_rights)) [
        | inl seen ↦
            let t =
              turn_new P px S i m {p' = copy (args P px S i).postion (args P px S i).bsize}
                {new' = some file} below ep en (rw seen refl) in
            record {
              next = ready np;
              world = w;
              run =
                  run
                  ∙ ap (λ b. some ((if b then ready np else waiting np), record s { world = w }))
                      seen;
              model = turned P px S i m;
              sane = Sane-turned P px S i m sane;
              others = λ k ne. turned_other P px S i k m ne;
              files = rw t.0 (subst (λ x. Files P px S w x) en files');
              rel = (t.1, same);
              frame = frame;
              stays = λ r. Ready-turned P px S i m below r;
              closer = λ wait h. omega arith;
              fresh = λ g u. absurd u;
            }
        | inr unseen ↦
            let zero : header_seen P.aes (name P px S) S.plain (some file) ≡ 0 = rw unseen refl in
            let no_header : IsReady P px S m → ⊥ = λ r.
              let one : 0 ≡ 1 =
                sym zero
                ∙ ap (header_seen P.aes (name P px S) S.plain) (sym en ∙ r.new_eq)
                ∙ seen_header P.aes S.ok (name P px S) S.short S.plain S.small S.enough m r in
              absurd (omega (arith, one)) in
            record {
              next = waiting np;
              world = w;
              run =
                  run
                  ∙ ap (λ b. some ((if b then ready np else waiting np), record s { world = w }))
                      unseen;
              model = m;
              sane = sane;
              others = λ k ne. refl;
              files = files';
              rel = (ep, same);
              frame = frame;
              stays = λ r. r;
              closer = λ wait h. absurd (no_header (wait tt));
              fresh = λ g u. absurd u;
            }
      ]

  pub open_step :
      (i : ℕ) (np : FilePath) (s : Process P.World) (m : Model P px S)
      → AllLinked s
      → Sane P px S m
      → Files P px S s.world m.new
      → Rel (npath P px S) S.old_inode (px.view s.world) (args P px S i) (ready np) (m.pc i)
      → Moves P px S i (ready np) s m
  unfolding Uses Rel NewFile is_some left IsWaiting
  open_step i np s m linked sane files (ep, same) =
      let np' : FilePath = npath P px S in
      let fs : Fs = px.view s.world in
      let r = copy-Ready P px S i m sane ep in
      let shelf : Files P px S s.world (some r.file) =
        subst (λ x. Files P px S s.world x) r.new_eq files in
      let k : ℕ = shelf.new_file.inode in
      let found : fs.resolve np ≡ some k = ap fs.resolve same ∙ shelf.new_file.found in
      let (n, d, w1, e1, free, unused, v1) =
        px.open_lem S.path o_rdonly 0 s.world files.old_found refl refl in
      let ofd : ℤ = pos (suc n) in
      let fs1 : Fs = opened ofd d S.old_inode o_rdonly fs in
      let found1 : (px.view w1).resolve np ≡ some k = rw v1 found in
      let (n', d', w2, e2, free', unused', v2) = px.open_lem np o_wronly 0 w1 found1 refl refl in
      let nfd : ℤ = pos (suc n') in
      let free1 : fs1.fds nfd ≡ none = ap (λ f. f.fds nfd) (sym v1) ∙ free' in
      let unused1 : (g : ℤ) → fs1.fds g ≢ some d' = λ g h. unused' g (ap (λ f. f.fds g) v1 ∙ h) in
      let apart = set_fd-none fs.fds ofd nfd d free1 in
      let view2 : px.view w2 ≡ opened nfd d' k o_wronly fs1 =
        v2 ∙ ap (opened nfd d' k o_wronly) v1 in
      let reader : Reader (opened nfd d' k o_wronly fs1) ofd S.old_inode =
        Reader-Frame {npath = np'}
          (record {
            spares = Spares-opened {U = λ g. ⊥} fs1 nfd d' k o_wronly free1 unused1;
            found = λ k h. h;
          })
          (λ h. h) (Reader-opened fs ofd d S.old_inode o_rdonly refl) in
      record {
        next = copying np ofd nfd (args P px S i).postion (args P px S i).bsize;
        world = w2;
        run =
            open_run P S.path (args P px S i) np s linked
              (px.access_lem np s.world ∙ ap is_some found) e1 e2;
        model = m;
        sane = sane;
        others = λ k ne. refl;
        files = rw view2 (On-agree P px S refl refl files);
        rel = (
          ep,
          same,
          λ e. apart.0 (sym e),
          rw view2 reader,
          rw view2 (Writer-opened fs1 nfd d' k o_wronly np' shelf.new_file.found refl refl),
        );
        frame = record {
          spares = rw view2 (
              Spares-trans (Spares-opened fs ofd d S.old_inode o_rdonly free unused)
                (Spares-opened fs1 nfd d' k o_wronly free1 unused1));
          found = λ k h. rw view2 h;
        };
        stays = λ r. r;
        closer = λ wait h. omega arith;
        fresh = λ g u. elim u [
          | inl e ↦ inr (ap fs.fds (sym e) ∙ free)
          | inr e ↦ inr (ap fs.fds (sym e) ∙ apart.1)
        ];
      }
