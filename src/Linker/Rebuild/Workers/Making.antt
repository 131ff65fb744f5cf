-- ===== src/Linker/Rebuild/Workers/Making.antt =====
-- `pthread_rfs_run`: how thread 0 makes the new file, and how the others begin.
use mathlib.Core.Path.{subst}
use tencryption.Prelude.{
  ℕ, zero, suc, ◌+◌, ◌≤◌, ◌<◌, ◌≡◌, ◌≢◌, refl, sym, ap, ◌∙◌, none, some, inl, inr, true, false, [],
  ◌++◌, length, replicate, arith, eq→==, ne→==, le→ltb, length-replicate,
}
use tencryption.Prelude.Int.{ℤ, pos}
use tencryption.Prelude.Text.{codes}
use tencryption.Prelude.Exec.{◌>>=◌, ◌>>◌}
use tencryption.Prelude.Slices.{write_at}
use tencryption.Header.{header_size, file_type_rights}
use tencryption.Header.Roundtrip.{is_encrypted-file_header_init}
use tencryption.Detect.{cmdline_path, file_header_init}
use tencryption.Detect.Laws.{is_pos-suc}
use tencryption.Detect.Name.{HasName, file_header_init_lem}
use tencryption.Linker.Gate.{AllLinked}
use tencryption.Linker.Open.Created.{created_resolves}
use tencryption.Linker.Rebuild.{new_header}
use tencryption.Linker.Rebuild.File.{threads_count}
use tencryption.Linker.Rebuild.Threads.{Args, create, extend, head, spin, step}
use tencryption.Linker.Rebuild.Threads.Result.{creating, extending, heading, write_head_lem}
use tencryption.Linker.Rebuild.Workers.{start, made, sized, waiting, advance}
use tencryption.Linker.Rebuild.Workers.Files.{
  Shelf, NewFile, Shelf-created, Spares-trans, Spares-opened, Spares-created, Spares-Same,
  Spares-rewritten, Spares-closed,
}
use tencryption.Linker.Rebuild.Workers.Places.{
  left, IsWaiting, Uses, Frame, Rel, Writer, Writer-Frame, Writer-opened, Writer-rewritten,
}
use tencryption.Linker.Rebuild.Workers.Moves.{
  turned, Sane-turned, Ready-turned, turned_other, On-agree, On-rewritten, On-content, Setting,
  Moves, Model, Sane, Files, args, npath, name, turn_new, early_new,
}
use tencryption.Platform.{
  Platform, Process, Bytes, FilePath, Syscall, linker, path_max, o_creat, o_trunc, o_wronly,
}
use tencryption.Files.{some-none, Fs, Posix, Stands, is_some, created, rewritten, resized}
use tencryption.Files.Same.{Same-refl}

resized-nil : (n : ℕ) → resized n [] ≡ replicate n 0
resized-nil zero = ap (λ k. replicate k 0) (omega arith)
resized-nil (suc n) = ap (λ k. replicate k 0) (omega arith)

abbrev new_flags : ℕ
new_flags = o_creat + o_trunc + o_wronly

module _ (P : Platform) (path : FilePath) where
  begin_zero_run :
      (a : Args) (s : Process P.World) {n : ℕ} {w1 w2 : P.World}
      → AllLinked s
      → length path + 3 ≤ path_max
      → a.number ≡ 0
      → a.postion ≡ 0
      → P.calloc path_max s.world ≡ (true, w1)
      → P.accessible (path ++ codes ".s") w1 ≡ false
      → P.sys_open (path ++ codes ".s") new_flags 448 w1 ≡ (pos (suc n), w2)
      → advance P path a start s
        ≡ some (made (pos (suc n)) (path ++ codes ".s"), record s { world = w2 })
  unfolding advance
  begin_zero_run a s {n} linked fits e0 e0' e1 absent e2 =
      rw
        (
          ◌>>=◌,
          e1,
          le→ltb path_max (length path + 3) fits,
          eq→== a.number 0 e0,
          eq→== a.postion 0 e0',
          ◌>>◌,
          ◌>>=◌,
          absent,
          linker,
          linked Syscall.open_file,
          e2,
          is_pos-suc n,
        )
        refl

  begin_other_run :
      (a : Args) (s : Process P.World) {w1 : P.World}
      → length path + 3 ≤ path_max
      → a.number ≢ 0
      → P.calloc path_max s.world ≡ (true, w1)
      → advance P path a start s ≡ some (waiting (path ++ codes ".s"), record s { world = w1 })
  unfolding advance
  begin_other_run a s fits ne e1 =
      rw (◌>>=◌, e1, le→ltb path_max (length path + 3) fits, ne→== a.number 0 ne) refl

  extend_run :
      (a : Args) (fd : ℤ) (np : FilePath) (s : Process P.World) {rc : ℤ} {w1 : P.World}
      → P.sys_ftruncate fd (a.tsize + header_size) s.world ≡ (rc, w1)
      → advance P path a (made fd np) s ≡ some (sized fd np, record s { world = w1 })
  unfolding advance
  extend_run a fd np s e = rw (◌>>=◌, e) refl

  write_run :
      (a : Args) (fd : ℤ) (np : FilePath) (s : Process P.World) {kind : ℕ} {buff : Bytes}
      {rc rc' : ℤ} {w1 w2 w3 : P.World}
      → AllLinked s
      → file_header_init P (replicate header_size 0) s
        ≡ some ((kind, buff), record s { world = w1 })
      → kind ≡ file_type_rights
      → P.sys_pwrite fd buff 0 w1 ≡ (rc, w2)
      → P.sys_close fd w2 ≡ (rc', w3)
      → advance P path a (sized fd np) s ≡ some (waiting np, record s { world = w3 })
  unfolding advance
  write_run a fd np s {kind} linked e1 e e2 e3 =
      rw
        (
          ◌>>=◌,
          e1,
          eq→== kind file_type_rights e,
          ◌>>◌,
          ◌>>=◌,
          linker,
          linked Syscall.pwrite,
          e2,
          linker,
          linked Syscall.close,
          e3,
        )
        refl

module _ (P : Platform) (px : Posix P) (S : Setting P px) where
  -- Thread 0 makes the new file.
  pub start_zero :
      (s : Process P.World) (m : Model P px S)
      → AllLinked s
      → Sane P px S m
      → Files P px S s.world m.new
      → m.pc 0 ≡ create
      → Moves P px S 0 start s m
  unfolding is_some Uses Rel NewFile step left IsWaiting
  start_zero s m linked sane files ep =
      let np : FilePath = npath P px S in
      let en : m.new ≡ none = early_new P px S 0 m (omega arith) sane ep creating in
      let (w1, e1, v1) = px.calloc_lem path_max s.world in
      let shelf1 : Files P px S w1 none = rw v1 (subst (λ x. Files P px S s.world x) en files) in
      let (n, d, i, w2, e2, free, unused, fresh_inode, v2) =
        px.create_lem np new_flags 448 w1 shelf1.new_file refl in
      let fd : ℤ = pos (suc n) in
      let fs : Fs = px.view w1 in
      let t = turn_new P px S 0 m {p' = extend} {new' = some []} (omega arith) ep en refl in
      record {
        next = made fd np;
        world = w2;
        run =
            begin_zero_run P S.path (args P px S 0) s linked S.fits refl (omega arith) e1
              (px.access_lem np w1 ∙ ap is_some shelf1.new_file) e2;
        model = turned P px S 0 m;
        sane = Sane-turned P px S 0 m sane;
        others = λ k ne. turned_other P px S 0 k m ne;
        files =
            rw (t.0, v2)
              (On-agree P px S refl refl (
                Shelf-created S.path np (cmdline_path S.pid) S.old_inode S.name_inode S.plain S.text
                  i fresh_inode shelf1));
        rel = (
          t.1,
          refl,
          rw v2 (
              Writer-opened (created np i fs) fd d i new_flags np (created_resolves fs np i) refl
                refl),
        );
        frame = record {
          spares = rw (sym v1) (
              rw v2 (
                Spares-trans (Spares-created fs np i)
                  (Spares-opened (created np i fs) fd d i new_flags free unused)));
          found =
              λ k h. absurd (some-none (sym h ∙ ap (λ f. f.resolve np) (sym v1) ∙ shelf1.new_file));
        };
        stays = λ r. Ready-turned P px S 0 m (omega arith) r;
        closer = λ wait h. omega arith;
        fresh = λ g u. inr (ap (λ f. f.fds g) (sym v1) ∙ ap fs.fds (sym u) ∙ free);
      }

  pub start_other :
      (i : ℕ) (s : Process P.World) (m : Model P px S)
      → i ≢ 0
      → Sane P px S m
      → Files P px S s.world m.new
      → m.pc i ≡ spin
      → Moves P px S i start s m
  unfolding Uses Rel left IsWaiting
  start_other i s m ne sane files ep =
      let (w1, e1, v1) = px.calloc_lem path_max s.world in
      record {
        next = waiting (npath P px S);
        world = w1;
        run = begin_other_run P S.path (args P px S i) s S.fits ne e1;
        model = m;
        sane = sane;
        others = λ k other. refl;
        files = rw v1 files;
        rel = (ep, refl);
        frame = record { spares = Spares-Same (Same-refl v1); found = λ k h. rw v1 h };
        stays = λ r. r;
        closer = λ wait h. omega arith;
        fresh = λ g u. absurd u;
      }

  pub extend_step :
      (i : ℕ) (fd : ℤ) (np : FilePath) (s : Process P.World) (m : Model P px S)
      → i < threads_count
      → Sane P px S m
      → Files P px S s.world m.new
      → Rel (npath P px S) S.old_inode (px.view s.world) (args P px S i) (made fd np) (m.pc i)
      → Moves P px S i (made fd np) s m
  unfolding Uses Rel NewFile step left IsWaiting
  extend_step i fd np s m below sane files (ep, same, writer) =
      let np' : FilePath = npath P px S in
      let fs : Fs = px.view s.world in
      let k : ℕ = (fs.descriptions writer.description).inode in
      let size : ℕ = (args P px S i).tsize + header_size in
      let en : m.new ≡ some [] = early_new P px S i m below sane ep extending in
      let shelf : Files P px S s.world (some []) = subst (λ x. Files P px S s.world x) en files in
      let holds : Stands fs fd writer.description k [] = record {
        stands = writer.stands;
        inode_eq = refl;
        content_eq = On-content P px S k writer.found shelf;
      } in
      let (w1, e1, v1) = px.ftruncate_lem fd size s.world holds writer.in_place in
      let t = turn_new P px S i m {p' = head} {new' = some (replicate size 0)} below ep en refl in
      let frame : Frame (Uses (made fd np)) np' fs (px.view w1) = record {
        spares = rw v1 (Spares-rewritten fs k (resized size []));
        found = λ k h. rw v1 h;
      } in
      record {
        next = sized fd np;
        world = w1;
        run = extend_run P S.path (args P px S i) fd np s e1;
        model = turned P px S i m;
        sane = Sane-turned P px S i m sane;
        others = λ k ne. turned_other P px S i k m ne;
        files =
            rw (t.0, v1)
              (subst
                (λ file.
                  Shelf S.path np' (cmdline_path S.pid) S.old_inode S.name_inode S.plain S.text
                    (rewritten k (resized size []) fs) (some file))
                (resized-nil size) (On-rewritten P px S k (resized size []) writer.found shelf));
        rel = (t.1, same, rw v1 (Writer-rewritten k (resized size []) writer));
        frame = frame;
        stays = λ r. Ready-turned P px S i m below r;
        closer = λ wait h. omega arith;
        fresh = λ g u. inl u;
      }

  pub write_step :
      (i : ℕ) (fd : ℤ) (np : FilePath) (s : Process P.World) (m : Model P px S)
      → i < threads_count
      → AllLinked s
      → Sane P px S m
      → Files P px S s.world m.new
      → Rel (npath P px S) S.old_inode (px.view s.world) (args P px S i) (sized fd np) (m.pc i)
      → Moves P px S i (sized fd np) s m
  unfolding Uses Rel NewFile step left IsWaiting
  write_step i fd np s m below linked sane files (ep, same, writer) =
      let np' : FilePath = npath P px S in
      let fs : Fs = px.view s.world in
      let zeros : Bytes = replicate header_size 0 in
      let k : ℕ = (fs.descriptions writer.description).inode in
      let file : Bytes = replicate (length S.plain + header_size) 0 in
      let file' : Bytes = write_at 0 (new_header (name P px S)) file in
      let en : m.new ≡ some file = early_new P px S i m below sane ep heading in
      let shelf : Files P px S s.world (some file) = subst (λ x. Files P px S s.world x) en files in
      let named : HasName P px s.world S.pid S.name_inode S.text = record {
        command_line = record {
          same_pid = S.same_pid;
          resolves = files.name_found;
          content_eq = files.name_content;
        };
        shorter = S.shorter;
      } in
      let (w1, e1, same1) = file_header_init_lem P px zeros s linked named in
      let shelf1 : Files P px S w1 (some file) =
        On-agree P px S same1.resolve_eq same1.content_eq shelf in
      let writer1 : Writer (px.view w1) fd np' =
        Writer-Frame
          (record {
            spares = Spares-Same {U = λ g. ⊥} same1;
            found = λ k h. ap (λ f. f np') same1.resolve_eq ∙ h;
          })
          (λ h. h) writer in
      let k1 : ℕ = ((px.view w1).descriptions writer1.description).inode in
      let holds : Stands (px.view w1) fd writer1.description k1 file = record {
        stands = writer1.stands;
        inode_eq = refl;
        content_eq = On-content P px S k1 writer1.found shelf1;
      } in
      let (w2, e2, v2) =
        px.pwrite_lem fd (new_header (name P px S)) 0 w1 holds writer1.in_place (omega arith) in
      let stands2 : (px.view w2).fds fd ≡ some writer1.description = rw v2 writer1.stands in
      let (w3, e3, v3) = px.close_lem fd w2 stands2 in
      let t = turn_new P px S i m {p' = spin} {new' = some file'} below ep en (
        ap (λ f. (spin, some f))
          (write_head_lem P.aes S.ok (name P px S) S.short S.plain S.small S.enough file)) in
      record {
        next = waiting np;
        world = w3;
        run =
            write_run P S.path (args P px S i) fd np s linked e1
              (is_encrypted-file_header_init (name P px S) zeros (length-replicate header_size 0)
                S.short).0
              e2 e3;
        model = turned P px S i m;
        sane = Sane-turned P px S i m sane;
        others = λ k ne. turned_other P px S i k m ne;
        files =
            rw (t.0, v3, v2)
              (On-agree P px S refl refl (On-rewritten P px S k1 file' writer1.found shelf1));
        rel = (t.1, same);
        frame = record {
          spares =
              rw (v3, v2)
                (Spares-trans (Spares-Same same1) (
                  Spares-trans (Spares-rewritten (px.view w1) k1 file')
                    (Spares-closed (rewritten k1 file' (px.view w1)) fd refl)));
          found = λ k h. rw (v3, v2) (ap (λ f. f np') same1.resolve_eq ∙ h);
        };
        stays = λ r. Ready-turned P px S i m below r;
        closer = λ wait h. omega arith;
        fresh = λ g u. absurd u;
      }
