-- ===== src/Linker/Rebuild/Workers/Copying.antt =====
-- `pthread_rfs_run`: how a thread copies a block.
use mathlib.Core.Path.{subst}
use tencryption.Prelude.{
  ℕ, ◌+◌, ◌-◌, ◌≤◌, ◌<◌, ◌≡◌, refl, ap, ◌∙◌, some, inl, true, false, length, Bool, ◌/◌, arith,
  le→leb, ◌==◌, if◌then◌else◌, length-take, drop,
}
use tencryption.Prelude.Int.{ℤ, pos}
use tencryption.Prelude.Exec.{◌>>=◌, ◌>>◌}
use tencryption.Prelude.Slices.{slice, write_at}
use tencryption.Cipher.{encrypt_blocks}
use tencryption.Linker.Gate.{AllLinked}
use tencryption.Linker.Rebuild.File.{threads_count}
use tencryption.Linker.Rebuild.Threads.{Args, copy, step, copy_block}
use tencryption.Linker.Rebuild.Threads.Sound.{Sound, args_of-Fair}
use tencryption.Linker.Rebuild.Workers.{copying, advance}
use tencryption.Linker.Rebuild.Workers.Files.{Spares-rewritten}
use tencryption.Linker.Rebuild.Workers.Places.{
  left, IsWaiting, Uses, Rel, Writer-rewritten, Reader-rewritten, Reader-At, Writer-Stands,
}
use tencryption.Linker.Rebuild.Workers.Moves.{
  turned, Sane-turned, Ready-turned, turned_other, On-rewritten, On-content, Setting, Moves, Model,
  Sane, Files, args, npath, name, turn_new, copy-Ready,
}
use tencryption.Platform.{Platform, Process, Bytes, FilePath, Syscall, linker}
use tencryption.Files.{Fs, Posix, Stands, rewritten, WritesInPlace}

next_le : (b : Bool) (o n : ℕ) → (if b then o + n else o) ≤ o + n
next_le true o n = omega arith
next_le false o n = omega arith

module _ (P : Platform) (path : FilePath) where
  round_run :
      (a : Args) (np : FilePath) (ofd nfd : ℤ) (offset bsize : ℕ) (s : Process P.World)
      {bytes : Bytes} {rc : ℤ} {w1 w2 : P.World}
      → AllLinked s
      → 4096 ≤ bsize
      → P.sys_pread ofd 4096 offset s.world ≡ ((pos (length bytes), bytes), w1)
      → P.sys_pwrite nfd
          (encrypt_blocks P.aes 0 (length bytes / 16) bytes)
          (if length bytes == 4096 then offset + length bytes else offset)
          w1
        ≡ (rc, w2)
      → advance P path a (copying np ofd nfd offset bsize) s
        ≡ some (
          copying np ofd nfd
              (if length bytes == 4096 then offset + length bytes else offset)
              (bsize - 4096),
          record s { world = w2 },
        )
  unfolding advance
  round_run a np ofd nfd offset bsize s linked room e1 e2 =
      rw
        (
          le→leb 4096 bsize room,
          ◌>>=◌,
          linker,
          linked Syscall.pread,
          e1,
          ◌>>◌,
          ◌>>=◌,
          linker,
          linked Syscall.pwrite,
          e2,
          e1,
        )
        refl

module _ (P : Platform) (px : Posix P) (S : Setting P px) where
  pub round_step :
      (i : ℕ) (np : FilePath) (ofd nfd : ℤ) (offset bsize : ℕ) (s : Process P.World)
      (m : Model P px S)
      → i < threads_count
      → AllLinked s
      → 4096 ≤ bsize
      → Sane P px S m
      → Files P px S s.world m.new
      → Rel
          (npath P px S)
          S.old_inode
          (px.view s.world)
          (args P px S i)
          (copying np ofd nfd offset bsize)
          (m.pc i)
      → Moves P px S i (copying np ofd nfd offset bsize) s m
  unfolding Uses Rel Sound step copy_block left IsWaiting
  round_step i np ofd nfd offset bsize s m below linked room sane files
        (ep, same, ne, reader, writer) =
      let np' : FilePath = npath P px S in
      let fs : Fs = px.view s.world in
      let r = copy-Ready P px S i m sane ep in
      let sound =
        subst (λ q. Sound P.aes S.ok (name P px S) S.short S.plain r.file i q) ep
          (r.sound i below) in
      let fair = args_of-Fair (length S.plain) i S.small S.enough below in
      let bytes : Bytes = slice offset 4096 S.plain in
      let next : ℕ = if length bytes == 4096 then offset + length bytes else offset in
      let cipher : Bytes = encrypt_blocks P.aes 0 (length bytes / 16) bytes in
      let shelf : Files P px S s.world (some r.file) =
        subst (λ x. Files P px S s.world x) r.new_eq files in
      let (w1, e1, v1) =
        px.pread_lem ofd 4096 offset s.world (Reader-At reader files.old_content) in
      let k : ℕ = (fs.descriptions writer.description).inode in
      let holds : Stands fs nfd writer.description k r.file =
        Writer-Stands writer (On-content P px S k writer.found shelf) in
      let holds1 : Stands (px.view w1) nfd writer.description k r.file = rw v1 holds in
      let in_place1 : WritesInPlace (px.view w1) writer.description = rw v1 writer.in_place in
      let inside : next ≤ length r.file = omega (
        arith,
        next_le (length bytes == 4096) offset (length bytes),
        length-take 4096 (drop offset S.plain),
        r.size_eq,
        sound.1,
        room,
        fair.inside,
      ) in
      let (w2, e2, v2) = px.pwrite_lem nfd cipher next w1 holds1 in_place1 inside in
      let view2 : px.view w2 ≡ rewritten k (write_at next cipher r.file) fs =
        v2 ∙ ap (rewritten k (write_at next cipher r.file)) v1 in
      let t =
        turn_new P px S i m {p' = copy next (bsize - 4096)}
          {new' = some (write_at next cipher r.file)} below ep r.new_eq
          (rw (le→leb 4096 bsize room) refl) in
      record {
        next = copying np ofd nfd next (bsize - 4096);
        world = w2;
        run = round_run P S.path (args P px S i) np ofd nfd offset bsize s linked room e1 e2;
        model = turned P px S i m;
        sane = Sane-turned P px S i m sane;
        others = λ j other. turned_other P px S i j m other;
        files =
            rw (t.0, view2)
              (On-rewritten P px S k (write_at next cipher r.file) writer.found shelf);
        rel = (
          t.1,
          same,
          ne,
          rw view2 (Reader-rewritten k (write_at next cipher r.file) reader),
          rw view2 (Writer-rewritten k (write_at next cipher r.file) writer),
        );
        frame = record {
          spares = rw view2 (Spares-rewritten fs k (write_at next cipher r.file));
          found = λ j h. rw view2 h;
        };
        stays = λ r. Ready-turned P px S i m below r;
        closer = λ wait h. omega (arith, room);
        fresh = λ g u. inl u;
      }
