-- ===== src/Linker/Rebuild/Workers/Closing.antt =====
-- `pthread_rfs_run`: how a thread ends, the last one with the bytes behind its last block.
use native.Mathlib.Decide.{dec_lt}
use mathlib.Core.Path.{subst}
use tencryption.Prelude.{
  ℕ, ◌+◌, ◌≤◌, ◌<◌, ◌≡◌, ◌≢◌, refl, ap, ◌∙◌, Option, none, some, inl, inr, length, ◌/◌, arith,
  eq→==, ne→==, le→ltb, lt→ltb, lt→leb,
}
use tencryption.Prelude.Int.{ℤ, pos, eqb_ℤ_ne}
use tencryption.Prelude.Exec.{◌>>=◌, ◌>>◌}
use tencryption.Prelude.Slices.{slice, write_at}
use tencryption.Cipher.{encrypt_blocks}
use tencryption.Linker.Gate.{AllLinked}
use tencryption.Linker.Rebuild.File.{threads_count}
use tencryption.Linker.Rebuild.Threads.{Args, copy, last, done, step, copy_tail}
use tencryption.Linker.Rebuild.Threads.Sound.{Sound, args_of-Fair}
use tencryption.Linker.Rebuild.Workers.{copying, ended, advance}
use tencryption.Linker.Rebuild.Workers.Files.{
  Spares-Same, Spares-trans, Spares-rewritten, Spares-closed,
}
use tencryption.Files.Same.{Same-refl}
use tencryption.Linker.Rebuild.Workers.Places.{
  result_of, Reader, Writer, Frame, Writer-rewritten, Reader-rewritten, left, IsWaiting, Uses, Rel,
  Reader-At, Writer-Stands,
}
use tencryption.Linker.Rebuild.Workers.Moves.{
  IsReady, turned, Sane-turned, Ready-turned, turned_other, On-agree, On-rewritten, On-content,
  Setting, Moves, Model, Sane, Files, args, npath, name, turn_new, copy-Ready,
}
use tencryption.Platform.{Platform, Process, Bytes, FilePath, Syscall, linker}
use tencryption.Files.{Fs, Posix, Stands, rewritten, closed, WritesInPlace}

module _ (P : Platform) (path : FilePath) where
  close_run :
      (a : Args) (np : FilePath) (ofd nfd : ℤ) (offset bsize : ℕ) (s : Process P.World) {rc rc' : ℤ}
      {w1 w2 : P.World}
      → AllLinked s
      → bsize < 4096
      → a.number + 1 ≢ threads_count
      → P.sys_close ofd s.world ≡ (rc, w1)
      → P.sys_close nfd w1 ≡ (rc', w2)
      → advance P path a (copying np ofd nfd offset bsize) s
        ≡ some (ended none, record s { world = w2 })
  unfolding advance
  close_run a np ofd nfd offset bsize s linked short other e1 e2 =
      rw
        (
          lt→leb 4096 bsize short,
          ne→== (a.number + 1) threads_count other,
          ◌>>◌,
          ◌>>=◌,
          linker,
          linked Syscall.close,
          e1,
          linker,
          linked Syscall.close,
          e2,
        )
        refl

  rest_run :
      (a : Args) (np : FilePath) (ofd nfd : ℤ) (offset bsize : ℕ) (s : Process P.World)
      {bytes : Bytes} {rc rc' rc'' : ℤ} {w1 w2 w3 w4 : P.World}
      → AllLinked s
      → bsize < 4096
      → a.number + 1 ≡ threads_count
      → P.sys_pread ofd 4096 offset s.world ≡ ((pos (length bytes), bytes), w1)
      → 0 < length bytes
      → P.sys_pwrite nfd (encrypt_blocks P.aes 0 (length bytes / 16) bytes) (offset + 4096) w1
        ≡ (rc, w2)
      → P.sys_close ofd w2 ≡ (rc', w3)
      → P.sys_close nfd w3 ≡ (rc'', w4)
      → advance P path a (copying np ofd nfd offset bsize) s
        ≡ some (ended (some np), record s { world = w4 })
  unfolding advance
  rest_run a np ofd nfd offset bsize s {bytes} linked short last_one e1 left e2 e3 e4 =
      rw
        (
          lt→leb 4096 bsize short,
          eq→== (a.number + 1) threads_count last_one,
          ◌>>◌,
          ◌>>=◌,
          linker,
          linked Syscall.pread,
          e1,
          lt→ltb 0 (length bytes) left,
          linker,
          linked Syscall.pwrite,
          e2,
          linker,
          linked Syscall.close,
          e3,
          linker,
          linked Syscall.close,
          e4,
        )
        refl

  nothing_run :
      (a : Args) (np : FilePath) (ofd nfd : ℤ) (offset bsize : ℕ) (s : Process P.World)
      {bytes : Bytes} {rc' rc'' : ℤ} {w1 w3 w4 : P.World}
      → AllLinked s
      → bsize < 4096
      → a.number + 1 ≡ threads_count
      → P.sys_pread ofd 4096 offset s.world ≡ ((pos (length bytes), bytes), w1)
      → length bytes ≤ 0
      → P.sys_close ofd w1 ≡ (rc', w3)
      → P.sys_close nfd w3 ≡ (rc'', w4)
      → advance P path a (copying np ofd nfd offset bsize) s
        ≡ some (ended (some np), record s { world = w4 })
  unfolding advance
  nothing_run a np ofd nfd offset bsize s {bytes} linked short last_one e1 left e3 e4 =
      rw
        (
          lt→leb 4096 bsize short,
          eq→== (a.number + 1) threads_count last_one,
          ◌>>◌,
          ◌>>=◌,
          linker,
          linked Syscall.pread,
          e1,
          le→ltb 0 (length bytes) left,
          linker,
          linked Syscall.close,
          e3,
          linker,
          linked Syscall.close,
          e4,
        )
        refl

module _ (P : Platform) (px : Posix P) where
  close_two :
      (ofd nfd : ℤ) (w : P.World) {d d' : ℕ}
      → (px.view w).fds ofd ≡ some d
      → (px.view w).fds nfd ≡ some d'
      → ofd ≢ nfd
      → (w1 : P.World) × (w2 : P.World) × (P.sys_close ofd w ≡ (pos 0, w1))
        × (P.sys_close nfd w1 ≡ (pos 0, w2))
        × (px.view w2 ≡ closed nfd (closed ofd (px.view w)))
  close_two ofd nfd w {d' = d'} old new ne =
      let (w1, e1, v1) = px.close_lem ofd w old in
      let new1 : (px.view w1).fds nfd ≡ some d' = rw (v1, eqb_ℤ_ne ofd nfd ne) new in
      let (w2, e2, v2) = px.close_lem nfd w1 new1 in (w1, w2, e1, e2, v2 ∙ ap (closed nfd) v1)

module _ (P : Platform) (px : Posix P) (S : Setting P px) where
  -- A thread closes its two files, and the thread on the contents is done.
  ending :
      (i : ℕ) (np : FilePath) (ofd nfd : ℤ) (offset bsize : ℕ) (s : Process P.World)
      (m model : Model P px S) (result : Option FilePath) (w : P.World)
      → Sane P px S model
      → ((k : ℕ) → i ≢ k → model.pc k ≡ m.pc k)
      → (IsReady P px S m → IsReady P px S model)
      → model.pc i ≡ done
      → result ≡ result_of (npath P px S) i
      → Files P px S w model.new
      → Reader (px.view w) ofd S.old_inode
      → Writer (px.view w) nfd (npath P px S)
      → ofd ≢ nfd
      → Frame (Uses (copying np ofd nfd offset bsize)) (npath P px S) (px.view s.world) (px.view w)
      → ((w1 w2 : P.World)
          → P.sys_close ofd w ≡ (pos 0, w1)
          → P.sys_close nfd w1 ≡ (pos 0, w2)
          → advance P S.path (args P px S i) (copying np ofd nfd offset bsize) s
            ≡ some (ended result, record s { world = w2 }))
      → Moves P px S i (copying np ofd nfd offset bsize) s m
  unfolding Uses Rel left IsWaiting
  ending i np ofd nfd offset bsize s m model result w sane others stays finish same files reader
        writer ne frame run =
      let fs : Fs = px.view w in
      let (w1, w2, e1, e2, v) = close_two P px ofd nfd w reader.stands writer.stands ne in
      record {
        next = ended result;
        world = w2;
        run = run w1 w2 e1 e2;
        model = model;
        sane = sane;
        others = others;
        files = rw v (On-agree P px S refl refl files);
        rel = (finish, same);
        frame = record {
          spares = rw v (
              Spares-trans frame.spares (
                Spares-trans (Spares-closed fs ofd (inl refl))
                  (Spares-closed (closed ofd fs) nfd (inr refl))));
          found = λ j h. rw v (frame.found j h);
        };
        stays = stays;
        closer = λ wait h. omega arith;
        fresh = λ g u. absurd u;
      }

  pub stop_step :
      (i : ℕ) (np : FilePath) (ofd nfd : ℤ) (offset bsize : ℕ) (s : Process P.World)
      (m : Model P px S)
      → i < threads_count
      → AllLinked s
      → bsize < 4096
      → i + 1 ≢ threads_count
      → Sane P px S m
      → Files P px S s.world m.new
      → Rel
          (npath P px S)
          S.old_inode
          (px.view s.world)
          (args P px S i)
          (copying np ofd nfd offset bsize)
          (m.pc i)
      → Moves P px S i (copying np ofd nfd offset bsize) s m
  unfolding Uses Rel step
  stop_step i np ofd nfd offset bsize s m below linked short other sane files
        (ep, same, ne, reader, writer) =
      let t =
        turn_new P px S i m {p' = done} {new' = m.new} below ep refl
          (rw (lt→leb 4096 bsize short, ne→== (i + 1) threads_count other) refl) in
      ending i np ofd nfd offset bsize s m (turned P px S i m) none s.world
        (Sane-turned P px S i m sane) (λ k o. turned_other P px S i k m o)
        (λ r. Ready-turned P px S i m below r) t.1 (rw (ne→== (i + 1) threads_count other) refl)
        (rw t.0 files) reader writer ne
        (record { spares = Spares-Same (Same-refl refl); found = λ j h. h })
        (λ w1 w2 e1 e2.
          close_run P S.path (args P px S i) np ofd nfd offset bsize s linked short other e1 e2)

  -- The thread on the contents takes two steps where the last thread with its calls takes one.
  two_turns :
      (i offset bsize : ℕ) (m : Model P px S) {file : Bytes}
      → i < threads_count
      → bsize < 4096
      → i + 1 ≡ threads_count
      → m.pc i ≡ copy offset bsize
      → m.new ≡ some file
      → (let m' = turned P px S i (turned P px S i m) in
          (m'.new ≡ some (copy_tail P.aes (name P px S) S.plain offset file)) × (m'.pc i ≡ done))
  unfolding step
  two_turns i offset bsize m {file} below short last_one ep en =
      let (en1, ep1) =
        turn_new P px S i m {p' = last offset} {new' = some file} below ep en
          (rw (lt→leb 4096 bsize short, eq→== (i + 1) threads_count last_one) refl) in
      turn_new P px S i (turned P px S i m) {p' = done}
        {new' = some (copy_tail P.aes (name P px S) S.plain offset file)} below ep1 en1 refl

  pub last_step :
      (i : ℕ) (np : FilePath) (ofd nfd : ℤ) (offset bsize : ℕ) (s : Process P.World)
      (m : Model P px S)
      → i < threads_count
      → AllLinked s
      → bsize < 4096
      → i + 1 ≡ threads_count
      → Sane P px S m
      → Files P px S s.world m.new
      → Rel
          (npath P px S)
          S.old_inode
          (px.view s.world)
          (args P px S i)
          (copying np ofd nfd offset bsize)
          (m.pc i)
      → Moves P px S i (copying np ofd nfd offset bsize) s m
  unfolding Uses Rel Sound copy_tail left IsWaiting
  last_step i np ofd nfd offset bsize s m below linked short last_one sane files
        (ep, same, ne, reader, writer) =
      let np' : FilePath = npath P px S in
      let fs : Fs = px.view s.world in
      let nm : Option Bytes = name P px S in
      let r = copy-Ready P px S i m sane ep in
      let sound =
        subst (λ q. Sound P.aes S.ok nm S.short S.plain r.file i q) ep (r.sound i below) in
      let fair = args_of-Fair (length S.plain) i S.small S.enough below in
      let bytes : Bytes = slice offset 4096 S.plain in
      let cipher : Bytes = encrypt_blocks P.aes 0 (length bytes / 16) bytes in
      let shelf : Files P px S s.world (some r.file) =
        subst (λ x. Files P px S s.world x) r.new_eq files in
      let (w1, e1, v1) =
        px.pread_lem ofd 4096 offset s.world (Reader-At reader files.old_content) in
      let k : ℕ = (fs.descriptions writer.description).inode in
      let holds : Stands fs nfd writer.description k r.file =
        Writer-Stands writer (On-content P px S k writer.found shelf) in
      let holds1 : Stands (px.view w1) nfd writer.description k r.file = rw v1 holds in
      let in_place1 : WritesInPlace (px.view w1) writer.description = rw v1 writer.in_place in
      let inside : offset + 4096 ≤ length r.file = omega (arith, r.size_eq, sound.1, fair.inside) in
      let m1 : Model P px S = turned P px S i m in
      let m2 : Model P px S = turned P px S i m1 in
      let (en2, ep2) = two_turns i offset bsize m below short last_one ep r.new_eq in
      let sane2 : Sane P px S m2 = Sane-turned P px S i m1 (Sane-turned P px S i m sane) in
      let others : (j : ℕ) → i ≢ j → m2.pc j ≡ m.pc j =
        λ j o. turned_other P px S i j m1 o ∙ turned_other P px S i j m o in
      let stays : IsReady P px S m → IsReady P px S m2 =
        λ q. Ready-turned P px S i m1 below (Ready-turned P px S i m below q) in
      let result : some np ≡ result_of np' i =
        ap some same ∙ rw (eq→== (i + 1) threads_count last_one) refl in
      elim (dec_lt 0 (length bytes)) [
        | yes more ↦
            let (w2, e2, v2) =
              px.pwrite_lem nfd cipher (offset + 4096) w1 holds1 in_place1 inside in
            let file' : Bytes = write_at (offset + 4096) cipher r.file in
            let view2 : px.view w2 ≡ rewritten k file' fs = v2 ∙ ap (rewritten k file') v1 in
            ending i np ofd nfd offset bsize s m m2 (some np) w2 sane2 others stays ep2 result
              (rw (en2, lt→ltb 0 (length bytes) more, view2)
                (On-rewritten P px S k file' writer.found shelf))
              (rw view2 (Reader-rewritten k file' reader))
              (rw view2 (Writer-rewritten k file' writer)) ne
              (record {
                spares = rw view2 (Spares-rewritten fs k file');
                found = λ j h. rw view2 h;
              })
              (λ w3 w4 e3 e4.
                rest_run P S.path (args P px S i) np ofd nfd offset bsize s linked short last_one e1
                  more e2 e3 e4)
        | no none_left ↦
            ending i np ofd nfd offset bsize s m m2 (some np) w1 sane2 others stays ep2 result
              (rw (en2, le→ltb 0 (length bytes) (omega (arith, none_left)), v1) shelf)
              (rw v1 reader) (rw v1 writer) ne
              (record { spares = Spares-Same (Same-refl v1); found = λ j h. rw v1 h })
              (λ w3 w4 e3 e4.
                nothing_run P S.path (args P px S i) np ofd nfd offset bsize s linked short last_one
                  e1 (omega (arith, none_left)) e3 e4)
      ]
