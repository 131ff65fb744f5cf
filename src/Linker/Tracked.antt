-- ===== src/Linker/Tracked.antt =====
-- `lseek` and `close` on a tracked descriptor.
use mathlib.Core.Path.{subst}
use tencryption.Prelude.{
  Bool-cases, inl, inr, sym, List, if◌then◌else◌, true-false, ℕ, ◌+◌, ◌≡◌, ◌≢◌, refl, ap, ◌∙◌, none,
  some, arith,
}
use tencryption.Prelude.Int.{eqb_ℤ, eqb_ℤ_sound, eqb_ℤ_refl, ℤ, pos, ◌+ℤ◌, ◌-ℤ◌, minus_one}
use tencryption.Prelude.Exec.{◌>>=◌, ◌>>◌}
use tencryption.Header.{header_size}
use tencryption.Platform.{Platform, Process, Bytes, FileInfo, Syscall, linker, seek_set}
use tencryption.Files.{Fs, At, At-moved, Posix, moved, closed}
use tencryption.FileInfos.{find_fd, erase_fd}
use tencryption.FileInfos.Laws.{NodupFds, erase_fd-NodupFds, find_fd-erase_self, find_fd-erase_ne}
use tencryption.Linker.Open.Encrypted.{AllOpen}
use tencryption.Linker.Gate.{AllLinked, SeesPlain, gate_transparent}
use tencryption.Linker.Descriptors.{close, close_transparent}
use tencryption.Linker.Positions.{lseek, lseek_transparent}

shift : (k : ℕ) → pos k +ℤ pos header_size ≡ pos (k + header_size)
shift k = ground arith

shift-unshift : (k : ℕ) → pos (k + header_size) -ℤ pos header_size ≡ pos k
shift-unshift k = ground arith

module _ (P : Platform) (px : Posix P) where
  lseek_run :
      (fd : ℤ) (k : ℕ) (t : Process P.World) {info : FileInfo} {w : P.World}
      → AllLinked t
      → find_fd fd t.file_info_list ≡ some info
      → P.sys_lseek fd (pos (k + header_size)) seek_set t.world ≡ (pos (k + header_size), w)
      → lseek_transparent P fd (pos k) seek_set t ≡ some (pos k, record t { world = w })
  unfolding lseek_transparent
  lseek_run fd k t {w} linked listed e =
      rw (◌>>=◌, listed, linker, linked Syscall.lseek, shift k, e)
        (ap (λ n. some (n, record t { world = w })) (shift-unshift k))

  -- `lseek` with `SEEK_SET` on a tracked descriptor, in a process that sees plain text: it returns
  -- the offset that was asked for, and the position is that offset behind the header.
  pub lseek_set :
      (fd : ℤ) (k : ℕ) {s t : Process P.World} {d i o : ℕ} {file : Bytes} {info : FileInfo}
      → SeesPlain P s t
      → At (px.view t.world) fd d i o file
      → find_fd fd t.file_info_list ≡ some info
      → (w : P.World) × (lseek P fd (pos k) seek_set s ≡ some (pos k, record t { world = w }))
        × (px.view w ≡ moved d (k + header_size) (px.view t.world))
  unfolding lseek
  lseek_set fd k {s} {t} sees at listed =
      let (w, e, v) = px.seek_lem fd (k + header_size) t.world at in
      (
        w,
        gate_transparent P Syscall.lseek minus_one
              (linker P Syscall.lseek (P.sys_lseek fd (pos k) seek_set))
              (lseek_transparent P fd (pos k) seek_set) sees
            ∙ lseek_run fd k t sees.linked listed e,
        v,
      )

  close_run :
      (fd : ℤ) (t : Process P.World) {info : FileInfo} {rc : ℤ} {w1 w2 : P.World}
      → AllLinked t
      → find_fd fd t.file_info_list ≡ some info
      → P.sys_lseek fd (pos 0) seek_set t.world ≡ (pos 0, w1)
      → P.sys_close fd w1 ≡ (rc, w2)
      → close_transparent P fd t
        ≡ some (rc, record t { world = w2; file_info_list = erase_fd fd t.file_info_list })
  unfolding close_transparent
  close_run fd t linked listed e1 e2 =
      rw
        (
          ◌>>=◌,
          listed,
          ◌>>◌,
          ◌>>=◌,
          linker,
          linked Syscall.lseek,
          e1,
          linker,
          linked Syscall.close,
          e2,
        )
        refl

  pub close_tracked :
      (fd : ℤ) {s t : Process P.World} {d i o : ℕ} {file : Bytes} {info : FileInfo}
      → SeesPlain P s t
      → At (px.view t.world) fd d i o file
      → find_fd fd t.file_info_list ≡ some info
      → (w : P.World) × (close P fd s
          ≡ some (pos 0, record t { world = w; file_info_list = erase_fd fd t.file_info_list }))
        × (px.view w ≡ closed fd (moved d 0 (px.view t.world)))
  unfolding close
  close_tracked fd {s} {t} {d} {i} {file} sees at listed =
      let (w1, e1, v1) = px.seek_lem fd 0 t.world at in
      let at1 : At (px.view w1) fd d i 0 file = rw v1 (At-moved (px.view t.world) fd 0 at) in
      let (w2, e2, v2) = px.close_lem fd w1 at1.stands in
      (
        w2,
        gate_transparent P Syscall.close minus_one (linker P Syscall.close (P.sys_close fd))
              (close_transparent P fd) sees
            ∙ close_run fd t sees.linked listed e1 e2,
        v2 ∙ ap (λ fs. closed fd fs) v1,
      )

  -- `close` on a tracked descriptor, in a process that sees plain text and whose list has no
  -- duplicates: it succeeds, the position of the shared description is 0 and the descriptor closed, it
  -- is no longer tracked, and no other descriptor's entry changes.
  pub close_untracks :
      (fd : ℤ) {s t : Process P.World} {d i o : ℕ} {file : Bytes} {info : FileInfo}
      → SeesPlain P s t
      → At (px.view t.world) fd d i o file
      → find_fd fd t.file_info_list ≡ some info
      → NodupFds t.file_info_list
      → (u : Process P.World) × (close P fd s ≡ some (pos 0, u))
        × (px.view u.world ≡ closed fd (moved d 0 (px.view t.world)))
        × NodupFds u.file_info_list
        × (find_fd fd u.file_info_list ≡ none)
        × ((g : ℤ) → g ≢ fd → find_fd g u.file_info_list ≡ find_fd g t.file_info_list)
  close_untracks fd {s} {t} sees at listed nodup =
      let (w, e, v) = close_tracked fd sees at listed in
      (
        record t { world = w; file_info_list = erase_fd fd t.file_info_list },
        e,
        v,
        erase_fd-NodupFds fd t.file_info_list nodup,
        find_fd-erase_self fd t.file_info_list nodup,
        λ g ne. find_fd-erase_ne g fd t.file_info_list ne,
      )

  -- Closing a descriptor and taking it off the list keeps the tracked descriptors open.
  pub AllOpen-closed :
      (fs : Fs) (fd : ℤ) (d n : ℕ) (l : List FileInfo)
      → NodupFds l
      → AllOpen fs l
      → AllOpen (closed fd (moved d n fs)) (erase_fd fd l)
  AllOpen-closed fs fd d n l nodup open_l g h = elim (Bool-cases (eqb_ℤ fd g)) [
    | inl e ↦
        subst (λ k. find_fd k (erase_fd fd l) ≡ none) (eqb_ℤ_sound fd g e)
          (find_fd-erase_self fd l nodup)
    | inr e ↦
        find_fd-erase_ne g fd l
          (λ same. true-false (sym (eqb_ℤ_refl g) ∙ ap (λ x. eqb_ℤ x g) same ∙ e))
        ∙ open_l g (sym (ap (λ b. if b then none else fs.fds g) e) ∙ h)
  ]
