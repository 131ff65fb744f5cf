-- ===== src/User/Laws.antt =====
-- user/user.c against ports/util.c.
use tencryption.Prelude.{
  ℕ, suc, ◌+◌, ◌<◌, ◌≡◌, refl, ap, ◌∙◌, true, some, arith, length, replicate, length-take,
}
use tencryption.Prelude.Int.{ℤ, pos, is_pos}
use tencryption.Prelude.Slices.{slice, write_at}
use tencryption.Prelude.Exec.{◌>>=◌}
use tencryption.Detect.{cmdline_path, get_process_name}
use tencryption.Detect.Laws.{is_pos-suc}
use tencryption.Detect.Name.{HasCommandLine, get_process_name_lem}
use tencryption.Files.{At, At-opened, At-moved, Posix}
use tencryption.Files.Same.{Same, Same-probe}
use tencryption.Linker.Gate.{AllLinked}
use tencryption.Platform.{Platform, Process, Bytes, o_rdonly}
use tencryption.User.{package_name_max, getpname}

positive : (n : ℕ) → 0 < n → is_pos (pos n) ≡ true
positive n h = ground arith

module _ (P : Platform) (px : Posix P) where
  getpname_run :
      (pid : ℕ) (s : Process P.World) {n count : ℕ} {rc : ℤ} {bytes : Bytes} {w1 w2 w3 w4 : P.World}
      → P.getpid s.world ≡ pid
      → P.sys_open (cmdline_path pid) o_rdonly 0 s.world ≡ (pos (suc n), w1)
      → P.calloc package_name_max w1 ≡ (true, w2)
      → P.sys_read (pos (suc n)) package_name_max w2 ≡ ((pos count, bytes), w3)
      → 0 < count
      → P.sys_close (pos (suc n)) w3 ≡ (rc, w4)
      → getpname P s
        ≡ some (some (write_at 0 bytes (replicate package_name_max 0)), record s { world = w4 })
  unfolding getpname
  getpname_run pid s {n} {count} same e1 e2 e3 some_text e4 =
      rw (◌>>=◌, same, e1, is_pos-suc n, ◌>>=◌, e2, e3, positive count some_text, e4) refl

  -- `getpname` of a process whose command line is not empty, where both buffers have the same size:
  -- the name that `get_process_name` gives, and the files are as before.
  pub getpname_lem :
      (s : Process P.World) {pid j : ℕ} {text : Bytes}
      → P.process_name_max ≡ package_name_max
      → AllLinked s
      → HasCommandLine P px s.world pid j text
      → 0 < length text
      → (name : Bytes) × (w1 : P.World) × (w2 : P.World) × (getpname P s
          ≡ some (some name, record s { world = w1 }))
        × (get_process_name P s ≡ some (some name, record s { world = w2 }))
        × Same (px.view s.world) (px.view w1)
  getpname_lem s {pid} {j} {text} sizes linked named some_text =
      let (n, d, w1, e1, free, unused, v1) =
        px.open_lem (cmdline_path pid) o_rdonly 0 s.world named.resolves refl refl in
      let at1 : At (px.view w1) (pos (suc n)) d j 0 text =
        rw v1 (At-opened (px.view s.world) (pos (suc n)) d j o_rdonly named.content_eq refl) in
      let (w2, e2, v2) = px.calloc_lem package_name_max w1 in
      let at2 : At (px.view w2) (pos (suc n)) d j 0 text = rw v2 at1 in
      let bytes : Bytes = slice 0 package_name_max text in
      let (w3, e3, v3) = px.read_lem (pos (suc n)) package_name_max w2 at2 in
      let at3 : At (px.view w3) (pos (suc n)) d j (0 + length bytes) text =
        rw v3 (At-moved (px.view w2) (pos (suc n)) _ at2) in
      let (w4, e4, v4) = px.close_lem (pos (suc n)) w3 at3.stands in
      let (w, e, same) = get_process_name_lem P px s linked named in
      (
        write_at 0 bytes (replicate package_name_max 0),
        w4,
        w,
        getpname_run pid s (named.same_pid s.world) e1 e2 e3
            (omega (arith, length-take package_name_max text, some_text)) e4,
        e
            ∙ ap
                (λ m.
                  some (some (write_at 0 (slice 0 m text) (replicate m 0)), record s { world = w }))
                sizes,
        rw (v4, v3, v2, v1) (Same-probe (px.view s.world) (pos (suc n)) d j _ o_rdonly free unused),
      )
