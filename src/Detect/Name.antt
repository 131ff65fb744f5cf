-- ===== src/Detect/Name.antt =====
-- `get_process_name` and `file_header_init`, when the process has a file with its command line.
use tencryption.Prelude.{
  ℕ, suc, ◌+◌, ◌≤◌, ◌<◌, ◌≡◌, ◌≢◌, ne→==, refl, true, ap, ◌∙◌, some, List, [], ◌∷◌, arith, length,
  replicate, length-replicate, length-take,
}
use tencryption.Prelude.Int.{ℤ, pos}
use tencryption.Prelude.Text.{cstr}
use tencryption.Prelude.Slices.{slice, write_at, length-write_at}
use tencryption.Prelude.Exec.{◌>>=◌, ◌>>◌}
use tencryption.Header
use tencryption.Platform.{Platform, Process, Bytes, Syscall, linker, o_rdonly}
use tencryption.Files.{At, At-opened, At-moved, Posix}
use tencryption.Files.Same.{Same, Same-refl, Same-trans, Same-probe}
use tencryption.Detect.{cmdline_path, get_process_name, file_header_init}
use tencryption.Detect.Laws.{is_pos-suc}
use tencryption.Linker.Gate.{AllLinked}

length-cstr : (buf : List ℕ) → length (cstr buf) ≤ length buf
length-cstr [] = omega arith
length-cstr (c ∷ buf) = ground (arith, length-cstr buf)

module _ (P : Platform) (px : Posix P) where
  -- The buffer with the name, and the name in it.
  abbrev pub name_buffer : Bytes → Bytes
  name_buffer text = write_at 0 (slice 0 P.process_name_max text) (replicate P.process_name_max 0)

  abbrev pub name_of : Bytes → Bytes
  name_of text = cstr (name_buffer text)

  -- The process has the id `pid`, and its command line is the content `text`.
  pub record HasCommandLine (w : P.World) (pid j : ℕ) (text : Bytes) : Type 0 where
    pub same_pid : (w' : P.World) → P.getpid w' ≡ pid
    pub resolves : (px.view w).resolve (cmdline_path pid) ≡ some j
    pub content_eq : (px.view w).content j ≡ text

  -- The same, and the name ends in its buffer.
  pub record HasName (w : P.World) (pid j : ℕ) (text : Bytes) : Type 0 where
    pub command_line : HasCommandLine w pid j text
    pub shorter : length (name_of text) < P.process_name_max

pub HasName-moved :
    (P : Platform) (px : Posix P) {w w' : P.World} {pid j : ℕ} {text : Bytes}
    → (px.view w').resolve (cmdline_path pid) ≡ some j
    → (px.view w').content j ≡ text
    → HasName P px w pid j text
    → HasName P px w' pid j text
HasName-moved P px found same has = record {
  command_line = record {
    same_pid = has.command_line.same_pid;
    resolves = found;
    content_eq = same;
  };
  shorter = has.shorter;
}

pub HasName-Same :
    (P : Platform) (px : Posix P) {w w' : P.World} {pid j : ℕ} {text : Bytes}
    → Same (px.view w) (px.view w')
    → HasName P px w pid j text
    → HasName P px w' pid j text
HasName-Same P px {pid = pid} {j = j} same has =
    HasName-moved P px (ap (λ f. f (cmdline_path pid)) same.resolve_eq ∙ has.command_line.resolves)
      (ap (λ f. f j) same.content_eq ∙ has.command_line.content_eq) has

module _ (P : Platform) (px : Posix P) where
  length-name_buffer : (text : Bytes) → length (name_buffer P px text) ≡ P.process_name_max
  length-name_buffer text =
      length-write_at 0 (slice 0 P.process_name_max text) (replicate P.process_name_max 0)
        (omega arith)
        (omega (
          arith,
          length-replicate {A = ℕ} P.process_name_max 0,
          length-take P.process_name_max text,
        ))
      ∙ length-replicate {A = ℕ} P.process_name_max 0

  pub length-name_of : (text : Bytes) → length (name_of P px text) ≤ P.process_name_max
  length-name_of text = omega (arith, length-cstr (name_buffer P px text), length-name_buffer text)

  name_run :
      (pid : ℕ) (s : Process P.World) {n : ℕ} {rc count : ℤ} {bytes : Bytes} {w1 w2 w3 w4 : P.World}
      → AllLinked s
      → ((w : P.World) → P.getpid w ≡ pid)
      → P.calloc P.process_name_max s.world ≡ (true, w1)
      → P.sys_open (cmdline_path pid) o_rdonly 0 w1 ≡ (pos (suc n), w2)
      → P.sys_read (pos (suc n)) P.process_name_max w2 ≡ ((count, bytes), w3)
      → P.sys_close (pos (suc n)) w3 ≡ (rc, w4)
      → get_process_name P s
        ≡ some (some (write_at 0 bytes (replicate P.process_name_max 0)), record s { world = w4 })
  unfolding get_process_name
  name_run pid s {n} {w1} linked same e1 e2 e3 e4 =
      rw
        (
          ◌>>=◌,
          e1,
          ◌>>=◌,
          linker,
          linked Syscall.open_file,
          same w1,
          e2,
          is_pos-suc n,
          ◌>>=◌,
          linker,
          linked Syscall.read,
          e3,
          ◌>>◌,
          ◌>>=◌,
          linker,
          linked Syscall.close,
          same w1,
          e2,
          e4,
          e3,
        )
        refl

  pub get_process_name_lem :
      (s : Process P.World) {pid j : ℕ} {text : Bytes}
      → AllLinked s
      → HasCommandLine P px s.world pid j text
      → (w : P.World) × (get_process_name P s
          ≡ some (some (name_buffer P px text), record s { world = w }))
        × Same (px.view s.world) (px.view w)
  get_process_name_lem s {pid} {j} {text} linked has =
      let (w1, e1, v1) = px.calloc_lem P.process_name_max s.world in
      let found : (px.view w1).resolve (cmdline_path pid) ≡ some j = rw v1 has.resolves in
      let (n, d, w2, e2, free, unused, v2) =
        px.open_lem (cmdline_path pid) o_rdonly 0 w1 found refl refl in
      let at2 : At (px.view w2) (pos (suc n)) d j 0 text =
        rw v2 (At-opened (px.view w1) (pos (suc n)) d j o_rdonly (rw v1 has.content_eq) refl) in
      let (w3, e3, v3) = px.read_lem (pos (suc n)) P.process_name_max w2 at2 in
      let at3 : At (px.view w3) (pos (suc n)) d j (0 + length (slice 0 P.process_name_max text))
          text =
        rw v3 (At-moved (px.view w2) (pos (suc n)) _ at2) in
      let (w4, e4, v4) = px.close_lem (pos (suc n)) w3 at3.stands in
      (
        w4,
        name_run pid s linked has.same_pid e1 e2 e3 e4,
        Same-trans (Same-refl v1)
            (rw (v4, v3, v2) (Same-probe (px.view w1) (pos (suc n)) d j _ o_rdonly free unused)),
      )

  pub file_header_init_lem :
      (buffer : Bytes) (s : Process P.World) {pid j : ℕ} {text : Bytes}
      → AllLinked s
      → HasName P px s.world pid j text
      → (w : P.World) × (file_header_init P buffer s
          ≡ some
              (Header.file_header_init (some (name_of P px text)) buffer, record s { world = w }))
        × Same (px.view s.world) (px.view w)
  unfolding file_header_init
  file_header_init_lem buffer s {text = text} linked has =
      let (w, e, same) = get_process_name_lem s linked has.command_line in
      let ends : length (name_of P px text) ≢ length (name_buffer P px text) =
        λ same_size. absurd (omega (arith, same_size, has.shorter, length-name_buffer text)) in
      (
        w,
        rw (◌>>=◌, e, ne→== (length (name_of P px text)) (length (name_buffer P px text)) ends)
            refl,
        same,
      )
