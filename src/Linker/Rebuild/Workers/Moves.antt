-- ===== src/Linker/Rebuild/Workers/Moves.antt =====
-- `pthread_rfs_run`: what is to show of a step of a thread with its calls, and what the threads on
-- the contents say of its place.
use native.Mathlib.Decide.{ℕ_discrete}
use mathlib.Core.Path.{subst}
use tencryption.Prelude.{
  ℕ, ◌+◌, ◌*◌, ◌^◌, ◌≤◌, ◌<◌, ◌≡◌, ◌≢◌, ◌⊎◌, refl, sym, ap, ◌∙◌, Option, none, some, ◌++◌, length,
  eq→==, ◌==◌, if◌then◌else◌,
}
use tencryption.Prelude.Int.{ℤ}
use tencryption.Prelude.Text.{codes}
use tencryption.Cipher.{IsAes}
use tencryption.Header.{header_size, name_offset, name_bytes}
use tencryption.Detect.{cmdline_path}
use tencryption.Detect.Name.{name_of}
use tencryption.Linker.Rebuild.File.{threads_count}
use tencryption.Linker.Rebuild.Threads.{
  Args, args_of, average_of, Pc, spin, copy, step, Threads, turn,
}
use tencryption.Linker.Rebuild.Threads.Sound.{Sound}
use tencryption.Linker.Rebuild.Threads.Result.{
  Early, creating, extending, heading, Inv, early, ready, Ready, turn_run, turn-Inv, turn-Ready,
}
use tencryption.Linker.Rebuild.Threads.Ends.{turn_other}
use tencryption.Linker.Rebuild.Workers.{Place, advance}
use tencryption.Linker.Rebuild.Workers.Files.{Shelf, Shelf-agree, Shelf-rewritten, new_content}
use tencryption.Linker.Rebuild.Workers.Places.{Uses, Frame, Rel, IsWaiting, left}
use tencryption.Platform.{Platform, Process, Bytes, FilePath, path_max}
use tencryption.Files.{Fs, Posix, rewritten}

-- The old file and the process: the inodes of the file and of the command line, the path, the
-- content, and conditions on their sizes.
pub record Setting (P : Platform) (px : Posix P) : Type 0 where
  pub ok : IsAes P.aes
  pub path : FilePath
  pub plain : Bytes
  pub text : Bytes
  pub pid : ℕ
  pub name_inode : ℕ
  pub old_inode : ℕ
  pub same_pid : (w : P.World) → P.getpid w ≡ pid
  pub shorter : length (name_of P px text) < P.process_name_max
  pub short : name_offset + length (name_bytes (some (name_of P px text))) ≤ header_size
  pub small : length plain + header_size < 2 ^ 31
  pub enough : average_of (length plain) * 3 ≤ length plain
  pub fits : length path + 3 ≤ path_max

spin-copy : {o b : ℕ} → spin ≢ copy o b
spin-copy h = cc

module _ (P : Platform) (px : Posix P) (S : Setting P px) where
  abbrev pub npath : FilePath
  npath = S.path ++ codes ".s"

  abbrev pub name : Option Bytes
  name = some (name_of P px S.text)

  abbrev pub Model : Type 0
  Model = Threads P.aes name S.plain

  abbrev pub Sane : Model → Type 0
  Sane m = Inv P.aes S.ok name S.short S.plain S.small S.enough m

  abbrev pub IsReady : Model → Type 0
  IsReady m = Ready P.aes S.ok name S.short S.plain S.small S.enough m

  abbrev pub args : ℕ → Args
  args i = args_of (length S.plain) i

  abbrev pub Files : P.World → Option Bytes → Type 0
  Files w new =
      Shelf S.path npath (cmdline_path S.pid) S.old_inode S.name_inode S.plain S.text (px.view w)
        new

  -- A step of the thread `i`, which is none, one or two steps of the thread on the contents.
  pub record Moves (i : ℕ) (p : Place) (s : Process P.World) (m : Model) : Type 0 where
    pub next : Place
    pub world : P.World
    pub run : advance P S.path (args i) p s ≡ some (next, record s { world = world })
    pub model : Model
    pub sane : Sane model
    pub others : (k : ℕ) → i ≢ k → model.pc k ≡ m.pc k
    pub files : Files world model.new
    pub rel : Rel npath S.old_inode (px.view world) (args i) next (model.pc i)
    pub frame : Frame (Uses p) npath (px.view s.world) (px.view world)
    pub fresh : (g : ℤ) → Uses next g → Uses p g ⊎ ((px.view s.world).fds g ≡ none)
    pub stays : IsReady m → IsReady model
    pub closer :
        (IsWaiting p → IsReady m) → 0 < left (args i) p → left (args i) next < left (args i) p

  abbrev pub turned : ℕ → Model → Model
  turned i m = turn P.aes name S.plain i m

  pub Sane-turned : (i : ℕ) (m : Model) → Sane m → Sane (turned i m)
  Sane-turned i m sane = turn-Inv P.aes S.ok name S.short S.plain S.small S.enough i m sane

  pub Ready-turned : (i : ℕ) (m : Model) → i < threads_count → IsReady m → IsReady (turned i m)
  Ready-turned i m below r = turn-Ready P.aes S.ok name S.short S.plain S.small S.enough i m below r

  pub turned_other : (i k : ℕ) (m : Model) → i ≢ k → (turned i m).pc k ≡ m.pc k
  turned_other i k m ne = turn_other P.aes name S.plain i k m ne

  -- The files of the setting in a state of the files.
  abbrev pub On : Fs → Option Bytes → Type 0
  On fs new = Shelf S.path npath (cmdline_path S.pid) S.old_inode S.name_inode S.plain S.text fs new

  pub On-agree :
      {a b : Fs} {new : Option Bytes}
      → b.resolve ≡ a.resolve
      → b.content ≡ a.content
      → On a new
      → On b new
  On-agree = Shelf-agree S.path npath (cmdline_path S.pid) S.old_inode S.name_inode S.plain S.text

  pub On-rewritten :
      {fs : Fs} {file : Bytes} (k : ℕ) (file' : Bytes)
      → fs.resolve npath ≡ some k
      → On fs (some file)
      → On (rewritten k file' fs) (some file')
  On-rewritten =
      Shelf-rewritten S.path npath (cmdline_path S.pid) S.old_inode S.name_inode S.plain S.text

  pub On-content :
      {fs : Fs} {file : Bytes} (k : ℕ)
      → fs.resolve npath ≡ some k
      → On fs (some file)
      → fs.content k ≡ file
  On-content = new_content S.path npath (cmdline_path S.pid) S.old_inode S.name_inode S.plain S.text

  -- The thread on the contents, from its place.
  pub turn_new :
      (i : ℕ) (m : Model) {p p' : Pc} {new new' : Option Bytes}
      → i < threads_count
      → m.pc i ≡ p
      → m.new ≡ new
      → step P.aes name S.plain (args i) p new ≡ (p', new')
      → ((turn P.aes name S.plain i m).new ≡ new') × ((turn P.aes name S.plain i m).pc i ≡ p')
  turn_new i m {p' = p'} {new' = new'} below ep en e =
      let t : turn P.aes name S.plain i m
          ≡ record { new = new'; pc = λ j. if i == j then p' else m.pc j } =
        turn_run P.aes S.ok name S.short S.plain S.small S.enough i m below ep en e in
      (ap (λ x. x.new) t, ap (λ x. x.pc i) t ∙ ap (λ b. if b then p' else m.pc i) (eq→== i i refl))

  abbrev pub IsEarly : Option Bytes → Pc → Type 0
  IsEarly new p = Early P.aes S.ok name S.short S.plain S.small S.enough new p

  early_unique : {a b : Option Bytes} {p q : Pc} → IsEarly a p → IsEarly b q → p ≡ q → a ≡ b
  early_unique creating creating e = refl
  early_unique creating extending e = cc
  early_unique creating heading e = cc
  early_unique extending creating e = cc
  early_unique extending extending e = refl
  early_unique extending heading e = cc
  early_unique heading creating e = cc
  early_unique heading extending e = cc
  early_unique heading heading e = refl

  early-spin : {a : Option Bytes} {p : Pc} → IsEarly a p → spin ≢ p
  early-spin creating e = cc
  early-spin extending e = cc
  early-spin heading e = cc

  early-Sound :
      {a : Option Bytes} {p : Pc} (file : Bytes) (i : ℕ)
      → IsEarly a p
      → Sound P.aes S.ok name S.short S.plain file i p
      → ⊥
  unfolding Sound
  early-Sound file i creating h = h
  early-Sound file i extending h = h
  early-Sound file i heading h = h

  -- While a thread makes the new file, that file is what its place says.
  pub early_new :
      (i : ℕ) (m : Model) {new : Option Bytes} {p : Pc}
      → i < threads_count
      → Sane m
      → m.pc i ≡ p
      → IsEarly new p
      → m.new ≡ new
  early_new i m below (early new' p' en ep e' waits) ei e = elim (ℕ_discrete i 0) [
    | yes zero ↦ en ∙ early_unique e' e (sym ep ∙ ap m.pc (sym zero) ∙ ei)
    | no ne ↦ absurd (early-spin e (sym (waits i ne) ∙ ei))
  ]
  early_new i m below (ready r) ei e = absurd (
      early-Sound r.file i e
        (subst (λ q. Sound P.aes S.ok name S.short S.plain r.file i q) ei (r.sound i below)))

  early-copy : {a : Option Bytes} {p : Pc} {o b : ℕ} → IsEarly a p → p ≢ copy o b
  early-copy creating e = cc
  early-copy extending e = cc
  early-copy heading e = cc

  -- A thread that copies has the new file with its size and its header.
  pub copy-Ready :
      (i : ℕ) (m : Model) {o b : ℕ}
      → Sane m
      → m.pc i ≡ copy o b
      → Ready P.aes S.ok name S.short S.plain S.small S.enough m
  copy-Ready i m (early new' p' en ep e' waits) ei = elim (ℕ_discrete i 0) [
    | yes zero ↦ absurd (early-copy e' (sym ep ∙ ap m.pc (sym zero) ∙ ei))
    | no ne ↦ absurd (spin-copy (sym (waits i ne) ∙ ei))
  ]
  copy-Ready i m (ready r) ei = r
