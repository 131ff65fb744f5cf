-- ===== src/Linker/Untrusted.antt =====
-- `open` and `read` in a process that does not get plain text.
use tencryption.Prelude.{
  ℕ, suc, ◌≡◌, ◌≢◌, refl, ◌∙◌, true, false, some, [], ne→==, length, if◌then◌else◌,
}
use tencryption.Prelude.Int.{ℤ, pos, minus_one}
use tencryption.Prelude.Exec.{◌>>=◌}
use tencryption.Prelude.Slices.{slice}
use tencryption.Cipher.{IsAes}
use tencryption.Platform.{
  Platform, Process, Bytes, FilePath, Run, Syscall, linker, has, reads, o_creat, o_excl, o_trunc,
}
use tencryption.Access.{is_trust_process, get_domain_state}
use tencryption.Files.{At, At-opened, Posix}
use tencryption.Linker.{gate}
use tencryption.Linker.Gate.{AllLinked}
use tencryption.Linker.Open.{open_file, open_transparent}
use tencryption.Linker.Session.{open_and_read}
use tencryption.Linker.Transfer.{read, read_checked}
use tencryption.Linker.Transfer.Stored.{stored}

-- The library runs in `s`, and the process is not trusted, or it is and the lookup of its
-- domain's state ends in `t` with encryption off.
pub data SeesCipher (P : Platform) (s : Process P.World) : Process P.World → Type 0 where
  untrusted :
      s.linker_running_state ≢ 0 → AllLinked s → is_trust_process P s.world ≡ 0 → SeesCipher P s s
  disabled :
      {t : Process P.World}
      → s.linker_running_state ≢ 0
      → AllLinked s
      → is_trust_process P s.world ≡ 1
      → get_domain_state P s ≡ some (pos 0, t)
      → SeesCipher P s t

module _ (P : Platform) {A : Type 0} (c : Syscall) (failed : A) (plain transparent : Run P A) where
  gate-plain :
      {s t : Process P.World} → SeesCipher P s t → gate P c failed plain transparent s ≡ plain t
  unfolding gate
  gate-plain {s} (untrusted running linked refused) =
      rw
        (
          ne→== s.linker_running_state 0 running,
          ne→== s.linker_running_state 0 running,
          linked c,
          refused,
        )
        refl
  gate-plain {s} (disabled running linked trusted off) =
      rw
        (
          ne→== s.linker_running_state 0 running,
          ne→== s.linker_running_state 0 running,
          linked c,
          trusted,
          ◌>>=◌,
          off,
        )
        refl

-- The process does not get plain text, whatever happens outside of it.
abbrev pub AlwaysCipher : (P : Platform) → Process P.World → Type 0
AlwaysCipher P s = (w : P.World) → SeesCipher P (record s { world = w }) (record s { world = w })

loaded : {P : Platform} {s t : Process P.World} → SeesCipher P s t → AllLinked s
loaded (untrusted running linked refused) = linked
loaded (disabled running linked trusted off) = linked

module _ (P : Platform) (px : Posix P) (ok : IsAes P.aes) where
  open_cipher :
      (threads : FilePath → ℕ → Run P ℕ) (path : FilePath) (flags argument : ℕ)
      (s : Process P.World) {fd : ℤ} {w : P.World}
      → SeesCipher P s s
      → P.sys_open path flags (if has flags o_creat then argument else 0) s.world ≡ (fd, w)
      → open_file P threads path flags argument s ≡ some (fd, record s { world = w })
  unfolding open_file linker
  open_cipher threads path flags argument s sees e =
      let mode : ℕ = if has flags o_creat then argument else 0 in
      gate-plain P Syscall.open_file minus_one
        (linker P Syscall.open_file (P.sys_open path flags mode))
        (open_transparent P threads path flags mode) sees
      ∙ rw (linker, loaded sees Syscall.open_file, e) refl

  read_cipher :
      (fd : ℤ) (count : ℕ) (s : Process P.World) {result : ℤ × Bytes} {w : P.World}
      → SeesCipher P s s
      → P.sys_read fd count s.world ≡ (result, w)
      → read P fd count s ≡ some (result, record s { world = w })
  unfolding read linker
  read_cipher fd count s sees e =
      gate-plain P Syscall.read (minus_one, []) (linker P Syscall.read (P.sys_read fd count))
        (read_checked P fd count) sees
      ∙ rw (linker, loaded sees Syscall.read, e) refl

  -- `open` of a stored content for reading, with flags that neither empty it nor want it to be new,
  -- and a first `read`, in a process that is not trusted, or whose domain has encryption off,
  -- throughout: the process gets the bytes of the file from its header on, not those of the plain
  -- content, it tracks nothing new, and the contents of all files stay.
  pub open_and_read_cipher :
      (threads : FilePath → ℕ → Run P ℕ) (path : FilePath) (flags argument count : ℕ)
      (header plain : Bytes) (s : Process P.World) {i : ℕ}
      → AlwaysCipher P s
      → reads flags ≡ true
      → has flags o_trunc ≡ false
      → has flags o_excl ≡ false
      → (px.view s.world).resolve path ≡ some i
      → (px.view s.world).content i ≡ stored P.aes ok header plain
      → let out = slice 0 count (stored P.aes ok header plain) in
        (w : P.World) × (open_and_read P threads path flags argument count s
          ≡ some ((pos (length out), out), record s { world = w }))
        × ((px.view w).content ≡ (px.view s.world).content)
  open_and_read_cipher threads path flags argument count header plain s {i} always readable kept old
        found content =
      let file : Bytes = stored P.aes ok header plain in
      let (n, d, w1, e1, free, unused, v1) =
        px.open_lem path flags (if has flags o_creat then argument else 0) s.world found kept old in
      let fd : ℤ = pos (suc n) in
      let at1 : At (px.view w1) fd d i 0 file =
        rw v1 (At-opened (px.view s.world) fd d i flags content readable) in
      let (w2, e2, v2) = px.read_lem fd count w1 at1 in
      (
        w2,
        rw (◌>>=◌, open_cipher threads path flags argument s (always s.world) e1)
            (read_cipher fd count (record s { world = w1 }) (always w1) e2),
        rw (v2, v1) refl,
      )
