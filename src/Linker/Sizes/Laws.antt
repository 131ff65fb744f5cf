-- ===== src/Linker/Sizes/Laws.antt =====
-- `fstat` on a stored content.
use Prim.Native.Nat.{bit_and}
use tencryption.Prelude.{ℕ, ◌+◌, ◌≡◌, ◌≢◌, refl, sym, ap, ◌∙◌, true, some, arith, length, take}
use tencryption.Prelude.Int.{ℤ, pos, ◌-ℤ◌, minus_one}
use tencryption.Prelude.Slices.{take-append_of_length}
use tencryption.Prelude.Exec.{◌>>=◌}
use tencryption.Cipher.{IsAes}
use tencryption.Header.{header_size, file_type_rights, is_encrypted_by_file_header}
use tencryption.Platform.{Platform, Process, Bytes, Stat, Syscall, linker, o_wronly}
use tencryption.Files.{At, Posix}
use tencryption.Detect.{is_encrypted_by_fd}
use tencryption.Detect.Laws.{is_encrypted_by_fd_lem}
use tencryption.Linker.Gate.{AllLinked, SeesPlain, gate_transparent}
use tencryption.Linker.Sizes.{fstat, fstat_transparent}
use tencryption.Linker.Transfer.Stored.{stored, length-file}

shown_size : (n size : ℕ) → size ≡ header_size + n → pos size -ℤ pos header_size ≡ pos n
shown_size n size e = ground arith

module _ (P : Platform) (px : Posix P) (ok : IsAes P.aes) where
  fstat_run :
      (fd : ℤ) (buf : Stat) (t : Process P.World) {size : ℕ} {w1 w2 : P.World}
      → AllLinked t
      → P.sys_fstat fd buf t.world ≡ ((pos 0, record { regular = true; st_size = pos size }), w1)
      → is_encrypted_by_fd P fd (record t { world = w1 })
        ≡ some (file_type_rights, record t { world = w2 })
      → fstat_transparent P fd buf t
        ≡ some (
          (pos 0, record { regular = true; st_size = pos size -ℤ pos header_size }),
          record t { world = w2 },
        )
  unfolding fstat_transparent
  fstat_run fd buf t linked e1 e2 = rw (◌>>=◌, linker, linked Syscall.fstat, e1, ◌>>=◌, e2, e1) refl

  -- `fstat` in a process that sees plain text, on a descriptor of a stored content whose header is
  -- recognised, opened to be read and without the bit of `O_WRONLY`: it succeeds with the size of the plain content, and the descriptor
  -- stands where it stood.
  pub fstat-stored :
      (fd : ℕ) (buf : Stat) (header plain : Bytes) {s t : Process P.World} {d i o : ℕ}
      → SeesPlain P s t
      → bit_and ((px.view t.world).descriptions d).flags o_wronly ≢ o_wronly
      → length header ≡ header_size
      → is_encrypted_by_file_header header ≡ file_type_rights
      → At (px.view t.world) (pos fd) d i o (stored P.aes ok header plain)
      → (w : P.World) × (fstat P (pos fd) buf s
          ≡ some (
            (pos 0, record { regular = true; st_size = pos (length plain) }),
            record t { world = w },
          ))
        × At (px.view w) (pos fd) d i o (stored P.aes ok header plain)
  unfolding fstat
  fstat-stored fd buf header plain {s} {t} {d} {i} {o} sees readable h recognised at =
      let file : Bytes = stored P.aes ok header plain in
      let size : length file ≡ header_size + length plain = length-file P.aes ok header plain h in
      let (w1, e1, v1) = px.fstat_lem (pos fd) buf t.world at in
      let at1 : At (px.view w1) (pos fd) d i o file = rw v1 at in
      let mode : bit_and (P.status_flags (pos fd) w1) o_wronly ≢ o_wronly = λ e. readable (
        sym (
          px.status_flags_lem (pos fd) o_wronly w1 (omega arith) at1.stands
          ∙ ap (λ fs. bit_and (fs.descriptions d).flags o_wronly) v1)
        ∙ e) in
      let (w2, e2, at2) =
        is_encrypted_by_fd_lem P px fd (record t { world = w1 }) sees.linked mode at1
          (omega (arith, size)) in
      let kind : is_encrypted_by_file_header (take header_size file) ≡ file_type_rights =
        ap is_encrypted_by_file_header (take-append_of_length header_size header _ h)
        ∙ recognised in
      (
        w2,
        gate_transparent P Syscall.fstat (minus_one, buf)
              (linker P Syscall.fstat (P.sys_fstat (pos fd) buf)) (fstat_transparent P (pos fd) buf)
              sees
            ∙ fstat_run (pos fd) buf t sees.linked e1
                (e2 ∙ ap (λ k. some (k, record t { world = w2 })) kind)
            ∙ ap
                (λ n.
                  some ((pos 0, record { regular = true; st_size = n }), record t { world = w2 }))
                (shown_size (length plain) (length file) size),
        at2,
      )
