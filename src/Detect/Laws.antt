-- ===== src/Detect/Laws.antt =====
-- `is_encrypted_by_fd` on an open file.
use Prim.Native.Nat.{bit_and}
use tencryption.Prelude.{
  ℕ, suc, ◌+◌, ◌≤◌, ◌≡◌, ◌≢◌, refl, true, sym, ap, ◌∙◌, some, ◌++◌, arith, length, take, replicate,
  length-replicate, length-take, ne→==, append-nil,
}
use tencryption.Prelude.Int.{ℤ, pos, is_pos}
use tencryption.Prelude.Slices.{write_at, drop-all}
use tencryption.Prelude.Exec.{◌>>=◌, ◌>>◌}
use tencryption.Header.{header_size, is_encrypted_by_file_header}
use tencryption.Platform.{Platform, Process, Bytes, Syscall, linker, o_wronly}
use tencryption.Files.{At, At-duplicated, At-duplicated_other, At-closed, Posix, some-none}
use tencryption.Detect.{header_buffer, is_encrypted_by_fd}
use tencryption.Linker.Gate.{AllLinked}

-- A whole header in the cleared buffer.
pub header_buffer_lem : (bytes : Bytes) → length bytes ≡ header_size → header_buffer bytes ≡ bytes
unfolding write_at
header_buffer_lem bytes h =
    let zeros : Bytes = replicate header_size 0 in
    let z : length zeros ≡ header_size = length-replicate header_size 0 in
    ap (λ l. bytes ++ l) (drop-all (0 + length bytes) zeros (omega (arith, h, z)))
    ∙ append-nil bytes

pub is_pos-suc : (n : ℕ) → is_pos (pos (suc n)) ≡ true
is_pos-suc n = ground arith

module _ (P : Platform) (px : Posix P) where
  is_encrypted_run :
      (fd nfd : ℕ) (s : Process P.World) {rc n : ℤ} {bytes : Bytes} {w1 w2 w3 : P.World}
      → AllLinked s
      → bit_and (P.status_flags (pos fd) s.world) o_wronly ≢ o_wronly
      → P.sys_dup (pos fd) s.world ≡ (pos (suc nfd), w1)
      → P.sys_pread (pos (suc nfd)) header_size 0 w1 ≡ ((n, bytes), w2)
      → P.sys_close (pos (suc nfd)) w2 ≡ (rc, w3)
      → is_encrypted_by_fd P (pos fd) s
        ≡ some (is_encrypted_by_file_header (header_buffer bytes), record s { world = w3 })
  unfolding is_encrypted_by_fd
  is_encrypted_run fd nfd s linked readable e1 e2 e3 =
      rw
        (
          ne→== _ o_wronly readable,
          ◌>>=◌,
          linker,
          linked Syscall.dup,
          e1,
          is_pos-suc nfd,
          ◌>>=◌,
          linker,
          linked Syscall.pread,
          e2,
          ◌>>◌,
          ◌>>=◌,
          linker,
          linked Syscall.close,
          e1,
          e3,
          e2,
        )
        refl

  -- A readable descriptor of a file that is not shorter than a header: the answer is what the
  -- file's first bytes say, and the descriptor stands where it stood.
  pub is_encrypted_by_fd_lem :
      (fd : ℕ) (s : Process P.World) {d i o : ℕ} {file : Bytes}
      → AllLinked s
      → bit_and (P.status_flags (pos fd) s.world) o_wronly ≢ o_wronly
      → At (px.view s.world) (pos fd) d i o file
      → header_size ≤ length file
      → (w : P.World) × (is_encrypted_by_fd P (pos fd) s
          ≡ some (is_encrypted_by_file_header (take header_size file), record s { world = w }))
        × At (px.view w) (pos fd) d i o file
  is_encrypted_by_fd_lem fd s {d} {i} {o} {file} linked readable at long =
      let (n, w1, e1, free, v1) = px.dup_lem (pos fd) s.world at.stands in
      let nfd : ℤ = pos (suc n) in
      let ne : nfd ≢ pos fd =
        λ e. some-none (sym at.stands ∙ ap (px.view s.world).fds (sym e) ∙ free) in
      let nat1 : At (px.view w1) nfd d i o file = rw v1 (At-duplicated _ (pos fd) nfd at) in
      let at1 : At (px.view w1) (pos fd) d i o file =
        rw v1 (At-duplicated_other _ (pos fd) nfd at ne) in
      let (w2, e2, v2) = px.pread_lem nfd header_size 0 w1 nat1 in
      let at2 : At (px.view w2) (pos fd) d i o file = rw v2 at1 in
      let nstands : (px.view w2).fds nfd ≡ some d = rw v2 nat1.stands in
      let (w3, e3, v3) = px.close_lem nfd w2 nstands in
      (
        w3,
        is_encrypted_run fd n s linked readable e1 e2 e3
            ∙ ap (λ l. some (is_encrypted_by_file_header l, record s { world = w3 }))
                (header_buffer_lem (take header_size file)
                  (omega (arith, length-take header_size file))),
        rw v3 (At-closed _ (pos fd) nfd at2 ne),
      )
