-- ===== src/Linker/Rebuild/File/Small.antt =====
-- `rebuild_file_struct` on a file of at most `4096 * THREADS_COUNT` bytes: the whole file is
-- rewritten at once.
use tencryption.Prelude.{
  ℕ, suc, ◌+◌, ◌/◌, ◌≤◌, ◌≡◌, refl, true, sym, ap, ◌∙◌, Option, some, [], ◌++◌, arith, length,
  replicate, append-nil,
}
use tencryption.Prelude.Int.{ℤ, pos, eqb_ℤ_refl}
use tencryption.Prelude.Slices.{slice, write_at, take-all, drop-all}
use tencryption.Prelude.Exec.{◌>>=◌, ◌>>◌}
use tencryption.Cipher.{IsAes, encrypt_blocks}
use tencryption.Header.{header_size, name_offset}
use tencryption.Detect.{file_header_init}
use tencryption.Detect.Laws.{is_pos-suc}
use tencryption.Detect.Name.{HasName, HasName-moved, name_of, length-name_of, file_header_init_lem}
use tencryption.Platform.{Platform, Process, Bytes, FilePath, Syscall, linker, o_rdwr}
use tencryption.Files.{Fs, At, At-opened, At-Stands, WritesInPlace, Posix, opened, rewritten}
use tencryption.Files.Same.{
  Same, Same-trans, Same-opened-closed, Same-rewritten, Same-closed, At-Same, WritesInPlace-Same,
}
use tencryption.Linker.Gate.{AllLinked}
use tencryption.Linker.Rebuild.{rebuilt, rebuilt-stored, new_header}
use tencryption.Linker.Rebuild.File.{rebuild_small}
use tencryption.Linker.Transfer.Padding.{write-behind}
use tencryption.Linker.Transfer.Stored.{stored, length-file}

-- A buffer that is at least as long as the file replaces it.
write_at-whole : (bytes file : Bytes) → length file ≤ length bytes → write_at 0 bytes file ≡ bytes
write_at-whole bytes file h =
    write-behind [] bytes file 0 refl
    ∙ ap (λ l. bytes ++ l) (drop-all (length bytes) file h)
    ∙ append-nil bytes

WritesInPlace-new : (fs : Fs) (fd : ℤ) (d i : ℕ) → WritesInPlace (opened fd d i o_rdwr fs) d
WritesInPlace-new fs fd d i = ground arith

module _ (P : Platform) (px : Posix P) where
  small_run :
      (path : FilePath) (size kind : ℕ) (buffer bytes : Bytes) (s : Process P.World) {n : ℕ}
      {rc : ℤ} {w1 w2 w3 w4 w5 w6 : P.World}
      → AllLinked s
      → P.sys_open path o_rdwr 0 s.world ≡ (pos (suc n), w1)
      → P.calloc (size + 4096) w1 ≡ (true, w2)
      → file_header_init P (replicate (size + 4096) 0) (record s { world = w2 })
        ≡ some ((kind, buffer), record s { world = w3 })
      → P.sys_pread (pos (suc n)) size 0 w3 ≡ ((pos size, bytes), w4)
      → P.sys_pwrite
          (pos (suc n))
          (encrypt_blocks P.aes 4096 (size / 16) (write_at 4096 bytes buffer))
          0
          w4
        ≡ (pos (size + 4096), w5)
      → P.sys_close (pos (suc n)) w5 ≡ (rc, w6)
      → rebuild_small P path size s ≡ some (1, record s { world = w6 })
  unfolding rebuild_small
  small_run path size kind buffer bytes s {n} linked e1 e2 e3 e4 e5 e6 =
      rw
        (
          ◌>>=◌,
          linker,
          linked Syscall.open_file,
          e1,
          is_pos-suc n,
          ◌>>=◌,
          e2,
          ◌>>=◌,
          e3,
          ◌>>=◌,
          linker,
          linked Syscall.pread,
          e1,
          e4,
          eqb_ℤ_refl (pos size),
          ◌>>=◌,
          linker,
          linked Syscall.pwrite,
          e1,
          e5,
          ◌>>◌,
          ◌>>=◌,
          linker,
          linked Syscall.close,
          e5,
          e6,
          eqb_ℤ_refl (pos (size + 4096)),
        )
        refl

module _ (P : Platform) (px : Posix P) (ok : IsAes P.aes) where
  pub rebuild_small_lem :
      (path : FilePath) (plain text : Bytes) (s : Process P.World) {i pid j : ℕ}
      → AllLinked s
      → name_offset + P.process_name_max ≤ header_size
      → (px.view s.world).resolve path ≡ some i
      → (px.view s.world).content i ≡ plain
      → HasName P px s.world pid j text
      → (w : P.World) × (rebuild_small P path (length plain) s ≡ some (1, record s { world = w }))
        × Same
            (rewritten i
              (stored P.aes ok (new_header (some (name_of P px text))) plain)
              (px.view s.world))
            (px.view w)
  unfolding rebuilt
  rebuild_small_lem path plain text s {i} {pid} {j} linked room found content named =
      let size : ℕ = length plain in
      let name : Option Bytes = some (name_of P px text) in
      let short : name_offset + length (name_of P px text) ≤ header_size =
        omega (arith, room, length-name_of P px text) in
      let (whole_eq, head, kind) = rebuilt-stored P.aes ok name short plain in
      let file : Bytes = stored P.aes ok (new_header name) plain in
      let fs : Fs = px.view s.world in
      let (n, d, w1, e1, free, unused, v1) = px.open_lem path o_rdwr 0 s.world found refl refl in
      let fd : ℤ = pos (suc n) in
      let (w2, e2, v2) = px.calloc_lem (size + 4096) w1 in
      let v21 : px.view w2 ≡ opened fd d i o_rdwr fs = v2 ∙ v1 in
      let at2 : At (px.view w2) fd d i 0 plain = rw v21 (At-opened fs fd d i o_rdwr content refl) in
      let named2 : HasName P px w2 pid j text =
        HasName-moved P px (rw v21 named.command_line.resolves)
          (rw v21 named.command_line.content_eq) named in
      let (w3, e3, same) =
        file_header_init_lem P px (replicate (size + 4096) 0) (record s { world = w2 }) linked
          named2 in
      let at3 : At (px.view w3) fd d i 0 plain = At-Same same at2 in
      let (w4, e4, v4) = px.pread_lem fd size 0 w3 at3 in
      let all : slice 0 size plain ≡ plain = take-all size plain (omega arith) in
      let at4 : At (px.view w4) fd d i 0 plain = rw v4 at3 in
      let whole : Bytes = rebuilt P.aes name plain in
      let long : length whole ≡ size + 4096 =
        ap length whole_eq ∙ length-file P.aes ok (new_header name) plain head ∙ omega arith in
      let in_place : WritesInPlace (px.view w4) d =
        rw v4 (WritesInPlace-Same fd same at2.stands (rw v21 (WritesInPlace-new fs fd d i))) in
      let (w5, e5, v5) = px.pwrite_lem fd whole 0 w4 (At-Stands at4) in_place (omega arith) in
      let at5 : (px.view w5).fds fd ≡ some d = rw v5 at4.stands in
      let (w6, e6, v6) = px.close_lem fd w5 at5 in
      (
        w6,
        small_run P px path size _ _ plain s linked e1 e2 e3
            (e4 ∙ ap (λ l. ((pos (length l), l), w4)) all) (e5 ∙ ap (λ k. (pos k, w5)) long) e6,
        Same-trans (Same-opened-closed (rewritten i file fs) fd d i o_rdwr free unused) (
            rw (v6, v5, v4, write_at-whole whole plain (omega (arith, long)), whole_eq)
              (Same-closed fd (Same-rewritten i file (rw (sym v21) same)))),
      )
