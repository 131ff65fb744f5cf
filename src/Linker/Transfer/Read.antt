-- ===== src/Linker/Transfer/Read.antt =====
-- `read` on a tracked descriptor gives the decrypted bytes of the file.
use tencryption.Prelude.{
  ℕ, zero, suc, ◌+◌, ◌-◌, ◌/◌, ◌%◌, ◌≤◌, ◌≡◌, refl, sym, ap, ap₂, ◌∙◌, true, some, [], arith,
  length, drop, replicate, lt→ltb, le→ltb, length-take, length-drop, if◌then◌else◌,
}
use tencryption.Prelude.Int.{ℤ, pos, minus_one, is_pos, ◌+ℤ◌}
use tencryption.Prelude.Slices.{slice, write_at, take-of_zero}
use tencryption.Prelude.Exec.{◌>>=◌}
use tencryption.Cipher.{IsAes, decrypt_blocks}
use tencryption.Cipher.Blocks.{all_blocks, dec}
use tencryption.Header.{header_size}
use tencryption.Platform.{Platform, Process, Bytes, FileInfo, Syscall, linker}
use tencryption.Files.{At, At-moved, Posix, moved}
use tencryption.FileInfos.{find_fd}
use tencryption.Linker.Gate.{AllLinked, SeesPlain, gate_transparent}
use tencryption.Linker.Transfer.{
  sizeof_stat, no_stat, padded_count, copy_out, decrypt_read, read_encrypted, read_checked, read,
}
use tencryption.Linker.Transfer.Padding.{copy_lem, length-all_blocks}

-- The three counts of `read` add up whether or not the third is tested to be positive.
size_lem :
    (n1 n2 n3 : ℕ)
    → (if is_pos (pos n3) then pos n1 +ℤ pos n2 +ℤ pos n3 else pos n1 +ℤ pos n2)
      ≡ pos (n1 + n2 + n3)
size_lem n1 n2 n3 = ground arith

module _ (P : Platform) (px : Posix P) (ok : IsAes P.aes) where
  -- What a content would be if every complete block of it were decrypted.
  abbrev pub decrypted : Bytes → Bytes
  decrypted file = all_blocks (dec P.aes ok) file

  -- The run of `decrypt_read` from the answers of its calls.
  decrypt_read_run :
      (fd : ℤ) (count offset : ℕ) (s : Process P.World) (n1 n2 n3 : ℕ) (b1 b2 b3 : Bytes)
      (w1 w2 w3 w4 : P.World)
      → AllLinked s
      → P.calloc (padded_count offset count) s.world ≡ (true, w1)
      → P.sys_pread fd (offset % 16) (offset - offset % 16) w1 ≡ ((pos n1, b1), w2)
      → P.sys_read fd count w2 ≡ ((pos n2, b2), w3)
      → P.sys_pread fd (16 - (count + offset) % 16) (offset + count) w3 ≡ ((pos n3, b3), w4)
      → decrypt_read P fd count offset s
        ≡ copy_out P offset
            (pos (n1 + n2 + n3))
            (pos n2)
            (write_at
              (offset % 16 + count)
              b3
              (write_at (offset % 16) b2 (write_at 0 b1 (replicate (padded_count offset count) 0))))
            (record s { world = w4 })
  unfolding decrypt_read
  decrypt_read_run fd count offset s n1 n2 n3 b1 b2 b3 w1 w2 w3 w4 linked e1 e2 e3 e4 =
      rw
        (
          e1,
          ◌>>=◌,
          linker,
          linked Syscall.pread,
          e2,
          linker,
          linked Syscall.read,
          e3,
          linker,
          linked Syscall.pread,
          e4,
          e2,
          e3,
        )
        (ap
          (λ z.
            copy_out P offset z (pos n2)
              (write_at (offset % 16 + count) b3 (
                write_at (offset % 16) b2
                  (write_at 0 b1 (replicate (padded_count offset count) 0))))
              (record s { world = w4 }))
          (size_lem n1 n2 n3))

  -- The copy into the caller's buffer, when no count is negative.
  copy_out_lem :
      (offset n size : ℕ) (buf : Bytes) (s : Process P.World)
      → n ≤ size
      → copy_out P offset (pos size) (pos n) buf s
        ≡ some ((pos n, slice (offset % 16) n (decrypt_blocks P.aes 0 (size / 16) buf)), s)
  unfolding copy_out
  copy_out_lem offset n zero buf s h =
      ap (λ l. some ((pos n, l), s)) (sym (take-of_zero n _ (omega arith)))
  copy_out_lem offset n (suc size) buf s h = rw (lt→ltb 0 (suc size) (omega arith))

  -- From an offset in a file, the counted bytes that are read are those of the file with its
  -- blocks decrypted; fewer where the file ends. The descriptor moves by as many bytes.
  pub decrypt_read_lem :
      (fd : ℤ) (count offset : ℕ) (s : Process P.World) {d i : ℕ} {file : Bytes}
      → AllLinked s
      → At (px.view s.world) fd d i offset file
      → let out = slice offset count (decrypted file) in
        (w : P.World) × (decrypt_read P fd count offset s
          ≡ some ((pos (length out), out), record s { world = w }))
        × (px.view w ≡ moved d (offset + length out) (px.view s.world))
  decrypt_read_lem fd count offset s {d} {i} {file} linked at =
      let (w1, e1, v1) = px.calloc_lem (padded_count offset count) s.world in
      let at1 : At (px.view w1) fd d i offset file = rw v1 at in
      let (w2, e2, v2) = px.pread_lem fd (offset % 16) (offset - offset % 16) w1 at1 in
      let at2 : At (px.view w2) fd d i offset file = rw v2 at1 in
      let (w3, e3, v3) = px.read_lem fd count w2 at2 in
      let at3 : At (px.view w3) fd d i (offset + length (slice offset count file)) file =
        rw v3 (At-moved _ fd _ at2) in
      let (w4, e4, v4) = px.pread_lem fd (16 - (count + offset) % 16) (offset + count) w3 at3 in
      let same : length (slice offset count (decrypted file)) ≡ length (slice offset count file) =
        omega (
          arith,
          length-take count (drop offset (decrypted file)),
          length-drop offset (decrypted file),
          length-all_blocks P.aes ok file,
          length-take count (drop offset file),
          length-drop offset file,
        ) in
      (
        w4,
        decrypt_read_run fd count offset s _ _ _ _ _ _ w1 w2 w3 w4 linked e1 e2 e3 e4
            ∙ copy_out_lem offset _ _ _ _ (omega arith)
            ∙ ap₂ (λ (n : ℕ) (l : Bytes). some ((pos n, l), record s { world = w4 })) (sym same)
                (copy_lem P.aes ok file (replicate (padded_count offset count) 0) offset count),
        v4
            ∙ v3
            ∙ ap (λ fs. moved d (offset + length (slice offset count file)) fs) (v2 ∙ v1)
            ∙ ap (λ n. moved d (offset + n) (px.view s.world)) (sym same),
      )

  -- From a position behind the header on a tracked or encrypted descriptor.
  read_encrypted_lem :
      (fd : ℤ) (count offset : ℕ) (s : Process P.World) {d i : ℕ} {file : Bytes}
      → AllLinked s
      → At (px.view s.world) fd d i offset file
      → header_size ≤ offset
      → let out = slice offset count (decrypted file) in
        (w : P.World) × (read_encrypted P fd count s
          ≡ some ((pos (length out), out), record s { world = w }))
        × (px.view w ≡ moved d (offset + length out) (px.view s.world))
  unfolding read_encrypted
  read_encrypted_lem fd count offset s {d} {i} {file} linked at behind =
      let (w1, e1, v1) = px.tell_lem fd s.world at in
      let at1 : At (px.view w1) fd d i offset file = rw v1 at in
      let (w, e, v) = decrypt_read_lem fd count offset (record s { world = w1 }) linked at1 in
      (
        w,
        rw (◌>>=◌, linked Syscall.lseek, e1, le→ltb offset header_size behind) e,
        v ∙ ap (λ fs. moved d (offset + length (slice offset count (decrypted file))) fs) v1,
      )

  -- From the start of the file: the descriptor is moved behind the header first.
  read_encrypted_start :
      (fd : ℤ) (count : ℕ) (s : Process P.World) {d i : ℕ} {file : Bytes}
      → AllLinked s
      → At (px.view s.world) fd d i 0 file
      → let out = slice header_size count (decrypted file) in
        (w : P.World) × (read_encrypted P fd count s
          ≡ some ((pos (length out), out), record s { world = w }))
        × (px.view w ≡ moved d (header_size + length out) (moved d header_size (px.view s.world)))
  unfolding read_encrypted
  read_encrypted_start fd count s {d} {i} {file} linked at =
      let (w1, e1, v1) = px.tell_lem fd s.world at in
      let at1 : At (px.view w1) fd d i 0 file = rw v1 at in
      let (w2, e2, v2) = px.seek_lem fd header_size w1 at1 in
      let at2 : At (px.view w2) fd d i header_size file = rw v2 (At-moved _ fd _ at1) in
      let (w, e, v) = decrypt_read_lem fd count header_size (record s { world = w2 }) linked at2 in
      (
        w,
        rw (◌>>=◌, linked Syscall.lseek, e1, e2, linked Syscall.lseek) e,
        v
            ∙ ap
                (λ fs. moved d (header_size + length (slice header_size count (decrypted file))) fs)
                (v2 ∙ ap (λ fs. moved d header_size fs) v1),
      )

  -- The tests of `read` on a tracked descriptor of a regular file lead to the decryption.
  read_checked_lem :
      (fd : ℤ) (count : ℕ) (s : Process P.World) {d i o : ℕ} {file : Bytes} {info : FileInfo}
      → AllLinked s
      → At (px.view s.world) fd d i o file
      → find_fd fd s.file_info_list ≡ some info
      → (w : P.World) × (read_checked P fd count s
          ≡ read_encrypted P fd count (record s { world = w }))
        × (px.view w ≡ px.view s.world)
  unfolding read_checked
  read_checked_lem fd count s {d} {i} {o} {file} linked at listed =
      let (w1, e1, v1) = px.calloc_lem sizeof_stat s.world in
      let at1 : At (px.view w1) fd d i o file = rw v1 at in
      let (w2, e2, v2) = px.fstat_lem fd no_stat w1 at1 in
      (w2, rw (e1, ◌>>=◌, linked Syscall.fstat, e2, listed) refl, v2 ∙ v1)

  read_transparent :
      (fd : ℤ) (count : ℕ) {s t : Process P.World}
      → SeesPlain P s t
      → read P fd count s ≡ read_checked P fd count t
  unfolding read
  read_transparent fd count sees =
      gate_transparent P Syscall.read (minus_one, []) (linker P Syscall.read (P.sys_read fd count))
        (read_checked P fd count) sees

  -- `read` on a tracked descriptor, in a process that sees plain text, at a position behind the
  -- header: it returns the bytes of the decrypted file from there on, `count` of them or as many
  -- as there are, and moves the position by as many.
  pub read_lem :
      (fd : ℤ) (count offset : ℕ) {s t : Process P.World} {d i : ℕ} {file : Bytes} {info : FileInfo}
      → SeesPlain P s t
      → At (px.view t.world) fd d i offset file
      → find_fd fd t.file_info_list ≡ some info
      → header_size ≤ offset
      → let out = slice offset count (decrypted file) in
        (w : P.World) × (read P fd count s ≡ some ((pos (length out), out), record t { world = w }))
        × (px.view w ≡ moved d (offset + length out) (px.view t.world))
  read_lem fd count offset {t} {d} {i} {file} sees at listed behind =
      let (w1, e1, v1) = read_checked_lem fd count t sees.linked at listed in
      let at1 : At (px.view w1) fd d i offset file = rw v1 at in
      let (w, e, v) =
        read_encrypted_lem fd count offset (record t { world = w1 }) sees.linked at1 behind in
      (
        w,
        read_transparent fd count sees ∙ e1 ∙ e,
        v ∙ ap (λ fs. moved d (offset + length (slice offset count (decrypted file))) fs) v1,
      )

  -- `read` on a tracked descriptor at position 0, in a process that sees plain text: it returns
  -- the bytes of the decrypted file from behind the header on, `count` of them or as many as there
  -- are, and leaves the position behind them.
  pub read_start :
      (fd : ℤ) (count : ℕ) {s t : Process P.World} {d i : ℕ} {file : Bytes} {info : FileInfo}
      → SeesPlain P s t
      → At (px.view t.world) fd d i 0 file
      → find_fd fd t.file_info_list ≡ some info
      → let out = slice header_size count (decrypted file) in
        (w : P.World) × (read P fd count s ≡ some ((pos (length out), out), record t { world = w }))
        × (px.view w ≡ moved d (header_size + length out) (moved d header_size (px.view t.world)))
  read_start fd count {t} {d} {i} {file} sees at listed =
      let (w1, e1, v1) = read_checked_lem fd count t sees.linked at listed in
      let at1 : At (px.view w1) fd d i 0 file = rw v1 at in
      let (w, e, v) = read_encrypted_start fd count (record t { world = w1 }) sees.linked at1 in
      (
        w,
        read_transparent fd count sees ∙ e1 ∙ e,
        v
            ∙ ap
                (λ fs.
                  moved d (header_size + length (slice header_size count (decrypted file)))
                    (moved d header_size fs))
                v1,
      )
