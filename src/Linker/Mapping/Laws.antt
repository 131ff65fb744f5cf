-- ===== src/Linker/Mapping/Laws.antt =====
-- `mmap` of a stored content.
use Prim.Native.Nat.{bit_and}
use tencryption.Prelude.{
  ℕ, ◌+◌, ◌/◌, ◌%◌, ◌^◌, ◌≤◌, ◌<◌, ◌≡◌, ◌≢◌, refl, ap, ap₂, ◌∙◌, true, Option, none, some, arith,
  length, lt→ltb, ne→==,
}
use tencryption.Prelude.Int.{ℤ, pos}
use tencryption.Prelude.Slices.{slice, take-all, drop-append_of_length}
use tencryption.Prelude.Exec.{◌>>=◌}
use tencryption.Cipher.{IsAes, decrypt_blocks}
use tencryption.Cipher.Blocks.{
  all_blocks, enc, dec, enc-KeepsBlock, length-on_blocks, on_blocks-on_blocks,
  decrypt-encrypt_128bit, decrypt_blocks_lem,
}
use tencryption.Header.{header_size}
use tencryption.Platform.{Platform, Process, Bytes, FileInfo, Syscall, linker}
use tencryption.FileInfos.{find_fd}
use tencryption.Files.{At, Posix}
use tencryption.Linker.Gate.{AllLinked, SeesPlain, gate_transparent}
use tencryption.Linker.Mapping.{
  Request, map_size, map_len, map_rounds, map_prot, map_private, prot_read, map_plain, mmap,
  mmap_transparent,
}
use tencryption.Linker.Transfer.{no_stat}
use tencryption.Linker.Transfer.Stored.{stored, length-file}

-- POSIX on a private mapping of a readable file, at a multiple of the page size and not behind the
-- end of the file: its bytes are the file's.
pub record Maps (P : Platform) (px : Posix P)
    (sys_mmap : Request → ℤ → P.World → Option Bytes × P.World) : Type 0 where
  pub mmap_lem :
      (request : Request) (fd : ℤ) (w : P.World) {d i o : ℕ} {file : Bytes}
      → At (px.view w) fd d i o file
      → bit_and request.flags map_private ≢ 0
      → 0 < request.size
      → request.offset % 4096 ≡ 0
      → request.offset + request.size ≤ length file
      → (w' : P.World) × (sys_mmap request fd w
          ≡ (some (slice request.offset request.size file), w'))
        × (px.view w' ≡ px.view w)

map_len_lem : (n size : ℕ) → size ≡ header_size + n → n < 2 ^ 31 → map_len (pos size) ≡ n
map_len_lem n size e small = omega (arith, e, small)

module _ (P : Platform) (px : Posix P) (ok : IsAes P.aes)
    (sys_mmap : Request → ℤ → P.World → Option Bytes × P.World) (maps : Maps P px sys_mmap) where
  mmap_run :
      (request : Request) (fd : ℤ) (bytes : Bytes) (len : ℕ) (t : Process P.World) {info : FileInfo}
      {size : ℕ} {w1 w2 : P.World}
      → AllLinked t
      → find_fd fd t.file_info_list ≡ some info
      → bit_and request.prot prot_read ≢ 0
      → P.sys_fstat fd no_stat t.world
        ≡ ((pos 0, record { regular = true; st_size = pos size }), w1)
      → map_len (pos size) ≡ len
      → sys_mmap
          (record {
            size = map_size len;
            prot = map_prot request.prot;
            flags = request.flags;
            offset = request.offset + header_size;
          })
          fd
          w1
        ≡ (some bytes, w2)
      → mmap_transparent P sys_mmap request fd t
        ≡ some (some (decrypt_blocks P.aes 0 (map_rounds len) bytes), record t { world = w2 })
  unfolding mmap_transparent
  mmap_run request fd bytes len t linked tracked readable e1 e2 e3 =
      rw
        (
          ◌>>=◌,
          tracked,
          ne→== _ 0 readable,
          ◌>>=◌,
          linker,
          linked Syscall.fstat,
          e1,
          ◌>>=◌,
          linker,
          linked Syscall.mmap,
          e2,
          e3,
          e1,
          e2,
        )
        refl

  -- The loop over the mapped bytes gives the plain content.
  decrypted :
      (header plain : Bytes)
      → length header ≡ header_size
      → decrypt_blocks P.aes 0
          (length plain / 16)
          (slice header_size (length plain) (stored P.aes ok header plain))
        ≡ plain
  decrypted header plain h =
      let body : Bytes = all_blocks (enc P.aes ok) plain in
      let size : length body ≡ length plain =
        length-on_blocks (enc P.aes ok) (enc-KeepsBlock P.aes ok) (length plain / 16) plain
          (omega arith) in
      ap (λ l. decrypt_blocks P.aes 0 (length plain / 16) l)
        (ap (λ l. slice 0 (length plain) l) (drop-append_of_length header_size header body h)
          ∙ take-all (length plain) body (omega (arith, size)))
      ∙ decrypt_blocks_lem P.aes ok 0 (length plain / 16) body (omega (arith, size))
      ∙ on_blocks-on_blocks (enc P.aes ok) (dec P.aes ok) (enc-KeepsBlock P.aes ok)
          (decrypt-encrypt_128bit P.aes ok) (length plain / 16) plain (omega arith)

  -- A private mapping for reading, from offset 0, of a tracked descriptor of a stored content, in a
  -- process that sees plain text, where the plain content has 1 to 2^31 - 1 bytes: the memory is
  -- the whole plain content, whatever size was asked for, and the descriptor stands where it stood.
  pub mmap-stored :
      (request : Request) (fd : ℤ) (header plain : Bytes) {info : FileInfo} {s t : Process P.World}
      {d i o : ℕ}
      → SeesPlain P s t
      → find_fd fd t.file_info_list ≡ some info
      → bit_and request.prot prot_read ≢ 0
      → bit_and request.flags map_private ≢ 0
      → request.offset ≡ 0
      → length header ≡ header_size
      → 0 < length plain
      → length plain < 2 ^ 31
      → At (px.view t.world) fd d i o (stored P.aes ok header plain)
      → (w : P.World) × (mmap P sys_mmap request fd s ≡ some (some plain, record t { world = w }))
        × At (px.view w) fd d i o (stored P.aes ok header plain)
  unfolding mmap map_plain
  mmap-stored request fd header plain {s} {t} {d} {i} {o} sees tracked readable private start h
        some_left small at =
      let file : Bytes = stored P.aes ok header plain in
      let n : ℕ = length plain in
      let size : length file ≡ header_size + n = length-file P.aes ok header plain h in
      let (w1, e1, v1) = px.fstat_lem fd no_stat t.world at in
      let at1 : At (px.view w1) fd d i o file = rw v1 at in
      let big : map_size n ≡ n = rw (lt→ltb n (2 ^ 31) small) refl in
      let asked : Request = record {
        size = map_size n;
        prot = map_prot request.prot;
        flags = request.flags;
        offset = request.offset + header_size;
      } in
      let (w2, e2, v2) =
        maps.mmap_lem asked fd w1 at1 private (omega (arith, big, some_left)) (omega (arith, start))
          (omega (arith, big, start, size)) in
      (
        w2,
        gate_transparent P Syscall.mmap none (map_plain P sys_mmap request fd)
              (mmap_transparent P sys_mmap request fd) sees
            ∙ mmap_run request fd _ n t sees.linked tracked readable e1
                (map_len_lem n (length file) size small) e2
            ∙ ap (λ l. some (some l, record t { world = w2 }))
                (ap₂ (λ r l. decrypt_blocks P.aes 0 r l)
                    (let r : map_rounds n ≡ n / 16 = rw (lt→ltb n (2 ^ 31) small) refl in r)
                    (ap₂ (λ a b. slice a b file)
                      (let a : request.offset + header_size ≡ header_size = omega (arith, start) in
                        a)
                      big)
                  ∙ decrypted header plain h),
        rw v2 at1,
      )
