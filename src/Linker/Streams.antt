-- ===== src/Linker/Streams.antt =====
-- ports/linker.c, `fread`, and ports/crypto.c, `is_encrypted_by_stream`.
pub mod Laws
use tencryption.Prelude.{
  ℕ, suc, ◌+◌, ◌-◌, ◌*◌, ◌/◌, ◌%◌, not, [], replicate, ltb, ◌==◌, if◌then◌else◌,
}
use tencryption.Prelude.Int.{ℤ, pos, negsuc}
use tencryption.Prelude.Exec.{pure, ◌>>=◌, ◌>>◌}
use tencryption.Prelude.Slices.{slice, write_at}
use tencryption.Cipher.{decrypt_blocks}
use tencryption.Header.{header_size, file_type_normal, is_encrypted_by_file_header}
use tencryption.Detect.{header_buffer}
use tencryption.Linker.{gate}
use tencryption.Linker.Transfer.{padded_count}
use tencryption.Platform.{Platform, Bytes, Run, Syscall, linker, system}

-- libc's streams: `ftell`, `fseek` with `SEEK_SET`, and `fread` with a size and a number of items,
-- which gives the items read and their bytes.
pub record StreamCalls (P : Platform) : Type 1 where
  pub Stream : Type 0
  pub ftell : Stream → P.World → ℤ × P.World
  pub fseek : Stream → ℕ → P.World → ℤ × P.World
  pub sys_fread : ℕ → ℕ → Stream → P.World → (ℕ × Bytes) × P.World

module _ (P : Platform) (C : StreamCalls P) where
  -- The header read from the start, and the stream put back.
  probe_stream : C.Stream → ℕ → Run P ℕ
  probe_stream stream offset = do
    system P (C.fseek stream 0)
    (count, bytes) ← linker P Syscall.fread (C.sys_fread 1 header_size stream)
    system P (C.fseek stream offset)
    pure (is_encrypted_by_file_header (header_buffer bytes))

  probe_at : C.Stream → ℤ → Run P ℕ
  probe_at stream (negsuc n) = pure file_type_normal
  probe_at stream (pos offset) = probe_stream stream offset

  unfoldable pub is_encrypted_by_stream : C.Stream → Run P ℕ
  unfolding probe_stream probe_at linker
  is_encrypted_by_stream stream = do offset ← system P (C.ftell stream); probe_at stream offset

  -- `fread` from the allocation of `temp` on, at the offset found.
  unfoldable pub fread_blocks : C.Stream → ℕ → ℕ → Run P (ℕ × Bytes)
  unfolding linker
  fread_blocks stream count offset = do
    ok ← system P (P.calloc (padded_count offset count))
    if not ok then pure (0, []) else (do
      system P (C.fseek stream (offset - offset % 16))
      (result1, bytes_1) ← linker P Syscall.fread (C.sys_fread 1 (offset % 16) stream)
      system P (C.fseek stream offset)
      (result2, bytes_2) ← linker P Syscall.fread (C.sys_fread 1 count stream)
      system P (C.fseek stream (offset + count))
      (result3, bytes_3) ←
          linker P Syscall.fread (C.sys_fread 1 (16 - (count + offset) % 16) stream)
      system P (C.fseek stream (offset + count))
      let result = if ltb 0 result3 then result1 + result2 + result3 else result1 + result2
      let temp = write_at (offset % 16 + count) bytes_3 (
          write_at (offset % 16) bytes_2
            (write_at 0 bytes_1 (replicate (padded_count offset count) 0)))
      pure (
        result2,
        if ltb 0 result
            then slice (offset % 16) result2 (decrypt_blocks P.aes 0 (result / 16) temp)
            else [],
      ))

  -- Before the header's end the stream is moved there. `ftell` fails with -1.
  fread_from : C.Stream → ℕ → ℤ → Run P (ℕ × Bytes)
  fread_from stream count (negsuc n) = do
    system P (C.fseek stream header_size)
    fread_blocks stream count (header_size - suc n)
  fread_from stream count (pos offset) =
      if ltb offset header_size
      then (do
        system P (C.fseek stream header_size)
        fread_blocks stream count (offset + header_size))
      else fread_blocks stream count offset

  fread_encrypted : C.Stream → ℕ → Run P (ℕ × Bytes)
  unfolding fread_from
  fread_encrypted stream count = do
    offset ← system P (C.ftell stream)
    fread_from stream count offset

  -- `fread` behind the tests on the process.
  unfoldable pub fread_transparent : ℕ → ℕ → C.Stream → Run P (ℕ × Bytes)
  unfolding fread_encrypted linker
  fread_transparent size nmemb stream = do
    kind ← is_encrypted_by_stream stream
    if kind == file_type_normal
        then linker P Syscall.fread (C.sys_fread size nmemb stream)
        else fread_encrypted stream (size * nmemb)

  unfoldable pub fread : ℕ → ℕ → C.Stream → Run P (ℕ × Bytes)
  unfolding gate fread_transparent linker
  fread size nmemb stream =
      gate P Syscall.fread (0, []) (linker P Syscall.fread (C.sys_fread size nmemb stream))
        (fread_transparent size nmemb stream)
