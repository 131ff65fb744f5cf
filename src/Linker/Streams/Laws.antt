-- ===== src/Linker/Streams/Laws.antt =====
-- `fread` on a stored content.
use native.Mathlib.Decide.{dec_lt}
use tencryption.Prelude.{
  ℕ, zero, suc, ◌+◌, ◌-◌, ◌*◌, ◌/◌, ◌%◌, ◌≤◌, ◌<◌, ◌≡◌, refl, ap, ap₂, ◌∙◌, true, sym, some, [],
  ◌++◌, arith, length, drop, replicate, ltb, if◌then◌else◌, lt→ltb, le→ltb, length-take,
  length-drop,
}
use tencryption.Prelude.Int.{ℤ, pos}
use tencryption.Prelude.Slices.{slice, write_at, take-of_zero, take-append_of_length}
use tencryption.Prelude.Exec.{◌>>=◌, ◌>>◌}
use tencryption.Cipher.{IsAes, decrypt_blocks}
use tencryption.Cipher.Blocks.{all_blocks, dec}
use tencryption.Header.{header_size, file_type_rights, is_encrypted_by_file_header}
use tencryption.Detect.{header_buffer}
use tencryption.Detect.Laws.{header_buffer_lem}
use tencryption.Platform.{Platform, Process, Bytes, Syscall, linker}
use tencryption.Linker.Gate.{AllLinked, SeesPlain, gate_transparent}
use tencryption.Linker.Streams.{
  StreamCalls, is_encrypted_by_stream, fread_blocks, fread_transparent, fread,
}
use tencryption.Linker.Transfer.{padded_count}
use tencryption.Linker.Transfer.Padding.{copy_lem}
use tencryption.Linker.Transfer.Stored.{stored, slice-stored, length-file}

-- What POSIX documents of a stream of a regular file that is read, with memory left and no I/O
-- error: its position, its content, and a law for each call.
pub record Streams (P : Platform) (C : StreamCalls P) : Type 0 where
  pub position : P.World → C.Stream → ℕ
  pub content : P.World → C.Stream → Bytes
  pub calloc_lem :
      (n : ℕ) (stream : C.Stream) (w : P.World)
      → (w' : P.World) × (P.calloc n w ≡ (true, w'))
        × (position w' stream ≡ position w stream)
        × (content w' stream ≡ content w stream)
  pub ftell_lem :
      (stream : C.Stream) (w : P.World)
      → (w' : P.World) × (C.ftell stream w ≡ (pos (position w stream), w'))
        × (position w' stream ≡ position w stream)
        × (content w' stream ≡ content w stream)
  pub fseek_lem :
      (stream : C.Stream) (n : ℕ) (w : P.World)
      → (w' : P.World) × (C.fseek stream n w ≡ (pos 0, w'))
        × (position w' stream ≡ n)
        × (content w' stream ≡ content w stream)
  pub fread_lem :
      (n : ℕ) (stream : C.Stream) (w : P.World)
      → let bytes = slice (position w stream) n (content w stream) in
        (w' : P.World) × (C.sys_fread 1 n stream w ≡ ((length bytes, bytes), w'))
        × (content w' stream ≡ content w stream)

-- The counts add up whether or not the third is tested to be positive.
sum_lem : (n1 n2 n3 : ℕ) → (if ltb 0 n3 then n1 + n2 + n3 else n1 + n2) ≡ n1 + n2 + n3
sum_lem n1 n2 n3 = ground arith

out_lem :
    (start n total : ℕ) (l : Bytes)
    → n ≤ total
    → (if ltb 0 total then slice start n l else []) ≡ slice start n l
out_lem start n zero l h = sym (take-of_zero n _ (omega (arith, h)))
out_lem start n (suc total) l h = rw (lt→ltb 0 (suc total) (omega arith)) refl

module _ (P : Platform) (C : StreamCalls P) (sx : Streams P C) (ok : IsAes P.aes) where
  probe_run :
      (stream : C.Stream) (s : Process P.World) {n count : ℕ} {bytes : Bytes} {r1 r2 : ℤ}
      {w1 w2 w3 w4 : P.World}
      → AllLinked s
      → C.ftell stream s.world ≡ (pos n, w1)
      → C.fseek stream 0 w1 ≡ (r1, w2)
      → C.sys_fread 1 header_size stream w2 ≡ ((count, bytes), w3)
      → C.fseek stream n w3 ≡ (r2, w4)
      → is_encrypted_by_stream P C stream s
        ≡ some (is_encrypted_by_file_header (header_buffer bytes), record s { world = w4 })
  unfolding is_encrypted_by_stream
  probe_run stream s linked e1 e2 e3 e4 =
      rw (◌>>=◌, e1, ◌>>◌, ◌>>=◌, e2, ◌>>=◌, linker, linked Syscall.fread, e3, e4) refl

  blocks_run :
      (stream : C.Stream) (count offset : ℕ) (s : Process P.World) {n1 n2 n3 : ℕ} {b1 b2 b3 : Bytes}
      {r1 r2 r3 r4 : ℤ} {w1 w2 w3 w4 w5 w6 w7 w8 : P.World}
      → AllLinked s
      → P.calloc (padded_count offset count) s.world ≡ (true, w1)
      → C.fseek stream (offset - offset % 16) w1 ≡ (r1, w2)
      → C.sys_fread 1 (offset % 16) stream w2 ≡ ((n1, b1), w3)
      → C.fseek stream offset w3 ≡ (r2, w4)
      → C.sys_fread 1 count stream w4 ≡ ((n2, b2), w5)
      → C.fseek stream (offset + count) w5 ≡ (r3, w6)
      → C.sys_fread 1 (16 - (count + offset) % 16) stream w6 ≡ ((n3, b3), w7)
      → C.fseek stream (offset + count) w7 ≡ (r4, w8)
      → fread_blocks P C stream count offset s
        ≡ some (
          (
            n2,
            slice (offset % 16) n2 (
                decrypt_blocks P.aes 0 ((n1 + n2 + n3) / 16) (
                  write_at (offset % 16 + count) b3 (
                    write_at
                      (offset % 16)
                      b2
                      (write_at 0 b1 (replicate (padded_count offset count) 0))))),
          ),
          record s { world = w8 },
        )
  unfolding fread_blocks
  blocks_run stream count offset s {n1} {n2} {n3} {w8 = w8} linked e1 e2 e3 e4 e5 e6 e7 e8 =
      rw
        (
          ◌>>=◌,
          e1,
          ◌>>◌,
          ◌>>=◌,
          e2,
          ◌>>=◌,
          linker,
          linked Syscall.fread,
          e3,
          ◌>>◌,
          ◌>>=◌,
          e4,
          ◌>>=◌,
          linker,
          linked Syscall.fread,
          e5,
          ◌>>◌,
          ◌>>=◌,
          e6,
          ◌>>=◌,
          linker,
          linked Syscall.fread,
          e7,
          e8,
          e3,
          e5,
          sum_lem n1 n2 n3,
        )
        (ap (λ l. some ((n2, l), record s { world = w8 }))
          (out_lem (offset % 16) n2 (n1 + n2 + n3) _ (omega arith)))

  -- The answer of a read at `from`.
  abbrev got : ℕ → ℕ → Bytes → P.World → (ℕ × Bytes) × P.World
  got from n file w = ((length (slice from n file), slice from n file), w)

  blocks_lem :
      (stream : C.Stream) (count offset : ℕ) (s : Process P.World) {file : Bytes}
      → AllLinked s
      → sx.content s.world stream ≡ file
      → (w : P.World) × (fread_blocks P C stream count offset s
          ≡ some (
            (length (slice offset count file), slice offset count (all_blocks (dec P.aes ok) file)),
            record s { world = w },
          ))
        × (sx.position w stream ≡ offset + count)
        × (sx.content w stream ≡ file)
  blocks_lem stream count offset s {file} linked held =
      let (w1, e1, p1, c1) = sx.calloc_lem (padded_count offset count) stream s.world in
      let (w2, e2, p2, c2) = sx.fseek_lem stream (offset - offset % 16) w1 in
      let (w3, e3, c3) = sx.fread_lem (offset % 16) stream w2 in
      let (w4, e4, p4, c4) = sx.fseek_lem stream offset w3 in
      let (w5, e5, c5) = sx.fread_lem count stream w4 in
      let (w6, e6, p6, c6) = sx.fseek_lem stream (offset + count) w5 in
      let (w7, e7, c7) = sx.fread_lem (16 - (count + offset) % 16) stream w6 in
      let (w8, e8, p8, c8) = sx.fseek_lem stream (offset + count) w7 in
      let h2 : sx.content w2 stream ≡ file = c2 ∙ c1 ∙ held in
      let h4 : sx.content w4 stream ≡ file = c4 ∙ c3 ∙ h2 in
      let h6 : sx.content w6 stream ≡ file = c6 ∙ c5 ∙ h4 in
      (
        w8,
        blocks_run stream count offset s linked e1 e2
              (e3 ∙ ap₂ (λ k f. got k (offset % 16) f w3) p2 h2) e4
              (e5 ∙ ap₂ (λ k f. got k count f w5) p4 h4) e6
              (e7 ∙ ap₂ (λ k f. got k (16 - (count + offset) % 16) f w7) p6 h6) e8
            ∙ ap (λ l. some ((length (slice offset count file), l), record s { world = w8 }))
                (copy_lem P.aes ok file (replicate (padded_count offset count) 0) offset count),
        p8,
        c8 ∙ c7 ∙ h6,
      )

  probe_lem :
      (stream : C.Stream) (s : Process P.World) (header rest : Bytes)
      → AllLinked s
      → length header ≡ header_size
      → is_encrypted_by_file_header header ≡ file_type_rights
      → sx.content s.world stream ≡ header ++ rest
      → (w : P.World) × (is_encrypted_by_stream P C stream s
          ≡ some (file_type_rights, record s { world = w }))
        × (sx.position w stream ≡ sx.position s.world stream)
        × (sx.content w stream ≡ header ++ rest)
  probe_lem stream s header rest linked h kind held =
      let (w1, e1, p1, c1) = sx.ftell_lem stream s.world in
      let (w2, e2, p2, c2) = sx.fseek_lem stream 0 w1 in
      let (w3, e3, c3) = sx.fread_lem header_size stream w2 in
      let (w4, e4, p4, c4) = sx.fseek_lem stream (sx.position s.world stream) w3 in
      let held2 : sx.content w2 stream ≡ header ++ rest = c2 ∙ c1 ∙ held in
      let front : slice 0 header_size (header ++ rest) ≡ header =
        take-append_of_length header_size header rest h in
      (
        w4,
        probe_run stream s linked e1 e2 (e3 ∙ ap₂ (λ k f. got k header_size f w3) p2 held2) e4
            ∙ ap (λ k. some (k, record s { world = w4 }))
                (ap (λ l. is_encrypted_by_file_header (header_buffer l)) front
                  ∙ ap is_encrypted_by_file_header (header_buffer_lem header h)
                  ∙ kind),
        p4,
        c4 ∙ c3 ∙ held2,
      )

  plain_lem :
      (stream : C.Stream) (count k offset : ℕ) (s : Process P.World) (header plain : Bytes)
      → AllLinked s
      → length header ≡ header_size
      → offset ≡ header_size + k
      → sx.content s.world stream ≡ stored P.aes ok header plain
      → (let out = slice k count plain in
          (w : P.World) × (fread_blocks P C stream count offset s
            ≡ some ((length out, out), record s { world = w }))
          × (sx.position w stream ≡ header_size + k + count)
          × (sx.content w stream ≡ stored P.aes ok header plain))
  plain_lem stream count k offset s header plain linked h there held =
      let file : Bytes = stored P.aes ok header plain in
      let (w, e, p, c) = blocks_lem stream count offset s linked held in
      (
        w,
        e
            ∙ ap₂ (λ n l. some ((n, l), record s { world = w }))
                (omega (
                  arith,
                  there,
                  length-take count (drop offset file),
                  length-drop offset file,
                  length-file P.aes ok header plain h,
                  length-take count (drop k plain),
                  length-drop k plain,
                ))
                (ap (λ n. slice n count (all_blocks (dec P.aes ok) file)) there
                  ∙ slice-stored P.aes ok header plain k count h),
        p ∙ ap (λ n. n + count) there,
        c,
      )

  behind_run :
      (size nmemb o : ℕ) (stream : C.Stream) (t : Process P.World) {w1 w2 : P.World}
      → is_encrypted_by_stream P C stream t ≡ some (file_type_rights, record t { world = w1 })
      → C.ftell stream w1 ≡ (pos o, w2)
      → header_size ≤ o
      → fread_transparent P C size nmemb stream t
        ≡ fread_blocks P C stream (size * nmemb) o (record t { world = w2 })
  unfolding fread_transparent
  behind_run size nmemb o stream t e1 e2 behind =
      rw (◌>>=◌, e1, ◌>>=◌, e2, le→ltb o header_size behind) refl

  before_run :
      (size nmemb o : ℕ) (stream : C.Stream) (t : Process P.World) {r : ℤ} {w1 w2 w3 : P.World}
      → is_encrypted_by_stream P C stream t ≡ some (file_type_rights, record t { world = w1 })
      → C.ftell stream w1 ≡ (pos o, w2)
      → C.fseek stream header_size w2 ≡ (r, w3)
      → o < header_size
      → fread_transparent P C size nmemb stream t
        ≡ fread_blocks P C stream (size * nmemb) (o + header_size) (record t { world = w3 })
  unfolding fread_transparent
  before_run size nmemb o stream t e1 e2 e3 before =
      rw (◌>>=◌, e1, ◌>>=◌, e2, lt→ltb o header_size before, ◌>>◌, ◌>>=◌, e3) refl

  -- `fread` in a process that sees plain text, on a stream of a stored content whose header is
  -- recognised: from position `o` it reads the plain bytes from `o` on, or from `o - 4096` on behind
  -- the header; as many as were asked for or as there are, and it returns the number of bytes. The
  -- stream then stands behind the bytes that were asked for.
  pub fread-stored :
      (size nmemb o : ℕ) (stream : C.Stream) (header plain : Bytes) {s t : Process P.World}
      → SeesPlain P s t
      → length header ≡ header_size
      → is_encrypted_by_file_header header ≡ file_type_rights
      → sx.content t.world stream ≡ stored P.aes ok header plain
      → sx.position t.world stream ≡ o
      → (let k = if ltb o header_size then o else o - header_size in
          let out = slice k (size * nmemb) plain in
          (w : P.World) × (fread P C size nmemb stream s
            ≡ some ((length out, out), record t { world = w }))
          × (sx.position w stream ≡ header_size + k + size * nmemb)
          × (sx.content w stream ≡ stored P.aes ok header plain))
  unfolding fread
  fread-stored size nmemb o stream header plain {s} {t} sees h kind held at =
      let (w1, e1, p1, c1) = probe_lem stream t header _ sees.linked h kind held in
      let (w2, e2, p2, c2) = sx.ftell_lem stream w1 in
      let told : C.ftell stream w1 ≡ (pos o, w2) = e2 ∙ ap (λ n. (pos n, w2)) (p1 ∙ at) in
      let gated : fread P C size nmemb stream s ≡ fread_transparent P C size nmemb stream t =
        gate_transparent P Syscall.fread (0, [])
          (linker P Syscall.fread (C.sys_fread size nmemb stream))
          (fread_transparent P C size nmemb stream) sees in
      elim (dec_lt o header_size) [
        | yes before ↦
            let (w3, e3, p3, c3) = sx.fseek_lem stream header_size w2 in
            let (w, e, p, c) =
              plain_lem stream (size * nmemb) o (o + header_size) (record t { world = w3 }) header
                plain sees.linked h (omega arith) (c3 ∙ c2 ∙ c1) in
            rw (lt→ltb o header_size before)
              (w, gated ∙ before_run size nmemb o stream t e1 told e3 before ∙ e, p, c)
        | no behind ↦
            let (w, e, p, c) =
              plain_lem stream (size * nmemb) (o - header_size) o (record t { world = w2 }) header
                plain sees.linked h (omega (arith, behind)) (c2 ∙ c1) in
            rw (le→ltb o header_size (omega (arith, behind))) (
              w,
              gated ∙ behind_run size nmemb o stream t e1 told (omega (arith, behind)) ∙ e,
              p,
              c,
            )
      ]
