-- ===== src/Linker/Open/Probe.antt =====
-- ports/linker.c, `open`: what it finds out about the file before it opens it.
use native.Mathlib.Decide.{ℕ_discrete}
use tencryption.Prelude.{
  ℕ, suc, ◌+◌, ◌<◌, ◌≡◌, ◌≢◌, ◌⊎◌, inl, inr, refl, true, false, ap, ◌∙◌, Option, none, some, ◌++◌,
  arith, length, take, ◌==◌, if◌then◌else◌, length-take, ne→==,
}
use tencryption.Prelude.Int.{ℤ, pos, eqb_ℤ}
use tencryption.Prelude.Slices.{slice, take-append_of_length}
use tencryption.Prelude.Exec.{◌>>=◌, ◌>>◌}
use tencryption.Header.{header_size, file_type_rights, is_encrypted_by_file_header}
use tencryption.Detect.{header_buffer}
use tencryption.Detect.Laws.{is_pos-suc, header_buffer_lem}
use tencryption.Platform.{Platform, Process, Bytes, FilePath, Syscall, linker, o_rdonly}
use tencryption.Files.{At, At-opened, At-moved, Posix}
use tencryption.Files.Same.{Same, Same-probe}
use tencryption.Linker.Gate.{AllLinked}
use tencryption.Linker.Open.{probe_header}

-- The answer from a read of `count` bytes.
abbrev header_in : ℤ → Bytes → Option Bytes
header_in count bytes =
    if eqb_ℤ count (pos header_size)
    then (if is_encrypted_by_file_header (header_buffer bytes) == file_type_rights
        then some (header_buffer bytes)
        else none)
    else none

-- What is found at the start of a content.
abbrev pub header_found : Bytes → Option Bytes
header_found file = header_in (pos (length (slice 0 header_size file))) (slice 0 header_size file)

-- A file that is too short, or does not begin with an encrypted file's header.
abbrev pub IsPlain : Bytes → Type 0
IsPlain file =
    (length file < header_size)
    ⊎ (is_encrypted_by_file_header (take header_size file) ≢ file_type_rights)

eqb_ℤ_pos : (a b : ℕ) → a ≢ b → eqb_ℤ (pos a) (pos b) ≡ false
eqb_ℤ_pos a b h = ground arith

pub header_found-none : (file : Bytes) → IsPlain file → header_found file ≡ none
header_found-none file (inl short) =
    rw
      (eqb_ℤ_pos (length (take header_size file)) header_size
        (omega (arith, length-take header_size file)))
      refl
header_found-none file (inr other) =
    let front : Bytes = take header_size file in
    elim (ℕ_discrete (length front) header_size) [
      | yes e ↦ rw (e, header_buffer_lem front e, ne→== _ file_type_rights other) refl
      | no short ↦ rw (eqb_ℤ_pos (length front) header_size short) refl
    ]

pub header_found-some :
    (header rest : Bytes)
    → length header ≡ header_size
    → is_encrypted_by_file_header header ≡ file_type_rights
    → header_found (header ++ rest) ≡ some header
header_found-some header rest h kind =
    ap (λ l. header_in (pos (length l)) l) (take-append_of_length header_size header rest h)
    ∙ rw (h, header_buffer_lem header h, kind) refl

module _ (P : Platform) (px : Posix P) where
  probe_run :
      (path : FilePath) (s : Process P.World) {n : ℕ} {rc count : ℤ} {bytes : Bytes}
      {w1 w2 w3 w4 : P.World}
      → AllLinked s
      → P.sys_open path o_rdonly 0 s.world ≡ (pos (suc n), w1)
      → P.calloc header_size w1 ≡ (true, w2)
      → P.sys_read (pos (suc n)) header_size w2 ≡ ((count, bytes), w3)
      → P.sys_close (pos (suc n)) w3 ≡ (rc, w4)
      → probe_header P path s ≡ some (header_in count bytes, record s { world = w4 })
  unfolding probe_header
  probe_run path s {n} linked e1 e2 e3 e4 =
      rw
        (
          ◌>>=◌,
          linker,
          linked Syscall.open_file,
          e1,
          is_pos-suc n,
          ◌>>=◌,
          e2,
          ◌>>=◌,
          linker,
          linked Syscall.read,
          e3,
          ◌>>◌,
          ◌>>=◌,
          linker,
          linked Syscall.close,
          e1,
          e4,
          e3,
        )
        refl

  pub probe_header_lem :
      (path : FilePath) (s : Process P.World) {i : ℕ} {file : Bytes}
      → AllLinked s
      → (px.view s.world).resolve path ≡ some i
      → (px.view s.world).content i ≡ file
      → (w : P.World) × (probe_header P path s ≡ some (header_found file, record s { world = w }))
        × Same (px.view s.world) (px.view w)
  probe_header_lem path s {i} {file} linked found content =
      let (n, d, w1, e1, free, unused, v1) = px.open_lem path o_rdonly 0 s.world found refl refl in
      let at1 : At (px.view w1) (pos (suc n)) d i 0 file =
        rw v1 (At-opened (px.view s.world) (pos (suc n)) d i o_rdonly content refl) in
      let (w2, e2, v2) = px.calloc_lem header_size w1 in
      let at2 : At (px.view w2) (pos (suc n)) d i 0 file = rw v2 at1 in
      let (w3, e3, v3) = px.read_lem (pos (suc n)) header_size w2 at2 in
      let at3 : At (px.view w3) (pos (suc n)) d i (0 + length (slice 0 header_size file)) file =
        rw v3 (At-moved (px.view w2) (pos (suc n)) _ at2) in
      let (w4, e4, v4) = px.close_lem (pos (suc n)) w3 at3.stands in
      (
        w4,
        probe_run path s linked e1 e2 e3 e4,
        rw (v4, v3, v2, v1) (Same-probe (px.view s.world) (pos (suc n)) d i _ o_rdonly free unused),
      )
