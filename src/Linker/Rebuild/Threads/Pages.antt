-- ===== src/Linker/Rebuild/Threads/Pages.antt =====
-- `pthread_rfs_run`: a block that a thread writes is that part of the stored content, if the thread
-- starts where a block starts.
use native.Mathlib.Decide.{dec_le}
use tencryption.Prelude.{
  ℕ, ◌+◌, ◌*◌, ◌-◌, ◌/◌, ◌%◌, ◌≤◌, ◌≡◌, sym, ap, ◌∙◌, Option, List, arith, length, take, drop, min,
  length-take, length-drop,
}
use tencryption.Prelude.Slices.{slice, take-all, drop-append_right}
use tencryption.Cipher.{Aes, IsAes, encrypt_blocks}
use tencryption.Cipher.Blocks.{all_blocks, enc, enc-KeepsBlock, encrypt_blocks_lem}
use tencryption.Header.{header_size, name_offset, name_bytes}
use tencryption.Linker.Rebuild.{new_header, rebuilt-stored}
use tencryption.Linker.Transfer.Padding.{take-all_blocks, drop-all_blocks}
use tencryption.Linker.Transfer.Stored.{stored, length-file}
use tencryption.Platform.{Bytes}

take-min : (n : ℕ) (xs : List ℕ) → take n xs ≡ take (min n (length xs)) xs
take-min n xs = elim (dec_le (length xs) n) [
  | yes p ↦ take-all n xs p ∙ sym (take-all (min n (length xs)) xs (omega (arith, p)))
  | no p ↦ ap (λ k. take k xs) (omega (arith, p))
]

module _ (A : Aes) (ok : IsAes A) (process_name : Option Bytes)
    (fits : name_offset + length (name_bytes process_name) ≤ header_size) (plain : Bytes) where
  abbrev pub target : Bytes
  target = stored A ok (new_header process_name) plain

  pub length-target : length target ≡ header_size + length plain
  length-target =
      length-file A ok (new_header process_name) plain
        (rebuilt-stored A ok process_name fits plain).1

  -- The bytes that there are of a block.
  abbrev pub count_at : ℕ → ℕ
  count_at offset = min 4096 (length plain - offset)

  page_lem :
      (a : ℕ)
      → a * 16 ≤ length plain
      → (let buff = slice (a * 16) 4096 plain in
          encrypt_blocks A 0 (length buff / 16) buff
          ≡ slice (header_size + a * 16) (count_at (a * 16)) target)
  page_lem a h =
      let buff : Bytes = slice (a * 16) 4096 plain in
      let body : Bytes = all_blocks (enc A ok) plain in
      let head : length (new_header process_name) ≡ header_size =
        (rebuilt-stored A ok process_name fits plain).1 in
      encrypt_blocks_lem A ok 0 (length buff / 16) buff (omega arith)
      ∙ take-all_blocks (enc A ok) (enc-KeepsBlock A ok) 256 (drop (a * 16) plain)
      ∙ ap (take 4096) (sym (drop-all_blocks (enc A ok) (enc-KeepsBlock A ok) a plain h))
      ∙ ap (take 4096) (
          ap (λ k. drop k body) (omega (arith, head))
          ∙ sym (
              drop-append_right (header_size + a * 16) (new_header process_name) body
                (omega (arith, head))))
      ∙ take-min 4096 (drop (header_size + a * 16) target)
      ∙ ap (λ k. take (min 4096 k) (drop (header_size + a * 16) target))
          (omega (arith, length-drop (header_size + a * 16) target, length-target))

  pub page_at :
      (offset : ℕ)
      → offset % 4096 ≡ 0
      → offset ≤ length plain
      → (let buff = slice offset 4096 plain in
          encrypt_blocks A 0 (length buff / 16) buff
          ≡ slice (header_size + offset) (count_at offset) target)
  page_at offset e h =
      let back : offset / 16 * 16 ≡ offset = omega (arith, e) in
      ap (λ k. encrypt_blocks A 0 (length (slice k 4096 plain) / 16) (slice k 4096 plain))
        (sym back)
      ∙ page_lem (offset / 16) (omega (arith, h))
      ∙ ap (λ k. slice (header_size + k) (count_at k) target) back

  pub length-page :
      (offset : ℕ)
      → offset ≤ length plain
      → length (slice (header_size + offset) (count_at offset) target) ≡ count_at offset
  length-page offset h = omega (
    arith,
    length-take (count_at offset) (drop (header_size + offset) target),
    length-drop (header_size + offset) target,
    length-target,
  )
