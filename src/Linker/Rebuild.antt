-- ===== src/Linker/Rebuild.antt =====
-- ports/linker.c, `rebuild_file_struct`: the buffer that replaces the content of a small file that
-- is not encrypted yet.
pub mod File
pub mod Threads
pub mod Workers
use tencryption.Prelude.{
  ℕ, ◌+◌, ◌/◌, ◌≤◌, ◌≡◌, ap, ap₂, ◌∙◌, Option, ◌++◌, append-nil, arith, length, replicate,
  replicate-append, length-append, length-replicate,
}
use tencryption.Prelude.Slices.{write_at, drop-all, take-append_of_length, drop-append_of_length}
use tencryption.Cipher.{Aes, IsAes, encrypt_blocks}
use tencryption.Cipher.Blocks.{on_blocks, enc, encrypt_blocks_lem}
use tencryption.Header.{
  header_size, name_bytes, name_offset, header_writes, file_header_init,
  is_encrypted_by_file_header, file_type_rights,
}
use tencryption.Header.Roundtrip.{
  length-header_writes, header_writes-append, is_encrypted-file_header_init,
}
use tencryption.Platform.{Bytes}
use tencryption.Linker.Transfer.Padding.{write-behind}
use tencryption.Linker.Transfer.Stored.{stored}

-- A cleared buffer of the size of the content and a header, after `file_header_init` for a
-- process of this name, the read of the whole content behind the header, and the loop that
-- encrypts its blocks.
unfoldable pub rebuilt : Aes → Option Bytes → Bytes → Bytes
unfolding file_header_init encrypt_blocks
rebuilt A process_name plain =
    let (kind, buffer) = file_header_init process_name (replicate (length plain + 4096) 0) in
    encrypt_blocks A 4096 (length plain / 16) (write_at 4096 plain buffer)

-- The header made in a cleared buffer of its size.
abbrev pub new_header : Option Bytes → Bytes
new_header process_name = (file_header_init process_name (replicate header_size 0)).1

module _ (A : Aes) (ok : IsAes A) (process_name : Option Bytes)
    (fits : name_offset + length (name_bytes process_name) ≤ header_size) where
  -- For a process whose name ends inside the header: the buffer is the stored form of the content
  -- behind a new header, which is whole and is recognised as encrypted.
  pub rebuilt-stored :
      (plain : Bytes)
      → (rebuilt A process_name plain ≡ stored A ok (new_header process_name) plain)
        × (length (new_header process_name) ≡ header_size)
        × (is_encrypted_by_file_header (new_header process_name) ≡ file_type_rights)
  unfolding rebuilt file_header_init
  rebuilt-stored plain =
      let head : Bytes = new_header process_name in
      let zeros : Bytes = replicate header_size 0 in
      let more : Bytes = replicate (length plain) 0 in
      let z : length zeros ≡ header_size = length-replicate header_size 0 in
      let m : length more ≡ length plain = length-replicate (length plain) 0 in
      let n : ℕ = length plain / 16 in
      let size : length head ≡ header_size = length-header_writes process_name zeros z fits in
      (
        ap
              (λ l.
                encrypt_blocks A header_size n
                  (write_at header_size plain (header_writes process_name l)))
              (replicate-append header_size (length plain) 0)
            ∙ ap (λ l. encrypt_blocks A header_size n (write_at header_size plain l))
                (header_writes-append process_name zeros z fits more)
            ∙ ap (λ l. encrypt_blocks A header_size n l)
                (write-behind head plain more header_size size
                  ∙ ap (λ l. (head ++ plain) ++ l) (drop-all (length plain) more (omega (arith, m)))
                  ∙ append-nil (head ++ plain))
            ∙ encrypt_blocks_lem A ok header_size n (head ++ plain)
                (omega (arith, size, length-append head plain))
            ∙ ap₂ (λ u v. u ++ on_blocks (enc A ok) n v)
                (take-append_of_length header_size head plain size)
                (drop-append_of_length header_size head plain size),
        size,
        (is_encrypted-file_header_init process_name zeros z fits).2,
      )
