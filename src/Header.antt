-- ===== src/Header.antt =====
-- ports/crypto.h and ports/crypto.c: the header of an encrypted file, 4096 bytes, as the bytes
-- of `struct file_header` with its packed layout (little-endian shorts).
pub mod Roundtrip
use tencryption.Prelude.{
  ℕ, ◌+◌, ◌*◌, Option, none, some, List, [], ◌∷◌, ◌++◌, replicate, get_or, if◌then◌else◌,
}
use tencryption.Prelude.Text.{codes}
use tencryption.Prelude.Slices.{slice, write_at}
use tencryption.Header.Layout.{
  signature_offset, major_offset, minor_offset, name_offset, reserve_offset, kernel_offset,
  reserve_size,
}
mod Layout
pub mod Equality
use Equality.{bytes_eq}
pub use Layout.*

abbrev pub file_type_normal : ℕ
file_type_normal = 0x00a0

abbrev pub file_type_rights : ℕ
file_type_rights = 0x00a1

-- `SIGNATURE`.
abbrev pub signature : List ℕ
signature =
    0x08 ∷ 0x88 ∷ 0x41 ∷ 0xF3 ∷ 0xCD ∷ 0x83 ∷ 0xE8 ∷ 0xC0 ∷ 0x8F ∷ 0x29 ∷ 0x03 ∷ 0xDC ∷ 0x31 ∷ 0xE5
    ∷ 0xF5 ∷ 0xA8 ∷ []

-- `messages[64]`: the text, and NUL bytes up to 64.
abbrev pub messages : List ℕ
messages = codes "china mobile research institute" ++ replicate 33 0

abbrev pub major_version : ℕ
major_version = 1

abbrev pub minor_version : ℕ
minor_version = 1

-- The bytes copied into `common.name`: the process name up to its NUL, or "unknown".
abbrev pub name_bytes : Option (List ℕ) → List ℕ
name_bytes none = codes "unknown"
name_bytes (some name) = name

-- A short below 256.
abbrev pub short : ℕ → List ℕ
short n = n ∷ 0 ∷ []

-- `file_header_init` on a buffer: the writes in their order. The value that it returns is
-- `kernel.file_type`, which `file_header_init` below gives.
unfoldable pub header_writes : Option (List ℕ) → List ℕ → List ℕ
header_writes process_name header =
    let h1 = write_at 0 messages header in
    let h2 = write_at signature_offset signature h1 in
    let h3 = write_at major_offset (short major_version) h2 in
    let h4 = write_at minor_offset (short minor_version) h3 in
    let h5 = write_at name_offset (name_bytes process_name) h4 in
    let h6 = write_at reserve_offset (replicate reserve_size b'*') h5 in
    write_at kernel_offset (short file_type_rights) h6

-- `kernel.file_type` of a header.
unfoldable pub stored_type : List ℕ → ℕ
stored_type header = let s = slice kernel_offset 2 header in get_or s 0 0 + 256 * get_or s 1 0

unfoldable pub file_header_init : Option (List ℕ) → List ℕ → ℕ × List ℕ
unfolding header_writes stored_type
file_header_init process_name header =
    let h = header_writes process_name header in (stored_type h, h)

unfoldable pub is_encrypted_by_file_header : List ℕ → ℕ
unfolding stored_type bytes_eq
is_encrypted_by_file_header header =
    if bytes_eq (slice signature_offset 16 header) signature
    then stored_type header
    else file_type_normal
