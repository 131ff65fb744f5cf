-- ===== src/Header/Layout.antt =====
-- The offsets and sizes of `struct file_header`, from the sizes of its fields in their order.
use tencryption.Prelude.{ℕ, ◌+◌, ◌*◌}

abbrev pub signature_offset : ℕ
signature_offset = 64

abbrev pub major_offset : ℕ
major_offset = signature_offset + 16

abbrev pub minor_offset : ℕ
minor_offset = major_offset + 2

abbrev pub name_offset : ℕ
name_offset = minor_offset + 2

abbrev pub reserve_offset : ℕ
reserve_offset = name_offset + 256 + 44

abbrev pub reserve_size : ℕ
reserve_size = 28 * 128

abbrev pub kernel_offset : ℕ
kernel_offset = reserve_offset + reserve_size

-- `FILE_HEADER_POLL_SIZE`.
abbrev pub header_size : ℕ
header_size = kernel_offset + 2 + 126
