-- ===== src/Header/Roundtrip.antt =====
-- A header that `file_header_init` wrote is recognised.
use tencryption.Prelude.{
  ◌++◌, ℕ, ◌+◌, ◌≤◌, ◌≡◌, ◌≢◌, ◌∙◌, Option, List, length, replicate, arith, inl, inr, Bool-cases,
  length-append, length-replicate,
}
use tencryption.Prelude.Text.{codes}
use tencryption.Prelude.Slices.{
  slice, write_at, length-write_at, slice-write_at_before, write_at-append, slice-write_at_self,
}
use tencryption.Header.{
  header_writes, messages, signature, short, name_bytes, stored_type, file_header_init,
  is_encrypted_by_file_header, file_type_rights, file_type_normal, major_version, minor_version,
}
use tencryption.Header.Layout.{
  signature_offset, major_offset, minor_offset, name_offset, reserve_offset, kernel_offset,
  reserve_size, header_size,
}
use tencryption.Header.Equality.{bytes_eq, bytes_eq_sound}

length-messages : length messages ≡ 64
length-messages = omega (
  arith,
  length-append (codes "china mobile research institute") (replicate {A = ℕ} 33 0),
  length-replicate {A = ℕ} 33 0,
)

module _ (process_name : Option (List ℕ)) (header : List ℕ) (size : length header ≡ header_size)
    (fits : name_offset + length (name_bytes process_name) ≤ header_size) where
  -- The buffer after each of the first six writes.
  abbrev h1 : List ℕ
  h1 = write_at 0 messages header

  abbrev h2 : List ℕ
  h2 = write_at signature_offset signature h1

  abbrev h3 : List ℕ
  h3 = write_at major_offset (short major_version) h2

  abbrev h4 : List ℕ
  h4 = write_at minor_offset (short minor_version) h3

  abbrev h5 : List ℕ
  h5 = write_at name_offset (name_bytes process_name) h4

  abbrev stars : List ℕ
  stars = replicate reserve_size b'*'

  abbrev h6 : List ℕ
  h6 = write_at reserve_offset stars h5

  length-h1 : length h1 ≡ header_size
  length-h1 =
      length-write_at 0 messages header (omega arith) (omega (arith, size, length-messages)) ∙ size

  length-h2 : length h2 ≡ header_size
  length-h2 =
      length-write_at signature_offset signature h1 (omega (arith, length-h1))
        (omega (arith, length-h1))
      ∙ length-h1

  length-h3 : length h3 ≡ header_size
  length-h3 =
      length-write_at major_offset (short major_version) h2 (omega (arith, length-h2))
        (omega (arith, length-h2))
      ∙ length-h2

  length-h4 : length h4 ≡ header_size
  length-h4 =
      length-write_at minor_offset (short minor_version) h3 (omega (arith, length-h3))
        (omega (arith, length-h3))
      ∙ length-h3

  length-h5 : length h5 ≡ header_size
  length-h5 =
      length-write_at name_offset (name_bytes process_name) h4 (omega (arith, length-h4))
        (omega (arith, length-h4, fits))
      ∙ length-h4

  length-h6 : length h6 ≡ header_size
  length-h6 =
      length-write_at reserve_offset stars h5 (omega (arith, length-h5))
        (omega (arith, length-h5, length-replicate {A = ℕ} reserve_size b'*'))
      ∙ length-h5

  pub length-header_writes : length (header_writes process_name header) ≡ header_size
  unfolding header_writes
  length-header_writes =
      length-write_at kernel_offset (short file_type_rights) h6 (omega (arith, length-h6))
        (omega (arith, length-h6))
      ∙ length-h6

  -- In a longer buffer the same bytes are written, and what is behind the header stays.
  pub header_writes-append :
      (rest : List ℕ)
      → header_writes process_name (header ++ rest) ≡ header_writes process_name header ++ rest
  unfolding header_writes
  header_writes-append rest =
      rw
        (
          write_at-append 0 messages header rest (omega (arith, size, length-messages)),
          write_at-append signature_offset signature h1 rest (omega (arith, length-h1)),
          write_at-append major_offset (short major_version) h2 rest (omega (arith, length-h2)),
          write_at-append minor_offset (short minor_version) h3 rest (omega (arith, length-h3)),
          write_at-append name_offset (name_bytes process_name) h4 rest
              (omega (arith, length-h4, fits)),
          write_at-append reserve_offset stars h5 rest
              (omega (arith, length-h5, length-replicate {A = ℕ} reserve_size b'*')),
        )
        (write_at-append kernel_offset (short file_type_rights) h6 rest (omega (arith, length-h6)))

  signature-header_writes :
      slice signature_offset 16 (header_writes process_name header) ≡ signature
  unfolding header_writes
  signature-header_writes =
      slice-write_at_before kernel_offset (short file_type_rights) h6 (omega (arith, length-h6))
        signature_offset 16 (omega arith)
      ∙ slice-write_at_before reserve_offset stars h5 (omega (arith, length-h5)) signature_offset 16
          (omega arith)
      ∙ slice-write_at_before name_offset (name_bytes process_name) h4 (omega (arith, length-h4))
          signature_offset 16 (omega arith)
      ∙ slice-write_at_before minor_offset (short minor_version) h3 (omega (arith, length-h3))
          signature_offset 16 (omega arith)
      ∙ slice-write_at_before major_offset (short major_version) h2 (omega (arith, length-h2))
          signature_offset 16 (omega arith)
      ∙ slice-write_at_self signature_offset signature h1 (omega (arith, length-h1))

  type-header_writes :
      slice kernel_offset 2 (header_writes process_name header) ≡ short file_type_rights
  unfolding header_writes
  type-header_writes =
      slice-write_at_self kernel_offset (short file_type_rights) h6 (omega (arith, length-h6))

  stored_type-header_writes : stored_type (header_writes process_name header) ≡ file_type_rights
  unfolding stored_type
  stored_type-header_writes = rw type-header_writes

  -- Into a buffer of the header's size, with a process name that ends inside it, the call
  -- returns "encrypted" and leaves a header of the same size that is recognised as encrypted.
  pub is_encrypted-file_header_init :
      let (code, h) = file_header_init process_name header in
      (code ≡ file_type_rights)
      × (length h ≡ header_size)
      × (is_encrypted_by_file_header h ≡ file_type_rights)
  unfolding file_header_init is_encrypted_by_file_header
  is_encrypted-file_header_init = (
    stored_type-header_writes,
    length-header_writes,
    rw signature-header_writes stored_type-header_writes,
  )

-- A header without the signature is an ordinary file's, whatever type it stores.
pub is_encrypted_needs_signature :
    (header : List ℕ)
    → slice signature_offset 16 header ≢ signature
    → is_encrypted_by_file_header header ≡ file_type_normal
unfolding is_encrypted_by_file_header
is_encrypted_needs_signature header h =
    elim (Bool-cases (bytes_eq (slice signature_offset 16 header) signature)) [
      | inl same ↦ absurd (h (bytes_eq_sound _ _ same))
      | inr other ↦ rw other
    ]
