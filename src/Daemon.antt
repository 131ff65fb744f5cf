-- ===== src/Daemon.antt =====
-- daemon/cmccd.c, `handle_request`: one request of a client, read from its socket. The buffer on the
-- stack is not initialised, so what it holds is a parameter, and whether `char` is signed is one too.
pub mod Laws
pub mod Owners
use tencryption.Prelude.{ℕ, Bool, ◌&&◌, Option, none, some, [], ◌∷◌, leb, ◌==◌, if◌then◌else◌}
use tencryption.Prelude.Int.{ℤ, pos, ◌-ℤ◌, eqb_ℤ, is_pos}
use tencryption.Prelude.Exec.{Exec, pure, fault, ◌>>=◌, ◌>>◌}
use tencryption.Prelude.Slices.{write_at}
use tencryption.Text.Number.{atoi}
use tencryption.Platform.{Platform, Bytes}

-- CONVERT_FILE_DESCRIPTOR_TO_FILE_PATH
abbrev pub convert_command : ℤ
convert_command = pos 129

abbrev pub command_package_size : ℕ
command_package_size = 257

-- The value of a byte of the buffer as a `char`.
unfoldable pub char_value : Bool → ℕ → ℤ
char_value signed byte = if signed && leb 128 byte then pos byte -ℤ pos 256 else pos byte

-- The bytes of a token up to the NUL or delimiter that ends it, and where the next call begins.
-- `none` reads past the buffer.
unfoldable pub token_in : ℕ → Bytes → Option (Bytes × Bytes)
token_in delim [] = none
token_in delim (c ∷ buffer) =
    let rest = token_in delim buffer in
    if c == 0
    then some ([], c ∷ buffer)
    else if c == delim
    then some ([], buffer)
    else elim rest [ none ↦ none | some (token, behind) ↦ some (c ∷ token, behind) ]

named : Option (Bytes × Bytes) → Option (Option Bytes × Bytes)
named none = none
named (some (token, behind)) = some (some token, behind)

-- `strtok` on a buffer: the token, or the NULL pointer where only delimiters are left.
unfoldable pub strtok_in : ℕ → Bytes → Option (Option Bytes × Bytes)
unfolding named
strtok_in delim [] = none
strtok_in delim (c ∷ buffer) =
    let rest = strtok_in delim buffer in
    if c == 0
    then some (none, c ∷ buffer)
    else if c == delim
    then rest
    else named (token_in delim (c ∷ buffer))

module _ (P : Platform) where
  -- The path that it prints into its own array is not used.
  unfoldable pub convert_file_descriptor_to_file_path : ℤ → ℤ → Exec P.World (Option Bytes)
  convert_file_descriptor_to_file_path pid fd = pure none

  -- `atoi(strtok(s, ","))`, which reads the NULL pointer where there is no token.
  unfoldable pub field : Bytes → Exec P.World (ℤ × Bytes)
  field buffer = elim (strtok_in b',' buffer) [
    | none ↦ fault
    | some (token, behind) ↦ elim token [ none ↦ fault | some digits ↦ pure (atoi digits, behind) ]
  ]

  unfoldable pub convert_request : Bytes → Exec P.World Unit
  unfolding field convert_file_descriptor_to_file_path
  convert_request [] = fault
  convert_request (c ∷ content) = if c == 0 then pure tt else (do
    (s_fd, behind) ← field (c ∷ content)
    (s_pid, end) ← field behind
    convert_file_descriptor_to_file_path s_pid s_fd
    pure tt)

  unfoldable pub switch_command : Bool → Bytes → Exec P.World Unit
  unfolding convert_request char_value
  switch_command signed [] = fault
  switch_command signed (command ∷ content) =
      if eqb_ℤ (char_value signed command) convert_command then convert_request content else pure tt

  -- A system call of the daemon.
  abbrev call : {A : Type 0} → (P.World → A × P.World) → Exec P.World A
  call op w = some (op w)

  unfoldable pub handle_request : Bool → Bytes → ℤ → Exec P.World Unit
  unfolding switch_command
  handle_request signed stack fd = do
    (count, bytes) ← call (P.sys_read fd command_package_size)
    if is_pos count then switch_command signed (write_at 0 bytes stack) else pure tt
    call (P.sys_close fd)
    pure tt
