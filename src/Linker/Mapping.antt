-- ===== src/Linker/Mapping.antt =====
-- ports/linker.c: `mmap`. The memory of a private mapping is given by its bytes: the decryption in
-- place changes the memory and not the file.
pub mod Laws
use Prim.Native.Nat.{bit_and}
use tencryption.Prelude.{
  ℕ, suc, ◌+◌, ◌-◌, ◌/◌, ◌%◌, ◌^◌, Option, none, some, ltb, ◌==◌, if◌then◌else◌,
}
use tencryption.Prelude.Int.{ℤ, pos, negsuc}
use tencryption.Prelude.Exec.{pure, ◌>>=◌, ◌>>◌}
use tencryption.Cipher.{decrypt_blocks}
use tencryption.Header.{header_size}
use tencryption.Linker.{gate, is_plain_fd}
use tencryption.Linker.Transfer.{no_stat}
use tencryption.Platform.{Platform, Bytes, Run, Syscall, linker}

-- sys/mman.h on Linux.
abbrev pub prot_read : ℕ
prot_read = 1

abbrev pub prot_write : ℕ
prot_write = 2

abbrev pub prot_exec : ℕ
prot_exec = 4

abbrev pub map_private : ℕ
map_private = 2

-- The arguments of `mmap` besides the descriptor.
pub record Request : Type 0 where
  pub size : ℕ
  pub prot : ℕ
  pub flags : ℕ
  pub offset : ℕ

-- `len` for a file of this size: the bits of an `int` of 32 bits.
abbrev pub map_len : ℤ → ℕ
map_len (pos size) = (size + (2 ^ 32 - header_size)) % 2 ^ 32
map_len (negsuc n) = (2 ^ 32 - (header_size + suc n) % 2 ^ 32) % 2 ^ 32

-- `len` as the `size_t` that is passed on: a negative one gets the bits above it.
abbrev pub map_size : ℕ → ℕ
map_size len = if ltb len (2 ^ 31) then len else len + (2 ^ 64 - 2 ^ 32)

-- The rounds of the loop, none for a negative `len`.
abbrev pub map_rounds : ℕ → ℕ
map_rounds len = if ltb len (2 ^ 31) then len / 16 else 0

abbrev pub map_prot : ℕ → ℕ
map_prot prot =
    let with_exec = if bit_and prot prot_exec == 0 then prot + prot_exec else prot in
    if bit_and with_exec prot_write == 0 then with_exec + prot_write else with_exec

-- `sys_mmap` is libc's function: the bytes of the mapping, or `none` for `MAP_FAILED`.
module _ (P : Platform) (sys_mmap : Request → ℤ → P.World → Option Bytes × P.World) where
  map_plain : Request → ℤ → Run P (Option Bytes)
  map_plain request fd = linker P Syscall.mmap (sys_mmap request fd)

  -- The whole content behind the header, decrypted, or else what libc gives.
  map_encrypted : Request → ℤ → Run P (Option Bytes)
  unfolding map_plain
  map_encrypted request fd = do
    (rc, state) ← linker P Syscall.fstat (P.sys_fstat fd no_stat)
    result ← linker P Syscall.mmap (
        sys_mmap
          (record {
            size = map_size (map_len state.st_size);
            prot = map_prot request.prot;
            flags = request.flags;
            offset = request.offset + header_size;
          })
          fd)
    elim result [
      | none ↦ map_plain request fd
      | some bytes ↦ pure (some (decrypt_blocks P.aes 0 (map_rounds (map_len state.st_size)) bytes))
    ]

  -- `mmap` behind the tests on the process.
  unfoldable pub mmap_transparent : Request → ℤ → Run P (Option Bytes)
  unfolding is_plain_fd map_plain map_encrypted linker
  mmap_transparent request fd = do
    plain ← is_plain_fd P fd
    if plain
        then map_plain request fd
        else if bit_and request.prot prot_read == 0
        then map_plain request fd
        else map_encrypted request fd

  unfoldable pub mmap : Request → ℤ → Run P (Option Bytes)
  unfolding gate mmap_transparent map_plain linker
  mmap request fd = gate P Syscall.mmap none (map_plain request fd) (mmap_transparent request fd)
