-- ===== src/Platform.antt =====
-- What the program takes from Android and libc and does not implement: the system calls and file
-- functions behind the `linker_*` pointers of ports/linker.h, system properties, user ids, memory
-- allocation, and three functions that the source calls and does not define. Also the state of a
-- process into which the library is loaded, and calls through the `linker_*` pointers.
use Prim.Native.Nat.{bit_and}
use tencryption.Prelude.{not, ◌==◌, ℕ, Bool, List, none, some, if◌then◌else◌}
use tencryption.Prelude.Int.{ℤ}
use tencryption.Prelude.Exec.{Exec}
use tencryption.Cipher.{Aes}

abbrev pub Bytes : Type 0
Bytes = List ℕ

-- A path as the bytes before its NUL.
abbrev pub FilePath : Type 0
FilePath = List ℕ

-- The functions that the library interposes, each with its `linker_*` pointer.
pub data Syscall : Type 0 where
  dup stat lstat fstat open_file read write close lseek lseek64 pread pwrite mmap fread : Syscall

-- The fields of `struct stat` that the source reads: `S_ISREG(st_mode)` and `st_size`.
pub record Stat : Type 0 where
  pub regular : Bool
  pub st_size : ℤ

pub data Whence : Type 0 where
  seek_set seek_cur seek_end : Whence

-- ports/util.h, `struct file_info` without its list node.
pub record FileInfo : Type 0 where
  pub file_descriptor : ℤ
  pub file_path : FilePath
  pub header : Bytes

-- The global state: `linker_running_state`, the pointers that are not NULL, `file_info_list`,
-- and the world outside the process.
pub record Process (W : Type 0) : Type 0 where
  pub linker_running_state : ℕ
  pub linked : Syscall → Bool
  pub file_info_list : List FileInfo
  pub world : W

-- A read returns its count with the bytes that it put at the start of the buffer.
pub record Platform : Type 1 where
  pub World : Type 0
  pub aes : Aes
  pub sys_dup : ℤ → World → ℤ × World
  pub sys_stat : FilePath → Stat → World → (ℤ × Stat) × World
  pub sys_lstat : FilePath → Stat → World → (ℤ × Stat) × World
  pub sys_fstat : ℤ → Stat → World → (ℤ × Stat) × World
  pub sys_open : FilePath → ℕ → ℕ → World → ℤ × World
  pub sys_read : ℤ → ℕ → World → (ℤ × Bytes) × World
  pub sys_write : ℤ → Bytes → World → ℤ × World
  pub sys_close : ℤ → World → ℤ × World
  pub sys_lseek : ℤ → ℤ → Whence → World → ℤ × World
  pub sys_lseek64 : ℤ → ℤ → Whence → World → ℤ × World
  pub sys_pread : ℤ → ℕ → ℕ → World → (ℤ × Bytes) × World
  pub sys_pwrite : ℤ → Bytes → ℕ → World → ℤ × World
  pub sys_remove : FilePath → World → ℤ × World
  pub sys_ftruncate : ℤ → ℕ → World → ℤ × World
  pub sys_rename : FilePath → FilePath → World → ℤ × World
  -- `access(path, F_OK) == 0`
  pub accessible : FilePath → World → Bool
  -- `fcntl(fd, F_GETFL)`
  pub status_flags : ℤ → World → ℕ
  -- whether `calloc` of so many bytes succeeds
  pub calloc : ℕ → World → Bool × World
  -- the value that `__system_property_get` copies, empty if the property is not set
  pub property : Bytes → World → Bytes
  pub getuid : World → ℕ
  pub getgid : World → ℕ
  pub getpid : World → ℕ
  pub aid_user : ℕ
  pub aid_media : ℕ
  pub prop_value_max : ℕ
  pub process_name_max : ℕ
  -- `linker_reload` and the two tests on file types, which the source declares or calls only
  pub linker_reload : Process World → Process World
  pub is_support_file_type_by_path : FilePath → ℕ
  pub is_support_special_file_type_by_path : FilePath → ℕ

-- Code of the library in a process; a fault is undefined behaviour.
abbrev pub Run : Platform → Type 0 → Type 0
Run P A = Exec (Process P.World) A

module _ (P : Platform) {A : Type 0} where
  -- A system call.
  abbrev pub system : (P.World → A × P.World) → Run P A
  system op s = some ((op s.world).0, record s { world = (op s.world).1 })

  -- A call through a `linker_*` pointer: a NULL pointer is a fault.
  unfoldable pub linker : Syscall → (P.World → A × P.World) → Run P A
  linker c op s = if s.linked c then system op s else none

abbrev pub path_max : ℕ
path_max = 1024

-- fcntl.h on Linux.
abbrev pub o_rdonly : ℕ
o_rdonly = 0

abbrev pub o_wronly : ℕ
o_wronly = 1

abbrev pub o_rdwr : ℕ
o_rdwr = 2

abbrev pub o_creat : ℕ
o_creat = 64

abbrev pub o_excl : ℕ
o_excl = 128

abbrev pub o_trunc : ℕ
o_trunc = 512

abbrev pub o_append : ℕ
o_append = 1024

-- `flags & bit`, as a test.
abbrev pub has : ℕ → ℕ → Bool
has flags bit = not (bit_and flags bit == 0)

-- The access mode of `flags`: its two lowest bits.
abbrev pub reads : ℕ → Bool
reads flags = not (bit_and flags 3 == o_wronly)

abbrev pub writes : ℕ → Bool
writes flags = not (bit_and flags 3 == o_rdonly)
