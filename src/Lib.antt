-- ===== src/Lib.antt =====
-- Transparent file encryption for Android: a library put in front of libc's file functions, so
-- that trusted processes read and write plain text while the files on disk hold a header of 4096
-- bytes and AES blocks. Paths below are from the root of the repository.
--
-- - Prelude: tests on native numbers, lists, integers, C strings (a text is the bytes before the
--   NUL), slices and `memcpy` into a buffer, and code that changes a state and may fault (a NULL
--   pointer that is read, an index below a buffer).
-- - Text: `trim` of ports/util.c, and what the source uses of string.h, `atoi`, `sscanf` and
--   `sprintf`.
-- - Cipher: `aes_encrypt_128bit` and `aes_decrypt_128bit` of ports/crypto.c, and the block loops of
--   `read` and `write` in ports/linker.c. AES itself is a parameter (`Aes`); its laws (`IsAes`) are
--   that a block keeps its 16 bytes and that decryption under the user's key undoes encryption.
-- - Header: ports/crypto.h, `file_header_init` and `is_encrypted_by_file_header` of ports/crypto.c.
-- - Platform: what the code calls outside of the repository, as functions on a state of the system:
--   the `linker_*` pointers to libc, `calloc`, `access`, the Android properties, `getuid`. `Process`
--   is the state of the library: `linker_running_state`, the pointers that are loaded, and the list
--   of tracked descriptors.
-- - FileInfos: the list of tracked descriptors of ports/util.c (`file_info_list_*`), which holds
--   each item's descriptor, path and header.
-- - Access: who sees plain text, `is_trust_process` and `get_domain_state` of ports/util.c.
-- - Detect: `is_encrypted_by_fd`, `is_encrypted_by_path` and `get_process_name`.
-- - Linker: the interposed functions of ports/linker.c: `dup` and `close` (Descriptors), `stat`,
--   `lstat` and `fstat` (Sizes), `lseek`, `lseek64`, `pread` and `pwrite` (Positions), `read` and
--   `write` (Transfer), `open` (Open), `mmap` (Mapping), and `fread` with `is_encrypted_by_stream`
--   of ports/crypto.c (Streams); `open` together with what follows it (Session). A file is stored
--   as a header and the content with its complete blocks encrypted (`stored`, Transfer/Stored).
--   Each function begins with `gate`: a process that is not trusted, or whose domain has
--   encryption off, gets libc's function.
-- - Linker/Rebuild: `rebuild_file_struct`, with which `open` encrypts a plain file: a small file at
--   once (Rebuild/File), and a larger one by four threads on a new file, which is then renamed
--   (Rebuild/Workers). A state is the process and a place for each thread, a step of a thread is its
--   code up to its next call that another thread can see, and a run is a list of thread numbers, in
--   the order in which the scheduler lets them take a step. Rebuild/Threads is the abstract view of
--   these threads: the same steps on the content of the new file alone.
-- - SecureDirectory: `is_security_directory` of ports/util.c; `getcwd` is an argument.
-- - Usb and User: usb/usb.c and user/user.c, for programs that do not load the library.
-- - Daemon: `handle_request` of daemon/cmccd.c, with the tokens of `strtok` on its buffer.
--   Daemon/Owners: its child process, which sets mode and owner of files, for a number of rounds.
-- - Ftype: the tables and the search of ports/ftype.c and init/ftype.c.
-- - Files: the state that POSIX documents (descriptors, open file descriptions, contents) and the
--   law of each call on a regular file, on a system with memory left and no I/O error. Files/Memory
--   is a file system in memory that meets these laws; Tests uses it for the theorems at concrete
--   inputs.
--
-- Numbers are natural numbers, with `ssize_t`, `off_t` and `int` results as integers; sizes of
-- files are taken to be below 2^63, and the loops' `int` counters below 2^31. The `unsigned int`
-- arguments of the threads and the `int` length of `mmap` wrap around as in the code; sums and
-- products of `size_t` counts, as in `read` and `fread`, are taken to be below 2^64. The loop of
-- `trim` runs on fuel, one round more than the buffer has bytes, and the loop that rounds the share
-- of a thread on fuel of 4096; both are proved to end within it. All other loops are recursions on a
-- list or on a number of rounds, but for the loops of the threads, which are steps.
--
-- Not modelled: what `read` does after a failed allocation, which is a fault of the model; what a
-- call of a thread that fails does to the other threads, beyond the creation of the first thread; in
-- a shared mapping of `mmap`, what the decryption in place does to the file;
-- `update_usb_connector_state` of ports/util.c, which compares with constants that no file defines;
-- crypto/crypto.c and init/util.c, which repeat parts of ports/; of the daemon, the loop of
-- `main` that accepts connections; logging; init/init.c, whose code is commented out.
pub mod Prelude
pub mod Cipher
pub mod Header
pub mod Text
pub mod Platform
pub mod FileInfos
pub mod Access
pub mod Detect
pub mod Linker
pub mod Files
pub mod Ftype
pub mod Daemon
pub mod Usb
pub mod SecureDirectory
pub mod User
pub mod Tests
