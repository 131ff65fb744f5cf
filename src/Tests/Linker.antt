-- ===== src/Tests/Linker.antt =====
-- ports/linker.c and ports/crypto.c: the theorems on the interposed functions at concrete inputs.
use Prim.Native.Nat.{bit_and}
use tencryption.Prelude.{take, ◌+◌, ◌≡◌, ◌≢◌, refl, true, none, some, [], ◌∷◌, ◌++◌, length, arith}
use tencryption.Prelude.Int.{ℤ, pos}
use tencryption.Header.{header_size}
use tencryption.Platform.{Process, Bytes, seek_set}
use tencryption.Files.{At}
use tencryption.Files.Memory.{Disk, cipher, cipher-IsAes, memory, memory-Posix, fds_of, entry}
use tencryption.Cipher.Blocks.{all_blocks, dec}
use tencryption.Header.{is_encrypted_by_file_header}
use tencryption.FileInfos.{find_fd}
use tencryption.FileInfos.Laws.{NodupFds}
use tencryption.Linker.Descriptors.{close}
use tencryption.Linker.Positions.{lseek}
use tencryption.Header.{file_type_rights}
use tencryption.Linker.Rebuild.{rebuilt, new_header, rebuilt-stored}
use tencryption.Linker.Sizes.{fstat}
use tencryption.Linker.Sizes.Laws.{fstat-stored}
use tencryption.Linker.Tracked.{lseek_set, close_untracks}
use tencryption.Linker.Transfer.{no_stat, read, write}
use tencryption.Linker.Transfer.Read.{read_lem, read_start}
use tencryption.Files.{moved, closed}
use tencryption.Prelude.Slices.{slice}
use tencryption.Prelude.Text.{codes}
use tencryption.Linker.Gate.{SeesPlain}
use tencryption.Linker.Transfer.Stored.{stored}
use tencryption.Linker.Transfer.Roundtrip.{write_and_read, read-write}
use tencryption.Linker.Transfer.Write.{write_appends, read-stored}
use tencryption.Detect.{is_encrypted_by_fd}
use tencryption.Detect.Laws.{is_encrypted_by_fd_lem}
use tencryption.Linker.Transfer.Stored.{length-file}
use tencryption.Tests.Disk.{
  front, plain, disk, tracked, process, always_sees, sees, at, length-front, listed, in_place,
  resolved, nodup_tracked, made, made_disk, made_process, made-At, made_header,
}

write_appends_example :
    (w : Disk) × (write memory (pos 1) (codes "hello") (process (header_size + 20))
      ≡ some (pos 5, record (process (header_size + 20)) { world = w }))
    × At
        (memory-Posix.view w)
        (pos 1)
        0
        0
        (header_size + length (plain ++ codes "hello"))
        (stored cipher cipher-IsAes front (plain ++ codes "hello"))
write_appends_example =
    write_appends memory memory-Posix cipher-IsAes (pos 1) (codes "hello") front plain
      (sees (header_size + 20)) length-front (at (header_size + 20)) (in_place (header_size + 20))
      (listed (header_size + 20)) (resolved (header_size + 20)) (omega arith)

read-write_example :
    (w : Disk) × (write_and_read memory
        (pos 1)
        (codes "hello")
        (length plain)
        (process (header_size + 20))
      ≡ some ((pos 5, codes "hello"), record (process (header_size + 20)) { world = w }))
    × At
        (memory-Posix.view w)
        (pos 1)
        0
        0
        (header_size + length (plain ++ codes "hello"))
        (stored cipher cipher-IsAes front (plain ++ codes "hello"))
read-write_example =
    read-write memory memory-Posix cipher-IsAes (pos 1) (codes "hello") front plain
      (process (header_size + 20)) (always_sees (header_size + 20)) length-front
      (at (header_size + 20)) (in_place (header_size + 20)) (listed (header_size + 20))
      (resolved (header_size + 20)) (omega arith)

read-stored_example :
    let out = slice 3 7 plain in
    (w : Disk) × (read memory (pos 1) 7 (process (header_size + 3))
      ≡ some ((pos (length out), out), record (process (header_size + 3)) { world = w }))
    × (memory-Posix.view w
        ≡ moved 0 (header_size + 3 + length out) (memory-Posix.view (disk (header_size + 3))))
read-stored_example =
    read-stored memory memory-Posix cipher-IsAes (pos 1) 7 3 front plain (sees (header_size + 3))
      length-front (at (header_size + 3)) (listed (header_size + 3))

abbrev decrypted_file : Bytes
decrypted_file = all_blocks (dec cipher cipher-IsAes) (stored cipher cipher-IsAes front plain)

read_example :
    let out = slice (header_size + 3) 7 decrypted_file in
    (w : Disk) × (read memory (pos 1) 7 (process (header_size + 3))
      ≡ some ((pos (length out), out), record (process (header_size + 3)) { world = w }))
    × (memory-Posix.view w
        ≡ moved 0 (header_size + 3 + length out) (memory-Posix.view (disk (header_size + 3))))
read_example =
    read_lem memory memory-Posix cipher-IsAes (pos 1) 7 (header_size + 3) (sees (header_size + 3))
      (at (header_size + 3)) (listed (header_size + 3)) (omega arith)

read_start_example :
    let out = slice header_size 7 decrypted_file in
    (w : Disk) × (read memory (pos 1) 7 (process 0)
      ≡ some ((pos (length out), out), record (process 0) { world = w }))
    × (memory-Posix.view w
        ≡ moved 0 (header_size + length out) (moved 0 header_size (memory-Posix.view (disk 0))))
read_start_example =
    read_start memory memory-Posix cipher-IsAes (pos 1) 7 (sees 0) (at 0) (listed 0)

lseek_set_example :
    (w : Disk) × (lseek memory (pos 1) (pos 6) seek_set (process 0)
      ≡ some (pos 6, record (process 0) { world = w }))
    × (memory-Posix.view w ≡ moved 0 (6 + header_size) (memory-Posix.view (disk 0)))
lseek_set_example = lseek_set memory memory-Posix (pos 1) 6 (sees 0) (at 0) (listed 0)

close_untracks_example :
    (u : Process Disk) × (close memory (pos 1) (process 9) ≡ some (pos 0, u))
    × (memory-Posix.view u.world ≡ closed (pos 1) (moved 0 0 (memory-Posix.view (disk 9))))
    × NodupFds u.file_info_list
    × (find_fd (pos 1) u.file_info_list ≡ none)
    × ((g : ℤ) → g ≢ pos 1 → find_fd g u.file_info_list ≡ find_fd g (tracked ∷ []))
close_untracks_example =
    close_untracks memory memory-Posix (pos 1) (sees 9) (at 9) (listed 9) nodup_tracked

read_write_mode : bit_and ((memory-Posix.view made_disk).descriptions 0).flags 1 ≢ 1
unfolding memory-Posix
read_write_mode e = absurd (omega (arith, e))

shown_mode : bit_and (memory.status_flags (pos 1) made_disk) 1 ≢ 1
unfolding fds_of entry
shown_mode e = absurd (omega (arith, e))

made_sees : SeesPlain memory made_process made_process
made_sees = always_sees 0 made_disk

fstat-stored_example :
    (w : Disk) × (fstat memory (pos 1) no_stat made_process
      ≡ some (
        (pos 0, record { regular = true; st_size = pos (length plain) }),
        record made_process { world = w },
      ))
    × At (memory-Posix.view w) (pos 1) 0 0 0 (stored cipher cipher-IsAes made plain)
fstat-stored_example =
    fstat-stored memory memory-Posix cipher-IsAes 1 no_stat made plain made_sees read_write_mode
      (made_header.1) (made_header.2) made-At

is_encrypted_by_fd_example :
    (w : Disk) × (is_encrypted_by_fd memory (pos 1) made_process
      ≡ some (
        is_encrypted_by_file_header (take header_size (stored cipher cipher-IsAes made plain)),
        record made_process { world = w },
      ))
    × At (memory-Posix.view w) (pos 1) 0 0 0 (stored cipher cipher-IsAes made plain)
is_encrypted_by_fd_example =
    is_encrypted_by_fd_lem memory memory-Posix 1 made_process (λ c. refl) shown_mode made-At
      (omega (arith, length-file cipher cipher-IsAes made plain made_header.1))

rebuilt-stored_example :
    let header = new_header (some (codes "cat")) in
    (rebuilt cipher (some (codes "cat")) plain ≡ stored cipher cipher-IsAes header plain)
    × (length header ≡ header_size)
    × (is_encrypted_by_file_header header ≡ file_type_rights)
rebuilt-stored_example = rebuilt-stored cipher cipher-IsAes (some (codes "cat")) (omega arith) plain
