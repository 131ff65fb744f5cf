-- ===== src/Tests/Files.antt =====
-- `mmap`, `fread` and the threads of `rebuild_file_struct`, on the file system in memory.
use tencryption.Prelude.{
  ℕ, ◌≡◌, ◌<◌, ◌≤◌, ◌+◌, ◌*◌, ◌/◌, ◌%◌, refl, ap, ◌∙◌, none, some, Option, List, [], ◌++◌, length,
  replicate, arith, length-replicate, eq→==,
}
use tencryption.Prelude.Int.{ℤ, pos}
use tencryption.Prelude.Slices.{slice}
use tencryption.Prelude.Text.{codes}
use tencryption.Header.{header_size}
use tencryption.Platform.{Bytes}
use tencryption.Files.{At, update}
use tencryption.Files.Memory.{Disk, cipher, cipher-IsAes, fds_of, memory, memory-Posix}
use tencryption.Linker.Mapping.{Request, mmap, prot_read, map_private}
use tencryption.Linker.Mapping.Laws.{Maps, mmap-stored}
use tencryption.Linker.Streams.{StreamCalls, fread}
use tencryption.Linker.Streams.Laws.{Streams, fread-stored}
use tencryption.Linker.Rebuild.{new_header}
use tencryption.Linker.Rebuild.File.{threads_count}
use tencryption.Linker.Rebuild.Threads.{round_up, average_of, done, interleaving, started}
use tencryption.Linker.Rebuild.Threads.Average.{round_up-bounds}
use tencryption.Linker.Rebuild.Threads.Result.{interleaving-stored}
use tencryption.Linker.Rebuild.Threads.Ends.{interleaving_ends}
use tencryption.Linker.Transfer.Stored.{stored}
use tencryption.Tests.Disk.{
  front, plain, process, sees, at, length-front, listed, made, made_disk, made_process, made_header,
  always_sees,
}

abbrev memory_mmap : Request → ℤ → Disk → Option Bytes × Disk
memory_mmap request fd w = elim (fds_of w.table fd) [
  | none ↦ (none, w)
  | some d ↦ (some (slice request.offset request.size (w.content (w.descriptions d).inode)), w)
]

memory-Maps : Maps memory memory-Posix memory_mmap
unfolding memory-Posix
memory-Maps = record {
  mmap_lem = λ request fd w at private positive page inside.
      (w, rw (memory_mmap, at.stands, at.inode_eq, at.content_eq) refl, refl);
}

abbrev whole_file : Request
whole_file = record { size = 10; prot = prot_read; flags = map_private; offset = 0 }

mmap-stored_example :
    (w : Disk) × (mmap memory memory_mmap whole_file (pos 1) (process 0)
      ≡ some (some plain, record (process 0) { world = w }))
    × At (memory-Posix.view w) (pos 1) 0 0 0 (stored cipher cipher-IsAes front plain)
mmap-stored_example =
    mmap-stored memory memory-Posix cipher-IsAes memory_mmap memory-Maps whole_file (pos 1) front
      plain (sees 0) (listed 0) (omega arith) (omega arith) refl length-front (omega arith)
      (omega arith) (at 0)

abbrev place : ℕ → ℕ → Disk → Disk
place d n w = record w {
  descriptions = update w.descriptions d (record (w.descriptions d) { position = n });
}

-- A stream is a description.
abbrev memory_streams : StreamCalls memory
memory_streams = record {
  Stream = ℕ;
  ftell = λ d w. (pos (w.descriptions d).position, w);
  fseek = λ d n w. (pos 0, place d n w);
  sys_fread = λ size n d w.
      let o = (w.descriptions d).position in
      let bytes = slice o (size * n) (w.content (w.descriptions d).inode) in
      ((length bytes / size, bytes), place d (o + length bytes) w);
}

place_position : (d n : ℕ) (w : Disk) → ((place d n w).descriptions d).position ≡ n
place_position d n w = rw (eq→== d d refl) refl

place_content :
    (d n : ℕ) (w : Disk)
    → (place d n w).content ((place d n w).descriptions d).inode
      ≡ w.content (w.descriptions d).inode
place_content d n w = rw (eq→== d d refl) refl

memory-Streams : Streams memory memory_streams
memory-Streams = record {
  position = λ w d. (w.descriptions d).position;
  content = λ w d. w.content (w.descriptions d).inode;
  calloc_lem = λ n d w. (w, refl, refl, refl);
  ftell_lem = λ d w. (w, refl, refl, refl);
  fseek_lem = λ d n w. (place d n w, refl, place_position d n w, place_content d n w);
  fread_lem = λ n d w.
      let o = (w.descriptions d).position in
      let file : Bytes = w.content (w.descriptions d).inode in
      let once : 1 * n ≡ n = omega arith in
      let whole : length (slice o n file) / 1 ≡ length (slice o n file) = omega arith in
      (
        place d (o + length (slice o n file)) w,
        ap
              (λ m. (
                (length (slice o m file) / 1, slice o m file),
                place d (o + length (slice o m file)) w,
              ))
              once
            ∙ ap (λ k. ((k, slice o n file), place d (o + length (slice o n file)) w)) whole,
        place_content d (o + length (slice o n file)) w,
      );
}

fread-stored_example :
    let out = slice 0 (1 * 10) plain in
    (w : Disk) × (fread memory memory_streams 1 10 0 made_process
      ≡ some ((length out, out), record made_process { world = w }))
    × ((w.descriptions 0).position ≡ header_size + 0 + 1 * 10)
    × (w.content (w.descriptions 0).inode ≡ stored cipher cipher-IsAes made plain)
unfolding memory-Streams
fread-stored_example =
    fread-stored memory memory_streams memory-Streams cipher-IsAes 1 10 0 0 made plain
      (always_sees 0 made_disk) made_header.1 made_header.2 refl refl

round_up-bounds_example :
    (round_up 4096 5001 % 4096 ≡ 0)
    × (5001 ≤ round_up 4096 5001)
    × (round_up 4096 5001 < 5001 + 4096)
round_up-bounds_example = round_up-bounds 4096 5001 (omega arith)

-- 12 blocks, three for each thread.
abbrev large : Bytes
large = replicate (4096 * 12) 65

abbrev cat : Option Bytes
cat = some (codes "cat")

length-large : length large ≡ 4096 * 12
length-large = length-replicate (4096 * 12) 65

large_fair : average_of (length large) * 3 ≤ length large
large_fair =
    let (block, above, under) = round_up-bounds 4096 (length large / threads_count) (omega arith) in
    omega (arith, block, above, under, length-large)

-- From the start the threads can come to their end.
interleaving_ends_example :
    (more : List ℕ) × ((i : ℕ)
      → i < threads_count
      → (interleaving cipher cat large ([] ++ more) (started cipher cat large)).pc i ≡ done)
interleaving_ends_example =
    interleaving_ends cipher cipher-IsAes cat (omega arith) large (omega (arith, length-large))
      large_fair []

the_end :
    (order : List ℕ)
    → (more : List ℕ) × ((i : ℕ)
        → i < threads_count
        → (interleaving cipher cat large (order ++ more) (started cipher cat large)).pc i ≡ done)
the_end =
    interleaving_ends cipher cipher-IsAes cat (omega arith) large (omega (arith, length-large))
      large_fair

interleaving-stored_example :
    (interleaving cipher cat large ([] ++ (the_end []).0) (started cipher cat large)).new
    ≡ some (stored cipher cipher-IsAes (new_header cat) large)
interleaving-stored_example =
    interleaving-stored cipher cipher-IsAes cat (omega arith) large (omega (arith, length-large))
      large_fair ([] ++ (the_end []).0) (the_end []).1
