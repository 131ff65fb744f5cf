-- ===== src/Tests/Threads.antt =====
-- The threads of `rebuild_file_struct` and `open` of a larger file, on the file system in memory.
use tencryption.Prelude.{
  ◌^◌, ◌↔◌, ℕ, ◌+◌, ◌*◌, ◌/◌, ◌<◌, ◌≤◌, ◌≡◌, ◌≢◌, refl, sym, ap, ◌∙◌, Bool, not, ◌==◌, true, none,
  some, inr, List, [], ◌∷◌, ◌++◌, length, take, replicate, arith, length-replicate,
  replicate-append, Option,
}
use tencryption.Prelude.Int.{ℤ}
use tencryption.Prelude.Text.{codes}
use tencryption.Prelude.Slices.{take-append_of_length}
use tencryption.Header.{
  header_size, file_type_normal, file_type_rights, is_encrypted_by_file_header,
}
use tencryption.Detect.Name.{name_of}
use tencryption.Files.Memory.{Disk, cipher-IsAes, memory, memory-Posix}
use tencryption.Linker.Open.{open_file}
use tencryption.Linker.Open.Encrypted.{IsOpened}
use tencryption.Linker.Open.Large.{all_threads, open_large_lem}
use tencryption.Linker.Open.Probe.{IsPlain}
use tencryption.Linker.Rebuild.{new_header}
use tencryption.Linker.Rebuild.File.{threads_count}
use tencryption.Linker.Rebuild.Threads.{average_of}
use tencryption.Linker.Rebuild.Threads.Average.{round_up-bounds, SharesFit, SharesFit-iff}
use tencryption.Linker.Rebuild.Threads.Result.{zeros_ordinary}
use tencryption.Linker.Rebuild.Workers.{ended, Workers, spawned, works, rebuild_large}
use tencryption.Linker.Rebuild.Workers.Join.{AllEnded, IsRebuilt, rebuild_large_lem}
use tencryption.Linker.Rebuild.Workers.Finish.{works_end}
use tencryption.Linker.Rebuild.Workers.Failed.{stuck_without_first}
use tencryption.Platform.{Bytes, FilePath, Process, o_rdwr}
use tencryption.Tests.Open.{
  shelf, starting, starting_sees, none_open, root_found, other_absent, named, shelf_content,
}

-- 12 blocks, three for each thread.
abbrev zeros : Bytes
zeros = replicate (header_size + 4096 * 11) 0

length-zeros : length zeros ≡ 4096 * 12
length-zeros = length-replicate (header_size + 4096 * 11) 0

zeros_fair : average_of (length zeros) * 3 ≤ length zeros
zeros_fair =
    let (block, above, under) = round_up-bounds 4096 (length zeros / threads_count) (omega arith) in
    omega (arith, block, above, under, length-zeros)

zeros-IsPlain : IsPlain zeros
zeros-IsPlain = inr (λ e.
    let front : take header_size zeros ≡ replicate header_size 0 =
      ap (take header_size) (replicate-append header_size (4096 * 11) 0)
      ∙ take-append_of_length header_size (replicate header_size 0) (replicate (4096 * 11) 0)
          (length-replicate header_size 0) in
    let same : file_type_normal ≡ file_type_rights =
      sym zeros_ordinary ∙ ap is_encrypted_by_file_header (sym front) ∙ e in
    absurd (omega (arith, same)))

size_fits : length zeros + header_size < 2 ^ 31
size_fits = omega (arith, length-zeros)

rebuild_large_lem_example :
    (w : Workers memory (codes "/")) × (works memory
        (codes "/")
        (λ i. true)
        (length zeros)
        (0 ∷ 1 ∷ 0 ∷ 2 ∷ [])
        (spawned memory (codes "/") (starting zeros))
      ≡ some w)
    × (AllEnded memory (codes "/") w
        → (u : Disk) × (rebuild_large memory
              (all_threads (0 ∷ 1 ∷ 0 ∷ 2 ∷ []))
              (codes "/")
              (length zeros)
              (starting zeros)
            ≡ some (1, record (starting zeros) { world = u }))
          × IsRebuilt memory cipher-IsAes
              (codes "/")
              (new_header (some (name_of memory memory-Posix (codes "cat"))))
              zeros
              (memory-Posix.view (shelf zeros))
              (memory-Posix.view u))
rebuild_large_lem_example =
    rebuild_large_lem memory memory-Posix cipher-IsAes (all_threads (0 ∷ 1 ∷ 0 ∷ 2 ∷ []))
      (codes "/") zeros (codes "cat") (starting zeros) (λ c. refl) refl (λ i below. refl)
      (named zeros) (omega arith) (omega arith) size_fits zeros_fair (root_found zeros)
      (shelf_content zeros) (other_absent zeros)

works_end_example :
    (more : List ℕ) × (v : Workers memory (codes "/")) × (works memory
        (codes "/")
        (λ i. true)
        (length zeros)
        ((3 ∷ 0 ∷ []) ++ more)
        (spawned memory (codes "/") (starting zeros))
      ≡ some v)
    × AllEnded memory (codes "/") v
works_end_example =
    works_end memory memory-Posix cipher-IsAes (3 ∷ 0 ∷ []) (λ i. true) (codes "/") zeros
      (codes "cat") (starting zeros) (λ c. refl) (λ i below. refl) (named zeros) (omega arith)
      (omega arith) size_fits zeros_fair (root_found zeros) (shelf_content zeros)
      (other_absent zeros)

open_large_lem_example :
    let header = new_header (some (name_of memory memory-Posix (codes "cat"))) in
    (start : Disk) × ((order : List ℕ)
      → (w : Workers memory (codes "/")) × (works memory
            (codes "/")
            (λ k. true)
            (length zeros)
            order
            (spawned memory (codes "/") (record (starting zeros) { world = start }))
          ≡ some w)
        × (AllEnded memory (codes "/") w
            → (fd : ℤ) × (u : Process Disk) × (open_file memory
                  (rebuild_large memory (all_threads order))
                  (codes "/")
                  o_rdwr
                  0
                  (starting zeros)
                ≡ some (fd, u))
              × (is_encrypted_by_file_header header ≡ file_type_rights)
              × IsOpened memory memory-Posix cipher-IsAes
                  (starting zeros)
                  u
                  fd
                  (codes "/")
                  o_rdwr
                  header
                  zeros))
    × ((order : List ℕ)
        → (more : List ℕ) × (w : Workers memory (codes "/")) × (works memory
              (codes "/")
              (λ k. true)
              (length zeros)
              (order ++ more)
              (spawned memory (codes "/") (record (starting zeros) { world = start }))
            ≡ some w)
          × AllEnded memory (codes "/") w)
open_large_lem_example =
    open_large_lem memory memory-Posix cipher-IsAes (codes "/") o_rdwr 0 zeros (codes "cat")
      (starting_sees zeros) (omega arith) (λ e. cc) (omega arith) (omega arith) refl refl refl
      (root_found zeros) (shelf_content zeros) (other_absent zeros) (omega (arith, length-zeros))
      (omega (arith, length-zeros)) zeros_fair zeros-IsPlain (named zeros) (none_open zeros)

abbrev without_first : ℕ → Bool
without_first i = not (i == 0)

stuck_without_first_example :
    (v : Workers memory (codes "/")) × (works memory
        (codes "/")
        without_first
        (length zeros)
        (1 ∷ 0 ∷ 2 ∷ 1 ∷ [])
        (spawned memory (codes "/") (starting zeros))
      ≡ some v)
    × ((i : ℕ) → i < threads_count → (result : Option FilePath) → v.place i ≢ ended result)
    × (rebuild_large memory
          (record { attributes = true; created = without_first; order = 1 ∷ 0 ∷ 2 ∷ 1 ∷ [] })
          (codes "/")
          (length zeros)
          (starting zeros)
        ≡ none)
stuck_without_first_example =
    stuck_without_first memory memory-Posix cipher-IsAes (1 ∷ 0 ∷ 2 ∷ 1 ∷ []) without_first 2
      (codes "/") zeros (codes "cat") (starting zeros) (λ c. refl) refl (omega arith) refl
      (named zeros) (omega arith) (omega arith) size_fits zeros_fair (root_found zeros)
      (shelf_content zeros) (other_absent zeros)

SharesFit-iff_example : (average_of 16388 * 3 ≤ 16388) ↔ SharesFit 16388
SharesFit-iff_example = SharesFit-iff 16388 (omega arith)
