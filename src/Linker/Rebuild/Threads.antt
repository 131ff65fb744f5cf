-- ===== src/Linker/Rebuild/Threads.antt =====
-- ports/linker.c: `pthread_rfs_run`, and the part of `rebuild_file_struct` that starts its threads
-- on a larger file. The threads share the new file, and a step of one of them is what it does up to
-- its next change of that file or its next look at it.
pub mod Average
pub mod Pages
pub mod Sound
pub mod Result
pub mod Ends
use tencryption.Prelude.{
  ℕ, zero, suc, ◌+◌, ◌*◌, ◌-◌, ◌/◌, ◌%◌, ◌^◌, Option, none, some, List, [], ◌∷◌, length, replicate,
  ltb, leb, ◌==◌, if◌then◌else◌,
}
use tencryption.Prelude.Slices.{slice, write_at}
use tencryption.Cipher.{Aes, encrypt_blocks}
use tencryption.Header.{
  header_size, file_header_init, is_encrypted_by_file_header, file_type_rights,
}
use tencryption.Detect.{header_buffer}
use tencryption.Linker.Rebuild.File.{threads_count}
use tencryption.Platform.{Bytes}

-- The loop that rounds the share of a thread up, on fuel.
unfoldable pub round_up : ℕ → ℕ → ℕ
round_up zero average = average
round_up (suc fuel) average =
    let rest = round_up fuel (average + 1) in if average % 4096 == 0 then average else rest

abbrev pub average_of : ℕ → ℕ
average_of size = round_up 4096 (size / threads_count)

-- `pthread_rfs_arg_t`: the fields are unsigned and of 32 bits.
pub record Args : Type 0 where
  pub number : ℕ
  pub postion : ℕ
  pub bsize : ℕ
  pub tsize : ℕ

-- The last thread takes what is left, which is negative if the others take more than the file: no
-- block, as with 0.
abbrev pub args_of : ℕ → ℕ → Args
args_of size i =
    let average = average_of size in
    record {
      number = i;
      postion = average * i % 2 ^ 32;
      bsize = (if ltb i (threads_count - 1) then average else size - average * i) % 2 ^ 32;
      tsize = size % 2 ^ 32;
    }

-- Where a thread is: thread 0 before the new file is there, before it has its size, and before it
-- has its header; any thread before it has seen the header; in the loop, with the offset and the
-- size left; behind the loop; at its end.
pub data Pc : Type 0 where
  create extend head spin : Pc
  copy : ℕ → ℕ → Pc
  last : ℕ → Pc
  done : Pc

module _ (A : Aes) (process_name : Option Bytes) (plain : Bytes) where
  -- The header that thread 0 writes, if it is one.
  unfoldable pub write_head : Bytes → Bytes
  write_head file =
      let (kind, buff) = file_header_init process_name (replicate header_size 0) in
      if kind == file_type_rights then write_at 0 buff file else file

  -- `access` and `is_encrypted_by_path`.
  unfoldable pub header_seen : Option Bytes → ℕ
  header_seen none = 0
  header_seen (some file) =
      if is_encrypted_by_file_header (header_buffer (slice 0 header_size file)) == file_type_rights
      then 1
      else 0

  abbrev encrypted : Bytes → Bytes
  encrypted buff = encrypt_blocks A 0 (length buff / 16) buff

  -- One round of the loop: a whole block moves the offset, and is written at the new one.
  unfoldable pub copy_block : ℕ → Bytes → ℕ × Bytes
  copy_block offset file =
      let buff = slice offset 4096 plain in
      let next = if length buff == 4096 then offset + length buff else offset in
      (next, write_at next (encrypted buff) file)

  -- What the last thread does with the bytes behind the last whole block.
  unfoldable pub copy_tail : ℕ → Bytes → Bytes
  copy_tail offset file =
      let buff = slice offset 4096 plain in
      if ltb 0 (length buff) then write_at (offset + 4096) (encrypted buff) file else file

  on_file : Option Bytes → (Bytes → Pc × Option Bytes) → Pc × Option Bytes
  on_file none f = (done, none)
  on_file (some file) f = f file

  -- A step of a thread. Without the new file a thread ends.
  unfoldable pub step : Args → Pc → Option Bytes → Pc × Option Bytes
  unfolding write_head header_seen copy_block copy_tail on_file
  step a create new = (extend, some [])
  step a extend new = (head, some (replicate (a.tsize + header_size) 0))
  step a head new = on_file new (λ file. (spin, some (write_head file)))
  step a spin new = if header_seen new == 1 then (copy a.postion a.bsize, new) else (spin, new)
  step a (copy offset bsize) new =
      if leb 4096 bsize
      then on_file new (λ file.
        let (next, file') = copy_block offset file in (copy next (bsize - 4096), some file'))
      else if a.number + 1 == threads_count
      then (last offset, new)
      else (done, new)
  step a (last offset) new = on_file new (λ file. (done, some (copy_tail offset file)))
  step a done new = (done, new)

  -- The new file and the threads.
  pub record Threads : Type 0 where
    pub new : Option Bytes
    pub pc : ℕ → Pc

  -- Thread 0 with offset 0 makes the new file, the others wait.
  abbrev pub started : Threads
  started = record { new = none; pc = λ i. if i == 0 then create else spin }

  -- A step of the thread `i`, if it is one of those started.
  unfoldable pub turn : ℕ → Threads → Threads
  unfolding step
  turn i s =
      let (p, new) = step (args_of (length plain) i) (s.pc i) s.new in
      if ltb i threads_count
      then record { new = new; pc = λ j. if i == j then p else s.pc j }
      else s

  -- The threads in an order that the scheduler chooses.
  unfoldable pub interleaving : List ℕ → Threads → Threads
  unfolding turn
  interleaving [] s = s
  interleaving (i ∷ order) s = interleaving order (turn i s)
