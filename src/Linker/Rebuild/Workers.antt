-- ===== src/Linker/Rebuild/Workers.antt =====
-- ports/linker.c: the threads of `rebuild_file_struct` as a process runs them, with their calls:
-- `pthread_rfs_run`, and the part of `rebuild_file_struct` that starts and joins them on a larger
-- file. A step of a thread is its code up to its next call that another thread can see. Which
-- threads the system creates and in which order they take their steps is a `Schedule`.
pub mod Files
pub mod Places
pub mod Moves
pub mod Given
pub mod Making
pub mod Waiting
pub mod Copying
pub mod Closing
pub mod Simulation
pub mod Orders
pub mod Join
pub mod Finish
pub mod Failed
use tencryption.Prelude.{
  ℕ, ◌+◌, ◌-◌, ◌/◌, Bool, true, ◌&&◌, Option, none, some, List, [], ◌∷◌, ◌++◌, length, drop,
  replicate, ltb, leb, ◌==◌, if◌then◌else◌,
}
use tencryption.Prelude.Int.{ℤ, pos, negsuc, eqb_ℤ, is_pos, is_neg}
use tencryption.Prelude.Exec.{pure, fault, ◌>>=◌, ◌>>◌}
use tencryption.Cipher.{encrypt_blocks}
use tencryption.Header.{header_size, file_type_rights}
use tencryption.Detect.{file_header_init, is_encrypted_by_path}
use tencryption.Linker.Open.{get_security_path_by_path}
use tencryption.Linker.Rebuild.File.{threads_count}
use tencryption.Linker.Rebuild.Threads.{Args, args_of}
use tencryption.Platform.{
  Platform, Process, Bytes, FilePath, Run, Syscall, linker, system, o_creat, o_rdonly, o_trunc,
  o_wronly,
}

-- Where a thread is, with the new path and the descriptors that it has: at its start; behind the
-- `open` and behind the `ftruncate` of the new file; waiting for its header; before it opens the
-- two files; in the loop, with the offset and the size left; at its end, with the pointer that it
-- returns.
pub data Place : Type 0 where
  start : Place
  made sized : ℤ → FilePath → Place
  waiting ready : FilePath → Place
  copying : FilePath → ℤ → ℤ → ℕ → ℕ → Place
  ended : Option FilePath → Place

-- `pthread_attr_init` and `pthread_attr_setstacksize` succeed; `pthread_create` of each thread
-- does; the order of the steps.
pub record Schedule : Type 0 where
  pub attributes : Bool
  pub created : ℕ → Bool
  pub order : List ℕ

-- `memcpy(buffer, np, strlen(np))`, for a text in the buffer.
copy_name : FilePath → Option FilePath → Option (Option FilePath)
copy_name np none = none
copy_name np (some text) = some (some (np ++ drop (length np) text))

-- `pthread_join`: it fails on a thread that was not created. `none` where it does not return,
-- and where the buffer is the NULL pointer.
unfoldable pub join_one : Place → Option FilePath → Option (Option FilePath)
unfolding copy_name
join_one (ended none) buffer = some buffer
join_one (ended (some np)) buffer = copy_name np buffer
join_one _ buffer = none

unfoldable pub join : (ℕ → Bool) → (ℕ → Place) → List ℕ → Option FilePath → Option (Option FilePath)
unfolding join_one
join created place [] buffer = some buffer
join created place (i ∷ l) buffer =
    elim (if created i then join_one (place i) buffer else some buffer) [
      | none ↦ none
      | some buffer' ↦ join created place l buffer'
    ]

module _ (P : Platform) (path : FilePath) where
  remove_old : FilePath → Run P (Unit {0})
  remove_old npath s =
      if P.accessible npath s.world
      then (do system P (P.sys_remove npath); pure tt) s
      else pure tt s

  make_new : FilePath → Run P Place
  unfolding remove_old
  make_new npath = do
    remove_old npath
    fd ← linker P Syscall.open_file (P.sys_open npath (o_creat + o_trunc + o_wronly) 448)
    pure (if is_pos fd then made fd npath else waiting npath)

  begin : Args → Run P Place
  unfolding make_new
  begin a = do
    npath ← get_security_path_by_path P path
    elim npath [
      | none ↦ pure (ended none)
      | some p ↦ if a.number == 0 && a.postion == 0 then make_new p else pure (waiting p)
    ]

  extend_new : Args → ℤ → FilePath → Run P Place
  extend_new a fd npath = do
    system P (P.sys_ftruncate fd (a.tsize + header_size))
    pure (sized fd npath)

  write_new : ℤ → FilePath → Run P Place
  write_new fd npath = do
    (kind, buff) ← file_header_init P (replicate header_size 0)
    if kind == file_type_rights
        then (do linker P Syscall.pwrite (P.sys_pwrite fd buff 0); pure tt)
        else pure tt
    linker P Syscall.close (P.sys_close fd)
    pure (waiting npath)

  wait_new : FilePath → Run P Place
  wait_new npath s =
      if P.accessible npath s.world
      then (do
        kind ← is_encrypted_by_path P npath
        pure (if kind == file_type_rights then ready npath else waiting npath))
          s
      else pure (waiting npath) s

  open_second : Args → ℤ → FilePath → Run P Place
  open_second a ofd npath = do
    nfd ← linker P Syscall.open_file (P.sys_open npath o_wronly 0)
    pure (if is_neg nfd then ended none else copying npath ofd nfd a.postion a.bsize)

  open_both : Args → FilePath → Run P Place
  unfolding open_second
  open_both a npath s =
      if P.accessible npath s.world
      then (do
        ofd ← linker P Syscall.open_file (P.sys_open path o_rdonly 0)
        if is_neg ofd then pure (ended none) else open_second a ofd npath)
          s
      else pure (ended (some npath)) s

  -- The write of what a `pread` gave; a write of -1 bytes reads behind the buffer.
  write_block : ℤ → ℤ → Bytes → ℕ → Run P ℤ
  write_block nfd (negsuc n) bytes next = fault
  write_block nfd (pos count) bytes next =
      linker P Syscall.pwrite
        (P.sys_pwrite nfd (encrypt_blocks P.aes 0 (length bytes / 16) bytes) next)

  -- A round of the loop.
  copy_round : FilePath → ℤ → ℤ → ℕ → ℕ → Run P Place
  unfolding write_block
  copy_round npath ofd nfd offset bsize = do
    (count, bytes) ← linker P Syscall.pread (P.sys_pread ofd 4096 offset)
    let next = if eqb_ℤ count (pos 4096) then offset + length bytes else offset
    write_block nfd count bytes next
    pure (copying npath ofd nfd next (bsize - 4096))

  -- What the last thread copies behind the loop.
  copy_rest : ℤ → ℤ → ℕ → Run P (Unit {0})
  unfolding write_block
  copy_rest ofd nfd offset = do
    (count, bytes) ← linker P Syscall.pread (P.sys_pread ofd 4096 offset)
    if is_pos count then (do write_block nfd count bytes (offset + 4096); pure tt) else pure tt

  close_both : ℤ → ℤ → Option FilePath → Run P Place
  close_both ofd nfd result = do
    linker P Syscall.close (P.sys_close ofd)
    linker P Syscall.close (P.sys_close nfd)
    pure (ended result)

  copy_step : Args → FilePath → ℤ → ℤ → ℕ → ℕ → Run P Place
  unfolding copy_round copy_rest close_both
  copy_step a npath ofd nfd offset bsize =
      if leb 4096 bsize
      then copy_round npath ofd nfd offset bsize
      else if a.number + 1 == threads_count
      then (do copy_rest ofd nfd offset; close_both ofd nfd (some npath))
      else close_both ofd nfd none

  -- A step of a thread.
  unfoldable pub advance : Args → Place → Run P Place
  unfolding begin extend_new write_new wait_new open_both copy_step linker get_security_path_by_path
  advance a start = begin a
  advance a (made fd npath) = extend_new a fd npath
  advance a (sized fd npath) = write_new fd npath
  advance a (waiting npath) = wait_new npath
  advance a (ready npath) = open_both a npath
  advance a (copying npath ofd nfd offset bsize) = copy_step a npath ofd nfd offset bsize
  advance a (ended result) = pure (ended result)

  -- The process and the places of its threads.
  pub record Workers : Type 0 where
    pub process : Process P.World
    pub place : ℕ → Place

  abbrev pub spawned : Process P.World → Workers
  spawned s = record { process = s; place = λ i. start }

  -- A step of the thread `i`, if it is one of those created.
  unfoldable pub work : (ℕ → Bool) → ℕ → ℕ → Workers → Option Workers
  unfolding advance
  work created size i w =
      if ltb i threads_count && created i
      then elim (advance (args_of size i) (w.place i) w.process) [
        | none ↦ none
        | some (p, s) ↦ some (record { process = s; place = λ j. if i == j then p else w.place j })
      ]
      else some w

  unfoldable pub works : (ℕ → Bool) → ℕ → List ℕ → Workers → Option Workers
  unfolding work
  works created size [] w = some w
  works created size (i ∷ order) w = elim (work created size i w) [
    | none ↦ none
    | some w' ↦ works created size order w'
  ]

  unfoldable pub rename_new : Option FilePath → Run P ℕ
  rename_new none = pure 0
  rename_new (some []) = pure 0
  rename_new (some (c ∷ text)) = do system P (P.sys_rename (c ∷ text) path); pure 1

  unfoldable pub join_and_rename : (ℕ → Bool) → (ℕ → Place) → Run P ℕ
  unfolding join rename_new
  join_and_rename created place = do
    ok ← system P (P.calloc 4096)
    buffer ← λ s. elim (join created place (0 ∷ 1 ∷ 2 ∷ 3 ∷ []) (if ok then some [] else none)) [
      | none ↦ none
      | some b ↦ some (b, s)
    ]
    rename_new buffer

-- The branch of `rebuild_file_struct` for a larger file. The result is `none` if the order ends
-- before all threads have come to their end.
unfoldable pub rebuild_large : (P : Platform) → Schedule → FilePath → ℕ → Run P ℕ
unfolding join_and_rename works
rebuild_large P schedule path size s =
    if schedule.attributes
    then elim (works P path schedule.created size schedule.order (spawned P path s)) [
      | none ↦ none
      | some w ↦ join_and_rename P path schedule.created w.place w.process
    ]
    else pure 0 s
