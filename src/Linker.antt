-- ===== src/Linker.antt =====
-- ports/linker.c: the interposed functions. Each tests whether the library runs and its pointer
-- is loaded, hands the call to libc for a process that does not see plain text, and otherwise
-- hides the header and decrypts.
pub mod Gate
pub mod Descriptors
pub mod Sizes
pub mod Positions
pub mod Transfer
pub mod Untrusted
pub mod Tracked
pub mod Rebuild
pub mod Open
pub mod Mapping
pub mod Streams
pub mod Session
use tencryption.Prelude.{ℕ, Bool, true, false, not, ◌||◌, Option, none, some, ◌==◌, if◌then◌else◌}
use tencryption.Prelude.Int.{ℤ, pos, eqb_ℤ}
use tencryption.Prelude.Exec.{pure, ◌>>=◌}
use tencryption.Header.{file_type_normal}
use tencryption.Access.{is_trust_process, get_domain_state}
use tencryption.Detect.{is_encrypted_by_fd}
use tencryption.FileInfos.{file_info_list_query_by_fd}
use tencryption.Platform.{Platform, Process, Run, Syscall}

module _ (P : Platform) where
  -- `update_linker_running_state`: reload if the library does not run yet, then the new state.
  pub update_linker_running_state : Run P ℕ
  update_linker_running_state s =
      let t = if s.linker_running_state == 0 then P.linker_reload s else s in
      some (t.linker_running_state, t)

  -- The two tests that every interposed function begins with: `failed` where the library does not
  -- run or the pointer is NULL, `plain` for a process that gets libc's function.
  unfoldable pub gate : {A : Type 0} → Syscall → A → Run P A → Run P A → Run P A
  unfolding update_linker_running_state
  gate c failed plain transparent = do
    running ← update_linker_running_state
    λ s.
        if running == 0 || not (s.linked c)
        then some (failed, s)
        else if is_trust_process P s.world == 0
        then plain s
        else (do domain ← get_domain_state P; if eqb_ℤ domain (pos 0) then plain else transparent) s

  -- `file_info_list_query_by_fd(fd) == NULL && is_encrypted_by_fd(fd) == FILE_TYPE_NORMAL`: the
  -- header is read only for a descriptor that is not tracked.
  unfoldable pub is_plain_fd : ℤ → Run P Bool
  unfolding file_info_list_query_by_fd
  is_plain_fd fd = do
    info ← file_info_list_query_by_fd P fd
    elim info [
      | some _ ↦ pure false
      | none ↦ do kind ← is_encrypted_by_fd P fd; pure (kind == file_type_normal)
    ]
