-- ===== src/Usb.antt =====
-- usb/usb.c: whether USB is connected, by the state that the kernel shows in a file.
pub mod Laws
use tencryption.Prelude.{ℕ, ◌||◌, not, Option, none, some, replicate, ◌==◌, if◌then◌else◌}
use tencryption.Prelude.Int.{ℤ, is_pos}
use tencryption.Prelude.Text.{codes, cstr, strlen}
use tencryption.Prelude.Exec.{pure, fault, ◌>>=◌, ◌>>◌}
use tencryption.Prelude.Slices.{write_at}
use tencryption.Text.Search.{starts_with}
use tencryption.Text.Trim.{trim}
use tencryption.Platform.{Platform, Bytes, FilePath, Run, system, o_rdonly}

abbrev pub usb_state_path : FilePath
usb_state_path = codes "/sys/class/android_usb/android0/state"

abbrev pub usb_result_connected : ℕ
usb_result_connected = 1001

abbrev pub usb_result_disconnected : ℕ
usb_result_disconnected = 1002

-- `memcmp` of the trimmed text, as long as it is, with the two values: equal if it is the start of
-- one. A text that is longer than the value differs from it at its NUL.
unfoldable pub state_result : Bytes → ℕ
state_result text =
    if starts_with (codes "CONNECTED") text || starts_with (codes "CONFIGURED") text
    then usb_result_connected
    else usb_result_disconnected

module _ (P : Platform) where
  -- A buffer that the read fills has no end for `strlen`.
  close_with : ℤ → Bytes → Run P ℕ
  close_with fd buffer = if strlen buffer == 32 then fault else elim (trim buffer) [
    | none ↦ fault
    | some trimmed ↦ do system P (P.sys_close fd); pure (state_result (cstr trimmed))
  ]

  read_state : ℤ → Run P ℕ
  unfolding close_with
  read_state fd = do
    (count, bytes) ← system P (P.sys_read fd 32)
    if is_pos count
        then close_with fd (write_at 0 bytes (replicate 32 0))
        else (do system P (P.sys_close fd); pure usb_result_disconnected)

  unfoldable pub usb_connector_state : Run P ℕ
  unfolding read_state state_result
  usb_connector_state s =
      if not (P.accessible usb_state_path s.world)
      then pure usb_result_disconnected s
      else (do
        fd ← system P (P.sys_open usb_state_path o_rdonly 0)
        if is_pos fd then read_state fd else pure usb_result_disconnected)
          s
