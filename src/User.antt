-- ===== src/User.antt =====
-- user/user.c: the ids and the name of the process, as programs that do not load the library see
-- them.
pub mod Laws
use tencryption.Prelude.{ℕ, ◌/◌, ◌%◌, Option, none, some, List, [], ◌∷◌, replicate, if◌then◌else◌}
use tencryption.Prelude.Int.{ℤ, pos, is_pos}
use tencryption.Prelude.Exec.{pure, ◌>>=◌, ◌>>◌}
use tencryption.Prelude.Slices.{write_at}
use tencryption.Prelude.Text.{codes}
use tencryption.Detect.{cmdline_path}
use tencryption.Platform.{Platform, Bytes, Run, system, o_rdonly}
use tencryption.Text.Number.{atoi}

abbrev pub package_name_max : ℕ
package_name_max = 256

module _ (P : Platform) where
  unfoldable pub getpuid : P.World → ℕ
  getpuid w = P.getuid w / P.aid_user

  unfoldable pub getpaid : P.World → ℕ
  getpaid w = P.getuid w % P.aid_user

  domain_value : Bytes → ℤ
  domain_value [] = pos 0
  domain_value (c ∷ value) = atoi (c ∷ value)

  unfoldable pub getpdid : P.World → ℤ
  unfolding domain_value
  getpdid w = domain_value (P.property (codes "persist.sys.current_user_id") w)

  -- The buffer after a read that gave something.
  read_name : ℤ → Run P (Option Bytes)
  read_name fd = do
    (count, bytes) ← system P (P.sys_read fd package_name_max)
    system P (P.sys_close fd)
    pure (if is_pos count then some (write_at 0 bytes (replicate package_name_max 0)) else none)

  name_from : ℤ → Run P (Option Bytes)
  unfolding read_name
  name_from fd = do
    ok ← system P (P.calloc package_name_max)
    if ok then read_name fd else (do system P (P.sys_close fd); pure none)

  unfoldable pub getpname : Run P (Option Bytes)
  unfolding name_from
  getpname s =
      (do
        fd ← system P (P.sys_open (cmdline_path (P.getpid s.world)) o_rdonly 0)
        if is_pos fd then name_from fd else pure none)
        s
