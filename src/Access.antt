-- ===== src/Access.antt =====
-- ports/util.c and user/user.c: which process sees decrypted files. The user, the domain, the
-- trust test, and the state of encryption in a domain.
pub mod Laws
use tencryption.Prelude.{
  ℕ, suc, ◌+◌, ◌/◌, ◌%◌, ◌-◌, Bool, true, false, not, Option, none, some, List, [], ◌∷◌, ◌++◌,
  length, take, get_or, replicate, ◌==◌, if◌then◌else◌,
}
use tencryption.Prelude.Int.{ℤ, pos, eqb_ℤ, is_pos}
use tencryption.Prelude.Text.{codes, cstr}
use tencryption.Prelude.Exec.{pure, fault, ◌>>=◌, ◌>>◌}
use tencryption.Prelude.Slices.{write_at}
use tencryption.Text.Trim.{trim}
use tencryption.Text.Search.{strstr, starts_with}
use tencryption.Text.Number.{atoi, scan_int, print_int, strtok}
use tencryption.Platform.{
  Platform, Process, Bytes, Run, Syscall, linker, system, open_file, read, close, o_rdonly,
}

abbrev pub prop_current_domain : Bytes
prop_current_domain = codes "persist.sys.current_user_id"

abbrev pub prop_personal_domain_state : Bytes
prop_personal_domain_state = codes "persist.encryption.enable"

abbrev pub prop_security_domain : Bytes
prop_security_domain = codes "persist.mdm.domain_id"

abbrev pub config_path : Bytes
config_path = codes "/system/etc/security/config"

is_empty : Bytes → Bool
is_empty [] = true
is_empty (c ∷ s) = false

-- What `"%d:%d"` still wants after the first number: a colon and the second.
scan_second : List ℕ → ℤ
scan_second [] = pos 0
scan_second (c ∷ t) =
    if c == b':' then elim (scan_int t) [ none ↦ pos 0 | some (n, _) ↦ n ] else pos 0

-- `state` after `sscanf(s, "%d:%d", &user, &state)`, which was 0 before it.
scan_state : List ℕ → ℤ
unfolding scan_second
scan_state s = elim (scan_int s) [ none ↦ pos 0 | some (user, rest) ↦ scan_second rest ]

module _ (P : Platform) where
  -- `get_process_user`, and `getpuid` of user/user.c.
  unfoldable pub get_process_user : P.World → ℕ
  get_process_user w = P.getuid w / P.aid_user

  -- `get_process_uid`, and `getpaid` of user/user.c.
  unfoldable pub get_process_uid : P.World → ℕ
  get_process_uid w = P.getuid w % P.aid_user

  unfoldable pub get_process_gid : P.World → ℕ
  get_process_gid w = P.getgid w % P.aid_user

  -- `get_process_domain`, and `getpdid` of user/user.c.
  unfoldable pub get_process_domain : P.World → ℤ
  unfolding is_empty
  get_process_domain w =
      let value = P.property prop_current_domain w in if is_empty value then pos 0 else atoi value

  unfoldable pub is_trust_process : P.World → ℕ
  is_trust_process w =
      let domain = get_process_domain w in
      let user = get_process_user w in
      if eqb_ℤ domain (pos 0)
      then 0
      else if user == 0
      then (if get_process_uid w == P.aid_media then 1 else 0)
      else (if eqb_ℤ domain (pos user) then 1 else 0)

  unfoldable pub get_personal_state : ℤ → P.World → ℤ
  unfolding is_empty scan_state
  get_personal_state domain w =
      let value = P.property prop_personal_domain_state w in
      if is_empty value
      then pos 0
      else elim (strstr value (print_int domain)) [ none ↦ pos 0 | some found ↦ scan_state found ]

  -- `strncmp(strtok(value, ":"), "encrypt", 7) != 0` and what follows it: a text with no token is
  -- a NULL pointer for `strncmp`, and one with no second token for `atoi`.
  config_state : List ℕ → Run P ℤ
  config_state text = elim (strtok b':' text) [
    | none ↦ fault
    | some (first, rest) ↦
        if not (starts_with first (codes "encrypt"))
        then pure (pos 0)
        else elim (strtok b':' rest) [ none ↦ fault | some (second, _) ↦ pure (atoi second) ]
  ]

  -- The rest of `get_security_state`, from the buffer `value` on.
  config_value : Bytes → Run P ℤ
  unfolding config_state
  config_value value =
      if get_or value 0 0 == 0
      then pure (pos 0)
      else elim (trim value) [ none ↦ fault | some trimmed ↦ config_state (cstr trimmed) ]

  read_and_close : ℤ → Bytes → Run P Bytes
  read_and_close fd value = do
    (count, bytes) ← linker P read (P.sys_read fd P.prop_value_max)
    linker P close (P.sys_close fd)
    pure (write_at 0 bytes value)

  -- The configuration file is read over the value of the property, which stays behind it.
  read_config : Bytes → Run P Bytes
  unfolding read_and_close
  read_config value = do
    fd ← linker P open_file (P.sys_open config_path o_rdonly 0)
    if is_pos fd then read_and_close fd value else pure value

  unfoldable pub get_security_state : ℤ → Run P ℤ
  unfolding is_empty read_config config_value
  get_security_state domain s =
      let value = P.property prop_security_domain s.world in
      if is_empty value
      then pure (pos 0) s
      else if not (eqb_ℤ (atoi value) domain)
      then pure (pos 0) s
      else if not (P.accessible config_path s.world)
      then pure (pos 0) s
      else (do
        buffer ← read_config (write_at 0 value (replicate P.prop_value_max 0))
        config_value buffer)
          s

  unfoldable pub get_domain_state : Run P ℤ
  get_domain_state s =
      let domain = get_process_domain s.world in
      let personal = get_personal_state domain s.world in
      if eqb_ℤ domain (pos 0)
      then pure (pos 0) s
      else if not (eqb_ℤ personal (pos 0))
      then pure personal s
      else get_security_state domain s
