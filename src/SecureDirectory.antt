-- ===== src/SecureDirectory.antt =====
-- ports/util.c, `is_security_directory`: whether a path, or the directory that the process is in,
-- belongs to the secure directory.
pub mod Laws
use tencryption.Prelude.{ℕ, Bool, true, false, Option, none, some, if◌then◌else◌}
use tencryption.Prelude.Exec.{pure, fault}
use tencryption.Prelude.Text.{codes}
use tencryption.Platform.{Platform, Bytes, FilePath, Run}
use tencryption.Text.Search.{strstr}

abbrev pub security_directory_link : FilePath
security_directory_link = codes "/enterprise"

abbrev pub security_directory_path : FilePath
security_directory_path = codes "/data/enterprise"

-- `strstr(s, needle) != NULL`.
unfoldable pub contains : Bytes → Bytes → Bool
unfolding strstr
contains s needle = elim (strstr s needle) [ none ↦ false | some found ↦ true ]

-- `getcwd` is libc's function: `none` is the NULL pointer that it fails with, which `strstr` reads.
module _ (P : Platform) (getcwd : P.World → Option Bytes) where
  unfoldable pub directory_of : Option Bytes → Run P ℕ
  directory_of none = fault
  directory_of (some cwd) =
      if contains cwd security_directory_link
      then pure 1
      else if contains cwd security_directory_path
      then pure 1
      else pure 0

  unfoldable pub is_security_directory : Option FilePath → Run P ℕ
  unfolding directory_of
  is_security_directory none s = pure 0 s
  is_security_directory (some path) s =
      if contains path security_directory_link
      then pure 1 s
      else if contains path security_directory_path
      then pure 1 s
      else directory_of (getcwd s.world) s
