-- ===== src/Linker/Rebuild/Workers/Given.antt =====
-- What `rebuild_file_struct` on a larger file needs, as the setting of its threads.
use tencryption.Prelude.{ℕ, ◌+◌, ◌*◌, ◌^◌, ◌≤◌, ◌<◌, ◌≡◌, none, some, arith, length, ◌++◌}
use tencryption.Prelude.Text.{codes}
use tencryption.Cipher.{IsAes}
use tencryption.Header.{header_size, name_offset}
use tencryption.Detect.Name.{HasName, length-name_of}
use tencryption.Linker.Rebuild.Threads.{average_of}
use tencryption.Linker.Rebuild.Workers.Files.{NewFile}
use tencryption.Linker.Rebuild.Workers.Moves.{Setting, Files}
use tencryption.Platform.{Platform, Bytes, FilePath, path_max}
use tencryption.Files.{Posix}

module _ (P : Platform) (px : Posix P) (ok : IsAes P.aes) (i : ℕ) (path : FilePath)
    (plain text : Bytes) {pid j : ℕ} {w : P.World} (named : HasName P px w pid j text)
    (room : name_offset + P.process_name_max ≤ header_size) (fits : length path + 3 ≤ path_max)
    (small : length plain + header_size < 2 ^ 31)
    (enough : average_of (length plain) * 3 ≤ length plain) where
  abbrev pub setting_of : Setting P px
  setting_of = record {
    ok = ok;
    path = path;
    plain = plain;
    text = text;
    pid = pid;
    name_inode = j;
    old_inode = i;
    same_pid = named.command_line.same_pid;
    shorter = named.shorter;
    short = omega (arith, room, length-name_of P px text);
    small = small;
    enough = enough;
    fits = fits;
  }

  pub setting_of-Files :
      (px.view w).resolve path ≡ some i
      → (px.view w).content i ≡ plain
      → (px.view w).resolve (path ++ codes ".s") ≡ none
      → Files P px setting_of w none
  unfolding NewFile
  setting_of-Files found content absent = record {
    old_found = found;
    old_content = content;
    name_found = named.command_line.resolves;
    name_content = named.command_line.content_eq;
    new_file = absent;
  }
