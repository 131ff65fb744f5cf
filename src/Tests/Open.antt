-- ===== src/Tests/Open.antt =====
-- `open` on the file system in memory: a file of path "/", and the command line of process 7.
use tencryption.Prelude.{
  ap, length, ℕ, ◌≡◌, ◌+◌, refl, inl, true, none, some, [], ◌∷◌, ◌++◌, arith, ◌==◌, if◌then◌else◌,
}
use tencryption.Prelude.Int.{ℤ, pos}
use tencryption.Prelude.Exec.{pure}
use tencryption.Prelude.Text.{codes, cstr}
use tencryption.Header.{header_size, file_type_rights, is_encrypted_by_file_header}
use tencryption.Header.Equality.{bytes_eq}
use tencryption.Text.Number.{atoi, print_int, print_natural}
use tencryption.Text.Search.{strstr}
use tencryption.Access.{
  is_trust_process, get_process_domain, get_process_user, get_process_uid, get_domain_state,
  get_personal_state,
}
use tencryption.Detect.{cmdline_path, get_process_name}
use tencryption.Files.Same.{Same}
use tencryption.Text.Trim.Laws.{IsText, remove_spaces}
use tencryption.Usb.{usb_state_path, usb_connector_state}
use tencryption.Usb.Laws.{Tells, usb_connector_state_lem}
use tencryption.Linker.Session.Reopen.{write_and_reopen, write_and_reopen_lem}
use tencryption.SecureDirectory.{contains, is_security_directory}
use tencryption.SecureDirectory.Laws.{is_security_directory_lem}
use tencryption.User.{getpname}
use tencryption.User.Laws.{getpname_lem}
use tencryption.Detect.Name.{HasCommandLine, HasName, name_of}
use tencryption.Platform.{Process, Bytes, FilePath, Run, o_rdwr, o_creat}
use tencryption.Files.Memory.{Disk, cipher, cipher-IsAes, memory, memory-Posix, resolve_of}
use tencryption.FileInfos.{find_fd}
use tencryption.Linker.Gate.{SeesPlain}
use tencryption.Linker.Open.{open_file}
use tencryption.Linker.Session.{
  AlwaysSees, open_and_read, open_write_read, open_and_read-stored, open_write_read-new,
}
use tencryption.Files.{At}
use tencryption.Prelude.Slices.{slice, write_at, drop-replicate}
use tencryption.Linker.Open.Encrypted.{AllOpen, IsOpened, open_encrypted_lem}
use tencryption.Linker.Open.Created.{open_new_lem}
use tencryption.Linker.Open.Plain.{open_plain_lem}
use tencryption.Linker.Rebuild.{new_header}
use tencryption.Linker.Transfer.Stored.{stored}
use tencryption.Tests.Disk.{made, made_header, plain}

-- The file "/" is inode 0 with this content; nothing is open.
abbrev pub shelf : Bytes → Disk
shelf file = record {
  table = [];
  descriptions = λ d. record { inode = 0; position = 0; flags = 0 };
  content = λ i. if i == 1 then codes "cat" else file;
  resolve = λ path.
      if bytes_eq path (codes "/")
      then some 0
      else if bytes_eq path (cmdline_path 7)
      then some 1
      else none;
  next_inode = 2;
}

abbrev pub starting : Bytes → Process Disk
starting file = record {
  linker_running_state = 1;
  linked = λ c. true;
  file_info_list = [];
  world = shelf file;
}

always_starting : (file : Bytes) → AlwaysSees memory (starting file)
unfolding is_trust_process get_process_domain get_process_user get_process_uid get_domain_state
    get_personal_state bytes_eq atoi strstr print_int
always_starting file l w = record {
  running = λ e. absurd (omega (arith, e));
  loaded = λ c. refl;
  trusted = refl;
  state = pos 1;
  looked_up = refl;
  enabled = λ e. cc;
  linked = λ c. refl;
}

pub starting_sees : (file : Bytes) → SeesPlain memory (starting file) (starting file)
starting_sees file = always_starting file [] (shelf file)

no_threads : FilePath → ℕ → Run memory ℕ
no_threads path size = pure 0

pub none_open : (file : Bytes) → AllOpen (memory-Posix.view (shelf file)) []
unfolding find_fd
none_open file g h = refl

pub root_found : (file : Bytes) → (memory-Posix.view (shelf file)).resolve (codes "/") ≡ some 0
unfolding memory-Posix resolve_of bytes_eq
root_found file = refl

pub other_absent : (file : Bytes) → (memory-Posix.view (shelf file)).resolve (codes "/.s") ≡ none
unfolding memory-Posix resolve_of bytes_eq print_natural
other_absent file = refl

pub command_line :
    (file : Bytes) → HasCommandLine memory memory-Posix (shelf file) 7 1 (codes "cat")
unfolding memory-Posix resolve_of bytes_eq print_natural
command_line file = record { same_pid = λ w. refl; resolves = refl; content_eq = refl }

cat_name : length (name_of memory memory-Posix (codes "cat")) ≡ 3
unfolding write_at
cat_name =
    ap (λ l. length (cstr (codes "cat" ++ l)))
      (drop-replicate memory.process_name_max 3 0 (omega arith))

pub named : (file : Bytes) → HasName memory memory-Posix (shelf file) 7 1 (codes "cat")
named file = record { command_line = command_line file; shorter = omega (arith, cat_name) }

pub shelf_content : (file : Bytes) → (memory-Posix.view (shelf file)).content 0 ≡ file
unfolding memory-Posix
shelf_content file = refl

new_absent : (file : Bytes) → (memory-Posix.view (shelf file)).resolve (codes "/new") ≡ none
unfolding memory-Posix resolve_of bytes_eq print_natural
new_absent file = refl

open_encrypted_example :
    (fd : ℤ) × (u : Process Disk) × (open_file memory no_threads
        (codes "/")
        o_rdwr
        0
        (starting (stored cipher cipher-IsAes made plain))
      ≡ some (fd, u))
    × (o : IsOpened memory memory-Posix cipher-IsAes
        (starting (stored cipher cipher-IsAes made plain))
        u
        fd
        (codes "/")
        o_rdwr
        made
        plain)
    × (o.info.header ≡ made)
open_encrypted_example =
    let file : Bytes = stored cipher cipher-IsAes made plain in
    open_encrypted_lem memory memory-Posix cipher-IsAes no_threads (codes "/") o_rdwr 0 made plain
      (starting_sees file) (omega arith) (omega arith) refl refl refl refl (root_found file)
      (shelf_content file) made_header.1 made_header.2 (none_open file)

open_new_example :
    let header = new_header (some (name_of memory memory-Posix (codes "cat"))) in
    (fd : ℤ) × (u : Process Disk) × (open_file memory no_threads
        (codes "/new")
        (o_rdwr + o_creat)
        420
        (starting plain)
      ≡ some (fd, u))
    × (is_encrypted_by_file_header header ≡ file_type_rights)
    × (o : IsOpened memory memory-Posix cipher-IsAes
        (starting plain)
        u
        fd
        (codes "/new")
        (o_rdwr + o_creat)
        header
        [])
    × (o.info.header ≡ header)
open_new_example =
    open_new_lem memory memory-Posix cipher-IsAes no_threads (codes "/new") (o_rdwr + o_creat) 420
      (codes "cat") (starting_sees plain) (omega arith) (omega arith) (omega arith) (omega arith)
      refl refl refl refl (new_absent plain) (named plain) (none_open plain)

open_plain_example :
    let header = new_header (some (name_of memory memory-Posix (codes "cat"))) in
    (fd : ℤ) × (u : Process Disk) × (open_file memory no_threads
        (codes "/")
        o_rdwr
        0
        (starting plain)
      ≡ some (fd, u))
    × (is_encrypted_by_file_header header ≡ file_type_rights)
    × IsOpened memory memory-Posix cipher-IsAes
        (starting plain)
        u
        fd
        (codes "/")
        o_rdwr
        header
        plain
open_plain_example =
    open_plain_lem memory memory-Posix cipher-IsAes no_threads (codes "/") o_rdwr 0 plain
      (codes "cat") (starting_sees plain) (omega arith) (λ e. cc) (omega arith) (omega arith) refl
      refl refl (root_found plain) (shelf_content plain) (other_absent plain) (omega arith)
      (omega arith) (inl (omega arith)) (named plain) (none_open plain)

getpname_lem_example :
    (name : Bytes) × (w1 : Disk) × (w2 : Disk) × (getpname memory (starting plain)
      ≡ some (some name, record (starting plain) { world = w1 }))
    × (get_process_name memory (starting plain)
        ≡ some (some name, record (starting plain) { world = w2 }))
    × Same (memory-Posix.view (shelf plain)) (memory-Posix.view w1)
getpname_lem_example =
    getpname_lem memory memory-Posix (starting plain) refl (λ c. refl) (command_line plain)
      (omega arith)

-- The kernel's file alone.
abbrev usb_shelf : Disk
usb_shelf = record (shelf (codes "CONFIGURED" ++ 10 ∷ [])) {
  resolve = λ path. if bytes_eq path usb_state_path then some 0 else none;
}

abbrev usb_process : Process Disk
usb_process = record (starting plain) { world = usb_shelf }

usb_found : (memory-Posix.view usb_shelf).resolve usb_state_path ≡ some 0
unfolding memory-Posix resolve_of bytes_eq
usb_found = refl

usb_content : (memory-Posix.view usb_shelf).content 0 ≡ codes "CONFIGURED" ++ 10 ∷ []
unfolding memory-Posix
usb_content = refl

no_nul : IsText (codes "CONFIGURED" ++ 10 ∷ [])
no_nul = (
  omega arith,
  (
    omega arith,
    (
      omega arith,
      (
        omega arith,
        (
          omega arith,
          (
            omega arith,
            (omega arith, (omega arith, (omega arith, (omega arith, (omega arith, tt))))),
          ),
        ),
      ),
    ),
  ),
)

usb_connector_state_lem_example :
    (code : ℕ) × (w : Disk) × (usb_connector_state memory usb_process
      ≡ some (code, record usb_process { world = w }))
    × Tells (remove_spaces (codes "CONFIGURED" ++ 10 ∷ [])) code
    × Same (memory-Posix.view usb_shelf) (memory-Posix.view w)
usb_connector_state_lem_example =
    usb_connector_state_lem memory memory-Posix usb_process (codes "CONFIGURED" ++ 10 ∷ [])
      usb_found usb_content no_nul (omega arith) (omega arith)

open_and_read-stored_example :
    let out = slice 0 6 plain in
    (u : Process Disk) × (open_and_read memory no_threads
        (codes "/")
        o_rdwr
        0
        6
        (starting (stored cipher cipher-IsAes made plain))
      ≡ some ((pos (length out), out), u))
open_and_read-stored_example =
    let file : Bytes = stored cipher cipher-IsAes made plain in
    open_and_read-stored memory memory-Posix cipher-IsAes no_threads (codes "/") o_rdwr 0 6 made
      plain (starting file) (always_starting file) (omega arith) (omega arith) refl refl refl refl
      (root_found file) (shelf_content file) made_header.1 made_header.2 (none_open file)

open_write_read-new_example :
    let header = new_header (some (name_of memory memory-Posix (codes "cat"))) in
    (fd : ℤ) × (d : ℕ) × (i : ℕ) × (u : Process Disk) × (open_write_read memory no_threads
        (codes "/new")
        (o_rdwr + o_creat)
        420
        (codes "hello")
        (starting plain)
      ≡ some ((pos (length (codes "hello")), codes "hello"), u))
    × (is_encrypted_by_file_header header ≡ file_type_rights)
    × At
        (memory-Posix.view u.world)
        fd
        d
        i
        (header_size + length (codes "hello"))
        (stored cipher cipher-IsAes header (codes "hello"))
open_write_read-new_example =
    open_write_read-new memory memory-Posix cipher-IsAes no_threads (codes "/new")
      (o_rdwr + o_creat) 420 (codes "hello") (codes "cat") (starting plain) (always_starting plain)
      (omega arith) (omega arith) (omega arith) (omega arith) refl refl refl refl (new_absent plain)
      (named plain) (none_open plain) (omega arith)

is_security_directory_lem_example :
    is_security_directory memory
      (λ w. some (codes "/data"))
      (some (codes "/enterprise/a"))
      (starting plain)
    ≡ some (1, starting plain)
unfolding contains
is_security_directory_lem_example =
    is_security_directory_lem memory (λ w. some (codes "/data")) (codes "/enterprise/a")
      (codes "/data") (starting plain) refl

write_and_reopen_lem_example :
    (u : Process Disk) × (write_and_reopen memory no_threads
        (codes "/new")
        (o_rdwr + o_creat)
        420
        (codes "hello")
        o_rdwr
        4
        (starting plain)
      ≡ some ((pos 4, codes "hell"), u))
write_and_reopen_lem_example =
    write_and_reopen_lem memory memory-Posix cipher-IsAes no_threads (codes "/new")
      (o_rdwr + o_creat) 420 (codes "hello") o_rdwr 4 (codes "cat") (starting plain)
      (always_starting plain) (omega arith) (omega arith) (omega arith) (omega arith) refl refl refl
      refl (new_absent plain) (named plain) (none_open plain) tt (omega arith) refl refl refl refl
