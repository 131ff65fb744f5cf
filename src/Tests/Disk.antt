-- ===== src/Tests/Disk.antt =====
-- A process of user 10 in domain 10 with encryption on, and descriptor 1 open on a stored content.
use tencryption.Prelude.{
  if◌then◌else◌, none, ℕ, ◌≡◌, refl, true, some, [], ◌∷◌, length, replicate, length-replicate,
  arith,
}
use tencryption.Prelude.Int.{pos}
use tencryption.Header.{header_size}
use tencryption.Platform.{o_rdwr, Process, Bytes, FileInfo}
use tencryption.Access.{
  is_trust_process, get_process_domain, get_process_user, get_process_uid, get_domain_state,
  get_personal_state,
}
use tencryption.Files.{WritesInPlace, At}
use tencryption.Files.Memory.{
  Disk, cipher, cipher-IsAes, entry, fds_of, memory, memory-Posix, resolve_of,
}
use tencryption.Header.{file_header_init, is_encrypted_by_file_header, file_type_rights}
use tencryption.Header.Equality.{bytes_eq}
use tencryption.Header.Roundtrip.{is_encrypted-file_header_init}
use tencryption.FileInfos.{find_fd}
use tencryption.FileInfos.Laws.{NodupFds}
use tencryption.Text.Number.{atoi, print_int}
use tencryption.Text.Search.{strstr}
use tencryption.Prelude.Text.{codes}
use tencryption.Linker.Gate.{SeesPlain}
use tencryption.Linker.Transfer.Stored.{stored}

abbrev pub front : Bytes
front = replicate header_size 0

-- 20 bytes: one block, and four bytes behind it.
abbrev pub plain : Bytes
plain = codes "twenty bytes of text"

-- Descriptor 1 at `position` in the file of path `[47]`.
abbrev pub disk : ℕ → Disk
disk position = record {
  table = some 0 ∷ [];
  descriptions = λ d. record { inode = 0; position = position; flags = o_rdwr };
  content = λ i. stored cipher cipher-IsAes front plain;
  resolve = λ path. if bytes_eq path (47 ∷ []) then some 0 else none;
  next_inode = 1;
}

abbrev pub tracked : FileInfo
tracked = record { file_descriptor = pos 1; file_path = 47 ∷ []; header = [] }

abbrev pub process : ℕ → Process Disk
process position = record {
  linker_running_state = 1;
  linked = λ c. true;
  file_info_list = tracked ∷ [];
  world = disk position;
}

pub always_sees :
    (position : ℕ) (w : Disk)
    → SeesPlain memory
        (record (process position) { world = w })
        (record (process position) { world = w })
unfolding is_trust_process get_process_domain get_process_user get_process_uid get_domain_state
    get_personal_state bytes_eq atoi strstr print_int
always_sees position w = record {
  running = λ e. absurd (omega (arith, e));
  loaded = λ c. refl;
  trusted = refl;
  state = pos 1;
  looked_up = refl;
  enabled = λ e. cc;
  linked = λ c. refl;
}

pub sees : (position : ℕ) → SeesPlain memory (process position) (process position)
sees position = always_sees position (disk position)

pub at :
    (position : ℕ)
    → At
        (memory-Posix.view (disk position))
        (pos 1)
        0
        0
        position
        (stored cipher cipher-IsAes front plain)
unfolding memory-Posix fds_of entry
at position = record {
  stands = refl;
  readable_eq = refl;
  inode_eq = refl;
  position_eq = refl;
  content_eq = refl;
}

pub length-front : length front ≡ header_size
length-front = length-replicate header_size 0

-- What is tracked is found.
pub listed : (position : ℕ) → find_fd (pos 1) (process position).file_info_list ≡ some tracked
unfolding find_fd
listed position = refl

pub in_place : (position : ℕ) → WritesInPlace (memory-Posix.view (disk position)) 0
unfolding memory-Posix
in_place position = (refl, refl)

pub resolved :
    (position : ℕ) → (memory-Posix.view (disk position)).resolve tracked.file_path ≡ some 0
unfolding memory-Posix bytes_eq resolve_of
resolved position = refl

pub nodup_tracked : NodupFds (tracked ∷ [])
unfolding find_fd
nodup_tracked = (refl, tt)

-- A header that is recognised, and the content behind it.
abbrev pub made : Bytes
made = (file_header_init (some (codes "cat")) front).1

abbrev pub made_disk : Disk
made_disk = record (disk 0) { content = λ i. stored cipher cipher-IsAes made plain }

abbrev pub made_process : Process Disk
made_process = record (process 0) { world = made_disk }

pub made-At : At (memory-Posix.view made_disk) (pos 1) 0 0 0 (stored cipher cipher-IsAes made plain)
unfolding memory-Posix fds_of entry
made-At = record {
  stands = refl;
  readable_eq = refl;
  inode_eq = refl;
  position_eq = refl;
  content_eq = refl;
}

-- The header that is made is whole and recognised.
pub made_header :
    let (code, h) = file_header_init (some (codes "cat")) front in
    (code ≡ file_type_rights)
    × (length h ≡ header_size)
    × (is_encrypted_by_file_header h ≡ file_type_rights)
made_header = is_encrypted-file_header_init (some (codes "cat")) front length-front (omega arith)
