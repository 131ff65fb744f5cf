-- ===== src/Tests/Parts.antt =====
-- ports/crypto.c, ports/util.c and the two tables of file types: the theorems on the parts at
-- concrete inputs.
use tencryption.Prelude.{
  ◌↔◌, ◌⊎◌, ℕ, ◌≡◌, ◌≢◌, refl, none, some, List, [], ◌∷◌, ◌++◌, length, arith, replicate,
  if◌then◌else◌, false, ap,
}
use tencryption.Prelude.Int.{ℤ, pos}
use tencryption.Header.{header_size}
use tencryption.Platform.{Process, Bytes}
use tencryption.Access.{is_trust_process}
use tencryption.Files.Memory.{Disk, cipher, cipher-IsAes, memory, entry, fds_of}
use tencryption.Cipher.{encrypt_blocks, decrypt_blocks}
use tencryption.Cipher.Blocks.{decrypt_blocks-encrypt_blocks}
use tencryption.Header.{file_header_init, is_encrypted_by_file_header, file_type_rights}
use tencryption.Header.Roundtrip.{is_encrypted-file_header_init}
use tencryption.FileInfos.{
  find_fd, new_info, file_info_list_add, file_info_list_query_by_fd, file_info_list_remove_by_fd,
}
use tencryption.FileInfos.Laws.{NodupFds, query-add, query-remove}
use tencryption.Access.Laws.{Trusted, trust_iff}
use tencryption.Text.Search.{strchr, strrchr, strcasestr, starts_with_case, strncasecmp_eq}
use tencryption.Text.Trim.{trim}
use tencryption.Text.Trim.Laws.{remove_spaces, trim_lem}
use tencryption.Ftype.{find_tid, get_tid_by_path, getfid}
use tencryption.Ftype.Types.{types, flist}
use tencryption.Ftype.Lookup.{named, getfid_lem}
use tencryption.Ftype.Paths.{EndsIn, get_tid_by_path-getfid, get_tid_by_path_sound}
use tencryption.Prelude.Text.{codes, cstr}
use tencryption.Daemon.{command_package_size, handle_request}
use tencryption.Daemon.Laws.{is_served, handle_request_lem}
use tencryption.Prelude.Slices.{write_at, drop-replicate}
use tencryption.Tests.Disk.{front, plain, disk, tracked, process, length-front, nodup_tracked}

decrypt_blocks-encrypt_blocks_example :
    decrypt_blocks cipher 0 1 (encrypt_blocks cipher 0 1 plain) ≡ plain
decrypt_blocks-encrypt_blocks_example =
    decrypt_blocks-encrypt_blocks cipher cipher-IsAes 0 1 plain (omega arith)

query-add_example :
    (p : ℕ) × (t : Process Disk) × (file_info_list_add memory (pos 2) (47 ∷ []) (process 0)
      ≡ some (some p, t))
    × NodupFds t.file_info_list
    × (file_info_list_query_by_fd memory (pos 2) t ≡ some (some (new_info (pos 2) (47 ∷ [])), t))
    × ((g : ℤ) → g ≢ pos 2 → find_fd g t.file_info_list ≡ find_fd g (tracked ∷ []))
unfolding find_fd
query-add_example =
    query-add memory (pos 2) (process 0) nodup_tracked (47 ∷ []) refl (omega arith) refl

query-remove_example :
    (t : Process Disk) × (file_info_list_remove_by_fd memory (pos 1) (process 0) ≡ some (tt, t))
    × NodupFds t.file_info_list
    × (file_info_list_query_by_fd memory (pos 1) t ≡ some (none, t))
    × ((g : ℤ) → g ≢ pos 1 → find_fd g t.file_info_list ≡ find_fd g (tracked ∷ []))
query-remove_example = query-remove memory (pos 1) (process 0) nodup_tracked

trust_iff_example :
    ((is_trust_process memory (disk 0) ≡ 1) ↔ Trusted memory (disk 0))
    × ((is_trust_process memory (disk 0) ≡ 0) ⊎ (is_trust_process memory (disk 0) ≡ 1))
trust_iff_example = trust_iff memory (disk 0)

no_dot_before : strchr (codes "/sdcard/report") 46 ≡ none
unfolding strchr
no_dot_before = refl

no_dot_behind : strchr (codes "DOCX") 46 ≡ none
unfolding strchr
no_dot_behind = refl

get_tid_by_path-getfid_example :
    (get_tid_by_path (codes "/sdcard/report" ++ 46 ∷ codes "DOCX")
      ≡ named types (46 ∷ codes "DOCX"))
    × (getfid (codes "/sdcard/report" ++ 46 ∷ codes "DOCX")
        ≡ get_tid_by_path (codes "/sdcard/report" ++ 46 ∷ codes "DOCX"))
get_tid_by_path-getfid_example =
    get_tid_by_path-getfid (codes "/sdcard/report") (codes "DOCX") no_dot_before no_dot_behind

getfid_example :
    getfid (codes "/sdcard/report" ++ 46 ∷ codes "my.docx") ≡ named flist (46 ∷ codes "my.docx")
getfid_example = getfid_lem (codes "/sdcard/report") (codes "my.docx") no_dot_before

abbrev docx : Bytes
docx = codes "a.b.docx"

docx_tid : get_tid_by_path docx ≡ 101
unfolding get_tid_by_path find_tid strrchr strcasestr starts_with_case strncasecmp_eq
docx_tid = refl

docx_is_known : get_tid_by_path docx ≢ 0
docx_is_known e = absurd (omega (arith, e, docx_tid))

get_tid_by_path_sound_example : EndsIn types docx (get_tid_by_path docx)
get_tid_by_path_sound_example = get_tid_by_path_sound docx docx_is_known

trim_example :
    (buffer : List ℕ) × (trim (codes " a b " ++ 0 ∷ 1 ∷ []) ≡ some buffer)
    × (cstr buffer ≡ remove_spaces (codes " a b "))
    × (length buffer ≡ length (codes " a b " ++ 0 ∷ 1 ∷ []))
trim_example = trim_lem (codes " a b ") (1 ∷ []) (
  λ e. absurd (omega (arith, e)),
  (
    λ e. absurd (omega (arith, e)),
    (
      λ e. absurd (omega (arith, e)),
      (λ e. absurd (omega (arith, e)), (λ e. absurd (omega (arith, e)), tt)),
    ),
  ),
)

header_example :
    let (code, h) = file_header_init (some (codes "cat")) front in
    (code ≡ file_type_rights)
    × (length h ≡ header_size)
    × (is_encrypted_by_file_header h ≡ file_type_rights)
header_example = is_encrypted-file_header_init (some (codes "cat")) front length-front (omega arith)

-- A client asks for the path of descriptor 12 of process 34.
abbrev request_text : Bytes
request_text = codes "12,34"

abbrev request : Bytes
request = 129 ∷ request_text ++ 0 ∷ []

abbrev socket : Disk
socket = record (disk 0) { content = λ i. request }

abbrev socket_read : Disk
socket_read = (memory.sys_read (pos 1) command_package_size socket).1

request_read : memory.sys_read (pos 1) command_package_size socket ≡ ((pos 7, request), socket_read)
unfolding fds_of entry
request_read = refl

request_laid :
    write_at 0 request (replicate command_package_size 7)
    ≡ 129 ∷ request_text ++ 0 ∷ 7 ∷ replicate 249 7
unfolding write_at
request_laid = ap (λ l. request ++ l) (drop-replicate command_package_size 7 7 (omega arith))

handle_request_lem_example :
    handle_request memory false (replicate command_package_size 7) (pos 1) socket ≡ (
      if is_served false 129 request_text
      then some (tt, (memory.sys_close (pos 1) socket_read).1)
      else none)
handle_request_lem_example =
    handle_request_lem memory false (replicate command_package_size 7) (pos 1) socket request_text
      (7 ∷ replicate 249 7) request_read request_laid (omega arith)
      (
        λ e. absurd (omega (arith, e)),
        (
          λ e. absurd (omega (arith, e)),
          (
            λ e. absurd (omega (arith, e)),
            (λ e. absurd (omega (arith, e)), (λ e. absurd (omega (arith, e)), tt)),
          ),
        ),
      )
