-- ===== src/Linker/Open/Large.antt =====
-- `open` of a larger file that is not encrypted yet: its threads rebuild it.
use tencryption.Prelude.{
  ℕ, suc, ◌+◌, ◌*◌, ◌^◌, List, ◌≤◌, ◌<◌, ◌≡◌, ◌≢◌, refl, true, false, sym, ap, ◌∙◌, Option, none,
  some, [], ◌∷◌, ◌++◌, arith, length, lt→leb, if◌then◌else◌,
}
use tencryption.Prelude.Int.{ℤ, pos}
use tencryption.Prelude.Text.{codes}
use tencryption.Cipher.{IsAes}
use tencryption.Header.{header_size, name_offset, file_type_rights, is_encrypted_by_file_header}
use tencryption.Detect.Name.{HasName, HasName-Same, name_of, length-name_of}
use tencryption.Platform.{
  Platform, Process, Bytes, FilePath, Run, path_max, o_creat, o_excl, o_trunc, has, reads,
}
use tencryption.Files.{some-none, Fs, Posix, is_some}
use tencryption.FileInfos.{new_info}
use tencryption.Linker.Gate.{SeesPlain}
use tencryption.Linker.Open.{open_file}
use tencryption.Linker.Open.Probe.{IsPlain, header_found-none, probe_header_lem}
use tencryption.Linker.Open.Encrypted.{AllOpen, IsOpened, open_gate}
use tencryption.Linker.Open.Rebuilt.{Measured, closed-Measured, plain_gate, reopened}
use tencryption.Linker.Rebuild.{new_header, rebuilt-stored}
use tencryption.Linker.Rebuild.File.{threads_count, rebuild_file_struct}
use tencryption.Linker.Rebuild.Threads.{average_of}
use tencryption.Linker.Rebuild.Workers.{Schedule, Workers, spawned, works, rebuild_large}
use tencryption.Linker.Rebuild.Workers.Files.{NewFile}
use tencryption.Linker.Rebuild.Workers.Join.{AllEnded, rebuild_large_lem}
use tencryption.Linker.Rebuild.Workers.Finish.{works_end}

-- The system creates all threads.
abbrev pub all_threads : List ℕ → Schedule
all_threads order = record { attributes = true; created = λ i. true; order = order }

module _ (P : Platform) (threads : FilePath → ℕ → Run P ℕ) where
  rebuild_file_struct_large :
      (path : FilePath) (size : ℕ) (s : Process P.World)
      → path ≢ []
      → 4096 * threads_count < size
      → rebuild_file_struct P threads path (pos size) s ≡ threads path size s
  unfolding rebuild_file_struct
  rebuild_file_struct_large [] size s ne high = absurd (ne refl)
  rebuild_file_struct_large (c ∷ path) size s ne high =
      rw (lt→leb size 0 (omega (arith, high)), lt→leb size (4096 * threads_count) high) refl

-- Descriptors that stay open keep the tracked descriptors open.
kept_open :
    (x : Option ℕ) (fs fs' : Fs) (g : ℤ)
    → ((d : ℕ) → fs.fds g ≡ some d → fs'.fds g ≡ some d)
    → fs.fds g ≡ x
    → fs'.fds g ≡ none
    → fs.fds g ≡ none
kept_open none fs fs' g kept e h = e
kept_open (some d) fs fs' g kept e h = absurd (some-none (sym (kept d e) ∙ h))

module _ (P : Platform) (px : Posix P) (ok : IsAes P.aes) where
  -- `open` of a file of more than 16384 and less than 2^31 - 4096 bytes that is not encrypted yet, of
  -- which the rounded shares of the first three threads are not more than it has, under the other
  -- conditions of `open` of a plain file, where the system creates all threads. There is a world
  -- `start` in which the threads begin. In any order of steps they run without a fault, and there is
  -- a further order with which all come to their end; whenever they have, `open` returns, the file is
  -- rebuilt to the stored form of its content behind a header that is recognised and names the process,
  -- and the promise of `open` holds of the descriptor returned.
  pub open_large_lem :
      (path : FilePath) (flags argument : ℕ) (plain text : Bytes) {s t : Process P.World}
      {i pid j : ℕ}
      → SeesPlain P s t
      → P.is_support_file_type_by_path path ≢ 0
      → path ≢ []
      → length path + 3 ≤ path_max
      → name_offset + P.process_name_max ≤ header_size
      → reads flags ≡ true
      → has flags o_trunc ≡ false
      → has flags o_excl ≡ false
      → (px.view t.world).resolve path ≡ some i
      → (px.view t.world).content i ≡ plain
      → (px.view t.world).resolve (path ++ codes ".s") ≡ none
      → 4096 * threads_count < length plain
      → length plain + header_size < 2 ^ 31
      → average_of (length plain) * 3 ≤ length plain
      → IsPlain plain
      → HasName P px t.world pid j text
      → AllOpen (px.view t.world) t.file_info_list
      → let header = new_header (some (name_of P px text)) in
        (start : P.World) × ((order : List ℕ)
          → (w : Workers P path) × (works P path
                (λ k. true)
                (length plain)
                order
                (spawned P path (record t { world = start }))
              ≡ some w)
            × (AllEnded P path w
                → (fd : ℤ) × (u : Process P.World) × (open_file P
                      (rebuild_large P (all_threads order))
                      path
                      flags
                      argument
                      s
                    ≡ some (fd, u))
                  × (is_encrypted_by_file_header header ≡ file_type_rights)
                  × IsOpened P px ok t u fd path flags header plain))
        × ((order : List ℕ)
            → (more : List ℕ) × (w : Workers P path) × (works P path
                  (λ k. true)
                  (length plain)
                  (order ++ more)
                  (spawned P path (record t { world = start }))
                ≡ some w)
              × AllEnded P path w)
  unfolding is_some NewFile
  open_large_lem path flags argument plain text {s} {t} {i} {pid} {j} sees supported ne fits room
        readable kept old found content absent large small enough is_plain named open_l =
      let mode : ℕ = if has flags o_creat then argument else 0 in
      let name : Option Bytes = some (name_of P px text) in
      let short : name_offset + length (name_of P px text) ≤ header_size =
        omega (arith, room, length-name_of P px text) in
      let (w1, e1, same1) = probe_header_lem P px path t sees.linked found content in
      let (n, d, w2, e2, free, unused, v2) =
        px.open_lem path flags mode w1 (ap (λ f. f path) same1.resolve_eq ∙ found) kept old in
      let m : Measured P px (pos (suc n)) path plain t w2 =
        closed-Measured P px path plain t (px.view w1) flags n sees.linked fits v2 free unused same1
          found content absent in
      let t5 : Process P.World = record t { world = m.start } in
      let named5 : HasName P px t5.world pid j text = HasName-Same P px m.same named in
      let found5 : (px.view m.start).resolve path ≡ some i =
        ap (λ f. f path) m.same.resolve_eq ∙ found in
      let content5 : (px.view m.start).content i ≡ plain =
        ap (λ f. f i) m.same.content_eq ∙ content in
      let absent5 : (px.view m.start).resolve (path ++ codes ".s") ≡ none =
        ap (λ f. f (path ++ codes ".s")) m.same.resolve_eq ∙ absent in
      (
        m.start,
        λ order.
            let (w, e, ends) =
              rebuild_large_lem P px ok (all_threads order) path plain text t5 sees.linked refl
                (λ k b. refl) named5 room fits small enough found5 content5 absent5 in
            (
              w,
              e,
              λ h.
                  let (w6, e6, r) = ends h in
                  let (n', w7, w8, w9, e7, e8, e9, result) =
                    reopened P px ok path flags mode (new_header name) plain t w6 sees.linked
                      readable kept old r.found r.content_eq
                      (λ g z. open_l g (
                        sym (m.same.fds_eq g)
                        ∙ kept_open ((px.view m.start).fds g) (px.view m.start) (px.view w6) g
                            (λ d' open_fd. (r.kept g d' open_fd).stands) refl z)) in
                  (
                    pos (suc n'),
                    record t {
                      file_info_list = t.file_info_list ++ new_info (pos (suc n')) path ∷ [];
                      world = w9;
                    },
                    open_gate P px ok (rebuild_large P (all_threads order)) path flags argument sees
                          supported
                        ∙ plain_gate P (rebuild_large P (all_threads order)) path flags mode n t
                            sees.linked (px.access_lem path t.world ∙ ap is_some found)
                            (e1
                              ∙ ap (λ o. some (o, record t { world = w1 }))
                                  (header_found-none plain is_plain))
                            e2
                            (m.run (rebuild_large P (all_threads order)) flags mode n' w6 w7 w8 w9
                              (pos header_size)
                              (rebuild_file_struct_large P (rebuild_large P (all_threads order))
                                  path (length plain) t5 ne large
                                ∙ e6)
                              e7 e8 e9),
                    (rebuilt-stored P.aes ok name short plain).2,
                    result,
                  ),
            ),
        λ order.
            works_end P px ok order (λ k. true) path plain text t5 sees.linked (λ k b. refl) named5
              room fits small enough found5 content5 absent5,
      )
