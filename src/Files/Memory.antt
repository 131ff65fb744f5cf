-- ===== src/Files/Memory.antt =====
-- A file system in memory that meets the laws: a table of descriptors, each with its description.
mod Table
mod AddOne
pub use AddOne.{cipher, cipher-IsAes}
unfoldable pub use Table.{entry, fds_of}
use Table.{close_entry, unused, fds_of-free, fds_of-unused, fds_of-append, fds_of-close}
use mathlib.Core.Path.{fun_ext}
use tencryption.Prelude.{
  ℕ, Bool, ltb, zero, suc, ◌+◌, ◌-◌, ◌<◌, ◌≡◌, ◌≢◌, refl, ap, ap₂, ◌∙◌, true, false, Option, none,
  some, List, [], ◌∷◌, ◌++◌, length, arith, ◌==◌, if◌then◌else◌,
}
use tencryption.Prelude.Int.{ℤ, pos, negsuc, minus_one}
use tencryption.Prelude.Slices.{slice, write_at}
use tencryption.Prelude.Text.{codes}
use tencryption.Cipher.{Aes, IsAes}
use tencryption.Header.Equality.{bytes_eq}
use tencryption.Platform.{
  Platform, Bytes, FilePath, Stat, Whence, seek_set, seek_cur, seek_end, has, o_creat, o_excl,
  o_trunc,
}
use tencryption.Files.{is_some, resized, created, Description, Fs, Posix, update, set_fd, opened}

-- The descriptor `pos (suc k)` is the entry `k` of the table, and a path has the inode that
-- `resolve` gives if it is below `next_inode`.
pub record Disk : Type 0 where
  pub table : List (Option ℕ)
  pub descriptions : ℕ → Description
  pub content : ℕ → Bytes
  pub resolve : FilePath → Option ℕ
  pub next_inode : ℕ

below : ℕ → Option ℕ → Option ℕ
below n none = none
below n (some i) = if ltb i n then some i else none

-- The inode of a path, where only those below `n` exist.
unfoldable pub resolve_of : ℕ → (FilePath → Option ℕ) → FilePath → Option ℕ
unfolding below
resolve_of n resolve path = below n (resolve path)

below-ne : (n : ℕ) (x : Option ℕ) → below n x ≢ some n
unfolding below
below-ne n none h = cc
below-ne n (some i) h = ground arith

below-suc : (n : ℕ) (x : Option ℕ) → below (n + 1) (below n x) ≡ below n x
unfolding below
below-suc n none = refl
below-suc n (some i) = ground arith

below-below : (n : ℕ) (x : Option ℕ) → below n (below n x) ≡ below n x
unfolding below
below-below n none = refl
below-below n (some i) = ground arith

below-some : (n : ℕ) (x : Option ℕ) {i : ℕ} → below n x ≡ some i → below n (some i) ≡ some i
unfolding below
below-some n none h = cc
below-some n (some j) h = ground arith

below-renamed :
    (b c : Bool) (n i : ℕ) (x : Option ℕ)
    → below n (some i) ≡ some i
    → below n (if b then some i else if c then none else below n x)
      ≡ (if b then some i else if c then none else below n x)
unfolding below
below-renamed true c n i x h = h
below-renamed false true n i x h = refl
below-renamed false false n i x h = below-below n x

below-created :
    (b : Bool) (n : ℕ) (x : Option ℕ)
    → below (n + 1) (if b then some n else below n x) ≡ (if b then some n else below n x)
unfolding below
below-created true n x = ground arith
below-created false n x = below-suc n x

abbrev pub view : Disk → Fs
view w = record {
  fds = fds_of w.table;
  descriptions = w.descriptions;
  content = w.content;
  resolve = resolve_of w.next_inode w.resolve;
}

-- A call on a descriptor that stands for a description, or what it returns for another.
abbrev on_fd {ℓ} : {A : Type ℓ} → Disk → ℤ → A → (ℕ → A) → A
on_fd w fd failed body = elim (fds_of w.table fd) [ none ↦ failed | some d ↦ body d ]

abbrev file_of : Disk → ℕ → Bytes
file_of w d = w.content (w.descriptions d).inode

abbrev move : ℕ → ℕ → Disk → Disk
move d position w = record w {
  descriptions = update w.descriptions d (record (w.descriptions d) { position = position });
}

abbrev rewrite_file : ℕ → Bytes → Disk → Disk
rewrite_file d bytes w = record w { content = update w.content (w.descriptions d).inode bytes }

abbrev open_disk : Disk → ℕ → ℕ → Disk
open_disk w i flags = record w {
  table = w.table ++ some (unused w.table) ∷ [];
  descriptions =
      update w.descriptions (unused w.table) (record { inode = i; position = 0; flags = flags });
}

abbrev create_disk : Disk → FilePath → Disk
create_disk w path = record w {
  content = update w.content w.next_inode [];
  resolve = λ p. if bytes_eq p path then some w.next_inode else resolve_of w.next_inode w.resolve p;
  next_inode = w.next_inode + 1;
}

abbrev truncate_disk : Disk → ℕ → ℕ → Disk
truncate_disk w i flags =
    if has flags o_trunc then record w { content = update w.content i [] } else w

abbrev rename_disk : Disk → FilePath → FilePath → ℕ → Disk
rename_disk w from to i = record w {
  resolve = λ p.
      if bytes_eq p to
      then some i
      else if bytes_eq p from
      then none
      else resolve_of w.next_inode w.resolve p;
}

abbrev seek_to : Disk → ℤ → Whence → ℕ → ℕ → ℤ × Disk
seek_to w (negsuc n) whence d size = (minus_one, w)
seek_to w (pos n) seek_set d size = (pos n, move d n w)
seek_to w (pos zero) seek_cur d size = (pos (w.descriptions d).position, w)
seek_to w (pos (suc n)) seek_cur d size =
    let p = (w.descriptions d).position + suc n in (pos p, move d p w)
seek_to w (pos n) seek_end d size = (pos (size + n), move d (size + n) w)

abbrev file_stat : Disk → ℕ → Stat
file_stat w d = record { regular = true; st_size = pos (length (file_of w d)) }

-- User 10 in domain 10, with encryption on.
abbrev properties : Bytes → Bytes
properties name =
    if bytes_eq name (codes "persist.sys.current_user_id")
    then codes "10"
    else if bytes_eq name (codes "persist.encryption.enable")
    then codes "10:1"
    else []

abbrev pub memory : Platform
memory = record {
  World = Disk;
  aes = cipher;
  sys_dup = λ fd w.
      on_fd w fd (minus_one, w)
        (λ d. (pos (suc (length w.table)), record w { table = w.table ++ some d ∷ [] }));
  sys_stat = λ path buf w. elim (resolve_of w.next_inode w.resolve path) [
    | none ↦ ((minus_one, buf), w)
    | some i ↦ ((pos 0, record { regular = true; st_size = pos (length (w.content i)) }), w)
  ];
  sys_lstat = λ path buf w. elim (resolve_of w.next_inode w.resolve path) [
    | none ↦ ((minus_one, buf), w)
    | some i ↦ ((pos 0, record { regular = true; st_size = pos (length (w.content i)) }), w)
  ];
  sys_fstat = λ fd buf w. on_fd w fd ((minus_one, buf), w) (λ d. ((pos 0, file_stat w d), w));
  sys_open = λ path flags mode w. elim (resolve_of w.next_inode w.resolve path) [
    | none ↦
        if has flags o_creat
        then (pos (suc (length w.table)), open_disk (create_disk w path) w.next_inode flags)
        else (minus_one, w)
    | some i ↦
        if has flags o_excl
        then (minus_one, w)
        else (pos (suc (length w.table)), open_disk (truncate_disk w i flags) i flags)
  ];
  sys_read = λ fd n w.
      on_fd w fd ((minus_one, []), w)
        (λ d.
          let o = (w.descriptions d).position in
          let bytes = slice o n (file_of w d) in
          ((pos (length bytes), bytes), move d (o + length bytes) w));
  sys_write = λ fd bytes w.
      on_fd w fd (minus_one, w)
        (λ d.
          let o = (w.descriptions d).position in
          (
            pos (length bytes),
            move d (o + length bytes) (rewrite_file d (write_at o bytes (file_of w d)) w),
          ));
  sys_close =
      λ fd w. on_fd w fd (minus_one, w) (λ d. (pos 0, record w { table = close_entry w.table fd }));
  sys_lseek = λ fd offset whence w.
      on_fd w fd (minus_one, w) (λ d. seek_to w offset whence d (length (file_of w d)));
  sys_lseek64 = λ fd offset whence w.
      on_fd w fd (minus_one, w) (λ d. seek_to w offset whence d (length (file_of w d)));
  sys_pread = λ fd n from w.
      on_fd w fd ((minus_one, []), w)
        (λ d. let bytes = slice from n (file_of w d) in ((pos (length bytes), bytes), w));
  sys_pwrite = λ fd bytes from w.
      on_fd w fd (minus_one, w)
        (λ d. (pos (length bytes), rewrite_file d (write_at from bytes (file_of w d)) w));
  sys_remove = λ path w. elim (resolve_of w.next_inode w.resolve path) [
    | none ↦ (minus_one, w)
    | some i ↦ (
      pos 0,
      record w {
        resolve = λ p. if bytes_eq p path then none else resolve_of w.next_inode w.resolve p;
      },
    )
  ];
  sys_ftruncate = λ fd n w.
      on_fd w fd (minus_one, w) (λ d. (pos 0, rewrite_file d (resized n (file_of w d)) w));
  sys_rename = λ from to w. elim (resolve_of w.next_inode w.resolve from) [
    | none ↦ (minus_one, w)
    | some i ↦ (pos 0, rename_disk w from to i)
  ];
  accessible = λ path w. is_some (resolve_of w.next_inode w.resolve path);
  status_flags = λ fd w. on_fd w fd 0 (λ d. (w.descriptions d).flags);
  calloc = λ n w. (true, w);
  property = λ name w. properties name;
  getuid = λ w. 1010042;
  getgid = λ w. 1010042;
  getpid = λ w. 7;
  aid_user = 100000;
  aid_media = 1013;
  prop_value_max = 92;
  process_name_max = 256;
  linker_reload = λ s. s;
  is_support_file_type_by_path = λ path. 1;
  is_support_special_file_type_by_path = λ path. 0;
}

pub resolve_of-ne :
    (n : ℕ) (f : FilePath → Option ℕ) (path : FilePath) → resolve_of n f path ≢ some n
unfolding resolve_of
resolve_of-ne n f path = below-ne n (f path)

pub resolve_of-created :
    (n : ℕ) (f : FilePath → Option ℕ) (path p : FilePath)
    → resolve_of (n + 1) (λ q. if bytes_eq q path then some n else resolve_of n f q) p
      ≡ (if bytes_eq p path then some n else resolve_of n f p)
unfolding resolve_of
resolve_of-created n f path p = below-created (bytes_eq p path) n (f p)

pub resolve_of-renamed :
    (n : ℕ) (f : FilePath → Option ℕ) (from to p : FilePath) {i : ℕ}
    → resolve_of n f from ≡ some i
    → resolve_of n
        (λ q. if bytes_eq q to then some i else if bytes_eq q from then none else resolve_of n f q)
        p
      ≡ (if bytes_eq p to then some i else if bytes_eq p from then none else resolve_of n f p)
unfolding resolve_of
resolve_of-renamed n f from to p {i} h =
    below-renamed (bytes_eq p to) (bytes_eq p from) n i (f p) (below-some n (f from) h)

unfoldable pub memory-Posix : Posix memory
memory-Posix = record {
  view = view;
  calloc_lem = λ n w. (w, refl, refl);
  fstat_lem =
      λ fd buf w at. (w, rw (on_fd, file_of, at.stands, at.inode_eq, at.content_eq) refl, refl);
  tell_lem = λ fd w at. (w, rw (on_fd, file_of, at.stands, at.position_eq) refl, refl);
  seek_lem = λ fd n w {d} at. (move d n w, rw (on_fd, at.stands) refl, refl);
  pread_lem =
      λ fd n from w at. (w, rw (on_fd, file_of, at.stands, at.inode_eq, at.content_eq) refl, refl);
  read_lem = λ fd n w {d} {i} {o} {file} at. (
    move d (o + length (slice o n file)) w,
    rw (on_fd, file_of, at.stands, at.inode_eq, at.content_eq, at.position_eq) refl,
    refl,
  );
  open_lem = λ path flags mode w {i} e kept old. (
    length w.table,
    unused w.table,
    open_disk w i flags,
    rw (memory, e, old, kept) refl,
    fds_of-free w.table,
    fds_of-unused w.table,
    ap
        (λ f. record (opened (pos (suc (length w.table))) (unused w.table) i flags (view w)) {
          fds = f;
        })
        (fds_of-append w.table (unused w.table)),
  );
  create_lem = λ path flags mode w e new. (
    length w.table,
    unused w.table,
    w.next_inode,
    open_disk (create_disk w path) w.next_inode flags,
    rw (memory, e, new) refl,
    fds_of-free w.table,
    fds_of-unused w.table,
    resolve_of-ne w.next_inode w.resolve,
    ap₂
        (λ f g.
          record (opened (pos (suc (length w.table))) (unused w.table) w.next_inode flags
            (created path w.next_inode (view w))) { fds = f; resolve = g })
        (fds_of-append w.table (unused w.table))
        (fun_ext λ p. resolve_of-created w.next_inode w.resolve path p),
  );
  access_lem = λ path w. refl;
  stat_lem = λ path buf w e. (w, rw (memory, e) refl, refl);
  dup_lem = λ fd w {d} e. (
    length w.table,
    record w { table = w.table ++ some d ∷ [] },
    rw (on_fd, e) refl,
    fds_of-free w.table,
    ap (λ f. record (view w) { fds = f }) (fds_of-append w.table d),
  );
  status_flags_lem = λ fd mask w low e. rw (on_fd, e) refl;
  close_lem = λ fd w e. (
    record w { table = close_entry w.table fd },
    rw (on_fd, e) refl,
    ap (λ f. record (view w) { fds = f }) (fds_of-close w.table fd),
  );
  pwrite_lem = λ fd bytes from w {d} {i} {file} at plain inside. (
    record w { content = update w.content i (write_at from bytes file) },
    rw (on_fd, file_of, at.stands, at.inode_eq, at.content_eq) refl,
    refl,
  );
  write_lem = λ fd bytes w {d} {i} {o} {file} at plain inside. (
    move d (o + length bytes) (record w { content = update w.content i (write_at o bytes file) }),
    rw (on_fd, file_of, at.stands, at.inode_eq, at.content_eq, at.position_eq) refl,
    refl,
  );
  ftruncate_lem = λ fd n w {d} {i} {file} at writable. (
    record w { content = update w.content i (resized n file) },
    rw (on_fd, file_of, at.stands, at.inode_eq, at.content_eq) refl,
    refl,
  );
  rename_lem = λ from to w {i} e ne. (
    rename_disk w from to i,
    rw (memory, e) refl,
    ap (λ f. record (view w) { resolve = f })
        (fun_ext λ p. resolve_of-renamed w.next_inode w.resolve from to p e),
  );
}
