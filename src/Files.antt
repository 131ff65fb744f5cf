-- ===== src/Files.antt =====
-- What POSIX documents of the calls that the library makes on regular files, on a system that has
-- memory and descriptors left and no I/O error: the state that the calls share, and a law for
-- each call.
pub mod Memory
pub mod Same
use Prim.Native.Nat.{bit_and}
use tencryption.Prelude.{
  ℕ, suc, ◌+◌, ◌≡◌, Bool, true, false, Option, none, some, List, [], ◌++◌, ◌-◌, take, replicate,
  length, ◌≤◌, ◌≢◌, sym, ap, ◌∙◌, arith, ◌==◌, ne→==, if◌then◌else◌,
}
use tencryption.Prelude.Int.{ℤ, pos, eqb_ℤ, eqb_ℤ_refl, eqb_ℤ_ne}
use tencryption.Prelude.Slices.{slice, write_at}
use tencryption.Header.Equality.{bytes_eq}
use tencryption.Platform.{
  Platform, Bytes, FilePath, Stat, seek_set, seek_cur, o_creat, o_excl, o_trunc, o_append, has,
  reads, writes,
}

unfoldable pub is_some {ℓ} : {A : Type ℓ} → Option A → Bool
is_some none = false
is_some (some a) = true

-- An open file description, with the flags that it was opened with: duplicates of a descriptor
-- share one.
pub record Description : Type 0 where
  pub inode : ℕ
  pub position : ℕ
  pub flags : ℕ

-- The descriptors of the process, the descriptions, the content of each inode, and the inodes of
-- paths.
pub record Fs : Type 0 where
  pub fds : ℤ → Option ℕ
  pub descriptions : ℕ → Description
  pub content : ℕ → Bytes
  pub resolve : FilePath → Option ℕ

abbrev pub update {ℓ} : {A : Type ℓ} → (ℕ → A) → ℕ → A → ℕ → A
update f k v n = if k == n then v else f n

abbrev pub set_fd : (ℤ → Option ℕ) → ℤ → Option ℕ → ℤ → Option ℕ
set_fd f fd d g = if eqb_ℤ fd g then d else f g

-- The description `d` at another position.
abbrev pub moved : ℕ → ℕ → Fs → Fs
moved d position fs = record fs {
  descriptions = update fs.descriptions d (record (fs.descriptions d) { position = position });
}

-- The inode `i` with another content.
abbrev pub rewritten : ℕ → Bytes → Fs → Fs
rewritten i bytes fs = record fs { content = update fs.content i bytes }

-- A descriptor that did not stand for anything, for a new description of the inode at position 0,
-- opened with `flags`.
abbrev pub opened : ℤ → ℕ → ℕ → ℕ → Fs → Fs
opened fd d i flags fs = record fs {
  fds = set_fd fs.fds fd (some d);
  descriptions = update fs.descriptions d (record { inode = i; position = 0; flags = flags });
}

-- A descriptor that did not stand for anything, for a description that is there.
abbrev pub duplicated : ℤ → ℕ → Fs → Fs
duplicated fd d fs = record fs { fds = set_fd fs.fds fd (some d) }

abbrev pub closed : ℤ → Fs → Fs
closed fd fs = record fs { fds = set_fd fs.fds fd none }

-- The path, which did not exist, for an empty content of the inode `i`.
abbrev pub created : FilePath → ℕ → Fs → Fs
created path i fs = record fs {
  content = update fs.content i [];
  resolve = λ p. if bytes_eq p path then some i else fs.resolve p;
}

-- `fd` stands for the description `d`, which may be read, at `position` in the inode `i`, which
-- holds `bytes`.
pub record At (fs : Fs) (fd : ℤ) (d i position : ℕ) (bytes : Bytes) : Type 0 where
  pub stands : fs.fds fd ≡ some d
  pub readable_eq : reads (fs.descriptions d).flags ≡ true
  pub inode_eq : (fs.descriptions d).inode ≡ i
  pub position_eq : (fs.descriptions d).position ≡ position
  pub content_eq : fs.content i ≡ bytes

-- `fd` stands for the description `d` of the inode `i`, which holds `bytes`.
pub record Stands (fs : Fs) (fd : ℤ) (d i : ℕ) (bytes : Bytes) : Type 0 where
  pub stands : fs.fds fd ≡ some d
  pub inode_eq : (fs.descriptions d).inode ≡ i
  pub content_eq : fs.content i ≡ bytes

pub At-Stands :
    {fs : Fs} {fd : ℤ} {d i o : ℕ} {bytes : Bytes} → At fs fd d i o bytes → Stands fs fd d i bytes
At-Stands at = record { stands = at.stands; inode_eq = at.inode_eq; content_eq = at.content_eq }

-- A content cut, or filled with zeros, to `n` bytes.
abbrev pub resized : ℕ → Bytes → Bytes
resized n bytes = take n bytes ++ replicate (n - length bytes) 0

-- The inode `i`, which was at the first path, at the second.
abbrev pub renamed : FilePath → FilePath → ℕ → Fs → Fs
renamed from to i fs = record fs {
  resolve = λ p. if bytes_eq p to then some i else if bytes_eq p from then none else fs.resolve p;
}

-- The description may be written, and not in append mode.
abbrev pub WritesInPlace : Fs → ℕ → Type 0
WritesInPlace fs d =
    (writes (fs.descriptions d).flags ≡ true) × (has (fs.descriptions d).flags o_append ≡ false)

pub record Posix (P : Platform) : Type 0 where
  pub view : P.World → Fs
  pub calloc_lem :
      (n : ℕ) (w : P.World) → (w' : P.World) × (P.calloc n w ≡ (true, w')) × (view w' ≡ view w)
  pub fstat_lem :
      (fd : ℤ) (buf : Stat) (w : P.World) {d i o : ℕ} {file : Bytes}
      → At (view w) fd d i o file
      → (w' : P.World) × (P.sys_fstat fd buf w
          ≡ ((pos 0, record { regular = true; st_size = pos (length file) }), w'))
        × (view w' ≡ view w)
  pub tell_lem :
      (fd : ℤ) (w : P.World) {d i o : ℕ} {file : Bytes}
      → At (view w) fd d i o file
      → (w' : P.World) × (P.sys_lseek fd (pos 0) seek_cur w ≡ (pos o, w')) × (view w' ≡ view w)
  pub seek_lem :
      (fd : ℤ) (n : ℕ) (w : P.World) {d i o : ℕ} {file : Bytes}
      → At (view w) fd d i o file
      → (w' : P.World) × (P.sys_lseek fd (pos n) seek_set w ≡ (pos n, w'))
        × (view w' ≡ moved d n (view w))
  pub pread_lem :
      (fd : ℤ) (n from : ℕ) (w : P.World) {d i o : ℕ} {file : Bytes}
      → At (view w) fd d i o file
      → let bytes = slice from n file in
        (w' : P.World) × (P.sys_pread fd n from w ≡ ((pos (length bytes), bytes), w'))
        × (view w' ≡ view w)
  pub read_lem :
      (fd : ℤ) (n : ℕ) (w : P.World) {d i o : ℕ} {file : Bytes}
      → At (view w) fd d i o file
      → let bytes = slice o n file in
        (w' : P.World) × (P.sys_read fd n w ≡ ((pos (length bytes), bytes), w'))
        × (view w' ≡ moved d (o + length bytes) (view w))
  -- A path that exists, opened with flags that neither empty it nor want it to be new: a new
  -- descriptor, of a new description.
  pub open_lem :
      (path : FilePath) (flags mode : ℕ) (w : P.World) {i : ℕ}
      → (view w).resolve path ≡ some i
      → has flags o_trunc ≡ false
      → has flags o_excl ≡ false
      → (n : ℕ) × (d : ℕ) × (w' : P.World) × (P.sys_open path flags mode w ≡ (pos (suc n), w'))
        × ((view w).fds (pos (suc n)) ≡ none)
        × ((fd : ℤ) → (view w).fds fd ≢ some d)
        × (view w' ≡ opened (pos (suc n)) d i flags (view w))
  -- A path that does not exist, opened with `O_CREAT`: the same on an empty file, which is new.
  pub create_lem :
      (path : FilePath) (flags mode : ℕ) (w : P.World)
      → (view w).resolve path ≡ none
      → has flags o_creat ≡ true
      → (n : ℕ) × (d : ℕ) × (i : ℕ) × (w' : P.World) × (P.sys_open path flags mode w
          ≡ (pos (suc n), w'))
        × ((view w).fds (pos (suc n)) ≡ none)
        × ((fd : ℤ) → (view w).fds fd ≢ some d)
        × ((p : FilePath) → (view w).resolve p ≢ some i)
        × (view w' ≡ opened (pos (suc n)) d i flags (created path i (view w)))
  pub access_lem :
      (path : FilePath) (w : P.World) → P.accessible path w ≡ is_some ((view w).resolve path)
  pub stat_lem :
      (path : FilePath) (buf : Stat) (w : P.World) {i : ℕ}
      → (view w).resolve path ≡ some i
      → (w' : P.World) × (P.sys_stat path buf w
          ≡ ((pos 0, record { regular = true; st_size = pos (length ((view w).content i)) }), w'))
        × (view w' ≡ view w)
  pub dup_lem :
      (fd : ℤ) (w : P.World) {d : ℕ}
      → (view w).fds fd ≡ some d
      → (n : ℕ) × (w' : P.World) × (P.sys_dup fd w ≡ (pos (suc n), w'))
        × ((view w).fds (pos (suc n)) ≡ none)
        × (view w' ≡ duplicated (pos (suc n)) d (view w))
  -- `F_GETFL` shows both bits of the access mode with which the description was opened.
  pub status_flags_lem :
      (fd : ℤ) (mask : ℕ) (w : P.World) {d : ℕ}
      → mask ≤ 3
      → (view w).fds fd ≡ some d
      → bit_and (P.status_flags fd w) mask ≡ bit_and ((view w).descriptions d).flags mask
  pub close_lem :
      (fd : ℤ) (w : P.World) {d : ℕ}
      → (view w).fds fd ≡ some d
      → (w' : P.World) × (P.sys_close fd w ≡ (pos 0, w')) × (view w' ≡ closed fd (view w))
  -- Inside the file or at its end.
  pub pwrite_lem :
      (fd : ℤ) (bytes : Bytes) (from : ℕ) (w : P.World) {d i : ℕ} {file : Bytes}
      → Stands (view w) fd d i file
      → WritesInPlace (view w) d
      → from ≤ length file
      → (w' : P.World) × (P.sys_pwrite fd bytes from w ≡ (pos (length bytes), w'))
        × (view w' ≡ rewritten i (write_at from bytes file) (view w))
  pub write_lem :
      (fd : ℤ) (bytes : Bytes) (w : P.World) {d i o : ℕ} {file : Bytes}
      → At (view w) fd d i o file
      → WritesInPlace (view w) d
      → o ≤ length file
      → (w' : P.World) × (P.sys_write fd bytes w ≡ (pos (length bytes), w'))
        × (view w' ≡ moved d (o + length bytes) (rewritten i (write_at o bytes file) (view w)))
  pub ftruncate_lem :
      (fd : ℤ) (n : ℕ) (w : P.World) {d i : ℕ} {file : Bytes}
      → Stands (view w) fd d i file
      → WritesInPlace (view w) d
      → (w' : P.World) × (P.sys_ftruncate fd n w ≡ (pos 0, w'))
        × (view w' ≡ rewritten i (resized n file) (view w))
  pub rename_lem :
      (from to : FilePath) (w : P.World) {i : ℕ}
      → (view w).resolve from ≡ some i
      → from ≢ to
      → (w' : P.World) × (P.sys_rename from to w ≡ (pos 0, w'))
        × (view w' ≡ renamed from to i (view w))

-- Moving a description moves the descriptors that share it, and nothing else.
pub At-moved :
    (fs : Fs) (fd : ℤ) {d i o : ℕ} {file : Bytes} (n : ℕ)
    → At fs fd d i o file
    → At (moved d n fs) fd d i n file
At-moved fs fd n at = ground arith

pub some-none : {d : ℕ} → some d ≢ none
some-none h = cc

pub At-rewritten :
    (fs : Fs) (fd : ℤ) {d i o : ℕ} {file : Bytes} (new : Bytes)
    → At fs fd d i o file
    → At (rewritten i new fs) fd d i o new
At-rewritten fs fd new at = ground arith

-- The descriptor that opening a file gives, and one that was open before.
pub At-opened :
    (fs : Fs) (rfd : ℤ) (d i flags : ℕ) {file : Bytes}
    → fs.content i ≡ file
    → reads flags ≡ true
    → At (opened rfd d i flags fs) rfd d i 0 file
At-opened fs rfd d i flags e h = ground (arith, eqb_ℤ_refl rfd)

pub At-opened_other :
    (fs : Fs) (fd rfd : ℤ) {d i o : ℕ} {file : Bytes} (d' i' flags : ℕ)
    → At fs fd d i o file
    → fs.fds rfd ≡ none
    → ((g : ℤ) → fs.fds g ≢ some d')
    → At (opened rfd d' i' flags fs) fd d i o file
At-opened_other fs fd rfd {d} d' i' flags at free unused =
    let ne : rfd ≢ fd = λ e. some-none (sym at.stands ∙ ap fs.fds (sym e) ∙ free) in
    let ne' : d' ≢ d = λ e. unused fd (at.stands ∙ ap some (sym e)) in
    ground (arith, eqb_ℤ_ne rfd fd ne)

pub WritesInPlace-opened :
    (fs : Fs) (rfd : ℤ) {d : ℕ} (fd : ℤ) (d' i' flags : ℕ)
    → fs.fds fd ≡ some d
    → ((g : ℤ) → fs.fds g ≢ some d')
    → WritesInPlace fs d
    → WritesInPlace (opened rfd d' i' flags fs) d
WritesInPlace-opened fs rfd {d} fd d' i' flags stands unused h =
    let ne' : d' ≢ d = λ e. unused fd (stands ∙ ap some (sym e)) in rw (ne→== d' d ne') h

-- A duplicate, and the descriptor that it was made of.
pub At-duplicated :
    (fs : Fs) (fd nfd : ℤ) {d i o : ℕ} {file : Bytes}
    → At fs fd d i o file
    → At (duplicated nfd d fs) nfd d i o file
At-duplicated fs fd nfd at = ground (arith, eqb_ℤ_refl nfd)

pub At-duplicated_other :
    (fs : Fs) (fd nfd : ℤ) {d i o : ℕ} {file : Bytes}
    → At fs fd d i o file
    → nfd ≢ fd
    → At (duplicated nfd d fs) fd d i o file
At-duplicated_other fs fd nfd at ne = ground (arith, eqb_ℤ_ne nfd fd ne)

pub At-closed :
    (fs : Fs) (fd rfd : ℤ) {d i o : ℕ} {file : Bytes}
    → At fs fd d i o file
    → rfd ≢ fd
    → At (closed rfd fs) fd d i o file
At-closed fs fd rfd at ne = ground (arith, eqb_ℤ_ne rfd fd ne)

pub At-equal :
    {fs : Fs} {fd : ℤ} {d i o o' : ℕ} {file file' : Bytes}
    → At fs fd d i o file
    → o ≡ o'
    → file ≡ file'
    → At fs fd d i o' file'
At-equal at eo ef = record {
  stands = at.stands;
  readable_eq = at.readable_eq;
  inode_eq = at.inode_eq;
  position_eq = at.position_eq ∙ eo;
  content_eq = at.content_eq ∙ ef;
}
