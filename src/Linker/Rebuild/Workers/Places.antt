-- ===== src/Linker/Rebuild/Workers/Places.antt =====
-- The threads of `rebuild_file_struct` with their calls, beside the threads that only know the
-- contents: which places belong together, and the descriptors that a place needs.
use tencryption.Prelude.{
  ℕ, ◌+◌, ◌/◌, ◌≡◌, ◌≢◌, ◌⊎◌, refl, sym, ap, ◌∙◌, Option, none, some, true, false, inl, inr, eq→==,
  ◌==◌, if◌then◌else◌,
}
use tencryption.Prelude.Int.{ℤ, eqb_ℤ_refl}
use tencryption.Linker.Rebuild.File.{threads_count}
use tencryption.Linker.Rebuild.Threads.{Args, Pc, create, extend, head, spin, copy, done}
use tencryption.Linker.Rebuild.Workers.{Place, start, made, sized, waiting, ready, copying, ended}
use tencryption.Linker.Rebuild.Workers.Files.{Kept, Spares}
use tencryption.Platform.{Bytes, FilePath, has, o_append, reads, writes}
use tencryption.Files.{Fs, At, Stands, opened, rewritten, WritesInPlace}

-- The descriptors of a place.
unfoldable pub Uses : Place → ℤ → Type 0
Uses start g = ⊥
Uses (made fd np) g = fd ≡ g
Uses (sized fd np) g = fd ≡ g
Uses (waiting np) g = ⊥
Uses (ready np) g = ⊥
Uses (copying np ofd nfd offset bsize) g = (ofd ≡ g) ⊎ (nfd ≡ g)
Uses (ended result) g = ⊥

-- A bound on the steps that a thread has left, where it does not wait in vain.
unfoldable pub left : Args → Place → ℕ
left a start = a.bsize / 4096 + 6
left a (made fd np) = a.bsize / 4096 + 5
left a (sized fd np) = a.bsize / 4096 + 4
left a (waiting np) = a.bsize / 4096 + 3
left a (ready np) = a.bsize / 4096 + 2
left a (copying np ofd nfd offset bsize) = bsize / 4096 + 1
left a (ended result) = 0

unfoldable pub IsWaiting : Place → Type 0
IsWaiting (waiting np) = Unit {0}
IsWaiting _ = ⊥

-- What a thread returns.
abbrev pub result_of : FilePath → ℕ → Option FilePath
result_of npath i = if i + 1 == threads_count then some npath else none

-- `fd` reads the inode.
pub record Reader (fs : Fs) (fd : ℤ) (inode : ℕ) : Type 0 where
  pub description : ℕ
  pub stands : fs.fds fd ≡ some description
  pub inode_eq : (fs.descriptions description).inode ≡ inode
  pub readable : reads (fs.descriptions description).flags ≡ true

-- `fd` writes the file of the path.
pub record Writer (fs : Fs) (fd : ℤ) (npath : FilePath) : Type 0 where
  pub description : ℕ
  pub stands : fs.fds fd ≡ some description
  pub found : fs.resolve npath ≡ some (fs.descriptions description).inode
  pub in_place : WritesInPlace fs description

-- What a step leaves alone: the descriptors of others, and the file of the path, once it exists.
pub record Frame (U : ℤ → Type 0) (npath : FilePath) (fs fs' : Fs) : Type 0 where
  pub spares : Spares U fs fs'
  pub found : (k : ℕ) → fs.resolve npath ≡ some k → fs'.resolve npath ≡ some k

pub Reader-Frame :
    {U : ℤ → Type 0} {npath : FilePath} {fs fs' : Fs} {fd : ℤ} {inode : ℕ}
    → Frame U npath fs fs'
    → (U fd → ⊥)
    → Reader fs fd inode
    → Reader fs' fd inode
Reader-Frame {fs = fs} {fs'} {fd} frame other r =
    let k : Kept fs fs' fd r.description = frame.spares.kept fd r.description r.stands other in
    record {
      description = r.description;
      stands = k.stands;
      inode_eq = k.inode_eq ∙ r.inode_eq;
      readable = rw k.flags_eq r.readable;
    }

pub Writer-Frame :
    {U : ℤ → Type 0} {npath : FilePath} {fs fs' : Fs} {fd : ℤ}
    → Frame U npath fs fs'
    → (U fd → ⊥)
    → Writer fs fd npath
    → Writer fs' fd npath
Writer-Frame {fs = fs} {fs'} {fd} frame other r =
    let k : Kept fs fs' fd r.description = frame.spares.kept fd r.description r.stands other in
    record {
      description = r.description;
      stands = k.stands;
      found = frame.found (fs.descriptions r.description).inode r.found ∙ ap some (sym k.inode_eq);
      in_place = rw k.flags_eq r.in_place;
    }

pub Writer-opened :
    (fs : Fs) (fd : ℤ) (d i flags : ℕ) (npath : FilePath)
    → fs.resolve npath ≡ some i
    → writes flags ≡ true
    → has flags o_append ≡ false
    → Writer (opened fd d i flags fs) fd npath
Writer-opened fs fd d i flags npath found writable in_place = record {
  description = d;
  stands = rw (eqb_ℤ_refl fd) refl;
  found = rw (eq→== d d refl) found;
  in_place = rw (eq→== d d refl) (writable, in_place);
}

pub Reader-opened :
    (fs : Fs) (fd : ℤ) (d i flags : ℕ) → reads flags ≡ true → Reader (opened fd d i flags fs) fd i
Reader-opened fs fd d i flags readable = record {
  description = d;
  stands = rw (eqb_ℤ_refl fd) refl;
  inode_eq = rw (eq→== d d refl) refl;
  readable = rw (eq→== d d refl) readable;
}

pub Reader-rewritten :
    {fs : Fs} {fd : ℤ} {inode : ℕ} (k : ℕ) (bytes : Bytes)
    → Reader fs fd inode
    → Reader (rewritten k bytes fs) fd inode
Reader-rewritten k bytes r = record {
  description = r.description;
  stands = r.stands;
  inode_eq = r.inode_eq;
  readable = r.readable;
}

pub Writer-rewritten :
    {fs : Fs} {fd : ℤ} {npath : FilePath} (k : ℕ) (bytes : Bytes)
    → Writer fs fd npath
    → Writer (rewritten k bytes fs) fd npath
Writer-rewritten k bytes w = record {
  description = w.description;
  stands = w.stands;
  found = w.found;
  in_place = w.in_place;
}

-- A reader at its position, and what a writer writes to.
pub Reader-At :
    {fs : Fs} {fd : ℤ} {inode : ℕ} {file : Bytes} (r : Reader fs fd inode)
    → fs.content inode ≡ file
    → At fs fd r.description inode (fs.descriptions r.description).position file
Reader-At r e = record {
  stands = r.stands;
  readable_eq = r.readable;
  inode_eq = r.inode_eq;
  position_eq = refl;
  content_eq = e;
}

pub Writer-Stands :
    {fs : Fs} {fd : ℤ} {npath : FilePath} {file : Bytes} (w : Writer fs fd npath)
    → fs.content (fs.descriptions w.description).inode ≡ file
    → Stands fs fd w.description (fs.descriptions w.description).inode file
Writer-Stands w e = record { stands = w.stands; inode_eq = refl; content_eq = e }

module _ (npath : FilePath) (old_inode : ℕ) where
  -- A thread with its calls at this place is a thread on the contents at that place.
  unfoldable pub Rel : Fs → Args → Place → Pc → Type 0
  Rel fs a start pc = pc ≡ (if a.number == 0 then create else spin)
  Rel fs a (made fd np) pc = (pc ≡ extend) × (np ≡ npath) × Writer fs fd npath
  Rel fs a (sized fd np) pc = (pc ≡ head) × (np ≡ npath) × Writer fs fd npath
  Rel fs a (waiting np) pc = (pc ≡ spin) × (np ≡ npath)
  Rel fs a (ready np) pc = (pc ≡ copy a.postion a.bsize) × (np ≡ npath)
  Rel fs a (copying np ofd nfd offset bsize) pc =
      (pc ≡ copy offset bsize)
      × (np ≡ npath)
      × (ofd ≢ nfd)
      × Reader fs ofd old_inode
      × Writer fs nfd npath
  Rel fs a (ended result) pc = (pc ≡ done) × (result ≡ result_of npath a.number)

  -- A step of another thread.
  pub Rel-Frame :
      {U : ℤ → Type 0} {fs fs' : Fs} (a : Args) (p : Place) (pc : Pc)
      → Frame U npath fs fs'
      → ((g : ℤ) → Uses p g → U g → ⊥)
      → Rel fs a p pc
      → Rel fs' a p pc
  unfolding Rel Uses
  Rel-Frame a start pc frame other h = h
  Rel-Frame a (made fd np) pc frame other (e, same, w) =
      (e, same, Writer-Frame frame (other fd refl) w)
  Rel-Frame a (sized fd np) pc frame other (e, same, w) =
      (e, same, Writer-Frame frame (other fd refl) w)
  Rel-Frame a (waiting np) pc frame other h = h
  Rel-Frame a (ready np) pc frame other h = h
  Rel-Frame a (copying np ofd nfd offset bsize) pc frame other (e, same, ne, r, w) = (
    e,
    same,
    ne,
    Reader-Frame frame (other ofd (inl refl)) r,
    Writer-Frame frame (other nfd (inr refl)) w,
  )
  Rel-Frame a (ended result) pc frame other h = h

  -- The descriptors of a place are open.
  pub Uses-open :
      (fs : Fs) (a : Args) (p : Place) (pc : Pc) (g : ℤ)
      → Rel fs a p pc
      → Uses p g
      → (d : ℕ) × (fs.fds g ≡ some d)
  unfolding Rel Uses
  Uses-open fs a start pc g h u = absurd u
  Uses-open fs a (made fd np) pc g (e, same, w) u = (w.description, ap fs.fds (sym u) ∙ w.stands)
  Uses-open fs a (sized fd np) pc g (e, same, w) u = (w.description, ap fs.fds (sym u) ∙ w.stands)
  Uses-open fs a (waiting np) pc g h u = absurd u
  Uses-open fs a (ready np) pc g h u = absurd u
  Uses-open fs a (copying np ofd nfd offset bsize) pc g (e, same, ne, r, w) (inl u) =
      (r.description, ap fs.fds (sym u) ∙ r.stands)
  Uses-open fs a (copying np ofd nfd offset bsize) pc g (e, same, ne, r, w) (inr u) =
      (w.description, ap fs.fds (sym u) ∙ w.stands)
  Uses-open fs a (ended result) pc g h u = absurd u
