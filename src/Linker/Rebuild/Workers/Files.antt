-- ===== src/Linker/Rebuild/Workers/Files.antt =====
-- The files that the threads of `rebuild_file_struct` share: what a step of one thread may do to
-- them, and what it has to leave alone.
use mathlib.Core.Path.{subst}
use mathlib.Core.Option.{some-injective}
use tencryption.Prelude.{ℕ, ◌≡◌, ◌≢◌, refl, sym, ap, ◌∙◌, Option, none, some, [], ne→==, eq→==}
use tencryption.Prelude.Int.{ℤ, eqb_ℤ_ne}
use tencryption.Linker.Open.Created.{created_other, created_resolves}
use tencryption.Platform.{Bytes, FilePath}
use tencryption.Files.{Fs, opened, closed, created, rewritten, some-none}
use tencryption.Files.Same.{Same}

-- The descriptor `g` stands for the same description `d`, of the same inode, position and flags.
pub record Kept (fs fs' : Fs) (g : ℤ) (d : ℕ) : Type 0 where
  pub stands : fs'.fds g ≡ some d
  pub inode_eq : (fs'.descriptions d).inode ≡ (fs.descriptions d).inode
  pub flags_eq : (fs'.descriptions d).flags ≡ (fs.descriptions d).flags
  pub position_eq : (fs'.descriptions d).position ≡ (fs.descriptions d).position

-- All open descriptors but those in `U` are kept.
pub record Spares (U : ℤ → Type 0) (fs fs' : Fs) : Type 0 where
  pub kept : (g : ℤ) (d : ℕ) → fs.fds g ≡ some d → (U g → ⊥) → Kept fs fs' g d

pub Kept-refl : {fs : Fs} {g : ℤ} {d : ℕ} → fs.fds g ≡ some d → Kept fs fs g d
Kept-refl h = record { stands = h; inode_eq = refl; flags_eq = refl; position_eq = refl }

pub Kept-trans : {a b c : Fs} {g : ℤ} {d : ℕ} → Kept a b g d → Kept b c g d → Kept a c g d
Kept-trans k l = record {
  stands = l.stands;
  inode_eq = l.inode_eq ∙ k.inode_eq;
  flags_eq = l.flags_eq ∙ k.flags_eq;
  position_eq = l.position_eq ∙ k.position_eq;
}

pub Spares-trans : {U : ℤ → Type 0} {a b c : Fs} → Spares U a b → Spares U b c → Spares U a c
Spares-trans {a = a} {b = b} {c = c} p q = record {
  kept = λ g d h other.
      let k : Kept a b g d = p.kept g d h other in Kept-trans k (q.kept g d k.stands other);
}

pub Spares-Same : {U : ℤ → Type 0} {a b : Fs} → Same a b → Spares U a b
Spares-Same same = record {
  kept = λ g d h other. record {
    stands = same.fds_eq g ∙ h;
    inode_eq = ap (λ x. x.inode) (same.description_eq g h);
    flags_eq = ap (λ x. x.flags) (same.description_eq g h);
    position_eq = ap (λ x. x.position) (same.description_eq g h);
  };
}

pub Spares-opened :
    {U : ℤ → Type 0} (fs : Fs) (fd : ℤ) (d i flags : ℕ)
    → fs.fds fd ≡ none
    → ((g : ℤ) → fs.fds g ≢ some d)
    → Spares U fs (opened fd d i flags fs)
Spares-opened fs fd d i flags free unused = record {
  kept = λ g d' h other.
      let ne : fd ≢ g = λ e. some-none (sym h ∙ ap fs.fds (sym e) ∙ free) in
      let ne' : d ≢ d' = λ e. unused g (h ∙ ap some (sym e)) in
      record {
        stands = rw (eqb_ℤ_ne fd g ne) h;
        inode_eq = rw (ne→== d d' ne') refl;
        flags_eq = rw (ne→== d d' ne') refl;
        position_eq = rw (ne→== d d' ne') refl;
      };
}

pub Spares-closed : {U : ℤ → Type 0} (fs : Fs) (fd : ℤ) → U fd → Spares U fs (closed fd fs)
Spares-closed {U} fs fd used = record {
  kept = λ g d h other. record {
    stands = rw (eqb_ℤ_ne fd g (λ e. other (subst U e used))) h;
    inode_eq = refl;
    flags_eq = refl;
    position_eq = refl;
  };
}

pub Spares-rewritten :
    {U : ℤ → Type 0} (fs : Fs) (i : ℕ) (bytes : Bytes) → Spares U fs (rewritten i bytes fs)
Spares-rewritten fs i bytes = record {
  kept = λ g d h other. record { stands = h; inode_eq = refl; flags_eq = refl; position_eq = refl };
}

-- A new path does not concern the descriptors.
pub Spares-created :
    {U : ℤ → Type 0} (fs : Fs) (path : FilePath) (i : ℕ) → Spares U fs (created path i fs)
Spares-created fs path i = record {
  kept = λ g d h other. record { stands = h; inode_eq = refl; flags_eq = refl; position_eq = refl };
}

module _ (path npath name_path : FilePath) (old_inode name_inode : ℕ) (plain text : Bytes) where
  -- The new file.
  pub record NewAt (fs : Fs) (file : Bytes) : Type 0 where
    pub inode : ℕ
    pub found : fs.resolve npath ≡ some inode
    pub content_eq : fs.content inode ≡ file
    pub not_old : inode ≢ old_inode
    pub not_name : inode ≢ name_inode

  unfoldable pub NewFile : Fs → Option Bytes → Type 0
  NewFile fs none = fs.resolve npath ≡ none
  NewFile fs (some file) = NewAt fs file

  -- The old file, the command line of the process, and the new file.
  pub record Shelf (fs : Fs) (new : Option Bytes) : Type 0 where
    pub old_found : fs.resolve path ≡ some old_inode
    pub old_content : fs.content old_inode ≡ plain
    pub name_found : fs.resolve name_path ≡ some name_inode
    pub name_content : fs.content name_inode ≡ text
    pub new_file : NewFile fs new

  NewFile-agree :
      (new : Option Bytes) (a b : Fs)
      → b.resolve ≡ a.resolve
      → b.content ≡ a.content
      → NewFile a new
      → NewFile b new
  unfolding NewFile
  NewFile-agree none a b r c h = ap (λ f. f npath) r ∙ h
  NewFile-agree (some file) a b r c h = record {
    inode = h.inode;
    found = ap (λ f. f npath) r ∙ h.found;
    content_eq = ap (λ f. f h.inode) c ∙ h.content_eq;
    not_old = h.not_old;
    not_name = h.not_name;
  }

  pub Shelf-agree :
      {a b : Fs} {new : Option Bytes}
      → b.resolve ≡ a.resolve
      → b.content ≡ a.content
      → Shelf a new
      → Shelf b new
  Shelf-agree {a} {b} {new} r c s = record {
    old_found = ap (λ f. f path) r ∙ s.old_found;
    old_content = ap (λ f. f old_inode) c ∙ s.old_content;
    name_found = ap (λ f. f name_path) r ∙ s.name_found;
    name_content = ap (λ f. f name_inode) c ∙ s.name_content;
    new_file = NewFile-agree new a b r c s.new_file;
  }

  pub new_content :
      {fs : Fs} {file : Bytes} (k : ℕ)
      → fs.resolve npath ≡ some k
      → Shelf fs (some file)
      → fs.content k ≡ file
  unfolding NewFile
  new_content {fs} k found s =
      ap fs.content (some-injective k s.new_file.inode (sym found ∙ s.new_file.found))
      ∙ s.new_file.content_eq

  pub Shelf-rewritten :
      {fs : Fs} {file : Bytes} (k : ℕ) (file' : Bytes)
      → fs.resolve npath ≡ some k
      → Shelf fs (some file)
      → Shelf (rewritten k file' fs) (some file')
  unfolding NewFile
  Shelf-rewritten {fs} k file' found s =
      let same : k ≡ s.new_file.inode =
        some-injective k s.new_file.inode (sym found ∙ s.new_file.found) in
      let ne : k ≢ old_inode = λ e. s.new_file.not_old (sym same ∙ e) in
      let ne' : k ≢ name_inode = λ e. s.new_file.not_name (sym same ∙ e) in
      record {
        old_found = s.old_found;
        old_content = rw (ne→== k old_inode ne) s.old_content;
        name_found = s.name_found;
        name_content = rw (ne→== k name_inode ne') s.name_content;
        new_file = record {
          inode = k;
          found = found;
          content_eq = rw (eq→== k k refl) refl;
          not_old = ne;
          not_name = ne';
        };
      }

  pub Shelf-created :
      {fs : Fs} (k : ℕ)
      → ((p : FilePath) → fs.resolve p ≢ some k)
      → Shelf fs none
      → Shelf (created npath k fs) (some [])
  unfolding NewFile
  Shelf-created {fs} k unused s =
      let ne : k ≢ old_inode = λ e. unused path (s.old_found ∙ ap some (sym e)) in
      let ne' : k ≢ name_inode = λ e. unused name_path (s.name_found ∙ ap some (sym e)) in
      record {
        old_found = created_other fs npath path k s.new_file s.old_found;
        old_content = rw (ne→== k old_inode ne) s.old_content;
        name_found = created_other fs npath name_path k s.new_file s.name_found;
        name_content = rw (ne→== k name_inode ne') s.name_content;
        new_file = record {
          inode = k;
          found = created_resolves fs npath k;
          content_eq = rw (eq→== k k refl) refl;
          not_old = ne;
          not_name = ne';
        };
      }
