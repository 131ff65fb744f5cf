-- ===== src/Files/Same.antt =====
-- States of the files that agree on everything that a descriptor or a path leads to: the positions
-- of descriptions that no descriptor stands for are left out.
use tencryption.Prelude.{
  ℕ, ◌≡◌, ◌≢◌, refl, sym, ap, ◌∙◌, Option, none, some, arith, if◌then◌else◌, ne→==, Bool-cases, inl,
  inr,
}
use tencryption.Prelude.Int.{ℤ, eqb_ℤ, eqb_ℤ_sound}
use tencryption.Platform.{Bytes}
use tencryption.Files.{
  Fs, At, WritesInPlace, opened, closed, moved, update, set_fd, some-none, rewritten,
}

pub record Same (fs fs' : Fs) : Type 0 where
  pub fds_eq : (g : ℤ) → fs'.fds g ≡ fs.fds g
  pub description_eq : (g : ℤ) {d : ℕ} → fs.fds g ≡ some d → fs'.descriptions d ≡ fs.descriptions d
  pub content_eq : fs'.content ≡ fs.content
  pub resolve_eq : fs'.resolve ≡ fs.resolve

pub Same-refl : {fs fs' : Fs} → fs' ≡ fs → Same fs fs'
Same-refl e = record {
  fds_eq = λ g. ap (λ f. f.fds g) e;
  description_eq = λ g {d} h. ap (λ f. f.descriptions d) e;
  content_eq = ap (λ f. f.content) e;
  resolve_eq = ap (λ f. f.resolve) e;
}

pub Same-trans : {a b c : Fs} → Same a b → Same b c → Same a c
Same-trans p q = record {
  fds_eq = λ g. q.fds_eq g ∙ p.fds_eq g;
  description_eq = λ g h. q.description_eq g (p.fds_eq g ∙ h) ∙ p.description_eq g h;
  content_eq = q.content_eq ∙ p.content_eq;
  resolve_eq = q.resolve_eq ∙ p.resolve_eq;
}

pub At-Same :
    {fs fs' : Fs} {fd : ℤ} {d i o : ℕ} {file : Bytes}
    → Same fs fs'
    → At fs fd d i o file
    → At fs' fd d i o file
At-Same {fs} {fs'} {fd} {d} {i} same at =
    let e : fs'.descriptions d ≡ fs.descriptions d = same.description_eq fd at.stands in
    record {
      stands = same.fds_eq fd ∙ at.stands;
      readable_eq = rw e at.readable_eq;
      inode_eq = rw e at.inode_eq;
      position_eq = rw e at.position_eq;
      content_eq = ap (λ f. f i) same.content_eq ∙ at.content_eq;
    }

pub WritesInPlace-Same :
    {fs fs' : Fs} (fd : ℤ) {d : ℕ}
    → Same fs fs'
    → fs.fds fd ≡ some d
    → WritesInPlace fs d
    → WritesInPlace fs' d
WritesInPlace-Same fd same stands h = rw (same.description_eq fd stands) h

-- A file that is opened, perhaps read, and closed again.
pub Same-probe :
    (fs : Fs) (rfd : ℤ) (d i n flags : ℕ)
    → fs.fds rfd ≡ none
    → ((g : ℤ) → fs.fds g ≢ some d)
    → Same fs (closed rfd (moved d n (opened rfd d i flags fs)))
Same-probe fs rfd d i n flags free unused = record {
  fds_eq = λ g. ground (arith, free, eqb_ℤ_sound rfd g);
  description_eq = λ g {d = d'} h.
      let ne : d ≢ d' = λ e. unused g (h ∙ ap some (sym e)) in rw (ne→== d d' ne) refl;
  content_eq = refl;
  resolve_eq = refl;
}

set_fd_closed : (f : ℤ → Option ℕ) (fd g : ℤ) {d : ℕ} → set_fd f fd none g ≡ some d → f g ≡ some d
set_fd_closed f fd g h = elim (Bool-cases (eqb_ℤ fd g)) [
  | inl e ↦ absurd (some-none (sym h ∙ ap (λ b. if b then none else f g) e))
  | inr e ↦ sym (ap (λ b. if b then none else f g) e) ∙ h
]

pub Same-opened-closed :
    (fs : Fs) (rfd : ℤ) (d i flags : ℕ)
    → fs.fds rfd ≡ none
    → ((g : ℤ) → fs.fds g ≢ some d)
    → Same fs (closed rfd (opened rfd d i flags fs))
Same-opened-closed fs rfd d i flags free unused = record {
  fds_eq = λ g. ground (arith, free, eqb_ℤ_sound rfd g);
  description_eq = λ g {d = d'} h.
      let ne : d ≢ d' = λ e. unused g (h ∙ ap some (sym e)) in rw (ne→== d d' ne) refl;
  content_eq = refl;
  resolve_eq = refl;
}

pub Same-rewritten :
    {a b : Fs} (i : ℕ) (bytes : Bytes) → Same a b → Same (rewritten i bytes a) (rewritten i bytes b)
Same-rewritten i bytes same = record {
  fds_eq = same.fds_eq;
  description_eq = same.description_eq;
  content_eq = ap (λ f. update f i bytes) same.content_eq;
  resolve_eq = same.resolve_eq;
}

pub Same-closed : {a b : Fs} (fd : ℤ) → Same a b → Same (closed fd a) (closed fd b)
Same-closed {a} fd same = record {
  fds_eq = λ g. ap (λ x. if eqb_ℤ fd g then none else x) (same.fds_eq g);
  description_eq = λ g {d} h. same.description_eq g (set_fd_closed a.fds fd g h);
  content_eq = same.content_eq;
  resolve_eq = same.resolve_eq;
}

-- The descriptors stand for what they stood for, and the paths for what they did.
pub record Keeps (fs fs' : Fs) : Type 0 where
  pub fds_eq : (g : ℤ) → fs'.fds g ≡ fs.fds g
  pub resolve_eq : fs'.resolve ≡ fs.resolve
