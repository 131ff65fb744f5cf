-- ===== src/Linker/Rebuild/Workers/Simulation.antt =====
-- The threads of `rebuild_file_struct` with their calls do what the threads on the contents do, in
-- every order of steps.
use native.Mathlib.Decide.{dec_le, ℕ_discrete}
use mathlib.Core.Path.{subst}
use tencryption.Prelude.{
  ℕ, zero, suc, ◌+◌, ◌<◌, ◌≡◌, ◌≢◌, refl, sym, ◌∙◌, Option, none, some, inl, inr, arith, eq→==,
  ne→==, ◌==◌, if◌then◌else◌,
}
use tencryption.Prelude.Int.{ℤ}
use tencryption.Linker.Gate.{AllLinked}
use tencryption.Linker.Rebuild.File.{threads_count}
use tencryption.Linker.Rebuild.Workers.{
  Place, start, made, sized, waiting, ready, copying, ended, advance, Workers,
}
use tencryption.Linker.Rebuild.Workers.Files.{Spares-Same, Kept, Kept-trans}
use tencryption.Linker.Rebuild.Workers.Places.{left, Uses, Rel, Rel-Frame, Uses-open}
use tencryption.Linker.Rebuild.Workers.Moves.{Setting, Moves, Model, Sane, Files, args, npath}
use tencryption.Linker.Rebuild.Workers.Making.{start_zero, start_other, extend_step, write_step}
use tencryption.Linker.Rebuild.Workers.Waiting.{absent_step, present_step, open_step}
use tencryption.Linker.Rebuild.Workers.Copying.{round_step}
use tencryption.Linker.Rebuild.Workers.Closing.{stop_step, last_step}
use tencryption.Platform.{Platform, Process, Bytes, FilePath}
use tencryption.Files.{Posix, some-none}
use tencryption.Files.Same.{Same-refl}

module _ (P : Platform) (px : Posix P) (S : Setting P px) where
  wait_step :
      (i : ℕ) (np : FilePath) (s : Process P.World) (m : Model P px S) (new : Option Bytes)
      → m.new ≡ new
      → i < threads_count
      → AllLinked s
      → Sane P px S m
      → Files P px S s.world m.new
      → Rel (npath P px S) S.old_inode (px.view s.world) (args P px S i) (waiting np) (m.pc i)
      → Moves P px S i (waiting np) s m
  wait_step i np s m none en below linked sane files rel =
      absent_step P px S i np s m en sane files rel
  wait_step i np s m (some file) en below linked sane files rel =
      present_step P px S i np s m below linked en sane files rel

  -- Every step of a thread.
  pub advance-Moves :
      (i : ℕ) (p : Place) (s : Process P.World) (m : Model P px S)
      → i < threads_count
      → AllLinked s
      → Sane P px S m
      → Files P px S s.world m.new
      → Rel (npath P px S) S.old_inode (px.view s.world) (args P px S i) p (m.pc i)
      → Moves P px S i p s m
  unfolding Rel Uses advance left
  advance-Moves zero start s m below linked sane files rel =
      start_zero P px S s m linked sane files rel
  advance-Moves (suc i) start s m below linked sane files rel =
      start_other P px S (suc i) s m (omega arith) sane files
        (rel ∙ rw (ne→== (suc i) 0 (omega arith)) refl)
  advance-Moves i (made fd np) s m below linked sane files rel =
      extend_step P px S i fd np s m below sane files rel
  advance-Moves i (sized fd np) s m below linked sane files rel =
      write_step P px S i fd np s m below linked sane files rel
  advance-Moves i (waiting np) s m below linked sane files rel =
      wait_step i np s m m.new refl below linked sane files rel
  advance-Moves i (ready np) s m below linked sane files rel =
      open_step P px S i np s m linked sane files rel
  advance-Moves i (copying np ofd nfd offset bsize) s m below linked sane files rel =
      elim (dec_le 4096 bsize) [
        | yes room ↦
            round_step P px S i np ofd nfd offset bsize s m below linked room sane files rel
        | no short ↦ elim (ℕ_discrete (i + 1) threads_count) [
          | yes e ↦
              last_step P px S i np ofd nfd offset bsize s m below linked (omega (arith, short)) e
                sane files rel
          | no ne ↦
              stop_step P px S i np ofd nfd offset bsize s m below linked (omega (arith, short)) ne
                sane files rel
        ]
      ]
  advance-Moves i (ended result) s m below linked sane files rel = record {
    next = ended result;
    world = s.world;
    run = refl;
    model = m;
    sane = sane;
    others = λ k ne. refl;
    files = files;
    rel = rel;
    frame = record { spares = Spares-Same (Same-refl refl); found = λ k h. h };
    fresh = λ g u. absurd u;
    stays = λ r. r;
    closer = λ wait h. h;
  }

  -- The process `s0` with its threads, beside the threads on the contents.
  pub record Sim (s0 : Process P.World) (m : Model P px S) (w : Workers P S.path) : Type 0 where
    pub world : P.World
    pub process_eq : w.process ≡ record s0 { world = world }
    pub sane : Sane P px S m
    pub files : Files P px S world m.new
    pub rel :
        (i : ℕ)
        → i < threads_count
        → Rel (npath P px S) S.old_inode (px.view world) (args P px S i) (w.place i) (m.pc i)
    pub apart :
        (i k : ℕ)
        → i < threads_count
        → k < threads_count
        → i ≢ k
        → (g : ℤ) → Uses (w.place i) g
        → Uses (w.place k) g
        → ⊥
    pub kept :
        (g : ℤ) (d : ℕ)
        → (px.view s0.world).fds g ≡ some d
        → Kept (px.view s0.world) (px.view world) g d
          × ((i : ℕ) → i < threads_count → Uses (w.place i) g → ⊥)

  abbrev pub step_place : Workers P S.path → ℕ → Place → ℕ → Place
  step_place w i p j = if i == j then p else w.place j

  module _ (s0 : Process P.World) (m : Model P px S) (w : Workers P S.path) (sim : Sim s0 m w)
      (i : ℕ) (below : i < threads_count)
      (mv : Moves P px S i (w.place i) (record s0 { world = sim.world }) m) where
    self : (j : ℕ) → i ≡ j → step_place w i mv.next j ≡ mv.next
    self j e = rw (eq→== i j e) refl

    other : (j : ℕ) → i ≢ j → step_place w i mv.next j ≡ w.place j
    other j ne = rw (ne→== i j ne) refl

    pub next-Rel :
        (j : ℕ)
        → j < threads_count
        → Rel
            (npath P px S)
            S.old_inode
            (px.view mv.world)
            (args P px S j)
            (step_place w i mv.next j)
            (mv.model.pc j)
    next-Rel j inside = elim (ℕ_discrete i j) [
      | yes same ↦
          subst
            (λ l.
              Rel (npath P px S) S.old_inode (px.view mv.world) (args P px S l)
                (step_place w i mv.next l) (mv.model.pc l))
            same (rw (eq→== i i refl) mv.rel)
      | no differ ↦
          rw (ne→== i j differ, mv.others j differ)
            (Rel-Frame (npath P px S) S.old_inode (args P px S j) (w.place j) (m.pc j) mv.frame
              (λ g u v. sim.apart j i inside below (λ e. differ (sym e)) g u v) (sim.rel j inside))
    ]

    -- A descriptor of the step, and one of another thread.
    new_apart :
        (j : ℕ) → j < threads_count → i ≢ j → (g : ℤ) → Uses mv.next g → Uses (w.place j) g → ⊥
    new_apart j inside differ g u v = elim (mv.fresh g u) [
      | inl old ↦ sim.apart i j below inside differ g old v
      | inr free ↦ some-none (
          sym
            (Uses-open (npath P px S) S.old_inode (px.view sim.world) (args P px S j) (w.place j)
              (m.pc j) g (sim.rel j inside) v).1
          ∙ free)
    ]

    pub next_apart :
        (j k : ℕ)
        → j < threads_count
        → k < threads_count
        → j ≢ k
        → (g : ℤ) → Uses (step_place w i mv.next j) g
        → Uses (step_place w i mv.next k) g
        → ⊥
    next_apart j k inside inside' differ g u v = elim (ℕ_discrete i j) [
      | yes ij ↦
          new_apart k inside' (λ e. differ (sym ij ∙ e)) g (subst (λ p. Uses p g) (self j ij) u)
            (subst (λ p. Uses p g) (other k (λ e. differ (sym ij ∙ e))) v)
      | no ij ↦ elim (ℕ_discrete i k) [
        | yes ik ↦
            new_apart j inside ij g (subst (λ p. Uses p g) (self k ik) v)
              (subst (λ p. Uses p g) (other j ij) u)
        | no ik ↦
            sim.apart j k inside inside' differ g (subst (λ p. Uses p g) (other j ij) u)
              (subst (λ p. Uses p g) (other k ik) v)
      ]
    ]

    pub next-Kept :
        (g : ℤ) (d : ℕ)
        → (px.view s0.world).fds g ≡ some d
        → Kept (px.view s0.world) (px.view mv.world) g d
          × ((j : ℕ) → j < threads_count → Uses (step_place w i mv.next j) g → ⊥)
    next-Kept g d h =
        let (old, unused) = sim.kept g d h in
        (
          Kept-trans old (mv.frame.spares.kept g d old.stands (unused i below)),
          λ j inside u. elim (ℕ_discrete i j) [
            | yes ij ↦ elim (mv.fresh g (subst (λ p. Uses p g) (self j ij) u)) [
              | inl mine ↦ unused i below mine
              | inr free ↦ some-none (sym old.stands ∙ free)
            ]
            | no ij ↦ unused j inside (subst (λ p. Uses p g) (other j ij) u)
          ],
        )
