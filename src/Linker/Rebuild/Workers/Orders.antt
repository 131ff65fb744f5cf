-- ===== src/Linker/Rebuild/Workers/Orders.antt =====
-- `rebuild_file_struct` on a larger file: a run of its threads in any order.
use native.Mathlib.Decide.{dec_lt}
use tencryption.Prelude.{
  ℕ, ◌≤◌, ◌<◌, ◌≡◌, ◌≢◌, refl, ap, ◌∙◌, Bool, Bool-cases, true, false, none, some, inl, inr, List,
  [], ◌∷◌, arith, length, eq→==, ne→==, lt→ltb, le→ltb,
}
use tencryption.Linker.Gate.{AllLinked}
use tencryption.Linker.Rebuild.File.{threads_count}
use tencryption.Linker.Rebuild.Threads.{started}
use tencryption.Linker.Rebuild.Threads.Result.{started-Inv}
use tencryption.Linker.Rebuild.Workers.{Place, advance, Workers, spawned, work, works}
use tencryption.Linker.Rebuild.Workers.Files.{Kept-refl}
use tencryption.Linker.Rebuild.Workers.Places.{Uses, Rel, IsWaiting, left}
use tencryption.Linker.Rebuild.Workers.Moves.{Setting, Moves, Model, IsReady, Files, args, name}
use tencryption.Linker.Rebuild.Workers.Simulation.{
  advance-Moves, Sim, step_place, next-Rel, next_apart, next-Kept,
}
use tencryption.Platform.{Platform, Process}
use tencryption.Files.{Posix}

module _ (P : Platform) (px : Posix P) (S : Setting P px) where
  abbrev pub size : ℕ
  size = length S.plain

  work_run :
      (created : ℕ → Bool) (i : ℕ) (w : Workers P S.path) {p : Place} {s : Process P.World}
      → i < threads_count
      → created i ≡ true
      → advance P S.path (args P px S i) (w.place i) w.process ≡ some (p, s)
      → work P S.path created size i w
        ≡ some (record { process = s; place = step_place P px S w i p })
  unfolding work
  work_run created i w below made e = rw (lt→ltb i threads_count below, made, e) refl

  pub work_idle :
      (created : ℕ → Bool) (i : ℕ) (w : Workers P S.path)
      → created i ≡ false
      → work P S.path created size i w ≡ some w
  unfolding work
  work_idle created i w e = elim (dec_lt i threads_count) [
    | yes below ↦ rw (lt→ltb i threads_count below, e) refl
    | no above ↦ rw (le→ltb i threads_count (omega (arith, above))) refl
  ]

  pub work_above :
      (created : ℕ → Bool) (i : ℕ) (w : Workers P S.path)
      → threads_count ≤ i
      → work P S.path created size i w ≡ some w
  unfolding work
  work_above created i w above = rw (le→ltb i threads_count above) refl

  -- What a step of a thread leaves: the two sides still belong together, the thread is closer to
  -- its end if it does not wait in vain, and the other threads are where they were.
  pub record Stepped (created : ℕ → Bool) (i : ℕ) (s0 : Process P.World) (m : Model P px S)
      (w : Workers P S.path) : Type 0 where
    pub model : Model P px S
    pub workers : Workers P S.path
    pub work_eq : work P S.path created size i w ≡ some workers
    pub sim : Sim P px S s0 model workers
    pub stays : IsReady P px S m → IsReady P px S model
    pub closer :
        (IsWaiting (w.place i) → IsReady P px S m)
        → 0 < left (args P px S i) (w.place i)
        → left (args P px S i) (workers.place i) < left (args P px S i) (w.place i)
    pub others : (k : ℕ) → i ≢ k → workers.place k ≡ w.place k

  pub Sim-work :
      (created : ℕ → Bool) (i : ℕ) (s0 : Process P.World) (m : Model P px S) (w : Workers P S.path)
      → AllLinked s0
      → i < threads_count
      → created i ≡ true
      → Sim P px S s0 m w
      → Stepped created i s0 m w
  Sim-work created i s0 m w linked below made sim =
      let mv : Moves P px S i (w.place i) (record s0 { world = sim.world }) m =
        advance-Moves P px S i (w.place i) (record s0 { world = sim.world }) m below linked sim.sane
          sim.files (sim.rel i below) in
      record {
        model = mv.model;
        workers = record {
          process = record s0 { world = mv.world };
          place = step_place P px S w i mv.next;
        };
        work_eq =
            work_run created i w below made
              (ap (λ s. advance P S.path (args P px S i) (w.place i) s) sim.process_eq ∙ mv.run);
        sim = record {
          world = mv.world;
          process_eq = refl;
          sane = mv.sane;
          files = mv.files;
          rel = next-Rel P px S s0 m w sim i below mv;
          apart = next_apart P px S s0 m w sim i below mv;
          kept = next-Kept P px S s0 m w sim i below mv;
        };
        stays = mv.stays;
        closer = λ wait h. rw (eq→== i i refl) (mv.closer wait h);
        others = λ k ne. rw (ne→== i k ne) refl;
      }

  Sim-turn :
      (created : ℕ → Bool) (i : ℕ) (s0 : Process P.World) (m : Model P px S) (w : Workers P S.path)
      → AllLinked s0
      → Sim P px S s0 m w
      → (m' : Model P px S) × (w' : Workers P S.path) × (work P S.path created size i w ≡ some w')
        × Sim P px S s0 m' w'
  Sim-turn created i s0 m w linked sim = elim (dec_lt i threads_count) [
    | yes below ↦ elim (Bool-cases (created i)) [
      | inl made ↦
          let st : Stepped created i s0 m w = Sim-work created i s0 m w linked below made sim in
          (st.model, st.workers, st.work_eq, st.sim)
      | inr lost ↦ (m, w, work_idle created i w lost, sim)
    ]
    | no above ↦ (m, w, work_above created i w (omega (arith, above)), sim)
  ]

  -- The threads run in any order without a fault.
  pub Sim-works :
      (created : ℕ → Bool) (order : List ℕ) (s0 : Process P.World) (m : Model P px S)
      (w : Workers P S.path)
      → AllLinked s0
      → Sim P px S s0 m w
      → (m' : Model P px S) × (w' : Workers P S.path) × (works P S.path created size order w
          ≡ some w')
        × Sim P px S s0 m' w'
  unfolding works
  Sim-works created [] s0 m w linked sim = (m, w, refl, sim)
  Sim-works created (i ∷ order) s0 m w linked sim =
      let (m1, w1, e1, sim1) = Sim-turn created i s0 m w linked sim in
      let (m2, w2, e2, sim2) = Sim-works created order s0 m1 w1 linked sim1 in
      (m2, w2, rw (works, e1) e2, sim2)

  pub Sim-spawned :
      (s0 : Process P.World)
      → Files P px S s0.world none
      → Sim P px S s0 (started P.aes (name P px S) S.plain) (spawned P S.path s0)
  unfolding Rel Uses
  Sim-spawned s0 files = record {
    world = s0.world;
    process_eq = refl;
    sane = started-Inv P.aes S.ok (name P px S) S.short S.plain S.small S.enough;
    files = files;
    rel = λ i below. refl;
    apart = λ i k below below' ne g u v. absurd u;
    kept = λ g d h. (Kept-refl h, λ i below u. u);
  }
