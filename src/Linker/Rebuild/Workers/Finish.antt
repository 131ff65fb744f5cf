-- ===== src/Linker/Rebuild/Workers/Finish.antt =====
-- `rebuild_file_struct` on a larger file: its threads can always come to their end.
use native.Mathlib.Decide.{ℕ_discrete}
use mathlib.Core.Path.{subst}
use tencryption.Prelude.{
  ℕ, zero, suc, ◌+◌, ◌*◌, ◌^◌, ◌≤◌, ◌<◌, ◌≡◌, ◌≢◌, ◌⊎◌, refl, sym, ap, ◌∙◌, Bool, true, Option,
  none, some, inl, inr, List, [], ◌∷◌, ◌++◌, arith, length,
}
use tencryption.Linker.Gate.{AllLinked}
use tencryption.Linker.Rebuild.File.{threads_count}
use tencryption.Linker.Rebuild.Threads.{Args, Pc, spin, done, started}
use tencryption.Linker.Rebuild.Threads.Result.{creating, extending, heading, early, ready}
use tencryption.Linker.Rebuild.Workers.{
  Place, start, made, sized, waiting, ready as prepared, copying, ended, Workers, spawned, work,
  works,
}
use tencryption.Linker.Rebuild.Workers.Places.{Rel, IsWaiting, left}
use tencryption.Cipher.{IsAes}
use tencryption.Header.{header_size, name_offset}
use tencryption.Detect.Name.{HasName}
use tencryption.Linker.Rebuild.Threads.{average_of}
use tencryption.Linker.Rebuild.Workers.Given.{setting_of, setting_of-Files}
use tencryption.Prelude.Text.{codes}
use tencryption.Linker.Rebuild.Workers.Moves.{
  Setting, Model, Sane, IsReady, IsEarly, Files, args, npath, name,
}
use tencryption.Linker.Rebuild.Workers.Simulation.{Sim}
use tencryption.Linker.Rebuild.Workers.Orders.{Stepped, Sim-work, Sim-works, Sim-spawned}
use tencryption.Linker.Rebuild.Workers.Join.{AllEnded}
use tencryption.Platform.{Platform, Process, Bytes, FilePath, path_max}
use tencryption.Files.{Fs, Posix}

left-zero : (a : Args) (p : Place) → left a p ≡ 0 → (result : Option FilePath) × (p ≡ ended result)
unfolding left
left-zero a start h = absurd (omega (arith, h))
left-zero a (made fd np) h = absurd (omega (arith, h))
left-zero a (sized fd np) h = absurd (omega (arith, h))
left-zero a (waiting np) h = absurd (omega (arith, h))
left-zero a (prepared np) h = absurd (omega (arith, h))
left-zero a (copying np ofd nfd offset bsize) h = absurd (omega (arith, h))
left-zero a (ended result) h = (result, refl)

left-ended : (a : Args) (p : Place) {result : Option FilePath} → p ≡ ended result → left a p ≡ 0
unfolding left
left-ended a p e = ap (left a) e

module _ (P : Platform) (path : FilePath) (created : ℕ → Bool) (size : ℕ) where
  abbrev after : List ℕ → Option (Workers P path) → Option (Workers P path)
  after order none = none
  after order (some w) = works P path created size order w

  after_step :
      (xs ys : List ℕ) (r : Option (Workers P path))
      → ((w : Workers P path)
          → works P path created size (xs ++ ys) w ≡ after ys (works P path created size xs w))
      → after (xs ++ ys) r ≡ after ys (after xs r)
  after_step xs ys none ih = refl
  after_step xs ys (some w) ih = ih w

  works-cons :
      (i : ℕ) (order : List ℕ) (w : Workers P path)
      → works P path created size (i ∷ order) w ≡ after order (work P path created size i w)
  unfolding works
  works-cons i order w =
      elim (work P path created size i w)
        as (λ r.
          elim r [ none ↦ none | some w' ↦ works P path created size order w' ] ≡ after order r) [
            | none ↦ refl
            | some w' ↦ refl
          ]

  works-nil : (w : Workers P path) → works P path created size [] w ≡ some w
  unfolding works
  works-nil w = refl

  works-append :
      (xs ys : List ℕ) (w : Workers P path)
      → works P path created size (xs ++ ys) w ≡ after ys (works P path created size xs w)
  works-append [] ys w = sym (ap (after ys) (works-nil w))
  works-append (x ∷ xs) ys w =
      works-cons x (xs ++ ys) w
      ∙ after_step xs ys (work P path created size x w) (works-append xs ys)
      ∙ sym (ap (after ys) (works-cons x xs w))

  pub works_one :
      (i : ℕ) (order : List ℕ) (w : Workers P path) {v : Workers P path}
      → work P path created size i w ≡ some v
      → works P path created size (i ∷ order) w ≡ works P path created size order v
  works_one i order w e = works-cons i order w ∙ ap (after order) e

  works_both :
      (xs ys : List ℕ) (w : Workers P path) {v : Workers P path}
      → works P path created size xs w ≡ some v
      → works P path created size (xs ++ ys) w ≡ works P path created size ys v
  works_both xs ys w e = works-append xs ys w ∙ ap (after ys) e

four_ended :
    (P : Platform) (path : FilePath) (w : Workers P path)
    → ((r : Option FilePath) × (w.place 0 ≡ ended r))
    → ((r : Option FilePath) × (w.place 1 ≡ ended r))
    → ((r : Option FilePath) × (w.place 2 ≡ ended r))
    → ((r : Option FilePath) × (w.place 3 ≡ ended r))
    → AllEnded P path w
four_ended P path w d0 d1 d2 d3 zero below = d0
four_ended P path w d0 d1 d2 d3 (suc zero) below = d1
four_ended P path w d0 d1 d2 d3 (suc (suc zero)) below = d2
four_ended P path w d0 d1 d2 d3 (suc (suc (suc zero))) below = d3
four_ended P path w d0 d1 d2 d3 (suc (suc (suc (suc i)))) below = absurd (omega (arith, below))

module _ (P : Platform) (px : Posix P) (S : Setting P px) where
  early_ends : {new : Option Bytes} {p : Pc} → IsEarly P px S new p → (p ≢ spin) × (p ≢ done)
  early_ends creating = ((λ e. cc), λ e. cc)
  early_ends extending = ((λ e. cc), λ e. cc)
  early_ends heading = ((λ e. cc), λ e. cc)

  -- Thread 0 waits for the header, or is at its end, only when the header is there.
  spin-IsReady : (m : Model P px S) → Sane P px S m → m.pc 0 ≡ spin → IsReady P px S m
  spin-IsReady m (early new p en ep e waits) h = absurd ((early_ends e).0 (sym ep ∙ h))
  spin-IsReady m (ready r) h = r

  done-IsReady : (m : Model P px S) → Sane P px S m → m.pc 0 ≡ done → IsReady P px S m
  done-IsReady m (early new p en ep e waits) h = absurd ((early_ends e).1 (sym ep ∙ h))
  done-IsReady m (ready r) h = r

  waiting_spins :
      (fs : Fs) (a : Args) (p : Place) (pc : Pc)
      → Rel (npath P px S) S.old_inode fs a p pc
      → IsWaiting p
      → pc ≡ spin
  unfolding Rel IsWaiting
  waiting_spins fs a start pc rel h = absurd h
  waiting_spins fs a (made fd np) pc rel h = absurd h
  waiting_spins fs a (sized fd np) pc rel h = absurd h
  waiting_spins fs a (waiting np) pc rel h = rel.0
  waiting_spins fs a (prepared np) pc rel h = absurd h
  waiting_spins fs a (copying np ofd nfd offset bsize) pc rel h = absurd h
  waiting_spins fs a (ended result) pc rel h = absurd h

  pub ended_done :
      (fs : Fs) (a : Args) (p : Place) (pc : Pc) {result : Option FilePath}
      → Rel (npath P px S) S.old_inode fs a p pc
      → p ≡ ended result
      → pc ≡ done
  unfolding Rel
  ended_done fs a p pc rel e = (subst (λ q. Rel (npath P px S) S.old_inode fs a q pc) e rel).0

  module _ (created : ℕ → Bool) (all_created : (i : ℕ) → i < threads_count → created i ≡ true)
      (s0 : Process P.World) (linked : AllLinked s0) where
    -- A thread that does not wait in vain.
    abbrev Can : ℕ → Model P px S → Type 0
    Can i m = (i ≡ 0) ⊎ IsReady P px S m

    -- The steps that a thread takes alone, to its end.
    record Finishing (i : ℕ) (m : Model P px S) (w : Workers P S.path) : Type 0 where
      more : List ℕ
      model : Model P px S
      workers : Workers P S.path
      works_eq : works P S.path created (length S.plain) more w ≡ some workers
      sim : Sim P px S s0 model workers
      is_ready : IsReady P px S model
      result : Option FilePath
      ended_eq : workers.place i ≡ ended result
      kept : (k : ℕ) (r : Option FilePath) → w.place k ≡ ended r → workers.place k ≡ ended r

    at_end :
        (i : ℕ) (m : Model P px S) (w : Workers P S.path)
        → i < threads_count
        → Can i m
        → Sim P px S s0 m w
        → left (args P px S i) (w.place i) ≡ 0
        → Finishing i m w
    unfolding works
    at_end i m w below can sim h =
        let (result, e) = left-zero (args P px S i) (w.place i) h in
        let stop : m.pc i ≡ done =
          ended_done (px.view sim.world) (args P px S i) (w.place i) (m.pc i) (sim.rel i below) e in
        record {
          more = [];
          model = m;
          workers = w;
          works_eq = refl;
          sim = sim;
          is_ready = elim can [
            | inl first ↦ done-IsReady m sim.sane (ap m.pc (sym first) ∙ stop)
            | inr r ↦ r
          ];
          result = result;
          ended_eq = e;
          kept = λ k r h. h;
        }

    finish_alone :
        (n i : ℕ) (m : Model P px S) (w : Workers P S.path)
        → i < threads_count
        → Can i m
        → Sim P px S s0 m w
        → left (args P px S i) (w.place i) ≤ n
        → Finishing i m w
    finish_alone zero i m w below can sim bound = at_end i m w below can sim (omega (arith, bound))
    finish_alone (suc n) i m w below can sim bound =
        elim (ℕ_discrete (left (args P px S i) (w.place i)) 0) [
          | yes e ↦ at_end i m w below can sim e
          | no going ↦
              let st : Stepped P px S created i s0 m w =
                Sim-work P px S created i s0 m w linked below (all_created i below) sim in
              let wait : IsWaiting (w.place i) → IsReady P px S m = λ h. elim can [
                | inl first ↦ spin-IsReady m sim.sane (
                    ap m.pc (sym first)
                    ∙ waiting_spins (px.view sim.world) (args P px S i) (w.place i) (m.pc i)
                        (sim.rel i below) h)
                | inr r ↦ r
              ] in
              let can' : Can i st.model = elim can [
                | inl first ↦ inl first
                | inr r ↦ inr (st.stays r)
              ] in
              let less = st.closer wait (omega (arith, going)) in
              let rest : Finishing i st.model st.workers =
                finish_alone n i st.model st.workers below can' st.sim
                  (omega (arith, less, bound)) in
              record {
                more = i ∷ rest.more;
                model = rest.model;
                workers = rest.workers;
                works_eq =
                    works_one P S.path created (length S.plain) i rest.more w st.work_eq
                    ∙ rest.works_eq;
                sim = rest.sim;
                is_ready = rest.is_ready;
                result = rest.result;
                ended_eq = rest.ended_eq;
                kept = λ k r h. rest.kept k r (
                    st.others k
                      (λ same. going (left-ended (args P px S i) (w.place i) (ap w.place same ∙ h)))
                    ∙ h);
              }
        ]

    finish :
        (i : ℕ) (m : Model P px S) (w : Workers P S.path)
        → i < threads_count
        → Can i m
        → Sim P px S s0 m w
        → Finishing i m w
    finish i m w below can sim =
        finish_alone (left (args P px S i) (w.place i)) i m w below can sim (omega arith)

    finish_all :
        (m : Model P px S) (w : Workers P S.path)
        → Sim P px S s0 m w
        → (more : List ℕ) × (v : Workers P S.path) × (works P S.path created (length S.plain) more w
            ≡ some v)
          × AllEnded P S.path v
    finish_all m w sim =
        let f0 : Finishing 0 m w = finish 0 m w (omega arith) (inl refl) sim in
        let f1 : Finishing 1 f0.model f0.workers =
          finish 1 f0.model f0.workers (omega arith) (inr f0.is_ready) f0.sim in
        let f2 : Finishing 2 f1.model f1.workers =
          finish 2 f1.model f1.workers (omega arith) (inr f1.is_ready) f1.sim in
        let f3 : Finishing 3 f2.model f2.workers =
          finish 3 f2.model f2.workers (omega arith) (inr f2.is_ready) f2.sim in
        (
          f0.more ++ (f1.more ++ (f2.more ++ f3.more)),
          f3.workers,
          works_both P S.path created (length S.plain) f0.more (f1.more ++ (f2.more ++ f3.more)) w
                f0.works_eq
              ∙ works_both P S.path created (length S.plain) f1.more (f2.more ++ f3.more) f0.workers
                  f1.works_eq
              ∙ works_both P S.path created (length S.plain) f2.more f3.more f1.workers f2.works_eq
              ∙ f3.works_eq,
          four_ended P S.path f3.workers
              (
                f0.result,
                f3.kept 0 f0.result (f2.kept 0 f0.result (f1.kept 0 f0.result f0.ended_eq)),
              )
              (f1.result, f3.kept 1 f1.result (f2.kept 1 f1.result f1.ended_eq))
              (f2.result, f3.kept 2 f2.result f2.ended_eq) (f3.result, f3.ended_eq),
        )

    end_in :
        (order : List ℕ)
        → Files P px S s0.world none
        → (more : List ℕ) × (v : Workers P S.path) × (works P S.path created
              (length S.plain)
              (order ++ more)
              (spawned P S.path s0)
            ≡ some v)
          × AllEnded P S.path v
    end_in order files =
        let (m, w, e, sim) =
          Sim-works P px S created order s0 (started P.aes (name P px S) S.plain)
            (spawned P S.path s0) linked (Sim-spawned P px S s0 files) in
        let (more, v, e', ends) = finish_all m w sim in
        (
          more,
          v,
          works_both P S.path created (length S.plain) order more (spawned P S.path s0) e ∙ e',
          ends,
        )

module _ (P : Platform) (px : Posix P) (ok : IsAes P.aes) where
  -- The threads of `rebuild_file_struct` on a file of less than 2^31 - 4096 bytes of which the rounded
  -- shares of the first three are not more than it has, where the path fits its array, the command
  -- line of the process can be read and its name ends in its buffer and fits the header, the new file
  -- does not exist and the system creates all threads: after any order of steps there is a further
  -- order that brings all of them to their end.
  pub works_end :
      (order : List ℕ) (created : ℕ → Bool) (path : FilePath) (plain text : Bytes)
      (s : Process P.World) {i pid j : ℕ}
      → AllLinked s
      → ((k : ℕ) → k < threads_count → created k ≡ true)
      → HasName P px s.world pid j text
      → name_offset + P.process_name_max ≤ header_size
      → length path + 3 ≤ path_max
      → length plain + header_size < 2 ^ 31
      → average_of (length plain) * 3 ≤ length plain
      → (px.view s.world).resolve path ≡ some i
      → (px.view s.world).content i ≡ plain
      → (px.view s.world).resolve (path ++ codes ".s") ≡ none
      → (more : List ℕ) × (v : Workers P path) × (works P path created
            (length plain)
            (order ++ more)
            (spawned P path s)
          ≡ some v)
        × AllEnded P path v
  works_end order created path plain text s {i} linked all_made named room fits small enough found
        content absent =
      let S : Setting P px = setting_of P px ok i path plain text named room fits small enough in
      let files : Files P px S s.world none =
        setting_of-Files P px ok i path plain text named room fits small enough found content
          absent in
      end_in P px S created all_made s linked order files
