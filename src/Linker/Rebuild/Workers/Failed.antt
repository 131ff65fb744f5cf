-- ===== src/Linker/Rebuild/Workers/Failed.antt =====
-- `rebuild_file_struct` on a larger file, when its first thread cannot be created: the failure is
-- only logged.
use native.Mathlib.Decide.{dec_lt, ℕ_discrete}
use mathlib.Core.Path.{subst}
use tencryption.Prelude.{
  ℕ, zero, suc, true, ◌+◌, ◌*◌, ◌^◌, ◌≤◌, ◌++◌, ◌<◌, ◌≡◌, ◌≢◌, refl, sym, ap, ◌∙◌, Bool, Bool-cases,
  false, Option, none, some, inl, inr, List, [], ◌∷◌, arith, length, true-false,
}
use tencryption.Linker.Gate.{AllLinked}
use tencryption.Linker.Rebuild.File.{threads_count}
use tencryption.Linker.Rebuild.Threads.{Pc, create, spin, done, started}
use tencryption.Linker.Rebuild.Threads.Result.{early, ready}
use tencryption.Linker.Rebuild.Threads.Sound.{Sound}
use tencryption.Linker.Rebuild.Workers.{
  Place, start, made, sized, waiting, ready as prepared, copying, ended, Workers, spawned, works,
  join_one, join, join_and_rename, rebuild_large,
}
use tencryption.Linker.Rebuild.Workers.Join.{large_run}
use tencryption.Prelude.Exec.{◌>>=◌}
use tencryption.Linker.Rebuild.Workers.Places.{Rel}
use tencryption.Cipher.{IsAes}
use tencryption.Header.{header_size, name_offset}
use tencryption.Detect.Name.{HasName}
use tencryption.Linker.Rebuild.Threads.{average_of}
use tencryption.Linker.Rebuild.Workers.Given.{setting_of, setting_of-Files}
use tencryption.Prelude.Text.{codes}
use tencryption.Linker.Rebuild.Workers.Moves.{Setting, Model, Sane, Files, args, npath, name}
use tencryption.Linker.Rebuild.Workers.Simulation.{Sim}
use tencryption.Linker.Rebuild.Workers.Orders.{
  Stepped, Sim-work, work_idle, work_above, Sim-spawned,
}
use tencryption.Linker.Rebuild.Workers.Finish.{ended_done, works_one}
use tencryption.Platform.{Platform, Process, Bytes, FilePath, path_max}
use tencryption.Files.{Fs, Posix}

spin-done : spin ≢ done
spin-done h = cc

create-done : create ≢ done
create-done h = cc

-- A place that is not the end.
abbrev Running : Place → Type 0
Running p = (result : Option FilePath) → p ≢ ended result

module _ (created : ℕ → Bool) (place : ℕ → Place) where
  join_one-none : (p : Place) (b : Option FilePath) → Running p → join_one p b ≡ none
  unfolding join_one
  join_one-none start b h = refl
  join_one-none (made fd np) b h = refl
  join_one-none (sized fd np) b h = refl
  join_one-none (waiting np) b h = refl
  join_one-none (prepared np) b h = refl
  join_one-none (copying np ofd nfd offset bsize) b h = refl
  join_one-none (ended result) b h = absurd (h result refl)

  -- The join of a thread that was created and has not ended waits.
  join_here :
      (i : ℕ) (l : List ℕ) (b : Option FilePath)
      → created i ≡ true
      → Running (place i)
      → join created place (i ∷ l) b ≡ none
  unfolding join
  join_here i l b is_made h = rw (join, is_made, join_one-none (place i) b h) refl

  join_later :
      (i : ℕ) (l : List ℕ) (b : Option FilePath)
      → Running (place i)
      → join created place l b ≡ none
      → join created place (i ∷ l) b ≡ none
  unfolding join
  join_later i l b h later = elim (Bool-cases (created i)) [
    | inl yes_made ↦ join_here i l b yes_made h
    | inr lost ↦ rw (join, lost) later
  ]

  join_four_waits :
      (j : ℕ) (b : Option FilePath)
      → ((i : ℕ) → i < threads_count → Running (place i))
      → j < threads_count
      → created j ≡ true
      → join created place (0 ∷ 1 ∷ 2 ∷ 3 ∷ []) b ≡ none
  join_four_waits zero b h below is_made = join_here 0 (1 ∷ 2 ∷ 3 ∷ []) b is_made (h 0 below)
  join_four_waits (suc zero) b h below is_made =
      join_later 0 (1 ∷ 2 ∷ 3 ∷ []) b (h 0 (omega arith))
        (join_here 1 (2 ∷ 3 ∷ []) b is_made (h 1 below))
  join_four_waits (suc (suc zero)) b h below is_made =
      join_later 0 (1 ∷ 2 ∷ 3 ∷ []) b (h 0 (omega arith)) (
        join_later 1 (2 ∷ 3 ∷ []) b (h 1 (omega arith))
          (join_here 2 (3 ∷ []) b is_made (h 2 below)))
  join_four_waits (suc (suc (suc zero))) b h below is_made =
      join_later 0 (1 ∷ 2 ∷ 3 ∷ []) b (h 0 (omega arith)) (
        join_later 1 (2 ∷ 3 ∷ []) b (h 1 (omega arith))
          (join_later 2 (3 ∷ []) b (h 2 (omega arith)) (join_here 3 [] b is_made (h 3 below))))
  join_four_waits (suc (suc (suc (suc j)))) b h below is_made = absurd (omega (arith, below))

module _ (P : Platform) (path : FilePath) where
  join_waits :
      (created : ℕ → Bool) (place : ℕ → Place) (s : Process P.World)
      → ((b : Option FilePath) → join created place (0 ∷ 1 ∷ 2 ∷ 3 ∷ []) b ≡ none)
      → join_and_rename P path created place s ≡ none
  unfolding join_and_rename
  join_waits created place s h = rw (◌>>=◌, h) refl

module _ (P : Platform) (px : Posix P) (S : Setting P px) where
  start_creates :
      (fs : Fs) (p : Place) (pc : Pc)
      → Rel (npath P px S) S.old_inode fs (args P px S 0) p pc
      → p ≡ start
      → pc ≡ create
  unfolding Rel
  start_creates fs p pc rel e =
      subst (λ q. Rel (npath P px S) S.old_inode fs (args P px S 0) q pc) e rel

  -- While thread 0 has not begun, the others wait.
  none_done : (m : Model P px S) → Sane P px S m → m.pc 0 ≡ create → (i : ℕ) → m.pc i ≢ done
  unfolding Sound
  none_done m (early new p en ep e waits) h i d = elim (ℕ_discrete i 0) [
    | yes first ↦ create-done (sym h ∙ ap m.pc (sym first) ∙ d)
    | no ne ↦ spin-done (sym (waits i ne) ∙ d)
  ]
  none_done m (ready r) h i d =
      subst (λ q. Sound P.aes S.ok (name P px S) S.short S.plain r.file 0 q) h
        (r.sound 0 (omega arith))

  module _ (created : ℕ → Bool) (failed : created 0 ≡ false) (s0 : Process P.World)
      (linked : AllLinked s0) where
    -- A state in which thread 0 has not begun, and an order of steps from it.
    Stuck : List ℕ → Workers P S.path → Type 0
    Stuck order w =
        (v : Workers P S.path) × (works P S.path created (length S.plain) order w ≡ some v)
        × ((i : ℕ) → i < threads_count → (result : Option FilePath) → v.place i ≢ ended result)

    stuck :
        (order : List ℕ) (m : Model P px S) (w : Workers P S.path)
        → Sim P px S s0 m w
        → w.place 0 ≡ start
        → Stuck order w
    unfolding works Stuck
    stuck [] m w sim e = (
      w,
      refl,
      λ i below result h.
          none_done m sim.sane
            (start_creates (px.view sim.world) (w.place 0) (m.pc 0) (sim.rel 0 (omega arith)) e) i
            (ended_done P px S (px.view sim.world) (args P px S i) (w.place i) (m.pc i)
              (sim.rel i below) h),
    )
    stuck (i ∷ order) m w sim e = elim (dec_lt i threads_count) [
      | yes below ↦ elim (Bool-cases (created i)) [
        | inl made_it ↦
            let st : Stepped P px S created i s0 m w =
              Sim-work P px S created i s0 m w linked below made_it sim in
            let other : i ≢ 0 = λ same. true-false (sym made_it ∙ ap created same ∙ failed) in
            let (v, e', h) = stuck order st.model st.workers st.sim (st.others 0 other ∙ e) in
            (v, works_one P S.path created (length S.plain) i order w st.work_eq ∙ e', h)
        | inr lost ↦
            let (v, e', h) = stuck order m w sim e in
            (
              v,
              works_one P S.path created (length S.plain) i order w
                    (work_idle P px S created i w lost)
                  ∙ e',
              h,
            )
      ]
      | no above ↦
          let (v, e', h) = stuck order m w sim e in
          (
            v,
            works_one P S.path created (length S.plain) i order w
                  (work_above P px S created i w (omega (arith, above)))
                ∙ e',
            h,
          )
    ]

    stuck_in :
        (order : List ℕ) (j : ℕ)
        → j < threads_count
        → created j ≡ true
        → Files P px S s0.world none
        → (v : Workers P S.path) × (works P S.path created
              (length S.plain)
              order
              (spawned P S.path s0)
            ≡ some v)
          × ((i : ℕ) → i < threads_count → (result : Option FilePath) → v.place i ≢ ended result)
          × (rebuild_large P
                (record { attributes = true; created = created; order = order })
                S.path
                (length S.plain)
                s0
              ≡ none)
    unfolding Stuck
    stuck_in order j below is_made files =
        let (v, e, waits) =
          stuck order (started P.aes (name P px S) S.plain) (spawned P S.path s0)
            (Sim-spawned P px S s0 files) refl in
        (
          v,
          e,
          waits,
          large_run P (record { attributes = true; created = created; order = order }) S.path
                (length S.plain) s0 v refl e
              ∙ join_waits P S.path created v.place v.process
                  (λ b. join_four_waits created v.place j b waits below is_made),
        )

module _ (P : Platform) (px : Posix P) (ok : IsAes P.aes) where
  -- `rebuild_file_struct` on a file of less than 2^31 - 4096 bytes of which the rounded shares of the
  -- first three threads are not more than it has, where the path fits its array, the command line of
  -- the process can be read and its name ends in its buffer and fits the header, and the new file
  -- does not exist. If thread 0 is not created and another one is, then in any order of steps the
  -- threads created run without a fault, no thread comes to its end, and the call has no result: the
  -- join of the first thread created waits.
  pub stuck_without_first :
      (order : List ℕ) (created : ℕ → Bool) (k : ℕ) (path : FilePath) (plain text : Bytes)
      (s : Process P.World) {i pid j : ℕ}
      → AllLinked s
      → created 0 ≡ false
      → k < threads_count
      → created k ≡ true
      → HasName P px s.world pid j text
      → name_offset + P.process_name_max ≤ header_size
      → length path + 3 ≤ path_max
      → length plain + header_size < 2 ^ 31
      → average_of (length plain) * 3 ≤ length plain
      → (px.view s.world).resolve path ≡ some i
      → (px.view s.world).content i ≡ plain
      → (px.view s.world).resolve (path ++ codes ".s") ≡ none
      → (v : Workers P path) × (works P path created (length plain) order (spawned P path s)
          ≡ some v)
        × ((n : ℕ) → n < threads_count → (result : Option FilePath) → v.place n ≢ ended result)
        × (rebuild_large P
              (record { attributes = true; created = created; order = order })
              path
              (length plain)
              s
            ≡ none)
  stuck_without_first order created k path plain text s {i} linked failed below is_made named room
        fits small enough found content absent =
      let S : Setting P px = setting_of P px ok i path plain text named room fits small enough in
      let files : Files P px S s.world none =
        setting_of-Files P px ok i path plain text named room fits small enough found content
          absent in
      stuck_in P px S created failed s linked order k below is_made files
