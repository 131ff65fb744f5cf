-- ===== src/Linker/Rebuild/Workers/Join.antt =====
-- `rebuild_file_struct` on a larger file: what it returns, and what it leaves, when its threads have
-- ended.
use mathlib.Core.Path.{subst}
use tencryption.Prelude.{
  ℕ, ◌+◌, ◌*◌, ◌^◌, ◌≤◌, ◌<◌, ◌≡◌, ◌≢◌, refl, sym, ap, ◌∙◌, Bool, true, Option, none, some, inl,
  inr, List, [], ◌∷◌, ◌++◌, append-nil, arith, length, drop, length-append, Bool-cases,
}
use tencryption.Prelude.Int.{ℤ}
use tencryption.Prelude.Text.{codes}
use tencryption.Prelude.Exec.{◌>>=◌, ◌>>◌}
use tencryption.Prelude.Slices.{drop-all}
use tencryption.Header.Equality.{bytes_eq, bytes_eq_refl, bytes_eq_sound}
use tencryption.Linker.Gate.{AllLinked}
use tencryption.Linker.Rebuild.{new_header}
use tencryption.Linker.Rebuild.File.{threads_count}
use tencryption.Linker.Rebuild.Threads.{Pc, done, started}
use tencryption.Linker.Rebuild.Threads.Result.{finished}
use tencryption.Linker.Rebuild.Workers.{
  Place, ended, Schedule, Workers, spawned, works, join, rename_new, join_and_rename, rebuild_large,
}
use tencryption.Linker.Rebuild.Workers.Files.{NewFile, Kept}
use tencryption.Linker.Rebuild.Workers.Places.{Rel, result_of}
use tencryption.Cipher.{IsAes}
use tencryption.Header.{header_size, name_offset}
use tencryption.Detect.Name.{HasName, name_of}
use tencryption.Linker.Rebuild.Threads.{average_of}
use tencryption.Linker.Rebuild.Workers.Given.{setting_of, setting_of-Files}
use tencryption.Linker.Rebuild.Workers.Moves.{Setting, Model, Files, args, npath, name}
use tencryption.Linker.Rebuild.Workers.Simulation.{Sim}
use tencryption.Linker.Rebuild.Workers.Orders.{size, Sim-works, Sim-spawned}
use tencryption.Linker.Transfer.Stored.{stored}
use tencryption.Platform.{Platform, Process, Bytes, FilePath, path_max}
use tencryption.Files.{Fs, Posix, renamed}

-- All threads have come to their end.
abbrev pub AllEnded : (P : Platform) (path : FilePath) → Workers P path → Type 0
AllEnded P path w =
    (i : ℕ) → i < threads_count → (result : Option FilePath) × (w.place i ≡ ended result)

join_null :
    (created : ℕ → Bool) (place : ℕ → Place) (i : ℕ) (l : List ℕ) (b : Option FilePath)
    → created i ≡ true
    → place i ≡ ended none
    → join created place (i ∷ l) b ≡ join created place l b
unfolding join
join_null created place i l b made e = rw (join, made, e) refl

join_path :
    (created : ℕ → Bool) (place : ℕ → Place) (i : ℕ) (l : List ℕ) (np b : FilePath)
    → created i ≡ true
    → place i ≡ ended (some np)
    → join created place (i ∷ l) (some b) ≡ join created place l (some (np ++ drop (length np) b))
unfolding join
join_path created place i l np b made e = rw (join, made, e) refl

join_nil :
    (created : ℕ → Bool) (place : ℕ → Place) (b : Option FilePath)
    → join created place [] b ≡ some b
unfolding join
join_nil created place b = refl

-- The four threads join, the last of them with the path.
join_four :
    (np : FilePath) (created : ℕ → Bool) (place : ℕ → Place)
    → ((i : ℕ) → i < threads_count → created i ≡ true)
    → ((i : ℕ) → i < threads_count → place i ≡ ended (result_of np i))
    → join created place (0 ∷ 1 ∷ 2 ∷ 3 ∷ []) (some []) ≡ some (some np)
join_four np created place made ends =
    join_null created place 0 (1 ∷ 2 ∷ 3 ∷ []) (some []) (made 0 (omega arith))
      (ends 0 (omega arith))
    ∙ join_null created place 1 (2 ∷ 3 ∷ []) (some []) (made 1 (omega arith)) (ends 1 (omega arith))
    ∙ join_null created place 2 (3 ∷ []) (some []) (made 2 (omega arith)) (ends 2 (omega arith))
    ∙ join_path created place 3 [] np [] (made 3 (omega arith)) (ends 3 (omega arith))
    ∙ join_nil created place (some (np ++ drop (length np) []))
    ∙ ap (λ l. some (some (np ++ l))) (drop-all (length np) [] (omega arith))
    ∙ ap (λ l. some (some l)) (append-nil np)

module _ (P : Platform) where
  rename_run :
      (path np : FilePath) (s : Process P.World) {rc : ℤ} {w : P.World}
      → np ≢ []
      → P.sys_rename np path s.world ≡ (rc, w)
      → rename_new P path (some np) s ≡ some (1, record s { world = w })
  unfolding rename_new
  rename_run path [] s ne e = absurd (ne refl)
  rename_run path (c ∷ np) s ne e = rw (◌>>◌, ◌>>=◌, e) refl

  join_run :
      (path np : FilePath) (created : ℕ → Bool) (place : ℕ → Place) (s : Process P.World) {rc : ℤ}
      {w1 w2 : P.World}
      → np ≢ []
      → P.calloc 4096 s.world ≡ (true, w1)
      → join created place (0 ∷ 1 ∷ 2 ∷ 3 ∷ []) (some []) ≡ some (some np)
      → P.sys_rename np path w1 ≡ (rc, w2)
      → join_and_rename P path created place s ≡ some (1, record s { world = w2 })
  unfolding join_and_rename
  join_run path np created place s {w1 = w1} ne e1 e2 e3 =
      rw (◌>>=◌, e1, ◌>>=◌, e2, e1) (rename_run path np (record s { world = w1 }) ne e3)

  pub large_run :
      (schedule : Schedule) (path : FilePath) (size : ℕ) (s : Process P.World) (w : Workers P path)
      → schedule.attributes ≡ true
      → works P path schedule.created size schedule.order (spawned P path s) ≡ some w
      → rebuild_large P schedule path size s
        ≡ join_and_rename P path schedule.created w.place w.process
  unfolding rebuild_large
  large_run schedule path size s w e1 e2 = rw (e1, e2) refl

-- What a rebuilt file leaves: under its path the stored form of its content behind the header, no
-- file under the new path, and all descriptors that were open, as they stood.
pub record IsRebuilt (P : Platform) (ok : IsAes P.aes) (path : FilePath) (header plain : Bytes)
    (fs fs' : Fs) : Type 0 where
  pub inode : ℕ
  pub found : fs'.resolve path ≡ some inode
  pub content_eq : fs'.content inode ≡ stored P.aes ok header plain
  pub gone : fs'.resolve (path ++ codes ".s") ≡ none
  pub kept : (g : ℤ) (d : ℕ) → fs.fds g ≡ some d → Kept fs fs' g d

module _ (P : Platform) (px : Posix P) (S : Setting P px) where
  npath-ne_nil : npath P px S ≢ []
  npath-ne_nil h =
      let e : length S.path + 2 ≡ 0 = sym (length-append S.path (codes ".s")) ∙ ap length h in
      absurd (omega (arith, e))

  npath-ne : npath P px S ≢ S.path
  npath-ne h =
      let e : length S.path + 2 ≡ length S.path =
        sym (length-append S.path (codes ".s")) ∙ ap length h in
      absurd (omega (arith, e))

  ended_as :
      (fs : Fs) (i : ℕ) (p : Place) {pc : Pc} {result : Option FilePath}
      → Rel (npath P px S) S.old_inode fs (args P px S i) p pc
      → p ≡ ended result
      → (p ≡ ended (result_of (npath P px S) i)) × (pc ≡ done)
  unfolding Rel
  ended_as fs i p {pc} {result} rel e =
      let (finish, same) =
        subst (λ q. Rel (npath P px S) S.old_inode fs (args P px S i) q pc) e rel in
      (e ∙ ap ended same, finish)

  joined :
      (created : ℕ → Bool) (s0 : Process P.World) (m : Model P px S) (w : Workers P S.path)
      → ((i : ℕ) → i < threads_count → created i ≡ true)
      → Sim P px S s0 m w
      → AllEnded P S.path w
      → (u : P.World) × (join_and_rename P S.path created w.place w.process
          ≡ some (1, record s0 { world = u }))
        × IsRebuilt P S.ok S.path (new_header (name P px S)) S.plain (px.view s0.world) (px.view u)
  unfolding NewFile
  joined created s0 m w made sim ends =
      let np : FilePath = npath P px S in
      let all_done : (i : ℕ) → i < threads_count → m.pc i ≡ done = λ i below.
        (ended_as (px.view sim.world) i (w.place i) (sim.rel i below) (ends i below).1).1 in
      let places : (i : ℕ) → i < threads_count → w.place i ≡ ended (result_of np i) = λ i below.
        (ended_as (px.view sim.world) i (w.place i) (sim.rel i below) (ends i below).1).0 in
      let en =
        finished P.aes S.ok (name P px S) S.short S.plain S.small S.enough m sim.sane all_done in
      let shelf : Files P px S sim.world
          (some (stored P.aes S.ok (new_header (name P px S)) S.plain)) =
        subst (λ x. Files P px S sim.world x) en sim.files in
      let k : ℕ = shelf.new_file.inode in
      let (w1, e1, v1) = px.calloc_lem 4096 sim.world in
      let found1 : (px.view w1).resolve np ≡ some k = rw v1 shelf.new_file.found in
      let (w2, e2, v2) = px.rename_lem np S.path w1 found1 npath-ne in
      let view2 : px.view w2 ≡ renamed np S.path k (px.view sim.world) =
        v2 ∙ ap (renamed np S.path k) v1 in
      (
        w2,
        ap (join_and_rename P S.path created w.place) sim.process_eq
            ∙ join_run P S.path np created w.place (record s0 { world = sim.world }) npath-ne_nil e1
                (join_four np created w.place made places) e2,
        record {
          inode = k;
          found = rw (view2, bytes_eq_refl S.path) refl;
          content_eq = rw view2 shelf.new_file.content_eq;
          gone = rw view2 (elim (Bool-cases (bytes_eq np S.path)) [
            | inl e ↦ absurd (npath-ne (bytes_eq_sound np S.path e))
            | inr e ↦ rw (e, bytes_eq_refl np) refl
          ]);
          kept = λ g d h.
              let k : Kept (px.view s0.world) (px.view sim.world) g d = (sim.kept g d h).0 in
              record {
                stands = rw view2 k.stands;
                inode_eq = rw view2 k.inode_eq;
                flags_eq = rw view2 k.flags_eq;
                position_eq = rw view2 k.position_eq;
              };
        },
      )

  large_in :
      (schedule : Schedule) (s : Process P.World)
      → AllLinked s
      → schedule.attributes ≡ true
      → ((i : ℕ) → i < threads_count → schedule.created i ≡ true)
      → Files P px S s.world none
      → (w : Workers P S.path) × (works P S.path schedule.created
            (length S.plain)
            schedule.order
            (spawned P S.path s)
          ≡ some w)
        × (AllEnded P S.path w
            → (u : P.World) × (rebuild_large P schedule S.path (length S.plain) s
                ≡ some (1, record s { world = u }))
              × IsRebuilt P S.ok S.path
                  (new_header (name P px S))
                  S.plain
                  (px.view s.world)
                  (px.view u))
  large_in schedule s linked attributes made files =
      let (m, w, e, sim) =
        Sim-works P px S schedule.created schedule.order s (started P.aes (name P px S) S.plain)
          (spawned P S.path s) linked (Sim-spawned P px S s files) in
      (
        w,
        e,
        λ ends.
            let (u, e', r) = joined schedule.created s m w made sim ends in
            (u, large_run P schedule S.path (length S.plain) s w attributes e ∙ e', r),
      )

module _ (P : Platform) (px : Posix P) (ok : IsAes P.aes) where
  -- `rebuild_file_struct` on a file of less than 2^31 - 4096 bytes of which the rounded shares of the
  -- first three threads are not more than it has, where the path fits its array, the command line of
  -- the process can be read and its name ends in its buffer and fits the header, the new file does not
  -- exist and the system creates all threads. In any order of their steps they run without a fault;
  -- if they have all come to their end, the result is 1, the path stands for the stored form of the
  -- content behind a new header, the new path for nothing, and every descriptor that was open stands
  -- for the same description, with its inode, position and flags.
  pub rebuild_large_lem :
      (schedule : Schedule) (path : FilePath) (plain text : Bytes) (s : Process P.World)
      {i pid j : ℕ}
      → AllLinked s
      → schedule.attributes ≡ true
      → ((k : ℕ) → k < threads_count → schedule.created k ≡ true)
      → HasName P px s.world pid j text
      → name_offset + P.process_name_max ≤ header_size
      → length path + 3 ≤ path_max
      → length plain + header_size < 2 ^ 31
      → average_of (length plain) * 3 ≤ length plain
      → (px.view s.world).resolve path ≡ some i
      → (px.view s.world).content i ≡ plain
      → (px.view s.world).resolve (path ++ codes ".s") ≡ none
      → (w : Workers P path) × (works P path schedule.created
            (length plain)
            schedule.order
            (spawned P path s)
          ≡ some w)
        × (AllEnded P path w
            → (u : P.World) × (rebuild_large P schedule path (length plain) s
                ≡ some (1, record s { world = u }))
              × IsRebuilt P ok path
                  (new_header (some (name_of P px text)))
                  plain
                  (px.view s.world)
                  (px.view u))
  rebuild_large_lem schedule path plain text s {i} linked attributes made named room fits small
        enough found content absent =
      let S : Setting P px = setting_of P px ok i path plain text named room fits small enough in
      let files : Files P px S s.world none =
        setting_of-Files P px ok i path plain text named room fits small enough found content
          absent in
      large_in P px S schedule s linked attributes made files
