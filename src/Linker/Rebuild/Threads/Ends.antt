-- ===== src/Linker/Rebuild/Threads/Ends.antt =====
-- `rebuild_file_struct` on a larger file: from wherever its threads are, they can come to their end.
use native.Mathlib.Decide.{dec_lt, ℕ_discrete}
use tencryption.Prelude.{
  ℕ, zero, suc, ◌+◌, ◌*◌, ◌/◌, ◌^◌, ◌≤◌, ◌<◌, ◌≡◌, ◌≢◌, refl, sym, ap, ◌∙◌, Option, some, List, [],
  ◌∷◌, ◌++◌, arith, length, take, replicate, lt→ltb, le→ltb, le→leb, lt→leb, eq→==, ne→==,
  length-take,
}
use tencryption.Prelude.Slices.{slice, take-append_of_length}
use tencryption.Prelude.Nth.{get_or-ext, get_or-take}
use tencryption.Cipher.{Aes, IsAes}
use tencryption.Header.{header_size, name_offset, name_bytes}
use tencryption.Detect.Laws.{header_buffer_lem}
use tencryption.Linker.Rebuild.{new_header, rebuilt-stored}
use tencryption.Linker.Rebuild.File.{threads_count}
use tencryption.Linker.Rebuild.Threads.{
  args_of, average_of, Pc, create, extend, head, spin, copy, last, done, header_seen, step, Threads,
  started, turn, interleaving,
}
use tencryption.Linker.Rebuild.Threads.Pages.{target, length-target}
use tencryption.Linker.Rebuild.Threads.Sound.{share, Fair, args_of-Fair, Sound}
use tencryption.Linker.Rebuild.Threads.Result.{
  Early, creating, extending, heading, Inv, early, ready, Ready, turn-Ready, Wait, created_next,
  extended_next, headed_next, interleaving-Inv, started-Inv,
}
use tencryption.Platform.{Bytes}

-- A bound on the steps that a thread has left once the header is there.
unfoldable pub rank : ℕ → ℕ → Pc → ℕ
rank size i create = 0
rank size i extend = 0
rank size i head = 0
rank size i spin = share size i / 4096 + 3
rank size i (copy offset bsize) = bsize / 4096 + 2
rank size i (last offset) = 1
rank size i done = 0

module _ (A : Aes) (process_name : Option Bytes) (plain : Bytes) where
  interleaving-append :
      (xs ys : List ℕ) (s : Threads A process_name plain)
      → interleaving A process_name plain (xs ++ ys) s
        ≡ interleaving A process_name plain ys (interleaving A process_name plain xs s)
  unfolding interleaving
  interleaving-append [] ys s = refl
  interleaving-append (x ∷ xs) ys s = interleaving-append xs ys (turn A process_name plain x s)

  pub turn_other :
      (i j : ℕ) (s : Threads A process_name plain)
      → i ≢ j
      → (turn A process_name plain i s).pc j ≡ s.pc j
  unfolding turn
  turn_other i j s ne = elim (dec_lt i threads_count) [
    | yes below ↦ rw (lt→ltb i threads_count below, ne→== i j ne) refl
    | no other ↦ rw (le→ltb i threads_count (omega (arith, other))) refl
  ]

  turn_self :
      (i : ℕ) (s : Threads A process_name plain)
      → i < threads_count
      → (turn A process_name plain i s).pc i
        ≡ (step A process_name plain (args_of (length plain) i) (s.pc i) s.new).0
  unfolding turn
  turn_self i s below = rw (lt→ltb i threads_count below, eq→== i i refl) refl

  rank-step :
      (i : ℕ) (p : Pc) (file : Bytes)
      → Fair (length plain) i
      → header_seen A process_name plain (some file) ≡ 1
      → 0 < rank (length plain) i p
      → rank (length plain) i (step A process_name plain (args_of (length plain) i) p (some file)).0
        < rank (length plain) i p
  unfolding rank step
  rank-step i create file fair seen h = absurd (omega (arith, h))
  rank-step i extend file fair seen h = absurd (omega (arith, h))
  rank-step i head file fair seen h = absurd (omega (arith, h))
  rank-step i spin file fair seen h = rw (seen, fair.bsize_eq) (omega arith)
  rank-step i (copy offset bsize) file fair seen h = elim (dec_lt bsize 4096) [
    | yes short ↦ elim (ℕ_discrete (i + 1) threads_count) [
      | yes end ↦ rw (lt→leb 4096 bsize short, eq→== (i + 1) threads_count end) (omega arith)
      | no more ↦ rw (lt→leb 4096 bsize short, ne→== (i + 1) threads_count more) (omega arith)
    ]
    | no room ↦ rw (le→leb 4096 bsize (omega (arith, room))) (omega (arith, room))
  ]
  rank-step i (last offset) file fair seen h = omega arith
  rank-step i done file fair seen h = absurd (omega (arith, h))

module _ (A : Aes) (ok : IsAes A) (process_name : Option Bytes)
    (fits : name_offset + length (name_bytes process_name) ≤ header_size) (plain : Bytes)
    (small : length plain + header_size < 2 ^ 31)
    (enough : average_of (length plain) * 3 ≤ length plain) where
  abbrev IsReady : Threads A process_name plain → Type 0
  IsReady s = Ready A ok process_name fits plain small enough s

  abbrev after : List ℕ → Threads A process_name plain → Threads A process_name plain
  after order s = interleaving A process_name plain order s

  pub seen :
      (s : Threads A process_name plain) (r : IsReady s)
      → header_seen A process_name plain (some r.file) ≡ 1
  unfolding header_seen
  seen s r =
      let head : Bytes = new_header process_name in
      let goal : Bytes = target A ok process_name fits plain in
      let (whole_eq, whole, kind) = rebuilt-stored A ok process_name fits plain in
      let front : slice 0 header_size r.file ≡ head =
        get_or-ext 0 (slice 0 header_size r.file) (take header_size goal)
          (omega (
            arith,
            length-take header_size r.file,
            length-take header_size goal,
            r.size_eq,
            length-target A ok process_name fits plain,
          ))
          (λ k u.
            let below : k < header_size = omega (arith, u, length-take header_size r.file) in
            get_or-take 0 header_size r.file k below
            ∙ r.front k (omega arith) below
            ∙ sym (get_or-take 0 header_size goal k below))
        ∙ take-append_of_length header_size head _ whole in
      rw (front, header_buffer_lem head whole, kind) refl

  rank-done :
      (file : Bytes) (i : ℕ) (p : Pc)
      → rank (length plain) i p ≡ 0
      → Sound A ok process_name fits plain file i p
      → p ≡ done
  unfolding rank Sound
  rank-done file i create e h = absurd h
  rank-done file i extend e h = absurd h
  rank-done file i head e h = absurd h
  rank-done file i spin e h = absurd (omega (arith, e))
  rank-done file i (copy offset bsize) e h = absurd (omega (arith, e))
  rank-done file i (last offset) e h = absurd (omega (arith, e))
  rank-done file i done e h = refl

  -- The steps that a thread takes alone, to its end.
  record Ended (i : ℕ) (s : Threads A process_name plain) : Type 0 where
    more : List ℕ
    is_ready : IsReady (after more s)
    ended : (after more s).pc i ≡ done
    kept : (j : ℕ) → s.pc j ≡ done → (after more s).pc j ≡ done

  already-Ended : (i : ℕ) (s : Threads A process_name plain) → IsReady s → s.pc i ≡ done → Ended i s
  unfolding interleaving
  already-Ended i s r e = record { more = []; is_ready = r; ended = e; kept = λ j h. h }

  one_more :
      (i : ℕ) (s : Threads A process_name plain)
      → s.pc i ≢ done
      → Ended i (turn A process_name plain i s)
      → Ended i s
  unfolding interleaving
  one_more i s going rest = record {
    more = i ∷ rest.more;
    is_ready = rest.is_ready;
    ended = rest.ended;
    kept = λ j h.
        rest.kept j (turn_other A process_name plain i j s (λ same. going (ap s.pc same ∙ h)) ∙ h);
  }

  done-rank : (i : ℕ) (p : Pc) → p ≡ done → rank (length plain) i p ≡ 0
  unfolding rank
  done-rank i p e = ap (rank (length plain) i) e

  ends_alone :
      (m i : ℕ) (s : Threads A process_name plain)
      → i < threads_count
      → IsReady s
      → rank (length plain) i (s.pc i) ≤ m
      → Ended i s
  ends_alone zero i s below r bound =
      already-Ended i s r (rank-done r.file i (s.pc i) (omega (arith, bound)) (r.sound i below))
  ends_alone (suc m) i s below r bound = elim (ℕ_discrete (rank (length plain) i (s.pc i)) 0) [
    | yes e ↦ already-Ended i s r (rank-done r.file i (s.pc i) e (r.sound i below))
    | no left ↦
        let n : ℕ = length plain in
        let next : rank n i ((turn A process_name plain i s).pc i) < rank n i (s.pc i) =
          rw (turn_self A process_name plain i s below, r.new_eq)
            (rank-step A process_name plain i (s.pc i) r.file (args_of-Fair n i small enough below)
              (seen s r) (omega (arith, left))) in
        one_more i s (λ e. left (done-rank i (s.pc i) e))
          (ends_alone m i (turn A process_name plain i s) below
            (turn-Ready A ok process_name fits plain small enough i s below r)
            (omega (arith, next, bound)))
  ]

  ends : (i : ℕ) (s : Threads A process_name plain) → i < threads_count → IsReady s → Ended i s
  ends i s below r = ends_alone (rank (length plain) i (s.pc i)) i s below r (omega arith)

  abbrev AllDone : Threads A process_name plain → Type 0
  AllDone s = (i : ℕ) → i < threads_count → s.pc i ≡ done

  four_done :
      (s : Threads A process_name plain)
      → s.pc 0 ≡ done
      → s.pc 1 ≡ done
      → s.pc 2 ≡ done
      → s.pc 3 ≡ done
      → AllDone s
  four_done s d0 d1 d2 d3 zero below = d0
  four_done s d0 d1 d2 d3 (suc zero) below = d1
  four_done s d0 d1 d2 d3 (suc (suc zero)) below = d2
  four_done s d0 d1 d2 d3 (suc (suc (suc zero))) below = d3
  four_done s d0 d1 d2 d3 (suc (suc (suc (suc i)))) below = absurd (omega (arith, below))

  ready_ends :
      (s : Threads A process_name plain) → IsReady s → (more : List ℕ) × AllDone (after more s)
  ready_ends s r =
      let e0 : Ended 0 s = ends 0 s (omega arith) r in
      let s1 : Threads A process_name plain = after e0.more s in
      let e1 : Ended 1 s1 = ends 1 s1 (omega arith) e0.is_ready in
      let s2 : Threads A process_name plain = after e1.more s1 in
      let e2 : Ended 2 s2 = ends 2 s2 (omega arith) e1.is_ready in
      let s3 : Threads A process_name plain = after e2.more s2 in
      let e3 : Ended 3 s3 = ends 3 s3 (omega arith) e2.is_ready in
      (
        e0.more ++ (e1.more ++ (e2.more ++ e3.more)),
        rw
            (
              interleaving-append A process_name plain e0.more (e1.more ++ (e2.more ++ e3.more)) s,
              interleaving-append A process_name plain e1.more (e2.more ++ e3.more) s1,
              interleaving-append A process_name plain e2.more e3.more s2,
            )
            (four_done (after e3.more s3) (e3.kept 0 (e2.kept 0 (e1.kept 0 e0.ended)))
              (e3.kept 1 (e2.kept 1 e1.ended)) (e3.kept 2 e2.ended) e3.ended),
      )

  after_zero :
      (s : Threads A process_name plain)
      → ((more : List ℕ) × AllDone (after more (turn A process_name plain 0 s)))
      → (more : List ℕ) × AllDone (after more s)
  unfolding interleaving
  after_zero s (more, h) = (0 ∷ more, h)

  headed_ends :
      (s : Threads A process_name plain)
      → s.new ≡ some (replicate (length plain + header_size) 0)
      → s.pc 0 ≡ head
      → Wait A ok process_name fits plain small enough s
      → (more : List ℕ) × AllDone (after more s)
  headed_ends s en ep waits = after_zero s (
      ready_ends (turn A process_name plain 0 s)
        (headed_next A ok process_name fits plain small enough s en ep waits))

  extended_ends :
      (s : Threads A process_name plain)
      → s.new ≡ some []
      → s.pc 0 ≡ extend
      → Wait A ok process_name fits plain small enough s
      → (more : List ℕ) × AllDone (after more s)
  extended_ends s en ep waits =
      let (en', ep', waits') =
        extended_next A ok process_name fits plain small enough s en ep waits in
      after_zero s (headed_ends (turn A process_name plain 0 s) en' ep' waits')

  Early-ends :
      (s : Threads A process_name plain) {new : Option Bytes} {p : Pc}
      → s.new ≡ new
      → s.pc 0 ≡ p
      → Early A ok process_name fits plain small enough new p
      → Wait A ok process_name fits plain small enough s
      → (more : List ℕ) × AllDone (after more s)
  Early-ends s en ep creating waits =
      let (en', ep', waits') =
        created_next A ok process_name fits plain small enough s en ep waits in
      after_zero s (extended_ends (turn A process_name plain 0 s) en' ep' waits')
  Early-ends s en ep extending waits = extended_ends s en ep waits
  Early-ends s en ep heading waits = headed_ends s en ep waits

  Inv-ends :
      (s : Threads A process_name plain)
      → Inv A ok process_name fits plain small enough s
      → (more : List ℕ) × AllDone (after more s)
  Inv-ends s (early new p en ep e waits) = Early-ends s en ep e waits
  Inv-ends s (ready r) = ready_ends s r

  -- For a content of less than 2^31 - 4096 bytes of which the rounded shares of the first three
  -- threads are not more than it has, and a name that fits the header: after any order of steps of the
  -- threads on the contents there is a further order that brings all of them to their end.
  pub interleaving_ends :
      (order : List ℕ)
      → (more : List ℕ) × ((i : ℕ)
          → i < threads_count
          → (interleaving A process_name plain (order ++ more) (started A process_name plain)).pc i
            ≡ done)
  interleaving_ends order =
      let s : Threads A process_name plain = after order (started A process_name plain) in
      let (more, h) = Inv-ends s (
        interleaving-Inv A ok process_name fits plain small enough order
          (started A process_name plain) (started-Inv A ok process_name fits plain small enough)) in
      (
        more,
        rw (interleaving-append A process_name plain order more (started A process_name plain)) h,
      )
