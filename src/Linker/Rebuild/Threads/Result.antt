-- ===== src/Linker/Rebuild/Threads/Result.antt =====
-- `rebuild_file_struct` on a larger file: the invariant of its threads in any order, and what the
-- new file holds at their end.
use native.Mathlib.Decide.{dec_lt, ℕ_discrete}
use mathlib.Core.Path.{subst}
use tencryption.Prelude.{
  ℕ, zero, suc, ◌+◌, ◌*◌, ◌^◌, ◌≤◌, ◌<◌, ◌≡◌, ◌≢◌, refl, sym, ap, ◌∙◌, Option, none, some, List, [],
  ◌∷◌, arith, length, drop, get_or, replicate, ◌==◌, if◌then◌else◌, lt→ltb, le→ltb, eq→==, ne→==,
  length-replicate, replicate-append,
}
use tencryption.Prelude.Slices.{slice, write_at, length-write_at, take-append_of_length}
use tencryption.Prelude.Nth.{
  Agrees, Agrees-written, Agrees-join, get_or-ext, get_or-take, get_or-drop, get_or-replicate,
}
use tencryption.Cipher.{Aes, IsAes}
use tencryption.Header.{
  header_size, name_offset, name_bytes, is_encrypted_by_file_header, file_type_normal,
  signature_offset,
}
use tencryption.Header.Roundtrip.{is_encrypted-file_header_init, is_encrypted_needs_signature}
use tencryption.Detect.Laws.{header_buffer_lem}
use tencryption.Linker.Rebuild.{new_header, rebuilt-stored}
use tencryption.Linker.Rebuild.File.{threads_count}
use tencryption.Linker.Rebuild.Threads.{
  args_of, average_of, Pc, create, extend, head, spin, done, write_head, header_seen, step, Threads,
  started, turn, interleaving,
}
use tencryption.Linker.Rebuild.Threads.Pages.{target, length-target}
use tencryption.Linker.Rebuild.Threads.Sound.{args_of-Fair, Sound, Sound-Better, step-Goes, Has}
use tencryption.Linker.Transfer.Stored.{stored}
use tencryption.Platform.{Bytes}

pub zeros_ordinary : is_encrypted_by_file_header (replicate header_size 0) ≡ file_type_normal
zeros_ordinary = is_encrypted_needs_signature (replicate header_size 0) λ same.
    let zero_first : get_or (slice signature_offset 16 (replicate header_size 0)) 0 0 ≡ 0 =
      get_or-take 0 16 (drop signature_offset (replicate header_size 0)) 0 (omega arith)
      ∙ get_or-drop 0 signature_offset (replicate header_size 0) 0
      ∙ get_or-replicate 0 header_size (signature_offset + 0) in
    let eight : 0 ≡ 8 = sym zero_first ∙ ap (λ l. get_or l 0 0) same in omega (arith, eight)

module _ (A : Aes) (ok : IsAes A) (process_name : Option Bytes)
    (fits : name_offset + length (name_bytes process_name) ≤ header_size) (plain : Bytes)
    (small : length plain + header_size < 2 ^ 31)
    (enough : average_of (length plain) * 3 ≤ length plain) where
  -- While thread 0 makes the new file: what is there, and where thread 0 is.
  pub data Early : Option Bytes → Pc → Type 0 where
    creating : Early none create
    extending : Early (some []) extend
    heading : Early (some (replicate (length plain + header_size) 0)) head

  -- The new file has its size and its header, and what each thread has done is sound.
  pub record Ready (s : Threads A process_name plain) : Type 0 where
    pub file : Bytes
    pub new_eq : s.new ≡ some file
    pub size_eq : length file ≡ header_size + length plain
    pub front : Has A ok process_name fits plain file 0 header_size
    pub sound : (i : ℕ) → i < threads_count → Sound A ok process_name fits plain file i (s.pc i)

  pub data Inv (s : Threads A process_name plain) : Type 0 where
    early :
        (new : Option Bytes) (p : Pc)
        → s.new ≡ new
        → s.pc 0 ≡ p
        → Early new p
        → ((i : ℕ) → i ≢ 0 → s.pc i ≡ spin)
        → Inv s
    ready : Ready s → Inv s

  pub turn_run :
      (i : ℕ) (s : Threads A process_name plain) {p p' : Pc} {new new' : Option Bytes}
      → i < threads_count
      → s.pc i ≡ p
      → s.new ≡ new
      → step A process_name plain (args_of (length plain) i) p new ≡ (p', new')
      → turn A process_name plain i s
        ≡ record { new = new'; pc = λ j. if i == j then p' else s.pc j }
  unfolding turn
  turn_run i s below ep en e = rw (lt→ltb i threads_count below, ep, en, e) refl

  not_seen : {new : Option Bytes} {p : Pc} → Early new p → header_seen A process_name plain new ≡ 0
  unfolding header_seen write_at
  not_seen creating = refl
  not_seen extending = rw zeros_ordinary refl
  not_seen heading =
      let zeros : Bytes = replicate header_size 0 in
      let z : length zeros ≡ header_size = length-replicate header_size 0 in
      ap (λ l. header_seen A process_name plain (some l))
        (replicate-append header_size (length plain) 0)
      ∙ rw
          (
            take-append_of_length header_size zeros (replicate (length plain) 0) z,
            header_buffer_lem zeros z,
            zeros_ordinary,
          )
          refl

  pub write_head_lem :
      (file : Bytes)
      → write_head A process_name plain file ≡ write_at 0 (new_header process_name) file
  unfolding write_head
  write_head_lem file =
      let zeros : Bytes = replicate header_size 0 in
      let z : length zeros ≡ header_size = length-replicate header_size 0 in
      rw (eq→== _ _ (is_encrypted-file_header_init process_name zeros z fits).0) refl

  wait_step :
      (i : ℕ) {new : Option Bytes} {p : Pc}
      → Early new p
      → step A process_name plain (args_of (length plain) i) spin new ≡ (spin, new)
  unfolding step
  wait_step i e = rw (not_seen e) refl

  -- A step of a waiting thread while thread 0 makes the file.
  Early-waits :
      (i : ℕ) (s : Threads A process_name plain) (new : Option Bytes) (p : Pc)
      → i < threads_count
      → i ≢ 0
      → s.new ≡ new
      → s.pc 0 ≡ p
      → Early new p
      → ((j : ℕ) → j ≢ 0 → s.pc j ≡ spin)
      → Inv (turn A process_name plain i s)
  Early-waits i s new p below other en ep e waits =
      rw (turn_run i s below (waits i other) en (wait_step i e)) (
        early new p refl (rw (ne→== i 0 other) ep) e (λ j ne. elim (ℕ_discrete i j) [
          | yes same ↦ rw (eq→== i j same) refl
          | no differ ↦ rw (ne→== i j differ) (waits j ne)
        ]))

  -- The other threads after a step of thread 0.
  still_wait :
      (s : Threads A process_name plain) (p : Pc)
      → ((j : ℕ) → j ≢ 0 → s.pc j ≡ spin)
      → (j : ℕ) → j ≢ 0
      → (if 0 == j then p else s.pc j) ≡ spin
  still_wait s p waits j ne = rw (ne→== 0 j (λ e. ne (sym e))) (waits j ne)

  all_wait :
      (s : Threads A process_name plain)
      → ((j : ℕ) → j ≢ 0 → s.pc j ≡ spin)
      → (j : ℕ) → (if 0 == j then spin else s.pc j) ≡ spin
  all_wait s waits zero = refl
  all_wait s waits (suc j) = rw (ne→== 0 (suc j) (omega arith)) (waits (suc j) (omega arith))

  headed :
      (s : Threads A process_name plain) (file : Bytes)
      → length file ≡ header_size + length plain
      → s.new ≡ some file
      → s.pc 0 ≡ head
      → ((j : ℕ) → j ≢ 0 → s.pc j ≡ spin)
      → Ready (turn A process_name plain 0 s)
  unfolding step Sound
  headed s file size en ep waits =
      let goal : Bytes = target A ok process_name fits plain in
      let whole : length (new_header process_name) ≡ header_size =
        (rebuilt-stored A ok process_name fits plain).1 in
      let front : slice 0 header_size goal ≡ new_header process_name =
        take-append_of_length header_size (new_header process_name) _ whole in
      let file' : Bytes = write_at 0 (new_header process_name) file in
      rw
        (turn_run 0 s {p' = spin} {new' = some file'} (omega arith) ep en
          (ap (λ f. (spin, some f)) (write_head_lem file)))
        (record {
          file = file';
          new_eq = refl;
          size_eq =
              length-write_at 0 (new_header process_name) file (omega arith)
                (omega (arith, size, whole))
              ∙ size;
          front = λ k l u.
              ap (λ h. get_or (write_at 0 h file) k 0) (sym front)
              ∙ Agrees-written 0 0 header_size file goal (omega arith) (ap length front ∙ whole) k l
                  (omega (arith, u));
          sound = λ i below. rw (all_wait s waits i) tt;
        })

  -- The other threads wait.
  abbrev pub Wait : Threads A process_name plain → Type 0
  Wait s = (j : ℕ) → j ≢ 0 → s.pc j ≡ spin

  pub created_next :
      (s : Threads A process_name plain)
      → s.new ≡ none
      → s.pc 0 ≡ create
      → Wait s
      → (let s' = turn A process_name plain 0 s in
          (s'.new ≡ some []) × (s'.pc 0 ≡ extend) × Wait s')
  unfolding step
  created_next s en ep waits =
      rw (turn_run 0 s {p' = extend} {new' = some []} (omega arith) ep en refl)
        (refl, refl, still_wait s extend waits)

  pub extended_next :
      (s : Threads A process_name plain)
      → s.new ≡ some []
      → s.pc 0 ≡ extend
      → Wait s
      → (let s' = turn A process_name plain 0 s in
          (s'.new ≡ some (replicate (length plain + header_size) 0)) × (s'.pc 0 ≡ head) × Wait s')
  unfolding step
  extended_next s en ep waits =
      rw
        (turn_run 0 s {p' = head} {new' = some (replicate (length plain + header_size) 0)}
          (omega arith) ep en
          (ap (λ k. (head, some (replicate (k + header_size) 0))) (omega (arith, small))))
        (refl, refl, still_wait s head waits)

  pub headed_next :
      (s : Threads A process_name plain)
      → s.new ≡ some (replicate (length plain + header_size) 0)
      → s.pc 0 ≡ head
      → Wait s
      → Ready (turn A process_name plain 0 s)
  headed_next s =
      headed s (replicate (length plain + header_size) 0)
        (length-replicate (length plain + header_size) 0 ∙ omega arith)

  Early-zero :
      (s : Threads A process_name plain) {new : Option Bytes} {p : Pc}
      → s.new ≡ new
      → s.pc 0 ≡ p
      → Early new p
      → Wait s
      → Inv (turn A process_name plain 0 s)
  Early-zero s en ep creating waits =
      let (en', ep', waits') = created_next s en ep waits in
      early (some []) extend en' ep' extending waits'
  Early-zero s en ep extending waits =
      let (en', ep', waits') = extended_next s en ep waits in
      early (some (replicate (length plain + header_size) 0)) head en' ep' heading waits'
  Early-zero s en ep heading waits = ready (headed_next s en ep waits)

  pub turn-Ready :
      (i : ℕ) (s : Threads A process_name plain)
      → i < threads_count
      → Ready s
      → Ready (turn A process_name plain i s)
  turn-Ready i s below r =
      let (p', file', e, better, h) =
        step-Goes A ok process_name fits plain i (s.pc i) r.file below
          (args_of-Fair (length plain) i small enough below) r.size_eq (r.sound i below) in
      rw (turn_run i s below refl r.new_eq e) (record {
        file = file';
        new_eq = refl;
        size_eq = better.length_eq ∙ r.size_eq;
        front = better.keeps 0 header_size r.front;
        sound = λ j inside. elim (ℕ_discrete i j) [
          | yes same ↦ rw (sym same, eq→== i i refl) h
          | no differ ↦ rw (ne→== i j differ) (
              Sound-Better A ok process_name fits plain r.file file' j (s.pc j) better
                (r.sound j inside))
        ];
      })

  turn_below :
      (i : ℕ) (s : Threads A process_name plain)
      → i < threads_count
      → Inv s
      → Inv (turn A process_name plain i s)
  turn_below zero s below (early new p en ep e waits) = Early-zero s en ep e waits
  turn_below (suc i) s below (early new p en ep e waits) =
      Early-waits (suc i) s new p below (omega arith) en ep e waits
  turn_below i s below (ready r) = ready (turn-Ready i s below r)

  pub turn-Inv :
      (i : ℕ) (s : Threads A process_name plain) → Inv s → Inv (turn A process_name plain i s)
  unfolding turn
  turn-Inv i s inv = elim (dec_lt i threads_count) [
    | yes below ↦ turn_below i s below inv
    | no other ↦ rw (le→ltb i threads_count (omega (arith, other))) inv
  ]

  pub interleaving-Inv :
      (order : List ℕ) (s : Threads A process_name plain)
      → Inv s
      → Inv (interleaving A process_name plain order s)
  unfolding interleaving
  interleaving-Inv [] s inv = inv
  interleaving-Inv (i ∷ order) s inv =
      interleaving-Inv order (turn A process_name plain i s) (turn-Inv i s inv)

  pub started-Inv : Inv (started A process_name plain)
  started-Inv = early none create refl refl creating (λ i ne. rw (ne→== i 0 ne) refl)

  -- What is left of a file whose threads are all at their end.
  pub all_done :
      (file : Bytes)
      → length file ≡ header_size + length plain
      → Has A ok process_name fits plain file 0 header_size
      → ((i : ℕ) → i < threads_count → Sound A ok process_name fits plain file i done)
      → file ≡ target A ok process_name fits plain
  unfolding Sound
  all_done file size front sound =
      let goal : Bytes = target A ok process_name fits plain in
      let average : ℕ = average_of (length plain) in
      let first : Agrees 0 file goal 0 (header_size + average * 1) =
        Agrees-join 0 file goal front
          (λ k l u. sound 0 (omega arith) k (omega (arith, l)) (omega (arith, u))) in
      let second : Agrees 0 file goal 0 (header_size + average * 2) =
        Agrees-join 0 file goal first
          (λ k l u. sound 1 (omega arith) k (omega (arith, l)) (omega (arith, u))) in
      let third : Agrees 0 file goal 0 (header_size + average * 3) =
        Agrees-join 0 file goal second
          (λ k l u. sound 2 (omega arith) k (omega (arith, l)) (omega (arith, u))) in
      let all : Agrees 0 file goal 0 (header_size + length plain) =
        Agrees-join 0 file goal third
          (λ k l u. sound 3 (omega arith) k (omega (arith, l)) (omega (arith, u, enough))) in
      get_or-ext 0 file goal (size ∙ sym (length-target A ok process_name fits plain))
        (λ k u. all k (omega arith) (omega (arith, u, size)))

  not_done : {new : Option Bytes} {p : Pc} → Early new p → p ≢ done
  not_done creating h = cc
  not_done extending h = cc
  not_done heading h = cc

  pub finished :
      (s : Threads A process_name plain)
      → Inv s
      → ((i : ℕ) → i < threads_count → s.pc i ≡ done)
      → s.new ≡ some (stored A ok (new_header process_name) plain)
  finished s (early new p en ep e waits) ends = absurd (not_done e (sym ep ∙ ends 0 (omega arith)))
  finished s (ready r) ends =
      r.new_eq
      ∙ ap some (
          all_done r.file r.size_eq r.front (λ i below.
            subst (λ p. Sound A ok process_name fits plain r.file i p) (ends i below)
              (r.sound i below)))

  -- The threads of a file of less than 2^31 - 4096 bytes, of which the shares of the first three threads,
  -- rounded up, are not more than it has, for a process whose name ends inside the header: when in
  -- some order of their steps all have come to their end, the new file is the stored form of the
  -- content behind a new header.
  pub interleaving-stored :
      (order : List ℕ)
      → (let s = interleaving A process_name plain order (started A process_name plain) in
          ((i : ℕ) → i < threads_count → s.pc i ≡ done)
          → s.new ≡ some (stored A ok (new_header process_name) plain))
  interleaving-stored order =
      finished (interleaving A process_name plain order (started A process_name plain))
        (interleaving-Inv order (started A process_name plain) started-Inv)
