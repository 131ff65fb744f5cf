-- ===== src/Linker/Rebuild/Threads/Sound.antt =====
-- `pthread_rfs_run`: what a thread has done when it is at a place, and that its steps keep it.
use native.Mathlib.Decide.{dec_le, dec_lt, ℕ_discrete}
use tencryption.Prelude.{
  ℕ, zero, suc, ◌+◌, ◌*◌, ◌-◌, ◌/◌, ◌%◌, ◌^◌, ◌≤◌, ◌<◌, ◌≡◌, ◌≢◌, refl, ap, ap₂, ◌∙◌, Option, some,
  arith, length, ltb, ◌==◌, if◌then◌else◌, lt→ltb, le→ltb, le→leb, lt→leb, eq→==, ne→==,
  length-take, length-drop, drop,
}
use tencryption.Prelude.Slices.{slice, write_at, length-write_at}
use tencryption.Prelude.Nth.{Agrees, Agrees-written, Agrees-write, Agrees-join}
use tencryption.Cipher.{Aes, IsAes}
use tencryption.Header.{header_size, name_offset, name_bytes}
use tencryption.Linker.Rebuild.File.{threads_count}
use tencryption.Linker.Rebuild.Threads.{
  args_of, average_of, Pc, create, extend, head, spin, copy, last, done, copy_block, copy_tail,
  header_seen, step,
}
use tencryption.Linker.Rebuild.Threads.Average.{round_up-bounds}
use tencryption.Linker.Rebuild.Threads.Pages.{target, count_at, page_at, length-page}
use tencryption.Platform.{Bytes}

-- The bytes that the thread `i` copies.
abbrev pub share : ℕ → ℕ → ℕ
share size i = if ltb i (threads_count - 1) then average_of size else size - average_of size * i

-- The arguments of a thread of a file that is not too large, whose first three threads do not take
-- more than it has.
pub record Fair (size i : ℕ) : Type 0 where
  pub postion_eq : (args_of size i).postion ≡ average_of size * i
  pub bsize_eq : (args_of size i).bsize ≡ share size i
  pub starts_block : (average_of size * i) % 4096 ≡ 0
  pub inside : average_of size * i + share size i ≤ size
  pub whole : i ≢ 3 → share size i % 4096 ≡ 0
  pub to_end : i ≡ 3 → average_of size * i + share size i ≡ size

average_whole : (size : ℕ) → average_of size % 4096 ≡ 0
average_whole size = (round_up-bounds 4096 (size / threads_count) (omega arith)).0

pub args_of-Fair :
    (size i : ℕ)
    → size + header_size < 2 ^ 31
    → average_of size * 3 ≤ size
    → i < threads_count
    → Fair size i
args_of-Fair size zero small enough below = record {
  postion_eq = omega arith;
  bsize_eq = omega (arith, small, enough);
  starts_block = omega arith;
  inside = omega (arith, enough);
  whole = λ ne. average_whole size;
  to_end = λ e. absurd (omega (arith, e));
}
args_of-Fair size (suc zero) small enough below = record {
  postion_eq = omega (arith, small, enough);
  bsize_eq = omega (arith, small, enough);
  starts_block = omega (arith, average_whole size);
  inside = omega (arith, enough);
  whole = λ ne. average_whole size;
  to_end = λ e. absurd (omega (arith, e));
}
args_of-Fair size (suc (suc zero)) small enough below = record {
  postion_eq = omega (arith, small, enough);
  bsize_eq = omega (arith, small, enough);
  starts_block = omega (arith, average_whole size);
  inside = omega (arith, enough);
  whole = λ ne. average_whole size;
  to_end = λ e. absurd (omega (arith, e));
}
args_of-Fair size (suc (suc (suc zero))) small enough below = record {
  postion_eq = omega (arith, small, enough);
  bsize_eq = omega (arith, small, enough);
  starts_block = omega (arith, average_whole size);
  inside = omega (arith, enough);
  whole = λ ne. absurd (ne refl);
  to_end = λ e. omega (arith, enough);
}
args_of-Fair size (suc (suc (suc (suc i)))) small enough below = absurd (omega (arith, below))

module _ (A : Aes) (ok : IsAes A) (process_name : Option Bytes)
    (fits : name_offset + length (name_bytes process_name) ≤ header_size) (plain : Bytes) where
  abbrev pub goal : Bytes
  goal = target A ok process_name fits plain

  abbrev pub start_of : ℕ → ℕ
  start_of i = average_of (length plain) * i

  -- The new file holds the stored content in this range.
  abbrev pub Has : Bytes → ℕ → ℕ → Type 0
  Has file low high = Agrees 0 file goal low high

  -- What the thread `i` has done to the new file when it is there.
  unfoldable pub Sound : Bytes → ℕ → Pc → Type 0
  Sound file i create = ⊥
  Sound file i extend = ⊥
  Sound file i head = ⊥
  Sound file i spin = Unit {0}
  Sound file i (copy offset bsize) =
      (offset % 4096 ≡ 0)
      × (offset + bsize ≡ start_of i + share (length plain) i)
      × Has file (header_size + start_of i) (header_size + offset)
  Sound file i (last offset) =
      (i ≡ 3)
      × (offset % 4096 ≡ 0)
      × (offset ≤ length plain)
      × (length plain < offset + 4096)
      × Has file (header_size + start_of i) (header_size + offset)
  Sound file i done =
      Has file (header_size + start_of i) (header_size + (start_of i + share (length plain) i))

  -- The file after a step: it keeps its length and what it holds of the stored content.
  pub record Better (file file' : Bytes) : Type 0 where
    pub length_eq : length file' ≡ length file
    pub keeps : (low high : ℕ) → Has file low high → Has file' low high

  Better-refl : (file : Bytes) → Better file file
  Better-refl file = record { length_eq = refl; keeps = λ low high h. h }

  pub Sound-Better :
      (file file' : Bytes) (i : ℕ) (p : Pc) → Better file file' → Sound file i p → Sound file' i p
  unfolding Sound
  Sound-Better file file' i create b h = h
  Sound-Better file file' i extend b h = h
  Sound-Better file file' i head b h = h
  Sound-Better file file' i spin b h = h
  Sound-Better file file' i (copy offset bsize) b (e, s, h) = (e, s, b.keeps _ _ h)
  Sound-Better file file' i (last offset) b (three, e, l, u, h) = (three, e, l, u, b.keeps _ _ h)
  Sound-Better file file' i done b h = b.keeps _ _ h

  -- A write of the stored content in its place.
  Better-written :
      (file : Bytes) (offset : ℕ)
      → length file ≡ header_size + length plain
      → offset ≤ length plain
      → (let bytes =
            slice (header_size + offset) (count_at A ok process_name fits plain offset) goal in
          let file' = write_at (header_size + offset) bytes file in
          Better file file'
          × Has file'
              (header_size + offset)
              (header_size + offset + count_at A ok process_name fits plain offset))
  Better-written file offset size inside =
      let o : ℕ = header_size + offset in
      let n : ℕ = count_at A ok process_name fits plain offset in
      let e : length (slice o n goal) ≡ n =
        length-page A ok process_name fits plain offset inside in
      let room : o ≤ length file = omega (arith, size, inside) in
      (
        record {
          length_eq = length-write_at o (slice o n goal) file room (omega (arith, e, size, inside));
          keeps = λ low high h. Agrees-write 0 o n file goal room e h;
        },
        Agrees-written 0 o n file goal room e,
      )

  block_lem :
      (file : Bytes) (offset : ℕ)
      → offset % 4096 ≡ 0
      → offset + 4096 ≤ length plain
      → copy_block A process_name plain offset file ≡ (
        offset + 4096,
        write_at
            (header_size + offset)
            (slice (header_size + offset) (count_at A ok process_name fits plain offset) goal)
            file,
      )
  unfolding copy_block
  block_lem file offset e room =
      let buff : Bytes = slice offset 4096 plain in
      let full : length buff ≡ 4096 =
        omega (arith, room, length-take 4096 (drop offset plain), length-drop offset plain) in
      let next : (if length buff == 4096 then offset + length buff else offset)
          ≡ header_size + offset =
        rw (eq→== (length buff) 4096 full) (omega (arith, full)) in
      ap₂ (λ k l. (k, write_at k l file)) next
        (page_at A ok process_name fits plain offset e (omega (arith, room)))
      ∙ ap
          (λ k. (
            k,
            write_at (header_size + offset)
                (slice (header_size + offset) (count_at A ok process_name fits plain offset) goal)
                file,
          ))
          (omega arith)

  tail_lem :
      (file : Bytes) (offset : ℕ)
      → offset % 4096 ≡ 0
      → offset < length plain
      → copy_tail A process_name plain offset file
        ≡ write_at
            (header_size + offset)
            (slice (header_size + offset) (count_at A ok process_name fits plain offset) goal)
            file
  unfolding copy_tail
  tail_lem file offset e room =
      let buff : Bytes = slice offset 4096 plain in
      let some_left : 0 < length buff =
        omega (arith, room, length-take 4096 (drop offset plain), length-drop offset plain) in
      rw (lt→ltb 0 (length buff) some_left) (
        ap₂ (λ k l. write_at k l file) (omega arith)
          (page_at A ok process_name fits plain offset e (omega (arith, room))))

  tail_none :
      (file : Bytes) (offset : ℕ)
      → length plain ≤ offset
      → copy_tail A process_name plain offset file ≡ file
  unfolding copy_tail
  tail_none file offset h =
      let buff : Bytes = slice offset 4096 plain in
      rw
        (le→ltb 0 (length buff)
          (omega (arith, h, length-take 4096 (drop offset plain), length-drop offset plain)))
        refl

  -- What a step of a thread that has seen the header gives.
  abbrev pub Goes : ℕ → Pc → Bytes → Type 0
  Goes i p file =
      (p' : Pc) × (file' : Bytes) × (step A process_name plain (args_of (length plain) i) p
          (some file)
        ≡ (p', some file'))
      × Better file file'
      × Sound file' i p'

  copy-Goes :
      (i : ℕ) (file : Bytes) (offset bsize : ℕ)
      → Fair (length plain) i
      → length file ≡ header_size + length plain
      → 4096 ≤ bsize
      → Sound file i (copy offset bsize)
      → Goes i (copy offset bsize) file
  unfolding Sound step
  copy-Goes i file offset bsize fair size room (e, s, h) =
      let inside : offset + 4096 ≤ length plain = omega (arith, s, room, fair.inside) in
      let (better, has) = Better-written file offset size (omega (arith, inside)) in
      (
        copy (offset + 4096) (bsize - 4096),
        _,
        rw (le→leb 4096 bsize room)
            (ap (λ o. (copy o.0 (bsize - 4096), some o.1)) (block_lem file offset e inside)),
        better,
        (
          omega (arith, e),
          omega (arith, s, room),
          λ k l u. Agrees-join 0 _ goal (better.keeps _ _ h) has k l (omega (arith, u, inside)),
        ),
      )

  stop-Goes :
      (i : ℕ) (file : Bytes) (offset bsize : ℕ)
      → i < threads_count
      → Fair (length plain) i
      → bsize < 4096
      → Sound file i (copy offset bsize)
      → Goes i (copy offset bsize) file
  unfolding Sound step
  stop-Goes i file offset bsize below fair small (e, s, h) = elim (ℕ_discrete i 3) [
    | yes three ↦ (
      last offset,
      file,
      rw (lt→leb 4096 bsize small, eq→== (i + 1) threads_count (omega (arith, three))) refl,
      Better-refl file,
      (three, e, omega (arith, s, fair.inside), omega (arith, s, small, fair.to_end three), h),
    )
    | no other ↦
        let none_left : offset ≡ start_of i + share (length plain) i =
          omega (arith, s, e, small, fair.starts_block, fair.whole other) in
        (
          done,
          file,
          rw (lt→leb 4096 bsize small, ne→== (i + 1) threads_count (omega (arith, other))) refl,
          Better-refl file,
          λ k l u. h k l (omega (arith, u, none_left)),
        )
  ]

  last-Goes :
      (i : ℕ) (file : Bytes) (offset : ℕ)
      → Fair (length plain) i
      → length file ≡ header_size + length plain
      → Sound file i (last offset)
      → Goes i (last offset) file
  unfolding Sound step
  last-Goes i file offset fair size (three, e, inside, short, h) =
      elim (dec_lt offset (length plain)) [
        | yes left ↦
            let (better, has) = Better-written file offset size inside in
            (
              done,
              _,
              ap (λ f. (done, some f)) (tail_lem file offset e left),
              better,
              λ k l u.
                  Agrees-join 0 _ goal (better.keeps _ _ h) has k l
                    (omega (arith, u, short, left, fair.to_end three)),
            )
        | no none_left ↦ (
          done,
          file,
          ap (λ f. (done, some f)) (tail_none file offset (omega (arith, none_left))),
          Better-refl file,
          λ k l u. h k l (omega (arith, u, none_left, inside, fair.to_end three)),
        )
      ]

  spin-Goes : (i : ℕ) (file : Bytes) → Fair (length plain) i → Goes i spin file
  unfolding Sound step
  spin-Goes i file fair = elim (ℕ_discrete (header_seen A process_name plain (some file)) 1) [
    | yes e ↦ (
      copy (start_of i) (share (length plain) i),
      file,
      rw (eq→== _ 1 e) (ap₂ (λ o b. (copy o b, some file)) fair.postion_eq fair.bsize_eq),
      Better-refl file,
      (fair.starts_block, refl, λ k l u. absurd (omega (arith, l, u))),
    )
    | no e ↦ (spin, file, rw (ne→== _ 1 e) refl, Better-refl file, tt)
  ]

  -- A step of a thread that has seen the header, or waits for it, is sound and keeps what the new
  -- file holds of the stored content.
  pub step-Goes :
      (i : ℕ) (p : Pc) (file : Bytes)
      → i < threads_count
      → Fair (length plain) i
      → length file ≡ header_size + length plain
      → Sound file i p
      → Goes i p file
  unfolding Sound step
  step-Goes i create file below fair size h = absurd h
  step-Goes i extend file below fair size h = absurd h
  step-Goes i head file below fair size h = absurd h
  step-Goes i spin file below fair size h = spin-Goes i file fair
  step-Goes i (copy offset bsize) file below fair size h = elim (dec_le 4096 bsize) [
    | yes room ↦ copy-Goes i file offset bsize fair size room h
    | no small ↦ stop-Goes i file offset bsize below fair (omega (arith, small)) h
  ]
  step-Goes i (last offset) file below fair size h = last-Goes i file offset fair size h
  step-Goes i done file below fair size h = (done, file, refl, Better-refl file, h)
