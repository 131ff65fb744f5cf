-- ===== src/Linker/Rebuild/Threads/Average.antt =====
-- `rebuild_file_struct`: the loop that rounds the share of a thread up to whole blocks, and the sizes
-- for which the rounded shares fit into the file.
use tencryption.Prelude.{
  ℕ, zero, suc, ◌+◌, ◌-◌, ◌%◌, ◌≤◌, ◌<◌, ◌≡◌, ◌≢◌, ◌*◌, ◌/◌, ◌↔◌, ◌⊎◌, inl, inr, ap, ◌∙◌, arith,
  eq→==, ne→==,
}
use tencryption.Linker.Rebuild.File.{threads_count}
use native.Mathlib.Decide.{dec_le}
use tencryption.Linker.Rebuild.Threads.{round_up, average_of}

not_yet : (a g : ℕ) → (a + suc g) % 4096 ≡ 0 → suc g < 4096 → a % 4096 ≢ 0
not_yet a g h small e = omega (arith, h, small, e)

round_up-gap :
    (fuel average gap : ℕ)
    → (average + gap) % 4096 ≡ 0
    → gap < 4096
    → gap < fuel
    → round_up fuel average ≡ average + gap
unfolding round_up
round_up-gap zero average gap h small enough = absurd (omega (arith, enough))
round_up-gap (suc fuel) average zero h small enough =
    rw (eq→== (average % 4096) 0 (omega (arith, h))) (omega arith)
round_up-gap (suc fuel) average (suc gap) h small enough =
    rw (ne→== (average % 4096) 0 (not_yet average gap h small)) (
      round_up-gap fuel (average + 1) gap (omega (arith, h)) (omega (arith, small))
        (omega (arith, enough))
      ∙ omega arith)

-- On fuel of 4096 or more the loop ends: its result is the least multiple of 4096 that is not less
-- than the number it starts from.
pub round_up-bounds :
    (fuel average : ℕ)
    → 4096 ≤ fuel
    → (round_up fuel average % 4096 ≡ 0)
      × (average ≤ round_up fuel average)
      × (round_up fuel average < average + 4096)
round_up-bounds fuel average enough =
    let gap : ℕ = (4096 - average % 4096) % 4096 in
    let e : round_up fuel average ≡ average + gap =
      round_up-gap fuel average gap (omega arith) (omega arith) (omega (arith, enough)) in
    (ap (λ n. n % 4096) e ∙ omega arith, omega (arith, e), omega (arith, e))

-- The sizes above 16384 of which the shares of the first three threads are not more than the file.
abbrev pub SharesFit : ℕ → Type 0
SharesFit size = (size ≤ 16387) ⊎ (((24576 ≤ size) × (size ≤ 32771)) ⊎ (36864 ≤ size))

-- For a file of more than 16384 bytes the rounded shares of the first three threads are not more than
-- it has exactly if it has up to 16387, 24576 to 32771, or from 36864 bytes on.
pub SharesFit-iff : (size : ℕ) → 16384 < size → (average_of size * 3 ≤ size) ↔ SharesFit size
SharesFit-iff size large =
    let (block, above, under) = round_up-bounds 4096 (size / threads_count) (omega arith) in
    (
      λ enough. elim (dec_le size 16387) [
        | yes low ↦ inl low
        | no high ↦ elim (dec_le 36864 size) [
          | yes top ↦ inr (inr top)
          | no inner ↦ inr (
              inl (
                omega (arith, block, above, under, enough, high, inner),
                omega (arith, block, above, under, enough, high, inner),
              ))
        ]
      ],
      λ fits. elim fits [
        | inl low ↦ omega (arith, block, above, under, low, large)
        | inr (inl (from, to)) ↦ omega (arith, block, above, under, from, to)
        | inr (inr top) ↦ omega (arith, block, above, under, top)
      ],
    )
