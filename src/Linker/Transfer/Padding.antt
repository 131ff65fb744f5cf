-- ===== src/Linker/Transfer/Padding.antt =====
-- The buffer of `read`: three pieces of a file side by side, decrypted from a block's start.
use native.Mathlib.Decide.{dec_le}
use tencryption.Prelude.{
  ℕ, ◌+◌, ◌-◌, ◌*◌, ◌/◌, ◌%◌, ◌≤◌, ◌≡◌, refl, sym, ap, ap₂, ◌∙◌, List, [], ◌++◌, take-append-drop,
  append_assoc, append-nil, arith, length, take, drop, length-append, length-take, length-drop, min,
  ◌⊎◌, inl, inr,
}
use tencryption.Prelude.Slices.{
  slice, write_at, take-all, drop-all, drop-drop, take-append_left, drop-append_left,
  take-append_of_length, drop-append_of_length, take-take, drop-take, take-min, take-slice,
  take-nil, take-of_zero,
}
use tencryption.Cipher.{Aes, IsAes, decrypt_blocks}
use tencryption.Cipher.Blocks.{
  KeepsBlock, on_blocks, all_blocks, dec, dec-KeepsBlock, decrypt_blocks_lem, length-on_blocks,
  on_blocks-append, drop-on_blocks, take-on_blocks,
}

module _ {ℓ} {A : Type ℓ} where
  -- Writing behind a front that fills the buffer so far.
  pub write-behind :
      (front bs rest : List A) (o : ℕ)
      → length front ≡ o
      → write_at o bs (front ++ rest) ≡ (front ++ bs) ++ drop (length bs) rest
  unfolding write_at
  write-behind front bs rest o e =
      ap₂ (λ u v. u ++ (bs ++ v)) (take-append_of_length o front rest e)
        (sym (drop-drop o (length bs) (front ++ rest))
          ∙ ap (λ l. drop (length bs) l) (drop-append_of_length o front rest e))
      ∙ sym (append_assoc front bs (drop (length bs) rest))

  write-nothing : (o : ℕ) (buf : List A) → write_at o [] buf ≡ buf
  unfolding write_at
  write-nothing o buf = ap (λ k. take o buf ++ drop k buf) (omega arith) ∙ take-append-drop o buf

  -- Three pieces side by side: the second may be short only if the third is empty.
  pieces :
      (s1 s2 s3 rest : List A) (start count : ℕ)
      → length s1 ≡ start
      → (length s2 ≡ count) ⊎ (s3 ≡ [])
      → (tail : List A) × (write_at (start + count) s3 (write_at start s2 (write_at 0 s1 rest))
          ≡ (s1 ++ (s2 ++ s3)) ++ tail)
  pieces s1 s2 s3 rest start count e1 (inl e2) = (
    drop (length s3) (drop (length s2) (drop (length s1) rest)),
    ap (λ l. write_at (start + count) s3 (write_at start s2 l)) (write-behind [] s1 rest 0 refl)
        ∙ ap (λ l. write_at (start + count) s3 l)
            (write-behind s1 s2 (drop (length s1) rest) start e1)
        ∙ write-behind (s1 ++ s2) s3 (drop (length s2) (drop (length s1) rest)) (start + count)
            (omega (arith, length-append s1 s2))
        ∙ ap (λ l. l ++ drop (length s3) (drop (length s2) (drop (length s1) rest)))
            (append_assoc s1 s2 s3),
  )
  pieces s1 s2 s3 rest start count e1 (inr e3) = (
    drop (length s2) (drop (length s1) rest),
    ap (λ l. write_at (start + count) l (write_at start s2 (write_at 0 s1 rest))) e3
        ∙ write-nothing (start + count) (write_at start s2 (write_at 0 s1 rest))
        ∙ ap (λ l. write_at start s2 l) (write-behind [] s1 rest 0 refl)
        ∙ write-behind s1 s2 (drop (length s1) rest) start e1
        ∙ ap (λ l. (s1 ++ l) ++ drop (length s2) (drop (length s1) rest))
            (sym (append-nil s2) ∙ ap (λ l. s2 ++ l) (sym e3)),
  )

module _ (f : List ℕ → List ℕ) (keeps : KeepsBlock f) where
  -- The complete blocks of a front that ends at a block's end or takes everything in.
  pub take-all_blocks :
      (k : ℕ) (xs : List ℕ)
      → on_blocks f (length (take (k * 16) xs) / 16) (take (k * 16) xs)
        ≡ take (k * 16) (all_blocks f xs)
  take-all_blocks k xs = elim (dec_le (k * 16) (length xs)) [
    | yes p ↦
        let n : length (take (k * 16) xs) / 16 ≡ k = omega (arith, length-take (k * 16) xs) in
        let m : length xs / 16 ≡ k + (length xs / 16 - k) = omega arith in
        ap (λ j. on_blocks f j (take (k * 16) xs)) n
        ∙ sym (take-on_blocks f keeps k (length xs / 16 - k) xs (omega arith))
        ∙ ap (λ j. take (k * 16) (on_blocks f j xs)) (sym m)
    | no p ↦
        let whole : take (k * 16) xs ≡ xs = take-all (k * 16) xs (omega arith) in
        ap (all_blocks f) whole
        ∙ sym (
            take-all (k * 16) (all_blocks f xs)
              (omega (arith, length-on_blocks f keeps (length xs / 16) xs (omega arith))))
  ]

  pub drop-all_blocks :
      (a : ℕ) (xs : List ℕ)
      → a * 16 ≤ length xs
      → drop (a * 16) (all_blocks f xs) ≡ all_blocks f (drop (a * 16) xs)
  drop-all_blocks a xs h =
      let m : length xs / 16 ≡ a + (length xs / 16 - a) = omega arith in
      ap (λ j. drop (a * 16) (on_blocks f j xs)) m
      ∙ drop-on_blocks f keeps a (length xs / 16 - a) xs (omega arith)
      ∙ ap (λ j. on_blocks f j (drop (a * 16) xs))
          (let e : length xs / 16 - a ≡ length (drop (a * 16) xs) / 16 =
              omega (arith, length-drop (a * 16) xs) in
            e)

module _ (A : Aes) (ok : IsAes A) where
  -- Decrypting a front `s` of complete blocks, or of all there is, in a longer buffer.
  decrypt_front :
      (s tail : List ℕ)
      → decrypt_blocks A 0 (length s / 16) (s ++ tail)
        ≡ on_blocks (dec A ok) (length s / 16) s ++ tail
  decrypt_front s tail =
      decrypt_blocks_lem A ok 0 (length s / 16) (s ++ tail) (omega (arith, length-append s tail))
      ∙ on_blocks-append (dec A ok) (dec-KeepsBlock A ok) (length s / 16) s tail (omega arith)

  module _ (x rest : List ℕ) (start count pad : ℕ) (room : start ≤ length x)
      (whole : (start + count + pad) % 16 ≡ 0) where
    abbrev pub s1 : List ℕ
    s1 = take start x

    abbrev pub s2 : List ℕ
    s2 = take count (drop start x)

    abbrev pub s3 : List ℕ
    s3 = take pad (drop (start + count) x)

    abbrev total : List ℕ
    total = take (start + count + pad) x

    joined : s1 ++ (s2 ++ s3) ≡ total
    joined =
        sym (append_assoc (take start x) (take count (drop start x)) _)
        ∙ ap (λ l. l ++ take pad (drop (start + count) x)) (take-slice start count x)
        ∙ take-slice (start + count) pad x

    side : (length s2 ≡ count) ⊎ (s3 ≡ [])
    side = elim (dec_le (start + count) (length x)) [
      | yes p ↦ inl (omega (arith, length-take count (drop start x), length-drop start x))
      | no p ↦ inr (ap (λ l. take pad l) (drop-all (start + count) x (omega arith)) ∙ take-nil pad)
    ]

    plain : List ℕ
    plain = all_blocks (dec A ok) x

    length-plain : length plain ≡ length x
    unfolding plain
    length-plain = length-on_blocks (dec A ok) (dec-KeepsBlock A ok) (length x / 16) x (omega arith)

    decrypted_total :
        on_blocks (dec A ok) (length total / 16) total ≡ take (start + count + pad) plain
    unfolding plain
    decrypted_total =
        let m : start + count + pad ≡ (start + count + pad) / 16 * 16 = omega (arith, whole) in
        ap (λ k. on_blocks (dec A ok) (length (take k x) / 16) (take k x)) m
        ∙ take-all_blocks (dec A ok) (dec-KeepsBlock A ok) ((start + count + pad) / 16) x
        ∙ ap (λ k. take k (all_blocks (dec A ok) x)) (sym m)

    -- The part of the decrypted front that is copied out.
    cut_out :
        (tail : List ℕ)
        → slice start (length s2) (take (start + count + pad) plain ++ tail)
          ≡ slice start count plain
    cut_out tail =
        let m : ℕ = start + count + pad in
        let n : length s2 ≡ min count (length x - start) =
          omega (arith, length-take count (drop start x), length-drop start x) in
        ap (λ l. take (length s2) l)
          (drop-append_left start (take m plain) tail
            (omega (arith, length-take m plain, length-plain, room)))
        ∙ take-append_left (length s2) (drop start (take m plain)) tail
            (omega (arith, n, length-drop start (take m plain), length-take m plain, length-plain))
        ∙ ap (λ l. take (length s2) l) (drop-take start m plain (omega arith))
        ∙ take-take (length s2) (m - start) (drop start plain) (omega (arith, n))
        ∙ ap (λ k. take k (drop start plain))
            (omega (
              arith,
              n,
              length-take count (drop start plain),
              length-drop start plain,
              length-plain,
            ))
        ∙ take-min count (drop start plain)

    -- The bytes that `read` copies out of its buffer are the decrypted ones.
    pub copied :
        slice start (length s2) (
          decrypt_blocks A 0
            ((length s1 + length s2 + length s3) / 16)
            (write_at (start + count) s3 (write_at start s2 (write_at 0 s1 rest))))
        ≡ slice start count (all_blocks (dec A ok) x)
    unfolding plain
    copied =
        let e1 : length s1 ≡ start = omega (arith, length-take start x, room) in
        let (tail, laid) = pieces s1 s2 s3 rest start count e1 side in
        let size : length s1 + length s2 + length s3 ≡ length total =
          omega (arith, length-append s1 (s2 ++ s3), length-append s2 s3, ap length joined) in
        ap₂ (λ n l. slice start (length s2) (decrypt_blocks A 0 (n / 16) l)) size
          (laid ∙ ap (λ l. l ++ tail) joined)
        ∙ ap (λ l. slice start (length s2) l)
            (decrypt_front total tail ∙ ap (λ l. l ++ tail) decrypted_total)
        ∙ cut_out tail

  pub length-all_blocks : (xs : List ℕ) → length (all_blocks (dec A ok) xs) ≡ length xs
  length-all_blocks xs =
      length-on_blocks (dec A ok) (dec-KeepsBlock A ok) (length xs / 16) xs (omega arith)

  -- The three pieces that `read` asks a file for, at the offset `o`.
  module _ (file rest : List ℕ) (o count : ℕ) where
    abbrev pub before : List ℕ
    before = slice (o - o % 16) (o % 16) file

    abbrev pub wanted : List ℕ
    wanted = slice o count file

    abbrev pub behind : List ℕ
    behind = slice (o + count) (16 - (count + o) % 16) file

    -- What `read` copies out of the decrypted buffer.
    abbrev pub copy : List ℕ
    copy = slice (o % 16) (length wanted) (
        decrypt_blocks A 0 ((length before + length wanted + length behind) / 16)
          (write_at (o % 16 + count) behind (write_at (o % 16) wanted (write_at 0 before rest))))

    -- The bytes from the block on in which the offset lies.
    from_block : (n : ℕ) → drop (o + n) file ≡ drop (o % 16 + n) (drop (o / 16 * 16) file)
    from_block n =
        ap (λ k. drop k file) (omega arith) ∙ sym (drop-drop (o / 16 * 16) (o % 16 + n) file)

    copy_inside : o ≤ length file → copy ≡ slice o count (all_blocks (dec A ok) file)
    copy_inside inside =
        let x : List ℕ = drop (o / 16 * 16) file in
        let y : List ℕ = all_blocks (dec A ok) file in
        let p1 : before ≡ take (o % 16) x = ap (λ k. take (o % 16) (drop k file)) (omega arith) in
        let p2 : wanted ≡ take count (drop (o % 16) x) =
          ap (λ k. take count (drop k file)) (omega arith)
          ∙ ap (λ l. take count l) (from_block 0)
          ∙ ap (λ k. take count (drop k x)) (omega arith) in
        let p3 : behind ≡ take (16 - (count + o) % 16) (drop (o % 16 + count) x) =
          ap (λ l. take (16 - (count + o) % 16) l) (from_block count) in
        rw (p1, p2, p3)
          (copied x rest (o % 16) count (16 - (count + o) % 16)
              (omega (arith, length-drop (o / 16 * 16) file)) (omega arith)
            ∙ ap (λ l. take count (drop (o % 16) l))
                (sym (drop-all_blocks (dec A ok) (dec-KeepsBlock A ok) (o / 16) file (omega arith)))
            ∙ ap (λ l. take count l) (drop-drop (o / 16 * 16) (o % 16) y)
            ∙ ap (λ k. take count (drop k y)) (omega arith))

    -- The bytes that `read` copies out are those of the decrypted file at the offset.
    pub copy_lem : copy ≡ slice o count (all_blocks (dec A ok) file)
    copy_lem = elim (dec_le o (length file)) [
      | yes p ↦ copy_inside p
      | no p ↦
          take-of_zero (length wanted) _
            (omega (arith, length-take count (drop o file), length-drop o file))
          ∙ sym (take-nil count)
          ∙ ap (λ l. take count l)
              (sym
                (drop-all o (all_blocks (dec A ok) file) (omega (arith, length-all_blocks file))))
    ]
