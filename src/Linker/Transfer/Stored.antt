-- ===== src/Linker/Transfer/Stored.antt =====
-- How a plain content is stored: a header, and behind it the content with its complete blocks
-- encrypted. `read` and `write` against this view.
use tencryption.Prelude.{
  ℕ, ◌+◌, ◌-◌, ◌*◌, ◌/◌, ◌%◌, ◌≤◌, ◌≡◌, refl, sym, ap, ap₂, ◌∙◌, List, [], ◌++◌, take-append-drop,
  append_assoc, append-nil, arith, length, take, drop, length-append, length-take, length-drop,
  replicate, length-replicate,
}
use tencryption.Prelude.Slices.{
  slice, write_at, length-write_at, take-all, drop-all, drop-drop, take-append_left,
  drop-append_left, take-append_right, drop-append_right, drop-append_of_length,
}
use tencryption.Cipher.{Aes, IsAes, encrypt_blocks}
use tencryption.Cipher.Blocks.{
  KeepsBlock, on_blocks, all_blocks, enc, dec, enc-KeepsBlock, dec-KeepsBlock, encrypt_blocks_lem,
  length-on_blocks, on_blocks-on_blocks, decrypt-encrypt_128bit,
}
use tencryption.Linker.Transfer.Padding.{write-behind, take-all_blocks, drop-all_blocks}
use tencryption.Header.{header_size}
use tencryption.Platform.{Bytes}

module _ (f : List ℕ → List ℕ) (keeps : KeepsBlock f) where
  -- What is appended changes the blocks from the last complete one on.
  all_blocks-append :
      (n : ℕ) (xs ys : List ℕ)
      → n * 16 ≤ length xs
      → all_blocks f (xs ++ ys)
        ≡ take (n * 16) (all_blocks f xs) ++ all_blocks f (drop (n * 16) xs ++ ys)
  all_blocks-append n xs ys h =
      sym (take-append-drop (n * 16) (all_blocks f (xs ++ ys)))
      ∙ ap₂ (λ u v. u ++ v)
          (sym (take-all_blocks f keeps n (xs ++ ys))
            ∙ ap (all_blocks f) (take-append_left (n * 16) xs ys h)
            ∙ take-all_blocks f keeps n xs)
          (drop-all_blocks f keeps n (xs ++ ys) (omega (arith, length-append xs ys))
            ∙ ap (all_blocks f) (drop-append_left (n * 16) xs ys h))

-- The first bytes over the end of a file, then the others behind it.
write_at-end :
    (file temp : Bytes) (block start more : ℕ)
    → block + start ≡ length file
    → start + more ≡ length temp
    → write_at (block + start) (slice start more temp) (write_at block (take start temp) file)
      ≡ take block file ++ temp
write_at-end file temp block start more hf ht =
    let front : Bytes = take block file in
    let size : length front ≡ block = omega (arith, length-take block file) in
    let first : length (take start temp) ≡ start = omega (arith, length-take start temp) in
    ap (λ l. write_at (block + start) (slice start more temp) (write_at block (take start temp) l))
      (sym (take-append-drop block file))
    ∙ ap (λ l. write_at (block + start) (slice start more temp) l)
        (write-behind front (take start temp) (drop block file) block size
          ∙ ap (λ l. (front ++ take start temp) ++ l)
              (drop-all (length (take start temp)) (drop block file)
                (omega (arith, length-drop block file))))
    ∙ write-behind (front ++ take start temp) (slice start more temp) [] (block + start)
        (omega (arith, length-append front (take start temp)))
    ∙ ap (λ l. ((front ++ take start temp) ++ slice start more temp) ++ l)
        (drop-all (length (slice start more temp)) [] (omega arith))
    ∙ append-nil ((front ++ take start temp) ++ slice start more temp)
    ∙ append_assoc front (take start temp) (slice start more temp)
    ∙ ap (λ l. front ++ (take start temp ++ l))
        (take-all more (drop start temp) (omega (arith, length-drop start temp)))
    ∙ ap (λ l. front ++ l) (take-append-drop start temp)

module _ (A : Aes) (ok : IsAes A) where
  abbrev pub stored : Bytes → Bytes → Bytes
  stored header plain = header ++ all_blocks (enc A ok) plain

  length-stored : (plain : Bytes) → length (all_blocks (enc A ok) plain) ≡ length plain
  length-stored plain =
      length-on_blocks (enc A ok) (enc-KeepsBlock A ok) (length plain / 16) plain (omega arith)

  pub length-file :
      (header plain : Bytes)
      → length header ≡ header_size
      → length (stored header plain) ≡ header_size + length plain
  length-file header plain h =
      omega (arith, h, length-append header (all_blocks (enc A ok) plain), length-stored plain)

  -- Behind the header, decryption gives the plain content back.
  pub drop-stored :
      (header plain : Bytes)
      → length header ≡ header_size
      → drop header_size (all_blocks (dec A ok) (stored header plain)) ≡ plain
  drop-stored header plain h =
      let body : Bytes = all_blocks (enc A ok) plain in
      drop-all_blocks (dec A ok) (dec-KeepsBlock A ok) 256 (header ++ body)
        (omega (arith, length-append header body))
      ∙ ap (all_blocks (dec A ok)) (drop-append_of_length header_size header body h)
      ∙ ap (λ n. on_blocks (dec A ok) (n / 16) body) (length-stored plain)
      ∙ on_blocks-on_blocks (enc A ok) (dec A ok) (enc-KeepsBlock A ok)
          (decrypt-encrypt_128bit A ok) (length plain / 16) plain (omega arith)

  pub slice-stored :
      (header plain : Bytes) (k count : ℕ)
      → length header ≡ header_size
      → slice (header_size + k) count (all_blocks (dec A ok) (stored header plain))
        ≡ slice k count plain
  slice-stored header plain k count h = ap (take count) (
      sym (drop-drop header_size k (all_blocks (dec A ok) (stored header plain)))
      ∙ ap (drop k) (drop-stored header plain h))

  -- The buffer `temp` of `write`: the rest of the last block and the new bytes, encrypted.
  abbrev pub temp_from : ℕ → Bytes → Bytes → Bytes
  temp_from start bytes buf =
      encrypt_blocks A 0 ((length buf + start) / 16)
        (write_at start buf (write_at 0 bytes (replicate (length buf + start) 0)))

  abbrev pub temp_of : Bytes → Bytes → Bytes
  temp_of bytes buf = temp_from (length bytes) bytes buf

  temp_of_lem : (bytes buf : Bytes) → temp_of bytes buf ≡ all_blocks (enc A ok) (bytes ++ buf)
  temp_of_lem bytes buf =
      let zeros : Bytes = replicate (length buf + length bytes) 0 in
      let z : length zeros ≡ length buf + length bytes =
        length-replicate (length buf + length bytes) 0 in
      let n : ℕ = (length buf + length bytes) / 16 in
      let all : length (bytes ++ buf) ≡ length buf + length bytes =
        omega (arith, length-append bytes buf) in
      ap (λ l. encrypt_blocks A 0 n (write_at (length bytes) buf l))
        (write-behind [] bytes zeros 0 refl)
      ∙ ap (λ l. encrypt_blocks A 0 n l)
          (write-behind bytes buf (drop (length bytes) zeros) (length bytes) refl
            ∙ ap (λ l. (bytes ++ buf) ++ l)
                (drop-all (length buf) (drop (length bytes) zeros)
                  (omega (arith, length-drop (length bytes) zeros, z)))
            ∙ append-nil (bytes ++ buf))
      ∙ encrypt_blocks_lem A ok 0 n (bytes ++ buf) (omega (arith, all))
      ∙ ap (λ k. on_blocks (enc A ok) (k / 16) (bytes ++ buf)) (sym all)

  module _ (header plain buf : Bytes) (h : length header ≡ header_size) where
    -- The bytes of the last block, which is not complete.
    abbrev pub rest : Bytes
    rest = drop (length plain / 16 * 16) plain

    pub length-rest : length rest ≡ length plain % 16
    length-rest = omega (arith, length-drop (length plain / 16 * 16) plain)

    pub drop-blocks : drop (header_size + length plain / 16 * 16) (stored header plain) ≡ rest
    unfolding on_blocks
    drop-blocks =
        let body : Bytes = all_blocks (enc A ok) plain in
        drop-append_right (header_size + length plain / 16 * 16) header body (omega (arith, h))
        ∙ ap (λ k. drop k body) (omega (arith, h))
        ∙ drop-all_blocks (enc A ok) (enc-KeepsBlock A ok) (length plain / 16) plain (omega arith)
        ∙ ap (λ n. on_blocks (enc A ok) n rest)
            (let e : length rest / 16 ≡ 0 = omega (arith, length-rest) in e)

    take-blocks :
        take (header_size + length plain / 16 * 16) (stored header plain)
        ≡ header ++ take (length plain / 16 * 16) (all_blocks (enc A ok) plain)
    take-blocks =
        let body : Bytes = all_blocks (enc A ok) plain in
        take-append_right (header_size + length plain / 16 * 16) header body (omega (arith, h))
        ∙ ap (λ k. header ++ take k body) (omega (arith, h))

    -- The two writes of `write` at the end of a stored content append to it.
    pub stored-append :
        write_at
          (header_size + length plain)
          (slice (length rest) (length buf) (temp_of rest buf))
          (write_at
            (header_size + length plain / 16 * 16)
            (take (length rest) (temp_of rest buf))
            (stored header plain))
        ≡ stored header (plain ++ buf)
    stored-append =
        let block : ℕ = header_size + length plain / 16 * 16 in
        let temp : Bytes = temp_of rest buf in
        let size : length temp ≡ length rest + length buf =
          ap length (temp_of_lem rest buf) ∙ length-stored (rest ++ buf) ∙ length-append rest buf in
        let split : header_size + length plain ≡ block + length rest = omega (arith, length-rest) in
        ap
          (λ o.
            write_at o (slice (length rest) (length buf) temp)
              (write_at block (take (length rest) temp) (stored header plain)))
          split
        ∙ write_at-end (stored header plain) temp block (length rest) (length buf)
            (omega (
              arith,
              split,
              h,
              length-append header (all_blocks (enc A ok) plain),
              length-stored plain,
            ))
            (sym size)
        ∙ ap₂ (λ u v. u ++ v) take-blocks (temp_of_lem rest buf)
        ∙ append_assoc header (take (length plain / 16 * 16) (all_blocks (enc A ok) plain))
            (all_blocks (enc A ok) (rest ++ buf))
        ∙ ap (λ l. header ++ l)
            (sym (
              all_blocks-append (enc A ok) (enc-KeepsBlock A ok) (length plain / 16) plain buf
                (omega arith)))

    -- The same with the numbers that the code computes from the position at the end.
    abbrev pub end : ℕ
    end = header_size + length plain

    abbrev pub file : Bytes
    file = stored header plain

    abbrev pub last_bytes : Bytes
    last_bytes = slice (end - end % 16) (end % 16) file

    abbrev pub temp : Bytes
    temp = temp_from (end % 16) last_bytes buf

    start_eq : end % 16 ≡ length rest
    start_eq = omega (arith, length-rest)

    block_eq : end - end % 16 ≡ header_size + length plain / 16 * 16
    block_eq = omega arith

    last_bytes_eq : last_bytes ≡ rest
    last_bytes_eq =
        ap (λ k. take (end % 16) (drop k file)) block_eq
        ∙ ap (take (end % 16)) drop-blocks
        ∙ take-all (end % 16) rest (omega (arith, start_eq))

    temp_eq : temp ≡ temp_of rest buf
    temp_eq = ap₂ (λ k l. temp_from k l buf) start_eq last_bytes_eq

    length-temp : length temp ≡ end % 16 + length buf
    length-temp =
        ap length (temp_eq ∙ temp_of_lem rest buf)
        ∙ length-stored (rest ++ buf)
        ∙ length-append rest buf
        ∙ ap (λ k. k + length buf) (sym start_eq)

    pub length-new_bytes : length (slice (end % 16) (length buf) temp) ≡ length buf
    length-new_bytes = omega (
      arith,
      length-temp,
      length-take (length buf) (drop (end % 16) temp),
      length-drop (end % 16) temp,
    )

    pub end-inside : end ≤ length (write_at (end - end % 16) (take (end % 16) temp) file)
    end-inside =
        let size : length (take (end % 16) temp) ≡ end % 16 =
          omega (arith, length-temp, length-take (end % 16) temp) in
        let whole : length file ≡ end = length-file header plain h in
        omega (
          arith,
          length-write_at (end - end % 16) (take (end % 16) temp) file (omega (arith, whole))
              (omega (arith, size, whole)),
          whole,
        )

    pub written :
        write_at end
          (slice (end % 16) (length buf) temp)
          (write_at (end - end % 16) (take (end % 16) temp) file)
        ≡ stored header (plain ++ buf)
    written =
        ap₂ (λ k b. write_at end (slice k (length buf) temp) (write_at b (take k temp) file))
          start_eq block_eq
        ∙ ap
            (λ t.
              write_at end (slice (length rest) (length buf) t)
                (write_at (header_size + length plain / 16 * 16) (take (length rest) t) file))
            temp_eq
        ∙ stored-append
