-- ===== src/Cipher/Blocks.antt =====
-- The block loops against a recursion on the blocks: encryption round trip and slices.
use tencryption.Prelude.{
  ℕ, zero, suc, ◌+◌, ◌-◌, ◌*◌, ◌/◌, ◌≤◌, ◌≡◌, refl, sym, ap, ap₂, ◌∙◌, List, ◌++◌, append_assoc,
  arith, length, take, drop, length-append, length-take, length-drop, take-append-drop,
}
use tencryption.Prelude.Slices.{
  write_at, take-append_right, take-take, drop-take, take-append_left, drop-append_left,
  drop-append_right, drop-drop, take-append_of_length, drop-append_of_length, take-write_at,
  drop-write_at, length-write_at,
}
use tencryption.Cipher.{
  Aes, IsAes, aes_encrypt_128bit, aes_decrypt_128bit, crypt_block, crypt_loop, encrypt_blocks,
  decrypt_blocks,
}

-- The specification: `f` on the first `n` blocks of 16, and the rest as it is.
unfoldable pub on_blocks : (List ℕ → List ℕ) → ℕ → List ℕ → List ℕ
on_blocks f zero xs = xs
on_blocks f (suc n) xs = f (take 16 xs) ++ on_blocks f n (drop 16 xs)

abbrev pub KeepsBlock : (List ℕ → List ℕ) → Type 0
KeepsBlock f = (b : List ℕ) → length b ≡ 16 → length (f b) ≡ 16

module _ (f : List ℕ → List ℕ) (keeps : KeepsBlock f) where
  first_block : (xs : List ℕ) → 16 ≤ length xs → length (f (take 16 xs)) ≡ 16
  first_block xs h = keeps (take 16 xs) (omega (arith, length-take 16 xs))

  pub length-on_blocks :
      (n : ℕ) (xs : List ℕ) → n * 16 ≤ length xs → length (on_blocks f n xs) ≡ length xs
  unfolding on_blocks
  length-on_blocks zero xs h = refl
  length-on_blocks (suc n) xs h = omega (
    arith,
    length-append (f (take 16 xs)) (on_blocks f n (drop 16 xs)),
    first_block xs (omega arith),
    length-on_blocks n (drop 16 xs) (omega (arith, length-drop 16 xs)),
    length-drop 16 xs,
  )

  -- Past the blocks nothing changes.
  pub on_blocks-append :
      (n : ℕ) (xs ys : List ℕ)
      → n * 16 ≤ length xs
      → on_blocks f n (xs ++ ys) ≡ on_blocks f n xs ++ ys
  unfolding on_blocks
  on_blocks-append zero xs ys h = refl
  on_blocks-append (suc n) xs ys h =
      ap₂ (λ a b. f a ++ on_blocks f n b) (take-append_left 16 xs ys (omega arith))
        (drop-append_left 16 xs ys (omega arith))
      ∙ ap (λ l. f (take 16 xs) ++ l)
          (on_blocks-append n (drop 16 xs) ys (omega (arith, length-drop 16 xs)))
      ∙ sym (append_assoc (f (take 16 xs)) (on_blocks f n (drop 16 xs)) ys)

  -- Behind `a` blocks the first `a + n` blocks are `n` blocks.
  pub drop-on_blocks :
      (a n : ℕ) (xs : List ℕ)
      → (a + n) * 16 ≤ length xs
      → drop (a * 16) (on_blocks f (a + n) xs) ≡ on_blocks f n (drop (a * 16) xs)
  unfolding on_blocks
  drop-on_blocks zero n xs h = ap (λ k. on_blocks f k xs) (omega arith)
  drop-on_blocks (suc a) n xs h =
      let shape : suc a + n ≡ suc (a + n) = omega arith in
      ap (λ k. drop (suc a * 16) (on_blocks f k xs)) shape
      ∙ ap (λ k. drop k (f (take 16 xs) ++ on_blocks f (a + n) (drop 16 xs)))
          (let e : suc a * 16 ≡ 16 + a * 16 = omega arith in e)
      ∙ drop-append_right (16 + a * 16) (f (take 16 xs)) _
          (omega (arith, first_block xs (omega arith)))
      ∙ ap (λ k. drop k (on_blocks f (a + n) (drop 16 xs)))
          (omega (arith, first_block xs (omega arith)))
      ∙ drop-on_blocks a n (drop 16 xs) (omega (arith, length-drop 16 xs))
      ∙ ap (λ l. on_blocks f n l)
          (drop-drop 16 (a * 16) xs
            ∙ ap (λ k. drop k xs) (let e : 16 + a * 16 ≡ suc a * 16 = omega arith in e))

-- A block function undone block by block.
pub on_blocks-on_blocks :
    (f g : List ℕ → List ℕ)
    → KeepsBlock f
    → ((b : List ℕ) → length b ≡ 16 → g (f b) ≡ b)
    → (n : ℕ) (xs : List ℕ) → n * 16 ≤ length xs
    → on_blocks g n (on_blocks f n xs) ≡ xs
unfolding on_blocks
on_blocks-on_blocks f g keeps undo zero xs h = refl
on_blocks-on_blocks f g keeps undo (suc n) xs h =
    let b : List ℕ = f (take 16 xs) in
    let rest : List ℕ = on_blocks f n (drop 16 xs) in
    let e : length b ≡ 16 = first_block f keeps xs (omega arith) in
    let t : take 16 (b ++ rest) ≡ b = take-append_of_length 16 b rest e in
    let d : drop 16 (b ++ rest) ≡ rest = drop-append_of_length 16 b rest e in
    ap₂ (λ u v. g u ++ on_blocks g n v) t d
    ∙ ap₂ (λ u v. u ++ v) (undo (take 16 xs) (omega (arith, length-take 16 xs)))
        (on_blocks-on_blocks f g keeps undo n (drop 16 xs) (omega (arith, length-drop 16 xs)))
    ∙ take-append-drop 16 xs

module _ (f : List ℕ → List ℕ → List ℕ) (keeps : KeepsBlock (λ b. f b b)) (base : ℕ) where
  -- The loop over the buffer in place is the recursion on the blocks behind its start.
  crypt_loop_lem :
      (n i : ℕ) (buf : List ℕ)
      → base + (i + n) * 16 ≤ length buf
      → crypt_loop f base n i buf
        ≡ take (base + i * 16) buf ++ on_blocks (λ b. f b b) n (drop (base + i * 16) buf)
  unfolding crypt_loop crypt_block on_blocks
  crypt_loop_lem zero i buf h = sym (take-append-drop (base + i * 16) buf)
  crypt_loop_lem (suc n) i buf h =
      let o : ℕ = base + i * 16 in
      let block : List ℕ = take 16 (drop o buf) in
      let out : List ℕ = f block block in
      let next : List ℕ = write_at o out buf in
      let room : o + 16 ≤ length buf = omega arith in
      let e : length out ≡ 16 =
        keeps block (omega (arith, length-take 16 (drop o buf), length-drop o buf)) in
      let o' : base + (i + 1) * 16 ≡ o + length out = omega arith in
      crypt_loop_lem n (i + 1) next
        (omega (arith, length-write_at o out buf (omega arith) (omega arith)))
      ∙ ap (λ k. take k next ++ on_blocks (λ b. f b b) n (drop k next)) o'
      ∙ ap₂ (λ u v. u ++ on_blocks (λ b. f b b) n v) (take-write_at o out buf (omega arith))
          (drop-write_at o out buf (omega arith)
            ∙ sym (drop-drop o (length out) buf)
            ∙ ap (λ k. drop k (drop o buf)) e)
      ∙ append_assoc (take o buf) out (on_blocks (λ b. f b b) n (drop 16 (drop o buf)))

module _ (A : Aes) (ok : IsAes A) where
  -- Encryption and decryption of one block in place.
  abbrev pub enc : List ℕ → List ℕ
  enc b = aes_encrypt_128bit A b b

  abbrev pub dec : List ℕ → List ℕ
  dec b = aes_decrypt_128bit A b b

  pub enc-KeepsBlock : KeepsBlock enc
  unfolding aes_encrypt_128bit
  enc-KeepsBlock b h = rw ok.encrypt_key_ok (ok.length-encrypt _ b h)

  pub dec-KeepsBlock : KeepsBlock dec
  unfolding aes_decrypt_128bit
  dec-KeepsBlock b h = rw ok.decrypt_key_ok (ok.length-decrypt _ b h)

  -- A block of 16 bytes that is encrypted in place and then decrypted in place is as before.
  pub decrypt-encrypt_128bit : (b : List ℕ) → length b ≡ 16 → dec (enc b) ≡ b
  unfolding aes_encrypt_128bit aes_decrypt_128bit
  decrypt-encrypt_128bit b h = rw (ok.encrypt_key_ok, ok.decrypt_key_ok) (ok.decrypt-encrypt b h)

  pub encrypt_blocks_lem :
      (base n : ℕ) (buf : List ℕ)
      → base + n * 16 ≤ length buf
      → encrypt_blocks A base n buf ≡ take base buf ++ on_blocks enc n (drop base buf)
  unfolding encrypt_blocks
  encrypt_blocks_lem base n buf h =
      crypt_loop_lem (aes_encrypt_128bit A) enc-KeepsBlock base n 0 buf (omega arith)
      ∙ ap (λ k. take k buf ++ on_blocks enc n (drop k buf)) (omega arith)

  pub decrypt_blocks_lem :
      (base n : ℕ) (buf : List ℕ)
      → base + n * 16 ≤ length buf
      → decrypt_blocks A base n buf ≡ take base buf ++ on_blocks dec n (drop base buf)
  unfolding decrypt_blocks
  decrypt_blocks_lem base n buf h =
      crypt_loop_lem (aes_decrypt_128bit A) dec-KeepsBlock base n 0 buf (omega arith)
      ∙ ap (λ k. take k buf ++ on_blocks dec n (drop k buf)) (omega arith)

  -- The decryption loop undoes the encryption loop over the same blocks of a buffer, and the
  -- bytes before and behind the blocks come back too.
  pub decrypt_blocks-encrypt_blocks :
      (base n : ℕ) (buf : List ℕ)
      → base + n * 16 ≤ length buf
      → decrypt_blocks A base n (encrypt_blocks A base n buf) ≡ buf
  decrypt_blocks-encrypt_blocks base n buf h =
      let rest : List ℕ = drop base buf in
      let head : List ℕ = take base buf in
      let room : n * 16 ≤ length rest = omega (arith, length-drop base buf) in
      let size : length head ≡ base = omega (arith, length-take base buf) in
      let body : List ℕ = on_blocks enc n rest in
      let kept : length body ≡ length rest = length-on_blocks enc enc-KeepsBlock n rest room in
      ap (λ l. decrypt_blocks A base n l) (encrypt_blocks_lem base n buf h)
      ∙ decrypt_blocks_lem base n (head ++ body) (omega (arith, length-append head body))
      ∙ ap₂ (λ u v. u ++ on_blocks dec n v) (take-append_of_length base head body size)
          (drop-append_of_length base head body size)
      ∙ ap (λ l. head ++ l)
          (on_blocks-on_blocks enc dec enc-KeepsBlock decrypt-encrypt_128bit n rest room)
      ∙ take-append-drop base buf

module _ (f : List ℕ → List ℕ) (keeps : KeepsBlock f) where
  -- The first `k` of more blocks.
  pub take-on_blocks :
      (k m : ℕ) (xs : List ℕ)
      → (k + m) * 16 ≤ length xs
      → take (k * 16) (on_blocks f (k + m) xs) ≡ on_blocks f k (take (k * 16) xs)
  unfolding on_blocks
  take-on_blocks zero m xs h = refl
  take-on_blocks (suc k) m xs h =
      let b : List ℕ = f (take 16 xs) in
      let e : length b ≡ 16 = first_block f keeps xs (omega arith) in
      let shape : suc k + m ≡ suc (k + m) = omega arith in
      let more : suc k * 16 ≡ 16 + k * 16 = omega arith in
      ap (λ j. take (suc k * 16) (on_blocks f j xs)) shape
      ∙ ap (λ j. take j (b ++ on_blocks f (k + m) (drop 16 xs))) more
      ∙ take-append_right (16 + k * 16) b _ (omega (arith, e))
      ∙ ap (λ j. b ++ take j (on_blocks f (k + m) (drop 16 xs))) (omega (arith, e))
      ∙ ap (λ l. b ++ l) (take-on_blocks k m (drop 16 xs) (omega (arith, length-drop 16 xs)))
      ∙ ap₂ (λ u v. f u ++ on_blocks f k v) (sym (take-take 16 (suc k * 16) xs (omega arith)))
          (ap (λ j. take j (drop 16 xs)) (let z : k * 16 ≡ suc k * 16 - 16 = omega arith in z)
            ∙ sym (drop-take 16 (suc k * 16) xs (omega arith)))

-- A whole content read block by block: the blocks that are complete.
module _ (f : List ℕ → List ℕ) where
  abbrev pub all_blocks : List ℕ → List ℕ
  all_blocks xs = on_blocks f (length xs / 16) xs
