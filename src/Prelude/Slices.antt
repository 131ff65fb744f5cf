-- ===== src/Prelude/Slices.antt =====
-- Byte buffers: reading a slice and overwriting a range.
use Prim.Native.Nat.{ℕ, zero, suc, ◌+◌, ◌-◌, ◌≤◌, ◌<◌}
use mathlib.Core.Path.{◌≡◌, refl, ap, ap₂, sym, ◌∙◌}
use mathlib.Core.List.{List, [], ◌∷◌, ◌++◌, append_assoc}
use native.Mathlib.Omega.{arith}
use tencryption.Prelude.Lists.{
  length, take, drop, replicate, length-append, length-take, length-drop, take-append-drop,
}

module _ {ℓ} {A : Type ℓ} where
  -- The `n` items from `o` on, fewer where the list ends.
  abbrev pub slice : ℕ → ℕ → List A → List A
  slice o n xs = take n (drop o xs)

  -- `memcpy(buf + o, bs, |bs|)`.
  unfoldable pub write_at : ℕ → List A → List A → List A
  write_at o bs buf = take o buf ++ (bs ++ drop (o + length bs) buf)

  pub take-append : (xs ys : List A) → take (length xs) (xs ++ ys) ≡ xs
  take-append [] ys = refl
  take-append (x ∷ xs) ys = ap (λ l. x ∷ l) (take-append xs ys)

  pub drop-append : (xs ys : List A) → drop (length xs) (xs ++ ys) ≡ ys
  drop-append [] ys = refl
  drop-append (x ∷ xs) ys = drop-append xs ys

  pub drop-nil : (n : ℕ) → drop {A = A} n [] ≡ []
  drop-nil zero = refl
  drop-nil (suc n) = refl

  pub take-nil : (n : ℕ) → take {A = A} n [] ≡ []
  take-nil zero = refl
  take-nil (suc n) = refl

module _ {ℓ} {A : Type ℓ} where
  pub take-all : (n : ℕ) (xs : List A) → length xs ≤ n → take n xs ≡ xs
  take-all zero [] h = refl
  take-all zero (x ∷ xs) h = absurd (omega arith)
  take-all (suc n) [] h = refl
  take-all (suc n) (x ∷ xs) h = ap (λ l. x ∷ l) (take-all n xs (omega arith))

  pub drop-all : (n : ℕ) (xs : List A) → length xs ≤ n → drop n xs ≡ []
  drop-all zero [] h = refl
  drop-all zero (x ∷ xs) h = absurd (omega arith)
  drop-all (suc n) [] h = refl
  drop-all (suc n) (x ∷ xs) h = drop-all n xs (omega arith)

  pub drop-drop : (n m : ℕ) (xs : List A) → drop m (drop n xs) ≡ drop (n + m) xs
  drop-drop zero m xs = ap (λ k. drop k xs) (omega arith)
  drop-drop (suc n) m [] = drop-nil m ∙ sym (drop-nil (suc n + m))
  drop-drop (suc n) m (x ∷ xs) =
      drop-drop n m xs
      ∙ ap (λ k. drop k (x ∷ xs)) (let e : suc (n + m) ≡ suc n + m = omega arith in e)

  -- Slices of a concatenation, by where they lie.
  pub take-append_left : (n : ℕ) (xs ys : List A) → n ≤ length xs → take n (xs ++ ys) ≡ take n xs
  take-append_left zero xs ys h = refl
  take-append_left (suc n) [] ys h = absurd (omega arith)
  take-append_left (suc n) (x ∷ xs) ys h = ap (λ l. x ∷ l) (take-append_left n xs ys (omega arith))

  pub drop-append_left :
      (n : ℕ) (xs ys : List A) → n ≤ length xs → drop n (xs ++ ys) ≡ drop n xs ++ ys
  drop-append_left zero xs ys h = refl
  drop-append_left (suc n) [] ys h = absurd (omega arith)
  drop-append_left (suc n) (x ∷ xs) ys h = drop-append_left n xs ys (omega arith)

  pub drop-append_right :
      (n : ℕ) (xs ys : List A) → length xs ≤ n → drop n (xs ++ ys) ≡ drop (n - length xs) ys
  drop-append_right n [] ys h = ap (λ k. drop k ys) (omega arith)
  drop-append_right zero (x ∷ xs) ys h = absurd (omega arith)
  drop-append_right (suc n) (x ∷ xs) ys h =
      drop-append_right n xs ys (omega arith) ∙ ap (λ k. drop k ys) (omega arith)

  pub take-append_right :
      (n : ℕ) (xs ys : List A) → length xs ≤ n → take n (xs ++ ys) ≡ xs ++ take (n - length xs) ys
  take-append_right n [] ys h = ap (λ k. take k ys) (omega arith)
  take-append_right zero (x ∷ xs) ys h = absurd (omega arith)
  take-append_right (suc n) (x ∷ xs) ys h =
      ap (λ l. x ∷ l)
        (take-append_right n xs ys (omega arith) ∙ ap (λ k. xs ++ take k ys) (omega arith))

  pub take-take : (n m : ℕ) (xs : List A) → n ≤ m → take n (take m xs) ≡ take n xs
  take-take zero m xs h = refl
  take-take (suc n) zero xs h = absurd (omega arith)
  take-take (suc n) (suc m) [] h = refl
  take-take (suc n) (suc m) (x ∷ xs) h = ap (λ l. x ∷ l) (take-take n m xs (omega arith))

  pub drop-take : (n m : ℕ) (xs : List A) → n ≤ m → drop n (take m xs) ≡ take (m - n) (drop n xs)
  drop-take zero m xs h = ap (λ k. take k xs) (omega arith)
  drop-take (suc n) zero xs h = absurd (omega arith)
  drop-take (suc n) (suc m) [] h = sym (take-nil (suc m - suc n))
  drop-take (suc n) (suc m) (x ∷ xs) h =
      drop-take n m xs (omega arith)
      ∙ ap (λ k. take k (drop n xs)) (let e : m - n ≡ suc m - suc n = omega arith in e)

  pub take-of_zero : (n : ℕ) (xs : List A) → n ≡ 0 → take n xs ≡ []
  take-of_zero n xs e = ap (λ k. take k xs) e

  -- Only as many items as there are.
  pub take-min : (n : ℕ) (xs : List A) → take (length (take n xs)) xs ≡ take n xs
  take-min zero xs = refl
  take-min (suc n) [] = refl
  take-min (suc n) (x ∷ xs) = ap (λ l. x ∷ l) (take-min n xs)

  pub take-slice : (n m : ℕ) (xs : List A) → take n xs ++ take m (drop n xs) ≡ take (n + m) xs
  take-slice zero m xs = ap (λ k. take k xs) (omega arith)
  take-slice (suc n) m [] = take-nil m ∙ sym (take-nil (suc n + m))
  take-slice (suc n) m (x ∷ xs) =
      ap (λ l. x ∷ l) (take-slice n m xs)
      ∙ ap (λ k. take k (x ∷ xs)) (let e : suc (n + m) ≡ suc n + m = omega arith in e)

module _ {ℓ} {A : Type ℓ} where
  pub take-append_of_length : (n : ℕ) (xs ys : List A) → length xs ≡ n → take n (xs ++ ys) ≡ xs
  take-append_of_length n xs ys e = ap (λ k. take k (xs ++ ys)) (sym e) ∙ take-append xs ys

  pub drop-append_of_length : (n : ℕ) (xs ys : List A) → length xs ≡ n → drop n (xs ++ ys) ≡ ys
  drop-append_of_length n xs ys e = ap (λ k. drop k (xs ++ ys)) (sym e) ∙ drop-append xs ys

module _ {ℓ} {A : Type ℓ} (o : ℕ) (bs buf : List A) (inside : o ≤ length buf) where
  o_eq : length (take o buf) ≡ o
  o_eq = omega (arith, length-take o buf)

  pub take-write_at : take (o + length bs) (write_at o bs buf) ≡ take o buf ++ bs
  unfolding write_at
  take-write_at =
      take-append_right (o + length bs) (take o buf) _ (omega (arith, o_eq))
      ∙ ap (λ k. take o buf ++ take k (bs ++ drop (o + length bs) buf)) (omega (arith, o_eq))
      ∙ ap (λ l. take o buf ++ l) (take-append bs (drop (o + length bs) buf))

  pub drop-write_at : drop (o + length bs) (write_at o bs buf) ≡ drop (o + length bs) buf
  unfolding write_at
  drop-write_at =
      drop-append_right (o + length bs) (take o buf) _ (omega (arith, o_eq))
      ∙ ap (λ k. drop k (bs ++ drop (o + length bs) buf)) (omega (arith, o_eq))
      ∙ drop-append bs (drop (o + length bs) buf)

  -- What lies before the written range stays.
  pub take-write_at_before : (k : ℕ) → k ≤ o → take k (write_at o bs buf) ≡ take k buf
  unfolding write_at
  take-write_at_before k h =
      take-append_left k (take o buf) _ (omega (arith, o_eq)) ∙ take-take k o buf h

  -- The written range reads back.
  pub slice-write_at_self : slice o (length bs) (write_at o bs buf) ≡ bs
  unfolding write_at
  slice-write_at_self =
      ap (λ l. take (length bs) l)
        (drop-append_right o (take o buf) _ (omega (arith, o_eq))
          ∙ ap (λ k. drop k (bs ++ drop (o + length bs) buf))
              (let e : o - length (take o buf) ≡ 0 = omega (arith, o_eq) in e))
      ∙ take-append bs (drop (o + length bs) buf)

  -- A range before the written one reads as it did.
  pub slice-write_at_before : (k n : ℕ) → k + n ≤ o → slice k n (write_at o bs buf) ≡ slice k n buf
  unfolding write_at
  slice-write_at_before k n h =
      let front : List A = take o buf in
      let room : n ≤ length (drop k front) = omega (arith, o_eq, length-drop k front) in
      ap (λ l. take n l) (drop-append_left k front _ (omega (arith, o_eq)))
      ∙ take-append_left n (drop k front) _ room
      ∙ sym (take-append_left n (drop k front) (drop o buf) room)
      ∙ ap (λ l. take n l)
          (sym (drop-append_left k front (drop o buf) (omega (arith, o_eq)))
            ∙ ap (λ l. drop k l) (take-append-drop o buf))

  pub length-write_at : o + length bs ≤ length buf → length (write_at o bs buf) ≡ length buf
  unfolding write_at
  length-write_at h = omega (
    arith,
    length-append (take o buf) (bs ++ drop (o + length bs) buf),
    length-append bs (drop (o + length bs) buf),
    length-drop (o + length bs) buf,
    o_eq,
  )

-- A write inside the front of a buffer leaves what is behind the front.
pub write_at-append {ℓ} :
    {A : Type ℓ} (o : ℕ) (bs xs ys : List A)
    → o + length bs ≤ length xs
    → write_at o bs (xs ++ ys) ≡ write_at o bs xs ++ ys
unfolding write_at
write_at-append o bs xs ys h =
    ap₂ (λ u v. u ++ (bs ++ v)) (take-append_left o xs ys (omega arith))
      (drop-append_left (o + length bs) xs ys h)
    ∙ sym (
        append_assoc (take o xs) (bs ++ drop (o + length bs) xs) ys
        ∙ ap (λ l. take o xs ++ l) (append_assoc bs (drop (o + length bs) xs) ys))

pub drop-replicate {ℓ} :
    {A : Type ℓ} (m n : ℕ) (a : A) → n < m → drop n (replicate m a) ≡ a ∷ replicate (m - suc n) a
unfolding replicate
drop-replicate zero n a h = absurd (omega (arith, h))
drop-replicate (suc m) zero a h = ap (λ k. a ∷ replicate k a) (omega arith)
drop-replicate (suc m) (suc n) a h =
    drop-replicate m n a (omega (arith, h)) ∙ ap (λ k. a ∷ replicate k a) (omega arith)
