-- ===== src/Prelude/Nth.antt =====
-- Items of a list by their index, and ranges of indices on which two lists agree.
use Prim.Native.Nat.{ℕ, zero, suc, ◌+◌, ◌-◌, ◌≤◌, ◌<◌}
use native.Mathlib.Decide.{dec_lt}
use mathlib.Core.Path.{◌≡◌, refl, ap, ◌∙◌}
use mathlib.Core.List.{List, [], ◌∷◌, ◌++◌}
use native.Mathlib.Omega.{arith}
use tencryption.Prelude.Lists.{length, get_or, take, drop, replicate, length-take}
use tencryption.Prelude.Slices.{slice, write_at}

module _ {ℓ} {A : Type ℓ} (d : A) where
  pub get_or-ext :
      (xs ys : List A)
      → length xs ≡ length ys
      → ((k : ℕ) → k < length xs → get_or xs k d ≡ get_or ys k d)
      → xs ≡ ys
  get_or-ext [] [] e h = refl
  get_or-ext [] (y ∷ ys) e h = absurd (omega (arith, e))
  get_or-ext (x ∷ xs) [] e h = absurd (omega (arith, e))
  get_or-ext (x ∷ xs) (y ∷ ys) e h =
      ap (λ z. z ∷ xs) (h 0 (omega arith))
      ∙ ap (λ l. y ∷ l) (get_or-ext xs ys (omega (arith, e)) (λ k b. h (suc k) (omega (arith, b))))

  pub get_or-append_left :
      (xs ys : List A) (k : ℕ) → k < length xs → get_or (xs ++ ys) k d ≡ get_or xs k d
  get_or-append_left [] ys k h = absurd (omega (arith, h))
  get_or-append_left (x ∷ xs) ys zero h = refl
  get_or-append_left (x ∷ xs) ys (suc k) h = get_or-append_left xs ys k (omega (arith, h))

  pub get_or-append_right :
      (xs ys : List A) (k : ℕ) → length xs ≤ k → get_or (xs ++ ys) k d ≡ get_or ys (k - length xs) d
  get_or-append_right [] ys k h = ap (λ n. get_or ys n d) (omega arith)
  get_or-append_right (x ∷ xs) ys zero h = absurd (omega (arith, h))
  get_or-append_right (x ∷ xs) ys (suc k) h =
      get_or-append_right xs ys k (omega (arith, h)) ∙ ap (λ n. get_or ys n d) (omega arith)

  pub get_or-take : (n : ℕ) (xs : List A) (k : ℕ) → k < n → get_or (take n xs) k d ≡ get_or xs k d
  get_or-take zero xs k h = absurd (omega (arith, h))
  get_or-take (suc n) [] k h = refl
  get_or-take (suc n) (x ∷ xs) zero h = refl
  get_or-take (suc n) (x ∷ xs) (suc k) h = get_or-take n xs k (omega (arith, h))

  pub get_or-drop : (n : ℕ) (xs : List A) (k : ℕ) → get_or (drop n xs) k d ≡ get_or xs (n + k) d
  get_or-drop zero xs k = ap (λ j. get_or xs j d) (omega arith)
  get_or-drop (suc n) [] k = refl
  get_or-drop (suc n) (x ∷ xs) k =
      get_or-drop n xs k
      ∙ ap (λ j. get_or (x ∷ xs) j d) (let e : suc (n + k) ≡ suc n + k = omega arith in e)

  pub get_or-replicate : (n k : ℕ) → get_or (replicate n d) k d ≡ d
  unfolding replicate
  get_or-replicate zero k = refl
  get_or-replicate (suc n) zero = refl
  get_or-replicate (suc n) (suc k) = get_or-replicate n k

  -- A write is seen in its range, and nowhere else.
  pub get_or-write_at :
      (o : ℕ) (bs xs : List A) (k : ℕ)
      → o ≤ length xs
      → o ≤ k
      → k < o + length bs
      → get_or (write_at o bs xs) k d ≡ get_or bs (k - o) d
  unfolding write_at
  get_or-write_at o bs xs k inside low high =
      let front : length (take o xs) ≡ o = omega (arith, length-take o xs) in
      get_or-append_right (take o xs) (bs ++ drop (o + length bs) xs) k (omega (arith, front))
      ∙ ap (λ n. get_or (bs ++ drop (o + length bs) xs) n d) (omega (arith, front))
      ∙ get_or-append_left bs (drop (o + length bs) xs) (k - o) (omega (arith, low, high))

  pub get_or-write_at_below :
      (o : ℕ) (bs xs : List A) (k : ℕ)
      → o ≤ length xs
      → k < o
      → get_or (write_at o bs xs) k d ≡ get_or xs k d
  unfolding write_at
  get_or-write_at_below o bs xs k inside low =
      get_or-append_left (take o xs) (bs ++ drop (o + length bs) xs) k
        (omega (arith, inside, low, length-take o xs))
      ∙ get_or-take o xs k low

  pub get_or-write_at_above :
      (o : ℕ) (bs xs : List A) (k : ℕ)
      → o ≤ length xs
      → o + length bs ≤ k
      → get_or (write_at o bs xs) k d ≡ get_or xs k d
  unfolding write_at
  get_or-write_at_above o bs xs k inside high =
      let front : length (take o xs) ≡ o = omega (arith, length-take o xs) in
      let n : ℕ = o + length bs in
      get_or-append_right (take o xs) (bs ++ drop n xs) k (omega (arith, front, high))
      ∙ get_or-append_right bs (drop n xs) (k - length (take o xs)) (omega (arith, front, high))
      ∙ get_or-drop n xs (k - length (take o xs) - length bs)
      ∙ ap (λ j. get_or xs j d) (omega (arith, front, high))

  -- The lists agree at the indices from `low` on and below `high`.
  abbrev pub Agrees : List A → List A → ℕ → ℕ → Type ℓ
  Agrees xs ys low high = (k : ℕ) → low ≤ k → k < high → get_or xs k d ≡ get_or ys k d

  -- A write of what another list has there.
  module _ (o n : ℕ) (xs ys : List A) (inside : o ≤ length xs) where
    pub Agrees-written :
        length (slice o n ys) ≡ n → Agrees (write_at o (slice o n ys) xs) ys o (o + n)
    Agrees-written whole k low high =
        get_or-write_at o (slice o n ys) xs k inside low (omega (arith, whole, high))
        ∙ get_or-take n (drop o ys) (k - o) (omega (arith, low, high))
        ∙ get_or-drop o ys (k - o)
        ∙ ap (λ j. get_or ys j d) (omega (arith, low))

    pub Agrees-write :
        {low high : ℕ}
        → length (slice o n ys) ≡ n
        → Agrees xs ys low high
        → Agrees (write_at o (slice o n ys) xs) ys low high
    Agrees-write whole h k l u = elim (dec_lt k o) [
      | yes below ↦ get_or-write_at_below o (slice o n ys) xs k inside below ∙ h k l u
      | no b ↦ elim (dec_lt k (o + n)) [
        | yes i ↦ Agrees-written whole k (omega (arith, b)) i
        | no a ↦
            get_or-write_at_above o (slice o n ys) xs k inside (omega (arith, a, whole)) ∙ h k l u
      ]
    ]

  pub Agrees-join :
      (xs ys : List A) {low mid high : ℕ}
      → Agrees xs ys low mid
      → Agrees xs ys mid high
      → Agrees xs ys low high
  Agrees-join xs ys {mid = mid} p q k l u = elim (dec_lt k mid) [
    | yes b ↦ p k l b
    | no b ↦ q k (omega (arith, b)) u
  ]
