-- ===== src/Text/Trim/Laws.antt =====
-- `trim` against a recursion that leaves the spaces out.
use tencryption.Prelude.{
  ℕ, zero, suc, ◌+◌, ◌<◌, ◌≡◌, ◌≢◌, refl, sym, ap, ◌∙◌, Option, some, List, [], ◌∷◌, ◌++◌, arith,
  length, get_or, set, ltb, lt→ltb, le→ltb, append-nil, if◌then◌else◌, true, Bool-cases, inl, inr,
  length-append, append_assoc,
}
use tencryption.Prelude.Text.{cstr, strlen, isspace}
use tencryption.Text.Trim.{trim_loop, trim}

-- The specification: the characters that are no spaces, in their order.
pub remove_spaces : List ℕ → List ℕ
remove_spaces [] = []
remove_spaces (c ∷ s) = if isspace c then remove_spaces s else c ∷ remove_spaces s

-- No byte is the NUL.
abbrev pub IsText : List ℕ → Type 0
IsText [] = Unit {0}
IsText (c ∷ s) = (c ≢ 0) × IsText s

IsText-append : (s t : List ℕ) → IsText s → IsText t → IsText (s ++ t)
IsText-append [] t hs ht = ht
IsText-append (c ∷ s) t hs ht = (hs.0, IsText-append s t hs.1 ht)

pub cstr-append : (s t : List ℕ) → IsText s → cstr (s ++ 0 ∷ t) ≡ s
cstr-append [] t h = refl
cstr-append (c ∷ s) t h = ground (arith, cstr-append s t h.1)

get_or-append : (s : List ℕ) (c : ℕ) (t : List ℕ) → get_or (s ++ c ∷ t) (length s) 0 ≡ c
get_or-append [] c t = refl
get_or-append (x ∷ s) c t = get_or-append s c t

set-append : (s : List ℕ) (c d : ℕ) (t : List ℕ) → set (s ++ c ∷ t) (length s) d ≡ s ++ d ∷ t
set-append [] c d t = refl
set-append (x ∷ s) c d t = ap (λ l. x ∷ l) (set-append s c d t)

-- What the loop promises of a result: it holds `kept`, then a NUL, and has the buffer's length.
record Trimmed (kept : List ℕ) (size : ℕ) (r : Option (List ℕ)) : Type 0 where
  buffer : List ℕ
  result : r ≡ some buffer
  text : cstr buffer ≡ kept
  same_size : length buffer ≡ size

-- The same run, its arguments written another way.
same_run :
    {kept kept' : List ℕ} {size size' i i' j j' : ℕ} {str str' : List ℕ} (fuel : ℕ)
    → kept' ≡ kept
    → size' ≡ size
    → i' ≡ i
    → j' ≡ j
    → str' ≡ str
    → Trimmed kept size (trim_loop fuel i j str)
    → Trimmed kept' size' (trim_loop fuel i' j' str')
same_run fuel ek en ei ej es h = rw (ek, en, ei, ej, es) h

-- The end of the loop: the NUL goes behind what was kept.
finish :
    (W M T : List ℕ)
    → IsText W
    → Trimmed W (length ((W ++ M) ++ 0 ∷ T)) (some (set ((W ++ M) ++ 0 ∷ T) (length W) 0))
finish W [] T hW =
    let e : (W ++ []) ++ 0 ∷ T ≡ W ++ 0 ∷ T = ap (λ l. l ++ 0 ∷ T) (append-nil W) in
    rw (e, set-append W 0 0 T)
      (record { buffer = W ++ 0 ∷ T; result = refl; text = cstr-append W T hW; same_size = refl })
finish W (m ∷ M) T hW =
    let e : (W ++ m ∷ M) ++ 0 ∷ T ≡ W ++ m ∷ (M ++ 0 ∷ T) = append_assoc W (m ∷ M) (0 ∷ T) in
    rw (e, set-append W m 0 (M ++ 0 ∷ T))
      (record {
        buffer = W ++ 0 ∷ (M ++ 0 ∷ T);
        result = refl;
        text = cstr-append W (M ++ 0 ∷ T) hW;
        same_size = length-append W (0 ∷ (M ++ 0 ∷ T)) ∙ sym (length-append W (m ∷ (M ++ 0 ∷ T)));
      })

snoc : (W M S : List ℕ) (c : ℕ) → (W ++ M) ++ c ∷ S ≡ (W ++ (M ++ c ∷ [])) ++ S
snoc W M S c =
    append_assoc W M (c ∷ S)
    ∙ ap (λ l. W ++ l) (sym (append_assoc M (c ∷ []) S))
    ∙ sym (append_assoc W (M ++ c ∷ []) S)

-- The gap after the character `c` has been moved to its front.
gap : List ℕ → ℕ → List ℕ
gap [] c = []
gap (m ∷ M) c = M ++ c ∷ []

gap-IsText : (M : List ℕ) (c : ℕ) → IsText M → c ≢ 0 → IsText (gap M c)
unfolding gap
gap-IsText [] c h nz = tt
gap-IsText (m ∷ M) c h nz = IsText-append M (c ∷ []) h.1 (nz, tt)

length-gap : (W M : List ℕ) (c : ℕ) → length (W ++ M) + 1 ≡ length ((W ++ c ∷ []) ++ gap M c)
unfolding gap
length-gap W [] c =
    omega (arith, length-append W [], length-append (W ++ c ∷ []) [], length-append W (c ∷ []))
length-gap W (m ∷ M) c = omega (
  arith,
  length-append W (m ∷ M),
  length-append (W ++ c ∷ []) (M ++ c ∷ []),
  length-append W (c ∷ []),
  length-append M (c ∷ []),
)

set-gap :
    (W M R : List ℕ) (c : ℕ)
    → set ((W ++ M) ++ c ∷ R) (length W) c ≡ ((W ++ c ∷ []) ++ gap M c) ++ R
unfolding gap
set-gap W [] R c =
    ap (λ l. set (l ++ c ∷ R) (length W) c) (append-nil W)
    ∙ set-append W c c R
    ∙ sym (append_assoc W (c ∷ []) R)
    ∙ ap (λ l. l ++ R) (sym (append-nil (W ++ c ∷ [])))
set-gap W (m ∷ M) R c =
    ap (λ l. set l (length W) c) (append_assoc W (m ∷ M) (c ∷ R))
    ∙ set-append W m c (M ++ c ∷ R)
    ∙ sym (append_assoc W (c ∷ []) (M ++ c ∷ R))
    ∙ ap (λ l. (W ++ c ∷ []) ++ l) (sym (append_assoc M (c ∷ []) R))
    ∙ sym (append_assoc (W ++ c ∷ []) (M ++ c ∷ []) R)

length-snoc : (W M : List ℕ) (c : ℕ) → length (W ++ M) + 1 ≡ length (W ++ (M ++ c ∷ []))
length-snoc W M c =
    omega (arith, length-append W M, length-append W (M ++ c ∷ []), length-append M (c ∷ []))

length-set : (s : List ℕ) (i d : ℕ) → length (set s i d) ≡ length s
length-set [] i d = refl
length-set (x ∷ s) zero d = refl
length-set (x ∷ s) (suc i) d = ap suc (length-set s i d)

-- The loop index is inside the text.
index_inside :
    (X S T : List ℕ) (c : ℕ)
    → IsText X
    → IsText (c ∷ S)
    → ltb (length X) (strlen (X ++ c ∷ (S ++ 0 ∷ T))) ≡ true
index_inside X S T c hX hS =
    let e : X ++ c ∷ (S ++ 0 ∷ T) ≡ (X ++ c ∷ S) ++ 0 ∷ T = sym (append_assoc X (c ∷ S) (0 ∷ T)) in
    let n : strlen (X ++ c ∷ (S ++ 0 ∷ T)) ≡ length (X ++ c ∷ S) =
      ap strlen e ∙ ap length (cstr-append (X ++ c ∷ S) T (IsText-append X (c ∷ S) hX hS)) in
    rw n (lt→ltb _ _ (omega (arith, length-append X (c ∷ S))))

-- The loop behind the kept `W`, the gap `M` and before the rest `S`.
loop_lem :
    (S W M T : List ℕ) (fuel : ℕ)
    → IsText W
    → IsText M
    → IsText S
    → length S < fuel
    → Trimmed
        (W ++ remove_spaces S)
        (length ((W ++ M) ++ (S ++ 0 ∷ T)))
        (trim_loop fuel (length (W ++ M)) (length W) ((W ++ M) ++ (S ++ 0 ∷ T)))
unfolding trim_loop remove_spaces
loop_lem S W M T zero hW hM hS h = elim h [ ]
loop_lem [] W M T (suc f) hW hM hS h =
    let e : strlen ((W ++ M) ++ 0 ∷ T) ≡ length (W ++ M) =
      ap length (cstr-append (W ++ M) T (IsText-append W M hW hM)) in
    rw (e, le→ltb (length (W ++ M)) (length (W ++ M)) (omega arith), append-nil W) (finish W M T hW)
loop_lem (c ∷ S) W M T (suc f) hW hM (nz, hS) h =
    rw
      (
        index_inside (W ++ M) S T c (IsText-append W M hW hM) (nz, hS),
        get_or-append (W ++ M) c (S ++ 0 ∷ T),
      )
      (elim (Bool-cases (isspace c)) [
        | inl space ↦ rw space (
            same_run f refl (ap length (snoc W M (S ++ 0 ∷ T) c)) (length-snoc W M c) refl
              (snoc W M (S ++ 0 ∷ T) c)
              (loop_lem S W (M ++ c ∷ []) T f hW (IsText-append M (c ∷ []) hM (nz, tt)) hS
                (omega arith)))
        | inr letter ↦ rw letter (
            same_run f (sym (append_assoc W (c ∷ []) (remove_spaces S)))
              (sym (length-set ((W ++ M) ++ c ∷ (S ++ 0 ∷ T)) (length W) c)
                ∙ ap length (set-gap W M (S ++ 0 ∷ T) c))
              (length-gap W M c) (sym (length-append W (c ∷ []))) (set-gap W M (S ++ 0 ∷ T) c)
              (loop_lem S (W ++ c ∷ []) (gap M c) T f (IsText-append W (c ∷ []) hW (nz, tt))
                (gap-IsText M c hM nz) hS (omega arith)))
      ])

-- In a buffer that holds the text `s`, a NUL and any bytes behind it, `trim` ends, keeps the
-- size, and leaves the text without its spaces.
pub trim_lem :
    (s rest : List ℕ)
    → IsText s
    → (buffer : List ℕ) × (trim (s ++ 0 ∷ rest) ≡ some buffer)
      × (cstr buffer ≡ remove_spaces s)
      × (length buffer ≡ length (s ++ 0 ∷ rest))
unfolding trim
trim_lem s rest h =
    let run : Trimmed (remove_spaces s) (length (s ++ 0 ∷ rest)) (trim (s ++ 0 ∷ rest)) =
      loop_lem s [] [] rest (suc (length (s ++ 0 ∷ rest))) tt tt h
        (omega (arith, length-append s (0 ∷ rest))) in
    (run.buffer, run.result, run.text, run.same_size)

remove_spaces_idem : (s : List ℕ) → remove_spaces (remove_spaces s) ≡ remove_spaces s
unfolding remove_spaces
remove_spaces_idem [] = refl
remove_spaces_idem (c ∷ s) = ground (arith, remove_spaces_idem s)
