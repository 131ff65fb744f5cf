-- ===== src/Usb/Laws.antt =====
-- `usb_connector_state` on a file system.
use tencryption.Prelude.{
  ℕ, suc, ◌+◌, ◌-◌, ◌<◌, ◌≡◌, ◌≢◌, refl, ap, ◌∙◌, true, some, [], ◌∷◌, ◌++◌, arith, length,
  replicate, drop, ne→==, eq→==, ==→eq, sym, ap₂, ◌↔◌, ◌⊎◌, inl, inr, Bool, false, ◌&&◌, ◌||◌, ◌==◌,
  Bool-cases, true-false,
}
use tencryption.Prelude.Int.{ℤ, pos}
use tencryption.Prelude.Text.{codes, cstr, strlen}
use tencryption.Prelude.Slices.{slice, write_at, take-all, drop-replicate}
use tencryption.Prelude.Exec.{◌>>=◌, ◌>>◌}
use tencryption.Detect.Laws.{is_pos-suc}
use tencryption.Files.{At, At-opened, At-moved, Posix, is_some}
use tencryption.Files.Same.{Same, Same-probe}
use tencryption.Platform.{Platform, Process, Bytes, o_rdonly}
use tencryption.Text.Trim.{trim}
use tencryption.Text.Trim.Laws.{IsText, remove_spaces, trim_lem}
use tencryption.Text.Search.{starts_with}
use mathlib.Core.Path.{subst}
use tencryption.Usb.{
  usb_state_path, usb_connector_state, state_result, usb_result_connected, usb_result_disconnected,
}

module _ (P : Platform) where
  state_run :
      (s : Process P.World) (buffer : Bytes) {n k : ℕ} {bytes trimmed : Bytes} {rc : ℤ}
      {w1 w2 w3 : P.World}
      → P.accessible usb_state_path s.world ≡ true
      → P.sys_open usb_state_path o_rdonly 0 s.world ≡ (pos (suc n), w1)
      → P.sys_read (pos (suc n)) 32 w1 ≡ ((pos (suc k), bytes), w2)
      → write_at 0 bytes (replicate 32 0) ≡ buffer
      → strlen buffer ≢ 32
      → trim buffer ≡ some trimmed
      → P.sys_close (pos (suc n)) w2 ≡ (rc, w3)
      → usb_connector_state P s ≡ some (state_result (cstr trimmed), record s { world = w3 })
  unfolding usb_connector_state
  state_run s buffer {n} {k} exists e1 e2 laid short e3 e4 =
      rw
        (
          exists,
          ◌>>=◌,
          e1,
          is_pos-suc n,
          ◌>>=◌,
          e2,
          is_pos-suc k,
          laid,
          ne→== (strlen buffer) 32 short,
          e3,
          ◌>>◌,
          ◌>>=◌,
          e1,
          e4,
        )
        refl

cstr-append : (text rest : Bytes) → IsText text → cstr (text ++ 0 ∷ rest) ≡ text
cstr-append [] rest h = refl
cstr-append (c ∷ text) rest (ne, h) = rw (ne→== c 0 ne) (ap (λ l. c ∷ l) (cstr-append text rest h))

buffer_of :
    (text : Bytes)
    → length text < 32
    → write_at 0 (slice 0 32 text) (replicate 32 0)
      ≡ text ++ 0 ∷ replicate (32 - suc (length text)) 0
unfolding write_at
buffer_of text short =
    ap (λ l. l ++ drop (0 + length l) (replicate 32 0)) (take-all 32 text (omega (arith, short)))
    ∙ ap (λ n. text ++ drop n (replicate 32 0)) (omega arith)
    ∙ ap (λ l. text ++ l) (drop-replicate 32 (length text) 0 short)

-- The text is a start of the value.
abbrev pub IsStart : Bytes → Bytes → Type 0
IsStart text value = (rest : Bytes) × (text ++ rest ≡ value)

starts_with-IsStart : (value text : Bytes) → starts_with value text ≡ true → IsStart text value
unfolding starts_with
starts_with-IsStart value [] h = (value, refl)
starts_with-IsStart [] (c ∷ text) h = absurd (true-false (sym h))
starts_with-IsStart (x ∷ value) (c ∷ text) h = elim (Bool-cases (x == c)) [
  | inl e ↦
      let (rest, same) =
        starts_with-IsStart value text (subst (λ b. (b && starts_with value text) ≡ true) e h) in
      (rest, ap₂ ◌∷◌ (sym (==→eq x c e)) same)
  | inr e ↦ absurd (true-false (sym (subst (λ b. (b && starts_with value text) ≡ true) e h)))
]

IsStart-start : (text rest : Bytes) → starts_with (text ++ rest) text ≡ true
unfolding starts_with
IsStart-start [] rest = refl
IsStart-start (c ∷ text) rest = rw (eq→== c c refl) (IsStart-start text rest)

or-true : (b : Bool) → (b || true) ≡ true
or-true true = refl
or-true false = refl

-- The start of one of the two states of a connection.
abbrev pub IsConnected : Bytes → Type 0
IsConnected text = IsStart text (codes "CONNECTED") ⊎ IsStart text (codes "CONFIGURED")

state_result-true :
    (text : Bytes)
    → (starts_with (codes "CONNECTED") text || starts_with (codes "CONFIGURED") text) ≡ true
    → IsConnected text
state_result-true text h = elim (Bool-cases (starts_with (codes "CONNECTED") text)) [
  | inl e ↦ inl (starts_with-IsStart (codes "CONNECTED") text e)
  | inr e ↦ inr (
      starts_with-IsStart (codes "CONFIGURED") text
        (subst (λ b. (b || starts_with (codes "CONFIGURED") text) ≡ true) e h))
]

IsConnected-true :
    (text : Bytes)
    → IsConnected text
    → (starts_with (codes "CONNECTED") text || starts_with (codes "CONFIGURED") text) ≡ true
IsConnected-true text (inl (rest, e)) =
    ap (λ b. b || starts_with (codes "CONFIGURED") text)
      (ap (λ v. starts_with v text) (sym e) ∙ IsStart-start text rest)
IsConnected-true text (inr (rest, e)) =
    ap (λ b. starts_with (codes "CONNECTED") text || b)
      (ap (λ v. starts_with v text) (sym e) ∙ IsStart-start text rest)
    ∙ or-true (starts_with (codes "CONNECTED") text)

-- What the result of the code says of the text.
abbrev pub Tells : Bytes → ℕ → Type 0
Tells text code =
    ((code ≡ usb_result_connected) ↔ IsConnected text)
    × ((code ≡ usb_result_connected) ⊎ (code ≡ usb_result_disconnected))

state_result-Tells : (text : Bytes) → Tells text (state_result text)
unfolding state_result
state_result-Tells text =
    elim (Bool-cases
      (starts_with (codes "CONNECTED") text || starts_with (codes "CONFIGURED") text)) [
        | inl e ↦ rw e ((λ same. state_result-true text e, λ yes. refl), inl refl)
        | inr e ↦ rw e (
          (
            λ same. absurd (omega (arith, same)),
            λ yes. absurd (true-false (sym (IsConnected-true text yes) ∙ e)),
          ),
          inr refl,
        )
      ]

counted : (text : Bytes) → 0 < length text → (k : ℕ) × (length text ≡ suc k)
counted [] h = absurd (omega (arith, h))
counted (c ∷ text) h = (length text, refl)

module _ (P : Platform) (px : Posix P) where
  -- `usb_connector_state` where the state file holds a text of 1 to 31 bytes without a NUL: it returns
  -- connected exactly if the text without its spaces is a start of CONNECTED or CONFIGURED,
  -- disconnected otherwise, and the files are as before.
  pub usb_connector_state_lem :
      (s : Process P.World) (text : Bytes) {i : ℕ}
      → (px.view s.world).resolve usb_state_path ≡ some i
      → (px.view s.world).content i ≡ text
      → IsText text
      → 0 < length text
      → length text < 32
      → (code : ℕ) × (w : P.World) × (usb_connector_state P s ≡ some (code, record s { world = w }))
        × Tells (remove_spaces text) code
        × Same (px.view s.world) (px.view w)
  unfolding is_some
  usb_connector_state_lem s text {i} found content is_text some_text short =
      let rest : Bytes = replicate (32 - suc (length text)) 0 in
      let (n, d, w1, e1, free, unused, v1) =
        px.open_lem usb_state_path o_rdonly 0 s.world found refl refl in
      let at1 : At (px.view w1) (pos (suc n)) d i 0 text =
        rw v1 (At-opened (px.view s.world) (pos (suc n)) d i o_rdonly content refl) in
      let (w2, e2, v2) = px.read_lem (pos (suc n)) 32 w1 at1 in
      let at2 : At (px.view w2) (pos (suc n)) d i (0 + length (slice 0 32 text)) text =
        rw v2 (At-moved (px.view w1) (pos (suc n)) _ at1) in
      let (w3, e3, v3) = px.close_lem (pos (suc n)) w2 at2.stands in
      let (k, size) = counted text some_text in
      let all : slice 0 32 text ≡ text = take-all 32 text (omega (arith, short)) in
      let (trimmed, e4, kept, same_size) = trim_lem text rest is_text in
      (
        state_result (remove_spaces text),
        w3,
        state_run P s (text ++ 0 ∷ rest) (px.access_lem usb_state_path s.world ∙ ap is_some found)
              e1 (e2 ∙ ap (λ m. ((pos m, slice 0 32 text), w2)) (ap length all ∙ size))
              (buffer_of text short)
              (λ e. absurd (omega (arith, e, ap length (cstr-append text rest is_text), short))) e4
              e3
            ∙ ap (λ l. some (state_result l, record s { world = w3 })) kept,
        state_result-Tells (remove_spaces text),
        rw (v3, v2, v1) (Same-probe (px.view s.world) (pos (suc n)) d i _ o_rdonly free unused),
      )
