-- ===== src/Daemon/Laws.antt =====
-- `handle_request` by the number of fields in the request.
use tencryption.Prelude.{
  ℕ, suc, ◌<◌, ◌≡◌, refl, ap, ◌⊎◌, inl, inr, Bool, true, false, ◌&&◌, ◌||◌, not, none, some, [],
  ◌∷◌, ◌++◌, arith, leb, ◌==◌, if◌then◌else◌, Bool-cases, ne→==, le→leb,
}
use tencryption.Prelude.Int.{ℤ, pos, eqb_ℤ}
use tencryption.Prelude.Exec.{◌>>=◌, ◌>>◌}
use tencryption.Prelude.Slices.{write_at}
use tencryption.Platform.{Platform, Bytes}
use tencryption.Detect.Laws.{is_pos-suc}
use tencryption.Text.Trim.Laws.{IsText}
use tencryption.Text.Number.{atoi}
use tencryption.Daemon.{
  convert_command, command_package_size, char_value, token_in, strtok_in, field, convert_request,
  convert_file_descriptor_to_file_path, switch_command, handle_request,
}

-- The number of fields between commas, an empty one not counted; `inside` a field or not.
unfoldable pub fields : Bool → Bytes → ℕ
fields inside [] = 0
fields inside (c ∷ text) =
    if c == b','
    then fields false text
    else if inside
    then fields true text
    else suc (fields true text)

token_in_lem :
    (text rest : Bytes)
    → IsText text
    → (token : Bytes) × (text' : Bytes) × (token_in b',' (text ++ 0 ∷ rest)
        ≡ some (token, text' ++ 0 ∷ rest))
      × (fields true text ≡ fields false text')
      × IsText text'
unfolding token_in fields
token_in_lem [] rest h = ([], [], refl, refl, tt)
token_in_lem (c ∷ text) rest (ne, h) = elim (Bool-cases (c == b',')) [
  | inl e ↦ ([], text, rw (ne→== c 0 ne, e) refl, rw e refl, h)
  | inr e ↦
      let (token, text', run, same, h') = token_in_lem text rest h in
      (c ∷ token, text', rw (ne→== c 0 ne, e, run) refl, rw e same, h')
]

strtok_in_lem :
    (text rest : Bytes)
    → IsText text
    → ((fields false text ≡ 0) × (strtok_in b',' (text ++ 0 ∷ rest) ≡ some (none, 0 ∷ rest)))
      ⊎ ((token : Bytes) × (text' : Bytes) × (strtok_in b',' (text ++ 0 ∷ rest)
            ≡ some (some token, text' ++ 0 ∷ rest))
          × (fields false text ≡ suc (fields false text'))
          × IsText text')
unfolding strtok_in fields token_in
strtok_in_lem [] rest h = inl (refl, refl)
strtok_in_lem (c ∷ text) rest (ne, h) = elim (Bool-cases (c == b',')) [
  | inl e ↦ rw (ne→== c 0 ne, e) (strtok_in_lem text rest h)
  | inr e ↦
      let (token, text', run, same, h') = token_in_lem text rest h in
      inr (c ∷ token, text', rw (ne→== c 0 ne, e, run) refl, rw e (ap suc same), h')
]

unfoldable pub is_empty : Bytes → Bool
is_empty [] = true
is_empty (c ∷ text) = false

-- Whether the daemon goes on after a request: it has the other command, no text, or two fields.
unfoldable pub is_served : Bool → ℕ → Bytes → Bool
unfolding is_empty fields
is_served signed command text =
    not (not signed && (command == 129)) || (is_empty text || leb 2 (fields false text))

is_command :
    (signed : Bool) (command : ℕ)
    → command < 256
    → eqb_ℤ (char_value signed command) convert_command ≡ (not signed && (command == 129))
unfolding char_value
is_command true command byte = ground arith
is_command false command byte = refl

module _ (P : Platform) where
  field-some :
      (buffer : Bytes) (w : P.World) {token behind : Bytes}
      → strtok_in b',' buffer ≡ some (some token, behind)
      → field P buffer w ≡ some ((atoi token, behind), w)
  unfolding field
  field-some buffer w run = rw (field, run) refl

  field-none :
      (buffer : Bytes) (w : P.World) {behind : Bytes}
      → strtok_in b',' buffer ≡ some (none, behind)
      → field P buffer w ≡ none
  unfolding field
  field-none buffer w run = rw (field, run) refl

  convert_request_lem :
      (text rest : Bytes) (w : P.World)
      → IsText text
      → convert_request P (text ++ 0 ∷ rest) w
        ≡ (if is_empty text || leb 2 (fields false text) then some (tt, w) else none)
  unfolding convert_request is_empty convert_file_descriptor_to_file_path
  convert_request_lem [] rest w h = refl
  convert_request_lem (c ∷ text) rest w (ne, h) = elim (strtok_in_lem (c ∷ text) rest (ne, h)) [
    | inl (no_field, run) ↦
        rw (ne→== c 0 ne, ◌>>=◌, field-none ((c ∷ text) ++ 0 ∷ rest) w run, no_field) refl
    | inr (token, text', run, same, h') ↦
        let first = field-some ((c ∷ text) ++ 0 ∷ rest) w run in
        elim (strtok_in_lem text' rest h') [
          | inl (no_field, run') ↦
              rw (ne→== c 0 ne, ◌>>=◌, first, field-none (text' ++ 0 ∷ rest) w run', same, no_field)
                refl
          | inr (token', text2, run', same', h2) ↦
              rw
                (
                  ne→== c 0 ne,
                  ◌>>=◌,
                  first,
                  field-some (text' ++ 0 ∷ rest) w run',
                  same,
                  same',
                  le→leb 2 (suc (suc (fields false text2))) (omega arith),
                )
                refl
        ]
  ]

  switch_command_lem :
      (signed : Bool) (command : ℕ) (text rest : Bytes) (w : P.World)
      → command < 256
      → IsText text
      → switch_command P signed (command ∷ text ++ 0 ∷ rest) w
        ≡ (if is_served signed command text then some (tt, w) else none)
  unfolding switch_command is_served
  switch_command_lem signed command text rest w byte h =
      rw (is_command signed command byte) elim (Bool-cases (not signed && (command == 129))) [
        | inl e ↦ rw e (convert_request_lem text rest w h)
        | inr e ↦ rw e refl
      ]

  -- `handle_request` where bytes have come in that make up, with the rest of the stack, a command
  -- below 256 and a text without NUL, ended by a NUL: it closes the socket and returns exactly if
  -- `is_served`, and otherwise meets undefined behaviour.
  pub handle_request_lem :
      (signed : Bool) (stack : Bytes) (fd : ℤ) (w : P.World) (text rest : Bytes) {k command : ℕ}
      {bytes : Bytes} {w1 : P.World}
      → P.sys_read fd command_package_size w ≡ ((pos (suc k), bytes), w1)
      → write_at 0 bytes stack ≡ command ∷ text ++ 0 ∷ rest
      → command < 256
      → IsText text
      → handle_request P signed stack fd w
        ≡ (if is_served signed command text then some (tt, (P.sys_close fd w1).1) else none)
  unfolding handle_request
  handle_request_lem signed stack fd w text rest {k} {command} {bytes} {w1} got laid byte h =
      rw
        (
          ◌>>=◌,
          ◌>>◌,
          got,
          is_pos-suc k,
          laid,
          switch_command_lem signed command text rest w1 byte h,
        )
        elim (Bool-cases (is_served signed command text)) [ inl e ↦ rw e refl | inr e ↦ rw e refl ]
