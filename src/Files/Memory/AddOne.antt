-- ===== src/Files/Memory/AddOne.antt =====
-- A cipher on bytes that meets the laws of AES.
use tencryption.Prelude.{ℕ, suc, ◌+◌, ◌-◌, ◌≡◌, refl, ap, ap₂, ◌∙◌, List, [], ◌∷◌, length, arith}
use tencryption.Prelude.Int.{pos}
use tencryption.Cipher.{Aes, IsAes}

-- A cipher that adds 1 to every byte stands for AES.
abbrev pub add_one : List ℕ → List ℕ
add_one [] = []
add_one (x ∷ xs) = (x + 1) ∷ add_one xs

abbrev pub sub_one : List ℕ → List ℕ
sub_one [] = []
sub_one (x ∷ xs) = (x - 1) ∷ sub_one xs

abbrev pub cipher : Aes
cipher = record {
  Key = Unit {0};
  set_encrypt_key = λ key bits. (pos 0, tt);
  set_decrypt_key = λ key bits. (pos 0, tt);
  encrypt = λ key block. add_one block;
  decrypt = λ key block. sub_one block;
}

length-add_one : (xs : List ℕ) → length (add_one xs) ≡ length xs
length-add_one [] = refl
length-add_one (x ∷ xs) = ap suc (length-add_one xs)

length-sub_one : (xs : List ℕ) → length (sub_one xs) ≡ length xs
length-sub_one [] = refl
length-sub_one (x ∷ xs) = ap suc (length-sub_one xs)

sub_one-add_one : (xs : List ℕ) → sub_one (add_one xs) ≡ xs
sub_one-add_one [] = refl
sub_one-add_one (x ∷ xs) = ap₂ ◌∷◌ (omega arith) (sub_one-add_one xs)

pub cipher-IsAes : IsAes cipher
cipher-IsAes = record {
  encrypt_key_ok = refl;
  decrypt_key_ok = refl;
  length-encrypt = λ k b h. length-add_one b ∙ h;
  length-decrypt = λ k b h. length-sub_one b ∙ h;
  decrypt-encrypt = λ b h. sub_one-add_one b;
}
