-- ===== src/Packet/Toy.antt =====
-- A toy cipher in the place of CNG: a key is a number that is added to each byte.
use camera_udp.Base.{
  ◌==◌, ℕ, suc, ◌+◌, ◌-◌, ◌≡◌, refl, ap, ap₂, ◌∙◌, List, [], ◌∷◌, Option, some, arith, map, length,
  Memory, replicate, length-replicate,
}
use camera_udp.Packet.{Cng}
use camera_udp.Packet.Session.{AesLaws}
use camera_udp.Packet.PublicKey.Restore.{RsaPair}

abbrev pub toy_encrypt : ℕ → List ℕ → List ℕ
toy_encrypt key = map λ b. key + b

abbrev pub toy_decrypt : ℕ → List ℕ → List ℕ
toy_decrypt key = map λ b. b - key

length-toy_encrypt : (key : ℕ) (bytes : List ℕ) → length (toy_encrypt key bytes) ≡ length bytes
length-toy_encrypt key [] = refl
length-toy_encrypt key (b ∷ bs) = ap suc (length-toy_encrypt key bs)

pub length-toy_decrypt : (key : ℕ) (bytes : List ℕ) → length (toy_decrypt key bytes) ≡ length bytes
length-toy_decrypt key [] = refl
length-toy_decrypt key (b ∷ bs) = ap suc (length-toy_decrypt key bs)

toy_decrypt-toy_encrypt :
    (key : ℕ) (bytes : List ℕ) → toy_decrypt key (toy_encrypt key bytes) ≡ bytes
toy_decrypt-toy_encrypt key [] = refl
toy_decrypt-toy_encrypt key (b ∷ bs) = ap₂ ◌∷◌ (omega arith) (toy_decrypt-toy_encrypt key bs)

abbrev pub toy : Cng ℕ
toy = record {
  encrypt = λ key nonce plain. (0, toy_encrypt key plain, replicate 16 key);
  decrypt = λ key nonce tag cipher. (0, toy_decrypt key cipher);
  gen_aes_key = λ bytes. (0, 5);
  agree_aes_key = λ secret public. (0, 5);
  import_pub_key = λ key bytes. (0, key);
  create_key_pair = (0, 21);
  export_key = λ key. (0, key ∷ 0 ∷ 0 ∷ []);
  is_rsa = λ key. (0, key == 7);
  get_block_length = λ key. (0, 128);
  rsa_encrypt = λ key bytes. (0, toy_encrypt key bytes);
  rsa_decrypt = λ key bytes. (0, toy_decrypt key bytes);
}

pub toy-AesLaws : AesLaws toy
toy-AesLaws = record {
  length_cipher = λ key nonce plain. length-toy_encrypt key plain;
  length_tag = λ key nonce plain. length-replicate 16 key;
  decrypt_encrypt = λ key nonce plain h. ap (λ p. (0, p)) (toy_decrypt-toy_encrypt key plain);
}

pub toy-RsaPair : RsaPair toy 7 7 128
toy-RsaPair = record {
  block_public = refl;
  block_secret = refl;
  length_cipher = λ bytes e. length-toy_encrypt 7 bytes ∙ e;
  decrypt_encrypt = λ bytes e h. ap (λ p. (0, p)) (toy_decrypt-toy_encrypt 7 bytes);
}

abbrev pub zeros : ℕ → Option Memory
zeros n = some (λ i. 0)

abbrev pub toy_random : ℕ → ℕ × List ℕ
toy_random n = (0, replicate n 9)

abbrev pub hello : List ℕ
hello = 104 ∷ 105 ∷ []
