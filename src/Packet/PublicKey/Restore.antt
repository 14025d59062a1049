-- ===== src/Packet/PublicKey/Restore.antt =====
-- Decryption puts back what encryption in place overwrote: RSA_Decode gives the packet of RSA_Encode the
-- bytes that it had before.
use camera_udp.Base.{
  ℕ, ◌+◌, ◌-◌, ◌^◌, ◌≤◌, ◌<◌, ◌≡◌, refl, ap, subst, ◌∙◌, inr, true, false, List, some, arith, ltb,
  length, Memory, copy, read, get_or-read, copy_inside, copy_outside, length-read, read-congr,
  dec_lt,
}
use camera_udp.Packet.{
  of_bytes, Cng, succeeded, offset_encrypted, offset_packet_size, offset_rsa_data, data_size,
  offset_data_size, set_packet_size, put_ulong, get_ulong,
}
use camera_udp.Packet.Layout.{read-copy_whole, read-put_other}
use camera_udp.Packet.PublicKey.{byteswap_ulong, rsa_decode, rsa_decode_with}

pub byteswap_ulong-involutive : (v : ℕ) → v < 2 ^ 32 → byteswap_ulong (byteswap_ulong v) ≡ v
unfolding byteswap_ulong
byteswap_ulong-involutive v h = omega arith

pub byteswap_ulong-lt : (v : ℕ) → byteswap_ulong v < 2 ^ 32
unfolding byteswap_ulong
byteswap_ulong-lt v = omega arith

-- Two memories with the same bytes from `encrypted` on.
abbrev pub SameBody : Memory → Memory → Type 0
SameBody m m' = (i : ℕ) → offset_encrypted ≤ i → m i ≡ m' i

pub SameBody-read :
    {m m' : Memory}
    → SameBody m m'
    → (at n : ℕ) → offset_encrypted ≤ at
    → read m at n ≡ read m' at n
SameBody-read h at n le = read-congr _ _ at n (λ i p q. h i (omega arith))

pub SameBody-get_ulong :
    {m m' : Memory}
    → SameBody m m'
    → (at : ℕ) → offset_encrypted ≤ at
    → get_ulong m at ≡ get_ulong m' at
unfolding get_ulong
SameBody-get_ulong h at le = ap of_bytes (SameBody-read h at 4 le)

-- The memory of a packet whose body was encrypted in place, after it got its size.
abbrev pub enciphered : (size : ℕ) (cipher : List ℕ) → Memory → Memory
enciphered size cipher m = set_packet_size size (copy m offset_encrypted cipher)

restored_inside :
    (m m' : Memory) (block k : ℕ)
    → k < block
    → copy m' offset_encrypted (read m offset_encrypted block) (offset_encrypted + k)
      ≡ m (offset_encrypted + k)
restored_inside m m' block k h =
    copy_inside m' _ _ k (omega (arith, length-read m offset_encrypted block))
    ∙ get_or-read m offset_encrypted block k h

restored :
    (m : Memory) (size block : ℕ) (cipher : List ℕ)
    → length cipher ≡ block
    → SameBody (copy (enciphered size cipher m) offset_encrypted (read m offset_encrypted block)) m
unfolding put_ulong
restored m size block cipher e i le = elim (dec_lt i (offset_encrypted + block)) [
  | yes lt ↦
      subst
        (λ j.
          copy (enciphered size cipher m) offset_encrypted (read m offset_encrypted block) j ≡ m j)
        (omega arith) (restored_inside m _ block (i - offset_encrypted) (omega arith))
  | no ge ↦
      copy_outside _ _ _ i (λ a b. omega (arith, length-read m offset_encrypted block))
      ∙ copy_outside _ _ _ i (λ a b. omega arith)
      ∙ copy_outside m _ cipher i (λ a b. omega arith)
]

-- What CNG documents of a pair of RSA keys without padding: a block of plaintext gives a block of
-- ciphertext, which the private key decrypts.
pub record RsaPair {Key : Type 0} (cng : Cng Key) (public secret : Key) (block : ℕ) : Type 0 where
  pub block_public : cng.get_block_length public ≡ (0, block)
  pub block_secret : cng.get_block_length secret ≡ (0, block)
  pub length_cipher :
      (bytes : List ℕ) → length bytes ≡ block → length (cng.rsa_encrypt public bytes).1 ≡ block
  pub decrypt_encrypt :
      (bytes : List ℕ)
      → length bytes ≡ block
      → succeeded (cng.rsa_encrypt public bytes).0 ≡ true
      → cng.rsa_decrypt secret (cng.rsa_encrypt public bytes).1 ≡ (0, bytes)

module _ {Key : Type 0} (cng : Cng Key) where
  rsa_decode-block :
      (key : Key) (block cb_packet : ℕ) (m : Memory) (plain : List ℕ)
      → cng.get_block_length key ≡ (0, block)
      → cng.rsa_decrypt key (read m offset_encrypted block) ≡ (0, plain)
      → rsa_decode cng key cb_packet m ≡ rsa_decode_with cng cb_packet block (0, plain) m
  unfolding rsa_decode
  rsa_decode-block key block cb_packet m plain e e' = rw (e, e') refl

  rsa_decode_with-fits :
      (cb_packet block cb : ℕ) (plain : List ℕ) (m : Memory)
      → offset_encrypted + block ≤ cb_packet
      → byteswap_ulong (data_size (copy m offset_encrypted plain)) ≡ cb
      → rsa_decode_with cng cb_packet block (0, plain) m ≡ record {
        status = 0;
        out = some (offset_rsa_data, cb);
        memory = copy m offset_encrypted plain;
      }
  unfolding rsa_decode_with
  rsa_decode_with-fits cb_packet block cb plain m fits e =
      let no : ltb cb_packet (offset_encrypted + block) ≡ false = ground arith in rw (no, e) refl

module _ {Key : Type 0} (cng : Cng Key) (public secret : Key) (block : ℕ)
    (pair : RsaPair cng public secret block) where
  -- The ciphertext of the body of a packet.
  abbrev pub cipher_of : Memory → List ℕ
  cipher_of m = (cng.rsa_encrypt public (read m offset_encrypted block)).1

  -- RSA_Decode of a packet with encrypted body gives the size that stood there, and the body.
  pub rsa_decode-enciphered :
      (m : Memory) (size cb_packet cb : ℕ)
      → data_size m ≡ byteswap_ulong cb
      → cb < 2 ^ 32
      → offset_encrypted + block ≤ cb_packet
      → succeeded (cng.rsa_encrypt public (read m offset_encrypted block)).0 ≡ true
      → (m' : Memory) × (rsa_decode cng secret cb_packet (enciphered size (cipher_of m) m)
          ≡ record { status = 0; out = some (offset_rsa_data, cb); memory = m' })
        × SameBody m' m
  rsa_decode-enciphered m size cb_packet cb e small fits h =
      let c = cipher_of m in
      let plain = read m offset_encrypted block in
      let len = pair.length_cipher plain (length-read m offset_encrypted block) in
      let same = restored m size block c len in
      let m1 = enciphered size c m in
      let e_read : read m1 offset_encrypted block ≡ c =
        read-put_other offset_packet_size size _ offset_encrypted block (inr (omega arith))
        ∙ read-copy_whole m offset_encrypted c block len in
      let e_size : byteswap_ulong (data_size (copy m1 offset_encrypted plain)) ≡ cb =
        ap byteswap_ulong (SameBody-get_ulong same offset_data_size (omega arith) ∙ e)
        ∙ byteswap_ulong-involutive cb small in
      (
        copy m1 offset_encrypted plain,
        rsa_decode-block cng secret block cb_packet m1 plain pair.block_secret
              (rw e_read (pair.decrypt_encrypt plain (length-read m offset_encrypted block) h))
            ∙ rsa_decode_with-fits cng cb_packet block cb plain m1 fits e_size,
        same,
      )
