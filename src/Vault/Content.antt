-- ===== src/Vault/Content.antt =====
-- daemon/internal/vault/content.go: a file's content as a header and a sequence of sealed chunks. The
-- random nonces and the content key are arguments; what is written is the result.
pub mod Chunks
pub mod RoundTrip
use discodrive_apps.Base.{
  ℕ, zero, suc, ◌+◌, ◌*◌, ◌/◌, ◌%◌, ◌^◌, ◌≡◌, Bool, true, false, ◌||◌, Option, none, some, List, [],
  ◌∷◌, ◌++◌, length, take, drop, replicate, ltb, leb, ◌==◌, if◌then◌else◌,
}
use discodrive_apps.Base.Exec.{Error, Result, ok, err, bad_format, auth_failed, unfinished}
use discodrive_apps.Vault.Aead.{Aead}

abbrev pub chunk_plain_size : ℕ
chunk_plain_size = 32 * 1024

abbrev pub header_nonce_size : ℕ
header_nonce_size = 12

abbrev pub header_total_size : ℕ
header_total_size = 68

abbrev pub chunk_nonce_size : ℕ
chunk_nonce_size = 12

abbrev pub chunk_overhead : ℕ
chunk_overhead = 16

-- binary.BigEndian.PutUint64
abbrev pub be64 : ℕ → List ℕ
be64 n =
    ((n / 2 ^ 56) % 256)
    ∷ ((n / 2 ^ 48) % 256)
    ∷ ((n / 2 ^ 40) % 256)
    ∷ ((n / 2 ^ 32) % 256)
    ∷ ((n / 2 ^ 24) % 256)
    ∷ ((n / 2 ^ 16) % 256)
    ∷ ((n / 2 ^ 8) % 256)
    ∷ (n % 256)
    ∷ []

abbrev pub chunk_aad : ℕ → List ℕ → List ℕ
chunk_aad i header_nonce = be64 i ++ header_nonce

-- io.ReadFull of a buffer of `n` bytes: what was read, what is left, and whether the buffer is full.
abbrev pub read_full : ℕ → List ℕ → List ℕ × List ℕ × Bool
read_full n src = (take n src, drop n src, leb n (length src))

-- How a function that writes ends, and what it has written by then.
abbrev pub Output : Type 0
Output = Result (Unit {0}) × List ℕ

abbrev pub after_writing : List ℕ → Output → Output
after_writing bytes (r, out) = (r, bytes ++ out)

abbrev pub failed : Error → Output
failed e = (err e, [])

-- aes.NewCipher
abbrev pub is_aes_key : List ℕ → Bool
is_aes_key key = length key == 16 || (length key == 24 || length key == 32)

module _ (gcm : Aead) (size : ℕ) where
  abbrev pub frame_size : ℕ
  frame_size = chunk_nonce_size + size + chunk_overhead

  -- The loop over chunks of `size` bytes at most. `nonces i` are the random bytes drawn for the chunk
  -- with the number `i`.
  unfoldable pub encrypt_chunks : ℕ → List ℕ → List ℕ → (ℕ → List ℕ) → ℕ → List ℕ → Output
  encrypt_chunks zero key header_nonce nonces i src = failed unfinished
  encrypt_chunks (suc fuel) key header_nonce nonces i src =
      let (chunk, left, full) = read_full size src in
      let frame = nonces i ++ gcm.seal key (nonces i) chunk (chunk_aad i header_nonce) in
      let more = after_writing frame (encrypt_chunks fuel key header_nonce nonces (suc i) left) in
      if length src == 0 then (ok tt, []) else if full then more else (ok tt, frame)

  -- What is written of a chunk that opens, with `rest` behind it unless it is the last.
  abbrev pub opened : Option (List ℕ) → Bool → Output → Output
  opened none full rest = failed auth_failed
  opened (some plain) true rest = after_writing plain rest
  opened (some plain) false rest = (ok tt, plain)

  unfoldable pub decrypt_chunks : ℕ → List ℕ → List ℕ → ℕ → List ℕ → Output
  decrypt_chunks zero key header_nonce i src = failed unfinished
  decrypt_chunks (suc fuel) key header_nonce i src =
      let (frame, left, full) = read_full frame_size src in
      let plain =
        gcm.unseal key (take chunk_nonce_size frame) (drop chunk_nonce_size frame)
          (chunk_aad i header_nonce) in
      let done = opened plain full (decrypt_chunks fuel key header_nonce (suc i) left) in
      if length src == 0
      then (ok tt, [])
      else if ltb (length frame) (chunk_nonce_size + chunk_overhead)
      then failed bad_format
      else done

module _ (gcm : Aead) where
  -- The random bytes are the header's nonce, the content key and the chunks' nonces. A chunk takes at
  -- least one byte of the source, so that the length of the source bounds their number.
  unfoldable pub encrypt_content : List ℕ → List ℕ → List ℕ → (ℕ → List ℕ) → List ℕ → Output
  encrypt_content enc_key header_nonce content_key nonces src =
      let header = gcm.seal enc_key header_nonce (replicate 8 0xff ++ content_key) [] in
      if is_aes_key enc_key
      then after_writing (header_nonce ++ header) (
          encrypt_chunks gcm chunk_plain_size (suc (length src)) content_key header_nonce nonces 0
            src)
      else failed bad_format

  -- The chunks, after the header's payload.
  unfoldable pub decrypt_body : Option (List ℕ) → List ℕ → List ℕ → Output
  decrypt_body none header_nonce src = failed auth_failed
  decrypt_body (some payload) header_nonce src =
      let content_key = take 32 (drop 8 payload) in
      if length payload == 40
      then decrypt_chunks gcm chunk_plain_size (suc (length src)) content_key header_nonce 0 src
      else failed bad_format

  unfoldable pub decrypt_content : List ℕ → List ℕ → Output
  unfolding decrypt_body
  decrypt_content enc_key src =
      let (header, left, full) = read_full header_total_size src in
      let header_nonce = take header_nonce_size header in
      let payload = gcm.unseal enc_key header_nonce (drop header_nonce_size header) [] in
      let body = decrypt_body payload header_nonce left in
      if full then (if is_aes_key enc_key then body else failed bad_format) else failed bad_format
