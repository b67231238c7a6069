-- ===== src/Vault/Content/RoundTrip.antt =====
-- A file's content encrypted and decrypted again.
use discodrive_apps.Base.{
  ℕ, suc, ◌≡◌, ◌∙◌, true, List, [], ◌++◌, length, replicate, leb, ◌==◌, arith, length-append,
  take-append, drop-append, take_all,
}
use discodrive_apps.Base.Exec.{ok}
use discodrive_apps.Vault.Aead.{Aead, IsAead}
use discodrive_apps.Vault.Content.{
  header_total_size, chunk_plain_size, chunk_nonce_size, is_aes_key, decrypt_chunks, decrypt_body,
  decrypt_content, encrypt_content,
}
use discodrive_apps.Vault.Content.Chunks.{encrypt_chunks-Restores}

module _ (gcm : Aead) (laws : IsAead gcm) (enc_key header_nonce content_key : List ℕ) where
  -- The header in front of the chunks.
  abbrev header : List ℕ
  header = header_nonce ++ gcm.seal enc_key header_nonce (replicate 8 0xff ++ content_key) []

  length-header : length header_nonce ≡ 12 → length content_key ≡ 32 → length header ≡ 68
  length-header h k = omega (
    arith,
    length-append header_nonce (gcm.seal enc_key header_nonce (replicate 8 0xff ++ content_key) []),
    laws.length-seal enc_key header_nonce (replicate 8 0xff ++ content_key) [],
  )

  -- A file that begins with a header opens to what its chunks open to.
  decrypt_content-header :
      (body : List ℕ)
      → is_aes_key enc_key ≡ true
      → length header_nonce ≡ 12
      → length content_key ≡ 32
      → decrypt_content gcm enc_key (header ++ body)
        ≡ decrypt_chunks gcm chunk_plain_size (suc (length body)) content_key header_nonce 0 body
  unfolding decrypt_content decrypt_body
  decrypt_content-header body a h k =
      let l = length-header h k in
      let g : leb header_total_size (length (header ++ body)) ≡ true =
        ground (arith, length-append header body) in
      let c : (length content_key == 32) ≡ true = ground arith in
      rw (
        g,
        take-append header body l,
        drop-append header body l,
        take-append header_nonce
            (gcm.seal enc_key header_nonce (replicate 8 0xff ++ content_key) []) h,
        drop-append header_nonce
            (gcm.seal enc_key header_nonce (replicate 8 0xff ++ content_key) []) h,
        laws.unseal-seal enc_key header_nonce (replicate 8 0xff ++ content_key) [],
        a,
        k,
        take_all 32 content_key (omega arith),
      )

  -- Encrypting with an AES key, nonces of 12 bytes and a content key of 32 bytes succeeds, and
  -- decrypting what it wrote with the same key succeeds and gives back the source, whatever its
  -- length: empty, less than a chunk, or many chunks with or without a partial one at the end.
  pub decrypt_content-encrypt_content :
      (nonces : ℕ → List ℕ) (src : List ℕ)
      → is_aes_key enc_key ≡ true
      → length header_nonce ≡ 12
      → length content_key ≡ 32
      → ((i : ℕ) → length (nonces i) ≡ chunk_nonce_size)
      → ((encrypt_content gcm enc_key header_nonce content_key nonces src).0 ≡ ok tt)
        × (decrypt_content gcm enc_key
              (encrypt_content gcm enc_key header_nonce content_key nonces src).1
            ≡ (ok tt, src))
  unfolding encrypt_content
  decrypt_content-encrypt_content nonces src a h k sized =
      let (o, back) =
        encrypt_chunks-Restores gcm laws chunk_plain_size content_key header_nonce nonces sized
          (omega arith) (suc (length src)) 0 src (omega arith) in
      rw a (o, decrypt_content-header _ a h k ∙ back _ (omega arith))
