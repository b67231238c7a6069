-- ===== src/Vault/Content/Chunks.antt =====
-- The two loops over the chunks of a file, step by step and one after the other.
use discodrive_apps.Base.{
  ℕ, zero, suc, ◌+◌, ◌≤◌, ◌<◌, ◌≡◌, ◌≢◌, refl, ◌∙◌, ap, inl, inr, true, false, some, List, [], ◌∷◌,
  ◌++◌, length, take, drop, leb, ltb, ◌==◌, arith, Bool-cases, leb→le, length-append, length-take,
  length-drop, take-append, drop-append, take_all, take-append-drop,
}
use discodrive_apps.Base.Exec.{ok}
use discodrive_apps.Vault.Aead.{Aead, IsAead}
use discodrive_apps.Vault.Content.{
  chunk_aad, chunk_nonce_size, frame_size, Output, after_writing, encrypt_chunks, decrypt_chunks,
}

module _ (gcm : Aead) (laws : IsAead gcm) (size : ℕ) (key header_nonce : List ℕ)
    (nonces : ℕ → List ℕ) (sized : (i : ℕ) → length (nonces i) ≡ chunk_nonce_size) where
  -- A sealed chunk with its nonce.
  abbrev pub frame_of : ℕ → List ℕ → List ℕ
  frame_of i chunk = nonces i ++ gcm.seal key (nonces i) chunk (chunk_aad i header_nonce)

  length-frame_of : (i : ℕ) (chunk : List ℕ) → length (frame_of i chunk) ≡ 28 + length chunk
  length-frame_of i chunk = omega (
    arith,
    length-append (nonces i) (gcm.seal key (nonces i) chunk (chunk_aad i header_nonce)),
    sized i,
    laws.length-seal key (nonces i) chunk (chunk_aad i header_nonce),
  )

  unseal-frame_of :
      (i : ℕ) (chunk : List ℕ)
      → gcm.unseal key
          (take chunk_nonce_size (frame_of i chunk))
          (drop chunk_nonce_size (frame_of i chunk))
          (chunk_aad i header_nonce)
        ≡ some chunk
  unseal-frame_of i chunk = rw (
    take-append (nonces i) (gcm.seal key (nonces i) chunk (chunk_aad i header_nonce)) (sized i),
    drop-append (nonces i) (gcm.seal key (nonces i) chunk (chunk_aad i header_nonce)) (sized i),
    laws.unseal-seal key (nonces i) chunk (chunk_aad i header_nonce),
  )

  encrypt_chunks-full :
      (fuel i : ℕ) (src : List ℕ)
      → length src ≢ 0
      → leb size (length src) ≡ true
      → encrypt_chunks gcm size (suc fuel) key header_nonce nonces i src
        ≡ after_writing
            (frame_of i (take size src))
            (encrypt_chunks gcm size fuel key header_nonce nonces (suc i) (drop size src))
  unfolding encrypt_chunks
  encrypt_chunks-full fuel i src n h = let e : (length src == 0) ≡ false = ground arith in rw (e, h)

  encrypt_chunks-last :
      (fuel i : ℕ) (src : List ℕ)
      → length src ≢ 0
      → leb size (length src) ≡ false
      → encrypt_chunks gcm size (suc fuel) key header_nonce nonces i src
        ≡ (ok tt, frame_of i (take size src))
  unfolding encrypt_chunks
  encrypt_chunks-last fuel i src n h = let e : (length src == 0) ≡ false = ground arith in rw (e, h)

  decrypt_chunks-full :
      (fuel i : ℕ) (chunk rest : List ℕ)
      → length chunk ≡ size
      → decrypt_chunks gcm size (suc fuel) key header_nonce i (frame_of i chunk ++ rest)
        ≡ after_writing chunk (decrypt_chunks gcm size fuel key header_nonce (suc i) rest)
  unfolding decrypt_chunks
  decrypt_chunks-full fuel i chunk rest h =
      let f : length (frame_of i chunk) ≡ frame_size gcm size =
        omega (arith, length-frame_of i chunk) in
      let l : length (frame_of i chunk ++ rest) ≡ frame_size gcm size + length rest =
        omega (arith, length-append (frame_of i chunk) rest) in
      let e : (length (frame_of i chunk ++ rest) == 0) ≡ false = ground arith in
      let g : leb (frame_size gcm size) (length (frame_of i chunk ++ rest)) ≡ true = ground arith in
      let k : ltb (length (frame_of i chunk)) 28 ≡ false =
        ground (arith, length-frame_of i chunk) in
      rw (
        e,
        g,
        take-append (frame_of i chunk) rest f,
        drop-append (frame_of i chunk) rest f,
        k,
        unseal-frame_of i chunk,
      )

  decrypt_chunks-last :
      (fuel i : ℕ) (chunk : List ℕ)
      → length chunk < size
      → decrypt_chunks gcm size (suc fuel) key header_nonce i (frame_of i chunk) ≡ (ok tt, chunk)
  unfolding decrypt_chunks
  decrypt_chunks-last fuel i chunk h =
      let l = length-frame_of i chunk in
      let e : (length (frame_of i chunk) == 0) ≡ false = ground arith in
      let g : leb (frame_size gcm size) (length (frame_of i chunk)) ≡ false = ground arith in
      let k : ltb (length (frame_of i chunk)) 28 ≡ false = ground arith in
      rw (
        e,
        g,
        take_all (frame_size gcm size) (frame_of i chunk) (omega arith),
        k,
        unseal-frame_of i chunk,
      )

  -- How the encryption of `src` ends, and what the decryption makes of its output.
  abbrev pub Restores : ℕ → List ℕ → Output → Type 0
  Restores i src out =
      (out.0 ≡ ok tt)
      × ((fuel : ℕ)
          → length out.1 < fuel
          → decrypt_chunks gcm size fuel key header_nonce i out.1 ≡ (ok tt, src))

  Restores-full :
      (i : ℕ) (src : List ℕ) (out : Output)
      → length src ≢ 0
      → size ≤ length src
      → Restores (suc i) (drop size src) out
      → Restores i src (after_writing (frame_of i (take size src)) out)
  Restores-full i src out n h (o, back) = (o, opens)
    where
      opens :
          (fuel : ℕ)
          → length (frame_of i (take size src) ++ out.1) < fuel
          → decrypt_chunks gcm size fuel key header_nonce i (frame_of i (take size src) ++ out.1)
            ≡ (ok tt, src)
      opens zero k = absurd (omega arith)
      opens (suc fuel) k =
          let l = length-append (frame_of i (take size src)) out.1 in
          let c = length-frame_of i (take size src) in
          decrypt_chunks-full fuel i (take size src) out.1 (omega (arith, length-take size src))
          ∙ ap (after_writing (take size src)) (back fuel (omega arith))
          ∙ ap (λ xs. (ok tt, xs)) (take-append-drop size src)

  Restores-last :
      (i : ℕ) (src : List ℕ)
      → length src < size
      → Restores i src (ok tt, frame_of i (take size src))
  Restores-last i src h = (refl, opens)
    where
      opens :
          (fuel : ℕ)
          → length (frame_of i (take size src)) < fuel
          → decrypt_chunks gcm size fuel key header_nonce i (frame_of i (take size src))
            ≡ (ok tt, src)
      opens zero k = absurd (omega arith)
      opens (suc fuel) k =
          decrypt_chunks-last fuel i (take size src) (omega (arith, length-take size src))
          ∙ ap (λ xs. (ok tt, xs)) (take_all size src (omega arith))

  Restores-none :
      (fuel i : ℕ) → Restores i [] (encrypt_chunks gcm size (suc fuel) key header_nonce nonces i [])
  unfolding encrypt_chunks decrypt_chunks
  Restores-none fuel i = (refl, opens)
    where
      opens :
          (fuel : ℕ) → 0 < fuel → decrypt_chunks gcm size fuel key header_nonce i [] ≡ (ok tt, [])
      opens zero k = absurd (omega arith)
      opens (suc fuel) k = refl

  -- The loop that opens the chunks gives back what the loop that seals them read.
  pub encrypt_chunks-Restores :
      0 < size
      → (fuel i : ℕ) (src : List ℕ) → length src < fuel
      → Restores i src (encrypt_chunks gcm size fuel key header_nonce nonces i src)
  encrypt_chunks-Restores p zero i src h = absurd (omega arith)
  encrypt_chunks-Restores p (suc fuel) i [] h = Restores-none fuel i
  encrypt_chunks-Restores p (suc fuel) i (x ∷ xs) h =
      elim (Bool-cases (leb size (length (x ∷ xs)))) [
        | inl e ↦
            let le = leb→le size (length (x ∷ xs)) e in
            rw (encrypt_chunks-full fuel i (x ∷ xs) (omega arith) e) (
              Restores-full i (x ∷ xs) _ (omega arith) le (
                encrypt_chunks-Restores p fuel (suc i) (drop size (x ∷ xs))
                  (omega (arith, length-drop size (x ∷ xs)))))
        | inr e ↦
            let lt : length (x ∷ xs) < size = ground arith in
            rw (encrypt_chunks-last fuel i (x ∷ xs) (omega arith) e) (Restores-last i (x ∷ xs) lt)
      ]
