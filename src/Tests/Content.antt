-- ===== src/Tests/Content.antt =====
-- A cipher for the runs: sealing appends sixteen bytes.
use discodrive_apps.Base.{
  ℕ, ◌-◌, ◌≡◌, refl, some, List, ◌++◌, length, take, take-append, replicate, length-append, arith,
  ap, codes,
}
use discodrive_apps.Base.Exec.{ok}
use discodrive_apps.Vault.Aead.{Aead, IsAead}
use discodrive_apps.Vault.Content.{encrypt_content, decrypt_content}
use discodrive_apps.Vault.Content.RoundTrip.{decrypt_content-encrypt_content}

abbrev pub toy : Aead
toy = record {
  seal = λ key nonce plain aad. plain ++ replicate 16 0;
  unseal = λ key nonce sealed aad. some (take (length sealed - 16) sealed);
}

pub toy-IsAead : IsAead toy
toy-IsAead = record {
  unseal-seal = λ key nonce plain aad.
      let h : length plain ≡ length (plain ++ replicate 16 0) - 16 =
        omega (arith, length-append plain (replicate 16 0)) in
      ap some (take-append plain (replicate 16 0) h);
  length-seal = λ key nonce plain aad. length-append plain (replicate 16 0);
}

abbrev pub nonces : ℕ → List ℕ
nonces i = replicate 12 1

decrypt_content-encrypt_content_example :
    ((encrypt_content toy
        (replicate 32 7)
        (replicate 12 2)
        (replicate 32 3)
        nonces
        (codes "content")).0
      ≡ ok tt)
    × (decrypt_content toy
          (replicate 32 7)
          (encrypt_content toy
            (replicate 32 7)
            (replicate 12 2)
            (replicate 32 3)
            nonces
            (codes "content")).1
        ≡ (ok tt, codes "content"))
decrypt_content-encrypt_content_example =
    decrypt_content-encrypt_content toy toy-IsAead (replicate 32 7) (replicate 12 2)
      (replicate 32 3) nonces (codes "content") refl refl refl (λ i. refl)
