-- ===== src/Vault/Tree/Fits.antt =====
-- The paths, the names and the contents that the operations on a vault compute, when the keys fit the
-- ciphers.
use mathlib.Core.List.{append_assoc}
use discodrive_apps.Base.{
  ℕ, ◌≡◌, refl, ap, true, false, Bool-cases, inl, inr, some, List, [], ◌∷◌, ◌++◌, Str, All, codes,
  length, str_eq, str_eq_iff, ◌<◌, arith,
}
use discodrive_apps.Base.Exec.{ok}
use discodrive_apps.Go.Base64
use discodrive_apps.Go.FilePath
use discodrive_apps.Go.FilePath.{slash, split}
use discodrive_apps.Go.FilePath.Clean.{IsName}
use discodrive_apps.Go.FilePath.Names.{join_names, below-names, long-IsName, plain-IsName}
use discodrive_apps.Vault.Aead.{Aead, IsAead}
use discodrive_apps.Vault.Content.{is_aes_key, encrypt_content, decrypt_content}
use discodrive_apps.Vault.Content.RoundTrip.{decrypt_content-encrypt_content}
use discodrive_apps.Vault.Siv.{Ciphers, IsCiphers}
use discodrive_apps.Vault.Siv.RoundTrip.{IsByte}
use discodrive_apps.Vault.Names.{
  Keys, IsSha1, has_suffix, c9s, encrypt_name, decrypt_name, shortened_name, dir_id_hash,
}
use discodrive_apps.Vault.Names.RoundTrip.{full_name, decrypt_name-encrypt_name, has_suffix-append}
use discodrive_apps.Vault.Names.Shape.{
  long_shortened, IsStorage, base32_part, folder_path, dir_id_hash_lem, folder_path-IsStorage,
  shortened-IsStored, full_name-NoSlash, long_full,
}
use discodrive_apps.Vault.Tree.{Storage, Draw, dirid_file, content}
use discodrive_apps.Vault.Tree.Stored.{Stored, IsFolder}

other_length : (a b : Str) → length b < length a → str_eq a b ≡ false
other_length a b h = elim (Bool-cases (str_eq a b)) [
  | inl e ↦ absurd (omega (arith, ap length ((str_eq_iff a b).0 e)))
  | inr e ↦ e
]

-- What is expected of the ciphers and of the keys and random bytes that they are used with.
pub record Fits (gcm : Aead) (c : Ciphers) (sha1 : Str → Str) (v : Keys) : Type 0 where
  pub aead : IsAead gcm
  pub ciphers : IsCiphers c
  pub sums : IsSha1 sha1
  pub mac : List ℕ → List ℕ
  pub known : c.cmac v.mac_key ≡ some mac
  pub fits : is_aes_key v.enc_key ≡ true

pub record IsDraw (r : Draw) : Type 0 where
  pub nonce_size : length r.header_nonce ≡ 12
  pub key_size : length r.content_key ≡ 32
  pub nonces_size : (i : ℕ) → length (r.nonces i) ≡ 12

module _ (S : Storage) (gcm : Aead) (c : Ciphers) (sha1 : Str → Str) (v : Keys) (laws : Stored S)
    (f : Fits gcm c sha1 v) where
  abbrev pub hash_of : Str → Str
  hash_of dir_id = folder_path c f.ciphers v f.mac f.known f.fits sha1 f.sums dir_id

  abbrev pub full_of : Str → Str → Str
  full_of name parent = full_name c f.ciphers v f.mac f.known f.fits name parent

  pub hash_eq : (dir_id : Str) → dir_id_hash c v sha1 dir_id ≡ ok (hash_of dir_id)
  hash_eq dir_id = dir_id_hash_lem c f.ciphers v f.mac f.known f.fits sha1 f.sums dir_id

  pub name_eq :
      (name parent : Str)
      → All IsByte name
      → (encrypt_name c v name parent ≡ ok (full_of name parent))
        × (decrypt_name c v (full_of name parent) parent ≡ ok name)
  name_eq = decrypt_name-encrypt_name c f.ciphers v f.mac f.known f.fits

  -- What the content of a file is encrypted to.
  abbrev pub sealed_content : Draw → Str → Str
  sealed_content r plain =
      (encrypt_content gcm v.enc_key r.header_nonce r.content_key r.nonces plain).1

  pub content_eq :
      (r : Draw) (plain : Str)
      → IsDraw r
      → (content S gcm c sha1 v r plain ≡ ok (sealed_content r plain))
        × (decrypt_content gcm v.enc_key (sealed_content r plain) ≡ (ok tt, plain))
  content_eq r plain d =
      let (o, back) =
        decrypt_content-encrypt_content gcm f.aead v.enc_key r.header_nonce r.content_key r.nonces
          plain f.fits d.nonce_size d.key_size d.nonces_size in
      (rw o refl, back)

  storage-IsFolder : (path : Str) → IsStorage path → IsFolder path
  unfolding split
  storage-IsFolder path st =
      let t = base32_part st.two st.base32.0 (omega (arith, st.length-two)) in
      let u = base32_part st.thirty st.base32.1 (omega (arith, st.length-thirty)) in
      let d : IsFolder (codes "d") = (plain-IsName 100 [] refl (refl, tt), tt) in
      let below =
        below-names (codes "d" ++ slash ∷ st.two) st.thirty (below-names (codes "d") st.two d t)
          u in
      rw (st.is_path, append_assoc st.two (slash ∷ []) st.thirty) below

  pub hash-IsFolder : (dir_id : Str) → IsFolder (hash_of dir_id)
  hash-IsFolder dir_id =
      storage-IsFolder (hash_of dir_id)
        (folder_path-IsStorage c f.ciphers v f.mac f.known f.fits sha1 f.sums dir_id)

  pub full-IsName : (name parent : Str) → All IsByte name → IsName (full_of name parent)
  full-IsName name parent h =
      long-IsName _ (full_name-NoSlash c f.ciphers v f.mac f.known f.fits sha1 f.sums name parent h)
        (omega (arith, long_full c f.ciphers v f.mac f.known f.fits sha1 f.sums name parent))

  pub short-IsName : (full : Str) → IsName (shortened_name c v sha1 full)
  short-IsName full = (shortened-IsStored c f.ciphers v f.mac f.known f.fits sha1 f.sums full).name

  pub child-IsFolder : (a b : Str) → IsFolder a → IsName b → IsFolder (FilePath.join a b)
  child-IsFolder a b h k = rw (join_names a b h k) (below-names a b h k)

  -- The name of an entry is not that of the folder's own marker.
  pub not_marker : (name parent : Str) → str_eq (full_of name parent) dirid_file ≡ false
  not_marker name parent =
      other_length (full_of name parent) dirid_file
        (omega (arith, long_full c f.ciphers v f.mac f.known f.fits sha1 f.sums name parent))

  pub short_not_marker : (full : Str) → str_eq (shortened_name c v sha1 full) dirid_file ≡ false
  short_not_marker full =
      other_length (shortened_name c v sha1 full) dirid_file
        (omega (arith, long_shortened c f.ciphers v f.mac f.known f.fits sha1 f.sums full))

  pub short-suffix : (full : Str) → has_suffix (shortened_name c v sha1 full) c9s ≡ true
  unfolding shortened_name
  short-suffix full = has_suffix-append (Base64.encode false (sha1 full)) c9s
