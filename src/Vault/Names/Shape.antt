-- ===== src/Vault/Names/Shape.antt =====
-- What the names of a vault look like in its storage.
use discodrive_apps.Base.{
  ℕ, zero, suc, ◌*◌, ◌≤◌, ◌<◌, ◌≡◌, refl, Bool, true, false, Bool-cases, inl, inr, none, some, List,
  [], ◌∷◌, ◌++◌, Str, codes, All, All-append, length, take, drop, replicate, length-append,
  length-take, length-drop, ltb, arith,
}
use discodrive_apps.Base.Exec.{ok}
use discodrive_apps.Go.Base32
use discodrive_apps.Go.Base32.{IsBase32, encode-IsBase32, length-encode, IsBase32-plain}
use discodrive_apps.Go.Base64
use discodrive_apps.Go.Base64.{one, two, digit}
use discodrive_apps.Go.Base64.RoundTrip.{encode-IsBase64, IsBase64-plain}
use discodrive_apps.Go.FilePath.Clean.{IsName}
use discodrive_apps.Go.FilePath.Names.{NoSlash, long-IsName, plain-IsName}
use discodrive_apps.Vault.Siv.{Ciphers, IsCiphers, s2v, iv_of, last_block, with_aad}
use discodrive_apps.Vault.Siv.RoundTrip.{IsByte}
use discodrive_apps.Vault.Content.{is_aes_key}
use discodrive_apps.Vault.Names.{
  Keys, IsSha1, c9r, c9s, encrypt_name, shortened_name, stored_name, storage_path, dir_id_hash,
  shortening_threshold,
}
use discodrive_apps.Vault.Names.RoundTrip.{
  sealed_name, full_name, siv_encrypt_lem, sealed_name-IsByte, decrypt_name-encrypt_name,
}

All-map : {P Q : ℕ → Type 0} (s : Str) → ((c : ℕ) → P c → Q c) → All P s → All Q s
All-map [] f h = tt
All-map (c ∷ s) f (h, t) = (f c h, All-map s f t)

All-take : (P : ℕ → Type 0) (n : ℕ) (s : Str) → All P s → All P (take n s)
All-take P zero s h = tt
All-take P (suc n) [] h = tt
All-take P (suc n) (c ∷ s) (h, t) = (h, All-take P n s t)

All-drop : (P : ℕ → Type 0) (n : ℕ) (s : Str) → All P s → All P (drop n s)
All-drop P zero s h = h
All-drop P (suc n) [] h = tt
All-drop P (suc n) (c ∷ s) (h, t) = All-drop P n s t

-- A name of a vault's storage: it names an entry of a folder, and is not longer than the threshold.
pub record IsStored (e : Str) : Type 0 where
  pub name : IsName e
  pub short : length e ≤ shortening_threshold

encoded-NoSlash : (padded : Bool) (s : Str) → All IsByte s → All NoSlash (Base64.encode padded s)
encoded-NoSlash padded s h =
    All-map (Base64.encode padded s) (λ c k. (IsBase64-plain c k).3) (encode-IsBase64 padded s h)

-- Without padding an encoding is as long at least, and twice as long at most.
length-raw_least : (s : Str) → length s ≤ length (Base64.encode false s)
unfolding Base64.encode
length-raw_least [] = omega arith
length-raw_least (a ∷ []) = omega arith
length-raw_least (a ∷ b ∷ []) = omega arith
length-raw_least (a ∷ b ∷ c ∷ s) = omega (arith, length-raw_least s)

length-raw : (s : Str) → length (Base64.encode false s) ≤ 2 * length s
unfolding Base64.encode
length-raw [] = omega arith
length-raw (a ∷ []) = omega arith
length-raw (a ∷ b ∷ []) = omega arith
length-raw (a ∷ b ∷ c ∷ s) = omega (arith, length-raw s)

-- With padding it is at least as long.
length-padded : (s : Str) → length s ≤ length (Base64.encode true s)
unfolding Base64.encode
length-padded [] = omega arith
length-padded (a ∷ []) = omega arith
length-padded (a ∷ b ∷ []) = omega arith
length-padded (a ∷ b ∷ c ∷ s) = omega (arith, length-padded s)

suffixed-NoSlash : (s : Str) → All NoSlash s → All NoSlash (s ++ c9r) × All NoSlash (s ++ c9s)
suffixed-NoSlash s h = (
  All-append NoSlash s c9r h (refl, (refl, (refl, (refl, tt)))),
  All-append NoSlash s c9s h (refl, (refl, (refl, (refl, tt)))),
)

pub base32_part : (e : Str) → All IsBase32 e → 0 < length e → IsName e
base32_part [] h l = absurd (omega arith)
base32_part (c ∷ e) (h, t) l =
    plain-IsName c e (IsBase32-plain c h).0
      ((IsBase32-plain c h).1, All-map e (λ d k. (IsBase32-plain d k).1) t)

-- Two and thirty characters of the alphabet of base 32.
pub record IsStorage (path : Str) : Type 0 where
  pub two : Str
  pub thirty : Str
  pub is_path : path ≡ codes "d/" ++ two ++ codes "/" ++ thirty
  pub length-two : length two ≡ 2
  pub length-thirty : length thirty ≡ 30
  pub base32 : All IsBase32 two × All IsBase32 thirty

module _ (c : Ciphers) (laws : IsCiphers c) (v : Keys) (mac : List ℕ → List ℕ)
    (known : c.cmac v.mac_key ≡ some mac) (fits : is_aes_key v.enc_key ≡ true) (sha1 : Str → Str)
    (sums : IsSha1 sha1) where
  -- The characters in the storage path of a folder.
  abbrev sum_of : Str → Str
  sum_of dir_id = Base32.encode (sha1 (sealed_name c laws v mac known fits none dir_id))

  abbrev pub folder_path : Str → Str
  folder_path dir_id = storage_path c v sha1 (sum_of dir_id)

  pub dir_id_hash_lem : (dir_id : Str) → dir_id_hash c v sha1 dir_id ≡ ok (folder_path dir_id)
  unfolding dir_id_hash
  dir_id_hash_lem dir_id = rw (siv_encrypt_lem c laws v mac known fits none dir_id)

  pub folder_path-IsStorage : (dir_id : Str) → IsStorage (folder_path dir_id)
  folder_path-IsStorage dir_id =
      let ct = sealed_name c laws v mac known fits none dir_id in
      let l = length-encode 4 (sha1 ct) (omega (arith, sums.length-sum ct)) in
      let h = encode-IsBase32 (sha1 ct) (sums.bytes-sum ct) in
      record {
        two = take 2 (sum_of dir_id);
        thirty = drop 2 (sum_of dir_id);
        is_path = refl;
        length-two = omega (arith, length-take 2 (sum_of dir_id));
        length-thirty = omega (arith, length-drop 2 (sum_of dir_id));
        base32 = (All-take IsBase32 2 (sum_of dir_id) h, All-drop IsBase32 2 (sum_of dir_id) h);
      }

  pub full_name-NoSlash :
      (name parent : Str)
      → All IsByte name
      → All NoSlash (full_name c laws v mac known fits name parent)
  full_name-NoSlash name parent h =
      (suffixed-NoSlash _ (
        encoded-NoSlash true _ (sealed_name-IsByte c laws v mac known fits (some parent) name h))).0

  -- The tag alone is 16 bytes.
  pub long_full : (name parent : Str) → 20 ≤ length (full_name c laws v mac known fits name parent)
  long_full name parent =
      let tag = s2v mac (some parent) name in
      let ct = sealed_name c laws v mac known fits (some parent) name in
      omega (
        arith,
        length-append (Base64.encode true ct) c9r,
        length-padded ct,
        length-append tag (c.ctr v.enc_key (iv_of tag) name),
        laws.length-cmac v.mac_key mac known
            (last_block name (with_aad mac (some parent) (mac (replicate 16 0)))),
      )

  pub long_shortened : (full : Str) → 20 ≤ length (shortened_name c v sha1 full)
  unfolding shortened_name
  long_shortened full = omega (
    arith,
    length-append (Base64.encode false (sha1 full)) c9s,
    length-raw_least (sha1 full),
    sums.length-sum full,
  )

  pub shortened-IsStored : (full : Str) → IsStored (shortened_name c v sha1 full)
  unfolding shortened_name
  shortened-IsStored full =
      let l = length-append (Base64.encode false (sha1 full)) c9s in
      record {
        name =
            long-IsName _ (suffixed-NoSlash _ (encoded-NoSlash false _ (sums.bytes-sum full))).1
              (omega (arith, l));
        short = omega (arith, l, length-raw (sha1 full), sums.length-sum full);
      }

  -- A folder of a vault is stored at d/, two characters, a slash and thirty characters, all of the alphabet
  -- A to Z and 2 to 7. An entry has a name of at most 220 bytes in it, which has no slash and is
  -- not a dot, nor two of them. The keys fit the ciphers and the plain name is a list of bytes.
  pub names_fit :
      (dir_id name parent : Str)
      → All IsByte name
      → ((path : Str) × (dir_id_hash c v sha1 dir_id ≡ ok path) × IsStorage path)
        × ((full : Str) × (encrypt_name c v name parent ≡ ok full)
            × IsStored (stored_name c v sha1 full))
  unfolding stored_name
  names_fit dir_id name parent h =
      let full = full_name c laws v mac known fits name parent in
      (
        (folder_path dir_id, dir_id_hash_lem dir_id, folder_path-IsStorage dir_id),
        (
          full,
          (decrypt_name-encrypt_name c laws v mac known fits name parent h).0,
          elim (Bool-cases (ltb shortening_threshold (length full))) [
            | inl e ↦ rw e (shortened-IsStored full)
            | inr e ↦ rw e (record {
              name =
                  long-IsName full (full_name-NoSlash name parent h)
                    (omega (arith, long_full name parent));
              short = ground arith;
            })
          ],
        ),
      )
