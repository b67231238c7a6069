-- ===== src/Tests/Tree.antt =====
-- A vault in a storage in memory, with the ciphers of the runs.
use mathlib.Core.List.{Memᴰ}
use discodrive_apps.Base.{
  ℕ, zero, suc, ◌≡◌, refl, sym, Option, List, [], ◌∷◌, ◌++◌, Str, All, codes, replicate, arith, ◌<◌,
  str_eq, has_prefix, false,
}
use discodrive_apps.Base.Exec.{ok}
use discodrive_apps.Go.Base32
use discodrive_apps.Go.Base64
use discodrive_apps.Go.FilePath
use discodrive_apps.Vault.Content.{encrypt_content, encrypt_chunks}
use discodrive_apps.Vault.Siv.{
  siv_encrypt, siv_decrypt, s2v_cmac, xor_bytes, shifted, masked, subtle_equal, difference,
}
use discodrive_apps.Vault.Siv.Bits.{xor_byte, or_byte, or_bits}
use discodrive_apps.Vault.Names.{
  Keys, IsSha1, encrypt_name, decrypt_name, dir_id_hash, stored_name, shortened_name,
}
use discodrive_apps.Vault.Names.RoundTrip.{full_name, decrypt_name-encrypt_name}
use discodrive_apps.Vault.Names.Shape.{IsStored, IsStorage, names_fit}
use discodrive_apps.Vault.Tree.{
  store_file, store_dir, write_dir_id_file, entries_of, entry_of, short_entry, Entry, Draw, folder,
  file, list_dir, read_file, write_file, make_dir, has_entry, dir_file,
}
use discodrive_apps.Vault.Tree.Memory.{children, strip, content_of, memory, Stored-memory}
use discodrive_apps.Vault.Tree.Fits.{Fits, IsDraw}
use discodrive_apps.Vault.Tree.Written.{NoFolder, write_file-Listed}
use discodrive_apps.Vault.Tree.Folders.{make_dir-Listed}
use discodrive_apps.Tests.Content.{toy, toy-IsAead, nonces}
use discodrive_apps.Tests.Keys.{ciphers, ciphers-IsCiphers}

abbrev keys : Keys
keys = record { enc_key = replicate 32 7; mac_key = replicate 32 1 }

abbrev cmac_sum : List ℕ → List ℕ
cmac_sum m = replicate 16 7

abbrev sha1 : Str → Str
sha1 s = replicate 20 0

zeros : (n : ℕ) → All (λ b. b < 256) (replicate n 0)
zeros zero = tt
zeros (suc n) = (omega arith, zeros n)

sha1-IsSha1 : IsSha1 sha1
sha1-IsSha1 = record { length-sum = λ s. refl; bytes-sum = λ s. zeros 20 }

name_bytes : All (λ b. b < 256) (codes "a")
name_bytes = (omega arith, tt)

decrypt_name-encrypt_name_example :
    (encrypt_name ciphers keys (codes "a") []
      ≡ ok (full_name ciphers ciphers-IsCiphers keys cmac_sum refl refl (codes "a") []))
    × (decrypt_name ciphers keys
          (full_name ciphers ciphers-IsCiphers keys cmac_sum refl refl (codes "a") [])
          []
        ≡ ok (codes "a"))
decrypt_name-encrypt_name_example =
    decrypt_name-encrypt_name ciphers ciphers-IsCiphers keys cmac_sum refl refl (codes "a") []
      name_bytes

names_fit_example :
    ((path : Str) × (dir_id_hash ciphers keys sha1 [] ≡ ok path) × IsStorage path)
    × ((full : Str) × (encrypt_name ciphers keys (codes "a") [] ≡ ok full)
        × IsStored (stored_name ciphers keys sha1 full))
names_fit_example =
    names_fit ciphers ciphers-IsCiphers keys cmac_sum refl refl sha1 sha1-IsSha1 [] (codes "a") []
      name_bytes

vault : Fits toy ciphers sha1 keys
vault = record {
  aead = toy-IsAead;
  ciphers = ciphers-IsCiphers;
  sums = sha1-IsSha1;
  mac = cmac_sum;
  known = refl;
  fits = refl;
}

abbrev draw : Draw
draw = record { header_nonce = replicate 12 2; content_key = replicate 32 3; nonces = nonces }

draw-IsDraw : IsDraw draw
draw-IsDraw = record { nonce_size = refl; key_size = refl; nonces_size = λ i. refl }

abbrev stored_full : Str
stored_full = full_name ciphers ciphers-IsCiphers keys cmac_sum refl refl (codes "a") []

-- The storage after a file with a short name was written into the root.
abbrev after_file : List (Str × Option Str)
after_file = (write_file memory toy ciphers sha1 keys draw [] (codes "a") (codes "hello") []).1

abbrev root_path : Str
root_path = codes "d/AA/AAAAAAAAAAAAAAAAAAAAAAAAAAAAAA"

written : (write_file memory toy ciphers sha1 keys draw [] (codes "a") (codes "hello") []).0 ≡ ok tt
unfolding write_file dir_id_hash encrypt_name store_file siv_encrypt s2v_cmac Base32.encode
    Base64.encode encrypt_content encrypt_chunks xor_bytes shifted
written = refl

listed_file :
    list_dir memory toy ciphers sha1 keys [] after_file
    ≡ ok (file (codes "a") (root_path ++ FilePath.slash ∷ stored_full) ∷ [])
unfolding write_file dir_id_hash encrypt_name store_file siv_encrypt s2v_cmac Base32.encode
    Base64.encode encrypt_content encrypt_chunks xor_bytes shifted xor_byte or_byte or_bits list_dir
    entries_of entry_of short_entry children strip content_of str_eq decrypt_name siv_decrypt
    subtle_equal difference masked FilePath.join FilePath.clean FilePath.split FilePath.elements
    FilePath.resolve FilePath.join_elements has_prefix Base64.decode Base64.decode_digits
listed_file = refl

nothing_there : (es : List Entry) → ok [] ≡ ok es → has_entry dir_file es ≡ false
unfolding has_entry
nothing_there es e = let q : [] ≡ es = cc in rw (sym q) refl

no_folder :
    NoFolder memory toy ciphers sha1 keys Stored-memory vault []
      (codes "a")
      (codes "hello")
      []
      after_file
unfolding write_file dir_id_hash encrypt_name store_file siv_encrypt s2v_cmac Base32.encode
    Base64.encode encrypt_content encrypt_chunks xor_bytes shifted xor_byte or_byte or_bits list_dir
    entries_of entry_of short_entry children strip content_of str_eq decrypt_name siv_decrypt
    subtle_equal difference masked FilePath.join FilePath.clean FilePath.split FilePath.elements
    FilePath.resolve FilePath.join_elements has_prefix Base64.decode Base64.decode_digits
    shortened_name
no_folder es e = nothing_there es e

write_file-Listed_example :
    (path : Str) × Memᴰ
      (file (codes "a") path)
      (file (codes "a") (root_path ++ FilePath.slash ∷ stored_full) ∷ [])
    × (read_file memory toy ciphers sha1 keys path after_file ≡ ok (codes "hello"))
write_file-Listed_example =
    write_file-Listed memory toy ciphers sha1 keys Stored-memory vault draw [] (codes "a")
      (codes "hello") [] (file (codes "a") (root_path ++ FilePath.slash ∷ stored_full) ∷ [])
      name_bytes draw-IsDraw written no_folder listed_file

-- The storage after a folder was made in the root.
abbrev after_folder : List (Str × Option Str)
after_folder = (make_dir memory toy ciphers sha1 keys draw (codes "id") [] (codes "a") []).1

folder_made :
    (make_dir memory toy ciphers sha1 keys draw (codes "id") [] (codes "a") []).0 ≡ ok (codes "id")
unfolding make_dir store_dir write_dir_id_file dir_id_hash encrypt_name siv_encrypt s2v_cmac
    Base32.encode Base64.encode encrypt_content encrypt_chunks xor_bytes shifted
folder_made = refl

listed_folder :
    list_dir memory toy ciphers sha1 keys [] after_folder
    ≡ ok (folder (codes "a") (codes "id") ∷ [])
unfolding make_dir store_dir write_dir_id_file dir_id_hash encrypt_name siv_encrypt s2v_cmac
    Base32.encode Base64.encode encrypt_content encrypt_chunks xor_bytes shifted xor_byte or_byte
    or_bits list_dir entries_of entry_of short_entry children strip content_of str_eq decrypt_name
    siv_decrypt subtle_equal difference masked FilePath.join FilePath.clean FilePath.split
    FilePath.elements FilePath.resolve FilePath.join_elements has_prefix Base64.decode
    Base64.decode_digits
listed_folder = refl

make_dir-Listed_example :
    (codes "id" ≡ codes "id")
    × Memᴰ (folder (codes "a") (codes "id")) (folder (codes "a") (codes "id") ∷ [])
make_dir-Listed_example =
    make_dir-Listed memory toy ciphers sha1 keys Stored-memory vault draw (codes "id") []
      (codes "a") [] (codes "id") (folder (codes "a") (codes "id") ∷ []) name_bytes draw-IsDraw
      folder_made listed_folder
