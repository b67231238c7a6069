-- ===== src/Tests/Whole.antt =====
-- A folder that is encrypted into a vault and decrypted again, in memory.
use discodrive_apps.Base.{
  ◌≡◌, refl, Bool, true, false, [], ◌∷◌, ◌++◌, Str, none, some, codes, str_eq, take, drop,
  replicate,
}
use discodrive_apps.Base.Exec.{Result, ok, err}
use discodrive_apps.Go.Base32
use discodrive_apps.Go.Base64
use discodrive_apps.Go.FilePath
use discodrive_apps.Vault.Content.{encrypt_content, encrypt_chunks, decrypt_content, decrypt_chunks}
use discodrive_apps.Vault.Siv.{
  siv_encrypt, siv_decrypt, s2v_cmac, xor_bytes, shifted, masked, subtle_equal, difference,
}
use discodrive_apps.Vault.Siv.Bits.{xor_byte, or_byte, or_bits}
use discodrive_apps.Vault.Names.{Keys, dir_id_hash, encrypt_name, decrypt_name, shortened_name}
use discodrive_apps.Vault.Tree.{Draw}
use discodrive_apps.Vault.Tree.Osio.{Os}
use discodrive_apps.Vault.Tree.Memory.{Paths, children, content_of, strip}
use discodrive_apps.Vault.Encrypt.{
  encrypt_tree, encrypt_dir, encrypt_entries, encrypt_entry, encrypt_long, encrypt_short,
  encrypt_file, write_dir_id_file,
}
use discodrive_apps.Vault.Decrypt.{
  decrypt_tree, decrypt_dir, decrypt_entries, decrypt_entry, decrypt_long, decrypt_short,
  decrypt_file,
}
use discodrive_apps.Tests.Content.{toy, nonces}
use discodrive_apps.Tests.Keys.{ciphers}

abbrev is_there : Result Str → Bool
is_there (ok x) = true
is_there (err e) = false

abbrev disk : Os
disk = record {
  State = Paths;
  read_dir = λ dir ps. ok (children dir ps);
  read_file = content_of;
  exists = λ path ps. is_there (content_of path ps);
  mkdir_all = λ path ps. (ok tt, (path, none) ∷ ps);
  write_file = λ path bytes ps. (ok tt, (path, some bytes) ∷ ps);
  remove_all = λ path ps. (ok tt, ps);
}

abbrev sha1 : Str → Str
sha1 s = take 20 (drop 16 s ++ replicate 20 0)

abbrev keys : Keys
keys = record { enc_key = replicate 32 7; mac_key = replicate 32 1 }

abbrev draw : Str → Draw
draw path = record { header_nonce = replicate 12 0; content_key = replicate 32 9; nonces = nonces }

abbrev source : Paths
source =
    (codes "/s/a", some (codes "one"))
    ∷ (codes "/s/b", none)
    ∷ (codes "/s/b/c", some (codes "two"))
    ∷ []

abbrev uuid : Str → Str
uuid path = codes "id"

abbrev encrypted : Result (Unit {0}) × Paths
encrypted = encrypt_tree disk toy ciphers sha1 keys draw uuid 3 (codes "/s") (codes "/v") source

abbrev restored : Result (Unit {0}) × Paths
restored = decrypt_tree disk toy ciphers sha1 keys 3 (codes "/v") (codes "/o") encrypted.1

-- Both files come back, the one in the folder as well.
files_again :
    (content_of (codes "/o/a") restored.1 ≡ ok (codes "one"))
    × (content_of (codes "/o/b/c") restored.1 ≡ ok (codes "two"))
unfolding encrypt_tree encrypt_dir encrypt_entries encrypt_entry encrypt_long encrypt_short
    encrypt_file write_dir_id_file decrypt_tree decrypt_dir decrypt_entries decrypt_entry
    decrypt_long decrypt_short decrypt_file dir_id_hash encrypt_name siv_encrypt s2v_cmac
    shortened_name Base32.encode Base64.encode encrypt_content encrypt_chunks xor_bytes shifted
    xor_byte or_byte or_bits children strip content_of str_eq decrypt_name siv_decrypt subtle_equal
    difference masked FilePath.join FilePath.clean FilePath.split FilePath.elements Base64.decode
    Base64.decode_digits decrypt_content decrypt_chunks
files_again = (refl, refl)
