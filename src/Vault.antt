-- ===== src/Vault.antt =====
-- daemon/internal/vault: the Cryptomator format of an encrypted vault. The ciphers and the hash
-- functions, and the random bytes, are parameters of the model; a byte is a number below 256.
pub mod Aead
pub mod Content
pub mod Siv
pub mod Names
pub mod Tree
pub mod Master
pub mod Encrypt
pub mod Decrypt
pub mod Fuel
pub mod KeyWrap
pub mod Recovery
use discodrive_apps.Base.{ℕ, List}

abbrev pub Bytes : Type 0
Bytes = List ℕ
